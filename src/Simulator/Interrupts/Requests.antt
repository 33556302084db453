-- ===== src/Simulator/Interrupts/Requests.antt =====
-- An interrupt from its set-up to the ticks after its request.
use embed_rtos.Base.{
  ℕ, zero, suc, ◌<◌, ◌≡◌, refl, ap, ◌∙◌, inl, inr, Bool, true, false, Option, some, List, [], ◌∷◌,
  map, arith, length, get_elem?, get_elem?-set_self, length-set, set-set, set, Bool-cases,
  Option-cases, ◌>>=◌, leb, leb-false,
}
use embed_rtos.Simulator.Board.{Machine, VirtInterrupt, tick}
use embed_rtos.Simulator.Board.Ticks.{
  due, settled, is_due, run_all, ticked, tick-handles, due-settled,
}
use embed_rtos.Simulator.Interrupts.{update_entry, init, enable, trigger, is_pending}

due-tail : (q : VirtInterrupt) (qs : List VirtInterrupt) → due (q ∷ qs) ≡ [] → due qs ≡ []
due-tail q qs e = elim (Bool-cases (is_due q)) [
  | inr b ↦ ground (arith, b, e)
  | inl b ↦ elim (Option-cases q.handler) [
    | inl n ↦ ground (arith, b, n, e)
    | inr h ↦ ground (arith, b, h.1, e)
  ]
]

due-skip :
    (q : VirtInterrupt) (qs rs : List VirtInterrupt) → due (q ∷ qs) ≡ [] → due (q ∷ rs) ≡ due rs
due-skip q qs rs e = elim (Bool-cases (is_due q)) [
  | inr b ↦ ground (arith, b)
  | inl b ↦ elim (Option-cases q.handler) [
    | inl n ↦ ground (arith, b, n)
    | inr h ↦ ground (arith, b, h.1, e)
  ]
]

due-only : (q : VirtInterrupt) (qs : List VirtInterrupt) → due qs ≡ [] → due (q ∷ qs) ≡ due (q ∷ [])
due-only q qs e = elim (Bool-cases (is_due q)) [
  | inr b ↦ ground (arith, b, e)
  | inl b ↦ elim (Option-cases q.handler) [
    | inl n ↦ ground (arith, b, n, e)
    | inr h ↦ ground (arith, b, h.1, e)
  ]
]

-- Where nothing is due, a new entry is all that can be.
due-set :
    (xs : List VirtInterrupt) (n : ℕ) (q : VirtInterrupt)
    → n < length xs
    → due xs ≡ []
    → due (set xs n q) ≡ due (q ∷ [])
due-set [] n q h e = absurd (omega arith)
due-set (x ∷ xs) zero q h e = due-only q xs (due-tail x xs e)
due-set (x ∷ xs) (suc n) q h e =
    due-skip x xs (set xs n q) e ∙ due-set xs n q (omega arith) (due-tail x xs e)

length-settled : (qs : List VirtInterrupt) → length (map settled qs) ≡ length qs
length-settled [] = refl
length-settled (q ∷ qs) = ap suc (length-settled qs)

-- The entry after `init`, `enable` and `trigger`.
abbrev pub requested : ℕ → ℕ → ℕ → VirtInterrupt
requested n h priority = record {
  irq_number = n;
  enabled = true;
  pending = true;
  handler = some h;
  priority = priority;
}

abbrev pub request :
    {W : Type 0} → VirtInterrupt → ℕ → ℕ → ℕ → Machine W → Option (Option VirtInterrupt × Machine W)
request irq n h priority m =
    init (some irq) n (some h) priority m >>= λ r. enable r.0 r.1 >>= λ r. trigger r.0 r.1

entry :
    (table : List VirtInterrupt) (n : ℕ)
    → n < length table
    → (q : VirtInterrupt) × (get_elem? table n ≡ some q)
entry [] n h = absurd (omega arith)
entry (q ∷ table) zero h = (q, refl)
entry (q ∷ table) (suc n) h = entry table n (omega arith)

update_entry-new :
    (table : List VirtInterrupt) (n : ℕ) (q : VirtInterrupt)
    → n < length table
    → update_entry table n (λ _. q) ≡ some (set table n q)
unfolding update_entry
update_entry-new table n q h = rw (entry table n h).1 refl

update_entry-set :
    (table : List VirtInterrupt) (n : ℕ) (q : VirtInterrupt)
    (change : VirtInterrupt → VirtInterrupt)
    → n < length table
    → update_entry (set table n q) n change ≡ some (set table n (change q))
unfolding update_entry
update_entry-set table n q change h =
    rw (get_elem?-set_self table n q h) (ap some (set-set table n q (change q)))

request-requested :
    {W : Type 0} (irq : VirtInterrupt) (n h priority : ℕ) (m : Machine W)
    → n < 32
    → length m.interrupts ≡ 32
    → request irq n h priority m
      ≡ some (
        some (requested n h priority),
        record m { interrupts = set m.interrupts n (requested n h priority) },
      )
unfolding init enable trigger
request-requested irq n h priority m hn size =
    let in_table : leb 32 n ≡ false = leb-false 32 n hn in
    let irq_at : Bool → Bool → VirtInterrupt = λ e p. record {
      irq_number = n;
      enabled = e;
      pending = p;
      handler = some h;
      priority = priority;
    } in
    let first = update_entry-new m.interrupts n (irq_at false false) (omega arith) in
    let second =
      update_entry-set m.interrupts n (irq_at false false) (λ q. record q { enabled = true })
        (omega arith) in
    let third =
      update_entry-set m.interrupts n (irq_at true false) (λ q. record q { pending = true })
        (omega arith) in
    rw (in_table, first, ◌>>=◌, second, ◌>>=◌, third) refl

-- On a board that runs and does not sleep, where no interrupt is due and what the handlers do is
-- outside of the board: an interrupt that is set up with a handler, enabled and triggered has its
-- handler called once by the next tick and not again by the tick after it. The caller's own copy
-- still reads as pending.
pub request-handled_once :
    {W : Type 0} (call : ℕ → Machine W → Machine W) (f : ℕ → W → W) (m : Machine W)
    (irq : VirtInterrupt) (n h priority : ℕ)
    → ((h' : ℕ) (m' : Machine W) → call h' m' ≡ record m' { outside = f h' m'.outside })
    → n < 32
    → length m.interrupts ≡ 32
    → m.board.running ≡ true
    → m.board.sleep_mode ≡ false
    → due m.interrupts ≡ []
    → (irq' : Option VirtInterrupt) × (m' : Machine W) × (request irq n h priority m
        ≡ some (irq', m'))
      × ((tick call m').outside ≡ f h m.outside)
      × ((tick call (tick call m')).outside ≡ f h m.outside)
      × (is_pending irq' ≡ true)
unfolding is_pending
request-handled_once call f m irq n h priority pure hn size on awake quiet =
    let q : VirtInterrupt = requested n h priority in
    let m' : Machine _ = record m { interrupts = set m.interrupts n q } in
    let size' : length m'.interrupts ≡ 32 = length-set m.interrupts n q ∙ size in
    let first = tick-handles call f m' pure size' on awake in
    let called : run_all f (due m'.interrupts) m.outside ≡ f h m.outside =
      ap (λ hs. run_all f hs m.outside) (due-set m.interrupts n q (omega arith) quiet) in
    let m'' : Machine _ = record m' {
      board = ticked m.board;
      interrupts = map settled m'.interrupts;
      outside = run_all f (due m'.interrupts) m.outside;
    } in
    let second = tick-handles call f m'' pure (length-settled m'.interrupts ∙ size') on awake in
    (
      some q,
      m',
      request-requested irq n h priority m hn size,
      ap (λ k. k.outside) first.0 ∙ called,
      ap (λ k. (tick call k).outside) first.0
          ∙ ap (λ k. k.outside) second.0
          ∙ ap (λ hs. run_all f hs m''.outside) (due-settled m'.interrupts)
          ∙ called,
      refl,
    )
