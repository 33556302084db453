-- ===== src/Simulator/Board/Ticks.antt =====
-- What a tick does to the interrupts.
use embed_rtos.Base.{
  ℕ, suc, ◌≡◌, refl, sym, ap, ap₂, ◌∙◌, inl, inr, Bool, true, false, not, ◌&&◌, ◌||◌, none, some,
  List, [], ◌∷◌, ◌++◌, map, append_assoc, arith, length, get_elem?, if◌then◌else◌, Bool-cases,
  Option-cases, add32, get_elem?-append_right, length-append, set-middle,
}
use embed_rtos.Simulator.Board.{
  Machine, BoardState, VirtInterrupt, handle, process_interrupts, tick,
}

-- Whether a tick calls the handler of an interrupt, and the interrupt after it.
abbrev pub is_due : VirtInterrupt → Bool
is_due q = q.enabled && q.pending

abbrev pub settled : VirtInterrupt → VirtInterrupt
settled q = elim (is_due q) [
  | false ↦ q
  | true ↦ elim q.handler [ none ↦ q | some h ↦ record q { pending = false } ]
]

-- The handlers that a tick calls, in the order of the table.
abbrev pub due : List VirtInterrupt → List ℕ
due [] = []
due (q ∷ qs) = elim (is_due q) [
  | false ↦ due qs
  | true ↦ elim q.handler [ none ↦ due qs | some h ↦ h ∷ due qs ]
]

abbrev pub run_all : {W : Type 0} → (ℕ → W → W) → List ℕ → W → W
run_all f [] w = w
run_all f (h ∷ hs) w = run_all f hs (f h w)

module _ {W : Type 0} (call : ℕ → Machine W → Machine W) (f : ℕ → W → W) where
  abbrev with_table : Machine W → List VirtInterrupt → W → Machine W
  with_table m qs w = record m { interrupts = qs; outside = w }

  -- One entry, with `xs` before it and `ys` behind it.
  handle-settled :
      ((h : ℕ) (m : Machine W) → call h m ≡ record m { outside = f h m.outside })
      → (xs : List VirtInterrupt) (q : VirtInterrupt) (ys : List VirtInterrupt) (m : Machine W)
        (w : W)
      → handle call (length xs) (with_table m (xs ++ (q ∷ ys)) w)
        ≡ with_table m (xs ++ (settled q ∷ ys)) (run_all f (due (q ∷ [])) w)
  unfolding handle
  handle-settled pure xs q ys m w =
      let at : get_elem? (xs ++ (q ∷ ys)) (length xs) ≡ some q =
        get_elem?-append_right xs (q ∷ ys) (length xs) 0 (omega arith) in
      let same : (h : ℕ)
          → call h (with_table m (xs ++ (q ∷ ys)) w) ≡ with_table m (xs ++ (q ∷ ys)) (f h w) =
        λ h. pure h (with_table m (xs ++ (q ∷ ys)) w) in
      let write = set-middle xs q ys (record q { pending = false }) in
      elim (Option-cases q.handler) [
        | inl e ↦ ground (arith, at, e)
        | inr e ↦ let step = same e.0 in ground (arith, at, e.1, step, write)
      ]

  run_all-due :
      (q : VirtInterrupt) (qs : List VirtInterrupt) (w : W)
      → run_all f (due qs) (run_all f (due (q ∷ [])) w) ≡ run_all f (due (q ∷ qs)) w
  run_all-due q qs w = elim (Bool-cases (is_due q)) [
    | inr e ↦ ground (arith, e)
    | inl e ↦ elim (Option-cases q.handler) [
      | inl n ↦ ground (arith, e, n)
      | inr h ↦ ground (arith, e, h.1)
    ]
  ]

  process_interrupts-settled :
      ((h : ℕ) (m : Machine W) → call h m ≡ record m { outside = f h m.outside })
      → (xs ys : List VirtInterrupt) (m : Machine W) (w : W)
      → process_interrupts call (length ys) (length xs) (with_table m (xs ++ ys) w)
        ≡ with_table m (xs ++ map settled ys) (run_all f (due ys) w)
  unfolding process_interrupts
  process_interrupts-settled pure xs [] m w = refl
  process_interrupts-settled pure xs (q ∷ qs) m w =
      let xs' : List VirtInterrupt = xs ++ (settled q ∷ []) in
      let w' : W = run_all f (due (q ∷ [])) w in
      ap₂ (process_interrupts call (length qs))
        (let e : suc (length xs) ≡ length xs' = omega (arith, length-append xs (settled q ∷ [])) in
          e)
        (handle-settled pure xs q qs m w
          ∙ ap (λ zs. with_table m zs w') (sym (append_assoc xs (settled q ∷ []) qs)))
      ∙ process_interrupts-settled pure xs' qs m w'
      ∙ ap₂ (with_table m) (append_assoc xs (settled q ∷ []) (map settled qs)) (run_all-due q qs w)

-- The counters of a tick.
abbrev pub ticked : BoardState → BoardState
ticked b = record b {
  tick_counter = add32 b.tick_counter 1;
  uptime_ms = add32 b.uptime_ms 1;
  instruction_count = add32 b.instruction_count 100;
  cycle_count = add32 b.cycle_count 100;
}

pub due-settled : (qs : List VirtInterrupt) → due (map settled qs) ≡ []
due-settled [] = refl
due-settled (q ∷ qs) = elim (Bool-cases (is_due q)) [
  | inr e ↦ ground (arith, e, due-settled qs)
  | inl e ↦ elim (Option-cases q.handler) [
    | inl n ↦ ground (arith, e, n, due-settled qs)
    | inr h ↦ ground (arith, e, h.1, due-settled qs)
  ]
]

-- On a board that runs and does not sleep, and where what the handlers do is outside of the board, a
-- tick calls the handlers of the interrupts that are enabled and pending, each once and in the order
-- of the table, takes back the request of those interrupts and of no other, and advances the
-- counters. No interrupt is left that the next tick would handle.
pub tick-handles :
    {W : Type 0} (call : ℕ → Machine W → Machine W) (f : ℕ → W → W) (m : Machine W)
    → ((h : ℕ) (m' : Machine W) → call h m' ≡ record m' { outside = f h m'.outside })
    → length m.interrupts ≡ 32
    → m.board.running ≡ true
    → m.board.sleep_mode ≡ false
    → (tick call m ≡ record m {
      board = ticked m.board;
      interrupts = map settled m.interrupts;
      outside = run_all f (due m.interrupts) m.outside;
    })
      × (due (map settled m.interrupts) ≡ [])
unfolding tick
tick-handles call f m pure size on awake =
    let goes_on : (not m.board.running || m.board.sleep_mode) ≡ false = rw (on, awake) refl in
    let counting : Machine _ = record m { board = ticked m.board } in
    (
      ap (λ b. if b then m else process_interrupts call 32 0 counting) goes_on
          ∙ ap (λ k. process_interrupts call k 0 counting) (sym size)
          ∙ process_interrupts-settled call f pure [] m.interrupts counting m.outside,
      due-settled m.interrupts,
    )
