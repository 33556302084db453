-- ===== src/Simulator/Perf/Table.antt =====
-- The table of the performance counters, cut at a counter.
use embed_rtos.Base.{
  ℕ, zero, suc, ◌+◌, ◌≤◌, ◌≡◌, refl, ap, ◌∙◌, ◌⊎◌, inl, inr, true, Option, none, some, List, [],
  ◌∷◌, ◌++◌, arith, length, get_elem?, take, add32, sub32, if◌then◌else◌, Bool-cases,
  get_elem?-append_right, set-middle, ==_iff,
}
use embed_rtos.Simulator.Board.{PerfCounter}
use embed_rtos.Simulator.Perf.{same_name, find_counter, mark_start, add_elapsed}

-- The first counter of a name, its total time and its number of calls.
abbrev pub lookup : List ℕ → List PerfCounter → Option PerfCounter
lookup name [] = none
lookup name (c ∷ cs) = if same_name c.name name then some c else lookup name cs

abbrev pub total_of : List ℕ → List PerfCounter → ℕ
total_of name cs = elim (lookup name cs) [ none ↦ 0 | some c ↦ c.total_time ]

abbrev pub calls_of : List ℕ → List PerfCounter → ℕ
calls_of name cs = elim (lookup name cs) [ none ↦ 0 | some c ↦ c.call_count ]

pub same_name_refl : (name : List ℕ) → same_name name name ≡ true
same_name_refl [] = refl
same_name_refl (a ∷ name) = rw ((==_iff a a).1 refl) (same_name_refl name)

pub take-all : (n : ℕ) (xs : List ℕ) → length xs ≤ n → take n xs ≡ xs
take-all zero [] h = refl
take-all zero (x ∷ xs) h = absurd (omega arith)
take-all (suc n) [] h = refl
take-all (suc n) (x ∷ xs) h = ap (λ ys. x ∷ ys) (take-all n xs (omega arith))

-- The table with the counter `c` of the name, the first one, in the middle.
pub record At (name : List ℕ) (cs : List PerfCounter) (xs : List PerfCounter) (c : PerfCounter)
    (ys : List PerfCounter) : Type 0 where
  pub table : cs ≡ xs ++ (c ∷ ys)
  pub none_before : lookup name xs ≡ none
  pub named : same_name c.name name ≡ true

pub find_counter_cases :
    (name : List ℕ) (cs : List PerfCounter)
    → (lookup name cs ≡ none)
      ⊎ ((xs : List PerfCounter) × (c : PerfCounter) × (ys : List PerfCounter) × At name cs xs c ys)
find_counter_cases name [] = inl refl
find_counter_cases name (c ∷ cs) = elim (Bool-cases (same_name c.name name)) [
  | inl e ↦ inr ([], c, cs, record { table = refl; none_before = refl; named = e })
  | inr e ↦ elim (find_counter_cases name cs) [
    | inl n ↦ inl (rw e n)
    | inr f ↦
        let a : At name cs f.0 f.1 f.2 = f.3 in
        inr (
          c ∷ f.0,
          f.1,
          f.2,
          record {
            table = ap (λ ys. c ∷ ys) a.table;
            none_before = rw e a.none_before;
            named = a.named;
          },
        )
  ]
]

pub find_counter-none :
    (name : List ℕ) (i : ℕ) (xs ys : List PerfCounter)
    → lookup name xs ≡ none
    → find_counter name i (xs ++ ys) ≡ find_counter name (i + length xs) ys
find_counter-none name i [] ys h = ap (λ k. find_counter name k ys) (omega arith)
find_counter-none name i (c ∷ xs) ys h =
    let rest = find_counter-none name (suc i) xs ys in ground (arith, h, rest)

lookup-none :
    (name : List ℕ) (xs ys : List PerfCounter)
    → lookup name xs ≡ none
    → lookup name (xs ++ ys) ≡ lookup name ys
lookup-none name [] ys h = refl
lookup-none name (c ∷ xs) ys h = ground (arith, h, lookup-none name xs ys)

module _ (name : List ℕ) (xs : List PerfCounter) (ys : List PerfCounter) where
  get_elem?-at : (c : PerfCounter) → get_elem? (xs ++ (c ∷ ys)) (length xs) ≡ some c
  get_elem?-at c = get_elem?-append_right xs (c ∷ ys) (length xs) 0 (omega arith)

  pub find_counter-at :
      (c : PerfCounter)
      → lookup name xs ≡ none
      → same_name c.name name ≡ true
      → find_counter name 0 (xs ++ (c ∷ ys)) ≡ some (length xs)
  find_counter-at c h e =
      find_counter-none name 0 xs (c ∷ ys) h
      ∙ ap (λ b. if b then some (0 + length xs) else find_counter name (suc (0 + length xs)) ys) e
      ∙ ap some (omega arith)

  pub lookup-at :
      (c : PerfCounter)
      → lookup name xs ≡ none
      → same_name c.name name ≡ true
      → lookup name (xs ++ (c ∷ ys)) ≡ some c
  lookup-at c h e =
      lookup-none name xs (c ∷ ys) h ∙ ap (λ b. if b then some c else lookup name ys) e

  pub mark_start-at :
      (now : ℕ) (c : PerfCounter)
      → mark_start (length xs) now (xs ++ (c ∷ ys)) ≡ xs ++ (record c { start_time = now } ∷ ys)
  unfolding mark_start
  mark_start-at now c =
      rw (mark_start, get_elem?-at c) (set-middle xs c ys (record c { start_time = now }))

  abbrev pub elapsed : ℕ → PerfCounter → PerfCounter
  elapsed now c = record c {
    total_time = add32 c.total_time (sub32 now c.start_time);
    call_count = add32 c.call_count 1;
  }

  pub add_elapsed-at :
      (now : ℕ) (c : PerfCounter)
      → add_elapsed (length xs) now (xs ++ (c ∷ ys)) ≡ xs ++ (elapsed now c ∷ ys)
  unfolding add_elapsed
  add_elapsed-at now c = rw (add_elapsed, get_elem?-at c) (set-middle xs c ys (elapsed now c))
