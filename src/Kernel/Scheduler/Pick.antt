-- ===== src/Kernel/Scheduler/Pick.antt =====
-- What `find_highest_priority_task` finds.
use embed_rtos.Base.{
  ℕ, ◌+◌, ◌≤◌, ◌<◌, ◌≡◌, refl, sym, ap, ◌∙◌, ◌≢◌, ◌⊎◌, inl, inr, true, false, Bool-cases, Option,
  none, some, List, [], ◌∷◌, ◌++◌, append-nil, append_assoc, arith, length, get_elem?, ltb,
  length-append, get_elem?-snoc, get_elem?-append_last, get_elem?-append_left, lt-length_of_some,
}
use embed_rtos.Kernel.Scheduler.{
  TaskState, ready, running, blocked, suspended, Task, is_ready, better, find_from,
  find_highest_priority_task,
}

-- Task `i` is ready, no ready task has a smaller priority number, and none before it an equal one.
pub record IsHighest (tasks : List Task) (i : ℕ) (t : Task) : Type 0 where
  pub at : get_elem? tasks i ≡ some t
  pub is_ready : t.state ≡ ready
  pub least :
      (j : ℕ) (u : Task) → get_elem? tasks j ≡ some u → u.state ≡ ready → t.priority ≤ u.priority
  pub first :
      (j : ℕ) (u : Task)
      → get_elem? tasks j ≡ some u
      → u.state ≡ ready
      → j < i
      → t.priority < u.priority

-- The answer for the tasks looked at so far.
abbrev pub Finds : List Task → Option (ℕ × Task) → Type 0
Finds tasks none = (j : ℕ) (u : Task) → get_elem? tasks j ≡ some u → u.state ≢ ready
Finds tasks (some (i, t)) = IsHighest tasks i t

Finds-skip :
    (tasks : List Task) (y : Task) (best : Option (ℕ × Task))
    → y.state ≢ ready
    → Finds tasks best
    → Finds (tasks ++ (y ∷ [])) best
Finds-skip tasks y none ne f = λ j u e. elim (get_elem?-snoc tasks y j e) [
  | inl p ↦ f j u p
  | inr p ↦ λ r. ne (ap (λ x. x.state) (sym p.1) ∙ r)
]
Finds-skip tasks y (some (i, t)) ne f = record {
  at = get_elem?-append_left tasks (y ∷ []) i f.at;
  is_ready = f.is_ready;
  least = λ j u e r. elim (get_elem?-snoc tasks y j e) [
    | inl p ↦ f.least j u p r
    | inr p ↦ absurd (ne (ap (λ x. x.state) (sym p.1) ∙ r))
  ];
  first = λ j u e r l. elim (get_elem?-snoc tasks y j e) [
    | inl p ↦ f.first j u p r l
    | inr p ↦ absurd (ne (ap (λ x. x.state) (sym p.1) ∙ r))
  ];
}

Finds-better :
    (tasks : List Task) (y : Task) (best : Option (ℕ × Task))
    → y.state ≡ ready
    → Finds tasks best
    → Finds (tasks ++ (y ∷ [])) (better y (length tasks) best)
unfolding better
Finds-better tasks y none r f = record {
  at = get_elem?-append_last tasks y;
  is_ready = r;
  least = λ j u e q. elim (get_elem?-snoc tasks y j e) [
    | inl p ↦ absurd (f j u p q)
    | inr p ↦ omega (arith, ap (λ x. x.priority) p.1)
  ];
  first = λ j u e q l. elim (get_elem?-snoc tasks y j e) [
    | inl p ↦ absurd (f j u p q)
    | inr p ↦ absurd (omega (arith, p.0))
  ];
}
Finds-better tasks y (some (i, t)) r f = elim (Bool-cases (ltb y.priority t.priority)) [
  | inl lt ↦ rw lt (record {
    at = get_elem?-append_last tasks y;
    is_ready = r;
    least = λ j u e q. elim (get_elem?-snoc tasks y j e) [
      | inl p ↦ ground (arith, f.least j u p q)
      | inr p ↦ omega (arith, ap (λ x. x.priority) p.1)
    ];
    first = λ j u e q l. elim (get_elem?-snoc tasks y j e) [
      | inl p ↦ ground (arith, f.least j u p q)
      | inr p ↦ absurd (omega (arith, p.0))
    ];
  })
  | inr ge ↦ rw ge (record {
    at = get_elem?-append_left tasks (y ∷ []) i f.at;
    is_ready = f.is_ready;
    least = λ j u e q. elim (get_elem?-snoc tasks y j e) [
      | inl p ↦ f.least j u p q
      | inr p ↦ ground (arith, ap (λ (x : Task). x.priority) p.1)
    ];
    first = λ j u e q l. elim (get_elem?-snoc tasks y j e) [
      | inl p ↦ f.first j u p q l
      | inr p ↦ absurd (omega (arith, p.0, lt-length_of_some tasks i f.at))
    ];
  })
]

state-cases :
    (s : TaskState) → ((s ≡ ready) × (is_ready s ≡ true)) ⊎ ((s ≢ ready) × (is_ready s ≡ false))
state-cases ready = inl (refl, refl)
state-cases running = inr (λ e. cc, refl)
state-cases blocked = inr (λ e. cc, refl)
state-cases suspended = inr (λ e. cc, refl)

find_from-Finds :
    (seen ts : List Task) (best : Option (ℕ × Task))
    → Finds seen best
    → Finds (seen ++ ts) (find_from ts (length seen) best)
unfolding find_from
find_from-Finds seen [] best f = rw append-nil f
find_from-Finds seen (t ∷ ts) best f =
    let longer : length seen + 1 ≡ length (seen ++ (t ∷ [])) =
      omega (arith, length-append seen (t ∷ [])) in
    let regroup : seen ++ (t ∷ ts) ≡ (seen ++ (t ∷ [])) ++ ts =
      sym (append_assoc seen (t ∷ []) ts) in
    rw (longer, regroup)
      (elim (state-cases t.state) [
        | inl r ↦ rw (r.1) (
            find_from-Finds (seen ++ (t ∷ [])) ts (better t (length seen) best)
              (Finds-better seen t best r.0 f))
        | inr n ↦
            rw (n.1) (find_from-Finds (seen ++ (t ∷ [])) ts best (Finds-skip seen t best n.0 f))
      ])

-- `find_highest_priority_task` answers NULL only if no task is ready, and else a ready task of the
-- least priority number, the first of these in the order of creation.
pub find_highest_priority_task-Finds :
    (tasks : List Task) → Finds tasks (find_highest_priority_task tasks)
unfolding find_highest_priority_task
find_highest_priority_task-Finds tasks = find_from-Finds [] tasks none (λ j u e r. cc)

-- At most one task is the highest.
pub IsHighest-unique :
    {tasks : List Task} {i j : ℕ} {t u : Task} → IsHighest tasks i t → IsHighest tasks j u → i ≡ j
IsHighest-unique {i} {j} {t} {u} a b =
    ground (arith, a.first j u, b.first i t, a.least j u, b.least i t)
