-- ===== src/Kernel/Queue/Runs.antt =====
-- Sequences of calls of src/kernel/queue.c.
use embed_rtos.Base.{ℕ, ◌≡◌, refl, ap₂, Bool, Option, none, some, List, [], ◌∷◌, length, ◌>>=◌}
use embed_rtos.Kernel.Queue.{Queue, enqueue, dequeue}
use embed_rtos.Kernel.Queue.Bounds.{IsValid}
use embed_rtos.Kernel.Queue.Fifo.{contents, put, get, enqueue_refines, dequeue_refines}

pub data Call : Type 0 where
  send : List ℕ → Call
  receive : Call

abbrev pub Reply : Type 0
Reply = Bool × Option (List ℕ)

-- What the calls return in turn, through the C functions.
unfoldable pub run : Option Queue → List Call → Option (List Reply)
run q [] = some []
run q (send x ∷ calls) = enqueue q x >>= λ r. run r.1 calls >>= λ rest. some ((r.0, none) ∷ rest)
run q (receive ∷ calls) = dequeue q >>= λ r. run r.2 calls >>= λ rest. some ((r.0, r.1) ∷ rest)

-- The same calls on a bounded queue of elements.
unfoldable pub run_list : ℕ → List (List ℕ) → List Call → List Reply
run_list cap xs [] = []
run_list cap xs (send x ∷ calls) = ((put cap x xs).0, none) ∷ run_list cap (put cap x xs).1 calls
run_list cap xs (receive ∷ calls) = ((get xs).0, (get xs).1) ∷ run_list cap (get xs).2 calls

-- Every element sent has the queue's element size.
abbrev pub HasSize : ℕ → List Call → Type 0
HasSize e [] = Unit
HasSize e (send x ∷ calls) = (length x ≡ e) × HasSize e calls
HasSize e (receive ∷ calls) = HasSize e calls

-- The replies of the rest, once the states agree.
rest_of :
    {cap cap' : ℕ} {xs xs' : List (List ℕ)} (r : Reply) (calls : List Call)
    → cap' ≡ cap
    → xs' ≡ xs
    → ◌≡◌ {A = Option (List Reply)}
        (some (r ∷ run_list cap' xs' calls))
        (some (r ∷ run_list cap xs calls))
rest_of r calls c h = ap₂ (λ k ys. some (r ∷ run_list k ys calls)) c h

-- No sequence of sends and receives tells a valid queue from the bounded list of its contents, and
-- none makes an access out of bounds.
pub run_refines :
    (calls : List Call) {q : Queue}
    → IsValid q
    → HasSize q.element_size calls
    → run (some q) calls ≡ some (run_list q.capacity (contents q) calls)
unfolding run run_list
run_refines [] v s = refl
run_refines (send x ∷ calls) v s =
    let (q', eq, v', holds, cap', size') = enqueue_refines x v s.0 in
    rw (eq, run_refines calls v' (rw size' s.1)) (rest_of _ calls cap' holds)
run_refines (receive ∷ calls) v s =
    let (q', eq, v', holds, cap', size') = dequeue_refines v in
    rw (eq, run_refines calls v' (rw size' s)) (rest_of _ calls cap' holds)
