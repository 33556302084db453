-- ===== src/Kernel/Queue/Examples.antt =====
-- A queue of two elements of two bytes each, and `malloc` as a function that grants every block.
use embed_rtos.Base.{
  ℕ, ◌≡◌, ◌<◌, refl, ap, sym, ◌∙◌, true, Option, none, some, List, [], ◌∷◌, arith, length,
  replicate, length-replicate,
}
use embed_rtos.Kernel.Queue.{Queue, create}
use embed_rtos.Kernel.Queue.Bounds.{IsValid}
use embed_rtos.Kernel.Queue.Fifo.{contents}
use embed_rtos.Kernel.Queue.Wrap.{create-overruns}
use embed_rtos.Kernel.Queue.Runs.{Call, send, receive, run, run_list, run_refines}

-- One element, in the last slot, so that the next one wraps.
abbrev one_item : Queue
one_item = record {
  buffer = 0 ∷ 0 ∷ 5 ∷ 6 ∷ [];
  capacity = 2;
  element_size = 2;
  head = 1;
  tail = 0;
  count = 1;
}

one_item-IsValid : IsValid one_item
one_item-IsValid = ground arith

abbrev element : List ℕ
element = 1 ∷ 2 ∷ []

abbrev calls : List Call
calls = send element ∷ send (3 ∷ 4 ∷ []) ∷ receive ∷ receive ∷ receive ∷ []

abbrev after_element : Queue
after_element = record one_item { buffer = 1 ∷ 2 ∷ 5 ∷ 6 ∷ []; tail = 1; count = 2 }

run_refines_example : run (some one_item) calls ≡ some (run_list 2 (contents one_item) calls)
run_refines_example = run_refines calls one_item-IsValid (refl, (refl, _))

abbrev grant : ℕ → Option (List ℕ)
grant n = some (replicate n 0)

grant-gives : (n : ℕ) (block : List ℕ) → grant n ≡ some block → length block ≡ n
grant-gives n block h =
    let e : replicate n 0 ≡ block = cc in ap length (sym e) ∙ length-replicate n 0

abbrev new_queue : Queue
new_queue = record {
  buffer = 0 ∷ 0 ∷ 0 ∷ 0 ∷ [];
  capacity = 2;
  element_size = 2;
  head = 0;
  tail = 0;
  count = 0;
}

creates : create true grant 2 2 ≡ some new_queue
unfolding create
creates = refl

-- 65536 elements of 65536 bytes: the byte size is 0 modulo 2 ^ 32.
abbrev short_queue : Queue
short_queue = record {
  buffer = [];
  capacity = 65536;
  element_size = 65536;
  head = 0;
  tail = 0;
  count = 0;
}

creates_short : create true grant 65536 65536 ≡ some short_queue
unfolding create
creates_short = refl

-- 2 ^ 31 + 1 elements of two bytes: the block is of two bytes.
create-overruns_example :
    (q : Queue) × (create true grant 2147483649 2 ≡ some q)
    × (run (some q) (send element ∷ []) ≡ some ((true, none) ∷ []))
    × (run (some q) (send element ∷ send element ∷ []) ≡ none)
    × (1 < 2147483649)
create-overruns_example =
    create-overruns grant 2147483649 2 (0 ∷ 0 ∷ []) (element ∷ []) element refl refl (omega arith)
      (omega arith) (refl, _) refl (omega arith) (omega arith)
