-- ===== src/Kernel/Queue/Fifo.antt =====
-- The bounded list of elements that a queue of src/kernel/queue.c stands for.
use native.Mathlib.Nat.{mod-lt, mod-add-mod}
use embed_rtos.Base.{
  ℕ, suc, ◌+◌, ◌-◌, ◌*◌, ◌%◌, ◌<◌, ◌≡◌, refl, sym, ap, ◌∙◌, ◌≢◌, inl, inr, Bool, true, false,
  Option, none, some, List, [], ◌∷◌, ◌++◌, arith, length, slice, splice, ◌==◌, if◌then◌else◌, u32,
  Bool-cases, length-splice, slice-splice_self, slice-splice_apart, slice-all, read_bytes-in_range,
  write_bytes-in_range,
}
use embed_rtos.Base.Ring.{window, length-window, window-pos, window-write}
use embed_rtos.Kernel.Queue.{Queue, enqueue, dequeue, peek}
use embed_rtos.Kernel.Queue.Bounds.{IsValid, slot_in, slots_apart}

-- The element in slot `i` of the array.
abbrev pub slot : List ℕ → ℕ → ℕ → List ℕ
slot buffer e i = slice buffer 0 (i * e) e

-- The elements that the queue holds, oldest first.
abbrev pub contents : Queue → List (List ℕ)
contents q = window (slot q.buffer q.element_size) q.capacity q.head q.count

-- The bounded queue that `queue_t` stands for.
unfoldable pub put : ℕ → List ℕ → List (List ℕ) → Bool × List (List ℕ)
put cap x xs = if length xs == cap then (false, xs) else (true, xs ++ (x ∷ []))

unfoldable pub get : List (List ℕ) → Bool × Option (List ℕ) × List (List ℕ)
get [] = (false, none, [])
get (x ∷ xs) = (true, some x, xs)

-- The state after an element has gone in, and after one has come out.
abbrev enqueued : Queue → List ℕ → Queue
enqueued q x = record q {
  buffer = splice q.buffer (q.tail * q.element_size) x;
  tail = (q.tail + 1) % q.capacity;
  count = q.count + 1;
}

abbrev dequeued : Queue → Queue
dequeued q = record q { head = (q.head + 1) % q.capacity; count = q.count - 1 }

module _ {q : Queue} (v : IsValid q) where
  open q use {buffer, capacity, element_size as e, head, tail, count}

  tail_in : tail < capacity
  tail_in = omega (arith, v, mod-lt (head + count) {m = capacity} (omega arith))

  offset-fits : (i : ℕ) → i < capacity → u32 (i * e) ≡ i * e
  offset-fits i h = omega (arith, v, slot_in i capacity e h)

  whole : (x : List ℕ) → length x ≡ e → slice x 0 0 e ≡ x
  whole x hx = ap (slice x 0 0) (sym hx) ∙ slice-all x 0

  enqueue-room :
      (x : List ℕ)
      → length x ≡ e
      → count ≢ capacity
      → enqueue (some q) x ≡ some (true, some (enqueued q x))
  unfolding enqueue
  enqueue-room x hx ne = ground (
    arith,
    v,
    tail_in,
    read_bytes-in_range x 0 e,
    whole x hx,
    offset-fits tail tail_in,
    slot_in tail capacity e tail_in,
    write_bytes-in_range buffer (tail * e) x,
  )

  enqueued-IsValid : (x : List ℕ) → count ≢ capacity → IsValid (enqueued q x)
  enqueued-IsValid x ne = record {
    storage = length-splice buffer (tail * e) x ∙ v.storage;
    fits = v.fits;
    small = v.small;
    head_in = v.head_in;
    tail_at =
        ap (λ t. (t + 1) % capacity) v.tail_at
        ∙ mod-add-mod (head + count) capacity 1
        ∙ ap (λ k. k % capacity) (omega arith);
    count_in = omega (arith, v);
  }

  contents-enqueued :
      (x : List ℕ)
      → length x ≡ e
      → count ≢ capacity
      → contents (enqueued q x) ≡ contents q ++ (x ∷ [])
  contents-enqueued x hx ne =
      ap (window (slot (enqueued q x).buffer e) capacity head)
        (let s : count + 1 ≡ suc count = omega arith in s)
      ∙ window-write (slot buffer e) (slot (enqueued q x).buffer e) capacity x count head tail
          v.head_in (omega (arith, v)) v.tail_at
          (ap (slice (splice buffer (tail * e) x) 0 (tail * e)) (sym hx)
            ∙ slice-splice_self buffer 0 (tail * e) x
                (omega (arith, v, slot_in tail capacity e tail_in)))
          (λ j hj ne'.
            slice-splice_apart buffer 0 (tail * e) x (j * e) e (rw hx (slots_apart j tail e ne')))

  dequeue-some :
      count ≢ 0 → dequeue (some q) ≡ some (true, some (slot buffer e head), some (dequeued q))
  unfolding dequeue
  dequeue-some ne = ground (
    arith,
    v,
    read_bytes-in_range buffer (head * e) e,
    offset-fits head v.head_in,
    slot_in head capacity e v.head_in,
  )

  dequeued-IsValid : count ≢ 0 → IsValid (dequeued q)
  dequeued-IsValid ne = record {
    storage = v.storage;
    fits = v.fits;
    small = v.small;
    head_in = mod-lt (head + 1) (omega (arith, v));
    tail_at =
        v.tail_at
        ∙ ap (λ k. k % capacity) (omega arith)
        ∙ sym (mod-add-mod (head + 1) capacity (count - 1));
    count_in = omega (arith, v);
  }

module _ (q : Queue) where
  open q use {buffer, capacity, element_size as e, head, count}

  length-contents : length (contents q) ≡ count
  length-contents = length-window (slot buffer e) capacity head count

  enqueue-full : (x : List ℕ) → count ≡ capacity → enqueue (some q) x ≡ some (false, some q)
  unfolding enqueue
  enqueue-full x h = ground arith

  put-full : (x : List ℕ) → count ≡ capacity → put capacity x (contents q) ≡ (false, contents q)
  unfolding put
  put-full x h = ground (arith, length-contents)

  put-room :
      (x : List ℕ) → count ≢ capacity → put capacity x (contents q) ≡ (true, contents q ++ (x ∷ []))
  unfolding put
  put-room x h = ground (arith, length-contents)

  dequeue-empty : count ≡ 0 → dequeue (some q) ≡ some (false, none, some q)
  unfolding dequeue
  dequeue-empty h = ground arith

  contents-empty : count ≡ 0 → contents q ≡ []
  contents-empty h = ap (window (slot buffer e) capacity head) h

  contents-pos : count ≢ 0 → contents q ≡ slot buffer e head ∷ contents (dequeued q)
  contents-pos ne = window-pos (slot buffer e) capacity head count (omega arith)

-- `queue_enqueue` on a valid queue, with an element of the queue's size, makes no access out of
-- bounds, keeps the queue valid, and answers and stores as the bounded queue of its contents does:
-- at full capacity nothing changes, else the element goes last.
pub enqueue_refines :
    {q : Queue} (x : List ℕ)
    → IsValid q
    → length x ≡ q.element_size
    → (q' : Queue) × (enqueue (some q) x ≡ some ((put q.capacity x (contents q)).0, some q'))
      × IsValid q'
      × (contents q' ≡ (put q.capacity x (contents q)).1)
      × (q'.capacity ≡ q.capacity)
      × (q'.element_size ≡ q.element_size)
unfolding put
enqueue_refines {q} x v hx = elim (Bool-cases (q.count == q.capacity)) [
  | inl full ↦
      let e : q.count ≡ q.capacity = ground arith in
      rw (put-full q x e) (q, enqueue-full q x e, v, refl, refl, refl)
  | inr room ↦
      let ne : q.count ≢ q.capacity = ground arith in
      rw (put-room q x ne) (
        enqueued q x,
        enqueue-room v x hx ne,
        enqueued-IsValid v x ne,
        contents-enqueued v x hx ne,
        refl,
        refl,
      )
]

-- `queue_dequeue` on a valid queue makes no access out of bounds, keeps the queue valid, and gives
-- back the oldest element of the contents and leaves the rest; on an empty queue it fails and
-- changes nothing.
pub dequeue_refines :
    {q : Queue}
    → IsValid q
    → (q' : Queue) × (dequeue (some q) ≡ some ((get (contents q)).0, (get (contents q)).1, some q'))
      × IsValid q'
      × (contents q' ≡ (get (contents q)).2)
      × (q'.capacity ≡ q.capacity)
      × (q'.element_size ≡ q.element_size)
unfolding get
dequeue_refines {q} v = elim (Bool-cases (q.count == 0)) [
  | inl empty ↦
      let e : q.count ≡ 0 = ground arith in
      rw (contents-empty q e) (q, dequeue-empty q e, v, contents-empty q e, refl, refl)
  | inr more ↦
      let ne : q.count ≢ 0 = ground arith in
      rw (contents-pos q ne)
        (dequeued q, dequeue-some v ne, dequeued-IsValid v ne, refl, refl, refl)
]

-- `queue_peek` on a valid queue gives the same answer and element as `queue_dequeue` would.
pub peek-dequeue :
    {q : Queue} → IsValid q → peek (some q) ≡ some ((get (contents q)).0, (get (contents q)).1)
unfolding peek get
peek-dequeue {q} v = elim (Bool-cases (q.count == 0)) [
  | inl empty ↦ let e : q.count ≡ 0 = ground arith in rw (contents-empty q e) (ground arith)
  | inr more ↦
      let ne : q.count ≢ 0 = ground arith in
      rw (contents-pos q ne) (
        ground (
          arith,
          v,
          read_bytes-in_range q.buffer (q.head * q.element_size) q.element_size,
          offset-fits v q.head v.head_in,
          slot_in q.head q.capacity q.element_size v.head_in,
        ))
]
