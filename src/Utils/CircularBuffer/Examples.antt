-- ===== src/Utils/CircularBuffer/Examples.antt =====
-- A buffer of four bytes that holds two, the second of them in the last place.
use embed_rtos.Base.{
  ℕ, ◌≡◌, refl, Bool, true, false, some, List, [], ◌∷◌, ◌++◌, arith, slice, splice, take, drop,
}
use embed_rtos.Utils.CircularBuffer.{CircularBuffer, write, read}
use embed_rtos.Utils.CircularBuffer.Copy.{copy, copy_size, copy_moves}
use embed_rtos.Utils.CircularBuffer.Bounds.{IsValid, contents}
use embed_rtos.Utils.CircularBuffer.Overwrite.{keep_last, write_keeps_last}
use embed_rtos.Utils.CircularBuffer.Read.{read_takes}

abbrev two_bytes : Bool → CircularBuffer
two_bytes overwrite = record {
  buffer = 0 ∷ 0 ∷ 7 ∷ 8 ∷ [];
  capacity = 4;
  head = 2;
  tail = 0;
  count = 2;
  overwrite = overwrite;
}

two_bytes-IsValid : (overwrite : Bool) → IsValid (two_bytes overwrite)
two_bytes-IsValid overwrite = ground arith

abbrev data_in : List ℕ
data_in = 1 ∷ 2 ∷ 3 ∷ []

write_keeps_last_example :
    (cb' : CircularBuffer) × (write (some (two_bytes true)) (some data_in) 3 ≡ some (3, some cb'))
    × IsValid cb'
    × (contents cb' ≡ keep_last 4 (contents (two_bytes true) ++ slice data_in 0 0 3))
write_keeps_last_example =
    write_keeps_last data_in 3 (two_bytes-IsValid true) refl (omega arith) (omega arith)

read_takes_example :
    (cb' : CircularBuffer) × (read (some (two_bytes true)) (some data_in) 3
      ≡ some (2, some (splice data_in 0 (take 2 (contents (two_bytes true)))), some cb'))
    × IsValid cb'
    × (contents cb' ≡ drop 2 (contents (two_bytes true)))
read_takes_example = read_takes data_in 3 (two_bytes-IsValid true) (omega arith)

copy_moves_example :
    let n = copy_size 2 (two_bytes true) (two_bytes false) in
    (after : CircularBuffer) × (copy (some (two_bytes false)) (some (two_bytes true)) 2
      ≡ some (n, some after))
    × IsValid after
    × (contents after
        ≡ keep_last 4 (contents (two_bytes false) ++ take n (contents (two_bytes true))))
copy_moves_example = copy_moves 2 (two_bytes-IsValid true) (two_bytes-IsValid false)
