-- ===== src/Ota/Dump/Guard.antt =====
-- What the guard of flash_dump in src/ota/bootloader.c lets through.
use embed_rtos.Base.{
  ℕ, zero, suc, ◌+◌, ◌-◌, ◌/◌, ◌%◌, ◌≤◌, ◌<◌, ◌≡◌, refl, false, none, some, List, [], ◌∷◌, arith,
  length, get_or, get_elem?, get_elem?-in_range,
}
use embed_rtos.Base.Rows.{rows_from, read_rows-all, read_rows-none}
use embed_rtos.Ota.Flash.{Layout}
use embed_rtos.Ota.Dump.{dump_refused, flash_dump}

module _ (layout : Layout) (flash : List ℕ) (whole : length flash ≡ layout.total_size)
    (small : layout.total_size + 16 ≤ 4294967296) where
  in_flash :
      (address size : ℕ)
      → address + size ≤ layout.total_size
      → (k : ℕ) → k < size
      → get_elem? flash ((address + k) % 4294967296)
        ≡ some (get_or flash ((address + k) % 4294967296) 0)
  in_flash address size inside k h =
      get_elem?-in_range flash ((address + k) % 4294967296) (omega (arith, whole))

  dump_accepted :
      (address size : ℕ)
      → 0 < size
      → address + size ≤ layout.total_size
      → dump_refused layout address size ≡ false
  unfolding dump_refused
  dump_accepted address size pos inside = ground (arith, small)

  flash_dump-inside :
      (address size : ℕ)
      → 0 < size
      → address + size ≤ layout.total_size
      → flash_dump layout flash address size
        ≡ some (rows_from (λ k. get_or flash k 0) address size 0 ((size + 15) / 16))
  unfolding flash_dump
  flash_dump-inside address size pos inside = rw (dump_accepted address size pos inside) (
      read_rows-all (get_elem? flash) (λ k. get_or flash k 0) address size (omega (arith, small))
        (in_flash address size inside))

get_elem?-outside : (xs : List ℕ) (i : ℕ) → length xs ≤ i → get_elem? xs i ≡ none
get_elem?-outside [] i h = refl
get_elem?-outside (x ∷ xs) zero h = absurd (omega arith)
get_elem?-outside (x ∷ xs) (suc i) h = get_elem?-outside xs i (omega arith)

module _ (layout : Layout) (flash : List ℕ) (whole : length flash ≡ layout.total_size)
    (small : layout.total_size + 16 ≤ 4294967296) where
  dump_wrapped :
      (address size : ℕ)
      → address < layout.total_size
      → size < 4294967296
      → 4294967296 ≤ address + size
      → dump_refused layout address size ≡ false
  unfolding dump_refused
  dump_wrapped address size inside below wraps = ground (arith, small)

  -- With a flash of its size, flash_dump reads within bounds and returns the bytes by rows where the
  -- address and the size lie in the flash. Where their sum wraps around 2 ^ 32, for a size of at most
  -- 2 ^ 32 - 16, the guard lets them through and the dump reads behind the flash.
  pub flash_dump-wraps :
      (address size address' size' : ℕ)
      → 0 < size
      → address + size ≤ layout.total_size
      → address' < layout.total_size
      → size' + 16 ≤ 4294967296
      → 4294967296 ≤ address' + size'
      → (flash_dump layout flash address size
          ≡ some (rows_from (λ k. get_or flash k 0) address size 0 ((size + 15) / 16)))
        × (flash_dump layout flash address' size' ≡ none)
  unfolding flash_dump
  flash_dump-wraps address size address' size' pos fits inside below wraps =
      let k : ℕ = layout.total_size - address' in
      let out : get_elem? flash ((address' + k) % 4294967296) ≡ none =
        get_elem?-outside flash ((address' + k) % 4294967296) (omega (arith, whole, small)) in
      (
        flash_dump-inside layout flash whole small address size pos fits,
        rw (dump_wrapped address' size' inside (omega arith) wraps) (
            read_rows-none (get_elem? flash) address' size' k below (omega arith) out (suc size') 0
              (omega arith) (omega arith)),
      )
