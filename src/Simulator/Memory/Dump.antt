-- ===== src/Simulator/Memory/Dump.antt =====
-- What virt_board_dump_memory of simulator/virt_board.c reads.
use embed_rtos.Base.{
  ℕ, ◌+◌, ◌-◌, ◌*◌, ◌/◌, ◌%◌, ◌≤◌, ◌<◌, ◌≡◌, refl, Option, some, List, ◌>>=◌, arith, Bool-cases,
  inl, inr, if◌then◌else◌, ltb, u32, get_or, length, replicate, length-replicate, ltb→lt,
  get_elem?-in_range,
}
use embed_rtos.Base.Rows.{rows_from, read_rows-all}
use embed_rtos.Simulator.Board.{Machine, Config, init}
use embed_rtos.Simulator.Memory.{ram_size, memory_size, memory_byte, dump_memory}

module _ {W : Type 0} where
  -- The blocks of a board that is on have the sizes of its configuration.
  pub record HasMemory (m : Machine W) (ram flash : List ℕ) : Type 0 where
    pub ram_at : m.ram_memory ≡ some ram
    pub flash_at : m.flash_memory ≡ some flash
    pub ram_length : length ram ≡ ram_size m
    pub flash_length : length flash ≡ u32 (m.config.flash_size_kb * 1024)

  -- The byte at an address: the RAM, then the flash, then nothing.
  abbrev pub byte_at : Machine W → List ℕ → List ℕ → ℕ → ℕ
  byte_at m ram flash address =
      if ltb address (ram_size m)
      then get_or ram address 0
      else if ltb address (memory_size m)
      then get_or flash (address - ram_size m) 0
      else 0xff

  module _ (m : Machine W) (ram flash : List ℕ) (has : HasMemory m ram flash) where
    -- An address below the sum of the sizes, which may wrap, is in one of the two blocks.
    memory_byte-byte_at : (address : ℕ) → memory_byte m address ≡ some (byte_at m ram flash address)
    unfolding memory_byte
    memory_byte-byte_at address = elim (Bool-cases (ltb address (ram_size m))) [
      | inl e ↦
          rw (e, has.ram_at, ◌>>=◌)
            (get_elem?-in_range ram address
              (omega (arith, has.ram_length, ltb→lt address (ram_size m) e)))
      | inr e ↦ elim (Bool-cases (ltb address (memory_size m))) [
        | inl e' ↦
            let inside : address - ram_size m < length flash =
              ground (arith, has.flash_length, ltb→lt address (memory_size m) e') in
            rw (e, e', has.flash_at, ◌>>=◌) (get_elem?-in_range flash (address - ram_size m) inside)
        | inr e' ↦ rw (e, e') refl
      ]
    ]

    -- With the two blocks of the configured sizes, virt_board_dump_memory ends and reads within
    -- bounds for every address and every size up to 2 ^ 32 - 16: it prints rows of sixteen bytes, the
    -- last one shorter, and each byte is that of the RAM, behind it of the flash, and 0xff elsewhere.
    pub dump_memory-rows_from :
        (address size : ℕ)
        → size + 16 ≤ 4294967296
        → dump_memory m address size
          ≡ some (rows_from (byte_at m ram flash) address size 0 ((size + 15) / 16))
    unfolding dump_memory
    dump_memory-rows_from address size small =
        read_rows-all (memory_byte m) (byte_at m ram flash) address size small
          (λ k h. memory_byte-byte_at ((address + k) % 4294967296))

  -- virt_board_init, where malloc grants both blocks.
  pub init-HasMemory :
      (malloc : ℕ → Option (List ℕ)) (c : Config) (m : Machine W) (a b : List ℕ)
      → malloc (u32 (c.ram_size_kb * 1024)) ≡ some a
      → malloc (u32 (c.flash_size_kb * 1024)) ≡ some b
      → HasMemory
          (init malloc (some c) m)
          (replicate (u32 (c.ram_size_kb * 1024)) 0x00)
          (replicate (u32 (c.flash_size_kb * 1024)) 0xff)
  unfolding init
  init-HasMemory malloc c m a b ha hb =
      rw (init, ha, hb)
        (record {
          ram_at = refl;
          flash_at = refl;
          ram_length = length-replicate (u32 (c.ram_size_kb * 1024)) 0x00;
          flash_length = length-replicate (u32 (c.flash_size_kb * 1024)) 0xff;
        })
