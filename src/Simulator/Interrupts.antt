-- ===== src/Simulator/Interrupts.antt =====
-- The interrupts of simulator/virt_board.c. A `virt_interrupt_t*` is the caller's own copy of an entry
-- of the table, and comes back changed beside the machine; `none` outside is an access past the
-- table.
pub mod Requests
use embed_rtos.Base.{
  ℕ, Bool, true, false, not, ◌&&◌, ◌||◌, Option, none, some, List, leb, if◌then◌else◌, ◌>>=◌,
  get_elem?, set,
}
use embed_rtos.Simulator.Board.{Machine, VirtInterrupt}

-- The entry `n` of the table, changed.
pub update_entry :
    List VirtInterrupt → ℕ → (VirtInterrupt → VirtInterrupt) → Option (List VirtInterrupt)
update_entry table n change = get_elem? table n >>= λ q. some (set table n (change q))

module _ {W : Type 0} where
  pub init :
      Option VirtInterrupt
      → ℕ
      → Option ℕ
      → ℕ
      → Machine W
      → Option (Option VirtInterrupt × Machine W)
  init none irq_number handler priority m = some (none, m)
  init (some irq) irq_number handler priority m =
      if leb 32 irq_number
      then some (some irq, m)
      else (let irq' : VirtInterrupt = record {
        irq_number = irq_number;
        enabled = false;
        pending = false;
        handler = handler;
        priority = priority;
      } in
          update_entry m.interrupts irq_number (λ q. irq') >>= λ table.
          some (some irq', record m { interrupts = table }))

  pub enable : Option VirtInterrupt → Machine W → Option (Option VirtInterrupt × Machine W)
  enable none m = some (none, m)
  enable (some irq) m =
      update_entry m.interrupts irq.irq_number (λ q. record q { enabled = true }) >>= λ table.
      some (some (record irq { enabled = true }), record m { interrupts = table })

  pub disable : Option VirtInterrupt → Machine W → Option (Option VirtInterrupt × Machine W)
  disable none m = some (none, m)
  disable (some irq) m =
      update_entry m.interrupts irq.irq_number (λ q. record q { enabled = false }) >>= λ table.
      some (some (record irq { enabled = false }), record m { interrupts = table })

  pub trigger : Option VirtInterrupt → Machine W → Option (Option VirtInterrupt × Machine W)
  trigger none m = some (none, m)
  trigger (some irq) m =
      if not irq.enabled
      then some (some irq, m)
      else (update_entry m.interrupts irq.irq_number (λ q. record q { pending = true }) >>= λ table.
          some (some (record irq { pending = true }), record m { interrupts = table }))

  pub clear : Option VirtInterrupt → Machine W → Option (Option VirtInterrupt × Machine W)
  clear none m = some (none, m)
  clear (some irq) m =
      update_entry m.interrupts irq.irq_number (λ q. record q { pending = false }) >>= λ table.
      some (some (record irq { pending = false }), record m { interrupts = table })

pub is_pending : Option VirtInterrupt → Bool
is_pending none = false
is_pending (some irq) = irq.pending
