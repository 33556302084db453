-- ===== src/Ota/Bootloader/Slots.antt =====
-- Which slot the bootloader runs from.
use embed_rtos.Base.{
  ℕ, ◌≡◌, refl, false, ◌∙◌, ◌⊎◌, bind-some, some-injective, subst, Option, some, List, [], ◌∷◌,
  arith, ◌>>=◌,
}
use embed_rtos.Ota.Flash.{Layout, BootError, boot_ok, no_app}
use embed_rtos.Ota.Firmware.{validate_firmware}
use embed_rtos.Ota.Bootloader.{Bootloader, check_for_update, switch_to_update, rollback, start_app}

pub data Call : Type 0 where
  check : Call
  switch : Call
  roll_back : Call
  jump : ℕ → Call

module _ (layout : Layout) where
  unfoldable pub call : Call → Bootloader → Option Bootloader
  call check b = check_for_update layout b >>= λ r. some r.1
  call switch b = switch_to_update layout b >>= λ r. some r.1
  call roll_back b = rollback layout b >>= λ r. some r.1
  call (jump address) b = some (start_app layout address b)

  unfoldable pub run : List Call → Bootloader → Option Bootloader
  run [] b = some b
  run (c ∷ cs) b = call c b >>= λ b'. run cs b'

  -- The active slot is the first, or the second with firmware in it that passes validation.
  abbrev pub IsSafe : Bootloader → Type 0
  IsSafe b =
      (b.active_slot ≡ layout.slot_a)
      ⊎ ((b.active_slot ≡ layout.slot_b)
          × (validate_firmware layout layout.slot_b b.flash ≡ some boot_ok))

  pub switch_to_update-not_pending :
      (b : Bootloader) → b.update_pending ≡ false → switch_to_update layout b ≡ some (no_app, b)
  unfolding switch_to_update
  switch_to_update-not_pending b h = rw h refl

  switch-IsSafe :
      (b : Bootloader) (e : BootError) (b' : Bootloader)
      → IsSafe b
      → switch_to_update layout b ≡ some (e, b')
      → IsSafe b' × (b'.flash ≡ b.flash)
  unfolding switch_to_update
  switch-IsSafe b e b' v h = grind arith

  check-IsSafe :
      (b : Bootloader) (e : BootError) (b' : Bootloader)
      → IsSafe b
      → check_for_update layout b ≡ some (e, b')
      → IsSafe b' × (b'.flash ≡ b.flash)
  unfolding check_for_update
  check-IsSafe b e b' v h = grind arith

  rollback-IsSafe :
      (b : Bootloader) (e : BootError) (b' : Bootloader)
      → IsSafe b
      → rollback layout b ≡ some (e, b')
      → IsSafe b' × (b'.flash ≡ b.flash)
  unfolding rollback
  rollback-IsSafe b e b' v h = grind arith

  kept :
      (b : Bootloader) {x y : Bootloader}
      → some x ≡ some y
      → IsSafe x × (x.flash ≡ b.flash)
      → IsSafe y × (y.flash ≡ b.flash)
  kept b e v = subst (λ z. IsSafe z × (z.flash ≡ b.flash)) (some-injective e) v

  call-IsSafe :
      (c : Call) (b b' : Bootloader)
      → IsSafe b
      → call c b ≡ some b'
      → IsSafe b' × (b'.flash ≡ b.flash)
  unfolding call start_app
  call-IsSafe check b b' v h =
      let r = bind-some (check_for_update layout b) h in
      kept b r.2 (check-IsSafe b r.0.0 r.0.1 v r.1)
  call-IsSafe switch b b' v h =
      let r = bind-some (switch_to_update layout b) h in
      kept b r.2 (switch-IsSafe b r.0.0 r.0.1 v r.1)
  call-IsSafe roll_back b b' v h =
      let r = bind-some (rollback layout b) h in kept b r.2 (rollback-IsSafe b r.0.0 r.0.1 v r.1)
  call-IsSafe (jump address) b b' v h = grind arith

  -- From a state with a safe active slot, after any calls of the bootloader's functions that stay
  -- within the flash: the active slot is the first one, or the second one with firmware in it that
  -- passes validation; and the flash is as it was.
  pub run-IsSafe :
      (cs : List Call) (b : Bootloader) {b' : Bootloader}
      → IsSafe b
      → run cs b ≡ some b'
      → IsSafe b' × (b'.flash ≡ b.flash)
  unfolding run
  run-IsSafe [] b v h = grind arith
  run-IsSafe (c ∷ cs) b v h =
      let r = bind-some (call c b) h in
      let first = call-IsSafe c b r.0 v r.1 in
      let rest = run-IsSafe cs r.0 first.0 r.2 in (rest.0, rest.1 ∙ first.1)
