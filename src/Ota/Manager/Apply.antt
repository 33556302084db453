-- ===== src/Ota/Manager/Apply.antt =====
-- `ota_manager_apply_update` after an update that was accepted.
use embed_rtos.Base.{◌≡◌, refl, ap, ◌∙◌, false, some, arith}
use embed_rtos.Ota.Flash.{Layout, no_app}
use embed_rtos.Ota.Bootloader.{switch_to_update}
use embed_rtos.Ota.Bootloader.Slots.{switch_to_update-not_pending}
use embed_rtos.Ota.Manager.{
  Manager, OtaError, no_error, error, flash_error, complete, finalize_update, validate_update,
  apply_update, fail, updating, is_complete, update_state, update_progress,
}
use embed_rtos.Ota.Manager.Limits.{finalize_update-IsChecked}

module _ (layout : Layout) where
  validate_update-bootloader :
      (o o' : Manager) (e : OtaError)
      → validate_update layout o ≡ some (e, o')
      → o'.bootloader ≡ o.bootloader
  unfolding validate_update fail update_state update_progress
  validate_update-bootloader o o' e h = grind arith

  finalize_update-bootloader :
      (o o' : Manager) (e : OtaError)
      → finalize_update layout o ≡ some (e, o')
      → o'.bootloader ≡ o.bootloader
  unfolding finalize_update update_state update_progress
  finalize_update-bootloader o o' e h = grind (arith, validate_update-bootloader)

  -- Where the bootloader has not found an update by itself, an update that `finalize_update` has
  -- accepted cannot be applied: the bootloader refuses the switch, the manager ends in the error state
  -- with a flash error, and the active slot is as before.
  pub finalize-apply_fails :
      (o o' : Manager)
      → finalize_update layout o ≡ some (no_error, o')
      → o.bootloader.update_pending ≡ false
      → (o'' : Manager) × (apply_update layout o' ≡ some o'')
        × (o''.state ≡ error)
        × (o''.last_error ≡ flash_error)
        × (o''.bootloader ≡ o.bootloader)
  unfolding apply_update update_state
  finalize-apply_fails o o' h pending =
      let done : o'.state ≡ complete = (finalize_update-IsChecked layout o o' h).2 in
      let same : o'.bootloader ≡ o.bootloader = finalize_update-bootloader o o' no_error h in
      let refused : switch_to_update layout o'.bootloader ≡ some (no_app, o'.bootloader) =
        switch_to_update-not_pending layout o'.bootloader
          (ap (λ b. b.update_pending) same ∙ pending) in
      (
        update_state error flash_error (update_state updating no_error o'),
        rw (ap is_complete done, refused) refl,
        refl,
        refl,
        same,
      )
