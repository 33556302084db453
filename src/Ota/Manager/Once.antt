-- ===== src/Ota/Manager/Once.antt =====
-- The calls of the update manager, one after another.
use embed_rtos.Base.{
  ℕ, ◌+◌, ◌≤◌, ◌<◌, ◌≡◌, refl, ◌∙◌, ◌⊎◌, inl, inr, true, false, bind-some, some-injective, subst,
  Option, some, List, [], ◌∷◌, arith, ◌>>=◌,
}
use embed_rtos.Ota.Flash.{Layout}
use embed_rtos.Ota.Manager.{
  Manager, OtaError, invalid_state, is_idle, start_update, receive_chunk, validate_update,
  finalize_update, abort_update, apply_update, begin, store_chunk, count_chunk, update_state,
  update_progress, fail,
}

-- A call of a function of ota_manager.h that changes the state, ota_manager_init excepted; a chunk
-- comes with its size.
pub data Call : Type 0 where
  starts : ℕ → ℕ → ℕ → Call
  receives : ℕ → ℕ → Option (List ℕ) → ℕ → Call
  finalizes validates aborts applies : Call

module _ (layout : Layout) where
  unfoldable pub call : Call → Manager → Option Manager
  call (starts now total_size chunk_size) o =
      start_update layout now total_size chunk_size o >>= λ r. some r.1
  call (receives now number chunk size) o =
      receive_chunk layout now number chunk size o >>= λ r. some r.1
  call finalizes o = finalize_update layout o >>= λ r. some r.1
  call validates o = validate_update layout o >>= λ r. some r.1
  call aborts o = some (abort_update layout o).1
  call applies o = apply_update layout o

  unfoldable pub run : List Call → Manager → Option Manager
  run [] o = some o
  run (c ∷ cs) o = call c o >>= λ o'. run cs o'

  -- What an idle manager that has started `n` updates can become: it is idle and has started no
  -- other, or it has started one more at most and starts none again.
  pub data Once (n : ℕ) (o : Manager) : Type 0 where
    unused : is_idle o.state ≡ true → o.total_updates ≡ n → Once n o
    used :
        is_idle o.state ≡ false
        → o.total_updates ≤ n + 1
        → ((now total_size chunk_size : ℕ)
            → start_update layout now total_size chunk_size o ≡ some (invalid_state, o))
        → Once n o

  -- What a call does to a manager that is not idle.
  Kept : Manager → Manager → Type 0
  Kept o o' = (is_idle o'.state ≡ false) × (o'.total_updates ≡ o.total_updates)

  start-Kept :
      (now total_size chunk_size : ℕ) (o o' : Manager) (e : OtaError)
      → is_idle o.state ≡ false
      → start_update layout now total_size chunk_size o ≡ some (e, o')
      → Kept o o'
  unfolding Kept start_update
  start-Kept now total_size chunk_size o o' e i h = grind (arith, i, h)

  receive-Kept :
      (now number size : ℕ) (chunk : Option (List ℕ)) (o o' : Manager) (e : OtaError)
      → is_idle o.state ≡ false
      → receive_chunk layout now number chunk size o ≡ some (e, o')
      → Kept o o'
  unfolding Kept receive_chunk store_chunk count_chunk update_state update_progress
  receive-Kept now number size chunk o o' e i h = grind (arith, i, h)

  validate-Kept :
      (o o' : Manager) (e : OtaError) → validate_update layout o ≡ some (e, o') → Kept o o'
  unfolding Kept validate_update fail update_state update_progress
  validate-Kept o o' e h = grind (arith, h)

  finalize-Kept :
      (o o' : Manager) (e : OtaError)
      → is_idle o.state ≡ false
      → finalize_update layout o ≡ some (e, o')
      → Kept o o'
  unfolding Kept finalize_update validate_update fail update_state update_progress
  finalize-Kept o o' e i h = grind (arith, i, h)

  apply-Kept :
      (o o' : Manager) → is_idle o.state ≡ false → apply_update layout o ≡ some o' → Kept o o'
  unfolding Kept apply_update update_state
  apply-Kept o o' i h = grind (arith, i, h)

  abort-Kept : (o : Manager) → Kept o (abort_update layout o).1
  unfolding Kept abort_update update_state
  abort-Kept o = (refl, refl)

  call-Kept : (c : Call) (o o' : Manager) → is_idle o.state ≡ false → call c o ≡ some o' → Kept o o'
  unfolding call
  call-Kept (starts now t c) o o' i h =
      let (r, taken, same) = bind-some (start_update layout now t c o) h in
      subst (Kept o) (some-injective same) (start-Kept now t c o r.1 r.0 i taken)
  call-Kept (receives now n chunk size) o o' i h =
      let (r, taken, same) = bind-some (receive_chunk layout now n chunk size o) h in
      subst (Kept o) (some-injective same) (receive-Kept now n size chunk o r.1 r.0 i taken)
  call-Kept finalizes o o' i h =
      let (r, taken, same) = bind-some (finalize_update layout o) h in
      subst (Kept o) (some-injective same) (finalize-Kept o r.1 r.0 i taken)
  call-Kept validates o o' i h =
      let (r, taken, same) = bind-some (validate_update layout o) h in
      subst (Kept o) (some-injective same) (validate-Kept o r.1 r.0 taken)
  call-Kept aborts o o' i h = subst (Kept o) (some-injective h) (abort-Kept o)
  call-Kept applies o o' i h = apply-Kept o o' i h

  start-Once :
      (now total_size chunk_size : ℕ) (o o' : Manager) (e : OtaError)
      → o.total_updates < 4294967295
      → is_idle o.state ≡ true
      → start_update layout now total_size chunk_size o ≡ some (e, o')
      → ((is_idle o'.state ≡ true) × (o'.total_updates ≡ o.total_updates))
        ⊎ ((is_idle o'.state ≡ false) × (o'.total_updates ≤ o.total_updates + 1))
  unfolding start_update begin update_state update_progress
  start-Once now total_size chunk_size o o' e small i h = grind (arith, i, h)

  receive-idle :
      (now number size : ℕ) (chunk : Option (List ℕ)) (o o' : Manager) (e : OtaError)
      → is_idle o.state ≡ true
      → receive_chunk layout now number chunk size o ≡ some (e, o')
      → o ≡ o'
  unfolding receive_chunk
  receive-idle now number size chunk o o' e i h = grind (arith, i, h)

  finalize-idle :
      (o o' : Manager) (e : OtaError)
      → is_idle o.state ≡ true
      → finalize_update layout o ≡ some (e, o')
      → o ≡ o'
  unfolding finalize_update
  finalize-idle o o' e i h = grind (arith, i, h)

  apply-idle : (o o' : Manager) → is_idle o.state ≡ true → apply_update layout o ≡ some o' → o ≡ o'
  unfolding apply_update
  apply-idle o o' i h = grind (arith, i, h)

  Once-used : (n : ℕ) (o : Manager) → is_idle o.state ≡ false → o.total_updates ≤ n + 1 → Once n o
  unfolding start_update
  Once-used n o i few = used i few (λ now total_size chunk_size. rw i refl)

  Kept-Once : (n : ℕ) (o o' : Manager) → o.total_updates ≤ n + 1 → Kept o o' → Once n o'
  unfolding Kept
  Kept-Once n o o' few k = Once-used n o' k.0 (omega (arith, few, k))

  idle-Once :
      (n : ℕ) (c : Call) (o o' : Manager)
      → n < 4294967295
      → is_idle o.state ≡ true
      → o.total_updates ≡ n
      → call c o ≡ some o'
      → Once n o'
  unfolding call
  idle-Once n (starts now t c) o o' small i e h =
      let (r, taken, same) = bind-some (start_update layout now t c o) h in
      subst (Once n) (some-injective same)
        (elim (start-Once now t c o r.1 r.0 (omega (arith, small, e)) i taken) [
          | inl p ↦ unused p.0 (p.1 ∙ e)
          | inr p ↦ Once-used n r.1 p.0 (omega (arith, p, e))
        ])
  idle-Once n (receives now k chunk size) o o' small i e h =
      let (r, taken, same) = bind-some (receive_chunk layout now k chunk size o) h in
      subst (Once n) (receive-idle now k size chunk o r.1 r.0 i taken ∙ some-injective same)
        (unused i e)
  idle-Once n finalizes o o' small i e h =
      let (r, taken, same) = bind-some (finalize_update layout o) h in
      subst (Once n) (finalize-idle o r.1 r.0 i taken ∙ some-injective same) (unused i e)
  idle-Once n validates o o' small i e h =
      let (r, taken, same) = bind-some (validate_update layout o) h in
      subst (Once n) (some-injective same)
        (Kept-Once n o r.1 (omega (arith, e)) (validate-Kept o r.1 r.0 taken))
  idle-Once n aborts o o' small i e h =
      subst (Once n) (some-injective h) (Kept-Once n o _ (omega (arith, e)) (abort-Kept o))
  idle-Once n applies o o' small i e h = subst (Once n) (apply-idle o o' i h) (unused i e)

  call-Once :
      (n : ℕ) (c : Call) (o o' : Manager)
      → n < 4294967295
      → Once n o
      → call c o ≡ some o'
      → Once n o'
  call-Once n c o o' small (unused i e) h = idle-Once n c o o' small i e h
  call-Once n c o o' small (used i few refuses) h = Kept-Once n o o' few (call-Kept c o o' i h)

  run-keeps :
      (n : ℕ) (cs : List Call) (o o' : Manager)
      → n < 4294967295
      → Once n o
      → run cs o ≡ some o'
      → Once n o'
  unfolding run
  run-keeps n [] o o' small v h = subst (Once n) (some-injective h) v
  run-keeps n (c ∷ cs) o o' small v h =
      let (m, taken, rest) = bind-some (call c o) h in
      run-keeps n cs m o' small (call-Once n c o m small v taken) rest

  -- From an idle manager that has started fewer than 2 ^ 32 - 1 updates, over any calls of
  -- ota_manager.h that change its state, ota_manager_init excepted, and that stay within the flash:
  -- the manager is still idle and has started no other update, or it has started one more at most,
  -- is not idle, and refuses to start another.
  pub run-Once :
      (cs : List Call) (o o' : Manager)
      → o.total_updates < 4294967295
      → is_idle o.state ≡ true
      → run cs o ≡ some o'
      → Once o.total_updates o'
  run-Once cs o o' small i h = run-keeps o.total_updates cs o o' small (unused i refl) h
