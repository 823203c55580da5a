-- ===== src/BrainCache/Local.antt =====
-- About the calls of bot/brain_cache.go that send nothing.
use gopherbot.Prelude.{ℕ, ◌≡◌, ◌≢◌, refl, List, [], ◌∷◌, if_cases}
use gopherbot.Prelude.Bytes.{bytes_eq_iff}
use gopherbot.BrainCache.{
  Text, bytes_eq, brain_lock_key, OutboxEntry, Cache, Steps, after, reserve_version, payload_write,
  payload_remove, meta_write, outbox_write, control_write, set_active_lock_id,
}
use gopherbot.BrainCache.Write.{store, delete_memory, enqueue, without_payload}
use gopherbot.BrainCache.Calls.{
  Call, store_call, delete_call, sync_call, lock_call, stop_call, run_call,
}
use gopherbot.BrainCache.Loops.{Others}

-- Nothing is sent by the call: it is no sending of an entry, and no Store or Delete of the lock's key.
abbrev pub Local : Call → Type 0
Local (store_call now today ok ok' k blob) = k ≢ brain_lock_key
Local (delete_call now today ok ok' k) = k ≢ brain_lock_key
Local (sync_call now today ok k enforce e) = ⊥
Local _ = Unit

abbrev pub AllLocal : List Call → Type 0
AllLocal [] = Unit {0}
AllLocal (x ∷ xs) = Local x × AllLocal xs

abbrev pub OthersLocal : Others → Type 0
OthersLocal others = (i : ℕ) → AllLocal (others i).before × AllLocal (others i).during

-- The remote and the budget have seen nothing.
abbrev pub Spared : Cache → Cache → Type 0
Spared c c' =
    (c'.budget ≡ c.budget) × (c'.sent ≡ c.sent) × (c'.write_budget_per_day ≡ c.write_budget_per_day)

module _ (checksum_bytes : Text → Text) where
  module _ (now today : ℕ) (ok ok' : Steps) (k : Text) (other : k ≢ brain_lock_key) where
    enqueue-Spared :
        (e : OutboxEntry) (c c' : Cache)
        → Spared c c'
        → Spared c (after (enqueue checksum_bytes now today ok ok' k e c'))
    enqueue-Spared e c c' s =
        if_cases (λ o. Spared c (after o)) c'.has_remote _ _
          (λ _.
            if_cases (λ o. Spared c (after o)) (ok outbox_write) _ _
              (λ _.
                if_cases (λ o. Spared c (after o)) (bytes_eq k brain_lock_key) _ _
                  (λ t. absurd (other ((bytes_eq_iff k brain_lock_key).0 t))) (λ _. s))
              (λ _. s))
          (λ _. s)

    reserve-Spared : (c : Cache) → Spared c (reserve_version ok c)
    unfolding reserve_version
    reserve-Spared c =
        if_cases (Spared c) (ok control_write) _ _ (λ _. (refl, refl, refl))
          (λ _. (refl, refl, refl))

    store-Spared :
        (blob : Text) (c : Cache)
        → Spared c (after (store checksum_bytes now today ok ok' k blob c))
    unfolding store
    store-Spared blob c =
        if_cases (λ o. Spared c (after o)) c.stopped _ _ (λ _. (refl, refl, refl))
          (λ _.
            if_cases (λ o. Spared c (after o)) (ok payload_write) _ _
              (λ _.
                if_cases (λ o. Spared c (after o)) (ok meta_write) _ _
                  (λ _. enqueue-Spared _ c _ (reserve-Spared c)) (λ _. reserve-Spared c))
              (λ _. reserve-Spared c))

    delete_memory-Spared :
        (c : Cache) → Spared c (after (delete_memory checksum_bytes now today ok ok' k c))
    unfolding delete_memory
    delete_memory-Spared c =
        if_cases (λ o. Spared c (after o)) (ok meta_write) _ _ (λ _. enqueue-Spared _ c _ removed)
          (λ _. removed)
      where
        removed :
            Spared c (without_payload checksum_bytes now today ok ok' k (reserve_version ok c))
        removed =
            if_cases (Spared c) (ok payload_remove) _ _ (λ _. reserve-Spared c)
              (λ _. reserve-Spared c)

  pub run_call-Spared : (x : Call) (c : Cache) → Local x → Spared c (run_call checksum_bytes x c)
  unfolding set_active_lock_id
  run_call-Spared (store_call now today ok ok' k blob) c h =
      store-Spared now today ok ok' k h blob c
  run_call-Spared (delete_call now today ok ok' k) c h = delete_memory-Spared now today ok ok' k h c
  run_call-Spared (sync_call now today ok k enforce e) c h = absurd h
  run_call-Spared (lock_call ok id) c h =
      if_cases (λ o. Spared c (after o)) (ok control_write) _ _ (λ _. (refl, refl, refl))
        (λ _. (refl, refl, refl))
  run_call-Spared stop_call c h = (refl, refl, refl)
