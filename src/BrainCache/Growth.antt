-- ===== src/BrainCache/Growth.antt =====
-- About the outbox of bot/brain_cache.go while other goroutines call the cache: a call adds at most
-- one entry.
use gopherbot.Prelude.{
  ℕ, suc, ◌+◌, ◌≤◌, ◌≡◌, refl, ap, ◌∙◌, Bool, false, List, [], ◌∷◌, if_cases, inl, inr, length,
  arith,
}
use gopherbot.Prelude.Assoc.{delete-length_le, insert-length_le}
use gopherbot.BrainCache.{
  Text, bytes_eq, Bytes_discrete, brain_lock_key, OutboxEntry, Cache, Steps, Outcome, after,
  put_outbox, reserve_version, payload_write, payload_remove, meta_write, outbox_write,
  control_write, set_active_lock_id,
}
use gopherbot.BrainCache.Sync.{sync_outbox_entry, sync_key}
use gopherbot.BrainCache.Write.{store, delete_memory, enqueue, without_payload}
use gopherbot.BrainCache.Effects.{
  Effect, dropped, refused, broken, sent, sync_outbox_entry-cases, sync_key-cases,
}
use gopherbot.BrainCache.Calls.{
  Call, store_call, delete_call, sync_call, lock_call, stop_call, run_call, run_calls,
}

-- The outbox has at most `n` entries.
abbrev AtMost : ℕ → Outcome → Type 0
AtMost n o = length (after o).outbox ≤ n

module _ (checksum_bytes : Text → Text) where
  module _ (now today : ℕ) (ok : Steps) (k : Text) where
    Effect-AtMost :
        (c : Cache) (o : Outcome)
        → Effect checksum_bytes now today ok k c o
        → AtMost (length c.outbox) o
    Effect-AtMost c _ (dropped p) = delete-length_le Bytes_discrete k c.outbox
    Effect-AtMost c _ refused = omega arith
    Effect-AtMost c _ (broken s) = omega (arith, ap length s.outbox)
    Effect-AtMost c _ (sent s) =
        omega (arith, ap length s.outbox, delete-length_le Bytes_discrete k c.outbox)

    pub sync_outbox_entry-AtMost :
        (enforce : Bool) (e : OutboxEntry) (c : Cache)
        → AtMost (length c.outbox) (sync_outbox_entry checksum_bytes now today ok k enforce e c)
    sync_outbox_entry-AtMost enforce e c =
        elim (sync_outbox_entry-cases checksum_bytes now today ok k c enforce e) [
          | inl f ↦ Effect-AtMost c _ f
          | inr f ↦ rw (f) (omega arith)
        ]

    pub sync_key-AtMost :
        (enforce : Bool) (c : Cache)
        → AtMost (length c.outbox) (sync_key checksum_bytes now today ok k enforce c)
    sync_key-AtMost enforce c = elim (sync_key-cases checksum_bytes now today ok k c enforce) [
      | inl f ↦ Effect-AtMost c _ f
      | inr f ↦ rw (f) (omega arith)
    ]

  module _ (now today : ℕ) (ok ok' : Steps) (k : Text) where
    enqueue-AtMost :
        (e : OutboxEntry) (c : Cache)
        → AtMost (suc (length c.outbox)) (enqueue checksum_bytes now today ok ok' k e c)
    enqueue-AtMost e c =
        let more = insert-length_le Bytes_discrete k e c.outbox in
        if_cases (AtMost (suc (length c.outbox))) c.has_remote _ _
          (λ _.
            if_cases (AtMost (suc (length c.outbox))) (ok outbox_write) _ _
              (λ _.
                if_cases (AtMost (suc (length c.outbox))) (bytes_eq k brain_lock_key) _ _
                  (λ _.
                    omega (arith, more, sync_key-AtMost now today ok' k false (put_outbox k e c)))
                  (λ _. more))
              (λ _. omega arith))
          (λ _. omega arith)

    reserve-outbox : (c : Cache) → (reserve_version ok c).outbox ≡ c.outbox
    unfolding reserve_version
    reserve-outbox c =
        if_cases (λ (x : Cache). x.outbox ≡ c.outbox) (ok control_write) _ _ (λ _. refl) (λ _. refl)

    store-AtMost :
        (blob : Text) (c : Cache)
        → AtMost (suc (length c.outbox)) (store checksum_bytes now today ok ok' k blob c)
    unfolding store
    store-AtMost blob c =
        let same = ap length (reserve-outbox c) in
        if_cases (AtMost (suc (length c.outbox))) c.stopped _ _ (λ _. omega arith)
          (λ _.
            if_cases (AtMost (suc (length c.outbox))) (ok payload_write) _ _
              (λ _.
                if_cases (AtMost (suc (length c.outbox))) (ok meta_write) _ _
                  (λ _. omega (arith, same, enqueue-AtMost _ _)) (λ _. omega (arith, same)))
              (λ _. omega (arith, same)))

    without_payload-outbox :
        (c : Cache) → (without_payload checksum_bytes now today ok ok' k c).outbox ≡ c.outbox
    without_payload-outbox c =
        if_cases (λ (x : Cache). x.outbox ≡ c.outbox) (ok payload_remove) _ _ (λ _. refl)
          (λ _. refl)

    delete_memory-AtMost :
        (c : Cache)
        → AtMost (suc (length c.outbox)) (delete_memory checksum_bytes now today ok ok' k c)
    unfolding delete_memory
    delete_memory-AtMost c =
        let same = ap length (without_payload-outbox (reserve_version ok c) ∙ reserve-outbox c) in
        if_cases (AtMost (suc (length c.outbox))) (ok meta_write) _ _
          (λ _. omega (arith, same, enqueue-AtMost _ _)) (λ _. omega (arith, same))

  set_active_lock_id-AtMost :
      (ok : Steps) (id : Text) (c : Cache) → AtMost (length c.outbox) (set_active_lock_id ok id c)
  unfolding set_active_lock_id
  set_active_lock_id-AtMost ok id c =
      if_cases (AtMost (length c.outbox)) (ok control_write) _ _ (λ _. omega arith)
        (λ _. omega arith)

  run_call-length :
      (x : Call) (c : Cache) → length (run_call checksum_bytes x c).outbox ≤ suc (length c.outbox)
  run_call-length (store_call now today ok ok' k blob) c = store-AtMost now today ok ok' k blob c
  run_call-length (delete_call now today ok ok' k) c = delete_memory-AtMost now today ok ok' k c
  run_call-length (sync_call now today ok k enforce e) c =
      omega (arith, sync_outbox_entry-AtMost now today ok k enforce e c)
  run_call-length (lock_call ok id) c = omega (arith, set_active_lock_id-AtMost ok id c)
  run_call-length stop_call c = omega arith

  pub run_calls-length :
      (xs : List Call) (c : Cache)
      → length (run_calls checksum_bytes xs c).outbox ≤ length xs + length c.outbox
  run_calls-length [] c = omega arith
  run_calls-length (x ∷ xs) c =
      omega (arith, run_call-length x c, run_calls-length xs (run_call checksum_bytes x c))
