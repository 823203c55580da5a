-- ===== src/BrainLock/Holds.antt =====
-- About bot/brain_lock.go: the lock's record and the remote.
use gopherbot.Prelude.{
  ℕ, ◌≡◌, refl, sym, ap, ◌∙◌, true, false, some, List, is_some, some-injective, if_cases, ◌⊎◌, inl,
  inr,
}
use mathlib.Core.Bool.{true≢false}
use gopherbot.Prelude.Assoc.{lookup-insert_here}
use gopherbot.Prelude.Bytes.{bytes_eq, bytes_eq_iff}
use gopherbot.BrainCache.{
  Text, Bytes_discrete, brain_lock_key, Meta, OutboxEntry, RemoteRecord, Cache, Steps, Outcome,
  done, failed, put_payload, put_meta, put_outbox, payload_at, meta_at, queued_at, reserve_version,
  reserved_version, payload_write, meta_write, outbox_write, control_write,
}
use gopherbot.BrainCache.Sync.{sync_key, record_of}
use gopherbot.BrainCache.Write.{store, stored_meta}
use gopherbot.BrainCache.Effects.{Sent, Effect, dropped, refused, broken, sent, sync_key-Effect}
use gopherbot.BrainCache.Mirror.{last_sent, last_sent-here}

-- The remote's newest record of the lock holds the payload.
abbrev pub Holds : Text → Outcome → Type 0
Holds payload (failed c) = Unit
Holds payload (done c) =
    (r : RemoteRecord) × (last_sent brain_lock_key c.sent ≡ some r)
    × (r.deleted ≡ false)
    × (r.payload ≡ payload)

module _ (checksum_bytes : Text → Text) (now today : ℕ) (ok ok' : Steps) where
  -- The lock's key is sent at once.
  sync_key-Holds :
      (blob : Text) (m : Meta) (e : OutboxEntry) (c : Cache)
      → c.has_remote ≡ true
      → meta_at brain_lock_key c ≡ some m
      → m.deleted ≡ false
      → payload_at brain_lock_key c ≡ some blob
      → queued_at brain_lock_key c ≡ some e
      → Holds blob (sync_key checksum_bytes now today ok' brain_lock_key false c)
  unfolding record_of
  sync_key-Holds blob m e c r q d p o =
      by_effect _ (sync_key-Effect checksum_bytes now today ok' brain_lock_key c false e r o)
    where
      memory :
          {c' : Cache} {l : List (Text × OutboxEntry)}
          (s : Sent checksum_bytes now today ok' brain_lock_key c c' l)
          → s.memory.deleted ≡ false
      memory s = ap (λ (n : Meta). n.deleted) (some-injective s.memory m (sym s.found ∙ q)) ∙ d

      payload :
          {c' : Cache} {l : List (Text × OutboxEntry)}
          (s : Sent checksum_bytes now today ok' brain_lock_key c c' l)
          → (s.memory.deleted ≡ true) ⊎ (payload_at brain_lock_key c ≡ some s.payload)
          → s.payload ≡ blob
      payload s (inl t) = absurd (true≢false (sym t ∙ memory s))
      payload s (inr t) = some-injective s.payload blob (sym t ∙ p)

      by_effect :
          (x : Outcome) → Effect checksum_bytes now today ok' brain_lock_key c x → Holds blob x
      by_effect _ (dropped f) = absurd (true≢false (sym (ap is_some q) ∙ ap is_some f))
      by_effect _ refused = tt
      by_effect _ (broken s) = tt
      by_effect _ (sent s) = (
        record_of checksum_bytes brain_lock_key s.memory s.payload,
        ap (last_sent brain_lock_key) s.sent
            ∙ last_sent-here (record_of checksum_bytes brain_lock_key s.memory s.payload) c.sent,
        memory s,
        payload s s.held,
      )

  reserve-has_remote : (c : Cache) → (reserve_version ok c).has_remote ≡ c.has_remote
  unfolding reserve_version
  reserve-has_remote c =
      if_cases (λ (x : Cache). x.has_remote ≡ c.has_remote) (ok control_write) _ _ (λ _. refl)
        (λ _. refl)

  -- Store of the lock's key that returns no error has the remote hold the payload.
  pub store-Holds :
      (blob : Text) (c : Cache)
      → c.has_remote ≡ true
      → Holds blob (store checksum_bytes now today ok ok' brain_lock_key blob c)
  unfolding store
  store-Holds blob c r =
      if_cases (Holds blob) c.stopped _ _ (λ _. tt)
        (λ _.
          if_cases (Holds blob) (ok payload_write) _ _
            (λ _.
              if_cases (Holds blob) (ok meta_write) _ _
                (λ _.
                  if_cases (Holds blob) reserved.has_remote _ _
                    (λ h.
                      if_cases (Holds blob) (ok outbox_write) _ _
                        (λ _.
                          if_cases (Holds blob) (bytes_eq brain_lock_key brain_lock_key) _ _
                            (λ _.
                              sync_key-Holds blob m e queued h
                                (lookup-insert_here Bytes_discrete brain_lock_key m reserved.metas)
                                refl
                                (lookup-insert_here Bytes_discrete brain_lock_key blob
                                  reserved.payloads)
                                (lookup-insert_here Bytes_discrete brain_lock_key e
                                  reserved.outbox))
                            (λ f. absurd (
                              true≢false
                                (sym ((bytes_eq_iff brain_lock_key brain_lock_key).1 refl) ∙ f))))
                        (λ _. tt))
                    (λ f. absurd (true≢false (sym r ∙ sym (reserve-has_remote c) ∙ f))))
                (λ _. tt))
            (λ _. tt))
    where
      reserved : Cache
      reserved = reserve_version ok c

      m : Meta
      m = stored_meta checksum_bytes now today ok ok' brain_lock_key (reserved_version c) blob

      e : OutboxEntry
      e = record { version = m.version; is_delete = m.deleted }

      queued : Cache
      queued =
          put_outbox brain_lock_key e
            (put_meta brain_lock_key m (put_payload brain_lock_key blob reserved))
