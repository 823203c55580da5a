-- ===== src/BrainCache/Faults.antt =====
-- About calls of bot/brain_cache.go at the edges: behind Shutdown, and where a file fails between two
-- others.
use gopherbot.Prelude.{
  ℕ, zero, suc, ◌≡◌, ◌≢◌, refl, sym, ap, subst, ◌∙◌, Bool, true, false, none, some, [], ◌∷◌,
  if_cases, if_true, if_false, Bool-cases, Option-cases, inl, inr, ◌==◌,
}
use mathlib.Core.Bool.{true≢false}
use gopherbot.Prelude.Assoc.{lookup, lookup-insert_here}
use gopherbot.Prelude.Bytes.{bytes_eq_iff}
use gopherbot.BrainCache.{
  Text, bytes_eq, Bytes_discrete, brain_lock_key, Meta, OutboxEntry, Cache, Steps, Outcome, done,
  failed, after, payload_at, meta_at, queued_at, put_payload, reserve_version, retrieve, undeleted,
  control_write, payload_write, payload_remove, meta_write, outbox_write, outbox_read, entry_read,
  meta_read, payload_read,
}
use gopherbot.BrainCache.Sync.{
  sync_key, sync_outbox_entry, next_outbox_entry, send, send_meta, send_current, send_payload,
}
use gopherbot.BrainCache.Write.{store, delete_memory, without_payload}
use gopherbot.BrainCache.Loops.{
  Round, Rounds, later, again, run_turn, flush_turn, flush_entry, flush_loop, flush, flush_among,
  nobody,
}

reserve-fields :
    (ok : Steps) (c : Cache)
    → ((reserve_version ok c).has_remote ≡ c.has_remote)
      × ((reserve_version ok c).metas ≡ c.metas)
      × ((reserve_version ok c).outbox ≡ c.outbox)
unfolding reserve_version
reserve-fields ok c =
    if_cases
      (λ (x : Cache). (x.has_remote ≡ c.has_remote) × (x.metas ≡ c.metas) × (x.outbox ≡ c.outbox))
      (ok control_write) _ _ (λ _. (refl, refl, refl)) (λ _. (refl, refl, refl))

module _ (checksum_bytes : Text → Text) (now today : ℕ) (ok ok' : Steps) (k : Text) where
  -- The cache has left a deletion of the key for the cloud.
  abbrev pub QueuesDelete : Outcome → Type 0
  QueuesDelete (failed c) = ⊥
  QueuesDelete (done c) = (e : OutboxEntry) × (queued_at k c ≡ some e) × (e.is_delete ≡ true)

  -- Behind Shutdown, Store returns an error and changes nothing. Delete of a key other than the lock's
  -- goes on as before, where a cache with a remote can write the meta record and the outbox entry: it
  -- returns no error, and its deletion is the key's entry in the outbox.
  pub delete_memory-stopped :
      (blob : Text) (c : Cache)
      → c.stopped ≡ true
      → c.has_remote ≡ true
      → ok meta_write ≡ true
      → ok outbox_write ≡ true
      → k ≢ brain_lock_key
      → (store checksum_bytes now today ok ok' k blob c ≡ failed c)
        × QueuesDelete (delete_memory checksum_bytes now today ok ok' k c)
  unfolding store delete_memory
  delete_memory-stopped blob c s r m o h = (
    if_true c.stopped _ _ s,
    if_cases QueuesDelete (ok meta_write) _ _
        (λ _.
          if_cases QueuesDelete removed.has_remote _ _
            (λ _.
              if_cases QueuesDelete (ok outbox_write) _ _
                (λ _.
                  if_cases QueuesDelete (bytes_eq k brain_lock_key) _ _
                    (λ e. absurd (h ((bytes_eq_iff k brain_lock_key).0 e)))
                    (λ _. (_, lookup-insert_here Bytes_discrete k _ removed.outbox, refl)))
                (λ f. absurd (true≢false (sym o ∙ f))))
            (λ f. absurd (true≢false (sym r ∙ sym kept ∙ f))))
        (λ f. absurd (true≢false (sym m ∙ f))),
  )
    where
      removed : Cache
      removed = without_payload checksum_bytes now today ok ok' k (reserve_version ok c)

      kept : removed.has_remote ≡ c.has_remote
      kept =
          if_cases (λ (x : Cache). x.has_remote ≡ c.has_remote) (ok payload_remove) _ _
            (λ _. (reserve-fields ok c).0) (λ _. (reserve-fields ok c).0)

  -- The call returns an error; the memory's contents are new, its meta record and its entry in the
  -- outbox are as before.
  abbrev pub Tears : (Text → Bool) → Text → Cache → Outcome → Type 0
  Tears valid_key blob c (done c') = ⊥
  Tears valid_key blob c (failed c') =
      (retrieve valid_key k c' ≡ some blob)
      × (meta_at k c' ≡ meta_at k c)
      × (queued_at k c' ≡ queued_at k c)

  -- Where the file of the contents is written and that of the meta record is not, Store over a memory
  -- returns an error, and Retrieve gives the new contents all the same, while the meta record keeps the
  -- old version and the outbox has no new entry.
  pub store-Tears :
      (valid_key : Text → Bool) (blob : Text) (m : Meta) (c : Cache)
      → valid_key k ≡ true
      → c.stopped ≡ false
      → meta_at k c ≡ some m
      → m.deleted ≡ false
      → ok payload_write ≡ true
      → ok meta_write ≡ false
      → Tears valid_key blob c (store checksum_bytes now today ok ok' k blob c)
  unfolding store retrieve
  store-Tears valid_key blob m c v s e d p w =
      if_cases (Tears valid_key blob c) c.stopped _ _ (λ f. absurd (true≢false (sym f ∙ s)))
        (λ _.
          if_cases (Tears valid_key blob c) (ok payload_write) _ _
            (λ _.
              if_cases (Tears valid_key blob c) (ok meta_write) _ _
                (λ f. absurd (true≢false (sym f ∙ w)))
                (λ _. (
                  if_true (valid_key k) _ _ v
                      ∙ ap (undeleted (payload_at k (put_payload k blob (reserve_version ok c))))
                          (kept.0 ∙ e)
                      ∙ if_false m.deleted _ _ d
                      ∙ lookup-insert_here Bytes_discrete k blob (reserve_version ok c).payloads,
                  kept.0,
                  kept.1,
                )))
            (λ f. absurd (true≢false (sym p ∙ f))))
    where
      kept :
          (meta_at k (reserve_version ok c) ≡ meta_at k c)
          × (queued_at k (reserve_version ok c) ≡ queued_at k c)
      kept = (
        ap (lookup Bytes_discrete k) (reserve-fields ok c).1,
        ap (lookup Bytes_discrete k) (reserve-fields ok c).2,
      )

  sync_key-missing :
      (m : Meta) (c : Cache)
      → meta_at k c ≡ some m
      → m.deleted ≡ false
      → payload_at k c ≡ none
      → after (sync_key checksum_bytes now today ok k false c) ≡ c
  unfolding sync_key sync_outbox_entry
  sync_key-missing m c e d p =
      if_cases Same (ok entry_read) _ _
        (λ _. elim (Option-cases (queued_at k c)) [
          | inl q ↦ rw (q) refl
          | inr (f, q) ↦ rw (q) (
              if_cases Same c.has_remote _ _
                (λ _. if_cases Same (ok outbox_read) _ _ (λ _. current f q) (λ _. refl))
                (λ _. refl))
        ])
        (λ _. refl)
    where
      Same : Outcome → Type 0
      Same o = after o ≡ c

      sends : Same (send checksum_bytes now today ok k m c)
      sends =
          if_cases Same m.deleted _ _ (λ t. absurd (true≢false (sym t ∙ d)))
            (λ _.
              if_cases Same (ok payload_read) _ _
                (λ _. ap (λ o. after (send_payload checksum_bytes now today ok k m c o)) p)
                (λ _. refl))

      current :
          (f : OutboxEntry)
          → queued_at k c ≡ some f
          → Same (send_current checksum_bytes now today ok k false f.version c (queued_at k c))
      current f q =
          subst (λ o. Same (send_current checksum_bytes now today ok k false f.version c o)) (sym q)
            (if_cases Same (f.version == f.version) _ _
              (λ _.
                if_cases Same (ok meta_read) _ _
                  (λ _.
                    subst (λ o. Same (send_meta checksum_bytes now today ok k false c o)) (sym e)
                      sends)
                  (λ _. refl))
              (λ _. refl))

-- A memory that is not deleted and whose contents are missing is alone in the outbox of a cache with a
-- remote: where no other call comes between its rounds, Flush, whatever the files and the remote do, and
-- after any number of rounds, has not returned.
pub flush-stuck :
    (checksum_bytes : Text → Text) (fuel : ℕ) (rounds : Rounds) (k : Text) (e : OutboxEntry)
    (m : Meta) (c : Cache)
    → c.has_remote ≡ true
    → c.outbox ≡ (k, e) ∷ []
    → meta_at k c ≡ some m
    → m.deleted ≡ false
    → payload_at k c ≡ none
    → flush checksum_bytes fuel rounds c ≡ none
unfolding flush_among next_outbox_entry
flush-stuck h fuel rounds k e m c r o q d p = if_true c.has_remote _ _ r ∙ stuck fuel rounds
  where
    stays : (t : Round) → flush_turn h t [] c ≡ again c
    stays t = elim (Bool-cases t.listed) [
      | inr f ↦ if_false t.listed _ _ f
      | inl l ↦
          if_true t.listed _ _ l
          ∙ ap (λ l. flush_entry h t [] c (next_outbox_entry l)) o
          ∙ ap again (sync_key-missing h t.now t.today t.ok t.ok k m c q d p)
    ]

    stuck : (fuel : ℕ) (rounds : Rounds) → flush_loop h fuel rounds nobody c ≡ none
    stuck zero rounds = refl
    stuck (suc fuel) rounds = ap (run_turn _) (stays (rounds 0)) ∙ stuck fuel (later rounds)
