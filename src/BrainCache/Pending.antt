-- ===== src/BrainCache/Pending.antt =====
-- About the rounds of `syncPending` and Flush of bot/brain_cache.go.
use gopherbot.Prelude.{
  ℕ, ◌≤◌, ◌<◌, ◌≡◌, refl, sym, ap, subst, ◌∙◌, Bool, true, false, some, [], is_some, if_cases,
  Option-cases, Bool-cases, ◌⊎◌, inl, inr, ◌==◌, arith, length,
}
use mathlib.Core.Bool.{true≢false}
use gopherbot.Prelude.Assoc.{delete-length_lt}
use gopherbot.BrainCache.{
  Text, Bytes_discrete, Meta, OutboxEntry, Cache, Step, Steps, need, Outcome, done, failed, after,
  payload_at, meta_at, queued_at, outbox_read, entry_read, meta_read, payload_read, remote_call,
  budget_read, budget_write, meta_mark, control_mark, outbox_remove,
}
use gopherbot.BrainCache.Sync.{
  sync_outbox_entry, sync_key, next_outbox_entry, send, send_payload, offer, mark_synced, send_meta,
  send_current, is_dirty, sync_queued,
}
use gopherbot.BrainCache.Loops.{Round, finished, again, pending_turn, pending_next}
use gopherbot.BrainCache.Effects.{Effect, dropped, refused, broken, sent, sync_outbox_entry-Effect}
use gopherbot.BrainCache.Mirror.{Mirrored, sync_outbox_entry-Mirrored}
use gopherbot.BrainCache.Queue.{next_outbox_entry_lem}

module _ (checksum_bytes : Text → Text) where
  -- A call without an error shortens the outbox; no call lengthens it.
  abbrev pub Shrinks : ℕ → Outcome → Type 0
  Shrinks n (done c) = length c.outbox < n
  Shrinks n (failed c) = length c.outbox ≤ n

  pub Effect-Shrinks :
      (now today : ℕ) (ok : Steps) (k : Text) (c : Cache) (e : OutboxEntry) (o : Outcome)
      → queued_at k c ≡ some e
      → Effect checksum_bytes now today ok k c o
      → Shrinks (length c.outbox) o
  Effect-Shrinks now today ok k c e _ q (dropped p) = delete-length_lt Bytes_discrete k e c.outbox q
  Effect-Shrinks now today ok k c e _ q refused = omega arith
  Effect-Shrinks now today ok k c e _ q (broken s) = omega (arith, ap length s.outbox)
  Effect-Shrinks now today ok k c e _ q (sent s) =
      omega (arith, ap length s.outbox, delete-length_lt Bytes_discrete k e c.outbox q)

  -- The entry that is next is sent: a round goes on with a shorter outbox and a mirrored cache, or it is the last.
  pub pending_turn-cases :
      (r : Round) (c : Cache)
      → Mirrored c
      → ((c' : Cache) × (pending_turn checksum_bytes r [] c ≡ finished c') × Mirrored c')
        ⊎ ((c' : Cache) × (pending_turn checksum_bytes r [] c ≡ again c')
            × Mirrored c'
            × (length c'.outbox < length c.outbox))
  unfolding next_outbox_entry
  pending_turn-cases r c i = elim (Bool-cases r.listed) [
    | inr f ↦ rw (f) (inl (c, refl, i))
    | inl t ↦ rw (t) (elim (next_outbox_entry_lem c.outbox i.unique) [
      | inl p ↦ rw (ap next_outbox_entry p) (inl (c, refl, i))
      | inr (k, e, p, q, _) ↦ rw (p) (
          next k (sync_outbox_entry checksum_bytes r.now r.today r.ok k true e c)
            (sync_outbox_entry-Mirrored checksum_bytes r.now r.today r.ok k c true e i)
            (Effect-Shrinks r.now r.today r.ok k c e _ q (
              sync_outbox_entry-Effect checksum_bytes r.now r.today r.ok k c true e i.has_remote
                q)))
    ])
  ]
    where
      next :
          (k : Text) (o : Outcome)
          → Mirrored (after o)
          → Shrinks (length c.outbox) o
          → ((c' : Cache) × (pending_next checksum_bytes r o ≡ finished c') × Mirrored c')
            ⊎ ((c' : Cache) × (pending_next checksum_bytes r o ≡ again c')
                × Mirrored c'
                × (length c'.outbox < length c.outbox))
      next k (failed c') j s = inl (c', refl, j)
      next k (done c') j s = elim (Bool-cases r.interrupted) [
        | inl t ↦ rw (t) (inl (c', refl, j))
        | inr f ↦ rw (f) (inr (c', refl, j, s))
      ]

-- No step fails.
abbrev pub AllSucceed : Steps → Type 0
AllSucceed ok = (s : Step) → ok s ≡ true

abbrev pub Succeeds : Outcome → Type 0
Succeeds (done c) = Unit
Succeeds (failed c) = ⊥

need-Succeeds :
    (b : Bool) (c : Cache) (rest : Outcome) → b ≡ true → Succeeds rest → Succeeds (need b c rest)
need-Succeeds b c rest e s = if_cases Succeeds b _ _ (λ _. s) (λ f. true≢false (sym e ∙ f))

module _ (checksum_bytes : Text → Text) (now today : ℕ) (ok : Steps) (k : Text) where
  mark_synced-Succeeds :
      (m : Meta) (c : Cache)
      → AllSucceed ok
      → Succeeds (mark_synced checksum_bytes now today ok k m c)
  mark_synced-Succeeds m c h = need-Succeeds (ok meta_mark) _ _ (h meta_mark) (
      if_cases Succeeds (is_dirty checksum_bytes now today ok k m c.control) _ _
        (λ _.
          need-Succeeds (ok control_mark) _ _ (h control_mark)
            (need-Succeeds (ok outbox_remove) _ _ (h outbox_remove) tt))
        (λ _. need-Succeeds (ok outbox_remove) _ _ (h outbox_remove) tt))

  offer-Succeeds :
      (m : Meta) (payload : Text) (c : Cache)
      → AllSucceed ok
      → Succeeds (offer checksum_bytes now today ok k m payload c)
  offer-Succeeds m payload c h = need-Succeeds (ok remote_call) _ _ (h remote_call) (
      if_cases Succeeds (c.write_budget_per_day == 0) _ _ (λ _. mark_synced-Succeeds m _ h)
        (λ _.
          need-Succeeds (ok budget_read) _ _ (h budget_read)
            (need-Succeeds (ok budget_write) _ _ (h budget_write) (mark_synced-Succeeds m _ h))))

  send-Succeeds :
      (m : Meta) (c : Cache)
      → AllSucceed ok
      → (m.deleted ≡ true) ⊎ (is_some (payload_at k c) ≡ true)
      → Succeeds (send checksum_bytes now today ok k m c)
  send-Succeeds m c h held =
      if_cases Succeeds m.deleted _ _ (λ _. offer-Succeeds m [] c h)
        (λ f. need-Succeeds (ok payload_read) _ _ (h payload_read) (stored f held))
    where
      stored :
          m.deleted ≡ false
          → (m.deleted ≡ true) ⊎ (is_some (payload_at k c) ≡ true)
          → Succeeds (send_payload checksum_bytes now today ok k m c (payload_at k c))
      stored f (inl d) = absurd (true≢false (sym d ∙ f))
      stored f (inr p) = elim (Option-cases (payload_at k c)) [
        | inl e ↦ absurd (true≢false (sym p ∙ ap is_some e))
        | inr (t, e) ↦ rw (e) (offer-Succeeds m t c h)
      ]

  pub sync_key-Succeeds :
      (c : Cache) (e : OutboxEntry)
      → AllSucceed ok
      → Mirrored c
      → queued_at k c ≡ some e
      → Succeeds (sync_key checksum_bytes now today ok k false c)
  unfolding sync_key sync_outbox_entry
  sync_key-Succeeds c e h i q =
      need-Succeeds (ok entry_read) _ _ (h entry_read)
        (subst (λ o. Succeeds (sync_queued checksum_bytes now today ok k false c o)) (sym q) entry)
    where
      meta : Succeeds (send_meta checksum_bytes now today ok k false c (meta_at k c))
      meta = elim (Option-cases (meta_at k c)) [
        | inl p ↦ rw (p) (need-Succeeds (ok outbox_remove) _ _ (h outbox_remove) tt)
        | inr (m, p) ↦ rw (p) (send-Succeeds m c h (i.whole k m p))
      ]

      current :
          Succeeds (send_current checksum_bytes now today ok k false e.version c (queued_at k c))
      current =
          subst (λ o. Succeeds (send_current checksum_bytes now today ok k false e.version c o))
            (sym q)
            (if_cases Succeeds (e.version == e.version) _ _
              (λ _. need-Succeeds (ok meta_read) _ _ (h meta_read) meta) (λ f. ground arith))

      entry : Succeeds (sync_outbox_entry checksum_bytes now today ok k false e c)
      entry =
          if_cases Succeeds c.has_remote _ _
            (λ _. need-Succeeds (ok outbox_read) _ _ (h outbox_read) current)
            (λ f. absurd (true≢false (sym i.has_remote ∙ f)))
