-- ===== src/BrainCache/Budget.antt =====
-- About the daily budget of cloud writes of bot/brain_cache.go.
use gopherbot.Prelude.{
  ℕ, suc, ◌+◌, ◌≤◌, ◌<◌, ◌≡◌, ◌≢◌, refl, sym, ap, ◌∙◌, true, Option, none, some, [], ◌∷◌, if_cases,
  if_true, Bool-cases, Option-cases, ◌⊎◌, inl, inr, arith, length, ◌==◌,
}
use mathlib.Core.Bool.{true≢false}
use gopherbot.BrainCache.{
  Text, Meta, OutboxEntry, WriteBudget, RemoteRecord, Cache, Steps, Outcome, after, payload_at,
  meta_at, queued_at, outbox_read, meta_read, payload_read, remote_call, budget_read, budget_write,
  meta_mark, control_mark, outbox_remove,
}
use gopherbot.BrainCache.Sync.{
  budget_of_day, read_budget, within_budget, count_write, sync_outbox_entry, send, send_payload,
  offer, account, mark_synced, send_meta, send_current, is_dirty,
}

-- The writes that the day's budget has counted.
unfoldable pub spent : ℕ → Cache → ℕ
spent today c = (read_budget today c).writes

-- From `c` to `c'` every write that the remote accepted is counted, and none is counted beyond the
-- budget.
pub record Counted (today : ℕ) (c c' : Cache) : Type 0 where
  pub policy : c'.write_budget_per_day ≡ c.write_budget_per_day
  pub writes : length c'.sent + spent today c ≡ length c.sent + spent today c'
  pub more : spent today c ≤ spent today c'
  pub bound : (spent today c' ≡ spent today c) ⊎ (spent today c' ≤ c.write_budget_per_day)

pub Counted-refl : (today : ℕ) (c : Cache) → Counted today c c
Counted-refl today c = record { policy = refl; writes = refl; more = omega arith; bound = inl refl }

pub Counted-trans :
    (today : ℕ) (c c' c'' : Cache) → Counted today c c' → Counted today c' c'' → Counted today c c''
Counted-trans today c c' c'' a b = record {
  policy = b.policy ∙ a.policy;
  writes = omega (arith, a.writes, b.writes);
  more = omega (arith, a.more, b.more);
  bound = both a.bound b.bound;
}
  where
    both :
        (spent today c' ≡ spent today c) ⊎ (spent today c' ≤ c.write_budget_per_day)
        → (spent today c'' ≡ spent today c') ⊎ (spent today c'' ≤ c'.write_budget_per_day)
        → (spent today c'' ≡ spent today c) ⊎ (spent today c'' ≤ c.write_budget_per_day)
    both (inl p) (inl q) = inl (q ∙ p)
    both (inr p) (inl q) = inr (omega arith)
    both p (inr q) = inr (omega (arith, a.policy))

budget_of_day-date : (today : ℕ) (o : Option WriteBudget) → (budget_of_day today o).date ≡ today
budget_of_day-date today none = refl
budget_of_day-date today (some b) =
    if_cases (λ (x : WriteBudget). x.date ≡ today) (b.date == today) _ _ (λ e. ground arith)
      (λ _. refl)

spent-count_write :
    (today : ℕ) (c : Cache) → spent today (count_write today c) ≡ suc (spent today c)
unfolding spent count_write read_budget
spent-count_write today c =
    ap (λ (b : WriteBudget). b.writes)
      (if_true ((budget_of_day today c.budget).date == today) _ _
        (ground (arith, budget_of_day-date today c.budget)))

module _ (checksum_bytes : Text → Text) (now today : ℕ) (ok : Steps) (k : Text) where
  abbrev Kept : Cache → Outcome → Type 0
  Kept c o =
      ((after o).budget ≡ c.budget)
      × ((after o).sent ≡ c.sent)
      × ((after o).write_budget_per_day ≡ c.write_budget_per_day)

  mark_synced-Kept : (m : Meta) (c : Cache) → Kept c (mark_synced checksum_bytes now today ok k m c)
  mark_synced-Kept m c =
      if_cases (Kept c) (ok meta_mark) _ _
        (λ _.
          if_cases (Kept c) (is_dirty checksum_bytes now today ok k m c.control) _ _
            (λ _.
              if_cases (Kept c) (ok control_mark) _ _
                (λ _.
                  if_cases (Kept c) (ok outbox_remove) _ _ (λ _. (refl, refl, refl))
                    (λ _. (refl, refl, refl)))
                (λ _. (refl, refl, refl)))
            (λ _.
              if_cases (Kept c) (ok outbox_remove) _ _ (λ _. (refl, refl, refl))
                (λ _. (refl, refl, refl))))
        (λ _. (refl, refl, refl))

  account-Counted :
      (m : Meta) (r : RemoteRecord) (c : Cache)
      → ok budget_read ≡ true
      → ok budget_write ≡ true
      → spent today c < c.write_budget_per_day
      → Counted today c
          (after (account checksum_bytes now today ok k m (record c { sent = r ∷ c.sent })))
  unfolding count_write spent read_budget
  account-Counted m r c reads writes h =
      if_cases (λ o. Counted today c (after o)) (c.write_budget_per_day == 0) _ _
        (λ e. absurd (ground arith))
        (λ _.
          if_cases (λ o. Counted today c (after o)) (ok budget_read) _ _
            (λ _.
              if_cases (λ o. Counted today c (after o)) (ok budget_write) _ _
                (λ _.
                  counted
                    (mark_synced checksum_bytes now today ok k m
                      (count_write today (record c { sent = r ∷ c.sent })))
                    (mark_synced-Kept m (count_write today (record c { sent = r ∷ c.sent }))))
                (λ f. absurd (true≢false (sym writes ∙ f))))
            (λ f. absurd (true≢false (sym reads ∙ f))))
    where
      counted :
          (o : Outcome)
          → Kept (count_write today (record c { sent = r ∷ c.sent })) o
          → Counted today c (after o)
      counted o (b, s, p) =
          let one : spent today (after o) ≡ suc (spent today c) =
            ap (λ x. (budget_of_day today x).writes) b ∙ spent-count_write today c in
          record {
            policy = p;
            writes = omega (arith, one, ap length s);
            more = omega (arith, one);
            bound = inr (omega (arith, one));
          }

  send-Counted :
      (m : Meta) (c : Cache)
      → ok budget_read ≡ true
      → ok budget_write ≡ true
      → spent today c < c.write_budget_per_day
      → Counted today c (after (send checksum_bytes now today ok k m c))
  send-Counted m c reads writes h =
      if_cases (λ o. Counted today c (after o)) m.deleted _ _ (λ _. offered [])
        (λ _.
          if_cases (λ o. Counted today c (after o)) (ok payload_read) _ _ (λ _. payload)
            (λ _. Counted-refl today c))
    where
      offered : (p : Text) → Counted today c (after (offer checksum_bytes now today ok k m p c))
      offered p =
          if_cases (λ o. Counted today c (after o)) (ok remote_call) _ _
            (λ _. account-Counted m _ c reads writes h) (λ _. Counted-refl today c)

      payload :
          Counted today c (after (send_payload checksum_bytes now today ok k m c (payload_at k c)))
      payload = elim (Option-cases (payload_at k c)) [
        | inl e ↦ rw (e) (Counted-refl today c)
        | inr (p, e) ↦ rw (e) (offered p)
      ]

  pub sync_outbox_entry-Counted :
      (e : OutboxEntry) (c : Cache)
      → ok budget_read ≡ true
      → ok budget_write ≡ true
      → c.write_budget_per_day ≢ 0
      → Counted today c (after (sync_outbox_entry checksum_bytes now today ok k true e c))
  unfolding sync_outbox_entry within_budget spent read_budget
  sync_outbox_entry-Counted e c reads writes h =
      if_cases (λ o. Counted today c (after o)) c.has_remote _ _
        (λ _.
          if_cases (λ o. Counted today c (after o)) (ok outbox_read) _ _ (λ _. current)
            (λ _. Counted-refl today c))
        (λ _. Counted-refl today c)
    where
      within : within_budget ok today c ≡ true → spent today c < c.write_budget_per_day
      within b = ground arith

      meta : Counted today c (after (send_meta checksum_bytes now today ok k true c (meta_at k c)))
      meta = elim (Option-cases (meta_at k c)) [
        | inl p ↦ rw (p) (
            if_cases (λ o. Counted today c (after o)) (ok outbox_remove) _ _
              (λ _. record { policy = refl; writes = refl; more = omega arith; bound = inl refl })
              (λ _. Counted-refl today c))
        | inr (m, p) ↦ rw (p) (elim (Bool-cases (within_budget ok today c)) [
          | inl b ↦ rw (b) (send-Counted m c reads writes (within b))
          | inr b ↦ rw (b) (Counted-refl today c)
        ])
      ]

      current :
          Counted today c
            (after (send_current checksum_bytes now today ok k true e.version c (queued_at k c)))
      current = elim (Option-cases (queued_at k c)) [
        | inl q ↦ rw (q) (Counted-refl today c)
        | inr (f, q) ↦ rw (q) (
            if_cases (λ o. Counted today c (after o)) (f.version == e.version) _ _
              (λ _.
                if_cases (λ o. Counted today c (after o)) (ok meta_read) _ _ (λ _. meta)
                  (λ _. Counted-refl today c))
              (λ _. Counted-refl today c))
      ]
