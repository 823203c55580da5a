-- ===== src/BrainCache/Spending.antt =====
-- About the daily budget over the rounds of `syncPending` of bot/brain_cache.go.
use gopherbot.Prelude.{
  ℕ, zero, suc, ◌+◌, ◌-◌, ◌≤◌, ◌≡◌, ◌≢◌, sym, ap, subst, ◌∙◌, true, Option, none, some, List, [],
  ◌∷◌, if_cases, some-injective, ◌⊎◌, inl, inr, arith, length,
}
use gopherbot.BrainCache.{
  Text, OutboxEntry, Cache, Outcome, done, failed, after, budget_read, budget_write,
}
use gopherbot.BrainCache.Sync.{budget_of_day, read_budget, sync_outbox_entry, next_outbox_entry}
use gopherbot.BrainCache.Calls.{Call, run_call, run_calls}
use gopherbot.BrainCache.Local.{AllLocal, OthersLocal, run_call-Spared}
use gopherbot.BrainCache.Loops.{
  Round, Rounds, later, Others, later_others, Turn, run_turn, finished, again, pending_turn,
  pending_entry, pending_next, sync_pending,
}
use gopherbot.BrainCache.Budget.{
  spent, Counted, Counted-refl, Counted-trans, sync_outbox_entry-Counted,
}

-- The rounds are of one day, and the budget's file can be read and written in them.
abbrev pub OneDay : ℕ → Rounds → Type 0
OneDay today rounds =
    (i : ℕ)
    → ((rounds i).today ≡ today)
      × ((rounds i).ok budget_read ≡ true)
      × ((rounds i).ok budget_write ≡ true)

module _ (checksum_bytes : Text → Text) (today : ℕ) where
  abbrev turned : Turn → Cache
  turned (finished c) = c
  turned (again c) = c

  run_calls-Counted :
      (xs : List Call) (c : Cache) → AllLocal xs → Counted today c (run_calls checksum_bytes xs c)
  unfolding spent read_budget
  run_calls-Counted [] c h = Counted-refl today c
  run_calls-Counted (x ∷ xs) c (h, hs) =
      let (b, s, p) = run_call-Spared checksum_bytes x c h in
      let c' : Cache = run_call checksum_bytes x c in
      let same : spent today c' ≡ spent today c = ap (λ o. (budget_of_day today o).writes) b in
      Counted-trans today c c' (run_calls checksum_bytes xs c')
        (record {
          policy = p;
          writes = omega (arith, same, ap length s);
          more = omega (arith, same);
          bound = inl same;
        })
        (run_calls-Counted xs c' hs)

  pending_turn-Counted :
      (r : Round) (during : List Call) (c : Cache)
      → (r.today ≡ today) × (r.ok budget_read ≡ true) × (r.ok budget_write ≡ true)
      → c.write_budget_per_day ≢ 0
      → AllLocal during
      → Counted today c (turned (pending_turn checksum_bytes r during c))
  pending_turn-Counted r during c (d, a, b) h l =
      if_cases (λ t. Counted today c (turned t)) r.listed _ _
        (λ _. entry (next_outbox_entry c.outbox)) (λ _. Counted-refl today c)
    where
      next :
          (o : Outcome)
          → Counted today c (after o)
          → Counted today c (turned (pending_next checksum_bytes r o))
      next (failed c') p = p
      next (done c') p =
          if_cases (λ t. Counted today c (turned t)) r.interrupted _ _ (λ _. p) (λ _. p)

      entry :
          (o : Option (Text × OutboxEntry))
          → Counted today c (turned (pending_entry checksum_bytes r during c o))
      entry none = Counted-refl today c
      entry (some (k, e)) =
          let c' : Cache = run_calls checksum_bytes during c in
          let calls = run_calls-Counted during c l in
          next (sync_outbox_entry checksum_bytes r.now r.today r.ok k true e c') (
            Counted-trans today c c' _ calls (
              subst
                (λ t.
                  Counted t c'
                    (after (sync_outbox_entry checksum_bytes r.now r.today r.ok k true e c')))
                d
                (sync_outbox_entry-Counted checksum_bytes r.now r.today r.ok k e c' a b
                  (λ z. h (sym calls.policy ∙ z)))))

  sync_pending-Counted :
      (fuel : ℕ) (rounds : Rounds) (others : Others) (c c' : Cache)
      → OneDay today rounds
      → OthersLocal others
      → c.write_budget_per_day ≢ 0
      → sync_pending checksum_bytes fuel rounds others c ≡ some c'
      → Counted today c c'
  unfolding sync_pending
  sync_pending-Counted zero rounds others c c' day l h e = absurd cc
  sync_pending-Counted (suc fuel) rounds others c c' day l h e =
      let calls = run_calls-Counted (others 0).before c (l 0).0 in
      let c1 : Cache = run_calls checksum_bytes (others 0).before c in
      Counted-trans today c c1 c' calls (
        step c1 (pending_turn checksum_bytes (rounds 0) (others 0).during c1)
          (pending_turn-Counted (rounds 0) (others 0).during c1 (day 0)
            (λ z. h (sym calls.policy ∙ z)) (l 0).1)
          (λ z. h (sym calls.policy ∙ z)) e
          (λ x.
            sync_pending-Counted fuel (later rounds) (later_others others) x c' (λ i. day (suc i))
              (λ i. l (suc i))))
    where
      step :
          (c1 : Cache) (t : Turn)
          → Counted today c1 (turned t)
          → c1.write_budget_per_day ≢ 0
          → run_turn (sync_pending checksum_bytes fuel (later rounds) (later_others others)) t
            ≡ some c'
          → ((x : Cache)
              → x.write_budget_per_day ≢ 0
              → sync_pending checksum_bytes fuel (later rounds) (later_others others) x ≡ some c'
              → Counted today x c')
          → Counted today c1 c'
      step c1 (finished x) p z e rest = subst (Counted today c1) (some-injective x c' e) p
      step c1 (again x) p z e rest =
          Counted-trans today c1 x c' p (rest x (λ y. z (sym p.policy ∙ y)) e)

  -- Where the budget is not 0, the rounds of `syncPending` are of one day, the budget's file can be read
  -- and written in each, and of the other calls that come none sends an entry or is a Store or Delete of
  -- the lock's key: when the loop has returned, the writes that the remote has answered without an error
  -- are no more than the day's budget had left, none if it had none left, and each is counted.
  pub sync_pending-budget :
      (fuel : ℕ) (rounds : Rounds) (others : Others) (c c' : Cache)
      → OneDay today rounds
      → OthersLocal others
      → c.write_budget_per_day ≢ 0
      → sync_pending checksum_bytes fuel rounds others c ≡ some c'
      → (length c'.sent ≤ length c.sent + (c.write_budget_per_day - spent today c))
        × (length c'.sent + spent today c ≡ length c.sent + spent today c')
  sync_pending-budget fuel rounds others c c' day l h e =
      let p = sync_pending-Counted fuel rounds others c c' day l h e in
      (limit p.bound p.writes, p.writes)
    where
      limit :
          (spent today c' ≡ spent today c) ⊎ (spent today c' ≤ c.write_budget_per_day)
          → length c'.sent + spent today c ≡ length c.sent + spent today c'
          → length c'.sent ≤ length c.sent + (c.write_budget_per_day - spent today c)
      limit (inl q) w = omega arith
      limit (inr q) w = omega arith
