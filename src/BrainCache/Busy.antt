-- ===== src/BrainCache/Busy.antt =====
-- About `syncPending` and Flush of bot/brain_cache.go while other goroutines call the cache.
use gopherbot.Prelude.{
  ℕ, zero, suc, ◌+◌, ◌≤◌, ◌<◌, ◌≡◌, refl, ap, ◌∙◌, Bool, true, false, Option, none, some, List, [],
  if_true, Bool-cases, ◌⊎◌, inl, inr, length, arith,
}
use gopherbot.BrainCache.{Text, OutboxEntry, Cache, Outcome, done, failed, after, meta_at, retrieve}
use gopherbot.BrainCache.Sync.{sync_outbox_entry, next_outbox_entry}
use gopherbot.BrainCache.Calls.{Call, Between, quiet, run_calls, AllWrite}
use gopherbot.BrainCache.Loops.{
  Round, Rounds, later, Others, later_others, Turn, run_turn, finished, again, pending_turn,
  pending_entry, pending_next, sync_pending, flush_turn, flush_loop, flush_among,
}
use gopherbot.BrainCache.Mirror.{Mirrored, sync_outbox_entry-Mirrored, sync_key-Mirrored}
use gopherbot.BrainCache.Runs.{run_calls-Mirrored}
use gopherbot.BrainCache.Growth.{run_calls-length, sync_outbox_entry-AtMost, sync_key-AtMost}
use gopherbot.BrainCache.Queue.{next_outbox_entry_lem}
use gopherbot.BrainCache.Pending.{pending_turn-cases}
use gopherbot.BrainCache.Flushes.{Clear, flush_turn-cases, cloud, cloud-cases}

-- The calls of the first `n` rounds.
abbrev pub calls : ℕ → Others → ℕ
calls zero others = 0
calls (suc n) others =
    length (others 0).before + length (others 0).during + calls n (later_others others)

-- In every round, each Store and Delete can write its files.
abbrev pub OthersWrite : Others → Type 0
OthersWrite others = (i : ℕ) → AllWrite (others i).before × AllWrite (others i).during

-- What a round of a loop ends with, where the outbox had `n` entries and `d` calls come in the round.
data Ends (P : Cache → Type 0) (n d : ℕ) : Turn → Type 0 where
  stops : {c' : Cache} → P c' → Ends P n d (finished c')
  goes_on : {c' : Cache} → Mirrored c' → length c'.outbox ≤ d + n → Ends P n d (again c')

Ends-run_turn :
    (P : Cache → Type 0) (n d : ℕ) (loop : Cache → Option Cache) (t : Turn)
    → Ends P n d t
    → ((c : Cache)
        → Mirrored c
        → length c.outbox ≤ d + n
        → (c' : Cache) × (loop c ≡ some c') × P c')
    → (c' : Cache) × (run_turn loop t ≡ some c') × P c'
Ends-run_turn P n d loop (finished x) (stops p) ih = (x, refl, p)
Ends-run_turn P n d loop (again x) (goes_on j l) ih = ih x j l

module _ (checksum_bytes : Text → Text) where
  pending_entry-Ends :
      (r : Round) (during : List Call) (c : Cache) (o : Option (Text × OutboxEntry))
      → Mirrored c
      → AllWrite during
      → Ends Mirrored (length c.outbox) (length during) (pending_entry checksum_bytes r during c o)
  pending_entry-Ends r during c none i w = stops i
  pending_entry-Ends r during c (some (k, e)) i w =
      next (sync_outbox_entry checksum_bytes r.now r.today r.ok k true e c')
        (sync_outbox_entry-Mirrored checksum_bytes r.now r.today r.ok k c' true e
          (run_calls-Mirrored checksum_bytes during c i w))
        (omega (
          arith,
          sync_outbox_entry-AtMost checksum_bytes r.now r.today r.ok k true e c',
          run_calls-length checksum_bytes during c,
        ))
    where
      c' : Cache
      c' = run_calls checksum_bytes during c

      next :
          (o : Outcome)
          → Mirrored (after o)
          → length (after o).outbox ≤ length during + length c.outbox
          → Ends Mirrored (length c.outbox) (length during) (pending_next checksum_bytes r o)
      next (failed x) j l = stops j
      next (done x) j l = elim (Bool-cases r.interrupted) [
        | inl t ↦ rw (t) (stops j)
        | inr f ↦ rw (f) (goes_on j l)
      ]

  pending_turn-Ends :
      (r : Round) (during : List Call) (c : Cache)
      → Mirrored c
      → AllWrite during
      → Ends Mirrored (length c.outbox) (length during) (pending_turn checksum_bytes r during c)
  pending_turn-Ends r during c i w = elim (Bool-cases r.listed) [
    | inl t ↦ rw (t) (pending_entry-Ends r during c (next_outbox_entry c.outbox) i w)
    | inr f ↦ rw (f) (stops i)
  ]

  -- `syncPending` ends, whatever fails in its rounds, where the cache is mirrored at its start, from
  -- round `n` on no other call comes, and the Stores and Deletes that come before can write their
  -- files: `n` and one more than the entries of the outbox and the calls that come are enough rounds. It
  -- leaves the cache mirrored.
  pub sync_pending-ends :
      (n fuel : ℕ) (rounds : Rounds) (others : Others) (c : Cache)
      → Mirrored c
      → OthersWrite others
      → ((i : ℕ) → n ≤ i → others i ≡ quiet)
      → n + calls n others + length c.outbox < fuel
      → (c' : Cache) × (sync_pending checksum_bytes fuel rounds others c ≡ some c') × Mirrored c'
  unfolding sync_pending
  sync_pending-ends n zero rounds others c i w q h = absurd (omega arith)
  sync_pending-ends zero (suc fuel) rounds others c i w q h =
      elim (pending_turn-cases checksum_bytes (rounds 0) c i) [
        | inl (c', e, j) ↦ (c', ap (run_turn _) (alone ∙ e), j)
        | inr (c', e, j, l) ↦
            let (c'', f, j') =
              sync_pending-ends zero fuel (later rounds) (later_others others) c' j (λ x. w (suc x))
                (λ x y. q (suc x) (omega arith)) (omega arith) in
            (c'', ap (run_turn _) (alone ∙ e) ∙ f, j')
      ]
    where
      alone :
          pending_turn checksum_bytes
            (rounds 0)
            (others 0).during
            (run_calls checksum_bytes (others 0).before c)
          ≡ pending_turn checksum_bytes (rounds 0) [] c
      alone =
          ap
            (λ (b : Between).
              pending_turn checksum_bytes (rounds 0) b.during (run_calls checksum_bytes b.before c))
            (q 0 (omega arith))
  sync_pending-ends (suc n) (suc fuel) rounds others c i w q h =
      Ends-run_turn Mirrored (length c1.outbox) (length (others 0).during) _ _
        (pending_turn-Ends (rounds 0) (others 0).during c1
          (run_calls-Mirrored checksum_bytes (others 0).before c i (w 0).0) (w 0).1)
        (λ x j l.
          sync_pending-ends n fuel (later rounds) (later_others others) x j (λ y. w (suc y))
            (λ y z. q (suc y) (omega arith))
            (omega (arith, run_calls-length checksum_bytes (others 0).before c)))
    where
      c1 : Cache
      c1 = run_calls checksum_bytes (others 0).before c

module _ (checksum_bytes : Text → Text) (valid_key : Text → Bool) where
  -- A mirrored cache with an empty outbox.
  abbrev Emptied : Cache → Type 0
  Emptied c = (c.outbox ≡ []) × Mirrored c

  flush_turn-Ends :
      (r : Round) (during : List Call) (c : Cache)
      → Mirrored c
      → AllWrite during
      → Ends Emptied (length c.outbox) (length during) (flush_turn checksum_bytes r during c)
  unfolding next_outbox_entry
  flush_turn-Ends r during c i w = elim (Bool-cases r.listed) [
    | inl t ↦ rw (t) (elim (next_outbox_entry_lem c.outbox i.unique) [
      | inl p ↦ rw (ap next_outbox_entry p) (stops (p, i))
      | inr (k, e, p, q, _) ↦ rw (p) (
          goes_on
            (sync_key-Mirrored checksum_bytes r.now r.today r.ok k c' false
              (run_calls-Mirrored checksum_bytes during c i w))
            (omega (
              arith,
              sync_key-AtMost checksum_bytes r.now r.today r.ok k false c',
              run_calls-length checksum_bytes during c,
            )))
    ])
    | inr f ↦ rw (f) (goes_on i (omega arith))
  ]
    where
      c' : Cache
      c' = run_calls checksum_bytes during c

  -- From round `n` on the outbox is listed, no step fails, and no other call comes.
  abbrev pub Settled : ℕ → Rounds → Others → Type 0
  Settled n rounds others =
      (i : ℕ) → n ≤ i → Clear checksum_bytes valid_key (rounds i) × (others i ≡ quiet)

  flush_loop-Emptied :
      (n fuel : ℕ) (rounds : Rounds) (others : Others) (c : Cache)
      → Mirrored c
      → OthersWrite others
      → Settled n rounds others
      → n + calls n others + length c.outbox < fuel
      → (c' : Cache) × (flush_loop checksum_bytes fuel rounds others c ≡ some c') × Emptied c'
  flush_loop-Emptied n zero rounds others c i w q h = absurd (omega arith)
  flush_loop-Emptied zero (suc fuel) rounds others c i w q h =
      elim (flush_turn-cases checksum_bytes valid_key (rounds 0) c i) [
        | inl (e, p) ↦ (c, ap (run_turn _) (alone ∙ e), (p, i))
        | inr (c', g) ↦
            let (c'', f, j) =
              flush_loop-Emptied zero fuel (later rounds) (later_others others) c' g.mirrored
                (λ x. w (suc x)) (λ x y. q (suc x) (omega arith))
                (omega (arith, g.clear (q 0 (omega arith)).0)) in
            (c'', ap (run_turn _) (alone ∙ g.turn) ∙ f, j)
      ]
    where
      alone :
          flush_turn checksum_bytes
            (rounds 0)
            (others 0).during
            (run_calls checksum_bytes (others 0).before c)
          ≡ flush_turn checksum_bytes (rounds 0) [] c
      alone =
          ap
            (λ (b : Between).
              flush_turn checksum_bytes (rounds 0) b.during (run_calls checksum_bytes b.before c))
            (q 0 (omega arith)).1
  flush_loop-Emptied (suc n) (suc fuel) rounds others c i w q h =
      Ends-run_turn Emptied (length c1.outbox) (length (others 0).during) _ _
        (flush_turn-Ends (rounds 0) (others 0).during c1
          (run_calls-Mirrored checksum_bytes (others 0).before c i (w 0).0) (w 0).1)
        (λ x j l.
          flush_loop-Emptied n fuel (later rounds) (later_others others) x j (λ y. w (suc y))
            (λ y z. q (suc y) (omega arith))
            (omega (arith, run_calls-length checksum_bytes (others 0).before c)))
    where
      c1 : Cache
      c1 = run_calls checksum_bytes (others 0).before c

  -- Flush returns among other calls, where the cache is mirrored at its start, from round `n` on no
  -- other call comes, the outbox is listed and no step fails, and the Stores and Deletes that come
  -- before can write their files: `n` and one more than the entries of the outbox and the calls that
  -- come are enough rounds. Then the outbox is empty, the cache is mirrored, and for every valid key
  -- with a meta record, the cloud's newest record has what Retrieve gives.
  pub flush_among-ends :
      (n fuel : ℕ) (rounds : Rounds) (others : Others) (c : Cache)
      → Mirrored c
      → OthersWrite others
      → Settled n rounds others
      → n + calls n others + length c.outbox < fuel
      → (c' : Cache) × (flush_among checksum_bytes fuel rounds others c ≡ some c')
        × (c'.outbox ≡ [])
        × Mirrored c'
        × ((k : Text)
            → (valid_key k ≡ false)
              ⊎ (meta_at k c' ≡ none)
              ⊎ (cloud checksum_bytes valid_key k c' ≡ retrieve valid_key k c'))
  unfolding flush_among
  flush_among-ends n fuel rounds others c i w q h =
      let (c', e, (p, j)) = flush_loop-Emptied n fuel rounds others c i w q h in
      (
        c',
        if_true c.has_remote _ _ i.has_remote ∙ e,
        p,
        j,
        λ k. cloud-cases checksum_bytes valid_key c' k j p,
      )
