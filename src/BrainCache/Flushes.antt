-- ===== src/BrainCache/Flushes.antt =====
-- About Flush and Shutdown of bot/brain_cache.go.
use gopherbot.Prelude.{
  ℕ, zero, suc, ◌+◌, ◌≤◌, ◌<◌, ◌≡◌, refl, sym, ap, ◌∙◌, Bool, true, false, Option, none, some, [],
  if◌then◌else◌, is_some, if_true, if_false, Bool-cases, Option-cases, ◌⊎◌, inl, inr, arith, length,
}
use mathlib.Core.Bool.{true≢false}
use gopherbot.Prelude.Assoc.{lookup}
use gopherbot.BrainCache.{
  Text, Bytes_discrete, Meta, OutboxEntry, RemoteRecord, Cache, Steps, Outcome, done, failed, after,
  payload_at, meta_at, queued_at, retrieve, undeleted,
}
use gopherbot.BrainCache.Sync.{sync_key, next_outbox_entry}
use gopherbot.BrainCache.Loops.{
  Round, Rounds, later, run_turn, finished, again, flush_turn, flush_entry, flush_loop, flush,
  flush_among, nobody,
}
use gopherbot.BrainCache.Effects.{sync_key-Effect}
use gopherbot.BrainCache.Mirror.{last_sent, Mirrored, sync_key-Mirrored}
use gopherbot.BrainCache.Queue.{next_outbox_entry_lem}
use gopherbot.BrainCache.Pending.{Shrinks, Effect-Shrinks, AllSucceed, Succeeds, sync_key-Succeeds}
use gopherbot.BrainCache.Memories.{SameMemories, sync_key-SameMemories}

module _ (checksum_bytes : Text → Text) (valid_key : Text → Bool) where
  module _ (now today : ℕ) (ok : Steps) (k : Text) where
    sync_key-Shrinks :
        (c : Cache) (e : OutboxEntry)
        → c.has_remote ≡ true
        → queued_at k c ≡ some e
        → Shrinks checksum_bytes (length c.outbox) (sync_key checksum_bytes now today ok k false c)
    sync_key-Shrinks c e h q =
        Effect-Shrinks checksum_bytes now today ok k c e _ q
          (sync_key-Effect checksum_bytes now today ok k c false e h q)

  shorter :
      (n : ℕ) (o : Outcome)
      → Shrinks checksum_bytes n o
      → (length (after o).outbox ≤ n) × (Succeeds o → length (after o).outbox < n)
  shorter n (done c) h = (omega arith, λ _. h)
  shorter n (failed c) h = (h, λ x. absurd x)

  -- The outbox is listed and no step fails.
  abbrev pub Clear : Round → Type 0
  Clear r = (r.listed ≡ true) × AllSucceed r.ok

  -- A round of Flush ends it at an empty outbox, or goes on with the same memories; a clear one goes
  -- on with a shorter outbox.
  pub record Goes (r : Round) (c c' : Cache) : Type 0 where
    pub turn : flush_turn checksum_bytes r [] c ≡ again c'
    pub mirrored : Mirrored c'
    pub memories : SameMemories valid_key c c'
    pub shorter : length c'.outbox ≤ length c.outbox
    pub clear : Clear r → length c'.outbox < length c.outbox

  pub flush_turn-cases :
      (r : Round) (c : Cache)
      → Mirrored c
      → ((flush_turn checksum_bytes r [] c ≡ finished c) × (c.outbox ≡ []))
        ⊎ ((c' : Cache) × Goes r c c')
  unfolding next_outbox_entry
  flush_turn-cases r c i = elim (Bool-cases r.listed) [
    | inr f ↦ inr (
      c,
      record {
        turn = if_false r.listed _ _ f;
        mirrored = i;
        memories = λ k. refl;
        shorter = omega arith;
        clear = λ h. absurd (true≢false (sym h.0 ∙ f));
      },
    )
    | inl t ↦ elim (next_outbox_entry_lem c.outbox i.unique) [
      | inl p ↦ inl (
        if_true r.listed _ _ t ∙ ap (flush_entry checksum_bytes r [] c) (ap next_outbox_entry p),
        p,
      )
      | inr (k, e, p, q, _) ↦
          let s = shorter _ _ (sync_key-Shrinks r.now r.today r.ok k c e i.has_remote q) in
          inr (
            after (sync_key checksum_bytes r.now r.today r.ok k false c),
            record {
              turn = if_true r.listed _ _ t ∙ ap (flush_entry checksum_bytes r [] c) p;
              mirrored = sync_key-Mirrored checksum_bytes r.now r.today r.ok k c false i;
              memories = sync_key-SameMemories checksum_bytes valid_key r.now r.today r.ok k c;
              shorter = s.0;
              clear = λ h. s.1 (sync_key-Succeeds checksum_bytes r.now r.today r.ok k c e h.1 i q);
            },
          )
    ]
  ]

  -- What Flush leaves.
  pub record Flushed (c c' : Cache) : Type 0 where
    pub outbox : c'.outbox ≡ []
    pub mirrored : Mirrored c'
    pub memories : SameMemories valid_key c c'

  Flushed-step : (r : Round) (c c' c'' : Cache) → Goes r c c' → Flushed c' c'' → Flushed c c''
  Flushed-step r c c' c'' g f = record {
    outbox = f.outbox;
    mirrored = f.mirrored;
    memories = λ k. f.memories k ∙ g.memories k;
  }

  -- `n` rounds fail at will, the later ones are clear.
  flush_loop-ends :
      (n fuel : ℕ) (rounds : Rounds) (c : Cache)
      → Mirrored c
      → ((i : ℕ) → n ≤ i → Clear (rounds i))
      → n + length c.outbox < fuel
      → (c' : Cache) × (flush_loop checksum_bytes fuel rounds nobody c ≡ some c') × Flushed c c'
  flush_loop-ends n zero rounds c i good h = absurd (omega arith)
  flush_loop-ends n (suc fuel) rounds c i good h = elim (flush_turn-cases (rounds 0) c i) [
    | inl (e, p) ↦ (c, ap (run_turn _) e, record { outbox = p; mirrored = i; memories = λ k. refl })
    | inr (c', g) ↦
        let (m, later_good, enough) = rest n good h c' g in
        let (c'', e, f) = flush_loop-ends m fuel (later rounds) c' g.mirrored later_good enough in
        (c'', ap (run_turn _) g.turn ∙ e, Flushed-step (rounds 0) c c' c'' g f)
  ]
    where
      rest :
          (n : ℕ)
          → ((i : ℕ) → n ≤ i → Clear (rounds i))
          → n + length c.outbox < suc fuel
          → (c' : Cache) → Goes (rounds 0) c c'
          → (m : ℕ) × ((i : ℕ) → m ≤ i → Clear (later rounds i)) × (m + length c'.outbox < fuel)
      rest zero good h c' g =
          (0, λ i l. good (suc i) (omega arith), omega (arith, g.clear (good 0 (omega arith))))
      rest (suc n) good h c' g = (n, λ i l. good (suc i) (omega arith), omega (arith, g.shorter))

  -- What the cloud has of a key, by the newest record that it accepted.
  abbrev pub payload_of : Option RemoteRecord → Option Text
  payload_of none = none
  payload_of (some r) = if r.deleted then none else some r.payload

  abbrev pub cloud : Text → Cache → Option Text
  cloud k c = payload_of (last_sent k c.sent)

  -- An empty outbox and a mirrored cache: the cloud has the memories that the cache has.
  cloud-retrieve :
      (c : Cache) (k : Text) (m : Meta)
      → Mirrored c
      → c.outbox ≡ []
      → valid_key k ≡ true
      → meta_at k c ≡ some m
      → cloud k c ≡ retrieve valid_key k c
  unfolding retrieve lookup
  cloud-retrieve c k m i empty v e = elim (i.copies k m e) [
    | inl q ↦ absurd (true≢false (sym q ∙ ap (λ o. is_some (lookup Bytes_discrete k o)) empty))
    | inr (r, l, carries) ↦
        ap payload_of l
        ∙ same r carries.deleted carries.payload
        ∙ sym (if_true (valid_key k) _ _ v ∙ ap (undeleted (payload_at k c)) e)
  ]
    where
      same :
          (r : RemoteRecord)
          → r.deleted ≡ m.deleted
          → (m.deleted ≡ true) ⊎ (payload_at k c ≡ some r.payload)
          → payload_of (some r) ≡ undeleted (payload_at k c) (some m)
      same r d (inl t) = if_true r.deleted _ _ (d ∙ t) ∙ sym (if_true m.deleted _ _ t)
      same r d (inr p) =
          ap (λ b. if b then none else some r.payload) d
          ∙ ap (λ o. if m.deleted then none else o) (sym p)

  pub cloud-cases :
      (c : Cache) (k : Text)
      → Mirrored c
      → c.outbox ≡ []
      → (valid_key k ≡ false) ⊎ (meta_at k c ≡ none) ⊎ (cloud k c ≡ retrieve valid_key k c)
  cloud-cases c k i empty = elim (Bool-cases (valid_key k)) [
    | inr v ↦ inl v
    | inl v ↦ elim (Option-cases (meta_at k c)) [
      | inl e ↦ inr (inl e)
      | inr (m, e) ↦ inr (inr (cloud-retrieve c k m i empty v e))
    ]
  ]

  -- Flush of a mirrored cache returns, where no other call comes between its rounds, and from some round
  -- on the outbox is listed and no step fails: the rounds before that one and one more than the outbox
  -- has entries are enough. Then the outbox is empty, Retrieve gives for every key what it gave before,
  -- and for every valid key with a meta record, the cloud's newest record has what Retrieve gives.
  pub flush-ends :
      (n fuel : ℕ) (rounds : Rounds) (c : Cache)
      → Mirrored c
      → ((i : ℕ) → n ≤ i → Clear (rounds i))
      → n + length c.outbox < fuel
      → (c' : Cache) × (flush checksum_bytes fuel rounds c ≡ some c')
        × (c'.outbox ≡ [])
        × SameMemories valid_key c c'
        × ((k : Text)
            → (valid_key k ≡ false)
              ⊎ (meta_at k c' ≡ none)
              ⊎ (cloud k c' ≡ retrieve valid_key k c'))
  unfolding flush_among
  flush-ends n fuel rounds c i good h =
      let (c', e, f) = flush_loop-ends n fuel rounds c i good h in
      (
        c',
        if_true c.has_remote _ _ i.has_remote ∙ e,
        f.outbox,
        f.memories,
        λ k. cloud-cases c' k f.mirrored f.outbox,
      )
