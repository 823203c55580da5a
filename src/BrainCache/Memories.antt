-- ===== src/BrainCache/Memories.antt =====
-- About the memories of bot/brain_cache.go while they are sent: what Retrieve gives.
use gopherbot.Prelude.{
  ℕ, ◌≡◌, refl, sym, ap, subst, ◌∙◌, Bool, false, Option, none, some, List, if◌then◌else◌, ◌⊎◌, inl,
  inr,
}
use gopherbot.Prelude.Assoc.{lookup, insert, lookup-insert_here, lookup-insert_other}
use gopherbot.BrainCache.{
  Text, Bytes_discrete, OutboxEntry, Cache, Steps, Outcome, after, payload_at, meta_at, retrieve,
  undeleted,
}
use gopherbot.BrainCache.Sync.{sync_key}
use gopherbot.BrainCache.Effects.{Sent, Effect, dropped, refused, broken, sent, sync_key-cases}

-- The memories are the same to their readers.
abbrev pub SameMemories : (Text → Bool) → Cache → Cache → Type 0
SameMemories valid_key c c' = (k : Text) → retrieve valid_key k c' ≡ retrieve valid_key k c

module _ (checksum_bytes : Text → Text) (valid_key : Text → Bool) where
  module _ (now today : ℕ) (ok : Steps) (k : Text) where
    Sent-undeleted :
        {c c' : Cache} {o : List (Text × OutboxEntry)} (j : Text)
        → Sent checksum_bytes now today ok k c c' o
        → (payload : Option Text)
        → undeleted payload (meta_at j c') ≡ undeleted payload (meta_at j c)
    Sent-undeleted {c} {c'} j s payload = same s.metas
      where
        same :
            (c'.metas ≡ c.metas)
              ⊎ (c'.metas
                  ≡ insert Bytes_discrete k (record s.memory { synced_at = some now }) c.metas)
            → undeleted payload (meta_at j c') ≡ undeleted payload (meta_at j c)
        same (inl e) = ap (λ m. undeleted payload (lookup Bytes_discrete j m)) e
        same (inr e) =
            ap (λ m. undeleted payload (lookup Bytes_discrete j m)) e ∙ elim (Bytes_discrete k j) [
              | no h ↦ ap (undeleted payload) (lookup-insert_other Bytes_discrete k j _ c.metas h)
              | yes h ↦
                  subst
                    (λ x.
                      undeleted payload (
                        lookup Bytes_discrete x (
                          insert Bytes_discrete k (record s.memory { synced_at = some now })
                            c.metas))
                      ≡ undeleted payload (meta_at x c))
                    h
                    (ap (undeleted payload) (lookup-insert_here Bytes_discrete k _ c.metas)
                      ∙ sym (ap (undeleted payload) s.found))
            ]

    Sent-retrieve :
        {c c' : Cache} {o : List (Text × OutboxEntry)} (j : Text)
        → Sent checksum_bytes now today ok k c c' o
        → retrieve valid_key j c' ≡ retrieve valid_key j c
    unfolding retrieve
    Sent-retrieve {c} {c'} j s =
        ap (λ x. if valid_key j then x else none)
          (Sent-undeleted j s (payload_at j c')
            ∙ ap (λ p. undeleted (lookup Bytes_discrete j p) (meta_at j c)) s.payloads)

    Effect-SameMemories :
        (c : Cache) (o : Outcome)
        → Effect checksum_bytes now today ok k c o
        → SameMemories valid_key c (after o)
    unfolding retrieve
    Effect-SameMemories c _ (dropped e) j = refl
    Effect-SameMemories c _ refused j = refl
    Effect-SameMemories c _ (broken s) j = Sent-retrieve j s
    Effect-SameMemories c _ (sent s) j = Sent-retrieve j s

    pub sync_key-SameMemories :
        (c : Cache)
        → SameMemories valid_key c (after (sync_key checksum_bytes now today ok k false c))
    sync_key-SameMemories c = elim (sync_key-cases checksum_bytes now today ok k c false) [
      | inl f ↦ Effect-SameMemories c _ f
      | inr f ↦ rw (f) (λ j. refl)
    ]
