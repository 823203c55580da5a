-- ===== src/BrainCache/Mirror.antt =====
-- About the cache of bot/brain_cache.go and what its remote has accepted.
use gopherbot.Prelude.{
  ℕ, ◌≡◌, ◌≢◌, refl, sym, ap, subst, ◌∙◌, Bool, true, Option, none, some, List, [], ◌∷◌, is_some,
  if◌then◌else◌, if_cases, if_true, ◌⊎◌, inl, inr,
}
use mathlib.Core.Bool.{true≢false}
use gopherbot.Prelude.Assoc.{
  lookup, insert, delete, lookup-insert_here, lookup-insert_other, lookup-delete_other, IsUnique,
  delete-IsUnique,
}
use gopherbot.Prelude.Bytes.{bytes_eq_iff}
use gopherbot.BrainCache.{
  Text, bytes_eq, Bytes_discrete, Meta, OutboxEntry, RemoteRecord, Cache, Steps, Outcome, after,
  payload_at, meta_at, queued_at,
}
use gopherbot.BrainCache.Sync.{sync_outbox_entry, sync_key, record_of}
use gopherbot.BrainCache.Effects.{
  Sent, Effect, dropped, refused, broken, sent, sync_outbox_entry-cases, sync_key-cases,
}

-- The newest record of a key that the remote accepted.
unfoldable pub last_sent : Text → List RemoteRecord → Option RemoteRecord
last_sent k [] = none
last_sent k (r ∷ l) = if bytes_eq r.key k then some r else last_sent k l

-- The record has the contents of the memory.
pub record Carries (c : Cache) (k : Text) (m : Meta) (r : RemoteRecord) : Type 0 where
  pub version : r.version ≡ m.version
  pub deleted : r.deleted ≡ m.deleted
  pub payload : (m.deleted ≡ true) ⊎ (payload_at k c ≡ some r.payload)

-- A cache with a remote whose memories each wait in the outbox, or the newest record that the remote accepted has its contents.
pub record Mirrored (c : Cache) : Type 0 where
  pub copies :
      (k : Text) (m : Meta)
      → meta_at k c ≡ some m
      → (is_some (queued_at k c) ≡ true)
        ⊎ ((r : RemoteRecord) × (last_sent k c.sent ≡ some r) × Carries c k m r)
  pub whole :
      (k : Text) (m : Meta)
      → meta_at k c ≡ some m
      → (m.deleted ≡ true) ⊎ (is_some (payload_at k c) ≡ true)
  pub unique : IsUnique Bytes_discrete c.outbox
  pub has_remote : c.has_remote ≡ true

pub last_sent-here : (r : RemoteRecord) (l : List RemoteRecord) → last_sent r.key (r ∷ l) ≡ some r
unfolding last_sent
last_sent-here r l = if_true (bytes_eq r.key r.key) _ _ ((bytes_eq_iff r.key r.key).1 refl)

last_sent-other :
    (k : Text) (r : RemoteRecord) (l : List RemoteRecord)
    → r.key ≢ k
    → last_sent k (r ∷ l) ≡ last_sent k l
unfolding last_sent
last_sent-other k r l h =
    if_cases (λ (o : Option RemoteRecord). o ≡ last_sent k l) (bytes_eq r.key k) _ _
      (λ e. absurd (h ((bytes_eq_iff r.key k).0 e))) (λ _. refl)

-- Another key's memory is the same in both states.
pub record Alike (c c' : Cache) (j : Text) : Type 0 where
  pub metas : meta_at j c' ≡ meta_at j c
  pub payloads : payload_at j c' ≡ payload_at j c
  pub queued : queued_at j c' ≡ queued_at j c
  pub sent : last_sent j c'.sent ≡ last_sent j c.sent

pub Alike-copies :
    {c c' : Cache} {j : Text} (m : Meta)
    → Alike c c' j
    → Mirrored c
    → meta_at j c' ≡ some m
    → (is_some (queued_at j c') ≡ true)
      ⊎ ((r : RemoteRecord) × (last_sent j c'.sent ≡ some r) × Carries c' j m r)
Alike-copies {c} {c'} {j} m a i e = elim (i.copies j m (sym a.metas ∙ e)) [
  | inl q ↦ inl (ap is_some a.queued ∙ q)
  | inr (r, l, carries) ↦ inr (
    r,
    a.sent ∙ l,
    record {
      version = carries.version;
      deleted = carries.deleted;
      payload = moved r carries.payload;
    },
  )
]
  where
    moved :
        (r : RemoteRecord)
        → (m.deleted ≡ true) ⊎ (payload_at j c ≡ some r.payload)
        → (m.deleted ≡ true) ⊎ (payload_at j c' ≡ some r.payload)
    moved r (inl d) = inl d
    moved r (inr p) = inr (a.payloads ∙ p)

pub Alike-whole :
    {c c' : Cache} {j : Text} (m : Meta)
    → Alike c c' j
    → Mirrored c
    → meta_at j c' ≡ some m
    → (m.deleted ≡ true) ⊎ (is_some (payload_at j c') ≡ true)
Alike-whole {c} {c'} {j} m a i e = elim (i.whole j m (sym a.metas ∙ e)) [
  | inl d ↦ inl d
  | inr p ↦ inr (ap is_some a.payloads ∙ p)
]

module _ (checksum_bytes : Text → Text) (now today : ℕ) (ok : Steps) (k : Text) where
  Sent-Alike :
      {c c' : Cache} {o : List (Text × OutboxEntry)} (j : Text)
      → Sent checksum_bytes now today ok k c c' o
      → lookup Bytes_discrete j o ≡ queued_at j c
      → k ≢ j
      → Alike c c' j
  unfolding record_of
  Sent-Alike {c} {c'} j s q h = record {
    metas = metas s.metas;
    payloads = ap (lookup Bytes_discrete j) s.payloads;
    queued = ap (lookup Bytes_discrete j) s.outbox ∙ q;
    sent = ap (last_sent j) s.sent ∙ last_sent-other j _ c.sent h;
  }
    where
      metas :
          (c'.metas ≡ c.metas)
            ⊎ (c'.metas
                ≡ insert Bytes_discrete k (record s.memory { synced_at = some now }) c.metas)
          → meta_at j c' ≡ meta_at j c
      metas (inl e) = ap (lookup Bytes_discrete j) e
      metas (inr e) =
          ap (lookup Bytes_discrete j) e ∙ lookup-insert_other Bytes_discrete k j _ c.metas h

  -- The version and the mark of deletion of the memory that was sent stay.
  Sent-meta :
      {c c' : Cache} {o : List (Text × OutboxEntry)} (m : Meta)
      (s : Sent checksum_bytes now today ok k c c' o)
      → meta_at k c' ≡ some m
      → (s.memory.version ≡ m.version) × (s.memory.deleted ≡ m.deleted)
  Sent-meta {c} {c'} m s e = same s.metas
    where
      memory : Option Meta → Option (ℕ × Bool)
      memory none = none
      memory (some n) = some (n.version, n.deleted)

      injective : (n : Meta) → some n ≡ some m → (n.version ≡ m.version) × (n.deleted ≡ m.deleted)
      injective n p = (
        ap (λ (o : Option Meta). elim o [ none ↦ n.version | some x ↦ x.version ]) p,
        ap (λ (o : Option Meta). elim o [ none ↦ n.deleted | some x ↦ x.deleted ]) p,
      )

      same :
          (c'.metas ≡ c.metas)
            ⊎ (c'.metas
                ≡ insert Bytes_discrete k (record s.memory { synced_at = some now }) c.metas)
          → (s.memory.version ≡ m.version) × (s.memory.deleted ≡ m.deleted)
      same (inl p) = injective s.memory (sym s.found ∙ sym (ap (lookup Bytes_discrete k) p) ∙ e)
      same (inr p) =
          injective (record s.memory { synced_at = some now })
            (sym (ap (lookup Bytes_discrete k) p ∙ lookup-insert_here Bytes_discrete k _ c.metas)
              ∙ e)

  Sent-Mirrored :
      {c c' : Cache} {o : List (Text × OutboxEntry)}
      → Sent checksum_bytes now today ok k c c' o
      → ((j : Text) → k ≢ j → lookup Bytes_discrete j o ≡ queued_at j c)
      → IsUnique Bytes_discrete o
      → Mirrored c
      → Mirrored c'
  unfolding record_of
  Sent-Mirrored {c} {c'} s others u i = record {
    copies = λ j m e. elim (Bytes_discrete k j) [
      | no h ↦ Alike-copies m (Sent-Alike j s (others j h) h) i e
      | yes h ↦ inr (here j m h e)
    ];
    whole = λ j m e. elim (Bytes_discrete k j) [
      | no h ↦ Alike-whole m (Sent-Alike j s (others j h) h) i e
      | yes h ↦ whole j m h e
    ];
    unique = subst (IsUnique Bytes_discrete) (sym s.outbox) u;
    has_remote = s.has_remote ∙ i.has_remote;
  }
    where
      held :
          (m : Meta)
          → s.memory.deleted ≡ m.deleted
          → (s.memory.deleted ≡ true) ⊎ (payload_at k c ≡ some s.payload)
          → (m.deleted ≡ true) ⊎ (payload_at k c' ≡ some s.payload)
      held m e (inl d) = inl (sym e ∙ d)
      held m e (inr p) = inr (ap (lookup Bytes_discrete k) s.payloads ∙ p)

      here :
          (j : Text) (m : Meta)
          → k ≡ j
          → meta_at j c' ≡ some m
          → (r : RemoteRecord) × (last_sent j c'.sent ≡ some r) × Carries c' j m r
      here j m h e =
          let e' : meta_at k c' ≡ some m = subst (λ x. meta_at x c' ≡ some m) (sym h) e in
          subst (λ x. (r : RemoteRecord) × (last_sent x c'.sent ≡ some r) × Carries c' x m r) h
            (
              record_of checksum_bytes k s.memory s.payload,
              ap (last_sent k) s.sent ∙ last_sent-here _ c.sent,
              record {
                version = (Sent-meta m s e').0;
                deleted = (Sent-meta m s e').1;
                payload = held m (Sent-meta m s e').1 s.held;
              },
            )

      kept_whole :
          (m : Meta)
          → (m.deleted ≡ true) ⊎ (payload_at k c' ≡ some s.payload)
          → (m.deleted ≡ true) ⊎ (is_some (payload_at k c') ≡ true)
      kept_whole m (inl d) = inl d
      kept_whole m (inr p) = inr (ap is_some p)

      whole :
          (j : Text) (m : Meta)
          → k ≡ j
          → meta_at j c' ≡ some m
          → (m.deleted ≡ true) ⊎ (is_some (payload_at j c') ≡ true)
      whole j m h e =
          let e' : meta_at k c' ≡ some m = subst (λ x. meta_at x c' ≡ some m) (sym h) e in
          subst (λ x. (m.deleted ≡ true) ⊎ (is_some (payload_at x c') ≡ true)) h
            (kept_whole m (held m (Sent-meta m s e').1 s.held))

  pub Effect-Mirrored :
      (c : Cache) (o : Outcome)
      → Effect checksum_bytes now today ok k c o
      → Mirrored c
      → Mirrored (after o)
  Effect-Mirrored c _ (dropped e) i = record {
    copies = λ j m f. elim (Bytes_discrete k j) [
      | no h ↦ Alike-copies m (other j h) i f
      | yes h ↦ absurd (missing j m h f)
    ];
    whole = λ j m f. elim (Bytes_discrete k j) [
      | no h ↦ Alike-whole m (other j h) i f
      | yes h ↦ absurd (missing j m h f)
    ];
    unique = delete-IsUnique Bytes_discrete k c.outbox i.unique;
    has_remote = i.has_remote;
  }
    where
      other :
          (j : Text) → k ≢ j → Alike c (record c { outbox = delete Bytes_discrete k c.outbox }) j
      other j h = record {
        metas = refl;
        payloads = refl;
        queued = lookup-delete_other Bytes_discrete k j c.outbox h;
        sent = refl;
      }

      missing : (j : Text) (m : Meta) → k ≡ j → meta_at j c ≡ some m → ⊥
      missing j m h f =
          true≢false (sym (ap is_some f) ∙ sym (ap (λ x. is_some (meta_at x c)) h) ∙ ap is_some e)
  Effect-Mirrored c _ refused i = i
  Effect-Mirrored c _ (broken s) i = Sent-Mirrored s (λ j h. refl) i.unique i
  Effect-Mirrored c _ (sent s) i =
      Sent-Mirrored s (λ j h. lookup-delete_other Bytes_discrete k j c.outbox h)
        (delete-IsUnique Bytes_discrete k c.outbox i.unique) i

  -- The sending of a memory, whatever fails in it, keeps the cache mirrored.
  pub sync_outbox_entry-Mirrored :
      (c : Cache) (enforce : Bool) (e : OutboxEntry)
      → Mirrored c
      → Mirrored (after (sync_outbox_entry checksum_bytes now today ok k enforce e c))
  sync_outbox_entry-Mirrored c enforce e i =
      elim (sync_outbox_entry-cases checksum_bytes now today ok k c enforce e) [
        | inl f ↦ Effect-Mirrored c _ f i
        | inr f ↦ rw (f) i
      ]

  pub sync_key-Mirrored :
      (c : Cache) (enforce : Bool)
      → Mirrored c
      → Mirrored (after (sync_key checksum_bytes now today ok k enforce c))
  sync_key-Mirrored c enforce i = elim (sync_key-cases checksum_bytes now today ok k c enforce) [
    | inl f ↦ Effect-Mirrored c _ f i
    | inr f ↦ rw (f) i
  ]
