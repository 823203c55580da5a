-- ===== src/BrainCache/Versions.antt =====
-- About the versions of bot/brain_cache.go, which are a uint64.
use gopherbot.Prelude.{
  ℕ, suc, ◌+◌, ◌-◌, ◌≤◌, ◌<◌, ◌≡◌, refl, sym, ap, subst, ◌∙◌, false, Option, none, some, List,
  if◌then◌else◌, if_cases, ◌⊎◌, inl, inr, ite, arith, ◌%◌, ◌==◌,
}
use gopherbot.Prelude.Assoc.{lookup, insert, lookup-insert, lookup-insert_here}
use gopherbot.BrainCache.{
  Text, bytes_eq, Bytes_discrete, brain_lock_key, uint64_size, Meta, OutboxEntry, Control, Cache,
  Steps, Outcome, done, failed, after, meta_at, put_meta, put_outbox, put_payload, remove_payload,
  reserved_version, reserve_version, latest_database_version, control_write, payload_write,
  payload_remove, meta_write, outbox_write,
}
use gopherbot.BrainCache.Sync.{sync_key}
use gopherbot.BrainCache.Write.{store, delete_memory, write_meta, deleted_meta}
use gopherbot.BrainCache.Effects.{Sent, Effect, dropped, refused, broken, sent, sync_key-cases}

next_number :
    (n : ℕ)
    → n + 1 < uint64_size
    → ((if n == 0 then 1 else n) ≡ suc (if n == 0 then 0 else n - 1))
      × ((if ((if n == 0 then 1 else n) + 1) % uint64_size == 0
            then 0
            else ((if n == 0 then 1 else n) + 1) % uint64_size - 1)
          ≡ suc (if n == 0 then 0 else n - 1))
next_number n h = (ground arith, ground arith)

reserve-latest :
    (ok : Steps) (c : Cache)
    → c.control.next_version + 1 < uint64_size
    → latest_database_version (reserve_version ok c) ≡ suc (latest_database_version c)
unfolding reserved_version latest_database_version reserve_version
reserve-latest ok c h =
    if_cases (λ (x : Cache). latest_database_version x ≡ suc (latest_database_version c))
      (ok control_write) _ _ (λ _. (next_number c.control.next_version h).1)
      (λ _. (next_number c.control.next_version h).1)

reserved-latest :
    (c : Cache)
    → c.control.next_version + 1 < uint64_size
    → reserved_version c ≡ suc (latest_database_version c)
unfolding reserved_version latest_database_version
reserved-latest c h = (next_number c.control.next_version h).0

abbrev pub VersionUpTo : ℕ → Option Meta → Type 0
VersionUpTo n none = Unit
VersionUpTo n (some m) = m.version ≤ n

-- No memory has a later version than the database.
abbrev pub Numbered : Cache → Type 0
Numbered c = (k : Text) → VersionUpTo (latest_database_version c) (meta_at k c)

VersionUpTo-suc : (n : ℕ) (o : Option Meta) → VersionUpTo n o → VersionUpTo (suc n) o
VersionUpTo-suc n none h = tt
VersionUpTo-suc n (some m) h = omega arith

-- The memory of the key has the database's version, `n`, and no memory has a later one.
record Latest (k : Text) (n : ℕ) (c : Cache) : Type 0 where
  database : latest_database_version c ≡ n
  all : (j : Text) → VersionUpTo n (meta_at j c)
  version_here : (m : Meta) × (meta_at k c ≡ some m) × (m.version ≡ n)

module _ (checksum_bytes : Text → Text) (now today : ℕ) (ok : Steps) (k : Text) where
  Sent-version :
      {c c' : Cache} {o : List (Text × OutboxEntry)} (n : ℕ) (j : Text)
      → Sent checksum_bytes now today ok k c c' o
      → VersionUpTo n (meta_at j c)
      → VersionUpTo n (meta_at k c)
      → VersionUpTo n (meta_at j c')
  Sent-version {c} {c'} n j s h g = same s.metas
    where
      same :
          (c'.metas ≡ c.metas)
            ⊎ (c'.metas
                ≡ insert Bytes_discrete k (record s.memory { synced_at = some now }) c.metas)
          → VersionUpTo n (meta_at j c')
      same (inl e) = subst (λ m. VersionUpTo n (lookup Bytes_discrete j m)) (sym e) h
      same (inr e) =
          subst (λ m. VersionUpTo n (lookup Bytes_discrete j m)) (sym e)
            (subst (VersionUpTo n)
              (sym (
                lookup-insert Bytes_discrete k j (record s.memory { synced_at = some now })
                  c.metas))
              (elim (Bytes_discrete k j)
                as (λ d.
                  VersionUpTo n
                    (ite d (some (record s.memory { synced_at = some now })) (meta_at j c))) [
                      | yes _ ↦ subst (VersionUpTo n) s.found g
                      | no _ ↦ h
                    ]))

  Sent-Latest :
      {c c' : Cache} {o : List (Text × OutboxEntry)} (n : ℕ)
      → Sent checksum_bytes now today ok k c c' o
      → Latest k n c
      → Latest k n c'
  unfolding latest_database_version
  Sent-Latest {c} {c'} n s l = record {
    database = ap (λ v. if v == 0 then 0 else v - 1) s.next_version ∙ l.database;
    all = λ j. Sent-version n j s (l.all j) (l.all k);
    version_here = here s.metas;
  }
    where
      same : s.memory.version ≡ n
      same =
          ap (λ (o : Option Meta). elim o [ none ↦ s.memory.version | some x ↦ x.version ])
            (sym s.found ∙ l.version_here.1)
          ∙ l.version_here.2

      here :
          (c'.metas ≡ c.metas)
            ⊎ (c'.metas
                ≡ insert Bytes_discrete k (record s.memory { synced_at = some now }) c.metas)
          → (m : Meta) × (meta_at k c' ≡ some m) × (m.version ≡ n)
      here (inl e) = (s.memory, ap (lookup Bytes_discrete k) e ∙ s.found, same)
      here (inr e) = (
        record s.memory { synced_at = some now },
        ap (lookup Bytes_discrete k) e ∙ lookup-insert_here Bytes_discrete k _ c.metas,
        same,
      )

  sync_key-Latest :
      (n : ℕ) (c : Cache)
      → Latest k n c
      → Latest k n (after (sync_key checksum_bytes now today ok k false c))
  unfolding latest_database_version
  sync_key-Latest n c l = elim (sync_key-cases checksum_bytes now today ok k c false) [
    | inl f ↦ by_effect _ f
    | inr f ↦ rw (f) l
  ]
    where
      by_effect : (o : Outcome) → Effect checksum_bytes now today ok k c o → Latest k n (after o)
      by_effect _ (dropped e) = record {
        database = l.database;
        all = l.all;
        version_here = l.version_here;
      }
      by_effect _ refused = l
      by_effect _ (broken s) = Sent-Latest n s l
      by_effect _ (sent s) = Sent-Latest n s l

-- A call without an error gives the key's memory the next version.
abbrev pub Numbers : Text → Cache → Outcome → Type 0
Numbers k c (failed c') = Unit
Numbers k c (done c') =
    (latest_database_version c' ≡ suc (latest_database_version c))
    × Numbered c'
    × (m : Meta) × (meta_at k c' ≡ some m)
    × (m.version ≡ latest_database_version c')

module _ (checksum_bytes : Text → Text) (now today : ℕ) (ok ok' : Steps) (k : Text) where
  Numbers-of_Latest :
      (c : Cache) (o : Outcome)
      → Latest k (suc (latest_database_version c)) (after o)
      → Numbers k c o
  Numbers-of_Latest c (failed c') l = tt
  Numbers-of_Latest c (done c') l = (
    l.database,
    λ j. subst (λ n. VersionUpTo n (meta_at j c')) (sym l.database) (l.all j),
    l.version_here.0,
    l.version_here.1,
    l.version_here.2 ∙ sym l.database,
  )

  write_meta-Numbers :
      (m : Meta) (c c' : Cache)
      → Numbered c
      → latest_database_version c' ≡ suc (latest_database_version c)
      → c'.metas ≡ c.metas
      → m.version ≡ suc (latest_database_version c)
      → Numbers k c (write_meta checksum_bytes now today ok ok' k m c')
  unfolding latest_database_version
  write_meta-Numbers m c c' old d same v =
      if_cases (Numbers k c) (ok meta_write) _ _
        (λ _.
          if_cases (Numbers k c) c'.has_remote _ _
            (λ _.
              if_cases (Numbers k c) (ok outbox_write) _ _
                (λ _.
                  if_cases (Numbers k c) (bytes_eq k brain_lock_key) _ _
                    (λ _. Numbers-of_Latest c _ (
                      sync_key-Latest checksum_bytes now today ok' k n queued
                        (latest queued refl refl)))
                    (λ _. Numbers-of_Latest c (done queued) (latest queued refl refl)))
                (λ _. tt))
            (λ _.
              Numbers-of_Latest c (done (put_meta k m c')) (latest (put_meta k m c') refl refl)))
        (λ _. tt)
    where
      n : ℕ
      n = suc (latest_database_version c)

      queued : Cache
      queued =
          put_outbox k (record { version = m.version; is_delete = m.deleted }) (put_meta k m c')

      all :
          (j : Text) → VersionUpTo n (lookup Bytes_discrete j (insert Bytes_discrete k m c'.metas))
      all j =
          subst (VersionUpTo n) (sym (lookup-insert Bytes_discrete k j m c'.metas))
            (elim (Bytes_discrete k j) as (λ d. VersionUpTo n (ite d (some m) (meta_at j c'))) [
              | yes _ ↦ omega arith
              | no _ ↦
                  subst (λ t. VersionUpTo n (lookup Bytes_discrete j t)) (sym same)
                    (VersionUpTo-suc _ (meta_at j c) (old j))
            ])

      latest :
          (x : Cache)
          → x.control ≡ c'.control
          → x.metas ≡ insert Bytes_discrete k m c'.metas
          → Latest k n x
      latest x e p = record {
        database = ap latest_of e ∙ d;
        all = λ j. subst (λ t. VersionUpTo n (lookup Bytes_discrete j t)) (sym p) (all j);
        version_here =
            (m, ap (lookup Bytes_discrete k) p ∙ lookup-insert_here Bytes_discrete k m c'.metas, v);
      }
        where
          latest_of : Control → ℕ
          latest_of t = if t.next_version == 0 then 0 else t.next_version - 1

  reserve-metas : (c : Cache) → (reserve_version ok c).metas ≡ c.metas
  unfolding reserve_version
  reserve-metas c =
      if_cases (λ (x : Cache). x.metas ≡ c.metas) (ok control_write) _ _ (λ _. refl) (λ _. refl)

  -- Below the end of the uint64, a Store without an error raises the database's version by one and gives
  -- it to the memory, and still no memory has a later version.
  pub store-Numbers :
      (blob : Text) (c : Cache)
      → Numbered c
      → c.control.next_version + 1 < uint64_size
      → Numbers k c (store checksum_bytes now today ok ok' k blob c)
  unfolding store latest_database_version
  store-Numbers blob c old h =
      if_cases (Numbers k c) c.stopped _ _ (λ _. tt)
        (λ _.
          if_cases (Numbers k c) (ok payload_write) _ _
            (λ _.
              write_meta-Numbers _ c (put_payload k blob (reserve_version ok c)) old
                (reserve-latest ok c h) (reserve-metas c) (reserved-latest c h))
            (λ _. tt))

  -- The same of Delete.
  pub delete_memory-Numbers :
      (c : Cache)
      → Numbered c
      → c.control.next_version + 1 < uint64_size
      → Numbers k c (delete_memory checksum_bytes now today ok ok' k c)
  unfolding delete_memory latest_database_version
  delete_memory-Numbers c old h =
      if_cases
        (λ x. Numbers k c (
          write_meta checksum_bytes now today ok ok' k
            (deleted_meta checksum_bytes now today ok ok' k (reserved_version c)) x))
        (ok payload_remove) _ _
        (λ _.
          write_meta-Numbers _ c (remove_payload k (reserve_version ok c)) old
            (reserve-latest ok c h) (reserve-metas c) (reserved-latest c h))
        (λ _.
          write_meta-Numbers _ c (reserve_version ok c) old (reserve-latest ok c h)
            (reserve-metas c) (reserved-latest c h))
