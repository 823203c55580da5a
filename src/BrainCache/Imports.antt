-- ===== src/BrainCache/Imports.antt =====
-- About the import of records and the verification of a remote record of bot/brain_cache.go.
use gopherbot.Prelude.{
  ℕ, ◌+◌, ◌≤◌, ◌<◌, ◌≡◌, refl, sym, ap, ◌∙◌, Bool, true, not, ◌&&◌, Option, none, some,
  if◌then◌else◌, if_cases, if_true, Bool-cases, ◌⊎◌, inl, inr, ◌==◌, leb, arith,
}
use gopherbot.Prelude.Assoc.{
  lookup, insert, lookup-insert_here, lookup-insert_other, lookup-delete_other,
}
use gopherbot.BrainCache.{
  Text, bytes_eq, Bytes_discrete, uint64_size, Meta, Control, RemoteRecord, Cache, Steps, Outcome,
  done, failed, payload_at, meta_at, retrieve, undeleted, control_write, payload_write,
  payload_remove, meta_write,
}
use gopherbot.BrainCache.Contents.{Puts}
use gopherbot.BrainCache.Import.{
  import_payload, import_meta, and_then, raise_version, raise_checkpoint, import_checksum,
  imported_meta, imported_control, import_v3_record,
}

raise_checkpoint-next_version :
    (k : Text) (v : ℕ) (sum : Text) (t : Control)
    → (raise_checkpoint k v sum t).next_version ≡ t.next_version
raise_checkpoint-next_version k v sum t =
    if_cases (λ (x : Control). x.next_version ≡ t.next_version) (leb t.checkpoint_vers v) _ _
      (λ _. refl) (λ _. refl)

raise_version-bound :
    (v : ℕ) (t : Control)
    → v + 1 < uint64_size
    → (v < (raise_version v t).next_version) × (t.next_version ≤ (raise_version v t).next_version)
raise_version-bound v t h =
    if_cases (λ (x : Control). (v < x.next_version) × (t.next_version ≤ x.next_version))
      (leb t.next_version v) _ _ (λ e. (ground arith, ground arith))
      (λ e. (ground arith, ground arith))

-- What the import of a record leaves where it returns no error.
abbrev pub Imports : (Text → Bool) → RemoteRecord → Cache → Outcome → Type 0
Imports valid_key r c (failed c') = Unit
Imports valid_key r c (done c') =
    Puts valid_key r.key (if r.deleted then none else some r.payload) c (done c')
    × (r.version < c'.control.next_version)
    × (c.control.next_version ≤ c'.control.next_version)
    × (c'.saved ≡ c'.control)

-- The contents' file of the record is in place, and nothing else has changed.
record Prepared (r : RemoteRecord) (c c' : Cache) : Type 0 where
  metas : c'.metas ≡ c.metas
  control : c'.control ≡ c.control
  held : (r.deleted ≡ true) ⊎ (payload_at r.key c' ≡ some r.payload)
  others : (j : Text) → (r.key ≡ j) ⊎ (payload_at j c' ≡ payload_at j c)

abbrev Prepares : RemoteRecord → Cache → Outcome → Type 0
Prepares r c (failed c') = Unit
Prepares r c (done c') = Prepared r c c'

import_payload-Prepares :
    (ok : Steps) (r : RemoteRecord) (c : Cache)
    → Prepares r c (import_payload ok r.key r.deleted r.payload c)
import_payload-Prepares ok r c =
    if_cases (Prepares r c) r.deleted _ _
      (λ d.
        if_cases (Prepared r c) (ok payload_remove) _ _
          (λ _. record {
            metas = refl;
            control = refl;
            held = inl d;
            others = λ j. elim (Bytes_discrete r.key j) [
              | yes e ↦ inl e
              | no n ↦ inr (lookup-delete_other Bytes_discrete r.key j c.payloads n)
            ];
          })
          (λ _. record { metas = refl; control = refl; held = inl d; others = λ j. inr refl }))
      (λ _.
        if_cases (Prepares r c) (ok payload_write) _ _
          (λ _. record {
            metas = refl;
            control = refl;
            held = inr (lookup-insert_here Bytes_discrete r.key r.payload c.payloads);
            others = λ j. elim (Bytes_discrete r.key j) [
              | yes e ↦ inl e
              | no n ↦ inr (lookup-insert_other Bytes_discrete r.key j r.payload c.payloads n)
            ];
          })
          (λ _. tt))

module _ (valid_key : Text → Bool) (ok : Steps) (r : RemoteRecord) where
  import_meta-Imports :
      (m : Meta) (c c' : Cache)
      → valid_key r.key ≡ true
      → r.version + 1 < uint64_size
      → m.deleted ≡ r.deleted
      → Prepared r c c'
      → Imports valid_key r c (
          import_meta ok r.key m
            (λ t. raise_checkpoint r.key r.version m.checksum (raise_version r.version t))
            c')
  unfolding retrieve
  import_meta-Imports m c c' v h d p =
      if_cases (Imports valid_key r c) (ok meta_write) _ _
        (λ _.
          if_cases (Imports valid_key r c) (ok control_write) _ _
            (λ _. (
              (
                if_true (valid_key r.key) _ _ v
                    ∙ ap (undeleted (payload_at r.key c'))
                        (lookup-insert_here Bytes_discrete r.key m c'.metas)
                    ∙ ap (λ b. if b then none else payload_at r.key c') d
                    ∙ here p.held,
                other,
              ),
              omega (arith, numbers.0, raised),
              omega (arith, numbers.1, raised, ap (λ (t : Control). t.next_version) p.control),
              refl,
            ))
            (λ _. tt))
        (λ _. tt)
    where
      raised :
          (raise_checkpoint r.key r.version m.checksum
            (raise_version r.version c'.control)).next_version
          ≡ (raise_version r.version c'.control).next_version
      raised =
          raise_checkpoint-next_version r.key r.version m.checksum
            (raise_version r.version c'.control)

      numbers :
          (r.version < (raise_version r.version c'.control).next_version)
          × (c'.control.next_version ≤ (raise_version r.version c'.control).next_version)
      numbers = raise_version-bound r.version c'.control h

      here :
          (r.deleted ≡ true) ⊎ (payload_at r.key c' ≡ some r.payload)
          → ◌≡◌ {A = Option Text}
              (if r.deleted then none else payload_at r.key c')
              (if r.deleted then none else some r.payload)
      here (inl t) = if_true r.deleted _ _ t ∙ sym (if_true r.deleted _ _ t)
      here (inr p) = ap (λ o. if r.deleted then none else o) p

      other :
          (j : Text)
          → (r.key ≡ j)
            ⊎ ((if valid_key j
                  then undeleted
                      (payload_at j c')
                      (lookup Bytes_discrete j (insert Bytes_discrete r.key m c'.metas))
                  else none)
                ≡ (if valid_key j then undeleted (payload_at j c) (meta_at j c) else none))
      other j = elim (Bytes_discrete r.key j) [
        | yes e ↦ inl e
        | no n ↦ elim (p.others j) [
          | inl e ↦ inl e
          | inr q ↦ inr (
              ap (λ x. if valid_key j then undeleted (payload_at j c') x else none)
                (lookup-insert_other Bytes_discrete r.key j m c'.metas n
                  ∙ ap (lookup Bytes_discrete j) p.metas)
              ∙ ap (λ x. if valid_key j then undeleted x (meta_at j c) else none) q)
        ]
      ]

  -- `importV3Record` of a record whose key is valid and whose version is below the end of the uint64:
  -- without an error, Retrieve gives the record's contents, or nothing for a deleted one, and for every
  -- other key what it gave; the next version is above the record's and not below what it was, and it is
  -- saved. A record of another format, and one that is not deleted and whose checksum is not that of its
  -- contents, is refused with the cache as it was.
  pub import_v3_record-Imports :
      (checksum_bytes : Text → Text) (now format : ℕ) (c : Cache)
      → valid_key r.key ≡ true
      → r.version + 1 < uint64_size
      → Imports valid_key r c (import_v3_record checksum_bytes now ok format r c)
        × (((format == 3) ≡ true) ⊎ (import_v3_record checksum_bytes now ok format r c ≡ failed c))
        × ((r.deleted ≡ true)
            ⊎ (bytes_eq (checksum_bytes r.payload) (import_checksum checksum_bytes now ok r) ≡ true)
            ⊎ (import_v3_record checksum_bytes now ok format r c ≡ failed c))
  unfolding import_v3_record
  import_v3_record-Imports checksum_bytes now format c v h = (imports, formats, sums)
    where
      valid : Bool
      valid = bytes_eq (checksum_bytes r.payload) (import_checksum checksum_bytes now ok r)

      formats :
          ((format == 3) ≡ true) ⊎ (import_v3_record checksum_bytes now ok format r c ≡ failed c)
      formats = elim (Bool-cases (format == 3)) [
        | inl e ↦ inl e
        | inr e ↦ inr (if_true (not (format == 3)) _ _ (ap not e))
      ]

      sums :
          (r.deleted ≡ true)
          ⊎ (valid ≡ true)
          ⊎ (import_v3_record checksum_bytes now ok format r c ≡ failed c)
      sums = elim (Bool-cases r.deleted) [
        | inl d ↦ inl d
        | inr d ↦ elim (Bool-cases valid) [
          | inl e ↦ inr (inl e)
          | inr e ↦ inr (
              inr (
                if_cases (λ o. o ≡ failed c) (not (format == 3)) _ _ (λ _. refl)
                  (λ _.
                    if_true (not r.deleted && not valid) _ _
                      (ap (λ b. not b && not valid) d ∙ ap not e))))
        ]
      ]

      step :
          (o : Outcome)
          → Prepares r c o
          → Imports valid_key r c (
              and_then o (
                import_meta ok r.key
                  (imported_meta checksum_bytes now ok r)
                  (imported_control checksum_bytes now ok r)))
      step (failed c') p = tt
      step (done c') p = import_meta-Imports (imported_meta checksum_bytes now ok r) c c' v h refl p

      imports : Imports valid_key r c (import_v3_record checksum_bytes now ok format r c)
      imports =
          if_cases (Imports valid_key r c) (not (format == 3)) _ _ (λ _. tt)
            (λ _.
              if_cases (Imports valid_key r c) (not r.deleted && not valid) _ _ (λ _. tt)
                (λ _. step _ (import_payload-Prepares ok r c)))
