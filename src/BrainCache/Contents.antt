-- ===== src/BrainCache/Contents.antt =====
-- About Retrieve of bot/brain_cache.go behind Store and Delete.
use gopherbot.Prelude.{
  ℕ, ◌≡◌, refl, ap, ◌∙◌, Bool, true, Option, none, some, if◌then◌else◌, if_cases, if_true, ◌⊎◌, inl,
  inr,
}
use gopherbot.Prelude.Assoc.{lookup, lookup-insert_here, lookup-insert_other, lookup-delete_other}
use gopherbot.BrainCache.{
  Text, bytes_eq, Bytes_discrete, brain_lock_key, Meta, Cache, Steps, Outcome, done, failed, after,
  payload_at, meta_at, put_payload, put_meta, reserve_version, control_write, payload_write,
  payload_remove, meta_write, outbox_write, retrieve, undeleted,
}
use gopherbot.BrainCache.Write.{store, delete_memory, write_meta, without_payload}
use gopherbot.BrainCache.Memories.{SameMemories, sync_key-SameMemories}

-- The memory of one key is `o` behind a call that returns no error; those of the others are as before
-- behind any call.
abbrev pub Puts : (Text → Bool) → Text → Option Text → Cache → Outcome → Type 0
Puts valid_key k o c (done c') =
    (retrieve valid_key k c' ≡ o)
    × ((j : Text) → (k ≡ j) ⊎ (retrieve valid_key j c' ≡ retrieve valid_key j c))
Puts valid_key k o c (failed c') =
    (j : Text) → (k ≡ j) ⊎ (retrieve valid_key j c' ≡ retrieve valid_key j c)

module _ (valid_key : Text → Bool) (checksum_bytes : Text → Text) (now today : ℕ) (ok ok' : Steps)
    (k : Text) where
  Puts-later :
      (o : Option Text) (c c' : Cache) (r : Outcome)
      → Puts valid_key k o c (done c')
      → SameMemories valid_key c' (after r)
      → Puts valid_key k o c r
  Puts-later o c c' (done c'') p s =
      (s k ∙ p.0, λ j. elim (p.1 j) [ inl e ↦ inl e | inr e ↦ inr (s j ∙ e) ])
  Puts-later o c c' (failed c'') p s = λ j. elim (p.1 j) [ inl e ↦ inl e | inr e ↦ inr (s j ∙ e) ]

  same_other :
      (c c' : Cache) (j : Text)
      → lookup Bytes_discrete j c'.metas ≡ lookup Bytes_discrete j c.metas
      → lookup Bytes_discrete j c'.payloads ≡ lookup Bytes_discrete j c.payloads
      → retrieve valid_key j c' ≡ retrieve valid_key j c
  unfolding retrieve
  same_other c c' j m p =
      ap (λ x. if valid_key j then undeleted x (meta_at j c') else none) p
      ∙ ap (λ x. if valid_key j then undeleted (payload_at j c) x else none) m

  -- The other keys of `c'` are those of `c`.
  Others : Cache → Cache → Type 0
  Others c c' =
      (j : Text) → (k ≡ j) ⊎ ((meta_at j c' ≡ meta_at j c) × (payload_at j c' ≡ payload_at j c))

  Others-retrieve :
      (c c' : Cache)
      → Others c c'
      → (j : Text) → (k ≡ j) ⊎ (retrieve valid_key j c' ≡ retrieve valid_key j c)
  unfolding Others
  Others-retrieve c c' h j = elim (h j) [ inl e ↦ inl e | inr (m, p) ↦ inr (same_other c c' j m p) ]

  write_meta-Puts :
      (m : Meta) (o : Option Text) (c c' : Cache)
      → Others c c'
      → (if valid_key k then undeleted (payload_at k c') (some m) else none) ≡ o
      → Puts valid_key k o c (write_meta checksum_bytes now today ok ok' k m c')
  unfolding retrieve Others
  write_meta-Puts m o c c' h e =
      if_cases (Puts valid_key k o c) (ok meta_write) _ _
        (λ _.
          if_cases (Puts valid_key k o c) c'.has_remote _ _
            (λ _.
              if_cases (Puts valid_key k o c) (ok outbox_write) _ _
                (λ _.
                  if_cases (Puts valid_key k o c) (bytes_eq k brain_lock_key) _ _
                    (λ _.
                      Puts-later o c written _ put
                        (sync_key-SameMemories checksum_bytes valid_key now today ok' k _))
                    (λ _. put))
                (λ _. put.1))
            (λ _. put))
        (λ _. Others-retrieve c c' h)
    where
      written : Cache
      written = put_meta k m c'

      others : Others c written
      others j = elim (Bytes_discrete k j) [
        | yes d ↦ inl d
        | no d ↦ elim (h j) [
          | inl d' ↦ inl d'
          | inr (a, b) ↦ inr (lookup-insert_other Bytes_discrete k j m c'.metas d ∙ a, b)
        ]
      ]

      put : Puts valid_key k o c (done written)
      put = (
        ap (λ x. if valid_key k then undeleted (payload_at k c') x else none)
              (lookup-insert_here Bytes_discrete k m c'.metas)
            ∙ e,
        Others-retrieve c written others,
      )

  reserve-Others : (c : Cache) → Others c (reserve_version ok c)
  unfolding reserve_version Others
  reserve-Others c =
      if_cases (Others c) (ok control_write) _ _ (λ _ j. inr (refl, refl)) (λ _ j. inr (refl, refl))

  -- Store without an error: Retrieve gives the contents for the key, where it is valid, and for every
  -- other key what it gave. A Store that returns an error changes no other key's memory.
  pub store-Puts :
      (blob : Text) (c : Cache)
      → valid_key k ≡ true
      → Puts valid_key k (some blob) c (store checksum_bytes now today ok ok' k blob c)
  unfolding store Others
  store-Puts blob c v =
      if_cases (Puts valid_key k (some blob) c) c.stopped _ _ (λ _ j. inr refl)
        (λ _.
          if_cases (Puts valid_key k (some blob) c) (ok payload_write) _ _
            (λ _. write_meta-Puts _ (some blob) c (put_payload k blob reserved) others (
              if_true (valid_key k) _ _ v
              ∙ lookup-insert_here Bytes_discrete k blob reserved.payloads))
            (λ _. Others-retrieve c reserved (reserve-Others c)))
    where
      reserved : Cache
      reserved = reserve_version ok c

      others : Others c (put_payload k blob reserved)
      others j = elim (Bytes_discrete k j) [
        | yes d ↦ inl d
        | no d ↦ elim (reserve-Others c j) [
          | inl d' ↦ inl d'
          | inr (a, b) ↦
              inr (a, lookup-insert_other Bytes_discrete k j blob reserved.payloads d ∙ b)
        ]
      ]

  -- Delete without an error: Retrieve gives nothing for the key, and for every other key what it gave.
  -- A Delete that returns an error changes no other key's memory.
  pub delete_memory-Puts :
      (c : Cache) → Puts valid_key k none c (delete_memory checksum_bytes now today ok ok' k c)
  unfolding delete_memory Others
  delete_memory-Puts c =
      write_meta-Puts _ none c (without_payload checksum_bytes now today ok ok' k reserved) others
        (if_cases (λ (o : Option Text). o ≡ none) (valid_key k) _ _ (λ _. refl) (λ _. refl))
    where
      reserved : Cache
      reserved = reserve_version ok c

      others : Others c (without_payload checksum_bytes now today ok ok' k reserved)
      others j = elim (Bytes_discrete k j) [
        | yes d ↦ inl d
        | no d ↦ elim (reserve-Others c j) [
          | inl d' ↦ inl d'
          | inr (a, b) ↦ inr (
              if_cases
                (λ (x : Cache). (meta_at j x ≡ meta_at j c) × (payload_at j x ≡ payload_at j c))
                (ok payload_remove) _ _
                (λ _. (a, lookup-delete_other Bytes_discrete k j reserved.payloads d ∙ b))
                (λ _. (a, b)))
        ]
      ]
