-- ===== src/BrainCache/Hydration.antt =====
-- About `hydrateFromV3Remote` of bot/brain_cache.go.
use gopherbot.Prelude.{
  ℕ, suc, ◌≡◌, refl, sym, ap, subst, ◌∙◌, Bool, true, false, not, Option, none, some, List, [], ◌∷◌,
  if◌then◌else◌, if_cases, if_true, if_false, Bool-cases, ◌⊎◌, inl, inr, ◌==◌,
}
use gopherbot.Prelude.Assoc.{lookup, insert, lookup-insert_here, lookup-insert_other}
use gopherbot.BrainCache.{
  Text, bytes_eq, Bytes_discrete, RemoteRecord, Cache, Steps, control_write, payload_write,
  meta_write, Outcome, done, failed, payload_at, meta_at, put_payload, retrieve, undeleted,
}
use gopherbot.BrainCache.Import.{Answer, error, missing, present, and_then, save_control}
use gopherbot.BrainCache.Hydrate.{
  Page, collect, put_in_order, record_less, sort_records, hydrated_meta, hydrate_meta, hydrate_one,
  hydrate_all, complete_cache, new_control, hydrate_records, hydrate,
}

-- What the remote has of a key.
abbrev pub remote_view : Answer → Option Text
remote_view error = none
remote_view missing = none
remote_view (present format r) = if r.deleted then none else some r.payload

module _ (valid_key : Text → Bool) (checksum_bytes : Text → Text) (now : ℕ)
    (get : Text → Answer) where
  -- The record of a key has that key.
  abbrev pub Keyed : Type 0
  Keyed = (k : Text) (format : ℕ) (r : RemoteRecord) → get k ≡ present format r → r.key ≡ k

  abbrev Shown : Text → Cache → Type 0
  Shown k c = retrieve valid_key k c ≡ remote_view (get k)

  -- The cache has nothing that the remote has not.
  abbrev Within : Cache → Type 0
  Within c = (k : Text) → (retrieve valid_key k c ≡ none) ⊎ Shown k c

  abbrev AllShown : List RemoteRecord → Cache → Type 0
  AllShown [] c = Unit
  AllShown (x ∷ l) c = ((valid_key x.key ≡ false) ⊎ Shown x.key c) × AllShown l c

  -- A record is taken over: its key shows what the remote has, the other keys show what they did.
  abbrev Takes : Text → Cache → Outcome → Type 0
  Takes k c (failed c') = Unit
  Takes k c (done c') =
      ((valid_key k ≡ false) ⊎ Shown k c')
      × ((j : Text) → (retrieve valid_key j c' ≡ retrieve valid_key j c) ⊎ Shown j c')

  hydrate_meta-Takes :
      (ok : Steps) (format : ℕ) (r : RemoteRecord) (c c' : Cache)
      → get r.key ≡ present format r
      → (r.deleted ≡ true) ⊎ (payload_at r.key c' ≡ some r.payload)
      → c'.metas ≡ c.metas
      → ((j : Text) → (r.key ≡ j) ⊎ (payload_at j c' ≡ payload_at j c))
      → Takes r.key c (hydrate_meta checksum_bytes now ok r c')
  unfolding retrieve
  hydrate_meta-Takes ok format r c c' e held same others =
      if_cases (Takes r.key c) (ok meta_write) _ _ (λ _. (shown, other)) (λ _. tt)
    where
      View : Text → Option Text
      View j =
          if valid_key j
          then undeleted (payload_at j c') (
              lookup Bytes_discrete j
                (insert Bytes_discrete r.key (hydrated_meta checksum_bytes now r) c'.metas))
          else none

      here :
          (r.deleted ≡ true) ⊎ (payload_at r.key c' ≡ some r.payload)
          → ◌≡◌ {A = Option Text}
              (if r.deleted then none else payload_at r.key c')
              (if r.deleted then none else some r.payload)
      here (inl t) = if_true r.deleted _ _ t ∙ sym (if_true r.deleted _ _ t)
      here (inr p) = ap (λ o. if r.deleted then none else o) p

      valid : valid_key r.key ≡ true → View r.key ≡ remote_view (get r.key)
      valid v =
          if_true (valid_key r.key) _ _ v
          ∙ ap (undeleted (payload_at r.key c')) (
              lookup-insert_here Bytes_discrete r.key (hydrated_meta checksum_bytes now r) c'.metas)
          ∙ here held
          ∙ sym (ap remote_view e)

      shown : (valid_key r.key ≡ false) ⊎ (View r.key ≡ remote_view (get r.key))
      shown = elim (Bool-cases (valid_key r.key)) [ inl v ↦ inr (valid v) | inr f ↦ inl f ]

      other :
          (j : Text)
          → (View j ≡ (if valid_key j then undeleted (payload_at j c) (meta_at j c) else none))
            ⊎ (View j ≡ remote_view (get j))
      other j = elim (others j) [
        | inl h ↦
            subst
              (λ x.
                (View x ≡ (if valid_key x then undeleted (payload_at x c) (meta_at x c) else none))
                ⊎ (View x ≡ remote_view (get x)))
              h
              (elim (Bool-cases (valid_key r.key)) [
                | inl v ↦ inr (valid v)
                | inr f ↦
                    inl (if_false (valid_key r.key) _ _ f ∙ sym (if_false (valid_key r.key) _ _ f))
              ])
        | inr p ↦ elim (Bytes_discrete r.key j) [
          | yes h ↦
              subst
                (λ x.
                  (View x
                    ≡ (if valid_key x then undeleted (payload_at x c) (meta_at x c) else none))
                  ⊎ (View x ≡ remote_view (get x)))
                h
                (elim (Bool-cases (valid_key r.key)) [
                  | inl v ↦ inr (valid v)
                  | inr f ↦
                      inl
                        (if_false (valid_key r.key) _ _ f ∙ sym (if_false (valid_key r.key) _ _ f))
                ])
          | no h ↦ inl (
              ap (λ x. if valid_key j then undeleted (payload_at j c') x else none)
                (lookup-insert_other Bytes_discrete r.key j (hydrated_meta checksum_bytes now r)
                    c'.metas h
                  ∙ ap (lookup Bytes_discrete j) same)
              ∙ ap (λ x. if valid_key j then undeleted x (meta_at j c) else none) p)
        ]
      ]

  present-Takes :
      (ok : Steps) (format : ℕ) (r : RemoteRecord) (c : Cache)
      → get r.key ≡ present format r
      → Takes r.key c (hydrate_one checksum_bytes now ok (present format r) c)
  unfolding hydrate_one
  present-Takes ok format r c e =
      if_cases (Takes r.key c) (not (format == 3)) _ _ (λ _. tt)
        (λ _.
          if_cases After r.deleted _ _
            (λ d. hydrate_meta-Takes ok format r c c e (inl d) refl (λ j. inr refl))
            (λ _.
              if_cases After (not (bytes_eq (checksum_bytes r.payload) r.checksum)) _ _ (λ _. tt)
                (λ _.
                  if_cases After (ok payload_write) _ _
                    (λ _.
                      hydrate_meta-Takes ok format r c (put_payload r.key r.payload c) e
                        (inr (lookup-insert_here Bytes_discrete r.key r.payload c.payloads)) refl
                        others)
                    (λ _. tt))))
    where
      After : Outcome → Type 0
      After o = Takes r.key c (and_then o (hydrate_meta checksum_bytes now ok r))

      others :
          (j : Text) → (r.key ≡ j) ⊎ (payload_at j (put_payload r.key r.payload c) ≡ payload_at j c)
      others j = elim (Bytes_discrete r.key j) [
        | yes h ↦ inl h
        | no h ↦ inr (lookup-insert_other Bytes_discrete r.key j r.payload c.payloads h)
      ]

  hydrate_one-Takes :
      (ok : Steps) (k : Text) (c : Cache)
      → Keyed
      → Within c
      → Takes k c (hydrate_one checksum_bytes now ok (get k) c)
  unfolding hydrate_one
  hydrate_one-Takes ok k c keyed within = by_answer (get k) refl
    where
      by_answer : (a : Answer) → get k ≡ a → Takes k c (hydrate_one checksum_bytes now ok a c)
      by_answer error e = tt
      by_answer missing e =
          (inr (elim (within k) [ inl n ↦ n ∙ sym (ap remote_view e) | inr s ↦ s ]), λ j. inl refl)
      by_answer (present format r) e =
          let h : r.key ≡ k = keyed k format r e in
          subst (λ x. Takes x c (hydrate_one checksum_bytes now ok (present format r) c)) h
            (present-Takes ok format r c (ap get h ∙ e))

  -- The keys that are taken over stay shown.
  abbrev TakesAll : List RemoteRecord → Cache → Outcome → Type 0
  TakesAll l c (failed c') = Unit
  TakesAll l c (done c') =
      AllShown l c'
      × Within c'
      × ((j : Text) → (retrieve valid_key j c' ≡ retrieve valid_key j c) ⊎ Shown j c')

  Shown-later :
      (j : Text) (c c' : Cache)
      → (retrieve valid_key j c' ≡ retrieve valid_key j c) ⊎ Shown j c'
      → (valid_key j ≡ false) ⊎ Shown j c
      → (valid_key j ≡ false) ⊎ Shown j c'
  Shown-later j c c' same (inl f) = inl f
  Shown-later j c c' (inl e) (inr s) = inr (e ∙ s)
  Shown-later j c c' (inr t) (inr s) = inr t

  Within-later :
      (c c' : Cache)
      → ((j : Text) → (retrieve valid_key j c' ≡ retrieve valid_key j c) ⊎ Shown j c')
      → Within c
      → Within c'
  Within-later c c' same within j = step (same j) (within j)
    where
      step :
          (retrieve valid_key j c' ≡ retrieve valid_key j c) ⊎ Shown j c'
          → (retrieve valid_key j c ≡ none) ⊎ Shown j c
          → (retrieve valid_key j c' ≡ none) ⊎ Shown j c'
      step (inr t) w = inr t
      step (inl e) (inl n) = inl (e ∙ n)
      step (inl e) (inr s) = inr (e ∙ s)

  hydrate_all-TakesAll :
      (ok : ℕ → Steps) (l : List RemoteRecord) (c : Cache)
      → Keyed
      → Within c
      → TakesAll l c (hydrate_all checksum_bytes now ok get l c)
  unfolding hydrate_all
  hydrate_all-TakesAll ok [] c keyed within = (tt, within, λ j. inl refl)
  hydrate_all-TakesAll ok (x ∷ l) c keyed within =
      first (hydrate_one checksum_bytes now (ok 0) (get x.key) c)
        (hydrate_one-Takes (ok 0) x.key c keyed within)
        (λ c' w. hydrate_all-TakesAll (λ i. ok (suc i)) l c' keyed w)
    where
      combine :
          (c' : Cache) (o : Outcome)
          → Takes x.key c (done c')
          → TakesAll l c' o
          → TakesAll (x ∷ l) c o
      combine c' (failed c'') t all = tt
      combine c' (done c'') t all = (
        (Shown-later x.key c' c'' (all.2 x.key) t.0, all.0),
        all.1,
        λ j. chain j (t.1 j) (all.2 j),
      )
        where
          chain :
              (j : Text)
              → (retrieve valid_key j c' ≡ retrieve valid_key j c) ⊎ Shown j c'
              → (retrieve valid_key j c'' ≡ retrieve valid_key j c') ⊎ Shown j c''
              → (retrieve valid_key j c'' ≡ retrieve valid_key j c) ⊎ Shown j c''
          chain j p (inr s) = inr s
          chain j (inl e) (inl f) = inl (f ∙ e)
          chain j (inr s) (inl f) = inr (f ∙ s)

      first :
          (o : Outcome)
          → Takes x.key c o
          → ((c' : Cache)
              → Within c'
              → TakesAll l c' (hydrate_all checksum_bytes now (λ i. ok (suc i)) get l c'))
          → TakesAll (x ∷ l) c (and_then o (hydrate_all checksum_bytes now (λ i. ok (suc i)) get l))
      first (failed c') t rest = tt
      first (done c') t rest = combine c' _ t (rest c' (Within-later c c' t.1 within))

  put_in_order-AllShown :
      (r : RemoteRecord) (l : List RemoteRecord) (c : Cache)
      → AllShown (put_in_order r l) c
      → AllShown (r ∷ l) c
  unfolding put_in_order
  put_in_order-AllShown r [] c h = h
  put_in_order-AllShown r (s ∷ l) c h = elim (Bool-cases (record_less s r)) [
    | inl e ↦
        let h' = subst (λ x. AllShown x c) (if_true (record_less s r) _ _ e) h in
        let rest = put_in_order-AllShown r l c h'.1 in (rest.0, (h'.0, rest.1))
    | inr e ↦ subst (λ x. AllShown x c) (if_false (record_less s r) _ _ e) h
  ]

  sort_records-AllShown :
      (l : List RemoteRecord) (c : Cache) → AllShown (sort_records l) c → AllShown l c
  unfolding sort_records
  sort_records-AllShown [] c h = tt
  sort_records-AllShown (r ∷ l) c h =
      let h' = put_in_order-AllShown r (sort_records l) c h in
      (h'.0, sort_records-AllShown l c h'.1)

  AllShown-same :
      (l : List RemoteRecord) (c c' : Cache)
      → ((j : Text) → retrieve valid_key j c' ≡ retrieve valid_key j c)
      → AllShown l c
      → AllShown l c'
  AllShown-same [] c c' same h = tt
  AllShown-same (x ∷ l) c c' same h =
      (Shown-later x.key c c' (inl (same x.key)) h.0, AllShown-same l c c' same h.1)

  -- What a hydration that returns no error leaves.
  abbrev pub Hydrates : List Page → Outcome → Type 0
  Hydrates pages (failed c') = Unit
  Hydrates pages (done c') =
      (l : List RemoteRecord) × (collect pages ≡ some l)
      × AllShown l c'
      × (c'.control.complete ≡ true)
      × (c'.saved ≡ c'.control)

  -- A remote whose records have the keys that they are asked for, and a cache without memories: a
  -- hydration that returns no error has listed every page, and then Retrieve gives for every listed
  -- key that is valid what the remote has of it, nothing for a deleted memory. The cache is complete,
  -- and that is saved.
  pub hydrate-Hydrates :
      (nonce : Text) (ok : ℕ → Steps) (first last : Steps) (pages : List Page) (c : Cache)
      → Keyed
      → c.metas ≡ []
      → Hydrates pages (hydrate checksum_bytes now nonce ok first last get pages c)
  unfolding hydrate retrieve lookup
  hydrate-Hydrates nonce ok first last pages c keyed empty =
      if_cases
        (λ o.
          Hydrates pages
            (and_then o (hydrate_records checksum_bytes now ok last get (collect pages))))
        (first control_write) _ _ (λ _. listed (collect pages) refl) (λ _. tt)
    where
      fresh : Cache
      fresh = record c {
        control = new_control checksum_bytes now nonce;
        saved = new_control checksum_bytes now nonce;
      }

      within : Within fresh
      within k = inl (
          if_cases (λ (o : Option Text). o ≡ none) (valid_key k) _ _
            (λ _. ap (λ m. undeleted (payload_at k fresh) (lookup Bytes_discrete k m)) empty)
            (λ _. refl))

      ends :
          (l : List RemoteRecord) (o : Outcome)
          → collect pages ≡ some l
          → TakesAll (sort_records l) fresh o
          → Hydrates pages
              (and_then o (λ x. save_control last (complete_cache checksum_bytes now x)))
      ends l (failed c') e t = tt
      ends l (done c') e t =
          if_cases (Hydrates pages) (last control_write) _ _
            (λ _.
              (l, e, AllShown-same l c' _ (λ j. refl) (sort_records-AllShown l c' t.0), refl, refl))
            (λ _. tt)

      listed :
          (o : Option (List RemoteRecord))
          → collect pages ≡ o
          → Hydrates pages (hydrate_records checksum_bytes now ok last get o fresh)
      listed none e = tt
      listed (some l) e = ends l _ e (hydrate_all-TakesAll ok (sort_records l) fresh keyed within)
