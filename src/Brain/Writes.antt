-- ===== src/Brain/Writes.antt =====
-- About updates under a token that is not the last one granted.
use gopherbot.Prelude.{
  ◌≡◌, refl, sym, ap, ◌∙◌, true, false, some, List, [], ◌∷◌, ◌++◌, ◌≢◌, String_discrete, inl, inr,
  Option-cases, ◌⊎◌, if◌then◌else◌, Bool-cases,
}
use gopherbot.Prelude.Assoc.{lookup}
use gopherbot.Prelude.Bytes.{bytes_eq, bytes_eq_iff}
use gopherbot.RetVal.{RetVal, datum_not_found, datum_lock_expired}
use gopherbot.Brain.Datum.{Env}
use gopherbot.Brain.Loop.{MemStatus, UpdateRequest, updated, Loop, do_update, answer_update}
use gopherbot.Brain.View.{Grant, grants}
use gopherbot.Brain.Release.{do_update-none, do_update-some}
use gopherbot.Brain.Leases.{Inv}

last-injective {ℓ} : {A : Type ℓ} (xs ys : List A) (x y : A) → xs ++ x ∷ [] ≡ ys ++ y ∷ [] → x ≡ y
last-injective [] [] x y e = cc
last-injective [] (b ∷ []) x y e = absurd (cc)
last-injective [] (b ∷ c ∷ ys) x y e = absurd (cc)
last-injective (a ∷ []) [] x y e = absurd (cc)
last-injective (a ∷ c ∷ xs) [] x y e = absurd (cc)
last-injective (a ∷ xs) (b ∷ ys) x y e = last-injective xs ys x y (cc)

module _ (env : Env) (s : Loop env) (ur : UpdateRequest) where
  -- The refusals of an update.
  abbrev pub Refused : RetVal → Type 0
  Refused r = do_update env s ur ≡ record s { log = s.log ++ updated ur r ∷ [] }

  answer_update-log :
      (r : RetVal)
      → answer_update env s ur (r, s.vault) ≡ record s { log = s.log ++ updated ur r ∷ [] }
  unfolding answer_update
  answer_update-log r = refl

  -- Where the loop's invariant holds, an update under a token other than that of the last lease
  -- granted on its key changes no memory and no lease: it is answered "not found" or "lock
  -- expired", and nothing else happens.
  pub stale_update-Refused :
      (before : List Grant) (g : Grant)
      → Inv env s
      → grants ur.key s.log ≡ before ++ g ∷ []
      → ur.token ≢ g.1
      → Refused datum_not_found ⊎ Refused datum_lock_expired
  stale_update-Refused before g v last stale =
      elim (Option-cases (lookup String_discrete ur.key s.memories)) [
        | inl e ↦ inl (do_update-none env s ur e ∙ answer_update-log datum_not_found)
        | inr (m, e) ↦ inr (
            do_update-some env s ur m e
            ∙ other _ m e (Bool-cases (bytes_eq ur.token m.token))
            ∙ answer_update-log datum_lock_expired)
      ]
    where
      token_of : (m : MemStatus) → lookup String_discrete ur.key s.memories ≡ some m → m.token ≡ g.1
      token_of m e =
          let (before', c, h) = v.holds ur.key m e in
          ap (λ (x : Grant). x.1) (last-injective before' before (c, m.token) g (sym h ∙ last))

      other :
          (x : Loop env) (m : MemStatus)
          → lookup String_discrete ur.key s.memories ≡ some m
          → (bytes_eq ur.token m.token ≡ true) ⊎ (bytes_eq ur.token m.token ≡ false)
          → (if bytes_eq ur.token m.token
              then x
              else answer_update env s ur (datum_lock_expired, s.vault))
            ≡ answer_update env s ur (datum_lock_expired, s.vault)
      other x m e (inl t) = absurd (stale ((bytes_eq_iff ur.token m.token).0 t ∙ token_of m e))
      other x m e (inr f) = rw (f) refl
