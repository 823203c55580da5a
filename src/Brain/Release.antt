-- ===== src/Brain/Release.antt =====
-- About check-ins and updates as moves of a lease.
use gopherbot.Prelude.{
  ◌≡◌, refl, sym, ap, ◌∙◌, String, true, Option, none, some, List, [], ◌∷◌, ◌++◌, if◌then◌else◌,
  String_discrete, ite, append-nil, map, inl, inr, Option-cases, if_cases, subst,
}
use mathlib.Core.Logic.{if_pos, if_neg}
use gopherbot.Prelude.Assoc.{lookup, delete, lookup-delete}
use gopherbot.Prelude.Bytes.{bytes_eq}
use gopherbot.RetVal.{RetVal, datum_not_found, datum_lock_expired}
use gopherbot.Brain.Datum.{Env, Vault, CheckOutReply, get_datum, store_datum}
use gopherbot.Brain.Loop.{
  CheckOutRequest, MemStatus, CheckInRequest, UpdateRequest, updated, Loop, grant, reply_to_waiter,
  release, do_check_in, answer_update, do_update,
}
use gopherbot.Brain.View.{
  writes-rw, grants, grants-one, View, view, leased, Move, keep, hand_over, free,
}
use gopherbot.Brain.Answers.{Waits, Sound, view-grant, view-grant_ne}

module _ (env : Env) (s : Loop env) (key : String) (m : MemStatus) where
  pub release-nil :
      m.waiters ≡ []
      → release env s key m ≡ record s { memories = delete String_discrete key s.memories }
  unfolding release
  release-nil e = rw (e, release)

  reply_to_waiter-cons :
      (creq : CheckOutRequest) (rest : List CheckOutRequest)
      → m.waiters ≡ creq ∷ rest
      → reply_to_waiter env s m ≡ grant env s creq rest (get_datum env s.vault creq.key true)
  unfolding reply_to_waiter
  reply_to_waiter-cons creq rest e = rw (e, reply_to_waiter)

  pub release-cons :
      (creq : CheckOutRequest) (rest : List CheckOutRequest)
      → m.waiters ≡ creq ∷ rest
      → release env s key m ≡ grant env s creq rest (get_datum env s.vault creq.key true)
  unfolding release
  release-cons creq rest e = rw (e, release) (reply_to_waiter-cons creq rest e)

module _ (env : Env) (s : Loop env) (k : String) where
  view-delete :
      (key : String)
      → view {env = env} k (record s { memories = delete String_discrete key s.memories })
        ≡ record {
          status = ite (String_discrete key k) none (lookup String_discrete k s.memories);
          granted = grants k s.log;
        }
  view-delete key = λ i. record {
    status = lookup-delete String_discrete key k s.memories i;
    granted = grants k s.log;
  }

  abbrev at_status : Option MemStatus → View
  at_status o = record { status = o; granted = grants k s.log }

  free-Move :
      (key : String) (m : MemStatus)
      → lookup String_discrete key s.memories ≡ some m
      → m.waiters ≡ []
      → Move k []
          (view k s)
          (view {env = env} k (record s { memories = delete String_discrete key s.memories }))
  free-Move key m held alone = elim (String_discrete key k) [
    | yes e ↦ free m refl (subst (λ x. lookup String_discrete x s.memories ≡ some m) e held) alone (
        view-delete key
        ∙ ap at_status
            (if_pos (String_discrete key k) e none (lookup String_discrete k s.memories)))
    | no h ↦ keep refl (
        view-delete key
        ∙ ap at_status
            (if_neg (String_discrete key k) h none (lookup String_discrete k s.memories)))
  ]

  hand_over-Move :
      (key : String) (m : MemStatus) (creq : CheckOutRequest) (rest : List CheckOutRequest)
      → lookup String_discrete key s.memories ≡ some m
      → m.waiters ≡ creq ∷ rest
      → creq.key ≡ key
      → creq.rw ≡ true
      → (r : CheckOutReply × Vault env) → Move k [] (view k s) (view k (grant env s creq rest r))
  hand_over-Move key m creq rest held waits e w (rep, v) = elim (String_discrete key k) [
    | no h ↦ keep refl (view-grant_ne env s k creq rest (rep, v) (λ c. h (sym e ∙ c)))
    | yes here ↦
        let at : creq.key ≡ k = e ∙ here in
        hand_over m creq rest rep.token refl
          (subst (λ x. lookup String_discrete x s.memories ≡ some m) here held) waits
          (view-grant env s k creq rest rep v ∙ (λ i. record {
            status =
                if_pos (String_discrete creq.key k) at (leased rep.token rest)
                  (lookup String_discrete k s.memories) i;
            granted = grants k s.log ++ map (λ c. (c, rep.token)) (writes-rw k creq at w i);
          }))
  ]

  -- The lease that a request gives up.
  pub release-Move :
      (key : String) (m : MemStatus) (ws : List CheckOutRequest)
      → lookup String_discrete key s.memories ≡ some m
      → m.waiters ≡ ws
      → Waits key ws
      → Move k [] (view k s) (view k (release env s key m))
  release-Move key m [] held e w = rw (release-nil env s key m e) (free-Move key m held e)
  release-Move key m (creq ∷ rest) held e w =
      rw (release-cons env s key m creq rest e)
        (hand_over-Move key m creq rest held e w.0 w.1 (get_datum env s.vault creq.key true))

module _ (env : Env) (s : Loop env) where
  pub do_check_in-none :
      (ci : CheckInRequest)
      → lookup String_discrete ci.key s.memories ≡ none
      → do_check_in env s ci ≡ s
  unfolding do_check_in
  do_check_in-none ci e = rw (e, do_check_in)

  pub do_check_in-some :
      (ci : CheckInRequest) (m : MemStatus)
      → lookup String_discrete ci.key s.memories ≡ some m
      → do_check_in env s ci ≡ (if bytes_eq ci.token m.token then release env s ci.key m else s)
  unfolding do_check_in
  do_check_in-some ci m e = rw (e, do_check_in)

  pub check_in-Move :
      (k : String) (ci : CheckInRequest)
      → ((key : String) → Sound key (view key s))
      → Move k [] (view k s) (view k (do_check_in env s ci))
  check_in-Move k ci sound = elim (Option-cases (lookup String_discrete ci.key s.memories)) [
    | inl e ↦ rw (do_check_in-none ci e) (keep refl refl)
    | inr (m, e) ↦ rw (do_check_in-some ci m e) (
        if_cases (λ (t : Loop env). Move k [] (view k s) (view k t)) (bytes_eq ci.token m.token) _ _
          (λ _. release-Move env s k ci.key m m.waiters e refl (sound ci.key m e).waits)
          (λ _. keep refl refl))
  ]

  view-answer_update :
      (k : String) (ur : UpdateRequest) (r : RetVal × Vault env)
      → view k (answer_update env s ur r) ≡ view k s
  unfolding answer_update
  view-answer_update k ur (r, v) = λ i. record {
    status = lookup String_discrete k s.memories;
    granted = (grants-one k s.log (updated ur r) ∙ append-nil (grants k s.log)) i;
  }

  pub do_update-none :
      (ur : UpdateRequest)
      → lookup String_discrete ur.key s.memories ≡ none
      → do_update env s ur ≡ answer_update env s ur (datum_not_found, s.vault)
  unfolding do_update
  do_update-none ur e = rw (e, do_update)

  pub do_update-some :
      (ur : UpdateRequest) (m : MemStatus)
      → lookup String_discrete ur.key s.memories ≡ some m
      → do_update env s ur ≡ (
          if bytes_eq ur.token m.token
          then release env
              (answer_update env s ur (store_datum env s.vault ur.key ur.datum))
              ur.key
              m
          else answer_update env s ur (datum_lock_expired, s.vault))
  unfolding do_update
  do_update-some ur m e = rw (e, do_update)

  answered-release-Move :
      (k key : String) (m : MemStatus) (ur : UpdateRequest) (r : RetVal × Vault env)
      → lookup String_discrete key s.memories ≡ some m
      → Waits key m.waiters
      → Move k [] (view k s) (view k (release env (answer_update env s ur r) key m))
  unfolding answer_update
  answered-release-Move k key m ur (r, v) e w =
      subst (λ w. Move k [] w (view k (release env (answer_update env s ur (r, v)) key m)))
        (view-answer_update k ur (r, v))
        (release-Move env (answer_update env s ur (r, v)) k key m m.waiters e refl w)

  pub update-Move :
      (k : String) (ur : UpdateRequest)
      → ((key : String) → Sound key (view key s))
      → Move k [] (view k s) (view k (do_update env s ur))
  update-Move k ur sound = elim (Option-cases (lookup String_discrete ur.key s.memories)) [
    | inl e ↦ rw (do_update-none ur e) (keep refl (view-answer_update k ur _))
    | inr (m, e) ↦ rw (do_update-some ur m e) (
        if_cases (λ (t : Loop env). Move k [] (view k s) (view k t)) (bytes_eq ur.token m.token) _ _
          (λ _.
            answered-release-Move k ur.key m ur (store_datum env s.vault ur.key ur.datum) e
              (sound ur.key m e).waits)
          (λ _. keep refl (view-answer_update k ur _)))
  ]
