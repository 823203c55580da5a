-- ===== src/Brain/Leases.antt =====
-- About the loop's invariant and the order of its answers on a key.
use gopherbot.Prelude.{
  ◌≡◌, refl, sym, ap, ◌∙◌, String, List, [], ◌∷◌, ◌++◌, String_discrete, append_assoc, append-nil,
  map, inl, inr, Option-cases, if_cases,
}
use gopherbot.Prelude.Assoc.{lookup, IsUnique, insert-IsUnique, delete-IsUnique}
use gopherbot.Prelude.Bytes.{bytes_eq}
use gopherbot.RetVal.{RetVal}
use gopherbot.Brain.Datum.{Env, Vault, CheckOutReply, get_datum}
use gopherbot.Brain.Loop.{
  MemState, new_memory, seen, available, CheckOutRequest, MemStatus, CheckInRequest, UpdateRequest,
  Event, check_out, check_in, update, tick, Loop, do_check_out, do_check_in, do_update, step, run,
  init, answer_check_out, grant, release, enqueue, check_out_free, check_out_rw, answer_update,
  is_ok,
}
use gopherbot.Brain.View.{grants, arrived, arrivals, waiting, view, Move}
use gopherbot.Brain.Answers.{Sound}
use gopherbot.Brain.CheckOut.{check_out-Move}
use gopherbot.Brain.Release.{check_in-Move, update-Move, do_update-none, do_update-some}
use gopherbot.Brain.Tick.{tick-Move, tick-IsUnique}
use gopherbot.Brain.Moves.{Move-Sound, in_order, Move-in_order, Holds, Move-Holds}
use gopherbot.Brain.Release.{release-nil, release-cons, do_check_in-none, do_check_in-some}
use gopherbot.Brain.CheckOut.{
  do_check_out-none, do_check_out-some, check_out_rw-available, check_out_rw-enqueue,
}

module _ (env : Env) where
  abbrev Unique : Loop env → Type 0
  Unique s = IsUnique String_discrete s.memories

  -- Between events each memory is sound, has one status, and is held under its last grant's token.
  pub record Inv (s : Loop env) : Type 0 where
    pub sound : (k : String) → Sound k (view k s)
    pub unique : IsUnique String_discrete s.memories
    pub holds : (k : String) → Holds (view k s)

  grant-Unique :
      (s : Loop env) (creq : CheckOutRequest) (ws : List CheckOutRequest)
      (r : CheckOutReply × Vault env)
      → Unique s
      → Unique (grant env s creq ws r)
  unfolding grant
  grant-Unique s creq ws (rep, v) u = insert-IsUnique String_discrete creq.key _ s.memories u

  answer-Unique :
      (s : Loop env) (creq : CheckOutRequest) (r : CheckOutReply × Vault env)
      → Unique s
      → Unique (answer_check_out env s creq r)
  unfolding answer_check_out
  answer-Unique s creq (rep, v) u = u

  enqueue-Unique :
      (s : Loop env) (creq : CheckOutRequest) (m : MemStatus)
      → Unique s
      → Unique (enqueue env s creq m)
  unfolding enqueue
  enqueue-Unique s creq m u = insert-IsUnique String_discrete creq.key _ s.memories u

  check_out_free-Unique :
      (s : Loop env) (creq : CheckOutRequest) (r : CheckOutReply × Vault env)
      → Unique s
      → Unique (check_out_free env s creq r)
  unfolding check_out_free
  check_out_free-Unique s creq (rep, v) u =
      if_cases Unique (is_ok rep.ret) _ _
        (λ _.
          if_cases Unique creq.rw _ _ (λ _. grant-Unique s creq [] (rep, v) u)
            (λ _. answer-Unique s creq (rep, v) u))
        (λ _. answer-Unique s creq (rep, v) u)

  check_out_rw-Unique :
      (s : Loop env) (creq : CheckOutRequest) (m : MemStatus) (st : MemState)
      → m.state ≡ st
      → Unique s
      → Unique (check_out_rw env s creq m)
  check_out_rw-Unique s creq m available e u =
      rw (check_out_rw-available env s creq m e) (grant-Unique s creq m.waiters _ u)
  check_out_rw-Unique s creq m new_memory e u =
      rw (check_out_rw-enqueue env s creq m (λ a. cc)) (enqueue-Unique s creq m u)
  check_out_rw-Unique s creq m seen e u =
      rw (check_out_rw-enqueue env s creq m (λ a. cc)) (enqueue-Unique s creq m u)

  check_out-Unique :
      (s : Loop env) (creq : CheckOutRequest) → Unique s → Unique (do_check_out env s creq)
  check_out-Unique s creq u = elim (Option-cases (lookup String_discrete creq.key s.memories)) [
    | inl e ↦ rw (do_check_out-none env s creq e) (check_out_free-Unique s creq _ u)
    | inr (m, e) ↦ rw (do_check_out-some env s creq m e) (
        if_cases Unique creq.rw _ _ (λ _. check_out_rw-Unique s creq m m.state refl u)
          (λ _. answer-Unique s creq (get_datum env s.vault creq.key creq.rw) u))
  ]

  release-Unique :
      (s : Loop env) (key : String) (m : MemStatus) (ws : List CheckOutRequest)
      → m.waiters ≡ ws
      → Unique s
      → Unique (release env s key m)
  release-Unique s key m [] e u =
      rw (release-nil env s key m e) (delete-IsUnique String_discrete key s.memories u)
  release-Unique s key m (creq ∷ rest) e u =
      rw (release-cons env s key m creq rest e) (grant-Unique s creq rest _ u)

  check_in-Unique : (s : Loop env) (ci : CheckInRequest) → Unique s → Unique (do_check_in env s ci)
  check_in-Unique s ci u = elim (Option-cases (lookup String_discrete ci.key s.memories)) [
    | inl e ↦ rw (do_check_in-none env s ci e) u
    | inr (m, e) ↦ rw (do_check_in-some env s ci m e) (
        if_cases Unique (bytes_eq ci.token m.token) _ _
          (λ _. release-Unique s ci.key m m.waiters refl u) (λ _. u))
  ]

  answer_update-Unique :
      (s : Loop env) (ur : UpdateRequest) (r : RetVal × Vault env)
      → Unique s
      → Unique (answer_update env s ur r)
  unfolding answer_update
  answer_update-Unique s ur (r, v) u = u

  update-Unique : (s : Loop env) (ur : UpdateRequest) → Unique s → Unique (do_update env s ur)
  update-Unique s ur u = elim (Option-cases (lookup String_discrete ur.key s.memories)) [
    | inl e ↦ rw (do_update-none env s ur e) (answer_update-Unique s ur _ u)
    | inr (m, e) ↦ rw (do_update-some env s ur m e) (
        if_cases Unique (bytes_eq ur.token m.token) _ _
          (λ _. release-Unique _ ur.key m m.waiters refl (answer_update-Unique s ur _ u))
          (λ _. answer_update-Unique s ur _ u))
  ]

  pub step-Move :
      (s : Loop env) (e : Event) (k : String)
      → Inv s
      → Move k (arrived k e) (view k s) (view k (step env s e))
  unfolding step
  step-Move s (check_out creq) k v = check_out-Move env s k creq (v.sound k)
  step-Move s (check_in ci) k v = check_in-Move env s k ci v.sound
  step-Move s (update ur) k v = update-Move env s k ur v.sound
  step-Move s tick k v = tick-Move k env s v.sound v.unique

  step-Unique : (s : Loop env) (e : Event) → Inv s → Unique (step env s e)
  unfolding step
  step-Unique s (check_out creq) v = check_out-Unique s creq v.unique
  step-Unique s (check_in ci) v = check_in-Unique s ci v.unique
  step-Unique s (update ur) v = update-Unique s ur v.unique
  step-Unique s tick v = tick-IsUnique env s v.sound v.unique

  -- Every event keeps the invariant: on each key the waiters ask to write under it, a lease that is
  -- available has none, and the token in force is that of the last grant; and each key has one status.
  pub step-Inv : (s : Loop env) (e : Event) → Inv s → Inv (step env s e)
  step-Inv s e v = record {
    sound = λ k. Move-Sound k (arrived k e) _ _ (step-Move s e k v) (v.sound k);
    unique = step-Unique s e v;
    holds = λ k. Move-Holds k (arrived k e) _ _ (step-Move s e k v) (v.holds k);
  }

  pub init-Inv : (v : Vault env) → Inv (init env v)
  unfolding init lookup
  init-Inv v = record { sound = λ k m h. cc; unique = tt; holds = λ k m h. cc }

  pub run-Inv : (es : List Event) (s : Loop env) → Inv s → Inv (run env s es)
  unfolding run
  run-Inv [] s v = v
  run-Inv (e ∷ es) s v = run-Inv es (step env s e) (step-Inv s e v)

  pub run-in_order :
      (es : List Event) (s : Loop env) (k : String)
      → Inv s
      → in_order (view k (run env s es)) ≡ in_order (view k s) ++ arrivals k es
  unfolding run arrivals
  run-in_order [] s k v = sym (append-nil (in_order (view k s)))
  run-in_order (e ∷ es) s k v =
      run-in_order es (step env s e) k (step-Inv s e v)
      ∙ ap (λ l. l ++ arrivals k es) (Move-in_order k (arrived k e) _ _ (step-Move s e k v))
      ∙ append_assoc (in_order (view k s)) (arrived k e) (arrivals k es)

  -- After any events, the read-write checkouts of a key that were answered, in the order of the
  -- answers, and behind them those that wait, are exactly those that arrived, in the order of arrival.
  pub answered_in_order :
      (v : Vault env) (es : List Event) (k : String)
      → map (λ g. g.0) (grants k (run env (init env v) es).log)
          ++ waiting (view k (run env (init env v) es))
        ≡ arrivals k es
  answered_in_order v es k = run-in_order es (init env v) k (init-Inv v) ∙ nothing_yet
    where
      nothing_yet : in_order (view k (init env v)) ++ arrivals k es ≡ arrivals k es
      nothing_yet = unfold init lookup grants in refl
