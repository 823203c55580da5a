-- ===== src/Brain/CheckOut.antt =====
-- About checkouts as moves of a lease.
use gopherbot.Prelude.{
  ◌≡◌, refl, ap, ◌∙◌, String, true, false, Option, none, some, List, [], ◌∷◌, ◌++◌, ◌≢◌, arith,
  if◌then◌else◌, String_discrete, append-nil, map, inl, inr, Option-cases, Bool-cases, if_cases,
  subst,
}
use mathlib.Core.Logic.{if_pos, if_neg}
use gopherbot.Prelude.Assoc.{lookup, lookup-insert}
use gopherbot.Brain.Datum.{Env, Vault, CheckOutReply, get_datum}
use gopherbot.Brain.Loop.{
  MemState, new_memory, seen, available, CheckOutRequest, MemStatus, is_ok, Loop, answer_check_out,
  grant, check_out_free, enqueue, check_out_rw, do_check_out,
}
use gopherbot.Brain.View.{
  writes-ne, writes-rw, writes-ro, writes, grants, waiting, view, leased, Move, keep, refuse, lease,
  queue,
}
use gopherbot.Brain.Answers.{IsSound, Sound, view-answer, view-grant, view-answer_ne, view-grant_ne}

-- The handlers, case by case.
module _ (env : Env) (s : Loop env) (creq : CheckOutRequest) where
  pub do_check_out-none :
      lookup String_discrete creq.key s.memories ≡ none
      → do_check_out env s creq ≡ check_out_free env s creq (get_datum env s.vault creq.key creq.rw)
  unfolding do_check_out
  do_check_out-none e = rw (e, do_check_out)

  pub do_check_out-some :
      (m : MemStatus)
      → lookup String_discrete creq.key s.memories ≡ some m
      → do_check_out env s creq ≡ (
          if creq.rw
          then check_out_rw env s creq m
          else answer_check_out env s creq (get_datum env s.vault creq.key creq.rw))
  unfolding do_check_out
  do_check_out-some m e = rw (e, do_check_out)

  pub check_out_rw-available :
      (m : MemStatus)
      → m.state ≡ available
      → check_out_rw env s creq m ≡ grant env s creq m.waiters (get_datum env s.vault creq.key true)
  unfolding check_out_rw
  check_out_rw-available m e = ground arith

  pub check_out_rw-enqueue :
      (m : MemStatus) → m.state ≢ available → check_out_rw env s creq m ≡ enqueue env s creq m
  unfolding check_out_rw
  check_out_rw-enqueue m h = ground arith

module _ (env : Env) (s : Loop env) (k : String) where
  view-enqueue_ne :
      (creq : CheckOutRequest) (m : MemStatus)
      → creq.key ≢ k
      → view k (enqueue env s creq m) ≡ view k s
  unfolding enqueue
  view-enqueue_ne creq m h = λ i. record {
    status =
        (lookup-insert String_discrete creq.key k (record m { waiters = m.waiters ++ creq ∷ [] })
              s.memories
            ∙ if_neg (String_discrete creq.key k) h _ _)
          i;
    granted = grants k s.log;
  }

  view-check_out_free_ne :
      (creq : CheckOutRequest) (r : CheckOutReply × Vault env)
      → creq.key ≢ k
      → view k (check_out_free env s creq r) ≡ view k s
  unfolding check_out_free
  view-check_out_free_ne creq (rep, v) h =
      if_cases (λ (t : Loop env). view k t ≡ view k s) (is_ok rep.ret) _ _
        (λ _.
          if_cases (λ (t : Loop env). view k t ≡ view k s) creq.rw _ _
            (λ _. view-grant_ne env s k creq [] (rep, v) h)
            (λ _. view-answer_ne env s k creq (rep, v) h))
        (λ _. view-answer_ne env s k creq (rep, v) h)

  view-check_out_rw_ne :
      (creq : CheckOutRequest) (m : MemStatus) (st : MemState)
      → creq.key ≢ k
      → m.state ≡ st
      → view k (check_out_rw env s creq m) ≡ view k s
  view-check_out_rw_ne creq m available h e =
      rw (check_out_rw-available env s creq m e)
        (view-grant_ne env s k creq m.waiters (get_datum env s.vault creq.key true) h)
  view-check_out_rw_ne creq m new_memory h e =
      rw (check_out_rw-enqueue env s creq m (λ a. cc)) (view-enqueue_ne creq m h)
  view-check_out_rw_ne creq m seen h e =
      rw (check_out_rw-enqueue env s creq m (λ a. cc)) (view-enqueue_ne creq m h)

  view-check_out_ne :
      (creq : CheckOutRequest) → creq.key ≢ k → view k (do_check_out env s creq) ≡ view k s
  view-check_out_ne creq h = elim (Option-cases (lookup String_discrete creq.key s.memories)) [
    | inl e ↦
        rw (do_check_out-none env s creq e)
          (view-check_out_free_ne creq (get_datum env s.vault creq.key creq.rw) h)
    | inr (m, e) ↦ rw (do_check_out-some env s creq m e) (
        if_cases (λ (t : Loop env). view k t ≡ view k s) creq.rw _ _
          (λ _. view-check_out_rw_ne creq m m.state h refl)
          (λ _. view-answer_ne env s k creq (get_datum env s.vault creq.key creq.rw) h))
  ]

  -- A checkout that is only answered changes nothing, or is a refusal.
  answer_ro-Move :
      (creq : CheckOutRequest) (r : CheckOutReply × Vault env)
      → creq.rw ≡ false
      → Move k (writes k creq) (view k s) (view k (answer_check_out env s creq r))
  answer_ro-Move creq (rep, v) w = keep (writes-ro k creq w) (
      view-answer env s k creq rep v
      ∙ ap
          (λ g. record {
            status = lookup String_discrete k s.memories;
            granted = grants k s.log ++ map (λ c. (c, rep.token)) g;
          })
          (writes-ro k creq w)
      ∙ ap (λ g. record { status = lookup String_discrete k s.memories; granted = g })
          (append-nil (grants k s.log)))

  answer_rw-Move :
      (creq : CheckOutRequest) (r : CheckOutReply × Vault env)
      → creq.key ≡ k
      → creq.rw ≡ true
      → lookup String_discrete k s.memories ≡ none
      → Move k (writes k creq) (view k s) (view k (answer_check_out env s creq r))
  answer_rw-Move creq (rep, v) e w free_ = refuse creq rep.token (writes-rw k creq e w) free_ (
      view-answer env s k creq rep v ∙ (λ i. record {
        status = free_ i;
        granted = grants k s.log ++ map (λ c. (c, rep.token)) (writes-rw k creq e w i);
      }))

  answer-Move :
      (creq : CheckOutRequest) (r : CheckOutReply × Vault env)
      → creq.key ≡ k
      → lookup String_discrete k s.memories ≡ none
      → Move k (writes k creq) (view k s) (view k (answer_check_out env s creq r))
  answer-Move creq r e free_ = elim (Bool-cases creq.rw) [
    | inl w ↦ answer_rw-Move creq r e w free_
    | inr w ↦ answer_ro-Move creq r w
  ]

  grant-Move :
      (creq : CheckOutRequest) (ws : List CheckOutRequest) (r : CheckOutReply × Vault env)
      → creq.key ≡ k
      → creq.rw ≡ true
      → waiting (view k s) ≡ []
      → ws ≡ []
      → Move k (writes k creq) (view k s) (view k (grant env s creq ws r))
  grant-Move creq ws (rep, v) e w nobody none_ =
      lease creq rep.token (writes-rw k creq e w) nobody (
        view-grant env s k creq ws rep v ∙ (λ i. record {
          status =
              (if_pos (String_discrete creq.key k) e (leased rep.token ws)
                    (lookup String_discrete k s.memories)
                  ∙ ap (leased rep.token) none_)
                i;
          granted = grants k s.log ++ map (λ c. (c, rep.token)) (writes-rw k creq e w i);
        }))

  enqueue-Move :
      (creq : CheckOutRequest) (m : MemStatus)
      → creq.key ≡ k
      → creq.rw ≡ true
      → lookup String_discrete k s.memories ≡ some m
      → m.state ≢ available
      → Move k (writes k creq) (view k s) (view k (enqueue env s creq m))
  unfolding enqueue
  enqueue-Move creq m e w held busy = queue creq m (writes-rw k creq e w) e w held busy (λ i.
      record {
        status =
            (lookup-insert String_discrete creq.key k
                  (record m { waiters = m.waiters ++ creq ∷ [] }) s.memories
                ∙ if_pos (String_discrete creq.key k) e _ _)
              i;
        granted = grants k s.log;
      })

  check_out_free-Move :
      (creq : CheckOutRequest) (r : CheckOutReply × Vault env)
      → creq.key ≡ k
      → lookup String_discrete k s.memories ≡ none
      → Move k (writes k creq) (view k s) (view k (check_out_free env s creq r))
  unfolding check_out_free
  check_out_free-Move creq (rep, v) e free_ =
      if_cases (λ (t : Loop env). Move k (writes k creq) (view k s) (view k t)) (is_ok rep.ret) _ _
        (λ _.
          if_cases (λ (t : Loop env). Move k (writes k creq) (view k s) (view k t)) creq.rw _ _
            (λ w. grant-Move creq [] (rep, v) e w (ground arith) refl)
            (λ w. answer_ro-Move creq (rep, v) w))
        (λ _. answer-Move creq (rep, v) e free_)

  check_out_rw-Move :
      (creq : CheckOutRequest) (m : MemStatus) (st : MemState)
      → creq.key ≡ k
      → creq.rw ≡ true
      → lookup String_discrete k s.memories ≡ some m
      → IsSound k m
      → m.state ≡ st
      → Move k (writes k creq) (view k s) (view k (check_out_rw env s creq m))
  check_out_rw-Move creq m available e w held sound st =
      rw (check_out_rw-available env s creq m st) (
        grant-Move creq m.waiters (get_datum env s.vault creq.key true) e w
          (ground (arith, sound.idle st)) (sound.idle st))
  check_out_rw-Move creq m new_memory e w held sound st =
      rw (check_out_rw-enqueue env s creq m (λ a. cc)) (enqueue-Move creq m e w held (λ a. cc))
  check_out_rw-Move creq m seen e w held sound st =
      rw (check_out_rw-enqueue env s creq m (λ a. cc)) (enqueue-Move creq m e w held (λ a. cc))

  abbrev SameKey : (creq : CheckOutRequest) (o : Option MemStatus) → Type 0
  SameKey creq o = lookup String_discrete creq.key s.memories ≡ o

  check_out-Move_eq :
      (creq : CheckOutRequest)
      → Sound k (view k s)
      → creq.key ≡ k
      → Move k (writes k creq) (view k s) (view k (do_check_out env s creq))
  check_out-Move_eq creq sound e =
      elim (Option-cases (lookup String_discrete creq.key s.memories)) [
        | inl none_ ↦ rw (do_check_out-none env s creq none_) (
            check_out_free-Move creq (get_datum env s.vault creq.key creq.rw) e
              (subst (λ x. lookup String_discrete x s.memories ≡ none) e none_))
        | inr (m, held) ↦
            let held' : lookup String_discrete k s.memories ≡ some m =
              subst (λ x. lookup String_discrete x s.memories ≡ some m) e held in
            rw (do_check_out-some env s creq m held) (
              if_cases (λ (t : Loop env). Move k (writes k creq) (view k s) (view k t)) creq.rw _ _
                (λ w. check_out_rw-Move creq m m.state e w held' (sound m held') refl)
                (λ w. answer_ro-Move creq (get_datum env s.vault creq.key creq.rw) w))
      ]

  pub check_out-Move :
      (creq : CheckOutRequest)
      → Sound k (view k s)
      → Move k (writes k creq) (view k s) (view k (do_check_out env s creq))
  check_out-Move creq sound = elim (String_discrete creq.key k) [
    | yes e ↦ check_out-Move_eq creq sound e
    | no h ↦ keep (writes-ne k creq h) (view-check_out_ne creq h)
  ]
