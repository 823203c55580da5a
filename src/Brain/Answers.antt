-- ===== src/Brain/Answers.antt =====
-- An answer to a checkout, with or without a lease, as the view of a key shows it.
use gopherbot.Prelude.{
  ◌≡◌, ap, String, true, some, List, [], ◌∷◌, ◌++◌, ◌≢◌, String_discrete, ite, append-nil,
}
use mathlib.Core.Logic.{if_neg}
use gopherbot.Prelude.Assoc.{lookup, lookup-insert}
use gopherbot.Brain.Datum.{Env, Vault, CheckOutReply}
use gopherbot.Brain.Loop.{
  new_memory, available, CheckOutRequest, MemStatus, checked_out, Loop, answer_check_out, grant,
}
use gopherbot.Brain.View.{writes-ne, grants_of, grants, grants-one, View, view, leased}

-- All waiters of a memory ask to write under its key.
abbrev pub Waits : String → List CheckOutRequest → Type 0
Waits k [] = Unit {0}
Waits k (creq ∷ rest) = (creq.key ≡ k) × (creq.rw ≡ true) × Waits k rest

-- A memory that is available has no waiters.
pub record IsSound (k : String) (m : MemStatus) : Type 0 where
  pub waits : Waits k m.waiters
  pub idle : m.state ≡ available → m.waiters ≡ []

abbrev pub Sound : String → View → Type 0
Sound k v = (m : MemStatus) → v.status ≡ some m → IsSound k m

module _ (env : Env) (s : Loop env) (k : String) where
  pub view-answer :
      (creq : CheckOutRequest) (rep : CheckOutReply) (v : Vault env)
      → view k (answer_check_out env s creq (rep, v)) ≡ record {
        status = lookup String_discrete k s.memories;
        granted = grants k s.log ++ grants_of k (checked_out creq rep);
      }
  unfolding answer_check_out
  view-answer creq rep v = λ i. record {
    status = lookup String_discrete k s.memories;
    granted = grants-one k s.log (checked_out creq rep) i;
  }

  pub view-grant :
      (creq : CheckOutRequest) (ws : List CheckOutRequest) (rep : CheckOutReply) (v : Vault env)
      → view k (grant env s creq ws (rep, v)) ≡ record {
        status =
            ite
              (String_discrete creq.key k)
              (leased rep.token ws)
              (lookup String_discrete k s.memories);
        granted = grants k s.log ++ grants_of k (checked_out creq rep);
      }
  unfolding grant
  view-grant creq ws rep v = λ i. record {
    status =
        lookup-insert String_discrete creq.key k
          (record { state = new_memory; token = rep.token; waiters = ws }) s.memories i;
    granted = grants-one k s.log (checked_out creq rep) i;
  }

  pub view-answer_ne :
      (creq : CheckOutRequest) (r : CheckOutReply × Vault env)
      → creq.key ≢ k
      → view k (answer_check_out env s creq r) ≡ view k s
  view-answer_ne creq (rep, v) h =
      rw (view-answer creq rep v, writes-ne k creq h)
        (ap (λ g. record { status = lookup String_discrete k s.memories; granted = g })
          (append-nil (grants k s.log)))

  pub view-grant_ne :
      (creq : CheckOutRequest) (ws : List CheckOutRequest) (r : CheckOutReply × Vault env)
      → creq.key ≢ k
      → view k (grant env s creq ws r) ≡ view k s
  view-grant_ne creq ws (rep, v) h =
      rw (view-grant creq ws rep v, writes-ne k creq h, if_neg (String_discrete creq.key k) h)
        (ap (λ g. record { status = lookup String_discrete k s.memories; granted = g })
          (append-nil (grants k s.log)))
