-- ===== src/Access/Authorize/Consent.antt =====
-- About bot/authorize.go: what the authorizer has to do with the result.
use gopherbot.Prelude.{
  ◌≡◌, refl, sym, ap, ◌∙◌, Bool, true, false, not, ◌&&◌, ◌||◌, Option, none, some, List, [], ◌∷◌,
  ◌↔◌, inl, inr, if◌then◌else◌, Bool-cases, if_true, if_false, if_cases,
}
use mathlib.Core.Bool.{false≢true}
use gopherbot.Prelude.Bytes.{codes, bytes_eq_iff, is_nonempty_of_is_listed}
use gopherbot.TaskRetVal.{
  TaskRetVal, normal, fail, mechanism_fail, configuration_error, pipeline_aborted, robot_stopping,
  not_found, success,
}
use gopherbot.Access.{
  Text, is_empty, Plugin, Callable, Config, Services, task_by_name, Outcome, config_auth_error,
  auth_no_run_misconfigured,
}
use gopherbot.Access.Authorize.{
  command_requires_authorization, effective_authorizer_name, auth_outcome, call_authorizer,
  ask_authorizer, needs, is_idle, is_plugin, check_authorization,
}

auth_outcome-success : (r : TaskRetVal) → (auth_outcome r).ret ≡ success → r ≡ success
auth_outcome-success success e = refl
auth_outcome-success normal e = absurd (cc)
auth_outcome-success fail e = absurd (cc)
auth_outcome-success mechanism_fail e = absurd (cc)
auth_outcome-success configuration_error e = absurd (cc)
auth_outcome-success pipeline_aborted e = absurd (cc)
auth_outcome-success robot_stopping e = absurd (cc)
auth_outcome-success not_found e = absurd (cc)

and_true : (a b c : Bool) → (a && b && c) ≡ true → (b ≡ true) × (c ≡ true)
and_true true true true e = (refl, refl)
and_true true true false e = absurd (false≢true e)
and_true true false c e = absurd (false≢true e)
and_true false b c e = absurd (false≢true e)

not_idle :
    (all listed some_listed named : Bool)
    → (if all then true else listed) ≡ true
    → (listed ≡ true → some_listed ≡ true)
    → (not (all || some_listed) && named) ≡ false
not_idle true listed some_listed named e f = refl
not_idle false listed true named e f = refl
not_idle false listed false named e f = absurd (false≢true (f e))

module _ (sv : Services) (cfg : Config) (t : Callable) (command : Text) (args : List Text) where
  -- The authorizer that is found, if it is a plugin and says yes.
  abbrev pub Consents : Option Callable → Type 0
  Consents found =
      (a : Callable) × (p : Plugin) × (found ≡ some a)
      × (a.plugin ≡ some p)
      × (sv.call_task a.task.name (codes "_authorize")
            (t.task.name ∷ t.task.auth_require ∷ command ∷ args)
          ≡ success)

  abbrev authorizer : Option Callable
  authorizer = task_by_name cfg (effective_authorizer_name t.task cfg.default_authorizer)

  asked-success :
      (a : Callable) (o : Option Plugin)
      → a.plugin ≡ o
      → (ask_authorizer sv t.task command args a.task o).ret ≡ success
      → Consents (some a)
  asked-success a none h e = absurd (cc)
  asked-success a (some p) h e = (a, p, refl, h, auth_outcome-success _ e)

  call_authorizer-success :
      (found : Option Callable)
      → (call_authorizer sv t.task command args found).ret ≡ success
      → Consents found
  call_authorizer-success none e = absurd (cc)
  call_authorizer-success (some a) e = asked-success a a.plugin refl e

  success-call_authorizer :
      (found : Option Callable)
      → Consents found
      → (call_authorizer sv t.task command args found).ret ≡ success
  success-call_authorizer found (a, p, e, h, consent) =
      ap (λ f. (call_authorizer sv t.task command args f).ret) e
      ∙ ap (λ o. (ask_authorizer sv t.task command args a.task o).ret) h
      ∙ ap (λ r. (auth_outcome r).ret) consent

  idle-needless : (o : Option Plugin) → needs t.task o command ≡ true → is_idle t.task o ≡ false
  unfolding command_requires_authorization
  idle-needless none e = refl
  idle-needless (some p) e =
      not_idle p.authorize_all_commands _ _ _ e
        (is_nonempty_of_is_listed command p.authorized_commands)

  -- Where no task has the empty name: a command that needs authorization is let through exactly when
  -- the authorizer, the task's own or else the default one, is a plugin whose `_authorize` says
  -- Success to the task, its requirement, the command and the arguments.
  pub check_authorization-needed :
      task_by_name cfg [] ≡ none
      → needs t.task t.plugin command ≡ true
      → ((check_authorization sv cfg t command args).ret ≡ success) ↔ Consents authorizer
  unfolding check_authorization
  check_authorization-needed unnamed e = (
    λ h.
        if_cases (λ (o : Outcome). o.ret ≡ success → Consents authorizer) misconfigured _ _
          (λ _ z. absurd (cc)) (λ _. call_authorizer-success authorizer)
          (sym (ap (λ (o : Outcome). o.ret) asked) ∙ h),
    λ c.
        ap (λ (o : Outcome). o.ret) asked
        ∙ if_cases (λ (o : Outcome). o.ret ≡ success) misconfigured _ _ (λ m. absurd (nobody m c))
            (λ _. success-call_authorizer authorizer c),
  )
    where
      misconfigured : Bool
      misconfigured =
          is_plugin t.plugin && is_empty t.task.authorizer && is_empty cfg.default_authorizer

      asked : check_authorization sv cfg t command args ≡ (
          if misconfigured
          then record {
            ret = configuration_error;
            said = some config_auth_error;
            emitted = some auth_no_run_misconfigured;
          }
          else call_authorizer sv t.task command args authorizer)
      asked =
          if_false (is_idle t.task t.plugin) _ _ (idle-needless t.plugin e)
          ∙ if_true (needs t.task t.plugin command) _ _ e

      nobody : misconfigured ≡ true → ¬ (Consents authorizer)
      nobody m (a, p, found, h, consent) =
          let (unset, no_default) =
            and_true (is_plugin t.plugin) (is_empty t.task.authorizer)
              (is_empty cfg.default_authorizer) m in
          cc (
            sym unnamed
            ∙ ap (task_by_name cfg) (sym ((bytes_eq_iff cfg.default_authorizer []).0 no_default))
            ∙ ap (task_by_name cfg) (sym (if_true (is_empty t.task.authorizer) _ _ unset))
            ∙ found)

  -- A command that needs no authorization is let through, unless its plugin names an authorizer and
  -- no command for it.
  pub check_authorization-needless :
      needs t.task t.plugin command ≡ false
      → ((check_authorization sv cfg t command args).ret ≡ success)
        ↔ (is_idle t.task t.plugin ≡ false)
  unfolding check_authorization
  check_authorization-needless e = (
    λ h. elim (Bool-cases (is_idle t.task t.plugin)) [
      | inl i ↦
          absurd
            (cc (sym (ap (λ (o : Outcome). o.ret) (if_true (is_idle t.task t.plugin) _ _ i)) ∙ h))
      | inr f ↦ f
    ],
    λ f.
        ap (λ (o : Outcome). o.ret)
          (if_false (is_idle t.task t.plugin) _ _ f
            ∙ if_false (needs t.task t.plugin command) _ _ e),
  )
