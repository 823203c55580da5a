-- ===== src/Access/Authorize.antt =====
-- bot/authorize.go: whether a command runs without an authorizer's consent.
pub mod Consent
use gopherbot.Prelude.{
  ◌≡◌, Bool, true, false, not, ◌&&◌, ◌||◌, Option, none, some, List, [], ◌∷◌, ◌++◌, if◌then◌else◌,
}
use gopherbot.Prelude.Bytes.{codes}
use gopherbot.TaskRetVal.{TaskRetVal, normal, fail, mechanism_fail, configuration_error, success}
use gopherbot.Access.{
  Text, is_empty, is_listed, Task, Plugin, Callable, Config, Services, task_by_name, is_set,
  is_nonempty, Reply, config_auth_error, technical_auth_error, not_authorized, Emitted,
  auth_no_run_misconfigured, auth_ran_success, auth_ran_fail, auth_ran_mechanism_failed,
  auth_ran_fail_normal, auth_ran_fail_other, auth_no_run_not_found, Outcome,
}

unfoldable pub command_requires_authorization : Option Plugin → Text → Bool
command_requires_authorization none command = false
command_requires_authorization (some p) command =
    if p.authorize_all_commands then true else is_listed command p.authorized_commands

abbrev pub effective_authorizer_name : Task → Text → Text
effective_authorizer_name task default_authorizer =
    if is_empty task.authorizer then default_authorizer else task.authorizer

-- What a required group is looked for in: the names, and the names in lower case.
unfoldable pub user_has_required_group : Services → List Text → Text → Bool
user_has_required_group sv groups required =
    if is_set required && is_nonempty groups
    then (if is_listed required groups then true else is_listed (sv.to_lower required) groups)
    else false

unfoldable pub groups_of : Services → List Text → List Text
groups_of sv [] = []
groups_of sv (g ∷ gs) =
    let group = sv.trim_space g in
    let rest = groups_of sv gs in if is_empty group then rest else group ∷ sv.to_lower group ∷ rest

abbrev pub is_success : TaskRetVal → Bool
is_success success = true
is_success _ = false

read_groups : Services → Option Text → Option (List Text)
unfolding groups_of
read_groups sv none = none
read_groups sv (some payload) =
    if is_empty (sv.trim_space payload)
    then none
    else elim (sv.json_strings (sv.trim_space payload)) [
      | none ↦ none
      | some memberships ↦ some (groups_of sv memberships)
    ]

-- The groups of a user, if they are known: `none` is the source's `known == false`.
unfoldable pub get_authorizer_user_groups : Services → Config → Text → Text → Option (List Text)
unfolding read_groups
get_authorizer_user_groups sv cfg authorizer user =
    if is_set (sv.trim_space authorizer) && is_set (sv.trim_space user)
    then elim (task_by_name cfg (sv.trim_space authorizer)) [
      | none ↦ none
      | some t ↦ elim t.plugin [
        | none ↦ none
        | some p ↦
            let (ret, payload) = sv.call_user_groups t.task.name user in
            if is_success ret then read_groups sv payload else none
      ]
    ]
    else none

abbrev pub quiet : TaskRetVal → Outcome
quiet r = record { ret = r; said = none; emitted = none }

-- What the authorizer's result means.
abbrev pub auth_outcome : TaskRetVal → Outcome
auth_outcome success = record { ret = success; said = none; emitted = some auth_ran_success }
auth_outcome fail = record { ret = fail; said = some not_authorized; emitted = some auth_ran_fail }
auth_outcome mechanism_fail = record {
  ret = mechanism_fail;
  said = some technical_auth_error;
  emitted = some auth_ran_mechanism_failed;
}
auth_outcome normal = record {
  ret = mechanism_fail;
  said = some technical_auth_error;
  emitted = some auth_ran_fail_normal;
}
auth_outcome _ = record {
  ret = mechanism_fail;
  said = some technical_auth_error;
  emitted = some auth_ran_fail_other;
}

-- The plugin of the name is asked; a task of the name that is no plugin cannot be.
abbrev pub ask_authorizer : Services → Task → Text → List Text → Task → Option Plugin → Outcome
ask_authorizer sv task command args asked none = record {
  ret = configuration_error;
  said = some technical_auth_error;
  emitted = some auth_no_run_not_found;
}
ask_authorizer sv task command args asked (some p) =
    auth_outcome (
      sv.call_task asked.name (codes "_authorize") (task.name ∷ task.auth_require ∷ command ∷ args))

abbrev pub call_authorizer : Services → Task → Text → List Text → Option Callable → Outcome
call_authorizer sv task command args none = quiet configuration_error
call_authorizer sv task command args (some t) = ask_authorizer sv task command args t.task t.plugin

-- A plugin's commands need authorization as its lists say, and a job does if it names an authorizer.
abbrev pub needs : Task → Option Plugin → Text → Bool
needs task none command = is_set task.authorizer
needs task (some p) command = command_requires_authorization (some p) command

-- A plugin that names an authorizer, but no command for it, is misconfigured.
abbrev pub is_idle : Task → Option Plugin → Bool
is_idle task none = false
is_idle task (some p) =
    not (p.authorize_all_commands || is_nonempty p.authorized_commands) && is_set task.authorizer

is_plugin : Option Plugin → Bool
is_plugin none = false
is_plugin (some p) = true

unfoldable pub check_authorization : Services → Config → Callable → Text → List Text → Outcome
unfolding command_requires_authorization is_plugin
check_authorization sv cfg t command args =
    if is_idle t.task t.plugin
    then record { ret = configuration_error; said = some config_auth_error; emitted = none }
    else if needs t.task t.plugin command
    then (if is_plugin t.plugin && is_empty t.task.authorizer && is_empty cfg.default_authorizer
        then record {
          ret = configuration_error;
          said = some config_auth_error;
          emitted = some auth_no_run_misconfigured;
        }
        else call_authorizer sv t.task command args
            (task_by_name cfg (effective_authorizer_name t.task cfg.default_authorizer)))
    else quiet success
