-- ===== src/Access.antt =====
-- Who may call what: bot/authorize.go, bot/elevate.go, bot/available.go, and parts of
-- bot/allow_hidden.go, bot/builtins.go, bot/robot.go and bot/tasks.go. Texts are byte lists.
pub mod Authorize
pub mod Elevate
pub mod Available
use gopherbot.Prelude.{
  ◌≡◌, Bool, true, false, ◌&&◌, ◌||◌, Option, none, some, List, [], ◌∷◌, ◌++◌, if◌then◌else◌,
  is_some,
}
pub use gopherbot.Prelude.Bytes.{Text, is_empty, is_listed, is_nonempty}
use gopherbot.Prelude.Bytes.{Bytes_discrete}
use gopherbot.Prelude.Assoc.{lookup}
use gopherbot.TaskRetVal.{TaskRetVal}

-- The fields of `Task` that access depends on.
pub record Task : Type 0 where
  pub name : Text
  pub channels : List Text
  pub all_channels : Bool
  pub require_admin : Bool
  pub users : List Text
  pub elevator : Text
  pub authorizer : Text
  pub auth_require : Text
  pub disabled : Bool

pub record Plugin : Type 0 where
  pub admin_commands : List Text
  pub elevated_commands : List Text
  pub elevate_immediate_commands : List Text
  pub authorized_commands : List Text
  pub allowed_private_commands : List Text
  pub required_private_commands : List Text
  pub authorize_all_commands : Bool
  pub require_all_commands_private : Bool
  pub restrict_private_channels : Bool

-- What `getTask` makes of a configured task: the task, and its plugin if it is one.
pub record Callable : Type 0 where
  pub task : Task
  pub plugin : Option Plugin

-- The configuration and the task list.
pub record Config : Type 0 where
  pub admin_users : List Text
  pub default_authorizer : Text
  pub default_elevator : Text
  pub tasks : List (Text × Callable)

-- The worker: its user, and where the message came from.
pub record Worker : Type 0 where
  pub user : Text
  pub automatic_task : Bool
  pub listed_user : Bool
  pub channel : Text
  pub direct_message : Bool
  pub hidden_message : Bool
  pub elevated : Bool

-- What the decisions ask of others: strings.ToLower, strings.TrimSpace and filepath.Match (`none` for
-- a bad pattern) of Go's library, JSON lists of strings, and the plugins that authorize and elevate.
pub record Services : Type 0 where
  pub to_lower : Text → Text
  pub trim_space : Text → Text
  pub glob : Text → Text → Option Bool
  pub json_strings : Text → Option (List Text)
  -- the plugin's name, the command, the arguments
  pub call_task : Text → Text → List Text → TaskRetVal
  -- `_usergroups`: the plugin's name and the user; the result and the parameter that the plugin set
  pub call_user_groups : Text → Text → TaskRetVal × Option Text

-- `getTaskByName`
abbrev pub task_by_name : Config → Text → Option Callable
task_by_name cfg name = lookup Bytes_discrete name cfg.tasks

-- `task.Authorizer == ""` and the like
abbrev pub is_set : Text → Bool
is_set t = if is_empty t then false else true

-- Replies to the user.
pub data Reply : Type 0 where
  config_auth_error technical_auth_error not_authorized : Reply
  config_elev_error technical_elev_error requires_elevation : Reply

-- The events of bot/events.go that the decisions emit.
pub data Emitted : Type 0 where
  auth_no_run_misconfigured auth_ran_success auth_ran_fail auth_ran_mechanism_failed : Emitted
  auth_ran_fail_normal auth_ran_fail_other auth_no_run_not_found : Emitted
  elev_no_run_misconfigured elev_ran_success elev_ran_fail elev_ran_mechanism_failed : Emitted
  elev_ran_fail_normal elev_ran_fail_other elev_no_run_not_found : Emitted

pub record Outcome : Type 0 where
  pub ret : TaskRetVal
  pub said : Option Reply
  pub emitted : Option Emitted
