-- ===== src/Tests/Permissions.antt =====
-- Access: a plugin for admins whose commands need an authorizer and an elevator.
use gopherbot.Prelude.{◌≡◌, refl, true, false, some, [], ◌∷◌, ◌↔◌, ◌⊎◌}
use gopherbot.Prelude.Bytes.{codes, bytes_eq, is_listed}
use gopherbot.Prelude.Assoc.{lookup}
use gopherbot.TaskRetVal.{success}
use gopherbot.Access.{Task, Plugin, Callable, Config, Worker, Services, task_by_name}
use gopherbot.Access.Authorize.{
  command_requires_authorization, check_authorization, get_authorizer_user_groups,
}
use gopherbot.Access.Authorize.Consent.{Consents, check_authorization-needed}
use gopherbot.Access.Elevate.{elevation_required, elevate, check_elevation}
use gopherbot.Access.Elevate.Privilege.{Elevates, check_elevation-success}
use gopherbot.Access.Available.{
  is_admin_user, user_can_access_task, command_requires_admin, command_visible_to_user,
}
use gopherbot.Access.Available.Visible.{Accessible, InGroup, command_visible_to_user-Accessible}

abbrev services : Services
services = record {
  to_lower = λ t. t;
  trim_space = λ t. t;
  glob = λ p t. some (bytes_eq p t);
  json_strings = λ t. some (t ∷ []);
  call_task = λ name command args. success;
  call_user_groups = λ name user. (success, some (codes "ops"));
}

abbrev deploy : Task
deploy = record {
  name = codes "deploy";
  channels = codes "ops" ∷ [];
  all_channels = false;
  require_admin = true;
  users = codes "alice" ∷ [];
  elevator = codes "totp";
  authorizer = codes "groups";
  auth_require = codes "ops";
  disabled = false;
}

abbrev commands : Plugin
commands = record {
  admin_commands = codes "run" ∷ [];
  elevated_commands = codes "run" ∷ [];
  elevate_immediate_commands = [];
  authorized_commands = codes "run" ∷ [];
  allowed_private_commands = [];
  required_private_commands = [];
  authorize_all_commands = false;
  require_all_commands_private = false;
  restrict_private_channels = false;
}

abbrev plugin : Callable
plugin = record { task = deploy; plugin = some commands }

abbrev other : Callable
other = record { task = record deploy { name = codes "other" }; plugin = some commands }

abbrev config : Config
config = record {
  admin_users = codes "alice" ∷ [];
  default_authorizer = [];
  default_elevator = [];
  tasks = (codes "groups", other) ∷ (codes "totp", other) ∷ [];
}

abbrev alice : Worker
alice = record {
  user = codes "alice";
  automatic_task = false;
  listed_user = true;
  channel = codes "ops";
  direct_message = false;
  hidden_message = false;
  elevated = false;
}

check_authorization-needed_example :
    ((check_authorization services config plugin (codes "run") []).ret ≡ success)
    ↔ Consents services config plugin (codes "run") [] (task_by_name config (codes "groups"))
unfolding bytes_eq
check_authorization-needed_example =
    check_authorization-needed services config plugin (codes "run") []
      (unfold lookup bytes_eq in refl)
      (unfold command_requires_authorization is_listed bytes_eq in refl)

run_required : (elevation_required plugin (codes "run")).0 ≡ true
unfolding elevation_required is_listed bytes_eq
run_required = refl

check_elevation-success_example :
    Elevates services config plugin (codes "run") alice (task_by_name config (codes "totp"))
    × (true ≡ true)
unfolding bytes_eq
check_elevation-success_example =
    check_elevation-success services config plugin (codes "run") alice
      (record alice { elevated = true }) run_required
      (unfold check_elevation elevation_required elevate is_listed bytes_eq lookup in refl)

command_visible_to_user-Accessible_example :
    Accessible services config alice deploy
    × ((command_requires_admin (some commands) (codes "run") ≡ false)
        ⊎ (is_admin_user config alice ≡ true))
    × ((command_requires_authorization (some commands) (codes "run") ≡ false)
        ⊎ InGroup services config alice deploy)
command_visible_to_user-Accessible_example =
    command_visible_to_user-Accessible services config alice deploy (some commands) (codes "run") (
      unfold command_visible_to_user user_can_access_task get_authorizer_user_groups is_listed
        bytes_eq lookup in
      refl)
