-- ===== src/Access/Available.antt =====
-- bot/available.go, with the private policies of bot/allow_hidden.go and bot/builtins.go and
-- `checkAdmin` of bot/robot.go: whom a plugin and its commands are open to, and where.
pub mod Visible
use gopherbot.Prelude.{
  ◌≡◌, Bool, true, false, not, ◌&&◌, ◌||◌, Option, none, some, List, [], ◌∷◌, if◌then◌else◌,
}
use gopherbot.Prelude.Bytes.{bytes_eq, codes}
use gopherbot.Access.{
  Text, is_empty, is_listed, Task, Plugin, Callable, Config, Worker, Services, is_set, is_nonempty,
}
use gopherbot.Access.Authorize.{
  command_requires_authorization, effective_authorizer_name, user_has_required_group,
  get_authorizer_user_groups,
}

unfoldable pub is_admin_user : Config → Worker → Bool
is_admin_user cfg w = if w.automatic_task then true else is_listed w.user cfg.admin_users

-- An admin who is not in the roster is refused.
unfoldable pub check_admin : Config → Worker → Bool
check_admin cfg w =
    if w.automatic_task
    then true
    else if is_listed w.user cfg.admin_users
    then w.listed_user
    else false

unfoldable pub matches_any : Services → Text → List Text → Bool
matches_any sv user [] = false
matches_any sv user (p ∷ ps) =
    let rest = matches_any sv user ps in
    elim (sv.glob p user) [ some true ↦ true | some false ↦ rest | none ↦ rest ]

unfoldable pub user_matches_task : Services → Worker → Task → Bool
unfolding matches_any
user_matches_task sv w task =
    if is_nonempty task.users then matches_any sv w.user task.users else true

unfoldable pub user_can_access_task : Services → Config → Worker → Task → Bool
unfolding is_admin_user user_matches_task
user_can_access_task sv cfg w task =
    if task.disabled
    then false
    else if task.require_admin && not (is_admin_user cfg w)
    then false
    else user_matches_task sv w task

unfoldable pub command_requires_admin : Option Plugin → Text → Bool
command_requires_admin none command = false
command_requires_admin (some p) command = is_listed command p.admin_commands

group_held : Services → Config → Worker → Task → Option (List Text) → Bool
unfolding user_has_required_group
group_held sv cfg w task none = false
group_held sv cfg w task (some groups) = user_has_required_group sv groups task.auth_require

unfoldable pub command_visible_to_user :
    Services → Config → Worker → Task → Option Plugin → Text → Bool
unfolding user_can_access_task command_requires_admin is_admin_user command_requires_authorization
    get_authorizer_user_groups group_held
command_visible_to_user sv cfg w task plugin command =
    let authorizer = effective_authorizer_name task cfg.default_authorizer in
    if not (user_can_access_task sv cfg w task)
    then false
    else if command_requires_admin plugin command && not (is_admin_user cfg w)
    then false
    else if not (command_requires_authorization plugin command)
    then true
    else if is_empty (sv.trim_space task.auth_require)
    then false
    else if is_empty authorizer
    then false
    else group_held sv cfg w task (get_authorizer_user_groups sv cfg authorizer w.user)

unfoldable pub private_command_context : Worker → Bool
private_command_context w = w.direct_message || w.hidden_message

unfoldable pub has_private_policy : Plugin → Bool
has_private_policy p =
    p.require_all_commands_private
    || is_nonempty p.allowed_private_commands
    || is_nonempty p.required_private_commands

abbrev pub folded : Services → Text → Text
folded sv command = sv.trim_space (sv.to_lower command)

unfoldable pub requires_listed : Services → Text → List Text → Bool
requires_listed sv command [] = false
requires_listed sv command (r ∷ rs) =
    bytes_eq (folded sv r) command || requires_listed sv command rs

unfoldable pub allows_listed : Services → Text → List Text → Bool
allows_listed sv command [] = false
allows_listed sv command (a ∷ rest) =
    bytes_eq (folded sv a) (codes "*")
    || bytes_eq (folded sv a) command
    || allows_listed sv command rest

unfoldable pub command_requires_private : Services → Option Plugin → Text → Bool
unfolding requires_listed
command_requires_private sv none command = false
command_requires_private sv (some p) command =
    if p.require_all_commands_private
    then true
    else requires_listed sv (folded sv command) p.required_private_commands

unfoldable pub command_allows_private : Services → Option Plugin → Text → Bool
unfolding command_requires_private allows_listed
command_allows_private sv none command = false
command_allows_private sv (some p) command =
    if command_requires_private sv (some p) command
    then true
    else allows_listed sv (folded sv command) p.allowed_private_commands

-- `commandLocationHint`: where a command can be called instead.
pub data Hint : Type 0 where
  in_channels : List Text → Hint
  in_any_channel : Hint
  in_private : Hint

hint_private : Services → Task → Plugin → Text → Option Hint
unfolding command_allows_private
hint_private sv task p command =
    if command_allows_private sv (some p) command
    then none
    else if is_nonempty task.channels
    then some (in_channels task.channels)
    else if task.all_channels
    then some in_any_channel
    else none

hint_channel : Services → Worker → Task → Plugin → Text → Option Hint
unfolding command_requires_private
hint_channel sv w task p command =
    if command_requires_private sv (some p) command
    then some in_private
    else if is_nonempty task.channels && not (is_listed w.channel task.channels)
    then some (in_channels task.channels)
    else none

unfoldable pub command_location_hint :
    Services → Config → Worker → Task → Option Plugin → Text → Option Hint
unfolding command_visible_to_user hint_private hint_channel
command_location_hint sv cfg w task none command = none
command_location_hint sv cfg w task (some p) command =
    if not (command_visible_to_user sv cfg w task (some p) command)
    then none
    else if w.direct_message
    then hint_private sv task p command
    else hint_channel sv w task p command

unfoldable pub private_channel_restricted : Task → Plugin → Bool
private_channel_restricted task p = p.restrict_private_channels && is_nonempty task.channels

unfoldable pub private_context_satisfies_channels : Worker → Task → Plugin → Bool
unfolding private_channel_restricted
private_context_satisfies_channels w task p =
    if not (private_channel_restricted task p)
    then true
    else if w.direct_message
    then false
    else is_listed w.channel task.channels

unfoldable pub plugin_available_for_private_match :
    Services → Config → Worker → Task → Plugin → Bool → Bool
unfolding private_command_context has_private_policy user_can_access_task
plugin_available_for_private_match sv cfg w task p verbose_only =
    if not (private_command_context w)
    then false
    else if verbose_only
    then false
    else if not (has_private_policy p)
    then false
    else user_can_access_task sv cfg w task

-- Whether the plugin is available, and whether it lists the channel.
unfoldable pub plugin_available : Services → Config → Worker → Task → Bool → Bool × Bool
unfolding user_can_access_task
plugin_available sv cfg w task help_system =
    let otherwise = if help_system then (true, true) else (false, false) in
    if task.disabled
    then (false, false)
    else if not (user_can_access_task sv cfg w task)
    then (false, false)
    else if w.direct_message
    then (true, help_system)
    else if is_nonempty task.channels
    then (if is_listed w.channel task.channels then (true, true) else otherwise)
    else if task.all_channels
    then (true, help_system)
    else otherwise
