-- ===== src/Access/Available/Visible.antt =====
-- About bot/available.go: whom a command is shown to, and where a plugin answers.
use gopherbot.Prelude.{
  ◌≡◌, refl, sym, Bool, true, false, not, ◌&&◌, Option, none, some, List, ◌⊎◌, inl, inr,
  if◌then◌else◌, if_cases,
}
use mathlib.Core.Bool.{false≢true}
use gopherbot.Access.{
  Text, is_empty, is_listed, Task, Plugin, Config, Worker, Services, is_nonempty,
}
use gopherbot.Access.Authorize.{
  command_requires_authorization, effective_authorizer_name, user_has_required_group,
  get_authorizer_user_groups,
}
use gopherbot.Access.Available.{
  is_admin_user, user_matches_task, user_can_access_task, command_requires_admin,
  command_visible_to_user, group_held, plugin_available,
}

unless : (a b : Bool) → (a && not b) ≡ false → (a ≡ false) ⊎ (b ≡ true)
unless true true e = inr refl
unless true false e = absurd (false≢true (sym e))
unless false b e = inl refl

module _ (sv : Services) (cfg : Config) (w : Worker) (task : Task) where
  -- The task is on, its user may use it, and is an admin where one is required.
  abbrev pub Accessible : Type 0
  Accessible =
      (task.disabled ≡ false)
      × ((task.require_admin ≡ false) ⊎ (is_admin_user cfg w ≡ true))
      × (user_matches_task sv w task ≡ true)

  pub user_can_access_task-Accessible : user_can_access_task sv cfg w task ≡ true → Accessible
  unfolding user_can_access_task
  user_can_access_task-Accessible =
      if_cases (λ b. b ≡ true → Accessible) task.disabled _ _ (λ _ e. absurd (false≢true e))
        (λ on.
          if_cases (λ b. b ≡ true → Accessible) (task.require_admin && not (is_admin_user cfg w)) _
            _ (λ _ e. absurd (false≢true e))
            (λ admin e. (on, unless task.require_admin (is_admin_user cfg w) admin, e)))

  -- The user is known to be in the group that the task requires.
  abbrev pub InGroup : Type 0
  InGroup =
      (groups : List Text) × (get_authorizer_user_groups sv cfg
          (effective_authorizer_name task cfg.default_authorizer) w.user
        ≡ some groups)
      × (user_has_required_group sv groups task.auth_require ≡ true)

  held_in :
      (g : Option (List Text))
      → get_authorizer_user_groups sv cfg
          (effective_authorizer_name task cfg.default_authorizer)
          w.user
        ≡ g
      → group_held sv cfg w task g ≡ true
      → InGroup
  unfolding group_held
  held_in none e h = absurd (false≢true h)
  held_in (some groups) e h = (groups, e, h)

  -- A command is shown only to a user who may use the task, who is an admin where the command is for
  -- admins, and who, where the command needs authorization, is known to be in the required group.
  pub command_visible_to_user-Accessible :
      (plugin : Option Plugin) (command : Text)
      → command_visible_to_user sv cfg w task plugin command ≡ true
      → Accessible
        × ((command_requires_admin plugin command ≡ false) ⊎ (is_admin_user cfg w ≡ true))
        × ((command_requires_authorization plugin command ≡ false) ⊎ InGroup)
  unfolding command_visible_to_user
  command_visible_to_user-Accessible plugin command =
      if_cases Shows (not (user_can_access_task sv cfg w task)) _ _ (λ _ e. absurd (false≢true e))
        (λ can.
          if_cases Shows (command_requires_admin plugin command && not (is_admin_user cfg w)) _ _
            (λ _ e. absurd (false≢true e))
            (λ admin.
              if_cases Shows (not (command_requires_authorization plugin command)) _ _
                (λ free _. (access can, needs_admin admin, inl (not_true _ free)))
                (λ _.
                  if_cases Shows (is_empty (sv.trim_space task.auth_require)) _ _
                    (λ _ e. absurd (false≢true e))
                    (λ _.
                      if_cases Shows
                        (is_empty (effective_authorizer_name task cfg.default_authorizer)) _ _
                        (λ _ e. absurd (false≢true e))
                        (λ _ e. (access can, needs_admin admin, inr (held_in _ refl e)))))))
    where
      Shows : Bool → Type 0
      Shows b =
          b ≡ true
          → Accessible
            × ((command_requires_admin plugin command ≡ false) ⊎ (is_admin_user cfg w ≡ true))
            × ((command_requires_authorization plugin command ≡ false) ⊎ InGroup)

      not_false : (b : Bool) → not b ≡ false → b ≡ true
      not_false true e = refl
      not_false false e = absurd (false≢true (sym e))

      not_true : (b : Bool) → not b ≡ true → b ≡ false
      not_true true e = absurd (false≢true e)
      not_true false e = refl

      access : not (user_can_access_task sv cfg w task) ≡ false → Accessible
      access e = user_can_access_task-Accessible (not_false _ e)

      needs_admin :
          (command_requires_admin plugin command && not (is_admin_user cfg w)) ≡ false
          → (command_requires_admin plugin command ≡ false) ⊎ (is_admin_user cfg w ≡ true)
      needs_admin e = unless (command_requires_admin plugin command) (is_admin_user cfg w) e

  -- The places where a plugin answers.
  abbrev pub InPlace : Bool → Type 0
  InPlace help_system =
      (w.direct_message ≡ true)
      ⊎ ((is_listed w.channel task.channels ≡ true)
          ⊎ (((is_nonempty task.channels ≡ false) × (task.all_channels ≡ true))
              ⊎ (help_system ≡ true)))

  -- A plugin is available only to a user who may use it, and only in a direct message, in a channel
  -- that it lists, in any channel where it lists none and is for all, or for the help system.
  pub plugin_available-Accessible :
      (help_system : Bool)
      → (plugin_available sv cfg w task help_system).0 ≡ true
      → Accessible × InPlace help_system
  unfolding plugin_available
  plugin_available-Accessible help_system =
      if_cases Answers task.disabled _ _ (λ _ e. absurd (false≢true e))
        (λ _.
          if_cases Answers (not (user_can_access_task sv cfg w task)) _ _
            (λ _ e. absurd (false≢true e))
            (λ can.
              if_cases Answers w.direct_message _ _ (λ d _. (access can, inl d))
                (λ _.
                  if_cases Answers (is_nonempty task.channels) _ _
                    (λ _.
                      if_cases Answers (is_listed w.channel task.channels) _ _
                        (λ l _. (access can, inr (inl l))) (λ _. otherwise can))
                    (λ n.
                      if_cases Answers task.all_channels _ _
                        (λ a _. (access can, inr (inr (inl (n, a))))) (λ _. otherwise can)))))
    where
      Answers : Bool × Bool → Type 0
      Answers r = r.0 ≡ true → Accessible × InPlace help_system

      not_false : (b : Bool) → not b ≡ false → b ≡ true
      not_false true e = refl
      not_false false e = absurd (false≢true (sym e))

      access : not (user_can_access_task sv cfg w task) ≡ false → Accessible
      access e = user_can_access_task-Accessible (not_false _ e)

      otherwise :
          not (user_can_access_task sv cfg w task) ≡ false
          → Answers (if help_system then (true, true) else (false, false))
      otherwise can =
          if_cases Answers help_system _ _ (λ h _. (access can, inr (inr (inr h))))
            (λ _ e. absurd (false≢true e))
