-- ===== src/Access/Elevate/Privilege.antt =====
-- About bot/elevate.go: what the elevator has to do with the result.
use gopherbot.Prelude.{
  ◌≡◌, refl, sym, ap, ◌∙◌, Bool, true, Option, none, some, [], ◌∷◌, if_true, if_cases, ◌&&◌,
}
use gopherbot.Prelude.Bytes.{codes}
use gopherbot.TaskRetVal.{
  TaskRetVal, normal, fail, mechanism_fail, configuration_error, pipeline_aborted, robot_stopping,
  not_found, success,
}
use gopherbot.Access.{
  Text, is_empty, Plugin, Callable, Config, Worker, Services, task_by_name, Outcome,
}
use gopherbot.Access.Authorize.{is_success}
use gopherbot.Access.Elevate.{
  elev_outcome, elevator_name, immed_string, ask_elevator, call_elevator, elevate,
  elevation_required, elevated_as, check_elevation,
}

kept : Option (TaskRetVal × Bool × Worker) → Bool
kept none = true
kept (some (r, required, w)) = w.elevated

module _ (sv : Services) (cfg : Config) (t : Callable) (command : Text) (w : Worker) where
  -- The elevator that is found, if it is a plugin and says yes.
  abbrev pub Elevates : Option Callable → Type 0
  Elevates found =
      (a : Callable) × (p : Plugin) × (found ≡ some a)
      × (a.plugin ≡ some p)
      × (sv.call_task a.task.name (codes "_elevate")
            (immed_string (elevation_required t command).1 ∷ [])
          ≡ success)

  abbrev elevator : Option Callable
  elevator = task_by_name cfg (elevator_name cfg t.task)

  -- What a check that succeeds needs: the elevator's consent, which the worker keeps.
  abbrev Rightly : Option (Outcome × Worker) → Type 0
  Rightly r =
      (w' : Worker)
      → elevated_as r ≡ some (success, true, w')
      → Elevates elevator × (w'.elevated ≡ true)

  said-Rightly :
      (a : Callable) (p : Plugin) (r : TaskRetVal)
      → elevator ≡ some a
      → a.plugin ≡ some p
      → sv.call_task a.task.name
          (codes "_elevate")
          (immed_string (elevation_required t command).1 ∷ [])
        ≡ r
      → Rightly (some (elev_outcome r, record w { elevated = is_success r }))
  unfolding kept
  said-Rightly a p success found h said w' e = ((a, p, found, h, said), sym (ap kept e))
  said-Rightly a p normal found h said w' e = absurd (cc)
  said-Rightly a p fail found h said w' e = absurd (cc)
  said-Rightly a p mechanism_fail found h said w' e = absurd (cc)
  said-Rightly a p configuration_error found h said w' e = absurd (cc)
  said-Rightly a p pipeline_aborted found h said w' e = absurd (cc)
  said-Rightly a p robot_stopping found h said w' e = absurd (cc)
  said-Rightly a p not_found found h said w' e = absurd (cc)

  ask-Rightly :
      (a : Callable) (o : Option Plugin)
      → elevator ≡ some a
      → a.plugin ≡ o
      → Rightly (ask_elevator sv (elevation_required t command).1 w a.task o)
  ask-Rightly a none found h w' e = absurd (cc)
  ask-Rightly a (some p) found h w' e = said-Rightly a p _ found h refl w' e

  call-Rightly :
      (found : Option Callable)
      → elevator ≡ found
      → Rightly (call_elevator sv (elevation_required t command).1 w found)
  call-Rightly none found w' e = absurd (cc)
  call-Rightly (some a) found w' e = ask-Rightly a a.plugin found refl w' e

  -- A check of a command that requires elevation succeeds only if the elevator, the task's own or
  -- else the default one, is a plugin whose `_elevate` said Success, told whether to ask at once;
  -- and the worker is then elevated.
  pub check_elevation-success :
      (w' : Worker)
      → (elevation_required t command).0 ≡ true
      → check_elevation sv cfg t command w ≡ some (success, true, w')
      → Elevates elevator × (w'.elevated ≡ true)
  unfolding check_elevation elevate
  check_elevation-success w' required e =
      if_cases Rightly (is_empty t.task.elevator && is_empty cfg.default_elevator) _ _
        (λ _ w'' f. absurd (cc)) (λ _. call-Rightly elevator refl) w'
        (sym (if_true (elevation_required t command).0 _ _ required) ∙ e)
