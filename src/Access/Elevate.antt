-- ===== src/Access/Elevate.antt =====
-- bot/elevate.go: whether a privileged command may run. A call that panics gives `none`: `getTask`
-- asserts that what it gets is a task, and nil is not.
pub mod Privilege
use gopherbot.Prelude.{
  ◌≡◌, Bool, true, false, ◌&&◌, Option, none, some, List, [], ◌∷◌, if◌then◌else◌,
}
use gopherbot.Prelude.Bytes.{codes}
use gopherbot.TaskRetVal.{TaskRetVal, normal, fail, mechanism_fail, configuration_error, success}
use gopherbot.Access.{
  Text, is_empty, is_listed, Task, Plugin, Callable, Config, Worker, Services, task_by_name, is_set,
  Reply, config_elev_error, technical_elev_error, requires_elevation, Emitted,
  elev_no_run_misconfigured, elev_ran_success, elev_ran_fail, elev_ran_mechanism_failed,
  elev_ran_fail_normal, elev_ran_fail_other, elev_no_run_not_found, Outcome,
}
use gopherbot.Access.Authorize.{is_success}

abbrev pub elev_outcome : TaskRetVal → Outcome
elev_outcome success = record { ret = success; said = none; emitted = some elev_ran_success }
elev_outcome fail = record {
  ret = fail;
  said = some requires_elevation;
  emitted = some elev_ran_fail;
}
elev_outcome mechanism_fail = record {
  ret = mechanism_fail;
  said = some technical_elev_error;
  emitted = some elev_ran_mechanism_failed;
}
elev_outcome normal = record {
  ret = mechanism_fail;
  said = some technical_elev_error;
  emitted = some elev_ran_fail_normal;
}
elev_outcome _ = record {
  ret = mechanism_fail;
  said = some technical_elev_error;
  emitted = some elev_ran_fail_other;
}

abbrev pub elevator_name : Config → Task → Text
elevator_name cfg task = if is_empty task.elevator then cfg.default_elevator else task.elevator

abbrev pub immed_string : Bool → Text
immed_string true = codes "true"
immed_string false = codes "false"

abbrev pub ask_elevator :
    Services → Bool → Worker → Task → Option Plugin → Option (Outcome × Worker)
ask_elevator sv immediate w asked none = some (
  record {
    ret = configuration_error;
    said = some technical_elev_error;
    emitted = some elev_no_run_not_found;
  },
  w,
)
ask_elevator sv immediate w asked (some p) =
    let ret = sv.call_task asked.name (codes "_elevate") (immed_string immediate ∷ []) in
    some (elev_outcome ret, record w { elevated = is_success ret })

abbrev pub call_elevator : Services → Bool → Worker → Option Callable → Option (Outcome × Worker)
call_elevator sv immediate w none = none
call_elevator sv immediate w (some t) = ask_elevator sv immediate w t.task t.plugin

-- The outcome, and the worker with what it keeps of the elevation.
unfoldable pub elevate : Services → Config → Task → Bool → Worker → Option (Outcome × Worker)
elevate sv cfg task immediate w =
    if is_empty task.elevator && is_empty cfg.default_elevator
    then some (
      record {
        ret = configuration_error;
        said = some config_elev_error;
        emitted = some elev_no_run_misconfigured;
      },
      w,
    )
    else call_elevator sv immediate w (task_by_name cfg (elevator_name cfg task))

-- Whether elevation is required, and whether it is to be asked for at once.
unfoldable pub elevation_required : Callable → Text → Bool × Bool
elevation_required t command = elim t.plugin [
  | none ↦ (is_set t.task.elevator, false)
  | some p ↦
      if is_listed command p.elevate_immediate_commands
      then (true, true)
      else (is_listed command p.elevated_commands, false)
]

abbrev pub elevated_as : Option (Outcome × Worker) → Option (TaskRetVal × Bool × Worker)
elevated_as none = none
elevated_as (some (o, w)) = some (if is_success o.ret then success else fail, true, w)

-- The result, whether elevation was required, and the worker.
unfoldable pub check_elevation :
    Services → Config → Callable → Text → Worker → Option (TaskRetVal × Bool × Worker)
unfolding elevate elevation_required
check_elevation sv cfg t command w =
    let (required, immediate) = elevation_required t command in
    if required then elevated_as (elevate sv cfg t.task immediate w) else some (success, false, w)
