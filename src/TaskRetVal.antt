-- ===== src/TaskRetVal.antt =====
-- robot/robot_constants.go: the results of tasks, plugins and jobs.
pub data TaskRetVal : Type 0 where
  normal : TaskRetVal
  fail : TaskRetVal
  mechanism_fail : TaskRetVal
  configuration_error : TaskRetVal
  pipeline_aborted : TaskRetVal
  robot_stopping : TaskRetVal
  not_found : TaskRetVal
  success : TaskRetVal
