-- ===== src/RetVal.antt =====
-- robot/robot_constants.go: the error codes that the robot's methods return.

pub data RetVal : Type 0 where
  ok user_not_found channel_not_found attribute_not_found failed_message_send : RetVal
  failed_channel_join datum_not_found datum_lock_expired data_format_error brain_failed : RetVal
  invalid_datum_key invalid_config_pointer config_unmarshal_error no_config_found : RetVal
  retry_prompt reply_not_matched use_default_value timeout_expired interrupted : RetVal
  matcher_not_found no_user_email no_bot_email mail_error task_not_found : RetVal
  missing_arguments invalid_stage invalid_task_type command_not_matched task_disabled : RetVal
  privilege_violation identity_provider_not_found identity_not_linked : RetVal
  identity_reauth_required identity_refresh_failed identity_invalid_link_request : RetVal
  identity_config_error failed : RetVal
