-- ===== src/Mount.antt =====
-- cli/http_mount.cpp: the routes of the host, behind those of the router.
pub mod Routes
pub mod Tokens
mod Tests
use droidcli.Common.{Bytes}

-- The operations of the host that a request can reach, with what they are given.
pub data HostCall : Type 0 where
  build_status_json_route : HostCall
  build_network_status_json_route : HostCall
  build_config_json_route : HostCall
  update_config_route : Bytes → HostCall
  build_notify_log_json_route : HostCall
  build_app_log_json_route : HostCall
  build_ollama_status_json_route : HostCall
  update_ollama_config_route : Bytes → HostCall
  ollama_setup_status_json_route : HostCall
  install_ollama_route : HostCall
  start_ollama_route : HostCall
  pull_ollama_model_route : Bytes → HostCall
  build_process_status_json_route : HostCall
  run_command_route : Bytes → HostCall
  run_ffmpeg_json_route : Bytes → HostCall
  open_application_route : Bytes → HostCall
  find_applications_json_route : Bytes → HostCall
  list_open_windows_json_route : HostCall
  read_file_route : Bytes → HostCall
  write_file_route : Bytes → HostCall
  list_dir_route : Bytes → HostCall
  stat_path_route : Bytes → HostCall
  get_cwd_json_route : HostCall
  which_executable_json_route : Bytes → HostCall
  copy_file_json_route : Bytes → HostCall
  move_path_json_route : Bytes → HostCall
  delete_file_json_route : Bytes → HostCall
  create_directory_json_route : Bytes → HostCall
  read_clipboard_json_route : HostCall
  write_clipboard_json_route : Bytes → HostCall
  build_system_info_json_route : HostCall
  build_hardware_info_json_route : HostCall
  build_agent_tools_json_route : HostCall
  build_self_status_json_route : HostCall
  agent_turn_route : Bytes → HostCall
  agent_tool_decision_route : Bytes → HostCall
  record_command_fix_json_route : Bytes → HostCall
  search_command_fixes_json_route : Bytes → HostCall
  remember_location_json_route : Bytes → HostCall
  list_known_locations_json_route : HostCall
  build_agent_history_json_route : Bytes → HostCall
  build_agent_sessions_json_route : HostCall
  delete_agent_session_json_route : Bytes → HostCall
  list_connectors_json_route : HostCall
  register_connector_route : Bytes → HostCall
  list_tasks_json_route : HostCall
  enqueue_task_route : Bytes → HostCall
  connector_status_json_route : Bytes → HostCall
  launch_connector_route : Bytes → HostCall
  stop_connector_route : Bytes → HostCall
  call_connector_route : Bytes → Bytes → Bytes → Bytes → HostCall
  task_status_json_route : Bytes → HostCall
  cancel_task_json_route : Bytes → HostCall
