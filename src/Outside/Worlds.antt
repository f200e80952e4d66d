-- ===== src/Outside/Worlds.antt =====
-- Concrete answers from the outside, for the examples of the other modules.
use portainer_agent.Base.{pos, negsuc, true, false, none, some, [], ◌∷◌, codes}
use portainer_agent.Agent.{EdgeStackConfig, PollStatusResponse, Schedule, EdgeStackData}
use portainer_agent.Outside.{
  Outside, Call, Calls, Error, get_edge_stack_config, deployer_pull, deployer_remove, new_deployer,
  get_environment_status,
}

abbrev pub config : EdgeStackConfig
config = record {
  name = codes "web";
  file_content = codes "services:";
  registry_credentials = [];
  namespace = [];
  pre_pull_image = true;
  re_pull_image = false;
}

-- The script is "ls" in base64.
abbrev pub backup : Schedule
backup = record {
  id = 4;
  cron_expression = codes "0 3 * * *";
  script = codes "bHM";
  version = 1;
  collect_logs = true;
}

abbrev pub response : PollStatusResponse
response = record {
  status = codes "REQUIRED";
  port = 8000;
  schedules = backup ∷ [];
  checkin_interval = 30;
  credentials = codes "bHM";
  stacks = some (record { id = 7; version = 2 } ∷ []);
  ping_interval = pos 0;
  snapshot_interval = negsuc 0;
  command_interval = pos 0;
  async_commands =
      record { type = codes "edgeJob"; timestamp = 11; operation = codes "add"; value = [] }
      ∷ record { type = codes "volume"; timestamp = 12; operation = []; value = [] }
      ∷ [];
}

abbrev pub stack_data : EdgeStackData
stack_data = record {
  id = 7;
  version = 3;
  name = codes "web";
  stack_file_content = codes "services:";
  registry_credentials = [];
  namespace = [];
  pre_pull_image = false;
  re_pull_image = false;
}

abbrev pub world : (Calls → Call → Error) → Outside
world fails = record {
  fails = fails;
  edge_stack_config = λ _ _. config;
  environment_id = λ _. 1;
  environment_status = λ _. response;
  decrypt = λ text key. some text;
  now = λ _. 5;
  is_absent = λ _ _. false;
  file_content = λ _ _. codes "done";
  add_image_pull_secrets = λ content _. content;
  decode_stack = λ _. (stack_data, none);
  decode_job = λ _. (
    record {
      id = 4;
      collect_logs = true;
      cron_expression = codes "@daily";
      script_file_content = codes "bHM";
      version = 3;
    },
    none,
  );
  decode_log = λ _. (record { edge_stack_id = 7; edge_stack_name = codes "web"; tail = 50 }, none);
  decode_container = λ _. (
    record {
      container_name = codes "web";
      container_start_options = [];
      container_remove_options = [];
      container_operation = codes "stop";
    },
    none,
  );
  decode_image = λ _. (
    record {
      image_name = codes "web";
      image_remove_options = [];
      image_operation = codes "delete";
    },
    none,
  );
  decode_volume = λ _. (
    record { volume_name = codes "data"; force_remove = true; volume_operation = codes "delete" },
    none,
  );
  members = λ _.
      record {
        ip_address = codes "10.0.0.2";
        port = codes "9001";
        node_name = codes "b";
        node_role = codes "worker";
        edge_key_set = false;
      }
      ∷ [];
  member_key = λ _ _. codes "a2V5";
  url_parses = λ _. true;
  filepath_dir = λ path. path;
}

-- Every call succeeds.
abbrev pub quiet : Outside
quiet = world (λ _ _. none)

abbrev refusal : Call → Error
refusal (get_edge_stack_config id) = some (codes "503")
refusal (get_environment_status flags) = some (codes "503")
refusal (deployer_pull name file) = some (codes "no such image")
refusal (deployer_remove name file) = some (codes "busy")
refusal (new_deployer d) = some (codes "no binary")
refusal _ = none

-- The server does not answer and the deployers do not work.
abbrev pub refusing : Outside
refusing = world (λ _ c. refusal c)
