-- ===== src/Outside.antt =====
-- What the agent calls and does not implement: the Portainer server behind
-- edge/client, the deployers of exec and nomad, and the operating system. Each such call is a
-- value of `Call`. The state of a component keeps the calls made so far, newest first, and the
-- answers are functions of that history, so that the same call may be answered differently later.
pub mod Worlds
use portainer_agent.Base.{
  ℕ, Str, Bool, true, false, not, Option, none, some, List, ◌∷◌, is_some, if◌then◌else◌,
}
use portainer_agent.Agent.{
  ClusterMember, RegistryCredentials, EdgeStackConfig, TunnelConfig, PollStatusResponse,
  EdgeStackData, EdgeJobData, LogCommandData, ContainerCommandData, ImageCommandData,
  VolumeCommandData,
}

-- The constants of the server's API that the agent reports.
pub data StatusType : Type 0 where
  ok failed acknowledged removed images_pulled : StatusType

-- The deployers that `buildDeployerService` chooses from.
pub data Deployer : Type 0 where
  compose swarm kubernetes nomad : Deployer

pub data Call : Type 0 where
  get_edge_stack_config : ℕ → Call
  set_edge_stack_status : ℕ → StatusType → Str → Call
  delete_edge_stack_status : ℕ → Call
  new_deployer : Deployer → Call
  deployer_pull : Str → Str → Call
  deployer_deploy : Str → Str → Str → Call
  deployer_remove : Str → Str → Call
  mkdir_all : Str → Call
  os_write_file : Str → Str → Str → ℕ → Call
  os_remove : Str → Call
  os_remove_all : Str → Call
  os_stat : Str → Call
  os_read_file : Str → Call
  set_edge_job_status : ℕ → Str → Call
  get_environment_id : Call
  get_environment_status : List Str → Call
  set_timeout : ℕ → Call
  new_tunnel_client : TunnelConfig → Call
  start_tunnel_client : Call
  close_tunnel_client : Call
  set_last_command_timestamp : ℕ → Call
  enqueue_log_collection : LogCommandData → Call
  container_start : Str → Str → Call
  container_restart : Str → Call
  container_stop : Str → Call
  container_remove : Str → Str → Call
  container_kill : Str → Str → Call
  image_remove : Str → Str → Call
  volume_remove : Str → Bool → Call
  set_tags : Bool → Call
  get_edge_key : Str → Call
  set_edge_key : Str → Str → Call

abbrev pub Calls : Type 0
Calls = List Call

-- Go's `error`: nil, or a message.
abbrev pub Error : Type 0
Error = Option Str

pub record Outside : Type 0 where
  -- Whether a call fails, after the calls made before it.
  pub fails : Calls → Call → Error
  -- What `GetEdgeStackConfig` returns beside a nil error.
  pub edge_stack_config : Calls → ℕ → EdgeStackConfig
  -- What `GetEnvironmentID` and `GetEnvironmentStatus` return beside a nil error.
  pub environment_id : Calls → ℕ
  pub environment_status : Calls → PollStatusResponse
  -- `libcrypto.Decrypt`: the ciphertext and the passphrase to the text, or an error.
  pub decrypt : Str → Str → Option Str
  -- `time.Now()`, in nanoseconds.
  pub now : Calls → ℕ
  -- The content that `AddImagePullSecrets` of edge/yaml/yaml.go returns.
  pub add_image_pull_secrets : Str → List RegistryCredentials → Str
  -- Whether `os.Stat` fails for the reason that the file does not exist.
  pub is_absent : Calls → Str → Bool
  -- What `os.ReadFile` returns beside a nil error.
  pub file_content : Calls → Str → Str
  -- `mapstructure.Decode` of the value of a command, to each of the types it is decoded to.
  pub decode_stack : Str → EdgeStackData × Error
  pub decode_job : Str → EdgeJobData × Error
  pub decode_log : Str → LogCommandData × Error
  pub decode_container : Str → ContainerCommandData × Error
  pub decode_image : Str → ImageCommandData × Error
  pub decode_volume : Str → VolumeCommandData × Error
  -- The members of the cluster that are alive, as `Members` of serf/cluster.go returns them.
  pub members : Calls → List ClusterMember
  -- What `GetEdgeKey` of edge/client/client.go returns beside a nil error.
  pub member_key : Calls → Str → Str
  -- Whether `url.Parse` returns a URL, and not nil with an error.
  pub url_parses : Str → Bool
  -- `filepath.Dir`
  pub filepath_dir : Str → Str

-- Makes a call that returns an error only.
abbrev pub perform : Outside → Call → Calls → Calls × Error
perform out c calls = (c ∷ calls, out.fails calls c)

-- filesystem.go, WriteFile: the folder, then the file in it, with its mode.
unfoldable pub wrote_folder : Outside → Str → Str → Str → ℕ → Calls → Error → Calls × Error
wrote_folder out folder file_name content mode calls (some e) = (calls, some e)
wrote_folder out folder file_name content mode calls none =
    perform out (os_write_file folder file_name content mode) calls

unfoldable pub write_file : Outside → Str → Str → Str → ℕ → Calls → Calls × Error
unfolding wrote_folder
write_file out folder file_name content mode calls =
    let (calls', e) = perform out (mkdir_all folder) calls in
    wrote_folder out folder file_name content mode calls' e

-- filesystem.go, FileExists: an error that says that the file is not there is no error.
unfoldable pub file_exists : Outside → Str → Calls → Calls × Error × Bool
file_exists out path calls = (
  os_stat path ∷ calls,
  (if out.is_absent calls path then none else out.fails calls (os_stat path)),
  (if out.is_absent calls path then false else not (is_some (out.fails calls (os_stat path)))),
)

-- filesystem.go, ReadFromFile
unfoldable pub read_from_file : Outside → Str → Calls → Calls × Error × Str
read_from_file out path calls =
    (os_read_file path ∷ calls, out.fails calls (os_read_file path), out.file_content calls path)
