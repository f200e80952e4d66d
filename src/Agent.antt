-- ===== src/Agent.antt =====
-- The types of agent.go and edge/client that several parts of the agent share.
use portainer_agent.Base.{ℕ, ℤ, Bool, Option, List, Str}

-- agent.go, ClusterMember
pub record ClusterMember : Type 0 where
  pub ip_address : Str
  pub port : Str
  pub node_name : Str
  pub node_role : Str
  pub edge_key_set : Bool

-- agent.go, RegistryCredentials
pub record RegistryCredentials : Type 0 where
  pub server_url : Str
  pub username : Str
  pub secret : Str

-- agent.go, EdgeStackConfig
pub record EdgeStackConfig : Type 0 where
  pub name : Str
  pub file_content : Str
  pub registry_credentials : List RegistryCredentials
  pub namespace : Str
  pub pre_pull_image : Bool
  pub re_pull_image : Bool

-- agent.go, Schedule
pub record Schedule : Type 0 where
  pub id : ℕ
  pub cron_expression : Str
  pub script : Str
  pub version : ℕ
  pub collect_logs : Bool

-- edge/client/portainer_edge_async_client.go, EdgeStackData
pub record EdgeStackData : Type 0 where
  pub id : ℕ
  pub version : ℕ
  pub name : Str
  pub stack_file_content : Str
  pub registry_credentials : List RegistryCredentials
  pub namespace : Str
  pub pre_pull_image : Bool
  pub re_pull_image : Bool

-- edge/client/interface.go, StackStatus: what a poll response says of a stack. Its other fields
-- are not read.
pub record StackStatus : Type 0 where
  pub id : ℕ
  pub version : ℕ

-- agent.go, TunnelConfig
pub record TunnelConfig : Type 0 where
  pub local_addr : Str
  pub server_addr : Str
  pub server_fingerprint : Str
  pub credentials : Str
  pub remote_port : Str

-- edge/client/portainer_edge_async_client.go, EdgeJobData. Its status of logs is not read.
pub record EdgeJobData : Type 0 where
  pub id : ℕ
  pub collect_logs : Bool
  pub cron_expression : Str
  pub script_file_content : Str
  pub version : ℕ

-- edge/client/portainer_edge_async_client.go, LogCommandData
pub record LogCommandData : Type 0 where
  pub edge_stack_id : ℕ
  pub edge_stack_name : Str
  pub tail : ℕ

-- edge/client/portainer_edge_async_client.go, ContainerCommandData, ImageCommandData and
-- VolumeCommandData. The options of the Docker library are handed over as they are.
pub record ContainerCommandData : Type 0 where
  pub container_name : Str
  pub container_start_options : Str
  pub container_remove_options : Str
  pub container_operation : Str

pub record ImageCommandData : Type 0 where
  pub image_name : Str
  pub image_remove_options : Str
  pub image_operation : Str

pub record VolumeCommandData : Type 0 where
  pub volume_name : Str
  pub force_remove : Bool
  pub volume_operation : Str

-- edge/client/portainer_edge_async_client.go, AsyncCommand: the fields that are read. The value
-- is of the type that the command's type asks for, and is decoded by a library.
pub record AsyncCommand : Type 0 where
  pub type : Str
  pub timestamp : ℕ
  pub operation : Str
  pub value : Str

-- edge/client/interface.go, PollStatusResponse: the fields that a poll reads. The
-- check-in interval is a whole number of seconds; `none` for the stacks is a nil slice.
pub record PollStatusResponse : Type 0 where
  pub status : Str
  pub port : ℕ
  pub schedules : List Schedule
  pub checkin_interval : ℕ
  pub credentials : Str
  pub stacks : Option (List StackStatus)
  pub ping_interval : ℤ
  pub snapshot_interval : ℤ
  pub command_interval : ℤ
  pub async_commands : List AsyncCommand
