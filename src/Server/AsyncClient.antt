-- ===== src/Server/AsyncClient.antt =====
-- edge/client/portainer_edge_async_client.go: the client of the async mode. It collects what the
-- agent has to report in the next snapshot, and hands it over in one request.
use portainer_agent.Base.{
  ℕ, Bool, true, false, Option, none, some, List, [], Str, Assoc, lookup, insert, ◌++◌, ◌∷◌,
}
use portainer_agent.Agent.{LogCommandData}
use portainer_agent.Outside.{StatusType}

-- agent.go, ContainerPlatform
pub data ContainerPlatform : Type 0 where
  platform_docker platform_kubernetes platform_podman platform_nomad : ContainerPlatform

-- The flags of the server's EdgeStackStatusDetails that the client sets.
pub record Details : Type 0 where
  pub is_ok : Bool
  pub is_error : Bool
  pub is_acknowledged : Bool
  pub is_removed : Bool
  pub is_images_pulled : Bool

abbrev pub no_details : Details
no_details = record {
  is_ok = false;
  is_error = false;
  is_acknowledged = false;
  is_removed = false;
  is_images_pulled = false;
}

-- The server's EdgeStackStatus, with the fields that the client sets.
pub record Status : Type 0 where
  pub details : Details
  pub error : Str
  pub endpoint_id : ℕ

-- Go's zero value, which a map returns for a key that it does not have.
abbrev pub zero_status : Status
zero_status = record { details = no_details; error = []; endpoint_id = 0 }

pub record EndpointLog : Type 0 where
  pub docker_container_id : Str
  pub std_out : Str
  pub std_err : Str

pub record EdgeStackLog : Type 0 where
  pub edge_stack_id : ℕ
  pub logs : List EndpointLog

-- A snapshot of Docker or of Kubernetes is a value of the server's library, a patch one of the
-- jsondiff library; both are taken as texts.
pub record Snapshot : Type 0 where
  pub docker : Option Str
  pub docker_patch : Option Str
  pub docker_hash : Option ℕ
  pub kubernetes : Option Str
  pub kubernetes_patch : Option Str
  pub kubernetes_hash : Option ℕ
  pub stack_logs : List EdgeStackLog
  pub stack_status : Assoc Status
  pub jobs_status : Assoc Str

-- The request's content. A nil map and an empty one are both left out of it.
pub record AsyncRequest : Type 0 where
  pub command_timestamp : Option ℕ
  pub snapshot : Option Snapshot
  pub endpoint_id : ℕ

-- PortainerAsyncClient, with the identifier that its two functions on the endpoint's identifier
-- read and write. `last_*` are the fields of lastSnapshot, `next_*` those of nextSnapshot, which
-- has no others in use. `sent` are the requests so far, newest first.
pub record AsyncClient : Type 0 where
  pub platform : ContainerPlatform
  pub endpoint_id : ℕ
  pub command_timestamp : ℕ
  pub last_docker : Option Str
  pub last_kubernetes : Option Str
  pub last_stack_status : Assoc Status
  pub next_stack_status : Assoc Status
  pub next_jobs_status : Assoc Str
  pub snapshot_retried : Bool
  pub stack_log_collection_queue : List LogCommandData
  pub sent : List AsyncRequest

-- The status that a report works on: the one that waits to be sent, or the last one sent.
unfoldable pub status_or_last : AsyncClient → ℕ → Option Status → Status
status_or_last c id (some status) = status
status_or_last c id none = elim (lookup id c.last_stack_status) [
  | some status ↦ status
  | none ↦ zero_status
]

unfoldable pub current_status : AsyncClient → ℕ → Status
current_status c id = status_or_last c id (lookup id c.next_stack_status)

unfoldable pub set_details : StatusType → Details → Details
set_details StatusType.ok d = record d { is_ok = true }
set_details StatusType.failed d = record d { is_error = true }
set_details StatusType.acknowledged d = record no_details { is_acknowledged = true }
set_details StatusType.removed d = record d { is_removed = true }
set_details StatusType.images_pulled d = record d { is_images_pulled = true }

unfoldable pub reported : AsyncClient → StatusType → Str → Status → Status
reported c type message status = record {
  details = set_details type status.details;
  error = message;
  endpoint_id = c.endpoint_id;
}

-- SetEdgeStackStatus and the other reports always return nil.
unfoldable pub set_edge_stack_status : ℕ → StatusType → Str → AsyncClient → AsyncClient
set_edge_stack_status id type message c = record c {
  next_stack_status = insert id (reported c type message (current_status c id)) c.next_stack_status;
}

unfoldable pub set_edge_job_status : ℕ → Str → AsyncClient → AsyncClient
set_edge_job_status id content c = record c {
  next_jobs_status = insert id content c.next_jobs_status;
}

unfoldable pub set_last_command_timestamp : ℕ → AsyncClient → AsyncClient
set_last_command_timestamp timestamp c = record c { command_timestamp = timestamp }

unfoldable pub enqueue_log_collection_for_stack : LogCommandData → AsyncClient → AsyncClient
enqueue_log_collection_for_stack d c = record c {
  stack_log_collection_queue = c.stack_log_collection_queue ++ d ∷ [];
}

-- NewPortainerAsyncClient: the first time stamp is a constant of the code, `epoch` here.
unfoldable pub new_async_client : ContainerPlatform → ℕ → ℕ → AsyncClient
new_async_client platform endpoint_id epoch = record {
  platform = platform;
  endpoint_id = endpoint_id;
  command_timestamp = epoch;
  last_docker = none;
  last_kubernetes = none;
  last_stack_status = [];
  next_stack_status = [];
  next_jobs_status = [];
  snapshot_retried = false;
  stack_log_collection_queue = [];
  sent = [];
}
