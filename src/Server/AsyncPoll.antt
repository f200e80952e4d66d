-- ===== src/Server/AsyncPoll.antt =====
-- GetEnvironmentStatus of edge/client/portainer_edge_async_client.go, in the two halves between
-- which the server is waited for: `prepare` makes the request, and `finish` takes the answer.
pub mod Merging
pub mod Reports
pub mod Outcome
pub mod Bounds
pub mod Statuses
pub mod Places
pub mod Delivery
pub mod Waiting
use portainer_agent.Base.{
  ℕ, zero, suc, Bool, true, false, not, ◌&&◌, ◌||◌, Option, none, some, List, [], ◌∷◌, ◌++◌, Str,
  codes, itoa, str_eq, any, Assoc, insert, is_some, ◌≡◌, if◌then◌else◌,
}
use portainer_agent.Agent.{AsyncCommand, LogCommandData}
use portainer_agent.Outside.{Error}
use portainer_agent.Server.AsyncClient.{
  ContainerPlatform, platform_docker, platform_kubernetes, platform_podman, platform_nomad, Status,
  EndpointLog, EdgeStackLog, Snapshot, AsyncRequest, AsyncClient,
}

-- What the client decodes from an answer.
pub record AsyncResponse : Type 0 where
  pub endpoint_id : ℕ
  pub commands : List AsyncCommand
  pub need_full_snapshot : Bool

-- The libraries that the client calls, at a point of the history of requests.
pub record Libraries : Type 0 where
  -- docker.CreateSnapshot, with its lists sorted as optimizeDockerSnapshot does it, and
  -- kubernetes.CreateSnapshot: `none` is nil, with an error.
  pub docker_snapshot : List AsyncRequest → Option Str
  pub kubernetes_snapshot : List AsyncRequest → Option Str
  -- snapshotHash: `none` if the snapshot cannot be encoded.
  pub snapshot_hash : Str → Option ℕ
  -- jsondiff.Compare: `none` is an error.
  pub compare : Option Str → Option Str → Option Str
  -- The identifiers of the containers with a label, or `none` for an error.
  pub containers_with_label : List AsyncRequest → Str → Option (List Str)
  -- The two outputs of a container, or `none` for an error.
  pub container_logs : List AsyncRequest → Str → Str → Option (Str × Str)
  -- executeAsyncRequest: the answer to the newest request of a history, or an error.
  pub answer : List AsyncRequest → Option AsyncResponse

-- The snapshot of the engine, and the reports that wait.
abbrev pub base_snapshot : AsyncClient → Snapshot
base_snapshot c = record {
  docker = none;
  docker_patch = none;
  docker_hash = none;
  kubernetes = none;
  kubernetes_patch = none;
  kubernetes_hash = none;
  stack_logs = [];
  stack_status = c.next_stack_status;
  jobs_status = c.next_jobs_status;
}

-- The request's snapshot with those of Docker and Kubernetes to remember, or a panic.
pub data Prepared : Type 0 where
  panics : Prepared
  ready : Snapshot → Option Str → Option Str → Prepared

unfoldable pub request_of : Bool → Option Snapshot → AsyncClient → AsyncRequest
request_of command snapshot c = record {
  command_timestamp = if command then some c.command_timestamp else none;
  snapshot = snapshot;
  endpoint_id = c.endpoint_id;
}

unfoldable pub send : AsyncRequest → AsyncClient → AsyncClient
send request c = record c { sent = request ∷ c.sent }

module _ (lib : Libraries) where
  unfoldable pub log_of : Str → Option (Str × Str) → List EndpointLog
  log_of id none = []
  log_of id (some (out, err)) =
      record { docker_container_id = id; std_out = out; std_err = err } ∷ []

  unfoldable pub container_logs_of : List AsyncRequest → ℕ → List Str → List EndpointLog
  container_logs_of sent tail [] = []
  container_logs_of sent tail (id ∷ ids) =
      log_of id (lib.container_logs sent id (itoa tail)) ++ container_logs_of sent tail ids

  unfoldable pub stack_log_of : LogCommandData → List EndpointLog → List EdgeStackLog
  stack_log_of stack [] = []
  stack_log_of stack (l ∷ logs) =
      record { edge_stack_id = stack.edge_stack_id; logs = l ∷ logs } ∷ []

  unfoldable pub containers_found :
      List AsyncRequest → LogCommandData → Option (List Str) → Option (List Str) → List EdgeStackLog
  containers_found sent stack (some cs) (some cs') =
      stack_log_of stack (container_logs_of sent stack.tail (cs ++ cs'))
  containers_found sent stack _ _ = []

  unfoldable pub collect_stack_logs : List AsyncRequest → List LogCommandData → List EdgeStackLog
  collect_stack_logs sent [] = []
  collect_stack_logs sent (stack ∷ stacks) =
      containers_found sent stack
        (lib.containers_with_label sent
          (codes "com.docker.compose.project=edge_" ++ stack.edge_stack_name))
        (lib.containers_with_label sent
          (codes "com.docker.stack.namespace=edge_" ++ stack.edge_stack_name))
      ++ collect_stack_logs sent stacks

  -- A patch replaces the snapshot when there is one to compare with, and no full snapshot is due.
  unfoldable pub patched : Option ℕ → Option Str → Snapshot → Snapshot
  patched (some hash) (some patch) s = record s {
    docker = none;
    docker_patch = some patch;
    docker_hash = some hash;
  }
  patched _ _ s = s

  unfoldable pub docker_patched : Bool → Option Str → Str → Snapshot → Snapshot
  docker_patched retried none current s = s
  docker_patched retried (some last) current s =
      if retried
      then s
      else patched (lib.snapshot_hash last) (lib.compare (some last) (some current)) s

  -- The patch of a Kubernetes snapshot is made against the last Docker snapshot, and reset at once.
  unfoldable pub kubernetes_hashed : Option ℕ → Option Str → Snapshot → Snapshot
  kubernetes_hashed (some hash) (some patch) s = record s {
    kubernetes_patch = none;
    kubernetes_hash = some hash;
  }
  kubernetes_hashed _ _ s = s

  unfoldable pub kubernetes_patched :
      Bool → Option Str → Option Str → Option Str → Snapshot → Snapshot
  kubernetes_patched retried none last_docker current s = s
  kubernetes_patched retried (some last) last_docker current s =
      if retried
      then s
      else kubernetes_hashed (lib.snapshot_hash last) (lib.compare last_docker current) s

  -- optimizeDockerSnapshot reads the fields of the Docker snapshot, also if that is nil.
  unfoldable pub docker_prepared : AsyncClient → Option Str → Prepared
  docker_prepared c none = panics
  docker_prepared c (some current) =
      ready
        (docker_patched c.snapshot_retried c.last_docker current (record (base_snapshot c) {
          docker = some current;
          stack_logs = collect_stack_logs c.sent c.stack_log_collection_queue;
        }))
        (some current) none

  unfoldable pub kubernetes_prepared : AsyncClient → Option Str → Prepared
  kubernetes_prepared c current =
      ready
        (kubernetes_patched c.snapshot_retried c.last_kubernetes c.last_docker current
          (record (base_snapshot c) { kubernetes = current }))
        none current

  unfoldable pub prepare_snapshot : AsyncClient → ContainerPlatform → Prepared
  prepare_snapshot c platform_docker = docker_prepared c (lib.docker_snapshot c.sent)
  prepare_snapshot c platform_kubernetes = kubernetes_prepared c (lib.kubernetes_snapshot c.sent)
  prepare_snapshot c _ = ready (base_snapshot c) none none

-- The statuses that were sent, over those that were sent before.
unfoldable pub merge : Assoc Status → Assoc Status → Assoc Status
merge last [] = last
merge last ((id, status) ∷ next) = insert id status (merge last next)

-- The reports of the next snapshot are taken for sent.
unfoldable pub snapshot_sent : Option Str → Option Str → AsyncClient → AsyncClient
snapshot_sent docker kubernetes c = record c {
  snapshot_retried = false;
  last_docker = docker;
  last_kubernetes = kubernetes;
  last_stack_status = merge c.last_stack_status c.next_stack_status;
  next_stack_status = [];
  next_jobs_status = [];
  stack_log_collection_queue = [];
}

-- How an attempt ends: with a panic, an error, an answer, or with another attempt to be made.
pub data Attempt : Type 0 where
  panicked failed again : Attempt
  answered : AsyncResponse → Attempt

unfoldable pub finish_snapshot :
    Option Str → Option Str → AsyncResponse → AsyncClient → AsyncClient × Attempt
finish_snapshot docker kubernetes r c =
    if r.need_full_snapshot && not c.snapshot_retried
    then (record c { snapshot_retried = true }, again)
    else (record (snapshot_sent docker kubernetes c) { endpoint_id = r.endpoint_id }, answered r)

module _ (lib : Libraries) where
  unfoldable pub snapshot_answered :
      Option Str → Option Str → AsyncClient → Option AsyncResponse → AsyncClient × Attempt
  snapshot_answered docker kubernetes c none = (c, failed)
  snapshot_answered docker kubernetes c (some r) = finish_snapshot docker kubernetes r c

  unfoldable pub snapshot_prepared : Bool → AsyncClient → Prepared → AsyncClient × Attempt
  snapshot_prepared command c panics = (c, panicked)
  snapshot_prepared command c (ready snapshot docker kubernetes) =
      let c' = send (request_of command (some snapshot) c) c in
      snapshot_answered docker kubernetes c' (lib.answer c'.sent)

  unfoldable pub command_answered : AsyncClient → Option AsyncResponse → AsyncClient × Attempt
  command_answered c none = (c, failed)
  command_answered c (some r) = (record c { endpoint_id = r.endpoint_id }, answered r)

  unfoldable pub attempt : Bool → Bool → AsyncClient → AsyncClient × Attempt
  attempt true command c = snapshot_prepared command c (prepare_snapshot lib c c.platform)
  attempt false command c =
      let c' = send (request_of command none c) c in command_answered c' (lib.answer c'.sent)

  -- A retry asks for the snapshot only.
  unfoldable pub retry :
      (AsyncClient → AsyncClient × Attempt) → AsyncClient × Attempt → AsyncClient × Attempt
  retry f (c, again) = f c
  retry f (c, panicked) = (c, panicked)
  retry f (c, failed) = (c, failed)
  retry f (c, answered r) = (c, answered r)

  unfoldable pub attempts : ℕ → Bool → Bool → AsyncClient → AsyncClient × Attempt
  attempts zero snapshot command c = (c, again)
  attempts (suc fuel) snapshot command c =
      retry (attempts fuel true false) (attempt snapshot command c)

  -- Two attempts are enough. The flags are looked for in the list.
  unfoldable pub get_environment_status : List Str → AsyncClient → AsyncClient × Attempt
  get_environment_status flags c =
      attempts 2 (any (λ f. str_eq f (codes "snapshot")) flags)
        (any (λ f. str_eq f (codes "command")) flags) c
