-- ===== src/Stack.antt =====
-- edge/stack/stack.go: the data of the Edge stack manager. The operations are in the modules
-- below: Process (what a poll response asks for), Params (the commands of the async mode),
-- Worker (the deployment goroutine) and Lifecycle (start, stop and engine changes).
pub mod Process
pub mod Params
pub mod Worker
pub mod Lifecycle
pub mod Invariant
pub mod WorkerInvariant
pub mod Signals
pub mod Restarts
pub mod Deployments
pub mod Examples
pub mod Commands
pub mod Removals
pub mod Pending
pub mod Updates
pub mod System
pub mod Retries
pub mod Synced
pub mod Sync
use portainer_agent.Base.{ℕ, zero, ◌*◌, Bool, Str, Option, List, [], Assoc}
use portainer_agent.Agent.{RegistryCredentials}
use portainer_agent.Base.Text.{codes}
use portainer_agent.Outside.{Deployer, Calls}

-- edgeStackStatus; `unset` is Go's zero value.
pub data EdgeStackStatus : Type 0 where
  unset pending done error deploying retry : EdgeStackStatus

-- edgeStackAction; `none_yet` is Go's zero value.
pub data EdgeStackAction : Type 0 where
  none_yet deploy update delete idle : EdgeStackAction

-- engineType; `no_engine` is Go's zero value.
pub data EngineType : Type 0 where
  no_engine docker_standalone docker_swarm kubernetes nomad : EngineType

unfoldable pub EngineType-discrete : Discrete EngineType
EngineType-discrete = hlevel

-- edgeStack. Identifiers, versions and counters are not negative.
pub record EdgeStack : Type 0 where
  pub id : ℕ
  pub name : Str
  pub version : ℕ
  pub file_folder : Str
  pub file_name : Str
  pub status : EdgeStackStatus
  pub action : EdgeStackAction
  pub registry_credentials : List RegistryCredentials
  pub namespace : Str
  pub pre_pull_image : Bool
  pub re_pull_image : Bool
  pub retries : ℕ

-- The object that `&edgeStack{ID: id, Action: action, ...}` allocates, all else zero.
abbrev pub new_edge_stack : ℕ → ℕ → EdgeStackStatus → EdgeStack
new_edge_stack id version status = record {
  id = id;
  name = [];
  version = version;
  file_folder = [];
  file_name = [];
  status = status;
  action = deploy;
  registry_credentials = [];
  namespace = [];
  pre_pull_image = Bool.false;
  re_pull_image = Bool.false;
  retries = 0;
}

-- 3600 / 5
abbrev pub retry_interval : ℕ
retry_interval = 720

abbrev pub max_retries : ℕ
max_retries = retry_interval * 24 * 7

-- StackManager, with the channels that it has made and closed: a channel is a number, `next_chan`
-- is the next one that `make` returns, and `closed` holds those that were closed. `workers` counts
-- the deployment goroutines that have not returned. `calls` is the
-- history of the calls to the outside.
pub record StackManager : Type 0 where
  pub engine_type : EngineType
  pub stacks : Assoc EdgeStack
  pub stop_signal : Option ℕ
  pub deployer : Option Deployer
  pub is_enabled : Bool
  pub next_chan : ℕ
  pub closed : List ℕ
  pub workers : ℕ
  pub calls : Calls
