-- ===== src/Manager.antt =====
-- edge/edge.go: the Edge manager in the sync mode, which starts the Edge services and turns the
-- polls and the deployments on and off as the runtime configuration changes.
pub mod Engines
pub mod Runtime
pub mod Background
pub mod Examples
use portainer_agent.Base.{
  ℕ, ◌==◌, Bool, true, false, not, ◌&&◌, ◌||◌, Option, none, some, List, [], ◌∷◌, ◌++◌, Str, codes,
  if◌then◌else◌, ℤ,
}
use portainer_agent.Cluster.{EngineStatus, unset_status, standalone, swarm, RuntimeConfiguration}
use portainer_agent.Key.{EdgeKey}
use portainer_agent.Outside.{Outside, Error}
use portainer_agent.Tunnel.{Client, new_client}
use portainer_agent.Scheduler.{CronManager}
use portainer_agent.Stack.{StackManager, EngineType, no_engine, docker_standalone, docker_swarm}
use portainer_agent.Stack.Lifecycle.{new_stack_manager, start, stop, set_engine_status}
use portainer_agent.Poll.{PollService, with_stacks}
use portainer_agent.Poll.Loop.{
  StatusLoop, begin, LoopEvent, tick, start_signal, stop_signal, loop_step,
}
use portainer_agent.Server.AsyncClient.{
  ContainerPlatform, platform_docker, platform_kubernetes, platform_podman, platform_nomad,
}

-- The manager after Start. `watches` says that the background goroutine runs.
pub record EdgeManager : Type 0 where
  pub container_platform : ContainerPlatform
  pub loop : StatusLoop
  pub watches : Bool

-- pollService.Start and pollService.Stop: the loop receives the signal.
unfoldable pub signal : Outside → LoopEvent → EdgeManager → EdgeManager
signal out e m = record m { loop = loop_step out e m.loop }

unfoldable pub stacks_done : EdgeManager → PollService × Error → EdgeManager × Error
stacks_done m (s, e) = (record m { loop = record m.loop { service = s } }, e)

-- An operation of the stack manager.
unfoldable pub on_stacks : (StackManager → StackManager × Error) → EdgeManager → EdgeManager × Error
on_stacks f m = stacks_done m (with_stacks f m.loop.service)

-- The rest of a function after a call that may fail.
unfoldable pub and_then :
    (EdgeManager → EdgeManager × Error) → EdgeManager × Error → EdgeManager × Error
and_then f (m, none) = f m
and_then f (m, some e) = (m, some e)

unfoldable pub start_stacks : EdgeManager → EdgeManager × Error
start_stacks = on_stacks (λ stacks. (start stacks, none))

unfoldable pub stop_stacks : EdgeManager → EdgeManager × Error
stop_stacks = on_stacks (λ stacks. (stop stacks, none))

-- An engine is set, and the deployments are started.
unfoldable pub start_engine : Outside → EngineType → EdgeManager → EdgeManager × Error
start_engine out wanted m = and_then start_stacks (on_stacks (set_engine_status out wanted) m)

unfoldable pub runs_on_swarm : EngineStatus → Bool
runs_on_swarm swarm = true
runs_on_swarm standalone = false
runs_on_swarm unset_status = false

-- Whether this agent is the one that polls: it does not run on a swarm, or runs on its leader.
unfoldable pub leads : RuntimeConfiguration → Bool
leads c = not (runs_on_swarm c.engine_status) || c.leader

unfoldable pub engine_of : RuntimeConfiguration → EngineType
engine_of c = if runs_on_swarm c.engine_status then docker_swarm else docker_standalone

-- checkDockerRuntimeConfig, with the configuration that Docker gives, or `none` for an error.
unfoldable pub check_docker_runtime_config :
    Outside → Option RuntimeConfiguration → EdgeManager → EdgeManager × Error
check_docker_runtime_config out none m = (m, some (codes "docker"))
check_docker_runtime_config out (some c) m =
    if leads c
    then start_engine out (engine_of c) (signal out start_signal m)
    else stop_stacks (signal out stop_signal m)

-- The goroutine of Kubernetes and of Nomad returns at an error.
unfoldable pub or_returns : EdgeManager × Error → EdgeManager
or_returns (m, none) = m
or_returns (m, some e) = record m { watches = false }

unfoldable pub engine_tick : Outside → EngineType → EdgeManager → EdgeManager
engine_tick out wanted m = or_returns (start_engine out wanted (signal out start_signal m))

-- A tick of the background goroutine, if it runs.
unfoldable pub platform_tick :
    Outside → Option RuntimeConfiguration → ContainerPlatform → EdgeManager → EdgeManager
platform_tick out info platform_docker m = (check_docker_runtime_config out info m).0
platform_tick out info platform_kubernetes m = engine_tick out EngineType.kubernetes m
platform_tick out info platform_nomad m = engine_tick out EngineType.nomad m
platform_tick out info platform_podman m = m

unfoldable pub background_tick : Outside → Option RuntimeConfiguration → EdgeManager → EdgeManager
background_tick out info m = if m.watches then platform_tick out info m.container_platform m else m

unfoldable pub watching : EdgeManager × Error → EdgeManager × Error
watching (m, none) = (record m { watches = true }, none)
watching (m, some e) = (m, some e)

-- startEdgeBackgroundProcess
unfoldable pub start_background :
    Outside → Option RuntimeConfiguration → ContainerPlatform → EdgeManager → EdgeManager × Error
start_background out info platform_docker m = watching (check_docker_runtime_config out info m)
start_background out info platform_kubernetes m = watching (signal out start_signal m, none)
start_background out info platform_nomad m = watching (signal out start_signal m, none)
start_background out info platform_podman m = (m, none)

-- What happens to a manager that was started: a tick of its background goroutine, at which Docker
-- gives a configuration or an error, or one of its poll ticker.
pub data ManagerEvent : Type 0 where
  background : Option RuntimeConfiguration → ManagerEvent
  poll_ticker : ManagerEvent

unfoldable pub manager_step : Outside → ManagerEvent → EdgeManager → EdgeManager
manager_step out (background info) m = background_tick out info m
manager_step out poll_ticker m = signal out tick m

unfoldable pub manager_run : Outside → List ManagerEvent → EdgeManager → EdgeManager
manager_run out [] m = m
manager_run out (e ∷ es) m = manager_run out es (manager_step out e m)
