-- ===== src/Manager/Runtime.antt =====
-- What a check of the runtime configuration leaves on and off.
use portainer_agent.Base.{◌≡◌, ◌≢◌, true, false, none, some, Str, arith}
use portainer_agent.Cluster.{EngineStatus, RuntimeConfiguration}
use portainer_agent.Outside.{Outside, Error, Deployer, compose}
use portainer_agent.Stack.{StackManager, EngineType, docker_standalone, docker_swarm}
use portainer_agent.Stack.Lifecycle.{
  stop, stop_found, set_engine_status, switch_engine, deployer_built,
}
use portainer_agent.Manager.{EdgeManager}
use portainer_agent.Manager.Engines.{stacks_of, IsConsistent, HasDeployer}

-- Polls are made, and the stacks are deployed by the deployer of the engine.
pub record IsOn (wanted : EngineType) (d : Deployer) (before : StackManager) (m : EdgeManager)
    : Type 0 where
  pub polls : m.loop.listens ≡ true
  pub deploys : (stacks_of m).is_enabled ≡ true
  pub by_engine : (stacks_of m).engine_type ≡ wanted
  pub by_deployer : HasDeployer wanted d before (stacks_of m)
  pub consistent : IsConsistent (stacks_of m)

-- No poll is made, and no stack is deployed.
pub record IsOff (m : EdgeManager) : Type 0 where
  pub polls : m.loop.listens ≡ false
  pub deploys : (stacks_of m).is_enabled ≡ false
  pub consistent : IsConsistent (stacks_of m)

-- With or without an error, the loop listens once an engine was to be started.
record Started (wanted : EngineType) (d : Deployer) (before : StackManager)
    (o : EdgeManager × Error) : Type 0 where
  polls : o.0.loop.listens ≡ true
  consistent : IsConsistent (stacks_of o.0)
  on : o.1 ≡ none → IsOn wanted d before o.0

module _ (out : Outside) where
  -- The agent polls, and deploys with an engine and its deployer: it is not on a swarm, or it is on
  -- one and leads it.
  pub data Leads (c : RuntimeConfiguration) : EngineType → Deployer → Type 0 where
    not_on_swarm : c.engine_status ≢ EngineStatus.swarm → Leads c docker_standalone compose
    leads_swarm :
        c.engine_status ≡ EngineStatus.swarm → c.leader ≡ true → Leads c docker_swarm Deployer.swarm

  -- What a check makes of the manager, with the stack manager that was there before.
  pub data Follows (c : RuntimeConfiguration) (before : StackManager)
      : EdgeManager × Error → Type 0 where
    turned_on :
        {wanted : EngineType} {d : Deployer} {m : EdgeManager}
        → Leads c wanted d
        → IsOn wanted d before m
        → Follows c before (m, none)
    engine_failed :
        {wanted : EngineType} {d : Deployer} {m : EdgeManager} {e : Str}
        → Leads c wanted d
        → m.loop.listens ≡ true
        → IsConsistent (stacks_of m)
        → Follows c before (m, some e)
    turned_off :
        {m : EdgeManager}
        → c.engine_status ≡ EngineStatus.swarm
        → c.leader ≡ false
        → IsOff m
        → Follows c before (m, none)

pub failed-disabled :
    (out : Outside) (wanted : EngineType) (m : StackManager) (e : Str)
    → IsConsistent m
    → (set_engine_status out wanted m).1 ≡ some e
    → (set_engine_status out wanted m).0.is_enabled ≡ false
unfolding set_engine_status switch_engine deployer_built stop stop_found
failed-disabled out wanted m e h failed = ground arith
