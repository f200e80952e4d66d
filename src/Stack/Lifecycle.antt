-- ===== src/Stack/Lifecycle.antt =====
-- edge/stack/stack.go: NewStackManager, Start, Stop, SetEngineStatus and buildDeployerService, and
-- the `select` by which the deployment goroutine learns that it has to end.
use portainer_agent.Base.{
  ℕ, suc, ◌-◌, ◌==◌, Bool, true, false, Option, none, some, [], ◌∷◌, any, if◌then◌else◌, codes,
}
use portainer_agent.Outside.{Outside, Deployer, compose, swarm, Error, Calls, perform, new_deployer}
use portainer_agent.Stack.{
  StackManager, EngineType, EngineType-discrete, no_engine, docker_standalone, docker_swarm,
}
use portainer_agent.Stack.Worker.{work}

unfoldable pub new_stack_manager : StackManager
new_stack_manager = record {
  engine_type = no_engine;
  stacks = [];
  stop_signal = none;
  deployer = none;
  is_enabled = false;
  next_chan = 0;
  closed = [];
  workers = 0;
  calls = [];
}

unfoldable pub stop_found : StackManager → Option ℕ → StackManager
stop_found m none = m
stop_found m (some c) = record m { closed = c ∷ m.closed; stop_signal = none; is_enabled = false }

-- Stop never fails.
unfoldable pub stop : StackManager → StackManager
stop m = stop_found m m.stop_signal

unfoldable pub start_found : StackManager → Option ℕ → StackManager
start_found m (some c) = m
start_found m none = record m {
  is_enabled = true;
  stop_signal = some m.next_chan;
  next_chan = suc m.next_chan;
  workers = suc m.workers;
}

-- Start never fails: the interval that it parses is a constant of agent.go.
unfoldable pub start : StackManager → StackManager
start m = start_found m m.stop_signal

-- Whether `<-manager.stopSignal` is ready: the field is read at each turn, a nil channel is never
-- ready, and nothing is ever sent on the channel, so that it is ready once it is closed.
unfoldable pub sees_stop : StackManager → Bool
sees_stop m = elim m.stop_signal [ none ↦ false | some c ↦ any (λ d. d == c) m.closed ]

-- One turn of a deployment goroutine, if there is one: it returns, or goes on with its work.
unfoldable pub turn : Outside → StackManager → StackManager
turn out m =
    if m.workers == 0
    then m
    else if sees_stop m
    then record m { workers = m.workers - 1 }
    else work out m

unfoldable pub try_deployer : Outside → Deployer → Calls → Calls × Error
try_deployer out d calls = perform out (new_deployer d) calls

-- The deployer that is built, or the error, with the calls made.
unfoldable pub build_deployer_service : Outside → EngineType → Calls → Calls × Error × Deployer
build_deployer_service out docker_standalone calls =
    let (calls', e) = try_deployer out compose calls in (calls', e, compose)
build_deployer_service out docker_swarm calls =
    let (calls', e) = try_deployer out swarm calls in (calls', e, swarm)
build_deployer_service out EngineType.kubernetes calls = (calls, none, Deployer.kubernetes)
build_deployer_service out EngineType.nomad calls =
    let (calls', e) = try_deployer out Deployer.nomad calls in (calls', e, Deployer.nomad)
build_deployer_service out no_engine calls =
    (calls, some (codes "engine status 0 not supported"), compose)

unfoldable pub deployer_built : StackManager → Error → Deployer → StackManager × Error
deployer_built m (some e) d = (m, some e)
deployer_built m none d = (record m { deployer = some d }, none)

unfoldable pub switch_engine : Outside → EngineType → StackManager → StackManager × Error
switch_engine out wanted m =
    let (calls', e, d) = build_deployer_service out wanted m.calls in
    deployer_built (record m { calls = calls' }) e d

unfoldable pub set_engine_status : Outside → EngineType → StackManager → StackManager × Error
set_engine_status out wanted m = elim (EngineType-discrete wanted m.engine_type) [
  | yes _ ↦ (m, none)
  | no _ ↦ switch_engine out wanted (stop (record m { engine_type = wanted }))
]
