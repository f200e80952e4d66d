-- ===== src/Manager/Engines.antt =====
-- What starting, stopping and setting an engine make of the stack manager of an Edge manager.
use portainer_agent.Base.{
  ◌≡◌, ◌≢◌, refl, sym, ap, true, false, none, some, ◌⊎◌, inl, inr, is_some, arith,
}
use portainer_agent.Outside.{Outside, Calls, Error, Deployer}
use portainer_agent.Stack.{StackManager, EngineType, EngineType-discrete}
use portainer_agent.Stack.Lifecycle.{
  start, start_found, stop, stop_found, set_engine_status, switch_engine, deployer_built,
  build_deployer_service,
}
use portainer_agent.Manager.{EdgeManager}

-- The stack manager of an Edge manager.
abbrev pub stacks_of : EdgeManager → StackManager
stacks_of m = m.loop.service.stack_manager

-- Deployments are enabled when the goroutine's channel is there.
abbrev pub IsConsistent : StackManager → Type 0
IsConsistent m = m.is_enabled ≡ is_some m.stop_signal

pub start-enabled : (m : StackManager) → IsConsistent m → (start m).is_enabled ≡ true
unfolding start start_found
start-enabled m h = ground arith

pub start-wanted : (m : StackManager) → (start m).engine_type ≡ m.engine_type
unfolding start start_found
start-wanted m = ground arith

pub stop-disabled : (m : StackManager) → IsConsistent m → (stop m).is_enabled ≡ false
unfolding stop stop_found
stop-disabled m h = ground arith

pub set_engine_status-IsConsistent :
    (out : Outside) (wanted : EngineType) (m : StackManager)
    → IsConsistent m
    → IsConsistent (set_engine_status out wanted m).0
unfolding set_engine_status switch_engine deployer_built stop stop_found
set_engine_status-IsConsistent out wanted m h = ground arith

pub set_engine_status-wanted :
    (out : Outside) (wanted : EngineType) (m : StackManager)
    → (set_engine_status out wanted m).0.engine_type ≡ wanted
unfolding set_engine_status switch_engine deployer_built stop stop_found
set_engine_status-wanted out wanted m = ground arith

-- The deployer is the one that was built for an engine, if another engine was set before; else it
-- is the one that was there, if any.
abbrev pub HasDeployer : EngineType → Deployer → StackManager → StackManager → Type 0
HasDeployer wanted d before m =
    ((before.engine_type ≢ wanted) × (m.deployer ≡ some d))
    ⊎ ((before.engine_type ≡ wanted) × (m.deployer ≡ before.deployer))

pub start-deployer : (m : StackManager) → (start m).deployer ≡ m.deployer
unfolding start start_found
start-deployer m = ground arith

pub deployer_built-deployer :
    (m : StackManager) (e : Error) (d d' : Deployer)
    → d' ≡ d
    → (deployer_built m e d').1 ≡ none
    → (deployer_built m e d').0.deployer ≡ some d
unfolding deployer_built
deployer_built-deployer m (some e) d d' same h = cc (h)
deployer_built-deployer m none d d' same h = ap some same

pub set_engine_status-deployer :
    (out : Outside) (wanted : EngineType) (d : Deployer) (m : StackManager)
    → ((calls : Calls) → (build_deployer_service out wanted calls).2 ≡ d)
    → (set_engine_status out wanted m).1 ≡ none
    → HasDeployer wanted d m (set_engine_status out wanted m).0
unfolding set_engine_status switch_engine
set_engine_status-deployer out wanted d m built = by_test (EngineType-discrete wanted m.engine_type)
  where
    by_test :
        (t : Dec (wanted ≡ m.engine_type))
        → let o : StackManager × Error = elim t [
          | yes _ ↦ (m, none)
          | no _ ↦ switch_engine out wanted (stop (record m { engine_type = wanted }))
        ] in
          o.1 ≡ none → HasDeployer wanted d m o.0
    by_test (yes same) h = inr (sym same, refl)
    by_test (no differs) h = inl (λ e. differs (sym e), deployer_built-deployer _ _ d _ (built _) h)
