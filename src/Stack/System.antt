-- ===== src/Stack/System.antt =====
-- The stack manager as a whole: what happens to it, one call or one turn of the goroutine after
-- another, from NewStackManager on. The errors that the calls return are logged by the callers
-- and change nothing more.
use portainer_agent.Base.{ℕ, true, false, List, [], ◌∷◌, Assoc}
use portainer_agent.Agent.{EdgeStackData}
use portainer_agent.Outside.{Outside}
use portainer_agent.Stack.{StackManager, EngineType}
use portainer_agent.Stack.Process.{update_stacks_status}
use portainer_agent.Stack.Params.{deploy_stack, delete_stack}
use portainer_agent.Stack.Lifecycle.{new_stack_manager, start, stop, set_engine_status, turn}
use portainer_agent.Stack.Invariant.{IsStacks, update_stacks_status-Keeps}
use portainer_agent.Stack.WorkerInvariant.{
  build_deployer_params-Keeps, stacks-start, stacks-stop, stacks-set_engine_status, turn-Keeps,
}

pub data Event : Type 0 where
  polled : Assoc ℕ → Event
  deploy_command delete_command : EdgeStackData → Event
  engine : EngineType → Event
  starts stops turns : Event

unfoldable pub step : Outside → StackManager → Event → StackManager
step out m (polled versions) = (update_stacks_status out m versions).0
step out m (deploy_command sd) = (deploy_stack out sd m).0
step out m (delete_command sd) = (delete_stack out sd m).0
step out m (engine e) = (set_engine_status out e m).0
step out m starts = start m
step out m stops = stop m
step out m turns = turn out m

unfoldable pub run : Outside → StackManager → List Event → StackManager
run out m [] = m
run out m (e ∷ es) = run out (step out m e) es

module _ (out : Outside) where
  step-IsStacks :
      (m : StackManager) (e : Event) → IsStacks m.stacks → IsStacks (step out m e).stacks
  unfolding step deploy_stack delete_stack
  step-IsStacks m (polled versions) h = update_stacks_status-Keeps out m versions h
  step-IsStacks m (deploy_command sd) h = build_deployer_params-Keeps out sd false m h
  step-IsStacks m (delete_command sd) h = build_deployer_params-Keeps out sd true m h
  step-IsStacks m (engine e) h = rw (stacks-set_engine_status out e m) h
  step-IsStacks m starts h = rw (stacks-start out m) h
  step-IsStacks m stops h = rw (stacks-stop out m) h
  step-IsStacks m turns h = turn-Keeps out m h

  run_from-IsStacks :
      (m : StackManager) (es : List Event) → IsStacks m.stacks → IsStacks (run out m es).stacks
  unfolding run
  run_from-IsStacks m [] h = h
  run_from-IsStacks m (e ∷ es) h = run_from-IsStacks (step out m e) es (step-IsStacks m e h)

  -- After any events, the map of a new stack manager holds each identifier once, under its own
  -- key, and every stack that is pending or to be retried has an action that the worker takes.
  pub run-IsStacks : (es : List Event) → IsStacks (run out new_stack_manager es).stacks
  unfolding new_stack_manager
  run-IsStacks es = run_from-IsStacks _ es (record { distinct = tt; entries = tt })
