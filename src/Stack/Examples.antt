-- ===== src/Stack/Examples.antt =====
-- Runs of the stack manager on concrete inputs, and its theorems at them.
use portainer_agent.Base.{
  ◌+◌, ◌≡◌, refl, inl, true, false, none, some, List, [], ◌∷◌, codes, lookup, insert, arith, delete,
  ◌⊎◌, ◌≢◌, contains,
}
use portainer_agent.Agent.{EdgeStackData}
use portainer_agent.Outside.{Calls, delete_edge_stack_status, write_file}
use portainer_agent.Outside.Worlds.{quiet, refusing}
use portainer_agent.Stack.{
  EdgeStack, EdgeStackStatus, StackManager, docker_standalone, deploy, update, pending,
  new_edge_stack, max_retries,
}
use portainer_agent.Stack.Process.{
  process_stack, process_stacks, process_found, configure, configured, store_config, apply_config,
  acknowledge, share, updated, update_stacks_status,
}
use portainer_agent.Stack.Lifecycle.{new_stack_manager, sees_stop}
use portainer_agent.Stack.Worker.{next_pending_stack, delete_stack, deploy_stack}
use portainer_agent.Stack.Params.{build_deployer_params, write_params}
use portainer_agent.Stack.Params
use portainer_agent.Stack.Invariant.{IsStacks}
use portainer_agent.Stack.System.{Event, polled, engine, starts, stops, turns, run, run-IsStacks}
use portainer_agent.Stack.Synced.{IsMarked}
use portainer_agent.Stack.Sync.{Expected, update_stacks_status-Expected}
use portainer_agent.Stack.Commands.{After, build_deployer_params-After, delete_stack-unknown}
use portainer_agent.Stack.Pending.{Picks, next_pending_stack-Picks}
use portainer_agent.Stack.Updates.{failed_update_forgotten}
use portainer_agent.Stack.Retries.{alone, trying, count_pulls, sleeps, giving_up}
use portainer_agent.Stack.Retries
use portainer_agent.Stack.Removals.{IsRemoved, files_call, remove_call, delete_stack_lem}
use portainer_agent.Stack.Deployments.{IsDeployed, deploy_stack-IsDeployed}
use portainer_agent.Stack.Restarts.{started_by, goroutines_never_return}

abbrev pub stack : EdgeStack
stack = record (new_edge_stack 7 1 pending) { pre_pull_image = true }

abbrev pub manager : StackManager
manager = record {
  engine_type = docker_standalone;
  stacks = (7, stack) ∷ [];
  stop_signal = none;
  deployer = none;
  is_enabled = true;
  next_chan = 0;
  closed = [];
  workers = 0;
  calls = [];
}

abbrev command : EdgeStackData
command = record {
  id = 9;
  version = 3;
  name = codes "db";
  stack_file_content = codes "services:";
  registry_credentials = [];
  namespace = [];
  pre_pull_image = false;
  re_pull_image = false;
}

pub manager-IsStacks : IsStacks manager.stacks
unfolding contains
manager-IsStacks = ground arith

abbrev history : List Event
history =
    engine docker_standalone
    ∷ starts
    ∷ polled ((7, 1) ∷ (8, 2) ∷ [])
    ∷ turns
    ∷ stops
    ∷ starts
    ∷ turns
    ∷ []

run-IsStacks_example : IsStacks (run quiet new_stack_manager history).stacks
run-IsStacks_example = run-IsStacks quiet history

update_stacks_status-Expected_example :
    Expected
      (some 2)
      (some stack)
      (lookup 7 (update_stacks_status quiet manager ((7, 2) ∷ [])).0.stacks)
unfolding lookup contains insert update_stacks_status process_stacks process_stack process_found
    configure configured store_config apply_config acknowledge write_file share updated
update_stacks_status-Expected_example =
    update_stacks_status-Expected quiet manager ((7, 2) ∷ []) manager-IsStacks (refl, tt) refl refl
      7

build_deployer_params-After_example :
    let r = build_deployer_params quiet command false manager in
    (((write_params quiet command false manager).1 ≢ none)
      × (r.0.stacks ≡ manager.stacks)
      × (r.1 ≢ none))
    ⊎ (((write_params quiet command false manager).1 ≡ none) × After command false manager r)
build_deployer_params-After_example =
    build_deployer_params-After quiet command false manager manager-IsStacks

delete_stack-unknown_example :
    let r = Params.delete_stack quiet command manager in
    (r.1 ≡ none)
    × (r.0.calls ≡ [])
    × ((s : EdgeStack) × (lookup 9 r.0.stacks ≡ some s) × IsMarked deploy 3 s)
unfolding lookup
delete_stack-unknown_example = delete_stack-unknown quiet command manager manager-IsStacks refl

next_pending_stack-Picks_example : Picks manager (next_pending_stack manager)
next_pending_stack-Picks_example = next_pending_stack-Picks manager manager-IsStacks

failed_update_forgotten_example :
    let m' = (process_stack refusing manager 7 2).0 in
    (process_stack refusing m' 7 2 ≡ (m', none))
    × ((s' : EdgeStack) × (lookup 7 m'.stacks ≡ some s') × IsMarked update 2 s')
unfolding lookup process_stack process_found configure configured share
failed_update_forgotten_example =
    failed_update_forgotten refusing manager 7 2 stack (codes "503") manager-IsStacks refl refl

giving_up_example :
    (calls : Calls) × (Retries.turns refusing 121846 (alone (trying deploy pending 0 stack) manager)
      ≡ alone
          (trying deploy EdgeStackStatus.error max_retries stack)
          (record manager { calls = calls }))
    × (count_pulls calls ≡ 887 + count_pulls [])
    × (sleeps refusing 121846 (alone (trying deploy pending 0 stack) manager) ≡ 886)
giving_up_example =
    giving_up refusing (codes "no such image") (λ _ _ _. refl) stack refl deploy manager (inl refl)

delete_stack_lem_example :
    (IsRemoved quiet stack []
      × ((delete_stack quiet stack manager).stacks ≡ delete 7 manager.stacks)
      × ((delete_stack quiet stack manager).calls
          ≡ delete_edge_stack_status 7 ∷ files_call quiet stack ∷ remove_call stack ∷ []))
    ⊎ ((¬ IsRemoved quiet stack []) × ((delete_stack quiet stack manager).stacks ≡ manager.stacks))
delete_stack_lem_example = delete_stack_lem quiet stack manager

deploy_stack-IsDeployed_example :
    IsDeployed stack manager (deploy_stack refusing stack manager) none
deploy_stack-IsDeployed_example = deploy_stack-IsDeployed refusing stack manager

goroutines_never_return_example :
    (sees_stop (run quiet new_stack_manager history) ≡ false)
    × ((run quiet new_stack_manager history).workers ≡ started_by quiet new_stack_manager history)
goroutines_never_return_example = goroutines_never_return quiet history
