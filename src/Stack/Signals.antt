-- ===== src/Stack/Signals.antt =====
-- The channel of StackManager.Stop: who may close it, and whether the goroutine can see it closed.
-- The operations on stacks leave the channels and the goroutines alone.
use portainer_agent.Base.{
  ℕ, ◌==◌, ◌≡◌, refl, ◌∙◌, Bool, true, false, not, Option, none, some, [], ◌∷◌, Assoc, lookup,
  if-elim, arith,
}
use portainer_agent.Agent.{EdgeStackConfig, EdgeStackData}
use portainer_agent.Outside.{Outside, Error}
use portainer_agent.Stack.{EdgeStack, EdgeStackAction, StackManager}
use portainer_agent.Stack.Process.{
  share, acknowledge, store_config, configured, configure, process_found, process_stack,
  process_removed_stacks, process_stacks, updated, update_stacks_status,
}
use portainer_agent.Stack.Worker.{
  next_pending_stack, next_or_retry, pulled, pull_now, pull_images, deployed, deploy_stack,
  forget_stack, removed_files, removed_stack, delete_stack, after_pull, deploy_found, handle_action,
  handle_pending, work,
}
use portainer_agent.Stack.Params.{
  record_stack, record_params, written_params, build_deployer_params,
}

-- What the operations on stacks keep.
pub record SameSignals (m m' : StackManager) : Type 0 where
  pub stop_signal : m'.stop_signal ≡ m.stop_signal
  pub closed : m'.closed ≡ m.closed
  pub next_chan : m'.next_chan ≡ m.next_chan
  pub workers : m'.workers ≡ m.workers

same :
    (m m' : StackManager)
    → m'.stop_signal ≡ m.stop_signal
    → m'.closed ≡ m.closed
    → m'.next_chan ≡ m.next_chan
    → m'.workers ≡ m.workers
    → SameSignals m m'
same m m' a b c d = record { stop_signal = a; closed = b; next_chan = c; workers = d }

SameSignals-refl : (m : StackManager) → SameSignals m m
SameSignals-refl m = same m m refl refl refl refl

SameSignals-trans : {l m n : StackManager} → SameSignals l m → SameSignals m n → SameSignals l n
SameSignals-trans h k = record {
  stop_signal = k.stop_signal ∙ h.stop_signal;
  closed = k.closed ∙ h.closed;
  next_chan = k.next_chan ∙ h.next_chan;
  workers = k.workers ∙ h.workers;
}

module _ (out : Outside) where
  share-same : (known : Bool) (s : EdgeStack) (m : StackManager) → SameSignals m (share known s m)
  unfolding share
  share-same true s m = same m _ refl refl refl refl
  share-same false s m = SameSignals-refl m

  configured-same :
      (known : Bool) (s : EdgeStack) (m : StackManager) (config : EdgeStackConfig) (e : Error)
      → SameSignals m (configured out known s m config e).0
  unfolding configured store_config acknowledge share
  configured-same true s m config e = ground arith
  configured-same false s m config e = ground arith

  process_found-same :
      (m : StackManager) (id version : ℕ) (o : Option EdgeStack)
      → SameSignals m (process_found out m id version o).0
  unfolding process_found configure
  process_found-same m id version none =
      SameSignals-trans (same m _ refl refl refl refl) (configured-same false _ _ _ _)
  process_found-same m id version (some s) =
      if-elim (λ (r : StackManager × Error). SameSignals m r.0) (s.version == version)
        (λ _. SameSignals-refl m)
        (λ _.
          SameSignals-trans (share-same true _ m)
            (SameSignals-trans (same _ _ refl refl refl refl) (configured-same true _ _ _ _)))

  process_stacks-same :
      (m : StackManager) (polled : Assoc ℕ) → SameSignals m (process_stacks out m polled).0
  unfolding process_stacks process_stack
  process_stacks-same m [] = SameSignals-refl m
  process_stacks-same m ((id, version) ∷ rest) =
      let (m', e) = process_stack out m id version in
      let one : SameSignals m m' = process_found-same m id version _ in
      elim e
        as (λ x.
          SameSignals m
            (elim x as (λ _. StackManager × Error) [
              | some err ↦ (m', some err)
              | none ↦ process_stacks out m' rest
            ]).0) [ some err ↦ one | none ↦ SameSignals-trans one (process_stacks-same m' rest) ]

  updated-same :
      (polled : Assoc ℕ) (r : StackManager × Error) → SameSignals r.0 (updated polled r).0
  unfolding updated process_removed_stacks
  updated-same polled (m, some e) = SameSignals-refl m
  updated-same polled (m, none) = same m _ refl refl refl refl

  pub update_stacks_status-same :
      (m : StackManager) (polled : Assoc ℕ) → SameSignals m (update_stacks_status out m polled).0
  unfolding update_stacks_status
  update_stacks_status-same m polled =
      if-elim (λ (r : StackManager × Error). SameSignals m r.0) (not m.is_enabled)
        (λ _. SameSignals-refl m)
        (λ _. SameSignals-trans (process_stacks-same m polled) (updated-same polled _))

  pub build_deployer_params-same :
      (sd : EdgeStackData) (deletes : Bool) (m : StackManager)
      → SameSignals m (build_deployer_params out sd deletes m).0
  unfolding build_deployer_params written_params record_params record_stack
  build_deployer_params-same sd true m = ground arith
  build_deployer_params-same sd false m = ground arith

  pull_images-same : (s : EdgeStack) (m : StackManager) → SameSignals m (pull_images out s m).0
  unfolding pull_images pull_now pulled
  pull_images-same s m = ground arith

  deploy_stack-same : (s : EdgeStack) (m : StackManager) → SameSignals m (deploy_stack out s m)
  unfolding deploy_stack deployed
  deploy_stack-same s m = ground arith

  delete_stack-same : (s : EdgeStack) (m : StackManager) → SameSignals m (delete_stack out s m)
  unfolding delete_stack removed_stack removed_files forget_stack
  delete_stack-same s m = ground arith

  after_pull-same :
      (id : ℕ) (s : EdgeStack) (r : StackManager × Error) → SameSignals r.0 (after_pull out id s r)
  unfolding after_pull
  after_pull-same id s (m, some e) = SameSignals-refl m
  after_pull-same id s (m, none) = found (lookup id m.stacks)
    where
      found : (o : Option EdgeStack) → SameSignals m (deploy_found out s m o)
      found none = unfold deploy_found in deploy_stack-same s m
      found (some t) = unfold deploy_found in deploy_stack-same t m

  handle_action-same :
      (s : EdgeStack) (m : StackManager) (a : EdgeStackAction)
      → SameSignals m (handle_action out s m a)
  unfolding handle_action
  handle_action-same s m EdgeStackAction.deploy =
      SameSignals-trans (pull_images-same s m) (after_pull-same s.id s _)
  handle_action-same s m EdgeStackAction.update =
      SameSignals-trans (pull_images-same s m) (after_pull-same s.id s _)
  handle_action-same s m EdgeStackAction.delete = delete_stack-same s m
  handle_action-same s m _ = SameSignals-refl m

  handle_pending-same :
      (r : StackManager × Option EdgeStack) → SameSignals r.0 (handle_pending out r)
  unfolding handle_pending
  handle_pending-same (m, none) = SameSignals-refl m
  handle_pending-same (m, some s) = handle_action-same s m s.action

  next_or_retry-same :
      (m : StackManager) (o : Option EdgeStack) → SameSignals m (next_or_retry m o).0
  unfolding next_or_retry
  next_or_retry-same m (some s) = SameSignals-refl m
  next_or_retry-same m none = same m _ refl refl refl refl

  pub work-same : (m : StackManager) → SameSignals m (work out m)
  unfolding work next_pending_stack
  work-same m = SameSignals-trans (next_or_retry-same m _) (handle_pending-same _)
