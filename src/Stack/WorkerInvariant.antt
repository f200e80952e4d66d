-- ===== src/Stack/WorkerInvariant.antt =====
-- The worker, the async commands and the engine changes keep what Stack/Invariant.antt states.
use portainer_agent.Base.{
  ℕ, ◌+◌, ◌==◌, ◌≡◌, refl, Bool, true, false, Option, none, some, [], ◌∷◌, ◌||◌, Assoc, insert,
  delete, delete-IsMap, map_values-IsMap, Entries-delete, Entries-map_values, arith, ltb, if-elim,
}
use portainer_agent.Agent.{EdgeStackData}
use portainer_agent.Outside.{Outside, Error}
use portainer_agent.Stack.{
  EdgeStack, EdgeStackAction, StackManager, EngineType, pending, deploying, idle, max_retries,
}
use portainer_agent.Stack.Worker.{
  is_pending, first_with, retried, next_or_retry, next_pending_stack, pulled, pull_now, pull_images,
  is_attempted, deployed, deploy_stack, forget_stack, removed_files, removed_stack, delete_stack,
  after_pull, deploy_found, handle_action, handle_pending, work,
}
use portainer_agent.Stack.Params.{
  record_stack, record_params, written_params, build_deployer_params,
}
use portainer_agent.Stack.Lifecycle.{
  start, start_found, stop, stop_found, set_engine_status, switch_engine, deployer_built, sees_stop,
  turn,
}
use portainer_agent.Stack.Invariant.{has_work, IsReady, IsEntry, IsStacks, insert-IsStacks, Keeps}

retried-IsEntry : (k : ℕ) (s : EdgeStack) → IsEntry k s → IsEntry k (retried k s)
unfolding retried
retried-IsEntry k s h = ground arith

first_with-IsReady :
    (stacks : Assoc EdgeStack) (s : EdgeStack)
    → IsStacks stacks
    → first_with is_pending stacks ≡ some s
    → IsReady s × (s.status ≡ pending)
unfolding first_with
first_with-IsReady [] s h e = cc
first_with-IsReady ((k, t) ∷ rest) s h e =
    ground
      (arith, first_with-IsReady rest s (record { distinct = h.distinct.1; entries = h.entries.1 }))

module _ (out : Outside) where
  pulled-Keeps :
      (s : EdgeStack) (m : StackManager) (e : Error)
      → has_work s.action ≡ true
      → s.status ≡ deploying
      → IsStacks m.stacks
      → Keeps (pulled out s m e)
  unfolding pulled
  pulled-Keeps s m none a d h = insert-IsStacks _ m.stacks (ground arith) h
  pulled-Keeps s m (some e) a d h =
      if-elim Keeps (ltb s.retries max_retries) (λ _. insert-IsStacks _ m.stacks (ground arith) h)
        (λ _. insert-IsStacks _ m.stacks (ground arith) h)

  pull_now-Keeps :
      (s : EdgeStack) (m : StackManager)
      → has_work s.action ≡ true
      → IsStacks m.stacks
      → Keeps (pull_now out s m)
  unfolding pull_now
  pull_now-Keeps s m a h =
      pulled-Keeps (record s { status = deploying }) _ _ a refl
        (insert-IsStacks (record s { status = deploying }) m.stacks (ground arith) h)

  pub pull_images-Keeps :
      (s : EdgeStack) (m : StackManager)
      → has_work s.action ≡ true
      → IsStacks m.stacks
      → Keeps (pull_images out s m)
  unfolding pull_images
  pull_images-Keeps s m a h =
      let s' : EdgeStack = record s { retries = s.retries + 1 } in
      let h' : IsStacks (insert s'.id s' m.stacks) = insert-IsStacks s' m.stacks (ground arith) h in
      if-elim Keeps (s.pre_pull_image || s.re_pull_image)
        (λ _. if-elim Keeps (is_attempted s'.retries) (λ _. pull_now-Keeps s' _ a h') (λ _. h'))
        (λ _. h)

  deployed-Keeps :
      (s : EdgeStack) (m : StackManager) (e : Error)
      → s.status ≡ deploying
      → IsStacks m.stacks
      → IsStacks (deployed out s m e).stacks
  unfolding deployed
  deployed-Keeps s m none d h = insert-IsStacks _ m.stacks (ground arith) h
  deployed-Keeps s m (some e) d h = insert-IsStacks _ m.stacks (ground arith) h

  pub deploy_stack-Keeps :
      (s : EdgeStack) (m : StackManager)
      → IsStacks m.stacks
      → IsStacks (deploy_stack out s m).stacks
  unfolding deploy_stack
  deploy_stack-Keeps s m h =
      deployed-Keeps _ _ _ refl
        (insert-IsStacks (record s { status = deploying; action = idle }) m.stacks (ground arith) h)

  delete_stack-Keeps :
      (s : EdgeStack) (m : StackManager)
      → IsStacks m.stacks
      → IsStacks (delete_stack out s m).stacks
  unfolding delete_stack removed_stack removed_files forget_stack
  delete_stack-Keeps s m h =
      let gone : IsStacks (delete s.id m.stacks) = record {
        distinct = delete-IsMap s.id m.stacks h.distinct;
        entries = Entries-delete IsEntry s.id m.stacks h.entries;
      } in
      ground (arith, h, gone)

  deploy_found-Keeps :
      (s : EdgeStack) (m : StackManager) (o : Option EdgeStack)
      → IsStacks m.stacks
      → IsStacks (deploy_found out s m o).stacks
  unfolding deploy_found
  deploy_found-Keeps s m none h = deploy_stack-Keeps s m h
  deploy_found-Keeps s m (some s') h = deploy_stack-Keeps s' m h

  after_pull-Keeps :
      (id : ℕ) (s : EdgeStack) (r : StackManager × Error)
      → Keeps r
      → IsStacks (after_pull out id s r).stacks
  unfolding after_pull
  after_pull-Keeps id s (m, some e) h = h
  after_pull-Keeps id s (m, none) h = deploy_found-Keeps s m _ h

  handle_action-Keeps :
      (s : EdgeStack) (m : StackManager) (a : EdgeStackAction)
      → s.action ≡ a
      → IsStacks m.stacks
      → IsStacks (handle_action out s m a).stacks
  unfolding handle_action
  handle_action-Keeps s m EdgeStackAction.deploy e h =
      after_pull-Keeps s.id s _ (pull_images-Keeps s m (rw e) h)
  handle_action-Keeps s m EdgeStackAction.update e h =
      after_pull-Keeps s.id s _ (pull_images-Keeps s m (rw e) h)
  handle_action-Keeps s m EdgeStackAction.delete e h = delete_stack-Keeps s m h
  handle_action-Keeps s m _ e h = h

  next_or_retry-Keeps :
      (m : StackManager) (o : Option EdgeStack)
      → IsStacks m.stacks
      → IsStacks (next_or_retry m o).0.stacks
  unfolding next_or_retry
  next_or_retry-Keeps m (some s) h = h
  next_or_retry-Keeps m none h = record {
    distinct = map_values-IsMap retried m.stacks h.distinct;
    entries = Entries-map_values IsEntry retried retried-IsEntry m.stacks h.entries;
  }

  handle_pending-Keeps :
      (r : StackManager × Option EdgeStack)
      → IsStacks r.0.stacks
      → IsStacks (handle_pending out r).stacks
  unfolding handle_pending
  handle_pending-Keeps (m, none) h = h
  handle_pending-Keeps (m, some s) h = handle_action-Keeps s m s.action refl h

  pub work-Keeps : (m : StackManager) → IsStacks m.stacks → IsStacks (work out m).stacks
  unfolding work next_pending_stack
  work-Keeps m h = handle_pending-Keeps _ (next_or_retry-Keeps m _ h)

  record_stack-Keeps :
      (sd : EdgeStackData) (s : EdgeStack) (m : StackManager)
      → has_work s.action ≡ true
      → IsStacks m.stacks
      → Keeps (record_stack sd s m)
  unfolding record_stack
  record_stack-Keeps sd s m a h = insert-IsStacks _ m.stacks (ground arith) h

  record_params-Keeps :
      (sd : EdgeStackData) (deletes : Bool) (m : StackManager) (o : Option EdgeStack)
      → IsStacks m.stacks
      → Keeps (record_params sd deletes m o)
  unfolding record_params
  record_params-Keeps sd true m (some s) h = record_stack-Keeps sd _ m refl h
  record_params-Keeps sd false m (some s) h =
      if-elim Keeps (s.version == sd.version) (λ _. h) (λ _. record_stack-Keeps sd _ m refl h)
  record_params-Keeps sd true m none h = record_stack-Keeps sd _ m refl h
  record_params-Keeps sd false m none h = record_stack-Keeps sd _ m refl h

  written_params-Keeps :
      (sd : EdgeStackData) (deletes : Bool) (m : StackManager) (e : Error)
      → IsStacks m.stacks
      → Keeps (written_params sd deletes m e)
  unfolding written_params
  written_params-Keeps sd deletes m (some e) h = h
  written_params-Keeps sd deletes m none h = record_params-Keeps sd deletes m _ h

  pub build_deployer_params-Keeps :
      (sd : EdgeStackData) (deletes : Bool) (m : StackManager)
      → IsStacks m.stacks
      → Keeps (build_deployer_params out sd deletes m)
  unfolding build_deployer_params
  build_deployer_params-Keeps sd deletes m h = written_params-Keeps sd deletes _ _ h

  pub stacks-stop : (m : StackManager) → (stop m).stacks ≡ m.stacks
  unfolding stop stop_found
  stacks-stop m = ground arith

  pub stacks-start : (m : StackManager) → (start m).stacks ≡ m.stacks
  unfolding start start_found
  stacks-start m = ground arith

  pub stacks-set_engine_status :
      (wanted : EngineType) (m : StackManager)
      → (set_engine_status out wanted m).0.stacks ≡ m.stacks
  unfolding set_engine_status switch_engine deployer_built stop stop_found
  stacks-set_engine_status wanted m = ground arith

  pub turn-Keeps : (m : StackManager) → IsStacks m.stacks → IsStacks (turn out m).stacks
  unfolding turn
  turn-Keeps m h =
      if-elim (λ (r : StackManager). IsStacks r.stacks) (m.workers == 0) (λ _. h)
        (λ _.
          if-elim (λ (r : StackManager). IsStacks r.stacks) (sees_stop m) (λ _. h)
            (λ _. work-Keeps m h))
