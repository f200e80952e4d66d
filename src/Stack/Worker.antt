-- ===== src/Stack/Worker.antt =====
-- edge/stack/stack.go: the deployment goroutine of StackManager.Start with nextPendingStack,
-- pullImages, deployStack and deleteStack, and GetEdgeRegistryCredentials. The pointer that the
-- goroutine holds is the object in the map, since only deleteStack takes an object out of it: a
-- write to the object is an `insert`.
use portainer_agent.Base.{
  ℕ, ◌+◌, ◌%◌, ◌==◌, leb, ltb, Bool, true, false, ◌||◌, Str, Option, none, some, List, [], ◌∷◌,
  ◌++◌, Assoc, lookup, insert, delete, map_values, if◌then◌else◌,
}
use portainer_agent.Agent.{RegistryCredentials}
use portainer_agent.Base.Text.{codes}
use portainer_agent.Outside.{
  Outside, Error, StatusType, images_pulled, perform, set_edge_stack_status,
  delete_edge_stack_status, deployer_pull, deployer_deploy, deployer_remove, os_remove_all,
}
use portainer_agent.Stack.{
  EdgeStack, StackManager, EdgeStackStatus, EdgeStackAction, pending, done, deploying, retry, idle,
  retry_interval, max_retries,
}

abbrev pub is_pending : EdgeStackStatus → Bool
is_pending pending = true
is_pending _ = false

abbrev pub is_deploying : EdgeStackStatus → Bool
is_deploying deploying = true
is_deploying _ = false

-- The first stack of the visit with the wanted status.
unfoldable pub first_with : (EdgeStackStatus → Bool) → Assoc EdgeStack → Option EdgeStack
first_with test [] = none
first_with test ((k, s) ∷ m) = if test s.status then some s else first_with test m

abbrev pub retried_status : EdgeStackStatus → EdgeStackStatus
retried_status retry = pending
retried_status status = status

unfoldable pub retried : ℕ → EdgeStack → EdgeStack
retried _ s = record s { status = retried_status s.status }

unfoldable pub next_or_retry : StackManager → Option EdgeStack → StackManager × Option EdgeStack
next_or_retry m (some s) = (m, some s)
next_or_retry m none = (record m { stacks = map_values retried m.stacks }, none)

unfoldable pub next_pending_stack : StackManager → StackManager × Option EdgeStack
next_pending_stack m = next_or_retry m (first_with is_pending m.stacks)

-- `fmt.Sprintf("edge_%s", stack.Name)`
unfoldable pub stack_name : EdgeStack → Str
stack_name s = codes "edge_" ++ s.name

-- `fmt.Sprintf("%s/%s", stack.FileFolder, stack.FileName)`
unfoldable pub stack_file_location : EdgeStack → Str
stack_file_location s = s.file_folder ++ codes "/" ++ s.file_name

abbrev pub write_stack : EdgeStack → StackManager → StackManager
write_stack s m = record m { stacks = insert s.id s m.stacks }

-- A status report whose error is only logged.
abbrev pub report : Outside → ℕ → StatusType → Str → StackManager → StackManager
report out id status message m = record m {
  calls = (perform out (set_edge_stack_status id status message) m.calls).0;
}

-- What pullImages does with the deployer's answer.
unfoldable pub pulled : Outside → EdgeStack → StackManager → Error → StackManager × Error
pulled out s m none =
    (report out s.id images_pulled [] (write_stack (record s { action = idle }) m), none)
pulled out s m (some message) =
    if ltb s.retries max_retries
    then (write_stack (record s { status = retry }) m, some message)
    else (
      report out s.id StatusType.failed message
          (write_stack (record s { status = EdgeStackStatus.error }) m),
      some message,
    )

unfoldable pub pull_now : Outside → EdgeStack → StackManager → StackManager × Error
pull_now out s m =
    let s' = record s { status = deploying } in
    let (calls', e) = perform out (deployer_pull (stack_name s) (stack_file_location s)) m.calls in
    pulled out s' (record (write_stack s' m) { calls = calls' }) e

-- The attempts that call the deployer; the others are skipped.
abbrev pub is_attempted : ℕ → Bool
is_attempted n = leb n retry_interval || (n % retry_interval) == 0

unfoldable pub pull_images : Outside → EdgeStack → StackManager → StackManager × Error
pull_images out s m =
    if s.pre_pull_image || s.re_pull_image
    then (let s' = record s { retries = s.retries + 1 } in
        if is_attempted s'.retries
        then pull_now out s' (write_stack s' m)
        else (write_stack s' m, some (codes "skip pulling")))
    else (m, none)

unfoldable pub deployed : Outside → EdgeStack → StackManager → Error → StackManager
deployed out s m none =
    report out s.id StatusType.ok [] (write_stack (record s { status = done }) m)
deployed out s m (some message) =
    report out s.id StatusType.failed message
      (write_stack (record s { status = EdgeStackStatus.error }) m)

unfoldable pub deploy_stack : Outside → EdgeStack → StackManager → StackManager
deploy_stack out s m =
    let s' = record s { status = deploying; action = idle } in
    let (calls', e) =
      perform out (deployer_deploy (stack_name s) (stack_file_location s) s.namespace) m.calls in
    deployed out s' (record (write_stack s' m) { calls = calls' }) e

unfoldable pub forget_stack : EdgeStack → StackManager → Error → StackManager
forget_stack s m (some e) = m
forget_stack s m none = record m { stacks = delete s.id m.stacks }

unfoldable pub removed_files : Outside → EdgeStack → StackManager → Error → StackManager
removed_files out s m (some e) = m
removed_files out s m none =
    let (calls', e) = perform out (delete_edge_stack_status s.id) m.calls in
    forget_stack s (record m { calls = calls' }) e

unfoldable pub removed_stack : Outside → EdgeStack → StackManager → Error → StackManager
removed_stack out s m (some e) = m
removed_stack out s m none =
    let (calls', e) =
      perform out (os_remove_all (out.filepath_dir (stack_file_location s))) m.calls in
    removed_files out s (record m { calls = calls' }) e

unfoldable pub delete_stack : Outside → EdgeStack → StackManager → StackManager
delete_stack out s m =
    let (calls', e) =
      perform out (deployer_remove (stack_name s) (stack_file_location s)) m.calls in
    removed_stack out s (record m { calls = calls' }) e

-- The deployment after a pull: the object is read again, as the pull has changed it.
unfoldable pub deploy_found : Outside → EdgeStack → StackManager → Option EdgeStack → StackManager
deploy_found out s m none = deploy_stack out s m
deploy_found out s m (some s') = deploy_stack out s' m

unfoldable pub after_pull : Outside → ℕ → EdgeStack → StackManager × Error → StackManager
after_pull out id s (m, some e) = m
after_pull out id s (m, none) = deploy_found out s m (lookup id m.stacks)

unfoldable pub handle_action : Outside → EdgeStack → StackManager → EdgeStackAction → StackManager
handle_action out s m EdgeStackAction.deploy = after_pull out s.id s (pull_images out s m)
handle_action out s m EdgeStackAction.update = after_pull out s.id s (pull_images out s m)
handle_action out s m EdgeStackAction.delete = delete_stack out s m
handle_action out s m _ = m

unfoldable pub handle_pending : Outside → StackManager × Option EdgeStack → StackManager
handle_pending out (m, none) = m
handle_pending out (m, some s) = handle_action out s m s.action

-- One turn of the goroutine's `default` case, with no other goroutine in between. The sleep of
-- an idle turn is not modelled.
unfoldable pub work : Outside → StackManager → StackManager
work out m = handle_pending out (next_pending_stack m)

unfoldable pub credentials_of : Option EdgeStack → List RegistryCredentials
credentials_of none = []
credentials_of (some s) = s.registry_credentials

-- The credentials of the first stack of the visit that is being deployed; nil is the empty list.
unfoldable pub get_edge_registry_credentials : StackManager → List RegistryCredentials
get_edge_registry_credentials m = credentials_of (first_with is_deploying m.stacks)
