-- ===== src/Stack/Params.antt =====
-- edge/stack/stack.go: DeployStack and DeleteStack with buildDeployerParams, which the commands of
-- the async mode call.
use portainer_agent.Base.{
  ◌==◌, Bool, true, false, Option, none, some, lookup, insert, if◌then◌else◌,
}
use portainer_agent.Agent.{EdgeStackData}
use portainer_agent.Outside.{Outside, Calls, Error, write_file}
use portainer_agent.Stack.{
  EdgeStack, StackManager, EngineType, EdgeStackStatus, pending, update, delete, new_edge_stack,
}
use portainer_agent.Stack.Process.{stack_folder, stack_file_name, stack_file_content}

-- The object with what the command says.
abbrev pub fill_params : EdgeStackData → EngineType → EdgeStack → EdgeStack
fill_params sd engine_type s = record s {
  name = sd.name;
  registry_credentials = sd.registry_credentials;
  status = pending;
  version = sd.version;
  pre_pull_image = sd.pre_pull_image;
  re_pull_image = sd.re_pull_image;
  file_folder = stack_folder sd.id;
  file_name = stack_file_name engine_type sd.name;
}

-- It enters the map.
unfoldable pub record_stack : EdgeStackData → EdgeStack → StackManager → StackManager × Error
record_stack sd s m =
    (record m { stacks = insert s.id (fill_params sd m.engine_type s) m.stacks }, none)

unfoldable pub record_params :
    EdgeStackData → Bool → StackManager → Option EdgeStack → StackManager × Error
record_params sd true m (some s) = record_stack sd (record s { action = delete }) m
record_params sd false m (some s) =
    if s.version == sd.version then (m, none) else record_stack sd (record s { action = update }) m
record_params sd deletes m none = record_stack sd (new_edge_stack sd.id 0 EdgeStackStatus.unset) m

unfoldable pub written_params : EdgeStackData → Bool → StackManager → Error → StackManager × Error
written_params sd deletes m (some e) = (m, some e)
written_params sd deletes m none = record_params sd deletes m (lookup sd.id m.stacks)

-- The file is written unless the stack is to be deleted.
unfoldable pub write_params : Outside → EdgeStackData → Bool → StackManager → Calls × Error
write_params out sd true m = (m.calls, none)
write_params out sd false m =
    write_file out (stack_folder sd.id) (stack_file_name m.engine_type sd.name)
      (stack_file_content out m.engine_type sd.stack_file_content sd.registry_credentials) 0o644
      m.calls

unfoldable pub build_deployer_params :
    Outside → EdgeStackData → Bool → StackManager → StackManager × Error
build_deployer_params out sd deletes m =
    let (calls', e) = write_params out sd deletes m in
    written_params sd deletes (record m { calls = calls' }) e

unfoldable pub deploy_stack : Outside → EdgeStackData → StackManager → StackManager × Error
deploy_stack out sd m = build_deployer_params out sd false m

unfoldable pub delete_stack : Outside → EdgeStackData → StackManager → StackManager × Error
delete_stack out sd m = build_deployer_params out sd true m
