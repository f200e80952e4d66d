-- ===== src/Stack/Process.antt =====
-- edge/stack/stack.go: UpdateStacksStatus, processStack and processRemovedStacks, which apply the
-- stacks of a poll response. A map that Go ranges over is the list of its entries in the order
-- of the visit.
use portainer_agent.Base.{
  ℕ, ◌==◌, Bool, true, false, not, Str, Option, none, some, List, [], ◌∷◌, ◌++◌, Assoc, lookup,
  insert, map_values, contains, if◌then◌else◌,
}
use portainer_agent.Agent.{EdgeStackConfig, RegistryCredentials}
use portainer_agent.Base.Text.{codes, itoa}
use portainer_agent.Outside.{
  Outside, Error, perform, write_file, get_edge_stack_config, set_edge_stack_status, acknowledged,
}
use portainer_agent.Stack.{
  EdgeStack, StackManager, EngineType, pending, update, delete, new_edge_stack,
}

-- `fmt.Sprintf("%s/%d", agent.EdgeStackFilesPath, id)`
unfoldable pub stack_folder : ℕ → Str
stack_folder id = codes "/tmp/edge_stacks" ++ codes "/" ++ itoa id

unfoldable pub stack_file_name : EngineType → Str → Str
stack_file_name EngineType.kubernetes name = name ++ codes ".yml"
stack_file_name EngineType.nomad name = name ++ codes ".hcl"
stack_file_name _ name = codes "docker-compose.yml"

unfoldable pub stack_file_content : Outside → EngineType → Str → List RegistryCredentials → Str
stack_file_content out EngineType.kubernetes content (c ∷ cs) =
    out.add_image_pull_secrets content (c ∷ cs)
stack_file_content out _ content _ = content

-- `stack` is the object in the map when the stack was processed before: a write to one of its
-- fields is then seen in the map at once.
unfoldable pub share : Bool → EdgeStack → StackManager → StackManager
share true s m = record m { stacks = insert s.id s m.stacks }
share false s m = m

unfoldable pub apply_config : EdgeStackConfig → EdgeStack → EdgeStack
apply_config config s = record s {
  name = config.name;
  registry_credentials = config.registry_credentials;
  namespace = config.namespace;
  pre_pull_image = config.pre_pull_image;
  re_pull_image = config.re_pull_image;
}

-- The end of processStack: the stack enters the map and is acknowledged.
unfoldable pub acknowledge : Outside → EdgeStack → StackManager → Error → StackManager × Error
acknowledge out s m (some e) = (m, some e)
acknowledge out s m none =
    let s' = record s {
      file_folder = stack_folder s.id;
      file_name = stack_file_name m.engine_type s.name;
    } in
    let (calls', e) = perform out (set_edge_stack_status s.id acknowledged []) m.calls in
    (record m { stacks = insert s.id s' m.stacks; calls = calls' }, e)

-- The file of the stack, once the configuration is there.
unfoldable pub store_config :
    Outside → Bool → EdgeStack → StackManager → EdgeStackConfig → StackManager × Error
store_config out known s m config =
    let s' = apply_config config s in
    let m' = share known s' m in
    let (calls', e) =
      write_file out (stack_folder s.id) (stack_file_name m.engine_type config.name)
        (stack_file_content out m.engine_type config.file_content config.registry_credentials) 0o644
        m'.calls in
    acknowledge out s' (record m' { calls = calls' }) e

unfoldable pub configured :
    Outside → Bool → EdgeStack → StackManager → EdgeStackConfig → Error → StackManager × Error
configured out known s m config (some e) = (m, some e)
configured out known s m config none = store_config out known s m config

unfoldable pub configure : Outside → Bool → EdgeStack → StackManager → StackManager × Error
configure out known s m =
    let config = out.edge_stack_config m.calls s.id in
    let (calls', e) = perform out (get_edge_stack_config s.id) m.calls in
    configured out known s (record m { calls = calls' }) config e

unfoldable pub process_found :
    Outside → StackManager → ℕ → ℕ → Option EdgeStack → StackManager × Error
process_found out m id version (some s) =
    let s' = record s { action = update; version = version; status = pending } in
    if s.version == version then (m, none) else configure out true s' (share true s' m)
process_found out m id version none = configure out false (new_edge_stack id version pending) m

unfoldable pub process_stack : Outside → StackManager → ℕ → ℕ → StackManager × Error
process_stack out m id version = process_found out m id version (lookup id m.stacks)

unfoldable pub mark_removed : Assoc ℕ → ℕ → EdgeStack → EdgeStack
mark_removed polled id s =
    if contains id polled then s else record s { action = delete; status = pending }

unfoldable pub process_removed_stacks : StackManager → Assoc ℕ → StackManager
process_removed_stacks m polled = record m { stacks = map_values (mark_removed polled) m.stacks }

-- The loop over the response; the first error ends it.
unfoldable pub process_stacks : Outside → StackManager → Assoc ℕ → StackManager × Error
process_stacks out m [] = (m, none)
process_stacks out m ((id, version) ∷ rest) =
    let (m', e) = process_stack out m id version in
    elim e [ some err ↦ (m', some err) | none ↦ process_stacks out m' rest ]

unfoldable pub updated : Assoc ℕ → StackManager × Error → StackManager × Error
updated polled (m, some e) = (m, some e)
updated polled (m, none) = (process_removed_stacks m polled, none)

unfoldable pub update_stacks_status : Outside → StackManager → Assoc ℕ → StackManager × Error
update_stacks_status out m polled =
    if not m.is_enabled then (m, none) else updated polled (process_stacks out m polled)
