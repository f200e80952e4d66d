-- ===== src/Stack/Updates.antt =====
-- What is left of a poll's change of a known stack when it fails half-way.
use portainer_agent.Base.{
  ℕ, ◌==◌, ==_refl, ◌≡◌, refl, subst, true, Option, none, some, Assoc, lookup, insert,
  Entries-lookup, lookup-insert_self, if-elim, Str, arith,
}
use portainer_agent.Agent.{EdgeStackConfig}
use portainer_agent.Outside.{Outside, Error}
use portainer_agent.Stack.{EdgeStack, StackManager, pending, update}
use portainer_agent.Stack.Process.{
  share, apply_config, acknowledge, store_config, configured, configure, process_found,
  process_stack,
}
use portainer_agent.Stack.Invariant.{IsEntry, IsStacks}
use portainer_agent.Stack.Synced.{IsMarked, IsStored}

IsStored-self :
    (s : EdgeStack) (stacks : Assoc EdgeStack) → IsStored s (lookup s.id (insert s.id s stacks))
IsStored-self s stacks = record {
  stack = s;
  found = lookup-insert_self s.id s stacks;
  same_version = refl;
  same_status = refl;
  same_action = refl;
  same_retries = refl;
}

module _ (out : Outside) where
  acknowledge-kept :
      (s : EdgeStack) (m : StackManager) (e : Error)
      → IsStored s (lookup s.id m.stacks)
      → IsStored s (lookup s.id (acknowledge out s m e).0.stacks)
  unfolding acknowledge
  acknowledge-kept s m (some e) r = r
  acknowledge-kept s m none r = record {
    stack = _;
    found = lookup-insert_self s.id _ m.stacks;
    same_version = refl;
    same_status = refl;
    same_action = refl;
    same_retries = refl;
  }

  configured-kept :
      (s : EdgeStack) (m : StackManager) (config : EdgeStackConfig) (e : Error)
      → IsStored s (lookup s.id m.stacks)
      → IsStored s (lookup s.id (configured out true s m config e).0.stacks)
  unfolding configured store_config share apply_config
  configured-kept s m config (some e) r = r
  configured-kept s m config none r =
      let k =
        acknowledge-kept (apply_config config s) _ _
          (IsStored-self (apply_config config s) m.stacks) in
      record {
        stack = k.stack;
        found = k.found;
        same_version = k.same_version;
        same_status = k.same_status;
        same_action = k.same_action;
        same_retries = k.same_retries;
      }

  -- On every branch the stack in the map has its new version already.
  changed-kept :
      (s : EdgeStack) (m : StackManager)
      → IsStored s (lookup s.id (configure out true s (share true s m)).0.stacks)
  unfolding configure share
  changed-kept s m = configured-kept s _ _ _ (IsStored-self s m.stacks)

  -- A known stack whose version is processed again: nothing happens.
  same_version :
      (m : StackManager) (id version : ℕ) (s : EdgeStack)
      → lookup id m.stacks ≡ some s
      → s.version ≡ version
      → process_stack out m id version ≡ (m, none)
  unfolding process_stack process_found
  same_version m id version s e v = ground (arith, e, v, ==_refl version)

  found-kept :
      (m : StackManager) (id version : ℕ) (s : EdgeStack) (e : Str)
      → s.id ≡ id
      → (process_found out m id version (some s)).1 ≡ some e
      → (s' : EdgeStack) × (lookup id (process_found out m id version (some s)).0.stacks ≡ some s')
        × IsMarked update version s'
  unfolding process_found
  found-kept m id version s e key =
      let s' : EdgeStack = record s { action = update; version = version; status = pending } in
      if-elim
        (λ (r : StackManager × Error).
          r.1 ≡ some e
          → (t : EdgeStack) × (lookup id r.0.stacks ≡ some t) × IsMarked update version t)
        (s.version == version) (λ _. cc)
        (λ _ _.
          let k = changed-kept s' m in
          (
            k.stack,
            subst (λ i. lookup i (configure out true s' (share true s' m)).0.stacks ≡ some k.stack)
                key k.found,
            record {
              at_version = k.same_version;
              at_status = k.same_status;
              at_action = k.same_action;
            },
          ))

  stack-kept :
      (m : StackManager) (id version : ℕ) (s : EdgeStack) (e : Str) (o : Option EdgeStack)
      → lookup id m.stacks ≡ o
      → o ≡ some s
      → IsStacks m.stacks
      → (process_found out m id version o).1 ≡ some e
      → (s' : EdgeStack) × (lookup id (process_found out m id version o).0.stacks ≡ some s')
        × IsMarked update version s'
  stack-kept m id version s e none l p h = cc
  stack-kept m id version s e (some t) l p h =
      found-kept m id version t e (Entries-lookup IsEntry id t m.stacks h.entries l).key

  -- When a new version of a known stack fails, whether its configuration could not be fetched, its
  -- file not be written or its acknowledgement not be sent, the stack waits for the worker under
  -- the new version all the same, and the same version in the next poll changes nothing and calls
  -- nothing: the configuration is not fetched again.
  pub failed_update_forgotten :
      (m : StackManager) (id version : ℕ) (s : EdgeStack) (e : Str)
      → IsStacks m.stacks
      → lookup id m.stacks ≡ some s
      → (process_stack out m id version).1 ≡ some e
      → let m' = (process_stack out m id version).0 in
        (process_stack out m' id version ≡ (m', none))
        × ((s' : EdgeStack) × (lookup id m'.stacks ≡ some s') × IsMarked update version s')
  unfolding process_stack
  failed_update_forgotten m id version s e h found failed =
      let (s', there, marked) =
        stack-kept m id version s e (lookup id m.stacks) refl found h failed in
      (same_version _ id version s' there marked.at_version, (s', there, marked))
