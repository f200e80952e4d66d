-- ===== src/Stack/Synced.antt =====
-- What processStack of edge/stack/stack.go does to the stack of its identifier, and to the others.
use portainer_agent.Base.{
  ℕ, ◌==◌, ==_iff, ◌≡◌, ◌≢◌, refl, ◌∙◌, Bool, true, false, Option, none, some, Entries-lookup,
  lookup, lookup-insert_self, lookup-insert_ne, if-elim, subst, arith,
}
use portainer_agent.Agent.{EdgeStackConfig}
use portainer_agent.Outside.{Outside, Error}
use portainer_agent.Stack.{
  EdgeStack, EdgeStackAction, StackManager, pending, deploy, update, new_edge_stack,
}
use portainer_agent.Stack.Process.{
  share, apply_config, acknowledge, store_config, configured, configure, process_found,
  process_stack,
}
use portainer_agent.Stack.Invariant.{IsEntry, IsStacks}

-- The stack waits for the worker, at the version, with the action.
pub record IsMarked (a : EdgeStackAction) (version : ℕ) (s : EdgeStack) : Type 0 where
  pub at_version : s.version ≡ version
  pub at_status : s.status ≡ pending
  pub at_action : s.action ≡ a

-- What a stack of the response is before and after.
pub data Synced (version : ℕ) : Option EdgeStack → Option EdgeStack → Type 0 where
  unchanged : {s : EdgeStack} → s.version ≡ version → Synced version (some s) (some s)
  changed :
      {s s' : EdgeStack}
      → s.version ≢ version
      → IsMarked update version s'
      → s'.retries ≡ s.retries
      → Synced version (some s) (some s')
  added : {s' : EdgeStack} → IsMarked deploy version s' → Synced version none (some s')

-- The stack in the map has the marks of `s`, and its failed pulls.
pub record IsStored (s : EdgeStack) (o : Option EdgeStack) : Type 0 where
  pub stack : EdgeStack
  pub found : o ≡ some stack
  pub same_version : stack.version ≡ s.version
  pub same_status : stack.status ≡ s.status
  pub same_action : stack.action ≡ s.action
  pub same_retries : stack.retries ≡ s.retries

module _ (out : Outside) where
  acknowledge-IsStored :
      (s : EdgeStack) (m : StackManager) (e : Error)
      → (acknowledge out s m e).1 ≡ none
      → IsStored s (lookup s.id (acknowledge out s m e).0.stacks)
  unfolding acknowledge
  acknowledge-IsStored s m (some e) h = cc
  acknowledge-IsStored s m none h = record {
    stack = _;
    found = lookup-insert_self _ _ m.stacks;
    same_version = refl;
    same_status = refl;
    same_action = refl;
    same_retries = refl;
  }

  store_config-IsStored :
      (known : Bool) (s : EdgeStack) (m : StackManager) (config : EdgeStackConfig)
      → (store_config out known s m config).1 ≡ none
      → IsStored s (lookup s.id (store_config out known s m config).0.stacks)
  unfolding store_config apply_config
  store_config-IsStored known s m config h =
      let r = acknowledge-IsStored (apply_config config s) _ _ h in
      record {
        stack = r.stack;
        found = r.found;
        same_version = r.same_version;
        same_status = r.same_status;
        same_action = r.same_action;
        same_retries = r.same_retries;
      }

  configured-IsStored :
      (known : Bool) (s : EdgeStack) (m : StackManager) (config : EdgeStackConfig) (e : Error)
      → (configured out known s m config e).1 ≡ none
      → IsStored s (lookup s.id (configured out known s m config e).0.stacks)
  unfolding configured
  configured-IsStored known s m config (some e) h = cc
  configured-IsStored known s m config none h = store_config-IsStored known s m config h

  configure-IsStored :
      (known : Bool) (s : EdgeStack) (m : StackManager)
      → (configure out known s m).1 ≡ none
      → IsStored s (lookup s.id (configure out known s m).0.stacks)
  unfolding configure
  configure-IsStored known s m h = configured-IsStored known s _ _ _ h

  process_found-Synced :
      (m : StackManager) (id version : ℕ) (o : Option EdgeStack)
      → lookup id m.stacks ≡ o
      → IsStacks m.stacks
      → (process_found out m id version o).1 ≡ none
      → Synced version o (lookup id (process_found out m id version o).0.stacks)
  unfolding process_found
  process_found-Synced m id version none e h = λ ok.
      let r = configure-IsStored false (new_edge_stack id version pending) m ok in
      rw r.found (
        added (record {
          at_version = r.same_version;
          at_status = r.same_status;
          at_action = r.same_action;
        }))
  process_found-Synced m id version (some s) e h =
      let s' : EdgeStack = record s { action = update; version = version; status = pending } in
      if-elim
        (λ (r : StackManager × Error). r.1 ≡ none → Synced version (some s) (lookup id r.0.stacks))
        (s.version == version) (λ same ok. rw e (unchanged ((==_iff s.version version).0 same)))
        (λ differs ok.
          let r = configure-IsStored true s' (share true s' m) ok in
          let key : s.id ≡ id = (Entries-lookup IsEntry id s m.stacks h.entries e).key in
          subst
            (λ i.
              Synced version (some s) (lookup i (configure out true s' (share true s' m)).0.stacks))
            key
            (rw r.found (
              changed (ground arith)
                (record {
                  at_version = r.same_version;
                  at_status = r.same_status;
                  at_action = r.same_action;
                })
                r.same_retries)))

  pub process_stack-Synced :
      (m : StackManager) (id version : ℕ)
      → IsStacks m.stacks
      → (process_stack out m id version).1 ≡ none
      → Synced version (lookup id m.stacks) (lookup id (process_stack out m id version).0.stacks)
  unfolding process_stack
  process_stack-Synced m id version h = process_found-Synced m id version _ refl h

  -- Another identifier's stack stays as it was, whatever the result.
  share-other :
      (known : Bool) (s : EdgeStack) (m : StackManager) (j : ℕ)
      → s.id ≢ j
      → lookup j (share known s m).stacks ≡ lookup j m.stacks
  unfolding share
  share-other true s m j n = lookup-insert_ne s.id j s m.stacks n
  share-other false s m j n = refl

  acknowledge-other :
      (s : EdgeStack) (m : StackManager) (e : Error) (j : ℕ)
      → s.id ≢ j
      → lookup j (acknowledge out s m e).0.stacks ≡ lookup j m.stacks
  unfolding acknowledge
  acknowledge-other s m (some e) j n = refl
  acknowledge-other s m none j n = lookup-insert_ne s.id j _ m.stacks n

  configured-other :
      (known : Bool) (s : EdgeStack) (m : StackManager) (config : EdgeStackConfig) (e : Error)
      (j : ℕ)
      → s.id ≢ j
      → lookup j (configured out known s m config e).0.stacks ≡ lookup j m.stacks
  unfolding configured store_config apply_config
  configured-other known s m config (some e) j n = refl
  configured-other known s m config none j n =
      acknowledge-other (apply_config config s) _ _ j n
      ∙ share-other known (apply_config config s) m j n

  process_found-other :
      (m : StackManager) (id version : ℕ) (o : Option EdgeStack) (j : ℕ)
      → lookup id m.stacks ≡ o
      → IsStacks m.stacks
      → id ≢ j
      → lookup j (process_found out m id version o).0.stacks ≡ lookup j m.stacks
  unfolding process_found configure
  process_found-other m id version none j e h n = configured-other false _ _ _ _ j n
  process_found-other m id version (some s) j e h n =
      let s' : EdgeStack = record s { action = update; version = version; status = pending } in
      let key : s.id ≡ id = (Entries-lookup IsEntry id s m.stacks h.entries e).key in
      if-elim (λ (r : StackManager × Error). lookup j r.0.stacks ≡ lookup j m.stacks)
        (s.version == version) (λ _. refl)
        (λ _. configured-other true s' _ _ _ j (rw key n) ∙ share-other true s' m j (rw key n))

  pub process_stack-other :
      (m : StackManager) (id version j : ℕ)
      → IsStacks m.stacks
      → id ≢ j
      → lookup j (process_stack out m id version).0.stacks ≡ lookup j m.stacks
  unfolding process_stack
  process_stack-other m id version j h n = process_found-other m id version _ j refl h n
