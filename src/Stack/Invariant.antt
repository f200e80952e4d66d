-- ===== src/Stack/Invariant.antt =====
-- What holds of the stack manager's map between two operations.
use portainer_agent.Base.{
  ℕ, ◌==◌, ◌≡◌, refl, Bool, true, false, not, Option, none, some, [], ◌∷◌, Assoc, IsMap, Entries,
  lookup, insert, insert-IsMap, map_values-IsMap, Entries-insert, Entries-map_values, if-elim,
  arith,
}
use portainer_agent.Agent.{EdgeStackConfig}
use portainer_agent.Outside.{Outside, Error}
use portainer_agent.Stack.{EdgeStack, EdgeStackAction, StackManager, pending, retry, deploy, update}
use portainer_agent.Stack.Process.{
  share, apply_config, acknowledge, store_config, configured, configure, process_found,
  process_stack, mark_removed, process_removed_stacks, process_stacks, updated,
  update_stacks_status,
}

abbrev pub has_work : EdgeStackAction → Bool
has_work deploy = true
has_work update = true
has_work EdgeStackAction.delete = true
has_work _ = false

-- A stack that waits for the worker has an action that the worker takes.
pub record IsReady (s : EdgeStack) : Type 0 where
  pub if_pending : s.status ≡ pending → has_work s.action ≡ true
  pub if_retry : s.status ≡ retry → has_work s.action ≡ true

-- An entry holds the stack of its key.
pub record IsEntry (k : ℕ) (s : EdgeStack) : Type 0 where
  pub key : s.id ≡ k
  pub ready : IsReady s

pub record IsStacks (stacks : Assoc EdgeStack) : Type 0 where
  pub distinct : IsMap stacks
  pub entries : Entries IsEntry stacks

pub insert-IsStacks :
    (s : EdgeStack) (stacks : Assoc EdgeStack)
    → IsReady s
    → IsStacks stacks
    → IsStacks (insert s.id s stacks)
insert-IsStacks s stacks r h = record {
  distinct = insert-IsMap s.id s stacks h.distinct;
  entries = Entries-insert IsEntry s.id s stacks (record { key = refl; ready = r }) h.entries;
}

abbrev pub Keeps : StackManager × Error → Type 0
Keeps r = IsStacks r.0.stacks

mark_removed-IsEntry :
    (polled : Assoc ℕ) (k : ℕ) (s : EdgeStack) → IsEntry k s → IsEntry k (mark_removed polled k s)
unfolding mark_removed
mark_removed-IsEntry polled k s h = ground arith

module _ (out : Outside) where
  share-IsStacks :
      (known : Bool) (s : EdgeStack) (m : StackManager)
      → IsReady s
      → IsStacks m.stacks
      → IsStacks (share known s m).stacks
  unfolding share
  share-IsStacks true s m r h = insert-IsStacks s m.stacks r h
  share-IsStacks false s m r h = h

  acknowledge-Keeps :
      (s : EdgeStack) (m : StackManager) (e : Error)
      → IsReady s
      → IsStacks m.stacks
      → Keeps (acknowledge out s m e)
  unfolding acknowledge
  acknowledge-Keeps s m (some e) r h = h
  acknowledge-Keeps s m none r h =
      insert-IsStacks _ m.stacks (record { if_pending = r.if_pending; if_retry = r.if_retry }) h

  store_config-Keeps :
      (known : Bool) (s : EdgeStack) (m : StackManager) (config : EdgeStackConfig)
      → IsReady s
      → IsStacks m.stacks
      → Keeps (store_config out known s m config)
  unfolding store_config apply_config
  store_config-Keeps known s m config r h =
      let r' : IsReady (apply_config config s) = record {
        if_pending = r.if_pending;
        if_retry = r.if_retry;
      } in
      acknowledge-Keeps _ _ _ r' (share-IsStacks known (apply_config config s) m r' h)

  configured-Keeps :
      (known : Bool) (s : EdgeStack) (m : StackManager) (config : EdgeStackConfig) (e : Error)
      → IsReady s
      → IsStacks m.stacks
      → Keeps (configured out known s m config e)
  unfolding configured
  configured-Keeps known s m config (some e) r h = h
  configured-Keeps known s m config none r h = store_config-Keeps known s m config r h

  configure-Keeps :
      (known : Bool) (s : EdgeStack) (m : StackManager)
      → IsReady s
      → IsStacks m.stacks
      → Keeps (configure out known s m)
  unfolding configure
  configure-Keeps known s m r h = configured-Keeps known s _ _ _ r h

  process_found-Keeps :
      (m : StackManager) (id version : ℕ) (o : Option EdgeStack)
      → IsStacks m.stacks
      → Keeps (process_found out m id version o)
  unfolding process_found
  process_found-Keeps m id version none h = configure-Keeps false _ m (ground arith) h
  process_found-Keeps m id version (some s) h =
      let s' : EdgeStack = record s { action = update; version = version; status = pending } in
      let r : IsReady s' = ground arith in
      if-elim Keeps (s.version == version) (λ _. h)
        (λ _. configure-Keeps true s' _ r (share-IsStacks true s' m r h))

  pub process_stack-Keeps :
      (m : StackManager) (id version : ℕ)
      → IsStacks m.stacks
      → Keeps (process_stack out m id version)
  unfolding process_stack
  process_stack-Keeps m id version h = process_found-Keeps m id version (lookup id m.stacks) h

  pub process_stacks-Keeps :
      (m : StackManager) (polled : Assoc ℕ)
      → IsStacks m.stacks
      → Keeps (process_stacks out m polled)
  unfolding process_stacks
  process_stacks-Keeps m [] h = h
  process_stacks-Keeps m ((id, version) ∷ rest) h =
      let (m', e) = process_stack out m id version in
      let k = process_stack-Keeps m id version h in
      elim e
        as (λ x. Keeps (elim x [ some err ↦ (m', some err) | none ↦ process_stacks out m' rest ])) [
          | some err ↦ k
          | none ↦ process_stacks-Keeps m' rest k
        ]

  pub process_removed_stacks-Keeps :
      (m : StackManager) (polled : Assoc ℕ)
      → IsStacks m.stacks
      → IsStacks (process_removed_stacks m polled).stacks
  unfolding process_removed_stacks
  process_removed_stacks-Keeps m polled h = record {
    distinct = map_values-IsMap (mark_removed polled) m.stacks h.distinct;
    entries =
        Entries-map_values IsEntry (mark_removed polled) (mark_removed-IsEntry polled) m.stacks
          h.entries;
  }

  updated-Keeps : (polled : Assoc ℕ) (r : StackManager × Error) → Keeps r → Keeps (updated polled r)
  unfolding updated
  updated-Keeps polled (m, some e) h = h
  updated-Keeps polled (m, none) h = process_removed_stacks-Keeps m polled h

  pub update_stacks_status-Keeps :
      (m : StackManager) (polled : Assoc ℕ)
      → IsStacks m.stacks
      → Keeps (update_stacks_status out m polled)
  unfolding update_stacks_status
  update_stacks_status-Keeps m polled h =
      if-elim Keeps (not m.is_enabled) (λ _. h)
        (λ _. updated-Keeps polled (process_stacks out m polled) (process_stacks-Keeps m polled h))
