-- ===== src/Stack/Commands.antt =====
-- What the stack commands of the async mode do to the map of stacks.
use portainer_agent.Base.{
  ℕ, ◌==◌, ◌≡◌, ◌≢◌, refl, subst, Bool, true, false, Option, none, some, ◌⊎◌, inl, inr, lookup,
  insert, Entries-lookup, lookup-insert_self, lookup-insert_ne, if-elim, arith,
}
use portainer_agent.Agent.{EdgeStackData}
use portainer_agent.Outside.{Outside, Error, Calls}
use portainer_agent.Stack.{
  EdgeStack, EdgeStackStatus, StackManager, deploy, update, delete, new_edge_stack,
}
use portainer_agent.Stack.Params.{
  fill_params, record_stack, record_params, written_params, write_params, build_deployer_params,
  delete_stack,
}
use portainer_agent.Stack.Invariant.{IsEntry, IsStacks}
use portainer_agent.Stack.Synced.{IsMarked}

-- What the stack of a command is before and after, when the command succeeds.
pub data Commanded (deletes : Bool) (sd : EdgeStackData)
    : Option EdgeStack → Option EdgeStack → Type 0 where
  unknown : {s' : EdgeStack} → IsMarked deploy sd.version s' → Commanded deletes sd none (some s')
  unchanged :
      {s : EdgeStack}
      → deletes ≡ false
      → s.version ≡ sd.version
      → Commanded deletes sd (some s) (some s)
  changed :
      {s s' : EdgeStack}
      → deletes ≡ false
      → s.version ≢ sd.version
      → IsMarked update sd.version s'
      → Commanded deletes sd (some s) (some s')
  removed :
      {s s' : EdgeStack}
      → deletes ≡ true
      → IsMarked delete sd.version s'
      → Commanded deletes sd (some s) (some s')

abbrev pub After : EdgeStackData → Bool → StackManager → StackManager × Error → Type 0
After sd deletes m r =
    (r.1 ≡ none)
    × Commanded deletes sd (lookup sd.id m.stacks) (lookup sd.id r.0.stacks)
    × ((j : ℕ) → sd.id ≢ j → lookup j r.0.stacks ≡ lookup j m.stacks)

module _ (sd : EdgeStackData) (m : StackManager) where
  -- The object enters the map with the marks of the command.
  record_stack-IsMarked :
      (s : EdgeStack)
      → s.id ≡ sd.id
      → let r = record_stack sd s m in
        (r.1 ≡ none)
        × ((s' : EdgeStack) × (lookup sd.id r.0.stacks ≡ some s') × IsMarked s.action sd.version s')
        × ((j : ℕ) → sd.id ≢ j → lookup j r.0.stacks ≡ lookup j m.stacks)
  unfolding record_stack
  record_stack-IsMarked s key = (
    refl,
    (
      fill_params sd m.engine_type s,
      subst
          (λ i.
            lookup i (insert s.id (fill_params sd m.engine_type s) m.stacks)
            ≡ some (fill_params sd m.engine_type s))
          key (lookup-insert_self s.id (fill_params sd m.engine_type s) m.stacks),
      record { at_version = refl; at_status = refl; at_action = refl },
    ),
    λ j n. lookup-insert_ne s.id j (fill_params sd m.engine_type s) m.stacks (rw key n),
  )

  record_params-After :
      (deletes : Bool) (o : Option EdgeStack)
      → lookup sd.id m.stacks ≡ o
      → IsStacks m.stacks
      → After sd deletes m (record_params sd deletes m o)
  unfolding record_params
  record_params-After true none e h =
      let (ok, (s', found, marked), rest) =
        record_stack-IsMarked (new_edge_stack sd.id 0 EdgeStackStatus.unset) refl in
      (ok, rw (e, found) (unknown marked), rest)
  record_params-After false none e h =
      let (ok, (s', found, marked), rest) =
        record_stack-IsMarked (new_edge_stack sd.id 0 EdgeStackStatus.unset) refl in
      (ok, rw (e, found) (unknown marked), rest)
  record_params-After true (some s) e h =
      let key = (Entries-lookup IsEntry sd.id s m.stacks h.entries e).key in
      let (ok, (s', found, marked), rest) =
        record_stack-IsMarked (record s { action = delete }) key in
      (ok, rw (e, found) (removed refl marked), rest)
  record_params-After false (some s) e h =
      let key = (Entries-lookup IsEntry sd.id s m.stacks h.entries e).key in
      let (ok, (s', found, marked), rest) =
        record_stack-IsMarked (record s { action = update }) key in
      if-elim (After sd false m) (s.version == sd.version)
        (λ same. (refl, rw e (unchanged refl (ground arith)), λ j n. refl))
        (λ differs. (ok, rw (e, found) (changed refl (ground arith) marked), rest))

written-After :
    (sd : EdgeStackData) (deletes : Bool) (m : StackManager) (calls : Calls) (e : Error)
    → IsStacks m.stacks
    → let r = written_params sd deletes (record m { calls = calls }) e in
      ((e ≢ none) × (r.0.stacks ≡ m.stacks) × (r.1 ≢ none)) ⊎ ((e ≡ none) × After sd deletes m r)
unfolding written_params
written-After sd deletes m calls (some e) h = inl (λ p. cc, refl, λ p. cc)
written-After sd deletes m calls none h =
    inr (refl, record_params-After sd (record m { calls = calls }) deletes _ refl h)

-- A stack command either fails to write the stack's file and leaves the map as it was, or does to
-- the stack of its identifier, and to no other, what the cases of `Commanded` say.
pub build_deployer_params-After :
    (out : Outside) (sd : EdgeStackData) (deletes : Bool) (m : StackManager)
    → IsStacks m.stacks
    → let r = build_deployer_params out sd deletes m in
      (((write_params out sd deletes m).1 ≢ none) × (r.0.stacks ≡ m.stacks) × (r.1 ≢ none))
      ⊎ (((write_params out sd deletes m).1 ≡ none) × After sd deletes m r)
unfolding build_deployer_params
build_deployer_params-After out sd deletes m h =
    let (calls, e) = write_params out sd deletes m in written-After sd deletes m calls e h

-- To delete a stack that is not known is to deploy it: an entry is made, pending for deployment,
-- with no error and with no file written.
pub delete_stack-unknown :
    (out : Outside) (sd : EdgeStackData) (m : StackManager)
    → IsStacks m.stacks
    → lookup sd.id m.stacks ≡ none
    → let r = delete_stack out sd m in
      (r.1 ≡ none)
      × (r.0.calls ≡ m.calls)
      × ((s : EdgeStack) × (lookup sd.id r.0.stacks ≡ some s) × IsMarked deploy sd.version s)
unfolding delete_stack build_deployer_params write_params written_params
delete_stack-unknown out sd m h e =
    let (ok, (s', found, marked), rest) =
      record_stack-IsMarked sd m (new_edge_stack sd.id 0 EdgeStackStatus.unset) refl in
    unfold record_params in rw e (ok, unfold record_stack in refl, (s', found, marked))
