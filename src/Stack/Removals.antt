-- ===== src/Stack/Removals.antt =====
-- deleteStack: when a stack leaves the map, and what the goroutine does while the removal fails.
use portainer_agent.Base.{
  ℕ, zero, suc, ◌+◌, ◌≡◌, refl, ◌∙◌, ap, none, some, ◌⊎◌, [], ◌∷◌, Str, delete, arith,
}
use portainer_agent.Outside.{
  Outside, Call, Calls, deployer_remove, os_remove_all, delete_edge_stack_status,
}
use portainer_agent.Stack.{EdgeStack, EdgeStackAction, StackManager, pending}
use portainer_agent.Stack.Worker.{
  first_with, next_pending_stack, next_or_retry, delete_stack, removed_stack, removed_files,
  forget_stack, handle_pending, handle_action, work, stack_name, stack_file_location,
}
use portainer_agent.Stack.Retries.{turns, sleeps, alone}

-- The three calls of a removal.
abbrev pub remove_call : EdgeStack → Call
remove_call s = deployer_remove (stack_name s) (stack_file_location s)

abbrev pub files_call : Outside → EdgeStack → Call
files_call out s = os_remove_all (out.filepath_dir (stack_file_location s))

-- Every call of a removal has been answered with a nil error, each after the one before it.
pub record IsRemoved (out : Outside) (s : EdgeStack) (calls : Calls) : Type 0 where
  pub deployer_removed : out.fails calls (remove_call s) ≡ none
  pub files_removed : out.fails (remove_call s ∷ calls) (files_call out s) ≡ none
  pub status_deleted :
      out.fails (files_call out s ∷ remove_call s ∷ calls) (delete_edge_stack_status s.id) ≡ none

-- A removal takes the stack, and no other, out of the map when the deployer, the file system and
-- the server have all done their part, in this order; when one of them fails the map stays as it
-- was.
pub delete_stack_lem :
    (out : Outside) (s : EdgeStack) (m : StackManager)
    → (IsRemoved out s m.calls
        × ((delete_stack out s m).stacks ≡ delete s.id m.stacks)
        × ((delete_stack out s m).calls
            ≡ delete_edge_stack_status s.id ∷ files_call out s ∷ remove_call s ∷ m.calls))
      ⊎ ((¬ IsRemoved out s m.calls) × ((delete_stack out s m).stacks ≡ m.stacks))
unfolding delete_stack removed_stack removed_files forget_stack
delete_stack_lem out s m = ground arith

abbrev pub count_removes : Calls → ℕ
count_removes [] = 0
count_removes (deployer_remove name file ∷ calls) = suc (count_removes calls)
count_removes (_ ∷ calls) = count_removes calls

-- A stack that is to be removed.
abbrev pub removing : EdgeStack → EdgeStack
removing s = record s { status = pending; action = EdgeStackAction.delete }

module _ (out : Outside) (message : Str)
    (failing : (calls : Calls) (name file : Str)
      → out.fails calls (deployer_remove name file) ≡ some message)
    (s : EdgeStack) where
  removing-turn :
      (m : StackManager)
      → work out (alone (removing s) m)
        ≡ alone (removing s) (record m { calls = remove_call (removing s) ∷ m.calls })
  unfolding work next_pending_stack next_or_retry first_with handle_pending handle_action
      delete_stack removed_stack
  removing-turn m = rw failing

  -- While the deployer cannot remove a stack, the goroutine asks it again at every turn and does
  -- not sleep between the turns: after `n` turns the stack is as it was, and `n` calls were made.
  pub removal_spins :
      (n : ℕ) (m : StackManager)
      → (calls : Calls) × (turns out n (alone (removing s) m)
          ≡ alone (removing s) (record m { calls = calls }))
        × (count_removes calls ≡ n + count_removes m.calls)
        × (sleeps out n (alone (removing s) m) ≡ 0)
  unfolding turns sleeps next_pending_stack next_or_retry first_with
  removal_spins zero m = (m.calls, refl, omega arith, refl)
  removal_spins (suc n) m =
      let (calls, reached, counted, slept) =
        removal_spins n (record m { calls = remove_call (removing s) ∷ m.calls }) in
      (
        calls,
        ap (turns out n) (removing-turn m) ∙ reached,
        omega (arith, counted),
        rw (removing-turn m) (omega (arith, slept)),
      )
