-- ===== src/Async/Effects.antt =====
-- What the stack commands of an async poll do to the stacks, and what is reported.
use portainer_agent.Base.{
  ℕ, ◌≡◌, ◌≢◌, refl, sym, ap, subst, ◌⊎◌, inl, inr, Bool, true, false, Option, none, some, [], ◌∷◌,
  Str, lookup, if◌then◌else◌, if-elim,
}
use portainer_agent.Agent.{AsyncCommand, EdgeStackData}
use portainer_agent.Outside.{
  Outside, Calls, Error, StatusType, acknowledged, removed, set_edge_stack_status, mkdir_all,
  os_write_file, write_file, wrote_folder,
}
use portainer_agent.Stack.{EdgeStack, StackManager}
use portainer_agent.Stack.Process.{stack_folder, stack_file_name, stack_file_content}
use portainer_agent.Stack.Invariant.{IsStacks}
use portainer_agent.Stack.Commands.{Commanded, After, build_deployer_params-After}
use portainer_agent.Stack.Params.{
  build_deployer_params, write_params, written_params, record_params, record_stack, deploy_stack,
  delete_stack,
}
use portainer_agent.Async.Schedules.{adds, removes}
use portainer_agent.Async.Commands.{
  AsyncService, CommandError, with_stacks, with_call, report_stack, stack_operation, stack_decoded,
  process_stack_command,
}

-- Whether an operation deletes, if it is known.
abbrev pub deletes_of : Str → Option Bool
deletes_of op = if adds op then some false else if removes op then some true else none

-- What a stack command reports, where `e` is the error of writing its file: for a removal
-- `removed`, else `acknowledged`, or `failed` with the error.
abbrev pub reported_status : Bool → Error → StatusType
reported_status deletes (some message) = StatusType.failed
reported_status true none = removed
reported_status false none = acknowledged

abbrev pub reported_message : Error → Str
reported_message none = []
reported_message (some message) = message

abbrev pub on_history : AsyncService → StackManager
on_history s = record s.stack_manager { calls = s.calls }

-- What writing the stack's file is: for a removal nothing; else the folder is made, and the file
-- is written there unless that failed.
abbrev pub writing : Outside → EdgeStackData → Bool → StackManager → Calls × Error
writing out sd true m = (m.calls, none)
writing out sd false m =
    let made = mkdir_all (stack_folder sd.id) in
    let wrote =
      os_write_file (stack_folder sd.id) (stack_file_name m.engine_type sd.name)
        (stack_file_content out m.engine_type sd.stack_file_content sd.registry_credentials)
        0o644 in
    elim (out.fails m.calls made) [
      | some message ↦ (made ∷ m.calls, some message)
      | none ↦ (wrote ∷ made ∷ m.calls, out.fails (made ∷ m.calls) wrote)
    ]

write_params-writing :
    (out : Outside) (sd : EdgeStackData) (deletes : Bool) (m : StackManager)
    → write_params out sd deletes m ≡ writing out sd deletes m
unfolding write_params write_file
write_params-writing out sd true m = refl
write_params-writing out sd false m = by_folder (out.fails m.calls (mkdir_all (stack_folder sd.id)))
  where
    by_folder :
        (e : Error)
        → wrote_folder out
            (stack_folder sd.id)
            (stack_file_name m.engine_type sd.name)
            (stack_file_content out m.engine_type sd.stack_file_content sd.registry_credentials)
            0o644
            (mkdir_all (stack_folder sd.id) ∷ m.calls)
            e
          ≡ (elim e [
            | some message ↦ (mkdir_all (stack_folder sd.id) ∷ m.calls, some message)
            | none ↦
                let wrote =
                  os_write_file
                    (stack_folder sd.id)
                    (stack_file_name m.engine_type sd.name)
                    (stack_file_content out m.engine_type sd.stack_file_content
                      sd.registry_credentials)
                    0o644 in
                (
                  wrote ∷ mkdir_all (stack_folder sd.id) ∷ m.calls,
                  out.fails (mkdir_all (stack_folder sd.id) ∷ m.calls) wrote,
                )
          ])
    by_folder none = unfold wrote_folder in refl
    by_folder (some message) = unfold wrote_folder in refl

-- The stack of the command before and after, if its file was written, and the others as they were;
-- all of them as they were, if it was not.
abbrev pub StacksAfter : EdgeStackData → Bool → Error → StackManager → StackManager → Type 0
StacksAfter sd deletes none m m' =
    Commanded deletes sd (lookup sd.id m.stacks) (lookup sd.id m'.stacks)
    × ((j : ℕ) → sd.id ≢ j → lookup j m'.stacks ≡ lookup j m.stacks)
StacksAfter sd deletes (some message) m m' = m'.stacks ≡ m.stacks

-- What a stack command leaves: one report after the calls that wrote its file, and the stacks of
-- the stack manager's command.
pub record IsReported (out : Outside) (sd : EdgeStackData) (deletes : Bool) (s s' : AsyncService)
    : Type 0 where
  pub calls :
      s'.calls
      ≡ set_edge_stack_status sd.id
          (reported_status deletes (writing out sd deletes (on_history s)).1)
          (reported_message (writing out sd deletes (on_history s)).1)
        ∷ (writing out sd deletes (on_history s)).0
  pub stacks :
      StacksAfter sd deletes
        (writing out sd deletes (on_history s)).1
        s.stack_manager
        s'.stack_manager

-- The same with the calls and the stacks that the code makes.
record IsMade (out : Outside) (sd : EdgeStackData) (deletes : Bool) (s s' : AsyncService)
    : Type 0 where
  calls :
      s'.calls
      ≡ set_edge_stack_status sd.id
          (reported_status deletes (write_params out sd deletes (on_history s)).1)
          (reported_message (write_params out sd deletes (on_history s)).1)
        ∷ (write_params out sd deletes (on_history s)).0
  stacks : s'.stack_manager.stacks ≡ (build_deployer_params out sd deletes (on_history s)).0.stacks

record_params-quiet :
    (sd : EdgeStackData) (deletes : Bool) (m : StackManager) (o : Option EdgeStack)
    → ((record_params sd deletes m o).0.calls ≡ m.calls) × ((record_params sd deletes m o).1 ≡ none)
unfolding record_params record_stack
record_params-quiet sd true m none = (refl, refl)
record_params-quiet sd false m none = (refl, refl)
record_params-quiet sd true m (some s) = (refl, refl)
record_params-quiet sd false m (some s) =
    if-elim (λ (r : StackManager × Error). (r.0.calls ≡ m.calls) × (r.1 ≡ none)) _
      (λ _. (refl, refl)) (λ _. (refl, refl))

written_params-quiet :
    (sd : EdgeStackData) (deletes : Bool) (m : StackManager) (e : Error)
    → ((written_params sd deletes m e).0.calls ≡ m.calls) × ((written_params sd deletes m e).1 ≡ e)
unfolding written_params
written_params-quiet sd deletes m (some message) = (refl, refl)
written_params-quiet sd deletes m none = record_params-quiet sd deletes m (lookup sd.id m.stacks)

module _ (out : Outside) (sd : EdgeStackData) (s : AsyncService) where
  report_stack-IsMade :
      (deletes : Bool) (r : AsyncService × Error)
      → r.0.calls ≡ (write_params out sd deletes (on_history s)).0
      → r.1 ≡ (write_params out sd deletes (on_history s)).1
      → r.0.stack_manager.stacks ≡ (build_deployer_params out sd deletes (on_history s)).0.stacks
      → IsMade out sd deletes s (report_stack out sd.id (reported_status deletes none) r).0
  unfolding report_stack with_call
  report_stack-IsMade deletes (s', none) hc he hs = record {
    calls = rw (← he, ← hc) refl;
    stacks = hs;
  }
  report_stack-IsMade deletes (s', some message) hc he hs = record {
    calls = rw (← he, ← hc) refl;
    stacks = hs;
  }

  with_stacks-IsMade :
      (deletes : Bool)
      → IsMade out sd deletes s
          (report_stack out sd.id
            (reported_status deletes none)
            (with_stacks (build_deployer_params out sd deletes) s)).0
  unfolding with_stacks build_deployer_params
  with_stacks-IsMade deletes =
      let (hc, he) =
        written_params-quiet sd deletes _ (write_params out sd deletes (on_history s)).1 in
      report_stack-IsMade deletes _ hc he refl

  stack_operation-IsMade :
      (op : Str) (deletes : Bool)
      → deletes_of op ≡ some deletes
      → IsMade out sd deletes s (stack_operation out op s sd).0
  unfolding stack_operation deploy_stack delete_stack
  stack_operation-IsMade op deletes known = chosen (adds op) (removes op) _ known
    where
      chosen :
          (a r : Bool) (z : AsyncService × Option CommandError)
          → (if a then some false else if r then some true else none) ≡ some deletes
          → IsMade out sd deletes s
              (if a
                then report_stack out sd.id acknowledged
                    (with_stacks (build_deployer_params out sd false) s)
                else if r
                then report_stack out sd.id removed
                    (with_stacks (build_deployer_params out sd true) s)
                else z).0
      chosen true r z h =
          subst
            (λ d.
              IsMade out sd d s
                (report_stack out sd.id acknowledged
                  (with_stacks (build_deployer_params out sd false) s)).0)
            (ap (λ (o : Option Bool). elim o [ none ↦ false | some b ↦ b ]) h)
            (with_stacks-IsMade false)
      chosen false true z h =
          subst
            (λ d.
              IsMade out sd d s
                (report_stack out sd.id removed
                  (with_stacks (build_deployer_params out sd true) s)).0)
            (ap (λ (o : Option Bool). elim o [ none ↦ false | some b ↦ b ]) h)
            (with_stacks-IsMade true)
      chosen false false z h = cc

  IsMade-IsReported :
      (deletes : Bool) (s' : AsyncService)
      → IsStacks s.stack_manager.stacks
      → IsMade out sd deletes s s'
      → IsReported out sd deletes s s'
  IsMade-IsReported deletes s' h made =
      let same = write_params-writing out sd deletes (on_history s) in
      record {
        calls =
            subst
              (λ (w : Calls × Error).
                s'.calls
                ≡ set_edge_stack_status sd.id (reported_status deletes w.1) (reported_message w.1)
                  ∷ w.0)
              same made.calls;
        stacks =
            subst
              (λ (w : Calls × Error). StacksAfter sd deletes w.1 s.stack_manager s'.stack_manager)
              same
              (subst
                (λ stacks.
                  StacksAfter sd deletes (write_params out sd deletes (on_history s)).1
                    s.stack_manager (record s'.stack_manager { stacks = stacks }))
                (sym made.stacks)
                (by_error _ refl (build_deployer_params-After out sd deletes (on_history s) h)));
      }
    where
      by_error :
          (e : Error)
          → (write_params out sd deletes (on_history s)).1 ≡ e
          → (((write_params out sd deletes (on_history s)).1 ≢ none)
              × ((build_deployer_params out sd deletes (on_history s)).0.stacks
                  ≡ s.stack_manager.stacks)
              × ((build_deployer_params out sd deletes (on_history s)).1 ≢ none))
            ⊎ (((write_params out sd deletes (on_history s)).1 ≡ none)
                × After sd deletes
                    (on_history s)
                    (build_deployer_params out sd deletes (on_history s)))
          → StacksAfter sd deletes e s.stack_manager (record s'.stack_manager {
            stacks = (build_deployer_params out sd deletes (on_history s)).0.stacks;
          })
      by_error none w (inl (failed, kept, err)) = absurd (failed w)
      by_error none w (inr (ok, after)) = (after.1, after.2)
      by_error (some message) w (inl (failed, kept, err)) = kept
      by_error (some message) w (inr (ok, after)) = cc (w, ok)

  -- A decoded stack command of a known operation makes the calls that write its file, none for a
  -- removal, and then reports once: `failed` with the error if the file was not written, else
  -- `acknowledged`, or `removed` for a removal, which is reported before the deployer is called.
  -- If the file was written, the stack of the command's identifier is then marked as the cases of
  -- `Commanded` say and the others are as they were; if not, all stacks are as they were.
  pub process_stack_command-IsReported :
      (c : AsyncCommand) (deletes : Bool)
      → IsStacks s.stack_manager.stacks
      → out.decode_stack c.value ≡ (sd, none)
      → deletes_of c.operation ≡ some deletes
      → IsReported out sd deletes s (process_stack_command out c s).0
  unfolding process_stack_command stack_decoded
  process_stack_command-IsReported c deletes h decoded known = IsMade-IsReported deletes _ h (
      subst
        (λ (r : EdgeStackData × Error).
          IsMade out sd deletes s (stack_decoded out c.operation s r).0)
        (sym decoded) (stack_operation-IsMade c.operation deletes known))
