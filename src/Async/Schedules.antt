-- ===== src/Async/Schedules.antt =====
-- What the schedule commands of an async poll do to the schedules, and where its commands end.
use portainer_agent.Base.{
  ℕ, ◌==◌, ◌≡◌, refl, sym, subst, Bool, true, false, ◌||◌, Option, none, some, List, [], ◌∷◌, ◌++◌,
  Str, codes, str_eq, lookup, if◌then◌else◌,
}
use portainer_agent.Agent.{AsyncCommand, EdgeJobData, Schedule}
use portainer_agent.Outside.{Outside, Error, set_last_command_timestamp}
use portainer_agent.Scheduler.{add_schedule, remove_schedule}
use portainer_agent.Scheduler.Flush.{add_schedule-lookup, remove_schedule-lookup}
use portainer_agent.Async.Commands.{
  AsyncService, with_cron, schedule_of, schedule_operation, schedule_decoded,
  process_schedule_command, process_command, process_async_commands,
}

-- The operations of a command that add or replace, and those that remove.
abbrev pub adds : Str → Bool
adds op = str_eq op (codes "add") || str_eq op (codes "replace")

abbrev pub removes : Str → Bool
removes op = str_eq op (codes "remove")

-- The schedule that is managed under `j` after a command on `job`, from the one before.
abbrev pub expected_schedule : Str → Schedule → ℕ → Option Schedule → Option Schedule
expected_schedule op job j before =
    if adds op
    then (if job.id == j then some job else before)
    else if removes op
    then (if job.id == j then none else before)
    else before

module _ (out : Outside) where
  schedule_operation-lookup :
      (op : Str) (s : AsyncService) (job : Schedule) (j : ℕ)
      → lookup j (schedule_operation out op s job).0.cron_manager.managed_schedules
        ≡ expected_schedule op job j (lookup j s.cron_manager.managed_schedules)
  unfolding schedule_operation with_cron
  schedule_operation-lookup op s job j =
      by_branch (adds op) (removes op) (with_cron (add_schedule out job) s)
        (with_cron (remove_schedule out job) s) _
        (add_schedule-lookup out job (record s.cron_manager { calls = s.calls }) j)
        (remove_schedule-lookup out job (record s.cron_manager { calls = s.calls }) j) refl
    where
      by_branch :
          (a r : Bool) (x y z : AsyncService × Error) {x' y' z' : Option Schedule}
          → lookup j x.0.cron_manager.managed_schedules ≡ x'
          → lookup j y.0.cron_manager.managed_schedules ≡ y'
          → lookup j z.0.cron_manager.managed_schedules ≡ z'
          → lookup j (if a then x else (if r then y else z)).0.cron_manager.managed_schedules
            ≡ (if a then x' else (if r then y' else z'))
      by_branch true r x y z hx hy hz = hx
      by_branch false true x y z hx hy hz = hy
      by_branch false false x y z hx hy hz = hz

  -- A schedule command that is decoded does to the schedule of its identifier what its operation
  -- says, also when the cron file could not be written, and leaves the other schedules alone; an
  -- operation that is neither `add`, `replace` nor `remove` changes no schedule.
  pub process_schedule_command-lookup :
      (c : AsyncCommand) (s : AsyncService) (job : EdgeJobData) (j : ℕ)
      → out.decode_job c.value ≡ (job, none)
      → lookup j (process_schedule_command out c s).0.cron_manager.managed_schedules
        ≡ expected_schedule c.operation
            (schedule_of job)
            j
            (lookup j s.cron_manager.managed_schedules)
  unfolding process_schedule_command schedule_decoded
  process_schedule_command-lookup c s job j decoded =
      subst
        (λ (r : EdgeJobData × Error).
          lookup j (schedule_decoded out c.operation s r).0.cron_manager.managed_schedules
          ≡ expected_schedule c.operation (schedule_of job) j
              (lookup j s.cron_manager.managed_schedules))
        (sym decoded) (schedule_operation-lookup c.operation s (schedule_of job) j)

  -- The newest call after a list of commands is the time stamp of the last one, whatever the
  -- commands did and whether they failed, and that command worked on what the others left.
  pub process_async_commands-last :
      (cs : List AsyncCommand) (c : AsyncCommand) (s : AsyncService)
      → (process_async_commands out (cs ++ c ∷ []) s).calls
        ≡ set_last_command_timestamp c.timestamp
          ∷ (process_command out c (process_async_commands out cs s)).0.calls
  unfolding process_async_commands
  process_async_commands-last [] c s = refl
  process_async_commands-last (d ∷ cs) c s = process_async_commands-last cs c _
