-- ===== src/Async/Examples.antt =====
-- The theorems of the async mode at concrete inputs.
use portainer_agent.Base.{pos, refl, false, none, [], ◌∷◌, codes, str_eq}
use portainer_agent.Agent.{AsyncCommand}
use portainer_agent.Outside.Worlds.{quiet, stack_data}
use portainer_agent.Scheduler.{new_cron_manager}
use portainer_agent.Stack.Lifecycle.{new_stack_manager}
use portainer_agent.Async.Commands.{AsyncService, process_stack_command}
use portainer_agent.Async.Loop.{
  begin, snapshot_tick, ping_tick, command_tick, coalescing_tick, stopped, run, step,
  start_or_keep_coalescing,
}
use portainer_agent.Async.FailSafe.{IsAwake, timing, run-IsAwake}
use portainer_agent.Async.Coalescing.{request-IsAnswered}
use portainer_agent.Async.Flags.{IsAnswered}
use portainer_agent.Async.Effects.{IsReported, process_stack_command-IsReported}

-- With no interval set, as newPollService leaves it.
abbrev service : AsyncService
service = record {
  ping_interval = pos 0;
  snapshot_interval = pos 0;
  command_interval = pos 0;
  ping_ticker = none;
  snapshot_ticker = none;
  command_ticker = none;
  cron_manager = new_cron_manager;
  stack_manager = new_stack_manager;
  calls = [];
}

run-IsAwake_example :
    IsAwake
      (timing (run quiet (begin service) (ping_tick ∷ coalescing_tick ∷ stopped ∷ [])).service)
run-IsAwake_example = run-IsAwake quiet service (ping_tick ∷ coalescing_tick ∷ stopped ∷ [])

request-IsAnswered_example : IsAnswered quiet snapshot_tick (
    run quiet
      (step quiet (run quiet (begin service) (ping_tick ∷ [])) snapshot_tick)
      (stopped ∷ command_tick ∷ []))
unfolding run step begin start_or_keep_coalescing
request-IsAnswered_example =
    request-IsAnswered quiet service (ping_tick ∷ []) snapshot_tick (stopped ∷ command_tick ∷ [])
      refl refl (refl, (refl, tt))

abbrev add_job : AsyncCommand
add_job = record { type = codes "edgeJob"; timestamp = 11; operation = codes "add"; value = [] }

abbrev replace_stack : AsyncCommand
replace_stack = record {
  type = codes "edgeStack";
  timestamp = 12;
  operation = codes "replace";
  value = [];
}

process_stack_command-IsReported_example :
    IsReported quiet stack_data false service (process_stack_command quiet replace_stack service).0
unfolding str_eq new_stack_manager
process_stack_command-IsReported_example =
    process_stack_command-IsReported quiet stack_data service replace_stack false
      (record { distinct = tt; entries = tt }) refl refl
