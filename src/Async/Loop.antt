-- ===== src/Async/Loop.antt =====
-- The tickers and the loop of edge/poll_async.go. Each case of the loop's `select` is an event.
use portainer_agent.Base.{
  ℤ, pos, int_eq, is_positive, Bool, true, false, not, ◌&&◌, ◌||◌, Option, none, some, List, [],
  ◌∷◌, ◌++◌, Str, codes, if◌then◌else◌,
}
use portainer_agent.Agent.{PollStatusResponse}
use portainer_agent.Outside.{Outside, Error, perform, get_environment_status}
use portainer_agent.Scheduler.{process_schedule_logs_collection}
use portainer_agent.Async.Commands.{AsyncService, with_cron, process_async_commands}

-- In nanoseconds.
abbrev pub fail_safe_interval : ℤ
fail_safe_interval = pos 60000000000

-- createTicker and updateTicker leave a ticker running with a positive period only.
unfoldable pub create_ticker : ℤ → Option ℤ
create_ticker i = if is_positive i then some i else none

unfoldable pub update_ticker : Option ℤ → ℤ → Option ℤ
update_ticker t i = if not (is_positive i) then none else some i

unfoldable pub fail_safe : AsyncService → AsyncService
fail_safe s =
    if not (is_positive s.ping_interval)
      && (not (is_positive s.snapshot_interval) && not (is_positive s.command_interval))
    then record s {
      ping_interval = fail_safe_interval;
      ping_ticker = update_ticker s.ping_ticker fail_safe_interval;
    }
    else s

-- The loop's variables beside the service. The three channels are set and reset together:
-- `listens` says that they are those of the tickers.
pub record AsyncLoop : Type 0 where
  pub service : AsyncService
  pub listens : Bool
  pub snapshot_flag : Bool
  pub command_flag : Bool
  pub coalescing_flag : Bool
  pub coalescing_ticker : Bool

unfoldable pub create_tickers : AsyncService → AsyncService
create_tickers s = record s {
  ping_ticker = create_ticker s.ping_interval;
  snapshot_ticker = create_ticker s.snapshot_interval;
  command_ticker = create_ticker s.command_interval;
}

-- startStatusPollLoopAsync up to its loop.
unfoldable pub begin : AsyncService → AsyncLoop
begin s = record {
  service = fail_safe (create_tickers s);
  listens = true;
  snapshot_flag = false;
  command_flag = false;
  coalescing_flag = false;
  coalescing_ticker = false;
}

unfoldable pub start_or_keep_coalescing : AsyncLoop → AsyncLoop
start_or_keep_coalescing l =
    if l.coalescing_flag then l else record l { coalescing_ticker = true; coalescing_flag = true }

unfoldable pub poll_flags : Bool → Bool → List Str
poll_flags snapshot command =
    (if snapshot then codes "snapshot" ∷ [] else [])
    ++ (if command then codes "command" ∷ [] else [])

unfoldable pub set_intervals : PollStatusResponse → AsyncService → AsyncService
set_intervals r s = record s {
  ping_interval = r.ping_interval;
  snapshot_interval = r.snapshot_interval;
  command_interval = r.command_interval;
  ping_ticker = update_ticker s.ping_ticker r.ping_interval;
  snapshot_ticker = update_ticker s.snapshot_ticker r.snapshot_interval;
  command_ticker = update_ticker s.command_ticker r.command_interval;
}

unfoldable pub update_intervals : PollStatusResponse → AsyncService → AsyncService
update_intervals r s =
    if not (int_eq r.ping_interval s.ping_interval)
      || (not (int_eq r.snapshot_interval s.snapshot_interval)
          || not (int_eq r.command_interval s.command_interval))
    then fail_safe (set_intervals r s)
    else s

unfoldable pub collect_logs : AsyncService → AsyncService
collect_logs s = (with_cron (λ m. (process_schedule_logs_collection m, none)) s).0

unfoldable pub status_received :
    Outside → PollStatusResponse → AsyncService → Error → AsyncService × Error
status_received out r s (some e) = (s, some e)
status_received out r s none =
    (update_intervals r (collect_logs (process_async_commands out r.async_commands s)), none)

unfoldable pub poll_async : Outside → Bool → Bool → AsyncService → AsyncService × Error
poll_async out snapshot command s =
    let r = out.environment_status s.calls in
    let (calls', e) = perform out (get_environment_status (poll_flags snapshot command)) s.calls in
    status_received out r (record s { calls = calls' }) e

pub data Event : Type 0 where
  ping_tick snapshot_tick command_tick coalescing_tick started stopped : Event

-- A tick of a channel that the loop does not look at stays unseen. The error of a poll is only
-- logged.
unfoldable pub step : Outside → AsyncLoop → Event → AsyncLoop
step out l ping_tick = if l.listens then start_or_keep_coalescing l else l
step out l snapshot_tick =
    if l.listens then start_or_keep_coalescing (record l { snapshot_flag = true }) else l
step out l command_tick =
    if l.listens then start_or_keep_coalescing (record l { command_flag = true }) else l
step out l coalescing_tick = record {
  service = (poll_async out l.snapshot_flag l.command_flag l.service).0;
  listens = true;
  snapshot_flag = false;
  command_flag = false;
  coalescing_flag = false;
  coalescing_ticker = false;
}
step out l started = record l { listens = true }
step out l stopped = record l { listens = false }

unfoldable pub run : Outside → AsyncLoop → List Event → AsyncLoop
run out l [] = l
run out l (e ∷ es) = run out (step out l e) es
