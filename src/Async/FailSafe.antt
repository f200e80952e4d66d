-- ===== src/Async/FailSafe.antt =====
-- The intervals and the tickers of the async mode: the agent never stops polling for good.
use portainer_agent.Base.{
  ℕ, ℤ, is_positive, ◌≡◌, refl, ◌∙◌, sym, subst, Bool, true, false, not, ◌&&◌, ◌||◌, Option, none,
  some, List, [], ◌∷◌, Str, str_eq, codes, if◌then◌else◌, if-elim, arith,
}
use portainer_agent.Agent.{
  AsyncCommand, PollStatusResponse, EdgeStackData, EdgeJobData, Schedule, LogCommandData,
  ContainerCommandData, ImageCommandData, VolumeCommandData,
}
use portainer_agent.Outside.{Outside, Call, Error, StatusType, acknowledged, removed}
use portainer_agent.Scheduler.{add_schedule, remove_schedule}
use portainer_agent.Stack.Params.{deploy_stack, delete_stack}
use portainer_agent.Async.Commands.{
  AsyncService, with_cron, with_stacks, with_call, report_stack, stack_operation, stack_decoded,
  process_stack_command, schedule_operation, schedule_decoded, process_schedule_command,
  log_decoded, process_log_command, docker_operation, container_decoded, process_container_command,
  image_decoded, process_image_command, volume_decoded, process_volume_command, process_command,
  process_async_commands,
}
use portainer_agent.Async.Loop.{
  AsyncLoop, create_ticker, update_ticker, fail_safe, create_tickers, begin,
  start_or_keep_coalescing, set_intervals, update_intervals, collect_logs, status_received,
  poll_async, Event, ping_tick, snapshot_tick, command_tick, coalescing_tick, started, stopped,
  step, run,
}

-- The intervals and the tickers of a service.
pub record Timing : Type 0 where
  pub ping_interval : ℤ
  pub snapshot_interval : ℤ
  pub command_interval : ℤ
  pub ping_ticker : Option ℤ
  pub snapshot_ticker : Option ℤ
  pub command_ticker : Option ℤ

abbrev pub timing : AsyncService → Timing
timing s = record {
  ping_interval = s.ping_interval;
  snapshot_interval = s.snapshot_interval;
  command_interval = s.command_interval;
  ping_ticker = s.ping_ticker;
  snapshot_ticker = s.snapshot_ticker;
  command_ticker = s.command_ticker;
}

-- Each ticker runs with its interval if that is positive.
pub record IsTicking (t : Timing) : Type 0 where
  pub ping : t.ping_ticker ≡ create_ticker t.ping_interval
  pub snapshot : t.snapshot_ticker ≡ create_ticker t.snapshot_interval
  pub command : t.command_ticker ≡ create_ticker t.command_interval

-- One of the intervals is positive, so that its ticker runs.
pub record IsAwake (t : Timing) : Type 0 where
  pub ticking : IsTicking t
  pub positive :
      (is_positive t.ping_interval
        || (is_positive t.snapshot_interval || is_positive t.command_interval))
      ≡ true

one_positive : (a b c : Bool) → (not a && (not b && not c)) ≡ false → (a || (b || c)) ≡ true
one_positive true b c h = refl
one_positive false true c h = refl
one_positive false false true h = refl
one_positive false false false h = sym h

-- The commands leave the intervals and the tickers alone.
record KeepsTiming {ℓ} {E : Type ℓ} (s : AsyncService) (o : AsyncService × E) : Type 0 where
  same : timing o.0 ≡ timing s

module _ (out : Outside) (s : AsyncService) where
  unchanged {ℓ} : {E : Type ℓ} (o : AsyncService × E) → timing o.0 ≡ timing s → KeepsTiming s o
  unchanged o h = record { same = h }

  -- The branches of a conditional.
  or_else {ℓ} :
      {E : Type ℓ} (b : Bool) (x y : AsyncService × E)
      → KeepsTiming s x
      → KeepsTiming s y
      → KeepsTiming s (if b then x else y)
  or_else true x y hx hy = hx
  or_else false x y hx hy = hy

  report_stack-timing :
      (id : ℕ) (status : StatusType) (r : AsyncService × Error)
      → timing r.0 ≡ timing s
      → KeepsTiming s (report_stack out id status r)
  unfolding report_stack with_call
  report_stack-timing id status (s', none) h = unchanged _ h
  report_stack-timing id status (s', some message) h = unchanged _ h

  stack_decoded-timing :
      (op : Str) (r : EdgeStackData × Error) → KeepsTiming s (stack_decoded out op s r)
  unfolding stack_decoded stack_operation with_stacks
  stack_decoded-timing op (sd, some message) = unchanged _ refl
  stack_decoded-timing op (sd, none) =
      or_else (str_eq op (codes "add") || str_eq op (codes "replace")) _ _
        (report_stack-timing sd.id acknowledged (with_stacks (deploy_stack out sd) s) refl)
        (or_else (str_eq op (codes "remove")) _ _
          (report_stack-timing sd.id removed (with_stacks (delete_stack out sd) s) refl)
          (unchanged _ refl))

  schedule_operation-timing :
      (op : Str) (job : Schedule) → KeepsTiming s (schedule_operation out op s job)
  unfolding schedule_operation with_cron
  schedule_operation-timing op job =
      or_else (str_eq op (codes "add") || str_eq op (codes "replace")) _ _
        (unchanged (with_cron (add_schedule out job) s) refl)
        (or_else (str_eq op (codes "remove")) _ _
          (unchanged (with_cron (remove_schedule out job) s) refl) (unchanged _ refl))

  schedule_decoded-timing :
      (op : Str) (r : EdgeJobData × Error) → KeepsTiming s (schedule_decoded out op s r)
  unfolding schedule_decoded
  schedule_decoded-timing op (job, some message) = unchanged _ refl
  schedule_decoded-timing op (job, none) = unchanged _ (schedule_operation-timing op _).same

  log_decoded-timing : (r : LogCommandData × Error) → KeepsTiming s (log_decoded out s r)
  unfolding log_decoded with_call
  log_decoded-timing (d, some message) = unchanged _ refl
  log_decoded-timing (d, none) = unchanged _ refl

  docker_operation-timing :
      (cmd op : Str) (c : Option Call) → KeepsTiming s (docker_operation out cmd op s c)
  unfolding docker_operation with_call
  docker_operation-timing cmd op none = unchanged _ refl
  docker_operation-timing cmd op (some c) = unchanged _ refl

  container_decoded-timing :
      (op : Str) (r : ContainerCommandData × Error) → KeepsTiming s (container_decoded out op s r)
  unfolding container_decoded
  container_decoded-timing op (d, some message) = unchanged _ refl
  container_decoded-timing op (d, none) = docker_operation-timing _ op _

  image_decoded-timing :
      (op : Str) (r : ImageCommandData × Error) → KeepsTiming s (image_decoded out op s r)
  unfolding image_decoded
  image_decoded-timing op (d, some message) = unchanged _ refl
  image_decoded-timing op (d, none) = docker_operation-timing _ op _

  volume_decoded-timing :
      (op : Str) (r : VolumeCommandData × Error) → KeepsTiming s (volume_decoded out op s r)
  unfolding volume_decoded
  volume_decoded-timing op (d, some message) = unchanged _ refl
  volume_decoded-timing op (d, none) = docker_operation-timing _ op _

  process_command-timing : (c : AsyncCommand) → KeepsTiming s (process_command out c s)
  unfolding process_command process_stack_command process_schedule_command process_log_command
      process_container_command process_image_command process_volume_command
  process_command-timing c =
      or_else (str_eq c.type (codes "edgeStack")) _ _
        (stack_decoded-timing c.operation (out.decode_stack c.value))
        (or_else (str_eq c.type (codes "edgeJob")) _ _
          (schedule_decoded-timing c.operation (out.decode_job c.value))
          (or_else (str_eq c.type (codes "edgeLog")) _ _
            (log_decoded-timing (out.decode_log c.value))
            (or_else (str_eq c.type (codes "container")) _ _
              (container_decoded-timing c.operation (out.decode_container c.value))
              (or_else (str_eq c.type (codes "image")) _ _
                (image_decoded-timing c.operation (out.decode_image c.value))
                (or_else (str_eq c.type (codes "volume")) _ _
                  (volume_decoded-timing c.operation (out.decode_volume c.value))
                  (unchanged _ refl))))))

module _ (out : Outside) where
  process_async_commands-timing :
      (cs : List AsyncCommand) (s : AsyncService)
      → timing (process_async_commands out cs s) ≡ timing s
  unfolding process_async_commands
  process_async_commands-timing [] s = refl
  process_async_commands-timing (c ∷ cs) s =
      process_async_commands-timing cs _ ∙ (process_command-timing out s c).same

  fail_safe-IsAwake : (s : AsyncService) → IsTicking (timing s) → IsAwake (timing (fail_safe s))
  unfolding fail_safe update_ticker create_ticker is_positive
  fail_safe-IsAwake s h =
      if-elim (λ (s' : AsyncService). IsAwake (timing s')) _
        (λ _. record {
          ticking = record { ping = refl; snapshot = h.snapshot; command = h.command };
          positive = refl;
        })
        (λ e. record {
          ticking = h;
          positive =
              one_positive (is_positive s.ping_interval) (is_positive s.snapshot_interval)
                (is_positive s.command_interval) e;
        })

  set_intervals-IsTicking :
      (r : PollStatusResponse) (s : AsyncService) → IsTicking (timing (set_intervals r s))
  unfolding set_intervals update_ticker create_ticker
  set_intervals-IsTicking r s = record {
    ping = ground arith;
    snapshot = ground arith;
    command = ground arith;
  }

  update_intervals-IsAwake :
      (r : PollStatusResponse) (s : AsyncService)
      → IsAwake (timing s)
      → IsAwake (timing (update_intervals r s))
  unfolding update_intervals
  update_intervals-IsAwake r s h =
      if-elim (λ s'. IsAwake (timing s')) _
        (λ _. fail_safe-IsAwake (set_intervals r s) (set_intervals-IsTicking r s)) (λ _. h)

  status_received-IsAwake :
      (r : PollStatusResponse) (s : AsyncService) (e : Error)
      → IsAwake (timing s)
      → IsAwake (timing (status_received out r s e).0)
  unfolding status_received collect_logs with_cron
  status_received-IsAwake r s (some e) h = h
  status_received-IsAwake r s none h =
      update_intervals-IsAwake r _
        (subst IsAwake (sym (process_async_commands-timing r.async_commands s)) h)

  start_or_keep-service : (l : AsyncLoop) → (start_or_keep_coalescing l).service ≡ l.service
  unfolding start_or_keep_coalescing
  start_or_keep-service l =
      if-elim (λ (l' : AsyncLoop). l'.service ≡ l.service) _ (λ _. refl) (λ _. refl)

  ticked :
      (l l' : AsyncLoop)
      → l'.service ≡ l.service
      → IsAwake (timing l.service)
      → IsAwake (timing (if l.listens then start_or_keep_coalescing l' else l).service)
  ticked l l' same h =
      if-elim (λ (k : AsyncLoop). IsAwake (timing k.service)) l.listens
        (λ _. subst (λ k. IsAwake (timing k)) (sym (start_or_keep-service l' ∙ same)) h) (λ _. h)

  step-IsAwake :
      (l : AsyncLoop) (e : Event)
      → IsAwake (timing l.service)
      → IsAwake (timing (step out l e).service)
  unfolding step poll_async
  step-IsAwake l ping_tick h = ticked l l refl h
  step-IsAwake l snapshot_tick h = ticked l (record l { snapshot_flag = true }) refl h
  step-IsAwake l command_tick h = ticked l (record l { command_flag = true }) refl h
  step-IsAwake l coalescing_tick h = status_received-IsAwake _ _ _ h
  step-IsAwake l started h = h
  step-IsAwake l stopped h = h

  run-IsAwake_from :
      (l : AsyncLoop) (es : List Event)
      → IsAwake (timing l.service)
      → IsAwake (timing (run out l es).service)
  unfolding run
  run-IsAwake_from l [] h = h
  run-IsAwake_from l (e ∷ es) h = run-IsAwake_from (step out l e) es (step-IsAwake l e h)

  -- Whatever intervals the server sends and whatever happens, each ticker of the async mode runs
  -- with its interval if that is positive and is stopped if not, and at least one of the three
  -- runs.
  pub run-IsAwake :
      (s : AsyncService) (es : List Event) → IsAwake (timing (run out (begin s) es).service)
  unfolding begin create_tickers
  run-IsAwake s es =
      run-IsAwake_from _ es
        (fail_safe-IsAwake _ (record { ping = refl; snapshot = refl; command = refl }))
