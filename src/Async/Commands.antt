-- ===== src/Async/Commands.antt =====
-- The commands of edge/poll_async.go: what the server asks for in an answer to an async poll.
use portainer_agent.Base.{
  ℕ, ℤ, Option, none, some, List, [], ◌∷◌, Str, codes, str_eq, ◌||◌, if◌then◌else◌,
}
use portainer_agent.Agent.{
  Schedule, EdgeStackData, EdgeJobData, LogCommandData, ContainerCommandData, ImageCommandData,
  VolumeCommandData, AsyncCommand,
}
use portainer_agent.Outside.{
  Outside, Call, Calls, Error, StatusType, perform, acknowledged, removed, set_edge_stack_status,
  set_last_command_timestamp, enqueue_log_collection, container_start, container_restart,
  container_stop, container_remove, container_kill, image_remove, volume_remove,
}
use portainer_agent.Scheduler.{CronManager, add_schedule, remove_schedule}
use portainer_agent.Stack.{StackManager}
use portainer_agent.Stack.Params.{deploy_stack, delete_stack}

-- The fields of PollService that the async mode uses. A ticker is `none` if it is stopped, else
-- it holds its period. `calls` is the history of the calls to the outside.
pub record AsyncService : Type 0 where
  pub ping_interval : ℤ
  pub snapshot_interval : ℤ
  pub command_interval : ℤ
  pub ping_ticker : Option ℤ
  pub snapshot_ticker : Option ℤ
  pub command_ticker : Option ℤ
  pub cron_manager : CronManager
  pub stack_manager : StackManager
  pub calls : Calls

-- The error of a command: an operationError with its command, operation and message, or another.
pub data CommandError : Type 0 where
  operation_error : Str → Str → Str → CommandError
  plain_error : Str → CommandError

unfoldable pub new_operation_error : Str → Str → Error → Option CommandError
new_operation_error cmd op none = none
new_operation_error cmd op (some message) = some (operation_error cmd op message)

unfoldable pub plain : Error → Option CommandError
plain none = none
plain (some message) = some (plain_error message)

abbrev pub Outcome : Type 0
Outcome = AsyncService × Option CommandError

-- The schedule manager and the stack manager work on the service's history.
unfoldable pub with_cron : (CronManager → CronManager × Error) → AsyncService → AsyncService × Error
with_cron f s =
    let (m, e) = f (record s.cron_manager { calls = s.calls }) in
    (record s { cron_manager = m; calls = m.calls }, e)

unfoldable pub with_stacks :
    (StackManager → StackManager × Error) → AsyncService → AsyncService × Error
with_stacks f s =
    let (m, e) = f (record s.stack_manager { calls = s.calls }) in
    (record s { stack_manager = m; calls = m.calls }, e)

unfoldable pub with_call : Outside → Call → AsyncService → AsyncService × Error
with_call out c s = let (calls', e) = perform out c s.calls in (record s { calls = calls' }, e)

-- What processStackCommand reports: the status that it has set for the operation, or the error.
unfoldable pub report_stack : Outside → ℕ → StatusType → AsyncService × Error → Outcome
report_stack out id status (s, none) =
    let (s', e) = with_call out (set_edge_stack_status id status []) s in (s', plain e)
report_stack out id status (s, some message) =
    let (s', e) = with_call out (set_edge_stack_status id StatusType.failed message) s in
    (s', plain e)

unfoldable pub stack_operation : Outside → Str → AsyncService → EdgeStackData → Outcome
stack_operation out op s sd =
    if str_eq op (codes "add") || str_eq op (codes "replace")
    then report_stack out sd.id acknowledged (with_stacks (deploy_stack out sd) s)
    else if str_eq op (codes "remove")
    then report_stack out sd.id removed (with_stacks (delete_stack out sd) s)
    else (s, some (operation_error (codes "schedule") op (codes "operation not supported")))

unfoldable pub stack_decoded : Outside → Str → AsyncService → EdgeStackData × Error → Outcome
stack_decoded out op s (sd, some message) =
    (s, some (operation_error (codes "stack") (codes "n/a") message))
stack_decoded out op s (sd, none) = stack_operation out op s sd

unfoldable pub process_stack_command : Outside → AsyncCommand → AsyncService → Outcome
process_stack_command out c s = stack_decoded out c.operation s (out.decode_stack c.value)

unfoldable pub schedule_of : EdgeJobData → Schedule
schedule_of job = record {
  id = job.id;
  cron_expression = job.cron_expression;
  script = job.script_file_content;
  version = job.version;
  collect_logs = job.collect_logs;
}

unfoldable pub schedule_operation : Outside → Str → AsyncService → Schedule → AsyncService × Error
schedule_operation out op s job =
    if str_eq op (codes "add") || str_eq op (codes "replace")
    then with_cron (add_schedule out job) s
    else if str_eq op (codes "remove")
    then with_cron (remove_schedule out job) s
    else (s, some (codes "operation not supported"))

unfoldable pub schedule_decoded : Outside → Str → AsyncService → EdgeJobData × Error → Outcome
schedule_decoded out op s (job, some message) =
    (s, some (operation_error (codes "schedule") (codes "n/a") message))
schedule_decoded out op s (job, none) =
    let (s', e) = schedule_operation out op s (schedule_of job) in
    (s', new_operation_error (codes "schedule") op e)

unfoldable pub process_schedule_command : Outside → AsyncCommand → AsyncService → Outcome
process_schedule_command out c s = schedule_decoded out c.operation s (out.decode_job c.value)

-- The error of the queue is dropped.
unfoldable pub log_decoded : Outside → AsyncService → LogCommandData × Error → Outcome
log_decoded out s (d, some message) =
    (s, some (operation_error (codes "log") (codes "n/a") message))
log_decoded out s (d, none) = ((with_call out (enqueue_log_collection d) s).0, none)

unfoldable pub process_log_command : Outside → AsyncCommand → AsyncService → Outcome
process_log_command out c s = log_decoded out s (out.decode_log c.value)

-- The Docker calls of docker/containers.go, docker/images.go and docker/volumes.go. The switches
-- of the code have no default.
unfoldable pub container_call : ContainerCommandData → Option Call
container_call d =
    if str_eq d.container_operation (codes "start")
    then some (container_start d.container_name d.container_start_options)
    else if str_eq d.container_operation (codes "restart")
    then some (container_restart d.container_name)
    else if str_eq d.container_operation (codes "stop")
    then some (container_stop d.container_name)
    else if str_eq d.container_operation (codes "delete")
    then some (container_remove d.container_name d.container_remove_options)
    else if str_eq d.container_operation (codes "kill")
    then some (container_kill d.container_name (codes "KILL"))
    else none

unfoldable pub image_call : ImageCommandData → Option Call
image_call d =
    if str_eq d.image_operation (codes "delete")
    then some (image_remove d.image_name d.image_remove_options)
    else none

unfoldable pub volume_call : VolumeCommandData → Option Call
volume_call d =
    if str_eq d.volume_operation (codes "delete")
    then some (volume_remove d.volume_name d.force_remove)
    else none

unfoldable pub docker_operation : Outside → Str → Str → AsyncService → Option Call → Outcome
docker_operation out cmd op s none = (s, none)
docker_operation out cmd op s (some c) =
    let (s', e) = with_call out c s in (s', new_operation_error cmd op e)

unfoldable pub container_decoded :
    Outside → Str → AsyncService → ContainerCommandData × Error → Outcome
container_decoded out op s (d, some message) =
    (s, some (operation_error (codes "container") (codes "n/a") message))
container_decoded out op s (d, none) =
    docker_operation out (codes "container") op s (container_call d)

unfoldable pub process_container_command : Outside → AsyncCommand → AsyncService → Outcome
process_container_command out c s =
    container_decoded out c.operation s (out.decode_container c.value)

unfoldable pub image_decoded : Outside → Str → AsyncService → ImageCommandData × Error → Outcome
image_decoded out op s (d, some message) = (
  s,
  some (operation_error (codes "image") (codes "n/a") (codes "failed to decode ImageCommandData")),
)
image_decoded out op s (d, none) = docker_operation out (codes "image") op s (image_call d)

unfoldable pub process_image_command : Outside → AsyncCommand → AsyncService → Outcome
process_image_command out c s = image_decoded out c.operation s (out.decode_image c.value)

unfoldable pub volume_decoded : Outside → Str → AsyncService → VolumeCommandData × Error → Outcome
volume_decoded out op s (d, some message) =
    (s, some (operation_error (codes "volume") (codes "n/a") message))
volume_decoded out op s (d, none) = docker_operation out (codes "volume") op s (volume_call d)

unfoldable pub process_volume_command : Outside → AsyncCommand → AsyncService → Outcome
process_volume_command out c s = volume_decoded out c.operation s (out.decode_volume c.value)

unfoldable pub process_command : Outside → AsyncCommand → AsyncService → Outcome
process_command out c s =
    if str_eq c.type (codes "edgeStack")
    then process_stack_command out c s
    else if str_eq c.type (codes "edgeJob")
    then process_schedule_command out c s
    else if str_eq c.type (codes "edgeLog")
    then process_log_command out c s
    else if str_eq c.type (codes "container")
    then process_container_command out c s
    else if str_eq c.type (codes "image")
    then process_image_command out c s
    else if str_eq c.type (codes "volume")
    then process_volume_command out c s
    else (s, some (operation_error c.type (codes "n/a") (codes "command type not supported")))

-- The error of a command is only logged. SetLastCommandTimestamp returns nothing.
unfoldable pub process_async_commands : Outside → List AsyncCommand → AsyncService → AsyncService
process_async_commands out [] s = s
process_async_commands out (c ∷ cs) s =
    let s' = (process_command out c s).0 in
    process_async_commands out cs
      (record s' { calls = set_last_command_timestamp c.timestamp ∷ s'.calls })
