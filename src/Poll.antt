-- ===== src/Poll.antt =====
-- edge/poll.go: the polling of the sync mode, which follows the server's status of the environment
-- with the reverse tunnel, the schedules and the stacks.
pub mod Examples
pub mod Loop
pub mod Results
pub mod TunnelState
use portainer_agent.Base.{
  ℕ, ◌-◌, ◌==◌, ltb, Bool, true, false, not, ◌&&◌, Option, none, some, List, [], ◌∷◌, Str, codes,
  itoa, str_eq, Assoc, insert, if◌then◌else◌,
}
use portainer_agent.Base64
use portainer_agent.Agent.{TunnelConfig, StackStatus, PollStatusResponse, Schedule}
use portainer_agent.Outside.{
  Outside, Calls, Error, perform, get_environment_id, get_environment_status, set_timeout,
}
use portainer_agent.Tunnel
use portainer_agent.Tunnel.{Client}
use portainer_agent.Scheduler.{CronManager, schedule}
use portainer_agent.Stack.{StackManager}
use portainer_agent.Stack.Process.{update_stacks_status}

-- PollService with the endpoint identifier of the Edge manager. The intervals of the poll and its
-- ticker are in seconds, the inactivity timeout and the times in nanoseconds; no last activity
-- is Go's zero time. `calls` is the history of the calls to the outside.
pub record PollService : Type 0 where
  pub api_server_addr : Str
  pub edge_id : Str
  pub tunnel_server_addr : Str
  pub tunnel_server_fingerprint : Str
  pub poll_interval : ℕ
  pub ticker_interval : ℕ
  pub inactivity_timeout : ℕ
  pub tunnel_client : Option Client
  pub last_activity : Option ℕ
  pub endpoint_id : ℕ
  pub cron_manager : CronManager
  pub stack_manager : StackManager
  pub calls : Calls

-- The schedule manager and the stack manager work on the service's history.
unfoldable pub with_cron : (CronManager → CronManager × Error) → PollService → PollService × Error
with_cron f s =
    let (m, e) = f (record s.cron_manager { calls = s.calls }) in
    (record s { cron_manager = m; calls = m.calls }, e)

unfoldable pub with_stacks :
    (StackManager → StackManager × Error) → PollService → PollService × Error
with_stacks f s =
    let (m, e) = f (record s.stack_manager { calls = s.calls }) in
    (record s { stack_manager = m; calls = m.calls }, e)

abbrev pub with_tunnel : PollService → Client × Calls × Error → PollService × Error
with_tunnel s (c, calls, e) = (record s { tunnel_client = some c; calls = calls }, e)

-- resetActivityTimer: the signal is received at once by the monitoring loop, which stores the time.
unfoldable pub reset_found : Outside → PollService → Option Client → PollService
reset_found out s none = s
reset_found out s (some c) =
    if c.tunnel_open then record s { last_activity = some (out.now s.calls) } else s

unfoldable pub reset_activity_timer : Outside → PollService → PollService
reset_activity_timer out s = reset_found out s s.tunnel_client

unfoldable pub tunnel_created : Outside → PollService × Error → PollService × Error
tunnel_created out (s, some e) = (s, some e)
tunnel_created out (s, none) = (reset_activity_timer out s, none)

unfoldable pub create_decrypted :
    Outside → ℕ → Client → PollService → Option Str → PollService × Error
create_decrypted out remote_port c s none = (s, some (codes "unable to decrypt"))
create_decrypted out remote_port c s (some credentials) =
    let config : TunnelConfig = record {
      local_addr = s.api_server_addr;
      server_addr = s.tunnel_server_addr;
      server_fingerprint = s.tunnel_server_fingerprint;
      credentials = credentials;
      remote_port = itoa remote_port;
    } in
    tunnel_created out (with_tunnel s (Tunnel.create_tunnel out config c s.calls))

unfoldable pub create_decoded :
    Outside → ℕ → Client → PollService → Option Str → PollService × Error
create_decoded out remote_port c s none = (s, some (codes "illegal base64 data"))
create_decoded out remote_port c s (some decoded) =
    create_decrypted out remote_port c s (out.decrypt decoded s.edge_id)

unfoldable pub create_tunnel : Outside → Str → ℕ → Client → PollService → PollService × Error
create_tunnel out encoded remote_port c s =
    create_decoded out remote_port c s (Base64.decode encoded)

abbrev pub idle : Str
idle = codes "IDLE"

abbrev pub required : Str
required = codes "REQUIRED"

-- The first half of manageUpdateTunnel: the error of a close is only logged.
unfoldable pub close_if_idle : Outside → PollStatusResponse → Client → PollService → PollService
close_if_idle out r c s =
    if str_eq r.status idle && c.tunnel_open
    then (with_tunnel s (Tunnel.close_tunnel out c s.calls)).0
    else s

unfoldable pub open_if_required :
    Outside → PollStatusResponse → PollService → Option Client → PollService × Error
open_if_required out r s none = (s, none)
open_if_required out r s (some c) =
    if str_eq r.status required && not c.tunnel_open
    then create_tunnel out r.credentials r.port c s
    else (s, none)

unfoldable pub manage_tunnel :
    Outside → PollStatusResponse → PollService → Option Client → PollService × Error
manage_tunnel out r s none = (s, none)
manage_tunnel out r s (some c) =
    let s' = close_if_idle out r c s in open_if_required out r s' s'.tunnel_client

unfoldable pub manage_update_tunnel :
    Outside → PollStatusResponse → PollService → PollService × Error
manage_update_tunnel out r s = manage_tunnel out r s s.tunnel_client

-- The error of the schedule manager is only logged.
unfoldable pub process_schedules : Outside → List Schedule → PollService → PollService
process_schedules out schedules s = (with_cron (schedule out schedules) s).0

-- `stacks[s.ID] = s.Version` for each stack of the response.
unfoldable pub versions : Assoc ℕ → List StackStatus → Assoc ℕ
versions m [] = m
versions m (s ∷ ss) = versions (insert s.id s.version m) ss

unfoldable pub process_stacks :
    Outside → Option (List StackStatus) → PollService → PollService × Error
process_stacks out none s = (s, none)
process_stacks out (some ss) s = with_stacks (λ m. update_stacks_status out m (versions [] ss)) s

unfoldable pub update_interval : PollStatusResponse → PollService → PollService
update_interval r s =
    if ltb 0 r.checkin_interval && not (r.checkin_interval == s.poll_interval)
    then record s {
      poll_interval = r.checkin_interval;
      ticker_interval = r.checkin_interval;
      calls = set_timeout r.checkin_interval ∷ s.calls;
    }
    else s

unfoldable pub tunnel_managed :
    Outside → PollStatusResponse → PollService × Error → PollService × Error
tunnel_managed out r (s, some e) = (s, some e)
tunnel_managed out r (s, none) =
    process_stacks out r.stacks (update_interval r (process_schedules out r.schedules s))

unfoldable pub status_received :
    Outside → PollStatusResponse → PollService → Error → PollService × Error
status_received out r s (some e) = (record s { endpoint_id = 0 }, some e)
status_received out r s none = tunnel_managed out r (manage_update_tunnel out r s)

unfoldable pub poll_status : Outside → PollService → PollService × Error
poll_status out s =
    let r = out.environment_status s.calls in
    let (calls', e) = perform out (get_environment_status []) s.calls in
    status_received out r (record s { calls = calls' }) e

unfoldable pub id_received : Outside → ℕ → PollService → Error → PollService × Error
id_received out id s (some e) = (s, some e)
id_received out id s none = poll_status out (record s { endpoint_id = id })

unfoldable pub poll_with_id : Outside → PollService → PollService × Error
poll_with_id out s =
    let id = out.environment_id s.calls in
    let (calls', e) = perform out get_environment_id s.calls in
    id_received out id (record s { calls = calls' }) e

unfoldable pub poll : Outside → PollService → PollService × Error
poll out s = if s.endpoint_id == 0 then poll_with_id out s else poll_status out s

-- A tick of startActivityMonitoringLoop, at the time of the clock.
unfoldable pub monitor_client : Outside → ℕ → PollService → Option Client → PollService
monitor_client out elapsed s none = s
monitor_client out elapsed s (some c) =
    if c.tunnel_open && ltb s.inactivity_timeout elapsed
    then (with_tunnel s (Tunnel.close_tunnel out c s.calls)).0
    else s

unfoldable pub monitor_since : Outside → PollService → Option ℕ → PollService
monitor_since out s none = s
monitor_since out s (some last) = monitor_client out (out.now s.calls - last) s s.tunnel_client

unfoldable pub monitor_activity : Outside → PollService → PollService
monitor_activity out s = monitor_since out s s.last_activity
