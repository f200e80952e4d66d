-- ===== src/Scheduler.antt =====
-- edge/scheduler: the schedules of the Edge agent, as entries of a cron file (scheduler.go), and
-- the collection of their logs (logs.go). The variant for Windows does nothing.
pub mod Examples
pub mod Logs
pub mod Flush
pub mod Changes
use portainer_agent.Base.{
  ℕ, zero, suc, ◌==◌, Bool, true, false, not, ◌&&◌, ◌||◌, Option, none, some, List, [], ◌∷◌, ◌++◌,
  map, Str, codes, itoa, Assoc, lookup, insert, delete, length, any, is_some, if◌then◌else◌,
}
use portainer_agent.Base64
use portainer_agent.Agent.{Schedule}
use portainer_agent.Outside.{Outside, Calls, Error, perform, write_file, os_remove}

-- CronManager. `requests` holds the lists of jobs sent on the channel of the LogsManager, newest
-- first.
pub record CronManager : Type 0 where
  pub cron_file_exists : Bool
  pub managed_schedules : Assoc Schedule
  pub requests : List (List ℕ)
  pub calls : Calls

unfoldable pub new_cron_manager : CronManager
new_cron_manager = record {
  cron_file_exists = false;
  managed_schedules = [];
  requests = [];
  calls = [];
}

-- HandleReceivedLogsRequests of logs.go: an empty list is not sent.
unfoldable pub handle_received_logs_requests : List ℕ → CronManager → CronManager
handle_received_logs_requests [] m = m
handle_received_logs_requests (j ∷ jobs) m = record m { requests = (j ∷ jobs) ∷ m.requests }

-- The identifiers of the schedules with logs to collect, in the order of the visit. The loop
-- resets `CollectLogs` in its own copy of the schedule, so that the map keeps it.
unfoldable pub logs_to_collect : Assoc Schedule → List ℕ
logs_to_collect [] = []
logs_to_collect ((k, s) ∷ m) =
    let rest = logs_to_collect m in if s.collect_logs then s.id ∷ rest else rest

unfoldable pub process_schedule_logs_collection : CronManager → CronManager
process_schedule_logs_collection m =
    handle_received_logs_requests (logs_to_collect m.managed_schedules) m

-- `schedule_%d`
abbrev pub script_name : ℕ → Str
script_name id = codes "schedule_" ++ itoa id

-- `fmt.Sprintf("%s%s", agent.HostRoot, agent.ScheduleScriptDirectory)`
abbrev pub script_folder : Str
script_folder = codes "/host/opt/portainer/scripts"

abbrev pub cron_folder : Str
cron_folder = codes "/host/etc/cron.d"

abbrev pub cron_file : Str
cron_file = codes "portainer_agent"

-- The line of a schedule: `"%s %s %s > %s 2>&1"`, as the user root.
unfoldable pub cron_line : Schedule → Str
cron_line s =
    s.cron_expression
    ++ (codes " root /opt/portainer/scripts/"
        ++ (script_name s.id
            ++ (codes " > /opt/portainer/scripts/" ++ (script_name s.id ++ codes ".log 2>&1"))))

unfoldable pub entry_written : Schedule → Calls × Error → Calls × Error × Str
entry_written s (calls, some e) = (calls, some e, [])
entry_written s (calls, none) = (calls, none, cron_line s)

unfoldable pub entry_decoded : Outside → Schedule → Calls → Option Str → Calls × Error × Str
entry_decoded out s calls none = (calls, some (codes "illegal base64 data"), [])
entry_decoded out s calls (some script) =
    entry_written s (write_file out script_folder (script_name s.id) script 0o744 calls)

unfoldable pub create_cron_entry : Outside → Schedule → Calls → Calls × Error × Str
create_cron_entry out s calls = entry_decoded out s calls (Base64.decode s.script)

-- The loop of flushEntries: the first error ends it, and the scripts before it stay written.
unfoldable pub create_cron_entries : Outside → Assoc Schedule → Calls → Calls × Error × List Str
create_cron_entries out [] calls = (calls, none, [])
create_cron_entries out ((k, s) ∷ rest) calls =
    let (calls₁, e₁, line) = create_cron_entry out s calls in
    elim e₁ [
      | some err ↦ (calls₁, some err, [])
      | none ↦
          let (calls₂, e₂, lines) = create_cron_entries out rest calls₁ in
          (calls₂, e₂, line ∷ lines)
    ]

abbrev pub header : List Str
header =
    codes
      "## This file is managed by the Portainer agent. DO NOT EDIT MANUALLY ALL YOUR CHANGES WILL BE OVERWRITTEN."
    ∷ codes "SHELL=/bin/sh"
    ∷ codes "PATH=/usr/local/sbin:/usr/local/bin:/sbin:/bin:/usr/sbin:/usr/bin"
    ∷ []
    ∷ []

-- `strings.Join(lines, "\n")`
unfoldable pub join_lines : List Str → Str
join_lines [] = []
join_lines (l ∷ []) = l
join_lines (l ∷ k ∷ ls) = l ++ (10 ∷ join_lines (k ∷ ls))

abbrev pub cron_content : List Str → Str
cron_content lines = join_lines (header ++ (lines ++ ([] ∷ [])))

unfoldable pub flushed : Assoc Schedule → CronManager → Calls × Error → CronManager × Error
flushed schedules m (calls, some e) = (record m { calls = calls }, some e)
flushed schedules m (calls, none) = (
  process_schedule_logs_collection
      (record m { calls = calls; cron_file_exists = true; managed_schedules = schedules }),
  none,
)

unfoldable pub flush_lines :
    Outside → Assoc Schedule → CronManager → Calls × Error × List Str → CronManager × Error
flush_lines out schedules m (calls, some e, lines) = (record m { calls = calls }, some e)
flush_lines out schedules m (calls, none, lines) =
    flushed schedules m (write_file out cron_folder cron_file (cron_content lines) 0o644 calls)

unfoldable pub flush_entries : Outside → Assoc Schedule → CronManager → CronManager × Error
flush_entries out schedules m =
    flush_lines out schedules m (create_cron_entries out schedules m.calls)

unfoldable pub remove_cron_file : Outside → CronManager → CronManager × Error
remove_cron_file out m =
    let m' = record m { managed_schedules = [] } in
    if m.cron_file_exists
    then (let (calls', e) =
          perform out (os_remove (cron_folder ++ (codes "/" ++ cron_file))) m.calls in
        (record m' { cron_file_exists = false; calls = calls' }, e))
    else (m', none)

-- The map of the schedules; of several with one identifier the last one stays.
unfoldable pub schedule_map : Assoc Schedule → List Schedule → Assoc Schedule
schedule_map m [] = m
schedule_map m (s ∷ ss) = schedule_map (insert s.id s m) ss

abbrev pub has_new_version : Schedule → Option Schedule → Bool
has_new_version s none = false
has_new_version s (some managed) = not (managed.version == s.version)

abbrev pub needs_update : Assoc Schedule → Schedule → Bool
needs_update managed s = has_new_version s (lookup s.id managed) || s.collect_logs

unfoldable pub schedule_some : Outside → List Schedule → CronManager → CronManager × Error
schedule_some out ss m =
    if not (length m.managed_schedules == length ss)
    then flush_entries out (schedule_map [] ss) m
    else if any (needs_update m.managed_schedules) ss
    then flush_entries out (schedule_map [] ss) m
    else (m, none)

-- The method `Schedule`.
unfoldable pub schedule : Outside → List Schedule → CronManager → CronManager × Error
schedule out [] m = remove_cron_file out m
schedule out (s ∷ ss) m = schedule_some out (s ∷ ss) m

-- The map that AddSchedule and RemoveSchedule change is the managed one itself.
unfoldable pub add_schedule : Outside → Schedule → CronManager → CronManager × Error
add_schedule out s m =
    let schedules = insert s.id s m.managed_schedules in
    flush_entries out schedules (record m { managed_schedules = schedules })

unfoldable pub remove_or_flush : Outside → Assoc Schedule → CronManager → CronManager × Error
remove_or_flush out [] m = remove_cron_file out m
remove_or_flush out (e ∷ rest) m = flush_entries out (e ∷ rest) m

unfoldable pub remove_schedule : Outside → Schedule → CronManager → CronManager × Error
remove_schedule out s m =
    let schedules = delete s.id m.managed_schedules in
    remove_or_flush out schedules (record m { managed_schedules = schedules })
