-- ===== src/Scheduler/Examples.antt =====
-- The theorems of the schedules at concrete inputs.
use portainer_agent.Base.{◌≡◌, refl, true, false, some, [], ◌∷◌, ◌++◌, map, insert, codes}
use portainer_agent.Base64
use portainer_agent.Agent.{Schedule}
use portainer_agent.Outside.{write_file}
use portainer_agent.Outside.Worlds.{quiet, backup}
use portainer_agent.Scheduler.{
  CronManager, schedule, schedule_some, schedule_map, flush_entries, flush_lines, flushed,
  create_cron_entries, create_cron_entry, entry_decoded, entry_written,
}
use portainer_agent.Scheduler.Flush.{FlushResult, flush_entries-FlushResult}
use portainer_agent.Scheduler.Changes.{IsCurrent, schedule-IsCurrent}
use portainer_agent.Scheduler.Logs.{sent, log_content, collect_logs, collect_logs-sent}

abbrev cleanup : Schedule
cleanup = record backup { id = 5; version = 8; collect_logs = false }

abbrev cron : CronManager
cron = record {
  cron_file_exists = true;
  managed_schedules = (4, backup) ∷ [];
  requests = [];
  calls = [];
}

flush_entries-FlushResult_example :
    FlushResult ((5, cleanup) ∷ []) cron (flush_entries quiet ((5, cleanup) ∷ []) cron)
flush_entries-FlushResult_example = flush_entries-FlushResult quiet ((5, cleanup) ∷ []) cron

schedule-IsCurrent_example :
    IsCurrent (cleanup ∷ backup ∷ []) cron (schedule quiet (cleanup ∷ backup ∷ []) cron).0
unfolding schedule schedule_some schedule_map flush_entries flush_lines flushed create_cron_entries
    create_cron_entry entry_decoded entry_written Base64.decode Base64.sextets Base64.decode_sextet
    Base64.join write_file insert
schedule-IsCurrent_example = schedule-IsCurrent quiet (cleanup ∷ backup ∷ []) cron refl

collect_logs-sent_example :
    sent (collect_logs quiet (4 ∷ 5 ∷ []) [])
    ≡ [] ++ map (λ job. (job, log_content (λ _. some (codes "done")) job)) (4 ∷ 5 ∷ [])
collect_logs-sent_example =
    collect_logs-sent quiet (λ _. some (codes "done")) (4 ∷ 5 ∷ []) []
      (record {
        stats = λ _ _ _ _. refl;
        reads = λ _ _ _ _. refl;
        absent = λ _ _. refl;
        content = λ _ _ _ e. cc;
      })
