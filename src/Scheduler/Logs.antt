-- ===== src/Scheduler/Logs.antt =====
-- edge/scheduler/logs.go: the loop of the LogsManager, for one list of jobs.
use portainer_agent.Base.{
  ℕ, ◌≡◌, ap, sym, ◌∙◌, Bool, true, false, not, Option, none, some, List, [], ◌∷◌, ◌++◌, Str, codes,
  itoa, append_assoc, append-nil, map, arith, is_some, Option-cases, inl, inr,
}
use portainer_agent.Outside.{
  Outside, Calls, Error, os_stat, os_read_file, set_edge_job_status, file_exists, read_from_file,
}

-- `fmt.Sprintf("%s%s/schedule_%d.log", ...)`
unfoldable pub log_file_location : ℕ → Str
log_file_location job = codes "/host/opt/portainer/scripts/schedule_" ++ (itoa job ++ codes ".log")

-- A report whose error is only logged.
unfoldable pub send_log : ℕ → Str → Calls → Calls
send_log job file calls = set_edge_job_status job file ∷ calls

unfoldable pub read_log : ℕ → Calls × Error × Str → Calls
read_log job (calls, some e, file) = calls
read_log job (calls, none, file) = send_log job file calls

unfoldable pub found_log : Outside → ℕ → Calls × Error × Bool → Calls
found_log out job (calls, some e, exist) = calls
found_log out job (calls, none, false) = send_log job [] calls
found_log out job (calls, none, true) =
    read_log job (read_from_file out (log_file_location job) calls)

unfoldable pub collect_log : Outside → ℕ → Calls → Calls
collect_log out job calls = found_log out job (file_exists out (log_file_location job) calls)

-- The errors of a job are logged, and the loop goes on with the next.
unfoldable pub collect_logs : Outside → List ℕ → Calls → Calls
collect_logs out [] calls = calls
collect_logs out (job ∷ jobs) calls = collect_logs out jobs (collect_log out job calls)

-- What is sent of a job where the file system works: the file, or nothing if there is none.
abbrev pub log_content : (Str → Option Str) → ℕ → Str
log_content files job = elim (files (log_file_location job)) [ none ↦ [] | some file ↦ file ]

-- The statuses that were sent, oldest first.
abbrev pub sent : Calls → List (ℕ × Str)
sent [] = []
sent (set_edge_job_status job file ∷ calls) = sent calls ++ (job, file) ∷ []
sent (_ ∷ calls) = sent calls

-- A file system that holds `files` and does not fail.
pub record Holds (out : Outside) (files : Str → Option Str) : Type 0 where
  pub stats :
      (calls : Calls) (path file : Str)
      → files path ≡ some file
      → out.fails calls (os_stat path) ≡ none
  pub reads :
      (calls : Calls) (path file : Str)
      → files path ≡ some file
      → out.fails calls (os_read_file path) ≡ none
  pub absent : (calls : Calls) (path : Str) → out.is_absent calls path ≡ not (is_some (files path))
  pub content :
      (calls : Calls) (path file : Str)
      → files path ≡ some file
      → out.file_content calls path ≡ file

collect_log-sent :
    (out : Outside) (files : Str → Option Str) (job : ℕ) (calls : Calls)
    → Holds out files
    → sent (collect_log out job calls) ≡ sent calls ++ (job, log_content files job) ∷ []
unfolding collect_log found_log file_exists read_log read_from_file send_log
collect_log-sent out files job calls h =
    let p = log_file_location job in
    let seen : Calls = os_stat p ∷ calls in
    elim (Option-cases (files p)) [
      | inl e ↦ ground (arith, e, h.absent calls p)
      | inr (file, e) ↦ ground (
        arith,
        e,
        h.absent calls p,
        h.stats calls p file e,
        h.reads seen p file e,
        h.content seen p file e,
      )
    ]

-- Where the file system does not fail, one status is sent for each job of a list, in its order,
-- with the content of the job's log file, or with nothing if it has none, whatever the server
-- answers.
pub collect_logs-sent :
    (out : Outside) (files : Str → Option Str) (jobs : List ℕ) (calls : Calls)
    → Holds out files
    → sent (collect_logs out jobs calls)
      ≡ sent calls ++ map (λ job. (job, log_content files job)) jobs
unfolding collect_logs
collect_logs-sent out files [] calls h = sym (append-nil (sent calls))
collect_logs-sent out files (job ∷ jobs) calls h =
    collect_logs-sent out files jobs (collect_log out job calls) h
    ∙ (ap (λ l. l ++ map (λ j. (j, log_content files j)) jobs)
          (collect_log-sent out files job calls h)
        ∙ append_assoc (sent calls) ((job, log_content files job) ∷ []) _)
