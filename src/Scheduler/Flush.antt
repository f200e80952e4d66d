-- ===== src/Scheduler/Flush.antt =====
-- What flushEntries writes, and what the cron manager keeps of it.
use portainer_agent.Base.{
  ℕ, ◌≡◌, ◌≢◌, refl, ap, ◌∙◌, Bool, true, false, Option, none, some, ◌⊎◌, inl, inr, List, [], ◌∷◌,
  ◌++◌, Assoc, Str, codes, itoa, insert, delete, lookup, lookup-insert, lookup-delete, ◌==◌,
  if◌then◌else◌, arith,
}
use portainer_agent.Agent.{Schedule}
use portainer_agent.Base64
use portainer_agent.Outside.{
  Outside, Call, Calls, Error, os_write_file, mkdir_all, write_file, wrote_folder,
}
use portainer_agent.Scheduler.{
  CronManager, cron_line, cron_folder, cron_file, cron_content, header, join_lines, entry_written,
  entry_decoded, create_cron_entry, create_cron_entries, flushed, flush_lines, flush_entries,
  logs_to_collect, add_schedule, remove_schedule, remove_or_flush, remove_cron_file,
  handle_received_logs_requests, process_schedule_logs_collection,
}

-- The line of a schedule: its times, the user, the script, and the file of the log.
abbrev pub line_for : Schedule → Str
line_for s =
    s.cron_expression
    ++ (codes " root /opt/portainer/scripts/schedule_"
        ++ (itoa s.id
            ++ (codes " > /opt/portainer/scripts/schedule_" ++ (itoa s.id ++ codes ".log 2>&1"))))

cron_line-line_for : (s : Schedule) → cron_line s ≡ line_for s
unfolding cron_line
cron_line-line_for s = refl

-- The lines that a map of schedules asks for.
abbrev pub cron_lines : Assoc Schedule → List Str
cron_lines [] = []
cron_lines ((k, s) ∷ rest) = line_for s ∷ cron_lines rest

-- A text of lines, each with its end.
abbrev pub text_of : List Str → Str
text_of [] = []
text_of (l ∷ ls) = l ++ (10 ∷ text_of ls)

join_lines-text_of : (ls : List Str) → join_lines (ls ++ ([] ∷ [])) ≡ text_of ls
unfolding join_lines
join_lines-text_of [] = refl
join_lines-text_of (l ∷ []) = refl
join_lines-text_of (l ∷ k ∷ ls) = ap (λ t. l ++ (10 ∷ t)) (join_lines-text_of (k ∷ ls))

cron_content-text_of : (lines : List Str) → cron_content lines ≡ text_of (header ++ lines)
cron_content-text_of lines = join_lines-text_of (header ++ lines)

-- The identifiers of the schedules that want their logs collected.
abbrev pub asking : Assoc Schedule → List ℕ
asking [] = []
asking ((k, s) ∷ rest) = elim s.collect_logs [ true ↦ s.id ∷ asking rest | false ↦ asking rest ]

logs_to_collect-asking : (schedules : Assoc Schedule) → logs_to_collect schedules ≡ asking schedules
unfolding logs_to_collect
logs_to_collect-asking [] = refl
logs_to_collect-asking ((k, s) ∷ rest) =
    ap (λ ids. if s.collect_logs then s.id ∷ ids else ids) (logs_to_collect-asking rest)
    ∙ by_flag s.collect_logs
  where
    by_flag :
        (b : Bool)
        → (if b then s.id ∷ asking rest else asking rest)
          ≡ (elim b [ true ↦ s.id ∷ asking rest | false ↦ asking rest ])
    by_flag true = refl
    by_flag false = refl

entry_line :
    (out : Outside) (s : Schedule) (calls : Calls) (o : Option Str)
    → (entry_decoded out s calls o).1 ≡ none
    → (entry_decoded out s calls o).2 ≡ line_for s
unfolding entry_decoded entry_written
entry_line out s calls none h = cc
entry_line out s calls (some script) h = ground (arith, cron_line-line_for s)

entries_lines :
    (out : Outside) (schedules : Assoc Schedule) (calls : Calls)
    → (create_cron_entries out schedules calls).1 ≡ none
    → (create_cron_entries out schedules calls).2 ≡ cron_lines schedules
unfolding create_cron_entries create_cron_entry
entries_lines out [] calls h = refl
entries_lines out ((k, s) ∷ rest) calls h =
    let (calls', e, line) = create_cron_entry out s calls in
    ground (arith, entry_line out s calls (Base64.decode s.script), entries_lines out rest calls')

-- The requests after the logs of the schedules have been asked for.
abbrev pub requested : Assoc Schedule → List (List ℕ) → List (List ℕ)
requested schedules requests = elim (asking schedules) [
  | [] ↦ requests
  | j ∷ jobs ↦ (j ∷ jobs) ∷ requests
]

-- The cron file holds the header and a line for each schedule, the manager has the schedules, and
-- the logs of those that ask for it are requested.
pub record IsFlushed (schedules : Assoc Schedule) (m m' : CronManager) : Type 0 where
  pub managed : m'.managed_schedules ≡ schedules
  pub exists : m'.cron_file_exists ≡ true
  pub requests : m'.requests ≡ requested schedules m.requests
  pub before : Calls
  pub written :
      m'.calls
      ≡ os_write_file
          (codes "/host/etc/cron.d")
          (codes "portainer_agent")
          (text_of (header ++ cron_lines schedules))
          0o644
        ∷ before

-- Nothing but the history of calls has changed.
pub record IsKept (m m' : CronManager) : Type 0 where
  pub managed : m'.managed_schedules ≡ m.managed_schedules
  pub exists : m'.cron_file_exists ≡ m.cron_file_exists
  pub requests : m'.requests ≡ m.requests

abbrev pub FlushResult : Assoc Schedule → CronManager → CronManager × Error → Type 0
FlushResult schedules m r =
    ((r.1 ≡ none) × IsFlushed schedules m r.0) ⊎ ((r.1 ≢ none) × IsKept m r.0)

-- A request for logs changes the requests only.
handled :
    (jobs : List ℕ) (m : CronManager)
    → let m' = handle_received_logs_requests jobs m in
      (m'.managed_schedules ≡ m.managed_schedules)
      × (m'.cron_file_exists ≡ m.cron_file_exists)
      × (m'.requests ≡ (elim jobs [ [] ↦ m.requests | j ∷ js ↦ (j ∷ js) ∷ m.requests ]))
      × (m'.calls ≡ m.calls)
unfolding handle_received_logs_requests
handled [] m = (refl, refl, refl, refl)
handled (j ∷ jobs) m = (refl, refl, refl, refl)

-- The call that writes the cron file.
abbrev write_call : List Str → Call
write_call lines = os_write_file cron_folder cron_file (cron_content lines) 0o644

flushed-FlushResult :
    (schedules : Assoc Schedule) (m : CronManager) (calls : Calls) (e : Error)
    → (e ≡ none → (before : Calls) × (calls ≡ write_call (cron_lines schedules) ∷ before))
    → FlushResult schedules m (flushed schedules m (calls, e))
unfolding flushed process_schedule_logs_collection
flushed-FlushResult schedules m calls (some e) h =
    inr (λ p. cc, record { managed = refl; exists = refl; requests = refl })
flushed-FlushResult schedules m calls none h =
    let (a, b, c, d) =
      handled (logs_to_collect schedules)
        (record m { calls = calls; cron_file_exists = true; managed_schedules = schedules }) in
    inl (
      refl,
      record {
        managed = a;
        exists = b;
        requests =
            c
            ∙ ap (λ (ids : List ℕ). elim ids [ [] ↦ m.requests | j ∷ js ↦ (j ∷ js) ∷ m.requests ])
                (logs_to_collect-asking schedules);
        before = (h refl).0;
        written =
            d
            ∙ (h refl).1
            ∙ ap (λ text. os_write_file cron_folder cron_file text 0o644 ∷ (h refl).0)
                (cron_content-text_of (cron_lines schedules));
      },
    )

file_written :
    (out : Outside) (folder name content : Str) (mode : ℕ) (calls : Calls) (e : Error)
    → (wrote_folder out folder name content mode calls e).1 ≡ none
    → (wrote_folder out folder name content mode calls e).0
      ≡ os_write_file folder name content mode ∷ calls
unfolding wrote_folder
file_written out folder name content mode calls (some e) h = cc
file_written out folder name content mode calls none h = refl

flush_lines-FlushResult :
    (out : Outside) (schedules : Assoc Schedule) (m : CronManager) (calls : Calls) (e : Error)
    (lines : List Str)
    → (e ≡ none → lines ≡ cron_lines schedules)
    → FlushResult schedules m (flush_lines out schedules m (calls, e, lines))
unfolding flush_lines write_file
flush_lines-FlushResult out schedules m calls (some e) lines h =
    inr (λ p. cc, record { managed = refl; exists = refl; requests = refl })
flush_lines-FlushResult out schedules m calls none lines h =
    let content = cron_content lines in
    let folder_made : Error = out.fails calls (mkdir_all cron_folder) in
    flushed-FlushResult schedules m _ _ (λ ok. (
      mkdir_all cron_folder ∷ calls,
      file_written out cron_folder cron_file content 0o644 (mkdir_all cron_folder ∷ calls)
            folder_made ok
          ∙ ap (λ ls. write_call ls ∷ mkdir_all cron_folder ∷ calls) (h refl),
    ))

-- A flush either fails and leaves all but the history of calls as it was, or succeeds, and then
-- the last call wrote the cron file with the header and one line for each schedule, the schedules
-- are the managed ones, and the logs of those that want them collected are requested.
pub flush_entries-FlushResult :
    (out : Outside) (schedules : Assoc Schedule) (m : CronManager)
    → FlushResult schedules m (flush_entries out schedules m)
unfolding flush_entries
flush_entries-FlushResult out schedules m =
    let (calls, e, lines) = create_cron_entries out schedules m.calls in
    flush_lines-FlushResult out schedules m calls e lines (entries_lines out schedules m.calls)

-- Whatever the result of a flush of the managed schedules, they stay the managed ones.
flush_managed :
    (schedules : Assoc Schedule) (m : CronManager) {r : CronManager × Error}
    → m.managed_schedules ≡ schedules
    → FlushResult schedules m r
    → r.0.managed_schedules ≡ schedules
flush_managed schedules m h (inl (ok, f)) = f.managed
flush_managed schedules m h (inr (failed, k)) = k.managed ∙ h

-- After AddSchedule the schedule is managed, also when the cron file could not be written, and
-- the schedules of other identifiers are as they were.
pub add_schedule-lookup :
    (out : Outside) (s : Schedule) (m : CronManager) (j : ℕ)
    → lookup j (add_schedule out s m).0.managed_schedules
      ≡ (if s.id == j then some s else lookup j m.managed_schedules)
unfolding add_schedule
add_schedule-lookup out s m j =
    let schedules = insert s.id s m.managed_schedules in
    let m' : CronManager = record m { managed_schedules = schedules } in
    ap (lookup j) (flush_managed schedules m' refl (flush_entries-FlushResult out schedules m'))
    ∙ lookup-insert s.id j s m.managed_schedules

removed_managed :
    (out : Outside) (schedules : Assoc Schedule) (m : CronManager)
    → m.managed_schedules ≡ schedules
    → (remove_or_flush out schedules m).0.managed_schedules ≡ schedules
unfolding remove_or_flush remove_cron_file
removed_managed out [] m h = ground arith
removed_managed out (x ∷ rest) m h =
    flush_managed (x ∷ rest) m h (flush_entries-FlushResult out (x ∷ rest) m)

-- After RemoveSchedule no schedule of its identifier is managed, also when the cron file could not
-- be written or removed, and the schedules of other identifiers are as they were.
pub remove_schedule-lookup :
    (out : Outside) (s : Schedule) (m : CronManager) (j : ℕ)
    → lookup j (remove_schedule out s m).0.managed_schedules
      ≡ (if s.id == j then none else lookup j m.managed_schedules)
unfolding remove_schedule
remove_schedule-lookup out s m j =
    let schedules = delete s.id m.managed_schedules in
    ap (lookup j) (removed_managed out schedules (record m { managed_schedules = schedules }) refl)
    ∙ lookup-delete s.id j m.managed_schedules
