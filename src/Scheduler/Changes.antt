-- ===== src/Scheduler/Changes.antt =====
-- Which lists of schedules the method `Schedule` acts on, and which it does not notice.
use portainer_agent.Base.{
  ℕ, zero, suc, ◌==◌, ◌≡◌, refl, ap, ◌∙◌, Bool, true, false, not, ◌||◌, ◌⊎◌, Option, none, some,
  inl, inr, List, [], ◌∷◌, Assoc, All, any, length, lookup, insert, lookup-insert, if◌then◌else◌,
  if-elim, arith,
}
use portainer_agent.Agent.{Schedule}
use portainer_agent.Outside.{Outside, Error}
use portainer_agent.Scheduler.{
  CronManager, schedule_map, has_new_version, needs_update, schedule_some, schedule,
  remove_cron_file, flush_entries, logs_to_collect, process_schedule_logs_collection,
  handle_received_logs_requests,
}
use portainer_agent.Scheduler.Flush.{FlushResult, flush_entries-FlushResult}

-- The schedule that a list has for an identifier: the last one with it.
abbrev pub wanted_schedule : ℕ → List Schedule → Option Schedule
wanted_schedule id [] = none
wanted_schedule id (s ∷ ss) = elim (wanted_schedule id ss) [
  | some t ↦ some t
  | none ↦ if s.id == id then some s else none
]

schedule_or : Option Schedule → Option Schedule → Option Schedule
schedule_or (some s) o = some s
schedule_or none o = o

lookup-schedule_map :
    (id : ℕ) (m : Assoc Schedule) (ss : List Schedule)
    → lookup id (schedule_map m ss) ≡ schedule_or (wanted_schedule id ss) (lookup id m)
unfolding schedule_map schedule_or
lookup-schedule_map id m [] = refl
lookup-schedule_map id m (s ∷ ss) =
    lookup-schedule_map id (insert s.id s m) ss
    ∙ ap (schedule_or (wanted_schedule id ss)) (lookup-insert s.id id s m)
    ∙ chosen (wanted_schedule id ss) (s.id == id)
  where
    chosen :
        (o : Option Schedule) (b : Bool)
        → schedule_or o (if b then some s else lookup id m)
          ≡ schedule_or
              (elim o [ some t ↦ some t | none ↦ if b then some s else none ])
              (lookup id m)
    chosen (some t) b = refl
    chosen none true = refl
    chosen none false = refl

wanted_schedule-lookup :
    (id : ℕ) (ss : List Schedule) → lookup id (schedule_map [] ss) ≡ wanted_schedule id ss
unfolding schedule_or lookup
wanted_schedule-lookup id ss = lookup-schedule_map id [] ss ∙ unchanged (wanted_schedule id ss)
  where
    unchanged : (o : Option Schedule) → schedule_or o none ≡ o
    unchanged (some s) = refl
    unchanged none = refl

-- The schedule asks for nothing new: it wants no logs, and what is managed under its identifier,
-- if anything, has its version.
abbrev pub IsUnnoticed : Schedule → Option Schedule → Type 0
IsUnnoticed s none = s.collect_logs ≡ false
IsUnnoticed s (some managed) = (managed.version ≡ s.version) × (s.collect_logs ≡ false)

-- What is managed is what the list has; or nothing has changed, where the list has as many
-- schedules as are managed and none of them asks for anything new.
abbrev pub IsCurrent : List Schedule → CronManager → CronManager → Type 0
IsCurrent ss m m' =
    ((id : ℕ) → lookup id m'.managed_schedules ≡ wanted_schedule id ss)
    ⊎ ((m' ≡ m)
        × (length m.managed_schedules ≡ length ss)
        × All (λ (s : Schedule). IsUnnoticed s (lookup s.id m.managed_schedules)) ss)

unnoticed :
    (s : Schedule) (o : Option Schedule)
    → (has_new_version s o || s.collect_logs) ≡ false
    → IsUnnoticed s o
unnoticed s none h = h
unnoticed s (some t) h = ground arith

none_needs_update :
    (managed : Assoc Schedule) (ss : List Schedule)
    → any (needs_update managed) ss ≡ false
    → All (λ (s : Schedule). IsUnnoticed s (lookup s.id managed)) ss
none_needs_update managed [] h = tt
none_needs_update managed (s ∷ ss) h =
    (unnoticed s (lookup s.id managed) (ground arith), none_needs_update managed ss (ground arith))

AllCurrent : List Schedule → CronManager → CronManager × Error → Type 0
AllCurrent ss m r = r.1 ≡ none → IsCurrent ss m r.0

flush-AllCurrent :
    (out : Outside) (ss : List Schedule) (m : CronManager)
    → AllCurrent ss m (flush_entries out (schedule_map [] ss) m)
unfolding AllCurrent
flush-AllCurrent out ss m ok = current (flush_entries-FlushResult out (schedule_map [] ss) m)
  where
    current :
        FlushResult (schedule_map [] ss) m (flush_entries out (schedule_map [] ss) m)
        → IsCurrent ss m (flush_entries out (schedule_map [] ss) m).0
    current (inl (_, f)) = inl (λ id. ap (lookup id) f.managed ∙ wanted_schedule-lookup id ss)
    current (inr (failed, _)) = absurd (failed ok)

same_length : (n k : ℕ) → not (n == k) ≡ false → n ≡ k
same_length n k h = ground arith

removed-AllCurrent : (out : Outside) (m : CronManager) → AllCurrent [] m (remove_cron_file out m)
unfolding AllCurrent remove_cron_file lookup
removed-AllCurrent out m ok = inl (λ id.
    if-elim (λ (r : CronManager × Error). lookup id r.0.managed_schedules ≡ none) m.cron_file_exists
      (λ _. refl) (λ _. refl))

-- When `Schedule` succeeds, either what is managed under each identifier is the last schedule of
-- the list with that identifier, and nothing if there is none; or it has changed nothing, where
-- the list has as many schedules as are managed, none of them asks for logs, and each whose
-- identifier is managed has the managed version.
pub schedule-IsCurrent :
    (out : Outside) (ss : List Schedule) (m : CronManager)
    → (schedule out ss m).1 ≡ none
    → IsCurrent ss m (schedule out ss m).0
unfolding schedule schedule_some AllCurrent
schedule-IsCurrent out [] m ok = removed-AllCurrent out m ok
schedule-IsCurrent out (s ∷ rest) m ok =
    let ss = s ∷ rest in
    if-elim (AllCurrent ss m) (not (length m.managed_schedules == length ss))
      (λ _. flush-AllCurrent out ss m)
      (λ as_many.
        if-elim (AllCurrent ss m) (any (needs_update m.managed_schedules) ss)
          (λ _. flush-AllCurrent out ss m)
          (λ same _. inr (
            refl,
            same_length (length m.managed_schedules) (length ss) as_many,
            none_needs_update m.managed_schedules ss same,
          )))
      ok

all_unknown :
    (managed : Assoc Schedule) (ss : List Schedule)
    → All (λ (s : Schedule). (lookup s.id managed ≡ none) × (s.collect_logs ≡ false)) ss
    → any (needs_update managed) ss ≡ false
all_unknown managed [] h = refl
all_unknown managed (s ∷ ss) h = ground (arith, all_unknown managed ss h.1)

-- A list that has as many schedules as are managed, none of which is managed, is not noticed if
-- none of them asks for logs: the managed schedules, the cron file and the history of calls stay
-- as they were, and no error is returned.
pub schedule-missed :
    (out : Outside) (s : Schedule) (rest : List Schedule) (m : CronManager)
    → length m.managed_schedules ≡ length (s ∷ rest)
    → All
        (λ (t : Schedule). (lookup t.id m.managed_schedules ≡ none) × (t.collect_logs ≡ false))
        (s ∷ rest)
    → schedule out (s ∷ rest) m ≡ (m, none)
unfolding schedule schedule_some
schedule-missed out s rest m n h =
    if-elim (λ r. r ≡ (m, none)) (not (length m.managed_schedules == length (s ∷ rest)))
      (λ differs. ground arith)
      (λ _.
        if-elim (λ r. r ≡ (m, none)) (any (needs_update m.managed_schedules) (s ∷ rest))
          (λ needs. cc (all_unknown m.managed_schedules (s ∷ rest) h)) (λ _. refl))

-- `n` rounds of ProcessScheduleLogsCollection, as the polls of the async mode make them.
unfoldable pub collect_rounds : ℕ → CronManager → CronManager
collect_rounds zero m = m
collect_rounds (suc n) m = collect_rounds n (process_schedule_logs_collection m)

abbrev pub repeat : ℕ → List ℕ → List (List ℕ) → List (List ℕ)
repeat zero jobs requests = requests
repeat (suc n) jobs requests = repeat n jobs (jobs ∷ requests)

round :
    (m : CronManager) (job : ℕ) (jobs : List ℕ)
    → logs_to_collect m.managed_schedules ≡ job ∷ jobs
    → process_schedule_logs_collection m ≡ record m { requests = (job ∷ jobs) ∷ m.requests }
unfolding process_schedule_logs_collection handle_received_logs_requests
round m job jobs e = rw (e, handle_received_logs_requests)

-- The logs that the managed schedules ask for are requested again in every round: the managed
-- schedules go on asking, however often they were collected.
pub logs_collected_again :
    (n : ℕ) (m : CronManager) (job : ℕ) (jobs : List ℕ)
    → logs_to_collect m.managed_schedules ≡ job ∷ jobs
    → (collect_rounds n m).requests ≡ repeat n (job ∷ jobs) m.requests
unfolding collect_rounds
logs_collected_again zero m job jobs e = refl
logs_collected_again (suc n) m job jobs e =
    ap (λ (r : CronManager). (collect_rounds n r).requests) (round m job jobs e)
    ∙ logs_collected_again n (record m { requests = (job ∷ jobs) ∷ m.requests }) job jobs e
