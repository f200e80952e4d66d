-- ===== src/Server/AsyncPoll/Outcome.antt =====
-- How GetEnvironmentStatus ends: after one retry at most, with the reports kept or delivered.
use portainer_agent.Base.{
  ◌≡◌, refl, ◌∙◌, sym, Bool, true, false, Option, none, some, List, Str, if-elim, any, str_eq,
  codes, ◌&&◌, not, ◌≢◌, subst,
}
use portainer_agent.Server.AsyncClient.{AsyncClient}
use portainer_agent.Server.AsyncPoll.{
  AsyncResponse, Libraries, Prepared, panics, ready, request_of, send, snapshot_sent, Attempt,
  panicked, failed, again, answered, finish_snapshot, snapshot_answered, snapshot_prepared,
  command_answered, attempt, retry, attempts, get_environment_status,
}
use portainer_agent.Server.AsyncPoll.Reports.{IsKept, IsDelivered, Reports, attempt-Reports}

-- An attempt asks for another only if none was asked for, and notes that it did.
abbrev Retry : Bool → AsyncClient × Attempt → Type 0
Retry before (c, again) = (before ≡ false) × (c.snapshot_retried ≡ true)
Retry before (c, panicked) = Unit
Retry before (c, failed) = Unit
Retry before (c, answered r) = Unit

not_retried : (need retried : Bool) → (need && not retried) ≡ true → retried ≡ false
not_retried true false h = refl
not_retried true true h = cc
not_retried false retried h = cc

module _ (lib : Libraries) where
  finish_snapshot-Retry :
      (d k : Option Str) (r : AsyncResponse) (c : AsyncClient)
      → Retry c.snapshot_retried (finish_snapshot d k r c)
  unfolding finish_snapshot
  finish_snapshot-Retry d k r c =
      if-elim (λ (o : AsyncClient × Attempt). Retry c.snapshot_retried o)
        (r.need_full_snapshot && not c.snapshot_retried)
        {x = (record c { snapshot_retried = true }, again)}
        {y = (record (snapshot_sent d k c) { endpoint_id = r.endpoint_id }, answered r)}
        (λ h. (not_retried r.need_full_snapshot c.snapshot_retried h, refl)) (λ _. tt)

  snapshot_answered-Retry :
      (d k : Option Str) (c : AsyncClient) (o : Option AsyncResponse)
      → Retry c.snapshot_retried (snapshot_answered lib d k c o)
  unfolding snapshot_answered
  snapshot_answered-Retry d k c none = tt
  snapshot_answered-Retry d k c (some r) = finish_snapshot-Retry d k r c

  snapshot_prepared-Retry :
      (command : Bool) (c : AsyncClient) (p : Prepared)
      → Retry c.snapshot_retried (snapshot_prepared lib command c p)
  unfolding snapshot_prepared send
  snapshot_prepared-Retry command c panics = tt
  snapshot_prepared-Retry command c (ready s d k) =
      snapshot_answered-Retry d k (send (request_of command (some s) c) c) _

  command_answered-Retry :
      (before : Bool) (c : AsyncClient) (o : Option AsyncResponse)
      → Retry before (command_answered lib c o)
  unfolding command_answered
  command_answered-Retry before c none = tt
  command_answered-Retry before c (some r) = tt

  attempt-Retry :
      (snapshot command : Bool) (c : AsyncClient)
      → Retry c.snapshot_retried (attempt lib snapshot command c)
  unfolding attempt
  attempt-Retry true command c = snapshot_prepared-Retry command c _
  attempt-Retry false command c = command_answered-Retry c.snapshot_retried _ _

  IsKept-IsKept : (c c' c'' : AsyncClient) → IsKept c c' → IsKept c' c'' → IsKept c c''
  IsKept-IsKept c c' c'' h h' = record {
    stacks = h'.stacks ∙ h.stacks;
    jobs = h'.jobs ∙ h.jobs;
    last = h'.last ∙ h.last;
  }

  IsKept-IsDelivered :
      (c c' c'' : AsyncClient) (r : AsyncResponse)
      → IsKept c c'
      → IsDelivered lib c' c'' r
      → IsDelivered lib c c'' r
  IsKept-IsDelivered c c' c'' r h d = record {
    request = d.request;
    before = d.before;
    snapshot = d.snapshot;
    newest = d.newest;
    content = d.content;
    all_stacks = d.all_stacks ∙ h.stacks;
    all_jobs = d.all_jobs ∙ h.jobs;
    answer = d.answer;
    no_stacks = d.no_stacks;
    no_jobs = d.no_jobs;
    last = cc (d.last, h.last, h.stacks);
  }

  -- What a poll amounts to, with or without the flag for a snapshot.
  pub data Outcome : Bool → AsyncClient → AsyncClient × Attempt → Type 0 where
    crashed : {s : Bool} {c c' : AsyncClient} → IsKept c c' → Outcome s c (c', panicked)
    unanswered : {s : Bool} {c c' : AsyncClient} → IsKept c c' → Outcome s c (c', failed)
    commands_only :
        {c c' : AsyncClient} {r : AsyncResponse} → IsKept c c' → Outcome false c (c', answered r)
    reported :
        {c c' : AsyncClient} {r : AsyncResponse}
        → IsDelivered lib c c' r
        → Outcome true c (c', answered r)

  after_keeping :
      (c c' : AsyncClient) (o : AsyncClient × Attempt)
      → IsKept c c'
      → Outcome true c' o
      → Outcome true c o
  after_keeping c c' (c'', panicked) h (crashed k) = crashed (IsKept-IsKept c c' c'' h k)
  after_keeping c c' (c'', failed) h (unanswered k) = unanswered (IsKept-IsKept c c' c'' h k)
  after_keeping c c' (c'', answered r) h (reported d) = reported (IsKept-IsDelivered c c' c'' r h d)
  after_keeping c c' (c'', again) h k = elim k [ ]

  -- The second attempt, made when the first one asked for it.
  last_attempt :
      (c : AsyncClient) (o : AsyncClient × Attempt)
      → Reports lib true c o
      → Retry true o
      → Outcome true c (retry lib (attempts lib 0 true false) o)
  unfolding retry
  last_attempt c (c', panicked) h t = crashed h
  last_attempt c (c', failed) h t = unanswered h
  last_attempt c (c', answered r) h t = reported h
  last_attempt c (c', again) h t = cc (t.0)

  second_attempt :
      (c : AsyncClient) → c.snapshot_retried ≡ true → Outcome true c (attempts lib 1 true false c)
  unfolding attempts
  second_attempt c e =
      last_attempt c _ (attempt-Reports lib true false c)
        (subst (λ b. Retry b (attempt lib true false c)) e (attempt-Retry true false c))

  first_attempt :
      (s : Bool) (c : AsyncClient) (o : AsyncClient × Attempt)
      → Reports lib s c o
      → (s ≡ false → o.1 ≢ again)
      → Retry c.snapshot_retried o
      → Outcome s c (retry lib (attempts lib 1 true false) o)
  unfolding retry
  first_attempt true c (c', panicked) h n t = crashed h
  first_attempt true c (c', failed) h n t = unanswered h
  first_attempt true c (c', answered r) h n t = reported h
  first_attempt true c (c', again) h n t = after_keeping c c' _ h (second_attempt c' t.1)
  first_attempt false c (c', panicked) h n t = crashed h
  first_attempt false c (c', failed) h n t = unanswered h
  first_attempt false c (c', answered r) h n t = commands_only h
  first_attempt false c (c', again) h n t = absurd (n refl refl)

  command_not_again : (command : Bool) (c : AsyncClient) → (attempt lib false command c).1 ≢ again
  unfolding attempt command_answered
  command_not_again command c = answer_not_again _ _
    where
      answer_not_again :
          (c' : AsyncClient) (o : Option AsyncResponse) → (command_answered lib c' o).1 ≢ again
      answer_not_again c' none = λ e. cc (e)
      answer_not_again c' (some r) = λ e. cc (e)

  attempts-Outcome : (s command : Bool) (c : AsyncClient) → Outcome s c (attempts lib 2 s command c)
  unfolding attempts
  attempts-Outcome s command c =
      first_attempt s c (attempt lib s command c) (attempt-Reports lib s command c)
        (λ e.
          subst (λ b. (attempt lib b command c).1 ≢ again) (sym e) (command_not_again command c))
        (attempt-Retry s command c)

  -- GetEnvironmentStatus ends, after one retry at most. With the flag for a snapshot an answer
  -- means that the reports that waited were all in the newest request, to which it is the answer,
  -- and that they have become the last ones sent; in every other case, a panic and an error
  -- included, they wait as they did.
  pub get_environment_status-Outcome :
      (flags : List Str) (c : AsyncClient)
      → Outcome
          (any (λ f. str_eq f (codes "snapshot")) flags)
          c
          (get_environment_status lib flags c)
  unfolding get_environment_status
  get_environment_status-Outcome flags c = attempts-Outcome _ _ c
