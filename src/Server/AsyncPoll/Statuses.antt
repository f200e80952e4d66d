-- ===== src/Server/AsyncPoll/Statuses.antt =====
-- The statuses of the edge stacks, as the reports of the async client make them.
use portainer_agent.Base.{
  ℕ, ◌==◌, ◌≡◌, refl, ◌∙◌, sym, ap, Bool, true, false, Option, none, some, List, [], ◌∷◌, Str,
  lookup, lookup-insert, if◌then◌else◌, Bool-cases, ==_iff, inl, inr,
}
use portainer_agent.Agent.{LogCommandData}
use portainer_agent.Outside.{StatusType}
use portainer_agent.Server.AsyncClient.{
  Details, no_details, set_details, Status, zero_status, AsyncClient, status_or_last,
  current_status, reported, set_edge_stack_status, set_edge_job_status, set_last_command_timestamp,
  enqueue_log_collection_for_stack, ContainerPlatform, new_async_client,
}
use portainer_agent.Server.AsyncPoll.{Libraries, AsyncResponse, Attempt, get_environment_status}
use portainer_agent.Server.AsyncPoll.Merging.{lookup-merge, first_of}
use portainer_agent.Server.AsyncPoll.Reports.{IsKept, IsDelivered}
use portainer_agent.Server.AsyncPoll.Outcome.{
  Outcome, crashed, unanswered, commands_only, reported as answered_reported,
  get_environment_status-Outcome,
}

IsKept-current_status :
    (c c' : AsyncClient) (id : ℕ) → IsKept c c' → current_status c' id ≡ current_status c id
unfolding current_status status_or_last
IsKept-current_status c c' id h = rw (h.stacks, h.last) refl

-- What a client without waiting reports knows of an identifier.
abbrev status_in : Option Status → Status
status_in (some s) = s
status_in none = zero_status

status_in-status_or_last :
    (c : AsyncClient) (id : ℕ) (n : Option Status)
    → status_or_last c id n ≡ status_in (first_of n (lookup id c.last_stack_status))
unfolding status_or_last
status_in-status_or_last c id (some s) = refl
status_in-status_or_last c id none = elim (lookup id c.last_stack_status) [
  | some s ↦ refl
  | none ↦ refl
]

IsDelivered-current_status :
    (lib : Libraries) (c c' : AsyncClient) (r : AsyncResponse) (id : ℕ)
    → IsDelivered lib c c' r
    → current_status c' id ≡ current_status c id
unfolding current_status lookup
IsDelivered-current_status lib c c' r id d =
    status_in-status_or_last c' id (lookup id c'.next_stack_status)
    ∙ rw (d.no_stacks, d.last)
        (ap status_in (lookup-merge id c.last_stack_status c.next_stack_status))
    ∙ sym (status_in-status_or_last c id (lookup id c.next_stack_status))

-- What the agent does with its client: it reports, or it polls.
pub data ClientEvent : Type 0 where
  stack_report : ℕ → StatusType → Str → ClientEvent
  job_report : ℕ → Str → ClientEvent
  log_request : LogCommandData → ClientEvent
  timestamp : ℕ → ClientEvent
  poll : List Str → ClientEvent

unfoldable pub client_step : Libraries → ClientEvent → AsyncClient → AsyncClient
client_step lib (stack_report id type message) c = set_edge_stack_status id type message c
client_step lib (job_report id content) c = set_edge_job_status id content c
client_step lib (log_request d) c = enqueue_log_collection_for_stack d c
client_step lib (timestamp t) c = set_last_command_timestamp t c
client_step lib (poll flags) c = (get_environment_status lib flags c).0

-- The events in a list are those so far, newest first.
unfoldable pub run_client : Libraries → List ClientEvent → AsyncClient → AsyncClient
run_client lib [] c = c
run_client lib (e ∷ events) c = client_step lib e (run_client lib events c)

-- The flags and the message of a stack, as the reports alone make them.
unfoldable pub latest : List ClientEvent → ℕ → Details × Str
latest [] id = (no_details, [])
latest (stack_report j type message ∷ events) id =
    let before = latest events id in
    if j == id then (set_details type before.0, message) else before
latest (job_report j content ∷ events) id = latest events id
latest (log_request d ∷ events) id = latest events id
latest (timestamp t ∷ events) id = latest events id
latest (poll flags ∷ events) id = latest events id

abbrev pub view : Status → Details × Str
view s = (s.details, s.error)

-- A report changes the status of its own stack only.
set_edge_stack_status-current_status :
    (c : AsyncClient) (id j : ℕ) (type : StatusType) (message : Str)
    → current_status (set_edge_stack_status j type message c) id
      ≡ (if j == id then reported c type message (current_status c j) else current_status c id)
unfolding current_status set_edge_stack_status status_or_last
set_edge_stack_status-current_status c id j type message =
    ap (status_or_last (set_edge_stack_status j type message c) id)
      (lookup-insert j id (reported c type message (current_status c j)) c.next_stack_status)
    ∙ by_test (j == id)
  where
    by_test :
        (b : Bool)
        → status_or_last (set_edge_stack_status j type message c) id (
            if b
            then some (reported c type message (current_status c j))
            else lookup id c.next_stack_status)
          ≡ (if b then reported c type message (current_status c j) else current_status c id)
    by_test true = refl
    by_test false = refl

Outcome-current_status :
    (lib : Libraries) (s : Bool) (c : AsyncClient) (o : AsyncClient × Attempt) (id : ℕ)
    → Outcome lib s c o
    → current_status o.0 id ≡ current_status c id
Outcome-current_status lib s c (c', a) id (crashed h) = IsKept-current_status c c' id h
Outcome-current_status lib s c (c', a) id (unanswered h) = IsKept-current_status c c' id h
Outcome-current_status lib s c (c', a) id (commands_only h) = IsKept-current_status c c' id h
Outcome-current_status lib s c (c', a) id (answered_reported d) =
    IsDelivered-current_status lib c c' _ id d

new_async_client-current_status :
    (p : ContainerPlatform) (endpoint epoch id : ℕ)
    → view (current_status (new_async_client p endpoint epoch) id) ≡ (no_details, [])
unfolding current_status status_or_last new_async_client lookup
new_async_client-current_status p endpoint epoch id = refl

pub reported-view :
    (c : AsyncClient) (type : StatusType) (message : Str) (s : Status)
    → view (reported c type message s) ≡ (set_details type s.details, message)
unfolding reported
reported-view c type message s = refl

stack_report-latest :
    (c : AsyncClient) (spec : ℕ → Details × Str) (id j : ℕ) (type : StatusType) (message : Str)
    → ((k : ℕ) → view (current_status c k) ≡ spec k)
    → view (current_status (set_edge_stack_status j type message c) id)
      ≡ (if j == id then (set_details type (spec id).0, message) else spec id)
stack_report-latest c spec id j type message h =
    ap view (set_edge_stack_status-current_status c id j type message)
    ∙ elim (Bool-cases (j == id)) [
      | inl same ↦ rw same (
          reported-view c type message (current_status c j)
          ∙ rw ((==_iff j id).0 same)
              (ap (λ (v : Details × Str). (set_details type v.0, message)) (h id)))
      | inr other ↦ rw other (h id)
    ]

set_edge_job_status-current_status :
    (c : AsyncClient) (j : ℕ) (content : Str) (id : ℕ)
    → current_status (set_edge_job_status j content c) id ≡ current_status c id
unfolding current_status status_or_last set_edge_job_status
set_edge_job_status-current_status c j content id = refl

enqueue-current_status :
    (c : AsyncClient) (d : LogCommandData) (id : ℕ)
    → current_status (enqueue_log_collection_for_stack d c) id ≡ current_status c id
unfolding current_status status_or_last enqueue_log_collection_for_stack
enqueue-current_status c d id = refl

timestamp-current_status :
    (c : AsyncClient) (t id : ℕ)
    → current_status (set_last_command_timestamp t c) id ≡ current_status c id
unfolding current_status status_or_last set_last_command_timestamp
timestamp-current_status c t id = refl

abbrev so_far : Libraries → List ClientEvent → ContainerPlatform → ℕ → ℕ → AsyncClient
so_far lib events p endpoint epoch = run_client lib events (new_async_client p endpoint epoch)

-- Whatever the client reports between its polls, however often it polls, and whatever the server
-- answers, the flags and the message that the next report on a stack builds on are those that the
-- reports before make, in their order.
pub run_client-latest :
    (lib : Libraries) (events : List ClientEvent) (p : ContainerPlatform) (endpoint epoch id : ℕ)
    → view (current_status (run_client lib events (new_async_client p endpoint epoch)) id)
      ≡ latest events id
unfolding run_client client_step latest
run_client-latest lib [] p endpoint epoch id = new_async_client-current_status p endpoint epoch id
run_client-latest lib (stack_report j type message ∷ events) p endpoint epoch id =
    stack_report-latest (so_far lib events p endpoint epoch) (latest events) id j type message
      (λ k. run_client-latest lib events p endpoint epoch k)
run_client-latest lib (job_report j content ∷ events) p endpoint epoch id =
    ap view (set_edge_job_status-current_status (so_far lib events p endpoint epoch) j content id)
    ∙ run_client-latest lib events p endpoint epoch id
run_client-latest lib (log_request d ∷ events) p endpoint epoch id =
    ap view (enqueue-current_status (so_far lib events p endpoint epoch) d id)
    ∙ run_client-latest lib events p endpoint epoch id
run_client-latest lib (timestamp t ∷ events) p endpoint epoch id =
    ap view (timestamp-current_status (so_far lib events p endpoint epoch) t id)
    ∙ run_client-latest lib events p endpoint epoch id
run_client-latest lib (poll flags ∷ events) p endpoint epoch id =
    ap view (
      Outcome-current_status lib _ (so_far lib events p endpoint epoch) _ id
        (get_environment_status-Outcome lib flags (so_far lib events p endpoint epoch)))
    ∙ run_client-latest lib events p endpoint epoch id
