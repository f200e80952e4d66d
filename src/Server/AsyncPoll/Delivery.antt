-- ===== src/Server/AsyncPoll/Delivery.antt =====
-- Where the reports on a stack are: they wait in the async client, or an answered request had them.
use portainer_agent.Base.{
  ℕ, ◌==◌, ◌≡◌, refl, ◌∙◌, ap, subst, Bool, false, some, inl, inr, List, [], ◌∷◌, Str, lookup,
  lookup-insert, lookup-insert_self, if◌then◌else◌, Bool-cases, ==_iff,
}
use portainer_agent.Outside.{StatusType}
use portainer_agent.Server.AsyncClient.{
  Details, set_details, AsyncClient, current_status, reported, set_edge_stack_status,
  set_edge_job_status, set_last_command_timestamp, enqueue_log_collection_for_stack,
  ContainerPlatform, new_async_client,
}
use portainer_agent.Server.AsyncPoll.{Libraries, Attempt, get_environment_status}
use portainer_agent.Server.AsyncPoll.Outcome.{
  Outcome, crashed, unanswered, commands_only, reported as answered_reported,
  get_environment_status-Outcome,
}
use portainer_agent.Server.AsyncPoll.Statuses.{
  ClientEvent, stack_report, job_report, log_request, timestamp, poll, client_step, run_client,
  latest, view, reported-view, run_client-latest,
}
use portainer_agent.Server.AsyncPoll.Places.{
  Standing, Delivered, waits, delivered, unreported, Later, kept-Standing, IsDelivered-Standing,
  get_environment_status-Later,
}

Outcome-Standing :
    (lib : Libraries) (s : Bool) (c : AsyncClient) (o : AsyncClient × Attempt) (id : ℕ)
    (v : Details × Str)
    → Outcome lib s c o
    → Later (Delivered lib id v) c o.0
    → Standing lib id v c
    → Standing lib id v o.0
Outcome-Standing lib s c (c', a) id v (crashed h) = kept-Standing lib id v c c' h.stacks
Outcome-Standing lib s c (c', a) id v (unanswered h) = kept-Standing lib id v c c' h.stacks
Outcome-Standing lib s c (c', a) id v (commands_only h) = kept-Standing lib id v c c' h.stacks
Outcome-Standing lib s c (c', a) id v (answered_reported d) = IsDelivered-Standing lib id v c c' _ d

poll-Standing :
    (lib : Libraries) (flags : List Str) (c : AsyncClient) (id : ℕ) (v : Details × Str)
    → Standing lib id v c
    → Standing lib id v (get_environment_status lib flags c).0
poll-Standing lib flags c id v =
    Outcome-Standing lib _ c _ id v (get_environment_status-Outcome lib flags c)
      (get_environment_status-Later lib (Delivered lib id v) (λ _ _ was. inr was) flags c)

untouched :
    (c : AsyncClient) (id j : ℕ) (type : StatusType) (message : Str)
    → (j == id) ≡ false
    → lookup id (set_edge_stack_status j type message c).next_stack_status
      ≡ lookup id c.next_stack_status
unfolding set_edge_stack_status
untouched c id j type message other =
    lookup-insert j id _ c.next_stack_status
    ∙ ap
        (λ b.
          if b
          then some (reported c type message (current_status c j))
          else lookup id c.next_stack_status)
        other

entered :
    (c : AsyncClient) (j : ℕ) (type : StatusType) (message : Str)
    → lookup j (set_edge_stack_status j type message c).next_stack_status
      ≡ some (reported c type message (current_status c j))
unfolding set_edge_stack_status
entered c j type message = lookup-insert_self j _ c.next_stack_status

others-Standing :
    (lib : Libraries) (c : AsyncClient) (v : Details × Str) (id j : ℕ) (type : StatusType)
    (message : Str)
    → (j == id) ≡ false
    → Standing lib id v c
    → Standing lib id v (set_edge_stack_status j type message c)
others-Standing lib c v id j type message other (waits found said) =
    waits (untouched c id j type message other ∙ found) said
others-Standing lib c v id j type message other (delivered gone was) =
    delivered (untouched c id j type message other ∙ gone) (unfold set_edge_stack_status in was)
others-Standing lib c v id j type message other (unreported gone said) =
    unreported (untouched c id j type message other ∙ gone) said

-- The report itself waits, and those of other stacks are where they were.
report-Standing :
    (lib : Libraries) (c : AsyncClient) (spec : ℕ → Details × Str) (id j : ℕ) (type : StatusType)
    (message : Str)
    → view (current_status c j) ≡ spec j
    → Standing lib id (spec id) c
    → Standing lib id
        (if j == id then (set_details type (spec id).0, message) else spec id)
        (set_edge_stack_status j type message c)
report-Standing lib c spec id j type message known h = elim (Bool-cases (j == id)) [
  | inl same ↦ rw same (own ((==_iff j id).0 same))
  | inr other ↦ rw other (others-Standing lib c (spec id) id j type message other h)
]
  where
    own :
        j ≡ id
        → Standing lib id
            (set_details type (spec id).0, message)
            (set_edge_stack_status j type message c)
    own same =
        waits
          (subst
            (λ i.
              lookup i (set_edge_stack_status j type message c).next_stack_status
              ≡ some (reported c type message (current_status c j)))
            same (entered c j type message))
          (reported-view c type message (current_status c j)
            ∙ ap (λ (v : Details × Str). (set_details type v.0, message)) (known ∙ ap spec same))

abbrev so_far : Libraries → List ClientEvent → ContainerPlatform → ℕ → ℕ → AsyncClient
so_far lib events p endpoint epoch = run_client lib events (new_async_client p endpoint epoch)

-- Whatever the client reports between its polls, however often it polls, and whatever the server
-- answers, no report of a stack that was made between two polls is lost: the flags and the message
-- that the reports make, in their order, wait for the next snapshot, or nothing waits and a request
-- that the server answered had them, or the stack was never reported.
pub run_client-Standing :
    (lib : Libraries) (events : List ClientEvent) (p : ContainerPlatform) (endpoint epoch id : ℕ)
    → Standing lib id (latest events id) (run_client lib events (new_async_client p endpoint epoch))
unfolding run_client client_step latest
run_client-Standing lib [] p endpoint epoch id =
    unreported (unfold new_async_client lookup in refl) refl
run_client-Standing lib (stack_report j type message ∷ events) p endpoint epoch id =
    report-Standing lib (so_far lib events p endpoint epoch) (latest events) id j type message
      (run_client-latest lib events p endpoint epoch j)
      (run_client-Standing lib events p endpoint epoch id)
run_client-Standing lib (job_report j content ∷ events) p endpoint epoch id =
    kept-Standing lib id _ (so_far lib events p endpoint epoch)
      (set_edge_job_status j content (so_far lib events p endpoint epoch))
      (unfold set_edge_job_status in refl) (unfold set_edge_job_status in λ was. was)
      (run_client-Standing lib events p endpoint epoch id)
run_client-Standing lib (log_request d ∷ events) p endpoint epoch id =
    kept-Standing lib id _ (so_far lib events p endpoint epoch)
      (enqueue_log_collection_for_stack d (so_far lib events p endpoint epoch))
      (unfold enqueue_log_collection_for_stack in refl)
      (unfold enqueue_log_collection_for_stack in λ was. was)
      (run_client-Standing lib events p endpoint epoch id)
run_client-Standing lib (timestamp t ∷ events) p endpoint epoch id =
    kept-Standing lib id _ (so_far lib events p endpoint epoch)
      (set_last_command_timestamp t (so_far lib events p endpoint epoch))
      (unfold set_last_command_timestamp in refl) (unfold set_last_command_timestamp in λ was. was)
      (run_client-Standing lib events p endpoint epoch id)
run_client-Standing lib (poll flags ∷ events) p endpoint epoch id =
    poll-Standing lib flags (so_far lib events p endpoint epoch) id _
      (run_client-Standing lib events p endpoint epoch id)
