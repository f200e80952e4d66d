-- ===== src/Server/AsyncPoll/Places.antt =====
-- The places where a report on a stack may be, and how a poll moves it.
use portainer_agent.Base.{
  ℕ, zero, suc, ◌≡◌, ◌∙◌, sym, ap, subst, Bool, true, false, not, ◌&&◌, Option, none, some, ◌⊎◌,
  inl, List, [], ◌∷◌, Str, lookup, if-elim,
}
use portainer_agent.Server.AsyncClient.{
  Details, no_details, Status, Snapshot, AsyncRequest, AsyncClient,
}
use portainer_agent.Server.AsyncPoll.{
  AsyncResponse, Libraries, Prepared, panics, ready, request_of, send, snapshot_sent, Attempt,
  panicked, failed, again, answered, finish_snapshot, snapshot_answered, snapshot_prepared,
  command_answered, attempt, retry, attempts, get_environment_status,
}
use portainer_agent.Server.AsyncPoll.Reports.{IsDelivered}
use portainer_agent.Server.AsyncPoll.Statuses.{view}

-- An answered request of a history, newest first, has a status of the stack with what is given.
abbrev pub Delivered : Libraries → ℕ → Details × Str → List AsyncRequest → Type 0
Delivered lib id v [] = ⊥
Delivered lib id v (request ∷ before) =
    ((snapshot : Snapshot) × (status : Status) × (response : AsyncResponse) × (request.snapshot
        ≡ some snapshot)
      × (lookup id snapshot.stack_status ≡ some status)
      × (view status ≡ v)
      × (lib.answer (request ∷ before) ≡ some response))
    ⊎ Delivered lib id v before

-- Where what is to be said of a stack stands: it waits for the next snapshot, or nothing waits and
-- an answered request had it, or there is nothing to say.
pub data Standing (lib : Libraries) (id : ℕ) (v : Details × Str) (c : AsyncClient) : Type 0 where
  waits :
      {status : Status}
      → lookup id c.next_stack_status ≡ some status
      → view status ≡ v
      → Standing lib id v c
  delivered : lookup id c.next_stack_status ≡ none → Delivered lib id v c.sent → Standing lib id v c
  unreported : lookup id c.next_stack_status ≡ none → v ≡ (no_details, []) → Standing lib id v c

-- The same reports wait, and further requests were sent.
abbrev pub Later : (List AsyncRequest → Type 0) → AsyncClient → AsyncClient → Type 0
Later P c c' = P c.sent → P c'.sent

pub kept-Standing :
    (lib : Libraries) (id : ℕ) (v : Details × Str) (c c' : AsyncClient)
    → c'.next_stack_status ≡ c.next_stack_status
    → Later (Delivered lib id v) c c'
    → Standing lib id v c
    → Standing lib id v c'
kept-Standing lib id v c c' h later (waits found said) = waits (ap (lookup id) h ∙ found) said
kept-Standing lib id v c c' h later (delivered gone was) =
    delivered (ap (lookup id) h ∙ gone) (later was)
kept-Standing lib id v c c' h later (unreported gone said) =
    unreported (ap (lookup id) h ∙ gone) said

pub IsDelivered-Standing :
    (lib : Libraries) (id : ℕ) (v : Details × Str) (c c' : AsyncClient) (r : AsyncResponse)
    → IsDelivered lib c c' r
    → Later (Delivered lib id v) c c'
    → Standing lib id v c
    → Standing lib id v c'
unfolding lookup
IsDelivered-Standing lib id v c c' r d later (waits {status} found said) =
    delivered (ap (lookup id) d.no_stacks) (
      subst (Delivered lib id v) (sym d.newest) (
        inl (
          d.snapshot,
          status,
          r,
          d.content,
          ap (lookup id) d.all_stacks ∙ found,
          said,
          subst (λ sent. lib.answer sent ≡ some r) d.newest d.answer,
        )))
IsDelivered-Standing lib id v c c' r d later (delivered gone was) =
    delivered (ap (lookup id) d.no_stacks) (later was)
IsDelivered-Standing lib id v c c' r d later (unreported gone said) =
    unreported (ap (lookup id) d.no_stacks) said

-- A poll only adds requests to those that were sent.
module _ (lib : Libraries) (P : List AsyncRequest → Type 0)
    (more : (request : AsyncRequest) (sent : List AsyncRequest) → P sent → P (request ∷ sent)) where
  pub snapshot_answered-Later :
      (d k : Option Str) (c : AsyncClient) (o : Option AsyncResponse)
      → Later P c (snapshot_answered lib d k c o).0
  unfolding snapshot_answered finish_snapshot snapshot_sent
  snapshot_answered-Later d k c none h = h
  snapshot_answered-Later d k c (some r) h =
      if-elim (λ (o : AsyncClient × Attempt). P o.0.sent)
        (r.need_full_snapshot && not c.snapshot_retried)
        {x = (record c { snapshot_retried = true }, again)}
        {y = (record (snapshot_sent d k c) { endpoint_id = r.endpoint_id }, answered r)} (λ _. h)
        (λ _. h)

  pub snapshot_prepared-Later :
      (command : Bool) (c : AsyncClient) (p : Prepared)
      → Later P c (snapshot_prepared lib command c p).0
  unfolding snapshot_prepared send
  snapshot_prepared-Later command c panics h = h
  snapshot_prepared-Later command c (ready s d k) h =
      snapshot_answered-Later d k (send (request_of command (some s) c) c) _ (more _ c.sent h)

  pub command_answered-Later :
      (c : AsyncClient) (o : Option AsyncResponse) → Later P c (command_answered lib c o).0
  unfolding command_answered
  command_answered-Later c none h = h
  command_answered-Later c (some r) h = h

  pub attempt-Later :
      (snapshot command : Bool) (c : AsyncClient) → Later P c (attempt lib snapshot command c).0
  unfolding attempt send
  attempt-Later true command c h = snapshot_prepared-Later command c _ h
  attempt-Later false command c h =
      command_answered-Later (send (request_of command none c) c) _ (more _ c.sent h)

  pub retry-Later :
      (f : AsyncClient → AsyncClient × Attempt) (o : AsyncClient × Attempt)
      → ((c : AsyncClient) → Later P c (f c).0)
      → Later P o.0 (retry lib f o).0
  unfolding retry
  retry-Later f (c, again) g h = g c h
  retry-Later f (c, panicked) g h = h
  retry-Later f (c, failed) g h = h
  retry-Later f (c, answered r) g h = h

  pub attempts-Later :
      (fuel : ℕ) (snapshot command : Bool) (c : AsyncClient)
      → Later P c (attempts lib fuel snapshot command c).0
  unfolding attempts
  attempts-Later zero snapshot command c h = h
  attempts-Later (suc fuel) snapshot command c h =
      retry-Later (attempts lib fuel true false) _ (attempts-Later fuel true false)
        (attempt-Later snapshot command c h)

  pub get_environment_status-Later :
      (flags : List Str) (c : AsyncClient) → Later P c (get_environment_status lib flags c).0
  unfolding get_environment_status
  get_environment_status-Later flags c h = attempts-Later 2 _ _ c h
