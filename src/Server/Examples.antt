-- ===== src/Server/Examples.antt =====
-- The theorems of the clients of the server at concrete reports and answers.
use portainer_agent.Base.{
  ◌≡◌, refl, Bool, true, false, Option, none, some, List, [], ◌∷◌, Str, any, str_eq, codes, ◌||◌,
  ◌⊎◌, inl, str_eq_iff, if◌then◌else◌,
}
use portainer_agent.Agent.{PollStatusResponse}
use portainer_agent.Outside.{StatusType}
use portainer_agent.Outside.Worlds.{response}
use portainer_agent.Server.EdgeClient.{
  Http, LruCache, EdgeClient, cache_headers, status_request,
  get_environment_status as get_sync_status,
}
use portainer_agent.Server.EdgeClient.Caching.{
  LruLaws, not_modified, IsSound, Wanted, get_environment_status-Current,
}
use portainer_agent.Server.AsyncClient.{
  platform_docker, Snapshot, AsyncRequest, AsyncClient, set_edge_stack_status, new_async_client,
}
use portainer_agent.Server.AsyncPoll.{
  AsyncResponse, Libraries, base_snapshot, request_of, send, Attempt, finish_snapshot,
  get_environment_status,
}
use portainer_agent.Server.AsyncPoll.Outcome.{Outcome, get_environment_status-Outcome}
use portainer_agent.Server.AsyncPoll.Statuses.{ClientEvent, stack_report, poll, run_client, latest}
use portainer_agent.Server.AsyncPoll.Delivery.{run_client-Standing}
use portainer_agent.Server.AsyncPoll.Places.{Standing}

-- The server asks for a full snapshot at the second request of a history.
abbrev server : List AsyncRequest → Option AsyncResponse
server (a ∷ b ∷ []) = some (record { endpoint_id = 7; commands = []; need_full_snapshot = true })
server _ = some (record { endpoint_id = 7; commands = []; need_full_snapshot = false })

abbrev libraries : Libraries
libraries = record {
  docker_snapshot = λ sent. some (codes "snapshot");
  kubernetes_snapshot = λ sent. none;
  snapshot_hash = λ s. some 1;
  compare = λ a b. some (codes "[]");
  containers_with_label = λ sent label. some [];
  container_logs = λ sent id tail. none;
  answer = server;
}

abbrev client : AsyncClient
client = new_async_client platform_docker 0 0

abbrev reports : List ClientEvent
reports =
    stack_report 3 StatusType.ok []
    ∷ poll (codes "snapshot" ∷ [])
    ∷ stack_report 3 StatusType.acknowledged []
    ∷ []

get_environment_status-Outcome_example :
    Outcome libraries
      (any (λ f. str_eq f (codes "snapshot")) (codes "snapshot" ∷ codes "command" ∷ []))
      client
      (get_environment_status libraries (codes "snapshot" ∷ codes "command" ∷ []) client)
get_environment_status-Outcome_example =
    get_environment_status-Outcome libraries (codes "snapshot" ∷ codes "command" ∷ []) client

run_client-Standing_example :
    Standing libraries 3 (latest reports 3) (run_client libraries reports client)
run_client-Standing_example = run_client-Standing libraries reports platform_docker 0 0 3

abbrev answer : AsyncResponse
answer = record { endpoint_id = 7; commands = []; need_full_snapshot = false }

abbrev waiting : AsyncClient
waiting = set_edge_stack_status 4 StatusType.ok [] client

abbrev prepared : Snapshot
prepared = record (base_snapshot waiting) { docker = some (codes "snapshot") }

abbrev request : AsyncRequest
request = request_of true (some prepared) waiting

-- The answer comes after a report on the third stack.
abbrev finished : AsyncClient × Attempt
finished =
    finish_snapshot (some (codes "snapshot")) none answer
      (set_edge_stack_status 3 StatusType.failed (codes "no") (send request waiting))

-- A cache of one entry.
abbrev Entry : Type 0
Entry = Option (Str × PollStatusResponse)

unfoldable one_key : Entry → List Str
one_key none = []
one_key (some (k, v)) = k ∷ []

unfoldable one_get : Str → Entry → Option PollStatusResponse
one_get k none = none
one_get k (some (j, v)) = if str_eq k j then some v else none

abbrev one_entry : LruCache Entry
one_entry = record { keys = one_key; get = one_get; touch = λ k c. c; add = λ k v c. some (k, v) }

one_get-key :
    (k : Str) (c : Entry)
    → any (str_eq k) (one_key c) ≡ true
    → (v : PollStatusResponse) × (one_get k c ≡ some v)
unfolding one_key one_get
one_get-key k none h = cc (h)
one_get-key k (some (j, v)) h = (v, by_test (str_eq k j) h)
  where
    by_test : (b : Bool) → (b || false) ≡ true → (if b then some v else none) ≡ some v
    by_test true h = refl
    by_test false h = cc (h)

one_get-add :
    (j k : Str) (v w : PollStatusResponse) (c : Entry)
    → one_get j (some (k, v)) ≡ some w
    → ((j ≡ k) × (w ≡ v)) ⊎ (one_get j c ≡ some w)
unfolding one_get
one_get-add j k v w c h = by_test (str_eq j k) (λ e. (str_eq_iff j k).0 e) h
  where
    by_test :
        (b : Bool)
        → (b ≡ true → j ≡ k)
        → (if b then some v else none) ≡ some w
        → ((j ≡ k) × (w ≡ v)) ⊎ (one_get j c ≡ some w)
    by_test true at_key h = inl (at_key refl, cc (h))
    by_test false at_key h = cc (h)

one_entry-LruLaws : LruLaws one_entry
one_entry-LruLaws = record {
  get_key = one_get-key;
  get_touch = λ j k c. refl;
  get_add = one_get-add;
}

-- The second poll is answered from the cache.
abbrev sync_http : Http
sync_http = record {
  answer = λ sent. some (record { status_code = 304; etag = codes "a"; body = [] });
  decode_id = λ s. none;
  decode_status = λ s. none;
  decode_stack = λ s. none;
  marshal_status = λ m t e. none;
  marshal_logs = λ m. none;
}

abbrev sync_client : EdgeClient Entry
sync_client = record {
  server_address = codes "https://portainer";
  edge_id = codes "edge-1";
  endpoint_id = 7;
  req_cache = some (some (codes "a", response));
  sent = [];
}

one_entry-IsSound :
    IsSound sync_http (λ tag. response) one_entry one_entry-LruLaws sync_client.req_cache
unfolding one_get
one_entry-IsSound j w h = by_test (str_eq j (codes "a")) h
  where
    by_test : (b : Bool) → (if b then some response else none) ≡ some w → w ≡ response
    by_test true h = cc (h)
    by_test false h = cc (h)

get_environment_status-Current_example :
    IsSound sync_http
      (λ tag. response)
      one_entry
      one_entry-LruLaws
      (get_sync_status one_entry sync_http sync_client).0.req_cache
    × Wanted sync_http
        (λ tag. response)
        one_entry
        one_entry-LruLaws
        (codes "a")
        (sync_http.answer (status_request one_entry sync_http sync_client ∷ []))
        (get_sync_status one_entry sync_http sync_client).1
unfolding cache_headers one_key str_eq
get_environment_status-Current_example =
    get_environment_status-Current sync_http (λ tag. response) one_entry one_entry-LruLaws
      (codes "a") sync_client one_entry-IsSound (not_modified refl refl refl refl)
