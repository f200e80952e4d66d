-- ===== src/Server/EdgeClient.antt =====
-- edge/client/portainer_edge_client.go: the client of the sync mode. Each of its methods makes one
-- HTTP request; a status of the environment that it has seen is kept under its entity tag.
pub mod Caching
use portainer_agent.Base.{
  ℕ, ◌==◌, Bool, true, false, not, ◌&&◌, ◌||◌, Option, none, some, List, [], ◌∷◌, ◌++◌, Str, codes,
  itoa, str_eq, if◌then◌else◌,
}
use portainer_agent.Agent.{EdgeStackConfig, EdgeStackData, PollStatusResponse}

-- A request, with the entity tags of its If-None-Match header, which commas separate there. The
-- other headers name the agent and its platform.
pub record HttpRequest : Type 0 where
  pub method : Str
  pub url : Str
  pub if_none_match : List Str
  pub content : Option Str

pub record HttpResponse : Type 0 where
  pub status_code : ℕ
  pub etag : Str
  pub body : Str

-- The server and the JSON library. `none` is an error of the connection, or of the decoding.
pub record Http : Type 0 where
  -- The answer to the newest request of a history.
  pub answer : List HttpRequest → Option HttpResponse
  pub decode_id : Str → Option ℕ
  pub decode_status : Str → Option PollStatusResponse
  pub decode_stack : Str → Option EdgeStackData
  pub marshal_status : Str → ℕ → ℕ → Option Str
  pub marshal_logs : Str → Option Str

-- The cache of the golang-lru library: what the client calls of it. `touch` is the effect of Get
-- on the order of use.
pub record LruCache (C : Type 0) : Type 0 where
  pub keys : C → List Str
  pub get : Str → C → Option PollStatusResponse
  pub touch : Str → C → C
  pub add : Str → PollStatusResponse → C → C

-- PortainerEdgeClient, with the endpoint's identifier that its functions read. `req_cache` is
-- `none` if the cache could not be made. `sent` are the requests so far, newest first.
pub record EdgeClient (C : Type 0) : Type 0 where
  pub server_address : Str
  pub edge_id : Str
  pub endpoint_id : ℕ
  pub req_cache : Option C
  pub sent : List HttpRequest

-- A result, or the error's text.
pub data Result (A : Type 0) : Type 0 where
  ok : A → Result A
  error : Str → Result A

unfoldable pub decoded : {A : Type 0} → Option A → Result A
decoded (some a) = ok a
decoded none = error (codes "invalid JSON")

module _ {C : Type 0} (lru : LruCache C) (http : Http) where
  unfoldable pub do_request : HttpRequest → EdgeClient C → EdgeClient C
  do_request request c = record c { sent = request ∷ c.sent }

  unfoldable pub id_answered : Option HttpResponse → Result ℕ
  id_answered none = error (codes "connection")
  id_answered (some r) =
      if not (r.status_code == 200)
      then error (codes "global key request failed")
      else decoded (http.decode_id r.body)

  unfoldable pub get_environment_id : EdgeClient C → EdgeClient C × Result ℕ
  get_environment_id c =
      if str_eq c.edge_id []
      then (c, error (codes "edge ID not set"))
      else (let c' =
            do_request
              (record {
                method = codes "POST";
                url = c.server_address ++ codes "/api/endpoints/global-key";
                if_none_match = [];
                content = none;
              })
              c in
          (c', id_answered (http.answer c'.sent)))

  unfoldable pub cache_headers : Option C → List Str
  cache_headers none = []
  cache_headers (some cache) = lru.keys cache

  -- cacheResponse
  unfoldable pub cache_response : Str → PollStatusResponse → Option C → Option C
  cache_response etag response none = none
  cache_response etag response (some cache) =
      if str_eq etag [] then some cache else some (lru.add etag response cache)

  -- cachedResponse, with the cache after it.
  unfoldable pub cached_in : HttpResponse → C → Option C × Option PollStatusResponse
  cached_in r cache =
      if not (r.status_code == 304) || str_eq r.etag []
      then (some cache, none)
      else (some (lru.touch r.etag cache), lru.get r.etag cache)

  unfoldable pub cached_response : HttpResponse → Option C → Option C × Option PollStatusResponse
  cached_response r none = (none, none)
  cached_response r (some cache) = cached_in r cache

  unfoldable pub status_decoded :
      HttpResponse
      → Option PollStatusResponse
      → EdgeClient C
      → EdgeClient C × Result PollStatusResponse
  status_decoded r none c = (c, error (codes "invalid JSON"))
  status_decoded r (some response) c =
      (record c { req_cache = cache_response r.etag response c.req_cache }, ok response)

  unfoldable pub cache_asked :
      HttpResponse
      → EdgeClient C
      → Option C × Option PollStatusResponse
      → EdgeClient C × Result PollStatusResponse
  cache_asked r c (cache, some response) = (record c { req_cache = cache }, ok response)
  cache_asked r c (cache, none) =
      if not (r.status_code == 200)
      then (record c { req_cache = cache }, error (codes "short poll request failed"))
      else status_decoded r (http.decode_status r.body) (record c { req_cache = cache })

  unfoldable pub status_answered :
      Option HttpResponse → EdgeClient C → EdgeClient C × Result PollStatusResponse
  status_answered none c = (c, error (codes "connection"))
  status_answered (some r) c = cache_asked r c (cached_response r c.req_cache)

  unfoldable pub status_request : EdgeClient C → HttpRequest
  status_request c = record {
    method = codes "GET";
    url = c.server_address ++ codes "/api/endpoints/" ++ itoa c.endpoint_id ++ codes "/edge/status";
    if_none_match = cache_headers c.req_cache;
    content = none;
  }

  unfoldable pub get_environment_status : EdgeClient C → EdgeClient C × Result PollStatusResponse
  get_environment_status c =
      let c' = do_request (status_request c) c in status_answered (http.answer c'.sent) c'

  unfoldable pub edge_stack_config : EdgeStackData → EdgeStackConfig
  edge_stack_config d = record {
    name = d.name;
    file_content = d.stack_file_content;
    registry_credentials = d.registry_credentials;
    namespace = d.namespace;
    pre_pull_image = d.pre_pull_image;
    re_pull_image = d.re_pull_image;
  }

  unfoldable pub config_decoded : Option EdgeStackData → Result EdgeStackConfig
  config_decoded none = error (codes "invalid JSON")
  config_decoded (some d) = ok (edge_stack_config d)

  unfoldable pub config_answered : Option HttpResponse → Result EdgeStackConfig
  config_answered none = error (codes "connection")
  config_answered (some r) =
      if not (r.status_code == 200)
      then error (codes "GetEdgeStackConfig operation failed")
      else config_decoded (http.decode_stack r.body)

  unfoldable pub get_edge_stack_config : ℕ → EdgeClient C → EdgeClient C × Result EdgeStackConfig
  get_edge_stack_config id c =
      let c' =
        do_request
          (record {
            method = codes "GET";
            url =
                c.server_address
                ++ codes "/api/endpoints/"
                ++ itoa c.endpoint_id
                ++ codes "/edge/stacks/"
                ++ itoa id;
            if_none_match = [];
            content = none;
          })
          c in
      (c', config_answered (http.answer c'.sent))

  -- The answer to a report, which is an error unless its status passes the test.
  unfoldable pub report_answered : (ℕ → Bool) → Str → Option HttpResponse → Result (Unit {0})
  report_answered passes message none = error (codes "connection")
  report_answered passes message (some r) = if passes r.status_code then ok tt else error message

  unfoldable pub report :
      Str → Str → Option Str → (ℕ → Bool) → Str → EdgeClient C → EdgeClient C × Result (Unit {0})
  report method path body passes message c =
      let c' =
        do_request
          (record {
            method = method;
            url = c.server_address ++ path;
            if_none_match = [];
            content = body;
          })
          c in
      (c', report_answered passes message (http.answer c'.sent))

  unfoldable pub status_marshalled :
      ℕ → Option Str → EdgeClient C → EdgeClient C × Result (Unit {0})
  status_marshalled id none c = (c, error (codes "invalid JSON"))
  status_marshalled id (some body) c =
      report (codes "PUT") (codes "/api/edge_stacks/" ++ itoa id ++ codes "/status") (some body)
        (λ status. status == 200) (codes "SetEdgeStackStatus operation failed") c

  unfoldable pub set_edge_stack_status :
      ℕ → ℕ → Str → EdgeClient C → EdgeClient C × Result (Unit {0})
  set_edge_stack_status id type message c =
      status_marshalled id (http.marshal_status message type c.endpoint_id) c

  unfoldable pub delete_edge_stack_status : ℕ → EdgeClient C → EdgeClient C × Result (Unit {0})
  delete_edge_stack_status id c =
      report (codes "DELETE")
        (codes "/api/edge_stacks/" ++ itoa id ++ codes "/status/" ++ itoa c.endpoint_id) none
        (λ status. status == 200 || status == 404) (codes "DeleteEdgeStackStatus operation failed")
        c

  unfoldable pub logs_marshalled : ℕ → Option Str → EdgeClient C → EdgeClient C × Result (Unit {0})
  logs_marshalled id none c = (c, error (codes "invalid JSON"))
  logs_marshalled id (some body) c =
      report (codes "POST")
        (codes "/api/endpoints/"
          ++ itoa c.endpoint_id
          ++ codes "/edge/jobs/"
          ++ itoa id
          ++ codes "/logs")
        (some body) (λ status. status == 200) (codes "SetEdgeJobStatus operation failed") c

  unfoldable pub set_edge_job_status : ℕ → Str → EdgeClient C → EdgeClient C × Result (Unit {0})
  set_edge_job_status id content c = logs_marshalled id (http.marshal_logs content) c
