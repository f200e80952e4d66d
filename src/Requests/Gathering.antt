-- ===== src/Requests/Gathering.antt =====
-- http/proxy/cluster.go and http/proxy/response.go: one request is run by every member of the
-- cluster, and the answers are put together.
pub mod Arrivals
pub mod SharedUrl
pub mod Contents
use portainer_agent.Base.{
  ℕ, Bool, true, false, not, Option, none, some, List, [], ◌∷◌, ◌++◌, Str, codes, str_eq,
  has_prefix, if◌then◌else◌,
}
use portainer_agent.Agent.{ClusterMember}

-- What encoding/json decodes into an `interface{}`. A number keeps its text.
mutual
  pub data Json : Type 0 where
    json_null : Json
    json_bool : Bool → Json
    json_number json_text : Str → Json
    json_array : Items → Json
    json_object : Fields → Json

  pub data Items : Type 0 where
    no_items : Items
    item : Json → Items → Items

  pub data Fields : Type 0 where
    no_fields : Fields
    field : Str → Json → Fields → Fields

-- A result, an error, or a panic, which ends the process.
pub data Result (A : Type 0) : Type 0 where
  ok : A → Result A
  error : Str → Result A
  panic : Result A

unfoldable pub and_then : {A B : Type 0} → Result A → (A → Result B) → Result B
and_then (ok a) f = f a
and_then (error e) f = error e
and_then panic f = panic

unfoldable pub items_of : Items → List Json
items_of no_items = []
items_of (item j rest) = j ∷ items_of rest

-- Reading a map: nil, which is `json_null`, for a key that is not there.
unfoldable pub get_field : Str → Fields → Json
get_field key no_fields = json_null
get_field key (field other j rest) =
    let found = get_field key rest in if str_eq other key then j else found

unfoldable pub set_field : Str → Json → Fields → Fields
set_field key new no_fields = field key new no_fields
set_field key new (field other j rest) =
    let others = set_field key new rest in
    if str_eq other key then field key new rest else field other j others

-- The type assertions to a map and to a list: `none` is a panic.
unfoldable pub as_object : Json → Option Fields
as_object (json_object fs) = some fs
as_object _ = none

unfoldable pub as_array : Json → Result (List Json)
as_array (json_array js) = ok (items_of js)
as_array _ = panic

unfoldable pub message_error : Json → Result (List Json)
message_error (json_text message) = error message
message_error _ = panic

-- The error that an object with a message stands for.
unfoldable pub message_of : Json → Option Json
message_of (json_object fs) = elim (get_field (codes "message") fs) [
  | json_null ↦ none
  | message ↦ some message
]
message_of _ = none

unfoldable pub volumes_of : Json → Result (List Json)
volumes_of json_null = ok []
volumes_of volumes = as_array volumes

unfoldable pub array_or_error : Json → Result (List Json)
array_or_error (json_array js) = ok (items_of js)
array_or_error _ = error (codes "invalid response from Docker daemon")

unfoldable pub response_array : Str → Json → Option Json → Result (List Json)
response_array path j (some message) = message_error message
response_array path j none =
    if has_prefix path (codes "/volumes")
    then elim (as_object j) [ some fs ↦ volumes_of (get_field (codes "Volumes") fs) | none ↦ panic ]
    else array_or_error j

-- responseToJSONArray; `error` is also that the body does not decode.
unfoldable pub response_to_json_array : Str → Result Json → Result (List Json)
response_to_json_array path body = and_then body (λ j. response_array path j (message_of j))

-- The metadata of agent.go with the name of a node, as encoding/json writes it.
unfoldable pub metadata : Str → Json
metadata name = json_object (
    field (codes "Agent") (json_object (field (codes "NodeName") (json_text name) no_fields))
      no_fields)

-- decorateObject, which panics on an item that is no object.
unfoldable pub decorate_object : Str → Json → Option Json
decorate_object name (json_object fs) =
    some (json_object (set_field (codes "Portainer") (metadata name) fs))
decorate_object name _ = none

-- agentRequestResult
pub record AgentRequestResult : Type 0 where
  pub node_name : Str
  pub response_content : Result (List Json)

-- Appending to the items so far; `none` is a panic.
unfoldable pub join : Option (List Json) → Option (List Json) → Option (List Json)
join none rest = none
join (some js) none = none
join (some js) (some ks) = some (js ++ ks)

unfoldable pub single : Option Json → Option (List Json)
single none = none
single (some j) = some (j ∷ [])

unfoldable pub decorate_all : Str → List Json → Option (List Json)
decorate_all name [] = some []
decorate_all name (j ∷ js) = join (single (decorate_object name j)) (decorate_all name js)

-- The items of one result of the channel: none for a member that failed.
unfoldable pub content_of : Str → Result (List Json) → Option (List Json)
content_of name (ok js) = decorate_all name js
content_of name (error e) = some []
content_of name panic = none

-- The loop over the channel, whose results stand in the order in which they came.
unfoldable pub aggregate : List AgentRequestResult → Option (List Json)
aggregate [] = some []
aggregate (r ∷ rs) = join (content_of r.node_name r.response_content) (aggregate rs)

pub data Answer : Type 0 where
  array_of volumes_object : List Json → Answer

-- reproduceDockerAPIResponse
unfoldable pub reproduce_docker_api_response : Str → List Json → Answer
reproduce_docker_api_response path js =
    if has_prefix path (codes "/volumes") then volumes_object js else array_of js

-- What the members answer, at the address that a request goes to.
pub record Agents : Type 0 where
  -- pingAgent: nil, or an error.
  pub ping : ClusterMember → Option Str
  -- The request to an address, with a body and the name of the node that it is meant for.
  pub run_request : Str → Str → Str → Result Json

-- A goroutine of executeRequestOnCluster, with what it finds in the URL and in the body that all
-- of them share: the host when its copy is made, which may be another member's, what was left to
-- read of the body, and the error of reading it or of making the copy.
pub record Goroutine : Type 0 where
  pub member : ClusterMember
  pub host : Str
  pub body : Str
  pub copy_error : Option Str

unfoldable pub failed_with : Goroutine → Str → AgentRequestResult
failed_with g e = record { node_name = g.member.node_name; response_content = error e }

-- The copy is made, or not.
unfoldable pub execute_copy : Agents → Str → Goroutine → Option Str → AgentRequestResult
execute_copy agents path g (some e) = failed_with g e
execute_copy agents path g none = record {
  node_name = g.member.node_name;
  response_content =
      response_to_json_array path (agents.run_request g.host g.body g.member.node_name);
}

-- The member answers the ping, or not.
unfoldable pub ping_answered : Agents → Str → Goroutine → Option Str → AgentRequestResult
ping_answered agents path g (some e) = failed_with g e
ping_answered agents path g none = execute_copy agents path g g.copy_error

unfoldable pub host_of : ClusterMember → Str
host_of member = member.ip_address ++ codes ":" ++ member.port

unfoldable pub copy_and_execute_request : Agents → Str → Goroutine → AgentRequestResult
copy_and_execute_request agents path g = ping_answered agents path g (agents.ping g.member)

-- executeRequestOnCluster: the results of its goroutines.
unfoldable pub results_of : Agents → Str → List Goroutine → List AgentRequestResult
results_of agents path [] = []
results_of agents path (g ∷ gs) = copy_and_execute_request agents path g ∷ results_of agents path gs

-- ClusterOperation, with the goroutines in the order in which their results came.
unfoldable pub cluster_operation : Agents → Str → List Goroutine → Option Answer
cluster_operation agents path gs = elim (aggregate (results_of agents path gs)) [
  | none ↦ none
  | some js ↦ some (reproduce_docker_api_response path js)
]

-- copyRequest writes the host of its member into the URL of the request, which all its goroutines
-- share, and makes the copy of what stands there. A copy is an address with the node it is for.
pub data CopyStep : Type 0 where
  set_host make_copy : ClusterMember → CopyStep

unfoldable pub copy_step : CopyStep → Str × List (Str × Str) → Str × List (Str × Str)
copy_step (set_host member) (host, copies) = (host_of member, copies)
copy_step (make_copy member) (host, copies) = (host, (host, member.node_name) ∷ copies)

unfoldable pub run_copies : List CopyStep → Str × List (Str × Str) → Str × List (Str × Str)
run_copies [] state = state
run_copies (s ∷ steps) state = run_copies steps (copy_step s state)
