-- ===== src/Requests.antt =====
-- http: what the agent does with a request. http/handler/docker/docker_operation.go chooses who
-- runs a Docker operation, and http/proxy hands it over.
pub mod Routes
pub mod Forwarding
pub mod Gathering
pub mod Signatures
pub mod Examples
use portainer_agent.Base.{
  Bool, true, false, not, ◌&&◌, ◌||◌, Option, none, some, List, [], Str, codes, str_eq, has_prefix,
  if◌then◌else◌,
}
use portainer_agent.Agent.{ClusterMember}
use portainer_agent.Cluster.{
  NodeRole, unset_role, manager, worker, RuntimeConfiguration, SerfMember, members,
  get_member_by_role, get_member_by_node_name,
}

-- A request with the headers that the agent reads; a header that is not there is empty.
pub record Request : Type 0 where
  pub method : Str
  pub path : Str
  pub agent_target : Str
  pub manager_operation : Str
  pub public_key : Str
  pub signature : Str

-- The Docker handler of an agent: its cluster service, with the members that it sees, or nil.
pub record Handler : Type 0 where
  pub cluster_service : Option (List SerfMember)
  pub runtime_configuration : RuntimeConfiguration

-- Who runs an operation: the local engine, another agent with the request that it gets, or all
-- agents; or none does.
pub data Route : Type 0 where
  on_engine unable_to_contact_manager unable_to_contact_agent : Route
  on_agent : ClusterMember → Request → Route
  on_cluster : List ClusterMember → Route

-- AgentHTTPRequest with its reverse proxy: the request as the target gets it.
unfoldable pub agent_http_request : Request → ClusterMember → Route
agent_http_request r target = on_agent target (record r { agent_target = target.node_name })

unfoldable pub redirect_to : Route → Request → Option ClusterMember → Route
redirect_to error r none = error
redirect_to error r (some target) = agent_http_request r target

unfoldable pub is_manager : NodeRole → Bool
is_manager manager = true
is_manager worker = false
is_manager unset_role = false

unfoldable pub execute_operation_on_manager_node : Handler → List SerfMember → Request → Route
execute_operation_on_manager_node handler ms r =
    if is_manager handler.runtime_configuration.node_role
    then on_engine
    else redirect_to unable_to_contact_manager r (get_member_by_role manager ms)

unfoldable pub execute_operation_on_node : Handler → List SerfMember → Request → Route
execute_operation_on_node handler ms r =
    if str_eq r.agent_target handler.runtime_configuration.node_name || str_eq r.agent_target []
    then on_engine
    else redirect_to unable_to_contact_agent r (get_member_by_node_name r.agent_target ms)

unfoldable pub execute_operation_on_cluster : Handler → List SerfMember → Request → Route
execute_operation_on_cluster handler ms r =
    if str_eq r.agent_target handler.runtime_configuration.node_name
    then on_engine
    else on_cluster (members ms)

-- The three executions that the switch of dispatchOperation chooses from.
pub data Execution : Type 0 where
  cluster_execution manager_execution node_execution : Execution

unfoldable pub execution_of : Str → Str → Execution
execution_of method path =
    if str_eq path (codes "/containers/json")
    then cluster_execution
    else if str_eq path (codes "/images/json")
    then cluster_execution
    else if str_eq path (codes "/volumes") && str_eq method (codes "GET")
    then cluster_execution
    else if str_eq path (codes "/networks") && str_eq method (codes "GET")
    then cluster_execution
    else if has_prefix path (codes "/services")
    then manager_execution
    else if has_prefix path (codes "/tasks")
    then manager_execution
    else if has_prefix path (codes "/secrets")
    then manager_execution
    else if has_prefix path (codes "/configs")
    then manager_execution
    else if has_prefix path (codes "/swarm")
    then manager_execution
    else if has_prefix path (codes "/info")
    then manager_execution
    else if has_prefix path (codes "/nodes")
    then manager_execution
    else node_execution

unfoldable pub execute : Execution → Handler → List SerfMember → Request → Route
execute cluster_execution = execute_operation_on_cluster
execute manager_execution = execute_operation_on_manager_node
execute node_execution = execute_operation_on_node

unfoldable pub dispatch_operation : Handler → List SerfMember → Request → Route
dispatch_operation handler ms r = execute (execution_of r.method r.path) handler ms r

unfoldable pub operation_in_cluster : Handler → Option (List SerfMember) → Request → Route
operation_in_cluster handler none r = on_engine
operation_in_cluster handler (some ms) r =
    if not (str_eq r.manager_operation [])
    then execute_operation_on_manager_node handler ms r
    else dispatch_operation handler ms r

unfoldable pub docker_operation : Handler → Request → Route
docker_operation handler r = operation_in_cluster handler handler.cluster_service r

-- http/proxy/agentproxy.go, Redirect: `on_engine` is that this agent serves the request.
unfoldable pub redirect_in_cluster : Handler → Option (List SerfMember) → Request → Route
redirect_in_cluster handler none r = on_engine
redirect_in_cluster handler (some ms) r =
    if str_eq r.agent_target handler.runtime_configuration.node_name || str_eq r.agent_target []
    then on_engine
    else redirect_to unable_to_contact_agent r (get_member_by_node_name r.agent_target ms)

unfoldable pub redirect : Handler → Request → Route
redirect handler r = redirect_in_cluster handler handler.cluster_service r

-- copyRequest: the request that each member of the cluster gets.
unfoldable pub copy_request : Request → ClusterMember → Request
copy_request r member = record r { agent_target = member.node_name }
