-- ===== src/Requests/Examples.antt =====
-- The theorems of requests at a cluster of a manager and a worker.
use portainer_agent.Base.{
  ◌≡◌, refl, true, false, none, some, inl, List, [], ◌∷◌, ◌++◌, Str, codes, str_eq, has_prefix,
}
use portainer_agent.Base64
use portainer_agent.Agent.{ClusterMember}
use portainer_agent.Cluster.{
  RuntimeConfiguration, swarm, NodeRole, manager, worker, SerfMember,
  convert_runtime_configuration_to_tag_map, members, get_member_by_role, cluster_member,
  first_member, tag, tag_or_empty,
}
use portainer_agent.Cluster.Tags.{seen}
use portainer_agent.Requests.{
  Request, Handler, on_engine, on_agent, on_cluster, docker_operation, copy_request,
  operation_in_cluster, dispatch_operation, execution_of, execute,
  execute_operation_on_manager_node, is_manager, redirect_to, agent_http_request,
}
use portainer_agent.Requests.Forwarding.{IsMember, docker_operation-handed_over}
use portainer_agent.Requests.Gathering.{
  json_array, json_object, no_items, item, no_fields, ok, Agents, Goroutine, host_of, set_host,
  make_copy, run_copies,
}
use portainer_agent.Requests.Gathering.SharedUrl.{run_copies-misdirected}
use portainer_agent.Requests.Signatures.{
  EcdsaKey, ecdsa_key, Cryptography, new_ecdsa_service, hex_decode, hex_byte, hex_digit, verify_all,
  served, next_verdicts, digital_signature_verification, judged, verdict, verify_signature,
  verify_parsed, decode_and_parse_public_key, parse_decoded, associate, decode_and_verify_signature,
  verify_decoded, signed_message,
}

abbrev configuration : Str → NodeRole → RuntimeConfiguration
configuration name role = record {
  agent_port = codes "9001";
  edge_key_set = false;
  node_name = name;
  engine_status = swarm;
  leader = false;
  node_role = role;
}

abbrev serf_member : Str → RuntimeConfiguration → SerfMember
serf_member addr c = record {
  addr = addr;
  is_alive = true;
  tags = convert_runtime_configuration_to_tag_map c;
}

abbrev cluster : List SerfMember
cluster =
    serf_member (codes "10.0.0.1") (configuration (codes "a") worker)
    ∷ serf_member (codes "10.0.0.2") (configuration (codes "b") manager)
    ∷ []

abbrev agent_a : Handler
agent_a = record {
  cluster_service = some cluster;
  runtime_configuration = configuration (codes "a") worker;
}

abbrev agent_b : Handler
agent_b = record {
  cluster_service = some cluster;
  runtime_configuration = configuration (codes "b") manager;
}

abbrev member_a : ClusterMember
member_a = seen (codes "10.0.0.1") agent_a.runtime_configuration

abbrev member_b : ClusterMember
member_b = seen (codes "10.0.0.2") agent_b.runtime_configuration

abbrev get : Str → Request
get path = record {
  method = codes "GET";
  path = path;
  agent_target = [];
  manager_operation = [];
  public_key = codes "00";
  signature = codes "AAAA";
}

IsMember-b : IsMember member_b agent_b
IsMember-b = record { addr = codes "10.0.0.2"; published = refl; known = λ e. cc (e) }

services_from_a :
    docker_operation agent_a (get (codes "/services"))
    ≡ on_agent member_b (copy_request (get (codes "/services")) member_b)
unfolding docker_operation operation_in_cluster dispatch_operation execution_of execute
    execute_operation_on_manager_node is_manager redirect_to agent_http_request copy_request
    get_member_by_role members cluster_member first_member tag tag_or_empty str_eq has_prefix
    convert_runtime_configuration_to_tag_map
services_from_a = refl

docker_operation-handed_over_example :
    docker_operation agent_b (copy_request (get (codes "/services")) member_b) ≡ on_engine
docker_operation-handed_over_example =
    docker_operation-handed_over member_b agent_b IsMember-b agent_a (get (codes "/services"))
      (copy_request (get (codes "/services")) member_b) (inl services_from_a)

abbrev agents : Agents
agents = record {
  ping = λ m. none;
  run_request = λ host body name. ok (json_array (item (json_object no_fields) no_items));
}

-- A copy that was made at a host.
abbrev made_at : ClusterMember → Str → Goroutine
made_at m host = record { member = m; host = host; body = []; copy_error = none }

abbrev goroutine_a : Goroutine
goroutine_a = made_at member_a (host_of member_b)

abbrev goroutine_b : Goroutine
goroutine_b = made_at member_b (host_of member_b)

run_copies-misdirected_example :
    ((more : List (Str × Str)) × ((run_copies
          (set_host member_a ∷ set_host member_b ∷ make_copy member_a ∷ [])
          ([], [])).1
        ≡ more ++ (host_of member_b, member_a.node_name) ∷ []))
    × (docker_operation agent_b (copy_request (get (codes "/images/json")) member_a)
        ≡ on_cluster (members cluster))
unfolding str_eq
run_copies-misdirected_example =
    run_copies-misdirected member_a member_b [] ([], []) agent_b cluster
      (get (codes "/images/json")) refl refl refl (unfold execution_of str_eq in refl)

abbrev key : EcdsaKey
key = record { point = codes "p"; bit_size = 8 }

abbrev cryptography : Cryptography
cryptography = record {
  parse_public_key = λ der. some (ecdsa_key key);
  digest = λ s. s;
  verify = λ k digest r s. true;
}

-- The signature decodes to two bytes, the size of the key's curve, and the request is served.
abbrev signed : Request
signed = record (get (codes "/info")) { signature = codes "AAA" }

signed_served :
    verify_all cryptography (signed ∷ signed ∷ []) (new_ecdsa_service []) ≡ served ∷ served ∷ []
unfolding verify_all next_verdicts digital_signature_verification judged verdict verify_signature
    verify_parsed decode_and_parse_public_key parse_decoded associate decode_and_verify_signature
    verify_decoded new_ecdsa_service str_eq hex_decode hex_byte hex_digit Base64.decode
    Base64.sextets Base64.decode_sextet Base64.join signed_message
signed_served = refl
