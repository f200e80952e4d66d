-- ===== src/Cluster.antt =====
-- serf/cluster.go: the members of the cluster, described by tags that the agents publish.
pub mod Tags
pub mod Lookups
pub mod Examples
use portainer_agent.Base.{
  Bool, true, false, Option, none, some, List, [], ◌∷◌, Str, codes, str_eq, is_some, ◌++◌,
  if◌then◌else◌,
}
use portainer_agent.Agent.{ClusterMember}

-- agent.go: DockerEngineStatus and DockerNodeRole; `unset` is Go's zero value.
pub data EngineStatus : Type 0 where
  unset_status standalone swarm : EngineStatus

pub data NodeRole : Type 0 where
  unset_role manager worker : NodeRole

-- agent.go, RuntimeConfiguration with the fields of its DockerConfiguration.
pub record RuntimeConfiguration : Type 0 where
  pub agent_port : Str
  pub edge_key_set : Bool
  pub node_name : Str
  pub engine_status : EngineStatus
  pub leader : Bool
  pub node_role : NodeRole

-- A map of strings by strings.
abbrev pub Tags : Type 0
Tags = List (Str × Str)

unfoldable pub tag : Str → Tags → Option Str
tag key [] = none
tag key ((other, v) ∷ rest) = let found = tag key rest in if str_eq other key then some v else found

-- Reading a map of Go: the empty string for a key that is not there.
unfoldable pub tag_or_empty : Option Str → Str
tag_or_empty none = []
tag_or_empty (some v) = v

abbrev pub engine_tag : EngineStatus → Str
engine_tag swarm = codes "swarm"
engine_tag _ = codes "standalone"

abbrev pub role_tag : NodeRole → Str
role_tag worker = codes "worker"
role_tag _ = codes "manager"

-- Each key is set once, or set again before another is, so that the map is this list.
unfoldable pub convert_runtime_configuration_to_tag_map : RuntimeConfiguration → Tags
convert_runtime_configuration_to_tag_map c =
    (if c.edge_key_set then (codes "EdgeKeySet", codes "set") ∷ [] else [])
    ++ (codes "DockerEngineStatus", engine_tag c.engine_status)
      ∷ (codes "AgentPort", c.agent_port)
      ∷ ((if c.leader then (codes "NodeIsLeader", codes "1") ∷ [] else [])
          ++ (codes "NodeName", c.node_name) ∷ (codes "DockerNodeRole", role_tag c.node_role) ∷ [])

-- What the serf library says of a member.
pub record SerfMember : Type 0 where
  pub addr : Str
  pub is_alive : Bool
  pub tags : Tags

unfoldable pub cluster_member : SerfMember → ClusterMember
cluster_member member = record {
  ip_address = member.addr;
  port = tag_or_empty (tag (codes "AgentPort") member.tags);
  node_name = tag_or_empty (tag (codes "NodeName") member.tags);
  node_role = tag_or_empty (tag (codes "DockerNodeRole") member.tags);
  edge_key_set = is_some (tag (codes "EdgeKeySet") member.tags);
}

unfoldable pub members : List SerfMember → List ClusterMember
members [] = []
members (member ∷ rest) =
    let ms = members rest in if member.is_alive then cluster_member member ∷ ms else ms

-- The loops of the lookups: the first member that passes the test.
unfoldable pub first_member : (ClusterMember → Bool) → List ClusterMember → Option ClusterMember
first_member p [] = none
first_member p (member ∷ rest) =
    let found = first_member p rest in if p member then some member else found

unfoldable pub get_member_by_role : NodeRole → List SerfMember → Option ClusterMember
get_member_by_role role ms =
    first_member (λ member. str_eq member.node_role (role_tag role)) (members ms)

unfoldable pub get_member_by_node_name : Str → List SerfMember → Option ClusterMember
get_member_by_node_name name ms = first_member (λ member. str_eq member.node_name name) (members ms)

unfoldable pub get_member_with_edge_key_set : List ClusterMember → Option ClusterMember
get_member_with_edge_key_set ms = first_member (λ member. member.edge_key_set) ms
