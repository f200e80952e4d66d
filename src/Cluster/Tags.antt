-- ===== src/Cluster/Tags.antt =====
-- The tags of a configuration are read back by the other agents.
use portainer_agent.Base.{◌≡◌, refl, Bool, true, false, Str, codes, str_eq}
use portainer_agent.Agent.{ClusterMember}
use portainer_agent.Cluster.{
  EngineStatus, NodeRole, unset_role, RuntimeConfiguration, tag, tag_or_empty,
  convert_runtime_configuration_to_tag_map, cluster_member,
}

-- The role that a member publishes: one that is not set is published as a manager.
abbrev pub published_role : NodeRole → Str
published_role NodeRole.manager = codes "manager"
published_role NodeRole.worker = codes "worker"
published_role unset_role = codes "manager"

-- What the other agents see of an agent with a configuration.
abbrev pub seen : Str → RuntimeConfiguration → ClusterMember
seen addr c = record {
  ip_address = addr;
  port = c.agent_port;
  node_name = c.node_name;
  node_role = published_role c.node_role;
  edge_key_set = c.edge_key_set;
}

seen_fields :
    (addr port name : Str) (alive key_set leader : Bool) (status : EngineStatus) (role : NodeRole)
    → let c : RuntimeConfiguration = record {
      agent_port = port;
      edge_key_set = key_set;
      node_name = name;
      engine_status = status;
      leader = leader;
      node_role = role;
    } in
      cluster_member (record {
        addr = addr;
        is_alive = alive;
        tags = convert_runtime_configuration_to_tag_map c;
      })
      ≡ seen addr c
unfolding cluster_member tag tag_or_empty convert_runtime_configuration_to_tag_map str_eq
seen_fields addr port name alive true true status unset_role = refl
seen_fields addr port name alive true true status NodeRole.manager = refl
seen_fields addr port name alive true true status NodeRole.worker = refl
seen_fields addr port name alive true false status unset_role = refl
seen_fields addr port name alive true false status NodeRole.manager = refl
seen_fields addr port name alive true false status NodeRole.worker = refl
seen_fields addr port name alive false true status unset_role = refl
seen_fields addr port name alive false true status NodeRole.manager = refl
seen_fields addr port name alive false true status NodeRole.worker = refl
seen_fields addr port name alive false false status unset_role = refl
seen_fields addr port name alive false false status NodeRole.manager = refl
seen_fields addr port name alive false false status NodeRole.worker = refl

-- A member whose tags were made from a configuration is seen with the port, the node's name and
-- the mark of the key that the configuration has, and with its role, as a manager if the role is
-- not set.
pub cluster_member-tags :
    (addr : Str) (alive : Bool) (c : RuntimeConfiguration)
    → cluster_member (record {
      addr = addr;
      is_alive = alive;
      tags = convert_runtime_configuration_to_tag_map c;
    })
      ≡ seen addr c
cluster_member-tags addr alive c =
    seen_fields addr c.agent_port c.node_name alive c.edge_key_set c.leader c.engine_status
      c.node_role
