-- ===== src/Cluster/Examples.antt =====
-- The theorems of the cluster at a concrete configuration.
use portainer_agent.Base.{◌≡◌, true, false, codes}
use portainer_agent.Cluster.{
  RuntimeConfiguration, swarm, worker, SerfMember, convert_runtime_configuration_to_tag_map,
  cluster_member,
}
use portainer_agent.Cluster.Tags.{seen, cluster_member-tags}

abbrev configuration : RuntimeConfiguration
configuration = record {
  agent_port = codes "9001";
  edge_key_set = true;
  node_name = codes "b";
  engine_status = swarm;
  leader = false;
  node_role = worker;
}

abbrev agent : SerfMember
agent = record {
  addr = codes "10.0.0.2";
  is_alive = true;
  tags = convert_runtime_configuration_to_tag_map configuration;
}

cluster_member-tags_example : cluster_member agent ≡ seen (codes "10.0.0.2") configuration
cluster_member-tags_example = cluster_member-tags (codes "10.0.0.2") true configuration
