-- ===== src/Key/Examples.antt =====
-- The theorems of the Edge key at a concrete key and manager.
use portainer_agent.Base.{pos, ◌≡◌, refl, true, false, none, inr, [], codes, arith}
use portainer_agent.Outside.{Outside, write_file}
use portainer_agent.Outside.Worlds.{quiet}
use portainer_agent.Key.{EdgeKey, encode_key, parse_edge_key, Manager, set_key, get_key}
use portainer_agent.Key.RoundTrip.{IsKey, parse_edge_key-encode_key}
use portainer_agent.Key.Cluster.{get_key-set_key}

abbrev key : EdgeKey
key = record {
  portainer_instance_url = codes "https://p";
  tunnel_server_addr = codes "p:8000";
  tunnel_server_fingerprint = codes "ab";
  endpoint_id = pos 5;
}

key-IsKey : IsKey key
key-IsKey = record {
  url = (omega arith, ground arith);
  addr = (omega arith, ground arith);
  fingerprint = (omega arith, ground arith);
  id = omega arith;
}

abbrev manager : Manager
manager = record {
  key = none;
  data_path = codes "/data";
  clustered = true;
  node_name = codes "a";
  edge_key_set = false;
  calls = [];
}

abbrev no_urls : Outside
no_urls = record quiet { url_parses = λ _. false }

parse_edge_key-encode_key_example : parse_edge_key (encode_key key) ≡ inr key
parse_edge_key-encode_key_example = parse_edge_key-encode_key key key-IsKey

get_key-set_key_example : get_key (set_key quiet (encode_key key) manager).0 ≡ encode_key key
unfolding write_file
get_key-set_key_example = get_key-set_key quiet key manager key-IsKey refl refl
