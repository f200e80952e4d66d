-- ===== src/Key.antt =====
-- edge/key.go: the Edge key, its text, and where the agent finds it and hands it on.
pub mod RoundTrip
pub mod Cluster
pub mod Examples
use portainer_agent.Base.{
  ℤ, Bool, true, false, not, ◌||◌, ◌&&◌, Option, none, some, ◌⊎◌, inl, inr, List, [], ◌∷◌, ◌++◌,
  Str, codes, str_eq, atoi, print_int, split_on, if◌then◌else◌,
}
use portainer_agent.Base64
use portainer_agent.Agent.{ClusterMember}
use portainer_agent.Cluster.{get_member_with_edge_key_set}
use portainer_agent.Outside.{
  Outside, Calls, Error, perform, write_file, file_exists, read_from_file, set_tags, get_edge_key,
  set_edge_key,
}

pub record EdgeKey : Type 0 where
  pub portainer_instance_url : Str
  pub tunnel_server_addr : Str
  pub tunnel_server_fingerprint : Str
  pub endpoint_id : ℤ

-- `%s|%s|%s|%d`
unfoldable pub key_info : EdgeKey → Str
key_info k =
    k.portainer_instance_url
    ++ b'|'
      ∷ (k.tunnel_server_addr
          ++ b'|' ∷ (k.tunnel_server_fingerprint ++ b'|' ∷ print_int k.endpoint_id))

unfoldable pub encode_key : EdgeKey → Str
encode_key k = Base64.encode (key_info k)

abbrev pub invalid_format : Str
invalid_format = codes "invalid key format"

unfoldable pub key_of : Str → Str → Str → Option ℤ → Str ⊎ EdgeKey
key_of url addr fingerprint none = inl invalid_format
key_of url addr fingerprint (some id) = inr (record {
  portainer_instance_url = url;
  tunnel_server_addr = addr;
  tunnel_server_fingerprint = fingerprint;
  endpoint_id = id;
})

unfoldable pub parse_fields : List Str → Str ⊎ EdgeKey
parse_fields (url ∷ addr ∷ fingerprint ∷ id ∷ []) = key_of url addr fingerprint (atoi id)
parse_fields _ = inl invalid_format

unfoldable pub parse_decoded : Option Str → Str ⊎ EdgeKey
parse_decoded none = inl (codes "illegal base64 data")
parse_decoded (some decoded) = parse_fields (split_on b'|' decoded)

unfoldable pub parse_edge_key : Str → Str ⊎ EdgeKey
parse_edge_key key = parse_decoded (Base64.decode key)

-- The fields of Manager that key.go uses. `clustered` says that it has a cluster service, whose
-- runtime configuration holds the name of the node and `edge_key_set`.
pub record Manager : Type 0 where
  pub key : Option EdgeKey
  pub data_path : Str
  pub clustered : Bool
  pub node_name : Str
  pub edge_key_set : Bool
  pub calls : Calls

pub data Result : Type 0 where
  done panicked : Result
  refused : Str → Result

unfoldable pub result_of : Error → Result
result_of none = done
result_of (some message) = refused message

unfoldable pub share_key : Outside → Manager → Manager × Result
share_key out m =
    if m.clustered
    then (let (calls', e) = perform out (set_tags true) m.calls in
        (record m { edge_key_set = true; calls = calls' }, result_of e))
    else (m, done)

unfoldable pub key_written : Outside → EdgeKey → Manager → Error → Manager × Result
key_written out k m (some message) = (m, refused message)
key_written out k m none = share_key out (record m { key = some k })

-- SetKey reads a field of what `url.Parse` returned without a look at its error.
unfoldable pub key_parsed : Outside → Str → Manager → Str ⊎ EdgeKey → Manager × Result
key_parsed out text m (inl message) = (m, refused message)
key_parsed out text m (inr k) =
    let (calls', e) = write_file out m.data_path (codes "agent_edge_key") text 0o644 m.calls in
    if out.url_parses k.portainer_instance_url
    then key_written out k (record m { calls = calls' }) e
    else (m, panicked)

unfoldable pub set_key : Outside → Str → Manager → Manager × Result
set_key out text m = key_parsed out text m (parse_edge_key text)

unfoldable pub key_text : Option EdgeKey → Str
key_text none = []
key_text (some k) = encode_key k

unfoldable pub get_key : Manager → Str
get_key m = key_text m.key

-- `fmt.Sprintf("%s:%s", member.IPAddress, member.Port)`
unfoldable pub member_addr : ClusterMember → Str
member_addr member = member.ip_address ++ b':' ∷ member.port

unfoldable pub is_skipped : Manager → ClusterMember → Bool
is_skipped m member = str_eq member.node_name m.node_name || member.edge_key_set

unfoldable pub propagate_to : Outside → Manager → List ClusterMember → Calls → Calls × Error
propagate_to out m [] calls = (calls, none)
propagate_to out m (member ∷ members) calls =
    let (calls', e) = perform out (set_edge_key (member_addr member) (get_key m)) calls in
    let sent = propagate_to out m members calls' in
    let skipped = propagate_to out m members calls in
    if is_skipped m member
    then skipped
    else (elim e [ none ↦ sent | some message ↦ (calls', some message) ])

unfoldable pub propagate_key_in_cluster : Outside → Manager → Manager × Error
propagate_key_in_cluster out m =
    let (calls', e) = propagate_to out m (out.members m.calls) m.calls in
    if m.clustered then (record m { calls = calls' }, e) else (m, none)

-- The functions below return the key that they found, if any, and an error.
unfoldable pub key_of_member : Outside → Calls → Option ClusterMember → Calls × Str × Error
key_of_member out calls none = (calls, [], none)
key_of_member out calls (some member) =
    let (calls', e) = perform out (get_edge_key (member_addr member)) calls in
    (calls', elim e [ none ↦ out.member_key calls (member_addr member) | some _ ↦ [] ], e)

unfoldable pub retrieve_edge_key_from_cluster : Outside → Calls → Calls × Str × Error
retrieve_edge_key_from_cluster out calls =
    key_of_member out calls (get_member_with_edge_key_set (out.members calls))

unfoldable pub key_file_read : Calls × Error × Str → Calls × Str × Error
key_file_read (calls, some message, content) = (calls, [], some message)
key_file_read (calls, none, content) = (calls, content, none)

unfoldable pub key_file_found : Outside → Str → Calls × Error × Bool → Calls × Str × Error
key_file_found out path (calls, some message, found) = (calls, [], some message)
key_file_found out path (calls, none, false) = (calls, [], none)
key_file_found out path (calls, none, true) = key_file_read (read_from_file out path calls)

unfoldable pub retrieve_edge_key_from_filesystem : Outside → Str → Calls → Calls × Str × Error
retrieve_edge_key_from_filesystem out data_path calls =
    let path = data_path ++ codes "/agent_edge_key" in
    key_file_found out path (file_exists out path calls)

unfoldable pub filesystem_asked : Outside → Bool → Calls × Str × Error → Calls × Str × Error
filesystem_asked out clustered (calls, key, some message) = (calls, [], some message)
filesystem_asked out clustered (calls, key, none) =
    if str_eq key [] && clustered
    then retrieve_edge_key_from_cluster out calls
    else (calls, key, none)

unfoldable pub retrieve_edge_key : Outside → Str → Bool → Str → Calls → Calls × Str × Error
retrieve_edge_key out edge_key clustered data_path calls =
    if not (str_eq edge_key [])
    then (calls, edge_key, none)
    else filesystem_asked out clustered (retrieve_edge_key_from_filesystem out data_path calls)
