-- ===== src/Key/Cluster.antt =====
-- SetKey and the propagation of the key to the members of the cluster.
use portainer_agent.Base.{
  ◌≡◌, refl, ap, true, false, none, some, ◌⊎◌, List, [], ◌∷◌, ◌++◌, Str, codes, if◌then◌else◌,
  if-elim,
}
use portainer_agent.Agent.{ClusterMember}
use portainer_agent.Outside.{Outside, Calls, Error, write_file, set_edge_key}
use portainer_agent.Key.{
  EdgeKey, encode_key, Manager, Result, panicked, share_key, key_written, key_parsed, set_key,
  key_text, get_key, member_addr, is_skipped,
}
use portainer_agent.Key.RoundTrip.{IsKey, parse_edge_key-encode_key}

-- The calls that hand the key to the members, those that are not to get it left out.
abbrev pub asked : Manager → List ClusterMember → Calls → Calls
asked m [] calls = calls
asked m (member ∷ members) calls =
    asked m members
      (if is_skipped m member then calls else set_edge_key (member_addr member) (get_key m) ∷ calls)

-- The calls to the members that are to get the key all return nil.
abbrev pub AllAccept : Outside → Manager → List ClusterMember → Calls → Type 0
AllAccept out m [] calls = Unit
AllAccept out m (member ∷ members) calls =
    ((is_skipped m member ≡ true)
      ⊎ (out.fails calls (set_edge_key (member_addr member) (get_key m)) ≡ none))
    × AllAccept out m members (
        if is_skipped m member
        then calls
        else set_edge_key (member_addr member) (get_key m) ∷ calls)

-- The propagation ended with an error at a member that is to get the key, the first whose call
-- returns one.
pub record IsStopped (out : Outside) (m : Manager) (members : List ClusterMember) (calls : Calls)
    (r : Calls × Error) : Type 0 where
  pub before : List ClusterMember
  pub at : ClusterMember
  pub after : List ClusterMember
  pub message : Str
  pub order : members ≡ before ++ at ∷ after
  pub meant : is_skipped m at ≡ false
  pub accepted : AllAccept out m before calls
  pub refused :
      out.fails (asked m before calls) (set_edge_key (member_addr at) (get_key m)) ≡ some message
  pub result : r ≡ (set_edge_key (member_addr at) (get_key m) ∷ asked m before calls, some message)

abbrev pub Propagated : Outside → Manager → List ClusterMember → Calls → Calls × Error → Type 0
Propagated out m members calls r =
    ((r ≡ (asked m members calls, none)) × AllAccept out m members calls)
    ⊎ IsStopped out m members calls r

share_key-key : (out : Outside) (m : Manager) → (share_key out m).0.key ≡ m.key
unfolding share_key
share_key-key out m =
    if-elim (λ (r : Manager × Result). r.0.key ≡ m.key) m.clustered (λ _. refl) (λ _. refl)

-- When SetKey is called with the text of a key as the agent itself encodes it, the URL in the key
-- is one and the file of the key is written, GetKey gives back that text, whether or not the
-- cluster took the news.
pub get_key-set_key :
    (out : Outside) (k : EdgeKey) (m : Manager)
    → IsKey k
    → out.url_parses k.portainer_instance_url ≡ true
    → (write_file out m.data_path (codes "agent_edge_key") (encode_key k) 0o644 m.calls).1 ≡ none
    → get_key (set_key out (encode_key k) m).0 ≡ encode_key k
unfolding get_key set_key key_parsed key_written key_text
get_key-set_key out k m h parses written =
    rw (parse_edge_key-encode_key k h, parses, written) (ap key_text (share_key-key out _))

-- A key whose URL does not parse makes SetKey panic, with nothing written.
pub set_key-panicked :
    (out : Outside) (k : EdgeKey) (m : Manager)
    → IsKey k
    → out.url_parses k.portainer_instance_url ≡ false
    → set_key out (encode_key k) m ≡ (m, panicked)
unfolding set_key key_parsed
set_key-panicked out k m h fails = rw (parse_edge_key-encode_key k h, fails)
