-- ===== src/Cluster/Lookups.antt =====
-- The lookups of a member find the first one that is alive and fits.
use portainer_agent.Base.{
  ◌≡◌, refl, ap, Bool, true, false, Option, none, some, List, [], ◌∷◌, ◌++◌, Str, str_eq, All,
  if-elim,
}
use portainer_agent.Agent.{ClusterMember}
use portainer_agent.Cluster.{
  NodeRole, role_tag, SerfMember, members, first_member, get_member_by_role,
  get_member_by_node_name, get_member_with_edge_key_set,
}

-- The first member of a list that passes a test, or none if none passes.
abbrev pub IsFirst : (ClusterMember → Bool) → List ClusterMember → Option ClusterMember → Type 0
IsFirst p ms none = All (λ m. p m ≡ false) ms
IsFirst p ms (some m) =
    (before : List ClusterMember) × ((after : List ClusterMember) × (ms ≡ before ++ m ∷ after)
      × (p m ≡ true)
      × All (λ k. p k ≡ false) before)

later :
    (p : ClusterMember → Bool) (m : ClusterMember) (ms : List ClusterMember)
    (o : Option ClusterMember)
    → p m ≡ false
    → IsFirst p ms o
    → IsFirst p (m ∷ ms) o
later p m ms none h f = (h, f)
later p m ms (some k) h (before, (after, order, passes, fails)) =
    (m ∷ before, (after, ap (λ ks. m ∷ ks) order, passes, (h, fails)))

first_member-IsFirst :
    (p : ClusterMember → Bool) (ms : List ClusterMember) → IsFirst p ms (first_member p ms)
unfolding first_member
first_member-IsFirst p [] = tt
first_member-IsFirst p (m ∷ ms) =
    if-elim (λ (o : Option ClusterMember). IsFirst p (m ∷ ms) o) (p m)
      (λ h. ([], (ms, refl, h, tt)))
      (λ h. later p m ms (first_member p ms) h (first_member-IsFirst p ms))

-- The lookups by role, by node name and by key return the first of the members that are alive
-- which has the role, the name or the key, and nothing only if none has.
pub lookups-IsFirst :
    (ms : List SerfMember) (role : NodeRole) (name : Str)
    → IsFirst (λ m. str_eq m.node_role (role_tag role)) (members ms) (get_member_by_role role ms)
      × IsFirst (λ m. str_eq m.node_name name) (members ms) (get_member_by_node_name name ms)
      × IsFirst (λ m. m.edge_key_set) (members ms) (get_member_with_edge_key_set (members ms))
unfolding get_member_by_role get_member_by_node_name get_member_with_edge_key_set
lookups-IsFirst ms role name = (
  first_member-IsFirst _ (members ms),
  first_member-IsFirst _ (members ms),
  first_member-IsFirst _ (members ms),
)
