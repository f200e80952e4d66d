-- ===== src/Requests/Gathering/SharedUrl.antt =====
-- The copies that the goroutines of a cluster operation make of one request share its URL.
use portainer_agent.Base.{
  ◌≡◌, refl, sym, ◌∙◌, false, some, List, [], ◌∷◌, ◌++◌, append_assoc, Str, str_eq,
}
use portainer_agent.Agent.{ClusterMember}
use portainer_agent.Cluster.{SerfMember, members}
use portainer_agent.Requests.{
  Request, Handler, on_cluster, execute_operation_on_cluster, cluster_execution, execution_of,
  execute, dispatch_operation, operation_in_cluster, docker_operation, copy_request,
}
use portainer_agent.Requests.Gathering.{
  host_of, CopyStep, set_host, make_copy, copy_step, run_copies,
}

-- Each copy is made right after its host was set.
abbrev pub one_by_one : List ClusterMember → List CopyStep
one_by_one [] = []
one_by_one (m ∷ ms) = set_host m ∷ make_copy m ∷ one_by_one ms

abbrev pub own_copies : List ClusterMember → List (Str × Str) → List (Str × Str)
own_copies [] copies = copies
own_copies (m ∷ ms) copies = own_copies ms ((host_of m, m.node_name) ∷ copies)

-- When no two members' copies are interleaved, each copy goes to its own member.
one_by_one-own_copies :
    (ms : List ClusterMember) (host : Str) (copies : List (Str × Str))
    → (run_copies (one_by_one ms) (host, copies)).1 ≡ own_copies ms copies
unfolding run_copies copy_step
one_by_one-own_copies [] host copies = refl
one_by_one-own_copies (m ∷ ms) host copies = one_by_one-own_copies ms (host_of m) _

run_copies-kept :
    (steps : List CopyStep) (host : Str) (copies : List (Str × Str))
    → (more : List (Str × Str)) × ((run_copies steps (host, copies)).1 ≡ more ++ copies)
unfolding run_copies copy_step
run_copies-kept [] host copies = ([], refl)
run_copies-kept (set_host m ∷ steps) host copies = run_copies-kept steps (host_of m) copies
run_copies-kept (make_copy m ∷ steps) host copies =
    let (more, e) = run_copies-kept steps host ((host, m.node_name) ∷ copies) in
    (
      more ++ (host, m.node_name) ∷ [],
      e ∙ sym (append_assoc more ((host, m.node_name) ∷ []) copies),
    )

-- The copy for `m`, made after another goroutine has set the host of `k`, goes to `k` with the
-- name of `m`, whatever follows. If `k` is another node, its agent does not run such a copy of an
-- operation on the cluster, but asks all members once more.
pub run_copies-misdirected :
    (m k : ClusterMember) (steps : List CopyStep) (state : Str × List (Str × Str)) (b : Handler)
    (ms : List SerfMember) (r : Request)
    → b.cluster_service ≡ some ms
    → str_eq m.node_name b.runtime_configuration.node_name ≡ false
    → r.manager_operation ≡ []
    → execution_of r.method r.path ≡ cluster_execution
    → ((more : List (Str × Str)) × ((run_copies
            (set_host m ∷ set_host k ∷ make_copy m ∷ steps)
            state).1
          ≡ more ++ (host_of k, m.node_name) ∷ state.1))
      × (docker_operation b (copy_request r m) ≡ on_cluster (members ms))
unfolding run_copies copy_step docker_operation operation_in_cluster dispatch_operation execute
    copy_request execute_operation_on_cluster str_eq
run_copies-misdirected m k steps (host, copies) b ms r service other header scope = (
  run_copies-kept steps (host_of k) ((host_of k, m.node_name) ∷ copies),
  rw (service, header, scope, other) refl,
)
