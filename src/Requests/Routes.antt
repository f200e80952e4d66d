-- ===== src/Requests/Routes.antt =====
-- To whom a Docker operation is handed over.
use portainer_agent.Base.{
  ◌≡◌, refl, Bool, true, false, ◌||◌, Option, none, some, List, [], str_eq, if-elim,
}
use portainer_agent.Agent.{ClusterMember}
use portainer_agent.Cluster.{manager, SerfMember, members, role_tag}
use portainer_agent.Cluster.Lookups.{IsFirst, lookups-IsFirst}
use portainer_agent.Requests.{
  Request, Handler, Route, on_engine, unable_to_contact_manager, unable_to_contact_agent, on_agent,
  on_cluster, agent_http_request, redirect_to, is_manager, execute_operation_on_manager_node,
  execute_operation_on_node, execute_operation_on_cluster, Execution, cluster_execution,
  manager_execution, node_execution, copy_request,
}

-- A route hands the request over as it is, but for the target, and to a member that fits only. It
-- asks all members only by the execution on the cluster.
abbrev pub HandsOver : Execution → (ClusterMember → Bool) → Request → Route → Type 0
HandsOver e p r (on_agent m r') = (p m ≡ true) × (r' ≡ copy_request r m)
HandsOver e p r on_engine = Unit
HandsOver e p r unable_to_contact_manager = Unit
HandsOver e p r unable_to_contact_agent = Unit
HandsOver e p r (on_cluster ms) = e ≡ cluster_execution

redirect_to-HandsOver :
    (e : Execution) (p : ClusterMember → Bool) (error : Route) (ms : List ClusterMember)
    (r : Request) (o : Option ClusterMember)
    → HandsOver e p r error
    → IsFirst p ms o
    → HandsOver e p r (redirect_to error r o)
unfolding redirect_to agent_http_request copy_request
redirect_to-HandsOver e p error ms r none plain h = plain
redirect_to-HandsOver e p error ms r (some m) plain (before, (after, order, passes, fails)) =
    (passes, refl)

module _ (handler : Handler) (ms : List SerfMember) (r : Request) where
  pub manager_node-HandsOver :
      HandsOver manager_execution
        (λ m. str_eq m.node_role (role_tag manager))
        r
        (execute_operation_on_manager_node handler ms r)
  unfolding execute_operation_on_manager_node
  manager_node-HandsOver =
      if-elim (HandsOver manager_execution (λ m. str_eq m.node_role (role_tag manager)) r)
        (is_manager handler.runtime_configuration.node_role) (λ _. tt)
        (λ _.
          redirect_to-HandsOver _ _ unable_to_contact_manager (members ms) r _ tt
            (lookups-IsFirst ms manager []).0)

  pub node-HandsOver :
      HandsOver node_execution
        (λ m. str_eq m.node_name r.agent_target)
        r
        (execute_operation_on_node handler ms r)
  unfolding execute_operation_on_node
  node-HandsOver =
      if-elim (HandsOver node_execution (λ m. str_eq m.node_name r.agent_target) r)
        (str_eq r.agent_target handler.runtime_configuration.node_name || str_eq r.agent_target [])
        (λ _. tt)
        (λ _.
          redirect_to-HandsOver _ _ unable_to_contact_agent (members ms) r _ tt
            (lookups-IsFirst ms manager r.agent_target).1)

  pub cluster-HandsOver :
      HandsOver cluster_execution (λ m. false) r (execute_operation_on_cluster handler ms r)
  unfolding execute_operation_on_cluster
  cluster-HandsOver =
      if-elim (HandsOver cluster_execution (λ m. false) r)
        (str_eq r.agent_target handler.runtime_configuration.node_name) (λ _. tt) (λ _. refl)
