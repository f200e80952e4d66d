-- ===== src/Requests/Forwarding.antt =====
-- Where a request ends: the agent that gets it from another one runs it.
use portainer_agent.Base.{
  ◌≡◌, ◌≢◌, refl, ap, subst, Bool, true, false, not, Option, none, some, List, [], Str, str_eq,
  str_eq_iff, if◌then◌else◌, Bool-cases, inl, inr, ◌⊎◌,
}
use portainer_agent.Agent.{ClusterMember}
use portainer_agent.Cluster.{NodeRole, unset_role, manager, worker, SerfMember, role_tag}
use portainer_agent.Cluster.Tags.{seen}
use portainer_agent.Requests.{
  Request, Handler, on_engine, on_agent, on_cluster, is_manager, execute_operation_on_manager_node,
  execute_operation_on_node, execute_operation_on_cluster, Execution, cluster_execution,
  manager_execution, node_execution, execution_of, execute, dispatch_operation,
  operation_in_cluster, docker_operation, redirect_in_cluster, redirect, copy_request,
}
use portainer_agent.Requests.Routes.{
  HandsOver, manager_node-HandsOver, node-HandsOver, cluster-HandsOver,
}

-- The role that an agent publishes is the one that it has, unless it has none.
role_tag-is_manager :
    (role : NodeRole)
    → role ≢ unset_role
    → str_eq (role_tag role) (role_tag manager) ≡ true
    → is_manager role ≡ true
unfolding is_manager str_eq
role_tag-is_manager manager known h = refl
role_tag-is_manager worker known h = cc (h)
role_tag-is_manager unset_role known h = absurd (known refl)

-- An agent that another one sees as the member `m`.
pub record IsMember (m : ClusterMember) (b : Handler) : Type 0 where
  pub addr : Str
  pub published : m ≡ seen addr b.runtime_configuration
  pub known : b.runtime_configuration.node_role ≢ unset_role

module _ (m : ClusterMember) (b : Handler) (member : IsMember m b) where
  same_name : str_eq m.node_name b.runtime_configuration.node_name ≡ true
  same_name =
      (str_eq_iff m.node_name b.runtime_configuration.node_name).1
        (ap (λ (k : ClusterMember). k.node_name) member.published)

  at_manager :
      (ms : List SerfMember) (r : Request)
      → str_eq m.node_role (role_tag manager) ≡ true
      → execute_operation_on_manager_node b ms r ≡ on_engine
  unfolding execute_operation_on_manager_node
  at_manager ms r h =
      rw
        (role_tag-is_manager b.runtime_configuration.node_role member.known (
          subst (λ (k : ClusterMember). str_eq k.node_role (role_tag manager) ≡ true)
            member.published h))
        refl

  at_node :
      (ms : List SerfMember) (r : Request)
      → execute_operation_on_node b ms (copy_request r m) ≡ on_engine
  unfolding execute_operation_on_node copy_request
  at_node ms r = rw same_name refl

  at_cluster :
      (ms : List SerfMember) (r : Request)
      → execute_operation_on_cluster b ms (copy_request r m) ≡ on_engine
  unfolding execute_operation_on_cluster copy_request
  at_cluster ms r = rw same_name refl

  -- An agent runs what another hands over to it by the same execution.
  handed_over :
      (a : Handler) (e : Execution) (ms ms' : List SerfMember) (r r' : Request)
      → execute e a ms r ≡ on_agent m r'
      → (execute e b ms' r' ≡ on_engine) × (r' ≡ copy_request r m)
  unfolding execute
  handed_over a manager_execution ms ms' r r' h =
      let (role, copied) =
        subst (HandsOver manager_execution (λ k. str_eq k.node_role (role_tag manager)) r) h
          (manager_node-HandsOver a ms r) in
      (at_manager ms' r' role, copied)
  handed_over a node_execution ms ms' r r' h =
      let (name, copied) =
        subst (HandsOver node_execution (λ k. str_eq k.node_name r.agent_target) r) h
          (node-HandsOver a ms r) in
      (rw copied (at_node ms' r), copied)
  handed_over a cluster_execution ms ms' r r' h =
      let (never, copied) =
        subst (HandsOver cluster_execution (λ k. false) r) h (cluster-HandsOver a ms r) in
      cc (never)

  same_test :
      (r r' : Request)
      → r' ≡ copy_request r m
      → not (str_eq r'.manager_operation []) ≡ not (str_eq r.manager_operation [])
  unfolding copy_request
  same_test r r' copied = ap (λ (q : Request). not (str_eq q.manager_operation [])) copied

  same_execution :
      (r r' : Request)
      → r' ≡ copy_request r m
      → execution_of r'.method r'.path ≡ execution_of r.method r.path
  unfolding copy_request
  same_execution r r' copied = ap (λ (q : Request). execution_of q.method q.path) copied

  in_cluster :
      (a : Handler) (ms : List SerfMember) (o : Option (List SerfMember)) (r r' : Request)
      → operation_in_cluster a (some ms) r ≡ on_agent m r'
      → operation_in_cluster b o r' ≡ on_engine
  unfolding operation_in_cluster dispatch_operation execute
  in_cluster a ms none r r' h = refl
  in_cluster a ms (some ms') r r' h = elim (Bool-cases (not (str_eq r.manager_operation []))) [
    | inl asked ↦
        let (runs, copied) = handed_over a manager_execution ms ms' r r' (
          subst
            (λ (t : Bool).
              (if t then execute_operation_on_manager_node a ms r else dispatch_operation a ms r)
              ≡ on_agent m r')
            asked h) in
        rw (same_test r r' copied, asked) runs
    | inr not_asked ↦
        let (runs, copied) = handed_over a (execution_of r.method r.path) ms ms' r r' (
          subst
            (λ (t : Bool).
              (if t then execute_operation_on_manager_node a ms r else dispatch_operation a ms r)
              ≡ on_agent m r')
            not_asked h) in
        rw (same_test r r' copied, not_asked) (rw (same_execution r r' copied) runs)
  ]

  -- The member that is asked by the name of its node.
  in_redirect :
      (a : Handler) (ms : List SerfMember) (o : Option (List SerfMember)) (r r' : Request)
      → redirect_in_cluster a (some ms) r ≡ on_agent m r'
      → redirect_in_cluster b o r' ≡ on_engine
  unfolding redirect_in_cluster execute_operation_on_node execute
  in_redirect a ms none r r' h = refl
  in_redirect a ms (some ms') r r' h = (handed_over a node_execution ms ms' r r' h).0

  -- All members are asked by the execution on the cluster only.
  asks_all :
      (a : Handler) (e : Execution) (ms : List SerfMember) (r : Request) (ks : List ClusterMember)
      → execute e a ms r ≡ on_cluster ks
      → e ≡ cluster_execution
  unfolding execute
  asks_all a cluster_execution ms r ks h = refl
  asks_all a manager_execution ms r ks h =
      subst (HandsOver manager_execution (λ k. str_eq k.node_role (role_tag manager)) r) h
        (manager_node-HandsOver a ms r)
  asks_all a node_execution ms r ks h =
      subst (HandsOver node_execution (λ k. str_eq k.node_name r.agent_target) r) h
        (node-HandsOver a ms r)

  by_copy :
      (a : Handler) (ms : List SerfMember) (o : Option (List SerfMember)) (r : Request)
      (ks : List ClusterMember)
      → operation_in_cluster a (some ms) r ≡ on_cluster ks
      → operation_in_cluster b o (copy_request r m) ≡ on_engine
  unfolding operation_in_cluster dispatch_operation execute
  by_copy a ms none r ks h = refl
  by_copy a ms (some ms') r ks h = elim (Bool-cases (not (str_eq r.manager_operation []))) [
    | inl asked ↦
        let never = asks_all a manager_execution ms r ks (
          subst
            (λ (t : Bool).
              (if t then execute_operation_on_manager_node a ms r else dispatch_operation a ms r)
              ≡ on_cluster ks)
            asked h) in
        cc (never)
    | inr not_asked ↦
        let all = asks_all a (execution_of r.method r.path) ms r ks (
          subst
            (λ (t : Bool).
              (if t then execute_operation_on_manager_node a ms r else dispatch_operation a ms r)
              ≡ on_cluster ks)
            not_asked h) in
        rw (same_test r (copy_request r m) refl, not_asked)
          (rw (same_execution r (copy_request r m) refl, all) (at_cluster ms' r))
  ]

  -- A Docker operation that an agent hands over to a member, the manager, the node asked for or
  -- each of them, is run on the engine by the agent that this member stands for: when the copy
  -- reaches that agent, which publishes its node's name and the role that it has, it is not handed
  -- over again.
  pub docker_operation-handed_over :
      (a : Handler) (r r' : Request)
      → (docker_operation a r ≡ on_agent m r')
        ⊎ (((ks : List ClusterMember) × (docker_operation a r ≡ on_cluster ks))
            × (r' ≡ copy_request r m))
      → docker_operation b r' ≡ on_engine
  unfolding docker_operation operation_in_cluster
  docker_operation-handed_over a r r' h = from a.cluster_service h
    where
      from :
          (o : Option (List SerfMember))
          → (operation_in_cluster a o r ≡ on_agent m r')
            ⊎ (((ks : List ClusterMember) × (operation_in_cluster a o r ≡ on_cluster ks))
                × (r' ≡ copy_request r m))
          → operation_in_cluster b b.cluster_service r' ≡ on_engine
      from none (inl h) = cc (h)
      from none (inr ((ks, h), copied)) = cc (h)
      from (some ms) (inl h) = in_cluster a ms b.cluster_service r r' h
      from (some ms) (inr ((ks, h), copied)) = rw copied (by_copy a ms b.cluster_service r ks h)

  -- So is a request that the handlers of files and of the host redirect to a node.
  pub redirect-handed_over :
      (a : Handler) (r r' : Request) → redirect a r ≡ on_agent m r' → redirect b r' ≡ on_engine
  unfolding redirect redirect_in_cluster
  redirect-handed_over a r r' h = from a.cluster_service h
    where
      from :
          (o : Option (List SerfMember))
          → redirect_in_cluster a o r ≡ on_agent m r'
          → redirect_in_cluster b b.cluster_service r' ≡ on_engine
      from none h = cc (h)
      from (some ms) h = in_redirect a ms b.cluster_service r r' h
