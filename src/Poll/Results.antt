-- ===== src/Poll/Results.antt =====
-- What a poll does to the stacks, to the environment's identifier and to the poll interval.
use portainer_agent.Base.{
  ℕ, suc, ◌==◌, ◌≡◌, refl, sym, ap, ◌∙◌, subst, Bool, true, false, Option, none, some, List, [],
  ◌∷◌, Str, Assoc, IsMap, insert, insert-IsMap, lookup, lookup-insert, if◌then◌else◌, if-elim,
  arith,
}
use portainer_agent.Agent.{PollStatusResponse, StackStatus}
use portainer_agent.Outside.{Outside, Calls, Error, get_environment_id, get_environment_status}
use portainer_agent.Tunnel.{Client}
use portainer_agent.Stack.{StackManager}
use portainer_agent.Stack.Invariant.{IsStacks}
use portainer_agent.Stack.Sync.{Expected, update_stacks_status-Expected}
use portainer_agent.Poll.{
  PollService, with_cron, with_stacks, reset_found, reset_activity_timer, tunnel_created,
  create_decrypted, create_decoded, create_tunnel, close_if_idle, open_if_required, manage_tunnel,
  manage_update_tunnel, process_schedules, versions, process_stacks, update_interval,
  tunnel_managed, status_received, poll_status, id_received, poll_with_id, poll,
}

-- The version that a response has for an identifier: that of its last entry.
abbrev pub wanted_version : ℕ → List StackStatus → Option ℕ
wanted_version id [] = none
wanted_version id (s ∷ ss) = elim (wanted_version id ss) [
  | some v ↦ some v
  | none ↦ if s.id == id then some s.version else none
]

-- The version in a list of entries, or else another one.
version_or : Option ℕ → Option ℕ → Option ℕ
version_or (some v) o = some v
version_or none o = o

lookup-versions :
    (id : ℕ) (m : Assoc ℕ) (ss : List StackStatus)
    → lookup id (versions m ss) ≡ version_or (wanted_version id ss) (lookup id m)
unfolding versions version_or
lookup-versions id m [] = refl
lookup-versions id m (s ∷ ss) =
    lookup-versions id (insert s.id s.version m) ss
    ∙ ap (version_or (wanted_version id ss)) (lookup-insert s.id id s.version m)
    ∙ chosen (wanted_version id ss) (s.id == id)
  where
    chosen :
        (o : Option ℕ) (b : Bool)
        → version_or o (if b then some s.version else lookup id m)
          ≡ version_or
              (elim o [ some v ↦ some v | none ↦ if b then some s.version else none ])
              (lookup id m)
    chosen (some v) b = refl
    chosen none true = refl
    chosen none false = refl

wanted_version-lookup :
    (id : ℕ) (ss : List StackStatus) → lookup id (versions [] ss) ≡ wanted_version id ss
unfolding version_or lookup
wanted_version-lookup id ss = lookup-versions id [] ss ∙ unchanged (wanted_version id ss)
  where
    unchanged : (o : Option ℕ) → version_or o none ≡ o
    unchanged (some v) = refl
    unchanged none = refl

versions-IsMap : (m : Assoc ℕ) (ss : List StackStatus) → IsMap m → IsMap (versions m ss)
unfolding versions
versions-IsMap m [] h = h
versions-IsMap m (s ∷ ss) h =
    versions-IsMap (insert s.id s.version m) ss (insert-IsMap s.id s.version m h)

-- The stacks of the service, and whether they are managed, are those of another.
record SameStacks (s s' : PollService) : Type 0 where
  same : s'.stack_manager ≡ s.stack_manager

module _ (out : Outside) where
  create_tunnel-same :
      (encoded : Str) (port : ℕ) (c : Client) (s : PollService)
      → SameStacks s (create_tunnel out encoded port c s).0
  unfolding create_tunnel create_decoded create_decrypted tunnel_created reset_activity_timer
      reset_found
  create_tunnel-same encoded port c s = ground arith

  close_if_idle-same :
      (r : PollStatusResponse) (c : Client) (s : PollService)
      → SameStacks s (close_if_idle out r c s)
  unfolding close_if_idle
  close_if_idle-same r c s = ground arith

  open_if_required-same :
      (r : PollStatusResponse) (s : PollService) (o : Option Client)
      → SameStacks s (open_if_required out r s o).0
  unfolding open_if_required
  open_if_required-same r s none = record { same = refl }
  open_if_required-same r s (some c) = ground (arith, create_tunnel-same r.credentials r.port c s)

  manage_tunnel-same :
      (r : PollStatusResponse) (s : PollService) (o : Option Client)
      → SameStacks s (manage_tunnel out r s o).0
  unfolding manage_tunnel
  manage_tunnel-same r s none = record { same = refl }
  manage_tunnel-same r s (some c) =
      let s' = close_if_idle out r c s in
      record {
        same = (open_if_required-same r s' s'.tunnel_client).same ∙ (close_if_idle-same r c s).same;
      }

  update_interval-same :
      (r : PollStatusResponse) (s : PollService) → SameStacks s (update_interval r s)
  unfolding update_interval
  update_interval-same r s = ground arith

  process_stacks-Expected :
      (s : PollService) (ss : List StackStatus)
      → IsStacks s.stack_manager.stacks
      → s.stack_manager.is_enabled ≡ true
      → (process_stacks out (some ss) s).1 ≡ none
      → (id : ℕ)
      → Expected
          (lookup id (versions [] ss))
          (lookup id s.stack_manager.stacks)
          (lookup id (process_stacks out (some ss) s).0.stack_manager.stacks)
  unfolding process_stacks with_stacks
  process_stacks-Expected s ss h on ok =
      update_stacks_status-Expected out (record s.stack_manager { calls = s.calls })
        (versions [] ss) h (versions-IsMap [] ss tt) on ok

  -- What a poll has to do for the stacks of a response.
  record IsSynced (ss : List StackStatus) (m : StackManager) (after : PollService × Error)
      : Type 0 where
    at_each :
        IsStacks m.stacks
        → m.is_enabled ≡ true
        → after.1 ≡ none
        → (id : ℕ)
        → Expected
            (lookup id (versions [] ss))
            (lookup id m.stacks)
            (lookup id after.0.stack_manager.stacks)

  tunnel_managed-IsSynced :
      (r : PollStatusResponse) (ss : List StackStatus) (m : StackManager) (s : PollService)
      (e : Error)
      → r.stacks ≡ some ss
      → s.stack_manager ≡ m
      → IsSynced ss m (tunnel_managed out r (s, e))
  unfolding tunnel_managed process_schedules with_cron
  tunnel_managed-IsSynced r ss m s (some err) q p = record { at_each = λ h on ok. cc }
  tunnel_managed-IsSynced r ss m s none q p =
      let t = process_schedules out r.schedules s in
      let u = update_interval r t in
      let same : u.stack_manager ≡ m = (update_interval-same r t).same ∙ p in
      subst (λ k. IsSynced ss k (process_stacks out r.stacks u)) same
        (subst (λ o. IsSynced ss u.stack_manager (process_stacks out o u)) (sym q)
          (record { at_each = process_stacks-Expected u ss }))

  poll_status-IsSynced :
      (ss : List StackStatus) (s : PollService)
      → (out.environment_status s.calls).stacks ≡ some ss
      → IsSynced ss s.stack_manager (poll_status out s)
  unfolding poll_status
  poll_status-IsSynced ss s q =
      let r = out.environment_status s.calls in
      let s' : PollService = record s { calls = get_environment_status [] ∷ s.calls } in
      received r s' (out.fails s.calls (get_environment_status [])) q
    where
      received :
          (r : PollStatusResponse) (t : PollService) (e : Error)
          → r.stacks ≡ some ss
          → IsSynced ss t.stack_manager (status_received out r t e)
      received r t (some err) q = unfold status_received in record { at_each = λ h on ok. cc }
      received r t none q =
          unfold status_received in
          unfold manage_update_tunnel in
          tunnel_managed-IsSynced r ss t.stack_manager _ _ q
            (manage_tunnel-same r t t.tunnel_client).same

  -- The history of calls when a poll asks for the status: a poll that has no identifier of the
  -- environment asks for that first.
  abbrev pub asked : PollService → Calls
  asked s = if s.endpoint_id == 0 then get_environment_id ∷ s.calls else s.calls

  poll_with_id-IsSynced :
      (ss : List StackStatus) (s : PollService)
      → (out.environment_status (get_environment_id ∷ s.calls)).stacks ≡ some ss
      → IsSynced ss s.stack_manager (poll_with_id out s)
  unfolding poll_with_id
  poll_with_id-IsSynced ss s q =
      received (record s { calls = get_environment_id ∷ s.calls })
        (out.fails s.calls get_environment_id) q
    where
      received :
          (t : PollService) (e : Error)
          → (out.environment_status t.calls).stacks ≡ some ss
          → IsSynced ss t.stack_manager (id_received out (out.environment_id s.calls) t e)
      received t (some err) q = unfold id_received in record { at_each = λ h on ok. cc }
      received t none q =
          unfold id_received in
          poll_status-IsSynced ss (record t { endpoint_id = out.environment_id s.calls }) q

  -- When a poll of an enabled stack manager succeeds and the server's response has stacks, every
  -- stack is as the response asks, whatever the tunnel and the schedules needed on the way: the
  -- version that it wants of a stack is that of the last entry with the stack's identifier, and a
  -- stack without an entry is to be removed.
  pub poll-Expected :
      (s : PollService) (ss : List StackStatus)
      → (out.environment_status (asked s)).stacks ≡ some ss
      → IsStacks s.stack_manager.stacks
      → s.stack_manager.is_enabled ≡ true
      → (poll out s).1 ≡ none
      → (id : ℕ)
      → Expected
          (wanted_version id ss)
          (lookup id s.stack_manager.stacks)
          (lookup id (poll out s).0.stack_manager.stacks)
  unfolding poll
  poll-Expected s ss q h on ok id =
      subst
        (λ o.
          Expected o (lookup id s.stack_manager.stacks)
            (lookup id (poll out s).0.stack_manager.stacks))
        (wanted_version-lookup id ss)
        ((if-elim (IsSynced ss s.stack_manager) (s.endpoint_id == 0)
            (λ unset. poll_with_id-IsSynced ss s (ground (arith, q, unset)))
            (λ known. poll_status-IsSynced ss s (ground (arith, q, known)))).at_each
          h on ok id)

  -- A poll whose request for the status fails returns that error and forgets the environment's
  -- identifier; the tunnel, the schedules and the stacks stay as they were. The next poll asks for
  -- the identifier before it asks for the status.
  pub poll-failed :
      (s : PollService) (message : Str) (id : ℕ)
      → s.endpoint_id ≡ suc id
      → out.fails s.calls (get_environment_status []) ≡ some message
      → let s' = record s { calls = get_environment_status [] ∷ s.calls; endpoint_id = 0 } in
        (poll out s ≡ (s', some message)) × (poll out s' ≡ poll_with_id out s')
  unfolding poll poll_status status_received
  poll-failed s message id known failed = (ground (arith, known, failed), refl)
