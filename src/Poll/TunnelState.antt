-- ===== src/Poll/TunnelState.antt =====
-- The reverse tunnel under the polls: it follows the status that the server asks for, and it is
-- closed after the time of inactivity.
use portainer_agent.Base.{
  ℕ, ◌-◌, ltb, ◌≡◌, ◌≢◌, refl, sym, Bool, true, false, not, Option, none, some, inl, inr, Str,
  str_eq, str_eq_iff, subst, Bool-cases, arith,
}
use portainer_agent.Agent.{TunnelConfig, PollStatusResponse}
use portainer_agent.Outside.{Outside, Calls, Error}
use portainer_agent.Tunnel
use portainer_agent.Tunnel.{Client}
use portainer_agent.Poll.{
  PollService, reset_found, reset_activity_timer, tunnel_created, create_decrypted, create_decoded,
  create_tunnel, idle, required, close_if_idle, open_if_required, manage_tunnel,
  manage_update_tunnel, monitor_client, monitor_since, monitor_activity, with_tunnel,
}

abbrev pub is_open : Option Client → Bool
is_open none = false
is_open (some c) = c.tunnel_open

-- A tunnel that is open and whose last activity is the time of the clock.
pub record IsFresh (out : Outside) (s : PollService) : Type 0 where
  pub open_now : is_open s.tunnel_client ≡ true
  pub active_now : s.last_activity ≡ some (out.now s.calls)

idle_tests : (st : Str) → st ≡ idle → (str_eq st idle ≡ true) × (str_eq st required ≡ false)
unfolding str_eq
idle_tests st e = rw e (refl, refl)

required_tests : (st : Str) → st ≡ required → (str_eq st idle ≡ false) × (str_eq st required ≡ true)
unfolding str_eq
required_tests st e = rw e (refl, refl)

not_equal : (s t : Str) → s ≢ t → str_eq s t ≡ false
not_equal s t n = elim (Bool-cases (str_eq s t)) [
  | inl same ↦ absurd (n ((str_eq_iff s t).0 same))
  | inr differs ↦ differs
]

module _ (out : Outside) where
  created-IsFresh :
      (s : PollService) (c : Client) (calls : Calls) (config : TunnelConfig)
      → (tunnel_created out (with_tunnel s (Tunnel.create_tunnel out config c calls))).1 ≡ none
      → IsFresh out (tunnel_created out (with_tunnel s (Tunnel.create_tunnel out config c calls))).0
  unfolding tunnel_created Tunnel.create_tunnel Tunnel.made Tunnel.started reset_activity_timer
      reset_found
  created-IsFresh s c calls config h = ground arith

  decrypted-IsFresh :
      (port : ℕ) (c : Client) (s : PollService) (o : Option Str)
      → (create_decrypted out port c s o).1 ≡ none
      → IsFresh out (create_decrypted out port c s o).0
  unfolding create_decrypted
  decrypted-IsFresh port c s none h = cc
  decrypted-IsFresh port c s (some credentials) h = created-IsFresh s c s.calls _ h

  decoded-IsFresh :
      (port : ℕ) (c : Client) (s : PollService) (o : Option Str)
      → (create_decoded out port c s o).1 ≡ none
      → IsFresh out (create_decoded out port c s o).0
  unfolding create_decoded
  decoded-IsFresh port c s none h = cc
  decoded-IsFresh port c s (some decoded) h =
      decrypted-IsFresh port c s (out.decrypt decoded s.edge_id) h

  create_tunnel-IsFresh :
      (encoded : Str) (port : ℕ) (c : Client) (s : PollService)
      → (create_tunnel out encoded port c s).1 ≡ none
      → IsFresh out (create_tunnel out encoded port c s).0
  unfolding create_tunnel
  create_tunnel-IsFresh encoded port c s h = decoded-IsFresh port c s _ h

  monitor-IsFresh :
      (s : PollService) (calls : Calls)
      → IsFresh out s
      → is_open (monitor_activity out (record s { calls = calls })).tunnel_client
        ≡ not (ltb s.inactivity_timeout (out.now calls - out.now s.calls))
  unfolding monitor_activity monitor_since monitor_client Tunnel.close_tunnel
  monitor-IsFresh s calls h = ground arith

  -- What a poll asks of the tunnel, and what it gets.
  pub record Follows (r : PollStatusResponse) (s : PollService) (after : PollService × Error)
      : Type 0 where
    pub closed_when_idle :
        r.status ≡ idle → (after.1 ≡ none) × (is_open after.0.tunnel_client ≡ false)
    pub open_when_required :
        r.status ≡ required → after.1 ≡ none → is_open after.0.tunnel_client ≡ true
    pub fresh_when_opened :
        r.status ≡ required → is_open s.tunnel_client ≡ false → after.1 ≡ none → IsFresh out after.0
    pub untouched_otherwise : r.status ≢ idle → r.status ≢ required → after ≡ (s, none)

  required-IsFresh :
      (r : PollStatusResponse) (s : PollService) (c : Client)
      → str_eq r.status required ≡ true
      → c.tunnel_open ≡ false
      → (open_if_required out r s (some c)).1 ≡ none
      → IsFresh out (open_if_required out r s (some c)).0
  unfolding open_if_required
  required-IsFresh r s c q shut = simp (q, shut) (create_tunnel-IsFresh r.credentials r.port c s)

  required-open :
      (r : PollStatusResponse) (s : PollService) (c : Client)
      → str_eq r.status required ≡ true
      → s.tunnel_client ≡ some c
      → (open_if_required out r s (some c)).1 ≡ none
      → is_open (open_if_required out r s (some c)).0.tunnel_client ≡ true
  required-open r s c q e = elim (Bool-cases c.tunnel_open) [
    | inl already ↦ unfold open_if_required in simp (q, already, e) (λ ok. refl)
    | inr shut ↦ λ ok. (required-IsFresh r s c q shut ok).open_now
  ]

  Follows-idle :
      (r : PollStatusResponse) (s : PollService) (c : Client)
      → s.tunnel_client ≡ some c
      → r.status ≡ idle
      → let after = manage_tunnel out r s (some c) in
        (after.1 ≡ none) × (is_open after.0.tunnel_client ≡ false)
  unfolding manage_tunnel close_if_idle open_if_required Tunnel.close_tunnel
  Follows-idle r s c e i = ground (arith, e, idle_tests r.status i)

  Follows-required :
      (r : PollStatusResponse) (s : PollService) (c : Client)
      → s.tunnel_client ≡ some c
      → r.status ≡ required
      → (manage_tunnel out r s (some c)).1 ≡ none
      → is_open (manage_tunnel out r s (some c)).0.tunnel_client ≡ true
  unfolding manage_tunnel close_if_idle
  Follows-required r s c e q =
      let (a, b) = required_tests r.status q in simp (a, e) (required-open r s c b e)

  Follows-IsFresh :
      (r : PollStatusResponse) (s : PollService) (c : Client)
      → s.tunnel_client ≡ some c
      → r.status ≡ required
      → c.tunnel_open ≡ false
      → (manage_tunnel out r s (some c)).1 ≡ none
      → IsFresh out (manage_tunnel out r s (some c)).0
  unfolding manage_tunnel close_if_idle
  Follows-IsFresh r s c e q shut =
      let (a, b) = required_tests r.status q in simp (a, e) (required-IsFresh r s c b shut)

  Follows-other :
      (r : PollStatusResponse) (s : PollService) (c : Client)
      → s.tunnel_client ≡ some c
      → r.status ≢ idle
      → r.status ≢ required
      → manage_tunnel out r s (some c) ≡ (s, none)
  unfolding manage_tunnel close_if_idle open_if_required
  Follows-other r s c e i q =
      ground (arith, e, not_equal r.status idle i, not_equal r.status required q)

  Follows-found :
      (r : PollStatusResponse) (s : PollService) (c : Client)
      → s.tunnel_client ≡ some c
      → Follows r s (manage_tunnel out r s (some c))
  Follows-found r s c e = record {
    closed_when_idle = Follows-idle r s c e;
    open_when_required = Follows-required r s c e;
    fresh_when_opened = λ q shut. Follows-IsFresh r s c e q (ground (arith, e));
    untouched_otherwise = Follows-other r s c e;
  }

  -- With a tunnel client, a poll closes the tunnel when the server says that it is idle, with no
  -- error even if the close failed; it has the tunnel open when the server requires it and no error
  -- is returned, and a tunnel that it opened counts as active from then on; and with any other
  -- status it does nothing.
  pub manage_update_tunnel-Follows :
      (r : PollStatusResponse) (s : PollService) (c : Client)
      → s.tunnel_client ≡ some c
      → Follows r s (manage_update_tunnel out r s)
  unfolding manage_update_tunnel
  manage_update_tunnel-Follows r s c e =
      subst (λ o. Follows r s (manage_tunnel out r s o)) (sym e) (Follows-found r s c e)

  -- A tunnel that a poll has opened is closed by the first tick of the monitoring loop that comes
  -- later than the inactivity timeout, and kept open by the ticks before, if no activity was
  -- signalled in between and nothing else happened but calls to the outside.
  pub monitor_activity-after :
      (r : PollStatusResponse) (s : PollService) (c : Client) (calls : Calls)
      → s.tunnel_client ≡ some c
      → r.status ≡ required
      → is_open s.tunnel_client ≡ false
      → (manage_update_tunnel out r s).1 ≡ none
      → let opened = (manage_update_tunnel out r s).0 in
        let later = record opened { calls = calls } in
        is_open (monitor_activity out later).tunnel_client
        ≡ not (ltb opened.inactivity_timeout (out.now calls - out.now opened.calls))
  monitor_activity-after r s c calls e q shut ok =
      monitor-IsFresh (manage_update_tunnel out r s).0 calls
        ((manage_update_tunnel-Follows r s c e).fresh_when_opened q shut ok)
