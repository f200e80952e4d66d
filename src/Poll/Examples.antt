-- ===== src/Poll/Examples.antt =====
-- The theorems of the polls at concrete inputs.
use portainer_agent.Base.{
  ◌-◌, ltb, not, ◌≡◌, refl, false, none, some, [], ◌∷◌, codes, lookup, insert, contains, str_eq,
}
use portainer_agent.Base64
use portainer_agent.Outside.{write_file}
use portainer_agent.Outside.Worlds.{quiet, response}
use portainer_agent.Tunnel
use portainer_agent.Tunnel.{Client, new_client}
use portainer_agent.Scheduler.{schedule, schedule_some}
use portainer_agent.Stack.Process.{
  process_stack, process_stacks as update_stacks, process_found, configure, configured,
  store_config, apply_config, acknowledge, share, updated, update_stacks_status,
}
use portainer_agent.Stack.Sync.{Expected}
use portainer_agent.Stack.Examples.{stack, manager, manager-IsStacks}
use portainer_agent.Poll.{
  PollService, with_cron, with_stacks, reset_found, reset_activity_timer, tunnel_created,
  create_decrypted, create_decoded, create_tunnel, open_if_required, manage_tunnel, close_if_idle,
  manage_update_tunnel, process_schedules, versions, process_stacks, update_interval,
  tunnel_managed, status_received, poll_status, poll, monitor_activity,
}
use portainer_agent.Poll.TunnelState.{
  Follows, is_open, manage_update_tunnel-Follows, monitor_activity-after,
}
use portainer_agent.Poll.Results.{poll-Expected}

abbrev closed_client : Client
closed_client = record { chisel_client = none; tunnel_open = false }

abbrev service : PollService
service = record {
  api_server_addr = codes "10.0.0.1:9001";
  edge_id = codes "edge-1";
  tunnel_server_addr = codes "portainer:8000";
  tunnel_server_fingerprint = codes "aa";
  poll_interval = 5;
  ticker_interval = 5;
  inactivity_timeout = 300;
  tunnel_client = some closed_client;
  last_activity = none;
  endpoint_id = 1;
  cron_manager = record {
    cron_file_exists = false;
    managed_schedules = [];
    requests = [];
    calls = [];
  };
  stack_manager = manager;
  calls = [];
}

manage_update_tunnel-Follows_example :
    Follows quiet response service (manage_update_tunnel quiet response service)
manage_update_tunnel-Follows_example =
    manage_update_tunnel-Follows quiet response service closed_client refl

monitor_activity-after_example :
    let opened = (manage_update_tunnel quiet response service).0 in
    let later = record opened { calls = [] } in
    is_open (monitor_activity quiet later).tunnel_client
    ≡ not (ltb opened.inactivity_timeout (5 - 5))
unfolding manage_update_tunnel manage_tunnel close_if_idle open_if_required create_tunnel
    create_decoded create_decrypted tunnel_created reset_activity_timer reset_found
    Tunnel.create_tunnel Tunnel.made Tunnel.started str_eq Base64.decode Base64.sextets
    Base64.decode_sextet Base64.join
monitor_activity-after_example =
    monitor_activity-after quiet response service closed_client [] refl refl refl refl

poll_succeeds : (poll quiet service).1 ≡ none
unfolding poll poll_status status_received tunnel_managed process_schedules with_cron schedule
    schedule_some update_interval process_stacks with_stacks update_stacks_status versions updated
    update_stacks process_stack process_found configure configured store_config apply_config
    acknowledge share write_file lookup insert manage_update_tunnel manage_tunnel close_if_idle
    open_if_required create_tunnel create_decoded create_decrypted tunnel_created
    reset_activity_timer reset_found Tunnel.create_tunnel Tunnel.made Tunnel.started str_eq
    Base64.decode Base64.sextets Base64.decode_sextet Base64.join
poll_succeeds = refl

poll-Expected_example :
    Expected (some 2) (some stack) (lookup 7 (poll quiet service).0.stack_manager.stacks)
unfolding lookup contains insert
poll-Expected_example =
    poll-Expected quiet service (record { id = 7; version = 2 } ∷ []) refl manager-IsStacks refl
      poll_succeeds 7
