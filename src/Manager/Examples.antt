-- ===== src/Manager/Examples.antt =====
-- The theorems of the Edge manager at a new stack manager.
use portainer_agent.Base.{◌≡◌, refl, true, false, none, some, [], ◌∷◌, map, codes}
use portainer_agent.Cluster.{RuntimeConfiguration, standalone, manager}
use portainer_agent.Outside.Worlds.{quiet, refusing}
use portainer_agent.Stack.{EngineType, EngineType-discrete}
use portainer_agent.Stack.Lifecycle.{
  stop, stop_found, set_engine_status, switch_engine, build_deployer_service, try_deployer,
  deployer_built,
}
use portainer_agent.Poll.{PollService, with_stacks}
use portainer_agent.Poll.Loop.{begin, start_signal, loop_step}
use portainer_agent.Server.AsyncClient.{ContainerPlatform, platform_nomad, platform_podman}
use portainer_agent.Manager.{
  EdgeManager, signal, stacks_done, on_stacks, and_then, start_engine, engine_tick,
  start_background, background, poll_ticker, manager_run,
}
use portainer_agent.Manager.Engines.{stacks_of}
use portainer_agent.Manager.Background.{podman_never_polls, engine_tick-gives_up}

abbrev service : PollService
service = record {
  api_server_addr = codes "10.0.0.1:9001";
  edge_id = codes "edge-1";
  tunnel_server_addr = codes "portainer:8000";
  tunnel_server_fingerprint = codes "aa";
  poll_interval = 5;
  ticker_interval = 5;
  inactivity_timeout = 300;
  tunnel_client = none;
  last_activity = none;
  endpoint_id = 1;
  cron_manager = record {
    cron_file_exists = false;
    managed_schedules = [];
    requests = [];
    calls = [];
  };
  stack_manager = record {
    engine_type = EngineType.no_engine;
    stacks = [];
    stop_signal = none;
    deployer = none;
    is_enabled = false;
    next_chan = 0;
    closed = [];
    workers = 0;
    calls = [];
  };
  calls = [];
}

abbrev on_platform : ContainerPlatform → EdgeManager
on_platform p = record { container_platform = p; loop = begin service; watches = true }

abbrev configuration : RuntimeConfiguration
configuration = record {
  agent_port = codes "9001";
  edge_key_set = true;
  node_name = codes "a";
  engine_status = standalone;
  leader = false;
  node_role = manager;
}

podman_never_polls_example :
    ((start_background quiet none platform_podman (on_platform platform_podman)).1 ≡ none)
    × (manager_run quiet
          (poll_ticker ∷ background none ∷ [])
          (start_background quiet none platform_podman (on_platform platform_podman)).0
        ≡ on_platform platform_podman)
unfolding begin
podman_never_polls_example =
    podman_never_polls quiet (poll_ticker ∷ background none ∷ []) none (on_platform platform_podman)
      refl refl

nomad_fails :
    (start_engine refusing EngineType.nomad
      (signal refusing start_signal (on_platform platform_nomad))).1
    ≡ some (codes "no binary")
unfolding start_engine and_then on_stacks stacks_done with_stacks signal loop_step begin
    set_engine_status switch_engine build_deployer_service try_deployer deployer_built stop
    stop_found EngineType-discrete
nomad_fails = refl

engine_tick-gives_up_example :
    (manager_run refusing
        (map background (none ∷ []))
        (engine_tick refusing EngineType.nomad (on_platform platform_nomad))
      ≡ engine_tick refusing EngineType.nomad (on_platform platform_nomad))
    × ((stacks_of (engine_tick refusing EngineType.nomad (on_platform platform_nomad))).is_enabled
        ≡ false)
unfolding begin
engine_tick-gives_up_example =
    engine_tick-gives_up refusing (on_platform platform_nomad) (codes "no binary") (none ∷ []) refl
      nomad_fails
