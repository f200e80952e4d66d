-- ===== src/Manager/Background.antt =====
-- Where the background goroutines of the Edge manager do not do what they are for.
use portainer_agent.Base.{
  ◌≡◌, refl, ap, ◌∙◌, Bool, true, false, Option, none, some, List, [], ◌∷◌, Str, map, if◌then◌else◌,
}
use portainer_agent.Cluster.{RuntimeConfiguration}
use portainer_agent.Outside.{Outside, Error}
use portainer_agent.Stack.{StackManager, EngineType, nomad}
use portainer_agent.Poll.{with_stacks}
use portainer_agent.Poll.Loop.{tick, start_signal, loop_step, loop_run, loop_run-paused, begin}
use portainer_agent.Server.AsyncClient.{platform_podman}
use portainer_agent.Manager.{
  EdgeManager, signal, stacks_done, on_stacks, and_then, start_stacks, start_engine, or_returns,
  engine_tick, platform_tick, background_tick, start_background, ManagerEvent, background,
  poll_ticker, manager_step, manager_run,
}
use portainer_agent.Manager.Runtime.{failed-disabled}
use portainer_agent.Manager.Engines.{stacks_of, IsConsistent}

-- A manager on Podman whose loop does not listen.
record IsIdle (m : EdgeManager) : Type 0 where
  on_podman : m.container_platform ≡ platform_podman
  listens : m.loop.listens ≡ false

module _ (out : Outside) where
  podman_tick :
      (info : Option RuntimeConfiguration) (m : EdgeManager)
      → m.container_platform ≡ platform_podman
      → background_tick out info m ≡ m
  unfolding background_tick platform_tick
  podman_tick info m h = by_test m.watches
    where
      by_test : (b : Bool) → (if b then platform_tick out info m.container_platform m else m) ≡ m
      by_test true = ap (λ p. platform_tick out info p m) h
      by_test false = refl

  podman_poll : (m : EdgeManager) → m.loop.listens ≡ false → signal out tick m ≡ m
  unfolding signal loop_run
  podman_poll m h = ap (λ l. record m { loop = l }) (loop_run-paused out (tick ∷ []) m.loop tt h)

  podman_run :
      (es : List ManagerEvent) (m : EdgeManager)
      → m.container_platform ≡ platform_podman
      → m.loop.listens ≡ false
      → manager_run out es m ≡ m
  unfolding manager_run manager_step
  podman_run [] m p h = refl
  podman_run (background info ∷ es) m p h =
      ap (manager_run out es) (podman_tick info m p) ∙ podman_run es m p h
  podman_run (poll_ticker ∷ es) m p h =
      ap (manager_run out es) (podman_poll m h) ∙ podman_run es m p h

  -- On Podman the background process is started without an error and without a goroutine, and the
  -- poll loop, which begins without listening to its ticker, never makes a poll, whatever comes.
  pub podman_never_polls :
      (es : List ManagerEvent) (info : Option RuntimeConfiguration) (m : EdgeManager)
      → m.container_platform ≡ platform_podman
      → m.loop ≡ begin m.loop.service
      → ((start_background out info m.container_platform m).1 ≡ none)
        × (manager_run out es (start_background out info m.container_platform m).0 ≡ m)
  unfolding start_background begin
  podman_never_polls es info m p h =
      let started = ap (λ k. start_background out info k m) p in
      (
        ap (λ (o : EdgeManager × Error). o.1) started,
        ap (λ (o : EdgeManager × Error). manager_run out es o.0) started
            ∙ podman_run es m p (ap (λ l. l.listens) h),
      )

  and_then-failed :
      (o : EdgeManager × Error) (e : Str)
      → (and_then start_stacks o).1 ≡ some e
      → (o.1 ≡ some e) × ((and_then start_stacks o).0 ≡ o.0)
  unfolding and_then start_stacks on_stacks stacks_done with_stacks
  and_then-failed (m, none) e h = cc (h)
  and_then-failed (m, some e') e h = (h, refl)

  failed_engine :
      (wanted : EngineType) (m : EdgeManager) (e : Str)
      → IsConsistent (stacks_of m)
      → (start_engine out wanted (signal out start_signal m)).1 ≡ some e
      → (stacks_of (start_engine out wanted (signal out start_signal m)).0).is_enabled ≡ false
  unfolding start_engine on_stacks stacks_done with_stacks signal loop_step
  failed_engine wanted m e h failed =
      let stacks : StackManager = record (stacks_of m) { calls = m.loop.service.calls } in
      let (status_failed, same) = and_then-failed _ e failed in
      ap (λ k. (stacks_of k).is_enabled) same ∙ failed-disabled out wanted stacks e h status_failed

  returned :
      (o : EdgeManager × Error) (e : Str)
      → o.1 ≡ some e
      → ((or_returns o).watches ≡ false) × (stacks_of (or_returns o) ≡ stacks_of o.0)
  unfolding or_returns
  returned (m, none) e h = cc (h)
  returned (m, some e') e h = (refl, refl)

  unwatched :
      (infos : List (Option RuntimeConfiguration)) (m : EdgeManager)
      → m.watches ≡ false
      → manager_run out (map background infos) m ≡ m
  unfolding manager_run manager_step background_tick
  unwatched [] m h = refl
  unwatched (info ∷ infos) m h =
      ap
        (λ b.
          manager_run out (map background infos)
            (if b then platform_tick out info m.container_platform m else m))
        h
      ∙ unwatched infos m h

  -- On Nomad one error of starting the engine ends the background goroutine: the stack manager is
  -- left disabled, and no later tick of the goroutine changes the Edge manager.
  pub engine_tick-gives_up :
      (m : EdgeManager) (e : Str) (infos : List (Option RuntimeConfiguration))
      → IsConsistent (stacks_of m)
      → (start_engine out nomad (signal out start_signal m)).1 ≡ some e
      → (manager_run out (map background infos) (engine_tick out nomad m) ≡ engine_tick out nomad m)
        × ((stacks_of (engine_tick out nomad m)).is_enabled ≡ false)
  unfolding engine_tick
  engine_tick-gives_up m e infos h failed =
      let (ended, same) = returned _ e failed in
      (unwatched infos _ ended, ap (λ k. k.is_enabled) same ∙ failed_engine nomad m e h failed)
