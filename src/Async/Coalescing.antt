-- ===== src/Async/Coalescing.antt =====
-- The ticks of the async mode between two polls: what the next poll asks for, and what Stop does.
use portainer_agent.Base.{
  ◌≡◌, refl, sym, ap, subst, true, false, List, [], ◌∷◌, codes, All, if◌then◌else◌,
}
use portainer_agent.Outside.{Outside}
use portainer_agent.Async.Commands.{AsyncService}
use portainer_agent.Async.Loop.{
  AsyncLoop, begin, start_or_keep_coalescing, poll_flags, poll_async, Event, ping_tick,
  snapshot_tick, command_tick, coalescing_tick, started, stopped, step, run,
}
use portainer_agent.Async.Flags.{
  IsAnswered, is_request, is_poll, Carries, after_poll, IsAhead, start_or_keep-IsAhead, IsCoherent,
  start_or_keep-coalescing, run-IsAhead, run-IsCoherent,
}

module _ (out : Outside) where
  -- What a tick does when the loop listens.
  listening {ℓ} :
      (P : AsyncLoop → Type ℓ) (l l' : AsyncLoop)
      → l.listens ≡ true
      → P (start_or_keep_coalescing l')
      → P (if l.listens then start_or_keep_coalescing l' else l)
  listening P l l' on p = subst (λ b. P (if b then start_or_keep_coalescing l' else l)) (sym on) p

  snapshot_flagged :
      (l : AsyncLoop) → l.listens ≡ true → (step out l snapshot_tick).snapshot_flag ≡ true
  unfolding step
  snapshot_flagged l on =
      listening (λ k. k.snapshot_flag ≡ true) l _ on ((start_or_keep-IsAhead _).snapshot refl)

  command_flagged :
      (l : AsyncLoop) → l.listens ≡ true → (step out l command_tick).command_flag ≡ true
  unfolding step
  command_flagged l on =
      listening (λ k. k.command_flag ≡ true) l _ on ((start_or_keep-IsAhead _).command refl)

  flags-Carries :
      (e : Event) (l l' : AsyncLoop)
      → l.listens ≡ true
      → IsAhead (step out l e) l'
      → Carries e (poll_flags l'.snapshot_flag l'.command_flag)
  unfolding poll_flags
  flags-Carries ping_tick l l' on h = tt
  flags-Carries snapshot_tick l l' on h = (
    poll_flags false l'.command_flag,
    ap (λ b. poll_flags b l'.command_flag) (h.snapshot (snapshot_flagged l on)),
  )
  flags-Carries command_tick l l' on h = (
    (if l'.snapshot_flag then codes "snapshot" ∷ [] else []),
    ap (λ b. poll_flags l'.snapshot_flag b) (h.command (command_flagged l on)),
  )
  flags-Carries coalescing_tick l l' on h = tt
  flags-Carries started l l' on h = tt
  flags-Carries stopped l l' on h = tt

  -- The poll at the tick has the flags that the loop keeps.
  tick-polled :
      (l : AsyncLoop)
      → (step out l coalescing_tick).service
        ≡ after_poll out (poll_flags l.snapshot_flag l.command_flag) l.service
  unfolding step poll_async
  tick-polled l = refl

  request-coalescing :
      (e : Event) (l : AsyncLoop)
      → l.listens ≡ true
      → is_request e ≡ true
      → IsCoherent l
      → (step out l e).coalescing_ticker ≡ true
  unfolding step
  request-coalescing ping_tick l on r h =
      listening (λ k. k.coalescing_ticker ≡ true) l l on (start_or_keep-coalescing l h)
  request-coalescing snapshot_tick l on r h =
      listening (λ k. k.coalescing_ticker ≡ true) l _ on (start_or_keep-coalescing _ h)
  request-coalescing command_tick l on r h =
      listening (λ k. k.coalescing_ticker ≡ true) l _ on (start_or_keep-coalescing _ h)
  request-coalescing coalescing_tick l on r h = cc
  request-coalescing started l on r h = cc
  request-coalescing stopped l on r h = cc

  -- A tick that the loop sees is not lost: until the next poll, whatever other events come in
  -- between, the coalescing ticker runs, and its tick makes a poll, whose request carries the flag
  -- of the tick.
  pub request-IsAnswered :
      (s : AsyncService) (before : List Event) (e : Event) (after : List Event)
      → (run out (begin s) before).listens ≡ true
      → is_request e ≡ true
      → All (λ e'. is_poll e' ≡ false) after
      → IsAnswered out e (run out (step out (run out (begin s) before) e) after)
  unfolding begin
  request-IsAnswered s before e after on r h =
      let l = run out (begin s) before in
      let ahead = run-IsAhead out (step out l e) after h in
      record {
        coalescing =
            ahead.coalescing
              (request-coalescing e l on r (run-IsCoherent out (begin s) before refl));
        polls = record {
          flags = _;
          carries = flags-Carries e l _ on ahead;
          polled = tick-polled _;
        };
      }
