-- ===== src/Poll/Loop.antt =====
-- startStatusPollLoop of edge/poll.go. Each case of its `select` is an event.
use portainer_agent.Base.{
  ℕ, suc, ◌≡◌, refl, ap, ◌∙◌, Bool, true, false, none, some, List, [], ◌∷◌, if◌then◌else◌,
}
use portainer_agent.Outside.{Outside, Error}
use portainer_agent.Poll.{PollService, poll}

-- The loop's variables beside the service. `listens` says that the channel is the ticker's, and
-- `jitters` counts the random sleeps, which are shorter than the poll interval.
pub record StatusLoop : Type 0 where
  pub service : PollService
  pub listens : Bool
  pub last_poll_failed : Bool
  pub jitters : ℕ

unfoldable pub begin : PollService → StatusLoop
begin s = record { service = s; listens = false; last_poll_failed = false; jitters = 0 }

unfoldable pub reset_ticker : PollService → PollService
reset_ticker s = record s { ticker_interval = s.poll_interval }

-- The sleep before a poll that follows a failed one.
unfoldable pub jitter : StatusLoop → StatusLoop
jitter l =
    if l.last_poll_failed
    then record l {
      service = reset_ticker l.service;
      last_poll_failed = false;
      jitters = suc l.jitters;
    }
    else l

unfoldable pub polled : StatusLoop → PollService × Error → StatusLoop
polled l (s, none) = record l { service = s }
polled l (s, some e) = record l { service = reset_ticker s; last_poll_failed = true }

unfoldable pub poll_tick : Outside → StatusLoop → StatusLoop
poll_tick out l = if l.listens then (let l' = jitter l in polled l' (poll out l'.service)) else l

pub data LoopEvent : Type 0 where
  tick start_signal stop_signal : LoopEvent

unfoldable pub loop_step : Outside → LoopEvent → StatusLoop → StatusLoop
loop_step out tick l = poll_tick out l
loop_step out start_signal l = record l { listens = true }
loop_step out stop_signal l = record l { listens = false }

-- The events of a list, the first one first.
unfoldable pub loop_run : Outside → List LoopEvent → StatusLoop → StatusLoop
loop_run out [] l = l
loop_run out (e ∷ es) l = loop_run out es (loop_step out e l)

-- No start signal is among the events.
abbrev pub NoStart : List LoopEvent → Type 0
NoStart [] = Unit
NoStart (tick ∷ es) = NoStart es
NoStart (stop_signal ∷ es) = NoStart es
NoStart (start_signal ∷ es) = ⊥

stopped_again : (l : StatusLoop) → l.listens ≡ false → record l { listens = false } ≡ l
stopped_again l e = cc (e)

module _ (out : Outside) where
  poll_tick-paused : (l : StatusLoop) → l.listens ≡ false → poll_tick out l ≡ l
  unfolding poll_tick
  poll_tick-paused l e =
      let l' = jitter l in ap (λ (b : Bool). if b then polled l' (poll out l'.service) else l) e

  -- A loop that does not listen to its ticker makes no poll and changes nothing.
  pub loop_run-paused :
      (es : List LoopEvent) (l : StatusLoop)
      → NoStart es
      → l.listens ≡ false
      → loop_run out es l ≡ l
  unfolding loop_run loop_step
  loop_run-paused [] l h e = refl
  loop_run-paused (tick ∷ es) l h e =
      ap (loop_run out es) (poll_tick-paused l e) ∙ loop_run-paused es l h e
  loop_run-paused (stop_signal ∷ es) l h e =
      ap (loop_run out es) (stopped_again l e) ∙ loop_run-paused es l h e
  loop_run-paused (start_signal ∷ es) l h e = absurd h
