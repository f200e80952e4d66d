-- ===== src/Async/Flags.antt =====
-- What the ticks of the async mode leave of its flags until the next poll.
use portainer_agent.Base.{
  ◌≡◌, refl, ◌∙◌, Bool, true, false, List, [], ◌∷◌, ◌++◌, Str, codes, All, if◌then◌else◌, if-elim,
}
use portainer_agent.Outside.{Outside, get_environment_status}
use portainer_agent.Async.Commands.{AsyncService}
use portainer_agent.Async.Loop.{
  AsyncLoop, start_or_keep_coalescing, status_received, Event, ping_tick, snapshot_tick,
  command_tick, coalescing_tick, started, stopped, step, run,
}

-- A tick that asks for a poll.
abbrev pub is_request : Event → Bool
is_request ping_tick = true
is_request snapshot_tick = true
is_request command_tick = true
is_request _ = false

abbrev pub is_poll : Event → Bool
is_poll coalescing_tick = true
is_poll _ = false

abbrev pub is_start : Event → Bool
is_start started = true
is_start _ = false

-- The flags of a request carry what the tick asks for: `snapshot` is the first flag if it is one,
-- and `command` the last.
abbrev pub Carries : Event → List Str → Type 0
Carries snapshot_tick flags = (rest : List Str) × (flags ≡ codes "snapshot" ∷ rest)
Carries command_tick flags = (rest : List Str) × (flags ≡ rest ++ codes "command" ∷ [])
Carries _ flags = Unit

-- The service after a poll with the flags: the request is made after the calls of before, and its
-- answer is processed.
abbrev pub after_poll : Outside → List Str → AsyncService → AsyncService
after_poll out flags s =
    (status_received out (out.environment_status s.calls)
      (record s { calls = get_environment_status flags ∷ s.calls })
      (out.fails s.calls (get_environment_status flags))).0

-- The flags of a poll, by what was asked for.
abbrev pub flags_of : Bool → Bool → List Str
flags_of true true = codes "snapshot" ∷ codes "command" ∷ []
flags_of true false = codes "snapshot" ∷ []
flags_of false true = codes "command" ∷ []
flags_of false false = []

abbrev pub asked_flags : AsyncLoop → List Str
asked_flags l = flags_of l.snapshot_flag l.command_flag

-- The tick of the coalescing ticker makes a poll that carries what `e` asks for.
pub record Polls (out : Outside) (e : Event) (l : AsyncLoop) : Type 0 where
  pub flags : List Str
  pub carries : Carries e flags
  pub polled : (step out l coalescing_tick).service ≡ after_poll out flags l.service

-- The coalescing ticker runs, and its tick makes a poll that carries what `e` asks for.
pub record IsAnswered (out : Outside) (e : Event) (l : AsyncLoop) : Type 0 where
  pub coalescing : l.coalescing_ticker ≡ true
  pub polls : Polls out e l

-- `l'` is as far as `l` in what it will poll, or further.
pub record IsAhead (l l' : AsyncLoop) : Type 0 where
  pub coalescing : l.coalescing_ticker ≡ true → l'.coalescing_ticker ≡ true
  pub snapshot : l.snapshot_flag ≡ true → l'.snapshot_flag ≡ true
  pub command : l.command_flag ≡ true → l'.command_flag ≡ true

pub IsAhead-trans : (a b c : AsyncLoop) → IsAhead a b → IsAhead b c → IsAhead a c
IsAhead-trans a b c h k = record {
  coalescing = λ e. k.coalescing (h.coalescing e);
  snapshot = λ e. k.snapshot (h.snapshot e);
  command = λ e. k.command (h.command e);
}

pub start_or_keep-IsAhead : (l : AsyncLoop) → IsAhead l (start_or_keep_coalescing l)
unfolding start_or_keep_coalescing
start_or_keep-IsAhead l =
    if-elim (λ (k : AsyncLoop). IsAhead l k) l.coalescing_flag
      (λ _. record { coalescing = λ e. e; snapshot = λ e. e; command = λ e. e })
      (λ _. record { coalescing = λ _. refl; snapshot = λ e. e; command = λ e. e })

-- The flag and the ticker of the coalescing agree.
abbrev pub IsCoherent : AsyncLoop → Type 0
IsCoherent l = l.coalescing_ticker ≡ l.coalescing_flag

pub start_or_keep-IsCoherent :
    (l : AsyncLoop) → IsCoherent l → IsCoherent (start_or_keep_coalescing l)
unfolding start_or_keep_coalescing
start_or_keep-IsCoherent l h =
    if-elim (λ (k : AsyncLoop). IsCoherent k) l.coalescing_flag (λ _. h) (λ _. refl)

pub start_or_keep-coalescing :
    (l : AsyncLoop) → IsCoherent l → (start_or_keep_coalescing l).coalescing_ticker ≡ true
unfolding start_or_keep_coalescing
start_or_keep-coalescing l h =
    if-elim (λ (k : AsyncLoop). k.coalescing_ticker ≡ true) l.coalescing_flag (λ e. h ∙ e)
      (λ _. refl)

module _ (out : Outside) where
  pub tick-IsAhead :
      (l l' : AsyncLoop)
      → IsAhead l l'
      → IsAhead l (if l.listens then start_or_keep_coalescing l' else l)
  tick-IsAhead l l' h =
      if-elim (λ (k : AsyncLoop). IsAhead l k) l.listens
        (λ _. IsAhead-trans l l' _ h (start_or_keep-IsAhead l'))
        (λ _. record { coalescing = λ e. e; snapshot = λ e. e; command = λ e. e })

  pub step-IsAhead : (l : AsyncLoop) (e : Event) → is_poll e ≡ false → IsAhead l (step out l e)
  unfolding step
  step-IsAhead l ping_tick h =
      tick-IsAhead l l (record { coalescing = λ e. e; snapshot = λ e. e; command = λ e. e })
  step-IsAhead l snapshot_tick h =
      tick-IsAhead l (record l { snapshot_flag = true })
        (record { coalescing = λ e. e; snapshot = λ _. refl; command = λ e. e })
  step-IsAhead l command_tick h =
      tick-IsAhead l (record l { command_flag = true })
        (record { coalescing = λ e. e; snapshot = λ e. e; command = λ _. refl })
  step-IsAhead l coalescing_tick h = cc
  step-IsAhead l started h = record { coalescing = λ e. e; snapshot = λ e. e; command = λ e. e }
  step-IsAhead l stopped h = record { coalescing = λ e. e; snapshot = λ e. e; command = λ e. e }

  pub run-IsAhead :
      (l : AsyncLoop) (es : List Event) → All (λ e. is_poll e ≡ false) es → IsAhead l (run out l es)
  unfolding run
  run-IsAhead l [] h = record { coalescing = λ e. e; snapshot = λ e. e; command = λ e. e }
  run-IsAhead l (e ∷ es) h =
      IsAhead-trans l _ _ (step-IsAhead l e h.0) (run-IsAhead (step out l e) es h.1)

  pub tick-IsCoherent :
      (l l' : AsyncLoop)
      → IsCoherent l
      → IsCoherent l'
      → IsCoherent (if l.listens then start_or_keep_coalescing l' else l)
  tick-IsCoherent l l' h h' =
      if-elim (λ (k : AsyncLoop). IsCoherent k) l.listens (λ _. start_or_keep-IsCoherent l' h')
        (λ _. h)

  pub step-IsCoherent : (l : AsyncLoop) (e : Event) → IsCoherent l → IsCoherent (step out l e)
  unfolding step
  step-IsCoherent l ping_tick h = tick-IsCoherent l l h h
  step-IsCoherent l snapshot_tick h = tick-IsCoherent l (record l { snapshot_flag = true }) h h
  step-IsCoherent l command_tick h = tick-IsCoherent l (record l { command_flag = true }) h h
  step-IsCoherent l coalescing_tick h = refl
  step-IsCoherent l started h = h
  step-IsCoherent l stopped h = h

  pub run-IsCoherent : (l : AsyncLoop) (es : List Event) → IsCoherent l → IsCoherent (run out l es)
  unfolding run
  run-IsCoherent l [] h = h
  run-IsCoherent l (e ∷ es) h = run-IsCoherent (step out l e) es (step-IsCoherent l e h)
