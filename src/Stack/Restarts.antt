-- ===== src/Stack/Restarts.antt =====
-- Stop and Start of the stack manager: a deployment goroutine never sees the closed channel, since
-- Stop clears the field that the goroutine reads; and an engine change that fails.
use mathlib.Core.Path.{subst₂}
use portainer_agent.Base.{
  ℕ, suc, ◌+◌, ◌<◌, ◌==◌, ◌≡◌, refl, sym, ◌∙◌, Bool, true, false, Option, none, some, List, [], ◌∷◌,
  All, any, if-elim, if◌then◌else◌, arith, Str, subst, is_some,
}
use portainer_agent.Outside.{Outside, Error, Deployer}
use portainer_agent.Stack.{StackManager, EngineType, EngineType-discrete}
use portainer_agent.Stack.Params.{deploy_stack, delete_stack}
use portainer_agent.Stack.Lifecycle.{
  new_stack_manager, start, start_found, stop, stop_found, sees_stop, turn, set_engine_status,
  switch_engine, deployer_built,
}
use portainer_agent.Stack.System.{
  Event, polled, deploy_command, delete_command, engine, starts, stops, turns, step, run,
}
use portainer_agent.Stack.Signals.{
  SameSignals, update_stacks_status-same, build_deployer_params-same, work-same,
}

abbrev Unclosed : ℕ → List ℕ → Type 0
Unclosed c closed = any (λ d. d == c) closed ≡ false

-- The channels that were made are below `next_chan`, and the one in the field is open.
record IsOpen (m : StackManager) : Type 0 where
  made : All (λ d. d < m.next_chan) m.closed
  unclosed : (c : ℕ) → m.stop_signal ≡ some c → (c < m.next_chan) × Unclosed c m.closed

weaken : (n : ℕ) (cs : List ℕ) → All (λ d. d < n) cs → All (λ d. d < suc n) cs
weaken n [] h = tt
weaken n (c ∷ cs) h = (omega arith, weaken n cs h.1)

fresh : (n : ℕ) (cs : List ℕ) → All (λ d. d < n) cs → Unclosed n cs
fresh n [] h = refl
fresh n (c ∷ cs) h = ground (arith, fresh n cs h.1)

SameSignals-IsOpen : {m m' : StackManager} → SameSignals m m' → IsOpen m → IsOpen m'
SameSignals-IsOpen {m} {m'} e h = record {
  made = subst₂ (λ n cs. All (λ d. d < n) cs) (sym e.next_chan) (sym e.closed) h.made;
  unclosed =
      λ c p. let u = h.unclosed c (sym e.stop_signal ∙ p) in (rw e.next_chan u.0, rw e.closed u.1);
}

start-IsOpen :
    (m : StackManager) (o : Option ℕ) → m.stop_signal ≡ o → IsOpen m → IsOpen (start_found m o)
unfolding start_found
start-IsOpen m (some c) e h = h
start-IsOpen m none e h = record {
  made = weaken m.next_chan m.closed h.made;
  unclosed = λ c p.
      let q : m.next_chan ≡ c = cc in
      (omega (arith, q), subst (λ i. Unclosed i m.closed) q (fresh m.next_chan m.closed h.made));
}

stop-IsOpen :
    (m : StackManager) (o : Option ℕ) → m.stop_signal ≡ o → IsOpen m → IsOpen (stop_found m o)
unfolding stop_found
stop-IsOpen m none e h = h
stop-IsOpen m (some c) e h = record { made = ((h.unclosed c e).0, h.made); unclosed = λ d p. cc }

sees_stop-IsOpen : (m : StackManager) → IsOpen m → sees_stop m ≡ false
unfolding sees_stop
sees_stop-IsOpen m h =
    elim m.stop_signal
        as (λ o.
          m.stop_signal ≡ o
          → (elim o as (λ _. Bool) [ none ↦ false | some c ↦ any (λ d. d == c) m.closed ])
            ≡ false) [ none ↦ λ e. refl | some c ↦ λ e. (h.unclosed c e).1 ]
      refl

-- A change of other fields.
same_fields :
    (m m' : StackManager)
    → m'.stop_signal ≡ m.stop_signal
    → m'.closed ≡ m.closed
    → m'.next_chan ≡ m.next_chan
    → m'.workers ≡ m.workers
    → SameSignals m m'
same_fields m m' a b c d = record { stop_signal = a; closed = b; next_chan = c; workers = d }

deployer_built-same :
    (m : StackManager) (e : Error) (d : Deployer) → SameSignals m (deployer_built m e d).0
unfolding deployer_built
deployer_built-same m (some e) d = same_fields m m refl refl refl refl
deployer_built-same m none d = same_fields m _ refl refl refl refl

module _ (out : Outside) where
  set_engine_status-IsOpen :
      (wanted : EngineType) (m : StackManager)
      → IsOpen m
      → IsOpen (set_engine_status out wanted m).0
  unfolding set_engine_status switch_engine stop
  set_engine_status-IsOpen wanted m h =
      let m₁ : StackManager = record m { engine_type = wanted } in
      let stopped =
        stop-IsOpen m₁ m.stop_signal refl
          (SameSignals-IsOpen (same_fields m m₁ refl refl refl refl) h) in
      elim (EngineType-discrete wanted m.engine_type)
        as (λ t.
          IsOpen
            (elim t as (λ _. StackManager × Error) [
              | yes _ ↦ (m, none)
              | no _ ↦ switch_engine out wanted (stop m₁)
            ]).0) [
              | yes _ ↦ h
              | no _ ↦
                  SameSignals-IsOpen (deployer_built-same _ _ _)
                    (SameSignals-IsOpen (same_fields (stop m₁) _ refl refl refl refl) stopped)
            ]

  turn-IsOpen : (m : StackManager) → IsOpen m → IsOpen (turn out m)
  unfolding turn
  turn-IsOpen m h =
      if-elim IsOpen (m.workers == 0) (λ _. h)
        (λ _.
          if-elim IsOpen (sees_stop m) (λ _. record { made = h.made; unclosed = h.unclosed })
            (λ _. SameSignals-IsOpen (work-same out m) h))

  step-IsOpen : (m : StackManager) (e : Event) → IsOpen m → IsOpen (step out m e)
  unfolding step deploy_stack delete_stack start stop
  step-IsOpen m (polled versions) h =
      SameSignals-IsOpen (update_stacks_status-same out m versions) h
  step-IsOpen m (deploy_command sd) h =
      SameSignals-IsOpen (build_deployer_params-same out sd false m) h
  step-IsOpen m (delete_command sd) h =
      SameSignals-IsOpen (build_deployer_params-same out sd true m) h
  step-IsOpen m (engine wanted) h = set_engine_status-IsOpen wanted m h
  step-IsOpen m starts h = start-IsOpen m m.stop_signal refl h
  step-IsOpen m stops h = stop-IsOpen m m.stop_signal refl h
  step-IsOpen m turns h = turn-IsOpen m h

  run-IsOpen : (m : StackManager) (es : List Event) → IsOpen m → IsOpen (run out m es)
  unfolding run
  run-IsOpen m [] h = h
  run-IsOpen m (e ∷ es) h = run-IsOpen (step out m e) es (step-IsOpen m e h)

  new-IsOpen : IsOpen new_stack_manager
  unfolding new_stack_manager
  new-IsOpen = record { made = tt; unclosed = λ c p. cc }

  turn-workers : (m : StackManager) → IsOpen m → (turn out m).workers ≡ m.workers
  unfolding turn
  turn-workers m h =
      if-elim (λ (r : StackManager). r.workers ≡ m.workers) (m.workers == 0) (λ _. refl)
        (λ _.
          if-elim (λ (r : StackManager). r.workers ≡ m.workers) (sees_stop m)
            (λ seen. cc (sees_stop-IsOpen m h)) (λ _. (work-same out m).workers))

  set_engine_status-workers :
      (wanted : EngineType) (m : StackManager)
      → (set_engine_status out wanted m).0.workers ≡ 0 + m.workers
  unfolding set_engine_status switch_engine deployer_built stop stop_found
  set_engine_status-workers wanted m = ground arith

  -- How many goroutines an event starts.
  abbrev started : StackManager → Event → ℕ
  started m starts = if is_some m.stop_signal then 0 else 1
  started m _ = 0

  start_found-workers :
      (m : StackManager) (o : Option ℕ)
      → (start_found m o).workers ≡ (if is_some o then 0 else 1) + m.workers
  unfolding start_found
  start_found-workers m none = omega arith
  start_found-workers m (some c) = omega arith

  stop_found-workers : (m : StackManager) (o : Option ℕ) → (stop_found m o).workers ≡ 0 + m.workers
  unfolding stop_found
  stop_found-workers m none = omega arith
  stop_found-workers m (some c) = omega arith

  step-workers :
      (m : StackManager) (e : Event) → IsOpen m → (step out m e).workers ≡ started m e + m.workers
  unfolding step deploy_stack delete_stack start stop
  step-workers m (polled versions) h =
      omega (arith, (update_stacks_status-same out m versions).workers)
  step-workers m (deploy_command sd) h =
      omega (arith, (build_deployer_params-same out sd false m).workers)
  step-workers m (delete_command sd) h =
      omega (arith, (build_deployer_params-same out sd true m).workers)
  step-workers m (engine wanted) h = set_engine_status-workers wanted m
  step-workers m starts h = start_found-workers m m.stop_signal
  step-workers m stops h = stop_found-workers m m.stop_signal
  step-workers m turns h = omega (arith, turn-workers m h)

  -- The goroutines that a history starts: one at each Start that finds no channel in the field.
  unfoldable pub started_by : StackManager → List Event → ℕ
  started_by m [] = 0
  started_by m (e ∷ es) = started m e + started_by (step out m e) es

  run-workers :
      (m : StackManager) (es : List Event)
      → IsOpen m
      → (run out m es).workers ≡ started_by m es + m.workers
  unfolding run started_by
  run-workers m [] h = omega arith
  run-workers m (e ∷ es) h =
      omega (arith, run-workers (step out m e) es (step-IsOpen m e h), step-workers m e h)

  -- After any history of a new stack manager, with as many calls of Stop as it may hold, the
  -- deployment goroutine does not find its channel closed, and all the goroutines that were ever
  -- started are still there.
  pub goroutines_never_return :
      (es : List Event)
      → (sees_stop (run out new_stack_manager es) ≡ false)
        × ((run out new_stack_manager es).workers ≡ started_by new_stack_manager es)
  unfolding new_stack_manager
  goroutines_never_return es = (
    sees_stop-IsOpen _ (run-IsOpen new_stack_manager es new-IsOpen),
    omega (arith, run-workers new_stack_manager es new-IsOpen),
  )

  same_engine :
      (wanted : EngineType) (m : StackManager)
      → wanted ≡ m.engine_type
      → set_engine_status out wanted m ≡ (m, none)
  unfolding set_engine_status
  same_engine wanted m e =
      elim (EngineType-discrete wanted m.engine_type)
        as (λ t.
          (elim t as (λ _. StackManager × Error) [
            | yes _ ↦ (m, none)
            | no _ ↦ switch_engine out wanted (stop (record m { engine_type = wanted }))
          ])
          ≡ (m, none)) [ yes _ ↦ refl | no n ↦ absurd (n e) ]

  failed_change :
      (wanted : EngineType) (m : StackManager) (e : Str)
      → (set_engine_status out wanted m).1 ≡ some e
      → ((set_engine_status out wanted m).0.deployer ≡ m.deployer)
        × ((set_engine_status out wanted m).0.engine_type ≡ wanted)
  unfolding set_engine_status switch_engine deployer_built stop stop_found
  failed_change wanted m e h = ground arith

  -- After an engine change that failed, the same change is reported as done, with no call made and
  -- with the deployer that was there before the failure, if any.
  pub set_engine_status_again :
      (wanted : EngineType) (m : StackManager) (e : Str)
      → (set_engine_status out wanted m).1 ≡ some e
      → (set_engine_status out wanted (set_engine_status out wanted m).0
          ≡ ((set_engine_status out wanted m).0, none))
        × ((set_engine_status out wanted m).0.deployer ≡ m.deployer)
        × ((set_engine_status out wanted m).0.engine_type ≡ wanted)
  set_engine_status_again wanted m e h =
      let (kept, there) = failed_change wanted m e h in
      (same_engine wanted _ (sym there), kept, there)
