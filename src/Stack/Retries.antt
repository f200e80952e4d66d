-- ===== src/Stack/Retries.antt =====
-- How long the worker tries to pull the images of a stack when the deployer keeps failing: the
-- attempts that reach the deployer, the turns that sleep, and the end in the status `error`.
use portainer_agent.Base.{
  ℕ, zero, suc, ◌+◌, ◌-◌, ◌/◌, leb, ltb, ◌≡◌, refl, Bool, true, false, ◌||◌, some, ◌⊎◌, inl, inr,
  [], ◌∷◌, Str, insert, map_values, if◌then◌else◌, Bool-cases, is_some, arith, ==_refl, codes, ap,
  ◌∙◌, subst,
}
use portainer_agent.Outside.{Outside, Call, Calls, StatusType, deployer_pull, set_edge_stack_status}
use portainer_agent.Stack.{
  EdgeStack, EdgeStackStatus, EdgeStackAction, StackManager, pending, retry, deploy, update,
  retry_interval, max_retries,
}
use portainer_agent.Stack.Worker.{
  first_with, next_pending_stack, next_or_retry, retried, pull_images, pull_now, pulled,
  is_attempted, after_pull, handle_action, handle_pending, work, stack_name, stack_file_location,
}

-- The attempts among the first `n` that call the deployer: all in the first hour's worth of
-- attempts, then one in 720.
unfoldable pub pulls : ℕ → ℕ
pulls n = if leb n retry_interval then n else retry_interval - 1 + n / retry_interval

abbrev pub is_pull : Call → Bool
is_pull (deployer_pull name file) = true
is_pull _ = false

abbrev pub count_pulls : Calls → ℕ
count_pulls [] = 0
count_pulls (c ∷ calls) = if is_pull c then suc (count_pulls calls) else count_pulls calls

-- Turns of the worker, one after another.
unfoldable pub turns : Outside → ℕ → StackManager → StackManager
turns out zero m = m
turns out (suc n) m = turns out n (work out m)

-- The turns among them that find no pending stack, after which the goroutine sleeps.
unfoldable pub sleeps : Outside → ℕ → StackManager → ℕ
sleeps out zero m = 0
sleeps out (suc n) m =
    (if is_some (next_pending_stack m).1 then 0 else 1) + sleeps out n (work out m)

pulls-suc : (n : ℕ) → pulls (n + 1) ≡ (if is_attempted (n + 1) then 1 else 0) + pulls n
unfolding pulls
pulls-suc n = ground arith

-- The manager with one stack.
abbrev pub alone : EdgeStack → StackManager → StackManager
alone s m = record m { stacks = (s.id, s) ∷ [] }

-- A stack at an action, a status and a number of attempts.
abbrev pub trying : EdgeStackAction → EdgeStackStatus → ℕ → EdgeStack → EdgeStack
trying a status n s = record s { action = a; status = status; retries = n }

insert-alone : (s s' : EdgeStack) → insert s.id s' ((s.id, s) ∷ []) ≡ (s.id, s') ∷ []
unfolding insert
insert-alone s s' = rw (==_refl s.id)

abbrev pull_call : EdgeStack → Call
pull_call s = deployer_pull (stack_name s) (stack_file_location s)

-- The status after a failed attempt, the `n`-th.
abbrev failed_status : ℕ → EdgeStackStatus
failed_status n = if ltb n max_retries then retry else EdgeStackStatus.error

module _ (out : Outside) (message : Str)
    (failing : (calls : Calls) (name file : Str)
      → out.fails calls (deployer_pull name file) ≡ some message)
    (s : EdgeStack) (wants : (s.pre_pull_image || s.re_pull_image) ≡ true) where
  pull-skipped :
      (a : EdgeStackAction) (n : ℕ) (m : StackManager)
      → is_attempted (n + 1) ≡ false
      → (pull_images out (trying a pending n s) (alone (trying a pending n s) m))
        ≡ (alone (trying a pending (n + 1) s) m, some (codes "skip pulling"))
  unfolding pull_images insert
  pull-skipped a n m skip = rw (wants, skip, ==_refl s.id)

  pull-failed :
      (a : EdgeStackAction) (n : ℕ) (m : StackManager)
      → is_attempted (n + 1) ≡ true
      → (calls : Calls) × (count_pulls calls ≡ suc (count_pulls m.calls))
        × (pull_images out (trying a pending n s) (alone (trying a pending n s) m) ≡ (
          alone (trying a (failed_status (n + 1)) (n + 1) s) (record m { calls = calls }),
          some message,
        ))
  unfolding pull_images pull_now pulled insert
  pull-failed a n m try = elim (Bool-cases (ltb (n + 1) max_retries)) [
    | inl again ↦ (
      pull_call (trying a pending (n + 1) s) ∷ m.calls,
      refl,
      rw (wants, try, failing, again, ==_refl s.id, ==_refl s.id, ==_refl s.id),
    )
    | inr last ↦ (
      set_edge_stack_status s.id StatusType.failed message
          ∷ pull_call (trying a pending (n + 1) s)
          ∷ m.calls,
      refl,
      rw (wants, try, failing, last, ==_refl s.id, ==_refl s.id, ==_refl s.id),
    )
  ]

  -- A turn at a pending stack is the pull, which does not succeed.
  pending-turn :
      (a : EdgeStackAction) (n : ℕ) (m m' : StackManager) (e : Str)
      → (a ≡ deploy) ⊎ (a ≡ update)
      → pull_images out (trying a pending n s) (alone (trying a pending n s) m) ≡ (m', some e)
      → work out (alone (trying a pending n s) m) ≡ m'
  unfolding work next_pending_stack next_or_retry first_with handle_pending handle_action after_pull
  pending-turn deploy n m m' e p q = rw q
  pending-turn update n m m' e p q = rw q
  pending-turn _ n m m' e p q = ground arith

  retry-turn :
      (a : EdgeStackAction) (n : ℕ) (m : StackManager)
      → work out (alone (trying a retry n s) m) ≡ alone (trying a pending n s) m
  unfolding work next_pending_stack next_or_retry first_with handle_pending retried map_values
  retry-turn a n m = refl

  error-turn :
      (a : EdgeStackAction) (n : ℕ) (m : StackManager)
      → work out (alone (trying a EdgeStackStatus.error n s) m)
        ≡ alone (trying a EdgeStackStatus.error n s) m
  unfolding work next_pending_stack next_or_retry first_with handle_pending retried map_values
  error-turn a n m = refl

  sleeps-pending :
      (a : EdgeStackAction) (n k : ℕ) (m m' : StackManager)
      → work out (alone (trying a pending n s) m) ≡ m'
      → sleeps out (suc k) (alone (trying a pending n s) m) ≡ sleeps out k m'
  unfolding sleeps next_pending_stack next_or_retry first_with
  sleeps-pending a n k m m' e = rw (← e) (omega arith)

  sleeps-retry :
      (a : EdgeStackAction) (n k : ℕ) (m : StackManager)
      → sleeps out (suc k) (alone (trying a retry n s) m)
        ≡ suc (sleeps out k (alone (trying a pending n s) m))
  unfolding sleeps next_pending_stack next_or_retry first_with
  sleeps-retry a n k m = rw (retry-turn a n m) (omega arith)

  -- The turns from the `n`-th attempt to the last: `k` of them, `z` of which sleep.
  record IsEnd (a : EdgeStackAction) (d n : ℕ) (m : StackManager) : Type 0 where
    k : ℕ
    calls : Calls
    z : ℕ
    reached :
        turns out k (alone (trying a pending n s) m)
        ≡ alone (trying a EdgeStackStatus.error max_retries s) (record m { calls = calls })
    slept : sleeps out k (alone (trying a pending n s) m) ≡ z
    lasted : k ≡ suc d + z
    pulled_all : count_pulls calls + pulls n ≡ count_pulls m.calls + pulls max_retries
    slept_all : z + 1 + pulls n ≡ pulls max_retries

  -- A turn before an end.
  IsEnd-skip :
      (a : EdgeStackAction) (d n : ℕ) (m : StackManager)
      → (a ≡ deploy) ⊎ (a ≡ update)
      → is_attempted (n + 1) ≡ false
      → IsEnd a d (n + 1) m
      → IsEnd a (suc d) n m
  unfolding turns
  IsEnd-skip a d n m p skip r =
      let t = pending-turn a n m _ _ p (pull-skipped a n m skip) in
      record {
        k = suc r.k;
        calls = r.calls;
        z = r.z;
        reached = rw t r.reached;
        slept = sleeps-pending a n r.k m _ t ∙ r.slept;
        lasted = omega (arith, r.lasted);
        pulled_all = ground (arith, r.pulled_all, pulls-suc n);
        slept_all = ground (arith, r.slept_all, pulls-suc n);
      }

  IsEnd-retry :
      (a : EdgeStackAction) (d n : ℕ) (m : StackManager)
      → (a ≡ deploy) ⊎ (a ≡ update)
      → is_attempted (n + 1) ≡ true
      → failed_status (n + 1) ≡ retry
      → ((m' : StackManager) → IsEnd a d (n + 1) m')
      → IsEnd a (suc d) n m
  unfolding turns
  IsEnd-retry a d n m p try again rest =
      let (calls, counted, pulled) = pull-failed a n m try in
      let m' : StackManager = record m { calls = calls } in
      let r = rest m' in
      let t = pending-turn a n m _ _ p pulled ∙ ap (λ st. alone (trying a st (n + 1) s) m') again in
      record {
        k = suc (suc r.k);
        calls = r.calls;
        z = suc r.z;
        reached = rw (t, retry-turn a (n + 1) m') r.reached;
        slept = sleeps-pending a n (suc r.k) m _ t ∙ sleeps-retry a (n + 1) r.k m' ∙ ap suc r.slept;
        lasted = omega (arith, r.lasted);
        pulled_all = ground (arith, r.pulled_all, pulls-suc n);
        slept_all = ground (arith, r.slept_all, pulls-suc n);
      }

  IsEnd-last :
      (a : EdgeStackAction) (n : ℕ) (m : StackManager)
      → (a ≡ deploy) ⊎ (a ≡ update)
      → n + 1 ≡ max_retries
      → IsEnd a 0 n m
  unfolding turns sleeps
  IsEnd-last a n m p last =
      let try : is_attempted (n + 1) ≡ true = rw last in
      let (calls, counted, pulled) = pull-failed a n m try in
      let t = pending-turn a n m _ _ p pulled in
      record {
        k = 1;
        calls = calls;
        z = 0;
        reached =
            t ∙ ap (λ i. alone (trying a (failed_status i) i s) (record m { calls = calls })) last;
        slept = sleeps-pending a n 0 m _ t;
        lasted = refl;
        pulled_all = ground (arith, counted, pulls-suc n, ap pulls last);
        slept_all = ground (arith, pulls-suc n, ap pulls last);
      }

  end :
      (a : EdgeStackAction) (d n : ℕ) (m : StackManager)
      → (a ≡ deploy) ⊎ (a ≡ update)
      → n + suc d ≡ max_retries
      → IsEnd a d n m
  end a zero n m p e = IsEnd-last a n m p (omega arith)
  end a (suc d) n m p e = elim (Bool-cases (is_attempted (n + 1))) [
    | inl try ↦ IsEnd-retry a d n m p try (ground arith) (λ m'. end a d (n + 1) m' p (omega arith))
    | inr skip ↦ IsEnd-skip a d n m p skip (end a d (n + 1) m p (omega arith))
  ]

  -- When every pull fails, a stack that waits for its first pull and is the only one of the
  -- manager, with nothing else happening to the manager, is given up after 121846 turns of the
  -- worker: all 120960 attempts are used, 887 of them called the deployer, and 886 turns slept.
  pub giving_up :
      (a : EdgeStackAction) (m : StackManager)
      → (a ≡ deploy) ⊎ (a ≡ update)
      → (calls : Calls) × (turns out 121846 (alone (trying a pending 0 s) m)
          ≡ alone (trying a EdgeStackStatus.error max_retries s) (record m { calls = calls }))
        × (count_pulls calls ≡ 887 + count_pulls m.calls)
        × (sleeps out 121846 (alone (trying a pending 0 s) m) ≡ 886)
  unfolding pulls
  giving_up a m p =
      let r = end a 120959 0 m p (omega arith) in
      let z : r.z ≡ 886 = omega (arith, r.slept_all) in
      let k : r.k ≡ 121846 = omega (arith, r.lasted, z) in
      (
        r.calls,
        subst
            (λ i.
              turns out i (alone (trying a pending 0 s) m)
              ≡ alone (trying a EdgeStackStatus.error max_retries s) (record m { calls = r.calls }))
            k r.reached,
        omega (arith, r.pulled_all),
        subst (λ i. sleeps out i (alone (trying a pending 0 s) m) ≡ 886) k (r.slept ∙ z),
      )
