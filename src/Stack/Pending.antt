-- ===== src/Stack/Pending.antt =====
-- The stack that nextPendingStack hands to the deployment goroutine.
use mathlib.Core.Option
use portainer_agent.Base.{
  ℕ, ◌≡◌, ◌≢◌, refl, ap, ◌∙◌, Option, none, some, ◌⊎◌, inl, inr, [], ◌∷◌, Assoc, lookup, contains,
  lookup-contains, lookup-map_values, arith,
}
use portainer_agent.Stack.{
  EdgeStack, EdgeStackStatus, StackManager, pending, done, error, deploying, retry,
}
use portainer_agent.Stack.Worker.{
  is_pending, first_with, retried_status, retried, next_or_retry, next_pending_stack,
}
use portainer_agent.Stack.Invariant.{IsStacks}

-- The stack that is found has the status and stands in the map under its identifier.
first_with-lookup :
    (stacks : Assoc EdgeStack) (s : EdgeStack)
    → IsStacks stacks
    → first_with is_pending stacks ≡ some s
    → (lookup s.id stacks ≡ some s) × (s.status ≡ pending)
unfolding first_with lookup contains
first_with-lookup [] s h e = cc
first_with-lookup ((k, t) ∷ rest) s h e = ground (
  arith,
  first_with-lookup rest s (record { distinct = h.distinct.1; entries = h.entries.1 }),
  lookup-contains s.id rest,
)

-- Where none is found, none has the status.
first_with-none :
    (stacks : Assoc EdgeStack) (k : ℕ) (s : EdgeStack)
    → first_with is_pending stacks ≡ none
    → lookup k stacks ≡ some s
    → s.status ≢ pending
unfolding first_with lookup
first_with-none [] k s e f = cc
first_with-none ((j, t) ∷ rest) k s e f = ground (arith, first_with-none rest k s)

retried-retry :
    (id : ℕ) (s : EdgeStack) → s.status ≡ retry → retried id s ≡ record s { status = pending }
unfolding retried
retried-retry id s r = ap (λ status. record s { status = retried_status status }) r

retried_status-other : (status : EdgeStackStatus) → status ≢ retry → retried_status status ≡ status
retried_status-other retry n = absurd (n refl)
retried_status-other EdgeStackStatus.unset n = refl
retried_status-other pending n = refl
retried_status-other done n = refl
retried_status-other error n = refl
retried_status-other deploying n = refl

retried-other : (id : ℕ) (s : EdgeStack) → s.status ≢ retry → retried id s ≡ s
unfolding retried
retried-other id s n = ap (λ status. record s { status = status }) (retried_status-other s.status n)

pub record IsPicked (m m' : StackManager) (s : EdgeStack) : Type 0 where
  pub same : m' ≡ m
  pub waits : s.status ≡ pending
  pub managed : lookup s.id m.stacks ≡ some s

pub record IsIdleTurn (m m' : StackManager) : Type 0 where
  pub nobody_waits : (id : ℕ) (s : EdgeStack) → lookup id m.stacks ≡ some s → s.status ≢ pending
  pub retries_wait :
      (id : ℕ) (s : EdgeStack)
      → lookup id m.stacks ≡ some s
      → s.status ≡ retry
      → lookup id m'.stacks ≡ some (record s { status = pending })
  pub others_stay :
      (id : ℕ) (s : EdgeStack)
      → lookup id m.stacks ≡ some s
      → s.status ≢ retry
      → lookup id m'.stacks ≡ some s
  pub none_enters : (id : ℕ) → lookup id m.stacks ≡ none → lookup id m'.stacks ≡ none

abbrev pub Picks : StackManager → StackManager × Option EdgeStack → Type 0
Picks m r =
    ((s : EdgeStack) × (r.1 ≡ some s) × IsPicked m r.0 s) ⊎ ((r.1 ≡ none) × IsIdleTurn m r.0)

-- Either a stack of the map is picked, which is pending, and nothing changes; or no stack of the
-- map is pending, and every stack whose pull is to be retried becomes pending, all else as it was.
pub next_pending_stack-Picks :
    (m : StackManager) → IsStacks m.stacks → Picks m (next_pending_stack m)
unfolding next_pending_stack
next_pending_stack-Picks m h = pick (first_with is_pending m.stacks) refl
  where
    pick : (o : Option EdgeStack) → first_with is_pending m.stacks ≡ o → Picks m (next_or_retry m o)
    pick (some s) e =
        unfold next_or_retry in
        let (found, waits) = first_with-lookup m.stacks s h e in
        inl (s, refl, record { same = refl; waits = waits; managed = found })
    pick none e =
        unfold next_or_retry in
        inr (
          refl,
          record {
            nobody_waits = λ id s f. first_with-none m.stacks id s e f;
            retries_wait = λ id s f r.
                lookup-map_values retried id m.stacks
                ∙ ap (Option.map (retried id)) f
                ∙ ap some (retried-retry id s r);
            others_stay = λ id s f r.
                lookup-map_values retried id m.stacks
                ∙ ap (Option.map (retried id)) f
                ∙ ap some (retried-other id s r);
            none_enters =
                λ id f. lookup-map_values retried id m.stacks ∙ ap (Option.map (retried id)) f;
          },
        )
