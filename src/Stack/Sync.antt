-- ===== src/Stack/Sync.antt =====
-- What a poll response does to the stack manager: the specification that UpdateStacksStatus
-- implements, identifier by identifier.
use mathlib.Core.Option
use portainer_agent.Base.{
  ℕ, ◌==◌, ==_iff, ◌≡◌, refl, sym, Bool, true, false, not, Option, none, some, [], ◌∷◌, Assoc,
  IsMap, lookup, lookup-map_values, not_contains-lookup, lookup-contains, if-elim, if◌then◌else◌,
  subst, arith, is_some,
}
use portainer_agent.Outside.{Outside, Error}
use portainer_agent.Stack.{EdgeStack, StackManager, pending, delete}
use portainer_agent.Stack.Process.{
  process_stack, mark_removed, process_removed_stacks, process_stacks, updated,
  update_stacks_status,
}
use portainer_agent.Stack.Invariant.{IsStacks, process_stack-Keeps}
use portainer_agent.Stack.Synced.{Synced, process_stack-Synced, process_stack-other}

abbrev pub mark_deleted : EdgeStack → EdgeStack
mark_deleted s = record s { action = delete; status = pending }

-- What an identifier's stack is before and after, by the version that the response gives.
abbrev pub Expected : Option ℕ → Option EdgeStack → Option EdgeStack → Type 0
Expected none before after = after ≡ Option.map mark_deleted before
Expected (some version) before after = Synced version before after

abbrev Visited : Option ℕ → Option EdgeStack → Option EdgeStack → Type 0
Visited none before after = after ≡ before
Visited (some version) before after = Synced version before after

-- The visit of one entry, `x` to `y`, and of the entries after it, `y` to `z`.
Visited-cons :
    (b : Bool) (version : ℕ) (rest : Option ℕ) (x y z : Option EdgeStack)
    → (b ≡ true → (rest ≡ none) × Synced version x y)
    → (b ≡ false → y ≡ x)
    → Visited rest y z
    → Visited (if b then some version else rest) x z
Visited-cons true version none x y z hit miss v = rw v (hit refl).1
Visited-cons true version (some w) x y z hit miss v = cc ((hit refl).0)
Visited-cons false version rest x y z hit miss v = subst (λ t. Visited rest t z) (miss refl) v

process_stacks-Visited :
    (out : Outside) (m : StackManager) (polled : Assoc ℕ)
    → IsStacks m.stacks
    → IsMap polled
    → (process_stacks out m polled).1 ≡ none
    → (id : ℕ)
    → Visited
        (lookup id polled)
        (lookup id m.stacks)
        (lookup id (process_stacks out m polled).0.stacks)
unfolding process_stacks lookup
process_stacks-Visited out m [] h d = λ ok id. refl
process_stacks-Visited out m ((k, version) ∷ rest) h d =
    let r : StackManager × Error = process_stack out m k version in
    let again : StackManager × Error = process_stacks out r.0 rest in
    let ih = process_stacks-Visited out r.0 rest (process_stack-Keeps out m k version h) d.1 in
    (elim r.1
        as (λ x.
          r.1 ≡ x
          → (elim x as (λ _. StackManager × Error) [ some err ↦ (r.0, some err) | none ↦ again ]).1
            ≡ none
          → (id : ℕ)
          → Visited (if k == id then some version else lookup id rest) (lookup id m.stacks) (
              lookup id
                (elim x as (λ _. StackManager × Error) [
                  | some err ↦ (r.0, some err)
                  | none ↦ again
                ]).0.stacks)) [
                  | some err ↦ λ e ok id. cc
                  | none ↦ λ e ok id.
                      Visited-cons (k == id) version (lookup id rest) _ (lookup id r.0.stacks) _
                        (λ hit. (
                          ground (arith, not_contains-lookup k rest),
                          subst
                              (λ i.
                                Synced version (lookup i m.stacks)
                                  (lookup i (process_stack out m k version).0.stacks))
                              ((==_iff k id).0 hit) (process_stack-Synced out m k version h e),
                        ))
                        (λ miss. process_stack-other out m k version id h (ground arith)) (ih ok id)
                ])
      refl

Expected-visit :
    (o : Option ℕ) (before after : Option EdgeStack)
    → Visited o before after
    → Expected o before (Option.map (λ s. if is_some o then s else mark_deleted s) after)
Expected-visit none before after v = rw v
Expected-visit (some version) before none v = v
Expected-visit (some version) before (some s) v = v

-- What the removal pass adds to a visit: the stacks that the response does not name are marked.
Expected-removed :
    (polled : Assoc ℕ) (id : ℕ) (before after : Option EdgeStack)
    → Visited (lookup id polled) before after
    → Expected (lookup id polled) before (Option.map (mark_removed polled id) after)
unfolding mark_removed
Expected-removed polled id before after v =
    subst
      (λ b.
        Expected (lookup id polled) before
          (Option.map (λ s. if b then s else mark_deleted s) after))
      (sym (lookup-contains id polled)) (Expected-visit (lookup id polled) before after v)

Expected-updated :
    (polled : Assoc ℕ) (r : StackManager × Error) (before : Option EdgeStack) (id : ℕ)
    → (r.1 ≡ none → Visited (lookup id polled) before (lookup id r.0.stacks))
    → (updated polled r).1 ≡ none
    → Expected (lookup id polled) before (lookup id (updated polled r).0.stacks)
unfolding updated process_removed_stacks
Expected-updated polled (m, some e) before id v ok = cc
Expected-updated polled (m, none) before id v ok =
    rw lookup-map_values (Expected-removed polled id before (lookup id m.stacks) (v refl))

-- When an update of an enabled manager succeeds, every identifier is as the response asks: a stack
-- that the response names is at its version, untouched if it was there already, else marked for
-- update or deployment; any other stack is marked for deletion and changed in nothing else, and
-- an identifier that neither side has stays unknown. The response may be visited in any order.
pub update_stacks_status-Expected :
    (out : Outside) (m : StackManager) (polled : Assoc ℕ)
    → IsStacks m.stacks
    → IsMap polled
    → m.is_enabled ≡ true
    → (update_stacks_status out m polled).1 ≡ none
    → (id : ℕ)
    → Expected
        (lookup id polled)
        (lookup id m.stacks)
        (lookup id (update_stacks_status out m polled).0.stacks)
unfolding update_stacks_status
update_stacks_status-Expected out m polled h d on =
    if-elim
      (λ (r : StackManager × Error).
        r.1 ≡ none
        → (id : ℕ) → Expected (lookup id polled) (lookup id m.stacks) (lookup id r.0.stacks))
      (not m.is_enabled) (λ off. cc)
      (λ _ ok id.
        Expected-updated polled (process_stacks out m polled) _ id
          (λ fine. process_stacks-Visited out m polled h d fine id) ok)
