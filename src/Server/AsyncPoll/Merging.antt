-- ===== src/Server/AsyncPoll/Merging.antt =====
-- The statuses of two maps, one over the other.
use portainer_agent.Base.{
  ℕ, ◌==◌, ◌≡◌, refl, ◌∙◌, ap, Bool, true, false, Option, none, some, [], ◌∷◌, Assoc, lookup,
  lookup-insert, if◌then◌else◌,
}
use portainer_agent.Server.AsyncClient.{Status}
use portainer_agent.Server.AsyncPoll.{merge}

abbrev pub first_of : Option Status → Option Status → Option Status
first_of (some s) _ = some s
first_of none o = o

pub lookup-merge :
    (id : ℕ) (last next : Assoc Status)
    → lookup id (merge last next) ≡ first_of (lookup id next) (lookup id last)
unfolding merge lookup
lookup-merge id last [] = refl
lookup-merge id last ((j, s) ∷ next) =
    lookup-insert j id s (merge last next)
    ∙ ap (λ o. if j == id then some s else o) (lookup-merge id last next)
    ∙ branches (j == id)
  where
    branches :
        (b : Bool)
        → (if b then some s else first_of (lookup id next) (lookup id last))
          ≡ first_of (if b then some s else lookup id next) (lookup id last)
    branches true = refl
    branches false = refl
