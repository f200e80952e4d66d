-- ===== src/Requests/Gathering/Arrivals.antt =====
-- The answer of the cluster does not depend on the order in which its members answer.
use mathlib.Core.List.{Perm}
use mathlib.Core.List
use portainer_agent.Base.{◌≡◌, true, false, Option, none, some, List, Str, codes, has_prefix}
use portainer_agent.Requests.Gathering.{Json, AgentRequestResult, Answer, array_of, volumes_object}
use portainer_agent.Requests.Gathering.Contents.{all_items, HasOdd}

-- Both panic, or both have the same items in some order.
abbrev SameItems : Option (List Json) → Option (List Json) → Type 0
SameItems none none = Unit
SameItems (some js) (some ks) = Perm js ks
SameItems none (some ks) = ⊥
SameItems (some js) none = ⊥

SameItems-refl : (o : Option (List Json)) → SameItems o o
SameItems-refl none = tt
SameItems-refl (some js) = List.Perm.refl js

-- Two answers of one shape with the same items.
abbrev pub SameAnswer : Option Answer → Option Answer → Type 0
SameAnswer none none = Unit
SameAnswer (some (array_of js)) (some (array_of ks)) = Perm js ks
SameAnswer (some (volumes_object js)) (some (volumes_object ks)) = Perm js ks
SameAnswer (some (array_of js)) (some (volumes_object ks)) = ⊥
SameAnswer (some (volumes_object js)) (some (array_of ks)) = ⊥
SameAnswer none (some a) = ⊥
SameAnswer (some a) none = ⊥

-- The answer has the items of the results, in the shape that the path asks for; there is a panic
-- only for an odd response.
abbrev pub Gathers : Str → List AgentRequestResult → Option Answer → Type 0
Gathers path rs none = HasOdd rs
Gathers path rs (some (array_of js)) =
    (js ≡ all_items rs) × (has_prefix path (codes "/volumes") ≡ false)
Gathers path rs (some (volumes_object js)) =
    (js ≡ all_items rs) × (has_prefix path (codes "/volumes") ≡ true)
