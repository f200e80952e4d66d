-- ===== src/Requests/Gathering/Contents.antt =====
-- The items in the answer of the cluster are those of its members, with their nodes' names.
use portainer_agent.Base.{
  ◌≡◌, refl, sym, ap, subst, Option, none, some, ◌⊎◌, inl, inr, List, [], ◌∷◌, ◌++◌, map, Str,
  codes,
}
use portainer_agent.Requests.Gathering.{
  Json, json_null, json_bool, json_number, json_text, json_array, json_object, Fields, Result, ok,
  error, panic, set_field, metadata, decorate_object, AgentRequestResult, join, single,
  decorate_all, content_of, aggregate,
}

-- The items of a response, none for an error.
abbrev pub items_in : Result (List Json) → List Json
items_in (ok js) = js
items_in (error e) = []
items_in panic = []

-- An object with the name of a node in its metadata.
abbrev pub tagged : Str → Json → Json
tagged name (json_object fs) = json_object (set_field (codes "Portainer") (metadata name) fs)
tagged name j = j

-- All items of all responses, in the order of the results.
abbrev pub all_items : List AgentRequestResult → List Json
all_items [] = []
all_items (r ∷ rs) = map (tagged r.node_name) (items_in r.response_content) ++ all_items rs

-- An item is no object.
abbrev HasOther : List Json → Type 0
HasOther [] = ⊥
HasOther (json_object fs ∷ js) = HasOther js
HasOther (j ∷ js) = Unit

-- A response is of a form that the agent does not expect, or has an item that is no object.
abbrev IsOdd : Result (List Json) → Type 0
IsOdd (ok js) = HasOther js
IsOdd (error e) = ⊥
IsOdd panic = Unit

abbrev pub HasOdd : List AgentRequestResult → Type 0
HasOdd [] = ⊥
HasOdd (r ∷ rs) = IsOdd r.response_content ⊎ HasOdd rs

-- What is gathered of items, and of results.
abbrev Decorates : Str → List Json → Option (List Json) → Type 0
Decorates name js none = HasOther js
Decorates name js (some ks) = ks ≡ map (tagged name) js

decorated_other :
    (name : Str) (j : Json) (js : List Json)
    → HasOther (j ∷ js)
    → decorate_object name j ≡ none
    → Decorates name (j ∷ js) (join (single (decorate_object name j)) (decorate_all name js))
decorated_other name j js h e = rw e (unfold single join in h)

decorate_rest :
    (name : Str) (fs : Fields) (js : List Json) (o : Option (List Json))
    → Decorates name js o
    → Decorates name (json_object fs ∷ js) (join (single (decorate_object name (json_object fs))) o)
unfolding join single decorate_object
decorate_rest name fs js none h = h
decorate_rest name fs js (some ks) h = ap (λ ls. tagged name (json_object fs) ∷ ls) h

decorate_all-Decorates : (name : Str) (js : List Json) → Decorates name js (decorate_all name js)
unfolding decorate_all decorate_object
decorate_all-Decorates name [] = refl
decorate_all-Decorates name (json_object fs ∷ js) =
    decorate_rest name fs js _ (decorate_all-Decorates name js)
decorate_all-Decorates name (json_null ∷ js) = decorated_other name json_null js tt refl
decorate_all-Decorates name (json_bool b ∷ js) = decorated_other name (json_bool b) js tt refl
decorate_all-Decorates name (json_number n ∷ js) = decorated_other name (json_number n) js tt refl
decorate_all-Decorates name (json_text t ∷ js) = decorated_other name (json_text t) js tt refl
decorate_all-Decorates name (json_array ks ∷ js) = decorated_other name (json_array ks) js tt refl

abbrev pub Collects : List AgentRequestResult → Option (List Json) → Type 0
Collects rs none = HasOdd rs
Collects rs (some js) = js ≡ all_items rs

join-Collects :
    (name : Str) (js : List Json) (r : AgentRequestResult) (rs : List AgentRequestResult)
    (a b : Option (List Json))
    → r.node_name ≡ name
    → r.response_content ≡ ok js
    → Decorates name js a
    → Collects rs b
    → Collects (r ∷ rs) (join a b)
unfolding join
join-Collects name js r rs none b n c h k = inl (subst IsOdd (sym c) h)
join-Collects name js r rs (some ks) none n c h k = inr k
join-Collects name js r rs (some ks) (some ls) n c h k = rw (n, c, h, k) refl

result-Collects :
    (r : AgentRequestResult) (rs : List AgentRequestResult) (c : Result (List Json))
    (b : Option (List Json))
    → r.response_content ≡ c
    → Collects rs b
    → Collects (r ∷ rs) (join (content_of r.node_name c) b)
unfolding content_of
result-Collects r rs (ok js) b e k =
    join-Collects r.node_name js r rs _ b refl e (decorate_all-Decorates r.node_name js) k
result-Collects r rs (error m) none e k = unfold join in inr k
result-Collects r rs (error m) (some ls) e k = unfold join in rw (e, k) refl
result-Collects r rs panic b e k = unfold join in inl (subst IsOdd (sym e) tt)

pub aggregate-Collects : (rs : List AgentRequestResult) → Collects rs (aggregate rs)
unfolding aggregate
aggregate-Collects [] = refl
aggregate-Collects (r ∷ rs) = result-Collects r rs r.response_content _ refl (aggregate-Collects rs)
