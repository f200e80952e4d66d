-- ===== src/Base/Maps.antt =====
-- Go maps keyed by `int`, as association lists: `m[k]`, `m[k] = v`, `delete(m, k)` and the
-- in-place change of every value. A key stands once where `IsMap` holds.
use Prim.Native.Nat.{ℕ}
use mathlib.Core.Path.{◌≡◌, refl, subst₂}
use mathlib.Core.Logic.{inl, inr, ◌≢◌}
use mathlib.Core.Bool.{Bool, true, false, ◌||◌}
use mathlib.Core.Option
use mathlib.Core.Option.{Option, none, some}
use mathlib.Core.List.{List, [], ◌∷◌}
use native.Mathlib.Omega.{arith}
use portainer_agent.Base.Tests.{◌==◌, if◌then◌else◌, ==_iff, ==_refl, Bool-cases, is_some}

abbrev pub Assoc {ℓ} : Type ℓ → Type ℓ
Assoc V = List (ℕ × V)

module _ {ℓ} {V : Type ℓ} where
  unfoldable pub lookup : ℕ → Assoc V → Option V
  lookup key [] = none
  lookup key ((other, v) ∷ rest) = if other == key then some v else lookup key rest

  unfoldable pub insert : ℕ → V → Assoc V → Assoc V
  insert key new [] = (key, new) ∷ []
  insert key new ((other, old) ∷ rest) =
      if other == key then (key, new) ∷ rest else (other, old) ∷ insert key new rest

  unfoldable pub delete : ℕ → Assoc V → Assoc V
  delete k [] = []
  delete k ((j, v) ∷ m) = let rest = delete k m in if j == k then rest else (j, v) ∷ rest

  unfoldable pub map_values : (ℕ → V → V) → Assoc V → Assoc V
  map_values f [] = []
  map_values f ((k, v) ∷ m) = (k, f k v) ∷ map_values f m

  unfoldable pub contains : ℕ → Assoc V → Bool
  contains k [] = false
  contains k ((j, v) ∷ m) = (j == k) || contains k m

  pub lookup-insert :
      (key other : ℕ) (new : V) (m : Assoc V)
      → lookup other (insert key new m) ≡ (if key == other then some new else lookup other m)
  unfolding lookup insert
  lookup-insert key other new [] = refl
  lookup-insert key other new (x ∷ rest) = ground (arith, lookup-insert key other new rest)

  pub lookup-delete :
      (k j : ℕ) (m : Assoc V) → lookup j (delete k m) ≡ (if k == j then none else lookup j m)
  unfolding lookup delete
  lookup-delete k j [] = ground arith
  lookup-delete k j ((i, w) ∷ m) = ground (arith, lookup-delete k j m)

  pub lookup-map_values :
      (f : ℕ → V → V) (j : ℕ) (m : Assoc V)
      → lookup j (map_values f m) ≡ Option.map (f j) (lookup j m)
  unfolding lookup map_values
  lookup-map_values f j [] = refl
  lookup-map_values f j ((i, w) ∷ m) = ground (arith, lookup-map_values f j m)

  -- No key stands twice.
  abbrev pub IsMap : Assoc V → Type 0
  IsMap [] = Unit {0}
  IsMap ((k, v) ∷ m) = (contains k m ≡ false) × IsMap m

  pub contains-insert :
      (k j : ℕ) (v : V) (m : Assoc V)
      → contains j (insert k v m) ≡ (if k == j then true else contains j m)
  unfolding contains insert
  contains-insert k j v [] = ground arith
  contains-insert k j v ((i, w) ∷ m) = ground (arith, contains-insert k j v m)

  pub contains-delete :
      (k j : ℕ) (m : Assoc V) → contains j (delete k m) ≡ (if k == j then false else contains j m)
  unfolding contains delete
  contains-delete k j [] = ground arith
  contains-delete k j ((i, w) ∷ m) = ground (arith, contains-delete k j m)

  pub contains-map_values :
      (f : ℕ → V → V) (j : ℕ) (m : Assoc V) → contains j (map_values f m) ≡ contains j m
  unfolding contains map_values
  contains-map_values f j [] = refl
  contains-map_values f j ((i, w) ∷ m) = ground (arith, contains-map_values f j m)

  pub insert-IsMap : (k : ℕ) (v : V) (m : Assoc V) → IsMap m → IsMap (insert k v m)
  unfolding insert contains
  insert-IsMap k v [] h = (refl, tt)
  insert-IsMap k v ((j, w) ∷ m) h = ground (arith, insert-IsMap k v m h.1, contains-insert k j v m)

  pub delete-IsMap : (k : ℕ) (m : Assoc V) → IsMap m → IsMap (delete k m)
  unfolding delete contains
  delete-IsMap k [] h = tt
  delete-IsMap k ((j, w) ∷ m) h = ground (arith, delete-IsMap k m h.1, contains-delete k j m)

  pub map_values-IsMap : (f : ℕ → V → V) (m : Assoc V) → IsMap m → IsMap (map_values f m)
  unfolding map_values contains
  map_values-IsMap f [] h = tt
  map_values-IsMap f ((j, w) ∷ m) h =
      ground (arith, map_values-IsMap f m h.1, contains-map_values f j m)

-- A predicate of every entry of a map.
abbrev pub Entries {ℓ κ} : {V : Type ℓ} → (ℕ → V → Type κ) → Assoc V → Type κ
Entries P [] = Unit
Entries P ((k, v) ∷ m) = P k v × Entries P m

module _ {ℓ κ} {V : Type ℓ} (P : ℕ → V → Type κ) where
  pub Entries-insert :
      (k : ℕ) (v : V) (m : Assoc V) → P k v → Entries P m → Entries P (insert k v m)
  unfolding insert
  Entries-insert k v [] p h = (p, tt)
  Entries-insert k v ((j, w) ∷ m) p h =
      elim (j == k) as (λ b. Entries P (if b then (k, v) ∷ m else (j, w) ∷ insert k v m)) [
        | true ↦ (p, h.1)
        | false ↦ (h.0, Entries-insert k v m p h.1)
      ]

  pub Entries-delete : (k : ℕ) (m : Assoc V) → Entries P m → Entries P (delete k m)
  unfolding delete
  Entries-delete k [] h = tt
  Entries-delete k ((j, w) ∷ m) h =
      elim (j == k) as (λ b. Entries P (if b then delete k m else (j, w) ∷ delete k m)) [
        | true ↦ Entries-delete k m h.1
        | false ↦ (h.0, Entries-delete k m h.1)
      ]

  pub Entries-map_values :
      (f : ℕ → V → V)
      → ((k : ℕ) (v : V) → P k v → P k (f k v))
      → (m : Assoc V) → Entries P m
      → Entries P (map_values f m)
  unfolding map_values
  Entries-map_values f keep [] h = tt
  Entries-map_values f keep ((j, w) ∷ m) h = (keep j w h.0, Entries-map_values f keep m h.1)

  -- What holds of every entry holds of the one that a lookup finds.
  pub Entries-lookup : (k : ℕ) (v : V) (m : Assoc V) → Entries P m → lookup k m ≡ some v → P k v
  unfolding lookup
  Entries-lookup k v [] h e = cc
  Entries-lookup k v ((j, w) ∷ m) h e = elim (Bool-cases (j == k)) [
    | inl hit ↦ subst₂ P ((==_iff j k).0 hit) (ground arith) h.0
    | inr miss ↦ Entries-lookup k v m h.1 (ground arith)
  ]

pub not_contains-lookup {ℓ} :
    {V : Type ℓ} (k : ℕ) (m : Assoc V) → contains k m ≡ false → lookup k m ≡ none
unfolding contains lookup
not_contains-lookup k [] h = refl
not_contains-lookup k ((j, w) ∷ m) h = ground (arith, not_contains-lookup k m)

pub lookup-contains {ℓ} : {V : Type ℓ} (k : ℕ) (m : Assoc V) → contains k m ≡ is_some (lookup k m)
unfolding contains lookup
lookup-contains k [] = refl
lookup-contains k ((j, w) ∷ m) = ground (arith, lookup-contains k m)

pub lookup-insert_self {ℓ} :
    {V : Type ℓ} (k : ℕ) (v : V) (m : Assoc V) → lookup k (insert k v m) ≡ some v
lookup-insert_self k v m = rw (lookup-insert, ==_refl k)

pub lookup-insert_ne {ℓ} :
    {V : Type ℓ} (k j : ℕ) (v : V) (m : Assoc V) → k ≢ j → lookup j (insert k v m) ≡ lookup j m
lookup-insert_ne k j v m h = ground (arith, lookup-insert k j v m)
