-- ===== src/Base/Text.antt =====
-- Go strings, which are sequences of bytes, as lists of numbers.
use Prim.Native.Nat.{ℕ, zero, suc, ◌+◌, ◌/◌, ◌%◌}
use Prim.Native.Char.{code}
use Prim.Native.String.{String}
use mathlib.Core.Bool.{Bool, true, false, ◌&&◌, ◌||◌}
use mathlib.Core.Path.{◌≡◌, refl, subst}
use mathlib.Core.Logic.{◌↔◌}
use native.Mathlib.Omega.{arith}
use mathlib.Core.List.{List, [], ◌∷◌}
use portainer_agent.Base.Tests.{◌==◌, ltb, if◌then◌else◌}

abbrev pub Str : Type 0
Str = List ℕ

-- The bytes of an ASCII literal.
abbrev pub codes : String → Str
codes String.[] = []
codes (String.◌∷◌ c s) = code c ∷ codes s

-- Go's `a == b` on strings.
unfoldable pub str_eq : Str → Str → Bool
str_eq [] [] = true
str_eq [] (y ∷ ys) = false
str_eq (x ∷ xs) [] = false
str_eq (x ∷ xs) (y ∷ ys) = (x == y) && str_eq xs ys

-- `strings.HasPrefix`, and `strings.HasSuffix` as the prefix of the reversed strings.
unfoldable pub has_prefix : Str → Str → Bool
has_prefix s [] = true
has_prefix [] (p ∷ ps) = false
has_prefix (c ∷ s) (p ∷ ps) = (c == p) && has_prefix s ps

-- `strings.Contains`
unfoldable pub contains_text : Str → Str → Bool
unfolding has_prefix
contains_text [] sub = has_prefix [] sub
contains_text (c ∷ s) sub = has_prefix (c ∷ s) sub || contains_text s sub

unfoldable pub reverse_onto : Str → Str → Str
reverse_onto out [] = out
reverse_onto out (c ∷ s) = reverse_onto (c ∷ out) s

unfoldable pub has_suffix : Str → Str → Bool
unfolding reverse_onto has_prefix
has_suffix s p = has_prefix (reverse_onto [] s) (reverse_onto [] p)

-- `strconv.Itoa` and the `%d` verb on a number that is not negative: the decimal digits, last
-- digit first onto `out`. Each round divides by ten, so `suc n` rounds are enough.
unfoldable pub itoa_from : ℕ → ℕ → Str → Str
itoa_from zero n out = out
itoa_from (suc fuel) n out =
    let rest = itoa_from fuel (n / 10) ((b'0' + n % 10) ∷ out) in
    if ltb n 10 then (b'0' + n) ∷ out else rest

unfoldable pub itoa : ℕ → Str
unfolding itoa_from
itoa n = itoa_from (suc n) n []

itoa_720 : itoa 720 ≡ codes "720"
unfolding itoa
itoa_720 = refl

pub str_eq_iff : (s t : Str) → (str_eq s t ≡ true) ↔ (s ≡ t)
unfolding str_eq
str_eq_iff s t = (sound s t, complete s t)
  where
    sound : (s t : Str) → str_eq s t ≡ true → s ≡ t
    sound [] [] h = refl
    sound [] (y ∷ ys) h = cc
    sound (x ∷ xs) [] h = cc
    sound (x ∷ xs) (y ∷ ys) h = ground (arith, sound xs ys)

    reflexive : (s : Str) → str_eq s s ≡ true
    reflexive [] = refl
    reflexive (x ∷ xs) = ground (arith, reflexive xs)

    complete : (s t : Str) → s ≡ t → str_eq s t ≡ true
    complete s t e = subst (λ u. str_eq s u ≡ true) e (reflexive s)
