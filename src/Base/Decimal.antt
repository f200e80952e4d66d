-- ===== src/Base/Decimal.antt =====
-- `strconv.Atoi` and `strings.Split` of Go's standard library, and what they give back.
use Prim.Native.Nat.{ℕ, zero, suc, ◌+◌, ◌-◌, ◌*◌, ◌/◌, ◌%◌, ◌<◌, ◌^◌}
use mathlib.Core.Bool.{Bool, true, false, ◌&&◌}
use mathlib.Core.Option.{Option, none, some}
use mathlib.Core.Path.{◌≡◌, refl, ◌∙◌, ap}
use mathlib.Core.List.{List, [], ◌∷◌, ◌++◌}
use native.Mathlib.Omega.{arith}
use portainer_agent.Base.Tests.{◌==◌, ltb, leb, if◌then◌else◌, if-elim}
use portainer_agent.Base.Lists.{All}
use portainer_agent.Base.Text.{Str, itoa, itoa_from}
use portainer_agent.Base.Integers.{ℤ, pos, negsuc}

-- The digits of a number, onto what was read before them.
unfoldable pub scan : Str → ℕ → Option ℕ
scan [] n = some n
scan (c ∷ s) n =
    let rest = scan s (n * 10 + (c - b'0')) in if leb b'0' c && leb c b'9' then rest else none

-- The value of a number with its sign, in the range of a signed integer of 64 bits.
unfoldable pub signed : Bool → Option ℕ → Option ℤ
signed minus none = none
signed true (some zero) = some (pos 0)
signed true (some (suc n)) = if ltb n (2 ^ 63) then some (negsuc n) else none
signed false (some n) = if ltb n (2 ^ 63) then some (pos n) else none

unfoldable pub scan_some : Str → Option ℕ
scan_some [] = none
scan_some (c ∷ s) = scan (c ∷ s) 0

unfoldable pub atoi : Str → Option ℤ
atoi [] = none
atoi (c ∷ s) =
    if c == b'-'
    then signed true (scan_some s)
    else if c == b'+'
    then signed false (scan_some s)
    else signed false (scan_some (c ∷ s))

-- The `%d` verb on an integer.
unfoldable pub print_int : ℤ → Str
print_int (pos n) = itoa n
print_int (negsuc n) = b'-' ∷ itoa (suc n)

-- `strings.Split` with a separator of one byte.
unfoldable pub onto_first : ℕ → List Str → List Str
onto_first c [] = (c ∷ []) ∷ []
onto_first c (f ∷ fs) = (c ∷ f) ∷ fs

unfoldable pub split_on : ℕ → Str → List Str
split_on sep [] = [] ∷ []
split_on sep (c ∷ s) =
    let rest = split_on sep s in if c == sep then [] ∷ rest else onto_first c rest

abbrev pub Lacks : ℕ → Str → Type 0
Lacks sep = All (λ c. (c == sep) ≡ false)

pub split_on-last : (sep : ℕ) (s : Str) → Lacks sep s → split_on sep s ≡ s ∷ []
unfolding split_on onto_first
split_on-last sep [] h = refl
split_on-last sep (c ∷ s) h = rw (h.0, split_on-last sep s h.1)

pub split_on-append :
    (sep : ℕ) (f s : Str) → Lacks sep f → split_on sep (f ++ sep ∷ s) ≡ f ∷ split_on sep s
unfolding split_on onto_first
split_on-append sep [] s h = ground arith
split_on-append sep (c ∷ f) s h = rw (h.0, split_on-append sep f s h.1)

scan_last : (n : ℕ) (out : Str) → scan ((b'0' + n % 10) ∷ out) (n / 10) ≡ scan out n
unfolding scan
scan_last n out = ground arith

-- Reading a print back, whatever digits come after it.
scan-itoa_from : (fuel n : ℕ) (out : Str) → n < fuel → scan (itoa_from fuel n out) 0 ≡ scan out n
unfolding scan itoa_from
scan-itoa_from zero n out h = absurd (omega arith)
scan-itoa_from (suc fuel) n out h =
    if-elim (λ (s : Str). scan s 0 ≡ scan out n) (ltb n 10) (λ e. ground arith)
      (λ e. scan-itoa_from fuel (n / 10) ((b'0' + n % 10) ∷ out) (ground arith) ∙ scan_last n out)

-- What a print is made of.
itoa_from-All {ℓ} :
    (P : ℕ → Type ℓ) (digit : (n : ℕ) → n < 10 → P (b'0' + n)) (fuel n : ℕ) (out : Str)
    → All P out
    → All P (itoa_from fuel n out)
unfolding itoa_from
itoa_from-All P digit zero n out h = h
itoa_from-All P digit (suc fuel) n out h =
    if-elim (λ (s : Str). All P s) (ltb n 10) (λ e. (digit n (ground arith), h))
      (λ e. itoa_from-All P digit fuel (n / 10) _ (digit (n % 10) (omega arith), h))

-- A print starts with a digit.
abbrev pub StartsWithDigit : Str → Type 0
StartsWithDigit [] = ⊥
StartsWithDigit (c ∷ s) = (leb b'0' c && leb c b'9') ≡ true

itoa_from-StartsWithDigit :
    (fuel n : ℕ) (out : Str) → n < fuel → StartsWithDigit (itoa_from fuel n out)
unfolding itoa_from
itoa_from-StartsWithDigit zero n out h = absurd (omega arith)
itoa_from-StartsWithDigit (suc fuel) n out h =
    if-elim StartsWithDigit (ltb n 10) (λ e. ground arith)
      (λ e. itoa_from-StartsWithDigit fuel (n / 10) _ (ground arith))

scan_some-scan : (s : Str) → StartsWithDigit s → scan_some s ≡ scan s 0
unfolding scan_some
scan_some-scan [] h = absurd h
scan_some-scan (c ∷ s) h = refl

atoi-unsigned : (s : Str) → StartsWithDigit s → atoi s ≡ signed false (scan s 0)
unfolding atoi scan_some
atoi-unsigned [] h = absurd h
atoi-unsigned (c ∷ s) h = ground arith

scan-itoa : (n : ℕ) → scan (itoa n) 0 ≡ some n
unfolding itoa scan
scan-itoa n = scan-itoa_from (suc n) n [] (omega arith)

-- The integers of 64 bits.
abbrev pub IsInt64 : ℤ → Type 0
IsInt64 (pos n) = n < 2 ^ 63
IsInt64 (negsuc n) = n < 2 ^ 63

pub atoi-print_int : (z : ℤ) → IsInt64 z → atoi (print_int z) ≡ some z
unfolding print_int itoa
atoi-print_int (pos n) h =
    atoi-unsigned (itoa n) (itoa_from-StartsWithDigit (suc n) n [] (omega arith))
    ∙ ap (signed false) (scan-itoa n)
    ∙ unfold signed in ground arith
atoi-print_int (negsuc n) h =
    unfold atoi in
    ap (signed true) (
      scan_some-scan _ (itoa_from-StartsWithDigit (suc (suc n)) (suc n) [] (omega arith))
      ∙ scan-itoa (suc n))
    ∙ unfold signed in ground arith

pub print_int-All {ℓ} :
    (P : ℕ → Type ℓ) (digit : (n : ℕ) → n < 10 → P (b'0' + n)) (minus : P b'-') (z : ℤ)
    → All P (print_int z)
unfolding print_int itoa
print_int-All P digit minus (pos n) = itoa_from-All P digit (suc n) n [] tt
print_int-All P digit minus (negsuc n) = (minus, itoa_from-All P digit (suc (suc n)) (suc n) [] tt)
