-- ===== src/Browse/Elements.antt =====
-- The elements of a path that containsDotDot lets pass.
use portainer_agent.Base.{
  ℕ, ◌==◌, ◌≡◌, refl, sym, subst, Bool, true, false, not, ◌&&◌, ◌||◌, List, [], ◌∷◌, ◌++◌,
  append_assoc, append-nil, ==_iff, Str, str_eq, contains_text, has_prefix, split_on, any, All,
  if◌then◌else◌, arith,
}
use portainer_agent.Base.Decimal.{onto_first}
use portainer_agent.Browse.{
  is_slash_rune, end_field, fields_from, dots, contains_dot_dot, is_valid_path,
}

abbrev pub IsPlain : Str → Type 0
IsPlain e = str_eq e dots ≡ false

-- The first part of a split, put behind a text, and the other parts are not two dots.
abbrev Plain : Str → List Str → Type 0
Plain field [] = IsPlain field
Plain field (f ∷ fs) = IsPlain (field ++ f) × All IsPlain fs

not_dots : (field rest : Str) → IsPlain (field ++ b'\\' ∷ rest)
unfolding str_eq
not_dots [] rest = refl
not_dots (a ∷ []) rest = ground arith
not_dots (a ∷ b ∷ []) rest = ground arith
not_dots (a ∷ b ∷ c ∷ field) rest = ground arith

Plain-onto_first :
    (field : Str) (c : ℕ) (fs : List Str)
    → Plain (field ++ c ∷ []) fs
    → Plain field (onto_first c fs)
unfolding onto_first
Plain-onto_first field c [] h = (h, tt)
Plain-onto_first field c (f ∷ fs) h = (subst IsPlain (append_assoc field (c ∷ []) f) h.0, h.1)

Plain-All : (fs : List Str) → Plain [] fs → All IsPlain fs
Plain-All [] h = tt
Plain-All (f ∷ fs) h = h

Plain-backslash :
    (field : Str) (c : ℕ) (fs : List Str)
    → c ≡ b'\\'
    → All IsPlain fs
    → Plain field (onto_first c fs)
unfolding onto_first
Plain-backslash field c [] e h =
    (subst (λ d. IsPlain (field ++ d ∷ [])) (sym e) (not_dots field []), tt)
Plain-backslash field c (f ∷ fs) e h =
    (subst (λ d. IsPlain (field ++ d ∷ f)) (sym e) (not_dots field f), h.1)

both_false : (a b : Bool) → (a || b) ≡ false → (a ≡ false) × (b ≡ false)
both_false false b h = (refl, h)
both_false true b h = cc (h)

abbrev has_dots : List Str → Bool
has_dots = any (λ ent. str_eq ent dots)

end_field-IsPlain :
    (field : Str) (rest : List Str)
    → has_dots (end_field field rest) ≡ false
    → IsPlain field × (has_dots rest ≡ false)
unfolding end_field str_eq
end_field-IsPlain [] rest h = (refl, h)
end_field-IsPlain (c ∷ cs) rest h = both_false _ _ h

next_field :
    (field s : Str) (c : ℕ) (slash backslash : Bool)
    → (backslash ≡ true → c ≡ b'\\')
    → ((next : Str) → has_dots (fields_from next s) ≡ false → Plain next (split_on b'/' s))
    → has_dots (
        if slash || backslash
        then end_field field (fields_from (if slash || backslash then [] else field ++ c ∷ []) s)
        else fields_from (if slash || backslash then [] else field ++ c ∷ []) s)
      ≡ false
    → Plain field (if slash then [] ∷ split_on b'/' s else onto_first c (split_on b'/' s))
next_field field s c true backslash e ih h =
    let (plain, later) = end_field-IsPlain field _ h in
    (subst IsPlain (sym (append-nil field)) plain, Plain-All _ (ih [] later))
next_field field s c false true e ih h =
    let (plain, later) = end_field-IsPlain field _ h in
    Plain-backslash field c _ (e refl) (Plain-All _ (ih [] later))
next_field field s c false false e ih h = Plain-onto_first field c _ (ih (field ++ c ∷ []) h)

fields_from-Plain :
    (field s : Str) → has_dots (fields_from field s) ≡ false → Plain field (split_on b'/' s)
unfolding fields_from split_on is_slash_rune
fields_from-Plain field [] h =
    (subst IsPlain (sym (append-nil field)) (end_field-IsPlain field [] h).0, tt)
fields_from-Plain field (c ∷ s) h =
    next_field field s c (c == b'/') (c == b'\\') (λ e. (==_iff c b'\\').0 e)
      (λ next k. fields_from-Plain next s k) h

first_part : List Str → Str
first_part [] = []
first_part (f ∷ fs) = f

onto_first-first_part : (c : ℕ) (fs : List Str) → first_part (onto_first c fs) ≡ c ∷ first_part fs
unfolding onto_first first_part
onto_first-first_part c [] = refl
onto_first-first_part c (f ∷ fs) = refl

shorter : (a b b' : Bool) → (b ≡ false → b' ≡ false) → (a && b) ≡ false → (a && b') ≡ false
shorter true b b' k h = k h
shorter false b b' k h = refl

-- What is no prefix of a text is none of its first part.
split_on-has_prefix :
    (s p : Str) → has_prefix s p ≡ false → has_prefix (first_part (split_on b'/' s)) p ≡ false
unfolding split_on has_prefix first_part
split_on-has_prefix s [] h = cc (h)
split_on-has_prefix [] (q ∷ p) h = refl
split_on-has_prefix (c ∷ s) (q ∷ p) h =
    by_test (c == b'/') (shorter (c == q) (has_prefix s p) _ (split_on-has_prefix s p) h)
  where
    by_test :
        (b : Bool)
        → ((c == q) && has_prefix (first_part (split_on b'/' s)) p) ≡ false
        → has_prefix
            (first_part (if b then [] ∷ split_on b'/' s else onto_first c (split_on b'/' s)))
            (q ∷ p)
          ≡ false
    by_test true k = refl
    by_test false k = rw (onto_first-first_part c (split_on b'/' s)) k

no_prefix-IsPlain : (e : Str) → has_prefix e dots ≡ false → IsPlain e
unfolding has_prefix str_eq
no_prefix-IsPlain [] h = refl
no_prefix-IsPlain (a ∷ []) h = ground arith
no_prefix-IsPlain (a ∷ b ∷ []) h = ground arith
no_prefix-IsPlain (a ∷ b ∷ c ∷ e) h = ground arith

All-rest : (f : Str) (fs : List Str) → All IsPlain (f ∷ fs) → All IsPlain fs
All-rest f fs h = h.1

Plain-first :
    (c : ℕ) (fs : List Str) → IsPlain (c ∷ first_part fs) → Plain [] fs → Plain [] (onto_first c fs)
unfolding onto_first first_part
Plain-first c [] h k = (h, tt)
Plain-first c (f ∷ fs) h k = (h, k.1)

contains_text-Plain : (s : Str) → contains_text s dots ≡ false → Plain [] (split_on b'/' s)
unfolding contains_text split_on str_eq
contains_text-Plain [] h = (refl, tt)
contains_text-Plain (c ∷ s) h =
    let (no_prefix, later) = both_false _ _ h in
    by_test (c == b'/') (contains_text-Plain s later) (split_on-has_prefix (c ∷ s) dots no_prefix)
  where
    by_test :
        (b : Bool)
        → Plain [] (split_on b'/' s)
        → has_prefix
            (first_part (if b then [] ∷ split_on b'/' s else onto_first c (split_on b'/' s)))
            dots
          ≡ false
        → Plain [] (if b then [] ∷ split_on b'/' s else onto_first c (split_on b'/' s))
    by_test true k pre = (refl, Plain-All _ k)
    by_test false k pre =
        Plain-first c (split_on b'/' s)
          (no_prefix-IsPlain (c ∷ first_part (split_on b'/' s)) (
            subst (λ e. has_prefix e dots ≡ false) (onto_first-first_part c (split_on b'/' s)) pre))
          k

negated : (b : Bool) → not b ≡ true → b ≡ false
negated false h = refl
negated true h = cc (h)

-- A path that is taken for valid has no element of two dots.
pub is_valid_path-All : (v : Str) → is_valid_path v ≡ true → All IsPlain (split_on b'/' v)
unfolding is_valid_path contains_dot_dot
is_valid_path-All v h = by_test (contains_text v dots) refl h
  where
    by_test :
        (b : Bool)
        → contains_text v dots ≡ b
        → not (if not b then false else has_dots (fields_from [] v)) ≡ true
        → All IsPlain (split_on b'/' v)
    by_test true e k = Plain-All _ (fields_from-Plain [] v (negated _ k))
    by_test false e k = Plain-All _ (contains_text-Plain v e)
