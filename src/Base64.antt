-- ===== src/Base64.antt =====
-- `base64.RawStdEncoding` of Go's standard library, which edge/key.go and
-- edge/scheduler/scheduler.go use: no padding, newlines skipped, trailing bits ignored.
pub mod RoundTrip
use portainer_agent.Base.{
  ℕ, ◌+◌, ◌-◌, ◌*◌, ◌/◌, ◌%◌, ◌==◌, ltb, leb, ◌≡◌, refl, ◌||◌, ◌&&◌, Option, none, some, List, [],
  ◌∷◌, map, Str, codes, if◌then◌else◌,
}

unfoldable pub encode_sextet : ℕ → ℕ
encode_sextet v =
    if ltb v 26
    then b'A' + v
    else if ltb v 52
    then b'a' + (v - 26)
    else if ltb v 62
    then b'0' + (v - 52)
    else if v == 62
    then b'+'
    else b'/'

unfoldable pub decode_sextet : ℕ → Option ℕ
decode_sextet c =
    if leb b'A' c && leb c b'Z'
    then some (c - b'A')
    else if leb b'a' c && leb c b'z'
    then some (c - b'a' + 26)
    else if leb b'0' c && leb c b'9'
    then some (c - b'0' + 52)
    else if c == b'+'
    then some 62
    else if c == b'/'
    then some 63
    else none

-- Three bytes are four groups of six bits; one or two bytes at the end are two or three.
unfoldable pub split : Str → List ℕ
split [] = []
split (a ∷ []) = a / 4 ∷ (a % 4) * 16 ∷ []
split (a ∷ b ∷ []) = a / 4 ∷ ((a % 4) * 16 + b / 16) ∷ (b % 16) * 4 ∷ []
split (a ∷ b ∷ c ∷ rest) =
    a / 4 ∷ ((a % 4) * 16 + b / 16) ∷ ((b % 16) * 4 + c / 64) ∷ c % 64 ∷ split rest

unfoldable pub encode : Str → Str
encode bytes = map encode_sextet (split bytes)

-- The groups of six bits; a byte that is none, but for a newline, is an error.
unfoldable pub sextets : Str → Option (List ℕ)
sextets [] = some []
sextets (c ∷ s) =
    let rest = sextets s in
    if c == 10 || c == 13 then rest else (elim (decode_sextet c) [
      | none ↦ none
      | some v ↦ elim rest [ none ↦ none | some vs ↦ some (v ∷ vs) ]
    ])

unfoldable pub join : List ℕ → Option Str
join [] = some []
join (v ∷ []) = none
join (v ∷ w ∷ []) = some ((v * 4 + w / 16) ∷ [])
join (v ∷ w ∷ x ∷ []) = some ((v * 4 + w / 16) ∷ ((w % 16) * 16 + x / 4) ∷ [])
join (v ∷ w ∷ x ∷ y ∷ rest) = elim (join rest) [
  | none ↦ none
  | some bytes ↦ some ((v * 4 + w / 16) ∷ ((w % 16) * 16 + x / 4) ∷ ((x % 4) * 64 + y) ∷ bytes)
]

-- `none` is the error for corrupt input.
unfoldable pub decode : Str → Option Str
decode s = elim (sextets s) [ none ↦ none | some vs ↦ join vs ]

encode_man : encode (codes "Man!") ≡ codes "TWFuIQ"
unfolding encode split encode_sextet
encode_man = refl

decode_man : decode (codes "TWFuIQ") ≡ some (codes "Man!")
unfolding decode sextets join decode_sextet
decode_man = refl
