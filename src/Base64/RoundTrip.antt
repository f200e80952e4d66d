-- ===== src/Base64/RoundTrip.antt =====
-- Decoding gives back what was encoded.
use portainer_agent.Base.{
  ℕ, ◌<◌, ◌==◌, ◌≡◌, refl, false, ◌||◌, some, List, [], ◌∷◌, map, Str, All, arith,
}
use portainer_agent.Base64.{encode_sextet, decode_sextet, split, encode, sextets, join, decode}

decode_sextet-encode_sextet : (v : ℕ) → v < 64 → decode_sextet (encode_sextet v) ≡ some v
unfolding decode_sextet encode_sextet
decode_sextet-encode_sextet v h = ground arith

not_newline : (v : ℕ) → v < 64 → (encode_sextet v == 10 || encode_sextet v == 13) ≡ false
unfolding encode_sextet
not_newline v h = ground arith

sextets-map : (vs : List ℕ) → All (λ v. v < 64) vs → sextets (map encode_sextet vs) ≡ some vs
unfolding sextets
sextets-map [] h = refl
sextets-map (v ∷ vs) h =
    rw (not_newline v h.0, decode_sextet-encode_sextet v h.0, sextets-map vs h.1)

-- A Go string holds bytes.
abbrev pub IsBytes : Str → Type 0
IsBytes = All (λ b. b < 256)

split_bound : (s : Str) → IsBytes s → All (λ v. v < 64) (split s)
unfolding split
split_bound [] h = tt
split_bound (a ∷ []) h = omega arith
split_bound (a ∷ b ∷ []) h = omega arith
split_bound (a ∷ b ∷ c ∷ rest) h =
    (omega arith, (omega arith, (omega arith, (omega arith, split_bound rest h.1.1.1))))

join-split : (s : Str) → IsBytes s → join (split s) ≡ some s
unfolding join split
join-split [] h = refl
join-split (a ∷ []) h = ground arith
join-split (a ∷ b ∷ []) h = ground arith
join-split (a ∷ b ∷ c ∷ rest) h = ground (arith, join-split rest h.1.1.1)

-- Every string of bytes is read back from its encoding.
pub decode-encode : (s : Str) → IsBytes s → decode (encode s) ≡ some s
unfolding decode encode
decode-encode s h = rw (sextets-map (split s) (split_bound s h), decode) (join-split s h)
