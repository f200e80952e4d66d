-- ===== src/Requests/Signatures.antt =====
-- http/security/notary.go, the check of the signature of each request, and crypto/ecdsa.go, the
-- service that checks it. The cryptography is the standard library's, and a parameter.
pub mod Association
use portainer_agent.Base.{
  ℕ, zero, suc, ◌+◌, ◌-◌, ◌*◌, ◌/◌, ◌==◌, leb, Bool, true, false, not, ◌&&◌, ◌||◌, Option, none,
  some, List, [], ◌∷◌, Str, length, codes, str_eq, if◌then◌else◌,
}
use portainer_agent.Base64
use portainer_agent.Requests.{Request}

-- What x509.ParsePKIXPublicKey makes of a DER text: a key of ECDSA, with the size of its curve, or
-- one of another algorithm.
pub record EcdsaKey : Type 0 where
  pub point : Str
  pub bit_size : ℕ

pub data PublicKey : Type 0 where
  ecdsa_key : EcdsaKey → PublicKey
  other_key : PublicKey

pub record Cryptography : Type 0 where
  -- `none` is an error.
  pub parse_public_key : Str → Option PublicKey
  -- The MD5 digest of a text.
  pub digest : Str → Str
  -- ecdsa.Verify with a digest and the two numbers of a signature, as their bytes.
  pub verify : EcdsaKey → Str → Str → Str → Bool

-- ECDSAService
pub record EcdsaService : Type 0 where
  pub public_key : Option EcdsaKey
  pub secret : Str

unfoldable pub new_ecdsa_service : Str → EcdsaService
new_ecdsa_service secret = record { public_key = none; secret = secret }

unfoldable pub is_associated : EcdsaService → Bool
is_associated service = elim service.public_key [
  | some key ↦ true
  | none ↦ not (str_eq service.secret [])
]

-- A result, an error, or the panic of a type assertion.
pub data Outcome (A : Type 0) : Type 0 where
  returns : A → Outcome A
  fails panics : Outcome A

unfoldable pub hex_digit : ℕ → Option ℕ
hex_digit c =
    if leb b'0' c && leb c b'9'
    then some (c - b'0')
    else if leb b'a' c && leb c b'f'
    then some (c - b'a' + 10)
    else if leb b'A' c && leb c b'F'
    then some (c - b'A' + 10)
    else none

unfoldable pub hex_byte : Option ℕ → Option ℕ → Option Str → Option Str
hex_byte (some high) (some low) (some rest) = some ((high * 16 + low) ∷ rest)
hex_byte _ _ _ = none

-- hex.DecodeString
unfoldable pub hex_decode : Str → Option Str
hex_decode [] = some []
hex_decode (c ∷ []) = none
hex_decode (c ∷ d ∷ rest) = hex_byte (hex_digit c) (hex_digit d) (hex_decode rest)

-- The first bytes of a text, and those after them.
unfoldable pub take : ℕ → Str → Str
take zero s = []
take (suc n) [] = []
take (suc n) (c ∷ s) = c ∷ take n s

unfoldable pub drop : ℕ → Str → Str
drop zero s = s
drop (suc n) [] = []
drop (suc n) (c ∷ s) = drop n s

-- The message that Portainer signs: a constant of agent.go, or the secret.
unfoldable pub signed_message : Str → Str
signed_message secret = if str_eq secret [] then codes "Portainer-App" else secret

pub data Verdict : Type 0 where
  served forbidden crashed : Verdict

-- A service without a secret keeps the first key that it parses.
unfoldable pub associate : EcdsaService → Option PublicKey → EcdsaService × Outcome EcdsaKey
associate service none = (service, fails)
associate service (some other_key) = (service, panics)
associate service (some (ecdsa_key key)) = (
  if str_eq service.secret [] then record service { public_key = some key } else service,
  returns key,
)

-- What the notary makes of a request: the next handler serves it, or it is answered with 403.
unfoldable pub verdict : Outcome Bool → Verdict
verdict (returns true) = served
verdict (returns false) = forbidden
verdict fails = forbidden
verdict panics = crashed

unfoldable pub judged : EcdsaService × Outcome Bool → EcdsaService × Verdict
judged (service, o) = (service, verdict o)

unfoldable pub next_verdicts : (EcdsaService → List Verdict) → EcdsaService × Verdict → List Verdict
next_verdicts later (service, v) = v ∷ later service

module _ (crypto : Cryptography) where
  unfoldable pub parse_decoded : EcdsaService → Option Str → EcdsaService × Outcome EcdsaKey
  parse_decoded service none = (service, fails)
  parse_decoded service (some der) = associate service (crypto.parse_public_key der)

  unfoldable pub decode_and_parse_public_key :
      EcdsaService → Option EcdsaKey → Str → EcdsaService × Outcome EcdsaKey
  decode_and_parse_public_key service (some key) text = (service, returns key)
  decode_and_parse_public_key service none text = parse_decoded service (hex_decode text)

  unfoldable pub verify_decoded : Str → EcdsaKey → Option Str → Outcome Bool
  verify_decoded secret key none = fails
  verify_decoded secret key (some decoded) =
      let key_size = key.bit_size / 8 in
      if length decoded == 2 * key_size
      then returns (
          crypto.verify key (crypto.digest (signed_message secret)) (take key_size decoded)
            (drop key_size decoded))
      else returns false

  unfoldable pub decode_and_verify_signature : Str → Str → EcdsaKey → Outcome Bool
  decode_and_verify_signature secret signature key =
      verify_decoded secret key (Base64.decode signature)

  unfoldable pub verify_parsed : Str → EcdsaService × Outcome EcdsaKey → EcdsaService × Outcome Bool
  verify_parsed signature (service, returns key) =
      (service, decode_and_verify_signature service.secret signature key)
  verify_parsed signature (service, fails) = (service, fails)
  verify_parsed signature (service, panics) = (service, panics)

  unfoldable pub verify_signature : Str → Str → EcdsaService → EcdsaService × Outcome Bool
  verify_signature signature key service =
      verify_parsed signature (decode_and_parse_public_key service service.public_key key)

  unfoldable pub digital_signature_verification :
      Bool → Request → EcdsaService → EcdsaService × Verdict
  digital_signature_verification false r service = (service, served)
  digital_signature_verification true r service =
      if str_eq r.public_key [] || str_eq r.signature []
      then (service, forbidden)
      else judged (verify_signature r.signature r.public_key service)

  -- The verdicts on the requests of a list, of which each is handled after the one before. The
  -- handlers of a server run beside each other, and read and write the key without a lock; what
  -- they make of it then is not modelled.
  unfoldable pub verify_all : List Request → EcdsaService → List Verdict
  verify_all [] service = []
  verify_all (r ∷ rs) service =
      next_verdicts (verify_all rs) (digital_signature_verification true r service)
