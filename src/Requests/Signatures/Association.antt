-- ===== src/Requests/Signatures/Association.antt =====
-- The association of a key: all requests that a service without a secret serves are signed with
-- one key.
use portainer_agent.Base.{◌≡◌, ◌≢◌, true, some, ◌⊎◌, List, [], ◌∷◌, Str}
use portainer_agent.Requests.{Request}
use portainer_agent.Requests.Signatures.{
  EcdsaKey, Cryptography, EcdsaService, new_ecdsa_service, returns, Verdict, served, forbidden,
  crashed, decode_and_verify_signature,
}

-- What holds of each request of a list that was served.
abbrev pub Served : (Request → Type 0) → List Request → List Verdict → Type 0
Served P [] vs = Unit
Served P (r ∷ rs) [] = Unit
Served P (r ∷ rs) (served ∷ vs) = P r × Served P rs vs
Served P (r ∷ rs) (forbidden ∷ vs) = Served P rs vs
Served P (r ∷ rs) (crashed ∷ vs) = Served P rs vs

-- A service with a key.
abbrev pub known : EcdsaKey → Str → EcdsaService
known key secret = record { public_key = some key; secret = secret }

module _ (crypto : Cryptography) where
  -- The signature of a request is one under a key, of the message that a secret stands for.
  abbrev pub SignedBy : EcdsaKey → Str → Request → Type 0
  SignedBy key secret r = decode_and_verify_signature crypto secret r.signature key ≡ returns true

  -- What a service with a key does with a request.
  abbrev Holds : EcdsaKey → Str → Request → EcdsaService × Verdict → Type 0
  Holds key secret r o = (o.0 ≡ known key secret) × (o.1 ≡ served → SignedBy key secret r)

  -- What a service without a key and a secret does with a request: it stays as it is and does not
  -- serve it, or takes a key.
  abbrev Fresh : Request → EcdsaService × Verdict → Type 0
  Fresh r o =
      ((o.0 ≡ new_ecdsa_service []) × (o.1 ≢ served)) ⊎ ((key : EcdsaKey) × Holds key [] r o)
