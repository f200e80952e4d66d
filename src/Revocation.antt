-- ===== src/Revocation.antt =====
-- edge/revoke/revoke.go: whether the certificate of the server is revoked. The parsing and the
-- checking of certificates belong to libraries.
pub mod Valid
pub mod Examples
use portainer_agent.Base.{
  ℕ, ◌==◌, ltb, leb, Bool, true, false, not, ◌||◌, Option, none, some, List, [], ◌∷◌, Str, str_eq,
  any, if◌then◌else◌,
}

-- What is read of a certificate. Times and serial numbers are compared only.
pub record Certificate : Type 0 where
  pub not_before : ℕ
  pub not_after : ℕ
  pub crl_distribution_points : List Str
  pub issuing_certificate_url : List Str
  pub serial_number : ℕ

-- A list of revoked certificates, by their serial numbers, with the time at which it expires.
pub record CertificateList : Type 0 where
  pub next_update : ℕ
  pub revoked_certificates : List ℕ
  pub signature : Str

-- The web and the libraries. A fetch is answered by the fetches before it and its address.
pub record Web : Type 0 where
  pub now : ℕ
  -- Whether the address parses and has the scheme "ldap".
  pub ldap_url : Str → Bool
  -- fetchRemote: a certificate, or an error.
  pub fetch_remote : List Str → Str → Option Certificate
  -- fetchCRL: a list, or an error.
  pub fetch_crl : List Str → Str → Option CertificateList
  -- CheckCRLSignature
  pub check_crl_signature : Certificate → CertificateList → Bool
  -- HasExpired
  pub has_expired : CertificateList → ℕ → Bool

-- Service: its map of lists by their address, and the addresses fetched so far, newest first.
pub record Service : Type 0 where
  pub hard_fail : Bool
  pub crl_set : List (Str × CertificateList)
  pub fetched : List Str

unfoldable pub new_service : Service
new_service = record { hard_fail = false; crl_set = []; fetched = [] }

unfoldable pub crl_at : Str → List (Str × CertificateList) → Option CertificateList
crl_at url [] = none
crl_at url ((other, crl) ∷ rest) = if str_eq other url then some crl else crl_at url rest

unfoldable pub set_crl :
    Str → CertificateList → List (Str × CertificateList) → List (Str × CertificateList)
set_crl url crl [] = (url, crl) ∷ []
set_crl url crl ((other, old) ∷ rest) =
    if str_eq other url then (url, crl) ∷ rest else (other, old) ∷ set_crl url crl rest

-- The `revoked` of the two results, or an error with it.
pub data Verdict : Type 0 where
  decided : Bool → Verdict
  failed : Bool → Verdict

module _ (web : Web) where
  unfoldable pub get_issuer : List Str → List Str → List Str × Option Certificate
  get_issuer fetched [] = (fetched, none)
  get_issuer fetched (url ∷ urls) =
      let rest = get_issuer (url ∷ fetched) urls in
      elim (web.fetch_remote fetched url) [
        | some issuer ↦ (url ∷ fetched, some issuer)
        | none ↦ rest
      ]

  -- Whether the issuer, if there is one, has signed the list.
  unfoldable pub signed_by : Option Certificate → CertificateList → Bool
  signed_by none crl = true
  signed_by (some issuer) crl = web.check_crl_signature issuer crl

  unfoldable pub fetched_crl :
      Str → Option Certificate → Service → Option CertificateList → Service × Option CertificateList
  fetched_crl url issuer s none = (s, none)
  fetched_crl url issuer s (some crl) =
      if signed_by issuer crl
      then (record s { crl_set = set_crl url crl s.crl_set }, some crl)
      else (s, none)

  unfoldable pub fetch_checked :
      Str → Service → Option Certificate → Service × Option CertificateList
  fetch_checked url s issuer =
      fetched_crl url issuer (record s { fetched = url ∷ s.fetched }) (web.fetch_crl s.fetched url)

  unfoldable pub fresh_or_fetched :
      Str → Service → Option Certificate → Option CertificateList → Service × Option CertificateList
  fresh_or_fetched url s issuer none = fetch_checked url s issuer
  fresh_or_fetched url s issuer (some crl) =
      if web.has_expired crl web.now then fetch_checked url s issuer else (s, some crl)

  -- The list to look into, or an error. The issuer is fetched also if the list is there.
  unfoldable pub current_crl : Certificate → Str → Service → Service × Option CertificateList
  current_crl cert url s =
      let (fetched, issuer) = get_issuer s.fetched cert.issuing_certificate_url in
      fresh_or_fetched url (record s { fetched = fetched }) issuer (crl_at url s.crl_set)

  unfoldable pub is_listed : Certificate → CertificateList → Bool
  is_listed cert crl = any (λ serial. serial == cert.serial_number) crl.revoked_certificates

  -- The rest of the loop of revCheck, with the list of one address.
  unfoldable pub listed_or_next :
      Certificate
      → (Service → Service × Verdict)
      → Service × Option CertificateList
      → Service × Verdict
  listed_or_next cert next (s, none) = (s, failed s.hard_fail)
  listed_or_next cert next (s, some crl) = if is_listed cert crl then (s, decided true) else next s

  unfoldable pub check_urls : Certificate → List Str → Service → Service × Verdict
  check_urls cert [] s = (s, decided false)
  check_urls cert (url ∷ urls) s =
      let next = check_urls cert urls in
      if web.ldap_url url then next s else listed_or_next cert next (current_crl cert url s)

  unfoldable pub rev_check : Certificate → Service → Service × Verdict
  rev_check cert s = check_urls cert cert.crl_distribution_points s

  unfoldable pub verify_certificate : Certificate → Service → Service × Verdict
  verify_certificate cert s =
      if leb cert.not_after web.now
      then (s, failed true)
      else if leb web.now cert.not_before
      then (s, failed true)
      else rev_check cert s
