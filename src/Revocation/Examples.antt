-- ===== src/Revocation/Examples.antt =====
-- The theorem of the revocation at a list that names another certificate.
use portainer_agent.Base.{refl, true, false, some, [], ◌∷◌, codes, str_eq}
use portainer_agent.Revocation.{
  Certificate, CertificateList, Web, new_service, verify_certificate, rev_check, check_urls,
  current_crl, get_issuer, fresh_or_fetched, crl_at, fetch_checked, fetched_crl, signed_by,
  listed_or_next, is_listed,
}
use portainer_agent.Revocation.Valid.{IsValid, verify_certificate-Cleared}

abbrev certificate : Certificate
certificate = record {
  not_before = 1;
  not_after = 9;
  crl_distribution_points = codes "ldap://ca" ∷ codes "http://ca/crl" ∷ [];
  issuing_certificate_url = codes "http://ca" ∷ [];
  serial_number = 7;
}

abbrev revoked : CertificateList
revoked = record { next_update = 9; revoked_certificates = 3 ∷ []; signature = codes "ca" }

abbrev web : Web
web = record {
  now = 5;
  ldap_url = λ url. str_eq url (codes "ldap://ca");
  fetch_remote = λ fetched url. some certificate;
  fetch_crl = λ fetched url. some revoked;
  check_crl_signature = λ issuer crl. true;
  has_expired = λ crl time. false;
}

verify_certificate-Cleared_example : IsValid web certificate new_service
unfolding verify_certificate rev_check check_urls current_crl get_issuer fresh_or_fetched crl_at
    fetch_checked fetched_crl signed_by listed_or_next is_listed new_service str_eq
verify_certificate-Cleared_example = verify_certificate-Cleared web certificate new_service refl
