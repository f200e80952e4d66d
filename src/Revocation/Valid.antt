-- ===== src/Revocation/Valid.antt =====
-- What it means that a certificate is taken for valid.
use portainer_agent.Base.{
  ℕ, ◌==◌, leb, ◌≡◌, ◌≢◌, refl, sym, subst, true, false, Option, none, some, ◌⊎◌, inl, inr, List,
  [], ◌∷◌, Str, str_eq, str_eq_iff, All, any, Bool-cases, if◌then◌else◌, if-elim, arith,
}
use portainer_agent.Revocation.{
  Certificate, CertificateList, Web, Service, crl_at, set_crl, Verdict, decided, failed, get_issuer,
  signed_by, fetched_crl, fetch_checked, fresh_or_fetched, current_crl, is_listed, listed_or_next,
  check_urls, rev_check, verify_certificate,
}

-- The issuer, if one was got, has signed the list.
abbrev pub IsSigned : Web → Option Certificate → CertificateList → Type 0
IsSigned web none crl = Unit
IsSigned web (some issuer) crl = web.check_crl_signature issuer crl ≡ true

signed_by-IsSigned :
    (web : Web) (issuer : Option Certificate) (crl : CertificateList)
    → signed_by web issuer crl ≡ true
    → IsSigned web issuer crl
unfolding signed_by
signed_by-IsSigned web none crl h = tt
signed_by-IsSigned web (some issuer) crl h = h

-- No serial number of the list is that of the certificate.
abbrev pub IsClearOf : Certificate → CertificateList → Type 0
IsClearOf cert crl = All (λ serial. serial ≢ cert.serial_number) crl.revoked_certificates

not_among :
    (n : ℕ) (serials : List ℕ)
    → any (λ serial. serial == n) serials ≡ false
    → All (λ serial. serial ≢ n) serials
not_among n [] h = tt
not_among n (serial ∷ serials) h = (ground arith, not_among n serials (ground arith))

is_listed-IsClearOf :
    (web : Web) (cert : Certificate) (crl : CertificateList)
    → is_listed web cert crl ≡ false
    → IsClearOf cert crl
unfolding is_listed
is_listed-IsClearOf web cert crl h = not_among cert.serial_number crl.revoked_certificates h

crl_at-set_crl :
    (url u : Str) (crl c : CertificateList) (m : List (Str × CertificateList))
    → crl_at u (set_crl url crl m) ≡ some c
    → ((url ≡ u) × (crl ≡ c)) ⊎ (crl_at u m ≡ some c)
unfolding crl_at set_crl
crl_at-set_crl url u crl c [] h = elim (Bool-cases (str_eq url u)) [
  | inl same ↦ inl ((str_eq_iff url u).0 same, ground (arith, h, same))
  | inr differs ↦ ground (arith, h, differs)
]
crl_at-set_crl url u crl c ((other, old) ∷ m) h = elim (Bool-cases (str_eq other url)) [
  | inl at_url ↦ elim (Bool-cases (str_eq url u)) [
    | inl same ↦ inl ((str_eq_iff url u).0 same, ground (arith, h, at_url, same))
    | inr differs ↦ inr (
        subst (λ k. (if str_eq k u then some old else crl_at u m) ≡ some c)
          (sym ((str_eq_iff other url).0 at_url)) (ground (arith, h, at_url, differs)))
  ]
  | inr elsewhere ↦ elim (Bool-cases (str_eq other u)) [
    | inl same ↦ inr (ground (arith, h, elsewhere, same))
    | inr differs ↦ elim (crl_at-set_crl url u crl c m (ground (arith, h, elsewhere, differs))) [
      | inl new ↦ inl new
      | inr kept ↦ inr (ground (arith, kept, differs))
    ]
  ]
]

module _ (web : Web) (cert : Certificate) where
  -- The issuer that is got from a list of addresses: the certificate of the first one that answers
  -- with one, and none if none does. The addresses asked for are added to those fetched before.
  pub data Got : List Str → List Str → List Str → Option Certificate → Type 0 where
    no_address : {fetched : List Str} → Got fetched [] fetched none
    got_first :
        {fetched urls : List Str} {url : Str} {issuer : Certificate}
        → web.fetch_remote fetched url ≡ some issuer
        → Got fetched (url ∷ urls) (url ∷ fetched) (some issuer)
    got_later :
        {fetched fetched' urls : List Str} {url : Str} {issuer : Option Certificate}
        → web.fetch_remote fetched url ≡ none
        → Got (url ∷ fetched) urls fetched' issuer
        → Got fetched (url ∷ urls) fetched' issuer

  get_issuer-Got :
      (fetched urls : List Str)
      → Got fetched urls (get_issuer web fetched urls).0 (get_issuer web fetched urls).1
  unfolding get_issuer
  get_issuer-Got fetched [] = no_address
  get_issuer-Got fetched (url ∷ urls) =
      by_answer (get_issuer-Got (url ∷ fetched) urls) (web.fetch_remote fetched url) refl
    where
      by_answer :
          Got
            (url ∷ fetched)
            urls
            (get_issuer web (url ∷ fetched) urls).0
            (get_issuer web (url ∷ fetched) urls).1
          → (o : Option Certificate) → web.fetch_remote fetched url ≡ o
          → let r : List Str × Option Certificate = elim o [
            | some issuer ↦ (url ∷ fetched, some issuer)
            | none ↦ get_issuer web (url ∷ fetched) urls
          ] in
            Got fetched (url ∷ urls) r.0 r.1
      by_answer rest (some issuer) e = got_first e
      by_answer rest none e = got_later e rest

  -- The list was fetched from the address, and the issuer of the certificate, if one was got just
  -- before, has signed it.
  pub record Checked (url : Str) (crl : CertificateList) : Type 0 where
    pub before : List Str
    pub fetched : List Str
    pub issuer : Option Certificate
    pub got : Got before cert.issuing_certificate_url fetched issuer
    pub fetch : web.fetch_crl fetched url ≡ some crl
    pub signed : IsSigned web issuer crl

  module _ (first : Service) where
    -- Where the list that is looked into comes from: the service had it at first and it has not
    -- expired, or it was fetched and checked.
    abbrev pub Source : Str → CertificateList → Type 0
    Source url crl =
        ((crl_at url first.crl_set ≡ some crl) × (web.has_expired crl web.now ≡ false))
        ⊎ Checked url crl

    -- A list that does not name the certificate.
    pub record Cleared (url : Str) : Type 0 where
      pub crl : CertificateList
      pub source : Source url crl
      pub not_listed : IsClearOf cert crl

    -- The service has the lists that it had at first and checked ones.
    abbrev Trusted : Service → Type 0
    Trusted s =
        (url : Str) (crl : CertificateList)
        → crl_at url s.crl_set ≡ some crl
        → (crl_at url first.crl_set ≡ some crl) ⊎ Checked url crl

    abbrev Fetched : Str → Service × Option CertificateList → Type 0
    Fetched url (s, none) = Trusted s
    Fetched url (s, some crl) = Source url crl × Trusted s

    module _ (s : Service) (url : Str) (fetched : List Str) (issuer : Option Certificate)
        (got : Got s.fetched cert.issuing_certificate_url fetched issuer)
        (trusted : Trusted s) where
      -- A checked list enters the service.
      set_crl-Trusted :
          (crl : CertificateList) (l : List Str)
          → Checked url crl
          → Trusted (record s { fetched = l; crl_set = set_crl url crl s.crl_set })
      set_crl-Trusted crl l checked u c e = elim (crl_at-set_crl url u crl c s.crl_set e) [
        | inl (at_url, same) ↦
            inr (subst (λ v. Checked v c) at_url (subst (λ d. Checked url d) same checked))
        | inr kept ↦ trusted u c kept
      ]

      fetched_crl-Fetched :
          (l : List Str) (o : Option CertificateList)
          → web.fetch_crl fetched url ≡ o
          → Fetched url (fetched_crl web url issuer (record s { fetched = l }) o)
      unfolding fetched_crl
      fetched_crl-Fetched l none e = trusted
      fetched_crl-Fetched l (some crl) e =
          if-elim (λ (r : Service × Option CertificateList). Fetched url r)
            (signed_by web issuer crl)
            {x = (record s { fetched = l; crl_set = set_crl url crl s.crl_set }, some crl)}
            {y = (record s { fetched = l }, none)}
            (λ signed.
              let checked : Checked url crl = record {
                before = s.fetched;
                fetched = fetched;
                issuer = issuer;
                got = got;
                fetch = e;
                signed = signed_by-IsSigned web issuer crl signed;
              } in
              (inr checked, set_crl-Trusted crl l checked))
            (λ _. trusted)

      fresh_or_fetched-Fetched :
          (o : Option CertificateList)
          → crl_at url s.crl_set ≡ o
          → Fetched url (fresh_or_fetched web url (record s { fetched = fetched }) issuer o)
      unfolding fresh_or_fetched fetch_checked
      fresh_or_fetched-Fetched none e = fetched_crl-Fetched _ _ refl
      fresh_or_fetched-Fetched (some crl) e =
          if-elim (λ (r : Service × Option CertificateList). Fetched url r)
            (web.has_expired crl web.now)
            {x = fetch_checked web url (record s { fetched = fetched }) issuer}
            {y = (record s { fetched = fetched }, some crl)} (λ _. fetched_crl-Fetched _ _ refl)
            (λ fresh. (
              elim (trusted url crl e) [ inl had ↦ inl (had, fresh) | inr checked ↦ inr checked ],
              trusted,
            ))

    current_crl-Fetched :
        (s : Service) (url : Str) → Trusted s → Fetched url (current_crl web cert url s)
    unfolding current_crl
    current_crl-Fetched s url trusted =
        let (fetched, issuer) = get_issuer web s.fetched cert.issuing_certificate_url in
        fresh_or_fetched-Fetched s url fetched issuer
          (get_issuer-Got s.fetched cert.issuing_certificate_url) trusted (crl_at url s.crl_set)
          refl

    -- What a verdict that the certificate is not revoked says of the addresses.
    abbrev Clears : List Str → Service × Verdict → Type 0
    Clears urls o = o.1 ≡ decided false → All (λ url. (web.ldap_url url ≡ true) ⊎ Cleared url) urls

    listed_or_next-Clears :
        (url : Str) (urls : List Str) (next : Service → Service × Verdict)
        (o : Service × Option CertificateList)
        → Fetched url o
        → ((t : Service) → Trusted t → Clears urls (next t))
        → Clears (url ∷ urls) (listed_or_next web cert next o)
    unfolding listed_or_next
    listed_or_next-Clears url urls next (t, none) source later = λ h. cc (h)
    listed_or_next-Clears url urls next (t, some crl) (source, trusted) later =
        if-elim (λ (o : Service × Verdict). Clears (url ∷ urls) o) (is_listed web cert crl)
          {x = (t, decided true)} {y = next t} (λ _ h. cc (h))
          (λ clear h. (
            inr (record {
              crl = crl;
              source = source;
              not_listed = is_listed-IsClearOf web cert crl clear;
            }),
            later t trusted h,
          ))

    check_urls-Clears :
        (urls : List Str) (s : Service) → Trusted s → Clears urls (check_urls web cert urls s)
    unfolding check_urls
    check_urls-Clears [] s trusted = λ h. tt
    check_urls-Clears (url ∷ urls) s trusted =
        if-elim (λ (o : Service × Verdict). Clears (url ∷ urls) o) (web.ldap_url url)
          {x = check_urls web cert urls s}
          {y = listed_or_next web cert (check_urls web cert urls) (current_crl web cert url s)}
          (λ ldap h. (inl ldap, check_urls-Clears urls s trusted h))
          (λ _.
            listed_or_next-Clears url urls (check_urls web cert urls) _
              (current_crl-Fetched s url trusted) (check_urls-Clears urls))

  -- The certificate is in force, and each list of revoked ones that counts is clear of it.
  abbrev pub IsValid : Service → Type 0
  IsValid s =
      (leb cert.not_after web.now ≡ false)
      × (leb web.now cert.not_before ≡ false)
      × All (λ url. (web.ldap_url url ≡ true) ⊎ Cleared s url) cert.crl_distribution_points

  -- A certificate that is found not to be revoked, with no error, is valid now, and for each of its
  -- addresses but those of LDAP a list was looked into that has no entry with its serial number: one
  -- that the service had before and that has not expired, or one that was fetched from that address
  -- and that the issuer, if one was got, has signed.
  pub verify_certificate-Cleared :
      (s : Service) → (verify_certificate web cert s).1 ≡ decided false → IsValid s
  unfolding verify_certificate rev_check
  verify_certificate-Cleared s =
      if-elim (λ (o : Service × Verdict). o.1 ≡ decided false → IsValid s)
        (leb cert.not_after web.now) {x = (s, failed true)}
        {y = if leb web.now cert.not_before
          then (s, failed true)
          else check_urls web cert cert.crl_distribution_points s}
        (λ _ h. cc (h))
        (λ expires.
          if-elim (λ (o : Service × Verdict). o.1 ≡ decided false → IsValid s)
            (leb web.now cert.not_before) {x = (s, failed true)}
            {y = check_urls web cert cert.crl_distribution_points s} (λ _ h. cc (h))
            (λ begins h. (
              expires,
              begins,
              check_urls-Clears s cert.crl_distribution_points s (λ url crl e. inl e) h,
            )))
