-- ===== src/Registry/Lookup.antt =====
-- What the two lookups of credentials find, and where they differ.
use portainer_agent.Base.{
  ◌≡◌, ◌≢◌, refl, sym, ap, subst, true, false, Option, none, some, List, [], ◌∷◌, ◌++◌, Str, codes,
  str_eq, str_eq_iff, has_prefix, has_suffix, All, if-elim,
}
use portainer_agent.Agent.{RegistryCredentials}
use portainer_agent.Stack.{StackManager}
use portainer_agent.Stack.Worker.{get_edge_registry_credentials}
use portainer_agent.Registry.{
  Answer, no_stack_manager, invalid_server_url, empty, credentials, answer_for, credentials_for,
  handler_key, lookup_key, answer_for_host, credentials_for_host, answer_with, lookup_handler,
  lookup_credentials,
}

-- The credentials are the first ones of a list that are for a server.
pub record IsFirstFor (key : Str) (cs : List RegistryCredentials) (c : RegistryCredentials)
    : Type 0 where
  pub before : List RegistryCredentials
  pub after : List RegistryCredentials
  pub place : cs ≡ before ++ c ∷ after
  pub for_server : c.server_url ≡ key
  pub others : All (λ (d : RegistryCredentials). d.server_url ≢ key) before

abbrev pub HasNone : Str → List RegistryCredentials → Type 0
HasNone key cs = All (λ (d : RegistryCredentials). d.server_url ≢ key) cs

-- What the handler answers, and what LookupCredentials returns, for the name of a server.
abbrev pub Answers : Str → List RegistryCredentials → Answer → Type 0
Answers key cs (credentials c) = IsFirstFor key cs c
Answers key cs empty = HasNone key cs
Answers key cs no_stack_manager = ⊥
Answers key cs invalid_server_url = ⊥

abbrev pub Returns : Str → List RegistryCredentials → Option RegistryCredentials → Type 0
Returns key cs (some c) = IsFirstFor key cs c
Returns key cs none = HasNone key cs

other_server :
    (key : Str) (c : RegistryCredentials) → str_eq key c.server_url ≡ false → c.server_url ≢ key
other_server key c differs same = cc (differs, (str_eq_iff key c.server_url).1 (sym same))

first-IsFirstFor :
    (key : Str) (c : RegistryCredentials) (cs : List RegistryCredentials)
    → str_eq key c.server_url ≡ true
    → IsFirstFor key (c ∷ cs) c
first-IsFirstFor key c cs h = record {
  before = [];
  after = cs;
  place = refl;
  for_server = sym ((str_eq_iff key c.server_url).0 h);
  others = tt;
}

later-IsFirstFor :
    (key : Str) (c d : RegistryCredentials) (cs : List RegistryCredentials)
    → str_eq key c.server_url ≡ false
    → IsFirstFor key cs d
    → IsFirstFor key (c ∷ cs) d
later-IsFirstFor key c d cs h f = record {
  before = c ∷ f.before;
  after = f.after;
  place = ap (λ l. c ∷ l) f.place;
  for_server = f.for_server;
  others = (other_server key c h, f.others);
}

later-Answers :
    (key : Str) (c : RegistryCredentials) (cs : List RegistryCredentials) (a : Answer)
    → str_eq key c.server_url ≡ false
    → Answers key cs a
    → Answers key (c ∷ cs) a
later-Answers key c cs (credentials d) h f = later-IsFirstFor key c d cs h f
later-Answers key c cs empty h f = (other_server key c h, f)
later-Answers key c cs no_stack_manager h f = f
later-Answers key c cs invalid_server_url h f = f

answer_for-Answers :
    (key : Str) (cs : List RegistryCredentials) → Answers key cs (answer_for key cs)
unfolding answer_for
answer_for-Answers key [] = tt
answer_for-Answers key (c ∷ cs) =
    if-elim (Answers key (c ∷ cs)) (str_eq key c.server_url) {x = credentials c}
      {y = answer_for key cs} (λ same. first-IsFirstFor key c cs same)
      (λ differs. later-Answers key c cs _ differs (answer_for-Answers key cs))

later-Returns :
    (key : Str) (c : RegistryCredentials) (cs : List RegistryCredentials)
    (o : Option RegistryCredentials)
    → str_eq key c.server_url ≡ false
    → Returns key cs o
    → Returns key (c ∷ cs) o
later-Returns key c cs (some d) h f = later-IsFirstFor key c d cs h f
later-Returns key c cs none h f = (other_server key c h, f)

credentials_for-Returns :
    (key : Str) (cs : List RegistryCredentials) → Returns key cs (credentials_for key cs)
unfolding credentials_for
credentials_for-Returns key [] = tt
credentials_for-Returns key (c ∷ cs) =
    if-elim (Returns key (c ∷ cs)) (str_eq key c.server_url) {x = some c}
      {y = credentials_for key cs} (λ same. first-IsFirstFor key c cs same)
      (λ differs. later-Returns key c cs _ differs (credentials_for-Returns key cs))

-- The name of the server that the credentials of a host are for, by the suffix that stands for
-- Docker Hub.
pub data ServerOf (suffix host : Str) : Str → Type 0 where
  hub : has_suffix host suffix ≡ true → ServerOf suffix host (codes "docker.io")
  own : has_suffix host suffix ≡ false → ServerOf suffix host host

handler_key-ServerOf : (host : Str) → ServerOf (codes "docker.io") host (handler_key host)
unfolding handler_key
handler_key-ServerOf host =
    if-elim (ServerOf (codes "docker.io") host) (has_suffix host (codes "docker.io")) (λ e. hub e)
      (λ e. own e)

lookup_key-ServerOf : (host : Str) → ServerOf (codes ".docker.io") host (lookup_key host)
unfolding lookup_key
lookup_key-ServerOf host =
    if-elim (ServerOf (codes ".docker.io") host) (has_suffix host (codes ".docker.io")) (λ e. hub e)
      (λ e. own e)

module _ (parse : Str → Option Str) where
  answer_with_host :
      (cs : List RegistryCredentials) (url host : Str)
      → has_prefix url (codes "http") ≡ true
      → parse url ≡ some host
      → answer_with parse url cs ≡ answer_for (handler_key host) cs
  unfolding answer_with answer_for_host answer_for
  answer_with_host [] url host http parsed = refl
  answer_with_host (c ∷ cs) url host http parsed = rw (http, parsed) refl

  -- For the URL of a host, the handler answers with the first credentials that are for the host,
  -- or for "docker.io" if the name of the host ends with this, and LookupCredentials returns the
  -- first ones that are for the host, or for "docker.io" if the name ends with ".docker.io"; where
  -- there are none, the handler answers with nothing and LookupCredentials returns an error.
  pub lookup_handler-lookup_credentials :
      (m : StackManager) (url host : Str)
      → str_eq url [] ≡ false
      → has_prefix url (codes "http") ≡ true
      → parse url ≡ some host
      → ((key : Str) × ServerOf (codes "docker.io") host key
          × Answers key (get_edge_registry_credentials m) (lookup_handler parse (some m) url))
        × ((key : Str) × ServerOf (codes ".docker.io") host key
            × Returns key
                (get_edge_registry_credentials m)
                (lookup_credentials parse (get_edge_registry_credentials m) url))
  unfolding lookup_handler lookup_credentials credentials_for_host
  lookup_handler-lookup_credentials m url host filled http parsed =
      let cs = get_edge_registry_credentials m in
      (
        (
          handler_key host,
          handler_key-ServerOf host,
          rw filled (
              subst (Answers (handler_key host) cs) (sym (answer_with_host cs url host http parsed))
                (answer_for-Answers (handler_key host) cs)),
        ),
        (
          lookup_key host,
          lookup_key-ServerOf host,
          rw parsed (credentials_for-Returns (lookup_key host) cs),
        ),
      )
