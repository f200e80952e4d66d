-- ===== src/Registry.antt =====
-- edge/registry/server.go: the credentials of a registry, for the helper of the Docker client.
pub mod Lookup
pub mod Examples
use portainer_agent.Base.{
  Bool, true, false, Option, none, some, List, [], ◌∷◌, Str, codes, str_eq, has_prefix, has_suffix,
  if◌then◌else◌,
}
use portainer_agent.Agent.{RegistryCredentials}
use portainer_agent.Stack.{StackManager}
use portainer_agent.Stack.Worker.{get_edge_registry_credentials}

-- What the handler answers: an error, nothing, or credentials.
pub data Answer : Type 0 where
  no_stack_manager invalid_server_url empty : Answer
  credentials : RegistryCredentials → Answer

-- The loop of the handler, which answers with the first credentials for a server.
unfoldable pub answer_for : Str → List RegistryCredentials → Answer
answer_for key [] = empty
answer_for key (c ∷ cs) =
    let rest = answer_for key cs in if str_eq key c.server_url then credentials c else rest

-- The loop of LookupCredentials, which returns a pointer to them, or an error.
unfoldable pub credentials_for : Str → List RegistryCredentials → Option RegistryCredentials
credentials_for key [] = none
credentials_for key (c ∷ cs) =
    let rest = credentials_for key cs in if str_eq key c.server_url then some c else rest

-- The name under which the handler looks for the credentials of a host.
unfoldable pub handler_key : Str → Str
handler_key host = if has_suffix host (codes "docker.io") then codes "docker.io" else host

-- The name under which LookupCredentials looks for them.
unfoldable pub lookup_key : Str → Str
lookup_key host = if has_suffix host (codes ".docker.io") then codes "docker.io" else host

-- The handler, when url.Parse gives a host, or an error.
unfoldable pub answer_for_host : List RegistryCredentials → Option Str → Answer
answer_for_host cs none = invalid_server_url
answer_for_host cs (some host) = answer_for (handler_key host) cs

unfoldable pub credentials_for_host :
    List RegistryCredentials → Option Str → Option RegistryCredentials
credentials_for_host cs none = none
credentials_for_host cs (some host) = credentials_for (lookup_key host) cs

-- `parse` is the host of a URL by url.Parse and Hostname.
module _ (parse : Str → Option Str) where
  unfoldable pub answer_with : Str → List RegistryCredentials → Answer
  answer_with url [] = empty
  answer_with url (c ∷ cs) =
      if has_prefix url (codes "http")
      then answer_for_host (c ∷ cs) (parse url)
      else answer_for url (c ∷ cs)

  -- LookupHandler, with the stack manager of the Edge manager, or nil.
  unfoldable pub lookup_handler : Option StackManager → Str → Answer
  lookup_handler none url = no_stack_manager
  lookup_handler (some m) url =
      if str_eq url [] then empty else answer_with url (get_edge_registry_credentials m)

  -- LookupCredentials; `none` is an error.
  unfoldable pub lookup_credentials : List RegistryCredentials → Str → Option RegistryCredentials
  lookup_credentials cs url = credentials_for_host cs (parse url)
