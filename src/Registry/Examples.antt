-- ===== src/Registry/Examples.antt =====
-- The theorem of the lookups for a host of Docker Hub.
use portainer_agent.Base.{refl, Option, some, [], ◌∷◌, Str, codes, str_eq, has_prefix}
use portainer_agent.Agent.{RegistryCredentials}
use portainer_agent.Stack.{StackManager, deploying, new_edge_stack}
use portainer_agent.Stack.Examples.{manager}
use portainer_agent.Stack.Worker.{get_edge_registry_credentials}
use portainer_agent.Registry.{lookup_handler, lookup_credentials}
use portainer_agent.Registry.Lookup.{ServerOf, Answers, Returns, lookup_handler-lookup_credentials}

abbrev hub_credentials : RegistryCredentials
hub_credentials = record {
  server_url = codes "docker.io";
  username = codes "me";
  secret = codes "x";
}

abbrev own_credentials : RegistryCredentials
own_credentials = record {
  server_url = codes "registry";
  username = codes "me";
  secret = codes "y";
}

-- A stack with credentials is being deployed.
abbrev deploying_manager : StackManager
deploying_manager = record manager {
  stacks =
      (
        7,
        record (new_edge_stack 7 1 deploying) {
          registry_credentials = own_credentials ∷ hub_credentials ∷ [];
        },
      )
      ∷ [];
}

abbrev parse : Str → Option Str
parse url = some (codes "index.docker.io")

lookup_handler-lookup_credentials_example :
    ((key : Str) × ServerOf (codes "docker.io") (codes "index.docker.io") key
      × Answers key
          (get_edge_registry_credentials deploying_manager)
          (lookup_handler parse (some deploying_manager) (codes "https://index.docker.io/v1/")))
    × ((key : Str) × ServerOf (codes ".docker.io") (codes "index.docker.io") key
        × Returns key (get_edge_registry_credentials deploying_manager) (
            lookup_credentials parse
              (get_edge_registry_credentials deploying_manager)
              (codes "https://index.docker.io/v1/")))
unfolding str_eq has_prefix
lookup_handler-lookup_credentials_example =
    lookup_handler-lookup_credentials parse deploying_manager (codes "https://index.docker.io/v1/")
      (codes "index.docker.io") refl refl refl
