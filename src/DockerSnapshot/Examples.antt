-- ===== src/DockerSnapshot/Examples.antt =====
-- The theorem of the counters at two containers.
use portainer_agent.Base.{◌≡◌, refl, true, false, none, some, [], ◌∷◌, codes, length}
use portainer_agent.DockerSnapshot.{Engine, DockerSnapshot, create_snapshot}
use portainer_agent.DockerSnapshot.Counters.{IsCounted, IsWithin, listed, create_snapshot-IsCounted}

abbrev engine : Engine
engine = record {
  ping = true;
  info = some false;
  service_labels = none;
  containers = some (
      record {
        state = codes "running";
        status = codes "Up 2 hours (healthy)";
        labels = (codes "com.docker.compose.project", codes "web") ∷ [];
      }
      ∷ record { state = codes "exited"; status = codes "Exited (0)"; labels = [] }
      ∷ []);
  images = some 3;
  volumes = none;
}

create_snapshot-IsCounted_example :
    (s : DockerSnapshot) × (create_snapshot engine ≡ some s)
    × IsCounted (listed engine.containers) s
    × IsWithin (length (listed engine.containers)) s
create_snapshot-IsCounted_example = create_snapshot-IsCounted engine refl
