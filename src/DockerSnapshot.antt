-- ===== src/DockerSnapshot.antt =====
-- docker/snapshot.go: the counters of a snapshot of the Docker engine.
pub mod Counters
pub mod Examples
use portainer_agent.Base.{
  ℕ, suc, ◌+◌, Bool, true, false, ◌||◌, Option, none, some, List, [], ◌∷◌, Str, codes, str_eq,
  length, any, contains_text, if◌then◌else◌,
}

-- What the Docker library says of a container and of a service. The labels are a map.
pub record Container : Type 0 where
  pub state : Str
  pub status : Str
  pub labels : List (Str × Str)

-- The answers of the Docker engine; `none` is an error. The raw answers, which a snapshot keeps
-- as they are, the sums of the nodes and the texts of the versions are left out.
pub record Engine : Type 0 where
  pub ping : Bool
  -- Whether the node controls a swarm.
  pub info : Option Bool
  pub service_labels : Option (List (List (Str × Str)))
  pub containers : Option (List Container)
  pub images : Option ℕ
  pub volumes : Option ℕ

-- portainer.DockerSnapshot, with the counters that are set.
pub record DockerSnapshot : Type 0 where
  pub swarm : Bool
  pub stack_count : ℕ
  pub service_count : ℕ
  pub running_container_count : ℕ
  pub stopped_container_count : ℕ
  pub healthy_container_count : ℕ
  pub unhealthy_container_count : ℕ
  pub image_count : ℕ
  pub volume_count : ℕ

unfoldable pub empty_snapshot : DockerSnapshot
empty_snapshot = record {
  swarm = false;
  stack_count = 0;
  service_count = 0;
  running_container_count = 0;
  stopped_container_count = 0;
  healthy_container_count = 0;
  unhealthy_container_count = 0;
  image_count = 0;
  volume_count = 0;
}

-- `stacks[v] = struct{}{}`, with the names of the set in a list.
unfoldable pub add_name : Str → List Str → List Str
add_name name names = if any (str_eq name) names then names else name ∷ names

-- The loop over the labels of one container or service.
unfoldable pub add_labels : Str → List (Str × Str) → List Str → List Str
add_labels key [] names = names
add_labels key ((k, v) ∷ labels) names =
    add_labels key labels (if str_eq k key then add_name v names else names)

unfoldable pub stack_names : Str → List (List (Str × Str)) → List Str → List Str
stack_names key [] names = names
stack_names key (labels ∷ rest) names = stack_names key rest (add_labels key labels names)

-- The four counters of the loop over the containers.
pub record Counts : Type 0 where
  pub running : ℕ
  pub stopped : ℕ
  pub healthy : ℕ
  pub unhealthy : ℕ

unfoldable pub no_counts : Counts
no_counts = record { running = 0; stopped = 0; healthy = 0; unhealthy = 0 }

unfoldable pub count_state : Str → Counts → Counts
count_state state c =
    if str_eq state (codes "exited")
    then record c { stopped = c.stopped + 1 }
    else if str_eq state (codes "running")
    then record c { running = c.running + 1 }
    else c

unfoldable pub count_health : Str → Counts → Counts
count_health status c =
    if contains_text status (codes "(healthy)")
    then record c { healthy = c.healthy + 1 }
    else if contains_text status (codes "(unhealthy)")
    then record c { unhealthy = c.unhealthy + 1 }
    else c

unfoldable pub count_containers : List Container → Counts → Counts
count_containers [] c = c
count_containers (container ∷ rest) c =
    count_containers rest (count_health container.status (count_state container.state c))

unfoldable pub labels_of : List Container → List (List (Str × Str))
labels_of [] = []
labels_of (container ∷ rest) = container.labels ∷ labels_of rest

unfoldable pub snapshot_containers : Option (List Container) → DockerSnapshot → DockerSnapshot
snapshot_containers none s = s
snapshot_containers (some containers) s =
    let c = count_containers containers no_counts in
    record s {
      running_container_count = c.running;
      stopped_container_count = c.stopped;
      healthy_container_count = c.healthy;
      unhealthy_container_count = c.unhealthy;
      stack_count =
          s.stack_count
          + length (stack_names (codes "com.docker.compose.project") (labels_of containers) []);
    }

unfoldable pub snapshot_swarm_services :
    Option (List (List (Str × Str))) → DockerSnapshot → DockerSnapshot
snapshot_swarm_services none s = s
snapshot_swarm_services (some services) s = record s {
  service_count = length services;
  stack_count =
      s.stack_count + length (stack_names (codes "com.docker.stack.namespace") services []);
}

unfoldable pub snapshot_info : Option Bool → DockerSnapshot → DockerSnapshot
snapshot_info none s = s
snapshot_info (some control_available) s = record s { swarm = control_available }

unfoldable pub snapshot_images : Option ℕ → DockerSnapshot → DockerSnapshot
snapshot_images none s = s
snapshot_images (some count) s = record s { image_count = count }

unfoldable pub snapshot_volumes : Option ℕ → DockerSnapshot → DockerSnapshot
snapshot_volumes none s = s
snapshot_volumes (some count) s = record s { volume_count = count }

unfoldable pub snapshot_swarm : Engine → DockerSnapshot → DockerSnapshot
snapshot_swarm e s = if s.swarm then snapshot_swarm_services e.service_labels s else s

-- The errors of the parts are only logged.
unfoldable pub snapshot_of : Engine → DockerSnapshot
snapshot_of e = snapshot_volumes e.volumes (
    snapshot_images e.images
      (snapshot_containers e.containers (snapshot_swarm e (snapshot_info e.info empty_snapshot))))

-- CreateSnapshot: `none` is nil with an error.
unfoldable pub create_snapshot : Engine → Option DockerSnapshot
create_snapshot e = if e.ping then some (snapshot_of e) else none
