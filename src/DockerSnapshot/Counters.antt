-- ===== src/DockerSnapshot/Counters.antt =====
-- The counters of a snapshot count containers.
use portainer_agent.Base.{
  ℕ, ◌+◌, ◌≤◌, ◌≡◌, refl, sym, subst, Bool, true, false, not, ◌&&◌, inl, inr, Bool-cases, Option,
  none, some, List, [], ◌∷◌, Str, codes, str_eq, str_eq_iff, contains_text, length, if◌then◌else◌,
  arith,
}
use portainer_agent.DockerSnapshot.{
  Container, Engine, DockerSnapshot, empty_snapshot, Counts, no_counts, count_state, count_health,
  count_containers, snapshot_containers, snapshot_swarm_services, snapshot_info, snapshot_images,
  snapshot_volumes, snapshot_swarm, snapshot_of, create_snapshot,
}

-- The number of containers of a list that pass a test.
abbrev pub number_of : (Container → Bool) → List Container → ℕ
number_of test [] = 0
number_of test (x ∷ cs) = (if test x then 1 else 0) + number_of test cs

abbrev pub is_running : Container → Bool
is_running x = str_eq x.state (codes "running")

abbrev pub is_stopped : Container → Bool
is_stopped x = str_eq x.state (codes "exited")

abbrev pub is_healthy : Container → Bool
is_healthy x = contains_text x.status (codes "(healthy)")

-- The status has the one word and not the other.
abbrev pub is_unhealthy : Container → Bool
is_unhealthy x = not (is_healthy x) && contains_text x.status (codes "(unhealthy)")

-- The counters after the containers of a list, from those before.
record Counted (cs : List Container) (c c' : Counts) : Type 0 where
  running : c'.running ≡ c.running + number_of is_running cs
  stopped : c'.stopped ≡ c.stopped + number_of is_stopped cs
  healthy : c'.healthy ≡ c.healthy + number_of is_healthy cs
  unhealthy : c'.unhealthy ≡ c.unhealthy + number_of is_unhealthy cs

-- A container that has exited does not run.
exited-not_running :
    (state : Str) → str_eq state (codes "exited") ≡ true → str_eq state (codes "running") ≡ false
unfolding str_eq
exited-not_running state h =
    subst (λ s. str_eq s (codes "running") ≡ false) (sym ((str_eq_iff state (codes "exited")).0 h))
      refl

count_one-Counted :
    (x : Container) (c : Counts)
    → Counted (x ∷ []) c (count_health x.status (count_state x.state c))
unfolding count_state count_health
count_one-Counted x c = ground (arith, exited-not_running x.state)

count_containers-Counted : (cs : List Container) (c : Counts) → Counted cs c (count_containers cs c)
unfolding count_containers
count_containers-Counted [] c = record {
  running = omega arith;
  stopped = omega arith;
  healthy = omega arith;
  unhealthy = omega arith;
}
count_containers-Counted (x ∷ cs) c =
    let one = count_one-Counted x c in
    let rest = count_containers-Counted cs (count_health x.status (count_state x.state c)) in
    record {
      running = omega (arith, one.running, rest.running);
      stopped = omega (arith, one.stopped, rest.stopped);
      healthy = omega (arith, one.healthy, rest.healthy);
      unhealthy = omega (arith, one.unhealthy, rest.unhealthy);
    }

-- The containers that the engine lists: none if it gives an error.
abbrev pub listed : Option (List Container) → List Container
listed none = []
listed (some cs) = cs

-- The counters are the numbers of the containers.
pub record IsCounted (cs : List Container) (s : DockerSnapshot) : Type 0 where
  pub running : s.running_container_count ≡ number_of is_running cs
  pub stopped : s.stopped_container_count ≡ number_of is_stopped cs
  pub healthy : s.healthy_container_count ≡ number_of is_healthy cs
  pub unhealthy : s.unhealthy_container_count ≡ number_of is_unhealthy cs

-- No container counts twice.
disjoint_numbers :
    (p q : Container → Bool) (cs : List Container)
    → ((x : Container) → p x ≡ true → q x ≡ false)
    → number_of p cs + number_of q cs ≤ length cs
disjoint_numbers p q [] h = omega arith
disjoint_numbers p q (x ∷ cs) h = elim (Bool-cases (p x)) [
  | inl counted ↦ ground (arith, disjoint_numbers p q cs h, h x)
  | inr uncounted ↦ ground (arith, disjoint_numbers p q cs h)
]

-- The counters are within the number of the containers.
pub record IsWithin (n : ℕ) (s : DockerSnapshot) : Type 0 where
  pub states : s.running_container_count + s.stopped_container_count ≤ n
  pub healths : s.healthy_container_count + s.unhealthy_container_count ≤ n

healthy-not_unhealthy : (x : Container) → is_healthy x ≡ true → is_unhealthy x ≡ false
healthy-not_unhealthy x h = rw h refl

stopped-not_running : (x : Container) → is_stopped x ≡ true → is_running x ≡ false
stopped-not_running x h = exited-not_running x.state h

IsCounted-IsWithin :
    (cs : List Container) (s : DockerSnapshot) → IsCounted cs s → IsWithin (length cs) s
IsCounted-IsWithin cs s h = record {
  states =
      omega (
        arith,
        h.running,
        h.stopped,
        disjoint_numbers is_stopped is_running cs stopped-not_running,
      );
  healths = omega (
    arith,
    h.healthy,
    h.unhealthy,
    disjoint_numbers is_healthy is_unhealthy cs healthy-not_unhealthy,
  );
}

-- The parts before the containers leave their counters at zero.
before_containers :
    (e : Engine) → IsCounted [] (snapshot_swarm e (snapshot_info e.info empty_snapshot))
unfolding snapshot_swarm snapshot_swarm_services snapshot_info empty_snapshot
before_containers e = ground arith

snapshot_containers-IsCounted :
    (o : Option (List Container)) (s : DockerSnapshot)
    → IsCounted [] s
    → IsCounted (listed o) (snapshot_containers o s)
unfolding snapshot_containers no_counts
snapshot_containers-IsCounted none s h = h
snapshot_containers-IsCounted (some cs) s h =
    let counted = count_containers-Counted cs no_counts in
    record {
      running = omega (arith, counted.running);
      stopped = omega (arith, counted.stopped);
      healthy = omega (arith, counted.healthy);
      unhealthy = omega (arith, counted.unhealthy);
    }

after_containers :
    (cs : List Container) (images volumes : Option ℕ) (s : DockerSnapshot)
    → IsCounted cs s
    → IsCounted cs (snapshot_volumes volumes (snapshot_images images s))
unfolding snapshot_volumes snapshot_images
after_containers cs images volumes s h =
    ground (arith, h.running, h.stopped, h.healthy, h.unhealthy)

-- If Docker answers, there is a snapshot, whatever of the rest fails. Its counters are the numbers
-- of the listed containers that are running, that have exited, that are healthy and that are
-- unhealthy, zero if they are not listed, and no container counts as running and stopped, or as
-- healthy and unhealthy.
pub create_snapshot-IsCounted :
    (e : Engine)
    → e.ping ≡ true
    → (s : DockerSnapshot) × (create_snapshot e ≡ some s)
      × IsCounted (listed e.containers) s
      × IsWithin (length (listed e.containers)) s
unfolding create_snapshot snapshot_of
create_snapshot-IsCounted e h =
    let counted =
      after_containers _ e.images e.volumes _
        (snapshot_containers-IsCounted e.containers _ (before_containers e)) in
    (snapshot_of e, rw h refl, counted, IsCounted-IsWithin _ _ counted)
