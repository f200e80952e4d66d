-- ===== src/Server/AsyncPoll/Reports.antt =====
-- What becomes of the reports of the async client: none is dropped, unless it comes while the
-- client waits for an answer.
use portainer_agent.Base.{
  ℕ, ◌≡◌, refl, Bool, true, false, Option, none, some, List, [], ◌∷◌, Str, if-elim, ◌&&◌, not,
}
use portainer_agent.Server.AsyncClient.{
  ContainerPlatform, platform_docker, platform_kubernetes, platform_podman, platform_nomad,
  Snapshot, AsyncRequest, AsyncClient,
}
use portainer_agent.Server.AsyncPoll.{
  AsyncResponse, Libraries, patched, docker_patched, kubernetes_hashed, kubernetes_patched,
  Prepared, panics, ready, docker_prepared, kubernetes_prepared, prepare_snapshot, request_of, send,
  merge, snapshot_sent, Attempt, panicked, failed, again, answered, finish_snapshot,
  snapshot_answered, snapshot_prepared, command_answered, attempt,
}

-- The reports wait as they did.
pub record IsKept (c c' : AsyncClient) : Type 0 where
  pub stacks : c'.next_stack_status ≡ c.next_stack_status
  pub jobs : c'.next_jobs_status ≡ c.next_jobs_status
  pub last : c'.last_stack_status ≡ c.last_stack_status

-- The reports were all in the newest request, which was answered, and do not wait any more.
pub record IsDelivered (lib : Libraries) (c c' : AsyncClient) (response : AsyncResponse)
    : Type 0 where
  pub request : AsyncRequest
  pub before : List AsyncRequest
  pub snapshot : Snapshot
  pub newest : c'.sent ≡ request ∷ before
  pub content : request.snapshot ≡ some snapshot
  pub all_stacks : snapshot.stack_status ≡ c.next_stack_status
  pub all_jobs : snapshot.jobs_status ≡ c.next_jobs_status
  pub answer : lib.answer c'.sent ≡ some response
  pub no_stacks : c'.next_stack_status ≡ []
  pub no_jobs : c'.next_jobs_status ≡ []
  pub last : c'.last_stack_status ≡ merge c.last_stack_status c.next_stack_status

IsKept-refl : (c : AsyncClient) → IsKept c c
IsKept-refl c = record { stacks = refl; jobs = refl; last = refl }

-- The reports are in the snapshot that is prepared.
abbrev pub HoldsReports : AsyncClient → Prepared → Type 0
HoldsReports c panics = Unit
HoldsReports c (ready s d k) =
    (s.stack_status ≡ c.next_stack_status) × (s.jobs_status ≡ c.next_jobs_status)

abbrev SameReports : Snapshot → Snapshot → Type 0
SameReports s s' = (s'.stack_status ≡ s.stack_status) × (s'.jobs_status ≡ s.jobs_status)

module _ (lib : Libraries) where
  patched-SameReports :
      (h : Option ℕ) (p : Option Str) (s : Snapshot) → SameReports s (patched lib h p s)
  unfolding patched
  patched-SameReports (some h) (some p) s = (refl, refl)
  patched-SameReports (some h) none s = (refl, refl)
  patched-SameReports none p s = (refl, refl)

  docker_patched-SameReports :
      (retried : Bool) (last : Option Str) (current : Str) (s : Snapshot)
      → SameReports s (docker_patched lib retried last current s)
  unfolding docker_patched
  docker_patched-SameReports retried none current s = (refl, refl)
  docker_patched-SameReports true (some last) current s = (refl, refl)
  docker_patched-SameReports false (some last) current s = patched-SameReports _ _ s

  kubernetes_hashed-SameReports :
      (h : Option ℕ) (p : Option Str) (s : Snapshot) → SameReports s (kubernetes_hashed lib h p s)
  unfolding kubernetes_hashed
  kubernetes_hashed-SameReports (some h) (some p) s = (refl, refl)
  kubernetes_hashed-SameReports (some h) none s = (refl, refl)
  kubernetes_hashed-SameReports none p s = (refl, refl)

  kubernetes_patched-SameReports :
      (retried : Bool) (last last_docker current : Option Str) (s : Snapshot)
      → SameReports s (kubernetes_patched lib retried last last_docker current s)
  unfolding kubernetes_patched
  kubernetes_patched-SameReports retried none d current s = (refl, refl)
  kubernetes_patched-SameReports true (some last) d current s = (refl, refl)
  kubernetes_patched-SameReports false (some last) d current s = kubernetes_hashed-SameReports _ _ s

  docker_prepared-HoldsReports :
      (c : AsyncClient) (current : Option Str) → HoldsReports c (docker_prepared lib c current)
  unfolding docker_prepared
  docker_prepared-HoldsReports c none = tt
  docker_prepared-HoldsReports c (some current) =
      docker_patched-SameReports c.snapshot_retried c.last_docker current _

  pub prepare_snapshot-HoldsReports :
      (c : AsyncClient) (p : ContainerPlatform) → HoldsReports c (prepare_snapshot lib c p)
  unfolding prepare_snapshot kubernetes_prepared
  prepare_snapshot-HoldsReports c platform_docker = docker_prepared-HoldsReports c _
  prepare_snapshot-HoldsReports c platform_kubernetes =
      kubernetes_patched-SameReports c.snapshot_retried c.last_kubernetes c.last_docker _ _
  prepare_snapshot-HoldsReports c platform_podman = (refl, refl)
  prepare_snapshot-HoldsReports c platform_nomad = (refl, refl)

  -- What an attempt does with the reports. With `snapshot`, an answer delivers them.
  abbrev pub Reports : Bool → AsyncClient → AsyncClient × Attempt → Type 0
  Reports true c (c', answered r) = IsDelivered lib c c' r
  Reports true c (c', panicked) = IsKept c c'
  Reports true c (c', failed) = IsKept c c'
  Reports true c (c', again) = IsKept c c'
  Reports false c (c', a) = IsKept c c'

  -- An answer that was got for a request with the reports.
  record IsAnswered (c c' : AsyncClient) (s : Snapshot) (r : AsyncResponse) : Type 0 where
    request : AsyncRequest
    before : List AsyncRequest
    newest : c'.sent ≡ request ∷ before
    content : request.snapshot ≡ some s
    holds : (s.stack_status ≡ c.next_stack_status) × (s.jobs_status ≡ c.next_jobs_status)
    answer : lib.answer c'.sent ≡ some r
    kept : IsKept c c'

  delivered :
      (c c' : AsyncClient) (s : Snapshot) (d k : Option Str) (r : AsyncResponse)
      → IsAnswered c c' s r
      → IsDelivered lib c (record (snapshot_sent d k c') { endpoint_id = r.endpoint_id }) r
  unfolding snapshot_sent
  delivered c c' s d k r h = record {
    request = h.request;
    before = h.before;
    snapshot = s;
    newest = h.newest;
    content = h.content;
    all_stacks = h.holds.0;
    all_jobs = h.holds.1;
    answer = h.answer;
    no_stacks = refl;
    no_jobs = refl;
    last = cc (h.kept.last, h.kept.stacks);
  }

  finish_snapshot-Reports :
      (c c' : AsyncClient) (s : Snapshot) (d k : Option Str) (r : AsyncResponse)
      → IsAnswered c c' s r
      → Reports true c (finish_snapshot d k r c')
  unfolding finish_snapshot
  finish_snapshot-Reports c c' s d k r h =
      if-elim (λ (o : AsyncClient × Attempt). Reports true c o)
        (r.need_full_snapshot && not c'.snapshot_retried)
        {x = (record c' { snapshot_retried = true }, again)}
        {y = (record (snapshot_sent d k c') { endpoint_id = r.endpoint_id }, answered r)}
        (λ _. record { stacks = h.kept.stacks; jobs = h.kept.jobs; last = h.kept.last })
        (λ _. delivered c c' s d k r h)

  snapshot_answered-Reports :
      (c c' : AsyncClient) (s : Snapshot) (d k : Option Str) (o : Option AsyncResponse)
      → ((r : AsyncResponse) → o ≡ some r → IsAnswered c c' s r)
      → IsKept c c'
      → Reports true c (snapshot_answered lib d k c' o)
  unfolding snapshot_answered
  snapshot_answered-Reports c c' s d k none h kept = kept
  snapshot_answered-Reports c c' s d k (some r) h kept =
      finish_snapshot-Reports c c' s d k r (h r refl)

  snapshot_prepared-Reports :
      (command : Bool) (c : AsyncClient) (p : Prepared)
      → HoldsReports c p
      → Reports true c (snapshot_prepared lib command c p)
  unfolding snapshot_prepared send request_of
  snapshot_prepared-Reports command c panics h = IsKept-refl c
  snapshot_prepared-Reports command c (ready s d k) h =
      snapshot_answered-Reports c (send (request_of command (some s) c) c) s d k
        (lib.answer (request_of command (some s) c ∷ c.sent))
        (λ r e. record {
          request = request_of command (some s) c;
          before = c.sent;
          newest = refl;
          content = refl;
          holds = h;
          answer = e;
          kept = record { stacks = refl; jobs = refl; last = refl };
        })
        (record { stacks = refl; jobs = refl; last = refl })

  command_answered-IsKept :
      (c c' : AsyncClient) (o : Option AsyncResponse)
      → IsKept c c'
      → IsKept c (command_answered lib c' o).0
  unfolding command_answered
  command_answered-IsKept c c' none h = h
  command_answered-IsKept c c' (some r) h = record {
    stacks = h.stacks;
    jobs = h.jobs;
    last = h.last;
  }

  pub attempt-Reports :
      (snapshot command : Bool) (c : AsyncClient)
      → Reports snapshot c (attempt lib snapshot command c)
  unfolding attempt send
  attempt-Reports true command c =
      snapshot_prepared-Reports command c _ (prepare_snapshot-HoldsReports c c.platform)
  attempt-Reports false command c =
      command_answered-IsKept c _ _ (record { stacks = refl; jobs = refl; last = refl })
