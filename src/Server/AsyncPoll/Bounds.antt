-- ===== src/Server/AsyncPoll/Bounds.antt =====
-- How many requests GetEnvironmentStatus makes.
use portainer_agent.Base.{
  ℕ, zero, suc, ◌+◌, ◌≤◌, ◌≡◌, refl, ap, Bool, true, false, Option, none, some, List, Str, length,
  if-elim, arith, ◌&&◌, not,
}
use portainer_agent.Server.AsyncClient.{AsyncRequest, AsyncClient}
use portainer_agent.Server.AsyncPoll.{
  AsyncResponse, Libraries, Prepared, panics, ready, request_of, send, snapshot_sent, Attempt,
  panicked, failed, again, answered, finish_snapshot, snapshot_answered, snapshot_prepared,
  command_answered, attempt, retry, attempts, get_environment_status,
}

module _ (lib : Libraries) where
  -- An attempt sends one request at most, to which the answer is that of its library.
  finish_snapshot-sent :
      (d k : Option Str) (r : AsyncResponse) (c : AsyncClient)
      → (finish_snapshot d k r c).0.sent ≡ c.sent
  unfolding finish_snapshot snapshot_sent
  finish_snapshot-sent d k r c =
      if-elim (λ (o : AsyncClient × Attempt). o.0.sent ≡ c.sent)
        (r.need_full_snapshot && not c.snapshot_retried)
        {x = (record c { snapshot_retried = true }, again)}
        {y = (record (snapshot_sent d k c) { endpoint_id = r.endpoint_id }, answered r)} (λ _. refl)
        (λ _. refl)

  snapshot_answered-sent :
      (d k : Option Str) (c : AsyncClient) (o : Option AsyncResponse)
      → (snapshot_answered lib d k c o).0.sent ≡ c.sent
  unfolding snapshot_answered
  snapshot_answered-sent d k c none = refl
  snapshot_answered-sent d k c (some r) = finish_snapshot-sent d k r c

  snapshot_prepared-sent :
      (command : Bool) (c : AsyncClient) (p : Prepared)
      → length (snapshot_prepared lib command c p).0.sent ≤ length c.sent + 1
  unfolding snapshot_prepared send
  snapshot_prepared-sent command c panics = omega arith
  snapshot_prepared-sent command c (ready s d k) =
      let c' = send (request_of command (some s) c) c in
      omega (
        arith,
        ap (λ (rs : List AsyncRequest). length rs)
            (snapshot_answered-sent d k c' (lib.answer c'.sent)),
      )

  command_answered-sent :
      (c : AsyncClient) (o : Option AsyncResponse) → (command_answered lib c o).0.sent ≡ c.sent
  unfolding command_answered
  command_answered-sent c none = refl
  command_answered-sent c (some r) = refl

  attempt-sent :
      (snapshot command : Bool) (c : AsyncClient)
      → length (attempt lib snapshot command c).0.sent ≤ length c.sent + 1
  unfolding attempt send
  attempt-sent true command c = snapshot_prepared-sent command c _
  attempt-sent false command c =
      let c' = send (request_of command none c) c in
      omega (
        arith,
        ap (λ (rs : List AsyncRequest). length rs) (command_answered-sent c' (lib.answer c'.sent)),
      )

  retry-sent :
      (n : ℕ) (f : AsyncClient → AsyncClient × Attempt) (o : AsyncClient × Attempt)
      → ((c : AsyncClient) → length (f c).0.sent ≤ length c.sent + n)
      → length (retry lib f o).0.sent ≤ length o.0.sent + n
  unfolding retry
  retry-sent n f (c, again) h = h c
  retry-sent n f (c, panicked) h = omega arith
  retry-sent n f (c, failed) h = omega arith
  retry-sent n f (c, answered r) h = omega arith

  attempts-sent :
      (n : ℕ) (s command : Bool) (c : AsyncClient)
      → length (attempts lib n s command c).0.sent ≤ length c.sent + n
  unfolding attempts
  attempts-sent zero s command c = omega arith
  attempts-sent (suc n) s command c =
      let bound =
        retry-sent n (attempts lib n true false) (attempt lib s command c)
          (attempts-sent n true false) in
      omega (arith, bound, attempt-sent s command c)

  -- A poll of the async client makes two requests at most.
  pub get_environment_status-sent :
      (flags : List Str) (c : AsyncClient)
      → length (get_environment_status lib flags c).0.sent ≤ length c.sent + 2
  unfolding get_environment_status
  get_environment_status-sent flags c = attempts-sent 2 _ _ c
