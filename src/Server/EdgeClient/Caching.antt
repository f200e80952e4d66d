-- ===== src/Server/EdgeClient/Caching.antt =====
-- The cache of the sync client gives what the server would have sent.
use portainer_agent.Base.{
  ◌==◌, ◌≡◌, ◌≢◌, refl, sym, ap, ◌∙◌, subst, Bool, true, false, not, ◌||◌, Option, none, some, ◌⊎◌,
  inl, inr, List, [], ◌∷◌, Str, codes, str_eq, any, if◌then◌else◌,
}
use portainer_agent.Agent.{PollStatusResponse}
use portainer_agent.Server.EdgeClient.{
  HttpResponse, Http, LruCache, EdgeClient, Result, ok, error, do_request, cache_headers,
  cache_response, cached_in, cached_response, status_decoded, cache_asked, status_answered,
  status_request, get_environment_status,
}

-- What the documentation of the cache promises: the keys are those that Get finds, Get changes
-- the order of use only, and a key that is found after Add was found before or is the new one.
pub record LruLaws {C : Type 0} (lru : LruCache C) : Type 0 where
  pub get_key :
      (k : Str) (c : C)
      → any (str_eq k) (lru.keys c) ≡ true
      → (v : PollStatusResponse) × (lru.get k c ≡ some v)
  pub get_touch : (j k : Str) (c : C) → lru.get j (lru.touch k c) ≡ lru.get j c
  pub get_add :
      (j k : Str) (v w : PollStatusResponse) (c : C)
      → lru.get j (lru.add k v c) ≡ some w
      → ((j ≡ k) × (w ≡ v)) ⊎ (lru.get j c ≡ some w)

never_false : (b : Bool) → (b || true) ≢ false
never_false true = λ e. cc (e)
never_false false = λ e. cc (e)

module _ (http : Http) (content_of : Str → PollStatusResponse) where
  -- What HTTP lets a server answer to a request with the entity tags `offered`, while the status
  -- of the environment has the entity tag `tag`: nothing, another status, 304 if the tag is among
  -- those offered, or 200 with the content of the tag.
  pub data Honest (tag : Str) (offered : List Str) : Option HttpResponse → Type 0 where
    lost : Honest tag offered none
    refused :
        {r : HttpResponse}
        → (r.status_code == 200) ≡ false
        → (r.status_code == 304) ≡ false
        → Honest tag offered (some r)
    not_modified :
        {r : HttpResponse}
        → (r.status_code == 304) ≡ true
        → r.etag ≡ tag
        → str_eq tag [] ≡ false
        → any (str_eq tag) offered ≡ true
        → Honest tag offered (some r)
    full :
        {r : HttpResponse}
        → (r.status_code == 200) ≡ true
        → (r.status_code == 304) ≡ false
        → r.etag ≡ tag
        → http.decode_status r.body ≡ some (content_of tag)
        → Honest tag offered (some r)

  -- Whether an answer brings a status, as 200 and 304 do.
  abbrev pub brings : Option HttpResponse → Bool
  brings none = false
  brings (some r) = (r.status_code == 200) || (r.status_code == 304)

  module _ {C : Type 0} (lru : LruCache C) (laws : LruLaws lru) where
    -- What the cache holds is the content of its tag.
    abbrev pub IsSound : Option C → Type 0
    IsSound none = Unit
    IsSound (some c) = (j : Str) (w : PollStatusResponse) → lru.get j c ≡ some w → w ≡ content_of j

    -- The status that is wanted, if the answer brings one, and an error if not.
    abbrev pub Wanted : Str → Option HttpResponse → Result PollStatusResponse → Type 0
    Wanted tag o result =
        (brings o ≡ true → result ≡ ok (content_of tag))
        × (brings o ≡ false → (e : Str) × (result ≡ error e))

    abbrev Current : Str → Option HttpResponse → EdgeClient C × Result PollStatusResponse → Type 0
    Current tag o (c, result) = IsSound c.req_cache × Wanted tag o result

    touch-IsSound : (k : Str) (c : C) → IsSound (some c) → IsSound (some (lru.touch k c))
    touch-IsSound k c h j w e = h j w (sym (laws.get_touch j k c) ∙ e)

    add-IsSound :
        (k : Str) (v : PollStatusResponse) (c : C)
        → v ≡ content_of k
        → IsSound (some c)
        → IsSound (some (lru.add k v c))
    add-IsSound k v c same h j w e = elim (laws.get_add j k v w c e) [
      | inl (at_key, new) ↦ new ∙ same ∙ ap content_of (sym at_key)
      | inr old ↦ h j w old
    ]

    cache_response-IsSound :
        (k : Str) (v : PollStatusResponse) (o : Option C)
        → v ≡ content_of k
        → IsSound o
        → IsSound (cache_response lru http k v o)
    unfolding cache_response
    cache_response-IsSound k v none same h = tt
    cache_response-IsSound k v (some c) same h =
        elim (str_eq k []) as (λ b. IsSound (if b then some c else some (lru.add k v c))) [
          | true ↦ h
          | false ↦ add-IsSound k v c same h
        ]

    from_server :
        (tag : Str) (r : HttpResponse) (c : EdgeClient C) (cache : Option C)
        → (r.status_code == 200) ≡ true
        → r.etag ≡ tag
        → http.decode_status r.body ≡ some (content_of tag)
        → IsSound cache
        → Current tag (some r) (cache_asked lru http r c (cache, none))
    unfolding cache_asked status_decoded
    from_server tag r c cache ok_status at_tag body h =
        rw (ok_status, body)
          (
            cache_response-IsSound r.etag (content_of tag) cache (ap content_of (sym at_tag)) h,
            ((λ e. refl), (λ e. cc (e))),
          )

    not_ok :
        (tag : Str) (r : HttpResponse) (c : EdgeClient C) (cache : Option C)
        → (r.status_code == 200) ≡ false
        → (r.status_code == 304) ≡ false
        → IsSound cache
        → Current tag (some r) (cache_asked lru http r c (cache, none))
    unfolding cache_asked
    not_ok tag r c cache status other h =
        rw (status, other) (h, ((λ e. cc (e)), (λ e. (codes "short poll request failed", refl))))

    in_cache :
        (tag : Str) (r : HttpResponse) (c : EdgeClient C) (cache : C)
        → (r.status_code == 304) ≡ true
        → r.etag ≡ tag
        → str_eq tag [] ≡ false
        → any (str_eq tag) (lru.keys cache) ≡ true
        → IsSound (some cache)
        → Current tag (some r) (cache_asked lru http r c (cached_in lru http r cache))
    unfolding cached_in cache_asked
    in_cache tag r c cache status at_tag named offered h =
        let (v, found) = laws.get_key tag cache offered in
        rw (status, at_tag, named, found)
          (
            touch-IsSound tag cache h,
            ((λ e. ap ok (h tag v found)), (λ e. absurd (never_false _ e))),
          )

    not_cached :
        (tag : Str) (r : HttpResponse) (c : EdgeClient C) (cache : C)
        → (r.status_code == 304) ≡ false
        → Current tag (some r) (cache_asked lru http r c (some cache, none))
        → Current tag (some r) (cache_asked lru http r c (cached_in lru http r cache))
    unfolding cached_in
    not_cached tag r c cache other h =
        subst
          (λ b. Current tag (some r) (
            cache_asked lru http r c (
              if not b || str_eq r.etag []
              then (some cache, none)
              else (some (lru.touch r.etag cache), lru.get r.etag cache))))
          (sym other) h

    answered_status :
        (tag : Str) (r : HttpResponse) (c : EdgeClient C) (o : Option C)
        → IsSound o
        → Honest tag (cache_headers lru http o) (some r)
        → Current tag (some r) (cache_asked lru http r c (cached_response lru http r o))
    unfolding cached_response cache_headers
    answered_status tag r c none h (refused status other) = not_ok tag r c none status other tt
    answered_status tag r c none h (not_modified status at_tag named offered) = cc (offered)
    answered_status tag r c none h (full status other at_tag body) =
        from_server tag r c none status at_tag body tt
    answered_status tag r c (some cache) h (refused status other) =
        not_cached tag r c cache other (not_ok tag r c (some cache) status other h)
    answered_status tag r c (some cache) h (not_modified status at_tag named offered) =
        in_cache tag r c cache status at_tag named offered h
    answered_status tag r c (some cache) h (full status other at_tag body) =
        not_cached tag r c cache other (from_server tag r c (some cache) status at_tag body h)

    status_answered-Current :
        (tag : Str) (o : Option HttpResponse) (c : EdgeClient C)
        → IsSound c.req_cache
        → Honest tag (cache_headers lru http c.req_cache) o
        → Current tag o (status_answered lru http o c)
    unfolding status_answered
    status_answered-Current tag none c h s = (h, ((λ b. cc (b)), (λ b. (codes "connection", refl))))
    status_answered-Current tag (some r) c h s = answered_status tag r c c.req_cache h s

    -- With a cache whose contents are those of their tags, and a server that keeps to HTTP, a poll
    -- returns the status that the environment has now, be it sent or not, whenever the server
    -- answers with 200 or 304, and an error otherwise; the cache stays as good.
    pub get_environment_status-Current :
        (tag : Str) (c : EdgeClient C)
        → IsSound c.req_cache
        → Honest tag
            (cache_headers lru http c.req_cache)
            (http.answer (status_request lru http c ∷ c.sent))
        → IsSound (get_environment_status lru http c).0.req_cache
          × Wanted tag
              (http.answer (status_request lru http c ∷ c.sent))
              (get_environment_status lru http c).1
    unfolding get_environment_status do_request
    get_environment_status-Current tag c h s =
        status_answered-Current tag _ (record c { sent = status_request lru http c ∷ c.sent }) h s
