-- ===== src/Inbox/Gate/Serve.antt =====
-- ServeHTTP of internal/activitypub/inbox.go: the refusals, the deduplication and what follows, and
-- the worker's side of its queue.
use apoci.Prelude.{
  ℕ, Text, codes, [], ◌∷◌, ◌++◌, Bool, false, ◌&&◌, not, Option, none, some, text_eq, take,
  if◌then◌else◌,
}
use apoci.Prelude.Maps
use apoci.Prelude.Maps.{Map}
use apoci.Urls.{Url}
use apoci.Queue.{SimpleQueue, try_push, pop}
use apoci.Activity.{RawActivity, activity_follow}
use apoci.Validate
use apoci.Signature.{Request}
use apoci.Inbox.{Config, is_empty, is_blocked, key_id_to_actor_url, normalise_actor_url}
use apoci.Inbox.Follow.{follow_gone}
use apoci.Inbox.Gate.{
  Response, accepted, bad_request, unauthorized, forbidden, method_not_allowed,
  unsupported_media_type, too_many_requests, service_unavailable, Task, Server, Env, Limiter,
  inbox_queue_size, body_limit, is_activity_pub_content_type, insert_activity_if_new, dispatch,
  fetch_actor_public_key, verify_or_refetch,
}

-- What the checks of a request come to: a response, or a task that is to be processed.
pub data Verdict : Type 0 where
  respond : Response → Verdict
  admitted : Task → Verdict

module _ (cfg : Config) (env : Env) where
  open env use {follow, content, crypto}

  abbrev pub limiter_of : ℕ → ℕ → Option Limiter → Limiter
  limiter_of rate burst none = record { rate = rate; burst = burst; calls = [] }
  limiter_of rate burst (some l) = l

  -- checkLimiter
  unfoldable pub check_limiter : ℕ → ℕ → Text → Map Limiter → Map Limiter × Bool
  check_limiter rate burst key cache =
      let l = limiter_of rate burst (Maps.get key cache) in
      (Maps.put key (record l { calls = l.calls ++ follow.now ∷ [] }) cache, env.allow l follow.now)

  unfoldable pub domain_allowed : Option Url → Server → Server × Bool
  domain_allowed none s = (s, false)
  domain_allowed (some u) s =
      let (cache, allowed) = check_limiter 20 100 (content.urls.hostname u) s.domain_limiters in
      (record s { domain_limiters = cache }, allowed)

  -- actorAllowed
  unfoldable pub actor_allowed : Text → Server → Server × Bool
  unfolding domain_allowed
  actor_allowed actor_url s =
      let (cache, allowed) = check_limiter 5 20 actor_url s.actor_limiters in
      let s' = record s { actor_limiters = cache } in
      if allowed then domain_allowed (content.urls.parse actor_url) s' else (s', false)

  unfoldable pub logged : RawActivity → Text → Text → Server → Server × Verdict
  logged a pem body s =
      let (rows, inserted) =
        insert_activity_if_new
          (record { activity_id = a.id; kind = a.kind; actor_url = a.actor; object_json = body })
          s.activities in
      if inserted
      then (
        record s { activities = rows },
        admitted (record { activity = a; public_key_pem = pem }),
      )
      else (s, respond accepted)

  -- A Follow is processed again where nothing is left of the last one; all else is recorded first,
  -- and dropped where it is known.
  unfoldable pub deduplicate : RawActivity → Text → Text → Server → Server × Verdict
  unfolding logged
  deduplicate a pem body s =
      if text_eq a.kind activity_follow && follow_gone content.urls cfg follow a.actor s.store
      then (s, admitted (record { activity = a; public_key_pem = pem }))
      else if env.log_fails
      then (s, respond service_unavailable)
      else logged a pem body s

  unfoldable pub check_activity : RawActivity → Text → Text → Text → Server → Server × Verdict
  check_activity a norm_claimed pem body s =
      let (t, allowed) = actor_allowed norm_claimed s in
      if is_blocked content.urls s.blocked a.actor
      then (s, respond accepted)
      else if not allowed
      then (t, respond too_many_requests)
      else if is_empty a.id
      then (t, respond bad_request)
      else if not (Validate.activity_id a.id)
      then (t, respond bad_request)
      else deduplicate a pem body t

  unfoldable pub check_actor :
      RawActivity → Option Text → Option Text → Text → Text → Server → Server × Verdict
  check_actor a none signed pem body s = (s, respond bad_request)
  check_actor a (some claimed) none pem body s = (s, respond bad_request)
  check_actor a (some claimed) (some signed) pem body s =
      if text_eq claimed signed then check_activity a claimed pem body s else (s, respond forbidden)

  unfoldable pub read_activity : Text → Option RawActivity → Text → Text → Server → Server × Verdict
  read_activity actor_url none pem body s = (s, respond bad_request)
  read_activity actor_url (some a) pem body s =
      check_actor a (normalise_actor_url content.urls a.actor)
        (normalise_actor_url content.urls actor_url) pem body s

  unfoldable pub after_verification : Text → Text → Server × Option Text → Server × Verdict
  after_verification actor_url body (s, none) = (s, respond unauthorized)
  after_verification actor_url body (s, some pem) =
      read_activity actor_url (env.unmarshal body) pem body s

  unfoldable pub after_key : Request → Text → Text → Server × Option Text → Server × Verdict
  after_key r actor_url body (s, none) = (s, respond unauthorized)
  after_key r actor_url body (s, some pem) =
      after_verification actor_url body (verify_or_refetch cfg env r body actor_url pem s)

  unfoldable pub from_actor : Request → Text → Text → Server → Server × Verdict
  from_actor r actor_url body s =
      if is_blocked content.urls s.blocked actor_url
      then (s, respond accepted)
      else after_key r actor_url body (fetch_actor_public_key cfg env actor_url s)

  -- ServeHTTP up to the point where the activity is handed over.
  unfoldable pub admit : Request → Server → Server × Verdict
  admit r s =
      if not (text_eq r.method (codes "POST"))
      then (s, respond method_not_allowed)
      else if not (is_activity_pub_content_type r.content_type)
      then (s, respond unsupported_media_type)
      else if r.read_fails
      then (s, respond bad_request)
      else elim (crypto.key_id r) [
        | none ↦ (s, respond unauthorized)
        | some key_id ↦ from_actor r (key_id_to_actor_url key_id) (take body_limit r.raw_body) s
      ]

  -- Enqueue of the worker, or the synchronous dispatch.
  unfoldable pub hand_over : Task → Server → Server × Response
  hand_over task s =
      let (queue, pushed) = try_push task inbox_queue_size s.queue in
      if env.has_worker
      then if pushed then (record s { queue = queue }, accepted) else (s, service_unavailable)
      else (dispatch cfg env task s, accepted)

  unfoldable pub conclude : Server × Verdict → Server × Response
  conclude (s, respond response) = (s, response)
  conclude (s, admitted task) = hand_over task s

  -- ServeHTTP
  unfoldable pub serve_http : Request → Server → Server × Response
  serve_http r s = conclude (admit r s)

  unfoldable pub work_on : SimpleQueue Task × Option Task → Server → Server
  work_on (queue, none) s = s
  work_on (queue, some task) s = dispatch cfg env task (record s { queue = queue })

  -- One round of a worker: the front task, if there is one, is processed.
  unfoldable pub work : Server → Server
  unfolding work_on
  work s = work_on (pop s.queue) s
