-- ===== src/Inbox/Gate.antt =====
-- ServeHTTP and dispatch of internal/activitypub/inbox.go, the log of activities of
-- internal/database/activities.go, and the worker of internal/activitypub/inbox_worker.go. The rate
-- limiters, the JSON decoder and the fetch of an actor document are parameters.
pub mod Serve
pub mod Keys
pub mod KeyOwner
pub mod Limits
pub mod Admitted
pub mod Once
pub mod Busy
pub mod Uninvited
use apoci.Prelude.{
  ℕ, Text, codes, [], ◌∷◌, List, ◌++◌, Bool, true, false, ◌&&◌, ◌||◌, not, Option, none, some,
  text_eq, before, trim, is_space, take, any, if◌then◌else◌,
}
use apoci.Prelude.Maps
use apoci.Prelude.Maps.{Map}
use apoci.Queue.{SimpleQueue, try_push, pop}
use apoci.Activity.{
  RawActivity, activity_follow, activity_accept, activity_reject, activity_undo, activity_create,
  activity_update, activity_announce, activity_delete,
}
use apoci.Result.{Result, ok, err}
use apoci.Actors.{Actor, FollowRequest, Faults, Store, get_follow, get_follow_request}
use apoci.Registry.{Db}
use apoci.Validate
use apoci.Signature.{Request, Crypto, VerifyError, verify_request}
use apoci.Inbox.{
  BlockSets, Config, is_empty, is_blocked, key_id_to_actor_url, normalise_actor_url,
  check_actor_domain_allowed,
}
use apoci.Inbox.Follow
use apoci.Inbox.Follow.{process_follow, process_accept, process_reject, process_undo, follow_gone}
use apoci.Inbox.Content
use apoci.Inbox.Content.Process.{
  Ingest, process_create, process_update, process_announce, process_delete,
}

-- The responses of ServeHTTP, by their status code.
pub data Response : Type 0 where
  accepted bad_request unauthorized forbidden method_not_allowed : Response
  unsupported_media_type too_many_requests service_unavailable : Response

-- InboxTask; the raw body goes with it unread.
pub record Task : Type 0 where
  pub activity : RawActivity
  pub public_key_pem : Text

-- A row of the table activities.
pub record LoggedActivity : Type 0 where
  pub activity_id : Text
  pub kind : Text
  pub actor_url : Text
  pub object_json : Text

-- A rate.Limiter, by its rate, its burst and the instants of the calls of Allow that it has had.
pub record Limiter : Type 0 where
  pub rate : ℕ
  pub burst : ℕ
  pub calls : List ℕ

pub record Server : Type 0 where
  pub store : Store
  pub accepts : List Text
  pub notices : List Text
  pub db : Db
  pub ns_cache : Map Text
  pub requests : List Content.Request
  pub invalidated : List Text
  pub activities : List LoggedActivity
  pub queue : SimpleQueue Task
  -- The signatures that were seen, with the instants at which they expire.
  pub signatures : Map ℕ
  pub fetch_failures : Map (Unit {0})
  pub actor_limiters : Map Limiter
  pub domain_limiters : Map Limiter
  pub blocked : BlockSets

-- The public key of an actor document: its owner, empty where it names none, and its text.
pub record FetchedKey : Type 0 where
  pub owner : Text
  pub public_key_pem : Text

pub record Env : Type 0 where
  pub follow : Follow.Env
  pub content : Content.Env
  pub lookup : Text → Option Ingest
  pub crypto : Crypto
  -- json.Unmarshal of the body; `none` is its error.
  pub unmarshal : Text → Option RawActivity
  -- FetchActor; `none` is its error.
  pub fetch_key : Text → Option FetchedKey
  -- Limiter.Allow at an instant.
  pub allow : Limiter → ℕ → Bool
  pub log_fails : Bool
  pub has_worker : Bool

abbrev pub inbox_queue_size : ℕ
inbox_queue_size = 256

-- 256*1024
abbrev pub body_limit : ℕ
body_limit = 262_144

-- isActivityPubContentType
unfoldable pub is_activity_pub_content_type : Text → Bool
is_activity_pub_content_type ct =
    let media_type = trim is_space (before b';' ct) in
    text_eq media_type (codes "application/activity+json")
    || text_eq media_type (codes "application/ld+json")

unfoldable pub is_logged : Text → List LoggedActivity → Bool
is_logged id rows = any (λ row. text_eq row.activity_id id) rows

-- InsertActivityIfNew
unfoldable pub insert_activity_if_new :
    LoggedActivity → List LoggedActivity → List LoggedActivity × Bool
insert_activity_if_new row rows =
    if is_logged row.activity_id rows then (rows, false) else (rows ++ row ∷ [], true)

module _ (cfg : Config) (env : Env) where
  open env use {follow, content, crypto}

  abbrev on_follow : (Follow.State → Follow.Outcome) → Server → Server
  on_follow f s =
      let (t, e) = f (record { store = s.store; accepts = s.accepts; notices = s.notices }) in
      record s { store = t.store; accepts = t.accepts; notices = t.notices }

  abbrev content_state : Server → Content.State
  content_state s = record {
    db = s.db;
    store = s.store;
    ns_cache = s.ns_cache;
    requests = s.requests;
    invalidated = s.invalidated;
  }

  abbrev with_content : Content.State → Server → Server
  with_content t s = record s {
    db = t.db;
    store = t.store;
    ns_cache = t.ns_cache;
    requests = t.requests;
    invalidated = t.invalidated;
  }

  abbrev faults : Faults
  faults = follow.faults

  -- dispatch; its error is only logged by those who call it.
  unfoldable pub dispatch : Task → Server → Server
  dispatch task s =
      let a = task.activity in
      let urls = content.urls in
      if text_eq a.kind activity_follow
      then on_follow (process_follow urls cfg follow a task.public_key_pem) s
      else if text_eq a.kind activity_accept
      then on_follow (process_accept urls cfg follow a) s
      else if text_eq a.kind activity_reject
      then on_follow (process_reject urls cfg follow a) s
      else if text_eq a.kind activity_undo
      then on_follow (process_undo urls cfg follow a) s
      else if text_eq a.kind activity_create
      then with_content (process_create cfg content faults env.lookup a (content_state s)).1 s
      else if text_eq a.kind activity_update
      then with_content (process_update cfg content faults env.lookup a (content_state s)).1 s
      else if text_eq a.kind activity_announce
      then with_content (process_announce cfg content faults env.lookup a (content_state s)).1 s
      else if text_eq a.kind activity_delete
      then with_content (process_delete cfg content faults env.lookup a (content_state s)).1 s
      else s

  unfoldable pub owner_matches : Text → Text → Bool
  owner_matches owner actor_url = is_empty owner || elim (normalise_actor_url content.urls owner) [
    | none ↦ false
    | some norm ↦ text_eq norm actor_url
  ]

  unfoldable pub fetched : Text → Option FetchedKey → Server → Server × Option Text
  unfolding owner_matches
  fetched actor_url none s =
      (record s { fetch_failures = Maps.put actor_url tt s.fetch_failures }, none)
  fetched actor_url (some key) s =
      (s, if owner_matches key.owner actor_url then some key.public_key_pem else none)

  -- An actor whose fetch has failed of late is not fetched again.
  unfoldable pub unless_failed : Text → Option (Unit {0}) → Server → Server × Option Text
  unless_failed actor_url (some _) s = (s, none)
  unless_failed actor_url none s = fetched actor_url (env.fetch_key actor_url) s

  -- doFetchActorKey and refetchActorPublicKey; `none` is their error.
  unfoldable pub do_fetch_actor_key : Text → Server → Server × Option Text
  do_fetch_actor_key actor_url s =
      if not (check_actor_domain_allowed content.urls cfg.allowed_domains actor_url)
      then (s, none)
      else unless_failed actor_url (Maps.get actor_url s.fetch_failures) s

  unfoldable pub key_of_actor : Result (Option Actor) → Text
  key_of_actor (ok (some a)) = elim a.public_key_pem [ none ↦ [] | some pem ↦ pem ]
  key_of_actor _ = []

  unfoldable pub key_of_request : Result (Option FollowRequest) → Text
  key_of_request (ok (some r)) = r.public_key_pem
  key_of_request _ = []

  -- The key that the tables hold of the actor, if it is not empty.
  unfoldable pub known_key : Text → Store → Text
  unfolding key_of_actor key_of_request
  known_key actor_url store =
      let key = key_of_actor (get_follow faults actor_url store) in
      if is_empty key then key_of_request (get_follow_request faults actor_url store) else key

  -- fetchActorPublicKey
  unfoldable pub fetch_actor_public_key : Text → Server → Server × Option Text
  unfolding known_key
  fetch_actor_public_key actor_url s =
      if is_empty (known_key actor_url s.store)
      then do_fetch_actor_key actor_url s
      else (s, some (known_key actor_url s.store))

  -- One VerifyRequest: the cache of signatures is the state.
  unfoldable pub verify_with : Request → Text → Text → Server → Server × Option VerifyError
  verify_with r body pem s =
      let (cache, e) = verify_request crypto follow.now r pem body s.signatures in
      (record s { signatures = cache }, e)

  unfoldable pub unless_error :
      Option VerifyError → Server × Option Text → Server × Option Text → Server × Option Text
  unless_error none x y = x
  unless_error (some _) x y = y

  unfoldable pub verify_fresh : Request → Text → Text → Option Text → Server → Server × Option Text
  verify_fresh r body pem none s = (s, none)
  verify_fresh r body pem (some fresh) s =
      let (s', e) = verify_with r body fresh s in
      if text_eq fresh pem then (s, none) else unless_error e (s', some fresh) (s', none)

  unfoldable pub retry_key : Request → Text → Text → Text → Server → Server × Option Text
  retry_key r body actor_url pem s =
      let (s', fresh) = do_fetch_actor_key actor_url s in verify_fresh r body pem fresh s'

  -- Verification with the key at hand, and once more with a fetched one: the key that verified.
  unfoldable pub verify_or_refetch : Request → Text → Text → Text → Server → Server × Option Text
  verify_or_refetch r body actor_url pem s =
      let (s', e) = verify_with r body pem s in
      unless_error e (s', some pem) (retry_key r body actor_url pem s')
