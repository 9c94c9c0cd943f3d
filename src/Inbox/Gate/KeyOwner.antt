-- ===== src/Inbox/Gate/KeyOwner.antt =====
-- Where the key that ServeHTTP verifies with comes from (fetchActorPublicKey and doFetchActorKey of
-- internal/activitypub/inbox.go).
use mathlib.Core.Path.{subst}
use mathlib.Core.Option.{some_inj}
use apoci.Prelude.{
  Text, text_eq, text_eq_iff, [], ◌∷◌, true, false, not, Option, none, some, ◌≡◌, refl, ap, ◌⊎◌,
  inl, inr, arith, if_when, if_some-none,
}
use apoci.Prelude.Maps
use apoci.Result.{Result, ok, err}
use apoci.Actors.{Actor, FollowRequest, get_follow, get_follow_request}
use apoci.Inbox.{Config, is_empty, check_actor_domain_allowed, normalise_actor_url}
use apoci.Inbox.Gate.{
  Server, Env, FetchedKey, owner_matches, fetched, unless_failed, do_fetch_actor_key, key_of_actor,
  key_of_request, known_key, fetch_actor_public_key,
}

module _ (cfg : Config) (env : Env) where
  open env use {follow, content}

  -- The key is that of the actor's row, or of a pending request of the actor, or that of the actor's
  -- document, fetched from an allowed host, which names the actor or nobody as its owner.
  pub data IsKeyOf (s : Server) (actor_url pem : Text) : Type 0 where
    of_row :
        (a : Actor)
        → get_follow follow.faults actor_url s.store ≡ ok (some a)
        → a.public_key_pem ≡ some pem
        → IsKeyOf s actor_url pem
    of_request :
        (r : FollowRequest)
        → get_follow_request follow.faults actor_url s.store ≡ ok (some r)
        → r.public_key_pem ≡ pem
        → IsKeyOf s actor_url pem
    of_document :
        (key : FetchedKey)
        → check_actor_domain_allowed content.urls cfg.allowed_domains actor_url ≡ true
        → env.fetch_key actor_url ≡ some key
        → (key.owner ≡ []) ⊎ (normalise_actor_url content.urls key.owner ≡ some actor_url)
        → key.public_key_pem ≡ pem
        → IsKeyOf s actor_url pem

  owner_named :
      (actor_url : Text) (found : Option Text)
      → (elim found [ none ↦ false | some norm ↦ text_eq norm actor_url ]) ≡ true
      → found ≡ some actor_url
  owner_named actor_url none h = absurd (ground arith)
  owner_named actor_url (some norm) h = ap some ((text_eq_iff norm actor_url).0 h)

  owner_matches_lem :
      (owner actor_url : Text)
      → owner_matches cfg env owner actor_url ≡ true
      → (owner ≡ []) ⊎ (normalise_actor_url content.urls owner ≡ some actor_url)
  unfolding owner_matches
  owner_matches_lem [] actor_url h = inl refl
  owner_matches_lem (c ∷ owner) actor_url h =
      inr (owner_named actor_url (normalise_actor_url content.urls (c ∷ owner)) h)

  module _ (s t : Server) (actor_url pem : Text) where
    fetched-IsKeyOf :
        (key : Option FetchedKey)
        → check_actor_domain_allowed content.urls cfg.allowed_domains actor_url ≡ true
        → env.fetch_key actor_url ≡ key
        → (fetched cfg env actor_url key t).1 ≡ some pem
        → IsKeyOf s actor_url pem
    unfolding fetched
    fetched-IsKeyOf none allowed at h = absurd (ground arith)
    fetched-IsKeyOf (some key) allowed at h =
        let (named, same) = if_some-none _ _ _ h in
        of_document key allowed at (owner_matches_lem key.owner actor_url named) same

    unless_failed-IsKeyOf :
        (failed : Option (Unit {0}))
        → check_actor_domain_allowed content.urls cfg.allowed_domains actor_url ≡ true
        → (unless_failed cfg env actor_url failed t).1 ≡ some pem
        → IsKeyOf s actor_url pem
    unfolding unless_failed
    unless_failed-IsKeyOf (some _) allowed h = absurd (ground arith)
    unless_failed-IsKeyOf none allowed h = fetched-IsKeyOf _ allowed refl h

    pub do_fetch-IsKeyOf :
        (do_fetch_actor_key cfg env actor_url t).1 ≡ some pem → IsKeyOf s actor_url pem
    unfolding do_fetch_actor_key
    do_fetch-IsKeyOf =
        if_when (λ (x : Server × Option Text). x.1 ≡ some pem → IsKeyOf s actor_url pem)
          (not (check_actor_domain_allowed content.urls cfg.allowed_domains actor_url)) _ _
          (λ e h. absurd (ground arith))
          (λ e h. unless_failed-IsKeyOf (Maps.get actor_url t.fetch_failures) (ground arith) h)

  present :
      (pem : Option Text)
      → is_empty (elim pem [ none ↦ [] | some key ↦ key ]) ≡ false
      → pem ≡ some (elim pem [ none ↦ [] | some key ↦ key ])
  present none h = absurd (ground arith)
  present (some key) h = refl

  key_of_actor_lem :
      (found : Result (Option Actor))
      → is_empty (key_of_actor cfg env found) ≡ false
      → (a : Actor) × (found ≡ ok (some a)) × (a.public_key_pem ≡ some (key_of_actor cfg env found))
  unfolding key_of_actor
  key_of_actor_lem (ok (some a)) h = (a, refl, present a.public_key_pem h)
  key_of_actor_lem (ok none) h = absurd (ground arith)
  key_of_actor_lem (err e) h = absurd (ground arith)

  key_of_request_lem :
      (found : Result (Option FollowRequest))
      → is_empty (key_of_request cfg env found) ≡ false
      → (r : FollowRequest) × (found ≡ ok (some r))
        × (r.public_key_pem ≡ key_of_request cfg env found)
  unfolding key_of_request
  key_of_request_lem (ok (some r)) h = (r, refl, refl)
  key_of_request_lem (ok none) h = absurd (ground arith)
  key_of_request_lem (err e) h = absurd (ground arith)

  module _ (s : Server) (actor_url : Text) where
    known-IsKeyOf :
        is_empty (known_key cfg env actor_url s.store) ≡ false
        → IsKeyOf s actor_url (known_key cfg env actor_url s.store)
    unfolding known_key
    known-IsKeyOf =
        if_when (λ x. is_empty x ≡ false → IsKeyOf s actor_url x)
          (is_empty (key_of_actor cfg env (get_follow follow.faults actor_url s.store))) _ _
          (λ e h. let (r, at, same) = key_of_request_lem _ h in of_request r at same)
          (λ e h. let (a, at, same) = key_of_actor_lem _ h in of_row a at same)

    -- The key that fetchActorPublicKey answers is one of the actor's.
    pub fetch_key-IsKeyOf :
        (pem : Text)
        → (fetch_actor_public_key cfg env actor_url s).1 ≡ some pem
        → IsKeyOf s actor_url pem
    unfolding fetch_actor_public_key
    fetch_key-IsKeyOf pem =
        if_when (λ (x : Server × Option Text). x.1 ≡ some pem → IsKeyOf s actor_url pem)
          (is_empty (known_key cfg env actor_url s.store)) _ _
          (λ e h. do_fetch-IsKeyOf s s actor_url pem h)
          (λ e h. subst (IsKeyOf s actor_url) (some_inj.0 h) (known-IsKeyOf e))
