-- ===== src/Inbox/Gate/Limits.antt =====
-- The rate limiters of actors and hosts (actorAllowed of internal/activitypub/inbox.go).
use apoci.Prelude.{Text, Bool, true, Option, none, some, ◌≡◌, refl, ap, arith, if_both, if_when}
use apoci.Prelude.Maps
use apoci.Urls.{Url}
use apoci.Inbox.{Config}
use apoci.Inbox.Gate.{Server, Env}
use apoci.Inbox.Gate.Keys.{IsUntouched}
use apoci.Inbox.Gate.Serve.{actor_allowed, limiter_of, check_limiter, domain_allowed}

module _ (cfg : Config) (env : Env) where
  open env use {follow, content}

  -- The limiters of the actor and of its host, as they are when they are asked or new, allow it.
  pub record IsInBudget (actor : Text) (s : Server) : Type 0 where
    pub asked : Server
    pub asked_of : IsUntouched s asked
    pub by_actor :
        env.allow (limiter_of cfg env 5 20 (Maps.get actor asked.actor_limiters)) follow.now ≡ true
    pub url : Url
    pub parsed : content.urls.parse actor ≡ some url
    pub by_domain :
        env.allow
          (limiter_of cfg env 20 100 (Maps.get (content.urls.hostname url) asked.domain_limiters))
          follow.now
        ≡ true

  module _ (s : Server) where
    domain_allowed-IsUntouched :
        (found : Option Url) (t : Server)
        → IsUntouched s t
        → IsUntouched s (domain_allowed cfg env found t).0
    unfolding domain_allowed
    domain_allowed-IsUntouched none t u = u
    domain_allowed-IsUntouched (some url) t u = record {
      signatures = u.signatures;
      fetch_failures = u.fetch_failures;
      actor_limiters = u.actor_limiters;
      domain_limiters = _;
      same =
          ap
            (λ (x : Server). record x {
              domain_limiters =
                  (check_limiter cfg env 20 100 (content.urls.hostname url) t.domain_limiters).0;
            })
            u.same;
    }

    asked_limiter :
        (actor : Text) (t : Server)
        → IsUntouched s t
        → IsUntouched s
            (record t { actor_limiters = (check_limiter cfg env 5 20 actor t.actor_limiters).0 })
    asked_limiter actor t u = record {
      signatures = u.signatures;
      fetch_failures = u.fetch_failures;
      actor_limiters = _;
      domain_limiters = u.domain_limiters;
      same =
          ap
            (λ (x : Server). record x {
              actor_limiters = (check_limiter cfg env 5 20 actor t.actor_limiters).0;
            })
            u.same;
    }

    pub actor_allowed-IsUntouched :
        (actor : Text) (t : Server)
        → IsUntouched s t
        → IsUntouched s (actor_allowed cfg env actor t).0
    unfolding actor_allowed
    actor_allowed-IsUntouched actor t u =
        let u' = asked_limiter actor t u in
        if_both (λ (x : Server × Bool). IsUntouched s x.0)
          (check_limiter cfg env 5 20 actor t.actor_limiters).1 _ _
          (domain_allowed-IsUntouched (content.urls.parse actor) _ u') u'

    domain_allowed_lem :
        (found : Option Url) (t : Server)
        → (domain_allowed cfg env found t).1 ≡ true
        → (url : Url) × (found ≡ some url)
          × (env.allow
                (limiter_of cfg env 20 100 (Maps.get (content.urls.hostname url) t.domain_limiters))
                follow.now
              ≡ true)
    unfolding domain_allowed check_limiter
    domain_allowed_lem none t h = absurd (ground arith)
    domain_allowed_lem (some url) t h = (url, refl, h)

    pub actor_allowed-IsInBudget :
        (actor : Text) (t : Server)
        → IsUntouched s t
        → (actor_allowed cfg env actor t).1 ≡ true
        → IsInBudget actor s
    unfolding actor_allowed check_limiter
    actor_allowed-IsInBudget actor t u =
        if_when (λ (x : Server × Bool). x.1 ≡ true → IsInBudget actor s)
          (env.allow (limiter_of cfg env 5 20 (Maps.get actor t.actor_limiters)) follow.now) _ _
          (λ e h.
            let (url, parsed, allowed) = domain_allowed_lem (content.urls.parse actor) _ h in
            record {
              asked = t;
              asked_of = u;
              by_actor = e;
              url = url;
              parsed = parsed;
              by_domain = allowed;
            })
          (λ e h. absurd (ground arith))
