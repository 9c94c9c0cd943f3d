-- ===== src/Inbox/Gate/Keys.antt =====
-- The keys that ServeHTTP verifies with, and what looking for them leaves of the state.
use mathlib.Core.Path.{subst}
use mathlib.Core.Option.{some_inj}
use apoci.Prelude.{ℕ, Text, text_eq, not, Option, none, some, ◌≡◌, refl, ap, arith, if_both}
use apoci.Prelude.Maps
use apoci.Prelude.Maps.{Map}
use apoci.Signature.{Request, VerifyError, verify_request}
use apoci.Signature.Verified.{IsAuthentic, accepted-IsAuthentic}
use apoci.Inbox.{Config, is_empty, check_actor_domain_allowed}
use apoci.Inbox.Gate.KeyOwner.{IsKeyOf, do_fetch-IsKeyOf}
use apoci.Inbox.Gate.{
  Server, Env, Limiter, FetchedKey, fetched, do_fetch_actor_key, fetch_actor_public_key,
  verify_with, verify_fresh, retry_key, verify_or_refetch, known_key, unless_failed, unless_error,
}

-- Nothing but the cache of signatures, that of failed fetches and the rate limiters differs.
pub record IsUntouched (s t : Server) : Type 0 where
  pub signatures : Map ℕ
  pub fetch_failures : Map (Unit {0})
  pub actor_limiters : Map Limiter
  pub domain_limiters : Map Limiter
  pub same : t ≡ record s {
    signatures = signatures;
    fetch_failures = fetch_failures;
    actor_limiters = actor_limiters;
    domain_limiters = domain_limiters;
  }

pub unchanged : (s : Server) → IsUntouched s s
unchanged s = record {
  signatures = s.signatures;
  fetch_failures = s.fetch_failures;
  actor_limiters = s.actor_limiters;
  domain_limiters = s.domain_limiters;
  same = refl;
}

module _ (cfg : Config) (env : Env) where
  open env use {follow, content, crypto}

  -- The key is one of the actor's, and the request is signed with it.
  pub record IsSignedBy (r : Request) (s : Server) (body actor_url pem : Text) : Type 0 where
    pub authentic : IsAuthentic crypto follow.now r pem body
    pub key_of : IsKeyOf cfg env s actor_url pem

  -- The key, if there is one, has verified the request.
  pub record IsVerified (r : Request) (s : Server) (body actor_url : Text)
      (x : Server × Option Text) : Type 0 where
    pub untouched : IsUntouched s x.0
    pub signed : (pem : Text) → x.1 ≡ some pem → IsSignedBy r s body actor_url pem

  fetched-IsUntouched :
      (s t : Server) (actor_url : Text) (key : Option FetchedKey)
      → IsUntouched s t
      → IsUntouched s (fetched cfg env actor_url key t).0
  unfolding fetched
  fetched-IsUntouched s t actor_url none u = record {
    signatures = u.signatures;
    fetch_failures = _;
    actor_limiters = u.actor_limiters;
    domain_limiters = u.domain_limiters;
    same =
        ap (λ (x : Server). record x { fetch_failures = Maps.put actor_url tt x.fetch_failures })
          u.same;
  }
  fetched-IsUntouched s t actor_url (some key) u = u

  unless_failed-IsUntouched :
      (s t : Server) (actor_url : Text) (failed : Option (Unit {0}))
      → IsUntouched s t
      → IsUntouched s (unless_failed cfg env actor_url failed t).0
  unfolding unless_failed
  unless_failed-IsUntouched s t actor_url (some _) u = u
  unless_failed-IsUntouched s t actor_url none u = fetched-IsUntouched s t actor_url _ u

  do_fetch-IsUntouched :
      (s t : Server) (actor_url : Text)
      → IsUntouched s t
      → IsUntouched s (do_fetch_actor_key cfg env actor_url t).0
  unfolding do_fetch_actor_key
  do_fetch-IsUntouched s t actor_url u =
      if_both (λ (x : Server × Option Text). IsUntouched s x.0)
        (not (check_actor_domain_allowed content.urls cfg.allowed_domains actor_url)) _ _ u
        (unless_failed-IsUntouched s t actor_url (Maps.get actor_url t.fetch_failures) u)

  verify_with-IsUntouched :
      (s t : Server) (r : Request) (body pem : Text)
      → IsUntouched s t
      → IsUntouched s (verify_with cfg env r body pem t).0
  unfolding verify_with
  verify_with-IsUntouched s t r body pem u = record {
    signatures = (verify_request crypto follow.now r pem body t.signatures).0;
    fetch_failures = u.fetch_failures;
    actor_limiters = u.actor_limiters;
    domain_limiters = u.domain_limiters;
    same =
        ap
          (λ (x : Server). record x {
            signatures = (verify_request crypto follow.now r pem body t.signatures).0;
          })
          u.same;
  }

  pub fetch_key-IsUntouched :
      (s : Server) (actor_url : Text) → IsUntouched s (fetch_actor_public_key cfg env actor_url s).0
  unfolding fetch_actor_public_key
  fetch_key-IsUntouched s actor_url =
      if_both (λ (x : Server × Option Text). IsUntouched s x.0)
        (is_empty (known_key cfg env actor_url s.store)) _ _
        (do_fetch-IsUntouched s s actor_url (unchanged s)) (unchanged s)

  module _ (s : Server) (r : Request) (body actor_url : Text) where
    none-IsVerified : (t : Server) → IsUntouched s t → IsVerified r s body actor_url (t, none)
    none-IsVerified t u = record { untouched = u; signed = λ pem h. absurd (ground arith) }

    verified-IsSignedBy :
        (t : Server) (pem : Text)
        → IsKeyOf cfg env s actor_url pem
        → (verify_with cfg env r body pem t).1 ≡ none
        → IsSignedBy r s body actor_url pem
    unfolding verify_with
    verified-IsSignedBy t pem key ok = record {
      authentic = accepted-IsAuthentic crypto follow.now r pem body t.signatures ok;
      key_of = key;
    }

    unless_error-IsVerified :
        (t : Server) (pem : Text) (e : Option VerifyError) (other : Server × Option Text)
        → IsUntouched s t
        → (e ≡ none → IsSignedBy r s body actor_url pem)
        → IsVerified r s body actor_url other
        → IsVerified r s body actor_url (unless_error cfg env e (t, some pem) other)
    unfolding unless_error
    unless_error-IsVerified t pem none other u auth v = record {
      untouched = u;
      signed = λ k h. subst (IsSignedBy r s body actor_url) (some_inj.0 h) (auth refl);
    }
    unless_error-IsVerified t pem (some e) other u auth v = v

    verify_fresh-IsVerified :
        (t : Server) (pem : Text) (fresh : Option Text)
        → IsUntouched s t
        → ((k : Text) → fresh ≡ some k → IsKeyOf cfg env s actor_url k)
        → IsVerified r s body actor_url (verify_fresh cfg env r body pem fresh t)
    unfolding verify_fresh
    verify_fresh-IsVerified t pem none u key = none-IsVerified t u
    verify_fresh-IsVerified t pem (some fresh) u key =
        let u' = verify_with-IsUntouched s t r body fresh u in
        if_both (IsVerified r s body actor_url) (text_eq fresh pem) _ _ (none-IsVerified t u) (
          unless_error-IsVerified _ fresh _ _ u' (verified-IsSignedBy t fresh (key fresh refl))
            (none-IsVerified _ u'))

    pub verify_or_refetch-IsVerified :
        (t : Server) (pem : Text)
        → IsUntouched s t
        → IsKeyOf cfg env s actor_url pem
        → IsVerified r s body actor_url (verify_or_refetch cfg env r body actor_url pem t)
    unfolding verify_or_refetch retry_key
    verify_or_refetch-IsVerified t pem u key =
        let t' = (verify_with cfg env r body pem t).0 in
        let u' = verify_with-IsUntouched s t r body pem u in
        unless_error-IsVerified _ pem _ _ u' (verified-IsSignedBy t pem key) (
          verify_fresh-IsVerified _ pem _ (do_fetch-IsUntouched s t' actor_url u')
            (λ k h. do_fetch-IsKeyOf cfg env s t' actor_url k h))
