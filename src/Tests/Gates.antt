-- ===== src/Tests/Gates.antt =====
-- Runs of the gate of the inbox: a signed request of Bob's, and what is done with it.
use apoci.Prelude.{
  refl, true, false, none, some, [], ◌∷◌, ◌++◌, codes, arith, Text, List, ◌≡◌, ◌≢◌, ◌≤◌, length, ℕ,
  zero, suc, text_eq, ltb,
}
use apoci.Prelude.Maps
use apoci.Activity.{RawActivity, object_id}
use apoci.Validate
use apoci.Signature.{Request, Crypto, PublicKey, rsa_key, verify_request, cache_key}
use apoci.Signature.Verified.{IsAuthentic, verify_request-IsAuthentic}
use apoci.Inbox.{Config}
use apoci.Inbox.Gate.{Server, Env, Task, accepted, bad_request, service_unavailable, is_logged}
use apoci.Inbox.Gate.Keys.{IsUntouched}
use apoci.Inbox.Gate.Serve.{serve_http, admit, admitted}
use apoci.Inbox.Gate.Once.{
  receive, turn, history, occurrences, history-once, serve_http-IsUntouched,
}
use apoci.Inbox.Gate.Busy.{busy_loses}
use apoci.Tests.{alice, bob}
use apoci.Tests.Contents.{config, env, no_adapters, start}
use apoci.Tests.Follows.{calm}

abbrev quoted : Text → Text
quoted s = b'"' ∷ s ++ b'"' ∷ []

abbrev signature : Text
signature =
    codes "headers="
    ++ quoted (codes "(request-target) host date digest")
    ++ codes ",signature="
    ++ quoted (codes "xyz")

abbrev pub trusting : Crypto
trusting = record {
  key_id = λ _. some bob;
  verify = λ _ _ _. true;
  parse_date = λ _. some 5;
  hash_base64 = λ s. s;
  pem_block = λ s. some s;
  parse_pkix = λ s. some (rsa_key 2048 s);
}

abbrev note : RawActivity
note = record {
  id = codes "b.example/1";
  kind = codes "Note";
  actor = bob;
  object = object_id alice;
}

abbrev pub gate : Env
gate = record {
  follow = calm;
  content = env;
  lookup = no_adapters;
  crypto = trusting;
  unmarshal = λ _. some note;
  fetch_key = λ _. some (record { owner = bob; public_key_pem = codes "k" });
  allow = λ l now. ltb (length l.calls) l.burst;
  log_fails = false;
  has_worker = true;
}

abbrev pub signed : Request
signed = record {
  method = codes "POST";
  content_type = codes "application/activity+json";
  signature = signature;
  date = codes "now";
  digest = codes "SHA-256=body";
  raw_body = codes "body";
  read_fails = false;
}

abbrev pub server : Server
server = record {
  store = start.store;
  accepts = [];
  notices = [];
  db = start.db;
  ns_cache = [];
  requests = [];
  invalidated = [];
  activities = [];
  queue = record { items = [] };
  signatures = [];
  fetch_failures = [];
  actor_limiters = [];
  domain_limiters = [];
  blocked = record { domains = []; actors = [] };
}

abbrev waiting : Task
waiting = record { activity = note; public_key_pem = codes "k" }

accepted_here : (verify_request trusting 5 signed (codes "k") (codes "body") []).1 ≡ none
unfolding verify_request apoci.Signature.remember apoci.Signature.check_request
    apoci.Signature.extract_signed_headers apoci.Prelude.split apoci.Prelude.cut_prefix
    apoci.Prelude.trim apoci.Signature.check_signed apoci.Signature.unless
    apoci.Signature.required_signed_headers apoci.Signature.has_header apoci.Prelude.fields
    apoci.Prelude.equal_fold apoci.Signature.check_date apoci.Signature.is_fresh
    apoci.Signature.verify_body_digest apoci.Signature.check_key
    apoci.Signature.parse_public_key_pem Maps.delete Maps.get Maps.put
    apoci.Prelude.Strings.lower_byte text_eq apoci.Prelude.to_lower apoci.Prelude.Strings.trim_left
    apoci.Prelude.Strings.trim_right apoci.Signature.algorithm_for cache_key
    apoci.Signature.extract_raw_signature apoci.Signature.known_curve apoci.Signature.record_seen
    apoci.Signature.single apoci.Signature.strong apoci.Signature.values_of
accepted_here = refl

verify_request-IsAuthentic_example :
    IsAuthentic trusting 5 signed (codes "k") (codes "body")
    × ((verify_request trusting 6 signed
          (codes "k")
          (codes "body")
          (verify_request trusting 5 signed (codes "k") (codes "body") []).0).1
        ≢ none)
verify_request-IsAuthentic_example =
    verify_request-IsAuthentic trusting 5 signed (codes "k") (codes "body") 6 signed (codes "k")
      (codes "body") [] accepted_here refl (omega arith)

history-once_example :
    occurrences
      (codes "b.example/1")
      (history config (receive gate signed ∷ turn gate ∷ receive gate signed ∷ []) server)
    ≤ 1
unfolding is_logged
history-once_example =
    history-once config (codes "b.example/1")
      (receive gate signed ∷ turn gate ∷ receive gate signed ∷ []) server

abbrev copies : ℕ → List Task
copies zero = []
copies (suc n) = waiting ∷ copies n

abbrev busy : Server
busy = record server { queue = record { items = copies 256 } }

passes : (admit config gate signed busy).1 ≡ admitted waiting
unfolding admit apoci.Inbox.Gate.is_activity_pub_content_type apoci.Prelude.before
    apoci.Inbox.Gate.Serve.from_actor apoci.Inbox.is_blocked apoci.Inbox.Gate.Serve.after_key
    apoci.Inbox.Gate.fetch_actor_public_key apoci.Actors.get_follow apoci.Inbox.key_id_to_actor_url
    apoci.Actors.get_follow_request apoci.Inbox.Gate.do_fetch_actor_key
    apoci.Inbox.check_actor_domain_allowed apoci.Inbox.Gate.unless_failed apoci.Inbox.Gate.fetched
    apoci.Inbox.normalise_actor_url apoci.Inbox.Follow.follow_gone
    apoci.Inbox.Gate.Serve.actor_allowed apoci.Inbox.Gate.Serve.domain_allowed
    apoci.Inbox.Gate.Serve.check_limiter apoci.Inbox.Gate.Serve.after_verification
    apoci.Inbox.Gate.Serve.check_activity apoci.Inbox.Gate.Serve.check_actor
    apoci.Inbox.Gate.Serve.deduplicate apoci.Inbox.Gate.Serve.logged
    apoci.Inbox.Gate.Serve.read_activity apoci.Inbox.Gate.insert_activity_if_new is_logged
    apoci.Inbox.Gate.known_key apoci.Inbox.Gate.retry_key apoci.Inbox.Gate.unless_error
    apoci.Inbox.Gate.verify_fresh apoci.Inbox.Gate.verify_or_refetch apoci.Inbox.Gate.verify_with
    apoci.Inbox.any_key apoci.Inbox.host_allowed apoci.Inbox.is_in apoci.Inbox.matches_domain
    apoci.Inbox.normalise_actor_key apoci.Prelude.has_suffix Validate.activity_id verify_request
    apoci.Signature.remember apoci.Signature.check_request apoci.Signature.extract_signed_headers
    apoci.Prelude.split apoci.Prelude.cut_prefix apoci.Prelude.trim apoci.Signature.check_signed
    apoci.Signature.unless apoci.Signature.required_signed_headers apoci.Signature.has_header
    apoci.Prelude.fields apoci.Prelude.equal_fold apoci.Signature.check_date
    apoci.Signature.is_fresh apoci.Signature.verify_body_digest apoci.Signature.check_key
    apoci.Signature.parse_public_key_pem Maps.delete Maps.get Maps.put
    apoci.Prelude.Strings.lower_byte text_eq apoci.Prelude.to_lower apoci.Prelude.Strings.trim_left
    apoci.Prelude.Strings.trim_right apoci.Signature.algorithm_for cache_key
    apoci.Signature.extract_raw_signature apoci.Signature.known_curve apoci.Signature.record_seen
    apoci.Signature.single apoci.Signature.strong apoci.Signature.values_of
passes = refl

busy_loses_example :
    ((serve_http config gate signed busy).1 ≡ service_unavailable)
    × (occurrences (codes "b.example/1") (
          history config
            (turn gate ∷ receive gate signed ∷ [])
            (serve_http config gate signed busy).0)
        ≡ 0)
busy_loses_example =
    busy_loses config gate signed busy waiting (turn gate ∷ receive gate signed ∷ []) passes
      (unfold text_eq in refl) refl (omega arith)

-- The same request with a body that is no JSON.
abbrev garbled : Env
garbled = record gate { unmarshal = λ _. none }

refused_here : (serve_http config garbled signed server).1 ≡ bad_request
unfolding serve_http apoci.Inbox.Gate.Serve.conclude admit
    apoci.Inbox.Gate.is_activity_pub_content_type apoci.Prelude.before
    apoci.Inbox.Gate.Serve.from_actor apoci.Inbox.is_blocked apoci.Inbox.Gate.Serve.after_key
    apoci.Inbox.Gate.fetch_actor_public_key apoci.Actors.get_follow apoci.Inbox.key_id_to_actor_url
    apoci.Actors.get_follow_request apoci.Inbox.Gate.do_fetch_actor_key
    apoci.Inbox.check_actor_domain_allowed apoci.Inbox.Gate.unless_failed apoci.Inbox.Gate.fetched
    apoci.Inbox.normalise_actor_url apoci.Inbox.Follow.follow_gone
    apoci.Inbox.Gate.Serve.actor_allowed apoci.Inbox.Gate.Serve.domain_allowed
    apoci.Inbox.Gate.Serve.check_limiter apoci.Inbox.Gate.Serve.after_verification
    apoci.Inbox.Gate.Serve.check_activity apoci.Inbox.Gate.Serve.check_actor
    apoci.Inbox.Gate.Serve.deduplicate apoci.Inbox.Gate.Serve.logged
    apoci.Inbox.Gate.Serve.read_activity apoci.Inbox.Gate.insert_activity_if_new is_logged
    apoci.Inbox.Gate.known_key apoci.Inbox.Gate.retry_key apoci.Inbox.Gate.unless_error
    apoci.Inbox.Gate.verify_fresh apoci.Inbox.Gate.verify_or_refetch apoci.Inbox.Gate.verify_with
    apoci.Inbox.any_key apoci.Inbox.host_allowed apoci.Inbox.is_in apoci.Inbox.matches_domain
    apoci.Inbox.normalise_actor_key apoci.Prelude.has_suffix Validate.activity_id verify_request
    apoci.Signature.remember apoci.Signature.check_request apoci.Signature.extract_signed_headers
    apoci.Prelude.split apoci.Prelude.cut_prefix apoci.Prelude.trim apoci.Signature.check_signed
    apoci.Signature.unless apoci.Signature.required_signed_headers apoci.Signature.has_header
    apoci.Prelude.fields apoci.Prelude.equal_fold apoci.Signature.check_date
    apoci.Signature.is_fresh apoci.Signature.verify_body_digest apoci.Signature.check_key
    apoci.Signature.parse_public_key_pem Maps.delete Maps.get Maps.put
    apoci.Prelude.Strings.lower_byte text_eq apoci.Prelude.to_lower apoci.Prelude.Strings.trim_left
    apoci.Prelude.Strings.trim_right apoci.Signature.algorithm_for cache_key
    apoci.Signature.extract_raw_signature apoci.Signature.known_curve apoci.Signature.record_seen
    apoci.Signature.single apoci.Signature.strong apoci.Signature.values_of
refused_here = refl

serve_http-IsUntouched_example : IsUntouched server (serve_http config garbled signed server).0
serve_http-IsUntouched_example =
    serve_http-IsUntouched config garbled signed server (λ e. ground (arith, refused_here))
      (λ e. ground (arith, refused_here))
