-- ===== src/Inbox/Gate/Admitted.antt =====
-- What ServeHTTP has checked of an activity that it hands over, and what a refusal leaves.
use apoci.Prelude.{
  Text, text_eq, text_eq_iff, codes, [], ◌∷◌, ◌++◌, Bool, true, false, ◌&&◌, not, Option, none,
  some, ◌≡◌, refl, sym, ap, ◌∙◌, inl, inr, arith, take, Bool-cases, if◌then◌else◌,
}
use apoci.Activity.{RawActivity, activity_follow}
use apoci.Validate
use apoci.Signature.{Request}
use apoci.Inbox.{Config, is_empty, is_blocked, key_id_to_actor_url, normalise_actor_url}
use apoci.Inbox.Follow.{follow_gone}
use apoci.Inbox.Gate.{
  Response, accepted, Task, LoggedActivity, Server, Env, body_limit, is_logged,
  insert_activity_if_new, is_activity_pub_content_type,
}
use apoci.Inbox.Gate.KeyOwner.{IsKeyOf, fetch_key-IsKeyOf}
use apoci.Inbox.Gate.Keys.{
  IsUntouched, IsVerified, IsSignedBy, unchanged, fetch_key-IsUntouched,
  verify_or_refetch-IsVerified,
}
use apoci.Inbox.Gate.Limits.{IsInBudget, actor_allowed-IsUntouched, actor_allowed-IsInBudget}
use apoci.Inbox.Gate.Serve.{
  Verdict, respond, admitted, actor_allowed, logged, deduplicate, check_activity, check_actor,
  read_activity, after_verification, after_key, from_actor, admit,
}

module _ (cfg : Config) (env : Env) where
  open env use {follow, content, crypto}

  -- The request is signed by the actor that the activity names, with a key of that actor; the actor is
  -- not blocked and within its rates; the id is there and short.
  pub record IsAdmissible (r : Request) (s : Server) (task : Task) : Type 0 where
    pub key_id : Text
    pub key_named : crypto.key_id r ≡ some key_id
    pub signer_free : is_blocked content.urls s.blocked (key_id_to_actor_url key_id) ≡ false
    pub sender_free : is_blocked content.urls s.blocked task.activity.actor ≡ false
    pub actor : Text
    pub signer_is : normalise_actor_url content.urls (key_id_to_actor_url key_id) ≡ some actor
    pub sender_is : normalise_actor_url content.urls task.activity.actor ≡ some actor
    pub in_budget : IsInBudget cfg env actor s
    pub signed :
        IsSignedBy cfg env r s
          (take body_limit r.raw_body)
          (key_id_to_actor_url key_id)
          task.public_key_pem
    pub has_id : is_empty task.activity.id ≡ false
    pub short_id : Validate.activity_id task.activity.id ≡ true

  -- How `admit` may end.
  pub data Outcome (r : Request) (s : Server) : Server × Verdict → Type 0 where
    refused :
        (t : Server) (response : Response) → IsUntouched s t → Outcome r s (t, respond response)
    repeated :
        (t : Server) (task : Task)
        → IsUntouched s t
        → IsAdmissible r s task
        → text_eq task.activity.kind activity_follow ≡ true
        → follow_gone content.urls cfg follow task.activity.actor s.store ≡ true
        → Outcome r s (t, admitted task)
    recorded :
        (t : Server) (task : Task) (row : LoggedActivity)
        → IsUntouched s t
        → IsAdmissible r s task
        → row.activity_id ≡ task.activity.id
        → is_logged task.activity.id s.activities ≡ false
        → Outcome r s (record t { activities = t.activities ++ row ∷ [] }, admitted task)

  Outcome-if :
      {r : Request} {s : Server} (b : Bool) (x y : Server × Verdict)
      → (b ≡ true → Outcome r s x)
      → (b ≡ false → Outcome r s y)
      → Outcome r s (if b then x else y)
  Outcome-if true x y h k = h refl
  Outcome-if false x y h k = k refl

  Outcome-elim :
      {A : Type 0} {r : Request} {s : Server} (o : Option A) (x : Server × Verdict)
      (f : A → Server × Verdict)
      → Outcome r s x
      → ((a : A) → o ≡ some a → Outcome r s (f a))
      → Outcome r s (elim o [ none ↦ x | some a ↦ f a ])
  Outcome-elim none x f h k = h
  Outcome-elim (some a) x f h k = k a refl

  module _ (r : Request) (s : Server) where
    still_blocked :
        {t : Server} {b : Bool} (actor_url : Text)
        → IsUntouched s t
        → is_blocked content.urls t.blocked actor_url ≡ b
        → is_blocked content.urls s.blocked actor_url ≡ b
    still_blocked actor_url u h =
        sym (ap (λ (x : Server). is_blocked content.urls x.blocked actor_url) u.same) ∙ h

    logged-Outcome :
        (a : RawActivity) (pem body : Text) (t : Server)
        → IsUntouched s t
        → IsAdmissible r s (record { activity = a; public_key_pem = pem })
        → Outcome r s (logged cfg env a pem body t)
    unfolding logged insert_activity_if_new
    logged-Outcome a pem body t u ok = elim (Bool-cases (is_logged a.id t.activities)) [
      | inl known ↦ rw known (refused t accepted u)
      | inr new ↦ rw new (
          recorded t _ _ u ok refl
            (sym (ap (λ (x : Server). is_logged a.id x.activities) u.same) ∙ new))
    ]

    deduplicate-Outcome :
        (a : RawActivity) (pem body : Text) (t : Server)
        → IsUntouched s t
        → IsAdmissible r s (record { activity = a; public_key_pem = pem })
        → Outcome r s (deduplicate cfg env a pem body t)
    unfolding deduplicate
    deduplicate-Outcome a pem body t u ok =
        Outcome-if (text_eq a.kind activity_follow && _) _ _
          (λ e. repeated t _ u ok (ground arith) (
            sym (ap (λ (x : Server). follow_gone content.urls cfg follow a.actor x.store) u.same)
            ∙ ground arith))
          (λ e.
            Outcome-if env.log_fails _ _ (λ f. refused t _ u)
              (λ f. logged-Outcome a pem body t u ok))

    check_activity-Outcome :
        (a : RawActivity) (actor key_id pem body : Text) (t : Server)
        → IsUntouched s t
        → crypto.key_id r ≡ some key_id
        → is_blocked content.urls s.blocked (key_id_to_actor_url key_id) ≡ false
        → normalise_actor_url content.urls (key_id_to_actor_url key_id) ≡ some actor
        → normalise_actor_url content.urls a.actor ≡ some actor
        → IsSignedBy cfg env r s (take body_limit r.raw_body) (key_id_to_actor_url key_id) pem
        → Outcome r s (check_activity cfg env a actor pem body t)
    unfolding check_activity
    check_activity-Outcome a actor key_id pem body t u key free signer sender auth =
        let u' = actor_allowed-IsUntouched cfg env s actor t u in
        Outcome-if (is_blocked content.urls t.blocked a.actor) _ _ (λ e. refused t _ u)
          (λ sender_free.
            Outcome-if (not (actor_allowed cfg env actor t).1) _ _ (λ e. refused _ _ u')
              (λ within.
                Outcome-if (is_empty a.id) _ _ (λ e. refused _ _ u')
                  (λ has.
                    Outcome-if (not (Validate.activity_id a.id)) _ _ (λ e. refused _ _ u')
                      (λ short. deduplicate-Outcome a pem body _ u' (record {
                        key_id = key_id;
                        key_named = key;
                        signer_free = free;
                        sender_free = still_blocked a.actor u sender_free;
                        actor = actor;
                        signer_is = signer;
                        sender_is = sender;
                        in_budget = actor_allowed-IsInBudget cfg env s actor t u (ground arith);
                        signed = auth;
                        has_id = has;
                        short_id = ground arith;
                      })))))

    check_actor-Outcome :
        (a : RawActivity) (claimed signed : Option Text) (key_id pem body : Text) (t : Server)
        → IsUntouched s t
        → crypto.key_id r ≡ some key_id
        → is_blocked content.urls s.blocked (key_id_to_actor_url key_id) ≡ false
        → normalise_actor_url content.urls (key_id_to_actor_url key_id) ≡ signed
        → normalise_actor_url content.urls a.actor ≡ claimed
        → IsSignedBy cfg env r s (take body_limit r.raw_body) (key_id_to_actor_url key_id) pem
        → Outcome r s (check_actor cfg env a claimed signed pem body t)
    unfolding check_actor
    check_actor-Outcome a none signed key_id pem body t u key free sn cl auth = refused t _ u
    check_actor-Outcome a (some c) none key_id pem body t u key free sn cl auth = refused t _ u
    check_actor-Outcome a (some c) (some n) key_id pem body t u key free sn cl auth =
        Outcome-if (text_eq c n) _ _
          (λ e.
            check_activity-Outcome a c key_id pem body t u key free
              (sn ∙ ap some (sym ((text_eq_iff c n).0 e))) cl auth)
          (λ e. refused t _ u)

    read_activity-Outcome :
        (found : Option RawActivity) (key_id pem body : Text) (t : Server)
        → IsUntouched s t
        → crypto.key_id r ≡ some key_id
        → is_blocked content.urls s.blocked (key_id_to_actor_url key_id) ≡ false
        → IsSignedBy cfg env r s (take body_limit r.raw_body) (key_id_to_actor_url key_id) pem
        → Outcome r s (read_activity cfg env (key_id_to_actor_url key_id) found pem body t)
    unfolding read_activity
    read_activity-Outcome none key_id pem body t u key free auth = refused t _ u
    read_activity-Outcome (some a) key_id pem body t u key free auth =
        check_actor-Outcome a _ _ key_id pem body t u key free refl refl auth

    after_verification-Outcome :
        (x : Server × Option Text) (key_id : Text)
        → IsVerified cfg env r s (take body_limit r.raw_body) (key_id_to_actor_url key_id) x
        → crypto.key_id r ≡ some key_id
        → is_blocked content.urls s.blocked (key_id_to_actor_url key_id) ≡ false
        → Outcome r s
            (after_verification cfg env (key_id_to_actor_url key_id) (take body_limit r.raw_body) x)
    unfolding after_verification
    after_verification-Outcome (t, none) key_id v key free = refused t _ v.untouched
    after_verification-Outcome (t, some pem) key_id v key free =
        read_activity-Outcome _ key_id pem _ t v.untouched key free (v.signed pem refl)

    after_key-Outcome :
        (x : Server × Option Text) (key_id : Text)
        → IsUntouched s x.0
        → ((pem : Text) → x.1 ≡ some pem → IsKeyOf cfg env s (key_id_to_actor_url key_id) pem)
        → crypto.key_id r ≡ some key_id
        → is_blocked content.urls s.blocked (key_id_to_actor_url key_id) ≡ false
        → Outcome r s
            (after_key cfg env r (key_id_to_actor_url key_id) (take body_limit r.raw_body) x)
    unfolding after_key
    after_key-Outcome (t, none) key_id u known key free = refused t _ u
    after_key-Outcome (t, some pem) key_id u known key free =
        after_verification-Outcome _ key_id
          (verify_or_refetch-IsVerified cfg env s r (take body_limit r.raw_body) _ t pem u
            (known pem refl))
          key free

    from_actor-Outcome :
        (key_id : Text)
        → crypto.key_id r ≡ some key_id
        → Outcome r s
            (from_actor cfg env r (key_id_to_actor_url key_id) (take body_limit r.raw_body) s)
    unfolding from_actor
    from_actor-Outcome key_id key =
        Outcome-if (is_blocked content.urls s.blocked (key_id_to_actor_url key_id)) _ _
          (λ e. refused s _ (unchanged s))
          (λ free.
            after_key-Outcome _ key_id (fetch_key-IsUntouched cfg env s _)
              (fetch_key-IsKeyOf cfg env s (key_id_to_actor_url key_id)) key free)

    pub admit-Outcome : Outcome r s (admit cfg env r s)
    unfolding admit
    admit-Outcome =
        Outcome-if (not (text_eq r.method (codes "POST"))) _ _ (λ e. refused s _ (unchanged s))
          (λ e1.
            Outcome-if (not (is_activity_pub_content_type r.content_type)) _ _
              (λ e. refused s _ (unchanged s))
              (λ e2.
                Outcome-if r.read_fails _ _ (λ e. refused s _ (unchanged s))
                  (λ e3.
                    Outcome-elim (crypto.key_id r) _
                      (λ k.
                        from_actor cfg env r (key_id_to_actor_url k) (take body_limit r.raw_body) s)
                      (refused s _ (unchanged s)) from_actor-Outcome)))
