-- ===== src/Inbox/Follow.antt =====
-- internal/activitypub/inbox_follow.go: what incoming Follow, Accept, Reject and Undo activities do
-- to the tables of actors and follow requests. Logging is left out.
pub mod Isolation
pub mod Followers
pub mod Policy
use apoci.Prelude.{
  ℕ, Text, codes, [], ◌∷◌, List, ◌++◌, Bool, true, false, ◌||◌, ◌&&◌, not, Option, none, some,
  text_eq, if◌then◌else◌,
}
use apoci.Prelude.Maps
use apoci.Urls.{Urls, endpoint_from_actor_url}
use apoci.Activity.{
  RawActivity, Object, object_map, object_id, object_other, text_field, extract_object_type,
  activity_follow,
}
use apoci.Result.{Result, ok, err}
use apoci.Actors.{
  Actor, Store, FollowRequest, Faults, add_follow_request, accept_follow_request,
  get_follow_request, get_follow, get_outgoing_follow, accept_outgoing_follow,
  reject_outgoing_follow, reject_follow_request, remove_follow, has_pending_outgoing_follow,
  has_pending_or_accepted_outgoing_follow,
}
use apoci.Inbox.{
  Config, AutoAccept, accept_none, accept_all, accept_mutual, normalise_actor_url, host_allowed,
  is_empty,
}

-- The tables, the actors to whom an Accept was sent, and the actors whose request was notified.
pub record State : Type 0 where
  pub store : Store
  pub accepts : List Text
  pub notices : List Text

-- What one activity meets: the instant, the faults of the database, the alias that a fetch of the
-- actor finds, and whether SendAccept succeeds.
pub record Env : Type 0 where
  pub now : ℕ
  pub faults : Faults
  pub alias : Option Text
  pub send_works : Bool

pub data FollowError : Type 0 where
  invalid_object target_mismatch own_actor storing_request : FollowError

-- The state after an activity, and the error that the handler returns.
abbrev pub Outcome : Type 0
Outcome = State × Option FollowError

unfoldable pub keep : State → Result Store → State
keep s (ok store) = record s { store = store }
keep s (err e) = s

module _ (urls : Urls) (cfg : Config) (env : Env) where
  open env use {now, faults}

  outgoing_welcome : Result (Option Actor) → Bool
  outgoing_welcome (ok a) = has_pending_or_accepted_outgoing_follow a
  outgoing_welcome (err e) = false

  unfoldable pub should_auto_accept : Text → Store → Bool
  unfolding outgoing_welcome
  should_auto_accept actor_url store = elim cfg.auto_accept [
    | accept_all ↦ true
    | accept_mutual ↦
        outgoing_welcome (get_outgoing_follow faults actor_url store)
        || host_allowed urls cfg.allowed_domains actor_url
    | accept_none ↦ host_allowed urls cfg.allowed_domains actor_url
  ]

  unfoldable pub notify : Text → State → State
  notify actor s = if cfg.has_notifier then record s { notices = s.notices ++ actor ∷ [] } else s

  unfoldable pub send_accept : Text → State → State
  send_accept actor s = if env.send_works then record s { accepts = s.accepts ++ actor ∷ [] } else s

  -- The auto-accept branch: a failed promotion leaves the request pending, and is notified.
  unfoldable pub promote : Text → State → Result Store → State
  unfolding notify send_accept
  promote actor s (ok store) = send_accept actor (record s { store = store })
  promote actor s (err e) = notify actor s

  unfoldable pub requested : Text → State → Result Store → Outcome
  unfolding promote notify
  requested actor s (err e) = (s, some storing_request)
  requested actor s (ok store) =
      let s' = record s { store = store } in
      if should_auto_accept actor store
      then (promote actor s' (accept_follow_request faults now actor store), none)
      else (notify actor s', none)

  unfoldable pub follow_target : Text → Text → Text → State → Outcome
  unfolding requested
  follow_target actor target public_key_pem s =
      if not (text_eq target cfg.actor_url)
      then (s, some target_mismatch)
      else if text_eq actor cfg.actor_url
      then (s, some own_actor)
      else requested actor s (
          add_follow_request faults now actor public_key_pem (endpoint_from_actor_url urls actor)
            env.alias s.store)

  unfoldable pub follow_object : Text → Object → Text → State → Outcome
  unfolding follow_target
  follow_object actor (object_id target) public_key_pem s =
      follow_target actor target public_key_pem s
  follow_object actor (object_map obj) public_key_pem s = (s, some invalid_object)
  follow_object actor object_other public_key_pem s = (s, some invalid_object)

  unfoldable pub process_follow : RawActivity → Text → State → Outcome
  unfolding follow_object
  process_follow a public_key_pem s = follow_object a.actor a.object public_key_pem s

  -- The mutual part of processAccept: promote the request of the actor, if there is one.
  unfoldable pub accept_back_request : Text → State → Result (Option FollowRequest) → State
  unfolding send_accept
  accept_back_request actor s (err e) = s
  accept_back_request actor s (ok none) = s
  accept_back_request actor s (ok (some fr)) =
      elim (accept_follow_request faults now actor s.store) [
        | ok store ↦ send_accept actor (record s { store = store })
        | err e ↦ s
      ]

  unfoldable pub accept_back : AutoAccept → Text → State → State
  unfolding accept_back_request
  accept_back accept_mutual actor s =
      accept_back_request actor s (get_follow_request faults actor s.store)
  accept_back accept_none actor s = s
  accept_back accept_all actor s = s

  unfoldable pub expects_accept : Result (Option Actor) → Bool
  expects_accept (ok a) = has_pending_outgoing_follow a
  expects_accept (err e) = false

  unfoldable pub accept_follow_object : Text → State → State
  unfolding expects_accept accept_back keep
  accept_follow_object actor s =
      if expects_accept (get_outgoing_follow faults actor s.store)
      then accept_back cfg.auto_accept actor
          (keep s (accept_outgoing_follow faults now actor s.store))
      else s

  unfoldable pub accept_object : Text → Option Text → State → Outcome
  unfolding accept_follow_object
  accept_object actor none s = (s, some invalid_object)
  accept_object actor (some kind) s =
      if text_eq kind activity_follow then (accept_follow_object actor s, none) else (s, none)

  unfoldable pub process_accept : RawActivity → State → Outcome
  unfolding accept_object
  process_accept a s = accept_object a.actor (extract_object_type a.object) s

  unfoldable pub reject_object : Text → Option Text → State → State
  unfolding keep
  reject_object actor none s = s
  reject_object actor (some kind) s =
      let s' = keep s (reject_outgoing_follow faults now actor s.store) in
      if text_eq kind activity_follow
      then keep s' (reject_follow_request faults actor s'.store)
      else s

  unfoldable pub process_reject : RawActivity → State → Outcome
  unfolding reject_object
  process_reject a s = (reject_object a.actor (extract_object_type a.object) s, none)

  same_url : Option Text → Option Text → Bool
  same_url (some a) (some b) = text_eq a b
  same_url (some a) none = false
  same_url none _ = false

  -- A field that is given must name `whom`, up to normalisation.
  unfoldable pub names : Text → Text → Bool
  unfolding same_url
  names given whom =
      if is_empty given
      then true
      else same_url (normalise_actor_url urls given) (normalise_actor_url urls whom)

  unfoldable pub undo_object : Text → Object → State → State
  unfolding keep names
  undo_object actor (object_map obj) s =
      if text_eq (text_field (codes "type") obj) activity_follow
        && names (text_field (codes "actor") obj) actor
        && names (text_field (codes "object") obj) cfg.actor_url
      then keep s (remove_follow faults actor s.store)
      else s
  undo_object actor (object_id _) s = s
  undo_object actor object_other s = s

  unfoldable pub process_undo : RawActivity → State → Outcome
  unfolding undo_object
  process_undo a s = (undo_object a.actor a.object s, none)

  row_gone {ℓ} : {A : Type ℓ} → Result (Option A) → Bool
  row_gone (ok (some _)) = false
  row_gone (ok none) = true
  row_gone (err e) = true

  -- followGone: an error of either query counts as no row.
  unfoldable pub follow_gone : Text → Store → Bool
  unfolding row_gone
  follow_gone actor_url store =
      row_gone (get_follow faults actor_url store)
      && row_gone (get_follow_request faults actor_url store)
