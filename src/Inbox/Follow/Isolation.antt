-- ===== src/Inbox/Follow/Isolation.antt =====
-- What the handlers of internal/activitypub/inbox_follow.go leave alone: the rows of all other
-- actors, and, where they return an error, everything.
use apoci.Prelude.{
  Text, text_eq, ◌≡◌, true, false, Option, none, some, arith, inl, inr, Bool, if◌then◌else◌,
  Bool-cases, codes, ◌&&◌,
}
use apoci.Urls.{Urls, endpoint_from_actor_url}
use apoci.Activity.{
  RawActivity, Object, object_map, object_id, object_other, text_field, extract_object_type,
  activity_follow,
}
use apoci.Result.{Result, ok, err}
use apoci.Actors.{
  FollowRequest, Store, accept_follow_request, accept_outgoing_follow, reject_outgoing_follow,
  remove_follow, get_follow_request, get_outgoing_follow,
}
use apoci.Inbox.{Config, AutoAccept, accept_none, accept_all, accept_mutual}
use apoci.Inbox.Follow.{
  State, Env, keep, process_follow, process_accept, process_reject, process_undo, requested,
  promote, follow_object, follow_target, accept_back_request, accept_back, accept_follow_object,
  accept_object, reject_object, undo_object, notify, send_accept, names, should_auto_accept,
  expects_accept,
}
use apoci.Actors.Isolation.{
  SameAt, OkSame, SameAt-refl, SameAt-trans, remove_follow-same, reject_request-same,
  accept_outgoing-same, reject_outgoing-same, add_request-same, accept_request-same,
}

keep-same :
    (b : Text) (s : State) (r : Result Store)
    → OkSame b s.store r
    → SameAt b s.store (keep s r).store
unfolding keep
keep-same b s (ok t) h = h
keep-same b s (err e) h = SameAt-refl b s.store

module _ (urls : Urls) (cfg : Config) (env : Env) (a : Text) where
  pub store-notify : (s : State) → (notify urls cfg env a s).store ≡ s.store
  unfolding notify
  store-notify s = ground arith

  pub store-send_accept : (s : State) → (send_accept urls cfg env a s).store ≡ s.store
  unfolding send_accept
  store-send_accept s = ground arith

module _ (urls : Urls) (cfg : Config) (env : Env) (a b : Text) (ne : text_eq a b ≡ false) where
  Keeps : State → State → Type 0
  Keeps s t = SameAt b s.store t.store

  promoted-same :
      (s : State) (r : Result Store) → OkSame b s.store r → Keeps s (promote urls cfg env a s r)
  unfolding promote Keeps
  promoted-same s (ok t) h = rw (store-send_accept urls cfg env a (record s { store = t })) h
  promoted-same s (err e) h = rw (store-notify urls cfg env a s) (SameAt-refl b s.store)

  requested-same :
      (s : State) (r : Result Store) → OkSame b s.store r → Keeps s (requested urls cfg env a s r).0
  unfolding requested Keeps
  requested-same s (err e) h = SameAt-refl b s.store
  requested-same s (ok t) h = elim (Bool-cases (should_auto_accept urls cfg env a t)) [
    | inl auto ↦ rw auto (
        SameAt-trans b s.store t _ h (
          promoted-same (record s { store = t }) (accept_follow_request env.faults env.now a t)
            (accept_request-same a b ne env.faults t env.now)))
    | inr by_hand ↦ rw (by_hand, store-notify urls cfg env a (record s { store = t })) h
  ]

  target-same :
      (target key : Text) (s : State) → Keeps s (follow_target urls cfg env a target key s).0
  unfolding follow_target Keeps
  target-same target key s = elim (Bool-cases (text_eq target cfg.actor_url)) [
    | inr other ↦ rw other (SameAt-refl b s.store)
    | inl ours ↦ elim (Bool-cases (text_eq a cfg.actor_url)) [
      | inl own ↦ rw (ours, own) (SameAt-refl b s.store)
      | inr peer ↦
          rw (ours, peer)
            (requested-same s _ (
              add_request-same a b ne env.faults s.store env.now key
                (endpoint_from_actor_url urls a) env.alias))
    ]
  ]

  object-same :
      (o : Object) (key : Text) (s : State) → Keeps s (follow_object urls cfg env a o key s).0
  unfolding follow_object Keeps
  object-same (object_id target) key s = target-same target key s
  object-same (object_map obj) key s = SameAt-refl b s.store
  object-same object_other key s = SameAt-refl b s.store

  back_request-same :
      (s : State) (r : Result (Option FollowRequest))
      → Keeps s (accept_back_request urls cfg env a s r)
  unfolding accept_back_request Keeps
  back_request-same s (err e) = SameAt-refl b s.store
  back_request-same s (ok none) = SameAt-refl b s.store
  back_request-same s (ok (some fr)) =
      go (accept_follow_request env.faults env.now a s.store)
        (accept_request-same a b ne env.faults s.store env.now)
    where
      go :
          (r : Result Store)
          → OkSame b s.store r
          → SameAt b s.store
              (elim r as (λ x. State) [
                | ok store ↦ send_accept urls cfg env a (record s { store = store })
                | err e ↦ s
              ]).store
      go (ok t) h = rw (store-send_accept urls cfg env a (record s { store = t })) h
      go (err e) h = SameAt-refl b s.store

  back-same : (mode : AutoAccept) (s : State) → Keeps s (accept_back urls cfg env mode a s)
  unfolding accept_back Keeps
  back-same accept_mutual s = back_request-same s (get_follow_request env.faults a s.store)
  back-same accept_none s = SameAt-refl b s.store
  back-same accept_all s = SameAt-refl b s.store

  accepted-same : (s : State) → Keeps s (accept_follow_object urls cfg env a s)
  unfolding accept_follow_object Keeps
  accepted-same s =
      elim (Bool-cases (expects_accept urls cfg env (get_outgoing_follow env.faults a s.store))) [
        | inr unknown ↦ rw unknown (SameAt-refl b s.store)
        | inl expected ↦ rw expected (
            SameAt-trans b s.store _ _
              (keep-same b s _ (accept_outgoing-same a b ne env.faults s.store env.now))
              (back-same cfg.auto_accept
                (keep s (accept_outgoing_follow env.faults env.now a s.store))))
      ]

  accept_object-same :
      (kind : Option Text) (s : State) → Keeps s (accept_object urls cfg env a kind s).0
  unfolding accept_object Keeps
  accept_object-same none s = SameAt-refl b s.store
  accept_object-same (some kind) s = elim (Bool-cases (text_eq kind activity_follow)) [
    | inl follow ↦ rw follow (accepted-same s)
    | inr other ↦ rw other (SameAt-refl b s.store)
  ]

  reject-same : (kind : Option Text) (s : State) → Keeps s (reject_object urls cfg env a kind s)
  unfolding reject_object Keeps
  reject-same none s = SameAt-refl b s.store
  reject-same (some kind) s = elim (Bool-cases (text_eq kind activity_follow)) [
    | inr other ↦ rw other (SameAt-refl b s.store)
    | inl follow ↦
        let s' = keep s (reject_outgoing_follow env.faults env.now a s.store) in
        rw follow (
          SameAt-trans b s.store s'.store _
            (keep-same b s _ (reject_outgoing-same a b ne env.faults s.store env.now))
            (keep-same b s' _ (reject_request-same a b ne env.faults s'.store)))
  ]

  undo-same : (o : Object) (s : State) → Keeps s (undo_object urls cfg env a o s)
  unfolding undo_object Keeps
  undo-same (object_id _) s = SameAt-refl b s.store
  undo-same object_other s = SameAt-refl b s.store
  undo-same (object_map obj) s = go (
      text_eq (text_field (codes "type") obj) activity_follow
      && names urls cfg env (text_field (codes "actor") obj) a
      && names urls cfg env (text_field (codes "object") obj) cfg.actor_url)
    where
      go :
          (t : Bool)
          → SameAt b s.store (if t then keep s (remove_follow env.faults a s.store) else s).store
      go true = keep-same b s _ (remove_follow-same a b ne env.faults s.store)
      go false = SameAt-refl b s.store

-- Whatever the faults of the database, an incoming Follow, Accept, Reject or Undo changes neither
-- the row nor the pending request of any actor but the one that sent it.
pub others_untouched :
    (urls : Urls) (cfg : Config) (env : Env) (act : RawActivity) (key b : Text) (s : State)
    → text_eq act.actor b ≡ false
    → SameAt b s.store (process_follow urls cfg env act key s).0.store
      × SameAt b s.store (process_accept urls cfg env act s).0.store
      × SameAt b s.store (process_reject urls cfg env act s).0.store
      × SameAt b s.store (process_undo urls cfg env act s).0.store
unfolding process_follow process_accept process_reject process_undo Keeps
others_untouched urls cfg env act key b s ne = (
  object-same urls cfg env act.actor b ne act.object key s,
  accept_object-same urls cfg env act.actor b ne (extract_object_type act.object) s,
  reject-same urls cfg env act.actor b ne (extract_object_type act.object) s,
  undo-same urls cfg env act.actor b ne act.object s,
)
