-- ===== src/Inbox/Follow/Followers.antt =====
-- Who becomes a follower through the inbox (internal/activitypub/inbox_follow.go).
use apoci.Prelude.{
  Text, text_eq, ◌≡◌, refl, ◌⊎◌, inl, inr, Bool, true, false, ◌&&◌, Option, none, some, Bool-cases,
  codes, ap, if◌then◌else◌, sym, ◌∙◌,
}
use apoci.Urls.{Urls}
use apoci.Activity.{Object, object_map, object_id, object_other, text_field, activity_follow}
use apoci.Result.{Result, ok, err, attempt}
use apoci.Actors.{
  Store, add_follow_request, add_request, get_outgoing_follow, accept_outgoing_follow,
  reject_outgoing_follow, remove_follow,
}
use apoci.Actors.Followers.{
  is_follower, OkNoGain, remove_follow-gain, reject_request-gain, reject_outgoing-gain,
  accept_outgoing-gain,
}
use apoci.Inbox.{Config, AutoAccept, accept_none, accept_all, accept_mutual}
use apoci.Inbox.Follow.{
  State, Env, keep, follow_object, follow_target, requested, should_auto_accept, expects_accept,
  accept_back, accept_follow_object, accept_object, reject_object, undo_object, names,
}
use apoci.Inbox.Follow.Isolation.{store-notify}

keep-gain :
    (a : Text) (s : State) (r : Result Store)
    → OkNoGain a s.store r
    → is_follower a (keep s r).store ≡ true
    → is_follower a s.store ≡ true
unfolding keep
keep-gain a s (ok t) h = h
keep-gain a s (err e) h = λ x. x

module _ (urls : Urls) (cfg : Config) (env : Env) (a : Text) where
  welcome-actors :
      (s t : Store)
      → t.actors ≡ s.actors
      → should_auto_accept urls cfg env a t ≡ should_auto_accept urls cfg env a s
  unfolding should_auto_accept get_outgoing_follow
  welcome-actors s t e =
      ap (λ m. should_auto_accept urls cfg env a (record { actors = m; requests = t.requests })) e

  -- The actor is a follower after `t` only if it was one at `s` or `P` holds.
  abbrev pub Gains : Type 0 → State → State → Type 0
  Gains P s t = is_follower a t.store ≡ true → (is_follower a s.store ≡ true) ⊎ P

  abbrev pub Welcome : State → Type 0
  Welcome s = should_auto_accept urls cfg env a s.store ≡ true

  requested-gain :
      (s : State) (key endpoint : Text) (alias : Option Text)
      → Gains
          (Welcome s)
          s
          (requested urls cfg env a s
            (add_follow_request env.faults env.now a key endpoint alias s.store)).0
  unfolding requested add_follow_request
  requested-gain s key endpoint alias = go (env.faults add_request) _ refl
    where
      go :
          (fails : Bool) (t : Store)
          → t.actors ≡ s.store.actors
          → Gains (Welcome s) s (requested urls cfg env a s (attempt fails t)).0
      go true t e = λ h. inl h
      go false t e = elim (Bool-cases (should_auto_accept urls cfg env a t)) [
        | inl auto ↦ λ h. inr (sym (welcome-actors s.store t e) ∙ auto)
        | inr by_hand ↦
            rw (by_hand, store-notify urls cfg env a (record s { store = t }))
              (λ h. inl (rw e at h))
      ]

  target-gain :
      (target key : Text) (s : State)
      → Gains (Welcome s) s (follow_target urls cfg env a target key s).0
  unfolding follow_target
  target-gain target key s = elim (Bool-cases (text_eq target cfg.actor_url)) [
    | inr other ↦ rw other (λ h. inl h)
    | inl ours ↦ elim (Bool-cases (text_eq a cfg.actor_url)) [
      | inl own ↦ rw (ours, own) (λ h. inl h)
      | inr peer ↦ rw (ours, peer) (requested-gain s key _ env.alias)
    ]
  ]

  pub object-gain :
      (o : Object) (key : Text) (s : State)
      → Gains (Welcome s) s (follow_object urls cfg env a o key s).0
  unfolding follow_object
  object-gain (object_id target) key s = target-gain target key s
  object-gain (object_map obj) key s = λ h. inl h
  object-gain object_other key s = λ h. inl h

  -- The outgoing follow to the actor is pending, and pending requests are accepted mutually.
  abbrev pub Mutual : State → Type 0
  Mutual s =
      (cfg.auto_accept ≡ accept_mutual)
      × (expects_accept urls cfg env (get_outgoing_follow env.faults a s.store) ≡ true)

  back-gain :
      (mode : AutoAccept) (s t : State)
      → (is_follower a t.store ≡ true → is_follower a s.store ≡ true)
      → Gains (mode ≡ accept_mutual) s (accept_back urls cfg env mode a t)
  unfolding accept_back
  back-gain accept_mutual s t k = λ h. inr refl
  back-gain accept_none s t k = λ h. inl (k h)
  back-gain accept_all s t k = λ h. inl (k h)

  accepted-gain : (s : State) → Gains (Mutual s) s (accept_follow_object urls cfg env a s)
  unfolding accept_follow_object
  accepted-gain s =
      elim (Bool-cases (expects_accept urls cfg env (get_outgoing_follow env.faults a s.store))) [
        | inr unknown ↦ rw unknown (λ h. inl h)
        | inl expected ↦ rw expected (λ h.
            elim (back-gain cfg.auto_accept s
              (keep s (accept_outgoing_follow env.faults env.now a s.store))
              (keep-gain a s _ (accept_outgoing-gain a env.faults s.store env.now)) h) [
                | inl before ↦ inl before
                | inr both ↦ inr (both, refl)
              ])
      ]

  pub accept_object-gain :
      (kind : Option Text) (s : State) → Gains (Mutual s) s (accept_object urls cfg env a kind s).0
  unfolding accept_object
  accept_object-gain none s = λ h. inl h
  accept_object-gain (some kind) s = elim (Bool-cases (text_eq kind activity_follow)) [
    | inl follow ↦ rw follow (accepted-gain s)
    | inr other ↦ rw other (λ h. inl h)
  ]

  pub reject-gain :
      (kind : Option Text) (s : State)
      → is_follower a (reject_object urls cfg env a kind s).store ≡ true
      → is_follower a s.store ≡ true
  unfolding reject_object
  reject-gain none s = λ h. h
  reject-gain (some kind) s = elim (Bool-cases (text_eq kind activity_follow)) [
    | inr other ↦ rw other (λ h. h)
    | inl follow ↦
        let s' = keep s (reject_outgoing_follow env.faults env.now a s.store) in
        rw follow (λ h.
          keep-gain a s _ (reject_outgoing-gain a env.faults s.store env.now)
            (keep-gain a s' _ (reject_request-gain a env.faults s'.store) h))
  ]

  pub undo-gain :
      (o : Object) (s : State)
      → is_follower a (undo_object urls cfg env a o s).store ≡ true
      → is_follower a s.store ≡ true
  unfolding undo_object
  undo-gain (object_id _) s = λ h. h
  undo-gain object_other s = λ h. h
  undo-gain (object_map obj) s = go (
      text_eq (text_field (codes "type") obj) activity_follow
      && names urls cfg env (text_field (codes "actor") obj) a
      && names urls cfg env (text_field (codes "object") obj) cfg.actor_url)
    where
      go :
          (t : Bool)
          → is_follower a (if t then keep s (remove_follow env.faults a s.store) else s).store
            ≡ true
          → is_follower a s.store ≡ true
      go true = keep-gain a s _ (remove_follow-gain a env.faults s.store)
      go false = λ h. h
