-- ===== src/Inbox/Follow/Policy.antt =====
-- The acceptance policy of the inbox: who can become a follower without the operator, over one
-- activity and over any sequence of them (internal/activitypub/inbox_follow.go).
use mathlib.Core.Path.{subst}
use apoci.Prelude.{
  Text, [], text_eq, text_eq_iff, ◌≡◌, refl, ◌⊎◌, inl, inr, true, false, arith, Bool-cases, ap, ◌∙◌,
  sym,
}
use apoci.Urls.{Urls}
use apoci.Activity.{RawActivity, extract_object_type}
use apoci.Actors.{Store, get_outgoing_follow}
use apoci.Actors.Followers.{is_follower, follows_us}
use apoci.Actors.Isolation.{SameAt}
use apoci.Inbox.{Config, accept_none, accept_mutual, host_allowed}
use apoci.Inbox.Follow.{
  State, Env, process_follow, process_accept, process_reject, process_undo, should_auto_accept,
  expects_accept,
}
use apoci.Inbox.Follow.Isolation.{others_untouched}
use apoci.Inbox.Follow.Followers.{object-gain, accept_object-gain, reject-gain, undo-gain}

SameAt-follower :
    (b : Text) (s t : Store) → SameAt b s t → is_follower b t ≡ true → is_follower b s ≡ true
SameAt-follower b s t same h = sym (ap follows_us same.actor) ∙ h

also {ℓ} : {A B C : Type ℓ} → C → A ⊎ B → A ⊎ (C × B)
also c (inl x) = inl x
also c (inr y) = inr (c, y)

also_both {ℓ} : {A B C D : Type ℓ} → C → A ⊎ (B × D) → A ⊎ (C × B × D)
also_both c (inl x) = inl x
also_both c (inr (y, z)) = inr (c, y, z)

module _ (urls : Urls) (cfg : Config) (env : Env) (act : RawActivity) (key : Text) (s : State) where
  -- Who is a follower after the activity, for each handler.
  pub record IsByPolicy (b : Text) : Type 0 where
    pub after_follow :
        is_follower b (process_follow urls cfg env act key s).0.store ≡ true
        → (is_follower b s.store ≡ true)
          ⊎ ((act.actor ≡ b) × (should_auto_accept urls cfg env act.actor s.store ≡ true))
    pub after_accept :
        is_follower b (process_accept urls cfg env act s).0.store ≡ true
        → (is_follower b s.store ≡ true)
          ⊎ ((act.actor ≡ b)
              × (cfg.auto_accept ≡ accept_mutual)
              × (expects_accept urls cfg env (get_outgoing_follow env.faults act.actor s.store)
                  ≡ true))
    pub after_reject :
        is_follower b (process_reject urls cfg env act s).0.store ≡ true
        → is_follower b s.store ≡ true
    pub after_undo :
        is_follower b (process_undo urls cfg env act s).0.store ≡ true
        → is_follower b s.store ≡ true

  own_policy : IsByPolicy act.actor
  unfolding process_follow process_accept process_reject process_undo
  own_policy = record {
    after_follow = λ h. also refl (object-gain urls cfg env act.actor act.object key s h);
    after_accept = λ h.
        also_both refl
          (accept_object-gain urls cfg env act.actor (extract_object_type act.object) s h);
    after_reject = λ h. reject-gain urls cfg env act.actor (extract_object_type act.object) s h;
    after_undo = λ h. undo-gain urls cfg env act.actor act.object s h;
  }

  others_policy : (b : Text) → text_eq act.actor b ≡ false → IsByPolicy b
  others_policy b other =
      let (f, a, r, u) = others_untouched urls cfg env act key b s other in
      record {
        after_follow = λ h. inl (SameAt-follower b s.store _ f h);
        after_accept = λ h. inl (SameAt-follower b s.store _ a h);
        after_reject = λ h. SameAt-follower b s.store _ r h;
        after_undo = λ h. SameAt-follower b s.store _ u h;
      }

  -- An activity makes an actor a follower only if that actor sent it and, for a Follow, it is to
  -- be accepted automatically, or, for an Accept, the mode is mutual and our follow of the actor
  -- is pending. A Reject or an Undo makes nobody a follower.
  pub followers-IsByPolicy : (b : Text) → IsByPolicy b
  followers-IsByPolicy b = elim (Bool-cases (text_eq act.actor b)) [
    | inr other ↦ others_policy b other
    | inl own ↦ subst IsByPolicy ((text_eq_iff act.actor b).0 own) own_policy
  ]

-- With automatic acceptance off and no allowed domains, none of the four handlers makes a follower.
module _ (urls : Urls) (cfg : Config) (by_hand : cfg.auto_accept ≡ accept_none)
    (nobody : cfg.allowed_domains ≡ []) where
  never_welcome : (env : Env) (a : Text) (s : Store) → should_auto_accept urls cfg env a s ≡ false
  unfolding should_auto_accept host_allowed
  never_welcome env a s = ground arith

  module _ (env : Env) (act : RawActivity) (s : State) (b : Text) where
    pub follow-gains_none :
        (key : Text)
        → is_follower b (process_follow urls cfg env act key s).0.store ≡ true
        → is_follower b s.store ≡ true
    follow-gains_none key h = ground (
      arith,
      (followers-IsByPolicy urls cfg env act key s b).after_follow h,
      never_welcome env act.actor s.store,
    )

    pub accept-gains_none :
        is_follower b (process_accept urls cfg env act s).0.store ≡ true
        → is_follower b s.store ≡ true
    accept-gains_none h =
        ground (arith, (followers-IsByPolicy urls cfg env act [] s b).after_accept h)
