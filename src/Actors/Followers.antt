-- ===== src/Actors/Followers.antt =====
-- Which statements of internal/database/actors.go can make an actor a follower, and the life of
-- an outgoing follow.
use apoci.Prelude.{
  ℕ, Text, text_eq_refl, ◌≡◌, refl, Bool, true, false, inl, inr, Option, none, some, arith,
  Bool-cases, if◌then◌else◌,
}
use apoci.Prelude.Maps
use apoci.Prelude.Maps.{Map, get-put}
use apoci.Result.{Result, ok, err, unavailable, no_row, attempt}
use apoci.Actors.{
  Actor, Store, FollowRequest, Faults, only, write_row, update_where, lenient, delete_request,
  add_follow_request, accept_outgoing_follow, accept_outgoing, reject_outgoing_follow,
  reject_outgoing, reject_follow_request, reject_request, remove_follow, remove_follower,
}

abbrev pub follows_us : Option Actor → Bool
follows_us none = false
follows_us (some a) = a.they_follow_us

abbrev pub is_follower : Text → Store → Bool
is_follower url s = follows_us (Maps.get url s.actors)

-- The statement does not make the actor a follower.
abbrev pub OkNoGain : Text → Store → Result Store → Type 0
OkNoGain url s (ok t) = is_follower url t ≡ true → is_follower url s ≡ true
OkNoGain url s (err e) = Unit

module _ (a : Text) where
  written :
      (f : Actor → Actor) (p : Actor → Bool) (s : Store) (o : Option Actor)
      → ((r : Actor) → (f r).they_follow_us ≡ true → r.they_follow_us ≡ true)
      → Maps.get a s.actors ≡ o
      → OkNoGain a s (write_row a f (only p o) s)
  written f p s none keeps e = tt
  written f p s (some r) keeps e = elim (Bool-cases (p r)) [
    | inr no_match ↦ rw no_match tt
    | inl match ↦ rw match (λ h. rw e (keeps r (rw (get-put, text_eq_refl) at h)))
  ]

  update_where-gain :
      (fails : Bool) (p : Actor → Bool) (f : Actor → Actor) (s : Store)
      → ((r : Actor) → (f r).they_follow_us ≡ true → r.they_follow_us ≡ true)
      → OkNoGain a s (update_where fails a p f s)
  unfolding update_where
  update_where-gain true p f s keeps = tt
  update_where-gain false p f s keeps = written f p s (Maps.get a s.actors) keeps refl

  module _ (faults : Faults) (s : Store) where
    pub remove_follow-gain : OkNoGain a s (remove_follow faults a s)
    unfolding remove_follow
    remove_follow-gain = update_where-gain (faults remove_follower) _ _ s (λ r h. cc)

    pub accept_outgoing-gain : (now : ℕ) → OkNoGain a s (accept_outgoing_follow faults now a s)
    unfolding accept_outgoing_follow
    accept_outgoing-gain now = update_where-gain (faults accept_outgoing) _ _ s (λ r h. h)

    lenient-gain : (r : Result Store) → OkNoGain a s r → OkNoGain a s (lenient s r)
    lenient-gain (ok t) h = h
    lenient-gain (err unavailable) h = tt
    lenient-gain (err no_row) h = λ x. x

    pub reject_outgoing-gain : (now : ℕ) → OkNoGain a s (reject_outgoing_follow faults now a s)
    unfolding reject_outgoing_follow
    reject_outgoing-gain now =
        lenient-gain _ (update_where-gain (faults reject_outgoing) _ _ s (λ r h. h))

    pub reject_request-gain : OkNoGain a s (reject_follow_request faults a s)
    unfolding reject_follow_request
    reject_request-gain = go (faults reject_request) (Maps.get a s.requests)
      where
        go :
            (fails : Bool) (o : Option FollowRequest)
            → OkNoGain a s (if fails then attempt true s else delete_request a o s)
        go true o = tt
        go false none = tt
        go false (some fr) = λ h. h

    pub add_request-gain :
        (now : ℕ) (key endpoint : Text) (alias : Option Text)
        → OkNoGain a s (add_follow_request faults now a key endpoint alias s)
    unfolding add_follow_request
    add_request-gain now key endpoint alias = ground arith
