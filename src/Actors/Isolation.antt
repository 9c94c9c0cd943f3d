-- ===== src/Actors/Isolation.antt =====
-- Each statement of internal/database/actors.go that names one actor leaves the rows of all other
-- actors as they are.
use apoci.Prelude.{
  Text, text_eq, ◌≡◌, refl, true, false, Option, none, some, ℕ, ◌∙◌, Bool, if◌then◌else◌,
}
use apoci.Prelude.Maps
use apoci.Prelude.Maps.{Map}
use apoci.Prelude.Maps.{get-put, get-delete}
use apoci.Result.{Result, ok, err, unavailable, no_row, attempt, ◌>>=◌}
use apoci.Actors.{
  Actor, FollowRequest, only, write_row, update_where, lenient, delete_request, promote_request,
  add_request, reject_request, add_follower, remove_follower, accept_outgoing, reject_outgoing,
  Store, Faults, add_follow_request, accept_follow_request, accept_outgoing_follow,
  reject_outgoing_follow, reject_follow_request, remove_follow, add_follow, get_follow_request,
}

-- The two stores hold the same of one actor.
pub record SameAt (url : Text) (s t : Store) : Type 0 where
  pub actor : Maps.get url t.actors ≡ Maps.get url s.actors
  pub request : Maps.get url t.requests ≡ Maps.get url s.requests

abbrev pub OkSame : Text → Store → Result Store → Type 0
OkSame url s (ok t) = SameAt url s t
OkSame url s (err e) = Unit

pub SameAt-refl : (url : Text) (s : Store) → SameAt url s s
SameAt-refl url s = record { actor = refl; request = refl }

pub SameAt-trans : (url : Text) (s t u : Store) → SameAt url s t → SameAt url t u → SameAt url s u
SameAt-trans url s t u p q = record { actor = q.actor ∙ p.actor; request = q.request ∙ p.request }

module _ (a b : Text) (ne : text_eq a b ≡ false) where
  put_other {ℓ} : {V : Type ℓ} (v : V) (m : Map V) → Maps.get b (Maps.put a v m) ≡ Maps.get b m
  put_other v m = rw (get-put, ne)

  delete_other {ℓ} : {V : Type ℓ} (m : Map V) → Maps.get b (Maps.delete a m) ≡ Maps.get b m
  delete_other m = rw (get-delete, ne)

  pub write_row-same :
      (f : Actor → Actor) (o : Option Actor) (s : Store) → OkSame b s (write_row a f o s)
  write_row-same f none s = tt
  write_row-same f (some r) s = record { actor = put_other (f r) s.actors; request = refl }

  pub update_where-same :
      (fails : Bool) (p : Actor → Bool) (f : Actor → Actor) (s : Store)
      → OkSame b s (update_where fails a p f s)
  unfolding update_where
  update_where-same true p f s = tt
  update_where-same false p f s = write_row-same f (only p (Maps.get a s.actors)) s

  pub lenient-same : (r : Result Store) (s : Store) → OkSame b s r → OkSame b s (lenient s r)
  lenient-same (ok t) s h = h
  lenient-same (err unavailable) s h = tt
  lenient-same (err no_row) s h = SameAt-refl b s

  pub delete_request-same :
      (o : Option FollowRequest) (s : Store) → OkSame b s (delete_request a o s)
  unfolding delete_request
  delete_request-same none s = tt
  delete_request-same (some fr) s = record { actor = refl; request = delete_other s.requests }

  module _ (faults : Faults) (s : Store) where
    pub remove_follow-same : OkSame b s (remove_follow faults a s)
    unfolding remove_follow
    remove_follow-same = update_where-same (faults remove_follower) _ _ s

    pub reject_request-same : OkSame b s (reject_follow_request faults a s)
    unfolding reject_follow_request
    reject_request-same = go (faults reject_request)
      where
        go :
            (fails : Bool)
            → OkSame b s
                (if fails then attempt true s else delete_request a (Maps.get a s.requests) s)
        go true = tt
        go false = delete_request-same (Maps.get a s.requests) s

    pub accept_outgoing-same : (now : ℕ) → OkSame b s (accept_outgoing_follow faults now a s)
    unfolding accept_outgoing_follow
    accept_outgoing-same now = update_where-same (faults accept_outgoing) _ _ s

    pub reject_outgoing-same : (now : ℕ) → OkSame b s (reject_outgoing_follow faults now a s)
    unfolding reject_outgoing_follow
    reject_outgoing-same now = lenient-same _ s (update_where-same (faults reject_outgoing) _ _ s)

    pub attempt-same : (fails : Bool) (t : Store) → SameAt b s t → OkSame b s (attempt fails t)
    attempt-same true t h = tt
    attempt-same false t h = h

    pub add_request-same :
        (now : ℕ) (key endpoint : Text) (alias : Option Text)
        → OkSame b s (add_follow_request faults now a key endpoint alias s)
    unfolding add_follow_request
    add_request-same now key endpoint alias =
        attempt-same (faults add_request) _
          (record { actor = refl; request = put_other _ s.requests })

    pub add_follow-same :
        (now : ℕ) (key endpoint : Text) (alias : Option Text)
        → OkSame b s (add_follow faults now a key endpoint alias s)
    unfolding add_follow
    add_follow-same now key endpoint alias =
        attempt-same (faults add_follower) _
          (record { actor = put_other _ s.actors; request = delete_other s.requests })

    pub promote-same :
        (now : ℕ) (o : Result (Option FollowRequest))
        → OkSame b s (o >>= λ fr. promote_request faults now a fr s)
    unfolding promote_request
    promote-same now (ok none) = tt
    promote-same now (ok (some fr)) = add_follow-same now fr.public_key_pem fr.endpoint fr.alias
    promote-same now (err e) = tt

    pub accept_request-same : (now : ℕ) → OkSame b s (accept_follow_request faults now a s)
    unfolding accept_follow_request
    accept_request-same now = promote-same now (get_follow_request faults a s)
