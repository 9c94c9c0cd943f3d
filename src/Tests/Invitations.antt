-- ===== src/Tests/Invitations.antt =====
-- Runs of the inbox with a Follow that nobody has invited.
use mathlib.Core.Path.{subst}
use mathlib.Core.Option.{some_inj}
use apoci.Prelude.{refl, true, false, some, List, [], ◌∷◌, ◌≡◌, codes, Text}
use apoci.Prelude.Maps
use apoci.Actors.{FollowRequest}
use apoci.Actors.Followers.{is_follower}
use apoci.Inbox.Content.Handlers.Activities.{RespectsActors}
use apoci.Inbox.Gate.{Env}
use apoci.Inbox.Gate.Once.{Event, receive, turn}
use apoci.Inbox.Gate.Uninvited.{after, InvitesNone, no_uninvited_follower}
use apoci.Tests.{alice}
use apoci.Tests.Follows.{asking}
use apoci.Tests.Contents.{config, noting}
use apoci.Tests.Gates.{gate, signed, server, trusting}

-- Alice's requests are signed, and her Follow is dispatched at once.
abbrev knocking : Env
knocking = record gate {
  lookup = λ type. some noting;
  crypto = record trusting { key_id = λ _. some alice };
  unmarshal = λ _. some asking;
  fetch_key = λ _. some (record { owner = alice; public_key_pem = codes "k" });
  has_worker = false;
}

knocking-InvitesNone : InvitesNone knocking.lookup
knocking-InvitesNone type i b before e =
    subst (RespectsActors (λ t. is_follower b t ≡ true → is_follower b before ≡ true))
      (some_inj.0 e) (λ kind type' obj actor s h. h)

abbrev events : List Event
events = receive knocking signed ∷ turn knocking ∷ []

no_uninvited_follower_example : is_follower alice (after config events server).store ≡ false
unfolding Maps.get
no_uninvited_follower_example =
    no_uninvited_follower config refl refl alice events server
      (knocking-InvitesNone, (knocking-InvitesNone, tt)) refl

-- Whether she is left with a pending request, which is for the operator to accept.
abbrev requests_left : List (Text × FollowRequest)
requests_left = (after config events server).store.requests
