-- ===== src/Actors.antt =====
-- internal/database/actors.go: the tables actors and follow_requests, both keyed by the actor's
-- URL. Each statement takes whether the database fails it; a statement that fails changes nothing.
pub mod Isolation
pub mod Followers
use apoci.Prelude.{
  ℕ, Text, codes, [], Bool, true, false, ◌&&◌, ◌||◌, Option, none, some, is_some, if◌then◌else◌,
}
use apoci.Prelude.Maps
use apoci.Prelude.Maps.{Map}
use apoci.Result.{Result, ok, err, no_row, unavailable, attempt, ◌>>=◌}

pub data FollowStatus : Type 0 where
  pending accepted rejected : FollowStatus

pub record Actor : Type 0 where
  pub name : Option Text
  pub alias : Option Text
  pub endpoint : Text
  pub public_key_pem : Option Text
  pub they_follow_us : Bool
  pub they_follow_us_at : Option ℕ
  pub we_follow_them : Bool
  pub we_follow_status : Option FollowStatus
  pub we_follow_accept_at : Option ℕ
  pub is_healthy : Bool
  pub replication_policy : Text
  pub last_seen_at : Option ℕ
  pub created_at : ℕ

pub record FollowRequest : Type 0 where
  pub public_key_pem : Text
  pub endpoint : Text
  pub alias : Option Text
  pub requested_at : ℕ

pub record Store : Type 0 where
  pub actors : Map Actor
  pub requests : Map FollowRequest

-- The statements that the database may fail.
pub data Call : Type 0 where
  add_request get_request reject_request get_follower add_follower remove_follower : Call
  get_outgoing accept_outgoing reject_outgoing : Call

abbrev pub Faults : Type 0
Faults = Call → Bool

abbrev coalesce {ℓ} : {A : Type ℓ} → Option A → Option A → Option A
coalesce none b = b
coalesce (some a) b = some a

abbrev merge_upsert : Actor → Option Actor → Actor
merge_upsert a none = a
merge_upsert a (some old) = record {
  name = coalesce a.name old.name;
  alias = coalesce a.alias old.alias;
  endpoint = a.endpoint;
  public_key_pem = coalesce a.public_key_pem old.public_key_pem;
  they_follow_us = if a.they_follow_us then true else old.they_follow_us;
  they_follow_us_at = coalesce a.they_follow_us_at old.they_follow_us_at;
  we_follow_them = if a.we_follow_them then true else old.we_follow_them;
  we_follow_status = coalesce a.we_follow_status old.we_follow_status;
  we_follow_accept_at = coalesce a.we_follow_accept_at old.we_follow_accept_at;
  is_healthy = a.is_healthy;
  replication_policy = a.replication_policy;
  last_seen_at = coalesce a.last_seen_at old.last_seen_at;
  created_at = old.created_at;
}

unfoldable pub upsert_actor : Bool → Text → Actor → Store → Result Store
upsert_actor fails url a s =
    attempt fails
      (record s { actors = Maps.put url (merge_upsert a (Maps.get url s.actors)) s.actors })

-- Go's methods on *Actor.
abbrev pub is_pending : Option FollowStatus → Bool
is_pending (some pending) = true
is_pending _ = false

abbrev pub is_accepted : Option FollowStatus → Bool
is_accepted (some accepted) = true
is_accepted _ = false

abbrev pub has_pending_outgoing_follow : Option Actor → Bool
has_pending_outgoing_follow none = false
has_pending_outgoing_follow (some a) = a.we_follow_them && is_pending a.we_follow_status

abbrev pub has_accepted_outgoing_follow : Option Actor → Bool
has_accepted_outgoing_follow none = false
has_accepted_outgoing_follow (some a) = a.we_follow_them && is_accepted a.we_follow_status

abbrev pub has_pending_or_accepted_outgoing_follow : Option Actor → Bool
has_pending_or_accepted_outgoing_follow a =
    has_pending_outgoing_follow a || has_accepted_outgoing_follow a

-- `WHERE actor_url = ? AND …` on the row that is found.
abbrev pub only : (Actor → Bool) → Option Actor → Option Actor
only p none = none
only p (some a) = if p a then some a else none

-- UPDATE … WHERE actor_url = ? AND …; no_row where no row is affected.
abbrev pub write_row : Text → (Actor → Actor) → Option Actor → Store → Result Store
write_row url f none s = err no_row
write_row url f (some a) s = ok (record s { actors = Maps.put url (f a) s.actors })

unfoldable pub update_where : Bool → Text → (Actor → Bool) → (Actor → Actor) → Store → Result Store
update_where fails url p f s =
    if fails then attempt true s else write_row url f (only p (Maps.get url s.actors)) s

-- RejectOutgoingFollow does not mind that no row is affected.
abbrev pub lenient : Store → Result Store → Result Store
lenient s (ok s') = ok s'
lenient s (err e) = elim e [ unavailable ↦ err unavailable | no_row ↦ ok s ]

unfoldable pub delete_request : Text → Option FollowRequest → Store → Result Store
delete_request url none s = err no_row
delete_request url (some _) s = ok (record s { requests = Maps.delete url s.requests })

module _ (faults : Faults) where
  requested_since : ℕ → Option FollowRequest → ℕ
  requested_since now none = now
  requested_since now (some old) = old.requested_at

  -- INSERT … ON CONFLICT (actor_url) DO UPDATE; a row that is there keeps its requested_at.
  unfoldable pub add_follow_request : ℕ → Text → Text → Text → Option Text → Store → Result Store
  unfolding requested_since
  add_follow_request now url public_key_pem endpoint alias s =
      attempt (faults add_request) (record s {
        requests =
            Maps.put url
              (record {
                public_key_pem = public_key_pem;
                endpoint = endpoint;
                alias = alias;
                requested_at = requested_since now (Maps.get url s.requests);
              })
              s.requests;
      })

  unfoldable pub get_follow_request : Text → Store → Result (Option FollowRequest)
  get_follow_request url s = attempt (faults get_request) (Maps.get url s.requests)

  unfoldable pub reject_follow_request : Text → Store → Result Store
  unfolding delete_request
  reject_follow_request url s =
      if faults reject_request
      then attempt true s
      else delete_request url (Maps.get url s.requests) s

  unfoldable pub get_follow : Text → Store → Result (Option Actor)
  get_follow url s =
      attempt (faults get_follower) (only (λ a. a.they_follow_us) (Maps.get url s.actors))

  promoted : ℕ → Text → Text → Option Text → Option Actor → Actor
  promoted now public_key_pem endpoint alias none = record {
    name = none;
    alias = alias;
    endpoint = endpoint;
    public_key_pem = some public_key_pem;
    they_follow_us = true;
    they_follow_us_at = some now;
    we_follow_them = false;
    we_follow_status = none;
    we_follow_accept_at = none;
    is_healthy = true;
    replication_policy = codes "lazy";
    last_seen_at = none;
    created_at = now;
  }
  promoted now public_key_pem endpoint alias (some old) = record old {
    public_key_pem = some public_key_pem;
    endpoint = endpoint;
    alias = coalesce alias old.alias;
    they_follow_us = true;
    they_follow_us_at = some now;
  }

  -- One transaction: both statements or none.
  unfoldable pub add_follow : ℕ → Text → Text → Text → Option Text → Store → Result Store
  unfolding promoted
  add_follow now url public_key_pem endpoint alias s = attempt (faults add_follower) (record {
    actors =
        Maps.put url (promoted now public_key_pem endpoint alias (Maps.get url s.actors)) s.actors;
    requests = Maps.delete url s.requests;
  })

  unfoldable pub remove_follow : Text → Store → Result Store
  unfolding update_where
  remove_follow url s =
      update_where (faults remove_follower) url (λ a. a.they_follow_us)
        (λ a. record a { they_follow_us = false; they_follow_us_at = none }) s

  unfoldable pub promote_request : ℕ → Text → Option FollowRequest → Store → Result Store
  unfolding add_follow
  promote_request now url none s = err no_row
  promote_request now url (some fr) s = add_follow now url fr.public_key_pem fr.endpoint fr.alias s

  unfoldable pub accept_follow_request : ℕ → Text → Store → Result Store
  unfolding get_follow_request promote_request
  accept_follow_request now url s = do fr ← get_follow_request url s; promote_request now url fr s

  unfoldable pub get_outgoing_follow : Text → Store → Result (Option Actor)
  get_outgoing_follow url s =
      attempt (faults get_outgoing) (only (λ a. a.we_follow_them) (Maps.get url s.actors))

  unfoldable pub accept_outgoing_follow : ℕ → Text → Store → Result Store
  unfolding update_where
  accept_outgoing_follow now url s =
      update_where (faults accept_outgoing) url
        (λ a. a.we_follow_them && is_pending a.we_follow_status)
        (λ a. record a { we_follow_status = some accepted; we_follow_accept_at = some now }) s

  unfoldable pub reject_outgoing_follow : ℕ → Text → Store → Result Store
  unfolding update_where
  reject_outgoing_follow now url s = lenient s (
      update_where (faults reject_outgoing) url
        (λ a. a.we_follow_them && is_pending a.we_follow_status)
        (λ a. record a { we_follow_status = some rejected; created_at = now }) s)

-- A row that AddOutgoingFollow inserts, or the one that it updates.
requested : ℕ → Option Actor → Actor
requested now none = record {
  name = none;
  alias = none;
  endpoint = [];
  public_key_pem = none;
  they_follow_us = false;
  they_follow_us_at = none;
  we_follow_them = true;
  we_follow_status = some pending;
  we_follow_accept_at = none;
  is_healthy = true;
  replication_policy = codes "lazy";
  last_seen_at = none;
  created_at = now;
}
requested now (some old) =
    let already = is_accepted old.we_follow_status in
    record old {
      we_follow_them = true;
      we_follow_status = if already then some accepted else some pending;
      we_follow_accept_at = if already then old.we_follow_accept_at else none;
      created_at = if already then old.created_at else now;
    }

unfoldable pub add_outgoing_follow : Bool → ℕ → Text → Store → Result Store
unfolding requested
add_outgoing_follow fails now url s =
    attempt fails
      (record s { actors = Maps.put url (requested now (Maps.get url s.actors)) s.actors })

unfoldable pub remove_outgoing_follow : Bool → Text → Store → Result Store
unfolding update_where
remove_outgoing_follow fails url s =
    update_where fails url (λ a. a.we_follow_them)
      (λ a. record a {
        we_follow_them = false;
        we_follow_status = none;
        we_follow_accept_at = none;
      })
      s
