-- ===== src/Tests/Contents.antt =====
-- Runs of the handlers of Create, Update, Announce and Delete.
use mathlib.Core.Path.{subst}
use mathlib.Core.Option.{some_inj}
use apoci.Prelude.{
  refl, true, false, Option, none, some, List, [], ◌∷◌, ◌++◌, ◌≡◌, codes, arith, Text, text_eq,
  if◌then◌else◌,
}
use apoci.Activity.{RawActivity, object_map, text_value, number_value, whole}
use apoci.Actors.{Faults}
use apoci.Registry.{Db, Version, Tag, owner_of, remove_where}
use apoci.Inbox.{Config, accept_none}
use apoci.Inbox.Content.{State, Env}
use apoci.Inbox.Content.Process.{
  Ingest, process_create, process_update, process_announce, process_delete,
}
use apoci.Inbox.Action.{done}
use apoci.Inbox.Content.Handlers.Activities.{Respects}
use apoci.Inbox.Content.Held.{IsHeld}
use apoci.Inbox.Content.Owners.{other_owners_untouched}
use apoci.Inbox.Content.Handlers.{HasDigest}
use apoci.Inbox.Content.Digests.{IsVerified, activities-IsVerified}
use apoci.Tests.{bare_hosts, alice, bob}

abbrev pub config : Config
config = record {
  actor_url = codes "us.example";
  auto_accept = accept_none;
  allowed_domains = [];
  max_manifest_size = 100;
  max_blob_size = 100;
  has_notifier = false;
}

abbrev pub env : Env
env = record {
  urls = bare_hosts;
  now = 5;
  fails = λ _. false;
  fetch_namespace = λ _. none;
  effective_tld_plus_one = λ _. none;
  decode_base64 = λ _. none;
  sha256_hex = λ s. s;
  unmarshal = λ _. none;
  is_ip = λ _. false;
  contains = λ n h. false;
  allow_private_ips = false;
  has_replicator = true;
  has_actor_cache = true;
}

abbrev reliable : Faults
reliable = λ _. false

abbrev pub no_adapters : Text → Option Ingest
no_adapters = λ _. none

abbrev stored : Version
stored = record {
  id = 1;
  package_id = 1;
  version = codes "d";
  metadata = none;
  media_type = codes "m/m";
  size_bytes = 3;
  source_actor = none;
  subject_digest = none;
  created_at = 1;
}

abbrev latest : Tag
latest = record { package_id = 1; name = codes "latest"; version = codes "d"; updated_at = 2 }

-- One repository, of Alice's, with a manifest and a tag; Bob follows us.
abbrev tables : Db
tables = record {
  packages = record { id = 1; name = codes "a.example/app"; owner_id = alice } ∷ [];
  versions = stored ∷ [];
  tags = latest ∷ [];
  files = [];
  blobs = [];
  peer_blobs = [];
  deleted = [];
  next_package_id = 2;
  next_version_id = 2;
}

abbrev pub start : State
start = record {
  db = tables;
  store = record {
    actors =
        (
          bob,
          record {
            name = none;
            alias = none;
            endpoint = bob;
            public_key_pem = none;
            they_follow_us = true;
            they_follow_us_at = none;
            we_follow_them = false;
            we_follow_status = none;
            we_follow_accept_at = none;
            is_healthy = true;
            replication_policy = [];
            last_seen_at = none;
            created_at = 0;
          },
        )
        ∷ [];
    requests = [];
  };
  ns_cache = [];
  requests = [];
  invalidated = [];
}

tables-IsHeld : IsHeld 1 alice (stored ∷ []) (latest ∷ []) tables
unfolding owner_of remove_where
tables-IsHeld = record {
  owned = ((λ e. refl), tt);
  is_owner = refl;
  is_used = omega arith;
  versions_kept = refl;
  tags_kept = refl;
}

-- Bob deletes the tag of Alice's repository.
abbrev theft : RawActivity
theft = record {
  id = codes "1";
  kind = codes "Delete";
  actor = bob;
  object = object_map (
      (codes "type", text_value (codes "OCITag"))
      ∷ (codes "ociRepository", text_value (codes "a.example/app"))
      ∷ (codes "ociTag", text_value (codes "latest"))
      ∷ []);
}

other_owners_untouched_example :
    IsHeld 1 alice
      (stored ∷ [])
      (latest ∷ [])
      (process_create config env reliable no_adapters theft start).1.db
    × IsHeld 1 alice
        (stored ∷ [])
        (latest ∷ [])
        (process_update config env reliable no_adapters theft start).1.db
    × IsHeld 1 alice
        (stored ∷ [])
        (latest ∷ [])
        (process_announce config env reliable no_adapters theft start).1.db
    × IsHeld 1 alice
        (stored ∷ [])
        (latest ∷ [])
        (process_delete config env reliable no_adapters theft start).1.db
other_owners_untouched_example =
    other_owners_untouched config env reliable no_adapters 1 alice (stored ∷ []) (latest ∷ []) theft
      start (λ type i e. absurd (ground arith)) (λ e. ground arith) tables-IsHeld

abbrev zeros : Text
zeros = codes "0000000000000000000000000000000000000000000000000000000000000000"

abbrev ones : Text
ones = codes "1111111111111111111111111111111111111111111111111111111111111111"

-- Base64 is left as it is here, and the hash tells "x" from the other texts.
abbrev reading : Env
reading = record env {
  decode_base64 = λ s. some s;
  sha256_hex = λ s. if text_eq s (codes "x") then zeros else ones;
}

-- An adapter that only notes who called it.
abbrev pub noting : Ingest
noting = λ kind type obj actor s. (done tt, record s { invalidated = actor ∷ s.invalidated })

-- Alice's manifest has content.
abbrev filled : Version
filled = record stored { version = codes "sha256:" ++ ones; metadata = some (codes "y") }

abbrev library : State
library = record start { db = record tables { versions = filled ∷ [] } }

-- Bob publishes a manifest with content.
abbrev creation : RawActivity
creation = record theft {
  kind = codes "Create";
  object = object_map (
      (codes "type", text_value (codes "OCIManifest"))
      ∷ (codes "ociRepository", text_value (codes "b.example/app"))
      ∷ (codes "ociDigest", text_value (codes "sha256:" ++ zeros))
      ∷ (codes "ociMediaType", text_value (codes "application/json"))
      ∷ (codes "ociSize", number_value (whole 1))
      ∷ (codes "ociContent", text_value (codes "x"))
      ∷ []);
}

abbrev published : State
published = (process_create config reading reliable (λ type. some noting) creation library).1

-- The content is stored, under the digest that was claimed.
abbrev contents_of : List Version → List (Text × Option Text)
contents_of [] = []
contents_of (v ∷ vs) = (v.version, v.metadata) ∷ contents_of vs

abbrev rows_published : List (Text × Option Text)
rows_published = contents_of published.db.versions

filled-HasDigest : HasDigest reading filled
filled-HasDigest = record {
  digest_of = λ c e.
      subst (λ t. codes "sha256:" ++ reading.sha256_hex t ≡ filled.version) (some_inj.0 e)
        (unfold text_eq in refl);
}

activities-IsVerified_example :
    IsVerified reading
      (process_create config reading reliable (λ type. some noting) creation library).1.db
    × IsVerified reading
        (process_update config reading reliable (λ type. some noting) creation library).1.db
    × IsVerified reading
        (process_announce config reading reliable (λ type. some noting) creation library).1.db
    × IsVerified reading
        (process_delete config reading reliable (λ type. some noting) creation library).1.db
activities-IsVerified_example =
    activities-IsVerified config reading reliable (λ type. some noting) creation library
      (λ type i e.
        subst (Respects (IsVerified reading)) (some_inj.0 e) (λ kind type' obj actor s h. h))
      (filled-HasDigest, tt)
