-- ===== src/Inbox/Content/Process.antt =====
-- processCreate, processUpdate, processAnnounce and processDelete of
-- internal/activitypub/inbox_content.go. The adapters of the other ecosystems are a parameter.
use apoci.Prelude.{
  Text, codes, [], ◌∷◌, Bool, false, ◌||◌, Option, none, some, text_eq, is_some, if◌then◌else◌,
  ◌++◌,
}
use apoci.Prelude.Maps.{Map}
use apoci.Activity.{
  RawActivity, Value, Object, object_map, object_id, object_other, text_field, activity_create,
  activity_update, activity_announce, activity_delete,
}
use apoci.Result.{Result, ok, err}
use apoci.Actors
use apoci.Actors.{Actor, Faults}
use apoci.Inbox.{Config}
use apoci.Inbox.Action.{Action, not_relevant, invalid_object, pure, fail, change, check, ◌>>◌}
use apoci.Inbox.Content.{State, Env}
use apoci.Inbox.Content.Ingest.{delete_manifest, delete_tag, ingest_tag, ingest_blob_ref}
use apoci.Inbox.Content.Manifest.{ingest_manifest}

-- FederationAdapter.Ingest: the kind of activity, the object's type, the object, the actor.
abbrev pub Ingest : Type 0
Ingest = Text → Text → Map Value → Text → Action State Unit

module _ (cfg : Config) (env : Env) (faults : Faults) (lookup : Text → Option Ingest) where
  followed : Result (Option Actor) → Bool
  followed (ok a) = is_some a
  followed (err e) = false

  -- isFollowed
  unfoldable pub is_followed : Text → State → Bool
  unfolding followed
  is_followed actor_url s = followed (Actors.get_follow faults actor_url s.store)

  unfoldable pub ingest_by : Option Ingest → Text → Text → Map Value → Text → Action State Unit
  ingest_by none kind type obj actor_url = pure tt
  ingest_by (some ingest) kind type obj actor_url = ingest kind type obj actor_url

  unfoldable pub adapt : Text → Text → Map Value → Text → Action State Unit
  unfolding ingest_by
  adapt kind type obj actor_url = ingest_by (lookup type) kind type obj actor_url

  -- actorCache.Invalidate
  unfoldable pub invalidate : Text → Action State Unit
  invalidate actor_url =
      if env.has_actor_cache
      then change (λ s. record s { invalidated = s.invalidated ++ actor_url ∷ [] })
      else pure tt

  unfoldable pub create_object : Text → Object → Action State Unit
  unfolding adapt ingest_manifest
  create_object actor_url (object_map obj) =
      let type = text_field (codes "type") obj in
      if text_eq type (codes "OCIManifest")
      then ingest_manifest cfg env obj actor_url
      else adapt activity_create type obj actor_url
  create_object actor_url (object_id _) = fail invalid_object
  create_object actor_url object_other = fail invalid_object

  unfoldable pub is_actor_type : Text → Bool
  is_actor_type type =
      text_eq type (codes "Actor")
      || text_eq type (codes "Person")
      || text_eq type (codes "Service")
      || text_eq type (codes "Application")

  unfoldable pub update_object : Text → Object → Action State Unit
  unfolding adapt invalidate is_actor_type ingest_tag
  update_object actor_url (object_map obj) =
      let type = text_field (codes "type") obj in
      if text_eq type (codes "OCITag")
      then ingest_tag cfg env obj actor_url
      else if is_actor_type type
      then invalidate actor_url
      else adapt activity_update type obj actor_url
  update_object actor_url (object_id _) = fail invalid_object
  update_object actor_url object_other = fail invalid_object

  unfoldable pub announce_object : Text → Object → Action State Unit
  unfolding adapt ingest_blob_ref
  announce_object actor_url (object_map obj) =
      let type = text_field (codes "type") obj in
      if text_eq type (codes "OCIBlob")
      then ingest_blob_ref cfg env obj actor_url
      else adapt activity_announce type obj actor_url
  announce_object actor_url (object_id _) = pure tt
  announce_object actor_url object_other = pure tt

  unfoldable pub delete_object : Text → Object → Action State Unit
  unfolding adapt delete_manifest delete_tag
  delete_object actor_url (object_map obj) =
      let type = text_field (codes "type") obj in
      if text_eq type (codes "OCIManifest")
      then delete_manifest cfg env obj actor_url
      else if text_eq type (codes "OCITag")
      then delete_tag cfg env obj actor_url
      else adapt activity_delete type obj actor_url
  delete_object actor_url (object_id _) = pure tt
  delete_object actor_url object_other = pure tt

  unfoldable pub if_followed : Text → Action State Unit → Action State Unit
  unfolding is_followed
  if_followed actor_url m = check (is_followed actor_url) not_relevant >> m

  unfoldable pub process_create : RawActivity → Action State Unit
  unfolding if_followed create_object
  process_create a = if_followed a.actor (create_object a.actor a.object)

  unfoldable pub process_update : RawActivity → Action State Unit
  unfolding if_followed update_object
  process_update a = if_followed a.actor (update_object a.actor a.object)

  unfoldable pub process_announce : RawActivity → Action State Unit
  unfolding if_followed announce_object
  process_announce a = if_followed a.actor (announce_object a.actor a.object)

  unfoldable pub process_delete : RawActivity → Action State Unit
  unfolding if_followed delete_object
  process_delete a = if_followed a.actor (delete_object a.actor a.object)
