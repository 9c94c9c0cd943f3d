-- ===== src/Inbox/Content/Handlers/Activities.antt =====
-- What Create, Update, Announce and Delete activities leave of the database.
use apoci.Prelude.{ℕ, Text, text_eq, codes, ◌≡◌, refl, Option, none, some}
use apoci.Prelude.Maps.{Map}
use apoci.Activity.{RawActivity, Value, Object, object_map, object_id, object_other, text_field}
use apoci.Actors.{Faults, Store}
use apoci.Registry.{Db}
use apoci.Inbox.{Config}
use apoci.Inbox.Action.{Action, invalid_object}
use apoci.Inbox.Action.Yields.{
  Yields-pure, Yields-fail, Yields-if, Yields-change, Yields-check, Yields-bind, Post-Any,
}
use apoci.Inbox.Content.{State, Env}
use apoci.Inbox.Content.Process.{
  Ingest, ingest_by, adapt, invalidate, create_object, update_object, announce_object,
  delete_object, if_followed, is_actor_type, process_create, process_update, process_announce,
  process_delete,
}
use apoci.Inbox.Content.Calls.{OnDb}
use apoci.Inbox.Content.Handlers.{
  Keeps, Keeps-delete_tag, Keeps-delete_manifest, Keeps-ingest_tag, Keeps-ingest_blob_ref, Laws,
}
use apoci.Inbox.Content.Handlers.Manifest.{Keeps-ingest_manifest}

-- An adapter that keeps a property of the database.
abbrev pub Respects : (Db → Type 0) → Ingest → Type 0
Respects P ingest =
    (kind type : Text) (obj : Map Value) (actor : Text) (s : State)
    → P s.db
    → P (ingest kind type obj actor s).1.db

-- The same, with a property of the table of actors.
abbrev pub RespectsBoth : (Db → Type 0) → (Store → Type 0) → Ingest → Type 0
RespectsBoth P T ingest =
    (kind type : Text) (obj : Map Value) (actor : Text) (s : State)
    → OnDb P T s
    → OnDb P T (ingest kind type obj actor s).1

module _ (cfg : Config) (env : Env) (faults : Faults) (lookup : Text → Option Ingest) (actor : Text)
    (P : Db → Type 0) (R : ℕ → Type 0) (laws : Laws env actor P R) (T : Store → Type 0)
    (apart : (type : Text) (i : Ingest) → lookup type ≡ some i → RespectsBoth P T i) where
  abbrev Kept : Action State Unit → Type 0
  Kept = Keeps cfg env actor P R laws T

  ingest_by_lem :
      (found : Option Ingest) (kind type : Text) (obj : Map Value)
      → ((i : Ingest) → found ≡ some i → RespectsBoth P T i)
      → Kept (ingest_by cfg env faults lookup found kind type obj actor)
  unfolding ingest_by Keeps
  ingest_by_lem none kind type obj h = Yields-pure tt tt
  ingest_by_lem (some ingest) kind type obj h = record {
    run = λ s held. (h ingest refl kind type obj actor s held, Post-Any _);
  }

  adapt_lem :
      (kind type : Text) (obj : Map Value) → Kept (adapt cfg env faults lookup kind type obj actor)
  unfolding adapt
  adapt_lem kind type obj = ingest_by_lem (lookup type) kind type obj (apart type)

  create_lem : (o : Object) → Kept (create_object cfg env faults lookup actor o)
  unfolding create_object Keeps
  create_lem (object_map obj) =
      Yields-if (text_eq (text_field (codes "type") obj) (codes "OCIManifest")) _ _
        (λ e. Keeps-ingest_manifest cfg env actor P R laws T obj) (λ e. adapt_lem _ _ obj)
  create_lem (object_id _) = Yields-fail invalid_object
  create_lem object_other = Yields-fail invalid_object

  invalidate_lem : Kept (invalidate cfg env faults lookup actor)
  unfolding invalidate Keeps
  invalidate_lem =
      Yields-if env.has_actor_cache _ _ (λ e. Yields-change _ (λ s h. h)) (λ e. Yields-pure tt tt)

  update_lem : (o : Object) → Kept (update_object cfg env faults lookup actor o)
  unfolding update_object Keeps
  update_lem (object_map obj) =
      let type = text_field (codes "type") obj in
      Yields-if (text_eq type (codes "OCITag")) _ _
        (λ e. Keeps-ingest_tag cfg env actor P R laws T obj)
        (λ e.
          Yields-if (is_actor_type cfg env faults lookup type) _ _ (λ e. invalidate_lem)
            (λ e. adapt_lem _ _ obj))
  update_lem (object_id _) = Yields-fail invalid_object
  update_lem object_other = Yields-fail invalid_object

  announce_lem : (o : Object) → Kept (announce_object cfg env faults lookup actor o)
  unfolding announce_object Keeps
  announce_lem (object_map obj) =
      Yields-if (text_eq (text_field (codes "type") obj) (codes "OCIBlob")) _ _
        (λ e. Keeps-ingest_blob_ref cfg env actor P R laws T obj) (λ e. adapt_lem _ _ obj)
  announce_lem (object_id _) = Yields-pure tt tt
  announce_lem object_other = Yields-pure tt tt

  delete_lem : (o : Object) → Kept (delete_object cfg env faults lookup actor o)
  unfolding delete_object Keeps
  delete_lem (object_map obj) =
      let type = text_field (codes "type") obj in
      Yields-if (text_eq type (codes "OCIManifest")) _ _
        (λ e. Keeps-delete_manifest cfg env actor P R laws T obj)
        (λ e.
          Yields-if (text_eq type (codes "OCITag")) _ _
            (λ e. Keeps-delete_tag cfg env actor P R laws T obj) (λ e. adapt_lem _ _ obj))
  delete_lem (object_id _) = Yields-pure tt tt
  delete_lem object_other = Yields-pure tt tt

  if_followed_lem :
      (m : Action State Unit) → Kept m → Kept (if_followed cfg env faults lookup actor m)
  unfolding if_followed Keeps
  if_followed_lem m h = Yields-bind _ _ (Yields-check {R = Unit} _ _ (λ s k e. tt)) (λ u v. h)

-- What the four handlers leave of the database and of the actors.
pub activities_keep_both :
    (cfg : Config) (env : Env) (faults : Faults) (lookup : Text → Option Ingest) (a : RawActivity)
    (s : State) (P : Db → Type 0) (R : ℕ → Type 0) (T : Store → Type 0)
    → Laws env a.actor P R
    → ((type : Text) (i : Ingest) → lookup type ≡ some i → RespectsBoth P T i)
    → OnDb P T s
    → OnDb P T (process_create cfg env faults lookup a s).1
      × OnDb P T (process_update cfg env faults lookup a s).1
      × OnDb P T (process_announce cfg env faults lookup a s).1
      × OnDb P T (process_delete cfg env faults lookup a s).1
unfolding process_create process_update process_announce process_delete Keeps
activities_keep_both cfg env faults lookup a s P R T laws apart held =
    let kept = if_followed_lem cfg env faults lookup a.actor P R laws T apart in
    let create = create_lem cfg env faults lookup a.actor P R laws T apart in
    let update = update_lem cfg env faults lookup a.actor P R laws T apart in
    let announce = announce_lem cfg env faults lookup a.actor P R laws T apart in
    let delete = delete_lem cfg env faults lookup a.actor P R laws T apart in
    (
      ((kept _ (create a.object)).run s held).0,
      ((kept _ (update a.object)).run s held).0,
      ((kept _ (announce a.object)).run s held).0,
      ((kept _ (delete a.object)).run s held).0,
    )

-- The same of the database alone.
pub activities_keep :
    (cfg : Config) (env : Env) (faults : Faults) (lookup : Text → Option Ingest) (a : RawActivity)
    (s : State) (P : Db → Type 0) (R : ℕ → Type 0)
    → Laws env a.actor P R
    → ((type : Text) (i : Ingest) → lookup type ≡ some i → Respects P i)
    → P s.db
    → P (process_create cfg env faults lookup a s).1.db
      × P (process_update cfg env faults lookup a s).1.db
      × P (process_announce cfg env faults lookup a s).1.db
      × P (process_delete cfg env faults lookup a s).1.db
activities_keep cfg env faults lookup a s P R laws apart held =
    let (created, updated, announced, deleted) =
      activities_keep_both cfg env faults lookup a s P R (λ store. Unit) laws
        (λ type i e kind t obj actor s' h. (apart type i e kind t obj actor s' h.0, tt))
        (held, tt) in
    (created.0, updated.0, announced.0, deleted.0)

no_laws : (env : Env) (actor : Text) → Laws env actor (λ db. Unit) (λ id. Unit)
no_laws env actor = record {
  owner = λ id db held q. tt;
  creates = λ name db db' p e h. (tt, tt);
  puts_manifest = λ v db n good h. tt;
  deletes_manifest = λ id digest db n h. tt;
  records_deleted = λ now digest name db h. tt;
  deletes_tag = λ id name db n h. tt;
  puts_tag = λ now id name digest db db' n e h. tt;
  puts_files = λ fs db h. tt;
  puts_peer_blob = λ now digest endpoint db h. tt;
  puts_blob = λ now digest size stored db h. tt;
}

-- An adapter that keeps a property of the actors.
abbrev pub RespectsActors : (Store → Type 0) → Ingest → Type 0
RespectsActors T ingest =
    (kind type : Text) (obj : Map Value) (actor : Text) (s : State)
    → T s.store
    → T (ingest kind type obj actor s).1.store

-- The same of the actors alone.
pub activities_keep_actors :
    (cfg : Config) (env : Env) (faults : Faults) (lookup : Text → Option Ingest) (a : RawActivity)
    (s : State) (T : Store → Type 0)
    → ((type : Text) (i : Ingest) → lookup type ≡ some i → RespectsActors T i)
    → T s.store
    → T (process_create cfg env faults lookup a s).1.store
      × T (process_update cfg env faults lookup a s).1.store
      × T (process_announce cfg env faults lookup a s).1.store
      × T (process_delete cfg env faults lookup a s).1.store
activities_keep_actors cfg env faults lookup a s T apart held =
    let (created, updated, announced, deleted) =
      activities_keep_both cfg env faults lookup a s (λ db. Unit) (λ id. Unit) T
        (no_laws env a.actor)
        (λ type i e kind t obj actor s' h. (tt, apart type i e kind t obj actor s' h.1))
        (tt, held) in
    (created.1, updated.1, announced.1, deleted.1)
