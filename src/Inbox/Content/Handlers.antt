-- ===== src/Inbox/Content/Handlers.antt =====
-- What the handlers of tags, blobs and deletions keep of the database: any property that the
-- statements they run keep, for the repositories that they may write.
pub mod Manifest
pub mod Activities
use apoci.Prelude.{
  ℕ, Text, codes, ◌≡◌, refl, Bool, true, false, Option, none, some, List, ◌∷◌, [], ◌++◌,
}
use apoci.Prelude.Maps.{Map}
use apoci.Activity.{Value, text_field}
use apoci.Actors.{Store}
use apoci.Registry
use apoci.Registry.Blobs
use apoci.Registry.{Db, Package, Version, Tag, File}
use apoci.Inbox.{Config}
use apoci.Inbox.Action.{
  Action, Except, IngestError, db_failed, not_authorized, missing_field, pure, fail, gets, change,
  check, require, ◌>>=◌, ◌>>◌, no_namespace, manifest_not_found,
}
use apoci.Inbox.Action.Yields.{
  Yields, Any, Yields-pure, Yields-fail, Yields-gets, Yields-if, Yields-change, Yields-require,
  Yields-check, Yields-bind, Yields-then, Yields-guard,
}
use apoci.Inbox.Content.{State, Env, require_repo_owner, store_tag}
use apoci.Inbox.Content.Ingest
use apoci.Inbox.Content.Ingest.{
  with_repo, delete_from, store_tag_of, tag_manifest, tag_found, blob_from, request_blob,
  put_tag_result,
}
use apoci.Inbox.Content.Calls.{
  OnDb, OfSome, Yields-query, Yields-execute, Yields-attempt_write, Yields-require_repo_owner,
}

-- The content of a manifest, where it is stored, is what its digest names.
pub record HasDigest (env : Env) (v : Version) : Type 0 where
  pub digest_of : (c : Text) → v.metadata ≡ some c → codes "sha256:" ++ env.sha256_hex c ≡ v.version

-- The statements that the handlers run for `actor` keep `P`; `R` holds of the repositories that
-- they may write.
pub record Laws (env : Env) (actor : Text) (P : Db → Type 0) (R : ℕ → Type 0) : Type 0 where
  pub owner : (id : ℕ) (db : Db) → P db → Registry.is_repository_owner id actor db ≡ true → R id
  pub creates :
      (name : Text) (db db' : Db) (p : Package)
      → Registry.get_or_create_repository name actor db ≡ some (p, db')
      → P db
      → P db' × R p.id
  pub puts_manifest :
      (v : Version) (db : Db)
      → R v.package_id
      → HasDigest env v
      → P db
      → P (Registry.put_manifest v db)
  pub deletes_manifest :
      (id : ℕ) (digest : Text) (db : Db) → R id → P db → P (Registry.delete_manifest id digest db)
  pub records_deleted :
      (now : ℕ) (digest name : Text) (db : Db)
      → P db
      → P (Registry.record_deleted_manifest now digest name actor db)
  pub deletes_tag :
      (id : ℕ) (name : Text) (db : Db) → R id → P db → P (Registry.delete_tag id name db)
  pub puts_tag :
      (now id : ℕ) (name digest : Text) (db db' : Db)
      → R id
      → Registry.put_tag now id name digest db ≡ some db'
      → P db
      → P db'
  pub puts_files : (fs : List File) (db : Db) → P db → P (record db { files = fs })
  pub puts_peer_blob :
      (now : ℕ) (digest endpoint : Text) (db : Db)
      → P db
      → P (Blobs.put_peer_blob now actor digest endpoint db)
  pub puts_blob :
      (now : ℕ) (digest : Text) (size : ℕ) (stored : Bool) (db : Db)
      → P db
      → P (Blobs.put_blob now digest size stored db)

module _ (cfg : Config) (env : Env) (actor : Text) (P : Db → Type 0) (R : ℕ → Type 0)
    (laws : Laws env actor P R) (T : Store → Type 0) where
  unfoldable pub Keeps : Action State Unit → Type 0
  Keeps m = Yields (OnDb P T) Any m

  with_repo_lem :
      (k : ℕ → Action State Unit) (found : Option Package)
      → ((id : ℕ) → R id → Keeps (k id))
      → OfSome (λ p. R p.id) found
      → Keeps (with_repo cfg env k found)
  unfolding with_repo Keeps
  with_repo_lem k none h q = Yields-pure tt tt
  with_repo_lem k (some p) h q = h p.id q

  in_owned :
      (g : Action State Unit) (repo : Text) (k : ℕ → Action State Unit)
      → Keeps g
      → ((id : ℕ) → R id → Keeps (k id))
      → Keeps (g >> require_repo_owner env repo actor >>= with_repo cfg env k)
  unfolding Keeps
  in_owned g repo k kg h =
      Yields-bind _ _
        (Yields-then kg (
          Yields-require_repo_owner env _ _ (λ p. R p.id) actor
            (λ db p held q. laws.owner p.id db held q) repo))
        (λ found q. with_repo_lem k found h q)

  pub Keeps-delete_tag : (obj : Map Value) → Keeps (Ingest.delete_tag cfg env obj actor)
  unfolding Keeps Ingest.delete_tag
  Keeps-delete_tag obj =
      in_owned _ _ _ (Yields-guard _ _)
        (λ id n. Yields-execute env _ _ _ _ (λ db. laws.deletes_tag id _ db n))

  pub Keeps-delete_manifest : (obj : Map Value) → Keeps (Ingest.delete_manifest cfg env obj actor)
  unfolding Keeps Ingest.delete_manifest delete_from Registry.record_deleted_manifest
  Keeps-delete_manifest obj = in_owned _ _ _ (Yields-guard _ _) (λ id n.
      Yields-then (Yields-execute env _ _ _ _ (λ db. laws.deletes_manifest id _ db n))
        (Yields-attempt_write env _ _ _ _ (λ db. laws.records_deleted _ _ _ db)))

  put_tag_result_lem :
      (s : State) (written : Option Db)
      → ((db' : Db) → written ≡ some db' → P db')
      → Keeps (put_tag_result cfg env s written)
  unfolding Keeps put_tag_result
  put_tag_result_lem s none h = Yields-fail db_failed
  put_tag_result_lem s (some db') h = Yields-change _ (λ s' k. (h db' refl, k.1))

  pub Keeps-store_tag_of :
      (id : ℕ) (name digest : Text) → R id → Keeps (store_tag_of cfg env id name digest)
  unfolding Keeps store_tag_of
  Keeps-store_tag_of id name digest n =
      Yields-if (env.fails store_tag) _ _ (λ e. Yields-fail db_failed)
        (λ e. Yields-bind _ _ (Yields-gets (λ s. s) (λ s h. h)) (λ s h.
          put_tag_result_lem s _ (λ db' e. laws.puts_tag _ id name digest s.db db' n e h.0)))

  tag_found_lem :
      (id : ℕ) (tag digest : Text) (found : Option Version)
      → R id
      → Keeps (tag_found cfg env id tag digest found)
  unfolding Keeps tag_found
  tag_found_lem id tag digest none n = Yields-fail manifest_not_found
  tag_found_lem id tag digest (some v) n = Keeps-store_tag_of id tag digest n

  request_blob_lem :
      (endpoint digest : Text) (size : ℕ) → Keeps (request_blob cfg env endpoint digest size)
  unfolding Keeps request_blob
  request_blob_lem endpoint digest size =
      Yields-if env.has_replicator _ _ (λ e. Yields-change _ (λ s h. h)) (λ e. Yields-pure tt tt)

  pub Keeps-ingest_tag : (obj : Map Value) → Keeps (Ingest.ingest_tag cfg env obj actor)
  unfolding Keeps Ingest.ingest_tag tag_manifest
  Keeps-ingest_tag obj =
      in_owned _ _ _
        (Yields-then
          (Yields-then (Yields-then (Yields-guard _ _) (Yields-guard _ _)) (Yields-guard _ _))
          (Yields-guard _ _))
        (λ id n.
          Yields-bind _ _ (Yields-query env _ _ Any _ _ (λ s h. tt))
            (λ found u. tag_found_lem id _ _ found n))

  Keeps-blob_from :
      (obj : Map Value) (domain : Option Text) → Keeps (blob_from cfg env obj actor domain)
  unfolding Keeps blob_from
  Keeps-blob_from obj none = Yields-fail no_namespace
  Keeps-blob_from obj (some domain) =
      Yields-then
        (Yields-then
          (Yields-then (Yields-then (Yields-guard _ _) (Yields-guard _ _))
            (Yields-execute env _ _ _ _ (λ db. laws.puts_peer_blob _ _ _ db)))
          (Yields-execute env _ _ _ _ (λ db. laws.puts_blob _ _ _ _ db)))
        (request_blob_lem _ _ _)

  pub Keeps-ingest_blob_ref : (obj : Map Value) → Keeps (Ingest.ingest_blob_ref cfg env obj actor)
  unfolding Keeps Ingest.ingest_blob_ref
  Keeps-ingest_blob_ref obj =
      Yields-then
        (Yields-then (Yields-then (Yields-guard _ _) (Yields-guard _ _)) (Yields-guard _ _))
        (Keeps-blob_from obj _)
