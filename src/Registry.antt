-- ===== src/Registry.antt =====
-- internal/database/packages.go and blobs.go, as far as OCI repositories use them: the tables
-- packages (rows of type 'oci'), package_versions (manifests), package_tags, package_files (the
-- blobs that a manifest names), blobs, peer_blobs and deleted_versions. The statements on blobs are
-- in the module below.
pub mod Blobs
pub mod Retention
pub mod Removal
use apoci.Prelude.{
  ℕ, ◌+◌, Text, text_eq, Bool, true, false, ◌&&◌, ◌||◌, Option, none, some, List, [], ◌∷◌, ◌++◌,
  ◌==◌, ltb, any, if◌then◌else◌,
}
use apoci.Prelude.Maps
use apoci.Prelude.Maps.{Map}

pub record Package : Type 0 where
  pub id : ℕ
  pub name : Text
  pub owner_id : Text

pub record Version : Type 0 where
  pub id : ℕ
  pub package_id : ℕ
  pub version : Text
  pub metadata : Option Text
  pub media_type : Text
  pub size_bytes : ℕ
  pub source_actor : Option Text
  pub subject_digest : Option Text
  pub created_at : ℕ

pub record Tag : Type 0 where
  pub package_id : ℕ
  pub name : Text
  pub version : Text
  pub updated_at : ℕ

pub record BlobRef : Type 0 where
  pub digest : Text
  pub size : ℕ

pub record File : Type 0 where
  pub version_id : ℕ
  pub blob_digest : Text
  pub size_bytes : ℕ

pub record Blob : Type 0 where
  pub size_bytes : ℕ
  pub stored_locally : Bool
  pub created_at : ℕ

pub record PeerBlob : Type 0 where
  pub peer_actor : Text
  pub blob_digest : Text
  pub peer_endpoint : Text
  pub last_verified_at : ℕ

pub record Deleted : Type 0 where
  pub package_name : Text
  pub version : Text
  pub source_actor : Text
  pub deleted_at : ℕ

pub record Db : Type 0 where
  pub packages : List Package
  pub versions : List Version
  pub tags : List Tag
  pub files : List File
  pub blobs : Map Blob
  pub peer_blobs : List PeerBlob
  pub deleted : List Deleted
  pub next_package_id : ℕ
  pub next_version_id : ℕ

unfoldable pub find_package : Text → List Package → Option Package
find_package name [] = none
find_package name (p ∷ ps) = if text_eq p.name name then some p else find_package name ps

-- GetRepository
unfoldable pub get_repository : Text → Db → Option Package
unfolding find_package
get_repository name db = find_package name db.packages

unfoldable pub owner_of : ℕ → List Package → Option Text
owner_of id [] = none
owner_of id (p ∷ ps) = if p.id == id then some p.owner_id else owner_of id ps

unfoldable pub owns : Text → Option Text → Bool
owns owner none = false
owns owner (some got) = text_eq got owner

-- IsRepositoryOwner
unfoldable pub is_repository_owner : ℕ → Text → Db → Bool
unfolding owns
is_repository_owner id owner db = owns owner (owner_of id db.packages)

unfoldable pub get_or_insert : Text → Text → Option Package → Db → Option (Package × Db)
get_or_insert name owner (some p) db = if text_eq p.owner_id owner then some (p, db) else none
get_or_insert name owner none db =
    let p : Package = record { id = db.next_package_id; name = name; owner_id = owner } in
    some
      (p, record db { packages = db.packages ++ p ∷ []; next_package_id = db.next_package_id + 1 })

-- GetOrCreateRepository; `none` is ErrPackageOwnerMismatch.
unfoldable pub get_or_create_repository : Text → Text → Db → Option (Package × Db)
unfolding get_or_insert
get_or_create_repository name owner db = get_or_insert name owner (get_repository name db) db

abbrev pub is_version : ℕ → Text → Version → Bool
is_version package_id digest v = (v.package_id == package_id) && text_eq v.version digest

find_version : ℕ → Text → List Version → Option Version
find_version package_id digest [] = none
find_version package_id digest (v ∷ vs) =
    if is_version package_id digest v then some v else find_version package_id digest vs

-- GetManifestByDigest
unfoldable pub get_manifest_by_digest : ℕ → Text → Db → Option Version
unfolding find_version
get_manifest_by_digest package_id digest db = find_version package_id digest db.versions

-- INSERT … ON CONFLICT (package_id, version) DO UPDATE: a row that is there keeps its
-- id and the time of its creation.
unfoldable pub upsert_version : Version → List Version → List Version
upsert_version v [] = v ∷ []
upsert_version v (w ∷ ws) =
    let rest = upsert_version v ws in
    if is_version v.package_id v.version w
    then record v { id = w.id; created_at = w.created_at } ∷ ws
    else w ∷ rest

-- PutManifest; the id of `m` is that of a new row.
unfoldable pub put_manifest : Version → Db → Db
unfolding upsert_version
put_manifest m db = record db {
  versions = upsert_version (record m { id = db.next_version_id }) db.versions;
  next_version_id = db.next_version_id + 1;
}

abbrev pub points_at : ℕ → Text → Tag → Bool
points_at package_id digest t = (t.package_id == package_id) && text_eq t.version digest

unfoldable pub remove_where {ℓ} : {A : Type ℓ} → (A → Bool) → List A → List A
remove_where p [] = []
remove_where p (x ∷ xs) = let rest = remove_where p xs in if p x then rest else x ∷ rest

unfoldable pub delete_found : ℕ → Text → Option Version → Db → Db
delete_found package_id digest none db = db
delete_found package_id digest (some v) db = record db {
  tags = remove_where (points_at package_id digest) db.tags;
  files = remove_where (λ f. f.version_id == v.id) db.files;
  versions = remove_where (is_version package_id digest) db.versions;
}

-- DeleteManifest: the version, its tags and its files, in one transaction. The pair (package_id,
-- version) is unique, so the row is the one that its id names.
unfoldable pub delete_manifest : ℕ → Text → Db → Db
unfolding delete_found remove_where
delete_manifest package_id digest db =
    delete_found package_id digest (get_manifest_by_digest package_id digest db) db

abbrev pub is_tag : ℕ → Text → Tag → Bool
is_tag package_id name t = (t.package_id == package_id) && text_eq t.name name

-- PutTag; `none` is ErrRepositoryGone.
unfoldable pub put_tag : ℕ → ℕ → Text → Text → Db → Option Db
unfolding remove_where
put_tag now package_id name digest db =
    if any (λ p. p.id == package_id) db.packages
    then some (record db {
      tags =
          record { package_id = package_id; name = name; version = digest; updated_at = now }
          ∷ remove_where (is_tag package_id name) db.tags;
    })
    else none

-- DeleteTag
unfoldable pub delete_tag : ℕ → Text → Db → Db
unfolding remove_where
delete_tag package_id name db = record db { tags = remove_where (is_tag package_id name) db.tags }

abbrev pub is_deleted_row : Text → Text → Deleted → Bool
is_deleted_row name digest d = text_eq d.package_name name && text_eq d.version digest

-- RecordDeletedManifest: INSERT … ON CONFLICT DO NOTHING.
unfoldable pub record_deleted_manifest : ℕ → Text → Text → Text → Db → Db
record_deleted_manifest now digest name source_actor db =
    if any (is_deleted_row name digest) db.deleted then db else record db {
      deleted =
          record {
            package_name = name;
            version = digest;
            source_actor = source_actor;
            deleted_at = now;
          }
          ∷ db.deleted;
    }
