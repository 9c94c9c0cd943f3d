-- ===== src/Registry/Retention.antt =====
-- The statements of the garbage collector on the registry tables: retention and pruning of
-- internal/database/packages.go, the blobs of blobs.go and the stale peer blobs of actors.go. A list
-- without an order of its own is read in the order of the table; versions stand in that of their ids.
use apoci.Prelude.{
  ℕ, ◌+◌, Text, text_eq, text_ltb, Bool, false, ◌&&◌, ◌||◌, not, Option, none, some, List, [], ◌∷◌,
  ◌==◌, ltb, any, take, filter, if◌then◌else◌,
}
use apoci.Prelude.Maps
use apoci.Prelude.Maps.{Map}
use apoci.Registry.{Db, Package, Version, Tag, Blob, points_at, is_tag, remove_where}
use apoci.Registry.Blobs.{is_blob_referenced, has_peer_blob}

unfoldable pub insert_by_name : Package → List Package → List Package
insert_by_name p [] = p ∷ []
insert_by_name p (q ∷ qs) =
    let rest = insert_by_name p qs in if text_ltb q.name p.name then q ∷ rest else p ∷ q ∷ qs

-- ORDER BY name
unfoldable pub order_by_name : List Package → List Package
unfolding insert_by_name
order_by_name [] = []
order_by_name (p ∷ ps) = insert_by_name p (order_by_name ps)

-- ListOCIPackagesForRetention
unfoldable pub list_oci_packages_for_retention : Text → ℕ → Db → List Package
list_oci_packages_for_retention start_after limit db =
    take (if ltb 0 limit then limit else 100)
      (filter (λ p. text_ltb start_after p.name) (order_by_name db.packages))

unfoldable pub insert_newest : Tag → List Tag → List Tag
insert_newest t [] = t ∷ []
insert_newest t (u ∷ us) =
    let rest = insert_newest t us in if ltb t.updated_at u.updated_at then u ∷ rest else t ∷ u ∷ us

-- ORDER BY updated_at DESC
unfoldable pub newest_first : List Tag → List Tag
unfolding insert_newest
newest_first [] = []
newest_first (t ∷ ts) = insert_newest t (newest_first ts)

-- ListTagsForRetention
unfoldable pub list_tags_for_retention : ℕ → Db → List Tag
unfolding newest_first
list_tags_for_retention package_id db =
    newest_first (filter (λ t. t.package_id == package_id) db.tags)

-- DeletePackageTag
unfoldable pub delete_package_tag : ℕ → Text → Db → Db
delete_package_tag package_id name db = record db {
  tags = remove_where (is_tag package_id name) db.tags;
}

pub record UntaggedManifest : Type 0 where
  pub id : ℕ
  pub package_name : Text
  pub owner_id : Text
  pub digest : Text

unfoldable pub is_subject : Text → Option Text → Bool
is_subject digest none = false
is_subject digest (some subject) = text_eq subject digest

-- The WHERE of PruneUntaggedManifests: older than the cutoff, without a tag, a referrer or a parent.
unfoldable pub is_prunable : ℕ → ℕ → Db → Version → Bool
unfolding is_subject
is_prunable now older_than db v =
    ltb (v.created_at + older_than) now
    && not (any (points_at v.package_id v.version) db.tags)
    && not (
        any (λ ref. (ref.package_id == v.package_id) && is_subject v.version ref.subject_digest)
          db.versions)
    && not (
        any
          (λ f.
            text_eq f.blob_digest v.version
            && any (λ parent. (parent.id == f.version_id) && (parent.package_id == v.package_id))
                db.versions)
          db.files)

unfoldable pub package_of : ℕ → List Package → Option Package
package_of id [] = none
package_of id (p ∷ ps) = if p.id == id then some p else package_of id ps

-- JOIN packages p ON p.id = pv.package_id
unfoldable pub join_row : Version → Option Package → List UntaggedManifest → List UntaggedManifest
join_row v none rows = rows
join_row v (some p) rows =
    record { id = v.id; package_name = p.name; owner_id = p.owner_id; digest = v.version } ∷ rows

unfoldable pub joined : List Package → List Version → List UntaggedManifest
unfolding join_row
joined packages [] = []
joined packages (v ∷ vs) = join_row v (package_of v.package_id packages) (joined packages vs)

unfoldable pub untagged_manifests : ℕ → ℕ → ℕ → Db → List UntaggedManifest
untagged_manifests now older_than limit db =
    take (if ltb 0 limit then limit else 500)
      (joined db.packages (filter (is_prunable now older_than db) db.versions))

unfoldable pub is_among : List UntaggedManifest → ℕ → Bool
is_among rows id = any (λ r. r.id == id) rows

-- PruneUntaggedManifests, in one transaction.
unfoldable pub prune_untagged_manifests : ℕ → ℕ → ℕ → Db → Db × List UntaggedManifest
unfolding untagged_manifests
prune_untagged_manifests now older_than limit db =
    let rows = untagged_manifests now older_than limit db in
    (
      record db {
        files = remove_where (λ f. is_among rows f.version_id) db.files;
        versions = remove_where (λ v. is_among rows v.id) db.versions;
      },
      rows,
    )

-- PruneDeletedVersions
unfoldable pub prune_deleted_manifests : ℕ → ℕ → Db → Db
prune_deleted_manifests now older_than db = record db {
  deleted = remove_where (λ d. ltb (d.deleted_at + older_than) now) db.deleted;
}

-- CleanupStalePeerBlobs
unfoldable pub cleanup_stale_peer_blobs : ℕ → ℕ → Db → Db
cleanup_stale_peer_blobs now older_than db = record db {
  peer_blobs = remove_where (λ b. ltb (b.last_verified_at + older_than) now) db.peer_blobs;
}

-- The WHERE of OrphanedBlobs; `grace` is the age from which a row counts, 0 where none is asked for.
unfoldable pub is_orphaned : ℕ → ℕ → Db → Text × Blob → Bool
is_orphaned now grace db (digest, b) =
    not (is_blob_referenced digest db)
    && (b.stored_locally || not (has_peer_blob digest db))
    && (not (ltb 0 grace) || ltb (b.created_at + grace) now)

unfoldable pub digests_of : List (Text × Blob) → List Text
digests_of [] = []
digests_of ((digest, b) ∷ blobs) = digest ∷ digests_of blobs

-- OrphanedBlobs
unfoldable pub orphaned_blobs : ℕ → ℕ → ℕ → Db → List Text
unfolding digests_of
orphaned_blobs now grace limit db =
    digests_of (take limit (filter (is_orphaned now grace db) db.blobs))

-- DeleteBlob
unfoldable pub delete_blob : Text → Db → Db
delete_blob digest db = record db { blobs = Maps.delete digest db.blobs }

unfoldable pub mark_stored : Text → Bool → Map Blob → Map Blob
mark_stored digest stored [] = []
mark_stored digest stored ((d, b) ∷ blobs) =
    (d, if text_eq d digest then record b { stored_locally = stored } else b)
    ∷ mark_stored digest stored blobs

-- SetBlobStoredLocally
unfoldable pub set_blob_stored_locally : Text → Bool → Db → Db
unfolding mark_stored
set_blob_stored_locally digest stored db = record db { blobs = mark_stored digest stored db.blobs }
