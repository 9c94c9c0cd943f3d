-- ===== src/Gc/Drift.antt =====
-- reconcileBlobStorageDrift, pruneDeletedManifests and collect of internal/peering/gc.go.
use apoci.Prelude.{
  ℕ, zero, suc, Text, text_ltb, Bool, true, false, ◌||◌, Option, none, some, List, [], ◌∷◌, ◌++◌,
  length, take, filter, ltb, if◌then◌else◌,
}
use apoci.Registry.{Db, Blob}
use apoci.Registry.Blobs.{has_peer_blob}
use apoci.Registry.Retention.{set_blob_stored_locally, prune_deleted_manifests}
use apoci.Gc.{GcConfig, Env, State, reconcile_page, has_peer, set_stored, tombstones}
use apoci.Gc.Retention.{retention_sweep, prune_untagged}
use apoci.Gc.Orphans.{clean_stale_peer_blobs, clean_orphaned_metadata, clean_orphaned_files}

-- BlobReconcileRow
pub record BlobReconcileRow : Type 0 where
  pub digest : Text
  pub stored_locally : Bool

unfoldable pub rows_of : List (Text × Blob) → List BlobReconcileRow
rows_of [] = []
rows_of ((digest, b) ∷ blobs) =
    record { digest = digest; stored_locally = b.stored_locally } ∷ rows_of blobs

unfoldable pub insert_by_digest : BlobReconcileRow → List BlobReconcileRow → List BlobReconcileRow
insert_by_digest r [] = r ∷ []
insert_by_digest r (q ∷ qs) =
    let rest = insert_by_digest r qs in if text_ltb q.digest r.digest then q ∷ rest else r ∷ q ∷ qs

unfoldable pub order_by_digest : List BlobReconcileRow → List BlobReconcileRow
unfolding insert_by_digest
order_by_digest [] = []
order_by_digest (r ∷ rs) = insert_by_digest r (order_by_digest rs)

-- ListBlobsForReconcile
unfoldable pub list_blobs_for_reconcile : Text → ℕ → Db → List BlobReconcileRow
unfolding rows_of
list_blobs_for_reconcile start_after limit db =
    take limit (filter (λ r. text_ltb start_after r.digest) (order_by_digest (rows_of db.blobs)))

abbrev pub reconcile_blob_batch_size : ℕ
reconcile_blob_batch_size = 500

-- deletedManifestRetention, thirty days in nanoseconds.
abbrev pub deleted_manifest_retention : ℕ
deleted_manifest_retention = 2_592_000_000_000_000

abbrev pub is_true : Option Bool → Bool
is_true none = false
is_true (some b) = b

module _ (cfg : GcConfig) (env : Env) where
  unfoldable pub set_stored_to : Text → Bool → State → State
  set_stored_to digest stored s =
      if env.fails (set_stored digest)
      then s
      else record s { db = set_blob_stored_locally digest stored s.db }

  -- A row whose file is missing: the new state, and the digest where nobody holds the blob.
  unfoldable pub degrade : Text → State → State × List Text
  unfolding set_stored_to
  degrade digest s =
      if is_true (env.recheck digest) || env.fails (has_peer digest)
      then (s, [])
      else if has_peer_blob digest s.db
      then (set_stored_to digest false s, [])
      else (s, digest ∷ [])

  unfoldable pub reconcile_with : BlobReconcileRow → Option Bool → State → State × List Text
  unfolding degrade
  reconcile_with row none s = (s, [])
  reconcile_with row (some true) s =
      if row.stored_locally then (s, []) else (set_stored_to row.digest true s, [])
  reconcile_with row (some false) s = if row.stored_locally then degrade row.digest s else (s, [])

  unfoldable pub reconcile_rows : List BlobReconcileRow → List Text → State → State × List Text
  unfolding reconcile_with
  reconcile_rows [] unrecoverable s = (s, unrecoverable)
  reconcile_rows (row ∷ rows) unrecoverable s =
      let (s', lost) = reconcile_with row (env.exists row.digest) s in
      reconcile_rows rows (unrecoverable ++ lost) s'

  unfoldable pub last_digest : Text → List BlobReconcileRow → Text
  last_digest digest [] = digest
  last_digest digest (r ∷ rs) = last_digest r.digest rs

  -- The loop over the pages, and whether it has ended.
  unfoldable pub reconcile_pages : ℕ → Text → List Text → State → (State × List Text) × Bool
  unfolding reconcile_rows last_digest
  reconcile_pages zero start_after unrecoverable s = ((s, unrecoverable), false)
  reconcile_pages (suc fuel) start_after unrecoverable s =
      let rows = list_blobs_for_reconcile start_after reconcile_blob_batch_size s.db in
      let (s', lost) = reconcile_rows rows unrecoverable s in
      let rest = reconcile_pages fuel (last_digest start_after rows) lost s' in
      if env.fails (reconcile_page fuel)
      then ((s, unrecoverable), true)
      else if ltb (length rows) reconcile_blob_batch_size
      then ((s', lost), true)
      else rest

  -- reconcileBlobStorageDrift, with a round for each row: the state and the digests that are lost.
  unfoldable pub reconcile_blob_storage_drift : State → (State × List Text) × Bool
  unfolding reconcile_pages
  reconcile_blob_storage_drift s = reconcile_pages (suc (length s.db.blobs)) [] [] s

  -- pruneDeletedManifests
  unfoldable pub clean_deleted_manifests : State → State
  clean_deleted_manifests s =
      if env.fails tombstones
      then s
      else record s { db = prune_deleted_manifests env.now deleted_manifest_retention s.db }

  -- collect
  unfoldable pub collect : State → State
  unfolding reconcile_blob_storage_drift clean_deleted_manifests
  collect s =
      let swept = (retention_sweep cfg env s).0.0 in
      let pruned = (prune_untagged cfg env swept).0 in
      let fresh = clean_stale_peer_blobs cfg env pruned in
      let known = (clean_orphaned_metadata cfg env fresh).0 in
      let clean = clean_orphaned_files cfg env known in
      clean_deleted_manifests (reconcile_blob_storage_drift clean).0.0
