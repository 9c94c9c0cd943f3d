-- ===== src/Gc/Orphans.antt =====
-- cleanupStalePeerBlobs, cleanupOrphanedBlobMetadata and cleanupOrphanedBlobFiles of
-- internal/peering/gc.go.
use apoci.Prelude.{
  ℕ, zero, suc, ◌+◌, Text, text_eq, Bool, true, false, ◌&&◌, ◌||◌, Option, none, some, List, [],
  ◌∷◌, length, ltb, ◌==◌, is_some, if◌then◌else◌,
}
use apoci.Prelude.Maps
use apoci.Registry.{remove_where}
use apoci.Registry.Blobs.{put_blob, is_blob_referenced}
use apoci.Registry.Retention.{cleanup_stale_peer_blobs, orphaned_blobs, delete_blob}
use apoci.Gc.{
  GcConfig, Env, State, orphan_batch, delete_row, is_referenced, repair, delete_file, stale_peers,
  list_files, known_digests,
}

module _ (cfg : GcConfig) (env : Env) where
  -- cleanupStalePeerBlobs
  unfoldable pub clean_stale_peer_blobs : State → State
  clean_stale_peer_blobs s =
      if env.fails stale_peers
      then s
      else record s { db = cleanup_stale_peer_blobs env.now cfg.stale_peer_blob_age s.db }

  -- One batch of orphaned rows, with the number of those that were removed.
  unfoldable pub delete_rows : List Text → ℕ → State → State × ℕ
  delete_rows [] removed s = (s, removed)
  delete_rows (digest ∷ digests) removed s =
      let failed = env.fails (delete_row digest) in
      delete_rows digests (if failed then removed else removed + 1)
        (if failed then s else record s { db = delete_blob digest s.db })

  unfoldable pub orphan_limit : ℕ
  orphan_limit = if ltb 0 cfg.orphan_batch_size then cfg.orphan_batch_size else 500

  unfoldable pub orphans_of : State → List Text
  unfolding orphan_limit
  orphans_of s = orphaned_blobs env.now cfg.blob_gc_grace_period orphan_limit s.db

  -- The loop of cleanupOrphanedBlobMetadata, and whether it has ended.
  unfoldable pub orphan_rounds : ℕ → State → State × Bool
  unfolding delete_rows orphans_of
  orphan_rounds zero s = (s, false)
  orphan_rounds (suc fuel) s =
      let digests = orphans_of s in
      let (s', removed) = delete_rows digests 0 s in
      let rest = orphan_rounds fuel s' in
      if env.fails (orphan_batch fuel)
      then (s, true)
      else if (removed == 0) || ltb (length digests) orphan_limit
      then (s', true)
      else rest

  -- cleanupOrphanedBlobMetadata, with a round for each row.
  unfoldable pub clean_orphaned_metadata : State → State × Bool
  unfolding orphan_rounds
  clean_orphaned_metadata s = orphan_rounds (suc (length s.db.blobs)) s

  -- Younger than the grace period, or of unknown age; without a grace period no file is.
  unfoldable pub in_grace : Text → Bool
  in_grace digest = ltb 0 cfg.blob_gc_grace_period && elim (env.mod_time digest) [
    | none ↦ true
    | some mtime ↦ ltb env.now (mtime + cfg.blob_gc_grace_period)
  ]

  unfoldable pub repair_row : Text → Option ℕ → State → State
  repair_row digest none s = s
  repair_row digest (some size) s =
      if env.fails (repair digest)
      then s
      else record s { db = put_blob env.now digest size true s.db }

  unfoldable pub remove_file : Text → State → State
  remove_file digest s =
      if env.fails (delete_file digest)
      then s
      else record s { disk = remove_where (λ d. text_eq d digest) s.disk }

  -- What becomes of one file.
  unfoldable pub clean_file : (Text → Bool) → Text → State → State
  unfolding in_grace repair_row remove_file
  clean_file known digest s =
      if known digest || env.fails (is_referenced digest)
      then s
      else if is_blob_referenced digest s.db
      then repair_row digest (env.size digest) s
      else if in_grace digest
      then s
      else remove_file digest s

  unfoldable pub clean_files : (Text → Bool) → List Text → State → State
  unfolding clean_file
  clean_files known [] s = s
  clean_files known (digest ∷ digests) s = clean_files known digests (clean_file known digest s)

  -- cleanupOrphanedBlobFiles
  unfoldable pub clean_orphaned_files : State → State
  unfolding clean_files
  clean_orphaned_files s =
      if env.fails list_files || env.fails known_digests
      then s
      else clean_files (λ digest. is_some (Maps.get digest s.db.blobs)) s.disk s
