-- ===== src/Gc/Retention.antt =====
-- retentionSweep and pruneUntaggedManifests of internal/peering/gc.go.
use apoci.Prelude.{
  ℕ, zero, suc, ◌+◌, ◌-◌, Text, Bool, true, false, ◌&&◌, ◌||◌, not, Option, none, some, List, [],
  ◌∷◌, ◌++◌, length, ltb, leb, any, if◌then◌else◌,
}
use apoci.Registry.{Package, Tag, record_deleted_manifest}
use apoci.Registry.Retention.{
  UntaggedManifest, list_oci_packages_for_retention, list_tags_for_retention, delete_package_tag,
  prune_untagged_manifests,
}
use apoci.Gc.{
  GcConfig, RetentionPolicy, Env, State, Published, tag_delete, manifest_delete, package_page,
  list_tags, delete_tag, publish_tag, publish_manifest, record_tombstone, prune_batch,
  effective_retention, owns_repo,
}

abbrev pub retention_package_page_size : ℕ
retention_package_page_size = 100

-- An ErrBadPattern counts as no match.
abbrev holds : Option Bool → Bool
holds none = false
holds (some b) = b

abbrev globs_of : Option (List Text) → List Text
globs_of none = []
globs_of (some globs) = globs

module _ (cfg : GcConfig) (env : Env) where
  -- tagPinned
  unfoldable pub tag_pinned : Text → Option (List Text) → Bool
  tag_pinned name globs = any (λ g. holds (env.path_match g name)) (globs_of globs)

  -- Beyond the tags to keep, or too old.
  unfoldable pub is_dropped : RetentionPolicy → ℕ → Tag → Bool
  is_dropped policy kept t =
      (ltb 0 policy.keep_last_n && leb policy.keep_last_n kept)
      || (ltb 0 policy.max_age && ltb (t.updated_at + policy.max_age) env.now)

  -- The loop of applyRetentionToPackage that gathers the tags to delete.
  unfoldable pub candidates : RetentionPolicy → ℕ → List Tag → List Tag
  candidates policy kept [] = []
  candidates policy kept (t ∷ ts) =
      let pinned = tag_pinned t.name policy.pinned_globs in
      let dropped = is_dropped policy kept t in
      let counts = not pinned && not dropped && ltb 0 policy.keep_last_n in
      let rest = candidates policy (if counts then kept + 1 else kept) ts in
      if not pinned && dropped then t ∷ rest else rest

  -- Whether a limit, 0 for none, is used up.
  unfoldable pub is_spent : Option ℕ → ℕ → Bool
  is_spent none deleted = false
  is_spent (some budget) deleted = leb budget deleted

  unfoldable pub publish : Bool → Published → State → State
  publish wanted p s = if wanted then record s { published = s.published ++ p ∷ [] } else s

  unfoldable pub drop_tag : Package → Tag → State → State
  unfolding publish
  drop_tag pkg t s =
      publish
        (env.has_publisher
          && owns_repo cfg pkg.owner_id
          && not (env.fails (publish_tag pkg.name t.name)))
        (tag_delete pkg.name t.name) (record s { db = delete_package_tag pkg.id t.name s.db })

  -- The loop that deletes them, within a budget.
  unfoldable pub delete_candidates : Package → Option ℕ → ℕ → List Tag → State → State × ℕ
  unfolding drop_tag
  delete_candidates pkg budget deleted [] s = (s, deleted)
  delete_candidates pkg budget deleted (t ∷ ts) s =
      let failed = env.fails (delete_tag pkg.id t.name) in
      let rest =
        delete_candidates pkg budget (if failed then deleted else deleted + 1) ts
          (if failed then s else drop_tag pkg t s) in
      if is_spent budget deleted then (s, deleted) else rest

  -- applyRetentionToPackage
  unfoldable pub apply_retention_to_package :
      Package → RetentionPolicy → Option ℕ → State → State × ℕ
  unfolding delete_candidates candidates
  apply_retention_to_package pkg policy budget s =
      if env.fails (list_tags pkg.id)
      then (s, 0)
      else delete_candidates pkg budget 0
          (candidates policy 0 (list_tags_for_retention pkg.id s.db)) s

  -- maxDeletes, unless it is 0.
  unfoldable pub budget_left : ℕ → Option ℕ
  budget_left total =
      if ltb 0 cfg.retention_tags_per_cycle
      then some (cfg.retention_tags_per_cycle - total)
      else none

  unfoldable pub cycle_spent : ℕ → Bool
  cycle_spent total = ltb 0 cfg.retention_tags_per_cycle && leb cfg.retention_tags_per_cycle total

  unfoldable pub sweep_package : Package → ℕ → State → State × ℕ
  unfolding apply_retention_to_package budget_left
  sweep_package pkg total s =
      let policy = effective_retention cfg pkg.name in
      if not (ltb 0 policy.keep_last_n) && not (ltb 0 policy.max_age)
      then (s, 0)
      else apply_retention_to_package pkg policy (budget_left total) s

  unfoldable pub sweep_packages : List Package → ℕ → State → State × ℕ
  unfolding sweep_package cycle_spent
  sweep_packages [] total s = (s, total)
  sweep_packages (pkg ∷ pkgs) total s =
      let (s', n) = sweep_package pkg total s in
      let rest = sweep_packages pkgs (total + n) s' in
      if cycle_spent total then (s, total) else rest

  unfoldable pub last_name : Text → List Package → Text
  last_name name [] = name
  last_name name (p ∷ ps) = last_name p.name ps

  -- The loop over the pages, and whether it has ended.
  unfoldable pub sweep_pages : ℕ → Text → ℕ → State → (State × ℕ) × Bool
  unfolding sweep_packages cycle_spent last_name
  sweep_pages zero start_after total s = ((s, total), false)
  sweep_pages (suc fuel) start_after total s =
      let pkgs = list_oci_packages_for_retention start_after retention_package_page_size s.db in
      let (s', total') = sweep_packages pkgs total s in
      let rest = sweep_pages fuel (last_name start_after pkgs) total' s' in
      if cycle_spent total || env.fails (package_page fuel)
      then ((s, total), true)
      else if ltb (length pkgs) retention_package_page_size
      then ((s', total'), true)
      else rest

  -- retentionSweep, with a round for each package.
  unfoldable pub retention_sweep : State → (State × ℕ) × Bool
  unfolding sweep_pages
  retention_sweep s = sweep_pages (suc (length s.db.packages)) [] 0 s

  unfoldable pub bury : UntaggedManifest → State → State
  bury r s = if env.fails (record_tombstone r.package_name r.digest) then s else record s {
    db = record_deleted_manifest env.now r.digest r.package_name cfg.local_actor s.db;
  }

  -- Only the deletions of the node's own repositories are federated.
  unfoldable pub federate_one : UntaggedManifest → State → State
  unfolding publish bury
  federate_one r s =
      if owns_repo cfg r.owner_id
      then publish (env.has_publisher && not (env.fails (publish_manifest r.package_name r.digest)))
          (manifest_delete r.package_name r.digest) (bury r s)
      else s

  unfoldable pub federate : List UntaggedManifest → State → State
  unfolding federate_one
  federate [] s = s
  federate (r ∷ rs) s = federate rs (federate_one r s)

  unfoldable pub untagged_limit : ℕ
  untagged_limit = if ltb 0 cfg.untagged_batch_size then cfg.untagged_batch_size else 500

  -- One batch, with the number of its rows.
  unfoldable pub prune_once : State → State × ℕ
  unfolding federate untagged_limit
  prune_once s =
      let (db, rows) =
        prune_untagged_manifests env.now cfg.untagged_manifest_age untagged_limit s.db in
      (federate rows (record s { db = db }), length rows)

  -- The loop of pruneUntaggedManifests, and whether it has ended.
  unfoldable pub prune_rounds : ℕ → State → State × Bool
  unfolding prune_once
  prune_rounds zero s = (s, false)
  prune_rounds (suc fuel) s =
      let (s', pruned) = prune_once s in
      let rest = prune_rounds fuel s' in
      if env.fails (prune_batch fuel)
      then (s, true)
      else if ltb pruned untagged_limit
      then (s', true)
      else rest

  -- pruneUntaggedManifests, with a round for each version.
  unfoldable pub prune_untagged : State → State × Bool
  unfolding prune_rounds
  prune_untagged s =
      if ltb 0 cfg.untagged_manifest_age
      then prune_rounds (suc (length s.db.versions)) s
      else (s, true)
