-- ===== src/Gc.antt =====
-- internal/peering/gc.go: the garbage collector over the registry tables and the stored files. The
-- child modules model its phases; the file store, path.Match and the publisher are parameters, and
-- for each call it is given whether it fails. Notices and metrics are left out.
pub mod Retention
pub mod Orphans
pub mod Drift
pub mod Pinned
pub mod Untagged
pub mod Survival
pub mod Termination
pub mod Stored
pub mod Reconciled
pub mod Paging
pub mod Ends
pub mod Budget
pub mod Selection
use apoci.Prelude.{
  ℕ, ◌+◌, Text, text_eq, codes, Bool, true, false, ◌&&◌, not, Option, none, some, List, [], ◌∷◌,
  ◌++◌, cut_prefix, ltb, if◌then◌else◌,
}
use apoci.Prelude.Maps
use apoci.Prelude.Maps.{Map}
use apoci.Registry.{Db, Package}

-- RetentionPolicy; no globs at all differ from an empty list of them.
pub record RetentionPolicy : Type 0 where
  pub keep_last_n : ℕ
  pub max_age : ℕ
  pub pinned_globs : Option (List Text)

-- GCConfig; a setting that is not positive is 0.
pub record GcConfig : Type 0 where
  pub stale_peer_blob_age : ℕ
  pub orphan_batch_size : ℕ
  pub blob_gc_grace_period : ℕ
  pub untagged_manifest_age : ℕ
  pub untagged_batch_size : ℕ
  pub retention_defaults : RetentionPolicy
  pub retention_per_repo : Map RetentionPolicy
  pub retention_tags_per_cycle : ℕ
  pub local_actor : Text
  pub namespace : Text

-- The calls that may fail. A call that a loop repeats has the number of the rounds that are left.
pub data Call : Type 0 where
  package_page list_tags prune_batch orphan_batch reconcile_page : ℕ → Call
  delete_tag : ℕ → Text → Call
  publish_tag publish_manifest record_tombstone : Text → Text → Call
  delete_row is_referenced repair has_peer set_stored delete_file : Text → Call
  stale_peers list_files known_digests tombstones : Call

-- What is federated.
pub data Published : Type 0 where
  tag_delete manifest_delete : Text → Text → Published

pub record State : Type 0 where
  pub db : Db
  pub disk : List Text
  pub published : List Published

pub record Env : Type 0 where
  pub now : ℕ
  pub fails : Call → Bool
  -- path.Match of a pattern and a name; `none` is ErrBadPattern.
  pub path_match : Text → Text → Option Bool
  pub has_publisher : Bool
  -- Size and ModTime of the file store; `none` is their error.
  pub size : Text → Option ℕ
  pub mod_time : Text → Option ℕ
  -- Exists of the file store at the first and at the second look; `none` is its error.
  pub exists : Text → Option Bool
  pub recheck : Text → Option Bool

module _ (cfg : GcConfig) where
  unfoldable pub is_empty : Text → Bool
  is_empty [] = true
  is_empty (_ ∷ _) = false

  relative : Option Text → Option RetentionPolicy
  relative none = none
  relative (some rel) = Maps.get rel cfg.retention_per_repo

  -- The entry for a repository, by its name or by its name below the namespace.
  unfoldable pub override_of : Text → Option RetentionPolicy
  unfolding relative is_empty
  override_of repo = elim (Maps.get repo cfg.retention_per_repo) [
    | some policy ↦ some policy
    | none ↦
        if is_empty cfg.namespace
        then none
        else relative (cut_prefix (cfg.namespace ++ codes "/") repo)
  ]

  overlay_globs : Option (List Text) → Option (List Text) → Option (List Text)
  overlay_globs none defaults = defaults
  overlay_globs (some globs) defaults = some globs

  overlay : RetentionPolicy → RetentionPolicy → RetentionPolicy
  unfolding overlay_globs
  overlay own defaults = record {
    keep_last_n = if ltb 0 own.keep_last_n then own.keep_last_n else defaults.keep_last_n;
    max_age = if ltb 0 own.max_age then own.max_age else defaults.max_age;
    pinned_globs = overlay_globs own.pinned_globs defaults.pinned_globs;
  }

  -- effectiveRetention
  unfoldable pub effective_retention : Text → RetentionPolicy
  unfolding overlay
  effective_retention repo = elim (override_of repo) [
    | none ↦ cfg.retention_defaults
    | some own ↦ overlay own cfg.retention_defaults
  ]

  -- ownsRepo
  unfoldable pub owns_repo : Text → Bool
  unfolding is_empty
  owns_repo owner_id = not (is_empty cfg.local_actor) && text_eq owner_id cfg.local_actor
