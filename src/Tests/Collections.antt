-- ===== src/Tests/Collections.antt =====
-- Runs of the garbage collector over one repository with a pinned tag and one more.
use mathlib.Core.Path.{subst}
use apoci.Prelude.{
  refl, true, false, none, some, [], ◌∷◌, codes, arith, Text, ◌≡◌, ◌≤◌, ◌+◌, length, text_eq, inl,
  text_eq_iff,
}
use apoci.Prelude.Maps
use apoci.Registry.{Tag, Version, File}
use apoci.Gc.{GcConfig, RetentionPolicy, Env, State}
use apoci.Gc.Retention.{candidates, retention_sweep, prune_untagged}
use apoci.Gc.Orphans.{clean_orphaned_metadata}
use apoci.Gc.Drift.{reconcile_blob_storage_drift}
use apoci.Gc.Selection.{IsSelection, candidates-IsSelection}
use apoci.Gc.Budget.{retention_sweep-bounded}
use apoci.Gc.Budget.Packages.{IsUnique}
use apoci.Gc.Termination.{loops_end}
use apoci.Gc.Stored.{is_stored, reconcile-keeps_stored}
use apoci.Tests.{alice}

abbrev policy : RetentionPolicy
policy = record { keep_last_n = 1; max_age = 3; pinned_globs = some (codes "v1" ∷ []) }

abbrev config : GcConfig
config = record {
  stale_peer_blob_age = 5;
  orphan_batch_size = 0;
  blob_gc_grace_period = 0;
  untagged_manifest_age = 1;
  untagged_batch_size = 0;
  retention_defaults = policy;
  retention_per_repo = [];
  retention_tags_per_cycle = 1;
  local_actor = alice;
  namespace = [];
}

abbrev env : Env
env = record {
  now = 10;
  fails = λ _. false;
  path_match = λ g n. some (text_eq g n);
  has_publisher = true;
  size = λ _. some 1;
  mod_time = λ _. some 1;
  exists = λ _. some true;
  recheck = λ _. none;
}

abbrev pinned_tag : Tag
pinned_tag = record { package_id = 1; name = codes "v1"; version = codes "d"; updated_at = 2 }

abbrev old_tag : Tag
old_tag = record { package_id = 1; name = codes "v0"; version = codes "d"; updated_at = 1 }

abbrev manifest : Version
manifest = record {
  id = 1;
  package_id = 1;
  version = codes "d";
  metadata = none;
  media_type = codes "m/m";
  size_bytes = 3;
  source_actor = none;
  subject_digest = none;
  created_at = 1;
}

abbrev layer : File
layer = record { version_id = 1; blob_digest = codes "b"; size_bytes = 3 }

abbrev start : State
start = record {
  db = record {
    packages = record { id = 1; name = codes "app"; owner_id = alice } ∷ [];
    versions = manifest ∷ [];
    tags = pinned_tag ∷ old_tag ∷ [];
    files = layer ∷ [];
    blobs = (codes "b", record { size_bytes = 3; stored_locally = true; created_at = 1 }) ∷ [];
    peer_blobs = [];
    deleted = [];
    next_package_id = 2;
    next_version_id = 2;
  };
  disk = codes "b" ∷ codes "stray" ∷ [];
  published = [];
}

candidates-IsSelection_example :
    IsSelection config env policy 0
      (pinned_tag ∷ old_tag ∷ [])
      (candidates config env policy 0 (pinned_tag ∷ old_tag ∷ []))
candidates-IsSelection_example =
    candidates-IsSelection config env policy 0 (pinned_tag ∷ old_tag ∷ [])

another_name : (name : Text) → text_eq (codes "v1") name ≡ true → text_eq (codes "v0") name ≡ false
another_name name h =
    subst (λ n. text_eq (codes "v0") n ≡ false) ((text_eq_iff (codes "v1") name).0 h)
      (unfold text_eq in refl)

start-IsUnique : IsUnique start.db.tags
start-IsUnique id name = ground (arith, another_name name)

retention_sweep-bounded_example :
    ((retention_sweep config env start).0.1 ≤ 1)
    × (2
        ≤ length (retention_sweep config env start).0.0.db.tags
          + (retention_sweep config env start).0.1)
    × (length (retention_sweep config env start).0.0.published
        ≤ 0 + (retention_sweep config env start).0.1)
retention_sweep-bounded_example = retention_sweep-bounded config env start start-IsUnique refl

loops_end_example :
    ((retention_sweep config env start).1 ≡ true)
    × ((prune_untagged config env start).1 ≡ true)
    × ((clean_orphaned_metadata config env start).1 ≡ true)
    × ((reconcile_blob_storage_drift config env start).1 ≡ true)
loops_end_example = loops_end config env start

reconcile-keeps_stored_example :
    is_stored (codes "b") (reconcile_blob_storage_drift config env start).0.0.db.blobs ≡ true
reconcile-keeps_stored_example =
    reconcile-keeps_stored config env (codes "b") start (inl (λ e. ground arith))
      (unfold Maps.get text_eq in refl)
