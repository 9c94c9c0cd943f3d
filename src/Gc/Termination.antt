-- ===== src/Gc/Termination.antt =====
-- No loop of the collector of internal/peering/gc.go stops for want of rounds.
use apoci.Prelude.{Bool, true, ◌≡◌, suc, length, refl, arith, if_both, ltb}
use apoci.Gc.{GcConfig, Env, State}
use apoci.Gc.Retention.{retention_sweep, prune_untagged}
use apoci.Gc.Orphans.{clean_orphaned_metadata}
use apoci.Gc.Drift.{reconcile_blob_storage_drift}
use apoci.Gc.Ends.{orphan_rounds-ended, prune_rounds-ended}
use apoci.Gc.Paging.{retention_sweep-ended}
use apoci.Gc.Reconciled.{reconcile-ended}

module _ (cfg : GcConfig) (env : Env) where
  prune_untagged-ended : (s : State) → (prune_untagged cfg env s).1 ≡ true
  unfolding prune_untagged
  prune_untagged-ended s =
      if_both (λ (y : State × Bool). y.1 ≡ true) (ltb 0 cfg.untagged_manifest_age) _ _
        (prune_rounds-ended cfg env (suc (length s.db.versions)) s (omega arith)) refl

  clean_metadata-ended : (s : State) → (clean_orphaned_metadata cfg env s).1 ≡ true
  unfolding clean_orphaned_metadata
  clean_metadata-ended s = orphan_rounds-ended cfg env (suc (length s.db.blobs)) s (omega arith)

  -- From any state, and whatever fails, the four loops of a cycle end by their own tests: after at
  -- most one round more than there are packages, manifests, blobs and blobs.
  pub loops_end :
      (s : State)
      → ((retention_sweep cfg env s).1 ≡ true)
        × ((prune_untagged cfg env s).1 ≡ true)
        × ((clean_orphaned_metadata cfg env s).1 ≡ true)
        × ((reconcile_blob_storage_drift cfg env s).1 ≡ true)
  loops_end s = (
    retention_sweep-ended cfg env s,
    prune_untagged-ended s,
    clean_metadata-ended s,
    reconcile-ended cfg env s,
  )
