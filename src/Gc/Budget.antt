-- ===== src/Gc/Budget.antt =====
-- How many tags one run of retentionSweep of internal/peering/gc.go deletes and federates.
pub mod Packages
use apoci.Prelude.{
  ℕ, zero, suc, ◌+◌, ◌-◌, ◌≤◌, Text, Bool, true, false, ◌&&◌, ◌||◌, not, Option, some, List, [],
  ◌∷◌, ◌≡◌, arith, length, length-append, ltb, leb, filter, if_both, if_when, if◌then◌else◌,
}
use apoci.Registry.{Package, Tag, is_tag}
use apoci.Registry.Removal.{length-remove_where, filter-remove_where}
use apoci.Registry.Retention.{delete_package_tag, list_oci_packages_for_retention}
use apoci.Gc.{
  GcConfig, Env, State, Published, delete_tag, list_tags, package_page, effective_retention,
}
use apoci.Gc.Retention.{
  publish, drop_tag, is_spent, delete_candidates, apply_retention_to_package, budget_left,
  cycle_spent, sweep_package, sweep_packages, sweep_pages, retention_sweep,
  retention_package_page_size, last_name,
}
use apoci.Gc.Budget.Packages.{
  IsUnique, Spends, none_spent, spent_then, IsCharged, sweep_package-IsCharged,
}

module _ (cfg : GcConfig) (env : Env) where
  record IsWithin (s : State) (total : ℕ) (y : State × ℕ) : Type 0 where
    spends : Spends s total y.0 y.1
    within :
        ltb 0 cfg.retention_tags_per_cycle ≡ true
        → total ≤ cfg.retention_tags_per_cycle
        → y.1 ≤ cfg.retention_tags_per_cycle

  none-IsWithin : (s : State) (total : ℕ) → IsUnique s.db.tags → IsWithin s total (s, total)
  none-IsWithin s total u = record { spends = none_spent s total u; within = λ limited h. h }

  then-IsWithin :
      (s t : State) (total n : ℕ) (y : State × ℕ)
      → IsCharged cfg env s total (t, n)
      → IsWithin t (total + n) y
      → IsWithin s total y
  then-IsWithin s t total n y h k = record {
    spends = record {
      deleted = omega (arith, h.spends.deleted, k.spends.deleted);
      federated = omega (arith, h.spends.federated, k.spends.federated);
      unique = k.spends.unique;
    };
    within = λ limited below. k.within limited (h.within limited below);
  }

  sweep_packages-IsWithin :
      (pkgs : List Package) (total : ℕ) (s : State)
      → IsUnique s.db.tags
      → IsWithin s total (sweep_packages cfg env pkgs total s)
  unfolding sweep_packages
  sweep_packages-IsWithin [] total s u = none-IsWithin s total u
  sweep_packages-IsWithin (pkg ∷ pkgs) total s u =
      let charged = sweep_package-IsCharged cfg env pkg total s u in
      if_both (IsWithin s total) (cycle_spent cfg env total) _ _ (none-IsWithin s total u) (
        then-IsWithin s _ total _ _ charged
          (sweep_packages-IsWithin pkgs _ _ charged.spends.unique))

  chain-IsWithin :
      (s : State) (total : ℕ) (x y : State × ℕ)
      → IsWithin s total x
      → IsWithin x.0 x.1 y
      → IsWithin s total y
  chain-IsWithin s total x y h k = record {
    spends = spent_then s x.0 y.0 total x.1 y.1 h.spends k.spends;
    within = λ limited below. k.within limited (h.within limited below);
  }

  sweep_pages-IsWithin :
      (fuel : ℕ) (start_after : Text) (total : ℕ) (s : State)
      → IsUnique s.db.tags
      → IsWithin s total (sweep_pages cfg env fuel start_after total s).0
  unfolding sweep_pages
  sweep_pages-IsWithin zero start_after total s u = none-IsWithin s total u
  sweep_pages-IsWithin (suc fuel) start_after total s u =
      let pkgs = list_oci_packages_for_retention start_after retention_package_page_size s.db in
      let swept = sweep_packages cfg env pkgs total s in
      let first = sweep_packages-IsWithin pkgs total s u in
      if_both (λ (y : (State × ℕ) × Bool). IsWithin s total y.0)
        (cycle_spent cfg env total || env.fails (package_page fuel)) _ _ (none-IsWithin s total u)
        (if_both (λ (y : (State × ℕ) × Bool). IsWithin s total y.0)
          (ltb (length pkgs) retention_package_page_size) _ _ first
          (chain-IsWithin s total swept _ first (
            sweep_pages-IsWithin fuel (last_name cfg env start_after pkgs) swept.1 swept.0
              first.spends.unique)))

  -- Where a limit on the deletions of a cycle is set, retentionSweep counts no more than that, and
  -- no more tags are deleted or federated as deleted than it counts, whatever fails, provided that no
  -- repository has two tags of one name.
  pub retention_sweep-bounded :
      (s : State)
      → IsUnique s.db.tags
      → ltb 0 cfg.retention_tags_per_cycle ≡ true
      → ((retention_sweep cfg env s).0.1 ≤ cfg.retention_tags_per_cycle)
        × (length s.db.tags
            ≤ length (retention_sweep cfg env s).0.0.db.tags + (retention_sweep cfg env s).0.1)
        × (length (retention_sweep cfg env s).0.0.published
            ≤ length s.published + (retention_sweep cfg env s).0.1)
  unfolding retention_sweep
  retention_sweep-bounded s u limited =
      let r = sweep_pages-IsWithin (suc (length s.db.packages)) [] 0 s u in
      (
        r.within limited (omega arith),
        omega (arith, r.spends.deleted),
        omega (arith, r.spends.federated),
      )
