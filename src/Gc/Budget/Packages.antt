-- ===== src/Gc/Budget/Packages.antt =====
-- What applyRetentionToPackage of internal/peering/gc.go costs of the budget of a cycle.
use apoci.Prelude.{
  ℕ, ◌+◌, ◌-◌, ◌≤◌, Text, Bool, true, false, ◌&&◌, not, Option, some, List, [], ◌∷◌, ◌≡◌, arith,
  length, length-append, ltb, leb, filter, if_both, if_when, if◌then◌else◌,
}
use apoci.Registry.{Package, Tag, is_tag}
use apoci.Registry.Removal.{length-remove_where, filter-remove_where}
use apoci.Registry.Retention.{delete_package_tag}
use apoci.Gc.{GcConfig, Env, State, Published, delete_tag, list_tags, effective_retention}
use apoci.Gc.Retention.{
  publish, drop_tag, is_spent, delete_candidates, apply_retention_to_package, budget_left,
  sweep_package,
}

-- The pair of repository and name is unique among the tags.
abbrev pub IsUnique : List Tag → Type 0
IsUnique tags = (id : ℕ) (name : Text) → length (filter (is_tag id name) tags) ≤ 1

-- From a state and a count to another with a larger count: no more tags are gone, and no more
-- deletions federated, than have been counted.
pub record Spends (s : State) (d : ℕ) (t : State) (e : ℕ) : Type 0 where
  pub deleted : length s.db.tags + d ≤ length t.db.tags + e
  pub federated : length t.published + d ≤ length s.published + e
  pub unique : IsUnique t.db.tags

pub none_spent : (s : State) (d : ℕ) → IsUnique s.db.tags → Spends s d s d
none_spent s d u = record { deleted = omega arith; federated = omega arith; unique = u }

pub spent_then : (s t r : State) (d e n : ℕ) → Spends s d t e → Spends t e r n → Spends s d r n
spent_then s t r d e n h k = record {
  deleted = omega (arith, h.deleted, k.deleted);
  federated = omega (arith, h.federated, k.federated);
  unique = k.unique;
}

module _ (cfg : GcConfig) (env : Env) where
  publish-Spends :
      (b : Bool) (p : Published) (s t : State) (d : ℕ)
      → length s.db.tags ≤ length t.db.tags + 1
      → length t.published ≤ length s.published
      → IsUnique t.db.tags
      → Spends s d (publish cfg env b p t) (d + 1)
  unfolding publish
  publish-Spends true p s t d gone told u = record {
    deleted = omega arith;
    federated = omega (arith, length-append t.published (p ∷ []));
    unique = u;
  }
  publish-Spends false p s t d gone told u = record {
    deleted = omega arith;
    federated = omega arith;
    unique = u;
  }

  drop_tag-Spends :
      (pkg : Package) (t : Tag) (s : State) (d : ℕ)
      → IsUnique s.db.tags
      → Spends s d (drop_tag cfg env pkg t s) (d + 1)
  unfolding drop_tag delete_package_tag
  drop_tag-Spends pkg t s d u =
      let named = is_tag pkg.id t.name in
      let once = u pkg.id t.name in
      publish-Spends _ _ s (record s { db = delete_package_tag pkg.id t.name s.db }) d
        (omega (arith, length-remove_where named s.db.tags)) (omega arith)
        (λ id name. omega (arith, filter-remove_where named (is_tag id name) s.db.tags, u id name))

  delete_candidates-next :
      (pkg : Package) (budget : Option ℕ) (t : Tag) (ts : List Tag) (deleted : ℕ) (s : State)
      (failed : Bool)
      → IsUnique s.db.tags
      → ((d : ℕ) (r : State)
          → IsUnique r.db.tags
          → Spends r d
              (delete_candidates cfg env pkg budget d ts r).0
              (delete_candidates cfg env pkg budget d ts r).1)
      → (let r = if failed then s else drop_tag cfg env pkg t s in
          let d = if failed then deleted else deleted + 1 in
          Spends s deleted
            (delete_candidates cfg env pkg budget d ts r).0
            (delete_candidates cfg env pkg budget d ts r).1)
  delete_candidates-next pkg budget t ts deleted s true u h = h deleted s u
  delete_candidates-next pkg budget t ts deleted s false u h =
      let dropped = drop_tag-Spends pkg t s deleted u in
      spent_then s _ _ deleted _ _ dropped (h (deleted + 1) _ dropped.unique)

  delete_candidates-Spends :
      (pkg : Package) (budget : Option ℕ) (ts : List Tag) (deleted : ℕ) (s : State)
      → IsUnique s.db.tags
      → Spends s deleted
          (delete_candidates cfg env pkg budget deleted ts s).0
          (delete_candidates cfg env pkg budget deleted ts s).1
  unfolding delete_candidates
  delete_candidates-Spends pkg budget [] deleted s u = none_spent s deleted u
  delete_candidates-Spends pkg budget (t ∷ ts) deleted s u =
      if_both (λ (y : State × ℕ). Spends s deleted y.0 y.1) (is_spent cfg env budget deleted) _ _
        (none_spent s deleted u)
        (delete_candidates-next pkg budget t ts deleted s (env.fails (delete_tag pkg.id t.name)) u
          (λ d r h. delete_candidates-Spends pkg budget ts d r h))

  -- The count stays within the budget.
  delete_candidates-within :
      (pkg : Package) (budget : ℕ) (ts : List Tag) (deleted : ℕ) (s : State)
      → deleted ≤ budget
      → (delete_candidates cfg env pkg (some budget) deleted ts s).1 ≤ budget
  unfolding delete_candidates is_spent
  delete_candidates-within pkg budget [] deleted s h = h
  delete_candidates-within pkg budget (t ∷ ts) deleted s h =
      if_when (λ (y : State × ℕ). y.1 ≤ budget) (leb budget deleted) _ _ (λ e. h)
        (λ e.
          delete_candidates-within pkg budget ts _ _
            (if_both (λ n. n ≤ budget) (env.fails (delete_tag pkg.id t.name)) _ _ h (ground arith)))

  -- What one package costs, on top of what has been counted.
  pub record IsCharged (s : State) (total : ℕ) (y : State × ℕ) : Type 0 where
    pub spends : Spends s 0 y.0 y.1
    pub within :
        ltb 0 cfg.retention_tags_per_cycle ≡ true
        → total ≤ cfg.retention_tags_per_cycle
        → total + y.1 ≤ cfg.retention_tags_per_cycle

  nothing-IsCharged : (s : State) (total : ℕ) → IsUnique s.db.tags → IsCharged s total (s, 0)
  nothing-IsCharged s total u = record {
    spends = none_spent s 0 u;
    within = λ limited h. omega arith;
  }

  within_budget :
      (pkg : Package) (ts : List Tag) (total : ℕ) (s : State)
      → ltb 0 cfg.retention_tags_per_cycle ≡ true
      → total ≤ cfg.retention_tags_per_cycle
      → total + (delete_candidates cfg env pkg (budget_left cfg env total) 0 ts s).1
        ≤ cfg.retention_tags_per_cycle
  unfolding budget_left
  within_budget pkg ts total s limited h =
      let left = cfg.retention_tags_per_cycle - total in
      rw limited (omega (arith, delete_candidates-within pkg left ts 0 s (omega arith)))

  deleted-IsCharged :
      (pkg : Package) (ts : List Tag) (total : ℕ) (s : State)
      → IsUnique s.db.tags
      → IsCharged s total (delete_candidates cfg env pkg (budget_left cfg env total) 0 ts s)
  deleted-IsCharged pkg ts total s u = record {
    spends = delete_candidates-Spends pkg (budget_left cfg env total) ts 0 s u;
    within = λ limited h. within_budget pkg ts total s limited h;
  }

  pub sweep_package-IsCharged :
      (pkg : Package) (total : ℕ) (s : State)
      → IsUnique s.db.tags
      → IsCharged s total (sweep_package cfg env pkg total s)
  unfolding sweep_package apply_retention_to_package
  sweep_package-IsCharged pkg total s u =
      let policy = effective_retention cfg pkg.name in
      if_both (IsCharged s total) (not (ltb 0 policy.keep_last_n) && not (ltb 0 policy.max_age)) _ _
        (nothing-IsCharged s total u)
        (if_both (IsCharged s total) (env.fails (list_tags pkg.id)) _ _
          (nothing-IsCharged s total u) (deleted-IsCharged pkg _ total s u))
