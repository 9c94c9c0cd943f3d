-- ===== src/Gc/Paging.antt =====
-- The paged loops of internal/peering/gc.go, over packages and over blobs, reach their last page.
use apoci.Prelude.{
  ℕ, zero, suc, ◌≤◌, ◌<◌, Text, text_eq, text_eq_refl, text_ltb, Bool, true, ◌&&◌, ◌||◌, not,
  Option, List, [], ◌∷◌, ◌≡◌, refl, ap, ◌∙◌, arith, All, All-take, length, ltb, any, filter,
  if_both, if_when, All-if,
}
use apoci.Prelude.Members.{All-self}
use apoci.Prelude.Order.{IsPast, next_page_fewer}
use apoci.Registry.{Db, Package, Tag}
use apoci.Registry.Retention.{delete_package_tag, list_oci_packages_for_retention}
use apoci.Gc.{GcConfig, Env, State, delete_tag, list_tags, package_page, effective_retention}
use apoci.Gc.Retention.{
  publish, drop_tag, is_spent, delete_candidates, apply_retention_to_package, cycle_spent,
  sweep_package, sweep_packages, sweep_pages, retention_sweep, retention_package_page_size,
  last_name,
}
use apoci.Gc.Pinned.{order_by_name-All}

pub filter-le-length : {A : Type 0} (p : A → Bool) (xs : List A) → length (filter p xs) ≤ length xs
filter-le-length p [] = omega arith
filter-le-length p (x ∷ xs) = ground (arith, filter-le-length p xs)

pub All-where :
    {A : Type 0} (p : A → Bool) (P : A → Type 0) (xs : List A)
    → All P xs
    → All (λ x. (p x ≡ true) × P x) (filter p xs)
All-where p P [] h = tt
All-where p P (x ∷ xs) h =
    All-if (λ y. (p y ≡ true) × P y) (p x) x _ (λ e. (e, h.0)) (All-where p P xs h.1)

module _ (cfg : GcConfig) (env : Env) where
  drop_tag-packages :
      (pkg : Package) (t : Tag) (s : State) → (drop_tag cfg env pkg t s).db.packages ≡ s.db.packages
  unfolding drop_tag publish delete_package_tag
  drop_tag-packages pkg t s = if_both (λ (x : State). x.db.packages ≡ s.db.packages) _ _ _ refl refl

  delete_candidates-packages :
      (pkg : Package) (budget : Option ℕ) (ts : List Tag) (deleted : ℕ) (s : State)
      → (delete_candidates cfg env pkg budget deleted ts s).0.db.packages ≡ s.db.packages
  unfolding delete_candidates
  delete_candidates-packages pkg budget [] deleted s = refl
  delete_candidates-packages pkg budget (t ∷ ts) deleted s =
      if_both (λ (x : State × ℕ). x.0.db.packages ≡ s.db.packages) (is_spent cfg env budget deleted)
        _ _ refl
        (delete_candidates-packages pkg budget ts _ _
          ∙ if_both (λ (x : State). x.db.packages ≡ s.db.packages)
              (env.fails (delete_tag pkg.id t.name)) _ _ refl (drop_tag-packages pkg t s))

  sweep_package-packages :
      (pkg : Package) (total : ℕ) (s : State)
      → (sweep_package cfg env pkg total s).0.db.packages ≡ s.db.packages
  unfolding sweep_package apply_retention_to_package
  sweep_package-packages pkg total s =
      let policy = effective_retention cfg pkg.name in
      let same = λ (x : State × ℕ). x.0.db.packages ≡ s.db.packages in
      if_both same (not (ltb 0 policy.keep_last_n) && not (ltb 0 policy.max_age)) _ _ refl (
        if_both same (env.fails (list_tags pkg.id)) _ _ refl
          (delete_candidates-packages pkg _ _ 0 s))

  sweep_packages-packages :
      (pkgs : List Package) (total : ℕ) (s : State)
      → (sweep_packages cfg env pkgs total s).0.db.packages ≡ s.db.packages
  unfolding sweep_packages
  sweep_packages-packages [] total s = refl
  sweep_packages-packages (pkg ∷ pkgs) total s =
      if_both (λ (x : State × ℕ). x.0.db.packages ≡ s.db.packages) (cycle_spent cfg env total) _ _
        refl (sweep_packages-packages pkgs _ _ ∙ sweep_package-packages pkg total s)

  last_name-at :
      (P : Text → Type 0) (name : Text) (ps : List Package)
      → All (λ p. P p.name) ps
      → 1 ≤ length ps
      → P (last_name cfg env name ps)
  unfolding last_name
  last_name-at P name [] h k = absurd (ground arith)
  last_name-at P name (p ∷ []) h k = h.0
  last_name-at P name (p ∷ q ∷ ps) h k = last_name-at P p.name (q ∷ ps) h.1 (omega arith)

  -- The packages past a cursor.
  abbrev past : Text → State → ℕ
  past start_after s = length (filter (λ p. text_ltb start_after p.name) s.db.packages)

  past-le : (start_after : Text) (s : State) → past start_after s ≤ length s.db.packages
  past-le start_after s = filter-le-length _ s.db.packages

  page-IsPast :
      (start_after : Text) (limit : ℕ) (db : Db)
      → All
          (λ p. IsPast (λ (x : Package). x.name) start_after db.packages p.name)
          (list_oci_packages_for_retention start_after limit db)
  unfolding list_oci_packages_for_retention
  page-IsPast start_after limit db =
      All-take (λ (p : Package). IsPast (λ (x : Package). x.name) start_after db.packages p.name) _
        _
        (All-where (λ p. text_ltb start_after p.name)
          (λ p. any (λ (x : Package). text_eq x.name p.name) db.packages ≡ true) _
          (order_by_name-All (λ p. any (λ (x : Package). text_eq x.name p.name) db.packages ≡ true)
            db.packages
            (All-self (λ (p x : Package). text_eq x.name p.name) db.packages
              (λ p. text_eq_refl p.name))))

  next_past :
      (start_after : Text) (s : State)
      → 1 ≤ length (list_oci_packages_for_retention start_after retention_package_page_size s.db)
      → past
          (last_name cfg env start_after
            (list_oci_packages_for_retention start_after retention_package_page_size s.db))
          s
        < past start_after s
  next_past start_after s h =
      let pkgs = list_oci_packages_for_retention start_after retention_package_page_size s.db in
      next_page_fewer (λ (x : Package). x.name) start_after s.db.packages
        (last_name cfg env start_after pkgs)
        (last_name-at (IsPast (λ (x : Package). x.name) start_after s.db.packages) start_after pkgs
          (page-IsPast start_after retention_package_page_size s.db) h)

  sweep_pages-ended :
      (fuel : ℕ) (start_after : Text) (total : ℕ) (s : State)
      → past start_after s < fuel
      → (sweep_pages cfg env fuel start_after total s).1 ≡ true
  unfolding sweep_pages
  sweep_pages-ended zero start_after total s h = absurd (ground arith)
  sweep_pages-ended (suc fuel) start_after total s h =
      let pkgs = list_oci_packages_for_retention start_after retention_package_page_size s.db in
      let swept = sweep_packages cfg env pkgs total s in
      let ended = λ (y : (State × ℕ) × Bool). y.1 ≡ true in
      if_both ended (cycle_spent cfg env total || env.fails (package_page fuel)) _ _ refl (
        if_when ended (ltb (length pkgs) retention_package_page_size) _ _ (λ e. refl)
          (λ e.
            let fewer = next_past start_after s (ground arith) in
            let same = sweep_packages-packages pkgs total s in
            sweep_pages-ended fuel (last_name cfg env start_after pkgs) swept.1 swept.0 (
              omega (
                arith,
                ap
                    (λ ps. length (
                      filter (λ (p : Package). text_ltb (last_name cfg env start_after pkgs) p.name)
                        ps))
                    same,
                fewer,
              ))))

  pub retention_sweep-ended : (s : State) → (retention_sweep cfg env s).1 ≡ true
  unfolding retention_sweep
  retention_sweep-ended s =
      sweep_pages-ended (suc (length s.db.packages)) [] 0 s (omega (arith, past-le [] s))
