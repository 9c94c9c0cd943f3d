-- ===== src/Gc/Pinned.antt =====
-- What the collector leaves of a manifest under a pinned tag: deletions by retentionSweep.
use mathlib.Core.List.{Memᴰ}
use mathlib.Core.Path.{subst}
use apoci.Prelude.{
  ℕ, zero, suc, ◌+◌, Text, text_eq_iff, Bool, true, false, ◌&&◌, not, Option, List, [], ◌∷◌, ◌≡◌,
  inl, inr, arith, All, All-cons, All-if, text_ltb, All-take, length, is_some, ltb, Bool-cases,
  if_both, if◌then◌else◌,
}
use apoci.Prelude.Members.{All-filter}
use apoci.Prelude.Maps
use apoci.Prelude.Maps.{Map}
use apoci.Registry.{Db, Package, Version, Tag, File, Blob, is_tag}
use apoci.Registry.Removal.{Mem-remove_where}
use apoci.Registry.Retention.{
  list_oci_packages_for_retention, delete_package_tag, order_by_name, insert_by_name,
}
use apoci.Gc.{GcConfig, RetentionPolicy, Env, State, Published, effective_retention}
use apoci.Gc.Retention.{
  tag_pinned, is_dropped, candidates, publish, drop_tag, delete_candidates,
  apply_retention_to_package, sweep_package, sweep_packages, sweep_pages, retention_sweep,
}

insert_by_name-All :
    (P : Package → Type 0) (p : Package) (ps : List Package)
    → P p
    → All P ps
    → All P (insert_by_name p ps)
unfolding insert_by_name
insert_by_name-All P p [] h k = (h, tt)
insert_by_name-All P p (q ∷ qs) h k =
    if_both (All P) (text_ltb q.name p.name) _ _
      (All-cons P q (insert_by_name p qs) k.0 (insert_by_name-All P p qs h k.1))
      (All-cons P p (q ∷ qs) h k)

pub order_by_name-All :
    (P : Package → Type 0) (ps : List Package) → All P ps → All P (order_by_name ps)
unfolding order_by_name
order_by_name-All P [] h = tt
order_by_name-All P (p ∷ ps) h = insert_by_name-All P p _ h.0 (order_by_name-All P ps h.1)

module _ (cfg : GcConfig) (env : Env) where
  -- The policy of the repository pins the name.
  abbrev pub IsPinnedIn : Text → Package → Type 0
  IsPinnedIn name p = tag_pinned cfg env name (effective_retention cfg p.name).pinned_globs ≡ true

  -- The tag is there and pinned by its repository, its manifest is there, the only one with its id,
  -- with a blob that it names, and the row of that blob is there and its file is stored.
  pub record IsLive (t : Tag) (v : Version) (f : File) (packages : List Package)
      (versions : List Version) (tags : List Tag) (files : List File) (blobs : Map Blob)
      (disk : List Text) : Type 0 where
    pub pinned : All (λ p. p.id ≡ t.package_id → IsPinnedIn t.name p) packages
    pub tag : Memᴰ t tags
    pub version : Memᴰ v versions
    pub alone : All (λ w. w.id ≡ v.id → w ≡ v) versions
    pub file : Memᴰ f files
    pub row : is_some (Maps.get f.blob_digest blobs) ≡ true
    pub stored : Memᴰ f.blob_digest disk

  module _ (t : Tag) (v : Version) (f : File) where
    abbrev pub Lives : State → Type 0
    Lives s = IsLive t v f s.db.packages s.db.versions s.db.tags s.db.files s.db.blobs s.disk

    pub publish-Lives :
        (b : Bool) (p : Published) (s : State) → Lives s → Lives (publish cfg env b p s)
    unfolding publish
    publish-Lives true p s u = u
    publish-Lives false p s u = u

    other_tag :
        (pkg : Package) (policy : RetentionPolicy) (x : Tag)
        → (pkg.id ≡ t.package_id → tag_pinned cfg env t.name policy.pinned_globs ≡ true)
        → tag_pinned cfg env x.name policy.pinned_globs ≡ false
        → is_tag pkg.id x.name t ≡ false
    other_tag pkg policy x pins free = elim (Bool-cases (is_tag pkg.id x.name t)) [
      | inr differs ↦ differs
      | inl same ↦
          let id : pkg.id ≡ t.package_id = ground arith in
          let name : t.name ≡ x.name = (text_eq_iff _ _).0 (ground arith) in
          let pinned =
            subst (λ n. tag_pinned cfg env n policy.pinned_globs ≡ true) name (pins id) in
          ground arith
    ]

    drop_tag-Lives :
        (pkg : Package) (x : Tag) (s : State)
        → is_tag pkg.id x.name t ≡ false
        → Lives s
        → Lives (drop_tag cfg env pkg x s)
    unfolding drop_tag delete_package_tag
    drop_tag-Lives pkg x s other u = publish-Lives _ _ _ (record {
      pinned = u.pinned;
      tag = Mem-remove_where (is_tag pkg.id x.name) t s.db.tags other u.tag;
      version = u.version;
      alone = u.alone;
      file = u.file;
      row = u.row;
      stored = u.stored;
    })

    candidates-All :
        (policy : RetentionPolicy) (kept : ℕ) (ts : List Tag)
        → All
            (λ x. tag_pinned cfg env x.name policy.pinned_globs ≡ false)
            (candidates cfg env policy kept ts)
    unfolding candidates
    candidates-All policy kept [] = tt
    candidates-All policy kept (x ∷ ts) =
        let pinned = tag_pinned cfg env x.name policy.pinned_globs in
        let dropped = is_dropped cfg env policy kept x in
        let counts = not pinned && not dropped && ltb 0 policy.keep_last_n in
        All-if (λ (y : Tag). tag_pinned cfg env y.name policy.pinned_globs ≡ false)
          (not pinned && dropped) x _ (λ e. ground arith)
          (candidates-All policy (if counts then kept + 1 else kept) ts)

    delete_candidates-Lives :
        (pkg : Package) (policy : RetentionPolicy) (budget : Option ℕ) (ts : List Tag) (deleted : ℕ)
        (s : State)
        → (pkg.id ≡ t.package_id → tag_pinned cfg env t.name policy.pinned_globs ≡ true)
        → All (λ x. tag_pinned cfg env x.name policy.pinned_globs ≡ false) ts
        → Lives s
        → Lives (delete_candidates cfg env pkg budget deleted ts s).0
    unfolding delete_candidates
    delete_candidates-Lives pkg policy budget [] deleted s pins free u = u
    delete_candidates-Lives pkg policy budget (x ∷ ts) deleted s pins free u =
        if_both (λ (y : State × ℕ). Lives y.0) _ _ _ u
          (delete_candidates-Lives pkg policy budget ts _ _ pins free.1
            (if_both Lives _ _ _ u (drop_tag-Lives pkg x s (other_tag pkg policy x pins free.0) u)))

    apply_retention-Lives :
        (pkg : Package) (budget : Option ℕ) (s : State)
        → (pkg.id ≡ t.package_id → IsPinnedIn t.name pkg)
        → Lives s
        → Lives
            (apply_retention_to_package cfg env pkg (effective_retention cfg pkg.name) budget s).0
    unfolding apply_retention_to_package
    apply_retention-Lives pkg budget s pins u =
        if_both (λ (y : State × ℕ). Lives y.0) _ _ _ u
          (delete_candidates-Lives pkg (effective_retention cfg pkg.name) budget _ 0 s pins
            (candidates-All (effective_retention cfg pkg.name) 0 _) u)

    sweep_packages-Lives :
        (pkgs : List Package) (total : ℕ) (s : State)
        → All (λ p. p.id ≡ t.package_id → IsPinnedIn t.name p) pkgs
        → Lives s
        → Lives (sweep_packages cfg env pkgs total s).0
    unfolding sweep_packages sweep_package
    sweep_packages-Lives [] total s pins u = u
    sweep_packages-Lives (pkg ∷ pkgs) total s pins u =
        if_both (λ (y : State × ℕ). Lives y.0) _ _ _ u
          (sweep_packages-Lives pkgs _ _ pins.1 (
            if_both (λ (y : State × ℕ). Lives y.0) _ _ _ u
              (apply_retention-Lives pkg _ s pins.0 u)))

    page-All :
        (P : Package → Type 0) (start_after : Text) (limit : ℕ) (db : Db)
        → All P db.packages
        → All P (list_oci_packages_for_retention start_after limit db)
    unfolding list_oci_packages_for_retention
    page-All P start_after limit db h =
        All-take P _ _ (All-filter P _ _ (order_by_name-All P db.packages h))

    sweep_pages-Lives :
        (fuel : ℕ) (start_after : Text) (total : ℕ) (s : State)
        → Lives s
        → Lives (sweep_pages cfg env fuel start_after total s).0.0
    unfolding sweep_pages
    sweep_pages-Lives zero start_after total s u = u
    sweep_pages-Lives (suc fuel) start_after total s u =
        let swept = sweep_packages-Lives _ total s (page-All _ start_after _ s.db u.pinned) u in
        if_both (λ (y : (State × ℕ) × Bool). Lives y.0.0) _ _ _ u
          (if_both (λ (y : (State × ℕ) × Bool). Lives y.0.0) _ _ _ swept
            (sweep_pages-Lives fuel _ _ _ swept))

    pub retention_sweep-Lives : (s : State) → Lives s → Lives (retention_sweep cfg env s).0.0
    unfolding retention_sweep
    retention_sweep-Lives s u = sweep_pages-Lives (suc (length s.db.packages)) [] 0 s u
