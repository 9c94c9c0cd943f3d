-- ===== src/Gc/Untagged.antt =====
-- What a cycle of the collector leaves of a manifest under a pinned tag, the pruning of untagged
-- manifests.
use mathlib.Core.List.{Memᴰ}
use mathlib.Core.Path.{subst}
use apoci.Prelude.{
  ℕ, zero, suc, text_eq_iff, Bool, true, false, Option, none, some, List, [], ◌∷◌, ◌≡◌, ◌≢◌, refl,
  sym, ap, ◌∙◌, arith, All, All-take, All-if, length, ltb, any, filter, if_both,
}
use apoci.Prelude.Members.{Mem-any}
use apoci.Registry.{
  Db, Package, Version, Tag, File, points_at, is_deleted_row, record_deleted_manifest,
}
use apoci.Registry.Removal.{Mem-remove_where, All-remove_where}
use apoci.Registry.Retention.{
  UntaggedManifest, is_prunable, join_row, joined, untagged_manifests, is_among,
  prune_untagged_manifests,
}
use apoci.Gc.{GcConfig, Env, State, record_tombstone, owns_repo}
use apoci.Gc.Retention.{
  prune_once, untagged_limit, federate, federate_one, bury, prune_rounds, prune_untagged,
}
use apoci.Gc.Pinned.{IsLive, publish-Lives}

module _ (id : ℕ) where
  join_row-All :
      (w : Version) (found : Option Package) (rows : List UntaggedManifest)
      → w.id ≢ id
      → All (λ r. r.id ≢ id) rows
      → All (λ r. r.id ≢ id) (join_row w found rows)
  unfolding join_row
  join_row-All w none rows h k = k
  join_row-All w (some p) rows h k = (h, k)

  joined-All :
      (packages : List Package) (vs : List Version)
      → All (λ w. w.id ≢ id) vs
      → All (λ r. r.id ≢ id) (joined packages vs)
  unfolding joined
  joined-All packages [] h = tt
  joined-All packages (w ∷ vs) h = join_row-All w _ _ h.0 (joined-All packages vs h.1)

  is_among-false :
      (rows : List UntaggedManifest) → All (λ r. r.id ≢ id) rows → is_among rows id ≡ false
  unfolding is_among
  is_among-false [] h = refl
  is_among-false (r ∷ rows) h = ground (arith, is_among-false rows h.1, h.0)

-- The tag points at the manifest, and the file is one of the blobs that it names.
pub record IsChain (t : Tag) (v : Version) (f : File) : Type 0 where
  pub tagged : t.version ≡ v.version
  pub placed : t.package_id ≡ v.package_id
  pub named : f.version_id ≡ v.id

module _ (cfg : GcConfig) (env : Env) (t : Tag) (v : Version) (f : File)
    (chain : IsChain t v f) where
  abbrev Lives : State → Type 0
  Lives s = IsLive cfg env t v f s.db.packages s.db.versions s.db.tags s.db.files s.db.blobs s.disk

  kept_by_prune : (age : ℕ) (db : Db) → Memᴰ t db.tags → is_prunable env.now age db v ≡ false
  unfolding is_prunable
  kept_by_prune age db m =
      let points : points_at v.package_id v.version t ≡ true =
        ground (arith, chain.placed, (text_eq_iff t.version v.version).1 chain.tagged) in
      let tagged = Mem-any (points_at v.package_id v.version) t db.tags points m in ground arith

  prunable-All :
      (age : ℕ) (db : Db) (vs : List Version)
      → Memᴰ t db.tags
      → All (λ w. w.id ≡ v.id → w ≡ v) vs
      → All (λ w. w.id ≢ v.id) (filter (is_prunable env.now age db) vs)
  prunable-All age db [] m h = tt
  prunable-All age db (w ∷ vs) m h =
      All-if (λ (w : Version). w.id ≢ v.id) (is_prunable env.now age db w) w _
        (λ e same.
          let kept =
            subst (λ x. is_prunable env.now age db x ≡ false) (sym (h.0 same))
              (kept_by_prune age db m) in
          ground arith)
        (prunable-All age db vs m h.1)

  spared :
      (age limit : ℕ) (s : State)
      → Lives s
      → is_among (untagged_manifests env.now age limit s.db) v.id ≡ false
  unfolding untagged_manifests
  spared age limit s u = is_among-false v.id _ (
      All-take (λ (r : UntaggedManifest). r.id ≢ v.id) _ _
        (joined-All v.id s.db.packages _ (prunable-All age s.db s.db.versions u.tag u.alone)))

  pruned-Lives :
      (age limit : ℕ) (s : State)
      → Lives s
      → Lives (record s { db = (prune_untagged_manifests env.now age limit s.db).0 })
  unfolding prune_untagged_manifests
  pruned-Lives age limit s u =
      let spared_id = spared age limit s u in
      record {
        pinned = u.pinned;
        tag = u.tag;
        version = Mem-remove_where (λ w. is_among _ w.id) v s.db.versions spared_id u.version;
        alone = All-remove_where (λ w. w.id ≡ v.id → w ≡ v) _ s.db.versions u.alone;
        file =
            Mem-remove_where (λ x. is_among _ x.version_id) f s.db.files
              (ap (is_among (untagged_manifests env.now age limit s.db)) chain.named ∙ spared_id)
              u.file;
        row = u.row;
        stored = u.stored;
      }

  bury-Lives : (r : UntaggedManifest) (s : State) → Lives s → Lives (bury cfg env r s)
  unfolding bury record_deleted_manifest
  bury-Lives r s u = if_both Lives (env.fails (record_tombstone r.package_name r.digest)) _ _ u (
      if_both (λ (d : Db). IsLive cfg env t v f d.packages d.versions d.tags d.files d.blobs s.disk)
        (any (is_deleted_row r.package_name r.digest) s.db.deleted) _ _ u u)

  federate_one-Lives :
      (r : UntaggedManifest) (s : State) → Lives s → Lives (federate_one cfg env r s)
  unfolding federate_one
  federate_one-Lives r s u =
      if_both Lives (owns_repo cfg r.owner_id) _ _
        (publish-Lives cfg env t v f _ _ _ (bury-Lives r s u)) u

  federate-Lives :
      (rows : List UntaggedManifest) (s : State) → Lives s → Lives (federate cfg env rows s)
  unfolding federate
  federate-Lives [] s u = u
  federate-Lives (r ∷ rows) s u = federate-Lives rows _ (federate_one-Lives r s u)

  prune_once-Lives : (s : State) → Lives s → Lives (prune_once cfg env s).0
  unfolding prune_once
  prune_once-Lives s u =
      let pruned =
        prune_untagged_manifests env.now cfg.untagged_manifest_age (untagged_limit cfg env) s.db in
      federate-Lives pruned.1 (record s { db = pruned.0 }) (pruned-Lives _ _ s u)

  prune_rounds-Lives : (fuel : ℕ) (s : State) → Lives s → Lives (prune_rounds cfg env fuel s).0
  unfolding prune_rounds
  prune_rounds-Lives zero s u = u
  prune_rounds-Lives (suc fuel) s u =
      let pruned = prune_once-Lives s u in
      if_both (λ (y : State × Bool). Lives y.0) _ _ _ u
        (if_both (λ (y : State × Bool). Lives y.0) _ _ _ pruned (prune_rounds-Lives fuel _ pruned))

  pub prune_untagged-Lives : (s : State) → Lives s → Lives (prune_untagged cfg env s).0
  unfolding prune_untagged
  prune_untagged-Lives s u =
      if_both (λ (y : State × Bool). Lives y.0) (ltb 0 cfg.untagged_manifest_age) _ _
        (prune_rounds-Lives (suc (length s.db.versions)) s u) u
