-- ===== src/Gc/Ends.antt =====
-- The loops of internal/peering/gc.go end within the rounds that they are given.
use apoci.Prelude.{
  ℕ, zero, suc, ◌+◌, ◌≤◌, ◌<◌, Text, text_eq, text_eq_refl, Bool, true, false, ◌||◌, Option, none,
  some, List, [], ◌∷◌, ◌≡◌, refl, ap, ◌∙◌, ◌⊎◌, inl, inr, arith, All, All-take, length, ltb, ◌==◌,
  any, if_both, if_when, if◌then◌else◌,
}
use apoci.Prelude.Members.{any_mono, All-self, All-filter}
use apoci.Registry.{
  Db, Version, Package, Blob, remove_where, record_deleted_manifest, is_deleted_row,
}
use apoci.Registry.Removal.{remove_where-lt, has_key, delete-le, delete-lt}
use apoci.Registry.Retention.{
  UntaggedManifest, digests_of, orphaned_blobs, delete_blob, join_row, joined, untagged_manifests,
  is_among, prune_untagged_manifests,
}
use apoci.Gc.{
  GcConfig, Env, State, Published, orphan_batch, delete_row, prune_batch, owns_repo,
  record_tombstone,
}
use apoci.Gc.Retention.{
  publish, bury, federate_one, federate, untagged_limit, prune_once, prune_rounds,
}
use apoci.Gc.Orphans.{delete_rows, orphan_limit, orphans_of, orphan_rounds}

digests_of-All :
    (P : Text → Type 0) (blobs : List (Text × Blob))
    → All (λ e. P e.0) blobs
    → All P (digests_of blobs)
unfolding digests_of
digests_of-All P [] h = tt
digests_of-All P ((d, b) ∷ blobs) h = (h.0, digests_of-All P blobs h.1)

module _ (cfg : GcConfig) (env : Env) where
  without : Text → State → State
  without digest s = record s { db = delete_blob digest s.db }

  le_next :
      (digest : Text) (digests : List Text) (removed : ℕ) (s : State) (failed : Bool)
      → ((n : ℕ) (r : State)
          → length (delete_rows cfg env digests n r).0.db.blobs ≤ length r.db.blobs)
      → length
          (delete_rows cfg env digests
            (if failed then removed else removed + 1)
            (if failed then s else without digest s)).0.db.blobs
        ≤ length s.db.blobs
  unfolding without delete_blob
  le_next digest digests removed s true h = h removed s
  le_next digest digests removed s false h =
      omega (arith, h (removed + 1) (without digest s), delete-le digest s.db.blobs)

  delete_rows-le :
      (digests : List Text) (removed : ℕ) (s : State)
      → length (delete_rows cfg env digests removed s).0.db.blobs ≤ length s.db.blobs
  unfolding delete_rows without
  delete_rows-le [] removed s = omega arith
  delete_rows-le (digest ∷ digests) removed s =
      le_next digest digests removed s (env.fails (delete_row digest)) (delete_rows-le digests)

  -- A batch of rows that are there either removes none or leaves fewer.
  abbrev Progress : ℕ → State → State × ℕ → Type 0
  Progress removed s y = (y.1 ≡ removed) ⊎ (length y.0.db.blobs < length s.db.blobs)

  Progress-next :
      (digest : Text) (digests : List Text) (removed : ℕ) (s : State) (failed : Bool)
      → has_key digest s.db.blobs ≡ true
      → Progress removed s (delete_rows cfg env digests removed s)
      → Progress removed s (
          delete_rows cfg env digests
            (if failed then removed else removed + 1)
            (if failed then s else without digest s))
  unfolding without delete_blob
  Progress-next digest digests removed s true there h = h
  Progress-next digest digests removed s false there h = inr (
      omega (
        arith,
        delete_rows-le digests (removed + 1) (without digest s),
        delete-lt digest s.db.blobs there,
      ))

  delete_rows-Progress :
      (digests : List Text) (removed : ℕ) (s : State)
      → All (λ d. has_key d s.db.blobs ≡ true) digests
      → Progress removed s (delete_rows cfg env digests removed s)
  unfolding delete_rows without
  delete_rows-Progress [] removed s h = inl refl
  delete_rows-Progress (digest ∷ digests) removed s h =
      Progress-next digest digests removed s (env.fails (delete_row digest)) h.0
        (delete_rows-Progress digests removed s h.1)

  orphans-All : (s : State) → All (λ d. has_key d s.db.blobs ≡ true) (orphans_of cfg env s)
  unfolding orphans_of orphaned_blobs
  orphans-All s =
      digests_of-All (λ d. has_key d s.db.blobs ≡ true) _
        (All-take (λ (e : Text × Blob). has_key e.0 s.db.blobs ≡ true) _ _
          (All-filter (λ (e : Text × Blob). has_key e.0 s.db.blobs ≡ true) _ s.db.blobs
            (All-self (λ e f. text_eq f.0 e.0) s.db.blobs (λ e. text_eq_refl e.0))))

  pub orphan_rounds-ended :
      (fuel : ℕ) (s : State) → length s.db.blobs < fuel → (orphan_rounds cfg env fuel s).1 ≡ true
  unfolding orphan_rounds
  orphan_rounds-ended zero s h = absurd (ground arith)
  orphan_rounds-ended (suc fuel) s h =
      let batch = delete_rows cfg env (orphans_of cfg env s) 0 s in
      let ended = λ (y : State × Bool). y.1 ≡ true in
      if_both ended (env.fails (orphan_batch fuel)) _ _ refl (
        if_when ended ((batch.1 == 0) || ltb (length (orphans_of cfg env s)) (orphan_limit cfg env))
          _ _ (λ e. refl)
          (λ e.
            orphan_rounds-ended fuel batch.0
              (elim (delete_rows-Progress (orphans_of cfg env s) 0 s (orphans-All s)) [
                | inl stuck ↦ ground arith
                | inr fewer ↦ omega arith
              ])))

-- A batch of manifests.
module _ (versions : List Version) where
  abbrev InTable : UntaggedManifest → Type 0
  InTable r = any (λ (v : Version). v.id == r.id) versions ≡ true

  join_row-All :
      (w : Version) (found : Option Package) (rows : List UntaggedManifest)
      → any (λ (v : Version). v.id == w.id) versions ≡ true
      → All InTable rows
      → All InTable (join_row w found rows)
  unfolding join_row
  join_row-All w none rows h k = k
  join_row-All w (some p) rows h k = (h, k)

  joined-All :
      (packages : List Package) (vs : List Version)
      → All (λ w. any (λ (v : Version). v.id == w.id) versions ≡ true) vs
      → All InTable (joined packages vs)
  unfolding joined
  joined-All packages [] h = tt
  joined-All packages (w ∷ vs) h = join_row-All w _ _ h.0 (joined-All packages vs h.1)

  among_head :
      (r : UntaggedManifest) (rows : List UntaggedManifest) (v : Version)
      → v.id == r.id ≡ true
      → is_among (r ∷ rows) v.id ≡ true
  unfolding is_among
  among_head r rows v h = ground arith

  rows_shrink :
      (rows : List UntaggedManifest)
      → All InTable rows
      → 1 ≤ length rows
      → length (remove_where (λ (v : Version). is_among rows v.id) versions) < length versions
  rows_shrink [] h k = absurd (ground arith)
  rows_shrink (r ∷ rows) h k =
      remove_where-lt (λ (v : Version). is_among (r ∷ rows) v.id) versions
        (any_mono (λ (v : Version). v.id == r.id) (λ (v : Version). is_among (r ∷ rows) v.id)
          versions (among_head r rows) h.0)

module _ (cfg : GcConfig) (env : Env) where
  publish-versions :
      (b : Bool) (p : Published) (s : State) → (publish cfg env b p s).db.versions ≡ s.db.versions
  unfolding publish
  publish-versions true p s = refl
  publish-versions false p s = refl

  bury-versions :
      (r : UntaggedManifest) (s : State) → (bury cfg env r s).db.versions ≡ s.db.versions
  unfolding bury record_deleted_manifest
  bury-versions r s =
      if_both (λ (x : State). x.db.versions ≡ s.db.versions)
        (env.fails (record_tombstone r.package_name r.digest)) _ _ refl
        (if_both (λ (d : Db). d.versions ≡ s.db.versions)
          (any (is_deleted_row r.package_name r.digest) s.db.deleted) _ _ refl refl)

  federate-versions :
      (rows : List UntaggedManifest) (s : State)
      → (federate cfg env rows s).db.versions ≡ s.db.versions
  unfolding federate federate_one
  federate-versions [] s = refl
  federate-versions (r ∷ rows) s =
      federate-versions rows _
      ∙ if_both (λ (x : State). x.db.versions ≡ s.db.versions) (owns_repo cfg r.owner_id) _ _
          (publish-versions _ _ (bury cfg env r s) ∙ bury-versions r s) refl

  untagged-All :
      (s : State) (age limit : ℕ)
      → All (InTable s.db.versions) (untagged_manifests env.now age limit s.db)
  unfolding untagged_manifests
  untagged-All s age limit = All-take (InTable s.db.versions) _ _ (
      joined-All s.db.versions s.db.packages _ (
        All-filter (λ (w : Version). any (λ (v : Version). v.id == w.id) s.db.versions ≡ true) _
          s.db.versions
          (All-self (λ (w v : Version). v.id == w.id) s.db.versions (λ w. ground arith))))

  pruned-fewer :
      (s : State)
      → 1 ≤ (prune_once cfg env s).1
      → length (prune_once cfg env s).0.db.versions < length s.db.versions
  unfolding prune_once prune_untagged_manifests
  pruned-fewer s h =
      let age = cfg.untagged_manifest_age in
      let limit = untagged_limit cfg env in
      let rows = untagged_manifests env.now age limit s.db in
      omega (
        arith,
        ap length (federate-versions rows _),
        rows_shrink s.db.versions rows (untagged-All s age limit) h,
      )

  pub prune_rounds-ended :
      (fuel : ℕ) (s : State) → length s.db.versions < fuel → (prune_rounds cfg env fuel s).1 ≡ true
  unfolding prune_rounds
  prune_rounds-ended zero s h = absurd (ground arith)
  prune_rounds-ended (suc fuel) s h =
      let batch = prune_once cfg env s in
      let ended = λ (y : State × Bool). y.1 ≡ true in
      if_both ended (env.fails (prune_batch fuel)) _ _ refl (
        if_when ended (ltb batch.1 (untagged_limit cfg env)) _ _ (λ e. refl)
          (λ e.
            let fewer = pruned-fewer s (unfold untagged_limit in ground arith) in
            prune_rounds-ended fuel batch.0 (omega arith)))
