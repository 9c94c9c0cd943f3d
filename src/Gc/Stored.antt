-- ===== src/Gc/Stored.antt =====
-- When reconcileBlobStorageDrift of internal/peering/gc.go takes a blob's row for one whose file is
-- gone.
use apoci.Prelude.{
  ℕ, zero, suc, Text, text_eq, text_eq_iff, Bool, true, false, ◌||◌, Option, none, some, List, [],
  ◌∷◌, ◌≡◌, ◌≢◌, refl, ap, ◌∙◌, ◌⊎◌, inl, inr, arith, length, ltb, Bool-cases, if_both, if_when,
  if◌then◌else◌,
}
use apoci.Prelude.Maps
use apoci.Prelude.Maps.{Map}
use apoci.Registry.{Blob}
use apoci.Registry.Blobs.{has_peer_blob}
use apoci.Registry.Retention.{set_blob_stored_locally, mark_stored}
use apoci.Gc.{GcConfig, Env, State, reconcile_page, set_stored, has_peer}
use apoci.Gc.Drift.{
  BlobReconcileRow, list_blobs_for_reconcile, reconcile_blob_batch_size, is_true, set_stored_to,
  degrade, reconcile_with, reconcile_rows, reconcile_pages, reconcile_blob_storage_drift,
}

-- Whether the row of a blob is marked as stored.
abbrev pub is_stored : Text → Map Blob → Bool
is_stored digest blobs = elim (Maps.get digest blobs) [ none ↦ false | some b ↦ b.stored_locally ]

marked_row :
    (chosen stored : Bool) (b : Blob)
    → b.stored_locally ≡ true
    → (stored ≡ true) ⊎ (chosen ≡ false)
    → (if chosen then record b { stored_locally = stored } else b).stored_locally ≡ true
marked_row true stored b h (inl set) = set
marked_row true stored b h (inr no_choice) = absurd (ground arith)
marked_row false stored b h why = h

-- A row that is marked stays so when another is unmarked, or any is marked.
mark_stored-keeps :
    (digest : Text) (stored : Bool) (d : Text) (m : Map Blob)
    → (stored ≡ true) ⊎ (text_eq d digest ≡ false)
    → is_stored d m ≡ true
    → is_stored d (mark_stored digest stored m) ≡ true
unfolding mark_stored Maps.get
mark_stored-keeps digest stored d [] why h = h
mark_stored-keeps digest stored d ((k, b) ∷ m) why h = elim (Bool-cases (text_eq k d)) [
  | inr other ↦
      let rest = rw (is_stored, other) at h in
      rw (is_stored, other) (mark_stored-keeps digest stored d m why rest)
  | inl same ↦
      let stored_before : b.stored_locally ≡ true = rw (is_stored, same) at h in
      rw (is_stored, same)
        (marked_row (text_eq k digest) stored b stored_before (elim why [
          | inl set ↦ inl set
          | inr differs ↦ inr (ap (λ x. text_eq x digest) ((text_eq_iff k d).0 same) ∙ differs)
        ]))
]

module _ (cfg : GcConfig) (env : Env) (d : Text) where
  -- A look found the file, or a look failed at first, or no peer holds the blob.
  abbrev pub IsHeldBack : State → Type 0
  IsHeldBack s =
      (env.exists d ≢ some false)
      ⊎ (is_true (env.recheck d) ≡ true)
      ⊎ (has_peer_blob d s.db ≡ false)

  record IsMarked (peers : Bool) (s : State) : Type 0 where
    stored : is_stored d s.db.blobs ≡ true
    peers_same : has_peer_blob d s.db ≡ peers

  module _ (peers : Bool)
      (why : (env.exists d ≢ some false) ⊎ (is_true (env.recheck d) ≡ true) ⊎ (peers ≡ false)) where
    set_stored_to-IsMarked :
        (digest : Text) (stored : Bool) (s : State)
        → (stored ≡ true) ⊎ (text_eq d digest ≡ false)
        → IsMarked peers s
        → IsMarked peers (set_stored_to cfg env digest stored s)
    unfolding set_stored_to set_blob_stored_locally has_peer_blob
    set_stored_to-IsMarked digest stored s free u =
        if_both (IsMarked peers) (env.fails (set_stored digest)) _ _ u (record {
          stored = mark_stored-keeps digest stored d s.db.blobs free u.stored;
          peers_same = u.peers_same;
        })

    another :
        (digest : Text) (s : State)
        → env.exists digest ≡ some false
        → is_true (env.recheck digest) ≡ false
        → has_peer_blob digest s.db ≡ true
        → IsMarked peers s
        → text_eq d digest ≡ false
    another digest s missed again held u = elim (Bool-cases (text_eq d digest)) [
      | inr other ↦ other
      | inl same ↦
          let is = (text_eq_iff d digest).0 same in
          absurd (elim why [
            | inl found ↦ found (ap env.exists is ∙ missed)
            | inr (inl found) ↦ let e = ap (λ x. is_true (env.recheck x)) is in ground arith
            | inr (inr lone) ↦
                let e = ap (λ x. has_peer_blob x s.db) is in let p = u.peers_same in ground arith
          ])
    ]

    degrade-IsMarked :
        (digest : Text) (s : State)
        → env.exists digest ≡ some false
        → IsMarked peers s
        → IsMarked peers (degrade cfg env digest s).0
    unfolding degrade
    degrade-IsMarked digest s missed u =
        let marked = λ (x : State × List Text). IsMarked peers x.0 in
        if_when marked (is_true (env.recheck digest) || env.fails (has_peer digest)) _ _ (λ e. u)
          (λ again.
            if_when marked (has_peer_blob digest s.db) _ _
              (λ held.
                set_stored_to-IsMarked digest false s
                  (inr (another digest s missed (ground arith) held u)) u)
              (λ e. u))

    reconcile_with-IsMarked :
        (row : BlobReconcileRow) (found : Option Bool) (s : State)
        → env.exists row.digest ≡ found
        → IsMarked peers s
        → IsMarked peers (reconcile_with cfg env row found s).0
    unfolding reconcile_with
    reconcile_with-IsMarked row none s e u = u
    reconcile_with-IsMarked row (some true) s e u =
        if_both (λ (x : State × List Text). IsMarked peers x.0) row.stored_locally _ _ u
          (set_stored_to-IsMarked row.digest true s (inl refl) u)
    reconcile_with-IsMarked row (some false) s e u =
        if_both (λ (x : State × List Text). IsMarked peers x.0) row.stored_locally _ _
          (degrade-IsMarked row.digest s e u) u

    reconcile_rows-IsMarked :
        (rows : List BlobReconcileRow) (lost : List Text) (s : State)
        → IsMarked peers s
        → IsMarked peers (reconcile_rows cfg env rows lost s).0
    unfolding reconcile_rows
    reconcile_rows-IsMarked [] lost s u = u
    reconcile_rows-IsMarked (row ∷ rows) lost s u =
        reconcile_rows-IsMarked rows _ _
          (reconcile_with-IsMarked row (env.exists row.digest) s refl u)

    reconcile_pages-IsMarked :
        (fuel : ℕ) (start_after : Text) (lost : List Text) (s : State)
        → IsMarked peers s
        → IsMarked peers (reconcile_pages cfg env fuel start_after lost s).0.0
    unfolding reconcile_pages
    reconcile_pages-IsMarked zero start_after lost s u = u
    reconcile_pages-IsMarked (suc fuel) start_after lost s u =
        let rows = list_blobs_for_reconcile start_after reconcile_blob_batch_size s.db in
        let marked = λ (x : (State × List Text) × Bool). IsMarked peers x.0.0 in
        let done = reconcile_rows-IsMarked rows lost s u in
        if_both marked (env.fails (reconcile_page fuel)) _ _ u (
          if_both marked (ltb (length rows) reconcile_blob_batch_size) _ _ done
            (reconcile_pages-IsMarked fuel _ _ _ done))

  -- The row of a blob stays marked as stored through reconcileBlobStorageDrift, unless the first look
  -- missed its file, the second look did not find it, and a peer holds the blob.
  pub reconcile-keeps_stored :
      (s : State)
      → IsHeldBack s
      → is_stored d s.db.blobs ≡ true
      → is_stored d (reconcile_blob_storage_drift cfg env s).0.0.db.blobs ≡ true
  unfolding reconcile_blob_storage_drift
  reconcile-keeps_stored s why h =
      (reconcile_pages-IsMarked (has_peer_blob d s.db) why (suc (length s.db.blobs)) [] [] s
        (record { stored = h; peers_same = refl })).stored
