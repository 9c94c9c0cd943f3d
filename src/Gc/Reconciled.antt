-- ===== src/Gc/Reconciled.antt =====
-- What reconcileBlobStorageDrift of internal/peering/gc.go does page by page: it reaches its last page.
use apoci.Prelude.{
  ℕ, zero, suc, ◌≤◌, ◌<◌, Text, text_eq, text_eq_refl, text_ltb, Bool, true, false, ◌||◌, Option,
  none, some, List, [], ◌∷◌, ◌≡◌, refl, ◌∙◌, arith, All, All-cons, All-take, length, ltb, any,
  filter, if_both, if_when,
}
use apoci.Prelude.Maps.{Map}
use apoci.Prelude.Members.{All-self}
use apoci.Prelude.Order.{IsPast, next_page_fewer}
use apoci.Registry.{Db, Blob}
use apoci.Registry.Blobs.{has_peer_blob}
use apoci.Registry.Retention.{set_blob_stored_locally, mark_stored}
use apoci.Gc.{GcConfig, Env, State, reconcile_page, set_stored, has_peer}
use apoci.Gc.Paging.{filter-le-length, All-where}
use apoci.Gc.Drift.{
  BlobReconcileRow, rows_of, insert_by_digest, order_by_digest, list_blobs_for_reconcile,
  reconcile_blob_batch_size, is_true, set_stored_to, degrade, reconcile_with, reconcile_rows,
  last_digest, reconcile_pages, reconcile_blob_storage_drift,
}

mark_stored-filter :
    (q : Text → Bool) (digest : Text) (stored : Bool) (m : Map Blob)
    → length (filter (λ e. q e.0) (mark_stored digest stored m)) ≡ length (filter (λ e. q e.0) m)
unfolding mark_stored
mark_stored-filter q digest stored [] = refl
mark_stored-filter q digest stored ((d, b) ∷ m) =
    ground (arith, mark_stored-filter q digest stored m)

insert-All :
    (P : BlobReconcileRow → Type 0) (r : BlobReconcileRow) (rs : List BlobReconcileRow)
    → P r
    → All P rs
    → All P (insert_by_digest r rs)
unfolding insert_by_digest
insert-All P r [] h k = (h, tt)
insert-All P r (q ∷ qs) h k =
    if_both (All P) (text_ltb q.digest r.digest) _ _
      (All-cons P q (insert_by_digest r qs) k.0 (insert-All P r qs h k.1))
      (All-cons P r (q ∷ qs) h k)

order-All :
    (P : BlobReconcileRow → Type 0) (rs : List BlobReconcileRow)
    → All P rs
    → All P (order_by_digest rs)
unfolding order_by_digest
order-All P [] h = tt
order-All P (r ∷ rs) h = insert-All P r _ h.0 (order-All P rs h.1)

rows_of-All :
    (P : Text → Type 0) (m : List (Text × Blob))
    → All (λ e. P e.0) m
    → All (λ r. P r.digest) (rows_of m)
unfolding rows_of
rows_of-All P [] h = tt
rows_of-All P ((d, b) ∷ m) h = (h.0, rows_of-All P m h.1)

abbrev digest_of : Text × Blob → Text
digest_of e = e.0

page-IsPast :
    (start_after : Text) (limit : ℕ) (db : Db)
    → All
        (λ r. IsPast digest_of start_after db.blobs r.digest)
        (list_blobs_for_reconcile start_after limit db)
unfolding list_blobs_for_reconcile
page-IsPast start_after limit db =
    let there = λ (d : Text). any (λ (e : Text × Blob). text_eq e.0 d) db.blobs ≡ true in
    All-take (λ (r : BlobReconcileRow). IsPast digest_of start_after db.blobs r.digest) _ _
      (All-where (λ r. text_ltb start_after r.digest) (λ r. there r.digest) _
        (order-All (λ r. there r.digest) _
          (rows_of-All there db.blobs
            (All-self (λ (e f : Text × Blob). text_eq f.0 e.0) db.blobs (λ e. text_eq_refl e.0)))))

last_digest-at :
    (cfg : GcConfig) (env : Env) (P : Text → Type 0) (d : Text) (rs : List BlobReconcileRow)
    → All (λ r. P r.digest) rs
    → 1 ≤ length rs
    → P (last_digest cfg env d rs)
unfolding last_digest
last_digest-at cfg env P d [] h k = absurd (ground arith)
last_digest-at cfg env P d (r ∷ []) h k = h.0
last_digest-at cfg env P d (r ∷ q ∷ rs) h k =
    last_digest-at cfg env P r.digest (q ∷ rs) h.1 (omega arith)

module _ (cfg : GcConfig) (env : Env) where
  -- The blobs past a cursor.
  abbrev past : Text → State → ℕ
  past start_after s = length (filter (λ e. text_ltb start_after (digest_of e)) s.db.blobs)

  set_stored_to-past :
      (start_after digest : Text) (stored : Bool) (s : State)
      → past start_after (set_stored_to cfg env digest stored s) ≡ past start_after s
  unfolding set_stored_to set_blob_stored_locally
  set_stored_to-past start_after digest stored s =
      if_both (λ (x : State). past start_after x ≡ past start_after s)
        (env.fails (set_stored digest)) _ _ refl
        (mark_stored-filter (text_ltb start_after) digest stored s.db.blobs)

  reconcile_with-past :
      (start_after : Text) (row : BlobReconcileRow) (found : Option Bool) (s : State)
      → past start_after (reconcile_with cfg env row found s).0 ≡ past start_after s
  unfolding reconcile_with degrade
  reconcile_with-past start_after row none s = refl
  reconcile_with-past start_after row (some true) s =
      if_both (λ (x : State × List Text). past start_after x.0 ≡ past start_after s)
        row.stored_locally _ _ refl (set_stored_to-past start_after row.digest true s)
  reconcile_with-past start_after row (some false) s =
      let same = λ (x : State × List Text). past start_after x.0 ≡ past start_after s in
      if_both same row.stored_locally _ _
        (if_both same (is_true (env.recheck row.digest) || env.fails (has_peer row.digest)) _ _ refl
          (if_both same (has_peer_blob row.digest s.db) _ _
            (set_stored_to-past start_after row.digest false s) refl))
        refl

  reconcile_rows-past :
      (start_after : Text) (rows : List BlobReconcileRow) (lost : List Text) (s : State)
      → past start_after (reconcile_rows cfg env rows lost s).0 ≡ past start_after s
  unfolding reconcile_rows
  reconcile_rows-past start_after [] lost s = refl
  reconcile_rows-past start_after (row ∷ rows) lost s =
      reconcile_rows-past start_after rows _ _
      ∙ reconcile_with-past start_after row (env.exists row.digest) s

  reconcile_pages-ended :
      (fuel : ℕ) (start_after : Text) (lost : List Text) (s : State)
      → past start_after s < fuel
      → (reconcile_pages cfg env fuel start_after lost s).1 ≡ true
  unfolding reconcile_pages
  reconcile_pages-ended zero start_after lost s h = absurd (ground arith)
  reconcile_pages-ended (suc fuel) start_after lost s h =
      let rows = list_blobs_for_reconcile start_after reconcile_blob_batch_size s.db in
      let done = reconcile_rows cfg env rows lost s in
      let ended = λ (y : (State × List Text) × Bool). y.1 ≡ true in
      let cursor = last_digest cfg env start_after rows in
      if_both ended (env.fails (reconcile_page fuel)) _ _ refl (
        if_when ended (ltb (length rows) reconcile_blob_batch_size) _ _ (λ e. refl)
          (λ e.
            let fewer = next_page_fewer digest_of start_after s.db.blobs cursor (
              last_digest-at cfg env (IsPast digest_of start_after s.db.blobs) start_after rows
                (page-IsPast start_after reconcile_blob_batch_size s.db) (ground arith)) in
            let same = reconcile_rows-past cursor rows lost s in
            reconcile_pages-ended fuel cursor done.1 done.0 (omega arith)))

  pub reconcile-ended : (s : State) → (reconcile_blob_storage_drift cfg env s).1 ≡ true
  unfolding reconcile_blob_storage_drift
  reconcile-ended s =
      reconcile_pages-ended (suc (length s.db.blobs)) [] [] s
        (omega (arith, filter-le-length (λ e. text_ltb [] (digest_of e)) s.db.blobs))
