-- ===== src/Delivery/Rows.antt =====
-- The invariant of the table delivery_queue, and what its statements do to one row
-- (internal/database/delivery.go).
use apoci.Prelude.{
  ℕ, suc, ◌+◌, ◌<◌, ◌≡◌, refl, ap, Bool, true, false, ◌||◌, Option, none, some, List, [], ◌∷◌, ◌++◌,
  Text, text_eq, text_eq_refl, text_eq_iff, arith, ◌==◌, length, length-append, ◌∙◌, any, All,
  All-append, All-map, if◌then◌else◌, Bool-cases, inl, inr,
}
use apoci.Delivery.{
  Delivery, DeliveryQueue, pending, same_key, new_row, update_rows, set_delivered, set_failed,
  enqueue_delivery_inserted, mark_delivered, mark_delivery_failed,
}

-- The row with an id.
unfoldable pub row_at : ℕ → List Delivery → Option Delivery
row_at id [] = none
row_at id (d ∷ ds) = if d.id == id then some d else row_at id ds

abbrev pub on_row : (Delivery → Delivery) → Option Delivery → Option Delivery
on_row f none = none
on_row f (some d) = some (f d)

-- An UPDATE by id changes the row with that id and no other.
pub row_at-update_rows :
    (id j : ℕ) (f : Delivery → Delivery) (rows : List Delivery)
    → ((d : Delivery) → (f d).id ≡ d.id)
    → row_at j (update_rows id f rows)
      ≡ (if id == j then on_row f (row_at j rows) else row_at j rows)
unfolding row_at update_rows
row_at-update_rows id j f [] h = ground arith
row_at-update_rows id j f (d ∷ ds) h = ground (arith, h d, row_at-update_rows id j f ds h)

-- A row that is still to be tried has attempts left.
pub record IsAlive (d : Delivery) : Type 0 where
  pub attempts_left : d.status ≡ pending → d.attempts < d.max_attempts

abbrev pub KeysUnique : List Delivery → Type 0
KeysUnique [] = Unit
KeysUnique (d ∷ ds) = (any (same_key d.activity_id d.inbox_url) ds ≡ false) × KeysUnique ds

pub record IsValid (q : DeliveryQueue) : Type 0 where
  pub fresh : All (λ d. d.id < q.next_id) q.rows
  pub keys : KeysUnique q.rows
  pub alive : All IsAlive q.rows

text_eq_comm : (s t : Text) → text_eq s t ≡ text_eq t s
text_eq_comm s t = ground (arith, text_eq_iff s t, text_eq_iff t s)

any-append :
    (p : Delivery → Bool) (xs : List Delivery) (d : Delivery)
    → any p (xs ++ d ∷ []) ≡ any p xs || p d
any-append p [] d = ground arith
any-append p (x ∷ xs) d = ground (arith, any-append p xs d)

KeysUnique-append :
    (xs : List Delivery) (d : Delivery)
    → KeysUnique xs
    → any (same_key d.activity_id d.inbox_url) xs ≡ false
    → KeysUnique (xs ++ d ∷ [])
unfolding same_key
KeysUnique-append [] d u h = ground arith
KeysUnique-append (x ∷ xs) d u h =
    let p : Delivery → Bool = λ e. same_key x.activity_id x.inbox_url e in
    (
      ground (
        arith,
        any-append p xs d,
        text_eq_comm x.activity_id d.activity_id,
        text_eq_comm x.inbox_url d.inbox_url,
      ),
      KeysUnique-append xs d u.1 (ground arith),
    )

-- Enqueueing keeps a valid table valid: ids fresh, one row for each activity and inbox, and attempts
-- left on every pending row.
pub enqueue-IsValid :
    (now : ℕ) (activity_id inbox_url activity_json : Text) (q : DeliveryQueue)
    → IsValid q
    → IsValid (enqueue_delivery_inserted now activity_id inbox_url activity_json q).0
unfolding enqueue_delivery_inserted
enqueue-IsValid now a i json q v = elim (Bool-cases (any (same_key a i) q.rows)) [
  | inl there ↦ rw there v
  | inr absent ↦ rw absent (record {
    fresh =
        All-append (λ d. d.id < q.next_id + 1) q.rows (new_row now q.next_id a i json ∷ [])
          (All-map (λ d. d.id < q.next_id) (λ d. d.id < q.next_id + 1) (λ d h. omega arith) q.rows
            v.fresh)
          (omega arith, tt);
    keys = KeysUnique-append q.rows (new_row now q.next_id a i json) v.keys absent;
    alive =
        All-append IsAlive q.rows (new_row now q.next_id a i json ∷ []) v.alive
          (record { attempts_left = λ _. omega arith }, tt);
  })
]

enqueued-any :
    (now : ℕ) (a i json : Text) (q : DeliveryQueue)
    → any (same_key a i) (enqueue_delivery_inserted now a i json q).0.rows ≡ true
unfolding enqueue_delivery_inserted
enqueued-any now a i json q = ground (
  arith,
  any-append (same_key a i) q.rows (new_row now q.next_id a i json),
  text_eq_refl a,
  text_eq_refl i,
)

enqueue_known :
    (now : ℕ) (a i json : Text) (q : DeliveryQueue)
    → any (same_key a i) q.rows ≡ true
    → enqueue_delivery_inserted now a i json q ≡ (q, false)
unfolding enqueue_delivery_inserted
enqueue_known now a i json q h = rw h

-- A second enqueue of the same activity to the same inbox reports no insertion and changes nothing,
-- whatever its instant and its body; the first one reports an insertion exactly when it adds a row.
pub enqueue_idempotent :
    (now later : ℕ) (activity_id inbox_url json json' : Text) (q : DeliveryQueue)
    → let (q', inserted) = enqueue_delivery_inserted now activity_id inbox_url json q in
      (enqueue_delivery_inserted later activity_id inbox_url json' q' ≡ (q', false))
      × (length q'.rows ≡ (if inserted then suc (length q.rows) else length q.rows))
unfolding enqueue_delivery_inserted
enqueue_idempotent now later a i json json' q = (
  enqueue_known later a i json' _ (enqueued-any now a i json q),
  ground (arith, length-append q.rows (new_row now q.next_id a i json ∷ [])),
)

-- `d` is what the table holds under its id.
abbrev pub IsCurrent : Delivery → List Delivery → Type 0
IsCurrent d = All (λ r. r.id ≡ d.id → r ≡ d)

module _ (id : ℕ) (f : Delivery → Delivery) where
  update_rows-All :
      (P : Delivery → Type 0) (rows : List Delivery)
      → All P rows
      → All (λ r. r.id ≡ id → P (f r)) rows
      → All P (update_rows id f rows)
  unfolding update_rows
  update_rows-All P [] h k = tt
  update_rows-All P (d ∷ ds) h k = elim (Bool-cases (d.id == id)) [
    | inl e ↦ rw e (k.0 (ground arith), update_rows-All P ds h.1 k.1)
    | inr e ↦ rw e (h.0, update_rows-All P ds h.1 k.1)
  ]

  KeepsKey : Type 0
  KeepsKey =
      (d : Delivery)
      → ((f d).activity_id ≡ d.activity_id) × ((f d).inbox_url ≡ d.inbox_url) × ((f d).id ≡ d.id)

  any-update_rows :
      (a i : Text) (rows : List Delivery)
      → KeepsKey
      → any (same_key a i) (update_rows id f rows) ≡ any (same_key a i) rows
  unfolding update_rows same_key KeepsKey
  any-update_rows a i [] k = refl
  any-update_rows a i (d ∷ ds) k = ground (arith, k d, any-update_rows a i ds k)

  KeysUnique-update_rows :
      (rows : List Delivery) → KeepsKey → KeysUnique rows → KeysUnique (update_rows id f rows)
  unfolding update_rows KeepsKey
  KeysUnique-update_rows [] k u = tt
  KeysUnique-update_rows (d ∷ ds) k u = elim (Bool-cases (d.id == id)) [
    | inl e ↦
        rw (e, (k d).0, (k d).1)
          (any-update_rows d.activity_id d.inbox_url ds k ∙ u.0, KeysUnique-update_rows ds k u.1)
    | inr e ↦
        rw e (any-update_rows d.activity_id d.inbox_url ds k ∙ u.0, KeysUnique-update_rows ds k u.1)
  ]

set_failed-IsAlive :
    (now : ℕ) (message : Text) (d r : Delivery)
    → r ≡ d
    → IsAlive (set_failed now d.attempts d.max_attempts message r)
set_failed-IsAlive now message d r e = record {
  attempts_left = λ h.
      ground (arith, ap (λ (x : Delivery). x.attempts) e, ap (λ (x : Delivery). x.max_attempts) e);
}

-- Both outcomes of a delivery, recorded with what the table holds of it, keep a valid table valid:
-- ids fresh, one row for each activity and inbox, and attempts left on every pending row.
pub mark-IsValid :
    (now : ℕ) (message : Text) (d : Delivery) (q : DeliveryQueue)
    → IsValid q
    → IsCurrent d q.rows
    → IsValid (mark_delivered d.id q)
      × IsValid (mark_delivery_failed now d.id d.attempts d.max_attempts message q)
unfolding mark_delivered mark_delivery_failed KeepsKey
mark-IsValid now message d q v c = (
  record {
    fresh = update_rows-All d.id set_delivered Fresh q.rows v.fresh (kept q.rows v.fresh);
    keys = KeysUnique-update_rows d.id set_delivered q.rows (λ r. (refl, refl, refl)) v.keys;
    alive = update_rows-All d.id set_delivered IsAlive q.rows v.alive (
        All-map (λ r. r.id ≡ d.id → r ≡ d) (λ r. r.id ≡ d.id → IsAlive (set_delivered r))
          (λ r _ _. record { attempts_left = λ h. cc }) q.rows c);
  },
  record {
    fresh = update_rows-All d.id fail Fresh q.rows v.fresh (kept q.rows v.fresh);
    keys = KeysUnique-update_rows d.id fail q.rows (λ r. (refl, refl, refl)) v.keys;
    alive = update_rows-All d.id fail IsAlive q.rows v.alive (
        All-map (λ r. r.id ≡ d.id → r ≡ d) (λ r. r.id ≡ d.id → IsAlive (fail r))
          (λ r h e. set_failed-IsAlive now message d r (h e)) q.rows c);
  },
)
  where
    fail : Delivery → Delivery
    fail = set_failed now d.attempts d.max_attempts message

    Fresh : Delivery → Type 0
    Fresh r = r.id < q.next_id

    kept : (rows : List Delivery) → All Fresh rows → All (λ r. r.id ≡ d.id → Fresh r) rows
    kept rows = All-map Fresh (λ r. r.id ≡ d.id → Fresh r) (λ r h _. h) rows
