-- ===== src/Registry/Removal.antt =====
-- What the deletion of rows leaves of a table.
use mathlib.Core.List.{Memᴰ}
use mathlib.Core.Path.{subst}
use apoci.Prelude.{
  ◌≤◌, Bool, true, false, List, [], ◌∷◌, ◌≡◌, arith, inl, inr, Bool-cases, All, length, filter, ◌+◌,
  any, Text, text_eq, ◌<◌,
}
use apoci.Prelude.Maps
use apoci.Prelude.Maps.{Map}
use apoci.Registry.{remove_where}

module _ {A : Type 0} where
  pub Mem-remove_where :
      (p : A → Bool) (x : A) (xs : List A) → p x ≡ false → Memᴰ x xs → Memᴰ x (remove_where p xs)
  unfolding remove_where
  Mem-remove_where p x [] h m = elim m [ ]
  Mem-remove_where p x (y ∷ xs) h (Memᴰ.head e) = rw (subst (λ z. p z ≡ false) e h) (Memᴰ.head e)
  Mem-remove_where p x (y ∷ xs) h (Memᴰ.tail m) =
      let rest = Mem-remove_where p x xs h m in
      elim (Bool-cases (p y)) [ inl k ↦ rw k rest | inr k ↦ rw k (Memᴰ.tail rest) ]

  pub All-remove_where :
      (P : A → Type 0) (p : A → Bool) (xs : List A) → All P xs → All P (remove_where p xs)
  unfolding remove_where
  All-remove_where P p [] h = tt
  All-remove_where P p (x ∷ xs) h =
      let rest = All-remove_where P p xs h.1 in
      elim (Bool-cases (p x)) [ inl k ↦ rw k rest | inr k ↦ rw k (h.0, rest) ]

  pub length-remove_where :
      (p : A → Bool) (xs : List A) → length xs ≡ length (remove_where p xs) + length (filter p xs)
  unfolding remove_where
  length-remove_where p [] = omega arith
  length-remove_where p (x ∷ xs) = ground (arith, length-remove_where p xs)

  pub filter-remove_where :
      (p q : A → Bool) (xs : List A) → length (filter q (remove_where p xs)) ≤ length (filter q xs)
  unfolding remove_where
  filter-remove_where p q [] = omega arith
  filter-remove_where p q (x ∷ xs) = ground (arith, filter-remove_where p q xs)

  pub remove_where-le : (p : A → Bool) (xs : List A) → length (remove_where p xs) ≤ length xs
  unfolding remove_where
  remove_where-le p [] = omega arith
  remove_where-le p (x ∷ xs) = ground (arith, remove_where-le p xs)

  pub remove_where-lt :
      (p : A → Bool) (xs : List A) → any p xs ≡ true → length (remove_where p xs) < length xs
  unfolding remove_where
  remove_where-lt p [] h = ground arith
  remove_where-lt p (x ∷ xs) h = ground (arith, remove_where-le p xs, remove_where-lt p xs)

module _ {V : Type 0} where
  abbrev pub has_key : Text → Map V → Bool
  has_key k m = any (λ e. text_eq e.0 k) m

  pub delete-le : (k : Text) (m : Map V) → length (Maps.delete k m) ≤ length m
  unfolding Maps.delete
  delete-le k [] = omega arith
  delete-le k ((j, v) ∷ m) = ground (arith, delete-le k m)

  pub delete-lt : (k : Text) (m : Map V) → has_key k m ≡ true → length (Maps.delete k m) < length m
  unfolding Maps.delete
  delete-lt k [] h = ground arith
  delete-lt k ((j, v) ∷ m) h = ground (arith, delete-le k m, delete-lt k m)
