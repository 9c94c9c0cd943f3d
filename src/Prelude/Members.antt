-- ===== src/Prelude/Members.antt =====
-- Members of lists through the operations that the tables use.
use mathlib.Core.List.{Memᴰ}
use mathlib.Core.Path.{◌≡◌, subst, sym}
use mathlib.Core.Logic.{inl, inr}
use mathlib.Core.Bool.{Bool, true}
use mathlib.Core.List.{List, [], ◌∷◌}
use native.Mathlib.Omega.{arith}
use apoci.Prelude.Tests.{Bool-cases}
use apoci.Prelude.Lists.{All, All-map, filter, any}

module _ {ℓ} {A : Type ℓ} where
  pub Mem-any : (p : A → Bool) (x : A) (xs : List A) → p x ≡ true → Memᴰ x xs → any p xs ≡ true
  Mem-any p x [] h m = elim m [ ]
  Mem-any p x (y ∷ xs) h (Memᴰ.head e) = let same = subst (λ z. p z ≡ true) e h in ground arith
  Mem-any p x (y ∷ xs) h (Memᴰ.tail m) = ground (arith, Mem-any p x xs h m)

module _ {ℓ κ} {A : Type ℓ} (P : A → Type κ) where
  pub All-at : (x : A) (xs : List A) → All P xs → Memᴰ x xs → P x
  All-at x [] h m = elim m [ ]
  All-at x (y ∷ xs) h (Memᴰ.head e) = subst P (sym e) h.0
  All-at x (y ∷ xs) h (Memᴰ.tail m) = All-at x xs h.1 m

  pub All-filter : (p : A → Bool) (xs : List A) → All P xs → All P (filter p xs)
  All-filter p [] h = tt
  All-filter p (x ∷ xs) h = elim (Bool-cases (p x)) [
    | inl k ↦ rw k (h.0, All-filter p xs h.1)
    | inr k ↦ rw k (All-filter p xs h.1)
  ]

module _ {ℓ} {A : Type ℓ} where
  pub any_mono :
      (p q : A → Bool) (xs : List A)
      → ((x : A) → p x ≡ true → q x ≡ true)
      → any p xs ≡ true
      → any q xs ≡ true
  any_mono p q [] h k = k
  any_mono p q (x ∷ xs) h k = elim (Bool-cases (p x)) [
    | inl e ↦ ground (arith, h x e)
    | inr e ↦ ground (arith, any_mono p q xs h)
  ]

  -- Every member of a list is like some member of it.
  pub All-self :
      (q : A → A → Bool) (xs : List A)
      → ((x : A) → q x x ≡ true)
      → All (λ x. any (q x) xs ≡ true) xs
  All-self q [] h = tt
  All-self q (x ∷ xs) h =
      (ground (arith, h x), All-map _ _ (λ y k. ground arith) xs (All-self q xs h))
