-- ===== src/Prelude/Order.antt =====
-- The order of texts, and pages read in it: the rows past the last key of a page are fewer.
use mathlib.Core.Path.{◌≡◌, refl, ap, sym, subst}
use mathlib.Core.Bool.{Bool, true, false, ◌&&◌, not}
use mathlib.Core.List.{List, [], ◌∷◌}
use native.Mathlib.Omega.{arith}
use Prim.Native.Nat.{◌≤◌, ◌<◌}
use apoci.Prelude.Lists.{filter, any, length}
use apoci.Prelude.Members.{any_mono}
use apoci.Prelude.Strings.{Text, text_eq, text_eq_iff, text_ltb}

pub text_ltb_irrefl : (s : Text) → text_ltb s s ≡ false
unfolding text_ltb
text_ltb_irrefl [] = refl
text_ltb_irrefl (c ∷ s) = ground (arith, text_ltb_irrefl s)

pub text_ltb_trans :
    (s t u : Text) → text_ltb s t ≡ true → text_ltb t u ≡ true → text_ltb s u ≡ true
unfolding text_ltb
text_ltb_trans s t [] h k = k
text_ltb_trans s [] (e ∷ u) h k = absurd (ground arith)
text_ltb_trans [] (d ∷ t) (e ∷ u) h k = refl
text_ltb_trans (c ∷ s) (d ∷ t) (e ∷ u) h k = ground (arith, text_ltb_trans s t u)

module _ {ℓ} {A : Type ℓ} (p q : A → Bool) (weaker : (x : A) → q x ≡ true → p x ≡ true) where
  pub filter-le : (xs : List A) → length (filter q xs) ≤ length (filter p xs)
  filter-le [] = omega arith
  filter-le (x ∷ xs) = ground (arith, filter-le xs, weaker x)

  pub filter-lt :
      (xs : List A)
      → any (λ x. p x && not (q x)) xs ≡ true
      → length (filter q xs) < length (filter p xs)
  filter-lt [] h = absurd (ground arith)
  filter-lt (x ∷ xs) h = ground (arith, filter-le xs, filter-lt xs, weaker x)

module _ {ℓ} {A : Type ℓ} (key : A → Text) (after : Text) where
  -- Past the cursor, and the key of a row of the table.
  abbrev pub IsPast : List A → Text → Type 0
  IsPast xs k = (text_ltb after k ≡ true) × (any (λ x. text_eq (key x) k) xs ≡ true)

  pub next_page_fewer :
      (xs : List A) (k : Text)
      → IsPast xs k
      → length (filter (λ x. text_ltb k (key x)) xs)
        < length (filter (λ x. text_ltb after (key x)) xs)
  next_page_fewer xs k (past, there) =
      filter-lt (λ x. text_ltb after (key x)) (λ x. text_ltb k (key x))
        (λ x h. text_ltb_trans after k (key x) past h) xs
        (any_mono (λ x. text_eq (key x) k) (λ x. text_ltb after (key x) && not (text_ltb k (key x)))
          xs
          (λ x e.
            let same = (text_eq_iff (key x) k).0 e in
            let past_x = subst (λ j. text_ltb after j ≡ true) (sym same) past in
            let irrefl = ap (λ j. text_ltb k j) same in ground (arith, text_ltb_irrefl k))
          there)
