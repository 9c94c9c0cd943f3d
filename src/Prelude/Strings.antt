-- ===== src/Prelude/Strings.antt =====
-- Go strings as lists of bytes, with the functions of package strings that the program uses.
use Prim.Native.Nat.{ℕ, ◌+◌}
use Prim.Native.Char.{code}
use Prim.Native.String.{String}
use mathlib.Core.Path.{◌≡◌, refl}
use mathlib.Core.Logic.{◌↔◌}
use mathlib.Core.Bool.{Bool, true, false, ◌&&◌, ◌||◌}
use mathlib.Core.Option.{Option, none, some}
use mathlib.Core.List.{List, [], ◌∷◌, map}
use native.Mathlib.Omega.{arith}
use apoci.Prelude.Tests.{leb, ltb, ◌==◌, if◌then◌else◌}

abbrev pub Text : Type 0
Text = List ℕ

-- The bytes of an ASCII literal.
abbrev pub codes : String → Text
codes String.[] = []
codes (String.◌∷◌ c s) = code c ∷ codes s

unfoldable pub text_eq : Text → Text → Bool
text_eq [] [] = true
text_eq (a ∷ s) (b ∷ t) = a == b && text_eq s t
text_eq _ _ = false

pub text_eq_refl : (s : Text) → text_eq s s ≡ true
unfolding text_eq
text_eq_refl [] = refl
text_eq_refl (a ∷ s) = ground (arith, text_eq_refl s)

text_eq_sound : (s t : Text) → text_eq s t ≡ true → s ≡ t
unfolding text_eq
text_eq_sound [] [] h = refl
text_eq_sound (a ∷ s) (b ∷ t) h = ground (arith, text_eq_sound s t)
text_eq_sound [] (b ∷ t) h = ground arith
text_eq_sound (a ∷ s) [] h = ground arith

pub text_eq_iff : (s t : Text) → (text_eq s t ≡ true) ↔ (s ≡ t)
text_eq_iff s t = (text_eq_sound s t, λ e. let refl_s : text_eq s s ≡ true = text_eq_refl s in cc)

-- strings.ToLower, on ASCII.
unfoldable pub lower_byte : ℕ → ℕ
lower_byte c = if leb b'A' c && leb c b'Z' then c + 32 else c

unfoldable pub to_lower : Text → Text
unfolding lower_byte
to_lower = map lower_byte

-- strings.CutPrefix: the rest of `s` behind `p`.
unfoldable pub cut_prefix : Text → Text → Option Text
cut_prefix [] s = some s
cut_prefix (a ∷ p) [] = none
cut_prefix (a ∷ p) (b ∷ s) = let rest = cut_prefix p s in if a == b then rest else none

-- strings.HasSuffix.
unfoldable pub has_suffix : Text → Text → Bool
unfolding text_eq
has_suffix [] t = text_eq [] t
has_suffix (a ∷ s) t = let rest = has_suffix s t in if text_eq (a ∷ s) t then true else rest

-- The part before the first `sep`: the first result of strings.Cut, and of strings.SplitN at 2.
unfoldable pub before : ℕ → Text → Text
before sep [] = []
before sep (a ∷ s) = let rest = before sep s in if a == sep then [] else a ∷ rest

-- One more byte in front of the first part.
unfoldable pub attach : ℕ → List Text → List Text
attach c [] = (c ∷ []) ∷ []
attach c (p ∷ ps) = (c ∷ p) ∷ ps

-- strings.Split at one byte; the result has at least one part.
unfoldable pub split : ℕ → Text → List Text
unfolding attach
split sep [] = [] ∷ []
split sep (a ∷ s) = let rest = split sep s in if a == sep then [] ∷ rest else attach a rest

-- The white space that strings.TrimSpace and strings.Fields know, on ASCII.
abbrev pub is_space : ℕ → Bool
is_space c = (c == 32) || (leb 9 c && leb c 13)

unfoldable pub trim_left : (ℕ → Bool) → Text → Text
trim_left p [] = []
trim_left p (a ∷ s) = let rest = trim_left p s in if p a then rest else a ∷ s

unfoldable pub trim_right : (ℕ → Bool) → Text → Text
trim_right p [] = []
trim_right p (a ∷ s) = elim (trim_right p s) [
  | [] ↦ if p a then [] else a ∷ []
  | c ∷ rest ↦ a ∷ c ∷ rest
]

-- strings.TrimFunc: strings.TrimSpace and strings.Trim.
unfoldable pub trim : (ℕ → Bool) → Text → Text
unfolding trim_left trim_right
trim p s = trim_right p (trim_left p s)

-- `started` says whether the byte before belongs to a field.
fields_from : Bool → Text → List Text
unfolding attach
fields_from started [] = if started then [] ∷ [] else []
fields_from started (a ∷ s) =
    let rest = fields_from false s in
    let more = fields_from true s in
    if is_space a then if started then [] ∷ rest else rest else attach a more

-- strings.Fields.
unfoldable pub fields : Text → List Text
unfolding fields_from
fields s = fields_from false s

-- strings.EqualFold, on ASCII.
unfoldable pub equal_fold : Text → Text → Bool
unfolding to_lower text_eq
equal_fold s t = text_eq (to_lower s) (to_lower t)

-- The order of bytes, as the database compares its keys.
unfoldable pub text_ltb : Text → Text → Bool
text_ltb s [] = false
text_ltb [] (d ∷ t) = true
text_ltb (c ∷ s) (d ∷ t) = ltb c d || (c == d && text_ltb s t)
