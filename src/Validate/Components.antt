-- ===== src/Validate/Components.antt =====
-- The path components of repository names (repoComponentRe of internal/validate/validate.go),
-- against the regular expression read as a grammar.
use mathlib.Core.List.{append-nil, append_assoc}
use apoci.Prelude.Strings.{attach}
use apoci.Prelude.{
  if_both, ◌==◌, Text, ◌≡◌, ◌≢◌, ◌↔◌, refl, Bool, true, false, [], ◌∷◌, ◌++◌, arith, Bool-cases,
  inl, inr, all, All, split, codes, ℕ, List, ◌≤◌, not, length, ◌&&◌,
}
use apoci.Validate.{is_alnum, is_separator, component_rest, repo_component, repo_name, is_empty}

-- [a-z0-9]+
pub data Word : Text → Type 0 where
  one : (c : ℕ) → is_alnum c ≡ true → Word (c ∷ [])
  more : (c : ℕ) (s : Text) → is_alnum c ≡ true → Word s → Word (c ∷ s)

-- [a-z0-9]+(?:[._-][a-z0-9]+)*
pub data Component : Text → Type 0 where
  single : (s : Text) → Word s → Component s
  joined :
      (w rest s : Text) (c : ℕ)
      → Word w
      → is_separator c ≡ true
      → Component rest
      → s ≡ w ++ c ∷ rest
      → Component s

Word-accepted : (b : Bool) (w : Text) → Word w → component_rest b w ≡ true
unfolding component_rest
Word-accepted b _ (one c h) = ground arith
Word-accepted b _ (more c s h w) = ground (arith, Word-accepted true s w)

separator-not_alnum : (c : ℕ) → is_separator c ≡ true → is_alnum c ≡ false
separator-not_alnum c h = ground arith

joined_accepted :
    (b : Bool) (w rest : Text) (c : ℕ)
    → Word w
    → is_separator c ≡ true
    → component_rest false rest ≡ true
    → component_rest b (w ++ c ∷ rest) ≡ true
unfolding component_rest
joined_accepted b _ rest c (one d h) sep ok = ground (arith, separator-not_alnum c sep)
joined_accepted b _ rest c (more d s h w) sep ok =
    ground (arith, joined_accepted true s rest c w sep ok)

accepts : (s : Text) → Component s → component_rest false s ≡ true
accepts s (single _ w) = Word-accepted false s w
accepts s (joined w rest _ c word sep tail e) =
    rw e (joined_accepted false w rest c word sep (accepts rest tail))

Word-snoc : (w : Text) (c : ℕ) → Word w → is_alnum c ≡ true → Word (w ++ c ∷ [])
Word-snoc _ c (one d h) k = more d (c ∷ []) h (one c k)
Word-snoc _ c (more d s h w) k = more d (s ++ c ∷ []) h (Word-snoc s c w k)

-- A started word followed by an accepted rest.
sound_from : (w s : Text) → Word w → component_rest true s ≡ true → Component (w ++ s)
unfolding component_rest
sound_from w [] word h = rw append-nil (single w word)
sound_from w (c ∷ []) word h = elim (Bool-cases (is_alnum c)) [
  | inl letter ↦ single (w ++ c ∷ []) (Word-snoc w c word letter)
  | inr other ↦ absurd (ground arith)
]
sound_from w (c ∷ d ∷ s) word h = elim (Bool-cases (is_alnum c)) [
  | inl letter ↦
      rw (← append_assoc w (c ∷ []) (d ∷ s))
        (sound_from (w ++ c ∷ []) (d ∷ s) (Word-snoc w c word letter) (ground arith))
  | inr other ↦
      joined w (d ∷ s) (w ++ c ∷ d ∷ s) c word (ground arith)
        (sound_from (d ∷ []) s (one d (ground arith)) (ground arith)) refl
]

sound : (s : Text) → component_rest false s ≡ true → Component s
unfolding component_rest
sound [] h = absurd (ground arith)
sound (c ∷ s) h = sound_from (c ∷ []) s (one c (ground arith)) (ground arith)

-- The scan accepts exactly the texts of the regular expression: words of lower-case letters and
-- digits, joined by single separators.
pub repo_component_iff : (s : Text) → (repo_component s ≡ true) ↔ Component s
unfolding repo_component
repo_component_iff s = (sound s, accepts s)

-- A component starts with a letter or a digit.
first_byte :
    (s : Text)
    → repo_component s ≡ true
    → (c : ℕ) × (rest : Text) × (s ≡ c ∷ rest) × (is_alnum c ≡ true)
unfolding repo_component
first_byte [] h = absurd (ground arith)
first_byte (c ∷ s) h = (c, s, refl, ground arith)

-- The part of a path that is safe to join: neither empty nor a dot segment.
pub record IsPlain (part : Text) : Type 0 where
  pub not_empty : part ≢ []
  pub not_dot : part ≢ codes "."
  pub not_dots : part ≢ codes ".."

IsPlain-of : (part : Text) → repo_component part ≡ true → IsPlain part
unfolding repo_component
IsPlain-of [] h = absurd (ground arith)
IsPlain-of (c ∷ s) h = record {
  not_empty = λ e. cc;
  not_dot = λ e. ground arith;
  not_dots = λ e. ground arith;
}

parts-IsPlain :
    (parts : List Text)
    → all (λ part. not (is_empty part) && repo_component part) parts ≡ true
    → All (λ part. Component part × IsPlain part) parts
parts-IsPlain [] h = tt
parts-IsPlain (p ∷ ps) h =
    let own : repo_component p ≡ true = ground arith in
    (((repo_component_iff p).0 own, IsPlain-of p own), parts-IsPlain ps (ground arith))

attach-some : (c : ℕ) (parts : List Text) → 1 ≤ length (attach c parts)
unfolding attach
attach-some c [] = omega arith
attach-some c (p ∷ ps) = omega arith

split-some : (sep : ℕ) (s : Text) → 1 ≤ length (split sep s)
unfolding split
split-some sep [] = omega arith
split-some sep (a ∷ s) =
    if_both (λ (ps : List Text). 1 ≤ length ps) (a == sep) _ _ (omega arith)
      (attach-some a (split sep s))

-- An accepted repository name has between one and eight components, none of them empty or a dot
-- segment, each a component of the regular expression, and at most 256 bytes.
pub repo_name_parts :
    (name : Text)
    → repo_name name ≡ true
    → All (λ part. Component part × IsPlain part) (split b'/' name)
      × (1 ≤ length (split b'/' name))
      × (length (split b'/' name) ≤ 8)
      × (length name ≤ 256)
unfolding repo_name
repo_name_parts name h = (
  parts-IsPlain (split b'/' name) (ground arith),
  split-some b'/' name,
  ground arith,
  ground arith,
)
