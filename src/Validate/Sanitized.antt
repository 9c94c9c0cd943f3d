-- ===== src/Validate/Sanitized.antt =====
-- What SanitizeText lets through (internal/validate/validate.go).
use apoci.Prelude.{
  ℕ, ◌+◌, ◌≤◌, ◌≡◌, ◌⊎◌, inl, inr, true, false, List, [], ◌∷◌, arith, All, Bool-cases, leb, zero,
  suc,
}
use apoci.Validate.{is_control, is_layout, rune_len, sanitize_from, sanitize_text}

-- The bytes of the runes in UTF-8.
abbrev pub byte_len : List ℕ → ℕ
byte_len [] = 0
byte_len (r ∷ s) = rune_len r + byte_len s

-- Not an ASCII control character, or one of tab, newline and carriage return.
abbrev pub IsAllowed : ℕ → Type 0
IsAllowed r = (is_layout r ≡ true) ⊎ (is_control r ≡ false)

rune_len-bounds : (r : ℕ) → (1 ≤ rune_len r) × (rune_len r ≤ 4)
rune_len-bounds r = ground arith

sanitize_from-IsAllowed : (max_len n : ℕ) (s : List ℕ) → All IsAllowed (sanitize_from max_len n s)
unfolding sanitize_from
sanitize_from-IsAllowed max_len n [] = tt
sanitize_from-IsAllowed max_len n (r ∷ s) = elim (Bool-cases (leb max_len n)) [
  | inl full ↦ rw full tt
  | inr room ↦ elim (Bool-cases (is_layout r)) [
    | inl layout ↦
        rw (room, layout) (inl layout, sanitize_from-IsAllowed max_len (n + rune_len r) s)
    | inr plain ↦ elim (Bool-cases (is_control r)) [
      | inl control ↦ rw (room, plain, control) (sanitize_from-IsAllowed max_len n s)
      | inr printed ↦
          rw (room, plain, printed)
            (inr printed, sanitize_from-IsAllowed max_len (n + rune_len r) s)
    ]
  ]
]

sanitize_from-len :
    (max_len n : ℕ) (s : List ℕ)
    → n ≤ max_len + 3
    → n + byte_len (sanitize_from max_len n s) ≤ max_len + 3
unfolding sanitize_from
sanitize_from-len max_len n [] h = omega arith
sanitize_from-len max_len n (r ∷ s) h = ground (
  arith,
  rune_len-bounds r,
  sanitize_from-len max_len (n + rune_len r) s,
  sanitize_from-len max_len n s h,
)

-- The result holds no ASCII control character but tab, newline and carriage return, and its UTF-8
-- form passes the limit by at most three bytes, those of a last rune that began below it.
pub sanitize_text_clean :
    (s : List ℕ) (max_len : ℕ)
    → All IsAllowed (sanitize_text s max_len) × (byte_len (sanitize_text s max_len) ≤ max_len + 3)
unfolding sanitize_text
sanitize_text_clean s max_len = (
  sanitize_from-IsAllowed max_len 0 s,
  omega (arith, sanitize_from-len max_len 0 s (omega arith)),
)

letters_then_euro : ℕ → List ℕ
letters_then_euro zero = 0x20ac ∷ []
letters_then_euro (suc k) = b'a' ∷ letters_then_euro k

overruns_from :
    (k n max_len : ℕ)
    → n + k + 1 ≡ max_len
    → byte_len (sanitize_from max_len n (letters_then_euro k)) ≡ k + 3
unfolding sanitize_from letters_then_euro
overruns_from zero n max_len h = ground arith
overruns_from (suc k) n max_len h = ground (arith, overruns_from k (n + 1) max_len (omega arith))

-- The limit is not one on bytes: for every positive limit there is a text whose result is two
-- bytes longer than it.
pub sanitize_text_overruns : (k : ℕ) → (s : List ℕ) × (byte_len (sanitize_text s (k + 1)) ≡ k + 3)
unfolding sanitize_text
sanitize_text_overruns k = (letters_then_euro k, overruns_from k 0 (k + 1) (omega arith))
