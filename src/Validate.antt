-- ===== src/Validate.antt =====
-- internal/validate/validate.go: the checks on names that arrive from clients and peers. The
-- regular expressions of the source are given by what they match, on the bytes of an ASCII text.
pub mod Components
pub mod Sanitized
use apoci.Prelude.{
  ℕ, zero, suc, ◌+◌, ◌-◌, Text, codes, List, [], ◌∷◌, Bool, true, false, ◌&&◌, ◌||◌, not, leb, ltb,
  ◌==◌, length, all, any, split, cut_prefix, Option, none, some, if◌then◌else◌, text_eq,
}

abbrev pub is_digit : ℕ → Bool
is_digit c = leb b'0' c && leb c b'9'

abbrev pub is_lower : ℕ → Bool
is_lower c = leb b'a' c && leb c b'z'

abbrev pub is_upper : ℕ → Bool
is_upper c = leb b'A' c && leb c b'Z'

-- [a-f0-9]
abbrev pub is_hex : ℕ → Bool
is_hex c = (leb b'a' c && leb c b'f') || is_digit c

abbrev pub all_hex : Option Text → Bool
all_hex none = false
all_hex (some hex) = (length hex == 64) && all is_hex hex

-- Digest; `true` is the nil error. ^sha256:[a-f0-9]{64}$
unfoldable pub digest : Text → Bool
digest d = all_hex (cut_prefix (codes "sha256:") d)

-- [a-z0-9]
abbrev pub is_alnum : ℕ → Bool
is_alnum c = is_lower c || is_digit c

-- [._-]
abbrev pub is_separator : ℕ → Bool
is_separator c = (c == b'.') || (c == b'_') || (c == b'-')

-- ^[a-z0-9]+(?:[._-][a-z0-9]+)*$: `started` says whether the byte before was a letter or a digit.
unfoldable pub component_rest : Bool → Text → Bool
component_rest started [] = started
component_rest started (c ∷ s) =
    (is_alnum c || (started && is_separator c)) && component_rest (is_alnum c) s

unfoldable pub repo_component : Text → Bool
unfolding component_rest
repo_component s = component_rest false s

abbrev pub is_empty : Text → Bool
is_empty [] = true
is_empty (_ ∷ _) = false

-- RepoName; `true` is the nil error.
unfoldable pub repo_name : Text → Bool
unfolding repo_component
repo_name name =
    not (is_empty name)
    && leb (length name) 256
    && leb (length (split b'/' name)) 8
    && all (λ part. not (is_empty part) && repo_component part) (split b'/' name)

abbrev pub is_letter_or_digit : ℕ → Bool
is_letter_or_digit c = is_lower c || is_upper c || is_digit c

abbrev is_tag_start : ℕ → Bool
is_tag_start c = is_letter_or_digit c || (c == b'_')

abbrev is_tag_byte : ℕ → Bool
is_tag_byte c = is_letter_or_digit c || (c == b'.') || (c == b'_') || (c == b'-')

-- Tag; the empty tag is valid. ^[a-zA-Z0-9_][a-zA-Z0-9._-]{0,127}$
unfoldable pub tag : Text → Bool
tag [] = true
tag (c ∷ s) = is_tag_start c && leb (length s) 127 && all is_tag_byte s

abbrev is_media_byte : ℕ → Bool
is_media_byte c = is_letter_or_digit c || any (λ b. c == b) (codes "!#$&-^_.+")

-- One side of a media type: a letter or digit, and at most 126 further bytes.
abbrev media_side : Text → Bool
media_side [] = false
media_side (c ∷ s) = is_letter_or_digit c && leb (length s) 126 && all is_media_byte s

abbrev two_sides : List Text → Bool
two_sides (t ∷ u ∷ []) = media_side t && media_side u
two_sides _ = false

unfoldable pub media_type : Text → Bool
media_type s = leb (length s) 255 && two_sides (split b'/' s)

-- ActivityID
unfoldable pub activity_id : Text → Bool
activity_id id = leb (length id) 2048

-- ManifestContent, on the length of the content.
unfoldable pub manifest_content : ℕ → ℕ → Bool
manifest_content size max_size = leb size max_size && not (size == 0)

abbrev pub is_control : ℕ → Bool
is_control r = ltb r 0x20 || (r == 0x7f)

abbrev pub is_layout : ℕ → Bool
is_layout r = (r == 9) || (r == 10) || (r == 13)

-- The bytes that WriteRune writes.
abbrev pub rune_len : ℕ → ℕ
rune_len r = if ltb r 0x80 then 1 else if ltb r 0x800 then 2 else if ltb r 0x10000 then 3 else 4

-- The loop of SanitizeText over the runes of the text; `written` is b.Len().
unfoldable pub sanitize_from : ℕ → ℕ → List ℕ → List ℕ
sanitize_from max_len written [] = []
sanitize_from max_len written (r ∷ s) =
    let kept = r ∷ sanitize_from max_len (written + rune_len r) s in
    let dropped = sanitize_from max_len written s in
    if leb max_len written
    then []
    else if is_layout r
    then kept
    else if is_control r
    then dropped
    else kept

unfoldable pub sanitize_text : List ℕ → ℕ → List ℕ
unfolding sanitize_from
sanitize_text s max_len = sanitize_from max_len 0 s
