-- ===== src/Tests/Names.antt =====
-- Runs of internal/validate/validate.go.
use apoci.Prelude.{
  ℕ, ◌+◌, ◌≤◌, ◌≡◌, ◌↔◌, refl, true, Text, codes, List, [], ◌∷◌, All, split, length,
}
use apoci.Validate.{repo_component, repo_name, sanitize_text}
use apoci.Validate.Components.{Component, IsPlain, repo_component_iff, repo_name_parts}
use apoci.Validate.Sanitized.{IsAllowed, byte_len, sanitize_text_clean, sanitize_text_overruns}

repo_component_iff_example :
    (repo_component (codes "my-app.v2") ≡ true) ↔ Component (codes "my-app.v2")
repo_component_iff_example = repo_component_iff (codes "my-app.v2")

abbrev name : Text
name = codes "a.example/tools/my-app"

repo_name_parts_example :
    All (λ part. Component part × IsPlain part) (split b'/' name)
    × (1 ≤ length (split b'/' name))
    × (length (split b'/' name) ≤ 8)
    × (length name ≤ 256)
repo_name_parts_example = repo_name_parts name (unfold repo_name split in refl)

abbrev text : List ℕ
text = b'a' ∷ 7 ∷ 10 ∷ 0x20ac ∷ b'b' ∷ []

sanitize_text_clean_example :
    All IsAllowed (sanitize_text text 3) × (byte_len (sanitize_text text 3) ≤ 3 + 3)
sanitize_text_clean_example = sanitize_text_clean text 3

sanitize_text_overruns_example : (s : List ℕ) × (byte_len (sanitize_text s (2 + 1)) ≡ 2 + 3)
sanitize_text_overruns_example = sanitize_text_overruns 2
