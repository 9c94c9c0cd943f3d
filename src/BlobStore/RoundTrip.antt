-- ===== src/BlobStore/RoundTrip.antt =====
-- What Put has stored, Open returns.
use apoci.Prelude.{
  Text, text_eq, codes, Bool, false, ◌&&◌, ◌||◌, not, Option, none, some, [], ◌∷◌, ◌++◌, ◌≡◌, ◌≢◌,
  refl, sym, ap, ◌∙◌, inl, inr, arith, Bool-cases, if_both, if◌then◌else◌,
}
use apoci.Registry.{remove_where}
use apoci.Validate
use apoci.BlobStore.{
  BlobPath, Disk, Call, Lookup, found, same_path, path_for_digest, content_at, place, digest_of,
  move_in, put, read_at, open_at, open_blob, is_empty, make_shard, rename_temp, create_temp,
  copy_in, sync_temp, open_file, stat_file,
}
use apoci.BlobStore.Contents.{same_path_refl, same_path_eq, path_named}

content_at-place :
    (p : BlobPath) (content : Text) (disk : Disk)
    → content_at p (place p content disk) ≡ some content
unfolding content_at place
content_at-place p content disk = rw (same_path_refl p) refl

other_path : (p q : BlobPath) → p ≢ q → same_path p q ≡ false
other_path p q h = elim (Bool-cases (same_path p q)) [
  | inl same ↦ absurd (h (same_path_eq p q same))
  | inr other ↦ other
]

content_at-remove :
    (p q : BlobPath) (disk : Disk)
    → p ≢ q
    → content_at q (remove_where (λ f. same_path f.path p) disk) ≡ content_at q disk
unfolding content_at remove_where
content_at-remove p q [] h = refl
content_at-remove p q (f ∷ fs) h =
    let rest = content_at-remove p q fs h in
    elim (Bool-cases (same_path f.path p)) [
      | inr other ↦ rw other (ap (λ o. if same_path f.path q then some f.content else o) rest)
      | inl same ↦
          let is = same_path_eq f.path p same in
          let differs = other_path f.path q (λ e. h (sym is ∙ e)) in rw (same, differs) rest
    ]

module _ (sha256_hex : Text → Text) (fails : Call → Bool) where
  -- A content that has been moved in, and its digest.
  record IsPlaced (content : Text) (disk : Disk) (digest : Text) (y : Disk × Lookup Text)
      : Type 0 where
    path : BlobPath
    at : path_for_digest (digest_of sha256_hex fails content) ≡ some path
    placed : y.0 ≡ place path content disk
    named : digest ≡ digest_of sha256_hex fails content

  abbrev Places : Text → Disk → Text → Disk × Lookup Text → Type 0
  Places content disk digest y = y.1 ≡ found digest → IsPlaced content disk digest y

  move_in-Places :
      (content : Text) (p : Option BlobPath) (disk : Disk) (digest : Text)
      → path_for_digest (digest_of sha256_hex fails content) ≡ p
      → Places content disk digest
          (move_in sha256_hex fails (digest_of sha256_hex fails content) content p disk)
  unfolding move_in
  move_in-Places content none disk digest at = λ e. absurd (ground arith)
  move_in-Places content (some p) disk digest at =
      if_both (Places content disk digest) (fails make_shard || fails rename_temp) _ _
        (λ e. absurd (ground arith))
        (λ e. record { path = p; at = at; placed = refl; named = ground arith })

  put-Places :
      (content expected : Text) (disk : Disk) (digest : Text)
      → Places content disk digest (put sha256_hex fails content expected disk)
  unfolding put
  put-Places content expected disk digest =
      let places = Places content disk digest in
      if_both places (not (is_empty expected) && not (Validate.digest expected)) _ _
        (λ e. absurd (ground arith))
        (if_both places (fails create_temp || fails copy_in || fails sync_temp) _ _
          (λ e. absurd (ground arith))
          (if_both places
            (not (is_empty expected) && not (text_eq (digest_of sha256_hex fails content) expected))
            _ _ (λ e. absurd (ground arith)) (move_in-Places content _ disk digest refl)))

  read_back :
      (other : Text) (p : BlobPath) (disk : Disk) (content : Text)
      → path_for_digest other ≡ some p
      → fails open_file ≡ false
      → fails stat_file ≡ false
      → open_blob sha256_hex fails other (place p content disk) ≡ found content
  unfolding open_blob
  read_back other p disk content at opens stats =
      rw at (unfold open_at read_at in rw (opens, content_at-place p content disk, stats) refl)

  undisturbed :
      (other : Text) (found_at : Option BlobPath) (p : BlobPath) (disk : Disk) (content : Text)
      → ((q : BlobPath) → found_at ≡ some q → p ≢ q)
      → open_at sha256_hex fails found_at (place p content disk)
        ≡ open_at sha256_hex fails found_at disk
  unfolding open_at content_at place
  undisturbed other none p disk content h = refl
  undisturbed other (some q) p disk content h =
      let differs = h q refl in rw (other_path p q differs, content_at-remove p q disk differs) refl

  -- A content that Put has stored is what Open returns for the digest that Put gave, which is its
  -- own, as long as the file can be opened; and every other digest reads as before.
  pub open_blob-put :
      (content expected : Text) (disk : Disk) (digest other : Text)
      → (put sha256_hex fails content expected disk).1 ≡ found digest
      → fails open_file ≡ false
      → fails stat_file ≡ false
      → other ≢ digest
      → (open_blob sha256_hex fails digest (put sha256_hex fails content expected disk).0
          ≡ found content)
        × (digest ≡ digest_of sha256_hex fails content)
        × (open_blob sha256_hex fails other (put sha256_hex fails content expected disk).0
            ≡ open_blob sha256_hex fails other disk)
  unfolding open_blob
  open_blob-put content expected disk digest other e opens stats differs =
      let y = put-Places content expected disk digest e in
      let at = ap path_for_digest y.named ∙ y.at in
      (
        ap (λ d. open_at sha256_hex fails (path_for_digest digest) d) y.placed
            ∙ read_back digest y.path disk content at opens stats,
        y.named,
        ap (λ d. open_at sha256_hex fails (path_for_digest other) d) y.placed
            ∙ undisturbed other (path_for_digest other) y.path disk content (λ q o same. differs (
                path_named other q o
                ∙ ap (λ (x : BlobPath). codes "sha256:" ++ x.name) (sym same)
                ∙ sym (path_named digest y.path at))),
      )
