-- ===== src/BlobStore/Contents.antt =====
-- The store of blobs keeps each content under its own digest.
use mathlib.Core.Option.{some_inj}
use apoci.Prelude.{
  Text, text_eq, text_eq_iff, text_eq_refl, codes, Bool, true, ◌&&◌, ◌||◌, not, Option, none, some,
  List, [], ◌∷◌, ◌++◌, ◌==◌, ◌≡◌, refl, sym, ap, ◌∙◌, inl, inr, arith, All, All-cons, cut_prefix,
  Bool-cases, if_both,
}
use apoci.Registry.Removal.{All-remove_where}
use apoci.Validate
use apoci.BlobStore.{
  BlobPath, StoredFile, Disk, Call, Lookup, found, same_path, hash_of, path_for_digest, content_at,
  place, digest_of, move_in, put, read_at, open_at, open_blob, is_empty, make_shard, rename_temp,
  create_temp, copy_in, sync_temp, remove_file, open_file, delete_at, delete_blob,
}

pub same_path_refl : (p : BlobPath) → same_path p p ≡ true
unfolding same_path
same_path_refl p = ground (arith, text_eq_refl p.shard, text_eq_refl p.name)

pub same_path_eq : (p q : BlobPath) → same_path p q ≡ true → p ≡ q
unfolding same_path
same_path_eq p q h =
    let shard = (text_eq_iff p.shard q.shard).0 (ground arith) in
    let name = (text_eq_iff p.name q.name).0 (ground arith) in
    ap (λ s. record { shard = s; name = p.name }) shard
    ∙ ap (λ n. record { shard = q.shard; name = n }) name

-- Every file lies where the digest of its content says.
abbrev pub IsAddressed : (Text → Text) → Disk → Type 0
IsAddressed sha disk =
    All (λ f. path_for_digest (codes "sha256:" ++ sha f.content) ≡ some f.path) disk

cut_prefix-join : (p s rest : Text) → cut_prefix p s ≡ some rest → s ≡ p ++ rest
unfolding cut_prefix
cut_prefix-join [] s rest h = some_inj.0 h
cut_prefix-join (a ∷ p) [] rest h = absurd (ground arith)
cut_prefix-join (a ∷ p) (b ∷ s) rest h = elim (Bool-cases (a == b)) [
  | inr differs ↦ absurd (ground arith)
  | inl same ↦
      let first : b ≡ a = ground arith in
      let tail = cut_prefix-join p s rest (rw same at h) in
      ap (λ x. x ∷ s) first ∙ ap (λ t. a ∷ t) tail
]

prefixed :
    (digest : Text) (cut : Option Text)
    → cut_prefix (codes "sha256:") digest ≡ cut
    → Validate.all_hex cut ≡ true
    → digest ≡ codes "sha256:" ++ hash_of cut digest
unfolding hash_of
prefixed digest none e h = absurd (ground arith)
prefixed digest (some hash) e h = cut_prefix-join (codes "sha256:") digest hash e

-- A path names the digest that it is made of.
pub path_named :
    (digest : Text) (p : BlobPath)
    → path_for_digest digest ≡ some p
    → digest ≡ codes "sha256:" ++ p.name
unfolding path_for_digest Validate.digest
path_named digest p h = elim (Bool-cases (Validate.digest digest)) [
  | inr no_digest ↦ absurd (ground arith)
  | inl is_digest ↦
      let at = some_inj.0 (rw is_digest at h) in
      prefixed digest _ refl is_digest ∙ ap (λ (q : BlobPath). codes "sha256:" ++ q.name) at
]

content_at-IsAddressed :
    (sha : Text → Text) (p : BlobPath) (disk : Disk) (content : Text)
    → IsAddressed sha disk
    → content_at p disk ≡ some content
    → path_for_digest (codes "sha256:" ++ sha content) ≡ some p
unfolding content_at
content_at-IsAddressed sha p [] content h e = absurd (ground arith)
content_at-IsAddressed sha p (f ∷ fs) content h e = elim (Bool-cases (same_path f.path p)) [
  | inr other ↦ content_at-IsAddressed sha p fs content h.1 (rw other at e)
  | inl same ↦
      let is = some_inj.0 (rw same at e) in
      ap (λ c. path_for_digest (codes "sha256:" ++ sha c)) (sym is)
      ∙ h.0
      ∙ ap some (same_path_eq f.path p same)
]

module _ (sha256_hex : Text → Text) (fails : Call → Bool) where
  read_at-found :
      (o : Option Text) (content : Text)
      → read_at sha256_hex fails o ≡ found content
      → o ≡ some content
  unfolding read_at
  read_at-found none content h = absurd (ground arith)
  read_at-found (some c) content h = ground arith

  open_at-digest :
      (p : Option BlobPath) (disk : Disk) (digest content : Text)
      → path_for_digest digest ≡ p
      → IsAddressed sha256_hex disk
      → open_at sha256_hex fails p disk ≡ found content
      → digest_of sha256_hex fails content ≡ digest
  unfolding open_at digest_of
  open_at-digest none disk digest content at h e = absurd (ground arith)
  open_at-digest (some p) disk digest content at h e = elim (Bool-cases (fails open_file)) [
    | inl broken ↦ absurd (ground arith)
    | inr sound ↦
        let read = read_at-found (content_at p disk) content (rw sound at e) in
        let own = content_at-IsAddressed sha256_hex p disk content h read in
        path_named (codes "sha256:" ++ sha256_hex content) p own ∙ sym (path_named digest p at)
  ]

  move_in-IsAddressed :
      (content : Text) (p : Option BlobPath) (disk : Disk)
      → path_for_digest (digest_of sha256_hex fails content) ≡ p
      → IsAddressed sha256_hex disk
      → IsAddressed sha256_hex
          (move_in sha256_hex fails (digest_of sha256_hex fails content) content p disk).0
  unfolding move_in digest_of place
  move_in-IsAddressed content none disk at h = h
  move_in-IsAddressed content (some p) disk at h =
      let named = λ (f : StoredFile).
        path_for_digest (codes "sha256:" ++ sha256_hex f.content) ≡ some f.path in
      if_both (λ (y : Disk × Lookup Text). IsAddressed sha256_hex y.0)
        (fails make_shard || fails rename_temp) _ _ h
        (All-cons named _ _ at (All-remove_where named (λ f. same_path f.path p) disk h))

  put-IsAddressed :
      (content expected : Text) (disk : Disk)
      → IsAddressed sha256_hex disk
      → IsAddressed sha256_hex (put sha256_hex fails content expected disk).0
  unfolding put
  put-IsAddressed content expected disk h =
      let kept = λ (y : Disk × Lookup Text). IsAddressed sha256_hex y.0 in
      if_both kept (not (is_empty expected) && not (Validate.digest expected)) _ _ h (
        if_both kept (fails create_temp || fails copy_in || fails sync_temp) _ _ h (
          if_both kept
            (not (is_empty expected) && not (text_eq (digest_of sha256_hex fails content) expected))
            _ _ h (move_in-IsAddressed content _ disk refl h)))

  delete_at-IsAddressed :
      (p : Option BlobPath) (disk : Disk)
      → IsAddressed sha256_hex disk
      → IsAddressed sha256_hex (delete_at sha256_hex fails p disk).0
  unfolding delete_at
  delete_at-IsAddressed none disk h = h
  delete_at-IsAddressed (some p) disk h =
      let named = λ (f : StoredFile).
        path_for_digest (codes "sha256:" ++ sha256_hex f.content) ≡ some f.path in
      if_both (λ (y : Disk × Bool). IsAddressed sha256_hex y.0) (fails remove_file) _ _ h
        (All-remove_where named (λ f. same_path f.path p) disk h)

-- One call of the store that writes, with what fails in it.
pub data Change : Type 0 where
  put_in : (Call → Bool) → Text → Text → Change
  take_out : (Call → Bool) → Text → Change

module _ (sha256_hex : Text → Text) where
  unfoldable pub change : Change → Disk → Disk
  change (put_in fails content expected) disk = (put sha256_hex fails content expected disk).0
  change (take_out fails digest) disk = (delete_blob sha256_hex fails digest disk).0

  unfoldable pub changes : List Change → Disk → Disk
  unfolding change
  changes [] disk = disk
  changes (c ∷ cs) disk = changes cs (change c disk)

  changes-IsAddressed :
      (cs : List Change) (disk : Disk)
      → IsAddressed sha256_hex disk
      → IsAddressed sha256_hex (changes cs disk)
  unfolding changes delete_blob
  changes-IsAddressed [] disk h = h
  changes-IsAddressed (put_in fails content expected ∷ cs) disk h =
      changes-IsAddressed cs _ (put-IsAddressed sha256_hex fails content expected disk h)
  changes-IsAddressed (take_out fails digest ∷ cs) disk h =
      changes-IsAddressed cs _ (delete_at-IsAddressed sha256_hex fails _ disk h)

  -- After any sequence of writes and deletions of an empty store, whatever failed in them, what is
  -- read under a digest has that digest.
  pub open_blob-verified :
      (cs : List Change) (fails : Call → Bool) (digest content : Text)
      → open_blob sha256_hex fails digest (changes cs []) ≡ found content
      → digest_of sha256_hex fails content ≡ digest
  unfolding open_blob
  open_blob-verified cs fails digest content e =
      open_at-digest sha256_hex fails _ (changes cs []) digest content refl
        (changes-IsAddressed cs [] tt) e
