-- ===== src/BlobStore.antt =====
-- internal/blobstore/store.go: the store of blobs in files named by their hash, below shards of two
-- letters. A file is its shard, its name and its content; the hash, and whether a call of the file
-- system fails, are parameters.
pub mod Contents
pub mod RoundTrip
use apoci.Prelude.{
  ℕ, Text, text_eq, codes, Bool, true, false, ◌&&◌, ◌||◌, not, Option, none, some, List, [], ◌∷◌,
  ◌++◌, length, take, cut_prefix, any, filter, ◌==◌, if◌then◌else◌,
}
use apoci.Registry.{remove_where}
use apoci.Validate

-- A path below the root.
pub record BlobPath : Type 0 where
  pub shard : Text
  pub name : Text

pub record StoredFile : Type 0 where
  pub path : BlobPath
  pub content : Text

abbrev pub Disk : Type 0
Disk = List StoredFile

-- The calls of the file system that may fail.
pub data Call : Type 0 where
  create_temp copy_in sync_temp make_shard rename_temp open_file stat_file remove_file : Call
  read_root : Call
  read_shard : Text → Call

pub data Lookup {ℓ} (A : Type ℓ) : Type ℓ where
  found : A → Lookup A
  not_found : Lookup A
  invalid : Lookup A
  failed : Lookup A

unfoldable pub is_empty : Text → Bool
is_empty [] = true
is_empty (_ ∷ _) = false

unfoldable pub same_path : BlobPath → BlobPath → Bool
same_path p q = text_eq p.shard q.shard && text_eq p.name q.name

unfoldable pub hash_of : Option Text → Text → Text
hash_of none digest = digest
hash_of (some hash) digest = hash

-- pathForDigest; `none` is its error.
unfoldable pub path_for_digest : Text → Option BlobPath
unfolding hash_of
path_for_digest digest =
    let hash = hash_of (cut_prefix (codes "sha256:") digest) digest in
    if Validate.digest digest then some (record { shard = take 2 hash; name = hash }) else none

unfoldable pub content_at : BlobPath → Disk → Option Text
unfolding same_path
content_at p [] = none
content_at p (f ∷ fs) = if same_path f.path p then some f.content else content_at p fs

-- os.Rename of a staged file: it takes the place of one that is there.
unfoldable pub place : BlobPath → Text → Disk → Disk
unfolding same_path
place p content disk =
    record { path = p; content = content } ∷ remove_where (λ f. same_path f.path p) disk

module _ (sha256_hex : Text → Text) (fails : Call → Bool) where
  -- The digest of a content.
  unfoldable pub digest_of : Text → Text
  digest_of content = codes "sha256:" ++ sha256_hex content

  unfoldable pub move_in : Text → Text → Option BlobPath → Disk → Disk × Lookup Text
  unfolding place
  move_in computed content none disk = (disk, invalid)
  move_in computed content (some p) disk =
      if fails make_shard || fails rename_temp
      then (disk, failed)
      else (place p content disk, found computed)

  -- Put of a content; `invalid` stands for a digest that is no digest, or not the content's.
  unfoldable pub put : Text → Text → Disk → Disk × Lookup Text
  unfolding move_in digest_of is_empty
  put content expected disk =
      if not (is_empty expected) && not (Validate.digest expected)
      then (disk, invalid)
      else if fails create_temp || fails copy_in || fails sync_temp
      then (disk, failed)
      else if not (is_empty expected) && not (text_eq (digest_of content) expected)
      then (disk, invalid)
      else move_in (digest_of content) content (path_for_digest (digest_of content)) disk

  unfoldable pub read_at : Option Text → Lookup Text
  read_at none = not_found
  read_at (some content) = if fails stat_file then failed else found content

  unfoldable pub open_at : Option BlobPath → Disk → Lookup Text
  unfolding read_at content_at
  open_at none disk = invalid
  open_at (some p) disk = if fails open_file then failed else read_at (content_at p disk)

  -- Open, with the content in place of its reader.
  unfoldable pub open_blob : Text → Disk → Lookup Text
  unfolding open_at
  open_blob digest disk = open_at (path_for_digest digest) disk

  unfoldable pub exists_at : Option BlobPath → Disk → Lookup Bool
  exists_at none disk = found false
  exists_at (some p) disk =
      if fails stat_file
      then failed
      else found (elim (content_at p disk) [ none ↦ false | some _ ↦ true ])

  -- Exists
  unfoldable pub exists_blob : Text → Disk → Lookup Bool
  unfolding exists_at
  exists_blob digest disk = exists_at (path_for_digest digest) disk

  unfoldable pub size_found : Option Text → Lookup ℕ
  size_found none = not_found
  size_found (some content) = found (length content)

  unfoldable pub size_at : Option BlobPath → Disk → Lookup ℕ
  unfolding size_found
  size_at none disk = invalid
  size_at (some p) disk = if fails stat_file then failed else size_found (content_at p disk)

  -- Size
  unfoldable pub size_blob : Text → Disk → Lookup ℕ
  unfolding size_at
  size_blob digest disk = size_at (path_for_digest digest) disk

  unfoldable pub delete_at : Option BlobPath → Disk → Disk × Bool
  unfolding same_path
  delete_at none disk = (disk, false)
  delete_at (some p) disk =
      if fails remove_file
      then (disk, false)
      else (remove_where (λ f. same_path f.path p) disk, true)

  -- Delete; `true` is the nil error, also where nothing was there.
  unfoldable pub delete_blob : Text → Disk → Disk × Bool
  unfolding delete_at
  delete_blob digest disk = delete_at (path_for_digest digest) disk

  -- The regular expression of the name and the length of the shard.
  unfoldable pub is_listed : StoredFile → Bool
  is_listed f = (length f.path.shard == 2) && Validate.digest (codes "sha256:" ++ f.path.name)

  names_of : List StoredFile → List Text
  names_of [] = []
  names_of (f ∷ fs) = (codes "sha256:" ++ f.path.name) ∷ names_of fs

  -- ListDigests; no digests are returned where a directory cannot be read.
  unfoldable pub list_digests : Disk → Lookup (List Text)
  unfolding names_of is_listed
  list_digests disk =
      if fails read_root
        || any (λ f. (length f.path.shard == 2) && fails (read_shard f.path.shard)) disk
      then failed
      else found (names_of (filter is_listed disk))
