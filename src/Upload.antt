-- ===== src/Upload.antt =====
-- internal/oci/blobwriter.go: the writer that stages an upload of several chunks in a file. The hash
-- is a parameter, and each call of the file system comes with what it does.
pub mod Sound
use apoci.Prelude.{
  ℕ, ◌+◌, Text, text_eq, codes, Bool, true, false, Option, none, some, List, [], ◌∷◌, ◌++◌, length,
  take, ltb, if◌then◌else◌,
}

-- diskBlobWriter: the staged file is its content, `none` once it is released, and the running hash
-- what has gone into it; `released` counts the calls of onDone.
pub record BlobWriter : Type 0 where
  pub max_size : ℕ
  pub staged : Option Text
  pub hashed : Text
  pub size : ℕ
  pub done : Bool
  pub released : ℕ

-- What file.Write does: the bytes that it takes, no more than it is given, and whether it fails.
pub record FileWrite : Type 0 where
  pub taken : ℕ
  pub fails : Bool

pub data UploadError : Type 0 where
  finalized too_large write_failed digest_mismatch no_data sync_failed rewind_failed : UploadError

-- newDiskBlobWriter
unfoldable pub new_disk_blob_writer : ℕ → BlobWriter
new_disk_blob_writer max_size = record {
  max_size = max_size;
  staged = some [];
  hashed = [];
  size = 0;
  done = false;
  released = 0;
}

unfoldable pub append_staged : Text → Option Text → Option Text
append_staged p none = none
append_staged p (some content) = some (content ++ p)

unfoldable pub stage : Text → FileWrite → BlobWriter → BlobWriter × (Text × Option UploadError)
unfolding append_staged
stage p f w =
    let taken = take f.taken p in
    (
      record w {
        staged = append_staged taken w.staged;
        hashed = w.hashed ++ taken;
        size = w.size + length taken;
      },
      (taken, if f.fails then some write_failed else none),
    )

-- Write, with the bytes that it reports as written.
unfoldable pub write : Text → FileWrite → BlobWriter → BlobWriter × (Text × Option UploadError)
unfolding stage
write p f w =
    if w.done
    then (w, ([], some finalized))
    else if ltb w.max_size (w.size + length p)
    then (w, ([], some too_large))
    else stage p f w

unfoldable pub release : Option Text → BlobWriter → BlobWriter
release none w = w
release (some content) w = record w { staged = none; released = w.released + 1 }

-- cleanup
unfoldable pub cleanup : BlobWriter → BlobWriter
unfolding release
cleanup w = release w.staged w

-- Cancel
unfoldable pub cancel : BlobWriter → BlobWriter
unfolding cleanup
cancel w = cleanup (record w { done = true })

-- The outcome of Commit: its error, or the content that its callback is given with its digest.
pub data Committed : Type 0 where
  refused : UploadError → Committed
  handed_over : Text → Text → Committed

module _ (sha256_hex : Text → Text) where
  unfoldable pub read_staged : Text → Bool → Bool → Option Text → Committed
  read_staged digest syncs rewinds none = refused no_data
  read_staged digest syncs rewinds (some content) =
      if syncs
      then if rewinds then handed_over digest content else refused rewind_failed
      else refused sync_failed

  -- Commit, given whether the file can be synced and rewound.
  unfoldable pub commit : Text → Bool → Bool → BlobWriter → BlobWriter × Committed
  unfolding read_staged cleanup
  commit digest syncs rewinds w = if w.done then (w, refused finalized) else (
    cleanup (record w { done = true }),
    if text_eq (codes "sha256:" ++ sha256_hex w.hashed) digest
        then read_staged digest syncs rewinds w.staged
        else refused digest_mismatch,
  )
