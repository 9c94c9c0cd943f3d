-- ===== src/Registry/Blobs.antt =====
-- The blobs of the registry tables: internal/database/blobs.go, PutManifestLayers of packages.go
-- and PutPeerBlob of actors.go.
use apoci.Prelude.{
  ℕ, Text, text_eq, Bool, true, false, ◌&&◌, ◌||◌, Option, none, some, List, [], ◌∷◌, ◌==◌, ltb,
  any, if◌then◌else◌,
}
use apoci.Prelude.Maps
use apoci.Registry.{Db, BlobRef, File, Blob, PeerBlob, remove_where}

abbrev pub is_file : ℕ → Text → File → Bool
is_file version_id digest f = (f.version_id == version_id) && text_eq f.blob_digest digest

is_empty : Text → Bool
is_empty [] = true
is_empty (_ ∷ _) = false

put_file : ℕ → BlobRef → List File → List File
put_file version_id r [] =
    record { version_id = version_id; blob_digest = r.digest; size_bytes = r.size } ∷ []
put_file version_id r (f ∷ fs) =
    let rest = put_file version_id r fs in
    if is_file version_id r.digest f
    then record f { size_bytes = if ltb 0 r.size then r.size else f.size_bytes } ∷ fs
    else f ∷ rest

-- PutManifestLayers: one upsert for each reference with a digest, in one transaction.
unfoldable pub put_files : ℕ → List BlobRef → List File → List File
unfolding put_file is_empty
put_files version_id [] fs = fs
put_files version_id (r ∷ rs) fs =
    put_files version_id rs (if is_empty r.digest then fs else put_file version_id r fs)

merge_blob : ℕ → ℕ → Bool → Option Blob → Blob
merge_blob now size stored none = record {
  size_bytes = size;
  stored_locally = stored;
  created_at = now;
}
merge_blob now size stored (some b) = record b {
  size_bytes = if stored then size else b.size_bytes;
  stored_locally = b.stored_locally || stored;
}

-- PutBlob, without the media type.
unfoldable pub put_blob : ℕ → Text → ℕ → Bool → Db → Db
unfolding merge_blob
put_blob now digest size stored db = record db {
  blobs = Maps.put digest (merge_blob now size stored (Maps.get digest db.blobs)) db.blobs;
}

abbrev pub is_peer_blob : Text → Text → PeerBlob → Bool
is_peer_blob actor digest b = text_eq b.peer_actor actor && text_eq b.blob_digest digest

-- PutPeerBlob
unfoldable pub put_peer_blob : ℕ → Text → Text → Text → Db → Db
unfolding remove_where
put_peer_blob now actor digest endpoint db = record db {
  peer_blobs =
      record {
        peer_actor = actor;
        blob_digest = digest;
        peer_endpoint = endpoint;
        last_verified_at = now;
      }
      ∷ remove_where (is_peer_blob actor digest) db.peer_blobs;
}

-- IsBlobReferenced
unfoldable pub is_blob_referenced : Text → Db → Bool
is_blob_referenced digest db = any (λ f. text_eq f.blob_digest digest) db.files

-- HasPeerBlob
unfoldable pub has_peer_blob : Text → Db → Bool
has_peer_blob digest db = any (λ b. text_eq b.blob_digest digest) db.peer_blobs
