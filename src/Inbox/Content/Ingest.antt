-- ===== src/Inbox/Content/Ingest.antt =====
-- The handlers of internal/activitypub/inbox_content.go that write: manifests, tags and blobs of a
-- remote actor, and their deletion. Logging is left out.
use apoci.Prelude.{
  ℕ, Text, codes, [], ◌∷◌, List, ◌++◌, Bool, false, ◌&&◌, ◌||◌, not, Option, none, some, text_eq,
  to_lower, if◌then◌else◌, ltb, leb, ◌==◌,
}
use apoci.Prelude.Maps
use apoci.Prelude.Maps.{Map}
use apoci.Activity.{Value, Number, whole, negative, text_field, number_field}
use apoci.Actors.{Actor}
use apoci.Validate
use apoci.Registry
use apoci.Registry.Blobs
use apoci.Registry.{Db, Package, Version, PeerBlob, Blob, BlobRef}
use apoci.Inbox.{Config, is_empty}
use apoci.Inbox.Action.{
  Action, db_failed, missing_field, invalid_name, invalid_digest, invalid_size, invalid_tag,
  manifest_not_found, bad_endpoint, no_namespace, pure, fail, gets, change, require, ◌>>=◌, ◌>>◌,
}
use apoci.Inbox.Content.{
  State, Env, Request, drop_manifest, drop_tag, note_deleted, find_manifest, store_layers,
  store_tag, store_peer_blob, store_blob, find_peers, find_blob, query, execute, attempt_write,
  require_repo_owner, sender_domain_from_actor_url, peer_endpoint, extract_layer_refs,
}

-- size <= 0 || size > max
unfoldable pub positive_up_to : ℕ → Number → Bool
positive_up_to max (whole n) = ltb 0 n && leb n max
positive_up_to max (negative n) = false

-- size < 0 || size > max; a JSON "-0" is not negative.
unfoldable pub up_to : ℕ → Number → Bool
up_to max (whole n) = leb n max
up_to max (negative n) = n == 0

-- int64(size), behind a test that the size is not negative.
unfoldable pub size_of : Number → ℕ
size_of (whole n) = n
size_of (negative n) = 0

unfoldable pub optional : Text → Option Text
optional [] = none
optional (c ∷ s) = some (c ∷ s)

module _ (cfg : Config) (env : Env) where
  open env use {urls, fails, now}

  -- if repoObj == nil { return nil }
  unfoldable pub with_repo : (ℕ → Action State Unit) → Option Package → Action State Unit
  with_repo k none = pure tt
  with_repo k (some p) = k p.id

  unfoldable pub put_tag_result : State → Option Db → Action State Unit
  put_tag_result s none = fail db_failed
  put_tag_result s (some db) = change (λ s'. record s' { db = db })

  -- db.PutTag and its error; a tag of a repository that is gone is refused.
  unfoldable pub store_tag_of : ℕ → Text → Text → Action State Unit
  unfolding put_tag_result
  store_tag_of id name digest =
      if fails store_tag
      then fail db_failed
      else gets (λ s. s) >>= λ s. put_tag_result s (Registry.put_tag now id name digest s.db)

  unfoldable pub delete_from : Text → Text → Text → ℕ → Action State Unit
  delete_from repo digest actor_url id =
      execute env drop_manifest (Registry.delete_manifest id digest)
      >> attempt_write env note_deleted (Registry.record_deleted_manifest now digest repo actor_url)

  -- deleteManifest
  unfoldable pub delete_manifest : Map Value → Text → Action State Unit
  unfolding with_repo delete_from
  delete_manifest obj actor_url =
      let repo = text_field (codes "ociRepository") obj in
      let digest = text_field (codes "ociDigest") obj in
      require (not (is_empty repo || is_empty digest)) missing_field
      >> require_repo_owner env repo actor_url
      >>= with_repo (delete_from repo digest actor_url)

  -- deleteTag
  unfoldable pub delete_tag : Map Value → Text → Action State Unit
  unfolding with_repo
  delete_tag obj actor_url =
      let repo = text_field (codes "ociRepository") obj in
      let tag = text_field (codes "ociTag") obj in
      require (not (is_empty repo || is_empty tag)) missing_field
      >> require_repo_owner env repo actor_url
      >>= with_repo (λ id. execute env drop_tag (Registry.delete_tag id tag))

  -- The row of GetManifestByDigest, whose absence is an error.
  unfoldable pub tag_found : ℕ → Text → Text → Option Version → Action State Unit
  unfolding store_tag_of
  tag_found id tag digest none = fail manifest_not_found
  tag_found id tag digest (some v) = store_tag_of id tag digest

  unfoldable pub tag_manifest : Text → Text → ℕ → Action State Unit
  unfolding tag_found
  tag_manifest tag digest id =
      query env find_manifest (λ s. Registry.get_manifest_by_digest id digest s.db)
      >>= tag_found id tag digest

  -- ingestTag
  unfoldable pub ingest_tag : Map Value → Text → Action State Unit
  unfolding with_repo tag_manifest
  ingest_tag obj actor_url =
      let repo = text_field (codes "ociRepository") obj in
      let tag = text_field (codes "ociTag") obj in
      let digest = text_field (codes "ociDigest") obj in
      require (not (is_empty repo || is_empty tag || is_empty digest)) missing_field
      >> require (Validate.repo_name repo) invalid_name
      >> require (Validate.tag tag) invalid_tag
      >> require (Validate.digest digest) invalid_digest
      >> require_repo_owner env repo actor_url
      >>= with_repo (tag_manifest tag digest)

  latest : Option PeerBlob → PeerBlob → PeerBlob
  latest none b = b
  latest (some c) b = if leb c.last_verified_at b.last_verified_at then b else c

  is_healthy : Option Actor → Bool
  is_healthy none = false
  is_healthy (some a) = a.is_healthy

  -- FindPeersWithBlob: the first row, the one of a healthy actor that was verified last.
  unfoldable pub best_peer : Text → State → List PeerBlob → Option PeerBlob
  unfolding latest is_healthy
  best_peer digest s [] = none
  best_peer digest s (b ∷ bs) =
      let rest = best_peer digest s bs in
      if text_eq b.blob_digest digest && is_healthy (Maps.get b.peer_actor s.store.actors)
      then some (latest rest b)
      else rest

  wanted : BlobRef → Option PeerBlob → Option Blob → List Request
  wanted r none b = []
  wanted r (some p) none = []
  wanted r (some p) (some b) =
      if b.stored_locally
      then []
      else record { endpoint = p.peer_endpoint; digest = r.digest; size = b.size_bytes } ∷ []

  -- One round of the loop of recordLayersAndReplicate.
  request_of : State → BlobRef → List Request
  unfolding wanted best_peer
  request_of s r =
      if fails (find_peers r.digest) || fails (find_blob r.digest)
      then []
      else wanted r (best_peer r.digest s s.db.peer_blobs) (Maps.get r.digest s.db.blobs)

  unfoldable pub requests_of : State → List BlobRef → List Request
  unfolding request_of
  requests_of s [] = []
  requests_of s (r ∷ rs) = request_of s r ++ requests_of s rs

  unfoldable pub request_layers : List BlobRef → Action State Unit
  unfolding requests_of
  request_layers refs =
      if env.has_replicator
      then change (λ s. record s { requests = s.requests ++ requests_of s refs })
      else pure tt

  unfoldable pub layers_of : List BlobRef → Option Version → Action State Unit
  unfolding request_layers
  layers_of refs none = pure tt
  layers_of refs (some man) =
      attempt_write env store_layers
        (λ db. record db { files = Blobs.put_files man.id refs db.files })
      >> request_layers refs

  unfoldable pub record_refs : ℕ → Text → List BlobRef → Action State Unit
  unfolding layers_of
  record_refs id digest [] = pure tt
  record_refs id digest (r ∷ rs) =
      if fails find_manifest
      then pure tt
      else gets (λ s. Registry.get_manifest_by_digest id digest s.db) >>= layers_of (r ∷ rs)

  -- recordLayersAndReplicate
  unfoldable pub record_layers_and_replicate : Option Text → ℕ → Text → Action State Unit
  unfolding record_refs
  record_layers_and_replicate none id digest = pure tt
  record_layers_and_replicate (some content) id digest =
      record_refs id digest (extract_layer_refs env content)

  -- strings.ToLower(endpointURL.Hostname()) == senderDomain
  unfoldable pub endpoint_matches : Text → Text → Bool
  endpoint_matches endpoint domain = elim (urls.parse endpoint) [
    | none ↦ false
    | some u ↦ text_eq (to_lower (urls.hostname u)) domain
  ]

  unfoldable pub request_blob : Text → Text → ℕ → Action State Unit
  request_blob endpoint digest size =
      if env.has_replicator
      then change (λ s. record s {
        requests = s.requests ++ record { endpoint = endpoint; digest = digest; size = size } ∷ [];
      })
      else pure tt

  unfoldable pub blob_from : Map Value → Text → Option Text → Action State Unit
  unfolding endpoint_matches request_blob
  blob_from obj actor_url none = fail no_namespace
  blob_from obj actor_url (some domain) =
      let digest = text_field (codes "ociDigest") obj in
      let endpoint = text_field (codes "ociEndpoint") obj in
      let size = number_field (codes "ociSize") obj in
      require (endpoint_matches endpoint domain) bad_endpoint
      >> require (up_to cfg.max_blob_size size) invalid_size
      >> execute env store_peer_blob (Blobs.put_peer_blob now actor_url digest endpoint)
      >> execute env store_blob (Blobs.put_blob now digest (size_of size) false)
      >> request_blob endpoint digest (size_of size)

  -- ingestBlobRef
  unfoldable pub ingest_blob_ref : Map Value → Text → Action State Unit
  unfolding blob_from
  ingest_blob_ref obj actor_url =
      let digest = text_field (codes "ociDigest") obj in
      let endpoint = text_field (codes "ociEndpoint") obj in
      require (not (is_empty digest || is_empty endpoint)) missing_field
      >> require (Validate.digest digest) invalid_digest
      >> require (peer_endpoint env endpoint) bad_endpoint
      >> blob_from obj actor_url (sender_domain_from_actor_url env actor_url)
