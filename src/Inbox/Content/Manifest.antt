-- ===== src/Inbox/Content/Manifest.antt =====
-- ingestManifest of internal/activitypub/inbox_content.go.
use apoci.Prelude.{
  ℕ, Text, codes, ◌++◌, ◌&&◌, ◌||◌, not, Option, none, some, text_eq, leb, if◌then◌else◌, length,
}
use apoci.Prelude.Maps.{Map}
use apoci.Activity.{Value, Number, text_field, number_field}
use apoci.Validate
use apoci.Registry
use apoci.Registry.{Db, Package, Version}
use apoci.Inbox.{Config, is_empty}
use apoci.Inbox.Action.{
  Action, db_failed, not_authorized, missing_field, invalid_name, invalid_digest,
  invalid_media_type, invalid_size, invalid_tag, foreign_namespace, content_too_large,
  digest_mismatch, pure, fail, gets, change, check, require, ◌>>=◌, ◌>>◌,
}
use apoci.Inbox.Content.{
  State, Env, find_repo, check_owner, create_repo, store_manifest, query, execute,
  repo_owned_by_sender, fetch_sender_namespace,
}
use apoci.Inbox.Content.Ingest.{
  positive_up_to, size_of, optional, store_tag_of, record_layers_and_replicate,
}

-- What the handler reads of the object.
pub record Fields : Type 0 where
  pub repo : Text
  pub digest : Text
  pub media_type : Text
  pub size : Number
  pub tag : Text
  pub subject : Text
  pub encoded : Text

unfoldable pub fields_of : Map Value → Fields
fields_of obj = record {
  repo = text_field (codes "ociRepository") obj;
  digest = text_field (codes "ociDigest") obj;
  media_type = text_field (codes "ociMediaType") obj;
  size = number_field (codes "ociSize") obj;
  tag = text_field (codes "ociTag") obj;
  subject = text_field (codes "ociSubjectDigest") obj;
  encoded = text_field (codes "ociContent") obj;
}

module _ (cfg : Config) (env : Env) where
  open env use {fails}

  -- The checks that only look at the object.
  unfoldable pub check_fields : Fields → Action State Unit
  unfolding positive_up_to
  check_fields o =
      require (not (is_empty o.repo || is_empty o.digest)) missing_field
      >> require (Validate.repo_name o.repo) invalid_name
      >> require (Validate.digest o.digest) invalid_digest
      >> require (not (is_empty o.media_type) && Validate.media_type o.media_type)
          invalid_media_type
      >> require (positive_up_to cfg.max_manifest_size o.size) invalid_size
      >> require (Validate.tag o.tag) invalid_tag

  unfoldable pub created : State → Option (Package × Db) → Action State ℕ
  created s none = fail db_failed
  created s (some (p, db)) = change (λ s'. record s' { db = db }) >> pure p.id

  unfoldable pub create_repository : Text → Text → Action State ℕ
  unfolding created
  create_repository repo actor_url =
      if fails create_repo
      then fail db_failed
      else gets (λ s. s) >>= λ s. created s (Registry.get_or_create_repository repo actor_url s.db)

  unfoldable pub own_or_create : Text → Text → Option Package → Action State ℕ
  unfolding create_repository
  own_or_create repo actor_url (some p) =
      if fails check_owner
      then fail db_failed
      else check (λ s. Registry.is_repository_owner p.id actor_url s.db) not_authorized >> pure p.id
  own_or_create repo actor_url none = create_repository repo actor_url

  -- The repository that the manifest goes to.
  unfoldable pub target_repository : Text → Text → Action State ℕ
  unfolding own_or_create
  target_repository repo actor_url =
      query env find_repo (λ s. Registry.get_repository repo s.db) >>= own_or_create repo actor_url

  unfoldable pub decoded_content : Text → Option Text → Action State (Option Text)
  decoded_content digest none = pure none
  decoded_content digest (some decoded) =
      require (leb (length decoded) cfg.max_manifest_size) content_too_large
      >> require (text_eq (codes "sha256:" ++ env.sha256_hex decoded) digest) digest_mismatch
      >> pure (some decoded)

  -- The content that the sender includes; one that does not decode is dropped.
  unfoldable pub verified_content : Text → Text → Action State (Option Text)
  unfolding decoded_content
  verified_content encoded digest =
      if is_empty encoded then pure none else decoded_content digest (env.decode_base64 encoded)

  -- The verified length before the one that the sender claims.
  unfoldable pub size_bytes : Number → Option Text → ℕ
  unfolding size_of
  size_bytes claimed none = size_of claimed
  size_bytes claimed (some content) = length content

  unfoldable pub manifest_row : Fields → Text → ℕ → Option Text → Version
  unfolding size_bytes optional
  manifest_row o actor_url id content = record {
    id = 0;
    package_id = id;
    version = o.digest;
    metadata = content;
    media_type = o.media_type;
    size_bytes = size_bytes o.size content;
    source_actor = some actor_url;
    subject_digest = optional o.subject;
    created_at = env.now;
  }

  unfoldable pub store_optional_tag : ℕ → Text → Text → Action State Unit
  unfolding store_tag_of
  store_optional_tag id tag digest =
      if is_empty tag then pure tt else store_tag_of cfg env id tag digest

  unfoldable pub store_content : Fields → Text → ℕ → Option Text → Action State Unit
  unfolding record_layers_and_replicate store_optional_tag manifest_row
  store_content o actor_url id content =
      execute env store_manifest (Registry.put_manifest (manifest_row o actor_url id content))
      >> record_layers_and_replicate cfg env content id o.digest
      >> store_optional_tag id o.tag o.digest

  unfoldable pub store_in : Fields → Text → ℕ → Action State Unit
  unfolding verified_content store_content
  store_in o actor_url id =
      require (is_empty o.subject || Validate.digest o.subject) invalid_digest
      >> verified_content o.encoded o.digest
      >>= store_content o actor_url id

  unfoldable pub scoped : Fields → Text → Text → Action State Unit
  unfolding target_repository store_in
  scoped o actor_url ns =
      require (repo_owned_by_sender env o.repo ns) foreign_namespace
      >> target_repository o.repo actor_url
      >>= store_in o actor_url

  -- ingestManifest
  unfoldable pub ingest_manifest : Map Value → Text → Action State Unit
  unfolding check_fields fetch_sender_namespace scoped
  ingest_manifest obj actor_url =
      let o = fields_of obj in
      check_fields o >> fetch_sender_namespace env actor_url >>= scoped o actor_url
