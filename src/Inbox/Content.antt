-- ===== src/Inbox/Content.antt =====
-- internal/activitypub/inbox_content.go: the parts that its handlers share. The database, the
-- namespace cache and the requests of replication are the state; the JSON and base64 decoders, the
-- hash, the public suffix list and the fetch of an actor document are parameters.

pub mod Ingest
pub mod Manifest
pub mod Process
pub mod Rows
pub mod Held
pub mod Calls
pub mod Handlers
pub mod Owners
pub mod Digests
use apoci.Prelude.{
  ℕ, Text, codes, [], ◌∷◌, List, ◌++◌, Bool, true, false, ◌&&◌, ◌||◌, not, Option, none, some,
  text_eq, has_suffix, before, to_lower, if◌then◌else◌, any, ltb, is_some,
}
use apoci.Prelude.Maps
use apoci.Prelude.Maps.{Map}
use apoci.Urls.{Url, Urls}
use apoci.Actors.{Store}
use apoci.Registry
use apoci.Registry.{Db, Package, BlobRef}
use apoci.Inbox.{is_empty}
use apoci.Inbox.Action.{
  Action, IngestError, db_failed, not_authorized, no_namespace, pure, fail, gets, change, check,
  require, ◌>>=◌, ◌>>◌,
}

-- A request to the blob replicator: the peer's endpoint, the digest, the size.
pub record Request : Type 0 where
  pub endpoint : Text
  pub digest : Text
  pub size : ℕ

pub record State : Type 0 where
  pub db : Db
  pub store : Store
  pub ns_cache : Map Text
  pub requests : List Request
  pub invalidated : List Text

-- The calls of the database that may fail; those of a loop carry the digest.
pub data Call : Type 0 where
  find_repo check_owner create_repo drop_manifest drop_tag note_deleted : Call
  store_manifest find_manifest store_layers store_tag store_peer_blob store_blob : Call
  find_peers find_blob : Text → Call

-- A manifest as encoding/json reads it: the fields of extractLayerRefs, absent ones empty.
pub record ManifestDoc : Type 0 where
  pub config : BlobRef
  pub layers : List BlobRef
  pub manifests : List BlobRef

pub record Env : Type 0 where
  pub urls : Urls
  pub now : ℕ
  pub fails : Call → Bool
  -- The actor document's ociNamespace; `none` where the fetch fails.
  pub fetch_namespace : Text → Option Text
  -- publicsuffix.EffectiveTLDPlusOne; `none` is its error.
  pub effective_tld_plus_one : Text → Option Text
  -- base64.StdEncoding.DecodeString; `none` is its error.
  pub decode_base64 : Text → Option Text
  -- sha256.Sum256 and hex.EncodeToString
  pub sha256_hex : Text → Text
  -- json.Unmarshal; `none` is its error.
  pub unmarshal : Text → Option ManifestDoc
  -- net.ParseIP succeeds, and IPNet.Contains of the network written so.
  pub is_ip : Text → Bool
  pub contains : Text → Text → Bool
  pub allow_private_ips : Bool
  pub has_replicator : Bool
  pub has_actor_cache : Bool

module _ (env : Env) where
  open env use {urls, fails}

  -- Reads of the database, whose failure is the handler's.
  unfoldable pub query : {A : Type 0} → Call → (State → A) → Action State A
  query call f = if fails call then fail db_failed else gets f

  -- Writes of the database; a statement that fails changes nothing.
  unfoldable pub execute : Call → (Db → Db) → Action State Unit
  execute call f = if fails call then fail db_failed else change (λ s. record s { db = f s.db })

  -- A write whose failure is only logged.
  unfoldable pub attempt_write : Call → (Db → Db) → Action State Unit
  attempt_write call f = if fails call then pure tt else change (λ s. record s { db = f s.db })

  -- IsRepositoryOwner, where its error counts as a refusal.
  unfoldable pub require_owner : ℕ → Text → Action State Unit
  require_owner id actor_url =
      if fails check_owner
      then fail not_authorized
      else check (λ s. Registry.is_repository_owner id actor_url s.db) not_authorized

  unfoldable pub owned : Text → Option Package → Action State (Option Package)
  unfolding require_owner
  owned actor_url none = pure none
  owned actor_url (some p) = require_owner p.id actor_url >> pure (some p)

  -- requireRepoOwner
  unfoldable pub require_repo_owner : Text → Text → Action State (Option Package)
  unfolding owned
  require_repo_owner repo actor_url =
      if fails find_repo
      then pure none
      else gets (λ s. Registry.get_repository repo s.db) >>= owned actor_url

  -- senderDomainFromActorURL; `none` is its error.
  unfoldable pub sender_domain_from_actor_url : Text → Option Text
  sender_domain_from_actor_url actor_url = elim (urls.parse actor_url) [
    | none ↦ none
    | some u ↦ if is_empty (urls.hostname u) then none else some (to_lower (urls.hostname u))
  ]

  -- repoOwnedBySender
  unfoldable pub repo_owned_by_sender : Text → Text → Bool
  repo_owned_by_sender repo sender_domain = text_eq (to_lower (before b'/' repo)) sender_domain

  under_registrable : Text → Option Text → Bool
  under_registrable ns none = false
  under_registrable ns (some etld1) = text_eq ns etld1 || has_suffix ns (b'.' ∷ etld1)

  lower_namespace_for_host : Text → Text → Bool
  unfolding under_registrable
  lower_namespace_for_host ns host =
      text_eq ns host
      || (has_suffix host (b'.' ∷ ns) && under_registrable ns (env.effective_tld_plus_one host))

  -- validNamespaceForHost
  unfoldable pub valid_namespace_for_host : Text → Text → Bool
  unfolding lower_namespace_for_host
  valid_namespace_for_host ns actor_host =
      lower_namespace_for_host (to_lower ns) (to_lower actor_host)

  unfoldable pub claimed_or_host : Text → Option Text → Text
  claimed_or_host actor_host none = actor_host
  claimed_or_host actor_host (some ns) =
      if is_empty ns || not (valid_namespace_for_host ns actor_host) then actor_host else ns

  unfoldable pub remember : Text → Text → Action State Text
  remember actor_url ns =
      change (λ s. record s { ns_cache = Maps.put actor_url ns s.ns_cache }) >> pure ns

  unfoldable pub fetch_uncached : Text → Option Text → Action State Text
  unfolding claimed_or_host remember
  fetch_uncached actor_url none = fail no_namespace
  fetch_uncached actor_url (some host) =
      remember actor_url (claimed_or_host host (env.fetch_namespace actor_url))

  unfoldable pub from_cache : Text → Option Text → Action State Text
  unfolding fetch_uncached
  from_cache actor_url (some ns) = pure ns
  from_cache actor_url none = fetch_uncached actor_url (sender_domain_from_actor_url actor_url)

  -- fetchSenderNamespace; the cache's expiry is a later state without the entry.
  unfoldable pub fetch_sender_namespace : Text → Action State Text
  unfolding from_cache
  fetch_sender_namespace actor_url =
      gets (λ s. Maps.get actor_url s.ns_cache) >>= from_cache actor_url

  private_networks : List Text
  private_networks =
      codes "10.0.0.0/8"
      ∷ codes "172.16.0.0/12"
      ∷ codes "192.168.0.0/16"
      ∷ codes "127.0.0.0/8"
      ∷ codes "100.64.0.0/10"
      ∷ codes "169.254.0.0/16"
      ∷ codes "::1/128"
      ∷ codes "fc00::/7"
      ∷ codes "fe80::/10"
      ∷ codes "ff00::/8"
      ∷ codes "2002::/16"
      ∷ codes "64:ff9b::/96"
      ∷ []

  loopback_names : List Text
  loopback_names = codes "localhost" ∷ codes "127.0.0.1" ∷ codes "::1" ∷ codes "0.0.0.0" ∷ []

  public_host : Text → Bool
  unfolding private_networks loopback_names
  public_host host =
      not (any (text_eq host) loopback_names)
      && not (env.is_ip host && any (λ n. env.contains n host) private_networks)

  -- validate.PeerEndpoint; `true` is the nil error.
  unfoldable pub peer_endpoint : Text → Bool
  unfolding public_host
  peer_endpoint endpoint = elim (urls.parse endpoint) [
    | none ↦ false
    | some u ↦
        (text_eq u.scheme (codes "http") || text_eq u.scheme (codes "https"))
        && not (is_empty u.host)
        && (env.allow_private_ips || public_host (urls.hostname u))
  ]

  -- extractLayerRefs
  unfoldable pub extract_layer_refs : Text → List BlobRef
  extract_layer_refs content = elim (env.unmarshal content) [
    | none ↦ []
    | some doc ↦
        Registry.remove_where (λ r. is_empty r.digest) (doc.config ∷ (doc.layers ++ doc.manifests))
  ]
