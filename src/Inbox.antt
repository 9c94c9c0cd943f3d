-- ===== src/Inbox.antt =====
-- InboxHandler of internal/activitypub/inbox.go: its configuration, the actor URLs it compares, its
-- allowlist and blocklist. The handlers are in the modules below.
pub mod Follow
pub mod Action
pub mod Content
pub mod Blocking
pub mod Gate
use mathlib.Core.List.{reverse}
use apoci.Prelude.{
  ℕ, Text, codes, [], ◌∷◌, List, ◌++◌, Bool, true, false, ◌||◌, Option, none, some, text_eq,
  has_suffix, before, to_lower, if◌then◌else◌, any, ◌==◌,
}
use apoci.Prelude.Maps
use apoci.Prelude.Maps.{Map}
use apoci.Urls.{Url, Urls}

-- The values of `autoAccept` that the code tells apart; any other text acts as `accept_none`.
pub data AutoAccept : Type 0 where
  accept_none accept_all accept_mutual : AutoAccept

-- blockSets: the blocked domains, and the blocked actors by normalised URL.
pub record BlockSets : Type 0 where
  pub domains : Map (Unit {0})
  pub actors : Map (Unit {0})

pub record Config : Type 0 where
  pub actor_url : Text  -- h.identity.ActorURL
  pub auto_accept : AutoAccept
  pub allowed_domains : List Text
  pub max_manifest_size : ℕ
  pub max_blob_size : ℕ
  pub has_notifier : Bool

-- strings.TrimRight(s, "/")
trim_slashes : Text → Text
trim_slashes [] = []
trim_slashes (a ∷ s) = elim (trim_slashes s) [
  | [] ↦ if a == b'/' then [] else a ∷ []
  | c ∷ rest ↦ a ∷ c ∷ rest
]

-- keyIDToActorURL: what stands before the fragment.
unfoldable pub key_id_to_actor_url : Text → Text
key_id_to_actor_url = before b'#'

-- matchesDomain
unfoldable pub matches_domain : Text → Text → Bool
matches_domain host domain = text_eq host domain || has_suffix host (b'.' ∷ domain)

abbrev pub is_empty : Text → Bool
is_empty [] = true
is_empty (_ ∷ _) = false

module _ (urls : Urls) where
  open urls use {parse, hostname, to_string}

  normalise : Url → Text
  unfolding trim_slashes
  normalise u = trim_slashes (
      to_string (record u {
        fragment = [];
        raw_query = [];
        host = to_lower u.host;
        scheme = to_lower u.scheme;
      }))

  -- normaliseActorURL; `none` is its error.
  unfoldable pub normalise_actor_url : Text → Option Text
  unfolding normalise
  normalise_actor_url raw = elim (parse raw) [
    | none ↦ none
    | some u ↦ if is_empty u.scheme || is_empty u.host then none else some (normalise u)
  ]

  or_raw : Text → Option Text → Text
  or_raw raw none = raw
  or_raw raw (some n) = n

  unfoldable pub normalise_actor_key : Text → Text
  unfolding or_raw
  normalise_actor_key raw = or_raw raw (normalise_actor_url raw)

  -- The loop over allowed domains that shouldAutoAccept and checkActorDomainAllowed share.
  unfoldable pub host_allowed : List Text → Text → Bool
  host_allowed domains actor_url = elim (parse actor_url) [
    | none ↦ false
    | some u ↦ any (matches_domain (hostname u)) domains
  ]

  -- checkActorDomainAllowed; `true` is the nil error.
  unfoldable pub check_actor_domain_allowed : List Text → Text → Bool
  unfolding host_allowed
  check_actor_domain_allowed [] actor_url = true
  check_actor_domain_allowed (d ∷ ds) actor_url = host_allowed (d ∷ ds) actor_url

  unfoldable pub any_key : Text → Map (Unit {0}) → Bool
  any_key host [] = false
  any_key host ((d, _) ∷ ds) =
      let rest = any_key host ds in if matches_domain host d then true else rest

  unfoldable pub is_in : Option (Unit {0}) → Bool
  is_in none = false
  is_in (some _) = true

  unfoldable pub is_blocked : BlockSets → Text → Bool
  unfolding any_key is_in
  is_blocked bs actor_url =
      if is_in (Maps.get (normalise_actor_key actor_url) bs.actors)
      then true
      else elim (parse actor_url) [ none ↦ false | some u ↦ any_key (hostname u) bs.domains ]

  unfoldable pub pause_domain : Text → BlockSets → BlockSets
  pause_domain domain bs = record bs { domains = Maps.put domain tt bs.domains }

  unfoldable pub resume_domain : Text → BlockSets → BlockSets
  resume_domain domain bs = record bs { domains = Maps.delete domain bs.domains }

  unfoldable pub pause_actor : Text → BlockSets → BlockSets
  pause_actor actor_url bs = record bs {
    actors = Maps.put (normalise_actor_key actor_url) tt bs.actors;
  }

  unfoldable pub resume_actor : Text → BlockSets → BlockSets
  resume_actor actor_url bs = record bs {
    actors = Maps.delete (normalise_actor_key actor_url) bs.actors;
  }
