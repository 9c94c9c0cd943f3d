-- ===== src/Inbox/Blocking.antt =====
-- What pausing and resuming do to the blocklist (isBlocked of internal/activitypub/inbox.go).
use apoci.Prelude.{Text, text_eq, ◌≡◌, refl, true, ◌||◌, some, [], ◌∷◌, arith, ap, text_eq_iff}
use apoci.Prelude.Maps
use apoci.Prelude.Maps.{Map, get-put, get-delete}
use apoci.Urls.{Url, Urls}
use apoci.Inbox.{
  BlockSets, matches_domain, is_blocked, any_key, pause_domain, pause_actor, resume_actor,
  normalise_actor_key,
}

module _ (urls : Urls) where
  open urls use {parse, hostname}

  any_key-delete :
      (host d : Text) (m : Map (Unit {0}))
      → matches_domain host d || any_key urls host (Maps.delete d m)
        ≡ matches_domain host d || any_key urls host m
  unfolding any_key Maps.delete
  any_key-delete host d [] = refl
  any_key-delete host d ((e, x) ∷ m) =
      let same : text_eq e d ≡ true → matches_domain host e ≡ matches_domain host d =
        λ h. ap (matches_domain host) ((text_eq_iff e d).0 h) in
      ground (arith, any_key-delete host d m, same)

  any_key-put :
      (host d : Text) (m : Map (Unit {0}))
      → any_key urls host (Maps.put d tt m) ≡ matches_domain host d || any_key urls host m
  unfolding any_key Maps.put
  any_key-put host d m = ground (arith, any_key-delete host d m)

  -- Pausing a domain blocks every actor whose host is the domain or lies below it, and unblocks
  -- nobody and blocks nobody else.
  pub is_blocked-pause_domain :
      (domain actor_url : Text) (bs : BlockSets) (u : Url)
      → parse actor_url ≡ some u
      → is_blocked urls (pause_domain urls domain bs) actor_url
        ≡ is_blocked urls bs actor_url || matches_domain (hostname u) domain
  unfolding is_blocked pause_domain
  is_blocked-pause_domain domain actor_url bs u h =
      let step = any_key-put (hostname u) domain bs.domains in ground (arith, step)

  -- Pausing an actor blocks every URL of the same normalised form, until it is resumed: then only
  -- the blocked domains decide.
  pub is_blocked-pause_actor :
      (paused actor_url : Text) (bs : BlockSets)
      → text_eq (normalise_actor_key urls paused) (normalise_actor_key urls actor_url) ≡ true
      → (is_blocked urls (pause_actor urls paused bs) actor_url ≡ true)
        × (is_blocked urls (resume_actor urls paused (pause_actor urls paused bs)) actor_url
            ≡ is_blocked urls (record bs { actors = [] }) actor_url)
  unfolding is_blocked pause_actor resume_actor Maps.get
  is_blocked-pause_actor paused actor_url bs same =
      let k = normalise_actor_key urls paused in
      let j = normalise_actor_key urls actor_url in
      (
        ground (arith, get-put k j tt bs.actors),
        ground (arith, get-delete k j (Maps.put k tt bs.actors)),
      )
