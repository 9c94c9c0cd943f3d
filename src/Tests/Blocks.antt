-- ===== src/Tests/Blocks.antt =====
-- Runs of the blocklist.
use apoci.Prelude.{◌≡◌, refl, true, ◌||◌, [], ◌∷◌, codes, text_eq_refl}
use apoci.Urls.{Url}
use apoci.Inbox.{
  BlockSets, matches_domain, is_blocked, pause_domain, pause_actor, resume_actor,
  normalise_actor_key,
}
use apoci.Inbox.Blocking.{is_blocked-pause_domain, is_blocked-pause_actor}
use apoci.Tests.{bare_hosts, alice, bob}

abbrev one_domain : BlockSets
one_domain = record { domains = (bob, tt) ∷ []; actors = [] }

abbrev host : Url
host = record { scheme = codes "https"; host = alice; raw_query = []; fragment = []; rest = [] }

is_blocked-pause_domain_example :
    is_blocked bare_hosts (pause_domain bare_hosts (codes "example") one_domain) alice
    ≡ is_blocked bare_hosts one_domain alice || matches_domain alice (codes "example")
is_blocked-pause_domain_example =
    is_blocked-pause_domain bare_hosts (codes "example") alice one_domain host refl

is_blocked-pause_actor_example :
    (is_blocked bare_hosts (pause_actor bare_hosts alice one_domain) alice ≡ true)
    × (is_blocked bare_hosts
          (resume_actor bare_hosts alice (pause_actor bare_hosts alice one_domain))
          alice
        ≡ is_blocked bare_hosts (record one_domain { actors = [] }) alice)
is_blocked-pause_actor_example =
    is_blocked-pause_actor bare_hosts alice alice one_domain
      (text_eq_refl (normalise_actor_key bare_hosts alice))
