-- ===== src/Tests/Follows.antt =====
-- Runs of the handlers of Follow, Accept, Reject and Undo.
use apoci.Prelude.{refl, true, false, none, [], codes, text_eq}
use apoci.Activity.{RawActivity, object_id}
use apoci.Actors.Isolation.{SameAt}
use apoci.Inbox.{Config, accept_none, accept_all}
use apoci.Inbox.Follow.{State, Env, process_follow, process_accept, process_reject, process_undo}
use apoci.Inbox.Follow.Isolation.{others_untouched}
use apoci.Inbox.Follow.Policy.{IsByPolicy, followers-IsByPolicy}
use apoci.Tests.{bare_hosts, alice, bob}

abbrev by_hand : Config
by_hand = record {
  actor_url = codes "us.example";
  auto_accept = accept_none;
  allowed_domains = [];
  max_manifest_size = 100;
  max_blob_size = 100;
  has_notifier = true;
}

abbrev nobody_yet : State
nobody_yet = record { store = record { actors = []; requests = [] }; accepts = []; notices = [] }

abbrev pub calm : Env
calm = record { now = 5; faults = λ _. false; alias = none; send_works = true }

-- Alice asks to follow us.
abbrev pub asking : RawActivity
asking = record {
  id = codes "1";
  kind = codes "Follow";
  actor = alice;
  object = object_id (codes "us.example");
}

abbrev open_to_all : Config
open_to_all = record by_hand { auto_accept = accept_all }

followers-IsByPolicy_example : IsByPolicy bare_hosts open_to_all calm asking [] nobody_yet alice
followers-IsByPolicy_example =
    followers-IsByPolicy bare_hosts open_to_all calm asking [] nobody_yet alice

others_untouched_example :
    SameAt bob nobody_yet.store
      (process_follow bare_hosts open_to_all calm asking [] nobody_yet).0.store
    × SameAt bob nobody_yet.store
        (process_accept bare_hosts open_to_all calm asking nobody_yet).0.store
    × SameAt bob nobody_yet.store
        (process_reject bare_hosts open_to_all calm asking nobody_yet).0.store
    × SameAt bob nobody_yet.store
        (process_undo bare_hosts open_to_all calm asking nobody_yet).0.store
others_untouched_example =
    others_untouched bare_hosts open_to_all calm asking [] bob nobody_yet (unfold text_eq in refl)
