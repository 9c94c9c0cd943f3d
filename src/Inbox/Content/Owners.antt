-- ===== src/Inbox/Content/Owners.antt =====
-- No actor changes the manifests or the tags of a repository that another actor owns.
use apoci.Prelude.{ℕ, Text, ◌≡◌, Option, some, List}
use apoci.Activity.{RawActivity}
use apoci.Actors.{Faults}
use apoci.Registry.{Version, Tag}
use apoci.Inbox.{Config}
use apoci.Inbox.Content.{State, Env}
use apoci.Inbox.Content.Process.{
  Ingest, process_create, process_update, process_announce, process_delete,
}
use apoci.Inbox.Content.Rows.{is_repository_owner_other}
use apoci.Inbox.Content.Held.{
  IsHeld, put_manifest-IsHeld, delete_manifest-IsHeld, delete_tag-IsHeld, put_tag-IsHeld,
  get_or_create_repository-IsHeld, record_deleted_manifest-IsHeld, put_peer_blob-IsHeld,
  put_blob-IsHeld, put_files-IsHeld,
}
use apoci.Inbox.Content.Handlers.{Laws}
use apoci.Inbox.Content.Handlers.Activities.{Respects, activities_keep}

owner_laws :
    (env : Env) (pid : ℕ) (owner : Text) (versions : List Version) (tags : List Tag) (actor : Text)
    → ¬ actor ≡ owner
    → Laws env actor (IsHeld pid owner versions tags) (λ id. ¬ id ≡ pid)
owner_laws env pid owner versions tags actor other = record {
  owner = λ id db held q. is_repository_owner_other id pid actor owner db held.is_owner other q;
  creates = λ name db db' p e h. get_or_create_repository-IsHeld name actor db db' p other e h;
  puts_manifest = λ v db n good h. put_manifest-IsHeld v db n h;
  deletes_manifest = λ id digest db n h. delete_manifest-IsHeld id digest db n h;
  records_deleted =
      λ now digest name db h. record_deleted_manifest-IsHeld now digest name actor db h;
  deletes_tag = λ id name db n h. delete_tag-IsHeld id name db n h;
  puts_tag = λ now id name digest db db' n e h. put_tag-IsHeld now id name digest db db' n e h;
  puts_files = λ fs db h. put_files-IsHeld fs db h;
  puts_peer_blob = λ now digest endpoint db h. put_peer_blob-IsHeld now actor digest endpoint db h;
  puts_blob = λ now digest size stored db h. put_blob-IsHeld now digest size stored db h;
}

-- A Create, Update, Announce or Delete activity of an actor who is not `owner` leaves repository
-- `pid` with its owner, its manifests and its tags, whatever the object says, whether the handler
-- succeeds or not and whichever database calls fail, provided that the adapters of the other
-- ecosystems do so too.
pub other_owners_untouched :
    (cfg : Config) (env : Env) (faults : Faults) (lookup : Text → Option Ingest) (pid : ℕ)
    (owner : Text) (versions : List Version) (tags : List Tag) (a : RawActivity) (s : State)
    → ((type : Text) (i : Ingest)
        → lookup type ≡ some i
        → Respects (IsHeld pid owner versions tags) i)
    → ¬ a.actor ≡ owner
    → IsHeld pid owner versions tags s.db
    → IsHeld pid owner versions tags (process_create cfg env faults lookup a s).1.db
      × IsHeld pid owner versions tags (process_update cfg env faults lookup a s).1.db
      × IsHeld pid owner versions tags (process_announce cfg env faults lookup a s).1.db
      × IsHeld pid owner versions tags (process_delete cfg env faults lookup a s).1.db
other_owners_untouched cfg env faults lookup pid owner versions tags a s apart other held =
    activities_keep cfg env faults lookup a s (IsHeld pid owner versions tags) (λ id. ¬ id ≡ pid)
      (owner_laws env pid owner versions tags a.actor other) apart held
