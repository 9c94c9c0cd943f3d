-- ===== src/Inbox/Content/Digests.antt =====
-- What a manifest's digest says of the content that the inbox stores for it.
use mathlib.Core.Path.{subst}
use mathlib.Core.Option.{some_inj}
use apoci.Prelude.{
  ℕ, Text, ◌≡◌, ap, Option, none, some, List, [], ◌∷◌, All, arith, inl, inr, Bool-cases,
}
use apoci.Activity.{RawActivity}
use apoci.Actors.{Faults}
use apoci.Registry.{
  Package, Version, Db, is_version, upsert_version, put_manifest, delete_found, delete_manifest,
  get_manifest_by_digest, put_tag, delete_tag, record_deleted_manifest, get_or_insert,
  get_or_create_repository, get_repository,
}
use apoci.Registry.Blobs.{put_peer_blob, put_blob}
use apoci.Inbox.{Config}
use apoci.Inbox.Content.{State, Env}
use apoci.Inbox.Content.Process.{
  Ingest, process_create, process_update, process_announce, process_delete,
}
use apoci.Registry.Removal.{All-remove_where}
use apoci.Inbox.Content.Rows.{if_some}
use apoci.Inbox.Content.Handlers.{Laws, HasDigest}
use apoci.Inbox.Content.Handlers.Activities.{Respects, activities_keep}

-- Every content that is stored is the one that its row's digest names.
abbrev pub IsVerified : Env → Db → Type 0
IsVerified env db = All (HasDigest env) db.versions

module _ (env : Env) where
  moved :
      (v w : Version)
      → HasDigest env v
      → HasDigest env (record v { id = w.id; created_at = w.created_at })
  moved v w h = record { digest_of = h.digest_of }

  upsert_version-All :
      (v : Version) (vs : List Version)
      → HasDigest env v
      → All (HasDigest env) vs
      → All (HasDigest env) (upsert_version v vs)
  unfolding upsert_version
  upsert_version-All v [] good h = (good, tt)
  upsert_version-All v (w ∷ ws) good h = elim (Bool-cases (is_version v.package_id v.version w)) [
    | inl e ↦ rw e (moved v w good, h.1)
    | inr e ↦ rw e (h.0, upsert_version-All v ws good h.1)
  ]

  delete_found-IsVerified :
      (id : ℕ) (digest : Text) (found : Option Version) (db : Db)
      → IsVerified env db
      → IsVerified env (delete_found id digest found db)
  unfolding delete_found
  delete_found-IsVerified id digest none db h = h
  delete_found-IsVerified id digest (some v) db h =
      All-remove_where (HasDigest env) (is_version id digest) db.versions h

  get_or_insert-versions :
      (name actor : Text) (found : Option Package) (db db' : Db) (p : Package)
      → get_or_insert name actor found db ≡ some (p, db')
      → db.versions ≡ db'.versions
  unfolding get_or_insert
  get_or_insert-versions name actor none db db' p e =
      ap (λ (x : Package × Db). x.1.versions) (some_inj.0 e)
  get_or_insert-versions name actor (some q) db db' p e =
      ap (λ (x : Package × Db). x.1.versions) (if_some _ _ _ e)

  put_tag-versions :
      (now id : ℕ) (name digest : Text) (db db' : Db)
      → put_tag now id name digest db ≡ some db'
      → db.versions ≡ db'.versions
  unfolding put_tag
  put_tag-versions now id name digest db db' e = ap (λ (x : Db). x.versions) (if_some _ _ _ e)

  record_deleted-versions :
      (now : ℕ) (digest name actor : Text) (db : Db)
      → db.versions ≡ (record_deleted_manifest now digest name actor db).versions
  unfolding record_deleted_manifest
  record_deleted-versions now digest name actor db = ground arith

  digest_laws : (actor : Text) → Laws env actor (IsVerified env) (λ id. Unit)
  unfolding put_manifest delete_manifest delete_tag put_peer_blob put_blob get_or_create_repository
  digest_laws actor = record {
    owner = λ id db held q. tt;
    creates = λ name db db' p e h. (
      subst (All (HasDigest env))
          (get_or_insert-versions name actor (get_repository name db) db db' p e) h,
      tt,
    );
    puts_manifest = λ v db n good h.
        upsert_version-All _ db.versions (moved v (record v { id = db.next_version_id }) good) h;
    deletes_manifest = λ id digest db n h.
        delete_found-IsVerified id digest (get_manifest_by_digest id digest db) db h;
    records_deleted = λ now digest name db h.
        subst (All (HasDigest env)) (record_deleted-versions now digest name actor db) h;
    deletes_tag = λ id name db n h. h;
    puts_tag = λ now id name digest db db' n e h.
        subst (All (HasDigest env)) (put_tag-versions now id name digest db db' e) h;
    puts_files = λ fs db h. h;
    puts_peer_blob = λ now digest endpoint db h. h;
    puts_blob = λ now digest size stored db h. h;
  }

-- If every stored manifest content hashes to the digest of its row, it does so after a Create,
-- Update, Announce or Delete activity of any actor, whatever the object claims, whether the handler
-- succeeds or not and whichever database calls fail, provided that the adapters of the other
-- ecosystems keep it so.
pub activities-IsVerified :
    (cfg : Config) (env : Env) (faults : Faults) (lookup : Text → Option Ingest) (a : RawActivity)
    (s : State)
    → ((type : Text) (i : Ingest) → lookup type ≡ some i → Respects (IsVerified env) i)
    → IsVerified env s.db
    → IsVerified env (process_create cfg env faults lookup a s).1.db
      × IsVerified env (process_update cfg env faults lookup a s).1.db
      × IsVerified env (process_announce cfg env faults lookup a s).1.db
      × IsVerified env (process_delete cfg env faults lookup a s).1.db
activities-IsVerified cfg env faults lookup a s apart held =
    activities_keep cfg env faults lookup a s (IsVerified env) (λ id. Unit)
      (digest_laws env a.actor) apart held
