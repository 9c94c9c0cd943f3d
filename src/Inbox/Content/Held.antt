-- ===== src/Inbox/Content/Held.antt =====
-- A repository that keeps its owner, its manifests and its tags, under each statement.
use apoci.Prelude.{
  ℕ, ◌<◌, arith, Text, text_eq_iff, ◌≡◌, refl, Bool, true, false, not, Option, none, some, List,
  ◌==◌, if◌then◌else◌, All, All-append, ap, sym, ◌∙◌, any,
}
use mathlib.Core.Path.{subst}
use mathlib.Core.Option.{some_inj}
use apoci.Registry.{
  Package, Version, Tag, Db, owner_of, is_version, put_manifest, delete_manifest, put_tag,
  delete_tag, get_repository, get_or_create_repository, get_manifest_by_digest, points_at,
  delete_found, is_tag, get_or_insert, record_deleted_manifest, is_deleted_row, File,
}
use apoci.Registry.Blobs.{put_peer_blob, put_blob}
use apoci.Inbox.Content.Rows.{
  if_some, if_true, skip_first, find_package-All, remove_where-within, versions_of, tags_of,
  versions_of-upsert_version, owner_of-append,
}

-- Repository `pid` belongs to `owner`, its id is not given out again, and `versions` and `tags` are
-- its rows.
pub record IsHeld (pid : ℕ) (owner : Text) (versions : List Version) (tags : List Tag) (db : Db)
    : Type 0 where
  pub owned : All (λ p. (p.id ≡ pid) → p.owner_id ≡ owner) db.packages
  pub is_owner : owner_of pid db.packages ≡ some owner
  pub is_used : pid < db.next_package_id
  pub versions_kept : versions_of pid db.versions ≡ versions
  pub tags_kept : tags_of pid db.tags ≡ tags

either : (P : Db → Type 0) (b : Bool) (db db' : Db) → P db → P db' → P (if b then db else db')
either P true db db' h h' = h
either P false db db' h h' = h'

module _ {pid : ℕ} {owner : Text} {versions : List Version} {tags : List Tag} where
  -- A write to other columns, or to rows of other repositories.
  IsHeld-rows :
      (db db' : Db)
      → db.packages ≡ db'.packages
      → db.next_package_id ≡ db'.next_package_id
      → versions_of pid db'.versions ≡ versions_of pid db.versions
      → tags_of pid db'.tags ≡ tags_of pid db.tags
      → IsHeld pid owner versions tags db
      → IsHeld pid owner versions tags db'
  IsHeld-rows db db' ep en ev et h = record {
    owned = subst (All (λ p. (p.id ≡ pid) → p.owner_id ≡ owner)) ep h.owned;
    is_owner = subst (λ ps. owner_of pid ps ≡ some owner) ep h.is_owner;
    is_used = subst (λ n. pid < n) en h.is_used;
    versions_kept = ev ∙ h.versions_kept;
    tags_kept = et ∙ h.tags_kept;
  }

  pub put_manifest-IsHeld :
      (v : Version) (db : Db)
      → ¬ v.package_id ≡ pid
      → IsHeld pid owner versions tags db
      → IsHeld pid owner versions tags (put_manifest v db)
  unfolding put_manifest
  put_manifest-IsHeld v db n =
      IsHeld-rows db _ refl refl
        (versions_of-upsert_version pid (record v { id = db.next_version_id }) db.versions n) refl

  delete_found-IsHeld :
      (id : ℕ) (digest : Text) (v : Option Version) (db : Db)
      → ¬ id ≡ pid
      → IsHeld pid owner versions tags db
      → IsHeld pid owner versions tags (delete_found id digest v db)
  unfolding delete_found
  delete_found-IsHeld id digest none db n h = h
  delete_found-IsHeld id digest (some v) db n h =
      IsHeld-rows db _ refl refl
        (remove_where-within (λ v. not (v.package_id == pid)) (is_version id digest) db.versions
          (λ v e. ground arith))
        (remove_where-within (λ t. not (t.package_id == pid)) (points_at id digest) db.tags
          (λ t e. ground arith))
        h

  pub delete_manifest-IsHeld :
      (id : ℕ) (digest : Text) (db : Db)
      → ¬ id ≡ pid
      → IsHeld pid owner versions tags db
      → IsHeld pid owner versions tags (delete_manifest id digest db)
  unfolding delete_manifest
  delete_manifest-IsHeld id digest db =
      delete_found-IsHeld id digest (get_manifest_by_digest id digest db) db

  pub delete_tag-IsHeld :
      (id : ℕ) (name : Text) (db : Db)
      → ¬ id ≡ pid
      → IsHeld pid owner versions tags db
      → IsHeld pid owner versions tags (delete_tag id name db)
  unfolding delete_tag
  delete_tag-IsHeld id name db n = IsHeld-rows db _ refl refl refl (
      remove_where-within (λ t. not (t.package_id == pid)) (is_tag id name) db.tags
        (λ t e. ground arith))

  pub put_tag-IsHeld :
      (now id : ℕ) (name digest : Text) (db db' : Db)
      → ¬ id ≡ pid
      → put_tag now id name digest db ≡ some db'
      → IsHeld pid owner versions tags db
      → IsHeld pid owner versions tags db'
  unfolding put_tag
  put_tag-IsHeld now id name digest db db' n e h =
      let written = if_some _ _ _ e in
      subst (IsHeld pid owner versions tags) written (
        IsHeld-rows db _ refl refl refl
          (skip_first (λ t. not (t.package_id == pid)) _ _ (ground arith)
            ∙ remove_where-within (λ t. not (t.package_id == pid)) (is_tag id name) db.tags
                (λ t e. ground arith))
          h)

  get_or_insert-IsHeld :
      (name actor : Text) (found : Option Package) (db db' : Db) (p : Package)
      → ((q : Package) → found ≡ some q → (q.id ≡ pid) → q.owner_id ≡ owner)
      → ¬ actor ≡ owner
      → get_or_insert name actor found db ≡ some (p, db')
      → IsHeld pid owner versions tags db
      → IsHeld pid owner versions tags db' × (¬ p.id ≡ pid)
  unfolding get_or_insert
  get_or_insert-IsHeld name actor none db db' p k n e h =
      subst (λ x. IsHeld pid owner versions tags x.1 × (¬ x.0.id ≡ pid)) (some_inj.0 e)
        (
          record {
            owned =
                All-append _ db.packages _ h.owned
                  ((λ same. let used = h.is_used in ground arith), tt);
            is_owner = owner_of-append pid owner db.packages _ h.is_owner;
            is_used = let used = h.is_used in omega arith;
            versions_kept = h.versions_kept;
            tags_kept = h.tags_kept;
          },
          let used = h.is_used in λ same. omega arith,
        )
  get_or_insert-IsHeld name actor (some q) db db' p k n e h =
      subst (λ x. IsHeld pid owner versions tags x.1 × (¬ x.0.id ≡ pid)) (if_some _ _ _ e)
        (h, λ same. n (sym ((text_eq_iff q.owner_id actor).0 (if_true _ _ _ e)) ∙ k q refl same))

  pub get_or_create_repository-IsHeld :
      (name actor : Text) (db db' : Db) (p : Package)
      → ¬ actor ≡ owner
      → get_or_create_repository name actor db ≡ some (p, db')
      → IsHeld pid owner versions tags db
      → IsHeld pid owner versions tags db' × (¬ p.id ≡ pid)
  unfolding get_or_create_repository get_repository
  get_or_create_repository-IsHeld name actor db db' p n e h =
      get_or_insert-IsHeld name actor (get_repository name db) db db' p
        (λ q f. find_package-All _ name db.packages q h.owned f) n e h

  -- What the rest of the database may do without touching it.
  IsHeld-unrelated :
      (db db' : Db)
      → db.packages ≡ db'.packages
      → db.next_package_id ≡ db'.next_package_id
      → db.versions ≡ db'.versions
      → db.tags ≡ db'.tags
      → IsHeld pid owner versions tags db
      → IsHeld pid owner versions tags db'
  IsHeld-unrelated db db' ep en ev et =
      IsHeld-rows db db' ep en (ap (versions_of pid) (sym ev)) (ap (tags_of pid) (sym et))

  pub record_deleted_manifest-IsHeld :
      (now : ℕ) (digest name actor : Text) (db : Db)
      → IsHeld pid owner versions tags db
      → IsHeld pid owner versions tags (record_deleted_manifest now digest name actor db)
  unfolding record_deleted_manifest
  record_deleted_manifest-IsHeld now digest name actor db h =
      either (IsHeld pid owner versions tags) (any (is_deleted_row name digest) db.deleted) _ _ h
        (IsHeld-unrelated db _ refl refl refl refl h)

  pub put_peer_blob-IsHeld :
      (now : ℕ) (actor digest endpoint : Text) (db : Db)
      → IsHeld pid owner versions tags db
      → IsHeld pid owner versions tags (put_peer_blob now actor digest endpoint db)
  unfolding put_peer_blob
  put_peer_blob-IsHeld now actor digest endpoint db = IsHeld-unrelated db _ refl refl refl refl

  pub put_blob-IsHeld :
      (now : ℕ) (digest : Text) (size : ℕ) (stored : Bool) (db : Db)
      → IsHeld pid owner versions tags db
      → IsHeld pid owner versions tags (put_blob now digest size stored db)
  unfolding put_blob
  put_blob-IsHeld now digest size stored db = IsHeld-unrelated db _ refl refl refl refl

  pub put_files-IsHeld :
      (fs : List File) (db : Db)
      → IsHeld pid owner versions tags db
      → IsHeld pid owner versions tags (record db { files = fs })
  put_files-IsHeld fs db = IsHeld-unrelated db _ refl refl refl refl
