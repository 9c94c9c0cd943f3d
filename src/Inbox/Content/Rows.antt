-- ===== src/Inbox/Content/Rows.antt =====
-- What the statements of the registry leave of one repository's versions and tags.
use apoci.Prelude.{
  ℕ, arith, Text, text_eq, text_eq_iff, ◌≡◌, refl, Bool, true, false, not, Option, none, some, List,
  [], ◌∷◌, ◌++◌, ◌==◌, if◌then◌else◌, All, ap, sym, ◌∙◌,
}
use mathlib.Core.Path.{subst}
use mathlib.Core.Option.{some_inj}
use apoci.Registry.{
  Package, Version, Tag, Db, owner_of, is_repository_owner, upsert_version, remove_where, owns,
  find_package,
}

abbrev pub versions_of : ℕ → List Version → List Version
versions_of id = remove_where (λ v. not (v.package_id == id))

abbrev pub tags_of : ℕ → List Tag → List Tag
tags_of id = remove_where (λ t. not (t.package_id == id))

pub remove_where-within {ℓ} :
    {A : Type ℓ} (q p : A → Bool) (xs : List A)
    → ((x : A) → p x ≡ true → q x ≡ true)
    → remove_where q (remove_where p xs) ≡ remove_where q xs
unfolding remove_where
remove_where-within q p [] h = refl
remove_where-within q p (x ∷ xs) h =
    let ih = remove_where-within q p xs h in let hx = h x in grind (arith, ih, hx)

pub versions_of-upsert_version :
    (id : ℕ) (v : Version) (vs : List Version)
    → ¬ v.package_id ≡ id
    → versions_of id (upsert_version v vs) ≡ versions_of id vs
unfolding upsert_version remove_where
versions_of-upsert_version id v [] h = ground arith
versions_of-upsert_version id v (w ∷ ws) h = ground (arith, versions_of-upsert_version id v ws h)

pub owner_of-append :
    (id : ℕ) (owner : Text) (ps qs : List Package)
    → owner_of id ps ≡ some owner
    → owner_of id (ps ++ qs) ≡ some owner
unfolding owner_of
owner_of-append id owner [] qs h = ground arith
owner_of-append id owner (p ∷ ps) qs h = ground (arith, owner_of-append id owner ps qs)

-- An actor who owns a repository does not own that of another.
pub is_repository_owner_other :
    (id pid : ℕ) (actor owner : Text) (db : Db)
    → owner_of pid db.packages ≡ some owner
    → ¬ actor ≡ owner
    → is_repository_owner id actor db ≡ true
    → ¬ id ≡ pid
unfolding is_repository_owner owns
is_repository_owner_other id pid actor owner db h n q e =
    let same : owner_of id db.packages ≡ some owner = ap (λ i. owner_of i db.packages) e ∙ h in
    let held : text_eq owner actor ≡ true = sym (ap (owns actor) same) ∙ q in
    n (sym ((text_eq_iff owner actor).0 held))

pub if_some {ℓ} : {A : Type ℓ} (b : Bool) (x y : A) → (if b then some x else none) ≡ some y → x ≡ y
if_some true x y e = some_inj.0 e
if_some false x y e = ground arith

pub if_true {ℓ} :
    {A : Type ℓ} (b : Bool) (x y : A) → (if b then some x else none) ≡ some y → b ≡ true
if_true true x y e = refl
if_true false x y e = ground arith

if_found :
    (P : Package → Type 0) (b : Bool) (rest : Option Package) (p q : Package)
    → (if b then some p else rest) ≡ some q
    → P p
    → (rest ≡ some q → P q)
    → P q
if_found P true rest p q e hp h = subst P (some_inj.0 e) hp
if_found P false rest p q e hp h = h e

pub skip_first {ℓ} :
    {A : Type ℓ} (q : A → Bool) (x : A) (xs : List A)
    → q x ≡ true
    → remove_where q (x ∷ xs) ≡ remove_where q xs
unfolding remove_where
skip_first q x xs h = ground arith

pub find_package-All :
    (P : Package → Type 0) (name : Text) (ps : List Package) (q : Package)
    → All P ps
    → find_package name ps ≡ some q
    → P q
unfolding find_package
find_package-All P name [] q h e = ground arith
find_package-All P name (p ∷ ps) q (hp, h) e =
    if_found P (text_eq p.name name) _ p q e hp (find_package-All P name ps q h)
