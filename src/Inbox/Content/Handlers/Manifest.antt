-- ===== src/Inbox/Content/Handlers/Manifest.antt =====
-- The same of ingestManifest, which may create a repository.
use mathlib.Core.Option.{some_inj}
use apoci.Prelude.{
  ℕ, Text, ◌≡◌, refl, Option, none, some, List, [], ◌∷◌, ap, sym, ◌∙◌, text_eq_iff, codes, ◌++◌,
  arith,
}
use apoci.Prelude.Maps.{Map}
use apoci.Activity.{Value}
use apoci.Actors.{Store}
use apoci.Registry.{Db, Package, Version, BlobRef}
use apoci.Inbox.{Config, is_empty}
use apoci.Inbox.Action.{db_failed, no_namespace}
use apoci.Inbox.Action.Yields.{
  Yields, Any, Yields-pure, Yields-fail, Yields-gets, Yields-if, Yields-change, Yields-guard,
  Yields-check, Yields-bind, Yields-then, Yields-require,
}
use apoci.Inbox.Content.{
  State, Env, find_manifest, create_repo, check_owner, fetch_sender_namespace, from_cache,
  fetch_uncached, remember,
}
use apoci.Inbox.Content.Ingest.{record_layers_and_replicate, record_refs, layers_of, request_layers}
use apoci.Inbox.Content.Manifest.{
  Fields, fields_of, check_fields, target_repository, own_or_create, create_repository, created,
  verified_content, decoded_content, store_content, store_in, store_optional_tag, scoped,
  ingest_manifest,
}
use apoci.Inbox.Content.Calls.{OnDb, Yields-query, Yields-execute, Yields-attempt_write}
use apoci.Inbox.Content.Handlers.{Laws, Keeps, Keeps-store_tag_of}

module _ (cfg : Config) (env : Env) (actor : Text) (P : Db → Type 0) (R : ℕ → Type 0)
    (laws : Laws env actor P R) (T : Store → Type 0) where
  abbrev Held : State → Type 0
  Held s = OnDb P T s

  -- What verified_content answers is the content that the digest names.
  abbrev Verified : Text → Option Text → Type 0
  Verified digest content =
      (c : Text) → content ≡ some c → codes "sha256:" ++ env.sha256_hex c ≡ digest

  fetch_uncached_lem : (host : Option Text) → Yields Held Any (fetch_uncached env actor host)
  unfolding fetch_uncached remember
  fetch_uncached_lem none = Yields-fail no_namespace
  fetch_uncached_lem (some host) = Yields-then (Yields-change _ (λ s h. h)) (Yields-pure _ tt)

  from_cache_lem : (cached : Option Text) → Yields Held Any (from_cache env actor cached)
  unfolding from_cache
  from_cache_lem (some ns) = Yields-pure ns tt
  from_cache_lem none = fetch_uncached_lem _

  fetch_sender_namespace_lem : Yields Held Any (fetch_sender_namespace env actor)
  unfolding fetch_sender_namespace
  fetch_sender_namespace_lem =
      Yields-bind _ _ (Yields-gets {Q = Any} _ (λ s h. tt)) (λ cached u. from_cache_lem cached)

  created_lem :
      (s : State) (made : Option (Package × Db))
      → ((p : Package) (db : Db) → made ≡ some (p, db) → P db × R p.id)
      → Yields Held R (created cfg env s made)
  unfolding created
  created_lem s none h = Yields-fail db_failed
  created_lem s (some (p, db)) h =
      let (held, n) = h p db refl in
      Yields-then (Yields-change _ (λ s' k. (held, k.1))) (Yields-pure p.id n)

  create_repository_lem : (repo : Text) → Yields Held R (create_repository cfg env repo actor)
  unfolding create_repository
  create_repository_lem repo =
      Yields-if (env.fails create_repo) _ _ (λ e. Yields-fail db_failed)
        (λ e.
          Yields-bind _ _ (Yields-gets {Q = Held} (λ s. s) (λ s h. h))
            (λ s h. created_lem s _ (λ p db e. laws.creates repo s.db db p e h.0)))

  own_or_create_lem :
      (repo : Text) (found : Option Package)
      → Yields Held R (own_or_create cfg env repo actor found)
  unfolding own_or_create
  own_or_create_lem repo none = create_repository_lem repo
  own_or_create_lem repo (some p) =
      Yields-if (env.fails check_owner) _ _ (λ e. Yields-fail db_failed)
        (λ e.
          Yields-bind _ _ (Yields-check _ _ (λ s h. laws.owner p.id s.db h.0))
            (λ u n. Yields-pure p.id n))

  decoded_content_lem :
      (digest : Text) (decoded : Option Text)
      → Yields Held (Verified digest) (decoded_content cfg env digest decoded)
  unfolding decoded_content
  decoded_content_lem digest none = Yields-pure none (λ c e. ground arith)
  decoded_content_lem digest (some decoded) =
      Yields-bind _ _ (Yields-then (Yields-guard _ _) (Yields-require _ _)) (λ u same.
        Yields-pure (some decoded) (λ c e.
          ap (λ x. codes "sha256:" ++ env.sha256_hex x) (sym (some_inj.0 e))
          ∙ (text_eq_iff _ _).0 same))

  verified_content_lem :
      (encoded digest : Text)
      → Yields Held (Verified digest) (verified_content cfg env encoded digest)
  unfolding verified_content
  verified_content_lem encoded digest =
      Yields-if (is_empty encoded) _ _ (λ e. Yields-pure none (λ c e. ground arith))
        (λ e. decoded_content_lem digest _)

  request_layers_lem : (refs : List BlobRef) → Yields Held Any (request_layers cfg env refs)
  unfolding request_layers
  request_layers_lem refs =
      Yields-if env.has_replicator _ _ (λ e. Yields-change _ (λ s h. h)) (λ e. Yields-pure tt tt)

  layers_of_lem :
      (refs : List BlobRef) (found : Option Version)
      → Yields Held Any (layers_of cfg env refs found)
  unfolding layers_of
  layers_of_lem refs none = Yields-pure tt tt
  layers_of_lem refs (some man) =
      Yields-then (Yields-attempt_write env _ _ _ _ (λ db. laws.puts_files _ db))
        (request_layers_lem refs)

  record_refs_lem :
      (id : ℕ) (digest : Text) (refs : List BlobRef)
      → Yields Held Any (record_refs cfg env id digest refs)
  unfolding record_refs
  record_refs_lem id digest [] = Yields-pure tt tt
  record_refs_lem id digest (r ∷ rs) =
      Yields-if (env.fails find_manifest) _ _ (λ e. Yields-pure tt tt)
        (λ e.
          Yields-bind _ _ (Yields-gets {Q = Any} _ (λ s h. tt)) (λ found u. layers_of_lem _ found))

  record_layers_lem :
      (content : Option Text) (id : ℕ) (digest : Text)
      → Yields Held Any (record_layers_and_replicate cfg env content id digest)
  unfolding record_layers_and_replicate
  record_layers_lem none id digest = Yields-pure tt tt
  record_layers_lem (some content) id digest = record_refs_lem id digest _

  optional_tag_lem :
      (id : ℕ) (tag digest : Text)
      → R id
      → Yields Held Any (store_optional_tag cfg env id tag digest)
  unfolding store_optional_tag Keeps
  optional_tag_lem id tag digest n =
      Yields-if (is_empty tag) _ _ (λ e. Yields-pure tt tt)
        (λ e. Keeps-store_tag_of cfg env actor P R laws T id tag digest n)

  store_in_lem : (o : Fields) (id : ℕ) → R id → Yields Held Any (store_in cfg env o actor id)
  unfolding store_in store_content
  store_in_lem o id n =
      Yields-bind _ _ (Yields-then (Yields-guard _ _) (verified_content_lem _ _)) (λ content u.
        Yields-then
          (Yields-then
            (Yields-execute env _ _ _ _
              (λ db. laws.puts_manifest _ db n (record { digest_of = u })))
            (record_layers_lem content id _))
          (optional_tag_lem id _ _ n))

  pub Keeps-ingest_manifest :
      (obj : Map Value) → Keeps cfg env actor P R laws T (ingest_manifest cfg env obj actor)
  unfolding Keeps ingest_manifest scoped target_repository check_fields
  Keeps-ingest_manifest obj =
      Yields-bind _ _
        (Yields-then
          (Yields-then
            (Yields-then
              (Yields-then
                (Yields-then (Yields-then (Yields-guard _ _) (Yields-guard _ _)) (Yields-guard _ _))
                (Yields-guard _ _))
              (Yields-guard _ _))
            (Yields-guard _ _))
          fetch_sender_namespace_lem)
        (λ ns u.
          Yields-bind _ _
            (Yields-then (Yields-guard _ _) (
              Yields-bind _ _ (Yields-query env _ _ Any _ _ (λ s h. tt))
                (λ found v. own_or_create_lem _ found)))
            (λ id n. store_in_lem (fields_of obj) id n))
