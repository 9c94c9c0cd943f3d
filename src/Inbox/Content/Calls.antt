-- ===== src/Inbox/Content/Calls.antt =====
-- What the shared parts of the handlers do, for a property `P` of the database and a property `T` of
-- the table of actors, which they do not write.
use apoci.Prelude.{◌≡◌, Text, true, Option, none, some}
use apoci.Actors.{Store}
use apoci.Registry.{Db, Package, is_repository_owner, get_repository}
use apoci.Inbox.Action.{db_failed, not_authorized, change}
use apoci.Inbox.Action.Yields.{
  Yields, Any, Yields-pure, Yields-fail, Yields-gets, Yields-if, Yields-change, Yields-check,
  Yields-bind,
}
use apoci.Inbox.Content.{
  State, Env, Call, query, execute, attempt_write, require_repo_owner, owned, find_repo,
}

-- The handlers' states whose database has `P`, and whose actors have `T`.
abbrev pub OnDb : (Db → Type 0) → (Store → Type 0) → State → Type 0
OnDb P T s = P s.db × T s.store

-- Of the repository that was found, where one was.
abbrev pub OfSome : (Package → Type 0) → Option Package → Type 0
OfSome R none = Unit
OfSome R (some p) = R p

module _ (env : Env) (P : Db → Type 0) (T : Store → Type 0) where
  pub Yields-query :
      {A : Type 0} (Q : A → Type 0) (call : Call) (f : State → A)
      → ((s : State) → OnDb P T s → Q (f s))
      → Yields (OnDb P T) Q (query env call f)
  unfolding query
  Yields-query Q call f k = Yields-if _ _ _ (λ e. Yields-fail db_failed) (λ e. Yields-gets f k)

  pub Yields-write :
      (f : Db → Db)
      → ((db : Db) → P db → P (f db))
      → Yields (OnDb P T) Any (change (λ s. record s { db = f s.db }))
  Yields-write f k = Yields-change (λ s. record s { db = f s.db }) (λ s h. (k s.db h.0, h.1))

  pub Yields-execute :
      (call : Call) (f : Db → Db)
      → ((db : Db) → P db → P (f db))
      → Yields (OnDb P T) Any (execute env call f)
  unfolding execute
  Yields-execute call f k =
      Yields-if (env.fails call) _ _ (λ e. Yields-fail db_failed) (λ e. Yields-write f k)

  pub Yields-attempt_write :
      (call : Call) (f : Db → Db)
      → ((db : Db) → P db → P (f db))
      → Yields (OnDb P T) Any (attempt_write env call f)
  unfolding attempt_write
  Yields-attempt_write call f k =
      Yields-if (env.fails call) _ _ (λ e. Yields-pure tt tt) (λ e. Yields-write f k)

  module _ (R : Package → Type 0) (actor_url : Text)
      (owner_is : (db : Db) (p : Package)
        → P db
        → is_repository_owner p.id actor_url db ≡ true
        → R p) where
    Yields-owned :
        (found : Option Package) → Yields (OnDb P T) (OfSome R) (owned env actor_url found)
    unfolding owned
    Yields-owned none = Yields-pure none tt
    Yields-owned (some p) =
        Yields-bind _ _
          (Yields-if _ _ _ (λ e. Yields-fail not_authorized)
            (λ e. Yields-check _ not_authorized (λ s h. owner_is s.db p h.0)))
          (λ u r. Yields-pure (some p) r)

    pub Yields-require_repo_owner :
        (repo : Text) → Yields (OnDb P T) (OfSome R) (require_repo_owner env repo actor_url)
    unfolding require_repo_owner
    Yields-require_repo_owner repo =
        Yields-if (env.fails find_repo) _ _ (λ e. Yields-pure none tt)
          (λ e.
            Yields-bind _ _ (Yields-gets {Q = Any} (λ s. get_repository repo s.db) (λ s h. tt))
              (λ found u. Yields-owned found))
