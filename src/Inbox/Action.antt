-- ===== src/Inbox/Action.antt =====
-- Handlers that write as they go and may return an error: what was written before the error stays.
pub mod Yields
use apoci.Prelude.{◌≡◌, refl, Bool, true, false, Option, none, some, if◌then◌else◌}

pub data IngestError : Type 0 where
  not_relevant invalid_object missing_field invalid_name invalid_digest invalid_media_type :
      IngestError
  invalid_size invalid_tag no_namespace foreign_namespace db_failed not_authorized : IngestError
  content_too_large digest_mismatch manifest_not_found bad_endpoint adapter_failed : IngestError

pub data Except {ℓ} (A : Type ℓ) : Type ℓ where
  done : A → Except A
  failed : IngestError → Except A

abbrev pub Action {ℓ} : Type ℓ → Type ℓ → Type ℓ
Action S A = S → Except A × S

module _ {ℓ} {S A : Type ℓ} where
  unfoldable pub pure : A → Action S A
  pure a s = (done a, s)

  unfoldable pub fail : IngestError → Action S A
  fail e s = (failed e, s)

  unfoldable pub gets : (S → A) → Action S A
  gets f s = (done (f s), s)

module _ {ℓ} {S A B : Type ℓ} where
  abbrev pub proceed : Except A → (A → Action S B) → Action S B
  proceed (done a) f s = f a s
  proceed (failed e) f s = (failed e, s)

  infixl 5 ◌>>=◌ ◌>>◌
  unfoldable pub ◌>>=◌ : Action S A → (A → Action S B) → Action S B
  ◌>>=◌ m f s = let (r, s') = m s in proceed r f s'

  abbrev pub ◌>>◌ : Action S A → Action S B → Action S B
  m >> n = m >>= λ _. n

module _ {ℓ} {S : Type ℓ} where
  -- A write.
  unfoldable pub change : (S → S) → Action S (Unit {ℓ})
  change f s = (done tt, f s)

  -- An early return with an error, unless the test holds.
  unfoldable pub require : Bool → IngestError → Action S (Unit {ℓ})
  require true e s = (done tt, s)
  require false e s = (failed e, s)

  -- The same on the state that stands when the test is made.
  unfoldable pub check : (S → Bool) → IngestError → Action S (Unit {ℓ})
  check test e s = require (test s) e s
