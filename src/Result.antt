-- ===== src/Result.antt =====
-- Go's pair of a value and an error, where the value counts only without an error.
use apoci.Prelude.{Bool, true, false}

pub data DbError : Type 0 where
  -- The statement itself failed.
  unavailable : DbError
  -- It succeeded and touched no row where the code wants one.
  no_row : DbError

pub data Result {ℓ} (A : Type ℓ) : Type ℓ where
  ok : A → Result A
  err : DbError → Result A

infixl 5 ◌>>=◌
abbrev pub ◌>>=◌ {ℓ κ} : {A : Type ℓ} {B : Type κ} → Result A → (A → Result B) → Result B
ok a >>= f = f a
err e >>= f = err e

-- A statement that the database may fail.
abbrev pub attempt {ℓ} : {A : Type ℓ} → Bool → A → Result A
attempt true a = err unavailable
attempt false a = ok a
