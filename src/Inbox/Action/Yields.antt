-- ===== src/Inbox/Action/Yields.antt =====
-- A logic for handlers: what holds of the state before and after, and of what is returned.
use apoci.Prelude.{◌≡◌, refl, Bool, true, false, if◌then◌else◌}
use apoci.Inbox.Action.{
  Except, done, failed, IngestError, Action, proceed, pure, fail, gets, change, require, check,
  ◌>>=◌, ◌>>◌,
}

abbrev pub Post : {A : Type 0} → (A → Type 0) → Except A → Type 0
Post Q (done a) = Q a
Post Q (failed e) = Unit

-- From a state with `P` the action ends in one, also where it fails, and what it returns has `Q`.
pub record Yields {S A : Type 0} (P : S → Type 0) (Q : A → Type 0) (m : Action S A) : Type 0 where
  pub run : (s : S) → P s → P (m s).1 × Post Q (m s).0

abbrev pub Any : {A : Type 0} → A → Type 0
Any _ = Unit

pub Post-Any : {A : Type 0} (r : Except A) → Post Any r
Post-Any (done a) = tt
Post-Any (failed e) = tt

module _ {S A : Type 0} {P : S → Type 0} {Q : A → Type 0} where
  pub Yields-pure : (a : A) → Q a → Yields P Q (pure a)
  unfolding pure
  Yields-pure a q = record { run = λ s h. (h, q) }

  pub Yields-fail : (e : IngestError) → Yields P Q (fail e)
  unfolding fail
  Yields-fail e = record { run = λ s h. (h, tt) }

  pub Yields-gets : (f : S → A) → ((s : S) → P s → Q (f s)) → Yields P Q (gets f)
  unfolding gets
  Yields-gets f q = record { run = λ s h. (h, q s h) }

  pub Yields-if :
      (b : Bool) (m n : Action S A)
      → (b ≡ true → Yields P Q m)
      → (b ≡ false → Yields P Q n)
      → Yields P Q (if b then m else n)
  Yields-if true m n km kn = km refl
  Yields-if false m n km kn = kn refl

module _ {S : Type 0} {P : S → Type 0} where
  pub Yields-guard : (b : Bool) (e : IngestError) → Yields P Any (require b e)
  unfolding require
  Yields-guard true e = record { run = λ s h. (h, tt) }
  Yields-guard false e = record { run = λ s h. (h, tt) }

module _ {S : Type 0} (P : S → Type 0) {R : Type 0} where
  required :
      (b : Bool) (e : IngestError) (s : S)
      → P s
      → (b ≡ true → R)
      → P (require b e s).1 × Post (λ _. R) (require b e s).0
  unfolding require
  required true e s h q = (h, q refl)
  required false e s h q = (h, tt)

module _ {S : Type 0} {P : S → Type 0} where
  pub Yields-change : (f : S → S) → ((s : S) → P s → P (f s)) → Yields P Any (change f)
  unfolding change
  Yields-change f k = record { run = λ s h. (k s h, tt) }

  pub Yields-require : (b : Bool) (e : IngestError) → Yields P (λ _. b ≡ true) (require b e)
  unfolding require
  Yields-require true e = record { run = λ s h. (h, refl) }
  Yields-require false e = record { run = λ s h. (h, tt) }

  pub Yields-check :
      {R : Type 0} (test : S → Bool) (e : IngestError)
      → ((s : S) → P s → test s ≡ true → R)
      → Yields P (λ _. R) (check test e)
  unfolding check require
  Yields-check test e q = record { run = λ s h. required P (test s) e s h (q s h) }

module _ {S A B : Type 0} {P : S → Type 0} {Q : A → Type 0} {R : B → Type 0} where
  proceeds :
      (r : Except A) (f : A → Action S B) (s : S)
      → P s
      → Post Q r
      → ((a : A) → Q a → Yields P R (f a))
      → P (proceed r f s).1 × Post R (proceed r f s).0
  proceeds (done a) f s h q k = (k a q).run s h
  proceeds (failed e) f s h q k = (h, tt)

  pub Yields-bind :
      (m : Action S A) (f : A → Action S B)
      → Yields P Q m
      → ((a : A) → Q a → Yields P R (f a))
      → Yields P R (m >>= f)
  unfolding ◌>>=◌
  Yields-bind m f km kf = record {
    run = λ s h. let (h', q) = km.run s h in proceeds (m s).0 f (m s).1 h' q kf;
  }

  pub Yields-then :
      {m : Action S A} {n : Action S B} → Yields P Q m → Yields P R n → Yields P R (m >> n)
  Yields-then km kn = Yields-bind _ _ km (λ a q. kn)
