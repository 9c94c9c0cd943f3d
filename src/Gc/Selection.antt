-- ===== src/Gc/Selection.antt =====
-- Which tags the retention of internal/peering/gc.go selects for deletion, against a description
-- without its counter.
use apoci.Prelude.{
  ℕ, ◌+◌, ◌-◌, ◌≤◌, ◌<◌, Bool, true, false, ◌&&◌, ◌||◌, not, List, [], ◌∷◌, ◌≡◌, refl, ap, ◌∙◌, sym,
  inl, inr, arith, suc, take-nil, ltb, leb, take, filter, Bool-cases, if◌then◌else◌,
}
use apoci.Registry.{Tag}
use apoci.Gc.{GcConfig, RetentionPolicy, Env}
use apoci.Gc.Retention.{tag_pinned, is_dropped, candidates}

-- Two lists that a list divides into, in its order.
pub data Split {A : Type 0} : List A → List A → List A → Type 0 where
  none_left : Split [] [] []
  goes_left : (x : A) (xs ls rs : List A) → Split xs ls rs → Split (x ∷ xs) (x ∷ ls) rs
  goes_right : (x : A) (xs ls rs : List A) → Split xs ls rs → Split (x ∷ xs) ls (x ∷ rs)

-- The first of a list beyond those counted, where a number is set.
abbrev pub limited : {A : Type 0} → ℕ → ℕ → List A → List A
limited n k xs = if ltb 0 n then take (n - k) xs else xs

module _ {A : Type 0} (n k : ℕ) where
  limited_nil : limited {A = A} n k [] ≡ []
  limited_nil = elim (Bool-cases (ltb 0 n)) [
    | inl set ↦ rw set (take-nil (n - k))
    | inr unset ↦ rw unset refl
  ]

  limited_spent : (xs : List A) → ltb 0 n && leb n k ≡ true → limited n k xs ≡ []
  limited_spent xs h =
      let set : ltb 0 n ≡ true = ground arith in
      let reached : n ≤ k = ground arith in
      let spent : n - k ≡ 0 = omega arith in rw set (ap (λ m. take m xs) spent)

  limited_next :
      (x : A) (xs : List A)
      → ltb 0 n && leb n k ≡ false
      → x ∷ limited n (if ltb 0 n then k + 1 else k) xs ≡ limited n k (x ∷ xs)
  limited_next x xs h = elim (Bool-cases (ltb 0 n)) [
    | inr unset ↦ rw unset refl
    | inl set ↦
        let room : k < n = ground arith in
        let step : n - k ≡ suc (n - (k + 1)) = omega arith in
        rw set (sym (ap (λ m. take m (x ∷ xs)) step))
  ]

module _ (cfg : GcConfig) (env : Env) (policy : RetentionPolicy) where
  abbrev pub unpinned : Tag → Bool
  unpinned t = not (tag_pinned cfg env t.name policy.pinned_globs)

  abbrev pub is_recent : Tag → Bool
  is_recent t = not (ltb 0 policy.max_age) || not (ltb (t.updated_at + policy.max_age) env.now)

  -- The unpinned tags that stay: the recent ones, and of these the first, where a number is set.
  abbrev pub stays : ℕ → List Tag → List Tag
  stays kept tags = limited policy.keep_last_n kept (filter (λ t. unpinned t && is_recent t) tags)

  -- The tags divide into those selected, none of them pinned, and the others.
  pub record IsSelection (kept : ℕ) (tags selected : List Tag) : Type 0 where
    pub others : List Tag
    pub split : Split tags selected others
    pub left : filter unpinned others ≡ stays kept tags
    pub gone : filter unpinned selected ≡ selected

  pass_pinned :
      (kept : ℕ) (t : Tag) (tags selected : List Tag)
      → tag_pinned cfg env t.name policy.pinned_globs ≡ true
      → IsSelection kept tags selected
      → IsSelection kept (t ∷ tags) selected
  pass_pinned kept t tags selected pinned r = record {
    others = t ∷ r.others;
    split = goes_right t tags selected r.others r.split;
    left = rw pinned r.left;
    gone = r.gone;
  }

  select_next :
      (kept : ℕ) (t : Tag) (tags selected : List Tag)
      → tag_pinned cfg env t.name policy.pinned_globs ≡ false
      → is_dropped cfg env policy kept t ≡ true
      → IsSelection kept tags selected
      → IsSelection kept (t ∷ tags) (t ∷ selected)
  unfolding is_dropped
  select_next kept t tags selected free dropped r = record {
    others = r.others;
    split = goes_left t tags selected r.others r.split;
    left = r.left ∙ elim (Bool-cases (is_recent t)) [
      | inr old ↦ rw (free, old) refl
      | inl recent ↦
          let spent : ltb 0 policy.keep_last_n && leb policy.keep_last_n kept ≡ true =
            ground arith in
          limited_spent policy.keep_last_n kept _ spent
          ∙ sym (limited_spent policy.keep_last_n kept _ spent)
    ];
    gone = rw free (ap (λ xs. t ∷ xs) r.gone);
  }

  keep_next :
      (kept : ℕ) (t : Tag) (tags selected : List Tag)
      → tag_pinned cfg env t.name policy.pinned_globs ≡ false
      → is_dropped cfg env policy kept t ≡ false
      → IsSelection (if ltb 0 policy.keep_last_n then kept + 1 else kept) tags selected
      → IsSelection kept (t ∷ tags) selected
  unfolding is_dropped
  keep_next kept t tags selected free stays_here r = record {
    others = t ∷ r.others;
    split = goes_right t tags selected r.others r.split;
    left =
        let recent : is_recent t ≡ true = ground arith in
        let room : ltb 0 policy.keep_last_n && leb policy.keep_last_n kept ≡ false = ground arith in
        rw (free, recent)
          (ap (λ xs. t ∷ xs) r.left ∙ limited_next policy.keep_last_n kept t _ room);
    gone = r.gone;
  }

  -- The tags that retention selects from a list are unpinned, and the unpinned ones that it leaves are
  -- those within the age limit, and of these as many from the front as are still to be kept, where the
  -- policy sets a number; the selected and the others together are the list, in its order.
  pub candidates-IsSelection :
      (kept : ℕ) (tags : List Tag) → IsSelection kept tags (candidates cfg env policy kept tags)
  unfolding candidates
  candidates-IsSelection kept [] = record {
    others = [];
    split = none_left;
    left = sym (limited_nil policy.keep_last_n kept);
    gone = refl;
  }
  candidates-IsSelection kept (t ∷ tags) =
      elim (Bool-cases (tag_pinned cfg env t.name policy.pinned_globs)) [
        | inl pinned ↦
            rw pinned (pass_pinned kept t tags _ pinned (candidates-IsSelection kept tags))
        | inr free ↦ elim (Bool-cases (is_dropped cfg env policy kept t)) [
          | inl dropped ↦
              rw (free, dropped)
                (select_next kept t tags _ free dropped (candidates-IsSelection kept tags))
          | inr stays_here ↦
              rw (free, stays_here)
                (keep_next kept t tags _ free stays_here (
                  candidates-IsSelection (if ltb 0 policy.keep_last_n then kept + 1 else kept)
                    tags))
        ]
      ]
