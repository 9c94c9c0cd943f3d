-- ===== src/Replication/Counted.antt =====
-- Every job that is offered to a target of internal/replication/worker.go is accounted for.
use apoci.Prelude.{
  ℕ, zero, suc, ◌+◌, Text, Bool, true, false, Option, none, some, List, [], ◌∷◌, ◌≡◌, refl, ap, ◌∙◌,
  arith, length, length-append, leb, Bool-cases, inl, inr, if◌then◌else◌,
}
use apoci.Queue.{try_push, pop}
use apoci.Replication.{
  Target, Job, TargetState, Worker, match_repo, offer, on_manifest_pushed, account, process, run,
}

-- A manifest is pushed, or a target's goroutine takes its turn.
pub data Event : Type 0 where
  pushed : Job → Event
  turn : ℕ → (Job → Option Text) → ℕ → Event

-- The jobs of a target that are done, dropped or waiting.
abbrev pub counted : TargetState → ℕ
counted st = st.replicated + st.failed + st.dropped + length st.queue.items

module _ (path_match : Text → Text → Option Bool) (max_queue : ℕ) where
  unfoldable pub happen : Event → Worker → Worker
  happen (pushed job) w = on_manifest_pushed path_match max_queue job w
  happen (turn now replicate i) w = run now replicate i w

  unfoldable pub history : List Event → Worker → Worker
  unfolding happen
  history [] w = w
  history (e ∷ events) w = history events (happen e w)

  -- The pushes that concern a target.
  unfoldable pub offered : Target → List Event → ℕ
  offered t [] = 0
  offered t (pushed job ∷ events) =
      (if match_repo path_match t job.repo then 1 else 0) + offered t events
  offered t (turn _ _ _ ∷ events) = offered t events

  -- What each target has counted, and what it will have after further events.
  unfoldable pub totals : List Event → Worker → List ℕ
  unfolding offered
  totals events [] = []
  totals events ((t, st) ∷ rest) = (counted st + offered t events) ∷ totals events rest

  offer-counted :
      (job : Job) (st : TargetState) → counted (offer path_match max_queue job st) ≡ counted st + 1
  unfolding offer try_push
  offer-counted job st = elim (Bool-cases (leb max_queue (length st.queue.items))) [
    | inl full ↦ rw full (omega arith)
    | inr room ↦ rw room (omega (arith, length-append st.queue.items (job ∷ [])))
  ]

  pushed-counted :
      (job : Job) (st : TargetState) (hit : Bool) (n : ℕ)
      → counted (if hit then offer path_match max_queue job st else st) + n
        ≡ counted st + ((if hit then 1 else 0) + n)
  pushed-counted job st true n = omega (arith, offer-counted job st)
  pushed-counted job st false n = omega arith

  pushed-totals :
      (job : Job) (events : List Event) (w : Worker)
      → totals events (on_manifest_pushed path_match max_queue job w)
        ≡ totals (pushed job ∷ events) w
  unfolding totals on_manifest_pushed
  pushed-totals job events [] = refl
  pushed-totals job events ((t, st) ∷ rest) =
      let hit = match_repo path_match t job.repo in
      let now = if hit then offer path_match max_queue job st else st in
      ap (λ ns. (counted now + offered t events) ∷ ns) (pushed-totals job events rest)
      ∙ ap (λ n. n ∷ totals (pushed job ∷ events) rest)
          (pushed-counted job st hit (offered t events))

  outcome-counted :
      (now : ℕ) (outcome : Option Text) (st : TargetState)
      → counted (account now outcome st) ≡ counted st + 1
  unfolding account
  outcome-counted now none st = omega arith
  outcome-counted now (some e) st = omega arith

  items-counted :
      (now : ℕ) (replicate : Job → Option Text) (items : List Job) (st : TargetState)
      → counted (
          process now replicate
            (pop (record { items = items }))
            (record st { queue = record { items = items } }))
        ≡ counted (record st { queue = record { items = items } })
  unfolding process pop
  items-counted now replicate [] st = refl
  items-counted now replicate (job ∷ rest) st =
      outcome-counted now (replicate job) (record st { queue = record { items = rest } })
      ∙ omega arith

  process-counted :
      (now : ℕ) (replicate : Job → Option Text) (st : TargetState)
      → counted (process now replicate (pop st.queue) st) ≡ counted st
  process-counted now replicate st = items-counted now replicate st.queue.items st

  turn-totals :
      (now : ℕ) (replicate : Job → Option Text) (i : ℕ) (events : List Event) (w : Worker)
      → totals events (run now replicate i w) ≡ totals events w
  unfolding totals run
  turn-totals now replicate i events [] = refl
  turn-totals now replicate zero events ((t, st) ∷ rest) =
      ap (λ n. (n + offered t events) ∷ totals events rest) (process-counted now replicate st)
  turn-totals now replicate (suc i) events ((t, st) ∷ rest) =
      ap (λ ns. (counted st + offered t events) ∷ ns) (turn-totals now replicate i events rest)

  turn-offered :
      (now : ℕ) (replicate : Job → Option Text) (i : ℕ) (events : List Event) (w : Worker)
      → totals events w ≡ totals (turn now replicate i ∷ events) w
  unfolding totals
  turn-offered now replicate i events [] = refl
  turn-offered now replicate i events ((t, st) ∷ rest) =
      ap (λ ns. (counted st + offered t events) ∷ ns) (turn-offered now replicate i events rest)

  -- After any sequence of pushes and of rounds of the targets, whatever the copying comes to, each
  -- target has as many jobs more that are replicated, failed, dropped or waiting as there were pushes
  -- to repositories that it matches.
  pub history-totals :
      (events : List Event) (w : Worker) → totals [] (history events w) ≡ totals events w
  unfolding history
  history-totals [] w = refl
  history-totals (pushed job ∷ events) w = history-totals events _ ∙ pushed-totals job events w
  history-totals (turn now replicate i ∷ events) w =
      history-totals events _
      ∙ turn-totals now replicate i events w
      ∙ turn-offered now replicate i events w
