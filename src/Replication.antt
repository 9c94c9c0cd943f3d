-- ===== src/Replication.antt =====
-- internal/replication/worker.go: the jobs of the replication to external targets, each with a queue
-- of its own, and what is counted of them. What the copying of a manifest comes to is a parameter.
pub mod Counted
use apoci.Prelude.{
  ℕ, zero, suc, ◌+◌, Text, Bool, true, false, Option, none, some, List, [], ◌∷◌, any, if◌then◌else◌,
}
use apoci.Queue.{SimpleQueue, new_simple_queue, try_push, pop}

-- Target, as far as the worker matches it.
pub record Target : Type 0 where
  pub name : Text
  pub repo_globs : List Text

pub record Job : Type 0 where
  pub repo : Text
  pub tag : Text
  pub digest : Text
  pub media_type : Text

-- targetState, with the queue of the target.
pub record TargetState : Type 0 where
  pub queue : SimpleQueue Job
  pub last_run : ℕ
  pub last_error : Option Text
  pub replicated : ℕ
  pub failed : ℕ
  pub dropped : ℕ

abbrev pub Worker : Type 0
Worker = List (Target × TargetState)

-- A name without a glob that fits; an ErrBadPattern counts as no match.
abbrev holds : Option Bool → Bool
holds none = false
holds (some b) = b

abbrev matches : (Text → Text → Option Bool) → List Text → Text → Bool
matches path_match [] repo = true
matches path_match (g ∷ globs) repo = any (λ h. holds (path_match h repo)) (g ∷ globs)

module _ (path_match : Text → Text → Option Bool) where
  -- matchRepo
  unfoldable pub match_repo : Target → Text → Bool
  match_repo t repo = matches path_match t.repo_globs repo

  unfoldable pub offer : ℕ → Job → TargetState → TargetState
  offer max_queue job st =
      let (queue, pushed) = try_push job max_queue st.queue in
      if pushed then record st { queue = queue } else record st { dropped = st.dropped + 1 }

  -- OnManifestPushed
  unfoldable pub on_manifest_pushed : ℕ → Job → Worker → Worker
  unfolding match_repo offer
  on_manifest_pushed max_queue job [] = []
  on_manifest_pushed max_queue job ((t, st) ∷ rest) =
      (t, if match_repo t job.repo then offer max_queue job st else st)
      ∷ on_manifest_pushed max_queue job rest

-- The accounting of process, given the time and the error of replicate.
unfoldable pub account : ℕ → Option Text → TargetState → TargetState
account now none st = record st {
  last_run = now;
  last_error = none;
  replicated = st.replicated + 1;
}
account now (some e) st = record st { last_run = now; last_error = some e; failed = st.failed + 1 }

unfoldable pub process :
    ℕ → (Job → Option Text) → SimpleQueue Job × Option Job → TargetState → TargetState
unfolding account
process now replicate (queue, none) st = st
process now replicate (queue, some job) st =
    account now (replicate job) (record st { queue = queue })

-- One round of run at the target of an index: the front job, if there is one.
unfoldable pub run : ℕ → (Job → Option Text) → ℕ → Worker → Worker
unfolding process
run now replicate i [] = []
run now replicate zero ((t, st) ∷ rest) = (t, process now replicate (pop st.queue) st) ∷ rest
run now replicate (suc i) ((t, st) ∷ rest) = (t, st) ∷ run now replicate i rest

-- NewWorker, for the targets of its configuration.
unfoldable pub new_worker : List Target → Worker
new_worker [] = []
new_worker (t ∷ targets) =
    (
      t,
      record {
        queue = new_simple_queue;
        last_run = 0;
        last_error = none;
        replicated = 0;
        failed = 0;
        dropped = 0;
      },
    )
    ∷ new_worker targets
