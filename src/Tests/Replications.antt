-- ===== src/Tests/Replications.antt =====
-- Runs of the replication to external targets.
use apoci.Prelude.{Text, Option, some, none, List, [], ◌∷◌, ◌≡◌, codes, text_eq, Bool}
use apoci.Replication.{Target, Job, Worker, new_worker}
use apoci.Replication.Counted.{Event, pushed, turn, history, totals, history-totals}

abbrev mirror : Target
mirror = record { name = codes "mirror"; repo_globs = codes "a.example/app" ∷ [] }

abbrev archive : Target
archive = record { name = codes "archive"; repo_globs = [] }

abbrev job_of : Text → Job
job_of repo = record {
  repo = repo;
  tag = codes "latest";
  digest = codes "d";
  media_type = codes "m";
}

abbrev same_text : Text → Text → Option Bool
same_text g repo = some (text_eq g repo)

abbrev unreachable : Job → Option Text
unreachable job = some (codes "timeout")

-- The second job finds the queues full.
abbrev events : List Event
events =
    pushed (job_of (codes "a.example/app"))
    ∷ pushed (job_of (codes "a.example/app"))
    ∷ turn 5 unreachable 1
    ∷ pushed (job_of (codes "a.example/lib"))
    ∷ turn 6 (λ job. none) 1
    ∷ turn 7 (λ job. none) 0
    ∷ []

abbrev targets : Worker
targets = new_worker (mirror ∷ archive ∷ [])

history-totals_example :
    totals same_text 1 [] (history same_text 1 events targets) ≡ totals same_text 1 events targets
history-totals_example = history-totals same_text 1 events targets
