-- ===== src/Inbox/Gate/Busy.antt =====
-- What ServeHTTP of internal/activitypub/inbox.go does while the queue of its worker is full.
use apoci.Inbox.Gate.Once.{Event}
use apoci.Prelude.{
  length, ◌≤◌, text_eq, text_eq_refl, [], ◌∷◌, List, ◌++◌, true, false, ◌≡◌, sym, ap, ◌∙◌, arith,
}
use apoci.Activity.{activity_follow}
use apoci.Queue.{try_push}
use apoci.Signature.{Request}
use apoci.Inbox.{Config}
use apoci.Inbox.Gate.{
  service_unavailable, Task, LoggedActivity, Server, Env, is_logged, inbox_queue_size,
}
use apoci.Inbox.Gate.Serve.{Verdict, respond, admitted, admit, hand_over, conclude, serve_http}
use apoci.Inbox.Gate.Admitted.{Outcome, refused, repeated, recorded, admit-Outcome}
use apoci.Inbox.Gate.Once.{history, occurrences, is_logged-append, history-once, hand_over-KeepsLog}

is_logged-new :
    (rows : List LoggedActivity) (row : LoggedActivity)
    → is_logged row.activity_id (rows ++ row ∷ []) ≡ true
is_logged-new rows row =
    ground (arith, is_logged-append row.activity_id rows row, text_eq_refl row.activity_id)

task_of : Verdict → Task → Task
task_of (respond x) t = t
task_of (admitted t) u = t

admitted_inj : (t u : Task) → admitted t ≡ admitted u → t ≡ u
unfolding task_of
admitted_inj t u h = ap (λ v. task_of v t) h

handed_to_full :
    (cfg : Config) (env : Env) (task : Task) (t : Server)
    → env.has_worker ≡ true
    → inbox_queue_size ≤ length t.queue.items
    → (hand_over cfg env task t).1 ≡ service_unavailable
unfolding hand_over try_push
handed_to_full cfg env task t worker full = ground arith

module _ (cfg : Config) (env : Env) (r : Request) (s : Server) where
  conclude-full :
      (task : Task) (y : Server × Verdict)
      → Outcome cfg env r s y
      → y.1 ≡ admitted task
      → text_eq task.activity.kind activity_follow ≡ false
      → env.has_worker ≡ true
      → inbox_queue_size ≤ length s.queue.items
      → ((conclude cfg env y).1 ≡ service_unavailable)
        × (is_logged task.activity.id (conclude cfg env y).0.activities ≡ true)
  unfolding conclude
  conclude-full task _ (refused t response u) at kind worker full = absurd (ground arith)
  conclude-full task _ (repeated t k u ok follows gone) at kind worker full =
      let same =
        ap (λ (t : Task). text_eq t.activity.kind activity_follow) (admitted_inj k task at) in
      absurd (ground arith)
  conclude-full task _ (recorded t k row u ok same fresh) at kind worker full =
      let id = ap (λ (t : Task). t.activity.id) (admitted_inj k task at) in
      let queue = ap (λ (z : Server). length z.queue.items) u.same in
      (
        handed_to_full cfg env k _ worker (omega arith),
        ap (is_logged task.activity.id) (hand_over-KeepsLog cfg env k _).kept
            ∙ ap (λ i. is_logged i (t.activities ++ row ∷ [])) (sym (same ∙ id))
            ∙ is_logged-new t.activities row,
      )

  -- Where the worker's queue is full, an activity that is not a Follow and that passed all checks is
  -- answered 503, and nothing that happens afterwards hands it over: its next delivery is taken for
  -- a repetition.
  pub busy_loses :
      (task : Task) (events : List Event)
      → (admit cfg env r s).1 ≡ admitted task
      → text_eq task.activity.kind activity_follow ≡ false
      → env.has_worker ≡ true
      → inbox_queue_size ≤ length s.queue.items
      → ((serve_http cfg env r s).1 ≡ service_unavailable)
        × (occurrences task.activity.id (history cfg events (serve_http cfg env r s).0) ≡ 0)
  unfolding serve_http
  busy_loses task events at kind worker full =
      let (busy, known) = conclude-full task _ (admit-Outcome cfg env r s) at kind worker full in
      let once =
        history-once cfg task.activity.id events (conclude cfg env (admit cfg env r s)).0 in
      (busy, ground arith)
