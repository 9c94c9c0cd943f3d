-- ===== src/Inbox/Gate/Once.antt =====
-- Requests to the inbox and rounds of its workers in any order: each activity is handed over once,
-- and a request that is refused leaves no trace but in the caches.
use mathlib.Core.Path.{subst}
use apoci.Prelude.{
  ℕ, ◌+◌, ◌≤◌, Text, text_eq, text_eq_iff, [], ◌∷◌, List, ◌++◌, ◌||◌, Bool, true, false, Option,
  none, some, ◌≡◌, ◌≢◌, refl, ap, ◌∙◌, ◌⊎◌, inl, inr, arith, if◌then◌else◌, Bool-cases, if_both,
}
use apoci.Activity.{
  activity_follow, activity_accept, activity_reject, activity_undo, activity_create,
  activity_update, activity_announce, activity_delete,
}
use apoci.Queue.{try_push, SimpleQueue}
use apoci.Signature.{Request}
use apoci.Inbox.{Config}
use apoci.Inbox.Gate.{
  Response, accepted, service_unavailable, Task, LoggedActivity, Server, Env, is_logged, dispatch,
  inbox_queue_size,
}
use apoci.Inbox.Gate.Keys.{IsUntouched}
use apoci.Inbox.Gate.Serve.{
  Verdict, respond, admitted, admit, hand_over, conclude, serve_http, work, work_on,
}
use apoci.Inbox.Gate.Admitted.{Outcome, refused, repeated, recorded, admit-Outcome}

-- What happens at the inbox: a request arrives, or a worker takes its turn.
pub data Event : Type 0 where
  receive : Env → Request → Event
  turn : Env → Event

-- The id of the activity that is handed over, but for a Follow.
unfoldable pub new_id : Verdict → List Text
new_id (respond _) = []
new_id (admitted task) =
    if text_eq task.activity.kind activity_follow then [] else task.activity.id ∷ []

unfoldable pub occurrences : Text → List Text → ℕ
occurrences x [] = 0
occurrences x (y ∷ ys) = (if text_eq y x then 1 else 0) + occurrences x ys

module _ (cfg : Config) where
  unfoldable pub happen : Event → Server → Server
  happen (receive env r) s = (serve_http cfg env r s).0
  happen (turn env) s = work cfg env s

  unfoldable pub handed_over : Event → Server → List Text
  handed_over (receive env r) s = new_id (admit cfg env r s).1
  handed_over (turn env) s = []

  -- The ids of the activities that a sequence of events hands over.
  unfoldable pub history : List Event → Server → List Text
  history [] s = []
  history (e ∷ events) s = handed_over e s ++ history events (happen e s)

-- One where the id is still to come.
unfoldable pub left : Text → List LoggedActivity → ℕ
left x rows = if is_logged x rows then 0 else 1

pub record KeepsLog (s t : Server) : Type 0 where
  pub kept : t.activities ≡ s.activities

KeepsLog-if :
    {s : Server} (b : Bool) (x y : Server)
    → KeepsLog s x
    → KeepsLog s y
    → KeepsLog s (if b then x else y)
KeepsLog-if true x y h k = h
KeepsLog-if false x y h k = k

same_log : {s t : Server} → t.activities ≡ s.activities → KeepsLog s t
same_log h = record { kept = h }

pub is_logged-append :
    (x : Text) (rows : List LoggedActivity) (row : LoggedActivity)
    → is_logged x (rows ++ row ∷ []) ≡ is_logged x rows || text_eq row.activity_id x
unfolding is_logged
is_logged-append x [] row = ground arith
is_logged-append x (r ∷ rows) row = ground (arith, is_logged-append x rows row)

-- Recording a new id pays for handing it over.
recorded-left :
    (x id : Text) (follows : Bool) (rows : List LoggedActivity) (row : LoggedActivity)
    → row.activity_id ≡ id
    → is_logged id rows ≡ false
    → occurrences x (if follows then [] else id ∷ []) + left x (rows ++ row ∷ []) ≤ left x rows
unfolding occurrences left
recorded-left x id follows rows row same fresh =
    let appended = is_logged-append x rows row in
    let named = ap (λ i. text_eq i x) same in
    elim (Bool-cases (text_eq id x)) [
      | inl e ↦
          let known = subst (λ i. is_logged i rows ≡ false) ((text_eq_iff id x).0 e) fresh in
          ground arith
      | inr e ↦ ground arith
    ]

occurrences-append :
    (x : Text) (ys zs : List Text) → occurrences x (ys ++ zs) ≡ occurrences x ys + occurrences x zs
unfolding occurrences
occurrences-append x [] zs = omega arith
occurrences-append x (y ∷ ys) zs = omega (arith, occurrences-append x ys zs)

module _ (cfg : Config) (env : Env) where
  dispatch-KeepsLog : (task : Task) (s : Server) → KeepsLog s (dispatch cfg env task s)
  unfolding dispatch
  dispatch-KeepsLog task s =
      KeepsLog-if (text_eq task.activity.kind activity_follow) _ _ (same_log refl) (
        KeepsLog-if (text_eq task.activity.kind activity_accept) _ _ (same_log refl) (
          KeepsLog-if (text_eq task.activity.kind activity_reject) _ _ (same_log refl) (
            KeepsLog-if (text_eq task.activity.kind activity_undo) _ _ (same_log refl) (
              KeepsLog-if (text_eq task.activity.kind activity_create) _ _ (same_log refl) (
                KeepsLog-if (text_eq task.activity.kind activity_update) _ _ (same_log refl) (
                  KeepsLog-if (text_eq task.activity.kind activity_announce) _ _ (same_log refl) (
                    KeepsLog-if (text_eq task.activity.kind activity_delete) _ _ (same_log refl)
                      (same_log refl))))))))

  pub hand_over-KeepsLog : (task : Task) (s : Server) → KeepsLog s (hand_over cfg env task s).0
  unfolding hand_over
  hand_over-KeepsLog task s =
      let pushed = (try_push task inbox_queue_size s.queue).1 in
      if_both (λ (x : Server × Response). KeepsLog s x.0) env.has_worker _ _
        (if_both (λ (x : Server × Response). KeepsLog s x.0) pushed _ _ (same_log refl)
          (same_log refl))
        (dispatch-KeepsLog task s)

  hand_over-response :
      (task : Task) (s : Server)
      → ((hand_over cfg env task s).1 ≡ accepted)
        ⊎ ((hand_over cfg env task s).1 ≡ service_unavailable)
  unfolding hand_over
  hand_over-response task s = ground arith

  module _ (r : Request) (s : Server) where
    untouched-or-handed :
        (task : Task) (t : Server)
        → (hand_over cfg env task t).1 ≢ accepted
        → (hand_over cfg env task t).1 ≢ service_unavailable
        → ⊥
    untouched-or-handed task t h k = elim (hand_over-response task t) [ inl e ↦ h e | inr e ↦ k e ]

    conclude-IsUntouched :
        (x : Server × Verdict)
        → Outcome cfg env r s x
        → (conclude cfg env x).1 ≢ accepted
        → (conclude cfg env x).1 ≢ service_unavailable
        → IsUntouched s (conclude cfg env x).0
    unfolding conclude
    conclude-IsUntouched _ (refused t response u) h k = u
    conclude-IsUntouched _ (repeated t task u ok kind gone) h k =
        absurd (untouched-or-handed task t h k)
    conclude-IsUntouched _ (recorded t task row u ok same fresh) h k =
        absurd (untouched-or-handed task _ h k)

    -- A request that is answered neither 202 nor 503 leaves all but the cache of signatures, that of
    -- failed fetches and the rate limiters as it was.
    pub serve_http-IsUntouched :
        (serve_http cfg env r s).1 ≢ accepted
        → (serve_http cfg env r s).1 ≢ service_unavailable
        → IsUntouched s (serve_http cfg env r s).0
    unfolding serve_http
    serve_http-IsUntouched = conclude-IsUntouched _ (admit-Outcome cfg env r s)

    conclude-left :
        (x : Text) (y : Server × Verdict)
        → Outcome cfg env r s y
        → occurrences x (new_id y.1) + left x (conclude cfg env y).0.activities
          ≤ left x s.activities
    unfolding conclude new_id
    conclude-left x _ (refused t response u) =
        unfold occurrences in omega (arith, ap (λ (z : Server). left x z.activities) u.same)
    conclude-left x _ (repeated t task u ok kind gone) =
        unfold occurrences in
        rw kind (
          omega (
            arith,
            ap (left x) (hand_over-KeepsLog task t).kept,
            ap (λ (z : Server). left x z.activities) u.same,
          ))
    conclude-left x _ (recorded t task row u ok same fresh) =
        let log = ap (λ (z : Server). z.activities) u.same in
        omega (
          arith,
          ap (left x) (hand_over-KeepsLog task _).kept,
          ap (left x) log,
          recorded-left x task.activity.id (text_eq task.activity.kind activity_follow) t.activities
              row same (ap (is_logged task.activity.id) log ∙ fresh),
        )

  work_on-KeepsLog :
      (s : Server) (front : SimpleQueue Task × Option Task) → KeepsLog s (work_on cfg env front s)
  unfolding work_on
  work_on-KeepsLog s (queue, none) = same_log refl
  work_on-KeepsLog s (queue, some task) =
      same_log (dispatch-KeepsLog task (record s { queue = queue })).kept

  work-KeepsLog : (s : Server) → KeepsLog s (work cfg env s)
  unfolding work
  work-KeepsLog s = work_on-KeepsLog s _

module _ (cfg : Config) where
  happen-left :
      (x : Text) (e : Event) (s : Server)
      → occurrences x (handed_over cfg e s) + left x (happen cfg e s).activities
        ≤ left x s.activities
  unfolding happen handed_over
  happen-left x (receive env r) s =
      unfold serve_http in conclude-left cfg env r s x _ (admit-Outcome cfg env r s)
  happen-left x (turn env) s =
      unfold occurrences in omega (arith, ap (left x) (work-KeepsLog cfg env s).kept)

  history-left :
      (x : Text) (events : List Event) (s : Server)
      → occurrences x (history cfg events s) ≤ left x s.activities
  unfolding history
  history-left x [] s = unfold occurrences in omega arith
  history-left x (e ∷ events) s = omega (
    arith,
    happen-left x e s,
    history-left x events (happen cfg e s),
    occurrences-append x (handed_over cfg e s) (history cfg events (happen cfg e s)),
  )

  -- In any sequence of requests and of rounds of the workers, under any faults, an activity that is
  -- not a Follow is handed over at most once, and not at all where the log has its id beforehand.
  pub history-once :
      (x : Text) (events : List Event) (s : Server)
      → occurrences x (history cfg events s) ≤ (if is_logged x s.activities then 0 else 1)
  history-once x events s = unfold left in history-left x events s
