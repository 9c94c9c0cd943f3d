-- ===== src/Inbox/Gate/Uninvited.antt =====
-- Who becomes a follower over requests to the inbox and rounds of its workers in any order, where
-- nobody is accepted without the operator.
use apoci.Prelude.{
  Text, text_eq, [], ◌∷◌, List, true, Option, none, some, ◌≡◌, ap, ◌∙◌, sym, if_both, All, false,
  Bool-cases, inl, inr, arith,
}
use apoci.Activity.{
  activity_follow, activity_accept, activity_reject, activity_undo, activity_create,
  activity_update, activity_announce, activity_delete,
}
use apoci.Queue.{SimpleQueue, try_push}
use apoci.Actors.{Store}
use apoci.Actors.Followers.{is_follower}
use apoci.Signature.{Request}
use apoci.Inbox.{Config, accept_none}
use apoci.Inbox.Follow
use apoci.Inbox.Follow.Policy.{followers-IsByPolicy, follow-gains_none, accept-gains_none}
use apoci.Inbox.Content.Process.{Ingest}
use apoci.Inbox.Content.Handlers.Activities.{RespectsActors, activities_keep_actors}
use apoci.Inbox.Gate.{Response, Task, Server, Env, dispatch, inbox_queue_size}
use apoci.Inbox.Gate.Serve.{Verdict, conclude, hand_over, serve_http, work, work_on}
use apoci.Inbox.Gate.Admitted.{Outcome, refused, repeated, recorded, admit-Outcome}
use apoci.Inbox.Gate.Once.{Event, receive, turn, happen}

-- The adapters of the other ecosystems, as an event finds them.
abbrev pub adapters : Event → Text → Option Ingest
adapters (receive env r) = env.lookup
adapters (turn env) = env.lookup

-- The server after a sequence of events.
unfoldable pub after : Config → List Event → Server → Server
after cfg [] s = s
after cfg (e ∷ events) s = after cfg events (happen cfg e s)

-- An adapter that makes nobody a follower.
abbrev pub InvitesNone : (Text → Option Ingest) → Type 0
InvitesNone lookup =
    (type : Text) (i : Ingest) (b : Text) (before : Store)
    → lookup type ≡ some i
    → RespectsActors (λ t. is_follower b t ≡ true → is_follower b before ≡ true) i

module _ (cfg : Config) (by_hand : cfg.auto_accept ≡ accept_none)
    (nobody : cfg.allowed_domains ≡ []) (b : Text) where
  -- No follower is gained from one server to the other.
  abbrev GainsNone : Server → Server → Type 0
  GainsNone s t = is_follower b t.store ≡ true → is_follower b s.store ≡ true

  module _ (env : Env) (invites : InvitesNone env.lookup) where
    open env use {follow, content}

    dispatch-GainsNone : (task : Task) (s : Server) → GainsNone s (dispatch cfg env task s)
    unfolding dispatch
    dispatch-GainsNone task s =
        let a = task.activity in
        let urls = content.urls in
        let fs : Follow.State = record {
          store = s.store;
          accepts = s.accepts;
          notices = s.notices;
        } in
        let kept =
          activities_keep_actors cfg content follow.faults env.lookup a
            (record {
              db = s.db;
              store = s.store;
              ns_cache = s.ns_cache;
              requests = s.requests;
              invalidated = s.invalidated;
            })
            (λ t. is_follower b t ≡ true → is_follower b s.store ≡ true)
            (λ type i e. invites type i b s.store e) (λ h. h) in
        let policy = followers-IsByPolicy urls cfg follow a task.public_key_pem fs b in
        if_both (GainsNone s) (text_eq a.kind activity_follow) _ _
          (λ h. follow-gains_none urls cfg by_hand nobody follow a fs b task.public_key_pem h)
          (if_both (GainsNone s) (text_eq a.kind activity_accept) _ _
            (λ h. accept-gains_none urls cfg by_hand nobody follow a fs b h)
            (if_both (GainsNone s) (text_eq a.kind activity_reject) _ _ (λ h. policy.after_reject h)
              (if_both (GainsNone s) (text_eq a.kind activity_undo) _ _ (λ h. policy.after_undo h)
                (if_both (GainsNone s) (text_eq a.kind activity_create) _ _ kept.0 (
                  if_both (GainsNone s) (text_eq a.kind activity_update) _ _ kept.1 (
                    if_both (GainsNone s) (text_eq a.kind activity_announce) _ _ kept.2 (
                      if_both (GainsNone s) (text_eq a.kind activity_delete) _ _ kept.3
                        (λ h. h))))))))

    hand_over-GainsNone : (task : Task) (s : Server) → GainsNone s (hand_over cfg env task s).0
    unfolding hand_over
    hand_over-GainsNone task s =
        if_both (λ (x : Server × Response). GainsNone s x.0) env.has_worker _ _
          (if_both (λ (x : Server × Response). GainsNone s x.0)
            (try_push task inbox_queue_size s.queue).1 _ _ (λ h. h) (λ h. h))
          (dispatch-GainsNone task s)

    conclude-GainsNone :
        (r : Request) (s : Server) (x : Server × Verdict)
        → Outcome cfg env r s x
        → GainsNone s (conclude cfg env x).0
    unfolding conclude
    conclude-GainsNone r s _ (refused t response u) h =
        sym (ap (λ (z : Server). is_follower b z.store) u.same) ∙ h
    conclude-GainsNone r s _ (repeated t task u ok kind gone) h =
        sym (ap (λ (z : Server). is_follower b z.store) u.same) ∙ hand_over-GainsNone task t h
    conclude-GainsNone r s _ (recorded t task row u ok same fresh) h =
        sym (ap (λ (z : Server). is_follower b z.store) u.same) ∙ hand_over-GainsNone task _ h

    work_on-GainsNone :
        (s : Server) (front : SimpleQueue Task × Option Task)
        → GainsNone s (work_on cfg env front s)
    unfolding work_on
    work_on-GainsNone s (queue, none) h = h
    work_on-GainsNone s (queue, some task) h =
        dispatch-GainsNone task (record s { queue = queue }) h

  happen-GainsNone :
      (e : Event) (s : Server) → InvitesNone (adapters e) → GainsNone s (happen cfg e s)
  unfolding happen serve_http work
  happen-GainsNone (receive env r) s invites =
      conclude-GainsNone env invites r s _ (admit-Outcome cfg env r s)
  happen-GainsNone (turn env) s invites = work_on-GainsNone env invites s _

  after-GainsNone :
      (events : List Event) (s : Server)
      → All (λ e. InvitesNone (adapters e)) events
      → GainsNone s (after cfg events s)
  unfolding after
  after-GainsNone [] s invites h = h
  after-GainsNone (e ∷ events) s invites h =
      happen-GainsNone e s invites.0 (after-GainsNone events (happen cfg e s) invites.1 h)

  -- With automatic acceptance off and no allowed domains, who is no follower is none after any
  -- sequence of requests and of rounds of the workers, with activities of any kind and under any
  -- faults, provided that the adapters of the other ecosystems make nobody a follower.
  pub no_uninvited_follower :
      (events : List Event) (s : Server)
      → All (λ e. InvitesNone (adapters e)) events
      → is_follower b s.store ≡ false
      → is_follower b (after cfg events s).store ≡ false
  no_uninvited_follower events s invites h =
      elim (Bool-cases (is_follower b (after cfg events s).store)) [
        | inr none_gained ↦ none_gained
        | inl gained ↦ let before = after-GainsNone events s invites gained in absurd (ground arith)
      ]
