-- ===== src/Session/Controller.antt =====
-- session/controller.rs: `SessionController`. A checkpointer is what the controller knows of it: its
-- session and the events in its queue. The cache has no bound; the deletion of a session, which waits
-- for the checkpointer to close, is left out.
pub mod Delivery
mod Examples
use marie.Base.{List, [], ◌∷◌, ◌++◌, Option, none, some, Result, ok, err}
use marie.Base.HashMap
use marie.Base.HashMap.{HashMap}
use marie.Id.{SessionId, HitlId, id_eq}
use marie.Session.Hitl.Validate.{Answers}
use marie.Session.Sessions.{Session, SessionStore, SessionStoreError, get_session}
use marie.Session.Sessions as Sessions
use marie.Session.Checkpointer.State.{SessionCheckpointEvent}

pub record Handle (Value Time : Type 0) : Type 0 where
  pub session : Session Time
  pub queue : List (SessionCheckpointEvent Value)

-- `detached` are the checkpointers that run but that the controller has not kept.
pub record SessionController (Value Time : Type 0) : Type 0 where
  pub store : SessionStore Time
  pub sessions : HashMap SessionId (Handle Value Time)
  pub detached : List (Handle Value Time)
  pub queue : List (SessionCheckpointEvent Value)

module _ {Value : Type 0} where
  unfoldable pub session_id : SessionCheckpointEvent Value → SessionId
  session_id (SessionCheckpointEvent.session_created id) = id
  session_id (SessionCheckpointEvent.hitl_answered id hitl_id answers) = id
  session_id (SessionCheckpointEvent.frame_created id frame_id) = id
  session_id (SessionCheckpointEvent.frame_run_job_state_update id frame_id job_state) = id
  session_id (SessionCheckpointEvent.frame_ready id frame_id) = id
  session_id (SessionCheckpointEvent.frame_run_terminated id frame_id) = id
  session_id (SessionCheckpointEvent.child_frame_terminated id parent_id child_id) = id
  session_id (SessionCheckpointEvent.frame_terminated id frame_id) = id

module _ {Value Time : Type 0} where
  -- `SessionCheckpointer::new`
  unfoldable pub create : Session Time → Handle Value Time
  create session = record { session = session; queue = [] }

  unfoldable pub instantiate_session_ckp :
      SessionStore Time → SessionId → Result (Handle Value Time) SessionStoreError
  instantiate_session_ckp store id = elim (get_session store id) [
    | ok session ↦ ok (create session)
    | err e ↦ err e
  ]

  unfoldable pub get :
      SessionController Value Time
      → SessionId
      → Result (Handle Value Time) SessionStoreError × SessionController Value Time
  get controller id = elim (HashMap.get controller.sessions id) [
    | some handle ↦ (ok handle, controller)
    | none ↦ elim (instantiate_session_ckp controller.store id) [
      | ok handle ↦
          (ok handle, record controller { sessions = HashMap.insert controller.sessions id handle })
      | err e ↦ (err e, controller)
    ]
  ]

  -- The future of `send_ckp_event` is dropped without being polled.
  unfoldable pub process_checkpoint_event :
      SessionController Value Time → SessionCheckpointEvent Value → SessionController Value Time
  process_checkpoint_event controller event = (get controller (session_id event)).1

  unfoldable pub reply_hitl :
      SessionController Value Time → SessionId → HitlId → Answers → SessionController Value Time
  reply_hitl controller id hitl_id answers = record controller {
    queue = controller.queue ++ SessionCheckpointEvent.hitl_answered id hitl_id answers ∷ [];
  }

  -- With the generated identifier and the two readings of the clock; `initialise_as_new` does nothing.
  unfoldable pub create_session :
      SessionController Value Time
      → SessionId
      → Time
      → Time
      → SessionId × SessionController Value Time
  create_session controller id created_at last_updated_at = (
    id,
    record controller {
      detached = controller.detached ++ create (Sessions.new id created_at last_updated_at) ∷ [];
    },
  )

  unfoldable pub list_sessions : SessionController Value Time → List (Session Time)
  list_sessions controller = Sessions.list_sessions controller.store

module _ (Value Time : Type 0) where
  -- What reaches the controller: an answer on the event bus, an event of its queue, and the calls.
  pub data Input : Type 0 where
    answered : SessionId → HitlId → Answers → Input
    queued : SessionCheckpointEvent Value → Input
    replied : SessionId → HitlId → Answers → Input
    created : SessionId → Time → Time → Input

module _ {Value Time : Type 0} where
  -- The branches of the loop of `run`, with `process_session_event`, and the calls.
  unfoldable pub step :
      SessionController Value Time → Input Value Time → SessionController Value Time
  step controller (Input.answered id hitl_id answers) =
      process_checkpoint_event controller (SessionCheckpointEvent.hitl_answered id hitl_id answers)
  step controller (Input.queued event) = process_checkpoint_event controller event
  step controller (Input.replied id hitl_id answers) = reply_hitl controller id hitl_id answers
  step controller (Input.created id t u) = (create_session controller id t u).1

  unfoldable pub run :
      SessionController Value Time → List (Input Value Time) → SessionController Value Time
  run controller [] = controller
  run controller (input ∷ inputs) = run (step controller input) inputs
