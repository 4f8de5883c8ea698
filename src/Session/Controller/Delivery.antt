-- ===== src/Session/Controller/Delivery.antt =====
-- What reaches the checkpointers (session/controller.rs).
use marie.Base.{
  ◌≡◌, arith, inl, inr, Bool-cases, ◌==◌, Option-cases, Result-cases, some, List, [], ◌∷◌,
}
use marie.Base.HashMap
use marie.Base.HashMap.{HashMap}
use marie.Id.{SessionId, id_eq}
use marie.Session.Sessions.{get_session}
use marie.Session.Controller.{
  Handle, SessionController, Input, create, get, instantiate_session_ckp, process_checkpoint_event,
  reply_hitl, create_session, step, run,
}

module _ {Value Time : Type 0} where
  -- No checkpointer that the controller keeps has an event in its queue.
  abbrev pub IsIdle : SessionController Value Time → Type 0
  IsIdle controller =
      (id : SessionId) (handle : Handle Value Time)
      → HashMap.get controller.sessions id ≡ some handle
      → handle.queue ≡ []

  get-IsIdle :
      (controller : SessionController Value Time) (id : SessionId)
      → IsIdle controller
      → IsIdle (get controller id).1
  unfolding get instantiate_session_ckp create
  get-IsIdle controller id idle j handle h =
      elim (Option-cases (HashMap.get controller.sessions id)) [
        | inr (k, s) ↦ idle j handle (ground (arith, s, h))
        | inl n ↦ elim (Result-cases (get_session controller.store id)) [
          | inr (e, x) ↦ idle j handle (ground (arith, n, x, h))
          | inl (session, x) ↦ elim (Bool-cases (id == j)) [
            | inl y ↦
                ground
                  (arith, n, x, h, y, HashMap.get-insert controller.sessions id j (create session))
            | inr y ↦ idle j handle (
                ground
                  (arith, n, x, h, y, HashMap.get-insert controller.sessions id j (create session)))
          ]
        ]
      ]

  step-IsIdle :
      (controller : SessionController Value Time) (input : Input Value Time)
      → IsIdle controller
      → IsIdle (step controller input)
  unfolding step process_checkpoint_event reply_hitl create_session
  step-IsIdle controller (Input.answered id hitl_id answers) idle = get-IsIdle controller _ idle
  step-IsIdle controller (Input.queued event) idle = get-IsIdle controller _ idle
  step-IsIdle controller (Input.replied id hitl_id answers) idle = idle
  step-IsIdle controller (Input.created id t u) idle = idle

  -- Whatever answers, events and calls reach a controller whose checkpointers have empty queues, no
  -- event is ever put into the queue of a checkpointer that it keeps.
  pub run-IsIdle :
      (controller : SessionController Value Time) (inputs : List (Input Value Time))
      → IsIdle controller
      → IsIdle (run controller inputs)
  unfolding run
  run-IsIdle controller [] idle = idle
  run-IsIdle controller (input ∷ inputs) idle =
      run-IsIdle (step controller input) inputs (step-IsIdle controller input idle)
