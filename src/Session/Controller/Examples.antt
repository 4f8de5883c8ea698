-- ===== src/Session/Controller/Examples.antt =====
-- A controller over one stored session; the theorems at it.
use marie.Base.{ℕ, [], ◌∷◌, arith}
use marie.Base.HashMap
use marie.Id.{SessionId, id_eq}
use marie.Session.Sessions as Sessions
use marie.Session.Sessions.{SessionStoreError, get_session}
use marie.Session.Checkpointer.State.{SessionCheckpointEvent}
use marie.Session.Controller.{SessionController, Input, run}
use marie.Session.Controller.Delivery.{IsIdle, run-IsIdle}

abbrev session : SessionId
session = record { prefix = 1; local = 1 }

abbrev other : SessionId
other = record { prefix = 1; local = 2 }

abbrev controller : SessionController ℕ ℕ
controller = record {
  store = (session, Sessions.new session 0 0) ∷ [];
  sessions = [];
  detached = [];
  queue = [];
}

controller-IsIdle : IsIdle controller
unfolding HashMap.get
controller-IsIdle id handle h = absurd (ground (arith, h))

run-IsIdle_example : IsIdle (
    run controller (
      Input.queued (SessionCheckpointEvent.session_created session)
      ∷ Input.replied session other []
      ∷ Input.answered session other []
      ∷ Input.created other 1 1
      ∷ []))
run-IsIdle_example =
    run-IsIdle controller
      (Input.queued (SessionCheckpointEvent.session_created session)
        ∷ Input.replied session other []
        ∷ Input.answered session other []
        ∷ Input.created other 1 1
        ∷ [])
      controller-IsIdle
