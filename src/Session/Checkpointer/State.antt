-- ===== src/Session/Checkpointer/State.antt =====
-- session/checkpointer/mod.rs: the state of a `SessionCheckpointer` with what it sends and draws, and
-- the actions on it. A method that fails leaves what it has written; a panic is `none`, but that of a
-- `todo!()`, which keeps what was written and sent before.

use marie.Base.{
  ℕ, ◌+◌, String, Bool, true, false, Option, none, some, List, [], ◌∷◌, ◌++◌, Result, ok, err,
}
use marie.Id.{UniqueId, SessionId, FrameId, HitlId}
use marie.Session.Model.{GraphId, WorkerError, JobState}
use marie.Session.Channel.{Channels, Json}
use marie.Session.RunLogs.{RunLog}
use marie.Session.Protocol.{FrameResponse}
use marie.Session.Graphs.{GraphCodec}
use marie.Session.Sessions.{SessionStatus, SessionCell, SessionStore}
use marie.Session.Hitl.Validate.{Answers}
use marie.Session.Hitl.Service.{SessionHitls, HitlError}
use marie.Session.Snapshots.Store as Snapshots
use marie.Session.Snapshots.{SessionSnapshots}
use marie.Session.Frames.Policy.{FrameKind}
use marie.Session.Frames.Store as Frames
use marie.Session.Frames.Tree.{FrameTree}
use marie.Catalog.Store.{Items}
use marie.Catalog.Facade.{CatalogError}

-- The errors of the stores that a `SessionError::StorageError` wraps.
pub data StorageError : Type 0 where
  frame_error : Frames.StoreError → StorageError
  snapshot_error : Snapshots.StoreError → StorageError

-- session/controller.rs
pub data SessionError : Type 0 where
  storage_error : StorageError → SessionError
  stale_superstep : ℕ → ℕ → SessionError
  catalog_error : CatalogError → SessionError
  graph_not_found : GraphId → SessionError
  worker_error : WorkerError → SessionError
  hitl_error : HitlError → SessionError

module _ (Value : Type 0) where
  -- session/protocol.rs
  pub data SessionCheckpointEvent : Type 0 where
    session_created : SessionId → SessionCheckpointEvent
    hitl_answered : SessionId → HitlId → Answers → SessionCheckpointEvent
    frame_created : SessionId → FrameId → SessionCheckpointEvent
    frame_run_job_state_update :
        SessionId → FrameId → JobState Value (FrameResponse Value) → SessionCheckpointEvent
    frame_ready : SessionId → FrameId → SessionCheckpointEvent
    frame_run_terminated : SessionId → FrameId → SessionCheckpointEvent
    child_frame_terminated : SessionId → FrameId → FrameId → SessionCheckpointEvent
    frame_terminated : SessionId → FrameId → SessionCheckpointEvent

  -- session/worker.rs
  pub record RunFrameArgs : Type 0 where
    pub session_id : SessionId
    pub frame_id : FrameId
    pub channels : Channels Value
    pub logs : List (RunLog Value)
    pub data_kind : FrameKind Value

-- What comes from elsewhere: serde_json, the clock and the generator of identifiers at each call, the
-- answer of the workers to a job (`none` if one takes it), and the texts of errors.
pub record Outside (Value Float Time : Type 0) : Type 0 where
  pub json : Json Value Float
  pub object : List (String × Value) → Value
  pub text : String → Value
  pub of_answers : Answers → Value
  pub codec : GraphCodec Value
  pub ids : ℕ → UniqueId
  pub now : ℕ → Time
  pub spawn : RunFrameArgs Value → Option WorkerError
  pub worker_text : WorkerError → String
  pub error_text : SessionError → String
  pub failed_children_text : ℕ → String

-- The cell of the session that `run` owns is kept here too. `listeners` are the events sent to the
-- controller, `spawned` the jobs, `announced` the status events, the latest last; `drawn` and `read`
-- count the identifiers and the readings of the clock. `panicked`: its task has reached a `todo!()`.
pub record Checkpointer (Value Time : Type 0) : Type 0 where
  pub session_id : SessionId
  pub session : SessionCell Time
  pub sessions : SessionStore Time
  pub frames : FrameTree Value
  pub snapshots : SessionSnapshots Value Time
  pub hitls : SessionHitls
  pub graphs : Items
  pub listeners : List (SessionCheckpointEvent Value)
  pub spawned : List (RunFrameArgs Value)
  pub announced : List SessionStatus
  pub drawn : ℕ
  pub readings : ℕ
  pub panicked : Bool

abbrev pub Action : Type 0 → Type 0 → Type 0 → Type 0
Action Value Time A =
    Checkpointer Value Time → Option (Result A SessionError × Checkpointer Value Time)

module _ {Value Time A : Type 0} where
  unfoldable pub pure : A → Action Value Time A
  pure a c = some (ok a, c)

  unfoldable pub raise : SessionError → Action Value Time A
  raise e c = some (err e, c)

  unfoldable pub panic : Action Value Time A
  panic c = none

  unfoldable pub gets : (Checkpointer Value Time → A) → Action Value Time A
  gets f c = some (ok (f c), c)

  -- A call of the tree that loads a frame: it panics where the tree does.
  unfoldable pub on_tree : (FrameTree Value → Option (A × FrameTree Value)) → Action Value Time A
  on_tree f c = elim (f c.frames) [
    | none ↦ none
    | some (a, tree) ↦ some (ok a, record c { frames = tree })
  ]

  -- `unwrap` and `?`
  unfoldable pub unwrap : Option A → Action Value Time A
  unwrap (some a) = pure a
  unwrap none = panic

  unfoldable pub lift {κ} : {E : Type κ} → (E → SessionError) → Result A E → Action Value Time A
  lift wrap (ok a) = pure a
  lift wrap (err e) = raise (wrap e)

  unfoldable pub choose : Bool → Action Value Time A → Action Value Time A → Action Value Time A
  choose true m n = m
  choose false m n = n

  -- `let Some(x) = found else { .. }`
  unfoldable pub let_else :
      {X : Type 0}
      → Option X
      → Action Value Time A
      → (X → Action Value Time A)
      → Action Value Time A
  let_else none m f = m
  let_else (some x) m f = f x

module _ {Value Time : Type 0} where
  unfoldable pub change_tree :
      (FrameTree Value → Option (FrameTree Value)) → Action Value Time (Unit {0})
  change_tree f c = elim (f c.frames) [
    | none ↦ none
    | some tree ↦ some (ok tt, record c { frames = tree })
  ]

  unfoldable pub modify :
      (Checkpointer Value Time → Checkpointer Value Time) → Action Value Time (Unit {0})
  modify f c = some (ok tt, f c)

  -- The panic of `todo!()`.
  unfoldable pub todo : Action Value Time (Unit {0})
  todo c = some (ok tt, record c { panicked = true })

  -- What follows in a task that has not panicked.
  unfoldable pub unless_panicked : Action Value Time (Unit {0}) → Action Value Time (Unit {0})
  unless_panicked m c = elim c.panicked [ true ↦ some (ok tt, c) | false ↦ m c ]

  unfoldable pub emit : SessionCheckpointEvent Value → Action Value Time (Unit {0})
  emit event c = some (ok tt, record c { listeners = c.listeners ++ event ∷ [] })

module _ {Value Time A B : Type 0} where
  infixl 5 ◌>>=◌ ◌>>◌
  unfoldable pub ◌>>=◌ : Action Value Time A → (A → Action Value Time B) → Action Value Time B
  ◌>>=◌ m f c = elim (m c) [
    | none ↦ none
    | some (r, c') ↦ elim r [ ok a ↦ f a c' | err e ↦ some (err e, c') ]
  ]

  abbrev pub ◌>>◌ : Action Value Time A → Action Value Time B → Action Value Time B
  m >> k = m >>= λ _. k

module _ {Value Time X : Type 0} where
  -- `try_for_each`, and a `for` loop with `?` in its body
  unfoldable pub for_each :
      List X → (X → Action Value Time (Unit {0})) → Action Value Time (Unit {0})
  unfolding pure ◌>>=◌
  for_each [] body = pure tt
  for_each (x ∷ xs) body = do body x; for_each xs body

module _ {Value Time : Type 0} where
  -- `unwrap` and `?` on what was drawn from the generator and the clock
  unfoldable pub next_id : (ℕ → UniqueId) → Action Value Time UniqueId
  next_id ids c = some (ok (ids c.drawn), record c { drawn = c.drawn + 1 })

  unfoldable pub read_clock : (ℕ → Time) → Action Value Time Time
  read_clock now c = some (ok (now c.readings), record c { readings = c.readings + 1 })
