-- ===== src/Session/Checkpointer/Marks.antt =====
-- session/checkpointer/mod.rs: the changes of a frame's status with the events that they send, and the
-- calls of the other services that the handlers share.
use marie.Base.{Option, Result, String, none, some, [], ◌∷◌, ◌++◌, ok, err}
use marie.Id.{FrameId}
use marie.Session.Protocol.{FrameResponse}
use marie.Session.Spec.{CommonSpec}
use marie.Session.Spec.Core as Core
use marie.Session.Graphs as Graphs
use marie.Session.Sessions.{SessionCell, SessionStatus, change_session, flush}
use marie.Session.Snapshots.Store.{Snapshot}
use marie.Session.Snapshots as Snapshots
use marie.Session.Frames.Policy.{FrameStatus, FrameSpecRef}
use marie.Session.Frames.Tree.{parent_of}
use marie.Session.Frames.Tree.Access.{set_status, spec_ref_of, logs_of, data_of}
use marie.Session.Checkpointer.State.{
  StorageError, SessionError, SessionCheckpointEvent, RunFrameArgs, Outside, Checkpointer, Action,
  pure, raise, gets, unwrap, let_else, on_tree, change_tree, modify, emit, ◌>>=◌, ◌>>◌,
}

module _ {Value Time : Type 0} where
  unfoldable pub mark_as_waiting_children : FrameId → Action Value Time (Unit {0})
  mark_as_waiting_children frame_id =
      change_tree (λ tree. set_status tree frame_id FrameStatus.waiting_children)

  unfoldable pub emit_run_terminated : FrameId → Action Value Time (Unit {0})
  emit_run_terminated frame_id = do
    id ← gets (λ c. c.session_id)
    emit (SessionCheckpointEvent.frame_run_terminated id frame_id)

  unfoldable pub mark_frame_run_completed :
      FrameId → FrameResponse Value → Action Value Time (Unit {0})
  mark_frame_run_completed frame_id response = do
    change_tree (λ tree. set_status tree frame_id (FrameStatus.run_completed response))
    emit_run_terminated frame_id

  unfoldable pub mark_frame_run_failed : FrameId → String → Action Value Time (Unit {0})
  mark_frame_run_failed frame_id error = do
    change_tree (λ tree. set_status tree frame_id (FrameStatus.run_failed error))
    emit_run_terminated frame_id

  unfoldable pub mark_ready_to_run_frame : FrameId → Action Value Time (Unit {0})
  mark_ready_to_run_frame frame_id = do
    change_tree (λ tree. set_status tree frame_id FrameStatus.ready)
    id ← gets (λ c. c.session_id)
    emit (SessionCheckpointEvent.frame_ready id frame_id)

  unfoldable pub mark_failed_frame : String → FrameId → Action Value Time (Unit {0})
  mark_failed_frame error frame_id = do
    change_tree (λ tree. set_status tree frame_id (FrameStatus.failed error))
    id ← gets (λ c. c.session_id)
    emit (SessionCheckpointEvent.frame_terminated id frame_id)

  -- `if let Some(parent_id) = self.frames.parent_of(frame_id).await { self.emit(..) }`
  unfoldable pub notify_parent : FrameId → Action Value Time (Unit {0})
  notify_parent frame_id = do
    parent ← gets (λ c. parent_of c.frames frame_id)
    id ← gets (λ c. c.session_id)
    let_else parent (pure tt)
        (λ parent_id. emit (SessionCheckpointEvent.child_frame_terminated id parent_id frame_id))

  unfoldable pub mark_completed_frame : FrameId → Action Value Time (Unit {0})
  mark_completed_frame frame_id = do
    change_tree (λ tree. set_status tree frame_id FrameStatus.completed)
    id ← gets (λ c. c.session_id)
    emit (SessionCheckpointEvent.frame_terminated id frame_id)
    notify_parent frame_id

  -- `self.snapshots.latest(frame_id).await?`
  unfoldable pub latest : FrameId → Action Value Time (Snapshot Value Time)
  latest frame_id c =
      let (r, snapshots) = Snapshots.latest c.snapshots frame_id in
      let c' : Checkpointer Value Time = record c { snapshots = snapshots } in
      elim r [
        | ok container ↦ some (ok container.snapshot, c')
        | err e ↦ some (err (SessionError.storage_error (StorageError.snapshot_error e)), c')
      ]

-- `Result::ok`
unfoldable pub found : {A E : Type 0} → Result A E → Option A
found (ok a) = some a
found (err e) = none

module _ {Value Time : Type 0} where
  -- `fail` on the session that it has changed; the store in memory accepts every write.
  unfoldable pub announce : SessionStatus → Option (SessionCell Time) → Action Value Time (Unit {0})
  announce status none c = none
  announce status (some cell) c =
      let (cell', sessions) = flush cell c.sessions in
      some (
        ok tt,
        record c { session = cell'; sessions = sessions; announced = c.announced ++ status ∷ [] },
      )

module _ {Value Float Time : Type 0} (outside : Outside Value Float Time) where
  unfoldable pub fail : SessionError → Action Value Time (Unit {0})
  fail error c =
      let status = SessionStatus.failed (outside.error_text error) in
      announce status (change_session c.session (λ s. record s { status = status })) c

  -- frames/tree.rs: `common_spec_of`, with its `unwrap` of the graph
  unfoldable pub spec_of : FrameSpecRef → Action Value Time (CommonSpec Value)
  spec_of (FrameSpecRef.graph graph_ref) = do
    graph ← gets (λ c. Graphs.get outside.codec c.graphs graph_ref)
    spec ← unwrap (found graph)
    pure spec.common
  spec_of FrameSpecRef.hitl_spec = pure Core.hitl
  spec_of FrameSpecRef.tool_call = pure Core.tool
  spec_of FrameSpecRef.tool_aggregator = pure Core.tool_aggregator
  spec_of FrameSpecRef.expert = pure (Core.expert outside.json)
  spec_of FrameSpecRef.expert_aggregator = pure Core.expert_aggregator

  unfoldable pub common_spec_of : FrameId → Action Value Time (CommonSpec Value)
  common_spec_of frame_id = do
    spec_ref ← on_tree (λ tree. spec_ref_of tree frame_id)
    spec_of spec_ref

  -- The job goes to the workers; the task that relays its states sends events later.
  unfoldable pub spawn : RunFrameArgs Value → Action Value Time (Unit {0})
  spawn args =
      let_else (outside.spawn args) (modify (λ c. record c { spawned = c.spawned ++ args ∷ [] }))
        (λ e. raise (SessionError.worker_error e))

  unfoldable pub run_frame : FrameId → Action Value Time (Unit {0})
  run_frame frame_id = do
    snapshot ← latest frame_id
    logs ← on_tree (λ tree. logs_of tree frame_id)
    data_kind ← on_tree (λ tree. data_of tree frame_id)
    id ← gets (λ c. c.session_id)
    let args : RunFrameArgs Value = record {
      session_id = id;
      frame_id = frame_id;
      channels = snapshot.channels;
      logs = logs;
      data_kind = data_kind;
    }
    spawn args
