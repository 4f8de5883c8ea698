-- ===== src/Session/Checkpointer/Handlers.antt =====
-- session/checkpointer/mod.rs: the handlers of the other events, and `process_event`.
use marie.Base.{Bool, true, false, none, some, List, [], ◌∷◌, ok, err}
use marie.Base.{string_eq}
use marie.Id.{FrameId, HitlId}
use marie.Session.Hitl.Validate.{Answers}
use marie.Session.Frames.Policy.{FramePolicy, FrameStatus, ResumePolicy, OnStartPolicy}
use marie.Session.Frames.Store as Frames
use marie.Session.Frames.Tree.Access.{
  status_of, policy_of, resolve_log, set_resume_policy, log_index_bound_to_hitl_id,
}
use marie.Session.Checkpointer.State.{
  SessionCheckpointEvent, Outside, Action, pure, todo, unless_panicked, gets, choose, let_else,
  on_tree, unwrap, change_tree, modify, ◌>>=◌, ◌>>◌,
}
use marie.Session.Sessions.{flush}
use marie.Session.Checkpointer.Marks.{
  mark_as_waiting_children, mark_ready_to_run_frame, notify_parent, run_frame, fail,
}
use marie.Session.Checkpointer.Appends.{append_graph_node, append_graph_thread, append_graph_span}
use marie.Session.Checkpointer.Children.{on_child_frame_terminated}
use marie.Session.Checkpointer.Runs.{on_frame_run_update, on_frame_run_terminated}

module _ {Value : Type 0} where
  -- The `FrameStatus::Pending` test of `on_frame_created`.
  unfoldable pub is_pending : FrameStatus Value → Bool
  is_pending FrameStatus.pending = true
  is_pending _ = false

module _ {Value Time : Type 0} where
  -- A `.await` whose error is dropped.
  unfoldable pub ignore_error : {A : Type 0} → Action Value Time A → Action Value Time (Unit {0})
  ignore_error m c = elim (m c) [ none ↦ none | some (r, c') ↦ some (ok tt, c') ]

  unfoldable pub on_session_created : Action Value Time (Unit {0})
  on_session_created = pure tt

  unfoldable pub on_frame_terminated : FrameId → Action Value Time (Unit {0})
  on_frame_terminated frame_id = notify_parent frame_id

module _ {Value Time : Type 0} where
  unfoldable pub flush_session : Action Value Time (Unit {0})
  flush_session = modify (λ c.
      let (cell, sessions) = flush c.session c.sessions in
      record c { session = cell; sessions = sessions })

module _ {Value Float Time : Type 0} (outside : Outside Value Float Time) where
  -- It ends in `todo!()`.
  unfoldable pub on_hitl_response : HitlId → Answers → Action Value Time (Unit {0})
  on_hitl_response hitl_id answers = do
    bound ← gets (λ c. Frames.get_frame_id_by_hitl_id c.frames.store c.frames.session_id hitl_id)
    let_else bound (pure tt) λ frame_id. do
      found ← on_tree (λ tree. log_index_bound_to_hitl_id tree frame_id hitl_id)
      index ← unwrap found
      change_tree (λ tree. resolve_log tree frame_id index (outside.of_answers answers))
      mark_ready_to_run_frame frame_id
      todo

  -- The errors of the three appends are dropped.
  unfoldable pub start_frame : FrameId → OnStartPolicy Value → Action Value Time (Unit {0})
  start_frame frame_id OnStartPolicy.run_frame = mark_ready_to_run_frame frame_id
  start_frame frame_id (OnStartPolicy.append_graph_thread graph_ref start) = do
    ignore_error (append_graph_thread outside frame_id graph_ref start)
    mark_as_waiting_children frame_id
  start_frame frame_id (OnStartPolicy.append_graph_span graph_ref join branches) = do
    ignore_error (append_graph_span outside frame_id graph_ref branches join)
    mark_as_waiting_children frame_id
  start_frame frame_id (OnStartPolicy.append_graph_node graph_ref start) = do
    ignore_error (append_graph_node outside frame_id graph_ref start)
    change_tree (λ tree. set_resume_policy tree frame_id ResumePolicy.sequential)
    mark_as_waiting_children frame_id

  unfoldable pub start_pending : FrameId → Action Value Time (Unit {0})
  start_pending frame_id = do
    policy ← on_tree (λ tree. policy_of tree frame_id)
    start_frame frame_id (FramePolicy.on_start_policy policy)

  unfoldable pub on_frame_created : FrameId → Action Value Time (Unit {0})
  on_frame_created frame_id = do
    status ← on_tree (λ tree. status_of tree frame_id)
    choose (is_pending status) (start_pending frame_id) (pure tt)

  unfoldable pub on_frame_ready : FrameId → Action Value Time (Unit {0})
  on_frame_ready frame_id = run_frame outside frame_id

  unfoldable pub handle_event : SessionCheckpointEvent Value → Action Value Time (Unit {0})
  handle_event (SessionCheckpointEvent.session_created id) = on_session_created
  handle_event (SessionCheckpointEvent.frame_created id frame_id) = on_frame_created frame_id
  handle_event (SessionCheckpointEvent.hitl_answered id hitl_id answers) =
      on_hitl_response hitl_id answers
  handle_event (SessionCheckpointEvent.frame_run_job_state_update id frame_id job_state) =
      on_frame_run_update outside frame_id job_state
  handle_event (SessionCheckpointEvent.frame_ready id frame_id) = on_frame_ready frame_id
  handle_event (SessionCheckpointEvent.frame_run_terminated id frame_id) =
      on_frame_run_terminated outside frame_id
  handle_event (SessionCheckpointEvent.child_frame_terminated id parent_id child_id) =
      on_child_frame_terminated outside parent_id child_id
  handle_event (SessionCheckpointEvent.frame_terminated id frame_id) = on_frame_terminated frame_id

  unfoldable pub process_event : SessionCheckpointEvent Value → Action Value Time (Unit {0})
  process_event event c = elim (handle_event event c) [
    | none ↦ none
    | some (r, c') ↦ elim r [
      | ok u ↦ some (ok u, c')
      | err e ↦ elim (fail outside e c') [ none ↦ none | some (s, c'') ↦ some (err e, c'') ]
    ]
  ]

  -- `close_and_process_remaining_events`, which stops at the first error
  unfoldable pub process_remaining :
      List (SessionCheckpointEvent Value) → Action Value Time (Unit {0})
  process_remaining [] = pure tt
  process_remaining (event ∷ events) = do
    process_event event
    unless_panicked (process_remaining events)

  -- The loop of `run` over the events that it receives, whose results it drops.
  unfoldable pub process_received :
      List (SessionCheckpointEvent Value) → Action Value Time (Unit {0})
  process_received [] = pure tt
  process_received (event ∷ events) = do
    ignore_error (process_event event)
    unless_panicked (process_received events)

  -- `run`: the events before the closing, those that are left until the queue is closed, and the last
  -- flush
  unfoldable pub run :
      List (SessionCheckpointEvent Value)
      → List (SessionCheckpointEvent Value)
      → Action Value Time (Unit {0})
  run received remaining = do
    process_received received
    unless_panicked (ignore_error (process_remaining remaining))
    unless_panicked flush_session
