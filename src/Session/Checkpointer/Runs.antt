-- ===== src/Session/Checkpointer/Runs.antt =====
-- session/checkpointer/mod.rs: the states of a run, and what its response asks for.
use marie.Base.{Option, none, some, List, [], ◌∷◌}
use marie.Base.HashMap
use marie.Base.{string_eq}
use marie.Id.{FrameId}
use marie.Session.Model.{JobState, GraphRef, GraphNodeId, ChannelUpdate, Branch}
use marie.Session.Protocol.{FrameResult, FrameResponse}
use marie.Session.Hitl.Store.{Hitl}
use marie.Session.Frames.Policy.{FrameStatus, FrameKind, ReducePolicy, into_graph_ref}
use marie.Session.Frames.Tree.{parent_of}
use marie.Session.Frames.Tree.Access.{
  status_of, data_of, spec_ref_of, logs_of, append_logs, set_reduce_policy,
}
use marie.Session.Checkpointer.State.{
  Outside, Action, pure, gets, let_else, on_tree, unwrap, change_tree, next_id, ◌>>=◌, ◌>>◌,
}
use marie.Session.Checkpointer.Marks.{
  mark_as_waiting_children, emit_run_terminated, mark_frame_run_completed, mark_frame_run_failed,
  mark_failed_frame, mark_completed_frame,
}
use marie.Session.Checkpointer.Commits.{commit_snapshot}
use marie.Session.Checkpointer.Appends.{
  append_graph_node, append_graph_span, append_graph, request, append_experts_consultations,
  append_tool_calls, graph_spec,
}
use marie.Session.Checkpointer.Children.{latest_ref}

module _ {Value : Type 0} where
  -- The patterns of the handlers on the kind and on the status of a frame.
  unfoldable pub graph_node_of : FrameKind Value → Option (GraphRef × GraphNodeId)
  graph_node_of (FrameKind.graph_node graph_ref node_id) = some (graph_ref, node_id)
  graph_node_of _ = none

  unfoldable pub response_of : FrameStatus Value → Option (FrameResponse Value)
  response_of (FrameStatus.run_completed response) = some response
  response_of _ = none

module _ {Value Time : Type 0} where
  -- `Continue` and `GoTo` need the parent and the graph of the frame; they do nothing without.
  unfoldable pub node_of_frame :
      FrameId
      → (FrameId → GraphRef → GraphNodeId → Action Value Time (Unit {0}))
      → Action Value Time (Unit {0})
  node_of_frame frame_id follow = do
    parent ← gets (λ c. parent_of c.frames frame_id)
    let_else parent (pure tt) λ parent_id. do
      kind ← on_tree (λ tree. data_of tree frame_id)
      let_else (graph_node_of kind) (pure tt) (λ node. follow parent_id node.0 node.1)

module _ {Value Float Time : Type 0} (outside : Outside Value Float Time) where
  -- The text of the error is that of `ToString`.
  unfoldable pub on_frame_run_update :
      FrameId → JobState Value (FrameResponse Value) → Action Value Time (Unit {0})
  on_frame_run_update frame_id (JobState.completed response) = do
    mark_frame_run_completed frame_id response
    emit_run_terminated frame_id
  on_frame_run_update frame_id (JobState.failed error) = do
    mark_frame_run_failed frame_id (outside.worker_text error)
    emit_run_terminated frame_id
  on_frame_run_update frame_id _ = pure tt

  -- The updates of the response, if there are any.
  unfoldable pub commit_updates :
      FrameId → List (ChannelUpdate Value) → Action Value Time (Unit {0})
  commit_updates frame_id [] = pure tt
  commit_updates frame_id (update ∷ updates) = do
    snapshot_ref ← latest_ref frame_id
    commit_snapshot outside frame_id snapshot_ref.superstep (update ∷ updates) []
    pure tt

  unfoldable pub continue_to :
      FrameId → FrameId → GraphRef → GraphNodeId → Action Value Time (Unit {0})
  continue_to frame_id parent_id graph_ref node_id = do
    append_graph_node outside parent_id graph_ref node_id
    mark_completed_frame frame_id

  unfoldable pub continue_after :
      FrameId → FrameId → GraphRef → GraphNodeId → Action Value Time (Unit {0})
  continue_after frame_id parent_id graph_ref node_id = do
    spec ← graph_spec outside graph_ref
    let_else (HashMap.get spec.edges node_id) (pure tt)
        (λ next. continue_to frame_id parent_id graph_ref next)

  -- The changes of the parent's policies are not awaited.
  unfoldable pub fork : FrameId → List (Branch Value) → GraphNodeId → Action Value Time (Unit {0})
  fork frame_id branches join = do
    parent ← gets (λ c. parent_of c.frames frame_id)
    let_else parent (pure tt) λ parent_id. do
      spec_ref ← on_tree (λ tree. spec_ref_of tree parent_id)
      graph_ref ← unwrap (into_graph_ref spec_ref)
      append_graph_span outside parent_id graph_ref branches join
      mark_as_waiting_children parent_id
      mark_completed_frame frame_id

  -- The binding of the request to its log and the change of the policy are not awaited, only the
  -- logs are read for the binding's argument.
  unfoldable pub request_hitl : FrameId → Hitl → Action Value Time (Unit {0})
  request_hitl frame_id hitl = do
    id ← next_id outside.ids
    request id hitl
    on_tree (λ tree. logs_of tree frame_id)
    mark_as_waiting_children frame_id

  unfoldable pub dispatch_result : FrameId → FrameResult Value → Action Value Time (Unit {0})
  dispatch_result frame_id (FrameResult.request_hitl hitl) = request_hitl frame_id hitl
  dispatch_result frame_id (FrameResult.consult_experts requests) = do
    append_experts_consultations outside frame_id requests
    change_tree (λ tree. set_reduce_policy tree frame_id ReducePolicy.reduce)
    mark_as_waiting_children frame_id
  dispatch_result frame_id (FrameResult.call_tools requests) = do
    append_tool_calls outside frame_id requests
    change_tree (λ tree. set_reduce_policy tree frame_id ReducePolicy.reduce)
    mark_as_waiting_children frame_id
  dispatch_result frame_id (FrameResult.execute_graph graph_id) = do
    append_graph outside frame_id graph_id
    mark_as_waiting_children frame_id
  dispatch_result frame_id FrameResult.continue_next =
      node_of_frame frame_id (continue_after frame_id)
  dispatch_result frame_id (FrameResult.go_to node_id) =
      node_of_frame frame_id
        (λ parent_id graph_ref n. continue_to frame_id parent_id graph_ref node_id)
  dispatch_result frame_id (FrameResult.fork branches join) = fork frame_id branches join
  dispatch_result frame_id FrameResult.completed = mark_completed_frame frame_id
  dispatch_result frame_id (FrameResult.failed error) = mark_failed_frame error frame_id

  unfoldable pub interpret : FrameId → FrameResponse Value → Action Value Time (Unit {0})
  interpret frame_id response = do
    commit_updates frame_id response.updates
    change_tree (λ tree. append_logs tree frame_id response.new_logs)
    dispatch_result frame_id response.result

  unfoldable pub on_frame_run_terminated : FrameId → Action Value Time (Unit {0})
  on_frame_run_terminated frame_id = do
    status ← on_tree (λ tree. status_of tree frame_id)
    let_else (response_of status) (pure tt) (λ response. interpret frame_id response)
