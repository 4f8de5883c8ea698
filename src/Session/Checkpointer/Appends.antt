-- ===== src/Session/Checkpointer/Appends.antt =====
-- session/checkpointer/mod.rs: the frames that are appended for graphs, requests to humans, experts and
-- tools.
use marie.Base.{false, none, some, List, ok, err, string_eq}
use marie.Base.HashMap
use marie.Base.HashMap.{HashMap}
use marie.Id.{FrameId, HitlId}
use marie.Session.Model.{GraphRef, GraphId, GraphNodeId, Branch, RequestAskExpert, RequestToolCall}
use marie.Session.Hitl.Store.{Hitl}
use marie.Session.Hitl.Service as Service
use marie.Session.Graphs as Graphs
use marie.Session.Frames.Policy.{
  FramePolicy, FrameKind, FrameSpecRef, ChildFailurePolicy, ResumePolicy, ReducePolicy,
  OnResumePolicy, OnStartPolicy,
}
use marie.Session.Frames.Node.{NewFrameNodeArgs}
use marie.Session.Checkpointer.State.{
  SessionError, Outside, Checkpointer, Action, pure, raise, gets, choose, let_else, lift, for_each,
  next_id, ◌>>=◌, ◌>>◌,
}
use marie.Session.Checkpointer.Marks.{mark_as_waiting_children}
use marie.Session.Checkpointer.Inheritance.{append_frame, write_to_inherited_channels}

module _ {Value : Type 0} where
  -- `FramePolicy::default()`
  abbrev pub default_policy : FramePolicy Value
  default_policy = record {
    on_child_failed = ChildFailurePolicy.dont_fail;
    resume_policy = ResumePolicy.sequential;
    reduce_policy = ReducePolicy.dont_reduce;
    on_resume_policy = OnResumePolicy.run_frame;
    on_start_policy = OnStartPolicy.run_frame;
  }

  -- The policy of a frame that only groups others.
  abbrev pub group_policy : ResumePolicy → FramePolicy Value
  group_policy resume = record default_policy {
    on_child_failed = ChildFailurePolicy.fail_if_at_least_has_failed 1;
    resume_policy = resume;
  }

module _ {Value Time : Type 0} where
  -- The builder of `NewFrameNodeArgs`, with its defaults
  unfoldable pub new_frame :
      FramePolicy Value
      → FrameSpecRef
      → FrameKind Value
      → Action Value Time (NewFrameNodeArgs Value)
  new_frame policy spec_ref data_kind c = some (
    ok (record {
      session_id = c.session_id;
      spec_ref = spec_ref;
      data_kind = data_kind;
      inherited_channels = HashMap.empty;
      forked_from = none;
      frame_policy = policy;
      barrier = false;
      superstep = 0;
    }),
    c,
  )

  -- `self.hitls.request(hitl).await?`
  unfoldable pub request : HitlId → Hitl → Action Value Time HitlId
  request id hitl c =
      let (r, hitls) = Service.request c.hitls id hitl in
      let c' : Checkpointer Value Time = record c { hitls = hitls } in
      elim r [
        | ok hitl_id ↦ some (ok hitl_id, c')
        | err e ↦ some (err (SessionError.hitl_error e), c')
      ]

module _ {Value Float Time : Type 0} (outside : Outside Value Float Time) where
  unfoldable pub append_graph_node : FrameId → GraphRef → GraphNodeId → Action Value Time (Unit {0})
  append_graph_node parent_id graph_ref node_id = do
    args ←
        new_frame default_policy (FrameSpecRef.graph graph_ref)
          (FrameKind.graph_node graph_ref node_id)
    append_frame outside parent_id args
    pure tt

  unfoldable pub append_graph_thread : FrameId → GraphRef → GraphNodeId → Action Value Time FrameId
  append_graph_thread parent_id graph_ref start = do
    args ←
        new_frame (group_policy ResumePolicy.sequential) (FrameSpecRef.graph graph_ref)
          (FrameKind.graph_thread graph_ref)
    thread_id ← append_frame outside parent_id args
    mark_as_waiting_children thread_id
    append_graph_node thread_id graph_ref start
    pure thread_id

  unfoldable pub append_branch : FrameId → GraphRef → Branch Value → Action Value Time (Unit {0})
  append_branch span_id graph_ref branch = do
    frame_id ← append_graph_thread span_id graph_ref branch.start
    choose (HashMap.is_empty branch.overrides) (pure tt)
        (write_to_inherited_channels outside frame_id branch.overrides)

  unfoldable pub append_graph_span :
      FrameId → GraphRef → List (Branch Value) → GraphNodeId → Action Value Time (Unit {0})
  append_graph_span parent_id graph_ref branches join = do
    args ←
        new_frame (group_policy ResumePolicy.fan_in) (FrameSpecRef.graph graph_ref)
          (FrameKind.graph_span graph_ref join)
    span_id ← append_frame outside parent_id args
    mark_as_waiting_children span_id
    for_each branches (append_branch span_id graph_ref)

  unfoldable pub latest_graph : GraphId → Action Value Time GraphRef
  latest_graph graph_id = do
    found ← gets (λ c. Graphs.latest outside.codec c.graphs graph_id)
    graph_ref ← lift SessionError.catalog_error found
    let_else graph_ref (raise (SessionError.graph_not_found graph_id)) pure

  unfoldable pub graph_spec : GraphRef → Action Value Time (Graphs.GraphSpec Value)
  graph_spec graph_ref = do
    graph ← gets (λ c. Graphs.get outside.codec c.graphs graph_ref)
    lift SessionError.catalog_error graph

  unfoldable pub append_graph : FrameId → GraphId → Action Value Time (Unit {0})
  append_graph parent_id graph_id = do
    graph_ref ← latest_graph graph_id
    spec ← graph_spec graph_ref
    let policy : FramePolicy Value = record (group_policy ResumePolicy.sequential) {
      on_start_policy = OnStartPolicy.append_graph_thread graph_ref spec.entry;
    }
    args ← new_frame policy (FrameSpecRef.graph graph_ref) (FrameKind.graph graph_ref)
    frame_id ← append_frame outside parent_id args
    mark_as_waiting_children frame_id

  unfoldable pub append_hitl : FrameId → Hitl → Action Value Time FrameId
  append_hitl frame_id hitl = do
    id ← next_id outside.ids
    hitl_id ← request id hitl
    args ← new_frame default_policy FrameSpecRef.hitl_spec (FrameKind.hitl hitl_id)
    append_frame outside frame_id args

  -- The future of `write_to_inherited_channels` is dropped: the expert and the task of the request
  -- are not written.
  unfoldable pub append_expert_consultation :
      FrameId → RequestAskExpert Value → Action Value Time FrameId
  append_expert_consultation parent_id request = do
    args ← new_frame default_policy FrameSpecRef.expert FrameKind.expert_consultation
    append_frame outside parent_id args

  unfoldable pub append_experts_consultations :
      FrameId → List (RequestAskExpert Value) → Action Value Time (Unit {0})
  append_experts_consultations callee_id requests =
      for_each requests (λ request. do append_expert_consultation callee_id request; pure tt)

  unfoldable pub append_tool_call : FrameId → RequestToolCall Value → Action Value Time FrameId
  append_tool_call parent_id request = do
    id ← next_id outside.ids
    args ←
        new_frame default_policy FrameSpecRef.tool_call
          (FrameKind.tool_call id request.name request.parameters)
    append_frame outside parent_id args

  unfoldable pub append_tool_aggregator : FrameId → Action Value Time FrameId
  append_tool_aggregator callee_id = do
    args ← new_frame (group_policy ResumePolicy.fan_in) FrameSpecRef.tool_aggregator FrameKind.void
    agg_id ← append_frame outside callee_id args
    mark_as_waiting_children agg_id
    pure agg_id

  unfoldable pub append_tool_calls :
      FrameId → List (RequestToolCall Value) → Action Value Time FrameId
  append_tool_calls callee_id requests = do
    agg_id ← append_tool_aggregator callee_id
    for_each requests (λ request. do append_tool_call agg_id request; pure tt)
    pure agg_id
