-- ===== src/Session/Frames/Policy.antt =====
-- frames/policy.rs, frames/status.rs, frames/data.rs and `FrameSpecRef` of frames/mod.rs.
use marie.Base.{ℕ, String, Bool, true, false, List, Option, none, some}
use marie.Id.{UniqueId, HitlId}
use marie.Session.Model.{GraphRef, GraphNodeId, ToolName, ShellMode, JobState, Branch}
use marie.Session.Protocol.{FrameResponse}

pub data ReducePolicy : Type 0 where
  dont_reduce : ReducePolicy
  reduce : ReducePolicy

pub data OnResumePolicy : Type 0 where
  run_frame : OnResumePolicy
  mark_complete : OnResumePolicy

pub data ChildFailurePolicy : Type 0 where
  fail_if_at_least_has_failed : ℕ → ChildFailurePolicy
  dont_fail : ChildFailurePolicy

pub data ResumePolicy : Type 0 where
  sequential : ResumePolicy
  hitl : ResumePolicy
  fan_in : ResumePolicy

pub data FrameSpecRef : Type 0 where
  graph : GraphRef → FrameSpecRef
  tool_aggregator : FrameSpecRef
  tool_call : FrameSpecRef
  expert : FrameSpecRef
  expert_aggregator : FrameSpecRef
  hitl_spec : FrameSpecRef

-- `none` where the source panics
unfoldable pub into_graph_ref : FrameSpecRef → Option GraphRef
into_graph_ref (graph r) = some r
into_graph_ref _ = none

module _ (Value : Type 0) where
  pub data OnStartPolicy : Type 0 where
    run_frame : OnStartPolicy
    append_graph_thread : GraphRef → GraphNodeId → OnStartPolicy
    append_graph_span : GraphRef → GraphNodeId → List (Branch Value) → OnStartPolicy
    append_graph_node : GraphRef → GraphNodeId → OnStartPolicy

  pub record FramePolicy : Type 0 where
    pub on_child_failed : ChildFailurePolicy
    pub resume_policy : ResumePolicy
    pub reduce_policy : ReducePolicy
    pub on_resume_policy : OnResumePolicy
    pub on_start_policy : OnStartPolicy

  pub data FrameStatus : Type 0 where
    pending : FrameStatus
    run_completed : FrameResponse Value → FrameStatus
    run_failed : String → FrameStatus
    failed : String → FrameStatus
    completed : FrameStatus
    ready : FrameStatus
    running : JobState Value Value → FrameStatus
    run_exhausted : FrameStatus
    waiting_children : FrameStatus

  pub data FrameKind : Type 0 where
    void : FrameKind
    shell : ShellMode → FrameKind
    hitl : HitlId → FrameKind
    expert_consultation : FrameKind
    tool_call : UniqueId → ToolName → Value → FrameKind
    graph : GraphRef → FrameKind
    graph_node : GraphRef → GraphNodeId → FrameKind
    graph_thread : GraphRef → FrameKind
    graph_span : GraphRef → GraphNodeId → FrameKind

module _ {Value : Type 0} where
  unfoldable pub has_completed : FrameStatus Value → Bool
  has_completed FrameStatus.completed = true
  has_completed _ = false

  unfoldable pub has_failed : FrameStatus Value → Bool
  has_failed (FrameStatus.failed e) = true
  has_failed _ = false

  unfoldable pub has_terminated : FrameStatus Value → Bool
  has_terminated FrameStatus.completed = true
  has_terminated (FrameStatus.failed e) = true
  has_terminated _ = false
