-- ===== src/Session/Model.antt =====
-- The data that frames carry: requests, results, jobs and references. `Value` is serde_json's.
use marie.Base.{ℕ, String, List, string_eq, nat_eq}
use marie.Base.HashMap.{HashMap}
use marie.Id.{UniqueId, SessionId, FrameId, NodeId}

-- catalog/mod.rs: the version is a `u64`.
pub record CatalogItemRef : Type 0 where
  pub kind : String
  pub id : String
  pub version : ℕ

-- `GraphRef(CatalogItemRef)`; the other names are strings.
abbrev pub GraphRef : Type 0
GraphRef = CatalogItemRef

abbrev pub GraphId : Type 0
GraphId = String

abbrev pub GraphNodeId : Type 0
GraphNodeId = String

abbrev pub ChannelName : Type 0
ChannelName = String

abbrev pub ExpertId : Type 0
ExpertId = String

abbrev pub ToolName : Type 0
ToolName = String

-- shell/mod.rs
pub data ShellMode : Type 0 where
  loop_model : String → String → List String → ShellMode
  expert : ExpertId → ShellMode

-- session/snapshot/mod.rs
pub record SnapshotRef : Type 0 where
  pub session_id : SessionId
  pub frame_id : FrameId
  pub superstep : ℕ

-- hitl/model.rs
pub data QuestionKind : Type 0 where
  short_text : QuestionKind
  long_text : QuestionKind
  select : List String → QuestionKind
  radio : List String → QuestionKind
  checkboxes : List String → QuestionKind
  file_upload : List String → QuestionKind

pub record Question : Type 0 where
  pub key : String
  pub label : String
  pub kind : QuestionKind

pub data Answer : Type 0 where
  single : String → Answer
  multiple : List String → Answer

-- worker/mod.rs; an `ExecutionError` carries the chain of messages of a `crate::Error`.
pub data WorkerError : Type 0 where
  no_job_executor_found : String → WorkerError
  no_job_found : UniqueId → WorkerError
  panicked : String → WorkerError
  execution_error : List String → WorkerError
  no_worker_available : WorkerError
  probing_time_out : WorkerError
  ack_time_out : WorkerError
  scheduled_error : String → WorkerError
  rpc_error : String → WorkerError
  serde_error : String → WorkerError

module _ (Value : Type 0) where
  -- expert/mod.rs and tools/mod.rs
  pub record RequestAskExpert : Type 0 where
    pub task : String
    pub expert_id : ExpertId

  pub record RequestToolCall : Type 0 where
    pub name : ToolName
    pub parameters : Value

  -- job/mod.rs
  pub record JobInstance : Type 0 where
    pub id : UniqueId
    pub name : String
    pub args : Value

  -- session/channel.rs
  pub record ChannelUpdate : Type 0 where
    pub name : ChannelName
    pub value : Value
    pub contributor : FrameId

  -- session/protocol.rs
  pub record Branch : Type 0 where
    pub start : GraphNodeId
    pub overrides : HashMap ChannelName Value

-- job/mod.rs: what a job of a given return type is at.
module _ (Value Return : Type 0) where
  pub data JobState : Type 0 where
    unknown : JobState
    pending_scheduling : JobInstance Value → NodeId → JobState
    pending_ack : NodeId → JobState
    probing : NodeId → JobState
    scheduled : NodeId → JobState
    running : NodeId → JobState
    completed : Return → JobState
    failed : WorkerError → JobState
