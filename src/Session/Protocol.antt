-- ===== src/Session/Protocol.antt =====
-- session/protocol.rs: what a run of a frame answers.
use marie.Base.{String, List}
use marie.Id.{FrameId}
use marie.Session.Model.{
  GraphId, GraphNodeId, RequestAskExpert, RequestToolCall, ChannelUpdate, Branch,
}
use marie.Session.Hitl.Store.{Hitl}
use marie.Session.RunLogs.{RunLog}

module _ (Value : Type 0) where
  pub data FrameResult : Type 0 where
    request_hitl : Hitl → FrameResult
    consult_experts : List (RequestAskExpert Value) → FrameResult
    call_tools : List (RequestToolCall Value) → FrameResult
    execute_graph : GraphId → FrameResult
    continue_next : FrameResult
    go_to : GraphNodeId → FrameResult
    fork : List (Branch Value) → GraphNodeId → FrameResult
    completed : FrameResult
    failed : String → FrameResult

  pub record FrameResponse : Type 0 where
    pub frame_id : FrameId
    pub updates : List (ChannelUpdate Value)
    pub new_logs : List (RunLog Value)
    pub result : FrameResult
