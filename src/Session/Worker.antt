-- ===== src/Session/Worker.antt =====
-- session/worker.rs: the job that runs a frame. The catalogs of experts and tools, the models, the
-- tools and the nodes of graphs are parameters, whose errors are texts.
pub mod Consultation
mod Examples
use marie.Base.{String, Option, none, some, List, [], ◌∷◌, ◌==◌, string_eq, Result, ok, err}
use marie.Base.HashMap
use marie.Id.{FrameId, SessionId}
use marie.Session.Model.{ChannelName, ChannelUpdate, GraphRef, GraphNodeId, ToolName}
use marie.Session.Channel.{ChannelsTracker, ReadError, read, write, into_updates}
use marie.Session.Channel as Channel
use marie.Session.RunLogs as RunLogs
use marie.Session.RunLogs.{RunLog, RunLogs}
use marie.Session.Protocol.{FrameResult, FrameResponse}
use marie.Session.Graphs.{GraphSpec, NodeSpec}
use marie.Session.Frames.Policy.{FrameKind}
use marie.Session.Checkpointer.State.{RunFrameArgs}

-- What the job reads of an expert, with the rest of it.
pub record Expert (Rest : Type 0) : Type 0 where
  pub allowed_tools : List String
  pub rest : Rest

pub data ModelStreamEvent : Type 0 where
  completed : Option String → ModelStreamEvent
  failed : String → ModelStreamEvent
  text_delta : String → ModelStreamEvent

pub record Services (Value Rest Tool : Type 0) : Type 0 where
  pub as_text : Value → Option String
  pub of_answer : Option String → Value
  pub expert : String → Result (Option (Expert Rest)) String
  pub tool : String → Result (Option Tool) String
  pub graph : GraphRef → Result (GraphSpec Value) String
  pub execute_model : Rest → String → List Tool → Result (List ModelStreamEvent) String
  pub execute_tool : SessionId → ToolName → Value → Result Value String
  pub execute_node :
      NodeSpec Value
      → ChannelsTracker Value × RunLogs Value
      → Result ((ChannelsTracker Value × RunLogs Value) × FrameResult Value) String
  pub expert_missing : String → String
  pub tool_missing : String → String → String
  pub node_missing : GraphNodeId → GraphRef → String

-- The errors that `?` passes on to the worker.
pub data JobError : Type 0 where
  read_error : ReadError → JobError
  deserialize : JobError

module _ {Value : Type 0} where
  unfoldable pub failure : FrameId → List (ChannelUpdate Value) → String → FrameResponse Value
  failure frame_id updates error = record {
    frame_id = frame_id;
    updates = updates;
    new_logs = [];
    result = FrameResult.failed error;
  }

  unfoldable pub success : FrameId → List (ChannelUpdate Value) → FrameResponse Value
  success frame_id updates = record {
    frame_id = frame_id;
    updates = updates;
    new_logs = [];
    result = FrameResult.completed;
  }

module _ {Value Rest Tool : Type 0} (services : Services Value Rest Tool) where
  -- `channels.read(name)?` into a text
  unfoldable pub read_text : ChannelsTracker Value → ChannelName → Result String JobError
  read_text channels name = elim (read channels name) [
    | err e ↦ err (JobError.read_error e)
    | ok value ↦ elim (services.as_text value) [
      | some text ↦ ok text
      | none ↦ err JobError.deserialize
    ]
  ]

  -- The loop over the tools that the expert may use.
  unfoldable pub tools_of : String → List String → Result (List Tool) String
  tools_of expert_id [] = ok []
  tools_of expert_id (tool_id ∷ tool_ids) = elim (services.tool tool_id) [
    | err e ↦ err e
    | ok none ↦ err (services.tool_missing tool_id expert_id)
    | ok (some tool) ↦ elim (tools_of expert_id tool_ids) [
      | err e ↦ err e
      | ok tools ↦ ok (tool ∷ tools)
    ]
  ]

  -- The loop over the stream: the last answer and the last failure.
  unfoldable pub follow :
      Option String → Option String → List ModelStreamEvent → Option String × Option String
  follow answer failure [] = (answer, failure)
  follow answer failure (ModelStreamEvent.completed text ∷ events) = follow text failure events
  follow answer failure (ModelStreamEvent.failed message ∷ events) =
      follow answer (some message) events
  follow answer failure (ModelStreamEvent.text_delta text ∷ events) = follow answer failure events

  -- The events of the stream, or the text of the failure.
  unfoldable pub consult : String → String → Result (List ModelStreamEvent) String
  consult expert_id task = elim (services.expert expert_id) [
    | err e ↦ err e
    | ok none ↦ err (services.expert_missing expert_id)
    | ok (some expert) ↦ elim (tools_of expert_id expert.allowed_tools) [
      | err e ↦ err e
      | ok tools ↦ services.execute_model expert.rest task tools
    ]
  ]

  unfoldable pub answer_with :
      FrameId → ChannelsTracker Value → Option String × Option String → FrameResponse Value
  answer_with frame_id channels (answer, some error) =
      failure frame_id (into_updates channels) error
  answer_with frame_id channels (answer, none) =
      success frame_id
        (into_updates (write channels "expert_consultation_answer" (services.of_answer answer)))

  unfoldable pub run_consultation :
      FrameId → ChannelsTracker Value → Result (FrameResponse Value) JobError
  run_consultation frame_id channels = elim (read_text channels "expert_id") [
    | err e ↦ err e
    | ok expert_id ↦ elim (read_text channels "expert_consultation_task") [
      | err e ↦ err e
      | ok task ↦ elim (consult expert_id task) [
        | err e ↦ ok (failure frame_id [] e)
        | ok events ↦ ok (answer_with frame_id channels (follow none none events))
      ]
    ]
  ]

  unfoldable pub run_tool : SessionId → FrameId → ToolName → Value → FrameResponse Value
  run_tool session_id frame_id name parameters =
      elim (services.execute_tool session_id name parameters) [
        | ok value ↦
            success frame_id
              (record { name = "tool_result"; value = value; contributor = frame_id } ∷ [])
        | err e ↦ failure frame_id [] e
      ]

  unfoldable pub run_node :
      RunFrameArgs Value → ChannelsTracker Value → GraphRef → GraphNodeId → FrameResponse Value
  run_node args channels graph_ref node_id = elim (services.graph graph_ref) [
    | err e ↦ failure args.frame_id [] e
    | ok graph ↦ elim (HashMap.get graph.nodes node_id) [
      | none ↦ failure args.frame_id [] (services.node_missing node_id graph_ref)
      | some spec ↦ elim (services.execute_node spec (channels, RunLogs.new args.logs)) [
        | err e ↦ failure args.frame_id [] e
        | ok ((tracker, logs), result) ↦ record {
          frame_id = args.frame_id;
          updates = into_updates tracker;
          new_logs = RunLogs.into_new_logs logs;
          result = result;
        }
      ]
    ]
  ]

  unfoldable pub run_kind :
      RunFrameArgs Value
      → ChannelsTracker Value
      → FrameKind Value
      → Option (Result (FrameResponse Value) JobError)
  run_kind args channels FrameKind.expert_consultation =
      some (run_consultation args.frame_id channels)
  run_kind args channels (FrameKind.tool_call id name parameters) =
      some (ok (run_tool args.session_id args.frame_id name parameters))
  run_kind args channels (FrameKind.graph_node graph_ref node_id) =
      some (ok (run_node args channels graph_ref node_id))
  run_kind args channels _ = none

  -- `run_frame`; the other kinds of frames end in `todo!`.
  unfoldable pub run_frame : RunFrameArgs Value → Option (Result (FrameResponse Value) JobError)
  run_frame args = run_kind args (Channel.new args.frame_id args.channels) args.data_kind
