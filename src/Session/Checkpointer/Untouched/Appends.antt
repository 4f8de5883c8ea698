-- ===== src/Session/Checkpointer/Untouched/Appends.antt =====
-- The creation of frames keeps what `Extends` lists.
use marie.Base.{some, List, arith, subst}
use marie.Id.{FrameId}
use marie.Session.Model.{
  ChannelName, GraphRef, GraphId, GraphNodeId, Branch, RequestAskExpert, RequestToolCall,
}
use marie.Session.Frames.Policy.{FramePolicy, FrameKind, FrameSpecRef, ResumePolicy}
use marie.Session.Frames.Node.{NewFrameNodeArgs}
use marie.Session.Frames.Tree.Access as Access
use marie.Session.Frames.Tree.Links as Links
use marie.Session.Checkpointer.State.{Checkpointer, Outside, on_tree}
use marie.Session.Checkpointer.Keeps.{Keeps}
use marie.Session.Checkpointer.Extends.{Extends}
use marie.Session.Checkpointer.Steps.{on_tree-Extends}
use marie.Session.Checkpointer.Inheritance.{
  write_to_inherited_channels, inherit_from, inherit_from_parent, inherit_from_prev_sibling,
  inherit, append_frame,
}
use marie.Session.Checkpointer.Appends.{
  new_frame, append_graph_node, append_graph_thread, append_branch, append_graph_span, latest_graph,
  graph_spec, append_graph, request, append_expert_consultation, append_experts_consultations,
  append_tool_call, append_tool_aggregator, append_tool_calls,
}
use marie.Session.Checkpointer.Untouched.Marks.{mark_rules}

module _ {Value Time : Type 0} {s : Checkpointer Value Time} where
  pub append-Extends :
      (parent id : FrameId) (args : NewFrameNodeArgs Value)
      → Keeps (Extends s) (on_tree (λ tree. some (Links.append tree parent id args)))
  unfolding Links.append Links.insert Links.create_node
  append-Extends parent id args = on_tree-Extends _ (λ t u a e. ground (arith, e))

  pub new_frame-Extends :
      (policy : FramePolicy Value) (spec_ref : FrameSpecRef) (data_kind : FrameKind Value)
      → Keeps (Extends s) (new_frame policy spec_ref data_kind)
  unfolding new_frame
  new_frame-Extends policy spec_ref data_kind = record {
    at = λ c c' r e p. subst (Extends s) (ground (arith, e)) p;
  }

module _ {Value Float Time : Type 0} (outside : Outside Value Float Time)
    {s : Checkpointer Value Time} where
  pub write_to_inherited_channels-Extends :
      (frame_id : FrameId) (values : List (ChannelName × Value))
      → Keeps (Extends s) (write_to_inherited_channels outside frame_id values)
  unfolding write_to_inherited_channels
  write_to_inherited_channels-Extends frame_id values = search (mark_rules) depth 16

  pub inherit_from-Extends :
      (frame_id : FrameId) (source : FrameId)
      → Keeps (Extends s) (inherit_from outside frame_id source)
  unfolding inherit_from
  inherit_from-Extends frame_id source = search (mark_rules) depth 16

  pub inherit_from_parent-Extends :
      (frame_id : FrameId) → Keeps (Extends s) (inherit_from_parent outside frame_id)
  unfolding inherit_from_parent
  inherit_from_parent-Extends frame_id = search (mark_rules, inherit_from-Extends) depth 16

  pub inherit_from_prev_sibling-Extends :
      (frame_id : FrameId) → Keeps (Extends s) (inherit_from_prev_sibling outside frame_id)
  unfolding inherit_from_prev_sibling
  inherit_from_prev_sibling-Extends frame_id = search (mark_rules, inherit_from-Extends) depth 16

  pub inherit-Extends :
      (policy : ResumePolicy) (parent_id frame_id : FrameId)
      → Keeps (Extends s) (inherit outside policy parent_id frame_id)
  unfolding inherit
  inherit-Extends ResumePolicy.sequential parent_id frame_id =
      search (mark_rules, inherit_from_parent-Extends, inherit_from_prev_sibling-Extends) depth 16
  inherit-Extends ResumePolicy.hitl parent_id frame_id =
      search (mark_rules, inherit_from_parent-Extends) depth 16
  inherit-Extends ResumePolicy.fan_in parent_id frame_id =
      search (mark_rules, inherit_from_parent-Extends) depth 16

  pub append_frame-Extends :
      (parent_id : FrameId) (args : NewFrameNodeArgs Value)
      → Keeps (Extends s) (append_frame outside parent_id args)
  unfolding append_frame Access.policy_of
  append_frame-Extends parent_id args =
      search (mark_rules, append-Extends, inherit-Extends) depth 16

  pub append_graph_node-Extends :
      (parent_id : FrameId) (graph_ref : GraphRef) (node_id : GraphNodeId)
      → Keeps (Extends s) (append_graph_node outside parent_id graph_ref node_id)
  unfolding append_graph_node
  append_graph_node-Extends parent_id graph_ref node_id =
      search (mark_rules, new_frame-Extends, append_frame-Extends) depth 16

  pub append_graph_thread-Extends :
      (parent_id : FrameId) (graph_ref : GraphRef) (start : GraphNodeId)
      → Keeps (Extends s) (append_graph_thread outside parent_id graph_ref start)
  unfolding append_graph_thread
  append_graph_thread-Extends parent_id graph_ref start =
      search (mark_rules, new_frame-Extends, append_frame-Extends, append_graph_node-Extends) depth
        16

  pub append_branch-Extends :
      (span_id : FrameId) (graph_ref : GraphRef) (branch : Branch Value)
      → Keeps (Extends s) (append_branch outside span_id graph_ref branch)
  unfolding append_branch
  append_branch-Extends span_id graph_ref branch =
      search (mark_rules, write_to_inherited_channels-Extends, append_graph_thread-Extends) depth 16

  pub append_graph_span-Extends :
      (parent_id : FrameId) (graph_ref : GraphRef) (branches : List (Branch Value))
      (join : GraphNodeId)
      → Keeps (Extends s) (append_graph_span outside parent_id graph_ref branches join)
  unfolding append_graph_span
  append_graph_span-Extends parent_id graph_ref branches join =
      search (mark_rules, new_frame-Extends, append_frame-Extends, append_branch-Extends) depth 16

  pub latest_graph-Extends :
      (graph_id : GraphId) → Keeps (Extends s) (latest_graph outside graph_id)
  unfolding latest_graph
  latest_graph-Extends graph_id = search (mark_rules) depth 16

  pub graph_spec-Extends : (graph_ref : GraphRef) → Keeps (Extends s) (graph_spec outside graph_ref)
  unfolding graph_spec
  graph_spec-Extends graph_ref = search (mark_rules) depth 16

  pub append_graph-Extends :
      (parent_id : FrameId) (graph_id : GraphId)
      → Keeps (Extends s) (append_graph outside parent_id graph_id)
  unfolding append_graph
  append_graph-Extends parent_id graph_id =
      search
        (
          mark_rules, new_frame-Extends, append_frame-Extends, latest_graph-Extends,
          graph_spec-Extends,
        )
        depth 16

  pub append_expert_consultation-Extends :
      (parent_id : FrameId) (request : RequestAskExpert Value)
      → Keeps (Extends s) (append_expert_consultation outside parent_id request)
  unfolding append_expert_consultation
  append_expert_consultation-Extends parent_id request =
      search (mark_rules, new_frame-Extends, append_frame-Extends) depth 16

  pub append_experts_consultations-Extends :
      (callee_id : FrameId) (requests : List (RequestAskExpert Value))
      → Keeps (Extends s) (append_experts_consultations outside callee_id requests)
  unfolding append_experts_consultations
  append_experts_consultations-Extends callee_id requests =
      search (mark_rules, append_expert_consultation-Extends) depth 16

  pub append_tool_call-Extends :
      (parent_id : FrameId) (request : RequestToolCall Value)
      → Keeps (Extends s) (append_tool_call outside parent_id request)
  unfolding append_tool_call
  append_tool_call-Extends parent_id request =
      search (mark_rules, new_frame-Extends, append_frame-Extends) depth 16

  pub append_tool_aggregator-Extends :
      (callee_id : FrameId) → Keeps (Extends s) (append_tool_aggregator outside callee_id)
  unfolding append_tool_aggregator
  append_tool_aggregator-Extends callee_id =
      search (mark_rules, new_frame-Extends, append_frame-Extends) depth 16

  pub append_tool_calls-Extends :
      (callee_id : FrameId) (requests : List (RequestToolCall Value))
      → Keeps (Extends s) (append_tool_calls outside callee_id requests)
  unfolding append_tool_calls
  append_tool_calls-Extends callee_id requests =
      search (mark_rules, append_tool_call-Extends, append_tool_aggregator-Extends) depth 16

pub ruleset append_rules = (
  mark_rules, append-Extends, new_frame-Extends, write_to_inherited_channels-Extends,
  inherit_from-Extends, inherit_from_parent-Extends, inherit_from_prev_sibling-Extends,
  inherit-Extends, append_frame-Extends, append_graph_node-Extends, append_graph_thread-Extends,
  append_branch-Extends, append_graph_span-Extends, latest_graph-Extends, graph_spec-Extends,
  append_graph-Extends, append_expert_consultation-Extends, append_experts_consultations-Extends,
  append_tool_call-Extends, append_tool_aggregator-Extends, append_tool_calls-Extends,
)
