-- ===== src/Session/Checkpointer/Untouched/Marks.antt =====
-- The changes of status and the job of a frame keep what `Extends` lists.
use marie.Base.{String}
use marie.Id.{FrameId}
use marie.Session.Protocol.{FrameResponse}
use marie.Session.Frames.Policy.{FrameSpecRef}
use marie.Session.Frames.Node.{FrameNode}
use marie.Session.Frames.Tree.Access as Access
use marie.Session.Checkpointer.State.{Checkpointer, Outside, RunFrameArgs, on_tree, change_tree}
use marie.Session.Checkpointer.Keeps.{
  Keeps, Keeps-pure, Keeps-raise, Keeps-panic, Keeps-gets, Keeps-unwrap, Keeps-lift, Keeps-bind,
  Keeps-choose, Keeps-let_else, Keeps-for_each,
}
use marie.Session.Checkpointer.Extends.{Extends, read-SameStore, update-SameStore}
use marie.Session.Checkpointer.Steps.{
  on_tree-Extends, change_tree-Extends, emit-Extends, next_id-Extends, read_clock-Extends,
  spawned-Extends, latest-Extends, push-Extends, request-Extends, load-Extends,
}
use marie.Session.Checkpointer.Marks.{
  mark_as_waiting_children, emit_run_terminated, mark_frame_run_completed, mark_frame_run_failed,
  mark_ready_to_run_frame, mark_failed_frame, notify_parent, mark_completed_frame, spec_of,
  common_spec_of, spawn, run_frame,
}

module _ {Value Time : Type 0} {s : Checkpointer Value Time} where
  pub read-Extends :
      {A : Type 0} (id : FrameId) (f : FrameNode Value → A)
      → Keeps (Extends s) (on_tree (λ tree. Access.read tree id f))
  read-Extends id f = on_tree-Extends _ (λ t u a e. read-SameStore t u id f a e)

  pub update-Extends :
      (id : FrameId) (f : FrameNode Value → FrameNode Value)
      → Keeps (Extends s) (change_tree (λ tree. Access.update tree id f))
  update-Extends id f = change_tree-Extends _ (λ t u e. update-SameStore t u id f e)

  pub mark_as_waiting_children-Extends :
      (frame_id : FrameId) → Keeps (Extends s) (mark_as_waiting_children frame_id)
  unfolding mark_as_waiting_children Access.set_status
  mark_as_waiting_children-Extends frame_id = search (update-Extends) depth 16

  pub emit_run_terminated-Extends :
      (frame_id : FrameId) → Keeps (Extends s) (emit_run_terminated frame_id)
  unfolding emit_run_terminated
  emit_run_terminated-Extends frame_id = search (Keeps-gets, Keeps-bind, emit-Extends) depth 16

  pub mark_frame_run_completed-Extends :
      (frame_id : FrameId) (response : FrameResponse Value)
      → Keeps (Extends s) (mark_frame_run_completed frame_id response)
  unfolding mark_frame_run_completed Access.set_status
  mark_frame_run_completed-Extends frame_id response =
      search (Keeps-bind, update-Extends, emit_run_terminated-Extends) depth 16

  pub mark_frame_run_failed-Extends :
      (frame_id : FrameId) (error : String)
      → Keeps (Extends s) (mark_frame_run_failed frame_id error)
  unfolding mark_frame_run_failed Access.set_status
  mark_frame_run_failed-Extends frame_id error =
      search (Keeps-bind, update-Extends, emit_run_terminated-Extends) depth 16

  pub mark_ready_to_run_frame-Extends :
      (frame_id : FrameId) → Keeps (Extends s) (mark_ready_to_run_frame frame_id)
  unfolding mark_ready_to_run_frame Access.set_status
  mark_ready_to_run_frame-Extends frame_id =
      search (Keeps-gets, Keeps-bind, emit-Extends, update-Extends) depth 16

  pub mark_failed_frame-Extends :
      (error : String) (frame_id : FrameId) → Keeps (Extends s) (mark_failed_frame error frame_id)
  unfolding mark_failed_frame Access.set_status
  mark_failed_frame-Extends error frame_id =
      search (Keeps-gets, Keeps-bind, emit-Extends, update-Extends) depth 16

  pub notify_parent-Extends : (frame_id : FrameId) → Keeps (Extends s) (notify_parent frame_id)
  unfolding notify_parent
  notify_parent-Extends frame_id =
      search (Keeps-pure, Keeps-gets, Keeps-bind, Keeps-let_else, emit-Extends) depth 16

  pub mark_completed_frame-Extends :
      (frame_id : FrameId) → Keeps (Extends s) (mark_completed_frame frame_id)
  unfolding mark_completed_frame Access.set_status
  mark_completed_frame-Extends frame_id =
      search (Keeps-gets, Keeps-bind, emit-Extends, update-Extends, notify_parent-Extends) depth 16

module _ {Value Float Time : Type 0} (outside : Outside Value Float Time)
    {s : Checkpointer Value Time} where
  pub spec_of-Extends : (spec_ref : FrameSpecRef) → Keeps (Extends s) (spec_of outside spec_ref)
  unfolding spec_of
  spec_of-Extends (FrameSpecRef.graph r) =
      search (Keeps-pure, Keeps-gets, Keeps-unwrap, Keeps-bind) depth 16
  spec_of-Extends FrameSpecRef.hitl_spec = search (Keeps-pure) depth 16
  spec_of-Extends FrameSpecRef.tool_call = search (Keeps-pure) depth 16
  spec_of-Extends FrameSpecRef.tool_aggregator = search (Keeps-pure) depth 16
  spec_of-Extends FrameSpecRef.expert = search (Keeps-pure) depth 16
  spec_of-Extends FrameSpecRef.expert_aggregator = search (Keeps-pure) depth 16

  pub common_spec_of-Extends :
      (frame_id : FrameId) → Keeps (Extends s) (common_spec_of outside frame_id)
  unfolding common_spec_of Access.spec_ref_of
  common_spec_of-Extends frame_id = search (Keeps-bind, read-Extends, spec_of-Extends) depth 16

  pub spawn-Extends : (args : RunFrameArgs Value) → Keeps (Extends s) (spawn outside args)
  unfolding spawn
  spawn-Extends args = search (Keeps-raise, Keeps-let_else, spawned-Extends) depth 16

  pub run_frame-Extends : (frame_id : FrameId) → Keeps (Extends s) (run_frame outside frame_id)
  unfolding run_frame Access.logs_of Access.data_of
  run_frame-Extends frame_id =
      search (Keeps-gets, Keeps-bind, latest-Extends, read-Extends, spawn-Extends) depth 16

pub ruleset mark_rules = (
  Keeps-pure, Keeps-raise, Keeps-panic, Keeps-gets, Keeps-unwrap, Keeps-lift, Keeps-bind,
  Keeps-choose, Keeps-let_else, Keeps-for_each, emit-Extends, next_id-Extends, read_clock-Extends,
  spawned-Extends, latest-Extends, push-Extends, request-Extends, load-Extends, read-Extends,
  update-Extends, mark_as_waiting_children-Extends, emit_run_terminated-Extends,
  mark_frame_run_completed-Extends, mark_frame_run_failed-Extends, mark_ready_to_run_frame-Extends,
  mark_failed_frame-Extends, notify_parent-Extends, mark_completed_frame-Extends, spec_of-Extends,
  common_spec_of-Extends, spawn-Extends, run_frame-Extends,
)
