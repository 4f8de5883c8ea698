-- ===== src/Session/Checkpointer/Untouched/Handlers.antt =====
-- Every handler keeps what `Extends` lists.
use marie.Base.{true, List, [], ◌∷◌, arith, subst, inl, inr, Option-cases}
use marie.Id.{FrameId, HitlId}
use marie.Session.Model.{ChannelUpdate, GraphRef, GraphNodeId, Branch, JobState}
use marie.Session.RunLogs.{RunLog}
use marie.Session.Protocol.{FrameResponse, FrameResult}
use marie.Session.Hitl.Store.{Hitl}
use marie.Session.Hitl.Validate.{Answers}
use marie.Session.Frames.Policy.{ReducePolicy, ResumePolicy, OnStartPolicy}
use marie.Session.Frames.Tree.Access as Access
use marie.Session.Checkpointer.State.{
  Checkpointer, Outside, Action, SessionCheckpointEvent, change_tree, todo,
}
use marie.Session.Checkpointer.Keeps.{Keeps}
use marie.Session.Checkpointer.Extends.{Extends, SameStore, read-SameStore}
use marie.Session.Checkpointer.Steps.{change_tree-Extends}
use marie.Session.Checkpointer.Runs.{
  on_frame_run_update, commit_updates, node_of_frame, continue_to, continue_after, fork,
  request_hitl, dispatch_result, interpret, on_frame_run_terminated,
}
use marie.Session.Checkpointer.Handlers.{
  ignore_error, on_session_created, on_frame_terminated, on_hitl_response, start_frame,
  start_pending, on_frame_created, on_frame_ready, handle_event,
}
use marie.Session.Checkpointer.Untouched.Appends.{append_rules}
use marie.Session.Checkpointer.Untouched.Commits.{commit_rules}
use marie.Session.Checkpointer.Untouched.Marks.{update-Extends}

module _ {Value Time : Type 0} {s : Checkpointer Value Time} where
  todo-Extends : Keeps (Extends s) (todo {Value = Value} {Time = Time})
  unfolding todo
  todo-Extends = record {
    at = λ c d r e p.
        let q : Extends s (record c { panicked = true }) = record {
          frames = p.frames;
          snapshot_store = p.snapshot_store;
          snapshot_session = p.snapshot_session;
          detached = p.detached;
          session_id = p.session_id;
          session = p.session;
          sessions = p.sessions;
          announced = p.announced;
          graphs = p.graphs;
          sent = p.sent;
          spawned = p.spawned;
        } in
        subst (Extends s) (ground (arith, e)) q;
  }

  append_logs-Extends :
      (id : FrameId) (logs : List (RunLog Value))
      → Keeps (Extends s) (change_tree (λ tree. Access.append_logs tree id logs))
  unfolding Access.append_logs
  append_logs-Extends id [] = change_tree-Extends _ (λ t u e. ground (arith, e))
  append_logs-Extends id (log ∷ logs) = update-Extends id _

  set_reduce_policy-Extends :
      (id : FrameId) (policy : ReducePolicy)
      → Keeps (Extends s) (change_tree (λ tree. Access.set_reduce_policy tree id policy))
  unfolding Access.set_reduce_policy Access.policy_of
  set_reduce_policy-Extends id policy = change_tree-Extends _ (λ t u e.
      elim (Option-cases (Access.policy_of t id)) [
        | inl n ↦ absurd (ground (arith, n, e))
        | inr ((p, v), x) ↦
            subst (SameStore t) {x = v} {y = u} (ground (arith, x, e)) (read-SameStore t v id _ p x)
      ])

  set_resume_policy-Extends :
      (id : FrameId) (policy : ResumePolicy)
      → Keeps (Extends s) (change_tree (λ tree. Access.set_resume_policy tree id policy))
  unfolding Access.set_resume_policy Access.policy_of
  set_resume_policy-Extends id policy = change_tree-Extends _ (λ t u e.
      elim (Option-cases (Access.policy_of t id)) [
        | inl n ↦ absurd (ground (arith, n, e))
        | inr ((p, v), x) ↦
            subst (SameStore t) {x = v} {y = u} (ground (arith, x, e)) (read-SameStore t v id _ p x)
      ])

  ignore_error-Extends :
      {A : Type 0} (m : Action Value Time A)
      → Keeps (Extends s) m
      → Keeps (Extends s) (ignore_error m)
  unfolding ignore_error
  ignore_error-Extends m k = record {
    at = λ c c' r e p. elim (Option-cases (m c)) [
      | inl n ↦ absurd (ground (arith, n, e))
      | inr ((q, d), x) ↦ subst (Extends s) (ground (arith, x, e)) (k.at c d q x p)
    ];
  }

  pub node_of_frame-Extends :
      (frame_id : FrameId)
      (follow : FrameId → GraphRef → GraphNodeId → Action Value Time (Unit {0}))
      → ((p : FrameId) (r : GraphRef) (n : GraphNodeId) → Keeps (Extends s) (follow p r n))
      → Keeps (Extends s) (node_of_frame frame_id follow)
  unfolding node_of_frame Access.data_of
  node_of_frame-Extends frame_id follow k = search (append_rules, commit_rules) depth 16

module _ {Value Float Time : Type 0} (outside : Outside Value Float Time)
    {s : Checkpointer Value Time} where
  pub on_frame_run_update-Extends :
      (frame_id : FrameId) (state : JobState Value (FrameResponse Value))
      → Keeps (Extends s) (on_frame_run_update outside frame_id state)
  unfolding on_frame_run_update
  on_frame_run_update-Extends frame_id (JobState.completed r) =
      search (append_rules, commit_rules) depth 16
  on_frame_run_update-Extends frame_id (JobState.failed x) =
      search (append_rules, commit_rules) depth 16
  on_frame_run_update-Extends frame_id _ = search (append_rules, commit_rules) depth 16

  pub commit_updates-Extends :
      (frame_id : FrameId) (updates : List (ChannelUpdate Value))
      → Keeps (Extends s) (commit_updates outside frame_id updates)
  unfolding commit_updates
  commit_updates-Extends frame_id [] = search (append_rules, commit_rules) depth 16
  commit_updates-Extends frame_id (u ∷ us) = search (append_rules, commit_rules) depth 16

  pub continue_to-Extends :
      (frame_id parent_id : FrameId) (graph_ref : GraphRef) (node_id : GraphNodeId)
      → Keeps (Extends s) (continue_to outside frame_id parent_id graph_ref node_id)
  unfolding continue_to
  continue_to-Extends frame_id parent_id graph_ref node_id =
      search (append_rules, commit_rules) depth 16

  pub continue_after-Extends :
      (frame_id parent_id : FrameId) (graph_ref : GraphRef) (node_id : GraphNodeId)
      → Keeps (Extends s) (continue_after outside frame_id parent_id graph_ref node_id)
  unfolding continue_after
  continue_after-Extends frame_id parent_id graph_ref node_id =
      search (append_rules, commit_rules, continue_to-Extends) depth 16

  pub fork-Extends :
      (frame_id : FrameId) (branches : List (Branch Value)) (join : GraphNodeId)
      → Keeps (Extends s) (fork outside frame_id branches join)
  unfolding fork Access.spec_ref_of
  fork-Extends frame_id branches join = search (append_rules, commit_rules) depth 16

  pub request_hitl-Extends :
      (frame_id : FrameId) (hitl : Hitl) → Keeps (Extends s) (request_hitl outside frame_id hitl)
  unfolding request_hitl Access.logs_of
  request_hitl-Extends frame_id hitl = search (append_rules, commit_rules) depth 16

  pub dispatch_result-Extends :
      (frame_id : FrameId) (result : FrameResult Value)
      → Keeps (Extends s) (dispatch_result outside frame_id result)
  unfolding dispatch_result
  dispatch_result-Extends frame_id (FrameResult.request_hitl h) =
      search (append_rules, commit_rules, request_hitl-Extends) depth 16
  dispatch_result-Extends frame_id (FrameResult.consult_experts rs) =
      search (append_rules, commit_rules, set_reduce_policy-Extends) depth 16
  dispatch_result-Extends frame_id (FrameResult.call_tools rs) =
      search (append_rules, commit_rules, set_reduce_policy-Extends) depth 16
  dispatch_result-Extends frame_id (FrameResult.execute_graph g) =
      search (append_rules, commit_rules) depth 16
  dispatch_result-Extends frame_id FrameResult.continue_next =
      search (append_rules, commit_rules, node_of_frame-Extends, continue_after-Extends) depth 16
  dispatch_result-Extends frame_id (FrameResult.go_to n) =
      search (append_rules, commit_rules, node_of_frame-Extends, continue_to-Extends) depth 16
  dispatch_result-Extends frame_id (FrameResult.fork bs j) =
      search (append_rules, commit_rules, fork-Extends) depth 16
  dispatch_result-Extends frame_id FrameResult.completed =
      search (append_rules, commit_rules) depth 16
  dispatch_result-Extends frame_id (FrameResult.failed e) =
      search (append_rules, commit_rules) depth 16

  pub interpret-Extends :
      (frame_id : FrameId) (response : FrameResponse Value)
      → Keeps (Extends s) (interpret outside frame_id response)
  unfolding interpret
  interpret-Extends frame_id response =
      search
        (
          append_rules, commit_rules, append_logs-Extends, commit_updates-Extends,
          dispatch_result-Extends,
        )
        depth 16

  pub on_frame_run_terminated-Extends :
      (frame_id : FrameId) → Keeps (Extends s) (on_frame_run_terminated outside frame_id)
  unfolding on_frame_run_terminated Access.status_of
  on_frame_run_terminated-Extends frame_id =
      search (append_rules, commit_rules, interpret-Extends) depth 16

  pub on_hitl_response-Extends :
      (hitl_id : HitlId) (answers : Answers)
      → Keeps (Extends s) (on_hitl_response outside hitl_id answers)
  unfolding on_hitl_response Access.log_index_bound_to_hitl_id Access.resolve_log
  on_hitl_response-Extends hitl_id answers =
      search (append_rules, commit_rules, todo-Extends) depth 16

  pub start_frame-Extends :
      (frame_id : FrameId) (policy : OnStartPolicy Value)
      → Keeps (Extends s) (start_frame outside frame_id policy)
  unfolding start_frame
  start_frame-Extends frame_id OnStartPolicy.run_frame =
      search (append_rules, commit_rules) depth 16
  start_frame-Extends frame_id (OnStartPolicy.append_graph_thread r n) =
      search (append_rules, commit_rules, ignore_error-Extends) depth 16
  start_frame-Extends frame_id (OnStartPolicy.append_graph_span r n bs) =
      search (append_rules, commit_rules, ignore_error-Extends) depth 16
  start_frame-Extends frame_id (OnStartPolicy.append_graph_node r n) =
      search (append_rules, commit_rules, set_resume_policy-Extends, ignore_error-Extends) depth 16

  pub start_pending-Extends :
      (frame_id : FrameId) → Keeps (Extends s) (start_pending outside frame_id)
  unfolding start_pending Access.policy_of
  start_pending-Extends frame_id = search (append_rules, commit_rules, start_frame-Extends) depth 16

  pub on_frame_created-Extends :
      (frame_id : FrameId) → Keeps (Extends s) (on_frame_created outside frame_id)
  unfolding on_frame_created Access.status_of
  on_frame_created-Extends frame_id =
      search (append_rules, commit_rules, start_pending-Extends) depth 16

  pub handle_event-Extends :
      (event : SessionCheckpointEvent Value) → Keeps (Extends s) (handle_event outside event)
  unfolding handle_event on_frame_ready on_frame_terminated on_session_created
  handle_event-Extends (SessionCheckpointEvent.session_created i) =
      search (append_rules, commit_rules) depth 16
  handle_event-Extends (SessionCheckpointEvent.frame_created i f) =
      search (append_rules, commit_rules, on_frame_created-Extends) depth 16
  handle_event-Extends (SessionCheckpointEvent.hitl_answered i h a) =
      search (append_rules, commit_rules, on_hitl_response-Extends) depth 16
  handle_event-Extends (SessionCheckpointEvent.frame_run_job_state_update i f j) =
      search (append_rules, commit_rules, on_frame_run_update-Extends) depth 16
  handle_event-Extends (SessionCheckpointEvent.frame_ready i f) =
      search (append_rules, commit_rules) depth 16
  handle_event-Extends (SessionCheckpointEvent.frame_run_terminated i f) =
      search (append_rules, commit_rules, on_frame_run_terminated-Extends) depth 16
  handle_event-Extends (SessionCheckpointEvent.child_frame_terminated i f g) =
      search (append_rules, commit_rules) depth 16
  handle_event-Extends (SessionCheckpointEvent.frame_terminated i f) =
      search (append_rules, commit_rules) depth 16
