-- ===== src/Session/Checkpointer/Untouched/Commits.antt =====
-- The commit of a snapshot and the end of a child keep what `Extends` lists.
use marie.Base.{ℕ, List, [], ◌∷◌}
use marie.Base.HashMap.{HashMap}
use marie.Id.{FrameId}
use marie.Session.Model.{ChannelName, ChannelUpdate, SnapshotRef}
use marie.Session.Channel.{Channels}
use marie.Session.Spec.{CommonSpec}
use marie.Session.RunLogs.{RunLog, RunLogContent}
use marie.Session.Frames.Policy.{FrameStatus, FrameSpecRef, ResumePolicy, ChildFailurePolicy}
use marie.Session.Frames.Tree.Access as Access
use marie.Session.Checkpointer.State.{Checkpointer, Outside}
use marie.Session.Checkpointer.Keeps.{Keeps, Keeps-pure, Keeps-bind, Keeps-choose, Keeps-let_else}
use marie.Session.Checkpointer.Extends.{Extends}
use marie.Session.Checkpointer.Steps.{latest-Extends}
use marie.Session.Checkpointer.Commits.{
  drain_children, drain_pending_accumulators, exported_map, answer_of, resolve_from,
  resolve_pending_log, apply_updates, commit_snapshot,
}
use marie.Session.Checkpointer.Children.{
  all_have_terminated, all_children_have_terminated, count_failed, count_failed_frame_child,
  completed_among, latest_ref, latest_refs, resume_frame, join_last, resume_sequential, join_all,
  resume_by, too_many_failed, on_child_frame_terminated,
}
use marie.Session.Checkpointer.Untouched.Marks.{mark_rules, read-Extends, update-Extends}

module _ {Value Float Time : Type 0} (outside : Outside Value Float Time)
    {s : Checkpointer Value Time} where
  pub drain_children-Extends :
      (parent_spec : CommonSpec Value) (relevants : List FrameId)
      (per_channel : HashMap ChannelName (List Value))
      → Keeps (Extends s) (drain_children outside parent_spec relevants per_channel)
  unfolding drain_children
  drain_children-Extends parent_spec [] per_channel = search (mark_rules) depth 16
  drain_children-Extends parent_spec (id ∷ ids) per_channel =
      search
        (
          mark_rules,
          λ (m : HashMap ChannelName (List Value)). drain_children-Extends parent_spec ids m,
        )
        depth 16

  pub drain_pending_accumulators-Extends :
      (frame_id : FrameId) (relevants : List FrameId)
      → Keeps (Extends s) (drain_pending_accumulators outside frame_id relevants)
  unfolding drain_pending_accumulators
  drain_pending_accumulators-Extends frame_id relevants =
      search (mark_rules, drain_children-Extends) depth 16

  pub exported_map-Extends :
      (child_id : FrameId) (channels : Channels Value)
      → Keeps (Extends s) (exported_map outside child_id channels)
  unfolding exported_map
  exported_map-Extends child_id channels = search (mark_rules) depth 16

  pub answer_of-Extends :
      (child_id : FrameId) (content : RunLogContent Value) (spec_ref : FrameSpecRef)
      (channels : Channels Value)
      → Keeps (Extends s) (answer_of outside child_id content spec_ref channels)
  unfolding answer_of
  answer_of-Extends id (RunLogContent.graph_log g) (FrameSpecRef.graph r) channels =
      exported_map-Extends id channels
  answer_of-Extends id (RunLogContent.graph_log g) _ channels = Keeps-pure _
  answer_of-Extends id (RunLogContent.hitl_log h) FrameSpecRef.hitl_spec channels = Keeps-pure _
  answer_of-Extends id (RunLogContent.hitl_log h) _ channels = Keeps-pure _
  answer_of-Extends id (RunLogContent.consult_experts_log rs) FrameSpecRef.expert_aggregator
        channels =
      Keeps-pure _
  answer_of-Extends id (RunLogContent.consult_experts_log rs) _ channels = Keeps-pure _
  answer_of-Extends id (RunLogContent.call_tools_log rs) FrameSpecRef.tool_aggregator channels =
      Keeps-pure _
  answer_of-Extends id (RunLogContent.call_tools_log rs) _ channels = Keeps-pure _

  pub resolve_from-Extends :
      (frame_id : FrameId) (pending : RunLog Value) (ids : List FrameId)
      → Keeps (Extends s) (resolve_from outside frame_id pending ids)
  unfolding resolve_from Access.spec_ref_of Access.resolve_log
  resolve_from-Extends frame_id pending [] = Keeps-pure _
  resolve_from-Extends frame_id pending (id ∷ ids) = Keeps-bind _ _ (read-Extends id _) (λ spec_ref.
      Keeps-bind _ _ (latest-Extends id) (λ snapshot.
        Keeps-bind _ _ (answer_of-Extends id _ spec_ref _) (λ resolved.
          Keeps-let_else resolved _ _ (resolve_from-Extends frame_id pending ids)
            (λ value. update-Extends frame_id _))))

  pub resolve_pending_log-Extends :
      (frame_id : FrameId) (relevants : List FrameId)
      → Keeps (Extends s) (resolve_pending_log outside frame_id relevants)
  unfolding resolve_pending_log Access.pending_log_of
  resolve_pending_log-Extends frame_id relevants =
      search (mark_rules, resolve_from-Extends) depth 16

  pub apply_updates-Extends :
      (frame_id : FrameId) (channels : Channels Value) (updates : List (ChannelUpdate Value))
      → Keeps (Extends s) (apply_updates outside frame_id channels updates)
  unfolding apply_updates
  apply_updates-Extends frame_id channels [] = search (mark_rules) depth 16
  apply_updates-Extends frame_id channels (u ∷ us) = search (mark_rules) depth 16

  pub commit_snapshot-Extends :
      (frame_id : FrameId) (expected_superstep : ℕ) (updates : List (ChannelUpdate Value))
      (join_sources : List SnapshotRef)
      → Keeps (Extends s) (commit_snapshot outside frame_id expected_superstep updates join_sources)
  unfolding commit_snapshot
  commit_snapshot-Extends frame_id expected_superstep updates join_sources =
      search (mark_rules, apply_updates-Extends) depth 16

module _ {Value Time : Type 0} {s : Checkpointer Value Time} where
  pub all_have_terminated-Extends :
      (ids : List FrameId) → Keeps (Extends s) (all_have_terminated ids)
  unfolding all_have_terminated Access.status_of
  all_have_terminated-Extends [] = Keeps-pure _
  all_have_terminated-Extends (id ∷ ids) =
      Keeps-bind _ _ (read-Extends id _)
        (λ status. Keeps-choose _ _ _ (all_have_terminated-Extends ids) (Keeps-pure _))

  pub all_children_have_terminated-Extends :
      (frame_id : FrameId) → Keeps (Extends s) (all_children_have_terminated frame_id)
  unfolding all_children_have_terminated
  all_children_have_terminated-Extends frame_id =
      search (mark_rules, all_have_terminated-Extends) depth 16

  pub count_failed-Extends : (ids : List FrameId) → Keeps (Extends s) (count_failed ids)
  unfolding count_failed Access.status_of
  count_failed-Extends [] = Keeps-pure _
  count_failed-Extends (id ∷ ids) =
      Keeps-bind _ _ (read-Extends id _)
        (λ status. Keeps-bind _ _ (count_failed-Extends ids) (λ rest. Keeps-pure _))

  pub count_failed_frame_child-Extends :
      (frame_id : FrameId) → Keeps (Extends s) (count_failed_frame_child frame_id)
  unfolding count_failed_frame_child
  count_failed_frame_child-Extends frame_id = search (mark_rules, count_failed-Extends) depth 16

  pub completed_among-Extends : (ids : List FrameId) → Keeps (Extends s) (completed_among ids)
  unfolding completed_among Access.status_of
  completed_among-Extends [] = Keeps-pure _
  completed_among-Extends (id ∷ ids) =
      Keeps-bind _ _ (read-Extends id _)
        (λ status. Keeps-bind _ _ (completed_among-Extends ids) (λ rest. Keeps-pure _))

  pub latest_ref-Extends : (frame_id : FrameId) → Keeps (Extends s) (latest_ref frame_id)
  unfolding latest_ref
  latest_ref-Extends frame_id = search (mark_rules) depth 16

  pub latest_refs-Extends : (ids : List FrameId) → Keeps (Extends s) (latest_refs ids)
  unfolding latest_refs
  latest_refs-Extends [] = Keeps-pure _
  latest_refs-Extends (id ∷ ids) =
      Keeps-bind _ _ (latest_ref-Extends id)
        (λ r. Keeps-bind _ _ (latest_refs-Extends ids) (λ rest. Keeps-pure _))

  pub resume_frame-Extends : (frame_id : FrameId) → Keeps (Extends s) (resume_frame frame_id)
  unfolding resume_frame Access.on_resume_policy
  resume_frame-Extends frame_id = search (mark_rules) depth 16

module _ {Value Float Time : Type 0} (outside : Outside Value Float Time)
    {s : Checkpointer Value Time} where
  pub join_last-Extends :
      (frame_id last_child : FrameId) → Keeps (Extends s) (join_last outside frame_id last_child)
  unfolding join_last
  join_last-Extends frame_id last_child =
      search
        (
          mark_rules, drain_pending_accumulators-Extends, resolve_pending_log-Extends,
          commit_snapshot-Extends, latest_ref-Extends,
        )
        depth 16

  pub resume_sequential-Extends :
      (frame_id : FrameId) → Keeps (Extends s) (resume_sequential outside frame_id)
  unfolding resume_sequential Access.last_child_of Access.status_of
  resume_sequential-Extends frame_id =
      search (mark_rules, resume_frame-Extends, join_last-Extends) depth 16

  pub join_all-Extends : (frame_id : FrameId) → Keeps (Extends s) (join_all outside frame_id)
  unfolding join_all
  join_all-Extends frame_id =
      search
        (
          mark_rules, drain_pending_accumulators-Extends, resolve_pending_log-Extends,
          commit_snapshot-Extends, completed_among-Extends, latest_ref-Extends, latest_refs-Extends,
          resume_frame-Extends,
        )
        depth 16

  pub resume_by-Extends :
      (frame_id : FrameId) (policy : ResumePolicy)
      → Keeps (Extends s) (resume_by outside frame_id policy)
  unfolding resume_by
  resume_by-Extends frame_id ResumePolicy.sequential =
      search (mark_rules, resume_sequential-Extends) depth 16
  resume_by-Extends frame_id ResumePolicy.fan_in =
      search (mark_rules, all_children_have_terminated-Extends, join_all-Extends) depth 16
  resume_by-Extends frame_id ResumePolicy.hitl = search (mark_rules) depth 16

  pub too_many_failed-Extends :
      (frame_id : FrameId) (status : FrameStatus Value) (policy : ChildFailurePolicy)
      → Keeps (Extends s) (too_many_failed outside frame_id status policy)
  unfolding too_many_failed
  too_many_failed-Extends frame_id (FrameStatus.failed e)
        (ChildFailurePolicy.fail_if_at_least_has_failed n) =
      search (mark_rules, count_failed_frame_child-Extends) depth 16
  too_many_failed-Extends frame_id _ _ = search (mark_rules) depth 16

  pub on_child_frame_terminated-Extends :
      (frame_id child_id : FrameId)
      → Keeps (Extends s) (on_child_frame_terminated outside frame_id child_id)
  unfolding on_child_frame_terminated Access.status_of Access.policy_of
  on_child_frame_terminated-Extends frame_id child_id =
      search (mark_rules, resume_by-Extends, too_many_failed-Extends) depth 16

pub ruleset commit_rules = (
  mark_rules, drain_children-Extends, drain_pending_accumulators-Extends, exported_map-Extends,
  answer_of-Extends, resolve_from-Extends, resolve_pending_log-Extends, apply_updates-Extends,
  commit_snapshot-Extends, all_have_terminated-Extends, all_children_have_terminated-Extends,
  count_failed-Extends, count_failed_frame_child-Extends, completed_among-Extends,
  latest_ref-Extends, latest_refs-Extends, resume_frame-Extends, join_last-Extends,
  resume_sequential-Extends, join_all-Extends, resume_by-Extends, too_many_failed-Extends,
  on_child_frame_terminated-Extends,
)
