-- ===== src/Session/Checkpointer/Children.antt =====
-- session/checkpointer/mod.rs: the reaction of a frame to the end of a child.
use marie.Base.{ℕ, suc, Bool, true, false, Option, none, some, List, [], ◌∷◌, leb}
use marie.Base.{string_eq}
use marie.Id.{FrameId}
use marie.Session.Model.{SnapshotRef}
use marie.Session.Snapshots as Snapshots
use marie.Session.Frames.Policy.{
  FramePolicy, FrameStatus, ChildFailurePolicy, ResumePolicy, OnResumePolicy, has_failed,
  has_completed, has_terminated,
}
use marie.Session.Frames.Tree.{iter_children_of}
use marie.Session.Frames.Tree.Access.{status_of, policy_of, last_child_of, on_resume_policy}
use marie.Session.Checkpointer.State.{
  Outside, Action, pure, gets, choose, let_else, on_tree, ◌>>=◌, ◌>>◌,
}
use marie.Session.Checkpointer.Marks.{
  mark_ready_to_run_frame, mark_failed_frame, mark_completed_frame, latest,
}
use marie.Session.Checkpointer.Commits.{
  drain_pending_accumulators, resolve_pending_log, commit_snapshot,
}

-- The two cases of `resume_frame`.
unfoldable pub runs_again : OnResumePolicy → Bool
runs_again OnResumePolicy.run_frame = true
runs_again OnResumePolicy.mark_complete = false

module _ {Value Time : Type 0} where
  unfoldable pub all_have_terminated : List FrameId → Action Value Time Bool
  all_have_terminated [] = pure true
  all_have_terminated (id ∷ ids) = do
    status ← on_tree (λ tree. status_of tree id)
    choose (has_terminated status) (all_have_terminated ids) (pure false)

  unfoldable pub all_children_have_terminated : FrameId → Action Value Time Bool
  all_children_have_terminated parent_id = do
    children ← gets (λ c. iter_children_of c.frames parent_id)
    all_have_terminated children

  unfoldable pub count_failed : List FrameId → Action Value Time ℕ
  count_failed [] = pure 0
  count_failed (id ∷ ids) = do
    status ← on_tree (λ tree. status_of tree id)
    count ← count_failed ids
    pure (elim (has_failed status) [ true ↦ suc count | false ↦ count ])

  unfoldable pub count_failed_frame_child : FrameId → Action Value Time ℕ
  count_failed_frame_child parent_id = do
    children ← gets (λ c. iter_children_of c.frames parent_id)
    count_failed children

  -- The children of `on_child_frame_terminated` that have completed.
  unfoldable pub completed_among : List FrameId → Action Value Time (List FrameId)
  completed_among [] = pure []
  completed_among (id ∷ ids) = do
    status ← on_tree (λ tree. status_of tree id)
    rest ← completed_among ids
    pure (elim (has_completed status) [ true ↦ id ∷ rest | false ↦ rest ])

  unfoldable pub latest_ref : FrameId → Action Value Time SnapshotRef
  latest_ref frame_id = do snapshot ← latest frame_id; pure (Snapshots.ref_of snapshot)

  unfoldable pub latest_refs : List FrameId → Action Value Time (List SnapshotRef)
  latest_refs [] = pure []
  latest_refs (id ∷ ids) = do
    snapshot_ref ← latest_ref id
    refs ← latest_refs ids
    pure (snapshot_ref ∷ refs)

  unfoldable pub resume_frame : FrameId → Action Value Time (Unit {0})
  resume_frame frame_id = do
    policy ← on_tree (λ tree. on_resume_policy tree frame_id)
    choose (runs_again policy) (mark_ready_to_run_frame frame_id) (mark_completed_frame frame_id)

module _ {Value Float Time : Type 0} (outside : Outside Value Float Time) where
  -- `Sequential` of `on_child_frame_terminated`; the join source is a snapshot of the frame itself.
  unfoldable pub join_last : FrameId → FrameId → Action Value Time (Unit {0})
  join_last frame_id last_child = do
    generation ← latest_ref frame_id
    child_snapshot_ref ← latest_ref frame_id
    updates ← drain_pending_accumulators outside frame_id (last_child ∷ [])
    commit_snapshot outside frame_id generation.superstep updates (child_snapshot_ref ∷ [])
    resolve_pending_log outside frame_id (last_child ∷ [])

  unfoldable pub resume_sequential : FrameId → Action Value Time (Unit {0})
  resume_sequential frame_id = do
    last ← on_tree (λ tree. last_child_of tree frame_id)
    let_else last (mark_ready_to_run_frame frame_id) λ last_child. do
      status ← on_tree (λ tree. status_of tree last_child)
      choose (has_completed status) (join_last frame_id last_child) (pure tt)
      resume_frame frame_id

  -- `FanIn` of `on_child_frame_terminated`, once all children have terminated.
  unfoldable pub join_all : FrameId → Action Value Time (Unit {0})
  join_all frame_id = do
    generation ← latest_ref frame_id
    children ← gets (λ c. iter_children_of c.frames frame_id)
    relevant_children ← completed_among children
    join_sources ← latest_refs relevant_children
    updates ← drain_pending_accumulators outside frame_id relevant_children
    commit_snapshot outside frame_id generation.superstep updates join_sources
    resolve_pending_log outside frame_id relevant_children
    resume_frame frame_id

  unfoldable pub resume_by : FrameId → ResumePolicy → Action Value Time (Unit {0})
  resume_by frame_id ResumePolicy.sequential = resume_sequential frame_id
  resume_by frame_id ResumePolicy.fan_in = do
    terminated ← all_children_have_terminated frame_id
    choose terminated (join_all frame_id) (pure tt)
  resume_by frame_id ResumePolicy.hitl = pure tt

  -- Whether enough children have failed, and how many that takes.
  unfoldable pub too_many_failed :
      FrameId → FrameStatus Value → ChildFailurePolicy → Action Value Time (Option ℕ)
  too_many_failed frame_id (FrameStatus.failed e)
        (ChildFailurePolicy.fail_if_at_least_has_failed n) =
      do
        failures ← count_failed_frame_child frame_id
        pure (elim (leb n failures) [ true ↦ some n | false ↦ none ])
  too_many_failed frame_id _ _ = pure none

  unfoldable pub on_child_frame_terminated : FrameId → FrameId → Action Value Time (Unit {0})
  on_child_frame_terminated frame_id child_id = do
    child_status ← on_tree (λ tree. status_of tree child_id)
    parent_policy ← on_tree (λ tree. policy_of tree frame_id)
    failed ← too_many_failed frame_id child_status (FramePolicy.on_child_failed parent_policy)
    let_else failed (resume_by frame_id (FramePolicy.resume_policy parent_policy))
        (λ count. mark_failed_frame (outside.failed_children_text count) frame_id)
