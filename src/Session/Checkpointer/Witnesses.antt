-- ===== src/Session/Checkpointer/Witnesses.antt =====
-- The theorems on the checkpointer at a frame that waits for its tool calls.
use marie.Session.RunLogs.{RunLogContent}
use marie.Session.Frames.Container.{FrameNodeContainer}
use marie.Session.Frames.Node.{FrameNode}
use marie.Base.{true, string_eq, ℕ, ◌≡◌, refl, false, none, some, ok, err, List, [], ◌∷◌}
use marie.Base.HashMap
use marie.Base.HashMap.{HashMap}
use marie.Id.{HitlId, id_beq, id_eq}
use marie.Session.Model.{ChannelName, ChannelUpdate, SnapshotRef, WorkerError, JobState}
use marie.Session.Spec.Core as Core
use marie.Session.Sessions as Sessions
use marie.Session.Sessions.{SessionStatus}
use marie.Session.Snapshots.Store.{Snapshot}
use marie.Session.Snapshots.Store as Store
use marie.Session.Snapshots as Snapshots
use marie.Session.Snapshots.{ref_eq}
use marie.Session.Frames.Policy.{FrameKind, FrameStatus}
use marie.Session.Frames.Node as Node
use marie.Session.Frames.Store as Frames
use marie.Session.Frames.Tree.{try_get, parent_of, node_of}
use marie.Session.Frames.Tree.Access.{resolve, read, spec_ref_of}
use marie.Session.Checkpointer.State.{
  emit, let_else, gets, StorageError, SessionError, SessionCheckpointEvent, Checkpointer, on_tree,
  pure, ◌>>=◌, ◌>>◌,
}
use marie.Session.Checkpointer.Marks.{spec_of, common_spec_of, mark_completed_frame, notify_parent}
use marie.Session.Checkpointer.Commits.{commit_snapshot, drain_pending_accumulators}
use marie.Session.Checkpointer.Handlers.{process_event, run, handle_event, on_frame_terminated}
use marie.Session.Checkpointer.Growth.{Grows}
use marie.Session.Checkpointer.Outcomes.{Reported, process_event_outcome}
use marie.Session.Checkpointer.Joins.{contributions, joined, reduced}
use marie.Session.Checkpointer.Drains.{cached, contributed, drained_updates}
use marie.Session.Checkpointer.Committing.{commit_reduces, commit_unseen}
use marie.Session.Checkpointer.Answers.{answer_panics}
use marie.Session.Checkpointer.Deliveries.{
  changed, parent_told_twice, failed_run_stays, ready_spawns, ready_unstored,
}
use marie.Session.Checkpointer.Examples.{
  outside, session, parent, child, child_container, parent_snapshot, child_snapshot, start,
  child_cached, parent_stored, child_stored,
}

abbrev request : HitlId
request = record { prefix = 1; local = 9 }

abbrev update : ChannelUpdate ℕ
update = record { name = "tool_result"; value = 7; contributor = child }

pub parent_spec : common_spec_of outside parent start ≡ some (ok Core.tool_aggregator, start)
unfolding common_spec_of on_tree spec_ref_of read try_get HashMap.get id_beq spec_of pure ◌>>=◌
    Node.new
parent_spec = refl

pub child_spec : common_spec_of outside child start ≡ some (ok Core.tool, start)
unfolding common_spec_of on_tree spec_ref_of read try_get HashMap.get id_beq spec_of pure ◌>>=◌
    Node.new
child_spec = refl

commit_reduces_example :
    (snapshot : Snapshot ℕ ℕ) × (d : Checkpointer ℕ ℕ) × (commit_snapshot outside parent 3
        (update ∷ [])
        []
        start
      ≡ some (ok (Snapshots.ref_of snapshot), d))
    × (HashMap.get d.snapshots.snapshots (Snapshots.ref_of snapshot)
        ≡ some (Snapshots.from_snapshot snapshot))
    × (d.snapshots.store ≡ start.snapshots.store)
    × (snapshot.superstep ≡ 4)
    × (snapshot.frame_id ≡ parent)
    × (snapshot.join_sources ≡ [])
    × ((name : ChannelName)
        → HashMap.get snapshot.channels name
          ≡ reduced outside.json
              (Core.tool_aggregator {Value = ℕ}).channels
              []
              name
              (joined none (contributions (update ∷ []) name)))
unfolding Snapshots.new
commit_reduces_example =
    commit_reduces outside start parent (update ∷ []) [] parent_snapshot Core.tool_aggregator
      parent_stored parent_spec

commit_unseen_example :
    (snapshot_ref : SnapshotRef) × (d e : Checkpointer ℕ ℕ) × (commit_snapshot outside parent 3
        (update ∷ [])
        []
        start
      ≡ some (ok snapshot_ref, d))
    × (commit_snapshot outside parent snapshot_ref.superstep [] [] d
        ≡ some (err (SessionError.stale_superstep snapshot_ref.superstep 3), e))
unfolding Snapshots.new
commit_unseen_example =
    commit_unseen outside start parent (update ∷ []) [] [] [] parent_snapshot Core.tool_aggregator
      parent_stored parent_spec

drained_updates_example :
    (updates : List (ChannelUpdate ℕ)) × (drain_pending_accumulators outside parent
        (child ∷ [])
        start
      ≡ some (
        ok updates,
        record start {
          snapshots = cached outside start.snapshots ((child, (Core.tool, child_snapshot)) ∷ []);
        },
      ))
    × ((name : ChannelName)
        → contributions updates name
          ≡ contributed outside Core.tool_aggregator
              ((child, (Core.tool, child_snapshot)) ∷ [])
              name)
drained_updates_example =
    drained_updates outside start parent Core.tool_aggregator
      ((child, (Core.tool, child_snapshot)) ∷ []) parent_spec (child_spec, child_stored, tt)

-- A frame for a request, stored and cached, with a log that waits for the answer.
abbrev asking : FrameNode ℕ
asking = record child_container.node {
  data_kind = FrameKind.hitl request;
  logs = record { index = 0; content = RunLogContent.graph_log "graph"; value = none } ∷ [];
  hitl_aliases = (0, request) ∷ [];
}

abbrev asking_container : FrameNodeContainer ℕ
asking_container = record { node = asking; dirty = false; deleted = false }

abbrev asked : Checkpointer ℕ ℕ
asked = record start {
  frames = record {
    store = ((session, child), asking) ∷ [];
    session_id = session;
    arena = (child, asking_container) ∷ [];
  };
}

asked_bound : Frames.get_frame_id_by_hitl_id asked.frames.store session request ≡ some child
unfolding Frames.get_frame_id_by_hitl_id Frames.is_hitl id_beq Node.new
asked_bound = refl

asked_cached : HashMap.get asked.frames.arena child ≡ some asking_container
unfolding HashMap.get id_beq
asked_cached = refl

answer_panics_example :
    run outside (SessionCheckpointEvent.hitl_answered session request [] ∷ []) [] asked
    ≡ some (
      ok tt,
      record asked {
        frames = changed asked.frames child asking_container (λ node. record node {
          status = FrameStatus.ready;
          logs = resolve node.logs 0 (outside.of_answers []);
        });
        listeners = SessionCheckpointEvent.frame_ready session child ∷ [];
        panicked = true;
      },
    )
unfolding Node.log_index_of_hitl Node.alias_of id_beq
answer_panics_example =
    answer_panics outside session request [] asked child asking_container [] [] asked_bound
      asked_cached

parent_told_twice_example :
    let told = SessionCheckpointEvent.child_frame_terminated session parent child in
    let ended = SessionCheckpointEvent.frame_terminated session child in
    (do mark_completed_frame child; process_event outside ended) start
    ≡ some (
      ok tt,
      record start {
        frames =
            changed start.frames child child_container
              (λ node. record node { status = FrameStatus.completed });
        listeners = ended ∷ told ∷ told ∷ [];
      },
    )
parent_told_twice_example =
    parent_told_twice outside start child parent child_container child_cached refl

failed_run_stays_example :
    let ended = SessionCheckpointEvent.frame_run_terminated session child in
    let failed =
      SessionCheckpointEvent.frame_run_job_state_update session child
        (JobState.failed WorkerError.no_worker_available) in
    let after : Checkpointer ℕ ℕ = record start {
      frames =
          changed start.frames child child_container
            (λ node. record node { status = FrameStatus.run_failed "worker" });
      listeners = ended ∷ ended ∷ [];
    } in
    (process_event outside failed start ≡ some (ok tt, after))
    × (process_event outside ended after ≡ some (ok tt, after))
failed_run_stays_example =
    failed_run_stays outside start child WorkerError.no_worker_available child_container
      child_cached

ready_spawns_example :
    process_event outside (SessionCheckpointEvent.frame_ready session child) start
    ≡ some (
      ok tt,
      record start {
        snapshots = (Snapshots.latest start.snapshots child).1;
        spawned =
            record {
              session_id = session;
              frame_id = child;
              channels = child_snapshot.channels;
              logs = child_container.node.logs;
              data_kind = child_container.node.data_kind;
            }
            ∷ [];
      },
    )
ready_spawns_example =
    ready_spawns outside start session child child_container child_snapshot child_cached
      child_stored refl

abbrev unstored : Checkpointer ℕ ℕ
unstored = record start {
  snapshots = record { store = []; session_id = session; snapshots = []; detached = [] };
}

nothing_stored :
    Store.latest_snapshot unstored.snapshots.store session child
    ≡ err (Store.StoreError.snapshot_not_found session child 0)
unfolding Store.latest_snapshot Store.max_by_superstep
nothing_stored = refl

not_deleted : unstored.session.deleted ≡ false
unfolding Sessions.cell_of
not_deleted = refl

ready_unstored_example :
    let error =
      SessionError.storage_error
        (StorageError.snapshot_error (Store.StoreError.snapshot_not_found session child 0)) in
    (d : Checkpointer ℕ ℕ) × (process_event outside
        (SessionCheckpointEvent.frame_ready session child)
        unstored
      ≡ some (err error, d))
    × (d.spawned ≡ [])
    × (d.listeners ≡ [])
    × (d.session.entity.status ≡ SessionStatus.failed "error")
ready_unstored_example =
    ready_unstored outside unstored session child
      (Store.StoreError.snapshot_not_found session child 0) nothing_stored not_deleted

abbrev told : Checkpointer ℕ ℕ
told = record start {
  listeners = SessionCheckpointEvent.child_frame_terminated session parent child ∷ [];
}

child_reported :
    process_event outside (SessionCheckpointEvent.frame_terminated session child) start
    ≡ some (ok tt, told)
unfolding process_event handle_event on_frame_terminated notify_parent gets let_else pure emit ◌>>=◌
    parent_of node_of HashMap.get id_beq
child_reported = refl

process_event_outcome_example : Grows start told × Reported outside start (ok tt) told
process_event_outcome_example =
    process_event_outcome outside (SessionCheckpointEvent.frame_terminated session child) start told
      (ok tt) child_reported
