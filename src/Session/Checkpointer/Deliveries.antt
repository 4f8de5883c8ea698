-- ===== src/Session/Checkpointer/Deliveries.antt =====
-- What single events lead to (session/checkpointer/mod.rs): the end of a frame, a failed run, a frame
-- that is ready.
use marie.Base.{false, ◌≡◌, refl, arith, none, some, ok, err, [], ◌∷◌, ◌++◌, append_assoc}
use marie.Base.HashMap
use marie.Base.HashMap.{HashMap}
use marie.Id.{SessionId, FrameId, id_eq}
use marie.Session.Model.{WorkerError, JobState}
use marie.Session.Snapshots.Store.{Snapshot, latest_snapshot}
use marie.Session.Snapshots.Store as Store
use marie.Session.Snapshots as Snapshots
use marie.Session.Frames.Policy.{FrameStatus}
use marie.Session.Frames.Node.{FrameNode}
use marie.Session.Frames.Container as Container
use marie.Session.Frames.Container.{FrameNodeContainer}
use marie.Session.Frames.Tree.{FrameTree, node_of, try_get, parent_of}
use marie.Session.Frames.Tree.Access.{read, update, set_status, status_of, logs_of, data_of}
use marie.Session.Checkpointer.State.{
  StorageError, SessionError, SessionCheckpointEvent, RunFrameArgs, Outside, Checkpointer, pure,
  gets, let_else, on_tree, change_tree, modify, emit, ◌>>=◌, ◌>>◌,
}
use marie.Session.Checkpointer.Marks.{
  announce, mark_completed_frame, mark_frame_run_failed, emit_run_terminated, notify_parent, latest,
  spawn, run_frame, fail,
}
use marie.Session.Checkpointer.Runs.{response_of, on_frame_run_update, on_frame_run_terminated}
use marie.Session.Checkpointer.Handlers.{
  on_frame_terminated, on_frame_ready, handle_event, process_event,
}
use marie.Session.Sessions.{SessionStatus, change_session, flush, execute, upsert_session}
use marie.Session.Checkpointer.Drains.{latest_known}

module _ {Value : Type 0} where
  -- The arena in which a cached node was changed.
  abbrev pub changed :
      FrameTree Value
      → FrameId
      → FrameNodeContainer Value
      → (FrameNode Value → FrameNode Value)
      → FrameTree Value
  changed tree id k change = record tree {
    arena = HashMap.insert tree.arena id (Container.deref_mut change k);
  }

  pub update_cached :
      (tree : FrameTree Value) (id : FrameId) (k : FrameNodeContainer Value)
      (change : FrameNode Value → FrameNode Value)
      → HashMap.get tree.arena id ≡ some k
      → update tree id change ≡ some (changed tree id k change)
  unfolding update try_get
  update_cached tree id k change h = ground (arith, h)

  pub read_cached :
      {A : Type 0} (tree : FrameTree Value) (id : FrameId) (k : FrameNodeContainer Value)
      (f : FrameNode Value → A)
      → HashMap.get tree.arena id ≡ some k
      → read tree id f ≡ some (f k.node, tree)
  unfolding read try_get
  read_cached tree id k f h = ground (arith, h)

  pub get-changed :
      (tree : FrameTree Value) (id : FrameId) (k : FrameNodeContainer Value)
      (change : FrameNode Value → FrameNode Value)
      → HashMap.get (changed tree id k change).arena id ≡ some (Container.deref_mut change k)
  get-changed tree id k change =
      HashMap.get-insert_self tree.arena id (Container.deref_mut change k)

module _ {Value Float Time : Type 0} (outside : Outside Value Float Time) where
  -- When a child completes and the event that says so is processed, its parent is told twice that
  -- the child has terminated.
  pub parent_told_twice :
      (c : Checkpointer Value Time) (id parent : FrameId) (k : FrameNodeContainer Value)
      → HashMap.get c.frames.arena id ≡ some k
      → k.node.parent ≡ some parent
      → let told = SessionCheckpointEvent.child_frame_terminated c.session_id parent id in
        let ended = SessionCheckpointEvent.frame_terminated c.session_id id in
        (do mark_completed_frame id; process_event outside ended) c
        ≡ some (
          ok tt,
          record c {
            frames = changed c.frames id k (λ node. record node { status = FrameStatus.completed });
            listeners = c.listeners ++ ended ∷ told ∷ told ∷ [];
          },
        )
  unfolding mark_completed_frame process_event handle_event on_frame_terminated notify_parent
      change_tree set_status gets let_else pure emit ◌>>=◌ parent_of node_of Container.deref_mut
  parent_told_twice c id parent k h hp =
      let complete : FrameNode Value → FrameNode Value =
        λ node. record node { status = FrameStatus.completed } in
      ground (
        arith,
        hp,
        update_cached c.frames id k complete h,
        get-changed c.frames id k complete,
        append_assoc c.listeners (SessionCheckpointEvent.frame_terminated c.session_id id ∷ [])
            (SessionCheckpointEvent.child_frame_terminated c.session_id parent id ∷ []),
        append_assoc c.listeners
            (SessionCheckpointEvent.frame_terminated c.session_id id
              ∷ SessionCheckpointEvent.child_frame_terminated c.session_id parent id
              ∷ [])
            (SessionCheckpointEvent.child_frame_terminated c.session_id parent id ∷ []),
      )

  -- When the workers say that the run of a cached frame has failed, the frame gets the status of a
  -- failed run, with the text of the error, and the end of the run is announced twice; nothing else
  -- changes. Processing that announcement then changes nothing at all.
  pub failed_run_stays :
      (c : Checkpointer Value Time) (id : FrameId) (e : WorkerError) (k : FrameNodeContainer Value)
      → HashMap.get c.frames.arena id ≡ some k
      → let ended = SessionCheckpointEvent.frame_run_terminated c.session_id id in
        let update =
          SessionCheckpointEvent.frame_run_job_state_update c.session_id id (JobState.failed e) in
        let c' : Checkpointer Value Time = record c {
          frames =
              changed c.frames id k
                (λ node. record node { status = FrameStatus.run_failed (outside.worker_text e) });
          listeners = c.listeners ++ ended ∷ ended ∷ [];
        } in
        (process_event outside update c ≡ some (ok tt, c'))
        × (process_event outside ended c' ≡ some (ok tt, c'))
  unfolding process_event handle_event on_frame_run_update on_frame_run_terminated response_of
      mark_frame_run_failed emit_run_terminated change_tree set_status status_of on_tree gets
      let_else pure emit ◌>>=◌ Container.deref_mut
  failed_run_stays c id e k h =
      let failed : FrameNode Value → FrameNode Value =
        λ node. record node { status = FrameStatus.run_failed (outside.worker_text e) } in
      (
        ground (
          arith,
          update_cached c.frames id k failed h,
          append_assoc c.listeners
              (SessionCheckpointEvent.frame_run_terminated c.session_id id ∷ [])
              (SessionCheckpointEvent.frame_run_terminated c.session_id id ∷ []),
        ),
        ground (
          arith,
          read_cached (changed c.frames id k failed) id (Container.deref_mut failed k)
              (λ node. node.status) (get-changed c.frames id k failed),
        ),
      )

  -- A frame that is ready, cached, and whose snapshot is stored, is handed to the workers with the
  -- channels of its latest stored snapshot, its logs and its data, if they take it.
  pub ready_spawns :
      (c : Checkpointer Value Time) (s : SessionId) (id : FrameId) (k : FrameNodeContainer Value)
      (snapshot : Snapshot Value Time)
      → HashMap.get c.frames.arena id ≡ some k
      → latest_snapshot c.snapshots.store c.snapshots.session_id id ≡ ok snapshot
      → let args : RunFrameArgs Value = record {
        session_id = c.session_id;
        frame_id = id;
        channels = snapshot.channels;
        logs = k.node.logs;
        data_kind = k.node.data_kind;
      } in
        outside.spawn args ≡ none
        → process_event outside (SessionCheckpointEvent.frame_ready s id) c
          ≡ some (
            ok tt,
            record c {
              snapshots = (Snapshots.latest c.snapshots id).1;
              spawned = c.spawned ++ args ∷ [];
            },
          )
  unfolding process_event handle_event on_frame_ready run_frame spawn on_tree logs_of data_of gets
      let_else modify pure ◌>>=◌
  ready_spawns c s id k snapshot h l w = ground (
    arith,
    latest_known outside c id snapshot l,
    read_cached c.frames id k (λ node. node.logs) h,
    read_cached c.frames id k (λ node. node.data_kind) h,
    w,
  )

  -- A frame that is ready while none of its snapshots is stored is not run, and nothing is sent: the
  -- event fails with the error of the store, and unless it was deleted the session has failed with
  -- the text of that error.
  pub ready_unstored :
      (c : Checkpointer Value Time) (s : SessionId) (id : FrameId) (e : Store.StoreError)
      → latest_snapshot c.snapshots.store c.snapshots.session_id id ≡ err e
      → c.session.deleted ≡ false
      → let error = SessionError.storage_error (StorageError.snapshot_error e) in
        (d : Checkpointer Value Time) × (process_event outside
            (SessionCheckpointEvent.frame_ready s id)
            c
          ≡ some (err error, d))
        × (d.spawned ≡ c.spawned)
        × (d.listeners ≡ c.listeners)
        × (d.session.entity.status ≡ SessionStatus.failed (outside.error_text error))
  unfolding process_event handle_event on_frame_ready run_frame latest Snapshots.latest
      Snapshots.insert fail announce change_session flush execute ◌>>=◌
  ready_unstored c s id e l h =
      let error = SessionError.storage_error (StorageError.snapshot_error e) in
      let status = SessionStatus.failed (outside.error_text error) in
      let entity = record c.session.entity { status = status } in
      let d : Checkpointer Value Time = record c {
        snapshots = (Snapshots.latest c.snapshots id).1;
        session = record c.session { entity = entity; dirty = false };
        sessions = upsert_session c.sessions entity;
        announced = c.announced ++ status ∷ [];
      } in
      (d, ground (arith, l, h), refl, refl, refl)
