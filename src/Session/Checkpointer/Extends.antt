-- ===== src/Session/Checkpointer/Extends.antt =====
-- What every handler of the checkpointer leaves alone (session/checkpointer/mod.rs): the stores, the
-- session and what was sent before.
use marie.Base.{◌≡◌, refl, sym, arith, some, List, [], ◌++◌, append_nil}
use marie.Id.{FrameId, id_eq}
use marie.Session.Snapshots.Store.{Snapshot}
use marie.Session.Frames.Node.{FrameNode}
use marie.Session.Frames.Tree.{FrameTree, try_get}
use marie.Session.Frames.Tree.Access as Access
use marie.Session.Checkpointer.State.{SessionCheckpointEvent, RunFrameArgs, Checkpointer}

module _ {Value : Type 0} where
  -- A tree over the same store, for the same session.
  abbrev pub SameStore : FrameTree Value → FrameTree Value → Type 0
  SameStore t u = (u.store ≡ t.store) × (u.session_id ≡ t.session_id)

  pub try_get-SameStore : (t : FrameTree Value) (id : FrameId) → SameStore t (try_get t id).1
  unfolding try_get
  try_get-SameStore t id = ground arith

  pub read-SameStore :
      {A : Type 0} (t u : FrameTree Value) (id : FrameId) (f : FrameNode Value → A) (a : A)
      → Access.read t id f ≡ some (a, u)
      → SameStore t u
  unfolding Access.read
  read-SameStore t u id f a e = ground (arith, e, try_get-SameStore t id)

  pub update-SameStore :
      (t u : FrameTree Value) (id : FrameId) (f : FrameNode Value → FrameNode Value)
      → Access.update t id f ≡ some u
      → SameStore t u
  unfolding Access.update
  update-SameStore t u id f e = ground (arith, e, try_get-SameStore t id)

module _ {Value Time : Type 0} where
  pub record Extends (s c : Checkpointer Value Time) : Type 0 where
    pub frames : SameStore s.frames c.frames
    pub snapshot_store : c.snapshots.store ≡ s.snapshots.store
    pub snapshot_session : c.snapshots.session_id ≡ s.snapshots.session_id
    pub detached :
        (more : List (Snapshot Value Time)) × (c.snapshots.detached ≡ s.snapshots.detached ++ more)
    pub session_id : c.session_id ≡ s.session_id
    pub session : c.session ≡ s.session
    pub sessions : c.sessions ≡ s.sessions
    pub announced : c.announced ≡ s.announced
    pub graphs : c.graphs ≡ s.graphs
    pub sent : (more : List (SessionCheckpointEvent Value)) × (c.listeners ≡ s.listeners ++ more)
    pub spawned : (more : List (RunFrameArgs Value)) × (c.spawned ≡ s.spawned ++ more)

  pub Extends-refl : (s : Checkpointer Value Time) → Extends s s
  Extends-refl s = record {
    frames = (refl, refl);
    snapshot_store = refl;
    snapshot_session = refl;
    detached = ([], sym (append_nil s.snapshots.detached));
    session_id = refl;
    session = refl;
    sessions = refl;
    announced = refl;
    graphs = refl;
    sent = ([], sym (append_nil s.listeners));
    spawned = ([], sym (append_nil s.spawned));
  }
