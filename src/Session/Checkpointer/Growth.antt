-- ===== src/Session/Checkpointer/Growth.antt =====
-- What events add to the state of a checkpointer (session/checkpointer/mod.rs).
use marie.Base.{
  ◌≡◌, refl, sym, ◌∙◌, ap, arith, subst, Option, none, some, Result, List, [], ◌∷◌, ◌++◌,
  append_assoc, append_nil,
}
use marie.Id.{id_eq}
use marie.Session.Snapshots.Store.{Snapshot}
use marie.Session.Sessions.{SessionStatus, SessionCell, flush}
use marie.Session.Checkpointer.State.{
  SessionError, SessionCheckpointEvent, RunFrameArgs, Checkpointer,
}
use marie.Session.Checkpointer.Marks.{announce}
use marie.Session.Checkpointer.Extends.{Extends, SameStore}

module _ {Value Time : Type 0} where
  -- The stores of the frames and of the snapshots and the graphs are as they were; what was sent and
  -- spawned still is, and the writes of snapshots that were detached.
  pub record Grows (s c : Checkpointer Value Time) : Type 0 where
    pub frames : SameStore s.frames c.frames
    pub snapshot_store : c.snapshots.store ≡ s.snapshots.store
    pub detached :
        (more : List (Snapshot Value Time)) × (c.snapshots.detached ≡ s.snapshots.detached ++ more)
    pub graphs : c.graphs ≡ s.graphs
    pub sent : (more : List (SessionCheckpointEvent Value)) × (c.listeners ≡ s.listeners ++ more)
    pub spawned : (more : List (RunFrameArgs Value)) × (c.spawned ≡ s.spawned ++ more)

  pub of_Extends : {s c : Checkpointer Value Time} → Extends s c → Grows s c
  of_Extends e = record {
    frames = e.frames;
    snapshot_store = e.snapshot_store;
    detached = e.detached;
    graphs = e.graphs;
    sent = e.sent;
    spawned = e.spawned;
  }

  pub Grows-trans : {s c d : Checkpointer Value Time} → Grows s c → Grows c d → Grows s d
  Grows-trans {s} {c} {d} g h = record {
    frames = (h.frames.0 ∙ g.frames.0, h.frames.1 ∙ g.frames.1);
    snapshot_store = h.snapshot_store ∙ g.snapshot_store;
    detached = (
      g.detached.0 ++ h.detached.0,
      h.detached.1
          ∙ ap (λ l. l ++ h.detached.0) g.detached.1
          ∙ append_assoc s.snapshots.detached g.detached.0 h.detached.0,
    );
    graphs = h.graphs ∙ g.graphs;
    sent = (
      g.sent.0 ++ h.sent.0,
      h.sent.1 ∙ ap (λ l. l ++ h.sent.0) g.sent.1 ∙ append_assoc s.listeners g.sent.0 h.sent.0,
    );
    spawned = (
      g.spawned.0 ++ h.spawned.0,
      h.spawned.1
          ∙ ap (λ l. l ++ h.spawned.0) g.spawned.1
          ∙ append_assoc s.spawned g.spawned.0 h.spawned.0,
    );
  }

module _ {Value Time : Type 0} where
  pub announce-Grows :
      (status : SessionStatus) (o : Option (SessionCell Time)) (c d : Checkpointer Value Time)
      (r : Result {0, 0} Unit SessionError)
      → announce status o c ≡ some (r, d)
      → Grows c d
  unfolding announce
  announce-Grows status none c d r h = absurd (ground (arith, h))
  announce-Grows status (some cell) c d r h =
      let (cell', sessions) = flush cell c.sessions in
      let e : Checkpointer Value Time = record c {
        session = cell';
        sessions = sessions;
        announced = c.announced ++ status ∷ [];
      } in
      let g : Grows c e = record {
        frames = (refl, refl);
        snapshot_store = refl;
        detached = ([], sym (append_nil c.snapshots.detached));
        graphs = refl;
        sent = ([], sym (append_nil c.listeners));
        spawned = ([], sym (append_nil c.spawned));
      } in
      subst (Grows c) (ground (arith, h)) g
