-- ===== src/Session/Checkpointer/Steps.antt =====
-- The steps that the handlers are made of (session/checkpointer/mod.rs) keep what `Extends` lists.
use marie.Base.{
  Result-cases, ℕ, ◌+◌, ◌≡◌, refl, sym, ◌∙◌, ap, arith, subst, inl, inr, Option, some, Option-cases,
  List, [], ◌∷◌, ◌++◌, append_nil, append_assoc,
}
use marie.Id.{FrameId, HitlId, UniqueId, id_eq}
use marie.Session.Hitl.Store.{Hitl}
use marie.Session.Hitl.Service as Service
use marie.Session.Snapshots.Store.{latest_snapshot, Snapshot}
use marie.Session.Snapshots as Snapshots
use marie.Base.HashMap
use marie.Session.Model.{SnapshotRef}
use marie.Session.Snapshots.{SessionSnapshots, SnapshotContainer, ref_eq}
use marie.Session.Frames.Tree.{FrameTree, try_get}
use marie.Session.Checkpointer.State.{
  SessionCheckpointEvent, RunFrameArgs, Checkpointer, on_tree, change_tree, emit, modify, next_id,
  read_clock,
}
use marie.Session.Checkpointer.Keeps.{Keeps}
use marie.Session.Checkpointer.Marks.{latest}
use marie.Session.Checkpointer.Inheritance.{load}
use marie.Session.Checkpointer.Commits.{push}
use marie.Session.Checkpointer.Appends.{request}
use marie.Session.Checkpointer.Extends.{try_get-SameStore, Extends, SameStore}

module _ {Value Time : Type 0} where
  -- Snapshots over the same store, where more writes may have been detached.
  abbrev Kept : SessionSnapshots Value Time → SessionSnapshots Value Time → Type 0
  Kept n m =
      (m.store ≡ n.store)
      × (m.session_id ≡ n.session_id)
      × ((more : List (Snapshot Value Time)) × (m.detached ≡ n.detached ++ more))

  Kept-refl : (n : SessionSnapshots Value Time) → Kept n n
  Kept-refl n = (refl, refl, ([], sym (append_nil n.detached)))

  insert-Kept :
      (n : SessionSnapshots Value Time) (r : SnapshotRef) (k : SnapshotContainer Value Time)
      → Kept n (Snapshots.insert n r k)
  unfolding Snapshots.insert
  insert-Kept n r k = (refl, refl, (Snapshots.dropped (HashMap.get n.snapshots r), refl))

  latest_same : (n : SessionSnapshots Value Time) (id : FrameId) → Kept n (Snapshots.latest n id).1
  unfolding Snapshots.latest
  latest_same n id = elim (Result-cases (latest_snapshot n.store n.session_id id)) [
    | inl (x, e) ↦
        subst (Kept n) {x = Snapshots.insert n (Snapshots.ref_of x) (Snapshots.from_loaded x)}
          {y = (Snapshots.latest n id).1} (ground (arith, e))
          (insert-Kept n (Snapshots.ref_of x) (Snapshots.from_loaded x))
    | inr (x, e) ↦
        subst (Kept n) {x = n} {y = (Snapshots.latest n id).1} (ground (arith, e)) (Kept-refl n)
  ]

module _ {Value Time : Type 0} {s : Checkpointer Value Time} where
  with_frames :
      (c : Checkpointer Value Time) (t : FrameTree Value)
      → SameStore c.frames t
      → Extends s c
      → Extends s (record c { frames = t })
  with_frames c t k p = record {
    frames = (k.0 ∙ p.frames.0, k.1 ∙ p.frames.1);
    snapshot_store = p.snapshot_store;
    snapshot_session = p.snapshot_session;
    detached = p.detached;
    session_id = p.session_id;
    session = p.session;
    sessions = p.sessions;
    announced = p.announced;
    graphs = p.graphs;
    sent = p.sent;
    spawned = p.spawned;
  }

  pub on_tree-Extends :
      {A : Type 0} (f : FrameTree Value → Option (A × FrameTree Value))
      → ((t u : FrameTree Value) (a : A) → f t ≡ some (a, u) → SameStore t u)
      → Keeps (Extends s) (on_tree f)
  unfolding on_tree
  on_tree-Extends f k = record {
    at = λ c c' r e p. elim (Option-cases (f c.frames)) [
      | inl n ↦ absurd (ground (arith, n, e))
      | inr ((a, t), x) ↦
          subst (Extends s) (ground (arith, x, e)) (with_frames c t (k c.frames t a x) p)
    ];
  }

  pub change_tree-Extends :
      (f : FrameTree Value → Option (FrameTree Value))
      → ((t u : FrameTree Value) → f t ≡ some u → SameStore t u)
      → Keeps (Extends s) (change_tree f)
  unfolding change_tree
  change_tree-Extends f k = record {
    at = λ c c' r e p. elim (Option-cases (f c.frames)) [
      | inl n ↦ absurd (ground (arith, n, e))
      | inr (t, x) ↦ subst (Extends s) (ground (arith, x, e)) (with_frames c t (k c.frames t x) p)
    ];
  }

  pub emit-Extends : (event : SessionCheckpointEvent Value) → Keeps (Extends s) (emit event)
  unfolding emit
  emit-Extends event = record {
    at = λ c c' r e p.
        let (more, h) = p.sent in
        let q : Extends s (record c { listeners = c.listeners ++ event ∷ [] }) = record {
          frames = p.frames;
          snapshot_store = p.snapshot_store;
          snapshot_session = p.snapshot_session;
          detached = p.detached;
          session_id = p.session_id;
          session = p.session;
          sessions = p.sessions;
          announced = p.announced;
          graphs = p.graphs;
          sent = (
            more ++ event ∷ [],
            ap (λ l. l ++ event ∷ []) h ∙ append_assoc s.listeners more (event ∷ []),
          );
          spawned = p.spawned;
        } in
        subst (Extends s) (ground (arith, e)) q;
  }

  -- A change of nothing that `Extends` speaks of.
  pub aside :
      (c d : Checkpointer Value Time)
      → SameStore c.frames d.frames
      → Kept c.snapshots d.snapshots
      → (d.session_id ≡ c.session_id)
        × (d.session ≡ c.session)
        × (d.sessions ≡ c.sessions)
        × (d.announced ≡ c.announced)
        × (d.graphs ≡ c.graphs)
      → d.listeners ≡ c.listeners
      → (more : List (RunFrameArgs Value)) × (d.spawned ≡ c.spawned ++ more)
      → Extends s c
      → Extends s d
  aside c d f n h l (jobs, j) p = record {
    frames = (f.0 ∙ p.frames.0, f.1 ∙ p.frames.1);
    snapshot_store = n.0 ∙ p.snapshot_store;
    snapshot_session = n.1 ∙ p.snapshot_session;
    detached = (
      p.detached.0 ++ n.2.0,
      n.2.1
          ∙ ap (λ k. k ++ n.2.0) p.detached.1
          ∙ append_assoc s.snapshots.detached p.detached.0 n.2.0,
    );
    session_id = h.0 ∙ p.session_id;
    session = h.1 ∙ p.session;
    sessions = h.2 ∙ p.sessions;
    announced = h.3 ∙ p.announced;
    graphs = h.4 ∙ p.graphs;
    sent = (p.sent.0, l ∙ p.sent.1);
    spawned = (
      p.spawned.0 ++ jobs,
      j ∙ ap (λ k. k ++ jobs) p.spawned.1 ∙ append_assoc s.spawned p.spawned.0 jobs,
    );
  }

  pub next_id-Extends : (ids : ℕ → UniqueId) → Keeps (Extends s) (next_id ids)
  unfolding next_id
  next_id-Extends ids = record {
    at = λ c c' r e p. subst (Extends s) (ground (arith, e)) (
        aside c (record c { drawn = c.drawn + 1 }) (refl, refl) (Kept-refl c.snapshots)
          (refl, refl, refl, refl, refl) refl ([], sym (append_nil c.spawned)) p);
  }

  pub read_clock-Extends : (now : ℕ → Time) → Keeps (Extends s) (read_clock now)
  unfolding read_clock
  read_clock-Extends now = record {
    at = λ c c' r e p. subst (Extends s) (ground (arith, e)) (
        aside c (record c { readings = c.readings + 1 }) (refl, refl) (Kept-refl c.snapshots)
          (refl, refl, refl, refl, refl) refl ([], sym (append_nil c.spawned)) p);
  }

  pub spawned-Extends :
      (args : RunFrameArgs Value)
      → Keeps (Extends s) (modify (λ c. record c { spawned = c.spawned ++ args ∷ [] }))
  unfolding modify
  spawned-Extends args = record {
    at = λ c c' r e p. subst (Extends s) (ground (arith, e)) (
        aside c (record c { spawned = c.spawned ++ args ∷ [] }) (refl, refl) (Kept-refl c.snapshots)
          (refl, refl, refl, refl, refl) refl (args ∷ [], refl) p);
  }

  pub latest-Extends : (id : FrameId) → Keeps (Extends s) (latest id)
  unfolding latest
  latest-Extends id = record {
    at = λ c c' r e p.
        let n = (Snapshots.latest c.snapshots id).1 in
        subst (Extends s) (ground (arith, e)) (
          aside c (record c { snapshots = n }) (refl, refl) (latest_same c.snapshots id)
            (refl, refl, refl, refl, refl) refl ([], sym (append_nil c.spawned)) p);
  }

  pub push-Extends : (snapshot : Snapshot Value Time) → Keeps (Extends s) (push snapshot)
  unfolding push Snapshots.push Snapshots.insert
  push-Extends snapshot = record {
    at = λ c c' r e p.
        let n = (Snapshots.push c.snapshots snapshot).1 in
        subst (Extends s) (ground (arith, e)) (
          aside c (record c { snapshots = n }) (refl, refl)
            (insert-Kept c.snapshots (Snapshots.ref_of snapshot) (Snapshots.from_snapshot snapshot))
            (refl, refl, refl, refl, refl) refl ([], sym (append_nil c.spawned)) p);
  }

  pub request-Extends : (id : HitlId) (hitl : Hitl) → Keeps (Extends s) (request id hitl)
  unfolding request
  request-Extends id hitl = record {
    at = λ c c' r e p.
        let h = (Service.request c.hitls id hitl).1 in
        subst (Extends s) (ground (arith, e)) (
          aside c (record c { hitls = h }) (refl, refl) (Kept-refl c.snapshots)
            (refl, refl, refl, refl, refl) refl ([], sym (append_nil c.spawned)) p);
  }

  pub load-Extends : (id : FrameId) → Keeps (Extends s) (load id)
  unfolding load
  load-Extends id = record {
    at = λ c c' r e p.
        subst (Extends s) (ground (arith, e))
          (with_frames c (try_get c.frames id).1 (try_get-SameStore c.frames id) p);
  }
