-- ===== src/Session/Checkpointer/Siblings.antt =====
-- The children of a frame that are over: their statuses, specs and snapshots
-- (session/checkpointer/mod.rs).
use marie.Base.{
  string_eq, String, ◌∙◌, ◌≡◌, refl, arith, true, some, none, Option, ok, List, [], ◌∷◌, map,
}
use marie.Base.HashMap
use marie.Base.HashMap.{HashMap}
use marie.Id.{FrameId, id_eq}
use marie.Session.Model.{SnapshotRef}
use marie.Session.Spec.{CommonSpec}
use marie.Session.Snapshots.Store.{Snapshot, latest_snapshot}
use marie.Session.Snapshots as Snapshots
use marie.Session.Snapshots.{SessionSnapshots, ref_eq}
use marie.Session.Frames.Policy.{FrameStatus, has_completed, has_terminated}
use marie.Session.Frames.Container.{FrameNodeContainer}
use marie.Session.Frames.Tree.Access.{status_of}
use marie.Session.Checkpointer.State.{Outside, Checkpointer, pure, ◌>>=◌}
use marie.Session.Checkpointer.Marks.{common_spec_of}
use marie.Session.Checkpointer.Children.{completed_among, latest_ref, latest_refs}
use marie.Session.Checkpointer.Drains as Drains
use marie.Session.Checkpointer.Drains.{
  Child, Known, contributed, cached, latest_known, latest_kept, common_spec_of-aside,
  drained_updates,
}
use marie.Session.Checkpointer.Barriers.{Cached, ids_of, all_over, bind_ok, on_cached}

module _ {Value Float Time : Type 0} (outside : Outside Value Float Time) where
  -- A child that is over: a completed one with its spec and its latest snapshot, or a failed one.
  abbrev pub Over : Type 0
  Over = FrameId × (FrameNodeContainer Value × Option (CommonSpec Value × Snapshot Value Time))

  -- The children are cached with these statuses, the completed ones with these specs, and with these
  -- snapshots as the latest that are stored.
  abbrev pub AreOver : Checkpointer Value Time → List Over → Type 0
  AreOver c [] = Unit
  AreOver c ((id, (k, none)) ∷ children) =
      ((HashMap.get c.frames.arena id ≡ some k)
        × ((e : String) × (k.node.status ≡ FrameStatus.failed e)))
      × AreOver c children
  AreOver c ((id, (k, some (spec, snapshot))) ∷ children) =
      ((HashMap.get c.frames.arena id ≡ some k)
        × (k.node.status ≡ FrameStatus.completed)
        × (common_spec_of outside id c ≡ some (ok spec, c))
        × (latest_snapshot c.snapshots.store c.snapshots.session_id id ≡ ok snapshot))
      × AreOver c children

  abbrev pub frames_of : List Over → List (FrameId × FrameNodeContainer Value)
  frames_of [] = []
  frames_of ((id, (k, o)) ∷ children) = (id, k) ∷ frames_of children

  abbrev pub completed_of : List Over → List (Child outside)
  completed_of [] = []
  completed_of ((id, (k, none)) ∷ children) = completed_of children
  completed_of ((id, (k, some x)) ∷ children) = (id, x) ∷ completed_of children

  -- The snapshots of the completed children.
  abbrev pub sources_of : List (Child outside) → List SnapshotRef
  sources_of children = map (λ c. Snapshots.ref_of c.1.1) children

  pub AreOver-Cached :
      (c : Checkpointer Value Time) (children : List Over)
      → AreOver c children
      → Cached c.frames (frames_of children)
        × (all_over (frames_of children) ≡ true)
        × Known outside c (completed_of children)
  unfolding has_terminated
  AreOver-Cached c [] a = (tt, refl, tt)
  AreOver-Cached c ((id, (k, none)) ∷ children) a =
      let (x, y, z) = AreOver-Cached c children a.1 in ((a.0.0, x), ground (arith, a.0.1.1, y), z)
  AreOver-Cached c ((id, (k, some (spec, snapshot))) ∷ children) a =
      let (x, y, z) = AreOver-Cached c children a.1 in
      ((a.0.0, x), ground (arith, a.0.1, y), (a.0.2, a.0.3, z))

  pub completed_among_lem :
      (c : Checkpointer Value Time) (n : SessionSnapshots Value Time) (children : List Over)
      → AreOver c children
      → let d : Checkpointer Value Time = record c { snapshots = n } in
        completed_among (ids_of (frames_of children)) d
        ≡ some (ok (Drains.ids_of outside (completed_of children)), d)
  unfolding completed_among status_of pure has_completed
  completed_among_lem c n [] a = refl
  completed_among_lem c n ((id, (k, none)) ∷ children) a =
      let d : Checkpointer Value Time = record c { snapshots = n } in
      bind_ok _ _ d d k.node.status (on_cached d id k (λ node. node.status) a.0.0)
      ∙ bind_ok _ _ d d _ (completed_among_lem c n children a.1)
      ∙ ground (arith, a.0.1.1)
  completed_among_lem c n ((id, (k, some x)) ∷ children) a =
      let d : Checkpointer Value Time = record c { snapshots = n } in
      bind_ok _ _ d d k.node.status (on_cached d id k (λ node. node.status) a.0.0)
      ∙ bind_ok _ _ d d _ (completed_among_lem c n children a.1)
      ∙ ground (arith, a.0.1)

  -- Snapshots over the same store, for the same session.
  abbrev pub Same : SessionSnapshots Value Time → SessionSnapshots Value Time → Type 0
  Same n m = (n.store ≡ m.store) × (n.session_id ≡ m.session_id)

  pub cached-Same :
      (n m : SessionSnapshots Value Time) (children : List (Child outside))
      → Same n m
      → Same (cached outside n children) m
  cached-Same n m [] s = s
  cached-Same n m ((id, x) ∷ children) s =
      let k = latest_kept outside n id in
      cached-Same (Snapshots.latest n id).1 m children (k.0 ∙ s.0, k.1 ∙ s.1)

  pub latest_aside :
      (c : Checkpointer Value Time) (n : SessionSnapshots Value Time) (id : FrameId)
      (snapshot : Snapshot Value Time)
      → Same n c.snapshots
      → latest_snapshot c.snapshots.store c.snapshots.session_id id ≡ ok snapshot
      → latest_snapshot n.store n.session_id id ≡ ok snapshot
  latest_aside c n id snapshot s h = ground (arith, s, h)

  pub Known-aside :
      (c : Checkpointer Value Time) (n : SessionSnapshots Value Time)
      (children : List (Child outside))
      → Same n c.snapshots
      → Known outside c children
      → Known outside (record c { snapshots = n }) children
  Known-aside c n [] s k = tt
  Known-aside c n ((id, (spec, snapshot)) ∷ children) s k = (
    common_spec_of-aside outside id c n spec k.0,
    latest_aside c n id snapshot s k.1,
    Known-aside c n children s k.2,
  )

  pub latest_refs_lem :
      (c : Checkpointer Value Time) (n : SessionSnapshots Value Time)
      (children : List (Child outside))
      → Same n c.snapshots
      → Known outside c children
      → latest_refs (Drains.ids_of outside children) (record c { snapshots = n })
        ≡ some (ok (sources_of children), record c { snapshots = cached outside n children })
  unfolding latest_refs latest_ref pure ◌>>=◌
  latest_refs_lem c n [] s k = refl
  latest_refs_lem c n ((id, (spec, snapshot)) ∷ children) s k =
      let m = (Snapshots.latest n id).1 in
      let t = latest_kept outside n id in
      ground (
        arith,
        latest_known outside (record c { snapshots = n }) id snapshot
            (latest_aside c n id snapshot s k.1),
        latest_refs_lem c m children (t.0 ∙ s.0, t.1 ∙ s.1) k.2,
      )
