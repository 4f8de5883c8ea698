-- ===== src/Session/Checkpointer/Drains.antt =====
-- What the children of a frame contribute to it (session/checkpointer/mod.rs).
use marie.Base.{
  ◌≡◌, refl, ◌∙◌, ap, arith, inl, inr, Option, none, some, Option-cases, ok, err, List, [], ◌∷◌,
  ◌++◌, map, string_eq,
}
use marie.Base.HashMap
use marie.Base.HashMap.{HashMap}
use marie.Id.{FrameId}
use marie.Session.Model.{ChannelName, ChannelUpdate}
use marie.Session.Spec.{CommonSpec}
use marie.Session.Snapshots.Store.{Snapshot, latest_snapshot}
use marie.Session.Snapshots as Snapshots
use marie.Session.Snapshots.{SessionSnapshots}
use marie.Session.Frames.Policy.{FrameSpecRef}
use marie.Session.Frames.Tree.Access.{spec_ref_of}
use marie.Session.Checkpointer.State.{
  Outside, Checkpointer, pure, gets, unwrap, panic, on_tree, ◌>>=◌,
}
use marie.Session.Spec.Core as Core
use marie.Session.Graphs as Graphs
use marie.Catalog.Store.{Items}
use marie.Base.{Result-cases}
use marie.Session.Checkpointer.Marks.{latest, found, spec_of, common_spec_of}
use marie.Session.Checkpointer.Commits.{
  collect, updates_of, drain_children, drain_pending_accumulators,
}
use marie.Session.Checkpointer.Joins.{contributions, or_nil, joined, joined-joined}
use marie.Session.Checkpointer.Exports.{
  exported, get-collect, collect-Distinct, contributions-updates_of,
}

module _ {Value Float Time : Type 0} (outside : Outside Value Float Time) where
  -- A child with its spec and its latest snapshot.
  abbrev pub Child : Type 0
  Child = FrameId × (CommonSpec Value × Snapshot Value Time)

  -- The children are cached, with these specs, and these snapshots are the latest that are stored.
  abbrev pub Known : Checkpointer Value Time → List Child → Type 0
  Known c [] = Unit
  Known c ((id, (spec, snapshot)) ∷ children) =
      (common_spec_of outside id c ≡ some (ok spec, c))
      × (latest_snapshot c.snapshots.store c.snapshots.session_id id ≡ ok snapshot)
      × Known c children

  abbrev pub ids_of : List Child → List FrameId
  ids_of children = map (λ c. c.0) children

  -- What the children contribute to a channel of their parent, one after the other.
  abbrev pub contributed : CommonSpec Value → List Child → ChannelName → List Value
  contributed p [] name = []
  contributed p ((id, (spec, snapshot)) ∷ children) name =
      exported p snapshot.channels spec.exported_channels name ++ contributed p children name

  -- The spec that a reference stands for, in a catalog of graphs.
  abbrev spec_at : Items → FrameSpecRef → Option (CommonSpec Value)
  spec_at graphs (FrameSpecRef.graph r) = elim (Graphs.get outside.codec graphs r) [
    | ok spec ↦ some spec.common
    | err e ↦ none
  ]
  spec_at graphs FrameSpecRef.hitl_spec = some Core.hitl
  spec_at graphs FrameSpecRef.tool_call = some Core.tool
  spec_at graphs FrameSpecRef.tool_aggregator = some Core.tool_aggregator
  spec_at graphs FrameSpecRef.expert = some (Core.expert outside.json)
  spec_at graphs FrameSpecRef.expert_aggregator = some Core.expert_aggregator

  spec_of_lem :
      (r : FrameSpecRef) (c : Checkpointer Value Time)
      → spec_of outside r c
        ≡ (elim (spec_at c.graphs r) [ some spec ↦ some (ok spec, c) | none ↦ none ])
  unfolding spec_of gets found unwrap pure panic ◌>>=◌
  spec_of_lem (FrameSpecRef.graph r) c = elim (Result-cases (Graphs.get outside.codec c.graphs r)) [
    | inl (g, e) ↦ ground (arith, e)
    | inr (x, e) ↦ ground (arith, e)
  ]
  spec_of_lem FrameSpecRef.hitl_spec c = refl
  spec_of_lem FrameSpecRef.tool_call c = refl
  spec_of_lem FrameSpecRef.tool_aggregator c = refl
  spec_of_lem FrameSpecRef.expert c = refl
  spec_of_lem FrameSpecRef.expert_aggregator c = refl

  -- The specs of frames are read without the snapshots.
  pub common_spec_of-aside :
      (id : FrameId) (c : Checkpointer Value Time) (n : SessionSnapshots Value Time)
      (spec : CommonSpec Value)
      → common_spec_of outside id c ≡ some (ok spec, c)
      → common_spec_of outside id (record c { snapshots = n })
        ≡ some (ok spec, record c { snapshots = n })
  unfolding common_spec_of on_tree ◌>>=◌
  common_spec_of-aside id c n spec h = elim (Option-cases (spec_ref_of c.frames id)) [
    | inl e ↦ absurd (ground (arith, e, h))
    | inr ((r, t), e) ↦ elim (Option-cases (spec_at c.graphs r)) [
      | inl x ↦ absurd (ground (arith, e, h, x, spec_of_lem r (record c { frames = t })))
      | inr (s, x) ↦ ground (
        arith,
        e,
        h,
        x,
        spec_of_lem r (record c { frames = t }),
        spec_of_lem r (record c { frames = t; snapshots = n }),
      )
    ]
  ]

  pub latest_known :
      (c : Checkpointer Value Time) (id : FrameId) (snapshot : Snapshot Value Time)
      → latest_snapshot c.snapshots.store c.snapshots.session_id id ≡ ok snapshot
      → latest id c
        ≡ some (ok snapshot, record c { snapshots = (Snapshots.latest c.snapshots id).1 })
  unfolding latest Snapshots.latest Snapshots.insert Snapshots.from_loaded
  latest_known c id snapshot h = ground (arith, h)

  pub latest_kept :
      (n : SessionSnapshots Value Time) (id : FrameId)
      → let m = (Snapshots.latest n id).1 in (m.store ≡ n.store) × (m.session_id ≡ n.session_id)
  unfolding Snapshots.latest Snapshots.insert
  latest_kept n id = ground arith

  -- The snapshots once the latest of each child is cached.
  abbrev pub cached : SessionSnapshots Value Time → List Child → SessionSnapshots Value Time
  cached n [] = n
  cached n ((id, x) ∷ children) = cached (Snapshots.latest n id).1 children

  abbrev collect_all :
      CommonSpec Value
      → List Child
      → HashMap ChannelName (List Value)
      → HashMap ChannelName (List Value)
  collect_all p [] m = m
  collect_all p ((id, (spec, snapshot)) ∷ children) m =
      collect_all p children (collect p snapshot.channels spec.exported_channels m)

  drain_children_lem :
      (p : CommonSpec Value) (c : Checkpointer Value Time) (n : SessionSnapshots Value Time)
      (children : List Child) (m : HashMap ChannelName (List Value))
      → (n.store ≡ c.snapshots.store) × (n.session_id ≡ c.snapshots.session_id)
      → Known c children
      → drain_children outside p (ids_of children) m (record c { snapshots = n })
        ≡ some (ok (collect_all p children m), record c { snapshots = cached n children })
  unfolding drain_children pure ◌>>=◌
  drain_children_lem p c n [] m same k = refl
  drain_children_lem p c n ((id, (spec, snapshot)) ∷ children) m same k =
      let n' = (Snapshots.latest n id).1 in
      let kept = latest_kept n id in
      ground (
        arith,
        common_spec_of-aside id c n spec k.0,
        latest_known (record c { snapshots = n }) id snapshot (ground (arith, same, k.1)),
        drain_children_lem p c n' children (collect p snapshot.channels spec.exported_channels m)
            (kept.0 ∙ same.0, kept.1 ∙ same.1) k.2,
      )

  get-collect_all :
      (p : CommonSpec Value) (children : List Child) (m : HashMap ChannelName (List Value))
      (k : ChannelName)
      → HashMap.get (collect_all p children m) k
        ≡ joined (HashMap.get m k) (contributed p children k)
  get-collect_all p [] m k = refl
  get-collect_all p ((id, (spec, snapshot)) ∷ children) m k =
      get-collect_all p children (collect p snapshot.channels spec.exported_channels m) k
      ∙ ap (λ o. joined o (contributed p children k))
          (get-collect p snapshot.channels spec.exported_channels m k)
      ∙ joined-joined (HashMap.get m k) (exported p snapshot.channels spec.exported_channels k)
          (contributed p children k)

  collect_all-Distinct :
      (p : CommonSpec Value) (children : List Child) (m : HashMap ChannelName (List Value))
      → HashMap.Distinct m
      → HashMap.Distinct (collect_all p children m)
  collect_all-Distinct p [] m d = d
  collect_all-Distinct p ((id, (spec, snapshot)) ∷ children) m d =
      collect_all-Distinct p children (collect p snapshot.channels spec.exported_channels m)
        (collect-Distinct p snapshot.channels spec.exported_channels m d)

  or_nil-joined : (vs : List Value) → or_nil (joined none vs) ≡ vs
  or_nil-joined [] = refl
  or_nil-joined (v ∷ vs) = refl

  -- What is drained from children whose specs are known and whose snapshots are stored: for each
  -- channel, the values that the children hold under it, one child after the other, of the children
  -- that export it, if the parent imports it, and nothing else. Only the cache of the snapshots
  -- changes.
  pub drained_updates :
      (c : Checkpointer Value Time) (frame_id : FrameId) (p : CommonSpec Value)
      (children : List Child)
      → common_spec_of outside frame_id c ≡ some (ok p, c)
      → Known c children
      → (updates : List (ChannelUpdate Value)) × (drain_pending_accumulators outside frame_id
            (ids_of children)
            c
          ≡ some (ok updates, record c { snapshots = cached c.snapshots children }))
        × ((name : ChannelName) → contributions updates name ≡ contributed p children name)
  unfolding drain_pending_accumulators pure ◌>>=◌ HashMap.get
  drained_updates c frame_id p children h k =
      let m = collect_all p children [] in
      (
        updates_of frame_id m,
        ground (arith, h, drain_children_lem p c c.snapshots children [] (refl, refl) k),
        λ name.
            contributions-updates_of frame_id m name (collect_all-Distinct p children [] tt)
            ∙ ap or_nil (get-collect_all p children [] name)
            ∙ or_nil-joined (contributed p children name),
      )
