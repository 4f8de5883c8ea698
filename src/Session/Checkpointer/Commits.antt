-- ===== src/Session/Checkpointer/Commits.antt =====
-- session/checkpointer/mod.rs: what the children of a frame exported, the resolution of a pending log,
-- and the commit of a snapshot.
use marie.Base.{
  ℕ, ◌+◌, not, Option, none, some, List, [], ◌∷◌, ◌++◌, map, find?, contains, ◌==◌, string_eq,
  nat_beq, if◌then◌else◌, ok,
}
use marie.Base.HashMap
use marie.Base.HashMap.{HashMap}
use marie.Id.{FrameId}
use marie.Session.Model.{ChannelName, ChannelUpdate, SnapshotRef}
use marie.Session.Channel.{Json, Channels, Reducer, ChannelSpec, reduce}
use marie.Session.Spec.{CommonSpec}
use marie.Session.RunLogs.{RunLog, RunLogContent}
use marie.Session.Snapshots.Store.{Snapshot}
use marie.Session.Snapshots as Snapshots
use marie.Session.Frames.Policy.{FrameSpecRef}
use marie.Session.Frames.Tree.Access.{pending_log_of, spec_ref_of, resolve_log}
use marie.Session.Checkpointer.State.{
  SessionError, Outside, Action, pure, raise, gets, choose, let_else, on_tree, change_tree,
  read_clock, ◌>>=◌, ◌>>◌,
}
use marie.Session.Checkpointer.Marks.{latest, common_spec_of}
use marie.Session.Checkpointer.Inheritance.{pick}

unfoldable pub reducer_of : List ChannelSpec → ChannelName → Reducer
reducer_of channels name = elim (find? (λ c. c.name == name) channels) [
  | some channel ↦ channel.reducer
  | none ↦ Reducer.last_write_wins
]

module _ {Value : Type 0} where
  -- `per_channel.entry(name).or_default().push(value)`
  unfoldable pub push_value :
      HashMap ChannelName (List Value) → ChannelName → Value → HashMap ChannelName (List Value)
  push_value per_channel name value = elim (HashMap.get per_channel name) [
    | some values ↦ HashMap.insert per_channel name (values ++ value ∷ [])
    | none ↦ HashMap.insert per_channel name (value ∷ [])
  ]

  -- The loop over the channels that a child exports.
  unfoldable pub collect :
      CommonSpec Value
      → Channels Value
      → List ChannelName
      → HashMap ChannelName (List Value)
      → HashMap ChannelName (List Value)
  collect parent_spec channels [] per_channel = per_channel
  collect parent_spec channels (exported ∷ names) per_channel = collect parent_spec channels names (
      if not (contains parent_spec.imported_channels exported)
      then per_channel
      else elim (HashMap.get channels exported) [
        | some value ↦ push_value per_channel exported value
        | none ↦ per_channel
      ])

  unfoldable pub updates_of :
      FrameId → HashMap ChannelName (List Value) → List (ChannelUpdate Value)
  updates_of frame_id [] = []
  updates_of frame_id ((name, values) ∷ per_channel) =
      map (λ value. record { name = name; value = value; contributor = frame_id }) values
      ++ updates_of frame_id per_channel

  -- `commit_snapshot`: the updates grouped by channel
  unfoldable pub group :
      List (ChannelUpdate Value)
      → HashMap ChannelName (List Value)
      → HashMap ChannelName (List Value)
  group [] per_channel = per_channel
  group (update ∷ updates) per_channel =
      group updates (push_value per_channel update.name update.value)

module _ {Value Float : Type 0} (json : Json Value Float) where
  -- `commit_snapshot`: the groups reduced onto the copy of the channels
  unfoldable pub reduce_all :
      List ChannelSpec → Channels Value → HashMap ChannelName (List Value) → Channels Value
  reduce_all specs channels [] = channels
  reduce_all specs channels ((name, contributions) ∷ per_channel) =
      reduce_all specs
        (HashMap.insert channels name
          (reduce json (reducer_of specs name) (HashMap.get channels name) contributions))
        per_channel

module _ {Value Time : Type 0} where
  unfoldable pub push : Snapshot Value Time → Action Value Time SnapshotRef
  push snapshot c =
      let (snapshot_ref, snapshots) = Snapshots.push c.snapshots snapshot in
      some (ok snapshot_ref, record c { snapshots = snapshots })

module _ {Value Float Time : Type 0} (outside : Outside Value Float Time) where
  -- The loop of `drain_pending_accumulators` over the children.
  unfoldable pub drain_children :
      CommonSpec Value
      → List FrameId
      → HashMap ChannelName (List Value)
      → Action Value Time (HashMap ChannelName (List Value))
  drain_children parent_spec [] per_channel = pure per_channel
  drain_children parent_spec (child_id ∷ relevants) per_channel = do
    child_spec ← common_spec_of outside child_id
    child_snapshot ← latest child_id
    drain_children parent_spec relevants
        (collect parent_spec child_snapshot.channels child_spec.exported_channels per_channel)

  unfoldable pub drain_pending_accumulators :
      FrameId → List FrameId → Action Value Time (List (ChannelUpdate Value))
  drain_pending_accumulators frame_id relevants = do
    parent_spec ← common_spec_of outside frame_id
    per_channel ← drain_children parent_spec relevants HashMap.empty
    pure (updates_of frame_id per_channel)

  unfoldable pub exported_map : FrameId → Channels Value → Action Value Time (Option Value)
  exported_map child_id channels = do
    sub_spec ← common_spec_of outside child_id
    pure (some (outside.object (pick sub_spec.exported_channels channels)))

  -- The `match` on the pending entry and the kind of the child.
  unfoldable pub answer_of :
      FrameId
      → RunLogContent Value
      → FrameSpecRef
      → Channels Value
      → Action Value Time (Option Value)
  answer_of child_id (RunLogContent.hitl_log hitl) FrameSpecRef.hitl_spec channels =
      pure (HashMap.get channels "hitl_answer")
  answer_of child_id (RunLogContent.consult_experts_log rs) FrameSpecRef.expert_aggregator
        channels =
      pure (HashMap.get channels "expert_consultation_answer")
  answer_of child_id (RunLogContent.call_tools_log rs) FrameSpecRef.tool_aggregator channels =
      pure (HashMap.get channels "tool_result")
  answer_of child_id (RunLogContent.graph_log graph_id) (FrameSpecRef.graph r) channels =
      exported_map child_id channels
  answer_of child_id _ _ channels = pure none

  -- The loop of `resolve_pending_log` over the children.
  unfoldable pub resolve_from : FrameId → RunLog Value → List FrameId → Action Value Time (Unit {0})
  resolve_from frame_id pending [] = pure tt
  resolve_from frame_id pending (child_id ∷ relevants) = do
    child_spec_ref ← on_tree (λ tree. spec_ref_of tree child_id)
    snapshot ← latest child_id
    resolved ← answer_of child_id pending.content child_spec_ref snapshot.channels
    let_else resolved (resolve_from frame_id pending relevants)
        (λ value. change_tree (λ tree. resolve_log tree frame_id pending.index value))

  unfoldable pub resolve_pending_log : FrameId → List FrameId → Action Value Time (Unit {0})
  resolve_pending_log frame_id relevants = do
    pending ← on_tree (λ tree. pending_log_of tree frame_id)
    let_else pending (pure tt) (λ log. resolve_from frame_id log relevants)

  -- The channels of the new snapshot; the spec is only read when there is an update.
  unfoldable pub apply_updates :
      FrameId → Channels Value → List (ChannelUpdate Value) → Action Value Time (Channels Value)
  apply_updates frame_id channels [] = pure channels
  apply_updates frame_id channels (update ∷ updates) = do
    spec ← common_spec_of outside frame_id
    pure (reduce_all outside.json spec.channels channels (group (update ∷ updates) HashMap.empty))

  -- `expected_superstep + 1` is far below the `u32` bound.
  unfoldable pub commit_snapshot :
      FrameId → ℕ → List (ChannelUpdate Value) → List SnapshotRef → Action Value Time SnapshotRef
  commit_snapshot frame_id expected_superstep updates join_sources = do
    last ← latest frame_id
    let fresh = nat_beq last.superstep expected_superstep
    choose fresh (pure tt) (raise (SessionError.stale_superstep expected_superstep last.superstep))
    channels ← apply_updates frame_id last.channels updates
    now ← read_clock outside.now
    session_id ← gets (λ c. c.session_id)
    push (Snapshots.new session_id frame_id (expected_superstep + 1) channels join_sources now)
