-- ===== src/Session/Checkpointer/Inheritance.antt =====
-- session/checkpointer/mod.rs: the creation of a frame and the channels that it inherits.
use marie.Base.{Bool, true, false, none, some, List, [], ◌∷◌, ok, err, string_eq}
use marie.Base.HashMap
use marie.Base.HashMap.{HashMap}
use marie.Id.{FrameId}
use marie.Session.Model.{ChannelName}
use marie.Session.Channel.{Channels}
use marie.Session.Frames.Policy.{FramePolicy, ResumePolicy}
use marie.Session.Frames.Node.{FrameNode, NewFrameNodeArgs}
use marie.Session.Frames.Tree.{try_get, parent_of, prev_sibling_of, iter_children_of}
use marie.Session.Frames.Tree.Links as Links
use marie.Session.Frames.Tree.Access.{update, policy_of}
use marie.Session.Checkpointer.State.{
  StorageError, SessionError, SessionCheckpointEvent, Outside, Checkpointer, Action, pure, gets,
  choose, let_else, on_tree, change_tree, emit, next_id, ◌>>=◌, ◌>>◌,
}
use marie.Session.Checkpointer.Marks.{latest, common_spec_of}

-- `iter.next().is_some()`, negated
unfoldable pub is_empty : List FrameId → Bool
is_empty [] = true
is_empty (id ∷ ids) = false

module _ {Value : Type 0} where
  -- `names.flat_map(|name| values.get(&name).map(|value| (name, value)))`
  unfoldable pub pick : List ChannelName → Channels Value → List (ChannelName × Value)
  pick [] values = []
  pick (name ∷ names) values = elim (HashMap.get values name) [
    | some value ↦ (name, value) ∷ pick names values
    | none ↦ pick names values
  ]

  unfoldable pub extend_inherited : List (ChannelName × Value) → FrameNode Value → FrameNode Value
  extend_inherited values node = record node {
    inherited_channels = HashMap.extend node.inherited_channels values;
  }

module _ {Value Time : Type 0} where
  -- `self.frames.try_get(frame_id).await?`
  unfoldable pub load : FrameId → Action Value Time (Unit {0})
  load frame_id c =
      let (r, tree) = try_get c.frames frame_id in
      let c' : Checkpointer Value Time = record c { frames = tree } in
      elim r [
        | ok container ↦ some (ok tt, c')
        | err e ↦ some (err (SessionError.storage_error (StorageError.frame_error e)), c')
      ]

module _ {Value Float Time : Type 0} (outside : Outside Value Float Time) where
  unfoldable pub set_root : NewFrameNodeArgs Value → Channels Value → Action Value Time FrameId
  set_root args initial_channels = do
    id ← next_id outside.ids
    frame_id ← on_tree (λ tree. some (Links.set_root tree id args))
    change_tree (λ tree. update tree frame_id (extend_inherited initial_channels))
    pure frame_id

  unfoldable pub write_to_inherited_channels :
      FrameId → List (ChannelName × Value) → Action Value Time (Unit {0})
  write_to_inherited_channels frame_id values = do
    spec ← common_spec_of outside frame_id
    load frame_id
    change_tree (λ tree.
        update tree frame_id
          (extend_inherited (pick spec.inherited_channels (HashMap.extend HashMap.empty values))))

  -- The common part of `inherit_from_parent` and `inherit_from_prev_sibling`.
  unfoldable pub inherit_from : FrameId → FrameId → Action Value Time (Unit {0})
  inherit_from frame_id source = do
    snapshot ← latest source
    spec ← common_spec_of outside frame_id
    change_tree (λ tree. update tree frame_id (λ node.
        record (extend_inherited (pick spec.inherited_channels snapshot.channels) node) {
          superstep = snapshot.superstep;
        }))

  unfoldable pub inherit_from_parent : FrameId → Action Value Time (Unit {0})
  inherit_from_parent frame_id = do
    parent ← gets (λ c. parent_of c.frames frame_id)
    let_else parent (pure tt) (λ parent_id. inherit_from frame_id parent_id)

  unfoldable pub inherit_from_prev_sibling : FrameId → Action Value Time (Unit {0})
  inherit_from_prev_sibling frame_id = do
    sibling ← gets (λ c. prev_sibling_of c.frames frame_id)
    let_else sibling (pure tt) (λ sibling_id. inherit_from frame_id sibling_id)

  -- The choice of `append_frame`: it asks whether the parent has a child, after it has appended one.
  unfoldable pub inherit : ResumePolicy → FrameId → FrameId → Action Value Time (Unit {0})
  inherit ResumePolicy.sequential parent_id frame_id = do
    children ← gets (λ c. iter_children_of c.frames parent_id)
    choose (is_empty children) (inherit_from_parent frame_id) (inherit_from_prev_sibling frame_id)
  inherit ResumePolicy.hitl parent_id frame_id = inherit_from_parent frame_id
  inherit ResumePolicy.fan_in parent_id frame_id = inherit_from_parent frame_id

  unfoldable pub append_frame : FrameId → NewFrameNodeArgs Value → Action Value Time FrameId
  append_frame parent_id args = do
    id ← next_id outside.ids
    frame_id ← on_tree (λ tree. some (Links.append tree parent_id id args))
    policy ← on_tree (λ tree. policy_of tree parent_id)
    spec ← common_spec_of outside frame_id
    change_tree (λ tree. update tree frame_id (extend_inherited spec.default_values))
    inherit (FramePolicy.resume_policy policy) parent_id frame_id
    session_id ← gets (λ c. c.session_id)
    emit (SessionCheckpointEvent.frame_created session_id frame_id)
    pure frame_id
