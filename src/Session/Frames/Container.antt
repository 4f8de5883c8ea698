-- ===== src/Session/Frames/Container.antt =====
-- frames/container.rs: `FrameNodeContainer`, a cached node that knows whether it was changed. The
-- store that a container holds is passed to the methods that write to it.
use marie.Base.{Bool, true, false, if◌then◌else◌, Result, ok, err}
use marie.Id.{SessionId, FrameId}
use marie.Session.Frames.Node.{FrameNode}
use marie.Session.Frames.Store.{FrameStore, StoreError, get_frame, upsert_frame, delete_frame}

pub record FrameNodeContainer (Value : Type 0) : Type 0 where
  pub node : FrameNode Value
  pub dirty : Bool
  pub deleted : Bool

module _ {Value : Type 0} where
  unfoldable pub new :
      FrameStore Value → SessionId → FrameId → Result (FrameNodeContainer Value) StoreError
  new store session_id frame_id = elim (get_frame store session_id frame_id) [
    | ok node ↦ ok (record { node = node; dirty = false; deleted = false })
    | err e ↦ err e
  ]

  unfoldable pub from_new_node : FrameNode Value → FrameNodeContainer Value
  from_new_node node = record { node = node; dirty = true; deleted = false }

  -- `deref_mut` and a change of the node through it
  unfoldable pub deref_mut :
      (FrameNode Value → FrameNode Value) → FrameNodeContainer Value → FrameNodeContainer Value
  deref_mut change container = record container { node = change container.node; dirty = true }

  unfoldable pub flush :
      FrameNodeContainer Value → FrameStore Value → FrameNodeContainer Value × FrameStore Value
  flush container store =
      if container.dirty
      then (record container { dirty = false }, upsert_frame store container.node)
      else (container, store)

  unfoldable pub delete :
      FrameNodeContainer Value
      → FrameStore Value
      → Result (FrameNodeContainer Value) StoreError × FrameStore Value
  delete container store =
      let (r, store') = delete_frame store container.node.session_id container.node.id in
      elim r [
        | ok node ↦ (ok (record container { dirty = false }), store')
        | err e ↦ (err e, store')
      ]
