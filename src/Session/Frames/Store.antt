-- ===== src/Session/Frames/Store.antt =====
-- frames/store/in_memory.rs: `InMemorySessionFrameStore`, the persisted frames of all sessions.
pub mod Root
use marie.Base.{
  Bool, true, false, ◌&&◌, ◌==◌, pair_eq, if◌then◌else◌, List, [], ◌∷◌, find?, Option, none, some,
  Result, ok, err,
}
use marie.Base.HashMap
use marie.Base.HashMap.{HashMap}
use marie.Id.{SessionId, FrameId, HitlId, id_eq}
use marie.Session.Frames.Policy.{FrameKind}
use marie.Session.Frames.Node.{FrameNode}

pub data StoreError : Type 0 where
  frame_not_found : SessionId → FrameId → StoreError
  no_root_frame : SessionId → StoreError

abbrev pub FrameStore : Type 0 → Type 0
FrameStore Value = HashMap (SessionId × FrameId) (FrameNode Value)

module _ {Value : Type 0} where
  unfoldable pub get_root_frame_id : FrameStore Value → SessionId → Result FrameId StoreError
  get_root_frame_id frames id =
      elim (find? (λ frame. frame.session_id == id && frame.is_root) (HashMap.values frames)) [
        | some frame ↦ ok frame.id
        | none ↦ err (StoreError.no_root_frame id)
      ]

  -- The loop of `set_root_frame_id` over the entries.
  unfoldable pub demote_others : FrameStore Value → SessionId → FrameId → FrameStore Value
  demote_others [] session_id frame_id = []
  demote_others ((key, existing) ∷ frames) session_id frame_id =
      let rest = demote_others frames session_id frame_id in
      if key.0 == session_id
      then (key, record existing { is_root = key.1 == frame_id }) ∷ rest
      else (key, existing) ∷ rest

  unfoldable pub set_root_frame_id :
      FrameStore Value → SessionId → FrameId → Result FrameId StoreError × FrameStore Value
  set_root_frame_id frames session_id frame_id =
      if HashMap.contains_key frames (session_id, frame_id)
      then (ok frame_id, demote_others frames session_id frame_id)
      else (err (StoreError.frame_not_found session_id frame_id), frames)

  unfoldable pub get_frame :
      FrameStore Value → SessionId → FrameId → Result (FrameNode Value) StoreError
  get_frame frames id frame_id = elim (HashMap.get frames (id, frame_id)) [
    | some frame ↦ ok frame
    | none ↦ err (StoreError.frame_not_found id frame_id)
  ]

  unfoldable pub bind_hitl_to_frame :
      FrameStore Value
      → SessionId
      → FrameId
      → HitlId
      → Result {0, 0} Unit StoreError × FrameStore Value
  bind_hitl_to_frame frames id frame_id hitl_id = elim (HashMap.get frames (id, frame_id)) [
    | some frame ↦ (
      ok tt,
      HashMap.insert frames (id, frame_id) (record frame { data_kind = FrameKind.hitl hitl_id }),
    )
    | none ↦ (err (StoreError.frame_not_found id frame_id), frames)
  ]

  -- `frame.data == FrameKind::Hitl(hitl_id)`
  unfoldable pub is_hitl : FrameKind Value → HitlId → Bool
  is_hitl (FrameKind.hitl i) hitl_id = i == hitl_id
  is_hitl _ hitl_id = false

  unfoldable pub get_frame_id_by_hitl_id : FrameStore Value → SessionId → HitlId → Option FrameId
  get_frame_id_by_hitl_id frames id hitl_id =
      elim (find? (λ frame. frame.session_id == id && is_hitl frame.data_kind hitl_id)
        (HashMap.values frames)) [ some frame ↦ some frame.id | none ↦ none ]

  unfoldable pub upsert_frame : FrameStore Value → FrameNode Value → FrameStore Value
  upsert_frame frames node = HashMap.insert frames (node.session_id, node.id) node

  unfoldable pub delete_frame :
      FrameStore Value
      → SessionId
      → FrameId
      → Result (FrameNode Value) StoreError × FrameStore Value
  delete_frame frames id frame_id = elim (HashMap.get frames (id, frame_id)) [
    | some frame ↦ (ok frame, HashMap.remove frames (id, frame_id))
    | none ↦ (err (StoreError.frame_not_found id frame_id), frames)
  ]
