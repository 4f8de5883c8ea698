-- ===== src/Session/Snapshots/Store.antt =====
-- session/snapshot/store/in_memory.rs: `InMemorySessionSnapshotStore`, and the snapshots that it
-- holds (session/snapshot/mod.rs).
use marie.Base.{
  ℕ, ◌&&◌, ◌==◌, leb, nat_eq, pair_eq, if◌then◌else◌, List, [], ◌∷◌, filter, Option, none, some,
  Result, ok, err,
}
use marie.Base.HashMap
use marie.Base.HashMap.{HashMap}
use marie.Id.{SessionId, FrameId, id_eq}
use marie.Session.Model.{SnapshotRef}
use marie.Session.Channel.{Channels}

pub record Snapshot (Value Time : Type 0) : Type 0 where
  pub session_id : SessionId
  pub frame_id : FrameId
  pub superstep : ℕ
  pub channels : Channels Value
  pub join_sources : List SnapshotRef
  pub created_at : Time
  pub pin_count : ℕ

abbrev pub Key : Type 0
Key = SessionId × (FrameId × ℕ)

abbrev pub SnapshotStore : Type 0 → Type 0 → Type 0
SnapshotStore Value Time = HashMap Key (Snapshot Value Time)

pub data StoreError : Type 0 where
  snapshot_not_found : SessionId → FrameId → ℕ → StoreError

module _ {Value Time : Type 0} where
  -- `max_by_key(|snapshot| snapshot.superstep)`: the last of the greatest
  unfoldable pub greatest : Snapshot Value Time → List (Snapshot Value Time) → Snapshot Value Time
  greatest found [] = found
  greatest found (s ∷ ss) =
      if leb found.superstep s.superstep then greatest s ss else greatest found ss

  unfoldable pub max_by_superstep : List (Snapshot Value Time) → Option (Snapshot Value Time)
  max_by_superstep [] = none
  max_by_superstep (s ∷ ss) = some (greatest s ss)

  unfoldable pub latest_snapshot :
      SnapshotStore Value Time → SessionId → FrameId → Result (Snapshot Value Time) StoreError
  latest_snapshot store id frame_id =
      elim (max_by_superstep
        (filter (λ s. s.session_id == id && s.frame_id == frame_id) (HashMap.values store))) [
          | some snapshot ↦ ok snapshot
          | none ↦ err (StoreError.snapshot_not_found id frame_id 0)
        ]

  unfoldable pub snapshot_at :
      SnapshotStore Value Time → SessionId → FrameId → ℕ → Result (Snapshot Value Time) StoreError
  snapshot_at store id frame_id superstep = elim (HashMap.get store (id, (frame_id, superstep))) [
    | some snapshot ↦ ok snapshot
    | none ↦ err (StoreError.snapshot_not_found id frame_id superstep)
  ]

  unfoldable pub upsert_snapshot :
      SnapshotStore Value Time → Snapshot Value Time → SnapshotStore Value Time
  upsert_snapshot store snapshot =
      HashMap.insert store (snapshot.session_id, (snapshot.frame_id, snapshot.superstep)) snapshot
