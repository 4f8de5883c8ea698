-- ===== src/Session/Snapshots.antt =====
-- session/snapshot/mod.rs: the snapshots of a session, cached over their store. The cache has no
-- bound; the time of creation is an argument. `detached` are the writes that were spawned on a drop
-- and have not run.
pub mod Store
pub mod Latest
mod Examples
use marie.Base.{
  ℕ, ◌↔◌, ◌≡◌, Bool, true, false, ◌&&◌, nat_beq, if◌then◌else◌, arith, PartialEq, List, [], ◌∷◌,
  ◌++◌, Option, none, some, Result, ok, err,
}
use marie.Base.HashMap
use marie.Base.HashMap.{HashMap}
use marie.Id.{SessionId, FrameId, id_beq, id_beq_iff}
use marie.Session.Model.{SnapshotRef}
use marie.Session.Channel.{Channels}
use marie.Session.Snapshots.Store.{
  Snapshot, SnapshotStore, StoreError, snapshot_at, upsert_snapshot, latest_snapshot,
}

unfoldable pub ref_beq : SnapshotRef → SnapshotRef → Bool
ref_beq a b =
    id_beq a.session_id b.session_id
    && id_beq a.frame_id b.frame_id
    && nat_beq a.superstep b.superstep

pub ref_beq_iff : (a b : SnapshotRef) → (ref_beq a b ≡ true) ↔ (a ≡ b)
unfolding ref_beq
ref_beq_iff a b =
    ground (arith, id_beq_iff a.session_id b.session_id, id_beq_iff a.frame_id b.frame_id)

instance abbrev pub ref_eq : PartialEq SnapshotRef
ref_eq = record { eq = ref_beq; eq_iff = ref_beq_iff }

module _ (Value Time : Type 0) where
  pub record SnapshotContainer : Type 0 where
    pub snapshot : Snapshot Value Time
    pub dirty : Bool

  pub record SessionSnapshots : Type 0 where
    pub store : SnapshotStore Value Time
    pub session_id : SessionId
    pub snapshots : HashMap SnapshotRef SnapshotContainer
    pub detached : List (Snapshot Value Time)

module _ {Value Time : Type 0} where
  unfoldable pub new :
      SessionId → FrameId → ℕ → Channels Value → List SnapshotRef → Time → Snapshot Value Time
  new session_id frame_id superstep channels join_sources now = record {
    session_id = session_id;
    frame_id = frame_id;
    superstep = superstep;
    channels = channels;
    join_sources = join_sources;
    created_at = now;
    pin_count = 0;
  }

  unfoldable pub ref_of : Snapshot Value Time → SnapshotRef
  ref_of s = record { session_id = s.session_id; frame_id = s.frame_id; superstep = s.superstep }

  unfoldable pub from_loaded : Snapshot Value Time → SnapshotContainer Value Time
  from_loaded snapshot = record { snapshot = snapshot; dirty = false }

  unfoldable pub from_snapshot : Snapshot Value Time → SnapshotContainer Value Time
  from_snapshot snapshot = record { snapshot = snapshot; dirty = true }

  unfoldable pub flush :
      SnapshotContainer Value Time
      → SnapshotStore Value Time
      → SnapshotContainer Value Time × SnapshotStore Value Time
  flush container store =
      if container.dirty
      then (record container { dirty = false }, upsert_snapshot store container.snapshot)
      else (container, store)

  -- `Drop` of the container that an insertion replaces: a dirty one detaches a task that writes it.
  unfoldable pub dropped : Option (SnapshotContainer Value Time) → List (Snapshot Value Time)
  dropped none = []
  dropped (some container) = if container.dirty then container.snapshot ∷ [] else []

  -- `Cache::insert`, which drops the container that it replaces
  unfoldable pub insert :
      SessionSnapshots Value Time
      → SnapshotRef
      → SnapshotContainer Value Time
      → SessionSnapshots Value Time
  insert snaps snapshot_ref container = record snaps {
    snapshots = HashMap.insert snaps.snapshots snapshot_ref container;
    detached = snaps.detached ++ dropped (HashMap.get snaps.snapshots snapshot_ref);
  }

  -- A detached task runs: it writes its snapshot. Until then its write is not seen.
  unfoldable pub land : SessionSnapshots Value Time → SessionSnapshots Value Time
  land snaps = elim snaps.detached [
    | [] ↦ snaps
    | snapshot ∷ detached ↦ record snaps {
      store = upsert_snapshot snaps.store snapshot;
      detached = detached;
    }
  ]

  unfoldable pub push :
      SessionSnapshots Value Time → Snapshot Value Time → SnapshotRef × SessionSnapshots Value Time
  push snaps snapshot =
      let snapshot_ref = ref_of snapshot in
      (snapshot_ref, insert snaps snapshot_ref (from_snapshot snapshot))

  unfoldable pub try_get :
      SessionSnapshots Value Time
      → FrameId
      → ℕ
      → Result (SnapshotContainer Value Time) StoreError × SessionSnapshots Value Time
  try_get snaps frame_id superstep =
      let snapshot_ref : SnapshotRef = record {
        session_id = snaps.session_id;
        frame_id = frame_id;
        superstep = superstep;
      } in
      elim (HashMap.get snaps.snapshots snapshot_ref) [
        | some container ↦ (ok container, snaps)
        | none ↦ elim (snapshot_at snaps.store snaps.session_id frame_id superstep) [
          | ok snapshot ↦
              (ok (from_loaded snapshot), insert snaps snapshot_ref (from_loaded snapshot))
          | err e ↦ (err e, snaps)
        ]
      ]

  unfoldable pub latest :
      SessionSnapshots Value Time
      → FrameId
      → Result (SnapshotContainer Value Time) StoreError × SessionSnapshots Value Time
  latest snaps frame_id = elim (latest_snapshot snaps.store snaps.session_id frame_id) [
    | ok snapshot ↦
        (ok (from_loaded snapshot), insert snaps (ref_of snapshot) (from_loaded snapshot))
    | err e ↦ (err e, snaps)
  ]
