-- ===== src/Session/Snapshots/Examples.antt =====
-- Two snapshots of a frame, the later one stored last; the theorem at them.
use marie.Base.{ℕ, ◌≡◌, refl, [], ok}
use marie.Base.HashMap
use marie.Id.{SessionId, FrameId, id_beq}
use marie.Session.Snapshots.Store.{
  Snapshot, SnapshotStore, greatest, max_by_superstep, latest_snapshot, upsert_snapshot,
}
use marie.Session.Snapshots.{SessionSnapshots, new}
use marie.Session.Snapshots.Latest.{
  IsKeyed, upsert_snapshot-IsKeyed, IsLatest, latest_snapshot-IsLatest,
}

abbrev session : SessionId
session = record { prefix = 1; local = 1 }

abbrev frame : FrameId
frame = record { prefix = 1; local = 2 }

abbrev at_step : ℕ → Snapshot ℕ ℕ
at_step n = new session frame n [] [] 0

abbrev two : SnapshotStore ℕ ℕ
two = upsert_snapshot (upsert_snapshot [] (at_step 3)) (at_step 1)

two-IsKeyed : IsKeyed two
unfolding HashMap.get
two-IsKeyed =
    upsert_snapshot-IsKeyed (upsert_snapshot [] (at_step 3)) (at_step 1)
      (upsert_snapshot-IsKeyed [] (at_step 3) nothing)
  where
    nothing : IsKeyed {Value = ℕ} {Time = ℕ} []
    nothing = record { distinct = tt; keyed = λ k s e. cc }

third_is_latest : latest_snapshot two session frame ≡ ok (at_step 3)
unfolding latest_snapshot upsert_snapshot max_by_superstep greatest new HashMap.insert id_beq
third_is_latest = refl

latest_snapshot-IsLatest_example : IsLatest two session frame (latest_snapshot two session frame)
latest_snapshot-IsLatest_example = latest_snapshot-IsLatest two session frame two-IsKeyed

abbrev snaps : SessionSnapshots ℕ ℕ
snaps = record { store = two; session_id = session; snapshots = []; detached = [] }
