-- ===== src/Session/Checkpointer/Committing.antt =====
-- What a commit writes, and when it refuses (session/checkpointer/mod.rs).
use marie.Base.{
  string_eq, ℕ, ◌+◌, ◌≡◌, ◌≢◌, refl, arith, nat_beq_iff, some, none, ok, err, List, [], ◌∷◌,
}
use marie.Base.HashMap
use marie.Base.HashMap.{HashMap}
use marie.Id.{FrameId}
use marie.Session.Model.{ChannelName, ChannelUpdate, SnapshotRef}
use marie.Session.Channel.{Channels}
use marie.Session.Spec.{CommonSpec}
use marie.Session.Snapshots.Store.{Snapshot, latest_snapshot}
use marie.Session.Snapshots as Snapshots
use marie.Session.Snapshots.{SessionSnapshots, ref_eq}
use marie.Session.Checkpointer.State.{
  SessionError, Outside, Checkpointer, pure, raise, gets, choose, read_clock, ◌>>=◌,
}
use marie.Session.Checkpointer.Marks.{common_spec_of}
use marie.Session.Checkpointer.Commits.{group, reduce_all, push, apply_updates, commit_snapshot}
use marie.Session.Checkpointer.Joins.{contributions, joined, reduced, get-reduce_group}
use marie.Session.Checkpointer.Drains.{latest_known, common_spec_of-aside}

module _ {Value Float Time : Type 0} (outside : Outside Value Float Time) where
  -- The channels that the updates lead to.
  abbrev pub channels_after :
      CommonSpec Value → Channels Value → List (ChannelUpdate Value) → Channels Value
  channels_after spec channels [] = channels
  channels_after spec channels (u ∷ us) =
      reduce_all outside.json spec.channels channels (group (u ∷ us) HashMap.empty)

  pub get-channels_after :
      (spec : CommonSpec Value) (channels : Channels Value) (us : List (ChannelUpdate Value))
      (name : ChannelName)
      → HashMap.get (channels_after spec channels us) name
        ≡ reduced outside.json spec.channels channels name (joined none (contributions us name))
  get-channels_after spec channels [] name = refl
  get-channels_after spec channels (u ∷ us) name =
      get-reduce_group outside.json spec.channels channels (u ∷ us) name

  apply_updates_lem :
      (frame_id : FrameId) (channels : Channels Value) (us : List (ChannelUpdate Value))
      (spec : CommonSpec Value) (c : Checkpointer Value Time)
      → common_spec_of outside frame_id c ≡ some (ok spec, c)
      → apply_updates outside frame_id channels us c
        ≡ some (ok (channels_after spec channels us), c)
  unfolding apply_updates pure ◌>>=◌
  apply_updates_lem frame_id channels [] spec c h = refl
  apply_updates_lem frame_id channels (u ∷ us) spec c h = ground (arith, h)

  -- The snapshot that a commit makes, and the checkpointer that has cached it.
  abbrev pub committed :
      FrameId
      → CommonSpec Value
      → Snapshot Value Time
      → List (ChannelUpdate Value)
      → List SnapshotRef
      → Checkpointer Value Time
      → Snapshot Value Time
  committed frame_id spec last us join_sources c =
      Snapshots.new c.session_id frame_id (last.superstep + 1)
        (channels_after spec last.channels us) join_sources (outside.now c.readings)

  abbrev pub with_snapshot :
      FrameId → Snapshot Value Time → Checkpointer Value Time → Checkpointer Value Time
  with_snapshot frame_id snapshot c = record c {
    snapshots = (Snapshots.push (Snapshots.latest c.snapshots frame_id).1 snapshot).1;
    readings = c.readings + 1;
  }

  pub commit_snapshot_lem :
      (c : Checkpointer Value Time) (frame_id : FrameId) (us : List (ChannelUpdate Value))
      (join_sources : List SnapshotRef) (last : Snapshot Value Time) (spec : CommonSpec Value)
      → latest_snapshot c.snapshots.store c.snapshots.session_id frame_id ≡ ok last
      → common_spec_of outside frame_id c ≡ some (ok spec, c)
      → let snapshot = committed frame_id spec last us join_sources c in
        commit_snapshot outside frame_id last.superstep us join_sources c
        ≡ some (ok (Snapshots.ref_of snapshot), with_snapshot frame_id snapshot c)
  unfolding commit_snapshot push gets choose pure raise read_clock Snapshots.push Snapshots.insert
      ◌>>=◌
  commit_snapshot_lem c frame_id us join_sources last spec h k =
      let n = (Snapshots.latest c.snapshots frame_id).1 in
      ground (
        arith,
        latest_known outside c frame_id last h,
        nat_beq_iff last.superstep last.superstep,
        apply_updates_lem frame_id last.channels us spec (record c { snapshots = n })
            (common_spec_of-aside outside frame_id c n spec k),
      )

  -- A commit on the latest stored superstep of a frame makes the next one: the snapshot that its
  -- answer refers to is cached for writing with the given join sources, each of its channels is the
  -- channel of the latest snapshot onto which the contributions of the updates to that channel were
  -- reduced once, in their order, and a channel without updates is as it was. Nothing is stored.
  pub commit_reduces :
      (c : Checkpointer Value Time) (frame_id : FrameId) (us : List (ChannelUpdate Value))
      (join_sources : List SnapshotRef) (last : Snapshot Value Time) (spec : CommonSpec Value)
      → latest_snapshot c.snapshots.store c.snapshots.session_id frame_id ≡ ok last
      → common_spec_of outside frame_id c ≡ some (ok spec, c)
      → (snapshot : Snapshot Value Time) × (d : Checkpointer Value Time) × (commit_snapshot outside
            frame_id last.superstep us join_sources c
          ≡ some (ok (Snapshots.ref_of snapshot), d))
        × (HashMap.get d.snapshots.snapshots (Snapshots.ref_of snapshot)
            ≡ some (Snapshots.from_snapshot snapshot))
        × (d.snapshots.store ≡ c.snapshots.store)
        × (snapshot.superstep ≡ last.superstep + 1)
        × (snapshot.frame_id ≡ frame_id)
        × (snapshot.join_sources ≡ join_sources)
        × ((name : ChannelName)
            → HashMap.get snapshot.channels name
              ≡ reduced outside.json spec.channels last.channels name
                  (joined none (contributions us name)))
  unfolding Snapshots.new Snapshots.push Snapshots.latest Snapshots.insert
  commit_reduces c frame_id us join_sources last spec h k =
      let snapshot = committed frame_id spec last us join_sources c in
      (
        snapshot,
        with_snapshot frame_id snapshot c,
        commit_snapshot_lem c frame_id us join_sources last spec h k,
        HashMap.get-insert_self (Snapshots.latest c.snapshots frame_id).1.snapshots
            (Snapshots.ref_of snapshot) (Snapshots.from_snapshot snapshot),
        ground arith,
        refl,
        refl,
        refl,
        get-channels_after spec last.channels us,
      )

  -- A commit on a superstep that is not the latest that is stored is refused, and changes nothing but
  -- the cache of the snapshots, into which the latest is loaded.
  pub commit_stale :
      (c : Checkpointer Value Time) (frame_id : FrameId) (expected : ℕ)
      (us : List (ChannelUpdate Value)) (join_sources : List SnapshotRef)
      (last : Snapshot Value Time)
      → latest_snapshot c.snapshots.store c.snapshots.session_id frame_id ≡ ok last
      → last.superstep ≢ expected
      → commit_snapshot outside frame_id expected us join_sources c
        ≡ some (
          err (SessionError.stale_superstep expected last.superstep),
          record c { snapshots = (Snapshots.latest c.snapshots frame_id).1 },
        )
  unfolding commit_snapshot choose raise ◌>>=◌
  commit_stale c frame_id expected us join_sources last h ne =
      ground
        (arith, latest_known outside c frame_id last h, nat_beq_iff last.superstep expected, ne)

  -- What a commit wrote is not seen before it is stored: a second commit that expects the superstep
  -- which the first one made is refused as stale.
  pub commit_unseen :
      (c : Checkpointer Value Time) (frame_id : FrameId) (us vs : List (ChannelUpdate Value))
      (js ks : List SnapshotRef) (last : Snapshot Value Time) (spec : CommonSpec Value)
      → latest_snapshot c.snapshots.store c.snapshots.session_id frame_id ≡ ok last
      → common_spec_of outside frame_id c ≡ some (ok spec, c)
      → (snapshot_ref : SnapshotRef) × (d e : Checkpointer Value Time) × (commit_snapshot outside
            frame_id last.superstep us js c
          ≡ some (ok snapshot_ref, d))
        × (commit_snapshot outside frame_id snapshot_ref.superstep vs ks d
            ≡ some (err (SessionError.stale_superstep snapshot_ref.superstep last.superstep), e))
  unfolding Snapshots.new Snapshots.ref_of Snapshots.push Snapshots.latest Snapshots.insert
  commit_unseen c frame_id us vs js ks last spec h k =
      let snapshot = committed frame_id spec last us js c in
      let d = with_snapshot frame_id snapshot c in
      let stored : latest_snapshot d.snapshots.store d.snapshots.session_id frame_id ≡ ok last =
        ground (arith, h) in
      (
        Snapshots.ref_of snapshot,
        d,
        record d { snapshots = (Snapshots.latest d.snapshots frame_id).1 },
        commit_snapshot_lem c frame_id us js last spec h k,
        commit_stale d frame_id (last.superstep + 1) vs ks last stored (omega arith),
      )
