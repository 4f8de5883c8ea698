-- ===== src/Lease/Storage/Replicas.antt =====
-- The replicas of the lease group: batches, snapshots, and the clock that each replica reads.
use marie.Base.{
  ℕ, ◌≡◌, ◌≢◌, refl, true, false, none, some, List, [], ◌∷◌, ◌++◌, ap, arith, length, String,
}
use marie.Base.HashMap
use marie.Id.{NodeId, id_eq}
use marie.Lease.Protocol.{Chrono, LeaseOp, LeaseRequest}
use marie.Lease.Authority.{
  LeaseEntry, new, has_expired, next_epoch, grant, acquire, dispatch, handle_request, snapshot,
  restore,
}
use marie.Lease.Storage.Log.{Entry, Payload, blank, normal, membership}
use marie.Lease.Storage.Machine.{
  StateMachine, SnapshotMeta, Codec, apply, apply_payload, install_snapshot, build_snapshot, encode,
  decode,
}

module _ {LogId Membership Time Span : Type 0} (chrono : Chrono Time Span) where
  -- One response for each entry, and the entries of two batches are applied as those of one.
  pub apply_batches :
      (m : StateMachine LogId Membership Time) (xs ys : List (Time × Entry LogId Membership Span))
      → let (rs, m') = apply chrono m xs in
        let (ss, m'') = apply chrono m' ys in
        (length rs ≡ length xs) × (apply chrono m (xs ++ ys) ≡ (rs ++ ss, m''))
  unfolding apply
  apply_batches m [] ys = (refl, refl)
  apply_batches m ((now, e) ∷ xs) ys =
      let (r, m') =
        apply_payload chrono (record m { last_applied = some e.log_id }) now e.log_id e.payload in
      let ih = apply_batches m' xs ys in (omega (arith, ih.0), cc ih.1)

  -- Two replicas agree on all that is replicated; the snapshot that each has at hand may differ.
  pub record SameState (m n : StateMachine LogId Membership Time) : Type 0 where
    pub authority : m.authority ≡ n.authority
    pub last_applied : m.last_applied ≡ n.last_applied
    pub last_membership : m.last_membership ≡ n.last_membership

  apply_payload-SameState :
      (m n : StateMachine LogId Membership Time) (now : Time) (l : LogId)
      (p : Payload Membership Span)
      → SameState m n
      → ((apply_payload chrono m now l p).0 ≡ (apply_payload chrono n now l p).0)
        × SameState (apply_payload chrono m now l p).1 (apply_payload chrono n now l p).1
  unfolding apply_payload
  apply_payload-SameState m n now l blank s = (refl, s)
  apply_payload-SameState m n now l (membership ms) s = (
    refl,
    record { authority = s.authority; last_applied = s.last_applied; last_membership = refl },
  )
  apply_payload-SameState m n now l (normal q) s = (
    ap (λ a. (handle_request chrono a now q).0.result) s.authority,
    record {
      authority = ap (λ a. (handle_request chrono a now q).1) s.authority;
      last_applied = s.last_applied;
      last_membership = s.last_membership;
    },
  )

  pub apply-SameState :
      (m n : StateMachine LogId Membership Time) (es : List (Time × Entry LogId Membership Span))
      → SameState m n
      → ((apply chrono m es).0 ≡ (apply chrono n es).0)
        × SameState (apply chrono m es).1 (apply chrono n es).1
  unfolding apply
  apply-SameState m n [] s = (refl, s)
  apply-SameState m n ((now, e) ∷ es) s =
      let m' = record m { last_applied = some e.log_id } in
      let n' = record n { last_applied = some e.log_id } in
      let s' : SameState m' n' = record {
        authority = s.authority;
        last_applied = refl;
        last_membership = s.last_membership;
      } in
      let (r, t) = apply_payload-SameState m' n' now e.log_id e.payload s' in
      let (rs, u) =
        apply-SameState (apply_payload chrono m' now e.log_id e.payload).1
          (apply_payload chrono n' now e.log_id e.payload).1 es t in
      (cc (r, rs), u)

  -- A replica that installs the snapshot of another has all that the other has replicated, whatever
  -- it held before; so entries that both then apply, under the same clocks, get the same responses
  -- and leave the same state. The JSON codec is assumed to read back the
  -- snapshot that it wrote.
  pub snapshot_catches_up :
      (codec : Codec Time) (leader follower : StateMachine LogId Membership Time)
      (snapshot_id : String) (es : List (Time × Entry LogId Membership Span))
      → codec.from_slice (encode codec (snapshot leader.authority))
        ≡ some (snapshot leader.authority)
      → let (stored, leader') = build_snapshot codec leader snapshot_id in
        let follower' = install_snapshot codec follower stored.meta stored.bytes in
        ((apply chrono leader' es).0 ≡ (apply chrono follower' es).0)
        × SameState (apply chrono leader' es).1 (apply chrono follower' es).1
  unfolding build_snapshot install_snapshot snapshot restore
  snapshot_catches_up codec leader follower snapshot_id es reads =
      let (stored, leader') = build_snapshot codec leader snapshot_id in
      apply-SameState leader' (install_snapshot codec follower stored.meta stored.bytes) es
        (record { authority = rw (reads, decode); last_applied = refl; last_membership = refl })

  -- The authority reads the clock while an entry is applied. Two replicas in one and the same
  -- state, whose clocks stand on different sides of the expiry of the lease that is held, answer
  -- the same `acquire` entry differently, and go on with different counters.
  pub clocks_diverge :
      (m : StateMachine LogId Membership Time) (id : LogId) (q : LeaseRequest Span) (h : NodeId)
      (ttl : Span) (l : LeaseEntry Time) (early late : Time)
      → q.op ≡ LeaseOp.acquire h ttl
      → HashMap.get m.authority.leases q.session_id ≡ some l
      → chrono.le l.expires_at early ≡ false
      → chrono.le l.expires_at late ≡ true
      → let e : Entry LogId Membership Span = record { log_id = id; payload = normal q } in
        ((apply chrono m ((early, e) ∷ [])).0 ≢ (apply chrono m ((late, e) ∷ [])).0)
        × ((apply chrono m ((early, e) ∷ [])).1.authority.epochs ≡ m.authority.epochs)
        × ((apply chrono m ((late, e) ∷ [])).1.authority.epochs
            ≡ HashMap.insert m.authority.epochs q.session_id
                (next_epoch chrono m.authority q.session_id))
  unfolding apply handle_request dispatch acquire has_expired grant
  clocks_diverge m id q h ttl l early late op held no_e yes_l = ground arith

-- An undecodable snapshot is installed as an empty one: every lease and every counter is forgotten.
pub undecodable_forgets :
    {LogId Membership Time : Type 0} (codec : Codec Time) (m : StateMachine LogId Membership Time)
    (meta : SnapshotMeta LogId Membership) (bytes : List ℕ)
    → codec.from_slice bytes ≡ none
    → (install_snapshot codec m meta bytes).authority ≡ new
unfolding install_snapshot restore snapshot
undecodable_forgets codec m meta bytes e = rw (e, decode)
