-- ===== src/Lease/Storage/Machine.antt =====
-- `LeaseStateMachine` of lease/storage.rs.
use marie.Base.{ℕ, Option, none, some, List, [], ◌∷◌, String}
use marie.Lease.Protocol.{Chrono, LeaseResult, not_leader}
use marie.Lease.Authority.{LeaseAuthority, LeaseSnapshot, new, handle_request, snapshot, restore}
use marie.Lease.Storage.Log.{Entry, Payload, blank, normal, membership}

-- `openraft::SnapshotMeta`, as far as the store reads it, and `StoredMembership`: the log entry
-- that set the membership, with the membership.
pub record StoredMembership (LogId Membership : Type 0) : Type 0 where
  pub log_id : Option LogId
  pub membership : Membership

pub record SnapshotMeta (LogId Membership : Type 0) : Type 0 where
  pub last_log_id : Option LogId
  pub last_membership : StoredMembership LogId Membership
  pub snapshot_id : String

pub record StoredSnapshot (LogId Membership : Type 0) : Type 0 where
  pub meta : SnapshotMeta LogId Membership
  pub bytes : List ℕ

pub record StateMachine (LogId Membership Time : Type 0) : Type 0 where
  pub authority : LeaseAuthority Time
  pub last_applied : Option LogId
  pub last_membership : StoredMembership LogId Membership
  pub current_snapshot : Option (StoredSnapshot LogId Membership)

-- `serde_json` on a `LeaseSnapshot`: both directions may fail.
pub record Codec (Time : Type 0) : Type 0 where
  pub to_vec : LeaseSnapshot Time → Option (List ℕ)
  pub from_slice : List ℕ → Option (LeaseSnapshot Time)

module _ {LogId Membership Time Span : Type 0} (chrono : Chrono Time Span) where
  unfoldable pub apply_payload :
      StateMachine LogId Membership Time
      → Time
      → LogId
      → Payload Membership Span
      → LeaseResult Time × StateMachine LogId Membership Time
  apply_payload m now log_id blank = (not_leader none, m)
  apply_payload m now log_id (membership ms) = (
    not_leader none,
    record m { last_membership = record { log_id = some log_id; membership = ms } },
  )
  apply_payload m now log_id (normal request) =
      let (response, authority) = handle_request chrono m.authority now request in
      (response.result, record m { authority = authority })

  -- Each entry comes with the clock that the authority reads while it is applied.
  unfoldable pub apply :
      StateMachine LogId Membership Time
      → List (Time × Entry LogId Membership Span)
      → List (LeaseResult Time) × StateMachine LogId Membership Time
  unfolding apply_payload
  apply m [] = ([], m)
  apply m ((now, entry) ∷ entries) =
      let (r, m') =
        apply_payload (record m { last_applied = some entry.log_id }) now entry.log_id
          entry.payload in
      let (rs, last) = apply m' entries in (r ∷ rs, last)

module _ {Time : Type 0} (codec : Codec Time) where
  -- `serde_json::from_slice(..).unwrap_or_default()`
  unfoldable pub decode : List ℕ → LeaseSnapshot Time
  decode bytes = elim (codec.from_slice bytes) [ some s ↦ s | none ↦ snapshot new ]

  -- `serde_json::to_vec(..).unwrap_or_default()`
  unfoldable pub encode : LeaseSnapshot Time → List ℕ
  encode s = elim (codec.to_vec s) [ some bytes ↦ bytes | none ↦ [] ]

module _ {LogId Membership Time : Type 0} (codec : Codec Time) where
  unfoldable pub install_snapshot :
      StateMachine LogId Membership Time
      → SnapshotMeta LogId Membership
      → List ℕ
      → StateMachine LogId Membership Time
  unfolding decode
  install_snapshot m meta bytes = record {
    authority = restore m.authority (decode codec bytes);
    last_applied = meta.last_log_id;
    last_membership = meta.last_membership;
    current_snapshot = some (record { meta = meta; bytes = bytes });
  }

  -- The identifier is the text that the source formats from the last index and the clock.
  unfoldable pub build_snapshot :
      StateMachine LogId Membership Time
      → String
      → StoredSnapshot LogId Membership × StateMachine LogId Membership Time
  unfolding encode
  build_snapshot m snapshot_id =
      let stored : StoredSnapshot LogId Membership = record {
        meta = record {
          last_log_id = m.last_applied;
          last_membership = m.last_membership;
          snapshot_id = snapshot_id;
        };
        bytes = encode codec (snapshot m.authority);
      } in
      (stored, record m { current_snapshot = some stored })

module _ {LogId Membership Time : Type 0} where
  unfoldable pub get_current_snapshot :
      StateMachine LogId Membership Time → Option (StoredSnapshot LogId Membership)
  get_current_snapshot m = m.current_snapshot

  unfoldable pub applied_state :
      StateMachine LogId Membership Time → Option LogId × StoredMembership LogId Membership
  applied_state m = (m.last_applied, m.last_membership)
