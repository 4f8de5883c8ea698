-- ===== src/Lease/Storage/Log.antt =====
-- `LeaseLogStore` of lease/storage.rs.
use marie.Base.{ℕ, Bool, true, ◌&&◌, Option, none, some, List, [], ◌∷◌, ltb, leb, last?}
use marie.Base.BTreeMap
use marie.Base.BTreeMap.{BTreeMap}
use marie.Lease.Protocol.{LeaseRequest}

-- `openraft::EntryPayload` and `openraft::Entry`, as far as the store takes them apart.
pub data Payload (Membership Span : Type 0) : Type 0 where
  blank : Payload Membership Span
  normal : LeaseRequest Span → Payload Membership Span
  membership : Membership → Payload Membership Span

pub record Entry (LogId Membership Span : Type 0) : Type 0 where
  pub log_id : LogId
  pub payload : Payload Membership Span

pub record LogStore (LogId Vote Membership Span : Type 0) : Type 0 where
  pub log : BTreeMap (Entry LogId Membership Span)
  pub vote : Option Vote
  pub last_purged_log_id : Option LogId

pub record LogState (LogId : Type 0) : Type 0 where
  pub last_purged_log_id : Option LogId
  pub last_log_id : Option LogId

-- `std::ops::Bound` on a `u64`, and membership of the range between two of them
pub data Bound : Type 0 where
  included excluded : ℕ → Bound
  unbounded : Bound

abbrev pub starts_before : Bound → ℕ → Bool
starts_before (included lo) i = leb lo i
starts_before (excluded lo) i = ltb lo i
starts_before unbounded i = true

abbrev pub ends_after : Bound → ℕ → Bool
ends_after (included hi) i = leb i hi
ends_after (excluded hi) i = ltb i hi
ends_after unbounded i = true

module _ {LogId Vote Membership Span : Type 0} where
  unfoldable pub save_vote :
      LogStore LogId Vote Membership Span → Vote → LogStore LogId Vote Membership Span
  save_vote s v = record s { vote = some v }

  unfoldable pub read_vote : LogStore LogId Vote Membership Span → Option Vote
  read_vote s = s.vote

  unfoldable pub get_log_state : LogStore LogId Vote Membership Span → LogState LogId
  get_log_state s = record {
    last_purged_log_id = s.last_purged_log_id;
    last_log_id = elim (last? (BTreeMap.values s.log)) [
      | some entry ↦ some entry.log_id
      | none ↦ s.last_purged_log_id
    ];
  }

  unfoldable pub try_get_log_entries :
      LogStore LogId Vote Membership Span → Bound → Bound → List (Entry LogId Membership Span)
  try_get_log_entries s lo hi =
      BTreeMap.values (BTreeMap.retain (λ i. starts_before lo i && ends_after hi i) s.log)

module _ {LogId Membership Span : Type 0} (index : LogId → ℕ) where
  unfoldable pub append_log :
      BTreeMap (Entry LogId Membership Span)
      → List (Entry LogId Membership Span)
      → BTreeMap (Entry LogId Membership Span)
  append_log log [] = log
  append_log log (entry ∷ entries) =
      append_log (BTreeMap.insert log (index entry.log_id) entry) entries

module _ {LogId Vote Membership Span : Type 0} (index : LogId → ℕ) where
  unfoldable pub append :
      LogStore LogId Vote Membership Span
      → List (Entry LogId Membership Span)
      → LogStore LogId Vote Membership Span
  unfolding append_log
  append s entries = record s { log = append_log index s.log entries }

  -- `split_off` leaves the keys below the given one
  unfoldable pub truncate :
      LogStore LogId Vote Membership Span → LogId → LogStore LogId Vote Membership Span
  truncate s log_id = record s { log = BTreeMap.retain (λ i. ltb i (index log_id)) s.log }

  unfoldable pub purge :
      LogStore LogId Vote Membership Span → LogId → LogStore LogId Vote Membership Span
  purge s log_id = record s {
    log = BTreeMap.retain (λ i. ltb (index log_id) i) s.log;
    last_purged_log_id = some log_id;
  }
