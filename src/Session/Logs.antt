-- ===== src/Session/Logs.antt =====
-- session/logs/mod.rs: `SessionLogs`, the journal of one session. The generated identifier and the
-- time are arguments; the store in memory never fails.
pub mod Store
pub mod Sorting
pub mod Listing
pub mod Updates
mod Examples
use marie.Base.{List, [], ◌∷◌, ◌++◌}
use marie.Base.HashMap
use marie.Id.{SessionId}
use marie.Session.Logs.Store.{SessionLogId, SessionLogContent, SessionLog, LogStore, insert_log}

module _ (Value Time : Type 0) where
  -- The events of session/protocol.rs that the journal emits.
  pub data LogEvent : Type 0 where
    log_created : SessionLog Value Time → LogEvent
    log_updated : SessionLog Value Time → LogEvent

  pub record SessionLogs : Type 0 where
    pub session_id : SessionId
    pub store : LogStore Value Time
    pub events : List LogEvent

module _ {Value Time : Type 0} where
  unfoldable pub log :
      SessionLogs Value Time
      → SessionLogId
      → Time
      → SessionLogContent Value
      → SessionLogId × SessionLogs Value Time
  log logs id now content =
      let entry : SessionLog Value Time = record {
        id = id;
        session_id = logs.session_id;
        content = content;
        created_at = now;
        last_updated_at = now;
      } in
      (
        id,
        record logs {
          store = insert_log logs.store entry;
          events = logs.events ++ LogEvent.log_created entry ∷ [];
        },
      )

  unfoldable pub replace_log :
      SessionLogs Value Time
      → SessionLogId
      → Time
      → SessionLogContent Value
      → SessionLogs Value Time
  replace_log logs id now content =
      let entry : SessionLog Value Time = record {
        id = id;
        session_id = logs.session_id;
        content = content;
        created_at = now;
        last_updated_at = now;
      } in
      record logs {
        store = insert_log logs.store entry;
        events = logs.events ++ LogEvent.log_updated entry ∷ [];
      }
