-- ===== src/Session/Logs/Updates.antt =====
-- What becomes of an entry that is written again (session/logs/mod.rs).
use marie.Base.{◌≡◌, ◌≢◌, arith, some, none, ◌∷◌, [], ◌++◌, pair_eq, append_assoc}
use marie.Base.HashMap
use marie.Id.{SessionId, id_eq}
use marie.Session.Logs.Store.{SessionLogId, SessionLogContent, SessionLog, insert_log}
use marie.Session.Logs.{LogEvent, SessionLogs, log, replace_log}

module _ {Value Time : Type 0} where
  abbrev pub entry_at :
      SessionId → SessionLogId → SessionLogContent Value → Time → Time → SessionLog Value Time
  entry_at s id content created_at last_updated_at = record {
    id = id;
    session_id = s;
    content = content;
    created_at = created_at;
    last_updated_at = last_updated_at;
  }

  -- An entry that is logged under a new identifier and then replaced is stored with the new content
  -- and the time of its creation, and every other entry is as it was. The event of the replacement
  -- does not carry what is stored: it gives the time of the replacement as that of the creation.
  pub replaced_entry :
      (logs : SessionLogs Value Time) (id : SessionLogId) (t u : Time)
      (content next : SessionLogContent Value) (k : SessionId × SessionLogId)
      → HashMap.get logs.store (logs.session_id, id) ≡ none
      → let logs' = replace_log (log logs id t content).1 id u next in
        (HashMap.get logs'.store (logs.session_id, id)
          ≡ some (entry_at logs.session_id id next t u))
        × ((logs.session_id, id) ≢ k → HashMap.get logs'.store k ≡ HashMap.get logs.store k)
        × (logs'.events
            ≡ logs.events
              ++ LogEvent.log_created (entry_at logs.session_id id content t t)
                ∷ LogEvent.log_updated (entry_at logs.session_id id next u u)
                ∷ [])
  unfolding log replace_log insert_log
  replaced_entry logs id t u content next k h =
      let key : SessionId × SessionLogId = (logs.session_id, id) in
      let first = entry_at logs.session_id id content t t in
      let then = entry_at logs.session_id id next t u in
      let m = HashMap.insert logs.store key first in
      (
        ground (
          arith,
          h,
          HashMap.get-insert_self logs.store key first,
          HashMap.get-insert_self m key then,
        ),
        λ ne. ground (
          arith,
          h,
          HashMap.get-insert_self logs.store key first,
          HashMap.get-insert_ne logs.store key k first ne,
          HashMap.get-insert_ne m key k then ne,
        ),
        append_assoc logs.events (LogEvent.log_created first ∷ [])
            (LogEvent.log_updated (entry_at logs.session_id id next u u) ∷ []),
      )
