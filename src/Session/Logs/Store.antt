-- ===== src/Session/Logs/Store.antt =====
-- session/logs/model.rs and session/logs/store/in_memory.rs: the journal of all sessions. Instants of
-- chrono are compared by a parameter.
use marie.Base.{
  String, Bool, true, not, Option, none, some, List, [], ◌∷◌, filter, ◌==◌, pair_eq, if◌then◌else◌,
}
use marie.Base.HashMap
use marie.Base.HashMap.{HashMap}
use marie.Id.{UniqueId, SessionId, id_eq}

abbrev pub SessionLogId : Type 0
SessionLogId = UniqueId

module _ (Value : Type 0) where
  pub data SessionLogContent : Type 0 where
    plain : String → SessionLogContent
    tool_log : String → Value → Value → SessionLogContent
    agent_log : String → Value → SessionLogContent

pub record SessionLog (Value Time : Type 0) : Type 0 where
  pub id : SessionLogId
  pub session_id : SessionId
  pub content : SessionLogContent Value
  pub created_at : Time
  pub last_updated_at : Time

abbrev pub LogStore : Type 0 → Type 0 → Type 0
LogStore Value Time = HashMap (SessionId × SessionLogId) (SessionLog Value Time)

-- session/logs/store/mod.rs
pub record SearchLogQuery (Time : Type 0) : Type 0 where
  pub after : Option Time
  pub before : Option Time

module _ {Value Time : Type 0} where
  unfoldable pub insert_log : LogStore Value Time → SessionLog Value Time → LogStore Value Time
  insert_log logs log = elim (HashMap.get logs (log.session_id, log.id)) [
    | some entry ↦
        HashMap.insert logs (log.session_id, log.id)
          (record entry { content = log.content; last_updated_at = log.last_updated_at })
    | none ↦ HashMap.insert logs (log.session_id, log.id) log
  ]

module _ {Time : Type 0} (le : Time → Time → Bool) where
  -- `after.map_or(true, |after| created_at > after)`
  unfoldable pub is_after : Option Time → Time → Bool
  is_after none created_at = true
  is_after (some after) created_at = not (le created_at after)

  unfoldable pub is_before : Option Time → Time → Bool
  is_before none created_at = true
  is_before (some before) created_at = not (le before created_at)

module _ {Value Time : Type 0} (le : Time → Time → Bool) where
  -- `sort_by_key(|log| log.created_at)`, which keeps the order of equal keys
  unfoldable pub place :
      SessionLog Value Time → List (SessionLog Value Time) → List (SessionLog Value Time)
  place log [] = log ∷ []
  place log (l ∷ logs) =
      let rest = place log logs in
      if le log.created_at l.created_at then log ∷ l ∷ logs else l ∷ rest

  unfoldable pub sort : List (SessionLog Value Time) → List (SessionLog Value Time)
  sort [] = []
  sort (log ∷ logs) = place log (sort logs)

  unfoldable pub list_log : LogStore Value Time → SessionId → List (SessionLog Value Time)
  list_log logs session_id =
      sort (filter (λ log. log.session_id == session_id) (HashMap.values logs))

  unfoldable pub list_log_after :
      LogStore Value Time → SessionId → SearchLogQuery Time → List (SessionLog Value Time)
  list_log_after logs session_id query = sort (
      filter (λ log. is_before le query.before log.created_at)
        (filter (λ log. is_after le query.after log.created_at)
          (filter (λ log. log.session_id == session_id) (HashMap.values logs))))
