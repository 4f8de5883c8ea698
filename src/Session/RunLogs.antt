-- ===== src/Session/RunLogs.antt =====
-- session/run_log.rs: `RunLogs`, the numbered reservations of a run, which a replay finds again.
pub mod Replay
use marie.Base.{
  ℕ, ◌+◌, ◌%◌, ◌^◌, List, [], ◌∷◌, ◌++◌, Option, none, some, leb, length, get_elem?, drop,
  if◌then◌else◌,
}
use marie.Session.Model.{GraphId, RequestAskExpert, RequestToolCall}
use marie.Session.Hitl.Store.{Hitl}

module _ (Value : Type 0) where
  pub data RunLogContent : Type 0 where
    consult_experts_log : List (RequestAskExpert Value) → RunLogContent
    call_tools_log : List (RequestToolCall Value) → RunLogContent
    graph_log : GraphId → RunLogContent
    hitl_log : Hitl → RunLogContent

  pub record RunLog : Type 0 where
    pub index : ℕ
    pub content : RunLogContent
    pub value : Option Value

  pub record RunLogs : Type 0 where
    pub entries : List RunLog
    pub persisted_len : ℕ
    pub cursor : ℕ

abbrev pub RunLogRef : Type 0
RunLogRef = ℕ

module _ {Value : Type 0} where
  unfoldable pub new : List (RunLog Value) → RunLogs Value
  new persisted = record { entries = persisted; persisted_len = length persisted; cursor = 0 }

  -- The index of an entry is cast to `u32`.
  unfoldable pub reserve_log : RunLogs Value → RunLogContent Value → RunLogRef × RunLogs Value
  reserve_log logs content =
      let index = logs.cursor in
      let logs' : RunLogs Value = record logs { cursor = logs.cursor + 1 } in
      let log : RunLog Value = record { index = index % 2 ^ 32; content = content; value = none } in
      (
        index,
        if leb (length logs.entries) index
            then record logs' { entries = logs.entries ++ log ∷ [] }
            else logs',
      )

  -- `none` where the source panics: a reference beyond the entries.
  unfoldable pub check : RunLogs Value → RunLogRef → Option (Option Value)
  check logs log_ref = elim (get_elem? logs.entries log_ref) [
    | some log ↦ some log.value
    | none ↦ none
  ]

  unfoldable pub into_new_logs : RunLogs Value → List (RunLog Value)
  into_new_logs logs = drop logs.persisted_len logs.entries

  -- The reservations of one run, in the order of the calls.
  unfoldable pub reserve_all :
      RunLogs Value → List (RunLogContent Value) → List RunLogRef × RunLogs Value
  reserve_all logs [] = ([], logs)
  reserve_all logs (c ∷ cs) =
      let (log_ref, logs') = reserve_log logs c in
      let (log_refs, logs'') = reserve_all logs' cs in (log_ref ∷ log_refs, logs'')
