-- ===== src/Session/Logs/Examples.antt =====
-- A journal with two entries, the later one stored first; the theorems at it.
use marie.Base.{ℕ, ◌≡◌, ◌≢◌, refl, leb, All, In, none, some, [], ◌∷◌, pair_eq, arith}
use marie.Base.HashMap
use marie.Id.{SessionId, id_beq, id_eq}
use marie.Session.Logs.Store.{
  SessionLogId, SessionLogContent, SessionLog, LogStore, SearchLogQuery, list_log_after,
}
use marie.Session.Logs.{LogEvent, SessionLogs, log, replace_log}
use marie.Session.Logs.Sorting.{IsOrder, IsAscending, IsUnrepeated}
use marie.Session.Logs.Listing.{IsKeyed, Asked, list_log_after_iff}
use marie.Session.Logs.Updates.{entry_at, replaced_entry}

abbrev session : SessionId
session = record { prefix = 1; local = 1 }

abbrev numbered : ℕ → ℕ → SessionLog ℕ ℕ
numbered n t =
    entry_at session (record { prefix = 1; local = n }) (SessionLogContent.plain "text") t t

abbrev two : LogStore ℕ ℕ
two =
    ((session, record { prefix = 1; local = 3 }), numbered 3 9)
    ∷ ((session, record { prefix = 1; local = 2 }), numbered 2 5)
    ∷ []

abbrev query : SearchLogQuery ℕ
query = record { after = some 4; before = none }

two-IsKeyed : IsKeyed two
unfolding HashMap.get id_beq
two-IsKeyed = record { distinct = (refl, (refl, tt)); keyed = λ s i l h. grind (arith, h) }

leb-IsOrder : IsOrder leb
leb-IsOrder = record {
  total = λ a b h. ground (arith, h);
  trans = λ a b c h k. ground (arith, h, k);
}

list_log_after_iff_example :
    All (Asked leb two session query) (list_log_after leb two session query)
    × ((l : SessionLog ℕ ℕ)
        → Asked leb two session query l
        → In l (list_log_after leb two session query))
    × IsUnrepeated (list_log_after leb two session query)
    × IsAscending leb (list_log_after leb two session query)
list_log_after_iff_example = list_log_after_iff leb two session query two-IsKeyed leb-IsOrder

abbrev journal : SessionLogs ℕ ℕ
journal = record { session_id = session; store = two; events = [] }

abbrev fourth : SessionLogId
fourth = record { prefix = 1; local = 4 }

new_entry : HashMap.get two (session, fourth) ≡ none
unfolding HashMap.get id_beq
new_entry = refl

replaced_entry_example :
    let id = fourth in
    let logs =
      replace_log
        (log journal fourth 11 (SessionLogContent.plain "a")).1
        id
        12
        (SessionLogContent.plain "b") in
    (HashMap.get logs.store (session, fourth)
      ≡ some (entry_at session fourth (SessionLogContent.plain "b") 11 12))
    × (◌≢◌ {A = SessionId × SessionLogId} (session, fourth) (session, session)
        → HashMap.get logs.store (session, session) ≡ HashMap.get two (session, session))
    × (logs.events
        ≡ LogEvent.log_created (entry_at session fourth (SessionLogContent.plain "a") 11 11)
          ∷ LogEvent.log_updated (entry_at session fourth (SessionLogContent.plain "b") 12 12)
          ∷ [])
replaced_entry_example =
    replaced_entry journal fourth 11 12 (SessionLogContent.plain "a") (SessionLogContent.plain "b")
      (session, session) new_entry
