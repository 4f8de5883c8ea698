-- ===== src/Session/Hitl/Service.antt =====
-- hitl/service.rs: `SessionHitls`, the requests of one session. The state is the store with the
-- events that were emitted, the latest last; the identifier that `request` draws is an argument.
use marie.Base.{String, List, [], ◌∷◌, ◌++◌, none, Result, ok, err}
use marie.Base.HashMap.{HashMap}
use marie.Id.{SessionId, HitlId}
use marie.Session.Model.{Answer}
use marie.Session.Hitl.Validate.{Unicode, Invalid, Answers, validate_answers}
use marie.Session.Hitl.Store.{
  Hitl, questions, text, HitlFrame, HitlStore, StoreError, get_hitl, upsert_hitl_frame,
  write_hitl_response,
}

-- The events of session/protocol.rs that this service emits.
pub data HitlEvent : Type 0 where
  hitl_requested : SessionId → HitlId → Hitl → HitlEvent
  hitl_answered : SessionId → HitlId → Answers → HitlEvent

pub record SessionHitls : Type 0 where
  pub session_id : SessionId
  pub store : HitlStore
  pub events : List HitlEvent

pub data HitlError : Type 0 where
  storage_error : StoreError → HitlError
  validation_error : Invalid → HitlError

abbrev pub emit : SessionHitls → HitlEvent → SessionHitls
emit hitls event = record hitls { events = hitls.events ++ event ∷ [] }

unfoldable pub request : SessionHitls → HitlId → Hitl → Result HitlId HitlError × SessionHitls
request hitls id hitl =
    let frame : HitlFrame = record {
      session_id = hitls.session_id;
      id = id;
      hitl = hitl;
      answer = none;
    } in
    (
      ok id,
      emit (record hitls { store = upsert_hitl_frame hitls.store frame })
          (HitlEvent.hitl_requested hitls.session_id id hitl),
    )

module _ (unicode : Unicode) where
  unfoldable pub checked : Hitl → HashMap String Answer → Result Answers Invalid
  checked (questions qs) answers = validate_answers unicode qs answers
  checked text answers = ok answers

  -- `reply` once the response was written to `hitls.store`
  unfoldable pub answered :
      SessionHitls → HitlId → HashMap String Answer → Result HitlId HitlError × SessionHitls
  answered hitls id answers = elim (get_hitl hitls.store hitls.session_id id) [
    | err e ↦ (err (HitlError.storage_error e), hitls)
    | ok hitl ↦ elim (checked hitl answers) [
      | err e ↦ (err (HitlError.validation_error e), hitls)
      | ok valid ↦ (ok id, emit hitls (HitlEvent.hitl_answered hitls.session_id id valid))
    ]
  ]

  unfoldable pub reply :
      SessionHitls → HitlId → HashMap String Answer → Result HitlId HitlError × SessionHitls
  reply hitls id answers = elim (write_hitl_response hitls.store hitls.session_id id answers) [
    | err e ↦ (err (HitlError.storage_error e), hitls)
    | ok store ↦ answered (record hitls { store = store }) id answers
  ]
