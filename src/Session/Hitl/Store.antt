-- ===== src/Session/Hitl/Store.antt =====
-- hitl/store/in_memory.rs: `InMemoryHitlStore`, the requests of all sessions and their answers.
use marie.Base.{
  String, Bool, true, false, ◌&&◌, ◌==◌, pair_eq, List, map, filter, Option, none, some, Result, ok,
  err,
}
use marie.Base.HashMap
use marie.Base.HashMap.{HashMap}
use marie.Id.{SessionId, HitlId, id_eq}
use marie.Session.Model.{Question, Answer}

pub data Hitl : Type 0 where
  questions : List Question → Hitl
  text : Hitl

pub record HitlFrame : Type 0 where
  pub session_id : SessionId
  pub id : HitlId
  pub hitl : Hitl
  pub answer : Option (HashMap String Answer)

pub record PendingHitl : Type 0 where
  pub session_id : SessionId
  pub id : HitlId
  pub hitl : Hitl

abbrev pub HitlStore : Type 0
HitlStore = HashMap (SessionId × HitlId) HitlFrame

pub data StoreError : Type 0 where
  hitl_not_found : SessionId → HitlId → StoreError

unfoldable pub get_hitl_frame : HitlStore → SessionId → HitlId → Result HitlFrame StoreError
get_hitl_frame store id hitl_id = elim (HashMap.get store (id, hitl_id)) [
  | some frame ↦ ok frame
  | none ↦ err (StoreError.hitl_not_found id hitl_id)
]

unfoldable pub get_hitl : HitlStore → SessionId → HitlId → Result Hitl StoreError
get_hitl store id hitl_id = elim (get_hitl_frame store id hitl_id) [
  | ok frame ↦ ok frame.hitl
  | err e ↦ err e
]

abbrev pub is_none {ℓ} : {A : Type ℓ} → Option A → Bool
is_none none = true
is_none (some a) = false

unfoldable pub list_unanswered_hitls_frames : HitlStore → SessionId → List HitlFrame
list_unanswered_hitls_frames store id =
    filter (λ hitl. hitl.session_id == id && is_none hitl.answer) (HashMap.values store)

unfoldable pub upsert_hitl_frame : HitlStore → HitlFrame → HitlStore
upsert_hitl_frame store hitl = HashMap.insert store (hitl.session_id, hitl.id) hitl

unfoldable pub write_hitl_response :
    HitlStore → SessionId → HitlId → HashMap String Answer → Result HitlStore StoreError
write_hitl_response store id hitl_id answers = elim (get_hitl_frame store id hitl_id) [
  | ok hitl ↦ ok (upsert_hitl_frame store (record hitl { answer = some answers }))
  | err e ↦ err e
]

unfoldable pub list_pending_hitls : HitlStore → SessionId → List PendingHitl
list_pending_hitls store id =
    map (λ hitl. record { session_id = hitl.session_id; id = hitl.id; hitl = hitl.hitl })
      (list_unanswered_hitls_frames store id)
