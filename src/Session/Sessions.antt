-- ===== src/Session/Sessions.antt =====
-- session/model.rs and session/store/mod.rs: `Session` and the in-memory store of the sessions;
-- entity.rs: `UnitOfWork`, an entity that is written back to its store.
use marie.Base.{String, Bool, true, false, List, Option, none, some, Result, ok, err, if◌then◌else◌}
use marie.Base.HashMap
use marie.Base.HashMap.{HashMap}
use marie.Id.{SessionId, FrameId, id_eq}

pub data SessionStatus : Type 0 where
  pending : SessionStatus
  archived : SessionStatus
  ongoing : SessionStatus
  failed : String → SessionStatus

pub record Session (Time : Type 0) : Type 0 where
  pub id : SessionId
  pub root_frame : Option FrameId
  pub status : SessionStatus
  pub created_at : Time
  pub last_updated_at : Time

pub data SessionStoreError : Type 0 where
  session_not_found : SessionId → SessionStoreError

abbrev pub SessionStore : Type 0 → Type 0
SessionStore Time = HashMap SessionId (Session Time)

module _ {Time : Type 0} where
  -- `Session::new`, at the time of both its calls of `Utc::now`
  unfoldable pub new : SessionId → Time → Time → Session Time
  new id created_at last_updated_at = record {
    id = id;
    root_frame = none;
    status = SessionStatus.pending;
    created_at = created_at;
    last_updated_at = last_updated_at;
  }

  unfoldable pub get_session :
      SessionStore Time → SessionId → Result (Session Time) SessionStoreError
  get_session sessions id = elim (HashMap.get sessions id) [
    | some session ↦ ok session
    | none ↦ err (SessionStoreError.session_not_found id)
  ]

  unfoldable pub session_exists : SessionStore Time → SessionId → Bool
  session_exists sessions id = HashMap.contains_key sessions id

  unfoldable pub upsert_session : SessionStore Time → Session Time → SessionStore Time
  upsert_session sessions session = HashMap.insert sessions session.id session

  unfoldable pub delete_session :
      SessionStore Time → SessionId → Result (Session Time) SessionStoreError × SessionStore Time
  delete_session sessions id = elim (HashMap.get sessions id) [
    | some session ↦ (ok session, HashMap.remove sessions id)
    | none ↦ (err (SessionStoreError.session_not_found id), sessions)
  ]

  unfoldable pub list_sessions : SessionStore Time → List (Session Time)
  list_sessions sessions = HashMap.values sessions

-- `UnitOfWork<Session, SessionStore>`; the store is passed to `flush`.
pub record SessionCell (Time : Type 0) : Type 0 where
  pub entity : Session Time
  pub dirty : Bool
  pub create : Bool
  pub deleted : Bool

module _ {Time : Type 0} where
  unfoldable pub cell_of : Session Time → SessionCell Time
  cell_of session = record { entity = session; dirty = false; create = false; deleted = false }

  -- `deref_mut`, which panics on a deleted entity, and a change through it
  unfoldable pub change_session :
      SessionCell Time → (Session Time → Session Time) → Option (SessionCell Time)
  change_session cell change =
      if cell.deleted
      then none
      else some (record cell { entity = change cell.entity; dirty = true })

  -- `executor.delete` drops the error of a missing session.
  unfoldable pub execute : SessionCell Time → SessionStore Time → SessionStore Time
  execute cell sessions =
      if cell.deleted
      then if cell.create then sessions else (delete_session sessions cell.entity.id).1
      else upsert_session sessions cell.entity

  unfoldable pub flush : SessionCell Time → SessionStore Time → SessionCell Time × SessionStore Time
  flush cell sessions =
      if cell.dirty
      then (record cell { dirty = false }, execute cell sessions)
      else (cell, sessions)
