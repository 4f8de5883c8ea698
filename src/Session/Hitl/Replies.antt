-- ===== src/Session/Hitl/Replies.antt =====
-- What a reply returns, stores and emits (hitl/service.rs over hitl/store/in_memory.rs).
use marie.Base.{
  String, ◌≡◌, refl, ap, ◌⊎◌, inl, inr, arith, none, some, Option-cases, [], ◌∷◌, ◌++◌, Result, ok,
  err, Result-cases,
}
use marie.Base.HashMap
use marie.Base.HashMap.{HashMap}
use marie.Base.{pair_eq}
use marie.Id.{SessionId, HitlId, id_eq}
use marie.Session.Model.{Answer}
use marie.Session.Hitl.Validate.{Unicode, Invalid, Answers}
use marie.Session.Hitl.Store.{
  HitlFrame, HitlStore, StoreError, get_hitl_frame, get_hitl, upsert_hitl_frame,
  write_hitl_response,
}
use marie.Session.Hitl.Service.{HitlEvent, SessionHitls, HitlError, emit, checked, answered, reply}
use marie.Session.Hitl.Listing.{IsKeyed}

written :
    (store : HitlStore) (s : SessionId) (i : HitlId) (f : HitlFrame)
    (answers : HashMap String Answer)
    → IsKeyed store
    → HashMap.get store (s, i) ≡ some f
    → write_hitl_response store s i answers
      ≡ ok (HashMap.insert store (s, i) (record f { answer = some answers }))
unfolding write_hitl_response get_hitl_frame upsert_hitl_frame
written store s i f answers v g = let (es, ei) = v.keyed s i f g in ground (arith, g, es, ei)

-- `answered` after its lookup.
abbrev settled :
    SessionHitls → HitlId → Result Answers Invalid → Result HitlId HitlError × SessionHitls
settled hitls i (ok valid) = (ok i, emit hitls (HitlEvent.hitl_answered hitls.session_id i valid))
settled hitls i (err e) = (err (HitlError.validation_error e), hitls)

answered_settles :
    (u : Unicode) (hitls : SessionHitls) (i : HitlId) (answers : HashMap String Answer)
    (f : HitlFrame)
    → HashMap.get hitls.store (hitls.session_id, i) ≡ some f
    → answered u hitls i answers ≡ settled hitls i (checked u f.hitl answers)
unfolding answered get_hitl get_hitl_frame
answered_settles u hitls i answers f g = elim (Result-cases (checked u f.hitl answers)) [
  | inl (a, c) ↦ ground (arith, g, c)
  | inr (e, c) ↦ ground (arith, g, c)
]

reply_settles :
    (u : Unicode) (hitls : SessionHitls) (i : HitlId) (answers : HashMap String Answer)
    (f : HitlFrame)
    → IsKeyed hitls.store
    → HashMap.get hitls.store (hitls.session_id, i) ≡ some f
    → reply u hitls i answers
      ≡ settled
          (record hitls {
            store =
                HashMap.insert hitls.store
                  (hitls.session_id, i)
                  (record f { answer = some answers });
          })
          i
          (checked u f.hitl answers)
unfolding reply
reply_settles u hitls i answers f v g = ground (
  arith,
  written hitls.store hitls.session_id i f answers v g,
  answered_settles u
      (record hitls {
        store =
            HashMap.insert hitls.store (hitls.session_id, i) (record f { answer = some answers });
      })
      i answers (record f { answer = some answers })
      (HashMap.get-insert_self hitls.store (hitls.session_id, i) _),
)

reply_missing :
    (u : Unicode) (hitls : SessionHitls) (i : HitlId) (answers : HashMap String Answer)
    → HashMap.get hitls.store (hitls.session_id, i) ≡ none
    → reply u hitls i answers
      ≡ (err (HitlError.storage_error (StoreError.hitl_not_found hitls.session_id i)), hitls)
unfolding reply write_hitl_response get_hitl_frame
reply_missing u hitls i answers n = ground (arith, n)

-- What a reply returns and emits, by the outcome of the check of its answers.
abbrev pub Announces :
    SessionHitls → HitlId → Result Answers Invalid → Result HitlId HitlError × SessionHitls → Type 0
Announces hitls i (ok valid) (r, hitls') =
    (r ≡ ok i)
    × (hitls'.events ≡ hitls.events ++ HitlEvent.hitl_answered hitls.session_id i valid ∷ [])
Announces hitls i (err e) (r, hitls') =
    (r ≡ err (HitlError.validation_error e)) × (hitls'.events ≡ hitls.events)

-- A reply to a stored request writes the answers in any case. If they are valid it returns the
-- identifier and emits one event, if not it returns the validation error and emits nothing. A reply
-- to an unknown request is an error and changes nothing.
pub reply_outcomes :
    (u : Unicode) (hitls : SessionHitls) (i : HitlId) (answers : HashMap String Answer)
    → IsKeyed hitls.store
    → ((HashMap.get hitls.store (hitls.session_id, i) ≡ none)
        × ((reply u hitls i answers).1 ≡ hitls)
        × ((e : HitlError) × ((reply u hitls i answers).0 ≡ err e)))
      ⊎ ((f : HitlFrame) × (HashMap.get hitls.store (hitls.session_id, i) ≡ some f)
          × ((reply u hitls i answers).1.store
              ≡ HashMap.insert hitls.store
                  (hitls.session_id, i)
                  (record f { answer = some answers }))
          × Announces hitls i (checked u f.hitl answers) (reply u hitls i answers))
reply_outcomes u hitls i answers v =
    elim (Option-cases (HashMap.get hitls.store (hitls.session_id, i))) [
      | inl n ↦
          let missing = reply_missing u hitls i answers n in
          inl (n, ap (λ r. r.1) missing, (_, ap (λ r. r.0) missing))
      | inr (f, g) ↦
          let settles = reply_settles u hitls i answers f v g in
          inr (
            f,
            g,
            rw settles (stored f (checked u f.hitl answers)),
            rw settles (announced f (checked u f.hitl answers)),
          )
    ]
  where
    after : HitlFrame → SessionHitls
    after f = record hitls {
      store = HashMap.insert hitls.store (hitls.session_id, i) (record f { answer = some answers });
    }

    stored :
        (f : HitlFrame) (c : Result Answers Invalid)
        → (settled (after f) i c).1.store ≡ (after f).store
    stored f (ok a) = refl
    stored f (err e) = refl

    announced :
        (f : HitlFrame) (c : Result Answers Invalid) → Announces hitls i c (settled (after f) i c)
    announced f (ok a) = (refl, refl)
    announced f (err e) = (refl, refl)
