-- ===== src/Session/Hitl/Examples.antt =====
-- A form of two questions, answered well and badly; the theorems at it.
use marie.Base.{
  ◌≡◌, ◌≢◌, ◌↔◌, refl, true, false, ◌⊎◌, none, some, List, [], ◌∷◌, All, ok, err, string_eq,
  pair_eq,
}
use marie.Base.HashMap
use marie.Base.HashMap.{HashMap}
use marie.Id.{SessionId, HitlId, id_eq, id_beq}
use marie.Session.Model.{Question, select, short_text, single}
use marie.Session.Hitl.Validate.{
  Unicode, Invalid, Answers, check_option, check_answer, validate_answers,
}
use marie.Session.Hitl.Laws.{IsAnswered, validate_answers_iff}
use marie.Session.Hitl.Store.{
  questions, HitlFrame, list_unanswered_hitls_frames, upsert_hitl_frame, get_hitl_frame, get_hitl,
  write_hitl_response,
}
use marie.Session.Hitl.Service.{HitlError, SessionHitls, request, checked, answered, reply}
use marie.Session.Hitl.Listing.{IsKeyed, Waits}
use marie.Session.Hitl.Replies.{Announces, reply_outcomes}
use marie.Session.Hitl.Pending.{reply-closes, service-IsKeyed}

-- `ends_with` and `to_lowercase` play no part here.
abbrev ascii : Unicode
ascii = record { is_blank = λ s. false; to_lowercase = λ s. s; ends_with = λ s t. true }

abbrev env_question : Question
env_question = record { key = "env"; label = "Environnement ?"; kind = select ("prod" ∷ []) }

abbrev form : List Question
form = record { key = "name"; label = "Votre nom ?"; kind = short_text } ∷ env_question ∷ []

abbrev good : Answers
good = ("env", single "prod") ∷ ("name", single "Ada") ∷ []

abbrev bad : Answers
bad = ("env", single "dev") ∷ ("name", single "Ada") ∷ []

good_is_valid : validate_answers ascii form good ≡ ok good
unfolding validate_answers check_answer check_option HashMap.get
good_is_valid = refl

bad_is_invalid : validate_answers ascii form bad ≡ err (Invalid.not_an_option "dev" "env")
unfolding validate_answers check_answer check_option HashMap.get
bad_is_invalid = refl

validate_answers_iff_example :
    (validate_answers ascii form good ≡ ok good) ↔ All (IsAnswered ascii good) form
validate_answers_iff_example = validate_answers_iff ascii form good

abbrev session : SessionId
session = record { prefix = 1; local = 1 }

abbrev ticket : HitlId
ticket = record { prefix = 1; local = 7 }

abbrev fresh : SessionHitls
fresh = record { session_id = session; store = []; events = [] }

fresh-IsKeyed : IsKeyed fresh.store
unfolding HashMap.get
fresh-IsKeyed = record { distinct = tt; keyed = λ s i f e. cc }

abbrev asked : SessionHitls
asked = (request fresh ticket (questions form)).1

asked-IsKeyed : IsKeyed asked.store
asked-IsKeyed = (service-IsKeyed ascii fresh fresh-IsKeyed).0 ticket (questions form)

abbrev ticket_frame : HitlFrame
ticket_frame = record { session_id = session; id = ticket; hitl = questions form; answer = none }

-- The refused answers are stored, and no request is left.
refusal_is_stored :
    let (r, after) = reply ascii asked ticket bad in
    (r ≡ err (HitlError.validation_error (Invalid.not_an_option "dev" "env")))
    × (after.store ≡ ((session, ticket), record ticket_frame { answer = some bad }) ∷ [])
    × (list_unanswered_hitls_frames after.store session ≡ [])
unfolding reply request answered checked upsert_hitl_frame write_hitl_response get_hitl_frame
    get_hitl HashMap.get HashMap.insert id_beq validate_answers check_answer check_option
    list_unanswered_hitls_frames
refusal_is_stored = (refl, refl, refl)

reply_outcomes_example :
    ((HashMap.get asked.store (session, ticket) ≡ none)
      × ((reply ascii asked ticket bad).1 ≡ asked)
      × ((e : HitlError) × ((reply ascii asked ticket bad).0 ≡ err e)))
    ⊎ ((f : HitlFrame) × (HashMap.get asked.store (session, ticket) ≡ some f)
        × ((reply ascii asked ticket bad).1.store
            ≡ HashMap.insert asked.store (session, ticket) (record f { answer = some bad }))
        × Announces asked ticket (checked ascii f.hitl bad) (reply ascii asked ticket bad))
unfolding request
reply_outcomes_example = reply_outcomes ascii asked ticket bad asked-IsKeyed

reply-closes_example :
    Waits (reply ascii asked ticket bad).1.store session ticket_frame
    ↔ (Waits asked.store session ticket_frame × (ticket ≢ ticket))
unfolding request
reply-closes_example = reply-closes ascii asked ticket bad ticket_frame asked-IsKeyed
