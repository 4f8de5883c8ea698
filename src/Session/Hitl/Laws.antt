-- ===== src/Session/Hitl/Laws.antt =====
-- What `validate_answers` and the service of a session promise (hitl/model.rs, hitl/service.rs).
use marie.Base.{
  String, ◌≡◌, ◌↔◌, refl, true, false, ◌⊎◌, inl, inr, arith, none, some, Option-cases, List, [],
  ◌∷◌, any, contains, string_eq, All, ok,
}
use marie.Base.HashMap
use marie.Session.Model.{
  QuestionKind, Question, Answer, short_text, long_text, select, radio, checkboxes, file_upload,
  single, multiple,
}
use marie.Session.Hitl.Validate.{
  Unicode, Answers, check_option, check_options, accepts, check_file, check_answer,
  validate_answers,
}

-- The answers that a question of a kind admits.
abbrev pub Admits : Unicode → QuestionKind → Answer → Type 0
Admits u short_text (single s) = Unit
Admits u long_text (single s) = Unit
Admits u (select options) (single choice) = contains options choice ≡ true
Admits u (radio options) (single choice) = contains options choice ≡ true
Admits u (checkboxes options) (multiple choices) = All (λ c. contains options c ≡ true) choices
Admits u (file_upload accept) (single filename) =
    (u.is_blank filename ≡ false)
    × ((accept ≡ [])
        ⊎ (any (λ e. u.ends_with (u.to_lowercase filename) (u.to_lowercase e)) accept ≡ true))
Admits u short_text (multiple s) = ⊥
Admits u long_text (multiple s) = ⊥
Admits u (select options) (multiple s) = ⊥
Admits u (radio options) (multiple s) = ⊥
Admits u (checkboxes options) (single s) = ⊥
Admits u (file_upload accept) (multiple s) = ⊥

check_options-Admits :
    (options : List String) (key : String) (choices : List String)
    → (check_options options key choices ≡ none) ↔ All (λ c. contains options c ≡ true) choices
unfolding check_options
check_options-Admits options key [] = ground arith
check_options-Admits options key (c ∷ cs) = ground (arith, check_options-Admits options key cs)

check_file-Admits :
    (u : Unicode) (accept : List String) (key filename : String)
    → (check_file u accept key filename ≡ none) ↔ Admits u (file_upload accept) (single filename)
unfolding check_file accepts
check_file-Admits u [] key filename = ground arith
check_file-Admits u (e ∷ es) key filename = ground arith

check_answer-Admits :
    (u : Unicode) (key : String) (kind : QuestionKind) (answer : Answer)
    → (check_answer u key kind answer ≡ none) ↔ Admits u kind answer
unfolding check_answer check_option
check_answer-Admits u key short_text (single s) = ground arith
check_answer-Admits u key long_text (single s) = ground arith
check_answer-Admits u key (select options) (single c) = ground arith
check_answer-Admits u key (radio options) (single c) = ground arith
check_answer-Admits u key (checkboxes options) (multiple cs) = check_options-Admits options key cs
check_answer-Admits u key (file_upload accept) (single f) = check_file-Admits u accept key f
check_answer-Admits u key short_text (multiple s) = ground arith
check_answer-Admits u key long_text (multiple s) = ground arith
check_answer-Admits u key (select options) (multiple s) = ground arith
check_answer-Admits u key (radio options) (multiple s) = ground arith
check_answer-Admits u key (checkboxes options) (single s) = ground arith
check_answer-Admits u key (file_upload accept) (multiple s) = ground arith

-- The question has an answer, and one that its kind admits.
abbrev pub IsAnswered : Unicode → Answers → Question → Type 0
IsAnswered u answers q = (a : Answer) × (HashMap.get answers q.key ≡ some a) × Admits u q.kind a

-- `validate_answers` accepts exactly the answers that answer every question by a value that its
-- kind admits, and returns them unchanged.
pub validate_answers_iff :
    (u : Unicode) (questions : List Question) (answers : Answers)
    → (validate_answers u questions answers ≡ ok answers) ↔ All (IsAnswered u answers) questions
unfolding validate_answers
validate_answers_iff u [] answers = (λ h. tt, λ h. refl)
validate_answers_iff u (q ∷ qs) answers = elim (Option-cases (HashMap.get answers q.key)) [
  | inl n ↦ (λ h. ground (arith, h, n), λ g. ground (arith, g.0.1, n))
  | inr (a, s) ↦ elim (Option-cases (check_answer u q.key q.kind a)) [
    | inl c ↦ (
      λ h. (
        (a, s, (check_answer-Admits u q.key q.kind a).0 c),
        (validate_answers_iff u qs answers).0 (ground (arith, h, s, c)),
      ),
      λ g. ground (arith, (validate_answers_iff u qs answers).1 g.1, s, c),
    )
    | inr (e, c) ↦ (
      λ h. ground (arith, h, s, c),
      λ g. ground (arith, (check_answer-Admits u q.key q.kind g.0.0).1 g.0.2, g.0.1, s, c),
    )
  ]
]
