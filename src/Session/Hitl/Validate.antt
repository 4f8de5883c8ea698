-- ===== src/Session/Hitl/Validate.antt =====
-- hitl/model.rs: `validate_answers`. A message of a validation error is kept as its parts.
use marie.Base.{
  String, Bool, true, not, string_eq, if◌then◌else◌, List, [], ◌∷◌, Option, none, some, any, find?,
  contains, Result, ok, err,
}
use marie.Base.HashMap
use marie.Base.HashMap.{HashMap}
use marie.Session.Model.{
  QuestionKind, Question, Answer, short_text, long_text, select, radio, checkboxes, file_upload,
  single, multiple,
}

-- `str` methods on Unicode: `trim().is_empty()`, `to_lowercase` and `ends_with`.
pub record Unicode : Type 0 where
  pub is_blank : String → Bool
  pub to_lowercase : String → String
  pub ends_with : String → String → Bool

pub data Invalid : Type 0 where
  missing_answer : String → Invalid
  not_an_option : String → String → Invalid
  missing_file_name : String → Invalid
  extension_not_accepted : String → String → Invalid
  unexpected_type : String → Invalid

abbrev pub Answers : Type 0
Answers = HashMap String Answer

unfoldable pub check_option : List String → String → String → Option Invalid
check_option options key choice =
    if contains options choice then none else some (Invalid.not_an_option choice key)

unfoldable pub check_options : List String → String → List String → Option Invalid
check_options options key choices = elim (find? (λ choice. not (contains options choice)) choices) [
  | some invalid ↦ some (Invalid.not_an_option invalid key)
  | none ↦ none
]

module _ (unicode : Unicode) where
  unfoldable pub accepts : List String → String → Bool
  accepts [] filename = true
  accepts (e ∷ es) filename =
      any (λ ext. unicode.ends_with (unicode.to_lowercase filename) (unicode.to_lowercase ext))
        (e ∷ es)

  unfoldable pub check_file : List String → String → String → Option Invalid
  check_file accept key filename =
      if unicode.is_blank filename
      then some (Invalid.missing_file_name key)
      else if accepts accept filename
      then none
      else some (Invalid.extension_not_accepted filename key)

  -- The arms of the match on the kind of a question and the form of its answer.
  unfoldable pub check_answer : String → QuestionKind → Answer → Option Invalid
  check_answer key short_text (single s) = none
  check_answer key long_text (single s) = none
  check_answer key (select options) (single choice) = check_option options key choice
  check_answer key (radio options) (single choice) = check_option options key choice
  check_answer key (checkboxes options) (multiple choices) = check_options options key choices
  check_answer key (file_upload accept) (single filename) = check_file accept key filename
  check_answer key short_text (multiple xs) = some (Invalid.unexpected_type key)
  check_answer key long_text (multiple xs) = some (Invalid.unexpected_type key)
  check_answer key (select options) (multiple xs) = some (Invalid.unexpected_type key)
  check_answer key (radio options) (multiple xs) = some (Invalid.unexpected_type key)
  check_answer key (checkboxes options) (single s) = some (Invalid.unexpected_type key)
  check_answer key (file_upload accept) (multiple xs) = some (Invalid.unexpected_type key)

  unfoldable pub validate_answers : List Question → Answers → Result Answers Invalid
  validate_answers [] answers = ok answers
  validate_answers (question ∷ questions) answers =
      let rest = validate_answers questions answers in
      elim (HashMap.get answers question.key) [
        | none ↦ err (Invalid.missing_answer question.key)
        | some answer ↦ elim (check_answer question.key question.kind answer) [
          | some invalid ↦ err invalid
          | none ↦ rest
        ]
      ]
