-- ===== src/Domain/CaseFacts/Codes.antt =====
-- domain/case_facts.py: the enums of the fact ledger, with their texts and their lookup by text.
use ecommerce_after_sales_ag.Common.{String, ◌≡◌, refl, some, List, [], ◌∷◌, find, str_eq}
use ecommerce_after_sales_ag.Common.Enum.{StrEnum}

pub data FactCode : Type 0 where
  customer_still_reports_missing reported_delivery_location_checked : FactCode

abbrev pub fact_code_value : FactCode → String
fact_code_value FactCode.customer_still_reports_missing = "customer_still_reports_missing"
fact_code_value FactCode.reported_delivery_location_checked = "reported_delivery_location_checked"

abbrev pub fact_code_members : List FactCode
fact_code_members =
    FactCode.customer_still_reports_missing ∷ FactCode.reported_delivery_location_checked ∷ []

pub fact_code_looked_up :
    (a : FactCode)
    → find (λ m. str_eq (fact_code_value m) (fact_code_value a)) fact_code_members ≡ some a
fact_code_looked_up FactCode.customer_still_reports_missing = refl
fact_code_looked_up FactCode.reported_delivery_location_checked = refl

instance abbrev pub fact_code_enum : StrEnum FactCode
fact_code_enum = record {
  members = fact_code_members;
  value = fact_code_value;
  looked_up = fact_code_looked_up;
}

pub data FactValue : Type 0 where
  holds fails unknown : FactValue

abbrev pub fact_value_value : FactValue → String
fact_value_value FactValue.holds = "true"
fact_value_value FactValue.fails = "false"
fact_value_value FactValue.unknown = "unknown"

abbrev pub fact_value_members : List FactValue
fact_value_members = FactValue.holds ∷ FactValue.fails ∷ FactValue.unknown ∷ []

pub fact_value_looked_up :
    (a : FactValue)
    → find (λ m. str_eq (fact_value_value m) (fact_value_value a)) fact_value_members ≡ some a
fact_value_looked_up FactValue.holds = refl
fact_value_looked_up FactValue.fails = refl
fact_value_looked_up FactValue.unknown = refl

instance abbrev pub fact_value_enum : StrEnum FactValue
fact_value_enum = record {
  members = fact_value_members;
  value = fact_value_value;
  looked_up = fact_value_looked_up;
}

pub data RelationHint : Type 0 where
  fresh repeat correction withdrawal : RelationHint

abbrev pub relation_hint_value : RelationHint → String
relation_hint_value RelationHint.fresh = "new"
relation_hint_value RelationHint.repeat = "repeat"
relation_hint_value RelationHint.correction = "correction"
relation_hint_value RelationHint.withdrawal = "withdrawal"

abbrev pub relation_hint_members : List RelationHint
relation_hint_members =
    RelationHint.fresh ∷ RelationHint.repeat ∷ RelationHint.correction ∷ RelationHint.withdrawal
    ∷ []

pub relation_hint_looked_up :
    (a : RelationHint)
    → find (λ m. str_eq (relation_hint_value m) (relation_hint_value a)) relation_hint_members
      ≡ some a
relation_hint_looked_up RelationHint.fresh = refl
relation_hint_looked_up RelationHint.repeat = refl
relation_hint_looked_up RelationHint.correction = refl
relation_hint_looked_up RelationHint.withdrawal = refl

instance abbrev pub relation_hint_enum : StrEnum RelationHint
relation_hint_enum = record {
  members = relation_hint_members;
  value = relation_hint_value;
  looked_up = relation_hint_looked_up;
}

pub data FactStatus : Type 0 where
  known_true known_false unknown conflict : FactStatus

abbrev pub fact_status_value : FactStatus → String
fact_status_value FactStatus.known_true = "known_true"
fact_status_value FactStatus.known_false = "known_false"
fact_status_value FactStatus.unknown = "unknown"
fact_status_value FactStatus.conflict = "conflict"

abbrev pub fact_status_members : List FactStatus
fact_status_members =
    FactStatus.known_true ∷ FactStatus.known_false ∷ FactStatus.unknown ∷ FactStatus.conflict ∷ []

pub fact_status_looked_up :
    (a : FactStatus)
    → find (λ m. str_eq (fact_status_value m) (fact_status_value a)) fact_status_members ≡ some a
fact_status_looked_up FactStatus.known_true = refl
fact_status_looked_up FactStatus.known_false = refl
fact_status_looked_up FactStatus.unknown = refl
fact_status_looked_up FactStatus.conflict = refl

instance abbrev pub fact_status_enum : StrEnum FactStatus
fact_status_enum = record {
  members = fact_status_members;
  value = fact_status_value;
  looked_up = fact_status_looked_up;
}

pub data QuestionStatus : Type 0 where
  inapplicable unanswered answered unknown_exhausted conflict_requires_clarification
        conflict_exhausted :
      QuestionStatus

abbrev pub question_status_value : QuestionStatus → String
question_status_value QuestionStatus.inapplicable = "inapplicable"
question_status_value QuestionStatus.unanswered = "unanswered"
question_status_value QuestionStatus.answered = "answered"
question_status_value QuestionStatus.unknown_exhausted = "unknown_exhausted"
question_status_value QuestionStatus.conflict_requires_clarification =
    "conflict_requires_clarification"
question_status_value QuestionStatus.conflict_exhausted = "conflict_exhausted"

abbrev pub question_status_members : List QuestionStatus
question_status_members =
    QuestionStatus.inapplicable ∷ QuestionStatus.unanswered ∷ QuestionStatus.answered
    ∷ QuestionStatus.unknown_exhausted ∷ QuestionStatus.conflict_requires_clarification
    ∷ QuestionStatus.conflict_exhausted ∷ []

pub question_status_looked_up :
    (a : QuestionStatus)
    → find (λ m. str_eq (question_status_value m) (question_status_value a)) question_status_members
      ≡ some a
question_status_looked_up QuestionStatus.inapplicable = refl
question_status_looked_up QuestionStatus.unanswered = refl
question_status_looked_up QuestionStatus.answered = refl
question_status_looked_up QuestionStatus.unknown_exhausted = refl
question_status_looked_up QuestionStatus.conflict_requires_clarification = refl
question_status_looked_up QuestionStatus.conflict_exhausted = refl

instance abbrev pub question_status_enum : StrEnum QuestionStatus
question_status_enum = record {
  members = question_status_members;
  value = question_status_value;
  looked_up = question_status_looked_up;
}
