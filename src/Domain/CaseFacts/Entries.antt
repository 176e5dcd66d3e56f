-- ===== src/Domain/CaseFacts/Entries.antt =====
-- domain/case_facts.py: the entry of one fact in a snapshot, from the assertions on it.
use ecommerce_after_sales_ag.Common.{
  String, Bool, false, not, ◌&&◌, ◌||◌, Option, none, some, List, [], ◌∷◌, map, any, all, select,
  contains, str_eq, opt_eq, if◌then◌else◌,
}
use ecommerce_after_sales_ag.Common.Enum.{◌is◌}
use ecommerce_after_sales_ag.Domain.CaseFacts.Codes.{
  FactCode, FactValue, RelationHint, FactStatus, fact_code_enum, fact_value_enum,
  relation_hint_enum, fact_status_enum, question_status_enum,
}
use ecommerce_after_sales_ag.Domain.CaseFacts.Records.{
  CaseFactAssertion, DeliveryProofFactContext, FactSnapshotEntry,
}

-- the ids that some assertion supersedes
unfoldable pub superseded_ids : List CaseFactAssertion → List String
superseded_ids [] = []
superseded_ids (a ∷ rest) = elim a.supersedes_assertion_id [
  | none ↦ superseded_ids rest
  | some id ↦ id ∷ superseded_ids rest
]

unfoldable pub active_among : List CaseFactAssertion → List CaseFactAssertion
active_among assertions =
    select (λ a. not (contains a.assertion_id (superseded_ids assertions))) assertions

-- `value in {item.value for item in active}`
abbrev pub has_value : FactValue → List CaseFactAssertion → Bool
has_value v active = any (λ a. a.value is v) active

-- the status by supersession and by what the active assertions say
unfoldable pub claimed_status : List CaseFactAssertion → Bool → Bool → FactStatus
claimed_status active invalid_supersession competing_supersession =
    if invalid_supersession
      || competing_supersession
      || (has_value FactValue.holds active && has_value FactValue.fails active)
    then FactStatus.conflict
    else if any (λ a. a.relation is RelationHint.withdrawal) active
    then FactStatus.unknown
    else if has_value FactValue.holds active
    then FactStatus.known_true
    else if has_value FactValue.fails active
    then FactStatus.known_false
    else FactStatus.unknown

-- the proof that an assertion was made about
abbrev pub same_context : CaseFactAssertion → CaseFactAssertion → Bool
same_context a b =
    opt_eq a.context_tool_call_id b.context_tool_call_id
    && opt_eq a.context_result_hash b.context_result_hash

abbrev pub about_proof : CaseFactAssertion → Option DeliveryProofFactContext → Bool
about_proof a none = false
about_proof a (some p) =
    opt_eq a.context_tool_call_id (some p.tool_call_id)
    && opt_eq a.context_result_hash (some p.result_hash)

-- a delivery-location fact counts for the proof that is current
unfoldable pub located_status :
    FactStatus → List CaseFactAssertion → Option DeliveryProofFactContext → FactStatus
located_status status [] proof = status
located_status status (a ∷ rest) proof =
    if not (all (same_context a) rest)
    then FactStatus.conflict
    else if not (about_proof a proof)
    then FactStatus.unknown
    else status

unfoldable pub status_of :
    FactCode → List CaseFactAssertion → Option DeliveryProofFactContext → Bool → Bool → FactStatus
status_of FactCode.customer_still_reports_missing active proof invalid competing =
    claimed_status active invalid competing
status_of FactCode.reported_delivery_location_checked active proof invalid competing =
    located_status (claimed_status active invalid competing) active proof

abbrev shared_context :
    (CaseFactAssertion → Option String) → FactCode → List CaseFactAssertion → Option String
shared_context f FactCode.customer_still_reports_missing active = none
shared_context f FactCode.reported_delivery_location_checked [] = none
shared_context f FactCode.reported_delivery_location_checked (a ∷ rest) =
    if all (same_context a) rest then f a else none

-- dict.fromkeys(xs)
unfoldable pub first_occurrences : List String → List String
first_occurrences [] = []
first_occurrences (x ∷ xs) = x ∷ select (λ y. not (str_eq x y)) (first_occurrences xs)

unfoldable pub entry_for :
    FactCode
    → List CaseFactAssertion
    → Option DeliveryProofFactContext
    → Bool
    → Bool
    → FactSnapshotEntry
entry_for code assertions current_proof invalid competing =
    let active = active_among assertions in
    record {
      status = status_of code active current_proof invalid competing;
      active_assertion_ids = map (λ a. a.assertion_id) active;
      superseded_assertion_ids =
          select (λ id. contains id (superseded_ids assertions))
            (map (λ a. a.assertion_id) assertions);
      source_message_ids = first_occurrences (map (λ a. a.source_message_id) active);
      context_tool_call_id = shared_context (λ a. a.context_tool_call_id) code active;
      context_result_hash = shared_context (λ a. a.context_result_hash) code active;
    }
