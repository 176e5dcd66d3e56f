-- ===== src/Domain/CaseFacts/Reply.antt =====
-- domain/case_facts.py: what a customer's reply says, by fixed cues, and which candidate it supports.
-- `casefold` and `strip` are Python's methods of a text.
use ecommerce_after_sales_ag.Common.{
  String, Bool, not, ◌&&◌, ◌||◌, Option, none, some, List, [], ◌∷◌, any, select, length,
  contains_text, str_eq, opt_eq, non_empty, if◌then◌else◌,
}
use ecommerce_after_sales_ag.Common.Enum.{◌is◌}
use ecommerce_after_sales_ag.Common.Result.{
  Result, ok, err, Error, case_fact, integrity, raise_if, ◌>>◌, ◌>>=◌,
}
use ecommerce_after_sales_ag.Common.Text.{codes}
use ecommerce_after_sales_ag.Domain.CaseFacts.Codes.{
  FactCode, FactValue, RelationHint, fact_code_enum, fact_value_enum, relation_hint_enum,
}
use ecommerce_after_sales_ag.Domain.CaseFacts.Records.{
  CaseFactCandidate, CaseFactAssertion, DeliveryProofFactContext, candidate_valid, same_candidate,
}

abbrev pub says : List String → String → Bool
says cues normalized = any (λ cue. contains_text cue normalized) cues

abbrev pub unknown_cues : List String
unknown_cues = "不知道" ∷ "不清楚" ∷ "不确定" ∷ "没法确认" ∷ []

abbrev pub correction_cues : List String
correction_cues = "更正" ∷ "改一下" ∷ "说错" ∷ "其实" ∷ "不是" ∷ []

abbrev pub withdrawal_cues : List String
withdrawal_cues = "撤回" ∷ "不确定" ∷ []

abbrev pub received_cues : List String
received_cues = "已收到" ∷ "已经收到" ∷ "收到了" ∷ "找到了" ∷ []

abbrev pub missing_cues : List String
missing_cues = "仍然没有收到" ∷ "仍未收到" ∷ "还没收到" ∷ "没有收到" ∷ "没收到" ∷ "未收到" ∷ "没拿到" ∷ []

abbrev pub unchecked_cues : List String
unchecked_cues = "还没查" ∷ "还没有" ∷ "没有查" ∷ "没问" ∷ "未确认" ∷ "没去问" ∷ []

abbrev pub checked_cues : List String
checked_cues =
    "问过" ∷ "查过" ∷ "确认过" ∷ "前台没有" ∷ "门卫没有" ∷ "邻居没有" ∷ "家人没有" ∷ "代收点没有" ∷ "快递柜没有" ∷ "柜里没有" ∷ "没有我的包裹"
    ∷ "没找到我的包裹" ∷ []

abbrev pub unsupported : Error
unsupported = case_fact "persisted reply does not support this Case Fact"

-- the value that a reply to the question of each fact supports
unfoldable pub value_said : FactCode → String → Option DeliveryProofFactContext → Result FactValue
value_said FactCode.customer_still_reports_missing normalized proof =
    if says received_cues normalized
    then ok FactValue.fails
    else if says missing_cues normalized
    then ok FactValue.holds
    else err unsupported
value_said FactCode.reported_delivery_location_checked normalized none =
    err (case_fact "delivery-location fact is inapplicable without current proof")
value_said FactCode.reported_delivery_location_checked normalized (some proof) =
    if says unchecked_cues normalized
    then ok FactValue.fails
    else if says checked_cues normalized
    then ok FactValue.holds
    else err unsupported

-- same_fact[-1] if same_fact else None
unfoldable pub last_of : List CaseFactAssertion → Option CaseFactAssertion
last_of [] = none
last_of (a ∷ rest) = elim rest [ [] ↦ some a | b ∷ more ↦ last_of rest ]

-- the relation to what the customer has said before, and the assertion that it targets
unfoldable pub relation_said :
    String
    → FactValue
    → List CaseFactAssertion
    → Option CaseFactAssertion
    → Result (RelationHint × Option String)
relation_said normalized value same_fact none = ok (RelationHint.fresh, none)
relation_said normalized value same_fact (some latest) =
    if value is FactValue.unknown && says withdrawal_cues normalized
    then ok (RelationHint.withdrawal, some latest.assertion_id)
    else if says correction_cues normalized
    then raise_if
        (value is FactValue.unknown || latest.value is FactValue.unknown || latest.value is value)
        (case_fact "persisted reply does not support this correction")
      >> ok (RelationHint.correction, some latest.assertion_id)
    else if any (λ item. item.value is value) same_fact
    then ok (RelationHint.repeat, none)
    else ok (RelationHint.fresh, none)

module _ (casefold strip : String → String) where
  -- _authoritative_interpretation
  unfoldable pub authoritative_interpretation :
      String
      → FactCode
      → List CaseFactAssertion
      → Option DeliveryProofFactContext
      → Result CaseFactCandidate
  authoritative_interpretation message_content fact_code active_assertions proof_context = do
    let normalized = casefold message_content
    raise_if (not (non_empty (strip message_content)))
        (case_fact "persisted customer reply is empty")
    value ←
        if says unknown_cues normalized
        then ok FactValue.unknown
        else value_said fact_code normalized proof_context
    let same_fact : List CaseFactAssertion =
        select (λ item. item.fact_code is fact_code) active_assertions
    (relation, target) ← relation_said normalized value same_fact (last_of same_fact)
    candidate_valid (record {
      fact_code = fact_code;
      value = value;
      relation_hint = relation;
      target_assertion_id = target;
      source_span = record { start = 0; end = length (codes message_content) };
    })

  unfoldable pub validate_candidate :
      CaseFactCandidate
      → String
      → Option String
      → String
      → String
      → FactCode
      → List CaseFactAssertion
      → Option DeliveryProofFactContext
      → Result (Option DeliveryProofFactContext)
  validate_candidate candidate case_id message_case_id message_role message_content
        outstanding_fact_code active_assertions proof_context =
      do
        raise_if
            (not (opt_eq message_case_id (some case_id)) || not (str_eq message_role "customer"))
            (case_fact "source_message_id must be customer-authored and bound to this Case")
        raise_if (not (candidate.fact_code is outstanding_fact_code))
            (case_fact "candidate does not answer the outstanding Case Fact question")
        authoritative ←
            authoritative_interpretation message_content outstanding_fact_code active_assertions
              proof_context
        raise_if (not (same_candidate candidate authoritative)) (
            case_fact
              "candidate value, relation, target, or span disagrees with deterministic interpretation")
        ok (
            if candidate.fact_code is FactCode.reported_delivery_location_checked
            then proof_context
            else none)

  abbrev unless_unsupported : Result CaseFactCandidate → Result (Option CaseFactCandidate)
  unless_unsupported (ok c) = ok (some c)
  unless_unsupported (err (case_fact e)) = ok none
  unless_unsupported (err (integrity e)) = ok none
  unless_unsupported (err e) = err e

  unfoldable pub interpret_customer_reply :
      String
      → FactCode
      → List CaseFactAssertion
      → Option DeliveryProofFactContext
      → Result (Option CaseFactCandidate)
  interpret_customer_reply message_content fact_code active_assertions proof_context =
      unless_unsupported
        (authoritative_interpretation message_content fact_code active_assertions proof_context)
