-- ===== src/Domain/CaseFacts/Rebuild.antt =====
-- domain/case_facts.py: the snapshot of a case, rebuilt from its assertions and questions.
use ecommerce_after_sales_ag.Common.{
  ℕ, suc, ◌+◌, String, Bool, true, false, not, ◌&&◌, ◌||◌, Option, none, some, List, [], ◌∷◌, any,
  find, select, length, str_eq, leb, ltb, ◌==◌, is_none, if◌then◌else◌,
}
use ecommerce_after_sales_ag.Common.Enum.{◌is◌, ◌is_in◌}
use ecommerce_after_sales_ag.Common.Result.{
  Result, ok, integrity, validation, raise_if, ◌>>◌, ◌>>=◌,
}
use ecommerce_after_sales_ag.Common.Sorting.{sort_by}
use ecommerce_after_sales_ag.Common.Time.{Timestamp, is_aware}
use ecommerce_after_sales_ag.Domain.CaseFacts.Codes.{
  FactCode, FactStatus, QuestionStatus, fact_code_enum, fact_status_enum, question_status_enum,
}
use ecommerce_after_sales_ag.Domain.CaseFacts.Records.{
  CaseFactAssertion, DeliveryProofFactContext, FactSnapshotEntry, QuestionState, CaseFactSnapshot,
  FactQuestion, is_id,
}
use ecommerce_after_sales_ag.Domain.CaseFacts.Entries.{entry_for}

-- numbered 1, 2, ...
unfoldable pub is_contiguous : ℕ → List CaseFactAssertion → Bool
is_contiguous n [] = true
is_contiguous n (a ∷ rest) = (a.assertion_sequence == suc n) && is_contiguous (suc n) rest

-- What the pass over the assertions collects: those seen, the facts with a supersession of nothing or
-- of another fact, and the superseded assertions, each once for every assertion that supersedes it.
pub record Ledger : Type 0 where
  pub ids : List CaseFactAssertion
  pub invalid_supersession : List FactCode
  pub superseded_targets : List CaseFactAssertion

unfoldable pub link : CaseFactAssertion → Option CaseFactAssertion → Ledger → Ledger
link a none l = record l { invalid_supersession = a.fact_code ∷ l.invalid_supersession }
link a (some target) l =
    if target.fact_code is a.fact_code
    then record l { superseded_targets = target ∷ l.superseded_targets }
    else record l { invalid_supersession = a.fact_code ∷ l.invalid_supersession }

unfoldable pub supersede : CaseFactAssertion → Option String → Ledger → Ledger
supersede a none l = l
supersede a (some id) l = link a (find (λ b. str_eq b.assertion_id id) l.ids) l

unfoldable pub collect : String → List CaseFactAssertion → Ledger → Result Ledger
collect case_id [] l = ok l
collect case_id (a ∷ rest) l = do
  raise_if (not (str_eq a.case_id case_id) || any (λ b. str_eq b.assertion_id a.assertion_id) l.ids)
      (integrity "assertion Case/id integrity failed")
  let linked : Ledger = supersede a a.supersedes_assertion_id l
  collect case_id rest (record linked { ids = a ∷ linked.ids })

-- some assertion of the fact has been superseded twice
unfoldable pub competes : FactCode → List CaseFactAssertion → Bool
competes code [] = false
competes code (t ∷ rest) =
    let more = competes code rest in
    t.fact_code is code && any (λ u. str_eq u.assertion_id t.assertion_id) rest || more

unfoldable pub asked : String → FactCode → List FactQuestion → List FactQuestion
asked case_id code = select (λ q. str_eq q.case_id case_id && q.fact_code is code)

unfoldable pub question_status :
    FactCode → FactStatus → ℕ → Bool → Option DeliveryProofFactContext → QuestionStatus
question_status code status asks targeted current_proof =
    if code is FactCode.reported_delivery_location_checked && is_none current_proof
    then QuestionStatus.inapplicable
    else if status is_in (FactStatus.known_true ∷ FactStatus.known_false ∷ [])
    then QuestionStatus.answered
    else if status is FactStatus.conflict
    then (if targeted
        then QuestionStatus.conflict_exhausted
        else QuestionStatus.conflict_requires_clarification)
    else if leb 1 asks
    then QuestionStatus.unknown_exhausted
    else QuestionStatus.unanswered

-- QuestionState, with asks between 0 and 2
unfoldable pub question_state_for :
    String
    → List FactQuestion
    → Option DeliveryProofFactContext
    → FactCode
    → FactStatus
    → Result QuestionState
question_state_for case_id questions current_proof code status = do
  let own : List FactQuestion = asked case_id code questions
  raise_if (not (leb (length own) 2)) (validation "field constraint of QuestionState")
  ok (record {
    asks = length own;
    status =
        question_status code status (length own) (any (λ q. q.targeted_conflict) own) current_proof;
  })

-- a dictionary over the two codes
abbrev pub by_code {ℓ} : {A : Type ℓ} → A → A → FactCode → A
by_code missing location FactCode.customer_still_reports_missing = missing
by_code missing location FactCode.reported_delivery_location_checked = location

-- the entry of one fact, from all assertions in their order and what the pass has collected
unfoldable pub fact_entry :
    List CaseFactAssertion → Ledger → Option DeliveryProofFactContext → FactCode → FactSnapshotEntry
fact_entry ordered l current_proof code =
    entry_for code (select (λ a. a.fact_code is code) ordered) current_proof
      (any (λ c. c is code) l.invalid_supersession) (competes code l.superseded_targets)

-- `canonical_hash` is the SHA-256 of the canonical JSON of these fields.
module _
    (canonical_hash : String
      → ℕ
      → (FactCode → FactSnapshotEntry)
      → (FactCode → QuestionState)
      → String) where
  -- the checks of CaseFactSnapshot
  unfoldable pub checked_snapshot :
      String
      → ℕ
      → (FactCode → FactSnapshotEntry)
      → (FactCode → QuestionState)
      → Timestamp
      → Result CaseFactSnapshot
  checked_snapshot case_id revision facts question_state rebuilt_at = do
    raise_if (not (is_id case_id)) (validation "field constraint of CaseFactSnapshot")
    raise_if (not (is_aware rebuilt_at)) (validation "rebuilt_at must be timezone-aware")
    ok (record {
      case_id = case_id;
      revision = revision;
      facts = facts;
      question_state = question_state;
      snapshot_hash = canonical_hash case_id revision facts question_state;
      rebuilt_at = rebuilt_at;
    })

  unfoldable pub rebuild_case_fact_snapshot :
      String
      → List CaseFactAssertion
      → List FactQuestion
      → Option DeliveryProofFactContext
      → Timestamp
      → Result CaseFactSnapshot
  rebuild_case_fact_snapshot case_id assertions questions current_proof rebuilt_at = do
    let ordered : List CaseFactAssertion = sort_by (λ a. a.assertion_sequence) assertions
    raise_if (not (is_contiguous 0 ordered))
        (integrity "assertion_sequence must be contiguous and monotonic")
    ledger ←
        collect case_id ordered
          (record { ids = []; invalid_supersession = []; superseded_targets = [] })
    let facts : FactCode → FactSnapshotEntry = fact_entry ordered ledger current_proof
    missing ←
        question_state_for case_id questions current_proof FactCode.customer_still_reports_missing
          (facts FactCode.customer_still_reports_missing).status
    location ←
        question_state_for case_id questions current_proof
          FactCode.reported_delivery_location_checked
          (facts FactCode.reported_delivery_location_checked).status
    checked_snapshot case_id
        (length ordered + length (select (λ q. str_eq q.case_id case_id) questions)) facts
        (by_code missing location) rebuilt_at

-- whether a question in this state may be asked, by its status and the times it was
unfoldable pub state_allows : QuestionStatus → ℕ → Bool
state_allows QuestionStatus.inapplicable asks = false
state_allows QuestionStatus.answered asks = false
state_allows QuestionStatus.unknown_exhausted asks = false
state_allows QuestionStatus.conflict_exhausted asks = false
state_allows QuestionStatus.conflict_requires_clarification asks = ltb asks 2
state_allows QuestionStatus.unanswered asks = asks == 0

unfoldable pub question_allowed : CaseFactSnapshot → FactCode → ℕ → Bool
question_allowed snapshot code global_asks =
    let state = snapshot.question_state code in
    if leb 2 global_asks then false else state_allows state.status state.asks
