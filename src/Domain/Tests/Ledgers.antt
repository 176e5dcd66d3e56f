-- ===== src/Domain/Tests/Ledgers.antt =====
-- A customer who has said that the parcel is missing, and then takes it back.
use ecommerce_after_sales_ag.Common.{
  ℕ, ◌<◌, String, true, false, Option, none, some, List, [], ◌∷◌, ◌≡◌, ◌↔◌, refl, length,
  contains_text,
}
use ecommerce_after_sales_ag.Common.Result.{ok, is_ok}
use ecommerce_after_sales_ag.Common.Text.{sample_digest, at_most}
use ecommerce_after_sales_ag.Common.Time.{aware}
use ecommerce_after_sales_ag.Common.Sorting.{sort_by, insert_by}
use ecommerce_after_sales_ag.Domain.CaseFacts.Codes.{
  FactCode, FactValue, RelationHint, FactStatus, QuestionStatus, fact_code_enum,
}
use ecommerce_after_sales_ag.Domain.CaseFacts.Records.{
  CaseFactCandidate, CaseFactAssertion, FactSnapshotEntry, QuestionState, CaseFactSnapshot,
  FactQuestion, candidate_valid,
}
use ecommerce_after_sales_ag.Domain.CaseFacts.Reply.{
  authoritative_interpretation, validate_candidate, value_said, relation_said, last_of,
}
use ecommerce_after_sales_ag.Domain.CaseFacts.Entries.{
  entry_for, active_among, superseded_ids, status_of, claimed_status, located_status,
}
use ecommerce_after_sales_ag.Domain.CaseFacts.Rebuild.{
  Ledger, rebuild_case_fact_snapshot, checked_snapshot, is_contiguous, collect, supersede,
  question_state_for, question_status, asked, by_code, fact_entry, competes, question_allowed,
}
use ecommerce_after_sales_ag.Domain.CaseFacts.Known.{known_iff, empty_ledger, Establishes}
use ecommerce_after_sales_ag.Domain.CaseFacts.Questions.{MayAsk, applies, question_allowed_iff}
use ecommerce_after_sales_ag.Domain.CaseFacts.Accepted.{candidate_accepted_iff}
use ecommerce_after_sales_ag.Domain.CaseFacts.Retractions.{IsRelated, only_latest_superseded}

abbrev same_text : String → String
same_text s = s

abbrev missing : FactCode
missing = FactCode.customer_still_reports_missing

abbrev case_1 : Option String
case_1 = some "case_1"

abbrev customer : String
customer = "customer"

abbrev said_missing : CaseFactAssertion
said_missing = record {
  assertion_id = "assert_1";
  case_id = "case_1";
  fact_code = missing;
  value = FactValue.holds;
  source_message_id = "msg_1";
  source_message_hash = sample_digest;
  source_span = record { start = 0; end = 4 };
  relation = RelationHint.fresh;
  supersedes_assertion_id = none;
  extractor_version = "case-fact-deterministic-v1";
  context_tool_call_id = none;
  context_result_hash = none;
  assertion_sequence = 1;
  recorded_at = aware 1000;
}

abbrev found_after_all : CaseFactCandidate
found_after_all = record {
  fact_code = missing;
  value = FactValue.fails;
  relation_hint = RelationHint.correction;
  target_assertion_id = some "assert_1";
  source_span = record { start = 0; end = 7 };
}

candidate_accepted_iff_example :
    (is_ok (
        validate_candidate same_text same_text found_after_all "case_1" case_1 customer "说错了,已收到"
          missing
          (said_missing ∷ [])
          none)
      ≡ true)
    ↔ ((case_1 ≡ some "case_1")
        × (customer ≡ "customer")
        × (authoritative_interpretation same_text same_text "说错了,已收到" missing
              (said_missing ∷ [])
              none
            ≡ ok found_after_all))
candidate_accepted_iff_example =
    candidate_accepted_iff same_text same_text found_after_all "case_1" case_1 customer "说错了,已收到"
      missing (said_missing ∷ []) none

only_latest_superseded_example :
    (found_after_all.fact_code ≡ missing)
    × IsRelated "说错了,已收到" FactValue.fails
        (said_missing ∷ [])
        (RelationHint.correction, some "assert_1")
unfolding authoritative_interpretation value_said relation_said last_of candidate_valid
    contains_text at_most
only_latest_superseded_example =
    only_latest_superseded same_text same_text "说错了,已收到" missing (said_missing ∷ []) none
      found_after_all refl

abbrev no_hash : String → ℕ → (FactCode → FactSnapshotEntry) → (FactCode → QuestionState) → String
no_hash case_id revision facts states = sample_digest

abbrev questions : List FactQuestion
questions =
    record {
      question_id = "qfact_1";
      case_id = "case_1";
      fact_code = missing;
      context_result_hash = none;
      targeted_conflict = false;
      asked_at = aware 900;
    }
    ∷ []

abbrev one_ledger : Ledger
one_ledger = record { ids = said_missing ∷ []; invalid_supersession = []; superseded_targets = [] }

abbrev facts : FactCode → FactSnapshotEntry
facts = fact_entry (said_missing ∷ []) one_ledger none

abbrev snapshot : List FactQuestion → ℕ → QuestionStatus → CaseFactSnapshot
snapshot asks revision status = record {
  case_id = "case_1";
  revision = revision;
  facts = facts;
  question_state =
      by_code (record { asks = length asks; status = status })
        (record { asks = 0; status = QuestionStatus.inapplicable });
  snapshot_hash = sample_digest;
  rebuilt_at = aware 2000;
}

known_iff_example :
    (((facts missing).status ≡ FactStatus.known_true)
      ↔ Establishes FactValue.holds FactValue.fails missing (said_missing ∷ []) none)
    × (((facts missing).status ≡ FactStatus.known_false)
        ↔ Establishes FactValue.fails FactValue.holds missing (said_missing ∷ []) none)
unfolding rebuild_case_fact_snapshot checked_snapshot sort_by insert_by is_contiguous collect
    supersede fact_entry entry_for active_among superseded_ids status_of claimed_status
    located_status competes question_state_for question_status asked at_most
known_iff_example =
    known_iff no_hash "case_1" (said_missing ∷ []) questions none (aware 2000)
      (snapshot questions 2 QuestionStatus.answered) missing refl

abbrev no_facts : FactCode → FactSnapshotEntry
no_facts = fact_entry [] empty_ledger none

abbrev fresh_snapshot : CaseFactSnapshot
fresh_snapshot = record {
  case_id = "case_1";
  revision = 0;
  facts = no_facts;
  question_state =
      by_code (record { asks = 0; status = QuestionStatus.unanswered })
        (record { asks = 0; status = QuestionStatus.inapplicable });
  snapshot_hash = sample_digest;
  rebuilt_at = aware 2000;
}

question_allowed_iff_example :
    (question_allowed fresh_snapshot missing 0 ≡ true)
    ↔ ((0 < 2) × (applies missing none ≡ true) × MayAsk (no_facts missing).status 0 false)
unfolding rebuild_case_fact_snapshot checked_snapshot sort_by is_contiguous collect fact_entry
    entry_for active_among superseded_ids status_of claimed_status located_status competes
    question_state_for question_status asked at_most
question_allowed_iff_example =
    question_allowed_iff no_hash "case_1" [] [] none (aware 2000) fresh_snapshot missing 0 refl
