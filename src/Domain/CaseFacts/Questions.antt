-- ===== src/Domain/CaseFacts/Questions.antt =====
-- domain/case_facts.py: when a rebuilt snapshot lets a question be asked.
use ecommerce_after_sales_ag.Common.Selections.{select-and}
use ecommerce_after_sales_ag.Common.{
  none, some, refl, subst, select, str_eq, ◌↔◌, not-eq-false, ℕ, ◌<◌, String, Bool, true, false,
  not, ◌&&◌, Option, List, [], ◌∷◌, ◌≡◌, sym, ap, ◌∙◌, ◌⊎◌, inl, inr, arith, any, length, leb,
  is_none, if◌then◌else◌, Bool-cases,
}
use ecommerce_after_sales_ag.Common.Enum.{◌is◌, ◌is_in◌}
use ecommerce_after_sales_ag.Common.Result.{ok, validation, raise_if, >>-eq-ok, ok-injective}
use ecommerce_after_sales_ag.Common.Time.{Timestamp}
use ecommerce_after_sales_ag.Domain.CaseFacts.Codes.{
  FactCode, FactStatus, QuestionStatus, fact_code_enum, fact_status_enum, question_status_enum,
}
use ecommerce_after_sales_ag.Domain.CaseFacts.Records.{
  CaseFactAssertion, DeliveryProofFactContext, FactSnapshotEntry, QuestionState, CaseFactSnapshot,
  FactQuestion,
}
use ecommerce_after_sales_ag.Domain.CaseFacts.Rebuild.{
  asked, question_status, question_state_for, rebuild_case_fact_snapshot, state_allows,
  question_allowed,
}
use ecommerce_after_sales_ag.Domain.CaseFacts.Known.{snapshot-IsRebuilt}

-- A question that has not been asked may be, about an unknown fact; and while it has been asked less than
-- twice, about a fact in conflict, if it has not been about the conflict.
abbrev pub MayAsk : FactStatus → ℕ → Bool → Type 0
MayAsk status asks targeted =
    ((asks ≡ 0) × (status ≡ FactStatus.unknown))
    ⊎ ((asks < 2) × (status ≡ FactStatus.conflict) × (targeted ≡ false))

-- The questions of the case about the fact.
abbrev pub questions_on : String → FactCode → List FactQuestion → List FactQuestion
questions_on case_id code questions =
    select (λ q. q.fact_code is code) (select (λ q. str_eq q.case_id case_id) questions)

-- only the delivery location needs a proof
abbrev pub applies : FactCode → Option DeliveryProofFactContext → Bool
applies FactCode.reported_delivery_location_checked none = false
applies _ proof = true

applies-eq-not :
    (code : FactCode) (proof : Option DeliveryProofFactContext)
    → (code is FactCode.reported_delivery_location_checked && is_none proof)
      ≡ not (applies code proof)
applies-eq-not FactCode.customer_still_reports_missing proof = refl
applies-eq-not FactCode.reported_delivery_location_checked none = refl
applies-eq-not FactCode.reported_delivery_location_checked (some p) = refl

question_state_for-ok :
    (case_id : String) (questions : List FactQuestion) (proof : Option DeliveryProofFactContext)
    (code : FactCode) (status : FactStatus) (state : QuestionState)
    → question_state_for case_id questions proof code status ≡ ok state
    → (state.asks ≡ length (asked case_id code questions))
      × (state.status
          ≡ question_status code status
              (length (asked case_id code questions))
              (any (λ q. q.targeted_conflict) (asked case_id code questions))
              proof)
unfolding question_state_for
question_state_for-ok case_id questions proof code status state h =
    let (_, k) =
      >>-eq-ok
        (raise_if (not (leb (length (asked case_id code questions)) 2))
          (validation "field constraint of QuestionState"))
        _ h in
    let same = sym (ok-injective k) in (ap (λ s. s.asks) same, ap (λ s. s.status) same)

-- a state allows a question exactly where it may be asked
state_allows_iff :
    (inapplicable : Bool) (status : FactStatus) (asks : ℕ) (targeted : Bool)
    → (state_allows
          (if inapplicable
            then QuestionStatus.inapplicable
            else if status is_in (FactStatus.known_true ∷ FactStatus.known_false ∷ [])
            then QuestionStatus.answered
            else if status is FactStatus.conflict
            then (if targeted
                then QuestionStatus.conflict_exhausted
                else QuestionStatus.conflict_requires_clarification)
            else if leb 1 asks
            then QuestionStatus.unknown_exhausted
            else QuestionStatus.unanswered)
          asks
        ≡ true)
      ↔ ((inapplicable ≡ false) × MayAsk status asks targeted)
unfolding state_allows
state_allows_iff true status asks targeted = ((λ h. cc), (λ h. cc))
state_allows_iff false FactStatus.known_true asks targeted = ((λ h. cc), (λ h. ground arith))
state_allows_iff false FactStatus.known_false asks targeted = ((λ h. cc), (λ h. ground arith))
state_allows_iff false FactStatus.unknown asks targeted = ((λ h. ground arith), (λ h. ground arith))
state_allows_iff false FactStatus.conflict asks true = ((λ h. cc), (λ h. ground arith))
state_allows_iff false FactStatus.conflict asks false = ((λ h. ground arith), (λ h. ground arith))

module _
    (canonical_hash : String
      → ℕ
      → (FactCode → FactSnapshotEntry)
      → (FactCode → QuestionState)
      → String) where
  -- On a rebuilt snapshot a question is allowed exactly if the number of clarifications that the caller
  -- has counted is below two, the fact applies (the delivery location, with a current proof only), and
  -- either the fact is unknown and the case has no question about it, or it is in conflict and the case
  -- has fewer than two questions about it, none of which was about a conflict.
  pub question_allowed_iff :
      (case_id : String) (assertions : List CaseFactAssertion) (questions : List FactQuestion)
      (proof : Option DeliveryProofFactContext) (now : Timestamp) (snapshot : CaseFactSnapshot)
      (code : FactCode) (global_asks : ℕ)
      → rebuild_case_fact_snapshot canonical_hash case_id assertions questions proof now
        ≡ ok snapshot
      → (question_allowed snapshot code global_asks ≡ true) ↔ (
          (global_asks < 2)
          × (applies code proof ≡ true)
          × MayAsk
              (snapshot.facts code).status
              (length (questions_on case_id code questions))
              (any (λ q. q.targeted_conflict) (questions_on case_id code questions)))
  unfolding question_allowed question_status asked
  question_allowed_iff case_id assertions questions proof now snapshot code global_asks h =
      let r = snapshot-IsRebuilt canonical_hash case_id assertions questions proof now snapshot h in
      let (asks, status) =
        question_state_for-ok case_id questions proof code (snapshot.facts code).status
          (snapshot.question_state code) (r.questioned code) in
      let own = asked case_id code questions in
      let same : own ≡ questions_on case_id code questions =
        select-and (λ q. str_eq q.case_id case_id) (λ q. q.fact_code is code) questions in
      let inapplicable = code is FactCode.reported_delivery_location_checked && is_none proof in
      let allows =
        state_allows_iff inapplicable (snapshot.facts code).status (length own)
          (any (λ q. q.targeted_conflict) own) in
      let said =
        question_status code (snapshot.facts code).status (length own)
          (any (λ q. q.targeted_conflict) own) proof in
      let here : state_allows (snapshot.question_state code).status
            (snapshot.question_state code).asks
          ≡ state_allows said (length own) =
        ap (λ t. state_allows t (snapshot.question_state code).asks) status
        ∙ ap (λ n. state_allows said n) asks in
      let may = λ (qs : List FactQuestion).
        MayAsk (snapshot.facts code).status (length qs) (any (λ q. q.targeted_conflict) qs) in
      elim (Bool-cases (leb 2 global_asks)) [
        | inl e ↦ ((λ k. absurd (let i = rw e at k in cc)), (λ (low, a, m). absurd (ground arith)))
        | inr e ↦ (
          (λ k.
              let i : state_allows (snapshot.question_state code).status
                    (snapshot.question_state code).asks
                  ≡ true =
                rw e at k in
              let (a, m) = allows.0 (sym here ∙ i) in
              (
                ground arith,
                not-eq-false (applies code proof) (sym (applies-eq-not code proof) ∙ a),
                subst may same m,
              )),
          (λ (low, a, m).
              rw e
                (here ∙ allows.1 (applies-eq-not code proof ∙ ap not a, subst may (sym same) m))),
        )
      ]
