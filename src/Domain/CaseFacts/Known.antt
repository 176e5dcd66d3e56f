-- ===== src/Domain/CaseFacts/Known.antt =====
-- domain/case_facts.py: when a rebuilt snapshot says that a fact is known.
use ecommerce_after_sales_ag.Common.{
  ℕ, String, Bool, true, false, not, Option, List, [], ◌≡◌, refl, sym, ap, ◌∙◌, ◌↔◌, inl, inr,
  arith, any, select,
}
use ecommerce_after_sales_ag.Common.Enum.{◌is◌}
use ecommerce_after_sales_ag.Common.Result.{
  ok, validation, integrity, raise_if, >>=-eq-ok, >>-eq-ok, ok-injective,
}
use ecommerce_after_sales_ag.Common.Sorting.{sort_by}
use ecommerce_after_sales_ag.Common.Time.{Timestamp, is_aware}
use ecommerce_after_sales_ag.Domain.CaseFacts.Codes.{
  FactCode, FactValue, RelationHint, FactStatus, fact_code_enum, fact_value_enum,
  relation_hint_enum, fact_status_enum, question_status_enum,
}
use ecommerce_after_sales_ag.Domain.CaseFacts.Records.{
  CaseFactAssertion, DeliveryProofFactContext, FactSnapshotEntry, QuestionState, CaseFactSnapshot,
  FactQuestion, is_id,
}
use ecommerce_after_sales_ag.Domain.CaseFacts.Entries.{claimed_status, status_of, entry_for}
use ecommerce_after_sales_ag.Domain.CaseFacts.Disputes.{
  onto, broken, contested, unsuperseded, active_among-eq-unsuperseded,
}
use ecommerce_after_sales_ag.Domain.CaseFacts.Current.{in_place, located_all_iff}
use ecommerce_after_sales_ag.Domain.CaseFacts.Tracking.{Tracks, collect-Tracks}
use ecommerce_after_sales_ag.Domain.CaseFacts.Rebuild.{
  Ledger, competes, collect, question_state_for, by_code, fact_entry, is_contiguous,
  checked_snapshot, rebuild_case_fact_snapshot,
}

abbrev pub withdrawn : List CaseFactAssertion → Bool
withdrawn active = any (λ a. a.relation is RelationHint.withdrawal) active

-- Nothing disputes the claim v: no supersession is broken or competes with another, nothing active is
-- withdrawn, some active assertion says v, and none says w.
abbrev pub Claims : FactValue → FactValue → List CaseFactAssertion → Bool → Bool → Type 0
Claims v w active invalid competing =
    (invalid ≡ false)
    × (competing ≡ false)
    × (withdrawn active ≡ false)
    × (any (λ a. a.value is v) active ≡ true)
    × (any (λ a. a.value is w) active ≡ false)

claimed_true_iff :
    (active : List CaseFactAssertion) (invalid competing : Bool)
    → (claimed_status active invalid competing ≡ FactStatus.known_true)
      ↔ Claims FactValue.holds FactValue.fails active invalid competing
unfolding claimed_status
claimed_true_iff active invalid competing =
    ((λ h. ground arith), (λ (i, c, w, v, o). rw (i, c, v, o, w) refl))

claimed_false_iff :
    (active : List CaseFactAssertion) (invalid competing : Bool)
    → (claimed_status active invalid competing ≡ FactStatus.known_false)
      ↔ Claims FactValue.fails FactValue.holds active invalid competing
unfolding claimed_status
claimed_false_iff active invalid competing =
    ((λ h. ground arith), (λ (i, c, w, v, o). rw (i, c, o, v, w) refl))

status_of_iff :
    (code : FactCode) (active : List CaseFactAssertion) (proof : Option DeliveryProofFactContext)
    (invalid competing : Bool)
    → ((status_of code active proof invalid competing ≡ FactStatus.known_true) ↔ (
        (in_place code active proof ≡ true)
        × Claims FactValue.holds FactValue.fails active invalid competing))
      × ((status_of code active proof invalid competing ≡ FactStatus.known_false) ↔ (
          (in_place code active proof ≡ true)
          × Claims FactValue.fails FactValue.holds active invalid competing))
unfolding status_of
status_of_iff FactCode.customer_still_reports_missing active proof invalid competing =
    let t = claimed_true_iff active invalid competing in
    let f = claimed_false_iff active invalid competing in
    (((λ h. (refl, t.0 h)), (λ h. t.1 h.1)), ((λ h. (refl, f.0 h)), (λ h. f.1 h.1)))
status_of_iff FactCode.reported_delivery_location_checked active proof invalid competing =
    let t = claimed_true_iff active invalid competing in
    let f = claimed_false_iff active invalid competing in
    let status = claimed_status active invalid competing in
    let lt = located_all_iff active proof status FactStatus.known_true (inl refl) in
    let lf = located_all_iff active proof status FactStatus.known_false (inr refl) in
    (
      ((λ h. let (p, e) = lt.0 h in (p, t.0 e)), (λ (p, e). lt.1 (p, t.1 e))),
      ((λ h. let (p, e) = lf.0 h in (p, f.0 e)), (λ (p, e). lf.1 (p, f.1 e))),
    )

abbrev pub empty_ledger : Ledger
empty_ledger = record { ids = []; invalid_supersession = []; superseded_targets = [] }

-- the assertions in their order, and those of one fact that no other supersedes
abbrev pub in_order : List CaseFactAssertion → List CaseFactAssertion
in_order = sort_by (λ a. a.assertion_sequence)

-- the assertions from the last to the first
abbrev pub newest_first : List CaseFactAssertion → List CaseFactAssertion
newest_first assertions = onto [] (in_order assertions)

abbrev pub active_of : FactCode → List CaseFactAssertion → List CaseFactAssertion
active_of code assertions = unsuperseded (select (λ a. a.fact_code is code) (in_order assertions))

-- The status that the assertions give a fact if nothing disputes the claim v.
abbrev pub Establishes :
    FactValue
    → FactValue
    → FactCode
    → List CaseFactAssertion
    → Option DeliveryProofFactContext
    → Type 0
Establishes v w code assertions proof =
    (in_place code (active_of code assertions) proof ≡ true)
    × Claims v w (active_of code assertions) (broken code (newest_first assertions))
        (contested code (newest_first assertions))

empty_ledger-Tracks : (code : FactCode) → Tracks code [] empty_ledger
unfolding competes
empty_ledger-Tracks code = record {
  ids = refl;
  flagged = refl;
  found = tt;
  matched = λ h id. refl;
  competing = λ h. refl;
}

-- what the ledger flags is what is broken or contested
Claims-Tracks :
    (v w : FactValue) (active : List CaseFactAssertion) (code : FactCode)
    (seen : List CaseFactAssertion) (l : Ledger)
    → Tracks code seen l
    → (Claims v w active
        (any (λ c. c is code) l.invalid_supersession)
        (competes code l.superseded_targets))
      ↔ Claims v w active (broken code seen) (contested code seen)
Claims-Tracks v w active code seen l t = (
  (λ (i, c, x, y, z).
      let whole = sym t.flagged ∙ i in (whole, sym (t.competing whole) ∙ c, x, y, z)),
  (λ (i, c, x, y, z). (t.flagged ∙ i, t.competing i ∙ c, x, y, z)),
)

module _
    (canonical_hash : String
      → ℕ
      → (FactCode → FactSnapshotEntry)
      → (FactCode → QuestionState)
      → String) where
  -- What a snapshot that was rebuilt consists of.
  pub record IsRebuilt (case_id : String) (assertions : List CaseFactAssertion)
      (questions : List FactQuestion) (proof : Option DeliveryProofFactContext)
      (snapshot : CaseFactSnapshot) : Type 0 where
    pub ledger : Ledger
    pub collected : collect case_id (in_order assertions) empty_ledger ≡ ok ledger
    pub facts : snapshot.facts ≡ fact_entry (in_order assertions) ledger proof
    pub questioned :
        (code : FactCode)
        → question_state_for case_id questions proof code (snapshot.facts code).status
          ≡ ok (snapshot.question_state code)

  checked_snapshot-eq-ok :
      (case_id : String) (revision : ℕ) (facts : FactCode → FactSnapshotEntry)
      (states : FactCode → QuestionState) (now : Timestamp) (snapshot : CaseFactSnapshot)
      → checked_snapshot canonical_hash case_id revision facts states now ≡ ok snapshot
      → (snapshot.facts ≡ facts) × (snapshot.question_state ≡ states)
  unfolding checked_snapshot
  checked_snapshot-eq-ok case_id revision facts states now snapshot h =
      let (_, h₁) =
        >>-eq-ok
          (raise_if (not (is_id case_id)) (validation "field constraint of CaseFactSnapshot")) _
          h in
      let (_, h₂) =
        >>-eq-ok (raise_if (not (is_aware now)) (validation "rebuilt_at must be timezone-aware")) _
          h₁ in
      let same = sym (ok-injective h₂) in (ap (λ s. s.facts) same, ap (λ s. s.question_state) same)

  -- the state of each question is that of the code
  each_question :
      (case_id : String) (questions : List FactQuestion) (proof : Option DeliveryProofFactContext)
      (facts : FactCode → FactSnapshotEntry) (missing location : QuestionState)
      → question_state_for case_id questions proof FactCode.customer_still_reports_missing
          (facts FactCode.customer_still_reports_missing).status
        ≡ ok missing
      → question_state_for case_id questions proof FactCode.reported_delivery_location_checked
          (facts FactCode.reported_delivery_location_checked).status
        ≡ ok location
      → (code : FactCode)
      → question_state_for case_id questions proof code (facts code).status
        ≡ ok (by_code missing location code)
  each_question c q p f m l hm hl FactCode.customer_still_reports_missing = hm
  each_question c q p f m l hm hl FactCode.reported_delivery_location_checked = hl

  pub snapshot-IsRebuilt :
      (case_id : String) (assertions : List CaseFactAssertion) (questions : List FactQuestion)
      (proof : Option DeliveryProofFactContext) (now : Timestamp) (snapshot : CaseFactSnapshot)
      → rebuild_case_fact_snapshot canonical_hash case_id assertions questions proof now
        ≡ ok snapshot
      → IsRebuilt case_id assertions questions proof snapshot
  unfolding rebuild_case_fact_snapshot
  snapshot-IsRebuilt case_id assertions questions proof now snapshot h =
      let ordered = in_order assertions in
      let (_, h₁) =
        >>-eq-ok
          (raise_if (not (is_contiguous 0 ordered))
            (integrity "assertion_sequence must be contiguous and monotonic"))
          _ h in
      let (l, hl, h₂) = >>=-eq-ok (collect case_id ordered empty_ledger) _ h₁ in
      let facts = fact_entry ordered l proof in
      let (m, hm, h₃) =
        >>=-eq-ok
          (question_state_for case_id questions proof FactCode.customer_still_reports_missing
            (facts FactCode.customer_still_reports_missing).status)
          _ h₂ in
      let (p, hp, h₄) =
        >>=-eq-ok
          (question_state_for case_id questions proof FactCode.reported_delivery_location_checked
            (facts FactCode.reported_delivery_location_checked).status)
          _ h₃ in
      let (is_facts, is_states) =
        checked_snapshot-eq-ok case_id _ facts (by_code m p) now snapshot h₄ in
      record {
        ledger = l;
        collected = hl;
        facts = is_facts;
        questioned =
            rw (is_facts, is_states) (each_question case_id questions proof facts m p hm hp);
      }

  -- In a rebuilt snapshot a fact is known to hold exactly if, among the assertions of the case on this
  -- fact that no other of them supersedes, one says that it holds, none says that it does not, none is
  -- a withdrawal, and, for the delivery location, all are about the current delivery proof; and if each
  -- assertion on the fact that supersedes something supersedes an earlier assertion on the fact, and no
  -- two supersede the same one. It is known not to hold exactly if this is so with the two values exchanged.
  pub known_iff :
      (case_id : String) (assertions : List CaseFactAssertion) (questions : List FactQuestion)
      (proof : Option DeliveryProofFactContext) (now : Timestamp) (snapshot : CaseFactSnapshot)
      (code : FactCode)
      → rebuild_case_fact_snapshot canonical_hash case_id assertions questions proof now
        ≡ ok snapshot
      → (((snapshot.facts code).status ≡ FactStatus.known_true)
          ↔ Establishes FactValue.holds FactValue.fails code assertions proof)
        × (((snapshot.facts code).status ≡ FactStatus.known_false)
            ↔ Establishes FactValue.fails FactValue.holds code assertions proof)
  unfolding fact_entry entry_for
  known_iff case_id assertions questions proof now snapshot code h =
      let r = snapshot-IsRebuilt case_id assertions questions proof now snapshot h in
      let own = select (λ a. a.fact_code is code) (in_order assertions) in
      let invalid = any (λ c. c is code) r.ledger.invalid_supersession in
      let competing = competes code r.ledger.superseded_targets in
      let (t, f) = status_of_iff code (active_of code assertions) proof invalid competing in
      let tracked =
        collect-Tracks code case_id (in_order assertions) [] empty_ledger r.ledger
          (empty_ledger-Tracks code) r.collected in
      let told = λ (v w : FactValue).
        Claims-Tracks v w (active_of code assertions) code (newest_first assertions) r.ledger
          tracked in
      let status =
        ap (λ g. (g code).status) r.facts
        ∙ ap (λ active. status_of code active proof invalid competing)
            (active_among-eq-unsuperseded own) in
      (
        (
          (λ e.
              let (p, c) = t.0 (sym status ∙ e) in (p, (told FactValue.holds FactValue.fails).0 c)),
          (λ (p, c). status ∙ t.1 (p, (told FactValue.holds FactValue.fails).1 c)),
        ),
        (
          (λ e.
              let (p, c) = f.0 (sym status ∙ e) in (p, (told FactValue.fails FactValue.holds).0 c)),
          (λ (p, c). status ∙ f.1 (p, (told FactValue.fails FactValue.holds).1 c)),
        ),
      )
