-- ===== src/Policy/Gate/SignedReady.antt =====
-- policy/evidence_gate.py, `evaluate_signed_not_received`: the stages after the check for an active
-- ticket.
use ecommerce_after_sales_ag.Common.{
  true, false, not, some, ◌≡◌, refl, ◌↔◌, arith, not-eq-false, sym, ap,
}
use ecommerce_after_sales_ag.Common.{String}
use ecommerce_after_sales_ag.Domain.State.{IssueType, evidence_gate_decision_enum}
use ecommerce_after_sales_ag.Tools.Contracts.{
  OrderContextPayload, PolicySearchPayload, PolicyFactSnapshot, VerifiedPolicyCitation,
}
use ecommerce_after_sales_ag.Policy.Gate.Facts.{
  SignedNotReceivedEvidence, gate_result, proposal_allowed,
}
use ecommerce_after_sales_ag.Policy.Gate.Clear.{
  or_else-proposes, Available, unavailable_result-Blocks, unavailable_result_iff, if-proposes,
  retry_or_support-proposes, proposes_at,
}
use ecommerce_after_sales_ag.Policy.Gate.Governed.{
  facts_of-Policed, Policed, policy_guard-Blocks, policy_guard_iff,
}
use ecommerce_after_sales_ag.Policy.Gate.Signed.{
  reception_unchecked, signed_proof_stage, signed_eligibility_stage, signed_timeline_stage,
  no_events, no_target_events, pre_pod_critical,
}

-- A proof of delivery was read, nothing contradicts it, and no reception point is left to check.
pub record ProofReady (f : SignedNotReceivedEvidence) : Type 0 where
  pub read : Available f.delivery_proof.envelope
  pub consistent : f.delivery_location_conflict ≡ false
  pub reception_checked : reception_unchecked f ≡ false

proof_stage_iff :
    (f : SignedNotReceivedEvidence)
    → (proposal_allowed (signed_proof_stage f) ≡ true) ↔ ProofReady f
unfolding signed_proof_stage gate_result proposal_allowed
proof_stage_iff f = (
  (λ h.
      let (silent, k) =
        (or_else-proposes _ _ (unavailable_result-Blocks _ f.critical_retry_exhausted)).0 h in
      record {
        read = ((unavailable_result_iff _ _).0 silent).0;
        consistent = ground (arith, k);
        reception_checked = ground (arith, k);
      }),
  (λ r.
      (or_else-proposes _ _ (unavailable_result-Blocks _ f.critical_retry_exhausted)).1
        ((unavailable_result_iff _ _).1 (r.read, tt), rw (r.reception_checked, r.consistent))),
)

-- The policy makes the case eligible, the package is still missing, and the proof is ready.
pub record CaseReady (f : SignedNotReceivedEvidence) (facts : PolicyFactSnapshot) : Type 0 where
  pub eligible : facts.eligible ≡ true
  pub still_missing : f.customer_still_reports_missing ≡ true
  pub proof : ProofReady f

eligibility_stage_iff :
    (f : SignedNotReceivedEvidence) (facts : PolicyFactSnapshot)
    → (proposal_allowed (signed_eligibility_stage f (some facts)) ≡ true) ↔ CaseReady f facts
unfolding signed_eligibility_stage gate_result proposal_allowed
eligibility_stage_iff f facts = (
  (λ h.
      let (eligible, k) = (if-proposes _ _ _ refl).0 h in
      let (missing, rest) = (if-proposes _ _ _ refl).0 k in
      record {
        eligible = not-eq-false _ eligible;
        still_missing = not-eq-false _ missing;
        proof = (proof_stage_iff f).0 rest;
      }),
  (λ r. (if-proposes _ _ _ refl).1 (
    ap not r.eligible,
    (if-proposes _ _ _ refl).1 (ap not r.still_missing, (proof_stage_iff f).1 r.proof),
  )),
)

module _ (canonical_hash : PolicyFactSnapshot → String) where
  pub record PolicyReady (f : SignedNotReceivedEvidence) (order : OrderContextPayload)
      (p : PolicySearchPayload) (facts : PolicyFactSnapshot) (c : VerifiedPolicyCitation)
      : Type 0 where
    pub timeline_read : Available f.timeline.envelope
    pub policy_read : Available f.policy.envelope
    pub has_events : no_events f.timeline.payload ≡ false
    pub has_target_events : no_target_events f.timeline.payload f.target_shipment_id ≡ false
    pub policed : Policed canonical_hash f.policy order IssueType.signed_not_received p facts c
    pub ready : CaseReady f facts

  abbrev pub SomeReady : SignedNotReceivedEvidence → OrderContextPayload → Type 0
  SomeReady f order =
      (p : PolicySearchPayload) × (facts : PolicyFactSnapshot) × (c : VerifiedPolicyCitation)
      × PolicyReady f order p facts c

  pub timeline_stage_only_if :
      (f : SignedNotReceivedEvidence) (order : OrderContextPayload)
      → proposal_allowed (signed_timeline_stage canonical_hash f order) ≡ true
      → SomeReady f order
  unfolding signed_timeline_stage
  timeline_stage_only_if f order h =
      let (silent, k) =
        (or_else-proposes _ _ (unavailable_result-Blocks _ f.critical_retry_exhausted)).0 h in
      let (a, (b, (t, (q, u)))) = (unavailable_result_iff _ _).0 silent in
      let (events, k) = (if-proposes _ _ _ (retry_or_support-proposes _ _ _)).0 k in
      let (target, k) = (if-proposes _ _ _ (retry_or_support-proposes _ _ _)).0 k in
      let (guard, k) = (or_else-proposes _ _ (policy_guard-Blocks canonical_hash _ _ _ _)).0 k in
      let (p, facts, c, g) = (policy_guard_iff canonical_hash _ _ _ _).0 guard in
      (
        p,
        facts,
        c,
        record {
          timeline_read = b;
          policy_read = q;
          has_events = events;
          has_target_events = target;
          policed = g;
          ready = (eligibility_stage_iff f facts).0 (
              proposes_at (signed_eligibility_stage f) (facts_of-Policed canonical_hash f.policy g)
                k);
        },
      )

  pub timeline_stage_if :
      (f : SignedNotReceivedEvidence) (order : OrderContextPayload)
      → Available f.order_context.envelope
      → Available f.existing_tickets.envelope
      → SomeReady f order
      → proposal_allowed (signed_timeline_stage canonical_hash f order) ≡ true
  unfolding signed_timeline_stage
  timeline_stage_if f order a t (p, facts, c, r) =
      let here =
        proposes_at (signed_eligibility_stage f)
          (sym (facts_of-Policed canonical_hash f.policy r.policed))
          ((eligibility_stage_iff f facts).1 r.ready) in
      let guard =
        (policy_guard_iff canonical_hash _ _ _ (pre_pod_critical f)).1 (p, facts, c, r.policed) in
      let here =
        (or_else-proposes _ _ (policy_guard-Blocks canonical_hash _ _ _ _)).1 (guard, here) in
      let here =
        (if-proposes _ _ _ (retry_or_support-proposes _ _ _)).1 (r.has_target_events, here) in
      let here = (if-proposes _ _ _ (retry_or_support-proposes _ _ _)).1 (r.has_events, here) in
      (or_else-proposes _ _ (unavailable_result-Blocks _ f.critical_retry_exhausted)).1
        ((unavailable_result_iff _ _).1 (a, (r.timeline_read, (t, (r.policy_read, tt)))), here)
