-- ===== src/Policy/Gate/StalledReady.antt =====
-- policy/evidence_gate.py, `evaluate_stalled_tracking`: the stages after the order was checked.
use ecommerce_after_sales_ag.Common.{
  ℕ, String, ◌<◌, Bool, true, false, not, Option, none, some, ◌≡◌, refl, ◌↔◌, arith, leb,
  Option-cases, not-eq-false, true-ne-false, inl, inr, sym, ◌∙◌, ap,
}
use ecommerce_after_sales_ag.Domain.State.{IssueType, evidence_gate_decision_enum}
use ecommerce_after_sales_ag.Tools.Contracts.{
  ToolResult, OrderContextPayload, LogisticsTimelinePayload, CarrierServiceAlertsPayload,
  PolicySearchPayload, PolicyFactSnapshot, VerifiedPolicyCitation,
}
use ecommerce_after_sales_ag.Policy.Gate.Facts.{
  StalledTrackingEvidence, gate_result, proposal_allowed,
}
use ecommerce_after_sales_ag.Policy.Gate.Guards.{
  active_ticket, target_timeline, has_structural_timeline_conflict,
}
use ecommerce_after_sales_ag.Policy.Gate.Clear.{
  Blocks, or_else-proposes, Available, unavailable_result-Blocks, unavailable_result_iff,
  if-proposes, retry_or_support-proposes, proposes_at,
}
use ecommerce_after_sales_ag.Policy.Gate.Governed.{
  facts_of-Policed, Policed, policy_guard-Blocks, policy_guard_iff,
}
use ecommerce_after_sales_ag.Policy.Gate.Stalled.{
  alerts_guard, recovery_window, stalled_ticket_stage, stalled_alerts_stage, hours, elapsed_of,
  stalled_elapsed_stage, stalled_threshold_stage, stalled_eligibility_stage, updated_timeline,
  stalled_timeline_stage, decision_inputs,
}

abbrev pub AlertsRead : Option (ToolResult CarrierServiceAlertsPayload) → Type 0
AlertsRead none = Unit
AlertsRead (some a) = Available a.envelope

alerts_guard-Blocks :
    (a : Option (ToolResult CarrierServiceAlertsPayload)) (exhausted : Bool)
    → Blocks (alerts_guard a exhausted)
alerts_guard-Blocks none exhausted = tt
alerts_guard-Blocks (some a) exhausted = unavailable_result-Blocks _ exhausted

alerts_guard_iff :
    (a : Option (ToolResult CarrierServiceAlertsPayload)) (exhausted : Bool)
    → (alerts_guard a exhausted ≡ none) ↔ AlertsRead a
alerts_guard_iff none exhausted = ((λ h. tt), (λ h. refl))
alerts_guard_iff (some a) exhausted = (
  (λ h. ((unavailable_result_iff _ exhausted).0 h).0),
  (λ h. (unavailable_result_iff _ exhausted).1 (h, tt)),
)

-- The carrier's alerts and the tickets were read, and neither answers the customer already.
pub record TicketsReady (f : StalledTrackingEvidence) : Type 0 where
  pub alerts_read : AlertsRead f.carrier_alerts
  pub tickets_read : Available f.existing_tickets.envelope
  pub no_active_ticket : active_ticket f.existing_tickets ≡ false
  pub no_recovery_window : recovery_window f.carrier_alerts ≡ false

alerts_stage_iff :
    (f : StalledTrackingEvidence)
    → (proposal_allowed (stalled_alerts_stage f) ≡ true) ↔ TicketsReady f
unfolding stalled_alerts_stage stalled_ticket_stage gate_result proposal_allowed
alerts_stage_iff f = (
  (λ h.
      let (alerts, k) =
        (or_else-proposes _ _ (alerts_guard-Blocks _ f.critical_retry_exhausted)).0 h in
      let (tickets, k) =
        (or_else-proposes _ _ (unavailable_result-Blocks _ f.critical_retry_exhausted)).0 k in
      let (idle, k) = (if-proposes _ _ _ refl).0 k in
      let (closed, k) = (if-proposes _ _ _ refl).0 k in
      record {
        alerts_read = (alerts_guard_iff _ _).0 alerts;
        tickets_read = ((unavailable_result_iff _ _).0 tickets).0;
        no_active_ticket = idle;
        no_recovery_window = closed;
      }),
  (λ r.
      let here = (if-proposes _ _ _ refl).1 (r.no_recovery_window, refl) in
      let here = (if-proposes _ _ _ refl).1 (r.no_active_ticket, here) in
      let here =
        (or_else-proposes _ _ (unavailable_result-Blocks _ f.critical_retry_exhausted)).1
          ((unavailable_result_iff _ _).1 (r.tickets_read, tt), here) in
      (or_else-proposes _ _ (alerts_guard-Blocks _ f.critical_retry_exhausted)).1
        ((alerts_guard_iff _ _).1 r.alerts_read, here)),
)

-- The package has been still for longer than the policy's threshold, and its order does not
-- contradict its timeline.
pub record Overdue (f : StalledTrackingEvidence) (order : OrderContextPayload)
    (timeline : LogisticsTimelinePayload) (threshold elapsed : ℕ) : Type 0 where
  pub still_for : elapsed_of (target_timeline timeline f.target_shipment_id) ≡ some elapsed
  pub consistent :
      has_structural_timeline_conflict order timeline f.timeline.observed_at f.target_shipment_id
      ≡ false
  pub over_threshold : hours threshold < elapsed
  pub tickets : TicketsReady f

elapsed_stage_iff :
    (f : StalledTrackingEvidence) (order : OrderContextPayload)
    (timeline : LogisticsTimelinePayload) (threshold elapsed : ℕ)
    → elapsed_of (target_timeline timeline f.target_shipment_id) ≡ some elapsed
    → (proposal_allowed (stalled_elapsed_stage f order timeline threshold (some elapsed)) ≡ true)
      ↔ Overdue f order timeline threshold elapsed
unfolding stalled_elapsed_stage gate_result proposal_allowed
elapsed_stage_iff f order timeline threshold elapsed there = (
  (λ h.
      let (sound, k) = (if-proposes _ _ _ refl).0 h in
      let (late, k) = (if-proposes (leb elapsed (hours threshold)) _ _ refl).0 k in
      record {
        still_for = there;
        consistent = sound;
        over_threshold = ground (arith, late);
        tickets = (alerts_stage_iff f).0 k;
      }),
  (λ o.
      let late : leb elapsed (hours threshold) ≡ false = ground (arith, o.over_threshold) in
      (if-proposes _ _ _ refl).1
        (o.consistent, (if-proposes _ _ _ refl).1 (late, (alerts_stage_iff f).1 o.tickets))),
)

-- The policy makes the case eligible and states a threshold, and the package is overdue.
pub record StalledReady (f : StalledTrackingEvidence) (order : OrderContextPayload)
    (timeline : LogisticsTimelinePayload) (facts : PolicyFactSnapshot) (threshold elapsed : ℕ)
    : Type 0 where
  pub eligible : facts.eligible ≡ true
  pub states_threshold : facts.stalled_after_hours ≡ some threshold
  pub overdue : Overdue f order timeline threshold elapsed

eligibility_only_if :
    (f : StalledTrackingEvidence) (order : OrderContextPayload)
    (timeline : LogisticsTimelinePayload) (facts : PolicyFactSnapshot)
    → proposal_allowed (stalled_eligibility_stage f order timeline (some facts)) ≡ true
    → (threshold : ℕ) × (elapsed : ℕ) × StalledReady f order timeline facts threshold elapsed
unfolding stalled_eligibility_stage stalled_threshold_stage stalled_elapsed_stage gate_result
    proposal_allowed
eligibility_only_if f order timeline facts h =
    let (eligible, k) = (if-proposes _ _ _ refl).0 h in
    elim (Option-cases facts.stalled_after_hours) [
      | inl missing ↦
          absurd
            (true-ne-false (sym (proposes_at (stalled_threshold_stage f order timeline) missing k)))
      | inr (threshold, there) ↦
          let k = proposes_at (stalled_threshold_stage f order timeline) there k in
          elim (Option-cases (elapsed_of (target_timeline timeline f.target_shipment_id))) [
            | inl missing ↦ absurd (
                true-ne-false (
                  sym (proposes_at (stalled_elapsed_stage f order timeline threshold) missing k)
                  ∙ retry_or_support-proposes f.directed_refresh_completed "TARGET_TIMELINE_ABSENT"
                      (decision_inputs f)))
            | inr (elapsed, still) ↦ (
              threshold,
              elapsed,
              record {
                eligible = not-eq-false _ eligible;
                states_threshold = there;
                overdue =
                    (elapsed_stage_iff f order timeline threshold elapsed still).0
                      (proposes_at (stalled_elapsed_stage f order timeline threshold) still k);
              },
            )
          ]
    ]

eligibility_if :
    (f : StalledTrackingEvidence) (order : OrderContextPayload)
    (timeline : LogisticsTimelinePayload) (facts : PolicyFactSnapshot) (threshold elapsed : ℕ)
    → StalledReady f order timeline facts threshold elapsed
    → proposal_allowed (stalled_eligibility_stage f order timeline (some facts)) ≡ true
unfolding stalled_eligibility_stage stalled_threshold_stage gate_result proposal_allowed
eligibility_if f order timeline facts threshold elapsed r =
    let here =
      (elapsed_stage_iff f order timeline threshold elapsed r.overdue.still_for).1 r.overdue in
    let here =
      proposes_at (stalled_elapsed_stage f order timeline threshold) (sym r.overdue.still_for)
        here in
    (if-proposes _ _ _ refl).1 (
      ap not r.eligible,
      proposes_at (stalled_threshold_stage f order timeline) (sym r.states_threshold) here,
    )

module _ (canonical_hash : PolicyFactSnapshot → String) where
  -- A timeline with a last update, a policy that governs the case, and a package that is overdue.
  pub record TimelineReady (f : StalledTrackingEvidence) (order : OrderContextPayload)
      (timeline : LogisticsTimelinePayload) (p : PolicySearchPayload) (facts : PolicyFactSnapshot)
      (c : VerifiedPolicyCitation) (threshold elapsed : ℕ) : Type 0 where
    pub has_timeline : updated_timeline f.timeline.payload ≡ some timeline
    pub policed : Policed canonical_hash f.policy order IssueType.stalled_tracking p facts c
    pub ready : StalledReady f order timeline facts threshold elapsed

  abbrev pub SomeOverdue : StalledTrackingEvidence → OrderContextPayload → Type 0
  SomeOverdue f order =
      (timeline : LogisticsTimelinePayload) × (p : PolicySearchPayload)
      × (facts : PolicyFactSnapshot) × (c : VerifiedPolicyCitation) × (threshold : ℕ)
      × (elapsed : ℕ) × TimelineReady f order timeline p facts c threshold elapsed

  pub timeline_stage_iff :
      (f : StalledTrackingEvidence) (order : OrderContextPayload)
      → (proposal_allowed
            (stalled_timeline_stage canonical_hash f order (updated_timeline f.timeline.payload))
          ≡ true)
        ↔ SomeOverdue f order
  unfolding stalled_timeline_stage
  timeline_stage_iff f order = (
    (λ h. elim (Option-cases (updated_timeline f.timeline.payload)) [
      | inl missing ↦ absurd (
          true-ne-false (
            sym (proposes_at (stalled_timeline_stage canonical_hash f order) missing h)
            ∙ retry_or_support-proposes f.directed_refresh_completed "TRACKING_TIMELINE_ABSENT"
                (decision_inputs f)))
      | inr (timeline, there) ↦
          let k = proposes_at (stalled_timeline_stage canonical_hash f order) there h in
          let (guard, k) =
            (or_else-proposes _ _ (policy_guard-Blocks canonical_hash _ _ _ _)).0 k in
          let (p, facts, c, g) = (policy_guard_iff canonical_hash _ _ _ _).0 guard in
          let k =
            proposes_at (stalled_eligibility_stage f order timeline)
              (facts_of-Policed canonical_hash f.policy g) k in
          let (threshold, elapsed, r) = eligibility_only_if f order timeline facts k in
          (
            timeline,
            p,
            facts,
            c,
            threshold,
            elapsed,
            record { has_timeline = there; policed = g; ready = r },
          )
    ]),
    (λ (timeline, p, facts, c, threshold, elapsed, r).
        let here = eligibility_if f order timeline facts threshold elapsed r.ready in
        let here =
          proposes_at (stalled_eligibility_stage f order timeline)
            (sym (facts_of-Policed canonical_hash f.policy r.policed)) here in
        let guard =
          (policy_guard_iff canonical_hash _ _ _ (decision_inputs f)).1 (p, facts, c, r.policed) in
        proposes_at (stalled_timeline_stage canonical_hash f order) (sym r.has_timeline)
          ((or_else-proposes _ _ (policy_guard-Blocks canonical_hash _ _ _ _)).1 (guard, here))),
  )
