-- ===== src/Policy/Gate/Governed.antt =====
-- policy/evidence_gate.py, `_policy_guard`: when a policy search governs the case.
use ecommerce_after_sales_ag.Common.{
  ◌≤◌, ◌<◌, String, true, false, Option, none, some, List, [], ◌∷◌, ◌≡◌, refl, ◌↔◌, arith, All,
  contains, eq_iff, opt_eq_iff, Option-cases, and-eq-true, and_of_true, inl, inr, ap, ◌∙◌,
}
use ecommerce_after_sales_ag.Common.Enum.{is_iff}
use ecommerce_after_sales_ag.Common.Time.{Timestamp, instant}
use ecommerce_after_sales_ag.Domain.State.{
  IssueType, RetrievalStatus, PolicyResolutionStatus, evidence_gate_decision_enum, issue_type_enum,
  retrieval_status_enum, policy_resolution_status_enum,
}
use ecommerce_after_sales_ag.Tools.Contracts.{
  ToolResult, OrderContextPayload, PolicySearchPayload, PolicyFactSnapshot, VerifiedPolicyCitation,
  verified_for_gate, resolved_as,
}
use ecommerce_after_sales_ag.Policy.Gate.Facts.{Named, gate_result, proposal_allowed}
use ecommerce_after_sales_ag.Policy.Gate.Guards.{
  policy_payload_guard, policy_guard, in_scope, out_of_window, covers, required_codes,
}
use ecommerce_after_sales_ag.Policy.Gate.Clear.{Blocks}
use ecommerce_after_sales_ag.Policy.Gate.Signed.{facts_of}

abbrev pub EndsAfter : Option Timestamp → Timestamp → Type 0
EndsAfter none now = Unit
EndsAfter (some stop) now = instant now < instant stop

-- The search hit an applicable clause whose facts are bound by hash and citation, concern this
-- issue, service level and region, are in force, and ask for the evidence that the gate demands.
pub record Governs (canonical_hash : PolicyFactSnapshot → String) (p : PolicySearchPayload)
    (order : OrderContextPayload) (issue : IssueType) (facts : PolicyFactSnapshot)
    (c : VerifiedPolicyCitation) : Type 0 where
  pub hit : p.retrieval_status ≡ RetrievalStatus.hit
  pub applicable : p.policy_resolution_status ≡ some PolicyResolutionStatus.applicable
  pub snapshot : p.policy_fact_snapshot ≡ some facts
  pub bound : p.policy_fact_snapshot_hash ≡ some (canonical_hash facts)
  pub cites : p.citation ≡ some c
  pub same_issue : facts.issue_type ≡ issue
  pub same_service : facts.service_level ≡ order.service_level
  pub same_region : facts.region ≡ order.region
  pub same_version : facts.policy_version ≡ c.policy_version
  pub same_clause : facts.clause_id ≡ c.clause_id
  pub same_source : facts.source_hash ≡ c.source_hash
  pub started : instant facts.effective_from ≤ instant p.evaluated_at
  pub running : EndsAfter facts.effective_to p.evaluated_at
  pub demands : All (λ r. contains r facts.required_evidence_codes ≡ true) (required_codes issue)

covers_iff :
    (codes required : List String)
    → (covers codes required ≡ true) ↔ All (λ r. contains r codes ≡ true) required
unfolding covers
covers_iff codes [] = ((λ h. tt), (λ h. refl))
covers_iff codes (r ∷ rs) = (
  (λ h. let (here, rest) = and-eq-true _ _ h in (here, (covers_iff codes rs).0 rest)),
  (λ h. and_of_true _ _ h.0 ((covers_iff codes rs).1 h.1)),
)

out_of_window_iff :
    (p : PolicySearchPayload) (facts : PolicyFactSnapshot)
    → (out_of_window p facts ≡ false) ↔ (
        (instant facts.effective_from ≤ instant p.evaluated_at)
        × EndsAfter facts.effective_to p.evaluated_at)
unfolding out_of_window
out_of_window_iff p facts = ((λ h. ground arith), (λ h. ground arith))

resolved_as-eq-true :
    (r : Option PolicyResolutionStatus) (s : PolicyResolutionStatus)
    → resolved_as r s ≡ true
    → r ≡ some s
resolved_as-eq-true none s h = cc
resolved_as-eq-true (some r) s h = ap some ((is_iff r s).0 h)

module _ (canonical_hash : PolicyFactSnapshot → String) where
  policy_payload_guard-Blocks :
      (p : PolicySearchPayload) (order : OrderContextPayload) (issue : IssueType) (d : Named)
      → Blocks (policy_payload_guard canonical_hash p order issue d)
  unfolding policy_payload_guard gate_result proposal_allowed
  policy_payload_guard-Blocks p order issue d = ground arith

  pub policy_guard-Blocks :
      (r : ToolResult PolicySearchPayload) (order : OrderContextPayload) (issue : IssueType)
      (d : Named)
      → Blocks (policy_guard canonical_hash r order issue d)
  unfolding policy_guard
  policy_guard-Blocks r order issue d = elim (Option-cases r.payload) [
    | inl missing ↦ rw (missing, policy_guard) (unfold gate_result proposal_allowed in refl)
    | inr (p, there) ↦ rw (there, policy_guard) (policy_payload_guard-Blocks p order issue d)
  ]

  -- the tests of the guard, all passed
  record Passed (p : PolicySearchPayload) (order : OrderContextPayload) (issue : IssueType)
      (facts : PolicyFactSnapshot) : Type 0 where
    verified : verified_for_gate canonical_hash p ≡ true
    snapshot : p.policy_fact_snapshot ≡ some facts
    scoped : in_scope p facts order issue ≡ true
    current : out_of_window p facts ≡ false
    covered : covers facts.required_evidence_codes (required_codes issue) ≡ true

  Passed-of_guard :
      (p : PolicySearchPayload) (order : OrderContextPayload) (issue : IssueType) (d : Named)
      → policy_payload_guard canonical_hash p order issue d ≡ none
      → (facts : PolicyFactSnapshot) × Passed p order issue facts
  unfolding policy_payload_guard
  Passed-of_guard p order issue d h = elim (Option-cases p.policy_fact_snapshot) [
    | inl missing ↦ absurd (ground (arith, missing))
    | inr (facts, there) ↦ (
      facts,
      record {
        verified = ground (arith, there);
        snapshot = there;
        scoped = ground (arith, there);
        current = ground (arith, there);
        covered = ground (arith, there);
      },
    )
  ]

  statuses_of_verified :
      (p : PolicySearchPayload)
      → verified_for_gate canonical_hash p ≡ true
      → (p.retrieval_status ≡ RetrievalStatus.hit)
        × (p.policy_resolution_status ≡ some PolicyResolutionStatus.applicable)
  unfolding verified_for_gate
  statuses_of_verified p h = (
    (is_iff p.retrieval_status RetrievalStatus.hit).0 (ground arith),
    resolved_as-eq-true p.policy_resolution_status PolicyResolutionStatus.applicable (ground arith),
  )

  guard_of_Passed :
      (p : PolicySearchPayload) (order : OrderContextPayload) (issue : IssueType) (d : Named)
      (facts : PolicyFactSnapshot)
      → Passed p order issue facts
      → policy_payload_guard canonical_hash p order issue d ≡ none
  unfolding policy_payload_guard
  guard_of_Passed p order issue d facts h =
      let (hit, app) = statuses_of_verified p h.verified in
      rw (h.verified, hit, app) (rw (h.snapshot, h.scoped, h.current, h.covered))

  Governs-of_Passed :
      (p : PolicySearchPayload) (order : OrderContextPayload) (issue : IssueType)
      (facts : PolicyFactSnapshot)
      → Passed p order issue facts
      → (c : VerifiedPolicyCitation) × Governs canonical_hash p order issue facts c
  unfolding verified_for_gate in_scope
  Governs-of_Passed p order issue facts h = elim (Option-cases p.citation) [
    | inl missing ↦ absurd (ground (arith, missing, h.verified))
    | inr (c, there) ↦
        let (started, running) = (out_of_window_iff p facts).0 h.current in
        (
          c,
          record {
            hit = (statuses_of_verified p h.verified).0;
            applicable = (statuses_of_verified p h.verified).1;
            snapshot = h.snapshot;
            bound =
                (opt_eq_iff p.policy_fact_snapshot_hash (canonical_hash facts)).0
                  (ground (arith, h.verified, h.snapshot));
            cites = there;
            same_issue = (is_iff facts.issue_type issue).0 (ground (arith, h.scoped));
            same_service =
                (eq_iff facts.service_level order.service_level).0 (ground (arith, h.scoped));
            same_region = (eq_iff facts.region order.region).0 (ground (arith, h.scoped));
            same_version =
                (eq_iff facts.policy_version c.policy_version).0 (ground (arith, h.scoped, there));
            same_clause = (eq_iff facts.clause_id c.clause_id).0 (ground (arith, h.scoped, there));
            same_source =
                (eq_iff facts.source_hash c.source_hash).0 (ground (arith, h.scoped, there));
            started = started;
            running = running;
            demands = (covers_iff _ _).0 h.covered;
          },
        )
  ]

  Passed-of_Governs :
      (p : PolicySearchPayload) (order : OrderContextPayload) (issue : IssueType)
      (facts : PolicyFactSnapshot) (c : VerifiedPolicyCitation)
      → Governs canonical_hash p order issue facts c
      → Passed p order issue facts
  unfolding verified_for_gate in_scope
  Passed-of_Governs p order issue facts c g = record {
    verified =
        rw (g.hit, g.applicable, g.snapshot, g.cites)
          ((opt_eq_iff p.policy_fact_snapshot_hash (canonical_hash facts)).1 g.bound);
    snapshot = g.snapshot;
    scoped = ground (
      arith,
      g.cites,
      (is_iff facts.issue_type issue).1 g.same_issue,
      (eq_iff facts.service_level order.service_level).1 g.same_service,
      (eq_iff facts.region order.region).1 g.same_region,
      (eq_iff facts.policy_version c.policy_version).1 g.same_version,
      (eq_iff facts.clause_id c.clause_id).1 g.same_clause,
      (eq_iff facts.source_hash c.source_hash).1 g.same_source,
    );
    current = (out_of_window_iff p facts).1 (g.started, g.running);
    covered = (covers_iff _ _).1 g.demands;
  }

  -- The policy that governs a case, if the search found one.
  pub record Policed (r : ToolResult PolicySearchPayload) (order : OrderContextPayload)
      (issue : IssueType) (p : PolicySearchPayload) (facts : PolicyFactSnapshot)
      (c : VerifiedPolicyCitation) : Type 0 where
    pub found : r.payload ≡ some p
    pub governs : Governs canonical_hash p order issue facts c

  abbrev pub SomePolicy : ToolResult PolicySearchPayload → OrderContextPayload → IssueType → Type 0
  SomePolicy r order issue =
      (p : PolicySearchPayload) × (facts : PolicyFactSnapshot) × (c : VerifiedPolicyCitation)
      × Policed r order issue p facts c

  pub facts_of-Policed :
      (r : ToolResult PolicySearchPayload) {order : OrderContextPayload} {issue : IssueType}
      {p : PolicySearchPayload} {facts : PolicyFactSnapshot} {c : VerifiedPolicyCitation}
      → Policed r order issue p facts c
      → facts_of r.payload ≡ some facts
  facts_of-Policed r g = ap facts_of g.found ∙ g.governs.snapshot

  -- The guard is silent exactly if the search hit an applicable clause whose facts are bound by hash
  -- and citation, concern this issue, service level and region, are in force, and ask for the
  -- evidence that the gate demands.
  pub policy_guard_iff :
      (r : ToolResult PolicySearchPayload) (order : OrderContextPayload) (issue : IssueType)
      (d : Named)
      → (policy_guard canonical_hash r order issue d ≡ none) ↔ SomePolicy r order issue
  unfolding policy_guard
  policy_guard_iff r order issue d = (
    (λ h. elim (Option-cases r.payload) [
      | inl missing ↦ absurd (ground (arith, missing))
      | inr (p, there) ↦
          let (facts, passed) = Passed-of_guard p order issue d (ground (arith, there)) in
          let (c, g) = Governs-of_Passed p order issue facts passed in
          (p, facts, c, record { found = there; governs = g })
    ]),
    (λ (p, facts, c, policed).
        rw (policed.found, policy_guard)
          (guard_of_Passed p order issue d facts
            (Passed-of_Governs p order issue facts c policed.governs))),
  )
