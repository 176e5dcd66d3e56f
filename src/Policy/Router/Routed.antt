-- ===== src/Policy/Router/Routed.antt =====
-- application/policy_router.py: the decision over the sorted orders, intent by intent.
use ecommerce_after_sales_ag.Common.{ℕ, String, true, some, List, [], ◌∷◌, ◌≡◌, refl, arith}
use ecommerce_after_sales_ag.Common.Result.{ok}
use ecommerce_after_sales_ag.Domain.State.{
  IssueType, TriageIntent, issue_type_enum, triage_intent_enum,
}
use ecommerce_after_sales_ag.Domain.Models.{TriageResult}
use ecommerce_after_sales_ag.Policy.Router.{
  PolicyDecision, BlockedFragment, Sorted, decide, issue_of_intent, route_supported,
  standard_reply_reason, standard_reply_order, route_standard, route_by_intent, reason_by_intent,
  entry, route_other, route_sorted,
}

-- The intent of triage that reports an issue.
abbrev pub reported : IssueType → TriageIntent
reported IssueType.signed_not_received = TriageIntent.signed_not_received
reported IssueType.stalled_tracking = TriageIntent.stalled_tracking

-- What every decision over sorted orders satisfies.
pub record Routed (t : TriageResult) (s : Sorted) (d : PolicyDecision) : Type 0 where
  pub blocked : d.blocked_fragments ≡ s.blocked
  pub flags : d.risk_flags ≡ t.risk_flags
  pub named : (o : String) → d.authorized_order_id ≡ some o → s.authorized ≡ o ∷ []
  pub opened :
      (i : IssueType)
      → d.canonical_issue_type ≡ some i
      → (t.intent ≡ reported i)
        × (d.supported ≡ true)
        × ((o : String) × (d.authorized_order_id ≡ some o))
  pub opens :
      (i : IssueType) (o : String)
      → t.intent ≡ reported i
      → s.authorized ≡ o ∷ []
      → (d.supported ≡ true) × (d.canonical_issue_type ≡ some i) × (d.authorized_order_id ≡ some o)

module _ (flags : List String) (confidence : ℕ) (blocked : List BlockedFragment) where
  abbrev triaged : TriageIntent → List String → TriageResult
  triaged intent ids = record {
    intent = intent;
    risk_flags = flags;
    order_ids_mentioned = ids;
    confidence = confidence;
  }

  abbrev sorted : List String → Sorted
  sorted authorized = record { blocked = blocked; authorized = authorized }

  abbrev Answer : TriageIntent → List String → List String → Type 0
  Answer intent ids authorized =
      (d : PolicyDecision) × (route_sorted (triaged intent ids) (sorted authorized) ≡ ok d)
      × Routed (triaged intent ids) (sorted authorized) d

  answered : (intent : TriageIntent) (ids authorized : List String) → Answer intent ids authorized
  unfolding route_sorted route_supported issue_of_intent standard_reply_reason route_standard
      standard_reply_order route_other route_by_intent reason_by_intent entry decide
  answered TriageIntent.signed_not_received [] [] = (
    _,
    refl,
    record {
      blocked = refl;
      flags = refl;
      named = λ o h. cc;
      opened = λ i h. cc;
      opens = λ i o h k. cc;
    },
  )
  answered TriageIntent.signed_not_received (j ∷ ids) [] = (
    _,
    refl,
    record {
      blocked = refl;
      flags = refl;
      named = λ o h. cc;
      opened = λ i h. cc;
      opens = λ i o h k. cc;
    },
  )
  answered TriageIntent.signed_not_received ids (a ∷ []) = (
    _,
    refl,
    record {
      blocked = refl;
      flags = refl;
      named = λ o h. cc;
      opened = λ i h. (ground arith, refl, (a, refl));
      opens = λ i o h k. ground arith;
    },
  )
  answered TriageIntent.signed_not_received ids (a ∷ b ∷ as') = (
    _,
    refl,
    record {
      blocked = refl;
      flags = refl;
      named = λ o h. cc;
      opened = λ i h. cc;
      opens = λ i o h k. cc;
    },
  )
  answered TriageIntent.stalled_tracking [] [] = (
    _,
    refl,
    record {
      blocked = refl;
      flags = refl;
      named = λ o h. cc;
      opened = λ i h. cc;
      opens = λ i o h k. cc;
    },
  )
  answered TriageIntent.stalled_tracking (j ∷ ids) [] = (
    _,
    refl,
    record {
      blocked = refl;
      flags = refl;
      named = λ o h. cc;
      opened = λ i h. cc;
      opens = λ i o h k. cc;
    },
  )
  answered TriageIntent.stalled_tracking ids (a ∷ []) = (
    _,
    refl,
    record {
      blocked = refl;
      flags = refl;
      named = λ o h. cc;
      opened = λ i h. (ground arith, refl, (a, refl));
      opens = λ i o h k. ground arith;
    },
  )
  answered TriageIntent.stalled_tracking ids (a ∷ b ∷ as') = (
    _,
    refl,
    record {
      blocked = refl;
      flags = refl;
      named = λ o h. cc;
      opened = λ i h. cc;
      opens = λ i o h k. cc;
    },
  )
  answered TriageIntent.tracking_status_query [] [] = (
    _,
    refl,
    record {
      blocked = refl;
      flags = refl;
      named = λ o h. cc;
      opened = λ i h. cc;
      opens = λ i o h k. ground arith;
    },
  )
  answered TriageIntent.tracking_status_query (j ∷ ids) [] = (
    _,
    refl,
    record {
      blocked = refl;
      flags = refl;
      named = λ o h. cc;
      opened = λ i h. cc;
      opens = λ i o h k. ground arith;
    },
  )
  answered TriageIntent.tracking_status_query ids (a ∷ []) = (
    _,
    refl,
    record {
      blocked = refl;
      flags = refl;
      named = λ o h. cc;
      opened = λ i h. cc;
      opens = λ i o h k. ground arith;
    },
  )
  answered TriageIntent.tracking_status_query ids (a ∷ b ∷ as') = (
    _,
    refl,
    record {
      blocked = refl;
      flags = refl;
      named = λ o h. cc;
      opened = λ i h. cc;
      opens = λ i o h k. ground arith;
    },
  )
  answered _ ids authorized = (
    _,
    refl,
    record {
      blocked = refl;
      flags = refl;
      named = λ o h. cc;
      opened = λ i h. cc;
      opens = λ i o h k. ground arith;
    },
  )

pub route_sorted_total :
    (t : TriageResult) (s : Sorted)
    → (d : PolicyDecision) × (route_sorted t s ≡ ok d) × Routed t s d
route_sorted_total t s =
    answered t.risk_flags t.confidence s.blocked t.intent t.order_ids_mentioned s.authorized
