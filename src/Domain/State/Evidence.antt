-- ===== src/Domain/State/Evidence.antt =====
-- domain/state.py: the enums of read results and of the facts in them. Each has its members, the text of each,
-- and the instance by which members are compared and looked up.
use ecommerce_after_sales_ag.Common.{String, ◌≡◌, refl, some, List, [], ◌∷◌, find, str_eq}
use ecommerce_after_sales_ag.Common.Enum.{StrEnum}

pub data ExecutionStatus : Type 0 where
  success retryable_error non_retryable_error : ExecutionStatus

abbrev pub execution_status_value : ExecutionStatus → String
execution_status_value ExecutionStatus.success = "success"
execution_status_value ExecutionStatus.retryable_error = "retryable_error"
execution_status_value ExecutionStatus.non_retryable_error = "non_retryable_error"

abbrev pub execution_status_members : List ExecutionStatus
execution_status_members =
    ExecutionStatus.success ∷ ExecutionStatus.retryable_error ∷ ExecutionStatus.non_retryable_error
    ∷ []

pub execution_status_looked_up :
    (a : ExecutionStatus)
    → find
        (λ m. str_eq (execution_status_value m) (execution_status_value a))
        execution_status_members
      ≡ some a
execution_status_looked_up ExecutionStatus.success = refl
execution_status_looked_up ExecutionStatus.retryable_error = refl
execution_status_looked_up ExecutionStatus.non_retryable_error = refl

instance abbrev pub execution_status_enum : StrEnum ExecutionStatus
execution_status_enum = record {
  members = execution_status_members;
  value = execution_status_value;
  looked_up = execution_status_looked_up;
}

pub data EvidenceAvailability : Type 0 where
  present absent unavailable : EvidenceAvailability

abbrev pub evidence_availability_value : EvidenceAvailability → String
evidence_availability_value EvidenceAvailability.present = "present"
evidence_availability_value EvidenceAvailability.absent = "absent"
evidence_availability_value EvidenceAvailability.unavailable = "unavailable"

abbrev pub evidence_availability_members : List EvidenceAvailability
evidence_availability_members =
    EvidenceAvailability.present ∷ EvidenceAvailability.absent ∷ EvidenceAvailability.unavailable
    ∷ []

pub evidence_availability_looked_up :
    (a : EvidenceAvailability)
    → find
        (λ m. str_eq (evidence_availability_value m) (evidence_availability_value a))
        evidence_availability_members
      ≡ some a
evidence_availability_looked_up EvidenceAvailability.present = refl
evidence_availability_looked_up EvidenceAvailability.absent = refl
evidence_availability_looked_up EvidenceAvailability.unavailable = refl

instance abbrev pub evidence_availability_enum : StrEnum EvidenceAvailability
evidence_availability_enum = record {
  members = evidence_availability_members;
  value = evidence_availability_value;
  looked_up = evidence_availability_looked_up;
}

pub data RetrievalStatus : Type 0 where
  hit no_hit unavailable : RetrievalStatus

abbrev pub retrieval_status_value : RetrievalStatus → String
retrieval_status_value RetrievalStatus.hit = "hit"
retrieval_status_value RetrievalStatus.no_hit = "no_hit"
retrieval_status_value RetrievalStatus.unavailable = "unavailable"

abbrev pub retrieval_status_members : List RetrievalStatus
retrieval_status_members =
    RetrievalStatus.hit ∷ RetrievalStatus.no_hit ∷ RetrievalStatus.unavailable ∷ []

pub retrieval_status_looked_up :
    (a : RetrievalStatus)
    → find
        (λ m. str_eq (retrieval_status_value m) (retrieval_status_value a))
        retrieval_status_members
      ≡ some a
retrieval_status_looked_up RetrievalStatus.hit = refl
retrieval_status_looked_up RetrievalStatus.no_hit = refl
retrieval_status_looked_up RetrievalStatus.unavailable = refl

instance abbrev pub retrieval_status_enum : StrEnum RetrievalStatus
retrieval_status_enum = record {
  members = retrieval_status_members;
  value = retrieval_status_value;
  looked_up = retrieval_status_looked_up;
}

pub data PolicyResolutionStatus : Type 0 where
  applicable not_applicable version_conflict : PolicyResolutionStatus

abbrev pub policy_resolution_status_value : PolicyResolutionStatus → String
policy_resolution_status_value PolicyResolutionStatus.applicable = "applicable"
policy_resolution_status_value PolicyResolutionStatus.not_applicable = "not_applicable"
policy_resolution_status_value PolicyResolutionStatus.version_conflict = "version_conflict"

abbrev pub policy_resolution_status_members : List PolicyResolutionStatus
policy_resolution_status_members =
    PolicyResolutionStatus.applicable ∷ PolicyResolutionStatus.not_applicable
    ∷ PolicyResolutionStatus.version_conflict ∷ []

pub policy_resolution_status_looked_up :
    (a : PolicyResolutionStatus)
    → find
        (λ m. str_eq (policy_resolution_status_value m) (policy_resolution_status_value a))
        policy_resolution_status_members
      ≡ some a
policy_resolution_status_looked_up PolicyResolutionStatus.applicable = refl
policy_resolution_status_looked_up PolicyResolutionStatus.not_applicable = refl
policy_resolution_status_looked_up PolicyResolutionStatus.version_conflict = refl

instance abbrev pub policy_resolution_status_enum : StrEnum PolicyResolutionStatus
policy_resolution_status_enum = record {
  members = policy_resolution_status_members;
  value = policy_resolution_status_value;
  looked_up = policy_resolution_status_looked_up;
}

pub data OrderStatus : Type 0 where
  processing shipped delivered cancelled : OrderStatus

abbrev pub order_status_value : OrderStatus → String
order_status_value OrderStatus.processing = "processing"
order_status_value OrderStatus.shipped = "shipped"
order_status_value OrderStatus.delivered = "delivered"
order_status_value OrderStatus.cancelled = "cancelled"

abbrev pub order_status_members : List OrderStatus
order_status_members =
    OrderStatus.processing ∷ OrderStatus.shipped ∷ OrderStatus.delivered ∷ OrderStatus.cancelled
    ∷ []

pub order_status_looked_up :
    (a : OrderStatus)
    → find (λ m. str_eq (order_status_value m) (order_status_value a)) order_status_members ≡ some a
order_status_looked_up OrderStatus.processing = refl
order_status_looked_up OrderStatus.shipped = refl
order_status_looked_up OrderStatus.delivered = refl
order_status_looked_up OrderStatus.cancelled = refl

instance abbrev pub order_status_enum : StrEnum OrderStatus
order_status_enum = record {
  members = order_status_members;
  value = order_status_value;
  looked_up = order_status_looked_up;
}

pub data DeliveryProofStatus : Type 0 where
  found not_found : DeliveryProofStatus

abbrev pub delivery_proof_status_value : DeliveryProofStatus → String
delivery_proof_status_value DeliveryProofStatus.found = "found"
delivery_proof_status_value DeliveryProofStatus.not_found = "not_found"

abbrev pub delivery_proof_status_members : List DeliveryProofStatus
delivery_proof_status_members = DeliveryProofStatus.found ∷ DeliveryProofStatus.not_found ∷ []

pub delivery_proof_status_looked_up :
    (a : DeliveryProofStatus)
    → find
        (λ m. str_eq (delivery_proof_status_value m) (delivery_proof_status_value a))
        delivery_proof_status_members
      ≡ some a
delivery_proof_status_looked_up DeliveryProofStatus.found = refl
delivery_proof_status_looked_up DeliveryProofStatus.not_found = refl

instance abbrev pub delivery_proof_status_enum : StrEnum DeliveryProofStatus
delivery_proof_status_enum = record {
  members = delivery_proof_status_members;
  value = delivery_proof_status_value;
  looked_up = delivery_proof_status_looked_up;
}
