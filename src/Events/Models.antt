-- ===== src/Events/Models.antt =====
-- events/models.py and the event tables of storage/models.py: drafts, rows and envelopes.
use ecommerce_after_sales_ag.Common.{
  ℕ, String, ◌≡◌, refl, Bool, false, not, ◌&&◌, ◌||◌, Option, none, some, List, [], ◌∷◌, find,
  str_eq, leb, ltb, ◌==◌, all, length, non_empty,
}
use ecommerce_after_sales_ag.Common.Enum.{StrEnum, of_value}
use ecommerce_after_sales_ag.Common.Json.{Fields}
use ecommerce_after_sales_ag.Common.Result.{Result, ok, err, value_error, ◌>>◌, raise_if, or_raise}
use ecommerce_after_sales_ag.Common.Text.{codes}
use ecommerce_after_sales_ag.Common.Time.{Timestamp, is_aware}

pub data EventVisibility : Type 0 where
  customer developer both : EventVisibility

abbrev pub event_visibility_value : EventVisibility → String
event_visibility_value EventVisibility.customer = "customer"
event_visibility_value EventVisibility.developer = "developer"
event_visibility_value EventVisibility.both = "both"

abbrev pub event_visibility_members : List EventVisibility
event_visibility_members =
    EventVisibility.customer ∷ EventVisibility.developer ∷ EventVisibility.both ∷ []

pub event_visibility_looked_up :
    (a : EventVisibility)
    → find
        (λ m. str_eq (event_visibility_value m) (event_visibility_value a))
        event_visibility_members
      ≡ some a
event_visibility_looked_up EventVisibility.customer = refl
event_visibility_looked_up EventVisibility.developer = refl
event_visibility_looked_up EventVisibility.both = refl

instance abbrev pub event_visibility_enum : StrEnum EventVisibility
event_visibility_enum = record {
  members = event_visibility_members;
  value = event_visibility_value;
  looked_up = event_visibility_looked_up;
}

-- The fields that a draft, a row and an envelope share.
pub record Content : Type 0 where
  pub event_id : String
  pub schema_version : ℕ
  pub conversation_id : String
  pub case_id : Option String
  pub run_id : Option String
  pub event_type : String
  pub summary : String
  pub payload : Fields
  pub evidence_refs : List Fields

-- `visibility` is a text, which a member of the string enum is too. A schema version below 0 is
-- refused like 0.
pub record EventDraft : Type 0 where
  pub content : Content
  pub open content use *
  pub visibility : String
  pub timestamp : Option Timestamp

pub record EventRow : Type 0 where
  pub content : Content
  pub open content use *
  pub visibility : String
  pub timestamp : Timestamp
  pub sequence : ℕ

pub record EventEnvelope : Type 0 where
  pub content : Content
  pub open content use *
  pub visibility : EventVisibility
  pub timestamp : Timestamp
  pub sequence : ℕ

is_lower : ℕ → Bool
is_lower c = leb b'a' c && leb c b'z'

is_word : ℕ → Bool
unfolding is_lower
is_word c = is_lower c || leb b'0' c && leb c b'9' || (c == b'_')

-- ^[a-z][a-z0-9_]{0,95}$
unfoldable pub is_event_type : String → Bool
unfolding is_lower is_word
is_event_type s = elim (codes s) [
  | [] ↦ false
  | c ∷ cs ↦ is_lower c && all is_word cs && leb (length cs) 95
]

-- `EventVisibility(text)`
unfoldable pub parse_visibility : String → Result EventVisibility
parse_visibility s = or_raise (of_value s) (value_error "not a valid EventVisibility")

abbrev discard_value {ℓ} : {A : Type ℓ} → Result A → Result (Unit {0})
discard_value (err e) = err e
discard_value (ok a) = ok tt

abbrev unaware : Option Timestamp → Bool
unaware none = false
unaware (some t) = not (is_aware t)

-- EventDraft.__post_init__
unfoldable pub validate_draft : EventDraft → Result (Unit {0})
validate_draft d =
    raise_if (not (non_empty d.conversation_id)) (value_error "conversation_id must not be empty")
    >> raise_if (not (is_event_type d.event_type))
        (value_error "event_type must be lower snake_case and at most 96 characters")
    >> raise_if (ltb d.schema_version 1) (value_error "schema_version must be positive")
    >> raise_if (not (non_empty d.summary)) (value_error "summary must not be empty")
    >> discard_value (parse_visibility d.visibility)
    >> raise_if (unaware d.timestamp) (value_error "event timestamp must be timezone-aware")
