-- ===== src/Sources.antt =====
-- contracts/detailed_analysis/v1/policies.py: source approvals and source profiles, with the
-- validators of their contracts, and `ArtifactReferenceV1` of contracts/base.py. Dates are naturals.

pub mod Binding
pub mod Approved
use system_trade_with_llm_or.Prelude.{
  ℕ, Bool, true, false, Option, none, some, List, [], ◌∷◌, not, ◌&&◌, ◌||◌, ◌==◌, if◌then◌else◌,
  any, is_some, ltb, ◌*◌,
}
use system_trade_with_llm_or.Schema.{Identifier}

-- A schema identifier, with the two that the validators name.
pub data SchemaId : Type 0 where
  source_approval source_profile : SchemaId
  other_schema : Identifier → SchemaId

pub record ArtifactReference : Type 0 where
  pub artifact_type : Identifier
  pub artifact_id : Identifier
  pub schema_id : SchemaId
  pub schema_version : ℕ
  pub sha256 : Identifier

pub data ApprovalStatus : Type 0 where
  draft approved suspended expired rejected : ApprovalStatus

pub data KnowledgeStatus : Type 0 where
  known unknown unsupported not_retrieved : KnowledgeStatus

pub data Category : Type 0 where
  terms pricing authentication redistribution derived_output external_processing : Category
  provider_retention provider_training freshness available_period rate_limit : Category
  failure_behavior : Category

abbrev pub category_rank : Category → ℕ
category_rank Category.terms = 0
category_rank Category.pricing = 1
category_rank Category.authentication = 2
category_rank Category.redistribution = 3
category_rank Category.derived_output = 4
category_rank Category.external_processing = 5
category_rank Category.provider_retention = 6
category_rank Category.provider_training = 7
category_rank Category.freshness = 8
category_rank Category.available_period = 9
category_rank Category.rate_limit = 10
category_rank Category.failure_behavior = 11

-- `SourceConditionCategory`, in its order
abbrev pub categories : List Category
categories =
    Category.terms ∷ Category.pricing ∷ Category.authentication ∷ Category.redistribution
    ∷ Category.derived_output ∷ Category.external_processing ∷ Category.provider_retention
    ∷ Category.provider_training ∷ Category.freshness ∷ Category.available_period
    ∷ Category.rate_limit ∷ Category.failure_behavior ∷ []

abbrev pub is_approved : ApprovalStatus → Bool
is_approved ApprovalStatus.approved = true
is_approved _ = false

abbrev pub is_known : KnowledgeStatus → Bool
is_known KnowledgeStatus.known = true
is_known _ = false

abbrev pub is_unsupported : KnowledgeStatus → Bool
is_unsupported KnowledgeStatus.unsupported = true
is_unsupported _ = false

-- knowledge_status in {UNKNOWN, NOT_RETRIEVED}
abbrev pub is_unverified : KnowledgeStatus → Bool
is_unverified KnowledgeStatus.unknown = true
is_unverified KnowledgeStatus.not_retrieved = true
is_unverified _ = false

pub record SourceCondition : Type 0 where
  pub category : Category
  pub knowledge_status : KnowledgeStatus
  pub official_reference_ids : List Identifier

pub record SourceApproval : Type 0 where
  pub schema_id : SchemaId
  pub schema_version : ℕ
  pub artifact_id : Identifier
  pub source_id : Identifier
  pub status : ApprovalStatus
  pub approved_by : Option Identifier
  pub effective_on : Option ℕ
  pub recheck_due_on : Option ℕ
  pub credential_scope_alias : Option Identifier
  pub online_use_allowed : Bool
  pub external_agent_transfer_allowed : Bool
  pub official_references : List Identifier
  pub conditions : List SourceCondition

-- all(test(x) for x in xs)
abbrev pub every {ℓ} : {A : Type ℓ} → (A → Bool) → List A → Bool
every test [] = true
every test (x ∷ xs) = test x && every test xs

abbrev pub contains : List ℕ → ℕ → Bool
contains xs x = any (λ y. y == x) xs

-- len(xs) == len(set(xs))
abbrev pub is_unique : List ℕ → Bool
is_unique [] = true
is_unique (x ∷ xs) = not (contains xs x) && is_unique xs

abbrev pub ranks : List SourceCondition → List ℕ
ranks [] = []
ranks (c ∷ cs) = category_rank c.category ∷ ranks cs

-- if test: raise ValueError
abbrev pub implies : Bool → Bool → Bool
implies a b = not a || b

-- `validate_approval`
unfoldable pub validate_approval : SourceApproval → Bool
validate_approval a =
    is_unique a.official_references
    && is_unique (ranks a.conditions)
    && every (λ c. contains (ranks a.conditions) (category_rank c)) categories
    && every (λ c. every (contains a.official_references) c.official_reference_ids) a.conditions
    && implies (is_approved a.status)
        (is_some a.approved_by && is_some a.effective_on && is_some a.recheck_due_on)
    && implies (is_approved a.status)
        (not (any (λ c. is_unverified c.knowledge_status) a.conditions))
    && implies a.online_use_allowed (is_approved a.status)
    && implies a.external_agent_transfer_allowed a.online_use_allowed

-- A number of a setting: an int, or a float in millionths. NaN and the infinite float are
-- `not_finite`, and `negative` is a number below 0.
pub data Number : Type 0 where
  int : ℕ → Number
  float : ℕ → Number
  not_finite negative : Number

-- The number in millionths.
abbrev pub micros : Number → Option ℕ
micros (int n) = some (n * 1_000_000)
micros (float n) = some n
micros _ = none

abbrev pub is_negative : Number → Bool
is_negative negative = true
is_negative _ = false

pub data Measure : Type 0 where
  second request : Measure
  other_measure : Identifier → Measure

pub record QuantitativeSetting : Type 0 where
  pub knowledge_status : KnowledgeStatus
  pub value : Option Number
  pub measure : Measure

abbrev pub is_value : Option Number → Bool
is_value none = false
is_value (some n) = not (is_negative n)

-- `validate_setting`
unfoldable pub validate_setting : QuantitativeSetting → Bool
validate_setting s = if is_known s.knowledge_status then is_value s.value else not (is_some s.value)

pub record SourceProfile : Type 0 where
  pub schema_id : SchemaId
  pub schema_version : ℕ
  pub artifact_id : Identifier
  pub source_id : Identifier
  pub profile_version : ℕ
  pub policy_version : ℕ
  pub source_approval_reference : ArtifactReference
  pub source_approval_status : ApprovalStatus
  pub enabled : Bool
  pub rate_domain : Identifier
  pub credential_scope_alias : Option Identifier
  pub max_concurrency : ℕ
  pub min_interval_seconds : QuantitativeSetting
  pub rate_requests : QuantitativeSetting
  pub rate_window_seconds : QuantitativeSetting
  pub burst : ℕ
  pub cache_enabled : Bool
  pub cache_ttl_seconds : QuantitativeSetting
  pub batch_support_status : KnowledgeStatus
  pub max_batch_size : QuantitativeSetting
  pub default_cooldown_seconds : QuantitativeSetting
  pub direct_connection_fallback_allowed : Bool

abbrev pub is_source_approval : SchemaId → Bool
is_source_approval SchemaId.source_approval = true
is_source_approval _ = false

abbrev pub is_source_profile : SchemaId → Bool
is_source_profile SchemaId.source_profile = true
is_source_profile _ = false

-- not (value is None or value <= 0)
abbrev pub is_positive : Option Number → Bool
is_positive (some (int n)) = ltb 0 n
is_positive (some (float n)) = ltb 0 n
is_positive (some not_finite) = true
is_positive _ = false

-- `validate_profile_enablement`, and the validators of the profile's settings
unfoldable pub validate_profile : SourceProfile → Bool
unfolding validate_setting
validate_profile p =
    validate_setting p.min_interval_seconds
    && validate_setting p.rate_requests
    && validate_setting p.rate_window_seconds
    && validate_setting p.cache_ttl_seconds
    && validate_setting p.max_batch_size
    && validate_setting p.default_cooldown_seconds
    && is_source_approval p.source_approval_reference.schema_id
    && (if p.enabled
        then is_approved p.source_approval_status
          && is_known p.min_interval_seconds.knowledge_status
          && is_positive p.min_interval_seconds.value
        else if is_known p.min_interval_seconds.knowledge_status
        then true
        else (p.max_concurrency == 1) && (p.burst == 1))
