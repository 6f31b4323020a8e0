-- ===== src/Sources/Binding.antt =====
-- requests/models.py: `_positive`, `SourceBinding.limits` and `bind_source`.
use system_trade_with_llm_or.Prelude.{
  ℕ, Bool, true, false, Option, none, some, List, [], ◌∷◌, not, ◌&&◌, ◌==◌, if◌then◌else◌, is_some,
  ltb, leb,
}
use system_trade_with_llm_or.Schema.{Identifier}
use system_trade_with_llm_or.Sources.{
  SchemaId, ArtifactReference, ApprovalStatus, KnowledgeStatus, is_approved, is_known,
  is_unsupported, SourceApproval, SourceProfile, QuantitativeSetting, Number, int, Measure, micros,
  validate_approval, validate_profile,
}

-- `ConfigurationArtifact`: a model and the hash of its file.
pub data Model : Type 0 where
  approval_model : SourceApproval → Model
  profile_model : SourceProfile → Model
  other_model : Identifier → Model

pub record Artifact : Type 0 where
  pub model : Model
  pub sha256 : Identifier

-- The token of a binding that `bind_source` has made; any other value is `false`.
pub record SourceBinding : Type 0 where
  pub approval : SourceApproval
  pub profile : SourceProfile
  pub approval_reference : ArtifactReference
  pub profile_reference : ArtifactReference
  pub evaluation_date : ℕ
  pub factory_token : Bool

-- The tuple that `limits` returns, less its two constants 1; times are in microseconds.
pub record Limits : Type 0 where
  pub min_interval : ℕ
  pub rate_requests : ℕ
  pub rate_window : ℕ
  pub cooldown_status : KnowledgeStatus

abbrev same_measure : Measure → Measure → Bool
same_measure Measure.second Measure.second = true
same_measure Measure.request Measure.request = true
same_measure _ _ = false

-- `_positive`, where the value is an amount above 0
abbrev pub positive : QuantitativeSetting → Measure → Option ℕ
positive setting measure =
    if is_known setting.knowledge_status && same_measure setting.measure measure
    then elim setting.value [
      | none ↦ none
      | some n ↦ elim (micros n) [ none ↦ none | some m ↦ if ltb 0 m then some m else none ]
    ]
    else none

abbrev pub same_status : ApprovalStatus → ApprovalStatus → Bool
same_status ApprovalStatus.draft ApprovalStatus.draft = true
same_status ApprovalStatus.approved ApprovalStatus.approved = true
same_status ApprovalStatus.suspended ApprovalStatus.suspended = true
same_status ApprovalStatus.expired ApprovalStatus.expired = true
same_status ApprovalStatus.rejected ApprovalStatus.rejected = true
same_status _ _ = false

abbrev pub same_alias : Option Identifier → Option Identifier → Bool
same_alias none none = true
same_alias (some a) (some b) = a == b
same_alias _ _ = false

abbrev same_schema : SchemaId → SchemaId → Bool
same_schema SchemaId.source_approval SchemaId.source_approval = true
same_schema SchemaId.source_profile SchemaId.source_profile = true
same_schema (SchemaId.other_schema a) (SchemaId.other_schema b) = a == b
same_schema _ _ = false

abbrev pub same_reference : ArtifactReference → ArtifactReference → Bool
same_reference a b =
    (a.artifact_type == b.artifact_type)
    && (a.artifact_id == b.artifact_id)
    && same_schema a.schema_id b.schema_id
    && (a.schema_version == b.schema_version)
    && (a.sha256 == b.sha256)

-- effective_on is not None and recheck_due_on is not None and effective_on <= day < recheck_due_on
abbrev pub is_current : SourceApproval → ℕ → Bool
is_current a day = elim a.effective_on [
  | none ↦ false
  | some from ↦ elim a.recheck_due_on [ none ↦ false | some until ↦ leb from day && ltb day until ]
]

-- The supported offline subset.
abbrev pub is_supported : SourceBinding → Bool
is_supported b =
    let a = b.approval in
    let p = b.profile in
    b.factory_token
    && is_approved a.status
    && a.online_use_allowed
    && p.enabled
    && is_current a b.evaluation_date
    && (p.source_id == a.source_id)
    && same_status p.source_approval_status a.status
    && same_alias p.credential_scope_alias a.credential_scope_alias
    && same_reference p.source_approval_reference b.approval_reference
    && (b.profile_reference.artifact_id == p.artifact_id)
    && (b.approval_reference.artifact_id == a.artifact_id)
    && (p.max_concurrency == 1)
    && (p.burst == 1)
    && not p.cache_enabled
    && is_unsupported p.batch_support_status
    && is_unsupported p.max_batch_size.knowledge_status
    && not (is_known p.default_cooldown_seconds.knowledge_status)
    && not p.direct_connection_fallback_allowed

-- int(count), where the value is an int
abbrev pub int_of : Option Number → Option ℕ
int_of (some (int n)) = some n
int_of _ = none

-- `SourceBinding.limits`; none is `ValueError`
unfoldable pub limits : SourceBinding → Option Limits
limits b =
    let p = b.profile in
    if is_supported b
    then elim (positive p.min_interval_seconds Measure.second) [
      | none ↦ none
      | some interval ↦ elim (positive p.rate_window_seconds Measure.second) [
        | none ↦ none
        | some window ↦ elim (positive p.rate_requests Measure.request) [
          | none ↦ none
          | some _ ↦ elim (int_of p.rate_requests.value) [
            | none ↦ none
            | some count ↦ some (record {
              min_interval = interval;
              rate_requests = count;
              rate_window = window;
              cooldown_status = p.default_cooldown_seconds.knowledge_status;
            })
          ]
        ]
      ]
    ]
    else none

-- isinstance(model, SourceProfileV1), isinstance(model, SourceApprovalV1)
abbrev pub as_profile : Model → Option SourceProfile
as_profile (profile_model p) = some p
as_profile _ = none

abbrev pub as_approval : Model → Option SourceApproval
as_approval (approval_model a) = some a
as_approval _ = none

abbrev pub is_selected : Identifier → ℕ → ℕ → SourceProfile → Bool
is_selected source profile_version policy_version p =
    (p.source_id == source)
    && (p.profile_version == profile_version)
    && (p.policy_version == policy_version)

abbrev pub profiles_of : Identifier → ℕ → ℕ → List Artifact → List (SourceProfile × Identifier)
profiles_of source profile_version policy_version [] = []
profiles_of source profile_version policy_version (item ∷ items) =
    let rest = profiles_of source profile_version policy_version items in
    elim (as_profile item.model) [
      | none ↦ rest
      | some p ↦
          if is_selected source profile_version policy_version p
          then (p, item.sha256) ∷ rest
          else rest
    ]

abbrev pub approvals_of : Identifier → List Artifact → List (SourceApproval × Identifier)
approvals_of id [] = []
approvals_of id (item ∷ items) =
    let rest = approvals_of id items in
    elim (as_approval item.model) [
      | none ↦ rest
      | some a ↦ if a.artifact_id == id then (a, item.sha256) ∷ rest else rest
    ]

-- if len(xs) != 1: raise ValueError
abbrev pub only {ℓ} : {A : Type ℓ} → List A → Option A
only (x ∷ []) = some x
only _ = none

-- The names of the two artifact types in a reference.
abbrev pub approval_type : Identifier
approval_type = 1

abbrev pub profile_type : Identifier
profile_type = 2

abbrev pub binding_of : SourceApproval × Identifier → SourceProfile × Identifier → ℕ → SourceBinding
binding_of (a, a_sha256) (p, p_sha256) day = record {
  approval = a;
  profile = p;
  approval_reference = record {
    artifact_type = approval_type;
    artifact_id = a.artifact_id;
    schema_id = a.schema_id;
    schema_version = a.schema_version;
    sha256 = a_sha256;
  };
  profile_reference = record {
    artifact_type = profile_type;
    artifact_id = p.artifact_id;
    schema_id = p.schema_id;
    schema_version = p.schema_version;
    sha256 = p_sha256;
  };
  evaluation_date = day;
  factory_token = true;
}

abbrev pub checked : SourceBinding → Option SourceBinding
checked b = if is_some (limits b) then some b else none

-- `bind_source`; none is `AttemptResult("rejected", "invalid_source_binding")`
unfoldable pub bind_source : List Artifact → Identifier → ℕ → ℕ → ℕ → Option SourceBinding
unfolding limits validate_approval validate_profile
bind_source artifacts source profile_version policy_version day =
    elim (only (profiles_of source profile_version policy_version artifacts)) [
      | none ↦ none
      | some (p, p_sha256) ↦
          if validate_profile p
          then elim (only (approvals_of p.source_approval_reference.artifact_id artifacts)) [
            | none ↦ none
            | some (a, a_sha256) ↦
                if validate_approval a
                then checked (binding_of (a, a_sha256) (p, p_sha256) day)
                else none
          ]
          else none
    ]
