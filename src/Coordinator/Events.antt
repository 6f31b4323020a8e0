-- ===== src/Coordinator/Events.antt =====
-- `ExternalRequestEventV1` of contracts/detailed_analysis/v1/external_requests.py with its
-- validator, and `CoordinatorRequest` and `SourceBinding.fingerprint` of requests/models.py.
use system_trade_with_llm_or.Prelude.{ℕ, Bool, true, false, Option, List, not, ◌&&◌, any, is_some}
use system_trade_with_llm_or.Schema.{Identifier, Instant}
use system_trade_with_llm_or.Sources.{
  ArtifactReference, is_unique, is_source_approval, is_source_profile, implies,
}
use system_trade_with_llm_or.Sources.Binding.{SourceBinding}

pub data EventType : Type 0 where
  logical_requested cache_decided single_flight_decided queued gates_evaluated : EventType
  physical_started physical_succeeded physical_failed session_started : EventType
  cooldown_recorded cancelled : EventType

pub data Observability : Type 0 where
  physical_request agent_session_only : Observability

pub data Scope : Type 0 where
  global egress provider origin credential operation task role : Scope

pub data GateOutcome : Type 0 where
  acquired blocked cooldown : GateOutcome

pub data CacheDecision : Type 0 where
  not_applicable miss hit stale_rejected policy_rejected : CacheDecision

pub data FlightDecision : Type 0 where
  not_applicable leader follower : FlightDecision

pub data RequestOutcome : Type 0 where
  pending succeeded failed cancelled unknown : RequestOutcome

-- The `detail` of a gate's result.
pub data GateName : Type 0 where
  cooldown occupancy minimum_interval rolling_window : GateName

-- `RateGateResultV1`, whose `waited_ms` is 0
pub record GateResult : Type 0 where
  pub scope : Scope
  pub key_alias : Identifier
  pub outcome : GateOutcome
  pub detail : GateName

-- The reason codes of an `AttemptResult`, and the error classes of an event.
pub data Reason : Type 0 where
  ok invalid_source_binding conflicting_rate_domain rate_gate_blocked invalid_attempt_input : Reason
  transport_exception invalid_transport_response provider_error rate_limited : Reason
  invalid_response_clock_or_cooldown : Reason

-- `RequestErrorV1`, whose message and status code are fixed
pub record RequestError : Type 0 where
  pub error_class : Reason
  pub retry_after : Option ℕ
  pub cooldown_until : Option Instant

-- `CoordinatorRequest`
pub record CoordinatorRequest : Type 0 where
  pub task_id : Identifier
  pub consumer_role : Identifier
  pub operation : Identifier
  pub origin : Identifier
  pub resource_key : Identifier
  pub logical_request_id : Identifier
  pub applicable_period : Identifier
  pub freshness_identity : Identifier

-- What `fingerprint` hashes: the request without its own identifier, and the binding's versions.
-- It stands for its SHA-256, which the code only records.
pub record Fingerprint : Type 0 where
  pub task_id : Identifier
  pub consumer_role : Identifier
  pub operation : Identifier
  pub origin : Identifier
  pub resource_key : Identifier
  pub applicable_period : Identifier
  pub freshness_identity : Identifier
  pub source_id : Identifier
  pub approval : ArtifactReference
  pub profile : ArtifactReference
  pub profile_version : ℕ
  pub policy_version : ℕ
  pub credential_scope_alias : Option Identifier

abbrev pub fingerprint : SourceBinding → CoordinatorRequest → Fingerprint
fingerprint b r = record {
  task_id = r.task_id;
  consumer_role = r.consumer_role;
  operation = r.operation;
  origin = r.origin;
  resource_key = r.resource_key;
  applicable_period = r.applicable_period;
  freshness_identity = r.freshness_identity;
  source_id = b.profile.source_id;
  approval = b.approval_reference;
  profile = b.profile_reference;
  profile_version = b.profile.profile_version;
  policy_version = b.profile.policy_version;
  credential_scope_alias = b.profile.credential_scope_alias;
}

-- `ExternalRequestEventV1`; a usage metric is its name.
pub record Event : Type 0 where
  pub event_id : Identifier
  pub occurred_at : Instant
  pub event_type : EventType
  pub task_id : Identifier
  pub logical_request_id : Identifier
  pub physical_attempt_id : Option Identifier
  pub observability : Observability
  pub consumer_role : Identifier
  pub provider : Identifier
  pub operation : Identifier
  pub origin : Identifier
  pub credential_scope_alias : Option Identifier
  pub source_approval_reference : ArtifactReference
  pub source_profile_reference : ArtifactReference
  pub request_fingerprint : Fingerprint
  pub cache_decision : CacheDecision
  pub cache_artifact_reference : Option ArtifactReference
  pub single_flight_decision : FlightDecision
  pub leader_logical_request_id : Option Identifier
  pub queue_wait_ms : ℕ
  pub gate_results : List GateResult
  pub outcome : RequestOutcome
  pub error : Option RequestError
  pub usage : List Identifier

abbrev pub is_physical : EventType → Bool
is_physical EventType.physical_started = true
is_physical EventType.physical_succeeded = true
is_physical EventType.physical_failed = true
is_physical EventType.cooldown_recorded = true
is_physical _ = false

abbrev pub is_at_origin : Scope → Bool
is_at_origin Scope.origin = true
is_at_origin _ = false

abbrev pub is_hit : CacheDecision → Bool
is_hit CacheDecision.hit = true
is_hit _ = false

abbrev pub is_follower : FlightDecision → Bool
is_follower FlightDecision.follower = true
is_follower _ = false

abbrev pub is_failed : RequestOutcome → Bool
is_failed RequestOutcome.failed = true
is_failed _ = false

-- The branches by observability.
abbrev pub is_observable : Observability → Event → Bool
is_observable Observability.physical_request e =
    implies (is_physical e.event_type) (is_some e.physical_attempt_id)
is_observable Observability.agent_session_only e =
    not (is_some e.physical_attempt_id) && not (any (λ g. is_at_origin g.scope) e.gate_results)

abbrev pub iff : Bool → Bool → Bool
iff a b = implies a b && implies b a

-- `validate_request_event`
unfoldable pub validate_event : Event → Bool
validate_event e =
    is_source_approval e.source_approval_reference.schema_id
    && is_source_profile e.source_profile_reference.schema_id
    && is_observable e.observability e
    && iff (is_hit e.cache_decision) (is_some e.cache_artifact_reference)
    && iff (is_follower e.single_flight_decision) (is_some e.leader_logical_request_id)
    && iff (is_failed e.outcome) (is_some e.error)
    && is_unique e.usage
