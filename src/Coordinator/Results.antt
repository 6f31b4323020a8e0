-- ===== src/Coordinator/Results.antt =====
-- What an attempt receives and returns: `TransportResponse` and `AttemptResult` of
-- requests/models.py, and the events of `Coordinator.attempt`.
use system_trade_with_llm_or.Prelude.{
  ℕ, Bool, true, false, Option, none, some, List, [], ◌∷◌, not, ◌&&◌, leb, if◌then◌else◌, is_some,
}
use system_trade_with_llm_or.Schema.{Identifier, Instant}
use system_trade_with_llm_or.Sources.{Number, micros}
use system_trade_with_llm_or.Sources.Binding.{SourceBinding}
use system_trade_with_llm_or.Coordinator.Events.{
  EventType, Observability, CacheDecision, FlightDecision, RequestOutcome, Reason, RequestError,
  CoordinatorRequest, fingerprint, GateResult, Event, validate_event,
}
use system_trade_with_llm_or.Coordinator.Gates.{Domain}

pub data Category : Type 0 where
  ok provider_error rate_limited : Category

-- `TransportResponse`; a payload is its handle.
pub record TransportResponse : Type 0 where
  pub succeeded : Bool
  pub payload : Option Identifier
  pub status_category : Category
  pub retry_after_seconds : Option Number

abbrev pub is_ok : Category → Bool
is_ok Category.ok = true
is_ok _ = false

abbrev is_valid_retry : Option Number → Bool
is_valid_retry none = true
is_valid_retry (some n) = is_some (micros n)

-- `TransportResponse.is_valid`
unfoldable pub is_valid : TransportResponse → Bool
is_valid r =
    is_valid_retry r.retry_after_seconds
    && (if r.succeeded
        then is_some r.payload && is_ok r.status_category && not (is_some r.retry_after_seconds)
        else not (is_some r.payload) && not (is_ok r.status_category))

-- What `transport.send` does: it raises, gives something that is no `TransportResponse`, or one.
pub data Reply : Type 0 where
  raises malformed : Reply
  replies : TransportResponse → Reply

pub data Status : Type 0 where
  succeeded failed blocked rejected : Status

-- `AttemptResult`
pub record AttemptResult : Type 0 where
  pub status : Status
  pub reason_code : Reason
  pub payload : Option Identifier
  pub retry_after : Option ℕ
  pub events : List Event

abbrev pub reject : Reason → AttemptResult
reject reason = record {
  status = Status.rejected;
  reason_code = reason;
  payload = none;
  retry_after = none;
  events = [];
}

-- An attempt that is about to send: what `attempt` has in its variables.
pub record Ticket : Type 0 where
  pub request : CoordinatorRequest
  pub binding : SourceBinding
  pub domain : Domain
  pub now : ℕ
  pub utc : Instant
  pub gates : List GateResult
  pub event_id : ℕ → Identifier
  pub physical : Option Identifier

abbrev pub rate_domain : Ticket → Identifier
rate_domain t = t.binding.profile.rate_domain

-- index >= 2
abbrev pub from_two {ℓ} : {A : Type ℓ} → ℕ → Option A → Option A
from_two index a = if leb 2 index then a else none

-- The body of `event`, before its contract is checked.
abbrev pub draft : Ticket → ℕ → EventType → RequestOutcome → Option RequestError → Instant → Event
draft t index kind outcome error timestamp = record {
  event_id = t.event_id index;
  occurred_at = timestamp;
  event_type = kind;
  task_id = t.request.task_id;
  logical_request_id = t.request.logical_request_id;
  physical_attempt_id = from_two index t.physical;
  observability = Observability.physical_request;
  consumer_role = t.request.consumer_role;
  provider = rate_domain t;
  operation = t.request.operation;
  origin = t.request.origin;
  credential_scope_alias = t.binding.profile.credential_scope_alias;
  source_approval_reference = t.binding.approval_reference;
  source_profile_reference = t.binding.profile_reference;
  request_fingerprint = fingerprint t.binding t.request;
  cache_decision = CacheDecision.not_applicable;
  cache_artifact_reference = none;
  single_flight_decision = FlightDecision.not_applicable;
  leader_logical_request_id = none;
  queue_wait_ms = 0;
  gate_results = if leb 1 index then t.gates else [];
  outcome = outcome;
  error = error;
  usage = [];
}

abbrev pub collect : List Event → Option (List Event)
collect [] = some []
collect (e ∷ es) =
    let rest = collect es in
    if validate_event e then elim rest [ none ↦ none | some xs ↦ some (e ∷ xs) ] else none

-- The events before the gates' outcome is known, and the one of the start.
abbrev pub logged : Ticket → List Event
logged t =
    draft t 0 EventType.logical_requested RequestOutcome.pending none t.utc
    ∷ draft t 1 EventType.gates_evaluated RequestOutcome.pending none t.utc
    ∷ []

abbrev pub started : Ticket → Event
started t = draft t 2 EventType.physical_started RequestOutcome.pending none t.utc
