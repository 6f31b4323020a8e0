-- ===== src/Schema.antt =====
-- requests/storage.py, `_create_schema`: the tables of the runtime database, and the row types and
-- closed vocabularies that requests/production.py and the CHECK constraints fix for them.
-- Identifiers, hashes and instants are only compared for equality and order, so they are
-- naturals; an instant counts microseconds, and `isoformat` of UTC datetimes keeps that order.
pub mod States
pub mod Codes
use system_trade_with_llm_or.Prelude.{ℕ, Bool, Option, none, some, List, [], String}
use States.{
  LogicalState, AttemptState, Outcome, QueueState, ReservationState, FlightState, Role,
  ConsumerState, CacheDecision, RawState, GateScope, BlockReason, QueueEventType, GateEventType,
  AdmissionEventType,
}

abbrev pub Identifier : Type 0
Identifier = ℕ

abbrev pub Instant : Type 0
Instant = ℕ

-- The `reason` and `error_code` columns: a literal of the code, or an identifier that is passed in.
pub data Reason : Type 0 where
  queue_full leader_promoted owner_interrupted owner_interrupted_between_attempts : Reason
  leader_cancelled in_flight_cancelled retry_after : Reason
  blocked : BlockReason → Reason
  outcome : AttemptState → Reason
  given : Identifier → Reason

-- logical_requests, and `ProductionLogicalRequest`
pub record LogicalRequest : Type 0 where
  pub logical_request_id : Identifier
  pub task_id : Identifier
  pub source_id : Identifier
  pub operation : Identifier
  pub request_fingerprint : Identifier
  pub source_approval_version : ℕ
  pub source_profile_version : ℕ
  pub credential_scope_alias : Option Identifier
  pub egress_scope : Identifier
  pub created_at : Instant
  pub state : LogicalState

-- physical_attempts, and `ProductionPhysicalAttempt`, whose state is always `reserved`
pub record PhysicalAttempt : Type 0 where
  pub physical_attempt_id : Identifier
  pub logical_request_id : Identifier
  pub sequence_number : ℕ
  pub lease_generation : ℕ
  pub created_at : Instant
  pub state : AttemptState
  pub raw_eligible : Bool

-- logical_results, and `ProductionLogicalResult`
pub record LogicalResult : Type 0 where
  pub logical_request_id : Identifier
  pub outcome : Outcome
  pub completed_at : Instant
  pub error_code : Option Reason

-- the single row of runtime_lease
pub record LeaseRow : Type 0 where
  pub owner_token : Identifier
  pub generation : ℕ
  pub acquired_at : Instant
  pub heartbeat_at : Instant
  pub expires_at : Instant
  pub active : Bool

pub record QueueEntry : Type 0 where
  pub logical_request_id : Identifier
  pub rate_domain : Identifier
  pub task_id : Identifier
  pub enqueued_at : Instant
  pub state : QueueState
  pub dequeued_at : Option Instant

-- provider_queue_cursors
pub record Cursor : Type 0 where
  pub rate_domain : Identifier
  pub last_task_id : Identifier

pub record QueueEvent : Type 0 where
  pub logical_request_id : Identifier
  pub event_type : QueueEventType
  pub occurred_at : Instant
  pub reason : Option Reason

-- gate_state
pub record Gate : Type 0 where
  pub scope : GateScope
  pub key_alias : Identifier
  pub active_count : ℕ
  pub last_started_at : Option Instant
  pub cooldown_until : Option Instant

-- gate_reservations
pub record Reservation : Type 0 where
  pub reservation_id : Identifier
  pub physical_attempt_id : Identifier
  pub logical_request_id : Identifier
  pub lease_generation : ℕ
  pub acquired_at : Instant
  pub state : ReservationState

-- gate_reservation_scopes
pub record ReservationScope : Type 0 where
  pub reservation_id : Identifier
  pub scope : GateScope
  pub key_alias : Identifier

-- gate_starts
pub record GateStart : Type 0 where
  pub reservation_id : Identifier
  pub scope : GateScope
  pub key_alias : Identifier
  pub started_at : Instant

pub record GateEvent : Type 0 where
  pub logical_request_id : Identifier
  pub reservation_id : Option Identifier
  pub scope : Option GateScope
  pub key_alias : Option Identifier
  pub event_type : GateEventType
  pub occurred_at : Instant
  pub reason : Option Reason

-- single_flights
pub record Flight : Type 0 where
  pub request_fingerprint : Identifier
  pub leader_logical_request_id : Identifier
  pub state : FlightState

-- single_flight_consumers
pub record Consumer : Type 0 where
  pub logical_request_id : Identifier
  pub request_fingerprint : Identifier
  pub role : Role
  pub state : ConsumerState
  pub cache_decision : CacheDecision
  pub rate_domain : Identifier
  pub joined_at : Instant
  pub result_owner_id : Option Identifier

pub record AdmissionEvent : Type 0 where
  pub logical_request_id : Identifier
  pub event_type : AdmissionEventType
  pub occurred_at : Instant
  pub reason : Option Reason

-- `RawPublicationIntent`
pub record RawIntent : Type 0 where
  pub publication_id : Identifier
  pub task_id : Identifier
  pub logical_request_id : Identifier
  pub physical_attempt_id : Identifier
  pub source_id : Identifier
  pub operation : Identifier
  pub content_sha256 : Identifier
  pub byte_count : ℕ
  pub media_type : String
  pub encoding : String
  pub raw_schema_id : Identifier
  pub raw_schema_version : ℕ
  pub publication_generation : ℕ

-- raw_publications: the columns of the intent, and those that the lifecycle writes
pub record RawPublication : Type 0 where
  pub intent : RawIntent
  pub relative_path : Option String
  pub state : RawState
  pub created_at : Instant
  pub committed_at : Option Instant

-- What `_verify_schema` reads of the file: the version pragma, the metadata row as its owner's
-- match and its version, and the verdict of SQLite's `quick_check`.
pub record SchemaInfo : Type 0 where
  pub user_version : ℕ
  pub metadata : Option (Bool × ℕ)
  pub quick_check_ok : Bool

pub record Database : Type 0 where
  pub schema : SchemaInfo
  pub logical_requests : List LogicalRequest
  pub physical_attempts : List PhysicalAttempt
  pub logical_results : List LogicalResult
  pub runtime_lease : Option LeaseRow
  pub queue_entries : List QueueEntry
  pub provider_queue_cursors : List Cursor
  pub queue_events : List QueueEvent
  pub gate_state : List Gate
  pub gate_reservations : List Reservation
  pub gate_reservation_scopes : List ReservationScope
  pub gate_starts : List GateStart
  pub gate_events : List GateEvent
  pub single_flights : List Flight
  pub single_flight_consumers : List Consumer
  pub admission_events : List AdmissionEvent
  pub raw_publications : List RawPublication

abbrev pub schema_version : ℕ
schema_version = 8

-- The tables as `_create_schema` leaves them.
abbrev pub empty_database : Database
empty_database = record {
  schema = record { user_version = 8; metadata = some (Bool.true, 8); quick_check_ok = Bool.true };
  logical_requests = [];
  physical_attempts = [];
  logical_results = [];
  runtime_lease = none;
  queue_entries = [];
  provider_queue_cursors = [];
  queue_events = [];
  gate_state = [];
  gate_reservations = [];
  gate_reservation_scopes = [];
  gate_starts = [];
  gate_events = [];
  single_flights = [];
  single_flight_consumers = [];
  admission_events = [];
  raw_publications = [];
}
