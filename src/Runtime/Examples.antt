-- ===== src/Runtime/Examples.antt =====
-- A small database of requests/storage.py, on which the properties are applied.
mod Leases
mod Queues
mod Attempted
mod Histories
mod Recoveries
use system_trade_with_llm_or.Prelude.{Bool, true, false, Option, none, some, List, [], ◌∷◌}
use system_trade_with_llm_or.Schema.{
  Database, Identifier, Instant, LogicalRequest, PhysicalAttempt, LogicalResult, LeaseRow,
  QueueEntry, Flight, Consumer, RawIntent, RawPublication, Gate, AdmissionEvent, empty_database,
}
use system_trade_with_llm_or.Schema.States.{
  LogicalState, AttemptState, Outcome, QueueState, FlightState, Role, ConsumerState, CacheDecision,
  RawState, GateScope, AdmissionEventType,
}
use system_trade_with_llm_or.Lease.{RuntimeLease, LeasePolicy, fresh_row, fresh_lease}
use system_trade_with_llm_or.Queue.{QueuePolicy}
use system_trade_with_llm_or.Gates.Policy.{GateLimit, GatePolicy, GateKeys}
use system_trade_with_llm_or.Gates.Acquire.{NewAttempt}
use system_trade_with_llm_or.Publications.{RawReference}

abbrev pub lease_policy : LeasePolicy
lease_policy = record { lease_duration_seconds = 30; heartbeat_interval_seconds = 10 }

abbrev pub lease : RuntimeLease
lease = fresh_lease 77 2 0 lease_policy

abbrev pub request : Identifier → Identifier → Instant → LogicalRequest
request id task created = record {
  logical_request_id = id;
  task_id = task;
  source_id = 3;
  operation = 4;
  request_fingerprint = 900;
  source_approval_version = 1;
  source_profile_version = 1;
  credential_scope_alias = none;
  egress_scope = 5;
  created_at = created;
  state = LogicalState.queued;
}

abbrev pub entry : Identifier → Identifier → Instant → QueueState → QueueEntry
entry id task enqueued state = record {
  logical_request_id = id;
  rate_domain = 50;
  task_id = task;
  enqueued_at = enqueued;
  state = state;
  dequeued_at = none;
}

-- Three requests wait, of the tasks 7, 7 and 8; the owner's lease is active.
abbrev pub waiting_three : Database
waiting_three = record empty_database {
  logical_requests = request 1 7 10 ∷ request 2 7 20 ∷ request 3 8 30 ∷ [];
  runtime_lease = some (fresh_row 77 2 0 lease_policy);
  queue_entries =
      entry 2 7 20 QueueState.queued
      ∷ entry 1 7 10 QueueState.queued
      ∷ entry 3 8 30 QueueState.queued
      ∷ [];
  provider_queue_cursors = record { rate_domain = 50; last_task_id = 6 } ∷ [];
}

abbrev pub queue_policy : QueuePolicy
queue_policy = record { global_limit = 4; rate_domain_limit = 4; task_rate_domain_limit = 3 }

-- The first request has been claimed.
abbrev pub claimed_one : Database
claimed_one = record waiting_three {
  queue_entries =
      entry 2 7 20 QueueState.queued
      ∷ entry 1 7 10 QueueState.dequeued
      ∷ entry 3 8 30 QueueState.queued
      ∷ [];
}

abbrev pub gate_policy : GatePolicy
gate_policy scope = record {
  max_concurrency = 1;
  min_interval = 0;
  requests_per_window = 5;
  window = 60000000;
}

abbrev pub keys : GateKeys
keys = record {
  global_key = 60;
  egress = 61;
  provider = 62;
  origin = 63;
  credential = 64;
  operation = 65;
  task = 66;
  role = 67;
}

abbrev pub new_attempt : NewAttempt
new_attempt = record {
  physical_attempt_id = 500;
  logical_request_id = 1;
  sequence_number = 1;
  lease_generation = 2;
  created_at = 40;
}

-- The provider's gate cools down.
abbrev pub cooling : Database
cooling = record claimed_one {
  gate_state =
      record {
        scope = GateScope.provider;
        key_alias = 62;
        active_count = 0;
        last_started_at = some 5;
        cooldown_until = some 5000;
      }
      ∷ [];
}

abbrev pub attempt : AttemptState → PhysicalAttempt
attempt state = record {
  physical_attempt_id = 500;
  logical_request_id = 1;
  sequence_number = 1;
  lease_generation = 2;
  created_at = 40;
  state = state;
  raw_eligible = true;
}

abbrev pub consumer : Identifier → Role → Consumer
consumer id role = record {
  logical_request_id = id;
  request_fingerprint = 900;
  role = role;
  state = ConsumerState.active;
  cache_decision = CacheDecision.not_applicable;
  rate_domain = 50;
  joined_at = 10;
  result_owner_id = none;
}

abbrev pub joined : Identifier → AdmissionEventType → AdmissionEvent
joined id event = record {
  logical_request_id = id;
  event_type = event;
  occurred_at = 10;
  reason = none;
}

-- The first request leads a flight that the second one follows, and its attempt has succeeded.
abbrev pub flying : Database
flying = record claimed_one {
  physical_attempts = attempt AttemptState.succeeded ∷ [];
  single_flights =
      record {
        request_fingerprint = 900;
        leader_logical_request_id = 1;
        state = FlightState.active;
      }
      ∷ [];
  single_flight_consumers = consumer 1 Role.leader ∷ consumer 2 Role.follower ∷ [];
  admission_events =
      joined 1 AdmissionEventType.single_flight_leader
      ∷ joined 2 AdmissionEventType.single_flight_follower
      ∷ [];
}

abbrev pub success : LogicalResult
success = record {
  logical_request_id = 1;
  outcome = Outcome.succeeded;
  completed_at = 100;
  error_code = none;
}

abbrev pub intent : RawIntent
intent = record {
  publication_id = 700;
  task_id = 7;
  logical_request_id = 1;
  physical_attempt_id = 500;
  source_id = 3;
  operation = 4;
  content_sha256 = 12345;
  byte_count = 2048;
  media_type = "text/csv";
  encoding = "utf-8";
  raw_schema_id = 8;
  raw_schema_version = 1;
  publication_generation = 1;
}

abbrev pub reference : RawReference
reference = record {
  publication_id = 700;
  task_id = 7;
  logical_request_id = 1;
  physical_attempt_id = 500;
  relative_path = "acquisitions/1/500";
  content_sha256 = 12345;
  byte_count = 2048;
  raw_schema_id = 8;
  raw_schema_version = 1;
  publication_generation = 1;
}

abbrev pub staged : RawPublication
staged = record {
  intent = intent;
  relative_path = none;
  state = RawState.staging;
  created_at = 90;
  committed_at = none;
}

abbrev pub published : RawPublication
published = record staged {
  relative_path = some "acquisitions/1/500";
  state = RawState.committed;
  committed_at = some 95;
}
