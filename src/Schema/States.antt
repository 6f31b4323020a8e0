-- ===== src/Schema/States.antt =====
-- The closed vocabularies of the columns: the enumerations of requests/production.py, `GateScope`
-- of the external-request contract, and the CHECK constraints of requests/storage.py.
use system_trade_with_llm_or.Prelude.{ℕ, Bool, true, false, ◌==◌}

pub data LogicalState : Type 0 where
  queued cancelled succeeded failed : LogicalState

pub data AttemptState : Type 0 where
  reserved started succeeded failed unknown : AttemptState

pub data Outcome : Type 0 where
  succeeded failed cancelled unknown : Outcome

pub data QueueState : Type 0 where
  queued dequeued rejected cancelled : QueueState

pub data ReservationState : Type 0 where
  active released recovered : ReservationState

pub data FlightState : Type 0 where
  active terminal : FlightState

pub data Role : Type 0 where
  leader follower : Role

pub data ConsumerState : Type 0 where
  active cancelled completed : ConsumerState

pub data CacheDecision : Type 0 where
  disabled not_applicable : CacheDecision

pub data RawState : Type 0 where
  staging committed reconciliation_required failed : RawState

pub data GateScope : Type 0 where
  global egress provider origin credential operation task role : GateScope

-- Why a gate refuses a start.
pub data BlockReason : Type 0 where
  cooldown concurrency minimum_interval rolling_window : BlockReason

pub data QueueEventType : Type 0 where
  requested queued dequeued rejected : QueueEventType

pub data GateEventType : Type 0 where
  cooldown blocked acquired released recovered : GateEventType

pub data AdmissionEventType : Type 0 where
  cache_disabled cache_not_applicable single_flight_leader single_flight_follower :
      AdmissionEventType
  follower_cancelled leader_promoted leader_cancelled : AdmissionEventType
  single_flight_completed in_flight_cancelled : AdmissionEventType

-- The position of a scope's name in the order of texts, by which ORDER BY scope sorts.
abbrev pub scope_rank : GateScope → ℕ
scope_rank GateScope.credential = 0
scope_rank GateScope.egress = 1
scope_rank GateScope.global = 2
scope_rank GateScope.operation = 3
scope_rank GateScope.origin = 4
scope_rank GateScope.provider = 5
scope_rank GateScope.role = 6
scope_rank GateScope.task = 7

abbrev pub same_scope : GateScope → GateScope → Bool
same_scope a b = scope_rank a == scope_rank b

-- state = 'queued' on logical_requests
abbrev pub is_open : LogicalState → Bool
is_open LogicalState.queued = true
is_open _ = false

abbrev pub is_reserved : AttemptState → Bool
is_reserved AttemptState.reserved = true
is_reserved _ = false

abbrev pub is_started : AttemptState → Bool
is_started AttemptState.started = true
is_started _ = false

abbrev pub is_unknown : AttemptState → Bool
is_unknown AttemptState.unknown = true
is_unknown _ = false

abbrev pub is_succeeded : AttemptState → Bool
is_succeeded AttemptState.succeeded = true
is_succeeded _ = false

-- state IN ('reserved', 'started')
abbrev pub is_live : AttemptState → Bool
is_live AttemptState.reserved = true
is_live AttemptState.started = true
is_live _ = false

-- state IN ('succeeded', 'failed', 'unknown')
abbrev pub is_finished : AttemptState → Bool
is_finished AttemptState.succeeded = true
is_finished AttemptState.failed = true
is_finished AttemptState.unknown = true
is_finished _ = false

-- state IN ('succeeded', 'failed')
abbrev pub has_response : AttemptState → Bool
has_response AttemptState.succeeded = true
has_response AttemptState.failed = true
has_response _ = false

abbrev pub is_waiting : QueueState → Bool
is_waiting QueueState.queued = true
is_waiting _ = false

abbrev pub is_dequeued : QueueState → Bool
is_dequeued QueueState.dequeued = true
is_dequeued _ = false

abbrev pub is_held : ReservationState → Bool
is_held ReservationState.active = true
is_held _ = false

abbrev pub is_released : ReservationState → Bool
is_released ReservationState.released = true
is_released _ = false

abbrev pub is_flying : FlightState → Bool
is_flying FlightState.active = true
is_flying _ = false

abbrev pub is_leader : Role → Bool
is_leader Role.leader = true
is_leader Role.follower = false

abbrev pub is_consuming : ConsumerState → Bool
is_consuming ConsumerState.active = true
is_consuming _ = false

abbrev pub is_completed : ConsumerState → Bool
is_completed ConsumerState.completed = true
is_completed _ = false

abbrev pub is_staging : RawState → Bool
is_staging RawState.staging = true
is_staging _ = false

abbrev pub is_committed : RawState → Bool
is_committed RawState.committed = true
is_committed _ = false

-- state IN ('staging', 'reconciliation_required')
abbrev pub is_pending : RawState → Bool
is_pending RawState.staging = true
is_pending RawState.reconciliation_required = true
is_pending _ = false
