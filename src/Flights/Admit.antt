-- ===== src/Flights/Admit.antt =====
-- `admit_logical_request`, with `ProductionCachePolicy` and `AdmissionDecision`.
use system_trade_with_llm_or.Prelude.{
  Bool, true, false, Option, none, some, List, [], ◌∷◌, ◌++◌, not, ◌&&◌, ◌==◌, if◌then◌else◌,
  update_where, any,
}
use system_trade_with_llm_or.Schema.{
  Database, Identifier, Instant, Reason, LogicalRequest, Flight, Consumer,
}
use system_trade_with_llm_or.Schema.States.{
  Outcome, QueueEventType, FlightState, Role, ConsumerState, CacheDecision, AdmissionEventType,
  is_flying,
}
use system_trade_with_llm_or.Schema.Codes.{
  single_flight_state_inconsistent, single_flight_scope_mismatch, request_admission_failed,
}
use system_trade_with_llm_or.Tables.{has_request, consumer_of}
use system_trade_with_llm_or.Tx.{
  insert_if, Tx, Operation, pure, gets, modify, raise_if, when, ◌>>=◌, ◌>>◌,
}
use system_trade_with_llm_or.Lease.{RuntimeLease, fenced}
use system_trade_with_llm_or.Requests.{
  insert_logical_request, append_queue_event, append_admission_event, cancel_logical,
}
use system_trade_with_llm_or.Queue.{
  QueuePolicy, is_full, insert_entry, new_entry, rejection, raise_rejected,
}
use system_trade_with_llm_or.Flights.Results.{end_flight, consumes}
use system_trade_with_llm_or.Flights.Reconcile.{reconcile_terminal_flights}

pub record AdmissionDecision : Type 0 where
  pub logical_request_id : Identifier
  pub cache_decision : CacheDecision
  pub single_flight_decision : Role
  pub leader_logical_request_id : Identifier

-- The cache is never enabled: the policy says only whether it would apply.
abbrev pub cache_decision_of : Bool → CacheDecision
cache_decision_of true = CacheDecision.disabled
cache_decision_of false = CacheDecision.not_applicable

abbrev pub cache_event : CacheDecision → AdmissionEventType
cache_event CacheDecision.disabled = AdmissionEventType.cache_disabled
cache_event CacheDecision.not_applicable = AdmissionEventType.cache_not_applicable

abbrev pub role_event : Role → AdmissionEventType
role_event Role.leader = AdmissionEventType.single_flight_leader
role_event Role.follower = AdmissionEventType.single_flight_follower

-- The active flight of a fingerprint whose leader has a consumer row, with that row's domain.
abbrev pub flight_row : Database → Identifier → List Flight → Option (Identifier × Identifier)
flight_row db fingerprint [] = none
flight_row db fingerprint (f ∷ fs) =
    let later = flight_row db fingerprint fs in
    if (f.request_fingerprint == fingerprint) && is_flying f.state
    then elim (consumer_of db f.leader_logical_request_id) [
      | none ↦ later
      | some c ↦ some (f.leader_logical_request_id, c.rate_domain)
    ]
    else later

-- INSERT INTO single_flights … ON CONFLICT DO UPDATE … WHERE state = 'terminal'
abbrev pub take_off : Identifier → Identifier → List Flight → List Flight
take_off fingerprint leader [] =
    record {
      request_fingerprint = fingerprint;
      leader_logical_request_id = leader;
      state = FlightState.active;
    }
    ∷ []
take_off fingerprint leader (f ∷ fs) =
    if f.request_fingerprint == fingerprint
    then (if is_flying f.state
        then f
        else record f { leader_logical_request_id = leader; state = FlightState.active })
      ∷ fs
    else f ∷ take_off fingerprint leader fs

-- INSERT INTO single_flight_consumers
unfoldable pub insert_consumer : Consumer → Tx (Unit {0})
insert_consumer c =
    insert_if
      (λ db.
        not (any (λ d. d.logical_request_id == c.logical_request_id) db.single_flight_consumers)
        && has_request db c.logical_request_id
        && any (λ f. f.request_fingerprint == c.request_fingerprint) db.single_flights)
      (λ db. record db { single_flight_consumers = db.single_flight_consumers ++ c ∷ [] })

unfoldable pub launch : Identifier → Identifier → Tx (Unit {0})
launch fingerprint leader =
    modify (λ db. record db { single_flights = take_off fingerprint leader db.single_flights })

-- The role that the request takes, and its leader.
unfoldable pub join_flight :
    LogicalRequest → Identifier → Option (Identifier × Identifier) → Tx (Role × Identifier)
join_flight request domain none = do
  orphaned ← gets (λ db. any (consumes request.request_fingerprint) db.single_flight_consumers)
  raise_if orphaned single_flight_state_inconsistent
  launch request.request_fingerprint request.logical_request_id
  pure (Role.leader, request.logical_request_id)
join_flight request domain (some (leader, leader_domain)) = do
  raise_if (not (leader_domain == domain)) single_flight_scope_mismatch
  pure (Role.follower, leader)

-- UPDATE single_flight_consumers SET state = 'cancelled' WHERE logical_request_id = ?
unfoldable pub cancel_consumer : Identifier → Tx (Unit {0})
cancel_consumer id = modify (λ db. record db {
  single_flight_consumers =
      update_where (λ c. c.logical_request_id == id)
        (λ c. record c { state = ConsumerState.cancelled }) db.single_flight_consumers;
})

-- Only a leader is queued; whether the queue refused it.
unfoldable pub queue_leader : Role → LogicalRequest → Identifier → Instant → QueuePolicy → Tx Bool
queue_leader Role.follower request domain now policy = pure false
queue_leader Role.leader request domain now policy = do
  rejected ← gets (λ db. is_full policy domain request.task_id db.queue_entries)
  insert_entry (new_entry request domain now (rejection request rejected))
  append_queue_event request.logical_request_id QueueEventType.requested now none
  when rejected do
    cancel_logical request.logical_request_id now Reason.queue_full Outcome.failed
    end_flight request.request_fingerprint
    cancel_consumer request.logical_request_id
    append_queue_event request.logical_request_id QueueEventType.rejected now
        (some Reason.queue_full)
  when (not rejected) (append_queue_event request.logical_request_id QueueEventType.queued now none)
  pure rejected

unfoldable pub admit_block :
    LogicalRequest → Identifier → Bool → Instant → QueuePolicy → Tx (Bool × AdmissionDecision)
admit_block request domain applicable now policy = do
  insert_logical_request request
  append_admission_event request.logical_request_id (cache_event (cache_decision_of applicable)) now
      none
  reconcile_terminal_flights now (some request.request_fingerprint)
  flight ← gets (λ db. flight_row db request.request_fingerprint db.single_flights)
  joined ← join_flight request domain flight
  insert_consumer (record {
    logical_request_id = request.logical_request_id;
    request_fingerprint = request.request_fingerprint;
    role = joined.0;
    state = ConsumerState.active;
    cache_decision = cache_decision_of applicable;
    rate_domain = domain;
    joined_at = now;
    result_owner_id = none;
  })
  append_admission_event request.logical_request_id (role_event joined.0) now
      (some (Reason.given joined.1))
  rejected ← queue_leader joined.0 request domain now policy
  pure (
    rejected,
    record {
      logical_request_id = request.logical_request_id;
      cache_decision = cache_decision_of applicable;
      single_flight_decision = joined.0;
      leader_logical_request_id = joined.1;
    },
  )

unfoldable pub admit_logical_request :
    LogicalRequest
    → Identifier
    → Bool
    → RuntimeLease
    → Instant
    → QueuePolicy
    → Operation AdmissionDecision
admit_logical_request request domain applicable lease now policy db = raise_rejected (
    fenced request_admission_failed lease now (admit_block request domain applicable now policy) db)
