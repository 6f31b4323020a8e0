-- ===== src/Flights/Results.antt =====
-- `_read_logical_result`, `_validate_attempt_outcome`, `_validate_finalization`,
-- `_finish_single_flight`, `complete_logical_request` and `finalize_logical_request`.
use system_trade_with_llm_or.Prelude.{
  Bool, true, false, Option, none, some, List, not, ◌&&◌, ◌||◌, ◌==◌, leb, update_where, any,
  select, order_by, last, is_some,
}
use system_trade_with_llm_or.Schema.{
  Database, Identifier, Instant, Reason, LogicalRequest, LogicalResult, PhysicalAttempt, QueueEntry,
  AdmissionEvent, Flight, Consumer,
}
use system_trade_with_llm_or.Schema.States.{
  Outcome, QueueState, FlightState, ConsumerState, AdmissionEventType, is_live, is_unknown,
  is_succeeded, is_waiting, is_flying, is_leader, is_consuming,
}
use system_trade_with_llm_or.Schema.Codes.{
  logical_request_has_active_attempt, logical_success_attempts_invalid,
  logical_unknown_attempt_missing, logical_request_not_active, single_flight_leader_required,
  single_flight_state_inconsistent, single_flight_audit_gap, single_flight_follower_has_attempt,
  logical_result_persistence_failed,
}
use system_trade_with_llm_or.Tables.{request_of, consumer_of, flight_of}
use system_trade_with_llm_or.Tx.{
  Tx, Operation, pure, gets, modify, raise_if, when, ◌>>=◌, ◌>>◌, for_each,
}
use system_trade_with_llm_or.Lease.{RuntimeLease, fenced}
use system_trade_with_llm_or.Requests.{persist_logical_result, append_admission_event}
use system_trade_with_llm_or.Attempts.{of_request, is_open_row}

abbrev pub by_sequence : PhysicalAttempt → PhysicalAttempt → Bool
by_sequence a b = leb a.sequence_number b.sequence_number

-- SELECT state FROM physical_attempts WHERE logical_request_id = ? ORDER BY sequence_number
abbrev pub attempts_of : Identifier → Database → List PhysicalAttempt
attempts_of id db = order_by by_sequence (select (of_request id) db.physical_attempts)

abbrev pub is_success : Outcome → Bool
is_success Outcome.succeeded = true
is_success _ = false

abbrev pub is_indeterminate : Outcome → Bool
is_indeterminate Outcome.unknown = true
is_indeterminate _ = false

abbrev pub ends_well : Option PhysicalAttempt → Bool
ends_well none = false
ends_well (some a) = is_succeeded a.state

-- `_validate_attempt_outcome`
unfoldable pub validate_attempt_outcome : LogicalResult → Tx (Unit {0})
validate_attempt_outcome result = do
  attempts ← gets (attempts_of result.logical_request_id)
  raise_if (any (λ a. is_live a.state) attempts) logical_request_has_active_attempt
  raise_if
      (is_success result.outcome
        && (not (ends_well (last attempts)) || any (λ a. is_unknown a.state) attempts))
      logical_success_attempts_invalid
  raise_if (is_indeterminate result.outcome && not (any (λ a. is_unknown a.state) attempts))
      logical_unknown_attempt_missing

-- ("leader", "active")
abbrev pub leads : Consumer → Bool
leads c = is_leader c.role && is_consuming c.state

abbrev pub may_finalize : Option Consumer → Bool
may_finalize none = true
may_finalize (some c) = leads c

-- `_validate_finalization`
unfoldable pub validate_finalization : LogicalResult → Tx (Unit {0})
validate_finalization result = do
  request ← gets (λ db. request_of db result.logical_request_id)
  raise_if (not (is_open_row request)) logical_request_not_active
  consumer ← gets (λ db. consumer_of db result.logical_request_id)
  raise_if (not (may_finalize consumer)) single_flight_leader_required
  validate_attempt_outcome result

-- flight == (leader_id, "active")
abbrev pub led_by : Identifier → Option Flight → Bool
led_by leader none = false
led_by leader (some f) = (f.leader_logical_request_id == leader) && is_flying f.state

abbrev pub joined_event : AdmissionEventType → Bool
joined_event AdmissionEventType.single_flight_leader = true
joined_event AdmissionEventType.single_flight_follower = true
joined_event AdmissionEventType.leader_promoted = true
joined_event _ = false

abbrev pub has_joined : Identifier → AdmissionEvent → Bool
has_joined id e = (e.logical_request_id == id) && joined_event e.event_type

abbrev pub consumes : Identifier → Consumer → Bool
consumes fingerprint c = (c.request_fingerprint == fingerprint) && is_consuming c.state

abbrev pub by_request : Consumer → Consumer → Bool
by_request a b = leb a.logical_request_id b.logical_request_id

abbrev pub fingerprint_is : Identifier → Option LogicalRequest → Bool
fingerprint_is fingerprint none = false
fingerprint_is fingerprint (some r) = r.request_fingerprint == fingerprint

abbrev pub same_bool : Bool → Bool → Bool
same_bool true b = b
same_bool false b = not b

-- The active consumers of a fingerprint that the JOIN keeps, ORDER BY logical_request_id.
abbrev pub active_consumers : Identifier → Database → List Consumer
active_consumers fingerprint db = order_by by_request (
    select (λ c. consumes fingerprint c && is_some (request_of db c.logical_request_id))
      db.single_flight_consumers)

abbrev pub complete : Identifier → Consumer → Consumer
complete owner c = record c { state = ConsumerState.completed; result_owner_id = some owner }

-- UPDATE single_flight_consumers SET state = 'completed', result_owner_id = ? WHERE …
unfoldable pub complete_consumer : Identifier → Identifier → Tx (Unit {0})
complete_consumer owner id = modify (λ db. record db {
  single_flight_consumers =
      update_where (λ c. c.logical_request_id == id) (complete owner) db.single_flight_consumers;
})

-- The body of the loop over the consumers.
unfoldable pub deliver : LogicalResult → Identifier → Instant → Consumer → Tx (Unit {0})
deliver result fingerprint now c = do
  joined ← gets (λ db. any (has_joined c.logical_request_id) db.admission_events)
  request ← gets (λ db. request_of db c.logical_request_id)
  raise_if
      (not (fingerprint_is fingerprint request)
        || not joined
        || not (same_bool (is_leader c.role) (c.logical_request_id == result.logical_request_id)))
      single_flight_audit_gap
  when (not (c.logical_request_id == result.logical_request_id)) do
    sent ← gets (λ db. any (of_request c.logical_request_id) db.physical_attempts)
    raise_if sent single_flight_follower_has_attempt
    persist_logical_result (record result { logical_request_id = c.logical_request_id })
  complete_consumer result.logical_request_id c.logical_request_id
  append_admission_event c.logical_request_id AdmissionEventType.single_flight_completed now
      (some (Reason.given result.logical_request_id))

-- UPDATE single_flights SET state = 'terminal' WHERE request_fingerprint = ?
unfoldable pub end_flight : Identifier → Tx (Unit {0})
end_flight fingerprint = modify (λ db. record db {
  single_flights =
      update_where (λ f. f.request_fingerprint == fingerprint)
        (λ f. record f { state = FlightState.terminal }) db.single_flights;
})

abbrev pub cancel_entry : QueueEntry → QueueEntry
cancel_entry e = record e { state = QueueState.cancelled }

unfoldable pub withdraw_entry : Identifier → Tx (Unit {0})
withdraw_entry id = modify (λ db. record db {
  queue_entries =
      update_where (λ e. (e.logical_request_id == id) && is_waiting e.state) cancel_entry
        db.queue_entries;
})

unfoldable pub finish_flight : LogicalResult → Instant → Option Consumer → Tx (Unit {0})
finish_flight result now none = pure tt
finish_flight result now (some c) = do
  flight ← gets (λ db. flight_of db c.request_fingerprint)
  raise_if (not (leads c && led_by result.logical_request_id flight))
      single_flight_state_inconsistent
  consumers ← gets (active_consumers c.request_fingerprint)
  for_each consumers (deliver result c.request_fingerprint now)
  end_flight c.request_fingerprint
  withdraw_entry result.logical_request_id

-- `_finish_single_flight`
unfoldable pub finish_single_flight : LogicalResult → Instant → Tx (Unit {0})
finish_single_flight result now = do
  consumer ← gets (λ db. consumer_of db result.logical_request_id)
  finish_flight result now consumer

unfoldable pub complete_block : LogicalResult → Instant → Tx (Unit {0})
complete_block result now = do
  consumer ← gets (λ db. consumer_of db result.logical_request_id)
  when (is_some consumer) (validate_finalization result)
  persist_logical_result result
  finish_single_flight result now

unfoldable pub complete_logical_request :
    LogicalResult → RuntimeLease → Instant → Operation (Unit {0})
complete_logical_request result lease now =
    fenced logical_result_persistence_failed lease now (complete_block result now)

unfoldable pub finalize_block : LogicalResult → Instant → Tx (Unit {0})
finalize_block result now = do
  validate_finalization result
  persist_logical_result result
  finish_single_flight result now

unfoldable pub finalize_logical_request :
    LogicalResult → RuntimeLease → Instant → Operation (Unit {0})
finalize_logical_request result lease now =
    fenced logical_result_persistence_failed lease now (finalize_block result now)
