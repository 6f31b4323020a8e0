-- ===== src/Flights/Cancel.antt =====
-- `cancel_admitted_request` and `_cancel_started_flight`.
use system_trade_with_llm_or.Prelude.{
  Bool, false, Option, none, some, not, ◌&&◌, ◌||◌, ◌==◌, leb, ltb, if◌then◌else◌, update_where,
  find, any, select, order_by, first, is_some,
}
use system_trade_with_llm_or.Schema.{
  Database, Identifier, Instant, Reason, LogicalRequest, PhysicalAttempt, QueueEntry, Flight,
  Consumer,
}
use system_trade_with_llm_or.Schema.States.{
  AttemptState, Outcome, QueueState, QueueEventType, AdmissionEventType, Role, is_live, is_started,
  is_reserved, is_finished, is_waiting, is_dequeued, is_flying, is_leader, is_consuming,
}
use system_trade_with_llm_or.Schema.Codes.{
  single_flight_consumer_not_active, single_flight_state_inconsistent,
  in_flight_cancellation_requires_transport_result, request_cancellation_failed,
}
use system_trade_with_llm_or.Tables.{request_of, entry_of, consumer_of, flight_of}
use system_trade_with_llm_or.Tx.{
  Tx, Operation, pure, gets, require, modify, raise_if, ◌>>=◌, ◌>>◌, for_each,
}
use system_trade_with_llm_or.Lease.{RuntimeLease, fenced}
use system_trade_with_llm_or.Requests.{append_queue_event, append_admission_event, cancel_logical}
use system_trade_with_llm_or.Queue.{insert_entry}
use system_trade_with_llm_or.Attempts.{of_request, set_attempt}
use system_trade_with_llm_or.Gates.Finish.{release_gate_occupancy}
use system_trade_with_llm_or.Flights.Results.{attempts_of, consumes, cancel_entry, end_flight}
use system_trade_with_llm_or.Flights.Admit.{cancel_consumer}

abbrev pub flying_leader : Option Flight → Option Identifier
flying_leader none = none
flying_leader (some f) = if is_flying f.state then some f.leader_logical_request_id else none

-- The body of the loop over the consumers of a flight that has been sent.
unfoldable pub abandon : Instant → Reason → Consumer → Tx (Unit {0})
abandon now reason c = do
  cancel_logical c.logical_request_id now reason Outcome.unknown
  cancel_consumer c.logical_request_id
  append_admission_event c.logical_request_id AdmissionEventType.in_flight_cancelled now
      (some reason)

-- UPDATE physical_attempts SET state = 'unknown' WHERE logical_request_id = ? AND state = 'started'
unfoldable pub lose_started : Identifier → Tx (Unit {0})
lose_started id = modify (λ db. record db {
  physical_attempts =
      update_where (λ a. of_request id a && is_started a.state) (set_attempt AttemptState.unknown)
        db.physical_attempts;
})

-- `_cancel_started_flight`
unfoldable pub cancel_started_flight : Identifier → Instant → Reason → Tx (Unit {0})
cancel_started_flight fingerprint now reason = do
  consumers ← gets (λ db. select (consumes fingerprint) db.single_flight_consumers)
  flight ← gets (λ db. flight_of db fingerprint)
  leader ← require (flying_leader flight) single_flight_state_inconsistent
  release_gate_occupancy leader now Reason.in_flight_cancelled
  lose_started leader
  for_each consumers (abandon now reason)
  end_flight fingerprint

-- A follower only leaves.
unfoldable pub cancel_follower : Identifier → Instant → Reason → Tx (Option Identifier)
cancel_follower id now reason = do
  cancel_logical id now reason Outcome.cancelled
  cancel_consumer id
  append_admission_event id AdmissionEventType.follower_cancelled now (some reason)
  pure none

abbrev pub follows : Identifier → Database → Consumer → Bool
follows fingerprint db c =
    (c.request_fingerprint == fingerprint)
    && not (is_leader c.role)
    && is_consuming c.state
    && is_some (request_of db c.logical_request_id)

-- ORDER BY joined_at, logical_request_id
abbrev pub joined_earlier : Consumer → Consumer → Bool
joined_earlier a b =
    ltb a.joined_at b.joined_at
    || ((a.joined_at == b.joined_at) && leb a.logical_request_id b.logical_request_id)

abbrev pub task_of : Option LogicalRequest → Identifier
task_of none = 0
task_of (some r) = r.task_id

-- The first follower, with its domain and its task.
abbrev pub next_follower : Identifier → Database → Option (Identifier × Identifier × Identifier)
next_follower fingerprint db =
    elim (first
      (order_by joined_earlier (select (follows fingerprint db) db.single_flight_consumers))) [
        | none ↦ none
        | some c ↦
            some (c.logical_request_id, c.rate_domain, task_of (request_of db c.logical_request_id))
      ]

abbrev pub promote : Consumer → Consumer
promote c = record c { role = Role.leader }

unfoldable pub promote_consumer : Identifier → Tx (Unit {0})
promote_consumer id = modify (λ db. record db {
  single_flight_consumers =
      update_where (λ c. c.logical_request_id == id) promote db.single_flight_consumers;
})

unfoldable pub hand_flight : Identifier → Identifier → Tx (Unit {0})
hand_flight fingerprint leader = modify (λ db. record db {
  single_flights =
      update_where (λ f. f.request_fingerprint == fingerprint)
        (λ f. record f { leader_logical_request_id = leader }) db.single_flights;
})

-- What becomes of the flight when its leader leaves.
unfoldable pub hand_over :
    Identifier
    → Identifier
    → Instant
    → Option (Identifier × Identifier × Identifier)
    → Tx (Option Identifier)
hand_over fingerprint id now none = do end_flight fingerprint; pure none
hand_over fingerprint id now (some (promoted, domain, task)) = do
  promote_consumer promoted
  hand_flight fingerprint promoted
  insert_entry (record {
    logical_request_id = promoted;
    rate_domain = domain;
    task_id = task;
    enqueued_at = now;
    state = QueueState.queued;
    dequeued_at = none;
  })
  append_queue_event promoted QueueEventType.queued now (some Reason.leader_promoted)
  append_admission_event promoted AdmissionEventType.leader_promoted now (some (Reason.given id))
  pure (some promoted)

unfoldable pub cancel_entries : Identifier → Tx (Unit {0})
cancel_entries id = modify (λ db. record db {
  queue_entries = update_where (λ e. e.logical_request_id == id) cancel_entry db.queue_entries;
})

-- A leader whose attempts were never sent is replaced by the first follower.
unfoldable pub replace_leader : Identifier → Identifier → Instant → Reason → Tx (Option Identifier)
replace_leader fingerprint id now reason = do
  follower ← gets (next_follower fingerprint)
  cancel_logical id now reason Outcome.cancelled
  cancel_consumer id
  cancel_entries id
  promoted ← hand_over fingerprint id now follower
  append_admission_event id AdmissionEventType.leader_cancelled now (some reason)
  pure promoted

-- UPDATE physical_attempts SET state = 'failed' WHERE physical_attempt_id = ?
unfoldable pub fail_attempt : Identifier → Tx (Unit {0})
fail_attempt id = modify (λ db. record db {
  physical_attempts =
      update_where (λ a. a.physical_attempt_id == id) (set_attempt AttemptState.failed)
        db.physical_attempts;
})

abbrev pub in_queue : Option QueueEntry → Bool
in_queue none = false
in_queue (some e) = is_waiting e.state || is_dequeued e.state

-- The leader's live attempt, if it has one, is not started here: it is reserved.
unfoldable pub drop_reserved : Identifier → Instant → Option PhysicalAttempt → Tx (Unit {0})
drop_reserved id now none = pure tt
drop_reserved id now (some a) = do
  raise_if (not (is_reserved a.state)) in_flight_cancellation_requires_transport_result
  release_gate_occupancy id now Reason.leader_cancelled
  fail_attempt a.physical_attempt_id

unfoldable pub cancel_unstarted :
    Identifier
    → Identifier
    → Instant
    → Reason
    → Option QueueEntry
    → Option PhysicalAttempt
    → Bool
    → Tx (Option Identifier)
cancel_unstarted fingerprint id now reason entry live sent = do
  raise_if (not (in_queue entry)) in_flight_cancellation_requires_transport_result
  drop_reserved id now live
  if sent
      then (do cancel_started_flight fingerprint now reason; pure none)
      else replace_leader fingerprint id now reason

abbrev pub is_started_row : Option PhysicalAttempt → Bool
is_started_row none = false
is_started_row (some a) = is_started a.state

unfoldable pub cancel_leader : Identifier → Identifier → Instant → Reason → Tx (Option Identifier)
cancel_leader fingerprint id now reason = do
  entry ← gets (λ db. entry_of db id)
  live ← gets (λ db. find (λ a. is_live a.state) (attempts_of id db))
  sent ← gets (λ db. any (λ a. is_finished a.state) (attempts_of id db))
  if is_started_row live
      then (do cancel_started_flight fingerprint now reason; pure none)
      else cancel_unstarted fingerprint id now reason entry live sent

abbrev pub consuming_row : Option Consumer → Option Consumer
consuming_row none = none
consuming_row (some c) = if is_consuming c.state then some c else none

unfoldable pub cancel_block : Identifier → Reason → Instant → Tx (Option Identifier)
cancel_block id reason now = do
  found ← gets (λ db. consumer_of db id)
  consumer ← require (consuming_row found) single_flight_consumer_not_active
  if is_leader consumer.role
      then cancel_leader consumer.request_fingerprint id now reason
      else cancel_follower id now reason

unfoldable pub cancel_admitted_request :
    Identifier → Reason → RuntimeLease → Instant → Operation (Option Identifier)
cancel_admitted_request id reason lease now =
    fenced request_cancellation_failed lease now (cancel_block id reason now)
