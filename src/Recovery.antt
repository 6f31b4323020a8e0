-- ===== src/Recovery.antt =====
-- `recover_expired_lease` of requests/storage.py, with `_validate_recovery_state` and
-- `_recover_gate_reservations`: a new owner takes over after the old one was interrupted.
use system_trade_with_llm_or.Prelude.{
  ℕ, ◌+◌, Bool, true, false, Option, none, some, List, [], ◌∷◌, not, ◌&&◌, ◌||◌, ◌==◌, leb, ltb,
  if◌then◌else◌, update_where, any, select,
}
use system_trade_with_llm_or.Schema.{
  Database, Identifier, Instant, Reason, LogicalRequest, PhysicalAttempt, LeaseRow, QueueEntry,
  Reservation,
}
use system_trade_with_llm_or.Schema.States.{
  LogicalState, AttemptState, Outcome, QueueState, QueueEventType, GateEventType, is_open,
  is_started, is_reserved, is_unknown, is_live, is_finished, is_dequeued, is_held, is_released,
}
use system_trade_with_llm_or.Schema.Codes.{
  expired_runtime_lease_not_found, runtime_clock_rollback, runtime_lease_held,
  runtime_recovery_clock_or_generation_anomaly, runtime_recovery_audit_gap,
  runtime_recovery_lease_race, runtime_recovery_failed,
}
use system_trade_with_llm_or.Tables.{request_of, has_result}
use system_trade_with_llm_or.Tx.{
  Tx, Operation, pure, gets, require, modify, raise_if, ◌>>=◌, ◌>>◌, for_each, transaction,
}
use system_trade_with_llm_or.Lease.{RuntimeLease, LeasePolicy, fresh_row, fresh_lease}
use system_trade_with_llm_or.Requests.{append_queue_event, settle_request}
use system_trade_with_llm_or.Queue.{fail_with_result, insert_task}
use system_trade_with_llm_or.Attempts.{of_request, is_open_row}
use system_trade_with_llm_or.Gates.Finish.{give_up}
use system_trade_with_llm_or.Flights.Reconcile.{reconcile_terminal_flights}

-- Whether the attempt has a released gate reservation.
abbrev pub was_released : PhysicalAttempt → Reservation → Bool
was_released a r = (r.physical_attempt_id == a.physical_attempt_id) && is_released r.state

-- The WHERE clause of the audit: what a sound history never shows.
abbrev pub gap_at : Database → PhysicalAttempt → LogicalRequest → Bool
gap_at db a request =
    (is_started a.state && (not (is_open request.state) || has_result db a.logical_request_id))
    || (is_finished a.state
        && not (is_open request.state)
        && not (has_result db a.logical_request_id))
    || (is_finished a.state
        && is_open request.state
        && not (any (was_released a) db.gate_reservations))

abbrev pub is_gap : Database → PhysicalAttempt → Bool
is_gap db a = elim (request_of db a.logical_request_id) [ none ↦ false | some r ↦ gap_at db a r ]

-- `_validate_recovery_state`
unfoldable pub validate_recovery_state : ℕ → Tx (Unit {0})
validate_recovery_state previous = do
  future ← gets (λ db. any (λ a. ltb previous a.lease_generation) db.physical_attempts)
  raise_if future runtime_recovery_clock_or_generation_anomaly
  gap ← gets (λ db. any (is_gap db) db.physical_attempts)
  raise_if gap runtime_recovery_audit_gap

abbrev pub left_over : ℕ → Reservation → Bool
left_over generation r = is_held r.state && leb r.lease_generation generation

-- `_recover_gate_reservations`
unfoldable pub recover_gate_reservations : ℕ → Instant → Tx (Unit {0})
recover_gate_reservations generation now = do
  reservations ← gets (λ db. select (left_over generation) db.gate_reservations)
  for_each reservations
      (give_up runtime_recovery_audit_gap GateEventType.recovered Reason.owner_interrupted now)

-- A claimed request of which nothing was attempted goes back to the queue.
abbrev pub is_requeued : Database → QueueEntry → Bool
is_requeued db e =
    is_dequeued e.state
    && any (λ r. (r.logical_request_id == e.logical_request_id) && is_open r.state)
        db.logical_requests
    && not (any (of_request e.logical_request_id) db.physical_attempts)

abbrev pub requeue : QueueEntry → QueueEntry
requeue e = record e { state = QueueState.queued; dequeued_at = none }

unfoldable pub requeue_entries : Tx (Unit {0})
requeue_entries =
    modify
      (λ db. record db { queue_entries = update_where (is_requeued db) requeue db.queue_entries })

unfoldable pub requeue_unattempted : Instant → Tx (Unit {0})
requeue_unattempted now = do
  entries ← gets (λ db. select (is_requeued db) db.queue_entries)
  for_each entries (λ e.
      append_queue_event e.logical_request_id QueueEventType.queued now
        (some Reason.owner_interrupted))
  requeue_entries

-- The requests of the attempts that satisfy a test, each once.
unfoldable pub requests_where : (PhysicalAttempt → Bool) → List PhysicalAttempt → List Identifier
requests_where test [] = []
requests_where test (a ∷ rest) =
    let later = requests_where test rest in
    if test a then insert_task a.logical_request_id later else later

abbrev pub was_sent : ℕ → PhysicalAttempt → Bool
was_sent generation a = is_started a.state && leb a.lease_generation generation

-- The requests with a started attempt fail, with an unknown outcome.
unfoldable pub fail_sent : ℕ → Instant → Tx (Unit {0})
fail_sent previous now = do
  requests ← gets (λ db. requests_where (was_sent previous) db.physical_attempts)
  for_each requests (λ id.
      settle_request
        (record {
          logical_request_id = id;
          outcome = Outcome.unknown;
          completed_at = now;
          error_code = some Reason.owner_interrupted;
        })
        LogicalState.failed runtime_recovery_audit_gap)

-- A finished attempt of an open request with no live attempt.
abbrev pub is_between : Database → PhysicalAttempt → Bool
is_between db a =
    is_finished a.state
    && is_open_row (request_of db a.logical_request_id)
    && not (any (λ b. of_request a.logical_request_id b && is_live b.state) db.physical_attempts)

abbrev pub between_outcome : Bool → Outcome
between_outcome true = Outcome.unknown
between_outcome false = Outcome.failed

-- The requests that were interrupted between two attempts fail; the outcome is unknown if one
-- attempt's is.
unfoldable pub fail_between : Instant → Tx (Unit {0})
fail_between now = do
  interrupted ← gets (λ db. requests_where (is_between db) db.physical_attempts)
  attempts ← gets (λ db. db.physical_attempts)
  for_each interrupted (λ id. fail_with_result (record {
    logical_request_id = id;
    outcome = between_outcome (any (λ a. of_request id a && is_unknown a.state) attempts);
    completed_at = now;
    error_code = some Reason.owner_interrupted_between_attempts;
  }))

-- The two UPDATE statements on physical_attempts.
unfoldable pub take_over_attempts : ℕ → ℕ → Tx (Unit {0})
take_over_attempts previous generation = do
  modify (λ db. record db {
    physical_attempts =
        update_where (was_sent previous) (λ a. record a { state = AttemptState.unknown })
          db.physical_attempts;
  })
  modify (λ db. record db {
    physical_attempts =
        update_where (λ a. is_reserved a.state && leb a.lease_generation previous)
          (λ a. record a { lease_generation = generation }) db.physical_attempts;
  })

-- WHERE singleton = 1 AND generation = ? AND active = 1
abbrev pub still_held : ℕ → Option LeaseRow → Bool
still_held previous none = false
still_held previous (some row) = (row.generation == previous) && row.active

unfoldable pub take_over_lease : Identifier → ℕ → ℕ → Instant → LeasePolicy → Tx (Unit {0})
take_over_lease owner previous generation now policy = do
  lease ← gets (λ db. db.runtime_lease)
  raise_if (not (still_held previous lease)) runtime_recovery_lease_race
  modify (λ db. record db { runtime_lease = some (fresh_row owner generation now policy) })

abbrev pub active_row : Option LeaseRow → Option LeaseRow
active_row none = none
active_row (some row) = if row.active then some row else none

unfoldable pub recover_block : Identifier → Instant → LeasePolicy → Tx RuntimeLease
recover_block owner now policy = do
  lease ← gets (λ db. db.runtime_lease)
  row ← require (active_row lease) expired_runtime_lease_not_found
  raise_if (ltb now row.heartbeat_at) runtime_clock_rollback
  raise_if (ltb now row.expires_at) runtime_lease_held
  validate_recovery_state row.generation
  recover_gate_reservations row.generation now
  requeue_unattempted now
  fail_sent row.generation now
  fail_between now
  take_over_attempts row.generation (row.generation + 1)
  reconcile_terminal_flights now none
  take_over_lease owner row.generation (row.generation + 1) now policy
  pure (fresh_lease owner (row.generation + 1) now policy)

unfoldable pub recover_expired_lease : Identifier → Instant → LeasePolicy → Operation RuntimeLease
recover_expired_lease owner now policy =
    transaction runtime_recovery_failed (recover_block owner now policy)
