-- ===== src/Gates/Finish.antt =====
-- `_finish_gate_reservation` and its callers, and `_release_gate_occupancy`.
use system_trade_with_llm_or.Prelude.{
  ℕ, ◌+◌, Bool, true, false, Option, none, some, List, not, ◌&&◌, ◌||◌, ◌==◌, leb, ltb,
  if◌then◌else◌, update_where, find, select, order_by, length,
}
use system_trade_with_llm_or.Schema.{
  Identifier, Instant, Reason, PhysicalAttempt, Gate, Reservation, ReservationScope,
}
use system_trade_with_llm_or.Schema.States.{
  AttemptState, GateEventType, ReservationState, scope_rank, same_scope, is_live, is_held,
  is_succeeded, provider,
}
use system_trade_with_llm_or.Schema.Codes.{
  Code, gate_state_inconsistent, stale_gate_reservation, gate_release_failed,
  invalid_gate_release_outcome, successful_attempt_requires_raw_candidate, invalid_retry_after,
}
use system_trade_with_llm_or.Tables.{reservation_of}
use system_trade_with_llm_or.Tx.{
  Tx, err, Operation, pure, gets, require, modify, raise_if, ◌>>=◌, ◌>>◌, for_each,
}
use system_trade_with_llm_or.Lease.{RuntimeLease, fenced}
use system_trade_with_llm_or.Requests.{append_gate_event}
use system_trade_with_llm_or.Gates.Policy.{GateReservation, leave_gate, close_reservation, scope_of}

-- ORDER BY scope
abbrev pub by_scope : ReservationScope → ReservationScope → Bool
by_scope a b = leb (scope_rank a.scope) (scope_rank b.scope)

-- The row must be the active reservation of this attempt, of the lease's generation.
abbrev pub is_current : GateReservation → ℕ → Option Reservation → Bool
is_current reservation generation none = false
is_current reservation generation (some r) =
    is_held r.state
    && (r.logical_request_id == reservation.logical_request_id)
    && (r.physical_attempt_id == reservation.physical_attempt_id)
    && (r.lease_generation == generation)

abbrev pub is_unfinished : Identifier → PhysicalAttempt → Bool
is_unfinished id a = (a.physical_attempt_id == id) && is_live a.state

abbrev pub finish_attempt : AttemptState → Bool → PhysicalAttempt → PhysicalAttempt
finish_attempt outcome eligible a = record a { state = outcome; raw_eligible = eligible }

-- UPDATE physical_attempts SET state = ?, raw_eligible = ? WHERE … AND state IN ('reserved', 'started')
unfoldable pub end_attempt : Identifier → AttemptState → Bool → Tx (Unit {0})
end_attempt id outcome eligible = modify (λ db. record db {
  physical_attempts =
      update_where (is_unfinished id) (finish_attempt outcome eligible) db.physical_attempts;
})

-- CASE WHEN cooldown_until IS NULL OR cooldown_until < ? THEN ? ELSE cooldown_until END
abbrev pub extend_cooldown : Instant → Option Instant → Option Instant
extend_cooldown deadline none = some deadline
extend_cooldown deadline (some t) = if ltb t deadline then some deadline else some t

abbrev pub is_provider : ReservationScope → Bool
is_provider s = same_scope s.scope provider

abbrev pub cool : Instant → Gate → Gate
cool deadline g = record g { cooldown_until = extend_cooldown deadline g.cooldown_until }

unfoldable pub cool_provider : Identifier → Instant → Tx (Unit {0})
cool_provider key deadline = modify (λ db. record db {
  gate_state =
      update_where (λ g. same_scope g.scope provider && (g.key_alias == key)) (cool deadline)
        db.gate_state;
})

unfoldable pub cool_down :
    GateReservation → Instant → List ReservationScope → Option ℕ → Tx (Unit {0})
cool_down reservation now scopes none = pure tt
cool_down reservation now scopes (some delay) = do
  at ← require (find is_provider scopes) gate_state_inconsistent
  cool_provider at.key_alias (now + delay)
  append_gate_event reservation.logical_request_id (some reservation.reservation_id) (some provider)
      (some at.key_alias) GateEventType.cooldown now (some Reason.retry_after)

unfoldable pub finish_block :
    GateReservation → AttemptState → Option ℕ → Bool → ℕ → Instant → Tx (Unit {0})
finish_block reservation outcome retry_after eligible generation now = do
  scopes ← gets (λ db.
      order_by by_scope (select (scope_of reservation.reservation_id) db.gate_reservation_scopes))
  current ← gets (λ db. reservation_of db reservation.reservation_id)
  raise_if (not (is_current reservation generation current) || not (length scopes == 8))
      stale_gate_reservation
  for_each scopes (leave_gate gate_state_inconsistent)
  close_reservation reservation.reservation_id ReservationState.released
  end_attempt reservation.physical_attempt_id outcome eligible
  cool_down reservation now scopes retry_after
  append_gate_event reservation.logical_request_id (some reservation.reservation_id) none none
      GateEventType.released now (some (Reason.outcome outcome))

-- `_finish_gate_reservation`
unfoldable pub finish_gate_reservation :
    GateReservation → AttemptState → Option ℕ → Bool → RuntimeLease → Instant → Operation (Unit {0})
finish_gate_reservation reservation outcome retry_after eligible lease now =
    fenced gate_release_failed lease now
      (finish_block reservation outcome retry_after eligible lease.generation now)

-- The outcomes that `release_gates` accepts: 'succeeded' and 'failed'.
abbrev pub is_release_outcome : AttemptState → Bool
is_release_outcome AttemptState.succeeded = true
is_release_outcome AttemptState.failed = true
is_release_outcome _ = false

abbrev pub eligibility : AttemptState → Option Bool → Bool
eligibility outcome none = is_succeeded outcome
eligibility outcome (some eligible) = eligible

unfoldable pub release_gates :
    GateReservation → AttemptState → RuntimeLease → Instant → Option Bool → Operation (Unit {0})
release_gates reservation outcome lease now raw_eligible db =
    if not (is_release_outcome outcome)
    then (err invalid_gate_release_outcome, db)
    else if is_succeeded outcome && not (eligibility outcome raw_eligible)
    then (err successful_attempt_requires_raw_candidate, db)
    else finish_gate_reservation reservation outcome none (eligibility outcome raw_eligible) lease
        now db

-- The delay is in microseconds; `none` stands for one that is negative or not finite.
unfoldable pub record_retry_after :
    GateReservation → Option ℕ → RuntimeLease → Instant → Operation (Unit {0})
record_retry_after reservation none lease now db = (err invalid_retry_after, db)
record_retry_after reservation (some delay) lease now db =
    finish_gate_reservation reservation AttemptState.failed (some delay) true lease now db

unfoldable pub record_unknown_outcome :
    GateReservation → RuntimeLease → Instant → Operation (Unit {0})
record_unknown_outcome reservation lease now =
    finish_gate_reservation reservation AttemptState.unknown none false lease now

-- One reservation given up: its eight gates are left, and it is closed as recovered.
unfoldable pub give_up : Code → GateEventType → Reason → Instant → Reservation → Tx (Unit {0})
give_up refused event reason now r = do
  scopes ← gets (λ db. select (scope_of r.reservation_id) db.gate_reservation_scopes)
  raise_if (not (length scopes == 8)) refused
  for_each scopes (leave_gate refused)
  close_reservation r.reservation_id ReservationState.recovered
  append_gate_event r.logical_request_id (some r.reservation_id) none none event now (some reason)

abbrev pub held_for : Identifier → Reservation → Bool
held_for logical r = (r.logical_request_id == logical) && is_held r.state

-- `_release_gate_occupancy`
unfoldable pub release_gate_occupancy : Identifier → Instant → Reason → Tx (Unit {0})
release_gate_occupancy logical now reason = do
  reservations ← gets (λ db. select (held_for logical) db.gate_reservations)
  for_each reservations (give_up gate_state_inconsistent GateEventType.released reason now)
