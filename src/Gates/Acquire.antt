-- ===== src/Gates/Acquire.antt =====
-- `acquire_gates`: every scope is tested in order, and all are entered or none.
use system_trade_with_llm_or.Prelude.{
  ℕ, ◌+◌, Bool, false, Option, none, some, List, [], ◌∷◌, not, ◌&&◌, ◌==◌, leb, ltb, if◌then◌else◌,
  count_if,
}
use system_trade_with_llm_or.Schema.{
  Database, Identifier, Instant, Reason, PhysicalAttempt, QueueEntry, Gate, GateStart,
}
use system_trade_with_llm_or.Schema.States.{
  GateScope, BlockReason, GateEventType, ReservationState, same_scope, is_dequeued, is_reserved,
}
use system_trade_with_llm_or.Schema.Codes.{
  Code, gate_attempt_generation_mismatch, gate_request_not_dequeued, gate_request_not_active,
  physical_attempt_sequence_rejected, physical_attempt_reservation_mismatch,
  gate_acquisition_failed, gate_blocked,
}
use system_trade_with_llm_or.Tables.{request_of, entry_of, attempt_of, gate_of}
use system_trade_with_llm_or.Tx.{
  Tx, Result, ok, err, Operation, pure, gets, modify, raise_if, ◌>>=◌, ◌>>◌, for_each,
}
use system_trade_with_llm_or.Lease.{RuntimeLease, fenced}
use system_trade_with_llm_or.Requests.{append_gate_event}
use system_trade_with_llm_or.Attempts.{insert_attempt, reserved_attempt, max_sequence, is_open_row}
use system_trade_with_llm_or.Gates.Policy.{
  GateLimit, GatePolicy, GateKeys, GateReservation, ordered, enter, insert_reservation,
  insert_scope, insert_start,
}

-- The attempt that the caller passes in; its state is `reserved` by its validator.
pub record NewAttempt : Type 0 where
  pub physical_attempt_id : Identifier
  pub logical_request_id : Identifier
  pub sequence_number : ℕ
  pub lease_generation : ℕ
  pub created_at : Instant

abbrev pub before : Instant → Option Instant → Bool
before now none = false
before now (some t) = ltb now t

abbrev pub gate_cooldown : Option Gate → Option Instant
gate_cooldown none = none
gate_cooldown (some g) = g.cooldown_until

abbrev pub gate_count : Option Gate → ℕ
gate_count none = 0
gate_count (some g) = g.active_count

abbrev pub too_soon : ℕ → Instant → Option Instant → Bool
too_soon interval now none = false
too_soon interval now (some t) = ltb now (t + interval)

abbrev pub gate_last : Option Gate → Option Instant
gate_last none = none
gate_last (some g) = g.last_started_at

-- WHERE scope = ? AND key_alias = ? AND started_at > ?, the last being now - window; the window is added
-- on the other side, since naturals have no negative instants.
abbrev pub started_after : GateScope → Identifier → Instant → ℕ → GateStart → Bool
started_after scope key now window s =
    same_scope s.scope scope && (s.key_alias == key) && ltb now (s.started_at + window)

-- The body of the first loop: why this scope refuses a start, if it does.
unfoldable pub block_reason :
    GateLimit → GateScope → Identifier → Instant → Database → Option BlockReason
block_reason limit scope key now db =
    let gate = gate_of db scope key in
    let starts = count_if (started_after scope key now limit.window) db.gate_starts in
    if before now (gate_cooldown gate)
    then some BlockReason.cooldown
    else if leb limit.max_concurrency (gate_count gate)
    then some BlockReason.concurrency
    else if too_soon limit.min_interval now (gate_last gate)
    then some BlockReason.minimum_interval
    else if leb limit.requests_per_window starts
    then some BlockReason.rolling_window
    else none

pub record Block : Type 0 where
  pub scope : GateScope
  pub key_alias : Identifier
  pub reason : BlockReason

-- The first scope that refuses.
unfoldable pub first_block :
    GatePolicy → Instant → Database → List (GateScope × Identifier) → Option Block
first_block policy now db [] = none
first_block policy now db ((scope, key) ∷ rest) =
    let later = first_block policy now db rest in
    elim (block_reason (policy scope) scope key now db) [
      | none ↦ later
      | some reason ↦ some (record { scope = scope; key_alias = key; reason = reason })
    ]

abbrev pub block_event : BlockReason → GateEventType
block_event BlockReason.cooldown = GateEventType.cooldown
block_event _ = GateEventType.blocked

abbrev pub same_attempt : NewAttempt → PhysicalAttempt → Bool
same_attempt attempt a =
    (a.logical_request_id == attempt.logical_request_id)
    && (a.sequence_number == attempt.sequence_number)
    && (a.lease_generation == attempt.lease_generation)
    && (a.created_at == attempt.created_at)
    && is_reserved a.state

-- The attempt is inserted, in sequence, or it is the reserved one that is there.
unfoldable pub ensure_attempt : NewAttempt → Option PhysicalAttempt → Tx (Unit {0})
ensure_attempt attempt none = do
  highest ← gets (λ db. max_sequence attempt.logical_request_id db.physical_attempts)
  raise_if (not (attempt.sequence_number == highest + 1)) physical_attempt_sequence_rejected
  insert_attempt (
      reserved_attempt attempt.physical_attempt_id attempt.logical_request_id
        attempt.sequence_number attempt.lease_generation attempt.created_at)
ensure_attempt attempt (some a) =
    raise_if (not (same_attempt attempt a)) physical_attempt_reservation_mismatch

unfoldable pub count_in : GateScope → Identifier → Instant → Tx (Unit {0})
count_in scope key now = modify (λ db. record db { gate_state = enter scope key now db.gate_state })

unfoldable pub enter_gate :
    Identifier → Identifier → Instant → GateScope × Identifier → Tx (Unit {0})
enter_gate reservation logical now (scope, key) = do
  count_in scope key now
  insert_scope (record { reservation_id = reservation; scope = scope; key_alias = key })
  insert_start
      (record { reservation_id = reservation; scope = scope; key_alias = key; started_at = now })
  append_gate_event logical (some reservation) (some scope) (some key) GateEventType.acquired now
      none

-- What is done when no scope refuses, and when one does.
unfoldable pub settle_block :
    Identifier → NewAttempt → GateKeys → ℕ → Instant → Option Block → Tx (Unit {0})
settle_block reservation attempt keys generation now (some b) =
    append_gate_event attempt.logical_request_id none (some b.scope) (some b.key_alias)
      (block_event b.reason) now (some (Reason.blocked b.reason))
settle_block reservation attempt keys generation now none = do
  existing ← gets (λ db. attempt_of db attempt.physical_attempt_id)
  ensure_attempt attempt existing
  insert_reservation (record {
    reservation_id = reservation;
    physical_attempt_id = attempt.physical_attempt_id;
    logical_request_id = attempt.logical_request_id;
    lease_generation = generation;
    acquired_at = now;
    state = ReservationState.active;
  })
  for_each (ordered keys) (enter_gate reservation attempt.logical_request_id now)

abbrev pub is_dequeued_row : Option QueueEntry → Bool
is_dequeued_row none = false
is_dequeued_row (some e) = is_dequeued e.state

unfoldable pub acquire_block :
    Identifier → NewAttempt → GateKeys → GatePolicy → ℕ → Instant → Tx (Option Block)
acquire_block reservation attempt keys policy generation now = do
  entry ← gets (λ db. entry_of db attempt.logical_request_id)
  raise_if (not (is_dequeued_row entry)) gate_request_not_dequeued
  request ← gets (λ db. request_of db attempt.logical_request_id)
  raise_if (not (is_open_row request)) gate_request_not_active
  blocked ← gets (λ db. first_block policy now db (ordered keys))
  settle_block reservation attempt keys generation now blocked
  pure blocked

-- The raise for a refusal comes after the commit of its event.
abbrev pub raise_blocked :
    GateReservation → Result Code (Option Block) × Database → Result Code GateReservation × Database
raise_blocked reservation (ok none, db) = (ok reservation, db)
raise_blocked reservation (ok (some b), db) = (err (gate_blocked b.scope b.reason), db)
raise_blocked reservation (err c, db) = (err c, db)

unfoldable pub acquire_gates :
    Identifier
    → NewAttempt
    → GateKeys
    → GatePolicy
    → RuntimeLease
    → Instant
    → Operation GateReservation
acquire_gates reservation attempt keys policy lease now db =
    if attempt.lease_generation == lease.generation
    then raise_blocked
        (record {
          reservation_id = reservation;
          physical_attempt_id = attempt.physical_attempt_id;
          logical_request_id = attempt.logical_request_id;
          lease_generation = lease.generation;
          acquired_at = now;
        })
        (fenced gate_acquisition_failed lease now
          (acquire_block reservation attempt keys policy lease.generation now) db)
    else (err gate_attempt_generation_mismatch, db)
