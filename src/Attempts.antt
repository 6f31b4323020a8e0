-- ===== src/Attempts.antt =====
-- Physical attempts of requests/storage.py: `add_physical_attempt`, `reserve_next_physical_attempt`,
-- `discard_reserved_attempt` and `mark_physical_attempt_started`.
pub mod Sequence
use system_trade_with_llm_or.Prelude.{
  ℕ, ◌+◌, Bool, true, false, Option, none, some, List, [], ◌∷◌, ◌++◌, not, ◌&&◌, ◌||◌, ◌==◌, leb,
  ltb, if◌then◌else◌, count_if, update_where, delete_where, find, any,
}
use system_trade_with_llm_or.Schema.{
  Database, Identifier, Instant, LogicalRequest, PhysicalAttempt, Reservation,
}
use system_trade_with_llm_or.Schema.States.{AttemptState, is_open, is_reserved, is_live, is_unknown}
use system_trade_with_llm_or.Schema.Codes.{
  Code, physical_attempt_persistence_failed, physical_attempt_logical_not_active,
  physical_attempt_already_unknown, physical_attempt_already_active,
  physical_attempt_reservation_failed, physical_attempt_discard_rejected,
  physical_attempt_discard_failed, physical_attempt_transition_rejected,
  physical_attempt_transition_failed,
}
use system_trade_with_llm_or.Tables.{request_of, has_request, has_attempt}
use system_trade_with_llm_or.Tx.{
  insert_if, update_one, Tx, Operation, pure, gets, modify, raise_if, constraint, ◌>>=◌, ◌>>◌,
  transaction,
}
use system_trade_with_llm_or.Lease.{RuntimeLease, fenced}

-- The constraints of physical_attempts.
abbrev pub fits_attempts : PhysicalAttempt → Database → Bool
fits_attempts a db =
    not (has_attempt db a.physical_attempt_id)
    && has_request db a.logical_request_id
    && leb 1 a.sequence_number
    && leb 1 a.lease_generation
    && not (
        any
          (λ b.
            (b.logical_request_id == a.logical_request_id)
            && (b.sequence_number == a.sequence_number))
          db.physical_attempts)

-- INSERT INTO physical_attempts
unfoldable pub insert_attempt : PhysicalAttempt → Tx (Unit {0})
insert_attempt a =
    insert_if (fits_attempts a)
      (λ db. record db { physical_attempts = db.physical_attempts ++ a ∷ [] })

-- The column `raw_eligible` starts at its default, 0.
abbrev pub reserved_attempt : Identifier → Identifier → ℕ → ℕ → Instant → PhysicalAttempt
reserved_attempt id logical sequence generation created = record {
  physical_attempt_id = id;
  logical_request_id = logical;
  sequence_number = sequence;
  lease_generation = generation;
  created_at = created;
  state = AttemptState.reserved;
  raw_eligible = false;
}

unfoldable pub add_physical_attempt :
    Identifier → Identifier → ℕ → ℕ → Instant → Operation (Unit {0})
add_physical_attempt id logical sequence generation created =
    transaction physical_attempt_persistence_failed
      (insert_attempt (reserved_attempt id logical sequence generation created))

-- COALESCE(MAX(sequence_number), 0) over the attempts of one request
abbrev pub max_sequence : Identifier → List PhysicalAttempt → ℕ
max_sequence logical [] = 0
max_sequence logical (a ∷ rest) =
    let highest = max_sequence logical rest in
    if (a.logical_request_id == logical) && ltb highest a.sequence_number
    then a.sequence_number
    else highest

abbrev pub of_request : Identifier → PhysicalAttempt → Bool
of_request logical a = a.logical_request_id == logical

abbrev pub is_open_row : Option LogicalRequest → Bool
is_open_row none = false
is_open_row (some r) = is_open r.state

unfoldable pub reserve_block : Identifier → Identifier → ℕ → Instant → Tx PhysicalAttempt
reserve_block id logical generation now = do
  request ← gets (λ db. request_of db logical)
  raise_if (not (is_open_row request)) physical_attempt_logical_not_active
  unknown ← gets (λ db. any (λ a. of_request logical a && is_unknown a.state) db.physical_attempts)
  raise_if unknown physical_attempt_already_unknown
  live ← gets (λ db. any (λ a. of_request logical a && is_live a.state) db.physical_attempts)
  raise_if live physical_attempt_already_active
  highest ← gets (λ db. max_sequence logical db.physical_attempts)
  insert_attempt (reserved_attempt id logical (highest + 1) generation now)
  pure (reserved_attempt id logical (highest + 1) generation now)

unfoldable pub reserve_next_physical_attempt :
    Identifier → Identifier → RuntimeLease → Instant → Operation PhysicalAttempt
reserve_next_physical_attempt id logical lease now =
    fenced physical_attempt_reservation_failed lease now
      (reserve_block id logical lease.generation now)

-- The WHERE clause of the DELETE.
abbrev pub is_discardable : Identifier → ℕ → List Reservation → PhysicalAttempt → Bool
is_discardable id generation reservations a =
    (a.physical_attempt_id == id)
    && (a.lease_generation == generation)
    && is_reserved a.state
    && not (any (λ r. r.physical_attempt_id == a.physical_attempt_id) reservations)

unfoldable pub discard_block : Identifier → ℕ → Tx (Unit {0})
discard_block id generation =
    update_one
      (λ db. count_if (is_discardable id generation db.gate_reservations) db.physical_attempts)
      (λ db. record db {
        physical_attempts =
            delete_where (is_discardable id generation db.gate_reservations) db.physical_attempts;
      })
      physical_attempt_discard_rejected

unfoldable pub discard_reserved_attempt : Identifier → RuntimeLease → Instant → Operation (Unit {0})
discard_reserved_attempt id lease now =
    fenced physical_attempt_discard_failed lease now (discard_block id lease.generation)

abbrev pub set_attempt : AttemptState → PhysicalAttempt → PhysicalAttempt
set_attempt state a = record a { state = state }

abbrev pub is_startable : Identifier → ℕ → PhysicalAttempt → Bool
is_startable id generation a =
    (a.physical_attempt_id == id) && (a.lease_generation == generation) && is_reserved a.state

unfoldable pub start_block : Identifier → ℕ → Tx (Unit {0})
start_block id generation =
    update_one (λ db. count_if (is_startable id generation) db.physical_attempts)
      (λ db. record db {
        physical_attempts =
            update_where (is_startable id generation) (set_attempt AttemptState.started)
              db.physical_attempts;
      })
      physical_attempt_transition_rejected

unfoldable pub mark_physical_attempt_started :
    Identifier → RuntimeLease → Instant → Operation (Unit {0})
mark_physical_attempt_started id lease now =
    fenced physical_attempt_transition_failed lease now (start_block id lease.generation)
