-- ===== src/Flights/Reconcile.antt =====
-- `_reconcile_terminal_flights`, and `acquire_lease`, which ends with it.
use system_trade_with_llm_or.Prelude.{
  Bool, true, false, Option, none, some, List, [], ◌∷◌, not, ◌&&◌, ◌==◌, select,
}
use system_trade_with_llm_or.Schema.{
  Database, Identifier, Instant, LogicalRequest, LogicalResult, Flight, Consumer,
}
use system_trade_with_llm_or.Schema.States.{LogicalState, is_open, is_flying}
use system_trade_with_llm_or.Schema.Codes.{
  single_flight_state_inconsistent, single_flight_audit_gap, runtime_lease_acquisition_failed,
}
use system_trade_with_llm_or.Tables.{request_of, consumer_of, result_of}
use system_trade_with_llm_or.Tx.{
  Tx, Operation, pure, gets, require, raise_if, ◌>>=◌, ◌>>◌, for_each, transaction,
}
use system_trade_with_llm_or.Lease.{RuntimeLease, LeasePolicy, take_lease, fresh_lease}
use system_trade_with_llm_or.Requests.{result_state}
use system_trade_with_llm_or.Flights.Results.{leads, validate_attempt_outcome, finish_single_flight}

abbrev pub same_state : LogicalState → LogicalState → Bool
same_state LogicalState.queued LogicalState.queued = true
same_state LogicalState.cancelled LogicalState.cancelled = true
same_state LogicalState.succeeded LogicalState.succeeded = true
same_state LogicalState.failed LogicalState.failed = true
same_state _ _ = false

abbrev pub led : Option Consumer → Bool
led none = false
led (some c) = leads c

-- The leader's request and its result: still open with no result, or closed with the result that
-- its state records, which is then delivered.
unfoldable pub reconcile_leader : LogicalRequest → Option LogicalResult → Instant → Tx (Unit {0})
reconcile_leader request none now = raise_if (not (is_open request.state)) single_flight_audit_gap
reconcile_leader request (some result) now = do
  raise_if (not (same_state request.state (result_state result.outcome))) single_flight_audit_gap
  validate_attempt_outcome result
  finish_single_flight result now

-- The body of the loop; the rows were selected before it.
unfoldable pub reconcile_flight :
    Instant → Option LogicalRequest × Option Consumer × Identifier → Tx (Unit {0})
reconcile_flight now (request, consumer, leader) = do
  raise_if (not (led consumer)) single_flight_state_inconsistent
  known ← require request single_flight_state_inconsistent
  result ← gets (λ db. result_of db leader)
  reconcile_leader known result now

abbrev pub concerns : Option Identifier → Flight → Bool
concerns none f = is_flying f.state
concerns (some fingerprint) f = is_flying f.state && (f.request_fingerprint == fingerprint)

abbrev pub with_leader :
    Database → List Flight → List (Option LogicalRequest × Option Consumer × Identifier)
with_leader db [] = []
with_leader db (f ∷ fs) =
    (
      request_of db f.leader_logical_request_id,
      consumer_of db f.leader_logical_request_id,
      f.leader_logical_request_id,
    )
    ∷ with_leader db fs

-- `_reconcile_terminal_flights`
unfoldable pub reconcile_terminal_flights : Instant → Option Identifier → Tx (Unit {0})
reconcile_terminal_flights now fingerprint = do
  flights ← gets (λ db. with_leader db (select (concerns fingerprint) db.single_flights))
  for_each flights (reconcile_flight now)

unfoldable pub acquire_lease_block : Identifier → Instant → LeasePolicy → Tx RuntimeLease
acquire_lease_block owner now policy = do
  generation ← take_lease owner now policy
  reconcile_terminal_flights now none
  pure (fresh_lease owner generation now policy)

unfoldable pub acquire_lease : Identifier → Instant → LeasePolicy → Operation RuntimeLease
acquire_lease owner now policy =
    transaction runtime_lease_acquisition_failed (acquire_lease_block owner now policy)
