-- ===== src/Runtime.antt =====
-- The repository as its clients use it: one command for each public method of
-- `ProductionRequestRepository` that writes or is fenced, in any order and from any owner.
pub mod Preserves
pub mod Units
pub mod Walk
pub mod Fencing
pub mod Held
pub mod Interrupted
pub mod Released
pub mod Stale
pub mod Audit
pub mod Published
pub mod Results
pub mod Agreement
pub mod Recorded
pub mod Delivery
pub mod Cooldown
pub mod Refusals
pub mod Examples
use system_trade_with_llm_or.Prelude.{ℕ, ◌≡◌, Bool, Option, List, [], ◌∷◌, String}
use system_trade_with_llm_or.Schema.{
  Database, Identifier, Instant, Reason, LogicalRequest, LogicalResult, RawIntent,
}
use system_trade_with_llm_or.Schema.States.{AttemptState}
use system_trade_with_llm_or.Schema.Codes.{Code}
use system_trade_with_llm_or.Tx.{Result, ok, err, Operation}
use system_trade_with_llm_or.Lease.{
  RuntimeLease, LeasePolicy, heartbeat_lease, release_lease, validate_fence,
}
use system_trade_with_llm_or.Requests.{add_logical_request}
use system_trade_with_llm_or.Queue.{QueuePolicy, enqueue_logical_request, claim_next_queued}
use system_trade_with_llm_or.Queue.Claims.{Lineage, assert_claimed_logical_request}
use system_trade_with_llm_or.Attempts.{
  add_physical_attempt, reserve_next_physical_attempt, discard_reserved_attempt,
  mark_physical_attempt_started,
}
use system_trade_with_llm_or.Gates.Policy.{GatePolicy, GateKeys, GateReservation}
use system_trade_with_llm_or.Gates.Acquire.{NewAttempt, acquire_gates}
use system_trade_with_llm_or.Gates.Finish.{
  release_gates, record_retry_after, record_unknown_outcome,
}
use system_trade_with_llm_or.Flights.Results.{complete_logical_request, finalize_logical_request}
use system_trade_with_llm_or.Flights.Reconcile.{acquire_lease}
use system_trade_with_llm_or.Flights.Admit.{admit_logical_request}
use system_trade_with_llm_or.Flights.Cancel.{cancel_admitted_request}
use system_trade_with_llm_or.Publications.{
  RawReference, begin_raw_publication, commit_raw_publication, fail_raw_publication,
  mark_raw_publication_reconciliation_required,
}
use system_trade_with_llm_or.Recovery.{recover_expired_lease}

-- The commands that a lease guards.
pub data Fenced : Type 0 where
  enqueue : LogicalRequest → Identifier → QueuePolicy → Fenced
  admit : LogicalRequest → Identifier → Bool → QueuePolicy → Fenced
  cancel : Identifier → Reason → Fenced
  claim : Identifier → Fenced
  assert_claimed : Lineage → Fenced
  acquire : Identifier → NewAttempt → GateKeys → GatePolicy → Fenced
  release : GateReservation → AttemptState → Option Bool → Fenced
  retry_after : GateReservation → Option ℕ → Fenced
  unknown_outcome : GateReservation → Fenced
  reserve : Identifier → Identifier → Fenced
  discard : Identifier → Fenced
  start : Identifier → Fenced
  begin_raw : RawIntent → Fenced
  commit_raw : RawReference → Fenced
  fail_raw : Identifier → Fenced
  reconcile_raw : Identifier → Fenced
  complete : LogicalResult → Fenced
  finalize : LogicalResult → Fenced
  validate : Fenced

-- The commands that a lease does not guard, and those on the lease itself.
pub data Command : Type 0 where
  under : RuntimeLease → Instant → Fenced → Command
  add_request : LogicalRequest → Command
  add_attempt : Identifier → Identifier → ℕ → ℕ → Instant → Command
  take : Identifier → Instant → LeasePolicy → Command
  recover : Identifier → Instant → LeasePolicy → Command
  heartbeat : RuntimeLease → Instant → LeasePolicy → Command
  give_back : RuntimeLease → Instant → Command

abbrev pub forget_result : {A : Type 0} → Result Code A → Result Code (Unit {0})
forget_result (ok a) = ok tt
forget_result (err c) = err c

abbrev pub forget : {A : Type 0} → Operation A → Operation (Unit {0})
forget op db = let (r, db') = op db in (forget_result r, db')

pub execute_fenced : RuntimeLease → Instant → Fenced → Operation (Unit {0})
execute_fenced lease now (enqueue request domain policy) =
    enqueue_logical_request request domain lease now policy
execute_fenced lease now (admit request domain applicable policy) =
    forget (admit_logical_request request domain applicable lease now policy)
execute_fenced lease now (cancel id reason) = forget (cancel_admitted_request id reason lease now)
execute_fenced lease now (claim domain) = forget (claim_next_queued domain lease now)
execute_fenced lease now (assert_claimed lineage) = assert_claimed_logical_request lineage lease now
execute_fenced lease now (acquire id attempt keys policy) =
    forget (acquire_gates id attempt keys policy lease now)
execute_fenced lease now (release reservation outcome eligible) =
    release_gates reservation outcome lease now eligible
execute_fenced lease now (retry_after reservation delay) =
    record_retry_after reservation delay lease now
execute_fenced lease now (unknown_outcome reservation) =
    record_unknown_outcome reservation lease now
execute_fenced lease now (reserve id logical) =
    forget (reserve_next_physical_attempt id logical lease now)
execute_fenced lease now (discard id) = discard_reserved_attempt id lease now
execute_fenced lease now (start id) = mark_physical_attempt_started id lease now
execute_fenced lease now (begin_raw intent) = begin_raw_publication intent lease now
execute_fenced lease now (commit_raw reference) = commit_raw_publication reference lease now
execute_fenced lease now (fail_raw id) = fail_raw_publication id lease now
execute_fenced lease now (reconcile_raw id) =
    mark_raw_publication_reconciliation_required id lease now
execute_fenced lease now (complete result) = complete_logical_request result lease now
execute_fenced lease now (finalize result) = finalize_logical_request result lease now
execute_fenced lease now validate = validate_fence lease now

pub execute : Command → Operation (Unit {0})
execute (under lease now c) = execute_fenced lease now c
execute (add_request r) = add_logical_request r
execute (add_attempt id logical sequence generation created) =
    add_physical_attempt id logical sequence generation created
execute (take owner now policy) = forget (acquire_lease owner now policy)
execute (recover owner now policy) = forget (recover_expired_lease owner now policy)
execute (heartbeat lease now policy) = forget (heartbeat_lease lease now policy)
execute (give_back lease now) = release_lease lease now

-- Any history of commands, each of which may have been refused.
pub run : List Command → Database → Database
run [] db = db
run (c ∷ cs) db = run cs (execute c db).1
