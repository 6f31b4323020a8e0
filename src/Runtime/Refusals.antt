-- ===== src/Runtime/Refusals.antt =====
-- A command that is refused leaves the database as it was, but for the refusals that are recorded.
use system_trade_with_llm_or.Prelude.{
  ℕ, ◌≡◌, refl, Bool, true, false, Option, none, some, ap, sym, ◌∙◌, not, ◌&&◌, ◌==◌, ltb,
  if◌then◌else◌,
}
use mathlib.Core.Path.{subst}
use system_trade_with_llm_or.Schema.{Database, Instant}
use system_trade_with_llm_or.Schema.States.{AttemptState, is_succeeded}
use system_trade_with_llm_or.Schema.Codes.{Code, queue_full, gate_blocked}
use system_trade_with_llm_or.Tx.{Result, ok, err, Operation, Tx, transaction, transaction-atomic}
use system_trade_with_llm_or.Lease.{
  lease_in_time, or_refuse, heartbeat_lease, release_lease, RuntimeLease, fenced, validate_fence,
}
use system_trade_with_llm_or.Queue.{enqueue_logical_request, claim_next_queued, raise_rejected}
use system_trade_with_llm_or.Queue.Claims.{assert_claimed_logical_request}
use system_trade_with_llm_or.Attempts.{
  add_physical_attempt, reserve_next_physical_attempt, discard_reserved_attempt,
  mark_physical_attempt_started,
}
use system_trade_with_llm_or.Gates.Policy.{GateReservation}
use system_trade_with_llm_or.Gates.Acquire.{Block, acquire_gates, raise_blocked}
use system_trade_with_llm_or.Gates.Finish.{
  release_gates, record_retry_after, record_unknown_outcome, finish_gate_reservation,
  is_release_outcome, eligibility,
}
use system_trade_with_llm_or.Flights.Results.{complete_logical_request, finalize_logical_request}
use system_trade_with_llm_or.Flights.Admit.{admit_logical_request}
use system_trade_with_llm_or.Flights.Cancel.{cancel_admitted_request}
use system_trade_with_llm_or.Publications.{
  begin_raw_publication, commit_raw_publication, fail_raw_publication, transition_raw_publication,
  mark_raw_publication_reconciliation_required,
}
use system_trade_with_llm_or.Runtime.{
  Fenced, Command, execute_fenced, execute, forget, forget_result,
}
use system_trade_with_llm_or.Requests.{add_logical_request}
use system_trade_with_llm_or.Flights.Reconcile.{acquire_lease}
use system_trade_with_llm_or.Recovery.{recover_expired_lease}

-- The refusals that are committed with a record of their own: a full queue and a blocked gate.
abbrev pub is_recorded : Code → Bool
is_recorded queue_full = true
is_recorded (gate_blocked scope reason) = true
is_recorded _ = false

-- An operation that raised, other than with a recorded refusal, left `db` as it was.
abbrev IsAtomic : {A : Type 0} → Database → Result Code A × Database → Type 0
IsAtomic db (ok a, db') = Unit
IsAtomic db (err c, db') = is_recorded c ≡ false → db' ≡ db

transaction-IsAtomic :
    {A : Type 0} (failed : Code) (m : Tx A) (db : Database) → IsAtomic db (transaction failed m db)
transaction-IsAtomic {A} failed m db = atomic (transaction failed m db) refl
  where
    atomic : (t : Result Code A × Database) → transaction failed m db ≡ t → IsAtomic db t
    atomic (ok a, db') e = tt
    atomic (err c, db') e =
        λ _. ap (λ t. t.1) (sym e) ∙ transaction-atomic failed m db c (ap (λ t. t.0) e)

fenced-IsAtomic :
    (c : Code) {A : Type 0} (m : Tx A) (lease : RuntimeLease) (now : Instant) (db : Database)
    → IsAtomic db (fenced c lease now m db)
unfolding fenced
fenced-IsAtomic c m lease now db = transaction-IsAtomic c _ db

validate-IsAtomic :
    (lease : RuntimeLease) (now : Instant) (db : Database)
    → IsAtomic db (validate_fence lease now db)
unfolding validate_fence
validate-IsAtomic lease now db = transaction-IsAtomic _ _ db

in_time-IsAtomic :
    {A : Type 0} (db : Database) (r : Result Code (Unit {0})) (op : Operation A)
    → IsAtomic db (op db)
    → IsAtomic db (or_refuse r op db)
in_time-IsAtomic db (ok u) op h = h
in_time-IsAtomic db (err c) op h = λ _. refl

forget-IsAtomic :
    {A : Type 0} (db : Database) (op : Operation A)
    → IsAtomic db (op db)
    → IsAtomic db (forget op db)
forget-IsAtomic {A} db op h = refused (op db) h
  where
    refused :
        (t : Result Code A × Database)
        → IsAtomic db t
        → IsAtomic db (let (r, db') = t in (forget_result r, db'))
    refused (ok a, db') h = h
    refused (err c, db') h = h

rejected-IsAtomic :
    {A : Type 0} (db : Database) (t : Result Code (Bool × A) × Database)
    → IsAtomic db t
    → IsAtomic db (raise_rejected t)
rejected-IsAtomic db (ok (true, a), db') h = λ kept. absurd (cc)
rejected-IsAtomic db (ok (false, a), db') h = tt
rejected-IsAtomic db (err c, db') h = h

blocked-IsAtomic :
    (db : Database) (r : GateReservation) (t : Result Code (Option Block) × Database)
    → IsAtomic db t
    → IsAtomic db (raise_blocked r t)
blocked-IsAtomic db r (ok none, db') h = tt
blocked-IsAtomic db r (ok (some b), db') h = λ kept. absurd (cc)
blocked-IsAtomic db r (err c, db') h = h

if-IsAtomic :
    {A : Type 0} (db : Database) (b : Bool) (s t : Result Code A × Database)
    → IsAtomic db s
    → IsAtomic db t
    → IsAtomic db (if b then s else t)
if-IsAtomic db true s t hs ht = hs
if-IsAtomic db false s t hs ht = ht

module _ (lease : RuntimeLease) (now : Instant) (db : Database) where
  finish-IsAtomic :
      (reservation : GateReservation) (outcome : AttemptState) (delay : Option ℕ) (eligible : Bool)
      → IsAtomic db (finish_gate_reservation reservation outcome delay eligible lease now db)
  unfolding finish_gate_reservation
  finish-IsAtomic reservation outcome delay eligible = fenced-IsAtomic _ _ lease now db

  execute_fenced-IsAtomic : (c : Fenced) → IsAtomic db (execute_fenced lease now c db)
  unfolding execute_fenced enqueue_logical_request admit_logical_request cancel_admitted_request
      claim_next_queued assert_claimed_logical_request acquire_gates release_gates
      record_retry_after record_unknown_outcome reserve_next_physical_attempt
      discard_reserved_attempt mark_physical_attempt_started begin_raw_publication
      commit_raw_publication fail_raw_publication mark_raw_publication_reconciliation_required
      transition_raw_publication complete_logical_request finalize_logical_request
  execute_fenced-IsAtomic (Fenced.enqueue r domain policy) =
      rejected-IsAtomic db _ (fenced-IsAtomic _ _ lease now db)
  execute_fenced-IsAtomic (Fenced.admit r domain applicable policy) =
      forget-IsAtomic db (admit_logical_request r domain applicable lease now policy)
        (rejected-IsAtomic db _ (fenced-IsAtomic _ _ lease now db))
  execute_fenced-IsAtomic (Fenced.cancel id reason) =
      forget-IsAtomic db (cancel_admitted_request id reason lease now)
        (fenced-IsAtomic _ _ lease now db)
  execute_fenced-IsAtomic (Fenced.claim domain) =
      forget-IsAtomic db (claim_next_queued domain lease now) (fenced-IsAtomic _ _ lease now db)
  execute_fenced-IsAtomic (Fenced.assert_claimed l) =
      if-IsAtomic db (ltb l.source_approval_version 1) _ _ (λ _. refl)
        (if-IsAtomic db (ltb l.source_profile_version 1) _ _ (λ _. refl)
          (fenced-IsAtomic _ _ lease now db))
  execute_fenced-IsAtomic (Fenced.acquire id attempt keys policy) =
      forget-IsAtomic db (acquire_gates id attempt keys policy lease now) (
        if-IsAtomic db (attempt.lease_generation == lease.generation) _ _
          (blocked-IsAtomic db _ _ (fenced-IsAtomic _ _ lease now db)) (λ _. refl))
  execute_fenced-IsAtomic (Fenced.release reservation outcome eligible) =
      if-IsAtomic db (not (is_release_outcome outcome)) _ _ (λ _. refl)
        (if-IsAtomic db (is_succeeded outcome && not (eligibility outcome eligible)) _ _ (λ _. refl)
          (finish-IsAtomic reservation _ _ _))
  execute_fenced-IsAtomic (Fenced.retry_after reservation none) = λ _. refl
  execute_fenced-IsAtomic (Fenced.retry_after reservation (some delay)) =
      finish-IsAtomic reservation _ _ _
  execute_fenced-IsAtomic (Fenced.unknown_outcome reservation) = finish-IsAtomic reservation _ _ _
  execute_fenced-IsAtomic (Fenced.reserve id logical) =
      forget-IsAtomic db (reserve_next_physical_attempt id logical lease now)
        (fenced-IsAtomic _ _ lease now db)
  execute_fenced-IsAtomic (Fenced.discard id) = fenced-IsAtomic _ _ lease now db
  execute_fenced-IsAtomic (Fenced.start id) = fenced-IsAtomic _ _ lease now db
  execute_fenced-IsAtomic (Fenced.begin_raw intent) = fenced-IsAtomic _ _ lease now db
  execute_fenced-IsAtomic (Fenced.commit_raw reference) = fenced-IsAtomic _ _ lease now db
  execute_fenced-IsAtomic (Fenced.fail_raw id) = fenced-IsAtomic _ _ lease now db
  execute_fenced-IsAtomic (Fenced.reconcile_raw id) = fenced-IsAtomic _ _ lease now db
  execute_fenced-IsAtomic (Fenced.complete result) = fenced-IsAtomic _ _ lease now db
  execute_fenced-IsAtomic (Fenced.finalize result) = fenced-IsAtomic _ _ lease now db
  execute_fenced-IsAtomic Fenced.validate = validate-IsAtomic lease now db

execute-IsAtomic : (c : Command) (db : Database) → IsAtomic db (execute c db)
unfolding execute add_logical_request add_physical_attempt acquire_lease recover_expired_lease
    heartbeat_lease release_lease
execute-IsAtomic (Command.under lease now c) db = execute_fenced-IsAtomic lease now db c
execute-IsAtomic (Command.add_request r) db = transaction-IsAtomic _ _ db
execute-IsAtomic (Command.add_attempt id logical sequence generation created) db =
    transaction-IsAtomic _ _ db
execute-IsAtomic (Command.take owner now policy) db =
    forget-IsAtomic db (acquire_lease owner now policy) (transaction-IsAtomic _ _ db)
execute-IsAtomic (Command.recover owner now policy) db =
    forget-IsAtomic db (recover_expired_lease owner now policy) (transaction-IsAtomic _ _ db)
execute-IsAtomic (Command.heartbeat lease now policy) db =
    forget-IsAtomic db (heartbeat_lease lease now policy)
      (in_time-IsAtomic db (lease_in_time lease now) _ (transaction-IsAtomic _ _ db))
execute-IsAtomic (Command.give_back lease now) db =
    in_time-IsAtomic db (lease_in_time lease now) _ (transaction-IsAtomic _ _ db)

-- A command that raises leaves the database as it was, whatever it had written before it raised,
-- unless it raises `queue_full` or a gate's refusal, which are raised after their record is committed.
pub refused_command_changes_nothing :
    (c : Command) (db : Database) (code : Code) (db' : Database)
    → execute c db ≡ (err code, db')
    → is_recorded code ≡ false
    → db' ≡ db
refused_command_changes_nothing c db code db' h = subst (IsAtomic db) h (execute-IsAtomic c db)
