-- ===== src/Runtime/Stale.antt =====
-- A command under a superseded lease is refused, whatever it is, and writes nothing.
use system_trade_with_llm_or.Prelude.{
  ℕ, ◌<◌, ◌≡◌, refl, Bool, true, false, Option, none, some, List, arith, not, ◌&&◌, ◌==◌, ltb,
  if◌then◌else◌,
}
use system_trade_with_llm_or.Schema.{Database, Identifier, Instant, LeaseRow}
use system_trade_with_llm_or.Schema.States.{AttemptState, is_succeeded}
use system_trade_with_llm_or.Schema.Codes.{Code}
use system_trade_with_llm_or.Tx.{Result, ok, err, Operation, Tx, ◌>>=◌, transaction, verify_schema}
use system_trade_with_llm_or.Lease.{RuntimeLease, assert_fence, fenced, validate_fence}
use system_trade_with_llm_or.Queue.{enqueue_logical_request, claim_next_queued, raise_rejected}
use system_trade_with_llm_or.Queue.Claims.{assert_claimed_logical_request}
use system_trade_with_llm_or.Attempts.{
  reserve_next_physical_attempt, discard_reserved_attempt, mark_physical_attempt_started,
}
use system_trade_with_llm_or.Gates.Policy.{GateReservation}
use system_trade_with_llm_or.Gates.Acquire.{Block, acquire_gates, raise_blocked}
use system_trade_with_llm_or.Gates.Finish.{
  release_gates, record_retry_after, record_unknown_outcome, finish_gate_reservation,
  is_release_outcome, eligibility,
}
use system_trade_with_llm_or.Flights.Results.{complete_logical_request, finalize_logical_request}
use system_trade_with_llm_or.Flights.Admit.{admit_logical_request}
use system_trade_with_llm_or.Flights.Cancel.{cancel_admitted_request}
use system_trade_with_llm_or.Publications.{
  begin_raw_publication, commit_raw_publication, fail_raw_publication, transition_raw_publication,
  mark_raw_publication_reconciliation_required,
}
use system_trade_with_llm_or.Runtime.{Fenced, Command, execute_fenced, run, forget, forget_result}
use system_trade_with_llm_or.Runtime.Fencing.{Follows, Succeeds, run-Succeeds}

-- An operation was refused at `db`: it raised, and left `db` as it was.
abbrev pub IsRefused : {A : Type 0} → Database → Result Code A × Database → Type 0
IsRefused db (ok a, db') = ⊥
IsRefused db (err c, db') = db' ≡ db

abbrev IsStale : RuntimeLease → Option LeaseRow → Type 0
IsStale lease none = ⊥
IsStale lease (some row) = lease.generation < row.generation

Follows-IsStale :
    (owner : Identifier) (g : ℕ) (lease : RuntimeLease) (l : Option LeaseRow)
    → Follows owner g l
    → lease.generation < g
    → IsStale lease l
Follows-IsStale owner g lease none h k = h
Follows-IsStale owner g lease (some row) h k = ground arith

fenced-IsRefused :
    (c : Code) {A : Type 0} (m : Tx A) (lease : RuntimeLease) (now : Instant) (db : Database)
    → IsStale lease db.runtime_lease
    → IsRefused db (fenced c lease now m db)
unfolding fenced transaction verify_schema assert_fence ◌>>=◌
fenced-IsRefused c m lease now db h = ground arith

validate-IsRefused :
    (lease : RuntimeLease) (now : Instant) (db : Database)
    → IsStale lease db.runtime_lease
    → IsRefused db (validate_fence lease now db)
unfolding validate_fence transaction verify_schema assert_fence ◌>>=◌
validate-IsRefused lease now db h = ground arith

forget-IsRefused :
    {A : Type 0} (db : Database) (op : Operation A)
    → IsRefused db (op db)
    → IsRefused db (forget op db)
forget-IsRefused {A} db op h = refused (op db) h
  where
    refused :
        (t : Result Code A × Database)
        → IsRefused db t
        → IsRefused db (let (r, db') = t in (forget_result r, db'))
    refused (ok a, db') h = h
    refused (err c, db') h = h

rejected-IsRefused :
    {A : Type 0} (db : Database) (t : Result Code (Bool × A) × Database)
    → IsRefused db t
    → IsRefused db (raise_rejected t)
rejected-IsRefused db (ok a, db') h = absurd h
rejected-IsRefused db (err c, db') h = h

blocked-IsRefused :
    (db : Database) (r : GateReservation) (t : Result Code (Option Block) × Database)
    → IsRefused db t
    → IsRefused db (raise_blocked r t)
blocked-IsRefused db r (ok a, db') h = absurd h
blocked-IsRefused db r (err c, db') h = h

if-IsRefused :
    {A : Type 0} (db : Database) (b : Bool) (s t : Result Code A × Database)
    → IsRefused db s
    → IsRefused db t
    → IsRefused db (if b then s else t)
if-IsRefused db true s t hs ht = hs
if-IsRefused db false s t hs ht = ht

module _ (lease : RuntimeLease) (now : Instant) (db : Database)
    (stale : IsStale lease db.runtime_lease) where
  finish-IsRefused :
      (reservation : GateReservation) (outcome : AttemptState) (delay : Option ℕ) (eligible : Bool)
      → IsRefused db (finish_gate_reservation reservation outcome delay eligible lease now db)
  unfolding finish_gate_reservation
  finish-IsRefused reservation outcome delay eligible = fenced-IsRefused _ _ lease now db stale

  execute-IsRefused : (c : Fenced) → IsRefused db (execute_fenced lease now c db)
  unfolding execute_fenced enqueue_logical_request admit_logical_request cancel_admitted_request
      claim_next_queued assert_claimed_logical_request acquire_gates release_gates
      record_retry_after record_unknown_outcome reserve_next_physical_attempt
      discard_reserved_attempt mark_physical_attempt_started begin_raw_publication
      commit_raw_publication fail_raw_publication mark_raw_publication_reconciliation_required
      transition_raw_publication complete_logical_request finalize_logical_request
  execute-IsRefused (Fenced.enqueue r domain policy) =
      rejected-IsRefused db _ (fenced-IsRefused _ _ lease now db stale)
  execute-IsRefused (Fenced.admit r domain applicable policy) =
      forget-IsRefused db (admit_logical_request r domain applicable lease now policy)
        (rejected-IsRefused db _ (fenced-IsRefused _ _ lease now db stale))
  execute-IsRefused (Fenced.cancel id reason) =
      forget-IsRefused db (cancel_admitted_request id reason lease now)
        (fenced-IsRefused _ _ lease now db stale)
  execute-IsRefused (Fenced.claim domain) =
      forget-IsRefused db (claim_next_queued domain lease now)
        (fenced-IsRefused _ _ lease now db stale)
  execute-IsRefused (Fenced.assert_claimed l) =
      if-IsRefused db (ltb l.source_approval_version 1) _ _ refl (
        if-IsRefused db (ltb l.source_profile_version 1) _ _ refl
          (fenced-IsRefused _ _ lease now db stale))
  execute-IsRefused (Fenced.acquire id attempt keys policy) =
      forget-IsRefused db (acquire_gates id attempt keys policy lease now) (
        if-IsRefused db (attempt.lease_generation == lease.generation) _ _
          (blocked-IsRefused db _ _ (fenced-IsRefused _ _ lease now db stale)) refl)
  execute-IsRefused (Fenced.release reservation outcome eligible) =
      if-IsRefused db (not (is_release_outcome outcome)) _ _ refl (
        if-IsRefused db (is_succeeded outcome && not (eligibility outcome eligible)) _ _ refl
          (finish-IsRefused reservation _ _ _))
  execute-IsRefused (Fenced.retry_after reservation none) = refl
  execute-IsRefused (Fenced.retry_after reservation (some delay)) =
      finish-IsRefused reservation _ _ _
  execute-IsRefused (Fenced.unknown_outcome reservation) = finish-IsRefused reservation _ _ _
  execute-IsRefused (Fenced.reserve id logical) =
      forget-IsRefused db (reserve_next_physical_attempt id logical lease now)
        (fenced-IsRefused _ _ lease now db stale)
  execute-IsRefused (Fenced.discard id) = fenced-IsRefused _ _ lease now db stale
  execute-IsRefused (Fenced.start id) = fenced-IsRefused _ _ lease now db stale
  execute-IsRefused (Fenced.begin_raw intent) = fenced-IsRefused _ _ lease now db stale
  execute-IsRefused (Fenced.commit_raw reference) = fenced-IsRefused _ _ lease now db stale
  execute-IsRefused (Fenced.fail_raw id) = fenced-IsRefused _ _ lease now db stale
  execute-IsRefused (Fenced.reconcile_raw id) = fenced-IsRefused _ _ lease now db stale
  execute-IsRefused (Fenced.complete result) = fenced-IsRefused _ _ lease now db stale
  execute-IsRefused (Fenced.finalize result) = fenced-IsRefused _ _ lease now db stale
  execute-IsRefused Fenced.validate = validate-IsRefused lease now db stale

-- Once the runtime lease is of generation `g` or a later one, every fenced command under a lease of
-- an earlier generation is refused after any further history, and leaves the database as it was.
pub superseded_lease_writes_nothing :
    (owner : Identifier) (g : ℕ) (db : Database) (cs : List Command) (lease : RuntimeLease)
    (now : Instant) (c : Fenced)
    → Succeeds owner g db
    → lease.generation < g
    → IsRefused (run cs db) (execute_fenced lease now c (run cs db))
superseded_lease_writes_nothing owner g db cs lease now c h older =
    execute-IsRefused lease now (run cs db)
      (Follows-IsStale owner g lease (run cs db).runtime_lease (run-Succeeds owner g cs db h) older)
      c
