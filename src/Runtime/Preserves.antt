-- ===== src/Runtime/Preserves.antt =====
-- From the blocks to every history: what each block keeps, each command keeps, whether it succeeds,
-- is refused, or records a refusal before it raises.
use system_trade_with_llm_or.Prelude.{
  ℕ, Bool, true, false, Option, none, some, List, [], ◌∷◌, not, ◌&&◌, ◌==◌, ltb, if◌then◌else◌,
}
use system_trade_with_llm_or.Schema.{
  Database, Identifier, Instant, Reason, LogicalRequest, LogicalResult, RawIntent,
}
use system_trade_with_llm_or.Schema.States.{AttemptState, is_pending, is_staging, is_succeeded}
use system_trade_with_llm_or.Schema.States
use system_trade_with_llm_or.Schema.Codes.{Code}
use system_trade_with_llm_or.Tx.{Tx, Result, ok, err, Operation}
use system_trade_with_llm_or.Tx.Keeps.{Keeps, Keeps-bind, transaction-Keeps}
use system_trade_with_llm_or.Lease.{
  RuntimeLease, LeasePolicy, assert_fence, fenced, change_lease, heartbeat_lease, release_lease,
  validate_fence, or_refuse, lease_in_time, heartbeat_block,
}
use system_trade_with_llm_or.Requests.{insert_logical_request, add_logical_request}
use system_trade_with_llm_or.Queue.{
  QueuePolicy, enqueue_block, claim_block, enqueue_logical_request, claim_next_queued,
  raise_rejected,
}
use system_trade_with_llm_or.Queue.Claims.{Lineage, claimed_block, assert_claimed_logical_request}
use system_trade_with_llm_or.Attempts.{
  insert_attempt, reserved_attempt, reserve_block, discard_block, start_block, add_physical_attempt,
  reserve_next_physical_attempt, discard_reserved_attempt, mark_physical_attempt_started,
}
use system_trade_with_llm_or.Gates.Policy.{GatePolicy, GateKeys, GateReservation}
use system_trade_with_llm_or.Gates.Acquire.{
  NewAttempt, Block, acquire_block, acquire_gates, raise_blocked,
}
use system_trade_with_llm_or.Gates.Finish.{
  finish_block, release_gates, record_retry_after, record_unknown_outcome, finish_gate_reservation,
  is_release_outcome, eligibility,
}
use system_trade_with_llm_or.Flights.Results.{
  complete_block, finalize_block, complete_logical_request, finalize_logical_request,
}
use system_trade_with_llm_or.Flights.Reconcile.{acquire_lease_block, acquire_lease}
use system_trade_with_llm_or.Flights.Admit.{admit_block, admit_logical_request}
use system_trade_with_llm_or.Flights.Cancel.{cancel_block, cancel_admitted_request}
use system_trade_with_llm_or.Publications.{
  RawReference, begin_block, change_publication, is_committable, commit, in_states, set_raw,
  begin_raw_publication, commit_raw_publication, fail_raw_publication, transition_raw_publication,
  mark_raw_publication_reconciliation_required,
}
use system_trade_with_llm_or.Recovery.{recover_block, recover_expired_lease}
use system_trade_with_llm_or.Runtime.{Fenced, Command, execute_fenced, execute, run}

-- Each public method's block keeps `P`.
pub record BlocksKeep (P : Database → Type 0) : Type 0 where
  pub add_request : (r : LogicalRequest) → Keeps P (insert_logical_request r)
  pub add_attempt :
      (id logical : Identifier) (sequence generation : ℕ) (created : Instant)
      → Keeps P (insert_attempt (reserved_attempt id logical sequence generation created))
  pub enqueue :
      (r : LogicalRequest) (domain : Identifier) (now : Instant) (policy : QueuePolicy)
      → Keeps P (enqueue_block r domain now policy)
  pub admit :
      (r : LogicalRequest) (domain : Identifier) (applicable : Bool) (now : Instant)
      (policy : QueuePolicy)
      → Keeps P (admit_block r domain applicable now policy)
  pub cancel :
      (id : Identifier) (reason : Reason) (now : Instant) → Keeps P (cancel_block id reason now)
  pub claim : (domain : Identifier) (now : Instant) → Keeps P (claim_block domain now)
  pub claimed : (lineage : Lineage) → Keeps P (claimed_block lineage)
  pub acquire :
      (id : Identifier) (attempt : NewAttempt) (keys : GateKeys) (policy : GatePolicy)
      (generation : ℕ) (now : Instant)
      → Keeps P (acquire_block id attempt keys policy generation now)
  pub finish :
      (reservation : GateReservation) (outcome : AttemptState) (retry_after : Option ℕ)
      (eligible : Bool) (generation : ℕ) (now : Instant)
      → Keeps P (finish_block reservation outcome retry_after eligible generation now)
  pub reserve :
      (id logical : Identifier) (generation : ℕ) (now : Instant)
      → Keeps P (reserve_block id logical generation now)
  pub discard : (id : Identifier) (generation : ℕ) → Keeps P (discard_block id generation)
  pub start : (id : Identifier) (generation : ℕ) → Keeps P (start_block id generation)
  pub begin : (intent : RawIntent) (now : Instant) → Keeps P (begin_block intent now)
  pub commit_raw :
      (reference : RawReference) (now : Instant)
      → Keeps P (change_publication (is_committable reference) (commit reference.relative_path now))
  pub fail_raw :
      (id : Identifier)
      → Keeps P (change_publication (in_states id is_pending) (set_raw States.RawState.failed))
  pub reconcile_raw :
      (id : Identifier)
      → Keeps P (
          change_publication
            (in_states id is_staging)
            (set_raw States.RawState.reconciliation_required))
  pub complete : (result : LogicalResult) (now : Instant) → Keeps P (complete_block result now)
  pub finalize : (result : LogicalResult) (now : Instant) → Keeps P (finalize_block result now)
  pub fence : (lease : RuntimeLease) (now : Instant) → Keeps P (assert_fence lease now)
  pub take :
      (owner : Identifier) (now : Instant) (policy : LeasePolicy)
      → Keeps P (acquire_lease_block owner now policy)
  pub recover :
      (owner : Identifier) (now : Instant) (policy : LeasePolicy)
      → Keeps P (recover_block owner now policy)
  pub heartbeat :
      (lease : RuntimeLease) (now : Instant) (policy : LeasePolicy)
      → Keeps P (heartbeat_block lease now policy)
  pub give_back :
      (lease : RuntimeLease) → Keeps P (change_lease lease (λ row. record row { active = false }))

module _ {P : Database → Type 0} where
  fenced-Keeps :
      {A : Type 0} (c : Code) (lease : RuntimeLease) (now : Instant) (m : Tx A)
      → Keeps P (assert_fence lease now)
      → Keeps P m
      → (db : Database) → P db
      → P (fenced c lease now m db).1
  unfolding fenced
  fenced-Keeps c lease now m kf km =
      transaction-Keeps c _ (Keeps-bind (assert_fence lease now) _ kf (λ _. km))

module _ (P : Database → Type 0) where
  raise_rejected-Keeps :
      {A : Type 0} (t : Result Code (Bool × A) × Database) → P t.1 → P (raise_rejected t).1
  raise_rejected-Keeps (ok (true, a), db) h = h
  raise_rejected-Keeps (ok (false, a), db) h = h
  raise_rejected-Keeps (err c, db) h = h

  raise_blocked-Keeps :
      (r : GateReservation) (t : Result Code (Option Block) × Database)
      → P t.1
      → P (raise_blocked r t).1
  raise_blocked-Keeps r (ok none, db) h = h
  raise_blocked-Keeps r (ok (some b), db) h = h
  raise_blocked-Keeps r (err c, db) h = h

  or_refuse-Keeps :
      {A : Type 0} (r : Result Code (Unit {0})) (op : Operation A) (db : Database)
      → P db
      → P (op db).1
      → P (or_refuse r op db).1
  or_refuse-Keeps (ok u) op db h k = k
  or_refuse-Keeps (err c) op db h k = h

  if-Keeps : {A : Type 0} (b : Bool) (s t : A × Database) → P s.1 → P t.1 → P (if b then s else t).1
  if-Keeps true s t hs ht = hs
  if-Keeps false s t hs ht = ht

module _ {P : Database → Type 0} (keep : BlocksKeep P) where
  finish-Keeps :
      (reservation : GateReservation) (outcome : AttemptState) (delay : Option ℕ) (eligible : Bool)
      (lease : RuntimeLease) (now : Instant) (db : Database)
      → P db
      → P (finish_gate_reservation reservation outcome delay eligible lease now db).1
  unfolding finish_gate_reservation
  finish-Keeps reservation outcome delay eligible lease now =
      fenced-Keeps _ lease now _ (keep.fence lease now)
        (keep.finish reservation outcome delay eligible lease.generation now)

  pub execute_fenced-Keeps :
      (lease : RuntimeLease) (now : Instant) (c : Fenced) (db : Database)
      → P db
      → P (execute_fenced lease now c db).1
  unfolding execute_fenced enqueue_logical_request admit_logical_request cancel_admitted_request
      claim_next_queued assert_claimed_logical_request acquire_gates release_gates
      record_retry_after record_unknown_outcome reserve_next_physical_attempt
      discard_reserved_attempt mark_physical_attempt_started begin_raw_publication
      commit_raw_publication fail_raw_publication mark_raw_publication_reconciliation_required
      transition_raw_publication complete_logical_request finalize_logical_request validate_fence
  execute_fenced-Keeps lease now (Fenced.enqueue r domain policy) db h =
      raise_rejected-Keeps P _
        (fenced-Keeps _ lease now _ (keep.fence lease now) (keep.enqueue r domain now policy) db h)
  execute_fenced-Keeps lease now (Fenced.admit r domain applicable policy) db h =
      raise_rejected-Keeps P _ (
        fenced-Keeps _ lease now _ (keep.fence lease now)
          (keep.admit r domain applicable now policy) db h)
  execute_fenced-Keeps lease now (Fenced.cancel id reason) db h =
      fenced-Keeps _ lease now _ (keep.fence lease now) (keep.cancel id reason now) db h
  execute_fenced-Keeps lease now (Fenced.claim domain) db h =
      fenced-Keeps _ lease now _ (keep.fence lease now) (keep.claim domain now) db h
  execute_fenced-Keeps lease now (Fenced.assert_claimed lineage) db h =
      if-Keeps P (ltb lineage.source_approval_version 1) _ _ h (
        if-Keeps P (ltb lineage.source_profile_version 1) _ _ h
          (fenced-Keeps _ lease now _ (keep.fence lease now) (keep.claimed lineage) db h))
  execute_fenced-Keeps lease now (Fenced.acquire id attempt keys policy) db h =
      if-Keeps P (attempt.lease_generation == lease.generation) _ _
        (raise_blocked-Keeps P _ _ (
          fenced-Keeps _ lease now _ (keep.fence lease now)
            (keep.acquire id attempt keys policy lease.generation now) db h))
        h
  execute_fenced-Keeps lease now (Fenced.release reservation outcome eligible) db h =
      if-Keeps P (not (is_release_outcome outcome)) _ _ h (
        if-Keeps P (is_succeeded outcome && not (eligibility outcome eligible)) _ _ h
          (finish-Keeps reservation outcome _ _ lease now db h))
  execute_fenced-Keeps lease now (Fenced.retry_after reservation none) db h = h
  execute_fenced-Keeps lease now (Fenced.retry_after reservation (some delay)) db h =
      finish-Keeps reservation _ _ _ lease now db h
  execute_fenced-Keeps lease now (Fenced.unknown_outcome reservation) db h =
      finish-Keeps reservation _ _ _ lease now db h
  execute_fenced-Keeps lease now (Fenced.reserve id logical) db h =
      fenced-Keeps _ lease now _ (keep.fence lease now)
        (keep.reserve id logical lease.generation now) db h
  execute_fenced-Keeps lease now (Fenced.discard id) db h =
      fenced-Keeps _ lease now _ (keep.fence lease now) (keep.discard id lease.generation) db h
  execute_fenced-Keeps lease now (Fenced.start id) db h =
      fenced-Keeps _ lease now _ (keep.fence lease now) (keep.start id lease.generation) db h
  execute_fenced-Keeps lease now (Fenced.begin_raw intent) db h =
      fenced-Keeps _ lease now _ (keep.fence lease now) (keep.begin intent now) db h
  execute_fenced-Keeps lease now (Fenced.commit_raw reference) db h =
      fenced-Keeps _ lease now _ (keep.fence lease now) (keep.commit_raw reference now) db h
  execute_fenced-Keeps lease now (Fenced.fail_raw id) db h =
      fenced-Keeps _ lease now _ (keep.fence lease now) (keep.fail_raw id) db h
  execute_fenced-Keeps lease now (Fenced.reconcile_raw id) db h =
      fenced-Keeps _ lease now _ (keep.fence lease now) (keep.reconcile_raw id) db h
  execute_fenced-Keeps lease now (Fenced.complete result) db h =
      fenced-Keeps _ lease now _ (keep.fence lease now) (keep.complete result now) db h
  execute_fenced-Keeps lease now (Fenced.finalize result) db h =
      fenced-Keeps _ lease now _ (keep.fence lease now) (keep.finalize result now) db h
  execute_fenced-Keeps lease now Fenced.validate db h =
      transaction-Keeps _ _ (keep.fence lease now) db h

  pub execute-Keeps : (c : Command) (db : Database) → P db → P (execute c db).1
  unfolding execute add_logical_request add_physical_attempt acquire_lease recover_expired_lease
      heartbeat_lease release_lease
  execute-Keeps (Command.under lease now c) db h = execute_fenced-Keeps lease now c db h
  execute-Keeps (Command.add_request r) db h = transaction-Keeps _ _ (keep.add_request r) db h
  execute-Keeps (Command.add_attempt id logical sequence generation created) db h =
      transaction-Keeps _ _ (keep.add_attempt id logical sequence generation created) db h
  execute-Keeps (Command.take owner now policy) db h =
      transaction-Keeps _ _ (keep.take owner now policy) db h
  execute-Keeps (Command.recover owner now policy) db h =
      transaction-Keeps _ _ (keep.recover owner now policy) db h
  execute-Keeps (Command.heartbeat lease now policy) db h =
      or_refuse-Keeps P (lease_in_time lease now) _ db h
        (transaction-Keeps _ _ (keep.heartbeat lease now policy) db h)
  execute-Keeps (Command.give_back lease now) db h =
      or_refuse-Keeps P (lease_in_time lease now) _ db h
        (transaction-Keeps _ _ (keep.give_back lease) db h)

  pub run-Keeps : (cs : List Command) (db : Database) → P db → P (run cs db)
  unfolding run
  run-Keeps [] db h = h
  run-Keeps (c ∷ cs) db h = run-Keeps cs (execute c db).1 (execute-Keeps c db h)
