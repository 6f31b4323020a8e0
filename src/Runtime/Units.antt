-- ===== src/Runtime/Units.antt =====
-- The statements that change the database, grouped by the tables that they write. A property that
-- every statement keeps is kept by every block (Runtime.Walk); a property that does not read
-- a group's tables is kept by the group for that reason alone.
pub mod Frames
use system_trade_with_llm_or.Prelude.{ℕ, ◌+◌, ◌≡◌, Bool, false, Option, none, some, List}
use system_trade_with_llm_or.Schema.{
  Database, Identifier, Instant, Reason, LogicalRequest, LogicalResult, PhysicalAttempt, LeaseRow,
  QueueEntry, Cursor, QueueEvent, Gate, Reservation, ReservationScope, GateStart, GateEvent, Flight,
  Consumer, AdmissionEvent, RawIntent, RawPublication,
}
use system_trade_with_llm_or.Schema.States
use system_trade_with_llm_or.Schema.States.{
  LogicalState, AttemptState, GateScope, QueueEventType, GateEventType, AdmissionEventType,
  is_pending, is_staging,
}
use system_trade_with_llm_or.Schema.Codes.{Code}
use system_trade_with_llm_or.Tx.Keeps.{
  Keeps, Keeps-modify, Keeps-insert_if, Keeps-update_one, Keeps-bind, Keeps-gets, Keeps-raise_if,
  Keeps-require, Keeps-pure, keeps_rules,
}
use system_trade_with_llm_or.Lease.{
  RuntimeLease, LeasePolicy, take_lease, next_generation, change_lease,
}
use system_trade_with_llm_or.Requests.{
  insert_logical_request, append_queue_event, append_admission_event, append_gate_event,
  close_request, insert_result, settle_request, result_state,
}
use system_trade_with_llm_or.Queue.{
  insert_entry, dequeue_entry, move_cursor, fail_request, fail_with_result,
}
use system_trade_with_llm_or.Attempts.{insert_attempt, discard_block, start_block}
use system_trade_with_llm_or.Gates.Policy.{
  leave_gate, insert_reservation, insert_scope, insert_start, close_reservation,
}
use system_trade_with_llm_or.Gates.Acquire.{count_in}
use system_trade_with_llm_or.Gates.Finish.{end_attempt, cool_provider}
use system_trade_with_llm_or.Flights.Results.{complete_consumer, end_flight, withdraw_entry}
use system_trade_with_llm_or.Flights.Admit.{launch, insert_consumer, cancel_consumer}
use system_trade_with_llm_or.Flights.Cancel.{
  lose_started, fail_attempt, promote_consumer, hand_flight, cancel_entries,
}
use system_trade_with_llm_or.Publications.{
  RawReference, begin_block, change_publication, is_committable, commit, in_states, set_raw,
}
use system_trade_with_llm_or.Recovery.{requeue_entries, take_over_attempts, take_over_lease}

pub record EventUnits (P : Database → Type 0) : Type 0 where
  pub queue_event :
      (id : Identifier) (event : QueueEventType) (now : Instant) (reason : Option Reason)
      → Keeps P (append_queue_event id event now reason)
  pub admission_event :
      (id : Identifier) (event : AdmissionEventType) (now : Instant) (reason : Option Reason)
      → Keeps P (append_admission_event id event now reason)
  pub gate_event :
      (id : Identifier) (reservation : Option Identifier) (scope : Option GateScope)
      (key : Option Identifier) (event : GateEventType) (now : Instant) (reason : Option Reason)
      → Keeps P (append_gate_event id reservation scope key event now reason)

-- A request is closed in the state that its result records.
pub record RequestUnits (P : Database → Type 0) : Type 0 where
  pub insert : (r : LogicalRequest) → Keeps P (insert_logical_request r)
  pub settle :
      (result : LogicalResult) (state : LogicalState) (refused : Code)
      → state ≡ result_state result.outcome
      → Keeps P (settle_request result state refused)
  pub fail :
      (result : LogicalResult)
      → LogicalState.failed ≡ result_state result.outcome
      → Keeps P (fail_with_result result)

pub record QueueUnits (P : Database → Type 0) : Type 0 where
  pub insert : (e : QueueEntry) → Keeps P (insert_entry e)
  pub dequeue : (id : Identifier) (now : Instant) → Keeps P (dequeue_entry id now)
  pub cursor : (domain task : Identifier) → Keeps P (move_cursor domain task)
  pub withdraw : (id : Identifier) → Keeps P (withdraw_entry id)
  pub cancel : (id : Identifier) → Keeps P (cancel_entries id)
  pub requeue : Keeps P requeue_entries

pub record AttemptUnits (P : Database → Type 0) : Type 0 where
  pub insert : (a : PhysicalAttempt) → a.state ≡ AttemptState.reserved → Keeps P (insert_attempt a)
  pub discard : (id : Identifier) (generation : ℕ) → Keeps P (discard_block id generation)
  pub start : (id : Identifier) (generation : ℕ) → Keeps P (start_block id generation)
  pub lose : (id : Identifier) → Keeps P (lose_started id)
  pub fail : (id : Identifier) → Keeps P (fail_attempt id)
  pub end :
      (id : Identifier) (outcome : AttemptState) (eligible : Bool)
      → Keeps P (end_attempt id outcome eligible)
  pub take_over : (previous generation : ℕ) → Keeps P (take_over_attempts previous generation)

pub record GateUnits (P : Database → Type 0) : Type 0 where
  pub leave : (refused : Code) (s : ReservationScope) → Keeps P (leave_gate refused s)
  pub count :
      (scope : GateScope) (key : Identifier) (now : Instant) → Keeps P (count_in scope key now)
  pub reservation : (r : Reservation) → Keeps P (insert_reservation r)
  pub scope : (s : ReservationScope) → Keeps P (insert_scope s)
  pub start : (s : GateStart) → Keeps P (insert_start s)
  pub close :
      (id : Identifier) (state : States.ReservationState) → Keeps P (close_reservation id state)
  pub cool : (key : Identifier) (deadline : Instant) → Keeps P (cool_provider key deadline)

pub record FlightUnits (P : Database → Type 0) : Type 0 where
  pub launch : (fingerprint leader : Identifier) → Keeps P (launch fingerprint leader)
  pub insert : (c : Consumer) → Keeps P (insert_consumer c)
  pub cancel : (id : Identifier) → Keeps P (cancel_consumer id)
  pub complete : (owner id : Identifier) → Keeps P (complete_consumer owner id)
  pub promote : (id : Identifier) → Keeps P (promote_consumer id)
  pub hand : (fingerprint leader : Identifier) → Keeps P (hand_flight fingerprint leader)
  pub end : (fingerprint : Identifier) → Keeps P (end_flight fingerprint)

pub record PublicationUnits (P : Database → Type 0) : Type 0 where
  pub begin : (intent : RawIntent) (now : Instant) → Keeps P (begin_block intent now)
  pub commit_raw :
      (reference : RawReference) (now : Instant)
      → Keeps P (change_publication (is_committable reference) (commit reference.relative_path now))
  pub fail_raw :
      (id : Identifier)
      → Keeps P (change_publication (in_states id is_pending) (set_raw States.RawState.failed))
  pub reconcile_raw :
      (id : Identifier)
      → Keeps P (
          change_publication
            (in_states id is_staging)
            (set_raw States.RawState.reconciliation_required))

pub record LeaseUnits (P : Database → Type 0) : Type 0 where
  pub take :
      (owner : Identifier) (now : Instant) (policy : LeasePolicy)
      → Keeps P (take_lease owner now policy)
  pub take_over :
      (owner : Identifier) (previous : ℕ) (now : Instant) (policy : LeasePolicy)
      → Keeps P (take_over_lease owner previous (previous + 1) now policy)
  pub heartbeat :
      (lease : RuntimeLease) (now expires : Instant)
      → Keeps P
          (change_lease lease (λ row. record row { heartbeat_at = now; expires_at = expires }))
  pub give_back :
      (lease : RuntimeLease) → Keeps P (change_lease lease (λ row. record row { active = false }))

pub record Units (P : Database → Type 0) : Type 0 where
  pub events : EventUnits P
  pub requests : RequestUnits P
  pub queue : QueueUnits P
  pub attempts : AttemptUnits P
  pub gates : GateUnits P
  pub flights : FlightUnits P
  pub publications : PublicationUnits P
  pub lease : LeaseUnits P
