-- ===== src/Runtime/Walk/Settle.antt =====
-- The blocks that settle a flight, statement by statement: they write neither attempts nor gates nor
-- the lease.
use system_trade_with_llm_or.Prelude.{◌≡◌, Bool, true, false, ℕ, refl, Option, none, some}
use system_trade_with_llm_or.Schema.{
  Database, Identifier, Instant, LogicalRequest, LogicalResult, Consumer,
}
use system_trade_with_llm_or.Schema.States.{LogicalState}
use system_trade_with_llm_or.Tx.Keeps.{Keeps, Keeps-bind, Keeps-gets, Keeps-for_each, keeps_rules}
use system_trade_with_llm_or.Recovery.{
  requeue_unattempted, fail_sent, fail_between, between_outcome,
}
use system_trade_with_llm_or.Requests.{persist_logical_result, result_state}
use system_trade_with_llm_or.Flights.Results.{
  validate_attempt_outcome, validate_finalization, deliver, finish_flight, finish_single_flight,
}
use system_trade_with_llm_or.Flights.Reconcile.{
  reconcile_leader, reconcile_flight, reconcile_terminal_flights,
}
use system_trade_with_llm_or.Runtime.Units.{
  Units, EventUnits, RequestUnits, QueueUnits, FlightUnits,
}

pub record SettleUnits (P : Database → Type 0) : Type 0 where
  pub events : EventUnits P
  pub requests : RequestUnits P
  pub queue : QueueUnits P
  pub flights : FlightUnits P

abbrev pub settling : {P : Database → Type 0} → Units P → SettleUnits P
settling u = record {
  events = u.events;
  requests = u.requests;
  queue = u.queue;
  flights = u.flights;
}

module _ {P : Database → Type 0} (s : SettleUnits P) where
  open s use {events, requests, queue, flights}

  pub persist : (result : LogicalResult) → Keeps P (persist_logical_result result)
  unfolding persist_logical_result
  persist result = requests.settle result _ _ refl

  validated : (result : LogicalResult) → Keeps P (validate_attempt_outcome result)
  unfolding validate_attempt_outcome
  validated result = search keeps_rules depth 20

  pub finalizable : (result : LogicalResult) → Keeps P (validate_finalization result)
  unfolding validate_finalization
  finalizable result = search (keeps_rules, validated) depth 20

  pub hand_out :
      (result : LogicalResult) (fingerprint : Identifier) (now : Instant) (c : Consumer)
      → Keeps P (deliver result fingerprint now c)
  unfolding deliver
  hand_out result fingerprint now c =
      search (keeps_rules, persist, flights.complete, events.admission_event) depth 20

  finish_one :
      (result : LogicalResult) (now : Instant) (c : Option Consumer)
      → Keeps P (finish_flight result now c)
  unfolding finish_flight
  finish_one result now none = search keeps_rules
  finish_one result now (some c) =
      search (keeps_rules, hand_out, flights.end, queue.withdraw) depth 20

  pub finish : (result : LogicalResult) (now : Instant) → Keeps P (finish_single_flight result now)
  unfolding finish_single_flight
  finish result now = search (keeps_rules, finish_one) depth 20

  leader_known :
      (request : LogicalRequest) (result : Option LogicalResult) (now : Instant)
      → Keeps P (reconcile_leader request result now)
  unfolding reconcile_leader
  leader_known request none now = search keeps_rules
  leader_known request (some result) now = search (keeps_rules, validated, finish) depth 20

  reconcile_one :
      (now : Instant) (row : Option LogicalRequest × Option Consumer × Identifier)
      → Keeps P (reconcile_flight now row)
  unfolding reconcile_flight
  reconcile_one now (request, consumer, leader) = search (keeps_rules, leader_known) depth 20

  pub reconcile :
      (now : Instant) (fingerprint : Option Identifier)
      → Keeps P (reconcile_terminal_flights now fingerprint)
  unfolding reconcile_terminal_flights
  reconcile now fingerprint = search (keeps_rules, reconcile_one) depth 20

  pub requeue : (now : Instant) → Keeps P (requeue_unattempted now)
  unfolding requeue_unattempted
  requeue now = Keeps-bind _ _ (Keeps-gets _) (λ entries.
      Keeps-bind _ _
        (Keeps-for_each entries _ (λ e. events.queue_event e.logical_request_id _ now _))
        (λ _. queue.requeue))

  pub sent : (previous : ℕ) (now : Instant) → Keeps P (fail_sent previous now)
  unfolding fail_sent
  sent previous now =
      Keeps-bind _ _ (Keeps-gets _) (λ ids. Keeps-for_each ids _ (λ id. requests.settle _ _ _ refl))

  outcome_failed : (b : Bool) → LogicalState.failed ≡ result_state (between_outcome b)
  outcome_failed true = refl
  outcome_failed false = refl

  pub between : (now : Instant) → Keeps P (fail_between now)
  unfolding fail_between
  between now = Keeps-bind _ _ (Keeps-gets _) (λ ids.
      Keeps-bind _ _ (Keeps-gets _)
        (λ attempts. Keeps-for_each ids _ (λ id. requests.fail _ (outcome_failed _))))
