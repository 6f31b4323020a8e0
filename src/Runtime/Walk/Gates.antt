-- ===== src/Runtime/Walk/Gates.antt =====
-- The blocks on the gates, statement by statement.
use system_trade_with_llm_or.Prelude.{ℕ, Bool, Option, none, some, List}
use system_trade_with_llm_or.Schema.{
  Database, Identifier, Instant, Reason, PhysicalAttempt, Reservation, ReservationScope,
}
use system_trade_with_llm_or.Schema.States.{AttemptState, GateScope, GateEventType}
use system_trade_with_llm_or.Schema.Codes.{Code}
use system_trade_with_llm_or.Tx.Keeps.{Keeps, keeps_rules}
use system_trade_with_llm_or.Gates.Policy.{GatePolicy, GateKeys, GateReservation}
use system_trade_with_llm_or.Gates.Acquire.{
  NewAttempt, Block, ensure_attempt, enter_gate, settle_block, acquire_block,
}
use system_trade_with_llm_or.Gates.Finish.{cool_down, finish_block, give_up, release_gate_occupancy}
use system_trade_with_llm_or.Runtime.Units.{Units}

module _ {P : Database → Type 0} (u : Units P) where
  open u use {events, requests, queue, attempts, gates, flights, publications, lease}

  ensure :
      (attempt : NewAttempt) (existing : Option PhysicalAttempt)
      → Keeps P (ensure_attempt attempt existing)
  unfolding ensure_attempt
  ensure attempt none = search (keeps_rules, attempts.insert) depth 20
  ensure attempt (some a) = search keeps_rules

  enter :
      (reservation logical : Identifier) (now : Instant) (s : GateScope × Identifier)
      → Keeps P (enter_gate reservation logical now s)
  unfolding enter_gate
  enter reservation logical now (scope, key) =
      search (keeps_rules, gates.count, gates.scope, gates.start, events.gate_event) depth 20

  settle :
      (id : Identifier) (attempt : NewAttempt) (keys : GateKeys) (generation : ℕ) (now : Instant)
      (b : Option Block)
      → Keeps P (settle_block id attempt keys generation now b)
  unfolding settle_block
  settle id attempt keys generation now (some b) = events.gate_event _ _ _ _ _ _ _
  settle id attempt keys generation now none =
      search (keeps_rules, ensure, enter, gates.reservation) depth 20

  pub acquire :
      (id : Identifier) (attempt : NewAttempt) (keys : GateKeys) (policy : GatePolicy)
      (generation : ℕ) (now : Instant)
      → Keeps P (acquire_block id attempt keys policy generation now)
  unfolding acquire_block
  acquire id attempt keys policy generation now = search (keeps_rules, settle) depth 20

  cool :
      (reservation : GateReservation) (now : Instant) (scopes : List ReservationScope)
      (delay : Option ℕ)
      → Keeps P (cool_down reservation now scopes delay)
  unfolding cool_down
  cool reservation now scopes none = search keeps_rules
  cool reservation now scopes (some delay) =
      search (keeps_rules, gates.cool, events.gate_event) depth 20

  pub finish :
      (reservation : GateReservation) (outcome : AttemptState) (retry_after : Option ℕ)
      (eligible : Bool) (generation : ℕ) (now : Instant)
      → Keeps P (finish_block reservation outcome retry_after eligible generation now)
  unfolding finish_block
  finish reservation outcome retry_after eligible generation now =
      search (keeps_rules, gates.leave, gates.close, attempts.end, cool, events.gate_event) depth 20

  pub release_one :
      (refused : Code) (event : GateEventType) (reason : Reason) (now : Instant) (r : Reservation)
      → Keeps P (give_up refused event reason now r)
  unfolding give_up
  release_one refused event reason now r =
      search (keeps_rules, gates.leave, gates.close, events.gate_event) depth 20

  pub release_all :
      (logical : Identifier) (now : Instant) (reason : Reason)
      → Keeps P (release_gate_occupancy logical now reason)
  unfolding release_gate_occupancy
  release_all logical now reason = search (keeps_rules, release_one) depth 20
