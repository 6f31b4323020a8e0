-- ===== src/Runtime/Units/Frames.antt =====
-- Statements of the groups of Runtime.Units that a property does not see.
use system_trade_with_llm_or.Prelude.{Option, none, some, List}
use system_trade_with_llm_or.Schema.{
  Database, Instant, LogicalRequest, LogicalResult, PhysicalAttempt, LeaseRow, QueueEntry, Cursor,
  QueueEvent, Gate, Reservation, ReservationScope, GateStart, GateEvent, Flight, Consumer,
  AdmissionEvent, RawPublication,
}
use system_trade_with_llm_or.Tx.Keeps.{
  Keeps, Keeps-modify, Keeps-insert_if, Keeps-update_one, Keeps-bind, Keeps-gets, Keeps-raise_if,
  Keeps-require, Keeps-pure, keeps_rules,
}
use system_trade_with_llm_or.Lease.{take_lease, next_generation, change_lease}
use system_trade_with_llm_or.Requests.{
  insert_logical_request, append_queue_event, append_admission_event, append_gate_event,
  close_request, insert_result, settle_request,
}
use system_trade_with_llm_or.Queue.{
  insert_entry, dequeue_entry, move_cursor, fail_request, fail_with_result,
}
use system_trade_with_llm_or.Attempts.{insert_attempt, discard_block, start_block}
use system_trade_with_llm_or.Gates.Policy.{
  leave_gate, insert_reservation, insert_scope, insert_start, close_reservation,
}
use system_trade_with_llm_or.Gates.Acquire.{count_in}
use system_trade_with_llm_or.Gates.Finish.{end_attempt, cool_provider}
use system_trade_with_llm_or.Flights.Results.{complete_consumer, end_flight, withdraw_entry}
use system_trade_with_llm_or.Flights.Admit.{launch, insert_consumer, cancel_consumer}
use system_trade_with_llm_or.Flights.Cancel.{
  lose_started, fail_attempt, promote_consumer, hand_flight, cancel_entries,
}
use system_trade_with_llm_or.Publications.{begin_block, change_publication}
use system_trade_with_llm_or.Recovery.{requeue_entries, take_over_attempts, take_over_lease}
use system_trade_with_llm_or.Runtime.Units.{
  EventUnits, RequestUnits, QueueUnits, AttemptUnits, GateUnits, FlightUnits, PublicationUnits,
  LeaseUnits,
}

-- Frames: the group is kept where `P` does not change with its tables.
module _ {P : Database → Type 0} where
  pub events_frame :
      ((db : Database) (q : List QueueEvent) (a : List AdmissionEvent) (g : List GateEvent)
        → P db
        → P (record db { queue_events = q; admission_events = a; gate_events = g }))
      → EventUnits P
  unfolding append_queue_event append_admission_event append_gate_event
  events_frame frame = record {
    queue_event = λ id event now reason. Keeps-insert_if _ _ (λ db _. frame db _ _ _);
    admission_event = λ id event now reason. Keeps-insert_if _ _ (λ db _. frame db _ _ _);
    gate_event =
        λ id reservation scope key event now reason. Keeps-insert_if _ _ (λ db _. frame db _ _ _);
  }

  pub requests_frame :
      ((db : Database) (q : List LogicalRequest) (r : List LogicalResult)
        → P db
        → P (record db { logical_requests = q; logical_results = r }))
      → RequestUnits P
  unfolding insert_logical_request settle_request close_request insert_result fail_with_result
      fail_request
  requests_frame frame = record {
    insert = λ r. Keeps-insert_if _ _ (λ db _. frame db _ _);
    settle = λ result state refused _.
        Keeps-bind _ _ (Keeps-update_one _ _ refused (λ db _. frame db _ _))
          (λ _. Keeps-insert_if _ _ (λ db _. frame db _ _));
    fail = λ result _.
        Keeps-bind _ _ (Keeps-modify _ (λ db. frame db _ _))
          (λ _. Keeps-insert_if _ _ (λ db _. frame db _ _));
  }

  pub queue_frame :
      ((db : Database) (q : List QueueEntry) (c : List Cursor)
        → P db
        → P (record db { queue_entries = q; provider_queue_cursors = c }))
      → QueueUnits P
  unfolding insert_entry dequeue_entry move_cursor withdraw_entry cancel_entries requeue_entries
  queue_frame frame = record {
    insert = λ e. Keeps-insert_if _ _ (λ db _. frame db _ _);
    dequeue = λ id now. Keeps-update_one _ _ _ (λ db _. frame db _ _);
    cursor = λ domain task. Keeps-modify _ (λ db. frame db _ _);
    withdraw = λ id. Keeps-modify _ (λ db. frame db _ _);
    cancel = λ id. Keeps-modify _ (λ db. frame db _ _);
    requeue = Keeps-modify _ (λ db. frame db _ _);
  }

  pub attempts_frame :
      ((db : Database) (a : List PhysicalAttempt) → P db → P (record db { physical_attempts = a }))
      → AttemptUnits P
  unfolding insert_attempt discard_block start_block lose_started fail_attempt end_attempt
      take_over_attempts
  attempts_frame frame = record {
    insert = λ a _. Keeps-insert_if _ _ (λ db _. frame db _);
    discard = λ id generation. Keeps-update_one _ _ _ (λ db _. frame db _);
    start = λ id generation. Keeps-update_one _ _ _ (λ db _. frame db _);
    lose = λ id. Keeps-modify _ (λ db. frame db _);
    fail = λ id. Keeps-modify _ (λ db. frame db _);
    end = λ id outcome eligible. Keeps-modify _ (λ db. frame db _);
    take_over = λ previous generation.
        Keeps-bind _ _ (Keeps-modify _ (λ db. frame db _)) (λ _. Keeps-modify _ (λ db. frame db _));
  }

  pub gates_frame :
      ((db : Database) (g : List Gate) (r : List Reservation) (s : List ReservationScope)
          (t : List GateStart)
        → P db
        → P (record db {
          gate_state = g;
          gate_reservations = r;
          gate_reservation_scopes = s;
          gate_starts = t;
        }))
      → GateUnits P
  unfolding leave_gate count_in insert_reservation insert_scope insert_start close_reservation
      cool_provider
  gates_frame frame = record {
    leave = λ refused s. Keeps-update_one _ _ _ (λ db _. frame db _ _ _ _);
    count = λ scope key now. Keeps-modify _ (λ db. frame db _ _ _ _);
    reservation = λ r. Keeps-insert_if _ _ (λ db _. frame db _ _ _ _);
    scope = λ s. Keeps-insert_if _ _ (λ db _. frame db _ _ _ _);
    start = λ s. Keeps-insert_if _ _ (λ db _. frame db _ _ _ _);
    close = λ id state. Keeps-modify _ (λ db. frame db _ _ _ _);
    cool = λ key deadline. Keeps-modify _ (λ db. frame db _ _ _ _);
  }

  pub flights_frame :
      ((db : Database) (f : List Flight) (c : List Consumer)
        → P db
        → P (record db { single_flights = f; single_flight_consumers = c }))
      → FlightUnits P
  unfolding launch insert_consumer cancel_consumer complete_consumer promote_consumer hand_flight
      end_flight
  flights_frame frame = record {
    launch = λ fingerprint leader. Keeps-modify _ (λ db. frame db _ _);
    insert = λ c. Keeps-insert_if _ _ (λ db _. frame db _ _);
    cancel = λ id. Keeps-modify _ (λ db. frame db _ _);
    complete = λ owner id. Keeps-modify _ (λ db. frame db _ _);
    promote = λ id. Keeps-modify _ (λ db. frame db _ _);
    hand = λ fingerprint leader. Keeps-modify _ (λ db. frame db _ _);
    end = λ fingerprint. Keeps-modify _ (λ db. frame db _ _);
  }

  pub publications_frame :
      ((db : Database) (p : List RawPublication) → P db → P (record db { raw_publications = p }))
      → PublicationUnits P
  unfolding begin_block change_publication
  publications_frame frame = record {
    begin = λ intent now. Keeps-bind _ _ (Keeps-gets _) (λ found.
        Keeps-bind _ _ (Keeps-raise_if _ _) (λ _. Keeps-insert_if _ _ (λ db _. frame db _)));
    commit_raw = λ reference now. Keeps-update_one _ _ _ (λ db _. frame db _);
    fail_raw = λ id. Keeps-update_one _ _ _ (λ db _. frame db _);
    reconcile_raw = λ id. Keeps-update_one _ _ _ (λ db _. frame db _);
  }

  next_generation-Keeps :
      (row : Option LeaseRow) (now : Instant) → Keeps P (next_generation row now)
  unfolding next_generation
  next_generation-Keeps none now = Keeps-pure 1
  next_generation-Keeps (some row) now = search keeps_rules

  pub lease_frame :
      ((db : Database) (l : Option LeaseRow) → P db → P (record db { runtime_lease = l }))
      → LeaseUnits P
  unfolding take_lease next_generation take_over_lease change_lease
  lease_frame frame = record {
    take = λ owner now policy. Keeps-bind _ _ (Keeps-gets _) (λ row.
        Keeps-bind _ _ (next_generation-Keeps row now)
          (λ generation. Keeps-bind _ _ (Keeps-modify _ (λ db. frame db _)) (λ _. Keeps-pure _)));
    take_over = λ owner previous now policy.
        Keeps-bind _ _ (Keeps-gets _)
          (λ lease. Keeps-bind _ _ (Keeps-raise_if _ _) (λ _. Keeps-modify _ (λ db. frame db _)));
    heartbeat = λ lease now expires. Keeps-bind _ _ (Keeps-gets _) (λ found.
        Keeps-bind _ _ (Keeps-require found _) (λ row. Keeps-modify _ (λ db. frame db _)));
    give_back = λ lease. Keeps-bind _ _ (Keeps-gets _) (λ found.
        Keeps-bind _ _ (Keeps-require found _) (λ row. Keeps-modify _ (λ db. frame db _)));
  }
