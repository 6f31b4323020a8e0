-- ===== src/Tables.antt =====
-- Rows by their keys: the SELECT statements of requests/storage.py that read one row by a primary
-- key or test whether there is one.
use system_trade_with_llm_or.Prelude.{Bool, Option, ◌&&◌, ◌==◌, find, any}
use system_trade_with_llm_or.Schema.{
  Database, Identifier, LogicalRequest, PhysicalAttempt, LogicalResult, QueueEntry, Gate,
  Reservation, Flight, Consumer, RawPublication,
}
use system_trade_with_llm_or.Schema.States.{GateScope, same_scope}

abbrev pub request_of : Database → Identifier → Option LogicalRequest
request_of db id = find (λ r. r.logical_request_id == id) db.logical_requests

abbrev pub has_request : Database → Identifier → Bool
has_request db id = any (λ r. r.logical_request_id == id) db.logical_requests

abbrev pub result_of : Database → Identifier → Option LogicalResult
result_of db id = find (λ r. r.logical_request_id == id) db.logical_results

abbrev pub has_result : Database → Identifier → Bool
has_result db id = any (λ r. r.logical_request_id == id) db.logical_results

abbrev pub attempt_of : Database → Identifier → Option PhysicalAttempt
attempt_of db id = find (λ a. a.physical_attempt_id == id) db.physical_attempts

abbrev pub has_attempt : Database → Identifier → Bool
has_attempt db id = any (λ a. a.physical_attempt_id == id) db.physical_attempts

abbrev pub entry_of : Database → Identifier → Option QueueEntry
entry_of db id = find (λ e. e.logical_request_id == id) db.queue_entries

abbrev pub gate_of : Database → GateScope → Identifier → Option Gate
gate_of db scope key = find (λ g. same_scope g.scope scope && (g.key_alias == key)) db.gate_state

abbrev pub reservation_of : Database → Identifier → Option Reservation
reservation_of db id = find (λ r. r.reservation_id == id) db.gate_reservations

abbrev pub flight_of : Database → Identifier → Option Flight
flight_of db fingerprint = find (λ f. f.request_fingerprint == fingerprint) db.single_flights

abbrev pub consumer_of : Database → Identifier → Option Consumer
consumer_of db id = find (λ c. c.logical_request_id == id) db.single_flight_consumers

abbrev pub publication_of : Database → Identifier → Option RawPublication
publication_of db id = find (λ p. p.intent.publication_id == id) db.raw_publications
