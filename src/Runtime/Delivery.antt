-- ===== src/Runtime/Delivery.antt =====
-- Single flight: a finalized leader's result is recorded for every consumer of its flight.
use system_trade_with_llm_or.Prelude.{
  ◌≡◌, refl, Bool, true, false, some, List, [], ◌∷◌, not, ◌&&◌, ◌==◌, arith, find, any, is_some,
  select, order_by, update_where, All, All-map, sym, ◌∙◌, ap, ==→eq,
}
use mathlib.Core.Path.{subst}
use system_trade_with_llm_or.Schema.{
  Database, Identifier, Instant, Reason, LogicalRequest, LogicalResult, Consumer,
}
use system_trade_with_llm_or.Schema.States.{LogicalState, AdmissionEventType}
use system_trade_with_llm_or.Schema.Codes.{
  Code, logical_request_not_active, logical_result_persistence_failed,
}
use system_trade_with_llm_or.Tables.{flight_of, request_of, result_of, consumer_of}
use system_trade_with_llm_or.Tx.{
  ok, gets, raise_if, when, for_each, ◌>>=◌, ◌>>◌, >>=-eq-ok, gets-eq-ok,
}
use system_trade_with_llm_or.Tx.Keeps.{
  Keeps, Keeps-bind, Keeps-for_each, Keeps-raise_if, same_database, keeps_rules,
}
use system_trade_with_llm_or.Lease.{RuntimeLease, fenced-eq-ok}
use system_trade_with_llm_or.Requests.{
  result_state, open_request, set_state, persist_logical_result, append_admission_event,
}
use system_trade_with_llm_or.Flights.Results.{
  has_joined, validate_attempt_outcome, validate_finalization, active_consumers, consumes,
  by_request, deliver, finish_flight, finish_single_flight, finalize_block,
  finalize_logical_request, end_flight, withdraw_entry, complete_consumer,
}
use system_trade_with_llm_or.Runtime.Walk.Settle.{settling, hand_out}
use system_trade_with_llm_or.Runtime.Agreement.{settle_request-first}
use system_trade_with_llm_or.Runtime.Recorded.{
  HasResult, units-HasResult, persist-HasResult, result_for,
}

-- What the loop does for one consumer that is not the leader.
send-HasResult :
    (result : LogicalResult) (id : Identifier) (read : Database → Bool) (c : Code) (db : Database)
    {u : Unit {0}} {db' : Database}
    → (gets read >>= λ sent. raise_if sent c >> persist_logical_result (result_for result id)) db
      ≡ ok (u, db')
    → HasResult id (result_for result id) db'
send-HasResult result id read c db h =
    let (_, d1, e1, r1) = >>=-eq-ok (raise_if (read db) c) _ db (gets-eq-ok read _ db h) in
    persist-HasResult (result_for result id) d1 r1

send_unless-HasResult :
    (leader : Bool) (result : LogicalResult) (id : Identifier) (read : Database → Bool) (c : Code)
    (db : Database) {u : Unit {0}} {db' : Database}
    → (id == result.logical_request_id) ≡ leader
    → HasResult result.logical_request_id result db
    → when
        (not leader)
        (gets read >>= λ sent. raise_if sent c >> persist_logical_result (result_for result id))
        db
      ≡ ok (u, db')
    → HasResult id (result_for result id) db'
unfolding when
send_unless-HasResult true result id read c db same h e =
    subst (HasResult id (result_for result id)) (same_database e)
      (subst (λ i. HasResult i (result_for result i) db) (sym (==→eq _ _ same)) h)
send_unless-HasResult false result id read c db differ h e = send-HasResult result id read c db e

delivered-Keeps :
    (result : LogicalResult) (id owner : Identifier) (now : Instant) (other : LogicalResult)
    → Keeps (HasResult id result) (
        complete_consumer owner other.logical_request_id
        >> append_admission_event other.logical_request_id
            AdmissionEventType.single_flight_completed now
            (some (Reason.given owner)))
delivered-Keeps result id owner now other =
    Keeps-bind _ _ ((units-HasResult id result).flights.complete owner other.logical_request_id)
      (λ _. (units-HasResult id result).events.admission_event _ _ now _)

deliver-HasResult :
    (result : LogicalResult) (fingerprint : Identifier) (now : Instant) (c : Consumer)
    (db : Database) {u : Unit {0}} {db' : Database}
    → HasResult result.logical_request_id result db
    → deliver result fingerprint now c db ≡ ok (u, db')
    → HasResult c.logical_request_id (result_for result c.logical_request_id) db'
unfolding deliver
deliver-HasResult result fingerprint now c db h e =
    let id = c.logical_request_id in
    let (_, d1, e1, r1) = >>=-eq-ok (raise_if _ _) _ db (
      gets-eq-ok (λ db. request_of db id) _ db
        (gets-eq-ok (λ db. any (has_joined id) db.admission_events) _ db e)) in
    let (_, d2, e2, r2) = >>=-eq-ok (when (not (id == result.logical_request_id)) _) _ d1 r1 in
    let led =
      (Keeps-raise_if {P = HasResult result.logical_request_id result} _ _).at db h _ d1 e1 in
    (delivered-Keeps (result_for result id) id result.logical_request_id now
        (result_for result id)).at
      d2 (send_unless-HasResult (id == result.logical_request_id) result id _ _ d1 refl led e2) _ _
      r2

deliver_all-HasResult :
    (result : LogicalResult) (fingerprint : Identifier) (now : Instant) (cs : List Consumer)
    (db : Database) {u : Unit {0}} {db' : Database}
    → HasResult result.logical_request_id result db
    → for_each cs (deliver result fingerprint now) db ≡ ok (u, db')
    → All (λ c. HasResult c.logical_request_id (result_for result c.logical_request_id) db') cs
unfolding for_each
deliver_all-HasResult result fingerprint now [] db h e = tt
deliver_all-HasResult result fingerprint now (c ∷ cs) db h e =
    let (_, d1, e1, r1) = >>=-eq-ok (deliver result fingerprint now c) _ db e in
    (
      (Keeps-for_each cs _ (
            hand_out
              (settling
                (units-HasResult c.logical_request_id (result_for result c.logical_request_id)))
              result fingerprint now)).at
          d1 (deliver-HasResult result fingerprint now c db h e1) _ _ r1,
      deliver_all-HasResult result fingerprint now cs d1
          ((hand_out (settling (units-HasResult result.logical_request_id result)) result
              fingerprint now c).at
            db h _ d1 e1)
          r1,
    )

raise_if-reads :
    (b : Bool) (c : Code) (db : Database) {u : Unit {0}} {db' : Database}
    → raise_if b c db ≡ ok (u, db')
    → db ≡ db'
unfolding raise_if
raise_if-reads b c db h = ground arith

is_some-close :
    (id other : Identifier) (state : LogicalState) (rows : List LogicalRequest)
    → is_some (
        find
          (λ r. r.logical_request_id == id)
          (update_where (open_request other) (set_state state) rows))
      ≡ is_some (find (λ r. r.logical_request_id == id) rows)
is_some-close id other state [] = refl
is_some-close id other state (r ∷ rows) = ground (arith, is_some-close id other state rows)

-- Recording the leader's result changes neither the consumers nor which of them the loop reads.
persist-consumers :
    (result : LogicalResult) (fingerprint : Identifier) (db : Database) {u : Unit {0}}
    {db' : Database}
    → persist_logical_result result db ≡ ok (u, db')
    → (active_consumers fingerprint db' ≡ active_consumers fingerprint db)
      × (db'.single_flight_consumers ≡ db.single_flight_consumers)
unfolding persist_logical_result
persist-consumers result fingerprint db h =
    let (one, hasnt, left) =
      settle_request-first result (result_state result.outcome) logical_request_not_active db tt _
        h in
    subst
      (λ d.
        (active_consumers fingerprint d ≡ active_consumers fingerprint db)
        × (d.single_flight_consumers ≡ db.single_flight_consumers))
      left
      (
        ap (λ t. order_by by_request (select t db.single_flight_consumers))
            (λ i c.
              consumes fingerprint c
              && is_some-close c.logical_request_id result.logical_request_id
                  (result_state result.outcome) db.logical_requests i),
        refl,
      )

finish_flight-HasResult :
    (result : LogicalResult) (now : Instant) (leader : Consumer) (db : Database) {u : Unit {0}}
    {db' : Database}
    → HasResult result.logical_request_id result db
    → finish_flight result now (some leader) db ≡ ok (u, db')
    → All
        (λ c. HasResult c.logical_request_id (result_for result c.logical_request_id) db')
        (active_consumers leader.request_fingerprint db)
unfolding finish_flight
finish_flight-HasResult result now leader db {u} {db'} h e =
    let (_, d1, e1, r1) =
      >>=-eq-ok (raise_if _ _) _ db
        (gets-eq-ok (λ db. flight_of db leader.request_fingerprint) _ db e) in
    let (_, d2, e2, r2) =
      >>=-eq-ok (for_each _ _) _ d1
        (gets-eq-ok (active_consumers leader.request_fingerprint) _ d1 r1) in
    let same = raise_if-reads _ _ db e1 in
    let all =
      deliver_all-HasResult result leader.request_fingerprint now _ d1
        (subst (HasResult result.logical_request_id result) same h) e2 in
    subst
      (λ d.
        All (λ c. HasResult c.logical_request_id (result_for result c.logical_request_id) db')
          (active_consumers leader.request_fingerprint d))
      (sym same)
      (All-map _ _ (active_consumers leader.request_fingerprint d1)
        (λ c k. (ending c).at d2 k _ _ r2) all)
  where
    ending :
        (c : Consumer)
        → Keeps
            (HasResult c.logical_request_id (result_for result c.logical_request_id))
            (end_flight leader.request_fingerprint >> withdraw_entry result.logical_request_id)
    ending c =
        Keeps-bind _ _
          ((units-HasResult c.logical_request_id
              (result_for result c.logical_request_id)).flights.end
            _)
          (λ _.
            (units-HasResult c.logical_request_id
                (result_for result c.logical_request_id)).queue.withdraw
              _)

validate_finalization-reads :
    (result : LogicalResult) (start : Database)
    → Keeps (λ db. start ≡ db) (validate_finalization result)
unfolding validate_finalization validate_attempt_outcome
validate_finalization-reads result start = search keeps_rules depth 20

-- Finalizing the leader of a flight records its result for the leader and, under each one's own
-- identifier, for every active consumer that the flight had when the leader was finalized.
pub finalization_delivers_to_all :
    (result : LogicalResult) (leader : Consumer) (lease : RuntimeLease) (now : Instant)
    (db : Database) (u : Unit {0}) (db' : Database)
    → finalize_logical_request result lease now db ≡ (ok u, db')
    → consumer_of db result.logical_request_id ≡ some leader
    → All
        (λ c. result_of db' c.logical_request_id ≡ some (result_for result c.logical_request_id))
        (active_consumers leader.request_fingerprint db)
unfolding finalize_logical_request finalize_block finish_single_flight
finalization_delivers_to_all result leader lease now db u db' h known =
    let (_, d1, e1, r1) =
      >>=-eq-ok (validate_finalization result) _ db
        (fenced-eq-ok logical_result_persistence_failed lease now _ db h) in
    let (_, d2, e2, r2) = >>=-eq-ok (persist_logical_result result) _ d1 r1 in
    let start = (validate_finalization-reads result db).at db refl _ d1 e1 in
    let (consumers, rows) = persist-consumers result leader.request_fingerprint d1 e2 in
    let finish = gets-eq-ok (λ d. consumer_of d result.logical_request_id) _ d2 r2 in
    let leader_still : consumer_of d2 result.logical_request_id ≡ some leader =
      ap (find (λ c. c.logical_request_id == result.logical_request_id)) rows
      ∙ (ap (λ d. consumer_of d result.logical_request_id) (sym start) ∙ known) in
    subst (All (λ c. HasResult c.logical_request_id (result_for result c.logical_request_id) db'))
      (consumers ∙ ap (active_consumers leader.request_fingerprint) (sym start))
      (finish_flight-HasResult result now leader d2 (persist-HasResult result d1 e2)
        (subst (λ o. finish_flight result now o d2 ≡ ok (u, db')) leader_still finish))
