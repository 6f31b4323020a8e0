-- ===== src/Runtime/Released.antt =====
-- Recovery closes every gate reservation that a former owner held.
use system_trade_with_llm_or.Prelude.{
  ℕ, ◌+◌, ◌≡◌, refl, Bool, true, false, Option, none, List, [], ◌∷◌, not, ◌&&◌, ◌||◌, ◌==◌, ltb,
  arith, any, select, update_where, All, All-map, if◌then◌else◌,
}
use mathlib.Core.Path.{subst, subst₂}
use system_trade_with_llm_or.Schema.{
  Database, Identifier, Instant, Reason, Reservation, ReservationScope,
}
use system_trade_with_llm_or.Schema.States.{ReservationState, GateScope, GateEventType, is_held}
use system_trade_with_llm_or.Schema.Codes.{runtime_recovery_audit_gap}
use system_trade_with_llm_or.Tx.{
  ok, pure, raise_if, modify, for_each, ◌>>◌, >>=-eq-ok, gets-eq-ok, transaction-eq-ok,
}
use system_trade_with_llm_or.Tx.Keeps.{
  Keeps, Keeps-bind, Keeps-gets, Keeps-raise_if, Keeps-modify, Keeps-for_each, Keeps-update_one,
  Keeps-insert_if, Yields, Yields-bind, returned, same_database,
}
use system_trade_with_llm_or.Lease.{RuntimeLease, LeasePolicy, fresh_lease}
use system_trade_with_llm_or.Requests.{append_gate_event}
use system_trade_with_llm_or.Gates.Policy.{leave_gate, close_reservation, set_reservation, scope_of}
use system_trade_with_llm_or.Gates.Finish.{give_up}
use system_trade_with_llm_or.Recovery.{
  left_over, recover_gate_reservations, requeue_unattempted, fail_sent, fail_between,
  take_over_attempts, take_over_lease, recover_block, recover_expired_lease,
}
use system_trade_with_llm_or.Flights.Reconcile.{reconcile_terminal_flights}
use system_trade_with_llm_or.Runtime.Units.Frames.{
  events_frame, requests_frame, queue_frame, flights_frame,
}
use system_trade_with_llm_or.Runtime.Walk.Settle.{SettleUnits, reconcile, requeue, sent, between}

module _ (generation : ℕ) where
  -- The reservation is not left over, or one of `rs` has its identifier.
  abbrev IsNamed : List Reservation → Reservation → Type 0
  IsNamed rs a =
      (not (left_over generation a) || any (λ r. r.reservation_id == a.reservation_id) rs) ≡ true

  abbrev AreNamed : List Reservation → Database → Type 0
  AreNamed rs db = All (IsNamed rs) db.gate_reservations

  IsNamed-cons :
      (r : Reservation) (rs : List Reservation) (a : Reservation)
      → IsNamed rs a
      → IsNamed (r ∷ rs) a
  IsNamed-cons r rs a h = ground arith

  select-IsNamed :
      (rows : List Reservation) → All (IsNamed (select (left_over generation) rows)) rows
  select-IsNamed [] = tt
  select-IsNamed (r ∷ rows) = added (left_over generation r) refl (select-IsNamed rows)
    where
      added :
          (b : Bool)
          → left_over generation r ≡ b
          → All (IsNamed (select (left_over generation) rows)) rows
          → All
              (IsNamed (
                if b
                then r ∷ select (left_over generation) rows
                else select (left_over generation) rows))
              (r ∷ rows)
      added true e h =
          (ground arith, All-map _ _ rows (IsNamed-cons r (select (left_over generation) rows)) h)
      added false e h = (ground arith, h)

  close-IsNamed :
      (r : Reservation) (rs rows : List Reservation)
      → All (IsNamed (r ∷ rs)) rows
      → All (IsNamed rs) (
          update_where
            (λ a. a.reservation_id == r.reservation_id)
            (set_reservation ReservationState.recovered)
            rows)
  close-IsNamed r rs [] h = tt
  close-IsNamed r rs (a ∷ rows) h = (ground arith, close-IsNamed r rs rows h.1)

  close_reservation-AreNamed :
      (r : Reservation) (rs : List Reservation) (db : Database) {u : Unit {0}} {db' : Database}
      → AreNamed (r ∷ rs) db
      → close_reservation r.reservation_id ReservationState.recovered db ≡ ok (u, db')
      → AreNamed rs db'
  unfolding close_reservation modify
  close_reservation-AreNamed r rs db h e =
      subst (AreNamed rs) (same_database e) (close-IsNamed r rs db.gate_reservations h)

  leave_gates-AreNamed :
      (rs : List Reservation) (scopes : List ReservationScope)
      → Keeps (AreNamed rs) (for_each scopes (leave_gate runtime_recovery_audit_gap))
  unfolding leave_gate
  leave_gates-AreNamed rs scopes =
      Keeps-for_each scopes _ (λ s. Keeps-update_one _ _ _ (λ db _ h. h))

  gate_event-AreNamed :
      (rs : List Reservation) (id : Identifier) (reservation : Option Identifier)
      (scope : Option GateScope) (key : Option Identifier) (event : GateEventType) (now : Instant)
      (reason : Option Reason)
      → Keeps (AreNamed rs) (append_gate_event id reservation scope key event now reason)
  unfolding append_gate_event
  gate_event-AreNamed rs id reservation scope key event now reason =
      Keeps-insert_if _ _ (λ db _ h. h)

  give_up-AreNamed :
      (r : Reservation) (rs : List Reservation) (now : Instant) (db : Database) {u : Unit {0}}
      {db' : Database}
      → AreNamed (r ∷ rs) db
      → give_up runtime_recovery_audit_gap GateEventType.recovered Reason.owner_interrupted now r db
        ≡ ok (u, db')
      → AreNamed rs db'
  unfolding give_up
  give_up-AreNamed r rs now db h e =
      let (_, d1, e1, r1) =
        >>=-eq-ok (raise_if _ _) _ db (
          gets-eq-ok (λ db. select (scope_of r.reservation_id) db.gate_reservation_scopes) _ db
            e) in
      let (_, d2, e2, r2) = >>=-eq-ok (for_each _ _) _ d1 r1 in
      let (_, d3, e3, r3) = >>=-eq-ok (close_reservation _ _) _ d2 r2 in
      let tested = (Keeps-raise_if {P = AreNamed (r ∷ rs)} _ _).at db h _ d1 e1 in
      (gate_event-AreNamed rs _ _ _ _ _ _ _).at d3
        (close_reservation-AreNamed r rs d2 ((leave_gates-AreNamed (r ∷ rs) _).at d1 tested _ d2 e2)
          e3)
        _ _ r3

  give_up_all-AreNamed :
      (rs : List Reservation) (now : Instant) (db : Database) {u : Unit {0}} {db' : Database}
      → AreNamed rs db
      → for_each rs
          (give_up runtime_recovery_audit_gap GateEventType.recovered Reason.owner_interrupted now)
          db
        ≡ ok (u, db')
      → AreNamed [] db'
  unfolding for_each
  give_up_all-AreNamed [] now db h e = subst (AreNamed []) (returned tt db e).1 h
  give_up_all-AreNamed (r ∷ rs) now db h e =
      let (_, d1, e1, r1) = >>=-eq-ok (give_up _ _ _ now r) _ db e in
      give_up_all-AreNamed rs now d1 (give_up-AreNamed r rs now db h e1) r1

  recover_gate_reservations-AreNamed :
      (now : Instant) (db : Database) {u : Unit {0}} {db' : Database}
      → recover_gate_reservations generation now db ≡ ok (u, db')
      → AreNamed [] db'
  unfolding recover_gate_reservations
  recover_gate_reservations-AreNamed now db e =
      give_up_all-AreNamed (select (left_over generation) db.gate_reservations) now db
        (select-IsNamed db.gate_reservations)
        (gets-eq-ok (λ db. select (left_over generation) db.gate_reservations) _ db e)

  units-AreNamed : SettleUnits (AreNamed [])
  units-AreNamed = record {
    events = events_frame (λ db _ _ _ h. h);
    requests = requests_frame (λ db _ _ h. h);
    queue = queue_frame (λ db _ _ h. h);
    flights = flights_frame (λ db _ _ h. h);
  }

  take_over-AreNamed :
      (owner : Identifier) (previous next : ℕ) (now : Instant) (policy : LeasePolicy)
      → Keeps (AreNamed []) (take_over_lease owner previous next now policy)
  unfolding take_over_lease
  take_over-AreNamed owner previous next now policy =
      Keeps-bind _ _ (Keeps-gets _)
        (λ lease. Keeps-bind _ _ (Keeps-raise_if _ _) (λ _. Keeps-modify _ (λ db h. h)))

  take_over_attempts-AreNamed :
      (previous next : ℕ) → Keeps (AreNamed []) (take_over_attempts previous next)
  unfolding take_over_attempts
  take_over_attempts-AreNamed previous next =
      Keeps-bind _ _ (Keeps-modify _ (λ db h. h)) (λ _. Keeps-modify _ (λ db h. h))

-- No reservation of an earlier generation is active.
abbrev pub NoneHeldBefore : ℕ → Database → Type 0
NoneHeldBefore generation db =
    All (λ r. (is_held r.state && ltb r.lease_generation generation) ≡ false) db.gate_reservations

named-NoneHeldBefore :
    (previous : ℕ) (db : Database) → AreNamed previous [] db → NoneHeldBefore (previous + 1) db
named-NoneHeldBefore previous db h = All-map _ _ db.gate_reservations (λ r named. ground arith) h

-- From the return of the gates on.
end_of_recovery :
    (owner : Identifier) (previous : ℕ) (now : Instant) (policy : LeasePolicy)
    → Yields
        (λ (l : RuntimeLease) (d : Database). NoneHeldBefore l.generation d)
        (recover_gate_reservations previous now
          >> (requeue_unattempted now
              >> (fail_sent previous now
                  >> (fail_between now
                      >> (take_over_attempts previous (previous + 1)
                          >> (reconcile_terminal_flights now none
                              >> (take_over_lease owner previous (previous + 1) now policy
                                  >> pure (fresh_lease owner (previous + 1) now policy))))))))
end_of_recovery owner previous now policy = record {
  at = λ db l db' e.
      let u = units-AreNamed previous in
      let (_, d1, e1, r1) = >>=-eq-ok (recover_gate_reservations previous now) _ db e in
      let (_, d2, e2, r2) = >>=-eq-ok (requeue_unattempted now) _ d1 r1 in
      let (_, d3, e3, r3) = >>=-eq-ok (fail_sent previous now) _ d2 r2 in
      let (_, d4, e4, r4) = >>=-eq-ok (fail_between now) _ d3 r3 in
      let (_, d5, e5, r5) = >>=-eq-ok (take_over_attempts previous (previous + 1)) _ d4 r4 in
      let (_, d6, e6, r6) = >>=-eq-ok (reconcile_terminal_flights now none) _ d5 r5 in
      let (_, d7, e7, r7) =
        >>=-eq-ok (take_over_lease owner previous (previous + 1) now policy) _ d6 r6 in
      let (same_lease, same_db) = returned (fresh_lease owner (previous + 1) now policy) d7 r7 in
      let h1 = recover_gate_reservations-AreNamed previous now db e1 in
      let h4 =
        (between u now).at d3
          ((sent u previous now).at d2 ((requeue u now).at d1 h1 _ d2 e2) _ d3 e3) _ d4 e4 in
      let h6 =
        (reconcile u now none).at d5
          ((take_over_attempts-AreNamed previous previous (previous + 1)).at d4 h4 _ d5 e5) _ d6
          e6 in
      subst₂ (λ (l : RuntimeLease) (d : Database). NoneHeldBefore l.generation d) same_lease same_db
        (named-NoneHeldBefore previous d7 (
          (take_over-AreNamed previous owner previous (previous + 1) now policy).at d6 h6 _ d7 e7));
}

recover_block-NoneHeldBefore :
    (owner : Identifier) (now : Instant) (policy : LeasePolicy)
    → Yields
        (λ (l : RuntimeLease) (d : Database). NoneHeldBefore l.generation d)
        (recover_block owner now policy)
unfolding recover_block
recover_block-NoneHeldBefore owner now policy = search (Yields-bind, end_of_recovery) depth 30

-- Once a lease has been recovered, no active gate reservation belongs to an earlier generation than the
-- new lease's: none that a former owner held is left.
pub recovery_returns_gates :
    (owner : Identifier) (now : Instant) (policy : LeasePolicy) (db : Database)
    (lease : RuntimeLease) (db' : Database)
    → recover_expired_lease owner now policy db ≡ (ok lease, db')
    → NoneHeldBefore lease.generation db'
unfolding recover_expired_lease
recovery_returns_gates owner now policy db lease db' h =
    (recover_block-NoneHeldBefore owner now policy).at db lease db'
      (transaction-eq-ok _ (recover_block owner now policy) db h)
