-- ===== src/Runtime/Interrupted.antt =====
-- Recovery leaves nothing in flight: what the former owner had reserved or started is settled or
-- handed over.
use system_trade_with_llm_or.Prelude.{
  ℕ, ◌+◌, ◌≡◌, false, none, List, [], ◌∷◌, ◌&&◌, ltb, leb, arith, update_where, All,
}
use mathlib.Core.Path.{subst, subst₂}
use system_trade_with_llm_or.Schema.{Database, Identifier, Instant, PhysicalAttempt}
use system_trade_with_llm_or.Schema.States.{AttemptState, is_live, is_reserved}
use system_trade_with_llm_or.Tx.{ok, pure, ◌>>=◌, ◌>>◌, >>=-eq-ok, transaction-eq-ok}
use system_trade_with_llm_or.Tx.Keeps.{
  Keeps, Keeps-bind, Keeps-gets, Keeps-raise_if, Keeps-modify, Yields, Yields-bind, returned,
  same_database,
}
use system_trade_with_llm_or.Lease.{RuntimeLease, LeasePolicy, fresh_lease}
use system_trade_with_llm_or.Recovery.{
  was_sent, take_over_attempts, take_over_lease, recover_block, recover_expired_lease,
}
use system_trade_with_llm_or.Flights.Reconcile.{reconcile_terminal_flights}
use system_trade_with_llm_or.Runtime.Units.Frames.{
  events_frame, requests_frame, queue_frame, flights_frame,
}
use system_trade_with_llm_or.Runtime.Walk.Settle.{SettleUnits, reconcile}

-- The attempt is finished, or of this generation or a later one.
abbrev pub IsSettledBefore : ℕ → PhysicalAttempt → Type 0
IsSettledBefore generation a = (is_live a.state && ltb a.lease_generation generation) ≡ false

abbrev pub IsHandedOver : ℕ → Database → Type 0
IsHandedOver generation db = All (IsSettledBefore generation) db.physical_attempts

taken_over :
    (previous : ℕ) (rows : List PhysicalAttempt)
    → All (IsSettledBefore (previous + 1)) (
        update_where
          (λ a. is_reserved a.state && leb a.lease_generation previous)
          (λ a. record a { lease_generation = previous + 1 })
          (update_where (was_sent previous) (λ a. record a { state = AttemptState.unknown }) rows))
taken_over previous [] = tt
taken_over previous (a ∷ rows) = (ground arith, taken_over previous rows)

take_over_attempts-settled :
    (previous : ℕ) (db : Database) {u : Unit {0}} {db' : Database}
    → take_over_attempts previous (previous + 1) db ≡ ok (u, db')
    → IsHandedOver (previous + 1) db'
unfolding take_over_attempts ◌>>=◌
take_over_attempts-settled previous db h =
    subst (IsHandedOver (previous + 1)) (same_database h) (taken_over previous db.physical_attempts)

units-IsHandedOver : (generation : ℕ) → SettleUnits (IsHandedOver generation)
units-IsHandedOver generation = record {
  events = events_frame (λ db _ _ _ h. h);
  requests = requests_frame (λ db _ _ h. h);
  queue = queue_frame (λ db _ _ h. h);
  flights = flights_frame (λ db _ _ h. h);
}

take_over_lease-settled :
    (generation : ℕ) (owner : Identifier) (previous next : ℕ) (now : Instant) (policy : LeasePolicy)
    → Keeps (IsHandedOver generation) (take_over_lease owner previous next now policy)
unfolding take_over_lease
take_over_lease-settled generation owner previous next now policy =
    Keeps-bind _ _ (Keeps-gets _)
      (λ lease. Keeps-bind _ _ (Keeps-raise_if _ _) (λ _. Keeps-modify _ (λ db h. h)))

-- From the two UPDATE statements on the attempts on.
end_of_recovery :
    (owner : Identifier) (previous : ℕ) (now : Instant) (policy : LeasePolicy)
    → Yields
        (λ (l : RuntimeLease) (d : Database). IsHandedOver l.generation d)
        (take_over_attempts previous (previous + 1)
          >> (reconcile_terminal_flights now none
              >> (take_over_lease owner previous (previous + 1) now policy
                  >> pure (fresh_lease owner (previous + 1) now policy))))
end_of_recovery owner previous now policy = record {
  at = λ db l db' e.
      let (_, d1, e1, r1) = >>=-eq-ok (take_over_attempts previous (previous + 1)) _ db e in
      let (_, d2, e2, r2) = >>=-eq-ok (reconcile_terminal_flights now none) _ d1 r1 in
      let (_, d3, e3, r3) =
        >>=-eq-ok (take_over_lease owner previous (previous + 1) now policy) _ d2 r2 in
      let (same_lease, same_db) = returned (fresh_lease owner (previous + 1) now policy) d3 r3 in
      subst₂ (λ (l : RuntimeLease) (d : Database). IsHandedOver l.generation d) same_lease same_db
        ((take_over_lease-settled (previous + 1) owner previous (previous + 1) now policy).at d2
          ((reconcile (units-IsHandedOver (previous + 1)) now none).at d1
            (take_over_attempts-settled previous db e1) _ d2 e2)
          _ d3 e3);
}

recover_block-settled :
    (owner : Identifier) (now : Instant) (policy : LeasePolicy)
    → Yields
        (λ (l : RuntimeLease) (d : Database). IsHandedOver l.generation d)
        (recover_block owner now policy)
unfolding recover_block
recover_block-settled owner now policy = search (Yields-bind, end_of_recovery) depth 30

-- Once a lease has been recovered, every physical attempt that is still reserved or started belongs to
-- the new lease's generation or a later one: none of the former owner's is left in flight.
pub recovery_leaves_none_in_flight :
    (owner : Identifier) (now : Instant) (policy : LeasePolicy) (db : Database)
    (lease : RuntimeLease) (db' : Database)
    → recover_expired_lease owner now policy db ≡ (ok lease, db')
    → IsHandedOver lease.generation db'
unfolding recover_expired_lease
recovery_leaves_none_in_flight owner now policy db lease db' h =
    (recover_block-settled owner now policy).at db lease db'
      (transaction-eq-ok _ (recover_block owner now policy) db h)
