-- ===== src/Runtime/Held.antt =====
-- A granted lease can be used: it passes the fence from its grant until it expires.
use system_trade_with_llm_or.Prelude.{
  ℕ, ◌+◌, ◌≤◌, ◌<◌, ◌≡◌, refl, Option, none, some, arith, ==_refl, sym,
}
use mathlib.Core.Path.{subst}
use system_trade_with_llm_or.Schema.{Database, Identifier, Instant, SchemaInfo, LeaseRow}
use system_trade_with_llm_or.Schema.Codes.{Code}
use system_trade_with_llm_or.Tx.{
  ok, Tx, pure, ◌>>=◌, ◌>>◌, >>=-eq-ok, transaction, transaction-eq-ok, transaction-verified,
  transaction-ok, verify_schema-same,
}
use system_trade_with_llm_or.Tx.Keeps.{Keeps, Yields, Yields-bind, returned}
use system_trade_with_llm_or.Lease.{
  RuntimeLease, LeasePolicy, seconds, take_lease, next_generation, assert_fence, validate_fence,
  fresh_row, fresh_lease,
}
use system_trade_with_llm_or.Recovery.{take_over_lease, recover_block, recover_expired_lease}
use system_trade_with_llm_or.Flights.Reconcile.{
  reconcile_terminal_flights, acquire_lease_block, acquire_lease,
}
use system_trade_with_llm_or.Runtime.Units.{Units}
use system_trade_with_llm_or.Runtime.Units.Frames.{
  events_frame, requests_frame, queue_frame, attempts_frame, gates_frame, flights_frame,
  publications_frame, lease_frame,
}
use system_trade_with_llm_or.Runtime.Walk.Settle.{SettleUnits, reconcile}
use system_trade_with_llm_or.Runtime.Walk.{blocks}

units-schema : (s : SchemaInfo) → Units (λ db. db.schema ≡ s)
units-schema s = record {
  events = events_frame (λ db _ _ _ h. h);
  requests = requests_frame (λ db _ _ h. h);
  queue = queue_frame (λ db _ _ h. h);
  attempts = attempts_frame (λ db _ h. h);
  gates = gates_frame (λ db _ _ _ _ h. h);
  flights = flights_frame (λ db _ _ h. h);
  publications = publications_frame (λ db _ h. h);
  lease = lease_frame (λ db _ h. h);
}

-- The lease is new, and the database names it.
abbrev IsGranted : Identifier → Instant → LeasePolicy → RuntimeLease → Database → Type 0
IsGranted owner now policy lease db =
    (g : ℕ) × (lease ≡ fresh_lease owner g now policy)
    × (db.runtime_lease ≡ some (fresh_row owner g now policy))

take_lease-row :
    (owner : Identifier) (now : Instant) (policy : LeasePolicy) (db : Database) {g : ℕ}
    {db' : Database}
    → take_lease owner now policy db ≡ ok (g, db')
    → db'.runtime_lease ≡ some (fresh_row owner g now policy)
unfolding take_lease next_generation ◌>>=◌
take_lease-row owner now policy db h = ground arith

units-row : (row : Option LeaseRow) → SettleUnits (λ db. db.runtime_lease ≡ row)
units-row row = record {
  events = events_frame (λ db _ _ _ h. h);
  requests = requests_frame (λ db _ _ h. h);
  queue = queue_frame (λ db _ _ h. h);
  flights = flights_frame (λ db _ _ h. h);
}

acquire_block-IsGranted :
    (owner : Identifier) (now : Instant) (policy : LeasePolicy) (db : Database)
    {lease : RuntimeLease} {db' : Database}
    → acquire_lease_block owner now policy db ≡ ok (lease, db')
    → IsGranted owner now policy lease db'
unfolding acquire_lease_block
acquire_block-IsGranted owner now policy db h =
    let (g, taken, e1, rest) = >>=-eq-ok (take_lease owner now policy) _ db h in
    let (u, reconciled, e2, last) = >>=-eq-ok (reconcile_terminal_flights now none) _ taken rest in
    let (same_lease, same_db) = returned (fresh_lease owner g now policy) reconciled last in
    (
      g,
      sym same_lease,
      subst (λ d. d.runtime_lease ≡ some (fresh_row owner g now policy)) same_db
          ((reconcile (units-row (some (fresh_row owner g now policy))) now none).at taken
            (take_lease-row owner now policy db e1) u reconciled e2),
    )

end_of_recovery :
    (owner : Identifier) (previous : ℕ) (now : Instant) (policy : LeasePolicy)
    → Yields (IsGranted owner now policy) (
        take_over_lease owner previous (previous + 1) now policy
        >> pure (fresh_lease owner (previous + 1) now policy))
unfolding take_over_lease ◌>>=◌
end_of_recovery owner previous now policy = record {
  at = λ db a db' e. (previous + 1, ground arith, ground arith);
}

recover_block-IsGranted :
    (owner : Identifier) (now : Instant) (policy : LeasePolicy)
    → Yields (IsGranted owner now policy) (recover_block owner now policy)
unfolding recover_block
recover_block-IsGranted owner now policy = search (Yields-bind, end_of_recovery) depth 30

fresh_lease-passes :
    (owner : Identifier) (g : ℕ) (now : Instant) (policy : LeasePolicy) (later : Instant)
    (db : Database)
    → db.runtime_lease ≡ some (fresh_row owner g now policy)
    → now ≤ later
    → later < now + seconds policy.lease_duration_seconds
    → assert_fence (fresh_lease owner g now policy) later db ≡ ok (tt, db)
unfolding assert_fence ◌>>=◌
fresh_lease-passes owner g now policy later db row since until =
    rw row (rw (==_refl owner) (rw (==_refl g) (ground arith)))

usable :
    (failed : Code) (owner : Identifier) (now : Instant) (policy : LeasePolicy)
    (m : Tx RuntimeLease) (db : Database) (lease : RuntimeLease) (later : Instant) (db' : Database)
    → Keeps (λ d. d.schema ≡ db.schema) m
    → transaction failed m db ≡ (ok lease, db')
    → IsGranted owner now policy lease db'
    → now ≤ later
    → later < lease.expires_at
    → validate_fence lease later db' ≡ (ok tt, db')
unfolding validate_fence
usable failed owner now policy m db lease later db' keeps h granted since until =
    let (g, fresh, row) = granted in
    let passes : assert_fence lease later db' ≡ ok (tt, db') =
      subst (λ l. assert_fence l later db' ≡ ok (tt, db')) (sym fresh)
        (fresh_lease-passes owner g now policy later db' row since
          (subst (λ (l : RuntimeLease). later < l.expires_at) fresh until)) in
    transaction-ok _ (assert_fence lease later) db'
      (verify_schema-same db db' (keeps.at db refl lease db' (transaction-eq-ok failed m db h))
        (transaction-verified failed m db h))
      passes

-- A lease that `acquire_lease` grants passes the fence at every instant from the grant on that is before
-- its expiry, while no other operation intervenes.
pub acquired_lease_passes_fence :
    (owner : Identifier) (now : Instant) (policy : LeasePolicy) (db : Database)
    (lease : RuntimeLease) (db' : Database) (later : Instant)
    → acquire_lease owner now policy db ≡ (ok lease, db')
    → now ≤ later
    → later < lease.expires_at
    → validate_fence lease later db' ≡ (ok tt, db')
unfolding acquire_lease
acquired_lease_passes_fence owner now policy db lease db' later h =
    usable _ owner now policy (acquire_lease_block owner now policy) db lease later db'
      ((blocks (units-schema db.schema)).take owner now policy) h
      (acquire_block-IsGranted owner now policy db
        (transaction-eq-ok _ (acquire_lease_block owner now policy) db h))

-- A lease that `recover_expired_lease` grants passes the fence at every instant from the grant on that
-- is before its expiry, while no other operation intervenes.
pub recovered_lease_passes_fence :
    (owner : Identifier) (now : Instant) (policy : LeasePolicy) (db : Database)
    (lease : RuntimeLease) (db' : Database) (later : Instant)
    → recover_expired_lease owner now policy db ≡ (ok lease, db')
    → now ≤ later
    → later < lease.expires_at
    → validate_fence lease later db' ≡ (ok tt, db')
unfolding recover_expired_lease
recovered_lease_passes_fence owner now policy db lease db' later h =
    usable _ owner now policy (recover_block owner now policy) db lease later db'
      ((blocks (units-schema db.schema)).recover owner now policy) h
      ((recover_block-IsGranted owner now policy).at db lease db'
        (transaction-eq-ok _ (recover_block owner now policy) db h))
