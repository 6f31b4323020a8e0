-- ===== src/Runtime/Fencing.antt =====
-- Fencing: the generation of the runtime lease never falls and never changes its owner, so a lease
-- that has been superseded is refused ever after, and a refused command writes nothing.
use system_trade_with_llm_or.Prelude.{
  ℕ, ◌+◌, ◌<◌, ◌≡◌, refl, false, Option, none, some, List, ◌⊎◌, arith,
}
use mathlib.Core.Path.{subst₂}
use system_trade_with_llm_or.Schema.{Database, Identifier, Instant, LeaseRow}
use system_trade_with_llm_or.Tx.{ok, pure, ◌>>=◌, ◌>>◌, transaction-eq-ok, >>=-eq-ok}
use system_trade_with_llm_or.Tx.Keeps.{Keeps, returned, Yields, Yields-bind}
use system_trade_with_llm_or.Lease.{
  RuntimeLease, LeasePolicy, take_lease, next_generation, change_lease, assert_fence,
  validate_fence, fresh_lease,
}
use system_trade_with_llm_or.Recovery.{take_over_lease, recover_block, recover_expired_lease}
use system_trade_with_llm_or.Flights.Reconcile.{
  reconcile_terminal_flights, acquire_lease_block, acquire_lease,
}
use system_trade_with_llm_or.Runtime.{Command, run}
use system_trade_with_llm_or.Runtime.Units.{Units}
use system_trade_with_llm_or.Runtime.Units.Frames.{
  events_frame, requests_frame, queue_frame, attempts_frame, gates_frame, flights_frame,
  publications_frame,
}
use system_trade_with_llm_or.Runtime.Walk.{run_keeps}
use system_trade_with_llm_or.Runtime.Walk.Settle.{settling, reconcile}

-- The lease has moved past generation `g`, or is still at `g` with the same owner.
abbrev pub Follows : Identifier → ℕ → Option LeaseRow → Type 0
Follows owner g none = ⊥
Follows owner g (some row) =
    (g < row.generation) ⊎ ((row.generation ≡ g) × (row.owner_token ≡ owner))

abbrev pub Succeeds : Identifier → ℕ → Database → Type 0
Succeeds owner g db = Follows owner g db.runtime_lease

module _ (owner : Identifier) (g : ℕ) where
  take-Follows :
      (who : Identifier) (now : Instant) (policy : LeasePolicy)
      → Keeps (Succeeds owner g) (take_lease who now policy)
  unfolding take_lease next_generation ◌>>=◌
  take-Follows who now policy = record { at = λ db h a db' e. ground arith }

  take_over-Follows :
      (who : Identifier) (previous : ℕ) (now : Instant) (policy : LeasePolicy)
      → Keeps (Succeeds owner g) (take_over_lease who previous (previous + 1) now policy)
  unfolding take_over_lease ◌>>=◌
  take_over-Follows who previous now policy = record { at = λ db h a db' e. ground arith }

  change-Follows :
      (lease : RuntimeLease) (now expires : Instant)
      → Keeps
          (Succeeds owner g)
          (change_lease lease (λ row. record row { heartbeat_at = now; expires_at = expires }))
  unfolding change_lease ◌>>=◌
  change-Follows lease now expires = record { at = λ db h a db' e. ground arith }

  release-Follows :
      (lease : RuntimeLease)
      → Keeps (Succeeds owner g) (change_lease lease (λ row. record row { active = false }))
  unfolding change_lease ◌>>=◌
  release-Follows lease = record { at = λ db h a db' e. ground arith }

  units-Follows : Units (Succeeds owner g)
  units-Follows = record {
    events = events_frame (λ db _ _ _ h. h);
    requests = requests_frame (λ db _ _ h. h);
    queue = queue_frame (λ db _ _ h. h);
    attempts = attempts_frame (λ db _ h. h);
    gates = gates_frame (λ db _ _ _ _ h. h);
    flights = flights_frame (λ db _ _ h. h);
    publications = publications_frame (λ db _ h. h);
    lease = record {
      take = take-Follows;
      take_over = take_over-Follows;
      heartbeat = change-Follows;
      give_back = release-Follows;
    };
  }

  -- Whatever the history, the lease follows the owner and the generation it once had.
  pub run-Succeeds :
      (cs : List Command) (db : Database) → Succeeds owner g db → Succeeds owner g (run cs db)
  run-Succeeds = run_keeps units-Follows

-- A lease that passes the fence is the one that the row names.
fence-names :
    (lease : RuntimeLease) (now : Instant) (db : Database) {u : Unit {0}} {db' : Database}
    → assert_fence lease now db ≡ ok (u, db')
    → (row : LeaseRow) × (db.runtime_lease ≡ some row)
      × (row.generation ≡ lease.generation)
      × (row.owner_token ≡ lease.owner_token)
unfolding assert_fence ◌>>=◌
fence-names lease now db h = named db.runtime_lease refl
  where
    named :
        (l : Option LeaseRow)
        → db.runtime_lease ≡ l
        → (row : LeaseRow) × (db.runtime_lease ≡ some row)
          × (row.generation ≡ lease.generation)
          × (row.owner_token ≡ lease.owner_token)
    named none e = absurd (ground arith)
    named (some row) e = (row, e, ground arith, ground arith)

passes-fence :
    (lease : RuntimeLease) (now : Instant) (db : Database)
    → (validate_fence lease now db).0 ≡ ok tt
    → (u : Unit {0}) × (db' : Database) × (assert_fence lease now db ≡ ok (u, db'))
unfolding validate_fence
passes-fence lease now db h = (
  tt,
  (validate_fence lease now db).1,
  transaction-eq-ok _ (assert_fence lease now) db (λ i. (h i, (validate_fence lease now db).1)),
)

fenced-follows :
    (owner : Identifier) (g : ℕ) (lease : RuntimeLease) (now : Instant) (db : Database)
    → Succeeds owner g db
    → (validate_fence lease now db).0 ≡ ok tt
    → (g < lease.generation) ⊎ ((lease.generation ≡ g) × (lease.owner_token ≡ owner))
fenced-follows owner g lease now db h v =
    let (u, db', passed) = passes-fence lease now db v in
    let (row, e, same_generation, same_owner) = fence-names lease now db passed in ground arith

take_lease-Succeeds :
    (owner : Identifier) (now : Instant) (policy : LeasePolicy) (db : Database) {g : ℕ}
    {db' : Database}
    → take_lease owner now policy db ≡ ok (g, db')
    → Succeeds owner g db'
unfolding take_lease next_generation ◌>>=◌
take_lease-Succeeds owner now policy db h = ground arith

acquire_block-Succeeds :
    (owner : Identifier) (now : Instant) (policy : LeasePolicy) (db : Database)
    {lease : RuntimeLease} {db' : Database}
    → acquire_lease_block owner now policy db ≡ ok (lease, db')
    → Succeeds owner lease.generation db'
unfolding acquire_lease_block
acquire_block-Succeeds owner now policy db h =
    let (g, taken, e1, rest) = >>=-eq-ok (take_lease owner now policy) _ db h in
    let (u, reconciled, e2, returned_pure) =
      >>=-eq-ok (reconcile_terminal_flights now none) _ taken rest in
    let (same_lease, same_db) =
      returned (fresh_lease owner g now policy) reconciled returned_pure in
    subst₂ (λ (l : RuntimeLease) (d : Database). Succeeds owner l.generation d) same_lease same_db
      ((reconcile (settling (units-Follows owner g)) now none).at taken
        (take_lease-Succeeds owner now policy db e1) u reconciled e2)

end_of_recovery :
    (owner : Identifier) (previous : ℕ) (now : Instant) (policy : LeasePolicy)
    → Yields
        (λ (l : RuntimeLease) (d : Database). Succeeds owner l.generation d)
        (take_over_lease owner previous (previous + 1) now policy
          >> pure (fresh_lease owner (previous + 1) now policy))
unfolding take_over_lease ◌>>=◌
end_of_recovery owner previous now policy = record { at = λ db a db' e. ground arith }

recover_block-Succeeds :
    (owner : Identifier) (now : Instant) (policy : LeasePolicy)
    → Yields
        (λ (l : RuntimeLease) (d : Database). Succeeds owner l.generation d)
        (recover_block owner now policy)
unfolding recover_block
recover_block-Succeeds owner now policy = search (Yields-bind, end_of_recovery) depth 30

-- A lease that `acquire_lease` has granted is never passed again by another owner at its generation:
-- whatever commands follow, every lease that passes the fence is of a later generation, or of the
-- same generation and the same owner.
pub acquired_lease_excludes :
    (owner : Identifier) (now : Instant) (policy : LeasePolicy) (db : Database)
    (lease : RuntimeLease) (granted : Database) (cs : List Command) (other : RuntimeLease)
    (later : Instant)
    → acquire_lease owner now policy db ≡ (ok lease, granted)
    → (validate_fence other later (run cs granted)).0 ≡ ok tt
    → (lease.generation < other.generation)
      ⊎ ((other.generation ≡ lease.generation) × (other.owner_token ≡ owner))
unfolding acquire_lease
acquired_lease_excludes owner now policy db lease granted cs other later h =
    fenced-follows owner lease.generation other later (run cs granted) (
      run-Succeeds owner lease.generation cs granted (
        acquire_block-Succeeds owner now policy db
          (transaction-eq-ok _ (acquire_lease_block owner now policy) db h)))

-- A lease that `recover_expired_lease` has granted is never passed again by another owner at its
-- generation: whatever commands follow, every lease that passes the fence is of a later generation,
-- or of the same generation and the same owner.
pub recovered_lease_excludes :
    (owner : Identifier) (now : Instant) (policy : LeasePolicy) (db : Database)
    (lease : RuntimeLease) (granted : Database) (cs : List Command) (other : RuntimeLease)
    (later : Instant)
    → recover_expired_lease owner now policy db ≡ (ok lease, granted)
    → (validate_fence other later (run cs granted)).0 ≡ ok tt
    → (lease.generation < other.generation)
      ⊎ ((other.generation ≡ lease.generation) × (other.owner_token ≡ owner))
unfolding recover_expired_lease
recovered_lease_excludes owner now policy db lease granted cs other later h =
    fenced-follows owner lease.generation other later (run cs granted) (
      run-Succeeds owner lease.generation cs granted (
        (recover_block-Succeeds owner now policy).at db lease granted
          (transaction-eq-ok _ (recover_block owner now policy) db h)))
