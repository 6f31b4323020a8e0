-- ===== src/Lease.antt =====
-- The runtime lease of requests/storage.py: `_assert_fence`, `acquire_lease`, `heartbeat_lease`,
-- `release_lease` and `validate_fence`. (`acquire_lease` also reconciles the terminal flights, so
-- it stands in Reconcile; its statements on the lease are here.)
use system_trade_with_llm_or.Prelude.{
  ◌≡◌, arith, ℕ, ◌+◌, ◌*◌, ◌≤◌, Bool, true, false, Option, none, some, ◌&&◌, ◌==◌, leb, ltb,
  if◌then◌else◌,
}
use system_trade_with_llm_or.Schema.{Database, Identifier, Instant, LeaseRow}
use system_trade_with_llm_or.Schema.Codes.{
  Code, stale_runtime_lease, runtime_clock_rollback, runtime_lease_expired, runtime_lease_held,
  lease_reconciliation_required, runtime_lease_heartbeat_failed, runtime_lease_release_failed,
  runtime_fence_validation_failed,
}
use system_trade_with_llm_or.Tx.{
  Tx, Result, ok, err, Operation, pure, gets, require, modify, raise_if, ◌>>=◌, ◌>>◌, transaction,
  >>=-eq-ok, transaction-eq-ok, transaction-ok, transaction-verified,
}

-- `RuntimeLeasePolicy`; its durations are whole seconds.
pub record LeasePolicy : Type 0 where
  pub lease_duration_seconds : ℕ
  pub heartbeat_interval_seconds : ℕ

-- What its validators accept.
pub record LeasePolicyIsValid (p : LeasePolicy) : Type 0 where
  pub duration : 3 ≤ p.lease_duration_seconds
  pub interval : 1 ≤ p.heartbeat_interval_seconds
  pub third : p.heartbeat_interval_seconds * 3 ≤ p.lease_duration_seconds

-- `RuntimeLease`
pub record RuntimeLease : Type 0 where
  pub owner_token : Identifier
  pub generation : ℕ
  pub acquired_at : Instant
  pub heartbeat_at : Instant
  pub expires_at : Instant

-- timedelta(seconds=n), in microseconds
abbrev pub seconds : ℕ → ℕ
seconds n = n * 1000000

-- WHERE singleton = 1 AND owner_token = ? AND generation = ? AND active = 1
abbrev pub held_by : Identifier → ℕ → LeaseRow → Bool
held_by owner generation row =
    (row.owner_token == owner) && (row.generation == generation) && row.active

abbrev pub lease_of : Identifier → ℕ → Option LeaseRow → Option LeaseRow
lease_of owner generation none = none
lease_of owner generation (some row) = if held_by owner generation row then some row else none

-- `_assert_fence`
unfoldable pub assert_fence : RuntimeLease → Instant → Tx (Unit {0})
assert_fence lease now = do
  found ← gets (λ db. lease_of lease.owner_token lease.generation db.runtime_lease)
  row ← require found stale_runtime_lease
  raise_if (ltb now row.heartbeat_at) runtime_clock_rollback
  raise_if (leb row.expires_at now) runtime_lease_expired

-- A block that is entered through the fence.
unfoldable pub fenced : {A : Type 0} → Code → RuntimeLease → Instant → Tx A → Operation A
fenced failed lease now m = transaction failed (assert_fence lease now >> m)

-- The row that an acquisition or a recovery writes, and the lease that it returns.
abbrev pub fresh_row : Identifier → ℕ → Instant → LeasePolicy → LeaseRow
fresh_row owner generation now policy = record {
  owner_token = owner;
  generation = generation;
  acquired_at = now;
  heartbeat_at = now;
  expires_at = now + seconds policy.lease_duration_seconds;
  active = true;
}

abbrev pub fresh_lease : Identifier → ℕ → Instant → LeasePolicy → RuntimeLease
fresh_lease owner generation now policy = record {
  owner_token = owner;
  generation = generation;
  acquired_at = now;
  heartbeat_at = now;
  expires_at = now + seconds policy.lease_duration_seconds;
}

-- The refusals of `acquire_lease` at an active lease; otherwise the generation to take.
unfoldable pub next_generation : Option LeaseRow → Instant → Tx ℕ
next_generation none now = pure 1
next_generation (some row) now = do
  raise_if (row.active && ltb now row.heartbeat_at) runtime_clock_rollback
  raise_if (row.active && ltb now row.expires_at) runtime_lease_held
  raise_if row.active lease_reconciliation_required
  pure (row.generation + 1)

unfoldable pub take_lease : Identifier → Instant → LeasePolicy → Tx ℕ
take_lease owner now policy = do
  row ← gets (λ db. db.runtime_lease)
  generation ← next_generation row now
  modify (λ db. record db { runtime_lease = some (fresh_row owner generation now policy) })
  pure generation

-- The tests of `heartbeat_lease` and `release_lease` before their block.
abbrev pub lease_in_time : RuntimeLease → Instant → Result Code (Unit {0})
lease_in_time lease now =
    if ltb now lease.heartbeat_at
    then err runtime_clock_rollback
    else if leb lease.expires_at now
    then err runtime_lease_expired
    else ok tt

abbrev pub or_refuse : {A : Type 0} → Result Code (Unit {0}) → Operation A → Operation A
or_refuse (ok u) op db = op db
or_refuse (err c) op db = (err c, db)

-- UPDATE runtime_lease … WHERE owner_token = ? AND generation = ? AND active = 1, with its count.
unfoldable pub change_lease : RuntimeLease → (LeaseRow → LeaseRow) → Tx (Unit {0})
change_lease lease change = do
  found ← gets (λ db. lease_of lease.owner_token lease.generation db.runtime_lease)
  row ← require found stale_runtime_lease
  modify (λ db. record db { runtime_lease = some (change row) })

unfoldable pub heartbeat_block : RuntimeLease → Instant → LeasePolicy → Tx RuntimeLease
heartbeat_block lease now policy = do
  let expires = now + seconds policy.lease_duration_seconds
  change_lease lease (λ row. record row { heartbeat_at = now; expires_at = expires })
  pure (record lease { heartbeat_at = now; expires_at = expires })

unfoldable pub heartbeat_lease : RuntimeLease → Instant → LeasePolicy → Operation RuntimeLease
heartbeat_lease lease now policy =
    or_refuse (lease_in_time lease now)
      (transaction runtime_lease_heartbeat_failed (heartbeat_block lease now policy))

unfoldable pub release_lease : RuntimeLease → Instant → Operation (Unit {0})
release_lease lease now = or_refuse (lease_in_time lease now) (
    transaction runtime_lease_release_failed
      (change_lease lease (λ row. record row { active = false })))

unfoldable pub validate_fence : RuntimeLease → Instant → Operation (Unit {0})
validate_fence lease now = transaction runtime_fence_validation_failed (assert_fence lease now)

assert_fence-reads :
    (lease : RuntimeLease) (now : Instant) (db : Database) {u : Unit {0}} {db' : Database}
    → assert_fence lease now db ≡ ok (u, db')
    → db' ≡ db
unfolding assert_fence ◌>>=◌
assert_fence-reads lease now db h = ground arith

-- What a fenced block has done, where it went through.
pub fenced-eq-ok :
    {A : Type 0} (failed : Code) (lease : RuntimeLease) (now : Instant) (m : Tx A) (db : Database)
    {a : A} {db' : Database}
    → fenced failed lease now m db ≡ (ok a, db')
    → m db ≡ ok (a, db')
unfolding fenced
fenced-eq-ok failed lease now m db h =
    let (u, between, passed, rest) =
      >>=-eq-ok (assert_fence lease now) (λ _. m) db
        (transaction-eq-ok failed (assert_fence lease now >> m) db h) in
    rw (assert_fence-reads lease now db passed) at rest

-- A block that goes through behind a fence that passes.
pub fenced-ok :
    {A : Type 0} (failed : Code) (lease : RuntimeLease) (now : Instant) (m : Tx A) (db : Database)
    {a : A} {db' : Database}
    → validate_fence lease now db ≡ (ok tt, db)
    → m db ≡ ok (a, db')
    → fenced failed lease now m db ≡ (ok a, db')
unfolding fenced validate_fence ◌>>=◌
fenced-ok failed lease now m db passed h =
    transaction-ok failed _ db (transaction-verified _ (assert_fence lease now) db passed)
      (rw (transaction-eq-ok _ (assert_fence lease now) db passed) h)
