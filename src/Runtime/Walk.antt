-- ===== src/Runtime/Walk.antt =====
-- What every statement keeps, every block of the repository keeps, so every history does.
mod Queue
mod Gates
mod Flights
pub mod Settle
mod Cancel
mod Recover
use system_trade_with_llm_or.Prelude.{refl, List}
use system_trade_with_llm_or.Schema.{Database, Identifier, Instant}
use system_trade_with_llm_or.Tx.Keeps.{Keeps, Keeps-bind, keeps_rules}
use system_trade_with_llm_or.Lease.{RuntimeLease, LeasePolicy, heartbeat_block}
use system_trade_with_llm_or.Flights.Reconcile.{acquire_lease_block}
use system_trade_with_llm_or.Runtime.{Command, run}
use system_trade_with_llm_or.Runtime.Units.{Units}
use system_trade_with_llm_or.Runtime.Preserves.{BlocksKeep, run-Keeps}

module _ {P : Database → Type 0} (u : Units P) where
  open u use {requests, attempts, publications, lease}

  take :
      (owner : Identifier) (now : Instant) (policy : LeasePolicy)
      → Keeps P (acquire_lease_block owner now policy)
  unfolding acquire_lease_block
  take owner now policy =
      search (keeps_rules, lease.take, Settle.reconcile (Settle.settling u)) depth 20

  heartbeat :
      (l : RuntimeLease) (now : Instant) (policy : LeasePolicy)
      → Keeps P (heartbeat_block l now policy)
  unfolding heartbeat_block
  heartbeat l now policy = search (keeps_rules, lease.heartbeat) depth 20

  pub blocks : BlocksKeep P
  blocks = record {
    add_request = requests.insert;
    add_attempt = λ id logical sequence generation created. attempts.insert _ refl;
    enqueue = Queue.enqueue u;
    admit = Flights.admit u;
    cancel = Cancel.cancel u;
    claim = Queue.claim u;
    claimed = Queue.claimed u;
    acquire = Gates.acquire u;
    finish = Gates.finish u;
    reserve = Queue.reserve u;
    discard = attempts.discard;
    start = attempts.start;
    begin = publications.begin;
    commit_raw = publications.commit_raw;
    fail_raw = publications.fail_raw;
    reconcile_raw = publications.reconcile_raw;
    complete = Flights.complete u;
    finalize = Flights.finalize u;
    fence = Queue.fence u;
    take = take;
    recover = Recover.recover u;
    heartbeat = heartbeat;
    give_back = lease.give_back;
  }

  pub run_keeps : (cs : List Command) (db : Database) → P db → P (run cs db)
  run_keeps = run-Keeps blocks
