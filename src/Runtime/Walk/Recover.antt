-- ===== src/Runtime/Walk/Recover.antt =====
-- The blocks of a recovery, statement by statement.
use system_trade_with_llm_or.Prelude.{ℕ}
use system_trade_with_llm_or.Schema.{Database, Identifier, Instant}
use system_trade_with_llm_or.Tx.Keeps.{Keeps, keeps_rules}
use system_trade_with_llm_or.Lease.{LeasePolicy}
use system_trade_with_llm_or.Recovery.{
  validate_recovery_state, recover_gate_reservations, recover_block,
}
use system_trade_with_llm_or.Runtime.Units.{Units}
use system_trade_with_llm_or.Runtime.Walk.Gates.{release_one}
use system_trade_with_llm_or.Runtime.Walk.Settle.{settling, reconcile, requeue, sent, between}

module _ {P : Database → Type 0} (u : Units P) where
  open u use {events, requests, queue, attempts, gates, flights, publications, lease}

  audited : (previous : ℕ) → Keeps P (validate_recovery_state previous)
  unfolding validate_recovery_state
  audited previous = search keeps_rules depth 20

  release_left :
      (generation : ℕ) (now : Instant) → Keeps P (recover_gate_reservations generation now)
  unfolding recover_gate_reservations
  release_left generation now = search (keeps_rules, release_one u) depth 20

  pub recover :
      (owner : Identifier) (now : Instant) (policy : LeasePolicy)
      → Keeps P (recover_block owner now policy)
  unfolding recover_block
  recover owner now policy =
      search
        (
          keeps_rules,
          audited,
          release_left,
          requeue (settling u),
          sent (settling u),
          between (settling u),
          attempts.take_over,
          reconcile (settling u),
          lease.take_over,
        )
        depth 30
