-- ===== src/Runtime/Walk/Queue.antt =====
-- The blocks on requests, the queue and the attempts, statement by statement.
use system_trade_with_llm_or.Prelude.{ℕ, refl, Option, none, some, List, [], ◌∷◌}
use system_trade_with_llm_or.Schema.{Database, Identifier, Instant, Reason, LogicalRequest}
use system_trade_with_llm_or.Schema.States.{Outcome}
use system_trade_with_llm_or.Tx.Keeps.{Keeps, keeps_rules}
use system_trade_with_llm_or.Lease.{RuntimeLease, assert_fence}
use system_trade_with_llm_or.Requests.{cancel_logical}
use system_trade_with_llm_or.Queue.{QueuePolicy, enqueue_block, claim_task, claim_from, claim_block}
use system_trade_with_llm_or.Queue.Claims.{Lineage, check_consumer, claimed_block}
use system_trade_with_llm_or.Attempts.{reserve_block}
use system_trade_with_llm_or.Runtime.Units.{Units}

module _ {P : Database → Type 0} (u : Units P) where
  open u use {events, requests, queue, attempts, gates, flights, publications, lease}

  pub fence : (l : RuntimeLease) (now : Instant) → Keeps P (assert_fence l now)
  unfolding assert_fence
  fence l now = search keeps_rules

  pub cancel_as_cancelled :
      (id : Identifier) (now : Instant) (reason : Reason)
      → Keeps P (cancel_logical id now reason Outcome.cancelled)
  unfolding cancel_logical
  cancel_as_cancelled id now reason = requests.settle _ _ _ refl

  pub cancel_as_failed :
      (id : Identifier) (now : Instant) (reason : Reason)
      → Keeps P (cancel_logical id now reason Outcome.failed)
  unfolding cancel_logical
  cancel_as_failed id now reason = requests.settle _ _ _ refl

  pub cancel_as_unknown :
      (id : Identifier) (now : Instant) (reason : Reason)
      → Keeps P (cancel_logical id now reason Outcome.unknown)
  unfolding cancel_logical
  cancel_as_unknown id now reason = requests.settle _ _ _ refl

  pub enqueue :
      (r : LogicalRequest) (domain : Identifier) (now : Instant) (policy : QueuePolicy)
      → Keeps P (enqueue_block r domain now policy)
  unfolding enqueue_block
  enqueue r domain now policy =
      search (keeps_rules, events.queue_event, requests.insert, requests.fail, queue.insert) depth
        20

  claim_one :
      (domain : Identifier) (now : Instant) (task : Identifier)
      → Keeps P (claim_task domain now task)
  unfolding claim_task
  claim_one domain now task =
      search (keeps_rules, events.queue_event, queue.dequeue, queue.cursor) depth 20

  claim_any :
      (domain : Identifier) (now : Instant) (cursor : Option Identifier) (tasks : List Identifier)
      → Keeps P (claim_from domain now cursor tasks)
  unfolding claim_from
  claim_any domain now cursor [] = search keeps_rules
  claim_any domain now cursor (t ∷ rest) = claim_one domain now _

  pub claim : (domain : Identifier) (now : Instant) → Keeps P (claim_block domain now)
  unfolding claim_block
  claim domain now = search (keeps_rules, claim_any) depth 20

  check : (l : Lineage) (fingerprint : Option Identifier) → Keeps P (check_consumer l fingerprint)
  unfolding check_consumer
  check l none = search keeps_rules
  check l (some f) = search keeps_rules depth 20

  pub claimed : (l : Lineage) → Keeps P (claimed_block l)
  unfolding claimed_block
  claimed l = search (keeps_rules, check) depth 20

  pub reserve :
      (id logical : Identifier) (generation : ℕ) (now : Instant)
      → Keeps P (reserve_block id logical generation now)
  unfolding reserve_block
  reserve id logical generation now = search (keeps_rules, attempts.insert) depth 20
