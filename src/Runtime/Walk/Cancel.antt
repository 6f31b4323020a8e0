-- ===== src/Runtime/Walk/Cancel.antt =====
-- The blocks of a cancellation, statement by statement.
use system_trade_with_llm_or.Prelude.{Bool, Option, none, some}
use system_trade_with_llm_or.Schema.{
  Database, Identifier, Instant, Reason, PhysicalAttempt, Consumer, QueueEntry,
}
use system_trade_with_llm_or.Tx.Keeps.{Keeps, keeps_rules}
use system_trade_with_llm_or.Flights.Cancel.{
  abandon, cancel_started_flight, cancel_follower, hand_over, replace_leader, drop_reserved,
  cancel_unstarted, cancel_leader, cancel_block,
}
use system_trade_with_llm_or.Runtime.Units.{Units}
use system_trade_with_llm_or.Runtime.Walk.Queue.{cancel_as_cancelled, cancel_as_unknown}
use system_trade_with_llm_or.Runtime.Walk.Gates.{release_all}

module _ {P : Database → Type 0} (u : Units P) where
  open u use {events, requests, queue, attempts, gates, flights, publications, lease}

  abandon_one : (now : Instant) (reason : Reason) (c : Consumer) → Keeps P (abandon now reason c)
  unfolding abandon
  abandon_one now reason c =
      search (keeps_rules, cancel_as_unknown u, flights.cancel, events.admission_event) depth 20

  abandon_flight :
      (fingerprint : Identifier) (now : Instant) (reason : Reason)
      → Keeps P (cancel_started_flight fingerprint now reason)
  unfolding cancel_started_flight
  abandon_flight fingerprint now reason =
      search (keeps_rules, release_all u, attempts.lose, abandon_one, flights.end) depth 20

  leave :
      (id : Identifier) (now : Instant) (reason : Reason) → Keeps P (cancel_follower id now reason)
  unfolding cancel_follower
  leave id now reason =
      search (keeps_rules, cancel_as_cancelled u, flights.cancel, events.admission_event) depth 20

  hand :
      (fingerprint id : Identifier) (now : Instant)
      (follower : Option (Identifier × Identifier × Identifier))
      → Keeps P (hand_over fingerprint id now follower)
  unfolding hand_over
  hand fingerprint id now none = search (keeps_rules, flights.end) depth 20
  hand fingerprint id now (some (promoted, domain, task)) =
      search
        (
          keeps_rules, flights.promote, flights.hand, queue.insert, events.queue_event,
          events.admission_event,
        )
        depth 20

  replace :
      (fingerprint id : Identifier) (now : Instant) (reason : Reason)
      → Keeps P (replace_leader fingerprint id now reason)
  unfolding replace_leader
  replace fingerprint id now reason =
      search
        (
          keeps_rules,
          cancel_as_cancelled u,
          flights.cancel,
          queue.cancel,
          hand,
          events.admission_event,
        )
        depth 20

  drop :
      (id : Identifier) (now : Instant) (live : Option PhysicalAttempt)
      → Keeps P (drop_reserved id now live)
  unfolding drop_reserved
  drop id now none = search keeps_rules
  drop id now (some a) = search (keeps_rules, release_all u, attempts.fail) depth 20

  unstarted :
      (fingerprint id : Identifier) (now : Instant) (reason : Reason) (entry : Option QueueEntry)
      (live : Option PhysicalAttempt) (sent : Bool)
      → Keeps P (cancel_unstarted fingerprint id now reason entry live sent)
  unfolding cancel_unstarted
  unstarted fingerprint id now reason entry live sent =
      search (keeps_rules, drop, abandon_flight, replace) depth 20

  leader :
      (fingerprint id : Identifier) (now : Instant) (reason : Reason)
      → Keeps P (cancel_leader fingerprint id now reason)
  unfolding cancel_leader
  leader fingerprint id now reason = search (keeps_rules, abandon_flight, unstarted) depth 20

  pub cancel :
      (id : Identifier) (reason : Reason) (now : Instant) → Keeps P (cancel_block id reason now)
  unfolding cancel_block
  cancel id reason now = search (keeps_rules, leader, leave) depth 20
