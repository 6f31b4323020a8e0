-- ===== src/Runtime/Walk/Flights.antt =====
-- The blocks on the flights, statement by statement.
use system_trade_with_llm_or.Prelude.{Bool, Option, none, some}
use system_trade_with_llm_or.Schema.{Database, Identifier, Instant, LogicalRequest, LogicalResult}
use system_trade_with_llm_or.Schema.States.{Role}
use system_trade_with_llm_or.Tx.Keeps.{Keeps, keeps_rules}
use system_trade_with_llm_or.Queue.{QueuePolicy}
use system_trade_with_llm_or.Flights.Results.{complete_block, finalize_block}
use system_trade_with_llm_or.Flights.Admit.{join_flight, queue_leader, admit_block}
use system_trade_with_llm_or.Runtime.Units.{Units}
use system_trade_with_llm_or.Runtime.Walk.Queue.{cancel_as_failed}
use system_trade_with_llm_or.Runtime.Walk.Settle.{settling, persist, finalizable, finish, reconcile}

module _ {P : Database → Type 0} (u : Units P) where
  open u use {events, requests, queue, attempts, gates, flights, publications, lease}

  pub complete : (result : LogicalResult) (now : Instant) → Keeps P (complete_block result now)
  unfolding complete_block
  complete result now =
      search (keeps_rules, finalizable (settling u), persist (settling u), finish (settling u))
        depth 20

  pub finalize : (result : LogicalResult) (now : Instant) → Keeps P (finalize_block result now)
  unfolding finalize_block
  finalize result now =
      search (keeps_rules, finalizable (settling u), persist (settling u), finish (settling u))
        depth 20

  join :
      (r : LogicalRequest) (domain : Identifier) (flight : Option (Identifier × Identifier))
      → Keeps P (join_flight r domain flight)
  unfolding join_flight
  join r domain none = search (keeps_rules, flights.launch) depth 20
  join r domain (some (leader, leader_domain)) = search keeps_rules depth 20

  queue_one :
      (role : Role) (r : LogicalRequest) (domain : Identifier) (now : Instant)
      (policy : QueuePolicy)
      → Keeps P (queue_leader role r domain now policy)
  unfolding queue_leader
  queue_one Role.follower r domain now policy = search keeps_rules
  queue_one Role.leader r domain now policy =
      search
        (
          keeps_rules,
          events.queue_event,
          queue.insert,
          cancel_as_failed u,
          flights.end,
          flights.cancel,
        )
        depth 20

  pub admit :
      (r : LogicalRequest) (domain : Identifier) (applicable : Bool) (now : Instant)
      (policy : QueuePolicy)
      → Keeps P (admit_block r domain applicable now policy)
  unfolding admit_block
  admit r domain applicable now policy =
      search
        (
          keeps_rules,
          requests.insert,
          events.admission_event,
          reconcile (settling u),
          join,
          flights.insert,
          queue_one,
        )
        depth 20
