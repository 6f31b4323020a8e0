-- ===== src/Queue/Order.antt =====
-- The order in which queued requests are claimed: first in, first out within a task.
use system_trade_with_llm_or.Prelude.{
  ◌≡◌, refl, Option, none, some, List, [], ◌∷◌, arith, update_where, IsOrder, IsFirst,
  first-IsFirst, sym, ◌∙◌, ap, ◌⊎◌, inl, inr,
}
use mathlib.Core.Path.{subst}
use system_trade_with_llm_or.Schema.{Database, Identifier, Instant, QueueEntry, Cursor}
use system_trade_with_llm_or.Schema.States.{QueueEventType}
use system_trade_with_llm_or.Schema.Codes.{Code, queue_scheduler_inconsistent, queue_claim_failed}
use system_trade_with_llm_or.Tx.{
  ok, pure, require, insert_if, update_one, ◌>>=◌, ◌>>◌, >>=-eq-ok, gets-eq-ok,
}
use system_trade_with_llm_or.Tx.Keeps.{same_database, returned}
use system_trade_with_llm_or.Lease.{RuntimeLease, fenced-eq-ok}
use system_trade_with_llm_or.Requests.{append_queue_event}
use system_trade_with_llm_or.Queue.{
  QueueClaim, waiting_for, waiting_tasks, last_task, next_task, earlier, oldest, is_claimable,
  dequeue, set_cursor, dequeue_entry, move_cursor, claim_task, claim_from, claim_block,
  claim_next_queued,
}

earlier-IsOrder : IsOrder earlier
earlier-IsOrder = record {
  total = λ x y h. ground arith;
  transitive = λ x y z xy yz. ground arith;
  reflexive = λ x. ground arith;
}

oldest-IsFirst :
    (domain task : Identifier) (entries : List QueueEntry) (row : QueueEntry)
    → oldest domain task entries ≡ some row
    → IsFirst earlier (waiting_for domain task) entries row
unfolding oldest
oldest-IsFirst domain task entries row h =
    first-IsFirst earlier earlier-IsOrder (waiting_for domain task) entries row h

require-found :
    {A : Type 0} (o : Option A) (c : Code) (db : Database) {a : A} {db' : Database}
    → require o c db ≡ ok (a, db')
    → (o ≡ some a) × (db ≡ db')
unfolding require
require-found none c db h = absurd (cc)
require-found (some a) c db h = (cc, same_database h)

dequeue_entry-queue :
    (id : Identifier) (now : Instant) (db : Database) {u : Unit {0}} {db' : Database}
    → dequeue_entry id now db ≡ ok (u, db')
    → (db'.queue_entries ≡ update_where (is_claimable id) (dequeue now) db.queue_entries)
      × (db'.provider_queue_cursors ≡ db.provider_queue_cursors)
unfolding dequeue_entry update_one ◌>>=◌
dequeue_entry-queue id now db h = ground arith

last_steps-queue :
    (entries : List QueueEntry) (cursors : List Cursor) (domain task id : Identifier)
    (now : Instant) (c : Option QueueClaim) (db : Database) {result : Option QueueClaim}
    {db' : Database}
    → db.queue_entries ≡ entries
    → db.provider_queue_cursors ≡ cursors
    → (move_cursor domain task
          >> (append_queue_event id QueueEventType.dequeued now none >> pure c))
        db
      ≡ ok (result, db')
    → (c ≡ result)
      × (db'.queue_entries ≡ entries)
      × (db'.provider_queue_cursors ≡ set_cursor domain task cursors)
unfolding move_cursor append_queue_event insert_if ◌>>=◌
last_steps-queue entries cursors domain task id now c db same held h = ground arith

-- The claimed entry waited for this task, was in the queue, and came before every other that waited
-- for it; it is the one that leaves.
pub record IsOldestClaimed (claim : QueueClaim) (domain : Identifier) (now : Instant)
    (before after : Database) : Type 0 where
  pub entry : QueueEntry
  pub names : claim.logical_request_id ≡ entry.logical_request_id
  pub queued_at : claim.enqueued_at ≡ entry.enqueued_at
  pub oldest_of_task : IsFirst earlier (waiting_for domain claim.task_id) before.queue_entries entry
  pub leaves :
      after.queue_entries
      ≡ update_where (is_claimable entry.logical_request_id) (dequeue now) before.queue_entries

claim_of : Identifier → Identifier → QueueEntry → QueueClaim
claim_of domain task row = record {
  logical_request_id = row.logical_request_id;
  task_id = task;
  rate_domain = domain;
  enqueued_at = row.enqueued_at;
}

oldest_claimed :
    (domain : Identifier) (now : Instant) (task : Identifier) (db db' : Database) (row : QueueEntry)
    (c : QueueClaim)
    → oldest domain task db.queue_entries ≡ some row
    → some (claim_of domain task row) ≡ some c
    → db'.queue_entries
      ≡ update_where (is_claimable row.logical_request_id) (dequeue now) db.queue_entries
    → IsOldestClaimed c domain now db db'
unfolding claim_of
oldest_claimed domain now task db db' row c is_oldest same left =
    let claimed : claim_of domain task row ≡ c = cc in
    subst (λ c. IsOldestClaimed c domain now db db') claimed
      (record {
        entry = row;
        names = refl;
        queued_at = refl;
        oldest_of_task = oldest-IsFirst domain task db.queue_entries row is_oldest;
        leaves = left;
      })

-- A task's claim never comes back empty.
claim_task-oldest :
    (domain : Identifier) (now : Instant) (task : Identifier) (db : Database)
    (claim : Option QueueClaim) {db' : Database}
    → claim_task domain now task db ≡ ok (claim, db')
    → (c : QueueClaim) × (some c ≡ claim)
      × (c.task_id ≡ task)
      × (db'.provider_queue_cursors ≡ set_cursor domain task db.provider_queue_cursors)
      × IsOldestClaimed c domain now db db'
unfolding claim_task claim_of
claim_task-oldest domain now task db claim {db'} h =
    let (row, d2, e2, r2) =
      >>=-eq-ok (require (oldest domain task db.queue_entries) queue_scheduler_inconsistent) _ db
        (gets-eq-ok (λ db. oldest domain task db.queue_entries) _ db h) in
    let (_, d3, e3, r3) = >>=-eq-ok (dequeue_entry row.logical_request_id now) _ d2 r2 in
    let (is_oldest, same_db) = require-found _ _ db e2 in
    let (same, left, moved) =
      last_steps-queue d3.queue_entries d3.provider_queue_cursors domain task row.logical_request_id
        now (some (claim_of domain task row)) d3 refl refl r3 in
    let (dequeued, held) = dequeue_entry-queue row.logical_request_id now d2 e3 in
    (
      claim_of domain task row,
      same,
      refl,
      moved
          ∙ ap (λ cs. set_cursor domain task cs)
              (held ∙ ap (λ d. d.provider_queue_cursors) (sym same_db)),
      oldest_claimed domain now task db db' row (claim_of domain task row) is_oldest refl (
          left
          ∙ (dequeued
              ∙ ap
                  (λ d.
                    update_where (is_claimable row.logical_request_id) (dequeue now)
                      d.queue_entries)
                  (sym same_db))),
    )

-- A claim is empty where no task waits, and else is a claim of the next task.
pub claim_block-cases :
    (domain : Identifier) (now : Instant) (db : Database) (claim : Option QueueClaim)
    {db' : Database}
    → claim_block domain now db ≡ ok (claim, db')
    → ((waiting_tasks domain db.queue_entries ≡ []) × (claim ≡ none) × (db ≡ db'))
      ⊎ ((t : Identifier) × (rest : List Identifier) × (c : QueueClaim) × (waiting_tasks domain
              db.queue_entries
            ≡ t ∷ rest)
          × (some c ≡ claim)
          × (c.task_id ≡ next_task (last_task domain db.provider_queue_cursors) t rest)
          × (db'.provider_queue_cursors ≡ set_cursor domain c.task_id db.provider_queue_cursors)
          × IsOldestClaimed c domain now db db')
unfolding claim_block claim_from
claim_block-cases domain now db claim {db'} h =
    claimed (waiting_tasks domain db.queue_entries) refl (
      gets-eq-ok (λ db. last_task domain db.provider_queue_cursors) _ db
        (gets-eq-ok (λ db. waiting_tasks domain db.queue_entries) _ db h))
  where
    claimed :
        (tasks : List Identifier)
        → waiting_tasks domain db.queue_entries ≡ tasks
        → claim_from domain now (last_task domain db.provider_queue_cursors) tasks db
          ≡ ok (claim, db')
        → ((waiting_tasks domain db.queue_entries ≡ []) × (claim ≡ none) × (db ≡ db'))
          ⊎ ((t : Identifier) × (rest : List Identifier) × (c : QueueClaim) × (waiting_tasks domain
                  db.queue_entries
                ≡ t ∷ rest)
              × (some c ≡ claim)
              × (c.task_id ≡ next_task (last_task domain db.provider_queue_cursors) t rest)
              × (db'.provider_queue_cursors ≡ set_cursor domain c.task_id db.provider_queue_cursors)
              × IsOldestClaimed c domain now db db')
    claimed [] e k = inl (e, sym (returned none db k).0, (returned none db k).1)
    claimed (t ∷ rest) e k =
        let (c, same, of_task, moved, claimed_oldest) =
          claim_task-oldest domain now (next_task _ t rest) db claim k in
        inr (
          t,
          rest,
          c,
          e,
          same,
          of_task,
          moved ∙ ap (λ u. set_cursor domain u db.provider_queue_cursors) (sym of_task),
          claimed_oldest,
        )

claim_block-oldest :
    (domain : Identifier) (now : Instant) (db : Database) (c : QueueClaim) {db' : Database}
    → claim_block domain now db ≡ ok (some c, db')
    → IsOldestClaimed c domain now db db'
claim_block-oldest domain now db c {db'} h = elim (claim_block-cases domain now db (some c) h) [
  | inl nothing ↦ absurd (let e = nothing.1 in cc)
  | inr claimed ↦
      let (t, rest, d, tasks, same, of_task, moved, is_oldest) = claimed in
      let equal : d ≡ c = cc in subst (λ c. IsOldestClaimed c domain now db db') equal is_oldest
]

-- A claim is first in, first out within its task: the entry claimed waited in the rate domain for
-- the claim's task, came before every other entry that did (by its time, then its identifier), and
-- the queue that is left has that entry dequeued and every other as it was.
pub claim_takes_oldest :
    (domain : Identifier) (lease : RuntimeLease) (now : Instant) (db : Database) (c : QueueClaim)
    (db' : Database)
    → claim_next_queued domain lease now db ≡ (ok (some c), db')
    → IsOldestClaimed c domain now db db'
unfolding claim_next_queued
claim_takes_oldest domain lease now db c db' h =
    claim_block-oldest domain now db c
      (fenced-eq-ok queue_claim_failed lease now (claim_block domain now) db h)
