-- ===== src/Queue.antt =====
-- The queue of requests/storage.py: `enqueue_logical_request` and `claim_next_queued`, with
-- `QueuePolicy` and `QueueClaim` of requests/production.py.
pub mod Claims
pub mod Bounds
pub mod Order
pub mod Tasks
pub mod Fairness
pub mod Rejected
use system_trade_with_llm_or.Prelude.{
  ℕ, ◌≤◌, Bool, true, false, Option, none, some, List, [], ◌∷◌, ◌++◌, not, ◌&&◌, ◌||◌, ◌==◌, leb,
  ltb, if◌then◌else◌, count_if, update_where, find, any, select, order_by, first,
}
use system_trade_with_llm_or.Schema.{
  Database, Identifier, Instant, Reason, LogicalRequest, LogicalResult, QueueEntry, Cursor,
}
use system_trade_with_llm_or.Schema.States.{
  LogicalState, Outcome, QueueState, QueueEventType, is_waiting,
}
use system_trade_with_llm_or.Schema.Codes.{
  Code, queue_enqueue_failed, queue_full, queue_scheduler_inconsistent, queue_claim_race,
  queue_claim_failed,
}
use system_trade_with_llm_or.Tables.{has_request}
use system_trade_with_llm_or.Tx.{
  insert_if, update_one, Tx, Result, ok, err, Operation, pure, gets, require, modify, raise_if,
  constraint, when, ◌>>=◌, ◌>>◌,
}
use system_trade_with_llm_or.Lease.{RuntimeLease, fenced}
use system_trade_with_llm_or.Requests.{insert_logical_request, insert_result, append_queue_event}

pub record QueuePolicy : Type 0 where
  pub global_limit : ℕ
  pub rate_domain_limit : ℕ
  pub task_rate_domain_limit : ℕ

-- `validate_limit_hierarchy` and the bounds of the fields.
pub record QueuePolicyIsValid (p : QueuePolicy) : Type 0 where
  pub positive : 1 ≤ p.task_rate_domain_limit
  pub task_in_domain : p.task_rate_domain_limit ≤ p.rate_domain_limit
  pub domain_in_global : p.rate_domain_limit ≤ p.global_limit

-- The three counts of the backpressure test.
abbrev pub waiting : QueueEntry → Bool
waiting e = is_waiting e.state

abbrev pub waiting_in : Identifier → QueueEntry → Bool
waiting_in domain e = is_waiting e.state && (e.rate_domain == domain)

abbrev pub waiting_for : Identifier → Identifier → QueueEntry → Bool
waiting_for domain task e = is_waiting e.state && (e.rate_domain == domain) && (e.task_id == task)

unfoldable pub is_full : QueuePolicy → Identifier → Identifier → List QueueEntry → Bool
is_full policy domain task entries =
    leb policy.global_limit (count_if waiting entries)
    || leb policy.rate_domain_limit (count_if (waiting_in domain) entries)
    || leb policy.task_rate_domain_limit (count_if (waiting_for domain task) entries)

-- INSERT INTO queue_entries
unfoldable pub insert_entry : QueueEntry → Tx (Unit {0})
insert_entry e =
    insert_if
      (λ db.
        has_request db e.logical_request_id
        && not (any (λ q. q.logical_request_id == e.logical_request_id) db.queue_entries))
      (λ db. record db { queue_entries = db.queue_entries ++ e ∷ [] })

abbrev pub new_entry : LogicalRequest → Identifier → Instant → QueueState → QueueEntry
new_entry request domain now state = record {
  logical_request_id = request.logical_request_id;
  rate_domain = domain;
  task_id = request.task_id;
  enqueued_at = now;
  state = state;
  dequeued_at = none;
}

abbrev pub rejection : LogicalRequest → Bool → QueueState
rejection request true = QueueState.rejected
rejection request false = QueueState.queued

-- UPDATE logical_requests SET state = 'failed' WHERE logical_request_id = ?
unfoldable pub fail_request : Identifier → Tx (Unit {0})
fail_request id = modify (λ db. record db {
  logical_requests =
      update_where (λ r. r.logical_request_id == id) (λ r. record r { state = LogicalState.failed })
        db.logical_requests;
})

-- The rejected request fails, and its result says so.
unfoldable pub fail_with_result : LogicalResult → Tx (Unit {0})
fail_with_result result = do fail_request result.logical_request_id; insert_result result

-- The outcome of a block that may have recorded a rejection: the raise comes after the commit.
abbrev pub raise_rejected :
    {A : Type 0} → Result Code (Bool × A) × Database → Result Code A × Database
raise_rejected (ok (true, a), db) = (err queue_full, db)
raise_rejected (ok (false, a), db) = (ok a, db)
raise_rejected (err c, db) = (err c, db)

unfoldable pub enqueue_block :
    LogicalRequest → Identifier → Instant → QueuePolicy → Tx (Bool × Unit {0})
enqueue_block request domain now policy = do
  insert_logical_request request
  append_queue_event request.logical_request_id QueueEventType.requested now none
  rejected ← gets (λ db. is_full policy domain request.task_id db.queue_entries)
  insert_entry (new_entry request domain now (rejection request rejected))
  when rejected do
    fail_with_result (record {
      logical_request_id = request.logical_request_id;
      outcome = Outcome.failed;
      completed_at = now;
      error_code = some Reason.queue_full;
    })
    append_queue_event request.logical_request_id QueueEventType.rejected now
        (some Reason.queue_full)
  when (not rejected) (append_queue_event request.logical_request_id QueueEventType.queued now none)
  pure (rejected, tt)

unfoldable pub enqueue_logical_request :
    LogicalRequest → Identifier → RuntimeLease → Instant → QueuePolicy → Operation (Unit {0})
enqueue_logical_request request domain lease now policy db =
    raise_rejected
      (fenced queue_enqueue_failed lease now (enqueue_block request domain now policy) db)

pub record QueueClaim : Type 0 where
  pub logical_request_id : Identifier
  pub task_id : Identifier
  pub rate_domain : Identifier
  pub enqueued_at : Instant

-- SELECT task_id … GROUP BY task_id ORDER BY task_id: each task once, in order.
abbrev pub insert_task : Identifier → List Identifier → List Identifier
insert_task t [] = t ∷ []
insert_task t (u ∷ us) =
    if t == u then u ∷ us else if ltb t u then t ∷ u ∷ us else u ∷ insert_task t us

unfoldable pub waiting_tasks : Identifier → List QueueEntry → List Identifier
waiting_tasks domain [] = []
waiting_tasks domain (e ∷ es) =
    let rest = waiting_tasks domain es in
    if waiting_in domain e then insert_task e.task_id rest else rest

abbrev pub last_task : Identifier → List Cursor → Option Identifier
last_task domain [] = none
last_task domain (c ∷ cs) =
    if c.rate_domain == domain then some c.last_task_id else last_task domain cs

abbrev pub after : Option Identifier → Identifier → Bool
after none candidate = true
after (some t) candidate = ltb t candidate

-- next((candidate for candidate in tasks if …), tasks[0])
abbrev pub next_task : Option Identifier → Identifier → List Identifier → Identifier
next_task cursor t rest = elim (find (after cursor) (t ∷ rest)) [ some u ↦ u | none ↦ t ]

-- ORDER BY enqueued_at, logical_request_id
abbrev pub earlier : QueueEntry → QueueEntry → Bool
earlier a b =
    ltb a.enqueued_at b.enqueued_at
    || ((a.enqueued_at == b.enqueued_at) && leb a.logical_request_id b.logical_request_id)

unfoldable pub oldest : Identifier → Identifier → List QueueEntry → Option QueueEntry
oldest domain task entries = first (order_by earlier (select (waiting_for domain task) entries))

abbrev pub is_claimable : Identifier → QueueEntry → Bool
is_claimable id e = (e.logical_request_id == id) && is_waiting e.state

abbrev pub dequeue : Instant → QueueEntry → QueueEntry
dequeue now e = record e { state = QueueState.dequeued; dequeued_at = some now }

-- INSERT … ON CONFLICT(rate_domain) DO UPDATE SET last_task_id = excluded.last_task_id
unfoldable pub set_cursor : Identifier → Identifier → List Cursor → List Cursor
set_cursor domain task [] = record { rate_domain = domain; last_task_id = task } ∷ []
set_cursor domain task (c ∷ cs) =
    if c.rate_domain == domain
    then record c { last_task_id = task } ∷ cs
    else c ∷ set_cursor domain task cs

-- UPDATE queue_entries SET state = 'dequeued' …, refused unless it changed one row.
unfoldable pub dequeue_entry : Identifier → Instant → Tx (Unit {0})
dequeue_entry id now =
    update_one (λ db. count_if (is_claimable id) db.queue_entries)
      (λ db. record db {
        queue_entries = update_where (is_claimable id) (dequeue now) db.queue_entries;
      })
      queue_claim_race

unfoldable pub move_cursor : Identifier → Identifier → Tx (Unit {0})
move_cursor domain task =
    modify (λ db. record db {
      provider_queue_cursors = set_cursor domain task db.provider_queue_cursors;
    })

unfoldable pub claim_task : Identifier → Instant → Identifier → Tx (Option QueueClaim)
claim_task domain now task = do
  found ← gets (λ db. oldest domain task db.queue_entries)
  row ← require found queue_scheduler_inconsistent
  dequeue_entry row.logical_request_id now
  move_cursor domain task
  append_queue_event row.logical_request_id QueueEventType.dequeued now none
  pure (
      some (record {
        logical_request_id = row.logical_request_id;
        task_id = task;
        rate_domain = domain;
        enqueued_at = row.enqueued_at;
      }))

-- if not tasks: return None
unfoldable pub claim_from :
    Identifier → Instant → Option Identifier → List Identifier → Tx (Option QueueClaim)
claim_from domain now cursor [] = pure none
claim_from domain now cursor (t ∷ rest) = claim_task domain now (next_task cursor t rest)

unfoldable pub claim_block : Identifier → Instant → Tx (Option QueueClaim)
claim_block domain now = do
  tasks ← gets (λ db. waiting_tasks domain db.queue_entries)
  cursor ← gets (λ db. last_task domain db.provider_queue_cursors)
  claim_from domain now cursor tasks

unfoldable pub claim_next_queued :
    Identifier → RuntimeLease → Instant → Operation (Option QueueClaim)
claim_next_queued domain lease now = fenced queue_claim_failed lease now (claim_block domain now)
