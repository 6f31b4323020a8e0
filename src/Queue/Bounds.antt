-- ===== src/Queue/Bounds.antt =====
-- Backpressure: what an enqueue that goes through leaves in the queue.
use system_trade_with_llm_or.Prelude.{
  ℕ, ◌+◌, ◌≤◌, ◌≡◌, refl, Bool, true, false, Option, none, some, List, [], ◌∷◌, ◌++◌, not, leb,
  arith, count_if, count_if-append, ==_refl, sym, ◌∙◌, ap,
}
use system_trade_with_llm_or.Schema.{
  Database, Identifier, Instant, Reason, LogicalRequest, QueueEntry,
}
use system_trade_with_llm_or.Schema.States.{Outcome, QueueState, QueueEventType}
use system_trade_with_llm_or.Schema.Codes.{Code, queue_enqueue_failed}
use system_trade_with_llm_or.Tx.{Tx, Result, ok, pure, when, insert_if, ◌>>=◌, ◌>>◌, >>=-eq-ok}
use system_trade_with_llm_or.Tx.Keeps.{Keeps, Keeps-insert_if, same_database, returned}
use system_trade_with_llm_or.Lease.{RuntimeLease, fenced-eq-ok}
use system_trade_with_llm_or.Requests.{insert_logical_request, append_queue_event}
use system_trade_with_llm_or.Queue.{
  QueuePolicy, waiting, waiting_in, waiting_for, is_full, insert_entry, new_entry, rejection,
  raise_rejected, enqueue_block, enqueue_logical_request, fail_with_result,
}

insert_request-queue :
    (entries : List QueueEntry) (r : LogicalRequest)
    → Keeps (λ db. db.queue_entries ≡ entries) (insert_logical_request r)
unfolding insert_logical_request
insert_request-queue entries r = Keeps-insert_if _ _ (λ db _ h. h)

queue_event-queue :
    (entries : List QueueEntry) (id : Identifier) (event : QueueEventType) (now : Instant)
    (reason : Option Reason)
    → Keeps (λ db. db.queue_entries ≡ entries) (append_queue_event id event now reason)
unfolding append_queue_event
queue_event-queue entries id event now reason = Keeps-insert_if _ _ (λ db _ h. h)

insert_entry-queue :
    (entries : List QueueEntry) (e : QueueEntry) (db : Database) {u : Unit {0}} {db' : Database}
    → db.queue_entries ≡ entries
    → insert_entry e db ≡ ok (u, db')
    → db'.queue_entries ≡ entries ++ e ∷ []
unfolding insert_entry insert_if ◌>>=◌
insert_entry-queue entries e db same h = rw (sym same) (ground arith)

raise_rejected-ok :
    {A : Type 0} (t : Result Code (Bool × A) × Database) {a : A} {db' : Database}
    → raise_rejected t ≡ (ok a, db')
    → t ≡ (ok (false, a), db')
raise_rejected-ok t h = ground arith

when-false :
    (m : Tx (Unit {0})) (db : Database) {u : Unit {0}} {db' : Database}
    → when false m db ≡ ok (u, db')
    → db ≡ db'
unfolding when
when-false m db h = same_database h

when-true :
    (m : Tx (Unit {0})) (db : Database) {u : Unit {0}} {db' : Database}
    → when true m db ≡ ok (u, db')
    → m db ≡ ok (u, db')
unfolding when
when-true m db h = h

-- What follows the test of the limits.
unfoldable rest_of_enqueue : LogicalRequest → Identifier → Instant → Bool → Tx (Bool × Unit {0})
rest_of_enqueue request domain now rejected = do
  insert_entry (new_entry request domain now (rejection request rejected))
  when rejected do
    fail_with_result (record {
      logical_request_id = request.logical_request_id;
      outcome = Outcome.failed;
      completed_at = now;
      error_code = some Reason.queue_full;
    })
    append_queue_event request.logical_request_id QueueEventType.rejected now
        (some Reason.queue_full)
  when (not rejected) (append_queue_event request.logical_request_id QueueEventType.queued now none)
  pure (rejected, tt)

rest_of_enqueue-queue :
    (request : LogicalRequest) (domain : Identifier) (now : Instant) (rejected : Bool)
    (db : Database) {u : Unit {0}} {db' : Database}
    → rest_of_enqueue request domain now rejected db ≡ ok ((false, u), db')
    → (rejected ≡ false)
      × (db'.queue_entries
          ≡ db.queue_entries ++ new_entry request domain now QueueState.queued ∷ [])
unfolding rest_of_enqueue
rest_of_enqueue-queue request domain now true db h =
    let (_, d1, _, r1) = >>=-eq-ok (insert_entry _) _ db h in
    let (_, d2, _, r2) = >>=-eq-ok (when true _) _ d1 r1 in
    let (_, d3, _, r3) = >>=-eq-ok (when false _) _ d2 r2 in
    absurd (not_false (ap (λ p. p.0) (returned (true, tt) d3 r3).0))
  where
    not_false : ¬ (true ≡ false)
    not_false e = cc
rest_of_enqueue-queue request domain now false db h =
    let (_, d1, e1, r1) = >>=-eq-ok (insert_entry _) _ db h in
    let (_, d2, e2, r2) = >>=-eq-ok (when false _) _ d1 r1 in
    let (_, d3, e3, r3) = >>=-eq-ok (when true _) _ d2 r2 in
    (
      refl,
      ap (λ d. d.queue_entries) (sym (returned (false, tt) d3 r3).1)
          ∙ (queue_event-queue d2.queue_entries request.logical_request_id QueueEventType.queued now
                none).at
              d2 refl _ d3 (when-true _ d2 e3)
          ∙ ap (λ d. d.queue_entries) (sym (when-false _ d1 e2))
          ∙ insert_entry-queue db.queue_entries _ db refl e1,
    )

-- An enqueue that is not rejected found room and added its entry.
enqueue_block-queue :
    (request : LogicalRequest) (domain : Identifier) (now : Instant) (policy : QueuePolicy)
    (db : Database) {u : Unit {0}} {db' : Database}
    → enqueue_block request domain now policy db ≡ ok ((false, u), db')
    → (is_full policy domain request.task_id db.queue_entries ≡ false)
      × (db'.queue_entries
          ≡ db.queue_entries ++ new_entry request domain now QueueState.queued ∷ [])
unfolding enqueue_block rest_of_enqueue ◌>>=◌
enqueue_block-queue request domain now policy db {u} {db'} h =
    let (_, d1, e1, r1) = >>=-eq-ok (insert_logical_request request) _ db h in
    let (_, d2, e2, r2) = >>=-eq-ok (append_queue_event _ _ _ _) _ d1 r1 in
    tested d2
      ((queue_event-queue db.queue_entries request.logical_request_id QueueEventType.requested now
          none).at
        d1 ((insert_request-queue db.queue_entries request).at db refl _ d1 e1) _ d2 e2)
      r2
  where
    tested :
        (d : Database)
        → d.queue_entries ≡ db.queue_entries
        → rest_of_enqueue request domain now
            (is_full policy domain request.task_id d.queue_entries)
            d
          ≡ ok ((false, u), db')
        → (is_full policy domain request.task_id db.queue_entries ≡ false)
          × (db'.queue_entries
              ≡ db.queue_entries ++ new_entry request domain now QueueState.queued ∷ [])
    tested d same r =
        let (room, added) = rest_of_enqueue-queue request domain now _ d r in
        (rw⁻¹ same room, rw⁻¹ same added)

-- One more waits than before, and no more than the limit allows.
abbrev pub IsOneMoreWithin : ℕ → (QueueEntry → Bool) → List QueueEntry → List QueueEntry → Type 0
IsOneMoreWithin limit test before after =
    (count_if test after ≡ count_if test before + 1) × (count_if test after ≤ limit)

one_more :
    (limit : ℕ) (test : QueueEntry → Bool) (before : List QueueEntry) (e : QueueEntry)
    → test e ≡ true
    → leb limit (count_if test before) ≡ false
    → IsOneMoreWithin limit test before (before ++ e ∷ [])
one_more limit test before e counted room =
    let more : count_if test (before ++ e ∷ []) ≡ count_if test before + 1 =
      count_if-append test before (e ∷ []) ∙ rw counted (omega arith) in
    (more, ground (arith, more))

-- An enqueue that goes through adds exactly one waiting entry to the queue, to its rate domain and to
-- its task's share of the domain, and none of the three counts exceeds its limit afterwards.
pub enqueued_request_stays_within_limits :
    (request : LogicalRequest) (domain : Identifier) (lease : RuntimeLease) (now : Instant)
    (policy : QueuePolicy) (db : Database) (u : Unit {0}) (db' : Database)
    → enqueue_logical_request request domain lease now policy db ≡ (ok u, db')
    → IsOneMoreWithin policy.global_limit waiting db.queue_entries db'.queue_entries
      × IsOneMoreWithin policy.rate_domain_limit
          (waiting_in domain)
          db.queue_entries
          db'.queue_entries
      × IsOneMoreWithin policy.task_rate_domain_limit
          (waiting_for domain request.task_id)
          db.queue_entries
          db'.queue_entries
unfolding enqueue_logical_request is_full
enqueued_request_stays_within_limits request domain lease now policy db u db' h =
    let (room, added) =
      enqueue_block-queue request domain now policy db
        (fenced-eq-ok queue_enqueue_failed lease now _ db (raise_rejected-ok _ h)) in
    rw added (
      one_more _ _ db.queue_entries _ refl (ground arith),
      one_more _ _ db.queue_entries _ (==_refl domain) (ground arith),
      one_more _ _ db.queue_entries _ (rw (==_refl domain) (==_refl request.task_id))
          (ground arith),
    )
