-- ===== src/Queue/Rejected.antt =====
-- Backpressure: what an enqueue that finds the queue full does.
use system_trade_with_llm_or.Prelude.{
  ◌≡◌, refl, true, false, none, some, List, [], ◌∷◌, ◌++◌, ◌||◌, ◌==◌, arith, any, update_where,
  ==_refl, if◌then◌else◌, ap,
}
use system_trade_with_llm_or.Schema.{Database, Identifier, Instant, Reason, LogicalRequest}
use system_trade_with_llm_or.Schema.States.{LogicalState, Outcome, QueueState, QueueEventType}
use system_trade_with_llm_or.Schema.Codes.{queue_full, queue_enqueue_failed}
use system_trade_with_llm_or.Tables.{has_request, has_result}
use system_trade_with_llm_or.Tx.{ok, err, insert_if, ◌>>=◌}
use system_trade_with_llm_or.Lease.{RuntimeLease, validate_fence, fenced-ok}
use system_trade_with_llm_or.Requests.{
  fits_requests, insert_logical_request, insert_result, append_queue_event,
}
use system_trade_with_llm_or.Queue.{
  QueuePolicy, is_full, insert_entry, new_entry, fail_request, fail_with_result, enqueue_block,
  enqueue_logical_request,
}

known_after :
    (r : LogicalRequest) (rows : List LogicalRequest)
    → any (λ q. q.logical_request_id == r.logical_request_id) (rows ++ r ∷ []) ≡ true
known_after r [] = rw (==_refl r.logical_request_id) refl
known_after r (q ∷ rows) = ground (arith, known_after r rows)

abbrev failed : LogicalRequest → LogicalRequest
failed r = record r { state = LogicalState.failed }

fail_new :
    (r : LogicalRequest) (rows : List LogicalRequest)
    → any (λ q. q.logical_request_id == r.logical_request_id) rows ≡ false
    → update_where (λ q. q.logical_request_id == r.logical_request_id) failed (rows ++ r ∷ [])
      ≡ rows ++ failed r ∷ []
fail_new r [] fresh = rw (==_refl r.logical_request_id) refl
fail_new r (q ∷ rows) fresh =
    elim (q.logical_request_id == r.logical_request_id)
        as (λ b.
          b || any (λ p. p.logical_request_id == r.logical_request_id) rows ≡ false
          → ((if b then failed q else q)
              ∷ update_where (λ p. p.logical_request_id == r.logical_request_id) failed
                  (rows ++ r ∷ []))
            ≡ q ∷ rows ++ failed r ∷ []) [
              | true ↦ λ h. absurd (cc)
              | false ↦ λ h. ap (λ rest. q ∷ rest) (fail_new r rows h)
            ]
      fresh

-- The database with the record of a rejection.
abbrev pub with_rejection : LogicalRequest → Identifier → Instant → Database → Database
with_rejection request domain now db = record db {
  logical_requests = db.logical_requests ++ failed request ∷ [];
  queue_entries = db.queue_entries ++ new_entry request domain now QueueState.rejected ∷ [];
  logical_results =
      db.logical_results
      ++ record {
        logical_request_id = request.logical_request_id;
        outcome = Outcome.failed;
        completed_at = now;
        error_code = some Reason.queue_full;
      }
        ∷ [];
  queue_events =
      (db.queue_events
        ++ record {
          logical_request_id = request.logical_request_id;
          event_type = QueueEventType.requested;
          occurred_at = now;
          reason = none;
        }
          ∷ [])
      ++ record {
        logical_request_id = request.logical_request_id;
        event_type = QueueEventType.rejected;
        occurred_at = now;
        reason = some Reason.queue_full;
      }
        ∷ [];
}

module _ (request : LogicalRequest) (domain : Identifier) (lease : RuntimeLease) (now : Instant)
    (policy : QueuePolicy) (db : Database) (fits : fits_requests request db ≡ true)
    (not_queued : any (λ q. q.logical_request_id == request.logical_request_id) db.queue_entries
      ≡ false)
    (no_result : has_result db request.logical_request_id ≡ false)
    (full : is_full policy domain request.task_id db.queue_entries ≡ true) where
  fresh : has_request db request.logical_request_id ≡ false
  fresh = ground arith

  enqueue_block-rejected :
      enqueue_block request domain now policy db
      ≡ ok ((true, tt), with_rejection request domain now db)
  unfolding enqueue_block insert_logical_request append_queue_event insert_entry fail_with_result
      fail_request insert_result insert_if ◌>>=◌
  enqueue_block-rejected = rw fits (
      rw (known_after request db.logical_requests) (
        rw full (
          rw (known_after request db.logical_requests) (
            rw not_queued (
              rw (fail_new request db.logical_requests fresh) (
                rw (known_after (failed request) db.logical_requests)
                  (rw no_result (rw (known_after (failed request) db.logical_requests) refl))))))))

  -- Where the lease passes the fence, the request is new and fits its table, and one of the three limits
  -- is reached, `enqueue_logical_request` raises `queue_full` and commits exactly the record of
  -- that: the request as failed, its result, its entry as rejected, and two events.
  pub full_queue_records_rejection :
      validate_fence lease now db ≡ (ok tt, db)
      → enqueue_logical_request request domain lease now policy db
        ≡ (err queue_full, with_rejection request domain now db)
  unfolding enqueue_logical_request
  full_queue_records_rejection passed =
      rw (fenced-ok queue_enqueue_failed lease now _ db passed enqueue_block-rejected) refl
