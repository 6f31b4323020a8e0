-- ===== src/Runtime/Examples/Queues.antt =====
-- The queue's properties, applied.
use system_trade_with_llm_or.Prelude.{◌≢◌, ◌≡◌, refl, false, none, some, All, ◌⊎◌}
use system_trade_with_llm_or.Schema.Codes.{queue_full}
use system_trade_with_llm_or.Queue.Rejected.{with_rejection, full_queue_records_rejection}
use system_trade_with_llm_or.Queue.{QueuePolicy}
use system_trade_with_llm_or.Tx.{err}
use system_trade_with_llm_or.Lease.{validate_fence}
use system_trade_with_llm_or.Schema.{Database}
use system_trade_with_llm_or.Tx.{◌>>=◌, insert_if, update_one, verify_schema, transaction}
use system_trade_with_llm_or.Lease.{assert_fence, fenced}
use system_trade_with_llm_or.Requests.{insert_logical_request, append_queue_event}
use system_trade_with_llm_or.Queue.{
  QueueClaim, waiting, waiting_in, waiting_for, is_full, insert_entry, fail_request,
  fail_with_result, enqueue_block, enqueue_logical_request, waiting_tasks, oldest, set_cursor,
  dequeue_entry, move_cursor, claim_task, claim_from, claim_block, claim_next_queued,
}
use system_trade_with_llm_or.Queue.Bounds.{IsOneMoreWithin, enqueued_request_stays_within_limits}
use system_trade_with_llm_or.Queue.Order.{IsOldestClaimed, claim_takes_oldest}
use system_trade_with_llm_or.Queue.Fairness.{
  IsServed, claim_takes_next_task, next_claim_passes_turn,
}
use system_trade_with_llm_or.Runtime.Examples.{lease, request, waiting_three, queue_policy}

enqueued : Database
enqueued = (enqueue_logical_request (request 4 7 40) 50 lease 40 queue_policy waiting_three).1

enqueued_request_stays_within_limits_example :
    IsOneMoreWithin 4 waiting waiting_three.queue_entries enqueued.queue_entries
    × IsOneMoreWithin 4 (waiting_in 50) waiting_three.queue_entries enqueued.queue_entries
    × IsOneMoreWithin 3 (waiting_for 50 7) waiting_three.queue_entries enqueued.queue_entries
unfolding enqueued enqueue_logical_request enqueue_block is_full insert_entry fail_with_result
    fail_request insert_logical_request append_queue_event fenced assert_fence transaction
    verify_schema insert_if ◌>>=◌
enqueued_request_stays_within_limits_example =
    enqueued_request_stays_within_limits (request 4 7 40) 50 lease 40 queue_policy waiting_three tt
      enqueued refl

abbrev claim : QueueClaim
claim = record { logical_request_id = 1; task_id = 7; rate_domain = 50; enqueued_at = 10 }

after_claim : Database
after_claim = (claim_next_queued 50 lease 40 waiting_three).1

claim_takes_oldest_example : IsOldestClaimed claim 50 40 waiting_three after_claim
unfolding after_claim claim_next_queued claim_block claim_from claim_task waiting_tasks oldest
    set_cursor dequeue_entry move_cursor append_queue_event fenced assert_fence transaction
    verify_schema insert_if update_one ◌>>=◌
claim_takes_oldest_example = claim_takes_oldest 50 lease 40 waiting_three claim after_claim refl

claim_takes_next_task_example :
    ((some claim ≡ none)
      × All (λ e. waiting_in 50 e ≡ false) waiting_three.queue_entries
      × (after_claim ≡ waiting_three))
    ⊎ ((c : QueueClaim) × (some c ≡ some claim) × IsServed 50 waiting_three after_claim c.task_id)
unfolding after_claim claim_next_queued claim_block claim_from claim_task waiting_tasks oldest
    set_cursor dequeue_entry move_cursor append_queue_event fenced assert_fence transaction
    verify_schema insert_if update_one ◌>>=◌
claim_takes_next_task_example =
    claim_takes_next_task 50 lease 40 waiting_three (some claim) after_claim refl

abbrev second_claim : QueueClaim
second_claim = record { logical_request_id = 3; task_id = 8; rate_domain = 50; enqueued_at = 30 }

after_second : Database
after_second = (claim_next_queued 50 lease 45 after_claim).1

next_claim_passes_turn_example :
    (second_claim.task_id ≢ claim.task_id)
    ⊎ All (λ e. (waiting_in 50 e ≡ false) ⊎ (e.task_id ≡ claim.task_id)) after_claim.queue_entries
unfolding after_second after_claim claim_next_queued claim_block claim_from claim_task waiting_tasks
    oldest set_cursor dequeue_entry move_cursor append_queue_event fenced assert_fence transaction
    verify_schema insert_if update_one ◌>>=◌
next_claim_passes_turn_example =
    next_claim_passes_turn 50 lease lease 40 45 waiting_three after_claim after_claim after_second
      claim second_claim refl refl refl

-- Three requests fill a queue of three.
abbrev tight_policy : QueuePolicy
tight_policy = record { global_limit = 3; rate_domain_limit = 3; task_rate_domain_limit = 3 }

full_queue_records_rejection_example :
    enqueue_logical_request (request 4 7 40) 50 lease 40 tight_policy waiting_three
    ≡ (err queue_full, with_rejection (request 4 7 40) 50 40 waiting_three)
unfolding is_full validate_fence assert_fence transaction verify_schema ◌>>=◌
full_queue_records_rejection_example =
    full_queue_records_rejection (request 4 7 40) 50 lease 40 tight_policy waiting_three refl refl
      refl refl refl
