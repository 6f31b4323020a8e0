-- ===== src/Runtime/Examples/Leases.antt =====
-- The properties of the lease, applied.
use system_trade_with_llm_or.Prelude.{◌≡◌, ◌<◌, refl, some, List, [], ◌∷◌, ◌⊎◌, inr, arith}
use system_trade_with_llm_or.Schema.{Database, Reason, empty_database}
use system_trade_with_llm_or.Tx.{◌>>=◌, for_each, insert_if, update_one, verify_schema, transaction}
use system_trade_with_llm_or.Lease.{
  RuntimeLease, fresh_lease, fresh_row, assert_fence, next_generation, take_lease, change_lease,
  heartbeat_block, heartbeat_lease, validate_fence,
}
use system_trade_with_llm_or.Flights.Reconcile.{
  reconcile_leader, reconcile_flight, reconcile_terminal_flights, acquire_lease_block,
  acquire_lease,
}
use system_trade_with_llm_or.Recovery.{
  validate_recovery_state, recover_gate_reservations, requeue_entries, requeue_unattempted,
  requests_where, fail_sent, fail_between, take_over_attempts, take_over_lease, recover_block,
  recover_expired_lease,
}
use system_trade_with_llm_or.Requests.{
  append_queue_event, append_admission_event, persist_logical_result, settle_request, close_request,
  insert_result,
}
use system_trade_with_llm_or.Flights.Results.{
  finish_single_flight, finish_flight, deliver, complete_consumer, end_flight, withdraw_entry,
}
use system_trade_with_llm_or.Runtime.{Command, Fenced, execute, execute_fenced, run}
use system_trade_with_llm_or.Runtime.Fencing.{acquired_lease_excludes, recovered_lease_excludes}
use system_trade_with_llm_or.Runtime.Stale.{IsRefused, superseded_lease_writes_nothing}
use system_trade_with_llm_or.Runtime.Examples.{lease, lease_policy, waiting_three}

granted : Database
granted = (acquire_lease 77 0 lease_policy empty_database).1

abbrev taken_over : List Command
taken_over = Command.recover 88 40000000 lease_policy ∷ []

abbrev recovered_lease : RuntimeLease
recovered_lease = fresh_lease 88 2 40000000 lease_policy

-- The other owner recovers the expired lease, and its lease is of a later generation.
acquired_lease_excludes_example :
    (1 < recovered_lease.generation)
    ⊎ ((recovered_lease.generation ≡ 1) × (recovered_lease.owner_token ≡ 77))
unfolding granted acquire_lease acquire_lease_block take_lease next_generation
    reconcile_terminal_flights run execute recover_expired_lease recover_block
    validate_recovery_state recover_gate_reservations requeue_entries requeue_unattempted
    requests_where fail_sent fail_between take_over_attempts take_over_lease validate_fence
    assert_fence transaction verify_schema insert_if update_one for_each ◌>>=◌
acquired_lease_excludes_example =
    acquired_lease_excludes 77 0 lease_policy empty_database (fresh_lease 77 1 0 lease_policy)
      granted taken_over recovered_lease 40000001 refl refl

recovered : Database
recovered = (recover_expired_lease 88 40000000 lease_policy waiting_three).1

abbrev new_lease : RuntimeLease
new_lease = fresh_lease 88 3 40000000 lease_policy

abbrev heartbeats : List Command
heartbeats = Command.heartbeat new_lease 41000000 lease_policy ∷ []

recovered_lease_excludes_example :
    (3 < new_lease.generation) ⊎ ((new_lease.generation ≡ 3) × (new_lease.owner_token ≡ 88))
unfolding recovered run execute heartbeat_lease heartbeat_block change_lease recover_expired_lease
    recover_block validate_recovery_state recover_gate_reservations requeue_entries
    requeue_unattempted requests_where fail_sent fail_between take_over_attempts take_over_lease
    reconcile_terminal_flights reconcile_flight reconcile_leader persist_logical_result
    settle_request close_request insert_result append_queue_event append_admission_event
    finish_single_flight finish_flight deliver complete_consumer end_flight withdraw_entry
    validate_fence assert_fence transaction verify_schema insert_if update_one for_each ◌>>=◌
recovered_lease_excludes_example =
    recovered_lease_excludes 88 40000000 lease_policy waiting_three new_lease recovered heartbeats
      new_lease 41000001 refl refl

-- The lease of generation 2 was superseded by one of generation 3: its enqueue is refused.
abbrev superseded : Database
superseded = record waiting_three { runtime_lease = some (fresh_row 88 3 0 lease_policy) }

abbrev moved_on : List Command
moved_on = Command.under (fresh_lease 88 3 0 lease_policy) 40 (Fenced.claim 50) ∷ []

superseded_lease_writes_nothing_example :
    IsRefused
      (run moved_on superseded)
      (execute_fenced lease 45 (Fenced.cancel 1 Reason.retry_after) (run moved_on superseded))
superseded_lease_writes_nothing_example =
    superseded_lease_writes_nothing 88 3 superseded moved_on lease 45
      (Fenced.cancel 1 Reason.retry_after) (inr (refl, refl)) (omega arith)
