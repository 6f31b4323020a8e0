-- ===== src/Runtime/Examples/Recoveries.antt =====
-- The properties of a granted and of a recovered lease, applied.
use system_trade_with_llm_or.Prelude.{◌≡◌, refl, arith}
use system_trade_with_llm_or.Schema.{Database, empty_database}
use system_trade_with_llm_or.Tx.{
  ok, ◌>>=◌, for_each, insert_if, update_one, verify_schema, transaction,
}
use system_trade_with_llm_or.Lease.{
  RuntimeLease, fresh_lease, assert_fence, fenced, next_generation, take_lease, validate_fence,
}
use system_trade_with_llm_or.Requests.{
  append_gate_event, append_queue_event, settle_request, close_request, insert_result,
}
use system_trade_with_llm_or.Attempts.{insert_attempt, start_block, mark_physical_attempt_started}
use system_trade_with_llm_or.Queue.{fail_with_result, fail_request}
use system_trade_with_llm_or.Gates.Policy.{
  leave_gate, close_reservation, insert_reservation, insert_scope, insert_start,
}
use system_trade_with_llm_or.Gates.Acquire.{
  block_reason, first_block, ensure_attempt, count_in, enter_gate, settle_block, acquire_block,
  acquire_gates,
}
use system_trade_with_llm_or.Gates.Finish.{give_up}
use system_trade_with_llm_or.Flights.Reconcile.{
  reconcile_terminal_flights, acquire_lease_block, acquire_lease,
}
use system_trade_with_llm_or.Recovery.{
  validate_recovery_state, recover_gate_reservations, requeue_entries, requeue_unattempted,
  requests_where, fail_sent, fail_between, take_over_attempts, take_over_lease, recover_block,
  recover_expired_lease,
}
use system_trade_with_llm_or.Runtime.Held.{
  acquired_lease_passes_fence, recovered_lease_passes_fence,
}
use system_trade_with_llm_or.Runtime.Interrupted.{IsHandedOver, recovery_leaves_none_in_flight}
use system_trade_with_llm_or.Runtime.Released.{NoneHeldBefore, recovery_returns_gates}
use system_trade_with_llm_or.Runtime.Examples.{
  lease, lease_policy, claimed_one, gate_policy, keys, new_attempt,
}

abbrev first_lease : RuntimeLease
first_lease = fresh_lease 77 1 5 lease_policy

granted : Database
granted = (acquire_lease 77 5 lease_policy empty_database).1

acquired_lease_passes_fence_example : validate_fence first_lease 29000000 granted ≡ (ok tt, granted)
unfolding granted acquire_lease acquire_lease_block take_lease next_generation
    reconcile_terminal_flights transaction verify_schema for_each ◌>>=◌
acquired_lease_passes_fence_example =
    acquired_lease_passes_fence 77 5 lease_policy empty_database first_lease granted 29000000 refl
      (omega arith) (omega arith)

-- The owner has entered the gates and sent the attempt, and is interrupted.
interrupted : Database
interrupted =
    (mark_physical_attempt_started 500 lease 55
      (acquire_gates 800 new_attempt keys gate_policy lease 50 claimed_one).1).1

recovered : Database
recovered = (recover_expired_lease 88 40000000 lease_policy interrupted).1

abbrev new_lease : RuntimeLease
new_lease = fresh_lease 88 3 40000000 lease_policy

recovery_succeeds :
    recover_expired_lease 88 40000000 lease_policy interrupted ≡ (ok new_lease, recovered)
unfolding interrupted recovered mark_physical_attempt_started start_block acquire_gates
    acquire_block first_block block_reason settle_block ensure_attempt insert_attempt
    insert_reservation insert_scope insert_start count_in enter_gate append_gate_event
    append_queue_event fenced assert_fence give_up leave_gate close_reservation fail_with_result
    fail_request settle_request close_request insert_result recover_expired_lease recover_block
    validate_recovery_state recover_gate_reservations requeue_entries requeue_unattempted
    requests_where fail_sent fail_between take_over_attempts take_over_lease
    reconcile_terminal_flights transaction verify_schema insert_if update_one for_each ◌>>=◌
recovery_succeeds = refl

recovered_lease_passes_fence_example :
    validate_fence new_lease 69000000 recovered ≡ (ok tt, recovered)
recovered_lease_passes_fence_example =
    recovered_lease_passes_fence 88 40000000 lease_policy interrupted new_lease recovered 69000000
      recovery_succeeds (omega arith) (omega arith)

recovery_leaves_none_in_flight_example : IsHandedOver 3 recovered
recovery_leaves_none_in_flight_example =
    recovery_leaves_none_in_flight 88 40000000 lease_policy interrupted new_lease recovered
      recovery_succeeds

recovery_returns_gates_example : NoneHeldBefore 3 recovered
recovery_returns_gates_example =
    recovery_returns_gates 88 40000000 lease_policy interrupted new_lease recovered
      recovery_succeeds
