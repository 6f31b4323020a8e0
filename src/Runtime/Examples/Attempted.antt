-- ===== src/Runtime/Examples/Attempted.antt =====
-- The properties of gates, attempts, flights and publications, applied.
use system_trade_with_llm_or.Prelude.{◌⊎◌, ◌≡◌, refl, some, [], ◌∷◌, All, Memᴰ}
use system_trade_with_llm_or.Schema.{Identifier, Database, RawPublication}
use system_trade_with_llm_or.Schema.States.{GateScope, BlockReason, Role}
use system_trade_with_llm_or.Schema.Codes.{gate_blocked}
use system_trade_with_llm_or.Tables.{result_of}
use system_trade_with_llm_or.Tx.{
  ok, err, ◌>>=◌, for_each, insert_if, update_one, verify_schema, transaction,
}
use system_trade_with_llm_or.Lease.{assert_fence, fenced, validate_fence}
use system_trade_with_llm_or.Requests.{
  append_gate_event, append_admission_event, persist_logical_result, settle_request, close_request,
  insert_result,
}
use system_trade_with_llm_or.Attempts.{
  insert_attempt, reserved_attempt, reserve_block, reserve_next_physical_attempt,
}
use system_trade_with_llm_or.Attempts.Sequence.{IsNextAttempt, reserved_attempt_is_next}
use system_trade_with_llm_or.Gates.Policy.{
  GateReservation, ordered, insert_reservation, insert_scope, insert_start,
}
use system_trade_with_llm_or.Gates.Acquire.{
  Block, block_reason, first_block, ensure_attempt, count_in, enter_gate, settle_block,
  acquire_block, acquire_gates,
}
use system_trade_with_llm_or.Gates.Capacity.{HasRoom, IsBounded, acquired_gates_stay_within_limits}
use system_trade_with_llm_or.Gates.Blocked.{
  IsFirstRefusal, with_refusal, blocked_acquisition_records_refusal,
}
use system_trade_with_llm_or.Flights.Results.{
  validate_attempt_outcome, validate_finalization, active_consumers, complete_consumer, deliver,
  end_flight, withdraw_entry, finish_flight, finish_single_flight, finalize_block,
  finalize_logical_request,
}
use system_trade_with_llm_or.Runtime.Delivery.{finalization_delivers_to_all}
use system_trade_with_llm_or.Runtime.Recorded.{result_for}
use system_trade_with_llm_or.Publications.{
  change_publication, commit_raw_publication, raw_reference,
}
use system_trade_with_llm_or.Publications.Reference.{committed_reference_reads_back}
use system_trade_with_llm_or.Runtime.Examples.{
  lease, claimed_one, cooling, flying, gate_policy, keys, new_attempt, consumer, success, reference,
  staged,
}

entered : Database
entered = (acquire_gates 800 new_attempt keys gate_policy lease 50 claimed_one).1

abbrev reservation : GateReservation
reservation = record {
  reservation_id = 800;
  physical_attempt_id = 500;
  logical_request_id = 1;
  lease_generation = 2;
  acquired_at = 50;
}

acquired_gates_stay_within_limits_example :
    All (IsBounded gate_policy 50 claimed_one entered) (ordered keys)
unfolding entered acquire_gates acquire_block first_block block_reason settle_block ensure_attempt
    insert_attempt insert_reservation insert_scope insert_start count_in enter_gate
    append_gate_event fenced assert_fence transaction verify_schema insert_if for_each ◌>>=◌
acquired_gates_stay_within_limits_example =
    acquired_gates_stay_within_limits 800 new_attempt keys gate_policy lease 50 claimed_one
      reservation entered refl

blocked_acquisition_records_refusal_example :
    All
      (λ (k : GateScope × Identifier). HasRoom (gate_policy k.0) k.0 k.1 50 cooling)
      (ordered keys)
    ⊎ ((b : Block) × IsFirstRefusal gate_policy 50 cooling b (ordered keys)
        × (acquire_gates 800 new_attempt keys gate_policy lease 50 cooling
            ≡ (err (gate_blocked b.scope b.reason), with_refusal 1 b 50 cooling)))
unfolding validate_fence assert_fence transaction verify_schema ◌>>=◌
blocked_acquisition_records_refusal_example =
    blocked_acquisition_records_refusal 800 new_attempt keys gate_policy lease 50 cooling refl refl
      refl refl

-- There the acquisition is indeed refused: the provider's scope is the first one without room.
cooling_provider_refuses : acquire_gates 800 new_attempt keys gate_policy lease 50 cooling ≡ (
  err (gate_blocked GateScope.provider BlockReason.cooldown),
  with_refusal 1
      (record { scope = GateScope.provider; key_alias = 62; reason = BlockReason.cooldown })
      50
      cooling,
)
unfolding acquire_gates acquire_block first_block block_reason settle_block append_gate_event fenced
    assert_fence transaction verify_schema insert_if ◌>>=◌
cooling_provider_refuses = refl

reserved : Database
reserved = (reserve_next_physical_attempt 501 1 lease 60 claimed_one).1

reserved_attempt_is_next_example :
    IsNextAttempt (reserved_attempt 501 1 1 2 60) 501 1 2 60 claimed_one reserved
unfolding reserved reserve_next_physical_attempt reserve_block insert_attempt fenced assert_fence
    transaction verify_schema insert_if ◌>>=◌
reserved_attempt_is_next_example =
    reserved_attempt_is_next 501 1 lease 60 claimed_one (reserved_attempt 501 1 1 2 60) reserved
      refl

delivered : Database
delivered = (finalize_logical_request success lease 100 flying).1

finalization_delivers_to_all_example :
    All
      (λ c.
        result_of delivered c.logical_request_id ≡ some (result_for success c.logical_request_id))
      (active_consumers 900 flying)
unfolding delivered finalize_logical_request finalize_block validate_finalization
    validate_attempt_outcome persist_logical_result settle_request close_request insert_result
    finish_single_flight finish_flight deliver complete_consumer append_admission_event end_flight
    withdraw_entry fenced assert_fence transaction verify_schema insert_if update_one for_each ◌>>=◌
finalization_delivers_to_all_example =
    finalization_delivers_to_all success (consumer 1 Role.leader) lease 100 flying tt delivered refl
      refl

abbrev staging : Database
staging = record flying { raw_publications = staged ∷ [] }

committed : Database
committed = (commit_raw_publication reference lease 95 staging).1

committed_reference_reads_back_example :
    (p : RawPublication) × Memᴰ p committed.raw_publications × (raw_reference p ≡ ok reference)
unfolding committed commit_raw_publication change_publication fenced assert_fence transaction
    verify_schema update_one ◌>>=◌
committed_reference_reads_back_example =
    committed_reference_reads_back reference lease 95 staging tt committed refl
