-- ===== src/Runtime/Examples/Histories.antt =====
-- The properties of whole histories, applied.
use system_trade_with_llm_or.Prelude.{◌≡◌, refl, some, List, [], ◌∷◌, arith}
use system_trade_with_llm_or.Schema.{Database, Reason, empty_database}
use system_trade_with_llm_or.Schema.States.{LogicalState, Outcome, GateScope}
use system_trade_with_llm_or.Schema.Codes.{logical_request_not_active}
use system_trade_with_llm_or.Tx.{ok, ◌>>=◌, insert_if, update_one, verify_schema, transaction}
use system_trade_with_llm_or.Lease.{assert_fence, fenced}
use system_trade_with_llm_or.Requests.{
  persist_logical_result, settle_request, close_request, insert_result,
}
use system_trade_with_llm_or.Flights.Results.{complete_logical_request, complete_block}
use system_trade_with_llm_or.Gates.Acquire.{acquire_gates}
use system_trade_with_llm_or.Gates.Policy.{GateReservation}
use system_trade_with_llm_or.Runtime.{Command, Fenced, execute, execute_fenced, run}
use system_trade_with_llm_or.Runtime.Agreement.{Agrees, results_agree_with_requests}
use system_trade_with_llm_or.Runtime.Results.{IsSettled, settled_request_is_final}
use system_trade_with_llm_or.Runtime.Audit.{KeepsTrail, audit_trail_only_grows}
use system_trade_with_llm_or.Runtime.Published.{IsPublishedAs, committed_publication_is_final}
use system_trade_with_llm_or.Runtime.Cooldown.{
  IsCooling, cooldown_never_shortens, cooldown_refuses_until_deadline,
}
use system_trade_with_llm_or.Runtime.Refusals.{refused_command_changes_nothing}
use system_trade_with_llm_or.Runtime.Examples.{
  lease, lease_policy, request, waiting_three, claimed_one, cooling, gate_policy, keys, new_attempt,
  queue_policy, success, published, reference, flying,
}

-- A request is enqueued and claimed, and its result is recorded.
abbrev first_to_last : List Command
first_to_last =
    Command.take 77 0 lease_policy
    ∷ Command.under (record lease { generation = 1 }) 10
        (Fenced.enqueue (request 1 7 10) 50 queue_policy)
    ∷ Command.under (record lease { generation = 1 }) 20 (Fenced.claim 50)
    ∷ Command.under (record lease { generation = 1 }) 30 (Fenced.complete success)
    ∷ []

results_agree_with_requests_example : Agrees (run first_to_last empty_database)
results_agree_with_requests_example = results_agree_with_requests first_to_last

audit_trail_only_grows_example : KeepsTrail waiting_three (run first_to_last waiting_three)
audit_trail_only_grows_example = audit_trail_only_grows first_to_last waiting_three

abbrev settled : Database
settled = record claimed_one {
  logical_requests =
      record (request 1 7 10) { state = LogicalState.succeeded }
      ∷ request 2 7 20
      ∷ request 3 8 30
      ∷ [];
  logical_results = success ∷ [];
}

-- The owner tries to complete and to cancel the settled request, and claims another.
abbrev later : List Command
later =
    Command.under lease 110 (Fenced.complete (record success { outcome = Outcome.failed }))
    ∷ Command.under lease 120 (Fenced.cancel 1 Reason.retry_after)
    ∷ Command.under lease 130 (Fenced.claim 50)
    ∷ []

settled_request_is_final_example : IsSettled 1 success (run later settled)
settled_request_is_final_example =
    settled_request_is_final 1 success later settled
      (record (request 1 7 10) { state = LogicalState.succeeded }, refl, refl, refl)

abbrev published_one : Database
published_one = record flying { raw_publications = published ∷ [] }

-- The owner tries to fail the committed publication, and to commit it elsewhere.
abbrev meddling : List Command
meddling =
    Command.under lease 110 (Fenced.fail_raw 700)
    ∷ Command.under lease 120 (Fenced.commit_raw (record reference { relative_path = "elsewhere" }))
    ∷ []

committed_publication_is_final_example : IsPublishedAs published (run meddling published_one)
committed_publication_is_final_example =
    committed_publication_is_final published refl meddling published_one refl

abbrev reservation : GateReservation
reservation = record {
  reservation_id = 800;
  physical_attempt_id = 500;
  logical_request_id = 1;
  lease_generation = 2;
  acquired_at = 50;
}

abbrev trying : List Command
trying =
    Command.under lease 60 (Fenced.acquire 800 new_attempt keys gate_policy)
    ∷ Command.under lease 70 (Fenced.retry_after reservation (some 100))
    ∷ []

cooldown_never_shortens_example : IsCooling GateScope.provider 62 4000 (run trying cooling)
cooldown_never_shortens_example =
    cooldown_never_shortens GateScope.provider 62 4000 trying cooling (omega arith)

cooldown_refuses_until_deadline_example : ¬ (
    acquire_gates 801 new_attempt keys gate_policy lease 80 (run trying cooling)
    ≡ (ok reservation, cooling))
cooldown_refuses_until_deadline_example =
    cooldown_refuses_until_deadline trying cooling 4000 801 new_attempt keys gate_policy lease 80
      reservation cooling (omega arith) (omega arith)

-- Completing the settled request again is refused by the code, after its statement has run.
abbrev again : Command
again = Command.under lease 110 (Fenced.complete (record success { outcome = Outcome.failed }))

refused_command_changes_nothing_example : (execute again settled).1 ≡ settled
unfolding execute execute_fenced complete_logical_request complete_block persist_logical_result
    settle_request close_request insert_result fenced assert_fence transaction verify_schema
    insert_if update_one ◌>>=◌
refused_command_changes_nothing_example =
    refused_command_changes_nothing again settled logical_request_not_active
      (execute again settled).1 refl refl
