-- ===== src/Requests.antt =====
-- Statements of requests/storage.py on logical_requests, logical_results and the event tables:
-- `_insert_logical_request`, `_append_queue_event`, `_append_admission_event`,
-- `_append_gate_event`, `_cancel_logical`, `_result_state`, `_persist_logical_result`, and
-- `add_logical_request`.
use system_trade_with_llm_or.Prelude.{
  Bool, Option, none, some, [], ◌∷◌, ◌++◌, not, ◌&&◌, ◌==◌, leb, count_if, update_where,
}
use system_trade_with_llm_or.Schema.{
  Database, Identifier, Instant, Reason, LogicalRequest, LogicalResult,
}
use system_trade_with_llm_or.Schema.States.{
  LogicalState, Outcome, GateScope, QueueEventType, GateEventType, AdmissionEventType, is_open,
}
use system_trade_with_llm_or.Schema.Codes.{
  Code, logical_request_persistence_failed, logical_request_not_cancellable,
  logical_request_not_active,
}
use system_trade_with_llm_or.Tables.{has_request, has_result}
use system_trade_with_llm_or.Tx.{insert_if, update_one, Tx, Operation, ◌>>◌, transaction}

-- The PRIMARY KEY and the CHECK constraints of logical_requests.
abbrev pub fits_requests : LogicalRequest → Database → Bool
fits_requests r db =
    not (has_request db r.logical_request_id)
    && leb 1 r.source_approval_version
    && leb 1 r.source_profile_version

-- `_insert_logical_request`
unfoldable pub insert_logical_request : LogicalRequest → Tx (Unit {0})
insert_logical_request r =
    insert_if (fits_requests r)
      (λ db. record db { logical_requests = db.logical_requests ++ r ∷ [] })

unfoldable pub add_logical_request : LogicalRequest → Operation (Unit {0})
add_logical_request r = transaction logical_request_persistence_failed (insert_logical_request r)

-- `_append_queue_event`; like the other two it refers to a logical request.
unfoldable pub append_queue_event :
    Identifier → QueueEventType → Instant → Option Reason → Tx (Unit {0})
append_queue_event id event now reason =
    insert_if (λ db. has_request db id)
      (λ db. record db {
        queue_events =
            db.queue_events
            ++ record {
              logical_request_id = id;
              event_type = event;
              occurred_at = now;
              reason = reason;
            }
              ∷ [];
      })

-- `_append_admission_event`
unfoldable pub append_admission_event :
    Identifier → AdmissionEventType → Instant → Option Reason → Tx (Unit {0})
append_admission_event id event now reason =
    insert_if (λ db. has_request db id)
      (λ db. record db {
        admission_events =
            db.admission_events
            ++ record {
              logical_request_id = id;
              event_type = event;
              occurred_at = now;
              reason = reason;
            }
              ∷ [];
      })

-- `_append_gate_event`
unfoldable pub append_gate_event :
    Identifier
    → Option Identifier
    → Option GateScope
    → Option Identifier
    → GateEventType
    → Instant
    → Option Reason
    → Tx (Unit {0})
append_gate_event id reservation scope key event now reason =
    insert_if (λ db. has_request db id)
      (λ db. record db {
        gate_events =
            db.gate_events
            ++ record {
              logical_request_id = id;
              reservation_id = reservation;
              scope = scope;
              key_alias = key;
              event_type = event;
              occurred_at = now;
              reason = reason;
            }
              ∷ [];
      })

-- WHERE logical_request_id = ? AND state = 'queued'
abbrev pub open_request : Identifier → LogicalRequest → Bool
open_request id r = (r.logical_request_id == id) && is_open r.state

abbrev pub set_state : LogicalState → LogicalRequest → LogicalRequest
set_state state r = record r { state = state }

-- UPDATE logical_requests SET state = ? WHERE … AND state = 'queued', refused unless it changed
-- one row.
unfoldable pub close_request : Identifier → LogicalState → Code → Tx (Unit {0})
close_request id state refused =
    update_one (λ db. count_if (open_request id) db.logical_requests)
      (λ db. record db {
        logical_requests = update_where (open_request id) (set_state state) db.logical_requests;
      })
      refused

-- INSERT INTO logical_results: one result for each request, and only for a known one.
unfoldable pub insert_result : LogicalResult → Tx (Unit {0})
insert_result result =
    insert_if
      (λ db.
        has_request db result.logical_request_id && not (has_result db result.logical_request_id))
      (λ db. record db { logical_results = db.logical_results ++ result ∷ [] })

-- `_result_state`
abbrev pub result_state : Outcome → LogicalState
result_state Outcome.succeeded = LogicalState.succeeded
result_state Outcome.failed = LogicalState.failed
result_state Outcome.cancelled = LogicalState.cancelled
result_state Outcome.unknown = LogicalState.failed

-- Closing a request and recording its result always go together.
unfoldable pub settle_request : LogicalResult → LogicalState → Code → Tx (Unit {0})
settle_request result state refused = do
  close_request result.logical_request_id state refused
  insert_result result

-- `_persist_logical_result`
unfoldable pub persist_logical_result : LogicalResult → Tx (Unit {0})
persist_logical_result result =
    settle_request result (result_state result.outcome) logical_request_not_active

abbrev pub cancelled_state : Outcome → LogicalState
cancelled_state Outcome.cancelled = LogicalState.cancelled
cancelled_state _ = LogicalState.failed

abbrev pub cancelled_code : Outcome → Reason → Option Reason
cancelled_code Outcome.cancelled reason = none
cancelled_code _ reason = some reason

-- `_cancel_logical`
unfoldable pub cancel_logical : Identifier → Instant → Reason → Outcome → Tx (Unit {0})
cancel_logical id now reason outcome =
    settle_request
      (record {
        logical_request_id = id;
        outcome = outcome;
        completed_at = now;
        error_code = cancelled_code outcome reason;
      })
      (cancelled_state outcome) logical_request_not_cancellable
