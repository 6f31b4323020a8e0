-- ===== src/Runtime/Recorded.antt =====
-- A recorded result stays recorded.
use system_trade_with_llm_or.Prelude.{
  ◌≡◌, false, some, List, [], ◌∷◌, ◌++◌, ◌==◌, arith, find, any, find-append,
}
use mathlib.Core.Path.{subst}
use system_trade_with_llm_or.Schema.{Database, Identifier, LogicalResult}
use system_trade_with_llm_or.Schema.Codes.{logical_request_not_active}
use system_trade_with_llm_or.Tables.{result_of}
use system_trade_with_llm_or.Tx.{ok}
use system_trade_with_llm_or.Tx.Keeps.{
  Keeps, Keeps-insert_if, Keeps-update_one, Keeps-modify, Keeps-bind,
}
use system_trade_with_llm_or.Requests.{
  insert_logical_request, settle_request, close_request, insert_result, result_state,
  persist_logical_result,
}
use system_trade_with_llm_or.Queue.{fail_with_result, fail_request}
use system_trade_with_llm_or.Runtime.Units.{Units}
use system_trade_with_llm_or.Runtime.Units.Frames.{
  events_frame, queue_frame, attempts_frame, gates_frame, flights_frame, publications_frame,
  lease_frame,
}
use system_trade_with_llm_or.Runtime.Agreement.{settle_request-first}

-- The request has this result.
abbrev pub HasResult : Identifier → LogicalResult → Database → Type 0
HasResult id result db = result_of db id ≡ some result

insert_result-HasResult :
    (id : Identifier) (result other : LogicalResult)
    → Keeps (HasResult id result) (insert_result other)
unfolding insert_result
insert_result-HasResult id result other = Keeps-insert_if _ _ (λ db _ h. rw find-append (rw h))

pub units-HasResult : (id : Identifier) (result : LogicalResult) → Units (HasResult id result)
unfolding insert_logical_request settle_request close_request fail_with_result fail_request
units-HasResult id result = record {
  events = events_frame (λ db _ _ _ h. h);
  requests = record {
    insert = λ r. Keeps-insert_if _ _ (λ db _ h. h);
    settle = λ other state refused _.
        Keeps-bind _ _ (Keeps-update_one _ _ refused (λ db _ h. h))
          (λ _. insert_result-HasResult id result other);
    fail = λ other _.
        Keeps-bind _ _ (Keeps-modify _ (λ db h. h)) (λ _. insert_result-HasResult id result other);
  };
  queue = queue_frame (λ db _ _ h. h);
  attempts = attempts_frame (λ db _ h. h);
  gates = gates_frame (λ db _ _ _ _ h. h);
  flights = flights_frame (λ db _ _ h. h);
  publications = publications_frame (λ db _ h. h);
  lease = lease_frame (λ db _ h. h);
}

find-new :
    (result : LogicalResult) (rows : List LogicalResult)
    → any (λ r. r.logical_request_id == result.logical_request_id) rows ≡ false
    → find (λ r. r.logical_request_id == result.logical_request_id) (rows ++ result ∷ [])
      ≡ some result
find-new result [] h = ground arith
find-new result (r ∷ rows) h = ground (arith, find-new result rows)

pub persist-HasResult :
    (result : LogicalResult) (db : Database) {u : Unit {0}} {db' : Database}
    → persist_logical_result result db ≡ ok (u, db')
    → HasResult result.logical_request_id result db'
unfolding persist_logical_result
persist-HasResult result db h =
    let (one, hasnt, left) =
      settle_request-first result (result_state result.outcome) logical_request_not_active db tt _
        h in
    subst (HasResult result.logical_request_id result) left
      (find-new result db.logical_results hasnt)

-- The result of the leader, as it is recorded for another request.
abbrev pub result_for : LogicalResult → Identifier → LogicalResult
result_for result id = record result { logical_request_id = id }
