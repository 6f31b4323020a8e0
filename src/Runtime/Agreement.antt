-- ===== src/Runtime/Agreement.antt =====
-- From an empty database on, every recorded result agrees with its request.
use system_trade_with_llm_or.Prelude.{
  ◌≤◌, ◌≡◌, refl, Bool, true, false, some, ◌⊎◌, sym, List, [], ◌∷◌, ◌++◌, ◌==◌, arith, find, any,
  count_if, update_where, find-append, count_if-append, Bool-cases, inl, inr, ==→eq,
}
use mathlib.Core.Path.{subst}
use system_trade_with_llm_or.Schema.{
  Database, Identifier, LogicalRequest, LogicalResult, empty_database,
}
use system_trade_with_llm_or.Schema.States.{LogicalState}
use system_trade_with_llm_or.Schema.Codes.{Code}
use system_trade_with_llm_or.Tables.{result_of, has_result}
use system_trade_with_llm_or.Tx.{ok, ◌>>=◌, insert_if, update_one}
use system_trade_with_llm_or.Tx.Keeps.{Keeps, Keeps-insert_if}
use system_trade_with_llm_or.Requests.{
  insert_logical_request, settle_request, close_request, insert_result, result_state, open_request,
  set_state,
}
use system_trade_with_llm_or.Queue.{fail_with_result}
use system_trade_with_llm_or.Runtime.{Command, run}
use system_trade_with_llm_or.Runtime.Units.{Units}
use system_trade_with_llm_or.Runtime.Units.Frames.{
  events_frame, queue_frame, attempts_frame, gates_frame, flights_frame, publications_frame,
  lease_frame,
}
use system_trade_with_llm_or.Runtime.Walk.{run_keeps}
use system_trade_with_llm_or.Runtime.Results.{
  IsSettled, find-close, find-fail, result_state-closed, fail_with_result-first, other_request,
}

-- At most one request has each identifier, and every result is the result of a request in the
-- state that it records.
pub record Agrees (db : Database) : Type 0 where
  pub unique :
      (id : Identifier) → count_if (λ r. r.logical_request_id == id) db.logical_requests ≤ 1
  pub settled :
      (id : Identifier) (result : LogicalResult)
      → result_of db id ≡ some result
      → IsSettled id result db

count-update :
    (id : Identifier) (test : LogicalRequest → Bool) (state : LogicalState)
    (rows : List LogicalRequest)
    → count_if (λ r. r.logical_request_id == id) (update_where test (set_state state) rows)
      ≡ count_if (λ r. r.logical_request_id == id) rows
count-update id test state [] = refl
count-update id test state (q ∷ rows) = ground (arith, count-update id test state rows)

count-open :
    (id : Identifier) (rows : List LogicalRequest)
    → count_if (open_request id) rows ≤ count_if (λ r. r.logical_request_id == id) rows
count-open id [] = ground arith
count-open id (q ∷ rows) = ground (arith, count-open id rows)

count-none :
    (id : Identifier) (rows : List LogicalRequest)
    → any (λ r. r.logical_request_id == id) rows ≡ false
    → count_if (λ r. r.logical_request_id == id) rows ≡ 0
count-none id [] h = refl
count-none id (q ∷ rows) h = ground (arith, count-none id rows)

-- Where the only request of an identifier is open, closing it gives it the new state.
find-closed :
    (id : Identifier) (state : LogicalState) (rows : List LogicalRequest)
    → count_if (open_request id) rows ≡ 1
    → count_if (λ r. r.logical_request_id == id) rows ≤ 1
    → (request : LogicalRequest) × (find
          (λ r. r.logical_request_id == id)
          (update_where (open_request id) (set_state state) rows)
        ≡ some request)
      × (request.state ≡ state)
find-closed id state [] one unique = absurd (ground arith)
find-closed id state (q ∷ rows) one unique = elim (Bool-cases (q.logical_request_id == id)) [
  | inl same ↦ (set_state state q, ground (arith, count-open id rows), refl)
  | inr other ↦
      let (request, found, agrees) = find-closed id state rows (ground arith) (ground arith) in
      (request, ground arith, agrees)
]

find-failed :
    (id : Identifier) (rows : List LogicalRequest)
    → any (λ r. r.logical_request_id == id) rows ≡ true
    → (request : LogicalRequest) × (find
          (λ r. r.logical_request_id == id)
          (update_where
            (λ r. r.logical_request_id == id)
            (λ r. record r { state = LogicalState.failed })
            rows)
        ≡ some request)
      × (request.state ≡ LogicalState.failed)
find-failed id [] has = absurd (cc)
find-failed id (q ∷ rows) has = elim (Bool-cases (q.logical_request_id == id)) [
  | inl same ↦ (set_state LogicalState.failed q, ground arith, refl)
  | inr other ↦
      let (request, found, agrees) = find-failed id rows (ground arith) in
      (request, ground arith, agrees)
]

-- What a settlement that goes through has tested and done.
pub settle_request-first :
    (result : LogicalResult) (state : LogicalState) (refused : Code) (db : Database) (a : Unit {0})
    (db' : Database)
    → settle_request result state refused db ≡ ok (a, db')
    → (count_if (open_request result.logical_request_id) db.logical_requests ≡ 1)
      × (has_result db result.logical_request_id ≡ false)
      × (record db {
        logical_requests =
            update_where
              (open_request result.logical_request_id)
              (set_state state)
              db.logical_requests;
        logical_results = db.logical_results ++ result ∷ [];
      }
          ≡ db')
unfolding settle_request close_request insert_result insert_if update_one ◌>>=◌
settle_request-first result state refused db a db' e =
    elim (Bool-cases (count_if (open_request result.logical_request_id) db.logical_requests == 1)) [
      | inl one ↦ elim (Bool-cases (has_result db result.logical_request_id)) [
        | inl has ↦ absurd (ground arith)
        | inr hasnt ↦ (==→eq _ _ one, hasnt, ground arith)
      ]
      | inr many ↦ absurd (ground arith)
    ]

result-cases :
    (id : Identifier) (other result : LogicalResult) (rows : List LogicalResult)
    → find (λ r. r.logical_request_id == id) (rows ++ other ∷ []) ≡ some result
    → (find (λ r. r.logical_request_id == id) rows ≡ some result)
      ⊎ ((other.logical_request_id ≡ id) × (other ≡ result))
result-cases id other result [] h = elim (Bool-cases (other.logical_request_id == id)) [
  | inl same ↦ inr (==→eq _ _ same, ground arith)
  | inr differ ↦ absurd (ground arith)
]
result-cases id other result (r ∷ rows) h = elim (Bool-cases (r.logical_request_id == id)) [
  | inl same ↦ inl (ground arith)
  | inr differ ↦ elim (result-cases id other result rows (ground arith)) [
    | inl old ↦ inl (ground arith)
    | inr new ↦ inr new
  ]
]

settle_request-Agrees :
    (other : LogicalResult) (state : LogicalState) (refused : Code)
    → state ≡ result_state other.outcome
    → Keeps Agrees (settle_request other state refused)
settle_request-Agrees other state refused same_state = record {
  at = λ db h a db' e.
      let (one, hasnt, left) = settle_request-first other state refused db a db' e in
      subst Agrees left (record {
        unique = λ id.
            rw (count-update id (open_request other.logical_request_id) state db.logical_requests)
              (h.unique id);
        settled = λ id result r. elim (result-cases id other result db.logical_results r) [
          | inl old ↦
              let (request, recorded, found, agrees) = h.settled id result old in
              (
                request,
                r,
                find-close id other.logical_request_id state request db.logical_requests
                    (rw agrees (result_state-closed result.outcome)) found,
                agrees,
              )
          | inr new ↦
              let (request, found, agrees) =
                find-closed other.logical_request_id state db.logical_requests one
                  (h.unique other.logical_request_id) in
              (request, r, rw (sym new.0) found, rw agrees (rw same_state (rw new.1 refl)))
        ];
      });
}

fail_with_result-Agrees :
    (other : LogicalResult)
    → LogicalState.failed ≡ result_state other.outcome
    → Keeps Agrees (fail_with_result other)
fail_with_result-Agrees other same_state = record {
  at = λ db h a db' e.
      let (hasnt, has, left) = fail_with_result-first other db a db' e in
      subst Agrees left (record {
        unique = λ id.
            rw
              (count-update id (λ r. r.logical_request_id == other.logical_request_id)
                LogicalState.failed db.logical_requests)
              (h.unique id);
        settled = λ id result r. elim (result-cases id other result db.logical_results r) [
          | inl old ↦
              let (request, recorded, found, agrees) = h.settled id result old in
              (
                request,
                r,
                find-fail id other.logical_request_id request db.logical_requests
                    (other_request id other.logical_request_id result db.logical_results old hasnt)
                    found,
                agrees,
              )
          | inr new ↦
              let (request, found, agrees) =
                find-failed other.logical_request_id db.logical_requests has in
              (request, r, rw (sym new.0) found, rw agrees (rw same_state (rw new.1 refl)))
        ];
      });
}

unique-insert :
    (id : Identifier) (r : LogicalRequest) (rows : List LogicalRequest)
    → any (λ q. q.logical_request_id == r.logical_request_id) rows ≡ false
    → count_if (λ q. q.logical_request_id == id) rows ≤ 1
    → count_if (λ q. q.logical_request_id == id) (rows ++ r ∷ []) ≤ 1
unique-insert id r rows fresh unique = elim (Bool-cases (r.logical_request_id == id)) [
  | inl same ↦
      let none_yet =
        subst (λ i. count_if (λ q. q.logical_request_id == i) rows ≡ 0) (==→eq _ _ same)
          (count-none r.logical_request_id rows fresh) in
      rw (count_if-append (λ q. q.logical_request_id == id) rows (r ∷ [])) (ground arith)
  | inr other ↦ rw (count_if-append (λ q. q.logical_request_id == id) rows (r ∷ [])) (ground arith)
]

units-Agrees : Units Agrees
unfolding insert_logical_request
units-Agrees = record {
  events = events_frame (λ db _ _ _ h. record { unique = h.unique; settled = h.settled });
  requests = record {
    insert = λ r. Keeps-insert_if _ _ (λ db fits h. record {
      unique = λ id. unique-insert id r db.logical_requests (ground arith) (h.unique id);
      settled = λ id result e.
          let (request, recorded, found, agrees) = h.settled id result e in
          (request, recorded, rw find-append (rw found), agrees);
    });
    settle = settle_request-Agrees;
    fail = fail_with_result-Agrees;
  };
  queue = queue_frame (λ db _ _ h. record { unique = h.unique; settled = h.settled });
  attempts = attempts_frame (λ db _ h. record { unique = h.unique; settled = h.settled });
  gates = gates_frame (λ db _ _ _ _ h. record { unique = h.unique; settled = h.settled });
  flights = flights_frame (λ db _ _ h. record { unique = h.unique; settled = h.settled });
  publications = publications_frame (λ db _ h. record { unique = h.unique; settled = h.settled });
  lease = lease_frame (λ db _ h. record { unique = h.unique; settled = h.settled });
}

-- From the empty database on, after any history of commands, no two requests share an identifier,
-- and every recorded result belongs to a request in the state that the result records.
pub results_agree_with_requests : (cs : List Command) → Agrees (run cs empty_database)
results_agree_with_requests cs =
    run_keeps units-Agrees cs empty_database
      (record { unique = λ id. ground arith; settled = λ id result e. absurd (cc) })
