-- ===== src/Runtime/Results.antt =====
-- Results are final, and a request's state is the one that its result records.
use system_trade_with_llm_or.Prelude.{
  ◌≡◌, true, false, some, List, [], ◌∷◌, ◌++◌, ◌==◌, arith, find, any, update_where, find-append,
  Bool-cases, inl, inr, ==→eq,
}
use mathlib.Core.Path.{subst}
use system_trade_with_llm_or.Schema.{Database, Identifier, LogicalRequest, LogicalResult}
use system_trade_with_llm_or.Schema.States.{LogicalState, Outcome, is_open}
use system_trade_with_llm_or.Tables.{request_of, result_of, has_request, has_result}
use system_trade_with_llm_or.Tx.{ok, ◌>>=◌, insert_if}
use system_trade_with_llm_or.Tx.Keeps.{Keeps, Keeps-insert_if, Keeps-update_one, Keeps-bind}
use system_trade_with_llm_or.Requests.{
  insert_logical_request, settle_request, close_request, insert_result, result_state, open_request,
  set_state,
}
use system_trade_with_llm_or.Queue.{fail_with_result, fail_request}
use system_trade_with_llm_or.Runtime.{Command, run}
use system_trade_with_llm_or.Runtime.Units.{Units}
use system_trade_with_llm_or.Runtime.Units.Frames.{
  events_frame, queue_frame, attempts_frame, gates_frame, flights_frame, publications_frame,
  lease_frame,
}
use system_trade_with_llm_or.Runtime.Walk.{run_keeps}

-- The request has this result and is in the state that the result records.
abbrev pub IsSettled : Identifier → LogicalResult → Database → Type 0
IsSettled id result db =
    (request : LogicalRequest) × (result_of db id ≡ some result)
    × (request_of db id ≡ some request)
    × (request.state ≡ result_state result.outcome)

pub result_state-closed : (o : Outcome) → is_open (result_state o) ≡ false
result_state-closed o = ground arith

-- Closing open requests leaves a closed one where it was found.
pub find-close :
    (id other : Identifier) (state : LogicalState) (r : LogicalRequest) (rows : List LogicalRequest)
    → is_open r.state ≡ false
    → find (λ q. q.logical_request_id == id) rows ≡ some r
    → find
        (λ q. q.logical_request_id == id)
        (update_where (open_request other) (set_state state) rows)
      ≡ some r
find-close id other state r [] closed h = h
find-close id other state r (q ∷ rows) closed h =
    ground (arith, find-close id other state r rows closed)

-- Failing another request leaves this one where it was found.
pub find-fail :
    (id other : Identifier) (r : LogicalRequest) (rows : List LogicalRequest)
    → (id == other) ≡ false
    → find (λ q. q.logical_request_id == id) rows ≡ some r
    → find
        (λ q. q.logical_request_id == id)
        (update_where
          (λ q. q.logical_request_id == other)
          (λ q. record q { state = LogicalState.failed })
          rows)
      ≡ some r
find-fail id other r [] differ h = h
find-fail id other r (q ∷ rows) differ h = ground (arith, find-fail id other r rows differ)

any-find :
    (id : Identifier) (result : LogicalResult) (rows : List LogicalResult)
    → find (λ q. q.logical_request_id == id) rows ≡ some result
    → any (λ q. q.logical_request_id == id) rows ≡ true
any-find id result [] h = absurd (cc)
any-find id result (q ∷ rows) h = ground (arith, any-find id result rows)

any-fail :
    (id : Identifier) (rows : List LogicalRequest)
    → any
        (λ q. q.logical_request_id == id)
        (update_where
          (λ q. q.logical_request_id == id)
          (λ q. record q { state = LogicalState.failed })
          rows)
      ≡ true
    → any (λ q. q.logical_request_id == id) rows ≡ true
any-fail id [] h = h
any-fail id (q ∷ rows) h = ground (arith, any-fail id rows)

-- A failure that goes through is the first result of its request.
pub fail_with_result-first :
    (other : LogicalResult) (db : Database) (a : Unit {0}) (db' : Database)
    → fail_with_result other db ≡ ok (a, db')
    → (has_result db other.logical_request_id ≡ false)
      × (has_request db other.logical_request_id ≡ true)
      × (record db {
        logical_requests =
            update_where
              (λ q. q.logical_request_id == other.logical_request_id)
              (λ q. record q { state = LogicalState.failed })
              db.logical_requests;
        logical_results = db.logical_results ++ other ∷ [];
      }
          ≡ db')
unfolding fail_with_result fail_request insert_result insert_if ◌>>=◌
fail_with_result-first other db a db' e =
    elim (Bool-cases (has_result db other.logical_request_id)) [
      | inl has ↦ absurd (ground arith)
      | inr hasnt ↦
          elim (Bool-cases (
            has_request
              (record db {
                logical_requests =
                    update_where (λ q. q.logical_request_id == other.logical_request_id)
                      (λ q. record q { state = LogicalState.failed }) db.logical_requests;
              })
              other.logical_request_id)) [
                | inl has ↦
                    (hasnt, any-fail other.logical_request_id db.logical_requests has, ground arith)
                | inr unknown ↦ absurd (ground arith)
              ]
    ]

-- A request without a result is another one.
pub other_request :
    (id other : Identifier) (result : LogicalResult) (rows : List LogicalResult)
    → find (λ q. q.logical_request_id == id) rows ≡ some result
    → any (λ q. q.logical_request_id == other) rows ≡ false
    → (id == other) ≡ false
other_request id other result rows h hasnt = elim (Bool-cases (id == other)) [
  | inl same ↦
      let has =
        subst (λ i. any (λ q. q.logical_request_id == i) rows ≡ true) (==→eq id other same)
          (any-find id result rows h) in
      absurd (cc)
  | inr differ ↦ differ
]

module _ (id : Identifier) (result : LogicalResult) where
  insert_result-IsSettled :
      (other : LogicalResult) → Keeps (IsSettled id result) (insert_result other)
  unfolding insert_result
  insert_result-IsSettled other = Keeps-insert_if _ _ (λ db _ h.
      let (request, recorded, found, agrees) = h in
      (request, rw find-append (rw recorded), found, agrees))

  fail_with_result-IsSettled :
      (other : LogicalResult) → Keeps (IsSettled id result) (fail_with_result other)
  fail_with_result-IsSettled other = record {
    at = λ db h a db' e.
        let (hasnt, has, left) = fail_with_result-first other db a db' e in
        let (request, recorded, found, agrees) = h in
        subst (IsSettled id result) left (
          request,
          rw find-append (rw recorded),
          find-fail id other.logical_request_id request db.logical_requests
              (other_request id other.logical_request_id result db.logical_results recorded hasnt)
              found,
          agrees,
        );
  }

  units-IsSettled : Units (IsSettled id result)
  unfolding insert_logical_request settle_request close_request
  units-IsSettled = record {
    events = events_frame (λ db _ _ _ h. h);
    requests = record {
      insert = λ r. Keeps-insert_if _ _ (λ db _ h.
          (let (request, recorded, found, agrees) = h in
            (request, recorded, rw find-append (rw found), agrees)));
      settle = λ other state refused _.
          Keeps-bind _ _
            (Keeps-update_one _ _ refused (λ db _ h.
              let (request, recorded, found, agrees) = h in
              (
                request,
                recorded,
                find-close id other.logical_request_id state request db.logical_requests
                    (rw agrees (result_state-closed result.outcome)) found,
                agrees,
              )))
            (λ _. insert_result-IsSettled other);
      fail = λ other _. fail_with_result-IsSettled other;
    };
    queue = queue_frame (λ db _ _ h. h);
    attempts = attempts_frame (λ db _ h. h);
    gates = gates_frame (λ db _ _ _ _ h. h);
    flights = flights_frame (λ db _ _ h. h);
    publications = publications_frame (λ db _ h. h);
    lease = lease_frame (λ db _ h. h);
  }

  -- A settled request keeps its result, and the state that the result records, through any history
  -- of commands.
  pub settled_request_is_final :
      (cs : List Command) (db : Database) → IsSettled id result db → IsSettled id result (run cs db)
  settled_request_is_final = run_keeps units-IsSettled
