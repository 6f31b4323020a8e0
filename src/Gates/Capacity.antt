-- ===== src/Gates/Capacity.antt =====
-- What an acquisition that goes through has tested, and what it leaves in the gates.
use system_trade_with_llm_or.Prelude.{
  ℕ, ◌+◌, ◌≤◌, ◌<◌, ◌≡◌, Bool, true, false, Option, none, List, [], ◌∷◌, ◌==◌, arith, count_if,
  if◌then◌else◌, All, Option-cases, inl, inr, ap, ◌∙◌,
}
use system_trade_with_llm_or.Schema.{Database, Identifier, Instant}
use system_trade_with_llm_or.Schema.States.{GateScope}
use system_trade_with_llm_or.Schema.Codes.{
  Code, gate_acquisition_failed, gate_attempt_generation_mismatch,
}
use system_trade_with_llm_or.Tables.{gate_of, entry_of, request_of}
use system_trade_with_llm_or.Tx.{Result, ok, err, ◌>>=◌}
use system_trade_with_llm_or.Lease.{RuntimeLease, fenced-eq-ok}
use system_trade_with_llm_or.Gates.Policy.{
  GateLimit, GatePolicy, GateKeys, GateReservation, ordered,
}
use system_trade_with_llm_or.Gates.Acquire.{
  NewAttempt, Block, before, too_soon, gate_cooldown, gate_count, gate_last, started_after,
  block_reason, first_block, settle_block, acquire_block, acquire_gates, raise_blocked,
  is_dequeued_row,
}
use system_trade_with_llm_or.Attempts.{is_open_row}
use system_trade_with_llm_or.Gates.Counts.{
  entries_of, enter_all, count-enter_all, settle_block-gates,
}

-- A scope has room: no cooldown, a free place, the interval gone by, and a start left in the window.
pub record HasRoom (limit : GateLimit) (scope : GateScope) (key : Identifier) (now : Instant)
    (db : Database) : Type 0 where
  pub warm : before now (gate_cooldown (gate_of db scope key)) ≡ false
  pub free : gate_count (gate_of db scope key) < limit.max_concurrency
  pub spaced : too_soon limit.min_interval now (gate_last (gate_of db scope key)) ≡ false
  pub within :
      count_if (started_after scope key now limit.window) db.gate_starts < limit.requests_per_window

pub block_reason-none :
    (limit : GateLimit) (scope : GateScope) (key : Identifier) (now : Instant) (db : Database)
    → block_reason limit scope key now db ≡ none
    → HasRoom limit scope key now db
unfolding block_reason
block_reason-none limit scope key now db h = record {
  warm = ground arith;
  free = ground arith;
  spaced = ground arith;
  within = ground arith;
}

pub first_block-none :
    (policy : GatePolicy) (now : Instant) (db : Database) (keys : List (GateScope × Identifier))
    → first_block policy now db keys ≡ none
    → All (λ (k : GateScope × Identifier). HasRoom (policy k.0) k.0 k.1 now db) keys
unfolding first_block
first_block-none policy now db [] h = tt
first_block-none policy now db ((scope, key) ∷ rest) h =
    elim (Option-cases (block_reason (policy scope) scope key now db)) [
      | inl free ↦ (
        block_reason-none (policy scope) scope key now db free,
        first_block-none policy now db rest (ground arith),
      )
      | inr blocked ↦ absurd (ground arith)
    ]

-- The parts of a block that went through.
acquire_block-parts :
    (reservation : Identifier) (attempt : NewAttempt) (keys : GateKeys) (policy : GatePolicy)
    (generation : ℕ) (now : Instant) (db : Database) {blocked : Option Block} {db' : Database}
    → acquire_block reservation attempt keys policy generation now db ≡ ok (blocked, db')
    → (first_block policy now db (ordered keys) ≡ blocked)
      × (is_dequeued_row (entry_of db attempt.logical_request_id) ≡ true)
      × (is_open_row (request_of db attempt.logical_request_id) ≡ true)
      × (settle_block reservation attempt keys generation now blocked db ≡ ok (tt, db'))
unfolding acquire_block ◌>>=◌
acquire_block-parts reservation attempt keys policy generation now db h = ground arith

-- Every scope that an acquisition has entered had room, and what it holds now stays within the
-- limit of its scope.
pub record IsBounded (policy : GatePolicy) (now : Instant) (before after : Database)
    (k : GateScope × Identifier) : Type 0 where
  pub room : HasRoom (policy k.0) k.0 k.1 now before
  pub counted : gate_count (gate_of after k.0 k.1) ≡ gate_count (gate_of before k.0 k.1) + 1
  pub bounded : gate_count (gate_of after k.0 k.1) ≤ (policy k.0).max_concurrency

within :
    (policy : GatePolicy) (now : Instant) (db db' : Database) (keys : List (GateScope × Identifier))
    (scope : GateScope) (key : Identifier)
    → HasRoom (policy scope) scope key now db
    → entries_of scope key keys ≡ 1
    → db'.gate_state ≡ enter_all now keys db.gate_state
    → IsBounded policy now db db' (scope, key)
within policy now db db' keys scope key room once entered =
    let counted : gate_count (gate_of db' scope key) ≡ gate_count (gate_of db scope key) + 1 =
      rw entered (count-enter_all scope key now keys db.gate_state)
      ∙ ap (λ n. gate_count (gate_of db scope key) + n) once in
    record { room = room; counted = counted; bounded = omega (arith, counted, room.free) }

all_within :
    (keys : GateKeys) (policy : GatePolicy) (now : Instant) (db db' : Database)
    → All (λ (k : GateScope × Identifier). HasRoom (policy k.0) k.0 k.1 now db) (ordered keys)
    → db'.gate_state ≡ enter_all now (ordered keys) db.gate_state
    → All (IsBounded policy now db db') (ordered keys)
all_within keys policy now db db' (r0, (r1, (r2, (r3, (r4, (r5, (r6, (r7, end)))))))) entered =
    let once = within policy now db db' (ordered keys) in
    (
      once _ _ r0 (ground arith) entered,
      (
        once _ _ r1 (ground arith) entered,
        (
          once _ _ r2 (ground arith) entered,
          (
            once _ _ r3 (ground arith) entered,
            (
              once _ _ r4 (ground arith) entered,
              (
                once _ _ r5 (ground arith) entered,
                (once _ _ r6 (ground arith) entered, (once _ _ r7 (ground arith) entered, tt)),
              ),
            ),
          ),
        ),
      ),
    )

acquire_gates-inside :
    (reservation : Identifier) (attempt : NewAttempt) (keys : GateKeys) (policy : GatePolicy)
    (lease : RuntimeLease) (now : Instant) (db : Database) {r : GateReservation} {db' : Database}
    → acquire_gates reservation attempt keys policy lease now db ≡ (ok r, db')
    → acquire_block reservation attempt keys policy lease.generation now db ≡ ok (none, db')
unfolding acquire_gates
acquire_gates-inside reservation attempt keys policy lease now db {r} {db'} h =
    fenced-eq-ok gate_acquisition_failed lease now _ db
      (split (attempt.lease_generation == lease.generation) _ _ h)
  where
    split :
        (same : Bool) (inner : Result Code (Option Block) × Database) (fresh : GateReservation)
        → (if same then raise_blocked fresh inner else (err gate_attempt_generation_mismatch, db))
          ≡ (ok r, db')
        → inner ≡ (ok none, db')
    split same inner fresh e = ground arith

-- An acquisition that goes through: each of the eight scopes had room (its cooldown over, a free
-- place, the minimum interval gone by, a start left in the window), holds one more than before, and
-- holds no more than its limit.
pub acquired_gates_stay_within_limits :
    (reservation : Identifier) (attempt : NewAttempt) (keys : GateKeys) (policy : GatePolicy)
    (lease : RuntimeLease) (now : Instant) (db : Database) (r : GateReservation) (db' : Database)
    → acquire_gates reservation attempt keys policy lease now db ≡ (ok r, db')
    → All (IsBounded policy now db db') (ordered keys)
acquired_gates_stay_within_limits reservation attempt keys policy lease now db r db' h =
    let inside = acquire_gates-inside reservation attempt keys policy lease now db h in
    let (free, dequeued, active, settled) =
      acquire_block-parts reservation attempt keys policy lease.generation now db inside in
    all_within keys policy now db db' (first_block-none policy now db (ordered keys) free)
      (settle_block-gates reservation attempt keys lease.generation now db settled)
