-- ===== src/Gates/Counts.antt =====
-- How an acquisition changes the counts of the gates.
use system_trade_with_llm_or.Prelude.{
  suc, ℕ, ◌+◌, ◌≡◌, refl, Bool, true, false, Option, none, some, List, [], ◌∷◌, ◌&&◌, ◌==◌, arith,
  find, if◌then◌else◌, Bool-cases, inl, inr, ap, sym, ◌∙◌,
}
use system_trade_with_llm_or.Schema.{
  Database, Identifier, Instant, Gate, Reservation, PhysicalAttempt,
}
use system_trade_with_llm_or.Tx.{insert_if}
use system_trade_with_llm_or.Tx.Keeps.{
  same_database, returned, Keeps, Keeps-bind, Keeps-gets, Keeps-raise_if, Keeps-insert_if,
}
use system_trade_with_llm_or.Requests.{append_gate_event}
use system_trade_with_llm_or.Schema.States.{GateScope, same_scope, scope_rank}
use system_trade_with_llm_or.Tables.{attempt_of}
use system_trade_with_llm_or.Tx.{ok, gets, ◌>>=◌, >>=-eq-ok, for_each}
use system_trade_with_llm_or.Gates.Policy.{
  GateKeys, ordered, enter, at_gate, insert_reservation, insert_scope, insert_start,
}
use system_trade_with_llm_or.Gates.Acquire.{
  ensure_attempt, enter_gate, count_in, NewAttempt, gate_count, settle_block,
}
use system_trade_with_llm_or.Attempts.{insert_attempt}

-- The keys of one gate among those entered.
abbrev pub entries_of : GateScope → Identifier → List (GateScope × Identifier) → ℕ
entries_of scope key [] = 0
entries_of scope key ((s, k) ∷ rest) =
    let more = entries_of scope key rest in
    if same_scope s scope && (k == key) then suc more else more

abbrev pub enter_all : Instant → List (GateScope × Identifier) → List Gate → List Gate
enter_all now [] rows = rows
enter_all now ((s, k) ∷ rest) rows = enter_all now rest (enter s k now rows)

module _ (r s t k l m : ℕ) where
  same-gate : (r == s) && (k == l) ≡ true → (r == t) && (k == m) ≡ ((s == t) && (l == m))
  same-gate h = ground arith

  other-gate :
      (r == s) && (k == l) ≡ false → (r == t) && (k == m) ≡ true → (s == t) && (l == m) ≡ false
  other-gate h at = ground arith

count-hit :
    (here same : Bool) (g : Gate) (now : Instant) (rest : Option Gate)
    → here ≡ same
    → gate_count (
        if here
        then some (record g { active_count = g.active_count + 1; last_started_at = some now })
        else rest)
      ≡ gate_count (if here then some g else rest) + (if same then 1 else 0)
count-hit here same g now rest e = ground arith

count-new :
    (here : Bool) (g : Gate)
    → g.active_count ≡ 1
    → gate_count (if here then some g else none) ≡ 0 + (if here then 1 else 0)
count-new true g one = one
count-new false g one = refl

count-miss :
    (here same : Bool) (g : Gate) (left entered : Option Gate)
    → (here ≡ true → same ≡ false)
    → gate_count entered ≡ gate_count left + (if same then 1 else 0)
    → gate_count (if here then some g else entered)
      ≡ gate_count (if here then some g else left) + (if same then 1 else 0)
count-miss true same g left entered apart e = rw (apart refl) (omega arith)
count-miss false same g left entered apart e = e

count-enter :
    (scope : GateScope) (key : Identifier) (at : GateScope) (alias : Identifier) (now : Instant)
    (rows : List Gate)
    → gate_count (find (at_gate scope key) (enter at alias now rows))
      ≡ gate_count (find (at_gate scope key) rows)
        + (if same_scope at scope && (alias == key) then 1 else 0)
count-enter scope key at alias now [] = count-new _ _ refl
count-enter scope key at alias now (g ∷ rows) = elim (Bool-cases (at_gate at alias g)) [
  | inl here ↦ rw here (
      count-hit (at_gate scope key g) (same_scope at scope && (alias == key)) g now
        (find (at_gate scope key) rows)
        (same-gate (scope_rank g.scope) (scope_rank at) (scope_rank scope) g.key_alias alias key
          here))
  | inr elsewhere ↦ rw elsewhere (
      count-miss (at_gate scope key g) (same_scope at scope && (alias == key)) g
        (find (at_gate scope key) rows) (find (at_gate scope key) (enter at alias now rows))
        (other-gate (scope_rank g.scope) (scope_rank at) (scope_rank scope) g.key_alias alias key
          elsewhere)
        (count-enter scope key at alias now rows))
]

pub count-enter_all :
    (scope : GateScope) (key : Identifier) (now : Instant) (keys : List (GateScope × Identifier))
    (rows : List Gate)
    → gate_count (find (at_gate scope key) (enter_all now keys rows))
      ≡ gate_count (find (at_gate scope key) rows) + entries_of scope key keys
count-enter_all scope key now [] rows = omega arith
count-enter_all scope key now ((s, k) ∷ rest) rows = ground (
  arith,
  count-enter_all scope key now rest (enter s k now rows),
  count-enter scope key s k now rows,
)

-- What the statements of an acquisition do to the gates.
ensure_attempt-gates :
    (gates : List Gate) (attempt : NewAttempt) (existing : Option PhysicalAttempt)
    → Keeps (λ db. db.gate_state ≡ gates) (ensure_attempt attempt existing)
unfolding ensure_attempt insert_attempt
ensure_attempt-gates gates attempt none =
    Keeps-bind _ _ (Keeps-gets _)
      (λ highest. Keeps-bind _ _ (Keeps-raise_if _ _) (λ _. Keeps-insert_if _ _ (λ db _ h. h)))
ensure_attempt-gates gates attempt (some a) = Keeps-raise_if _ _

enter_gate-gates :
    (reservation logical : Identifier) (now : Instant) (k : GateScope × Identifier)
    (gates : List Gate) (db : Database) {u : Unit {0}} {db' : Database}
    → enter_gate reservation logical now k db ≡ ok (u, db')
    → db'.gate_state ≡ enter k.0 k.1 now db.gate_state
unfolding enter_gate count_in insert_scope insert_start append_gate_event insert_if ◌>>=◌
enter_gate-gates reservation logical now (scope, key) gates db h = ground arith

insert_reservation-gates :
    (gates : List Gate) (r : Reservation)
    → Keeps (λ db. db.gate_state ≡ gates) (insert_reservation r)
unfolding insert_reservation
insert_reservation-gates gates r = Keeps-insert_if _ _ (λ db _ h. h)

enter_gates-gates :
    (reservation logical : Identifier) (now : Instant) (keys : List (GateScope × Identifier))
    (db : Database) {u : Unit {0}} {db' : Database}
    → for_each keys (enter_gate reservation logical now) db ≡ ok (u, db')
    → db'.gate_state ≡ enter_all now keys db.gate_state
unfolding for_each
enter_gates-gates reservation logical now [] db h =
    ap (λ d. d.gate_state) (sym (returned tt db h).1)
enter_gates-gates reservation logical now (k ∷ rest) db h =
    let (u, entered, first, later) = >>=-eq-ok (enter_gate reservation logical now k) _ db h in
    enter_gates-gates reservation logical now rest entered later
    ∙ ap (enter_all now rest) (enter_gate-gates reservation logical now k db.gate_state db first)

pub settle_block-gates :
    (reservation : Identifier) (attempt : NewAttempt) (keys : GateKeys) (generation : ℕ)
    (now : Instant) (db : Database) {u : Unit {0}} {db' : Database}
    → settle_block reservation attempt keys generation now none db ≡ ok (u, db')
    → db'.gate_state ≡ enter_all now (ordered keys) db.gate_state
unfolding settle_block gets
settle_block-gates reservation attempt keys generation now db h =
    let (existing, read, e1, r1) =
      >>=-eq-ok (gets (λ d. attempt_of d attempt.physical_attempt_id)) _ db h in
    let (u, ensured, e2, r2) = >>=-eq-ok (ensure_attempt attempt existing) _ read r1 in
    let (v, inserted, e3, r3) = >>=-eq-ok (insert_reservation _) _ ensured r2 in
    enter_gates-gates reservation attempt.logical_request_id now (ordered keys) inserted r3
    ∙ ap (enter_all now (ordered keys)) (
        let held = same_database e1 in
        (insert_reservation-gates db.gate_state _).at ensured
          ((ensure_attempt-gates db.gate_state attempt existing).at read
            (ap (λ d. d.gate_state) (sym held)) u ensured e2)
          v inserted e3)
