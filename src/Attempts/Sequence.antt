-- ===== src/Attempts/Sequence.antt =====
-- What a reservation of the next physical attempt has tested, and the attempt that it adds.
use system_trade_with_llm_or.Prelude.{
  ℕ, ◌+◌, ◌<◌, ◌≡◌, refl, Bool, true, false, List, [], ◌∷◌, ◌++◌, not, ◌&&◌, ◌||◌, ltb, arith, any,
  count_if, count_if-append, ==_refl, All, ◌∙◌,
}
use mathlib.Core.Path.{subst}
use system_trade_with_llm_or.Schema.{Database, Identifier, Instant, PhysicalAttempt}
use system_trade_with_llm_or.Schema.States.{is_live, is_unknown}
use system_trade_with_llm_or.Schema.Codes.{physical_attempt_reservation_failed}
use system_trade_with_llm_or.Tables.{request_of}
use system_trade_with_llm_or.Tx.{ok, insert_if, ◌>>=◌}
use system_trade_with_llm_or.Lease.{RuntimeLease, fenced-eq-ok}
use system_trade_with_llm_or.Attempts.{
  insert_attempt, reserved_attempt, max_sequence, of_request, is_open_row, reserve_block,
  reserve_next_physical_attempt,
}

-- The attempt is of another request, or before `n` in its sequence.
abbrev pub IsBefore : Identifier → ℕ → PhysicalAttempt → Type 0
IsBefore logical n a = (not (of_request logical a) || ltb a.sequence_number n) ≡ true

max_sequence-bound :
    (logical : Identifier) (attempts : List PhysicalAttempt) (n : ℕ)
    → max_sequence logical attempts < n
    → All (IsBefore logical n) attempts
max_sequence-bound logical [] n h = tt
max_sequence-bound logical (a ∷ rest) n h =
    (ground arith, max_sequence-bound logical rest n (ground arith))

count-none :
    (test : PhysicalAttempt → Bool) (attempts : List PhysicalAttempt)
    → any test attempts ≡ false
    → count_if test attempts ≡ 0
count-none test [] h = refl
count-none test (a ∷ rest) h = ground (arith, count-none test rest)

-- The state of a request's attempts after a reservation.
pub record IsNextAttempt (a : PhysicalAttempt) (id logical : Identifier) (generation : ℕ)
    (now : Instant) (before after : Database) : Type 0 where
  pub active : is_open_row (request_of before logical) ≡ true
  pub settled :
      count_if (λ b. of_request logical b && is_unknown b.state) before.physical_attempts ≡ 0
  pub later : All (IsBefore logical a.sequence_number) before.physical_attempts
  pub shape : a ≡ reserved_attempt id logical a.sequence_number generation now
  pub added : after.physical_attempts ≡ before.physical_attempts ++ a ∷ []
  pub only_live :
      count_if (λ b. of_request logical b && is_live b.state) after.physical_attempts ≡ 1

-- Every test of the block has passed.
reserve_block-tested :
    (id logical : Identifier) (generation : ℕ) (now : Instant) (db : Database) {a : PhysicalAttempt}
    {db' : Database}
    → reserve_block id logical generation now db ≡ ok (a, db')
    → (is_open_row (request_of db logical) ≡ true)
      × (any (λ b. of_request logical b && is_unknown b.state) db.physical_attempts ≡ false)
      × (any (λ b. of_request logical b && is_live b.state) db.physical_attempts ≡ false)
      × (reserved_attempt id logical (max_sequence logical db.physical_attempts + 1) generation now
          ≡ a)
      × (db'.physical_attempts
          ≡ db.physical_attempts
            ++ reserved_attempt id logical
                (max_sequence logical db.physical_attempts + 1)
                generation
                now
              ∷ [])
unfolding reserve_block insert_attempt insert_if ◌>>=◌
reserve_block-tested id logical generation now db h =
    (ground arith, ground arith, ground arith, ground arith, ground arith)

only_live_after :
    (logical : Identifier) (a : PhysicalAttempt) (attempts : List PhysicalAttempt)
    → of_request logical a && is_live a.state ≡ true
    → any (λ b. of_request logical b && is_live b.state) attempts ≡ false
    → count_if (λ b. of_request logical b && is_live b.state) (attempts ++ a ∷ []) ≡ 1
only_live_after logical a attempts live idle =
    count_if-append (λ b. of_request logical b && is_live b.state) attempts (a ∷ [])
    ∙ rw (count-none (λ b. of_request logical b && is_live b.state) attempts idle) (rw live refl)

next_attempt :
    (id logical : Identifier) (generation : ℕ) (now : Instant) (db db' : Database)
    → is_open_row (request_of db logical) ≡ true
    → any (λ b. of_request logical b && is_unknown b.state) db.physical_attempts ≡ false
    → any (λ b. of_request logical b && is_live b.state) db.physical_attempts ≡ false
    → db'.physical_attempts
      ≡ db.physical_attempts
        ++ reserved_attempt id logical
            (max_sequence logical db.physical_attempts + 1)
            generation
            now
          ∷ []
    → IsNextAttempt
        (reserved_attempt id logical (max_sequence logical db.physical_attempts + 1) generation now)
        id
        logical
        generation
        now
        db
        db'
next_attempt id logical generation now db db' active settled idle added = record {
  active = active;
  settled = count-none _ db.physical_attempts settled;
  later = max_sequence-bound logical db.physical_attempts _ (omega arith);
  shape = refl;
  added = added;
  only_live =
      rw added (only_live_after logical _ db.physical_attempts (rw (==_refl logical) refl) idle);
}

-- A reservation of the next attempt that goes through: the request was open, none of its attempts had
-- an unknown outcome, and the attempt added is reserved under the lease's generation, comes after
-- all of the request's attempts, and is the only one of them that is live.
pub reserved_attempt_is_next :
    (id logical : Identifier) (lease : RuntimeLease) (now : Instant) (db : Database)
    (a : PhysicalAttempt) (db' : Database)
    → reserve_next_physical_attempt id logical lease now db ≡ (ok a, db')
    → IsNextAttempt a id logical lease.generation now db db'
unfolding reserve_next_physical_attempt
reserved_attempt_is_next id logical lease now db a db' h =
    let (active, settled, idle, same, added) =
      reserve_block-tested id logical lease.generation now db
        (fenced-eq-ok physical_attempt_reservation_failed lease now _ db h) in
    subst (λ a. IsNextAttempt a id logical lease.generation now db db') same
      (next_attempt id logical lease.generation now db db' active settled idle added)
