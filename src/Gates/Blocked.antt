-- ===== src/Gates/Blocked.antt =====
-- What an acquisition that a scope refuses does: the event of the refusal, and nothing else.
use system_trade_with_llm_or.Gates.Capacity.{HasRoom, block_reason-none, first_block-none}
use system_trade_with_llm_or.Schema.States.{GateScope, BlockReason, GateEventType}
use system_trade_with_llm_or.Prelude.{
  false, ◌≤◌, ◌<◌, ◌⊎◌, inl, inr, All, Option-cases, count_if, ◌≡◌, refl, true, none, some, List,
  [], ◌∷◌, ◌++◌, ◌==◌, arith, find, any,
}
use system_trade_with_llm_or.Schema.{Database, Identifier, Instant, Reason, LogicalRequest}
use system_trade_with_llm_or.Schema.Codes.{gate_blocked, gate_acquisition_failed}
use system_trade_with_llm_or.Tables.{gate_of, entry_of, request_of}
use system_trade_with_llm_or.Tx.{ok, err, insert_if, ◌>>=◌}
use system_trade_with_llm_or.Lease.{RuntimeLease, validate_fence, fenced-ok}
use system_trade_with_llm_or.Requests.{append_gate_event}
use system_trade_with_llm_or.Attempts.{is_open_row}
use system_trade_with_llm_or.Gates.Policy.{GateLimit, GatePolicy, GateKeys, ordered}
use system_trade_with_llm_or.Gates.Acquire.{
  NewAttempt, Block, block_reason, before, too_soon, gate_cooldown, gate_count, gate_last,
  started_after, first_block, block_event, settle_block, acquire_block, acquire_gates,
  is_dequeued_row,
}

open_request-exists :
    (id : Identifier) (rows : List LogicalRequest)
    → is_open_row (find (λ r. r.logical_request_id == id) rows) ≡ true
    → any (λ r. r.logical_request_id == id) rows ≡ true
open_request-exists id [] h = absurd (cc)
open_request-exists id (r ∷ rows) h = ground (arith, open_request-exists id rows)

-- Why a scope refuses, by the order in which the code tests: it cools down; or it does not, but every
-- place is taken; or one is free, but the interval has not gone by; or all that is well, but the
-- window has its starts.
abbrev pub Refuses : BlockReason → GateLimit → GateScope → Identifier → Instant → Database → Type 0
Refuses BlockReason.cooldown limit scope key now db =
    before now (gate_cooldown (gate_of db scope key)) ≡ true
Refuses BlockReason.concurrency limit scope key now db =
    (before now (gate_cooldown (gate_of db scope key)) ≡ false)
    × (limit.max_concurrency ≤ gate_count (gate_of db scope key))
Refuses BlockReason.minimum_interval limit scope key now db =
    (before now (gate_cooldown (gate_of db scope key)) ≡ false)
    × (gate_count (gate_of db scope key) < limit.max_concurrency)
    × (too_soon limit.min_interval now (gate_last (gate_of db scope key)) ≡ true)
Refuses BlockReason.rolling_window limit scope key now db =
    (before now (gate_cooldown (gate_of db scope key)) ≡ false)
    × (gate_count (gate_of db scope key) < limit.max_concurrency)
    × (too_soon limit.min_interval now (gate_last (gate_of db scope key)) ≡ false)
    × (limit.requests_per_window
        ≤ count_if (started_after scope key now limit.window) db.gate_starts)

-- The scopes before the one of `b` have room, and that one refuses for the reason of `b`.
abbrev pub IsFirstRefusal :
    GatePolicy → Instant → Database → Block → List (GateScope × Identifier) → Type 0
IsFirstRefusal policy now db b [] = ⊥
IsFirstRefusal policy now db b ((scope, key) ∷ rest) =
    ((b.scope ≡ scope) × (b.key_alias ≡ key) × Refuses b.reason (policy scope) scope key now db)
    ⊎ (HasRoom (policy scope) scope key now db × IsFirstRefusal policy now db b rest)

block_reason-Refuses :
    (limit : GateLimit) (scope : GateScope) (key : Identifier) (now : Instant) (db : Database)
    (reason : BlockReason)
    → block_reason limit scope key now db ≡ some reason
    → Refuses reason limit scope key now db
unfolding block_reason
block_reason-Refuses limit scope key now db BlockReason.cooldown h = ground arith
block_reason-Refuses limit scope key now db BlockReason.concurrency h = (ground arith, ground arith)
block_reason-Refuses limit scope key now db BlockReason.minimum_interval h =
    (ground arith, ground arith, ground arith)
block_reason-Refuses limit scope key now db BlockReason.rolling_window h =
    (ground arith, ground arith, ground arith, ground arith)

first_block-IsFirstRefusal :
    (policy : GatePolicy) (now : Instant) (db : Database) (b : Block)
    (keys : List (GateScope × Identifier))
    → first_block policy now db keys ≡ some b
    → IsFirstRefusal policy now db b keys
unfolding first_block
first_block-IsFirstRefusal policy now db b [] h = absurd (cc)
first_block-IsFirstRefusal policy now db b ((scope, key) ∷ rest) h =
    elim (Option-cases (block_reason (policy scope) scope key now db)) [
      | inl free ↦ inr (
        block_reason-none (policy scope) scope key now db free,
        first_block-IsFirstRefusal policy now db b rest (ground arith),
      )
      | inr (reason, refuses) ↦
          let scopes : b.scope ≡ scope = ground arith in
          let keys : b.key_alias ≡ key = ground arith in
          let same : b.reason ≡ reason = ground arith in
          inl (
            scopes,
            keys,
            block_reason-Refuses (policy scope) scope key now db b.reason (rw same refuses),
          )
    ]

-- A cooldown is recorded as one, and any other refusal as a block.
abbrev pub refusal_event : BlockReason → GateEventType
refusal_event BlockReason.cooldown = GateEventType.cooldown
refusal_event BlockReason.concurrency = GateEventType.blocked
refusal_event BlockReason.minimum_interval = GateEventType.blocked
refusal_event BlockReason.rolling_window = GateEventType.blocked

-- The database with the event of a refusal.
abbrev pub with_refusal : Identifier → Block → Instant → Database → Database
with_refusal logical b now db = record db {
  gate_events =
      db.gate_events
      ++ record {
        logical_request_id = logical;
        reservation_id = none;
        scope = some b.scope;
        key_alias = some b.key_alias;
        event_type = refusal_event b.reason;
        occurred_at = now;
        reason = some (Reason.blocked b.reason);
      }
        ∷ [];
}

event_of : (reason : BlockReason) → block_event reason ≡ refusal_event reason
event_of BlockReason.cooldown = refl
event_of BlockReason.concurrency = refl
event_of BlockReason.minimum_interval = refl
event_of BlockReason.rolling_window = refl

module _ (reservation : Identifier) (attempt : NewAttempt) (keys : GateKeys) (policy : GatePolicy)
    (lease : RuntimeLease) (now : Instant) (db : Database)
    (dequeued : is_dequeued_row (entry_of db attempt.logical_request_id) ≡ true)
    (active : is_open_row (request_of db attempt.logical_request_id) ≡ true) where
  block_event-inserted :
      (b : Block)
      → settle_block reservation attempt keys lease.generation now (some b) db
        ≡ ok (tt, with_refusal attempt.logical_request_id b now db)
  unfolding settle_block append_gate_event insert_if ◌>>=◌
  block_event-inserted b =
      rw (open_request-exists attempt.logical_request_id db.logical_requests active)
        (rw (event_of b.reason) refl)

  acquire_block-blocked :
      (b : Block)
      → first_block policy now db (ordered keys) ≡ some b
      → acquire_block reservation attempt keys policy lease.generation now db
        ≡ ok (some b, with_refusal attempt.logical_request_id b now db)
  unfolding acquire_block ◌>>=◌
  acquire_block-blocked b blocked =
      rw dequeued (rw active (rw blocked (rw (block_event-inserted b) refl)))

  -- Where the request is dequeued and open, the attempt has the lease's generation and the lease
  -- passes the fence: either each of the eight scopes has room by its four limits, or
  -- `acquire_gates` raises the code of the first scope, in their order, that has none, with the first
  -- of the four reasons that holds there, and the database that it leaves differs by the one event of
  -- that refusal only, a cooldown event where the reason is a cooldown and a blocked event
  -- otherwise: no attempt, no reservation and no gate is written.
  pub blocked_acquisition_records_refusal :
      attempt.lease_generation ≡ lease.generation
      → validate_fence lease now db ≡ (ok tt, db)
      → All (λ (k : GateScope × Identifier). HasRoom (policy k.0) k.0 k.1 now db) (ordered keys)
        ⊎ ((b : Block) × IsFirstRefusal policy now db b (ordered keys)
            × (acquire_gates reservation attempt keys policy lease now db ≡ (
              err (gate_blocked b.scope b.reason),
              with_refusal attempt.logical_request_id b now db,
            )))
  unfolding acquire_gates
  blocked_acquisition_records_refusal same passed =
      elim (Option-cases (first_block policy now db (ordered keys))) [
        | inl free ↦ inl (first_block-none policy now db (ordered keys) free)
        | inr (b, blocked) ↦
            let current : (attempt.lease_generation == lease.generation) ≡ true = ground arith in
            inr (
              b,
              first_block-IsFirstRefusal policy now db b (ordered keys) blocked,
              rw current (
                  rw
                    (fenced-ok gate_acquisition_failed lease now _ db passed
                      (acquire_block-blocked b blocked))
                    refl),
            )
      ]
