-- ===== src/Queue/Claims.antt =====
-- `assert_claimed_logical_request` of requests/storage.py: the lineage of a claimed request.
use system_trade_with_llm_or.Prelude.{
  ℕ, Bool, true, false, Option, none, some, not, ◌&&◌, ◌==◌, ltb, if◌then◌else◌,
}
use system_trade_with_llm_or.Schema.{
  Database, Identifier, Instant, LogicalRequest, QueueEntry, Flight, Consumer,
}
use system_trade_with_llm_or.Schema.States.{
  is_open, is_dequeued, is_flying, is_leader, is_consuming,
}
use system_trade_with_llm_or.Schema.Codes.{
  invalid_source_approval_version, invalid_source_profile_version, logical_request_lineage_mismatch,
  logical_request_consumer_mismatch, logical_request_lineage_read_failed,
}
use system_trade_with_llm_or.Tables.{request_of, entry_of, consumer_of, flight_of}
use system_trade_with_llm_or.Tx.{Tx, Operation, err, gets, raise_if, ◌>>=◌, ◌>>◌}
use system_trade_with_llm_or.Lease.{RuntimeLease, fenced}

-- What the caller expects of the persisted request.
pub record Lineage : Type 0 where
  pub logical_request_id : Identifier
  pub task_id : Identifier
  pub source_id : Identifier
  pub operation : Identifier
  pub source_approval_version : ℕ
  pub source_profile_version : ℕ
  pub credential_scope_alias : Option Identifier
  pub egress_scope : Identifier
  pub rate_domain : Identifier
  pub request_fingerprint : Option Identifier

abbrev pub same_alias : Option Identifier → Option Identifier → Bool
same_alias none none = true
same_alias (some a) (some b) = a == b
same_alias _ _ = false

-- row == expected, over the JOIN of the request and its queue entry.
abbrev pub has_lineage : Lineage → Option LogicalRequest → Option QueueEntry → Bool
has_lineage l (some r) (some q) =
    (r.task_id == l.task_id)
    && (r.source_id == l.source_id)
    && (r.operation == l.operation)
    && (r.source_approval_version == l.source_approval_version)
    && (r.source_profile_version == l.source_profile_version)
    && same_alias r.credential_scope_alias l.credential_scope_alias
    && (r.egress_scope == l.egress_scope)
    && is_open r.state
    && (q.rate_domain == l.rate_domain)
    && (q.task_id == l.task_id)
    && is_dequeued q.state
has_lineage l _ _ = false

-- The second row, over the JOIN with the consumer and its flight.
abbrev pub leads_flight :
    Lineage → Identifier → Option LogicalRequest → Option Consumer → Option Flight → Bool
leads_flight l fingerprint (some r) (some c) (some f) =
    (r.request_fingerprint == fingerprint)
    && (c.request_fingerprint == fingerprint)
    && is_leader c.role
    && is_consuming c.state
    && (c.rate_domain == l.rate_domain)
    && (f.leader_logical_request_id == l.logical_request_id)
    && is_flying f.state
leads_flight l fingerprint _ _ _ = false

abbrev pub flight_joined : Database → Option Consumer → Option Flight
flight_joined db none = none
flight_joined db (some c) = flight_of db c.request_fingerprint

unfoldable pub check_consumer : Lineage → Option Identifier → Tx (Unit {0})
check_consumer l none = gets (λ db. tt)
check_consumer l (some fingerprint) = do
  request ← gets (λ db. request_of db l.logical_request_id)
  consumer ← gets (λ db. consumer_of db l.logical_request_id)
  flight ← gets (λ db. flight_joined db consumer)
  raise_if (not (leads_flight l fingerprint request consumer flight))
      logical_request_consumer_mismatch

unfoldable pub claimed_block : Lineage → Tx (Unit {0})
claimed_block l = do
  request ← gets (λ db. request_of db l.logical_request_id)
  entry ← gets (λ db. entry_of db l.logical_request_id)
  raise_if (not (has_lineage l request entry)) logical_request_lineage_mismatch
  check_consumer l l.request_fingerprint

unfoldable pub assert_claimed_logical_request :
    Lineage → RuntimeLease → Instant → Operation (Unit {0})
assert_claimed_logical_request l lease now db =
    if ltb l.source_approval_version 1
    then (err invalid_source_approval_version, db)
    else if ltb l.source_profile_version 1
    then (err invalid_source_profile_version, db)
    else fenced logical_request_lineage_read_failed lease now (claimed_block l) db
