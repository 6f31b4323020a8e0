-- ===== src/Publications.antt =====
-- Raw publications of requests/storage.py: `begin_raw_publication`, `commit_raw_publication`,
-- `fail_raw_publication`, `mark_raw_publication_reconciliation_required`, their common
-- `_transition_raw_publication`, and the reads `raw_publications_for_reconciliation`,
-- `committed_raw_references` and `_raw_reference`.
pub mod Reference
use system_trade_with_llm_or.Prelude.{
  ℕ, Bool, true, false, Option, none, some, List, [], ◌∷◌, ◌++◌, not, ◌&&◌, ◌==◌, leb,
  if◌then◌else◌, String, count_if, update_where, find, any, select, order_by, is_some,
}
use system_trade_with_llm_or.Schema.{
  Database, Identifier, Instant, LogicalRequest, PhysicalAttempt, Consumer, RawIntent,
  RawPublication,
}
use system_trade_with_llm_or.Schema.States.{
  RawState, has_response, is_staging, is_committed, is_pending, is_completed,
}
use system_trade_with_llm_or.Schema.Codes.{
  Code, raw_publication_attempt_mismatch, raw_publication_intent_failed,
  raw_publication_transition_rejected, raw_publication_commit_failed,
  raw_publication_transition_failed, raw_publication_reference_not_committed,
}
use system_trade_with_llm_or.Tables.{request_of, has_request, has_attempt, consumer_of}
use system_trade_with_llm_or.Tx.{
  insert_if, update_one, Tx, Result, ok, err, Operation, gets, modify, raise_if, constraint, ◌>>=◌,
  ◌>>◌,
}
use system_trade_with_llm_or.Lease.{RuntimeLease, fenced}

-- `CommittedRawReference`
pub record RawReference : Type 0 where
  pub publication_id : Identifier
  pub task_id : Identifier
  pub logical_request_id : Identifier
  pub physical_attempt_id : Identifier
  pub relative_path : String
  pub content_sha256 : Identifier
  pub byte_count : ℕ
  pub raw_schema_id : Identifier
  pub raw_schema_version : ℕ
  pub publication_generation : ℕ

-- The request that the attempt is for has the task, the source and the operation of the intent.
abbrev pub intended : RawIntent → Option LogicalRequest → Bool
intended intent none = false
intended intent (some r) =
    (r.task_id == intent.task_id)
    && (r.source_id == intent.source_id)
    && (r.operation == intent.operation)

-- The SELECT before the INSERT: a finished attempt with a response that may be published.
abbrev pub is_publishable : RawIntent → Database → PhysicalAttempt → Bool
is_publishable intent db a =
    (a.physical_attempt_id == intent.physical_attempt_id)
    && (a.logical_request_id == intent.logical_request_id)
    && intended intent (request_of db a.logical_request_id)
    && has_response a.state
    && a.raw_eligible

-- The constraints of raw_publications.
abbrev pub fits_publications : RawIntent → Database → Bool
fits_publications intent db =
    not (any (λ p. p.intent.publication_id == intent.publication_id) db.raw_publications)
    && has_request db intent.logical_request_id
    && not
        (any (λ p. p.intent.physical_attempt_id == intent.physical_attempt_id) db.raw_publications)
    && has_attempt db intent.physical_attempt_id
    && leb 1 intent.raw_schema_version
    && leb 1 intent.publication_generation

unfoldable pub begin_block : RawIntent → Instant → Tx (Unit {0})
begin_block intent now = do
  found ← gets (λ db. any (is_publishable intent db) db.physical_attempts)
  raise_if (not found) raw_publication_attempt_mismatch
  insert_if (fits_publications intent) (λ db. record db {
    raw_publications =
        db.raw_publications
        ++ record {
          intent = intent;
          relative_path = none;
          state = RawState.staging;
          created_at = now;
          committed_at = none;
        }
          ∷ [];
  })

unfoldable pub begin_raw_publication : RawIntent → RuntimeLease → Instant → Operation (Unit {0})
begin_raw_publication intent lease now =
    fenced raw_publication_intent_failed lease now (begin_block intent now)

-- The WHERE clause of the commit.
abbrev pub is_committable : RawReference → RawPublication → Bool
is_committable reference p =
    (p.intent.publication_id == reference.publication_id)
    && (p.intent.task_id == reference.task_id)
    && (p.intent.logical_request_id == reference.logical_request_id)
    && (p.intent.physical_attempt_id == reference.physical_attempt_id)
    && (p.intent.content_sha256 == reference.content_sha256)
    && (p.intent.byte_count == reference.byte_count)
    && (p.intent.raw_schema_id == reference.raw_schema_id)
    && (p.intent.raw_schema_version == reference.raw_schema_version)
    && (p.intent.publication_generation == reference.publication_generation)
    && is_pending p.state

abbrev pub commit : String → Instant → RawPublication → RawPublication
commit path now p = record p {
  relative_path = some path;
  state = RawState.committed;
  committed_at = some now;
}

-- An UPDATE of raw_publications that must change exactly one row.
unfoldable pub change_publication :
    (RawPublication → Bool) → (RawPublication → RawPublication) → Tx (Unit {0})
change_publication test change =
    update_one (λ db. count_if test db.raw_publications)
      (λ db. record db { raw_publications = update_where test change db.raw_publications })
      raw_publication_transition_rejected

unfoldable pub commit_raw_publication : RawReference → RuntimeLease → Instant → Operation (Unit {0})
commit_raw_publication reference lease now =
    fenced raw_publication_commit_failed lease now
      (change_publication (is_committable reference) (commit reference.relative_path now))

-- WHERE publication_id = ? AND state IN (sources)
abbrev pub in_states : Identifier → (RawState → Bool) → RawPublication → Bool
in_states id sources p = (p.intent.publication_id == id) && sources p.state

abbrev pub set_raw : RawState → RawPublication → RawPublication
set_raw target p = record p { state = target }

-- `_transition_raw_publication`
unfoldable pub transition_raw_publication :
    Identifier → RawState → (RawState → Bool) → RuntimeLease → Instant → Operation (Unit {0})
transition_raw_publication id target sources lease now =
    fenced raw_publication_transition_failed lease now
      (change_publication (in_states id sources) (set_raw target))

unfoldable pub fail_raw_publication : Identifier → RuntimeLease → Instant → Operation (Unit {0})
fail_raw_publication id = transition_raw_publication id RawState.failed is_pending

unfoldable pub mark_raw_publication_reconciliation_required :
    Identifier → RuntimeLease → Instant → Operation (Unit {0})
mark_raw_publication_reconciliation_required id =
    transition_raw_publication id RawState.reconciliation_required is_staging

abbrev pub by_publication : RawPublication → RawPublication → Bool
by_publication a b = leb a.intent.publication_id b.intent.publication_id

unfoldable pub raw_publications_for_reconciliation : Database → List RawPublication
raw_publications_for_reconciliation db =
    order_by by_publication (select (λ p. is_pending p.state) db.raw_publications)

-- `_raw_reference`
unfoldable pub raw_reference : RawPublication → Result Code RawReference
raw_reference p = elim p.relative_path [
  | none ↦ err raw_publication_reference_not_committed
  | some path ↦
      if is_committed p.state
      then ok (record {
        publication_id = p.intent.publication_id;
        task_id = p.intent.task_id;
        logical_request_id = p.intent.logical_request_id;
        physical_attempt_id = p.intent.physical_attempt_id;
        relative_path = path;
        content_sha256 = p.intent.content_sha256;
        byte_count = p.intent.byte_count;
        raw_schema_id = p.intent.raw_schema_id;
        raw_schema_version = p.intent.raw_schema_version;
        publication_generation = p.intent.publication_generation;
      })
      else err raw_publication_reference_not_committed
]

-- COALESCE((SELECT result_owner_id … WHERE logical_request_id = ? AND state = 'completed'), ?)
abbrev pub result_owner : Identifier → Option Consumer → Identifier
result_owner id none = id
result_owner id (some c) =
    if is_completed c.state then elim c.result_owner_id [ none ↦ id | some owner ↦ owner ] else id

abbrev pub collect : List RawPublication → Result Code (List RawReference)
collect [] = ok []
collect (p ∷ ps) = elim (raw_reference p) [
  | err c ↦ err c
  | ok r ↦ elim (collect ps) [ err c ↦ err c | ok rs ↦ ok (r ∷ rs) ]
]

abbrev pub by_attempt : RawPublication → RawPublication → Bool
by_attempt a b = leb a.intent.physical_attempt_id b.intent.physical_attempt_id

unfoldable pub committed_raw_references : Identifier → Database → Result Code (List RawReference)
committed_raw_references id db = collect (
    order_by by_attempt (
      select
        (λ p.
          (p.intent.logical_request_id == result_owner id (consumer_of db id))
          && is_committed p.state)
        db.raw_publications))
