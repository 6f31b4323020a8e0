-- ===== src/Artifacts/Publish.antt =====
-- `RawArtifactPublisher.publish` of requests/raw_artifacts.py.
use text.Mathlib.Text.{◌==◌ as str_eq}
use system_trade_with_llm_or.Prelude.{
  Bool, none, some, not, ◌&&◌, ◌||◌, ◌==◌, if◌then◌else◌, String, length,
}
use system_trade_with_llm_or.Schema.{Identifier, Instant, RawIntent, RawPublication}
use system_trade_with_llm_or.Schema.States.{is_committed}
use system_trade_with_llm_or.Tables.{publication_of}
use system_trade_with_llm_or.Lease.{RuntimeLease}
use system_trade_with_llm_or.Publications.{
  RawReference, begin_raw_publication, commit_raw_publication, fail_raw_publication,
  mark_raw_publication_reconciliation_required,
}
use system_trade_with_llm_or.Artifacts.Disk.{
  Bytes, holds, missing, garbage, Bundle, empty, absent, directory, Place, staging, below, put,
  is_taken, is_directory, bundle_of, request_metadata, response_metadata, receipt_of, verify,
  same_intent, holds_that,
}
use system_trade_with_llm_or.Artifacts.Paths.{is_reference_path, acquisition_path}
use system_trade_with_llm_or.Artifacts.Io.{
  Failure, raw_candidate_intent_mismatch, raw_publication_replay_mismatch,
  raw_publication_reconciliation_required, raw_publication_path_exists,
  raw_staging_verification_failed, raw_committed_artifact_invalid, refused_by_validator,
  validation_error, is_storage, read_repository, Io, pure, raise, gets, call_repository, call_os,
  touch, raise_if, ◌>>=◌, ◌>>◌, catch,
}

-- `TemporaryRawCandidate`
pub record Candidate : Type 0 where
  pub physical_attempt_id : Identifier
  pub body : Bytes
  pub sha256 : Identifier
  pub media_type : String
  pub encoding : String

abbrev pub is_of_intent : Candidate → RawIntent → Bool
is_of_intent c i =
    (c.physical_attempt_id == i.physical_attempt_id)
    && (c.sha256 == i.content_sha256)
    && (length c.body == i.byte_count)
    && str_eq c.media_type i.media_type
    && str_eq c.encoding i.encoding

-- The fields of `_reference`, before the model validates them.
abbrev pub unchecked_reference : RawIntent → String → RawReference
unchecked_reference i path = record {
  publication_id = i.publication_id;
  task_id = i.task_id;
  logical_request_id = i.logical_request_id;
  physical_attempt_id = i.physical_attempt_id;
  relative_path = path;
  content_sha256 = i.content_sha256;
  byte_count = i.byte_count;
  raw_schema_id = i.raw_schema_id;
  raw_schema_version = i.raw_schema_version;
  publication_generation = i.publication_generation;
}

-- `_reference`: `CommittedRawReference` refuses a path that its pattern does not match.
unfoldable pub reference_of : RawIntent → String → Io RawReference
reference_of i path = do
  raise_if (not (is_reference_path path)) validation_error
  pure (unchecked_reference i path)

abbrev pub staging_of : RawIntent → Place
staging_of i = staging i.task_id i.physical_attempt_id

-- `_write_exact`: one file of the staged bundle, which is cut short where the call fails.
unfoldable pub write_exact : Place → (Bundle → Bundle) → (Bundle → Bundle) → Io (Unit {0})
unfolding call_os
write_exact place written cut =
    call_os (λ d. put place (directory (written (bundle_of (d place)))) d)
      (λ d. put place (directory (cut (bundle_of (d place)))) d)

-- `_remove_bundle`: the files, then the directory. `iterdir` leaves the order open; here they go in
-- the order in which they were written, and the removal of a file that is not there may fail too.
unfoldable pub unlink : Place → (Bundle → Bundle) → Io (Unit {0})
unfolding call_os
unlink place change = call_os (λ d. put place (directory (change (bundle_of (d place)))) d) (λ d. d)

unfoldable pub remove_bundle : Place → Io (Unit {0})
unfolding call_os
remove_bundle place = do
  unlink place (λ b. record b { body = missing })
  unlink place (λ b. record b { request = missing })
  unlink place (λ b. record b { response = missing })
  unlink place (λ b. record b { receipt = missing })
  call_os (put place absent) (λ d. d)

-- SHA-256, the text of an identifier, and the source's validator.
module _ (sha256 : Bytes → Identifier) (spelling : Identifier → String)
    (accepts : Bytes → Bool) where
  abbrev pub path_of : RawIntent → String
  path_of i = acquisition_path (spelling i.logical_request_id) (spelling i.physical_attempt_id)

  abbrev pub destination_of : RawIntent → Place
  destination_of i = below i.task_id (path_of i)

  -- `_verify_committed_reference`
  unfoldable pub verify_committed : RawIntent → RawReference → Io (Unit {0})
  verify_committed i reference = do
    node ← gets (λ w. w.disk (below reference.task_id reference.relative_path))
    raise_if (not (is_directory node)) raw_committed_artifact_invalid
    catch touch (λ _. raise raw_committed_artifact_invalid)
    raise_if (not (verify sha256 (bundle_of node) i)) raw_committed_artifact_invalid

  -- The four files.
  unfoldable pub write_bundle : Candidate → RawIntent → Io (Unit {0})
  write_bundle c i = do
    write_exact (staging_of i) (λ b. record b { body = holds c.body })
        (λ b. record b { body = garbage })
    write_exact (staging_of i) (λ b. record b { request = holds (request_metadata i) })
        (λ b. record b { request = garbage })
    write_exact (staging_of i) (λ b. record b { response = holds (response_metadata i) })
        (λ b. record b { response = garbage })
    write_exact (staging_of i) (λ b. record b { receipt = holds (receipt_of i) })
        (λ b. record b { receipt = garbage })

  -- The validator, the check of the staged files, and the rename.
  unfoldable pub expose : RawIntent → Io (Unit {0})
  expose i = do
    touch
    node ← gets (λ w. w.disk (staging_of i))
    raise_if (not (holds_that accepts (bundle_of node).body)) refused_by_validator
    touch
    raise_if (not (verify sha256 (bundle_of node) i)) raw_staging_verification_failed
    touch
    touch
    call_os (λ d. put (destination_of i) (d (staging_of i)) (put (staging_of i) absent d)) (λ d. d)

  -- The handler and the `finally` where nothing has been renamed.
  unfoldable pub clean_up : RawIntent → Io (Unit {0})
  clean_up i = do
    node ← gets (λ w. w.disk (staging_of i))
    if is_directory node then remove_bundle (staging_of i) else pure tt

  unfoldable pub abandon : RawIntent → RuntimeLease → Instant → Failure → Io (Unit {0})
  abandon i lease now e = do
    catch (call_repository (fail_raw_publication i.publication_id lease now))
        (λ other. clean_up i >> raise other)
    clean_up i
    raise e

  -- `_mark_reconciliation_required`, with suppress(RuntimeStorageError)
  unfoldable pub mark_required : RawIntent → RuntimeLease → Instant → Io (Unit {0})
  mark_required i lease now =
      catch
        (call_repository (mark_raw_publication_reconciliation_required i.publication_id lease now))
        (λ e. if is_storage e then pure tt else raise e)

  unfoldable pub give_up_exposed : RawIntent → RuntimeLease → Instant → Failure → Io (Unit {0})
  give_up_exposed i lease now e = do
    mark_required i lease now
    raise raw_publication_reconciliation_required

  -- `publish` of a new intent, from `begin_raw_publication` on.
  unfoldable pub publish_new :
      Candidate → RawIntent → RuntimeLease → Instant → Instant → Io RawReference
  publish_new c i lease started_at committed_at = do
    call_repository (begin_raw_publication i lease started_at)
    touch
    touch
    touch
    disk ← gets (λ w. w.disk)
    raise_if (is_taken (disk (staging_of i)) || is_taken (disk (destination_of i)))
        raw_publication_path_exists
    call_os (put (staging_of i) (directory empty)) (λ d. d)
    catch (write_bundle c i >> expose i) (abandon i lease committed_at)
    catch touch (give_up_exposed i lease committed_at)
    reference ← reference_of i (path_of i)
    catch (call_repository (commit_raw_publication reference lease committed_at))
        (give_up_exposed i lease committed_at)
    pure reference

  -- `publish` of an intent that the repository has.
  unfoldable pub replay : RawIntent → RawPublication → Io RawReference
  replay i p = do
    raise_if (not (same_intent p.intent i)) raw_publication_replay_mismatch
    raise_if (not (is_committed p.state)) raw_publication_reconciliation_required
    elim p.relative_path [
      | none ↦ raise raw_publication_reconciliation_required
      | some path ↦ do
        reference ← reference_of p.intent path
        verify_committed p.intent reference
        pure reference
    ]

  unfoldable pub publish :
      Candidate → RawIntent → RuntimeLease → Instant → Instant → Io RawReference
  publish c i lease started_at committed_at = do
    raise_if (not (is_of_intent c i)) raw_candidate_intent_mismatch
    touch
    existing ← read_repository (λ db. publication_of db i.publication_id)
    elim existing [ some p ↦ replay i p | none ↦ publish_new c i lease started_at committed_at ]
