-- ===== src/Artifacts/Succeeds.antt =====
-- `publish` of requests/raw_artifacts.py where nothing fails: it returns the reference.
use text.Mathlib.TextEquality.{eq_iff}
use text.Mathlib.Text.{◌==◌ as str_eq}
use system_trade_with_llm_or.Prelude.{
  ◌≡◌, refl, ◌∙◌, Bool, true, false, none, [], ◌||◌, ◌==◌, ==→eq, ==_refl, length, String, arith,
}
use system_trade_with_llm_or.Schema.{Database, Identifier, Instant, RawIntent}
use system_trade_with_llm_or.Tables.{publication_of}
use system_trade_with_llm_or.Tx.{ok}
use system_trade_with_llm_or.Lease.{RuntimeLease}
use system_trade_with_llm_or.Publications.{begin_raw_publication, commit_raw_publication}
use system_trade_with_llm_or.Artifacts.Disk.{
  Bytes, Bundle, empty, holds, absent, directory, same_place, Disk, put, is_taken, bundle_of,
  request_metadata, response_metadata, receipt_of, same_request, same_response, verify, holds_that,
}
use system_trade_with_llm_or.Artifacts.Io.{
  raised, validation_error, read_repository, World, returns, pure, gets, call_repository, call_os,
  touch, raise_if, ◌>>=◌, catch,
}
use system_trade_with_llm_or.Artifacts.Kept.{same_place_refl}
use system_trade_with_llm_or.Artifacts.Paths.{is_reference_path}
use system_trade_with_llm_or.Artifacts.Publish.{
  reference_of, Candidate, is_of_intent, unchecked_reference, staging_of, path_of, destination_of,
  write_exact, write_bundle, expose, publish_new, publish,
}

-- The four files that `publish` writes.
abbrev pub full : Candidate → RawIntent → Bundle
full c i = record {
  body = holds c.body;
  request = holds (request_metadata i);
  response = holds (response_metadata i);
  receipt = holds (receipt_of i);
}

-- No failure and no crash ahead.
abbrev pub calm : Disk → Database → World
calm disk db = record { disk = disk; db = db; fates = [] }

str_refl : (s : String) → str_eq s s ≡ true
str_refl s = ground (arith, eq_iff s s)

pub same_request_refl :
    (m : RawIntent) → same_request (request_metadata m) (request_metadata m) ≡ true
same_request_refl i = ground (
  arith,
  ==_refl i.logical_request_id,
  ==_refl i.operation,
  ==_refl i.physical_attempt_id,
  ==_refl i.publication_generation,
  ==_refl i.publication_id,
  ==_refl i.source_id,
  ==_refl i.task_id,
)

pub same_response_refl :
    (i : RawIntent) → same_response (response_metadata i) (response_metadata i) ≡ true
same_response_refl i = ground (
  arith,
  ==_refl i.byte_count,
  str_refl i.encoding,
  str_refl i.media_type,
  ==_refl i.raw_schema_id,
  ==_refl i.raw_schema_version,
)

same_staging : (i : RawIntent) → same_place (staging_of i) (staging_of i) ≡ true
same_staging i = ground (arith, ==_refl i.task_id, ==_refl i.physical_attempt_id)

module _ (sha256 : Bytes → Identifier) (spelling : Identifier → String)
    (accepts : Bytes → Bool) where
  verify-full :
      (c : Candidate) (i : RawIntent)
      → is_of_intent c i ≡ true
      → sha256 c.body ≡ i.content_sha256
      → verify sha256 (full c i) i ≡ true
  unfolding verify
  verify-full c i of hash =
      let size : (length c.body == i.byte_count) ≡ true = ground arith in
      rw hash (
        rw (==_refl i.content_sha256)
          (rw size (rw (same_request_refl i) (rw (same_response_refl i) (==_refl i.byte_count)))))

  -- Written, the staged bundle is the full one; verified, it is renamed.
  written :
      (c : Candidate) (i : RawIntent) (disk : Disk) (db : Database)
      → (disk' : Disk) × (write_bundle sha256 spelling accepts c i (calm disk db)
          ≡ (returns tt, calm disk' db))
        × (disk' (staging_of i) ≡ directory (full c i))
  unfolding write_bundle write_exact call_os ◌>>=◌
  written c i disk db = (_, refl, rw (same_staging i) refl)

  exposed :
      (c : Candidate) (i : RawIntent) (disk : Disk) (db : Database)
      → accepts c.body ≡ true
      → verify sha256 (full c i) i ≡ true
      → disk (staging_of i) ≡ directory (full c i)
      → (disk' : Disk) × (expose sha256 spelling accepts i (calm disk db)
          ≡ (returns tt, calm disk' db))
        × (disk' (destination_of sha256 spelling accepts i) ≡ directory (full c i))
  unfolding expose raise_if touch call_os gets ◌>>=◌
  exposed c i disk db valid exact there =
      let valid' : holds_that accepts (bundle_of (disk (staging_of i))).body ≡ true =
        rw there valid in
      let exact' : verify sha256 (bundle_of (disk (staging_of i))) i ≡ true = rw there exact in
      (
        put (destination_of sha256 spelling accepts i) (disk (staging_of i))
            (put (staging_of i) absent disk),
        rw valid' (rw exact' refl),
        rw (same_place_refl i.task_id (path_of sha256 spelling accepts i)) there,
      )

  module _ (c : Candidate) (i : RawIntent) (lease : RuntimeLease)
      (started_at committed_at : Instant) (disk : Disk) (db begun : Database)
      (of : is_of_intent c i ≡ true) (hash : sha256 c.body ≡ c.sha256)
      (valid : accepts c.body ≡ true) (fresh : publication_of db i.publication_id ≡ none)
      (free : (is_taken (disk (staging_of i))
          || is_taken (disk (destination_of sha256 spelling accepts i)))
        ≡ false)
      (starts : begin_raw_publication i lease started_at db ≡ (ok tt, begun)) where
    exact : verify sha256 (full c i) i ≡ true
    exact =
        let same : (c.sha256 == i.content_sha256) ≡ true = ground arith in
        verify-full c i of (hash ∙ ==→eq _ _ same)

    published :
        (committed : Database)
        → is_reference_path (path_of sha256 spelling accepts i) ≡ true
        → commit_raw_publication
            (unchecked_reference i (path_of sha256 spelling accepts i))
            lease
            committed_at
            begun
          ≡ (ok tt, committed)
        → (disk' : Disk) × (publish_new sha256 spelling accepts c i lease started_at committed_at
              (calm disk db)
            ≡ (
              returns (unchecked_reference i (path_of sha256 spelling accepts i)),
              calm disk' committed,
            ))
          × (disk' (destination_of sha256 spelling accepts i) ≡ directory (full c i))
    unfolding publish_new reference_of raise_if touch call_os call_repository gets pure ◌>>=◌ catch
    published committed fits commits =
        let (staged, writes, there) =
          written c i (put (staging_of i) (directory empty) disk) begun in
        let (renamed, exposes, whole) = exposed c i staged begun valid exact there in
        (renamed, rw starts (rw free (rw writes (rw exposes (rw fits (rw commits refl))))), whole)

    unpublished :
        is_reference_path (path_of sha256 spelling accepts i) ≡ false
        → (disk' : Disk) × (publish_new sha256 spelling accepts c i lease started_at committed_at
              (calm disk db)
            ≡ (raised validation_error, calm disk' begun))
          × (disk' (destination_of sha256 spelling accepts i) ≡ directory (full c i))
    unfolding publish_new reference_of raise_if touch call_os call_repository gets pure ◌>>=◌ catch
    unpublished unfit =
        let (staged, writes, there) =
          written c i (put (staging_of i) (directory empty) disk) begun in
        let (renamed, exposes, whole) = exposed c i staged begun valid exact there in
        (renamed, rw starts (rw free (rw writes (rw exposes (rw unfit refl)))), whole)

    -- Let the candidate be of the intent, with the hash that it says, and accepted by the source's
    -- validator; let the repository not have the intent, the two paths be free, the repository
    -- accept the intent and, after it, the commit of its reference, and the path match the pattern of
    -- a reference. Then `publish`, where no call fails and the process lives, returns that reference,
    -- leaves the repository as the commit does, and has put a directory at the path that holds
    -- the candidate's body, the intent's metadata and its receipt.
    pub publish_returns_reference :
        (committed : Database)
        → is_reference_path (path_of sha256 spelling accepts i) ≡ true
        → commit_raw_publication
            (unchecked_reference i (path_of sha256 spelling accepts i))
            lease
            committed_at
            begun
          ≡ (ok tt, committed)
        → (disk' : Disk) × (publish sha256 spelling accepts c i lease started_at committed_at
              (record { disk = disk; db = db; fates = [] })
            ≡ (
              returns (unchecked_reference i (path_of sha256 spelling accepts i)),
              record { disk = disk'; db = committed; fates = [] },
            ))
          × (disk' (destination_of sha256 spelling accepts i) ≡ directory (full c i))
    unfolding publish raise_if touch call_os read_repository ◌>>=◌
    publish_returns_reference committed fits commits =
        let (disk', returns_it, whole) = published committed fits commits in
        (disk', rw of (rw fresh returns_it), whole)

    -- Under the same conditions, but where the path does not match the pattern of a reference, as with
    -- an identifier that has a dot or a colon: `publish`, where no call fails, raises the
    -- `ValidationError` after the rename. The bundle is at its path, and the repository is
    -- as `begin_raw_publication` left it, so the publication is neither committed, nor failed, nor
    -- marked for reconciliation.
    pub unfit_path_leaves_publication_staged :
        is_reference_path (path_of sha256 spelling accepts i) ≡ false
        → (disk' : Disk) × (publish sha256 spelling accepts c i lease started_at committed_at
              (record { disk = disk; db = db; fates = [] })
            ≡ (raised validation_error, record { disk = disk'; db = begun; fates = [] }))
          × (disk' (destination_of sha256 spelling accepts i) ≡ directory (full c i))
    unfolding publish raise_if touch call_os read_repository ◌>>=◌
    unfit_path_leaves_publication_staged unfit =
        let (disk', raises, whole) = unpublished unfit in (disk', rw of (rw fresh raises), whole)
