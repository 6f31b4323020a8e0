-- ===== src/Artifacts/Reconcile.antt =====
-- `RawArtifactPublisher.reconcile` of requests/raw_artifacts.py.
use system_trade_with_llm_or.Prelude.{
  Bool, Option, none, some, List, [], ◌∷◌, ◌++◌, not, ◌&&◌, if◌then◌else◌, String, select, order_by,
}
use system_trade_with_llm_or.Schema.{Database, Identifier, Instant, RawIntent, RawPublication}
use system_trade_with_llm_or.Schema.States.{is_committed}
use system_trade_with_llm_or.Lease.{RuntimeLease}
use system_trade_with_llm_or.Publications.{
  RawReference, by_publication, commit_raw_publication, fail_raw_publication,
  raw_publications_for_reconciliation,
}
use system_trade_with_llm_or.Artifacts.Disk.{Bytes, Node, exists, is_directory}
use system_trade_with_llm_or.Artifacts.Io.{
  read_repository, raw_committed_artifact_invalid, raw_publication_reconciliation_conflict, Io,
  pure, raise, gets, call_repository, touch, ◌>>=◌, ◌>>◌,
}
use system_trade_with_llm_or.Artifacts.Publish.{
  reference_of, staging_of, path_of, destination_of, verify_committed, remove_bundle,
}

-- `committed_raw_records`
unfoldable pub committed_raw_records : Database → List RawPublication
committed_raw_records db =
    order_by by_publication (select (λ p. is_committed p.state) db.raw_publications)

module _ (sha256 : Bytes → Identifier) (spelling : Identifier → String)
    (accepts : Bytes → Bool) where
  -- The branches of `reconcile` for one record: a bundle that was exposed is committed, one that
  -- was only staged is removed, one that never was is failed.
  unfoldable pub repair : RuntimeLease → Instant → RawIntent → Io (List RawReference)
  repair lease now i = do
    reference ← reference_of i (path_of sha256 spelling accepts i)
    verify_committed sha256 spelling accepts i reference
    call_repository (commit_raw_publication reference lease now)
    pure (reference ∷ [])

  unfoldable pub fail_record : RuntimeLease → Instant → RawIntent → Io (List RawReference)
  fail_record lease now i = do
    call_repository (fail_raw_publication i.publication_id lease now)
    pure []

  unfoldable pub discard : RuntimeLease → Instant → RawIntent → Io (List RawReference)
  discard lease now i = do remove_bundle (staging_of i); fail_record lease now i

  abbrev pub branch : RuntimeLease → Instant → RawIntent → Node → Node → Io (List RawReference)
  branch lease now i staged exposed =
      if is_directory exposed && not (exists staged)
      then repair lease now i
      else if is_directory staged && not (exists exposed)
      then discard lease now i
      else if not (exists staged) && not (exists exposed)
      then fail_record lease now i
      else raise raw_publication_reconciliation_conflict

  unfoldable pub reconcile_one : RuntimeLease → Instant → RawPublication → Io (List RawReference)
  reconcile_one lease now p = do
    staged ← gets (λ w. w.disk (staging_of p.intent))
    exposed ← gets (λ w. w.disk (destination_of sha256 spelling accepts p.intent))
    branch lease now p.intent staged exposed

  unfoldable pub reconcile_all :
      RuntimeLease → Instant → List RawPublication → Io (List RawReference)
  reconcile_all lease now [] = pure []
  reconcile_all lease now (p ∷ ps) = do
    repaired ← reconcile_one lease now p
    rest ← reconcile_all lease now ps
    pure (repaired ++ rest)

  abbrev pub verify_record : RawIntent → Option String → Io (Unit {0})
  verify_record i none = raise raw_committed_artifact_invalid
  verify_record i (some path) = do
    reference ← reference_of i path
    verify_committed sha256 spelling accepts i reference

  unfoldable pub verify_all : List RawPublication → Io (Unit {0})
  verify_all [] = pure tt
  verify_all (p ∷ ps) = do verify_record p.intent p.relative_path; verify_all ps

  unfoldable pub reconcile : RuntimeLease → Instant → Io (List RawReference)
  reconcile lease now = do
    touch
    records ← read_repository raw_publications_for_reconciliation
    repaired ← reconcile_all lease now records
    committed ← read_repository committed_raw_records
    verify_all committed
    pure repaired
