-- ===== src/Artifacts/Examples.antt =====
-- The theorems on the publisher at one response of three bytes, with a crash after its exposure.
use system_trade_with_llm_or.Prelude.{
  ◌==◌, if◌then◌else◌, false, ◌≡◌, ◌+◌, refl, Bool, true, List, [], ◌∷◌, String, All,
}
use system_trade_with_llm_or.Schema.{Database, Identifier, RawIntent}
use system_trade_with_llm_or.Tx.{
  transaction, verify_schema, insert_if, update_one, ◌>>=◌ as tx_bind,
}
use system_trade_with_llm_or.Lease.{assert_fence, fenced}
use system_trade_with_llm_or.Publications.{
  RawReference, begin_block, begin_raw_publication, change_publication, commit_raw_publication,
  raw_publications_for_reconciliation,
}
use system_trade_with_llm_or.Runtime.Examples.{lease, flying, intent}
use system_trade_with_llm_or.Artifacts.Disk.{directory, Disk, Bytes, absent, verify}
use system_trade_with_llm_or.Artifacts.Io.{
  returns, raised, validation_error, read_repository, World, Fate, works, dies, pure, raise, gets,
  call_repository, call_os, touch, raise_if, ◌>>=◌, catch,
}
use system_trade_with_llm_or.Artifacts.Paths.{is_reference_path, acquisition_path}
use system_trade_with_llm_or.Artifacts.Publish.{
  reference_of, destination_of, Candidate, unchecked_reference, write_exact, verify_committed,
  write_bundle, expose, publish_new, publish,
}
use system_trade_with_llm_or.Artifacts.Reconcile.{
  committed_raw_records, repair, reconcile_one, reconcile_all, verify_all, reconcile,
}
use system_trade_with_llm_or.Artifacts.Exact.{IsKept}
use system_trade_with_llm_or.Artifacts.States.{On}
use system_trade_with_llm_or.Artifacts.Calls.{IsPublished}
use system_trade_with_llm_or.Artifacts.Succeeds.{
  full, unfit_path_leaves_publication_staged, publish_returns_reference,
}
use system_trade_with_llm_or.Artifacts.Again.{publish_again_returns_same}
use system_trade_with_llm_or.Artifacts.History.{
  Action, publishing, reconciling, perform, history, IsSettled, committed_bundles_stay_exact,
  returned_reference_is_published, reconcile_settles_all,
}

abbrev checksum : Bytes → Identifier
checksum [] = 0
checksum (b ∷ bytes) = b + checksum bytes

abbrev spelling : Identifier → String
spelling id = if id == 500 then "attempt-500" else "req_1"

abbrev dotted : Identifier → String
dotted id = "req.1"

-- The pattern of a reference's path at a path that it matches, and at one that it does not.
reference_path_matches : is_reference_path (acquisition_path "req_1" "attempt-500") ≡ true
unfolding is_reference_path
reference_path_matches = refl

dotted_path_differs : is_reference_path (acquisition_path "req.1" "attempt-500") ≡ false
unfolding is_reference_path
dotted_path_differs = refl

abbrev all : Bytes → Bool
all bytes = true

abbrev small : RawIntent
small = record intent { content_sha256 = 60; byte_count = 3 }

abbrev response : Candidate
response = record {
  physical_attempt_id = 500;
  body = 10 ∷ 20 ∷ 30 ∷ [];
  sha256 = 60;
  media_type = "text/csv";
  encoding = "utf-8";
}

abbrev world : List Fate → World
world fates = record { disk = λ _. absent; db = flying; fates = fates }

abbrev kept :
    (fates : List Fate) → IsKept checksum (world fates).disk (world fates).db.raw_publications
kept fates = record { backed = tt; unique = tt }

abbrev actions : List Action
actions =
    publishing response small lease 60 70
    ∷ reconciling lease 80
    ∷ publishing response small lease 90 95
    ∷ []

-- Sixteen calls work, the last of them the rename; in the next the process dies.
abbrev crash_after_rename : List Fate
crash_after_rename =
    works ∷ works ∷ works ∷ works ∷ works ∷ works ∷ works ∷ works ∷ works ∷ works ∷ works ∷ works
    ∷ works ∷ works ∷ works ∷ works ∷ dies ∷ []

committed_bundles_stay_exact_example :
    IsKept checksum
      (history checksum spelling all actions (world crash_after_rename)).disk
      (history checksum spelling all actions (world crash_after_rename)).db.raw_publications
committed_bundles_stay_exact_example =
    committed_bundles_stay_exact checksum spelling all actions (world crash_after_rename)
      (kept crash_after_rename)

abbrev small_reference : RawReference
small_reference = unchecked_reference small "acquisitions/req_1/attempt-500"

returned_reference_is_published_example :
    On
      (IsPublished checksum small small_reference)
      (publish checksum spelling all response small lease 60 70 (world [])).1
unfolding publish publish_new write_bundle expose write_exact begin_raw_publication begin_block
    commit_raw_publication change_publication fenced assert_fence transaction verify_schema
    insert_if update_one tx_bind ◌>>=◌ catch raise_if touch read_repository reference_of
    is_reference_path call_os call_repository gets pure raise verify
returned_reference_is_published_example =
    returned_reference_is_published checksum spelling all response small lease 60 70 (world [])
      small_reference (kept []) refl

-- What the crash has left.
crashed_world : World
crashed_world =
    perform checksum spelling all (publishing response small lease 60 70) (world crash_after_rename)

reconcile_settles_all_example :
    All
      (IsSettled checksum (reconcile checksum spelling all lease 80 crashed_world).1.disk)
      (reconcile checksum spelling all lease 80 crashed_world).1.db.raw_publications
unfolding crashed_world perform publish publish_new write_bundle expose write_exact
    begin_raw_publication begin_block commit_raw_publication change_publication fenced assert_fence
    transaction verify_schema insert_if update_one tx_bind ◌>>=◌ catch raise_if touch
    read_repository reference_of is_reference_path call_os call_repository gets pure raise verify
    reconcile reconcile_all reconcile_one repair verify_committed verify_all committed_raw_records
    raw_publications_for_reconciliation history
reconcile_settles_all_example =
    reconcile_settles_all checksum spelling all lease 80 crashed_world (small_reference ∷ [])
      (committed_bundles_stay_exact checksum spelling all
        (publishing response small lease 60 70 ∷ []) (world crash_after_rename)
        (kept crash_after_rename))
      refl

begun : Database
begun = (begin_raw_publication small lease 60 flying).1

committed : Database
committed = (commit_raw_publication small_reference lease 70 begun).1

publish_returns_reference_example :
    (disk' : Disk) × (publish checksum spelling all response small lease 60 70 (world [])
      ≡ (returns small_reference, record { disk = disk'; db = committed; fates = [] }))
    × (disk' (destination_of checksum spelling all small) ≡ directory (full response small))
unfolding begun committed begin_raw_publication begin_block commit_raw_publication
    change_publication fenced assert_fence transaction verify_schema insert_if update_one tx_bind
    is_reference_path
publish_returns_reference_example =
    publish_returns_reference checksum spelling all response small lease 60 70 (λ _. absent) flying
      begun refl refl refl refl refl refl committed refl refl

unfit_path_leaves_publication_staged_example :
    (disk' : Disk) × (publish checksum dotted all response small lease 60 70 (world [])
      ≡ (raised validation_error, record { disk = disk'; db = begun; fates = [] }))
    × (disk' (destination_of checksum dotted all small) ≡ directory (full response small))
unfolding begun begin_raw_publication begin_block fenced assert_fence transaction verify_schema
    insert_if tx_bind is_reference_path
unfit_path_leaves_publication_staged_example =
    unfit_path_leaves_publication_staged checksum dotted all response small lease 60 70
      (λ _. absent) flying begun refl refl refl refl refl refl refl

-- What a publication without failures leaves.
done : World
done = (publish checksum spelling all response small lease 60 70 (world [])).1

publish_again_returns_same_example :
    publish checksum spelling all response small lease 90 95 (record done { fates = [] })
    ≡ (returns small_reference, record done { fates = [] })
unfolding done publish publish_new write_bundle expose write_exact begin_raw_publication begin_block
    commit_raw_publication change_publication fenced assert_fence transaction verify_schema
    insert_if update_one tx_bind ◌>>=◌ catch raise_if touch read_repository reference_of
    is_reference_path call_os call_repository gets pure raise verify
publish_again_returns_same_example =
    publish_again_returns_same checksum spelling all response response small lease lease 60 70 90 95
      (world []) small_reference (kept []) refl refl
