-- ===== src/Artifacts/Again.antt =====
-- `publish` of requests/raw_artifacts.py, called again with an intent that it has published.
use system_trade_with_llm_or.Prelude.{
  ◌≡◌, refl, sym, ap, ◌∙◌, Bool, true, false, some, List, [], ◌∷◌, ◌==◌, ==_refl, String, Memᴰ,
  find, arith, Option-cases, inl, inr,
}
use mathlib.Core.Path.{subst}
use system_trade_with_llm_or.Schema.{Database, Identifier, Instant, RawIntent, RawPublication}
use system_trade_with_llm_or.Schema.States.{is_committed}
use system_trade_with_llm_or.Tx.{ok}
use system_trade_with_llm_or.Lease.{RuntimeLease}
use system_trade_with_llm_or.Publications.{RawReference, raw_reference}
use system_trade_with_llm_or.Artifacts.Disk.{
  Bytes, Bundle, directory, below, Disk, same_intent, verify,
}
use system_trade_with_llm_or.Artifacts.Io.{
  read_repository, World, returns, pure, gets, call_os, touch, raise_if, ◌>>=◌, catch,
}
use system_trade_with_llm_or.Artifacts.Paths.{is_reference_path}
use system_trade_with_llm_or.Artifacts.Publish.{
  reference_of, Candidate, is_of_intent, unchecked_reference, verify_committed, replay, publish,
}
use system_trade_with_llm_or.Artifacts.Exact.{IsExact, IsUnique, IsKept}
use system_trade_with_llm_or.Artifacts.Calls.{IsPublished, All-Memᴰ}
use system_trade_with_llm_or.Artifacts.Replayed.{Triple-publish}
use system_trade_with_llm_or.Artifacts.Succeeds.{calm, same_request_refl, same_response_refl}
use system_trade_with_llm_or.Artifacts.History.{returned}

-- Where identifiers are unique, a row is found by its own.
find_unique :
    (rows : List RawPublication) (p : RawPublication)
    → IsUnique rows
    → Memᴰ p rows
    → find (λ q. q.intent.publication_id == p.intent.publication_id) rows ≡ some p
find_unique [] p u m = elim m [ ]
find_unique (q ∷ rows) p u (Memᴰ.head e) =
    let same : (q.intent.publication_id == p.intent.publication_id) ≡ true =
      ground (arith, ==_refl p.intent.publication_id) in
    rw same (ap some (sym e))
find_unique (q ∷ rows) p (fresh, u) (Memᴰ.tail m) =
    let other = All-Memᴰ _ p rows m fresh in
    let differs : (q.intent.publication_id == p.intent.publication_id) ≡ false = ground arith in
    rw differs (find_unique rows p u m)

same_intent_refl : (i : RawIntent) → same_intent i i ≡ true
same_intent_refl i = rw (same_request_refl i) (rw (same_response_refl i) (==_refl i.content_sha256))

-- What `_raw_reference` has read.
read_back :
    (p : RawPublication) (reference : RawReference)
    → raw_reference p ≡ ok reference
    → (path : String) × (p.relative_path ≡ some path)
      × (is_committed p.state ≡ true)
      × (unchecked_reference p.intent path ≡ reference)
unfolding raw_reference
read_back p reference h = elim (Option-cases p.relative_path) [
  | inl missing ↦ absurd (ground arith)
  | inr (path, at) ↦ (path, at, ground arith, ground arith)
]

module _ (sha256 : Bytes → Identifier) (spelling : Identifier → String)
    (accepts : Bytes → Bool) where
  replay_returns :
      (p : RawPublication) (path : String) (b : Bundle) (disk : Disk) (db : Database)
      → p.relative_path ≡ some path
      → is_committed p.state ≡ true
      → is_reference_path path ≡ true
      → disk (below p.intent.task_id path) ≡ directory b
      → verify sha256 b p.intent ≡ true
      → replay sha256 spelling accepts p.intent p (calm disk db)
        ≡ (returns (unchecked_reference p.intent path), calm disk db)
  unfolding replay reference_of verify_committed raise_if touch call_os gets pure catch ◌>>=◌
  replay_returns p path b disk db at committed fits here exact =
      rw (same_intent_refl p.intent) (rw committed (rw at (rw fits (rw here (rw exact refl)))))

  published_returns :
      (c : Candidate) (lease : RuntimeLease) (started_at committed_at : Instant)
      (reference : RawReference) (disk : Disk) (db : Database) (p : RawPublication)
      → IsUnique db.raw_publications
      → Memᴰ p db.raw_publications
      → raw_reference p ≡ ok reference
      → is_reference_path reference.relative_path ≡ true
      → IsExact sha256 disk (below reference.task_id reference.relative_path) p.intent
      → is_of_intent c p.intent ≡ true
      → publish sha256 spelling accepts c p.intent lease started_at committed_at (calm disk db)
        ≡ (returns reference, calm disk db)
  unfolding publish raise_if touch call_os read_repository ◌>>=◌
  published_returns c lease started_at committed_at reference disk db p unique member read fit exact
        of =
      let (path, at, committed, same) = read_back p reference read in
      let (b, here, good) =
        subst (λ r. IsExact sha256 disk (below r.task_id r.relative_path) p.intent) (sym same)
          exact in
      rw of (
        rw (find_unique db.raw_publications p unique member) (
          replay_returns p path b disk db at committed
            (subst (λ r. is_reference_path r.relative_path ≡ true) (sym same) fit) here good
          ∙ ap (λ r. (returns r, calm disk db)) same))

  done_returns :
      (c : Candidate) (i : RawIntent) (lease : RuntimeLease) (started_at committed_at : Instant)
      (reference : RawReference) (disk : Disk) (db : Database)
      → IsUnique db.raw_publications
      → IsPublished sha256 i reference disk db.raw_publications
      → is_of_intent c i ≡ true
      → publish sha256 spelling accepts c i lease started_at committed_at (calm disk db)
        ≡ (returns reference, calm disk db)
  done_returns c i lease started_at committed_at reference disk db unique
        (p, member, read, same, fits, exact) of =
      subst
        (λ j.
          publish sha256 spelling accepts c j lease started_at committed_at (calm disk db)
          ≡ (returns reference, calm disk db))
        same
        (published_returns c lease started_at committed_at reference disk db p unique member read
          fits
          (subst (λ j. IsExact sha256 disk (below reference.task_id reference.relative_path) j)
            (sym same) exact)
          (subst (λ j. is_of_intent c j ≡ true) (sym same) of))

  -- Let `publish` have returned a reference, from a state in which each committed publication has an
  -- exact bundle and no two share an identifier. Then `publish` again, with any candidate of the same
  -- intent, by any lease and at any times, where no call fails and the process lives, returns the
  -- same reference and changes neither the disk nor the repository.
  pub publish_again_returns_same :
      (c c' : Candidate) (i : RawIntent) (lease lease' : RuntimeLease)
      (started_at committed_at started_at' committed_at' : Instant) (w : World)
      (reference : RawReference)
      → IsKept sha256 w.disk w.db.raw_publications
      → (publish sha256 spelling accepts c i lease started_at committed_at w).0 ≡ returns reference
      → is_of_intent c' i ≡ true
      → (let done = (publish sha256 spelling accepts c i lease started_at committed_at w).1 in
          publish sha256 spelling accepts c' i lease' started_at' committed_at'
            (record done { fates = [] })
          ≡ (returns reference, record done { fates = [] }))
  publish_again_returns_same c c' i lease lease' started_at committed_at started_at' committed_at' w
        reference k e of =
      let ((kept, _), published) = returned _ _ _ reference e (
        (Triple-publish sha256 spelling accepts c i lease started_at committed_at).from w
          (k, tt)) in
      done_returns c' i lease' started_at' committed_at' reference
        (publish sha256 spelling accepts c i lease started_at committed_at w).1.disk
        (publish sha256 spelling accepts c i lease started_at committed_at w).1.db kept.unique
        published of
