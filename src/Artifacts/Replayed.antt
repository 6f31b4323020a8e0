-- ===== src/Artifacts/Replayed.antt =====
-- `publish` of an intent that the repository has, and `publish` of any: what it returns is published.
use text.Mathlib.TextEquality.{eq_iff}
use system_trade_with_llm_or.Prelude.{
  ◌≡◌, refl, Bool, true, Option, none, some, List, [], ◌∷◌, String, Bool-cases, inl, inr, arith,
  Memᴰ, find,
}
use mathlib.Core.Path.{subst}
use system_trade_with_llm_or.Schema.{Identifier, Instant, RawIntent, RawPublication}
use system_trade_with_llm_or.Schema.States.{is_committed}
use system_trade_with_llm_or.Tables.{publication_of}
use system_trade_with_llm_or.Tx.{ok}
use system_trade_with_llm_or.Lease.{RuntimeLease}
use system_trade_with_llm_or.Publications.{raw_reference}
use system_trade_with_llm_or.Artifacts.Disk.{Bytes, below, same_intent}
use system_trade_with_llm_or.Artifacts.Io.{
  ◌>>=◌, raw_publication_reconciliation_required, pure, raise, ◌>>◌,
}
use system_trade_with_llm_or.Artifacts.Publish.{
  reference_of, Candidate, verify_committed, unchecked_reference, publish_new, replay, publish,
}
use system_trade_with_llm_or.Artifacts.Rules.{
  Triple, Triple-pure, Triple-raise, Triple-bind, Triple-weaken,
}
use system_trade_with_llm_or.Artifacts.Exact.{IsExact}
use system_trade_with_llm_or.Artifacts.Kept.{Kept, Done, Triple-publish_new}
use system_trade_with_llm_or.Artifacts.States.{
  not-false, Triple-reference, Triple-read, State, On, Implies, Triple-touch, Triple-guard,
}
use system_trade_with_llm_or.Artifacts.Calls.{Triple-verify_committed}

-- A row that `publication_of` finds is one of the table.
found_Memᴰ :
    (test : RawPublication → Bool) (rows : List RawPublication) (p : RawPublication)
    → some p ≡ find test rows
    → Memᴰ p rows
found_Memᴰ test [] p h = absurd (cc)
found_Memᴰ test (q ∷ rows) p h = elim (Bool-cases (test q)) [
  | inl passes ↦ Memᴰ.head (ground arith)
  | inr fails ↦ Memᴰ.tail (found_Memᴰ test rows p (ground arith))
]

same_intent-eq : (a b : RawIntent) → same_intent a b ≡ true → a ≡ b
same_intent-eq a b h =
    let media : a.media_type ≡ b.media_type = ground (arith, eq_iff a.media_type b.media_type) in
    let encoding : a.encoding ≡ b.encoding = ground (arith, eq_iff a.encoding b.encoding) in
    ground arith

replayed :
    (p : RawPublication) (path : String)
    → p.relative_path ≡ some path
    → is_committed p.state ≡ true
    → raw_reference p ≡ ok (unchecked_reference p.intent path)
unfolding raw_reference
replayed p path at committed = ground arith

module _ (sha256 : Bytes → Identifier) (spelling : Identifier → String)
    (accepts : Bytes → Bool) where
  abbrev Stored : RawPublication → State
  Stored p disk rows = Kept sha256 spelling accepts disk rows × Memᴰ p rows

  -- The last branch of `replay`, by the path that the row has.
  Triple-reread :
      (i : RawIntent) (p : RawPublication) (o : Option String)
      → p.relative_path ≡ o
      → p.intent ≡ i
      → is_committed p.state ≡ true
      → Triple
          (On (Stored p))
          (elim o [
            | none ↦ raise raw_publication_reconciliation_required
            | some path ↦ do
              reference ← reference_of p.intent path
              verify_committed sha256 spelling accepts p.intent reference
              pure reference
          ])
          (λ reference. On (Done sha256 spelling accepts i reference))
          (On (Kept sha256 spelling accepts))
  Triple-reread i p none at same committed = Triple-raise _ (λ w (k, _). k)
  Triple-reread i p (some path) at same committed =
      Triple-reference (Stored p) (Kept sha256 spelling accepts) (λ _ _ (k, _). k) p.intent path _
        (λ fits.
          Triple-bind _ _
            (Triple-verify_committed sha256 spelling accepts (Stored p)
              (Kept sha256 spelling accepts) _ _ (λ _ _ (k, _). k))
            (λ _. Triple-pure _ (λ w ((k, member), exact). (
              k,
              (
                p,
                member,
                replayed p path at committed,
                same,
                fits,
                subst (λ j. IsExact sha256 w.disk (below p.intent.task_id path) j) same exact,
              ),
            ))))

  Triple-replay :
      (i : RawIntent) (p : RawPublication)
      → Triple
          (On (Stored p))
          (replay sha256 spelling accepts i p)
          (λ reference. On (Done sha256 spelling accepts i reference))
          (On (Kept sha256 spelling accepts))
  unfolding replay
  Triple-replay i p =
      let out : Implies (Stored p) (Kept sha256 spelling accepts) = λ _ _ (k, _). k in
      Triple-guard (Stored p) _ out _ _ _ (λ same. Triple-guard (Stored p) _ out _ _ _ (λ committed.
        Triple-reread i p p.relative_path refl (same_intent-eq p.intent i (not-false _ same))
          (not-false _ committed)))

  pub Triple-publish :
      (c : Candidate) (i : RawIntent) (lease : RuntimeLease) (started_at committed_at : Instant)
      → Triple
          (On (Kept sha256 spelling accepts))
          (publish sha256 spelling accepts c i lease started_at committed_at)
          (λ reference. On (Done sha256 spelling accepts i reference))
          (On (Kept sha256 spelling accepts))
  unfolding publish
  Triple-publish c i lease started_at committed_at =
      let same : Implies (Kept sha256 spelling accepts) (Kept sha256 spelling accepts) =
        λ _ _ k. k in
      Triple-guard (Kept sha256 spelling accepts) _ same _ _ _ (λ _.
        Triple-bind _ _ (Triple-touch (Kept sha256 spelling accepts) _ same) (λ _.
          Triple-bind _ _ (Triple-read (Kept sha256 spelling accepts) _ same _)
            (λ existing. branches existing)))
    where
      branches :
          (existing : Option RawPublication)
          → Triple
              (λ w.
                On (Kept sha256 spelling accepts) w
                × (existing ≡ publication_of w.db i.publication_id))
              (elim existing [
                | some p ↦ replay sha256 spelling accepts i p
                | none ↦ publish_new sha256 spelling accepts c i lease started_at committed_at
              ])
              (λ reference. On (Done sha256 spelling accepts i reference))
              (On (Kept sha256 spelling accepts))
      branches none =
          Triple-weaken _ (λ w (k, _). k) (λ _ w h. h)
            (Triple-publish_new sha256 spelling accepts c i lease started_at committed_at)
      branches (some p) =
          Triple-weaken _ (λ w (k, found). (k, found_Memᴰ _ w.db.raw_publications p found))
            (λ _ w h. h) (Triple-replay i p)
