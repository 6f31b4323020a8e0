-- ===== src/Artifacts/History.antt =====
-- The publisher over its whole life: calls of `publish` and `reconcile` of requests/raw_artifacts.py
-- one after the other, with failures and crashes in any of them.
use system_trade_with_llm_or.Prelude.{
  ◌≡◌, refl, Bool, false, List, [], ◌∷◌, ◌⊎◌, inl, inr, String, All,
}
use mathlib.Core.Path.{subst}
use system_trade_with_llm_or.Schema.{Identifier, Instant, RawIntent, RawPublication}
use system_trade_with_llm_or.Schema.States.{RawState, is_committed, is_pending}
use system_trade_with_llm_or.Lease.{RuntimeLease}
use system_trade_with_llm_or.Publications.{RawReference}
use system_trade_with_llm_or.Artifacts.Disk.{Bytes, Disk}
use system_trade_with_llm_or.Artifacts.Io.{World, Ending, returns, raised, crashed}
use system_trade_with_llm_or.Artifacts.Publish.{Candidate, publish}
use system_trade_with_llm_or.Artifacts.Reconcile.{reconcile}
use system_trade_with_llm_or.Artifacts.Rules.{Post}
use system_trade_with_llm_or.Artifacts.Exact.{IsKept, IsAt, IsBackedIf}
use system_trade_with_llm_or.Artifacts.States.{On}
use system_trade_with_llm_or.Artifacts.Calls.{IsPublished}
use system_trade_with_llm_or.Artifacts.Kept.{Kept, Done}
use system_trade_with_llm_or.Artifacts.Replayed.{Triple-publish}
use system_trade_with_llm_or.Artifacts.Reconciled.{Settled, Triple-reconcile}

-- A call of the publisher.
pub data Action : Type 0 where
  publishing : Candidate → RawIntent → RuntimeLease → Instant → Instant → Action
  reconciling : RuntimeLease → Instant → Action

-- Whatever the outcome, the next call finds the disk and the repository as this one left them.
after :
    {A : Type 0} (Q : A → World → Type 0) (R : World → Type 0) (o : Ending A × World)
    → ((a : A) (w : World) → Q a w → R w)
    → Post Q R o
    → R o.1
after Q R (returns a, w) f h = f a w h
after Q R (raised e, w) f h = h
after Q R (crashed, w) f h = h

pub returned :
    {A : Type 0} (R : World → Type 0) (Q : A → World → Type 0) (o : Ending A × World) (a : A)
    → o.0 ≡ returns a
    → Post Q R o
    → Q a o.1
returned R Q (returns b, w) a e h = subst (λ c. Q c w) (cc) h
returned R Q (raised f, w) a e h = absurd (cc)
returned R Q (crashed, w) a e h = absurd (cc)

-- Committed with an exact bundle at its path, or failed.
abbrev pub IsSettled : (Bytes → Identifier) → Disk → RawPublication → Type 0
IsSettled sha256 disk p =
    ((p.state ≡ RawState.committed) × IsAt sha256 disk p.intent p.relative_path)
    ⊎ (p.state ≡ RawState.failed)

settled :
    (sha256 : Bytes → Identifier) (disk : Disk) (p : RawPublication) (s : RawState)
    → p.state ≡ s
    → IsBackedIf sha256 disk (is_committed s) p
    → is_pending s ≡ false
    → IsSettled sha256 disk p
settled sha256 disk p RawState.staging e b h = absurd (cc)
settled sha256 disk p RawState.committed e b h = inl (e, b)
settled sha256 disk p RawState.reconciliation_required e b h = absurd (cc)
settled sha256 disk p RawState.failed e b h = inr e

All-settled :
    (sha256 : Bytes → Identifier) (disk : Disk) (rows : List RawPublication)
    → All (λ p. IsBackedIf sha256 disk (is_committed p.state) p) rows
    → All (λ p. is_pending p.state ≡ false) rows
    → All (IsSettled sha256 disk) rows
All-settled sha256 disk [] b h = tt
All-settled sha256 disk (p ∷ rows) (backed, b) (done, h) =
    (settled sha256 disk p p.state refl backed done, All-settled sha256 disk rows b h)

module _ (sha256 : Bytes → Identifier) (spelling : Identifier → String)
    (accepts : Bytes → Bool) where
  unfoldable pub perform : Action → World → World
  perform (publishing c i lease started_at committed_at) w =
      (publish sha256 spelling accepts c i lease started_at committed_at w).1
  perform (reconciling lease now) w = (reconcile sha256 spelling accepts lease now w).1

  unfoldable pub history : List Action → World → World
  history [] w = w
  history (a ∷ actions) w = history actions (perform a w)

  perform-Kept :
      (a : Action) (w : World)
      → On (Kept sha256 spelling accepts) w
      → On (Kept sha256 spelling accepts) (perform a w)
  unfolding perform
  perform-Kept (publishing c i lease started_at committed_at) w k =
      after (λ r. On (Done sha256 spelling accepts i r)) _ _ (λ _ _ (k, _). k)
        ((Triple-publish sha256 spelling accepts c i lease started_at committed_at).from w k)
  perform-Kept (reconciling lease now) w k =
      after (λ _. On (Settled sha256 spelling accepts)) _ _ (λ _ _ (k, _). k)
        ((Triple-reconcile sha256 spelling accepts lease now).from w k)

  history-Kept :
      (actions : List Action) (w : World)
      → On (Kept sha256 spelling accepts) w
      → On (Kept sha256 spelling accepts) (history actions w)
  unfolding history
  history-Kept [] w k = k
  history-Kept (a ∷ actions) w k = history-Kept actions (perform a w) (perform-Kept a w k)

  -- Invariant: let each committed publication have, at its path below its task, a bundle whose four
  -- files verify against its intent, and let no two publications share an identifier. Then the same
  -- holds after any calls of `publish` and `reconcile`, with any schedule of failures and of deaths of
  -- the process inside them.
  pub committed_bundles_stay_exact :
      (actions : List Action) (w : World)
      → IsKept sha256 w.disk w.db.raw_publications
      → IsKept sha256 (history actions w).disk (history actions w).db.raw_publications
  committed_bundles_stay_exact actions w k = (history-Kept actions w (k, tt)).0

  -- Where `publish` returns a reference in such a state, whether it published now or found the intent
  -- committed: a row of this very intent is committed with that reference, and the place that the
  -- reference names has a bundle that verifies against the intent.
  pub returned_reference_is_published :
      (c : Candidate) (i : RawIntent) (lease : RuntimeLease) (started_at committed_at : Instant)
      (w : World) (reference : RawReference)
      → IsKept sha256 w.disk w.db.raw_publications
      → (publish sha256 spelling accepts c i lease started_at committed_at w).0 ≡ returns reference
      → On
          (IsPublished sha256 i reference)
          (publish sha256 spelling accepts c i lease started_at committed_at w).1
  returned_reference_is_published c i lease started_at committed_at w reference k e =
      (returned _ _ _ reference e (
        (Triple-publish sha256 spelling accepts c i lease started_at committed_at).from w
          (k, tt))).1

  -- Where `reconcile` returns in such a state, it has settled every publication: each is committed,
  -- with a bundle at its path that verifies against its intent, or failed.
  pub reconcile_settles_all :
      (lease : RuntimeLease) (now : Instant) (w : World) (repaired : List RawReference)
      → IsKept sha256 w.disk w.db.raw_publications
      → (reconcile sha256 spelling accepts lease now w).0 ≡ returns repaired
      → All
          (IsSettled sha256 (reconcile sha256 spelling accepts lease now w).1.disk)
          (reconcile sha256 spelling accepts lease now w).1.db.raw_publications
  reconcile_settles_all lease now w repaired k e =
      let ((kept, _), done) =
        returned _ _ _ repaired e
          ((Triple-reconcile sha256 spelling accepts lease now).from w (k, tt)) in
      All-settled sha256 (reconcile sha256 spelling accepts lease now w).1.disk _ kept.backed done
