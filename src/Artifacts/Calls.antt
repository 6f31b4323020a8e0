-- ===== src/Artifacts/Calls.antt =====
-- What the publisher's calls of the repository, and its check of an exposed bundle, keep.
use system_trade_with_llm_or.Prelude.{
  ◌≡◌, refl, sym, ◌∙◌, Bool, true, false, List, [], ◌∷◌, ◌==◌, String, All, All-map, arith, Memᴰ,
  update_where,
}
use mathlib.Core.Path.{subst}
use system_trade_with_llm_or.Schema.{Identifier, Instant, RawIntent, RawPublication}
use system_trade_with_llm_or.Schema.States.{RawState, is_committed, is_pending, is_staging}
use system_trade_with_llm_or.Tx.{ok}
use system_trade_with_llm_or.Lease.{RuntimeLease}
use system_trade_with_llm_or.Publications.{
  RawReference, is_committable, commit, in_states, set_raw, begin_raw_publication,
  commit_raw_publication, fail_raw_publication, mark_raw_publication_reconciliation_required,
  transition_raw_publication, raw_reference,
}
use system_trade_with_llm_or.Publications.Reference.{changed_row, reference-commit}
use system_trade_with_llm_or.Artifacts.Disk.{
  Bytes, Bundle, Node, absent, directory, link, other, below, verify, bundle_of,
}
use system_trade_with_llm_or.Artifacts.Io.{call_repository}
use system_trade_with_llm_or.Artifacts.Publish.{unchecked_reference, verify_committed}
use system_trade_with_llm_or.Artifacts.Rules.{
  Triple, Triple-bind, Triple-weaken, Triple-gets, Triple-raise_if, Triple-catch, Triple-raise,
}
use system_trade_with_llm_or.Artifacts.Exact.{IsExact, IsKept, AgreesIf, IsNamed}
use system_trade_with_llm_or.Artifacts.Rows.{
  begin_block-rows, change_publication-rows, IsNamed-update, IsKept-update, IsKept-insert,
  IsNamed-insert, IsBacked-commit,
}
use system_trade_with_llm_or.Artifacts.Paths.{is_reference_path}
use system_trade_with_llm_or.Artifacts.States.{
  not-false, State, On, Implies, Triple-touch, Triple-guard, Triple-fenced,
}

-- The bundles are kept, and the identifiers of these intents name them.
abbrev pub Keeping : (Bytes → Identifier) → List RawIntent → State
Keeping sha256 is disk rows = IsKept sha256 disk rows × All (λ i. IsNamed i rows) is

abbrev pub Exposed : (Bytes → Identifier) → RawIntent → String → List RawIntent → State
Exposed sha256 i path is disk rows =
    Keeping sha256 (i ∷ is) disk rows × IsExact sha256 disk (below i.task_id path) i

-- A row of the intent has been committed with the reference, whose place holds an exact bundle.
abbrev pub IsPublished : (Bytes → Identifier) → RawIntent → RawReference → State
IsPublished sha256 i reference disk rows =
    (p : RawPublication) × Memᴰ p rows
    × (raw_reference p ≡ ok reference)
    × (p.intent ≡ i)
    × (is_reference_path reference.relative_path ≡ true)
    × IsExact sha256 disk (below reference.task_id reference.relative_path) i

pub All-Memᴰ :
    (P : RawPublication → Type 0) (p : RawPublication) (rows : List RawPublication)
    → Memᴰ p rows
    → All P rows
    → P p
All-Memᴰ P p [] m h = elim m [ ]
All-Memᴰ P p (q ∷ rows) (Memᴰ.head e) (at, h) = subst P (cc) at
All-Memᴰ P p (q ∷ rows) (Memᴰ.tail m) (at, h) = All-Memᴰ P p rows m h

module _ (sha256 : Bytes → Identifier) where
  pub Triple-begin :
      (i : RawIntent) (lease : RuntimeLease) (now : Instant)
      → Triple
          (On (Keeping sha256 []))
          (call_repository (begin_raw_publication i lease now))
          (λ _. On (Keeping sha256 (i ∷ [])))
          (On (Keeping sha256 []))
  unfolding begin_raw_publication
  Triple-begin i lease now =
      Triple-fenced _ _ (λ _ _ h. h) _ _ lease now _
        (λ disk db u db' e (k, _).
          let (fresh, left) = begin_block-rows i now db u db' e in
          subst (Keeping sha256 (i ∷ []) disk) left (
            IsKept-insert i now db.raw_publications fresh sha256 disk k,
            (IsNamed-insert i now db.raw_publications fresh, tt),
          ))

  -- An UPDATE that keeps the intents keeps what the identifiers name.
  names_update :
      (test : RawPublication → Bool) (change : RawPublication → RawPublication)
      → ((p : RawPublication) → (change p).intent ≡ p.intent)
      → (rows : List RawPublication) (is : List RawIntent) → All (λ i. IsNamed i rows) is
      → All (λ i. IsNamed i (update_where test change rows)) is
  names_update test change same rows is h =
      All-map _ _ is (λ i. IsNamed-update test change same i rows) h

  pub Triple-commit :
      (i : RawIntent) (path : String) (is : List RawIntent) (R : State) (lease : RuntimeLease)
      (now : Instant)
      → is_reference_path path ≡ true
      → Implies (Exposed sha256 i path is) R
      → Triple
          (On (Exposed sha256 i path is))
          (call_repository (commit_raw_publication (unchecked_reference i path) lease now))
          (λ _. On (λ disk rows.
            Keeping sha256 (i ∷ is) disk rows
            × IsPublished sha256 i (unchecked_reference i path) disk rows))
          (On R)
  unfolding commit_raw_publication
  Triple-commit i path is R lease now fits weaken =
      Triple-fenced _ R weaken _ _ lease now _ (λ disk db u db' e ((k, (named, names)), exact).
        let (one, left) = change_publication-rows _ _ db u db' e in
        let (p, test, member) = changed_row _ _ db.raw_publications one in
        let named' =
          IsNamed-update (is_committable (unchecked_reference i path)) (commit path now) (λ _. refl)
            i db.raw_publications named in
        subst
          (λ rows.
            Keeping sha256 (i ∷ is) disk rows
            × IsPublished sha256 i (unchecked_reference i path) disk rows)
          left
          (
            (
              IsKept-update _ _ (λ _. refl) sha256 disk _ db.raw_publications
                  (λ q t agrees. IsBacked-commit sha256 disk i path now q exact t agrees) named k,
              (named', names_update _ _ (λ _. refl) db.raw_publications is names),
            ),
            (
              commit path now p,
              member,
              reference-commit (unchecked_reference i path) now p test,
              agreed i (commit path now p).intent (ground arith) (All-Memᴰ _ _ _ member named'),
              fits,
              exact,
            ),
          ))
    where
      agreed :
          (i j : RawIntent)
          → (j.publication_id == i.publication_id) ≡ true
          → AgreesIf (j.publication_id == i.publication_id) i j
          → j ≡ i
      agreed i j same h = rw same at h

  -- A transition away from `committed` keeps every bundle that is still committed.
  Triple-transition :
      (is : List RawIntent) (R : State) (id : Identifier) (target : RawState)
      (sources : RawState → Bool) (lease : RuntimeLease) (now : Instant)
      → is_committed target ≡ false
      → Implies (Keeping sha256 is) R
      → Triple
          (On (Keeping sha256 is))
          (call_repository (transition_raw_publication id target sources lease now))
          (λ _. On (Keeping sha256 is))
          (On R)
  unfolding transition_raw_publication
  Triple-transition is R id target sources lease now uncommitted weaken =
      Triple-fenced _ R weaken _ _ lease now _ (λ disk db u db' e (k, names).
        let (one, left) = change_publication-rows _ _ db u db' e in
        subst (Keeping sha256 is disk) left (
          IsKept-update (in_states id sources) (set_raw target) (λ _. refl) sha256 disk
              (λ _. Unit {0}) db.raw_publications (λ q t _. rw uncommitted tt)
              (All-map _ _ _ (λ _ _. tt) k.backed) k,
          names_update _ _ (λ _. refl) db.raw_publications is names,
        ))

  pub Triple-fail :
      (is : List RawIntent) (R : State) (id : Identifier) (lease : RuntimeLease) (now : Instant)
      → Implies (Keeping sha256 is) R
      → Triple
          (On (Keeping sha256 is))
          (call_repository (fail_raw_publication id lease now))
          (λ _. On (Keeping sha256 is))
          (On R)
  unfolding fail_raw_publication
  Triple-fail is R id lease now weaken =
      Triple-transition is R id RawState.failed is_pending lease now refl weaken

  pub Triple-mark :
      (is : List RawIntent) (R : State) (id : Identifier) (lease : RuntimeLease) (now : Instant)
      → Implies (Keeping sha256 is) R
      → Triple
          (On (Keeping sha256 is))
          (call_repository (mark_raw_publication_reconciliation_required id lease now))
          (λ _. On (Keeping sha256 is))
          (On R)
  unfolding mark_raw_publication_reconciliation_required
  Triple-mark is R id lease now weaken =
      Triple-transition is R id RawState.reconciliation_required is_staging lease now refl weaken

  -- The check of a committed reference finds the bundle exact, or raises.
  pub verified_directory :
      (node : Node) (i : RawIntent)
      → verify sha256 (bundle_of node) i ≡ true
      → (b : Bundle) × (node ≡ directory b) × (verify sha256 b i ≡ true)
  unfolding verify
  verified_directory (directory b) i h = (b, refl, h)
  verified_directory absent i h = absurd (ground arith)
  verified_directory (link t) i h = absurd (ground arith)
  verified_directory other i h = absurd (ground arith)

  pub Triple-verify_committed :
      (spelling : Identifier → String) (accepts : Bytes → Bool) (P R : State) (i : RawIntent)
      (reference : RawReference)
      → Implies P R
      → Triple
          (On P)
          (verify_committed sha256 spelling accepts i reference)
          (λ _. On (λ disk rows.
            P disk rows × IsExact sha256 disk (below reference.task_id reference.relative_path) i))
          (On R)
  unfolding verify_committed
  Triple-verify_committed spelling accepts P R i reference weaken =
      Triple-bind _ _ (Triple-gets _) (λ node.
        let Read : State = λ disk rows.
          P disk rows × (node ≡ disk (below reference.task_id reference.relative_path)) in
        let out : Implies Read R = λ disk rows (h, _). weaken disk rows h in
        Triple-guard Read R out _ _ _ (λ _.
          Triple-bind _ _
            (Triple-catch _ _ (Triple-touch Read R out) (λ e. Triple-raise _ (λ w h. h)) (λ w h. h))
            (λ _.
              Triple-weaken _ (λ w h. h)
                (λ _ w ((h, here), exact).
                  let (b, there, good) = verified_directory node i (not-false _ exact) in
                  (h, (b, sym here ∙ there, good)))
                (Triple-raise_if _ _ (λ w h. out w.disk w.db.raw_publications h)))))
