-- ===== src/Artifacts/States.antt =====
-- The rules of Rules at what the publisher's states are about: the disk and the publications' rows.
use system_trade_with_llm_or.Publications.{RawReference}
use system_trade_with_llm_or.Artifacts.Paths.{is_reference_path}
use system_trade_with_llm_or.Artifacts.Publish.{reference_of, unchecked_reference}
use system_trade_with_llm_or.Prelude.{
  arith, String, not, true, [], ◌∷◌, ◌≡◌, refl, sym, ap, ◌∙◌, Bool, false, List,
}
use mathlib.Core.Path.{subst}
use system_trade_with_llm_or.Schema.{Database, Instant, RawIntent, RawPublication}
use system_trade_with_llm_or.Schema.Codes.{Code}
use system_trade_with_llm_or.Tx.{ok, Tx, transaction-atomic}
use system_trade_with_llm_or.Lease.{RuntimeLease, fenced, fenced-eq-ok}
use system_trade_with_llm_or.Artifacts.Disk.{Disk}
use system_trade_with_llm_or.Artifacts.Io.{
  World, Fate, Failure, Io, call_repository, call_os, touch, raise_if, pure, ◌>>=◌, ◌>>◌,
  read_repository, decide, storage_failed, validation_error, works, fails, dies, returns,
}
use system_trade_with_llm_or.Artifacts.Rules.{
  Triple, Post, Triple-bind, Triple-call_repository, Triple-call_os, Triple-raise_if,
}

pub not-false : (b : Bool) → not b ≡ false → b ≡ true
not-false b h = ground arith

abbrev pub State : Type 1
State = Disk → List RawPublication → Type 0

abbrev pub On : State → World → Type 0
On P w = P w.disk w.db.raw_publications

abbrev pub Implies : State → State → Type 0
Implies P Q = (disk : Disk) (rows : List RawPublication) → P disk rows → Q disk rows

module _ (P R : State) (weaken : Implies P R) where
  pub Triple-touch : Triple (On P) touch (λ _. On P) (On R)
  unfolding touch
  Triple-touch =
      Triple-call_os (λ d. d) (λ d. d) (λ w _ h. h) (λ w _ h. weaken w.disk w.db.raw_publications h)

  -- What follows a test that did not raise.
  pub Triple-guard :
      {A : Type 0} {S : A → World → Type 0} (b : Bool) (e : Failure) (f : Unit {0} → Io A)
      → (b ≡ false → Triple (On P) (f tt) S (On R))
      → Triple (On P) (raise_if b e >>= f) S (On R)
  Triple-guard b e f h =
      Triple-bind _ _ (Triple-raise_if b e (λ w p. weaken w.disk w.db.raw_publications p))
        (λ u. record { from = λ w (p, passed). (h passed).from w p })

  pub Triple-read :
      {A : Type 0} (f : Database → A)
      → Triple (On P) (read_repository f) (λ a w. On P w × (a ≡ f w.db)) (On R)
  unfolding read_repository
  Triple-read f = record { from = λ w p. step w p w.fates }
    where
      step :
          (w : World)
          → On P w
          → (fates : List Fate)
          → Post
              (λ a w. On P w × (a ≡ f w.db))
              (On R)
              (decide storage_failed fates (λ v. (returns (f v.db), v)) (λ v. v) w)
      step w p [] = (p, refl)
      step w p (works ∷ rest) = (p, refl)
      step w p (fails ∷ rest) = weaken w.disk w.db.raw_publications p
      step w p (dies ∷ rest) = weaken w.disk w.db.raw_publications p

  -- A reference that has been built has a path that its model accepts.
  pub Triple-reference :
      {A : Type 0} {S : A → World → Type 0} (i : RawIntent) (path : String)
      (f : RawReference → Io A)
      → (is_reference_path path ≡ true → Triple (On P) (f (unchecked_reference i path)) S (On R))
      → Triple (On P) (reference_of i path >>= f) S (On R)
  unfolding reference_of raise_if pure ◌>>=◌
  Triple-reference {S} i path f h = step (is_reference_path path) refl
    where
      step :
          (b : Bool)
          → is_reference_path path ≡ b
          → Triple
              (On P)
              ((raise_if (not b) validation_error >> pure (unchecked_reference i path)) >>= f)
              S
              (On R)
      step true fits = record { from = λ w p. (h fits).from w p }
      step false unfit = record { from = λ w p. weaken w.disk w.db.raw_publications p }

  pub Triple-fenced :
      {A : Type 0} (Q : A → State) (failed : Code) (lease : RuntimeLease) (now : Instant) (m : Tx A)
      → ((disk : Disk) (db : Database) (a : A) (db' : Database)
          → m db ≡ ok (a, db')
          → P disk db.raw_publications
          → Q a disk db'.raw_publications)
      → Triple (On P) (call_repository (fenced failed lease now m)) (λ a. On (Q a)) (On R)
  unfolding fenced
  Triple-fenced Q failed lease now m good =
      Triple-call_repository _
        (λ w _ a db e p. good w.disk w.db a db (fenced-eq-ok failed lease now m w.db e) p)
        (λ w _ c db e p. weaken w.disk db.raw_publications (
          subst (λ d. P w.disk d.raw_publications)
            (sym (transaction-atomic failed _ w.db c (ap (λ t. t.0) e)) ∙ ap (λ t. t.1) e) p))
        (λ w _ p. weaken w.disk w.db.raw_publications p)

pub Triple-disk :
    (P Q R : State) (change spoil : Disk → Disk)
    → Implies P (λ disk. Q (change disk))
    → Implies P (λ disk. R (spoil disk))
    → Triple (On P) (call_os change spoil) (λ _. On Q) (On R)
Triple-disk P Q R change spoil good bad =
    Triple-call_os change spoil (λ w _ h. good w.disk w.db.raw_publications h)
      (λ w _ h. bad w.disk w.db.raw_publications h)
