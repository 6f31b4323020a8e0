-- ===== src/Artifacts/Rows.antt =====
-- What the publications' statements do to what the publisher keeps: the INSERT of an intent, the
-- commit, and the transitions of requests/storage.py.
use system_trade_with_llm_or.Prelude.{
  ◌≡◌, refl, sym, Bool, true, false, none, List, [], ◌∷◌, ◌++◌, ◌==◌, ==_refl, String, All,
  All-append, All-map, Bool-cases, arith, inl, inr, update_where, count_if, any, select,
  insert_before, order_by,
}
use mathlib.Core.Path.{subst}
use system_trade_with_llm_or.Schema.{Database, Identifier, Instant, RawIntent, RawPublication}
use system_trade_with_llm_or.Schema.States.{RawState}
use system_trade_with_llm_or.Tx.{ok, insert_if, update_one, ◌>>=◌}
use system_trade_with_llm_or.Publications.{is_committable, commit, begin_block, change_publication}
use system_trade_with_llm_or.Artifacts.Disk.{Bytes, Disk, below}
use system_trade_with_llm_or.Artifacts.Publish.{unchecked_reference}
use system_trade_with_llm_or.Artifacts.Exact.{
  IsExact, IsBacked, IsUnique, IsKept, AgreesIf, IsNamed,
}

-- The row of a new intent.
abbrev pub new_row : RawIntent → Instant → RawPublication
new_row i now = record {
  intent = i;
  relative_path = none;
  state = RawState.staging;
  created_at = now;
  committed_at = none;
}

pub begin_block-rows :
    (i : RawIntent) (now : Instant) (db : Database) (u : Unit {0}) (db' : Database)
    → begin_block i now db ≡ ok (u, db')
    → (any (λ p. p.intent.publication_id == i.publication_id) db.raw_publications ≡ false)
      × (db.raw_publications ++ new_row i now ∷ [] ≡ db'.raw_publications)
unfolding begin_block insert_if ◌>>=◌
begin_block-rows i now db u db' h = ground arith

pub change_publication-rows :
    (test : RawPublication → Bool) (change : RawPublication → RawPublication) (db : Database)
    (u : Unit {0}) (db' : Database)
    → change_publication test change db ≡ ok (u, db')
    → (count_if test db.raw_publications ≡ 1)
      × (update_where test change db.raw_publications ≡ db'.raw_publications)
unfolding change_publication update_one ◌>>=◌
change_publication-rows test change db u db' h = ground arith

any-All :
    (test : RawPublication → Bool) (rows : List RawPublication)
    → any test rows ≡ false
    → All (λ p. test p ≡ false) rows
any-All test [] h = tt
any-All test (p ∷ rows) h = (ground arith, any-All test rows (ground arith))

All-update_where {ℓ κ} :
    (P : RawPublication → Type ℓ) (Q : RawPublication → Type κ) (test : RawPublication → Bool)
    (change : RawPublication → RawPublication) (rows : List RawPublication)
    → ((p : RawPublication) → test p ≡ true → P p → Q p → P (change p))
    → All P rows
    → All Q rows
    → All P (update_where test change rows)
All-update_where P Q test change [] h ps qs = tt
All-update_where P Q test change (p ∷ rows) h (at, ps) (of, qs) = (
  elim (Bool-cases (test p)) [
    | inl passes ↦ rw passes (h p passes at of)
    | inr fails ↦ rw fails at
  ],
  All-update_where P Q test change rows h ps qs,
)

-- A publication is added to those that share no identifier with it.
IsUnique-append :
    (rows : List RawPublication) (q : RawPublication)
    → All (λ p. (p.intent.publication_id == q.intent.publication_id) ≡ false) rows
    → IsUnique rows
    → IsUnique (rows ++ q ∷ [])
IsUnique-append [] q h u = (tt, tt)
IsUnique-append (p ∷ rows) q (other, h) (fresh, u) =
    (All-append _ rows (q ∷ []) fresh (ground arith, tt), IsUnique-append rows q h u)

-- An UPDATE that keeps the intents.
module _ (test : RawPublication → Bool) (change : RawPublication → RawPublication)
    (same : (p : RawPublication) → (change p).intent ≡ p.intent) where
  update_keeps :
      (Q : RawIntent → Type 0) (rows : List RawPublication)
      → All (λ p. Q p.intent) rows
      → All (λ p. Q p.intent) (update_where test change rows)
  update_keeps Q rows h =
      All-update_where _ (λ _. Unit {0}) test change rows (λ p _ k _. subst Q (sym (same p)) k) h
        (All-map _ _ rows (λ _ _. tt) h)

  IsUnique-update :
      (rows : List RawPublication) → IsUnique rows → IsUnique (update_where test change rows)
  IsUnique-update [] u = tt
  IsUnique-update (p ∷ rows) (fresh, u) = (
    update_keeps (λ i. (i.publication_id == _) ≡ false) rows
        (elim (Bool-cases (test p)) [
          | inl passes ↦ rw passes (rw same fresh)
          | inr fails ↦ rw fails fresh
        ]),
    IsUnique-update rows u,
  )

  pub IsNamed-update :
      (i : RawIntent) (rows : List RawPublication)
      → IsNamed i rows
      → IsNamed i (update_where test change rows)
  IsNamed-update i = update_keeps (λ j. AgreesIf (j.publication_id == i.publication_id) i j)

  pub IsKept-update :
      (sha256 : Bytes → Identifier) (disk : Disk) (Q : RawPublication → Type 0)
      (rows : List RawPublication)
      → ((p : RawPublication) → test p ≡ true → Q p → IsBacked sha256 disk (change p))
      → All Q rows
      → IsKept sha256 disk rows
      → IsKept sha256 disk (update_where test change rows)
  IsKept-update sha256 disk Q rows h qs k = record {
    backed = All-update_where _ Q test change rows (λ p t _ q. h p t q) k.backed qs;
    unique = IsUnique-update rows k.unique;
  }

-- The INSERT of an intent.
module _ (i : RawIntent) (now : Instant) (rows : List RawPublication)
    (fresh : any (λ p. p.intent.publication_id == i.publication_id) rows ≡ false) where
  pub IsKept-insert :
      (sha256 : Bytes → Identifier) (disk : Disk)
      → IsKept sha256 disk rows
      → IsKept sha256 disk (rows ++ new_row i now ∷ [])
  IsKept-insert sha256 disk k = record {
    backed = All-append _ rows _ k.backed (tt, tt);
    unique = IsUnique-append rows (new_row i now) (any-All _ rows fresh) k.unique;
  }

  pub IsNamed-insert : IsNamed i (rows ++ new_row i now ∷ [])
  IsNamed-insert =
      All-append _ rows _ (All-map _ _ rows (λ p h. rw h tt) (any-All _ rows fresh))
        (rw (==_refl i.publication_id) refl, tt)

-- A row that the commit of an intent's reference may change is of that intent, and then backed by
-- the bundle at its path.
pub IsBacked-commit :
    (sha256 : Bytes → Identifier) (disk : Disk) (i : RawIntent) (path : String) (now : Instant)
    (p : RawPublication)
    → IsExact sha256 disk (below i.task_id path) i
    → is_committable (unchecked_reference i path) p ≡ true
    → AgreesIf (p.intent.publication_id == i.publication_id) i p.intent
    → IsBacked sha256 disk (commit path now p)
IsBacked-commit sha256 disk i path now p exact test agrees =
    let named : (p.intent.publication_id == i.publication_id) ≡ true = ground arith in
    let same : p.intent ≡ i = rw named at agrees in
    subst (λ j. IsExact sha256 disk (below j.task_id path) j) (sym same) exact

-- Where no two publications share an identifier, the identifier of each names its intent.
AgreesIf-other :
    (i j : RawIntent)
    → (j.publication_id == i.publication_id) ≡ false
    → AgreesIf (j.publication_id == i.publication_id) i j
AgreesIf-other i j h = rw h tt

AgreesIf-self : (i : RawIntent) → AgreesIf (i.publication_id == i.publication_id) i i
AgreesIf-self i = rw (==_refl i.publication_id) refl

All-pair :
    (P Q : RawPublication → Type 0) (rows : List RawPublication)
    → All P rows
    → All Q rows
    → All (λ p. P p × Q p) rows
All-pair P Q [] ps qs = tt
All-pair P Q (p ∷ rows) (at, ps) (of, qs) = ((at, of), All-pair P Q rows ps qs)

pub unique-IsNamed :
    (rows : List RawPublication) → IsUnique rows → All (λ p. IsNamed p.intent rows) rows
unique-IsNamed [] u = tt
unique-IsNamed (p ∷ rows) (fresh, u) = (
  (AgreesIf-self p.intent, All-map _ _ rows (λ q h. AgreesIf-other p.intent q.intent h) fresh),
  All-map _ _ rows (λ q (h, named). (AgreesIf-other q.intent p.intent (ground arith), named))
      (All-pair _ _ rows fresh (unique-IsNamed rows u)),
)

pub All-select :
    (P : RawPublication → Type 0) (test : RawPublication → Bool) (rows : List RawPublication)
    → All P rows
    → All P (select test rows)
All-select P test [] h = tt
All-select P test (p ∷ rows) (at, h) = elim (Bool-cases (test p)) [
  | inl passes ↦ rw passes (at, All-select P test rows h)
  | inr fails ↦ rw fails (All-select P test rows h)
]

All-insert_before :
    (P : RawPublication → Type 0) (le : RawPublication → RawPublication → Bool) (p : RawPublication)
    (rows : List RawPublication)
    → P p
    → All P rows
    → All P (insert_before le p rows)
All-insert_before P le p [] at h = (at, tt)
All-insert_before P le p (q ∷ rows) at (of, h) = elim (Bool-cases (le p q)) [
  | inl before ↦ rw before (at, (of, h))
  | inr after ↦ rw after (of, All-insert_before P le p rows at h)
]

pub All-order_by :
    (P : RawPublication → Type 0) (le : RawPublication → RawPublication → Bool)
    (rows : List RawPublication)
    → All P rows
    → All P (order_by le rows)
All-order_by P le [] h = tt
All-order_by P le (p ∷ rows) (at, h) = All-insert_before P le p _ at (All-order_by P le rows h)
