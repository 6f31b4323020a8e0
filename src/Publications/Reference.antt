-- ===== src/Publications/Reference.antt =====
-- Round trip of a raw reference: what a commit was given is what is read back.
use system_trade_with_llm_or.Prelude.{
  ◌≡◌, refl, Bool, true, List, [], ◌∷◌, ◌==◌, arith, count_if, update_where, Memᴰ, Bool-cases, inl,
  inr, ==→eq,
}
use mathlib.Core.Path.{subst}
use system_trade_with_llm_or.Schema.{Database, Instant, RawPublication}
use system_trade_with_llm_or.Schema.Codes.{raw_publication_commit_failed}
use system_trade_with_llm_or.Tx.{ok, update_one, ◌>>=◌}
use system_trade_with_llm_or.Lease.{RuntimeLease, fenced-eq-ok}
use system_trade_with_llm_or.Publications.{
  RawReference, is_committable, commit, change_publication, commit_raw_publication, raw_reference,
}

pub changed_row :
    (test : RawPublication → Bool) (change : RawPublication → RawPublication)
    (rows : List RawPublication)
    → count_if test rows ≡ 1
    → (p : RawPublication) × (test p ≡ true) × Memᴰ (change p) (update_where test change rows)
changed_row test change [] h = absurd (ground arith)
changed_row test change (p ∷ rows) h = elim (Bool-cases (test p)) [
  | inl passes ↦ (p, passes, Memᴰ.head (rw passes refl))
  | inr fails ↦
      let (q, passes, found) = changed_row test change rows (ground arith) in
      (q, passes, Memᴰ.tail found)
]

change_publication-row :
    (test : RawPublication → Bool) (change : RawPublication → RawPublication) (db : Database)
    {u : Unit {0}} {db' : Database}
    → change_publication test change db ≡ ok (u, db')
    → (p : RawPublication) × (test p ≡ true) × Memᴰ (change p) db'.raw_publications
unfolding change_publication update_one ◌>>=◌
change_publication-row test change db {u} {db'} h =
    elim (Bool-cases (count_if test db.raw_publications == 1)) [
      | inl one ↦
          let left : update_where test change db.raw_publications ≡ db'.raw_publications =
            ground arith in
          subst (λ rows. (p : RawPublication) × (test p ≡ true) × Memᴰ (change p) rows) left
            (changed_row test change db.raw_publications (==→eq _ 1 one))
      | inr other ↦ absurd (ground arith)
    ]

-- The reference of a committed row is the one that it was committed with.
pub reference-commit :
    (reference : RawReference) (now : Instant) (p : RawPublication)
    → is_committable reference p ≡ true
    → raw_reference (commit reference.relative_path now p) ≡ ok reference
unfolding raw_reference
reference-commit reference now p h = ground arith

-- Round trip: a commit that goes through leaves a row from which `_raw_reference` reads back the very
-- reference that was committed.
pub committed_reference_reads_back :
    (reference : RawReference) (lease : RuntimeLease) (now : Instant) (db : Database) (u : Unit {0})
    (db' : Database)
    → commit_raw_publication reference lease now db ≡ (ok u, db')
    → (p : RawPublication) × Memᴰ p db'.raw_publications × (raw_reference p ≡ ok reference)
unfolding commit_raw_publication
committed_reference_reads_back reference lease now db u db' h =
    let (p, committable, found) =
      change_publication-row (is_committable reference) (commit reference.relative_path now) db
        (fenced-eq-ok raw_publication_commit_failed lease now _ db h) in
    (commit reference.relative_path now p, found, reference-commit reference now p committable)
