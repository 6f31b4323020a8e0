-- ===== src/Artifacts/Exact.antt =====
-- What the publisher keeps of its disk and the repository together: every committed publication is
-- backed by a bundle that holds exactly what its intent says; and what its statements do to that.
use text.Mathlib.TextEquality.{eq_iff}
use system_trade_with_llm_or.Prelude.{
  ◌≡◌, ap, Bool, true, false, Option, none, some, List, [], ◌∷◌, ◌==◌, String, All, All-map,
  Bool-cases, arith, inl, inr,
}
use system_trade_with_llm_or.Schema.{Identifier, RawIntent, RawPublication}
use system_trade_with_llm_or.Schema.States.{is_committed}
use system_trade_with_llm_or.Artifacts.Disk.{
  Bytes, Bundle, Node, absent, directory, Place, staging, below, same_place, Disk, put, verify,
}

-- The place has a bundle that verifies against the intent.
abbrev pub IsExact : (Bytes → Identifier) → Disk → Place → RawIntent → Type 0
IsExact sha256 disk place i = (b : Bundle) × (disk place ≡ directory b) × (verify sha256 b i ≡ true)

abbrev pub IsAt : (Bytes → Identifier) → Disk → RawIntent → Option String → Type 0
IsAt sha256 disk i none = ⊥
IsAt sha256 disk i (some path) = IsExact sha256 disk (below i.task_id path) i

abbrev pub IsBackedIf : (Bytes → Identifier) → Disk → Bool → RawPublication → Type 0
IsBackedIf sha256 disk false p = Unit
IsBackedIf sha256 disk true p = IsAt sha256 disk p.intent p.relative_path

abbrev pub IsBacked : (Bytes → Identifier) → Disk → RawPublication → Type 0
IsBacked sha256 disk p = IsBackedIf sha256 disk (is_committed p.state) p

-- No two publications share an identifier.
abbrev pub IsUnique : List RawPublication → Type 0
IsUnique [] = Unit
IsUnique (p ∷ ps) =
    All (λ q. (q.intent.publication_id == p.intent.publication_id) ≡ false) ps × IsUnique ps

pub record IsKept (sha256 : Bytes → Identifier) (disk : Disk) (rows : List RawPublication)
    : Type 0 where
  pub backed : All (IsBacked sha256 disk) rows
  pub unique : IsUnique rows

abbrev pub AgreesIf : Bool → RawIntent → RawIntent → Type 0
AgreesIf false i j = Unit
AgreesIf true i j = j ≡ i

-- A publication with the identifier of the intent has that intent.
abbrev pub IsNamed : RawIntent → List RawPublication → Type 0
IsNamed i rows = All (λ p. AgreesIf (p.intent.publication_id == i.publication_id) i p.intent) rows

module _ (sha256 : Bytes → Identifier) where
  -- Places that hold a bundle below a task are left alone.
  abbrev pub Leaves : Disk → Disk → Type 0
  Leaves disk disk' =
      (task : Identifier) (path : String) (b : Bundle)
      → disk (below task path) ≡ directory b
      → disk' (below task path) ≡ directory b

  IsAt-Leaves :
      (disk disk' : Disk) (i : RawIntent) (o : Option String)
      → Leaves disk disk'
      → IsAt sha256 disk i o
      → IsAt sha256 disk' i o
  IsAt-Leaves disk disk' i none l h = h
  IsAt-Leaves disk disk' i (some path) l (b, here, exact) = (b, l i.task_id path b here, exact)

  IsBackedIf-Leaves :
      (disk disk' : Disk) (b : Bool) (p : RawPublication)
      → Leaves disk disk'
      → IsBackedIf sha256 disk b p
      → IsBackedIf sha256 disk' b p
  IsBackedIf-Leaves disk disk' false p l h = tt
  IsBackedIf-Leaves disk disk' true p l h = IsAt-Leaves disk disk' p.intent p.relative_path l h

  pub IsKept-Leaves :
      (disk disk' : Disk) (rows : List RawPublication)
      → Leaves disk disk'
      → IsKept sha256 disk rows
      → IsKept sha256 disk' rows
  IsKept-Leaves disk disk' rows l k = record {
    backed =
        All-map _ _ rows (λ p h. IsBackedIf-Leaves disk disk' (is_committed p.state) p l h)
          k.backed;
    unique = k.unique;
  }

  pub Leaves-staging :
      (disk : Disk) (task attempt : Identifier) (node : Node)
      → Leaves disk (put (staging task attempt) node disk)
  Leaves-staging disk task attempt node t path b h = h

  same_below :
      (a b : Identifier) (p q : String)
      → same_place (below a p) (below b q) ≡ true
      → below a p ≡ below b q
  same_below a b p q h = ground (arith, eq_iff p q)

  -- A place that was absent may be filled.
  pub Leaves-absent :
      (disk : Disk) (task : Identifier) (path : String) (node : Node)
      → disk (below task path) ≡ absent
      → Leaves disk (put (below task path) node disk)
  Leaves-absent disk task path node free t q b h =
      elim (Bool-cases (same_place (below task path) (below t q))) [
        | inl same ↦ let here = ap disk (same_below task t path q same) in absurd (cc)
        | inr other ↦ rw other h
      ]
