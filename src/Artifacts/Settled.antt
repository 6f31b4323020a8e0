-- ===== src/Artifacts/Settled.antt =====
-- Which publications `reconcile` still has to settle, and that a commit or a failure settles one.
use system_trade_with_llm_or.Prelude.{
  ◌≡◌, refl, sym, Bool, true, false, List, [], ◌∷◌, ◌==◌, ==_refl, String, All, All-map, Bool-cases,
  inl, inr, arith, update_where, any, select, insert_before, order_by,
}
use mathlib.Core.Path.{subst}
use system_trade_with_llm_or.Schema.{RawIntent, RawPublication}
use system_trade_with_llm_or.Schema.States.{is_pending}
use system_trade_with_llm_or.Publications.{is_committable, in_states}
use system_trade_with_llm_or.Artifacts.Publish.{unchecked_reference}
use system_trade_with_llm_or.Artifacts.Exact.{AgreesIf}

-- A pending publication is one of those that are to be settled.
abbrev pub WaitsIf : List RawPublication → Bool → RawPublication → Type 0
WaitsIf ps false q = Unit
WaitsIf ps true q = any (λ p. p.intent.publication_id == q.intent.publication_id) ps ≡ true

abbrev pub Waiting : List RawPublication → List RawPublication → Type 0
Waiting ps rows = All (λ q. WaitsIf ps (is_pending q.state) q) rows

-- The next one is settled where the UPDATE ends every pending row of its identifier.
settled_row :
    (p : RawPublication) (ps : List RawPublication) (q : RawPublication) (b : Bool)
    → (b ≡ true → (q.intent.publication_id == p.intent.publication_id) ≡ false)
    → WaitsIf (p ∷ ps) b q
    → WaitsIf ps b q
settled_row p ps q false other h = tt
settled_row p ps q true other h = ground (arith, other refl)

pub Waiting-update :
    (Q : RawPublication → Type 0) (test : RawPublication → Bool)
    (change : RawPublication → RawPublication) (p : RawPublication) (ps rows : List RawPublication)
    → ((q : RawPublication) → is_pending (change q).state ≡ false)
    → ((q : RawPublication)
        → Q q
        → test q ≡ false
        → is_pending q.state ≡ true
        → (q.intent.publication_id == p.intent.publication_id) ≡ false)
    → All Q rows
    → Waiting (p ∷ ps) rows
    → Waiting ps (update_where test change rows)
Waiting-update Q test change p ps [] ends other qs h = tt
Waiting-update Q test change p ps (q ∷ rows) ends other (at, qs) (waits, h) = (
  elim (Bool-cases (test q)) [
    | inl passes ↦ rw passes (subst (λ b. WaitsIf ps b (change q)) (sym (ends q)) tt)
    | inr fails ↦ rw fails (settled_row p ps q _ (other q at fails) waits)
  ],
  Waiting-update Q test change p ps rows ends other qs h,
)

-- A pending row of the identifier that a failure, or a commit, leaves alone does not exist.
pub other_failed :
    (p q : RawPublication)
    → in_states p.intent.publication_id is_pending q ≡ false
    → is_pending q.state ≡ true
    → (q.intent.publication_id == p.intent.publication_id) ≡ false
other_failed p q untouched pending = ground arith

committable :
    (i : RawIntent) (path : String) (q : RawPublication)
    → q.intent ≡ i
    → is_pending q.state ≡ true
    → is_committable (unchecked_reference i path) q ≡ true
committable i path q same pending = rw same (
    rw pending (
      ground (
        arith,
        ==_refl i.publication_id,
        ==_refl i.task_id,
        ==_refl i.logical_request_id,
        ==_refl i.physical_attempt_id,
        ==_refl i.content_sha256,
        ==_refl i.byte_count,
        ==_refl i.raw_schema_id,
        ==_refl i.raw_schema_version,
        ==_refl i.publication_generation,
      )))

pub other_committed :
    (p : RawPublication) (path : String) (q : RawPublication)
    → AgreesIf (q.intent.publication_id == p.intent.publication_id) p.intent q.intent
    → is_committable (unchecked_reference p.intent path) q ≡ false
    → is_pending q.state ≡ true
    → (q.intent.publication_id == p.intent.publication_id) ≡ false
other_committed p path q agrees untouched pending =
    elim (Bool-cases (q.intent.publication_id == p.intent.publication_id)) [
      | inl same ↦
          let passes = committable p.intent path q (rw same at agrees) pending in absurd (cc)
      | inr differs ↦ differs
    ]

-- Before the first, every pending publication waits.
any-insert_before :
    (test : RawPublication → Bool) (le : RawPublication → RawPublication → Bool)
    (p : RawPublication) (rows : List RawPublication)
    → any test rows ≡ true
    → any test (insert_before le p rows) ≡ true
any-insert_before test le p [] h = absurd (ground arith)
any-insert_before test le p (q ∷ rows) h = ground (arith, any-insert_before test le p rows)

any-inserted :
    (test : RawPublication → Bool) (le : RawPublication → RawPublication → Bool)
    (p : RawPublication) (rows : List RawPublication)
    → test p ≡ true
    → any test (insert_before le p rows) ≡ true
any-inserted test le p [] h = ground arith
any-inserted test le p (q ∷ rows) h = ground (arith, any-inserted test le p rows h)

any-order_by :
    (test : RawPublication → Bool) (le : RawPublication → RawPublication → Bool)
    (rows : List RawPublication)
    → any test rows ≡ true
    → any test (order_by le rows) ≡ true
any-order_by test le [] h = absurd (ground arith)
any-order_by test le (p ∷ rows) h = elim (Bool-cases (test p)) [
  | inl passes ↦ any-inserted test le p (order_by le rows) passes
  | inr fails ↦ any-insert_before test le p _ (any-order_by test le rows (ground arith))
]

pub Waiting-order_by :
    (le : RawPublication → RawPublication → Bool) (ps rows : List RawPublication)
    → Waiting ps rows
    → Waiting (order_by le ps) rows
Waiting-order_by le ps rows h = All-map _ _ rows (λ q w. kept q (is_pending q.state) w) h
  where
    kept : (q : RawPublication) (b : Bool) → WaitsIf ps b q → WaitsIf (order_by le ps) b q
    kept q false w = tt
    kept q true w = any-order_by _ le ps w

later :
    (p : RawPublication) (ps : List RawPublication) (q : RawPublication) (b : Bool)
    → WaitsIf ps b q
    → WaitsIf (p ∷ ps) b q
later p ps q false w = tt
later p ps q true w = ground arith

first_waits : (p : RawPublication) (ps : List RawPublication) (b : Bool) → WaitsIf (p ∷ ps) b p
first_waits p ps false = tt
first_waits p ps true = ground (arith, ==_refl p.intent.publication_id)

pub Waiting-select :
    (rows : List RawPublication) → Waiting (select (λ p. is_pending p.state) rows) rows
Waiting-select [] = tt
Waiting-select (p ∷ rows) = elim (Bool-cases (is_pending p.state)) [
  | inl pending ↦
      let selected : select (λ q. is_pending q.state) (p ∷ rows)
          ≡ p ∷ select (λ q. is_pending q.state) rows =
        rw pending refl in
      subst (λ ps. Waiting ps (p ∷ rows)) (sym selected)
        (
          first_waits p _ (is_pending p.state),
          All-map _ _ rows (λ q w. later p _ q (is_pending q.state) w) (Waiting-select rows),
        )
  | inr settled ↦
      let selected : select (λ q. is_pending q.state) (p ∷ rows)
          ≡ select (λ q. is_pending q.state) rows =
        rw settled refl in
      subst (λ ps. Waiting ps (p ∷ rows)) (sym selected) (rw settled tt, Waiting-select rows)
]

-- With none left to settle, nothing is pending.
pub Waiting-none :
    (rows : List RawPublication) → Waiting [] rows → All (λ q. is_pending q.state ≡ false) rows
Waiting-none rows h = All-map _ _ rows (λ q w. none_left q (is_pending q.state) w) h
  where
    none_left : (q : RawPublication) (b : Bool) → WaitsIf [] b q → b ≡ false
    none_left q false w = refl
    none_left q true w = absurd (ground arith)
