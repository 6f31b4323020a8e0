-- ===== src/Artifacts/Io.antt =====
-- Code that calls the operating system and the repository. Each call takes a fate off a schedule: it
-- works, it fails and raises, or the process dies there, past every handler.
use system_trade_with_llm_or.Prelude.{Bool, true, false, List, [], ◌∷◌}
use system_trade_with_llm_or.Schema.{Database}
use system_trade_with_llm_or.Schema.Codes.{Code}
use system_trade_with_llm_or.Tx.{Result, ok, err, Operation}
use system_trade_with_llm_or.Artifacts.Disk.{Disk}

pub data Fate : Type 0 where
  works fails dies : Fate

pub record World : Type 0 where
  pub disk : Disk
  pub db : Database
  pub fates : List Fate

-- What is raised: a `RuntimeStorageError` of the publisher or of the repository (where its database
-- fails, `storage_failed`); an `OSError`, for which a check of owners and modes counts too; or an
-- exception of the source's validator, or a pydantic `ValidationError`.
pub data Failure : Type 0 where
  raw_candidate_intent_mismatch raw_publication_replay_mismatch : Failure
  raw_publication_reconciliation_required raw_publication_path_exists : Failure
  raw_staging_verification_failed raw_committed_artifact_invalid : Failure
  raw_publication_reconciliation_conflict os_error refused_by_validator : Failure
  storage_failed validation_error : Failure
  repository : Code → Failure

abbrev pub is_storage : Failure → Bool
is_storage os_error = false
is_storage refused_by_validator = false
is_storage validation_error = false
is_storage _ = true

pub data Ending (A : Type 0) : Type 0 where
  returns : A → Ending A
  raised : Failure → Ending A
  crashed : Ending A

abbrev pub Io : Type 0 → Type 0
Io A = World → Ending A × World

module _ {A : Type 0} where
  unfoldable pub pure : A → Io A
  pure a w = (returns a, w)

  unfoldable pub raise : Failure → Io A
  raise e w = (raised e, w)

  unfoldable pub gets : (World → A) → Io A
  gets f w = (returns (f w), w)

  -- A call with a fate: where it works, where it fails, and where the process dies in it.
  abbrev pub decide :
      Failure → List Fate → (World → Ending A × World) → (World → World) → World → Ending A × World
  decide e [] go spoil w = go w
  decide e (works ∷ rest) go spoil w = go (record w { fates = rest })
  decide e (fails ∷ rest) go spoil w = (raised e, spoil (record w { fates = rest }))
  decide e (dies ∷ rest) go spoil w = (crashed, spoil (record w { fates = rest }))

  -- A method of the repository: a block that fails or dies in the middle is rolled back.
  abbrev pub answer : Result Code A × Database → World → Ending A × World
  answer (ok a, db) w = (returns a, record w { db = db })
  answer (err c, db) w = (raised (repository c), record w { db = db })

  -- A read of the repository.
  unfoldable pub read_repository : (Database → A) → Io A
  read_repository f w = decide storage_failed w.fates (λ v. (returns (f v.db), v)) (λ v. v) w

  unfoldable pub call_repository : Operation A → Io A
  call_repository op w = decide storage_failed w.fates (λ v. answer (op v.db) v) (λ v. v) w

-- A call that changes the disk by `change`, or leaves what `spoil` makes of it.
unfoldable pub call_os : (Disk → Disk) → (Disk → Disk) → Io (Unit {0})
call_os change spoil w =
    decide os_error w.fates (λ v. (returns tt, record v { disk = change v.disk }))
      (λ v. record v { disk = spoil v.disk }) w

-- A call that changes nothing that is modelled.
unfoldable pub touch : Io (Unit {0})
unfolding call_os
touch = call_os (λ d. d) (λ d. d)

-- if test: raise e
unfoldable pub raise_if : Bool → Failure → Io (Unit {0})
raise_if true e w = (raised e, w)
raise_if false e w = (returns tt, w)

module _ {A B : Type 0} where
  abbrev pub continue : Ending A × World → (A → Io B) → Ending B × World
  continue (returns a, w) f = f a w
  continue (raised e, w) f = (raised e, w)
  continue (crashed, w) f = (crashed, w)

  infixl 10 ◌>>=◌ ◌>>◌
  unfoldable pub ◌>>=◌ : Io A → (A → Io B) → Io B
  ◌>>=◌ m f w = continue (m w) f

  abbrev pub ◌>>◌ : Io A → Io B → Io B
  m >> n = m >>= λ _. n

module _ {A : Type 0} where
  abbrev pub handle : Ending A × World → (Failure → Io A) → Ending A × World
  handle (returns a, w) f = (returns a, w)
  handle (raised e, w) f = f e w
  handle (crashed, w) f = (crashed, w)

  -- try: m except Exception as error: f(error)
  unfoldable pub catch : Io A → (Failure → Io A) → Io A
  catch m f w = handle (m w) f
