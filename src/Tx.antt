-- ===== src/Tx.antt =====
-- Code inside one `with _connect(...) as connection:` block of requests/storage.py. It reads and
-- writes the database and may raise; the block commits when it ends and rolls back on a raise.
pub mod Keeps
use system_trade_with_llm_or.Prelude.{
  ap, ◌∙◌, ℕ, ◌≡◌, refl, Bool, true, false, Option, none, some, List, [], ◌∷◌, not, ◌&&◌, ◌==◌,
  arith,
}
use system_trade_with_llm_or.Schema.{Database, schema_version}
use system_trade_with_llm_or.Schema.Codes.{
  Code, unsupported_runtime_schema, runtime_schema_metadata_mismatch,
  runtime_database_integrity_failed,
}

-- What is raised in a block: a `RuntimeStorageError` with its code, or a `sqlite3.Error`, such as
-- a violated constraint.
pub data Error : Type 0 where
  storage : Code → Error
  sqlite : Error

pub data Result (E A : Type 0) : Type 0 where
  ok : A → Result E A
  err : E → Result E A

abbrev pub Tx : Type 0 → Type 0
Tx A = Database → Result Error (A × Database)

-- A public method: its result or error code, and the database that it leaves.
abbrev pub Operation : Type 0 → Type 0
Operation A = Database → Result Code A × Database

module _ {A : Type 0} where
  unfoldable pub pure : A → Tx A
  pure a db = ok (a, db)

  unfoldable pub raise : Code → Tx A
  raise c db = err (storage c)

  unfoldable pub gets : (Database → A) → Tx A
  gets f db = ok (f db, db)

  -- if value is None: raise RuntimeStorageError(c)
  unfoldable pub require : Option A → Code → Tx A
  require none c db = err (storage c)
  require (some a) c db = ok (a, db)

unfoldable pub modify : (Database → Database) → Tx (Unit {0})
modify f db = ok (tt, f db)

-- if test: raise RuntimeStorageError(c)
unfoldable pub raise_if : Bool → Code → Tx (Unit {0})
raise_if true c db = err (storage c)
raise_if false c db = ok (tt, db)

-- A statement that SQLite refuses where the test of its constraints fails.
unfoldable pub constraint : Bool → Tx (Unit {0})
constraint true db = ok (tt, db)
constraint false db = err sqlite

-- if test: …
unfoldable pub when : Bool → Tx (Unit {0}) → Tx (Unit {0})
when true m db = m db
when false m db = ok (tt, db)

module _ {A B : Type 0} where
  abbrev continue : Result Error (A × Database) → (A → Tx B) → Result Error (B × Database)
  continue (ok (a, db)) f = f a db
  continue (err e) f = err e

  infixl 10 ◌>>=◌ ◌>>◌
  -- Opening this opens the primitives above.
  unfoldable pub ◌>>=◌ : Tx A → (A → Tx B) → Tx B
  unfolding pure raise gets require modify raise_if constraint when
  ◌>>=◌ m f db = continue (m db) f

  abbrev pub ◌>>◌ : Tx A → Tx B → Tx B
  m >> n = m >>= λ _. n

  pub >>=-eq-ok :
      (m : Tx A) (f : A → Tx B) (db : Database) {b : B} {db'' : Database}
      → (m >>= f) db ≡ ok (b, db'')
      → (a : A) × (db' : Database) × (m db ≡ ok (a, db')) × (f a db' ≡ ok (b, db''))
  unfolding ◌>>=◌
  >>=-eq-ok m f db {b} {db''} h = split (m db) refl h
    where
      split :
          (r : Result Error (A × Database))
          → m db ≡ r
          → continue r f ≡ ok (b, db'')
          → (a : A) × (db' : Database) × (m db ≡ ok (a, db')) × (f a db' ≡ ok (b, db''))
      split (ok (a, db')) e k = (a, db', e, k)
      split (err e) p k = absurd (cc)

  pub gets-eq-ok :
      (read : Database → A) (f : A → Tx B) (db : Database) {b : B} {db'' : Database}
      → (gets read >>= f) db ≡ ok (b, db'')
      → f (read db) db ≡ ok (b, db'')
  unfolding ◌>>=◌
  gets-eq-ok read f db h = h

-- for x in xs: …
unfoldable pub for_each {ℓ} : {A : Type ℓ} → List A → (A → Tx (Unit {0})) → Tx (Unit {0})
for_each [] f = pure tt
for_each (x ∷ xs) f = f x >> for_each xs f

-- INSERT, refused by SQLite where the constraints of the table fail.
unfoldable pub insert_if : (Database → Bool) → (Database → Database) → Tx (Unit {0})
insert_if fits f = do allowed ← gets fits; constraint allowed; modify f

-- UPDATE or DELETE, refused by the code unless it changed exactly one row.
unfoldable pub update_one : (Database → ℕ) → (Database → Database) → Code → Tx (Unit {0})
update_one count f refused = do
  changed ← gets count
  modify f
  raise_if (not (changed == 1)) refused

abbrev owned : Option (Bool × ℕ) → Bool
owned none = false
owned (some (owner, version)) = owner && (version == schema_version)

-- `_verify_schema`
unfoldable pub verify_schema : Tx (Unit {0})
verify_schema = do
  info ← gets (λ db. db.schema)
  raise_if (not (info.user_version == schema_version)) unsupported_runtime_schema
  raise_if (not (owned info.metadata)) runtime_schema_metadata_mismatch
  raise_if (not info.quick_check_ok) runtime_database_integrity_failed

verify_schema-reads :
    (db : Database) {u : Unit {0}} {db' : Database} → verify_schema db ≡ ok (u, db') → db' ≡ db
unfolding verify_schema ◌>>=◌
verify_schema-reads db h = ground arith

-- The end of a block: commit, or roll back and raise; `failed` is the code that the handler of
-- `sqlite3.Error` raises in its place.
module _ {A : Type 0} where
  abbrev settle : Code → Database → Result Error (A × Database) → Result Code A × Database
  settle failed before (ok (a, db)) = (ok a, db)
  settle failed before (err (storage c)) = (err c, before)
  settle failed before (err sqlite) = (err failed, before)

  settle-eq-ok :
      (failed : Code) (before : Database) (r : Result Error (A × Database)) {a : A} {db' : Database}
      → settle failed before r ≡ (ok a, db')
      → r ≡ ok (a, db')
  settle-eq-ok failed before r h = ground arith

  unfoldable pub transaction : Code → Tx A → Operation A
  transaction failed m db = settle failed db ((verify_schema >> m) db)

  -- A block that raises leaves the database as it found it.
  pub transaction-atomic :
      (failed : Code) (m : Tx A) (db : Database) (c : Code)
      → (transaction failed m db).0 ≡ err c
      → (transaction failed m db).1 ≡ db
  unfolding transaction
  transaction-atomic failed m db c h = ground arith

  pub transaction-eq-ok :
      (failed : Code) (m : Tx A) (db : Database) {a : A} {db' : Database}
      → transaction failed m db ≡ (ok a, db')
      → m db ≡ ok (a, db')
  unfolding transaction
  transaction-eq-ok failed m db h =
      let (u, between, checked, rest) =
        >>=-eq-ok verify_schema (λ _. m) db (settle-eq-ok failed db _ h) in
      rw (verify_schema-reads db checked) at rest

  -- A block that goes through has found the schema as it should be, and the converse.
  pub transaction-verified :
      (failed : Code) (m : Tx A) (db : Database) {a : A} {db' : Database}
      → transaction failed m db ≡ (ok a, db')
      → verify_schema db ≡ ok (tt, db)
  unfolding transaction
  transaction-verified failed m db h =
      let (u, between, checked, rest) =
        >>=-eq-ok verify_schema (λ _. m) db (settle-eq-ok failed db _ h) in
      checked ∙ ap (λ d. ok (tt, d)) (verify_schema-reads db checked)

  pub transaction-ok :
      (failed : Code) (m : Tx A) (db : Database) {a : A} {db' : Database}
      → verify_schema db ≡ ok (tt, db)
      → m db ≡ ok (a, db')
      → transaction failed m db ≡ (ok a, db')
  unfolding transaction ◌>>=◌
  transaction-ok failed m db verified h = rw verified (rw h refl)

-- The test of the schema reads the schema only.
pub verify_schema-same :
    (db db' : Database)
    → db'.schema ≡ db.schema
    → verify_schema db ≡ ok (tt, db)
    → verify_schema db' ≡ ok (tt, db')
unfolding verify_schema ◌>>=◌
verify_schema-same db db' same h = rw same (ground arith)
