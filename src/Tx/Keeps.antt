-- ===== src/Tx/Keeps.antt =====
-- Invariants of code inside a block: one rule for each way to build it.
use system_trade_with_llm_or.Prelude.{
  ℕ, ◌==◌, ==→eq, Bool-cases, inl, inr, arith, ◌≡◌, refl, Bool, true, false, Option, none, some,
  List, [], ◌∷◌, if◌then◌else◌, sym, ap, ◌∙◌,
}
use mathlib.Core.Path.{subst}
use system_trade_with_llm_or.Schema.{Database}
use system_trade_with_llm_or.Schema.Codes.{Code}
use system_trade_with_llm_or.Tx.{
  Tx, Error, Result, ok, err, pure, raise, gets, require, modify, raise_if, constraint, ◌>>=◌,
  >>=-eq-ok, when, for_each, insert_if, update_one, transaction, transaction-atomic,
  transaction-eq-ok,
}

-- When `m` goes through, the database that it leaves satisfies `P` if the one before it did.
pub record Keeps {ℓ} {A : Type 0} (P : Database → Type ℓ) (m : Tx A) : Type ℓ where
  pub at : (db : Database) → P db → (a : A) (db' : Database) → m db ≡ ok (a, db') → P db'

-- What two equal results say of their databases.
pub same_database :
    {A : Type 0} {a b : A} {db db' : Database}
    → ◌≡◌ {A = Result Error (A × Database)} (ok (a, db)) (ok (b, db'))
    → db ≡ db'
same_database e = cc

module _ {ℓ} {A : Type 0} {P : Database → Type ℓ} where
  pub Keeps-pure : (a : A) → Keeps P (pure a)
  unfolding pure
  Keeps-pure a = record { at = λ db h b db' e. subst P (same_database e) h }

  pub Keeps-raise : (c : Code) → Keeps P (raise {A = A} c)
  unfolding raise
  Keeps-raise c = record { at = λ db h b db' e. absurd (cc) }

  pub Keeps-gets : (f : Database → A) → Keeps P (gets f)
  unfolding gets
  Keeps-gets f = record { at = λ db h b db' e. subst P (same_database e) h }

  pub Keeps-require : (o : Option A) (c : Code) → Keeps P (require o c)
  unfolding require
  Keeps-require none c = record { at = λ db h b db' e. absurd (cc) }
  Keeps-require (some a) c = record { at = λ db h b db' e. subst P (same_database e) h }

module _ {ℓ} {P : Database → Type ℓ} where
  pub Keeps-modify :
      (f : Database → Database) → ((db : Database) → P db → P (f db)) → Keeps P (modify f)
  unfolding modify
  Keeps-modify f k = record { at = λ db h b db' e. subst P (same_database e) (k db h) }

  pub Keeps-raise_if : (b : Bool) (c : Code) → Keeps P (raise_if b c)
  unfolding raise_if
  Keeps-raise_if true c = record { at = λ db h b db' e. absurd (cc) }
  Keeps-raise_if false c = record { at = λ db h b db' e. subst P (same_database e) h }

  pub Keeps-constraint : (b : Bool) → Keeps P (constraint b)
  unfolding constraint
  Keeps-constraint true = record { at = λ db h b db' e. subst P (same_database e) h }
  Keeps-constraint false = record { at = λ db h b db' e. absurd (cc) }

  pub Keeps-when : (b : Bool) (m : Tx (Unit {0})) → Keeps P m → Keeps P (when b m)
  unfolding when pure
  Keeps-when true m k = k
  Keeps-when false m k = Keeps-pure tt

  -- The rules for one INSERT or UPDATE: what its test has shown may be used.
  pub Keeps-insert_if :
      (fits : Database → Bool) (f : Database → Database)
      → ((db : Database) → fits db ≡ true → P db → P (f db))
      → Keeps P (insert_if fits f)
  unfolding insert_if ◌>>=◌
  Keeps-insert_if fits f k = record {
    at = λ db h b db' e. elim (Bool-cases (fits db)) [
      | inl yes_fits ↦ subst P (ground arith) (k db yes_fits h)
      | inr not_fits ↦ absurd (ground arith)
    ];
  }

  pub Keeps-update_one :
      (count : Database → ℕ) (f : Database → Database) (refused : Code)
      → ((db : Database) → count db ≡ 1 → P db → P (f db))
      → Keeps P (update_one count f refused)
  unfolding update_one ◌>>=◌
  Keeps-update_one count f refused k = record {
    at = λ db h b db' e. elim (Bool-cases (count db == 1)) [
      | inl one ↦ subst P (ground arith) (k db (==→eq _ _ one) h)
      | inr other ↦ absurd (ground arith)
    ];
  }

module _ {ℓ} {A B : Type 0} {P : Database → Type ℓ} where
  pub Keeps-bind :
      (m : Tx A) (f : A → Tx B) → Keeps P m → ((a : A) → Keeps P (f a)) → Keeps P (m >>= f)
  Keeps-bind m f km kf = record {
    at = λ db h b db'' e.
        let (a, db', first, rest) = >>=-eq-ok m f db e in
        (kf a).at db' (km.at db h a db' first) b db'' rest;
  }

module _ {ℓ} {A : Type 0} {P : Database → Type ℓ} where
  pub Keeps-if : (b : Bool) (m n : Tx A) → Keeps P m → Keeps P n → Keeps P (if b then m else n)
  Keeps-if true m n km kn = km
  Keeps-if false m n km kn = kn

  pub Keeps-for_each :
      (xs : List A) (f : A → Tx (Unit {0})) → ((a : A) → Keeps P (f a)) → Keeps P (for_each xs f)
  unfolding for_each
  Keeps-for_each [] f k = Keeps-pure tt
  Keeps-for_each (x ∷ xs) f k = Keeps-bind (f x) _ (k x) (λ _. Keeps-for_each xs f k)

  -- A public method keeps what its block keeps, also where it raises.
  pub transaction-Keeps :
      (failed : Code) (m : Tx A)
      → Keeps P m
      → (db : Database) → P db
      → P (transaction failed m db).1
  transaction-Keeps failed m k db h = settled (transaction failed m db) refl
    where
      settled : (r : Result Code A × Database) → transaction failed m db ≡ r → P r.1
      settled (ok a, db') e = k.at db h a db' (transaction-eq-ok failed m db e)
      settled (err c, db') e =
          subst P (sym (transaction-atomic failed m db c (ap (λ t. t.0) e)) ∙ ap (λ t. t.1) e) h

pub ruleset keeps_rules = (
  Keeps-pure, Keeps-raise, Keeps-gets, Keeps-require, Keeps-raise_if, Keeps-constraint, Keeps-when,
  Keeps-bind, Keeps-if, Keeps-for_each,
)

pub returned :
    {A : Type 0} (a : A) (db : Database) {b : A} {db' : Database}
    → pure a db ≡ ok (b, db')
    → (a ≡ b) × (db ≡ db')
unfolding pure
returned a db h = (cc, same_database h)

-- What holds of every result of `m`, wherever it starts.
pub record Yields {ℓ} {A : Type 0} (Q : A → Database → Type ℓ) (m : Tx A) : Type ℓ where
  pub at : (db : Database) (a : A) (db' : Database) → m db ≡ ok (a, db') → Q a db'

pub Yields-bind {ℓ} :
    {A B : Type 0} {Q : B → Database → Type ℓ} (m : Tx A) (f : A → Tx B)
    → ((a : A) → Yields Q (f a))
    → Yields Q (m >>= f)
Yields-bind m f yf = record {
  at = λ db b db'' e. let (a, db', first, rest) = >>=-eq-ok m f db e in (yf a).at db' b db'' rest;
}
