-- ===== src/Prelude/Rows.antt =====
-- What SQL statements do to a table, as functions on the list of its rows in insertion order.
use Prim.Native.Nat.{ℕ, suc, ◌+◌}
use mathlib.Core.Path.{◌≡◌, refl}
use mathlib.Core.Bool.{Bool, true, false, ◌||◌}
use mathlib.Core.Option.{Option, none, some}
use mathlib.Core.List.{List, [], ◌∷◌, ◌++◌}
use native.Mathlib.Omega.{arith}
use system_trade_with_llm_or.Prelude.Tests.{if◌then◌else◌}

module _ {ℓ} {A : Type ℓ} where
  -- SELECT … WHERE test, the first row
  abbrev pub find : (A → Bool) → List A → Option A
  find test [] = none
  find test (x ∷ xs) = if test x then some x else find test xs

  -- EXISTS (SELECT 1 … WHERE test)
  abbrev pub any : (A → Bool) → List A → Bool
  any test [] = false
  any test (x ∷ xs) = test x || any test xs

  -- SELECT COUNT(*) … WHERE test
  abbrev pub count_if : (A → Bool) → List A → ℕ
  count_if test [] = 0
  count_if test (x ∷ xs) = let rest = count_if test xs in if test x then suc rest else rest

  -- SELECT … WHERE test, every row
  abbrev pub select : (A → Bool) → List A → List A
  select test [] = []
  select test (x ∷ xs) = let rest = select test xs in if test x then x ∷ rest else rest

  -- UPDATE … SET change WHERE test
  abbrev pub update_where : (A → Bool) → (A → A) → List A → List A
  update_where test change [] = []
  update_where test change (x ∷ xs) = (if test x then change x else x) ∷ update_where test change xs

  -- DELETE … WHERE test
  abbrev pub delete_where : (A → Bool) → List A → List A
  delete_where test [] = []
  delete_where test (x ∷ xs) = let rest = delete_where test xs in if test x then rest else x ∷ rest

  abbrev pub insert_before : (A → A → Bool) → A → List A → List A
  insert_before le x [] = x ∷ []
  insert_before le x (y ∷ ys) = if le x y then x ∷ y ∷ ys else y ∷ insert_before le x ys

  -- ORDER BY, stable
  abbrev pub order_by : (A → A → Bool) → List A → List A
  order_by le [] = []
  order_by le (x ∷ xs) = insert_before le x (order_by le xs)

  abbrev pub first : List A → Option A
  first [] = none
  first (x ∷ xs) = some x

  abbrev pub last : List A → Option A
  last [] = none
  last (x ∷ []) = some x
  last (x ∷ y ∷ ys) = last (y ∷ ys)

  pub count_if-append :
      (test : A → Bool) (xs ys : List A)
      → count_if test (xs ++ ys) ≡ count_if test xs + count_if test ys
  count_if-append test [] ys = omega arith
  count_if-append test (x ∷ xs) ys = ground (arith, count_if-append test xs ys)

  pub find-append :
      (test : A → Bool) (xs ys : List A)
      → find test (xs ++ ys) ≡ (elim (find test xs) [ none ↦ find test ys | some x ↦ some x ])
  find-append test [] ys = refl
  find-append test (x ∷ xs) ys = ground (arith, find-append test xs ys)

  pub find_sound : (test : A → Bool) (xs : List A) (x : A) → find test xs ≡ some x → test x ≡ true
  find_sound test [] x h = ground arith
  find_sound test (y ∷ ys) x h = ground (arith, find_sound test ys x)
