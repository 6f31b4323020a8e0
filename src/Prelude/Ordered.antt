-- ===== src/Prelude/Ordered.antt =====
-- ORDER BY … LIMIT 1: the first row of an ordered selection is a least one.
use mathlib.Core.Path.{◌≡◌, refl, sym, ap, ◌∙◌}
use mathlib.Core.Logic.{inl, inr}
use mathlib.Core.Bool.{Bool, true, false, not, ◌||◌}
use mathlib.Core.Option.{Option, none, some}
use mathlib.Core.List.{List, [], ◌∷◌}
use mathlib.Core.List.{Memᴰ}
use mathlib.Core.Path.{subst}
use native.Mathlib.Omega.{arith}
use system_trade_with_llm_or.Prelude.Tests.{if◌then◌else◌, Bool-cases, Option-cases}
use system_trade_with_llm_or.Prelude.Lists.{All, All-map}
use system_trade_with_llm_or.Prelude.Rows.{select, order_by, insert_before, first}

module _ {A : Type 0} where
  -- Every row that passes the test comes after `x`, or is level with it.
  abbrev pub IsLeastOf : (A → A → Bool) → (A → Bool) → A → List A → Type 0
  IsLeastOf le test x rows = All (λ y. (not (test y) || le x y) ≡ true) rows

  module _ (le : A → A → Bool) where
    pub record IsOrder : Type 0 where
      pub total : (x y : A) → le x y ≡ false → le y x ≡ true
      pub transitive : (x y z : A) → le x y ≡ true → le y z ≡ true → le x z ≡ true
      pub reflexive : (x : A) → le x x ≡ true

    pick : A → Option A → Option A
    pick x none = some x
    pick x (some y) = some (if le x y then x else y)

    first-insert : (x : A) (rows : List A) → first (insert_before le x rows) ≡ pick x (first rows)
    unfolding pick
    first-insert x [] = refl
    first-insert x (y ∷ rows) = ground arith

    least : (A → Bool) → List A → Option A
    unfolding pick
    least test [] = none
    least test (x ∷ rows) = let rest = least test rows in if test x then pick x rest else rest

    first-order_by :
        (test : A → Bool) (rows : List A) → first (order_by le (select test rows)) ≡ least test rows
    unfolding least
    first-order_by test [] = refl
    first-order_by test (x ∷ rows) = step (test x) (first-order_by test rows)
      where
        step :
            (b : Bool)
            → first (order_by le (select test rows)) ≡ least test rows
            → first (order_by le (if b then x ∷ select test rows else select test rows))
              ≡ (if b then pick x (least test rows) else least test rows)
        step true e = first-insert x (order_by le (select test rows)) ∙ ap (pick x) e
        step false e = e

    least-none :
        (test : A → Bool) (rows : List A) → least test rows ≡ none → All (λ y. test y ≡ false) rows
    unfolding least pick
    least-none test [] h = tt
    least-none test (x ∷ rows) h = elim (Bool-cases (test x)) [
      | inl passes ↦ absurd (ground arith)
      | inr fails ↦ (fails, least-none test rows (ground arith))
    ]

    fails-least : (test : A → Bool) (x y : A) → test y ≡ false → (not (test y) || le x y) ≡ true
    fails-least test x y h = ground arith

    all-fail :
        (test : A → Bool) (x : A) (rows : List A)
        → All (λ y. test y ≡ false) rows
        → IsLeastOf le test x rows
    all-fail test x rows h = All-map _ _ rows (λ y. fails-least test x y) h

    -- The row passes the test, is in the table, and comes before every other that passes.
    abbrev pub IsFirst : (A → Bool) → List A → A → Type 0
    IsFirst test rows x = (test x ≡ true) × Memᴰ x rows × IsLeastOf le test x rows

    module _ (o : IsOrder) where
      below :
          (test : A → Bool) (x y : A) (rows : List A)
          → le x y ≡ true
          → IsLeastOf le test y rows
          → IsLeastOf le test x rows
      below test x y rows xy h = All-map _ _ rows (λ z k. ground (arith, o.transitive x y z)) h

      least-some :
          (test : A → Bool) (rows : List A) (x : A) → least test rows ≡ some x → IsFirst test rows x
      unfolding least pick
      least-some test [] x h = absurd (cc)
      least-some test (y ∷ rows) x h = elim (Bool-cases (test y)) [
        | inl passes ↦ elim (Option-cases (least test rows)) [
          | inl nothing ↦
              let same : y ≡ x = ground arith in
              subst (IsFirst test (y ∷ rows)) same (
                passes,
                Memᴰ.head refl,
                (
                  ground (arith, o.reflexive y),
                  all-fail test y rows (least-none test rows nothing),
                ),
              )
          | inr found ↦
              let (z, is_least) = found in
              let (z_passes, z_member, z_least) = least-some test rows z is_least in
              elim (Bool-cases (le y z)) [
                | inl yz ↦
                    let same : y ≡ x = ground arith in
                    subst (IsFirst test (y ∷ rows)) same (
                      passes,
                      Memᴰ.head refl,
                      (ground (arith, o.reflexive y), below test y z rows yz z_least),
                    )
                | inr zy ↦
                    let same : z ≡ x = ground arith in
                    subst (IsFirst test (y ∷ rows)) same
                      (z_passes, Memᴰ.tail z_member, (ground (arith, o.total y z zy), z_least))
              ]
        ]
        | inr fails ↦
            let (x_passes, x_member, x_least) = least-some test rows x (ground arith) in
            (x_passes, Memᴰ.tail x_member, (ground arith, x_least))
      ]

      -- ORDER BY … LIMIT 1
      pub first-IsFirst :
          (test : A → Bool) (rows : List A) (x : A)
          → first (order_by le (select test rows)) ≡ some x
          → IsFirst test rows x
      first-IsFirst test rows x h = least-some test rows x (sym (first-order_by test rows) ∙ h)
