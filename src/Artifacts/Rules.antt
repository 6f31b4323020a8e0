-- ===== src/Artifacts/Rules.antt =====
-- Rules for what holds after code with failures and crashes: `Triple P m Q R` says that from a state
-- with `P`, `m` returns in one with `Q`, or raises or crashes in one with `R`.
use system_trade_with_llm_or.Prelude.{Bool, true, false, ◌≡◌, refl, List, [], ◌∷◌, if◌then◌else◌}
use system_trade_with_llm_or.Schema.{Database}
use system_trade_with_llm_or.Schema.Codes.{Code}
use system_trade_with_llm_or.Tx.{Result, ok, err, Operation}
use system_trade_with_llm_or.Artifacts.Disk.{Disk}
use system_trade_with_llm_or.Artifacts.Io.{
  World, Fate, works, fails, dies, Failure, os_error, storage_failed, Ending, returns, raised,
  crashed, Io, pure, raise, gets, decide, answer, continue, handle, call_repository, call_os,
  raise_if, ◌>>=◌, catch,
}

abbrev pub Post : {A : Type 0} → (A → World → Type 0) → (World → Type 0) → Ending A × World → Type 0
Post Q R (returns a, w) = Q a w
Post Q R (raised e, w) = R w
Post Q R (crashed, w) = R w

pub record Triple {A : Type 0} (P : World → Type 0) (m : Io A) (Q : A → World → Type 0)
    (R : World → Type 0) : Type 0 where
  pub from : (w : World) → P w → Post Q R (m w)

module _ {A : Type 0} {P R : World → Type 0} where
  pub Triple-pure :
      (a : A) {Q : A → World → Type 0} → ((w : World) → P w → Q a w) → Triple P (pure a) Q R
  unfolding pure
  Triple-pure a h = record { from = λ w p. h w p }

  pub Triple-raise :
      (e : Failure) {Q : A → World → Type 0} → ((w : World) → P w → R w) → Triple P (raise e) Q R
  unfolding raise
  Triple-raise e h = record { from = λ w p. h w p }

  -- A value that is read is known to be that of the state.
  pub Triple-gets : (f : World → A) → Triple P (gets f) (λ a w. P w × (a ≡ f w)) R
  unfolding gets
  Triple-gets f = record { from = λ w p. (p, refl) }

  pub Triple-bind :
      {B : Type 0} {Q : A → World → Type 0} {S : B → World → Type 0} (m : Io A) (f : A → Io B)
      → Triple P m Q R
      → ((a : A) → Triple (Q a) (f a) S R)
      → Triple P (m >>= f) S R
  unfolding ◌>>=◌
  Triple-bind {B} {Q} {S} m f hm hf = record { from = λ w p. step (m w) (hm.from w p) }
    where
      step : (o : Ending A × World) → Post Q R o → Post S R (continue o f)
      step (returns a, v) h = (hf a).from v h
      step (raised e, v) h = h
      step (crashed, v) h = h

  pub Triple-catch :
      {Q : A → World → Type 0} {H : World → Type 0} (m : Io A) (f : Failure → Io A)
      → Triple P m Q H
      → ((e : Failure) → Triple H (f e) Q R)
      → ((w : World) → H w → R w)
      → Triple P (catch m f) Q R
  unfolding catch
  Triple-catch {Q} {H} m f hm hf weaken = record { from = λ w p. step (m w) (hm.from w p) }
    where
      step : (o : Ending A × World) → Post Q H o → Post Q R (handle o f)
      step (returns a, v) h = h
      step (raised e, v) h = (hf e).from v h
      step (crashed, v) h = weaken v h

  pub Triple-weaken :
      {P' : World → Type 0} {Q Q' : A → World → Type 0} (m : Io A)
      → ((w : World) → P' w → P w)
      → ((a : A) (w : World) → Q a w → Q' a w)
      → Triple P m Q R
      → Triple P' m Q' R
  Triple-weaken {P'} {Q} {Q'} m pre post h = record {
    from = λ w p. step (m w) (h.from w (pre w p));
  }
    where
      step : (o : Ending A × World) → Post Q R o → Post Q' R o
      step (returns a, v) k = post a v k
      step (raised e, v) k = k
      step (crashed, v) k = k

  pub Triple-call_repository :
      {Q : A → World → Type 0} (op : Operation A)
      → ((w : World) (fates : List Fate) (a : A) (db : Database)
          → op w.db ≡ (ok a, db)
          → P w
          → Q a (record w { db = db; fates = fates }))
      → ((w : World) (fates : List Fate) (c : Code) (db : Database)
          → op w.db ≡ (err c, db)
          → P w
          → R (record w { db = db; fates = fates }))
      → ((w : World) (fates : List Fate) → P w → R (record w { fates = fates }))
      → Triple P (call_repository op) Q R
  unfolding call_repository
  Triple-call_repository {Q} op good bad weaken = record { from = λ w p. step w p w.fates }
    where
      run :
          (w : World) (fates : List Fate)
          → P w
          → (r : Result Code A × Database) → op w.db ≡ r
          → Post Q R (answer r (record w { fates = fates }))
      run w fates p (ok a, db) e = good w fates a db e p
      run w fates p (err c, db) e = bad w fates c db e p

      step :
          (w : World)
          → P w
          → (fates : List Fate)
          → Post Q R (decide storage_failed fates (λ v. answer (op v.db) v) (λ v. v) w)
      step w p [] = run w w.fates p (op w.db) refl
      step w p (works ∷ rest) = run w rest p (op w.db) refl
      step w p (fails ∷ rest) = weaken w rest p
      step w p (dies ∷ rest) = weaken w rest p

module _ {P R : World → Type 0} where
  pub Triple-call_os :
      {Q : World → Type 0} (change spoil : Disk → Disk)
      → ((w : World) (fates : List Fate)
          → P w
          → Q (record w { disk = change w.disk; fates = fates }))
      → ((w : World) (fates : List Fate)
          → P w
          → R (record w { disk = spoil w.disk; fates = fates }))
      → Triple P (call_os change spoil) (λ _. Q) R
  unfolding call_os
  Triple-call_os {Q} change spoil good bad = record { from = λ w p. step w p w.fates }
    where
      step :
          (w : World)
          → P w
          → (fates : List Fate)
          → Post
              (λ _. Q)
              R
              (decide os_error fates
                (λ v. (returns tt, record v { disk = change v.disk }))
                (λ v. record v { disk = spoil v.disk })
                w)
      step w p [] = good w w.fates p
      step w p (works ∷ rest) = good w rest p
      step w p (fails ∷ rest) = bad w rest p
      step w p (dies ∷ rest) = bad w rest p

  pub Triple-raise_if :
      (b : Bool) (e : Failure)
      → ((w : World) → P w → R w)
      → Triple P (raise_if b e) (λ _ w. P w × (b ≡ false)) R
  unfolding raise_if
  Triple-raise_if true e weaken = record { from = λ w p. weaken w p }
  Triple-raise_if false e weaken = record { from = λ w p. (p, refl) }

-- Two things that code does hold together.
pub Triple-both :
    {A : Type 0} {P P' R R' : World → Type 0} {Q Q' : A → World → Type 0} (m : Io A)
    → Triple P m Q R
    → Triple P' m Q' R'
    → Triple (λ w. P w × P' w) m (λ a w. Q a w × Q' a w) (λ w. R w × R' w)
Triple-both {A} {P} {P'} {R} {R'} {Q} {Q'} m h h' = record {
  from = λ w (p, p'). both (m w) (h.from w p) (h'.from w p');
}
  where
    both :
        (o : Ending A × World)
        → Post Q R o
        → Post Q' R' o
        → Post (λ a w. Q a w × Q' a w) (λ w. R w × R' w) o
    both (returns a, w) p p' = (p, p')
    both (raised e, w) p p' = (p, p')
    both (crashed, w) p p' = (p, p')

pub Triple-out :
    {A : Type 0} {P R R' : World → Type 0} {Q : A → World → Type 0} (m : Io A)
    → ((w : World) → R w → R' w)
    → Triple P m Q R
    → Triple P m Q R'
Triple-out {A} {P} {R} {R'} {Q} m weaken h = record { from = λ w p. out (m w) (h.from w p) }
  where
    out : (o : Ending A × World) → Post Q R o → Post Q R' o
    out (returns a, w) p = p
    out (raised e, w) p = weaken w p
    out (crashed, w) p = weaken w p

pub Triple-if :
    {A : Type 0} {P R : World → Type 0} {Q : A → World → Type 0} (b : Bool) (m n : Io A)
    → Triple P m Q R
    → Triple P n Q R
    → Triple P (if b then m else n) Q R
Triple-if true m n hm hn = hm
Triple-if false m n hm hn = hn
