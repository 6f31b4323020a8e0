-- ===== src/Coordinator/Pace.antt =====
-- What the gates promise of the times at which a rate domain's attempts were sent, and the facts on
-- lists of times that the coordinator's proofs share.
use system_trade_with_llm_or.Prelude.{
  ℕ, zero, suc, ◌+◌, ◌-◌, ◌≤◌, ◌<◌, ◌≡◌, refl, some, List, [], ◌∷◌, ◌++◌, ◌==◌, ltb, leb,
  if◌then◌else◌, Bool-cases, length, All, last, arith, inl, inr,
}
use mathlib.Core.List.{append_assoc, append-nil}
use system_trade_with_llm_or.Schema.{Identifier}
use system_trade_with_llm_or.Sources.Binding.{Limits}
use system_trade_with_llm_or.Coordinator.Gates.{Sent, active, get_or, window_wait}

-- The times of a rate domain's calls of `transport.send`, oldest first.
abbrev pub times_of : Identifier → List Sent → List ℕ
times_of key [] = []
times_of key (s ∷ ss) =
    let rest = times_of key ss in if s.rate_domain == key then s.at ∷ rest else rest

-- A start at `t` keeps the limits after the starts `before`: the minimum interval has gone by since
-- each of them, and fewer than the permitted number lie in the window that ends at `t`.
abbrev pub IsPermitted : Limits → List ℕ → ℕ → Type 0
IsPermitted l before t =
    All (λ u. u + l.min_interval ≤ t) before
    × (length (active l.rate_window t before) < l.rate_requests)

-- Each of the starts was permitted after those before it.
abbrev pub IsPaced : Limits → List ℕ → List ℕ → Type 0
IsPaced l before [] = Unit
IsPaced l before (t ∷ ts) = IsPermitted l before t × IsPaced l (before ++ (t ∷ [])) ts

pub IsPaced-snoc :
    (l : Limits) (before ts : List ℕ) (t : ℕ)
    → IsPaced l before ts
    → IsPermitted l (before ++ ts) t
    → IsPaced l before (ts ++ (t ∷ []))
IsPaced-snoc l before [] t h p = (rw append-nil at p, tt)
IsPaced-snoc l before (s ∷ ts) t h p =
    (h.0, IsPaced-snoc l (before ++ (s ∷ [])) ts t h.1 (rw append_assoc p))

-- The times go up.
abbrev pub IsAscending : List ℕ → Type 0
IsAscending [] = Unit
IsAscending (x ∷ xs) = All (λ y. x ≤ y) xs × IsAscending xs

pub times_of-append :
    (key : Identifier) (xs ys : List Sent)
    → times_of key (xs ++ ys) ≡ times_of key xs ++ times_of key ys
times_of-append key [] ys = refl
times_of-append key (x ∷ xs) ys = ground (arith, times_of-append key xs ys)

pub active-append :
    (window now : ℕ) (xs ys : List ℕ)
    → active window now (xs ++ ys) ≡ active window now xs ++ active window now ys
active-append window now [] ys = refl
active-append window now (x ∷ xs) ys = ground (arith, active-append window now xs ys)

-- What was dropped earlier is out of the window later too.
pub active-active :
    (window now later : ℕ) (xs : List ℕ)
    → now ≤ later
    → active window later (active window now xs) ≡ active window later xs
active-active window now later [] h = refl
active-active window now later (x ∷ xs) h = ground (arith, active-active window now later xs h)

pub All-active : (window now : ℕ) (xs : List ℕ) → All (λ x. now - x < window) (active window now xs)
All-active window now [] = tt
All-active window now (x ∷ xs) = elim (Bool-cases (ltb (now - x) window)) [
  | inl recent ↦ rw recent (ground arith, All-active window now xs)
  | inr old ↦ rw old (All-active window now xs)
]

All-get_or {κ} :
    (P : ℕ → Type κ) (xs : List ℕ) (i otherwise : ℕ)
    → i < length xs
    → All P xs
    → P (get_or xs i otherwise)
All-get_or P [] i otherwise h a = absurd (omega arith)
All-get_or P (x ∷ xs) zero otherwise h a = a.0
All-get_or P (x ∷ xs) (suc i) otherwise h a = All-get_or P xs i otherwise (omega arith) a.1

-- Where no wait is left, the window has room.
pub window_room :
    (l : Limits) (now : ℕ) (xs : List ℕ)
    → 0 < l.rate_requests
    → window_wait l now (active l.rate_window now xs) ≡ 0
    → length (active l.rate_window now xs) < l.rate_requests
window_room l now xs positive none_left =
    elim (Bool-cases (leb l.rate_requests (length (active l.rate_window now xs)))) [
      | inr room ↦ ground arith
      | inl full ↦
          let recent =
            All-get_or (λ x. now - x < l.rate_window) (active l.rate_window now xs)
              (length (active l.rate_window now xs) - l.rate_requests) 0 (ground arith)
              (All-active l.rate_window now xs) in
          absurd (ground arith)
    ]

pub last-snoc {ℓ} : {A : Type ℓ} (xs : List A) (x : A) → last (xs ++ (x ∷ [])) ≡ some x
last-snoc [] x = refl
last-snoc (y ∷ []) x = refl
last-snoc (y ∷ z ∷ zs) x = last-snoc (z ∷ zs) x

pub last-cons {ℓ} : {A : Type ℓ} (x : A) (xs : List A) → (y : A) × (last (x ∷ xs) ≡ some y)
last-cons x [] = (x, refl)
last-cons x (y ∷ ys) = last-cons y ys

pub All-prefix {κ} : (P : ℕ → Type κ) (xs ys : List ℕ) → All P (xs ++ ys) → All P xs
All-prefix P [] ys h = tt
All-prefix P (x ∷ xs) ys h = (h.0, All-prefix P xs ys h.1)

pub All-head {κ} : (P : ℕ → Type κ) (xs : List ℕ) (x : ℕ) → All P (xs ++ (x ∷ [])) → P x
All-head P [] x h = h.0
All-head P (y ∷ ys) x h = All-head P ys x h.1

-- Paced starts go up to the last one.
pub IsPaced-last :
    (l : Limits) (before times : List ℕ) (s : ℕ)
    → IsPaced l before times
    → last times ≡ some s
    → All (λ u. u ≤ s) times
IsPaced-last l before [] s h e = absurd (cc)
IsPaced-last l before (x ∷ []) s h e = ground arith
IsPaced-last l before (x ∷ y ∷ ys) s h e =
    let rest = IsPaced-last l (before ++ (x ∷ [])) (y ∷ ys) s h.1 e in
    let apart = All-head (λ u. u + l.min_interval ≤ y) before x h.1.0.0 in
    (omega (arith, rest.0, apart), rest)
