-- ===== src/Coordinator/Windows.antt =====
-- Starts that go up, and when the rolling window has room for one more.
use system_trade_with_llm_or.Prelude.{
  ℕ, suc, ◌+◌, ◌-◌, ◌≤◌, ◌<◌, ◌≡◌, refl, true, Option, none, some, List, ◌∷◌, [], ◌++◌, ltb, leb,
  Bool-cases, arith, inl, inr, length, All, All-map,
}
use mathlib.Core.Logic.{◌↔◌}
use mathlib.Core.List.{append_assoc}
use system_trade_with_llm_or.Sources.Binding.{Limits}
use system_trade_with_llm_or.Coordinator.Gates.{interval_wait, window_wait, active, from_end}
use system_trade_with_llm_or.Coordinator.Pace.{IsPaced, IsAscending, active-active}

All-middle : (P : ℕ → Type 0) (pre : List ℕ) (x : ℕ) (mid : List ℕ) → All P (pre ++ (x ∷ mid)) → P x
All-middle P [] x mid h = h.0
All-middle P (y ∷ ys) x mid h = All-middle P ys x mid h.1

IsPaced-above :
    (l : Limits) (pre : List ℕ) (x : ℕ) (mid times : List ℕ)
    → IsPaced l (pre ++ (x ∷ mid)) times
    → All (λ y. x ≤ y) times
IsPaced-above l pre x mid [] h = tt
IsPaced-above l pre x mid (t ∷ ts) h =
    let apart = All-middle (λ u. u + l.min_interval ≤ t) pre x mid h.0.0 in
    (omega arith, IsPaced-above l pre x (mid ++ (t ∷ [])) ts (rw append_assoc at (h.1)))

pub IsPaced-IsAscending :
    (l : Limits) (before times : List ℕ) → IsPaced l before times → IsAscending times
IsPaced-IsAscending l before [] h = tt
IsPaced-IsAscending l before (t ∷ ts) h =
    (IsPaced-above l before t [] ts h.1, IsPaced-IsAscending l (before ++ (t ∷ [])) ts h.1)

module _ (window later : ℕ) where
  active-All : (P : ℕ → Type 0) (xs : List ℕ) → All P xs → All P (active window later xs)
  active-All P [] h = tt
  active-All P (x ∷ xs) h = elim (Bool-cases (ltb (later - x) window)) [
    | inl recent ↦ rw recent (h.0, active-All P xs h.1)
    | inr old ↦ rw old (active-All P xs h.1)
  ]

  active-IsAscending : (xs : List ℕ) → IsAscending xs → IsAscending (active window later xs)
  active-IsAscending [] h = tt
  active-IsAscending (x ∷ xs) h = elim (Bool-cases (ltb (later - x) window)) [
    | inl recent ↦ rw recent (active-All (λ y. x ≤ y) xs h.0, active-IsAscending xs h.1)
    | inr old ↦ rw old (active-IsAscending xs h.1)
  ]

  length-active : (xs : List ℕ) → length (active window later xs) ≤ length xs
  length-active [] = omega arith
  length-active (x ∷ xs) = ground (arith, length-active xs)

  -- After a start that is in the window all are.
  active_all :
      (x : ℕ) (xs : List ℕ)
      → ltb (later - x) window ≡ true
      → All (λ y. x ≤ y) xs
      → active window later xs ≡ xs
  active_all x [] h above = refl
  active_all x (y ∷ ys) h above = ground (arith, active_all x ys h above.1)

  from_end-tail : (n x : ℕ) (xs : List ℕ) → n ≤ length xs → from_end (x ∷ xs) n ≡ from_end xs n
  from_end-tail n x xs h =
      let e : suc (length xs) - n ≡ suc (length xs - n) = omega arith in rw e refl

  from_end-head : (n x : ℕ) (xs : List ℕ) → length xs < n → from_end (x ∷ xs) n ≡ x
  from_end-head n x xs h = let e : suc (length xs) - n ≡ 0 = omega arith in rw e refl

  -- The window has room for one more start when the n-th from the end has left it.
  HasRoom : ℕ → List ℕ → ℕ → Type 0
  HasRoom n starts start = (length starts < n) ↔ (start + window ≤ later)

  room-head :
      (n x : ℕ) (xs : List ℕ)
      → n ≤ length (x ∷ xs)
      → length xs < n
      → x ≤ later
      → All (λ y. x ≤ y) xs
      → HasRoom n (active window later (x ∷ xs)) x
  unfolding HasRoom
  room-head n x xs full short past above = elim (Bool-cases (ltb (later - x) window)) [
    | inl recent ↦
        rw (recent, active_all x xs recent above)
          ((λ (h : length (x ∷ xs) < n). omega arith), (λ (h : x + window ≤ later). ground arith))
    | inr old ↦
        let fewer = length-active xs in
        rw old (
          (λ (h : length (active window later xs) < n). ground arith),
          (λ (h : x + window ≤ later). omega arith),
        )
  ]

  room-tail :
      (n x : ℕ) (xs : List ℕ) (start : ℕ)
      → n ≤ length xs
      → All (λ y. x ≤ y) xs
      → HasRoom n (active window later xs) start
      → HasRoom n (active window later (x ∷ xs)) start
  unfolding HasRoom
  room-tail n x xs start full above ih = elim (Bool-cases (ltb (later - x) window)) [
    | inr old ↦ rw old ih
    | inl recent ↦
        let whole = active_all x xs recent above in
        let back = rw whole at ih in
        rw (recent, whole)
          (
            (λ (h : length (x ∷ xs) < n). absurd (omega arith)),
            (λ (h : start + window ≤ later). absurd (omega (arith, back.1 h))),
          )
  ]

  room :
      (n : ℕ) (xs : List ℕ)
      → 0 < n
      → n ≤ length xs
      → IsAscending xs
      → All (λ x. x ≤ later) xs
      → HasRoom n (active window later xs) (from_end xs n)
  room n [] positive full up past = absurd (omega arith)
  room n (x ∷ xs) positive full up past = elim (Bool-cases (leb n (length xs))) [
    | inl enough ↦
        let rest : n ≤ length xs = ground arith in
        rw (from_end-tail n x xs rest)
          (room-tail n x xs (from_end xs n) rest up.0 (room n xs positive rest up.1 past.1))
    | inr short ↦
        let head : length xs < n = ground arith in
        rw (from_end-head n x xs head) (room-head n x xs full head past.0 up.0)
  ]

pub window_exact :
    (l : Limits) (now later : ℕ) (xs : List ℕ)
    → 0 < l.rate_requests
    → now ≤ later
    → IsAscending xs
    → All (λ x. x ≤ now) xs
    → (length (active l.rate_window later xs) < l.rate_requests)
      ↔ (now + window_wait l now (active l.rate_window now xs) ≤ later)
unfolding HasRoom
window_exact l now later xs positive order up past =
    let n = l.rate_requests in
    let kept = active l.rate_window now xs in
    let again = active-active l.rate_window now later xs order in
    let fewer = length-active l.rate_window later kept in
    elim (Bool-cases (leb n (length kept))) [
      | inr short ↦
          let less : length (active l.rate_window later xs) < n = rw (← again) (ground arith) in
          rw short ((λ _. omega arith), (λ _. less))
      | inl full ↦
          let enough : n ≤ length kept = ground arith in
          let exact =
            room l.rate_window later n kept positive enough
              (active-IsAscending l.rate_window now xs up)
              (All-map _ _ kept (λ x (h : x ≤ now). omega arith)
                (active-All l.rate_window now (λ x. x ≤ now) xs past)) in
          let at_end = rw again at exact in
          rw full (
            (λ (h : length (active l.rate_window later xs) < n). omega (arith, at_end.0 h)),
            (λ (h : now + (from_end kept n + l.rate_window - now) ≤ later). at_end.1 (omega arith)),
          )
    ]

pub window_open :
    (l : Limits) (later : ℕ) (xs : List ℕ)
    → length (active l.rate_window later xs) < l.rate_requests
    → window_wait l later (active l.rate_window later xs) ≡ 0
window_open l later xs h = ground arith

pub interval_exact :
    (interval now later : ℕ) (last_start : Option ℕ)
    → now ≤ later
    → (interval_wait interval later last_start ≡ 0)
      ↔ (now + interval_wait interval now last_start ≤ later)
interval_exact interval now later none order = ((λ _. omega arith), (λ _. refl))
interval_exact interval now later (some s) order = (
  (λ (h : s + interval - later ≡ 0). omega arith),
  (λ (h : now + (s + interval - now) ≤ later). omega arith),
)
