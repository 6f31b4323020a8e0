-- ===== src/Coordinator/Rates.antt =====
-- Any sequence of attempts, nested ones included, keeps each rate domain's limits, and the gates
-- decide by the starts that they keep as they would by all starts.
use system_trade_with_llm_or.Prelude.{
  ℕ, ◌+◌, ◌≤◌, ◌≡◌, refl, sym, false, Option, none, some, List, ◌∷◌, [], arith, inl, inr, All, last,
}
use mathlib.Core.Logic.{◌↔◌}
use mathlib.Core.Path.{subst}
use system_trade_with_llm_or.Schema.{Identifier}
use system_trade_with_llm_or.Sources.Binding.{SourceBinding}
use system_trade_with_llm_or.Coordinator.Events.{CoordinatorRequest}
use system_trade_with_llm_or.Coordinator.Gates.{
  Domain, World, lookup, initial, is_before, remaining, is_blocked, interval_wait,
}
use system_trade_with_llm_or.Coordinator.Pace.{times_of, IsPaced, IsPermitted, last-cons}
use system_trade_with_llm_or.Coordinator.Results.{Ticket}
use system_trade_with_llm_or.Coordinator.Begin.{sends, Supply, begin, start}
use system_trade_with_llm_or.Coordinator.Attempts.{
  Call, call, Calls, done, then_call, attempt, attempts,
}
use system_trade_with_llm_or.Coordinator.Ready.{
  begin-sends, Begun-cases, attempt-returns, attempt-sends,
}
use system_trade_with_llm_or.Coordinator.Sound.{
  IsSound, IsTracked, Tracks, initial-IsSound, start-IsSound, finish-IsSound, ready-Tracks,
  open-IsPermitted, IsUpTo-later,
}

mutual
  unfolding attempt

  attempt-IsSound : (c : Call) (w : World) → IsSound w → IsSound (attempt c w).0
  attempt-IsSound (call request binding supply nested reply reading) w sound =
      elim (Begun-cases (begin request binding supply w)) [
        | inl (r, same) ↦
            let runs = attempt-returns request binding supply nested reply reading w r same in
            subst (λ o. IsSound o.0) (sym runs) sound
        | inr (t, same) ↦
            let ready = begin-sends request binding supply w t same in
            let during = attempts-IsSound nested (start t w) (start-IsSound t w ready sound) in
            let runs = attempt-sends request binding supply nested reply reading w t same in
            subst (λ o. IsSound o.0) (sym runs)
              (finish-IsSound t reply reading (attempts nested (start t w))
                (ready-Tracks t w ready sound).positive during)
      ]

  attempts-IsSound : (cs : Calls) (w : World) → IsSound w → IsSound (attempts cs w)
  attempts-IsSound done w sound = sound
  attempts-IsSound (then_call c cs) w sound =
      attempts-IsSound cs (attempt c w).0 (attempt-IsSound c w sound)

-- The states of a coordinator: between attempts, and while one is sending.
pub data Reached : World → Type 0 where
  initially : Reached initial
  attempted : {w : World} (c : Call) → Reached w → Reached (attempt c w).0
  sending :
      {w : World} (request : Option CoordinatorRequest) (binding : Option SourceBinding)
      (supply : Supply) (t : Ticket)
      → begin request binding supply w ≡ sends t
      → Reached w
      → Reached (start t w)

pub Reached-IsSound : {w : World} → Reached w → IsSound w
Reached-IsSound initially = initial-IsSound
Reached-IsSound (attempted {w} c r) = attempt-IsSound c w (Reached-IsSound r)
Reached-IsSound (sending {w} request binding supply t e r) =
    start-IsSound t w (begin-sends request binding supply w t e) (Reached-IsSound r)

-- A rate domain that has sent nothing, or one that has kept its limits.
abbrev pub IsWithinLimits : Option Domain → List ℕ → Type 0
IsWithinLimits none times = times ≡ []
IsWithinLimits (some d) times = IsPaced d.limits [] times

within :
    (o : Option Domain) (last_clock : Option ℕ) (times : List ℕ)
    → IsTracked o last_clock times
    → IsWithinLimits o times
within none last_clock times h = h
within (some d) last_clock times h = h.paced

-- In every state that is reached, while an attempt is sending too, each call that the transport
-- has had in a rate domain was permitted by the domain's limits after the calls before it: the
-- minimum interval had gone by since each of them, and fewer than the permitted number lay in the
-- window that ended with it.
pub sends_are_paced :
    (w : World) (key : Identifier)
    → Reached w
    → IsWithinLimits (lookup key w.domains) (times_of key w.sent)
sends_are_paced w key r = within _ _ _ (Reached-IsSound r key)

-- What the limits, the cooldown and the occupancy ask of a start, by all starts so far.
abbrev pub IsAllowed : Domain → List ℕ → ℕ → Type 0
IsAllowed d times now = (d.occupied ≡ false) × (d.cooldown ≤ now) × IsPermitted d.limits times now

All-last {κ} : (P : ℕ → Type κ) (xs : List ℕ) (x : ℕ) → last xs ≡ some x → All P xs → P x
All-last P [] x e h = absurd (cc)
All-last P (y ∷ []) x e h = let same : y ≡ x = ground arith in subst P same h.0
All-last P (y ∷ z ∷ zs) x e h = All-last P (z ∷ zs) x e h.1

interval_over :
    (interval now : ℕ) (times : List ℕ)
    → All (λ u. u + interval ≤ now) times
    → interval_wait interval now (last times) ≡ 0
interval_over interval now [] h = refl
interval_over interval now (x ∷ xs) h =
    let (s, found) = last-cons x xs in
    let over = All-last (λ u. u + interval ≤ now) (x ∷ xs) s found h in rw found (omega arith)

module _ (d : Domain) (last_clock : Option ℕ) (now : ℕ) (times : List ℕ) where
  open-IsAllowed :
      is_before now last_clock ≡ false
      → Tracks d last_clock times
      → is_blocked (remaining d now) ≡ false
      → IsAllowed d times now
  unfolding remaining
  open-IsAllowed in_order t clear =
      (ground arith, ground arith, open-IsPermitted d last_clock now times in_order clear t)

  allowed_opens :
      is_before now last_clock ≡ false
      → Tracks d last_clock times
      → IsAllowed d times now
      → is_blocked (remaining d now) ≡ false
  unfolding remaining
  allowed_opens in_order t (idle, cool, (apart, room)) =
      let last_over = interval_over d.limits.min_interval now times apart in
      let same = t.recent now (IsUpTo-later last_clock now times in_order t.up_to) in
      rw (t.latest, same, idle) (ground arith)

-- The gates keep only the starts that lay in the window at the last start, and refine the rule on
-- the whole past: in every state that is reached, at a reading of the clock that is not before the
-- last, they are open exactly where the domain is idle, its cooldown is over, and the limits permit
-- a start after all calls that the transport has had in the domain.
pub gates_refine_history :
    (w : World) (key : Identifier) (d : Domain) (now : ℕ)
    → Reached w
    → lookup key w.domains ≡ some d
    → is_before now w.last_clock ≡ false
    → (is_blocked (remaining d now) ≡ false) ↔ IsAllowed d (times_of key w.sent) now
gates_refine_history w key d now r found in_order =
    let t =
      subst (λ o. IsTracked o w.last_clock (times_of key w.sent)) found (Reached-IsSound r key) in
    (open-IsAllowed d w.last_clock now _ in_order t, allowed_opens d w.last_clock now _ in_order t)
