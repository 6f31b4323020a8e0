-- ===== src/Coordinator/Reentry.antt =====
-- While an attempt is sending, the attempts that its transport makes cannot send in its rate domain.
use system_trade_with_llm_or.Prelude.{
  ℕ, ◌≡◌, refl, sym, ap, ◌∙◌, true, false, Option, none, some, List, Bool-cases, arith, inl, inr,
  ◌==◌, ==→eq, ==_refl,
}
use mathlib.Core.Path.{subst}
use mathlib.Core.List.{append-nil}
use system_trade_with_llm_or.Schema.{Identifier}
use system_trade_with_llm_or.Sources.Binding.{SourceBinding}
use system_trade_with_llm_or.Coordinator.Events.{CoordinatorRequest}
use system_trade_with_llm_or.Coordinator.Gates.{
  Domain, World, lookup, fresh, remaining, is_blocked, Reading,
}
use system_trade_with_llm_or.Coordinator.Pace.{times_of, times_of-append}
use system_trade_with_llm_or.Coordinator.Results.{Ticket, rate_domain, Reply}
use system_trade_with_llm_or.Coordinator.Begin.{sends, Supply, begin, start, occupy}
use system_trade_with_llm_or.Coordinator.Finish.{finish}
use system_trade_with_llm_or.Coordinator.Attempts.{
  Call, call, Calls, done, then_call, attempt, attempts,
}
use system_trade_with_llm_or.Coordinator.Ready.{
  IsReady, begin-sends, Begun-cases, attempt-returns, attempt-sends,
}
use system_trade_with_llm_or.Coordinator.Sound.{lookup-assign}

-- In `w` the rate domain `key` is the object `d`, and has had the calls at `times`.
abbrev pub Shows : Identifier → Domain → List ℕ → World → Type 0
Shows key d times w = (lookup key w.domains ≡ some d) × (times_of key w.sent ≡ times)

module _ (key : Identifier) (d : Domain) where
  occupied_shut : (now : ℕ) → d.occupied ≡ true → is_blocked (remaining d now) ≡ true
  unfolding remaining
  occupied_shut now h = ground arith

  -- A ticket has the object of its rate domain.
  pub ready-own :
      (t : Ticket) (w : World)
      → (rate_domain t == key) ≡ true
      → lookup key w.domains ≡ some d
      → IsReady w t
      → t.domain ≡ d
  ready-own t w same entry ready =
      let (l, limited, made, _) = ready.limits_of in
      let here : lookup (rate_domain t) w.domains ≡ some d = rw (==→eq _ _ same) entry in
      made ∙ ap (λ o. elim o [ none ↦ fresh l | some e ↦ e ]) here

module _ (key : Identifier) (d : Domain) (times : List ℕ) where
  pub start-elsewhere :
      (t : Ticket) (w : World)
      → (rate_domain t == key) ≡ false
      → Shows key d times w
      → Shows key d times (start t w)
  unfolding start
  start-elsewhere t w other (entry, log) =
      (rw (lookup-assign, other) entry, rw (times_of-append, other, append-nil) log)

  pub finish-elsewhere :
      (t : Ticket) (reply : Reply) (reading : Reading) (w : World)
      → (rate_domain t == key) ≡ false
      → Shows key d times w
      → Shows key d times (finish t reply reading w).0
  unfolding finish
  finish-elsewhere t reply reading w other (entry, log) = (rw (lookup-assign, other) entry, log)

  -- A ticket for an occupied domain is not made.
  ready-elsewhere :
      (t : Ticket) (w : World)
      → d.occupied ≡ true
      → Shows key d times w
      → IsReady w t
      → (rate_domain t == key) ≡ false
  ready-elsewhere t w busy (entry, log) ready = elim (Bool-cases (rate_domain t == key)) [
    | inr other ↦ other
    | inl same ↦
        let mine : t.domain ≡ d = ready-own key d t w same entry ready in
        let shut =
          subst (λ e. is_blocked (remaining e t.now) ≡ true) (sym mine)
            (occupied_shut key d t.now busy) in
        absurd (cc)
  ]

  mutual
    unfolding attempt

    attempt-shut_out :
        (c : Call) (w : World)
        → d.occupied ≡ true
        → Shows key d times w
        → Shows key d times (attempt c w).0
    attempt-shut_out (call request binding supply nested reply reading) w busy here =
        elim (Begun-cases (begin request binding supply w)) [
          | inl (r, same) ↦
              let runs = attempt-returns request binding supply nested reply reading w r same in
              subst (λ o. Shows key d times o.0) (sym runs) here
          | inr (t, same) ↦
              let ready = begin-sends request binding supply w t same in
              let other = ready-elsewhere t w busy here ready in
              let during =
                attempts-shut_out nested (start t w) busy (start-elsewhere t w other here) in
              let runs = attempt-sends request binding supply nested reply reading w t same in
              subst (λ o. Shows key d times o.0) (sym runs)
                (finish-elsewhere t reply reading (attempts nested (start t w)) other during)
        ]

    attempts-shut_out :
        (cs : Calls) (w : World)
        → d.occupied ≡ true
        → Shows key d times w
        → Shows key d times (attempts cs w)
    attempts-shut_out done w busy here = here
    attempts-shut_out (then_call c cs) w busy here =
        attempts-shut_out cs (attempt c w).0 busy (attempt-shut_out c w busy here)

-- From the moment that an attempt goes on to send until its transport returns, whatever attempts
-- the transport makes meanwhile: none of them sends in the attempt's rate domain, whose entry stays
-- as it was, occupied.
pub reentrant_attempts_are_shut_out :
    (request : Option CoordinatorRequest) (binding : Option SourceBinding) (supply : Supply)
    (nested : Calls) (w : World) (t : Ticket)
    → begin request binding supply w ≡ sends t
    → Shows
        (rate_domain t)
        (occupy t.domain t.now)
        (times_of (rate_domain t) (start t w).sent)
        (attempts nested (start t w))
unfolding start
reentrant_attempts_are_shut_out request binding supply nested w t same =
    attempts-shut_out (rate_domain t) (occupy t.domain t.now) _ nested (start t w) refl
      (rw (lookup-assign, ==_refl) refl, refl)
