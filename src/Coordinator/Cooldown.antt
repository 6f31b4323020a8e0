-- ===== src/Coordinator/Cooldown.antt =====
-- What a `retry_after` does to later attempts: the cooldown of its rate domain.
use system_trade_with_llm_or.Prelude.{
  ℕ, ◌+◌, ◌-◌, ◌≤◌, ◌≡◌, refl, sym, ap, true, false, Option, none, some, List, ◌∷◌, [], ◌++◌,
  Bool-cases, arith, inl, inr, ◌==◌, ==→eq, ==_refl, All, All-append,
}
use mathlib.Core.Path.{subst}
use mathlib.Core.List.{append-nil, append_assoc}
use system_trade_with_llm_or.Schema.{Identifier, Instant}
use system_trade_with_llm_or.Sources.Binding.{SourceBinding}
use system_trade_with_llm_or.Coordinator.Events.{CoordinatorRequest, Reason}
use system_trade_with_llm_or.Coordinator.Gates.{
  Domain, World, lookup, fresh, domain_of, remaining, is_blocked, Reading, clock, max,
}
use system_trade_with_llm_or.Coordinator.Pace.{times_of, times_of-append}
use system_trade_with_llm_or.Coordinator.Results.{
  Ticket, rate_domain, Reply, replies, TransportResponse, is_valid,
}
use system_trade_with_llm_or.Coordinator.Begin.{sends, Supply, begin, start, occupy}
use system_trade_with_llm_or.Coordinator.Finish.{
  finish, settle, receive, release, retry_of, latest, category_reason,
}
use system_trade_with_llm_or.Coordinator.Attempts.{
  Call, call, Calls, done, then_call, attempt, attempts,
}
use system_trade_with_llm_or.Coordinator.Ready.{
  IsReady, begin-sends, Begun-cases, attempt-returns, attempt-sends,
}
use system_trade_with_llm_or.Coordinator.Sound.{lookup-assign}
use system_trade_with_llm_or.Coordinator.Reentry.{
  ready-own, start-elsewhere, finish-elsewhere, reentrant_attempts_are_shut_out,
}

cooldown-le-settle :
    (response : Option TransportResponse × Reason) (utc : Instant) (last_clock : Option ℕ)
    (cooldown : ℕ) (reading : Reading)
    → cooldown ≤ (settle response utc last_clock cooldown reading).cooldown
unfolding settle
cooldown-le-settle response utc last_clock cooldown reading = ground arith

open_after_cooldown :
    (d : Domain) (now : ℕ) → is_blocked (remaining d now) ≡ false → d.cooldown ≤ now
unfolding remaining
open_after_cooldown d now h = ground arith

module _ (key : Identifier) (until : ℕ) (old : List ℕ) where
  -- The rate domain cools down until `until` or later, and its calls since `old` came after that.
  record Cools (w : World) : Type 0 where
    domain : Domain
    entry : lookup key w.domains ≡ some domain
    cool : until ≤ domain.cooldown
    new : List ℕ
    log : times_of key w.sent ≡ old ++ new
    deferred : All (λ u. until ≤ u) new

  Cools-start : (t : Ticket) (w : World) → IsReady w t → Cools w → Cools (start t w)
  unfolding start
  Cools-start t w ready c = elim (Bool-cases (rate_domain t == key)) [
    | inr other ↦
        let (entry, log) = start-elsewhere key c.domain _ t w other (c.entry, c.log) in
        record {
          domain = c.domain;
          entry = entry;
          cool = c.cool;
          new = c.new;
          log = log;
          deferred = c.deferred;
        }
    | inl same ↦
        let mine = ready-own key c.domain t w same c.entry ready in
        let clear = subst (λ d. is_blocked (remaining d t.now) ≡ false) mine ready.open_gates in
        let after = open_after_cooldown c.domain t.now clear in
        let cool = c.cool in
        record {
          domain = occupy t.domain t.now;
          entry = rw (lookup-assign, same) refl;
          cool = rw mine c.cool;
          new = c.new ++ (t.now ∷ []);
          log = rw (times_of-append, same, c.log, append_assoc) refl;
          deferred = All-append (λ u. until ≤ u) c.new (t.now ∷ []) c.deferred (omega arith, tt);
        }
  ]

  Cools-finish :
      (t : Ticket) (reply : Reply) (reading : Reading) (w : World)
      → Cools w
      → Cools (finish t reply reading w).0
  unfolding finish
  Cools-finish t reply reading w c = elim (Bool-cases (rate_domain t == key)) [
    | inr other ↦
        let (entry, log) =
          finish-elsewhere key c.domain _ t reply reading w other (c.entry, c.log) in
        record {
          domain = c.domain;
          entry = entry;
          cool = c.cool;
          new = c.new;
          log = log;
          deferred = c.deferred;
        }
    | inl same ↦
        let here : lookup (rate_domain t) w.domains ≡ some c.domain = rw (==→eq _ _ same) c.entry in
        let mine : domain_of (rate_domain t) t.domain.limits w ≡ c.domain =
          ap (λ o. elim o [ none ↦ fresh t.domain.limits | some e ↦ e ]) here in
        let cool = c.cool in
        let longer =
          cooldown-le-settle (receive reply) t.utc w.last_clock c.domain.cooldown reading in
        record {
          domain =
              release c.domain
                (settle (receive reply) t.utc w.last_clock c.domain.cooldown reading).cooldown;
          entry = rw (lookup-assign, same, mine) refl;
          cool = omega arith;
          new = c.new;
          log = c.log;
          deferred = c.deferred;
        }
  ]

  mutual
    unfolding attempt

    attempt-Cools : (c : Call) (w : World) → Cools w → Cools (attempt c w).0
    attempt-Cools (call request binding supply nested reply reading) w cools =
        elim (Begun-cases (begin request binding supply w)) [
          | inl (r, same) ↦
              let runs = attempt-returns request binding supply nested reply reading w r same in
              subst (λ o. Cools o.0) (sym runs) cools
          | inr (t, same) ↦
              let ready = begin-sends request binding supply w t same in
              let during = attempts-Cools nested (start t w) (Cools-start t w ready cools) in
              let runs = attempt-sends request binding supply nested reply reading w t same in
              subst (λ o. Cools o.0) (sym runs)
                (Cools-finish t reply reading (attempts nested (start t w)) during)
        ]

    attempts-Cools : (cs : Calls) (w : World) → Cools w → Cools (attempts cs w)
    attempts-Cools done w cools = cools
    attempts-Cools (then_call c cs) w cools =
        attempts-Cools cs (attempt c w).0 (attempt-Cools c w cools)

settle-retry :
    (response : TransportResponse) (reason : Reason) (utc : Instant) (last_clock : Option ℕ)
    (cooldown : ℕ) (reading : Reading) (received retry : ℕ) (received_utc : Instant)
    → clock last_clock reading ≡ some (received, received_utc)
    → retry_of (some response) ≡ some retry
    → received_utc + (max cooldown (received + retry) - received) ≤ latest
    → (settle (some response, reason) utc last_clock cooldown reading).cooldown
      ≡ max cooldown (received + retry)
unfolding settle
settle-retry response reason utc last_clock cooldown reading received retry received_utc read asked
      fits =
    ground arith

-- The end of an attempt whose response asks to retry later.
finish-retry :
    (t : Ticket) (response : TransportResponse) (reading : Reading) (w : World) (d : Domain)
    (received retry : ℕ) (received_utc : Instant)
    → lookup (rate_domain t) w.domains ≡ some d
    → is_valid response ≡ true
    → retry_of (some response) ≡ some retry
    → clock w.last_clock reading ≡ some (received, received_utc)
    → received_utc + (max d.cooldown (received + retry) - received) ≤ latest
    → Cools
        (rate_domain t)
        (received + retry)
        (times_of (rate_domain t) w.sent)
        (finish t (replies response) reading w).0
unfolding finish
finish-retry t response reading w d received retry received_utc entry valid asked read fits =
    let mine : domain_of (rate_domain t) t.domain.limits w ≡ d =
      ap (λ o. elim o [ none ↦ fresh t.domain.limits | some e ↦ e ]) entry in
    let r = settle (receive (replies response)) t.utc w.last_clock d.cooldown reading in
    let used : r.cooldown ≡ max d.cooldown (received + retry) = rw valid (
      settle-retry response (category_reason response.status_category) t.utc w.last_clock d.cooldown
        reading received retry received_utc read asked fits) in
    record {
      domain = release d r.cooldown;
      entry = rw (lookup-assign, ==_refl, mine) refl;
      cool = rw used (ground arith);
      new = [];
      log = sym (append-nil _);
      deferred = tt;
    }

-- An attempt whose valid response, received at `received`, asks to retry after `retry`, so that the
-- time when the cooldown ends can be written: whatever attempts follow, nested or not, none sends
-- in the rate domain before `received + retry`.
pub retry_after_defers_sends :
    (request : Option CoordinatorRequest) (binding : Option SourceBinding) (supply : Supply)
    (nested : Calls) (response : TransportResponse) (reading : Reading) (w : World) (t : Ticket)
    (received retry : ℕ) (received_utc : Instant) (later : Calls)
    → begin request binding supply w ≡ sends t
    → is_valid response ≡ true
    → retry_of (some response) ≡ some retry
    → clock (attempts nested (start t w)).last_clock reading ≡ some (received, received_utc)
    → received_utc + (max t.domain.cooldown (received + retry) - received) ≤ latest
    → let after = (attempt (call request binding supply nested (replies response) reading) w).0 in
      (new : List ℕ) × (times_of (rate_domain t) (attempts later after).sent
        ≡ times_of (rate_domain t) after.sent ++ new)
      × All (λ u. received + retry ≤ u) new
unfolding finish
retry_after_defers_sends request binding supply nested response reading w t received retry
      received_utc later sending valid asked read fits =
    let key = rate_domain t in
    let before = attempts nested (start t w) in
    let (entry, log) = reentrant_attempts_are_shut_out request binding supply nested w t sending in
    let runs = attempt-sends request binding supply nested (replies response) reading w t sending in
    let after = (attempt (call request binding supply nested (replies response) reading) w).0 in
    let cools : Cools key (received + retry) (times_of key after.sent) after =
      subst (λ o. Cools key (received + retry) (times_of key o.0.sent) o.0) (sym runs)
        (finish-retry t response reading before (occupy t.domain t.now) received retry received_utc
          entry valid asked read fits) in
    let rest = attempts-Cools key (received + retry) (times_of key after.sent) later after cools in
    (rest.new, rest.log, rest.deferred)
