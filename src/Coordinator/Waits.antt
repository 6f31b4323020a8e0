-- ===== src/Coordinator/Waits.antt =====
-- `retry_after_seconds` of a blocked attempt is the time until the gates open, to the instant.
use system_trade_with_llm_or.Prelude.{
  ◌≢◌, ℕ, ◌+◌, ◌≤◌, ◌<◌, ◌≡◌, refl, sym, ap, ◌∙◌, Bool, true, false, Option, none, some, List, [],
  if◌then◌else◌, Bool-cases, arith, inl, inr, length, All, All-map,
}
use mathlib.Core.Logic.{◌↔◌}
use mathlib.Core.Path.{subst}
use system_trade_with_llm_or.Schema.{Identifier, Instant}
use system_trade_with_llm_or.Sources.Binding.{SourceBinding, Limits}
use system_trade_with_llm_or.Coordinator.Events.{CoordinatorRequest, Reason, Event}
use system_trade_with_llm_or.Coordinator.Gates.{
  Domain, World, lookup, fresh, domain_of, clock, Waits, is_before, remaining, is_blocked,
  window_wait, active, longest,
}
use system_trade_with_llm_or.Coordinator.Pace.{times_of, window_room}
use system_trade_with_llm_or.Coordinator.Results.{Status, AttemptResult, reject, Ticket}
use system_trade_with_llm_or.Coordinator.Begin.{
  Begun, returns, Supply, require, ensure, hold_back, proceed, evaluate, begin,
}
use system_trade_with_llm_or.Coordinator.Ready.{in_order_lem}
use system_trade_with_llm_or.Coordinator.Windows.{
  IsPaced-IsAscending, window_exact, window_open, interval_exact,
}
use system_trade_with_llm_or.Coordinator.Sound.{IsTracked, Tracks, IsUpTo-later}
use system_trade_with_llm_or.Coordinator.Rates.{Reached, Reached-IsSound}

-- What `begin` has established where it returns a blocked attempt.
module _ {r : AttemptResult} (held : r.status ≡ Status.blocked) where
  reject-ne-blocked : (reason : Reason) → returns (reject reason) ≢ returns r
  reject-ne-blocked reason h = cc

  require-blocked {ℓ} :
      {A : Type ℓ} (o : Option A) (reason : Reason) (f : A → Begun)
      → require o (reject reason) f ≡ returns r
      → (a : A) × (o ≡ some a) × (f a ≡ returns r)
  unfolding require
  require-blocked none reason f h = absurd (reject-ne-blocked reason h)
  require-blocked (some a) reason f h = (a, refl, h)

  ensure-blocked :
      (b : Bool) (reason : Reason) (next : Begun)
      → ensure b (reject reason) next ≡ returns r
      → next ≡ returns r
  unfolding ensure
  ensure-blocked true reason next h = h
  ensure-blocked false reason next h = absurd (reject-ne-blocked reason h)

  hold_back-blocked :
      (t : Ticket) (waits : Waits) (o : Option (List Event))
      → hold_back t waits o ≡ returns r
      → r.retry_after ≡ (if t.domain.occupied then none else some (longest waits))
  unfolding hold_back
  hold_back-blocked t waits none h = absurd (reject-ne-blocked _ h)
  hold_back-blocked t waits (some events) h = cc

  proceed-blocked :
      (q : CoordinatorRequest) (b : SourceBinding) (d : Domain) (read : ℕ × Instant)
      (physical_id : Option Identifier) (ids : List Identifier)
      → proceed q b d read physical_id ids ≡ returns r
      → r.retry_after ≡ (if d.occupied then none else some (longest (remaining d read.0)))
  unfolding proceed
  proceed-blocked q b d read physical_id ids h =
      elim (Bool-cases (is_blocked (remaining d read.0))) [
        | inl shut ↦ hold_back-blocked _ _ _ (rw shut at h)
        | inr clear ↦
            let (physical, given, h1) = require-blocked _ _ _ (rw clear at h) in
            let (es, made, h2) = require-blocked _ _ _ h1 in absurd (cc)
      ]

  require-some {ℓ} :
      {A : Type ℓ} (a : A) (reason : Reason) (f : A → Begun)
      → require (some a) (reject reason) f ≡ returns r
      → f a ≡ returns r
  unfolding require
  require-some a reason f h = h

  evaluate-blocked :
      (q : CoordinatorRequest) (b : SourceBinding) (d : Domain) (read : ℕ × Instant)
      (supply : Supply)
      → evaluate q b d read supply ≡ returns r
      → r.retry_after ≡ (if d.occupied then none else some (longest (remaining d read.0)))
  unfolding evaluate
  evaluate-blocked q b d read supply h =
      let (ids, taken, h1) = require-blocked _ _ _ h in
      proceed-blocked q b d read supply.physical_id ids (ensure-blocked _ _ _ h1)

  begin-blocked :
      (request : Option CoordinatorRequest) (b : SourceBinding) (supply : Supply) (w : World)
      → begin request (some b) supply w ≡ returns r
      → (l : Limits) × (read : ℕ × Instant) × (clock w.last_clock supply.reading ≡ some read)
        × (r.retry_after ≡ (
            if (domain_of b.profile.rate_domain l w).occupied
            then none
            else some (longest (remaining (domain_of b.profile.rate_domain l w) read.0))))
  unfolding begin
  begin-blocked request b supply w h =
      let h1 = require-some b _ _ h in
      let (q, valid, h2) = require-blocked _ _ _ h1 in
      let (l, limited, h3) = require-blocked _ _ _ h2 in
      let (read, clocked, h4) = require-blocked _ _ _ h3 in
      let h5 = ensure-blocked _ _ _ h4 in (l, read, clocked, evaluate-blocked _ b _ read supply h5)

module _ (d : Domain) (last_clock : Option ℕ) (now later : ℕ) (times : List ℕ)
    (idle : d.occupied ≡ false) (in_order : is_before now last_clock ≡ false) (order : now ≤ later)
    (t : Tracks d last_clock times) where
  past : All (λ u. u ≤ now) times
  past = IsUpTo-later last_clock now times in_order t.up_to

  window_now :
      (length (active d.limits.rate_window later d.starts) < d.limits.rate_requests)
      ↔ (now + window_wait d.limits now (active d.limits.rate_window now d.starts) ≤ later)
  window_now =
      rw
        (
          t.recent later (All-map _ _ times (λ u (h : u ≤ now). omega arith) past),
          t.recent now past,
        )
        (window_exact d.limits now later times t.positive order
          (IsPaced-IsAscending d.limits [] times t.paced) past)

  opens_after_wait :
      now + longest (remaining d now) ≤ later → is_blocked (remaining d later) ≡ false
  unfolding remaining
  opens_after_wait h =
      let room_then = window_now.1 (ground arith) in
      let window = window_open d.limits later d.starts room_then in
      let interval =
        (interval_exact d.limits.min_interval now later d.last_start order).1 (ground arith) in
      rw (idle, interval, window) (ground arith)

  waits_until_open :
      is_blocked (remaining d later) ≡ false → now + longest (remaining d now) ≤ later
  unfolding remaining
  waits_until_open h =
      let room_then = window_room d.limits later d.starts t.positive (ground arith) in
      let window = window_now.0 room_then in
      let interval =
        (interval_exact d.limits.min_interval now later d.last_start order).0 (ground arith) in
      rw idle (ground arith)

idle_wait :
    (o : Option ℕ) (occupied : Bool) (longest wait : ℕ)
    → o ≡ some wait
    → o ≡ (if occupied then none else some longest)
    → (occupied ≡ false) × (longest ≡ wait)
idle_wait o true longest wait h e = absurd (cc)
idle_wait o false longest wait h e = (refl, ground arith)

-- `retry_after_seconds` of a blocked attempt is exact: in every state that is reached, where a
-- blocked attempt of a domain gives a wait, the gates as they stand are open at a later time
-- exactly if the wait has gone by since the attempt's reading of the clock.
pub retry_after_is_exact :
    (request : Option CoordinatorRequest) (b : SourceBinding) (supply : Supply) (w : World)
    (r : AttemptResult) (d : Domain) (wait now later : ℕ) (utc : Instant)
    → Reached w
    → begin request (some b) supply w ≡ returns r
    → r.status ≡ Status.blocked
    → r.retry_after ≡ some wait
    → clock w.last_clock supply.reading ≡ some (now, utc)
    → lookup b.profile.rate_domain w.domains ≡ some d
    → now ≤ later
    → (is_blocked (remaining d later) ≡ false) ↔ (now + wait ≤ later)
retry_after_is_exact request b supply w r d wait now later utc reached begun held given read found
      order =
    let key = b.profile.rate_domain in
    let (l, read', clocked, hint) = begin-blocked held request b supply w begun in
    let mine : domain_of key l w ≡ d = ap (λ o. elim o [ none ↦ fresh l | some e ↦ e ]) found in
    let at_now : read'.0 ≡ now =
      ap (λ o. elim o [ none ↦ 0 | some x ↦ x.0 ]) (sym clocked ∙ read) in
    let (idle, same) =
      idle_wait r.retry_after d.occupied (longest (remaining d now)) wait given
        (rw (mine, at_now) at hint) in
    let t =
      subst (λ o. IsTracked o w.last_clock (times_of key w.sent)) found
        (Reached-IsSound reached key) in
    let in_order = in_order_lem w.last_clock supply.reading (now, utc) read in
    (
      (λ h. rw same at (waits_until_open d w.last_clock now later _ idle in_order order t h)),
      (λ h. opens_after_wait d w.last_clock now later _ idle in_order order t (rw same h)),
    )
