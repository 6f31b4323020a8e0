-- ===== src/Coordinator/Ready.antt =====
-- What `begin` has established where it goes on to send.
use system_trade_with_llm_or.Prelude.{
  ◌≢◌, ◌⊎◌, ℕ, zero, suc, ◌≡◌, refl, sym, ap, ◌∙◌, Bool, true, false, Option, none, some, List, ◌∷◌,
  [], ◌++◌, if◌then◌else◌, Bool-cases, Option-cases, arith, inl, inr, length, is_some,
}
use mathlib.Core.Path.{subst}
use system_trade_with_llm_or.Schema.{Identifier, Instant}
use system_trade_with_llm_or.Sources.{is_unique}
use system_trade_with_llm_or.Sources.Binding.{SourceBinding, Limits, limits}
use system_trade_with_llm_or.Coordinator.Events.{CoordinatorRequest, Event}
use system_trade_with_llm_or.Coordinator.Gates.{
  Domain, World, domain_of, Reading, clock, is_before, same_limits, remaining, is_blocked, Waits,
}
use system_trade_with_llm_or.Coordinator.Results.{
  Ticket, rate_domain, collect, logged, started, AttemptResult, Reply,
}
use system_trade_with_llm_or.Coordinator.Begin.{
  Supply, Begun, returns, sends, evaluate, take, id_at, ticket, begin, proceed, require, ensure,
  hold_back, start,
}
use system_trade_with_llm_or.Coordinator.Finish.{finish}
use system_trade_with_llm_or.Coordinator.Attempts.{call, Calls, attempt, attempts}

pub record IsReady (w : World) (t : Ticket) : Type 0 where
  pub limits_of :
      (l : Limits) × (limits t.binding ≡ some l)
      × (t.domain ≡ domain_of (rate_domain t) l w)
      × (same_limits t.domain.limits l ≡ true)
  pub in_order : is_before t.now w.last_clock ≡ false
  pub open_gates : is_blocked (remaining t.domain t.now) ≡ false
  pub logs : is_some (collect (logged t ++ (started t ∷ []))) ≡ true
  pub physical : (id : Identifier) × (t.physical ≡ some id)
  pub unique_ids :
      (ids : List Identifier) × (t.event_id ≡ id_at ids) × (length ids ≡ 5) × (is_unique ids ≡ true)

module _ {t : Ticket} where
  pub require-sends {ℓ} :
      {A : Type ℓ} (o : Option A) (r : AttemptResult) (f : A → Begun)
      → require o r f ≡ sends t
      → (a : A) × (o ≡ some a) × (f a ≡ sends t)
  unfolding require
  require-sends none r f h = absurd (cc)
  require-sends (some a) r f h = (a, refl, h)

  pub ensure-sends :
      (b : Bool) (r : AttemptResult) (next : Begun)
      → ensure b r next ≡ sends t
      → (b ≡ true) × (next ≡ sends t)
  unfolding ensure
  ensure-sends true r next h = (refl, h)
  ensure-sends false r next h = absurd (cc)

  hold_back-ne-sends :
      (s : Ticket) (waits : Waits) (o : Option (List Event)) → hold_back s waits o ≢ sends t
  unfolding hold_back
  hold_back-ne-sends s waits none h = cc
  hold_back-ne-sends s waits (some es) h = cc

pub length-take :
    (n : ℕ) (f : ℕ → Option Identifier) (ids : List Identifier)
    → take n f ≡ some ids
    → length ids ≡ n
length-take zero f ids h = ground arith
length-take (suc n) f ids h = elim (Option-cases (f 0)) [
  | inl nothing ↦ absurd (ground arith)
  | inr (id, found) ↦ elim (Option-cases (take n (λ i. f (suc i)))) [
    | inl nothing ↦ absurd (ground arith)
    | inr (rest, e) ↦ ground (arith, length-take n (λ i. f (suc i)) rest e)
  ]
]

pub in_order_lem :
    (last : Option ℕ) (r : Reading) (read : ℕ × Instant)
    → clock last r ≡ some read
    → is_before read.0 last ≡ false
in_order_lem last r read h = ground arith

-- The ticket that an attempt with open gates makes.
abbrev IsMade :
    CoordinatorRequest → SourceBinding → Domain → ℕ × Instant → List Identifier → Ticket → Type 0
IsMade r b d read ids t =
    (is_blocked (remaining d read.0) ≡ false)
    × (physical : Identifier) × (t ≡ ticket r b d read ids (some physical))
    × (is_some (collect (logged t ++ (started t ∷ []))) ≡ true)

proceed-sends :
    (r : CoordinatorRequest) (b : SourceBinding) (d : Domain) (read : ℕ × Instant)
    (physical_id : Option Identifier) (ids : List Identifier) (t : Ticket)
    → proceed r b d read physical_id ids ≡ sends t
    → IsMade r b d read ids t
unfolding proceed
proceed-sends r b d read physical_id ids t h = elim (Bool-cases (is_blocked (remaining d read.0))) [
  | inl shut ↦ absurd (hold_back-ne-sends _ _ _ (rw shut at h))
  | inr clear ↦
      let (physical, given, h1) = require-sends _ _ _ (rw clear at h) in
      let (es, made, h2) = require-sends _ _ _ h1 in
      let same : ticket r b d read ids (some physical) ≡ t = cc in
      (
        clear,
        physical,
        sym same,
        subst (λ s. is_some (collect (logged s ++ (started s ∷ []))) ≡ true) same (ap is_some made),
      )
]

evaluate-sends :
    (r : CoordinatorRequest) (b : SourceBinding) (d : Domain) (read : ℕ × Instant) (supply : Supply)
    (t : Ticket)
    → evaluate r b d read supply ≡ sends t
    → (ids : List Identifier) × (length ids ≡ 5) × (is_unique ids ≡ true) × IsMade r b d read ids t
unfolding evaluate
evaluate-sends r b d read supply t h =
    let (ids, taken, h1) = require-sends _ _ _ h in
    let (unique, h2) = ensure-sends _ _ _ h1 in
    let made = proceed-sends r b d read supply.physical_id ids t h2 in
    (
      ids,
      length-take 5 supply.event_id ids
          (ap (λ b. take (if b then 2 else 5) supply.event_id) (sym made.0) ∙ taken),
      unique,
      made,
    )

IsMade-IsReady :
    (r : CoordinatorRequest) (b : SourceBinding) (l : Limits) (w : World) (read : ℕ × Instant)
    (ids : List Identifier) (t : Ticket)
    → limits b ≡ some l
    → same_limits (domain_of b.profile.rate_domain l w).limits l ≡ true
    → is_before read.0 w.last_clock ≡ false
    → length ids ≡ 5
    → is_unique ids ≡ true
    → IsMade r b (domain_of b.profile.rate_domain l w) read ids t
    → IsReady w t
IsMade-IsReady r b l w read ids t limited same in_order five unique (clear, physical, made, logs) =
    let d = domain_of b.profile.rate_domain l w in
    subst (IsReady w) (sym made) (record {
      limits_of = (l, limited, refl, same);
      in_order = in_order;
      open_gates = clear;
      logs = subst (λ s. is_some (collect (logged s ++ (started s ∷ []))) ≡ true) made logs;
      physical = (physical, refl);
      unique_ids = (ids, refl, five, unique);
    })

pub begin-sends :
    (request : Option CoordinatorRequest) (binding : Option SourceBinding) (supply : Supply)
    (w : World) (t : Ticket)
    → begin request binding supply w ≡ sends t
    → IsReady w t
unfolding begin
begin-sends request binding supply w t h =
    let (b, bound, h1) = require-sends _ _ _ h in
    let (r, valid, h2) = require-sends _ _ _ h1 in
    let (l, limited, h3) = require-sends _ _ _ h2 in
    let (read, clocked, h4) = require-sends _ _ _ h3 in
    let (same, h5) = ensure-sends _ _ _ h4 in
    let (ids, five, unique, made) = evaluate-sends r b _ read supply t h5 in
    IsMade-IsReady r b l w read ids t limited same
      (in_order_lem w.last_clock supply.reading read clocked) five unique made

-- The two ways of an attempt.
module _ (request : Option CoordinatorRequest) (binding : Option SourceBinding) (supply : Supply)
    (nested : Calls) (reply : Reply) (reading : Reading) (w : World) where
  rest : Begun → World × Option AttemptResult
  rest (returns r) = (w, some r)
  rest (sends t) = finish t reply reading (attempts nested (start t w))

  attempt-rest :
      attempt (call request binding supply nested reply reading) w
      ≡ rest (begin request binding supply w)
  unfolding attempt rest
  attempt-rest = ground arith

  pub attempt-returns :
      (r : AttemptResult)
      → begin request binding supply w ≡ returns r
      → attempt (call request binding supply nested reply reading) w ≡ (w, some r)
  unfolding rest
  attempt-returns r e = attempt-rest ∙ ap rest e

  pub attempt-sends :
      (t : Ticket)
      → begin request binding supply w ≡ sends t
      → attempt (call request binding supply nested reply reading) w
        ≡ finish t reply reading (attempts nested (start t w))
  unfolding rest
  attempt-sends t e = attempt-rest ∙ ap rest e

pub Begun-cases :
    (b : Begun) → ((r : AttemptResult) × (b ≡ returns r)) ⊎ ((t : Ticket) × (b ≡ sends t))
Begun-cases (returns r) = inl (r, refl)
Begun-cases (sends t) = inr (t, refl)
