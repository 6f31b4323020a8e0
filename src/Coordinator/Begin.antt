-- ===== src/Coordinator/Begin.antt =====
-- `Coordinator.attempt` until it sends: the guarded part, which may return at once.
use system_trade_with_llm_or.Prelude.{
  ℕ, zero, suc, Bool, true, false, Option, none, some, List, [], ◌∷◌, ◌++◌, if◌then◌else◌,
}
use system_trade_with_llm_or.Schema.{Identifier, Instant}
use system_trade_with_llm_or.Sources.{is_unique}
use system_trade_with_llm_or.Sources.Binding.{SourceBinding, limits}
use system_trade_with_llm_or.Coordinator.Events.{Reason, CoordinatorRequest, Event, validate_event}
use system_trade_with_llm_or.Coordinator.Gates.{
  Domain, World, assign, domain_of, Reading, clock, same_limits, active, Waits, remaining,
  is_blocked, longest, gate_results,
}
use system_trade_with_llm_or.Coordinator.Results.{
  Status, AttemptResult, reject, Ticket, rate_domain, collect, logged, started,
}

-- What the clocks and the identifier factories give to one attempt. `event_id i` is the result of
-- the call `i` of the factory, `none` where it raises or is refused by `IDENTIFIER_ADAPTER`.
pub record Supply : Type 0 where
  pub reading : Reading
  pub event_id : ℕ → Option Identifier
  pub physical_id : Option Identifier

-- tuple(self._event_id() for _ in range(count))
abbrev pub take : ℕ → (ℕ → Option Identifier) → Option (List Identifier)
take zero supply = some []
take (suc count) supply = elim (supply 0) [
  | none ↦ none
  | some id ↦ elim (take count (λ i. supply (suc i))) [ none ↦ none | some ids ↦ some (id ∷ ids) ]
]

abbrev pub id_at : List Identifier → ℕ → Identifier
id_at [] i = 0
id_at (id ∷ ids) zero = id
id_at (id ∷ ids) (suc i) = id_at ids i

-- The end of the guarded part: return at once, or go on to send.
pub data Begun : Type 0 where
  returns : AttemptResult → Begun
  sends : Ticket → Begun

abbrev pub refused : AttemptResult
refused = reject Reason.invalid_attempt_input

-- A step that gives a value, or makes the attempt return.
unfoldable pub require {ℓ} : {A : Type ℓ} → Option A → AttemptResult → (A → Begun) → Begun
require none r f = returns r
require (some a) r f = f a

-- if not test: return
unfoldable pub ensure : Bool → AttemptResult → Begun → Begun
ensure true r next = next
ensure false r next = returns r

-- The events are made; a blocked attempt returns with them.
unfoldable pub hold_back : Ticket → Waits → Option (List Event) → Begun
hold_back t waits none = returns refused
hold_back t waits (some events) = returns (record {
  status = Status.blocked;
  reason_code = Reason.rate_gate_blocked;
  payload = none;
  retry_after = if t.domain.occupied then none else some (longest waits);
  events = events;
})

abbrev pub ticket :
    CoordinatorRequest
    → SourceBinding
    → Domain
    → ℕ × Instant
    → List Identifier
    → Option Identifier
    → Ticket
ticket request binding d (now, utc) ids physical = record {
  request = request;
  binding = binding;
  domain = d;
  now = now;
  utc = utc;
  gates = gate_results binding.profile.rate_domain (remaining d now);
  event_id = id_at ids;
  physical = physical;
}

-- From the reserved identifiers to the end of the first `try`.
unfoldable pub proceed :
    CoordinatorRequest
    → SourceBinding
    → Domain
    → ℕ × Instant
    → Option Identifier
    → List Identifier
    → Begun
unfolding remaining validate_event
proceed request binding d read physical_id ids =
    if is_blocked (remaining d read.0)
    then (let t = ticket request binding d read ids none in
        hold_back t (remaining d read.0) (collect (logged t)))
    else require physical_id refused λ physical.
      let t = ticket request binding d read ids (some physical) in
      require (collect (logged t ++ (started t ∷ []))) refused λ _. sends t

-- From the gates on.
unfoldable pub evaluate : CoordinatorRequest → SourceBinding → Domain → ℕ × Instant → Supply → Begun
evaluate request binding d read supply =
    require (take (if is_blocked (remaining d read.0) then 2 else 5) supply.event_id) refused
      λ ids. ensure (is_unique ids) refused (proceed request binding d read supply.physical_id ids)

-- `attempt` up to the end of its first `try`. The request is `none` where its validation fails, the
-- binding where it is a rejected `AttemptResult`.
unfoldable pub begin : Option CoordinatorRequest → Option SourceBinding → Supply → World → Begun
begin request binding supply w = require binding (reject Reason.invalid_source_binding) λ b.
    require request refused λ r. require (limits b) refused λ l.
      require (clock w.last_clock supply.reading) refused λ read.
        let d = domain_of b.profile.rate_domain l w in
        ensure (same_limits d.limits l) (reject Reason.conflicting_rate_domain)
          (evaluate r b d read supply)

-- The writes before `transport.send`, and the call.
abbrev pub occupy : Domain → ℕ → Domain
occupy d now = record d {
  occupied = true;
  last_start = some now;
  starts = active d.limits.rate_window now d.starts ++ (now ∷ []);
}

unfoldable pub start : Ticket → World → World
start t w = record w {
  domains = assign (rate_domain t) (occupy t.domain t.now) w.domains;
  last_clock = some t.now;
  sent = w.sent ++ (record { rate_domain = rate_domain t; at = t.now } ∷ []);
}
