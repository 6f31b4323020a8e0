-- ===== src/Coordinator/Gates.antt =====
-- The coordinator's state and gates: `_Domain`, `_clock`, and the waits of `attempt`.
use system_trade_with_llm_or.Prelude.{
  ℕ, zero, suc, ◌+◌, ◌-◌, Bool, false, Option, none, some, List, [], ◌∷◌, ◌&&◌, ◌||◌, ◌==◌, ltb,
  leb, if◌then◌else◌, select, length,
}
use system_trade_with_llm_or.Schema.{Identifier, Instant}
use system_trade_with_llm_or.Sources.{KnowledgeStatus}
use system_trade_with_llm_or.Sources.Binding.{Limits}
use system_trade_with_llm_or.Coordinator.Events.{Scope, GateOutcome, GateName, GateResult}

-- `_Domain`
pub record Domain : Type 0 where
  pub limits : Limits
  pub occupied : Bool
  pub last_start : Option ℕ
  pub starts : List ℕ
  pub cooldown : ℕ

-- A call of `transport.send`: the rate domain, and the reading of the clock that went before it.
pub record Sent : Type 0 where
  pub rate_domain : Identifier
  pub at : ℕ

-- `_domains` and `_last_clock`, and the calls that the transport has had so far.
pub record World : Type 0 where
  pub domains : List (Identifier × Domain)
  pub last_clock : Option ℕ
  pub sent : List Sent

abbrev pub initial : World
initial = record { domains = []; last_clock = none; sent = [] }

abbrev pub lookup : Identifier → List (Identifier × Domain) → Option Domain
lookup key [] = none
lookup key ((k, d) ∷ ds) = if k == key then some d else lookup key ds

abbrev pub assign : Identifier → Domain → List (Identifier × Domain) → List (Identifier × Domain)
assign key d [] = (key, d) ∷ []
assign key d ((k, old) ∷ ds) = if k == key then (k, d) ∷ ds else (k, old) ∷ assign key d ds

abbrev pub fresh : Limits → Domain
fresh l = record { limits = l; occupied = false; last_start = none; starts = []; cooldown = 0 }

-- self._domains.get(rate_domain, _Domain(limits))
abbrev pub domain_of : Identifier → Limits → World → Domain
domain_of key l w = elim (lookup key w.domains) [ none ↦ fresh l | some d ↦ d ]

-- What the two clocks give. `none` is a clock that raises, a reading that is a bool, not finite or
-- negative, or a time that is not a UTC datetime.
pub record Reading : Type 0 where
  pub monotonic : Option ℕ
  pub utc : Option Instant

abbrev pub is_before : ℕ → Option ℕ → Bool
is_before now none = false
is_before now (some last) = ltb now last

-- `_clock`
abbrev pub clock : Option ℕ → Reading → Option (ℕ × Instant)
clock last r = elim r.monotonic [
  | none ↦ none
  | some now ↦ elim r.utc [
    | none ↦ none
    | some utc ↦ if is_before now last then none else some (now, utc)
  ]
]

abbrev status_rank : KnowledgeStatus → ℕ
status_rank KnowledgeStatus.known = 0
status_rank KnowledgeStatus.unknown = 1
status_rank KnowledgeStatus.unsupported = 2
status_rank KnowledgeStatus.not_retrieved = 3

abbrev pub same_limits : Limits → Limits → Bool
same_limits a b =
    (a.min_interval == b.min_interval)
    && (a.rate_requests == b.rate_requests)
    && (a.rate_window == b.rate_window)
    && (status_rank a.cooldown_status == status_rank b.cooldown_status)

-- [start for start in domain.starts if now - start < window]
abbrev pub active : ℕ → ℕ → List ℕ → List ℕ
active window now starts = select (λ start. ltb (now - start) window) starts

abbrev pub get_or : List ℕ → ℕ → ℕ → ℕ
get_or [] i otherwise = otherwise
get_or (x ∷ xs) zero otherwise = x
get_or (x ∷ xs) (suc i) otherwise = get_or xs i otherwise

-- xs[-n], where 0 < n and n <= len(xs)
abbrev pub from_end : List ℕ → ℕ → ℕ
from_end xs n = get_or xs (length xs - n) 0

-- `remaining`, in its order; `float(True)` is one second.
pub record Waits : Type 0 where
  pub cooldown : ℕ
  pub occupancy : ℕ
  pub interval : ℕ
  pub window : ℕ

abbrev pub interval_wait : ℕ → ℕ → Option ℕ → ℕ
interval_wait interval now none = 0
interval_wait interval now (some last) = last + interval - now

abbrev pub window_wait : Limits → ℕ → List ℕ → ℕ
window_wait l now starts =
    if leb l.rate_requests (length starts)
    then from_end starts l.rate_requests + l.rate_window - now
    else 0

unfoldable pub remaining : Domain → ℕ → Waits
remaining d now = record {
  cooldown = d.cooldown - now;
  occupancy = if d.occupied then 1_000_000 else 0;
  interval = interval_wait d.limits.min_interval now d.last_start;
  window = window_wait d.limits now (active d.limits.rate_window now d.starts);
}

-- any(remaining)
abbrev pub is_blocked : Waits → Bool
is_blocked w = ltb 0 w.cooldown || ltb 0 w.occupancy || ltb 0 w.interval || ltb 0 w.window

abbrev pub max : ℕ → ℕ → ℕ
max a b = if leb a b then b else a

-- max(remaining)
abbrev pub longest : Waits → ℕ
longest w = max (max (max w.cooldown w.occupancy) w.interval) w.window

abbrev gate : Identifier → GateName → GateOutcome → ℕ → GateResult
gate key name refusal wait = record {
  scope = Scope.provider;
  key_alias = key;
  outcome = if ltb 0 wait then refusal else GateOutcome.acquired;
  detail = name;
}

-- `gates`
abbrev pub gate_results : Identifier → Waits → List GateResult
gate_results key w =
    gate key GateName.cooldown GateOutcome.cooldown w.cooldown
    ∷ gate key GateName.occupancy GateOutcome.blocked w.occupancy
    ∷ gate key GateName.minimum_interval GateOutcome.blocked w.interval
    ∷ gate key GateName.rolling_window GateOutcome.blocked w.window
    ∷ []
