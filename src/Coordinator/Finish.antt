-- ===== src/Coordinator/Finish.antt =====
-- `Coordinator.attempt` after `transport.send`: what was received, its events and its result.
use system_trade_with_llm_or.Prelude.{
  ℕ, ◌+◌, ◌-◌, Bool, false, Option, none, some, List, [], ◌∷◌, ◌++◌, ltb, if◌then◌else◌, is_some,
}
use system_trade_with_llm_or.Schema.{Identifier, Instant}
use system_trade_with_llm_or.Sources.{micros}
use system_trade_with_llm_or.Coordinator.Events.{
  EventType, RequestOutcome, Reason, RequestError, Event, validate_event,
}
use system_trade_with_llm_or.Coordinator.Gates.{
  Domain, World, assign, domain_of, Reading, clock, max,
}
use system_trade_with_llm_or.Coordinator.Results.{
  Category, TransportResponse, is_valid, Reply, raises, malformed, replies, Status, AttemptResult,
  Ticket, rate_domain, draft, collect, logged, started,
}

abbrev pub category_reason : Category → Reason
category_reason Category.ok = Reason.ok
category_reason Category.provider_error = Reason.provider_error
category_reason Category.rate_limited = Reason.rate_limited

-- The response that is used, and the reason, after the first inner `try`.
abbrev pub receive : Reply → Option TransportResponse × Reason
receive raises = (none, Reason.transport_exception)
receive malformed = (none, Reason.invalid_transport_response)
receive (replies r) =
    if is_valid r
    then (some r, category_reason r.status_category)
    else (none, Reason.invalid_transport_response)

-- What the second inner `try` leaves in the variables, and in `_last_clock` and the cooldown.
pub record Received : Type 0 where
  pub response : Option TransportResponse
  pub reason : Reason
  pub retry : Option ℕ
  pub cooldown_until : Option Instant
  pub received_utc : Instant
  pub last_clock : Option ℕ
  pub cooldown : ℕ

-- datetime.max, in microseconds since 0001-01-01
abbrev pub latest : Instant
latest = 315_537_897_599_999_999

abbrev pub failed_clock : Instant → Option ℕ → ℕ → Received
failed_clock utc last cooldown = record {
  response = none;
  reason = Reason.invalid_response_clock_or_cooldown;
  retry = none;
  cooldown_until = none;
  received_utc = utc;
  last_clock = last;
  cooldown = cooldown;
}

abbrev pub retry_of : Option TransportResponse → Option ℕ
retry_of none = none
retry_of (some r) = elim r.retry_after_seconds [ none ↦ none | some n ↦ micros n ]

-- The second inner `try`, with the domain's cooldown and `_last_clock` at that time.
unfoldable pub settle :
    Option TransportResponse × Reason → Instant → Option ℕ → ℕ → Reading → Received
settle (response, reason) utc last cooldown reading = elim (clock last reading) [
  | none ↦ failed_clock utc last cooldown
  | some (received, received_utc) ↦ elim (retry_of response) [
    | none ↦ record {
      response = response;
      reason = reason;
      retry = none;
      cooldown_until = none;
      received_utc = received_utc;
      last_clock = some received;
      cooldown = cooldown;
    }
    | some retry ↦
        let deadline = max cooldown (received + retry) in
        let until = received_utc + (deadline - received) in
        if ltb latest until then failed_clock utc (some received) cooldown else record {
          response = response;
          reason = reason;
          retry = some retry;
          cooldown_until = some until;
          received_utc = received_utc;
          last_clock = some received;
          cooldown = deadline;
        }
  ]
]

abbrev pub is_success : Option TransportResponse → Bool
is_success none = false
is_success (some r) = r.succeeded

abbrev pub payload_of : Option TransportResponse → Option Identifier
payload_of none = none
payload_of (some r) = r.payload

abbrev pub error_of : Received → Option RequestError
error_of r =
    some
      (record { error_class = r.reason; retry_after = r.retry; cooldown_until = r.cooldown_until })

-- The last events: of the response, and of a cooldown.
abbrev pub outcome_events : Ticket → Received → List Event
outcome_events t r =
    if is_success r.response
    then draft t 3 EventType.physical_succeeded RequestOutcome.succeeded none r.received_utc ∷ []
    else draft t 3 EventType.physical_failed RequestOutcome.failed (error_of r) r.received_utc
      ∷ (if is_some r.cooldown_until
          then draft t 4 EventType.cooldown_recorded RequestOutcome.failed (error_of r)
              r.received_utc
            ∷ []
          else [])

abbrev pub result_of : Ticket → Received → List Event → AttemptResult
result_of t r events =
    if is_success r.response
    then record {
      status = Status.succeeded;
      reason_code = Reason.ok;
      payload = payload_of r.response;
      retry_after = none;
      events = logged t ++ (started t ∷ events);
    }
    else record {
      status = Status.failed;
      reason_code = r.reason;
      payload = none;
      retry_after = r.retry;
      events = logged t ++ (started t ∷ events);
    }

-- The end of `attempt`; `none` is an exception that reaches the caller, where an event of the
-- outcome breaks its contract.
unfoldable pub conclude : Ticket → Received → Option AttemptResult
unfolding validate_event
conclude t r = elim (collect (outcome_events t r)) [
  | none ↦ none
  | some events ↦ some (result_of t r events)
]

abbrev pub release : Domain → ℕ → Domain
release d cooldown = record d { occupied = false; cooldown = cooldown }

-- `attempt` after `transport.send`: the domain is the object that the dictionary holds.
unfoldable pub finish : Ticket → Reply → Reading → World → World × Option AttemptResult
unfolding settle conclude is_valid
finish t reply reading w =
    let d = domain_of (rate_domain t) t.domain.limits w in
    let r = settle (receive reply) t.utc w.last_clock d.cooldown reading in
    (
      record w {
        domains = assign (rate_domain t) (release d r.cooldown) w.domains;
        last_clock = r.last_clock;
      },
      conclude t r,
    )
