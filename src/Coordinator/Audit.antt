-- ===== src/Coordinator/Audit.antt =====
-- Every attempt returns, with events that keep their contract and tell what it did.
use system_trade_with_llm_or.Prelude.{
  ◌⊎◌, ℕ, ◌≤◌, ◌≡◌, refl, ap, ◌∙◌, Bool, true, false, Option, none, some, List, ◌∷◌, [], ◌++◌,
  if◌then◌else◌, Bool-cases, Option-cases, arith, inl, inr, All, is_some, length,
}
use mathlib.Core.Path.{subst}
use system_trade_with_llm_or.Schema.{Identifier, Instant}
use system_trade_with_llm_or.Sources.{is_unique}
use system_trade_with_llm_or.Sources.Binding.{SourceBinding, limits}
use system_trade_with_llm_or.Coordinator.Events.{
  EventType, RequestOutcome, RequestError, Reason, CoordinatorRequest, Event, validate_event, iff,
  is_failed,
}
use system_trade_with_llm_or.Coordinator.Gates.{
  Domain, World, Waits, clock, domain_of, same_limits, remaining, is_blocked,
}
use system_trade_with_llm_or.Coordinator.Results.{
  Status, AttemptResult, reject, Ticket, rate_domain, draft, collect, logged, started,
}
use system_trade_with_llm_or.Coordinator.Begin.{
  Begun, returns, sends, Supply, require, ensure, hold_back, proceed, evaluate, begin, id_at, start,
}
use system_trade_with_llm_or.Coordinator.Finish.{
  finish, conclude, Received, outcome_events, is_success, result_of, error_of, settle, receive,
}
use system_trade_with_llm_or.Coordinator.Attempts.{Call, call, attempt, attempts}
use system_trade_with_llm_or.Coordinator.Ready.{
  IsReady, begin-sends, Begun-cases, attempt-returns, attempt-sends, length-take,
}

abbrev pub kinds : List Event → List EventType
kinds [] = []
kinds (e ∷ es) = e.event_type ∷ kinds es

abbrev pub ids_of : List Event → List Identifier
ids_of [] = []
ids_of (e ∷ es) = e.event_id ∷ ids_of es

abbrev pub begun_trail : List EventType → List EventType
begun_trail rest = EventType.logical_requested ∷ EventType.gates_evaluated ∷ rest

-- The events that a result of each status has, in their order.
abbrev pub IsTrail : Status → List EventType → Type 0
IsTrail Status.succeeded trail =
    trail ≡ begun_trail (EventType.physical_started ∷ EventType.physical_succeeded ∷ [])
IsTrail Status.failed trail =
    (trail ≡ begun_trail (EventType.physical_started ∷ EventType.physical_failed ∷ []))
    ⊎ (trail
        ≡ begun_trail (
            EventType.physical_started ∷ EventType.physical_failed ∷ EventType.cooldown_recorded
            ∷ []))
IsTrail Status.blocked trail = trail ≡ begun_trail []
IsTrail Status.rejected trail = trail ≡ []

pub record IsAccountable (r : AttemptResult) : Type 0 where
  pub valid : All (λ e. validate_event e ≡ true) r.events
  pub unique : is_unique (ids_of r.events) ≡ true
  pub trail : IsTrail r.status (kinds r.events)

abbrev Ends : Begun → Type 0
Ends (returns r) = IsAccountable r
Ends (sends t) = Unit

reject-IsAccountable : (reason : Reason) → IsAccountable (reject reason)
reject-IsAccountable reason = record { valid = tt; unique = refl; trail = refl }

require-Ends {ℓ} :
    {A : Type ℓ} (o : Option A) (reason : Reason) (f : A → Begun)
    → ((a : A) → o ≡ some a → Ends (f a))
    → Ends (require o (reject reason) f)
unfolding require
require-Ends none reason f h = reject-IsAccountable reason
require-Ends (some a) reason f h = h a refl

ensure-Ends :
    (b : Bool) (reason : Reason) (next : Begun)
    → (b ≡ true → Ends next)
    → Ends (ensure b (reject reason) next)
unfolding ensure
ensure-Ends true reason next h = h refl
ensure-Ends false reason next h = reject-IsAccountable reason

collect_sound :
    (xs es : List Event) → collect xs ≡ some es → (es ≡ xs) × All (λ e. validate_event e ≡ true) xs
collect_sound [] es h = (ground arith, tt)
collect_sound (x ∷ xs) es h = elim (Bool-cases (validate_event x)) [
  | inr broken ↦ absurd (ground arith)
  | inl valid ↦ elim (Option-cases (collect xs)) [
    | inl nothing ↦ absurd (ground arith)
    | inr (rest, found) ↦
        let (same, all) = collect_sound xs rest found in (ground arith, (valid, all))
  ]
]

id_at_two :
    (ids : List Identifier)
    → length ids ≡ 2
    → is_unique ids ≡ true
    → is_unique (id_at ids 0 ∷ id_at ids 1 ∷ []) ≡ true
id_at_two (a ∷ b ∷ []) two h = h
id_at_two [] two h = absurd (omega arith)
id_at_two (a ∷ []) two h = absurd (omega arith)
id_at_two (a ∷ b ∷ c ∷ ds) two h = absurd (omega arith)

hold_back-Ends :
    (t : Ticket) (waits : Waits) (ids : List Identifier)
    → t.event_id ≡ id_at ids
    → length ids ≡ 2
    → is_unique ids ≡ true
    → Ends (hold_back t waits (collect (logged t)))
unfolding hold_back
hold_back-Ends t waits ids made two unique = elim (Option-cases (collect (logged t))) [
  | inl nothing ↦ rw nothing (reject-IsAccountable _)
  | inr (es, found) ↦
      let (same, all) = collect_sound (logged t) es found in
      rw found (record {
        valid = rw same all;
        unique = rw (same, made) (id_at_two ids two unique);
        trail = rw same refl;
      })
]

proceed-Ends :
    (q : CoordinatorRequest) (b : SourceBinding) (d : Domain) (read : ℕ × Instant)
    (physical_id : Option Identifier) (ids : List Identifier)
    → length ids ≡ (if is_blocked (remaining d read.0) then 2 else 5)
    → is_unique ids ≡ true
    → Ends (proceed q b d read physical_id ids)
unfolding proceed
proceed-Ends q b d read physical_id ids sized unique =
    elim (Bool-cases (is_blocked (remaining d read.0))) [
      | inl shut ↦ rw shut (hold_back-Ends _ _ ids refl (rw shut at sized) unique)
      | inr clear ↦
          rw clear (require-Ends physical_id _ _ (λ physical _. require-Ends _ _ _ (λ _ _. tt)))
    ]

begin-Ends :
    (request : Option CoordinatorRequest) (binding : Option SourceBinding) (supply : Supply)
    (w : World)
    → Ends (begin request binding supply w)
unfolding begin evaluate
begin-Ends request binding supply w = require-Ends binding _ _ λ b _.
    require-Ends request _ _ λ q _. require-Ends (limits b) _ _ λ l _.
      require-Ends (clock w.last_clock supply.reading) _ _ λ read _.
        let d = domain_of b.profile.rate_domain l w in
        ensure-Ends (same_limits d.limits l) _ _ λ _. require-Ends _ _ _ λ ids taken.
          ensure-Ends (is_unique ids) _ _ λ unique.
            proceed-Ends q b d read supply.physical_id ids
              (length-take (if is_blocked (remaining d read.0) then 2 else 5) supply.event_id ids
                taken)
              unique

id_at_five :
    (ids : List Identifier)
    → length ids ≡ 5
    → is_unique ids ≡ true
    → is_unique (id_at ids 0 ∷ id_at ids 1 ∷ id_at ids 2 ∷ id_at ids 3 ∷ id_at ids 4 ∷ []) ≡ true
id_at_five (a ∷ b ∷ c ∷ d ∷ e ∷ []) five h = h
id_at_five [] five h = absurd (omega arith)
id_at_five (a ∷ []) five h = absurd (omega arith)
id_at_five (a ∷ b ∷ []) five h = absurd (omega arith)
id_at_five (a ∷ b ∷ c ∷ []) five h = absurd (omega arith)
id_at_five (a ∷ b ∷ c ∷ d ∷ []) five h = absurd (omega arith)
id_at_five (a ∷ b ∷ c ∷ d ∷ e ∷ f ∷ gs) five h = absurd (omega arith)

unique_init :
    (a b c d e : ℕ)
    → is_unique (a ∷ b ∷ c ∷ d ∷ e ∷ []) ≡ true
    → is_unique (a ∷ b ∷ c ∷ d ∷ []) ≡ true
unique_init a b c d e h = ground arith

collect_complete : (xs : List Event) → All (λ e. validate_event e ≡ true) xs → collect xs ≡ some xs
collect_complete [] h = refl
collect_complete (x ∷ xs) h = rw (h.0, collect_complete xs h.1) refl

module _ (t : Ticket) (w : World) (ready : IsReady w t) where
  start_valid : All (λ e. validate_event e ≡ true) (logged t ++ (started t ∷ []))
  start_valid = elim (Option-cases (collect (logged t ++ (started t ∷ [])))) [
    | inl nothing ↦ absurd (cc (ap is_some nothing, ready.logs))
    | inr (es, found) ↦ (collect_sound (logged t ++ (started t ∷ [])) es found).1
  ]

  -- Once the start keeps its contract, so does each event of the outcome.
  later_valid :
      (i : ℕ) (kind : EventType) (outcome : RequestOutcome) (error : Option RequestError)
      (at : Instant)
      → 2 ≤ i
      → iff (is_failed outcome) (is_some error) ≡ true
      → validate_event (draft t i kind outcome error at) ≡ true
  unfolding validate_event
  later_valid i kind outcome error at late agrees =
      let (physical, sent) = ready.physical in let valid = start_valid.1.1.0 in ground arith

  succeeded_valid :
      (r : Received)
      → validate_event
          (draft t 3 EventType.physical_succeeded RequestOutcome.succeeded none r.received_utc)
        ≡ true
  succeeded_valid r = later_valid 3 _ _ _ _ (omega arith) refl

  failed_valid :
      (r : Received) (i : ℕ) (kind : EventType)
      → 2 ≤ i
      → validate_event (draft t i kind RequestOutcome.failed (error_of r) r.received_utc) ≡ true
  failed_valid r i kind late = later_valid i kind _ _ _ late refl

  outcome_valid : (r : Received) → All (λ e. validate_event e ≡ true) (outcome_events t r)
  outcome_valid r = elim (Bool-cases (is_success r.response)) [
    | inl won ↦ rw won (succeeded_valid r, tt)
    | inr lost ↦ elim (Bool-cases (is_some r.cooldown_until)) [
      | inl cooling ↦
          rw (lost, cooling)
            (
              failed_valid r 3 EventType.physical_failed (omega arith),
              (failed_valid r 4 EventType.cooldown_recorded (omega arith), tt),
            )
      | inr none_set ↦
          rw (lost, none_set) (failed_valid r 3 EventType.physical_failed (omega arith), tt)
    ]
  ]

  distinct :
      is_unique (t.event_id 0 ∷ t.event_id 1 ∷ t.event_id 2 ∷ t.event_id 3 ∷ t.event_id 4 ∷ [])
      ≡ true
  distinct =
      let (ids, made, five, unique) = ready.unique_ids in rw made (id_at_five ids five unique)

  distinct_but_last :
      is_unique (t.event_id 0 ∷ t.event_id 1 ∷ t.event_id 2 ∷ t.event_id 3 ∷ []) ≡ true
  distinct_but_last =
      unique_init (t.event_id 0) (t.event_id 1) (t.event_id 2) (t.event_id 3) (t.event_id 4)
        distinct

  result-events :
      (r : Received) (es : List Event) → (result_of t r es).events ≡ logged t ++ (started t ∷ es)
  result-events r es = elim (Bool-cases (is_success r.response)) [
    | inl won ↦ rw won refl
    | inr lost ↦ rw lost refl
  ]

  result_unique :
      (r : Received) → is_unique (ids_of (logged t ++ (started t ∷ outcome_events t r))) ≡ true
  result_unique r = elim (Bool-cases (is_success r.response)) [
    | inl won ↦ rw won distinct_but_last
    | inr lost ↦ elim (Bool-cases (is_some r.cooldown_until)) [
      | inl cooling ↦ rw (lost, cooling) distinct
      | inr none_set ↦ rw (lost, none_set) distinct_but_last
    ]
  ]

  result-trail :
      (r : Received)
      → IsTrail
          (result_of t r (outcome_events t r)).status
          (kinds (logged t ++ (started t ∷ outcome_events t r)))
  result-trail r = elim (Bool-cases (is_success r.response)) [
    | inl won ↦ rw won refl
    | inr lost ↦ elim (Bool-cases (is_some r.cooldown_until)) [
      | inl cooling ↦ rw (lost, cooling) (inr refl)
      | inr none_set ↦ rw (lost, none_set) (inl refl)
    ]
  ]

  -- The end of an attempt returns its result.
  conclude-IsAccountable :
      (r : Received) → (a : AttemptResult) × (conclude t r ≡ some a) × IsAccountable a
  unfolding conclude
  conclude-IsAccountable r =
      let events = result-events r (outcome_events t r) in
      (
        result_of t r (outcome_events t r),
        ap (λ o. elim o [ none ↦ none | some es ↦ some (result_of t r es) ])
            (collect_complete (outcome_events t r) (outcome_valid r)),
        record {
          valid =
              rw events (start_valid.0, (start_valid.1.0, (start_valid.1.1.0, outcome_valid r)));
          unique = rw events (result_unique r);
          trail = rw events (result-trail r);
        },
      )

-- Every attempt returns a result: no exception leaves it once it has started to send. Each event of
-- the result keeps the event contract, no two share an identifier, and their types tell the
-- status: none where it was rejected, the request and the gates where it was blocked, and the start
-- and its outcome after these where it was sent.
pub attempt_returns_audited :
    (c : Call) (w : World) → (r : AttemptResult) × ((attempt c w).1 ≡ some r) × IsAccountable r
unfolding finish
attempt_returns_audited (call request binding supply nested reply reading) w =
    elim (Begun-cases (begin request binding supply w)) [
      | inl (r, same) ↦
          let runs = attempt-returns request binding supply nested reply reading w r same in
          (r, ap (λ o. o.1) runs, subst Ends same (begin-Ends request binding supply w))
      | inr (t, same) ↦
          let ready = begin-sends request binding supply w t same in
          let during = attempts nested (start t w) in
          let (r, ends, audited) = conclude-IsAccountable t w ready (
            settle (receive reply) t.utc during.last_clock
              (domain_of (rate_domain t) t.domain.limits during).cooldown reading) in
          let runs = attempt-sends request binding supply nested reply reading w t same in
          (r, ap (λ o. o.1) runs ∙ ends, audited)
    ]
