-- ===== src/Runtime/Cooldown.antt =====
-- A provider's cooldown only grows, and while it lasts no acquisition passes the provider's gate.
use system_trade_with_llm_or.Prelude.{
  ◌≤◌, ◌<◌, ◌≡◌, refl, Bool, false, Option, none, some, List, [], ◌∷◌, arith, find, update_where,
}
use system_trade_with_llm_or.Schema.{Database, Identifier, Instant, Gate}
use system_trade_with_llm_or.Schema.States.{GateScope, provider}
use system_trade_with_llm_or.Tables.{gate_of}
use system_trade_with_llm_or.Tx.Keeps.{Keeps-insert_if, Keeps-update_one, Keeps-modify}
use system_trade_with_llm_or.Gates.Policy.{
  at_gate, vacate, enter, leave_gate, insert_reservation, insert_scope, insert_start,
  close_reservation, GateLimit, GatePolicy, GateKeys, GateReservation,
}
use system_trade_with_llm_or.Gates.Capacity.{HasRoom, acquired_gates_stay_within_limits}
use system_trade_with_llm_or.Lease.{RuntimeLease}
use system_trade_with_llm_or.Tx.{ok}
use system_trade_with_llm_or.Gates.Acquire.{
  NewAttempt, acquire_gates, before, gate_cooldown, count_in,
}
use system_trade_with_llm_or.Gates.Finish.{cool, cool_provider, extend_cooldown}
use system_trade_with_llm_or.Runtime.{Command, run}
use system_trade_with_llm_or.Runtime.Units.{Units}
use system_trade_with_llm_or.Runtime.Units.Frames.{
  events_frame, requests_frame, queue_frame, attempts_frame, flights_frame, publications_frame,
  lease_frame,
}
use system_trade_with_llm_or.Runtime.Walk.{run_keeps}

abbrev pub IsAtLeast : Instant → Option Instant → Type 0
IsAtLeast deadline none = ⊥
IsAtLeast deadline (some t) = deadline ≤ t

-- The gate cools down until `deadline` or later.
abbrev pub IsCooling : GateScope → Identifier → Instant → Database → Type 0
IsCooling scope key deadline db = IsAtLeast deadline (gate_cooldown (gate_of db scope key))

-- A change of rows that keeps their keys and never shortens a cooldown.
cooldown-update :
    (scope : GateScope) (key : Identifier) (deadline : Instant) (test : Gate → Bool)
    (change : Gate → Gate) (rows : List Gate)
    → ((g : Gate) → (at_gate scope key (change g) ≡ at_gate scope key g))
    → ((g : Gate)
        → IsAtLeast deadline g.cooldown_until
        → IsAtLeast deadline (change g).cooldown_until)
    → IsAtLeast deadline (gate_cooldown (find (at_gate scope key) rows))
    → IsAtLeast deadline (gate_cooldown (find (at_gate scope key) (update_where test change rows)))
cooldown-update scope key deadline test change [] keys grows h = h
cooldown-update scope key deadline test change (g ∷ rows) keys grows h =
    ground (arith, keys g, grows g, cooldown-update scope key deadline test change rows keys grows)

cooldown-enter :
    (scope : GateScope) (key : Identifier) (deadline : Instant) (at : GateScope)
    (alias : Identifier) (now : Instant) (rows : List Gate)
    → IsAtLeast deadline (gate_cooldown (find (at_gate scope key) rows))
    → IsAtLeast deadline (gate_cooldown (find (at_gate scope key) (enter at alias now rows)))
cooldown-enter scope key deadline at alias now [] h = absurd h
cooldown-enter scope key deadline at alias now (g ∷ rows) h =
    ground (arith, cooldown-enter scope key deadline at alias now rows)

extend-grows :
    (deadline later : Instant) (t : Option Instant)
    → IsAtLeast deadline t
    → IsAtLeast deadline (extend_cooldown later t)
extend-grows deadline later none h = absurd h
extend-grows deadline later (some t) h = ground arith

module _ (scope : GateScope) (key : Identifier) (deadline : Instant) where
  units-IsCooling : Units (IsCooling scope key deadline)
  unfolding leave_gate count_in insert_reservation insert_scope insert_start close_reservation
      cool_provider
  units-IsCooling = record {
    events = events_frame (λ db _ _ _ h. h);
    requests = requests_frame (λ db _ _ h. h);
    queue = queue_frame (λ db _ _ h. h);
    attempts = attempts_frame (λ db _ h. h);
    gates = record {
      leave = λ refused s. Keeps-update_one _ _ _ (λ db _ h.
          cooldown-update scope key deadline _ vacate db.gate_state (λ g. refl) (λ g k. k) h);
      count = λ at alias now.
          Keeps-modify _ (λ db h. cooldown-enter scope key deadline at alias now db.gate_state h);
      reservation = λ r. Keeps-insert_if _ _ (λ db _ h. h);
      scope = λ s. Keeps-insert_if _ _ (λ db _ h. h);
      start = λ s. Keeps-insert_if _ _ (λ db _ h. h);
      close = λ id state. Keeps-modify _ (λ db h. h);
      cool = λ alias later. Keeps-modify _ (λ db h.
          cooldown-update scope key deadline _ (cool later) db.gate_state (λ g. refl)
            (λ g k. extend-grows deadline later g.cooldown_until k) h);
    };
    flights = flights_frame (λ db _ _ h. h);
    publications = publications_frame (λ db _ h. h);
    lease = lease_frame (λ db _ h. h);
  }

  -- A gate that cools down until `deadline` or later still does after any history of commands.
  pub cooldown_never_shortens :
      (cs : List Command) (db : Database)
      → IsCooling scope key deadline db
      → IsCooling scope key deadline (run cs db)
  cooldown_never_shortens = run_keeps units-IsCooling

-- A gate that is cooling down has no room.
still_cooling :
    (limit : GateLimit) (now : Instant) (db : Database) (scope : GateScope) (key : Identifier)
    (deadline : Instant)
    → IsCooling scope key deadline db
    → now < deadline
    → ¬ HasRoom limit scope key now db
still_cooling limit now db scope key deadline cooling early room =
    warm (gate_cooldown (gate_of db scope key)) cooling room.warm
  where
    warm : (t : Option Instant) → IsAtLeast deadline t → before now t ≡ false → ⊥
    warm none h w = h
    warm (some t) h w = ground arith

-- Whatever happened since a provider began to cool down, an acquisition of its gate before
-- the deadline is refused.
pub cooldown_refuses_until_deadline :
    (cs : List Command) (start : Database) (deadline : Instant) (reservation : Identifier)
    (attempt : NewAttempt) (keys : GateKeys) (policy : GatePolicy) (lease : RuntimeLease)
    (now : Instant) (r : GateReservation) (db' : Database)
    → IsCooling provider keys.provider deadline start
    → now < deadline
    → ¬ (acquire_gates reservation attempt keys policy lease now (run cs start) ≡ (ok r, db'))
cooldown_refuses_until_deadline cs start deadline reservation attempt keys policy lease now r db'
      cooling early h =
    let (r0, (r1, (at_provider, rest))) =
      acquired_gates_stay_within_limits reservation attempt keys policy lease now (run cs start) r
        db' h in
    still_cooling (policy provider) now (run cs start) provider keys.provider deadline
      (cooldown_never_shortens provider keys.provider deadline cs start cooling) early
      at_provider.room
