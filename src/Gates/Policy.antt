-- ===== src/Gates/Policy.antt =====
-- Limits and keys of the gates, and the statements on gate_state and its companions.
use system_trade_with_llm_or.Prelude.{
  ℕ, ◌+◌, ◌-◌, Bool, none, some, List, [], ◌∷◌, ◌++◌, not, ◌&&◌, ◌==◌, leb, ltb, if◌then◌else◌,
  count_if, update_where, any, is_some,
}
use system_trade_with_llm_or.Schema.{
  Identifier, Instant, Gate, Reservation, ReservationScope, GateStart,
}
use system_trade_with_llm_or.Schema.States.{
  GateScope, ReservationState, same_scope, global, egress, provider, origin, credential, operation,
  task, role,
}
use system_trade_with_llm_or.Schema.Codes.{Code}
use system_trade_with_llm_or.Tables.{has_request, has_attempt, gate_of}
use system_trade_with_llm_or.Tx.{insert_if, update_one, Tx, modify}

-- `GateLimit`; its durations are microseconds, as `timedelta` holds them.
pub record GateLimit : Type 0 where
  pub max_concurrency : ℕ
  pub min_interval : ℕ
  pub requests_per_window : ℕ
  pub window : ℕ

-- `HierarchicalGatePolicy`: a limit for every scope.
abbrev pub GatePolicy : Type 0
GatePolicy = GateScope → GateLimit

pub record GateKeys : Type 0 where
  pub global_key : Identifier
  pub egress : Identifier
  pub provider : Identifier
  pub origin : Identifier
  pub credential : Identifier
  pub operation : Identifier
  pub task : Identifier
  pub role : Identifier

-- `GateKeys.ordered`
abbrev pub ordered : GateKeys → List (GateScope × Identifier)
ordered keys =
    (global, keys.global_key)
    ∷ (egress, keys.egress)
    ∷ (provider, keys.provider)
    ∷ (origin, keys.origin)
    ∷ (credential, keys.credential)
    ∷ (operation, keys.operation)
    ∷ (task, keys.task)
    ∷ (role, keys.role)
    ∷ []

pub record GateReservation : Type 0 where
  pub reservation_id : Identifier
  pub physical_attempt_id : Identifier
  pub logical_request_id : Identifier
  pub lease_generation : ℕ
  pub acquired_at : Instant

-- WHERE scope = ? AND key_alias = ?
abbrev pub at_gate : GateScope → Identifier → Gate → Bool
at_gate scope key g = same_scope g.scope scope && (g.key_alias == key)

abbrev pub occupied_gate : GateScope → Identifier → Gate → Bool
occupied_gate scope key g = same_scope g.scope scope && (g.key_alias == key) && ltb 0 g.active_count

abbrev pub vacate : Gate → Gate
vacate g = record g { active_count = g.active_count - 1 }

-- UPDATE gate_state SET active_count = active_count - 1 WHERE … AND active_count > 0
unfoldable pub leave_gate : Code → ReservationScope → Tx (Unit {0})
leave_gate refused s =
    update_one (λ db. count_if (occupied_gate s.scope s.key_alias) db.gate_state)
      (λ db. record db {
        gate_state = update_where (occupied_gate s.scope s.key_alias) vacate db.gate_state;
      })
      refused

-- INSERT INTO gate_state … ON CONFLICT(scope, key_alias) DO UPDATE
abbrev pub enter : GateScope → Identifier → Instant → List Gate → List Gate
enter scope key now [] =
    record {
      scope = scope;
      key_alias = key;
      active_count = 1;
      last_started_at = some now;
      cooldown_until = none;
    }
    ∷ []
enter scope key now (g ∷ gs) =
    if at_gate scope key g
    then record g { active_count = g.active_count + 1; last_started_at = some now } ∷ gs
    else g ∷ enter scope key now gs

-- INSERT INTO gate_reservations
unfoldable pub insert_reservation : Reservation → Tx (Unit {0})
insert_reservation r =
    insert_if
      (λ db.
        not (any (λ q. q.reservation_id == r.reservation_id) db.gate_reservations)
        && not (any (λ q. q.physical_attempt_id == r.physical_attempt_id) db.gate_reservations)
        && has_attempt db r.physical_attempt_id
        && has_request db r.logical_request_id
        && leb 1 r.lease_generation)
      (λ db. record db { gate_reservations = db.gate_reservations ++ r ∷ [] })

-- INSERT INTO gate_reservation_scopes
unfoldable pub insert_scope : ReservationScope → Tx (Unit {0})
insert_scope s =
    insert_if
      (λ db.
        not (
          any (λ t. (t.reservation_id == s.reservation_id) && same_scope t.scope s.scope)
            db.gate_reservation_scopes)
        && any (λ r. r.reservation_id == s.reservation_id) db.gate_reservations
        && is_some (gate_of db s.scope s.key_alias))
      (λ db. record db { gate_reservation_scopes = db.gate_reservation_scopes ++ s ∷ [] })

-- INSERT INTO gate_starts
unfoldable pub insert_start : GateStart → Tx (Unit {0})
insert_start s =
    insert_if (λ db. any (λ r. r.reservation_id == s.reservation_id) db.gate_reservations)
      (λ db. record db { gate_starts = db.gate_starts ++ s ∷ [] })

abbrev pub set_reservation : ReservationState → Reservation → Reservation
set_reservation state r = record r { state = state }

-- UPDATE gate_reservations SET state = ? WHERE reservation_id = ?
unfoldable pub close_reservation : Identifier → ReservationState → Tx (Unit {0})
close_reservation id state = modify (λ db. record db {
  gate_reservations =
      update_where (λ r. r.reservation_id == id) (set_reservation state) db.gate_reservations;
})

-- SELECT scope, key_alias FROM gate_reservation_scopes WHERE reservation_id = ?
abbrev pub scope_of : Identifier → ReservationScope → Bool
scope_of id s = s.reservation_id == id
