-- ===== src/Coordinator.antt =====
-- requests/coordinator.py: `Coordinator`, with `CoordinatorRequest`, `TransportResponse` and
-- `AttemptResult` of requests/models.py. Monotonic times, durations and UTC instants count
-- microseconds; sums of them are exact, where the code's floats may round.
pub mod Events
pub mod Gates
pub mod Results
pub mod Begin
pub mod Finish
pub mod Attempts
pub mod Pace
pub mod Ready
pub mod Sound
pub mod Rates
pub mod Reentry
pub mod Cooldown
pub mod Waits
pub mod Windows
pub mod Audit
mod Examples
