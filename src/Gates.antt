-- ===== src/Gates.antt =====
-- The hierarchical gates of requests/storage.py: `acquire_gates`, `release_gates`,
-- `record_retry_after`, `record_unknown_outcome`, `_finish_gate_reservation` and
-- `_release_gate_occupancy`, with `GateLimit`, `HierarchicalGatePolicy`, `GateKeys` and
-- `GateReservation` of requests/production.py.
pub mod Policy
pub mod Acquire
pub mod Finish
pub mod Counts
pub mod Capacity
pub mod Blocked
