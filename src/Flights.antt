-- ===== src/Flights.antt =====
-- Single flight in requests/storage.py: one leader sends for every consumer of a fingerprint, and
-- its result is delivered to all.
pub mod Results
pub mod Reconcile
pub mod Admit
pub mod Cancel
