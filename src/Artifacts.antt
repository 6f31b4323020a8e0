-- ===== src/Artifacts.antt =====
-- requests/raw_artifacts.py: `RawArtifactPublisher`, over a disk, the request repository, and a
-- schedule of failures and crashes.
pub mod Disk
pub mod Io
pub mod Paths
pub mod Publish
pub mod Reconcile
pub mod Rules
pub mod Exact
pub mod Rows
pub mod States
pub mod Calls
pub mod Kept
pub mod Replayed
pub mod Settled
pub mod Repaired
pub mod Reconciled
pub mod Succeeds
pub mod History
pub mod Again
mod Examples
