-- ===== src/Schema/Codes.antt =====
-- The codes that a `RuntimeStorageError` carries.
use system_trade_with_llm_or.Schema.States.{GateScope, BlockReason}

pub data Code : Type 0 where
  unsupported_runtime_schema runtime_schema_metadata_mismatch : Code
  runtime_database_integrity_failed : Code
  stale_runtime_lease runtime_clock_rollback runtime_lease_expired runtime_lease_held : Code
  lease_reconciliation_required runtime_lease_acquisition_failed : Code
  runtime_lease_heartbeat_failed runtime_lease_release_failed runtime_fence_validation_failed : Code
  logical_request_persistence_failed queue_enqueue_failed queue_full : Code
  queue_scheduler_inconsistent queue_claim_race queue_claim_failed : Code
  request_admission_failed single_flight_state_inconsistent single_flight_scope_mismatch : Code
  single_flight_consumer_not_active in_flight_cancellation_requires_transport_result : Code
  request_cancellation_failed logical_request_not_cancellable : Code
  invalid_source_approval_version invalid_source_profile_version : Code
  logical_request_lineage_mismatch logical_request_consumer_mismatch : Code
  logical_request_lineage_read_failed : Code
  gate_attempt_generation_mismatch gate_request_not_dequeued gate_request_not_active : Code
  physical_attempt_sequence_rejected physical_attempt_reservation_mismatch : Code
  gate_acquisition_failed gate_state_inconsistent stale_gate_reservation gate_release_failed : Code
  invalid_gate_release_outcome successful_attempt_requires_raw_candidate invalid_retry_after : Code
  gate_blocked : GateScope → BlockReason → Code
  physical_attempt_persistence_failed physical_attempt_logical_not_active : Code
  physical_attempt_already_unknown physical_attempt_already_active : Code
  physical_attempt_reservation_failed physical_attempt_discard_rejected : Code
  physical_attempt_discard_failed physical_attempt_transition_rejected : Code
  physical_attempt_transition_failed : Code
  raw_publication_attempt_mismatch raw_publication_intent_failed : Code
  raw_publication_transition_rejected raw_publication_commit_failed : Code
  raw_publication_transition_failed raw_publication_read_failed : Code
  raw_publication_reference_not_committed : Code
  logical_request_has_active_attempt logical_success_attempts_invalid : Code
  logical_unknown_attempt_missing logical_request_not_active single_flight_leader_required : Code
  single_flight_audit_gap single_flight_follower_has_attempt : Code
  logical_result_persistence_failed : Code
  expired_runtime_lease_not_found runtime_recovery_clock_or_generation_anomaly : Code
  runtime_recovery_audit_gap runtime_recovery_lease_race runtime_recovery_failed : Code
