-- ===== src/Coordinator/Examples.antt =====
-- The theorems on sources and the coordinator at a source with two requests in ten seconds.
use mathlib.Core.Logic.{◌↔◌}
use system_trade_with_llm_or.Prelude.{
  ℕ, ◌+◌, ◌≤◌, ◌≡◌, refl, true, false, none, some, List, [], ◌∷◌, ◌++◌, arith, All,
}
use system_trade_with_llm_or.Sources.{
  SchemaId, ApprovalStatus, KnowledgeStatus, Category, SourceCondition, SourceApproval,
  SourceProfile, QuantitativeSetting, Number, int, float, Measure, categories,
}
use system_trade_with_llm_or.Sources.Binding.{
  Limits, Artifact, approval_model, profile_model, SourceBinding, binding_of, bind_source,
  approval_type, limits,
}
use system_trade_with_llm_or.Sources.Approved.{IsSafeToUse, bound_source_is_approved}
use system_trade_with_llm_or.Coordinator.Events.{CoordinatorRequest, Reason}
use system_trade_with_llm_or.Coordinator.Gates.{
  Domain, World, initial, fresh, lookup, remaining, is_blocked, Reading,
}
use system_trade_with_llm_or.Coordinator.Pace.{times_of}
use system_trade_with_llm_or.Coordinator.Results.{
  Category as StatusCategory, TransportResponse, is_valid, replies, AttemptResult, Status, Ticket,
}
use system_trade_with_llm_or.Coordinator.Begin.{
  Supply, Begun, returns, sends, begin, start, occupy, require, ensure, evaluate, proceed,
  hold_back, ticket,
}
use system_trade_with_llm_or.Coordinator.Attempts.{
  Call, call, Calls, done, then_call, attempt, attempts,
}
use system_trade_with_llm_or.Coordinator.Rates.{
  Reached, initially, attempted, IsWithinLimits, sends_are_paced, IsAllowed, gates_refine_history,
}
use system_trade_with_llm_or.Coordinator.Reentry.{Shows, reentrant_attempts_are_shut_out}
use system_trade_with_llm_or.Coordinator.Cooldown.{retry_after_defers_sends}
use system_trade_with_llm_or.Coordinator.Waits.{retry_after_is_exact}
use system_trade_with_llm_or.Coordinator.Audit.{IsAccountable, attempt_returns_audited}

abbrev conditions : List Category → List SourceCondition
conditions [] = []
conditions (c ∷ cs) =
    record {
      category = c;
      knowledge_status = KnowledgeStatus.known;
      official_reference_ids = 9 ∷ [];
    }
    ∷ conditions cs

abbrev approval : SourceApproval
approval = record {
  schema_id = SchemaId.source_approval;
  schema_version = 1;
  artifact_id = 50;
  source_id = 5;
  status = ApprovalStatus.approved;
  approved_by = some 1;
  effective_on = some 100;
  recheck_due_on = some 200;
  credential_scope_alias = none;
  online_use_allowed = true;
  external_agent_transfer_allowed = false;
  official_references = 9 ∷ [];
  conditions = conditions categories;
}

abbrev known : Number → Measure → QuantitativeSetting
known n measure = record {
  knowledge_status = KnowledgeStatus.known;
  value = some n;
  measure = measure;
}

abbrev missing : QuantitativeSetting
missing = record {
  knowledge_status = KnowledgeStatus.unsupported;
  value = none;
  measure = Measure.second;
}

abbrev profile : SourceProfile
profile = record {
  schema_id = SchemaId.source_profile;
  schema_version = 1;
  artifact_id = 60;
  source_id = 5;
  profile_version = 1;
  policy_version = 1;
  source_approval_reference = record {
    artifact_type = approval_type;
    artifact_id = 50;
    schema_id = SchemaId.source_approval;
    schema_version = 1;
    sha256 = 777;
  };
  source_approval_status = ApprovalStatus.approved;
  enabled = true;
  rate_domain = 3;
  credential_scope_alias = none;
  max_concurrency = 1;
  min_interval_seconds = known (float 2_500_000) Measure.second;
  rate_requests = known (int 2) Measure.request;
  rate_window_seconds = known (int 10) Measure.second;
  burst = 1;
  cache_enabled = false;
  cache_ttl_seconds = missing;
  batch_support_status = KnowledgeStatus.unsupported;
  max_batch_size = missing;
  default_cooldown_seconds = missing;
  direct_connection_fallback_allowed = false;
}

abbrev files : List Artifact
files =
    record { model = profile_model profile; sha256 = 888 }
    ∷ record { model = approval_model approval; sha256 = 777 }
    ∷ []

abbrev binding : SourceBinding
binding = binding_of (approval, 777) (profile, 888) 150

bound_source_is_approved_example : IsSafeToUse files 5 1 1 150 binding
unfolding bind_source
bound_source_is_approved_example = bound_source_is_approved files 5 1 1 150 binding refl

abbrev request : CoordinatorRequest
request = record {
  task_id = 1;
  consumer_role = 1;
  operation = 1;
  origin = 1;
  resource_key = 1;
  logical_request_id = 1;
  applicable_period = 1;
  freshness_identity = 1;
}

abbrev reading : ℕ → Reading
reading now = record { monotonic = some now; utc = some (1_000_000_000 + now) }

abbrev supply : ℕ → Supply
supply now = record { reading = reading now; event_id = λ i. some (100 + i); physical_id = some 7 }

abbrev found : TransportResponse
found = record {
  succeeded = true;
  payload = some 42;
  status_category = StatusCategory.ok;
  retry_after_seconds = none;
}

abbrev limited : TransportResponse
limited = record {
  succeeded = false;
  payload = none;
  status_category = StatusCategory.rate_limited;
  retry_after_seconds = some (int 30);
}

-- An attempt at `now`, whose transport attempts the same domain again, and is answered a second
-- later.
abbrev nested : ℕ → Calls
nested now =
    then_call (call (some request) (some binding) (supply now) done (replies found) (reading now))
      done

abbrev attempt_at : ℕ → TransportResponse → Call
attempt_at now response =
    call (some request) (some binding) (supply now) (nested now) (replies response)
      (reading (now + 1_000_000))

after_first : World
unfolding attempt limits require ensure evaluate remaining proceed hold_back
after_first = (attempt (attempt_at 0 found) initial).0

after_first-Reached : Reached after_first
unfolding after_first
after_first-Reached = attempted (attempt_at 0 found) initially

sends_are_paced_example :
    IsWithinLimits (lookup 3 after_first.domains) (times_of 3 after_first.sent)
sends_are_paced_example = sends_are_paced after_first 3 after_first-Reached

abbrev source_limits : Limits
source_limits = record {
  min_interval = 2_500_000;
  rate_requests = 2;
  rate_window = 10_000_000;
  cooldown_status = KnowledgeStatus.unsupported;
}

abbrev idle_domain : Domain
idle_domain = record {
  limits = source_limits;
  occupied = false;
  last_start = some 0;
  starts = 0 ∷ [];
  cooldown = 0;
}

gates_refine_history_example :
    (is_blocked (remaining idle_domain 3_000_000) ≡ false)
    ↔ IsAllowed idle_domain (times_of 3 after_first.sent) 3_000_000
unfolding after_first
gates_refine_history_example =
    gates_refine_history after_first 3 idle_domain 3_000_000 after_first-Reached refl refl

abbrev first_ticket : Ticket
first_ticket =
    ticket request binding (fresh source_limits) (0, 1_000_000_000)
      (100 ∷ 101 ∷ 102 ∷ 103 ∷ 104 ∷ []) (some 7)

begin_first : begin (some request) (some binding) (supply 0) initial ≡ sends first_ticket
unfolding after_first begin
begin_first = refl

reentrant_attempts_are_shut_out_example :
    Shows 3
      (occupy first_ticket.domain 0)
      (times_of 3 (start first_ticket initial).sent)
      (attempts (nested 0) (start first_ticket initial))
reentrant_attempts_are_shut_out_example =
    reentrant_attempts_are_shut_out (some request) (some binding) (supply 0) (nested 0) initial
      first_ticket begin_first

abbrev later_attempts : Calls
later_attempts =
    then_call (attempt_at 5_000_000 found) (then_call (attempt_at 40_000_000 found) done)

retry_after_defers_sends_example :
    let after = (attempt (attempt_at 0 limited) initial).0 in
    (new : List ℕ) × (times_of 3 (attempts later_attempts after).sent
      ≡ times_of 3 after.sent ++ new)
    × All (λ u. 31_000_000 ≤ u) new
unfolding after_first begin is_valid
retry_after_defers_sends_example =
    retry_after_defers_sends (some request) (some binding) (supply 0) (nested 0) limited
      (reading 1_000_000) initial first_ticket 1_000_000 30_000_000 1_001_000_000 later_attempts
      begin_first refl refl refl (omega arith)

abbrev result_of : Begun → AttemptResult
result_of (returns r) = r
result_of (sends t) = record {
  status = Status.failed;
  reason_code = Reason.ok;
  payload = none;
  retry_after = none;
  events = [];
}

second : AttemptResult
unfolding after_first begin
second = result_of (begin (some request) (some binding) (supply 1_500_000) after_first)

retry_after_is_exact_example :
    (is_blocked (remaining idle_domain 2_600_000) ≡ false) ↔ (1_500_000 + 1_000_000 ≤ 2_600_000)
unfolding second
retry_after_is_exact_example =
    retry_after_is_exact (some request) binding (supply 1_500_000) after_first second idle_domain
      1_000_000 1_500_000 2_600_000 1_001_500_000 after_first-Reached refl refl refl refl refl
      (omega arith)

attempt_returns_audited_example :
    (r : AttemptResult) × ((attempt (attempt_at 0 limited) initial).1 ≡ some r) × IsAccountable r
attempt_returns_audited_example = attempt_returns_audited (attempt_at 0 limited) initial
