-- ===== src/Coordination/Types.antt =====
-- internal/coordination/types.go: what the coordinators exchange. Identifiers, revisions and the
-- texts of requests are numbers; a UUID is a number too. An empty reason or scope is `none`.
use vllm_priority_gateway.Base.{ℕ, Bool, ◌&&◌, Option, ℤ, pos, leb_ℤ, is_none, not}
use vllm_priority_gateway.Domain.{PriorityClass, CircuitState, InferenceOutcome}

pub data Reason : Type 0 where
  concurrency_exhausted pool_priority_reserve rpm_exhausted tpm_exhausted : Reason
  stale_configuration stale_backend circuit_open probe_capacity_exhausted : Reason
  coordination_unavailable lease_lost stale_operation idempotency_conflict : Reason

pub record AdmissionRequest : Type 0 where
  pub lease_id : ℕ
  pub operation_started_at : ℕ
  pub request_id : ℕ
  pub replica_id : ℕ
  pub configuration_revision : ℕ
  pub api_key_id : ℕ
  pub client_id : ℕ
  pub pool_id : ℕ
  pub client_policy_revision : ℤ
  pub effective_client_limit : ℤ
  pub configured_client_limit : ℤ
  pub pool_gateway_inflight_limit : ℤ
  pub pool_high_priority_reserve : ℤ
  pub priority_class : PriorityClass
  pub requests_per_minute : ℤ
  pub tokens_per_minute : ℤ
  pub lease_ttl : ℤ

pub record LeaseIdentity : Type 0 where
  pub lease_id : ℕ
  pub client_id : ℕ
  pub pool_id : ℕ
  pub request_id : ℕ
  pub replica_id : ℕ
  pub expires_at : ℕ
  pub ttl : ℤ

pub data AdmissionScope : Type 0 where
  client_scope pool_scope : AdmissionScope

pub record AdmissionDecision : Type 0 where
  pub lease : Option LeaseIdentity
  pub reason : Option Reason
  pub retry_at : Option ℕ
  pub concurrency_scope : Option AdmissionScope

unfoldable pub admitted : AdmissionDecision → Bool
admitted d = not (is_none d.lease) && is_none d.reason

pub record RenewResult : Type 0 where
  pub lease : LeaseIdentity
  pub reason : Option Reason

pub record TokenUsage : Type 0 where
  pub input_tokens : ℤ
  pub output_tokens : ℤ
  pub cache_read_tokens : ℤ

unfoldable pub usage_valid : TokenUsage → Bool
usage_valid u =
    leb_ℤ (pos 0) u.input_tokens
    && leb_ℤ (pos 0) u.output_tokens
    && leb_ℤ (pos 0) u.cache_read_tokens
    && leb_ℤ u.cache_read_tokens u.input_tokens

pub record LeaseCompletion : Type 0 where
  pub lease : LeaseIdentity
  pub usage : Option TokenUsage

pub data CompletionResult : Type 0 where
  released lost already_completed : CompletionResult

pub record CompleteResult : Type 0 where
  pub lease_id : ℕ
  pub result : Option CompletionResult
  pub original_result : Option CompletionResult
  pub reason : Option Reason

pub record BackendIdentity : Type 0 where
  pub id : ℕ
  pub revision : ℕ
  pub enabled : Bool
  pub draining : Bool

-- The generation is the `uint64` of the breaker, which Go converts to `int64` bit by bit.
pub record CircuitSnapshot : Type 0 where
  pub backend : BackendIdentity
  pub state : CircuitState
  pub generation : ℕ
  pub failure_count : ℕ
  pub retry_at : ℕ
  pub probes_in_flight : ℕ
  pub available : Bool

pub record CircuitAcquireRequest : Type 0 where
  pub attempt_id : ℕ
  pub acquisition_started_at : ℕ
  pub replica_id : ℕ
  pub backend : BackendIdentity
  pub probe_ttl : ℤ

pub record ProbeIdentity : Type 0 where
  pub permit_id : ℕ
  pub backend : BackendIdentity
  pub generation : ℕ
  pub replica_id : ℕ
  pub expires_at : ℕ
  pub ttl : ℤ

pub record CircuitDecision : Type 0 where
  pub snapshot : Option CircuitSnapshot
  pub permit : Option ProbeIdentity
  pub reason : Option Reason

pub record CircuitCompletion : Type 0 where
  pub attempt_id : ℕ
  pub backend : BackendIdentity
  pub generation : ℕ
  pub outcome : InferenceOutcome
  pub reported_outcome_at : ℕ
