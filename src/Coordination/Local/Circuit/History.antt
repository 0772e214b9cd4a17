-- ===== src/Coordination/Local/Circuit/History.antt =====
-- Any sequence of calls of the local circuit coordinator, and the attempts it leaves
-- (internal/coordination/local/circuit.go).
use vllm_priority_gateway.Coordination.Local.Circuit.Calls.{
  reconcile-NoMore, snapshot_at-NoMore, complete-NoMore, renew_probes-NoMore, status-NoMore,
}
use vllm_priority_gateway.Base.{
  ℕ, ◌≤◌, ◌≡◌, subst, some-eq, Bool, some, List, [], ◌∷◌, length, arith, ℤ,
}
use vllm_priority_gateway.CircuitBreaker.{Settings, NewResult, created, refused, new}
use vllm_priority_gateway.Coordination.Types.{
  BackendIdentity, ProbeIdentity, CircuitCompletion, CircuitAcquireRequest,
}
use vllm_priority_gateway.Coordination.Local.Attempts.{CircuitCoordinator}
use vllm_priority_gateway.Coordination.Local.Circuit.{
  new_circuit_coordinator, coordinator_of, status, snapshot_at, acquire, complete,
}
use vllm_priority_gateway.Coordination.Local.Reconciliation.{reconcile}
use vllm_priority_gateway.Coordination.Local.Probes.{renew_probes}
use vllm_priority_gateway.Coordination.Local.Circuit.Bounded.{
  Bounded, NoMore-Bounded, acquire-Bounded,
}

starts_empty :
    (options : Settings) (capacity : ℤ) (n : NewResult) (c : CircuitCoordinator)
    → coordinator_of options capacity n ≡ some c
    → Bounded c
starts_empty options capacity (refused e) c h = cc
starts_empty options capacity (created b) c h = subst Bounded (some-eq h) (omega arith)

pub data Call : Type 0 where
  reconciles : Bool → ℕ → List BackendIdentity → Call
  snapshots : ℕ → ℕ → Call
  acquires : Bool → ℕ → CircuitAcquireRequest → Call
  completes : Bool → ℕ → CircuitCompletion → Call
  renews : Bool → ℕ → List ProbeIdentity → Call
  asks_status : ℕ → Call

module _ (fingerprint : CircuitAcquireRequest → ℕ) where
  unfoldable pub step : Call → CircuitCoordinator → CircuitCoordinator
  unfolding reconcile snapshot_at acquire complete renew_probes status
  step (reconciles ended now values) c = (reconcile ended now values c).0
  step (snapshots id at) c = (snapshot_at id at c).0
  step (acquires ended now req) c = (acquire fingerprint ended now req c).0
  step (completes ended now value) c = (complete ended now value c).0
  step (renews ended now probes) c = (renew_probes ended now probes c).0
  step (asks_status now) c = (status now c).0

  unfoldable pub run : List Call → CircuitCoordinator → CircuitCoordinator
  unfolding step
  run [] c = c
  run (call ∷ calls) c = run calls (step call c)

  step-Bounded : (call : Call) (c : CircuitCoordinator) → Bounded c → Bounded (step call c)
  unfolding step
  step-Bounded (reconciles ended now values) c h =
      NoMore-Bounded (reconcile-NoMore ended now values c) h
  step-Bounded (snapshots id at) c h = NoMore-Bounded (snapshot_at-NoMore id at c) h
  step-Bounded (acquires ended now req) c h = acquire-Bounded fingerprint ended now req c h
  step-Bounded (completes ended now value) c h =
      NoMore-Bounded (complete-NoMore ended now value c) h
  step-Bounded (renews ended now probes) c h =
      NoMore-Bounded (renew_probes-NoMore ended now probes c) h
  step-Bounded (asks_status now) c h = NoMore-Bounded (status-NoMore now c) h

  run_within : (calls : List Call) (c : CircuitCoordinator) → Bounded c → Bounded (run calls c)
  unfolding run
  run_within [] c h = h
  run_within (call ∷ calls) c h = run_within calls (step call c) (step-Bounded call c h)

  -- From a new coordinator, whatever the calls, their order and their instants, and however many
  -- attempts are never completed, no more attempts are held than the capacity.
  pub run-Bounded :
      (options : Settings) (capacity : ℤ) (calls : List Call) (c : CircuitCoordinator)
      → new_circuit_coordinator options capacity ≡ some c
      → length (run calls c).attempts ≤ (run calls c).attempt_capacity
  unfolding new_circuit_coordinator
  run-Bounded options capacity calls c h =
      run_within calls c (starts_empty options capacity (new options) c h)
