-- ===== src/Examples/Circuits.antt =====
-- A backend whose circuit lets one attempt through (internal/coordination/local/circuit.go).
use vllm_priority_gateway.Base.{
  ◌≤◌, ◌≡◌, refl, true, false, none, some, List, [], ◌∷◌, arith, pos, length,
}
use vllm_priority_gateway.Base.Maps.{lookup, insert}
use vllm_priority_gateway.Domain.{failure, closed}
use vllm_priority_gateway.CircuitBreaker
use vllm_priority_gateway.CircuitBreaker.{Settings}
use vllm_priority_gateway.Coordination.Types.{
  BackendIdentity, CircuitAcquireRequest, CircuitCompletion,
}
use vllm_priority_gateway.Coordination.Local.Attempts.{
  CircuitCoordinator, CircuitAttempt, CircuitEntry, same_backend, expire,
}
use vllm_priority_gateway.Coordination.Local.Circuit.{
  new_circuit_coordinator, acquire, complete, snapshot_at,
}
use vllm_priority_gateway.Coordination.Local.Reconciliation.{add_circuit, reconcile}
use vllm_priority_gateway.Coordination.Local.Circuit.History.{
  Call, reconciles, acquires, completes, run, run-Bounded,
}
use vllm_priority_gateway.Coordination.Local.Circuit.Linking.{lookup-run}
use vllm_priority_gateway.Coordination.Local.Circuit.Repeated.{complete_again}

abbrev settings : Settings
settings = record {
  failure_threshold = pos 1;
  failure_window = pos 1000;
  open_cooldown = pos 500;
  half_open_max_probes = pos 1;
}

abbrev backend : BackendIdentity
backend = record { id = 3; revision = 1; enabled = true; draining = false }

abbrev request : CircuitAcquireRequest
request = record {
  attempt_id = 7;
  acquisition_started_at = 86400000000000;
  replica_id = 5;
  backend = backend;
  probe_ttl = pos 100;
}

abbrev failed : CircuitCompletion
failed = record {
  attempt_id = 7;
  backend = backend;
  generation = 0;
  outcome = failure;
  reported_outcome_at = 86400000000100;
}

abbrev empty : CircuitCoordinator
empty = record {
  options = settings;
  breakers = [];
  circuits = [];
  attempts = [];
  expiries = [];
  terminal_expiries = [];
  attempt_capacity = 2;
}

empty_new : new_circuit_coordinator settings (pos 2) ≡ some empty
unfolding new_circuit_coordinator CircuitBreaker.new
empty_new = refl

abbrev calls : List Call
calls =
    reconciles false 86400000000000 (backend ∷ [])
    ∷ acquires false 86400000000050 request
    ∷ completes false 86400000000100 failed
    ∷ []

run-Bounded_example :
    length (run (λ r. 1) calls empty).attempts ≤ (run (λ r. 1) calls empty).attempt_capacity
run-Bounded_example = run-Bounded (λ r. 1) settings (pos 2) calls empty empty_new

-- What the first two calls leave.
abbrev attempt : CircuitAttempt
attempt = record {
  fingerprint = 1;
  backend = backend;
  generation = 0;
  permit = none;
  complete = record { breaker = 0; body = record { generation = 0; probe = false }; done = false };
  ttl = pos 0;
  terminal = false;
  completion = none;
  acquired_at = 86400000000000;
  retain_until = 0;
}

abbrev admitted : CircuitCoordinator
admitted = record empty {
  breakers =
      record {
        options = record {
          failure_threshold = 1;
          failure_window = 1000;
          open_cooldown = 500;
          half_open_max_probes = 1;
        };
        state = closed;
        generation = 0;
        failures = [];
        opened_at = 0;
        probes_in_flight = 0;
        half_open_succeeded = false;
      }
      ∷ [];
  circuits = (3, record { identity = backend; breaker = 0 }) ∷ [];
  attempts = (7, attempt) ∷ [];
}

abbrev first_calls : List Call
first_calls =
    reconciles false 86400000000000 (backend ∷ []) ∷ acquires false 86400000000050 request ∷ []

admitted-run : run (λ r. 1) first_calls empty ≡ admitted
unfolding run reconcile acquire lookup add_circuit insert
admitted-run = refl

attempt_known : lookup 7 (expire 86400000000100 admitted).attempts ≡ some attempt
unfolding expire lookup
attempt_known = refl

complete_again_example :
    let first = (complete false 86400000000100 failed admitted).0 in
    let asked = snapshot_at 3 86400000000200 first in
    complete false 86400000000200 failed first ≡ (asked.0, some (asked.1, none))
complete_again_example =
    complete_again 86400000000100 failed attempt admitted 86400000000200 attempt_known refl refl
      refl refl (omega arith)

attempt_runs : lookup 7 (run (λ r. 1) first_calls empty).attempts ≡ some attempt
unfolding run reconcile acquire lookup add_circuit insert
attempt_runs = refl

lookup-run_example :
    (e : CircuitEntry) × (lookup 3 (run (λ r. 1) first_calls empty).circuits ≡ some e)
    × (same_backend e.identity backend ≡ true)
    × (0 ≡ e.breaker)
lookup-run_example =
    lookup-run (λ r. 1) settings (pos 2) first_calls empty 7 attempt empty_new attempt_runs refl
