-- ===== src/CircuitBreaker/Invariant.antt =====
-- What holds of a breaker between two calls (internal/circuitbreaker/breaker.go).
use vllm_priority_gateway.Base.{
  ℕ, ◌-◌, ◌≤◌, ◌<◌, ◌≡◌, ◌≢◌, true, arith, leb, length, length-keep-le,
}
use vllm_priority_gateway.Domain.{closed, opened, half_open, InferenceOutcome}
use vllm_priority_gateway.CircuitBreaker.{
  Settings, Breaker, created, new, Completion, prune_failures, transition_open_to_half_open,
  acquire, acquire_in, snapshot, prune_if_closed, complete,
}

pub record IsValid (b : Breaker) : Type 0 where
  pub probes_bounded : b.probes_in_flight ≤ b.options.half_open_max_probes
  pub probes_half_open : 0 < b.probes_in_flight → b.state ≡ half_open
  pub succeeded_half_open : b.half_open_succeeded ≡ true → b.state ≡ half_open
  pub succeeded_waits : b.half_open_succeeded ≡ true → 0 < b.probes_in_flight
  pub under_threshold : b.state ≡ closed → length b.failures < b.options.failure_threshold
  pub opened_at_zero : b.state ≢ opened → b.opened_at ≡ 0
  pub threshold_positive : 0 < b.options.failure_threshold
  pub window_positive : 0 < b.options.failure_window
  pub cooldown_positive : 0 < b.options.open_cooldown
  pub probes_positive : 0 < b.options.half_open_max_probes

-- A breaker that `New` returns is well formed.
pub new-IsValid : (s : Settings) (b : Breaker) → new s ≡ created b → IsValid b
unfolding new
new-IsValid s b h = ground arith

pub prune_failures-IsValid : (now : ℕ) (b : Breaker) → IsValid b → IsValid (prune_failures now b)
unfolding prune_failures
prune_failures-IsValid now b v =
    ground (arith, length-keep-le (leb (now - b.options.failure_window)) b.failures)

pub transition-IsValid :
    (now : ℕ) (b : Breaker) → IsValid b → IsValid (transition_open_to_half_open now b)
unfolding transition_open_to_half_open
transition-IsValid now b v = ground arith

acquire_in-IsValid : (now : ℕ) (t : Breaker) → IsValid t → IsValid (acquire_in t.state now t).0
unfolding acquire_in
acquire_in-IsValid now t v = ground (arith, prune_failures-IsValid now t v)

-- `Acquire` keeps the breaker well formed, whatever it answers.
pub acquire-IsValid : (now : ℕ) (b : Breaker) → IsValid b → IsValid (acquire now b).0
unfolding acquire
acquire-IsValid now b v = acquire_in-IsValid now _ (transition-IsValid now b v)

prune_if_closed-IsValid : (now : ℕ) (t : Breaker) → IsValid t → IsValid (prune_if_closed now t)
unfolding prune_if_closed
prune_if_closed-IsValid now t v = ground (arith, prune_failures-IsValid now t v)

-- So does `Snapshot`.
pub snapshot-IsValid : (now : ℕ) (b : Breaker) → IsValid b → IsValid (snapshot now b).0
unfolding snapshot
snapshot-IsValid now b v = prune_if_closed-IsValid now _ (transition-IsValid now b v)

-- So does a completion, of any generation and with any outcome.
pub complete-IsValid :
    (c : Completion) (outcome : InferenceOutcome) (at : ℕ) (b : Breaker)
    → IsValid b
    → IsValid (complete c outcome at b)
unfolding complete
complete-IsValid c outcome at b v = ground arith
