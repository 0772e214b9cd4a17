-- ===== src/Examples/Limits.antt =====
-- The limits of one replica (internal/admission).
use vllm_priority_gateway.Base.{◌≤◌, ◌≡◌, refl, List, [], ◌∷◌, arith, pos, ◌≤ℤ◌}
use vllm_priority_gateway.Domain.{PriorityClass, PoolState, valid}
use vllm_priority_gateway.Admission.Policy.{effective_limit, effective_limit_order}
use vllm_priority_gateway.Admission.Limiter.{acquire, release}
use vllm_priority_gateway.Admission.Limiter.History.{
  Call, acquires, releases, step, run, start, held, run-start-held,
}

effective_limit_order_example :
    (pos (effective_limit PriorityClass.normal PoolState.saturated (pos 7)) ≤ℤ pos 7)
    × (effective_limit PriorityClass.normal PoolState.saturated (pos 7)
        ≤ effective_limit PriorityClass.high PoolState.saturated (pos 7))
    × (effective_limit PriorityClass.normal PoolState.saturated (pos 7)
        ≤ effective_limit PriorityClass.normal PoolState.busy (pos 7))
    × (effective_limit PriorityClass.critical PoolState.emergency (pos 7) ≡ 7)
    × (effective_limit PriorityClass.normal PoolState.unavailable (pos 7) ≡ 0)
unfolding valid
effective_limit_order_example =
    effective_limit_order PriorityClass.normal PriorityClass.high PoolState.saturated PoolState.busy
      (pos 7) refl refl (omega arith) (omega arith)

-- Client 3 takes two leases under a limit of 2, is refused a third, and gives one back twice.
abbrev calls : List Call
calls = acquires 3 (pos 2) ∷ acquires 3 (pos 2) ∷ acquires 3 (pos 2) ∷ releases 0 ∷ releases 0 ∷ []

one_left : held 3 (run start calls) ≡ 1
unfolding run start step acquire release
one_left = refl

run-start-held_example :
    ((run start calls).inflight 3 ≡ held 3 (run start calls)) × (held 3 (run start calls) ≤ 2)
run-start-held_example =
    run-start-held calls 3 2
      ((λ _. omega arith), ((λ _. omega arith), ((λ _. omega arith), (tt, (tt, tt)))))
