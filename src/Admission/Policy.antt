-- ===== src/Admission/Policy.antt =====
-- internal/admission/policy.go. The fractions 0, .5 and 1 are held in halves; `float64(maximum)`
-- and its half are exact up to 2^53, far above `MaxClientConcurrency`, and the floor of an exact
-- half is the quotient by 2.
use vllm_priority_gateway.Base.{
  ℕ, ◌*◌, ◌/◌, ◌≤◌, ◌≡◌, true, arith, leb, if◌then◌else◌, ℤ, pos, pos_part, leb_ℤ, ◌≤ℤ◌,
}
use vllm_priority_gateway.Domain.{PriorityClass, PoolState, valid, class_beq}

-- `admittedFraction` times two.
unfoldable pub admitted_halves : PriorityClass → PoolState → ℕ
admitted_halves class PoolState.normal = 2
admitted_halves class PoolState.busy = if class_beq class PriorityClass.background then 1 else 2
admitted_halves PriorityClass.critical PoolState.saturated = 2
admitted_halves PriorityClass.high PoolState.saturated = 2
admitted_halves PriorityClass.normal PoolState.saturated = 1
admitted_halves class PoolState.saturated = 0
admitted_halves PriorityClass.critical PoolState.emergency = 2
admitted_halves PriorityClass.high PoolState.emergency = 1
admitted_halves class PoolState.emergency = 0
admitted_halves class PoolState.unavailable = 0

abbrev clamp_limit : ℕ → ℕ → ℕ
clamp_limit limit maximum = if leb maximum limit then maximum else limit

unfoldable pub effective_limit : PriorityClass → PoolState → ℤ → ℕ
unfolding admitted_halves
effective_limit class state maximum =
    if leb_ℤ maximum (pos 0)
    then 0
    else clamp_limit (pos_part maximum * admitted_halves class state / 2) (pos_part maximum)

-- More urgent classes rank higher.
abbrev pub urgency : PriorityClass → ℕ
urgency PriorityClass.critical = 3
urgency PriorityClass.high = 2
urgency PriorityClass.normal = 1
urgency _ = 0

-- How hard the pool is pressed; an unavailable pool admits nothing.
abbrev pub load : PoolState → ℕ
load PoolState.normal = 0
load PoolState.busy = 1
load PoolState.saturated = 2
load PoolState.emergency = 3
load PoolState.unavailable = 4

-- For classes that are constants of the program: the limit never passes the maximum, never falls as the class gets more urgent, and never rises as
-- the pool gets more pressed; a critical client keeps its whole maximum in every available state,
-- and an unavailable pool or a maximum that is not positive admits nothing.
pub effective_limit_order :
    (c d : PriorityClass) (s t : PoolState) (n : ℤ)
    → valid c ≡ true
    → valid d ≡ true
    → urgency c ≤ urgency d
    → load t ≤ load s
    → (pos (effective_limit c s n) ≤ℤ pos (pos_part n))
      × (effective_limit c s n ≤ effective_limit d s n)
      × (effective_limit c s n ≤ effective_limit c t n)
      × (effective_limit PriorityClass.critical PoolState.emergency n ≡ pos_part n)
      × (effective_limit c PoolState.unavailable n ≡ 0)
unfolding effective_limit valid
effective_limit_order c d s t n vc vd h k = ground arith
