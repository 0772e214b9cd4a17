-- ===== src/Examples/Pools.antt =====
-- A pool that grows busy and then saturated (internal/pressure/state.go).
use vllm_priority_gateway.Base.{
  zero, suc, ◌*◌, leb, pos, ℕ, ◌+◌, ◌≤◌, ◌<◌, ◌≡◌, ◌⊎◌, refl, true, false, List, [], ◌∷◌, some,
  arith,
}
use vllm_priority_gateway.Domain.{normal, busy}
use vllm_priority_gateway.Pressure.{
  Thresholds, PoolMachine, Observation, instantaneous, observe, new_pool_machine,
}
use vllm_priority_gateway.Pressure.Hysteresis.{rank, observe_moves}
use vllm_priority_gateway.Pressure.History.{HeldSince, AsksFor, fed, taken, transition_held}
use vllm_priority_gateway.Pressure.Score.{
  Sample, Limits, Weights, Ewma, RangeLaws, Between, calculate, calculate_bounds, add_all,
  add_all-newer,
}
use vllm_priority_gateway.Examples.Floats.{float_ℕ}

abbrev thresholds : Thresholds ℕ
thresholds = record {
  busy = 50;
  saturated = 80;
  emergency = 95;
  busy_recovery = 40;
  saturated_recovery = 70;
  emergency_recovery = 85;
  enter_window = 10;
  recovery_window = 30;
}

abbrev seen : ℕ → ℕ → Observation ℕ
seen at best = record { at = at; best_pressure = best; all_waiting = false; available = true }

abbrev waiting : PoolMachine ℕ
waiting = record {
  thresholds = thresholds;
  current = normal;
  candidate = some busy;
  candidate_since = 100;
  candidate_set = true;
  last_observed_at = 104;
}

moved_busy : (observe waiting (seen 110 60)).current ≡ busy
unfolding observe
moved_busy = refl

observe_moves_example :
    (true ≡ true)
    × (some busy ≡ some (observe waiting (seen 110 60)).current)
    × (((0 < rank (observe waiting (seen 110 60)).current)
          × ((observe waiting (seen 110 60)).current ≡ instantaneous thresholds 60 false)
          × (100 + 10 ≤ 110))
        ⊎ ((rank (observe waiting (seen 110 60)).current + 1 ≡ 0) × (100 + 30 ≤ 110)))
observe_moves_example =
    observe_moves waiting (seen 110 60) (λ e. cc) (λ e. ground (arith, e, moved_busy))
      (λ e. ground (arith, e, moved_busy))

abbrev observed : List (Observation ℕ)
observed = seen 100 60 ∷ seen 104 55 ∷ []

moves_busy : (observe (fed thresholds observed) (seen 110 60)).current ≡ busy
unfolding observe new_pool_machine fed
moves_busy = refl

fed_normal : (fed thresholds observed).current ≡ normal
unfolding observe new_pool_machine fed
fed_normal = refl

transition_held_example :
    let m = fed thresholds observed in
    (since : ℕ) × HeldSince since
      (AsksFor m.thresholds m.current (observe m (seen 110 60)).current)
      (taken thresholds observed)
    × (((rank m.current < rank (observe m (seen 110 60)).current)
          × (since + m.thresholds.enter_window ≤ 110))
        ⊎ ((rank (observe m (seen 110 60)).current < rank m.current)
            × (since + m.thresholds.recovery_window ≤ 110)))
transition_held_example =
    transition_held thresholds observed (seen 110 60) (λ e. ground (arith, e, fed_normal))
      (λ e. ground (arith, e, moves_busy)) (λ e. ground (arith, e, fed_normal, moves_busy))

float_ℕ-RangeLaws : RangeLaws float_ℕ
float_ℕ-RangeLaws = record {
  at_least_zero = λ x n h. ground arith;
  at_most_two = λ x n h. ground (arith, h);
  zero_zero = refl;
  zero_two = refl;
  two_two = refl;
  mul_mono = λ w x a b c d. (ground arith, weigh w x (ground (arith, b)) (ground (arith, d)));
  add_mono = λ a b c d g h i j. ground (arith, h, j);
}
  where
    weigh : (w x : ℕ) → w ≤ 1 → x ≤ 2 → leb (w * x) (w * 2) ≡ true
    weigh zero x h k = ground arith
    weigh (suc zero) x h k = ground (arith, k)
    weigh (suc (suc w)) x h k = absurd (omega (arith, h))

abbrev whole : Weights ℕ
whole = record { queue = 1; kv = 0; running = 1 }

abbrev sample : Sample ℕ
sample = record { running = 4; waiting = 9; kv_usage = 3 }

abbrev limits : Limits ℕ
limits = record { queue_soft = 3; kv_soft = 1; kv_hard = 2; running_soft = 4 }

calculate_bounds_example : Between (calculate whole sample limits) 4
calculate_bounds_example =
    calculate_bounds float_ℕ-RangeLaws whole sample limits (refl, refl) (refl, refl) (refl, refl)

-- An average with a sample of 10 at 100.
abbrev average : Ewma ℕ
average = record { window = pos 5; initialized = true; last_at = 100; value = 10 }

abbrev series : List (ℕ × ℕ)
series = (100, 30) ∷ (104, 20) ∷ (103, 50) ∷ []

add_all-newer_example : add_all (λ x. x) series average ≡ add_all (λ x. x) ((104, 20) ∷ []) average
add_all-newer_example = add_all-newer (λ x. x) series average refl
