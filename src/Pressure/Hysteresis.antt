-- ===== src/Pressure/Hysteresis.antt =====
-- How the pool's state moves (internal/pressure/state.go).
use vllm_priority_gateway.Base.{ℕ, ◌+◌, ◌≤◌, ◌<◌, ◌≡◌, ◌≢◌, ◌⊎◌, Bool, true, some, arith}
use vllm_priority_gateway.Base.Float.{Float}
use vllm_priority_gateway.Domain.{PoolState, normal, busy, saturated, emergency, unavailable}
use vllm_priority_gateway.Pressure.{
  Thresholds, PoolMachine, Observation, instantaneous, target, pursue, observe,
}

abbrev pub rank : PoolState → ℕ
rank normal = 0
rank busy = 1
rank saturated = 2
rank emergency = 3
rank unavailable = 0

module _ {F : Type 0} ⦃fl : Float F⦄ where
  abbrev pub wanted : PoolMachine F → Observation F → PoolState × ℕ
  wanted m o =
      target m.thresholds m.current (instantaneous m.thresholds o.best_pressure o.all_waiting)
        o.best_pressure o.all_waiting

  pub instantaneous_available :
      (t : Thresholds F) (best : F) (w : Bool) → instantaneous t best w ≢ unavailable
  unfolding instantaneous
  instantaneous_available t best w = ground arith

  pub target_moves :
      (t : Thresholds F) (current now : PoolState) (best : F) (w : Bool)
      → current ≢ unavailable
      → now ≢ unavailable
      → ((target t current now best w).0 ≡ current)
        ⊎ ((rank current < rank now) × (target t current now best w ≡ (now, t.enter_window)))
        ⊎ ((rank (target t current now best w).0 + 1 ≡ rank current)
            × ((target t current now best w).1 ≡ t.recovery_window))
  unfolding target
  target_moves t current now best w a b = ground arith

  pub pursue_moves :
      (m : PoolMachine F) (at : ℕ) (s : PoolState) (window : ℕ)
      → ((pursue m at (s, window)).current ≡ m.current)
        ⊎ (((pursue m at (s, window)).current ≡ s)
            × (m.candidate_set ≡ true)
            × (m.candidate ≡ some s)
            × (m.candidate_since + window ≤ at))
  unfolding pursue
  pursue_moves m at s window = ground arith

  -- Between two available states the machine moves only to a candidate that it already had, once
  -- the window has passed since the candidate came up: up to the state that the pressure calls for
  -- at once, after the enter window, or down by exactly one state, after the recovery window.
  pub observe_moves :
      (m : PoolMachine F) (o : Observation F)
      → m.current ≢ unavailable
      → (observe m o).current ≢ unavailable
      → (observe m o).current ≢ m.current
      → (m.candidate_set ≡ true)
        × (m.candidate ≡ some (observe m o).current)
        × (((rank m.current < rank (observe m o).current)
              × ((observe m o).current ≡ instantaneous m.thresholds o.best_pressure o.all_waiting)
              × (m.candidate_since + m.thresholds.enter_window ≤ o.at))
            ⊎ ((rank (observe m o).current + 1 ≡ rank m.current)
                × (m.candidate_since + m.thresholds.recovery_window ≤ o.at)))
  unfolding observe
  observe_moves m o a b c =
      let now = instantaneous m.thresholds o.best_pressure o.all_waiting in
      ground (
        arith,
        instantaneous_available m.thresholds o.best_pressure o.all_waiting,
        target_moves m.thresholds m.current now o.best_pressure o.all_waiting,
        pursue_moves (record m { last_observed_at = o.at }) o.at (wanted m o).0 (wanted m o).1,
      )
