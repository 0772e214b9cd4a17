-- ===== src/Pressure.antt =====
-- internal/pressure/state.go: the hysteresis of a pool's state. A pool enters a heavier state after
-- the pressure has asked for it throughout `EnterWindow`, and recovers one state at a time. The
-- best pressure is a `float64`, taken through the interface `Float`.
pub mod Hysteresis
pub mod History
pub mod Score
use vllm_priority_gateway.Base.{
  ℕ, ◌+◌, Bool, true, false, ◌&&◌, ◌||◌, not, ltb, leb, ◌==◌, if◌then◌else◌, ℤ, pos, negsuc, ltb_ℤ,
  Option, none, some,
}
use vllm_priority_gateway.Base.Float.{Float, ltf, lef}
use vllm_priority_gateway.Domain.{
  PoolState, normal, busy, saturated, emergency, unavailable, state_beq,
}

pub record Thresholds (F : Type 0) : Type 0 where
  pub busy : F
  pub saturated : F
  pub emergency : F
  pub busy_recovery : F
  pub saturated_recovery : F
  pub emergency_recovery : F
  pub enter_window : ℕ
  pub recovery_window : ℕ

-- `candidate` is `none` where the source has the empty text.
pub record PoolMachine (F : Type 0) : Type 0 where
  pub thresholds : Thresholds F
  pub current : PoolState
  pub candidate : Option PoolState
  pub candidate_since : ℕ
  pub candidate_set : Bool
  pub last_observed_at : ℕ

unfoldable pub new_pool_machine : {F : Type 0} → Thresholds F → PoolMachine F
new_pool_machine t = record {
  thresholds = t;
  current = normal;
  candidate = none;
  candidate_since = 0;
  candidate_set = false;
  last_observed_at = 0;
}

unfoldable pub state_rank : PoolState → ℤ
state_rank normal = pos 0
state_rank busy = pos 1
state_rank saturated = pos 2
state_rank emergency = pos 3
state_rank unavailable = negsuc 0

abbrev pub reset_candidate : {F : Type 0} → PoolMachine F → PoolMachine F
reset_candidate m = record m { candidate = none; candidate_since = 0; candidate_set = false }

-- `m.candidate == target`
abbrev pub is_candidate : Option PoolState → PoolState → Bool
is_candidate none t = false
is_candidate (some s) t = state_beq s t

-- The arguments of one call of `Observe`.
pub record Observation (F : Type 0) : Type 0 where
  pub at : ℕ
  pub best_pressure : F
  pub all_waiting : Bool
  pub available : Bool

module _ {F : Type 0} ⦃fl : Float F⦄ where
  unfoldable pub instantaneous : Thresholds F → F → Bool → PoolState
  instantaneous t best all_waiting =
      if lef t.emergency best
      then emergency
      else if lef t.saturated best || all_waiting
      then saturated
      else if lef t.busy best
      then busy
      else normal

  -- The `switch` of `target` on the current state.
  abbrev recovery : Thresholds F → PoolState → F → Bool → PoolState × ℕ
  recovery t emergency best w =
      if ltf best t.emergency_recovery then (saturated, t.recovery_window) else (emergency, 0)
  recovery t saturated best w =
      if ltf best t.saturated_recovery && not w then (busy, t.recovery_window) else (saturated, 0)
  recovery t busy best w =
      if ltf best t.busy_recovery then (normal, t.recovery_window) else (busy, 0)
  recovery t normal best w = (normal, 0)
  recovery t unavailable best w = (unavailable, 0)

  unfoldable pub target : Thresholds F → PoolState → PoolState → F → Bool → PoolState × ℕ
  unfolding state_rank
  target t current now best all_waiting =
      if ltb_ℤ (state_rank current) (state_rank now)
      then (now, t.enter_window)
      else recovery t current best all_waiting

  -- The end of `Observe`, once the target and its window are known.
  unfoldable pub pursue : PoolMachine F → ℕ → PoolState × ℕ → PoolMachine F
  pursue m at (wanted, window) =
      if state_beq wanted m.current
      then reset_candidate m
      else if not m.candidate_set || not (is_candidate m.candidate wanted)
      then record m { candidate = some wanted; candidate_since = at; candidate_set = true }
      else if leb (m.candidate_since + window) at
      then reset_candidate (record m { current = wanted })
      else m

  -- `Observe` from the point where the observation is known not to be stale.
  unfoldable pub accept : PoolMachine F → Observation F → PoolMachine F
  unfolding instantaneous target pursue
  accept m o =
      let seen = record m { last_observed_at = o.at } in
      let now = instantaneous m.thresholds o.best_pressure o.all_waiting in
      if not o.available
      then reset_candidate (record seen { current = unavailable })
      else if state_beq m.current unavailable
      then reset_candidate (record seen { current = now })
      else pursue seen o.at (target m.thresholds m.current now o.best_pressure o.all_waiting)

  abbrev pub is_stale : PoolMachine F → Observation F → Bool
  is_stale m o = not (m.last_observed_at == 0) && ltb o.at m.last_observed_at

  -- The new machine, whose `current` is what `Observe` returns.
  unfoldable pub observe : PoolMachine F → Observation F → PoolMachine F
  unfolding accept
  observe m o = if is_stale m o then m else accept m o
