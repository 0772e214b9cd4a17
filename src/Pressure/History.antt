-- ===== src/Pressure/History.antt =====
-- What a change of the pool's state says about the observations that led to it
-- (internal/pressure/state.go).
use vllm_priority_gateway.Base.{
  ℕ, ◌+◌, ◌≤◌, ◌<◌, ◌≡◌, refl, sym, ◌∙◌, subst, ◌≢◌, ◌⊎◌, inl, inr, true, false, List, [], ◌∷◌,
  some, arith, some-eq, Bool-cases, if◌then◌else◌,
}
use vllm_priority_gateway.Base.Float.{Float}
use vllm_priority_gateway.Domain.{PoolState, unavailable, state_beq}
use vllm_priority_gateway.Pressure.{
  Thresholds, PoolMachine, Observation, instantaneous, target, pursue, accept, is_stale, observe,
  new_pool_machine,
}
use vllm_priority_gateway.Pressure.Hysteresis.{rank, wanted, observe_moves}

-- Of the accepted observations, newest first, all that satisfy `P` back to one made at `since`.
abbrev pub HeldSince : {F : Type 0} → ℕ → (Observation F → Type 0) → List (Observation F) → Type 0
HeldSince since P [] = ⊥
HeldSince since P (o ∷ os) = P o × ((o.at ≡ since) ⊎ HeldSince since P os)

module _ {F : Type 0} ⦃fl : Float F⦄ where
  -- In state `s`, the available observation `o` asks for state `c`.
  abbrev pub AsksFor : Thresholds F → PoolState → PoolState → Observation F → Type 0
  AsksFor t s c o =
      (o.available ≡ true)
      × ((target t s (instantaneous t o.best_pressure o.all_waiting) o.best_pressure
            o.all_waiting).0
          ≡ c)

  -- The machine after a series of observations, and those that it did not refuse as stale.
  abbrev accepted : PoolMachine F → Observation F → List (Observation F) → List (Observation F)
  accepted m o hist = if is_stale m o then hist else o ∷ hist

  unfoldable pub run :
      PoolMachine F
      → List (Observation F)
      → List (Observation F)
      → PoolMachine F × List (Observation F)
  run m hist [] = (m, hist)
  run m hist (o ∷ os) = run (observe m o) (accepted m o hist) os

  abbrev Pending : PoolMachine F → List (Observation F) → Type 0
  Pending m hist =
      m.candidate_set ≡ true
      → (c : PoolState) × (m.candidate ≡ some c)
        × HeldSince m.candidate_since (AsksFor m.thresholds m.current c) hist

  pursue_cases :
      (m : PoolMachine F) (at : ℕ) (s : PoolState) (window : ℕ)
      → ((pursue m at (s, window)).candidate_set ≡ false)
        ⊎ (pursue m at (s, window)
            ≡ record m { candidate = some s; candidate_since = at; candidate_set = true })
        ⊎ ((pursue m at (s, window) ≡ m) × (m.candidate ≡ some s))
  unfolding pursue
  pursue_cases m at s window = ground arith

  pursue-Pending :
      (m : PoolMachine F) (o : Observation F) (hist : List (Observation F))
      → o.available ≡ true
      → Pending m hist
      → Pending (pursue m o.at (wanted m o)) (o ∷ hist)
  pursue-Pending m o hist v p = elim (pursue_cases m o.at (wanted m o).0 (wanted m o).1) [
    | inl e ↦ λ h. cc
    | inr (inl e) ↦
        subst (λ x. Pending x (o ∷ hist)) (sym e)
          (λ h. ((wanted m o).0, refl, ((v, refl), inl refl)))
    | inr (inr (e, c)) ↦
        subst (λ x. Pending x (o ∷ hist)) (sym e)
          (λ h.
            let (s, q, held) = p h in
            (
              (wanted m o).0,
              c,
              (
                (v, refl),
                inr (
                    subst (λ x. HeldSince m.candidate_since (AsksFor m.thresholds m.current x) hist)
                      (some-eq (sym q ∙ c)) held),
              ),
            ))
  ]

  accept_cases :
      (m : PoolMachine F) (o : Observation F)
      → ((accept m o).candidate_set ≡ false)
        ⊎ ((o.available ≡ true)
            × (accept m o ≡ pursue (record m { last_observed_at = o.at }) o.at (wanted m o)))
  unfolding accept
  accept_cases m o = elim (Bool-cases o.available) [
    | inl v ↦ elim (Bool-cases (state_beq m.current unavailable)) [
      | inl u ↦ inl (rw (v, u))
      | inr u ↦ inr (v, rw (v, u))
    ]
    | inr v ↦ inl (rw v)
  ]

  accept-Pending :
      (m : PoolMachine F) (o : Observation F) (hist : List (Observation F))
      → Pending m hist
      → Pending (accept m o) (o ∷ hist)
  accept-Pending m o hist p = elim (accept_cases m o) [
    | inl e ↦ λ h. cc
    | inr (v, e) ↦
        subst (λ x. Pending x (o ∷ hist)) (sym e)
          (pursue-Pending (record m { last_observed_at = o.at }) o hist v p)
  ]

  observe-Pending :
      (m : PoolMachine F) (o : Observation F) (hist : List (Observation F))
      → Pending m hist
      → Pending (observe m o) (accepted m o hist)
  unfolding observe
  observe-Pending m o hist p = elim (Bool-cases (is_stale m o)) [
    | inl e ↦ rw e p
    | inr e ↦ rw e (accept-Pending m o hist p)
  ]

  run-Pending :
      (m : PoolMachine F) (hist os : List (Observation F))
      → Pending m hist
      → Pending (run m hist os).0 (run m hist os).1
  unfolding run
  run-Pending m hist [] p = p
  run-Pending m hist (o ∷ os) p =
      run-Pending (observe m o) (accepted m o hist) os (observe-Pending m o hist p)

  start_Pending : (t : Thresholds F) → Pending (new_pool_machine t) []
  unfolding new_pool_machine
  start_Pending t h = cc

  -- A new machine after a series of observations, and those that it took, newest first.
  unfoldable pub fed : Thresholds F → List (Observation F) → PoolMachine F
  unfolding run
  fed t os = (run (new_pool_machine t) [] os).0

  unfoldable pub taken : Thresholds F → List (Observation F) → List (Observation F)
  unfolding run
  taken t os = (run (new_pool_machine t) [] os).1

  -- A new machine is fed any observations, and the next one moves it from one available state to
  -- another. Then the observations that were not stale, newest first, all came with a backend
  -- available and all asked for the new state in the old one, back to one that was made at least a
  -- window earlier: the enter window for a heavier state, the recovery window for a lighter one.
  pub transition_held :
      (t : Thresholds F) (os : List (Observation F)) (o : Observation F)
      → (fed t os).current ≢ unavailable
      → (observe (fed t os) o).current ≢ unavailable
      → (observe (fed t os) o).current ≢ (fed t os).current
      → (since : ℕ) × HeldSince since
          (AsksFor (fed t os).thresholds (fed t os).current (observe (fed t os) o).current)
          (taken t os)
        × (((rank (fed t os).current < rank (observe (fed t os) o).current)
              × (since + (fed t os).thresholds.enter_window ≤ o.at))
            ⊎ ((rank (observe (fed t os) o).current < rank (fed t os).current)
                × (since + (fed t os).thresholds.recovery_window ≤ o.at)))
  unfolding fed taken
  transition_held t os o a b c =
      let m = (run (new_pool_machine t) [] os).0 in
      let moved = observe_moves m o a b c in
      let held = run-Pending (new_pool_machine t) [] os (start_Pending t) moved.0 in
      (
        m.candidate_since,
        subst (λ x. HeldSince m.candidate_since (AsksFor m.thresholds m.current x) (taken t os))
            (some-eq (sym held.1 ∙ moved.1)) held.2,
        ground (arith, moved),
      )
