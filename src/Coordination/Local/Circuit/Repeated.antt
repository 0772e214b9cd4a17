-- ===== src/Coordination/Local/Circuit/Repeated.antt =====
-- A completion that comes twice (internal/coordination/local/circuit.go).
use vllm_priority_gateway.Coordination.Local.Circuit.Retention.{expire_keeps, snapshot_keeps}
use native.Mathlib.Nat.{le_trans, le_refl}
use vllm_priority_gateway.Base.{
  taken_branch, other_branch, ℕ, ◌+◌, ◌≤◌, ◌<◌, ◌≡◌, refl, sym, ap, subst, ◌∙◌, Bool, true, false,
  ◌||◌, not, Option, none, some, List, [], ◌∷◌, ltb, ◌==◌, if◌then◌else◌, arith, if_keeps, ==_iff,
}
use vllm_priority_gateway.Base.Maps.{lookup, lookup-insert}
use vllm_priority_gateway.Coordination.Types.{CircuitSnapshot, CircuitCompletion, Reason}
use vllm_priority_gateway.Coordination.Local.Ledger.{receipt_retention}
use vllm_priority_gateway.Coordination.Local.Attempts.{
  CircuitAttempt, CircuitCoordinator, retain, finish, expire, circuit_retention_boundary, latest,
  same_backend, same_bool,
}
use vllm_priority_gateway.Coordination.Local.Circuit.{
  snapshot_at, is_stale_instant, complete, complete_after, complete_open, complete_attempt,
  completion_of, report, finish_once, same_completion,
}

latest-le : (t : ℕ) (us : List ℕ) → t ≤ latest t us
unfolding latest
latest-le t [] = le_refl t
latest-le t (u ∷ us) =
    le_trans (if_keeps (λ (n : ℕ). t ≤ n) (ltb t u) (λ h. ground (arith, h)) (λ _. le_refl t))
      (latest-le (if ltb t u then u else t) us)

same_bool_refl : (b : Bool) → same_bool b b ≡ true
same_bool_refl true = refl
same_bool_refl false = refl

same_completion_refl : (v : CircuitCompletion) → same_completion v v ≡ true
same_completion_refl v =
    let e = same_bool_refl v.backend.enabled in
    let d = same_bool_refl v.backend.draining in ground (arith, e, d)

finish_once-completion :
    (a : CircuitAttempt) (value : CircuitCompletion) (c : CircuitCoordinator)
    → (finish_once a value c).1.completion ≡ a.completion
unfolding finish_once finish
finish_once-completion a value c =
    if_keeps (λ (r : CircuitCoordinator × CircuitAttempt). r.1.completion ≡ a.completion)
      (not a.terminal) (λ _. refl) (λ _. refl)

retain_own :
    (id : ℕ) (a : CircuitAttempt) (boundary : ℕ) (c : CircuitCoordinator)
    → lookup id (retain id a boundary c).attempts
      ≡ some (record a { terminal = true; retain_until = boundary })
unfolding retain
retain_own id a boundary c =
    let at = record a { terminal = true; retain_until = boundary } in
    lookup-insert id id at c.attempts ∙ taken_branch _ _ ((==_iff id id).1 refl)

-- A completion that is taken: what is left, and the attempt as it is then kept.
module _ (now : ℕ) (value : CircuitCompletion) (a : CircuitAttempt) (c : CircuitCoordinator) where
  kept : CircuitAttempt
  kept = record (finish_once (record a { completion = some value }) value (expire now c)).1 {
    terminal = true;
    retain_until = circuit_retention_boundary now (a.acquired_at ∷ value.reported_outcome_at ∷ []);
  }

  taken :
      lookup value.attempt_id (expire now c).attempts ≡ some a
      → a.completion ≡ none
      → same_backend a.backend value.backend ≡ true
      → (a.generation == value.generation) ≡ true
      → is_stale_instant now value.reported_outcome_at ≡ false
      → lookup value.attempt_id (complete false now value c).0.attempts ≡ some kept
  unfolding complete complete_after complete_open complete_attempt report kept
  taken q n b g s =
      let d = expire now c in
      let f = finish_once (record a { completion = some value }) value d in
      let boundary =
        circuit_retention_boundary now (a.acquired_at ∷ value.reported_outcome_at ∷ []) in
      let first : complete_after now value (completion_of (lookup value.attempt_id d.attempts))
            (lookup value.attempt_id d.attempts) d
          ≡ complete_attempt now value a d =
        ap (λ (o : Option CircuitAttempt). complete_after now value (completion_of o) o d) q
        ∙ ap (λ (o : Option CircuitCompletion). complete_after now value o (some a) d) n
        ∙ other_branch _ _ s in
      let second : complete_attempt now value a d
          ≡ report value.backend.id now none (retain value.attempt_id f.1 boundary f.0) =
        other_branch _ _ (matches b g) in
      subst
        (λ (r : CircuitCoordinator × (CircuitSnapshot × Option Reason)).
          lookup value.attempt_id r.0.attempts ≡ some kept)
        (sym (first ∙ second))
        (snapshot_keeps value.attempt_id kept value.backend.id now
          (retain value.attempt_id f.1 boundary f.0) (retain_own value.attempt_id f.1 boundary f.0))
    where
      matches :
          same_backend a.backend value.backend ≡ true
          → (a.generation == value.generation) ≡ true
          → (not (same_backend a.backend value.backend) || not (a.generation == value.generation))
            ≡ false
      matches b g = rw (b, g) refl

  -- Where the completion of an attempt is taken, the same completion again, at an instant less than 24
  -- hours later, is answered without an error and does no more than a call of `Snapshot`: the outcome
  -- does not count twice.
  pub complete_again :
      (later : ℕ)
      → lookup value.attempt_id (expire now c).attempts ≡ some a
      → a.completion ≡ none
      → same_backend a.backend value.backend ≡ true
      → (a.generation == value.generation) ≡ true
      → is_stale_instant now value.reported_outcome_at ≡ false
      → later < now + receipt_retention
      → let first = (complete false now value c).0 in
        let asked = snapshot_at value.backend.id later first in
        complete false later value first ≡ (asked.0, some (asked.1, none))
  unfolding complete complete_after snapshot_at report kept
  complete_again later q n b g s h =
      let first = (complete false now value c).0 in
      let d = expire later first in
      let k = expire_keeps value.attempt_id kept later first refl (still h) (taken q n b g s) in
      let again : complete_after later value (completion_of (lookup value.attempt_id d.attempts))
            (lookup value.attempt_id d.attempts) d
          ≡ report value.backend.id later none d =
        ap (λ (o : Option CircuitAttempt). complete_after later value (completion_of o) o d) k
        ∙ ap (λ (o : Option CircuitCompletion). complete_after later value o (some kept) d) known
        ∙ other_branch _ _ (ap not (same_completion_refl value)) in
      ap (λ (r : CircuitCoordinator × (CircuitSnapshot × Option Reason)). (r.0, some r.1)) again
    where
      known : kept.completion ≡ some value
      known = finish_once-completion (record a { completion = some value }) value (expire now c)

      still : later < now + receipt_retention → later < kept.retain_until
      still h =
          let l = latest-le now (a.acquired_at ∷ value.reported_outcome_at ∷ []) in omega arith
