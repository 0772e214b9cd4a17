-- ===== src/Coordination/Local/Circuit/Completions.antt =====
-- Completions and renewals keep every running attempt with its backend's breaker
-- (internal/coordination/local/circuit.go).
use vllm_priority_gateway.Base.{
  ℕ, ◌≡◌, refl, Bool, ◌||◌, not, Option, none, some, List, [], ◌∷◌, ◌==◌, if_keeps, leb_ℤ, pos,
  add_time,
}
use vllm_priority_gateway.Base.Maps.{lookup}
use vllm_priority_gateway.Coordination.Types.{
  CircuitSnapshot, ProbeIdentity, CircuitCompletion, RenewResult, Reason, idempotency_conflict,
  stale_operation,
}
use vllm_priority_gateway.Coordination.Local.Attempts.{
  CircuitAttempt, CircuitCoordinator, retain, finish, expire, circuit_retention_boundary,
  same_backend,
}
use vllm_priority_gateway.Coordination.Local.Probes.{
  probe_ttl, renew_held, renew_known, renew_all, renew_probes,
}
use vllm_priority_gateway.Coordination.Local.Circuit.{
  is_stale_instant, complete, complete_after, complete_open, complete_attempt, completion_of,
  report, finish_once, same_completion,
}
use vllm_priority_gateway.Coordination.Local.Circuit.Links.{
  Goes, Linked, insert-AllGo, lookup-Goes, retain-Linked,
}
use vllm_priority_gateway.Coordination.Local.Circuit.Kept.{expire-Linked, snapshot-Linked}

abbrev LinkedCompleted : CircuitCoordinator × (CircuitSnapshot × Option Reason) → Type 0
LinkedCompleted r = Linked r.0

report-Linked :
    (id now : ℕ) (r : Option Reason) (c : CircuitCoordinator)
    → Linked c
    → Linked (report id now r c).0
unfolding report
report-Linked id now r c h = snapshot-Linked id now c h

finish_once-Linked :
    (a : CircuitAttempt) (value : CircuitCompletion) (c : CircuitCoordinator)
    → Linked c
    → Linked (finish_once a value c).0
unfolding finish_once finish Linked
finish_once-Linked a value c h =
    if_keeps (λ (r : CircuitCoordinator × CircuitAttempt). Linked r.0) (not a.terminal) (λ _. h)
      (λ _. h)

complete_attempt-Linked :
    (now : ℕ) (value : CircuitCompletion) (a : CircuitAttempt) (c : CircuitCoordinator)
    → Linked c
    → Linked (complete_attempt now value a c).0
unfolding complete_attempt
complete_attempt-Linked now value a c h =
    let b = record a { completion = some value } in
    let f = finish_once b value c in
    let boundary =
      circuit_retention_boundary now (a.acquired_at ∷ value.reported_outcome_at ∷ []) in
    if_keeps LinkedCompleted
      (not (same_backend a.backend value.backend) || not (a.generation == value.generation))
      (λ _. report-Linked value.backend.id now (some idempotency_conflict) c h)
      (λ _.
        report-Linked value.backend.id now none (retain value.attempt_id f.1 boundary f.0)
          (retain-Linked value.attempt_id boundary f.1 f.0 (finish_once-Linked b value c h)))

complete_after-Linked :
    (now : ℕ) (value : CircuitCompletion) (earlier : Option CircuitCompletion)
    (o : Option CircuitAttempt) (c : CircuitCoordinator)
    → Linked c
    → Linked (complete_after now value earlier o c).0
unfolding complete_after complete_open
complete_after-Linked now value (some earlier) o c h =
    if_keeps LinkedCompleted (not (same_completion earlier value))
      (λ _. report-Linked value.backend.id now (some idempotency_conflict) c h)
      (λ _. report-Linked value.backend.id now none c h)
complete_after-Linked now value none none c h =
    if_keeps LinkedCompleted (is_stale_instant now value.reported_outcome_at)
      (λ _. report-Linked value.backend.id now (some stale_operation) c h)
      (λ _. report-Linked value.backend.id now none c h)
complete_after-Linked now value none (some a) c h =
    if_keeps LinkedCompleted (is_stale_instant now value.reported_outcome_at)
      (λ _. report-Linked value.backend.id now (some stale_operation) c h)
      (λ _. complete_attempt-Linked now value a c h)

pub complete-Linked :
    (ended : Bool) (now : ℕ) (value : CircuitCompletion) (c : CircuitCoordinator)
    → Linked c
    → Linked (complete ended now value c).0
unfolding complete
complete-Linked ended now value c h =
    let d = expire now c in
    let known = lookup value.attempt_id d.attempts in
    if_keeps (λ (r : CircuitCoordinator × Option (CircuitSnapshot × Option Reason)). Linked r.0)
      ended (λ _. h)
      (λ _. complete_after-Linked now value (completion_of known) known d (expire-Linked now c h))

-- A renewed permit leaves the backend and the breaker of its attempt alone.
renew_held-Linked :
    (now : ℕ) (p : ProbeIdentity) (a : CircuitAttempt) (o : Option ProbeIdentity)
    (c : CircuitCoordinator)
    → Goes c.circuits a
    → Linked c
    → Linked (renew_held now p a o c).0
unfolding Linked
renew_held-Linked now p a none c g h = h
renew_held-Linked now p a (some permit) c g h =
    let P : CircuitCoordinator × RenewResult → Type 0 = λ r. Linked r.0 in
    let at = add_time now (probe_ttl a p) in
    if_keeps P (a.terminal || not (permit.generation == p.generation)) (λ _. h)
      (λ _.
        if_keeps P (leb_ℤ (probe_ttl a p) (pos 0)) (λ _. h)
          (λ _.
            insert-AllGo c.circuits p.permit_id
              (record a { permit = some (record permit { expires_at = at }) }) c.attempts g h))

renew_known-Linked :
    (now : ℕ) (p : ProbeIdentity) (o : Option CircuitAttempt) (c : CircuitCoordinator)
    → lookup p.permit_id c.attempts ≡ o
    → Linked c
    → Linked (renew_known now p o c).0
unfolding Linked
renew_known-Linked now p none c q h = h
renew_known-Linked now p (some a) c q h =
    renew_held-Linked now p a a.permit c (lookup-Goes c.circuits p.permit_id a c.attempts q h) h

renew_all-Linked :
    (now : ℕ) (probes : List ProbeIdentity) (c : CircuitCoordinator)
    → Linked c
    → Linked (renew_all now probes c).0
unfolding renew_all
renew_all-Linked now [] c h = h
renew_all-Linked now (p ∷ probes) c h =
    let known = lookup p.permit_id c.attempts in
    renew_all-Linked now probes (renew_known now p known c).0
      (renew_known-Linked now p known c refl h)

pub renew_probes-Linked :
    (ended : Bool) (now : ℕ) (probes : List ProbeIdentity) (c : CircuitCoordinator)
    → Linked c
    → Linked (renew_probes ended now probes c).0
unfolding renew_probes
renew_probes-Linked ended now probes c h =
    if_keeps (λ (r : CircuitCoordinator × Option (List RenewResult)). Linked r.0) ended (λ _. h)
      (λ _. renew_all-Linked now probes (expire now c) (expire-Linked now c h))
