-- ===== src/Coordination/Local/Circuit/Calls.antt =====
-- The calls that add no attempt, and any sequence of calls (internal/coordination/local/circuit.go).
use vllm_priority_gateway.Base.{
  ℕ, ◌≡◌, refl, Bool, ◌||◌, not, Option, none, some, List, [], ◌∷◌, ltb, ◌==◌, if◌then◌else◌,
  length, arith, if_keeps, is_none, pos, leb_ℤ, add_time,
}
use vllm_priority_gateway.Base.Maps.{Map, lookup, delete, length-insert_old}
use vllm_priority_gateway.CircuitBreaker.{Breaker, NewResult, created, refused, new}
use vllm_priority_gateway.Coordination.Types.{
  BackendIdentity, CircuitSnapshot, ProbeIdentity, CircuitCompletion, RenewResult, Reason,
  idempotency_conflict, stale_operation,
}
use vllm_priority_gateway.Coordination.Local.Attempts.{
  CircuitEntry, CircuitAttempt, CircuitCoordinator, retain, finish, expire,
  circuit_retention_boundary, same_backend,
}
use vllm_priority_gateway.Coordination.Local.Circuit.{
  status, snapshot_at, is_stale_instant, complete, complete_after, complete_open, complete_attempt,
  completion_of, report, finish_once, same_completion,
}
use vllm_priority_gateway.Coordination.Local.Reconciliation.{
  reconcile_one, reconcile_all, drop_unseen, reconcile, ReconcileError, with_new, add_circuit,
  drop_circuit, contains, is_current,
}
use vllm_priority_gateway.Coordination.Local.Probes.{
  renew_known, renew_held, renew_permit, renew_all, renew_probes, probe_ttl,
}
use vllm_priority_gateway.Coordination.Local.Circuit.Capacity.{
  NoMore, NoMore-trans, NoMore-refl, same_attempts, retain-NoMore, expire-NoMore, invalidate-NoMore,
  snapshot-NoMore,
}
use vllm_priority_gateway.Coordination.Local.Circuit.Bounded.{has_terminal_attempt-NoMore}

drop_circuit-NoMore : (id now : ℕ) (c : CircuitCoordinator) → NoMore c (drop_circuit id now c)
unfolding drop_circuit
drop_circuit-NoMore id now c =
    NoMore-trans (same_attempts refl refl)
      (invalidate-NoMore id now (record c { circuits = delete id c.circuits }))

add_circuit-NoMore :
    (now : ℕ) (value : BackendIdentity) (b : Breaker) (c : CircuitCoordinator)
    → NoMore c (add_circuit now value b c)
unfolding add_circuit
add_circuit-NoMore now value b c =
    NoMore-trans (invalidate-NoMore value.id now c) (same_attempts refl refl)

abbrev KeepsAttempts : CircuitCoordinator → CircuitCoordinator × Option ReconcileError → Type 0
KeepsAttempts c r = NoMore c r.0

with_new-NoMore :
    (now : ℕ) (value : BackendIdentity) (n : NewResult) (c : CircuitCoordinator)
    → NoMore c (with_new now value n c).0
with_new-NoMore now value (refused e) c = NoMore-refl c
with_new-NoMore now value (created b) c = add_circuit-NoMore now value b c

reconcile_one-NoMore :
    (now : ℕ) (value : BackendIdentity) (c : CircuitCoordinator)
    → NoMore c (reconcile_one now value c).0
unfolding reconcile_one
reconcile_one-NoMore now value c =
    if_keeps (KeepsAttempts c) (not value.enabled || value.draining)
      (λ _. drop_circuit-NoMore value.id now c)
      (λ _.
        if_keeps (KeepsAttempts c) (is_current value (lookup value.id c.circuits))
          (λ _. NoMore-refl c) (λ _. with_new-NoMore now value (new c.options) c))

drop_unseen-NoMore :
    (now : ℕ) (seen : List ℕ) (m : Map CircuitEntry) (c : CircuitCoordinator)
    → NoMore c (drop_unseen now seen m c)
unfolding drop_unseen
drop_unseen-NoMore now seen [] c = NoMore-refl c
drop_unseen-NoMore now seen ((id, entry) ∷ rest) c =
    let d = if contains id seen then c else drop_circuit id now c in
    NoMore-trans
      (if_keeps (NoMore c) (contains id seen) (λ _. NoMore-refl c)
        (λ _. drop_circuit-NoMore id now c))
      (drop_unseen-NoMore now seen rest d)

reconcile_all-NoMore :
    (now : ℕ) (seen : List ℕ) (values : List BackendIdentity) (c : CircuitCoordinator)
    → NoMore c (reconcile_all now seen values c).0
unfolding reconcile_all
reconcile_all-NoMore now seen [] c = drop_unseen-NoMore now seen c.circuits c
reconcile_all-NoMore now seen (value ∷ values) c =
    let r = reconcile_one now value c in
    let one = reconcile_one-NoMore now value c in
    let rest = reconcile_all-NoMore now (value.id ∷ seen) values r.0 in
    if_keeps (KeepsAttempts c) (contains value.id seen) (λ _. NoMore-refl c)
      (λ _. if_keeps (KeepsAttempts c) (is_none r.1) (λ _. NoMore-trans one rest) (λ _. one))

pub reconcile-NoMore :
    (ended : Bool) (now : ℕ) (values : List BackendIdentity) (c : CircuitCoordinator)
    → NoMore c (reconcile ended now values c).0
unfolding reconcile
reconcile-NoMore ended now values c =
    if_keeps (KeepsAttempts c) ended (λ _. NoMore-refl c)
      (λ _. NoMore-trans (expire-NoMore now c) (reconcile_all-NoMore now [] values (expire now c)))

report-NoMore :
    (id now : ℕ) (r : Option Reason) (c : CircuitCoordinator) → NoMore c (report id now r c).0
unfolding report
report-NoMore id now r c = snapshot-NoMore id now c

abbrev KeepsCompleted :
    CircuitCoordinator → CircuitCoordinator × (CircuitSnapshot × Option Reason) → Type 0
KeepsCompleted c r = NoMore c r.0

finished-attempts :
    (a : CircuitAttempt) (value : CircuitCompletion) (c : CircuitCoordinator)
    → ((finish_once a value c).0.attempts ≡ c.attempts)
      × ((finish_once a value c).0.attempt_capacity ≡ c.attempt_capacity)
unfolding finish_once finish
finished-attempts a value c =
    if_keeps
      (λ (r : CircuitCoordinator × CircuitAttempt).
        (r.0.attempts ≡ c.attempts) × (r.0.attempt_capacity ≡ c.attempt_capacity))
      (not a.terminal) (λ _. (refl, refl)) (λ _. (refl, refl))

complete_attempt-NoMore :
    (now : ℕ) (value : CircuitCompletion) (a : CircuitAttempt) (c : CircuitCoordinator)
    → lookup value.attempt_id c.attempts ≡ some a
    → NoMore c (complete_attempt now value a c).0
unfolding complete_attempt
complete_attempt-NoMore now value a c h =
    let f = finish_once (record a { completion = some value }) value c in
    let same = finished-attempts (record a { completion = some value }) value c in
    let boundary =
      circuit_retention_boundary now (a.acquired_at ∷ value.reported_outcome_at ∷ []) in
    if_keeps (KeepsCompleted c)
      (not (same_backend a.backend value.backend) || not (a.generation == value.generation))
      (λ _. report-NoMore value.backend.id now (some idempotency_conflict) c)
      (λ _.
        NoMore-trans (retain-NoMore value.attempt_id boundary f.1 a f.0 same.1 same.0 h)
          (report-NoMore value.backend.id now none (retain value.attempt_id f.1 boundary f.0)))

complete_after-NoMore :
    (now : ℕ) (value : CircuitCompletion) (earlier : Option CircuitCompletion)
    (o : Option CircuitAttempt) (c : CircuitCoordinator)
    → lookup value.attempt_id c.attempts ≡ o
    → NoMore c (complete_after now value earlier o c).0
unfolding complete_after complete_open
complete_after-NoMore now value (some earlier) o c h =
    if_keeps (KeepsCompleted c) (not (same_completion earlier value))
      (λ _. report-NoMore value.backend.id now (some idempotency_conflict) c)
      (λ _. report-NoMore value.backend.id now none c)
complete_after-NoMore now value none none c h =
    if_keeps (KeepsCompleted c) (is_stale_instant now value.reported_outcome_at)
      (λ _. report-NoMore value.backend.id now (some stale_operation) c)
      (λ _. report-NoMore value.backend.id now none c)
complete_after-NoMore now value none (some a) c h =
    if_keeps (KeepsCompleted c) (is_stale_instant now value.reported_outcome_at)
      (λ _. report-NoMore value.backend.id now (some stale_operation) c)
      (λ _. complete_attempt-NoMore now value a c h)

pub complete-NoMore :
    (ended : Bool) (now : ℕ) (value : CircuitCompletion) (c : CircuitCoordinator)
    → NoMore c (complete ended now value c).0
unfolding complete
complete-NoMore ended now value c =
    let d = expire now c in
    let known = lookup value.attempt_id d.attempts in
    if_keeps (λ (r : CircuitCoordinator × Option (CircuitSnapshot × Option Reason)). NoMore c r.0)
      ended (λ _. NoMore-refl c)
      (λ _.
        NoMore-trans (expire-NoMore now c)
          (complete_after-NoMore now value (completion_of known) known d refl))

-- A permit is written over the attempt that holds it.
abbrev KeepsRenewed : CircuitCoordinator → CircuitCoordinator × RenewResult → Type 0
KeepsRenewed c r = NoMore c r.0

renew_permit-NoMore :
    (now : ℕ) (p : ProbeIdentity) (a : CircuitAttempt) (permit : ProbeIdentity)
    (c : CircuitCoordinator)
    → lookup p.permit_id c.attempts ≡ some a
    → NoMore c (renew_permit now p a permit c).0
renew_permit-NoMore now p a permit c h =
    let at = add_time now (probe_ttl a p) in
    let same =
      length-insert_old p.permit_id (record a { permit = some (record permit { expires_at = at }) })
        a c.attempts h in
    if_keeps (KeepsRenewed c) (leb_ℤ (probe_ttl a p) (pos 0)) (λ _. NoMore-refl c)
      (λ _. record { same_capacity = refl; no_more = omega (arith, same) })

renew_held-NoMore :
    (now : ℕ) (p : ProbeIdentity) (a : CircuitAttempt) (o : Option ProbeIdentity)
    (c : CircuitCoordinator)
    → lookup p.permit_id c.attempts ≡ some a
    → NoMore c (renew_held now p a o c).0
renew_held-NoMore now p a none c h = NoMore-refl c
renew_held-NoMore now p a (some permit) c h =
    if_keeps (KeepsRenewed c) (a.terminal || not (permit.generation == p.generation))
      (λ _. NoMore-refl c) (λ _. renew_permit-NoMore now p a permit c h)

renew_known-NoMore :
    (now : ℕ) (p : ProbeIdentity) (o : Option CircuitAttempt) (c : CircuitCoordinator)
    → lookup p.permit_id c.attempts ≡ o
    → NoMore c (renew_known now p o c).0
renew_known-NoMore now p none c h = NoMore-refl c
renew_known-NoMore now p (some a) c h = renew_held-NoMore now p a a.permit c h

renew_all-NoMore :
    (now : ℕ) (probes : List ProbeIdentity) (c : CircuitCoordinator)
    → NoMore c (renew_all now probes c).0
unfolding renew_all
renew_all-NoMore now [] c = NoMore-refl c
renew_all-NoMore now (p ∷ probes) c =
    let d = renew_known now p (lookup p.permit_id c.attempts) c in
    NoMore-trans (renew_known-NoMore now p (lookup p.permit_id c.attempts) c refl)
      (renew_all-NoMore now probes d.0)

pub renew_probes-NoMore :
    (ended : Bool) (now : ℕ) (probes : List ProbeIdentity) (c : CircuitCoordinator)
    → NoMore c (renew_probes ended now probes c).0
unfolding renew_probes
renew_probes-NoMore ended now probes c =
    if_keeps (λ (r : CircuitCoordinator × Option (List RenewResult)). NoMore c r.0) ended
      (λ _. NoMore-refl c)
      (λ _. NoMore-trans (expire-NoMore now c) (renew_all-NoMore now probes (expire now c)))

pub status-NoMore : (now : ℕ) (c : CircuitCoordinator) → NoMore c (status now c).0
unfolding status
status-NoMore now c =
    let d = expire now c in
    if_keeps (λ (r : CircuitCoordinator × Bool). NoMore c r.0)
      (ltb (length d.attempts) d.attempt_capacity) (λ _. expire-NoMore now c)
      (λ _. NoMore-trans (expire-NoMore now c) (has_terminal_attempt-NoMore d))

pub snapshot_at-NoMore : (id at : ℕ) (c : CircuitCoordinator) → NoMore c (snapshot_at id at c).0
unfolding snapshot_at
snapshot_at-NoMore id at c = NoMore-trans (expire-NoMore at c) (snapshot-NoMore id at (expire at c))
