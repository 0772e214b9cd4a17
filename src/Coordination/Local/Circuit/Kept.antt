-- ===== src/Coordination/Local/Circuit/Kept.antt =====
-- The calls that start no attempt keep every running attempt with its backend's breaker
-- (internal/coordination/local/circuit.go).
use vllm_priority_gateway.Base.{
  ℕ, Bool, ◌||◌, not, Option, none, some, List, [], ◌∷◌, ltb, ◌==◌, if◌then◌else◌, length,
  get_elem?, if_keeps, is_none,
}
use vllm_priority_gateway.Base.Maps.{Map, lookup, delete}
use vllm_priority_gateway.Domain.{failure}
use vllm_priority_gateway.CircuitBreaker.{Breaker, NewResult, created, refused, new}
use vllm_priority_gateway.Coordination.Types.{BackendIdentity, ProbeIdentity}
use vllm_priority_gateway.Coordination.Local.ExpiryQueue.{
  ExpiryQueue, ExpiryEntry, ExpiryKind, circuit_permit, circuit_attempt, admission_lease,
  admission_receipt,
}
use vllm_priority_gateway.Coordination.Local.Attempts.{
  CircuitEntry, CircuitAttempt, CircuitCoordinator, finish, expire_probe, expire_attempt,
  expire_entry, expire_permits, expire_terminal, is_over, expire, has_terminal_attempt, snapshot,
  snapshot_entry, snapshot_breaker, circuit_retention_boundary,
}
use vllm_priority_gateway.Coordination.Local.Reconciliation.{
  ReconcileError, contains, is_current, with_new, drop_circuit, reconcile_one, drop_unseen,
  reconcile_all, reconcile,
}
use vllm_priority_gateway.Coordination.Local.Circuit.{status, snapshot_at}
use vllm_priority_gateway.Coordination.Local.Circuit.Links.{
  Linked, delete-AllGo, retain-Linked, drop_circuit-Linked, add_circuit-Linked,
}

expire_probe-Linked :
    (now : ℕ) (e : ExpiryEntry) (a : CircuitAttempt) (p : Option ProbeIdentity)
    (c : CircuitCoordinator)
    → Linked c
    → Linked (expire_probe now e a p c)
unfolding expire_probe finish Linked
expire_probe-Linked now e a none c h = h
expire_probe-Linked now e a (some p) c h =
    let f = finish a failure p.expires_at c in
    if_keeps Linked (a.terminal || not (p.expires_at == e.at) || ltb now p.expires_at) (λ _. h)
      (λ _.
        retain-Linked e.id (circuit_retention_boundary now (a.acquired_at ∷ p.expires_at ∷ [])) f.1
          f.0 h)

expire_entry-Linked :
    (now : ℕ) (e : ExpiryEntry) (kind : ExpiryKind) (c : CircuitCoordinator)
    → Linked c
    → Linked (expire_entry now e kind c)
unfolding expire_entry expire_attempt
expire_entry-Linked now e circuit_permit c h = expire_attempt-Linked (lookup e.id c.attempts)
  where
    expire_attempt-Linked : (o : Option CircuitAttempt) → Linked (expire_attempt now e o c)
    expire_attempt-Linked none = h
    expire_attempt-Linked (some a) = expire_probe-Linked now e a a.permit c h
expire_entry-Linked now e circuit_attempt c h = h
expire_entry-Linked now e admission_lease c h = h
expire_entry-Linked now e admission_receipt c h = h

expire_permits-Linked :
    (now : ℕ) (q : ExpiryQueue) (c : CircuitCoordinator)
    → Linked c
    → Linked (expire_permits now q c)
unfolding expire_permits Linked
expire_permits-Linked now [] c h = h
expire_permits-Linked now (e ∷ q) c h =
    if_keeps Linked (ltb now e.at) (λ _. h)
      (λ _.
        expire_permits-Linked now q (expire_entry now e e.kind c)
          (expire_entry-Linked now e e.kind c h))

expire_terminal-Linked :
    (now : ℕ) (q : ExpiryQueue) (c : CircuitCoordinator)
    → Linked c
    → Linked (expire_terminal now q c)
unfolding expire_terminal Linked
expire_terminal-Linked now [] c h = h
expire_terminal-Linked now (e ∷ q) c h =
    let over = is_over now e.at (lookup e.id c.attempts) in
    let d = if over then record c { attempts = delete e.id c.attempts } else c in
    let one : Linked d =
      if_keeps Linked over (λ _. delete-AllGo c.circuits e.id c.attempts h) (λ _. h) in
    if_keeps Linked (ltb now e.at) (λ _. h) (λ _. expire_terminal-Linked now q d one)

pub expire-Linked : (now : ℕ) (c : CircuitCoordinator) → Linked c → Linked (expire now c)
unfolding expire
expire-Linked now c h =
    let d = expire_permits now c.expiries c in
    expire_terminal-Linked now d.terminal_expiries d (expire_permits-Linked now c.expiries c h)

-- A snapshot writes to the breakers only.
snapshot_breaker-Linked :
    (at : ℕ) (e : CircuitEntry) (o : Option Breaker) (c : CircuitCoordinator)
    → Linked c
    → Linked (snapshot_breaker at e o c).0
unfolding Linked
snapshot_breaker-Linked at e none c h = h
snapshot_breaker-Linked at e (some b) c h = h

pub snapshot-Linked : (id at : ℕ) (c : CircuitCoordinator) → Linked c → Linked (snapshot id at c).0
unfolding snapshot
snapshot-Linked id at c h = of_entry (lookup id c.circuits)
  where
    of_entry : (o : Option CircuitEntry) → Linked (snapshot_entry id at o c).0
    of_entry none = h
    of_entry (some e) = snapshot_breaker-Linked at e (get_elem? c.breakers e.breaker) c h

with_new-Linked :
    (now : ℕ) (value : BackendIdentity) (n : NewResult) (c : CircuitCoordinator)
    → Linked c
    → Linked (with_new now value n c).0
with_new-Linked now value (refused e) c h = h
with_new-Linked now value (created b) c h = add_circuit-Linked now value b c h

abbrev LinkedReconciled : CircuitCoordinator × Option ReconcileError → Type 0
LinkedReconciled r = Linked r.0

reconcile_one-Linked :
    (now : ℕ) (value : BackendIdentity) (c : CircuitCoordinator)
    → Linked c
    → Linked (reconcile_one now value c).0
unfolding reconcile_one
reconcile_one-Linked now value c h =
    if_keeps LinkedReconciled (not value.enabled || value.draining)
      (λ _. drop_circuit-Linked value.id now c h)
      (λ _.
        if_keeps LinkedReconciled (is_current value (lookup value.id c.circuits)) (λ _. h)
          (λ _. with_new-Linked now value (new c.options) c h))

drop_unseen-Linked :
    (now : ℕ) (seen : List ℕ) (m : Map CircuitEntry) (c : CircuitCoordinator)
    → Linked c
    → Linked (drop_unseen now seen m c)
unfolding drop_unseen
drop_unseen-Linked now seen [] c h = h
drop_unseen-Linked now seen ((id, entry) ∷ rest) c h =
    let d = if contains id seen then c else drop_circuit id now c in
    drop_unseen-Linked now seen rest d
      (if_keeps Linked (contains id seen) (λ _. h) (λ _. drop_circuit-Linked id now c h))

reconcile_all-Linked :
    (now : ℕ) (seen : List ℕ) (values : List BackendIdentity) (c : CircuitCoordinator)
    → Linked c
    → Linked (reconcile_all now seen values c).0
unfolding reconcile_all
reconcile_all-Linked now seen [] c h = drop_unseen-Linked now seen c.circuits c h
reconcile_all-Linked now seen (value ∷ values) c h =
    let r = reconcile_one now value c in
    let one = reconcile_one-Linked now value c h in
    let rest = reconcile_all-Linked now (value.id ∷ seen) values r.0 one in
    if_keeps LinkedReconciled (contains value.id seen) (λ _. h)
      (λ _. if_keeps LinkedReconciled (is_none r.1) (λ _. rest) (λ _. one))

pub reconcile-Linked :
    (ended : Bool) (now : ℕ) (values : List BackendIdentity) (c : CircuitCoordinator)
    → Linked c
    → Linked (reconcile ended now values c).0
unfolding reconcile
reconcile-Linked ended now values c h =
    if_keeps LinkedReconciled ended (λ _. h)
      (λ _. reconcile_all-Linked now [] values (expire now c) (expire-Linked now c h))

pub status-Linked : (now : ℕ) (c : CircuitCoordinator) → Linked c → Linked (status now c).0
unfolding status has_terminal_attempt Linked
status-Linked now c h =
    let d = expire now c in
    if_keeps (λ (r : CircuitCoordinator × Bool). Linked r.0)
      (ltb (length d.attempts) d.attempt_capacity) (λ _. expire-Linked now c h)
      (λ _. expire-Linked now c h)

pub snapshot_at-Linked :
    (id at : ℕ) (c : CircuitCoordinator) → Linked c → Linked (snapshot_at id at c).0
unfolding snapshot_at
snapshot_at-Linked id at c h = snapshot-Linked id at (expire at c) (expire-Linked at c h)
