-- ===== src/Coordination/Local/Circuit/Linking.antt =====
-- A running attempt stays with its backend's breaker through every call
-- (internal/coordination/local/circuit.go).
use vllm_priority_gateway.Base.{
  ℕ, zero, suc, ◌≡◌, refl, subst, Bool, true, false, ◌||◌, not, Option, none, some, List, [], ◌∷◌,
  leb, ◌==◌, length, get_elem?, arith, if_keeps, set, some-eq, ℤ,
}
use vllm_priority_gateway.Base.Maps.{lookup}
use vllm_priority_gateway.CircuitBreaker
use vllm_priority_gateway.CircuitBreaker.{
  Settings, Breaker, Completion, NewResult, created, refused, new,
}
use vllm_priority_gateway.Coordination.Types.{
  CircuitSnapshot, ProbeIdentity, CircuitAcquireRequest, CircuitDecision, Reason, lease_lost,
  coordination_unavailable,
}
use vllm_priority_gateway.Coordination.Local.ExpiryQueue.{ExpiryQueue}
use vllm_priority_gateway.Coordination.Local.Attempts.{
  CircuitEntry, Closure, CircuitAttempt, CircuitCoordinator, expire, has_terminal_attempt,
  evict_head, make_room_loop, make_attempt_room, same_backend, to_circuit_snapshot,
}
use vllm_priority_gateway.Coordination.Local.Circuit.{
  new_circuit_coordinator, coordinator_of, with_snapshot, replay, admit, acquired, acquire_breaker,
  acquire_entry, acquire_known, acquire, is_half_open, is_stale_instant, probe_of, new_attempt,
}
use vllm_priority_gateway.Coordination.Local.Circuit.Completions.{
  complete-Linked, renew_probes-Linked,
}
use vllm_priority_gateway.Coordination.Local.Circuit.Links.{
  AllGo, Linked, insert-AllGo, delete-AllGo, lookup-Goes,
}
use vllm_priority_gateway.Coordination.Local.Circuit.Kept.{
  expire-Linked, snapshot-Linked, reconcile-Linked, status-Linked, snapshot_at-Linked,
}
use vllm_priority_gateway.Coordination.Local.Circuit.History.{
  Call, reconciles, snapshots, acquires, completes, renews, asks_status, step, run,
}

abbrev LinkedAnswer : CircuitCoordinator × CircuitDecision → Type 0
LinkedAnswer r = Linked r.0

admit-Linked :
    (now fp : ℕ) (req : CircuitAcquireRequest) (s : CircuitSnapshot) (closure : Closure)
    (e : CircuitEntry) (c : CircuitCoordinator)
    → lookup req.backend.id c.circuits ≡ some e
    → same_backend e.identity req.backend ≡ true
    → closure.breaker ≡ e.breaker
    → Linked c
    → Linked (admit now fp req s closure c).0
unfolding admit Linked
admit-Linked now fp req s closure e c q i b h =
    let a = new_attempt fp req s.generation closure in
    let p = probe_of now req s.generation in
    if_keeps LinkedAnswer (is_half_open s.state)
      (λ _.
        insert-AllGo c.circuits req.attempt_id (record a { permit = some p; ttl = req.probe_ttl })
          c.attempts (λ _. (e, q, i, b)) h)
      (λ _. insert-AllGo c.circuits req.attempt_id a c.attempts (λ _. (e, q, i, b)) h)

acquired-Linked :
    (now fp : ℕ) (req : CircuitAcquireRequest) (s : CircuitSnapshot) (o : Option Completion)
    (e : CircuitEntry) (c : CircuitCoordinator)
    → lookup req.backend.id c.circuits ≡ some e
    → same_backend e.identity req.backend ≡ true
    → Linked c
    → Linked (acquired now fp req e.breaker s o c).0
unfolding acquired
acquired-Linked now fp req s none e c q i h = h
acquired-Linked now fp req s (some body) e c q i h =
    admit-Linked now fp req s (record { breaker = e.breaker; body = body; done = false }) e c q i
      refl h

acquire_breaker-Linked :
    (now fp : ℕ) (req : CircuitAcquireRequest) (e : CircuitEntry) (o : Option Breaker)
    (c : CircuitCoordinator)
    → lookup req.backend.id c.circuits ≡ some e
    → same_backend e.identity req.backend ≡ true
    → Linked c
    → Linked (acquire_breaker now fp req e o c).0
unfolding acquire_breaker Linked
acquire_breaker-Linked now fp req e none c q i h = h
acquire_breaker-Linked now fp req e (some b) c q i h =
    let (b', completion) = CircuitBreaker.acquire now b in
    let (b'', s) = CircuitBreaker.snapshot now b' in
    acquired-Linked now fp req (to_circuit_snapshot e.identity s) completion e
      (record c { breakers = set c.breakers e.breaker b'' }) q i h

acquire_entry-Linked :
    (now fp : ℕ) (req : CircuitAcquireRequest) (o : Option CircuitEntry) (c : CircuitCoordinator)
    → lookup req.backend.id c.circuits ≡ o
    → Linked c
    → Linked (acquire_entry now fp req o c).0
unfolding acquire_entry
acquire_entry-Linked now fp req none c q h = h
acquire_entry-Linked now fp req (some e) c q h =
    if_keeps LinkedAnswer
      (not (same_backend e.identity req.backend) || not req.backend.enabled || req.backend.draining)
      (λ _. h)
      (λ k.
        if_keeps LinkedAnswer (is_stale_instant now req.acquisition_started_at) (λ _. h)
          (λ _.
            acquire_breaker-Linked now fp req e (get_elem? c.breakers e.breaker) c q
              (is_same (same_backend e.identity req.backend) req.backend.enabled
                req.backend.draining k)
              h))
  where
    is_same : (a b d : Bool) → not a || not b || d ≡ false → a ≡ true
    is_same a b d k = ground arith

evict_head-Linked : (q : ExpiryQueue) (c : CircuitCoordinator) → Linked c → Linked (evict_head q c)
unfolding Linked
evict_head-Linked [] c h = h
evict_head-Linked (e ∷ q) c h = delete-AllGo c.circuits e.id c.attempts h

make_room_loop-Linked :
    (fuel : ℕ) (c : CircuitCoordinator) → Linked c → Linked (make_room_loop fuel c).0
unfolding make_room_loop has_terminal_attempt Linked
make_room_loop-Linked zero c h = h
make_room_loop-Linked (suc fuel) c h =
    let P : CircuitCoordinator × Bool → Type 0 = λ r. Linked r.0 in
    let t = has_terminal_attempt c in
    let d = evict_head t.0.terminal_expiries t.0 in
    let rest = make_room_loop-Linked fuel d (evict_head-Linked t.0.terminal_expiries t.0 h) in
    if_keeps P (leb c.attempt_capacity (length c.attempts))
      (λ _. if_keeps P t.1 (λ _. rest) (λ _. h)) (λ _. h)

with_snapshot-Linked :
    (id now : ℕ) (p : Option ProbeIdentity) (r : Option Reason) (c : CircuitCoordinator)
    → Linked c
    → Linked (with_snapshot id now p r c).0
unfolding with_snapshot
with_snapshot-Linked id now p r c h = snapshot-Linked id now c h

replay-Linked :
    (now fp : ℕ) (req : CircuitAcquireRequest) (old : CircuitAttempt) (c : CircuitCoordinator)
    → Linked c
    → Linked (replay now fp req old c).0
unfolding replay
replay-Linked now fp req old c h =
    if_keeps LinkedAnswer (not (old.fingerprint == fp)) (λ _. h)
      (λ _.
        if_keeps LinkedAnswer old.terminal
          (λ _. with_snapshot-Linked req.backend.id now none (some lease_lost) c h)
          (λ _. with_snapshot-Linked req.backend.id now old.permit none c h))

acquire_known-Linked :
    (now fp : ℕ) (req : CircuitAcquireRequest) (o : Option CircuitAttempt) (c : CircuitCoordinator)
    → Linked c
    → Linked (acquire_known now fp req o c).0
unfolding acquire_known make_attempt_room
acquire_known-Linked now fp req (some old) c h = replay-Linked now fp req old c h
acquire_known-Linked now fp req none c h =
    let m = make_attempt_room c in
    let room = make_room_loop-Linked (suc (length c.terminal_expiries)) c h in
    if_keeps LinkedAnswer (not m.1)
      (λ _. with_snapshot-Linked req.backend.id now none (some coordination_unavailable) m.0 room)
      (λ _. acquire_entry-Linked now fp req (lookup req.backend.id m.0.circuits) m.0 refl room)

acquire-Linked :
    (fingerprint : CircuitAcquireRequest → ℕ) (ended : Bool) (now : ℕ) (req : CircuitAcquireRequest)
    (c : CircuitCoordinator)
    → Linked c
    → Linked (acquire fingerprint ended now req c).0
unfolding acquire
acquire-Linked fingerprint ended now req c h =
    let d = expire now c in
    if_keeps (λ (r : CircuitCoordinator × Option CircuitDecision). Linked r.0) ended (λ _. h)
      (λ _.
        acquire_known-Linked now (fingerprint req) req (lookup req.attempt_id d.attempts) d
          (expire-Linked now c h))

module _ (fingerprint : CircuitAcquireRequest → ℕ) where
  step-Linked : (call : Call) (c : CircuitCoordinator) → Linked c → Linked (step fingerprint call c)
  unfolding step
  step-Linked (reconciles ended now values) c h = reconcile-Linked ended now values c h
  step-Linked (snapshots id at) c h = snapshot_at-Linked id at c h
  step-Linked (acquires ended now req) c h = acquire-Linked fingerprint ended now req c h
  step-Linked (completes ended now value) c h = complete-Linked ended now value c h
  step-Linked (renews ended now probes) c h = renew_probes-Linked ended now probes c h
  step-Linked (asks_status now) c h = status-Linked now c h

  run-Linked :
      (calls : List Call) (c : CircuitCoordinator) → Linked c → Linked (run fingerprint calls c)
  unfolding run
  run-Linked [] c h = h
  run-Linked (call ∷ calls) c h = run-Linked calls (step fingerprint call c) (step-Linked call c h)

starts-Linked :
    (options : Settings) (capacity : ℤ) (n : NewResult) (c : CircuitCoordinator)
    → coordinator_of options capacity n ≡ some c
    → Linked c
unfolding Linked
starts-Linked options capacity (refused e) c h = cc
starts-Linked options capacity (created b) c h =
    subst (λ d. AllGo d.circuits d.attempts) (some-eq h) tt

-- After any calls on a new coordinator, an attempt that is looked up and has not ended belongs to a
-- backend whose circuit is in the map with the very identity that the attempt was admitted for
-- (its id, revision and flags), and its outcome would go to the breaker of that circuit. So no
-- call of `Reconcile` leaves an attempt running against a breaker that it has replaced or dropped.
pub lookup-run :
    (fingerprint : CircuitAcquireRequest → ℕ) (options : Settings) (capacity : ℤ)
    (calls : List Call) (c : CircuitCoordinator) (id : ℕ) (a : CircuitAttempt)
    → new_circuit_coordinator options capacity ≡ some c
    → lookup id (run fingerprint calls c).attempts ≡ some a
    → a.terminal ≡ false
    → (e : CircuitEntry) × (lookup a.backend.id (run fingerprint calls c).circuits ≡ some e)
      × (same_backend e.identity a.backend ≡ true)
      × (a.complete.breaker ≡ e.breaker)
unfolding new_circuit_coordinator Linked
lookup-run fingerprint options capacity calls c id a new_c found running =
    let d = run fingerprint calls c in
    let linked =
      run-Linked fingerprint calls c (starts-Linked options capacity (new options) c new_c) in
    lookup-Goes d.circuits id a d.attempts found linked running
