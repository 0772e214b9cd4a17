-- ===== src/Coordination/Local/Circuit/Bounded.antt =====
-- No call makes the local circuit coordinator hold more attempts than its capacity
-- (internal/coordination/local/circuit.go).
use vllm_priority_gateway.Base.{
  ℕ, zero, suc, ◌+◌, ◌≤◌, ◌<◌, ◌≡◌, refl, Bool, true, false, ◌||◌, not, Option, none, some, [], ◌∷◌,
  leb, ◌==◌, length, get_elem?, arith, if_keeps, set, Option-cases, inl, inr,
}
use vllm_priority_gateway.Base.Maps.{
  Map, lookup, insert, length-insert_new, length-insert_old, length-delete-le,
}
use vllm_priority_gateway.CircuitBreaker
use vllm_priority_gateway.CircuitBreaker.{Breaker, Completion, new}
use vllm_priority_gateway.Coordination.Types.{
  CircuitSnapshot, ProbeIdentity, CircuitAcquireRequest, CircuitDecision, Reason, lease_lost,
  coordination_unavailable,
}
use vllm_priority_gateway.Coordination.Local.ExpiryQueue.{ExpiryQueue}
use vllm_priority_gateway.Coordination.Local.Attempts.{
  CircuitEntry, Closure, CircuitAttempt, CircuitCoordinator, expire, has_terminal_attempt,
  evict_head, make_room_loop, make_attempt_room, same_backend, to_circuit_snapshot,
}
use vllm_priority_gateway.Coordination.Local.Circuit.{
  with_snapshot, replay, admit, acquired, acquire_breaker, acquire_entry, acquire_known, acquire,
  is_half_open, is_stale_instant,
}
use vllm_priority_gateway.Coordination.Local.Circuit.Capacity.{
  NoMore, NoMore-trans, NoMore-refl, same_attempts, expire-NoMore, snapshot-NoMore,
}

abbrev pub Bounded : CircuitCoordinator → Type 0
Bounded c = length c.attempts ≤ c.attempt_capacity

pub NoMore-Bounded : {c d : CircuitCoordinator} → NoMore c d → Bounded c → Bounded d
NoMore-Bounded n h = let l = n.no_more in let k = n.same_capacity in omega arith

pub has_terminal_attempt-NoMore : (c : CircuitCoordinator) → NoMore c (has_terminal_attempt c).0
unfolding has_terminal_attempt
has_terminal_attempt-NoMore c = same_attempts refl refl

evict_head-NoMore : (q : ExpiryQueue) (c : CircuitCoordinator) → NoMore c (evict_head q c)
evict_head-NoMore [] c = NoMore-refl c
evict_head-NoMore (e ∷ q) c = record {
  same_capacity = refl;
  no_more = length-delete-le e.id c.attempts;
}

-- The room that is made, and what it is worth.
pub record Room (c : CircuitCoordinator) (r : CircuitCoordinator × Bool) : Type 0 where
  pub shrinks : NoMore c r.0
  pub has_room : r.1 ≡ true → length r.0.attempts < r.0.attempt_capacity

make_room_loop-Room : (fuel : ℕ) (c : CircuitCoordinator) → Room c (make_room_loop fuel c)
unfolding make_room_loop
make_room_loop-Room zero c = record { shrinks = NoMore-refl c; has_room = λ h. absurd cc }
make_room_loop-Room (suc fuel) c =
    let h = has_terminal_attempt c in
    let d = evict_head h.0.terminal_expiries h.0 in
    let rest = make_room_loop-Room fuel d in
    let first =
      NoMore-trans (has_terminal_attempt-NoMore c) (evict_head-NoMore h.0.terminal_expiries h.0) in
    if_keeps (Room c) (leb c.attempt_capacity (length c.attempts))
      (λ _.
        if_keeps (Room c) h.1
          (λ _. record { shrinks = NoMore-trans first rest.shrinks; has_room = rest.has_room })
          (λ _. record { shrinks = has_terminal_attempt-NoMore c; has_room = λ k. absurd cc }))
      (λ k. record { shrinks = NoMore-refl c; has_room = λ _. ground arith })

make_attempt_room-Room : (c : CircuitCoordinator) → Room c (make_attempt_room c)
unfolding make_attempt_room
make_attempt_room-Room c = make_room_loop-Room (suc (length c.terminal_expiries)) c

length-insert-le :
    (k : ℕ) (a : CircuitAttempt) (m : Map CircuitAttempt) → length (insert k a m) ≤ length m + 1
length-insert-le k a m = elim (Option-cases (lookup k m)) [
  | inl h ↦ let e = length-insert_new k a m h in omega arith
  | inr (b, h) ↦ let e = length-insert_old k a b m h in omega arith
]

-- What a new attempt leaves bounded.
abbrev HasRoom : CircuitCoordinator → Type 0
HasRoom c = length c.attempts < c.attempt_capacity

-- One attempt more at most, under the same capacity.
record OneMore (c : CircuitCoordinator) (r : CircuitCoordinator × CircuitDecision) : Type 0 where
  same : r.0.attempt_capacity ≡ c.attempt_capacity
  one_more : length r.0.attempts ≤ length c.attempts + 1

admit-OneMore :
    (now fp : ℕ) (req : CircuitAcquireRequest) (s : CircuitSnapshot) (closure : Closure)
    (c : CircuitCoordinator)
    → OneMore c (admit now fp req s closure c)
unfolding admit
admit-OneMore now fp req s closure c =
    if_keeps (OneMore c) (is_half_open s.state)
      (λ _. record { same = refl; one_more = length-insert-le req.attempt_id _ c.attempts })
      (λ _. record { same = refl; one_more = length-insert-le req.attempt_id _ c.attempts })

nothing-OneMore :
    {c : CircuitCoordinator} {r : CircuitCoordinator × CircuitDecision} → NoMore c r.0 → OneMore c r
nothing-OneMore n = let l = n.no_more in record { same = n.same_capacity; one_more = omega arith }

acquired-OneMore :
    (now fp : ℕ) (req : CircuitAcquireRequest) (breaker : ℕ) (s : CircuitSnapshot)
    (o : Option Completion) (c : CircuitCoordinator)
    → OneMore c (acquired now fp req breaker s o c)
unfolding acquired
acquired-OneMore now fp req breaker s none c = nothing-OneMore (NoMore-refl c)
acquired-OneMore now fp req breaker s (some body) c =
    admit-OneMore now fp req s (record { breaker = breaker; body = body; done = false }) c

acquire_breaker-OneMore :
    (now fp : ℕ) (req : CircuitAcquireRequest) (e : CircuitEntry) (o : Option Breaker)
    (c : CircuitCoordinator)
    → OneMore c (acquire_breaker now fp req e o c)
unfolding acquire_breaker
acquire_breaker-OneMore now fp req e none c = nothing-OneMore (NoMore-refl c)
acquire_breaker-OneMore now fp req e (some b) c =
    let (b', completion) = CircuitBreaker.acquire now b in
    let (b'', s) = CircuitBreaker.snapshot now b' in
    let more =
      acquired-OneMore now fp req e.breaker (to_circuit_snapshot e.identity s) completion
        (record c { breakers = set c.breakers e.breaker b'' }) in
    record { same = more.same; one_more = more.one_more }

acquire_entry-OneMore :
    (now fp : ℕ) (req : CircuitAcquireRequest) (o : Option CircuitEntry) (c : CircuitCoordinator)
    → OneMore c (acquire_entry now fp req o c)
unfolding acquire_entry
acquire_entry-OneMore now fp req none c = nothing-OneMore (NoMore-refl c)
acquire_entry-OneMore now fp req (some e) c =
    if_keeps (OneMore c)
      (not (same_backend e.identity req.backend) || not req.backend.enabled || req.backend.draining)
      (λ _. nothing-OneMore (NoMore-refl c))
      (λ _.
        if_keeps (OneMore c) (is_stale_instant now req.acquisition_started_at)
          (λ _. nothing-OneMore (NoMore-refl c))
          (λ _. acquire_breaker-OneMore now fp req e (get_elem? c.breakers e.breaker) c))

with_snapshot-NoMore :
    (id now : ℕ) (p : Option ProbeIdentity) (r : Option Reason) (c : CircuitCoordinator)
    → NoMore c (with_snapshot id now p r c).0
unfolding with_snapshot
with_snapshot-NoMore id now p r c = snapshot-NoMore id now c

replay-NoMore :
    (now fp : ℕ) (req : CircuitAcquireRequest) (old : CircuitAttempt) (c : CircuitCoordinator)
    → NoMore c (replay now fp req old c).0
unfolding replay
replay-NoMore now fp req old c =
    let P : CircuitCoordinator × CircuitDecision → Type 0 = λ r. NoMore c r.0 in
    if_keeps P (not (old.fingerprint == fp)) (λ _. NoMore-refl c)
      (λ _.
        if_keeps P old.terminal
          (λ _. with_snapshot-NoMore req.backend.id now none (some lease_lost) c)
          (λ _. with_snapshot-NoMore req.backend.id now old.permit none c))

acquire_known-Bounded :
    (now fp : ℕ) (req : CircuitAcquireRequest) (o : Option CircuitAttempt) (c : CircuitCoordinator)
    → Bounded c
    → Bounded (acquire_known now fp req o c).0
unfolding acquire_known
acquire_known-Bounded now fp req (some old) c h = NoMore-Bounded (replay-NoMore now fp req old c) h
acquire_known-Bounded now fp req none c h =
    let m = make_attempt_room c in
    let room = make_attempt_room-Room c in
    let P : CircuitCoordinator × CircuitDecision → Type 0 = λ r. Bounded r.0 in
    if_keeps P (not m.1)
      (λ _.
        NoMore-Bounded
          (NoMore-trans room.shrinks
            (with_snapshot-NoMore req.backend.id now none (some coordination_unavailable) m.0))
          h)
      (λ k.
        let more = acquire_entry-OneMore now fp req (lookup req.backend.id m.0.circuits) m.0 in
        fits_one more (room.has_room (is_true m.1 k)))
  where
    is_true : (b : Bool) → not b ≡ false → b ≡ true
    is_true b h = ground arith

    fits_one :
        {c : CircuitCoordinator} {r : CircuitCoordinator × CircuitDecision}
        → OneMore c r
        → HasRoom c
        → Bounded r.0
    fits_one more k = let l = more.one_more in let e = more.same in omega arith

pub acquire-Bounded :
    (fingerprint : CircuitAcquireRequest → ℕ) (ended : Bool) (now : ℕ) (req : CircuitAcquireRequest)
    (c : CircuitCoordinator)
    → Bounded c
    → Bounded (acquire fingerprint ended now req c).0
unfolding acquire
acquire-Bounded fingerprint ended now req c h =
    let d = expire now c in
    if_keeps (λ (r : CircuitCoordinator × Option CircuitDecision). Bounded r.0) ended (λ _. h)
      (λ _.
        acquire_known-Bounded now (fingerprint req) req (lookup req.attempt_id d.attempts) d
          (NoMore-Bounded (expire-NoMore now c) h))
