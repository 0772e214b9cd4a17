-- ===== src/Coordination/Local/Circuit/Capacity.antt =====
-- The number of attempts that the local circuit coordinator holds
-- (internal/coordination/local/circuit.go).
use native.Mathlib.Nat.{le_trans, le_refl}
use vllm_priority_gateway.Base.{
  ap, suc, ℕ, ◌≤◌, ◌≡◌, refl, ◌∙◌, true, ◌||◌, not, Option, none, some, [], ◌∷◌, ltb, ◌==◌,
  if◌then◌else◌, length, get_elem?, arith, if_keeps,
}
use vllm_priority_gateway.Base.Maps.{Map, lookup, delete, length-insert_old, length-delete-le}
use vllm_priority_gateway.Domain.{failure}
use vllm_priority_gateway.CircuitBreaker.{Breaker}
use vllm_priority_gateway.Coordination.Types.{ProbeIdentity}
use vllm_priority_gateway.Coordination.Local.ExpiryQueue.{
  add, ExpiryQueue, ExpiryEntry, ExpiryKind, circuit_permit, circuit_attempt, admission_lease,
  admission_receipt,
}
use vllm_priority_gateway.Coordination.Local.Attempts.{
  CircuitEntry, CircuitAttempt, CircuitCoordinator, retain, finish, expire_probe, expire_attempt,
  expire_entry, expire_permits, expire_terminal, is_over, expire, invalidate_all, invalidate, lose,
  loses, snapshot, snapshot_entry, snapshot_breaker, circuit_retention_boundary,
}

-- No more attempts, under the same capacity.
pub record NoMore (c d : CircuitCoordinator) : Type 0 where
  pub same_capacity : d.attempt_capacity ≡ c.attempt_capacity
  pub no_more : length d.attempts ≤ length c.attempts

pub NoMore-trans : {c d e : CircuitCoordinator} → NoMore c d → NoMore d e → NoMore c e
NoMore-trans a b = record {
  same_capacity = b.same_capacity ∙ a.same_capacity;
  no_more = le_trans b.no_more a.no_more;
}

pub NoMore-refl : (c : CircuitCoordinator) → NoMore c c
NoMore-refl c = record { same_capacity = refl; no_more = le_refl (length c.attempts) }

-- The attempts are left alone.
pub same_attempts :
    {c d : CircuitCoordinator}
    → d.attempt_capacity ≡ c.attempt_capacity
    → d.attempts ≡ c.attempts
    → NoMore c d
same_attempts {c} k a = record { same_capacity = k; no_more = rw a (le_refl (length c.attempts)) }

pub retain-NoMore :
    (id boundary : ℕ) (a b : CircuitAttempt) {c : CircuitCoordinator} (d : CircuitCoordinator)
    → d.attempt_capacity ≡ c.attempt_capacity
    → d.attempts ≡ c.attempts
    → lookup id c.attempts ≡ some b
    → NoMore c (retain id a boundary d)
unfolding retain
retain-NoMore id boundary a b {c} d k e h =
    let same =
      length-insert_old id (record a { terminal = true; retain_until = boundary }) b c.attempts h in
    record { same_capacity = k; no_more = rw e (omega (arith, same)) }

expire_probe-NoMore :
    (now : ℕ) (e : ExpiryEntry) (a : CircuitAttempt) (p : Option ProbeIdentity)
    (c : CircuitCoordinator)
    → lookup e.id c.attempts ≡ some a
    → NoMore c (expire_probe now e a p c)
unfolding expire_probe finish
expire_probe-NoMore now e a none c h = NoMore-refl c
expire_probe-NoMore now e a (some p) c h =
    let f = finish a failure p.expires_at c in
    if_keeps (NoMore c) (a.terminal || not (p.expires_at == e.at) || ltb now p.expires_at)
      (λ _. NoMore-refl c)
      (λ _.
        retain-NoMore e.id (circuit_retention_boundary now (a.acquired_at ∷ p.expires_at ∷ [])) f.1
          a f.0 refl refl h)

expire_attempt-NoMore :
    (now : ℕ) (e : ExpiryEntry) (a : Option CircuitAttempt) (c : CircuitCoordinator)
    → lookup e.id c.attempts ≡ a
    → NoMore c (expire_attempt now e a c)
unfolding expire_attempt
expire_attempt-NoMore now e none c h = NoMore-refl c
expire_attempt-NoMore now e (some a) c h = expire_probe-NoMore now e a a.permit c h

expire_entry-NoMore :
    (now : ℕ) (e : ExpiryEntry) (kind : ExpiryKind) (c : CircuitCoordinator)
    → NoMore c (expire_entry now e kind c)
unfolding expire_entry
expire_entry-NoMore now e circuit_permit c =
    expire_attempt-NoMore now e (lookup e.id c.attempts) c refl
expire_entry-NoMore now e circuit_attempt c = NoMore-refl c
expire_entry-NoMore now e admission_lease c = NoMore-refl c
expire_entry-NoMore now e admission_receipt c = NoMore-refl c

expire_permits-NoMore :
    (now : ℕ) (q : ExpiryQueue) (c : CircuitCoordinator) → NoMore c (expire_permits now q c)
unfolding expire_permits
expire_permits-NoMore now [] c = same_attempts refl refl
expire_permits-NoMore now (e ∷ q) c =
    if_keeps (NoMore c) (ltb now e.at) (λ _. same_attempts refl refl)
      (λ _.
        NoMore-trans (expire_entry-NoMore now e e.kind c)
          (expire_permits-NoMore now q (expire_entry now e e.kind c)))

expire_terminal-NoMore :
    (now : ℕ) (q : ExpiryQueue) (c : CircuitCoordinator) → NoMore c (expire_terminal now q c)
unfolding expire_terminal
expire_terminal-NoMore now [] c = same_attempts refl refl
expire_terminal-NoMore now (e ∷ q) c =
    let d =
      if is_over now e.at (lookup e.id c.attempts)
      then record c { attempts = delete e.id c.attempts }
      else c in
    let one : NoMore c d =
      if_keeps (NoMore c) (is_over now e.at (lookup e.id c.attempts))
        (λ _. record { same_capacity = refl; no_more = length-delete-le e.id c.attempts })
        (λ _. NoMore-refl c) in
    if_keeps (NoMore c) (ltb now e.at) (λ _. same_attempts refl refl)
      (λ _. NoMore-trans one (expire_terminal-NoMore now q d))

pub expire-NoMore : (now : ℕ) (c : CircuitCoordinator) → NoMore c (expire now c)
unfolding expire
expire-NoMore now c =
    let d = expire_permits now c.expiries c in
    NoMore-trans (expire_permits-NoMore now c.expiries c)
      (expire_terminal-NoMore now d.terminal_expiries d)

length-invalidate_all :
    (id now : ℕ) (m : Map CircuitAttempt) (q : ExpiryQueue)
    → length (invalidate_all id now m q).0 ≡ length m
unfolding invalidate_all
length-invalidate_all id now [] q = refl
length-invalidate_all id now ((attempt_id, a) ∷ rest) q =
    let lost = lose id now a in
    ap suc (
      length-invalidate_all id now rest
        (if loses id a then add circuit_attempt attempt_id lost.retain_until q else q))

pub invalidate-NoMore : (id now : ℕ) (c : CircuitCoordinator) → NoMore c (invalidate id now c)
unfolding invalidate
invalidate-NoMore id now c =
    let l = length-invalidate_all id now c.attempts c.terminal_expiries in
    record { same_capacity = refl; no_more = omega arith }

pub snapshot-NoMore : (id at : ℕ) (c : CircuitCoordinator) → NoMore c (snapshot id at c).0
unfolding snapshot
snapshot-NoMore id at c = entry (lookup id c.circuits)
  where
    breaker : (e : CircuitEntry) (b : Option Breaker) → NoMore c (snapshot_breaker at e b c).0
    breaker e none = NoMore-refl c
    breaker e (some b) = same_attempts refl refl

    entry : (e : Option CircuitEntry) → NoMore c (snapshot_entry id at e c).0
    entry none = NoMore-refl c
    entry (some e) = breaker e (get_elem? c.breakers e.breaker)
