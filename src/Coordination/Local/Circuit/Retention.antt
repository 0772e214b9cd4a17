-- ===== src/Coordination/Local/Circuit/Retention.antt =====
-- An attempt that is over is kept until its boundary (internal/coordination/local/circuit.go).
use vllm_priority_gateway.Base.{
  ℕ, ◌<◌, ◌≡◌, refl, sym, ap, ◌∙◌, true, false, ◌||◌, not, Option, none, some, [], ◌∷◌, ltb, ◌==◌,
  if◌then◌else◌, get_elem?, arith, if_keeps, Bool-cases, some-eq, inl, inr, ==_iff,
}
use vllm_priority_gateway.Base.Maps.{lookup, delete, lookup-insert, lookup-delete}
use vllm_priority_gateway.Domain.{failure}
use vllm_priority_gateway.CircuitBreaker.{Breaker}
use vllm_priority_gateway.Coordination.Types.{ProbeIdentity}
use vllm_priority_gateway.Coordination.Local.ExpiryQueue.{
  ExpiryQueue, ExpiryEntry, ExpiryKind, circuit_permit, circuit_attempt, admission_lease,
  admission_receipt,
}
use vllm_priority_gateway.Coordination.Local.Attempts.{
  CircuitEntry, CircuitAttempt, CircuitCoordinator, retain, finish, expire_probe, expire_attempt,
  expire_entry, expire_permits, expire_terminal, is_over, expire, snapshot, snapshot_entry,
  snapshot_breaker, circuit_retention_boundary,
}

-- An attempt that is over, and is still kept.
module _ (id : ℕ) (a : CircuitAttempt) where
  abbrev IsHeld : CircuitCoordinator → Type 0
  IsHeld c = lookup id c.attempts ≡ some a

  expire_probe_keeps :
      (now : ℕ) (e : ExpiryEntry) (b : CircuitAttempt) (p : Option ProbeIdentity)
      (c : CircuitCoordinator)
      → a.terminal ≡ true
      → lookup e.id c.attempts ≡ some b
      → IsHeld c
      → IsHeld (expire_probe now e b p c)
  unfolding expire_probe finish retain
  expire_probe_keeps now e b none c t q k = k
  expire_probe_keeps now e b (some p) c t q k =
      if_keeps IsHeld (b.terminal || not (p.expires_at == e.at) || ltb now p.expires_at) (λ _. k)
        (λ h.
          let f = (finish b failure p.expires_at c).1 in
          let boundary = circuit_retention_boundary now (b.acquired_at ∷ p.expires_at ∷ []) in
          let other : (e.id == id) ≡ false = another now e b p c h t q k in
          lookup-insert e.id id (record f { terminal = true; retain_until = boundary }) c.attempts
          ∙ rw other k)
    where
      another :
          (now : ℕ) (e : ExpiryEntry) (b : CircuitAttempt) (p : ProbeIdentity)
          (c : CircuitCoordinator)
          → (b.terminal || not (p.expires_at == e.at) || ltb now p.expires_at) ≡ false
          → a.terminal ≡ true
          → lookup e.id c.attempts ≡ some b
          → lookup id c.attempts ≡ some a
          → (e.id == id) ≡ false
      another now e b p c h t q k = elim (Bool-cases (e.id == id)) [
        | inl r ↦
            let same : some b ≡ some a =
              sym q ∙ ap (λ (n : ℕ). lookup n c.attempts) ((==_iff e.id id).0 r) ∙ k in
            let over : b.terminal ≡ true =
              ap (λ (x : CircuitAttempt). x.terminal) (some-eq same) ∙ t in
            absurd (ground (arith, h, over))
        | inr r ↦ r
      ]

  expire_attempt_keeps :
      (now : ℕ) (e : ExpiryEntry) (o : Option CircuitAttempt) (c : CircuitCoordinator)
      → a.terminal ≡ true
      → lookup e.id c.attempts ≡ o
      → IsHeld c
      → IsHeld (expire_attempt now e o c)
  unfolding expire_attempt
  expire_attempt_keeps now e none c t q k = k
  expire_attempt_keeps now e (some b) c t q k = expire_probe_keeps now e b b.permit c t q k

  expire_entry_keeps :
      (now : ℕ) (e : ExpiryEntry) (kind : ExpiryKind) (c : CircuitCoordinator)
      → a.terminal ≡ true
      → IsHeld c
      → IsHeld (expire_entry now e kind c)
  unfolding expire_entry
  expire_entry_keeps now e circuit_permit c t k =
      expire_attempt_keeps now e (lookup e.id c.attempts) c t refl k
  expire_entry_keeps now e circuit_attempt c t k = k
  expire_entry_keeps now e admission_lease c t k = k
  expire_entry_keeps now e admission_receipt c t k = k

  expire_permits_keeps :
      (now : ℕ) (q : ExpiryQueue) (c : CircuitCoordinator)
      → a.terminal ≡ true
      → IsHeld c
      → IsHeld (expire_permits now q c)
  unfolding expire_permits
  expire_permits_keeps now [] c t k = k
  expire_permits_keeps now (e ∷ q) c t k =
      let rest =
        expire_permits_keeps now q (expire_entry now e e.kind c) t
          (expire_entry_keeps now e e.kind c t k) in
      if_keeps IsHeld (ltb now e.at) (λ _. k) (λ _. rest)

  expire_over_keeps :
      (now : ℕ) (e : ExpiryEntry) (c : CircuitCoordinator)
      → now < a.retain_until
      → IsHeld c
      → IsHeld (
          if is_over now e.at (lookup e.id c.attempts)
          then record c { attempts = delete e.id c.attempts }
          else c)
  expire_over_keeps now e c h k =
      if_keeps IsHeld (is_over now e.at (lookup e.id c.attempts))
        (λ o. lookup-delete e.id id c.attempts ∙ rw (another o) k) (λ _. k)
    where
      another : is_over now e.at (lookup e.id c.attempts) ≡ true → (e.id == id) ≡ false
      another o = elim (Bool-cases (e.id == id)) [
        | inl r ↦
            let same = ap (λ (n : ℕ). lookup n c.attempts) ((==_iff e.id id).0 r) ∙ k in
            let over : is_over now e.at (some a) ≡ true = ap (is_over now e.at) (sym same) ∙ o in
            absurd (ground (arith, h, over))
        | inr r ↦ r
      ]

  expire_terminal_keeps :
      (now : ℕ) (q : ExpiryQueue) (c : CircuitCoordinator)
      → now < a.retain_until
      → IsHeld c
      → IsHeld (expire_terminal now q c)
  unfolding expire_terminal
  expire_terminal_keeps now [] c h k = k
  expire_terminal_keeps now (e ∷ q) c h k =
      let d =
        if is_over now e.at (lookup e.id c.attempts)
        then record c { attempts = delete e.id c.attempts }
        else c in
      let rest = expire_terminal_keeps now q d h (expire_over_keeps now e c h k) in
      if_keeps IsHeld (ltb now e.at) (λ _. k) (λ _. rest)

  pub expire_keeps :
      (now : ℕ) (c : CircuitCoordinator)
      → a.terminal ≡ true
      → now < a.retain_until
      → IsHeld c
      → IsHeld (expire now c)
  unfolding expire
  expire_keeps now c t h k =
      let d = expire_permits now c.expiries c in
      expire_terminal_keeps now d.terminal_expiries d h (expire_permits_keeps now c.expiries c t k)

  pub snapshot_keeps :
      (backend at : ℕ) (c : CircuitCoordinator) → IsHeld c → IsHeld (snapshot backend at c).0
  unfolding snapshot
  snapshot_keeps backend at c k = entry (lookup backend c.circuits)
    where
      breaker : (e : CircuitEntry) (b : Option Breaker) → IsHeld (snapshot_breaker at e b c).0
      breaker e none = k
      breaker e (some b) = k

      entry : (e : Option CircuitEntry) → IsHeld (snapshot_entry backend at e c).0
      entry none = k
      entry (some e) = breaker e (get_elem? c.breakers e.breaker)
