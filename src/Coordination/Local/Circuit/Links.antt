-- ===== src/Coordination/Local/Circuit/Links.antt =====
-- Whose breaker the outcome of an attempt goes to (internal/coordination/local/circuit.go).
use vllm_priority_gateway.Base.{
  ℕ, ◌≡◌, refl, sym, subst, ◌∙◌, true, false, some, [], ◌∷◌, ◌==◌, if◌then◌else◌, length, arith,
  if_keeps, Bool-cases, inl, inr, All, some-eq,
}
use vllm_priority_gateway.Base.Maps.{Map, lookup, insert, delete, lookup-insert, lookup-delete}
use vllm_priority_gateway.CircuitBreaker.{Breaker}
use vllm_priority_gateway.Coordination.Types.{BackendIdentity}
use vllm_priority_gateway.Coordination.Local.ExpiryQueue.{ExpiryQueue, circuit_attempt, add}
use vllm_priority_gateway.Coordination.Local.Attempts.{
  CircuitEntry, CircuitAttempt, CircuitCoordinator, retain, loses, lose, invalidate_all, invalidate,
  same_backend,
}
use vllm_priority_gateway.Coordination.Local.Reconciliation.{add_circuit, drop_circuit}

-- The outcome of an attempt that still runs goes to the breaker that its backend's circuit has now.
abbrev pub Goes : Map CircuitEntry → CircuitAttempt → Type 0
Goes circuits a =
    a.terminal ≡ false
    → (e : CircuitEntry) × (lookup a.backend.id circuits ≡ some e)
      × (same_backend e.identity a.backend ≡ true)
      × (a.complete.breaker ≡ e.breaker)

abbrev pub AllGo : Map CircuitEntry → Map CircuitAttempt → Type 0
AllGo circuits = All (λ (x : ℕ × CircuitAttempt). Goes circuits x.1)

unfoldable pub Linked : CircuitCoordinator → Type 0
Linked c = AllGo c.circuits c.attempts

pub insert-AllGo :
    (circuits : Map CircuitEntry) (id : ℕ) (a : CircuitAttempt) (m : Map CircuitAttempt)
    → Goes circuits a
    → AllGo circuits m
    → AllGo circuits (insert id a m)
unfolding insert
insert-AllGo circuits id a [] g h = (g, tt)
insert-AllGo circuits id a ((k, b) ∷ m) g h =
    let rest = insert-AllGo circuits id a m g h.1 in
    if_keeps (AllGo circuits) (k == id) (λ _. (g, h.1)) (λ _. (h.0, rest))

pub delete-AllGo :
    (circuits : Map CircuitEntry) (id : ℕ) (m : Map CircuitAttempt)
    → AllGo circuits m
    → AllGo circuits (delete id m)
unfolding delete
delete-AllGo circuits id [] h = tt
delete-AllGo circuits id ((k, b) ∷ m) h =
    let rest = delete-AllGo circuits id m h.1 in
    if_keeps (AllGo circuits) (k == id) (λ _. rest) (λ _. (h.0, rest))

pub lookup-Goes :
    (circuits : Map CircuitEntry) (id : ℕ) (a : CircuitAttempt) (m : Map CircuitAttempt)
    → lookup id m ≡ some a
    → AllGo circuits m
    → Goes circuits a
unfolding lookup
lookup-Goes circuits id a [] q h = cc
lookup-Goes circuits id a ((k, b) ∷ m) q h = elim (Bool-cases (k == id)) [
  | inl e ↦ let r : some b ≡ some a = sym (rw e refl) ∙ q in subst (Goes circuits) (some-eq r) h.0
  | inr e ↦ lookup-Goes circuits id a m (sym (rw e refl) ∙ q) h.1
]

pub over-Goes :
    (circuits : Map CircuitEntry) (a : CircuitAttempt) → a.terminal ≡ true → Goes circuits a
over-Goes circuits a t k = let q : true ≡ false = sym t ∙ k in cc

pub retain-Linked :
    (id boundary : ℕ) (a : CircuitAttempt) (c : CircuitCoordinator)
    → Linked c
    → Linked (retain id a boundary c)
unfolding Linked retain
retain-Linked id boundary a c h =
    let at = record a { terminal = true; retain_until = boundary } in
    insert-AllGo c.circuits id at c.attempts (over-Goes c.circuits at refl) h

-- The circuit of a backend changes, and no attempt of it still runs.
lose-Goes :
    (id now : ℕ) (a : CircuitAttempt) (before after : Map CircuitEntry)
    → ((j : ℕ) → (id == j) ≡ false → lookup j after ≡ lookup j before)
    → Goes before a
    → Goes after (lose id now a)
unfolding lose
lose-Goes id now a before after same g =
    if_keeps (Goes after) (loses id a) (λ _ k. absurd cc)
      (λ l k. let (e, q, i, b) = g k in (e, same a.backend.id (other l k) ∙ q, i, b))
  where
    other : loses id a ≡ false → a.terminal ≡ false → (id == a.backend.id) ≡ false
    other l k = ground arith

invalidate_all-AllGo :
    (id now : ℕ) (m : Map CircuitAttempt) (q : ExpiryQueue) (before after : Map CircuitEntry)
    → ((j : ℕ) → (id == j) ≡ false → lookup j after ≡ lookup j before)
    → AllGo before m
    → AllGo after (invalidate_all id now m q).0
unfolding invalidate_all
invalidate_all-AllGo id now [] q before after same h = tt
invalidate_all-AllGo id now ((attempt_id, a) ∷ rest) q before after same h =
    let queued =
      if loses id a then add circuit_attempt attempt_id (lose id now a).retain_until q else q in
    (
      lose-Goes id now a before after same h.0,
      invalidate_all-AllGo id now rest queued before after same h.1,
    )

pub drop_circuit-Linked :
    (id now : ℕ) (c : CircuitCoordinator) → Linked c → Linked (drop_circuit id now c)
unfolding Linked drop_circuit invalidate
drop_circuit-Linked id now c h =
    invalidate_all-AllGo id now c.attempts c.terminal_expiries c.circuits (delete id c.circuits)
      (λ j k. lookup-delete id j c.circuits ∙ rw k refl) h

pub add_circuit-Linked :
    (now : ℕ) (value : BackendIdentity) (b : Breaker) (c : CircuitCoordinator)
    → Linked c
    → Linked (add_circuit now value b c)
unfolding Linked add_circuit invalidate
add_circuit-Linked now value b c h =
    let entry : CircuitEntry = record { identity = value; breaker = length c.breakers } in
    invalidate_all-AllGo value.id now c.attempts c.terminal_expiries c.circuits
      (insert value.id entry c.circuits)
      (λ j k. lookup-insert value.id j entry c.circuits ∙ rw k refl) h
