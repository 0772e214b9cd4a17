-- ===== src/Coordination/Local/Reconciliation.antt =====
-- internal/coordination/local/circuit.go: `Reconcile`, which takes the backends that there are now.
use vllm_priority_gateway.Base.{
  ℕ, Bool, false, ◌||◌, not, Option, none, some, List, [], ◌∷◌, ◌++◌, ◌==◌, if◌then◌else◌, length,
  is_none,
}
use vllm_priority_gateway.Base.Maps.{Map, lookup, insert, delete}
use vllm_priority_gateway.CircuitBreaker.{Breaker, NewError, NewResult, created, refused, new}
use vllm_priority_gateway.Coordination.Types.{BackendIdentity}
use vllm_priority_gateway.Coordination.Local.Attempts.{
  CircuitEntry, CircuitCoordinator, same_backend, expire, invalidate,
}

pub data ReconcileError : Type 0 where
  context_ended : ReconcileError
  duplicate_backend : ℕ → ReconcileError
  bad_options : NewError → ReconcileError

abbrev pub contains : ℕ → List ℕ → Bool
contains id [] = false
contains id (x ∷ xs) = x == id || contains id xs

abbrev pub is_current : BackendIdentity → Option CircuitEntry → Bool
is_current value none = false
is_current value (some old) = same_backend old.identity value

unfoldable pub add_circuit : ℕ → BackendIdentity → Breaker → CircuitCoordinator → CircuitCoordinator
unfolding invalidate
add_circuit now value b c =
    let c' = invalidate value.id now c in
    record c' {
      breakers = c'.breakers ++ (b ∷ []);
      circuits =
          insert value.id (record { identity = value; breaker = length c'.breakers }) c'.circuits;
    }

abbrev pub with_new :
    ℕ
    → BackendIdentity
    → NewResult
    → CircuitCoordinator
    → CircuitCoordinator × Option ReconcileError
with_new now value (refused e) c = (c, some (bad_options e))
with_new now value (created b) c = (add_circuit now value b c, none)

unfoldable pub drop_circuit : ℕ → ℕ → CircuitCoordinator → CircuitCoordinator
unfolding invalidate
drop_circuit id now c = invalidate id now (record c { circuits = delete id c.circuits })

-- One backend of the list.
unfoldable pub reconcile_one :
    ℕ → BackendIdentity → CircuitCoordinator → CircuitCoordinator × Option ReconcileError
unfolding new invalidate
reconcile_one now value c =
    if not value.enabled || value.draining
    then (drop_circuit value.id now c, none)
    else if is_current value (lookup value.id c.circuits)
    then (c, none)
    else with_new now value (new c.options) c

-- The last loop, over the circuits that the map had.
unfoldable pub drop_unseen : ℕ → List ℕ → Map CircuitEntry → CircuitCoordinator → CircuitCoordinator
unfolding invalidate
drop_unseen now seen [] c = c
drop_unseen now seen ((id, entry) ∷ rest) c =
    drop_unseen now seen rest (if contains id seen then c else drop_circuit id now c)

unfoldable pub reconcile_all :
    ℕ
    → List ℕ
    → List BackendIdentity
    → CircuitCoordinator
    → CircuitCoordinator × Option ReconcileError
unfolding reconcile_one drop_unseen
reconcile_all now seen [] c = (drop_unseen now seen c.circuits c, none)
reconcile_all now seen (value ∷ values) c =
    let (c', e) = reconcile_one now value c in
    let rest = reconcile_all now (value.id ∷ seen) values c' in
    if contains value.id seen
    then (c, some (duplicate_backend value.id))
    else if is_none e
    then rest
    else (c', e)

unfoldable pub reconcile :
    Bool
    → ℕ
    → List BackendIdentity
    → CircuitCoordinator
    → CircuitCoordinator × Option ReconcileError
unfolding reconcile_all expire
reconcile ended now values c =
    if ended then (c, some context_ended) else reconcile_all now [] values (expire now c)
