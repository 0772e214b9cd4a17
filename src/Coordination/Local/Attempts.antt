-- ===== src/Coordination/Local/Attempts.antt =====
-- internal/coordination/local/circuit.go, the part that keeps circuits and attempts. The breakers
-- stand in a store, since an entry and the closures of its attempts point to the same one; a pointer
-- is a place in the store.
use vllm_priority_gateway.Base.{
  ℕ, zero, suc, ◌+◌, Bool, true, false, ◌&&◌, ◌||◌, not, Option, none, some, List, [], ◌∷◌, ltb,
  leb, ◌==◌, if◌then◌else◌, length, get_elem?, set, ℤ,
}
use vllm_priority_gateway.Base.Maps.{Map, lookup, insert, delete}
use vllm_priority_gateway.Domain.{InferenceOutcome, failure, opened}
use vllm_priority_gateway.CircuitBreaker
use vllm_priority_gateway.CircuitBreaker.{Settings, Breaker, Completion, Snapshot}
use vllm_priority_gateway.Coordination.Types.{
  BackendIdentity, CircuitSnapshot, ProbeIdentity, CircuitCompletion,
}
use vllm_priority_gateway.Coordination.Local.ExpiryQueue.{
  ExpiryQueue, ExpiryEntry, ExpiryKind, circuit_permit, circuit_attempt, add,
}
use vllm_priority_gateway.Coordination.Local.Ledger.{receipt_retention}

pub record CircuitEntry : Type 0 where
  pub identity : BackendIdentity
  pub breaker : ℕ

-- The closure `complete` of an attempt: the breaker it belongs to, and whether it has run.
pub record Closure : Type 0 where
  pub breaker : ℕ
  pub body : Completion
  pub done : Bool

pub record CircuitAttempt : Type 0 where
  pub fingerprint : ℕ
  pub backend : BackendIdentity
  pub generation : ℕ
  pub permit : Option ProbeIdentity
  pub complete : Closure
  pub ttl : ℤ
  pub terminal : Bool
  pub completion : Option CircuitCompletion
  pub acquired_at : ℕ
  pub retain_until : ℕ

pub record CircuitCoordinator : Type 0 where
  pub options : Settings
  pub breakers : List Breaker
  pub circuits : Map CircuitEntry
  pub attempts : Map CircuitAttempt
  pub expiries : ExpiryQueue
  pub terminal_expiries : ExpiryQueue
  pub attempt_capacity : ℕ

abbrev pub same_bool : Bool → Bool → Bool
same_bool true b = b
same_bool false b = not b

abbrev pub same_backend : BackendIdentity → BackendIdentity → Bool
same_backend a b =
    a.id == b.id
    && a.revision == b.revision
    && same_bool a.enabled b.enabled
    && same_bool a.draining b.draining

-- `circuitRetentionBoundary`, of a first instant and others.
unfoldable pub latest : ℕ → List ℕ → ℕ
latest t [] = t
latest t (u ∷ us) = latest (if ltb t u then u else t) us

unfoldable pub circuit_retention_boundary : ℕ → List ℕ → ℕ
unfolding latest
circuit_retention_boundary t us = latest t us + receipt_retention

abbrev pub put_attempt : ℕ → CircuitAttempt → CircuitCoordinator → CircuitCoordinator
put_attempt id a c = record c { attempts = insert id a c.attempts }

-- An attempt becomes terminal, and is queued to be dropped at a boundary.
unfoldable pub retain : ℕ → CircuitAttempt → ℕ → CircuitCoordinator → CircuitCoordinator
retain id a boundary c = record c {
  attempts = insert id (record a { terminal = true; retain_until = boundary }) c.attempts;
  terminal_expiries = add circuit_attempt id boundary c.terminal_expiries;
}

abbrev complete_at : Option Breaker → Closure → InferenceOutcome → ℕ → List Breaker → List Breaker
complete_at none closure outcome at store = store
complete_at (some b) closure outcome at store =
    set store closure.breaker (CircuitBreaker.complete closure.body outcome at b)

-- The call of a closure; what it does to the breakers, once.
unfoldable pub run_closure : Closure → InferenceOutcome → ℕ → List Breaker → List Breaker
unfolding CircuitBreaker.complete
run_closure closure outcome at store =
    if closure.done
    then store
    else complete_at (get_elem? store closure.breaker) closure outcome at store

-- `attempt.complete(outcome, at)`
unfoldable pub finish :
    CircuitAttempt → InferenceOutcome → ℕ → CircuitCoordinator → CircuitCoordinator × CircuitAttempt
unfolding run_closure
finish a outcome at c = (
  record c { breakers = run_closure a.complete outcome at c.breakers },
  record a { complete = record a.complete { done = true } },
)

-- The case `circuitPermitExpiry`, for an entry that is due.
unfoldable pub expire_probe :
    ℕ
    → ExpiryEntry
    → CircuitAttempt
    → Option ProbeIdentity
    → CircuitCoordinator
    → CircuitCoordinator
unfolding finish retain circuit_retention_boundary
expire_probe now e a none c = c
expire_probe now e a (some p) c =
    let (c', a') = finish a failure p.expires_at c in
    if a.terminal || not (p.expires_at == e.at) || ltb now p.expires_at
    then c
    else retain e.id a' (circuit_retention_boundary now (a.acquired_at ∷ p.expires_at ∷ [])) c'

unfoldable pub expire_attempt :
    ℕ → ExpiryEntry → Option CircuitAttempt → CircuitCoordinator → CircuitCoordinator
unfolding expire_probe
expire_attempt now e none c = c
expire_attempt now e (some a) c = expire_probe now e a a.permit c

unfoldable pub expire_entry : ℕ → ExpiryEntry → ExpiryKind → CircuitCoordinator → CircuitCoordinator
unfolding expire_attempt
expire_entry now e circuit_permit c = expire_attempt now e (lookup e.id c.attempts) c
expire_entry now e kind c = c

-- The first loop of `expire`: every entry that is due is popped.
unfoldable pub expire_permits : ℕ → ExpiryQueue → CircuitCoordinator → CircuitCoordinator
unfolding expire_entry
expire_permits now [] c = record c { expiries = [] }
expire_permits now (e ∷ q) c =
    let rest = expire_permits now q (expire_entry now e e.kind c) in
    if ltb now e.at then record c { expiries = e ∷ q } else rest

abbrev pub is_over : ℕ → ℕ → Option CircuitAttempt → Bool
is_over now at none = false
is_over now at (some a) = a.terminal && a.retain_until == at && not (ltb now a.retain_until)

-- The second loop, over the terminal attempts.
unfoldable pub expire_terminal : ℕ → ExpiryQueue → CircuitCoordinator → CircuitCoordinator
expire_terminal now [] c = record c { terminal_expiries = [] }
expire_terminal now (e ∷ q) c =
    let rest = expire_terminal now q (
      if is_over now e.at (lookup e.id c.attempts)
      then record c { attempts = delete e.id c.attempts }
      else c) in
    if ltb now e.at then record c { terminal_expiries = e ∷ q } else rest

unfoldable pub expire : ℕ → CircuitCoordinator → CircuitCoordinator
unfolding expire_permits expire_terminal
expire now c =
    let c' = expire_permits now c.expiries c in expire_terminal now c'.terminal_expiries c'

-- An attempt of the backend that has gone, and whether it was still running.
abbrev pub loses : ℕ → CircuitAttempt → Bool
loses id a = a.backend.id == id && not a.terminal

unfoldable pub lose : ℕ → ℕ → CircuitAttempt → CircuitAttempt
unfolding circuit_retention_boundary
lose id now a =
    if loses id a
    then record a {
      terminal = true;
      retain_until = circuit_retention_boundary now (a.acquired_at ∷ []);
    }
    else a

-- The loop of `invalidate`, which writes to the attempts where they stand.
unfoldable pub invalidate_all :
    ℕ → ℕ → Map CircuitAttempt → ExpiryQueue → Map CircuitAttempt × ExpiryQueue
unfolding lose
invalidate_all id now [] q = ([], q)
invalidate_all id now ((attempt_id, a) ∷ rest) q =
    let lost = lose id now a in
    let queued = if loses id a then add circuit_attempt attempt_id lost.retain_until q else q in
    let later = invalidate_all id now rest queued in ((attempt_id, lost) ∷ later.0, later.1)

unfoldable pub invalidate : ℕ → ℕ → CircuitCoordinator → CircuitCoordinator
unfolding invalidate_all
invalidate id now c =
    let (m, q) = invalidate_all id now c.attempts c.terminal_expiries in
    record c { attempts = m; terminal_expiries = q }

abbrev pub is_terminal_head : Option CircuitAttempt → ℕ → Bool
is_terminal_head none at = false
is_terminal_head (some a) at = a.terminal && not (a.retain_until == 0) && a.retain_until == at

-- The queue that is left, and whether its head stands for a terminal attempt.
unfoldable pub drop_stale : Map CircuitAttempt → ExpiryQueue → ExpiryQueue × Bool
drop_stale attempts [] = ([], false)
drop_stale attempts (e ∷ q) =
    if is_terminal_head (lookup e.id attempts) e.at then (e ∷ q, true) else drop_stale attempts q

unfoldable pub has_terminal_attempt : CircuitCoordinator → CircuitCoordinator × Bool
unfolding drop_stale
has_terminal_attempt c =
    let (q, found) = drop_stale c.attempts c.terminal_expiries in
    (record c { terminal_expiries = q }, found)

abbrev pub evict_head : ExpiryQueue → CircuitCoordinator → CircuitCoordinator
evict_head [] c = c
evict_head (e ∷ q) c = record c { terminal_expiries = q; attempts = delete e.id c.attempts }

-- Each round pops an entry at least; `make_attempt_room` gives one round for each and one more.
unfoldable pub make_room_loop : ℕ → CircuitCoordinator → CircuitCoordinator × Bool
unfolding has_terminal_attempt
make_room_loop zero c = (c, false)
make_room_loop (suc fuel) c =
    let (c', found) = has_terminal_attempt c in
    let rest = make_room_loop fuel (evict_head c'.terminal_expiries c') in
    if leb c.attempt_capacity (length c.attempts)
    then (if found then rest else (c', false))
    else (c, true)

unfoldable pub make_attempt_room : CircuitCoordinator → CircuitCoordinator × Bool
unfolding make_room_loop
make_attempt_room c = make_room_loop (suc (length c.terminal_expiries)) c

unfoldable pub to_circuit_snapshot : BackendIdentity → Snapshot → CircuitSnapshot
to_circuit_snapshot backend s = record {
  backend = backend;
  state = s.state;
  generation = s.generation;
  failure_count = s.failure_count;
  retry_at = s.retry_at;
  probes_in_flight = s.probes_in_flight;
  available = s.available;
}

-- A backend without a circuit is answered as open.
abbrev pub no_circuit : ℕ → CircuitSnapshot
no_circuit id = record {
  backend = record { id = id; revision = 0; enabled = false; draining = false };
  state = opened;
  generation = 0;
  failure_count = 0;
  retry_at = 0;
  probes_in_flight = 0;
  available = false;
}

abbrev pub snapshot_breaker :
    ℕ → CircuitEntry → Option Breaker → CircuitCoordinator → CircuitCoordinator × CircuitSnapshot
snapshot_breaker at entry none c = (c, no_circuit entry.identity.id)
snapshot_breaker at entry (some b) c =
    let (b', s) = CircuitBreaker.snapshot at b in
    (record c { breakers = set c.breakers entry.breaker b' }, to_circuit_snapshot entry.identity s)

abbrev pub snapshot_entry :
    ℕ → ℕ → Option CircuitEntry → CircuitCoordinator → CircuitCoordinator × CircuitSnapshot
snapshot_entry id at none c = (c, no_circuit id)
snapshot_entry id at (some entry) c =
    snapshot_breaker at entry (get_elem? c.breakers entry.breaker) c

-- `snapshot`, under the lock; asking a breaker moves it on.
unfoldable pub snapshot : ℕ → ℕ → CircuitCoordinator → CircuitCoordinator × CircuitSnapshot
unfolding CircuitBreaker.snapshot to_circuit_snapshot
snapshot id at c = snapshot_entry id at (lookup id c.circuits) c
