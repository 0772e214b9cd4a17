-- ===== src/Coordination/Local/Circuit.antt =====
-- internal/coordination/local/circuit.go: the calls of the local circuit coordinator. Each takes
-- `now`, what the clock says under the lock, and whether the caller's context has ended, in which
-- case nothing happens and the answer is `none`.
pub mod Capacity
pub mod Bounded
pub mod Calls
pub mod History
pub mod Links
pub mod Kept
pub mod Completions
pub mod Linking
pub mod Retention
pub mod Repeated
use vllm_priority_gateway.Coordination.Local.Probes.{probe_ttl}
use vllm_priority_gateway.Base.{
  ℕ, ◌+◌, ◌-◌, Bool, true, false, ◌&&◌, ◌||◌, not, Option, none, some, [], ◌∷◌, ltb, ◌==◌,
  if◌then◌else◌, length, get_elem?, set, ℤ, pos, pos_part, leb_ℤ, add_time,
}
use vllm_priority_gateway.Base.Maps.{lookup, insert}
use vllm_priority_gateway.Domain.{
  CircuitState, half_open, InferenceOutcome, success, failure, neutral,
}
use vllm_priority_gateway.CircuitBreaker
use vllm_priority_gateway.CircuitBreaker.{
  Settings, Breaker, Completion, NewResult, created, refused, new,
}
use vllm_priority_gateway.Coordination.Types.{
  CircuitSnapshot, ProbeIdentity, CircuitCompletion, CircuitAcquireRequest, CircuitDecision, Reason,
  idempotency_conflict, lease_lost, coordination_unavailable, stale_backend, stale_operation,
  circuit_open, probe_capacity_exhausted,
}
use vllm_priority_gateway.Coordination.Local.ExpiryQueue.{circuit_permit, add}
use vllm_priority_gateway.Coordination.Local.Ledger.{receipt_retention}
use vllm_priority_gateway.Coordination.Local.Decisions.{clock_skew}
use vllm_priority_gateway.Coordination.Local.Attempts.{
  CircuitEntry, Closure, CircuitAttempt, CircuitCoordinator, same_backend,
  circuit_retention_boundary, put_attempt, finish, retain, expire, has_terminal_attempt,
  make_attempt_room, snapshot, to_circuit_snapshot,
}

abbrev pub default_local_circuit_attempt_capacity : ℕ
default_local_circuit_attempt_capacity = 65536

abbrev pub coordinator_of : Settings → ℤ → NewResult → Option CircuitCoordinator
coordinator_of options capacity (refused e) = none
coordinator_of options capacity (created b) = some (record {
  options = options;
  breakers = [];
  circuits = [];
  attempts = [];
  expiries = [];
  terminal_expiries = [];
  attempt_capacity =
      if leb_ℤ capacity (pos 0) then default_local_circuit_attempt_capacity else pos_part capacity;
})

-- `none` where the options are refused.
unfoldable pub new_circuit_coordinator : Settings → ℤ → Option CircuitCoordinator
unfolding new
new_circuit_coordinator options capacity = coordinator_of options capacity (new options)

-- Whether the coordinator is available.
unfoldable pub status : ℕ → CircuitCoordinator → CircuitCoordinator × Bool
unfolding expire has_terminal_attempt
status now c =
    let c' = expire now c in
    let (c'', terminal) = has_terminal_attempt c' in
    if ltb (length c'.attempts) c'.attempt_capacity then (c', true) else (c'', terminal)

-- The call `Snapshot`.
unfoldable pub snapshot_at : ℕ → ℕ → CircuitCoordinator → CircuitCoordinator × CircuitSnapshot
unfolding expire snapshot
snapshot_at id at c = snapshot id at (expire at c)

abbrev pub decision :
    Option CircuitSnapshot → Option ProbeIdentity → Option Reason → CircuitDecision
decision s p r = record { snapshot = s; permit = p; reason = r }

unfoldable pub with_snapshot :
    ℕ
    → ℕ
    → Option ProbeIdentity
    → Option Reason
    → CircuitCoordinator
    → CircuitCoordinator × CircuitDecision
unfolding snapshot
with_snapshot id now permit reason c =
    let (c', s) = snapshot id now c in (c', decision (some s) permit reason)

-- The answer to an attempt that is known.
unfoldable pub replay :
    ℕ
    → ℕ
    → CircuitAcquireRequest
    → CircuitAttempt
    → CircuitCoordinator
    → CircuitCoordinator × CircuitDecision
unfolding with_snapshot
replay now fp req old c =
    if not (old.fingerprint == fp)
    then (c, decision none none (some idempotency_conflict))
    else if old.terminal
    then with_snapshot req.backend.id now none (some lease_lost) c
    else with_snapshot req.backend.id now old.permit none c

abbrev pub is_half_open : CircuitState → Bool
is_half_open half_open = true
is_half_open s = false

abbrev pub probe_of : ℕ → CircuitAcquireRequest → ℕ → ProbeIdentity
probe_of now req generation = record {
  permit_id = req.attempt_id;
  backend = req.backend;
  generation = generation;
  replica_id = req.replica_id;
  expires_at = add_time now req.probe_ttl;
  ttl = req.probe_ttl;
}

abbrev pub new_attempt : ℕ → CircuitAcquireRequest → ℕ → Closure → CircuitAttempt
new_attempt fp req generation closure = record {
  fingerprint = fp;
  backend = req.backend;
  generation = generation;
  permit = none;
  complete = closure;
  ttl = pos 0;
  terminal = false;
  completion = none;
  acquired_at = req.acquisition_started_at;
  retain_until = 0;
}

-- The attempt that a breaker has let through.
unfoldable pub admit :
    ℕ
    → ℕ
    → CircuitAcquireRequest
    → CircuitSnapshot
    → Closure
    → CircuitCoordinator
    → CircuitCoordinator × CircuitDecision
admit now fp req s closure c =
    let a = new_attempt fp req s.generation closure in
    let p = probe_of now req s.generation in
    if is_half_open s.state
    then (
      record c {
        attempts =
            insert req.attempt_id (record a { permit = some p; ttl = req.probe_ttl }) c.attempts;
        expiries = add circuit_permit req.attempt_id p.expires_at c.expiries;
      },
      decision (some s) (some p) none,
    )
    else (put_attempt req.attempt_id a c, decision (some s) none none)

unfoldable pub acquired :
    ℕ
    → ℕ
    → CircuitAcquireRequest
    → ℕ
    → CircuitSnapshot
    → Option Completion
    → CircuitCoordinator
    → CircuitCoordinator × CircuitDecision
unfolding admit
acquired now fp req breaker s none c = (
  c,
  decision (some s) none
      (some (if is_half_open s.state then probe_capacity_exhausted else circuit_open)),
)
acquired now fp req breaker s (some body) c =
    admit now fp req s (record { breaker = breaker; body = body; done = false }) c

unfoldable pub acquire_breaker :
    ℕ
    → ℕ
    → CircuitAcquireRequest
    → CircuitEntry
    → Option Breaker
    → CircuitCoordinator
    → CircuitCoordinator × CircuitDecision
unfolding acquired to_circuit_snapshot CircuitBreaker.acquire CircuitBreaker.snapshot
acquire_breaker now fp req entry none c = (c, decision none none (some stale_backend))
acquire_breaker now fp req entry (some b) c =
    let (b', completion) = CircuitBreaker.acquire now b in
    let (b'', s) = CircuitBreaker.snapshot now b' in
    acquired now fp req entry.breaker (to_circuit_snapshot entry.identity s) completion
      (record c { breakers = set c.breakers entry.breaker b'' })

abbrev pub is_stale_instant : ℕ → ℕ → Bool
is_stale_instant now t = ltb (now + clock_skew) t || not (ltb now (t + receipt_retention))

-- A new attempt, once there is room for it.
unfoldable pub acquire_entry :
    ℕ
    → ℕ
    → CircuitAcquireRequest
    → Option CircuitEntry
    → CircuitCoordinator
    → CircuitCoordinator × CircuitDecision
unfolding acquire_breaker
acquire_entry now fp req none c = (c, decision none none (some stale_backend))
acquire_entry now fp req (some entry) c =
    if not (same_backend entry.identity req.backend)
      || not req.backend.enabled
      || req.backend.draining
    then (c, decision none none (some stale_backend))
    else if is_stale_instant now req.acquisition_started_at
    then (c, decision none none (some stale_operation))
    else acquire_breaker now fp req entry (get_elem? c.breakers entry.breaker) c

unfoldable pub acquire_known :
    ℕ
    → ℕ
    → CircuitAcquireRequest
    → Option CircuitAttempt
    → CircuitCoordinator
    → CircuitCoordinator × CircuitDecision
unfolding replay make_attempt_room acquire_entry with_snapshot
acquire_known now fp req (some old) c = replay now fp req old c
acquire_known now fp req none c =
    let (c', room) = make_attempt_room c in
    if not room
    then with_snapshot req.backend.id now none (some coordination_unavailable) c'
    else acquire_entry now fp req (lookup req.backend.id c'.circuits) c'

unfoldable pub acquire :
    (CircuitAcquireRequest → ℕ)
    → Bool
    → ℕ
    → CircuitAcquireRequest
    → CircuitCoordinator
    → CircuitCoordinator × Option CircuitDecision
unfolding acquire_known expire
acquire fingerprint ended now req c =
    let c' = expire now c in
    let (c'', d) = acquire_known now (fingerprint req) req (lookup req.attempt_id c'.attempts) c' in
    if ended then (c, none) else (c'', some d)

abbrev pub outcome_code : InferenceOutcome → ℕ
outcome_code success = 0
outcome_code failure = 1
outcome_code neutral = 2

abbrev pub same_completion : CircuitCompletion → CircuitCompletion → Bool
same_completion a b =
    a.attempt_id == b.attempt_id
    && same_backend a.backend b.backend
    && a.generation == b.generation
    && outcome_code a.outcome == outcome_code b.outcome
    && a.reported_outcome_at == b.reported_outcome_at

-- The snapshot that `Complete` returns, with the reason of its error.
abbrev pub Completed : Type 0
Completed = CircuitCoordinator × (CircuitSnapshot × Option Reason)

unfoldable pub report : ℕ → ℕ → Option Reason → CircuitCoordinator → Completed
unfolding snapshot
report id now reason c = let (c', s) = snapshot id now c in (c', (s, reason))

-- A terminal attempt keeps its breaker as it is.
unfoldable pub finish_once :
    CircuitAttempt → CircuitCompletion → CircuitCoordinator → CircuitCoordinator × CircuitAttempt
unfolding finish
finish_once a value c =
    let finished = finish a value.outcome value.reported_outcome_at c in
    if not a.terminal then finished else (c, a)

unfoldable pub complete_attempt :
    ℕ → CircuitCompletion → CircuitAttempt → CircuitCoordinator → Completed
unfolding finish_once retain circuit_retention_boundary report
complete_attempt now value a c =
    let (c', a') = finish_once (record a { completion = some value }) value c in
    let boundary =
      circuit_retention_boundary now (a.acquired_at ∷ value.reported_outcome_at ∷ []) in
    if not (same_backend a.backend value.backend) || not (a.generation == value.generation)
    then report value.backend.id now (some idempotency_conflict) c
    else report value.backend.id now none (retain value.attempt_id a' boundary c')

unfoldable pub complete_open :
    ℕ → CircuitCompletion → Option CircuitAttempt → CircuitCoordinator → Completed
unfolding complete_attempt report
complete_open now value none c = report value.backend.id now none c
complete_open now value (some a) c = complete_attempt now value a c

-- The completion that the attempt had before, where it had one.
abbrev pub completion_of : Option CircuitAttempt → Option CircuitCompletion
completion_of none = none
completion_of (some a) = a.completion

unfoldable pub complete_after :
    ℕ
    → CircuitCompletion
    → Option CircuitCompletion
    → Option CircuitAttempt
    → CircuitCoordinator
    → Completed
unfolding complete_open report
complete_after now value (some earlier) a c =
    if not (same_completion earlier value)
    then report value.backend.id now (some idempotency_conflict) c
    else report value.backend.id now none c
complete_after now value none a c =
    if is_stale_instant now value.reported_outcome_at
    then report value.backend.id now (some stale_operation) c
    else complete_open now value a c

unfoldable pub complete :
    Bool
    → ℕ
    → CircuitCompletion
    → CircuitCoordinator
    → CircuitCoordinator × Option (CircuitSnapshot × Option Reason)
unfolding complete_after expire
complete ended now value c =
    let c' = expire now c in
    let known = lookup value.attempt_id c'.attempts in
    let (c'', r) = complete_after now value (completion_of known) known c' in
    if ended then (c, none) else (c'', some r)
