-- ===== src/CircuitBreaker.antt =====
-- internal/circuitbreaker/breaker.go: the circuit breaker of one backend. A method that runs under
-- the mutex takes the breaker and returns the new one. Instants are numbers of nanoseconds since
-- the zero time; `now - window` stops at the zero time, which no failure precedes.
pub mod Invariant
pub mod Window
pub mod Cycle
pub mod System
use vllm_priority_gateway.Base.{
  ℕ, ◌+◌, ◌-◌, ◌%◌, Bool, true, false, ◌&&◌, ◌||◌, not, Option, none, some, List, [], ◌∷◌, ◌++◌,
  ltb, leb, ◌==◌, if◌then◌else◌, length, keep, ℤ, pos, pos_part, leb_ℤ,
}
use vllm_priority_gateway.Domain.{
  CircuitState, closed, opened, half_open, InferenceOutcome, success, failure, neutral,
}

-- `Options` as the caller writes it, unchecked.
pub record Settings : Type 0 where
  pub failure_threshold : ℤ
  pub failure_window : ℤ
  pub open_cooldown : ℤ
  pub half_open_max_probes : ℤ

-- `Options` as the breaker keeps it, once `New` has refused what is not positive.
pub record Options : Type 0 where
  pub failure_threshold : ℕ
  pub failure_window : ℕ
  pub open_cooldown : ℕ
  pub half_open_max_probes : ℕ

pub record Breaker : Type 0 where
  pub options : Options
  pub state : CircuitState
  pub generation : ℕ  -- uint64
  pub failures : List ℕ
  pub opened_at : ℕ
  pub probes_in_flight : ℕ
  pub half_open_succeeded : Bool

pub data NewError : Type 0 where
  threshold_not_positive window_not_positive cooldown_not_positive probes_not_positive : NewError

pub data NewResult : Type 0 where
  created : Breaker → NewResult
  refused : NewError → NewResult

unfoldable pub fresh : Options → Breaker
fresh o = record {
  options = o;
  state = closed;
  generation = 0;
  failures = [];
  opened_at = 0;
  probes_in_flight = 0;
  half_open_succeeded = false;
}

unfoldable pub new : Settings → NewResult
unfolding fresh
new s =
    if leb_ℤ s.failure_threshold (pos 0)
    then refused threshold_not_positive
    else if leb_ℤ s.failure_window (pos 0)
    then refused window_not_positive
    else if leb_ℤ s.open_cooldown (pos 0)
    then refused cooldown_not_positive
    else if leb_ℤ s.half_open_max_probes (pos 0)
    then refused probes_not_positive
    else created (
        fresh (record {
          failure_threshold = pos_part s.failure_threshold;
          failure_window = pos_part s.failure_window;
          open_cooldown = pos_part s.open_cooldown;
          half_open_max_probes = pos_part s.half_open_max_probes;
        }))

-- `generation++` on a uint64.
abbrev pub next_generation : ℕ → ℕ
next_generation g = (g + 1) % 18446744073709551616

unfoldable pub prune_failures : ℕ → Breaker → Breaker
prune_failures now b = record b {
  failures = keep (leb (now - b.options.failure_window)) b.failures;
}

unfoldable pub transition_open_to_half_open : ℕ → Breaker → Breaker
transition_open_to_half_open now b = elim b.state [
  | opened ↦ if ltb now (b.opened_at + b.options.open_cooldown) then b else record b {
    state = half_open;
    generation = next_generation b.generation;
    opened_at = 0;
    probes_in_flight = 0;
    half_open_succeeded = false;
  }
  | _ ↦ b
]

unfoldable pub enter_open : ℕ → Breaker → Breaker
enter_open at b = record b {
  state = opened;
  generation = next_generation b.generation;
  opened_at = at;
  probes_in_flight = 0;
  half_open_succeeded = false;
}

unfoldable pub enter_closed : Breaker → Breaker
enter_closed b = record b {
  state = closed;
  generation = next_generation b.generation;
  failures = [];
  opened_at = 0;
  probes_in_flight = 0;
  half_open_succeeded = false;
}

-- The loop of `recordFailure`: the latest of the list, and of `latest`.
unfoldable pub latest_from : ℕ → List ℕ → ℕ
latest_from latest [] = latest
latest_from latest (f ∷ fs) = latest_from (if ltb latest f then f else latest) fs

-- `latest := failures[0]` and the loop over the rest; the list is never empty.
unfoldable pub latest_of : List ℕ → ℕ
unfolding latest_from
latest_of [] = 0
latest_of (f ∷ fs) = latest_from f fs

unfoldable pub record_failure : ℕ → Breaker → Breaker × ℕ
unfolding prune_failures
record_failure failed_at b =
    let fs = b.failures ++ failed_at ∷ [] in
    let latest = latest_of fs in (prune_failures latest (record b { failures = fs }), latest)

-- What a completion closure captures.
pub record Completion : Type 0 where
  pub generation : ℕ
  pub probe : Bool

abbrev completion : ℕ → Bool → Completion
completion g p = record { generation = g; probe = p }

unfoldable pub acquire_in : CircuitState → ℕ → Breaker → Breaker × Option Completion
unfolding prune_failures
acquire_in closed now b = (prune_failures now b, some (completion b.generation false))
acquire_in opened now b = (b, none)
acquire_in half_open now b =
    if b.half_open_succeeded || leb b.options.half_open_max_probes b.probes_in_flight
    then (b, none)
    else (
      record b { probes_in_flight = b.probes_in_flight + 1 },
      some (completion b.generation true),
    )

unfoldable pub acquire : ℕ → Breaker → Breaker × Option Completion
unfolding transition_open_to_half_open acquire_in
acquire now b = let t = transition_open_to_half_open now b in acquire_in t.state now t

-- `Snapshot`; `retry_at` is 0, the zero time, unless the circuit is open.
pub record Snapshot : Type 0 where
  pub generation : ℕ
  pub state : CircuitState
  pub failure_count : ℕ
  pub retry_at : ℕ
  pub probes_in_flight : ℕ
  pub available : Bool

abbrev snapshot_retry_at : Breaker → ℕ
snapshot_retry_at b = elim b.state [ opened ↦ b.opened_at + b.options.open_cooldown | _ ↦ 0 ]

abbrev snapshot_available : Breaker → Bool
snapshot_available b = elim b.state [
  | closed ↦ true
  | opened ↦ false
  | half_open ↦ not b.half_open_succeeded && ltb b.probes_in_flight b.options.half_open_max_probes
]

unfoldable pub prune_if_closed : ℕ → Breaker → Breaker
unfolding prune_failures
prune_if_closed now b = elim b.state [ closed ↦ prune_failures now b | _ ↦ b ]

unfoldable pub snapshot : ℕ → Breaker → Breaker × Snapshot
unfolding transition_open_to_half_open prune_if_closed
snapshot now b =
    let t = prune_if_closed now (transition_open_to_half_open now b) in
    (
      t,
      record {
        generation = t.generation;
        state = t.state;
        failure_count = length t.failures;
        retry_at = snapshot_retry_at t;
        probes_in_flight = t.probes_in_flight;
        available = snapshot_available t;
      },
    )

abbrev close_if_drained : Breaker → Breaker
unfolding enter_closed
close_if_drained b =
    if b.half_open_succeeded && (b.probes_in_flight == 0) then enter_closed b else b

unfoldable pub complete_probe : ℕ → InferenceOutcome → Breaker → Breaker
unfolding enter_open record_failure close_if_drained
complete_probe at outcome b = elim b.state [
  | half_open ↦
      let returned = record b {
        probes_in_flight =
            if ltb 0 b.probes_in_flight then b.probes_in_flight - 1 else b.probes_in_flight;
      } in
      elim outcome [
        | success ↦ close_if_drained (record returned { half_open_succeeded = true })
        | failure ↦
            let (recorded, opened_at) = record_failure at returned in enter_open opened_at recorded
        | neutral ↦ close_if_drained returned
      ]
  | _ ↦ b
]

abbrev complete_regular : ℕ → InferenceOutcome → Breaker → Breaker
unfolding enter_open record_failure
complete_regular at outcome b = elim b.state [
  | closed ↦ elim outcome [
    | failure ↦
        let (recorded, opened_at) = record_failure at b in
        if leb recorded.options.failure_threshold (length recorded.failures)
        then enter_open opened_at recorded
        else recorded
    | _ ↦ b
  ]
  | _ ↦ b
]

unfoldable pub complete : Completion → InferenceOutcome → ℕ → Breaker → Breaker
unfolding complete_probe complete_regular
complete c outcome at b =
    if c.generation == b.generation
    then (if c.probe then complete_probe at outcome b else complete_regular at outcome b)
    else b
