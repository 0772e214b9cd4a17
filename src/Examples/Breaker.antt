-- ===== src/Examples/Breaker.antt =====
-- A circuit breaker with a threshold of two failures within 10 and a cooldown of 5
-- (internal/circuitbreaker/breaker.go).
use vllm_priority_gateway.Base.{
  ℕ, ◌≤◌, ◌<◌, ◌≡◌, ◌⊎◌, refl, true, false, List, [], ◌∷◌, none, some, not, is_none, arith,
}
use vllm_priority_gateway.Domain.{closed, opened, half_open, success, failure, neutral}
use vllm_priority_gateway.CircuitBreaker.{
  Options, Breaker, Completion, fresh, next_generation, acquire, snapshot, complete, latest_of,
}
use vllm_priority_gateway.CircuitBreaker.Invariant.{IsValid}
use vllm_priority_gateway.CircuitBreaker.Window.{IsMaximum, within, complete_opens}
use vllm_priority_gateway.CircuitBreaker.Cycle.{snapshot-acquire, open_blocks, probe_decides}
use vllm_priority_gateway.CircuitBreaker.System.{
  Event, acquires, completes, step, run, start, pending_probes, run-start_accounts,
}

abbrev options : Options
options = record {
  failure_threshold = 2;
  failure_window = 10;
  open_cooldown = 5;
  half_open_max_probes = 1;
}

abbrev regular : Completion
regular = record { generation = 0; probe = false }

-- Once failed at 100.
abbrev strained : Breaker
strained = record {
  options = options;
  state = closed;
  generation = 0;
  failures = 100 ∷ [];
  opened_at = 0;
  probes_in_flight = 0;
  half_open_succeeded = false;
}

abbrev broken : Breaker
broken = record {
  options = options;
  state = opened;
  generation = 1;
  failures = 100 ∷ 103 ∷ [];
  opened_at = 103;
  probes_in_flight = 0;
  half_open_succeeded = false;
}

-- Two failures open the circuit, a probe is let through and succeeds, its slot stays out meanwhile.
abbrev history : List Event
history =
    acquires 100
    ∷ acquires 101
    ∷ completes 0 failure 102
    ∷ completes 1 failure 103
    ∷ acquires 104
    ∷ acquires 108
    ∷ acquires 109
    ∷ []

history_probing : (run (start options) history).breaker.state ≡ half_open
unfolding run step start fresh acquire complete latest_of
history_probing = refl

history_pending : pending_probes (run (start options) history) ≡ 1
unfolding run step start fresh acquire complete latest_of
history_pending = refl

run-start_accounts_example :
    IsValid (run (start options) history).breaker
    × ((run (start options) history).breaker.probes_in_flight
        ≡ pending_probes (run (start options) history))
run-start_accounts_example =
    run-start_accounts options history (omega arith) (omega arith) (omega arith) (omega arith)
      (omega arith)

complete_opens_example :
    (m : ℕ) × IsMaximum m (100 ∷ 103 ∷ [])
    × (((2 ≤ within 10 m (100 ∷ 103 ∷ []))
          × ((complete regular failure 103 strained).state ≡ opened)
          × ((complete regular failure 103 strained).opened_at ≡ m))
        ⊎ ((within 10 m (100 ∷ 103 ∷ []) < 2)
            × ((complete regular failure 103 strained).state ≡ closed)))
complete_opens_example = complete_opens strained regular 103 refl refl refl

complete_opened : complete regular failure 103 strained ≡ broken
unfolding complete latest_of
complete_opened = refl

snapshot-acquire_example : (snapshot 104 broken).1.available ≡ not (is_none (acquire 104 broken).1)
snapshot-acquire_example = snapshot-acquire 104 broken

open_blocks_example :
    (acquire 104 broken ≡ (broken, none))
    × ((snapshot 104 broken).0 ≡ broken)
    × (complete regular success 104 broken ≡ broken)
open_blocks_example = open_blocks broken 104 regular success 104 refl (omega arith)

abbrev probe : Completion
probe = record { generation = next_generation 1; probe = true }

probe_decides_example :
    let probing = (acquire 108 broken).0 in
    ((acquire 108 broken).1 ≡ some probe)
    × ((complete probe success 110 probing).state ≡ closed)
    × ((complete probe success 110 probing).failures ≡ [])
    × ((complete probe failure 110 probing).state ≡ opened)
    × ((complete probe neutral 110 probing).state ≡ half_open)
    × ((complete probe neutral 110 probing).probes_in_flight ≡ 0)
probe_decides_example = probe_decides broken 108 110 refl (omega arith) (omega arith)
