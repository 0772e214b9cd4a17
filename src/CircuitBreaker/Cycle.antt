-- ===== src/CircuitBreaker/Cycle.antt =====
-- The way round the states: open until the cooldown is over, then probing, then closed or open
-- (internal/circuitbreaker/breaker.go).
use vllm_priority_gateway.Base.{
  ℕ, ◌+◌, ◌≤◌, ◌<◌, ◌≡◌, true, false, ◌&&◌, [], none, some, arith, ltb, is_none, not,
}
use vllm_priority_gateway.Domain.{
  closed, opened, half_open, InferenceOutcome, success, failure, neutral,
}
use vllm_priority_gateway.CircuitBreaker.{
  Breaker, Completion, next_generation, acquire, acquire_in, snapshot, complete,
}

acquire_in_available :
    (now : ℕ) (t : Breaker)
    → not (is_none (acquire_in t.state now t).1) ≡ (elim t.state [
      | closed ↦ true
      | opened ↦ false
      | half_open ↦
          (not t.half_open_succeeded && ltb t.probes_in_flight t.options.half_open_max_probes)
    ])
unfolding acquire_in
acquire_in_available now t = ground arith

-- `Snapshot` says available exactly when `Acquire` at the same instant lets the request through.
pub snapshot-acquire :
    (now : ℕ) (b : Breaker) → (snapshot now b).1.available ≡ not (is_none (acquire now b).1)
unfolding snapshot acquire
snapshot-acquire now b = ground arith

-- An open circuit lets nothing through and does not change until its cooldown is over, whatever
-- completions come in meanwhile.
pub open_blocks :
    (b : Breaker) (now : ℕ) (c : Completion) (outcome : InferenceOutcome) (at : ℕ)
    → b.state ≡ opened
    → now < b.opened_at + b.options.open_cooldown
    → (acquire now b ≡ (b, none)) × ((snapshot now b).0 ≡ b) × (complete c outcome at b ≡ b)
unfolding acquire snapshot complete
open_blocks b now c outcome at s h = ground arith

-- With at least one probe allowed, after the cooldown the first `Acquire` hands out a probe of a new generation. If that probe
-- succeeds the circuit is closed with its failures forgotten; if it fails the circuit is open
-- again; if it is neutral the circuit goes on probing with its slot free.
pub probe_decides :
    (b : Breaker) (now at : ℕ)
    → b.state ≡ opened
    → b.opened_at + b.options.open_cooldown ≤ now
    → 0 < b.options.half_open_max_probes
    → let g = next_generation b.generation in
      let probing = (acquire now b).0 in
      let probe : Completion = record { generation = g; probe = true } in
      ((acquire now b).1 ≡ some probe)
      × ((complete probe success at probing).state ≡ closed)
      × ((complete probe success at probing).failures ≡ [])
      × ((complete probe failure at probing).state ≡ opened)
      × ((complete probe neutral at probing).state ≡ half_open)
      × ((complete probe neutral at probing).probes_in_flight ≡ 0)
unfolding acquire complete
probe_decides b now at s h p = ground arith
