-- ===== src/Lib.antt =====
-- Verification of the vLLM priority gateway, a proxy in front of pools of vLLM backends.
--
-- The parts and their files:
--   Domain: the enumerations and the configuration records of internal/domain/types.go.
--   CircuitBreaker: internal/circuitbreaker/breaker.go. `Breaker` is the struct; `acquire`,
--     `snapshot` and `complete` are `Acquire`, `Snapshot` and the body of a completion closure.
--     CircuitBreaker/System adds the closures that are out, each of which runs once, and the calls
--     in any order.
--   Pressure: internal/pressure/state.go, the hysteresis of a pool's state (`observe`);
--     Pressure/Score is pressure.go and ewma.go (`calculate`, `add_sample`).
--   Admission: internal/admission/policy.go (`effective_limit`) and limiter.go (`acquire`,
--     `release`).
--   Routing: internal/routing/router.go (`select`, `select_with_session_affinity`).
--   Coordination/Types: internal/coordination/types.go.
--   Coordination/Emergency: internal/coordination/emergency.go (`acquire`, `give_back`,
--     `can_serve`).
--   Coordination/Recovery: internal/coordination/recovery.go (`recover`, `mark_degraded`,
--     `mark_permanent`, `coordination_failure`).
--   Coordination/Local: internal/coordination/local/admission.go with expiry_queue.go and
--     internal/coordination/rate.go. Ledger holds leases, receipts and counts with expiry and
--     eviction; Rates the token buckets; Decisions what a call does to the ledger; Admission the
--     calls (`acquire`, `renew`, `complete`, `status`, `pool_inflight`).
--     Circuit is internal/coordination/local/circuit.go (`acquire`, `complete`, `snapshot_at`,
--     `status`) with Attempts, what it keeps, Reconciliation (`reconcile`) and Probes
--     (`renew_probes`); it runs the breakers of CircuitBreaker. Capacity, Bounded and Calls count
--     the attempts that a call leaves; Links, Kept, Completions and Linking follow whose breaker an
--     attempt goes to; History is the calls in any order; Retention and Repeated are about the same
--     completion sent again.
--   Registry: internal/registry/registry.go, the published configuration (`index_data`, `reload`,
--     `mark_key_revoked`, `mark_key_used`, `mark_backend_deleted`); Registry/RevisionGuard is
--     revision_guard.go.
--   Proxy/JsonValidator: internal/proxy/json_validator.go, the machine that takes a JSON text byte by
--     byte (`step_byte`, `eof`). Grammar is RFC 8259 over bytes as relations with no machine in them
--     (whether strings are UTF-8 is asked neither there nor by the code), Language what each state
--     still takes in words of the grammar; Ends, Begins, Numbers, Strings, Literals, Arrays and
--     Objects compare the two one byte at a time, and Steps puts them together. Run, Acceptance,
--     Viable and Depth are about whole texts.
--   Proxy/UsageInspector: internal/proxy/usage.go, which looks for the token counts in a response
--     (`new_usage_inspector`, `write`, `result`), with Proxy/InspectorState, its state,
--     Proxy/KeySearch, the search for the key `usage`, Proxy/EventLines, the lines of an event, and
--     Proxy/TokenUsage, the counts in a decoded value. It runs the validator on a JSON response.
--     Counts, Minor, Steps and Writes say what each step keeps, Streaming and Results what callers
--     see.
--   Base: arithmetic tests, lists, maps, integers and the interface for `float64`.
--   Examples: runs on concrete inputs.
--
-- How they interact: a request is admitted by the coordinator under limits that `effective_limit`
-- computes from the pool's pressure state, is sent to a backend that the router selects, and its
-- outcome goes to the circuit breaker of that backend. During an outage of the durable
-- coordinator, emergency admission stands in until recovery succeeds. While the response passes to
-- the client, the usage inspector takes the token counts from it. The registry publishes the clients,
-- keys, pools and backends that all of these read.
--
-- Conventions: a method that runs under a mutex takes the state and returns the new one, with the
-- instant that the clock gives as an argument. Instants are naturals, nanoseconds since the zero
-- time; a `uint64` counter wraps at 2^64; a Go `int` that may be negative is an integer. Maps from
-- ids to counts are functions that read 0 on a missing key. SHA-256, the fingerprint of a request,
-- the random source and encoding/json are parameters. Floating point is an interface without laws;
-- what a theorem needs of it is a hypothesis.
--
-- Fuel: only the eviction loops of `makeReceiptRoom` and `makeAttemptRoom` run on fuel. Each round
-- takes an entry at least off the queue of what is terminal; they are given one round for each entry
-- and one more.
--
-- Not modelled: the PostgreSQL coordinators and stores, the HTTP surface, the web interface, the
-- forwarding of requests, monitoring, metrics, analytics, configuration loading, the commands and
-- the load generator, which are I/O or glue around the parts above; the lease manager, which renews
-- leases from goroutines and timers; the tokenization coordinator, whose permits are kept over the
-- same expiry queue as the leases; and the checks of requests, of the configuration's values and of
-- the session header, which decide on one value at a time and keep no state.
pub mod Base
pub mod Domain
pub mod CircuitBreaker
pub mod Pressure
pub mod Admission
pub mod Routing
pub mod Registry
pub mod Proxy
pub mod Coordination
pub mod Examples
