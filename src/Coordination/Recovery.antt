-- ===== src/Coordination/Recovery.antt =====
-- internal/coordination/recovery.go: the recovery of a replica after the durable coordinator was
-- out. Failures that other goroutines report while a recovery step runs come as a list with that
-- step; an error is its text, by a number, with whether it wraps a `PermanentError`.
pub mod History
use vllm_priority_gateway.Base.{
  ℕ, ◌+◌, ◌%◌, Bool, true, false, Option, none, some, List, [], ◌∷◌, ◌==◌, if◌then◌else◌,
}

pub data RecoveryState : Type 0 where
  ready degraded permanent_fault : RecoveryState

pub record Failure : Type 0 where
  pub text : ℕ
  pub permanent : Bool

pub record RecoveryStatus : Type 0 where
  pub state : RecoveryState
  pub last_error : Option Failure
  pub last_success : ℕ

pub record RecoveryManager : Type 0 where
  pub status : RecoveryStatus
  pub failures : ℕ  -- uint64

unfoldable pub new_recovery_manager : RecoveryManager
new_recovery_manager = record {
  status = record { state = ready; last_error = none; last_success = 0 };
  failures = 0;
}

abbrev pub next_failures : ℕ → ℕ
next_failures n = (n + 1) % 18446744073709551616

abbrev fault : RecoveryState → Failure → RecoveryManager → RecoveryManager
fault s e m = record m {
  status = record { state = s; last_error = some e; last_success = m.status.last_success };
  failures = next_failures m.failures;
}

unfoldable pub mark_degraded : Failure → RecoveryManager → RecoveryManager
mark_degraded e m = elim m.status.state [ permanent_fault ↦ m | _ ↦ fault degraded e m ]

unfoldable pub mark_permanent : Failure → RecoveryManager → RecoveryManager
mark_permanent e m = fault permanent_fault e m

unfoldable pub coordination_failure : Failure → RecoveryManager → RecoveryManager
unfolding mark_degraded mark_permanent
coordination_failure e m = if e.permanent then mark_permanent e m else mark_degraded e m

-- One of the six steps: absent (`nil`), or run, with the failures that came in while it ran and the
-- error that it returned.
pub data StepRun : Type 0 where
  absent : StepRun
  ran : List Failure → Option Failure → StepRun

unfoldable pub report : List Failure → RecoveryManager → RecoveryManager
report [] m = m
report (e ∷ es) m = report es (coordination_failure e m)

-- The loop over the steps: the manager after it, and the error that stopped it.
unfoldable pub run_steps : List StepRun → RecoveryManager → RecoveryManager × Option Failure
run_steps [] m = (m, none)
run_steps (absent ∷ steps) m = run_steps steps m
run_steps (ran during none ∷ steps) m = run_steps steps (report during m)
run_steps (ran during (some e) ∷ steps) m = (coordination_failure e (report during m), some e)

-- What `Recover` returns: nil, the permanent fault with the last error, or an error.
pub data Outcome : Type 0 where
  recovered : Outcome
  permanent_error : Option Failure → Outcome
  failed : Option Failure → Outcome

-- The end of `Recover`, under the lock; `starting` was read before the steps.
abbrev finish : ℕ → ℕ → RecoveryManager → RecoveryManager × Outcome
finish now starting m =
    if m.failures == starting
    then (
      record m { status = record { state = ready; last_error = none; last_success = now } },
      recovered,
    )
    else (
      m,
      elim m.status.state [
        | permanent_fault ↦ permanent_error m.status.last_error
        | _ ↦ failed m.status.last_error
      ],
    )

abbrev after_steps : ℕ → ℕ → RecoveryManager × Option Failure → RecoveryManager × Outcome
after_steps now starting (m, some e) = (m, failed (some e))
after_steps now starting (m, none) = finish now starting m

unfoldable pub recover : ℕ → List StepRun → RecoveryManager → RecoveryManager × Outcome
recover now steps m = elim m.status.state [
  | permanent_fault ↦ (m, permanent_error m.status.last_error)
  | _ ↦ after_steps now m.failures (run_steps steps m)
]
