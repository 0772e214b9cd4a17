-- ===== src/Examples/Outage.antt =====
-- Admission during an outage, and the recovery from it (internal/coordination).
use vllm_priority_gateway.Base.{
  ◌≤◌, ◌≡◌, ◌≢◌, ◌↔◌, refl, true, false, not, is_none, List, [], ◌∷◌, none, some, arith, pos,
  count_if,
}
use vllm_priority_gateway.Domain.{PriorityClass}
use vllm_priority_gateway.Coordination.Emergency.{
  new_emergency_admission, can_serve, acquire, give_back, can_serve-acquire,
}
use vllm_priority_gateway.Coordination.Emergency.History.{
  Call, acquires, gives_back, step, run, start, of_class, of_client, run-start_bounds,
}
use vllm_priority_gateway.Coordination.Recovery.{
  RecoveryManager, Failure, StepRun, absent, ran, recovered, ready, degraded, permanent_fault,
  report, recover, run_steps, coordination_failure,
}
use vllm_priority_gateway.Coordination.Recovery.History.{Quiet, permanent_absorbs, recover_iff}

can_serve-acquire_example :
    can_serve (new_emergency_admission (pos 2) (pos 1)) PriorityClass.high 4 (pos 1)
    ≡ not
        (is_none (acquire (new_emergency_admission (pos 2) (pos 1)) PriorityClass.high 4 (pos 1)).1)
can_serve-acquire_example =
    can_serve-acquire (new_emergency_admission (pos 2) (pos 1)) PriorityClass.high 4 (pos 1)

-- Two critical requests and a high one get in, a second high one and a normal one do not.
abbrev calls : List Call
calls =
    acquires PriorityClass.critical 4 (pos 5)
    ∷ acquires PriorityClass.critical 4 (pos 5)
    ∷ acquires PriorityClass.high 4 (pos 5)
    ∷ acquires PriorityClass.high 6 (pos 5)
    ∷ acquires PriorityClass.normal 6 (pos 5)
    ∷ gives_back 0
    ∷ gives_back 0
    ∷ []

two_out : count_if (of_client 4) (run (start (pos 2) (pos 1)) calls).holds ≡ 2
unfolding run start step acquire give_back new_emergency_admission
two_out = refl

run-start_bounds_example :
    let s = run (start (pos 2) (pos 1)) calls in
    (count_if (of_class 0) s.holds ≤ 2)
    × (count_if (of_class 1) s.holds ≤ 1)
    × (count_if (of_class 2) s.holds ≡ 0)
    × (s.admission.by_client 4 ≡ count_if (of_client 4) s.holds)
run-start_bounds_example = run-start_bounds (pos 2) (pos 1) calls 2 4 (omega arith)

abbrev transient : Failure
transient = record { text = 1; permanent = false }

abbrev manager : RecoveryManager
manager = record {
  status = record { state = degraded; last_error = some transient; last_success = 0 };
  failures = 1;
}

-- Two of the steps are there, and nothing fails.
abbrev quiet_steps : List StepRun
quiet_steps = ran [] none ∷ absent ∷ ran [] none ∷ []

recover_iff_example :
    ((recover 9 quiet_steps manager).1 ≡ recovered ↔ Quiet quiet_steps)
    × (Quiet quiet_steps
        ↔ ((recover 9 quiet_steps manager).1 ≡ recovered)
          × ((recover 9 quiet_steps manager).0.status.state ≡ ready))
recover_iff_example = recover_iff 9 quiet_steps manager (λ e. cc) (omega arith) (omega arith)

-- A failure that comes in while the last step runs is not overwritten.
interrupted : (recover 9 (ran [] none ∷ ran (transient ∷ []) none ∷ []) manager).1 ≢ recovered
unfolding recover report run_steps coordination_failure
interrupted = λ e. cc

abbrev broken : RecoveryManager
broken = record {
  status = record {
    state = permanent_fault;
    last_error = some (record { text = 2; permanent = true });
    last_success = 0;
  };
  failures = 1;
}

permanent_absorbs_example :
    let later = report (transient ∷ []) broken in
    (later.status.state ≡ permanent_fault)
    × ((recover 9 quiet_steps later).0 ≡ later)
    × ((recover 9 quiet_steps later).1 ≢ recovered)
permanent_absorbs_example = permanent_absorbs 9 quiet_steps (transient ∷ []) broken refl
