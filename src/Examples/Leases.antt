-- ===== src/Examples/Leases.antt =====
-- A client with two leases (internal/coordination/local/admission.go).
use vllm_priority_gateway.Base.{
  ℕ, ◌<◌, ◌≡◌, refl, false, List, [], ◌∷◌, none, some, arith, pos, All, count_if, ◌==◌,
  if◌then◌else◌,
}
use vllm_priority_gateway.Base.Maps.{lookup, insert}
use vllm_priority_gateway.Domain.{PriorityClass}
use vllm_priority_gateway.Coordination.Types.{
  AdmissionRequest, LeaseIdentity, LeaseCompletion, released, already_completed,
  idempotency_conflict,
}
use vllm_priority_gateway.Coordination.Local.Ledger.{make_receipt_room, expire}
use vllm_priority_gateway.Coordination.Local.Ledger.Accounts.{Accounts, of_pool}
use vllm_priority_gateway.Coordination.Local.Admission.{
  AdmissionCoordinator, new_admission_coordinator, acquire, complete, pool_inflight,
}
use vllm_priority_gateway.Coordination.Local.Decisions.{granted, refusal, new_receipt, answer}
use vllm_priority_gateway.Coordination.Local.Admission.History.{
  Call, acquires, completes, step, run, run-new_Accounts,
}
use vllm_priority_gateway.Coordination.Local.Admission.Limits.{WithinLimits, acquire_limits}
use vllm_priority_gateway.Coordination.Local.Admission.Live.{pool_inflight_live}
use vllm_priority_gateway.Coordination.Local.Admission.Replay.{acquire_retry}
use vllm_priority_gateway.Coordination.Local.Admission.Completion.{complete_twice}
use vllm_priority_gateway.Coordination.Local.Ledger.Eviction.{Decided, make_receipt_room-Decided}
use vllm_priority_gateway.Examples.Floats.{float_ℕ}

abbrev request : ℕ → AdmissionRequest
request id = record {
  lease_id = id;
  operation_started_at = 1000;
  request_id = 5;
  replica_id = 6;
  configuration_revision = 1;
  api_key_id = 2;
  client_id = 3;
  pool_id = 4;
  client_policy_revision = pos 1;
  effective_client_limit = pos 2;
  configured_client_limit = pos 2;
  pool_gateway_inflight_limit = pos 8;
  pool_high_priority_reserve = pos 2;
  priority_class = PriorityClass.normal;
  requests_per_minute = pos 0;
  tokens_per_minute = pos 100;
  lease_ttl = pos 50;
}

abbrev lease : ℕ → LeaseIdentity
lease id = record {
  lease_id = id;
  client_id = 3;
  pool_id = 4;
  request_id = 5;
  replica_id = 6;
  expires_at = 1050;
  ttl = pos 50;
}

abbrev completion : LeaseCompletion
completion = record {
  lease = lease 11;
  usage = some (record { input_tokens = pos 3; output_tokens = pos 4; cache_read_tokens = pos 0 });
}

abbrev digest : AdmissionRequest → ℕ
digest req = req.lease_id

abbrev new : AdmissionCoordinator ℕ
new = new_admission_coordinator 4

-- One lease is admitted, a second one too, a third is over the limit; the first is completed.
abbrev calls : List Call
calls =
    acquires false 1000 (request 11)
    ∷ acquires false 1000 (request 12)
    ∷ acquires false 1000 (request 13)
    ∷ completes false 1010 (completion ∷ [])
    ∷ []

abbrev first_call : List Call
first_call = acquires false 1000 (request 11) ∷ []

abbrev one_lease : AdmissionCoordinator ℕ
one_lease = run digest new first_call

run-new_Accounts_example : Accounts (run digest new calls).ledger
run-new_Accounts_example = run-new_Accounts ℕ digest 4 calls

pool_inflight_live_example :
    let left = (pool_inflight 1020 4 (run digest new calls)).0.ledger.leases in
    ((pool_inflight 1020 4 (run digest new calls)).1 ≡ count_if (of_pool 4) left)
    × All (λ e. 1020 < e.1.expires_at) left
pool_inflight_live_example = pool_inflight_live ℕ digest 4 calls 1020 4

new-Accounts : Accounts new.ledger
unfolding new_admission_coordinator run
new-Accounts = run-new_Accounts ℕ digest 4 []

new_fresh : lookup 11 (expire 1000 new.ledger).receipts ≡ none
unfolding new_admission_coordinator expire lookup
new_fresh = refl

first_granted : (acquire digest false 1000 (request 11) new).1 ≡ some (granted (lease 11))
unfolding acquire new_admission_coordinator lookup
first_granted = refl

acquire_limits_example :
    WithinLimits (request 11) (acquire digest false 1000 (request 11) new).0.ledger
acquire_limits_example =
    acquire_limits digest 1000 (request 11) new (granted (lease 11)) (lease 11) new-Accounts
      new_fresh first_granted refl

acquire_retry_example :
    let again =
      acquire digest false 1040 (request 11) (acquire digest false 1000 (request 11) new).0 in
    (again.1 ≡ some (if 11 == 11 then granted (lease 11) else refusal idempotency_conflict))
    × (lookup 11 again.0.ledger.leases ≡ some (lease 11))
    × Accounts again.0.ledger
acquire_retry_example =
    acquire_retry digest 1000 1040 (request 11) (request 11) new (granted (lease 11)) (lease 11)
      new-Accounts new_fresh first_granted refl refl (omega arith)

one_lease_there : lookup 11 one_lease.ledger.leases ≡ some (lease 11)
unfolding run step acquire new_admission_coordinator lookup insert
one_lease_there = refl

one_receipt_there :
    lookup 11 one_lease.ledger.receipts ≡ some (new_receipt 11 (request 11) (granted (lease 11)))
unfolding run step acquire new_admission_coordinator lookup insert
one_receipt_there = refl

complete_twice_example :
    let first = complete false 1010 (completion ∷ []) one_lease in
    let second = complete false 1015 (completion ∷ []) first.0 in
    (first.1 ≡ some (answer 11 (some released) none none ∷ []))
    × (lookup 11 first.0.ledger.leases ≡ none)
    × (second.1 ≡ some (answer 11 (some already_completed) (some released) none ∷ []))
    × (second.0.rates ≡ first.0.rates)
complete_twice_example =
    complete_twice 1010 1015 completion one_lease (new_receipt 11 (request 11) (granted (lease 11)))
      (lease 11) (run-new_Accounts ℕ digest 4 first_call) one_lease_there one_receipt_there
      (omega arith) (omega arith)

-- One receipt fills the capacity, and is terminal once its lease is completed.
abbrev full : AdmissionCoordinator ℕ
full =
    run digest (new_admission_coordinator 1)
      (acquires false 1000 (request 11) ∷ completes false 1010 (completion ∷ []) ∷ [])

make_receipt_room-Decided_example : Decided full.ledger (make_receipt_room full.ledger)
make_receipt_room-Decided_example = make_receipt_room-Decided full.ledger
