-- ===== src/Coordination/Local/Admission/History.antt =====
-- Any history of calls on a new coordinator (internal/coordination/local/admission.go).
use vllm_priority_gateway.Base.{ℕ, Bool, List, [], ◌∷◌, arith}
use vllm_priority_gateway.Base.Float.{Float}
use vllm_priority_gateway.Coordination.Types.{AdmissionRequest, LeaseIdentity, LeaseCompletion}
use vllm_priority_gateway.Coordination.Local.Ledger.{expire}
use vllm_priority_gateway.Coordination.Local.Ledger.Accounts.{Accounts}
use vllm_priority_gateway.Coordination.Local.Ledger.Upkeep.{
  expire-Accounts, has_terminal_receipt-Accounts,
}
use vllm_priority_gateway.Coordination.Local.Rates.{RatePolicy, observe_client_rate_policy}
use vllm_priority_gateway.Coordination.Local.Admission.{
  AdmissionCoordinator, new_admission_coordinator, acquire, complete, renew, status, pool_inflight,
}
use vllm_priority_gateway.Coordination.Local.Admission.Invariant.{
  renew_all-Accounts, new_ledger-Accounts,
}
use vllm_priority_gateway.Coordination.Local.Admission.Calls.{acquire-Accounts, complete-Accounts}

-- One call, with what the clock says and whether the caller's context has ended.
pub data Call : Type 0 where
  acquires : Bool → ℕ → AdmissionRequest → Call
  renews : Bool → ℕ → List LeaseIdentity → Call
  completes : Bool → ℕ → List LeaseCompletion → Call
  asks_status : ℕ → Call
  asks_inflight : ℕ → ℕ → Call
  observes : ℕ → RatePolicy → Call

module _ {F : Type 0} ⦃fl : Float F⦄ (fingerprint : AdmissionRequest → ℕ) where
  unfoldable pub step : AdmissionCoordinator F → Call → AdmissionCoordinator F
  step c (acquires ended now req) = (acquire fingerprint ended now req c).0
  step c (renews ended now wants) = (renew ended now wants c).0
  step c (completes ended now items) = (complete ended now items c).0
  step c (asks_status now) = (status now c).0
  step c (asks_inflight now pool) = (pool_inflight now pool c).0
  step c (observes client policy) = record c {
    policies = (observe_client_rate_policy c.policies client policy).0;
  }

  unfoldable pub run : AdmissionCoordinator F → List Call → AdmissionCoordinator F
  run c [] = c
  run c (x ∷ xs) = run (step c x) xs

  step-Accounts :
      (c : AdmissionCoordinator F) (x : Call) → Accounts c.ledger → Accounts (step c x).ledger
  unfolding step renew status pool_inflight
  step-Accounts c (acquires ended now req) a = acquire-Accounts fingerprint ended now req c a
  step-Accounts c (renews ended now wants) a =
      let done =
        renew_all-Accounts now wants (expire now c.ledger) (expire-Accounts now c.ledger a) in
      ground (arith, a, done)
  step-Accounts c (completes ended now items) a = complete-Accounts ended now items c a
  step-Accounts c (asks_status now) a =
      let l = expire now c.ledger in
      let expired = expire-Accounts now c.ledger a in
      ground (arith, expired, has_terminal_receipt-Accounts l expired)
  step-Accounts c (asks_inflight now pool) a = expire-Accounts now c.ledger a
  step-Accounts c (observes client policy) a = a

  pub run-Accounts :
      (c : AdmissionCoordinator F) (xs : List Call) → Accounts c.ledger → Accounts (run c xs).ledger
  unfolding run
  run-Accounts c [] a = a
  run-Accounts c (x ∷ xs) a = run-Accounts (step c x) xs (step-Accounts c x a)

module _ (F : Type 0) ⦃fl : Float F⦄ (fingerprint : AdmissionRequest → ℕ) where
  -- After any history of calls on a new coordinator, of any receipt capacity, the counts of every
  -- client and pool are the numbers of their leases, the count of lower classes is the number of
  -- the pool's leases whose request is neither high nor critical, and behind every lease is its
  -- receipt, granted for the same client and pool, and neither completed, expired nor up for
  -- dropping.
  pub run-new_Accounts :
      (capacity : ℕ) (xs : List Call)
      → Accounts (run {F = F} fingerprint (new_admission_coordinator capacity) xs).ledger
  unfolding new_admission_coordinator
  run-new_Accounts capacity xs =
      run-Accounts {F = F} fingerprint (new_admission_coordinator capacity) xs
        (new_ledger-Accounts capacity)
