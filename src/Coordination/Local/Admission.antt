-- ===== src/Coordination/Local/Admission.antt =====
-- internal/coordination/local/admission.go: the calls of the local admission coordinator. Each takes
-- `now`, what the clock says under the lock, and whether the caller's context has ended, in which
-- case nothing happens and the answer is `none`. The fingerprint of a request, SHA-256 of its JSON,
-- is a function of the request.
pub mod Invariant
pub mod Calls
pub mod History
pub mod Limits
pub mod Alive
pub mod Live
pub mod Replay
pub mod Completion
use vllm_priority_gateway.Base.{
  ℕ, ◌+◌, ◌-◌, Bool, true, false, ◌&&◌, ◌||◌, not, Option, none, some, List, [], ◌∷◌, ltb, leb,
  ◌==◌, if◌then◌else◌, length, ℤ, pos, ltb_ℤ, leb_ℤ, ◌-ℤ◌, add_time,
}
use vllm_priority_gateway.Base.Float.{Float, ltf}
use vllm_priority_gateway.Base.Maps.{lookup, insert}
use vllm_priority_gateway.Domain.{PriorityClass, valid, class_beq}
use vllm_priority_gateway.Coordination.Types.{
  AdmissionRequest, LeaseIdentity, AdmissionDecision, AdmissionScope, client_scope, pool_scope,
  Reason, concurrency_exhausted, pool_priority_reserve, rpm_exhausted, tpm_exhausted,
  stale_configuration, coordination_unavailable, lease_lost, stale_operation, idempotency_conflict,
  RenewResult, LeaseCompletion, CompletionResult, released, lost, already_completed, CompleteResult,
  TokenUsage, usage_valid,
}
use vllm_priority_gateway.Coordination.Local.ExpiryQueue.{admission_lease, add}
use vllm_priority_gateway.Coordination.Local.Ledger.{
  Ledger, AdmissionReceipt, receipt_retention, is_lower, increment, remove_lease, retire, expire,
  has_terminal_receipt, make_receipt_room, new_ledger,
}
use vllm_priority_gateway.Coordination.Local.Rates.{
  Rates, RateState, RatePolicy, Policies, tpm, rpm, set_rate, observe_client_rate_policy,
  requested_policy, normalized, rate_retry_at,
}
use vllm_priority_gateway.Coordination.Local.Decisions.{
  answer, clock_skew, concurrency_refusal, grant, granted, is_active, is_bad_configuration,
  is_stale_operation, is_unset, lease_of, lost_lease, new_receipt, outcome, own_ttl,
  policy_or_requested, refusal, refusal_retry, refusal_scope, reject, renew_all, renew_one, renewed,
  replay, replay_lease, settle,
}

pub record AdmissionCoordinator (F : Type 0) : Type 0 where
  pub ledger : Ledger
  pub rates : Rates F
  pub policies : Policies

-- `newAdmissionCoordinator` with a capacity that is positive.
unfoldable pub new_admission_coordinator : {F : Type 0} → ℕ → AdmissionCoordinator F
unfolding new_ledger
new_admission_coordinator capacity = record {
  ledger = new_ledger capacity;
  rates = λ c k. none;
  policies = λ c. none;
}

module _ {F : Type 0} ⦃fl : Float F⦄ (fingerprint : AdmissionRequest → ℕ) where
  abbrev with_ledger :
      AdmissionCoordinator F
      → Ledger × AdmissionDecision
      → AdmissionCoordinator F × Option AdmissionDecision
  with_ledger c (l, d) = (record c { ledger = l }, some d)

  abbrev refuse :
      ℕ
      → AdmissionRequest
      → AdmissionDecision
      → AdmissionCoordinator F
      → AdmissionCoordinator F × Option AdmissionDecision
  unfolding reject
  refuse now req d c = with_ledger c (reject now (fingerprint req) req d c.ledger)

  unfoldable pub admit_rpm :
      ℕ
      → AdmissionRequest
      → RatePolicy
      → AdmissionCoordinator F
      → AdmissionCoordinator F × Option AdmissionDecision
  unfolding refuse normalized rate_retry_at grant
  admit_rpm now req policy c =
      let (rates, state) =
        normalized c.rates req.client_id rpm policy.revision
          (if ltb_ℤ (pos 0) policy.rpm then policy.rpm else pos 0) now in
      let one = fl.of_int (pos 1) in
      let spent = record state { balance = fl.sub state.balance one } in
      if not (ltb_ℤ (pos 0) policy.rpm)
      then with_ledger (record c { rates = rates }) (grant now (fingerprint req) req c.ledger)
      else if ltf state.balance one
      then refuse now req (refusal_retry rpm_exhausted (rate_retry_at state.balance policy.rpm now))
          (record c { rates = rates })
      else with_ledger (record c { rates = set_rate rates req.client_id rpm spent })
          (grant now (fingerprint req) req c.ledger)

  unfoldable pub admit_tpm :
      ℕ
      → AdmissionRequest
      → RatePolicy
      → AdmissionCoordinator F
      → AdmissionCoordinator F × Option AdmissionDecision
  unfolding refuse normalized rate_retry_at admit_rpm
  admit_tpm now req policy c =
      let (rates, state) =
        normalized c.rates req.client_id tpm policy.revision
          (if ltb_ℤ (pos 0) policy.tpm then policy.tpm else pos 0) now in
      if ltb_ℤ (pos 0) policy.tpm && ltf state.balance (fl.of_int (pos 1))
      then refuse now req (refusal_retry tpm_exhausted (rate_retry_at state.balance policy.tpm now))
          (record c { rates = rates })
      else admit_rpm now req policy (record c { rates = rates })

  unfoldable pub admit_new :
      ℕ
      → AdmissionRequest
      → AdmissionCoordinator F
      → AdmissionCoordinator F × Option AdmissionDecision
  unfolding refuse is_bad_configuration observe_client_rate_policy concurrency_refusal admit_tpm
  admit_new now req c =
      let (policies, policy) =
        observe_client_rate_policy c.policies req.client_id (requested_policy req) in
      let c' = record c { policies = policies } in
      if is_stale_operation now req
      then refuse now req (refusal stale_operation) c
      else if is_bad_configuration req
      then refuse now req (refusal stale_configuration) c
      else elim (concurrency_refusal req c.ledger) [
        | some d ↦ refuse now req d c'
        | none ↦ admit_tpm now req policy c'
      ]

  unfoldable pub acquire :
      Bool
      → ℕ
      → AdmissionRequest
      → AdmissionCoordinator F
      → AdmissionCoordinator F × Option AdmissionDecision
  unfolding replay expire make_receipt_room admit_new
  acquire ended now req c =
      let l = expire now c.ledger in
      let (l', room) = make_receipt_room l in
      if ended then (c, none) else elim (lookup req.lease_id l.receipts) [
        | some old ↦ (record c { ledger = l }, some (replay now (fingerprint req) req old l))
        | none ↦
            if room
            then admit_new now req (record c { ledger = l' })
            else (record c { ledger = l' }, some (refusal coordination_unavailable))
      ]

module _ {F : Type 0} ⦃fl : Float F⦄ where
  -- The tokens that a completion takes from the client's bucket, under the policy in force.
  abbrev charged : RateState F → TokenUsage → RateState F
  charged s u = record s {
    balance = fl.sub s.balance (fl.add (fl.of_int u.input_tokens) (fl.of_int u.output_tokens));
  }

  abbrev charge_valid : ℕ → AdmissionRequest → TokenUsage → AdmissionCoordinator F → Rates F
  unfolding normalized
  charge_valid now req u c =
      let policy = policy_or_requested (c.policies req.client_id) req in
      let (rates, state) = normalized c.rates req.client_id tpm policy.revision policy.tpm now in
      if ltb_ℤ (pos 0) policy.tpm then set_rate rates req.client_id tpm (charged state u) else rates

  unfoldable pub charge :
      ℕ → AdmissionRequest → Option TokenUsage → AdmissionCoordinator F → Rates F
  unfolding charge_valid usage_valid
  charge now req none c = c.rates
  charge now req (some u) c = if usage_valid u then charge_valid now req u c else c.rates

  abbrev complete_known :
      ℕ
      → LeaseCompletion
      → AdmissionReceipt
      → AdmissionCoordinator F
      → AdmissionCoordinator F × CompleteResult
  unfolding settle charge
  complete_known now item r c = elim r.decision.lease [
    | none ↦ (c, answer item.lease.lease_id (some lost) none (some lease_lost))
    | some _ ↦
        if r.completed
        then (c, answer item.lease.lease_id (some already_completed) r.completion none)
        else let (l, result) = settle now item.lease.lease_id r c.ledger in
          (record c { ledger = l; rates = charge now r.request item.usage c }, result)
  ]

  -- One round of the loop of `Complete`.
  unfoldable pub complete_one :
      ℕ → LeaseCompletion → AdmissionCoordinator F → AdmissionCoordinator F × CompleteResult
  unfolding complete_known
  complete_one now item c = elim (lookup item.lease.lease_id c.ledger.receipts) [
    | none ↦ (c, answer item.lease.lease_id none none (some stale_operation))
    | some r ↦ complete_known now item r c
  ]

  unfoldable pub complete_all :
      ℕ
      → List LeaseCompletion
      → AdmissionCoordinator F
      → AdmissionCoordinator F × List CompleteResult
  unfolding complete_one
  complete_all now [] c = (c, [])
  complete_all now (item ∷ items) c =
      let (c', r) = complete_one now item c in
      let (c'', rs) = complete_all now items c' in (c'', r ∷ rs)

  unfoldable pub complete :
      Bool
      → ℕ
      → List LeaseCompletion
      → AdmissionCoordinator F
      → AdmissionCoordinator F × Option (List CompleteResult)
  unfolding expire complete_all
  complete ended now items c =
      let (c', rs) = complete_all now items (record c { ledger = expire now c.ledger }) in
      if ended then (c, none) else (c', some rs)

  unfoldable pub renew :
      Bool
      → ℕ
      → List LeaseIdentity
      → AdmissionCoordinator F
      → AdmissionCoordinator F × Option (List RenewResult)
  unfolding expire renew_all
  renew ended now wants c =
      let (l, rs) = renew_all now wants (expire now c.ledger) in
      if ended then (c, none) else (record c { ledger = l }, some rs)

  -- `Status` answers whether a new request can be given a receipt.
  unfoldable pub status : ℕ → AdmissionCoordinator F → AdmissionCoordinator F × Bool
  unfolding expire has_terminal_receipt
  status now c =
      let l = expire now c.ledger in
      let (l', terminal) = has_terminal_receipt l in
      if ltb (length l.receipts) l.receipt_capacity
      then (record c { ledger = l }, true)
      else (record c { ledger = l' }, terminal)

  unfoldable pub pool_inflight : ℕ → ℕ → AdmissionCoordinator F → AdmissionCoordinator F × ℕ
  unfolding expire
  pool_inflight now pool c =
      let l = expire now c.ledger in (record c { ledger = l }, l.pool_inflight pool)
