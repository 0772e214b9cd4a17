-- ===== src/Coordination/Local/Decisions.antt =====
-- internal/coordination/local/admission.go: what the calls of the coordinator do to the ledger: the
-- answer to a repeated admission, refusals, the checks of concurrency, the grant of a lease, its
-- renewal and its completion.
use vllm_priority_gateway.Base.{
  ℕ, ◌+◌, Bool, true, false, ◌&&◌, ◌||◌, not, Option, none, some, List, [], ◌∷◌, ltb, ◌==◌,
  if◌then◌else◌, ℤ, pos, ltb_ℤ, leb_ℤ, ◌-ℤ◌, add_time,
}
use vllm_priority_gateway.Base.Maps.{lookup, insert}
use vllm_priority_gateway.Domain.{PriorityClass, valid, class_beq}
use vllm_priority_gateway.Coordination.Types.{
  AdmissionRequest, LeaseIdentity, AdmissionDecision, AdmissionScope, client_scope, pool_scope,
  Reason, concurrency_exhausted, pool_priority_reserve, lease_lost, idempotency_conflict,
  RenewResult, CompletionResult, released, lost, CompleteResult,
}
use vllm_priority_gateway.Coordination.Local.ExpiryQueue.{admission_lease, add}
use vllm_priority_gateway.Coordination.Local.Ledger.{
  Ledger, AdmissionReceipt, receipt_retention, is_lower, increment, remove_lease, retire,
}
use vllm_priority_gateway.Coordination.Local.Rates.{RatePolicy, requested_policy}

abbrev pub refusal : Reason → AdmissionDecision
refusal reason = record {
  lease = none;
  reason = some reason;
  retry_at = none;
  concurrency_scope = none;
}

abbrev pub granted : LeaseIdentity → AdmissionDecision
granted lease = record {
  lease = some lease;
  reason = none;
  retry_at = none;
  concurrency_scope = none;
}

-- The answer to a request whose receipt is still there.
abbrev pub replay_lease : Option LeaseIdentity → ℕ → AdmissionDecision
replay_lease none now = refusal lease_lost
replay_lease (some lease) now =
    if ltb now lease.expires_at then granted lease else refusal lease_lost

abbrev pub new_receipt : ℕ → AdmissionRequest → AdmissionDecision → AdmissionReceipt
new_receipt fp req d = record {
  fingerprint = fp;
  decision = d;
  completed = false;
  completion = none;
  request = req;
  expired = false;
  retain_until = 0;
}

unfoldable pub replay : ℕ → ℕ → AdmissionRequest → AdmissionReceipt → Ledger → AdmissionDecision
replay now fp req old l =
    if not (old.fingerprint == fp)
    then refusal idempotency_conflict
    else if old.completed || old.expired
    then refusal lease_lost
    else elim old.decision.lease [
      | none ↦ old.decision
      | some _ ↦ replay_lease (lookup req.lease_id l.leases) now
    ]

-- `reject`: the receipt is written with its decision, and is terminal from now on.
unfoldable pub reject :
    ℕ → ℕ → AdmissionRequest → AdmissionDecision → Ledger → Ledger × AdmissionDecision
reject now fp req d l = (retire req.lease_id (new_receipt fp req d) now l, d)

abbrev pub refusal_retry : Reason → ℕ → AdmissionDecision
refusal_retry reason retry = record {
  lease = none;
  reason = some reason;
  retry_at = some retry;
  concurrency_scope = none;
}

abbrev pub refusal_scope : AdmissionScope → AdmissionDecision
refusal_scope scope = record {
  lease = none;
  reason = some concurrency_exhausted;
  retry_at = none;
  concurrency_scope = some scope;
}

-- Five minutes in nanoseconds.
abbrev pub clock_skew : ℕ
clock_skew = 300000000000

abbrev pub is_stale_operation : ℕ → AdmissionRequest → Bool
is_stale_operation now req =
    ltb (now + clock_skew) req.operation_started_at
    || not (ltb now (req.operation_started_at + receipt_retention))

abbrev pub is_unset : PriorityClass → Bool
is_unset class = class_beq class PriorityClass.unset

unfoldable pub is_bad_configuration : AdmissionRequest → Bool
unfolding valid
is_bad_configuration req =
    ltb_ℤ req.pool_high_priority_reserve (pos 0)
    || ltb_ℤ (pos 0) req.pool_high_priority_reserve
      && (leb_ℤ req.pool_gateway_inflight_limit (pos 0)
          || ltb_ℤ req.pool_gateway_inflight_limit req.pool_high_priority_reserve
          || not (valid req.priority_class))
    || not (is_unset req.priority_class) && not (valid req.priority_class)

abbrev pub lease_of : ℕ → AdmissionRequest → LeaseIdentity
lease_of now req = record {
  lease_id = req.lease_id;
  client_id = req.client_id;
  pool_id = req.pool_id;
  request_id = req.request_id;
  replica_id = req.replica_id;
  expires_at = add_time now req.lease_ttl;
  ttl = req.lease_ttl;
}

-- The end of `Acquire`: the lease is recorded and counted, and its receipt written.
unfoldable pub grant : ℕ → ℕ → AdmissionRequest → Ledger → Ledger × AdmissionDecision
grant now fp req l =
    let lease = lease_of now req in
    (
      record l {
        receipts = insert req.lease_id (new_receipt fp req (granted lease)) l.receipts;
        leases = insert req.lease_id lease l.leases;
        client_inflight = increment l.client_inflight req.client_id;
        pool_inflight = increment l.pool_inflight req.pool_id;
        pool_lower_inflight =
            if is_lower req.priority_class
            then increment l.pool_lower_inflight req.pool_id
            else l.pool_lower_inflight;
        expiries = add admission_lease req.lease_id lease.expires_at l.expiries;
      },
      granted lease,
    )

-- The concurrency checks of `Acquire`, in their order; `none` lets the request on.
unfoldable pub concurrency_refusal : AdmissionRequest → Ledger → Option AdmissionDecision
concurrency_refusal req l =
    if leb_ℤ req.effective_client_limit (pos 0)
      || ltb_ℤ req.configured_client_limit req.effective_client_limit
    then some (refusal_scope client_scope)
    else if ltb_ℤ (pos 0) req.pool_gateway_inflight_limit
        && leb_ℤ req.pool_gateway_inflight_limit (pos (l.pool_inflight req.pool_id))
    then some (refusal_scope pool_scope)
    else if ltb_ℤ (pos 0) req.pool_high_priority_reserve
        && (is_lower req.priority_class
            && leb_ℤ (req.pool_gateway_inflight_limit -ℤ req.pool_high_priority_reserve)
                (pos (l.pool_lower_inflight req.pool_id)))
    then some (refusal pool_priority_reserve)
    else if leb_ℤ req.effective_client_limit (pos (l.client_inflight req.client_id))
    then some (refusal_scope client_scope)
    else none

abbrev pub lost_lease : LeaseIdentity → RenewResult
lost_lease want = record { lease = want; reason = some lease_lost }

abbrev pub renewed : ℕ → ℕ → ℤ → LeaseIdentity → Ledger → Ledger × RenewResult
renewed now id ttl got l =
    let lease = record got { expires_at = add_time now ttl } in
    (
      record l {
        leases = insert id lease l.leases;
        expiries = add admission_lease got.lease_id lease.expires_at l.expiries;
      },
      record { lease = lease; reason = none },
    )

abbrev pub own_ttl : LeaseIdentity → LeaseIdentity → ℤ
own_ttl got want = if leb_ℤ got.ttl (pos 0) then want.ttl else got.ttl

-- One round of the loop of `Renew`.
unfoldable pub renew_one : ℕ → LeaseIdentity → Ledger → Ledger × RenewResult
unfolding remove_lease
renew_one now want l = elim (lookup want.lease_id l.leases) [
  | none ↦ (remove_lease want.lease_id l, lost_lease want)
  | some got ↦
      if not (got.client_id == want.client_id)
        || not (got.pool_id == want.pool_id)
        || not (ltb now got.expires_at)
      then (remove_lease want.lease_id l, lost_lease want)
      else if leb_ℤ (own_ttl got want) (pos 0)
      then (l, lost_lease want)
      else renewed now want.lease_id (own_ttl got want) got l
]

unfoldable pub renew_all : ℕ → List LeaseIdentity → Ledger → Ledger × List RenewResult
unfolding renew_one
renew_all now [] l = (l, [])
renew_all now (want ∷ wants) l =
    let (l', r) = renew_one now want l in let (l'', rs) = renew_all now wants l' in (l'', r ∷ rs)

abbrev pub is_active : Option LeaseIdentity → AdmissionReceipt → ℕ → Bool
is_active none r now = false
is_active (some lease) r now =
    lease.client_id == r.request.client_id
    && lease.pool_id == r.request.pool_id
    && ltb now lease.expires_at

abbrev pub outcome : Bool → CompletionResult
outcome active = if active then released else lost

abbrev pub answer :
    ℕ → Option CompletionResult → Option CompletionResult → Option Reason → CompleteResult
answer id result original reason = record {
  lease_id = id;
  result = result;
  original_result = original;
  reason = reason;
}

-- The end of one round of `Complete`: the lease goes, and the receipt is terminal.
unfoldable pub settle : ℕ → ℕ → AdmissionReceipt → Ledger → Ledger × CompleteResult
unfolding remove_lease retire
settle now id r l =
    let result = outcome (is_active (lookup id l.leases) r now) in
    (
      retire id (record r { completed = true; completion = some result }) now (remove_lease id l),
      answer id (some result) none none,
    )

abbrev pub policy_or_requested : Option RatePolicy → AdmissionRequest → RatePolicy
policy_or_requested none req = requested_policy req
policy_or_requested (some p) req = p
