-- ===== src/Coordination/Local/Admission/Limits.antt =====
-- What an admission guarantees about concurrency (internal/coordination/local/admission.go).
use vllm_priority_gateway.Base.{
  ℕ, ◌+◌, ◌≡◌, refl, sym, ap, subst, ◌∙◌, ◌⊎◌, inl, inr, true, false, Option, none, some, arith,
  count_if, pos, leb_ℤ, ◌≤ℤ◌, ◌<ℤ◌, ◌-ℤ◌, Bool-cases, Option-cases, if_keeps, some-eq,
}
use vllm_priority_gateway.Base.Float.{Float}
use vllm_priority_gateway.Base.Maps.{lookup}
use vllm_priority_gateway.Coordination.Types.{
  AdmissionRequest, LeaseIdentity, AdmissionDecision, stale_operation, stale_configuration,
  coordination_unavailable,
}
use vllm_priority_gateway.Coordination.Local.Ledger.{Ledger, is_lower, expire, make_receipt_room}
use vllm_priority_gateway.Coordination.Local.Ledger.Accounts.{
  Accounts, of_client, of_pool, of_lower,
}
use vllm_priority_gateway.Coordination.Local.Admission.{
  AdmissionCoordinator, admit_tpm, admit_new, acquire, refuse,
}
use vllm_priority_gateway.Coordination.Local.Decisions.{
  grant, concurrency_refusal, is_stale_operation, is_bad_configuration, refusal,
}
use vllm_priority_gateway.Coordination.Local.Admission.Calls.{
  acquire-Accounts, admit_new-Recorded, concurrency_refusal-none,
}
use vllm_priority_gateway.Coordination.Local.Rates.{
  RatePolicy, observe_client_rate_policy, requested_policy,
}

-- Where the checks let a request on, the counts leave room for one more.
record HasRoom (req : AdmissionRequest) (l : Ledger) : Type 0 where
  client_room : pos (l.client_inflight req.client_id) <ℤ req.effective_client_limit
  configured : req.effective_client_limit ≤ℤ req.configured_client_limit
  pool_room :
      pos 0 <ℤ req.pool_gateway_inflight_limit
      → pos (l.pool_inflight req.pool_id) <ℤ req.pool_gateway_inflight_limit
  lower_room :
      pos 0 <ℤ req.pool_high_priority_reserve
      → is_lower req.priority_class ≡ true
      → pos (l.pool_lower_inflight req.pool_id)
        <ℤ req.pool_gateway_inflight_limit -ℤ req.pool_high_priority_reserve

concurrency_room :
    (req : AdmissionRequest) (l : Ledger) → concurrency_refusal req l ≡ none → HasRoom req l
unfolding concurrency_refusal
concurrency_room req l h = record {
  client_room = ground arith;
  configured = ground arith;
  pool_room = λ p. ground arith;
  lower_room = λ p q. ground arith;
}

-- The client has no more leases than its effective limit, which is within the configured one; the
-- pool has no limit or no more leases than it; and there is no reserve, or the request is high or
-- critical, or the lower classes have no more leases than the reserve leaves them.
abbrev pub WithinLimits : AdmissionRequest → Ledger → Type 0
WithinLimits req l =
    (pos (count_if (of_client req.client_id) l.leases) ≤ℤ req.effective_client_limit)
    × (req.effective_client_limit ≤ℤ req.configured_client_limit)
    × ((req.pool_gateway_inflight_limit ≤ℤ pos 0)
        ⊎ (pos (count_if (of_pool req.pool_id) l.leases) ≤ℤ req.pool_gateway_inflight_limit))
    × ((req.pool_high_priority_reserve ≤ℤ pos 0)
        ⊎ (is_lower req.priority_class ≡ false)
        ⊎ (pos (count_if (of_lower l.receipts req.pool_id) l.leases)
            ≤ℤ req.pool_gateway_inflight_limit -ℤ req.pool_high_priority_reserve))

grant_counts :
    (now fp : ℕ) (req : AdmissionRequest) (l : Ledger)
    → let l' = (grant now fp req l).0 in
      (l'.client_inflight req.client_id ≡ l.client_inflight req.client_id + 1)
      × (l'.pool_inflight req.pool_id ≡ l.pool_inflight req.pool_id + 1)
      × (is_lower req.priority_class ≡ true
          → l'.pool_lower_inflight req.pool_id ≡ l.pool_lower_inflight req.pool_id + 1)
unfolding grant
grant_counts now fp req l = ground arith

grant-WithinLimits :
    (now fp : ℕ) (req : AdmissionRequest) (l : Ledger)
    → HasRoom req l
    → Accounts (grant now fp req l).0
    → WithinLimits req (grant now fp req l).0
grant-WithinLimits now fp req l room a =
    let (client, pool, lower) = grant_counts now fp req l in
    (
      ground (arith, room.client_room, client, a.clients req.client_id),
      room.configured,
      elim (Bool-cases (leb_ℤ req.pool_gateway_inflight_limit (pos 0))) [
        | inl p ↦ inl (ground (arith, p))
        | inr p ↦
            inr (ground (arith, room.pool_room (ground (arith, p)), pool, a.pools req.pool_id))
      ],
      elim (Bool-cases (leb_ℤ req.pool_high_priority_reserve (pos 0))) [
        | inl p ↦ inl (ground (arith, p))
        | inr p ↦ elim (Bool-cases (is_lower req.priority_class)) [
          | inr q ↦ inr (inl q)
          | inl q ↦ inr (
              inr (
                ground
                  (arith, room.lower_room (ground (arith, p)) q, lower q, a.lower req.pool_id)))
        ]
      ],
    )

module _ {F : Type 0} ⦃fl : Float F⦄ (fingerprint : AdmissionRequest → ℕ) where
  -- The answer is there, and grants nothing.
  abbrev Refused : AdmissionCoordinator F × Option AdmissionDecision → Type 0
  Refused r = (d : AdmissionDecision) × (r.1 ≡ some d) × (d.lease ≡ none)

  refuse-Refused :
      (now : ℕ) (req : AdmissionRequest) (d : AdmissionDecision) (c : AdmissionCoordinator F)
      → d.lease ≡ none
      → Refused (refuse fingerprint now req d c)
  unfolding refuse
  refuse-Refused now req d c e = (d, refl, e)

  limits-Refused :
      (now : ℕ) (req : AdmissionRequest) (policy : RatePolicy) (c : AdmissionCoordinator F)
      (o : Option AdmissionDecision) (d : AdmissionDecision)
      → o ≡ some d
      → d.lease ≡ none
      → Refused (elim o [
        | some d ↦ refuse fingerprint now req d c
        | none ↦ admit_tpm fingerprint now req policy c
      ])
  limits-Refused now req policy c none d e n = cc
  limits-Refused now req policy c (some x) d e n =
      refuse-Refused now req x c (subst (λ y. y.lease ≡ none) (sym (some-eq e)) n)

  admit_new-Refused :
      (now : ℕ) (req : AdmissionRequest) (c : AdmissionCoordinator F) (r : AdmissionDecision)
      → concurrency_refusal req c.ledger ≡ some r
      → Refused (admit_new fingerprint now req c)
  unfolding admit_new
  admit_new-Refused now req c r e =
      let o = observe_client_rate_policy c.policies req.client_id (requested_policy req) in
      let c' : AdmissionCoordinator F = record c { policies = o.0 } in
      let refused =
        limits-Refused now req o.1 c' (concurrency_refusal req c.ledger) r e
          (concurrency_refusal-none req c.ledger r e) in
      if_keeps Refused (is_stale_operation now req)
        {x = refuse fingerprint now req (refusal stale_operation) c}
        (λ _. refuse-Refused now req (refusal stale_operation) c refl)
        (λ _.
          if_keeps Refused (is_bad_configuration req)
            {x = refuse fingerprint now req (refusal stale_configuration) c}
            (λ _. refuse-Refused now req (refusal stale_configuration) c refl) (λ _. refused))

  pub admit_new_checked :
      (now : ℕ) (req : AdmissionRequest) (c : AdmissionCoordinator F) (d : AdmissionDecision)
      (lease : LeaseIdentity)
      → (admit_new fingerprint now req c).1 ≡ some d
      → d.lease ≡ some lease
      → concurrency_refusal req c.ledger ≡ none
  admit_new_checked now req c d lease h e = elim (Option-cases (concurrency_refusal req c.ledger)) [
    | inl free ↦ free
    | inr (r, refused) ↦
        let (d', q, n) = admit_new-Refused now req c r refused in
        let same : d ≡ d' = some-eq (sym h ∙ q) in
        absurd (clash e (subst (λ x. x.lease ≡ none) (sym same) n))
  ]
    where
      clash : {o : Option LeaseIdentity} → o ≡ some lease → o ≡ none → ⊥
      clash p q = cc

  pub granted_ledger :
      (now : ℕ) (req : AdmissionRequest) (c : AdmissionCoordinator F) (d : AdmissionDecision)
      (lease : LeaseIdentity)
      → (admit_new fingerprint now req c).1 ≡ some d
      → d.lease ≡ some lease
      → (admit_new fingerprint now req c).0.ledger ≡ (grant now (fingerprint req) req c.ledger).0
  granted_ledger now req c d lease h e = elim (admit_new-Recorded fingerprint now req c) [
    | inl (q, _) ↦ q
    | inr (d', n, _, q) ↦
        let same : d ≡ d' = some-eq (sym h ∙ q) in
        absurd (clash e (subst (λ x. x.lease ≡ none) (sym same) n))
  ]
    where
      clash : {o : Option LeaseIdentity} → o ≡ some lease → o ≡ none → ⊥
      clash p q = cc

  -- A new request is answered by `admit_new`, or refused for want of receipts.
  pub acquire_fresh :
      (now : ℕ) (req : AdmissionRequest) (c : AdmissionCoordinator F)
      → lookup req.lease_id (expire now c.ledger).receipts ≡ none
      → let c' : AdmissionCoordinator F = record c {
        ledger = (make_receipt_room (expire now c.ledger)).0;
      } in
        (acquire fingerprint false now req c ≡ admit_new fingerprint now req c')
        ⊎ (acquire fingerprint false now req c ≡ (c', some (refusal coordination_unavailable)))
  unfolding acquire
  acquire_fresh now req c e = elim (Bool-cases (make_receipt_room (expire now c.ledger)).1) [
    | inl t ↦ inl (rw (e, acquire) (rw t refl))
    | inr t ↦ inr (rw (e, acquire) (rw t refl))
  ]

  -- On a coordinator whose accounts hold, if a request that is new to it is
  -- admitted, then with its lease counted the client
  -- has no more leases than its effective limit, which is within the configured one, the pool no
  -- more than its limit, if it has one, and, under a priority reserve, a request that is neither
  -- high nor critical leaves the lower classes within what the reserve leaves them.
  pub acquire_limits :
      (now : ℕ) (req : AdmissionRequest) (c : AdmissionCoordinator F) (d : AdmissionDecision)
      (lease : LeaseIdentity)
      → Accounts c.ledger
      → lookup req.lease_id (expire now c.ledger).receipts ≡ none
      → (acquire fingerprint false now req c).1 ≡ some d
      → d.lease ≡ some lease
      → WithinLimits req (acquire fingerprint false now req c).0.ledger
  acquire_limits now req c d lease a fresh h e =
      let c' : AdmissionCoordinator F = record c {
        ledger = (make_receipt_room (expire now c.ledger)).0;
      } in
      let after = acquire-Accounts fingerprint false now req c a in
      elim (acquire_fresh now req c fresh) [
        | inr q ↦
            let same : d ≡ refusal coordination_unavailable = some-eq (sym h ∙ ap (λ r. r.1) q) in
            absurd (clash e (ap (λ x. x.lease) same))
        | inl q ↦
            let answered : (admit_new fingerprint now req c').1 ≡ some d =
              ap (λ r. r.1) (sym q) ∙ h in
            let checked = admit_new_checked now req c' d lease answered e in
            let its : (acquire fingerprint false now req c).0.ledger
                ≡ (grant now (fingerprint req) req c'.ledger).0 =
              ap (λ r. r.0.ledger) q ∙ granted_ledger now req c' d lease answered e in
            subst (WithinLimits req) (sym its) (
              grant-WithinLimits now (fingerprint req) req c'.ledger
                (concurrency_room req c'.ledger checked) (subst Accounts its after))
      ]
    where
      clash : {o : Option LeaseIdentity} → o ≡ some lease → o ≡ none → ⊥
      clash p q = cc
