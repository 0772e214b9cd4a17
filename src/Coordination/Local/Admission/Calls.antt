-- ===== src/Coordination/Local/Admission/Calls.antt =====
-- The calls of the coordinator, and any history of them (internal/coordination/local/admission.go).
use vllm_priority_gateway.Base.{
  ℕ, ◌≡◌, refl, sym, subst, ◌⊎◌, inl, inr, Bool, ◌&&◌, Option, none, some, List, [], ◌∷◌, arith,
  if◌then◌else◌, pos, ltb_ℤ, Bool-cases, Option-cases, if_keeps,
}
use vllm_priority_gateway.Base.Float.{Float, ltf}
use vllm_priority_gateway.Base.Maps.{lookup}
use vllm_priority_gateway.Coordination.Types.{
  AdmissionRequest, AdmissionDecision, LeaseCompletion, CompleteResult, rpm_exhausted,
  tpm_exhausted, stale_operation, stale_configuration,
}
use vllm_priority_gateway.Coordination.Local.Ledger.{
  Ledger, AdmissionReceipt, expire, make_receipt_room,
}
use vllm_priority_gateway.Coordination.Local.Ledger.Accounts.{Accounts}
use vllm_priority_gateway.Coordination.Local.Ledger.Upkeep.{
  expire-Accounts, make_receipt_room-Accounts, make_receipt_room-missing,
}
use vllm_priority_gateway.Coordination.Local.Rates.{
  RateState, RatePolicy, rpm, tpm, normalized, rate_retry_at, requested_policy,
  observe_client_rate_policy,
}
use vllm_priority_gateway.Coordination.Local.Admission.{
  AdmissionCoordinator, refuse, admit_rpm, admit_tpm, admit_new, acquire, complete_known,
  complete_one, complete_all, complete,
}
use vllm_priority_gateway.Coordination.Local.Decisions.{
  refusal, refusal_retry, is_stale_operation, is_bad_configuration, grant, reject,
  concurrency_refusal,
}
use vllm_priority_gateway.Coordination.Local.Admission.Invariant.{
  grant-Accounts, reject-Accounts, settle-Accounts,
}

pub concurrency_refusal-none :
    (req : AdmissionRequest) (l : Ledger) (d : AdmissionDecision)
    → concurrency_refusal req l ≡ some d
    → d.lease ≡ none
unfolding concurrency_refusal
concurrency_refusal-none req l d h = ground arith

module _ {F : Type 0} ⦃fl : Float F⦄ (fingerprint : AdmissionRequest → ℕ) where
  -- What an admission of a new request comes to: the lease is granted, or a refusal is recorded.
  abbrev pub Recorded :
      ℕ → AdmissionRequest → Ledger → AdmissionCoordinator F × Option AdmissionDecision → Type 0
  Recorded now req l r =
      ((r.0.ledger ≡ (grant now (fingerprint req) req l).0)
        × (r.1 ≡ some (grant now (fingerprint req) req l).1))
      ⊎ ((d : AdmissionDecision) × (d.lease ≡ none)
          × (r.0.ledger ≡ (reject now (fingerprint req) req d l).0)
          × (r.1 ≡ some d))

  refuse-Recorded :
      (now : ℕ) (req : AdmissionRequest) (d : AdmissionDecision) (c : AdmissionCoordinator F)
      → d.lease ≡ none
      → Recorded now req c.ledger (refuse fingerprint now req d c)
  unfolding refuse
  refuse-Recorded now req d c e = inr (d, e, refl, refl)

  admit_rpm-Recorded :
      (now : ℕ) (req : AdmissionRequest) (policy : RatePolicy) (c : AdmissionCoordinator F)
      → Recorded now req c.ledger (admit_rpm fingerprint now req policy c)
  unfolding admit_rpm
  admit_rpm-Recorded now req policy c =
      let s : RateState F =
        (normalized c.rates req.client_id rpm policy.revision
          (if ltb_ℤ (pos 0) policy.rpm then policy.rpm else pos 0) now).1 in
      elim (Bool-cases (ltb_ℤ (pos 0) policy.rpm)) [
        | inr t ↦ inl (rw t refl, rw t refl)
        | inl t ↦ elim (Bool-cases (ltf s.balance (fl.of_int (pos 1)))) [
          | inl u ↦ inr (
            refusal_retry rpm_exhausted (rate_retry_at s.balance policy.rpm now),
            refl,
            ground (arith, t, u),
            ground (arith, t, u),
          )
          | inr u ↦ inl (ground (arith, t, u), ground (arith, t, u))
        ]
      ]

  admit_tpm-Recorded :
      (now : ℕ) (req : AdmissionRequest) (policy : RatePolicy) (c : AdmissionCoordinator F)
      → Recorded now req c.ledger (admit_tpm fingerprint now req policy c)
  unfolding admit_tpm
  admit_tpm-Recorded now req policy c =
      let r =
        normalized c.rates req.client_id tpm policy.revision
          (if ltb_ℤ (pos 0) policy.tpm then policy.tpm else pos 0) now in
      let c' : AdmissionCoordinator F = record c { rates = r.0 } in
      let d = refusal_retry tpm_exhausted (rate_retry_at r.1.balance policy.tpm now) in
      if_keeps (Recorded now req c.ledger)
        (ltb_ℤ (pos 0) policy.tpm && ltf r.1.balance (fl.of_int (pos 1)))
        {x = refuse fingerprint now req d c'} {y = admit_rpm fingerprint now req policy c'}
        (λ _. refuse-Recorded now req d c' refl) (λ _. admit_rpm-Recorded now req policy c')

  admit_limits :
      (now : ℕ) (req : AdmissionRequest) (policy : RatePolicy) (c : AdmissionCoordinator F)
      (o : Option AdmissionDecision)
      → concurrency_refusal req c.ledger ≡ o
      → Recorded now req c.ledger (elim o [
        | some d ↦ refuse fingerprint now req d c
        | none ↦ admit_tpm fingerprint now req policy c
      ])
  admit_limits now req policy c none e = admit_tpm-Recorded now req policy c
  admit_limits now req policy c (some d) e =
      refuse-Recorded now req d c (concurrency_refusal-none req c.ledger d e)

  pub admit_new-Recorded :
      (now : ℕ) (req : AdmissionRequest) (c : AdmissionCoordinator F)
      → Recorded now req c.ledger (admit_new fingerprint now req c)
  unfolding admit_new
  admit_new-Recorded now req c =
      let o = observe_client_rate_policy c.policies req.client_id (requested_policy req) in
      let c' : AdmissionCoordinator F = record c { policies = o.0 } in
      let checked = admit_limits now req o.1 c' (concurrency_refusal req c.ledger) refl in
      if_keeps (Recorded now req c.ledger) (is_stale_operation now req)
        {x = refuse fingerprint now req (refusal stale_operation) c}
        (λ _. refuse-Recorded now req (refusal stale_operation) c refl)
        (λ _.
          if_keeps (Recorded now req c.ledger) (is_bad_configuration req)
            {x = refuse fingerprint now req (refusal stale_configuration) c}
            (λ _. refuse-Recorded now req (refusal stale_configuration) c refl) (λ _. checked))

  Recorded-Accounts :
      (now : ℕ) (req : AdmissionRequest) (l : Ledger)
      (r : AdmissionCoordinator F × Option AdmissionDecision)
      → Recorded now req l r
      → lookup req.lease_id l.receipts ≡ none
      → Accounts l
      → Accounts r.0.ledger
  Recorded-Accounts now req l r (inl (e, _)) free a =
      subst Accounts (sym e) (grant-Accounts now (fingerprint req) req l a free)
  Recorded-Accounts now req l r (inr (d, _, e, _)) free a =
      subst Accounts (sym e) (reject-Accounts now (fingerprint req) req d l a free)

  -- `Acquire` keeps the accounts.
  pub acquire-Accounts :
      (ended : Bool) (now : ℕ) (req : AdmissionRequest) (c : AdmissionCoordinator F)
      → Accounts c.ledger
      → Accounts (acquire fingerprint ended now req c).0.ledger
  unfolding acquire
  acquire-Accounts ended now req c a =
      let l = expire now c.ledger in
      let expired : Accounts l = expire-Accounts now c.ledger a in
      let made : Accounts (make_receipt_room l).0 = make_receipt_room-Accounts l expired in
      let Kept : AdmissionCoordinator F × Option AdmissionDecision → Type 0 =
        λ r. Accounts r.0.ledger in
      elim (Option-cases (lookup req.lease_id l.receipts)) [
        | inr (old, e) ↦ rw (e, acquire) (if_keeps Kept ended (λ _. a) (λ _. expired))
        | inl e ↦
            let fresh = make_receipt_room-missing l req.lease_id e in
            let c' : AdmissionCoordinator F = record c { ledger = (make_receipt_room l).0 } in
            rw (e, acquire)
              (if_keeps Kept ended (λ _. a)
                (λ _.
                  if_keeps Kept (make_receipt_room l).1
                    (λ _.
                      Recorded-Accounts now req (make_receipt_room l).0
                        (admit_new fingerprint now req c') (admit_new-Recorded now req c') fresh
                        made)
                    (λ _. made)))
      ]

module _ {F : Type 0} ⦃fl : Float F⦄ where
  complete_one-Accounts :
      (now : ℕ) (item : LeaseCompletion) (c : AdmissionCoordinator F)
      → Accounts c.ledger
      → Accounts (complete_one now item c).0.ledger
  unfolding complete_one
  complete_one-Accounts now item c a =
      elim (Option-cases (lookup item.lease.lease_id c.ledger.receipts)) [
        | inl e ↦ rw (e, complete_one) a
        | inr (r, e) ↦ rw (e, complete_one) (known r)
      ]
    where
      known : (r : AdmissionReceipt) → Accounts (complete_known now item r c).0.ledger
      known r = elim (Option-cases r.decision.lease) [
        | inl e ↦ rw (e, complete_known) a
        | inr (lease, e) ↦
            rw (e, complete_known)
              (if_keeps (λ (x : AdmissionCoordinator F × CompleteResult). Accounts x.0.ledger)
                r.completed (λ _. a) (λ _. settle-Accounts now item.lease.lease_id r c.ledger a))
      ]

  complete_all-Accounts :
      (now : ℕ) (items : List LeaseCompletion) (c : AdmissionCoordinator F)
      → Accounts c.ledger
      → Accounts (complete_all now items c).0.ledger
  unfolding complete_all
  complete_all-Accounts now [] c a = a
  complete_all-Accounts now (item ∷ items) c a =
      complete_all-Accounts now items (complete_one now item c).0
        (complete_one-Accounts now item c a)

  pub complete-Accounts :
      (ended : Bool) (now : ℕ) (items : List LeaseCompletion) (c : AdmissionCoordinator F)
      → Accounts c.ledger
      → Accounts (complete ended now items c).0.ledger
  unfolding complete
  complete-Accounts ended now items c a =
      let done =
        complete_all-Accounts now items (record c { ledger = expire now c.ledger })
          (expire-Accounts now c.ledger a) in
      ground (arith, a, done)
