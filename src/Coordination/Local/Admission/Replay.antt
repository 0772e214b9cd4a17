-- ===== src/Coordination/Local/Admission/Replay.antt =====
-- An admission that is asked for again (internal/coordination/local/admission.go).
use vllm_priority_gateway.Base.{
  ℕ, ◌<◌, ◌≡◌, refl, sym, ap, subst, ◌∙◌, inl, inr, false, Option, none, some, arith, ◌==◌,
  if◌then◌else◌, Option-cases, some-eq, is_none,
}
use vllm_priority_gateway.Base.Float.{Float}
use vllm_priority_gateway.Base.Maps.{lookup, lookup-insert}
use vllm_priority_gateway.Coordination.Types.{
  AdmissionRequest, LeaseIdentity, AdmissionDecision, idempotency_conflict,
  coordination_unavailable,
}
use vllm_priority_gateway.Coordination.Local.Ledger.{
  Ledger, AdmissionReceipt, expire, make_receipt_room,
}
use vllm_priority_gateway.Coordination.Local.Ledger.Accounts.{Accounts, Backed}
use vllm_priority_gateway.Coordination.Local.Ledger.Deadlines.{expire_keeps}
use vllm_priority_gateway.Coordination.Local.Ledger.Retention.{expire_keeps_receipt}
use vllm_priority_gateway.Coordination.Local.Admission.{AdmissionCoordinator, acquire}
use vllm_priority_gateway.Coordination.Local.Decisions.{
  granted, refusal, new_receipt, lease_of, grant, replay,
}
use vllm_priority_gateway.Coordination.Local.Admission.Calls.{acquire-Accounts, admit_new-Recorded}
use vllm_priority_gateway.Coordination.Local.Admission.Limits.{acquire_fresh}

-- Behind a lease stands an open receipt.
Backed-open :
    (lease : LeaseIdentity) (r : AdmissionReceipt)
    → Backed lease (some r)
    → (r.retain_until ≡ 0)
      × (r.completed ≡ false)
      × (r.expired ≡ false)
      × (is_none r.decision.lease ≡ false)
Backed-open lease r b = (b.2, b.3, b.4, b.5)

replay_live :
    (now fp : ℕ) (req : AdmissionRequest) (r : AdmissionReceipt) (l : Ledger)
    (lease : LeaseIdentity)
    → Backed lease (some r)
    → lookup req.lease_id l.leases ≡ some lease
    → now < lease.expires_at
    → replay now fp req r l
      ≡ (if r.fingerprint == fp then granted lease else refusal idempotency_conflict)
unfolding replay
replay_live now fp req r l lease b h live = elim (Option-cases r.decision.lease) [
  | inl e ↦ absurd (ground (arith, b, e))
  | inr (x, e) ↦ ground (arith, e, h, b, live)
]

grant-answer :
    (now fp : ℕ) (req : AdmissionRequest) (l : Ledger)
    → (grant now fp req l).1 ≡ granted (lease_of now req)
unfolding grant
grant-answer now fp req l = refl

grant-lookups :
    (now fp : ℕ) (req : AdmissionRequest) (l : Ledger)
    → let l' = (grant now fp req l).0 in
      (lookup req.lease_id l'.leases ≡ some (lease_of now req))
      × (lookup req.lease_id l'.receipts ≡ some (new_receipt fp req (granted (lease_of now req))))
unfolding grant
grant-lookups now fp req l = (
  ground (arith, lookup-insert req.lease_id req.lease_id (lease_of now req) l.leases),
  ground (
    arith,
    lookup-insert req.lease_id req.lease_id (new_receipt fp req (granted (lease_of now req)))
        l.receipts,
  ),
)

module _ {F : Type 0} ⦃fl : Float F⦄ (fingerprint : AdmissionRequest → ℕ) where
  acquire_seen :
      (now : ℕ) (req : AdmissionRequest) (c : AdmissionCoordinator F) (r : AdmissionReceipt)
      → lookup req.lease_id (expire now c.ledger).receipts ≡ some r
      → acquire fingerprint false now req c ≡ (
        record c { ledger = expire now c.ledger },
        some (replay now (fingerprint req) req r (expire now c.ledger)),
      )
  unfolding acquire
  acquire_seen now req c r e = rw (e, acquire) refl

  -- While a lease lives, asking for it again answers it again or reports a conflict.
  acquire_live :
      (now : ℕ) (req : AdmissionRequest) (c : AdmissionCoordinator F) (r : AdmissionReceipt)
      (lease : LeaseIdentity)
      → Accounts c.ledger
      → lookup req.lease_id c.ledger.leases ≡ some lease
      → lookup req.lease_id c.ledger.receipts ≡ some r
      → now < lease.expires_at
      → ((acquire fingerprint false now req c).1
          ≡ some (
              if r.fingerprint == fingerprint req
              then granted lease
              else refusal idempotency_conflict))
        × (lookup req.lease_id (acquire fingerprint false now req c).0.ledger.leases ≡ some lease)
  acquire_live now req c r lease a h k live =
      let b : Backed lease (some r) = subst (Backed lease) k (a.backed req.lease_id lease h) in
      let here = expire_keeps now c.ledger req.lease_id lease h live in
      let seen = acquire_seen now req c r (
        expire_keeps_receipt now c.ledger req.lease_id r a (inr (lease, h, live))
          (inl (Backed-open lease r b).0) k) in
      (
        ap (λ x. x.1) seen
            ∙ ap some
                (replay_live now (fingerprint req) req r (expire now c.ledger) lease b here live),
        ap (λ x. lookup req.lease_id x.0.ledger.leases) seen ∙ here,
      )

  -- What stands in the ledger after a new request was granted a lease.
  granted_stands :
      (now : ℕ) (req : AdmissionRequest) (c : AdmissionCoordinator F) (d : AdmissionDecision)
      (lease : LeaseIdentity)
      → lookup req.lease_id (expire now c.ledger).receipts ≡ none
      → (acquire fingerprint false now req c).1 ≡ some d
      → d.lease ≡ some lease
      → let l = (acquire fingerprint false now req c).0.ledger in
        (lookup req.lease_id l.leases ≡ some lease)
        × (lookup req.lease_id l.receipts
            ≡ some (new_receipt (fingerprint req) req (granted lease)))
  granted_stands now req c d lease fresh h e =
      let c' : AdmissionCoordinator F = record c {
        ledger = (make_receipt_room (expire now c.ledger)).0;
      } in
      elim (acquire_fresh fingerprint now req c fresh) [
        | inr q ↦
            let same : d ≡ refusal coordination_unavailable = some-eq (sym h ∙ ap (λ r. r.1) q) in
            absurd (clash e (ap (λ x. x.lease) same))
        | inl q ↦ elim (admit_new-Recorded fingerprint now req c') [
          | inr (d', n, _, q') ↦
              let same : d ≡ d' = some-eq (sym h ∙ ap (λ r. r.1) q ∙ q') in
              absurd (clash e (subst (λ x. x.lease ≡ none) (sym same) n))
          | inl (q0, q1) ↦
              let same : d ≡ granted (lease_of now req) = some-eq (
                sym h
                ∙ ap (λ r. r.1) q
                ∙ q1
                ∙ ap some (grant-answer now (fingerprint req) req c'.ledger)) in
              let its : lease_of now req ≡ lease = some-eq (ap (λ x. x.lease) (sym same) ∙ e) in
              let stands = grant-lookups now (fingerprint req) req c'.ledger in
              let ledger : (acquire fingerprint false now req c).0.ledger
                  ≡ (grant now (fingerprint req) req c'.ledger).0 =
                ap (λ r. r.0.ledger) q ∙ q0 in
              (
                ap (λ l. lookup req.lease_id l.leases) ledger ∙ stands.0 ∙ ap some its,
                ap (λ l. lookup req.lease_id l.receipts) ledger
                    ∙ stands.1
                    ∙ ap (λ x. some (new_receipt (fingerprint req) req (granted x))) its,
              )
        ]
      ]
    where
      clash : {o : Option LeaseIdentity} → o ≡ some lease → o ≡ none → ⊥
      clash p q = cc

  -- An admission is safe to retry: when, on a coordinator whose accounts hold,
  -- a request new to it has been granted a lease,
  -- then as long as that lease lives, asking again under the same lease id answers the same lease
  -- if the requests have one fingerprint and a conflict if not, and either way the lease stands as
  -- it was and is counted once.
  pub acquire_retry :
      (now later : ℕ) (req req' : AdmissionRequest) (c : AdmissionCoordinator F)
      (d : AdmissionDecision) (lease : LeaseIdentity)
      → Accounts c.ledger
      → lookup req.lease_id (expire now c.ledger).receipts ≡ none
      → (acquire fingerprint false now req c).1 ≡ some d
      → d.lease ≡ some lease
      → req.lease_id ≡ req'.lease_id
      → later < lease.expires_at
      → let again = acquire fingerprint false later req' (acquire fingerprint false now req c).0 in
        (again.1
          ≡ some (
              if fingerprint req == fingerprint req'
              then granted lease
              else refusal idempotency_conflict))
        × (lookup req.lease_id again.0.ledger.leases ≡ some lease)
        × Accounts again.0.ledger
  acquire_retry now later req req' c d lease a fresh h e same live =
      let c1 = (acquire fingerprint false now req c).0 in
      let a1 = acquire-Accounts fingerprint false now req c a in
      let (l0, r0) = granted_stands now req c d lease fresh h e in
      let (again, left) =
        acquire_live later req' c1 (new_receipt (fingerprint req) req (granted lease)) lease a1
          (subst (λ i. lookup i c1.ledger.leases ≡ some lease) same l0)
          (subst
            (λ i.
              lookup i c1.ledger.receipts
              ≡ some (new_receipt (fingerprint req) req (granted lease)))
            same r0)
          live in
      (
        again,
        subst (λ i. lookup i (acquire fingerprint false later req' c1).0.ledger.leases ≡ some lease)
            (sym same) left,
        acquire-Accounts fingerprint false later req' c1 a1,
      )
