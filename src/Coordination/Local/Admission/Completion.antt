-- ===== src/Coordination/Local/Admission/Completion.antt =====
-- A completion that comes twice (internal/coordination/local/admission.go).
use vllm_priority_gateway.Base.{
  ℕ, ◌+◌, ◌<◌, ◌≡◌, refl, ap, subst, ◌∙◌, inl, inr, Bool, true, false, Option, none, some, [], ◌∷◌,
  arith, ltb, if◌then◌else◌, is_none,
}
use vllm_priority_gateway.Base.Float.{Float}
use vllm_priority_gateway.Base.Maps.{lookup}
use vllm_priority_gateway.Coordination.Types.{
  LeaseIdentity, LeaseCompletion, released, already_completed,
}
use vllm_priority_gateway.Coordination.Local.Ledger.{
  Ledger, AdmissionReceipt, receipt_retention, remove_lease, retire, retention_boundary, expire,
}
use vllm_priority_gateway.Coordination.Local.Ledger.Accounts.{Accounts, Backed}
use vllm_priority_gateway.Coordination.Local.Ledger.Upkeep.{lookup-remove_lease}
use vllm_priority_gateway.Coordination.Local.Ledger.Deadlines.{expire_keeps}
use vllm_priority_gateway.Coordination.Local.Ledger.Retention.{expire_keeps_receipt, retire_own}
use vllm_priority_gateway.Coordination.Local.Admission.{
  AdmissionCoordinator, complete_one, complete_all, complete, charge,
}
use vllm_priority_gateway.Coordination.Local.Decisions.{is_active, outcome, answer, settle}
use vllm_priority_gateway.Coordination.Local.Admission.Calls.{complete-Accounts}

-- The receipt of a lease that was released.
abbrev completed_receipt : ℕ → AdmissionReceipt → AdmissionReceipt
unfolding retention_boundary
completed_receipt now r = record r {
  completed = true;
  completion = some released;
  retain_until = retention_boundary r.request.operation_started_at now;
}

settle_live :
    (now id : ℕ) (r : AdmissionReceipt) (l : Ledger) (lease : LeaseIdentity)
    → lookup id l.leases ≡ some lease
    → Backed lease (some r)
    → now < lease.expires_at
    → ((settle now id r l).1 ≡ answer id (some released) none none)
      × (lookup id (settle now id r l).0.leases ≡ none)
      × (lookup id (settle now id r l).0.receipts ≡ some (completed_receipt now r))
unfolding settle retire
settle_live now id r l lease h b live =
    let its : outcome (is_active (lookup id l.leases) r now) ≡ released =
      ground (arith, h, b, live) in
    let done : AdmissionReceipt = record r { completed = true; completion = some released } in
    (
      ap (λ o. answer id (some o) none none) its,
      lookup-remove_lease id l,
      ap
            (λ o.
              lookup id
                (retire id (record r { completed = true; completion = some o }) now
                  (remove_lease id l)).receipts)
            its
          ∙ retire_own id done now (remove_lease id l),
    )

case_some :
    {A B : Type 0} (o : Option A) (x y : B)
    → is_none o ≡ false
    → elim o [ none ↦ x | some _ ↦ y ] ≡ y
case_some none x y h = cc
case_some (some a) x y h = refl

if_at : {A : Type 0} {b c : Bool} (x y : A) → b ≡ c → (if b then x else y) ≡ (if c then x else y)
if_at x y h = ap (λ t. if t then x else y) h

module _ {F : Type 0} ⦃fl : Float F⦄ where
  complete_one_open :
      (now : ℕ) (item : LeaseCompletion) (c : AdmissionCoordinator F) (r : AdmissionReceipt)
      → lookup item.lease.lease_id c.ledger.receipts ≡ some r
      → is_none r.decision.lease ≡ false
      → r.completed ≡ false
      → complete_one now item c ≡ (
        record c {
          ledger = (settle now item.lease.lease_id r c.ledger).0;
          rates = charge now r.request item.usage c;
        },
        (settle now item.lease.lease_id r c.ledger).1,
      )
  unfolding complete_one
  complete_one_open now item c r e n o =
      rw (e, complete_one) (case_some r.decision.lease _ _ n ∙ if_at _ _ o)

  complete_one_done :
      (now : ℕ) (item : LeaseCompletion) (c : AdmissionCoordinator F) (r : AdmissionReceipt)
      → lookup item.lease.lease_id c.ledger.receipts ≡ some r
      → is_none r.decision.lease ≡ false
      → r.completed ≡ true
      → complete_one now item c
        ≡ (c, answer item.lease.lease_id (some already_completed) r.completion none)
  unfolding complete_one
  complete_one_done now item c r e n o =
      rw (e, complete_one) (case_some r.decision.lease _ _ n ∙ if_at _ _ o)

  complete_single :
      (now : ℕ) (item : LeaseCompletion) (c : AdmissionCoordinator F)
      → let done = complete_one now item (record c { ledger = expire now c.ledger }) in
        complete false now (item ∷ []) c ≡ (done.0, some (done.1 ∷ []))
  unfolding complete complete_all
  complete_single now item c = refl

  -- On a coordinator whose accounts hold, a lease that lives, with its receipt,
  -- is completed once: the completion answers that it is released and removes
  -- it, and the same completion again, within the 24 hours of retention, answers that it was
  -- released already and charges nothing to the client's token bucket.
  pub complete_twice :
      (now later : ℕ) (item : LeaseCompletion) (c : AdmissionCoordinator F) (r : AdmissionReceipt)
      (lease : LeaseIdentity)
      → Accounts c.ledger
      → lookup item.lease.lease_id c.ledger.leases ≡ some lease
      → lookup item.lease.lease_id c.ledger.receipts ≡ some r
      → now < lease.expires_at
      → later < now + receipt_retention
      → let first = complete false now (item ∷ []) c in
        let second = complete false later (item ∷ []) first.0 in
        (first.1 ≡ some (answer item.lease.lease_id (some released) none none ∷ []))
        × (lookup item.lease.lease_id first.0.ledger.leases ≡ none)
        × (second.1
            ≡ some (answer item.lease.lease_id (some already_completed) (some released) none ∷ []))
        × (second.0.rates ≡ first.0.rates)
  unfolding completed_receipt
  complete_twice now later item c r lease a h k live soon =
      let id = item.lease.lease_id in
      let b : Backed lease (some r) = subst (Backed lease) k (a.backed id lease h) in
      let c0 : AdmissionCoordinator F = record c { ledger = expire now c.ledger } in
      let r0 = expire_keeps_receipt now c.ledger id r a (inr (lease, h, live)) (inl b.2) k in
      let settled =
        settle_live now id r c0.ledger lease (expire_keeps now c.ledger id lease h live) b live in
      let once = complete_one_open now item c0 r r0 b.5 b.3 in
      let c1 = (complete false now (item ∷ []) c).0 in
      let e1 : c1.ledger ≡ (settle now id r c0.ledger).0 =
        ap (λ x. x.0.ledger) (complete_single now item c) ∙ ap (λ x. x.0.ledger) once in
      let gone : lookup id c1.ledger.leases ≡ none = ap (λ l. lookup id l.leases) e1 ∙ settled.1 in
      let r1 =
        expire_keeps_receipt later c1.ledger id (completed_receipt now r)
          (complete-Accounts false now (item ∷ []) c a) (inl gone)
          (inr (retained_long r.request.operation_started_at))
          (ap (λ l. lookup id l.receipts) e1 ∙ settled.2) in
      let twice =
        complete_one_done later item (record c1 { ledger = expire later c1.ledger })
          (completed_receipt now r) r1 b.5 refl in
      (
        ap (λ x. x.1) (complete_single now item c)
            ∙ ap (λ x. some (x.1 ∷ [])) once
            ∙ ap (λ x. some (x ∷ [])) settled.0,
        gone,
        ap (λ x. x.1) (complete_single later item c1) ∙ ap (λ x. some (x.1 ∷ [])) twice,
        ap (λ x. x.0.rates) (complete_single later item c1) ∙ ap (λ x. x.0.rates) twice,
      )
    where
      retained_long :
          (started : ℕ) → later < (if ltb now started then started else now) + receipt_retention
      retained_long started = ground (arith, soon)
