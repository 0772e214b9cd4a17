-- ===== src/Coordination/Local/Admission/Live.antt =====
-- After any history of calls, what is counted is alive (internal/coordination/local/admission.go).
use vllm_priority_gateway.Base.{
  ℕ, ◌<◌, ◌≡◌, refl, sym, subst, inl, inr, Bool, Option, List, [], ◌∷◌, arith, count_if, All,
  Option-cases, if_keeps,
}
use vllm_priority_gateway.Base.Float.{Float}
use vllm_priority_gateway.Base.Maps.{lookup, All-lookup}
use vllm_priority_gateway.Coordination.Types.{
  AdmissionRequest, AdmissionDecision, LeaseCompletion, CompleteResult,
}
use vllm_priority_gateway.Coordination.Local.Ledger.{
  Ledger, AdmissionReceipt, expire, has_terminal_receipt, make_receipt_room,
}
use vllm_priority_gateway.Coordination.Local.Ledger.Accounts.{of_pool}
use vllm_priority_gateway.Coordination.Local.Ledger.Deadlines.{expire-Timed}
use vllm_priority_gateway.Coordination.Local.Ledger.Upkeep.{expire-Accounts}
use vllm_priority_gateway.Coordination.Local.Admission.{
  AdmissionCoordinator, new_admission_coordinator, admit_new, acquire, complete_known, complete_one,
  complete_all, complete, renew, status, pool_inflight,
}
use vllm_priority_gateway.Coordination.Local.Admission.Alive.{
  Alive, Untouched-Alive, grant-Alive, reject-Alive, make_receipt_room-Alive, new_ledger-Alive,
  expire-Alive, settle-Alive, renew_all-Alive,
}
use vllm_priority_gateway.Coordination.Local.Admission.Calls.{Recorded, admit_new-Recorded}
use vllm_priority_gateway.Coordination.Local.Admission.History.{
  Call, acquires, renews, completes, asks_status, asks_inflight, observes, step, run,
  run-new_Accounts,
}

module _ {F : Type 0} ⦃fl : Float F⦄ where
  complete_one-Alive :
      (now : ℕ) (item : LeaseCompletion) (c : AdmissionCoordinator F)
      → Alive c.ledger
      → Alive (complete_one now item c).0.ledger
  unfolding complete_one
  complete_one-Alive now item c a =
      elim (Option-cases (lookup item.lease.lease_id c.ledger.receipts)) [
        | inl e ↦ rw (e, complete_one) a
        | inr (r, e) ↦ rw (e, complete_one) (known r)
      ]
    where
      known : (r : AdmissionReceipt) → Alive (complete_known now item r c).0.ledger
      known r = elim (Option-cases r.decision.lease) [
        | inl e ↦ rw (e, complete_known) a
        | inr (lease, e) ↦
            rw (e, complete_known)
              (if_keeps (λ (x : AdmissionCoordinator F × CompleteResult). Alive x.0.ledger)
                r.completed (λ _. a) (λ _. settle-Alive now item.lease.lease_id r c.ledger a))
      ]

  complete_all-Alive :
      (now : ℕ) (items : List LeaseCompletion) (c : AdmissionCoordinator F)
      → Alive c.ledger
      → Alive (complete_all now items c).0.ledger
  unfolding complete_all
  complete_all-Alive now [] c a = a
  complete_all-Alive now (item ∷ items) c a =
      complete_all-Alive now items (complete_one now item c).0 (complete_one-Alive now item c a)

module _ {F : Type 0} ⦃fl : Float F⦄ (fingerprint : AdmissionRequest → ℕ) where
  Recorded-Alive :
      (now : ℕ) (req : AdmissionRequest) (l : Ledger)
      (r : AdmissionCoordinator F × Option AdmissionDecision)
      → Recorded fingerprint now req l r
      → Alive l
      → Alive r.0.ledger
  Recorded-Alive now req l r (inl (e, _)) a =
      subst Alive (sym e) (grant-Alive now (fingerprint req) req l a)
  Recorded-Alive now req l r (inr (d, _, e, _)) a =
      subst Alive (sym e) (reject-Alive now (fingerprint req) req d l a)

  acquire-Alive :
      (ended : Bool) (now : ℕ) (req : AdmissionRequest) (c : AdmissionCoordinator F)
      → Alive c.ledger
      → Alive (acquire fingerprint ended now req c).0.ledger
  unfolding acquire
  acquire-Alive ended now req c a =
      let l = expire now c.ledger in
      let expired : Alive l = expire-Alive now c.ledger a in
      let made : Alive (make_receipt_room l).0 = make_receipt_room-Alive l expired in
      let Kept : AdmissionCoordinator F × Option AdmissionDecision → Type 0 =
        λ r. Alive r.0.ledger in
      elim (Option-cases (lookup req.lease_id l.receipts)) [
        | inr (old, e) ↦ rw (e, acquire) (if_keeps Kept ended (λ _. a) (λ _. expired))
        | inl e ↦
            let c' : AdmissionCoordinator F = record c { ledger = (make_receipt_room l).0 } in
            rw (e, acquire)
              (if_keeps Kept ended (λ _. a)
                (λ _.
                  if_keeps Kept (make_receipt_room l).1
                    (λ _.
                      Recorded-Alive now req (make_receipt_room l).0
                        (admit_new fingerprint now req c')
                        (admit_new-Recorded fingerprint now req c') made)
                    (λ _. made)))
      ]

  step-Alive :
      (c : AdmissionCoordinator F) (x : Call) → Alive c.ledger → Alive (step fingerprint c x).ledger
  unfolding step renew complete status pool_inflight has_terminal_receipt
  step-Alive c (acquires ended now req) a = acquire-Alive ended now req c a
  step-Alive c (renews ended now wants) a =
      let done = renew_all-Alive now wants (expire now c.ledger) (expire-Alive now c.ledger a) in
      ground (arith, a, done)
  step-Alive c (completes ended now items) a =
      let done =
        complete_all-Alive now items (record c { ledger = expire now c.ledger })
          (expire-Alive now c.ledger a) in
      ground (arith, a, done)
  step-Alive c (asks_status now) a =
      let l = expire now c.ledger in
      let expired = expire-Alive now c.ledger a in
      ground (arith, expired, Untouched-Alive l (has_terminal_receipt l).0 (refl, refl) expired)
  step-Alive c (asks_inflight now pool) a = expire-Alive now c.ledger a
  step-Alive c (observes client policy) a = a

  run-Alive :
      (c : AdmissionCoordinator F) (xs : List Call)
      → Alive c.ledger
      → Alive (run fingerprint c xs).ledger
  unfolding run
  run-Alive c [] a = a
  run-Alive c (x ∷ xs) a = run-Alive (step fingerprint c x) xs (step-Alive c x a)

module _ (F : Type 0) ⦃fl : Float F⦄ (fingerprint : AdmissionRequest → ℕ) where
  -- After any history of calls on a new coordinator, whatever the order of their clocks,
  -- `PoolInflight` at `now` answers the number of the leases that it leaves to the pool, and each
  -- lease that it leaves, of any pool, has its deadline after `now`.
  pub pool_inflight_live :
      (capacity : ℕ) (xs : List Call) (now pool : ℕ)
      → let c = run {F = F} fingerprint (new_admission_coordinator capacity) xs in
        let left = (pool_inflight now pool c).0.ledger.leases in
        ((pool_inflight now pool c).1 ≡ count_if (of_pool pool) left)
        × All (λ e. now < e.1.expires_at) left
  unfolding new_admission_coordinator pool_inflight
  pool_inflight_live capacity xs now pool =
      let c = run {F = F} fingerprint (new_admission_coordinator capacity) xs in
      let accounts = run-new_Accounts F fingerprint capacity xs in
      let alive =
        run-Alive {F = F} fingerprint (new_admission_coordinator capacity) xs
          (new_ledger-Alive capacity) in
      let kept = expire-Accounts now c.ledger accounts in
      (
        kept.pools pool,
        All-lookup (λ e. now < e.1.expires_at) (expire now c.ledger).leases kept.distinct
            (expire-Timed now c.ledger alive.timed).1,
      )
