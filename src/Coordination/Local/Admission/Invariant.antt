-- ===== src/Coordination/Local/Admission/Invariant.antt =====
-- Every call keeps the accounts (internal/coordination/local/admission.go).
use vllm_priority_gateway.Base.{
  ℕ, ◌≡◌, refl, sym, ap, subst, inl, inr, true, ◌&&◌, ◌||◌, not, Option, none, some, List, [], ◌∷◌,
  arith, ltb, ◌==◌, count_if, ℤ, pos, leb_ℤ, Bool-cases, Option-cases, some-eq, if_keeps, add_time,
}
use vllm_priority_gateway.Base.Maps.{
  lookup, insert, lookup-insert, Distinct-insert, count_if-insert_new, count_if-insert_old,
  count_if-cong, All-lookup,
}
use vllm_priority_gateway.Coordination.Types.{
  AdmissionRequest, LeaseIdentity, AdmissionDecision, RenewResult,
}
use vllm_priority_gateway.Coordination.Local.Ledger.{
  Ledger, AdmissionReceipt, lower_receipt, remove_lease, new_ledger,
}
use vllm_priority_gateway.Coordination.Local.Ledger.Accounts.{
  Accounts, Backed, of_client, of_pool, of_lower, remove_lease-Accounts,
}
use vllm_priority_gateway.Coordination.Local.Ledger.Upkeep.{retire-Accounts, lookup-remove_lease}
use vllm_priority_gateway.Coordination.Local.Decisions.{
  new_receipt, granted, lease_of, grant, reject, renewed, own_ttl, renew_one, renew_all, outcome,
  is_active, settle,
}

pub new_ledger-Accounts : (capacity : ℕ) → Accounts (new_ledger capacity)
unfolding new_ledger lookup
new_ledger-Accounts capacity = record {
  distinct = tt;
  clients = λ k. refl;
  pools = λ k. refl;
  lower = λ k. refl;
  backed = λ id lease h. cc;
  queued = tt;
}

-- A lease needs its receipt, so a key with no receipt has no lease.
pub no_receipt_no_lease :
    (id : ℕ) (l : Ledger) → Accounts l → lookup id l.receipts ≡ none → lookup id l.leases ≡ none
no_receipt_no_lease id l a e = elim (Option-cases (lookup id l.leases)) [
  | inl free ↦ free
  | inr (lease, h) ↦ absurd (subst (Backed lease) e (a.backed id lease h))
]

grant_lower :
    (now fp : ℕ) (req : AdmissionRequest) (l : Ledger) (k : ℕ)
    → Accounts l
    → lookup req.lease_id l.receipts ≡ none
    → (grant now fp req l).0.pool_lower_inflight k
      ≡ count_if (of_lower (grant now fp req l).0.receipts k) (grant now fp req l).0.leases
unfolding grant
grant_lower now fp req l k a e =
    let receipt = new_receipt fp req (granted (lease_of now req)) in
    let receipts = insert req.lease_id receipt l.receipts in
    let free = no_receipt_no_lease req.lease_id l a e in
    let same = count_if-cong (of_lower l.receipts k) (of_lower receipts k) l.leases (
      All-lookup (λ x. of_lower l.receipts k x ≡ of_lower receipts k x) l.leases a.distinct
        (λ id lease h.
          let kept : lookup id l.receipts ≡ lookup id receipts =
            ground (arith, h, free, lookup-insert req.lease_id id receipt l.receipts) in
          ap (λ r. (lease.pool_id == k) && lower_receipt r) kept)) in
    ground (
      arith,
      same,
      a.lower k,
      count_if-insert_new (of_lower receipts k) req.lease_id (lease_of now req) l.leases free,
      lookup-insert req.lease_id req.lease_id receipt l.receipts,
    )

pub grant-Accounts :
    (now fp : ℕ) (req : AdmissionRequest) (l : Ledger)
    → Accounts l
    → lookup req.lease_id l.receipts ≡ none
    → Accounts (grant now fp req l).0
unfolding grant
grant-Accounts now fp req l a e =
    let receipt = new_receipt fp req (granted (lease_of now req)) in
    let lease = lease_of now req in
    let free = no_receipt_no_lease req.lease_id l a e in
    record {
      distinct = Distinct-insert req.lease_id lease l.leases a.distinct;
      clients = λ k.
          ground (
            arith,
            a.clients k,
            count_if-insert_new (of_client k) req.lease_id lease l.leases free,
          );
      pools = λ k.
          ground
            (arith, a.pools k, count_if-insert_new (of_pool k) req.lease_id lease l.leases free);
      lower = λ k. grant_lower now fp req l k a e;
      backed = λ id other h. elim (Bool-cases (req.lease_id == id)) [
        | inl t ↦
            let own : some lease ≡ some other =
              ground (arith, h, t, lookup-insert req.lease_id id lease l.leases) in
            let its : lookup id (insert req.lease_id receipt l.receipts) ≡ some receipt =
              ground (arith, t, lookup-insert req.lease_id id receipt l.receipts) in
            subst (Backed other) (sym its) (
              subst (λ x. Backed x (some receipt)) (some-eq own)
                (refl, refl, refl, refl, refl, refl))
        | inr t ↦
            let old : lookup id l.leases ≡ some other =
              ground (arith, h, t, lookup-insert req.lease_id id lease l.leases) in
            let its : lookup id (insert req.lease_id receipt l.receipts) ≡ lookup id l.receipts =
              ground (arith, t, lookup-insert req.lease_id id receipt l.receipts) in
            subst (Backed other) (sym its) (a.backed id other old)
      ];
      queued = a.queued;
    }

pub reject-Accounts :
    (now fp : ℕ) (req : AdmissionRequest) (d : AdmissionDecision) (l : Ledger)
    → Accounts l
    → lookup req.lease_id l.receipts ≡ none
    → Accounts (reject now fp req d l).0
unfolding reject
reject-Accounts now fp req d l a e =
    retire-Accounts req.lease_id (new_receipt fp req d) now l
      (no_receipt_no_lease req.lease_id l a e) a

renewed-Accounts :
    (now id : ℕ) (ttl : ℤ) (got : LeaseIdentity) (l : Ledger)
    → lookup id l.leases ≡ some got
    → Accounts l
    → Accounts (renewed now id ttl got l).0
renewed-Accounts now id ttl got l e a =
    let lease = record got { expires_at = add_time now ttl } in
    record {
      distinct = Distinct-insert id lease l.leases a.distinct;
      clients = λ k.
          omega (arith, a.clients k, count_if-insert_old (of_client k) id lease got l.leases e);
      pools =
          λ k. omega (arith, a.pools k, count_if-insert_old (of_pool k) id lease got l.leases e);
      lower = λ k.
          omega
            (arith, a.lower k, count_if-insert_old (of_lower l.receipts k) id lease got l.leases e);
      backed = λ j other h. elim (Bool-cases (id == j)) [
        | inl t ↦
            let own : some lease ≡ some other =
              ground (arith, h, t, lookup-insert id j lease l.leases) in
            let same : id ≡ j = ground (arith, t) in
            subst (λ i. Backed other (lookup i l.receipts)) same
              (subst (λ x. Backed x (lookup id l.receipts)) (some-eq own)
                (renewed_backed (lookup id l.receipts) (a.backed id got e)))
        | inr t ↦
            let old : lookup j l.leases ≡ some other =
              ground (arith, h, t, lookup-insert id j lease l.leases) in
            a.backed j other old
      ];
      queued = a.queued;
    }
  where
    renewed_backed :
        (o : Option AdmissionReceipt)
        → Backed got o
        → Backed (record got { expires_at = add_time now ttl }) o
    renewed_backed none b = b
    renewed_backed (some r) b = b

pub renew_one-Accounts :
    (now : ℕ) (want : LeaseIdentity) (l : Ledger) → Accounts l → Accounts (renew_one now want l).0
unfolding renew_one
renew_one-Accounts now want l a = elim (Option-cases (lookup want.lease_id l.leases)) [
  | inl e ↦ rw (e, renew_one) (remove_lease-Accounts want.lease_id l a)
  | inr (got, e) ↦
      rw (e, renew_one)
        (if_keeps (λ (r : Ledger × RenewResult). Accounts r.0)
          (not (got.client_id == want.client_id)
            || not (got.pool_id == want.pool_id)
            || not (ltb now got.expires_at))
          (λ t. remove_lease-Accounts want.lease_id l a)
          (λ t.
            if_keeps (λ (r : Ledger × RenewResult). Accounts r.0) (leb_ℤ (own_ttl got want) (pos 0))
              (λ u. a) (λ u. renewed-Accounts now want.lease_id (own_ttl got want) got l e a)))
]

pub renew_all-Accounts :
    (now : ℕ) (wants : List LeaseIdentity) (l : Ledger)
    → Accounts l
    → Accounts (renew_all now wants l).0
unfolding renew_all
renew_all-Accounts now [] l a = a
renew_all-Accounts now (want ∷ wants) l a =
    renew_all-Accounts now wants (renew_one now want l).0 (renew_one-Accounts now want l a)

pub settle-Accounts :
    (now id : ℕ) (r : AdmissionReceipt) (l : Ledger) → Accounts l → Accounts (settle now id r l).0
unfolding settle
settle-Accounts now id r l a =
    retire-Accounts id
      (record r {
        completed = true;
        completion = some (outcome (is_active (lookup id l.leases) r now));
      })
      now (remove_lease id l) (lookup-remove_lease id l) (remove_lease-Accounts id l a)
