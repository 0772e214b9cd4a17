-- ===== src/Coordination/Local/Ledger/Accounts.antt =====
-- The accounts of the local coordinator: every count is the number of the leases that it stands
-- for, and behind every lease is its receipt, still open
-- (internal/coordination/local/admission.go).
use vllm_priority_gateway.Base.{
  ℕ, ◌+◌, ◌<◌, ◌≡◌, refl, sym, ap, subst, ◌∙◌, inl, inr, Bool, false, ◌&&◌, Option, none, some,
  arith, ◌==◌, if◌then◌else◌, count_if, All, Counts, is_none, Bool-cases, Option-cases,
}
use vllm_priority_gateway.Base.Maps.{
  Map, lookup, delete, Distinct, lookup-delete, Distinct-delete, count_if-delete, count_if-cong,
  All-lookup,
}
use vllm_priority_gateway.Coordination.Types.{LeaseIdentity}
use vllm_priority_gateway.Coordination.Local.ExpiryQueue.{ExpiryQueue}
use vllm_priority_gateway.Coordination.Local.Ledger.{
  Ledger, AdmissionReceipt, lower_receipt, decrement, remove_lease, drop_lease,
}

abbrev pub of_client : ℕ → ℕ × LeaseIdentity → Bool
of_client k (id, lease) = lease.client_id == k

abbrev pub of_pool : ℕ → ℕ × LeaseIdentity → Bool
of_pool k (id, lease) = lease.pool_id == k

abbrev pub of_lower : Map AdmissionReceipt → ℕ → ℕ × LeaseIdentity → Bool
of_lower receipts k (id, lease) = (lease.pool_id == k) && lower_receipt (lookup id receipts)

-- The receipt of a lease: of the same client and pool, granted, and not terminal.
abbrev pub Backed : LeaseIdentity → Option AdmissionReceipt → Type 0
Backed lease none = ⊥
Backed lease (some r) =
    (r.request.client_id ≡ lease.client_id)
    × (r.request.pool_id ≡ lease.pool_id)
    × (r.retain_until ≡ 0)
    × (r.completed ≡ false)
    × (r.expired ≡ false)
    × (is_none r.decision.lease ≡ false)

pub record Accounts (l : Ledger) : Type 0 where
  pub distinct : Distinct l.leases
  pub clients : (k : ℕ) → l.client_inflight k ≡ count_if (of_client k) l.leases
  pub pools : (k : ℕ) → l.pool_inflight k ≡ count_if (of_pool k) l.leases
  pub lower : (k : ℕ) → l.pool_lower_inflight k ≡ count_if (of_lower l.receipts k) l.leases
  pub backed :
      (id : ℕ) (lease : LeaseIdentity)
      → lookup id l.leases ≡ some lease
      → Backed lease (lookup id l.receipts)
  pub queued : All (λ e. 0 < e.at) l.terminal_expiries

-- Receipts may change as long as those of the leases stay.
pub change_receipts :
    (l : Ledger) (receipts : Map AdmissionReceipt) (q : ExpiryQueue)
    → Accounts l
    → All (λ e. 0 < e.at) q
    → ((id : ℕ) (lease : LeaseIdentity)
        → lookup id l.leases ≡ some lease
        → lookup id receipts ≡ lookup id l.receipts)
    → Accounts (record l { receipts = receipts; terminal_expiries = q })
change_receipts l receipts q a positive same = record {
  distinct = a.distinct;
  clients = a.clients;
  pools = a.pools;
  lower = λ k.
      a.lower k
      ∙ count_if-cong (of_lower l.receipts k) (of_lower receipts k) l.leases (
          All-lookup (λ e. of_lower l.receipts k e ≡ of_lower receipts k e) l.leases a.distinct
            (λ id lease h.
              ap (λ r. (lease.pool_id == k) && lower_receipt r) (sym (same id lease h))));
  backed = λ id lease h. subst (Backed lease) (sym (same id lease h)) (a.backed id lease h);
  queued = positive;
}

decrement_count :
    (m : Counts) (k j : ℕ) (n : ℕ) → n + 1 ≡ m k → decrement m k j ≡ (if j == k then n else m j)
decrement_count m k j n h = ground arith

-- The count of key `j` after the lease under `id` is dropped from a list that `m` counts.
decrement_matches :
    (m : Counts) (p : ℕ → ℕ × LeaseIdentity → Bool) (key id j : ℕ) (lease : LeaseIdentity)
    (leases : Map LeaseIdentity)
    → ((k : ℕ) → m k ≡ count_if (p k) leases)
    → ((k : ℕ) → p k (id, lease) ≡ (key == k))
    → Distinct leases
    → lookup id leases ≡ some lease
    → decrement m key j ≡ count_if (p j) (delete id leases)
decrement_matches m p key id j lease leases h test d e = ground (
  arith,
  h key,
  h j,
  test key,
  test j,
  count_if-delete (p key) id lease leases d e,
  count_if-delete (p j) id lease leases d e,
)

drop_lease-Accounts :
    (id : ℕ) (lease : LeaseIdentity) (l : Ledger)
    → lookup id l.leases ≡ some lease
    → Accounts l
    → Accounts (drop_lease id lease l)
drop_lease-Accounts id lease l e a = record {
  distinct = Distinct-delete id l.leases a.distinct;
  clients = λ j.
      decrement_matches l.client_inflight of_client lease.client_id id j lease l.leases a.clients
        (λ k. refl) a.distinct e;
  pools = λ j.
      decrement_matches l.pool_inflight of_pool lease.pool_id id j lease l.leases a.pools
        (λ k. refl) a.distinct e;
  lower = λ j. elim (Bool-cases (lower_receipt (lookup id l.receipts))) [
    | inl t ↦ rw t (
        decrement_matches l.pool_lower_inflight (of_lower l.receipts) lease.pool_id id j lease
          l.leases a.lower (λ k. ground (arith, t)) a.distinct e)
    | inr t ↦ rw t (
        ground (
          arith,
          t,
          a.lower j,
          count_if-delete (of_lower l.receipts j) id lease l.leases a.distinct e,
        ))
  ];
  backed = λ j other h. a.backed j other (ground (arith, h, lookup-delete id j l.leases));
  queued = a.queued;
}

pub remove_lease-Accounts : (id : ℕ) (l : Ledger) → Accounts l → Accounts (remove_lease id l)
unfolding remove_lease
remove_lease-Accounts id l a = elim (Option-cases (lookup id l.leases)) [
  | inl e ↦ rw (e, remove_lease) a
  | inr (lease, e) ↦ rw (e, remove_lease) (drop_lease-Accounts id lease l e a)
]
