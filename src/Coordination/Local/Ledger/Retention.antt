-- ===== src/Coordination/Local/Ledger/Retention.antt =====
-- Receipts outlive expiry as long as they are retained (`expire`,
-- internal/coordination/local/admission.go).
use vllm_priority_gateway.Base.{
  ℕ, ◌≤◌, ◌<◌, ◌≡◌, refl, sym, ap, subst, ◌∙◌, ◌≢◌, ◌⊎◌, inl, inr, true, false, ◌&&◌, ◌||◌, not,
  Option, none, some, [], ◌∷◌, arith, ltb, ◌==◌, All, Bool-cases, Option-cases, some-eq, if_keeps,
}
use vllm_priority_gateway.Base.Maps.{lookup, delete, lookup-insert, lookup-delete}
use vllm_priority_gateway.Coordination.Types.{LeaseIdentity}
use vllm_priority_gateway.Coordination.Local.ExpiryQueue.{ExpiryQueue, ExpiryEntry}
use vllm_priority_gateway.Coordination.Local.Ledger.Accounts.{Accounts}
use vllm_priority_gateway.Coordination.Local.Ledger.Upkeep.{
  expire_leases-Accounts, remove_lease-receipts,
}
use vllm_priority_gateway.Coordination.Local.Ledger.Deadlines.{
  expire_entry_before, expire_entry_keeps, expire_entry_cases,
}
use vllm_priority_gateway.Coordination.Local.Ledger.{
  Ledger, AdmissionReceipt, remove_lease, retire, retention_boundary, mark_expired, expire_lease,
  expire_entry, expire_leases, expire_receipt, expire_receipts, expire, is_retained_until,
}

-- No lease stands under the id, or one whose deadline is still to come.
abbrev pub Spared : ℕ → ℕ → Ledger → Type 0
Spared now id l =
    (lookup id l.leases ≡ none)
    ⊎ ((lease : LeaseIdentity) × (lookup id l.leases ≡ some lease) × (now < lease.expires_at))

expire_entry-Spared :
    (now : ℕ) (e : ExpiryEntry) (l : Ledger) (id : ℕ)
    → Spared now id l
    → Spared now id (expire_entry now e l)
expire_entry-Spared now e l id (inr (lease, h, live)) =
    inr (lease, expire_entry_keeps now e l id lease h live, live)
expire_entry-Spared now e l id (inl h) =
    elim (Option-cases (lookup id (expire_entry now e l).leases)) [
      | inl gone ↦ inl gone
      | inr (lease, h') ↦ absurd (clash (expire_entry_before now e l id lease h') h)
    ]
  where
    clash : {lease : LeaseIdentity} {o : Option LeaseIdentity} → o ≡ some lease → o ≡ none → ⊥
    clash p q = cc

pub retire_other :
    (id j : ℕ) (r : AdmissionReceipt) (now : ℕ) (l : Ledger)
    → id ≢ j
    → lookup j (retire id r now l).receipts ≡ lookup j l.receipts
unfolding retire
retire_other id j r now l h =
    let kept = record r { retain_until = retention_boundary r.request.operation_started_at now } in
    ground (arith, h, lookup-insert id j kept l.receipts)

pub retire_own :
    (id : ℕ) (r : AdmissionReceipt) (now : ℕ) (l : Ledger)
    → lookup id (retire id r now l).receipts
      ≡ some (record r { retain_until = retention_boundary r.request.operation_started_at now })
unfolding retire
retire_own id r now l =
    let kept = record r { retain_until = retention_boundary r.request.operation_started_at now } in
    ground (arith, lookup-insert id id kept l.receipts)

mark_expired_other :
    (now id j : ℕ) (l : Ledger)
    → id ≢ j
    → lookup j (mark_expired now id l).receipts ≡ lookup j l.receipts
unfolding mark_expired
mark_expired_other now id j l h = elim (Option-cases (lookup id l.receipts)) [
  | inl e ↦ rw (e, mark_expired) refl
  | inr (r, e) ↦
      rw (e, mark_expired)
        (if_keeps (λ (x : Ledger). lookup j x.receipts ≡ lookup j l.receipts) r.completed
          (λ _. refl) (λ _. retire_other id j (record r { expired = true }) now l h))
]

-- The entry of a lease that is spared leaves it.
Spared-stays :
    (now : ℕ) (e : ExpiryEntry) (l : Ledger) (id : ℕ) (lease : LeaseIdentity)
    → Spared now id l
    → e.id ≡ id
    → lookup e.id l.leases ≡ some lease
    → now < lease.expires_at
Spared-stays now e l id lease (inl h) own here =
    absurd (clash here (ap (λ i. lookup i l.leases) own ∙ h))
  where
    clash : {o : Option LeaseIdentity} → o ≡ some lease → o ≡ none → ⊥
    clash p q = cc
Spared-stays now e l id lease (inr (other, h, live)) own here =
    subst (λ x. now < x.expires_at) (some-eq (sym h ∙ sym (ap (λ i. lookup i l.leases) own) ∙ here))
      live

expire_lease_receipt :
    (now : ℕ) (e : ExpiryEntry) (l : Ledger) (id : ℕ)
    → Spared now id l
    → lookup id (expire_lease now e l).receipts ≡ lookup id l.receipts
unfolding expire_lease
expire_lease_receipt now e l id s = elim (Option-cases (lookup e.id l.leases)) [
  | inl h ↦ rw (h, expire_lease) refl
  | inr (lease, h) ↦
      rw (h, expire_lease)
        (if_keeps (λ (x : Ledger). lookup id x.receipts ≡ lookup id l.receipts)
          (not (lease.expires_at == e.at) || ltb now lease.expires_at) (λ _. refl)
          (λ t. moved lease h t))
]
  where
    moved :
        (lease : LeaseIdentity)
        → lookup e.id l.leases ≡ some lease
        → (not (lease.expires_at == e.at) || ltb now lease.expires_at) ≡ false
        → lookup id (mark_expired now e.id (remove_lease e.id l)).receipts ≡ lookup id l.receipts
    moved lease h t =
        let apart : e.id ≢ id =
          λ own. let live = Spared-stays now e l id lease s own h in ground (arith, live, t) in
        mark_expired_other now e.id id (remove_lease e.id l) apart
        ∙ ap (lookup id) (remove_lease-receipts e.id l)

expire_entry_receipt :
    (now : ℕ) (e : ExpiryEntry) (l : Ledger) (id : ℕ)
    → Spared now id l
    → lookup id (expire_entry now e l).receipts ≡ lookup id l.receipts
expire_entry_receipt now e l id s = elim (expire_entry_cases now e l) [
  | inl (same, _) ↦ ap (λ x. lookup id x.receipts) same ∙ expire_lease_receipt now e l id s
  | inr (same, _) ↦ ap (λ x. lookup id x.receipts) same
]

expire_leases_receipt :
    (now : ℕ) (q : ExpiryQueue) (l : Ledger) (id : ℕ)
    → Spared now id l
    → lookup id (expire_leases now q l).receipts ≡ lookup id l.receipts
unfolding expire_leases
expire_leases_receipt now [] l id s = refl
expire_leases_receipt now (e ∷ q) l id s =
    let rest : lookup id (expire_leases now q (expire_entry now e l)).receipts
        ≡ lookup id l.receipts =
      expire_leases_receipt now q (expire_entry now e l) id (expire_entry-Spared now e l id s)
      ∙ expire_entry_receipt now e l id s in
    if_keeps (λ (x : Ledger). lookup id x.receipts ≡ lookup id l.receipts) (ltb now e.at)
      (λ _. refl) (λ _. rest)

-- A receipt that is open, or retained beyond `now`.
abbrev pub Retained : ℕ → AdmissionReceipt → Type 0
Retained now r = (r.retain_until ≡ 0) ⊎ (now < r.retain_until)

expire_receipt_keeps :
    (now : ℕ) (e : ExpiryEntry) (l : Ledger) (id : ℕ) (r : AdmissionReceipt)
    → 0 < e.at
    → e.at ≤ now
    → Retained now r
    → lookup id l.receipts ≡ some r
    → lookup id (expire_receipt now e l).receipts ≡ some r
expire_receipt_keeps now e l id r pos over kept h =
    if_keeps (λ (x : Ledger). lookup id x.receipts ≡ some r)
      (is_retained_until (lookup e.id l.receipts) e.at && not (ltb now e.at)) (λ t. spare t)
      (λ _. h)
  where
    spare :
        (is_retained_until (lookup e.id l.receipts) e.at && not (ltb now e.at)) ≡ true
        → lookup id (delete e.id l.receipts) ≡ some r
    spare t = elim (Bool-cases (e.id == id)) [
      | inr other ↦ ground (arith, other, h, lookup-delete e.id id l.receipts)
      | inl own ↦
          let same : e.id ≡ id = ground (arith, own) in
          let its : lookup e.id l.receipts ≡ some r = ap (λ i. lookup i l.receipts) same ∙ h in
          absurd (ground (arith, its, t, kept, pos, over))
    ]

expire_receipts_keeps :
    (now : ℕ) (q : ExpiryQueue) (l : Ledger) (id : ℕ) (r : AdmissionReceipt)
    → All (λ e. 0 < e.at) q
    → Retained now r
    → lookup id l.receipts ≡ some r
    → lookup id (expire_receipts now q l).receipts ≡ some r
unfolding expire_receipts
expire_receipts_keeps now [] l id r p kept h = h
expire_receipts_keeps now (e ∷ q) l id r p kept h =
    let rest : e.at ≤ now
        → lookup id (expire_receipts now q (expire_receipt now e l)).receipts ≡ some r =
      λ over.
        expire_receipts_keeps now q (expire_receipt now e l) id r p.1 kept
          (expire_receipt_keeps now e l id r p.0 over kept h) in
    if_keeps (λ (x : Ledger). lookup id x.receipts ≡ some r) (ltb now e.at) (λ _. h)
      (λ t. rest (ground (arith, t)))

-- Expiry at `now` leaves a receipt as it is, when no lease stands under its id or one whose
-- deadline is after `now`, and the receipt is open or retained beyond `now`.
pub expire_keeps_receipt :
    (now : ℕ) (l : Ledger) (id : ℕ) (r : AdmissionReceipt)
    → Accounts l
    → Spared now id l
    → Retained now r
    → lookup id l.receipts ≡ some r
    → lookup id (expire now l).receipts ≡ some r
unfolding expire
expire_keeps_receipt now l id r a s kept h =
    let l' = expire_leases now l.expiries l in
    expire_receipts_keeps now l'.terminal_expiries l' id r
      (expire_leases-Accounts now l.expiries l a).queued kept
      (expire_leases_receipt now l.expiries l id s ∙ h)
