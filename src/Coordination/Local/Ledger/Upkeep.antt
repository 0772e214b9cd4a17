-- ===== src/Coordination/Local/Ledger/Upkeep.antt =====
-- Expiry and eviction keep the accounts (`expire`, `makeReceiptRoom`,
-- internal/coordination/local/admission.go), and the eviction loop has rounds enough.
use vllm_priority_gateway.Base.{
  ℕ, zero, suc, ◌<◌, ◌≡◌, refl, sym, subst, ◌⊎◌, inl, inr, Bool, true, false, ◌&&◌, not, Option,
  none, some, [], ◌∷◌, arith, ltb, ◌==◌, length, All, if_keeps, ◌||◌, Bool-cases, Option-cases,
}
use vllm_priority_gateway.Base.Maps.{Map, lookup, insert, delete, lookup-insert, lookup-delete}
use vllm_priority_gateway.Coordination.Types.{LeaseIdentity}
use vllm_priority_gateway.Coordination.Local.ExpiryQueue.{
  ExpiryQueue, ExpiryEntry, admission_receipt, add, All-add,
}
use vllm_priority_gateway.Coordination.Local.Ledger.{
  Ledger, AdmissionReceipt, remove_lease, retire, retention_boundary, mark_expired, expire_lease,
  expire_entry, expire_leases, expire_receipt, expire_receipts, expire, is_retained_until,
  is_terminal_head, drop_stale, has_terminal_receipt, evict_head, is_full, make_room_loop,
  make_receipt_room,
}
use vllm_priority_gateway.Coordination.Local.Ledger.Accounts.{
  Accounts, Backed, change_receipts, remove_lease-Accounts,
}

pub retention_boundary_pos : (s t : ℕ) → 0 < retention_boundary s t
unfolding retention_boundary
retention_boundary_pos s t = omega arith

pub remove_lease-receipts : (id : ℕ) (l : Ledger) → (remove_lease id l).receipts ≡ l.receipts
unfolding remove_lease
remove_lease-receipts id l = ground arith

pub lookup-remove_lease : (id : ℕ) (l : Ledger) → lookup id (remove_lease id l).leases ≡ none
unfolding remove_lease
lookup-remove_lease id l = ground (arith, lookup-delete id id l.leases)

pub retire-Accounts :
    (id : ℕ) (r : AdmissionReceipt) (now : ℕ) (l : Ledger)
    → lookup id l.leases ≡ none
    → Accounts l
    → Accounts (retire id r now l)
unfolding retire
retire-Accounts id r now l free a =
    let boundary = retention_boundary r.request.operation_started_at now in
    change_receipts l (insert id (record r { retain_until = boundary }) l.receipts)
      (add admission_receipt id boundary l.terminal_expiries) a
      (All-add (λ e. 0 < e.at) admission_receipt id boundary l.terminal_expiries
        (retention_boundary_pos r.request.operation_started_at now) a.queued)
      (λ j lease h.
        ground
          (arith, h, free, lookup-insert id j (record r { retain_until = boundary }) l.receipts))

mark_expired-Accounts :
    (now id : ℕ) (l : Ledger)
    → lookup id l.leases ≡ none
    → Accounts l
    → Accounts (mark_expired now id l)
unfolding mark_expired
mark_expired-Accounts now id l free a = elim (Option-cases (lookup id l.receipts)) [
  | inl e ↦ rw (e, mark_expired) a
  | inr (r, e) ↦
      rw (e, mark_expired)
        (if_keeps Accounts r.completed (λ t. a)
          (λ t. retire-Accounts id (record r { expired = true }) now l free a))
]

expire_lease-Accounts :
    (now : ℕ) (e : ExpiryEntry) (l : Ledger) → Accounts l → Accounts (expire_lease now e l)
unfolding expire_lease
expire_lease-Accounts now e l a = elim (Option-cases (lookup e.id l.leases)) [
  | inl h ↦ rw (h, expire_lease) a
  | inr (lease, h) ↦
      rw (h, expire_lease)
        (if_keeps Accounts (not (lease.expires_at == e.at) || ltb now lease.expires_at) (λ t. a)
          (λ t.
            mark_expired-Accounts now e.id (remove_lease e.id l) (lookup-remove_lease e.id l)
              (remove_lease-Accounts e.id l a)))
]

expire_entry_cases :
    (now : ℕ) (e : ExpiryEntry) (l : Ledger)
    → (expire_entry now e l ≡ expire_lease now e l) ⊎ (expire_entry now e l ≡ l)
unfolding expire_entry
expire_entry_cases now e l = ground arith

expire_entry-Accounts :
    (now : ℕ) (e : ExpiryEntry) (l : Ledger) → Accounts l → Accounts (expire_entry now e l)
expire_entry-Accounts now e l a = elim (expire_entry_cases now e l) [
  | inl same ↦ subst Accounts (sym same) (expire_lease-Accounts now e l a)
  | inr same ↦ subst Accounts (sym same) a
]

with_expiries : (l : Ledger) (q : ExpiryQueue) → Accounts l → Accounts (record l { expiries = q })
with_expiries l q a = record {
  distinct = a.distinct;
  clients = a.clients;
  pools = a.pools;
  lower = a.lower;
  backed = a.backed;
  queued = a.queued;
}

pub expire_leases-Accounts :
    (now : ℕ) (q : ExpiryQueue) (l : Ledger) → Accounts l → Accounts (expire_leases now q l)
unfolding expire_leases
expire_leases-Accounts now [] l a = with_expiries l [] a
expire_leases-Accounts now (e ∷ q) l a =
    let rest =
      expire_leases-Accounts now q (expire_entry now e l) (expire_entry-Accounts now e l a) in
    if_keeps Accounts (ltb now e.at) (λ t. with_expiries l (e ∷ q) a) (λ t. rest)

-- A receipt that is to be dropped at a positive instant stands behind no lease.
drop_receipt-Accounts :
    (e : ExpiryEntry) (q : ExpiryQueue) (l : Ledger)
    → 0 < e.at
    → is_retained_until (lookup e.id l.receipts) e.at ≡ true
    → All (λ x. 0 < x.at) q
    → Accounts l
    → Accounts (record l { receipts = delete e.id l.receipts; terminal_expiries = q })
drop_receipt-Accounts e q l pos t positive a =
    change_receipts l (delete e.id l.receipts) q a positive (λ j lease h.
      elim (Bool-cases (e.id == j)) [
        | inl same ↦ absurd (no_lease j lease same h)
        | inr other ↦ ground (arith, other, lookup-delete e.id j l.receipts)
      ])
  where
    open_receipt :
        (lease : LeaseIdentity) (o : Option AdmissionReceipt)
        → Backed lease o
        → is_retained_until o e.at ≡ true
        → ⊥
    open_receipt lease none b h = b
    open_receipt lease (some r) b h = ground (arith, b, h, pos)

    no_lease :
        (j : ℕ) (lease : LeaseIdentity) → (e.id == j) ≡ true → lookup j l.leases ≡ some lease → ⊥
    no_lease j lease same h =
        let q' : e.id ≡ j = ground (arith, same) in
        open_receipt lease (lookup e.id l.receipts)
          (subst (λ i. Backed lease (lookup i l.receipts)) (sym q') (a.backed j lease h)) t

pub expire_receipts-Accounts :
    (now : ℕ) (q : ExpiryQueue) (l : Ledger)
    → All (λ e. 0 < e.at) q
    → Accounts l
    → Accounts (expire_receipts now q l)
unfolding expire_receipts
expire_receipts-Accounts now [] l p a = change_receipts l l.receipts [] a tt (λ id lease h. refl)
expire_receipts-Accounts now (e ∷ q) l p a =
    let rest = expire_receipts-Accounts now q (expire_receipt now e l) p.1 dropped in
    if_keeps Accounts (ltb now e.at)
      (λ t. change_receipts l l.receipts (e ∷ q) a p (λ id lease h. refl)) (λ t. rest)
  where
    dropped : Accounts (expire_receipt now e l)
    dropped =
        if_keeps Accounts (is_retained_until (lookup e.id l.receipts) e.at && not (ltb now e.at))
          (λ t. drop_receipt-Accounts e l.terminal_expiries l p.0 (ground (arith, t)) a.queued a)
          (λ t. a)

-- Expiry at any instant keeps the accounts.
pub expire-Accounts : (now : ℕ) (l : Ledger) → Accounts l → Accounts (expire now l)
unfolding expire
expire-Accounts now l a =
    let a' = expire_leases-Accounts now l.expiries l a in
    expire_receipts-Accounts now (expire_leases now l.expiries l).terminal_expiries
      (expire_leases now l.expiries l) a'.queued a'

drop_stale_keeps :
    (receipts : Map AdmissionReceipt) (q : ExpiryQueue)
    → All (λ e. 0 < e.at) q
    → All (λ e. 0 < e.at) (drop_stale receipts q).0
unfolding drop_stale
drop_stale_keeps receipts [] p = tt
drop_stale_keeps receipts (e ∷ q) p =
    let rest = drop_stale_keeps receipts q p.1 in
    if_keeps (λ (r : ExpiryQueue × Bool). All (λ x. 0 < x.at) r.0)
      (is_terminal_head (lookup e.id receipts) e.at) (λ t. p) (λ t. rest)

pub has_terminal_receipt-Accounts : (l : Ledger) → Accounts l → Accounts (has_terminal_receipt l).0
unfolding has_terminal_receipt
has_terminal_receipt-Accounts l a =
    change_receipts l l.receipts (drop_stale l.receipts l.terminal_expiries).0 a
      (drop_stale_keeps l.receipts l.terminal_expiries a.queued) (λ id lease h. refl)

-- The head of what `drop_stale` leaves, when it finds something.
abbrev HeadTerminal : Map AdmissionReceipt → ExpiryQueue → Type 0
HeadTerminal receipts [] = ⊥
HeadTerminal receipts (e ∷ q) = is_retained_until (lookup e.id receipts) e.at ≡ true

drop_stale_head :
    (receipts : Map AdmissionReceipt) (q : ExpiryQueue)
    → (drop_stale receipts q).1 ≡ true
    → HeadTerminal receipts (drop_stale receipts q).0
unfolding drop_stale
drop_stale_head receipts [] h = cc
drop_stale_head receipts (e ∷ q) h =
    (if_keeps (λ (r : ExpiryQueue × Bool). r.1 ≡ true → HeadTerminal receipts r.0)
        (is_terminal_head (lookup e.id receipts) e.at) (λ t _. retained (lookup e.id receipts) t)
        (λ t k. drop_stale_head receipts q k))
      h
  where
    retained :
        (o : Option AdmissionReceipt)
        → is_terminal_head o e.at ≡ true
        → is_retained_until o e.at ≡ true
    retained none t = t
    retained (some r) t = ground (arith, t)

evict_head-Accounts :
    (q : ExpiryQueue) (l : Ledger)
    → HeadTerminal l.receipts q
    → All (λ e. 0 < e.at) q
    → Accounts l
    → Accounts (evict_head q l)
evict_head-Accounts [] l h p a = a
evict_head-Accounts (e ∷ q) l h p a = drop_receipt-Accounts e q l p.0 h p.1 a

-- Making room keeps the accounts, however many rounds it is given.
make_room_loop-Accounts : (fuel : ℕ) (l : Ledger) → Accounts l → Accounts (make_room_loop fuel l).0
unfolding make_room_loop
make_room_loop-Accounts zero l a = a
make_room_loop-Accounts (suc fuel) l a =
    elim (Bool-cases (drop_stale l.receipts l.terminal_expiries).1) [
      | inl t ↦
          let l' = (has_terminal_receipt l).0 in
          let a' = has_terminal_receipt-Accounts l a in
          let evicted =
            evict_head-Accounts l'.terminal_expiries l'
              (drop_stale_head l.receipts l.terminal_expiries t) a'.queued a' in
          let rest = make_room_loop-Accounts fuel (evict_head l'.terminal_expiries l') evicted in
          if_keeps (λ (r : Ledger × Bool). Accounts r.0) (is_full l)
            (λ _.
              if_keeps (λ (r : Ledger × Bool). Accounts r.0) (has_terminal_receipt l).1 (λ _. rest)
                (λ _. a'))
            (λ _. a)
      | inr t ↦
          if_keeps (λ (r : Ledger × Bool). Accounts r.0) (is_full l)
            (λ _.
              if_keeps (λ (r : Ledger × Bool). Accounts r.0) (has_terminal_receipt l).1
                (λ u. absurd (contradicts t u)) (λ _. has_terminal_receipt-Accounts l a))
            (λ _. a)
    ]
  where
    contradicts : {b : Bool} → b ≡ false → b ≡ true → ⊥
    contradicts p q = cc

pub make_receipt_room-Accounts : (l : Ledger) → Accounts l → Accounts (make_receipt_room l).0
unfolding make_receipt_room
make_receipt_room-Accounts l a = make_room_loop-Accounts (suc (length l.terminal_expiries)) l a

evict_head-missing :
    (q : ExpiryQueue) (l : Ledger) (id : ℕ)
    → lookup id l.receipts ≡ none
    → lookup id (evict_head q l).receipts ≡ none
evict_head-missing [] l id h = h
evict_head-missing (e ∷ q) l id h = ground (arith, h, lookup-delete e.id id l.receipts)

make_room_loop-missing :
    (fuel : ℕ) (l : Ledger) (id : ℕ)
    → lookup id l.receipts ≡ none
    → lookup id (make_room_loop fuel l).0.receipts ≡ none
unfolding make_room_loop
make_room_loop-missing zero l id h = h
make_room_loop-missing (suc fuel) l id h =
    let l' = (has_terminal_receipt l).0 in
    let rest =
      make_room_loop-missing fuel (evict_head l'.terminal_expiries l') id
        (evict_head-missing l'.terminal_expiries l' id h) in
    if_keeps (λ (r : Ledger × Bool). lookup id r.0.receipts ≡ none) (is_full l)
      (λ _.
        if_keeps (λ (r : Ledger × Bool). lookup id r.0.receipts ≡ none) (has_terminal_receipt l).1
          (λ _. rest) (λ _. h))
      (λ _. h)

-- Making room brings back no receipt.
pub make_receipt_room-missing :
    (l : Ledger) (id : ℕ)
    → lookup id l.receipts ≡ none
    → lookup id (make_receipt_room l).0.receipts ≡ none
unfolding make_receipt_room
make_receipt_room-missing l id h = make_room_loop-missing (suc (length l.terminal_expiries)) l id h
