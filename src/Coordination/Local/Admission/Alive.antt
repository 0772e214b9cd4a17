-- ===== src/Coordination/Local/Admission/Alive.antt =====
-- What a call does to leases and receipts keeps the deadlines scheduled
-- (internal/coordination/local/admission.go).
use vllm_priority_gateway.Base.{
  ℕ, zero, suc, ◌≡◌, refl, sym, ap, subst, ◌∙◌, ◌⊎◌, inl, inr, Bool, true, ◌||◌, not, some, List,
  [], ◌∷◌, Memᴰ, arith, ltb, ◌==◌, length, ℤ, pos, leb_ℤ, Bool-cases, Option-cases, some-eq,
  if_keeps, add_time,
}
use vllm_priority_gateway.Base.Maps.{lookup, insert, lookup-insert, lookup-delete}
use vllm_priority_gateway.Coordination.Types.{
  AdmissionRequest, LeaseIdentity, AdmissionDecision, RenewResult,
}
use vllm_priority_gateway.Coordination.Local.ExpiryQueue.{
  ExpiryQueue, admission_lease, add, add-mem_self, add-mem, add-IsSorted, IsSorted,
}
use vllm_priority_gateway.Coordination.Local.Ledger.{
  Ledger, AdmissionReceipt, remove_lease, retire, expire, has_terminal_receipt, evict_head,
  make_room_loop, make_receipt_room, is_full, new_ledger,
}
use vllm_priority_gateway.Coordination.Local.Ledger.Deadlines.{
  Timed, lease_entry, expire-Timed, expire_before,
}
use vllm_priority_gateway.Coordination.Local.Decisions.{
  lease_of, grant, reject, renewed, own_ttl, is_active, outcome, renew_one, renew_all, settle,
}

-- Every lease has its deadline in the queue, which is sorted, and stands under its own id.
pub record Alive (l : Ledger) : Type 0 where
  pub timed : Timed l
  pub keyed :
      (id : ℕ) (lease : LeaseIdentity) → lookup id l.leases ≡ some lease → lease.lease_id ≡ id

abbrev NoMore : Ledger → Ledger → Type 0
NoMore l l' =
    (id : ℕ) (lease : LeaseIdentity)
    → lookup id l'.leases ≡ some lease
    → lookup id l.leases ≡ some lease

-- No more leases and the same queue.
same_queue : (l l' : Ledger) → l'.expiries ≡ l.expiries → NoMore l l' → Alive l → Alive l'
same_queue l l' q sub a = record {
  timed = record {
    sorted = subst IsSorted (sym q) a.timed.sorted;
    scheduled = λ id lease h.
        subst (Memᴰ (lease_entry id lease)) (sym q) (a.timed.scheduled id lease (sub id lease h));
  };
  keyed = λ id lease h. a.keyed id lease (sub id lease h);
}

-- A lease written under its id, its deadline queued with it.
write_lease :
    (l : Ledger) (id : ℕ) (lease : LeaseIdentity) (l' : Ledger)
    → lease.lease_id ≡ id
    → l'.leases ≡ insert id lease l.leases
    → l'.expiries ≡ add admission_lease id lease.expires_at l.expiries
    → Alive l
    → Alive l'
write_lease l id lease l' own e q a = record {
  timed = record {
    sorted =
        subst IsSorted (sym q)
          (add-IsSorted admission_lease id lease.expires_at l.expiries a.timed.sorted);
    scheduled = λ j other h. subst (Memᴰ (lease_entry j other)) (sym q) (elim (written j other h) [
      | inl (same, its) ↦
          subst (λ x. Memᴰ (lease_entry j x) (add admission_lease id lease.expires_at l.expiries))
            its
            (subst
              (λ i. Memᴰ (lease_entry i lease) (add admission_lease id lease.expires_at l.expiries))
              same (add-mem_self admission_lease id lease.expires_at l.expiries))
      | inr old ↦
          add-mem admission_lease id lease.expires_at l.expiries (a.timed.scheduled j other old)
    ]);
  };
  keyed = λ j other h. elim (written j other h) [
    | inl (same, its) ↦ sym (ap (λ x. x.lease_id) its) ∙ own ∙ same
    | inr old ↦ a.keyed j other old
  ];
}
  where
    written :
        (j : ℕ) (other : LeaseIdentity)
        → lookup j l'.leases ≡ some other
        → ((id ≡ j) × (lease ≡ other)) ⊎ (lookup j l.leases ≡ some other)
    written j other h =
        let h' : lookup j (insert id lease l.leases) ≡ some other = ap (lookup j) (sym e) ∙ h in
        elim (Bool-cases (id == j)) [
          | inl u ↦
              let its : some lease ≡ some other =
                ground (arith, h', u, lookup-insert id j lease l.leases) in
              inl (ground (arith, u), some-eq its)
          | inr u ↦ inr (ground (arith, h', u, lookup-insert id j lease l.leases))
        ]

remove_lease-Alive : (id : ℕ) (l : Ledger) → Alive l → Alive (remove_lease id l)
unfolding remove_lease
remove_lease-Alive id l a = elim (Option-cases (lookup id l.leases)) [
  | inl e ↦ rw (e, remove_lease) a
  | inr (lease, e) ↦
      same_queue l (remove_lease id l) (rw (e, remove_lease) refl)
        (λ j other h. ground (arith, e, h, lookup-delete id j l.leases)) a
]

pub grant-Alive :
    (now fp : ℕ) (req : AdmissionRequest) (l : Ledger) → Alive l → Alive (grant now fp req l).0
unfolding grant
grant-Alive now fp req l a =
    write_lease l req.lease_id (lease_of now req) (grant now fp req l).0 refl refl refl a

retire-Alive :
    (id : ℕ) (r : AdmissionReceipt) (now : ℕ) (l : Ledger) → Alive l → Alive (retire id r now l)
unfolding retire
retire-Alive id r now l a = same_queue l (retire id r now l) refl (λ j other h. h) a

pub reject-Alive :
    (now fp : ℕ) (req : AdmissionRequest) (d : AdmissionDecision) (l : Ledger)
    → Alive l
    → Alive (reject now fp req d l).0
unfolding reject retire
reject-Alive now fp req d l a = same_queue l (reject now fp req d l).0 refl (λ j other h. h) a

abbrev pub Untouched : Ledger → Ledger → Type 0
Untouched l l' = (l'.leases ≡ l.leases) × (l'.expiries ≡ l.expiries)

pub Untouched-Alive : (l l' : Ledger) → Untouched l l' → Alive l → Alive l'
Untouched-Alive l l' u a = same_queue l l' u.1 (λ id lease h. ap (lookup id) (sym u.0) ∙ h) a

evict_head-Untouched : (q : ExpiryQueue) (l : Ledger) → Untouched l (evict_head q l)
evict_head-Untouched [] l = (refl, refl)
evict_head-Untouched (e ∷ q) l = (refl, refl)

make_room_loop-Untouched : (fuel : ℕ) (l : Ledger) → Untouched l (make_room_loop fuel l).0
unfolding make_room_loop has_terminal_receipt
make_room_loop-Untouched zero l = (refl, refl)
make_room_loop-Untouched (suc fuel) l =
    let l' = (has_terminal_receipt l).0 in
    let rest = make_room_loop-Untouched fuel (evict_head l'.terminal_expiries l') in
    let evicted = evict_head-Untouched l'.terminal_expiries l' in
    let joined : Untouched l (make_room_loop fuel (evict_head l'.terminal_expiries l')).0 =
      (rest.0 ∙ evicted.0, rest.1 ∙ evicted.1) in
    if_keeps (λ (r : Ledger × Bool). Untouched l r.0) (is_full l)
      (λ _.
        if_keeps (λ (r : Ledger × Bool). Untouched l r.0) (has_terminal_receipt l).1 (λ _. joined)
          (λ _. (refl, refl)))
      (λ _. (refl, refl))

pub make_receipt_room-Alive : (l : Ledger) → Alive l → Alive (make_receipt_room l).0
unfolding make_receipt_room
make_receipt_room-Alive l a =
    Untouched-Alive l (make_receipt_room l).0
      (make_room_loop-Untouched (suc (length l.terminal_expiries)) l) a

pub new_ledger-Alive : (capacity : ℕ) → Alive (new_ledger capacity)
unfolding new_ledger lookup
new_ledger-Alive capacity = record {
  timed = record { sorted = tt; scheduled = λ id lease h. absurd (ground (arith, h)) };
  keyed = λ id lease h. absurd (ground (arith, h));
}

pub expire-Alive : (now : ℕ) (l : Ledger) → Alive l → Alive (expire now l)
expire-Alive now l a = record {
  timed = (expire-Timed now l a.timed).0;
  keyed = λ id lease h. a.keyed id lease (expire_before now l id lease h);
}

pub settle-Alive :
    (now id : ℕ) (r : AdmissionReceipt) (l : Ledger) → Alive l → Alive (settle now id r l).0
unfolding settle
settle-Alive now id r l a =
    retire-Alive id
      (record r {
        completed = true;
        completion = some (outcome (is_active (lookup id l.leases) r now));
      })
      now (remove_lease id l) (remove_lease-Alive id l a)

renewed-Alive :
    (now id : ℕ) (ttl : ℤ) (got : LeaseIdentity) (l : Ledger)
    → lookup id l.leases ≡ some got
    → Alive l
    → Alive (renewed now id ttl got l).0
renewed-Alive now id ttl got l e a =
    let own = a.keyed id got e in
    let lease = record got { expires_at = add_time now ttl } in
    write_lease l id lease (renewed now id ttl got l).0 own refl
      (ap (λ i. add admission_lease i lease.expires_at l.expiries) own) a

renew_one-Alive :
    (now : ℕ) (want : LeaseIdentity) (l : Ledger) → Alive l → Alive (renew_one now want l).0
unfolding renew_one
renew_one-Alive now want l a = elim (Option-cases (lookup want.lease_id l.leases)) [
  | inl e ↦ rw (e, renew_one) (remove_lease-Alive want.lease_id l a)
  | inr (got, e) ↦
      rw (e, renew_one)
        (if_keeps (λ (r : Ledger × RenewResult). Alive r.0)
          (not (got.client_id == want.client_id)
            || not (got.pool_id == want.pool_id)
            || not (ltb now got.expires_at))
          (λ t. remove_lease-Alive want.lease_id l a)
          (λ t.
            if_keeps (λ (r : Ledger × RenewResult). Alive r.0) (leb_ℤ (own_ttl got want) (pos 0))
              (λ u. a) (λ u. renewed-Alive now want.lease_id (own_ttl got want) got l e a)))
]

pub renew_all-Alive :
    (now : ℕ) (wants : List LeaseIdentity) (l : Ledger) → Alive l → Alive (renew_all now wants l).0
unfolding renew_all
renew_all-Alive now [] l a = a
renew_all-Alive now (want ∷ wants) l a =
    renew_all-Alive now wants (renew_one now want l).0 (renew_one-Alive now want l a)
