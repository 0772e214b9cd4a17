-- ===== src/Coordination/Local/Ledger/Deadlines.antt =====
-- Leases end by their deadlines, and not before (`expire`, internal/coordination/local/admission.go).
use native.Mathlib.Nat.{le_refl}
use vllm_priority_gateway.Base.{
  ℕ, ◌≤◌, ◌<◌, ◌≡◌, refl, sym, ap, subst, ◌∙◌, ◌≢◌, ◌⊎◌, inl, inr, false, ◌||◌, not, Option, none,
  some, [], ◌∷◌, Memᴰ, arith, ltb, ◌==◌, All-mem, Bool-cases, Option-cases, some-eq, if_keeps,
  ltb→lt,
}
use vllm_priority_gateway.Base.Maps.{Map, lookup, lookup-delete}
use vllm_priority_gateway.Coordination.Types.{LeaseIdentity}
use vllm_priority_gateway.Coordination.Local.ExpiryQueue.{
  ExpiryQueue, ExpiryEntry, admission_lease, IsSorted,
}
use vllm_priority_gateway.Coordination.Local.Ledger.Upkeep.{lookup-remove_lease}
use vllm_priority_gateway.Coordination.Local.Ledger.{
  Ledger, remove_lease, mark_expired, expire_lease, expire_entry, expire_leases, expire_receipt,
  expire_receipts, expire,
}

remove_lease_other :
    (id j : ℕ) (l : Ledger) → id ≢ j → lookup j (remove_lease id l).leases ≡ lookup j l.leases
unfolding remove_lease
remove_lease_other id j l h = ground (arith, lookup-delete id j l.leases)

mark_expired-leases : (now id : ℕ) (l : Ledger) → (mark_expired now id l).leases ≡ l.leases
unfolding mark_expired
mark_expired-leases now id l = ground arith

-- What a lease entry does to the leases.
pub expire_lease-leases :
    (now : ℕ) (e : ExpiryEntry) (l : Ledger)
    → ((expire_lease now e l).leases ≡ l.leases)
      ⊎ ((lease : LeaseIdentity) × (lookup e.id l.leases ≡ some lease)
          × (lease.expires_at ≡ e.at)
          × (lease.expires_at ≤ now)
          × ((expire_lease now e l).leases ≡ (remove_lease e.id l).leases))
unfolding expire_lease
expire_lease-leases now e l = elim (Option-cases (lookup e.id l.leases)) [
  | inl h ↦ inl (rw (h, expire_lease) refl)
  | inr (lease, h) ↦
      elim (Bool-cases (not (lease.expires_at == e.at) || ltb now lease.expires_at)) [
        | inl t ↦ inl (rw (h, expire_lease) (rw t refl))
        | inr t ↦ inr (
          lease,
          h,
          ground (arith, t),
          ground (arith, t),
          rw (h, expire_lease) (rw t (mark_expired-leases now e.id (remove_lease e.id l))),
        )
      ]
]

abbrev pub lease_entry : ℕ → LeaseIdentity → ExpiryEntry
lease_entry id lease = record { at = lease.expires_at; id = id; kind = admission_lease }

-- Every lease has its deadline in the queue.
abbrev pub Scheduled : ExpiryQueue → Map LeaseIdentity → Type 0
Scheduled q leases =
    (id : ℕ) (lease : LeaseIdentity) → lookup id leases ≡ some lease → Memᴰ (lease_entry id lease) q

pub expire_entry_cases :
    (now : ℕ) (e : ExpiryEntry) (l : Ledger)
    → ((expire_entry now e l ≡ expire_lease now e l) × (e.kind ≡ admission_lease))
      ⊎ ((expire_entry now e l ≡ l) × (e.kind ≢ admission_lease))
unfolding expire_entry
expire_entry_cases now e l = ground arith

-- A lease that is still there after an entry was there before it.
pub expire_entry_before :
    (now : ℕ) (e : ExpiryEntry) (l : Ledger) (id : ℕ) (lease : LeaseIdentity)
    → lookup id (expire_entry now e l).leases ≡ some lease
    → lookup id l.leases ≡ some lease
expire_entry_before now e l id lease h = elim (expire_entry_cases now e l) [
  | inr (same, _) ↦ ap (λ x. lookup id x.leases) (sym same) ∙ h
  | inl (same, _) ↦
      let h' : lookup id (expire_lease now e l).leases ≡ some lease =
        ap (λ x. lookup id x.leases) (sym same) ∙ h in
      elim (expire_lease-leases now e l) [
        | inl q ↦ ap (lookup id) (sym q) ∙ h'
        | inr (gone, _, _, _, q) ↦
            let left : lookup id (remove_lease e.id l).leases ≡ some lease =
              ap (lookup id) (sym q) ∙ h' in
            elim (Bool-cases (e.id == id)) [
              | inl t ↦
                  let own : e.id ≡ id = ground (arith, t) in
                  absurd (
                    clash left (
                      subst (λ i. lookup i (remove_lease e.id l).leases ≡ none) own
                        (lookup-remove_lease e.id l)))
              | inr t ↦ sym (remove_lease_other e.id id l (ground (arith, t))) ∙ left
            ]
      ]
]
  where
    clash : {o : Option LeaseIdentity} → o ≡ some lease → o ≡ none → ⊥
    clash p q = cc

-- A lease whose deadline is still to come outlives every entry.
pub expire_entry_keeps :
    (now : ℕ) (e : ExpiryEntry) (l : Ledger) (id : ℕ) (lease : LeaseIdentity)
    → lookup id l.leases ≡ some lease
    → now < lease.expires_at
    → lookup id (expire_entry now e l).leases ≡ some lease
expire_entry_keeps now e l id lease h live = elim (expire_entry_cases now e l) [
  | inr (same, _) ↦ ap (λ x. lookup id x.leases) same ∙ h
  | inl (same, _) ↦ ap (λ x. lookup id x.leases) same ∙ elim (expire_lease-leases now e l) [
    | inl q ↦ ap (lookup id) q ∙ h
    | inr (gone, found, _, over, q) ↦ elim (Bool-cases (e.id == id)) [
      | inl t ↦
          let own : e.id ≡ id = ground (arith, t) in
          let both : gone ≡ lease = some-eq (sym found ∙ ap (λ i. lookup i l.leases) own ∙ h) in
          absurd (omega (arith, ap (λ x. x.expires_at) both))
      | inr t ↦ ap (lookup id) q ∙ remove_lease_other e.id id l (ground (arith, t)) ∙ h
    ]
  ]
]

-- The entry of a lease that is due takes the lease away.
expire_own_entry :
    (now id : ℕ) (lease : LeaseIdentity) (l : Ledger)
    → lookup id l.leases ≡ some lease
    → lease.expires_at ≤ now
    → lookup id (expire_entry now (lease_entry id lease) l).leases ≡ none
unfolding expire_entry expire_lease
expire_own_entry now id lease l h over =
    rw (h, expire_lease)
      (rw (due lease.expires_at over) (
        ap (lookup id) (mark_expired-leases now id (remove_lease id l)) ∙ lookup-remove_lease id l))
  where
    due : (n : ℕ) → n ≤ now → (not (n == n) || ltb now n) ≡ false
    due n le = ground arith

expire_entry-Scheduled :
    (now : ℕ) (e : ExpiryEntry) (q : ExpiryQueue) (l : Ledger)
    → e.at ≤ now
    → Scheduled (e ∷ q) l.leases
    → Scheduled q (expire_entry now e l).leases
expire_entry-Scheduled now e q l over s id lease h =
    let before = expire_entry_before now e l id lease h in take_tail before (s id lease before)
  where
    take_tail :
        lookup id l.leases ≡ some lease
        → Memᴰ (lease_entry id lease) (e ∷ q)
        → Memᴰ (lease_entry id lease) q
    take_tail before (Memᴰ.tail m) = m
    take_tail before (Memᴰ.head p) =
        let gone : lookup id (expire_entry now e l).leases ≡ none =
          subst (λ x. lookup id (expire_entry now x l).leases ≡ none) p
            (expire_own_entry now id lease l before (omega (arith, ap (λ x. x.at) p))) in
        absurd (clash h gone)
      where
        clash : {o : Option LeaseIdentity} → o ≡ some lease → o ≡ none → ⊥
        clash p q = cc

pub record Timed (l : Ledger) : Type 0 where
  pub sorted : IsSorted l.expiries
  pub scheduled : Scheduled l.expiries l.leases

-- After the first loop of `expire` the deadline of every lease is still to come, and in the queue.
expire_leases-Timed :
    (now : ℕ) (q : ExpiryQueue) (l : Ledger)
    → IsSorted q
    → Scheduled q l.leases
    → Timed (expire_leases now q l)
      × ((id : ℕ) (lease : LeaseIdentity)
          → lookup id (expire_leases now q l).leases ≡ some lease
          → now < lease.expires_at)
unfolding expire_leases
expire_leases-Timed now [] l sorted s =
    (record { sorted = tt; scheduled = s }, λ id lease h. absurd (none_in (s id lease h)))
  where
    none_in : {e : ExpiryEntry} → Memᴰ e [] → ⊥
    none_in m = elim m [ ]
expire_leases-Timed now (e ∷ q) l sorted s =
    let rest : e.at ≤ now
        → Timed (expire_leases now q (expire_entry now e l))
          × ((id : ℕ) (lease : LeaseIdentity)
              → lookup id (expire_leases now q (expire_entry now e l)).leases ≡ some lease
              → now < lease.expires_at) =
      λ over.
        expire_leases-Timed now q (expire_entry now e l) sorted.1
          (expire_entry-Scheduled now e q l over s) in
    if_keeps
      (λ (r : Ledger).
        Timed r
        × ((id : ℕ) (lease : LeaseIdentity)
            → lookup id r.leases ≡ some lease
            → now < lease.expires_at))
      (ltb now e.at)
      (λ t. (
        record { sorted = sorted; scheduled = s },
        λ id lease h. omega (
          arith,
          ltb→lt now e.at t,
          All-mem (λ x. e.at ≤ x.at) (e ∷ q) (le_refl e.at, sorted.0) (s id lease h),
        ),
      ))
      (λ t. rest (ground (arith, t)))

pub expire_receipts-leases :
    (now : ℕ) (q : ExpiryQueue) (l : Ledger)
    → ((expire_receipts now q l).leases ≡ l.leases)
      × ((expire_receipts now q l).expiries ≡ l.expiries)
unfolding expire_receipts
expire_receipts-leases now [] l = (refl, refl)
expire_receipts-leases now (e ∷ q) l =
    let rest = expire_receipts-leases now q (expire_receipt now e l) in ground (arith, rest)

-- After `expire` every lease has its deadline ahead and in the queue, which is sorted.
pub expire-Timed :
    (now : ℕ) (l : Ledger)
    → Timed l
    → Timed (expire now l)
      × ((id : ℕ) (lease : LeaseIdentity)
          → lookup id (expire now l).leases ≡ some lease
          → now < lease.expires_at)
unfolding expire
expire-Timed now l t =
    let l' = expire_leases now l.expiries l in
    let (timed, live) = expire_leases-Timed now l.expiries l t.sorted t.scheduled in
    let (same, queue) = expire_receipts-leases now l'.terminal_expiries l' in
    (
      record {
        sorted = subst IsSorted (sym queue) timed.sorted;
        scheduled = λ id lease h.
            subst (Memᴰ (lease_entry id lease)) (sym queue)
              (timed.scheduled id lease (ap (lookup id) (sym same) ∙ h));
      },
      λ id lease h. live id lease (ap (lookup id) (sym same) ∙ h),
    )

expire_leases_keeps :
    (now : ℕ) (q : ExpiryQueue) (l : Ledger) (id : ℕ) (lease : LeaseIdentity)
    → lookup id l.leases ≡ some lease
    → now < lease.expires_at
    → lookup id (expire_leases now q l).leases ≡ some lease
unfolding expire_leases
expire_leases_keeps now [] l id lease h live = h
expire_leases_keeps now (e ∷ q) l id lease h live =
    let rest =
      expire_leases_keeps now q (expire_entry now e l) id lease
        (expire_entry_keeps now e l id lease h live) live in
    if_keeps (λ (r : Ledger). lookup id r.leases ≡ some lease) (ltb now e.at) (λ _. h) (λ _. rest)

-- A lease whose deadline is still to come outlives `expire`.
pub expire_keeps :
    (now : ℕ) (l : Ledger) (id : ℕ) (lease : LeaseIdentity)
    → lookup id l.leases ≡ some lease
    → now < lease.expires_at
    → lookup id (expire now l).leases ≡ some lease
unfolding expire
expire_keeps now l id lease h live =
    let l' = expire_leases now l.expiries l in
    ap (lookup id) (expire_receipts-leases now l'.terminal_expiries l').0
    ∙ expire_leases_keeps now l.expiries l id lease h live

expire_leases_before :
    (now : ℕ) (q : ExpiryQueue) (l : Ledger) (id : ℕ) (lease : LeaseIdentity)
    → lookup id (expire_leases now q l).leases ≡ some lease
    → lookup id l.leases ≡ some lease
unfolding expire_leases
expire_leases_before now [] l id lease h = h
expire_leases_before now (e ∷ q) l id lease h =
    let rest : lookup id (expire_leases now q (expire_entry now e l)).leases ≡ some lease
        → lookup id l.leases ≡ some lease =
      λ k.
        expire_entry_before now e l id lease
          (expire_leases_before now q (expire_entry now e l) id lease k) in
    (if_keeps (λ (r : Ledger). lookup id r.leases ≡ some lease → lookup id l.leases ≡ some lease)
        (ltb now e.at) (λ _ k. k) (λ _. rest))
      h

-- Expiry brings no lease back.
pub expire_before :
    (now : ℕ) (l : Ledger) (id : ℕ) (lease : LeaseIdentity)
    → lookup id (expire now l).leases ≡ some lease
    → lookup id l.leases ≡ some lease
unfolding expire
expire_before now l id lease h =
    let l' = expire_leases now l.expiries l in
    expire_leases_before now l.expiries l id lease
      (ap (lookup id) (sym (expire_receipts-leases now l'.terminal_expiries l').0) ∙ h)
