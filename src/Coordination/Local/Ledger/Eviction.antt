-- ===== src/Coordination/Local/Ledger/Eviction.antt =====
-- The eviction loop (`makeReceiptRoom`, internal/coordination/local/admission.go).
use vllm_priority_gateway.Base.{
  ℕ, zero, suc, ◌+◌, ◌≤◌, ◌<◌, ◌≡◌, refl, subst, ◌∙◌, ◌⊎◌, inl, inr, Bool, true, false, [], ◌∷◌,
  arith, length, if_keeps,
}
use vllm_priority_gateway.Base.Maps.{Map, lookup}
use vllm_priority_gateway.Coordination.Local.ExpiryQueue.{ExpiryQueue}
use vllm_priority_gateway.Coordination.Local.Ledger.{
  Ledger, AdmissionReceipt, is_terminal_head, drop_stale, has_terminal_receipt, evict_head, is_full,
  make_room_loop, make_receipt_room,
}

-- Nothing terminal is left, or the head of a queue no longer than before is.
abbrev Searched : ExpiryQueue → ExpiryQueue × Bool → Type 0
Searched q r =
    ((r.1 ≡ false) × (r.0 ≡ [])) ⊎ ((r.1 ≡ true) × (0 < length r.0) × (length r.0 ≤ length q))

drop_stale-Searched :
    (receipts : Map AdmissionReceipt) (q : ExpiryQueue) → Searched q (drop_stale receipts q)
unfolding drop_stale
drop_stale-Searched receipts [] = inl (refl, refl)
drop_stale-Searched receipts (e ∷ q) =
    let rest = drop_stale-Searched receipts q in
    if_keeps (Searched (e ∷ q)) (is_terminal_head (lookup e.id receipts) e.at)
      (λ _. inr (refl, omega arith, omega arith))
      (λ _. elim rest [ inl n ↦ inl n | inr (f, p, le) ↦ inr (f, p, omega arith) ])

evict_head_shorter :
    (q : ExpiryQueue) (l : Ledger)
    → 0 < length q
    → (length (evict_head q l).terminal_expiries + 1 ≡ length q)
      × ((evict_head q l).receipt_capacity ≡ l.receipt_capacity)
evict_head_shorter [] l h = absurd (omega arith)
evict_head_shorter (e ∷ q) l h = (omega arith, refl)

-- There is room under the capacity, or there is none and nothing that could be evicted for it.
abbrev pub Settled : ℕ → Ledger × Bool → Type 0
Settled capacity r =
    ((r.1 ≡ true) × (length r.0.receipts < capacity))
    ⊎ ((r.1 ≡ false) × (capacity ≤ length r.0.receipts) × (r.0.terminal_expiries ≡ []))

abbrev pub Decided : Ledger → Ledger × Bool → Type 0
Decided l r = (r.0.receipt_capacity ≡ l.receipt_capacity) × Settled l.receipt_capacity r

make_room_loop-Decided :
    (fuel : ℕ) (l : Ledger) → length l.terminal_expiries < fuel → Decided l (make_room_loop fuel l)
unfolding make_room_loop has_terminal_receipt
make_room_loop-Decided zero l h = absurd (omega (arith, h))
make_room_loop-Decided (suc fuel) l h =
    let found = drop_stale l.receipts l.terminal_expiries in
    let l' = (has_terminal_receipt l).0 in
    let rest : length (evict_head l'.terminal_expiries l').terminal_expiries < fuel
        → Decided (evict_head l'.terminal_expiries l')
            (make_room_loop fuel (evict_head l'.terminal_expiries l')) =
      λ k. make_room_loop-Decided fuel (evict_head l'.terminal_expiries l') k in
    if_keeps (Decided l) (is_full l)
      (λ full.
        if_keeps (Decided l) found.1 {x = make_room_loop fuel (evict_head l'.terminal_expiries l')}
          {y = (l', false)}
          (λ t. evicted rest t (drop_stale-Searched l.receipts l.terminal_expiries))
          (λ t. stuck full t (drop_stale-Searched l.receipts l.terminal_expiries)))
      (λ room. (refl, inl (refl, ground (arith, room))))
  where
    l1 : Ledger
    l1 = (has_terminal_receipt l).0

    evicted :
        (length (evict_head l1.terminal_expiries l1).terminal_expiries < fuel
          → Decided
              (evict_head l1.terminal_expiries l1)
              (make_room_loop fuel (evict_head l1.terminal_expiries l1)))
        → (drop_stale l.receipts l.terminal_expiries).1 ≡ true
        → Searched l.terminal_expiries (drop_stale l.receipts l.terminal_expiries)
        → Decided l (make_room_loop fuel (evict_head l1.terminal_expiries l1))
    evicted go t (inl (n, _)) = absurd (ground (arith, n, t))
    evicted go t (inr (_, p, le)) =
        let (shorter, same) = evict_head_shorter l1.terminal_expiries l1 p in
        let rest = go (omega (arith, h, shorter, le)) in
        (
          rest.0 ∙ same,
          subst (λ c. Settled c (make_room_loop fuel (evict_head l1.terminal_expiries l1))) same
              rest.1,
        )

    stuck :
        is_full l ≡ true
        → (drop_stale l.receipts l.terminal_expiries).1 ≡ false
        → Searched l.terminal_expiries (drop_stale l.receipts l.terminal_expiries)
        → Decided l (l1, false)
    stuck full t (inl (_, q)) = (refl, inr (refl, ground (arith, full), q))
    stuck full t (inr (f, _, _)) = absurd (ground (arith, f, t))

-- Making room either leaves room for one more receipt, or none can be made: the receipts still fill
-- the capacity and the queue of terminal ones is empty, so that the loop did not run out of rounds.
pub make_receipt_room-Decided : (l : Ledger) → Decided l (make_receipt_room l)
unfolding make_receipt_room
make_receipt_room-Decided l =
    make_room_loop-Decided (suc (length l.terminal_expiries)) l (omega arith)
