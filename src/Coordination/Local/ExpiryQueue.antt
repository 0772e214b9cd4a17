-- ===== src/Coordination/Local/ExpiryQueue.antt =====
-- internal/coordination/local/expiry_queue.go: a queue of deadlines over Go's `container/heap`,
-- whose order is by `at`. The queue is a list with the earliest deadline at its head, as `q[0]` of
-- the heap is; among equal deadlines, which the heap leaves in no promised order, the first added
-- stands first.
use native.Mathlib.Nat.{le_trans}
use vllm_priority_gateway.Base.{
  ℕ, ◌≤◌, refl, inl, inr, Option, none, some, List, [], ◌∷◌, arith, ltb, if◌then◌else◌, All, Memᴰ,
  Bool-cases, if_keeps, All-mono, if_keeps,
}

pub data ExpiryKind : Type 0 where
  admission_lease admission_receipt circuit_permit circuit_attempt : ExpiryKind

pub record ExpiryEntry : Type 0 where
  pub at : ℕ
  pub id : ℕ
  pub kind : ExpiryKind

abbrev pub ExpiryQueue : Type 0
ExpiryQueue = List ExpiryEntry

abbrev push : ExpiryEntry → ExpiryQueue → ExpiryQueue
push e [] = e ∷ []
push e (x ∷ xs) = if ltb e.at x.at then e ∷ x ∷ xs else x ∷ push e xs

unfoldable pub add : ExpiryKind → ℕ → ℕ → ExpiryQueue → ExpiryQueue
add kind id at q = push (record { at = at; id = id; kind = kind }) q

unfoldable pub due : ℕ → ExpiryQueue → Option (ExpiryEntry × ExpiryQueue)
due now [] = none
due now (e ∷ q) = if ltb now e.at then none else some (e, q)

unfoldable pub pop_oldest : ExpiryQueue → Option (ExpiryEntry × ExpiryQueue)
pop_oldest [] = none
pop_oldest (e ∷ q) = some (e, q)

-- The earliest deadline first.
abbrev pub IsSorted : ExpiryQueue → Type 0
IsSorted [] = Unit
IsSorted (e ∷ q) = All (λ x. e.at ≤ x.at) q × IsSorted q

pub All-push {κ} :
    (P : ExpiryEntry → Type κ) (e : ExpiryEntry) (q : ExpiryQueue)
    → P e
    → All P q
    → All P (push e q)
All-push P e [] h a = (h, tt)
All-push P e (x ∷ xs) h a = elim (Bool-cases (ltb e.at x.at)) [
  | inl t ↦ rw t (h, a)
  | inr t ↦ rw t (a.0, All-push P e xs h a.1)
]

push-IsSorted : (e : ExpiryEntry) (q : ExpiryQueue) → IsSorted q → IsSorted (push e q)
push-IsSorted e [] s = (tt, tt)
push-IsSorted e (x ∷ xs) s = elim (Bool-cases (ltb e.at x.at)) [
  | inl t ↦
      let lt : e.at ≤ x.at = ground (arith, t) in
      rw t ((lt, All-mono xs (λ y (h : x.at ≤ y.at). le_trans lt h) s.0), s)
  | inr t ↦ rw t (All-push (λ y. x.at ≤ y.at) e xs (ground (arith, t)) s.0, push-IsSorted e xs s.1)
]

pub add-IsSorted :
    (kind : ExpiryKind) (id at : ℕ) (q : ExpiryQueue) → IsSorted q → IsSorted (add kind id at q)
unfolding add
add-IsSorted kind id at q s = push-IsSorted (record { at = at; id = id; kind = kind }) q s

pub All-add {κ} :
    (P : ExpiryEntry → Type κ) (kind : ExpiryKind) (id at : ℕ) (q : ExpiryQueue)
    → P (record { at = at; id = id; kind = kind })
    → All P q
    → All P (add kind id at q)
unfolding add
All-add P kind id at q h a = All-push P (record { at = at; id = id; kind = kind }) q h a

push-mem_self : (e : ExpiryEntry) (q : ExpiryQueue) → Memᴰ e (push e q)
push-mem_self e [] = Memᴰ.head refl
push-mem_self e (x ∷ xs) =
    let rest = push-mem_self e xs in
    if_keeps (Memᴰ e) (ltb e.at x.at) (λ _. Memᴰ.head refl) (λ _. Memᴰ.tail rest)

push-mem : (e y : ExpiryEntry) (q : ExpiryQueue) → Memᴰ y q → Memᴰ y (push e q)
push-mem e y [] m = elim m [ ]
push-mem e y (x ∷ xs) (Memᴰ.head p) =
    if_keeps (Memᴰ y) (ltb e.at x.at) (λ _. Memᴰ.tail (Memᴰ.head p)) (λ _. Memᴰ.head p)
push-mem e y (x ∷ xs) (Memᴰ.tail m) =
    let rest = push-mem e y xs m in
    if_keeps (Memᴰ y) (ltb e.at x.at) (λ _. Memᴰ.tail (Memᴰ.tail m)) (λ _. Memᴰ.tail rest)

pub add-mem_self :
    (kind : ExpiryKind) (id at : ℕ) (q : ExpiryQueue)
    → Memᴰ (record { at = at; id = id; kind = kind }) (add kind id at q)
unfolding add
add-mem_self kind id at q = push-mem_self (record { at = at; id = id; kind = kind }) q

pub add-mem :
    (kind : ExpiryKind) (id at : ℕ) (q : ExpiryQueue) {y : ExpiryEntry}
    → Memᴰ y q
    → Memᴰ y (add kind id at q)
unfolding add
add-mem kind id at q {y} m = push-mem (record { at = at; id = id; kind = kind }) y q m
