-- ===== src/Admission/Limiter/History.antt =====
-- The limiter over any history of calls (internal/admission/limiter.go).
use mathlib.Core.List.{append-nil}
use vllm_priority_gateway.Base.{
  ℕ, ◌+◌, ◌≤◌, ◌≡◌, refl, sym, inl, inr, Bool, ◌&&◌, not, Option, none, some, List, [], ◌∷◌, ◌++◌,
  arith, ◌==◌, if◌then◌else◌, ℤ, pos, ◌≤ℤ◌, Counts, get_elem?, set, count_if, count_if-append,
  count_if-set, Option-cases, All, count_if-member,
}
use vllm_priority_gateway.Admission.Limiter.{Lease, acquire, release}

-- The limiter and the leases that it has handed out.
pub record System : Type 0 where
  pub inflight : Counts
  pub leases : List Lease

pub data Call : Type 0 where
  acquires : ℕ → ℤ → Call
  releases : ℕ → Call

abbrev handed_out : Option Lease → List Lease → List Lease
handed_out none ls = ls
handed_out (some l) ls = ls ++ l ∷ []

unfoldable pub step : System → Call → System
step s (acquires client limit) =
    let (m, l) = acquire s.inflight client limit in
    record { inflight = m; leases = handed_out l s.leases }
step s (releases i) = elim (get_elem? s.leases i) [
  | none ↦ s
  | some l ↦
      let (m, l') = release s.inflight l in record { inflight = m; leases = set s.leases i l' }
]

unfoldable pub run : System → List Call → System
run s [] = s
run s (c ∷ cs) = run (step s c) cs

unfoldable pub start : System
start = record { inflight = λ k. 0; leases = [] }

-- A lease of client `k` that is not released yet.
abbrev pub holds : ℕ → Lease → Bool
holds k l = not l.done && (l.client_id == k)

abbrev pub held : ℕ → System → ℕ
held k s = count_if (holds k) s.leases

-- Every call for client `k` asks within the bound.
abbrev pub WithinBound : ℕ → ℕ → Call → Type 0
WithinBound k n (acquires client limit) = client ≡ k → limit ≤ℤ pos n
WithinBound k n (releases i) = Unit

abbrev Counted : System → Type 0
Counted s = (k : ℕ) → s.inflight k ≡ held k s

acquire-count :
    (m : Counts) (client k : ℕ) (limit : ℤ)
    → (acquire m client limit).0 k
      ≡ m k + count_if (holds k) (handed_out (acquire m client limit).1 [])
unfolding acquire
acquire-count m client k limit = ground arith

acquire-bound :
    (m : Counts) (client k n : ℕ) (limit : ℤ)
    → (client ≡ k → limit ≤ℤ pos n)
    → m k ≤ n
    → (acquire m client limit).0 k ≤ n
unfolding acquire
acquire-bound m client k n limit h b = ground arith

release-count :
    (m : Counts) (l : Lease) (k : ℕ)
    → (if holds l.client_id l then 1 else 0) ≤ m l.client_id
    → ((release m l).0 k + (if holds k l then 1 else 0)
        ≡ m k + (if holds k (release m l).1 then 1 else 0))
unfolding release
release-count m l k h = ground arith

release-le : (m : Counts) (l : Lease) (k : ℕ) → (release m l).0 k ≤ m k
unfolding release
release-le m l k = ground arith

handed_out-append : (l : Option Lease) (ls : List Lease) → handed_out l ls ≡ ls ++ handed_out l []
handed_out-append none ls = sym (append-nil ls)
handed_out-append (some l) ls = refl

step-Counted : (s : System) (c : Call) → Counted s → Counted (step s c)
unfolding step
step-Counted s (acquires client limit) h k =
    let l = (acquire s.inflight client limit).1 in
    rw (handed_out-append l s.leases) (
      omega (
        arith,
        acquire-count s.inflight client k limit,
        h k,
        count_if-append (holds k) s.leases (handed_out l []),
      ))
step-Counted s (releases i) h k = elim (Option-cases (get_elem? s.leases i)) [
  | inl e ↦ rw (e, step) (h k)
  | inr (l, e) ↦
      let l' = (release s.inflight l).1 in
      rw (e, step)
        (omega (
          arith,
          release-count s.inflight l k
              (omega (arith, h l.client_id, count_if-member (holds l.client_id) s.leases i l e)),
          h k,
          count_if-set (holds k) s.leases i l' l e,
        ))
]

step-bound :
    (s : System) (c : Call) (k n : ℕ)
    → WithinBound k n c
    → s.inflight k ≤ n
    → (step s c).inflight k ≤ n
unfolding step
step-bound s (acquires client limit) k n w h = acquire-bound s.inflight client k n limit w h
step-bound s (releases i) k n w h = elim (Option-cases (get_elem? s.leases i)) [
  | inl e ↦ rw (e, step) h
  | inr (l, e) ↦ rw (e, step) (omega (arith, release-le s.inflight l k))
]

run-Counted : (s : System) (cs : List Call) → Counted s → Counted (run s cs)
unfolding run
run-Counted s [] h = h
run-Counted s (c ∷ cs) h = run-Counted (step s c) cs (step-Counted s c h)

run-bound :
    (s : System) (cs : List Call) (k n : ℕ)
    → All (WithinBound k n) cs
    → s.inflight k ≤ n
    → (run s cs).inflight k ≤ n
unfolding run
run-bound s [] k n w h = h
run-bound s (c ∷ cs) k n w h = run-bound (step s c) cs k n w.1 (step-bound s c k n w.0 h)

-- After any history of a new limiter, the count of a client is the number of its leases that are
-- not released, each counted once however often it is released, and if every call for that client
-- asked for a limit of at most `n`, no more than `n` of them are out.
pub run-start-held :
    (cs : List Call) (k n : ℕ)
    → All (WithinBound k n) cs
    → ((run start cs).inflight k ≡ held k (run start cs)) × (held k (run start cs) ≤ n)
unfolding start
run-start-held cs k n w =
    let counted = run-Counted start cs (λ j. refl) k in
    (counted, omega (arith, counted, run-bound start cs k n w (omega arith)))
