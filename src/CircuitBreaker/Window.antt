-- ===== src/CircuitBreaker/Window.antt =====
-- The sliding failure window of a closed circuit (`recordFailure`, `pruneFailures`,
-- internal/circuitbreaker/breaker.go).
use vllm_priority_gateway.Base.{
  ℕ, ◌-◌, ◌≤◌, ◌<◌, ◌≡◌, refl, ap, ◌∙◌, ◌⊎◌, inl, inr, false, List, [], ◌∷◌, ◌++◌, arith, ltb, leb,
  length-keep, count_if, All, Memᴰ, if◌then◌else◌, Bool-cases,
}
use vllm_priority_gateway.Domain.{closed, opened, failure}
use vllm_priority_gateway.CircuitBreaker.{Breaker, Completion, latest_from, latest_of, complete}

abbrev pub IsMaximum : ℕ → List ℕ → Type 0
IsMaximum m xs = Memᴰ m xs × All (λ x. x ≤ m) xs

All-le_trans : {m n : ℕ} (xs : List ℕ) → m ≤ n → All (λ x. x ≤ m) xs → All (λ x. x ≤ n) xs
All-le_trans [] h a = tt
All-le_trans (x ∷ xs) h a = (omega arith, All-le_trans xs h a.1)

latest_from_bounds :
    (latest : ℕ) (fs : List ℕ)
    → (latest ≤ latest_from latest fs) × All (λ x. x ≤ latest_from latest fs) fs
unfolding latest_from
latest_from_bounds latest [] = (omega arith, tt)
latest_from_bounds latest (f ∷ fs) =
    let r = latest_from_bounds (if ltb latest f then f else latest) fs in
    (later (ground arith) r.0, (later (ground arith) r.0, r.1))
  where
    later : {a b c : ℕ} → a ≤ b → b ≤ c → a ≤ c
    later h k = omega arith

latest_from-mem :
    (latest : ℕ) (fs : List ℕ) → (latest_from latest fs ≡ latest) ⊎ Memᴰ (latest_from latest fs) fs
unfolding latest_from
latest_from-mem latest [] = inl refl
latest_from-mem latest (f ∷ fs) = elim (latest_from-mem (if ltb latest f then f else latest) fs) [
  | inl q ↦ elim (Bool-cases (ltb latest f)) [
    | inl e ↦ inr (Memᴰ.head (q ∙ ap (λ t. if t then f else latest) e))
    | inr e ↦ inl (q ∙ ap (λ t. if t then f else latest) e)
  ]
  | inr m ↦ inr (Memᴰ.tail m)
]

latest_of-IsMaximum : (f : ℕ) (fs : List ℕ) → IsMaximum (latest_of (f ∷ fs)) (f ∷ fs)
unfolding latest_of
latest_of-IsMaximum f fs = (
  elim (latest_from-mem f fs) [ inl q ↦ Memᴰ.head q | inr m ↦ Memᴰ.tail m ],
  latest_from_bounds f fs,
)

IsMaximum-append : (xs : List ℕ) (x : ℕ) → IsMaximum (latest_of (xs ++ x ∷ [])) (xs ++ x ∷ [])
IsMaximum-append [] x = latest_of-IsMaximum x []
IsMaximum-append (y ∷ ys) x = latest_of-IsMaximum y (ys ++ x ∷ [])

-- The failures of a window that ends at `m`.
abbrev pub within : ℕ → ℕ → List ℕ → ℕ
within window m fs = count_if (leb (m - window)) fs

-- A regular failure of the current generation takes the latest failure time, its own included, as
-- the end of the window: if that window holds the threshold or more failures, the circuit is open as
-- of that latest time, and otherwise it stays closed.
pub complete_opens :
    (b : Breaker) (c : Completion) (at : ℕ)
    → b.state ≡ closed
    → c.generation ≡ b.generation
    → c.probe ≡ false
    → (m : ℕ) × IsMaximum m (b.failures ++ at ∷ [])
      × (((b.options.failure_threshold ≤ within b.options.failure_window m (b.failures ++ at ∷ []))
            × ((complete c failure at b).state ≡ opened)
            × ((complete c failure at b).opened_at ≡ m))
          ⊎ ((within b.options.failure_window m (b.failures ++ at ∷ [])
                < b.options.failure_threshold)
              × ((complete c failure at b).state ≡ closed)))
unfolding complete
complete_opens b c at s g p =
    let fs = b.failures ++ at ∷ [] in
    let m = latest_of fs in
    let n = length-keep (leb (m - b.options.failure_window)) fs in
    (m, IsMaximum-append b.failures at, ground (arith, n))
