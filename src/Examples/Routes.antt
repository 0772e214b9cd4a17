-- ===== src/Examples/Routes.antt =====
-- Three backends of a pool (internal/routing/router.go).
use vllm_priority_gateway.Base.{
  ℕ, ◌≡◌, ◌⊎◌, refl, Bool, true, false, List, [], ◌∷◌, Memᴰ, arith, leb, inr, sym, ◌∙◌, ap,
}
use vllm_priority_gateway.Routing.{
  Candidate, Router, selected, no_backend, is_eligible, eligible_candidates, select,
  rendezvous_score, select_with_session_affinity,
}
use vllm_priority_gateway.Routing.Select.{IsBest, select-IsBest}
use vllm_priority_gateway.Routing.Affinity.{DistinctIds, affinity_stays}
use vllm_priority_gateway.Examples.Floats.{float_ℕ, float_ℕ-FloatLaws}

abbrev backend : ℕ → ℕ → ℕ → Candidate ℕ
backend id pressure inflight = record {
  backend_id = id;
  backend_enabled = true;
  backend_draining = false;
  pressure = pressure;
  gateway_inflight = inflight;
  eligible = true;
}

-- Ties within 5, affinity below 80, and the first of the ties.
abbrev router : Router ℕ
router = record { epsilon = 5; session_affinity_max_pressure = 80; pick = λ n. 0 }

abbrev backends : List (Candidate ℕ)
backends = backend 1 60 4 ∷ backend 2 30 3 ∷ backend 3 33 2 ∷ []

abbrev nothing : ℕ → Bool
nothing id = false

select_third : select router backends nothing ≡ selected (backend 3 33 2)
unfolding select
select_third = refl

select-IsBest_example :
    ((eligible_candidates backends nothing ≡ []) × (select router backends nothing ≡ no_backend))
    ⊎ ((x : Candidate ℕ) × (select router backends nothing ≡ selected x)
        × Memᴰ x backends
        × (is_eligible nothing x ≡ true)
        × IsBest 5 (eligible_candidates backends nothing) x)
select-IsBest_example =
    select-IsBest float_ℕ-FloatLaws router backends nothing refl refl (λ n h. h)
      (omega arith, (omega arith, (omega arith, tt)))

-- A function in the place of SHA-256.
abbrev digest : List ℕ → List ℕ
digest bytes = bytes

abbrev first : Candidate ℕ
first = backend 1 60 4

abbrev second : Candidate ℕ
second = backend 2 30 3

abbrev without_second : ℕ → Bool
without_second id = leb 2 id

two_distinct : DistinctIds (first ∷ second ∷ [])
two_distinct x y (Memᴰ.head p) (Memᴰ.head q) e = p ∙ sym q
two_distinct x y (Memᴰ.head p) (Memᴰ.tail (Memᴰ.head q)) e =
    absurd (omega (arith, ap (λ c. c.backend_id) p, ap (λ c. c.backend_id) q, e))
two_distinct x y (Memᴰ.tail (Memᴰ.head p)) (Memᴰ.head q) e =
    absurd (omega (arith, ap (λ c. c.backend_id) p, ap (λ c. c.backend_id) q, e))
two_distinct x y (Memᴰ.tail (Memᴰ.head p)) (Memᴰ.tail (Memᴰ.head q)) e = p ∙ sym q
two_distinct x y (Memᴰ.tail (Memᴰ.tail m)) n e = elim m [ ]
two_distinct x y (Memᴰ.head p) (Memᴰ.tail (Memᴰ.tail m)) e = elim m [ ]
two_distinct x y (Memᴰ.tail (Memᴰ.head p)) (Memᴰ.tail (Memᴰ.tail m)) e = elim m [ ]

-- Later the first backend has more load, and the second drops out.
abbrev first_later : Candidate ℕ
first_later = backend 1 70 9

first_alone : DistinctIds (first_later ∷ [])
first_alone x y (Memᴰ.head p) (Memᴰ.head q) e = p ∙ sym q
first_alone x y (Memᴰ.head p) (Memᴰ.tail m) e = elim m [ ]
first_alone x y (Memᴰ.tail m) n e = elim m [ ]

-- The keys of both differ in the last of the bytes hashed, past the eight that are read, so the
-- lower id wins.
affinity_stays_example :
    (select_with_session_affinity digest router (first ∷ second ∷ []) nothing (7 ∷ [])
      ≡ selected first)
    × (select_with_session_affinity digest router
          (second ∷ first_later ∷ [])
          without_second
          (7 ∷ [])
        ≡ selected first_later)
unfolding eligible_candidates rendezvous_score
affinity_stays_example =
    affinity_stays digest router 7 [] (first ∷ second ∷ []) (second ∷ first_later ∷ []) nothing
      without_second first first_later two_distinct first_alone (Memᴰ.head refl)
      (inr (refl, omega arith), (inr (refl, omega arith), tt)) ((first, Memᴰ.head refl, refl), tt)
      (Memᴰ.head refl) refl refl refl
