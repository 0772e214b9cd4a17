-- ===== src/Routing/Select.antt =====
-- Which backend `Select` takes (internal/routing/router.go).
use vllm_priority_gateway.Base.{
  ℕ, ◌≤◌, ◌<◌, ◌≡◌, refl, sym, ap, subst, ◌∙◌, ◌⊎◌, inl, inr, Bool, true, false, List, [], ◌∷◌,
  Memᴰ, arith, ltb, ◌==◌, if◌then◌else◌, length, keep, All, pos, get_elem?-lt, mem-get_elem?,
  mem-keep, mem-keep_intro, mem-length, All-mem, All-intro, Bool-cases,
}
use vllm_priority_gateway.Base.Float.{Float, ltf, lef, is_finite}
use vllm_priority_gateway.Routing.{
  Candidate, Router, selected, no_backend, max_int, is_eligible, eligible_candidates,
  minimum_pressure, minimum_inflight, pressure_ties, finalists, select_eligible, select,
}

-- What `Select` relies on of IEEE 754: a finite number is below +Inf, `<` is transitive and
-- irreflexive, and a finite number less itself is 0, so at most an epsilon that is not negative.
pub record FloatLaws {F : Type 0} (fl : Float F) : Type 0 where
  pub lt_infinity : (x : F) → is_finite ⦃fl = fl⦄ x ≡ true → fl.lt x fl.infinity ≡ true
  pub lt_trans : (x y z : F) → fl.lt x y ≡ true → fl.lt y z ≡ true → fl.lt x z ≡ true
  pub lt_irrefl : (x : F) → fl.lt x x ≡ false
  pub sub_self :
      (x e : F)
      → is_finite ⦃fl = fl⦄ x ≡ true
      → is_finite ⦃fl = fl⦄ e ≡ true
      → fl.lt e (fl.of_int (pos 0)) ≡ false
      → fl.le (fl.sub x x) e ≡ true

module _ {F : Type 0} ⦃fl : Float F⦄ where
  minimum_inflight_le :
      (minimum : ℕ) (cs : List (Candidate F))
      → (minimum_inflight minimum cs ≤ minimum)
        × All (λ c. minimum_inflight minimum cs ≤ c.gateway_inflight) cs
  unfolding minimum_inflight
  minimum_inflight_le minimum [] = (omega arith, tt)
  minimum_inflight_le minimum (c ∷ cs) =
      let r =
        minimum_inflight_le (if ltb c.gateway_inflight minimum then c.gateway_inflight else minimum)
          cs in
      (below r.0 (ground arith), (below r.0 (ground arith), r.1))
    where
      below : {a b d : ℕ} → a ≤ b → b ≤ d → a ≤ d
      below h k = omega arith

  minimum_inflight_mem :
      (minimum : ℕ) (cs : List (Candidate F))
      → (minimum_inflight minimum cs ≡ minimum)
        ⊎ ((c : Candidate F) × Memᴰ c cs × (minimum_inflight minimum cs ≡ c.gateway_inflight))
  unfolding minimum_inflight
  minimum_inflight_mem minimum [] = inl refl
  minimum_inflight_mem minimum (c ∷ cs) =
      elim (minimum_inflight_mem
        (if ltb c.gateway_inflight minimum then c.gateway_inflight else minimum) cs) [
          | inr (d, m, e) ↦ inr (d, Memᴰ.tail m, e)
          | inl e ↦ elim (Bool-cases (ltb c.gateway_inflight minimum)) [
            | inl t ↦
                inr (c, Memᴰ.head refl, e ∙ ap (λ b. if b then c.gateway_inflight else minimum) t)
            | inr t ↦ inl (e ∙ ap (λ b. if b then c.gateway_inflight else minimum) t)
          ]
        ]

  -- Over finite pressures the running minimum is a pressure of the list, or what it began with.
  minimum_pressure_mem :
      (minimum : F) (cs : List (Candidate F))
      → (minimum_pressure minimum cs ≡ minimum)
        ⊎ ((c : Candidate F) × Memᴰ c cs × (minimum_pressure minimum cs ≡ c.pressure))
  unfolding minimum_pressure
  minimum_pressure_mem minimum [] = inl refl
  minimum_pressure_mem minimum (c ∷ cs) =
      elim (minimum_pressure_mem (if ltf c.pressure minimum then c.pressure else minimum) cs) [
        | inr (d, m, e) ↦ inr (d, Memᴰ.tail m, e)
        | inl e ↦ elim (Bool-cases (ltf c.pressure minimum)) [
          | inl t ↦ inr (c, Memᴰ.head refl, e ∙ ap (λ b. if b then c.pressure else minimum) t)
          | inr t ↦ inl (e ∙ ap (λ b. if b then c.pressure else minimum) t)
        ]
      ]

module _ {F : Type 0} ⦃fl : Float F⦄ where
  pub record IsBest (epsilon : F) (eligible : List (Candidate F)) (c : Candidate F) : Type 0 where
    pub member : Memᴰ c eligible
    pub least : F
    pub attained : (d : Candidate F) × Memᴰ d eligible × (least ≡ d.pressure)
    pub lowest : All (λ d. fl.lt d.pressure least ≡ false) eligible
    pub near : fl.le (fl.sub c.pressure least) epsilon ≡ true
    pub fewest :
        All
          (λ d.
            fl.le (fl.sub d.pressure least) epsilon ≡ true
            → c.gateway_inflight ≤ d.gateway_inflight)
          eligible

module _ {F : Type 0} ⦃fl : Float F⦄ (laws : FloatLaws fl) where
  abbrev Above : F → F → Type 0
  Above x m = fl.lt x m ≡ false

  -- Nothing that was not below `minimum` is below the running minimum.
  minimum_pressure_keeps :
      (minimum x : F) (cs : List (Candidate F))
      → Above x minimum
      → Above x (minimum_pressure minimum cs)
  unfolding minimum_pressure
  minimum_pressure_keeps minimum x [] h = h
  minimum_pressure_keeps minimum x (c ∷ cs) h =
      minimum_pressure_keeps (if ltf c.pressure minimum then c.pressure else minimum) x cs
        (elim (Bool-cases (ltf c.pressure minimum)) [
          | inl t ↦ rw t (elim (Bool-cases (fl.lt x c.pressure)) [
            | inl u ↦ cc (laws.lt_trans x c.pressure minimum u t)
            | inr u ↦ u
          ])
          | inr t ↦ rw t h
        ])

  minimum_pressure_lowest :
      (minimum : F) (cs : List (Candidate F))
      → All (λ c. Above c.pressure (minimum_pressure minimum cs)) cs
  unfolding minimum_pressure
  minimum_pressure_lowest minimum [] = tt
  minimum_pressure_lowest minimum (c ∷ cs) = (
    minimum_pressure_keeps (if ltf c.pressure minimum then c.pressure else minimum) c.pressure cs
        (elim (Bool-cases (ltf c.pressure minimum)) [
          | inl t ↦ rw t (laws.lt_irrefl c.pressure)
          | inr t ↦ rw t t
        ]),
    minimum_pressure_lowest (if ltf c.pressure minimum then c.pressure else minimum) cs,
  )

  -- The least pressure of a list that is not empty and finite is the pressure of one of it.
  minimum_pressure_attained :
      (c : Candidate F) (cs : List (Candidate F))
      → is_finite c.pressure ≡ true
      → (d : Candidate F) × Memᴰ d (c ∷ cs) × (minimum_pressure fl.infinity (c ∷ cs) ≡ d.pressure)
  minimum_pressure_attained c cs fin = elim (minimum_pressure_mem fl.infinity (c ∷ cs)) [
    | inr found ↦ found
    | inl e ↦ absurd (
        impossible
          (subst (λ m. fl.lt c.pressure m ≡ false) e
            (minimum_pressure_lowest fl.infinity (c ∷ cs)).0)
          (laws.lt_infinity c.pressure fin))
  ]
    where
      impossible : {b : Bool} → b ≡ false → b ≡ true → ⊥
      impossible p q = cc

  -- What the choice satisfies: it is one of the eligible ones, within epsilon of the least pressure,
  -- and none of those within epsilon has fewer requests in flight.
  module _ (epsilon : F) where
    finalist-IsBest :
        (c : Candidate F) (cs : List (Candidate F)) (x : Candidate F)
        → is_finite c.pressure ≡ true
        → Memᴰ x (finalists epsilon (c ∷ cs))
        → IsBest epsilon (c ∷ cs) x
    unfolding finalists
    finalist-IsBest c cs x fin m =
        let least = minimum_pressure fl.infinity (c ∷ cs) in
        let ties = pressure_ties epsilon (c ∷ cs) in
        let (tied, fewest) =
          mem-keep (λ d. d.gateway_inflight == minimum_inflight max_int ties) ties m in
        let (member, near) = mem-keep (λ d. lef (fl.sub d.pressure least) epsilon) (c ∷ cs) tied in
        record {
          member = member;
          least = least;
          attained = minimum_pressure_attained c cs fin;
          lowest = minimum_pressure_lowest fl.infinity (c ∷ cs);
          near = near;
          fewest = All-intro _ (c ∷ cs) (λ d dm dnear.
              let at_least =
                All-mem (λ e. minimum_inflight max_int ties ≤ e.gateway_inflight) ties
                  (minimum_inflight_le max_int ties).1
                  (mem-keep_intro (λ e. lef (fl.sub e.pressure least) epsilon) (c ∷ cs) dm dnear) in
              ground (arith, fewest, at_least));
        }

    finalists_nonempty :
        (c : Candidate F) (cs : List (Candidate F))
        → is_finite epsilon ≡ true
        → fl.lt epsilon (fl.of_int (pos 0)) ≡ false
        → All (λ d. is_finite d.pressure ≡ true) (c ∷ cs)
        → All (λ d. d.gateway_inflight ≤ max_int) (c ∷ cs)
        → 0 < length (finalists epsilon (c ∷ cs))
    unfolding finalists
    finalists_nonempty c cs fe nonneg fin small =
        let least = minimum_pressure fl.infinity (c ∷ cs) in
        let ties = pressure_ties epsilon (c ∷ cs) in
        let (d, dm, e) = minimum_pressure_attained c cs fin.0 in
        let dnear : lef (fl.sub d.pressure least) epsilon ≡ true =
          subst (λ m. fl.le (fl.sub d.pressure m) epsilon ≡ true) (sym e)
            (laws.sub_self d.pressure epsilon
              (All-mem (λ x. is_finite x.pressure ≡ true) (c ∷ cs) fin dm) fe nonneg) in
        let tied : Memᴰ d ties =
          mem-keep_intro (λ x. lef (fl.sub x.pressure least) epsilon) (c ∷ cs) dm dnear in
        let test : Candidate F → Bool = λ x. x.gateway_inflight == minimum_inflight max_int ties in
        elim (minimum_inflight_mem max_int ties) [
          | inr (f, fm, q) ↦
              mem-length (keep test ties) (mem-keep_intro test ties fm (ground (arith, q)))
          | inl q ↦ mem-length (keep test ties) (
              mem-keep_intro test ties tied (
                ground (
                  arith,
                  q,
                  All-mem (λ x. x.gateway_inflight ≤ max_int) (c ∷ cs) small dm,
                  All-mem (λ x. minimum_inflight max_int ties ≤ x.gateway_inflight) ties
                      (minimum_inflight_le max_int ties).1 tied,
                )))
        ]

  select_eligible-IsBest :
      (r : Router F) (c : Candidate F) (cs : List (Candidate F))
      → is_finite r.epsilon ≡ true
      → fl.lt r.epsilon (fl.of_int (pos 0)) ≡ false
      → ((n : ℕ) → 0 < n → r.pick n < n)
      → All (λ d. is_finite d.pressure ≡ true) (c ∷ cs)
      → All (λ d. d.gateway_inflight ≤ max_int) (c ∷ cs)
      → (x : Candidate F) × (select_eligible r (c ∷ cs) ≡ selected x) × IsBest r.epsilon (c ∷ cs) x
  unfolding select_eligible
  select_eligible-IsBest r c cs fe nonneg pick_lt fin small =
      let last = finalists r.epsilon (c ∷ cs) in
      let some_left = finalists_nonempty r.epsilon c cs fe nonneg fin small in
      let (x, e) = get_elem?-lt last (r.pick (length last)) (pick_lt (length last) some_left) in
      (
        x,
        rw e,
        finalist-IsBest r.epsilon c cs x fin.0 (mem-get_elem? last (r.pick (length last)) e),
      )

  eligible-finite :
      (excluded : ℕ → Bool) (cs : List (Candidate F))
      → All (λ d. is_finite d.pressure ≡ true) (eligible_candidates cs excluded)
  unfolding eligible_candidates
  eligible-finite excluded cs =
      All-intro _ (keep (is_eligible excluded) cs)
        (λ x m. let e = (mem-keep (is_eligible excluded) cs m).1 in ground (arith, e))

  eligible-small :
      (excluded : ℕ → Bool) (cs : List (Candidate F))
      → All (λ d. d.gateway_inflight ≤ max_int) cs
      → All (λ d. d.gateway_inflight ≤ max_int) (eligible_candidates cs excluded)
  unfolding eligible_candidates
  eligible-small excluded cs small = All-intro _ (keep (is_eligible excluded) cs) (λ x m.
      All-mem (λ d. d.gateway_inflight ≤ max_int) cs small (mem-keep (is_eligible excluded) cs m).0)

  -- With comparison and subtraction as in IEEE 754, an epsilon that is finite and not negative, a source that stays in range and counts that
  -- fit an `int`, `Select` never runs out of range: it refuses when no candidate is eligible, and
  -- otherwise takes a candidate that is eligible and not excluded, whose pressure is within epsilon
  -- of the least eligible pressure, and than which no eligible candidate within epsilon has fewer
  -- requests in flight.
  pub select-IsBest :
      (r : Router F) (cs : List (Candidate F)) (excluded : ℕ → Bool)
      → is_finite r.epsilon ≡ true
      → fl.lt r.epsilon (fl.of_int (pos 0)) ≡ false
      → ((n : ℕ) → 0 < n → r.pick n < n)
      → All (λ d. d.gateway_inflight ≤ max_int) cs
      → ((eligible_candidates cs excluded ≡ []) × (select r cs excluded ≡ no_backend))
        ⊎ ((x : Candidate F) × (select r cs excluded ≡ selected x)
            × Memᴰ x cs
            × (is_eligible excluded x ≡ true)
            × IsBest r.epsilon (eligible_candidates cs excluded) x)
  unfolding select eligible_candidates
  select-IsBest r cs excluded fe nonneg pick_lt small =
      choose (eligible_candidates cs excluded) refl (eligible-finite excluded cs)
        (eligible-small excluded cs small)
    where
      choose :
          (es : List (Candidate F))
          → eligible_candidates cs excluded ≡ es
          → All (λ d. is_finite d.pressure ≡ true) es
          → All (λ d. d.gateway_inflight ≤ max_int) es
          → ((es ≡ []) × (select_eligible r es ≡ no_backend))
            ⊎ ((x : Candidate F) × (select_eligible r es ≡ selected x)
                × Memᴰ x cs
                × (is_eligible excluded x ≡ true)
                × IsBest r.epsilon es x)
      choose [] e fin small = inl (refl, refl)
      choose (c ∷ es) e fin small =
          let (x, q, best) = select_eligible-IsBest r c es fe nonneg pick_lt fin small in
          let (m, t) = mem-keep (is_eligible excluded) cs (subst (Memᴰ x) (sym e) best.member) in
          inr (x, q, m, t, best)
