-- ===== src/Routing/Affinity.antt =====
-- Session affinity by rendezvous hashing (internal/routing/router.go).
use vllm_priority_gateway.Base.{
  ℕ, ◌≤◌, ◌<◌, ◌≡◌, refl, sym, ap, ◌∙◌, ◌⊎◌, inl, inr, Bool, true, List, [], ◌∷◌, Memᴰ, arith,
  if◌then◌else◌, All, All-mem, All-intro, Bool-cases,
}
use vllm_priority_gateway.Base.Float.{Float, ltf}
use vllm_priority_gateway.Routing.{
  Candidate, Router, selected, goes_ahead, preferred_from, eligible_candidates, rendezvous_score,
  select_with_session_affinity, by_key,
}

module _ {F : Type 0} (score : ℕ → ℕ) where
  -- `c` stands no better than `p`: a lower score, or the same score and no lower id.
  abbrev pub NoBetter : Candidate F → Candidate F → Type 0
  NoBetter p c =
      (score c.backend_id < score p.backend_id)
      ⊎ ((score c.backend_id ≡ score p.backend_id) × (p.backend_id ≤ c.backend_id))

  ahead_of_both :
      (c p : Candidate F)
      → NoBetter (if goes_ahead score c p then c else p) p
        × NoBetter (if goes_ahead score c p then c else p) c
  unfolding goes_ahead
  ahead_of_both c p = ground arith

  NoBetter-trans : (a b c : Candidate F) → NoBetter a b → NoBetter b c → NoBetter a c
  NoBetter-trans a b c h k = ground arith

  preferred_from_best :
      (p : Candidate F) (cs : List (Candidate F))
      → NoBetter (preferred_from score p cs) p × All (NoBetter (preferred_from score p cs)) cs
  unfolding preferred_from
  preferred_from_best p [] = (inr (refl, omega arith), tt)
  preferred_from_best p (c ∷ cs) =
      let q = if goes_ahead score c p then c else p in
      let r = preferred_from_best q cs in
      let both = ahead_of_both c p in
      (
        NoBetter-trans (preferred_from score q cs) q p r.0 both.0,
        (NoBetter-trans (preferred_from score q cs) q c r.0 both.1, r.1),
      )

  preferred_from-mem :
      (p : Candidate F) (cs : List (Candidate F)) → Memᴰ (preferred_from score p cs) (p ∷ cs)
  unfolding preferred_from
  preferred_from-mem p [] = Memᴰ.head refl
  preferred_from-mem p (c ∷ cs) =
      place (preferred_from-mem (if goes_ahead score c p then c else p) cs)
        (elim (Bool-cases (goes_ahead score c p)) [
          | inl e ↦ inl (ap (λ b. if b then c else p) e)
          | inr e ↦ inr (ap (λ b. if b then c else p) e)
        ])
    where
      place : {x q : Candidate F} → Memᴰ x (q ∷ cs) → (q ≡ c) ⊎ (q ≡ p) → Memᴰ x (p ∷ c ∷ cs)
      place (Memᴰ.head h) (inl e) = Memᴰ.tail (Memᴰ.head (h ∙ e))
      place (Memᴰ.head h) (inr e) = Memᴰ.head (h ∙ e)
      place (Memᴰ.tail m) w = Memᴰ.tail (Memᴰ.tail m)

  NoBetter-antisym : (a b : Candidate F) → NoBetter a b → NoBetter b a → a.backend_id ≡ b.backend_id
  NoBetter-antisym a b h k = ground arith

  -- Only the backends count: neither pressure nor load is looked at.
  NoBetter-same_backends :
      (p q c d : Candidate F)
      → q.backend_id ≡ p.backend_id
      → d.backend_id ≡ c.backend_id
      → NoBetter p d
      → NoBetter q c
  NoBetter-same_backends p q c d e k h = rw e (rw (sym k) h)

  -- The loop finds a candidate that nothing beats, wherever it stands in the list.
  preferred_from_unique :
      (p c : Candidate F) (cs : List (Candidate F))
      → ((x y : Candidate F)
          → Memᴰ x (c ∷ cs)
          → Memᴰ y (c ∷ cs)
          → x.backend_id ≡ y.backend_id
          → x ≡ y)
      → Memᴰ p (c ∷ cs)
      → All (NoBetter p) (c ∷ cs)
      → preferred_from score c cs ≡ p
  preferred_from_unique p c cs distinct m best =
      let found = preferred_from-mem c cs in
      let rest = preferred_from_best c cs in
      distinct (preferred_from score c cs) p found m (
        NoBetter-antisym (preferred_from score c cs) p
          (All-mem (NoBetter (preferred_from score c cs)) (c ∷ cs) rest m)
          (All-mem (NoBetter p) (c ∷ cs) best found))

-- No two candidates of the list are of one backend.
abbrev pub DistinctIds : {F : Type 0} → List (Candidate F) → Type 0
DistinctIds cs = (x y : Candidate _) → Memᴰ x cs → Memᴰ y cs → x.backend_id ≡ y.backend_id → x ≡ y

-- The backend of `c` is among those of `es`, where its pressure and load may have been others.
abbrev pub WasAmong : {F : Type 0} → List (Candidate F) → Candidate F → Type 0
WasAmong es c = (d : Candidate _) × Memᴰ d es × (d.backend_id ≡ c.backend_id)

module _ {F : Type 0} ⦃fl : Float F⦄ (sha256 : List ℕ → List ℕ) where
  by_key-preferred :
      (r : Router F) (b : ℕ) (bs : List ℕ) (es : List (Candidate F)) (p : Candidate F)
      → DistinctIds es
      → Memᴰ p es
      → All (NoBetter (rendezvous_score sha256 (b ∷ bs)) p) es
      → ltf p.pressure r.session_affinity_max_pressure ≡ true
      → by_key sha256 r (b ∷ bs) es ≡ selected p
  unfolding by_key
  by_key-preferred r b bs [] p d m best low = elim m [ ]
  by_key-preferred r b bs (c ∷ cs) p d m best low =
      let e = preferred_from_unique (rendezvous_score sha256 (b ∷ bs)) p c cs d m best in
      rw e (rw low)

  -- A session stays with its backend. Let no two candidates eligible in one request be of one
  -- backend, neither at first nor later, and let `p` score best for a key that is not empty, ties
  -- by the lower id, among those eligible at first. Later the candidates may come in any order,
  -- with any pressure and any number in flight, and some may have dropped out, but each that is
  -- eligible is of a backend that was eligible at first. If the backend of `p` is still eligible,
  -- as `p'`, and its pressure is below the bound both times, then the first request selects `p`
  -- and the later one `p'`.
  pub affinity_stays :
      (r : Router F) (b : ℕ) (bs : List ℕ) (cs cs' : List (Candidate F))
      (excluded excluded' : ℕ → Bool) (p p' : Candidate F)
      → DistinctIds (eligible_candidates cs excluded)
      → DistinctIds (eligible_candidates cs' excluded')
      → Memᴰ p (eligible_candidates cs excluded)
      → All (NoBetter (rendezvous_score sha256 (b ∷ bs)) p) (eligible_candidates cs excluded)
      → All (WasAmong (eligible_candidates cs excluded)) (eligible_candidates cs' excluded')
      → Memᴰ p' (eligible_candidates cs' excluded')
      → p'.backend_id ≡ p.backend_id
      → ltf p.pressure r.session_affinity_max_pressure ≡ true
      → ltf p'.pressure r.session_affinity_max_pressure ≡ true
      → (select_with_session_affinity sha256 r cs excluded (b ∷ bs) ≡ selected p)
        × (select_with_session_affinity sha256 r cs' excluded' (b ∷ bs) ≡ selected p')
  unfolding select_with_session_affinity
  affinity_stays r b bs cs cs' excluded excluded' p p' d d' m best among m' same low low' =
      let score = rendezvous_score sha256 (b ∷ bs) in
      let es = eligible_candidates cs excluded in
      let es' = eligible_candidates cs' excluded' in
      let best' : All (NoBetter score p') es' = All-intro (NoBetter score p') es' (λ c mc.
        let (e, me, k) = All-mem (WasAmong es) es' among mc in
        NoBetter-same_backends score p p' c e same k (All-mem (NoBetter score p) es best me)) in
      (by_key-preferred r b bs es p d m best low, by_key-preferred r b bs es' p' d' m' best' low')
