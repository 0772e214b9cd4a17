-- ===== src/Routing.antt =====
-- internal/routing/router.go: the choice of a backend. Pressures are `float64`s, through the
-- interface `Float`; the random source is a function `pick` with `pick n` below `n`, and SHA-256 is
-- a function from bytes to bytes. A map of excluded ids is a Boolean test.
pub mod Select
pub mod Affinity
use vllm_priority_gateway.Base.{
  ℕ, zero, suc, ◌+◌, ◌-◌, ◌*◌, ◌/◌, ◌%◌, ◌^◌, Bool, true, false, ◌&&◌, ◌||◌, not, Option, none,
  some, List, [], ◌∷◌, ◌++◌, ltb, leb, ◌==◌, if◌then◌else◌, length, keep, get_elem?, ℤ, pos, negsuc,
  take,
}
use vllm_priority_gateway.Base.Float.{Float, ltf, lef, is_finite}

pub record Candidate (F : Type 0) : Type 0 where
  pub backend_id : ℕ
  pub backend_enabled : Bool
  pub backend_draining : Bool
  pub pressure : F
  pub gateway_inflight : ℕ
  pub eligible : Bool

pub record Router (F : Type 0) : Type 0 where
  pub epsilon : F
  pub session_affinity_max_pressure : F
  pub pick : ℕ → ℕ

-- `ErrNoBackend`, or an index out of range.
pub data Selection (F : Type 0) : Type 0 where
  selected : Candidate F → Selection F
  no_backend : Selection F
  out_of_range : Selection F

-- `FixedSource`: Go's remainder has the sign of the dividend.
unfoldable pub fixed_source : ℤ → ℕ → ℕ
fixed_source (pos s) maximum = s % maximum
fixed_source (negsuc s) maximum = let r = suc s % maximum in if r == 0 then 0 else maximum - r

abbrev pub max_int : ℕ
max_int = 9223372036854775807

module _ {F : Type 0} ⦃fl : Float F⦄ where
  -- `NewWithSessionAffinity` with a source.
  unfoldable pub new_router : F → F → (ℕ → ℕ) → Router F
  new_router epsilon maximum pick = record {
    epsilon =
        if ltf epsilon (fl.of_int (pos 0)) || not (is_finite epsilon)
        then fl.of_int (pos 0)
        else epsilon;
    session_affinity_max_pressure =
        if lef maximum (fl.of_int (pos 0)) || not (is_finite maximum)
        then fl.of_int (pos 1)
        else maximum;
    pick = pick;
  }

  unfoldable pub is_eligible : (ℕ → Bool) → Candidate F → Bool
  is_eligible excluded c =
      c.eligible
      && c.backend_enabled
      && not c.backend_draining
      && is_finite c.pressure
      && not (excluded c.backend_id)

  unfoldable pub eligible_candidates : List (Candidate F) → (ℕ → Bool) → List (Candidate F)
  unfolding is_eligible
  eligible_candidates candidates excluded = keep (is_eligible excluded) candidates

  unfoldable pub minimum_pressure : F → List (Candidate F) → F
  minimum_pressure minimum [] = minimum
  minimum_pressure minimum (c ∷ cs) =
      minimum_pressure (if ltf c.pressure minimum then c.pressure else minimum) cs

  unfoldable pub minimum_inflight : ℕ → List (Candidate F) → ℕ
  minimum_inflight minimum [] = minimum
  minimum_inflight minimum (c ∷ cs) =
      minimum_inflight (if ltb c.gateway_inflight minimum then c.gateway_inflight else minimum) cs

  unfoldable pub pressure_ties : F → List (Candidate F) → List (Candidate F)
  unfolding minimum_pressure
  pressure_ties epsilon eligible =
      keep (λ c. lef (fl.sub c.pressure (minimum_pressure fl.infinity eligible)) epsilon) eligible

  unfoldable pub finalists : F → List (Candidate F) → List (Candidate F)
  unfolding pressure_ties minimum_inflight
  finalists epsilon eligible =
      let ties = pressure_ties epsilon eligible in
      keep (λ c. c.gateway_inflight == minimum_inflight max_int ties) ties

  abbrev indexed : Option (Candidate F) → Selection F
  indexed none = out_of_range
  indexed (some c) = selected c

  unfoldable pub select_eligible : Router F → List (Candidate F) → Selection F
  unfolding finalists
  select_eligible r [] = no_backend
  select_eligible r (c ∷ cs) =
      let last = finalists r.epsilon (c ∷ cs) in indexed (get_elem? last (r.pick (length last)))

  unfoldable pub select : Router F → List (Candidate F) → (ℕ → Bool) → Selection F
  unfolding select_eligible eligible_candidates
  select r candidates excluded = select_eligible r (eligible_candidates candidates excluded)

-- `binary.BigEndian.PutUint64`, and `Uint64` of a list of bytes.
unfoldable pub big_endian : ℕ → ℕ → List ℕ
big_endian zero value = []
big_endian (suc n) value = (value / 256 ^ n % 256) ∷ big_endian n value

unfoldable pub from_big_endian : ℕ → List ℕ → ℕ
from_big_endian acc [] = acc
from_big_endian acc (b ∷ bs) = from_big_endian (acc * 256 + b) bs

unfoldable pub rendezvous_score : (List ℕ → List ℕ) → List ℕ → ℕ → ℕ
unfolding big_endian from_big_endian
rendezvous_score sha256 key id = from_big_endian 0 (take 8 (sha256 (key ++ big_endian 8 id)))

module _ {F : Type 0} where
  -- The loop body: the candidate goes ahead on a higher score, or on the same score by a lower id.
  unfoldable pub goes_ahead : (ℕ → ℕ) → Candidate F → Candidate F → Bool
  goes_ahead score c preferred =
      ltb (score preferred.backend_id) (score c.backend_id)
      || ((score c.backend_id == score preferred.backend_id)
          && ltb c.backend_id preferred.backend_id)

  unfoldable pub preferred_from : (ℕ → ℕ) → Candidate F → List (Candidate F) → Candidate F
  unfolding goes_ahead
  preferred_from score preferred [] = preferred
  preferred_from score preferred (c ∷ cs) =
      preferred_from score (if goes_ahead score c preferred then c else preferred) cs

module _ {F : Type 0} ⦃fl : Float F⦄ (sha256 : List ℕ → List ℕ) where
  abbrev affine : Router F → List ℕ → List (Candidate F) → Selection F
  unfolding preferred_from select_eligible rendezvous_score
  affine r key [] = no_backend
  affine r key (c ∷ cs) =
      let preferred = preferred_from (rendezvous_score sha256 key) c cs in
      if ltf preferred.pressure r.session_affinity_max_pressure
      then selected preferred
      else select_eligible r (c ∷ cs)

  -- An empty key selects as without affinity.
  abbrev by_key : Router F → List ℕ → List (Candidate F) → Selection F
  unfolding affine select_eligible
  by_key r [] eligible = select_eligible r eligible
  by_key r (b ∷ bs) eligible = affine r (b ∷ bs) eligible

  unfoldable pub select_with_session_affinity :
      Router F → List (Candidate F) → (ℕ → Bool) → List ℕ → Selection F
  unfolding by_key eligible_candidates
  select_with_session_affinity r candidates excluded key =
      by_key r key (eligible_candidates candidates excluded)
