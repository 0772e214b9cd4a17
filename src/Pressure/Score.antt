-- ===== src/Pressure/Score.antt =====
-- internal/pressure/pressure.go and ewma.go: the pressure of a backend from one sample of its
-- metrics, and the moving average of it. The weights and `math.Exp` are parameters beside the
-- operations of `Float`.
use vllm_priority_gateway.Base.{
  ℕ, ◌-◌, ◌≤◌, ◌<◌, ◌≡◌, refl, ◌⊎◌, inl, inr, Bool, true, false, ◌&&◌, ◌||◌, not, List, [], ◌∷◌,
  Option, none, some, arith, ltb, if◌then◌else◌, ℤ, pos, leb_ℤ, ap, ◌∙◌, if_keeps,
}
use vllm_priority_gateway.Base.Float.{Float, ltf, lef, is_finite}

pub record Sample (F : Type 0) : Type 0 where
  pub running : F
  pub waiting : F
  pub kv_usage : F

pub record Limits (F : Type 0) : Type 0 where
  pub queue_soft : F
  pub kv_soft : F
  pub kv_hard : F
  pub running_soft : F

-- `queueWeight`, `kvWeight` and `runningWeight`, as the compiler rounds them.
pub record Weights (F : Type 0) : Type 0 where
  pub queue : F
  pub kv : F
  pub running : F

-- `initialized` and the fields beside it.
pub record Ewma (F : Type 0) : Type 0 where
  pub window : ℤ
  pub initialized : Bool
  pub last_at : ℕ
  pub value : F

pub data LimitsError : Type 0 where
  bad_queue bad_running bad_kv : LimitsError

module _ {F : Type 0} ⦃fl : Float F⦄ where
  abbrev pub zero_f : F
  zero_f = fl.of_int (pos 0)

  abbrev pub one_f : F
  one_f = fl.of_int (pos 1)

  abbrev pub two_f : F
  two_f = fl.of_int (pos 2)

  abbrev positive_finite : F → Bool
  positive_finite x = ltf zero_f x && is_finite x

  unfoldable pub validate : Limits F → Option LimitsError
  validate l =
      if not (positive_finite l.queue_soft)
      then some bad_queue
      else if not (positive_finite l.running_soft)
      then some bad_running
      else if not (is_finite l.kv_soft)
          || not (is_finite l.kv_hard)
          || ltf l.kv_soft zero_f
          || ltf one_f l.kv_hard
          || lef l.kv_hard l.kv_soft
      then some bad_kv
      else none

  unfoldable pub clamp : F → F → F → F
  clamp value minimum maximum =
      if fl.is_nan value
      then minimum
      else if ltf value minimum
      then minimum
      else if ltf maximum value
      then maximum
      else value

  abbrev queue_part : Sample F → Limits F → F
  unfolding clamp
  queue_part s l = clamp (fl.div s.waiting l.queue_soft) zero_f two_f

  abbrev kv_part : Sample F → Limits F → F
  unfolding clamp
  kv_part s l =
      clamp (fl.div (fl.sub s.kv_usage l.kv_soft) (fl.sub l.kv_hard l.kv_soft)) zero_f two_f

  abbrev running_part : Sample F → Limits F → F
  unfolding clamp
  running_part s l = clamp (fl.div s.running l.running_soft) zero_f two_f

  unfoldable pub calculate : Weights F → Sample F → Limits F → F
  unfolding queue_part kv_part running_part
  calculate w s l =
      fl.add (fl.add (fl.mul w.queue (queue_part s l)) (fl.mul w.kv (kv_part s l)))
        (fl.mul w.running (running_part s l))

  -- `NewEWMA`
  unfoldable pub new_ewma : ℤ → Ewma F
  new_ewma window = record { window = window; initialized = false; last_at = 0; value = zero_f }

  abbrev reset : ℕ → F → Ewma F → Ewma F
  reset at value e = record e { initialized = true; last_at = at; value = value }

  -- `Add`; the value of the result is what it returns.
  unfoldable pub add_sample : (F → F) → ℕ → F → Ewma F → Ewma F
  add_sample exp at value e =
      let alpha =
        fl.sub one_f
          (exp (fl.div (fl.sub zero_f (fl.of_int (pos (at - e.last_at)))) (fl.of_int e.window))) in
      if not e.initialized
      then reset at value e
      else if not (ltb e.last_at at)
      then e
      else if leb_ℤ e.window (pos 0)
      then reset at value e
      else record e { last_at = at; value = fl.add e.value (fl.mul alpha (fl.sub value e.value)) }

-- What the score relies on of IEEE 754: comparison with 0 and 2 of what is not NaN, and that
-- rounding keeps the order of products with a weight up to 1 and of sums, of numbers that are not
-- negative.
pub record RangeLaws {F : Type 0} (fl : Float F) : Type 0 where
  pub at_least_zero :
      (x : F)
      → fl.is_nan x ≡ false
      → fl.lt x (fl.of_int (pos 0)) ≡ false
      → fl.le (fl.of_int (pos 0)) x ≡ true
  pub at_most_two :
      (x : F)
      → fl.is_nan x ≡ false
      → fl.lt (fl.of_int (pos 2)) x ≡ false
      → fl.le x (fl.of_int (pos 2)) ≡ true
  pub zero_zero : fl.le (fl.of_int (pos 0)) (fl.of_int (pos 0)) ≡ true
  pub zero_two : fl.le (fl.of_int (pos 0)) (fl.of_int (pos 2)) ≡ true
  pub two_two : fl.le (fl.of_int (pos 2)) (fl.of_int (pos 2)) ≡ true
  pub mul_mono :
      (w x : F)
      → fl.le (fl.of_int (pos 0)) w ≡ true
      → fl.le w (fl.of_int (pos 1)) ≡ true
      → fl.le (fl.of_int (pos 0)) x ≡ true
      → fl.le x (fl.of_int (pos 2)) ≡ true
      → (fl.le (fl.of_int (pos 0)) (fl.mul w x) ≡ true)
        × (fl.le (fl.mul w x) (fl.mul w (fl.of_int (pos 2))) ≡ true)
  pub add_mono :
      (a b c d : F)
      → fl.le (fl.of_int (pos 0)) a ≡ true
      → fl.le a b ≡ true
      → fl.le (fl.of_int (pos 0)) c ≡ true
      → fl.le c d ≡ true
      → (fl.le (fl.of_int (pos 0)) (fl.add a c) ≡ true) × (fl.le (fl.add a c) (fl.add b d) ≡ true)

module _ {F : Type 0} ⦃fl : Float F⦄ where
  -- A weight of the score lies between 0 and 1.
  abbrev pub IsWeight : F → Type 0
  IsWeight w = (fl.le zero_f w ≡ true) × (fl.le w one_f ≡ true)

  -- From 0 to `high`.
  abbrev pub Between : F → F → Type 0
  Between x high = (fl.le zero_f x ≡ true) × (fl.le x high ≡ true)

module _ {F : Type 0} ⦃fl : Float F⦄ (laws : RangeLaws fl) where
  clamp-Between : (x : F) → Between (clamp x zero_f two_f) two_f
  unfolding clamp
  clamp-Between x =
      if_keeps (λ (r : F). Between r two_f) (fl.is_nan x) (λ _. (laws.zero_zero, laws.zero_two))
        (λ n.
          if_keeps (λ (r : F). Between r two_f) (ltf x zero_f)
            (λ _. (laws.zero_zero, laws.zero_two))
            (λ t.
              if_keeps (λ (r : F). Between r two_f) (ltf two_f x)
                (λ _. (laws.zero_two, laws.two_two))
                (λ u. (laws.at_least_zero x n t, laws.at_most_two x n u))))

  weighted-Between :
      (w x : F) → IsWeight w → Between (fl.mul w (clamp x zero_f two_f)) (fl.mul w two_f)
  weighted-Between w x h =
      let c = clamp-Between x in laws.mul_mono w (clamp x zero_f two_f) h.0 h.1 c.0 c.1

  sum-Between : (a b c d : F) → Between a b → Between c d → Between (fl.add a c) (fl.add b d)
  sum-Between a b c d h k = laws.add_mono a b c d h.0 h.1 k.0 k.1

  -- With order and rounding as in IEEE 754 and each weight between 0 and 1: whatever the sample and
  -- the limits, NaN and infinities too, the pressure lies between 0 and the weighted sum of three
  -- parts that are each 2, where the weights are those of the queue, the KV cache and the running
  -- requests.
  pub calculate_bounds :
      (w : Weights F) (s : Sample F) (l : Limits F)
      → IsWeight w.queue
      → IsWeight w.kv
      → IsWeight w.running
      → Between
          (calculate w s l)
          (fl.add (fl.add (fl.mul w.queue two_f) (fl.mul w.kv two_f)) (fl.mul w.running two_f))
  unfolding calculate
  calculate_bounds w s l hq hk hr =
      sum-Between _ _ _ _
        (sum-Between _ _ _ _ (weighted-Between w.queue (fl.div s.waiting l.queue_soft) hq) (
          weighted-Between w.kv (fl.div (fl.sub s.kv_usage l.kv_soft) (fl.sub l.kv_hard l.kv_soft))
            hk))
        (weighted-Between w.running (fl.div s.running l.running_soft) hr)

module _ {F : Type 0} ⦃fl : Float F⦄ (exp : F → F) where
  unfoldable pub add_all : List (ℕ × F) → Ewma F → Ewma F
  add_all [] e = e
  add_all ((at, value) ∷ xs) e = add_all xs (add_sample exp at value e)

  -- The samples that are newer than all before them, `last` included.
  abbrev pub newer : ℕ → List (ℕ × F) → List (ℕ × F)
  newer last [] = []
  newer last ((at, value) ∷ xs) =
      let dropped = newer last xs in
      let kept = newer at xs in if ltb last at then (at, value) ∷ kept else dropped

  add_sample_time :
      (at : ℕ) (value : F) (e : Ewma F)
      → e.initialized ≡ true
      → ((add_sample exp at value e).initialized ≡ true)
        × (((e.last_at < at) × ((add_sample exp at value e).last_at ≡ at))
            ⊎ ((at ≤ e.last_at) × (add_sample exp at value e ≡ e)))
  unfolding add_sample
  add_sample_time at value e h = ground (arith, h)

  -- An average that has a sample takes in just those samples that are newer than all before them:
  -- a sample that comes late or twice changes nothing.
  pub add_all-newer :
      (xs : List (ℕ × F)) (e : Ewma F)
      → e.initialized ≡ true
      → add_all xs e ≡ add_all (newer e.last_at xs) e
  unfolding add_all
  add_all-newer [] e h = refl
  add_all-newer ((at, value) ∷ xs) e h =
      let next = add_sample exp at value e in
      let (still, moved) = add_sample_time at value e h in
      let rest = add_all-newer xs next still in
      elim moved [
        | inl (lt, q) ↦
            rest
            ∙ (if_keeps (λ (ys : List (ℕ × F)). add_all (newer next.last_at xs) next ≡ add_all ys e)
                (ltb e.last_at at) {x = (at, value) ∷ newer at xs} {y = newer e.last_at xs}
                (λ _. ap (λ t. add_all (newer t xs) next) q) (λ t. absurd (ground (arith, lt, t))))
        | inr (le, q) ↦
            rest
            ∙ (if_keeps (λ (ys : List (ℕ × F)). add_all (newer next.last_at xs) next ≡ add_all ys e)
                (ltb e.last_at at) {x = (at, value) ∷ newer at xs} {y = newer e.last_at xs}
                (λ t. absurd (ground (arith, le, t)))
                (λ _. ap (λ x. add_all (newer x.last_at xs) x) q))
      ]
