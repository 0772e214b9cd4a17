-- ===== src/Base/Float.antt =====
-- Go's `float64` as an interface: the operations that the gateway uses, with no law. What a theorem
-- needs of them it takes as named hypotheses, all of which IEEE 754 gives.
use vllm_priority_gateway.Base.Int.{ℤ}
use mathlib.Core.Bool.{Bool, not, ◌&&◌}

pub record Float (F : Type 0) : Type 0 where
  pub lt : F → F → Bool
  pub le : F → F → Bool
  pub is_nan : F → Bool
  pub is_inf : F → Bool
  pub infinity : F
  pub add : F → F → F
  pub sub : F → F → F
  pub mul : F → F → F
  pub div : F → F → F
  pub of_int : ℤ → F
  pub to_int : F → ℤ

module _ {F : Type 0} ⦃fl : Float F⦄ where
  abbrev pub ltf : F → F → Bool
  ltf = fl.lt

  abbrev pub lef : F → F → Bool
  lef = fl.le

  abbrev pub is_finite : F → Bool
  is_finite x = not (fl.is_nan x) && not (fl.is_inf x)
