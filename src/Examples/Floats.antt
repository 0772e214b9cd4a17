-- ===== src/Examples/Floats.antt =====
-- A number type with the operations of `float64`: the naturals, of which those from 2^60 on are
-- infinite.
use vllm_priority_gateway.Base.{ℕ, ◌+◌, ◌-◌, ◌*◌, ◌/◌, false, arith, ltb, leb, pos, pos_part}
use vllm_priority_gateway.Base.Float.{Float}
use vllm_priority_gateway.Routing.Select.{FloatLaws}

instance abbrev pub float_ℕ : Float ℕ
float_ℕ = record {
  lt = ltb;
  le = leb;
  is_nan = λ x. false;
  is_inf = leb 1152921504606846976;
  infinity = 1152921504606846976;
  add = λ x y. x + y;
  sub = λ x y. x - y;
  mul = λ x y. x * y;
  div = λ x y. x / y;
  of_int = pos_part;
  to_int = pos;
}

pub float_ℕ-FloatLaws : FloatLaws float_ℕ
float_ℕ-FloatLaws = record {
  lt_infinity = λ x h. ground arith;
  lt_trans = λ x y z h k. ground arith;
  lt_irrefl = λ x. ground arith;
  sub_self = λ x e h k n. ground arith;
}
