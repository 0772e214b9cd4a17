-- ===== src/Proxy/JsonValidator/Depth.antt =====
-- The stack of internal/proxy/json_validator.go never outgrows the array that holds it.
use vllm_priority_gateway.Base.{
  ℕ, Bool, false, ◌≡◌, ◌≤◌, refl, sym, subst, [], ◌∷◌, ◌==◌, length, if_keeps, Bool-cases, inl, inr,
  arith,
}
use vllm_priority_gateway.Proxy.JsonValidator.{
  JsonScanState, Stack, Validator, max_json_nesting_depth, is_space, is_digit, is_exponent, Step,
  fail, push, pop, begin_value, begin_string, end_value_in, end_value_on, end_value, after_integer,
  exponent_digit, unicode, literal, step_string, step_number, step_literal, step_structure,
  step_byte, step_bytes, state_begin_value, state_begin_value_or_empty, state_begin_string_or_empty,
  state_begin_string, state_end_value, state_end_top, state_in_string, state_in_string_escape,
  state_in_string_unicode1, state_in_string_unicode2, state_in_string_unicode3,
  state_in_string_unicode4, state_negative, state_zero, state_integer, state_decimal_point,
  state_decimal, state_exponent, state_exponent_sign, state_exponent_digits, state_true_r,
  state_true_u, state_true_e, state_false_a, state_false_l, state_false_s, state_false_e,
  state_null_u, state_null_l1, state_null_l2, state_error, parse_object_key, parse_object_value,
  parse_array_value,
}
use vllm_priority_gateway.Proxy.JsonValidator.Grammar.{Text}
use vllm_priority_gateway.Proxy.JsonValidator.Language.{at}

Fits : Step → Type 0
Fits r = length r.0.stack ≤ max_json_nesting_depth

module _ (c : ℕ) (e : Bool) where
  ending-Fits :
      (s : JsonScanState) (st : Stack)
      → length st ≤ max_json_nesting_depth
      → Fits (end_value c (at s e false st))
  unfolding Fits end_value end_value_on end_value_in fail pop
  ending-Fits s [] = ground arith
  ending-Fits s (parse_array_value ∷ []) = ground arith
  ending-Fits s (parse_array_value ∷ p ∷ st) = ground arith
  ending-Fits s (parse_object_key ∷ st) = ground arith
  ending-Fits s (parse_object_value ∷ []) = ground arith
  ending-Fits s (parse_object_value ∷ p ∷ st) = ground arith

  begin_value-Fits :
      (s : JsonScanState) (st : Stack)
      → length st ≤ max_json_nesting_depth
      → Fits (begin_value c (at s e false st))
  unfolding Fits begin_value push fail
  begin_value-Fits s st h = ground arith

  begin_string-Fits :
      (s : JsonScanState) (st : Stack)
      → length st ≤ max_json_nesting_depth
      → Fits (begin_string c (at s e false st))
  unfolding Fits begin_string fail
  begin_string-Fits s st h = ground arith

  after_integer-Fits :
      (s : JsonScanState) (st : Stack)
      → length st ≤ max_json_nesting_depth
      → Fits (after_integer c (at s e false st))
  unfolding Fits after_integer
  after_integer-Fits s st h =
      if_keeps Fits (c == b'.') (λ _. h)
        (λ _. if_keeps Fits (is_exponent c) (λ _. h) (λ _. ending-Fits s st h))

  state-Fits :
      (s : JsonScanState) (st : Stack)
      → length st ≤ max_json_nesting_depth
      → Fits (step_byte c (at s e false st))
  unfolding Fits step_byte step_string step_number step_literal step_structure exponent_digit
      unicode literal fail
  state-Fits state_in_string st h = ground arith
  state-Fits state_in_string_escape st h = ground arith
  state-Fits state_in_string_unicode1 st h = ground arith
  state-Fits state_in_string_unicode2 st h = ground arith
  state-Fits state_in_string_unicode3 st h = ground arith
  state-Fits state_in_string_unicode4 st h = ground arith
  state-Fits state_decimal_point st h = ground arith
  state-Fits state_exponent st h = ground arith
  state-Fits state_exponent_sign st h = ground arith
  state-Fits state_negative st h = ground arith
  state-Fits state_true_r st h = ground arith
  state-Fits state_true_u st h = ground arith
  state-Fits state_true_e st h = ground arith
  state-Fits state_false_a st h = ground arith
  state-Fits state_false_l st h = ground arith
  state-Fits state_false_s st h = ground arith
  state-Fits state_false_e st h = ground arith
  state-Fits state_null_u st h = ground arith
  state-Fits state_null_l1 st h = ground arith
  state-Fits state_null_l2 st h = ground arith
  state-Fits state_end_top st h = ground arith
  state-Fits state_error st h = h
  state-Fits state_begin_value st h = begin_value-Fits state_begin_value st h
  state-Fits state_begin_string st h = begin_string-Fits state_begin_string st h
  state-Fits state_end_value st h = ending-Fits state_end_value st h
  state-Fits state_zero st h = after_integer-Fits state_zero st h
  state-Fits state_integer st h =
      if_keeps Fits (is_digit c) (λ _. h) (λ _. after_integer-Fits state_integer st h)
  state-Fits state_decimal st h =
      if_keeps Fits (is_digit c) (λ _. h)
        (λ _. if_keeps Fits (is_exponent c) (λ _. h) (λ _. ending-Fits state_decimal st h))
  state-Fits state_exponent_digits st h =
      if_keeps Fits (is_digit c) (λ _. h) (λ _. ending-Fits state_exponent_digits st h)
  state-Fits state_begin_value_or_empty st h =
      if_keeps Fits (is_space c) (λ _. h)
        (λ _.
          if_keeps Fits (c == b']') (λ _. ending-Fits state_begin_value_or_empty st h)
            (λ _. begin_value-Fits state_begin_value_or_empty st h))
  state-Fits state_begin_string_or_empty [] h =
      if_keeps Fits (is_space c) (λ _. h)
        (λ _.
          if_keeps Fits (c == b'}') (λ _. ending-Fits state_begin_string_or_empty [] h)
            (λ _. begin_string-Fits state_begin_string_or_empty [] h))
  state-Fits state_begin_string_or_empty (p ∷ st) h =
      if_keeps Fits (is_space c) (λ _. h)
        (λ _.
          if_keeps Fits (c == b'}')
            (λ _. ending-Fits state_begin_string_or_empty (parse_object_value ∷ st) h)
            (λ _. begin_string-Fits state_begin_string_or_empty (p ∷ st) h))

step_byte-Fits :
    (c : ℕ) (v : Validator)
    → length v.stack ≤ max_json_nesting_depth
    → length (step_byte c v).0.stack ≤ max_json_nesting_depth
unfolding Fits step_byte
step_byte-Fits c v h = elim (Bool-cases v.failed) [
  | inl k ↦ rw k h
  | inr k ↦
      let q : v ≡ at v.state v.end_top false v.stack = rw (sym k) refl in
      subst (λ (v : Validator). length (step_byte c v).0.stack ≤ max_json_nesting_depth) (sym q)
        (state-Fits c v.end_top v.state v.stack h)
]

-- If at most 256 entries are on the stack, as after `reset`, this is so after any bytes: no byte
-- writes outside of the array.
pub length-step_bytes :
    (xs : Text) (v : Validator)
    → length v.stack ≤ max_json_nesting_depth
    → length (step_bytes xs v).stack ≤ max_json_nesting_depth
unfolding step_bytes
length-step_bytes [] v h = h
length-step_bytes (c ∷ xs) v h = length-step_bytes xs (step_byte c v).0 (step_byte-Fits c v h)
