-- ===== src/Proxy/JsonValidator/Run.antt =====
-- What holds of the validator's fields between two bytes.
use vllm_priority_gateway.Base.{
  ℕ, true, false, ◌≡◌, ◌∙◌, refl, sym, subst, [], ◌∷◌, ◌==◌, if_keeps, Bool-cases, inl, inr, arith,
}
use vllm_priority_gateway.Proxy.JsonValidator.{
  JsonScanState, Stack, Validator, reset, is_space, is_digit, is_exponent, Step, fail, push, pop,
  begin_value, begin_string, end_value_in, end_value_on, end_value, after_integer, exponent_digit,
  unicode, literal, step_string, step_number, step_literal, step_structure, step_byte, step_bytes,
  state_begin_value, state_begin_value_or_empty, state_begin_string_or_empty, state_begin_string,
  state_end_value, state_end_top, state_in_string, state_in_string_escape, state_in_string_unicode1,
  state_in_string_unicode2, state_in_string_unicode3, state_in_string_unicode4, state_negative,
  state_zero, state_integer, state_decimal_point, state_decimal, state_exponent,
  state_exponent_sign, state_exponent_digits, state_true_r, state_true_u, state_true_e,
  state_false_a, state_false_l, state_false_s, state_false_e, state_null_u, state_null_l1,
  state_null_l2, state_error, parse_object_key, parse_object_value, parse_array_value,
}
use vllm_priority_gateway.Proxy.JsonValidator.Grammar.{Text}
use vllm_priority_gateway.Proxy.JsonValidator.Language.{at, is_shaped, is_end_top, IsWellFormed}

abbrev IsWell : Step → Type 0
IsWell r = IsWellFormed r.0

module _ (c : ℕ) where
  ending-IsWell :
      (s : JsonScanState) (st : Stack) → IsWellFormed (end_value c (at s false false st)).0
  unfolding IsWellFormed end_value end_value_on end_value_in fail pop
  ending-IsWell s [] = ground arith
  ending-IsWell s (parse_array_value ∷ []) = ground arith
  ending-IsWell s (parse_array_value ∷ p ∷ st) = ground arith
  ending-IsWell s (parse_object_key ∷ st) = ground arith
  ending-IsWell s (parse_object_value ∷ []) = ground arith
  ending-IsWell s (parse_object_value ∷ p ∷ st) = ground arith

  after_integer-IsWell :
      (s : JsonScanState) (st : Stack) → IsWellFormed (after_integer c (at s false false st)).0
  unfolding IsWellFormed after_integer
  after_integer-IsWell s st =
      if_keeps IsWell (c == b'.') (λ _. (refl, refl, λ _. refl))
        (λ _.
          if_keeps IsWell (is_exponent c) (λ _. (refl, refl, λ _. refl)) (λ _. ending-IsWell s st))

  state-IsWell :
      (s : JsonScanState) (st : Stack)
      → is_shaped s st ≡ true
      → IsWellFormed (step_byte c (at s (is_end_top s) false st)).0
  unfolding IsWellFormed step_byte step_string step_number step_literal step_structure begin_value
      begin_string end_value end_value_on end_value_in after_integer exponent_digit unicode literal
      push pop fail
  state-IsWell state_in_string st h = ground arith
  state-IsWell state_in_string_escape st h = ground arith
  state-IsWell state_in_string_unicode1 st h = ground arith
  state-IsWell state_in_string_unicode2 st h = ground arith
  state-IsWell state_in_string_unicode3 st h = ground arith
  state-IsWell state_in_string_unicode4 st h = ground arith
  state-IsWell state_decimal_point st h = ground arith
  state-IsWell state_exponent st h = ground arith
  state-IsWell state_exponent_sign st h = ground arith
  state-IsWell state_negative st h = ground arith
  state-IsWell state_true_r st h = ground arith
  state-IsWell state_true_u st h = ground arith
  state-IsWell state_true_e st h = ground arith
  state-IsWell state_false_a st h = ground arith
  state-IsWell state_false_l st h = ground arith
  state-IsWell state_false_s st h = ground arith
  state-IsWell state_false_e st h = ground arith
  state-IsWell state_null_u st h = ground arith
  state-IsWell state_null_l1 st h = ground arith
  state-IsWell state_null_l2 st h = ground arith
  state-IsWell state_begin_value st h = ground arith
  state-IsWell state_zero st h = after_integer-IsWell state_zero st
  state-IsWell state_integer st h =
      if_keeps IsWell (is_digit c) (λ _. (refl, refl, λ _. refl))
        (λ _. after_integer-IsWell state_integer st)
  state-IsWell state_decimal st h =
      if_keeps IsWell (is_digit c) (λ _. (refl, refl, λ _. refl))
        (λ _.
          if_keeps IsWell (is_exponent c) (λ _. (refl, refl, λ _. refl))
            (λ _. ending-IsWell state_decimal st))
  state-IsWell state_exponent_digits st h =
      if_keeps IsWell (is_digit c) (λ _. (refl, refl, λ _. refl))
        (λ _. ending-IsWell state_exponent_digits st)
  state-IsWell state_end_value st h = ending-IsWell state_end_value st
  state-IsWell state_begin_value_or_empty [] h = absurd cc
  state-IsWell state_begin_value_or_empty (parse_array_value ∷ st) h =
      if_keeps IsWell (is_space c) (λ _. (refl, refl, λ _. refl))
        (λ _.
          if_keeps IsWell (c == b']')
            (λ _. ending-IsWell state_begin_value_or_empty (parse_array_value ∷ st))
            (λ _. ground arith))
  state-IsWell state_begin_value_or_empty (parse_object_key ∷ st) h = absurd cc
  state-IsWell state_begin_value_or_empty (parse_object_value ∷ st) h = absurd cc
  state-IsWell state_begin_string_or_empty [] h = absurd cc
  state-IsWell state_begin_string_or_empty (parse_array_value ∷ st) h = absurd cc
  state-IsWell state_begin_string_or_empty (parse_object_key ∷ st) h =
      if_keeps IsWell (is_space c) (λ _. (refl, refl, λ _. refl))
        (λ _.
          if_keeps IsWell (c == b'}')
            (λ _. ending-IsWell state_begin_string_or_empty (parse_object_value ∷ st))
            (λ _. ground arith))
  state-IsWell state_begin_string_or_empty (parse_object_value ∷ st) h = absurd cc
  state-IsWell state_begin_string [] h = absurd cc
  state-IsWell state_begin_string (parse_array_value ∷ st) h = absurd cc
  state-IsWell state_begin_string (parse_object_key ∷ st) h = ground arith
  state-IsWell state_begin_string (parse_object_value ∷ st) h = absurd cc
  state-IsWell state_end_top [] h = ground arith
  state-IsWell state_end_top (p ∷ st) h = absurd cc
  state-IsWell state_error st h = (refl, refl, λ k. refl)

-- Every byte keeps the fields well formed: an array or an object that has just begun is the innermost
-- on the stack, so that `stack[depth-1]` is read and written only where `depth` is not 0, and the
-- flags `failed` and `endTop` agree with the state.
pub step_byte-IsWellFormed :
    (c : ℕ) (v : Validator) → IsWellFormed v → IsWellFormed (step_byte c v).0
unfolding IsWellFormed step_byte
step_byte-IsWellFormed c v h = elim (Bool-cases v.failed) [
  | inl k ↦ rw k (h.0, sym k ∙ h.1, λ n. absurd cc)
  | inr k ↦
      let q : v ≡ at v.state (is_end_top v.state) false v.stack = rw (sym k, sym (h.2 k)) refl in
      subst (λ (v : Validator). IsWellFormed (step_byte c v).0) (sym q)
        (state-IsWell c v.state v.stack h.0)
]

pub step_bytes-IsWellFormed :
    (xs : Text) (v : Validator) → IsWellFormed v → IsWellFormed (step_bytes xs v)
unfolding step_bytes
step_bytes-IsWellFormed [] v h = h
step_bytes-IsWellFormed (c ∷ xs) v h =
    step_bytes-IsWellFormed xs (step_byte c v).0 (step_byte-IsWellFormed c v h)

pub reset-IsWellFormed : IsWellFormed reset
unfolding reset IsWellFormed
reset-IsWellFormed = (refl, refl, λ _. refl)
