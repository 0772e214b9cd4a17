-- ===== src/Proxy/JsonValidator/Steps.antt =====
-- One byte of internal/proxy/json_validator.go: what a state takes with a byte in front is what the
-- state after the byte takes.
use vllm_priority_gateway.Base.{of_negation, ℕ, Bool, true, not, ◌≡◌, [], ◌∷◌, if_keeps}
use vllm_priority_gateway.Proxy.JsonValidator.{
  JsonScanState, Stack, is_space, fail, step_string, step_number, step_literal, step_structure,
  step_byte, state_begin_value, state_begin_value_or_empty, state_begin_string_or_empty,
  state_begin_string, state_end_value, state_end_top, state_in_string, state_in_string_escape,
  state_in_string_unicode1, state_in_string_unicode2, state_in_string_unicode3,
  state_in_string_unicode4, state_negative, state_zero, state_integer, state_decimal_point,
  state_decimal, state_exponent, state_exponent_sign, state_exponent_digits, state_true_r,
  state_true_u, state_true_e, state_false_a, state_false_l, state_false_s, state_false_e,
  state_null_u, state_null_l1, state_null_l2, state_error, parse_object_key, parse_object_value,
  parse_array_value,
}
use vllm_priority_gateway.Proxy.JsonValidator.Grammar.{
  Text, Spaces, Str, Hex4, Hex3, Hex2, Hex1, a_space, hex4, hex3, hex2, hex1,
}
use vllm_priority_gateway.Proxy.JsonValidator.Language.{Takes, Reads, is_shaped}
use vllm_priority_gateway.Proxy.JsonValidator.Begins.{Into}
use vllm_priority_gateway.Proxy.JsonValidator.Numbers
use vllm_priority_gateway.Proxy.JsonValidator.Strings
use vllm_priority_gateway.Proxy.JsonValidator.Literals
use vllm_priority_gateway.Proxy.JsonValidator.Arrays
use vllm_priority_gateway.Proxy.JsonValidator.Objects

module _ (c : ℕ) (xs : Text) (e : Bool) where
  end_top-Reads : (st : Stack) → Reads c xs state_end_top e st
  unfolding step_byte step_string step_number step_literal step_structure fail Takes
  end_top-Reads st = (
    elim [ a_space h t ↦ rw h t ],
    if_keeps (Into (Spaces (c ∷ xs)) xs) (not (is_space c)) (λ _ t. absurd t)
        (λ h t. a_space (of_negation (is_space c) h) t),
  )

  pub reads : (s : JsonScanState) (st : Stack) → is_shaped s st ≡ true → Reads c xs s e st
  unfolding step_byte step_string step_number step_literal step_structure Takes fail
  reads state_begin_value st h = Arrays.begin_value-Reads c xs e st
  reads state_begin_value_or_empty [] h = absurd cc
  reads state_begin_value_or_empty (parse_array_value ∷ st) h = Arrays.array-Reads c xs e st
  reads state_begin_value_or_empty (parse_object_value ∷ st) h = absurd cc
  reads state_begin_value_or_empty (parse_object_key ∷ st) h = absurd cc
  reads state_begin_string_or_empty [] h = absurd cc
  reads state_begin_string_or_empty (parse_object_key ∷ st) h = Objects.object-Reads c xs e st
  reads state_begin_string_or_empty (parse_object_value ∷ st) h = absurd cc
  reads state_begin_string_or_empty (parse_array_value ∷ st) h = absurd cc
  reads state_begin_string [] h = absurd cc
  reads state_begin_string (parse_object_key ∷ st) h = Objects.member-Reads c xs e st
  reads state_begin_string (parse_object_value ∷ st) h = absurd cc
  reads state_begin_string (parse_array_value ∷ st) h = absurd cc
  reads state_end_value st h = (
    Numbers.ending_complete c xs e st state_end_value,
    Numbers.ending_sound c xs e st state_end_value,
  )
  reads state_end_top st h = end_top-Reads st
  reads state_in_string st h =
      (Strings.in_string_complete c xs e st, Strings.in_string_sound c xs e st)
  reads state_in_string_escape st h =
      (Strings.after_backslash_complete c xs e st, Strings.after_backslash_sound c xs e st)
  reads state_in_string_unicode1 st h = (
    Strings.unicode_complete c xs e st Hex4 Hex3 state_in_string_unicode2
        (λ ys. elim [ hex4 h t ↦ (h, t) ]) (λ t. t) state_in_string_unicode1,
    Strings.unicode_sound c xs e st Hex4 Hex3 state_in_string_unicode2 (λ ys h t. hex4 h t) (λ t. t)
        state_in_string_unicode1,
  )
  reads state_in_string_unicode2 st h = (
    Strings.unicode_complete c xs e st Hex3 Hex2 state_in_string_unicode3
        (λ ys. elim [ hex3 h t ↦ (h, t) ]) (λ t. t) state_in_string_unicode2,
    Strings.unicode_sound c xs e st Hex3 Hex2 state_in_string_unicode3 (λ ys h t. hex3 h t) (λ t. t)
        state_in_string_unicode2,
  )
  reads state_in_string_unicode3 st h = (
    Strings.unicode_complete c xs e st Hex2 Hex1 state_in_string_unicode4
        (λ ys. elim [ hex2 h t ↦ (h, t) ]) (λ t. t) state_in_string_unicode3,
    Strings.unicode_sound c xs e st Hex2 Hex1 state_in_string_unicode4 (λ ys h t. hex2 h t) (λ t. t)
        state_in_string_unicode3,
  )
  reads state_in_string_unicode4 st h = (
    Strings.unicode_complete c xs e st Hex1 Str state_in_string (λ ys. elim [ hex1 h t ↦ (h, t) ])
        (λ t. t) state_in_string_unicode4,
    Strings.unicode_sound c xs e st Hex1 Str state_in_string (λ ys h t. hex1 h t) (λ t. t)
        state_in_string_unicode4,
  )
  reads state_negative st h =
      (Numbers.negative_complete c xs e st, Numbers.negative_sound c xs e st)
  reads state_zero st h = (Numbers.zero_complete c xs e st, Numbers.zero_sound c xs e st)
  reads state_integer st h = (Numbers.integer_complete c xs e st, Numbers.integer_sound c xs e st)
  reads state_decimal_point st h = (Numbers.point_complete c xs e st, Numbers.point_sound c xs e st)
  reads state_decimal st h = (Numbers.decimal_complete c xs e st, Numbers.decimal_sound c xs e st)
  reads state_exponent st h =
      (Numbers.exponent_complete c xs e st, Numbers.exponent_sound c xs e st)
  reads state_exponent_digits st h =
      (Numbers.exponent_loop_complete c xs e st, Numbers.exponent_loop_sound c xs e st)
  reads state_exponent_sign st h = (
    Numbers.digit_complete c xs e st state_exponent_sign,
    Numbers.digit_sound c xs e st state_exponent_sign,
  )
  reads state_true_r st h = (
    Literals.letter_complete c xs e st b'r' b'u' (b'e' ∷ []) state_true_u state_true_r (λ t. t),
    Literals.letter_sound c xs e st b'r' b'u' (b'e' ∷ []) state_true_u state_true_r (λ t. t),
  )
  reads state_true_u st h = (
    Literals.letter_complete c xs e st b'u' b'e' [] state_true_e state_true_u (λ t. t),
    Literals.letter_sound c xs e st b'u' b'e' [] state_true_e state_true_u (λ t. t),
  )
  reads state_false_a st h = (
    Literals.letter_complete c xs e st b'a' b'l' (b's' ∷ b'e' ∷ []) state_false_l state_false_a
        (λ t. t),
    Literals.letter_sound c xs e st b'a' b'l' (b's' ∷ b'e' ∷ []) state_false_l state_false_a
        (λ t. t),
  )
  reads state_false_l st h = (
    Literals.letter_complete c xs e st b'l' b's' (b'e' ∷ []) state_false_s state_false_l (λ t. t),
    Literals.letter_sound c xs e st b'l' b's' (b'e' ∷ []) state_false_s state_false_l (λ t. t),
  )
  reads state_false_s st h = (
    Literals.letter_complete c xs e st b's' b'e' [] state_false_e state_false_s (λ t. t),
    Literals.letter_sound c xs e st b's' b'e' [] state_false_e state_false_s (λ t. t),
  )
  reads state_null_u st h = (
    Literals.letter_complete c xs e st b'u' b'l' (b'l' ∷ []) state_null_l1 state_null_u (λ t. t),
    Literals.letter_sound c xs e st b'u' b'l' (b'l' ∷ []) state_null_l1 state_null_u (λ t. t),
  )
  reads state_null_l1 st h = (
    Literals.letter_complete c xs e st b'l' b'l' [] state_null_l2 state_null_l1 (λ t. t),
    Literals.letter_sound c xs e st b'l' b'l' [] state_null_l2 state_null_l1 (λ t. t),
  )
  reads state_true_e st h = (
    Literals.last_complete c xs e st b'e' state_true_e,
    Literals.last_sound c xs e st b'e' state_true_e,
  )
  reads state_false_e st h = (
    Literals.last_complete c xs e st b'e' state_false_e,
    Literals.last_sound c xs e st b'e' state_false_e,
  )
  reads state_null_l2 st h = (
    Literals.last_complete c xs e st b'l' state_null_l2,
    Literals.last_sound c xs e st b'l' state_null_l2,
  )
  reads state_error st h = (λ t. absurd t, λ t. absurd t)
