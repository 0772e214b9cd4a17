-- ===== src/Proxy/JsonValidator/Viable.antt =====
-- The bytes that internal/proxy/json_validator.go has not refused: some text goes on from them.
use vllm_priority_gateway.Base.{
  true, false, ◌≡◌, ◌↔◌, ◌∙◌, ◌++◌, refl, sym, subst, [], ◌∷◌, length, Bool-cases, inl, inr,
}
use vllm_priority_gateway.Proxy.JsonValidator.{
  JsonScanState, Stack, Validator, reset, step_byte, step_bytes, state_begin_value,
  state_begin_value_or_empty, state_begin_string_or_empty, state_begin_string, state_end_value,
  state_end_top, state_in_string, state_in_string_escape, state_in_string_unicode1,
  state_in_string_unicode2, state_in_string_unicode3, state_in_string_unicode4, state_negative,
  state_zero, state_integer, state_decimal_point, state_decimal, state_exponent,
  state_exponent_sign, state_exponent_digits, state_true_r, state_true_u, state_true_e,
  state_false_a, state_false_l, state_false_s, state_false_e, state_null_u, state_null_l1,
  state_null_l2, state_error, parse_object_key, parse_object_value, parse_array_value,
}
use vllm_priority_gateway.Proxy.JsonValidator.Grammar.{
  Text, Spells, Str, Escape, Hex4, Hex3, Hex2, Hex1, Digits, Digits1, Power, Decimals, Decimals1,
  Fraction, Whole, Unsigned, Value, IsJson, no_space, last_letter, letter, quote, escaped, hex4,
  hex3, hex2, hex1, no_digit, digits, unsigned, no_exponent, no_decimal, decimals, no_point,
  no_more, from_zero, zero_number, none_closed, more_closed, member_closed, key, colon,
  members_closed,
}
use vllm_priority_gateway.Proxy.JsonValidator.Language.{
  Rest, OpenArray, OpenObject, OpenMember, Then, Takes, is_shaped, is_error, IsWellFormed,
}
use vllm_priority_gateway.Proxy.JsonValidator.Run.{
  step_byte-IsWellFormed, step_bytes-IsWellFormed, reset-IsWellFormed,
}
use vllm_priority_gateway.Proxy.JsonValidator.Acceptance.{step_byte-Takes, is_error-error}

abbrev HasText : (Text → Type 0) → Type 0
HasText X = (xs : Text) × X xs

-- What is open is closed.
closing_of : (st : Stack) → HasText (Rest st)
unfolding Rest
closing_of [] = ([], no_space)
closing_of (parse_array_value ∷ st) =
    let (xs, r) = closing_of st in (b']' ∷ xs, (xs, more_closed refl, r))
closing_of (parse_object_value ∷ st) =
    let (xs, r) = closing_of st in (b'}' ∷ xs, (xs, members_closed refl, r))
closing_of (parse_object_key ∷ st) =
    let (xs, r) = closing_of st in
    (
      b':' ∷ b'0' ∷ b'}' ∷ xs,
      (xs, colon refl (zero_number refl (no_point no_exponent)) (members_closed refl), r),
    )

-- The token's bytes go before what the stack takes.
module _ (X : Text → Text → Type 0) (st : Stack) where
  token_text : (ts : Text) → ((xs : Text) → X (ts ++ xs) xs) → HasText (Then X st)
  token_text ts token = let (xs, r) = closing_of st in (ts ++ xs, (xs, token xs, r))

continuation :
    (s : JsonScanState) (st : Stack)
    → is_shaped s st ≡ true
    → is_error s ≡ false
    → HasText (Takes s st)
unfolding Takes OpenArray OpenObject OpenMember Rest
continuation state_begin_value st h k =
    token_text (Value (length st)) st (b'0' ∷ []) (λ xs. zero_number refl (no_point no_exponent))
continuation state_in_string st h k = token_text Str st (34 ∷ []) (λ xs. quote refl)
continuation state_in_string_escape st h k =
    token_text Escape st (b'n' ∷ 34 ∷ []) (λ xs. escaped refl (quote refl))
continuation state_in_string_unicode4 st h k =
    token_text Hex1 st (b'0' ∷ 34 ∷ []) (λ xs. hex1 refl (quote refl))
continuation state_in_string_unicode3 st h k =
    token_text Hex2 st (b'0' ∷ b'0' ∷ 34 ∷ []) (λ xs. hex2 refl (hex1 refl (quote refl)))
continuation state_in_string_unicode2 st h k =
    token_text Hex3 st (b'0' ∷ b'0' ∷ b'0' ∷ 34 ∷ [])
      (λ xs. hex3 refl (hex2 refl (hex1 refl (quote refl))))
continuation state_in_string_unicode1 st h k =
    token_text Hex4 st (b'0' ∷ b'0' ∷ b'0' ∷ b'0' ∷ 34 ∷ [])
      (λ xs. hex4 refl (hex3 refl (hex2 refl (hex1 refl (quote refl)))))
continuation state_negative st h k =
    token_text Unsigned st (b'0' ∷ []) (λ xs. from_zero refl (no_point no_exponent))
continuation state_zero st h k = token_text Fraction st ([]) (λ xs. no_point no_exponent)
continuation state_integer st h k = token_text Whole st ([]) (λ xs. no_more (no_point no_exponent))
continuation state_decimal_point st h k =
    token_text Decimals1 st (b'0' ∷ []) (λ xs. decimals refl (no_decimal no_exponent))
continuation state_decimal st h k = token_text Decimals st ([]) (λ xs. no_decimal no_exponent)
continuation state_exponent st h k =
    token_text Power st (b'0' ∷ []) (λ xs. unsigned (digits refl no_digit))
continuation state_exponent_sign st h k =
    token_text Digits1 st (b'0' ∷ []) (λ xs. digits refl no_digit)
continuation state_exponent_digits st h k = token_text Digits st ([]) (λ xs. no_digit)
continuation state_true_r st h k =
    token_text (Spells (b'r' ∷ b'u' ∷ b'e' ∷ [])) st (b'r' ∷ b'u' ∷ b'e' ∷ [])
      (λ xs. letter refl (letter refl (last_letter refl)))
continuation state_true_u st h k =
    token_text (Spells (b'u' ∷ b'e' ∷ [])) st (b'u' ∷ b'e' ∷ [])
      (λ xs. letter refl (last_letter refl))
continuation state_true_e st h k =
    token_text (Spells (b'e' ∷ [])) st (b'e' ∷ []) (λ xs. last_letter refl)
continuation state_false_a st h k =
    token_text (Spells (b'a' ∷ b'l' ∷ b's' ∷ b'e' ∷ [])) st (b'a' ∷ b'l' ∷ b's' ∷ b'e' ∷ [])
      (λ xs. letter refl (letter refl (letter refl (last_letter refl))))
continuation state_false_l st h k =
    token_text (Spells (b'l' ∷ b's' ∷ b'e' ∷ [])) st (b'l' ∷ b's' ∷ b'e' ∷ [])
      (λ xs. letter refl (letter refl (last_letter refl)))
continuation state_false_s st h k =
    token_text (Spells (b's' ∷ b'e' ∷ [])) st (b's' ∷ b'e' ∷ [])
      (λ xs. letter refl (last_letter refl))
continuation state_false_e st h k =
    token_text (Spells (b'e' ∷ [])) st (b'e' ∷ []) (λ xs. last_letter refl)
continuation state_null_u st h k =
    token_text (Spells (b'u' ∷ b'l' ∷ b'l' ∷ [])) st (b'u' ∷ b'l' ∷ b'l' ∷ [])
      (λ xs. letter refl (letter refl (last_letter refl)))
continuation state_null_l1 st h k =
    token_text (Spells (b'l' ∷ b'l' ∷ [])) st (b'l' ∷ b'l' ∷ [])
      (λ xs. letter refl (last_letter refl))
continuation state_null_l2 st h k =
    token_text (Spells (b'l' ∷ [])) st (b'l' ∷ []) (λ xs. last_letter refl)
continuation state_end_value st h k = closing_of st
continuation state_end_top st h k = ([], no_space)
continuation state_error st h k = absurd cc
continuation state_begin_value_or_empty [] h k = absurd cc
continuation state_begin_value_or_empty (parse_array_value ∷ st) h k =
    let (xs, r) = closing_of st in (b']' ∷ xs, (xs, none_closed refl, r))
continuation state_begin_value_or_empty (parse_object_key ∷ st) h k = absurd cc
continuation state_begin_value_or_empty (parse_object_value ∷ st) h k = absurd cc
continuation state_begin_string_or_empty [] h k = absurd cc
continuation state_begin_string_or_empty (parse_array_value ∷ st) h k = absurd cc
continuation state_begin_string_or_empty (parse_object_key ∷ st) h k =
    let (xs, r) = closing_of st in (b'}' ∷ xs, (xs, member_closed refl, r))
continuation state_begin_string_or_empty (parse_object_value ∷ st) h k = absurd cc
continuation state_begin_string [] h k = absurd cc
continuation state_begin_string (parse_array_value ∷ st) h k = absurd cc
continuation state_begin_string (parse_object_key ∷ st) h k =
    let (xs, t) = closing_of (parse_object_key ∷ st) in
    (34 ∷ 34 ∷ xs, (t.0, key refl (quote refl) t.1, t.2))
continuation state_begin_string (parse_object_value ∷ st) h k = absurd cc

step_bytes-Takes :
    (xs ys : Text) (v : Validator)
    → IsWellFormed v
    → Takes v.state v.stack (xs ++ ys) ↔ Takes (step_bytes xs v).state (step_bytes xs v).stack ys
unfolding step_bytes
step_bytes-Takes [] ys v h = (λ t. t, λ t. t)
step_bytes-Takes (c ∷ xs) ys v h =
    let rest = step_bytes-Takes xs ys (step_byte c v).0 (step_byte-IsWellFormed c v h) in
    let byte = step_byte-Takes c (xs ++ ys) v h in (λ t. rest.0 (byte.0 t), λ t. byte.1 (rest.1 t))

Takes-not_failed :
    (v : Validator) (xs : Text) → IsWellFormed v → Takes v.state v.stack xs → v.failed ≡ false
unfolding IsWellFormed Takes
Takes-not_failed v xs h t = elim (Bool-cases v.failed) [
  | inl k ↦
      absurd
        (subst (λ (s : JsonScanState). Takes s v.stack xs) (is_error-error v.state (sym h.1 ∙ k)) t)
  | inr k ↦ k
]

-- The validator has not failed after some bytes exactly if they begin a text of the grammar: it fails
-- at the first byte that no continuation can mend.
pub step_bytes-failed :
    (xs : Text) → ((step_bytes xs reset).failed ≡ false) ↔ ((ys : Text) × IsJson (xs ++ ys))
unfolding reset Takes Rest IsWellFormed
step_bytes-failed xs =
    let v = step_bytes xs reset in
    let h = step_bytes-IsWellFormed xs reset reset-IsWellFormed in
    (
      λ n.
          let (ys, t) = continuation v.state v.stack h.0 (sym h.1 ∙ n) in
          (ys, (step_bytes-Takes xs ys reset reset-IsWellFormed).1 t),
      λ t. Takes-not_failed v t.0 h ((step_bytes-Takes xs t.0 reset reset-IsWellFormed).0 t.1),
    )
