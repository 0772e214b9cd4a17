-- ===== src/Proxy/JsonValidator/Acceptance.antt =====
-- The texts that internal/proxy/json_validator.go accepts, byte by byte and then `eof`.
use vllm_priority_gateway.Base.{
  ℕ, Bool, true, false, ◌≡◌, ◌↔◌, ◌∙◌, refl, sym, subst, [], ◌∷◌, Bool-cases, inl, inr, arith,
}
use vllm_priority_gateway.Proxy.JsonValidator.{
  JsonScanState, JsonParseState, Stack, Validator, reset, fail, push, pop, begin_value,
  begin_string, end_value_in, end_value_on, end_value, after_integer, exponent_digit, unicode,
  literal, step_string, step_number, step_literal, step_structure, step_byte, eof, step_bytes,
  state_begin_value, state_begin_value_or_empty, state_begin_string_or_empty, state_begin_string,
  state_end_value, state_end_top, state_in_string, state_in_string_escape, state_in_string_unicode1,
  state_in_string_unicode2, state_in_string_unicode3, state_in_string_unicode4, state_negative,
  state_zero, state_integer, state_decimal_point, state_decimal, state_exponent,
  state_exponent_sign, state_exponent_digits, state_true_r, state_true_u, state_true_e,
  state_false_a, state_false_l, state_false_s, state_false_e, state_null_u, state_null_l1,
  state_null_l2, state_error, parse_object_key, parse_object_value, parse_array_value,
}
use vllm_priority_gateway.Proxy.JsonValidator.Grammar.{
  Text, Digits, Decimals, Fraction, Whole, IsJson, no_space, no_digit, unsigned, no_exponent,
  no_decimal, no_point, no_more, first, member_first,
}
use vllm_priority_gateway.Proxy.JsonValidator.Language.{
  Rest, OpenArray, OpenObject, OpenMember, Then, at, Takes, Accepts, is_shaped, is_error,
  is_end_top, IsWellFormed,
}
use vllm_priority_gateway.Proxy.JsonValidator.Steps.{reads}
use vllm_priority_gateway.Proxy.JsonValidator.Run.{step_byte-IsWellFormed, reset-IsWellFormed}

pub is_error-error : (s : JsonScanState) → is_error s ≡ true → s ≡ state_error
is_error-error s h = ground arith

-- `eof` answers `true` just where nothing more is needed.
Finishes : JsonScanState → Stack → Type 0
Finishes s st = (eof (at s (is_end_top s) false st) ≡ true) ↔ Takes s st []

Rest-finished : (p : JsonParseState) (st : Stack) → ¬ Rest (p ∷ st) []
unfolding Rest
Rest-finished parse_array_value st (ys, t, r) = elim t [ ]
Rest-finished parse_object_value st (ys, t, r) = elim t [ ]
Rest-finished parse_object_key st (ys, t, r) = elim t [ ]

Fraction-finished : (st : Stack) → Then Fraction st [] → Rest st []
Fraction-finished st (_, no_point no_exponent, r) = r

Whole-finished : (st : Stack) → Then Whole st [] → Rest st []
Whole-finished st (ys, no_more t, r) = Fraction-finished st (ys, t, r)

Decimals-finished : (st : Stack) → Then Decimals st [] → Rest st []
Decimals-finished st (_, no_decimal no_exponent, r) = r

Digits-finished : (st : Stack) → Then Digits st [] → Rest st []
Digits-finished st (_, no_digit, r) = r

finishes : (s : JsonScanState) (st : Stack) → is_shaped s st ≡ true → Finishes s st
unfolding Finishes eof Takes Rest step_byte step_string step_number step_literal step_structure
    begin_value begin_string end_value end_value_on end_value_in after_integer exponent_digit
    unicode literal push pop fail OpenArray OpenObject OpenMember
finishes state_begin_value st h = (λ k. absurd cc, λ t. elim t.1 [ ])
finishes state_in_string st h = (λ k. absurd cc, λ t. elim t.1 [ ])
finishes state_in_string_escape st h = (λ k. absurd cc, λ t. elim t.1 [ ])
finishes state_in_string_unicode1 st h = (λ k. absurd cc, λ t. elim t.1 [ ])
finishes state_in_string_unicode2 st h = (λ k. absurd cc, λ t. elim t.1 [ ])
finishes state_in_string_unicode3 st h = (λ k. absurd cc, λ t. elim t.1 [ ])
finishes state_in_string_unicode4 st h = (λ k. absurd cc, λ t. elim t.1 [ ])
finishes state_decimal_point st h = (λ k. absurd cc, λ t. elim t.1 [ ])
finishes state_exponent_sign st h = (λ k. absurd cc, λ t. elim t.1 [ ])
finishes state_negative st h = (λ k. absurd cc, λ t. elim t.1 [ ])
finishes state_true_r st h = (λ k. absurd cc, λ t. elim t.1 [ ])
finishes state_true_u st h = (λ k. absurd cc, λ t. elim t.1 [ ])
finishes state_true_e st h = (λ k. absurd cc, λ t. elim t.1 [ ])
finishes state_false_a st h = (λ k. absurd cc, λ t. elim t.1 [ ])
finishes state_false_l st h = (λ k. absurd cc, λ t. elim t.1 [ ])
finishes state_false_s st h = (λ k. absurd cc, λ t. elim t.1 [ ])
finishes state_false_e st h = (λ k. absurd cc, λ t. elim t.1 [ ])
finishes state_null_u st h = (λ k. absurd cc, λ t. elim t.1 [ ])
finishes state_null_l1 st h = (λ k. absurd cc, λ t. elim t.1 [ ])
finishes state_null_l2 st h = (λ k. absurd cc, λ t. elim t.1 [ ])
finishes state_exponent st h = (λ k. absurd cc, λ t. elim t.1 [ unsigned u ↦ elim u [ ] ])
finishes state_zero [] h = (λ _. ([], no_point no_exponent, no_space), λ _. refl)
finishes state_zero (p ∷ st) h =
    (λ k. absurd cc, λ t. absurd (Rest-finished p st (Fraction-finished (p ∷ st) t)))
finishes state_integer [] h = (λ _. ([], no_more (no_point no_exponent), no_space), λ _. refl)
finishes state_integer (p ∷ st) h =
    (λ k. absurd cc, λ t. absurd (Rest-finished p st (Whole-finished (p ∷ st) t)))
finishes state_decimal [] h = (λ _. ([], no_decimal no_exponent, no_space), λ _. refl)
finishes state_decimal (p ∷ st) h =
    (λ k. absurd cc, λ t. absurd (Rest-finished p st (Decimals-finished (p ∷ st) t)))
finishes state_exponent_digits [] h = (λ _. ([], no_digit, no_space), λ _. refl)
finishes state_exponent_digits (p ∷ st) h =
    (λ k. absurd cc, λ t. absurd (Rest-finished p st (Digits-finished (p ∷ st) t)))
finishes state_end_value [] h = (λ _. no_space, λ _. refl)
finishes state_end_value (p ∷ st) h = (λ k. absurd cc, λ t. absurd (Rest-finished p st t))
finishes state_begin_value_or_empty [] h = absurd cc
finishes state_begin_value_or_empty (parse_array_value ∷ st) h =
    (λ k. absurd cc, λ t. elim t.1 [ first u w ↦ elim u [ ] ])
finishes state_begin_value_or_empty (parse_object_key ∷ st) h = absurd cc
finishes state_begin_value_or_empty (parse_object_value ∷ st) h = absurd cc
finishes state_begin_string_or_empty [] h = absurd cc
finishes state_begin_string_or_empty (parse_array_value ∷ st) h = absurd cc
finishes state_begin_string_or_empty (parse_object_key ∷ st) h =
    (λ k. absurd cc, λ t. elim t.1 [ member_first u ↦ elim u [ ] ])
finishes state_begin_string_or_empty (parse_object_value ∷ st) h = absurd cc
finishes state_begin_string [] h = absurd cc
finishes state_begin_string (parse_array_value ∷ st) h = absurd cc
finishes state_begin_string (parse_object_key ∷ st) h = (λ k. absurd cc, λ t. elim t.1 [ ])
finishes state_begin_string (parse_object_value ∷ st) h = absurd cc
finishes state_end_top [] h = (λ _. no_space, λ _. refl)
finishes state_end_top (p ∷ st) h = absurd cc
finishes state_error st h = (λ k. absurd cc, λ t. absurd t)

failed_finishes :
    (e : Bool) (st : Stack) → (eof (at state_error e true st) ≡ true) ↔ Takes state_error st []
unfolding eof step_byte Takes
failed_finishes e st = (λ k. absurd cc, λ t. absurd t)

failed_reads :
    (c : ℕ) (xs : Text) (e : Bool) (st : Stack)
    → Takes state_error st (c ∷ xs) ↔ Accepts (step_byte c (at state_error e true st)) xs
unfolding step_byte Takes
failed_reads c xs e st = (λ t. t, λ t. t)

pub eof-Takes : (v : Validator) → IsWellFormed v → (eof v ≡ true) ↔ Takes v.state v.stack []
unfolding IsWellFormed Finishes
eof-Takes v h = elim (Bool-cases v.failed) as (λ _. (eof v ≡ true) ↔ Takes v.state v.stack []) [
  | inl k ↦
      let q : v ≡ at state_error v.end_top true v.stack =
        rw (sym k, sym (is_error-error v.state (sym h.1 ∙ k))) refl in
      subst (λ (w : Validator). (eof w ≡ true) ↔ Takes w.state w.stack []) (sym q)
        (failed_finishes v.end_top v.stack)
  | inr k ↦
      let q : v ≡ at v.state (is_end_top v.state) false v.stack = rw (sym k, sym (h.2 k)) refl in
      subst (λ (w : Validator). (eof w ≡ true) ↔ Takes v.state v.stack []) (sym q)
        (finishes v.state v.stack h.0)
]

pub step_byte-Takes :
    (c : ℕ) (xs : Text) (v : Validator)
    → IsWellFormed v
    → Takes v.state v.stack (c ∷ xs) ↔ Takes (step_byte c v).0.state (step_byte c v).0.stack xs
unfolding IsWellFormed
step_byte-Takes c xs v h =
    elim (Bool-cases v.failed)
      as (λ _.
        Takes v.state v.stack (c ∷ xs) ↔ Takes (step_byte c v).0.state (step_byte c v).0.stack xs) [
          | inl k ↦
              let q : v ≡ at state_error v.end_top true v.stack =
                rw (sym k, sym (is_error-error v.state (sym h.1 ∙ k))) refl in
              subst
                (λ (w : Validator).
                  Takes w.state w.stack (c ∷ xs)
                  ↔ Takes (step_byte c w).0.state (step_byte c w).0.stack xs)
                (sym q) (failed_reads c xs v.end_top v.stack)
          | inr k ↦
              let q : v ≡ at v.state v.end_top false v.stack = rw (sym k) refl in
              subst
                (λ (w : Validator).
                  Takes v.state v.stack (c ∷ xs)
                  ↔ Takes (step_byte c w).0.state (step_byte c w).0.stack xs)
                (sym q) (reads c xs v.end_top v.state v.stack h.0)
        ]

pub eof-step_bytes-Takes :
    (xs : Text) (v : Validator)
    → IsWellFormed v
    → (eof (step_bytes xs v) ≡ true) ↔ Takes v.state v.stack xs
unfolding step_bytes
eof-step_bytes-Takes [] v h = eof-Takes v h
eof-step_bytes-Takes (c ∷ xs) v h =
    let rest = eof-step_bytes-Takes xs (step_byte c v).0 (step_byte-IsWellFormed c v h) in
    let byte = step_byte-Takes c xs v h in (λ k. byte.1 (rest.0 k), λ t. rest.1 (byte.0 t))

-- A text of any bytes is accepted exactly if it is one JSON value of RFC 8259, read byte by byte, with
-- whitespace around it, in which at most 256 arrays and objects are open at once. Whether the bytes
-- of a string are UTF-8 is asked by neither side.
pub eof-step_bytes : (xs : Text) → (eof (step_bytes xs reset) ≡ true) ↔ IsJson xs
unfolding reset Takes Rest
eof-step_bytes xs = eof-step_bytes-Takes xs reset reset-IsWellFormed
