-- ===== src/Proxy/JsonValidator/Numbers.antt =====
-- The number states against the grammar.
use vllm_priority_gateway.Base.{
  of_negation, ℕ, Bool, false, not, ◌≡◌, refl, ◌∷◌, ◌==◌, if_keeps, arith,
}
use vllm_priority_gateway.Proxy.JsonValidator.{
  is_digit, is_nonzero_digit, is_exponent, is_sign, JsonScanState, state_negative, state_zero,
  state_integer, state_decimal_point, state_decimal, state_exponent, state_exponent_digits, Stack,
  Step, fail, end_value, after_integer, exponent_digit, step_string, step_number, step_byte,
}
use vllm_priority_gateway.Proxy.JsonValidator.Grammar.{
  Text, Digits, no_digit, a_digit, Digits1, digits, Power, signed, unsigned, no_exponent,
  an_exponent, Decimals, no_decimal, a_decimal, Decimals1, decimals, Fraction, no_point, point,
  Whole, no_more, one_more, Unsigned, from_zero, from_nonzero,
}
use vllm_priority_gateway.Proxy.JsonValidator.Language.{Rest, Then, at, Takes, Accepts}
use vllm_priority_gateway.Proxy.JsonValidator.Ends.{
  Rest-ends, is_end, end_value_sound, end_value_complete,
}
use vllm_priority_gateway.Proxy.JsonValidator.Begins.{Into}

-- The states are entered and left with the flag `failed` unset.
module _ (c : ℕ) (xs : Text) (e : Bool) (st : Stack) where
  -- `endValue`, from any state
  pub ending_sound :
      (s : JsonScanState) → Into (Rest st (c ∷ xs)) xs (end_value c (at s e false st))
  unfolding end_value
  ending_sound s t = end_value_sound c xs st (at s e false st) refl t

  pub ending_complete :
      (s : JsonScanState) → Rest st (c ∷ xs) → Accepts (end_value c (at s e false st)) xs
  unfolding end_value
  ending_complete s r = end_value_complete c xs st (at s e false st) refl r

  after_integer_sound :
      (s : JsonScanState) → Into (Then Fraction st (c ∷ xs)) xs (after_integer c (at s e false st))
  unfolding after_integer Takes
  after_integer_sound s =
      let P : Step → Type 0 = Into (Then Fraction st (c ∷ xs)) xs in
      if_keeps P (c == b'.') (λ h t. (t.0, point h t.1, t.2))
        (λ _.
          if_keeps P (is_exponent c) (λ h t. (t.0, no_point (an_exponent h t.1), t.2))
            (λ _ t. (c ∷ xs, no_point no_exponent, ending_sound s t)))

  after_integer_complete :
      (s : JsonScanState)
      → Then Fraction st (c ∷ xs)
      → Accepts (after_integer c (at s e false st)) xs
  unfolding after_integer Takes is_end
  after_integer_complete s (ys, point h t, r) = rw h (ys, t, r)
  after_integer_complete s (ys, no_point (an_exponent h t), r) =
      let k : (c == b'.') ≡ false = ground arith in rw (k, h) (ys, t, r)
  after_integer_complete s (_, no_point no_exponent, r) =
      let n = Rest-ends c xs st r in
      let k : (c == b'.') ≡ false = ground arith in
      let l : is_exponent c ≡ false = ground arith in rw (k, l) (ending_complete s r)

  pub digit_sound :
      (s : JsonScanState) → Into (Then Digits1 st (c ∷ xs)) xs (exponent_digit c (at s e false st))
  unfolding exponent_digit fail Takes
  digit_sound s =
      if_keeps (Into (Then Digits1 st (c ∷ xs)) xs) (not (is_digit c)) (λ _ t. absurd t)
        (λ h t. (t.0, digits (of_negation (is_digit c) h) t.1, t.2))

  pub digit_complete :
      (s : JsonScanState)
      → Then Digits1 st (c ∷ xs)
      → Accepts (exponent_digit c (at s e false st)) xs
  unfolding exponent_digit fail Takes
  digit_complete s (ys, digits h t, r) = rw h (ys, t, r)

  pub negative_sound :
      Into (Then Unsigned st (c ∷ xs)) xs (step_byte c (at state_negative e false st))
  unfolding step_byte step_string step_number fail Takes
  negative_sound =
      let P : Step → Type 0 = Into (Then Unsigned st (c ∷ xs)) xs in
      if_keeps P (c == b'0') (λ h t. (t.0, from_zero h t.1, t.2))
        (λ _.
          if_keeps P (is_nonzero_digit c) (λ h t. (t.0, from_nonzero h t.1, t.2)) (λ _ t. absurd t))

  pub negative_complete :
      Then Unsigned st (c ∷ xs) → Accepts (step_byte c (at state_negative e false st)) xs
  unfolding step_byte step_string step_number fail Takes
  negative_complete (ys, from_zero h t, r) = rw h (ys, t, r)
  negative_complete (ys, from_nonzero h t, r) =
      let k : (c == b'0') ≡ false = ground arith in rw (k, h) (ys, t, r)

  pub zero_sound : Into (Then Fraction st (c ∷ xs)) xs (step_byte c (at state_zero e false st))
  unfolding step_byte step_string step_number
  zero_sound = after_integer_sound state_zero

  pub zero_complete :
      Then Fraction st (c ∷ xs) → Accepts (step_byte c (at state_zero e false st)) xs
  unfolding step_byte step_string step_number
  zero_complete = after_integer_complete state_zero

  pub integer_sound : Into (Then Whole st (c ∷ xs)) xs (step_byte c (at state_integer e false st))
  unfolding step_byte step_string step_number Takes
  integer_sound =
      if_keeps (Into (Then Whole st (c ∷ xs)) xs) (is_digit c) (λ h t. (t.0, one_more h t.1, t.2))
        (λ _ t. let u = after_integer_sound state_integer t in (u.0, no_more u.1, u.2))

  Fraction-not_digit : Then Fraction st (c ∷ xs) → is_digit c ≡ false
  unfolding is_end
  Fraction-not_digit (ys, point h t, r) = ground arith
  Fraction-not_digit (ys, no_point (an_exponent h t), r) = ground arith
  Fraction-not_digit (_, no_point no_exponent, r) = let n = Rest-ends c xs st r in ground arith

  pub integer_complete :
      Then Whole st (c ∷ xs) → Accepts (step_byte c (at state_integer e false st)) xs
  unfolding step_byte step_string step_number Takes
  integer_complete (ys, one_more h t, r) = rw h (ys, t, r)
  integer_complete (ys, no_more t, r) =
      rw (Fraction-not_digit (ys, t, r)) (after_integer_complete state_integer (ys, t, r))

  pub point_sound :
      Into (Then Decimals1 st (c ∷ xs)) xs (step_byte c (at state_decimal_point e false st))
  unfolding step_byte step_string step_number fail Takes
  point_sound =
      if_keeps (Into (Then Decimals1 st (c ∷ xs)) xs) (not (is_digit c)) (λ _ t. absurd t)
        (λ h t. (t.0, decimals (of_negation (is_digit c) h) t.1, t.2))

  pub point_complete :
      Then Decimals1 st (c ∷ xs) → Accepts (step_byte c (at state_decimal_point e false st)) xs
  unfolding step_byte step_string step_number fail Takes
  point_complete (ys, decimals h t, r) = rw h (ys, t, r)

  pub decimal_sound :
      Into (Then Decimals st (c ∷ xs)) xs (step_byte c (at state_decimal e false st))
  unfolding step_byte step_string step_number Takes
  decimal_sound =
      let P : Step → Type 0 = Into (Then Decimals st (c ∷ xs)) xs in
      if_keeps P (is_digit c) (λ h t. (t.0, a_decimal h t.1, t.2))
        (λ _.
          if_keeps P (is_exponent c) (λ h t. (t.0, no_decimal (an_exponent h t.1), t.2))
            (λ _ t. (c ∷ xs, no_decimal no_exponent, ending_sound state_decimal t)))

  pub decimal_complete :
      Then Decimals st (c ∷ xs) → Accepts (step_byte c (at state_decimal e false st)) xs
  unfolding step_byte step_string step_number Takes is_end
  decimal_complete (ys, a_decimal h t, r) = rw h (ys, t, r)
  decimal_complete (ys, no_decimal (an_exponent h t), r) =
      let k : is_digit c ≡ false = ground arith in rw (k, h) (ys, t, r)
  decimal_complete (_, no_decimal no_exponent, r) =
      let n = Rest-ends c xs st r in
      let k : is_digit c ≡ false = ground arith in
      let l : is_exponent c ≡ false = ground arith in rw (k, l) (ending_complete state_decimal r)

  pub exponent_sound : Into (Then Power st (c ∷ xs)) xs (step_byte c (at state_exponent e false st))
  unfolding step_byte step_string step_number Takes
  exponent_sound =
      if_keeps (Into (Then Power st (c ∷ xs)) xs) (is_sign c) (λ h t. (t.0, signed h t.1, t.2))
        (λ _ t. let u = digit_sound state_exponent t in (u.0, unsigned u.1, u.2))

  pub exponent_complete :
      Then Power st (c ∷ xs) → Accepts (step_byte c (at state_exponent e false st)) xs
  unfolding step_byte step_string step_number Takes
  exponent_complete (ys, signed h t, r) = rw h (ys, t, r)
  exponent_complete (ys, unsigned (digits h t), r) =
      let k : is_sign c ≡ false = ground arith in
      rw k (digit_complete state_exponent (ys, digits h t, r))

  pub exponent_loop_sound :
      Into (Then Digits st (c ∷ xs)) xs (step_byte c (at state_exponent_digits e false st))
  unfolding step_byte step_string step_number Takes
  exponent_loop_sound =
      if_keeps (Into (Then Digits st (c ∷ xs)) xs) (is_digit c) (λ h t. (t.0, a_digit h t.1, t.2))
        (λ _ t. (c ∷ xs, no_digit, ending_sound state_exponent_digits t))

  pub exponent_loop_complete :
      Then Digits st (c ∷ xs) → Accepts (step_byte c (at state_exponent_digits e false st)) xs
  unfolding step_byte step_string step_number Takes is_end
  exponent_loop_complete (ys, a_digit h t, r) = rw h (ys, t, r)
  exponent_loop_complete (_, no_digit, r) =
      let n = Rest-ends c xs st r in
      let k : is_digit c ≡ false = ground arith in rw k (ending_complete state_exponent_digits r)
