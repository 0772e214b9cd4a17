-- ===== src/Proxy/JsonValidator/Begins.antt =====
-- `beginValue` and `beginString` against the grammar, at a byte that is not whitespace.
use vllm_priority_gateway.Base.{
  of_negation, ℕ, Bool, true, false, not, ◌≡◌, sym, subst, ◌∷◌, ◌==◌, length, if_keeps, arith,
  ==_iff,
}
use vllm_priority_gateway.Proxy.JsonValidator.{
  is_space, is_nonzero_digit, max_json_nesting_depth, JsonScanState, state_integer,
  parse_object_key, Stack, Step, fail, go, push, begin_value, begin_string,
}
use vllm_priority_gateway.Proxy.JsonValidator.Grammar.{
  Text, Value, spaced, string, negative, zero_number, number, the_true, the_false, the_null, array,
  object, key_spaced, key,
}
use vllm_priority_gateway.Proxy.JsonValidator.Language.{
  Rest, OpenArray, OpenObject, OpenMember, Then, at, Takes, Accepts,
}

-- What is to be shown of each branch of a step, to put its byte back.
abbrev pub Into : Type 0 → Text → Step → Type 0
Into G xs r = Accepts r xs → G

pub at_byte : (P : ℕ → Type 0) {c k : ℕ} → (c == k) ≡ true → P k → P c
at_byte P {c} {k} h t = subst P (sym ((==_iff c k).0 h)) t

module _ (c : ℕ) (xs : Text) (s : JsonScanState) (e f : Bool) (st : Stack) where
  pub begin_value_sound :
      is_space c ≡ false
      → Into (Then (Value (length st)) st (c ∷ xs)) xs (begin_value c (at s e f st))
  unfolding begin_value push fail Takes OpenObject OpenArray
  begin_value_sound n =
      let P : Step → Type 0 = Into (Then (Value (length st)) st (c ∷ xs)) xs in
      rw n (
        if_keeps P (c == b'{')
          (λ h.
            if_keeps P (length st == max_json_nesting_depth) (λ _ t. absurd t)
              (λ k t. (t.0, object h k t.1, t.2)))
          (λ _.
            if_keeps P (c == b'[')
              (λ h.
                if_keeps P (length st == max_json_nesting_depth) (λ _ t. absurd t)
                  (λ k t. (t.0, array h k t.1, t.2)))
              (λ _.
                if_keeps P (c == 34) (λ h t. (t.0, string h t.1, t.2))
                  (λ _.
                    if_keeps P (c == b'-') (λ h t. (t.0, negative h t.1, t.2))
                      (λ _.
                        if_keeps P (c == b'0') (λ h t. (t.0, zero_number h t.1, t.2))
                          (λ _.
                            if_keeps P (c == b't') (λ h t. (t.0, the_true h t.1, t.2))
                              (λ _.
                                if_keeps P (c == b'f') (λ h t. (t.0, the_false h t.1, t.2))
                                  (λ _.
                                    if_keeps P (c == b'n') (λ h t. (t.0, the_null h t.1, t.2))
                                      (λ _.
                                        if_keeps P (is_nonzero_digit c)
                                          (λ h t. (t.0, number h t.1, t.2))
                                          (λ _ t. absurd t))))))))))

  begins_with :
      (k : ℕ)
      → (c == k) ≡ true
      → Accepts (begin_value k (at s e f st)) xs
      → Accepts (begin_value c (at s e f st)) xs
  begins_with k = at_byte (λ (c : ℕ). Accepts (begin_value c (at s e f st)) xs)

  pub begin_value_complete :
      is_space c ≡ false
      → Then (Value (length st)) st (c ∷ xs)
      → Accepts (begin_value c (at s e f st)) xs
  unfolding begin_value push fail Takes OpenObject OpenArray
  begin_value_complete n (ys, spaced h t, r) = absurd cc
  begin_value_complete n (ys, string h t, r) = begins_with _ h (ys, t, r)
  begin_value_complete n (ys, negative h t, r) = begins_with _ h (ys, t, r)
  begin_value_complete n (ys, zero_number h t, r) = begins_with _ h (ys, t, r)
  begin_value_complete n (ys, number h t, r) =
      let k : begin_value c (at s e f st) ≡ go state_integer (at s e f st) = ground arith in
      subst (λ (r : Step). Accepts r xs) (sym k) (ys, t, r)
  begin_value_complete n (ys, the_true h t, r) = begins_with _ h (ys, t, r)
  begin_value_complete n (ys, the_false h t, r) = begins_with _ h (ys, t, r)
  begin_value_complete n (ys, the_null h t, r) = begins_with _ h (ys, t, r)
  begin_value_complete n (ys, array h k t, r) = begins_with _ h (rw k (ys, t, r))
  begin_value_complete n (ys, object h k t, r) = begins_with _ h (rw k (ys, t, r))

module _ (c : ℕ) (xs : Text) (s : JsonScanState) (e f : Bool) (st : Stack) where
  pub begin_string_sound :
      is_space c ≡ false
      → Into
          (OpenMember (parse_object_key ∷ st) (c ∷ xs))
          xs
          (begin_string c (at s e f (parse_object_key ∷ st)))
  unfolding begin_string fail Takes OpenMember Rest
  begin_string_sound n = rw n (
      if_keeps (Into (OpenMember (parse_object_key ∷ st) (c ∷ xs)) xs) (not (c == 34))
        (λ _ t. absurd t) (λ h t. (t.2.0, key (of_negation (c == 34) h) t.1 t.2.1, t.2.2)))

  pub begin_string_complete :
      is_space c ≡ false
      → OpenMember (parse_object_key ∷ st) (c ∷ xs)
      → Accepts (begin_string c (at s e f (parse_object_key ∷ st))) xs
  unfolding begin_string fail Takes OpenMember Rest
  begin_string_complete n (ys, key_spaced h t, r) = absurd cc
  begin_string_complete n (ys, key {ys = zs} h t u, r) = rw (n, h) (zs, t, (ys, u, r))
