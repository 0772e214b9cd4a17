-- ===== src/Proxy/JsonValidator/Strings.antt =====
-- The states inside a string against the grammar.
use vllm_priority_gateway.Base.{
  of_negation, ℕ, Bool, true, false, not, ◌≡◌, ◌∷◌, ltb, ◌==◌, if_keeps, arith,
}
use vllm_priority_gateway.Proxy.JsonValidator.{
  is_hex, is_escape, JsonScanState, state_in_string, state_in_string_escape, Stack, Step, fail,
  unicode, step_string, step_byte,
}
use vllm_priority_gateway.Proxy.JsonValidator.Grammar.{
  Text, Str, quote, backslash, plain, Escape, escaped, code,
}
use vllm_priority_gateway.Proxy.JsonValidator.Language.{Then, at, Takes, Accepts}
use vllm_priority_gateway.Proxy.JsonValidator.Begins.{Into}

module _ (c : ℕ) (xs : Text) (e : Bool) (st : Stack) where
  pub in_string_sound : Into (Then Str st (c ∷ xs)) xs (step_byte c (at state_in_string e false st))
  unfolding step_byte step_string fail Takes
  in_string_sound =
      let P : Step → Type 0 = Into (Then Str st (c ∷ xs)) xs in
      if_keeps P (c == 34) (λ h t. (xs, quote h, t))
        (λ h.
          if_keeps P (c == 92) (λ k t. (t.0, backslash k t.1, t.2))
            (λ k. if_keeps P (ltb c 32) (λ _ t. absurd t) (λ l t. (t.0, plain h k l t.1, t.2))))

  pub in_string_complete :
      Then Str st (c ∷ xs) → Accepts (step_byte c (at state_in_string e false st)) xs
  unfolding step_byte step_string fail Takes
  in_string_complete (_, quote h, r) = rw h r
  in_string_complete (ys, backslash h t, r) =
      let k : (c == 34) ≡ false = ground arith in rw (k, h) (ys, t, r)
  in_string_complete (ys, plain h k l t, r) = rw (h, k, l) (ys, t, r)

  pub after_backslash_sound :
      Into (Then Escape st (c ∷ xs)) xs (step_byte c (at state_in_string_escape e false st))
  unfolding step_byte step_string fail Takes
  after_backslash_sound =
      let P : Step → Type 0 = Into (Then Escape st (c ∷ xs)) xs in
      if_keeps P (is_escape c) (λ h t. (t.0, escaped h t.1, t.2))
        (λ _. if_keeps P (c == b'u') (λ h t. (t.0, code h t.1, t.2)) (λ _ t. absurd t))

  pub after_backslash_complete :
      Then Escape st (c ∷ xs) → Accepts (step_byte c (at state_in_string_escape e false st)) xs
  unfolding step_byte step_string fail Takes
  after_backslash_complete (ys, escaped h t, r) = rw h (ys, t, r)
  after_backslash_complete (ys, code h t, r) =
      let k : is_escape c ≡ false = ground arith in rw (k, h) (ys, t, r)

  -- A hexadecimal digit is read, and the machine goes on in `next`, which takes `Y`.
  module _ (X Y : Text → Text → Type 0) (next : JsonScanState) where
    pub unicode_sound :
        ((ys : Text) → is_hex c ≡ true → Y xs ys → X (c ∷ xs) ys)
        → (Takes next st xs → Then Y st xs)
        → (s : JsonScanState) → Into (Then X st (c ∷ xs)) xs (unicode c next (at s e false st))
    unfolding unicode fail Takes
    unicode_sound digit after s =
        if_keeps (Into (Then X st (c ∷ xs)) xs) (not (is_hex c)) (λ _ t. absurd t)
          (λ h t. let u = after t in (u.0, digit u.0 (of_negation (is_hex c) h) u.1, u.2))

    pub unicode_complete :
        ((ys : Text) → X (c ∷ xs) ys → (is_hex c ≡ true) × Y xs ys)
        → (Then Y st xs → Takes next st xs)
        → (s : JsonScanState) → Then X st (c ∷ xs)
        → Accepts (unicode c next (at s e false st)) xs
    unfolding unicode fail
    unicode_complete digit before s (ys, t, r) = let u = digit ys t in rw u.0 (before (ys, u.1, r))
