-- ===== src/Proxy/JsonValidator/Arrays.antt =====
-- The states before a value and inside an array that has just begun, one byte further.
use vllm_priority_gateway.Base.{
  ℕ, suc, Bool, true, false, ◌≡◌, ◌↔◌, refl, sym, subst, ◌∷◌, ◌==◌, ==_iff, length, Bool-cases, inl,
  inr, arith,
}
use vllm_priority_gateway.Proxy.JsonValidator.{
  Stack, is_space, Step, fail, begin_value, end_value, step_string, step_number, step_literal,
  step_structure, step_byte, state_begin_value, state_begin_value_or_empty, parse_array_value,
}
use vllm_priority_gateway.Proxy.JsonValidator.Grammar.{
  Text, Value, Elements, spaced, string, negative, zero_number, number, the_true, the_false,
  the_null, array, object, none_spaced, none_closed, first, more_spaced, more_closed, more_comma,
}
use vllm_priority_gateway.Proxy.JsonValidator.Language.{
  Rest, OpenArray, Then, at, Takes, Accepts, Reads,
}
use vllm_priority_gateway.Proxy.JsonValidator.Begins
use vllm_priority_gateway.Proxy.JsonValidator.Numbers

module _ (c : ℕ) (xs : Text) (e : Bool) where
  Value-unspaced : {d : ℕ} {ys : Text} → is_space c ≡ true → Value d (c ∷ xs) ys → Value d xs ys
  Value-unspaced s (spaced h t) = t
  Value-unspaced s (string h t) = absurd (ground arith)
  Value-unspaced s (negative h t) = absurd (ground arith)
  Value-unspaced s (zero_number h t) = absurd (ground arith)
  Value-unspaced s (number h t) = absurd (ground arith)
  Value-unspaced s (the_true h t) = absurd (ground arith)
  Value-unspaced s (the_false h t) = absurd (ground arith)
  Value-unspaced s (the_null h t) = absurd (ground arith)
  Value-unspaced s (array h k t) = absurd (ground arith)
  Value-unspaced s (object h k t) = absurd (ground arith)

  pub begin_value-Reads : (st : Stack) → Reads c xs state_begin_value e st
  unfolding step_byte step_string step_number step_literal step_structure begin_value Takes
  begin_value-Reads st =
      elim (Bool-cases (is_space c)) as (λ _. Reads c xs state_begin_value e st) [
        | inl h ↦ rw h (λ t. (t.0, Value-unspaced h t.1, t.2), λ t. (t.0, spaced h t.1, t.2))
        | inr h ↦ (
          Begins.begin_value_complete c xs state_begin_value e false st h,
          Begins.begin_value_sound c xs state_begin_value e false st h,
        )
      ]

  Elements-unspaced :
      {d : ℕ} {ys : Text} → is_space c ≡ true → Elements d (c ∷ xs) ys → Elements d xs ys
  Elements-unspaced s (none_spaced h t) = t
  Elements-unspaced s (none_closed h) = absurd (ground arith)
  Elements-unspaced s (first t u) = first (Value-unspaced s t) u

  not_Value :
      (d : ℕ) (st : Stack) {ys : Text}
      → (c == b']') ≡ true
      → Value d (c ∷ xs) ys
      → d ≡ length st
      → Rest st ys
      → ⊥
  unfolding begin_value fail Takes
  not_Value d st {ys} h t q r =
      subst (λ (c : ℕ). Accepts (begin_value c (at state_begin_value false false st)) xs)
        ((==_iff c b']').0 h)
        (Begins.begin_value_complete c xs state_begin_value false false st (ground arith)
          (ys, subst (λ (d : ℕ). Value d (c ∷ xs) ys) q t, r))

  closing_array :
      (st : Stack)
      → (c == b']') ≡ true
      → OpenArray (parse_array_value ∷ st) (c ∷ xs) ↔ Rest (parse_array_value ∷ st) (c ∷ xs)
  unfolding OpenArray Rest
  closing_array st s = (closing, opening)
    where
      closing : OpenArray (parse_array_value ∷ st) (c ∷ xs) → Rest (parse_array_value ∷ st) (c ∷ xs)
      closing (_, none_closed h, r) = (xs, more_closed h, r)
      closing (ys, none_spaced h t, r) = absurd (ground arith)
      closing (ys, first {ys = zs} t u, r) =
          absurd (not_Value (suc (length st)) (parse_array_value ∷ st) s t refl (ys, u, r))

      opening : Rest (parse_array_value ∷ st) (c ∷ xs) → OpenArray (parse_array_value ∷ st) (c ∷ xs)
      opening (_, more_closed h, r) = (xs, none_closed h, r)
      opening (ys, more_spaced h t, r) = absurd (ground arith)
      opening (ys, more_comma h t u, r) = absurd (ground arith)

  first_element :
      (st : Stack)
      → is_space c ≡ false
      → (c == b']') ≡ false
      → OpenArray (parse_array_value ∷ st) (c ∷ xs)
        ↔ Then (Value (suc (length st))) (parse_array_value ∷ st) (c ∷ xs)
  unfolding OpenArray Rest
  first_element st s b = (there, λ t. (t.2.0, first t.1 t.2.1, t.2.2))
    where
      there :
          OpenArray (parse_array_value ∷ st) (c ∷ xs)
          → Then (Value (suc (length st))) (parse_array_value ∷ st) (c ∷ xs)
      there (_, none_closed h, r) = absurd cc
      there (ys, none_spaced h t, r) = absurd cc
      there (ys, first {ys = zs} t u, r) = (zs, t, (ys, u, r))

  pub array-Reads : (st : Stack) → Reads c xs state_begin_value_or_empty e (parse_array_value ∷ st)
  unfolding step_byte step_string step_number step_literal step_structure Takes
  array-Reads st =
      let v = at state_begin_value_or_empty e false (parse_array_value ∷ st) in
      elim (Bool-cases (is_space c))
        as (λ _. Reads c xs state_begin_value_or_empty e (parse_array_value ∷ st)) [
          | inl h ↦
              rw h (λ t. (t.0, Elements-unspaced h t.1, t.2), λ t. (t.0, none_spaced h t.1, t.2))
          | inr h ↦
              elim (Bool-cases (c == b']'))
                as (λ _. Reads c xs state_begin_value_or_empty e (parse_array_value ∷ st)) [
                  | inl k ↦
                      let q : step_byte c v ≡ end_value c v = rw (h, k) refl in
                      let r = closing_array st k in
                      subst
                        (λ (r : Step). OpenArray (parse_array_value ∷ st) (c ∷ xs) ↔ Accepts r xs)
                        (sym q)
                        (
                          λ t.
                              Numbers.ending_complete c xs e (parse_array_value ∷ st)
                                state_begin_value_or_empty (r.0 t),
                          λ t. r.1 (
                              Numbers.ending_sound c xs e (parse_array_value ∷ st)
                                state_begin_value_or_empty t),
                        )
                  | inr k ↦
                      let q : step_byte c v ≡ begin_value c v = rw (h, k) refl in
                      let r = first_element st h k in
                      subst
                        (λ (r : Step). OpenArray (parse_array_value ∷ st) (c ∷ xs) ↔ Accepts r xs)
                        (sym q)
                        (
                          λ t.
                              Begins.begin_value_complete c xs state_begin_value_or_empty e false
                                (parse_array_value ∷ st) h (r.0 t),
                          λ t. r.1 (
                              Begins.begin_value_sound c xs state_begin_value_or_empty e false
                                (parse_array_value ∷ st) h t),
                        )
                ]
        ]
