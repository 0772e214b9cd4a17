-- ===== src/Proxy/JsonValidator/Ends.antt =====
-- `endValue` and what it calls, against the grammar: the byte ends a value, or follows one.
use vllm_priority_gateway.Base.{
  of_negation, [], ℕ, suc, Bool, true, false, ◌||◌, not, ◌≡◌, subst, ◌∷◌, ◌==◌, length, if_keeps,
  Bool-cases, inl, inr, arith,
}
use vllm_priority_gateway.Proxy.JsonValidator.{
  is_space, JsonParseState, parse_object_key, parse_object_value, parse_array_value, Stack,
  Validator, Step, fail, pop, end_value_in, end_value_on,
}
use vllm_priority_gateway.Proxy.JsonValidator.Grammar.{
  Text, a_space, Value, more_spaced, more_closed, more_comma, colon_spaced, colon, members_spaced,
  members_closed, members_comma,
}
use vllm_priority_gateway.Proxy.JsonValidator.Language.{Rest, OpenMember, Then, Takes, Accepts}

unfoldable pub is_end : ℕ → Bool
is_end d = is_space d || d == b':' || d == b',' || d == b'}' || d == b']'

module _ (c : ℕ) (xs : Text) where
  pub popped_sound :
      (st : Stack) (v : Validator) → Takes (pop st v).state (pop st v).stack xs → Rest st xs
  unfolding pop Rest Takes
  popped_sound [] v t = t
  popped_sound (p ∷ st) v t = t

  -- What the branches of `end_value` leave, put back behind the byte.
  end_value_in_sound :
      (p : JsonParseState) (st : Stack) (v : Validator)
      → v.stack ≡ p ∷ st
      → Accepts (end_value_in p st c v) xs
      → Rest (p ∷ st) (c ∷ xs)
  unfolding end_value_in fail Rest Takes OpenMember
  end_value_in_sound parse_object_key st v e =
      if_keeps (λ (r : Step). Accepts r xs → Rest (parse_object_key ∷ st) (c ∷ xs))
        (not (c == b':')) (λ _ t. absurd t)
        (λ h t. (t.2.0, colon (of_negation (c == b':') h) t.1 t.2.1, t.2.2))
  end_value_in_sound parse_object_value st v e =
      if_keeps (λ (r : Step). Accepts r xs → Rest (parse_object_value ∷ st) (c ∷ xs)) (c == b',')
        (λ h t. (t.0, members_comma h t.1, t.2))
        (λ _.
          if_keeps (λ (r : Step). Accepts r xs → Rest (parse_object_value ∷ st) (c ∷ xs))
            (not (c == b'}')) (λ _ t. absurd t)
            (λ h t. (xs, members_closed (of_negation (c == b'}') h), popped_sound st v t)))
  end_value_in_sound parse_array_value st v e =
      if_keeps (λ (r : Step). Accepts r xs → Rest (parse_array_value ∷ st) (c ∷ xs)) (c == b',')
        (λ h t.
          let u : Then (Value (suc (length st))) (parse_array_value ∷ st) xs =
            subst (λ (st : Stack). Then (Value (length st)) st xs) e t in
          (u.2.0, more_comma h u.1 u.2.1, u.2.2))
        (λ _.
          if_keeps (λ (r : Step). Accepts r xs → Rest (parse_array_value ∷ st) (c ∷ xs))
            (not (c == b']')) (λ _ t. absurd t)
            (λ h t. (xs, more_closed (of_negation (c == b']') h), popped_sound st v t)))

  space_sound :
      (p : JsonParseState) (st : Stack)
      → is_space c ≡ true
      → Rest (p ∷ st) xs
      → Rest (p ∷ st) (c ∷ xs)
  unfolding Rest
  space_sound parse_object_key st h t = (t.0, colon_spaced h t.1, t.2)
  space_sound parse_object_value st h t = (t.0, members_spaced h t.1, t.2)
  space_sound parse_array_value st h t = (t.0, more_spaced h t.1, t.2)

  pub end_value_sound :
      (st : Stack) (v : Validator)
      → v.stack ≡ st
      → Accepts (end_value_on st c v) xs
      → Rest st (c ∷ xs)
  unfolding end_value_on fail Rest Takes
  end_value_sound [] v e =
      if_keeps (λ (r : Step). Accepts r xs → Rest [] (c ∷ xs)) (not (is_space c)) (λ _ t. absurd t)
        (λ h t. a_space (of_negation (is_space c) h) t)
  end_value_sound (p ∷ st) v e =
      if_keeps (λ (r : Step). Accepts r xs → Rest (p ∷ st) (c ∷ xs)) (is_space c)
        (λ h t. space_sound p st h (subst (λ (st : Stack). Rest st xs) e t))
        (λ _ t. end_value_in_sound p st v e t)

  pub popped_complete :
      (st : Stack) (v : Validator) → Rest st xs → Takes (pop st v).state (pop st v).stack xs
  unfolding pop Rest Takes
  popped_complete [] v t = t
  popped_complete (p ∷ st) v t = t

  pub Rest-ends : (st : Stack) → Rest st (c ∷ xs) → is_end c ≡ true
  unfolding Rest is_end
  Rest-ends [] (a_space h t) = ground arith
  Rest-ends (parse_array_value ∷ st) (ys, more_spaced h t, r) = ground arith
  Rest-ends (parse_array_value ∷ st) (ys, more_closed h, r) = ground arith
  Rest-ends (parse_array_value ∷ st) (ys, more_comma h t u, r) = ground arith
  Rest-ends (parse_object_value ∷ st) (ys, members_spaced h t, r) = ground arith
  Rest-ends (parse_object_value ∷ st) (ys, members_closed h, r) = ground arith
  Rest-ends (parse_object_value ∷ st) (ys, members_comma h t, r) = ground arith
  Rest-ends (parse_object_key ∷ st) (ys, colon_spaced h t, r) = ground arith
  Rest-ends (parse_object_key ∷ st) (ys, colon h t u, r) = ground arith

  end_value_in_complete :
      (p : JsonParseState) (st : Stack) (v : Validator)
      → v.stack ≡ p ∷ st
      → is_space c ≡ false
      → Rest (p ∷ st) (c ∷ xs)
      → Accepts (end_value_in p st c v) xs
  unfolding end_value_in fail Rest Takes OpenMember
  end_value_in_complete parse_object_key st v e n (ys, colon_spaced h t, r) = absurd cc
  end_value_in_complete parse_object_key st v e n (ys, colon {ys = zs} h t u, r) =
      rw h (zs, t, (ys, u, r))
  end_value_in_complete parse_object_value st v e n (ys, members_spaced h t, r) = absurd cc
  end_value_in_complete parse_object_value st v e n (ys, members_closed h, r) =
      let k : (c == b',') ≡ false = ground arith in rw (k, h) (popped_complete st v r)
  end_value_in_complete parse_object_value st v e n (ys, members_comma h t, r) = rw h (ys, t, r)
  end_value_in_complete parse_array_value st v e n (ys, more_spaced h t, r) = absurd cc
  end_value_in_complete parse_array_value st v e n (ys, more_closed h, r) =
      let k : (c == b',') ≡ false = ground arith in rw (k, h) (popped_complete st v r)
  end_value_in_complete parse_array_value st v e n (ys, more_comma {ys = zs} h t u, r) =
      rw (h, e) (zs, t, (ys, u, r))

  space_complete :
      (p : JsonParseState) (st : Stack)
      → is_space c ≡ true
      → Rest (p ∷ st) (c ∷ xs)
      → Rest (p ∷ st) xs
  unfolding Rest
  space_complete parse_object_key st s (ys, colon_spaced h t, r) = (ys, t, r)
  space_complete parse_object_key st s (ys, colon h t u, r) = absurd (ground arith)
  space_complete parse_object_value st s (ys, members_spaced h t, r) = (ys, t, r)
  space_complete parse_object_value st s (ys, members_closed h, r) = absurd (ground arith)
  space_complete parse_object_value st s (ys, members_comma h t, r) = absurd (ground arith)
  space_complete parse_array_value st s (ys, more_spaced h t, r) = (ys, t, r)
  space_complete parse_array_value st s (ys, more_closed h, r) = absurd (ground arith)
  space_complete parse_array_value st s (ys, more_comma h t u, r) = absurd (ground arith)

  pub end_value_complete :
      (st : Stack) (v : Validator)
      → v.stack ≡ st
      → Rest st (c ∷ xs)
      → Accepts (end_value_on st c v) xs
  unfolding end_value_on fail Rest Takes
  end_value_complete [] v e (a_space h t) = rw h t
  end_value_complete (p ∷ st) v e t = elim (Bool-cases (is_space c)) [
    | inl h ↦ rw (h, e) (space_complete p st h t)
    | inr h ↦ rw h (end_value_in_complete p st v e h t)
  ]
