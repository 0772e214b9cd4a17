-- ===== src/Proxy/JsonValidator/Objects.antt =====
-- The states before a key and inside an object that has just begun, one byte further.
use vllm_priority_gateway.Base.{
  ℕ, Bool, true, false, ◌≡◌, ◌↔◌, refl, sym, subst, ◌∷◌, ◌==◌, Bool-cases, inl, inr, arith,
}
use vllm_priority_gateway.Proxy.JsonValidator.{
  Stack, is_space, Step, begin_string, end_value, step_string, step_number, step_literal,
  step_structure, step_byte, state_begin_string_or_empty, state_begin_string, parse_object_key,
  parse_object_value,
}
use vllm_priority_gateway.Proxy.JsonValidator.Grammar.{
  Text, Members, Member, member_spaced, member_closed, member_first, key_spaced, key,
  members_spaced, members_closed, members_comma,
}
use vllm_priority_gateway.Proxy.JsonValidator.Language.{
  Rest, OpenObject, OpenMember, at, Takes, Accepts, Reads,
}
use vllm_priority_gateway.Proxy.JsonValidator.Begins
use vllm_priority_gateway.Proxy.JsonValidator.Numbers

module _ (c : ℕ) (xs : Text) (e : Bool) where
  Member-unspaced : {d : ℕ} {ys : Text} → is_space c ≡ true → Member d (c ∷ xs) ys → Member d xs ys
  Member-unspaced s (key_spaced h t) = t
  Member-unspaced s (key h t u) = absurd (ground arith)

  Members-unspaced :
      {d : ℕ} {ys : Text} → is_space c ≡ true → Members d (c ∷ xs) ys → Members d xs ys
  Members-unspaced s (member_spaced h t) = t
  Members-unspaced s (member_closed h) = absurd (ground arith)
  Members-unspaced s (member_first t) = member_first (Member-unspaced s t)

  pub member-Reads : (st : Stack) → Reads c xs state_begin_string e (parse_object_key ∷ st)
  unfolding step_byte step_string step_number step_literal step_structure begin_string Takes
      OpenMember Rest
  member-Reads st =
      elim (Bool-cases (is_space c))
        as (λ _. Reads c xs state_begin_string e (parse_object_key ∷ st)) [
          | inl h ↦ rw h (λ t. (t.0, Member-unspaced h t.1, t.2), λ t. (t.0, key_spaced h t.1, t.2))
          | inr h ↦ (
            Begins.begin_string_complete c xs state_begin_string e false st h,
            Begins.begin_string_sound c xs state_begin_string e false st h,
          )
        ]

  closing_object :
      (st : Stack)
      → (c == b'}') ≡ true
      → OpenObject (parse_object_key ∷ st) (c ∷ xs) ↔ Rest (parse_object_value ∷ st) (c ∷ xs)
  unfolding OpenObject Rest
  closing_object st s = (closing, opening)
    where
      closing :
          OpenObject (parse_object_key ∷ st) (c ∷ xs) → Rest (parse_object_value ∷ st) (c ∷ xs)
      closing (_, member_closed h, r) = (xs, members_closed h, r)
      closing (ys, member_spaced h t, r) = absurd (ground arith)
      closing (ys, member_first (key_spaced h t), r) = absurd (ground arith)
      closing (ys, member_first (key h t u), r) = absurd (ground arith)

      opening :
          Rest (parse_object_value ∷ st) (c ∷ xs) → OpenObject (parse_object_key ∷ st) (c ∷ xs)
      opening (_, members_closed h, r) = (xs, member_closed h, r)
      opening (ys, members_spaced h t, r) = absurd (ground arith)
      opening (ys, members_comma h t, r) = absurd (ground arith)

  first_member :
      (st : Stack)
      → is_space c ≡ false
      → (c == b'}') ≡ false
      → OpenObject (parse_object_key ∷ st) (c ∷ xs) ↔ OpenMember (parse_object_key ∷ st) (c ∷ xs)
  unfolding OpenObject OpenMember Rest
  first_member st s b = (there, λ t. (t.0, member_first t.1, t.2))
    where
      there :
          OpenObject (parse_object_key ∷ st) (c ∷ xs) → OpenMember (parse_object_key ∷ st) (c ∷ xs)
      there (_, member_closed h, r) = absurd cc
      there (ys, member_spaced h t, r) = absurd cc
      there (ys, member_first t, r) = (ys, t, r)

  pub object-Reads : (st : Stack) → Reads c xs state_begin_string_or_empty e (parse_object_key ∷ st)
  unfolding step_byte step_string step_number step_literal step_structure Takes
  object-Reads st =
      let v = at state_begin_string_or_empty e false (parse_object_key ∷ st) in
      let w = at state_begin_string_or_empty e false (parse_object_value ∷ st) in
      elim (Bool-cases (is_space c))
        as (λ _. Reads c xs state_begin_string_or_empty e (parse_object_key ∷ st)) [
          | inl h ↦
              rw h (λ t. (t.0, Members-unspaced h t.1, t.2), λ t. (t.0, member_spaced h t.1, t.2))
          | inr h ↦
              elim (Bool-cases (c == b'}'))
                as (λ _. Reads c xs state_begin_string_or_empty e (parse_object_key ∷ st)) [
                  | inl k ↦
                      let q : step_byte c v ≡ end_value c w = rw (h, k) refl in
                      let r = closing_object st k in
                      subst
                        (λ (r : Step). OpenObject (parse_object_key ∷ st) (c ∷ xs) ↔ Accepts r xs)
                        (sym q)
                        (
                          λ t.
                              Numbers.ending_complete c xs e (parse_object_value ∷ st)
                                state_begin_string_or_empty (r.0 t),
                          λ t. r.1 (
                              Numbers.ending_sound c xs e (parse_object_value ∷ st)
                                state_begin_string_or_empty t),
                        )
                  | inr k ↦
                      let q : step_byte c v ≡ begin_string c v = rw (h, k) refl in
                      let r = first_member st h k in
                      subst
                        (λ (r : Step). OpenObject (parse_object_key ∷ st) (c ∷ xs) ↔ Accepts r xs)
                        (sym q)
                        (
                          λ t.
                              Begins.begin_string_complete c xs state_begin_string_or_empty e false
                                st h (r.0 t),
                          λ t. r.1 (
                              Begins.begin_string_sound c xs state_begin_string_or_empty e false st
                                h t),
                        )
                ]
        ]
