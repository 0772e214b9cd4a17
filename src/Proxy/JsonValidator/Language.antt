-- ===== src/Proxy/JsonValidator/Language.antt =====
-- What each state of internal/proxy/json_validator.go still takes, in words of the grammar.
use vllm_priority_gateway.Base.{[], ℕ, suc, Bool, true, false, ◌≡◌, ◌↔◌, ◌∷◌, length}
use vllm_priority_gateway.Proxy.JsonValidator.{
  JsonScanState, state_begin_value, state_begin_value_or_empty, state_begin_string_or_empty,
  state_begin_string, state_end_value, state_end_top, state_in_string, state_in_string_escape,
  state_in_string_unicode1, state_in_string_unicode2, state_in_string_unicode3,
  state_in_string_unicode4, state_negative, state_zero, state_integer, state_decimal_point,
  state_decimal, state_exponent, state_exponent_sign, state_exponent_digits, state_true_r,
  state_true_u, state_true_e, state_false_a, state_false_l, state_false_s, state_false_e,
  state_null_u, state_null_l1, state_null_l2, state_error, parse_object_key, parse_object_value,
  parse_array_value, Stack, Validator, Step, step_byte,
}
use vllm_priority_gateway.Proxy.JsonValidator.Grammar.{
  Text, Spaces, Spells, Str, Escape, Hex4, Hex3, Hex2, Hex1, Digits, Digits1, Power, Decimals,
  Decimals1, Fraction, Whole, Unsigned, Value, Elements, MoreElements, Members, Member, AfterKey,
  MoreMembers,
}

unfoldable pub Rest : Stack → Text → Type 0
Rest [] xs = Spaces xs
Rest (parse_array_value ∷ st) xs = (ys : Text) × MoreElements (suc (length st)) xs ys × Rest st ys
Rest (parse_object_value ∷ st) xs = (ys : Text) × MoreMembers (suc (length st)) xs ys × Rest st ys
Rest (parse_object_key ∷ st) xs = (ys : Text) × AfterKey (suc (length st)) xs ys × Rest st ys

unfoldable pub OpenArray : Stack → Text → Type 0
unfolding Rest
OpenArray (parse_array_value ∷ st) xs = (ys : Text) × Elements (suc (length st)) xs ys × Rest st ys
OpenArray st xs = ⊥

unfoldable pub OpenObject : Stack → Text → Type 0
unfolding Rest
OpenObject (parse_object_key ∷ st) xs = (ys : Text) × Members (suc (length st)) xs ys × Rest st ys
OpenObject st xs = ⊥

unfoldable pub OpenMember : Stack → Text → Type 0
unfolding Rest
OpenMember (parse_object_key ∷ st) xs = (ys : Text) × Member (suc (length st)) xs ys × Rest st ys
OpenMember st xs = ⊥

-- A token, and what the stack takes after it.
abbrev pub Then : (Text → Text → Type 0) → Stack → Text → Type 0
Then X st xs = (ys : Text) × X xs ys × Rest st ys

unfoldable pub Takes : JsonScanState → Stack → Text → Type 0
unfolding Rest OpenArray OpenObject OpenMember
Takes state_begin_value st xs = Then (Value (length st)) st xs
Takes state_begin_value_or_empty st xs = OpenArray st xs
Takes state_begin_string_or_empty st xs = OpenObject st xs
Takes state_begin_string st xs = OpenMember st xs
Takes state_end_value st xs = Rest st xs
Takes state_end_top st xs = Spaces xs
Takes state_in_string st xs = Then Str st xs
Takes state_in_string_escape st xs = Then Escape st xs
Takes state_in_string_unicode1 st xs = Then Hex4 st xs
Takes state_in_string_unicode2 st xs = Then Hex3 st xs
Takes state_in_string_unicode3 st xs = Then Hex2 st xs
Takes state_in_string_unicode4 st xs = Then Hex1 st xs
Takes state_negative st xs = Then Unsigned st xs
Takes state_zero st xs = Then Fraction st xs
Takes state_integer st xs = Then Whole st xs
Takes state_decimal_point st xs = Then Decimals1 st xs
Takes state_decimal st xs = Then Decimals st xs
Takes state_exponent st xs = Then Power st xs
Takes state_exponent_sign st xs = Then Digits1 st xs
Takes state_exponent_digits st xs = Then Digits st xs
Takes state_true_r st xs = Then (Spells (b'r' ∷ b'u' ∷ b'e' ∷ [])) st xs
Takes state_true_u st xs = Then (Spells (b'u' ∷ b'e' ∷ [])) st xs
Takes state_true_e st xs = Then (Spells (b'e' ∷ [])) st xs
Takes state_false_a st xs = Then (Spells (b'a' ∷ b'l' ∷ b's' ∷ b'e' ∷ [])) st xs
Takes state_false_l st xs = Then (Spells (b'l' ∷ b's' ∷ b'e' ∷ [])) st xs
Takes state_false_s st xs = Then (Spells (b's' ∷ b'e' ∷ [])) st xs
Takes state_false_e st xs = Then (Spells (b'e' ∷ [])) st xs
Takes state_null_u st xs = Then (Spells (b'u' ∷ b'l' ∷ b'l' ∷ [])) st xs
Takes state_null_l1 st xs = Then (Spells (b'l' ∷ b'l' ∷ [])) st xs
Takes state_null_l2 st xs = Then (Spells (b'l' ∷ [])) st xs
Takes state_error st xs = ⊥

-- A validator's fields apart from its stack.
abbrev pub at : JsonScanState → Bool → Bool → Stack → Validator
at s e f st = record { state = s; stack = st; end_top = e; failed = f }

abbrev pub Accepts : Step → Text → Type 0
Accepts r xs = Takes r.0.state r.0.stack xs

-- What holds of the fields while bytes are taken: the states inside an array or an object that has
-- just begun stand over it, and the two flags are read off the state.
abbrev pub is_shaped : JsonScanState → Stack → Bool
is_shaped state_begin_value_or_empty (parse_array_value ∷ st) = true
is_shaped state_begin_value_or_empty st = false
is_shaped state_begin_string_or_empty (parse_object_key ∷ st) = true
is_shaped state_begin_string_or_empty st = false
is_shaped state_begin_string (parse_object_key ∷ st) = true
is_shaped state_begin_string st = false
is_shaped state_end_top [] = true
is_shaped state_end_top st = false
is_shaped s st = true

abbrev pub is_error : JsonScanState → Bool
is_error state_error = true
is_error s = false

abbrev pub is_end_top : JsonScanState → Bool
is_end_top state_end_top = true
is_end_top s = false

unfoldable pub IsWellFormed : Validator → Type 0
IsWellFormed v =
    (is_shaped v.state v.stack ≡ true)
    × (v.failed ≡ is_error v.state)
    × (v.failed ≡ false → v.end_top ≡ is_end_top v.state)

abbrev pub Reads : ℕ → Text → JsonScanState → Bool → Stack → Type 0
Reads c xs s e st = Takes s st (c ∷ xs) ↔ Accepts (step_byte c (at s e false st)) xs
