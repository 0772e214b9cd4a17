-- ===== src/Proxy/JsonValidator/Grammar.antt =====
-- The texts of RFC 8259 as a grammar over bytes, with no machine in it: `X xs ys` says that `X` is
-- read off the front of the text `xs` and leaves `ys`. It is what internal/proxy/json_validator.go is
-- for. In a string any byte from 32 on may stand but the quote and the backslash: as in the code,
-- nothing asks whether they are UTF-8.
use vllm_priority_gateway.Base.{[], ℕ, suc, true, false, ◌≡◌, List, ◌∷◌, ltb, ◌==◌}
use vllm_priority_gateway.Proxy.JsonValidator.{
  is_space, is_digit, is_nonzero_digit, is_exponent, is_sign, is_hex, is_escape,
  max_json_nesting_depth,
}

abbrev pub Text : Type 0
Text = List ℕ

pub data Spaces : Text → Type 0 where
  no_space : Spaces []
  a_space : {c : ℕ} {xs : Text} → is_space c ≡ true → Spaces xs → Spaces (c ∷ xs)

-- The first letter of a word is read before it.
pub data Spells : List ℕ → Text → Text → Type 0 where
  last_letter : {w c : ℕ} {xs : Text} → (c == w) ≡ true → Spells (w ∷ []) (c ∷ xs) xs
  letter :
      {w v c : ℕ} {ws : List ℕ} {xs ys : Text}
      → (c == w) ≡ true
      → Spells (v ∷ ws) xs ys
      → Spells (w ∷ v ∷ ws) (c ∷ xs) ys

-- What is left of a string after its quote, after a backslash, and before hexadecimal digits.
mutual
  pub data Str : Text → Text → Type 0 where
    quote : {c : ℕ} {xs : Text} → (c == 34) ≡ true → Str (c ∷ xs) xs
    backslash : {c : ℕ} {xs ys : Text} → (c == 92) ≡ true → Escape xs ys → Str (c ∷ xs) ys
    plain :
        {c : ℕ} {xs ys : Text}
        → (c == 34) ≡ false
        → (c == 92) ≡ false
        → ltb c 32 ≡ false
        → Str xs ys
        → Str (c ∷ xs) ys

  pub data Escape : Text → Text → Type 0 where
    escaped : {c : ℕ} {xs ys : Text} → is_escape c ≡ true → Str xs ys → Escape (c ∷ xs) ys
    code : {c : ℕ} {xs ys : Text} → (c == b'u') ≡ true → Hex4 xs ys → Escape (c ∷ xs) ys

  pub data Hex4 : Text → Text → Type 0 where
    hex4 : {c : ℕ} {xs ys : Text} → is_hex c ≡ true → Hex3 xs ys → Hex4 (c ∷ xs) ys

  pub data Hex3 : Text → Text → Type 0 where
    hex3 : {c : ℕ} {xs ys : Text} → is_hex c ≡ true → Hex2 xs ys → Hex3 (c ∷ xs) ys

  pub data Hex2 : Text → Text → Type 0 where
    hex2 : {c : ℕ} {xs ys : Text} → is_hex c ≡ true → Hex1 xs ys → Hex2 (c ∷ xs) ys

  pub data Hex1 : Text → Text → Type 0 where
    hex1 : {c : ℕ} {xs ys : Text} → is_hex c ≡ true → Str xs ys → Hex1 (c ∷ xs) ys

pub data Digits : Text → Text → Type 0 where
  no_digit : {xs : Text} → Digits xs xs
  a_digit : {c : ℕ} {xs ys : Text} → is_digit c ≡ true → Digits xs ys → Digits (c ∷ xs) ys

pub data Digits1 : Text → Text → Type 0 where
  digits : {c : ℕ} {xs ys : Text} → is_digit c ≡ true → Digits xs ys → Digits1 (c ∷ xs) ys

-- What follows an `e`.
pub data Power : Text → Text → Type 0 where
  signed : {c : ℕ} {xs ys : Text} → is_sign c ≡ true → Digits1 xs ys → Power (c ∷ xs) ys
  unsigned : {xs ys : Text} → Digits1 xs ys → Power xs ys

pub data Exponent : Text → Text → Type 0 where
  no_exponent : {xs : Text} → Exponent xs xs
  an_exponent : {c : ℕ} {xs ys : Text} → is_exponent c ≡ true → Power xs ys → Exponent (c ∷ xs) ys

-- Digits and an exponent.
pub data Decimals : Text → Text → Type 0 where
  no_decimal : {xs ys : Text} → Exponent xs ys → Decimals xs ys
  a_decimal : {c : ℕ} {xs ys : Text} → is_digit c ≡ true → Decimals xs ys → Decimals (c ∷ xs) ys

pub data Decimals1 : Text → Text → Type 0 where
  decimals : {c : ℕ} {xs ys : Text} → is_digit c ≡ true → Decimals xs ys → Decimals1 (c ∷ xs) ys

-- What follows the integer part.
pub data Fraction : Text → Text → Type 0 where
  no_point : {xs ys : Text} → Exponent xs ys → Fraction xs ys
  point : {c : ℕ} {xs ys : Text} → (c == b'.') ≡ true → Decimals1 xs ys → Fraction (c ∷ xs) ys

-- Further digits of the integer part, and what follows it.
pub data Whole : Text → Text → Type 0 where
  no_more : {xs ys : Text} → Fraction xs ys → Whole xs ys
  one_more : {c : ℕ} {xs ys : Text} → is_digit c ≡ true → Whole xs ys → Whole (c ∷ xs) ys

pub data Unsigned : Text → Text → Type 0 where
  from_zero : {c : ℕ} {xs ys : Text} → (c == b'0') ≡ true → Fraction xs ys → Unsigned (c ∷ xs) ys
  from_nonzero :
      {c : ℕ} {xs ys : Text} → is_nonzero_digit c ≡ true → Whole xs ys → Unsigned (c ∷ xs) ys

-- `d` arrays and objects are open. A value takes the whitespace before it; `Elements` and the
-- others stand inside the innermost one, which they close.
mutual
  pub data Value : ℕ → Text → Text → Type 0 where
    spaced : {d c : ℕ} {xs ys : Text} → is_space c ≡ true → Value d xs ys → Value d (c ∷ xs) ys
    string : {d c : ℕ} {xs ys : Text} → (c == 34) ≡ true → Str xs ys → Value d (c ∷ xs) ys
    negative : {d c : ℕ} {xs ys : Text} → (c == b'-') ≡ true → Unsigned xs ys → Value d (c ∷ xs) ys
    zero_number :
        {d c : ℕ} {xs ys : Text} → (c == b'0') ≡ true → Fraction xs ys → Value d (c ∷ xs) ys
    number :
        {d c : ℕ} {xs ys : Text} → is_nonzero_digit c ≡ true → Whole xs ys → Value d (c ∷ xs) ys
    the_true :
        {d c : ℕ} {xs ys : Text}
        → (c == b't') ≡ true
        → Spells (b'r' ∷ b'u' ∷ b'e' ∷ []) xs ys
        → Value d (c ∷ xs) ys
    the_false :
        {d c : ℕ} {xs ys : Text}
        → (c == b'f') ≡ true
        → Spells (b'a' ∷ b'l' ∷ b's' ∷ b'e' ∷ []) xs ys
        → Value d (c ∷ xs) ys
    the_null :
        {d c : ℕ} {xs ys : Text}
        → (c == b'n') ≡ true
        → Spells (b'u' ∷ b'l' ∷ b'l' ∷ []) xs ys
        → Value d (c ∷ xs) ys
    array :
        {d c : ℕ} {xs ys : Text}
        → (c == b'[') ≡ true
        → (d == max_json_nesting_depth) ≡ false
        → Elements (suc d) xs ys
        → Value d (c ∷ xs) ys
    object :
        {d c : ℕ} {xs ys : Text}
        → (c == b'{') ≡ true
        → (d == max_json_nesting_depth) ≡ false
        → Members (suc d) xs ys
        → Value d (c ∷ xs) ys

  pub data Elements : ℕ → Text → Text → Type 0 where
    none_spaced :
        {d c : ℕ} {xs ys : Text} → is_space c ≡ true → Elements d xs ys → Elements d (c ∷ xs) ys
    none_closed : {d c : ℕ} {xs : Text} → (c == b']') ≡ true → Elements d (c ∷ xs) xs
    first : {d : ℕ} {xs ys zs : Text} → Value d xs ys → MoreElements d ys zs → Elements d xs zs

  pub data MoreElements : ℕ → Text → Text → Type 0 where
    more_spaced :
        {d c : ℕ} {xs ys : Text}
        → is_space c ≡ true
        → MoreElements d xs ys
        → MoreElements d (c ∷ xs) ys
    more_closed : {d c : ℕ} {xs : Text} → (c == b']') ≡ true → MoreElements d (c ∷ xs) xs
    more_comma :
        {d c : ℕ} {xs ys zs : Text}
        → (c == b',') ≡ true
        → Value d xs ys
        → MoreElements d ys zs
        → MoreElements d (c ∷ xs) zs

  pub data Members : ℕ → Text → Text → Type 0 where
    member_spaced :
        {d c : ℕ} {xs ys : Text} → is_space c ≡ true → Members d xs ys → Members d (c ∷ xs) ys
    member_closed : {d c : ℕ} {xs : Text} → (c == b'}') ≡ true → Members d (c ∷ xs) xs
    member_first : {d : ℕ} {xs ys : Text} → Member d xs ys → Members d xs ys

  pub data Member : ℕ → Text → Text → Type 0 where
    key_spaced :
        {d c : ℕ} {xs ys : Text} → is_space c ≡ true → Member d xs ys → Member d (c ∷ xs) ys
    key :
        {d c : ℕ} {xs ys zs : Text}
        → (c == 34) ≡ true
        → Str xs ys
        → AfterKey d ys zs
        → Member d (c ∷ xs) zs

  pub data AfterKey : ℕ → Text → Text → Type 0 where
    colon_spaced :
        {d c : ℕ} {xs ys : Text} → is_space c ≡ true → AfterKey d xs ys → AfterKey d (c ∷ xs) ys
    colon :
        {d c : ℕ} {xs ys zs : Text}
        → (c == b':') ≡ true
        → Value d xs ys
        → MoreMembers d ys zs
        → AfterKey d (c ∷ xs) zs

  pub data MoreMembers : ℕ → Text → Text → Type 0 where
    members_spaced :
        {d c : ℕ} {xs ys : Text}
        → is_space c ≡ true
        → MoreMembers d xs ys
        → MoreMembers d (c ∷ xs) ys
    members_closed : {d c : ℕ} {xs : Text} → (c == b'}') ≡ true → MoreMembers d (c ∷ xs) xs
    members_comma :
        {d c : ℕ} {xs ys : Text} → (c == b',') ≡ true → Member d xs ys → MoreMembers d (c ∷ xs) ys

-- A text of one value with whitespace around it.
abbrev pub IsJson : Text → Type 0
IsJson xs = (ys : Text) × Value 0 xs ys × Spaces ys
