-- ===== src/Proxy/TokenUsage.antt =====
-- internal/proxy/usage.go and internal/domain/usage.go: the token counts in a decoded JSON value.
-- A text is the list of its bytes.
use vllm_priority_gateway.Base.{
  ℕ, Bool, true, false, ◌&&◌, not, Option, none, some, List, [], ◌∷◌, ◌==◌, if◌then◌else◌, is_none,
  ℤ, pos, leb_ℤ, ltb_ℤ,
}

abbrev pub Bytes : Type 0
Bytes = List ℕ

-- `bytes.Equal`
abbrev pub same : Bytes → Bytes → Bool
same [] [] = true
same (a ∷ v) (b ∷ w) = let rest = same v w in a == b && rest
same v w = false

-- An `any` that encoding/json decodes with `UseNumber`: nil, a `json.Number` by its text, a string, a
-- `map[string]any`, and the Booleans and arrays, which the code only tells from these.
mutual
  pub data Json : Type 0 where
    nil other : Json
    number text : Bytes → Json
    object : Fields → Json

  pub data Fields : Type 0 where
    empty_map : Fields
    entry : Bytes → Json → Fields → Fields

-- `value, present := object[key]`
unfoldable pub lookup : Bytes → Fields → Option Json
lookup k empty_map = none
lookup k (entry key value rest) =
    let found = lookup k rest in if same k key then some value else found

abbrev pub or_nil : Option Json → Json
or_nil none = nil
or_nil (some v) = v

-- `object[key]`
unfoldable pub get : Bytes → Fields → Json
unfolding lookup
get k fields = or_nil (lookup k fields)

unfoldable pub present : Bytes → Fields → Bool
unfolding lookup
present k fields = not (is_none (lookup k fields))

pub record TokenUsage : Type 0 where
  pub input_tokens : ℤ
  pub output_tokens : ℤ
  pub cache_read_tokens : Option ℤ

abbrev pub prompt_tokens_key : Bytes
prompt_tokens_key =
    b'p' ∷ b'r' ∷ b'o' ∷ b'm' ∷ b'p' ∷ b't' ∷ b'_' ∷ b't' ∷ b'o' ∷ b'k' ∷ b'e' ∷ b'n' ∷ b's' ∷ []

abbrev pub completion_tokens_key : Bytes
completion_tokens_key =
    b'c' ∷ b'o' ∷ b'm' ∷ b'p' ∷ b'l' ∷ b'e' ∷ b't' ∷ b'i' ∷ b'o' ∷ b'n' ∷ b'_' ∷ b't' ∷ b'o' ∷ b'k'
    ∷ b'e' ∷ b'n' ∷ b's' ∷ []

abbrev pub prompt_tokens_details_key : Bytes
prompt_tokens_details_key =
    b'p' ∷ b'r' ∷ b'o' ∷ b'm' ∷ b'p' ∷ b't' ∷ b'_' ∷ b't' ∷ b'o' ∷ b'k' ∷ b'e' ∷ b'n' ∷ b's' ∷ b'_'
    ∷ b'd' ∷ b'e' ∷ b't' ∷ b'a' ∷ b'i' ∷ b'l' ∷ b's' ∷ []

abbrev pub input_tokens_details_key : Bytes
input_tokens_details_key =
    b'i' ∷ b'n' ∷ b'p' ∷ b'u' ∷ b't' ∷ b'_' ∷ b't' ∷ b'o' ∷ b'k' ∷ b'e' ∷ b'n' ∷ b's' ∷ b'_' ∷ b'd'
    ∷ b'e' ∷ b't' ∷ b'a' ∷ b'i' ∷ b'l' ∷ b's' ∷ []

abbrev pub usage_key : Bytes
usage_key = b'u' ∷ b's' ∷ b'a' ∷ b'g' ∷ b'e' ∷ []

abbrev pub response_key : Bytes
response_key = b'r' ∷ b'e' ∷ b's' ∷ b'p' ∷ b'o' ∷ b'n' ∷ b's' ∷ b'e' ∷ []

abbrev pub type_key : Bytes
type_key = b't' ∷ b'y' ∷ b'p' ∷ b'e' ∷ []

abbrev pub data_key : Bytes
data_key = b'd' ∷ b'a' ∷ b't' ∷ b'a' ∷ []

abbrev pub cached_tokens_key : Bytes
cached_tokens_key =
    b'c' ∷ b'a' ∷ b'c' ∷ b'h' ∷ b'e' ∷ b'd' ∷ b'_' ∷ b't' ∷ b'o' ∷ b'k' ∷ b'e' ∷ b'n' ∷ b's' ∷ []

abbrev pub input_tokens_key : Bytes
input_tokens_key =
    b'i' ∷ b'n' ∷ b'p' ∷ b'u' ∷ b't' ∷ b'_' ∷ b't' ∷ b'o' ∷ b'k' ∷ b'e' ∷ b'n' ∷ b's' ∷ []

abbrev pub output_tokens_key : Bytes
output_tokens_key =
    b'o' ∷ b'u' ∷ b't' ∷ b'p' ∷ b'u' ∷ b't' ∷ b'_' ∷ b't' ∷ b'o' ∷ b'k' ∷ b'e' ∷ b'n' ∷ b's' ∷ []

abbrev pub response_completed : Bytes
response_completed =
    b'r' ∷ b'e' ∷ b's' ∷ b'p' ∷ b'o' ∷ b'n' ∷ b's' ∷ b'e' ∷ b'.' ∷ b'c' ∷ b'o' ∷ b'm' ∷ b'p' ∷ b'l'
    ∷ b'e' ∷ b't' ∷ b'e' ∷ b'd' ∷ []

abbrev pub done : Bytes
done = b'[' ∷ b'D' ∷ b'O' ∷ b'N' ∷ b'E' ∷ b']' ∷ []

-- The three key names that `normalizeTokenUsage` settles on.
pub record Keys : Type 0 where
  pub input_key : Bytes
  pub output_key : Bytes
  pub details_key : Bytes

abbrev pub prompt_keys : Keys
prompt_keys = record {
  input_key = prompt_tokens_key;
  output_key = completion_tokens_key;
  details_key = prompt_tokens_details_key;
}

abbrev pub input_keys : Keys
input_keys = record {
  input_key = input_tokens_key;
  output_key = output_tokens_key;
  details_key = input_tokens_details_key;
}

unfoldable pub choose_keys : Fields → Option Keys
unfolding present
choose_keys fields =
    if present prompt_tokens_key fields
    then some prompt_keys
    else if present completion_tokens_key fields
    then some prompt_keys
    else if present input_tokens_key fields
    then some input_keys
    else if present output_tokens_key fields
    then some input_keys
    else none

-- The results of `normalizeTokenUsage`.
pub record Normalized : Type 0 where
  pub usage : Option TokenUsage
  pub valid : Bool
  pub validation_failed : Bool

abbrev pub refused : Normalized
refused = record { usage = none; valid = false; validation_failed = true }

abbrev pub accepted : TokenUsage → Bool → Normalized
accepted u failed = record { usage = some u; valid = true; validation_failed = failed }

abbrev pub is_nil : Json → Bool
is_nil nil = true
is_nil v = false

abbrev pub is_text : Bytes → Json → Bool
is_text w (text v) = same v w
is_text w v = false

-- The usage of a decoded event; `some nil` is a nil that is found.
unfoldable pub usage_of_response : Json → Option Json
unfolding lookup
usage_of_response (object fields) = some (or_nil (lookup usage_key fields))
usage_of_response v = some nil

unfoldable pub find_authoritative_sse_usage : Json → Option Json
unfolding get present usage_of_response
find_authoritative_sse_usage (object fields) =
    if present usage_key fields && not (is_nil (get usage_key fields))
    then some (get usage_key fields)
    else if not (is_text response_completed (get type_key fields))
    then none
    else usage_of_response (get response_key fields)
find_authoritative_sse_usage v = none

-- `strconv.ParseInt` in base 10, with 64 bits.
module _ (parse_int : Bytes → Option ℤ) where
  abbrev pub not_negative : Option ℤ → Option ℤ
  not_negative none = none
  not_negative (some n) = if leb_ℤ (pos 0) n then some n else none

  unfoldable pub parse_token_count : Json → Option ℤ
  parse_token_count (number t) = not_negative (parse_int t)
  parse_token_count v = none

  abbrev pub with_cache : TokenUsage → Option ℤ → Normalized
  with_cache u none = accepted u true
  with_cache u (some cache) =
      if ltb_ℤ u.input_tokens cache
      then accepted u true
      else accepted (record u { cache_read_tokens = some cache }) false

  unfoldable pub with_details : Json → TokenUsage → Normalized
  unfolding get parse_token_count
  with_details nil u = accepted u false
  with_details (object fields) u =
      if is_nil (get cached_tokens_key fields)
      then accepted u false
      else with_cache u (parse_token_count (get cached_tokens_key fields))
  with_details v u = accepted u true

  unfoldable pub with_counts : Json → Option ℤ → Option ℤ → Normalized
  unfolding with_details
  with_counts details (some input) (some output) =
      with_details details
        (record { input_tokens = input; output_tokens = output; cache_read_tokens = none })
  with_counts details input output = refused

  unfoldable pub with_keys : Fields → Option Keys → Normalized
  unfolding get parse_token_count with_counts
  with_keys fields none = refused
  with_keys fields (some k) =
      with_counts (get k.details_key fields) (parse_token_count (get k.input_key fields))
        (parse_token_count (get k.output_key fields))

  unfoldable pub normalize_token_usage : Json → Normalized
  unfolding with_keys choose_keys
  normalize_token_usage (object fields) = with_keys fields (choose_keys fields)
  normalize_token_usage v = refused
