-- ===== src/Proxy/JsonValidator.antt =====
-- internal/proxy/json_validator.go: the validator that takes a JSON text byte by byte. The first
-- `depth` entries of the array `stack` are a list with the innermost at its head, so that `depth`
-- is its length. A method takes the validator and returns the new one with its result.
pub mod Grammar
pub mod Language
pub mod Ends
pub mod Begins
pub mod Numbers
pub mod Strings
pub mod Literals
pub mod Arrays
pub mod Objects
pub mod Steps
pub mod Run
pub mod Acceptance
pub mod Viable
pub mod Depth
use vllm_priority_gateway.Base.{
  ℕ, Bool, true, false, ◌&&◌, ◌||◌, not, Option, none, some, List, [], ◌∷◌, ltb, leb, ◌==◌,
  if◌then◌else◌, length,
}

pub data JsonScanOp : Type 0 where
  scan_continue scan_end_object scan_error : JsonScanOp

pub data JsonScanState : Type 0 where
  state_begin_value state_begin_value_or_empty state_begin_string_or_empty : JsonScanState
  state_begin_string state_end_value state_end_top state_in_string state_in_string_escape :
      JsonScanState
  state_in_string_unicode1 state_in_string_unicode2 state_in_string_unicode3 : JsonScanState
  state_in_string_unicode4 state_negative state_zero state_integer state_decimal_point :
      JsonScanState
  state_decimal state_exponent state_exponent_sign state_exponent_digits state_true_r :
      JsonScanState
  state_true_u state_true_e state_false_a state_false_l state_false_s state_false_e : JsonScanState
  state_null_u state_null_l1 state_null_l2 state_error : JsonScanState

pub data JsonParseState : Type 0 where
  parse_object_key parse_object_value parse_array_value : JsonParseState

abbrev pub Stack : Type 0
Stack = List JsonParseState

pub record Validator : Type 0 where
  pub state : JsonScanState
  pub stack : Stack
  pub end_top : Bool
  pub failed : Bool

-- `maxJSONNestingDepth`
abbrev pub max_json_nesting_depth : ℕ
max_json_nesting_depth = 256

-- `reset`
unfoldable pub reset : Validator
reset = record { state = state_begin_value; stack = []; end_top = false; failed = false }

abbrev pub is_key_state : JsonScanState → Bool
is_key_state state_begin_string_or_empty = true
is_key_state state_begin_string = true
is_key_state _ = false

abbrev pub is_one_key : Stack → Bool
is_one_key (parse_object_key ∷ []) = true
is_one_key _ = false

unfoldable pub expects_top_level_object_key : Validator → Bool
expects_top_level_object_key v = is_one_key v.stack && is_key_state v.state

abbrev pub is_space : ℕ → Bool
is_space c = c == b' ' || c == 9 || c == 10 || c == 13

abbrev pub is_digit : ℕ → Bool
is_digit c = leb b'0' c && leb c b'9'

abbrev pub is_nonzero_digit : ℕ → Bool
is_nonzero_digit c = leb b'1' c && leb c b'9'

abbrev pub is_exponent : ℕ → Bool
is_exponent c = c == b'e' || c == b'E'

abbrev pub is_sign : ℕ → Bool
is_sign c = c == b'+' || c == b'-'

abbrev pub is_hex : ℕ → Bool
is_hex c = is_digit c || leb b'a' c && leb c b'f' || leb b'A' c && leb c b'F'

-- The bytes that may follow a backslash, but for `u`.
abbrev pub is_escape : ℕ → Bool
is_escape c =
    c == b'b' || c == b'f' || c == b'n' || c == b'r' || c == b't' || c == 92 || c == b'/' || c == 34

abbrev pub Step : Type 0
Step = Validator × JsonScanOp

unfoldable pub fail : Validator → Step
fail v = (record v { failed = true; state = state_error }, scan_error)

abbrev pub go : JsonScanState → Validator → Step
go s v = (record v { state = s }, scan_continue)

-- `push`, and the state after it; `push` fails where the stack is full.
unfoldable pub push : JsonParseState → JsonScanState → Validator → Step
unfolding fail
push p s v =
    if length v.stack == max_json_nesting_depth
    then fail v
    else (record v { stack = p ∷ v.stack; state = s }, scan_continue)

-- `pop` of a stack that becomes `rest`.
unfoldable pub pop : Stack → Validator → Validator
pop [] v = record v { stack = []; state = state_end_top; end_top = true }
pop (p ∷ rest) v = record v { stack = p ∷ rest; state = state_end_value }

unfoldable pub begin_value : ℕ → Validator → Step
unfolding push fail
begin_value c v =
    if is_space c
    then (v, scan_continue)
    else if c == b'{'
    then push parse_object_key state_begin_string_or_empty v
    else if c == b'['
    then push parse_array_value state_begin_value_or_empty v
    else if c == 34
    then go state_in_string v
    else if c == b'-'
    then go state_negative v
    else if c == b'0'
    then go state_zero v
    else if c == b't'
    then go state_true_r v
    else if c == b'f'
    then go state_false_a v
    else if c == b'n'
    then go state_null_u v
    else if is_nonzero_digit c
    then go state_integer v
    else fail v

unfoldable pub begin_string : ℕ → Validator → Step
unfolding fail
begin_string c v =
    if is_space c
    then (v, scan_continue)
    else if not (c == 34)
    then fail v
    else go state_in_string v

-- `endValue` below the top of a stack.
unfoldable pub end_value_in : JsonParseState → Stack → ℕ → Validator → Step
unfolding fail pop
end_value_in parse_object_key rest c v =
    if not (c == b':')
    then fail v
    else go state_begin_value (record v { stack = parse_object_value ∷ rest })
end_value_in parse_object_value rest c v =
    if c == b','
    then go state_begin_string (record v { stack = parse_object_key ∷ rest })
    else if not (c == b'}')
    then fail v
    else (pop rest v, scan_end_object)
end_value_in parse_array_value rest c v =
    if c == b','
    then go state_begin_value v
    else if not (c == b']')
    then fail v
    else (pop rest v, scan_continue)

unfoldable pub end_value_on : Stack → ℕ → Validator → Step
unfolding fail end_value_in
end_value_on [] c v =
    let ended = record v { state = state_end_top; end_top = true } in
    if not (is_space c) then fail ended else (ended, scan_continue)
end_value_on (p ∷ rest) c v = if is_space c then go state_end_value v else end_value_in p rest c v

unfoldable pub end_value : ℕ → Validator → Step
unfolding end_value_on
end_value c v = end_value_on v.stack c v

unfoldable pub after_integer : ℕ → Validator → Step
unfolding end_value
after_integer c v =
    if c == b'.'
    then go state_decimal_point v
    else if is_exponent c
    then go state_exponent v
    else end_value c v

unfoldable pub exponent_digit : ℕ → Validator → Step
unfolding fail
exponent_digit c v = if not (is_digit c) then fail v else go state_exponent_digits v

unfoldable pub unicode : ℕ → JsonScanState → Validator → Step
unfolding fail
unicode c next v = if not (is_hex c) then fail v else go next v

unfoldable pub literal : ℕ → ℕ → JsonScanState → Validator → Step
unfolding fail
literal c expected next v = if not (c == expected) then fail v else go next v

-- The three token methods answer `none` for `false`, where they do not handle the state.
unfoldable pub step_string : JsonScanState → ℕ → Validator → Option Step
unfolding fail unicode
step_string state_in_string c v = some (
    if c == 34
    then go state_end_value v
    else if c == 92
    then go state_in_string_escape v
    else if ltb c 32
    then fail v
    else (v, scan_continue))
step_string state_in_string_escape c v = some (
    if is_escape c
    then go state_in_string v
    else if c == b'u'
    then go state_in_string_unicode1 v
    else fail v)
step_string state_in_string_unicode1 c v = some (unicode c state_in_string_unicode2 v)
step_string state_in_string_unicode2 c v = some (unicode c state_in_string_unicode3 v)
step_string state_in_string_unicode3 c v = some (unicode c state_in_string_unicode4 v)
step_string state_in_string_unicode4 c v = some (unicode c state_in_string v)
step_string _ c v = none

unfoldable pub step_number : JsonScanState → ℕ → Validator → Option Step
unfolding fail end_value after_integer exponent_digit
step_number state_negative c v = some (
    if c == b'0'
    then go state_zero v
    else if is_nonzero_digit c
    then go state_integer v
    else fail v)
step_number state_integer c v = some (if is_digit c then (v, scan_continue) else after_integer c v)
step_number state_zero c v = some (after_integer c v)
step_number state_decimal_point c v = some (if not (is_digit c) then fail v else go state_decimal v)
step_number state_decimal c v = some (
    if is_digit c
    then (v, scan_continue)
    else if is_exponent c
    then go state_exponent v
    else end_value c v)
step_number state_exponent c v =
    some (if is_sign c then go state_exponent_sign v else exponent_digit c v)
step_number state_exponent_sign c v = some (exponent_digit c v)
step_number state_exponent_digits c v =
    some (if is_digit c then (v, scan_continue) else end_value c v)
step_number _ c v = none

unfoldable pub step_literal : JsonScanState → ℕ → Validator → Option Step
unfolding literal
step_literal state_true_r c v = some (literal c b'r' state_true_u v)
step_literal state_true_u c v = some (literal c b'u' state_true_e v)
step_literal state_true_e c v = some (literal c b'e' state_end_value v)
step_literal state_false_a c v = some (literal c b'a' state_false_l v)
step_literal state_false_l c v = some (literal c b'l' state_false_s v)
step_literal state_false_s c v = some (literal c b's' state_false_e v)
step_literal state_false_e c v = some (literal c b'e' state_end_value v)
step_literal state_null_u c v = some (literal c b'u' state_null_l1 v)
step_literal state_null_l1 c v = some (literal c b'l' state_null_l2 v)
step_literal state_null_l2 c v = some (literal c b'l' state_end_value v)
step_literal _ c v = none

-- `stack[depth-1] = jsonParseObjectValue`; the state has a key on its stack.
abbrev pub set_top_value : Stack → Stack
set_top_value [] = []
set_top_value (p ∷ rest) = parse_object_value ∷ rest

-- The last `switch` of `stepByte`.
unfoldable pub step_structure : JsonScanState → ℕ → Validator → Step
unfolding fail begin_value begin_string end_value
step_structure state_begin_value c v = begin_value c v
step_structure state_begin_value_or_empty c v =
    if is_space c then (v, scan_continue) else if c == b']' then end_value c v else begin_value c v
step_structure state_begin_string_or_empty c v =
    if is_space c
    then (v, scan_continue)
    else if c == b'}'
    then end_value c (record v { stack = set_top_value v.stack })
    else begin_string c v
step_structure state_begin_string c v = begin_string c v
step_structure state_end_value c v = end_value c v
step_structure state_end_top c v = if not (is_space c) then fail v else (v, scan_continue)
step_structure _ c v = fail v

abbrev pub or_else : Option Step → Step → Step
or_else none r = r
or_else (some r) _ = r

unfoldable pub step_byte : ℕ → Validator → Step
unfolding step_string step_number step_literal step_structure
step_byte c v =
    if v.failed
    then (v, scan_error)
    else or_else (step_string v.state c v) (
        or_else (step_number v.state c v)
          (or_else (step_literal v.state c v) (step_structure v.state c v)))

abbrev pub is_scan_error : JsonScanOp → Bool
is_scan_error scan_error = true
is_scan_error _ = false

-- The space goes to a copy: the inspector asks once, and reads nothing of the validator afterwards.
unfoldable pub eof : Validator → Bool
unfolding step_byte
eof v =
    let (w, op) = step_byte b' ' v in
    if v.failed then false else if v.end_top then true else not (is_scan_error op) && w.end_top

-- The bytes of a text one after the other.
unfoldable pub step_bytes : List ℕ → Validator → Validator
step_bytes [] v = v
step_bytes (c ∷ cs) v = step_bytes cs (step_byte c v).0
