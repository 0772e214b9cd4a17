-- ===== src/Proxy/InspectorState.antt =====
-- internal/proxy/usage.go: the state of the inspector, and what it is to give up.
use vllm_priority_gateway.Base.{
  ℕ, Bool, true, false, Option, none, [], ◌∷◌, ◌++◌, ◌==◌, if◌then◌else◌, length, ℤ,
}
use vllm_priority_gateway.Proxy.JsonValidator.{Validator, reset}
use vllm_priority_gateway.Proxy.TokenUsage.{Bytes, Json, TokenUsage}

-- What encoding/json answers to one `Decode`: a value with the bytes behind it, `io.EOF`, or another
-- error.
pub data Decoding : Type 0 where
  decoded : Json → Bytes → Decoding
  at_end bad_json : Decoding

-- Go's library: `Decode` with `UseNumber`, `strconv.ParseInt`, `bytes.TrimSpace`, and
-- `mime.ParseMediaType` followed by `strings.ToLower`.
pub record Library : Type 0 where
  pub decode : Bytes → Decoding
  pub parse_int : Bytes → Option ℤ
  pub trim_space : Bytes → Bytes
  pub media_type : Bytes → Option Bytes

pub data Format : Type 0 where
  no_format json sse : Format

pub record UsageInspector : Type 0 where
  pub format : Format
  pub disabled : Bool
  pub failed : Bool
  pub finalized : Bool
  pub usage : Option TokenUsage
  pub json_validator : Validator
  pub json_in_string : Bool
  pub json_escaped : Bool
  pub json_string_matches : Bool
  pub json_string_position : ℕ
  pub json_string_is_top_key : Bool
  pub json_usage_key : Bool
  pub json_awaiting_value : Bool
  pub json_capturing : Bool
  pub json_capture_base : ℕ
  pub json_capture : Bytes
  pub invalid_usage_candidate : Bool
  pub sse_event : Bytes
  pub sse_line_start : ℕ

-- 64 << 10
abbrev pub max_usage_capture_size : ℕ
max_usage_capture_size = 65536

-- `&usageInspector{}`; the zero value of a validator is what `reset` makes of one.
unfoldable pub empty_inspector : UsageInspector
unfolding reset
empty_inspector = record {
  format = no_format;
  disabled = false;
  failed = false;
  finalized = false;
  usage = none;
  json_validator = reset;
  json_in_string = false;
  json_escaped = false;
  json_string_matches = false;
  json_string_position = 0;
  json_string_is_top_key = false;
  json_usage_key = false;
  json_awaiting_value = false;
  json_capturing = false;
  json_capture_base = 0;
  json_capture = [];
  invalid_usage_candidate = false;
  sse_event = [];
  sse_line_start = 0;
}

unfoldable pub disable_inspection : UsageInspector → UsageInspector
disable_inspection i = record i {
  disabled = true;
  failed = true;
  usage = none;
  json_capture = [];
  sse_event = [];
}

-- With `false` where the capture is full.
unfoldable pub append_json_capture : ℕ → UsageInspector → UsageInspector × Bool
unfolding disable_inspection
append_json_capture c i =
    if length i.json_capture == max_usage_capture_size
    then (disable_inspection i, false)
    else (record i { json_capture = i.json_capture ++ (c ∷ []) }, true)
