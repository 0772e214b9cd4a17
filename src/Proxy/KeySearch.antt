-- ===== src/Proxy/KeySearch.antt =====
-- internal/proxy/usage.go, `writeJSON`: the search for the top-level key `usage` and its object.
use vllm_priority_gateway.Proxy.InspectorState.{UsageInspector, append_json_capture}
use vllm_priority_gateway.Base.{
  ℕ, suc, Bool, true, false, ◌&&◌, ◌||◌, not, Option, none, some, [], ltb, ◌==◌, if◌then◌else◌,
  length, get_elem?,
}
use vllm_priority_gateway.Proxy.JsonValidator.{JsonScanOp, scan_end_object, is_space}
use vllm_priority_gateway.Proxy.TokenUsage.{usage_key}

-- The key `usage`, its colon, and the byte that begins its value.
unfoldable pub before_step : ℕ → UsageInspector → UsageInspector × Bool
unfolding append_json_capture
before_step c i =
    if not i.json_in_string && not i.json_capturing && i.json_usage_key && not (is_space c)
    then (
      record i { json_usage_key = false; json_awaiting_value = c == b':' || i.json_awaiting_value },
      true,
    )
    else if not i.json_in_string
        && not i.json_capturing
        && i.json_awaiting_value
        && not (is_space c)
    then (if c == b'{'
        then append_json_capture c (record i {
          json_awaiting_value = false;
          json_capturing = true;
          json_capture_base = length i.json_validator.stack;
          json_capture = [];
        })
        else (
          record i {
            json_awaiting_value = false;
            failed = true;
            invalid_usage_candidate = true;
            usage = none;
          },
          true,
        ))
    else (i, true)

abbrev pub is_some_byte : Option ℕ → ℕ → Bool
is_some_byte none c = false
is_some_byte (some k) c = k == c

-- A byte inside a string.
unfoldable pub string_step : ℕ → UsageInspector → UsageInspector
string_step c i =
    if i.json_escaped
    then record i { json_escaped = false; json_string_matches = false }
    else if c == 92
    then record i { json_escaped = true; json_string_matches = false }
    else if c == 34
    then record i {
      json_in_string = false;
      json_usage_key =
          (if not i.json_capturing && i.json_string_is_top_key
            then i.json_string_matches && i.json_string_position == length usage_key
            else i.json_usage_key);
    }
    else record i {
      json_string_matches =
          i.json_string_matches
          && ltb i.json_string_position (length usage_key)
          && is_some_byte (get_elem? usage_key i.json_string_position) c;
      json_string_position = suc i.json_string_position;
    }

abbrev pub begin_string_at : ℕ → Bool → UsageInspector → UsageInspector
begin_string_at c starts i =
    if c == 34
    then record i {
      json_in_string = true;
      json_escaped = false;
      json_string_matches = starts;
      json_string_position = 0;
      json_string_is_top_key = starts;
    }
    else i

abbrev pub is_end_object : JsonScanOp → Bool
is_end_object scan_end_object = true
is_end_object op = false
