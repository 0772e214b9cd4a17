-- ===== src/Proxy/UsageInspector.antt =====
-- internal/proxy/usage.go: the inspector that looks for token counts in a response, byte by byte. A
-- method takes the inspector and returns the new one; a loop that returns early returns `true` with it.
pub mod Counts
pub mod Minor
pub mod Steps
pub mod Writes
pub mod Streaming
pub mod Results
use vllm_priority_gateway.Proxy.KeySearch.{before_step, string_step, begin_string_at, is_end_object}
use vllm_priority_gateway.Proxy.InspectorState.{
  Decoding, decoded, Library, Format, UsageInspector, max_usage_capture_size, empty_inspector,
  disable_inspection, append_json_capture, at_end, no_format, json, sse,
}
use vllm_priority_gateway.Base.{
  ℕ, zero, suc, ◌+◌, ◌-◌, Bool, true, false, ◌&&◌, ◌||◌, not, Option, none, some, List, [], ◌∷◌,
  ◌++◌, ltb, ◌==◌, if◌then◌else◌, length, take,
}
use vllm_priority_gateway.Proxy.JsonValidator.{
  JsonScanOp, reset, expects_top_level_object_key, step_byte, is_scan_error, eof,
}
use vllm_priority_gateway.Proxy.EventLines.{split_lines, trim_cr, join_lines, data_lines}
use vllm_priority_gateway.Proxy.TokenUsage.{
  Bytes, same, Json, TokenUsage, done, find_authoritative_sse_usage, normalize_token_usage,
}

abbrev pub take_usage : Bool → Option TokenUsage → UsageInspector → UsageInspector
take_usage false u i = record i { invalid_usage_candidate = true; usage = none }
take_usage true u i = record i { usage = (if i.invalid_usage_candidate then i.usage else u) }

abbrev pub drop_bytes : ℕ → Bytes → Bytes
drop_bytes zero bytes = bytes
drop_bytes (suc n) [] = []
drop_bytes (suc n) (c ∷ cs) = drop_bytes n cs

abbrev pub event_stream : Bytes
event_stream =
    b't' ∷ b'e' ∷ b'x' ∷ b't' ∷ b'/' ∷ b'e' ∷ b'v' ∷ b'e' ∷ b'n' ∷ b't' ∷ b'-' ∷ b's' ∷ b't' ∷ b'r'
    ∷ b'e' ∷ b'a' ∷ b'm' ∷ []

abbrev pub application_json : Bytes
application_json =
    b'a' ∷ b'p' ∷ b'p' ∷ b'l' ∷ b'i' ∷ b'c' ∷ b'a' ∷ b't' ∷ b'i' ∷ b'o' ∷ b'n' ∷ b'/' ∷ b'j' ∷ b's'
    ∷ b'o' ∷ b'n' ∷ []

abbrev pub json_suffix : Bytes
json_suffix = b'+' ∷ b'j' ∷ b's' ∷ b'o' ∷ b'n' ∷ []

-- `strings.HasSuffix`
unfoldable pub ends_with : Bytes → Bytes → Bool
ends_with suffix [] = same [] suffix
ends_with suffix (c ∷ cs) =
    let rest = ends_with suffix cs in if same (c ∷ cs) suffix then true else rest

-- A byte with whether the loop returns at it, and the bytes of one `Write` up to there.
unfoldable pub write_all :
    (ℕ → UsageInspector → UsageInspector × Bool) → Bytes → UsageInspector → UsageInspector
write_all byte [] i = i
write_all byte (c ∷ cs) i =
    let rest = write_all byte cs (byte c i).0 in if (byte c i).1 then (byte c i).0 else rest

module _ (lib : Library) where
  abbrev pub only_value : Json → Decoding → Option Json
  only_value v at_end = some v
  only_value v d = none

  abbrev pub first_value : Decoding → Option Json
  first_value (decoded v rest) = only_value v (lib.decode rest)
  first_value d = none

  unfoldable pub decode_json_value : Bytes → Option Json
  decode_json_value bytes = first_value (lib.decode bytes)

  unfoldable pub consume_normalized_usage : Json → UsageInspector → UsageInspector
  unfolding normalize_token_usage
  consume_normalized_usage v i =
      let n = normalize_token_usage lib.parse_int v in
      take_usage n.valid n.usage (if n.validation_failed then record i { failed = true } else i)

  abbrev pub consume_decoded : Option Json → UsageInspector → UsageInspector
  consume_decoded none i = record i { failed = true }
  consume_decoded (some v) i = consume_normalized_usage v i

  unfoldable pub consume_usage_object : Bytes → UsageInspector → UsageInspector
  unfolding consume_normalized_usage decode_json_value
  consume_usage_object object i = consume_decoded (decode_json_value object) i

  abbrev pub consume_candidate : Option Json → UsageInspector → UsageInspector
  consume_candidate none i = i
  consume_candidate (some v) i = consume_normalized_usage v i

  abbrev pub consume_event_value : Option Json → UsageInspector → UsageInspector
  consume_event_value none i = record i { failed = true }
  consume_event_value (some v) i = consume_candidate (find_authoritative_sse_usage v) i

  abbrev pub consume_data : List Bytes → UsageInspector → UsageInspector
  consume_data [] i = i
  consume_data (line ∷ lines) i =
      let payload = join_lines (line ∷ lines) in
      if same (lib.trim_space payload) done
      then i
      else consume_event_value (decode_json_value payload) i

  unfoldable pub consume_sse_event : Bytes → UsageInspector → UsageInspector
  unfolding consume_normalized_usage decode_json_value find_authoritative_sse_usage split_lines
      data_lines join_lines
  consume_sse_event event i = consume_data (data_lines (split_lines event)) i

  abbrev pub end_capture : JsonScanOp → UsageInspector → UsageInspector
  end_capture op i =
      if i.json_capturing
        && is_end_object op
        && length i.json_validator.stack == i.json_capture_base
      then record (consume_usage_object i.json_capture (record i { json_capturing = false })) {
        json_capture = [];
      }
      else i

  -- What comes after the validator has taken the byte.
  unfoldable pub after_step : ℕ → Bool → JsonScanOp → UsageInspector → UsageInspector
  unfolding string_step consume_usage_object
  after_step c starts op i =
      if i.json_in_string then string_step c i else end_capture op (begin_string_at c starts i)

  unfoldable pub validate : ℕ → Bool → UsageInspector → UsageInspector × Bool
  unfolding step_byte after_step disable_inspection
  validate c starts i =
      let (v, op) = step_byte c i.json_validator in
      let j = record i { json_validator = v } in
      if is_scan_error op then (disable_inspection j, true) else (after_step c starts op j, false)

  unfoldable pub starts_top_level_key : ℕ → UsageInspector → Bool
  unfolding expects_top_level_object_key
  starts_top_level_key c i =
      not i.json_in_string && c == 34 && expects_top_level_object_key i.json_validator

  unfoldable pub captured : ℕ → UsageInspector → UsageInspector × Bool
  unfolding append_json_capture
  captured c i = if i.json_capturing then append_json_capture c i else (i, true)

  unfoldable pub json_byte : ℕ → UsageInspector → UsageInspector × Bool
  unfolding captured before_step starts_top_level_key validate
  json_byte c i =
      let (a, kept) = captured c i in
      let (b, goes_on) = before_step c a in
      if i.disabled
      then (i, true)
      else if not kept
      then (a, true)
      else if not goes_on
      then (b, true)
      else validate c (starts_top_level_key c a) b

  unfoldable pub write_json : Bytes → UsageInspector → UsageInspector
  unfolding write_all json_byte
  write_json bytes i = write_all json_byte bytes i

  unfoldable pub sse_byte : ℕ → UsageInspector → UsageInspector × Bool
  unfolding disable_inspection trim_cr consume_sse_event
  sse_byte c i =
      let event = i.sse_event ++ (c ∷ []) in
      let line = trim_cr (drop_bytes i.sse_line_start (take (length event - 1) event)) in
      if length i.sse_event == max_usage_capture_size
      then (disable_inspection i, true)
      else if not (c == 10)
      then (record i { sse_event = event }, false)
      else if not (length line == 0)
      then (record i { sse_event = event; sse_line_start = length event }, false)
      else (
        record (consume_sse_event (take i.sse_line_start event) (record i { sse_event = event })) {
          sse_event = [];
          sse_line_start = 0;
        },
        false,
      )

  unfoldable pub write_sse : Bytes → UsageInspector → UsageInspector
  unfolding write_all sse_byte
  write_sse bytes i = write_all sse_byte bytes i

  abbrev pub write_format : Format → Bytes → UsageInspector → UsageInspector
  write_format no_format bytes i = i
  write_format json bytes i = write_json bytes i
  write_format sse bytes i = write_sse bytes i

  unfoldable pub write : Bytes → UsageInspector → UsageInspector
  unfolding write_json write_sse
  write bytes i =
      if i.disabled || i.finalized || length bytes == 0 then i else write_format i.format bytes i

  abbrev pub finalize_format : Format → UsageInspector → UsageInspector
  finalize_format no_format i = i
  finalize_format json i =
      if not (eof i.json_validator) then record i { failed = true; usage = none } else i
  finalize_format sse i =
      if not i.disabled && ltb 0 (length i.sse_event)
      then record (consume_sse_event i.sse_event i) { sse_event = []; sse_line_start = 0 }
      else i

  unfoldable pub finalize : UsageInspector → UsageInspector
  unfolding consume_sse_event eof
  finalize i = if i.finalized then i else finalize_format i.format (record i { finalized = true })

  -- The results are the usage, the format where the inspection failed, and whether it did.
  unfoldable pub result : UsageInspector → UsageInspector × (Option TokenUsage × Format × Bool)
  unfolding finalize
  result i =
      let j = finalize i in
      if j.failed then (j, (j.usage, j.format, true)) else (j, (j.usage, no_format, false))

  abbrev pub is_json_type : Bytes → Bool
  is_json_type t = same t application_json || ends_with json_suffix t

  unfoldable pub inspector_of : Option Bytes → UsageInspector
  unfolding empty_inspector reset
  inspector_of none = empty_inspector
  inspector_of (some t) =
      if same t event_stream
      then record empty_inspector { format = sse }
      else if is_json_type t
      then record empty_inspector { format = json; json_validator = reset }
      else empty_inspector

  unfoldable pub new_usage_inspector : Bytes → UsageInspector
  unfolding inspector_of
  new_usage_inspector content_type = inspector_of (lib.media_type content_type)
