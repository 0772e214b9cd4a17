-- ===== src/Examples/Responses.antt =====
-- A response with token counts (internal/proxy/usage.go).
use vllm_priority_gateway.Base.{◌-◌, ◌≡◌, refl, false, Option, none, some, [], ◌∷◌, ◌++◌, ℤ, pos}
use vllm_priority_gateway.Proxy.JsonValidator.Grammar.{IsJson}
use vllm_priority_gateway.Proxy.TokenUsage.{
  Bytes, number, object, empty_map, entry, prompt_tokens_key, completion_tokens_key,
}
use vllm_priority_gateway.Proxy.UsageInspector.{
  application_json, write, result, new_usage_inspector,
}
use vllm_priority_gateway.Proxy.InspectorState.{Library, Decoding, decoded, at_end, no_format, json}
use vllm_priority_gateway.Proxy.UsageInspector.Counts.{AllSome, IsBillable}
use vllm_priority_gateway.Proxy.UsageInspector.Minor.{Fits}
use vllm_priority_gateway.Proxy.UsageInspector.Streaming.{write-append}
use vllm_priority_gateway.Proxy.UsageInspector.Results.{
  result-IsBillable, write-Fits, result_twice, result-IsJson,
}

-- A decoder that finds one object in any text.
abbrev decode_any : Bytes → Decoding
decode_any [] = at_end
decode_any (c ∷ cs) =
    decoded
      (object (
        entry prompt_tokens_key (number (b'7' ∷ []))
          (entry completion_tokens_key (number (b'2' ∷ [])) empty_map)))
      []

abbrev one_digit : Bytes → Option ℤ
one_digit (c ∷ []) = some (pos (c - b'0'))
one_digit t = none

abbrev library : Library
library = record {
  decode = decode_any;
  parse_int = one_digit;
  trim_space = λ t. t;
  media_type = λ t. some t;
}

-- {"usage":{}}
abbrev first_chunk : Bytes
first_chunk = b'{' ∷ 34 ∷ b'u' ∷ b's' ∷ b'a' ∷ []

abbrev second_chunk : Bytes
second_chunk = b'g' ∷ b'e' ∷ 34 ∷ b':' ∷ b'{' ∷ b'}' ∷ b'}' ∷ []

abbrev body : Bytes
body = first_chunk ++ second_chunk

-- The counts of the object come back, with no failure.
body_usage :
    (result library (write library body (new_usage_inspector library application_json))).1 ≡ (
      some (record { input_tokens = pos 7; output_tokens = pos 2; cache_read_tokens = none }),
      no_format,
      false,
    )
unfolding new_usage_inspector write result
body_usage = refl

write-append_example :
    write library body (new_usage_inspector library application_json)
    ≡ write library second_chunk
        (write library first_chunk (new_usage_inspector library application_json))
write-append_example =
    write-append library first_chunk second_chunk (new_usage_inspector library application_json)

result-IsBillable_example :
    AllSome IsBillable
      (result library (write library body (new_usage_inspector library application_json))).1.0
result-IsBillable_example = result-IsBillable library application_json body

write-Fits_example : Fits (write library body (new_usage_inspector library application_json))
write-Fits_example = write-Fits library application_json body

result_twice_example :
    result library (result library (new_usage_inspector library application_json)).0
    ≡ result library (new_usage_inspector library application_json)
result_twice_example = result_twice library (new_usage_inspector library application_json)

body_type : (new_usage_inspector library application_json).format ≡ json
unfolding new_usage_inspector
body_type = refl

body_passes :
    (result library (write library body (new_usage_inspector library application_json))).1.2 ≡ false
unfolding new_usage_inspector write result
body_passes = refl

result-IsJson_example : IsJson body
result-IsJson_example = result-IsJson library application_json body body_type body_passes
