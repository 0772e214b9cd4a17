-- ===== src/Examples/Texts.antt =====
-- JSON texts (internal/proxy/json_validator.go).
use vllm_priority_gateway.Base.{◌≡◌, ◌↔◌, ◌++◌, ◌≤◌, refl, true, false, [], ◌∷◌, length, arith}
use vllm_priority_gateway.Proxy.JsonValidator.{
  reset, step_byte, step_bytes, eof, max_json_nesting_depth,
}
use vllm_priority_gateway.Proxy.JsonValidator.Grammar.{Text, IsJson}
use vllm_priority_gateway.Proxy.JsonValidator.Language.{IsWellFormed}
use vllm_priority_gateway.Proxy.JsonValidator.Run.{step_byte-IsWellFormed, reset-IsWellFormed}
use vllm_priority_gateway.Proxy.JsonValidator.Acceptance.{eof-step_bytes}
use vllm_priority_gateway.Proxy.JsonValidator.Viable.{step_bytes-failed}
use vllm_priority_gateway.Proxy.JsonValidator.Depth.{length-step_bytes}

-- {"a":[1,-2.5e3]}
abbrev object_text : Text
object_text =
    b'{' ∷ 34 ∷ b'a' ∷ 34 ∷ b':' ∷ b'[' ∷ b'1' ∷ b',' ∷ b'-' ∷ b'2' ∷ b'.' ∷ b'5' ∷ b'e' ∷ b'3'
    ∷ b']' ∷ b'}' ∷ []

-- {"a":01
abbrev bad_text : Text
bad_text = b'{' ∷ 34 ∷ b'a' ∷ 34 ∷ b':' ∷ b'0' ∷ b'1' ∷ []

object_text_accepted : eof (step_bytes object_text reset) ≡ true
unfolding eof step_bytes step_byte reset
object_text_accepted = refl

bad_text_fails : (step_bytes bad_text reset).failed ≡ true
unfolding step_bytes step_byte reset
bad_text_fails = refl

eof-step_bytes_example : (eof (step_bytes object_text reset) ≡ true) ↔ IsJson object_text
eof-step_bytes_example = eof-step_bytes object_text

step_bytes-failed_example :
    ((step_bytes bad_text reset).failed ≡ false) ↔ ((ys : Text) × IsJson (bad_text ++ ys))
step_bytes-failed_example = step_bytes-failed bad_text

step_byte-IsWellFormed_example : IsWellFormed (step_byte b'{' reset).0
step_byte-IsWellFormed_example = step_byte-IsWellFormed b'{' reset reset-IsWellFormed

length-step_bytes_example : length (step_bytes object_text reset).stack ≤ max_json_nesting_depth
unfolding reset
length-step_bytes_example = length-step_bytes object_text reset (omega arith)
