-- ===== src/Proxy/UsageInspector/Results.antt =====
-- What `Result` of internal/proxy/usage.go answers.
use vllm_priority_gateway.Base.{
  of_negation, taken_branch, other_branch, Bool, true, false, ◌&&◌, ◌||◌, not, ◌≡◌, refl, sym, ap,
  subst, ◌∙◌, Option, none, some, ◌==◌, if◌then◌else◌, length, if_keeps, arith, ltb, Bool-cases,
  inl, inr,
}
use vllm_priority_gateway.Proxy.JsonValidator.{step_bytes, reset, eof}
use vllm_priority_gateway.Proxy.JsonValidator.Grammar.{IsJson}
use vllm_priority_gateway.Proxy.JsonValidator.Acceptance.{eof-step_bytes}
use vllm_priority_gateway.Proxy.TokenUsage.{Bytes, TokenUsage, same}
use vllm_priority_gateway.Proxy.UsageInspector.{
  json_byte, write_all, write_json, write_sse, write_format, write, finalize, finalize_format,
  result, new_usage_inspector, inspector_of, event_stream, is_json_type,
}
use vllm_priority_gateway.Proxy.InspectorState.{
  Library, UsageInspector, Format, no_format, json, sse,
}
use vllm_priority_gateway.Proxy.UsageInspector.Counts.{AllSome, IsBillable}
use vllm_priority_gateway.Proxy.UsageInspector.Minor.{Reports, Fits, consume_sse_event-Minor}
use vllm_priority_gateway.Proxy.UsageInspector.Writes.{write_all-Sees, write_all-Ignores}
use vllm_priority_gateway.Proxy.UsageInspector.Streaming.{write_open}

-- A step that keeps the bounds and the reports.
abbrev KeepsBoth : UsageInspector → UsageInspector → Type 0
KeepsBoth i j = (Reports i → Reports j) × (Fits i → Fits j)

-- An inspector that has seen nothing.
abbrev Fresh : UsageInspector → Type 0
Fresh i =
    (i.disabled ≡ false) × (i.finalized ≡ false) × (i.json_validator ≡ reset) × Reports i × Fits i

still_open :
    (j : UsageInspector)
    → (j.disabled ≡ true → j.failed ≡ true)
    → j.failed ≡ false
    → j.disabled ≡ false
still_open j f h = elim (Bool-cases j.disabled) [
  | inl d ↦ let q : true ≡ false = sym (f d) ∙ h in cc
  | inr d ↦ d
]

IsDone : UsageInspector → Type 0
IsDone i = i.finalized ≡ true

module _ (lib : Library) where
  write_format-KeepsBoth :
      (f : Format) (xs : Bytes) (i : UsageInspector)
      → i.disabled ≡ false
      → KeepsBoth i (write_format lib f xs i)
  unfolding write_json write_sse
  write_format-KeepsBoth no_format xs i d = (λ h. h, λ h. h)
  write_format-KeepsBoth json xs i d =
      let ran = write_all-Sees lib xs i d in (ran.ran_reports, ran.ran_fits)
  write_format-KeepsBoth sse xs i d =
      let ran = write_all-Ignores lib xs i d in (ran.ran_reports, ran.ran_fits)

  pub write-KeepsBoth : (xs : Bytes) (i : UsageInspector) → KeepsBoth i (write lib xs i)
  unfolding write
  write-KeepsBoth xs i =
      if_keeps (KeepsBoth i) (i.disabled || i.finalized || length xs == 0) (λ _. (λ h. h, λ h. h))
        (λ h.
          write_format-KeepsBoth i.format xs i
            (left_false i.disabled i.finalized (length xs == 0) h))
    where
      left_false : (a b c : Bool) → (a || b || c) ≡ false → a ≡ false
      left_false a b c h = ground arith

  finalize_format-Reports :
      (f : Format) (i : UsageInspector) → Reports i → Reports (finalize_format lib f i)
  finalize_format-Reports no_format i h = h
  finalize_format-Reports json i h =
      if_keeps Reports (not (eof i.json_validator)) (λ _. (tt, λ _. refl)) (λ _. h)
  finalize_format-Reports sse i h =
      if_keeps Reports (not i.disabled && ltb 0 (length i.sse_event))
        (λ _. (consume_sse_event-Minor lib i.sse_event i).reports h) (λ _. h)

  finalize-Reports : (i : UsageInspector) → Reports i → Reports (finalize lib i)
  unfolding finalize
  finalize-Reports i h =
      if_keeps Reports i.finalized (λ _. h)
        (λ _. finalize_format-Reports i.format (record i { finalized = true }) h)

  pub result_fields :
      (i : UsageInspector)
      → ((result lib i).0 ≡ finalize lib i)
        × ((result lib i).1.0 ≡ (finalize lib i).usage)
        × ((result lib i).1.2 ≡ (finalize lib i).failed)
  unfolding result
  result_fields i =
      let j = finalize lib i in
      let P : UsageInspector × (Option TokenUsage × Format × Bool) → Type 0 =
        λ r. (r.0 ≡ j) × (r.1.0 ≡ j.usage) × (r.1.2 ≡ j.failed) in
      if_keeps P j.failed (λ h. (refl, refl, sym h)) (λ h. (refl, refl, sym h))

  inspector_of-Fresh : (o : Option Bytes) → Fresh (inspector_of lib o)
  unfolding inspector_of
  inspector_of-Fresh none = (refl, refl, refl, (tt, λ _. refl), (omega arith, omega arith))
  inspector_of-Fresh (some t) =
      if_keeps Fresh (same t event_stream)
        (λ _. (refl, refl, refl, (tt, λ _. refl), (omega arith, omega arith)))
        (λ _.
          if_keeps Fresh (is_json_type lib t)
            (λ _. (refl, refl, refl, (tt, λ _. refl), (omega arith, omega arith)))
            (λ _. (refl, refl, refl, (tt, λ _. refl), (omega arith, omega arith))))

  -- Whatever the content type and the bytes of a response, counts that `Result` gives are not negative,
  -- and no more tokens were read from the cache than were read at all.
  pub result-IsBillable :
      (content_type xs : Bytes)
      → AllSome IsBillable (result lib (write lib xs (new_usage_inspector lib content_type))).1.0
  unfolding new_usage_inspector
  result-IsBillable t xs =
      let i = inspector_of lib (lib.media_type t) in
      let j = write lib xs i in
      subst (AllSome IsBillable) (sym (result_fields j).1)
        (finalize-Reports j ((write-KeepsBoth xs i).0 (inspector_of-Fresh (lib.media_type t)).3)).0

  -- Whatever the content type and the bytes of a response, the inspector holds at most 64 KiB of a
  -- captured object and at most 64 KiB of an event.
  pub write-Fits :
      (content_type xs : Bytes) → Fits (write lib xs (new_usage_inspector lib content_type))
  unfolding new_usage_inspector
  write-Fits t xs =
      (write-KeepsBoth xs (inspector_of lib (lib.media_type t))).1
        (inspector_of-Fresh (lib.media_type t)).4

  finalize_format-IsDone :
      (f : Format) (i : UsageInspector) → i.finalized ≡ true → IsDone (finalize_format lib f i)
  unfolding IsDone
  finalize_format-IsDone no_format i h = h
  finalize_format-IsDone json i h = if_keeps IsDone (not (eof i.json_validator)) (λ _. h) (λ _. h)
  finalize_format-IsDone sse i h =
      if_keeps IsDone (not i.disabled && ltb 0 (length i.sse_event))
        (λ _. (consume_sse_event-Minor lib i.sse_event i).same_finalized ∙ h) (λ _. h)

  finalize-IsDone : (i : UsageInspector) → IsDone (finalize lib i)
  unfolding finalize IsDone
  finalize-IsDone i =
      if_keeps IsDone i.finalized (λ h. h)
        (λ _. finalize_format-IsDone i.format (record i { finalized = true }) refl)

  finalize_done : (i : UsageInspector) → IsDone i → finalize lib i ≡ i
  unfolding finalize IsDone
  finalize_done i h = taken_branch _ _ h

  answer : UsageInspector → UsageInspector × (Option TokenUsage × Format × Bool)
  answer j = if j.failed then (j, (j.usage, j.format, true)) else (j, (j.usage, no_format, false))

  result_answer : (i : UsageInspector) → result lib i ≡ answer (finalize lib i)
  unfolding result answer
  result_answer i = refl

  -- `Result` a second time changes nothing and answers the same.
  pub result_twice : (i : UsageInspector) → result lib (result lib i).0 ≡ result lib i
  result_twice i =
      let j = finalize lib i in
      ap (result lib) (result_fields i).0
      ∙ result_answer j
      ∙ ap answer (finalize_done j (finalize-IsDone i))
      ∙ sym (result_answer i)

  json_passes :
      (j : UsageInspector)
      → (finalize_format lib json j).failed ≡ false
      → (eof j.json_validator ≡ true) × (j.failed ≡ false)
  json_passes j =
      if_keeps
        (λ (r : UsageInspector).
          r.failed ≡ false → (eof j.json_validator ≡ true) × (j.failed ≡ false))
        (not (eof j.json_validator)) (λ _ k. absurd cc)
        (λ h k. (of_negation (eof j.json_validator) h, k))

  -- A JSON response is found in order only if its text is.
  finalized_passes :
      (j : UsageInspector)
      → j.format ≡ json
      → j.finalized ≡ false
      → (finalize lib j).failed ≡ false
      → (eof j.json_validator ≡ true) × (j.failed ≡ false)
  unfolding finalize
  finalized_passes j q n h =
      let k = record j { finalized = true } in
      let e : finalize lib j ≡ finalize_format lib json k =
        other_branch _ _ n ∙ ap (λ (f : Format). finalize_format lib f k) q in
      json_passes k (ap (λ (i : UsageInspector). i.failed) (sym e) ∙ h)

  -- Where the response is inspected as JSON and `Result` reports no failure, all that was written is
  -- one JSON value of RFC 8259, read byte by byte, with whitespace around it; whether the bytes of a
  -- string are UTF-8 is not asked.
  pub result-IsJson :
      (content_type xs : Bytes)
      → (new_usage_inspector lib content_type).format ≡ json
      → (result lib (write lib xs (new_usage_inspector lib content_type))).1.2 ≡ false
      → IsJson xs
  unfolding new_usage_inspector write_json
  result-IsJson t xs q h =
      let i = inspector_of lib (lib.media_type t) in
      let new = inspector_of-Fresh (lib.media_type t) in
      let ran = write_all-Sees lib xs i new.0 in
      let j = write_all (json_byte lib) xs i in
      let e : write lib xs i ≡ j =
        write_open lib xs i new.1
        ∙ other_branch _ _ new.0
        ∙ ap (λ (f : Format). write_format lib f xs i) q in
      let fine : (finalize lib j).failed ≡ false =
        ap (λ (i : UsageInspector). (finalize lib i).failed) (sym e)
        ∙ sym (result_fields (write lib xs i)).2
        ∙ h in
      let passes = finalized_passes j (ran.ran_format ∙ q) (ran.ran_finalized ∙ new.1) fine in
      let goes_on : j.disabled ≡ false = still_open j ran.ran_failed passes.1 in
      let taken : j.json_validator ≡ step_bytes xs reset =
        ran.ran_validator goes_on ∙ ap (step_bytes xs) new.2 in
      (eof-step_bytes xs).0 (ap eof (sym taken) ∙ passes.0)
