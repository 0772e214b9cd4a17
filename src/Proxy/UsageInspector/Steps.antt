-- ===== src/Proxy/UsageInspector/Steps.antt =====
-- What the steps of a JSON response keep, and what they do where they give up.
use vllm_priority_gateway.Base.{
  of_negation, ℕ, Bool, true, false, ◌&&◌, not, ◌≡◌, ◌≤◌, refl, ap, ◌∙◌, none, [], ◌∷◌, ◌++◌, ◌==◌,
  length, if_keeps, arith, length-append,
}
use vllm_priority_gateway.Proxy.JsonValidator.{
  Validator, JsonScanOp, is_space, step_byte, is_scan_error,
}
use vllm_priority_gateway.Proxy.UsageInspector.{
  decode_json_value, consume_usage_object, end_capture, after_step, captured, validate, json_byte,
  starts_top_level_key,
}
use vllm_priority_gateway.Proxy.KeySearch.{before_step, string_step, begin_string_at, is_end_object}
use vllm_priority_gateway.Proxy.InspectorState.{
  Library, UsageInspector, max_usage_capture_size, append_json_capture, disable_inspection,
}
use vllm_priority_gateway.Proxy.UsageInspector.Minor.{
  Minor, Minor-refl, Minor-trans, Reports, Fits, untouched, consume_decoded-Minor,
}

-- The inspection has been given up.
pub record Gave (i j : UsageInspector) : Type 0 where
  pub gave_up : j.disabled ≡ true
  pub is_failed : j.failed ≡ true
  pub keeps_finalized : j.finalized ≡ i.finalized
  pub keeps_format : j.format ≡ i.format
  pub no_usage : j.usage ≡ none
  pub still_fits : Fits i → Fits j

pub Minor-Gave : {i j k : UsageInspector} → Minor i j → Gave j k → Gave i k
Minor-Gave a b = record {
  gave_up = b.gave_up;
  is_failed = b.is_failed;
  keeps_finalized = b.keeps_finalized ∙ a.same_finalized;
  keeps_format = b.keeps_format ∙ a.same_format;
  no_usage = b.no_usage;
  still_fits = λ h. b.still_fits (a.fits h);
}

pub disable_inspection-Gave : (i : UsageInspector) → Gave i (disable_inspection i)
unfolding disable_inspection
disable_inspection-Gave i = record {
  gave_up = refl;
  is_failed = refl;
  keeps_finalized = refl;
  keeps_format = refl;
  no_usage = refl;
  still_fits = λ h. (omega arith, omega arith);
}

-- A step that answers `true` where it goes on.
abbrev pub GoesOn : UsageInspector → UsageInspector × Bool → Type 0
GoesOn i r = (r.1 ≡ true → Minor i r.0) × (r.1 ≡ false → Gave i r.0)

-- A byte that the validator takes, after which the inspection goes on.
pub record Took (c : ℕ) (i j : UsageInspector) : Type 0 where
  pub goes_on : j.disabled ≡ i.disabled
  pub took_finalized : j.finalized ≡ i.finalized
  pub took_format : j.format ≡ i.format
  pub took_byte : j.json_validator ≡ (step_byte c i.json_validator).0
  pub took_failed : i.failed ≡ true → j.failed ≡ true
  pub took_reports : Reports i → Reports j
  pub took_fits : Fits i → Fits j

-- A byte that answers `true` where the loop returns.
abbrev pub TakesByte : ℕ → UsageInspector → UsageInspector × Bool → Type 0
TakesByte c i r = (r.1 ≡ false → Took c i r.0) × (r.1 ≡ true → Gave i r.0)

validator-Took :
    {c : ℕ} (i : UsageInspector)
    → Took c i (record i { json_validator = (step_byte c i.json_validator).0 })
validator-Took i = record {
  goes_on = refl;
  took_finalized = refl;
  took_format = refl;
  took_byte = refl;
  took_failed = λ h. h;
  took_reports = λ h. h;
  took_fits = λ h. h;
}

Took-Minor : {c : ℕ} {i j k : UsageInspector} → Took c i j → Minor j k → Took c i k
Took-Minor a b = record {
  goes_on = b.same_disabled ∙ a.goes_on;
  took_finalized = b.same_finalized ∙ a.took_finalized;
  took_format = b.same_format ∙ a.took_format;
  took_byte = b.same_validator ∙ a.took_byte;
  took_failed = λ h. b.stays_failed (a.took_failed h);
  took_reports = λ h. b.reports (a.took_reports h);
  took_fits = λ h. b.fits (a.took_fits h);
}

Minor-Took : {c : ℕ} {i j k : UsageInspector} → Minor i j → Took c j k → Took c i k
Minor-Took {c} a b = record {
  goes_on = b.goes_on ∙ a.same_disabled;
  took_finalized = b.took_finalized ∙ a.same_finalized;
  took_format = b.took_format ∙ a.same_format;
  took_byte = b.took_byte ∙ ap (λ (v : Validator). (step_byte c v).0) a.same_validator;
  took_failed = λ h. b.took_failed (a.stays_failed h);
  took_reports = λ h. b.took_reports (a.reports h);
  took_fits = λ h. b.took_fits (a.fits h);
}

of_true_negation : (b : Bool) → not b ≡ true → b ≡ false
of_true_negation true h = cc
of_true_negation false h = refl

append_json_capture-GoesOn : (c : ℕ) (i : UsageInspector) → GoesOn i (append_json_capture c i)
unfolding append_json_capture
append_json_capture-GoesOn c i =
    if_keeps (GoesOn i) (length i.json_capture == max_usage_capture_size)
      (λ _. (λ k. absurd cc, λ _. disable_inspection-Gave i))
      (λ h. (
        λ _. untouched refl refl refl refl refl refl refl (λ k. (longer k.0 h, k.1)),
        λ k. absurd cc,
      ))
  where
    longer :
        length i.json_capture ≤ max_usage_capture_size
        → (length i.json_capture == max_usage_capture_size) ≡ false
        → length (i.json_capture ++ (c ∷ [])) ≤ max_usage_capture_size
    longer k h = rw (length-append i.json_capture (c ∷ [])) (ground arith)

after-GoesOn :
    {i j : UsageInspector} {r : UsageInspector × Bool} → Minor i j → GoesOn j r → GoesOn i r
after-GoesOn a b = (λ h. Minor-trans a (b.0 h), λ h. Minor-Gave a (b.1 h))

pub before_step-GoesOn : (c : ℕ) (i : UsageInspector) → GoesOn i (before_step c i)
unfolding before_step
before_step-GoesOn c i =
    if_keeps (GoesOn i)
      (not i.json_in_string && not i.json_capturing && i.json_usage_key && not (is_space c))
      (λ _. (λ _. untouched refl refl refl refl refl refl refl (λ k. k), λ k. absurd cc))
      (λ _.
        if_keeps (GoesOn i)
          (not i.json_in_string
            && not i.json_capturing
            && i.json_awaiting_value
            && not (is_space c))
          (λ _.
            if_keeps (GoesOn i) (c == b'{')
              (λ _.
                after-GoesOn
                  (untouched refl refl refl refl refl refl refl (λ k. (omega arith, k.1)))
                  (append_json_capture-GoesOn c (record i {
                    json_awaiting_value = false;
                    json_capturing = true;
                    json_capture_base = length i.json_validator.stack;
                    json_capture = [];
                  })))
              (λ _. (
                λ _. record {
                  same_disabled = refl;
                  same_finalized = refl;
                  same_format = refl;
                  same_validator = refl;
                  stays_failed = λ _. refl;
                  reports = λ _. (tt, λ _. refl);
                  fits = λ k. k;
                },
                λ k. absurd cc,
              )))
          (λ _. (λ _. Minor-refl i, λ k. absurd cc)))

string_step-Minor : (c : ℕ) (i : UsageInspector) → Minor i (string_step c i)
unfolding string_step
string_step-Minor c i =
    if_keeps (Minor i) i.json_escaped (λ _. untouched refl refl refl refl refl refl refl (λ k. k))
      (λ _.
        if_keeps (Minor i) (c == 92) (λ _. untouched refl refl refl refl refl refl refl (λ k. k))
          (λ _.
            if_keeps (Minor i) (c == 34)
              (λ _. untouched refl refl refl refl refl refl refl (λ k. k))
              (λ _. untouched refl refl refl refl refl refl refl (λ k. k))))

module _ (lib : Library) (c : ℕ) where
  captured-GoesOn : (i : UsageInspector) → GoesOn i (captured lib c i)
  unfolding captured
  captured-GoesOn i =
      if_keeps (GoesOn i) i.json_capturing (λ _. append_json_capture-GoesOn c i)
        (λ _. (λ _. Minor-refl i, λ k. absurd cc))

  begin_string_at-Minor :
      (starts : Bool) (i : UsageInspector) → Minor i (begin_string_at c starts i)
  begin_string_at-Minor starts i =
      if_keeps (Minor i) (c == 34) (λ _. untouched refl refl refl refl refl refl refl (λ k. k))
        (λ _. Minor-refl i)

  end_capture-Minor : (op : JsonScanOp) (i : UsageInspector) → Minor i (end_capture lib op i)
  unfolding consume_usage_object
  end_capture-Minor op i =
      let j = record i { json_capturing = false } in
      if_keeps (Minor i)
        (i.json_capturing
          && is_end_object op
          && length i.json_validator.stack == i.json_capture_base)
        (λ _. Minor-trans (untouched refl refl refl refl refl refl refl (λ k. k)) (
          Minor-trans (consume_decoded-Minor lib (decode_json_value lib i.json_capture) j)
            (untouched refl refl refl refl refl refl refl (λ k. (omega arith, k.1)))))
        (λ _. Minor-refl i)

  after_step-Minor :
      (starts : Bool) (op : JsonScanOp) (i : UsageInspector)
      → Minor i (after_step lib c starts op i)
  unfolding after_step
  after_step-Minor starts op i =
      if_keeps (Minor i) i.json_in_string (λ _. string_step-Minor c i)
        (λ _.
          Minor-trans (begin_string_at-Minor starts i)
            (end_capture-Minor op (begin_string_at c starts i)))

  validate-TakesByte :
      (starts : Bool) (i : UsageInspector) → TakesByte c i (validate lib c starts i)
  unfolding validate
  validate-TakesByte starts i =
      let r = step_byte c i.json_validator in
      let j = record i { json_validator = r.0 } in
      let g = disable_inspection-Gave j in
      let stepped_gave : Gave i (disable_inspection j) = record {
        gave_up = g.gave_up;
        is_failed = g.is_failed;
        keeps_finalized = g.keeps_finalized;
        keeps_format = g.keeps_format;
        no_usage = g.no_usage;
        still_fits = g.still_fits;
      } in
      if_keeps (TakesByte c i) (is_scan_error r.1) (λ _. (λ k. absurd cc, λ _. stepped_gave))
        (λ _. (λ _. Took-Minor (validator-Took i) (after_step-Minor starts r.1 j), λ k. absurd cc))

  -- One byte of a response that is still inspected: the validator takes it, or the inspection is
  -- given up.
  pub json_byte-TakesByte :
      (i : UsageInspector) → i.disabled ≡ false → TakesByte c i (json_byte lib c i)
  unfolding json_byte
  json_byte-TakesByte i d =
      let a = captured lib c i in
      let b = before_step c a.0 in
      if_keeps (TakesByte c i) i.disabled (λ e. absurd cc)
        (λ _.
          if_keeps (TakesByte c i) (not a.1)
            (λ h. (λ k. absurd cc, λ _. (captured-GoesOn i).1 (of_true_negation a.1 h)))
            (λ h.
              let start = (captured-GoesOn i).0 (of_negation a.1 h) in
              if_keeps (TakesByte c i) (not b.1)
                (λ k. (
                  λ k. absurd cc,
                  λ _. Minor-Gave start ((before_step-GoesOn c a.0).1 (of_true_negation b.1 k)),
                ))
                (λ k.
                  let before =
                    Minor-trans start ((before_step-GoesOn c a.0).0 (of_negation b.1 k)) in
                  let taken = validate-TakesByte (starts_top_level_key lib c a.0) b.0 in
                  (λ e. Minor-Took before (taken.0 e), λ e. Minor-Gave before (taken.1 e)))))
