-- ===== src/Proxy/UsageInspector/Writes.antt =====
-- What the bytes of one `Write` of internal/proxy/usage.go do to the inspector.
use vllm_priority_gateway.Base.{
  ℕ, Bool, true, false, not, ◌≡◌, ◌≤◌, refl, sym, ap, subst, ◌∙◌, [], ◌∷◌, ◌++◌, ◌==◌, length,
  if_keeps, arith, length-append, take, ◌-◌,
}
use vllm_priority_gateway.Proxy.JsonValidator.{Validator, step_bytes}
use vllm_priority_gateway.Proxy.TokenUsage.{Bytes}
use vllm_priority_gateway.Proxy.EventLines.{trim_cr}
use vllm_priority_gateway.Proxy.UsageInspector.{json_byte, sse_byte, write_all, drop_bytes}
use vllm_priority_gateway.Proxy.InspectorState.{Library, UsageInspector, max_usage_capture_size}
use vllm_priority_gateway.Proxy.UsageInspector.Counts.{AllSome, IsBillable}
use vllm_priority_gateway.Proxy.UsageInspector.Minor.{
  Minor, Minor-trans, Reports, Fits, untouched, consume_sse_event-Minor,
}
use vllm_priority_gateway.Proxy.UsageInspector.Steps.{
  Gave, json_byte-TakesByte, disable_inspection-Gave,
}

module _ (lib : Library) (c : ℕ) where
  -- One byte of an event stream: it is kept, or the inspection is given up.
  abbrev pub TakesEvent : UsageInspector → UsageInspector × Bool → Type 0
  TakesEvent i r = (r.1 ≡ false → Minor i r.0) × (r.1 ≡ true → Gave i r.0)

  event-Fits :
      (i : UsageInspector)
      → (length i.sse_event == max_usage_capture_size) ≡ false
      → Fits i
      → length (i.sse_event ++ (c ∷ [])) ≤ max_usage_capture_size
  event-Fits i h k = let fits = k.1 in rw (length-append i.sse_event (c ∷ [])) (ground arith)

  pub sse_byte-TakesEvent : (i : UsageInspector) → TakesEvent i (sse_byte lib c i)
  unfolding sse_byte
  sse_byte-TakesEvent i =
      let event = i.sse_event ++ (c ∷ []) in
      let line = trim_cr (drop_bytes i.sse_line_start (take (length event - 1) event)) in
      if_keeps (TakesEvent i) (length i.sse_event == max_usage_capture_size)
        (λ _. (λ k. absurd cc, λ _. disable_inspection-Gave i))
        (λ h.
          if_keeps (TakesEvent i) (not (c == 10))
            (λ _. (
              λ _. untouched refl refl refl refl refl refl refl (λ k. (k.0, event-Fits i h k)),
              λ k. absurd cc,
            ))
            (λ _.
              if_keeps (TakesEvent i) (not (length line == 0))
                (λ _. (
                  λ _. untouched refl refl refl refl refl refl refl (λ k. (k.0, event-Fits i h k)),
                  λ k. absurd cc,
                ))
                (λ _. (
                  λ _.
                      Minor-trans
                        (untouched refl refl refl refl refl refl refl
                          (λ k. (k.0, event-Fits i h k)))
                        (Minor-trans
                          (consume_sse_event-Minor lib (take i.sse_line_start event)
                            (record i { sse_event = event }))
                          (untouched refl refl refl refl refl refl refl (λ k. (k.0, omega arith)))),
                  λ k. absurd cc,
                ))))

-- What holds after some bytes: `seen` is what the validator has taken.
pub record Ran (seen : Bytes → Validator → Validator → Type 0) (bytes : Bytes)
    (i j : UsageInspector) : Type 0 where
  pub ran_failed : j.disabled ≡ true → j.failed ≡ true
  pub ran_validator : j.disabled ≡ false → seen bytes i.json_validator j.json_validator
  pub ran_finalized : j.finalized ≡ i.finalized
  pub ran_format : j.format ≡ i.format
  pub ran_reports : Reports i → Reports j
  pub ran_fits : Fits i → Fits j

abbrev pub Sees : Bytes → Validator → Validator → Type 0
Sees bytes v w = w ≡ step_bytes bytes v

abbrev pub Ignores : Bytes → Validator → Validator → Type 0
Ignores bytes v w = w ≡ v

clash {ℓ} : {A : Type ℓ} → true ≡ false → A
clash h = cc

Gave-Ran :
    {seen : Bytes → Validator → Validator → Type 0} {bytes : Bytes} {i j : UsageInspector}
    → Gave i j
    → Ran seen bytes i j
Gave-Ran g = record {
  ran_failed = λ _. g.is_failed;
  ran_validator = λ k. clash (sym g.gave_up ∙ k);
  ran_finalized = g.keeps_finalized;
  ran_format = g.keeps_format;
  ran_reports = λ _. (subst (AllSome IsBillable) (sym g.no_usage) tt, λ _. g.no_usage);
  ran_fits = g.still_fits;
}

module _ (lib : Library) where
  pub write_all-Sees :
      (bytes : Bytes) (i : UsageInspector)
      → i.disabled ≡ false
      → Ran Sees bytes i (write_all (json_byte lib) bytes i)
  unfolding write_all step_bytes
  write_all-Sees [] i d = record {
    ran_failed = λ k. clash (sym k ∙ d);
    ran_validator = λ _. refl;
    ran_finalized = refl;
    ran_format = refl;
    ran_reports = λ h. h;
    ran_fits = λ h. h;
  }
  write_all-Sees (c ∷ cs) i d =
      let r = json_byte lib c i in
      let taken = json_byte-TakesByte lib c i d in
      if_keeps (Ran Sees (c ∷ cs) i) r.1 (λ h. Gave-Ran (taken.1 h))
        (λ h.
          let t = taken.0 h in
          let rest = write_all-Sees cs r.0 (t.goes_on ∙ d) in
          record {
            ran_failed = rest.ran_failed;
            ran_validator = λ k. rest.ran_validator k ∙ ap (step_bytes cs) t.took_byte;
            ran_finalized = rest.ran_finalized ∙ t.took_finalized;
            ran_format = rest.ran_format ∙ t.took_format;
            ran_reports = λ k. rest.ran_reports (t.took_reports k);
            ran_fits = λ k. rest.ran_fits (t.took_fits k);
          })

  pub write_all-Ignores :
      (bytes : Bytes) (i : UsageInspector)
      → i.disabled ≡ false
      → Ran Ignores bytes i (write_all (sse_byte lib) bytes i)
  unfolding write_all
  write_all-Ignores [] i d = record {
    ran_failed = λ k. clash (sym k ∙ d);
    ran_validator = λ _. refl;
    ran_finalized = refl;
    ran_format = refl;
    ran_reports = λ h. h;
    ran_fits = λ h. h;
  }
  write_all-Ignores (c ∷ cs) i d =
      let r = sse_byte lib c i in
      let taken = sse_byte-TakesEvent lib c i in
      if_keeps (Ran Ignores (c ∷ cs) i) r.1 (λ h. Gave-Ran (taken.1 h))
        (λ h.
          let t = taken.0 h in
          let rest = write_all-Ignores cs r.0 (t.same_disabled ∙ d) in
          record {
            ran_failed = rest.ran_failed;
            ran_validator = λ k. rest.ran_validator k ∙ t.same_validator;
            ran_finalized = rest.ran_finalized ∙ t.same_finalized;
            ran_format = rest.ran_format ∙ t.same_format;
            ran_reports = λ k. rest.ran_reports (t.reports k);
            ran_fits = λ k. rest.ran_fits (t.fits k);
          })
