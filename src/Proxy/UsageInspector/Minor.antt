-- ===== src/Proxy/UsageInspector/Minor.antt =====
-- What the steps of internal/proxy/usage.go keep that neither take a byte nor give up.
use vllm_priority_gateway.Base.{
  Bool, true, false, ◌≡◌, ◌≤◌, refl, sym, subst, ◌∙◌, Option, none, some, List, [], ◌∷◌,
  if◌then◌else◌, length, if_keeps, Bool-cases, inl, inr,
}
use vllm_priority_gateway.Proxy.TokenUsage.{
  Bytes, same, done, Json, TokenUsage, normalize_token_usage, find_authoritative_sse_usage,
}
use vllm_priority_gateway.Proxy.EventLines.{data_lines, split_lines, join_lines}
use vllm_priority_gateway.Proxy.UsageInspector.{
  take_usage, decode_json_value, consume_normalized_usage, consume_decoded, consume_candidate,
  consume_event_value, consume_data, consume_sse_event,
}
use vllm_priority_gateway.Proxy.InspectorState.{Library, UsageInspector, max_usage_capture_size}
use vllm_priority_gateway.Proxy.UsageInspector.Counts.{
  AllSome, IsBillable, normalize_token_usage-AllSome,
}

abbrev pub Reports : UsageInspector → Type 0
Reports i = AllSome IsBillable i.usage × (i.invalid_usage_candidate ≡ true → i.usage ≡ none)

abbrev pub Fits : UsageInspector → Type 0
Fits i =
    (length i.json_capture ≤ max_usage_capture_size) × (length i.sse_event ≤ max_usage_capture_size)

pub record Minor (i j : UsageInspector) : Type 0 where
  pub same_disabled : j.disabled ≡ i.disabled
  pub same_finalized : j.finalized ≡ i.finalized
  pub same_format : j.format ≡ i.format
  pub same_validator : j.json_validator ≡ i.json_validator
  pub stays_failed : i.failed ≡ true → j.failed ≡ true
  pub reports : Reports i → Reports j
  pub fits : Fits i → Fits j

pub Minor-refl : (i : UsageInspector) → Minor i i
Minor-refl i = record {
  same_disabled = refl;
  same_finalized = refl;
  same_format = refl;
  same_validator = refl;
  stays_failed = λ h. h;
  reports = λ h. h;
  fits = λ h. h;
}

pub Minor-trans : {i j k : UsageInspector} → Minor i j → Minor j k → Minor i k
Minor-trans a b = record {
  same_disabled = b.same_disabled ∙ a.same_disabled;
  same_finalized = b.same_finalized ∙ a.same_finalized;
  same_format = b.same_format ∙ a.same_format;
  same_validator = b.same_validator ∙ a.same_validator;
  stays_failed = λ h. b.stays_failed (a.stays_failed h);
  reports = λ h. b.reports (a.reports h);
  fits = λ h. b.fits (a.fits h);
}

-- A step that touches none of the fields that matter here.
pub untouched :
    {i j : UsageInspector}
    → j.disabled ≡ i.disabled
    → j.finalized ≡ i.finalized
    → j.format ≡ i.format
    → j.json_validator ≡ i.json_validator
    → j.failed ≡ i.failed
    → j.usage ≡ i.usage
    → j.invalid_usage_candidate ≡ i.invalid_usage_candidate
    → (Fits i → Fits j)
    → Minor i j
untouched {i} {j} d f m v e u c fits = record {
  same_disabled = d;
  same_finalized = f;
  same_format = m;
  same_validator = v;
  stays_failed = λ h. e ∙ h;
  reports = λ h. (subst (AllSome IsBillable) (sym u) h.0, λ k. u ∙ h.1 (sym c ∙ k));
  fits = fits;
}

module _ (lib : Library) where
  take_usage-Minor :
      (b : Bool) (u : Option TokenUsage) (i : UsageInspector)
      → AllSome IsBillable u
      → Minor i (take_usage b u i)
  take_usage-Minor false u i h = record {
    same_disabled = refl;
    same_finalized = refl;
    same_format = refl;
    same_validator = refl;
    stays_failed = λ k. k;
    reports = λ _. (tt, λ _. refl);
    fits = λ k. k;
  }
  take_usage-Minor true u i h = record {
    same_disabled = refl;
    same_finalized = refl;
    same_format = refl;
    same_validator = refl;
    stays_failed = λ k. k;
    reports = λ k.
        elim (Bool-cases i.invalid_usage_candidate) as (λ _. Reports (take_usage true u i)) [
          | inl e ↦ rw e (k.0, λ _. k.1 e)
          | inr e ↦ rw e (h, λ f. absurd cc)
        ];
    fits = λ k. k;
  }

  failed-Minor : (i : UsageInspector) → Minor i (record i { failed = true })
  failed-Minor i = record {
    same_disabled = refl;
    same_finalized = refl;
    same_format = refl;
    same_validator = refl;
    stays_failed = λ _. refl;
    reports = λ h. h;
    fits = λ h. h;
  }

  -- A candidate for the usage, taken or refused.
  pub consume_normalized_usage-Minor :
      (v : Json) (i : UsageInspector) → Minor i (consume_normalized_usage lib v i)
  unfolding consume_normalized_usage
  consume_normalized_usage-Minor v i =
      let n = normalize_token_usage lib.parse_int v in
      let j = if n.validation_failed then record i { failed = true } else i in
      let first : Minor i j =
        if_keeps (Minor i) n.validation_failed (λ _. failed-Minor i) (λ _. Minor-refl i) in
      Minor-trans first
        (take_usage-Minor n.valid n.usage j (normalize_token_usage-AllSome lib.parse_int v))

  pub consume_decoded-Minor :
      (o : Option Json) (i : UsageInspector) → Minor i (consume_decoded lib o i)
  consume_decoded-Minor none i = failed-Minor i
  consume_decoded-Minor (some v) i = consume_normalized_usage-Minor v i

  consume_candidate-Minor :
      (o : Option Json) (i : UsageInspector) → Minor i (consume_candidate lib o i)
  consume_candidate-Minor none i = Minor-refl i
  consume_candidate-Minor (some v) i = consume_normalized_usage-Minor v i

  consume_event_value-Minor :
      (o : Option Json) (i : UsageInspector) → Minor i (consume_event_value lib o i)
  consume_event_value-Minor none i = failed-Minor i
  consume_event_value-Minor (some v) i = consume_candidate-Minor (find_authoritative_sse_usage v) i

  consume_data-Minor :
      (lines : List Bytes) (i : UsageInspector) → Minor i (consume_data lib lines i)
  consume_data-Minor [] i = Minor-refl i
  consume_data-Minor (line ∷ lines) i =
      if_keeps (Minor i) (same (lib.trim_space (join_lines (line ∷ lines))) done)
        (λ _. Minor-refl i)
        (λ _. consume_event_value-Minor (decode_json_value lib (join_lines (line ∷ lines))) i)

  pub consume_sse_event-Minor :
      (event : Bytes) (i : UsageInspector) → Minor i (consume_sse_event lib event i)
  unfolding consume_sse_event
  consume_sse_event-Minor event i = consume_data-Minor (data_lines (split_lines event)) i
