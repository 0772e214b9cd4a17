-- ===== src/Proxy/UsageInspector/Streaming.antt =====
-- A response that comes in two pieces is inspected as if it came in one.
use vllm_priority_gateway.Base.{
  taken_branch, other_branch, ℕ, Bool, true, false, ◌||◌, ◌≡◌, refl, sym, ap, ◌∙◌, [], ◌∷◌, ◌++◌,
  ◌==◌, if◌then◌else◌, length, arith, Bool-cases, inl, inr,
}
use vllm_priority_gateway.Proxy.TokenUsage.{Bytes}
use vllm_priority_gateway.Proxy.UsageInspector.{
  json_byte, sse_byte, write_all, write_json, write_sse, write_format, write,
}
use vllm_priority_gateway.Proxy.InspectorState.{
  Library, UsageInspector, Format, no_format, json, sse,
}
use vllm_priority_gateway.Proxy.UsageInspector.Steps.{json_byte-TakesByte}
use vllm_priority_gateway.Proxy.UsageInspector.Writes.{
  write_all-Sees, write_all-Ignores, sse_byte-TakesEvent,
}

-- A loop returns exactly where it gives up.
abbrev StopsDisabled : (ℕ → UsageInspector → UsageInspector × Bool) → Type 0
StopsDisabled byte =
    (c : ℕ) (i : UsageInspector) → i.disabled ≡ false → (byte c i).1 ≡ (byte c i).0.disabled

write_all-append :
    (byte : ℕ → UsageInspector → UsageInspector × Bool)
    → StopsDisabled byte
    → (xs ys : Bytes) (i : UsageInspector) → i.disabled ≡ false
    → write_all byte (xs ++ ys) i ≡ (
        if (write_all byte xs i).disabled
        then write_all byte xs i
        else write_all byte ys (write_all byte xs i))
unfolding write_all
write_all-append byte stops [] ys i d = rw d refl
write_all-append byte stops (c ∷ cs) ys i d =
    let r = byte c i in
    let stop = stops c i d in
    elim (Bool-cases r.1) [
      | inl h ↦ rw (h, sym stop ∙ h) refl
      | inr h ↦ rw h (write_all-append byte stops cs ys r.0 (sym stop ∙ h))
    ]

module _ (lib : Library) where
  json_byte-StopsDisabled : StopsDisabled (json_byte lib)
  json_byte-StopsDisabled c i d =
      let taken = json_byte-TakesByte lib c i d in
      elim (Bool-cases (json_byte lib c i).1) [
        | inl h ↦ h ∙ sym (taken.1 h).gave_up
        | inr h ↦ h ∙ sym ((taken.0 h).goes_on ∙ d)
      ]

  sse_byte-StopsDisabled : StopsDisabled (sse_byte lib)
  sse_byte-StopsDisabled c i d =
      let taken = sse_byte-TakesEvent lib c i in
      elim (Bool-cases (sse_byte lib c i).1) [
        | inl h ↦ h ∙ sym (taken.1 h).gave_up
        | inr h ↦ h ∙ sym ((taken.0 h).same_disabled ∙ d)
      ]

  write_nothing : (f : Format) (i : UsageInspector) → write_format lib f [] i ≡ i
  unfolding write_json write_sse write_all
  write_nothing no_format i = refl
  write_nothing json i = refl
  write_nothing sse i = refl

  pub write_shut : (i : UsageInspector) → i.disabled ≡ true → (zs : Bytes) → write lib zs i ≡ i
  unfolding write
  write_shut i d zs = taken_branch _ _ (ap (λ (b : Bool). b || i.finalized || length zs == 0) d)

  pub write_done : (i : UsageInspector) → i.finalized ≡ true → (zs : Bytes) → write lib zs i ≡ i
  unfolding write
  write_done i n zs = taken_branch _ _ (done_or i.disabled (length zs == 0) n)
    where
      done_or : (a b : Bool) → i.finalized ≡ true → (a || i.finalized || b) ≡ true
      done_or a b n = rw n (ground arith)

  -- A `Write` to an inspector that is not finalized.
  pub write_open :
      (ys : Bytes) (j : UsageInspector)
      → j.finalized ≡ false
      → write lib ys j ≡ (if j.disabled then j else write_format lib j.format ys j)
  unfolding write
  write_open [] j n = elim (Bool-cases j.disabled) [
    | inl d ↦ write_shut j d [] ∙ sym (taken_branch _ _ d)
    | inr d ↦
        taken_branch _ _ (shut_or_empty j.disabled j.finalized)
        ∙ sym (write_nothing j.format j)
        ∙ sym (other_branch _ _ d)
  ]
    where
      shut_or_empty : (a b : Bool) → (a || b || true) ≡ true
      shut_or_empty a b = ground arith
  write_open (c ∷ cs) j n = elim (Bool-cases j.disabled) [
    | inl d ↦ write_shut j d (c ∷ cs) ∙ sym (taken_branch _ _ d)
    | inr d ↦
        other_branch j (write_format lib j.format (c ∷ cs) j) (is_open d n)
        ∙ sym (other_branch _ _ d)
  ]
    where
      is_open :
          j.disabled ≡ false
          → j.finalized ≡ false
          → (j.disabled || j.finalized || length (c ∷ cs) == 0) ≡ false
      is_open d n = rw (d, n) (ground arith)

  -- What comes after a write, from its format, and from its answer to the rest.
  module _ (xs ys : Bytes) (i : UsageInspector) where
    continued :
        (j : UsageInspector) (f : Format)
        → j.format ≡ f
        → j.finalized ≡ false
        → (if j.disabled then j else write_format lib f ys j) ≡ write lib ys j
    continued j f q n =
        ap (λ (f : Format). if j.disabled then j else write_format lib f ys j) (sym q)
        ∙ sym (write_open ys j n)

    format_append :
        (f : Format)
        → i.format ≡ f
        → i.disabled ≡ false
        → i.finalized ≡ false
        → write_format lib f (xs ++ ys) i ≡ write lib ys (write_format lib f xs i)
    unfolding write_json write_sse
    format_append no_format q d n = sym (other_branch _ _ d) ∙ continued i no_format q n
    format_append json q d n =
        let ran = write_all-Sees lib xs i d in
        write_all-append (json_byte lib) json_byte-StopsDisabled xs ys i d
        ∙ continued (write_all (json_byte lib) xs i) json (ran.ran_format ∙ q)
            (ran.ran_finalized ∙ n)
    format_append sse q d n =
        let ran = write_all-Ignores lib xs i d in
        write_all-append (sse_byte lib) sse_byte-StopsDisabled xs ys i d
        ∙ continued (write_all (sse_byte lib) xs i) sse (ran.ran_format ∙ q) (ran.ran_finalized ∙ n)

  -- Two writes, wherever the chunks of a response are cut, are one write of both.
  pub write-append :
      (xs ys : Bytes) (i : UsageInspector) → write lib (xs ++ ys) i ≡ write lib ys (write lib xs i)
  write-append xs ys i = elim (Bool-cases i.disabled) [
    | inl d ↦
        let shut : (zs : Bytes) → write lib zs i ≡ i = write_shut i d in
        shut (xs ++ ys) ∙ sym (shut ys) ∙ ap (write lib ys) (sym (shut xs))
    | inr d ↦ elim (Bool-cases i.finalized) [
      | inl n ↦
          let shut : (zs : Bytes) → write lib zs i ≡ i = write_done i n in
          shut (xs ++ ys) ∙ sym (shut ys) ∙ ap (write lib ys) (sym (shut xs))
      | inr n ↦
          let plain : (zs : Bytes) → write lib zs i ≡ write_format lib i.format zs i =
            λ zs. write_open zs i n ∙ other_branch _ _ d in
          plain (xs ++ ys)
          ∙ format_append xs ys i i.format refl d n
          ∙ ap (write lib ys) (sym (plain xs))
    ]
  ]
