-- ===== src/Proxy/UsageInspector/Counts.antt =====
-- The token counts that internal/proxy/usage.go accepts.
use vllm_priority_gateway.Base.{
  ◌≡◌, refl, Option, none, some, if_keeps, arith, ℤ, pos, ◌≤ℤ◌, leb_ℤ, ltb_ℤ,
}
use vllm_priority_gateway.Proxy.TokenUsage.{
  Bytes, Json, nil, other, number, text, object, Fields, TokenUsage, Normalized, Keys,
  normalize_token_usage, not_negative, parse_token_count, with_cache, with_details, with_counts,
  with_keys, choose_keys, get, cached_tokens_key, is_nil,
}

abbrev pub AllSome {ℓ κ} : {A : Type ℓ} → (A → Type κ) → Option A → Type κ
AllSome P none = Unit
AllSome P (some a) = P a

-- The counts that the gateway bills: none is negative, and no more was read from the cache than was
-- read at all.
abbrev pub IsBillable : TokenUsage → Type 0
IsBillable u =
    (pos 0 ≤ℤ u.input_tokens)
    × (pos 0 ≤ℤ u.output_tokens)
    × AllSome (λ (n : ℤ). (pos 0 ≤ℤ n) × (n ≤ℤ u.input_tokens)) u.cache_read_tokens

module _ (parse_int : Bytes → Option ℤ) where
  IsCount : ℤ → Type 0
  IsCount n = pos 0 ≤ℤ n

  IsFine : Normalized → Type 0
  IsFine n = AllSome IsBillable n.usage

  not_negative-AllSome : (o : Option ℤ) → AllSome IsCount (not_negative parse_int o)
  unfolding IsCount
  not_negative-AllSome none = tt
  not_negative-AllSome (some n) =
      if_keeps (AllSome IsCount) (leb_ℤ (pos 0) n) (λ h. ground arith) (λ _. tt)

  parse_token_count-AllSome : (v : Json) → AllSome IsCount (parse_token_count parse_int v)
  unfolding parse_token_count
  parse_token_count-AllSome (number t) = not_negative-AllSome (parse_int t)
  parse_token_count-AllSome nil = tt
  parse_token_count-AllSome other = tt
  parse_token_count-AllSome (text t) = tt
  parse_token_count-AllSome (object fields) = tt

  with_cache-IsFine :
      (u : TokenUsage) (o : Option ℤ)
      → u.cache_read_tokens ≡ none
      → IsBillable u
      → AllSome IsCount o
      → IsFine (with_cache parse_int u o)
  unfolding IsFine IsCount
  with_cache-IsFine u none q h c = h
  with_cache-IsFine u (some n) q h c =
      if_keeps IsFine (ltb_ℤ u.input_tokens n) (λ _. h) (λ k. (h.0, h.1, (c, ground arith)))

  with_details-IsFine :
      (v : Json) (u : TokenUsage)
      → u.cache_read_tokens ≡ none
      → IsBillable u
      → IsFine (with_details parse_int v u)
  unfolding with_details IsFine
  with_details-IsFine nil u q h = h
  with_details-IsFine (object fields) u q h =
      if_keeps IsFine (is_nil (get cached_tokens_key fields)) (λ _. h)
        (λ _.
          with_cache-IsFine u (parse_token_count parse_int (get cached_tokens_key fields)) q h
            (parse_token_count-AllSome (get cached_tokens_key fields)))
  with_details-IsFine other u q h = h
  with_details-IsFine (number t) u q h = h
  with_details-IsFine (text t) u q h = h

  with_counts-IsFine :
      (v : Json) (a b : Option ℤ)
      → AllSome IsCount a
      → AllSome IsCount b
      → IsFine (with_counts parse_int v a b)
  unfolding with_counts IsFine IsCount
  with_counts-IsFine v none b ha hb = tt
  with_counts-IsFine v (some a) none ha hb = tt
  with_counts-IsFine v (some a) (some b) ha hb =
      with_details-IsFine v
        (record { input_tokens = a; output_tokens = b; cache_read_tokens = none }) refl (ha, hb, tt)

  with_keys-IsFine : (fields : Fields) (k : Option Keys) → IsFine (with_keys parse_int fields k)
  unfolding with_keys IsFine
  with_keys-IsFine fields none = tt
  with_keys-IsFine fields (some k) =
      with_counts-IsFine (get k.details_key fields)
        (parse_token_count parse_int (get k.input_key fields))
        (parse_token_count parse_int (get k.output_key fields))
        (parse_token_count-AllSome (get k.input_key fields))
        (parse_token_count-AllSome (get k.output_key fields))

  pub normalize_token_usage-AllSome :
      (v : Json) → AllSome IsBillable (normalize_token_usage parse_int v).usage
  unfolding normalize_token_usage IsFine
  normalize_token_usage-AllSome (object fields) = with_keys-IsFine fields (choose_keys fields)
  normalize_token_usage-AllSome nil = tt
  normalize_token_usage-AllSome other = tt
  normalize_token_usage-AllSome (number t) = tt
  normalize_token_usage-AllSome (text t) = tt
