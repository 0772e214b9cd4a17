-- ===== src/Proxy/JsonValidator/Literals.antt =====
-- The states inside `true`, `false` and `null` against the grammar.
use vllm_priority_gateway.Base.{of_negation, [], ℕ, Bool, false, not, List, ◌∷◌, ◌==◌, if_keeps}
use vllm_priority_gateway.Proxy.JsonValidator.{JsonScanState, state_end_value, Stack, fail, literal}
use vllm_priority_gateway.Proxy.JsonValidator.Grammar.{Text, Spells, last_letter, letter}
use vllm_priority_gateway.Proxy.JsonValidator.Language.{Then, at, Takes, Accepts}
use vllm_priority_gateway.Proxy.JsonValidator.Begins.{Into}

module _ (c : ℕ) (xs : Text) (e : Bool) (st : Stack) where
  pub last_sound :
      (w : ℕ) (s : JsonScanState)
      → Into (Then (Spells (w ∷ [])) st (c ∷ xs)) xs (literal c w state_end_value (at s e false st))
  unfolding literal fail Takes
  last_sound w s =
      if_keeps (Into (Then (Spells (w ∷ [])) st (c ∷ xs)) xs) (not (c == w)) (λ _ t. absurd t)
        (λ h t. (xs, last_letter (of_negation (c == w) h), t))

  pub last_complete :
      (w : ℕ) (s : JsonScanState)
      → Then (Spells (w ∷ [])) st (c ∷ xs)
      → Accepts (literal c w state_end_value (at s e false st)) xs
  unfolding literal fail Takes
  last_complete w s (_, last_letter h, r) = rw h r

  module _ (w v : ℕ) (ws : List ℕ) (next s : JsonScanState) where
    pub letter_sound :
        (Takes next st xs → Then (Spells (v ∷ ws)) st xs)
        → Into (Then (Spells (w ∷ v ∷ ws)) st (c ∷ xs)) xs (literal c w next (at s e false st))
    unfolding literal fail Takes
    letter_sound after =
        if_keeps (Into (Then (Spells (w ∷ v ∷ ws)) st (c ∷ xs)) xs) (not (c == w)) (λ _ t. absurd t)
          (λ h t. let u = after t in (u.0, letter (of_negation (c == w) h) u.1, u.2))

    pub letter_complete :
        (Then (Spells (v ∷ ws)) st xs → Takes next st xs)
        → Then (Spells (w ∷ v ∷ ws)) st (c ∷ xs)
        → Accepts (literal c w next (at s e false st)) xs
    unfolding literal fail
    letter_complete before (ys, letter h t, r) = rw h (before (ys, t, r))
