-- ===== src/Coordination/Local/Rates.antt =====
-- The token buckets of internal/coordination/local/admission.go and internal/coordination/rate.go.
-- Balances are `float64`s, through the interface `Float`.
use vllm_priority_gateway.Base.{
  ℕ, ◌+◌, ◌/◌, ◌%◌, Bool, true, false, ◌&&◌, ◌||◌, not, Option, none, some, ◌==◌, if◌then◌else◌, ℤ,
  pos, negsuc, suc, sub_ℕ, ltb_ℤ, eqb_ℤ, add_time,
}
use vllm_priority_gateway.Base.Float.{Float, ltf, lef}
use vllm_priority_gateway.Coordination.Types.{AdmissionRequest}

pub record RateState (F : Type 0) : Type 0 where
  pub revision : ℤ
  pub capacity : ℤ
  pub balance : F
  pub at : ℕ

pub record RatePolicy : Type 0 where
  pub revision : ℤ
  pub rpm : ℤ
  pub tpm : ℤ

pub data RateKind : Type 0 where
  tpm rpm : RateKind

abbrev kind_beq : RateKind → RateKind → Bool
kind_beq tpm tpm = true
kind_beq rpm rpm = true
kind_beq _ _ = false

-- `map[int64]map[string]*rateState`
abbrev pub Rates : Type 0 → Type 0
Rates F = ℕ → RateKind → Option (RateState F)

abbrev pub set_rate : {F : Type 0} → Rates F → ℕ → RateKind → RateState F → Rates F
set_rate m client kind s c k = if c == client && kind_beq k kind then some s else m c k

abbrev pub Policies : Type 0
Policies = ℕ → Option RatePolicy

-- `observeClientRatePolicy`: the policies after it, and the one in force.
abbrev keep_policy : Option RatePolicy → RatePolicy → RatePolicy
keep_policy none candidate = candidate
keep_policy (some p) candidate = if ltb_ℤ p.revision candidate.revision then candidate else p

unfoldable pub observe_client_rate_policy : Policies → ℕ → RatePolicy → Policies × RatePolicy
observe_client_rate_policy m client candidate =
    let p = keep_policy (m client) candidate in ((λ c. if c == client then some p else m c), p)

abbrev pub requested_policy : AdmissionRequest → RatePolicy
requested_policy r = record {
  revision = r.client_policy_revision;
  rpm = r.requests_per_minute;
  tpm = r.tokens_per_minute;
}

module _ {F : Type 0} ⦃fl : Float F⦄ where
  -- `Duration.Seconds`, whose parts have the sign of the duration.
  unfoldable pub seconds : ℤ → F
  seconds (pos n) =
      fl.add (fl.of_int (pos (n / 1000000000)))
        (fl.div (fl.of_int (pos (n % 1000000000))) (fl.of_int (pos 1000000000)))
  seconds (negsuc n) =
      let m = suc n in
      fl.add (fl.of_int (sub_ℕ 0 (m / 1000000000)))
        (fl.div (fl.of_int (sub_ℕ 0 (m % 1000000000))) (fl.of_int (pos 1000000000)))

  abbrev fresh_rate : ℤ → ℤ → ℕ → RateState F
  fresh_rate revision capacity now = record {
    revision = revision;
    capacity = capacity;
    balance = fl.of_int capacity;
    at = now;
  }

  abbrev refilled : RateState F → F → F → F
  refilled s elapsed capacity =
      let b = fl.add s.balance (fl.div (fl.mul elapsed capacity) (fl.of_int (pos 60))) in
      if ltf capacity b then capacity else b

  abbrev advance : RateState F → ℕ → RateState F
  unfolding seconds
  advance s now =
      let elapsed = seconds (sub_ℕ now s.at) in
      if ltf (fl.of_int (pos 0)) elapsed
      then record s { balance = refilled s elapsed (fl.of_int s.capacity); at = now }
      else s

  abbrev current_rate : Option (RateState F) → ℤ → ℤ → ℕ → RateState F
  unfolding advance
  current_rate none revision capacity now = fresh_rate revision capacity now
  current_rate (some s) revision capacity now =
      if not (eqb_ℤ s.revision revision) || not (eqb_ℤ s.capacity capacity)
      then fresh_rate revision capacity now
      else advance s now

  -- `normalized`: the bucket brought up to `now`; the caller may write it back changed.
  unfoldable pub normalized : Rates F → ℕ → RateKind → ℤ → ℤ → ℕ → Rates F × RateState F
  unfolding current_rate
  normalized m client kind revision capacity now =
      let s = current_rate (m client kind) revision capacity now in (set_rate m client kind s, s)

  -- internal/coordination/rate.go: 2^63 - 1 nanoseconds at most.
  unfoldable pub rate_retry_at : F → ℤ → ℕ → ℕ
  rate_retry_at balance capacity now =
      let delay =
        fl.mul (fl.div (fl.sub (fl.of_int (pos 1)) balance) (fl.of_int capacity))
          (fl.of_int (pos 60000000000)) in
      if lef (fl.of_int (pos 9223372036854775807)) delay
      then now + 9223372036854775807
      else add_time now (fl.to_int delay)
