-- ===== src/Domain.antt =====
-- internal/domain/types.go: the enumerations and configuration records of the
-- gateway. A Go string type with named constants
-- is a data type with a constructor for each constant and, where the code tests for it, one for the
-- empty and one for any other text.
use vllm_priority_gateway.Base.{Option, ℤ, ℕ, ◌+◌, Bool, true, false, ◌==◌}

pub data CircuitState : Type 0 where
  closed opened half_open : CircuitState

pub data InferenceOutcome : Type 0 where
  success failure neutral : InferenceOutcome

-- `unset` is the empty text, and `other` any text that is not a constant.
pub data PriorityClass : Type 0 where
  critical high normal background unset : PriorityClass
  other : ℕ → PriorityClass

pub data PoolState : Type 0 where
  normal busy saturated emergency unavailable : PoolState

unfoldable pub valid : PriorityClass → Bool
valid PriorityClass.critical = true
valid PriorityClass.high = true
valid PriorityClass.normal = true
valid PriorityClass.background = true
valid _ = false

-- Equality of two classes, and of two pool states, by their codes.
abbrev pub class_code : PriorityClass → ℕ
class_code PriorityClass.critical = 0
class_code PriorityClass.high = 1
class_code PriorityClass.normal = 2
class_code PriorityClass.background = 3
class_code PriorityClass.unset = 4
class_code (PriorityClass.other n) = 5 + n

abbrev pub class_beq : PriorityClass → PriorityClass → Bool
class_beq a b = class_code a == class_code b

abbrev pub state_code : PoolState → ℕ
state_code PoolState.normal = 0
state_code PoolState.busy = 1
state_code PoolState.saturated = 2
state_code PoolState.emergency = 3
state_code PoolState.unavailable = 4

abbrev pub state_beq : PoolState → PoolState → Bool
state_beq a b = state_code a == state_code b

-- The records of the configuration. Texts, hashes and the `float64`s that are only passed on are
-- numbers; a nil `*time.Time` is `none`.
pub record Client : Type 0 where
  pub id : ℕ
  pub revision : ℤ
  pub name : ℕ
  pub enabled : Bool
  pub priority_class : PriorityClass
  pub vllm_priority : ℤ
  pub max_concurrency : ℤ
  pub requests_per_minute : ℤ
  pub tokens_per_minute : ℤ
  pub created_at : ℕ
  pub updated_at : ℕ

pub record ApiKey : Type 0 where
  pub id : ℕ
  pub client_id : ℕ
  pub prefix : ℕ
  pub secret_hash : ℕ
  pub created_at : ℕ
  pub expires_at : Option ℕ
  pub revoked_at : Option ℕ
  pub last_used_at : Option ℕ

pub record ClientModelAccess : Type 0 where
  pub client_id : ℕ
  pub model_pool_id : ℕ
  pub enabled : Bool

pub record ModelPool : Type 0 where
  pub id : ℕ
  pub revision : ℤ
  pub public_model_name : ℕ
  pub upstream_model_name : ℕ
  pub enabled : Bool
  pub max_gateway_inflight : ℤ
  pub high_priority_reserve : ℤ
  pub max_waiting : ℤ
  pub created_at : ℕ
  pub updated_at : ℕ

pub record Backend : Type 0 where
  pub id : ℕ
  pub revision : ℤ
  pub model_pool_id : ℕ
  pub name : ℕ
  pub base_url : ℕ
  pub enabled : Bool
  pub draining : Bool
  pub capacity_hint : ℕ
  pub running_soft_limit : ℕ
  pub upstream_api_key_env : ℕ
  pub created_at : ℕ
  pub updated_at : ℕ
