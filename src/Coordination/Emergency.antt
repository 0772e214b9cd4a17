-- ===== src/Coordination/Emergency.antt =====
-- internal/coordination/emergency.go: admission during an outage, bounded by class and by client.
-- The maps read 0 where a key is missing; classes are keyed by their codes.
pub mod History
use vllm_priority_gateway.Base.{
  ℕ, ◌+◌, ◌-◌, Bool, true, false, ◌&&◌, ◌||◌, Option, none, some, ltb, leb, ◌==◌, if◌then◌else◌, ℤ,
  pos, leb_ℤ, ltb_ℤ, Counts, put_count, is_none, not, ◌≡◌, arith,
}
use vllm_priority_gateway.Domain.{PriorityClass, class_code}

pub record EmergencyAdmission : Type 0 where
  pub critical : ℤ
  pub high : ℤ
  pub by_class : Counts
  pub by_client : Counts

unfoldable pub new_emergency_admission : ℤ → ℤ → EmergencyAdmission
new_emergency_admission critical high = record {
  critical = critical;
  high = high;
  by_class = λ k. 0;
  by_client = λ k. 0;
}

-- The `switch` on the class; `none` is its default, which refuses.
abbrev pub class_cap : EmergencyAdmission → PriorityClass → Option ℤ
class_cap e PriorityClass.critical = some e.critical
class_cap e PriorityClass.high = some e.high
class_cap e _ = none

-- What the returned function captures, with its `once`.
pub record Hold : Type 0 where
  pub class : PriorityClass
  pub client_id : ℕ
  pub done : Bool

abbrev admit : EmergencyAdmission → PriorityClass → ℕ → EmergencyAdmission
admit e class client = record e {
  by_class = put_count e.by_class (class_code class) (e.by_class (class_code class) + 1);
  by_client = put_count e.by_client client (e.by_client client + 1);
}

abbrev acquire_under :
    Option ℤ → EmergencyAdmission → PriorityClass → ℕ → ℤ → EmergencyAdmission × Option Hold
acquire_under none e class client limit = (e, none)
acquire_under (some cap) e class client limit =
    if leb_ℤ cap (pos 0)
    then (e, none)
    else if leb_ℤ cap (pos (e.by_class (class_code class)))
        || leb_ℤ limit (pos (e.by_client client))
    then (e, none)
    else (admit e class client, some (record { class = class; client_id = client; done = false }))

unfoldable pub acquire :
    EmergencyAdmission → PriorityClass → ℕ → ℤ → EmergencyAdmission × Option Hold
acquire e class client limit =
    if leb_ℤ limit (pos 0)
    then (e, none)
    else acquire_under (class_cap e class) e class client limit

-- The body of the returned function. The counts are Go `int`s; that they are positive here is a
-- theorem of `History`.
unfoldable pub give_back : EmergencyAdmission → Hold → EmergencyAdmission × Hold
give_back e h = if h.done then (e, h) else (
  record e {
    by_class = put_count e.by_class (class_code h.class) (e.by_class (class_code h.class) - 1);
    by_client = put_count e.by_client h.client_id (e.by_client h.client_id - 1);
  },
  record h { done = true },
)

abbrev serves_under : Option ℤ → EmergencyAdmission → PriorityClass → ℕ → ℤ → Bool
serves_under none e class client limit = false
serves_under (some cap) e class client limit =
    ltb_ℤ (pos 0) cap
    && (ltb_ℤ (pos (e.by_class (class_code class))) cap && ltb_ℤ (pos (e.by_client client)) limit)

unfoldable pub can_serve : EmergencyAdmission → PriorityClass → ℕ → ℤ → Bool
can_serve e class client limit =
    if leb_ℤ limit (pos 0) then false else serves_under (class_cap e class) e class client limit

-- `CanServe` says yes exactly when `Acquire` in the same state would admit the request.
pub can_serve-acquire :
    (e : EmergencyAdmission) (class : PriorityClass) (client : ℕ) (limit : ℤ)
    → can_serve e class client limit ≡ not (is_none (acquire e class client limit).1)
unfolding can_serve acquire
can_serve-acquire e class client limit = ground arith
