-- ===== src/Coordination/Local/Ledger.antt =====
-- internal/coordination/local/admission.go, the part that keeps leases, receipts and counts. Maps
-- from ids to counts read 0 where a key is missing, so deleting an entry is writing 0. A receipt is
-- reached through its key, and the pointer in the map is written by `insert`.
pub mod Accounts
pub mod Upkeep
pub mod Deadlines
pub mod Retention
pub mod Eviction
use vllm_priority_gateway.Base.{
  ℕ, zero, suc, ◌+◌, ◌-◌, ◌*◌, Bool, true, false, ◌&&◌, ◌||◌, not, Option, none, some, List, [],
  ◌∷◌, ltb, leb, ◌==◌, if◌then◌else◌, length, ℤ, pos, Counts, put_count,
}
use vllm_priority_gateway.Base.Maps.{Map, lookup, insert, delete}
use vllm_priority_gateway.Domain.{PriorityClass, class_beq}
use vllm_priority_gateway.Coordination.Types.{
  AdmissionRequest, LeaseIdentity, AdmissionDecision, CompletionResult,
}
use vllm_priority_gateway.Coordination.Local.ExpiryQueue.{
  ExpiryQueue, ExpiryEntry, ExpiryKind, admission_lease, admission_receipt, add,
}

-- 24 hours in nanoseconds.
abbrev pub receipt_retention : ℕ
receipt_retention = 86400000000000

pub record AdmissionReceipt : Type 0 where
  pub fingerprint : ℕ
  pub decision : AdmissionDecision
  pub completed : Bool
  pub completion : Option CompletionResult
  pub request : AdmissionRequest
  pub expired : Bool
  pub retain_until : ℕ

-- The fields of `AdmissionCoordinator` but for rates and policies.
pub record Ledger : Type 0 where
  pub receipts : Map AdmissionReceipt
  pub leases : Map LeaseIdentity
  pub expiries : ExpiryQueue
  pub terminal_expiries : ExpiryQueue
  pub client_inflight : Counts
  pub pool_inflight : Counts
  pub pool_lower_inflight : Counts
  pub receipt_capacity : ℕ

unfoldable pub new_ledger : ℕ → Ledger
new_ledger capacity = record {
  receipts = [];
  leases = [];
  expiries = [];
  terminal_expiries = [];
  client_inflight = λ k. 0;
  pool_inflight = λ k. 0;
  pool_lower_inflight = λ k. 0;
  receipt_capacity = capacity;
}

-- Neither high nor critical.
abbrev pub is_lower : PriorityClass → Bool
is_lower class =
    not (class_beq class PriorityClass.high) && not (class_beq class PriorityClass.critical)

-- The class under which the lease of a receipt counts. The source dereferences the receipt, which
-- stands behind every lease; a missing one counts for no class here.
abbrev pub lower_receipt : Option AdmissionReceipt → Bool
lower_receipt none = false
lower_receipt (some r) = is_lower r.request.priority_class

abbrev pub decrement : Counts → ℕ → Counts
decrement m k = if leb (m k) 1 then put_count m k 0 else put_count m k (m k - 1)

abbrev pub increment : Counts → ℕ → Counts
increment m k = put_count m k (m k + 1)

abbrev drop_lease : ℕ → LeaseIdentity → Ledger → Ledger
drop_lease id lease l = record l {
  leases = delete id l.leases;
  pool_lower_inflight =
      if lower_receipt (lookup id l.receipts)
      then decrement l.pool_lower_inflight lease.pool_id
      else l.pool_lower_inflight;
  client_inflight = decrement l.client_inflight lease.client_id;
  pool_inflight = decrement l.pool_inflight lease.pool_id;
}

unfoldable pub remove_lease : ℕ → Ledger → Ledger
remove_lease id l = elim (lookup id l.leases) [ none ↦ l | some lease ↦ drop_lease id lease l ]

unfoldable pub retention_boundary : ℕ → ℕ → ℕ
retention_boundary operation_started terminal =
    (if ltb terminal operation_started then operation_started else terminal) + receipt_retention

-- A receipt becomes terminal: it is kept until the boundary, and queued to be dropped then.
unfoldable pub retire : ℕ → AdmissionReceipt → ℕ → Ledger → Ledger
unfolding retention_boundary
retire id r now l =
    let boundary = retention_boundary r.request.operation_started_at now in
    record l {
      receipts = insert id (record r { retain_until = boundary }) l.receipts;
      terminal_expiries = add admission_receipt id boundary l.terminal_expiries;
    }

abbrev pub mark_expired : ℕ → ℕ → Ledger → Ledger
unfolding retire
mark_expired now id l = elim (lookup id l.receipts) [
  | none ↦ l
  | some r ↦ if r.completed then l else retire id (record r { expired = true }) now l
]

-- The case `admissionLeaseExpiry` of the first loop of `expire`, for an entry that is due.
unfoldable pub expire_lease : ℕ → ExpiryEntry → Ledger → Ledger
unfolding remove_lease mark_expired
expire_lease now e l = elim (lookup e.id l.leases) [
  | none ↦ l
  | some lease ↦
      if not (lease.expires_at == e.at) || ltb now lease.expires_at
      then l
      else mark_expired now e.id (remove_lease e.id l)
]

unfoldable pub expire_entry : ℕ → ExpiryEntry → Ledger → Ledger
unfolding expire_lease
expire_entry now e l = elim e.kind [ admission_lease ↦ expire_lease now e l | _ ↦ l ]

-- The first loop: every entry that is due is popped.
unfoldable pub expire_leases : ℕ → ExpiryQueue → Ledger → Ledger
expire_leases now [] l = record l { expiries = [] }
expire_leases now (e ∷ q) l =
    if ltb now e.at
    then record l { expiries = e ∷ q }
    else expire_leases now q (expire_entry now e l)

abbrev pub is_retained_until : Option AdmissionReceipt → ℕ → Bool
is_retained_until none at = false
is_retained_until (some r) at = r.retain_until == at

abbrev pub expire_receipt : ℕ → ExpiryEntry → Ledger → Ledger
expire_receipt now e l =
    if is_retained_until (lookup e.id l.receipts) e.at && not (ltb now e.at)
    then record l { receipts = delete e.id l.receipts }
    else l

-- The second loop, over the terminal receipts.
unfoldable pub expire_receipts : ℕ → ExpiryQueue → Ledger → Ledger
expire_receipts now [] l = record l { terminal_expiries = [] }
expire_receipts now (e ∷ q) l =
    if ltb now e.at
    then record l { terminal_expiries = e ∷ q }
    else expire_receipts now q (expire_receipt now e l)

unfoldable pub expire : ℕ → Ledger → Ledger
unfolding expire_leases expire_receipts
expire now l =
    let l' = expire_leases now l.expiries l in expire_receipts now l'.terminal_expiries l'

-- The entry at the head stands for a terminal receipt.
abbrev is_terminal_head : Option AdmissionReceipt → ℕ → Bool
is_terminal_head none at = false
is_terminal_head (some r) at = not (r.retain_until == 0) && (r.retain_until == at)

-- The queue that is left, and whether its head stands for a terminal receipt.
unfoldable pub drop_stale : Map AdmissionReceipt → ExpiryQueue → ExpiryQueue × Bool
drop_stale receipts [] = ([], false)
drop_stale receipts (e ∷ q) =
    if is_terminal_head (lookup e.id receipts) e.at then (e ∷ q, true) else drop_stale receipts q

unfoldable pub has_terminal_receipt : Ledger → Ledger × Bool
unfolding drop_stale
has_terminal_receipt l =
    let (q, found) = drop_stale l.receipts l.terminal_expiries in
    (record l { terminal_expiries = q }, found)

abbrev pub evict_head : ExpiryQueue → Ledger → Ledger
evict_head [] l = l
evict_head (e ∷ q) l = record l { terminal_expiries = q; receipts = delete e.id l.receipts }

abbrev pub is_full : Ledger → Bool
is_full l = leb l.receipt_capacity (length l.receipts)

-- Each round pops an entry at least; `make_receipt_room` gives one round for each and one more.
unfoldable pub make_room_loop : ℕ → Ledger → Ledger × Bool
unfolding has_terminal_receipt
make_room_loop zero l = (l, false)
make_room_loop (suc fuel) l =
    let (l', found) = has_terminal_receipt l in
    let rest = make_room_loop fuel (evict_head l'.terminal_expiries l') in
    if is_full l then (if found then rest else (l', false)) else (l, true)

unfoldable pub make_receipt_room : Ledger → Ledger × Bool
unfolding make_room_loop
make_receipt_room l = make_room_loop (suc (length l.terminal_expiries)) l
