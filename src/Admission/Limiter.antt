-- ===== src/Admission/Limiter.antt =====
-- internal/admission/limiter.go. The map from client ids to counts reads 0 where a key is missing,
-- so deleting a key is writing 0. A lease releases once (`sync.Once`).
pub mod History
use vllm_priority_gateway.Base.{
  ℕ, ◌+◌, ◌-◌, Bool, true, false, Option, none, some, leb, ◌==◌, if◌then◌else◌, ℤ, pos, leb_ℤ,
  Counts, put_count, List, [], ◌∷◌, ◌++◌, get_elem?, set,
}

-- The `once` of a lease is `done`.
pub record Lease : Type 0 where
  pub client_id : ℕ
  pub done : Bool

unfoldable pub acquire : Counts → ℕ → ℤ → Counts × Option Lease
acquire inflight client_id limit =
    if leb_ℤ limit (pos 0)
    then (inflight, none)
    else if leb_ℤ limit (pos (inflight client_id))
    then (inflight, none)
    else (
      put_count inflight client_id (inflight client_id + 1),
      some (record { client_id = client_id; done = false }),
    )

-- The body that `Release` runs once: the remaining count, or no entry.
unfoldable pub release_once : Counts → ℕ → Counts
release_once inflight client_id =
    if leb (inflight client_id) 1
    then put_count inflight client_id 0
    else put_count inflight client_id (inflight client_id - 1)

unfoldable pub release : Counts → Lease → Counts × Lease
unfolding release_once
release inflight l =
    if l.done then (inflight, l) else (release_once inflight l.client_id, record l { done = true })
