-- ===== src/Examples/Configuration.antt =====
-- A configuration of one client, one pool and two backends (internal/registry).
use vllm_priority_gateway.Base.{
  ◌≡◌, ◌⊎◌, refl, true, false, List, [], ◌∷◌, none, some, ℤ, pos, ◌≤ℤ◌, arith, All, keep, ◌==◌,
  if◌then◌else◌, ℕ,
}
use vllm_priority_gateway.Base.Maps.{lookup, insert}
use vllm_priority_gateway.Domain.{PriorityClass, Client, ApiKey, ModelPool, Backend}
use vllm_priority_gateway.Registry.{
  Data, Snapshot, indexed, list_at, without, index_data, mark_backend_deleted, mark_key_revoked,
  reload, merge_key_runtime_state, mark_key_used, update_key,
}
use vllm_priority_gateway.Registry.Index.{of_pool, Placed, index_data_backends}
use vllm_priority_gateway.Registry.Deletion.{mark_backend_deleted_everywhere}
use vllm_priority_gateway.Registry.Merge.{AllRevoked}
use vllm_priority_gateway.Registry.Revocation.{
  Publication, reloads, deletes, uses, step, run, revocation_stays, run_revision,
}
use vllm_priority_gateway.Registry.RevisionGuard.{
  RevisionGuard, GuardCall, observes, verifies, new_guard, verify_fresh, verify_fresh_faults,
}
use vllm_priority_gateway.Registry.RevisionGuard

abbrev client : Client
client = record {
  id = 3;
  revision = pos 1;
  name = 0;
  enabled = true;
  priority_class = PriorityClass.normal;
  vllm_priority = pos 0;
  max_concurrency = pos 2;
  requests_per_minute = pos 0;
  tokens_per_minute = pos 0;
  created_at = 1;
  updated_at = 1;
}

abbrev key : ApiKey
key = record {
  id = 7;
  client_id = 3;
  prefix = 20;
  secret_hash = 0;
  created_at = 1;
  expires_at = none;
  revoked_at = none;
  last_used_at = none;
}

abbrev pool : ModelPool
pool = record {
  id = 4;
  revision = pos 1;
  public_model_name = 30;
  upstream_model_name = 31;
  enabled = true;
  max_gateway_inflight = pos 8;
  high_priority_reserve = pos 0;
  max_waiting = pos 0;
  created_at = 1;
  updated_at = 1;
}

abbrev backend : ℕ → Backend
backend id = record {
  id = id;
  revision = pos 1;
  model_pool_id = 4;
  name = 0;
  base_url = 0;
  enabled = true;
  draining = false;
  capacity_hint = 0;
  running_soft_limit = 0;
  upstream_api_key_env = 0;
  created_at = 1;
  updated_at = 1;
}

abbrev loaded : ℤ → Data
loaded revision = record {
  revision = revision;
  clients = client ∷ [];
  keys = key ∷ [];
  pools = pool ∷ [];
  access = [];
  backends = backend 1 ∷ backend 2 ∷ [];
}

abbrev published : Snapshot
published = record {
  revision = pos 5;
  clients = (3, client) ∷ [];
  key_candidates = (20, key ∷ []) ∷ [];
  pools_by_id = (4, pool) ∷ [];
  pools_by_name = (30, pool) ∷ [];
  access = [];
  backends_by_id = (1, backend 1) ∷ (2, backend 2) ∷ [];
  backends_by_pool = (4, backend 1 ∷ backend 2 ∷ []) ∷ [];
}

loaded_data : index_data (loaded (pos 5)) ≡ indexed published
unfolding index_data lookup insert
loaded_data = refl

index_data_backends_example :
    (pos 5 ≡ pos 5)
    × (list_at 4 published.backends_by_pool ≡ keep (of_pool 4) (backend 1 ∷ backend 2 ∷ []))
    × All (Placed published) (backend 1 ∷ backend 2 ∷ [])
index_data_backends_example = index_data_backends (loaded (pos 5)) published 4 loaded_data

mark_backend_deleted_everywhere_example :
    let r = mark_backend_deleted 1 published in
    ((lookup 1 published.backends_by_id ≡ none) × (r ≡ (published, false)))
    ⊎ ((r.1 ≡ true)
        × (lookup 2 r.0.backends_by_id
            ≡ (if 1 == 2 then none else lookup 2 published.backends_by_id))
        × (list_at 4 r.0.backends_by_pool ≡ without 1 (list_at 4 published.backends_by_pool)))
unfolding lookup
mark_backend_deleted_everywhere_example = mark_backend_deleted_everywhere 1 published 2 4 (refl, tt)

-- A reload of newer data, read before the revocation, a use of the key, and a deletion.
abbrev publications : List Publication
publications = reloads (some (loaded (pos 6))) ∷ uses 7 90 ∷ deletes 1 ∷ []

key_found : (mark_key_revoked 7 80 published).1 ≡ true
unfolding mark_key_revoked
key_found = refl

revocation_stays_example :
    AllRevoked 7 (run (mark_key_revoked 7 80 published).0 publications).key_candidates
unfolding mark_key_revoked step index_data lookup insert reload merge_key_runtime_state
    mark_key_used update_key
revocation_stays_example =
    revocation_stays 7 80 published publications key_found (refl, (refl, (refl, tt)))

run_revision_example : pos 5 ≤ℤ (run published publications).revision
run_revision_example = run_revision published publications

abbrev guard_calls : List GuardCall
guard_calls = observes (pos 9) ∷ verifies (pos 9) (pos 9) ∷ []

verify_fresh_faults_example :
    let first = verify_fresh (pos 5) (pos 4) new_guard in
    let later = RevisionGuard.run first.0 guard_calls in
    (first.1 ≡ false) × ((verify_fresh (pos 9) (pos 10) later).1 ≡ false) × (pos 0 ≤ℤ later.highest)
verify_fresh_faults_example =
    verify_fresh_faults new_guard (pos 5) (pos 4) guard_calls (pos 9) (pos 10) (omega arith)
