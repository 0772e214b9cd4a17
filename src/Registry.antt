-- ===== src/Registry.antt =====
-- internal/registry/registry.go: the published snapshot of the configuration. Every publication
-- holds the `publication` lock, so that its compare-and-swap succeeds at once and an operation is a
-- function from the current snapshot to the next. A Go map is a `Map`.
pub mod Index
pub mod Deletion
pub mod Merge
pub mod Revocation
pub mod RevisionGuard
use vllm_priority_gateway.Base.{
  ℕ, Bool, true, false, ◌&&◌, ◌||◌, not, Option, none, some, List, [], ◌∷◌, ◌++◌, ltb, ◌==◌,
  if◌then◌else◌, length, keep, ℤ, pos, negsuc, leb_ℤ, is_none,
}
use vllm_priority_gateway.Base.Maps.{Map, lookup, insert, delete}
use vllm_priority_gateway.Domain.{Client, ApiKey, ClientModelAccess, ModelPool, Backend}

pub record Data : Type 0 where
  pub revision : ℤ
  pub clients : List Client
  pub keys : List ApiKey
  pub pools : List ModelPool
  pub access : List ClientModelAccess
  pub backends : List Backend

pub record Snapshot : Type 0 where
  pub revision : ℤ
  pub clients : Map Client
  pub key_candidates : Map (List ApiKey)
  pub pools_by_id : Map ModelPool
  pub pools_by_name : Map ModelPool
  pub access : Map (Map Bool)
  pub backends_by_id : Map Backend
  pub backends_by_pool : Map (List Backend)

abbrev pub empty_snapshot : ℤ → Snapshot
empty_snapshot revision = record {
  revision = revision;
  clients = [];
  key_candidates = [];
  pools_by_id = [];
  pools_by_name = [];
  access = [];
  backends_by_id = [];
  backends_by_pool = [];
}

-- `New` publishes an empty snapshot of revision -1.
unfoldable pub new : Snapshot
new = empty_snapshot (negsuc 0)

pub data IndexError : Type 0 where
  duplicate_client duplicate_pool duplicate_name duplicate_backend : ℕ → IndexError
  key_without_client access_without_client access_without_pool : ℕ → IndexError
  backend_without_pool : ℕ → IndexError

pub data IndexResult : Type 0 where
  indexed : Snapshot → IndexResult
  refused : IndexError → IndexResult

abbrev pub and_then : IndexResult → (Snapshot → IndexResult) → IndexResult
and_then (indexed s) f = f s
and_then (refused e) f = refused e

abbrev pub exists_in : {A : Type 0} → ℕ → Map A → Bool
exists_in k m = not (is_none (lookup k m))

-- Indexing a nil slice, or a missing entry, of a map of slices.
abbrev pub list_at : {A : Type 0} → ℕ → Map (List A) → List A
list_at k m = elim (lookup k m) [ none ↦ [] | some xs ↦ xs ]

abbrev pub access_of : Option (Map Bool) → Map Bool
access_of none = []
access_of (some m) = m

unfoldable pub add_clients : List Client → Snapshot → IndexResult
add_clients [] s = indexed s
add_clients (c ∷ cs) s =
    let rest = add_clients cs (record s { clients = insert c.id c s.clients }) in
    if exists_in c.id s.clients then refused (duplicate_client c.id) else rest

unfoldable pub add_pools : List ModelPool → Snapshot → IndexResult
add_pools [] s = indexed s
add_pools (p ∷ ps) s =
    let rest = add_pools ps (record s {
      pools_by_id = insert p.id p s.pools_by_id;
      pools_by_name = insert p.public_model_name p s.pools_by_name;
    }) in
    if exists_in p.id s.pools_by_id
    then refused (duplicate_pool p.id)
    else if exists_in p.public_model_name s.pools_by_name
    then refused (duplicate_name p.public_model_name)
    else rest

unfoldable pub add_keys : List ApiKey → Snapshot → IndexResult
add_keys [] s = indexed s
add_keys (k ∷ ks) s =
    let rest = add_keys ks (record s {
      key_candidates =
          insert k.prefix (list_at k.prefix s.key_candidates ++ k ∷ []) s.key_candidates;
    }) in
    if exists_in k.client_id s.clients then rest else refused (key_without_client k.id)

unfoldable pub add_access : List ClientModelAccess → Snapshot → IndexResult
add_access [] s = indexed s
add_access (a ∷ more) s =
    let rest = add_access more (record s {
      access =
          insert a.client_id
            (insert a.model_pool_id a.enabled (access_of (lookup a.client_id s.access))) s.access;
    }) in
    if not (exists_in a.client_id s.clients)
    then refused (access_without_client a.client_id)
    else if exists_in a.model_pool_id s.pools_by_id
    then rest
    else refused (access_without_pool a.model_pool_id)

abbrev pub add_backend : Backend → Snapshot → Snapshot
add_backend b s = record s {
  backends_by_id = insert b.id b s.backends_by_id;
  backends_by_pool =
      insert b.model_pool_id (list_at b.model_pool_id s.backends_by_pool ++ b ∷ [])
        s.backends_by_pool;
}

unfoldable pub add_backends : List Backend → Snapshot → IndexResult
add_backends [] s = indexed s
add_backends (b ∷ bs) s =
    let rest = add_backends bs (add_backend b s) in
    if not (exists_in b.model_pool_id s.pools_by_id)
    then refused (backend_without_pool b.id)
    else if exists_in b.id s.backends_by_id
    then refused (duplicate_backend b.id)
    else rest

unfoldable pub index_data : Data → IndexResult
unfolding add_clients add_pools add_keys add_access add_backends
index_data d = and_then (add_clients d.clients (empty_snapshot d.revision)) (λ s1.
    and_then (add_pools d.pools s1) (λ s2.
      and_then (add_keys d.keys s2)
        (λ s3. and_then (add_access d.access s3) (λ s4. add_backends d.backends s4))))

-- The keys of the current snapshot by their ids; of two with one id the later one stays.
unfoldable pub index_keys : List ApiKey → Map ApiKey → Map ApiKey
index_keys [] m = m
index_keys (k ∷ ks) m = index_keys ks (insert k.id k m)

unfoldable pub index_candidates : Map (List ApiKey) → Map ApiKey → Map ApiKey
unfolding index_keys
index_candidates [] m = m
index_candidates ((prefix, ks) ∷ rest) m = index_candidates rest (index_keys ks m)

-- `a` is nil or earlier than `b`, and `b` is not nil.
abbrev later_than : Option ℕ → Option ℕ → Bool
later_than none b = false
later_than (some t) none = true
later_than (some t) (some u) = ltb u t

abbrev pub merge_state : Option ApiKey → ApiKey → ApiKey
merge_state none k = k
merge_state (some state) k = record k {
  revoked_at = if is_none k.revoked_at then state.revoked_at else k.revoked_at;
  last_used_at =
      if later_than state.last_used_at k.last_used_at then state.last_used_at else k.last_used_at;
}

unfoldable pub merge_keys : Map ApiKey → List ApiKey → List ApiKey
merge_keys states [] = []
merge_keys states (k ∷ ks) = merge_state (lookup k.id states) k ∷ merge_keys states ks

unfoldable pub merge_candidates : Map ApiKey → Map (List ApiKey) → Map (List ApiKey)
unfolding merge_keys
merge_candidates states [] = []
merge_candidates states ((prefix, ks) ∷ rest) =
    (prefix, merge_keys states ks) ∷ merge_candidates states rest

unfoldable pub merge_key_runtime_state : Snapshot → Snapshot → Snapshot
unfolding merge_candidates index_candidates
merge_key_runtime_state candidate current = record candidate {
  key_candidates =
      merge_candidates (index_candidates current.key_candidates []) candidate.key_candidates;
}

abbrev pub publish : IndexResult → Snapshot → Snapshot × Bool
unfolding merge_key_runtime_state
publish (refused e) current = (current, false)
publish (indexed s) current =
    if leb_ℤ s.revision current.revision
    then (current, true)
    else (merge_key_runtime_state s current, true)

-- `Reload`, with what the loader returned (`none` for an error), and whether it ends without error.
unfoldable pub reload : Option Data → Snapshot → Snapshot × Bool
unfolding index_data publish
reload none current = (current, false)
reload (some d) current = publish (index_data d) current

abbrev pub without : ℕ → List Backend → List Backend
without id bs = keep (λ b. not (b.id == id)) bs

unfoldable pub delete_in_pools : ℕ → ℕ → Map (List Backend) → Map (List Backend)
delete_in_pools id pool [] = []
delete_in_pools id pool ((p, bs) ∷ m) =
    let rest = delete_in_pools id pool m in
    if ltb 0 (length (without id bs)) || not (p == pool) then (p, without id bs) ∷ rest else rest

unfoldable pub mark_backend_deleted : ℕ → Snapshot → Snapshot × Bool
unfolding delete_in_pools
mark_backend_deleted id s = elim (lookup id s.backends_by_id) [
  | none ↦ (s, false)
  | some b ↦ (
    record s {
      backends_by_id = delete id s.backends_by_id;
      backends_by_pool = delete_in_pools id b.model_pool_id s.backends_by_pool;
    },
    true,
  )
]

unfoldable pub update_keys : ℕ → (ApiKey → ApiKey) → List ApiKey → List ApiKey
update_keys id f [] = []
update_keys id f (k ∷ ks) = (if k.id == id then f k else k) ∷ update_keys id f ks

unfoldable pub update_candidates : ℕ → (ApiKey → ApiKey) → Map (List ApiKey) → Map (List ApiKey)
unfolding update_keys
update_candidates id f [] = []
update_candidates id f ((prefix, ks) ∷ rest) =
    (prefix, update_keys id f ks) ∷ update_candidates id f rest

abbrev pub has_key : ℕ → List ApiKey → Bool
has_key id [] = false
has_key id (k ∷ ks) = (k.id == id) || has_key id ks

abbrev pub has_candidate : ℕ → Map (List ApiKey) → Bool
has_candidate id [] = false
has_candidate id ((prefix, ks) ∷ rest) = has_key id ks || has_candidate id rest

unfoldable pub update_key : ℕ → (ApiKey → ApiKey) → Snapshot → Snapshot × Bool
unfolding update_candidates
update_key id f s =
    if has_candidate id s.key_candidates
    then (record s { key_candidates = update_candidates id f s.key_candidates }, true)
    else (s, false)

unfoldable pub mark_key_revoked : ℕ → ℕ → Snapshot → Snapshot × Bool
unfolding update_key
mark_key_revoked id at s = update_key id (λ k. record k { revoked_at = some at }) s

unfoldable pub mark_key_used : ℕ → ℕ → Snapshot → Snapshot × Bool
unfolding update_key
mark_key_used id at s = update_key id (λ k. record k { last_used_at = some at }) s
