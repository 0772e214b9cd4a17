-- ===== src/Registry/Index.antt =====
-- What the index of loaded data holds (`indexData`, internal/registry/registry.go).
use mathlib.Core.List.{append-nil, append_assoc}
use vllm_priority_gateway.Base.{
  ℕ, ◌≡◌, refl, sym, ap, subst, ◌∙◌, Bool, true, false, not, Option, none, some, List, [], ◌∷◌,
  ◌++◌, arith, ◌==◌, if◌then◌else◌, keep, All, if_keeps,
}
use vllm_priority_gateway.Base.Maps.{Map, lookup, insert, lookup-insert}
use vllm_priority_gateway.Domain.{Client, ApiKey, ClientModelAccess, ModelPool, Backend}
use vllm_priority_gateway.Registry.{
  Data, Snapshot, IndexResult, indexed, refused, and_then, empty_snapshot, exists_in, list_at,
  access_of, add_clients, add_pools, add_keys, add_access, add_backend, add_backends, index_data,
}

abbrev pub of_pool : ℕ → Backend → Bool
of_pool p b = b.model_pool_id == p

-- A backend is found by its id, and its pool exists.
abbrev pub Placed : Snapshot → Backend → Type 0
Placed s b =
    (lookup b.id s.backends_by_id ≡ some b) × (exists_in b.model_pool_id s.pools_by_id ≡ true)

record BackendsAdded (bs : List Backend) (s r : Snapshot) : Type 0 where
  pools : r.pools_by_id ≡ s.pools_by_id
  revision : r.revision ≡ s.revision
  lists :
      (p : ℕ) → list_at p r.backends_by_pool ≡ list_at p s.backends_by_pool ++ keep (of_pool p) bs
  kept :
      (id : ℕ) (b : Backend)
      → lookup id s.backends_by_id ≡ some b
      → lookup id r.backends_by_id ≡ some b
  placed : All (Placed r) bs

-- Holds of what a result carries.
abbrev OnIndexed : (Snapshot → Type 0) → IndexResult → Type 0
OnIndexed P (indexed r) = P r
OnIndexed P (refused e) = Unit

list_at-insert :
    (q p : ℕ) (xs : List Backend) (m : Map (List Backend))
    → list_at p (insert q xs m) ≡ (if q == p then xs else list_at p m)
list_at-insert q p xs m =
    ap (λ (o : Option (List Backend)). elim o [ none ↦ [] | some ys ↦ ys ]) (lookup-insert q p xs m)
    ∙ (if_keeps
        (λ (o : Option (List Backend)).
          elim o [ none ↦ [] | some ys ↦ ys ] ≡ (if q == p then xs else list_at p m))
        (q == p) {x = some xs} {y = lookup p m} (λ t. rw t refl) (λ t. rw t refl))

add_backend_lists :
    (b : Backend) (s : Snapshot) (p : ℕ)
    → list_at p (add_backend b s).backends_by_pool
      ≡ list_at p s.backends_by_pool ++ keep (of_pool p) (b ∷ [])
add_backend_lists b s p =
    list_at-insert b.model_pool_id p (list_at b.model_pool_id s.backends_by_pool ++ b ∷ [])
      s.backends_by_pool
    ∙ finish (b.model_pool_id == p) refl
  where
    finish :
        (c : Bool)
        → (b.model_pool_id == p) ≡ c
        → (if c
            then list_at b.model_pool_id s.backends_by_pool ++ b ∷ []
            else list_at p s.backends_by_pool)
          ≡ list_at p s.backends_by_pool ++ (if c then b ∷ [] else [])
    finish true t =
        let own : b.model_pool_id ≡ p = ground (arith, t) in
        ap (λ i. list_at i s.backends_by_pool ++ b ∷ []) own
    finish false t = sym (append-nil (list_at p s.backends_by_pool))

keep_cons :
    (p : Backend → Bool) (b : Backend) (bs : List Backend)
    → keep p (b ∷ []) ++ keep p bs ≡ keep p (b ∷ bs)
keep_cons p b bs = by_test (p b)
  where
    by_test :
        (c : Bool)
        → (if c then b ∷ [] else []) ++ keep p bs ≡ (if c then b ∷ keep p bs else keep p bs)
    by_test true = refl
    by_test false = refl

OnIndexed-mono :
    {P Q : Snapshot → Type 0} (r : IndexResult)
    → ((s : Snapshot) → P s → Q s)
    → OnIndexed P r
    → OnIndexed Q r
OnIndexed-mono (indexed s) f h = f s h
OnIndexed-mono (refused e) f h = tt

add_backends-BackendsAdded :
    (bs : List Backend) (s : Snapshot) → OnIndexed (BackendsAdded bs s) (add_backends bs s)
unfolding add_backends
add_backends-BackendsAdded [] s = record {
  pools = refl;
  revision = refl;
  lists = λ p. sym (append-nil (list_at p s.backends_by_pool));
  kept = λ id b h. h;
  placed = tt;
}
add_backends-BackendsAdded (b ∷ bs) s =
    let rest = add_backends-BackendsAdded bs (add_backend b s) in
    if_keeps (OnIndexed (BackendsAdded (b ∷ bs) s)) (not (exists_in b.model_pool_id s.pools_by_id))
      (λ _. tt)
      (λ t.
        if_keeps (OnIndexed (BackendsAdded (b ∷ bs) s)) (exists_in b.id s.backends_by_id) (λ _. tt)
          (λ u.
            OnIndexed-mono (add_backends bs (add_backend b s))
              (λ r a. grown r a (ground (arith, t)) u) rest))
  where
    grown :
        (r : Snapshot)
        → BackendsAdded bs (add_backend b s) r
        → exists_in b.model_pool_id s.pools_by_id ≡ true
        → exists_in b.id s.backends_by_id ≡ false
        → BackendsAdded (b ∷ bs) s r
    grown r a t u = record {
      pools = a.pools;
      revision = a.revision;
      lists = λ p.
          a.lists p
          ∙ ap (λ xs. xs ++ keep (of_pool p) bs) (add_backend_lists b s p)
          ∙ append_assoc (list_at p s.backends_by_pool) (keep (of_pool p) (b ∷ []))
              (keep (of_pool p) bs)
          ∙ ap (λ xs. list_at p s.backends_by_pool ++ xs) (keep_cons (of_pool p) b bs);
      kept = λ id c h. a.kept id c (ground (arith, h, u, lookup-insert b.id id b s.backends_by_id));
      placed = (
        (
          a.kept b.id b (ground (arith, lookup-insert b.id b.id b s.backends_by_id)),
          subst (λ m. exists_in b.model_pool_id m ≡ true) (sym a.pools) t,
        ),
        a.placed,
      );
    }

-- Adding clients, pools, keys and accesses leaves the backends and the revision as they are.
abbrev SameBackends : Snapshot → Snapshot → Type 0
SameBackends s r =
    (r.backends_by_id ≡ s.backends_by_id)
    × (r.backends_by_pool ≡ s.backends_by_pool)
    × (r.revision ≡ s.revision)

add_clients-SameBackends :
    (cs : List Client) (s : Snapshot) → OnIndexed (SameBackends s) (add_clients cs s)
unfolding add_clients
add_clients-SameBackends [] s = (refl, refl, refl)
add_clients-SameBackends (c ∷ cs) s =
    let rest = add_clients-SameBackends cs (record s { clients = insert c.id c s.clients }) in
    if_keeps (OnIndexed (SameBackends s)) (exists_in c.id s.clients) (λ _. tt) (λ _. rest)

add_pools-SameBackends :
    (ps : List ModelPool) (s : Snapshot) → OnIndexed (SameBackends s) (add_pools ps s)
unfolding add_pools
add_pools-SameBackends [] s = (refl, refl, refl)
add_pools-SameBackends (p ∷ ps) s =
    let rest = add_pools-SameBackends ps (record s {
      pools_by_id = insert p.id p s.pools_by_id;
      pools_by_name = insert p.public_model_name p s.pools_by_name;
    }) in
    if_keeps (OnIndexed (SameBackends s)) (exists_in p.id s.pools_by_id) (λ _. tt)
      (λ _.
        if_keeps (OnIndexed (SameBackends s)) (exists_in p.public_model_name s.pools_by_name)
          (λ _. tt) (λ _. rest))

add_keys-SameBackends :
    (ks : List ApiKey) (s : Snapshot) → OnIndexed (SameBackends s) (add_keys ks s)
unfolding add_keys
add_keys-SameBackends [] s = (refl, refl, refl)
add_keys-SameBackends (k ∷ ks) s =
    let rest = add_keys-SameBackends ks (record s {
      key_candidates =
          insert k.prefix (list_at k.prefix s.key_candidates ++ k ∷ []) s.key_candidates;
    }) in
    if_keeps (OnIndexed (SameBackends s)) (exists_in k.client_id s.clients) (λ _. rest) (λ _. tt)

add_access-SameBackends :
    (accesses : List ClientModelAccess) (s : Snapshot)
    → OnIndexed (SameBackends s) (add_access accesses s)
unfolding add_access
add_access-SameBackends [] s = (refl, refl, refl)
add_access-SameBackends (a ∷ more) s =
    let rest = add_access-SameBackends more (record s {
      access =
          insert a.client_id
            (insert a.model_pool_id a.enabled (access_of (lookup a.client_id s.access))) s.access;
    }) in
    if_keeps (OnIndexed (SameBackends s)) (not (exists_in a.client_id s.clients)) (λ _. tt)
      (λ _.
        if_keeps (OnIndexed (SameBackends s)) (exists_in a.model_pool_id s.pools_by_id) (λ _. rest)
          (λ _. tt))

OnIndexed-and_then :
    (P Q : Snapshot → Type 0) (r : IndexResult) (f : Snapshot → IndexResult)
    → OnIndexed P r
    → ((s : Snapshot) → P s → OnIndexed Q (f s))
    → OnIndexed Q (and_then r f)
OnIndexed-and_then P Q (indexed s) f h k = k s h
OnIndexed-and_then P Q (refused e) f h k = tt

SameBackends-trans : (a b c : Snapshot) → SameBackends a b → SameBackends b c → SameBackends a c
SameBackends-trans a b c h k = (k.0 ∙ h.0, k.1 ∙ h.1, k.2 ∙ h.2)

-- The published lists and the loaded ones.
abbrev FromData : Data → Snapshot → Type 0
FromData d s =
    (s.revision ≡ d.revision)
    × ((p : ℕ) → list_at p s.backends_by_pool ≡ keep (of_pool p) d.backends)
    × All (Placed s) d.backends

from_added :
    (d : Data) (s r : Snapshot)
    → SameBackends (empty_snapshot d.revision) s
    → BackendsAdded d.backends s r
    → FromData d r
unfolding lookup
from_added d s r same a = (
  a.revision ∙ same.2,
  (λ p. a.lists p ∙ ap (λ m. list_at p m ++ keep (of_pool p) d.backends) same.1),
  a.placed,
)

index_data-FromData : (d : Data) → OnIndexed (FromData d) (index_data d)
unfolding index_data
index_data-FromData d =
    let e = empty_snapshot d.revision in
    OnIndexed-and_then (SameBackends e) (FromData d) (add_clients d.clients e) _
      (add_clients-SameBackends d.clients e)
      (λ s1 h1.
        OnIndexed-and_then (SameBackends e) (FromData d) (add_pools d.pools s1) _
          (OnIndexed-mono (add_pools d.pools s1) (λ s. SameBackends-trans e s1 s h1)
            (add_pools-SameBackends d.pools s1))
          (λ s2 h2.
            OnIndexed-and_then (SameBackends e) (FromData d) (add_keys d.keys s2) _
              (OnIndexed-mono (add_keys d.keys s2) (λ s. SameBackends-trans e s2 s h2)
                (add_keys-SameBackends d.keys s2))
              (λ s3 h3.
                OnIndexed-and_then (SameBackends e) (FromData d) (add_access d.access s3) _
                  (OnIndexed-mono (add_access d.access s3) (λ s. SameBackends-trans e s3 s h3)
                    (add_access-SameBackends d.access s3))
                  (λ s4 h4.
                    OnIndexed-mono (add_backends d.backends s4) (λ r. from_added d s4 r h4)
                      (add_backends-BackendsAdded d.backends s4)))))

-- Where the loaded data is accepted, the snapshot has its revision, the list of a pool holds the
-- loaded backends of that pool in their order, and every loaded backend is found by its id, its
-- pool among the pools.
pub index_data_backends :
    (d : Data) (s : Snapshot) (p : ℕ)
    → index_data d ≡ indexed s
    → (s.revision ≡ d.revision)
      × (list_at p s.backends_by_pool ≡ keep (of_pool p) d.backends)
      × All (Placed s) d.backends
index_data_backends d s p e =
    let (revision, lists, placed) = subst (OnIndexed (FromData d)) e (index_data-FromData d) in
    (revision, lists p, placed)
