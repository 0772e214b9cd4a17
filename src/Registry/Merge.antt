-- ===== src/Registry/Merge.antt =====
-- Merging a loaded snapshot with the current one keeps revocations (`mergeKeyRuntimeState`,
-- internal/registry/registry.go).
use vllm_priority_gateway.Base.{
  ℕ, ◌≡◌, refl, sym, ap, subst, ◌∙◌, inl, inr, Bool, true, false, ◌&&◌, ◌||◌, not, Option, none,
  some, List, [], ◌∷◌, arith, ◌==◌, All, is_none, Bool-cases, Option-cases, some-eq,
}
use vllm_priority_gateway.Base.Maps.{Map, lookup, insert, lookup-insert}
use vllm_priority_gateway.Domain.{ApiKey}
use vllm_priority_gateway.Registry.{
  index_keys, index_candidates, merge_state, merge_keys, merge_candidates, has_key, has_candidate,
}

-- A key of this id is revoked.
abbrev pub RevokedIf : ℕ → ApiKey → Type 0
RevokedIf id k = (k.id == id && is_none k.revoked_at) ≡ false

-- Every key of the id that the snapshot lists, under any prefix, is revoked.
abbrev pub AllRevoked : ℕ → Map (List ApiKey) → Type 0
AllRevoked id m = All (λ e. All (RevokedIf id) e.1) m

-- What is indexed so far under the id is revoked.
abbrev pub Indexed : ℕ → Map ApiKey → Type 0
Indexed id m = (k : ApiKey) → lookup id m ≡ some k → is_none k.revoked_at ≡ false

insert-Indexed :
    (id : ℕ) (k : ApiKey) (m : Map ApiKey)
    → RevokedIf id k
    → Indexed id m
    → Indexed id (insert k.id k m)
insert-Indexed id k m r h x e = elim (Bool-cases (k.id == id)) [
  | inl t ↦
      let own : some k ≡ some x = ground (arith, e, t, lookup-insert k.id id k m) in
      subst (λ y. is_none y.revoked_at ≡ false) (some-eq own) (ground (arith, r, t))
  | inr t ↦ h x (ground (arith, e, t, lookup-insert k.id id k m))
]

pub index_keys-Indexed :
    (id : ℕ) (ks : List ApiKey) (m : Map ApiKey)
    → All (RevokedIf id) ks
    → Indexed id m
    → Indexed id (index_keys ks m)
unfolding index_keys
index_keys-Indexed id [] m a h = h
index_keys-Indexed id (k ∷ ks) m a h =
    index_keys-Indexed id ks (insert k.id k m) a.1 (insert-Indexed id k m a.0 h)

pub index_candidates-Indexed :
    (id : ℕ) (c : Map (List ApiKey)) (m : Map ApiKey)
    → AllRevoked id c
    → Indexed id m
    → Indexed id (index_candidates c m)
unfolding index_candidates
index_candidates-Indexed id [] m a h = h
index_candidates-Indexed id ((prefix, ks) ∷ rest) m a h =
    index_candidates-Indexed id rest (index_keys ks m) a.1 (index_keys-Indexed id ks m a.0 h)

-- A key that is listed is indexed.
index_keys_found :
    (id : ℕ) (ks : List ApiKey) (m : Map ApiKey)
    → (not (is_none (lookup id m)) || has_key id ks) ≡ true
    → is_none (lookup id (index_keys ks m)) ≡ false
unfolding index_keys
index_keys_found id [] m h = ground (arith, h)
index_keys_found id (k ∷ ks) m h =
    index_keys_found id ks (insert k.id k m) (ground (arith, h, lookup-insert k.id id k m))

pub index_candidates_found :
    (id : ℕ) (c : Map (List ApiKey)) (m : Map ApiKey)
    → (not (is_none (lookup id m)) || has_candidate id c) ≡ true
    → is_none (lookup id (index_candidates c m)) ≡ false
unfolding index_candidates
index_candidates_found id [] m h = ground (arith, h)
index_candidates_found id ((prefix, ks) ∷ rest) m h =
    index_candidates_found id rest (index_keys ks m) (carried (has_key id ks) refl)
  where
    carried :
        (b : Bool)
        → has_key id ks ≡ b
        → (not (is_none (lookup id (index_keys ks m))) || has_candidate id rest) ≡ true
    carried b e = elim (Bool-cases (not (is_none (lookup id m)) || has_key id ks)) [
      | inl t ↦ ground (arith, index_keys_found id ks m t)
      | inr t ↦ ground (arith, h, t)
    ]

merge_state_other :
    (id : ℕ) (o : Option ApiKey) (k : ApiKey)
    → (k.id == id) ≡ false
    → RevokedIf id (merge_state o k)
merge_state_other id none k t = ground (arith, t)
merge_state_other id (some st) k t = ground (arith, t)

merge_state_same :
    (id : ℕ) (st k : ApiKey)
    → is_none st.revoked_at ≡ false
    → RevokedIf id (merge_state (some st) k)
merge_state_same id st k h = ground (arith, h)

merge_state-RevokedIf :
    (id : ℕ) (states : Map ApiKey) (k : ApiKey)
    → Indexed id states
    → is_none (lookup id states) ≡ false
    → RevokedIf id (merge_state (lookup k.id states) k)
merge_state-RevokedIf id states k h found = elim (Bool-cases (k.id == id)) [
  | inr t ↦ merge_state_other id (lookup k.id states) k t
  | inl t ↦ elim (Option-cases (lookup id states)) [
    | inl e ↦ absurd (ground (arith, found, e))
    | inr (st, e) ↦
        let own : k.id ≡ id = ground (arith, t) in
        let its : lookup k.id states ≡ some st = ap (λ i. lookup i states) own ∙ e in
        subst (λ o. RevokedIf id (merge_state o k)) (sym its) (merge_state_same id st k (h st e))
  ]
]

merge_keys-RevokedIf :
    (id : ℕ) (states : Map ApiKey) (ks : List ApiKey)
    → Indexed id states
    → is_none (lookup id states) ≡ false
    → All (RevokedIf id) (merge_keys states ks)
unfolding merge_keys
merge_keys-RevokedIf id states [] h found = tt
merge_keys-RevokedIf id states (k ∷ ks) h found =
    (merge_state-RevokedIf id states k h found, merge_keys-RevokedIf id states ks h found)

pub merge_candidates-AllRevoked :
    (id : ℕ) (states : Map ApiKey) (c : Map (List ApiKey))
    → Indexed id states
    → is_none (lookup id states) ≡ false
    → AllRevoked id (merge_candidates states c)
unfolding merge_candidates
merge_candidates-AllRevoked id states [] h found = tt
merge_candidates-AllRevoked id states ((prefix, ks) ∷ rest) h found =
    (merge_keys-RevokedIf id states ks h found, merge_candidates-AllRevoked id states rest h found)

pub nothing-Indexed : (id : ℕ) → Indexed id []
unfolding lookup
nothing-Indexed id k e = cc
