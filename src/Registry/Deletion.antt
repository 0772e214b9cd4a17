-- ===== src/Registry/Deletion.antt =====
-- A deleted backend is gone from the published snapshot at once (`MarkBackendDeleted`,
-- internal/registry/registry.go).
use vllm_priority_gateway.Base.{
  ℕ, ◌≡◌, refl, ◌⊎◌, inl, inr, ◌∙◌, ap, sym, subst, if_keeps, Bool, true, false, ◌||◌, not, none,
  List, [], ◌∷◌, arith, ltb, ◌==◌, if◌then◌else◌, length, Bool-cases, Option-cases,
}
use vllm_priority_gateway.Base.Maps.{Map, lookup, Distinct, lookup-delete}
use vllm_priority_gateway.Domain.{Backend}
use vllm_priority_gateway.Registry.{
  Snapshot, list_at, without, delete_in_pools, mark_backend_deleted,
}

keep_empty : (xs : List Backend) → ltb 0 (length xs) ≡ false → xs ≡ []
keep_empty [] h = refl
keep_empty (x ∷ xs) h = absurd (ground (arith, h))

delete_in_pools-missing :
    (id pool p : ℕ) (m : Map (List Backend))
    → lookup p m ≡ none
    → lookup p (delete_in_pools id pool m) ≡ none
unfolding delete_in_pools lookup
delete_in_pools-missing id pool p [] h = refl
delete_in_pools-missing id pool p ((q, bs) ∷ m) h =
    let rest = delete_in_pools-missing id pool p m in ground (arith, h, rest)

delete_in_pools-list_at :
    (id pool p : ℕ) (m : Map (List Backend))
    → Distinct m
    → list_at p (delete_in_pools id pool m) ≡ without id (list_at p m)
unfolding delete_in_pools lookup
delete_in_pools-list_at id pool p [] d = refl
delete_in_pools-list_at id pool p ((q, bs) ∷ m) d =
    let rest = delete_in_pools-list_at id pool p m d.1 in
    let gone = delete_in_pools-missing id pool q m d.0 in
    let kept : Bool = ltb 0 (length (without id bs)) || not (q == pool) in
    elim (Bool-cases (q == p)) [
      | inl same ↦
          let own : q ≡ p = ground (arith, same) in
          let absent : lookup p (delete_in_pools id pool m) ≡ none =
            subst (λ i. lookup i (delete_in_pools id pool m) ≡ none) own gone in
          let its : list_at p ((q, bs) ∷ m) ≡ bs = rw (same, list_at) refl in
          (if_keeps (λ (r : Map (List Backend)). list_at p r ≡ without id bs) kept
            {x = (q, without id bs) ∷ delete_in_pools id pool m} {y = delete_in_pools id pool m}
            (λ _. rw (same, list_at) refl)
            (λ t. rw (absent, list_at) (sym (keep_empty (without id bs) (ground (arith, t))))))
          ∙ ap (without id) (sym its)
      | inr other ↦
          let its : list_at p ((q, bs) ∷ m) ≡ list_at p m = rw (other, list_at) refl in
          (if_keeps (λ (r : Map (List Backend)). list_at p r ≡ without id (list_at p m)) kept
            {x = (q, without id bs) ∷ delete_in_pools id pool m} {y = delete_in_pools id pool m}
            (λ _. rw (other, list_at) rest) (λ _. rest))
          ∙ ap (without id) (sym its)
    ]

-- Deleting a backend that is in the snapshot takes it, and nothing else, out of the index by id and
-- out of the list of every pool; deleting one that is not changes nothing and answers so. No pool
-- has two lists.
pub mark_backend_deleted_everywhere :
    (id : ℕ) (s : Snapshot) (j p : ℕ)
    → Distinct s.backends_by_pool
    → let r = mark_backend_deleted id s in
      ((lookup id s.backends_by_id ≡ none) × (r ≡ (s, false)))
      ⊎ ((r.1 ≡ true)
          × (lookup j r.0.backends_by_id ≡ (if id == j then none else lookup j s.backends_by_id))
          × (list_at p r.0.backends_by_pool ≡ without id (list_at p s.backends_by_pool)))
unfolding mark_backend_deleted
mark_backend_deleted_everywhere id s j p d = elim (Option-cases (lookup id s.backends_by_id)) [
  | inl e ↦ inl (e, rw (e, mark_backend_deleted) refl)
  | inr (b, e) ↦ inr (
    rw (e, mark_backend_deleted) refl,
    rw (e, mark_backend_deleted) (lookup-delete id j s.backends_by_id),
    rw (e, mark_backend_deleted)
        (delete_in_pools-list_at id b.model_pool_id p s.backends_by_pool d),
  )
]
