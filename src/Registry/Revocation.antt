-- ===== src/Registry/Revocation.antt =====
-- A revocation that has been published is not taken back (internal/registry/registry.go).
use vllm_priority_gateway.Base.{
  ℕ, ◌≡◌, refl, sym, subst, Bool, true, false, Option, none, some, List, [], ◌∷◌, arith, ◌==◌, All,
  is_none, if_keeps, leb_ℤ, ◌≤ℤ◌,
}
use vllm_priority_gateway.Base.Maps.{Map}
use vllm_priority_gateway.Domain.{ApiKey}
use vllm_priority_gateway.Registry.{
  Snapshot, Data, IndexResult, indexed, refused, index_data, publish, index_candidates,
  merge_key_runtime_state, reload, mark_backend_deleted, update_keys, update_candidates,
  has_candidate, update_key, mark_key_revoked, mark_key_used,
}
use vllm_priority_gateway.Registry.Merge.{
  RevokedIf, AllRevoked, index_candidates-Indexed, index_candidates_found,
  merge_candidates-AllRevoked, nothing-Indexed,
}

-- Whatever a reload publishes, a key that was listed and revoked stays revoked.
reload-AllRevoked :
    (id : ℕ) (loaded : Option Data) (s : Snapshot)
    → has_candidate id s.key_candidates ≡ true
    → AllRevoked id s.key_candidates
    → AllRevoked id (reload loaded s).0.key_candidates
unfolding reload merge_key_runtime_state
reload-AllRevoked id none s listed a = a
reload-AllRevoked id (some d) s listed a = published (index_data d)
  where
    states : Map ApiKey
    states = index_candidates s.key_candidates []

    published : (r : IndexResult) → AllRevoked id (publish r s).0.key_candidates
    published (refused e) = a
    published (indexed n) =
        if_keeps (λ (x : Snapshot × Bool). AllRevoked id x.0.key_candidates)
          (leb_ℤ n.revision s.revision) (λ _. a)
          (λ _.
            merge_candidates-AllRevoked id states n.key_candidates
              (index_candidates-Indexed id s.key_candidates [] a (nothing-Indexed id))
              (index_candidates_found id s.key_candidates [] (ground (arith, listed))))

-- What an update of keys needs to do to keep revocations.
abbrev KeepsRevoked : (ApiKey → ApiKey) → Type 0
KeepsRevoked f =
    (k : ApiKey)
    → ((f k).id ≡ k.id) × (is_none k.revoked_at ≡ false → is_none (f k).revoked_at ≡ false)

update_keys-RevokedIf :
    (id j : ℕ) (f : ApiKey → ApiKey) (ks : List ApiKey)
    → KeepsRevoked f
    → All (RevokedIf id) ks
    → All (RevokedIf id) (update_keys j f ks)
unfolding update_keys
update_keys-RevokedIf id j f [] h a = tt
update_keys-RevokedIf id j f (k ∷ ks) h a = (
  if_keeps (RevokedIf id) (k.id == j) (λ _. ground (arith, h k, a.0)) (λ _. a.0),
  update_keys-RevokedIf id j f ks h a.1,
)

update_candidates-AllRevoked :
    (id j : ℕ) (f : ApiKey → ApiKey) (c : Map (List ApiKey))
    → KeepsRevoked f
    → AllRevoked id c
    → AllRevoked id (update_candidates j f c)
unfolding update_candidates
update_candidates-AllRevoked id j f [] h a = tt
update_candidates-AllRevoked id j f ((prefix, ks) ∷ rest) h a =
    (update_keys-RevokedIf id j f ks h a.0, update_candidates-AllRevoked id j f rest h a.1)

update_key-AllRevoked :
    (id j : ℕ) (f : ApiKey → ApiKey) (s : Snapshot)
    → KeepsRevoked f
    → AllRevoked id s.key_candidates
    → AllRevoked id (update_key j f s).0.key_candidates
unfolding update_key
update_key-AllRevoked id j f s h a =
    if_keeps (λ (x : Snapshot × Bool). AllRevoked id x.0.key_candidates)
      (has_candidate j s.key_candidates)
      (λ _. update_candidates-AllRevoked id j f s.key_candidates h a) (λ _. a)

-- Revoking revokes every key of the id.
revoke_keys :
    (id at : ℕ) (ks : List ApiKey)
    → All (RevokedIf id) (update_keys id (λ k. record k { revoked_at = some at }) ks)
unfolding update_keys
revoke_keys id at [] = tt
revoke_keys id at (k ∷ ks) = (
  if_keeps (RevokedIf id) (k.id == id) (λ _. ground arith) (λ t. ground (arith, t)),
  revoke_keys id at ks,
)

revoke_candidates :
    (id at : ℕ) (c : Map (List ApiKey))
    → AllRevoked id (update_candidates id (λ k. record k { revoked_at = some at }) c)
unfolding update_candidates
revoke_candidates id at [] = tt
revoke_candidates id at ((prefix, ks) ∷ rest) = (revoke_keys id at ks, revoke_candidates id at rest)

mark_key_revoked-AllRevoked :
    (id at : ℕ) (s : Snapshot)
    → (mark_key_revoked id at s).1 ≡ true
    → AllRevoked id (mark_key_revoked id at s).0.key_candidates
unfolding mark_key_revoked
mark_key_revoked-AllRevoked id at s h =
    (if_keeps (λ (x : Snapshot × Bool). x.1 ≡ true → AllRevoked id x.0.key_candidates)
        (has_candidate id s.key_candidates) (λ _ _. revoke_candidates id at s.key_candidates)
        (λ _ k. absurd (ground (arith, k))))
      h

-- A publication: a reload with what the loader returned, or one of the three marks.
pub data Publication : Type 0 where
  reloads : Option Data → Publication
  deletes : ℕ → Publication
  revokes uses : ℕ → ℕ → Publication

unfoldable pub step : Snapshot → Publication → Snapshot
step s (reloads loaded) = (reload loaded s).0
step s (deletes id) = (mark_backend_deleted id s).0
step s (revokes id at) = (mark_key_revoked id at s).0
step s (uses id at) = (mark_key_used id at s).0

unfoldable pub run : Snapshot → List Publication → Snapshot
run s [] = s
run s (p ∷ ps) = run (step s p) ps

-- Each snapshot that a publication of the list starts from lists a key of this id.
abbrev pub StaysListed : ℕ → Snapshot → List Publication → Type 0
StaysListed id s [] = Unit
StaysListed id s (p ∷ ps) =
    (has_candidate id s.key_candidates ≡ true) × StaysListed id (step s p) ps

mark_backend_deleted_keys :
    (j : ℕ) (s : Snapshot) → (mark_backend_deleted j s).0.key_candidates ≡ s.key_candidates
unfolding mark_backend_deleted
mark_backend_deleted_keys j s = ground arith

step-AllRevoked :
    (id : ℕ) (s : Snapshot) (p : Publication)
    → has_candidate id s.key_candidates ≡ true
    → AllRevoked id s.key_candidates
    → AllRevoked id (step s p).key_candidates
unfolding step mark_key_revoked mark_key_used mark_backend_deleted
step-AllRevoked id s (reloads loaded) listed a = reload-AllRevoked id loaded s listed a
step-AllRevoked id s (deletes j) listed a =
    subst (AllRevoked id) (sym (mark_backend_deleted_keys j s)) a
step-AllRevoked id s (revokes j at) listed a =
    update_key-AllRevoked id j (λ k. record k { revoked_at = some at }) s (λ k. (refl, λ _. refl)) a
step-AllRevoked id s (uses j at) listed a =
    update_key-AllRevoked id j (λ k. record k { last_used_at = some at }) s (λ k. (refl, λ h. h)) a

run-AllRevoked :
    (id : ℕ) (s : Snapshot) (ps : List Publication)
    → StaysListed id s ps
    → AllRevoked id s.key_candidates
    → AllRevoked id (run s ps).key_candidates
unfolding run
run-AllRevoked id s [] l a = a
run-AllRevoked id s (p ∷ ps) l a =
    run-AllRevoked id (step s p) ps l.1 (step-AllRevoked id s p l.0 a)

-- Once `MarkKeyRevoked` has found the key, every key of that id is revoked in the snapshot, and
-- stays so through any publications, of reloads with data older or newer than the revocation too,
-- as long as the key is listed at each of them.
pub revocation_stays :
    (id at : ℕ) (s : Snapshot) (ps : List Publication)
    → (mark_key_revoked id at s).1 ≡ true
    → StaysListed id (mark_key_revoked id at s).0 ps
    → AllRevoked id (run (mark_key_revoked id at s).0 ps).key_candidates
revocation_stays id at s ps h l =
    run-AllRevoked id (mark_key_revoked id at s).0 ps l (mark_key_revoked-AllRevoked id at s h)

reload_revision : (loaded : Option Data) (s : Snapshot) → s.revision ≤ℤ (reload loaded s).0.revision
unfolding reload merge_key_runtime_state
reload_revision none s = omega arith
reload_revision (some d) s = published (index_data d)
  where
    published : (r : IndexResult) → s.revision ≤ℤ (publish r s).0.revision
    published (refused e) = omega arith
    published (indexed n) = ground arith

step_revision : (s : Snapshot) (p : Publication) → s.revision ≤ℤ (step s p).revision
unfolding step mark_key_revoked mark_key_used update_key mark_backend_deleted
step_revision s (reloads loaded) = reload_revision loaded s
step_revision s (deletes j) = ground arith
step_revision s (revokes j at) = ground arith
step_revision s (uses j at) = ground arith

-- The revision that is published never goes back.
pub run_revision : (s : Snapshot) (ps : List Publication) → s.revision ≤ℤ (run s ps).revision
unfolding run
run_revision s [] = omega arith
run_revision s (p ∷ ps) = omega (arith, step_revision s p, run_revision (step s p) ps)
