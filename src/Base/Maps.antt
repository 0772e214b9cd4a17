-- ===== src/Base/Maps.antt =====
-- A Go map with `len`, as an association list with at most one entry for a key.
use Prim.Native.Nat.{ℕ, ◌+◌, ◌≤◌}
use mathlib.Core.Path.{◌≡◌, refl}
use mathlib.Core.Bool.{Bool}
use mathlib.Core.Option.{Option, none, some}
use mathlib.Core.Logic.{inl, inr}
use mathlib.Core.List.{List, [], ◌∷◌}
use native.Mathlib.Omega.{arith}
use vllm_priority_gateway.Base.Tests.{◌==◌, if◌then◌else◌, Bool-cases}
use vllm_priority_gateway.Base.Lists.{length, count_if, All}

abbrev pub Map : Type 0 → Type 0
Map A = List (ℕ × A)

module _ {A : Type 0} where
  unfoldable pub lookup : ℕ → Map A → Option A
  lookup k [] = none
  lookup k ((j, v) ∷ m) = if j == k then some v else lookup k m

  unfoldable pub insert : ℕ → A → Map A → Map A
  insert key value [] = (key, value) ∷ []
  insert key value ((name, old) ∷ rest) =
      if name == key then (key, value) ∷ rest else (name, old) ∷ insert key value rest

  unfoldable pub delete : ℕ → Map A → Map A
  delete k [] = []
  delete k ((j, w) ∷ m) = let rest = delete k m in if j == k then rest else (j, w) ∷ rest

  pub lookup-nil : (k : ℕ) → lookup k [] ≡ none
  unfolding lookup
  lookup-nil k = refl

  pub lookup-insert :
      (key other : ℕ) (value : A) (entries : Map A)
      → lookup other (insert key value entries)
        ≡ (if key == other then some value else lookup other entries)
  unfolding insert lookup
  lookup-insert key other value [] = refl
  lookup-insert key other value ((name, old) ∷ rest) =
      let later = lookup-insert key other value rest in ground (arith, later)

  pub lookup-delete :
      (k j : ℕ) (m : Map A) → lookup j (delete k m) ≡ (if k == j then none else lookup j m)
  unfolding lookup delete
  lookup-delete k j [] = ground arith
  lookup-delete k j ((i, w) ∷ m) = ground (arith, lookup-delete k j m)

  abbrev pub Distinct : Map A → Type 0
  Distinct [] = Unit
  Distinct ((k, v) ∷ m) = (lookup k m ≡ none) × Distinct m

  pub Distinct-insert : (k : ℕ) (v : A) (m : Map A) → Distinct m → Distinct (insert k v m)
  unfolding lookup insert
  Distinct-insert k v [] d = (refl, tt)
  Distinct-insert k v ((j, w) ∷ m) d = elim (Bool-cases (j == k)) [
    | inl e ↦ rw e (ground (arith, d.0, e), d.1)
    | inr e ↦ rw e (ground (arith, lookup-insert k j v m, d.0, e), Distinct-insert k v m d.1)
  ]

  pub Distinct-delete : (k : ℕ) (m : Map A) → Distinct m → Distinct (delete k m)
  unfolding lookup delete
  Distinct-delete k [] d = tt
  Distinct-delete k ((j, w) ∷ m) d = elim (Bool-cases (j == k)) [
    | inl e ↦ rw e (Distinct-delete k m d.1)
    | inr e ↦ rw e (ground (arith, lookup-delete k j m, d.0, e), Distinct-delete k m d.1)
  ]

  pub delete_missing : (k : ℕ) (m : Map A) → lookup k m ≡ none → delete k m ≡ m
  unfolding lookup delete
  delete_missing k [] h = refl
  delete_missing k ((j, w) ∷ m) h = ground (arith, delete_missing k m)

  pub count_if-delete :
      (p : ℕ × A → Bool) (k : ℕ) (v : A) (m : Map A)
      → Distinct m
      → lookup k m ≡ some v
      → count_if p (delete k m) + (if p (k, v) then 1 else 0) ≡ count_if p m
  unfolding lookup delete
  count_if-delete p k v [] d h = cc
  count_if-delete p k v ((j, w) ∷ m) d h =
      ground (arith, count_if-delete p k v m d.1, delete_missing k m, d.0)

  pub count_if-insert_new :
      (p : ℕ × A → Bool) (k : ℕ) (v : A) (m : Map A)
      → lookup k m ≡ none
      → count_if p (insert k v m) ≡ count_if p m + (if p (k, v) then 1 else 0)
  unfolding lookup insert
  count_if-insert_new p k v [] h = omega arith
  count_if-insert_new p k v ((j, w) ∷ m) h = ground (arith, count_if-insert_new p k v m)

  pub count_if-insert_old :
      (p : ℕ × A → Bool) (k : ℕ) (v w : A) (m : Map A)
      → lookup k m ≡ some w
      → count_if p (insert k v m) + (if p (k, w) then 1 else 0)
        ≡ count_if p m + (if p (k, v) then 1 else 0)
  unfolding lookup insert
  count_if-insert_old p k v w [] h = cc
  count_if-insert_old p k v w ((j, u) ∷ m) h = ground (arith, count_if-insert_old p k v w m)

  pub All-lookup {κ} :
      (P : ℕ × A → Type κ) (m : Map A)
      → Distinct m
      → ((k : ℕ) (v : A) → lookup k m ≡ some v → P (k, v))
      → All P m
  unfolding lookup
  All-lookup P [] d f = tt
  All-lookup P ((k, v) ∷ m) d f =
      (f k v (ground arith), All-lookup P m d.1 (λ j w h. f j w (ground (arith, h, d.0))))

  pub length-insert_new :
      (k : ℕ) (v : A) (m : Map A) → lookup k m ≡ none → length (insert k v m) ≡ length m + 1
  unfolding lookup insert
  length-insert_new k v [] h = omega arith
  length-insert_new k v ((j, w) ∷ m) h = ground (arith, length-insert_new k v m)

  pub length-insert_old :
      (k : ℕ) (v w : A) (m : Map A) → lookup k m ≡ some w → length (insert k v m) ≡ length m
  unfolding lookup insert
  length-insert_old k v w [] h = cc
  length-insert_old k v w ((j, u) ∷ m) h = ground (arith, length-insert_old k v w m)

  pub length-delete-le : (k : ℕ) (m : Map A) → length (delete k m) ≤ length m
  unfolding delete
  length-delete-le k [] = omega arith
  length-delete-le k ((j, w) ∷ m) = ground (arith, length-delete-le k m)

pub count_if-cong {ℓ} :
    {A : Type ℓ} (p q : A → Bool) (xs : List A)
    → All (λ x. p x ≡ q x) xs
    → count_if p xs ≡ count_if q xs
count_if-cong p q [] h = refl
count_if-cong p q (x ∷ xs) h = ground (arith, count_if-cong p q xs h.1, h.0)
