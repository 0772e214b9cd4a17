-- ===== src/Base/Lists.antt =====
-- Lists measured by native numbers, Boolean filters and counts, and maps from numbers to numbers.
use Prim.Native.Nat.{ℕ, zero, suc, ◌+◌, ◌≤◌, ◌<◌}
use mathlib.Core.Path.{◌≡◌, refl, sym, ap, ◌∙◌, subst}
use mathlib.Core.Bool.{Bool, true, false}
use mathlib.Core.List.{List, [], ◌∷◌, ◌++◌, Memᴰ}
use mathlib.Core.Option.{Option, none, some}
use native.Mathlib.Omega.{arith}
use vllm_priority_gateway.Base.Tests.{◌==◌, if◌then◌else◌}

module _ {ℓ} {A : Type ℓ} where
  abbrev pub length : List A → ℕ
  length [] = 0
  length (x ∷ xs) = suc (length xs)

  abbrev pub get_elem? : List A → ℕ → Option A
  get_elem? [] i = none
  get_elem? (x ∷ xs) zero = some x
  get_elem? (x ∷ xs) (suc i) = get_elem? xs i

  abbrev pub take : ℕ → List A → List A
  take zero xs = []
  take (suc n) [] = []
  take (suc n) (x ∷ xs) = x ∷ take n xs

  -- `for … if test(x) { kept = append(kept, x) }`
  abbrev pub keep : (A → Bool) → List A → List A
  keep p [] = []
  keep p (x ∷ xs) = let rest = keep p xs in if p x then x ∷ rest else rest

  abbrev pub count_if : (A → Bool) → List A → ℕ
  count_if p [] = 0
  count_if p (x ∷ xs) = (if p x then 1 else 0) + count_if p xs

  -- A predicate that holds of every element.
  abbrev pub All {κ} : (A → Type κ) → List A → Type κ
  All P [] = Unit
  All P (x ∷ xs) = P x × All P xs

  pub length-append : (xs ys : List A) → length (xs ++ ys) ≡ length xs + length ys
  length-append [] ys = omega arith
  length-append (x ∷ xs) ys = omega (arith, length-append xs ys)

  pub length-keep-le : (p : A → Bool) (xs : List A) → length (keep p xs) ≤ length xs
  length-keep-le p [] = omega arith
  length-keep-le p (x ∷ xs) = ground (arith, length-keep-le p xs)

  pub length-keep : (p : A → Bool) (xs : List A) → length (keep p xs) ≡ count_if p xs
  length-keep p [] = omega arith
  length-keep p (x ∷ xs) = ground (arith, length-keep p xs)

  pub get_elem?-lt : (xs : List A) (i : ℕ) → i < length xs → (x : A) × (get_elem? xs i ≡ some x)
  get_elem?-lt [] i h = absurd (omega arith)
  get_elem?-lt (x ∷ xs) zero h = (x, refl)
  get_elem?-lt (x ∷ xs) (suc i) h = get_elem?-lt xs i (omega arith)

  pub mem-get_elem? : (xs : List A) (i : ℕ) {x : A} → get_elem? xs i ≡ some x → Memᴰ x xs
  mem-get_elem? [] i e = cc
  mem-get_elem? (x ∷ xs) zero e = Memᴰ.head (cc)
  mem-get_elem? (x ∷ xs) (suc i) e = Memᴰ.tail (mem-get_elem? xs i e)

  pub mem-keep :
      (p : A → Bool) (xs : List A) {x : A} → Memᴰ x (keep p xs) → Memᴰ x xs × (p x ≡ true)
  mem-keep p [] m = elim m [ ]
  mem-keep p (y ∷ ys) {x} m = split (λ k. mem-keep p ys k) (p y) refl m
    where
      split :
          (Memᴰ x (keep p ys) → Memᴰ x ys × (p x ≡ true))
          → (b : Bool) → p y ≡ b
          → Memᴰ x (if b then y ∷ keep p ys else keep p ys)
          → Memᴰ x (y ∷ ys) × (p x ≡ true)
      split ih true e (Memᴰ.head q) = (Memᴰ.head q, ap p q ∙ e)
      split ih true e (Memᴰ.tail k) = (Memᴰ.tail (ih k).0, (ih k).1)
      split ih false e k = (Memᴰ.tail (ih k).0, (ih k).1)

  pub mem-keep_intro :
      (p : A → Bool) (xs : List A) {x : A} → Memᴰ x xs → p x ≡ true → Memᴰ x (keep p xs)
  mem-keep_intro p [] m h = elim m [ ]
  mem-keep_intro p (y ∷ ys) (Memᴰ.head e) h = rw (sym (ap p e) ∙ h) (Memᴰ.head e)
  mem-keep_intro p (y ∷ ys) {x} (Memᴰ.tail m) h = place (p y) (mem-keep_intro p ys m h)
    where
      place : (b : Bool) → Memᴰ x (keep p ys) → Memᴰ x (if b then y ∷ keep p ys else keep p ys)
      place true k = Memᴰ.tail k
      place false k = k

  pub mem-length : (xs : List A) {x : A} → Memᴰ x xs → 0 < length xs
  mem-length [] m = elim m [ ]
  mem-length (y ∷ ys) m = omega arith

  pub All-mem {κ} : (P : A → Type κ) (xs : List A) {x : A} → All P xs → Memᴰ x xs → P x
  All-mem P [] a m = elim m [ ]
  All-mem P (y ∷ ys) a (Memᴰ.head e) = subst P (sym e) a.0
  All-mem P (y ∷ ys) a (Memᴰ.tail m) = All-mem P ys a.1 m

  pub All-intro {κ} : (P : A → Type κ) (xs : List A) → ((x : A) → Memᴰ x xs → P x) → All P xs
  All-intro P [] f = tt
  All-intro P (y ∷ ys) f = (f y (Memᴰ.head refl), All-intro P ys (λ x m. f x (Memᴰ.tail m)))

  pub All-append {κ} :
      (P : A → Type κ) (before after : List A)
      → All P before × All P after
      → All P (before ++ after)
  All-append P [] after both = both.1
  All-append P (e ∷ rest) after both = (both.0.0, All-append P rest after (both.0.1, both.1))

  pub count_if-append :
      (p : A → Bool) (xs ys : List A) → count_if p (xs ++ ys) ≡ count_if p xs + count_if p ys
  count_if-append p [] ys = omega arith
  count_if-append p (x ∷ xs) ys = omega (arith, count_if-append p xs ys)

module _ {ℓ} {A : Type ℓ} where
  -- A write out of bounds changes nothing.
  abbrev pub set : List A → ℕ → A → List A
  set [] i v = []
  set (x ∷ xs) zero v = v ∷ xs
  set (x ∷ xs) (suc i) v = x ∷ set xs i v

  pub All-set {κ} :
      (P : A → Type κ) (xs : List A) (i : ℕ) (v : A) → P v → All P xs → All P (set xs i v)
  All-set P [] i v h a = tt
  All-set P (x ∷ xs) zero v h a = (h, a.1)
  All-set P (x ∷ xs) (suc i) v h a = (a.0, All-set P xs i v h a.1)

  pub All-get_elem? {κ} :
      (P : A → Type κ) (xs : List A) (i : ℕ) {x : A} → get_elem? xs i ≡ some x → All P xs → P x
  All-get_elem? P [] i e a = cc
  All-get_elem? P (x ∷ xs) zero {x = y} e a = let q : x ≡ y = cc in subst P q a.0
  All-get_elem? P (x ∷ xs) (suc i) e a = All-get_elem? P xs i e a.1

  pub All-mono {κ μ} :
      {P : A → Type κ} {Q : A → Type μ} (xs : List A) → ((x : A) → P x → Q x) → All P xs → All Q xs
  All-mono [] f a = tt
  All-mono (x ∷ xs) f a = (f x a.0, All-mono xs f a.1)

  pub count_if-member :
      (p : A → Bool) (xs : List A) (i : ℕ) (x : A)
      → get_elem? xs i ≡ some x
      → (if p x then 1 else 0) ≤ count_if p xs
  count_if-member p [] i x e = cc
  count_if-member p (y ∷ ys) zero x e = let q : y ≡ x = cc in rw q (omega arith)
  count_if-member p (y ∷ ys) (suc i) x e = omega (arith, count_if-member p ys i x e)

  -- One entry is exchanged for another, and the count moves with them.
  pub count_if-set :
      (p : A → Bool) (xs : List A) (i : ℕ) (v x : A)
      → get_elem? xs i ≡ some x
      → count_if p (set xs i v) + (if p x then 1 else 0) ≡ count_if p xs + (if p v then 1 else 0)
  count_if-set p [] i v x e = cc
  count_if-set p (y ∷ ys) zero v x e = let q : y ≡ x = cc in rw q (omega arith)
  count_if-set p (y ∷ ys) (suc i) v x e = omega (arith, count_if-set p ys i v x e)

-- A Go `map[int64]int` read with the zero value for a missing key.
abbrev pub Counts : Type 0
Counts = ℕ → ℕ

abbrev pub put_count : Counts → ℕ → ℕ → Counts
put_count m k v j = if j == k then v else m j
