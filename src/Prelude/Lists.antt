-- ===== src/Prelude/Lists.antt =====
-- Lists measured and indexed by native numbers, under the library's names.
use Prim.Native.Nat.{ℕ, zero, suc, ◌+◌}
use mathlib.Core.Path.{◌≡◌, refl, ap, subst}
use mathlib.Core.List.{List, [], ◌∷◌, ◌++◌, map}
use mathlib.Core.Option.{Option, none, some}
use native.Mathlib.Omega.{arith}

-- Every element has the property.
abbrev pub All {ℓ κ} : {A : Type ℓ} → (A → Type κ) → List A → Type κ
All P [] = Unit
All P (x ∷ xs) = P x × All P xs

module _ {ℓ} {A : Type ℓ} where
  abbrev pub length : List A → ℕ
  length [] = 0
  length (x ∷ xs) = suc (length xs)

  abbrev pub get_elem? : List A → ℕ → Option A
  get_elem? [] i = none
  get_elem? (x ∷ xs) zero = some x
  get_elem? (x ∷ xs) (suc i) = get_elem? xs i

  -- A write out of bounds changes nothing.
  abbrev pub set : List A → ℕ → A → List A
  set [] i v = []
  set (x ∷ xs) zero v = v ∷ xs
  set (x ∷ xs) (suc i) v = x ∷ set xs i v

  abbrev pub replicate : ℕ → A → List A
  replicate zero a = []
  replicate (suc n) a = a ∷ replicate n a

  pub length-append : (xs ys : List A) → length (xs ++ ys) ≡ length xs + length ys
  length-append [] ys = omega arith
  length-append (x ∷ xs) ys = omega (arith, length-append xs ys)

module _ {ℓ} {A : Type ℓ} where
  pub length-set : (xs : List A) (i : ℕ) (v : A) → length (set xs i v) ≡ length xs
  length-set [] i v = refl
  length-set (x ∷ xs) zero v = refl
  length-set (x ∷ xs) (suc i) v = ap suc (length-set xs i v)

  pub length-replicate : (n : ℕ) (a : A) → length (replicate n a) ≡ n
  length-replicate zero a = refl
  length-replicate (suc n) a = ap suc (length-replicate n a)

  pub All-append {κ} : (P : A → Type κ) (xs ys : List A) → All P xs → All P ys → All P (xs ++ ys)
  All-append P [] ys hx hy = hy
  All-append P (x ∷ xs) ys hx hy = (hx.0, All-append P xs ys hx.1 hy)

  pub All-set {κ} :
      (P : A → Type κ) (xs : List A) (i : ℕ) {v : A} → P v → All P xs → All P (set xs i v)
  All-set P [] i h a = a
  All-set P (x ∷ xs) zero h a = (h, a.1)
  All-set P (x ∷ xs) (suc i) h a = (a.0, All-set P xs i h a.1)

  pub All-get_elem? {κ} :
      (P : A → Type κ) (xs : List A) (i : ℕ) {v : A} → All P xs → get_elem? xs i ≡ some v → P v
  All-get_elem? P [] i a e = cc
  All-get_elem? P (x ∷ xs) zero {v} a e = let q : x ≡ v = cc in subst P q a.0
  All-get_elem? P (x ∷ xs) (suc i) a e = All-get_elem? P xs i a.1 e

  pub All-replicate {κ} : (P : A → Type κ) (n : ℕ) {v : A} → P v → All P (replicate n v)
  All-replicate P zero h = tt
  All-replicate P (suc n) h = (h, All-replicate P n h)

  pub All-pair {κ μ} :
      (P : A → Type κ) (Q : A → Type μ) (xs : List A)
      → All P xs
      → All Q xs
      → All (λ x. P x × Q x) xs
  All-pair P Q [] p q = tt
  All-pair P Q (x ∷ xs) p q = ((p.0, q.0), All-pair P Q xs p.1 q.1)

  pub All-first {κ μ} :
      (P : A → Type κ) (Q : A → Type μ) (xs : List A) → All (λ x. P x × Q x) xs → All P xs
  All-first P Q [] h = tt
  All-first P Q (x ∷ xs) h = (h.0.0, All-first P Q xs h.1)

  pub All-second {κ μ} :
      (P : A → Type κ) (Q : A → Type μ) (xs : List A) → All (λ x. P x × Q x) xs → All Q xs
  All-second P Q [] h = tt
  All-second P Q (x ∷ xs) h = (h.0.1, All-second P Q xs h.1)

  pub All_always {κ} : (P : A → Type κ) (xs : List A) → ((x : A) → P x) → All P xs
  All_always P [] h = tt
  All_always P (x ∷ xs) h = (h x, All_always P xs h)

  pub length-map {κ} : {B : Type κ} (f : A → B) (xs : List A) → length (map f xs) ≡ length xs
  length-map f [] = refl
  length-map f (x ∷ xs) = ap suc (length-map f xs)
