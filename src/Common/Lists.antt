-- ===== src/Common/Lists.antt =====
-- Lists measured by native numbers, membership as a Boolean, and predicates on all elements.
use Prim.Native.Nat.{ℕ, zero, suc, ◌+◌}
use mathlib.Core.Path.{◌≡◌, refl, ap, ◌∙◌}
use mathlib.Core.Bool.{Bool, true, false, ◌||◌, ◌&&◌}
use mathlib.Core.List.{List, [], ◌∷◌, ◌++◌, Permᴰ}
use mathlib.Core.Option.{Option, none, some}
use native.Mathlib.Omega.{arith}
use grpcx.Common.Tests.{if◌then◌else◌}
use grpcx.Common.Eq.{Equality, eqb}

module _ {ℓ} {A : Type ℓ} where
  abbrev pub length : List A → ℕ
  length [] = 0
  length (x ∷ xs) = suc (length xs)

  abbrev pub get_elem? : List A → ℕ → Option A
  get_elem? [] i = none
  get_elem? (x ∷ xs) zero = some x
  get_elem? (x ∷ xs) (suc i) = get_elem? xs i

  pub length-append : (xs ys : List A) → length (xs ++ ys) ≡ length xs + length ys
  length-append [] ys = omega arith
  length-append (x ∷ xs) ys = omega (arith, length-append xs ys)

module _ {ℓ} {A : Type ℓ} ⦃e : Equality A⦄ where
  -- slices.Contains of Go's standard library
  abbrev pub contains : List A → A → Bool
  contains [] a = false
  contains (x ∷ xs) a = eqb x a || contains xs a

  pub contains-append :
      (xs ys : List A) (a : A) → contains (xs ++ ys) a ≡ contains xs a || contains ys a
  contains-append [] ys a = refl
  contains-append (x ∷ xs) ys a = ground (arith, contains-append xs ys a)

module _ {ℓ κ} {A : Type ℓ} (P : A → Type κ) where
  abbrev pub All : List A → Type κ
  All [] = Unit
  All (x ∷ xs) = P x × All xs

  pub All-append : (xs ys : List A) → All xs → All ys → All (xs ++ ys)
  All-append [] ys h k = k
  All-append (x ∷ xs) ys (p, h) k = (p, All-append xs ys h k)

module _ {ℓ} {A : Type ℓ} where
  abbrev pub select : (A → Bool) → List A → List A
  select p [] = []
  select p (x ∷ xs) = if p x then x ∷ select p xs else select p xs

  abbrev pub all : (A → Bool) → List A → Bool
  all p [] = true
  all p (x ∷ xs) = p x && all p xs

  pub select-append :
      (p : A → Bool) (xs ys : List A) → select p (xs ++ ys) ≡ select p xs ++ select p ys
  select-append p [] ys = refl
  select-append p (x ∷ xs) ys = ground (arith, select-append p xs ys)

module _ {ℓ} {A : Type ℓ} ⦃e : Equality A⦄ where
  -- No element stands twice.
  abbrev pub Distinct : List A → Type 0
  Distinct [] = Unit
  Distinct (x ∷ xs) = (contains xs x ≡ false) × Distinct xs

  pub contains-select :
      (p : A → Bool) (xs : List A) (a : A) → contains (select p xs) a ≡ contains xs a && p a
  contains-select p [] a = refl
  contains-select p (x ∷ xs) a =
      ground (arith, contains-select p xs a, e.test_iff x a, same_test x a)
    where
      same_test : (b c : A) → b ≡ c → p b ≡ p c
      same_test b c q = ap p q

  pub select-Distinct : (p : A → Bool) (xs : List A) → Distinct xs → Distinct (select p xs)
  select-Distinct p [] h = tt
  select-Distinct p (x ∷ xs) h = ground (arith, contains-select p xs x, select-Distinct p xs h.1)

  pub contains-perm : {xs ys : List A} → Permᴰ xs ys → (a : A) → contains xs a ≡ contains ys a
  contains-perm Permᴰ.nil a = refl
  contains-perm (Permᴰ.cons {a = x} {b = y} p q) a = cc (contains-perm q a, p)
  contains-perm (Permᴰ.swap {a = x} {b = y} {a' = y'} {b' = x'} p q) a = ground arith
  contains-perm (Permᴰ.trans p q) a = contains-perm p a ∙ contains-perm q a

  pub perm-Distinct : {xs ys : List A} → Permᴰ xs ys → Distinct xs → Distinct ys
  perm-Distinct Permᴰ.nil h = h
  perm-Distinct (Permᴰ.cons {a = x} {b = y} p q) h =
      (cc (contains-perm q x, p), perm-Distinct q h.1)
  perm-Distinct (Permᴰ.swap {a = x} {b = y} p q) h = ground (arith, e.test_iff x y, e.test_iff y x)
  perm-Distinct (Permᴰ.trans p q) h = perm-Distinct q (perm-Distinct p h)

pub length-perm {ℓ} : {A : Type ℓ} {xs ys : List A} → Permᴰ xs ys → length xs ≡ length ys
length-perm Permᴰ.nil = refl
length-perm (Permᴰ.cons p q) = ap suc (length-perm q)
length-perm (Permᴰ.swap p q) = refl
length-perm (Permᴰ.trans p q) = length-perm p ∙ length-perm q
