-- ===== src/Common/Maps.antt =====
-- Go's maps: an association list holds the entries; `store` is `m[k] = v`, `lookup` the comma-ok
-- read. A range statement visits the entries in an order that the runtime chooses, `RangeOrder`.
use mathlib.Core.Path.{◌≡◌, refl, ap, sym, ◌∙◌}
use mathlib.Core.List.{List, [], ◌∷◌}
use mathlib.Core.List.{Permᴰ}
use mathlib.Core.Option.{Option, none, some}
use native.Mathlib.Omega.{arith}
use grpcx.Common.Tests.{if◌then◌else◌, is_some}
use grpcx.Common.Eq.{Equality, eqb}

abbrev pub Map {ℓ κ} : Type ℓ → Type κ → Type (ℓ ⊔ κ)
Map K V = List (K × V)

-- The order in which a range statement over a map visits its entries.
pub record RangeOrder {ℓ} (A : Type ℓ) : Type ℓ where
  pub visit : List A → List A
  pub visit-perm : (xs : List A) → Permᴰ xs (visit xs)

module _ {ℓ κ} {K : Type ℓ} {V : Type κ} ⦃e : Equality K⦄ where
  unfoldable pub lookup : K → Map K V → Option V
  lookup k [] = none
  lookup k ((j, v) ∷ m) = if eqb j k then some v else lookup k m

  unfoldable pub store : K → V → Map K V → Map K V
  store k v [] = (k, v) ∷ []
  store k v ((j, w) ∷ m) = if eqb j k then (k, v) ∷ m else (j, w) ∷ store k v m

  unfoldable pub delete : K → Map K V → Map K V
  delete k [] = []
  delete k ((j, w) ∷ m) = let rest = delete k m in if eqb j k then rest else (j, w) ∷ rest

  -- `for k, v := range … { m[k] = v }`
  unfoldable pub store_all : Map K V → List (K × V) → Map K V
  unfolding store
  store_all m [] = m
  store_all m ((k, v) ∷ entries) = store_all (store k v m) entries

  abbrev pub HasUniqueKeys : Map K V → Type κ
  HasUniqueKeys [] = Unit
  HasUniqueKeys ((k, v) ∷ m) = (lookup k m ≡ none) × HasUniqueKeys m

  pub lookup-store :
      (k j : K) (v : V) (m : Map K V)
      → lookup j (store k v m) ≡ (if eqb k j then some v else lookup j m)
  unfolding lookup store
  lookup-store k j v [] = refl
  lookup-store k j v ((i, w) ∷ m) =
      ground (arith, e.test_iff k j, e.test_iff i k, e.test_iff i j, lookup-store k j v m)

  pub lookup-delete :
      (k j : K) (m : Map K V) → lookup j (delete k m) ≡ (if eqb k j then none else lookup j m)
  unfolding lookup delete
  lookup-delete k j [] = ground arith
  lookup-delete k j ((i, w) ∷ m) =
      ground (arith, e.test_iff k j, e.test_iff i k, e.test_iff i j, lookup-delete k j m)

  -- deleting a key that is not there
  pub delete_absent : (k : K) (m : Map K V) → lookup k m ≡ none → delete k m ≡ m
  unfolding lookup delete
  delete_absent k [] h = refl
  delete_absent k ((j, w) ∷ m) h = ground (arith, delete_absent k m, h)

  pub store-HasUniqueKeys :
      (k : K) (v : V) (m : Map K V) → HasUniqueKeys m → HasUniqueKeys (store k v m)
  unfolding store lookup
  store-HasUniqueKeys k v [] h = (refl, tt)
  store-HasUniqueKeys k v ((j, w) ∷ m) h =
      ground
        (arith, e.test_iff j k, e.test_iff k j, lookup-store k j v m, store-HasUniqueKeys k v m)

  pub delete-HasUniqueKeys : (k : K) (m : Map K V) → HasUniqueKeys m → HasUniqueKeys (delete k m)
  unfolding delete
  delete-HasUniqueKeys k [] h = tt
  delete-HasUniqueKeys k ((j, w) ∷ m) h =
      ground (arith, e.test_iff k j, lookup-delete k j m, delete-HasUniqueKeys k m h.1)

  pub store_all-HasUniqueKeys :
      (m : Map K V) (entries : List (K × V)) → HasUniqueKeys m → HasUniqueKeys (store_all m entries)
  unfolding store_all
  store_all-HasUniqueKeys m [] h = h
  store_all-HasUniqueKeys m ((k, v) ∷ entries) h =
      store_all-HasUniqueKeys (store k v m) entries (store-HasUniqueKeys k v m h)

  -- Entries with distinct keys, written into a map, are found there; the other keys are as before.
  pub lookup-store_all :
      (j : K) (m : Map K V) (entries : List (K × V))
      → HasUniqueKeys entries
      → lookup j (store_all m entries)
        ≡ (if is_some (lookup j entries) then lookup j entries else lookup j m)
  unfolding store_all lookup
  lookup-store_all j m [] h = refl
  lookup-store_all j m ((k, v) ∷ entries) h =
      ground
        (arith, e.test_iff k j, lookup-store_all j (store k v m) entries h.1, lookup-store k j v m)

  -- A permutation of the entries of a map is the same map, in another order.
  lookup-perm :
      {l m : Map K V}
      → Permᴰ l m
      → HasUniqueKeys l
      → HasUniqueKeys m × ((k : K) → lookup k l ≡ lookup k m)
  unfolding lookup
  lookup-perm Permᴰ.nil h = (tt, λ k. refl)
  lookup-perm (Permᴰ.cons {a = (j, v)} {b = (i, w)} p q) h =
      let rest = lookup-perm q h.1 in
      let same_key : j ≡ i = ap (λ t. t.0) p in
      let same_value : v ≡ w = ap (λ t. t.1) p in
      ((cc (rest.1 i, same_key), rest.0), λ k. cc (rest.1 k, same_key, same_value))
  lookup-perm (Permᴰ.swap {a = (j, v)} {b = (i, w)} {a' = (i', w')} {b' = (j', v')} p q) h =
      let key_a : j ≡ j' = ap (λ t. t.0) p in
      let key_b : i ≡ i' = ap (λ t. t.0) q in
      let value_a : v ≡ v' = ap (λ t. t.1) p in
      let value_b : w ≡ w' = ap (λ t. t.1) q in
      (
        ground (arith, e.test_iff j i, e.test_iff j' i'),
        λ k. ground (arith, e.test_iff j i, e.test_iff i k, e.test_iff j k),
      )
  lookup-perm (Permᴰ.trans p q) h =
      let first = lookup-perm p h in
      let second = lookup-perm q first.0 in (second.0, λ k. first.1 k ∙ second.1 k)

  module _ (range : RangeOrder (K × V)) where
    pub lookup-visit :
        (k : K) (m : Map K V) → HasUniqueKeys m → lookup k (range.visit m) ≡ lookup k m
    lookup-visit k m h = sym ((lookup-perm (range.visit-perm m) h).1 k)

    pub visit-HasUniqueKeys : (m : Map K V) → HasUniqueKeys m → HasUniqueKeys (range.visit m)
    visit-HasUniqueKeys m h = (lookup-perm (range.visit-perm m) h).0
