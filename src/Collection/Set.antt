-- ===== src/Collection/Set.antt =====
-- The type Set of collection/collection.go: a map whose values carry nothing.
pub mod Laws
use grpcx.Common.{
  Map, RangeOrder, Equality, lookup, store, delete, length, is_some, List, [], ◌∷◌, ◌++◌, ℕ, Bool,
  if◌then◌else◌,
}

abbrev pub Set {ℓ} : Type ℓ → Type ℓ
Set T = Map T (Unit {0})

module _ {ℓ} {T : Type ℓ} ⦃e : Equality T⦄ where
  unfoldable pub add : T → Set T → Set T
  add item s = store item tt s

  add_all : List T → Set T → Set T
  unfolding add
  add_all [] s = s
  add_all (v ∷ vals) s = add_all vals (add v s)

  -- NewSet
  unfoldable pub new_set : List T → Set T
  unfolding add_all
  new_set vals = add_all vals []

  unfoldable pub remove : T → Set T → Set T
  remove item s = delete item s

  unfoldable pub set_contains : Set T → T → Bool
  set_contains s item = is_some (lookup item s)

  unfoldable pub set_len : Set T → ℕ
  set_len s = length s

-- The loops over the items of a set, in the order of the range statement.
append_items {ℓ} : {T : Type ℓ} → List T → Set T → List T
append_items result [] = result
append_items result ((item, _) ∷ items) = append_items (result ++ item ∷ []) items

module _ {ℓ} {T : Type ℓ} ⦃e : Equality T⦄ where
  put_items : Set T → Set T → Set T
  unfolding add
  put_items result [] = result
  put_items result ((k, _) ∷ items) = put_items (add k result) items

  put_shared : Set T → Set T → Set T → Set T
  unfolding add set_contains
  put_shared other result [] = result
  put_shared other result ((k, _) ∷ items) =
      put_shared other (if set_contains other k then add k result else result) items

  module _ (range : RangeOrder (T × Unit {0})) where
    unfoldable pub to_slice : Set T → List T
    unfolding append_items
    to_slice s = append_items [] (range.visit s)

    unfoldable pub union : Set T → Set T → Set T
    unfolding put_items
    union s other = put_items (put_items [] (range.visit s)) (range.visit other)

    unfoldable pub intersect : Set T → Set T → Set T
    unfolding put_shared
    intersect s other = put_shared other [] (range.visit s)
