-- ===== src/Collection/Slices.antt =====
-- The slice helpers of collection/collection.go. A loop that appends to `result` is a function over
-- its variables.
pub mod Dedup
pub mod Loops
pub mod Shared
use grpcx.Common.{
  Map, RangeOrder, Equality, lookup, store, contains, List, [], ◌∷◌, ◌++◌, Bool, true, false,
  Option, none, some, if◌then◌else◌, is_some,
}
use grpcx.Collection.Set.{Set, add, new_set, set_contains, to_slice, intersect}

module _ {ℓ} {E : Type ℓ} ⦃e : Equality E⦄ where
  unfoldable pub is_in_slice : E → List E → Bool
  is_in_slice x ss = contains ss x

  dedup_from : Set E → List E → List E → List E
  dedup_from seen result [] = result
  dedup_from seen result (x ∷ s) =
      let kept = dedup_from seen result s in
      let added = dedup_from (add x seen) (result ++ x ∷ []) s in
      if set_contains seen x then kept else added

  unfoldable pub deduplicate_slice : List E → List E
  unfolding dedup_from
  deduplicate_slice s = dedup_from [] [] s

  dedup_and_remove_from : Set E → Set E → List E → List E → List E
  dedup_and_remove_from exclude seen result [] = result
  dedup_and_remove_from exclude seen result (x ∷ s) =
      let skipped = dedup_and_remove_from exclude seen result s in
      let added = dedup_and_remove_from exclude (add x seen) (result ++ x ∷ []) s in
      if set_contains exclude x then skipped else if set_contains seen x then skipped else added

  unfoldable pub deduplicate_slice_and_remove : List E → List E → List E
  unfolding dedup_and_remove_from
  deduplicate_slice_and_remove s to_remove = dedup_and_remove_from (new_set to_remove) [] [] s

module _ {ℓ κ} {E : Type ℓ} {K : Type κ} ⦃e : Equality K⦄ (get_key : E → K) where
  dedup_objects_from : Map K (Unit {0}) → List E → List E → List E
  dedup_objects_from seen result [] = result
  dedup_objects_from seen result (x ∷ s) =
      let kept = dedup_objects_from seen result s in
      let added = dedup_objects_from (store (get_key x) tt seen) (result ++ x ∷ []) s in
      if is_some (lookup (get_key x) seen) then kept else added

  unfoldable pub deduplicate_slice_of_object : List E → List E
  unfolding dedup_objects_from
  deduplicate_slice_of_object s = dedup_objects_from [] [] s

module _ {ℓ} {T : Type ℓ} (keep : T → Bool) where
  filter_from : List T → List T → List T
  filter_from result [] = result
  filter_from result (x ∷ s) = filter_from (if keep x then result ++ x ∷ [] else result) s

  unfoldable pub filter_slice : List T → List T
  unfolding filter_from
  filter_slice s = filter_from [] s

module _ {ℓ κ} {T : Type ℓ} {R : Type κ} where
  -- result[i] = mapper(s[i]) for each index of s
  unfoldable pub map_slice : List T → (T → R) → List R
  map_slice [] mapper = []
  map_slice (x ∷ s) mapper = mapper x ∷ map_slice s mapper

  -- a mapper that returns (item, false) is one that returns `none`
  map_and_filter_from : (T → Option R) → List R → List T → List R
  map_and_filter_from mapper result [] = result
  map_and_filter_from mapper result (x ∷ s) =
      map_and_filter_from mapper (elim (mapper x) [ none ↦ result | some r ↦ result ++ r ∷ [] ]) s

  unfoldable pub map_and_filter_slice : List T → (T → Option R) → List R
  unfolding map_and_filter_from
  map_and_filter_slice s mapper = map_and_filter_from mapper [] s

  unfoldable pub reduce_slice : List T → R → (T → R → R) → R
  reduce_slice [] acc reducer = acc
  reduce_slice (x ∷ s) acc reducer = reduce_slice s (reducer x acc) reducer

  -- the reducer returns the new value and whether to continue
  unfoldable pub reduce_slice_with_condition : List T → R → (T → R → R × Bool) → R
  reduce_slice_with_condition [] acc reducer = acc
  reduce_slice_with_condition (x ∷ s) acc reducer =
      let (acc', keep_continuing) = reducer x acc in
      let rest = reduce_slice_with_condition s acc' reducer in
      if keep_continuing then rest else acc'

module _ {ℓ} {T : Type ℓ} ⦃e : Equality T⦄ (range : RangeOrder (T × Unit {0})) where
  -- the loop over lists[1:]; an empty list returns at once
  common_from : Set T → List (List T) → List T
  common_from result [] = to_slice range result
  common_from result ([] ∷ lists) = []
  common_from result ((x ∷ list) ∷ lists) =
      common_from (intersect range result (new_set (x ∷ list))) lists

  unfoldable pub get_common_elements : List (List T) → List T
  unfolding common_from
  get_common_elements [] = []
  get_common_elements (list ∷ []) = list
  get_common_elements (list ∷ second ∷ lists) = common_from (new_set list) (second ∷ lists)
