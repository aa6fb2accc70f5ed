-- ===== src/Collection/Slices/Shared.antt =====
-- GetCommonElements of collection/collection.go.
use grpcx.Common.{RangeOrder, Equality, contains, List, [], ◌∷◌, ◌≡◌, ◌&&◌, all, arith, Distinct}
use grpcx.Collection.Set.{Set, new_set, set_contains, intersect}
use grpcx.Collection.Set.Laws.{
  contains-to_slice, contains-intersect, contains-new_set, to_slice-Distinct,
  intersect-HasUniqueKeys, new_set-HasUniqueKeys,
}
use grpcx.Common.{HasUniqueKeys}
use grpcx.Collection.Slices.{common_from, get_common_elements}

module _ {ℓ} {T : Type ℓ} ⦃e : Equality T⦄ (range : RangeOrder (T × Unit {0})) where
  contains-common_from :
      (result : Set T) (lists : List (List T)) (a : T)
      → contains (common_from range result lists) a
        ≡ set_contains result a && all (λ l. contains l a) lists
  unfolding common_from
  contains-common_from result [] a = ground (arith, contains-to_slice range result a)
  contains-common_from result ([] ∷ lists) a = ground arith
  contains-common_from result ((x ∷ list) ∷ lists) a = ground (
    arith,
    contains-common_from (intersect range result (new_set (x ∷ list))) lists a,
    contains-intersect range result (new_set (x ∷ list)) a,
    contains-new_set (x ∷ list) a,
  )

  common_from-Distinct :
      (result : Set T) (lists : List (List T))
      → HasUniqueKeys result
      → Distinct (common_from range result lists)
  unfolding common_from
  common_from-Distinct result [] h = to_slice-Distinct range result h
  common_from-Distinct result ([] ∷ lists) h = tt
  common_from-Distinct result ((x ∷ list) ∷ lists) h =
      common_from-Distinct (intersect range result (new_set (x ∷ list))) lists
        (intersect-HasUniqueKeys range result (new_set (x ∷ list)))

  -- An element is in the result for a first list and any others exactly if it is in every list; with
  -- at least two lists, nothing stands twice in the result.
  pub get_common_elements_lem :
      (list : List T) (lists : List (List T)) (a : T)
      → (contains (get_common_elements range (list ∷ lists)) a
          ≡ all (λ l. contains l a) (list ∷ lists))
        × ((second : List T) → Distinct (get_common_elements range (list ∷ second ∷ lists)))
  unfolding get_common_elements
  get_common_elements_lem list [] a = (
    ground arith,
    λ second. common_from-Distinct (new_set list) (second ∷ []) (new_set-HasUniqueKeys list),
  )
  get_common_elements_lem list (next ∷ lists) a = (
    ground (arith, contains-common_from (new_set list) (next ∷ lists) a, contains-new_set list a),
    λ second.
        common_from-Distinct (new_set list) (second ∷ next ∷ lists) (new_set-HasUniqueKeys list),
  )
