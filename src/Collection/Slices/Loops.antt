-- ===== src/Collection/Slices/Loops.antt =====
-- The filtering, mapping and folding loops of collection/collection.go against definitions by
-- recursion on the list.
use mathlib.Core.List.{append_assoc, append-nil}
use grpcx.Common.{
  List, [], ◌∷◌, ◌++◌, Bool, true, false, ◌≡◌, refl, sym, ap, ◌∙◌, ◌&&◌, if◌then◌else◌, select,
  Bool-cases, arith, inl, inr, Option, none, some, map,
}
use grpcx.Collection.Slices.{
  filter_from, filter_slice, map_slice, map_and_filter_from, map_and_filter_slice, reduce_slice,
  reduce_slice_with_condition,
}

module _ {ℓ} {T : Type ℓ} (keep : T → Bool) where
  filter_from-select : (result s : List T) → filter_from keep result s ≡ result ++ select keep s
  unfolding filter_from
  filter_from-select result [] = sym (append-nil result)
  filter_from-select result (x ∷ s) = elim (Bool-cases (keep x)) [
    | inl kept ↦ rw kept (filter_from-select (result ++ x ∷ []) s ∙ append_assoc result (x ∷ []) _)
    | inr dropped ↦ rw dropped (filter_from-select result s)
  ]

  pub filter_slice-eq-select : (s : List T) → filter_slice keep s ≡ select keep s
  unfolding filter_slice
  filter_slice-eq-select s = filter_from-select [] s

module _ {ℓ κ} {T : Type ℓ} {R : Type κ} where
  map_slice-eq-map : (s : List T) (mapper : T → R) → map_slice s mapper ≡ map mapper s
  unfolding map_slice
  map_slice-eq-map [] mapper = refl
  map_slice-eq-map (x ∷ s) mapper = ap (λ r. mapper x ∷ r) (map_slice-eq-map s mapper)

  abbrev only_if : (T → Bool) → (T → R) → T → Option R
  only_if keep f x = if keep x then some (f x) else none

  map_and_filter_from_lem :
      (keep : T → Bool) (f : T → R) (result : List R) (s : List T)
      → map_and_filter_from (only_if keep f) result s ≡ result ++ map f (select keep s)
  unfolding map_and_filter_from
  map_and_filter_from_lem keep f result [] = sym (append-nil result)
  map_and_filter_from_lem keep f result (x ∷ s) = elim (Bool-cases (keep x)) [
    | inl kept ↦
        rw kept
          (map_and_filter_from_lem keep f (result ++ f x ∷ []) s ∙ append_assoc result (f x ∷ []) _)
    | inr dropped ↦ rw dropped (map_and_filter_from_lem keep f result s)
  ]

  -- With a mapper that says ok exactly where `keep` holds, MapAndFilterSlice is FilterSlice by `keep`
  -- followed by MapSlice.
  pub map_and_filter_slice_lem :
      (s : List T) (keep : T → Bool) (f : T → R)
      → map_and_filter_slice s (λ x. if keep x then some (f x) else none)
        ≡ map_slice (filter_slice keep s) f
  unfolding map_and_filter_slice
  map_and_filter_slice_lem s keep f =
      map_and_filter_from_lem keep f [] s
      ∙ ap (map f) (sym (filter_slice-eq-select keep s))
      ∙ sym (map_slice-eq-map (filter_slice keep s) f)

  -- The reducer says true on each element of the list, one after the other.
  unfoldable pub continues : List T → R → (T → R → R × Bool) → Bool
  continues [] acc reducer = true
  continues (x ∷ s) acc reducer =
      let (acc', more) = reducer x acc in more && continues s acc' reducer

  reduce_prefix :
      (xs : List T) (x : T) (ys : List T) (acc : R) (reducer : T → R → R × Bool)
      → continues xs acc reducer ≡ true
      → (reducer x (reduce_slice xs acc (λ y a. (reducer y a).0))).1 ≡ false
      → reduce_slice_with_condition (xs ++ x ∷ ys) acc reducer
        ≡ reduce_slice (xs ++ x ∷ []) acc (λ y a. (reducer y a).0)
  unfolding reduce_slice reduce_slice_with_condition continues
  reduce_prefix [] x ys acc reducer more stop = rw stop
  reduce_prefix (z ∷ xs) x ys acc reducer more stop =
      let now : (reducer z acc).1 ≡ true = ground arith in
      let later : continues xs (reducer z acc).0 reducer ≡ true = ground arith in
      rw now (reduce_prefix xs x ys (reducer z acc).0 reducer later stop)

  reduce_all :
      (s : List T) (acc : R) (reducer : T → R → R × Bool)
      → continues s acc reducer ≡ true
      → reduce_slice_with_condition s acc reducer ≡ reduce_slice s acc (λ y a. (reducer y a).0)
  unfolding reduce_slice reduce_slice_with_condition continues
  reduce_all [] acc reducer more = refl
  reduce_all (z ∷ s) acc reducer more =
      let now : (reducer z acc).1 ≡ true = ground arith in
      let later : continues s (reducer z acc).0 reducer ≡ true = ground arith in
      rw now (reduce_all s (reducer z acc).0 reducer later)

  -- While the reducer says true ReduceSliceWithCondition folds like ReduceSlice; at the first element
  -- where it says false, that element is still folded in and the rest of the slice is not read.
  pub reduce_slice_with_condition_lem :
      (xs : List T) (x : T) (ys : List T) (acc : R) (reducer : T → R → R × Bool)
      → continues xs acc reducer ≡ true
      → (reduce_slice_with_condition xs acc reducer ≡ reduce_slice xs acc (λ y a. (reducer y a).0))
        × ((reducer x (reduce_slice xs acc (λ y a. (reducer y a).0))).1 ≡ false
            → reduce_slice_with_condition (xs ++ x ∷ ys) acc reducer
              ≡ reduce_slice (xs ++ x ∷ []) acc (λ y a. (reducer y a).0))
  reduce_slice_with_condition_lem xs x ys acc reducer more =
      (reduce_all xs acc reducer more, reduce_prefix xs x ys acc reducer more)
