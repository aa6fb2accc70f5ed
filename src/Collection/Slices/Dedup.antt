-- ===== src/Collection/Slices/Dedup.antt =====
-- The three deduplicating loops against a definition by recursion: keep each element, and drop the
-- later ones with its key.
use mathlib.Core.List.{append_assoc, append-nil}
use grpcx.Common.{
  Map, Equality, eqb, lookup, store, contains, List, [], ◌∷◌, ◌++◌, true, not, ◌≡◌, refl, sym, ap,
  subst, ◌∙◌, ◌&&◌, is_some, if◌then◌else◌, select, Bool-cases, arith, inl, inr, Distinct,
  lookup-store,
}
use grpcx.Collection.Set.{Set, add, new_set, set_contains}
use grpcx.Collection.Set.Laws.{contains-new_set}
use grpcx.Collection.Slices.{
  dedup_from, deduplicate_slice, dedup_and_remove_from, deduplicate_slice_and_remove,
  dedup_objects_from, deduplicate_slice_of_object, is_in_slice, filter_slice,
}
use grpcx.Collection.Slices.Loops.{filter_slice-eq-select}

module _ {ℓ κ} {E : Type ℓ} {K : Type κ} ⦃e : Equality K⦄ (get_key : E → K) where
  drop_key : K → List E → List E
  drop_key k [] = []
  drop_key k (y ∷ l) = if eqb k (get_key y) then drop_key k l else y ∷ drop_key k l

  -- The first element of each key, in order.
  unfoldable pub firsts : List E → List E
  unfolding drop_key
  firsts [] = []
  firsts (x ∷ s) = x ∷ drop_key (get_key x) (firsts s)

  unseen : Map K (Unit {0}) → List E → List E
  unseen seen [] = []
  unseen seen (y ∷ l) =
      if is_some (lookup (get_key y) seen) then unseen seen l else y ∷ unseen seen l

  -- Elements whose key is seen already may be dropped first.
  unseen-drop_key :
      (seen : Map K (Unit {0})) (k : K) (l : List E)
      → is_some (lookup k seen) ≡ true
      → unseen seen (drop_key k l) ≡ unseen seen l
  unfolding unseen drop_key
  unseen-drop_key seen k [] h = refl
  unseen-drop_key seen k (y ∷ l) h = elim (Bool-cases (eqb k (get_key y))) [
    | inl same ↦
        let seen_y : is_some (lookup (get_key y) seen) ≡ true =
          ground (arith, e.test_iff k (get_key y)) in
        rw (same, seen_y) (unseen-drop_key seen k l h)
    | inr other ↦ rw other (ground (arith, unseen-drop_key seen k l h))
  ]

  unseen-store :
      (seen : Map K (Unit {0})) (k : K) (l : List E)
      → unseen (store k tt seen) l ≡ unseen seen (drop_key k l)
  unfolding unseen drop_key
  unseen-store seen k [] = refl
  unseen-store seen k (y ∷ l) = elim (Bool-cases (eqb k (get_key y))) [
    | inl same ↦ rw (lookup-store k (get_key y) tt seen, same) (unseen-store seen k l)
    | inr other ↦
        rw (lookup-store k (get_key y) tt seen, other) (ground (arith, unseen-store seen k l))
  ]

  unseen-nil : (l : List E) → unseen [] l ≡ l
  unfolding unseen lookup
  unseen-nil [] = refl
  unseen-nil (y ∷ l) = ap (λ r. y ∷ r) (unseen-nil l)

  dedup_objects_from_lem :
      (seen : Map K (Unit {0})) (result s : List E)
      → dedup_objects_from get_key seen result s ≡ result ++ unseen seen (firsts s)
  unfolding dedup_objects_from unseen firsts
  dedup_objects_from_lem seen result [] = sym (append-nil result)
  dedup_objects_from_lem seen result (x ∷ s) =
      elim (Bool-cases (is_some (lookup (get_key x) seen))) [
        | inl old ↦
            rw (old, unseen-drop_key seen (get_key x) (firsts s) old)
              (dedup_objects_from_lem seen result s)
        | inr new ↦
            rw (new, ← unseen-store seen (get_key x) (firsts s))
              (dedup_objects_from_lem (store (get_key x) tt seen) (result ++ x ∷ []) s
                ∙ append_assoc result (x ∷ []) _)
      ]

  -- DeduplicateSliceOfObject keeps, in order, the first element of each key.
  pub deduplicate_slice_of_object-eq-firsts :
      (s : List E) → deduplicate_slice_of_object get_key s ≡ firsts s
  unfolding deduplicate_slice_of_object
  deduplicate_slice_of_object-eq-firsts s = dedup_objects_from_lem [] [] s ∙ unseen-nil (firsts s)

  keys_of : List E → List K
  keys_of [] = []
  keys_of (y ∷ l) = get_key y ∷ keys_of l

  contains-drop_key :
      (k : K) (l : List E) (a : K)
      → contains (keys_of (drop_key k l)) a ≡ contains (keys_of l) a && not (eqb k a)
  unfolding drop_key keys_of
  contains-drop_key k [] a = refl
  contains-drop_key k (y ∷ l) a = ground (
    arith,
    contains-drop_key k l a,
    e.test_iff k a,
    e.test_iff k (get_key y),
    e.test_iff (get_key y) a,
  )

  drop_key-Distinct :
      (k : K) (l : List E) → Distinct (keys_of l) → Distinct (keys_of (drop_key k l))
  unfolding drop_key keys_of
  drop_key-Distinct k [] h = tt
  drop_key-Distinct k (y ∷ l) h =
      ground (arith, contains-drop_key k l (get_key y), drop_key-Distinct k l h.1)

  contains-firsts : (s : List E) (a : K) → contains (keys_of (firsts s)) a ≡ contains (keys_of s) a
  unfolding firsts keys_of
  contains-firsts [] a = refl
  contains-firsts (x ∷ s) a = ground (
    arith,
    contains-firsts s a,
    contains-drop_key (get_key x) (firsts s) a,
    e.test_iff (get_key x) a,
  )

  firsts-Distinct : (s : List E) → Distinct (keys_of (firsts s))
  unfolding firsts keys_of
  firsts-Distinct [] = tt
  firsts-Distinct (x ∷ s) = (
    contains-drop_key (get_key x) (firsts s) (get_key x)
        ∙ ground (arith, e.test_iff (get_key x) (get_key x)),
    drop_key-Distinct (get_key x) (firsts s) (firsts-Distinct s),
  )

module _ {ℓ} {E : Type ℓ} ⦃e : Equality E⦄ where
  dedup_from-objects :
      (seen : Set E) (result s : List E)
      → dedup_from seen result s ≡ dedup_objects_from (λ x. x) seen result s
  unfolding dedup_from dedup_objects_from add set_contains
  dedup_from-objects seen result [] = refl
  dedup_from-objects seen result (x ∷ s) = ground (
    arith,
    dedup_from-objects seen result s,
    dedup_from-objects (store x tt seen) (result ++ x ∷ []) s,
  )

  keys_of_self : (l : List E) → keys_of (λ x. x) l ≡ l
  unfolding keys_of
  keys_of_self [] = refl
  keys_of_self (y ∷ l) = ap (λ r. y ∷ r) (keys_of_self l)

  -- DeduplicateSlice keeps, in order, the first of each group of equal elements: nothing stands
  -- twice, and the result has the elements of the argument.
  pub deduplicate_slice_lem :
      (s : List E)
      → (deduplicate_slice s ≡ firsts (λ x. x) s)
        × Distinct (deduplicate_slice s)
        × ((a : E) → contains (deduplicate_slice s) a ≡ contains s a)
  unfolding deduplicate_slice deduplicate_slice_of_object
  deduplicate_slice_lem s = (same, distinct, members)
    where
      same : deduplicate_slice s ≡ firsts (λ x. x) s
      same = dedup_from-objects [] [] s ∙ deduplicate_slice_of_object-eq-firsts (λ x. x) s

      distinct : Distinct (deduplicate_slice s)
      distinct =
          subst Distinct (keys_of_self (firsts (λ x. x) s) ∙ sym same) (firsts-Distinct (λ x. x) s)

      members : (a : E) → contains (deduplicate_slice s) a ≡ contains s a
      members a =
          ap (λ l. contains l a) (same ∙ sym (keys_of_self (firsts (λ x. x) s)))
          ∙ contains-firsts (λ x. x) s a
          ∙ ap (λ l. contains l a) (keys_of_self s)

  dedup_and_remove_from_lem :
      (to_remove : List E) (seen : Set E) (result s : List E)
      → dedup_and_remove_from (new_set to_remove) seen result s
        ≡ dedup_from seen result (select (λ x. not (contains to_remove x)) s)
  unfolding dedup_and_remove_from dedup_from
  dedup_and_remove_from_lem to_remove seen result [] = refl
  dedup_and_remove_from_lem to_remove seen result (x ∷ s) =
      elim (Bool-cases (contains to_remove x)) [
        | inl gone ↦
            rw (contains-new_set to_remove x, gone)
              (dedup_and_remove_from_lem to_remove seen result s)
        | inr stays ↦
            rw (contains-new_set to_remove x, stays)
              (ground (
                arith,
                dedup_and_remove_from_lem to_remove seen result s,
                dedup_and_remove_from_lem to_remove (add x seen) (result ++ x ∷ []) s,
              ))
      ]

  -- DeduplicateSliceAndRemove is FilterSlice by "not to be removed", followed by DeduplicateSlice.
  pub deduplicate_slice_and_remove_lem :
      (s to_remove : List E)
      → deduplicate_slice_and_remove s to_remove
        ≡ deduplicate_slice (filter_slice (λ x. not (is_in_slice x to_remove)) s)
  unfolding deduplicate_slice_and_remove deduplicate_slice is_in_slice
  deduplicate_slice_and_remove_lem s to_remove =
      dedup_and_remove_from_lem to_remove [] [] s
      ∙ ap (dedup_from [] []) (sym (filter_slice-eq-select (λ x. not (contains to_remove x)) s))
