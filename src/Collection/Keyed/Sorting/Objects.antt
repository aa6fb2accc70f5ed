-- ===== src/Collection/Keyed/Sorting/Objects.antt =====
-- DeduplicateAndSortSliceOfObject of collection/collection.go.
use grpcx.Common.{
  Map, RangeOrder, Equality, lookup, List, [], ◌∷◌, true, false, ◌≡◌, refl, ◌∙◌, sym, ap, some,
  arith, contains, All, map, inl, inr, HasUniqueKeys, Distinct, lookup-visit, visit-HasUniqueKeys,
  subst, fun_ext, is_some, Option-cases,
}
use grpcx.Collection.Slices.{map_slice}
use grpcx.Collection.Keyed.{
  Ordered, before_order, insert_sorted, sort_func, deduplicate_and_sort_slice_of_object,
  map_to_list_key, entry_keys, index_or, map_from,
}
use grpcx.Collection.Keyed.Last.{
  last_value, lookup-getter_map_from, getter_map_from-HasUniqueKeys, map_from-getter,
}
use grpcx.Collection.Keyed.Sorting.{
  Ascending, StrictlyAscending, contains-insert_sorted, contains-sort_func, sort_func-Ascending,
}

module _ {ℓ} {A : Type ℓ} ⦃e : Equality A⦄ ⦃o : Ordered A⦄ where
  insert_sorted-Distinct :
      (a : A) (s : List A) → contains s a ≡ false → Distinct s → Distinct (insert_sorted a s)
  unfolding insert_sorted
  insert_sorted-Distinct a [] h k = (refl, tt)
  insert_sorted-Distinct a (b ∷ s) h k = ground (
    arith,
    insert_sorted-Distinct a s,
    contains-insert_sorted a s b,
    e.test_iff a b,
    e.test_iff b a,
  )

  sort_func-Distinct : (s : List A) → Distinct s → Distinct (sort_func s)
  unfolding sort_func
  sort_func-Distinct [] h = tt
  sort_func-Distinct (a ∷ s) h =
      insert_sorted-Distinct a (sort_func s) (contains-sort_func s a ∙ h.0)
        (sort_func-Distinct s h.1)

  All-strict :
      (a : A) (s : List A)
      → contains s a ≡ false
      → All (λ b. o.leq a b ≡ true) s
      → All (λ b. before_order a b ≡ true) s
  All-strict a [] h k = tt
  All-strict a (b ∷ s) h (k, ks) =
      (ground (arith, o.leq_antisymm a b, e.test_iff b a), All-strict a s (ground arith) ks)

  strict_of_Distinct : (s : List A) → Ascending s → Distinct s → StrictlyAscending s
  strict_of_Distinct [] h k = tt
  strict_of_Distinct (a ∷ s) h k = (All-strict a s k.0 h.0, strict_of_Distinct s h.1 k.1)

  All-of_contains {κ} :
      (P : A → Type κ) (s : List A) → ((a : A) → contains s a ≡ true → P a) → All P s
  All-of_contains P [] h = tt
  All-of_contains P (a ∷ s) h =
      (h a (ground (arith, e.test_iff a a)), All-of_contains P s (λ b m. h b (ground arith)))

module _ {ℓ κ} {K : Type ℓ} {V : Type κ} ⦃e : Equality K⦄ where
  contains-entry_keys : (m : Map K V) (k : K) → contains (entry_keys m) k ≡ is_some (lookup k m)
  unfolding entry_keys lookup
  contains-entry_keys [] k = refl
  contains-entry_keys ((j, v) ∷ m) k = ground (arith, contains-entry_keys m k)

  entry_keys-Distinct : (m : Map K V) → HasUniqueKeys m → Distinct (entry_keys m)
  unfolding entry_keys
  entry_keys-Distinct [] h = tt
  entry_keys-Distinct ((j, v) ∷ m) h =
      (contains-entry_keys m j ∙ ap is_some h.0, entry_keys-Distinct m h.1)

module _ {ℓ κ} {E : Type ℓ} {K : Type κ} ⦃e : Equality K⦄ (get_key : E → K) where
  abbrev pub keyed : List E → List (K × E)
  keyed s = map (λ x. (get_key x, x)) s

  last_value-key : (k : K) (s : List E) (x : E) → last_value k (keyed s) ≡ some x → get_key x ≡ k
  unfolding last_value
  last_value-key k [] x h = cc
  last_value-key k (y ∷ s) x h = ground (arith, e.test_iff (get_key y) k, last_value-key k s x)

  is_some-last_value :
      (k : K) (s : List E) → is_some (last_value k (keyed s)) ≡ contains (map get_key s) k
  unfolding last_value
  is_some-last_value k [] = refl
  is_some-last_value k (y ∷ s) = ground (arith, is_some-last_value k s)

  lookup-map_from : (k : K) (s : List E) → lookup k (map_from get_key [] s) ≡ last_value k (keyed s)
  unfolding lookup
  lookup-map_from k s =
      ap (lookup k) (map_from-getter get_key [] s)
      ∙ lookup-getter_map_from k (λ x. (get_key x, x)) [] s
      ∙ ground arith

  module _ (zero_value : E) (m : Map K E) where
    abbrev Found : K → Type (ℓ ⊔ κ)
    Found k = (x : E) × (lookup k m ≡ some x) × (get_key x ≡ k)

    index_or-some : (k : K) (x : E) → lookup k m ≡ some x → index_or zero_value m k ≡ x
    unfolding index_or
    index_or-some k x at_k = ground arith

    Found-keys :
        (ks : List K) → All Found ks → map get_key (map_slice ks (index_or zero_value m)) ≡ ks
    unfolding map_slice
    Found-keys [] h = refl
    Found-keys (k ∷ ks) ((x, at_k, key), h) =
        rw (index_or-some k x at_k) (cc (Found-keys ks h, key))

    Found-values :
        (ks : List K)
        → All Found ks
        → All (λ x. lookup (get_key x) m ≡ some x) (map_slice ks (index_or zero_value m))
    unfolding map_slice
    Found-values [] h = tt
    Found-values (k ∷ ks) ((x, at_k, key), h) =
        rw (index_or-some k x at_k) (rw key at_k, Found-values ks h)

module _ {ℓ κ} {E : Type ℓ} {K : Type κ} ⦃e : Equality K⦄ ⦃o : Ordered K⦄ (get_key : E → K) where
  module _ (range : RangeOrder (K × E)) (zero_value : E) (s : List E) where
    built : Map K E
    built = map_from get_key [] s

    built_unique : HasUniqueKeys built
    unfolding built
    built_unique =
        subst HasUniqueKeys (sym (map_from-getter get_key [] s))
          (getter_map_from-HasUniqueKeys (λ x. (get_key x, x)) [] s tt)

    lookup-built : (k : K) → lookup k built ≡ last_value k (keyed get_key s)
    unfolding built
    lookup-built k = lookup-map_from get_key k s

    sorted_keys : List K
    sorted_keys = sort_func (map_to_list_key range built)

    contains-sorted_keys : (k : K) → contains sorted_keys k ≡ is_some (lookup k built)
    unfolding sorted_keys map_to_list_key
    contains-sorted_keys k =
        contains-sort_func (entry_keys (range.visit built)) k
        ∙ contains-entry_keys (range.visit built) k
        ∙ ap is_some (lookup-visit range k built built_unique)

    sorted_keys-StrictlyAscending : StrictlyAscending sorted_keys
    unfolding sorted_keys map_to_list_key
    sorted_keys-StrictlyAscending =
        strict_of_Distinct (sort_func (entry_keys (range.visit built)))
          (sort_func-Ascending (entry_keys (range.visit built)))
          (sort_func-Distinct (entry_keys (range.visit built)) (
            entry_keys-Distinct (range.visit built) (visit-HasUniqueKeys range built built_unique)))

    All-Found : All (Found get_key zero_value built) sorted_keys
    All-Found =
        All-of_contains (Found get_key zero_value built) sorted_keys
          (λ k m. found k (sym (contains-sorted_keys k) ∙ m))
      where
        found : (k : K) → is_some (lookup k built) ≡ true → Found get_key zero_value built k
        found k h = elim (Option-cases (lookup k built)) [
          | inl missing ↦ absurd (cc (h, missing))
          | inr (x, at_k) ↦ (x, at_k, last_value-key get_key k s x (sym (lookup-built k) ∙ at_k))
        ]

    -- DeduplicateAndSortSliceOfObject returns one element for each key of the slice, the keys in
    -- strictly ascending order, and each element is the last one of the slice with its key. That
    -- holds for every order in which the map's keys are visited.
    pub deduplicate_and_sort_slice_of_object_lem :
        StrictlyAscending
          (map get_key (deduplicate_and_sort_slice_of_object range zero_value s get_key))
        × ((k : K)
            → contains
                (map get_key (deduplicate_and_sort_slice_of_object range zero_value s get_key))
                k
              ≡ contains (map get_key s) k)
        × All
            (λ x. last_value (get_key x) (map (λ y. (get_key y, y)) s) ≡ some x)
            (deduplicate_and_sort_slice_of_object range zero_value s get_key)
    unfolding deduplicate_and_sort_slice_of_object sorted_keys built
    deduplicate_and_sort_slice_of_object_lem = (
      subst StrictlyAscending (sym keys) sorted_keys-StrictlyAscending,
      λ k.
          ap (λ l. contains l k) keys
          ∙ contains-sorted_keys k
          ∙ ap is_some (lookup-built k)
          ∙ is_some-last_value get_key k s,
      rw (← fun_ext (λ x. ap (λ o. o ≡ some x) (lookup-built (get_key x))))
          (Found-values get_key zero_value built sorted_keys All-Found),
    )
      where
        keys : map get_key (map_slice sorted_keys (index_or zero_value built)) ≡ sorted_keys
        keys = Found-keys get_key zero_value built sorted_keys All-Found
