-- ===== src/Collection/Keyed/Sorting.antt =====
-- The two sorting helpers of collection/collection.go: the result ascends strictly and loses nothing.
pub mod Objects
use grpcx.Common.{
  Map, RangeOrder, Equality, eqb, lookup, List, [], ◌∷◌, Bool, true, false, not, ◌&&◌, ◌||◌, ◌≡◌,
  refl, ◌∙◌, sym, ap, Option, none, some, if◌then◌else◌, arith, contains, All, map, Bool-cases, inl,
  inr, HasUniqueKeys, Distinct, lookup-visit, visit-HasUniqueKeys, subst, is_some,
}
use grpcx.Collection.Slices.{map_slice}
use grpcx.Collection.Keyed.{
  Ordered, same_order, before_order, insert_sorted, sort_func, compact_after, compact_func,
  deduplicate_and_sort_slice, deduplicate_and_sort_slice_of_object, map_to_list_key, entry_keys,
  index_or, map_from,
}
use grpcx.Collection.Keyed.Last.{last_value}

module _ {ℓ} {A : Type ℓ} ⦃e : Equality A⦄ ⦃o : Ordered A⦄ where
  -- No element is before its predecessor.
  abbrev pub Ascending : List A → Type 0
  Ascending [] = Unit
  Ascending (a ∷ s) = All (λ b. o.leq a b ≡ true) s × Ascending s

  -- Each element is before all that follow it.
  abbrev pub StrictlyAscending : List A → Type 0
  StrictlyAscending [] = Unit
  StrictlyAscending (a ∷ s) = All (λ b. before_order a b ≡ true) s × StrictlyAscending s

  pub contains-insert_sorted :
      (a : A) (s : List A) (x : A) → contains (insert_sorted a s) x ≡ eqb a x || contains s x
  unfolding insert_sorted
  contains-insert_sorted a [] x = refl
  contains-insert_sorted a (b ∷ s) x = ground (arith, contains-insert_sorted a s x)

  pub contains-sort_func : (s : List A) (x : A) → contains (sort_func s) x ≡ contains s x
  unfolding sort_func
  contains-sort_func [] x = refl
  contains-sort_func (a ∷ s) x =
      contains-insert_sorted a (sort_func s) x ∙ ap (λ b. eqb a x || b) (contains-sort_func s x)

  All-leq :
      (a b : A) (s : List A)
      → o.leq a b ≡ true
      → All (λ c. o.leq b c ≡ true) s
      → All (λ c. o.leq a c ≡ true) s
  All-leq a b [] h k = tt
  All-leq a b (c ∷ s) h (k, ks) = (o.leq_trans a b c h k, All-leq a b s h ks)

  All-insert_sorted :
      (c a : A) (s : List A)
      → o.leq c a ≡ true
      → All (λ b. o.leq c b ≡ true) s
      → All (λ b. o.leq c b ≡ true) (insert_sorted a s)
  unfolding insert_sorted
  All-insert_sorted c a [] h k = (h, tt)
  All-insert_sorted c a (b ∷ s) h k = elim (Bool-cases (o.leq a b)) [
    | inl less ↦ rw less (h, k)
    | inr more ↦ rw more (k.0, All-insert_sorted c a s h k.1)
  ]

  insert_sorted-Ascending : (a : A) (s : List A) → Ascending s → Ascending (insert_sorted a s)
  unfolding insert_sorted
  insert_sorted-Ascending a [] h = (tt, tt)
  insert_sorted-Ascending a (b ∷ s) h = elim (Bool-cases (o.leq a b)) [
    | inl less ↦ rw less ((less, All-leq a b s less h.0), h)
    | inr more ↦
        rw more
          (All-insert_sorted b a s (o.leq_total a b more) h.0, insert_sorted-Ascending a s h.1)
  ]

  pub sort_func-Ascending : (s : List A) → Ascending (sort_func s)
  unfolding sort_func
  sort_func-Ascending [] = tt
  sort_func-Ascending (a ∷ s) = insert_sorted-Ascending a (sort_func s) (sort_func-Ascending s)

  -- compaction

  same_order_eq : (a b : A) → same_order a b ≡ true → a ≡ b
  same_order_eq a b h = ground (arith, o.leq_antisymm a b)

  contains-compact_after :
      (a : A) (s : List A) (x : A)
      → eqb a x || contains (compact_after a s) x ≡ eqb a x || contains s x
  unfolding compact_after
  contains-compact_after a [] x = refl
  contains-compact_after a (b ∷ s) x = elim (Bool-cases (same_order b a)) [
    | inl same ↦
        let equal : b ≡ a = same_order_eq b a same in
        rw same (ground (arith, contains-compact_after b s x))
    | inr other ↦ rw other (ground (arith, contains-compact_after b s x))
  ]

  All-before_order :
      (a b : A) (s : List A)
      → before_order a b ≡ true
      → All (λ c. before_order b c ≡ true) s
      → All (λ c. before_order a c ≡ true) s
  All-before_order a b [] h k = tt
  All-before_order a b (c ∷ s) h (k, ks) =
      (ground (arith, o.leq_trans a b c, o.leq_trans c a b), All-before_order a b s h ks)

  -- What follows an element in ascending order, compacted after it, is strictly above it.
  compact_after-StrictlyAscending :
      (a : A) (s : List A)
      → All (λ b. o.leq a b ≡ true) s
      → Ascending s
      → All (λ b. before_order a b ≡ true) (compact_after a s)
        × StrictlyAscending (compact_after a s)
  unfolding compact_after
  compact_after-StrictlyAscending a [] h k = (tt, tt)
  compact_after-StrictlyAscending a (b ∷ s) h k =
      let (above, rest) = compact_after-StrictlyAscending b s k.0 k.1 in
      elim (Bool-cases (same_order b a)) [
        | inl same ↦ rw same (
          subst (λ c. All (λ d. before_order c d ≡ true) (compact_after b s))
              (same_order_eq b a same) above,
          rest,
        )
        | inr other ↦
            let here : before_order a b ≡ true = ground arith in
            rw other ((here, All-before_order a b (compact_after b s) here above), (above, rest))
      ]

  compact_func-StrictlyAscending : (s : List A) → Ascending s → StrictlyAscending (compact_func s)
  unfolding compact_func
  compact_func-StrictlyAscending [] h = tt
  compact_func-StrictlyAscending (a ∷ s) h = compact_after-StrictlyAscending a s h.0 h.1

  contains-compact_func : (s : List A) (x : A) → contains (compact_func s) x ≡ contains s x
  unfolding compact_func
  contains-compact_func [] x = refl
  contains-compact_func (a ∷ s) x = contains-compact_after a s x

  -- DeduplicateAndSortSlice returns the elements of the argument in strictly ascending order, so
  -- each of them once.
  pub deduplicate_and_sort_slice_lem :
      (s : List A)
      → StrictlyAscending (deduplicate_and_sort_slice s)
        × ((x : A) → contains (deduplicate_and_sort_slice s) x ≡ contains s x)
  unfolding deduplicate_and_sort_slice
  deduplicate_and_sort_slice_lem s = (
    compact_func-StrictlyAscending (sort_func s) (sort_func-Ascending s),
    λ x. contains-compact_func (sort_func s) x ∙ contains-sort_func s x,
  )
