-- ===== src/Collection/Tests.antt =====
-- Runs and instances of the theorems on sets, slices and keyed maps.
use mathlib.Core.List.Permᴰ
use grpcx.Common.{
  ℕ, ◌+◌, ◌%◌, store, List, [], ◌∷◌, ◌≡◌, refl, Bool, true, false, not, ◌&&◌, ◌||◌, RangeOrder,
  nat_equality, eqb, arith, contains, leb, All, map, some, ltb, lookup,
}
use grpcx.Collection.Set.{Set, add, new_set, remove, set_contains, union, intersect}
use grpcx.Collection.Set.Laws.{membership}
use grpcx.Collection.Slices.{deduplicate_slice, map_slice}
use grpcx.Collection.Keyed.{
  Ordered, deduplicate_and_sort_slice, deduplicate_and_sort_slice_of_object,
}
use grpcx.Collection.Keyed.Last.{last_value}
use grpcx.Collection.Keyed.Sorting.{StrictlyAscending}
use grpcx.Collection.Keyed.Sorting.Objects.{deduplicate_and_sort_slice_of_object_lem}

leb_total : (a b : ℕ) → leb a b ≡ false → leb b a ≡ true
leb_total a b h = ground arith

leb_trans : (a b c : ℕ) → leb a b ≡ true → leb b c ≡ true → leb a c ≡ true
leb_trans a b c h k = ground arith

leb_antisymm : (a b : ℕ) → leb a b ≡ true → leb b a ≡ true → a ≡ b
leb_antisymm a b h k = ground arith

instance abbrev nat_ordered : Ordered ℕ
nat_ordered = record {
  leq = leb;
  leq_total = leb_total;
  leq_trans = leb_trans;
  leq_antisymm = leb_antisymm;
}

-- An iteration in the order of insertion.
abbrev in_order {ℓ} : {A : Type ℓ} → RangeOrder A
in_order = record { visit = λ xs. xs; visit-perm = Permᴰ.refl }

abbrev sample : List ℕ
sample = 3 ∷ 1 ∷ 3 ∷ 2 ∷ 1 ∷ []

dedup_test : deduplicate_slice sample ≡ 3 ∷ 1 ∷ 2 ∷ []
unfolding deduplicate_slice add set_contains lookup store
dedup_test = refl

sort_test : deduplicate_and_sort_slice sample ≡ 1 ∷ 2 ∷ 3 ∷ []
unfolding deduplicate_and_sort_slice
sort_test = refl

objects_test :
    deduplicate_and_sort_slice_of_object in_order 0 (13 ∷ 21 ∷ 23 ∷ []) (λ x. x % 10) ≡ 21 ∷ 23 ∷ []
unfolding deduplicate_and_sort_slice_of_object lookup store map_slice
objects_test = refl

abbrev nothing : Set ℕ
nothing = []

membership_example :
    (set_contains {T = ℕ} (add 3 (new_set sample)) 4
      ≡ eqb {A = ℕ} 3 4 || set_contains {T = ℕ} (new_set sample) 4)
    × (set_contains {T = ℕ} (remove 3 (new_set sample)) 4
        ≡ not (eqb {A = ℕ} 3 4) && set_contains {T = ℕ} (new_set sample) 4)
    × (set_contains {T = ℕ} (new_set (4 ∷ [])) 4 ≡ contains {A = ℕ} (4 ∷ []) 4)
    × (set_contains {T = ℕ} (union in_order (new_set sample) nothing) 4
        ≡ set_contains {T = ℕ} (new_set sample) 4 || set_contains {T = ℕ} nothing 4)
    × (set_contains {T = ℕ} (intersect in_order (new_set sample) nothing) 4
        ≡ set_contains {T = ℕ} (new_set sample) 4 && set_contains {T = ℕ} nothing 4)
membership_example = membership in_order (new_set sample) nothing 3 4 (4 ∷ [])

abbrev one_member : Set ℕ
one_member = (7, tt) ∷ []

abbrev add_small : ℕ → ℕ → ℕ × Bool
add_small x acc = (x + acc, ltb x 3)

abbrev last_digit : ℕ → ℕ
last_digit x = x % 10

abbrev by_digit : List ℕ
by_digit = deduplicate_and_sort_slice_of_object in_order 0 (13 ∷ 21 ∷ 23 ∷ []) last_digit

deduplicate_and_sort_slice_of_object_lem_example :
    StrictlyAscending (map last_digit by_digit)
    × ((k : ℕ)
        → contains (map last_digit by_digit) k ≡ contains (map last_digit (13 ∷ 21 ∷ 23 ∷ [])) k)
    × All
        (λ x. last_value (last_digit x) (map (λ y. (last_digit y, y)) (13 ∷ 21 ∷ 23 ∷ [])) ≡ some x)
        by_digit
deduplicate_and_sort_slice_of_object_lem_example =
    deduplicate_and_sort_slice_of_object_lem last_digit in_order 0 (13 ∷ 21 ∷ 23 ∷ [])
