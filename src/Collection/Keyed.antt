-- ===== src/Collection/Keyed.antt =====
-- The helpers of collection/collection.go that build maps, and those that sort.
pub mod Last
pub mod Sorting
use grpcx.Common.{
  Map, RangeOrder, Equality, lookup, store, List, [], ◌∷◌, ◌++◌, Bool, true, false, not, ◌&&◌, ◌≡◌,
  Option, none, some, if◌then◌else◌,
}
use grpcx.Collection.Slices.{map_slice}

module _ {ℓ κ ι} {K : Type ℓ} {T : Type κ} {V : Type ι} ⦃e : Equality K⦄ where
  unfoldable pub getter_map_from : (T → K × V) → Map K V → List T → Map K V
  getter_map_from get_key_value res [] = res
  getter_map_from get_key_value res (x ∷ s) =
      let (key, value) = get_key_value x in getter_map_from get_key_value (store key value res) s

  unfoldable pub list_to_getter_map : List T → (T → K × V) → Map K V
  unfolding getter_map_from
  list_to_getter_map s get_key_value = getter_map_from get_key_value [] s

module _ {ℓ κ} {K : Type ℓ} {T : Type κ} ⦃e : Equality K⦄ where
  unfoldable pub map_from : (T → K) → Map K T → List T → Map K T
  map_from get_key res [] = res
  map_from get_key res (val ∷ vals) = map_from get_key (store (get_key val) val res) vals

  unfoldable pub list_to_map : List T → (T → K) → Map K T
  unfolding map_from
  list_to_map vals get_key = map_from get_key [] vals

-- slices.AppendSeq over maps.Keys and maps.Values, which visit the entries in the order of a range
-- statement
module _ {ℓ κ} {K : Type ℓ} {V : Type κ} where
  unfoldable pub entry_keys : Map K V → List K
  entry_keys [] = []
  entry_keys ((k, v) ∷ m) = k ∷ entry_keys m

  entry_values : Map K V → List V
  entry_values [] = []
  entry_values ((k, v) ∷ m) = v ∷ entry_values m

  module _ (range : RangeOrder (K × V)) where
    unfoldable pub map_to_list_key : Map K V → List K
    unfolding entry_keys
    map_to_list_key m = entry_keys (range.visit m)

    unfoldable pub map_to_list_value : Map K V → List V
    unfolding entry_values
    map_to_list_value m = entry_values (range.visit m)

-- The constraint cmp.Ordered, without NaN: `leq a b` is cmp.Compare(a, b) <= 0.
pub record Ordered {ℓ} (A : Type ℓ) : Type ℓ where
  pub leq : A → A → Bool
  pub leq_total : (a b : A) → leq a b ≡ false → leq b a ≡ true
  pub leq_trans : (a b c : A) → leq a b ≡ true → leq b c ≡ true → leq a c ≡ true
  pub leq_antisymm : (a b : A) → leq a b ≡ true → leq b a ≡ true → a ≡ b

module _ {ℓ} {A : Type ℓ} ⦃o : Ordered A⦄ where
  -- cmp.Compare(a, b) == 0
  abbrev pub same_order : A → A → Bool
  same_order a b = o.leq a b && o.leq b a

  -- cmp.Compare(a, b) < 0
  abbrev pub before_order : A → A → Bool
  before_order a b = o.leq a b && not (o.leq b a)

  unfoldable pub insert_sorted : A → List A → List A
  insert_sorted a [] = a ∷ []
  insert_sorted a (b ∷ s) = if o.leq a b then a ∷ b ∷ s else b ∷ insert_sorted a s

  -- slices.SortFunc by cmp.Compare: elements that compare equal are equal, so there is one sorted
  -- order, and how the library reaches it does not show
  unfoldable pub sort_func : List A → List A
  unfolding insert_sorted
  sort_func [] = []
  sort_func (a ∷ s) = insert_sorted a (sort_func s)

  -- slices.CompactFunc: an element that equals the one before it is dropped
  compact_after : A → List A → List A
  compact_after previous [] = []
  compact_after previous (a ∷ s) =
      if same_order a previous then compact_after a s else a ∷ compact_after a s

  compact_func : List A → List A
  unfolding compact_after
  compact_func [] = []
  compact_func (a ∷ s) = a ∷ compact_after a s

  unfoldable pub deduplicate_and_sort_slice : List A → List A
  unfolding sort_func compact_func
  deduplicate_and_sort_slice s = compact_func (sort_func s)

module _ {ℓ κ} {E : Type ℓ} {K : Type κ} ⦃e : Equality K⦄ where
  -- `dedup[k]`, with the zero value of E for a missing key
  unfoldable pub index_or : E → Map K E → K → E
  index_or zero_value m k = elim (lookup k m) [ none ↦ zero_value | some x ↦ x ]

module _ {ℓ κ} {E : Type ℓ} {K : Type κ} ⦃e : Equality K⦄ ⦃o : Ordered K⦄ where
  module _ (range : RangeOrder (K × E)) (zero_value : E) where
    unfoldable pub deduplicate_and_sort_slice_of_object : List E → (E → K) → List E
    unfolding map_from sort_func index_or map_to_list_key
    deduplicate_and_sort_slice_of_object s get_key =
        let dedup = map_from get_key [] s in
        let keys = sort_func (map_to_list_key range dedup) in
        map_slice keys (index_or zero_value dedup)
