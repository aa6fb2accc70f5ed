-- ===== src/Collection/Keyed/Last.antt =====
-- The maps that collection/collection.go builds from slices: the last element of a key wins.
use grpcx.Common.{
  Map, Equality, eqb, lookup, store, List, [], ◌∷◌, ◌≡◌, refl, ◌∙◌, Option, none, some,
  if◌then◌else◌, lookup-store, arith, HasUniqueKeys, store-HasUniqueKeys, map,
}
use grpcx.Collection.Keyed.{getter_map_from, list_to_getter_map, map_from, list_to_map}

abbrev pub or_else {ℓ} : {V : Type ℓ} → Option V → Option V → Option V
or_else none o = o
or_else (some v) o = some v

module _ {ℓ κ} {K : Type ℓ} {V : Type κ} ⦃e : Equality K⦄ where
  -- The value of the last entry with a key.
  unfoldable pub last_value : K → List (K × V) → Option V
  last_value k [] = none
  last_value k ((j, v) ∷ s) = elim (last_value k s) [
    | none ↦ if eqb j k then some v else none
    | some w ↦ some w
  ]

module _ {ℓ κ ι} {K : Type ℓ} {T : Type κ} {V : Type ι} ⦃e : Equality K⦄ where
  pub lookup-getter_map_from :
      (k : K) (f : T → K × V) (res : Map K V) (s : List T)
      → lookup k (getter_map_from f res s) ≡ or_else (last_value k (map f s)) (lookup k res)
  unfolding getter_map_from last_value
  lookup-getter_map_from k f res [] = refl
  lookup-getter_map_from k f res (x ∷ s) =
      lookup-getter_map_from k f (store (f x).0 (f x).1 res) s
      ∙ rw (lookup-store (f x).0 k (f x).1 res) (ground arith)

  pub getter_map_from-HasUniqueKeys :
      (f : T → K × V) (res : Map K V) (s : List T)
      → HasUniqueKeys res
      → HasUniqueKeys (getter_map_from f res s)
  unfolding getter_map_from
  getter_map_from-HasUniqueKeys f res [] h = h
  getter_map_from-HasUniqueKeys f res (x ∷ s) h =
      getter_map_from-HasUniqueKeys f (store (f x).0 (f x).1 res) s
        (store-HasUniqueKeys (f x).0 (f x).1 res h)

  -- ListToGetterMap maps each key to the value of the last element that has it, and no other key to
  -- anything.
  pub list_to_getter_map_lem :
      (s : List T) (f : T → K × V) (k : K)
      → (lookup k (list_to_getter_map s f) ≡ last_value k (map f s))
        × HasUniqueKeys (list_to_getter_map s f)
  unfolding list_to_getter_map lookup
  list_to_getter_map_lem s f k =
      (lookup-getter_map_from k f [] s ∙ ground arith, getter_map_from-HasUniqueKeys f [] s tt)

module _ {ℓ κ} {K : Type ℓ} {T : Type κ} ⦃e : Equality K⦄ where
  pub map_from-getter :
      (get_key : T → K) (res : Map K T) (s : List T)
      → map_from get_key res s ≡ getter_map_from (λ x. (get_key x, x)) res s
  unfolding map_from getter_map_from
  map_from-getter get_key res [] = refl
  map_from-getter get_key res (x ∷ s) = map_from-getter get_key (store (get_key x) x res) s

  -- ListToMap is ListToGetterMap with the element itself for the value.
  pub list_to_map_lem :
      (s : List T) (get_key : T → K)
      → list_to_map s get_key ≡ list_to_getter_map s (λ x. (get_key x, x))
  unfolding list_to_map list_to_getter_map
  list_to_map_lem s get_key = map_from-getter get_key [] s
