-- ===== src/Errs/Metadata.antt =====
-- The metadata of an error: WithMetadata, and the two loops that format it and read it back.
use mathlib.Core.Option
use grpcx.Common.{
  ℕ, suc, ◌==◌, length, String, [], ◌∷◌, ◌≡◌, refl, ◌∙◌, Option, none, some, Map, lookup, store,
  false, if◌then◌else◌, str_eq, string_equality, lookup-store, HasUniqueKeys, store-HasUniqueKeys,
  eq_iff, arith, lookup-visit, visit-HasUniqueKeys,
}
use grpcx.Platform.{Platform}
use grpcx.Errs.{Error, entries_of, with_metadata, put_formatted, to_string_map, put_any}

pub suc-ne-zero : (n : ℕ) → (suc n == 0) ≡ false
suc-ne-zero n = ground arith

module _ (P : Platform) where
  open P use {Any, sprint, of_string, any_order, string_order}

  abbrev pub metadata_at : Error P → String → Option Any
  metadata_at e k = lookup k (entries_of P e.metadata)

  abbrev pub IsWellFormed : Error P → Type 0
  IsWellFormed e = HasUniqueKeys (entries_of P e.metadata)

  -- WithMetadata sets one key of the metadata, keeps the others and the rest of the error, and keeps
  -- the keys of the map distinct; it does so on an error that has no metadata yet as well.
  pub with_metadata_lem :
      (e : Error P) (key k : String) (value : Any)
      → (metadata_at (with_metadata P e key value) k
          ≡ (if str_eq key k then some value else metadata_at e k))
        × ((with_metadata P e key value).status_code ≡ e.status_code)
        × ((with_metadata P e key value).code ≡ e.code)
        × ((with_metadata P e key value).message ≡ e.message)
        × (IsWellFormed e → IsWellFormed (with_metadata P e key value))
  unfolding with_metadata
  with_metadata_lem e key k value = (
    lookup-store key k value (entries_of P e.metadata),
    refl,
    refl,
    refl,
    store-HasUniqueKeys key value (entries_of P e.metadata),
  )

  abbrev or_else : Option String → Option String → Option String
  or_else none o = o
  or_else (some v) o = some v

  lookup-put_formatted :
      (j : String) (out : Map String String) (m : Map String Any)
      → HasUniqueKeys m
      → lookup j (put_formatted P out m) ≡ or_else (Option.map sprint (lookup j m)) (lookup j out)
  unfolding put_formatted lookup
  lookup-put_formatted j out [] h = refl
  lookup-put_formatted j out ((k, v) ∷ m) h = ground (
    arith,
    eq_iff k j,
    lookup-put_formatted j (store k (sprint v) out) m h.1,
    lookup-store k j (sprint v) out,
  )

  put_formatted-HasUniqueKeys :
      (out : Map String String) (m : Map String Any)
      → HasUniqueKeys out
      → HasUniqueKeys (put_formatted P out m)
  unfolding put_formatted
  put_formatted-HasUniqueKeys out [] h = h
  put_formatted-HasUniqueKeys out ((k, v) ∷ m) h =
      put_formatted-HasUniqueKeys (store k (sprint v) out) m
        (store-HasUniqueKeys k (sprint v) out h)

  pub lookup-to_string_map :
      (j : String) (m : Map String Any)
      → HasUniqueKeys m
      → lookup j (to_string_map P m) ≡ Option.map sprint (lookup j m)
  unfolding to_string_map
  lookup-to_string_map j [] h = unfold lookup in refl
  lookup-to_string_map j ((k, v) ∷ m) h =
      let all : Map String Any = (k, v) ∷ m in
      rw (suc-ne-zero (length m)) (
        lookup-put_formatted j [] (any_order.visit all) (visit-HasUniqueKeys any_order all h)
        ∙ unfold lookup in ground (arith, lookup-visit any_order j all h))

  pub to_string_map-HasUniqueKeys : (m : Map String Any) → HasUniqueKeys (to_string_map P m)
  unfolding to_string_map
  to_string_map-HasUniqueKeys [] = tt
  to_string_map-HasUniqueKeys ((k, v) ∷ m) =
      rw (suc-ne-zero (length m)) (put_formatted-HasUniqueKeys [] (any_order.visit ((k, v) ∷ m)) tt)

  lookup-put_any :
      (j : String) (out : Map String Any) (m : Map String String)
      → HasUniqueKeys m
      → lookup j (put_any P out m)
        ≡ elim (lookup j m) [ none ↦ lookup j out | some v ↦ some (of_string v) ]
  unfolding put_any lookup
  lookup-put_any j out [] h = refl
  lookup-put_any j out ((k, v) ∷ m) h = ground (
    arith,
    eq_iff k j,
    lookup-put_any j (store k (of_string v) out) m h.1,
    lookup-store k j (of_string v) out,
  )

  -- What Parse reads back of the metadata that toStringMap wrote.
  pub lookup-put_any-to_string_map :
      (j : String) (m : Map String Any)
      → HasUniqueKeys m
      → lookup j (put_any P [] (string_order.visit (to_string_map P m)))
        ≡ Option.map (λ v. of_string (sprint v)) (lookup j m)
  lookup-put_any-to_string_map j m h =
      let out : Map String String = to_string_map P m in
      let unique : HasUniqueKeys out = to_string_map-HasUniqueKeys m in
      lookup-put_any j [] (string_order.visit out) (visit-HasUniqueKeys string_order out unique)
      ∙ unfold lookup in
        ground (arith, lookup-visit string_order j out unique, lookup-to_string_map j m h)
