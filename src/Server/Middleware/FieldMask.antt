-- ===== src/Server/Middleware/FieldMask.antt =====
-- What PatchFieldMaskMiddleware of server/middleware.go makes of a PATCH.
use mathlib.Core.List.{Permᴰ}
use grpcx.Common.{
  String, List, [], ◌∷◌, ◌≡◌, ◌≢◌, refl, sym, subst, Option, none, some, Bool, true, false,
  if◌then◌else◌, Option-cases, inl, inr, str_eq, string_equality, eq_iff, lookup, store,
  lookup-store, RangeOrder, not, ◌||◌, arith,
}
use grpcx.Common.Text.{join}
use grpcx.Server.Middleware.{PatchRequest, patch_field_mask_middleware, first_of}

module _ (object_keys : String → Option (List String)) (sort_strings : List String → List String)
    (sort-perm : (xs ys : List String) → Permᴰ xs ys → sort_strings xs ≡ sort_strings ys) where
  -- the request with a mask of the keys
  abbrev pub masked : PatchRequest → List String → PatchRequest
  masked r keys = record r {
    query = store "update_mask" (join (sort_strings keys) "," ∷ []) r.query;
  }

  abbrev pub masked_or : PatchRequest → Option (List String) → PatchRequest
  masked_or r none = r
  masked_or r (some keys) = masked r keys

  -- the middleware leaves the request alone
  abbrev pub skips : PatchRequest → Bool
  skips r =
      not (str_eq r.patch_method "PATCH")
      || not (str_eq (first_of (lookup "update_mask" r.query)) "")
      || not r.readable
      || str_eq r.patch_body ""

  visited :
      (range : RangeOrder String) (r : PatchRequest)
      → patch_field_mask_middleware object_keys sort_strings range r
        ≡ (if skips r then r else masked_or r (object_keys r.patch_body))
  unfolding patch_field_mask_middleware
  visited range r = elim (Option-cases (object_keys r.patch_body)) [
    | inl q ↦ ground (arith, q)
    | inr (keys, q) ↦ ground (arith, q, sort-perm keys (range.visit keys) (range.visit-perm keys))
  ]

  -- what a request keeps
  abbrev pub Keeps : PatchRequest → PatchRequest → Type 0
  Keeps r r' =
      (r'.patch_method ≡ r.patch_method)
      × (r'.patch_body ≡ r.patch_body)
      × ((k : String) → k ≢ "update_mask" → lookup k r'.query ≡ lookup k r.query)

  masked_or-Keeps :
      (r : PatchRequest) (b : Bool) (o : Option (List String))
      → Keeps r (if b then r else masked_or r o)
  masked_or-Keeps r true o = (refl, refl, λ k h. refl)
  masked_or-Keeps r false none = (refl, refl, λ k h. refl)
  masked_or-Keeps r false (some keys) = (
    refl,
    refl,
    λ k h. ground (
      arith,
      lookup-store "update_mask" k (join (sort_strings keys) "," ∷ []) r.query,
      eq_iff "update_mask" k,
      h,
    ),
  )

  -- A PATCH without an update_mask of its own, whose body can be read and is a JSON object, goes on with
  -- the keys of the object, sorted and joined by commas, as its update_mask, whatever the order in
  -- which they are visited; every other request goes on as it came. Method, body and the other query
  -- values are kept.
  pub patch_field_mask_middleware_lem :
      (range : RangeOrder String) (r : PatchRequest)
      → let r' = patch_field_mask_middleware object_keys sort_strings range r in
        (r' ≡ (if skips r then r else masked_or r (object_keys r.patch_body))) × Keeps r r'
  patch_field_mask_middleware_lem range r = (
    visited range r,
    subst (Keeps r) (sym (visited range r))
        (masked_or-Keeps r (skips r) (object_keys r.patch_body)),
  )
