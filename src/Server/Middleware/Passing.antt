-- ===== src/Server/Middleware/Passing.antt =====
-- The cache of the header middleware.
use grpcx.Common.{
  String, List, [], ◌∷◌, ◌≡◌, refl, ◌∙◌, ap, sym, some, Map, lookup, store, lookup-store,
  RangeOrder, Bool, true, if◌then◌else◌, str_eq, string_equality, eq_iff, Option-cases, Bool-cases,
  inl, inr,
}
use grpcx.Common.Text.{◌+++◌}
use grpcx.Http.{HttpHeader}
use grpcx.Server.Middleware.{
  metadata_header_prefix, set_header, pass_header, pass_headers, passing_header_middleware,
}

some_injective : {s t : String} → some s ≡ some t → s ≡ t
some_injective h = cc

module _ (canonical : String → String) (decide : String → Bool) where
  -- The header without a cache: each entry as it is, and under the prefix if it passes.
  abbrev pub passed : HttpHeader → List (String × List String) → HttpHeader
  passed h [] = h
  passed h ((k, v) ∷ entries) =
      let kept = set_header canonical h k v in
      passed (if decide k then set_header canonical kept (metadata_header_prefix +++ k) v else kept)
        entries

  -- The cache has the prefixed key of headers that pass, and nothing else.
  abbrev pub IsSound : Map String String → Type 0
  IsSound cache =
      (k j : String)
      → lookup k cache ≡ some j
      → (j ≡ (metadata_header_prefix +++ k)) × (decide k ≡ true)

  record Step (h : HttpHeader) (k : String) (v : List String)
      (after : Map String String × HttpHeader) : Type 0 where
    sound : IsSound after.0
    header : after.1 ≡ (
        if decide k
        then set_header canonical (set_header canonical h k v) (metadata_header_prefix +++ k) v
        else set_header canonical h k v)

  stored-IsSound :
      (cache : Map String String) (k : String)
      → IsSound cache
      → decide k ≡ true
      → IsSound (store k (metadata_header_prefix +++ k) cache)
  stored-IsSound cache k s passes i j h = elim (Bool-cases (str_eq k i)) [
    | inl same ↦
        let found : some (metadata_header_prefix +++ k) ≡ some j =
          rw same at (sym (lookup-store k i (metadata_header_prefix +++ k) cache) ∙ h) in
        let e : k ≡ i = (eq_iff k i).0 same in
        (
          sym (some_injective found) ∙ ap (λ t. metadata_header_prefix +++ t) e,
          ap decide (sym e) ∙ passes,
        )
    | inr other ↦
        s i j (rw other at (sym (lookup-store k i (metadata_header_prefix +++ k) cache) ∙ h))
  ]

  pass_header-Step :
      (cache : Map String String) (h : HttpHeader) (k : String) (v : List String)
      → IsSound cache
      → Step h k v (pass_header canonical decide (cache, h) k v)
  unfolding pass_header
  pass_header-Step cache h k v s = elim (Option-cases (lookup k cache)) [
    | inr (j, there) ↦
        let (key, passes) = s k j there in
        rw (there, pass_header)
          (record {
            sound = s;
            header =
                rw passes (ap (λ t. set_header canonical (set_header canonical h k v) t v) key);
          })
    | inl missing ↦ elim (Bool-cases (decide k)) [
      | inl passes ↦
          rw (missing, passes, pass_header)
            (record { sound = stored-IsSound cache k s passes; header = rw passes refl })
      | inr stays ↦ rw (missing, stays, pass_header) (record { sound = s; header = rw stays refl })
    ]
  ]

  pass_headers-IsSound :
      (cache : Map String String) (h : HttpHeader) (entries : List (String × List String))
      → IsSound cache
      → IsSound (pass_headers canonical decide (cache, h) entries).0
        × ((pass_headers canonical decide (cache, h) entries).1 ≡ passed h entries)
  unfolding pass_headers
  pass_headers-IsSound cache h [] s = (s, refl)
  pass_headers-IsSound cache h ((k, v) ∷ entries) s =
      let one = pass_header-Step cache h k v s in
      let after = pass_header canonical decide (cache, h) k v in
      let (sound, header) = pass_headers-IsSound after.0 after.1 entries one.sound in
      (sound, header ∙ ap (λ t. passed t entries) one.header)

  -- The cache changes nothing: with any cache that earlier requests have left, the header that goes on
  -- is the one that a run without a cache gives, and the cache is still sound.
  pub passing_header_middleware_lem :
      (range : RangeOrder (String × List String)) (cache : Map String String) (header : HttpHeader)
      → IsSound cache
      → IsSound (passing_header_middleware canonical decide range cache header).0
        × ((passing_header_middleware canonical decide range cache header).1
            ≡ passed [] (range.visit header))
  unfolding passing_header_middleware
  passing_header_middleware_lem range cache header s =
      pass_headers-IsSound cache [] (range.visit header) s
