-- ===== src/Server/Headers.antt =====
-- The SetMetadata functions of server/gateway.go, which turn request headers into gRPC metadata, and
-- CORSConfig. A nil metadata is `none`.
pub mod Authorization
mod Tests
use Prim.Native.Char.{Char}
use grpcx.Common.{
  ℕ, String, List, [], ◌∷◌, ◌≡◌, ◌≢◌, refl, ◌∙◌, ap, Option, none, some, Bool, if◌then◌else◌,
  str_eq, string_equality, eq_iff, arith, not, length, ◌==◌,
}
use grpcx.Common.Text.{◌+++◌, trim_prefix, trim_prefix-append}
use grpcx.Common.Result.{success}
use grpcx.Platform.{Platform}
use grpcx.Context.{MetadataPackage, Context, new_incoming}
use grpcx.Http.{HttpHeader, header_get}
use grpcx.Rpcctx.{values, get_token_from_context, get_language_from_context, primary_tag}

module _ (M : MetadataPackage) where
  open M use {MD, pairs, empty_md, get, get-pairs, copy, get-copy, pairs-HasLowerKeys}

  -- `pattern` is what runtime.HTTPPathPattern finds; metadata.New of a map with one entry is Pairs
  unfoldable pub set_metadata_pattern : Option String → MD
  set_metadata_pattern none = empty_md
  set_metadata_pattern (some pattern) = pairs "pattern" pattern

  module _ (canonical : String → String) (cookie_of : HttpHeader → String → Option String) where
    -- `if h := r.Header.Get(header); h != "" { return metadata.Pairs(key, h) }; return nil`
    forward : String → String → HttpHeader → Option MD
    forward key name h =
        let value = header_get canonical h name in
        if not (str_eq value "") then some (pairs key value) else none

    unfoldable pub set_metadata_authorization : HttpHeader → Option MD
    unfolding forward
    set_metadata_authorization h = elim (cookie_of h "session_token") [
      | some cookie ↦ some (pairs "authorization" ("Bearer " +++ cookie))
      | none ↦ forward "authorization" "Authorization" h
    ]

    unfoldable pub set_metadata_api_key : HttpHeader → Option MD
    unfolding forward
    set_metadata_api_key h = forward "x-api-key" "X-API-Key" h

    unfoldable pub set_metadata_cookie : HttpHeader → Option MD
    unfolding forward
    set_metadata_cookie h = forward "cookie" "Cookie" h

    unfoldable pub set_metadata_language : HttpHeader → Option MD
    unfolding forward
    set_metadata_language h = forward "accept-language" "Accept-Language" h

    get-copy_pairs : (k v : String) → get (copy (pairs k v)) k ≡ v ∷ []
    get-copy_pairs k v = get-copy (pairs k v) k (pairs-HasLowerKeys k v) ∙ get-pairs k v

    -- The language of an RPC through the gateway is the primary tag of the Accept-Language header; a
    -- request without that header sets no metadata for it.
    pub set_metadata_language_lem :
        (lower : Char → Char) (ctx : Context M) (h : HttpHeader)
        → (header_get canonical h "Accept-Language" ≢ ""
            → (md : MD) × (set_metadata_language h ≡ some md)
              × (get_language_from_context M lower (new_incoming M ctx md)
                  ≡ primary_tag M lower (header_get canonical h "Accept-Language")))
          × (header_get canonical h "Accept-Language" ≡ "" → set_metadata_language h ≡ none)
    unfolding set_metadata_language forward get_language_from_context
    set_metadata_language_lem lower ctx h = (
      λ given. (
        pairs "accept-language" (header_get canonical h "Accept-Language"),
        ground (arith, eq_iff (header_get canonical h "Accept-Language") ""),
        rw
            (
              get-copy_pairs "accept-language" (header_get canonical h "Accept-Language"),
              get_language_from_context,
            )
            refl,
      ),
      λ blank. ground (arith, eq_iff (header_get canonical h "Accept-Language") ""),
    )

-- CORSConfig, and the cors.Options of the cors package with the same fields
pub record CorsConfig : Type 0 where
  pub allowed_origins : List String
  pub allowed_methods : List String
  pub allowed_headers : List String
  pub exposed_headers : List String
  pub allow_credentials : Bool
  pub options_passthrough : Bool
  pub max_age : ℕ
  pub debug : Bool

abbrev pub default_methods : List String
default_methods = "DELETE" ∷ "GET" ∷ "PATCH" ∷ "POST" ∷ "PUT" ∷ "OPTIONS" ∷ []

abbrev pub default_headers : List String
default_headers = "Accept" ∷ "Authorization" ∷ "Content-Type" ∷ "Origin" ∷ "X-Requested-With" ∷ []

abbrev or_default : List String → List String → List String
or_default values default_values = if length values == 0 then default_values else values

-- toOptions, where the options are a CorsConfig again
unfoldable pub to_options : CorsConfig → CorsConfig
to_options c = record c {
  allowed_methods = or_default c.allowed_methods default_methods;
  allowed_headers = or_default c.allowed_headers default_headers;
}
