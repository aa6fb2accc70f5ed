-- ===== src/Server/Middleware.antt =====
-- The HTTP middlewares of server/middleware.go: headers that pass to gRPC, the log of a request, and
-- the field mask of a PATCH.
pub mod Passing
pub mod Recovery
pub mod FieldMask
use grpcx.Common.{
  ℕ, String, List, [], ◌∷◌, ◌++◌, ◌≡◌, Option, none, some, Map, lookup, store, RangeOrder, Bool,
  true, false, if◌then◌else◌, str_eq, string_equality, not, ◌||◌, map,
}
use grpcx.Common.Text.{◌+++◌, join}
use grpcx.Http.{HttpHeader, header_add, write_header, write_body}
use grpcx.Server.Logging.{wrap_response_writer, status_write_header, request_level, is_quiet_path}
use grpcx.Server.Endpoints.{
  Endpoint, Served, header_call, LogLine, panic_line, request_line, pass_on, blank_writer,
}

-- runtime.MetadataHeaderPrefix
abbrev pub metadata_header_prefix : String
metadata_header_prefix = "Grpc-Metadata-"

module _ (canonical : String → String) where
  unfoldable pub set_header : HttpHeader → String → List String → HttpHeader
  set_header header key [] = header
  set_header header key (v ∷ values) = set_header (header_add canonical header key v) key values

  module _ (decide : String → Bool) where
    -- one iteration of the loop of createPassingHeaderMiddleware: the cache and the new header
    unfoldable pub pass_header :
        Map String String × HttpHeader → String → List String → Map String String × HttpHeader
    unfolding set_header
    pass_header (cache, new_header) k v =
        let kept = set_header new_header k v in
        elim (lookup k cache) [
          | some new_key ↦ (cache, set_header kept new_key v)
          | none ↦
              let prefixed = metadata_header_prefix +++ k in
              if decide k
              then (store k prefixed cache, set_header kept prefixed v)
              else (cache, kept)
        ]

    unfoldable pub pass_headers :
        Map String String × HttpHeader
        → List (String × List String)
        → Map String String × HttpHeader
    unfolding pass_header
    pass_headers state [] = state
    pass_headers state ((k, v) ∷ entries) = pass_headers (pass_header state k v) entries

    -- What the middleware does to the header of a request, with its cache before and afterwards.
    unfoldable pub passing_header_middleware :
        RangeOrder (String × List String)
        → Map String String
        → HttpHeader
        → Map String String × HttpHeader
    unfolding pass_headers
    passing_header_middleware range cache header = pass_headers (cache, []) (range.visit header)

module _ (canonical : String → String) (range : RangeOrder (String × List String)) where
  -- createPassingHeaderMiddleware as a middleware, with the cache that earlier requests have left
  unfoldable pub create_passing_header_middleware :
      Map String String → (String → Bool) → Endpoint → Endpoint
  unfolding passing_header_middleware
  create_passing_header_middleware cache decide next r =
      next
        (record r { header = (passing_header_middleware canonical decide range cache r.header).1 })

-- the deferred function: where the handler panicked, the panic ends here, with 500 and a line
unfoldable pub recovered : Served → Served
recovered served =
    if served.panics
    then record served {
      calls = served.calls ++ header_call 500 ∷ [];
      panics = false;
      logged = served.logged ++ panic_line ∷ [];
    }
    else served

-- loggingMiddleware; the time and the address of the client are left out of the line
unfoldable pub logging_middleware : Endpoint → Endpoint
unfolding recovered status_write_header wrap_response_writer write_header write_body
logging_middleware next r =
    let served = next r in
    if is_quiet_path r.path
    then recovered served
    else let (passed, wrapped) = pass_on (wrap_response_writer blank_writer) served.calls in
      let level = request_level wrapped.status in
      let line : LogLine = request_line level r.http_method r.path wrapped.status in
      recovered (record served {
        calls = passed;
        logged = if served.panics then served.logged else served.logged ++ line ∷ [];
      })

-- A request as PatchFieldMaskMiddleware reads it: method, query values, and the body that ReadAll
-- gives with whether it gave no error.
pub record PatchRequest : Type 0 where
  pub patch_method : String
  pub query : Map String (List String)
  pub patch_body : String
  pub readable : Bool

abbrev first_of : Option (List String) → String
first_of (some (v ∷ vals)) = v
first_of _ = ""

-- The keys of a JSON object, or `none` where the body is no object; sort.Strings.
module _ (object_keys : String → Option (List String)) (sort_strings : List String → List String)
    (range : RangeOrder String) where
  -- the request that goes on
  unfoldable pub patch_field_mask_middleware : PatchRequest → PatchRequest
  unfolding lookup store
  patch_field_mask_middleware r =
      if not (str_eq r.patch_method "PATCH")
        || not (str_eq (first_of (lookup "update_mask" r.query)) "")
      then r
      else if not r.readable || str_eq r.patch_body ""
      then r
      else elim (object_keys r.patch_body) [
        | none ↦ r
        | some keys ↦
            let paths = sort_strings (range.visit keys) in
            record r { query = store "update_mask" (join paths "," ∷ []) r.query }
      ]
