-- ===== src/Server/Gateway/Modifier.antt =====
-- HTTPResponseModifier of server/gateway.go, which lets a handler choose the HTTP status by gRPC
-- metadata. The metadata is a map whose keys are in lower case; WriteHeader of net/http panics on a
-- code outside 100 to 999 unless a status has been sent.
use grpcx.Common.{
  ℕ, String, List, [], ◌++◌, ◌∷◌, ◌≡◌, Option, none, some, if◌then◌else◌, ◌&&◌, leb, Map, lookup,
  delete, delete_absent, string_equality, arith,
}
use grpcx.Common.Integers.{ℤ, pos}
use grpcx.Common.Result.{Result, success, failure}
use grpcx.Http.{ResponseWriter, write_header, checked_write_header, is_informational}
use grpcx.Server.Gateway.{Construct, panicked, rejected, built}

-- HeaderHTTPCode
abbrev pub header_http_code : String
header_http_code = "X-Http-Code"

abbrev pub grpc_http_code : String
grpc_http_code = "Grpc-Metadata-X-Http-Code"

abbrev pub Md : Type 0
Md = Map String (List String)

abbrev or_panic : {E A : Type 0} → Option A → Construct E A
or_panic none = panicked
or_panic (some a) = built a

abbrev dropped_header : ResponseWriter → ResponseWriter
dropped_header w = record w { response_header = delete grpc_http_code w.response_header }

module _ {E : Type 0} (lower : String → String) (atoi : String → Result E ℤ) where
  -- the code of the metadata, `md.HeaderMD.Get` and its first value
  abbrev first_code : Option (List String) → Option String
  first_code (some (v ∷ vals)) = some v
  first_code _ = none

  with_code :
      Md → ResponseWriter → Construct E ResponseWriter → Construct E (Option Md × ResponseWriter)
  with_code md w (built w') = built (some (delete header_http_code md), w')
  with_code md w (rejected e) = rejected e
  with_code md w panicked = panicked

  unfoldable pub http_response_modifier :
      Option Md → ResponseWriter → Construct E (Option Md × ResponseWriter)
  unfolding with_code checked_write_header lookup
  http_response_modifier none w = built (none, w)
  http_response_modifier (some md) w = elim (first_code (lookup (lower header_http_code) md)) [
    | none ↦ built (some md, w)
    | some v ↦ elim (atoi v) [
      | failure e ↦ rejected e
      | success code ↦ with_code md w (or_panic (checked_write_header (dropped_header w) code))
    ]
  ]

  -- The code that a handler asks for, where it is a number from 100 to 999 and nothing has been sent,
  -- becomes the status of the response, or an informational one, and its header leaves the response; a code that is a number
  -- outside that range makes the modifier panic. The deletion from the metadata deletes nothing where
  -- the key "X-Http-Code" is not spelled in lower case and so is no key of the metadata.
  pub http_response_modifier_lem :
      (md : Md) (w : ResponseWriter) (v : String) (vals : List String) (code : ℕ)
      → lookup (lower header_http_code) md ≡ some (v ∷ vals)
      → lookup header_http_code md ≡ none
      → atoi v ≡ success (pos code)
      → w.sent_status ≡ none
      → http_response_modifier (some md) w ≡ (
          if leb 100 code && leb code 999
          then built (
            some md,
            record w {
              response_header = delete grpc_http_code w.response_header;
              informational =
                  if is_informational code then w.informational ++ code ∷ [] else w.informational;
              sent_status = if is_informational code then none else some code;
            },
          )
          else panicked)
  unfolding http_response_modifier with_code checked_write_header write_header
  http_response_modifier_lem md w v vals code h missing parsed fresh =
      let kept = delete_absent header_http_code md missing in
      rw (h, http_response_modifier)
        (rw (parsed, http_response_modifier) (ground (arith, kept, fresh)))
