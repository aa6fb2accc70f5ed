-- ===== src/Rpcctx.antt =====
-- rpcctx/rpcctx.go: reading and writing gRPC request metadata.
pub mod Language
pub mod Attach
pub mod Method
mod Tests
use Prim.Native.Char.{Char}
use Prim.Native.String
use grpcx.Common.{
  ℕ, String, List, [], ◌∷◌, ◌≡◌, Option, none, some, Bool, true, false, if◌then◌else◌, str_eq,
  length, ltb,
}
use grpcx.Common.Text.{before, first, split, trim_space, trim_prefix, join}
use grpcx.Common.Result.{Result, success, failure}
use grpcx.Context.{MetadataPackage, Context, from_incoming, new_incoming}
use grpcx.Platform.{Platform}
use grpcx.Errs.{Error, unauthenticated_error}

abbrev pub header_request_id : String
header_request_id = "X-Request-Id"

abbrev pub header_forwarded_for : String
header_forwarded_for = "X-Forwarded-For"

abbrev pub md_key_http_method : String
md_key_http_method = "X-Http-Method"

-- What ReadUserIP reads of an *http.Request: Header.Get and RemoteAddr.
pub record RequestSource : Type 0 where
  pub header_get : String → String
  pub remote_addr : String

unfoldable pub read_user_ip : RequestSource → String
read_user_ip r =
    let real_ip = before (r.header_get "X-Real-Ip") b',' in
    let forwarded =
      if str_eq real_ip "" then first (split (r.header_get "X-Forwarded-For") b',') else real_ip in
    let ip = if str_eq forwarded "" then r.remote_addr else forwarded in trim_space ip

-- unicode.ToLower on each code point, for the table `lower`
unfoldable pub to_lower : (Char → Char) → String → String
to_lower lower String.[] = ""
to_lower lower (String.◌∷◌ c s) = String.◌∷◌ (lower c) (to_lower lower s)

-- strings.Join(md.Get(key), ""), and "" without metadata
abbrev join_values : Option (List String) → String
join_values none = ""
join_values (some vals) = join vals ""

module _ (M : MetadataPackage) where
  open M use {MD, get, set, empty_md}

  -- md.Get(key) of the incoming metadata; a context without metadata gives `none`
  abbrev values_of : Option MD → String → Option (List String)
  values_of none key = none
  values_of (some md) key = some (get md key)

  unfoldable pub values : Context M → String → Option (List String)
  values ctx key = values_of (from_incoming M ctx) key

  joined : Context M → String → String
  unfolding values
  joined ctx key = join_values (values ctx key)

  unfoldable pub get_ip_address_from_context : Context M → String
  unfolding values
  get_ip_address_from_context ctx = elim (values ctx header_forwarded_for) [
    | none ↦ ""
    | some [] ↦ ""
    | some (v ∷ vals) ↦ first (split v b',')
  ]

  unfoldable pub get_request_id_from_context : Context M → String
  unfolding joined
  get_request_id_from_context ctx = joined ctx header_request_id

  unfoldable pub attach_request_id_to_md : MD → String → MD
  attach_request_id_to_md md request_id = set md header_request_id request_id

  or_empty : Option MD → MD
  or_empty none = empty_md
  or_empty (some md) = md

  unfoldable pub attach_request_id_to_incoming_context : Context M → String → Context M
  unfolding attach_request_id_to_md or_empty
  attach_request_id_to_incoming_context ctx request_id =
      new_incoming M ctx (attach_request_id_to_md (or_empty (from_incoming M ctx)) request_id)

  unfoldable pub get_http_method_from_context : Context M → String
  unfolding joined
  get_http_method_from_context ctx = joined ctx md_key_http_method

  unfoldable pub attach_http_method_to_md : MD → String → MD
  attach_http_method_to_md md method = set md md_key_http_method method

  unfoldable pub attach_http_method_to_incoming_context : Context M → String → Context M
  unfolding attach_http_method_to_md or_empty
  attach_http_method_to_incoming_context ctx method =
      new_incoming M ctx (attach_http_method_to_md (or_empty (from_incoming M ctx)) method)

  unfoldable pub get_pattern_from_context : Context M → String
  unfolding joined
  get_pattern_from_context ctx = joined ctx "pattern"

  unfoldable pub get_user_agent_from_context : Context M → String
  unfolding joined
  get_user_agent_from_context ctx = joined ctx "grpcgateway-user-agent"

  -- parts[1] where there are two parts
  method_of_parts : String → List String → String
  method_of_parts method (service ∷ name ∷ parts) = name
  method_of_parts method _ = method

  unfoldable pub get_method_from_context : Context M → String
  unfolding method_of_parts
  get_method_from_context ctx = elim ctx.full_method [
    | none ↦ ""
    | some method ↦ method_of_parts method (split (trim_prefix method "/") b'/')
  ]

  module _ (lower : Char → Char) where
    unfoldable pub primary_tag : String → String
    unfolding to_lower
    primary_tag header =
        to_lower lower (trim_space (before (before (before header b',') b';') b'-'))

    unfoldable pub get_language_from_context : Context M → String
    unfolding values primary_tag
    get_language_from_context ctx = elim (values ctx "accept-language") [
      | none ↦ ""
      | some [] ↦ ""
      | some (v ∷ vals) ↦ primary_tag v
    ]

  module _ (P : Platform) where
    unfoldable pub get_token_from_context : Context M → Result (Error P) String
    unfolding values
    get_token_from_context ctx = elim (values ctx "authorization") [
      | none ↦ failure (unauthenticated_error P "MISSING_ACCESS_TOKEN" "missing access token")
      | some [] ↦ failure (unauthenticated_error P "MISSING_ACCESS_TOKEN" "missing access token")
      | some (v ∷ vals) ↦ success (trim_prefix v "Bearer ")
    ]
