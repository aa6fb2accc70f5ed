-- ===== src/Middleware/Tests.antt =====
-- Instances of the theorems on the interceptors, with a localizer that knows one German text.
use Prim.Native.Char.{Char}
use grpcx.Common.{
  String, [], ◌∷◌, ◌≡◌, ◌≢◌, refl, Option, none, some, Map, true, false, ◌&&◌, if◌then◌else◌,
  str_eq, string_equality,
}
use grpcx.Rpcctx.{header_request_id, values}
use grpcx.Rpcctx.Attach.{listed}
use grpcx.Platform.{not_found, internal, unknown, error_info}
use grpcx.Errs.{Error, GoError, app, foreign, wrapped, info_of}
use grpcx.Context.{Logger}
use grpcx.Common.{lookup}
use grpcx.Common.Text.{before, trim_space, trim_left, trim_right, is_space}
use grpcx.Middleware.ErrorWrapper.Localized.{convert-convert}
use grpcx.Middleware.ErrorWrapper.Interceptor.{error_wrapper_interceptor-not_internal}
use grpcx.Http.{HttpHeader, HttpRequest, HttpHandler}
use grpcx.Middleware.Request.{request_id_interceptor, timeout_interceptor}
use grpcx.Middleware.Request.Tracing.{
  chosen_id, request_id_interceptor_lem, timeout_interceptor_lem,
}
use grpcx.Samples.{background, get_md}
use grpcx.Rpcctx.{get_language_from_context, primary_tag, to_lower, values}
use grpcx.Errs.{grpc_status, new}
use grpcx.Rpcctx.{
  values, get_http_method_from_context, header_request_id, md_key_http_method,
  get_request_id_from_context,
}
use grpcx.Auth.{Handler}
use grpcx.Platform.{is_internal, is_ok}
use grpcx.Common.{◌≢◌, ap, ◌++◌}
use grpcx.Common.Result.{success, failure}
use grpcx.Middleware.ErrorWrapper.{
  error_wrapper_interceptor, logger_from_context, finish, localize, fallback_error, apply_options,
  convert_grpc_error_to_http_error, noop_localize, language, as_app, Converted, ErrorWrapperConfig,
  language,
}
use grpcx.Middleware.ErrorWrapper.Finish.{localized_message, fallback_message}
use grpcx.Middleware.ErrorWrapper.Hiding.{convert-hidden_same}
use grpcx.Middleware.ErrorWrapper.Localized.{convert, convert-as_app_lem}
use grpcx.Samples.{
  sample_metadata, sample_platform, sample_status_package, SampleStatus, sample_from_error,
  background, request_with, Ctx,
}

abbrev quiet : Logger
quiet = record { attributes = [] }

abbrev same_char : Char → Char
same_char c = c

abbrev german : String → Option (Map String String) → String → String
german key data_of lang = if str_eq lang "de" && str_eq key "ERR_STOCK" then "ausverkauft" else key

abbrev config : ErrorWrapperConfig sample_platform
config = record { localize_message = german; ll = quiet; debugger_enabled = false }

abbrev stock_error : Error sample_platform
stock_error = record {
  status_code = not_found;
  code = "ERR_STOCK";
  message = "out of stock";
  metadata = none;
}

abbrev stock_chain : GoError sample_platform
stock_chain = wrapped "order: out of stock" (app stock_error)

abbrev german_request : Ctx
german_request = request_with "accept-language" "de"

abbrev status_text : SampleStatus → String
status_text x = x.text

abbrev secret_1 : GoError sample_platform
secret_1 =
    app (record { status_code = internal; code = "DB"; message = "db down"; metadata = none })

abbrev secret_2 : GoError sample_platform
secret_2 = foreign (record { number = unknown; text = "password wrong"; details = [] })

abbrev run : Ctx → GoError sample_platform → Converted sample_platform
run ctx e =
    convert sample_platform status_text [] sample_metadata same_char "grpcx"
      (sample_status_package "grpcx") ctx config e

abbrev says : Ctx → Error sample_platform → String
says ctx e = localized_message sample_platform german (language sample_metadata same_char ctx) e

convert-hidden_same_example :
    (x : SampleStatus) × (s : SampleStatus) × ((run german_request secret_1).err ≡ some x)
    × ((run german_request secret_2).err ≡ some x)
    × (sample_from_error "grpcx" (foreign x) ≡ (s, true))
    × (s.number ≡ unknown)
    × (s.text
        ≡ fallback_message sample_platform german
            (language sample_metadata same_char german_request))
unfolding as_app finish
convert-hidden_same_example =
    convert-hidden_same sample_platform "grpcx" (sample_status_package "grpcx") status_text []
      sample_metadata same_char german_request config secret_1 secret_2 refl refl

speaks_german : language sample_metadata same_char german_request ≡ "de"
unfolding language get_language_from_context primary_tag get_md lookup before to_lower trim_space
    trim_left trim_right is_space values
speaks_german = refl

speaks_english : language sample_metadata same_char background ≡ "en"
unfolding language get_language_from_context values
speaks_english = refl

found : as_app sample_platform stock_chain ≡ some stock_error
unfolding as_app finish
found = refl

convert-as_app_lem_example :
    (x : SampleStatus) × (s : SampleStatus) × ((run german_request stock_chain).err ≡ some x)
    × (sample_from_error "grpcx" (foreign x) ≡ (s, true))
    × (s.number ≡ not_found)
    × (s.text ≡ says german_request stock_error)
    × (s.details ≡ error_info (info_of sample_platform "grpcx" stock_error) ∷ [])
    × (as_app sample_platform (run german_request stock_chain).after
        ≡ some (record stock_error { message = says german_request stock_error }))
    × ((run german_request stock_chain).logged ≡ [])
convert-as_app_lem_example =
    convert-as_app_lem sample_platform status_text [] sample_metadata same_char "grpcx"
      (sample_status_package "grpcx") german_request config stock_chain stock_error found refl refl
      tt

translated :
    german "ERR_STOCK" none (language sample_metadata same_char german_request) ≢ "ERR_STOCK"
translated h = let f : false ≡ true = ap (λ s. str_eq s "ERR_STOCK") (rw speaks_german at h) in cc

untranslated : german "ERR_STOCK" none (language sample_metadata same_char background) ≡ "ERR_STOCK"
untranslated = rw speaks_english refl

convert-convert_example :
    (x : SampleStatus) × (s : SampleStatus) × ((run background
        (run german_request stock_chain).after).err
      ≡ some x)
    × (sample_from_error "grpcx" (foreign x) ≡ (s, true))
    × (s.text ≡ german "ERR_STOCK" none (language sample_metadata same_char german_request))
convert-convert_example =
    convert-convert sample_platform status_text [] sample_metadata same_char "grpcx"
      (sample_status_package "grpcx") german_request background config stock_chain stock_error found
      refl refl tt translated untranslated

abbrev failing : Handler sample_metadata sample_platform String (Option String)
failing ctx req = failure secret_1

abbrev fallback_status : SampleStatus
fallback_status =
    grpc_status sample_platform "grpcx"
      (fallback_error sample_platform (noop_localize sample_platform) "en")

abbrev refused_error : GoError sample_platform
refused_error = foreign fallback_status

refused :
    error_wrapper_interceptor sample_platform status_text [] sample_metadata same_char "grpcx"
      (sample_status_package "grpcx")
      quiet
      []
      background
      "hi"
      failing
    ≡ failure (foreign fallback_status)
unfolding error_wrapper_interceptor convert_grpc_error_to_http_error apply_options language
    get_language_from_context values grpc_status fallback_error localize new as_app finish
refused = refl

error_wrapper_interceptor-not_internal_example :
    (x : SampleStatus) × (s : SampleStatus) × (refused_error ≡ foreign x)
    × (sample_from_error "grpcx" (foreign fallback_status) ≡ (s, true))
    × (is_internal s.number ≡ false)
    × (is_ok s.number ≡ false)
error_wrapper_interceptor-not_internal_example =
    error_wrapper_interceptor-not_internal sample_platform "grpcx" (sample_status_package "grpcx")
      status_text [] sample_metadata same_char quiet [] background "hi" failing
      (foreign fallback_status) refused

keys_differ : header_request_id ≢ md_key_http_method
keys_differ h = let f : true ≡ false = ap (λ s. str_eq s header_request_id) h in cc

abbrev echo : Handler sample_metadata sample_platform String String
echo ctx req = success req

request_id_interceptor_lem_example :
    (ctx' : Ctx) × ((request_id_interceptor sample_metadata sample_platform quiet "x-request-id"
        "u1" background "hi" "/a/b" echo).reply
      ≡ echo ctx' "hi")
    × (get_md
          (request_id_interceptor sample_metadata sample_platform quiet "x-request-id" "u1"
            background "hi" "/a/b" echo).set_header
          "x-request-id"
        ≡ chosen_id "u1" (get_request_id_from_context sample_metadata background) ∷ [])
    × (get_request_id_from_context sample_metadata ctx'
        ≡ chosen_id "u1" (get_request_id_from_context sample_metadata background))
    × (get_http_method_from_context sample_metadata ctx'
        ≡ get_http_method_from_context sample_metadata background)
    × ((j : String)
        → sample_metadata.lower_key header_request_id ≢ sample_metadata.lower_key j
        → values sample_metadata ctx' j
          ≡ some (listed sample_metadata (values sample_metadata background j)))
    × ((logger_from_context sample_metadata quiet ctx').attributes
        ≡ (logger_from_context sample_metadata quiet background).attributes
          ++ ("request_id", chosen_id "u1" (get_request_id_from_context sample_metadata background))
            ∷ ("method", "/a/b")
            ∷ [])
    × (record ctx' { incoming = none; logger_value = none } ≡ background)
request_id_interceptor_lem_example =
    request_id_interceptor_lem sample_metadata sample_platform quiet "x-request-id" "u1" background
      "hi" "/a/b" echo keys_differ

timeout_interceptor_lem_example :
    (ctx' : Ctx) × (timeout_interceptor sample_metadata sample_platform 5 100 background "hi" echo
      ≡ echo ctx' "hi")
    × (record ctx' { deadline = none } ≡ background)
    × (ctx'.deadline ≡ some 105)
timeout_interceptor_lem_example =
    timeout_interceptor_lem sample_metadata sample_platform 5 100 background "hi" echo

abbrev get_request : HttpRequest
get_request = record { http_method = "GET"; path = "/"; header = [] }

abbrev both : HttpHandler (HttpHeader × HttpRequest)
both w r = (w, r)

abbrev as_is : String → String
as_is k = k
