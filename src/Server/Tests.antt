-- ===== src/Server/Tests.antt =====
-- Instances of the theorems on the gateway, its logs and its options.
use Prim.Native.Char.{Char}
use mathlib.Core.Option
use grpcx.Common.{
  Bool, lookup, ℕ, String, List, [], ◌∷◌, ◌≡◌, refl, none, some, lookup, if◌then◌else◌, str_eq,
  string_equality, contains,
}
use grpcx.Common.Text.{◌+++◌, fields, join}
use grpcx.Common.Result.{success}
use grpcx.Platform.{Code, not_found}
use grpcx.Errs.{Error, GoError, app, foreign, entries_of}
use grpcx.Errs.Metadata.{IsWellFormed, metadata_at}
use grpcx.Auth.{Handler}
use grpcx.Http.{ResponseWriter}
use grpcx.Middleware.ErrorWrapper.{
  ErrorWrapperConfig, as_app, language, noop_localize, default_config,
}
use grpcx.Middleware.ErrorWrapper.Finish.{localized_message}
use grpcx.Middleware.ErrorWrapper.Localized.{convert}
use grpcx.Common.Integers.{pos}
use grpcx.Common.{none, Bool, Option}
use grpcx.Server.ErrorHandler.{
  GatewayError, plain, http_status_error, ErrorMessage, Marshaler, error_handler,
}
use grpcx.Server.ErrorHandler.Reply.{error_handler-convert}
use grpcx.Server.Logging.{redact_sensitive}
use grpcx.Server.Logging.Redaction.{AreRedacted, redact_sensitive_lem}
use grpcx.Server.Options.{Interceptor, ChainPackage, server_unary_chain}
use grpcx.Server.Options.Chain.{with_deadline, server_unary_chain_lem}
use grpcx.Http.{HttpHeader}
use grpcx.Server.Middleware.{passing_header_middleware}
use grpcx.Server.Middleware.Passing.{IsSound, passed, passing_header_middleware_lem}
use grpcx.Samples.{
  in_order, sample_metadata, sample_platform, sample_status_package, SampleStatus, background, Ctx,
}

abbrev as_is : String → String
as_is k = k

abbrev code_number : Code → ℕ
code_number c = 404

abbrev json : Marshaler sample_platform
json = record {
  content_type = λ s. "application/json";
  marshal = λ m. some m.message;
  http_status_from_code = code_number;
  status-IsFinal = λ c. (refl, refl);
}

abbrev fresh_response : ResponseWriter
fresh_response = record { response_header = []; informational = []; sent_status = none; body = "" }

abbrev gone : GoError sample_platform
gone = foreign (record { number = not_found; text = "gone"; details = [] })

abbrev reply : GatewayError sample_platform → Option ResponseWriter
reply =
    error_handler sample_platform as_is "grpcx" (sample_status_package "grpcx") json fresh_response

-- an error whose status net/http does not accept
abbrev odd_status : GatewayError sample_platform
odd_status = http_status_error (pos 42) gone

abbrev stock_error : Error sample_platform
stock_error = record {
  status_code = not_found;
  code = "ERR_STOCK";
  message = "out of stock";
  metadata = some (("item", "pen") ∷ []);
}

well_formed : IsWellFormed sample_platform stock_error
unfolding lookup
well_formed = (refl, tt)

abbrev quiet : ErrorWrapperConfig sample_platform
quiet = default_config sample_platform (record { attributes = [] })

abbrev status_text : SampleStatus → String
status_text x = x.text

abbrev same_char : Char → Char
same_char c = c

found : as_app sample_platform (app stock_error) ≡ some stock_error
unfolding as_app
found = refl

error_handler-convert_example :
    (x : SampleStatus) × (msg : ErrorMessage sample_platform) × (out : ResponseWriter) × ((convert
        sample_platform status_text [] sample_metadata same_char "grpcx"
        (sample_status_package "grpcx")
        background
        quiet
        (app stock_error)).err
      ≡ some x)
    × (msg.code ≡ "ERR_STOCK")
    × (msg.message
        ≡ localized_message sample_platform
            (noop_localize sample_platform)
            (language sample_metadata same_char background)
            stock_error)
    × (lookup "item" (entries_of sample_platform msg.metadata)
        ≡ Option.map (λ v. v) (metadata_at sample_platform stock_error "item"))
    × (reply (plain (foreign x)) ≡ some out)
    × (out.body ≡ ("" +++ msg.message))
    × (out.informational ≡ [])
    × (out.sent_status ≡ some 404)
error_handler-convert_example =
    error_handler-convert sample_platform as_is "grpcx" (sample_status_package "grpcx") json
      status_text [] sample_metadata same_char background quiet (app stock_error) stock_error "item"
      fresh_response found refl refl tt well_formed refl

redact_sensitive_lem_example :
    (out : List String) × (redact_sensitive in_order "user:ann token:abc" ("token" ∷ [])
      ≡ join out " ")
    × AreRedacted ("token" ∷ []) (fields "user:ann token:abc") out
redact_sensitive_lem_example = redact_sensitive_lem in_order "user:ann token:abc" ("token" ∷ [])

abbrev StringInterceptor : Type 0
StringInterceptor = Interceptor sample_metadata sample_platform String String

chain_all : List StringInterceptor → StringInterceptor
chain_all [] ctx req method handler = handler ctx req
chain_all (i ∷ is) ctx req method handler =
    i ctx req method (λ c r. chain_all is c r method handler)

chain_all-empty :
    (ctx : Ctx) (req method : String)
    (handler : Handler sample_metadata sample_platform String String)
    → chain_all [] ctx req method handler ≡ handler ctx req
unfolding chain_all
chain_all-empty ctx req method handler = refl

chain_all-cons :
    (i : StringInterceptor) (is : List StringInterceptor) (ctx : Ctx) (req method : String)
    (handler : Handler sample_metadata sample_platform String String)
    → chain_all (i ∷ is) ctx req method handler
      ≡ i ctx req method (λ c r. chain_all is c r method handler)
unfolding chain_all
chain_all-cons i is ctx req method handler = refl

abbrev chains : ChainPackage sample_metadata sample_platform String String
chains = record { chain = chain_all; chain_empty = chain_all-empty; chain-cons = chain_all-cons }

abbrev pass : StringInterceptor
pass ctx req method handler = handler ctx req

abbrev echo : Handler sample_metadata sample_platform String String
echo ctx req = success req

abbrev skip_list : List String
skip_list = "/a/b" ∷ []

server_unary_chain_lem_example :
    chain_all
      (server_unary_chain sample_metadata sample_platform pass pass 5 30 skip_list [])
      background
      "hi"
      "/a/b"
      echo
    ≡ (if contains skip_list "/a/b"
        then chain_all []
            (with_deadline sample_metadata sample_platform chains 30 5 background)
            "hi"
            "/a/b"
            echo
        else pass
            (with_deadline sample_metadata sample_platform chains 30 5 background)
            "hi"
            "/a/b"
            (λ c r. chain_all [] c r "/a/b" echo))
server_unary_chain_lem_example =
    server_unary_chain_lem sample_metadata sample_platform chains pass pass 5 30 skip_list []
      background "hi" "/a/b" echo (λ c r m h. refl)

abbrev two_batches : List (List String)
two_batches = ("auth" ∷ []) ∷ ("limit" ∷ "trace" ∷ []) ∷ []

abbrev only_trace : String → Bool
only_trace k = str_eq k "X-Trace"

abbrev trace_header : HttpHeader
trace_header = ("X-Trace", "t1" ∷ []) ∷ []

empty-IsSound : IsSound as_is only_trace []
unfolding lookup
empty-IsSound k j h = cc

passing_header_middleware_lem_example :
    IsSound as_is only_trace (passing_header_middleware as_is only_trace in_order [] trace_header).0
    × ((passing_header_middleware as_is only_trace in_order [] trace_header).1
        ≡ passed as_is only_trace [] trace_header)
passing_header_middleware_lem_example =
    passing_header_middleware_lem as_is only_trace in_order [] trace_header empty-IsSound
