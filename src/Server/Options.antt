-- ===== src/Server/Options.antt =====
-- server/options.go, server/types.go and the configuration of server/grpc.go and server/gateway.go.
-- Options write into one Config; what the configuration only passes on, such as services and the
-- server options of grpc, is of a type that is a parameter.
pub mod Chain
use grpcx.Common.{
  ℕ, String, List, [], ◌∷◌, ◌++◌, ◌≡◌, Option, none, some, Bool, true, false, if◌then◌else◌,
  string_equality, contains, str_eq, Map, RangeOrder,
}
use grpcx.Common.Result.{Result}
use grpcx.Platform.{Platform}
use grpcx.Errs.{GoError}
use grpcx.Context.{MetadataPackage, Context}
use grpcx.Auth.{Handler}
use grpcx.Middleware.Request.{timeout_interceptor}
use grpcx.Server.Headers.{CorsConfig}
use grpcx.Server.Endpoints.{Endpoint}
use grpcx.Server.Middleware.{create_passing_header_middleware, logging_middleware}

pub record Listen : Type 0 where
  pub host : String
  pub port : ℕ

-- An HTTPServerMiddleware, and an HTTPServerHandler by the routes that it registers.
abbrev pub HttpMiddleware : Type 0
HttpMiddleware = Endpoint → Endpoint

abbrev pub HttpRoutes : Type 0
HttpRoutes = List (String × Endpoint)

-- PrometheusHandler and PprofHandler, over the handlers of promhttp and pprof
unfoldable pub prometheus_handler : Endpoint → HttpRoutes
prometheus_handler metrics = ("/metrics", metrics) ∷ []

unfoldable pub pprof_handler : (index cmdline profile symbol trace : Endpoint) → HttpRoutes
pprof_handler index cmdline profile symbol trace =
    ("/debug/pprof/", index)
    ∷ ("/debug/pprof/cmdline", cmdline)
    ∷ ("/debug/pprof/profile", profile)
    ∷ ("/debug/pprof/symbol", symbol)
    ∷ ("/debug/pprof/trace", trace)
    ∷ []

-- The types that the configuration passes on: mux options of the application, server options,
-- interceptors, parts of the HTTP server's configuration and services. Of OpenTelemetry and promhttp
-- it uses three handlers, and the header passing middleware depends on the canonical form of a key,
-- the order of a range statement, and the cache that earlier requests have left.
pub record Parts : Type 1 where
  pub OwnMuxOption : Type 0
  pub ServerOption : Type 0
  pub Unary : Type 0
  pub Stream : Type 0
  pub TlsConfig : Type 0
  pub TlsNextProto : Type 0
  pub ConnState : Type 0
  pub Service : Type 0
  pub otel_stats_handler : ServerOption
  pub otel_handler : String → HttpMiddleware
  pub metrics_endpoint : Endpoint
  pub canonical : String → String
  pub header_order : RangeOrder (String × List String)
  pub header_cache : Map String String

-- the functions that set metadata from a request, in server/gateway.go
pub data MetadataSetter : Type 0 where
  pattern_setter authorization_setter cookie_setter api_key_setter language_setter : MetadataSetter

-- runtime.ServeMuxOption: the options of the default configuration, and those of the application
pub data MuxOption (O : Type 0) : Type 0 where
  form_url_encoded_marshaler : MuxOption O
  gea_query_parameter_parser : MuxOption O
  gea_wildcard_marshaler : MuxOption O
  with_metadata_of : MetadataSetter → MuxOption O
  outgoing_header_matcher : (String → Option String) → MuxOption O
  error_handler_option : MuxOption O
  own_mux_option : O → MuxOption O

-- the outgoing headers that pass
unfoldable pub match_outgoing : String → Option String
match_outgoing s = if str_eq s "set-cookie" then some "Set-Cookie" else none

abbrev pub default_sensitive_fields : List String
default_sensitive_fields = "password" ∷ "new_password" ∷ "passcode" ∷ "token" ∷ "otp" ∷ []

module _ (T : Parts) where
  open T use {
    OwnMuxOption, ServerOption, Unary, Stream, TlsConfig, TlsNextProto, ConnState, Service,
    otel_stats_handler, otel_handler, metrics_endpoint, canonical, header_order, header_cache,
  }

  pub record GrpcConfig : Type 0 where
    pub grpc_addr : Listen
    pub server_unary_interceptors : List Unary
    pub server_stream_interceptors : List Stream
    pub server_option : List ServerOption
    pub max_concurrent_streams : ℕ
    pub sensitive_fields : List String
    pub skip_logging_methods : List String
    pub default_timeout : ℕ

  -- nil pointers, maps and functions are `none`
  pub record HttpServerConfig : Type 0 where
    pub tls_config : Option TlsConfig
    pub read_timeout : ℕ
    pub read_header_timeout : ℕ
    pub write_timeout : ℕ
    pub idle_timeout : ℕ
    pub max_header_bytes : ℕ
    pub tls_next_proto : Option TlsNextProto
    pub conn_state : Option ConnState

  pub record GatewayConfig : Type 0 where
    pub gateway_addr : Listen
    pub service_name : String
    pub mux_options : List (MuxOption OwnMuxOption)
    pub server_config : Option HttpServerConfig
    pub server_middlewares : List HttpMiddleware
    pub server_handlers : List HttpRoutes
    pub base_path_override : String
    pub no_metrics_recorder : Bool
    pub cors : Option CorsConfig

  pub record Config : Type 0 where
    pub gateway : GatewayConfig
    pub grpc : GrpcConfig
    pub service_servers : List Service

  -- times in seconds
  abbrev pub create_default_grpc_config : GrpcConfig
  create_default_grpc_config = record {
    grpc_addr = record { host = "0.0.0.0"; port = 10443 };
    server_unary_interceptors = [];
    server_stream_interceptors = [];
    server_option = otel_stats_handler ∷ [];
    max_concurrent_streams = 1000;
    sensitive_fields = default_sensitive_fields;
    skip_logging_methods = "/grpc.health.v1.Health/Check" ∷ [];
    default_timeout = 30;
  }

  abbrev pub default_mux_options : List (MuxOption OwnMuxOption)
  default_mux_options =
      form_url_encoded_marshaler
      ∷ gea_query_parameter_parser
      ∷ gea_wildcard_marshaler
      ∷ with_metadata_of pattern_setter
      ∷ with_metadata_of authorization_setter
      ∷ with_metadata_of cookie_setter
      ∷ with_metadata_of api_key_setter
      ∷ with_metadata_of language_setter
      ∷ outgoing_header_matcher match_outgoing
      ∷ error_handler_option
      ∷ []

  abbrev pub create_default_gateway_config : GatewayConfig
  create_default_gateway_config = record {
    gateway_addr = record { host = "0.0.0.0"; port = 10080 };
    service_name = "";
    mux_options = default_mux_options;
    server_config = none;
    server_middlewares = otel_handler "grpc-gateway" ∷ logging_middleware ∷ [];
    server_handlers = prometheus_handler metrics_endpoint ∷ [];
    base_path_override = "";
    no_metrics_recorder = false;
    cors = none;
  }

  abbrev pub create_default_config : Config
  create_default_config = record {
    gateway = create_default_gateway_config;
    grpc = create_default_grpc_config;
    service_servers = [];
  }

  abbrev pub ConfigOption : Type 0
  ConfigOption = Config → Config

  apply_all : Config → List ConfigOption → Config
  apply_all c [] = c
  apply_all c (f ∷ opts) = apply_all (f c) opts

  unfoldable pub create_config : List ConfigOption → Config
  unfolding apply_all
  create_config opts = apply_all create_default_config opts

  -- `c.Gateway.F = …` and `c.Grpc.F = …`
  abbrev on_gateway : (GatewayConfig → GatewayConfig) → ConfigOption
  on_gateway f c = record c { gateway = f c.gateway }

  abbrev on_grpc : (GrpcConfig → GrpcConfig) → ConfigOption
  on_grpc f c = record c { grpc = f c.grpc }

  unfoldable pub with_gateway_addr : String → ℕ → ConfigOption
  with_gateway_addr host port =
      on_gateway (λ g. record g { gateway_addr = record { host = host; port = port } })

  unfoldable pub with_gateway_addr_listen : Listen → ConfigOption
  with_gateway_addr_listen l = on_gateway (λ g. record g { gateway_addr = l })

  unfoldable pub with_gateway_mux_options : List (MuxOption OwnMuxOption) → ConfigOption
  with_gateway_mux_options opts = on_gateway (λ g. record g { mux_options = g.mux_options ++ opts })

  unfoldable pub with_gateway_server_middlewares : List HttpMiddleware → ConfigOption
  with_gateway_server_middlewares middlewares =
      on_gateway (λ g. record g { server_middlewares = g.server_middlewares ++ middlewares })

  unfoldable pub with_gateway_server_handler : List HttpRoutes → ConfigOption
  with_gateway_server_handler handlers =
      on_gateway (λ g. record g { server_handlers = g.server_handlers ++ handlers })

  -- the copies of the lists are lists with the same entries
  unfoldable pub with_gateway_cors : Option CorsConfig → ConfigOption
  with_gateway_cors cfg = on_gateway (λ g. record g { cors = cfg })

  unfoldable pub with_gateway_server_config : Option HttpServerConfig → ConfigOption
  with_gateway_server_config cfg = on_gateway (λ g. record g { server_config = cfg })

  unfoldable pub with_gateway_service_name : String → ConfigOption
  with_gateway_service_name service_name =
      on_gateway (λ g. record g { service_name = service_name })

  unfoldable pub with_passed_header : (String → Bool) → ConfigOption
  unfolding with_gateway_server_middlewares create_passing_header_middleware
  with_passed_header decider =
      with_gateway_server_middlewares
        (create_passing_header_middleware canonical header_order header_cache decider ∷ [])

  unfoldable pub with_gateway_base_path_override : String → ConfigOption
  with_gateway_base_path_override base_path =
      on_gateway (λ g. record g { base_path_override = base_path })

  unfoldable pub without_gateway_metrics_recorder : ConfigOption
  without_gateway_metrics_recorder = on_gateway (λ g. record g { no_metrics_recorder = true })

  unfoldable pub with_grpc_addr : String → ℕ → ConfigOption
  with_grpc_addr host port =
      on_grpc (λ g. record g { grpc_addr = record { host = host; port = port } })

  unfoldable pub with_grpc_addr_listen : Listen → ConfigOption
  with_grpc_addr_listen l = on_grpc (λ g. record g { grpc_addr = l })

  unfoldable pub with_grpc_server_unary_interceptors : List Unary → ConfigOption
  with_grpc_server_unary_interceptors interceptors =
      on_grpc
        (λ g. record g { server_unary_interceptors = g.server_unary_interceptors ++ interceptors })

  unfoldable pub with_grpc_server_stream_interceptors : List Stream → ConfigOption
  with_grpc_server_stream_interceptors interceptors =
      on_grpc (λ g. record g {
        server_stream_interceptors = g.server_stream_interceptors ++ interceptors;
      })

  unfoldable pub with_service_server : List Service → ConfigOption
  with_service_server srv c = record c { service_servers = c.service_servers ++ srv }

  unfoldable pub with_sensitive_fields : List String → ConfigOption
  with_sensitive_fields fields = on_grpc (λ g. record g { sensitive_fields = fields })

  unfoldable pub with_skip_logging_methods : List String → ConfigOption
  with_skip_logging_methods methods =
      on_grpc (λ g. record g { skip_logging_methods = g.skip_logging_methods ++ methods })

  unfoldable pub with_default_timeout : ℕ → ConfigOption
  with_default_timeout d = on_grpc (λ g. record g { default_timeout = d })

module _ (M : MetadataPackage) (P : Platform) where
  -- a unary interceptor: context, request, full method, handler
  abbrev pub Interceptor : Type 0 → Type 0 → Type 0
  Interceptor Req Resp = Context M → Req → String → Handler M P Req Resp → Result (GoError P) Resp

  -- grpc.ChainUnaryInterceptor: the first interceptor is the outermost
  pub record ChainPackage (Req Resp : Type 0) : Type 0 where
    pub chain : List (Interceptor Req Resp) → Interceptor Req Resp
    pub chain_empty :
        (ctx : Context M) (req : Req) (method : String) (handler : Handler M P Req Resp)
        → chain [] ctx req method handler ≡ handler ctx req
    pub chain-cons :
        (i : Interceptor Req Resp) (is : List (Interceptor Req Resp)) (ctx : Context M) (req : Req)
        (method : String) (handler : Handler M P Req Resp)
        → chain (i ∷ is) ctx req method handler
          ≡ i ctx req method (λ ctx' req'. chain is ctx' req' method handler)

  module _ {Req Resp : Type 0} (metrics log_interceptor : Interceptor Req Resp) where
    -- the interceptor that leaves out the log for the methods of the skip list
    skip_log : List String → Interceptor Req Resp
    skip_log skip ctx req method handler =
        if contains skip method then handler ctx req else log_interceptor ctx req method handler

    timeout_of : ℕ → ℕ → Interceptor Req Resp
    timeout_of timeout now ctx req method handler =
        timeout_interceptor M P timeout now ctx req handler

    -- buildDefaultUnaryInterceptors, of the timeout and the skip list, at the time `now`
    unfoldable pub build_default_unary_interceptors :
        ℕ → ℕ → List String → List (Interceptor Req Resp)
    unfolding skip_log timeout_of
    build_default_unary_interceptors now default_timeout skip_logging_methods =
        timeout_of default_timeout now ∷ metrics ∷ skip_log skip_logging_methods ∷ []

    -- the unary interceptors of ServerOptions
    unfoldable pub server_unary_chain :
        ℕ → ℕ → List String → List (Interceptor Req Resp) → List (Interceptor Req Resp)
    unfolding build_default_unary_interceptors
    server_unary_chain now default_timeout skip_logging_methods app =
        build_default_unary_interceptors now default_timeout skip_logging_methods ++ app
