-- ===== src/Server/Gateway/Tests.antt =====
-- A gateway and a server with one service, and runs of their construction.
use grpcx.Common.{true, String, List, [], ◌∷◌, ◌≡◌, refl, lookup, store, string_equality}
use grpcx.Errs.{wrapped}
use grpcx.Http.{HttpRequest, write_header, write_body}
use grpcx.Server.Metrics.{wrap, Routes, handle, mux_handle, registered}
use grpcx.Server.Endpoints.{blank_writer}
use grpcx.Server.Endpoints.Writers.{NoInformational}
use grpcx.Server.Metrics.Recording.{wrap_lem}
use grpcx.Server.Options.{prometheus_handler, GatewayConfig, create_default_gateway_config}
use grpcx.Server.Gateway.{
  Construct, rejected, built, GatewayPackage, HttpServer, new_gateway_server, register_services,
  apply_middlewares, gateway_routes, add_handlers, add_routes, cors_handler, listen_string,
  configured, register_handler, register_custom,
}
use grpcx.Server.Gateway.Building.{
  IsServer, new_gateway_server_lem, new_gateway_server-first_failure,
}
use grpcx.Http.{ResponseWriter}
use grpcx.Server.Endpoints.{Endpoint, play, panic_line}
use grpcx.Common.{none, some, lookup, string_equality, false}
use grpcx.Server.Gateway.{cors_handler}
use grpcx.Server.Gateway.Registering.{AllRegistered}
use grpcx.Server.Gateway.Panics.{new_gateway_server-no_panic}
use grpcx.Server.Middleware.{logging_middleware}
use grpcx.Server.Middleware.Recovery.{logging_middleware_lem}
use grpcx.Samples.{sample_platform, all_strings, created, sample_gateway, service_mux, sample_error}

abbrev get_request : HttpRequest
get_request = record { http_method = "GET"; path = "/"; header = [] }

wrap_lem_example :
    (wrap "shop" "/" created get_request).recorded
    ≡ record { service = "shop"; pattern = "/"; method = "GET"; code = 201 } ∷ []
unfolding write_header write_body
wrap_lem_example =
    (wrap_lem "shop" "/" created get_request).4 blank_writer refl tt (refl, (refl, tt)) refl

abbrev config : GatewayConfig all_strings
config = create_default_gateway_config all_strings

abbrev server : HttpServer sample_platform all_strings
server = record {
  addr = "0.0.0.0:10080";
  handler = created;
  settings = grpcx.Server.Gateway.default_settings sample_platform all_strings sample_gateway;
}

builds :
    new_gateway_server sample_platform all_strings sample_gateway config "conn" ("users" ∷ [])
    ≡ built server
unfolding new_gateway_server register_services register_handler register_custom apply_middlewares
    gateway_routes add_handlers add_routes mux_handle prometheus_handler handle registered wrap
    lookup store cors_handler listen_string configured
builds = refl

new_gateway_server_lem_example :
    (mux : List String) × (routes : Routes) × AllRegistered sample_platform all_strings
      sample_gateway "conn"
      ("users" ∷ [])
      []
      mux
    × IsServer sample_platform all_strings sample_gateway config mux routes server
new_gateway_server_lem_example =
    new_gateway_server_lem sample_platform all_strings sample_gateway config "conn" ("users" ∷ [])
      server builds

stops_at_bad :
    new_gateway_server sample_platform all_strings sample_gateway config "conn"
      ("users" ∷ "bad" ∷ "orders" ∷ [])
    ≡ rejected (wrapped "failed to register handler: " sample_error)
unfolding register_services register_handler register_custom
stops_at_bad =
    (new_gateway_server-first_failure sample_platform all_strings sample_gateway config "conn"
        ("users" ∷ []) ("orders" ∷ []) "bad" ("users" ∷ []) sample_error refl).0
      (service_mux "bad") refl refl

-- the handler that the sample makes of its routes
abbrev serve_all : Routes → Endpoint
serve_all routes = created

-- a handler that panics before it has sent anything
abbrev breaks : Endpoint
breaks r = record { calls = []; panics = true; logged = []; recorded = [] }

logging_middleware_lem_example :
    (NoInformational []
      → (w : ResponseWriter)
      → play w (logging_middleware breaks get_request).calls ≡ write_header w 500)
    × ((logging_middleware breaks get_request).logged ≡ panic_line ∷ [])
logging_middleware_lem_example = (logging_middleware_lem breaks get_request).3 refl

new_gateway_server-no_panic_example :
    (mux : List String) × (routes : Routes) × (mounted : Endpoint) × (server.handler
      ≡ cors_handler sample_platform all_strings sample_gateway none (serve_all routes))
    × (lookup "/" routes ≡ some mounted)
    × ((r : HttpRequest)
        → ((mounted r).panics ≡ false)
          × ((created r).panics ≡ true
              → NoInformational (created r).calls
              → (w : ResponseWriter)
              → play w (mounted r).calls ≡ write_header (play w (created r).calls) 500))
new_gateway_server-no_panic_example =
    new_gateway_server-no_panic sample_platform all_strings sample_gateway config "conn"
      ("users" ∷ []) server [] builds refl (λ next r. (refl, λ n. (n, λ w. refl)))
