-- ===== src/Server/Instance/Tests.antt =====
-- A server with one service.
use grpcx.Common.{
  String, List, [], ◌∷◌, ◌≡◌, ◌≢◌, refl, none, some, Map, lookup, store, lookup-store, true,
  if◌then◌else◌, str_eq, string_equality, contains, ◌||◌,
}
use grpcx.Common.Text.{◌+++◌}
use grpcx.Common.Result.{Result, success}
use grpcx.Errs.{GoError}
use grpcx.Server.Grpc.{
  HealthPackage, DefaultInterceptors, ServingStatus, serving_status, new_grpc_server,
}
use grpcx.Server.Instance.{ServerInstance, new_server, options_for, new_server_lem}
use grpcx.Server.Gateway.{
  built, new_gateway_server, register_services, register_handler, register_custom,
  apply_middlewares, gateway_routes, add_handlers, add_routes, cors_handler, listen_string,
  configured, default_settings,
}
use grpcx.Server.Gateway.Building.{IsServer}
use grpcx.Server.Gateway.Registering.{AllRegistered}
use grpcx.Server.Metrics.{Routes, mux_handle, handle, registered, wrap}
use grpcx.Server.Options.{
  prometheus_handler, Config, ConfigOption, create_config, with_service_server,
}
use grpcx.Samples.{in_order, sample_platform, all_strings, created, sample_gateway}

status-set_sample :
    (h : Map String ServingStatus) (k j : String) (s : ServingStatus)
    → lookup j (store k s h) ≡ (if str_eq k j then some s else lookup j h)
status-set_sample h k j s = lookup-store k j s h

status-new_sample : (j : String) → j ≢ "" → lookup {K = String} {V = ServingStatus} j [] ≡ none
unfolding lookup
status-new_sample j h = refl

abbrev sample_health : HealthPackage
sample_health = record {
  Health = Map String ServingStatus;
  new_health = [];
  set_serving_status = λ h k s. store k s h;
  status_of = λ h k. lookup k h;
  status-new = status-new_sample;
  status-set = status-set_sample;
}

abbrev sample_interceptors : DefaultInterceptors all_strings
sample_interceptors = record {
  default_unary = λ c. "timeout" ∷ "metrics" ∷ "log" ∷ [];
  stream_metrics = "stream metrics";
  stream_log = λ fields. "stream log";
}

abbrev names : String → List String
names svr = ("api." +++ svr) ∷ []

abbrev dial : String → Result (GoError sample_platform) String
dial addr = success addr

abbrev one_service : List (ConfigOption all_strings)
one_service = with_service_server all_strings ("users" ∷ []) ∷ []

abbrev config : Config all_strings
config = create_config all_strings one_service

abbrev instance_built :
    ServerInstance sample_platform all_strings sample_interceptors sample_gateway sample_health
      in_order names
instance_built = record {
  grpc_server =
      new_grpc_server all_strings sample_interceptors sample_health in_order names config.grpc
        ("users" ∷ []);
  gateway_server = record {
    addr = "0.0.0.0:10080";
    handler = created;
    settings = default_settings sample_platform all_strings sample_gateway;
  };
  config = config;
}

builds :
    new_server sample_platform all_strings sample_interceptors sample_gateway sample_health in_order
      names dial one_service
    ≡ built instance_built
unfolding new_server new_gateway_server register_services register_handler register_custom
    apply_middlewares gateway_routes add_handlers add_routes mux_handle prometheus_handler handle
    registered wrap lookup store cors_handler listen_string configured create_config
    with_service_server
builds = refl

new_server_lem_example :
    (instance_built.config ≡ config)
    × (instance_built.grpc_server.options
        ≡ options_for sample_platform all_strings sample_interceptors sample_gateway sample_health
            in_order names config.grpc)
    × (instance_built.grpc_server.services ≡ "api.users" ∷ [])
    × ((j : String)
        → (str_eq "" j || contains ("api.users" ∷ []) j) ≡ true
        → lookup j instance_built.grpc_server.health_server ≡ some serving_status)
    × (conn : String) × (mux : List String) × (routes : Routes) × (dial "0.0.0.0:10080"
        ≡ success conn)
    × AllRegistered sample_platform all_strings sample_gateway conn ("users" ∷ []) [] mux
    × IsServer sample_platform all_strings sample_gateway config.gateway mux routes
        instance_built.gateway_server
unfolding create_config with_service_server listen_string
new_server_lem_example =
    new_server_lem sample_platform all_strings sample_interceptors sample_gateway sample_health
      in_order names dial one_service instance_built builds
