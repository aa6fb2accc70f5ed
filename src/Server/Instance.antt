-- ===== src/Server/Instance.antt =====
-- New and Stop of server/server.go: the gRPC server and the gateway of one configuration.
mod Tests
use grpcx.Common.{
  String, List, [], ◌∷◌, ◌++◌, ◌≡◌, ◌∙◌, ap, sym, Option, none, some, Bool, true, if◌then◌else◌,
  contains, string_equality, RangeOrder, arith, select, map, refl, subst, inl, inr, Bool-cases,
  str_eq, ◌||◌,
}
use grpcx.Common.Result.{Result, success, failure, Result-cases}
use grpcx.Platform.{Platform}
use grpcx.Errs.{GoError, wrapped}
use grpcx.Server.Grpc.{
  HealthPackage, DefaultInterceptors, GrpcServer, new_grpc_server, server_options,
  new_grpc_server_lem, serving_status, all_names, services-new_grpc_server, BuiltOption,
  chain_unary_interceptor, chain_stream_interceptor, limit_streams, own_server_option,
  build_default_stream_interceptors,
}
use grpcx.Server.Gateway.{
  Construct, panicked, rejected, built, Construct-cases, GatewayPackage, HttpServer,
  new_gateway_server, register_services, listen_string,
}
use grpcx.Server.Gateway.Building.{IsServer, new_gateway_server_lem}
use grpcx.Server.Gateway.Registering.{AllRegistered}
use grpcx.Server.Metrics.{Routes}
use grpcx.Common.Text.{◌+++◌}
use grpcx.Server.Options.{Parts, GrpcConfig, Config, ConfigOption, create_config}

-- What Stop does: a service is closed, the gateway is shut down, the gRPC server is shut down.
pub data StopEvent (S : Type 0) : Type 0 where
  closed : S → StopEvent S
  gateway_shutdown grpc_shutdown : StopEvent S

-- the loop over the services, for those that implement Closer
unfoldable pub close_services : {S : Type 0} → (S → Bool) → List S → List (StopEvent S)
close_services is_closer [] = []
close_services is_closer (ss ∷ servers) =
    let rest = close_services is_closer servers in if is_closer ss then closed ss ∷ rest else rest

unfoldable pub stop : {S : Type 0} → (S → Bool) → List S → List (StopEvent S)
unfolding close_services
stop is_closer servers = close_services is_closer servers ++ gateway_shutdown ∷ grpc_shutdown ∷ []

close_services_lem :
    {S : Type 0} (is_closer : S → Bool) (servers : List S)
    → close_services is_closer servers ≡ map closed (select is_closer servers)
unfolding close_services
close_services_lem is_closer [] = refl
close_services_lem is_closer (ss ∷ servers) = elim (Bool-cases (is_closer ss)) [
  | inl q ↦ rw (q, close_services) (ap (λ t. closed ss ∷ t) (close_services_lem is_closer servers))
  | inr q ↦ rw (q, close_services) (close_services_lem is_closer servers)
]

-- Stop closes each service that can be closed once, in the order of the configuration, and then shuts
-- the gateway down before the gRPC server that it calls.
pub stop_lem :
    {S : Type 0} (is_closer : S → Bool) (servers : List S)
    → stop is_closer servers
      ≡ map closed (select is_closer servers) ++ gateway_shutdown ∷ grpc_shutdown ∷ []
unfolding stop
stop_lem is_closer servers =
    ap (λ t. t ++ gateway_shutdown ∷ grpc_shutdown ∷ []) (close_services_lem is_closer servers)

module _ (P : Platform) (T : Parts) (D : DefaultInterceptors T) (G : GatewayPackage P T)
    (H : HealthPackage) (range : RangeOrder String) (names_of : T.Service → List String) where
  open G use {Mux, Conn, new_serve_mux, itoa}
  open H use {status_of}

  -- *Server
  pub record ServerInstance : Type 0 where
    pub grpc_server : GrpcServer T D H range names_of
    pub gateway_server : HttpServer P T
    pub config : Config T

  -- New; `dial` is grpc.NewClient for the address
  unfoldable pub new_server :
      (String → Result (GoError P) Conn)
      → List (ConfigOption T)
      → Construct (GoError P) ServerInstance
  unfolding new_grpc_server new_gateway_server create_config listen_string
  new_server dial opts =
      let c = create_config T opts in
      let grpc_server = new_grpc_server T D H range names_of c.grpc c.service_servers in
      elim (dial (listen_string itoa c.grpc.grpc_addr)) [
        | failure e ↦ rejected (wrapped "fail to dial gRPC server: " e)
        | success conn ↦ elim (new_gateway_server P T G c.gateway conn c.service_servers) [
          | panicked ↦ panicked
          | rejected e ↦ rejected (wrapped "fail to create gateway server: " e)
          | built gateway_server ↦
              built
                (record { grpc_server = grpc_server; gateway_server = gateway_server; config = c })
        ]
      ]

  -- the options of a gRPC server for a configuration: the default interceptors before its own
  abbrev pub options_for : GrpcConfig T → List (BuiltOption T D)
  options_for c =
      chain_unary_interceptor (D.default_unary c ++ c.server_unary_interceptors)
      ∷ chain_stream_interceptor
          (D.stream_metrics ∷ D.stream_log c.sensitive_fields ∷ c.server_stream_interceptors)
      ∷ limit_streams c.max_concurrent_streams
      ∷ map own_server_option c.server_option

  -- A server that New gives runs with the configuration that the options make. Its gRPC server has the
  -- default interceptors, behind them those of the configuration, its limit of streams and its own
  -- options, and every service of the configuration, in their order, registered with it; its health
  -- server reports each of their names, and the empty one, as serving. The connection of the gateway
  -- goes to the address of the gRPC server, and the gateway has every service that implements the
  -- interfaces registered, in their order.
  pub new_server_lem :
      (dial : String → Result (GoError P) Conn) (opts : List (ConfigOption T)) (s : ServerInstance)
      → new_server dial opts ≡ built s
      → let c = create_config T opts in
        (s.config ≡ c)
        × (s.grpc_server.options ≡ options_for c.grpc)
        × (s.grpc_server.services ≡ all_names T D H range names_of c.service_servers)
        × ((j : String)
            → (str_eq "" j || contains (all_names T D H range names_of c.service_servers) j) ≡ true
            → status_of s.grpc_server.health_server j ≡ some serving_status)
        × (conn : Conn) × (mux : Mux) × (routes : Routes) × (dial
              (c.grpc.grpc_addr.host +++ ":" +++ itoa c.grpc.grpc_addr.port)
            ≡ success conn)
        × AllRegistered P T G conn c.service_servers (new_serve_mux c.gateway.mux_options) mux
        × IsServer P T G c.gateway mux routes s.gateway_server
  unfolding new_server new_grpc_server listen_string server_options
      build_default_stream_interceptors
  new_server_lem dial opts s e =
      let c = create_config T opts in
      let health = λ (j : String).
        (new_grpc_server_lem T D H range names_of c.grpc c.service_servers "" j serving_status).0 in
      elim (Result-cases (dial (listen_string itoa c.grpc.grpc_addr))) [
        | inl (err, q) ↦ absurd (ground (arith, e, q))
        | inr (conn, q) ↦
            elim (Construct-cases (new_gateway_server P T G c.gateway conn c.service_servers)) [
              | inl q' ↦ absurd (ground (arith, e, q, q'))
              | inr (inl (err, q')) ↦ absurd (ground (arith, e, q, q'))
              | inr (inr (gateway_server, q')) ↦
                  let x : ServerInstance = record {
                    grpc_server = new_grpc_server T D H range names_of c.grpc c.service_servers;
                    gateway_server = gateway_server;
                    config = c;
                  } in
                  let same : x ≡ s = ground (arith, e, q, q') in
                  let f =
                    new_gateway_server_lem P T G c.gateway conn c.service_servers gateway_server
                      q' in
                  (
                    ap (λ t. t.config) (sym same),
                    ap (λ t. t.grpc_server.options) (sym same),
                    ap (λ t. t.grpc_server.services) (sym same)
                        ∙ services-new_grpc_server T D H range names_of c.grpc c.service_servers,
                    λ j k.
                        subst (λ t. status_of t.grpc_server.health_server j ≡ some serving_status)
                          same (ground (arith, health j, k)),
                    conn,
                    f.0,
                    f.1,
                    q,
                    f.2,
                    subst (λ t. IsServer P T G c.gateway f.0 f.1 t.gateway_server) same f.3,
                  )
            ]
      ]
