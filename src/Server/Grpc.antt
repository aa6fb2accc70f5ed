-- ===== src/Server/Grpc.antt =====
-- newGrpcServer, ServerOptions and the stream interceptors of server/grpc.go, and server/health.go.
-- grpc's server and its health package are parameters.
use mathlib.Core.List.{append-nil, append_assoc}
use grpcx.Common.{
  ◌∙◌, sym, ℕ, map, String, List, [], ◌∷◌, ◌++◌, ◌≡◌, ◌≢◌, refl, Option, none, some, ◌||◌,
  if◌then◌else◌, str_eq, eq_iff, string_equality, contains, contains-append, contains-perm,
  RangeOrder, arith,
}
use grpcx.Server.Options.{Parts, GrpcConfig}

-- healthpb's statuses
pub data ServingStatus : Type 0 where
  unknown_status serving_status not_serving service_unknown : ServingStatus

-- google.golang.org/grpc/health: NewServer, SetServingStatus and the status that Check reports, `none`
-- for a service that it does not know.
pub record HealthPackage : Type 1 where
  pub Health : Type 0
  pub new_health : Health
  pub set_serving_status : Health → String → ServingStatus → Health
  pub status_of : Health → String → Option ServingStatus
  pub status-new : (j : String) → j ≢ "" → status_of new_health j ≡ none
  pub status-set :
      (h : Health) (k j : String) (s : ServingStatus)
      → status_of (set_serving_status h k s) j ≡ (if str_eq k j then some s else status_of h j)

-- The interceptors that grpc.go makes: those of buildDefaultUnaryInterceptors for a configuration, which
-- Options defines, and the metrics and the log of streams.
pub record DefaultInterceptors (T : Parts) : Type 0 where
  pub default_unary : GrpcConfig T → List T.Unary
  pub stream_metrics : T.Stream
  pub stream_log : List String → T.Stream

module _ (T : Parts) (D : DefaultInterceptors T) where
  open T use {Unary, Stream, Service, ServerOption}
  open D use {default_unary, stream_metrics, stream_log}

  -- what grpc.NewServer is called with
  pub data BuiltOption : Type 0 where
    chain_unary_interceptor : List Unary → BuiltOption
    chain_stream_interceptor : List Stream → BuiltOption
    limit_streams : ℕ → BuiltOption
    own_server_option : ServerOption → BuiltOption

  -- buildDefaultStreamInterceptors
  unfoldable pub build_default_stream_interceptors : GrpcConfig T → List Stream
  build_default_stream_interceptors c = stream_metrics ∷ stream_log c.sensitive_fields ∷ []

  unfoldable pub server_options : GrpcConfig T → List BuiltOption
  unfolding build_default_stream_interceptors
  server_options c =
      let unary = default_unary c ++ c.server_unary_interceptors in
      let stream = build_default_stream_interceptors c ++ c.server_stream_interceptors in
      chain_unary_interceptor unary
      ∷ chain_stream_interceptor stream
      ∷ limit_streams c.max_concurrent_streams
      ∷ map own_server_option c.server_option

  -- A service by the names of the descriptors that its RegisterWithServer registers; GetServiceInfo
  -- is a map of those, visited in the order of a range statement.
  module _ (H : HealthPackage) (range : RangeOrder String) (names_of : Service → List String) where
    open H use {Health, new_health, set_serving_status, status_of, status-new, status-set}

    -- *grpcServer, with the options that its grpc.Server was made with and the names that it has
    pub record GrpcServer : Type 0 where
      pub config : GrpcConfig T
      pub options : List BuiltOption
      pub services : List String
      pub health_server : Health

    register_all : List Service → List String → List String
    register_all [] registered = registered
    register_all (svr ∷ servers) registered = register_all servers (registered ++ names_of svr)

    set_all : Health → List String → Health
    set_all hs [] = hs
    set_all hs (name ∷ names) = set_all (set_serving_status hs name serving_status) names

    unfoldable pub register_health_server : List String → Health
    unfolding set_all
    register_health_server services =
        set_all (set_serving_status new_health "" serving_status) (range.visit services)

    unfoldable pub new_grpc_server : GrpcConfig T → List Service → GrpcServer
    unfolding register_all register_health_server server_options
    new_grpc_server c servers =
        let services = register_all servers [] in
        record {
          config = c;
          options = server_options c;
          services = services;
          health_server = register_health_server services;
        }

    -- Server.SetHealthStatus
    unfoldable pub set_health_status : GrpcServer → String → ServingStatus → GrpcServer
    set_health_status s service status = record s {
      health_server = set_serving_status s.health_server service status;
    }

    status-set_all :
        (hs : Health) (names : List String) (j : String)
        → status_of (set_all hs names) j
          ≡ (if contains names j then some serving_status else status_of hs j)
    unfolding set_all
    status-set_all hs [] j = refl
    status-set_all hs (name ∷ names) j = ground (
      arith,
      status-set_all (set_serving_status hs name serving_status) names j,
      status-set hs name j serving_status,
    )

    -- the service names of a list of services
    abbrev pub all_names : List Service → List String
    all_names [] = []
    all_names (svr ∷ servers) = names_of svr ++ all_names servers

    register_all_lem :
        (servers : List Service) (registered : List String)
        → register_all servers registered ≡ registered ++ all_names servers
    unfolding register_all
    register_all_lem [] registered = sym (append-nil registered)
    register_all_lem (svr ∷ servers) registered =
        register_all_lem servers (registered ++ names_of svr)
        ∙ append_assoc registered (names_of svr) (all_names servers)

    pub services-new_grpc_server :
        (c : GrpcConfig T) (servers : List Service)
        → (new_grpc_server c servers).services ≡ all_names servers
    unfolding new_grpc_server
    services-new_grpc_server c servers = register_all_lem servers []

    contains-register_all :
        (servers : List Service) (registered : List String) (j : String)
        → contains (register_all servers registered) j
          ≡ (contains registered j || contains (all_names servers) j)
    unfolding register_all
    contains-register_all [] registered j = ground arith
    contains-register_all (svr ∷ servers) registered j = ground (
      arith,
      contains-register_all servers (registered ++ names_of svr) j,
      contains-append registered (names_of svr) j,
      contains-append (names_of svr) (all_names servers) j,
    )

    -- The health server of a new gRPC server reports SERVING for the empty name and for each name that
    -- a service registers, and knows no other name, whatever the order in which the names are
    -- visited; SetHealthStatus then changes the status of the one name that it is called with.
    pub new_grpc_server_lem :
        (c : GrpcConfig T) (servers : List Service) (service j : String) (status : ServingStatus)
        → let s = new_grpc_server c servers in
          let known = str_eq "" j || contains (all_names servers) j in
          (status_of s.health_server j ≡ (if known then some serving_status else none))
          × (status_of (set_health_status s service status).health_server j
              ≡ (if str_eq service j then some status else status_of s.health_server j))
    unfolding new_grpc_server set_health_status register_health_server
    new_grpc_server_lem c servers service j status =
        let names = register_all servers [] in
        let first = set_serving_status new_health "" serving_status in
        (
          ground (
            arith,
            status-set_all first (range.visit names) j,
            contains-perm (range.visit-perm names) j,
            contains-register_all servers [] j,
            status-set new_health "" j serving_status,
            status-new j,
            eq_iff "" j,
          ),
          status-set (register_health_server names) service j status,
        )
