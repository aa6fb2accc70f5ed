-- ===== src/Server/Gateway.antt =====
-- newGatewayServer and CORSHandler of server/gateway.go. The muxes of the gateway and the packages that
-- serve are parameters.
pub mod Routing
pub mod Building
pub mod Fronting
pub mod Registering
pub mod Panics
pub mod Modifier
mod Tests
use grpcx.Common.{
  ◌≡◌, ◌⊎◌, inl, inr, refl, ℕ, String, List, [], ◌∷◌, Option, none, some, if◌then◌else◌, length,
  get_elem?, zero, suc, string_equality, str_eq,
}
use grpcx.Common.Text.{◌+++◌}
use grpcx.Common.Result.{Result, success, failure}
use grpcx.Platform.{Platform}
use grpcx.Errs.{GoError, wrapped}
use grpcx.Server.Headers.{CorsConfig, to_options}
use grpcx.Server.Metrics.{Routes, ServerMux, plain_mux, metrics_recording_mux, mux_handle}
use grpcx.Server.Endpoints.{Endpoint}
use grpcx.Server.Options.{
  MuxOption, Parts, GatewayConfig, HttpServerConfig, HttpMiddleware, HttpRoutes, Listen,
}

-- What a constructor gives that may panic: the panic, an error, or the value.
pub data Construct {ℓ κ} (E : Type ℓ) (A : Type κ) : Type (ℓ ⊔ κ) where
  panicked : Construct E A
  rejected : E → Construct E A
  built : A → Construct E A

pub Construct-cases {ℓ κ} :
    {E : Type ℓ} {A : Type κ} (r : Construct E A)
    → (r ≡ panicked) ⊎ ((e : E) × (r ≡ rejected e)) ⊎ ((a : A) × (r ≡ built a))
Construct-cases panicked = inl refl
Construct-cases (rejected e) = inr (inl (e, refl))
Construct-cases (built a) = inr (inr (a, refl))

-- The loop from the last middleware to the first, with `i` middlewares still to apply.
unfoldable pub apply_middlewares : List HttpMiddleware → ℕ → Endpoint → Endpoint
apply_middlewares middlewares zero handler = handler
apply_middlewares middlewares (suc i) handler = elim (get_elem? middlewares i) [
  | some m ↦ apply_middlewares middlewares i (m handler)
  | none ↦ apply_middlewares middlewares i handler
]

-- the routes of one HTTPServerHandler, and the loop over the handlers
unfoldable pub add_routes : ServerMux → HttpRoutes → Routes → Option Routes
unfolding mux_handle
add_routes mux [] routes = some routes
add_routes mux ((pattern, h) ∷ more) routes = elim (mux_handle mux pattern h routes) [
  | none ↦ none
  | some next ↦ add_routes mux more next
]

unfoldable pub add_handlers : ServerMux → List HttpRoutes → Routes → Option Routes
unfolding add_routes
add_handlers mux [] routes = some routes
add_handlers mux (h ∷ handlers) routes = elim (add_routes mux h routes) [
  | none ↦ none
  | some next ↦ add_handlers mux handlers next
]

-- Listen.String, where `itoa` prints a number
unfoldable pub listen_string : (ℕ → String) → Listen → String
listen_string itoa l = l.host +++ ":" +++ itoa l.port

module _ (P : Platform) (T : Parts) where
  open T use {OwnMuxOption, TlsConfig, TlsNextProto, ConnState, Service}

  -- runtime's mux with what services register at it, the cors package, and the HTTP mux as a handler
  pub record GatewayPackage : Type 1 where
    pub Mux : Type 0
    pub Conn : Type 0
    pub new_serve_mux : List (MuxOption OwnMuxOption) → Mux
    pub mux_handler : Mux → Endpoint
    pub serve_routes : Routes → Endpoint
    pub cors_allow_all : Endpoint → Endpoint
    pub cors_new : CorsConfig → Endpoint → Endpoint
    pub register_with_handler : Service → Option (Mux → Conn → Result (GoError P) Mux)
    pub register_custom_routes : Service → Option (Mux → Result (GoError P) Mux)
    pub itoa : ℕ → String

  -- the fields of net/http's Server that the gateway sets
  pub record HttpServer : Type 0 where
    pub addr : String
    pub handler : Endpoint
    pub settings : HttpServerConfig T

  -- HTTPServerConfig.applyTo
  unfoldable pub apply_to : HttpServerConfig T → HttpServer → HttpServer
  apply_to c s = record s { settings = c }

  module _ (G : GatewayPackage) where
    open G use {
      Mux, Conn, new_serve_mux, mux_handler, serve_routes, cors_allow_all, cors_new,
      register_with_handler, register_custom_routes, itoa,
    }

    -- registration where the service implements the interface
    unfoldable pub register_custom :
        Option (Mux → Result (GoError P) Mux) → Mux → Result (GoError P) Mux
    register_custom none mux = success mux
    register_custom (some register) mux = elim (register mux) [
      | failure e ↦ failure (wrapped "failed to register custom routes: " e)
      | success mux' ↦ success mux'
    ]

    unfoldable pub register_handler :
        Option (Mux → Conn → Result (GoError P) Mux) → Conn → Mux → Result (GoError P) Mux
    register_handler none conn mux = success mux
    register_handler (some register) conn mux = elim (register mux conn) [
      | failure e ↦ failure (wrapped "failed to register handler: " e)
      | success mux' ↦ success mux'
    ]

    unfoldable pub register_services : Conn → List Service → Mux → Result (GoError P) Mux
    unfolding register_custom register_handler
    register_services conn [] mux = success mux
    register_services conn (svr ∷ servers) mux =
        elim (register_handler (register_with_handler svr) conn mux) [
          | failure e ↦ failure e
          | success mux' ↦ elim (register_custom (register_custom_routes svr) mux') [
            | failure e ↦ failure e
            | success mux'' ↦ register_services conn servers mux''
          ]
        ]

    unfoldable pub cors_handler : Option CorsConfig → Endpoint → Endpoint
    unfolding to_options
    cors_handler none mux = cors_allow_all mux
    cors_handler (some cfg) mux = cors_new (to_options cfg) mux

    abbrev pub mount_point : GatewayConfig T → String
    mount_point c = if str_eq c.base_path_override "" then "/" else c.base_path_override

    abbrev pub server_mux : GatewayConfig T → ServerMux
    server_mux c = if c.no_metrics_recorder then plain_mux else metrics_recording_mux c.service_name

    -- ReadHeaderTimeout is ServerShutdownTimeout, 30 seconds; the other fields are zero
    abbrev pub default_settings : HttpServerConfig T
    default_settings = record {
      tls_config = none;
      read_timeout = 0;
      read_header_timeout = 30;
      write_timeout = 0;
      idle_timeout = 0;
      max_header_bytes = 0;
      tls_next_proto = none;
      conn_state = none;
    }

    unfoldable pub configured : Option (HttpServerConfig T) → HttpServer → HttpServer
    unfolding apply_to
    configured none s = s
    configured (some cfg) s = apply_to cfg s

    -- The routes of the gateway's mux once `handler` is mounted.
    unfoldable pub gateway_routes : GatewayConfig T → Endpoint → Option Routes
    unfolding add_handlers mux_handle
    gateway_routes c handler = elim (add_handlers (server_mux c) c.server_handlers []) [
      | none ↦ none
      | some routes ↦ mux_handle (server_mux c) (mount_point c) handler routes
    ]

    unfoldable pub new_gateway_server :
        GatewayConfig T → Conn → List Service → Construct (GoError P) HttpServer
    unfolding register_services apply_middlewares gateway_routes cors_handler listen_string
        configured
    new_gateway_server c conn servers =
        elim (register_services conn servers (new_serve_mux c.mux_options)) [
          | failure e ↦ rejected e
          | success mux ↦
              let handler =
                apply_middlewares c.server_middlewares (length c.server_middlewares)
                  (mux_handler mux) in
              elim (gateway_routes c handler) [
                | none ↦ panicked
                | some routes ↦ built (
                    configured c.server_config (record {
                      addr = listen_string itoa c.gateway_addr;
                      handler = cors_handler c.cors (serve_routes routes);
                      settings = default_settings;
                    }))
              ]
        ]
