-- ===== src/Server/Gateway/Building.antt =====
-- What newGatewayServer of server/gateway.go builds, and its errors.
use grpcx.Common.{
  List, [], ◌∷◌, ◌++◌, ◌≡◌, refl, ◌∙◌, ap, Option, none, some, length, arith, Option-cases, inl,
  inr, subst,
}
use grpcx.Common.Result.{Result, success, failure, Result-cases}
use grpcx.Platform.{Platform}
use grpcx.Errs.{GoError, wrapped}
use grpcx.Server.Metrics.{Routes}
use grpcx.Server.Options.{Parts, GatewayConfig, HttpServerConfig}
use grpcx.Common.Text.{◌+++◌}
use grpcx.Server.Gateway.{
  rejected, built, apply_middlewares, gateway_routes, GatewayPackage, HttpServer,
  new_gateway_server, register_services, register_handler, register_custom, cors_handler,
  listen_string, configured, apply_to, default_settings,
}
use grpcx.Server.Gateway.Fronting.{fronted, cors_handler_lem}
use grpcx.Server.Gateway.Registering.{AllRegistered, register_services-AllRegistered}
use grpcx.Server.Gateway.Routing.{layered, IsRouted, gateway_routes_lem, apply_middlewares_lem}

abbrev pub settings_of {ℓ} : {A : Type ℓ} → A → Option A → A
settings_of d none = d
settings_of d (some own) = own

module _ (P : Platform) (T : Parts) (G : GatewayPackage P T) where
  open T use {Service}
  open G use {
    Mux, Conn, new_serve_mux, mux_handler, serve_routes, cors_allow_all, cors_new,
    register_with_handler, register_custom_routes, itoa,
  }

  -- the settings of a server without a configuration: 30 seconds for the header of a request
  abbrev pub header_timeout_only : HttpServerConfig T
  header_timeout_only = record {
    tls_config = none;
    read_timeout = 0;
    read_header_timeout = 30;
    write_timeout = 0;
    idle_timeout = 0;
    max_header_bytes = 0;
    tls_next_proto = none;
    conn_state = none;
  }

  -- the server, where its routes are known
  abbrev pub IsServer : GatewayConfig T → Mux → Routes → HttpServer P T → Type 0
  IsServer c mux routes s =
      IsRouted P T G c (layered c.server_middlewares (mux_handler mux)) routes
      × (s.handler ≡ fronted P T G c.cors (serve_routes routes))
      × (s.addr ≡ (c.gateway_addr.host +++ ":" +++ itoa c.gateway_addr.port))
      × (s.settings ≡ settings_of header_timeout_only c.server_config)

  configured_lem :
      (cfg : Option (HttpServerConfig T)) (s : HttpServer P T)
      → ((configured P T G cfg s).handler ≡ s.handler)
        × ((configured P T G cfg s).addr ≡ s.addr)
        × ((configured P T G cfg s).settings ≡ settings_of s.settings cfg)
  unfolding configured apply_to
  configured_lem none s = (refl, refl, refl)
  configured_lem (some own) s = (refl, refl, refl)

  abbrev initial_server : GatewayConfig T → Routes → HttpServer P T
  initial_server c routes = record {
    addr = listen_string itoa c.gateway_addr;
    handler = cors_handler P T G c.cors (serve_routes routes);
    settings = default_settings P T G;
  }

  -- A gateway server that is built serves, behind the CORS handler of the configuration or one that
  -- allows all, the routes of every server handler and, at "/" or the base path, the gateway's mux,
  -- inside the middlewares in their order, the first outermost; every route counts metrics unless
  -- those are off. In that mux every service is registered in turn, its handler and then its custom
  -- routes, where it has them. The server listens at the configured address, and its settings are those of the server
  -- configuration, all of them, or a limit of 30 seconds for the header of a request if there is none.
  pub new_gateway_server_lem :
      (c : GatewayConfig T) (conn : Conn) (servers : List Service) (s : HttpServer P T)
      → new_gateway_server P T G c conn servers ≡ built s
      → (mux : Mux) × (routes : Routes) × AllRegistered P T G conn servers
          (new_serve_mux c.mux_options)
          mux
        × IsServer c mux routes s
  unfolding new_gateway_server listen_string
  new_gateway_server_lem c conn servers s e =
      elim (Result-cases (register_services P T G conn servers (new_serve_mux c.mux_options))) [
        | inl (err, q) ↦ absurd (ground (arith, e, q))
        | inr (mux, q) ↦
            let handler =
              apply_middlewares c.server_middlewares (length c.server_middlewares)
                (mux_handler mux) in
            elim (Option-cases (gateway_routes P T G c handler)) [
              | inl missing ↦ absurd (ground (arith, e, q, missing))
              | inr (routes, r) ↦
                  let x = initial_server c routes in
                  let same : configured P T G c.server_config x ≡ s = ground (arith, e, q, r) in
                  let f = configured_lem c.server_config x in
                  (
                    mux,
                    routes,
                    register_services-AllRegistered P T G conn servers (new_serve_mux c.mux_options)
                        mux q,
                    (
                      subst (λ t. IsRouted P T G c t routes)
                          (apply_middlewares_lem c.server_middlewares (mux_handler mux))
                          (gateway_routes_lem P T G c handler routes r),
                      subst (λ t. t.handler ≡ x.handler) same f.0
                          ∙ cors_handler_lem P T G c.cors (serve_routes routes),
                      subst (λ t. t.addr ≡ x.addr) same f.1,
                      subst (λ t. t.settings ≡ settings_of x.settings c.server_config) same f.2,
                    ),
                  )
            ]
      ]

  register_services-append :
      (conn : Conn) (front back : List Service) (mux mux' : Mux)
      → register_services P T G conn front mux ≡ success mux'
      → register_services P T G conn (front ++ back) mux ≡ register_services P T G conn back mux'
  unfolding register_services
  register_services-append conn [] back mux mux' e =
      ap (register_services P T G conn back) (ground (arith, e))
  register_services-append conn (svr ∷ front) back mux mux' e =
      elim (Result-cases (register_handler P T G (register_with_handler svr) conn mux)) [
        | inl (err, q) ↦ absurd (ground (arith, e, q))
        | inr (mux1, q) ↦
            elim (Result-cases (register_custom P T G (register_custom_routes svr) mux1)) [
              | inl (err, r) ↦ absurd (ground (arith, e, q, r))
              | inr (mux2, r) ↦
                  rw (q, register_services, r)
                    (register_services-append conn front back mux2 mux' (ground (arith, e, q, r)))
            ]
      ]

  rejects :
      (c : GatewayConfig T) (conn : Conn) (front back : List Service) (mux : Mux) (e : GoError P)
      → register_services P T G conn front (new_serve_mux c.mux_options) ≡ success mux
      → register_services P T G conn back mux ≡ failure e
      → new_gateway_server P T G c conn (front ++ back) ≡ rejected e
  unfolding new_gateway_server
  rejects c conn front back mux e h k =
      rw
        (
          register_services-append conn front back (new_serve_mux c.mux_options) mux h ∙ k,
          new_gateway_server,
        )
        refl

  -- The first service whose registration fails ends the construction: its error is returned behind a
  -- message that says which of its two registrations failed, and the services after it are not
  -- registered.
  pub new_gateway_server-first_failure :
      (c : GatewayConfig T) (conn : Conn) (front back : List Service) (svr : Service) (mux : Mux)
      (e : GoError P)
      → register_services P T G conn front (new_serve_mux c.mux_options) ≡ success mux
      → ((register : Mux → Conn → Result (GoError P) Mux)
          → register_with_handler svr ≡ some register
          → register mux conn ≡ failure e
          → new_gateway_server P T G c conn (front ++ svr ∷ back)
            ≡ rejected (wrapped "failed to register handler: " e))
        × ((mux' : Mux) (custom : Mux → Result (GoError P) Mux)
            → register_handler P T G (register_with_handler svr) conn mux ≡ success mux'
            → register_custom_routes svr ≡ some custom
            → custom mux' ≡ failure e
            → new_gateway_server P T G c conn (front ++ svr ∷ back)
              ≡ rejected (wrapped "failed to register custom routes: " e))
  unfolding register_services register_handler register_custom
  new_gateway_server-first_failure c conn front back svr mux e h = (
    λ register there fails.
        rejects c conn front (svr ∷ back) mux (wrapped "failed to register handler: " e) h
          (ground (arith, there, fails)),
    λ mux' custom done there fails.
        rejects c conn front (svr ∷ back) mux (wrapped "failed to register custom routes: " e) h
          (rw (done, register_services) (ground (arith, there, fails))),
  )
