-- ===== src/Server/Gateway/Panics.antt =====
-- What becomes of a panic behind the gateway.
use grpcx.Common.{
  String, List, ◌∷◌, ◌≡◌, refl, ◌∙◌, sym, some, subst, lookup, string_equality, true, false,
}
use grpcx.Platform.{Platform}
use grpcx.Http.{HttpRequest, ResponseWriter, write_header}
use grpcx.Server.Endpoints.{Endpoint, play}
use grpcx.Server.Metrics.{Routes, ServerMux, plain_mux, metrics_recording_mux, registered}
use grpcx.Server.Metrics.Recording.{wrap_lem, wrap-NoInformational}
use grpcx.Server.Endpoints.Writers.{NoInformational}
use grpcx.Server.Middleware.{logging_middleware}
use grpcx.Server.Middleware.Recovery.{logging_middleware_lem, logging_middleware-NoInformational}
use grpcx.Server.Options.{Parts, GatewayConfig, HttpMiddleware}
use grpcx.Server.Gateway.{
  built, GatewayPackage, HttpServer, new_gateway_server, cors_handler, mount_point, server_mux,
}
use grpcx.Server.Gateway.Routing.{layered, registered_lem}
use grpcx.Server.Gateway.Building.{new_gateway_server_lem}
use grpcx.Server.Gateway.Fronting.{cors_handler_lem}

module _ (P : Platform) (T : Parts) (G : GatewayPackage P T) where
  open T use {Service, otel_handler}
  open G use {Mux, Conn, mux_handler, serve_routes}

  -- What a middleware keeps of the handler inside: whether it panics and, where that sends no
  -- informational status, that it sends none and the client's response.
  abbrev pub IsTransparent : HttpMiddleware → Type 0
  IsTransparent m =
      (next : Endpoint) (r : HttpRequest)
      → ((m next r).panics ≡ (next r).panics)
        × (NoInformational (next r).calls
            → NoInformational (m next r).calls
              × ((w : ResponseWriter) → play w (m next r).calls ≡ play w (next r).calls))

  registered-IsTransparent :
      (mux : ServerMux) (pattern : String) → IsTransparent (registered mux pattern)
  unfolding registered
  registered-IsTransparent plain_mux pattern next r = (refl, λ n. (n, λ w. refl))
  registered-IsTransparent (metrics_recording_mux service) pattern next r =
      let f = wrap_lem service pattern next r in
      (f.2, λ n. (wrap-NoInformational service pattern next r n, f.0 n))

  -- A gateway whose middlewares are the two of the default configuration and then those of the
  -- application never lets a panic out of the handler at its mount point, the metrics around it
  -- included, as long as the tracing of OpenTelemetry is transparent. Where a middleware of the
  -- application or the gateway's mux panics and has sent no informational status, the client gets 500
  -- unless a status has been sent.
  pub new_gateway_server-no_panic :
      (c : GatewayConfig T) (conn : Conn) (servers : List Service) (s : HttpServer P T)
      (app : List HttpMiddleware)
      → new_gateway_server P T G c conn servers ≡ built s
      → c.server_middlewares ≡ otel_handler "grpc-gateway" ∷ logging_middleware ∷ app
      → IsTransparent (otel_handler "grpc-gateway")
      → (mux : Mux) × (routes : Routes) × (mounted : Endpoint) × (s.handler
          ≡ cors_handler P T G c.cors (serve_routes routes))
        × (lookup (mount_point P T G c) routes ≡ some mounted)
        × ((r : HttpRequest)
            → ((mounted r).panics ≡ false)
              × ((layered app (mux_handler mux) r).panics ≡ true
                  → NoInformational (layered app (mux_handler mux) r).calls
                  → (w : ResponseWriter)
                  → play w (mounted r).calls
                    ≡ write_header (play w (layered app (mux_handler mux) r).calls) 500))
  new_gateway_server-no_panic c conn servers s app e ms otel =
      let f = new_gateway_server_lem P T G c conn servers s e in
      let inside : Endpoint = layered app (mux_handler f.0) in
      let traced : Endpoint = otel_handler "grpc-gateway" (logging_middleware inside) in
      let mux = server_mux P T G c in
      let mount = mount_point P T G c in
      let found : lookup mount f.1 ≡ some (registered mux mount traced) =
        subst (λ t. lookup mount f.1 ≡ some (registered mux mount (layered t (mux_handler f.0)))) ms
          (subst
            (λ t.
              lookup mount f.1 ≡ some (t mount (layered c.server_middlewares (mux_handler f.0))))
            (sym (registered_lem P T G c)) (f.3.0.0)) in
      (
        f.0,
        f.1,
        registered mux mount traced,
        f.3.1 ∙ sym (cors_handler_lem P T G c.cors (serve_routes f.1)),
        found,
        λ r.
            let out = registered-IsTransparent mux mount traced r in
            let middle = otel (logging_middleware inside) r in
            let log = logging_middleware_lem inside r in
            (
              out.0 ∙ middle.0 ∙ log.0,
              λ panics n w.
                  let n1 = logging_middleware-NoInformational inside r n in
                  let n2 = (middle.1 n1).0 in
                  (out.1 n2).1 w ∙ (middle.1 n1).1 w ∙ (log.3 panics).0 n w,
            ),
      )
