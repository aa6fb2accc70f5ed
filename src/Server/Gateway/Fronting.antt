-- ===== src/Server/Gateway/Fronting.antt =====
-- The CORS handler of newGatewayServer, in front of the routes.
use grpcx.Common.{
  if◌then◌else◌, ◌==◌, String, List, [], ◌∷◌, ◌≡◌, refl, ◌∙◌, ap, Option, none, some, length, arith,
}
use grpcx.Platform.{Platform}
use grpcx.Server.Options.{Parts}
use grpcx.Server.Endpoints.{Endpoint}
use grpcx.Server.Headers.{CorsConfig, to_options, default_methods, default_headers}
use grpcx.Server.Gateway.{GatewayPackage, cors_handler}

-- the CORS methods and headers where none are configured
abbrev pub methods_of : List String → List String
methods_of [] = "DELETE" ∷ "GET" ∷ "PATCH" ∷ "POST" ∷ "PUT" ∷ "OPTIONS" ∷ []
methods_of methods = methods

abbrev pub headers_of : List String → List String
headers_of [] = "Accept" ∷ "Authorization" ∷ "Content-Type" ∷ "Origin" ∷ "X-Requested-With" ∷ []
headers_of headers = headers

methods_of_lem : (l : List String) → (if length l == 0 then default_methods else l) ≡ methods_of l
methods_of_lem [] = refl
methods_of_lem (m ∷ ms) = ground arith

headers_of_lem : (l : List String) → (if length l == 0 then default_headers else l) ≡ headers_of l
headers_of_lem [] = refl
headers_of_lem (h ∷ hs) = ground arith

to_options_lem :
    (cfg : CorsConfig)
    → to_options cfg ≡ record cfg {
      allowed_methods = methods_of cfg.allowed_methods;
      allowed_headers = headers_of cfg.allowed_headers;
    }
unfolding to_options
to_options_lem cfg =
    ap
      (λ t. record cfg {
        allowed_methods = t;
        allowed_headers =
            if length cfg.allowed_headers == 0 then default_headers else cfg.allowed_headers;
      })
      (methods_of_lem cfg.allowed_methods)
    ∙ ap (λ t. record cfg { allowed_methods = methods_of cfg.allowed_methods; allowed_headers = t })
        (headers_of_lem cfg.allowed_headers)

module _ (P : Platform) (T : Parts) (G : GatewayPackage P T) where
  open T use {Service}
  open G use {
    Mux, Conn, new_serve_mux, mux_handler, serve_routes, cors_allow_all, cors_new,
    register_with_handler, register_custom_routes, itoa,
  }

  -- What is in front of the routes: the CORS handler of the configuration, or one that allows all.
  abbrev pub fronted : Option CorsConfig → Endpoint → Endpoint
  fronted none inner = cors_allow_all inner
  fronted (some cfg) inner =
      cors_new
        (record cfg {
          allowed_methods = methods_of cfg.allowed_methods;
          allowed_headers = headers_of cfg.allowed_headers;
        })
        inner

  pub cors_handler_lem :
      (cors : Option CorsConfig) (inner : Endpoint)
      → cors_handler P T G cors inner ≡ fronted cors inner
  unfolding cors_handler
  cors_handler_lem none inner = refl
  cors_handler_lem (some cfg) inner = ap (λ t. cors_new t inner) (to_options_lem cfg)
