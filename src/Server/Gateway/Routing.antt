-- ===== src/Server/Gateway/Routing.antt =====
-- Where newGatewayServer mounts the gateway and the server's handlers, and the order of the middlewares.
use grpcx.Common.{
  ℕ, zero, suc, String, List, [], ◌∷◌, ◌≡◌, refl, ◌∙◌, ap, none, some, if◌then◌else◌, str_eq,
  eq_iff, length, get_elem?, lookup, store, lookup-store, string_equality, arith, Option-cases, inl,
  inr, subst, fun_ext, Bool-cases,
}
use grpcx.Platform.{Platform}
use grpcx.Server.Metrics.{Routes, ServerMux, registered, handle, mux_handle, wrap}
use grpcx.Server.Endpoints.{Endpoint}
use grpcx.Server.Options.{Parts, GatewayConfig, HttpMiddleware, HttpRoutes}
use grpcx.Server.Gateway.{
  apply_middlewares, add_routes, add_handlers, gateway_routes, GatewayPackage, mount_point,
  server_mux,
}

-- The middlewares around a handler, the first outermost.
abbrev pub layered : List HttpMiddleware → Endpoint → Endpoint
layered [] handler = handler
layered (m ∷ middlewares) handler = m (layered middlewares handler)

apply_middlewares-cons :
    (m : HttpMiddleware) (ms : List HttpMiddleware) (i : ℕ) (h : Endpoint)
    → apply_middlewares (m ∷ ms) (suc i) h ≡ m (apply_middlewares ms i h)
unfolding apply_middlewares
apply_middlewares-cons m ms zero h = refl
apply_middlewares-cons m ms (suc i) h = elim (Option-cases (get_elem? ms i)) [
  | inl missing ↦ rw (missing, apply_middlewares) (apply_middlewares-cons m ms i h)
  | inr (k, there) ↦ rw (there, apply_middlewares) (apply_middlewares-cons m ms i (k h))
]

pub apply_middlewares_lem :
    (ms : List HttpMiddleware) (h : Endpoint) → apply_middlewares ms (length ms) h ≡ layered ms h
unfolding apply_middlewares
apply_middlewares_lem [] h = refl
apply_middlewares_lem (m ∷ ms) h =
    apply_middlewares-cons m ms (length ms) h ∙ ap m (apply_middlewares_lem ms h)

-- A registration keeps the routes that are there, and fails where the pattern has one.
mux_handle_lem :
    (mux : ServerMux) (pattern : String) (h : Endpoint) (routes next : Routes)
    → mux_handle mux pattern h routes ≡ some next
    → (lookup pattern routes ≡ none)
      × ((q : String)
          → lookup q next
            ≡ (if str_eq pattern q then some (registered mux pattern h) else lookup q routes))
unfolding mux_handle handle
mux_handle_lem mux pattern h routes next e = elim (Option-cases (lookup pattern routes)) [
  | inr (there, q) ↦ absurd (ground (arith, q, e))
  | inl missing ↦
      let same : store pattern (registered mux pattern h) routes ≡ next =
        ground (arith, e, missing) in
      (
        missing,
        λ q.
            subst
              (λ t.
                lookup q t
                ≡ (if str_eq pattern q then some (registered mux pattern h) else lookup q routes))
              same (lookup-store pattern q (registered mux pattern h) routes),
      )
]

-- Every route of `more` is in `routes`, wrapped by `wrapped`.
abbrev pub AreRegistered : (String → Endpoint → Endpoint) → HttpRoutes → Routes → Type 0
AreRegistered wrapped [] routes = Unit
AreRegistered wrapped ((pattern, h) ∷ more) routes =
    (lookup pattern routes ≡ some (wrapped pattern h)) × AreRegistered wrapped more routes

-- `next` has all routes of `routes`.
abbrev Extends : Routes → Routes → Type 0
Extends routes next =
    (q : String) (h : Endpoint) → lookup q routes ≡ some h → lookup q next ≡ some h

mux_handle-Extends :
    (mux : ServerMux) (pattern : String) (h : Endpoint) (routes next : Routes)
    → mux_handle mux pattern h routes ≡ some next
    → Extends routes next
mux_handle-Extends mux pattern h routes next e q k there =
    let f = mux_handle_lem mux pattern h routes next e in
    ground (arith, f.0, f.1 q, eq_iff pattern q, there)

AreRegistered-Extends :
    (wrapped : String → Endpoint → Endpoint) (more : HttpRoutes) (routes next : Routes)
    → Extends routes next
    → AreRegistered wrapped more routes
    → AreRegistered wrapped more next
AreRegistered-Extends wrapped [] routes next ext h = tt
AreRegistered-Extends wrapped ((pattern, k) ∷ more) routes next ext h =
    (ext pattern (wrapped pattern k) h.0, AreRegistered-Extends wrapped more routes next ext h.1)

add_routes_lem :
    (mux : ServerMux) (more : HttpRoutes) (routes last : Routes)
    → add_routes mux more routes ≡ some last
    → Extends routes last × AreRegistered (registered mux) more last
unfolding add_routes
add_routes_lem mux [] routes last e =
    let same : routes ≡ last = ground (arith, e) in
    (λ q k there. subst (λ t. lookup q t ≡ some k) same there, tt)
add_routes_lem mux ((pattern, h) ∷ more) routes last e =
    elim (Option-cases (mux_handle mux pattern h routes)) [
      | inl missing ↦ absurd (ground (arith, e, missing))
      | inr (next, q) ↦
          let rest : add_routes mux more next ≡ some last = ground (arith, e, q) in
          let ih = add_routes_lem mux more next last rest in
          let here = mux_handle_lem mux pattern h routes next q in
          let first = mux_handle-Extends mux pattern h routes next q in
          (
            λ k t there. ih.0 k t (first k t there),
            (
              ih.0 pattern (registered mux pattern h)
                  (ground (arith, here.1 pattern, eq_iff pattern pattern)),
              ih.1,
            ),
          )
    ]

-- Every handler's routes are registered.
abbrev pub HandlersRegistered : (String → Endpoint → Endpoint) → List HttpRoutes → Routes → Type 0
HandlersRegistered wrapped [] routes = Unit
HandlersRegistered wrapped (h ∷ handlers) routes =
    AreRegistered wrapped h routes × HandlersRegistered wrapped handlers routes

HandlersRegistered-Extends :
    (wrapped : String → Endpoint → Endpoint) (handlers : List HttpRoutes) (routes next : Routes)
    → Extends routes next
    → HandlersRegistered wrapped handlers routes
    → HandlersRegistered wrapped handlers next
HandlersRegistered-Extends wrapped [] routes next ext h = tt
HandlersRegistered-Extends wrapped (k ∷ handlers) routes next ext h = (
  AreRegistered-Extends wrapped k routes next ext h.0,
  HandlersRegistered-Extends wrapped handlers routes next ext h.1,
)

add_handlers_lem :
    (mux : ServerMux) (handlers : List HttpRoutes) (routes last : Routes)
    → add_handlers mux handlers routes ≡ some last
    → Extends routes last × HandlersRegistered (registered mux) handlers last
unfolding add_handlers
add_handlers_lem mux [] routes last e =
    let same : routes ≡ last = ground (arith, e) in
    (λ q k there. subst (λ t. lookup q t ≡ some k) same there, tt)
add_handlers_lem mux (h ∷ handlers) routes last e = elim (Option-cases (add_routes mux h routes)) [
  | inl missing ↦ absurd (ground (arith, e, missing))
  | inr (next, q) ↦
      let rest : add_handlers mux handlers next ≡ some last = ground (arith, e, q) in
      let ih = add_handlers_lem mux handlers next last rest in
      let first = add_routes_lem mux h routes next q in
      (
        λ k t there. ih.0 k t (first.0 k t there),
        (AreRegistered-Extends (registered mux) h next last ih.0 first.1, ih.1),
      )
]

module _ (P : Platform) (T : Parts) (G : GatewayPackage P T) where
  open G use {Conn, new_serve_mux, mux_handler, serve_routes}

  -- how a handler is registered: counted by the metrics unless those are off
  abbrev pub counted : GatewayConfig T → String → Endpoint → Endpoint
  counted c pattern h = if c.no_metrics_recorder then h else wrap c.service_name pattern h

  -- The mux that serves: each server handler's routes and the gateway at "/" or the base path.
  abbrev pub IsRouted : GatewayConfig T → Endpoint → Routes → Type 0
  IsRouted c handler routes =
      let mount = if str_eq c.base_path_override "" then "/" else c.base_path_override in
      (lookup mount routes ≡ some (counted c mount handler))
      × HandlersRegistered (counted c) c.server_handlers routes

  pub registered_lem : (c : GatewayConfig T) → registered (server_mux P T G c) ≡ counted c
  unfolding registered
  registered_lem c = fun_ext (λ pattern. fun_ext (λ h. elim (Bool-cases c.no_metrics_recorder) [
    | inl off ↦ rw (off, registered) refl
    | inr on ↦ rw (on, registered) refl
  ]))

  abbrev AreRouted : GatewayConfig T → (String → Endpoint → Endpoint) → Endpoint → Routes → Type 0
  AreRouted c wrapped handler routes =
      (lookup (mount_point P T G c) routes ≡ some (wrapped (mount_point P T G c) handler))
      × HandlersRegistered wrapped c.server_handlers routes

  pub gateway_routes_lem :
      (c : GatewayConfig T) (handler : Endpoint) (routes : Routes)
      → gateway_routes P T G c handler ≡ some routes
      → IsRouted c handler routes
  unfolding gateway_routes
  gateway_routes_lem c handler routes e =
      let mux = server_mux P T G c in
      let mount = mount_point P T G c in
      elim (Option-cases (add_handlers mux c.server_handlers [])) [
        | inl missing ↦ absurd (ground (arith, e, missing))
        | inr (before, q) ↦
            let last : mux_handle mux mount handler before ≡ some routes = ground (arith, e, q) in
            let here = mux_handle_lem mux mount handler before routes last in
            subst (λ t. AreRouted c t handler routes) (registered_lem c)
              (
                ground (arith, here.1 mount, eq_iff mount mount),
                HandlersRegistered-Extends (registered mux) c.server_handlers before routes
                    (mux_handle-Extends mux mount handler before routes last)
                    (add_handlers_lem mux c.server_handlers [] before q).1,
              )
      ]
