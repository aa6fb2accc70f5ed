-- ===== src/Server/Gateway/Registering.antt =====
-- What the registration of the services makes of the gateway's mux.
use grpcx.Common.{List, [], ◌∷◌, ◌≡◌, Option, none, some, arith, inl, inr}
use grpcx.Common.Result.{Result, success, Result-cases}
use grpcx.Platform.{Platform}
use grpcx.Errs.{GoError}
use grpcx.Server.Options.{Parts}
use grpcx.Server.Gateway.{GatewayPackage, register_services, register_handler, register_custom}

module _ (P : Platform) (T : Parts) (G : GatewayPackage P T) where
  open T use {Service}
  open G use {
    Mux, Conn, new_serve_mux, mux_handler, serve_routes, cors_allow_all, cors_new,
    register_with_handler, register_custom_routes, itoa,
  }

  -- What the registration of one service makes of the mux, if it implements the interface.
  abbrev pub HandlerDone : Option (Mux → Conn → Result (GoError P) Mux) → Conn → Mux → Mux → Type 0
  HandlerDone none conn mux mux' = mux ≡ mux'
  HandlerDone (some register) conn mux mux' = register mux conn ≡ success mux'

  abbrev pub CustomDone : Option (Mux → Result (GoError P) Mux) → Mux → Mux → Type 0
  CustomDone none mux mux' = mux ≡ mux'
  CustomDone (some register) mux mux' = register mux ≡ success mux'

  -- From `mux` to `last`, every service is registered in turn, its handler and then its own routes.
  abbrev pub AllRegistered : Conn → List Service → Mux → Mux → Type 0
  AllRegistered conn [] mux last = mux ≡ last
  AllRegistered conn (svr ∷ servers) mux last =
      (mux1 : Mux) × (mux2 : Mux) × HandlerDone (register_with_handler svr) conn mux mux1
      × CustomDone (register_custom_routes svr) mux1 mux2
      × AllRegistered conn servers mux2 last

  register_handler-HandlerDone :
      (o : Option (Mux → Conn → Result (GoError P) Mux)) (conn : Conn) (mux mux' : Mux)
      → register_handler P T G o conn mux ≡ success mux'
      → HandlerDone o conn mux mux'
  unfolding register_handler
  register_handler-HandlerDone none conn mux mux' e = ground (arith, e)
  register_handler-HandlerDone (some register) conn mux mux' e =
      elim (Result-cases (register mux conn)) [
        | inl (err, q) ↦ absurd (ground (arith, e, q))
        | inr (m, q) ↦ ground (arith, e, q)
      ]

  register_custom-CustomDone :
      (o : Option (Mux → Result (GoError P) Mux)) (mux mux' : Mux)
      → register_custom P T G o mux ≡ success mux'
      → CustomDone o mux mux'
  unfolding register_custom
  register_custom-CustomDone none mux mux' e = ground (arith, e)
  register_custom-CustomDone (some register) mux mux' e = elim (Result-cases (register mux)) [
    | inl (err, q) ↦ absurd (ground (arith, e, q))
    | inr (m, q) ↦ ground (arith, e, q)
  ]

  pub register_services-AllRegistered :
      (conn : Conn) (servers : List Service) (mux last : Mux)
      → register_services P T G conn servers mux ≡ success last
      → AllRegistered conn servers mux last
  unfolding register_services
  register_services-AllRegistered conn [] mux last e = ground (arith, e)
  register_services-AllRegistered conn (svr ∷ servers) mux last e =
      elim (Result-cases (register_handler P T G (register_with_handler svr) conn mux)) [
        | inl (err, q) ↦ absurd (ground (arith, e, q))
        | inr (mux1, q) ↦
            elim (Result-cases (register_custom P T G (register_custom_routes svr) mux1)) [
              | inl (err, r) ↦ absurd (ground (arith, e, q, r))
              | inr (mux2, r) ↦ (
                mux1,
                mux2,
                register_handler-HandlerDone (register_with_handler svr) conn mux mux1 q,
                register_custom-CustomDone (register_custom_routes svr) mux1 mux2 r,
                register_services-AllRegistered conn servers mux2 last (ground (arith, e, q, r)),
              )
            ]
      ]
