-- ===== src/Server/Lifecycle/Stopping.antt =====
-- What Server.Serve of server/server.go returns where a server reports no error of its own: after a
-- graceful stop, and where the gRPC listener does not open.
use grpcx.Common.{◌≡◌, ◌⊎◌, inl, inr, refl, Option, none, some, Option-cases, arith, ℕ}
use grpcx.Common.Result.{success, failure}
use grpcx.Common.Text.{◌+++◌}
use grpcx.Platform.{Platform}
use grpcx.Errs.{GoError, wrapped}
use grpcx.Server.Gateway.{listen_string}
use grpcx.Server.Options.{Listen}
use grpcx.Server.Lifecycle.{
  ServeState, ServeRun, server_closed, gateway_serve, ListenPackage, create_listener, grpc_serve,
}
use grpcx.Server.Lifecycle.Serving.{ServeRun-bounded, ServeRun-progress, NextStep}

-- the runs where only the gRPC server gives an error, and where none does
returned-failed :
    {E : Type 0} (result : Option E) (err : E) (n : ℕ) (s : ServeState E)
    → ServeRun none result n s
    → result ≡ some err
    → NextStep none result s ⊎ (s.returned ≡ some err)
returned-failed result err n s run q = elim (ServeRun-progress none result n s run) [
  | inl next ↦ inl next
  | inr done ↦ elim (Option-cases s.returned) [
    | inl missing ↦ absurd (ground (arith, done, missing, q))
    | inr (e, there) ↦ elim ((ServeRun-bounded none result n s run).1 e there) [
      | inl bad ↦ cc
      | inr same ↦ inr (cc)
    ]
  ]
]

returned-stopped :
    {E : Type 0} (result : Option E) (n : ℕ) (s : ServeState E)
    → ServeRun none result n s
    → result ≡ none
    → s.returned ≡ none
returned-stopped result n s run q = elim (Option-cases s.returned) [
  | inl missing ↦ missing
  | inr (e, there) ↦ elim ((ServeRun-bounded none result n s run).1 e there) [
    | inl bad ↦ cc
    | inr bad ↦ cc
  ]
]

module _ (P : Platform) (N : ListenPackage P) where
  open N use {Listener, listen_tcp, serve, itoa}

  -- the error of a gRPC server whose address cannot be listened on
  abbrev pub listen_failure : Listen → GoError P → GoError P
  listen_failure addr e =
      wrapped "failed to create listener "
        (wrapped ("failed to listen " +++ listen_string itoa addr +++ ": ") e)

  grpc_serve-failed :
      (addr : Listen) (e : GoError P)
      → listen_tcp (listen_string itoa addr) ≡ failure e
      → grpc_serve P N addr ≡ some (listen_failure addr e)
  unfolding grpc_serve create_listener
  grpc_serve-failed addr e q = rw (q, grpc_serve, create_listener) refl

  grpc_serve-stopped :
      (addr : Listen) (lis : Listener)
      → listen_tcp (listen_string itoa addr) ≡ success lis
      → serve lis ≡ none
      → grpc_serve P N addr ≡ none
  unfolding grpc_serve create_listener
  grpc_serve-stopped addr lis q r = rw (q, r, grpc_serve, create_listener) refl

  -- Where the listener of the gRPC address opens, the gRPC server then stops without an error, and the
  -- gateway's server is closed, no run of Serve returns. Where the listener does not open and the
  -- gateway's server is closed, every run of Serve can go on, or has returned the error of the
  -- listener, with the address and the cause.
  pub ServeRun-listener :
      (addr : Listen) (n : ℕ) (s : ServeState (GoError P))
      → ServeRun (gateway_serve server_closed) (grpc_serve P N addr) n s
      → ((lis : Listener)
          → listen_tcp (listen_string itoa addr) ≡ success lis
          → serve lis ≡ none
          → s.returned ≡ none)
        × ((e : GoError P)
            → listen_tcp (listen_string itoa addr) ≡ failure e
            → NextStep (gateway_serve server_closed) (grpc_serve P N addr) s
              ⊎ (s.returned ≡ some (listen_failure addr e)))
  unfolding gateway_serve
  ServeRun-listener addr n s run =
      let result : Option (GoError P) = grpc_serve P N addr in
      (
        λ lis q r. returned-stopped result n s run (grpc_serve-stopped addr lis q r),
        λ e q. returned-failed result (listen_failure addr e) n s run (grpc_serve-failed addr e q),
      )
