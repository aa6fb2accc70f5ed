-- ===== src/Server/Lifecycle.antt =====
-- The start and stop of the servers: server/server.go, with Serve and Shutdown of server/gateway.go and
-- server/grpc.go and CreateListener of server/types.go. The net/http and grpc servers are outside: what
-- they report is an argument.
pub mod Serving
pub mod Starting
pub mod Stopping
mod Tests
use grpcx.Common.{
  ℕ, String, List, [], ◌∷◌, ◌++◌, ◌≡◌, Option, none, some, Bool, true, false, if◌then◌else◌, length,
  ◌<◌, suc, ◌-◌,
}
use grpcx.Common.Result.{Result, success, failure}
use grpcx.Platform.{Platform}
use grpcx.Common.Text.{◌+++◌}
use grpcx.Errs.{GoError, wrapped}
use grpcx.Server.Gateway.{listen_string}
use grpcx.Server.Options.{Listen}

-- What http.Server's ListenAndServe returns: nil, http.ErrServerClosed, or another error.
pub data Listened (E : Type 0) : Type 0 where
  listened_nil server_closed : Listened E
  listen_error : E → Listened E

-- gatewayServer.Serve, by what ListenAndServe returned
unfoldable pub gateway_serve : {E : Type 0} → Listened E → Option E
gateway_serve listened_nil = none
gateway_serve server_closed = none
gateway_serve (listen_error e) = some e

-- net's listener of an address, and the server of grpc that takes it
pub record ListenPackage (P : Platform) : Type 1 where
  pub Listener : Type 0
  pub listen_tcp : String → Result (GoError P) Listener
  pub serve : Listener → Option (GoError P)
  pub itoa : ℕ → String

module _ (P : Platform) (N : ListenPackage P) where
  open N use {Listener, listen_tcp, serve, itoa}

  -- Listen.CreateListener
  unfoldable pub create_listener : Listen → Result (GoError P) Listener
  unfolding listen_string
  create_listener l = elim (listen_tcp (listen_string itoa l)) [
    | failure e ↦ failure (wrapped ("failed to listen " +++ listen_string itoa l +++ ": ") e)
    | success lis ↦ success lis
  ]

  -- grpcServer.Serve, at the address of its configuration
  unfoldable pub grpc_serve : Listen → Option (GoError P)
  unfolding create_listener
  grpc_serve addr = elim (create_listener addr) [
    | failure e ↦ some (wrapped "failed to create listener " e)
    | success listener ↦ elim (serve listener) [
      | none ↦ none
      | some e ↦ some (wrapped "failed to serve gRPC server " e)
    ]
  ]

-- A goroutine of Server.Serve or Server.Start: the server serves, the goroutine is about to send or to
-- log an error, or it has ended.
pub data Goroutine (E : Type 0) : Type 0 where
  serving ended : Goroutine E
  sending : E → Goroutine E

-- where a goroutine stands when its server has returned: nil ends it
unfoldable pub after : {E : Type 0} → Option E → Goroutine E
after none = ended
after (some e) = sending e

-- Server.Serve: the two goroutines, the channel, and what Serve has returned.
pub record ServeState (E : Type 0) : Type 0 where
  pub gateway : Goroutine E
  pub grpc : Goroutine E
  pub errch : List E
  pub returned : Option E

-- make(chan error, 2)
abbrev pub capacity : ℕ
capacity = 2

-- The steps of Server.Serve, where the gateway's server returns `gateway_result` and the gRPC server
-- `grpc_result`: a server returns, a goroutine sends its error, and the caller receives one.
module _ {E : Type 0} (gateway_result grpc_result : Option E) where
  pub data ServeStep : ServeState E → ServeState E → Type 0 where
    gateway_returns :
        (c : Goroutine E) (ch : List E) (r : Option E)
        → ServeStep
            (record { gateway = serving; grpc = c; errch = ch; returned = r })
            (record { gateway = after gateway_result; grpc = c; errch = ch; returned = r })
    grpc_returns :
        (g : Goroutine E) (ch : List E) (r : Option E)
        → ServeStep
            (record { gateway = g; grpc = serving; errch = ch; returned = r })
            (record { gateway = g; grpc = after grpc_result; errch = ch; returned = r })
    gateway_sends :
        (e : E) (c : Goroutine E) (ch : List E) (r : Option E)
        → length ch < capacity
        → ServeStep
            (record { gateway = sending e; grpc = c; errch = ch; returned = r })
            (record { gateway = ended; grpc = c; errch = ch ++ e ∷ []; returned = r })
    grpc_sends :
        (e : E) (g : Goroutine E) (ch : List E) (r : Option E)
        → length ch < capacity
        → ServeStep
            (record { gateway = g; grpc = sending e; errch = ch; returned = r })
            (record { gateway = g; grpc = ended; errch = ch ++ e ∷ []; returned = r })
    receives :
        (g c : Goroutine E) (e : E) (ch : List E)
        → ServeStep
            (record { gateway = g; grpc = c; errch = e ∷ ch; returned = none })
            (record { gateway = g; grpc = c; errch = ch; returned = some e })

  abbrev pub serve_start : ServeState E
  serve_start = record { gateway = serving; grpc = serving; errch = []; returned = none }

  -- The runs of Serve, with the number of their steps.
  pub data ServeRun : ℕ → ServeState E → Type 0 where
    start : ServeRun 0 serve_start
    then_step : (n : ℕ) (s t : ServeState E) → ServeRun n s → ServeStep s t → ServeRun (suc n) t

-- Server.Start: the two goroutines, what they have logged, the counter of the WaitGroup, and whether
-- Start has returned.
pub record StartState (E : Type 0) : Type 0 where
  pub gateway : Goroutine E
  pub grpc : Goroutine E
  pub logged : List E
  pub waiting : ℕ
  pub done : Bool

-- The counter when a server has returned: with nil the goroutine ends, and calls Done.
abbrev pub count_after : {E : Type 0} → Option E → ℕ → ℕ
count_after none n = n - 1
count_after (some e) n = n

-- The steps of Server.Start: a server returns, a goroutine logs its error and ends, and the wait is
-- over.
module _ {E : Type 0} (gateway_result grpc_result : Option E) where
  pub data StartStep : StartState E → StartState E → Type 0 where
    gateway_stops :
        (c : Goroutine E) (l : List E) (n : ℕ) (d : Bool)
        → StartStep
            (record { gateway = serving; grpc = c; logged = l; waiting = n; done = d })
            (record {
              gateway = after gateway_result;
              grpc = c;
              logged = l;
              waiting = count_after gateway_result n;
              done = d;
            })
    grpc_stops :
        (g : Goroutine E) (l : List E) (n : ℕ) (d : Bool)
        → StartStep
            (record { gateway = g; grpc = serving; logged = l; waiting = n; done = d })
            (record {
              gateway = g;
              grpc = after grpc_result;
              logged = l;
              waiting = count_after grpc_result n;
              done = d;
            })
    gateway_logs :
        (e : E) (c : Goroutine E) (l : List E) (n : ℕ) (d : Bool)
        → StartStep
            (record { gateway = sending e; grpc = c; logged = l; waiting = n; done = d })
            (record { gateway = ended; grpc = c; logged = l ++ e ∷ []; waiting = n - 1; done = d })
    grpc_logs :
        (e : E) (g : Goroutine E) (l : List E) (n : ℕ) (d : Bool)
        → StartStep
            (record { gateway = g; grpc = sending e; logged = l; waiting = n; done = d })
            (record { gateway = g; grpc = ended; logged = l ++ e ∷ []; waiting = n - 1; done = d })
    waits :
        (g c : Goroutine E) (l : List E)
        → StartStep
            (record { gateway = g; grpc = c; logged = l; waiting = 0; done = false })
            (record { gateway = g; grpc = c; logged = l; waiting = 0; done = true })

  abbrev pub start_start : StartState E
  start_start = record { gateway = serving; grpc = serving; logged = []; waiting = 2; done = false }

  pub data StartRun : ℕ → StartState E → Type 0 where
    begun : StartRun 0 start_start
    then_next : (n : ℕ) (s t : StartState E) → StartRun n s → StartStep s t → StartRun (suc n) t
