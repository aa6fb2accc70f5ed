-- ===== src/Server/Lifecycle/Tests.antt =====
-- Runs of the start of the servers.
use grpcx.Common.{◌≤◌, String, [], ◌∷◌, ◌≡◌, ◌⊎◌, Option, none, some, arith, Bool, true}
use grpcx.Server.Lifecycle.{
  serving, ended, after, ServeState, gateway_returns, grpc_returns, gateway_sends, receives,
  ServeRun, start, then_step, StartState, StartRun, begun, then_next, gateway_stops, grpc_stops,
  gateway_logs, waits,
}
use grpcx.Server.Lifecycle.Serving.{
  FromServer, NextStep, IsDone, ServeRun-bounded, ServeRun-progress,
}
use grpcx.Common.Result.{failure}
use grpcx.Errs.{GoError, foreign}
use grpcx.Common.{refl}
use grpcx.Platform.{unknown}
use grpcx.Samples.{sample_platform, SampleStatus}
use grpcx.Server.Options.{Listen}
use grpcx.Server.Gateway.{listen_string}
use grpcx.Server.Lifecycle.{
  ListenPackage, create_listener, grpc_serve, gateway_serve, server_closed, grpc_sends,
}
use grpcx.Server.Lifecycle.Stopping.{listen_failure, ServeRun-listener}
use grpcx.Server.Lifecycle.Starting.{IsOver, StartRun-progress}
use grpcx.Server.Lifecycle.Starting

-- the gateway's server gives an error, and the gRPC server nil
abbrev in_use : Option String
in_use = some "address in use"

abbrev no_error : Option String
no_error = none

abbrev last_state : ServeState String
last_state = record { gateway = ended; grpc = ended; errch = []; returned = some "address in use" }

last_run : ServeRun in_use no_error 4 last_state
unfolding after
last_run =
    then_step 3 _ _
      (then_step 2 _ _
        (then_step 1 _ _ (then_step 0 _ _ start (gateway_returns serving [] none))
          (gateway_sends "address in use" serving [] none (omega arith)))
        (grpc_returns ended ("address in use" ∷ []) none))
      (receives ended ended "address in use" [])

ServeRun-bounded_example :
    ◌≤◌ 4 6 × ((e : String) → some "address in use" ≡ some e → FromServer in_use no_error e)
ServeRun-bounded_example = ServeRun-bounded in_use no_error 4 last_state last_run

ServeRun-progress_example : NextStep in_use no_error last_state ⊎ IsDone in_use no_error last_state
ServeRun-progress_example = ServeRun-progress in_use no_error 4 last_state last_run

abbrev over_state : StartState String
over_state = record {
  gateway = ended;
  grpc = ended;
  logged = "address in use" ∷ [];
  waiting = 0;
  done = true;
}

over_run : StartRun in_use no_error 4 over_state
unfolding after
over_run =
    then_next 3 _ _
      (then_next 2 _ _
        (then_next 1 _ _ (then_next 0 _ _ begun (gateway_stops serving [] 2 _))
          (gateway_logs "address in use" serving [] 2 _))
        (grpc_stops ended ("address in use" ∷ []) 1 _))
      (waits ended ended ("address in use" ∷ []))

StartRun-progress_example :
    ◌≤◌ 4 5
    × (Starting.NextStep in_use no_error over_state ⊎ (◌≡◌ {A = Bool} true true))
    × (◌≡◌ {A = Bool} true true → IsOver in_use no_error over_state)
StartRun-progress_example = StartRun-progress in_use no_error 4 over_state over_run

abbrev bind_error : SampleStatus
bind_error = record { number = unknown; text = "bind"; details = [] }

-- no address can be listened on
abbrev occupied : ListenPackage sample_platform
occupied = record {
  Listener = String;
  listen_tcp = λ address. failure (foreign bind_error);
  serve = λ listener. none;
  itoa = λ n. "10443";
}

abbrev grpc_addr : Listen
grpc_addr = record { host = "0.0.0.0"; port = 10443 }

abbrev bind_failure : GoError sample_platform
bind_failure = listen_failure sample_platform occupied grpc_addr (foreign bind_error)

abbrev failed_state : ServeState (GoError sample_platform)
failed_state = record { gateway = ended; grpc = ended; errch = []; returned = some bind_failure }

failed_run :
    ServeRun
      (gateway_serve server_closed)
      (grpc_serve sample_platform occupied grpc_addr)
      4
      failed_state
unfolding gateway_serve grpc_serve create_listener listen_string after
failed_run =
    then_step 3 _ _
      (then_step 2 _ _
        (then_step 1 _ _ (then_step 0 _ _ start (gateway_returns serving [] none))
          (grpc_returns ended [] none))
        (grpc_sends bind_failure ended [] none (omega arith)))
      (receives ended ended bind_failure [])

ServeRun-listener_example :
    NextStep
      (gateway_serve server_closed)
      (grpc_serve sample_platform occupied grpc_addr)
      failed_state
    ⊎ (failed_state.returned ≡ some bind_failure)
ServeRun-listener_example =
    (ServeRun-listener sample_platform occupied grpc_addr 4 failed_state failed_run).1
      (foreign bind_error) refl
