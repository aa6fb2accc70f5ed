-- ===== src/Server/Metrics.antt =====
-- The metrics of server/gateway.go: the handler that counts a request, and the mux that wraps its
-- handlers.
pub mod Recording
pub mod Registry
mod Tests
use grpcx.Common.{
  ℕ, String, List, [], ◌∷◌, ◌++◌, ◌≡◌, Option, none, some, Map, lookup, store, Bool, true, false,
  if◌then◌else◌, string_equality, is_some,
}
use grpcx.Http.{write_header, write_body}
use grpcx.Server.Logging.{wrap_response_writer, status_write_header}
use grpcx.Server.Endpoints.{MetricLine, Endpoint, pass_on, blank_writer}

-- httpMetrics.wrap; a panic of the handler leaves it before the counters
unfoldable pub wrap : String → String → Endpoint → Endpoint
unfolding wrap_response_writer status_write_header write_header write_body
wrap service pattern h r =
    let served = h r in
    let (passed, rw) = pass_on (wrap_response_writer blank_writer) served.calls in
    let line : MetricLine = record {
      service = service;
      pattern = pattern;
      method = r.http_method;
      code = rw.status;
    } in
    record {
      calls = passed;
      panics = served.panics;
      logged = served.logged;
      recorded = if served.panics then served.recorded else served.recorded ++ line ∷ [];
    }

-- http.NewServeMux and its Handle, which panics where the pattern is registered (`none`); conflicts
-- between different patterns are outside the model
abbrev pub Routes : Type 0
Routes = Map String Endpoint

unfoldable pub handle : String → Endpoint → Routes → Option Routes
unfolding lookup store
handle pattern handler routes =
    if is_some (lookup pattern routes) then none else some (store pattern handler routes)

-- An HTTPServerMux: the mux of net/http, or a MetricsRecordingMux around it with its service name.
pub data ServerMux : Type 0 where
  plain_mux : ServerMux
  metrics_recording_mux : String → ServerMux

-- the handler that Handle or HandleFunc of an HTTPServerMux registers with the mux of net/http
unfoldable pub registered : ServerMux → String → Endpoint → Endpoint
unfolding wrap
registered plain_mux pattern handler = handler
registered (metrics_recording_mux service) pattern handler = wrap service pattern handler

unfoldable pub mux_handle : ServerMux → String → Endpoint → Routes → Option Routes
unfolding handle registered
mux_handle mux pattern handler routes = handle pattern (registered mux pattern handler) routes
