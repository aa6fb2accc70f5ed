-- ===== src/Server/Metrics/Recording.antt =====
-- What a counted request does to its response, and which code is counted.
use grpcx.Common.{String, [], ◌∷◌, ◌++◌, ◌≡◌, List, ℕ, refl, none, true, false, ap}
use grpcx.Http.{HttpRequest, ResponseWriter, first_status}
use grpcx.Server.Logging.{wrap_response_writer}
use grpcx.Server.Endpoints.{MetricLine, Endpoint, play, WriterCall, header_call, blank_writer}
use grpcx.Server.Endpoints.Writers.{
  HeaderFirst, NoInformational, bodies, play-pass_on, first-pass_on, pass_on-NoInformational,
  status-pass_on,
}
use grpcx.Server.Metrics.{wrap}

abbrev line_of : String → String → HttpRequest → ℕ → MetricLine
line_of service pattern r code = record {
  service = service;
  pattern = pattern;
  method = r.http_method;
  code = code;
}

pub wrap-NoInformational :
    (service pattern : String) (h : Endpoint) (r : HttpRequest)
    → NoInformational (h r).calls
    → NoInformational (wrap service pattern h r).calls
unfolding wrap wrap_response_writer
wrap-NoInformational service pattern h r n =
    pass_on-NoInformational (h r).calls blank_writer 200 false n

-- A handler wrapped by the metrics sends its client the same response as on its own if it sends no
-- informational status; where it begins with one, the wrapper takes that for the status, and no later
-- WriteHeader reaches the client. A panic passes. Where the handler does not panic, one line is
-- counted for the request, with the service, the pattern and the method, and, if the handler sends no
-- informational status and writes no body before a call of WriteHeader, the status that a fresh
-- client gets; where it panics, nothing is counted.
pub wrap_lem :
    (service pattern : String) (h : Endpoint) (r : HttpRequest)
    → let served = wrap service pattern h r in
      (NoInformational (h r).calls
        → (w : ResponseWriter) → play w served.calls ≡ play w (h r).calls)
      × ((code : ℕ) (calls : List WriterCall)
          → (h r).calls ≡ header_call code ∷ calls
          → served.calls ≡ header_call code ∷ bodies calls)
      × (served.panics ≡ (h r).panics)
      × ((h r).panics ≡ true → served.recorded ≡ (h r).recorded)
      × ((w : ResponseWriter)
          → (h r).panics ≡ false
          → HeaderFirst (h r).calls
          → NoInformational (h r).calls
          → w.sent_status ≡ none
          → served.recorded
            ≡ (h r).recorded
              ++ record {
                service = service;
                pattern = pattern;
                method = r.http_method;
                code = first_status (play w (h r).calls).sent_status 200;
              }
                ∷ [])
unfolding wrap wrap_response_writer
wrap_lem service pattern h r = (
  λ n w. play-pass_on (h r).calls blank_writer w 200 n,
  λ code calls q. first-pass_on (h r).calls code calls q,
  refl,
  λ q. rw (q, wrap) refl,
  λ w q first n fresh.
      rw (q, wrap)
        (ap (λ code. (h r).recorded ++ line_of service pattern r code ∷ [])
          (status-pass_on (h r).calls blank_writer w first n fresh)),
)
