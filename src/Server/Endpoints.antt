-- ===== src/Server/Endpoints.antt =====
-- HTTP handlers as the middlewares and the metrics of server/ see them: what a handler does to its
-- writer for a request, and what reaches the writer inside the wrapper of server/middleware.go.
pub mod Writers
use grpcx.Common.{ℕ, String, List, [], ◌∷◌, Option, none, Bool, if◌then◌else◌}
use grpcx.Http.{HttpRequest, ResponseWriter, write_header, write_body}
use grpcx.Server.Logging.{SlogLevel, StatusWriter, status_write_header}

-- The calls that a handler makes on its writer. A call of WriteHeader on which net/http panics is the
-- end of the handler and so not among its calls.
pub data WriterCall : Type 0 where
  header_call : ℕ → WriterCall
  body_call : String → WriterCall

-- the labels of http_requests_total: service, handler, method and code
pub record MetricLine : Type 0 where
  pub service : String
  pub pattern : String
  pub method : String
  pub code : ℕ

-- What the log has of a request: a recovered panic, or its level, method, path and status.
pub data LogLine : Type 0 where
  panic_line : LogLine
  request_line : SlogLevel → String → String → ℕ → LogLine

-- What serving one request does: the calls, whether it panics after them, what is logged and what is
-- counted.
pub record Served : Type 0 where
  pub calls : List WriterCall
  pub panics : Bool
  pub logged : List LogLine
  pub recorded : List MetricLine

-- an http.Handler
abbrev pub Endpoint : Type 0
Endpoint = HttpRequest → Served

-- the calls on a ResponseWriter
abbrev pub play : ResponseWriter → List WriterCall → ResponseWriter
play w [] = w
play w (header_call code ∷ calls) = play (write_header w code) calls
play w (body_call text ∷ calls) = play (write_body w text) calls

-- The calls on the wrapper, whose Write is that of the writer inside: what reaches that writer, and the
-- wrapper afterwards.
abbrev pub pass_on : StatusWriter → List WriterCall → List WriterCall × StatusWriter
pass_on rw [] = ([], rw)
pass_on rw (header_call code ∷ calls) =
    let (passed, last) = pass_on (status_write_header rw code) calls in
    (if rw.wrote_header then passed else header_call code ∷ passed, last)
pass_on rw (body_call text ∷ calls) =
    let (passed, last) = pass_on (record rw { inner = write_body rw.inner text }) calls in
    (body_call text ∷ passed, last)

abbrev pub blank_writer : ResponseWriter
blank_writer = record { response_header = []; informational = []; sent_status = none; body = "" }
