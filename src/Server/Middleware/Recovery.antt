-- ===== src/Server/Middleware/Recovery.antt =====
-- What loggingMiddleware of server/middleware.go does around a handler, and the field mask of a PATCH.
use grpcx.Common.{
  List, [], ◌∷◌, ◌++◌, ◌≡◌, refl, ◌∙◌, ap, none, Bool, true, false, if◌then◌else◌, Bool-cases, inl,
  inr, ℕ,
}
use grpcx.Http.{HttpRequest, ResponseWriter, write_header, write_body, first_status}
use grpcx.Server.Logging.{wrap_response_writer, request_level, is_quiet_path}
use grpcx.Server.Endpoints.{
  Endpoint, Served, WriterCall, header_call, body_call, LogLine, panic_line, request_line, play,
  pass_on, blank_writer,
}
use grpcx.Server.Endpoints.Writers.{
  HeaderFirst, NoInformational, bodies, play-pass_on, first-pass_on, status-pass_on,
  pass_on-NoInformational, append-NoInformational,
}
use grpcx.Server.Middleware.{logging_middleware, recovered}

play-append : (w : ResponseWriter) (c d : List WriterCall) → play w (c ++ d) ≡ play (play w c) d
play-append w [] d = refl
play-append w (header_call code ∷ c) d = play-append (write_header w code) c d
play-append w (body_call text ∷ c) d = play-append (write_body w text) c d

-- a panic that has been recovered
abbrev shown : Served → Served
shown s = record s {
  calls = s.calls ++ header_call 500 ∷ [];
  panics = false;
  logged = s.logged ++ panic_line ∷ [];
}

recovered_lem :
    (s : Served)
    → ((recovered s).panics ≡ false)
      × ((recovered s).recorded ≡ s.recorded)
      × (s.panics ≡ false → recovered s ≡ s)
      × (s.panics ≡ true
          → ((w : ResponseWriter) → play w (recovered s).calls ≡ write_header (play w s.calls) 500)
            × ((recovered s).logged ≡ s.logged ++ panic_line ∷ []))
unfolding recovered
recovered_lem s = elim (Bool-cases s.panics) [
  | inl p ↦ (
    ap (λ t. (if t then shown s else s).panics) p,
    ap (λ t. (if t then shown s else s).recorded) p,
    λ q. absurd (cc),
    λ q. (
      λ w.
          ap (λ t. play w ((if t then shown s else s).calls)) p
          ∙ play-append w s.calls (header_call 500 ∷ []),
      ap (λ t. (if t then shown s else s).logged) p,
    ),
  )
  | inr p ↦ (
    ap (λ t. (if t then shown s else s).panics) p ∙ p,
    ap (λ t. (if t then shown s else s).recorded) p,
    λ q. ap (λ t. if t then shown s else s) p,
    λ q. absurd (cc),
  )
]

abbrev pub request_line_of : HttpRequest → ℕ → LogLine
request_line_of r status = request_line (request_level status) r.http_method r.path status

-- a handler's run on a path that is logged, before the deferred function
abbrev traced : HttpRequest → Served → Served
traced r served =
    let (passed, wrapped) = pass_on (wrap_response_writer blank_writer) served.calls in
    record served {
      calls = passed;
      logged =
          if served.panics
          then served.logged
          else served.logged ++ request_line_of r wrapped.status ∷ [];
    }

traced-logged :
    (r : HttpRequest) (served : Served) (b : Bool)
    → served.panics ≡ b
    → (traced r served).logged ≡ (
        if b
        then served.logged
        else served.logged
          ++ request_line_of r (pass_on (wrap_response_writer blank_writer) served.calls).1.status
            ∷ [])
traced-logged r served b p =
    ap
      (λ t.
        if t
        then served.logged
        else served.logged
          ++ request_line_of r (pass_on (wrap_response_writer blank_writer) served.calls).1.status
            ∷ [])
      p

-- a handler's calls, and those of the 500 behind them
recovered-NoInformational :
    (s : Served) → NoInformational s.calls → NoInformational (recovered s).calls
unfolding recovered
recovered-NoInformational s n = elim (Bool-cases s.panics) [
  | inl p ↦ rw (p, recovered) (append-NoInformational s.calls (header_call 500 ∷ []) n (refl, tt))
  | inr p ↦ rw (p, recovered) n
]

-- loggingMiddleware sends no informational status around a handler that sends none.
pub logging_middleware-NoInformational :
    (next : Endpoint) (r : HttpRequest)
    → NoInformational (next r).calls
    → NoInformational (logging_middleware next r).calls
unfolding logging_middleware wrap_response_writer
logging_middleware-NoInformational next r n = elim (Bool-cases (is_quiet_path r.path)) [
  | inl quiet ↦ rw (quiet, logging_middleware) (recovered-NoInformational (next r) n)
  | inr loud ↦
      rw (loud, logging_middleware)
        (recovered-NoInformational (traced r (next r))
          (pass_on-NoInformational (next r).calls blank_writer 200 false n))
]

-- loggingMiddleware never panics and leaves the metrics as they are. Around a handler that does not
-- panic, it leaves the response as it is if the handler sends no informational status; on a path that
-- is logged, a handler that begins with one loses every later WriteHeader. It logs nothing for
-- /metrics, /health and /ready, and otherwise one line with the method and the path and, if the
-- handler sends no informational status and writes no body before a call of WriteHeader, the status
-- that a fresh client gets, at a level that is set by that status. Where a handler that sends no
-- informational status panics, the client gets 500 unless a status has been sent; wherever one
-- panics, the log has one line about the panic.
pub logging_middleware_lem :
    (next : Endpoint) (r : HttpRequest)
    → let served = next r in
      let logs = logging_middleware next r in
      (logs.panics ≡ false)
      × (logs.recorded ≡ served.recorded)
      × (served.panics ≡ false
          → (NoInformational served.calls
              → (w : ResponseWriter) → play w logs.calls ≡ play w served.calls)
            × ((code : ℕ) (calls : List WriterCall)
                → is_quiet_path r.path ≡ false
                → served.calls ≡ header_call code ∷ calls
                → logs.calls ≡ header_call code ∷ bodies calls)
            × (is_quiet_path r.path ≡ true → logs.logged ≡ served.logged)
            × ((w : ResponseWriter)
                → is_quiet_path r.path ≡ false
                → HeaderFirst served.calls
                → NoInformational served.calls
                → w.sent_status ≡ none
                → logs.logged
                  ≡ served.logged
                    ++ request_line_of r (first_status (play w served.calls).sent_status 200) ∷ []))
      × (served.panics ≡ true
          → (NoInformational served.calls
              → (w : ResponseWriter) → play w logs.calls ≡ write_header (play w served.calls) 500)
            × (logs.logged ≡ served.logged ++ panic_line ∷ []))
unfolding logging_middleware recovered wrap_response_writer
logging_middleware_lem next r = elim (Bool-cases (is_quiet_path r.path)) [
  | inl quiet ↦
      let f = recovered_lem (next r) in
      let e : logging_middleware next r ≡ recovered (next r) =
        rw (quiet, logging_middleware) refl in
      (
        ap (λ t. t.panics) e ∙ f.0,
        ap (λ t. t.recorded) e ∙ f.1,
        λ p. (
          λ n w. ap (λ t. play w t.calls) (e ∙ f.2 p),
          λ code calls loud q. absurd (cc),
          λ q. ap (λ t. t.logged) (e ∙ f.2 p),
          λ w loud first n fresh. absurd (cc),
        ),
        λ p. (λ n w. ap (λ t. play w t.calls) e ∙ (f.3 p).0 w, ap (λ t. t.logged) e ∙ (f.3 p).1),
      )
  | inr loud ↦
      let s = traced r (next r) in
      let f = recovered_lem s in
      let e : logging_middleware next r ≡ recovered s = rw (loud, logging_middleware) refl in
      let same = λ (n : NoInformational (next r).calls) (w : ResponseWriter).
        play-pass_on (next r).calls blank_writer w 200 n in
      (
        ap (λ t. t.panics) e ∙ f.0,
        ap (λ t. t.recorded) e ∙ f.1,
        λ p. (
          λ n w. ap (λ t. play w t.calls) (e ∙ f.2 p) ∙ same n w,
          λ code calls q k.
              ap (λ t. t.calls) (e ∙ f.2 p) ∙ first-pass_on (next r).calls code calls k,
          λ quiet. absurd (cc),
          λ w q first n fresh.
              ap (λ t. t.logged) (e ∙ f.2 p)
              ∙ traced-logged r (next r) false p
              ∙ ap (λ t. (next r).logged ++ request_line_of r t ∷ [])
                  (status-pass_on (next r).calls blank_writer w first n fresh),
        ),
        λ p. (
          λ n w. ap (λ t. play w t.calls) e ∙ (f.3 p).0 w ∙ ap (λ t. write_header t 500) (same n w),
          ap (λ t. t.logged) e
              ∙ (f.3 p).1
              ∙ ap (λ t. t ++ panic_line ∷ []) (traced-logged r (next r) true p),
        ),
      )
]
