-- ===== src/Middleware/Request.antt =====
-- grpc/middleware/requestid.go, timeout.go and recover.go: what the interceptors and the HTTP
-- middlewares do to a request. A response writer is its header here, and what else the rest of the
-- chain does is its result.
pub mod Tracing
use grpcx.Common.{
  ℕ, ◌+◌, String, List, [], ◌∷◌, ◌++◌, ◌≡◌, Option, none, some, Map, lookup, store, Bool, true,
  false, if◌then◌else◌, str_eq, string_equality,
}
use grpcx.Http.{HttpHeader, header_set, header_get, HttpRequest, HttpHandler}
use grpcx.Common.Text.{◌+++◌}
use grpcx.Common.Result.{Result, success, failure}
use grpcx.Platform.{Platform, Code, internal}
use grpcx.Errs.{GoError}
use grpcx.Context.{MetadataPackage, Context, Logger}
use grpcx.Rpcctx.{
  header_request_id, md_key_http_method, get_request_id_from_context,
  attach_request_id_to_incoming_context,
}
use grpcx.Auth.{Handler}
use grpcx.Middleware.ErrorWrapper.{logger_from_context, logger_with_context}

module _ (canonical : String → String) where
  unfoldable pub with_http_method {ℓ} : {A : Type ℓ} → HttpHandler A → HttpHandler A
  unfolding header_set
  with_http_method next w r = next w (record r {
    header = header_set canonical r.header ("Grpc-Metadata-" +++ md_key_http_method) r.http_method;
  })

  -- WithRequestID, where uuid.NewString gives `fresh`
  unfoldable pub with_request_id {ℓ} : {A : Type ℓ} → String → HttpHandler A → HttpHandler A
  unfolding header_set header_get
  with_request_id fresh next w r =
      let req_id = header_get canonical r.header header_request_id in
      let used = if str_eq req_id "" then fresh else req_id in
      next (header_set canonical w ("Grpc-Metadata-" +++ header_request_id) used) r

module _ (M : MetadataPackage) (P : Platform) where
  open M use {MD, pairs}
  open P use {Any, Err, sprint, new_status, err_of}

  -- what an interceptor hands to grpc.SetHeader, and what the rest of the chain returns
  pub record Replied {ℓ} (A : Type ℓ) : Type ℓ where
    pub set_header : MD
    pub reply : A

  -- RequestIDUnaryServerInterceptor. `lower_header` is strings.ToLower of the header's name; a failure
  -- of SetHeader is only logged.
  unfoldable pub request_id_interceptor {ℓ κ} :
      {Req : Type ℓ} {Resp : Type κ}
      → Logger
      → String
      → String
      → Context M
      → Req
      → String
      → Handler M P Req Resp
      → Replied (Result (GoError P) Resp)
  unfolding logger_from_context logger_with_context
  request_id_interceptor default_logger lower_header fresh ctx req full_method handler =
      let old_id = get_request_id_from_context M ctx in
      let req_id = if str_eq old_id "" then fresh else old_id in
      let with_id = attach_request_id_to_incoming_context M ctx req_id in
      let l = logger_from_context M default_logger with_id in
      let enriched = record l {
        attributes = l.attributes ++ ("request_id", req_id) ∷ ("method", full_method) ∷ [];
      } in
      record {
        set_header = pairs lower_header req_id;
        reply = handler (logger_with_context M with_id (some enriched)) req;
      }

  -- TimeoutUnaryServerInterceptor at the time `now`; context.WithTimeout sets the deadline. What
  -- cancel releases after the call is not seen by the handler.
  unfoldable pub timeout_interceptor {ℓ κ} :
      {Req : Type ℓ} {Resp : Type κ}
      → ℕ
      → ℕ
      → Context M
      → Req
      → Handler M P Req Resp
      → Result (GoError P) Resp
  timeout_interceptor timeout now ctx req handler = elim ctx.deadline [
    | some d ↦ handler ctx req
    | none ↦ handler (record ctx { deadline = some (now + timeout) }) req
  ]

  -- RecoverHandler: what a panic with the value `p` becomes; `none` is a nil error. The line that it
  -- logs is the second part.
  unfoldable pub recover_handler : Any → Option Err × String
  recover_handler p = (err_of (new_status internal (sprint p)), "PANIC")
