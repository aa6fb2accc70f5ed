-- ===== src/Middleware/Request/Tracing.antt =====
-- What a handler sees of a request ID, a timeout and the HTTP middlewares.
use grpcx.Common.{
  ℕ, ◌+◌, String, [], ◌∷◌, ◌++◌, ◌≡◌, ◌≢◌, refl, none, some, if◌then◌else◌, str_eq, string_equality,
  Option-cases, inl, inr,
}
use grpcx.Common.Text.{◌+++◌}
use grpcx.Common.Result.{Result}
use grpcx.Platform.{Platform}
use grpcx.Errs.{GoError}
use grpcx.Context.{MetadataPackage, Context, Logger}
use grpcx.Rpcctx.{
  values, header_request_id, md_key_http_method, get_request_id_from_context,
  get_http_method_from_context, attach_request_id_to_incoming_context,
}
use grpcx.Rpcctx.Attach.{attach_lem, values-attach_request_id, listed}
use grpcx.Auth.{Handler}
use grpcx.Middleware.ErrorWrapper.{logger_from_context, logger_with_context}
use grpcx.Http.{HttpHeader, header_set, header_get, HttpRequest, HttpHandler, header_get-header_set}
use grpcx.Middleware.Request.{
  with_http_method, with_request_id, Replied, request_id_interceptor, timeout_interceptor,
}

-- The ID that a request goes by: the one it came with, or a fresh one.
abbrev pub chosen_id : String → String → String
chosen_id fresh old = if str_eq old "" then fresh else old

module _ (M : MetadataPackage) (P : Platform) where
  open M use {MD, get, get-pairs, lower_key}

  -- The interceptor calls the handler once, with a context in which the request ID reads back as the
  -- ID that came with the request, or as the fresh one where none came. The same ID goes out in the
  -- header and into the attributes of the logger, with the method's name behind it; the HTTP method
  -- reads back as before, as do the values of every other key of the incoming metadata, and what else
  -- the context holds stays. The keys of the ID and of the method are taken to differ in lower case.
  pub request_id_interceptor_lem {ℓ κ} :
      {Req : Type ℓ} {Resp : Type κ} (default_logger : Logger) (lower_header fresh : String)
      (ctx : Context M) (req : Req) (full_method : String) (handler : Handler M P Req Resp)
      → lower_key header_request_id ≢ lower_key md_key_http_method
      → let id : String = chosen_id fresh (get_request_id_from_context M ctx) in
        let out : Replied M P (Result (GoError P) Resp) =
          request_id_interceptor M P default_logger lower_header fresh ctx req full_method
            handler in
        (ctx' : Context M) × (out.reply ≡ handler ctx' req)
        × (get out.set_header lower_header ≡ id ∷ [])
        × (get_request_id_from_context M ctx' ≡ id)
        × (get_http_method_from_context M ctx' ≡ get_http_method_from_context M ctx)
        × ((j : String)
            → lower_key header_request_id ≢ lower_key j
            → values M ctx' j ≡ some (listed M (values M ctx j)))
        × ((logger_from_context M default_logger ctx').attributes
            ≡ (logger_from_context M default_logger ctx).attributes
              ++ ("request_id", id) ∷ ("method", full_method) ∷ [])
        × (record ctx' { incoming = ctx.incoming; logger_value = ctx.logger_value } ≡ ctx)
  unfolding request_id_interceptor logger_from_context logger_with_context
      get_request_id_from_context get_http_method_from_context attach_request_id_to_incoming_context
      values
  request_id_interceptor_lem default_logger lower_header fresh ctx req full_method handler h =
      let id : String = chosen_id fresh (get_request_id_from_context M ctx) in
      let facts = attach_lem M ctx id h in
      (
        _,
        refl,
        get-pairs lower_header id,
        facts.0,
        facts.1,
        λ j d. values-attach_request_id M ctx j id d,
        refl,
        refl,
      )

  -- A deadline that came with the request is kept; without one the handler gets the default, counted
  -- from the time of the call. Nothing else of the context changes.
  pub timeout_interceptor_lem {ℓ κ} :
      {Req : Type ℓ} {Resp : Type κ} (timeout now : ℕ) (ctx : Context M) (req : Req)
      (handler : Handler M P Req Resp)
      → (ctx' : Context M) × (timeout_interceptor M P timeout now ctx req handler
          ≡ handler ctx' req)
        × (record ctx' { deadline = ctx.deadline } ≡ ctx)
        × (ctx'.deadline ≡ elim ctx.deadline [ none ↦ some (now + timeout) | some d ↦ some d ])
  unfolding timeout_interceptor
  timeout_interceptor_lem timeout now ctx req handler = elim (Option-cases ctx.deadline) [
    | inl missing ↦
        (record ctx { deadline = some (now + timeout) }, rw missing refl, refl, rw missing refl)
    | inr (d, there) ↦ (ctx, rw there refl, refl, rw there refl)
  ]

module _ (canonical : String → String) where
  -- WithHTTPMethod hands the request on with its method under the metadata header. WithRequestID
  -- hands the request on as it came: the ID, the one of the request or a fresh one, goes into the
  -- header of the response, and the other response headers stay.
  pub http_middlewares_lem {ℓ} :
      {A : Type ℓ} (fresh k : String) (next : HttpHandler A) (w : HttpHeader) (r : HttpRequest)
      → let id : String = chosen_id fresh (header_get canonical r.header header_request_id) in
        let id_key : String = "Grpc-Metadata-" +++ header_request_id in
        let method_key : String = "Grpc-Metadata-" +++ md_key_http_method in
        (w' : HttpHeader) × (r' : HttpRequest) × (with_request_id canonical fresh next w r
          ≡ next w' r)
        × (header_get canonical w' k
            ≡ (if str_eq (canonical id_key) (canonical k) then id else header_get canonical w k))
        × (with_http_method canonical next w r ≡ next w r')
        × (r'.http_method ≡ r.http_method)
        × (header_get canonical r'.header k ≡ (
            if str_eq (canonical method_key) (canonical k)
            then r.http_method
            else header_get canonical r.header k))
  unfolding with_request_id with_http_method
  http_middlewares_lem fresh k next w r =
      let id : String = chosen_id fresh (header_get canonical r.header header_request_id) in
      let id_key : String = "Grpc-Metadata-" +++ header_request_id in
      let method_key : String = "Grpc-Metadata-" +++ md_key_http_method in
      (
        header_set canonical w id_key id,
        record r { header = header_set canonical r.header method_key r.http_method },
        refl,
        header_get-header_set canonical w id_key k id,
        refl,
        refl,
        header_get-header_set canonical r.header method_key k r.http_method,
      )
