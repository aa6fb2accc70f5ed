-- ===== src/Middleware/ErrorWrapper/Interceptor.antt =====
-- The interceptor around a handler.
use Prim.Native.Char.{Char}
use grpcx.Common.{
  String, List, ◌≡◌, refl, ◌∙◌, ap, sym, Option, none, some, true, false, Option-cases, inl, inr,
}
use grpcx.Common.Result.{Result, Result-cases, success, failure}
use grpcx.Platform.{Platform, is_ok, is_internal}
use grpcx.Errs.{GoError, foreign, grpc_status, FromError}
use grpcx.Context.{MetadataPackage, Context, Logger}
use grpcx.Auth.{Handler}
use grpcx.Middleware.ErrorWrapper.{
  ErrorWrapperConfig, ErrorWrapperOption, as_app, localize, finish, other_status, language,
  convert_grpc_error_to_http_error, error_wrapper_interceptor, apply_options, default_config,
  returned,
}
use grpcx.Middleware.ErrorWrapper.Finish.{fallback, finish-not_internal}

success_ne_failure {ℓ κ} :
    {E : Type ℓ} {A : Type κ} {a : A} {e : E} → ¬ (Path (Result E A) (success a) (failure e))
success_ne_failure h = cc

module _ (P : Platform) where
  open P use {Any, Status, Err, new_status, code_of, message_of, err_of, err_some, err_ok}

  returned-failure {ℓ} :
      {Resp : Type ℓ} (o : Option Err) (err : GoError P)
      → returned P {Resp = Resp} o ≡ failure err
      → (x : Err) × (o ≡ some x) × (err ≡ foreign x)
  returned-failure none err h = cc
  returned-failure (some x) err h = (x, refl, cc)

  module _ (domain : String) (F : FromError P domain) where
    module _ (err_text : Err → String) (stack : List String) (M : MetadataPackage)
        (lower : Char → Char) where
      abbrev convert : Context M → ErrorWrapperConfig P → GoError P → Option Err
      convert ctx cfg r_err =
          (convert_grpc_error_to_http_error P err_text stack M lower domain F ctx cfg r_err).err

      convert-finish :
          (ctx : Context M) (cfg : ErrorWrapperConfig P) (r_err : GoError P)
          → (stt : Status) × (convert ctx cfg r_err
              ≡ finish P (fallback P domain F cfg.localize_message (language M lower ctx)) stt)
      unfolding convert_grpc_error_to_http_error
      convert-finish ctx cfg r_err = elim (Option-cases (as_app P r_err)) [
        | inl missing ↦ (
          (other_status P err_text stack
              (fallback P domain F cfg.localize_message (language M lower ctx)) cfg.debugger_enabled
              (F.from_error r_err) r_err).0,
          rw (missing, convert, convert_grpc_error_to_http_error) refl,
        )
        | inr (e, found) ↦ (
          grpc_status P domain (localize P cfg.localize_message (language M lower ctx) e),
          rw (found, convert, convert_grpc_error_to_http_error) refl,
        )
      ]

      -- What the wrapper's interceptor returns as an error is an error of the status package, whatever
      -- the handler returned and whatever the options say, and its status is neither OK nor Internal.
      pub error_wrapper_interceptor-not_internal {ℓ κ} :
          {Req : Type ℓ} {Resp : Type κ} (default_logger : Logger)
          (opts : List (ErrorWrapperOption P)) (ctx : Context M) (req : Req)
          (handler : Handler M P Req (Option Resp)) (err : GoError P)
          → error_wrapper_interceptor P err_text stack M lower domain F default_logger opts ctx req
              handler
            ≡ failure err
          → (x : Err) × (s : Status) × (err ≡ foreign x)
            × (F.from_error err ≡ (s, true))
            × (is_internal (code_of s) ≡ false)
            × (is_ok (code_of s) ≡ false)
      unfolding error_wrapper_interceptor
      error_wrapper_interceptor-not_internal default_logger opts ctx req handler err h =
          elim (Result-cases (handler ctx req)) [
            | inl (r_err, bad) ↦
                let cfg : ErrorWrapperConfig P =
                  apply_options P (default_config P default_logger) opts in
                let (x, made, is_x) =
                  returned-failure (convert ctx cfg r_err) err
                    (rw (bad, error_wrapper_interceptor) at h) in
                let (stt, finished) = convert-finish ctx cfg r_err in
                let (s, from, inner, not_ok) =
                  finish-not_internal P domain F cfg.localize_message (language M lower ctx) stt x
                    (sym finished ∙ made) in
                (x, s, is_x, ap F.from_error is_x ∙ from, inner, not_ok)
            | inr (resp, good) ↦
                absurd (success_ne_failure (rw (good, error_wrapper_interceptor) at h))
          ]
