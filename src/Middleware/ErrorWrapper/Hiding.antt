-- ===== src/Middleware/ErrorWrapper/Hiding.antt =====
-- What the wrapper keeps from the client: internal errors, and errors that it does not know.
use Prim.Native.Char.{Char}
use grpcx.Common.{
  String, List, ◌≡◌, ◌∙◌, ap, sym, Option, none, some, Bool, true, if◌then◌else◌, not, ◌&&◌, arith,
  Option-cases, inl, inr,
}
use grpcx.Platform.{Platform, unknown, is_ok, is_unknown, is_internal}
use grpcx.Errs.{Error, GoError, foreign, grpc_status, FromError}
use grpcx.Context.{MetadataPackage, Context}
use grpcx.Middleware.ErrorWrapper.{
  ErrorWrapperConfig, as_app, localize, finish, other_status, unhandled, language,
  convert_grpc_error_to_http_error,
}
use grpcx.Middleware.ErrorWrapper.Finish.{
  localized_code, fallback_message, fallback, fallback_code, finish-internal, finish_self,
}

module _ (P : Platform) where
  open P use {Any, Status, Err, new_status, code_of, message_of, err_of, err_some, err_ok}

  module _ (domain : String) (F : FromError P domain) where
    module _ (err_text : Err → String) (stack : List String) (M : MetadataPackage)
        (lower : Char → Char) where
      abbrev convert : Context M → ErrorWrapperConfig P → GoError P → Option Err
      convert ctx cfg r_err =
          (convert_grpc_error_to_http_error P err_text stack M lower domain F ctx cfg r_err).err

      -- Whether the wrapper hides an error: an Internal one, or without the debugger one that is
      -- neither an *errs.Error nor a known status other than Unknown.
      abbrev other_hidden : Bool → Status × Bool → Bool
      other_hidden debugger (s, ok) =
          if ok && not (is_unknown (code_of s)) then is_internal (code_of s) else not debugger

      abbrev hidden_by : Bool → GoError P → Option (Error P) → Bool
      hidden_by debugger r_err none = other_hidden debugger (F.from_error r_err)
      hidden_by debugger r_err (some e) = is_internal e.status_code

      abbrev pub is_hidden : ErrorWrapperConfig P → GoError P → Bool
      is_hidden cfg r_err = hidden_by cfg.debugger_enabled r_err (as_app P r_err)

      other_status_hidden :
          (fb : Status) (debugger : Bool) (s : Status) (ok : Bool) (r_err : GoError P)
          → other_hidden debugger (s, ok) ≡ true
          → finish P fb (other_status P err_text stack fb debugger (s, ok) r_err).0 ≡ err_of fb
      unfolding other_status unhandled
      other_status_hidden fb debugger s ok r_err h =
          ground (arith, finish_self P domain F fb, finish-internal P domain F fb s)

      convert_hidden :
          (ctx : Context M) (cfg : ErrorWrapperConfig P) (r_err : GoError P)
          → is_hidden cfg r_err ≡ true
          → convert ctx cfg r_err
            ≡ err_of (fallback P domain F cfg.localize_message (language M lower ctx))
      unfolding convert_grpc_error_to_http_error
      convert_hidden ctx cfg r_err h = elim (Option-cases (as_app P r_err)) [
        | inl missing ↦
            rw (missing, convert, convert_grpc_error_to_http_error)
              (other_status_hidden (fallback P domain F cfg.localize_message (language M lower ctx))
                cfg.debugger_enabled (F.from_error r_err).0 (F.from_error r_err).1 r_err
                (sym (ap (hidden_by cfg.debugger_enabled r_err) missing) ∙ h))
        | inr (e, found) ↦
            let lang : String = language M lower ctx in
            rw (found, convert, convert_grpc_error_to_http_error)
              (finish-internal P domain F (fallback P domain F cfg.localize_message lang)
                (grpc_status P domain (localize P cfg.localize_message lang e))
                (ap is_internal (localized_code P domain cfg.localize_message lang e).0
                  ∙ sym (ap (hidden_by cfg.debugger_enabled r_err) found)
                  ∙ h))
      ]

      -- Two errors that the wrapper hides are told apart by nothing in the reply: both become the same
      -- error, whose status is Unknown with the translation of INTERNAL_SERVER_ERROR into the language
      -- of the request, or "internal_server_error" where there is none. Hidden are the Internal errors,
      -- and without the debugger all that are neither an *errs.Error nor a status other than Unknown.
      pub convert-hidden_same :
          (ctx : Context M) (cfg : ErrorWrapperConfig P) (r_err r_err' : GoError P)
          → is_hidden cfg r_err ≡ true
          → is_hidden cfg r_err' ≡ true
          → (x : Err) × (s : Status) × (convert ctx cfg r_err ≡ some x)
            × (convert ctx cfg r_err' ≡ some x)
            × (F.from_error (foreign x) ≡ (s, true))
            × (code_of s ≡ unknown)
            × (message_of s ≡ fallback_message P cfg.localize_message (language M lower ctx))
      convert-hidden_same ctx cfg r_err r_err' h h' =
          let s : Status = fallback P domain F cfg.localize_message (language M lower ctx) in
          let (code, message) =
            fallback_code P domain F cfg.localize_message (language M lower ctx) in
          let (x, made) = err_some s (ap is_ok code) in
          (
            x,
            s,
            convert_hidden ctx cfg r_err h ∙ made,
            convert_hidden ctx cfg r_err' h' ∙ made,
            F.from_err s x made,
            code,
            message,
          )
