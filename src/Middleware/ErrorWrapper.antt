-- ===== src/Middleware/ErrorWrapper.antt =====
-- grpc/middleware/error.go: application errors and others become the status that the client gets.
-- An *errs.Error is a pointer that the conversion writes through: the definitions give the error as it
-- is afterwards, along with what the call returns and what it logs.
pub mod Finish
pub mod Hiding
pub mod Localized
pub mod Interceptor
use Prim.Native.Char.{Char}
use mathlib.Core.Option
use grpcx.Common.{
  ℕ, String, List, [], ◌∷◌, ◌++◌, ◌≡◌, Option, none, some, Map, Bool, true, false, if◌then◌else◌,
  str_eq, not, ◌&&◌, foldl,
}
use grpcx.Common.Result.{Result, success, failure}
use grpcx.Platform.{Platform, Code, unknown, is_unknown, is_internal, Detail, debug_info}
use grpcx.Errs.{Error, GoError, app, foreign, wrapped, new, error_text, grpc_status, FromError}
use grpcx.Context.{MetadataPackage, Context, Logger}
use grpcx.Rpcctx.{get_language_from_context}
use grpcx.Auth.{Handler}

abbrev pub internal_error_code : String
internal_error_code = "INTERNAL_SERVER_ERROR"

abbrev pub internal_error_message : String
internal_error_message = "internal_server_error"

-- logger.FromContext and logger.WithContext of logger/context.go, over slog.Default()
module _ (M : MetadataPackage) where
  logger_or : Logger → Option (Option Logger) → Logger
  logger_or default_logger (some (some l)) = l
  logger_or default_logger _ = default_logger

  unfoldable pub logger_from_context : Logger → Context M → Logger
  unfolding logger_or
  logger_from_context default_logger ctx = logger_or default_logger ctx.logger_value

  unfoldable pub logger_with_context : Context M → Option Logger → Context M
  logger_with_context ctx l = record ctx { logger_value = some l }

-- the language of a request, "en" if it names none
unfoldable pub language : (M : MetadataPackage) → (Char → Char) → Context M → String
language M lower ctx =
    let lang = get_language_from_context M lower ctx in if str_eq lang "" then "en" else lang

-- The frames that the runtime lists for a stack, at least one; `show` is fmt.Sprintf("%s:%d", …) of
-- its file and line.
unfoldable pub get_stack_entries {ℓ} :
    {Frame : Type ℓ} → (Frame → String) → Frame → List Frame → List String
get_stack_entries show frame [] = show frame ∷ []
get_stack_entries show frame (next ∷ more) = show frame ∷ get_stack_entries show next more

module _ (P : Platform) where
  open P use {Any, Status, Err, code_of, with_details, err_of}

  abbrev pub LocalizeMessageFunc : Type 0
  LocalizeMessageFunc = String → Option (Map String Any) → String → String

  pub record ErrorWrapperConfig : Type 0 where
    pub localize_message : LocalizeMessageFunc
    pub ll : Logger
    pub debugger_enabled : Bool

  abbrev pub ErrorWrapperOption : Type 0
  ErrorWrapperOption = ErrorWrapperConfig → ErrorWrapperConfig

  unfoldable pub with_localize_message_func : LocalizeMessageFunc → ErrorWrapperOption
  with_localize_message_func localize_message o = record o { localize_message = localize_message }

  unfoldable pub with_logger : Logger → ErrorWrapperOption
  with_logger ll o = record o { ll = ll }

  unfoldable pub with_debugger_enabled : Bool → ErrorWrapperOption
  with_debugger_enabled debugger_enabled o = record o { debugger_enabled = debugger_enabled }

  abbrev pub noop_localize : LocalizeMessageFunc
  noop_localize key metadata lang = key

  -- a nil localizer is `none`
  or_noop : Option LocalizeMessageFunc → LocalizeMessageFunc
  or_noop none = noop_localize
  or_noop (some f) = f

  abbrev pub default_config : Logger → ErrorWrapperConfig
  default_config default_logger = record {
    localize_message = noop_localize;
    ll = default_logger;
    debugger_enabled = false;
  }

  unfoldable pub apply_options : ErrorWrapperConfig → List ErrorWrapperOption → ErrorWrapperConfig
  apply_options cfg [] = cfg
  apply_options cfg (opt ∷ opts) = apply_options (opt cfg) opts

  -- (nil, err), where a nil error makes it a success with a nil response
  abbrev pub returned {ℓ} : {Resp : Type ℓ} → Option Err → Result (GoError P) (Option Resp)
  returned none = success none
  returned (some x) = failure (foreign x)

  -- errors.As(rErr, &xErr): the first *errs.Error of the chain
  unfoldable pub as_app : GoError P → Option (Error P)
  as_app (app e) = some e
  as_app (foreign x) = none
  as_app (wrapped m e) = as_app e

  -- the chain after a write through that pointer
  unfoldable pub write_app : Error P → GoError P → GoError P
  write_app new_e (app e) = app new_e
  write_app new_e (foreign x) = foreign x
  write_app new_e (wrapped m e) = wrapped m (write_app new_e e)

  -- what a conversion returns and leaves behind
  pub record Converted : Type 0 where
    pub err : Option Err
    pub after : GoError P
    pub logged : List String

  -- `if localized := …; localized != e.Code { e.Message = localized }`
  unfoldable pub localize : LocalizeMessageFunc → String → Error P → Error P
  localize f lang e =
      let localized = f e.code e.metadata lang in
      if str_eq localized e.code then e else record e { message = localized }

  unfoldable pub fallback_error : LocalizeMessageFunc → String → Error P
  unfolding localize
  fallback_error f lang = localize f lang (new P unknown internal_error_code internal_error_message)

  -- the last test of the conversion, and Err
  unfoldable pub finish : Status → Status → Option Err
  finish fallback stt = if is_internal (code_of stt) then err_of fallback else err_of stt

  module _ (err_text : Err → String) (stack : List String) where
    -- rErr.Error()
    abbrev pub text_of : GoError P → String
    text_of (app e) = error_text P e
    text_of (foreign x) = err_text x
    text_of (wrapped m e) = m

    -- the last two branches: a status and the log lines
    unhandled : Status → Bool → GoError P → Status × List String
    unhandled fallback true r_err =
        elim (with_details fallback (debug_info stack (text_of r_err))) [
          | none ↦ (fallback, "while adding debug details to error" ∷ [])
          | some stt ↦ (stt, [])
        ]
    unhandled fallback false r_err = (fallback, "unhandled error" ∷ [])

    -- the branches on an error that is no *errs.Error
    other_status : Status → Bool → Status × Bool → GoError P → Status × List String
    unfolding unhandled
    other_status fallback debugger_enabled (s, ok) r_err =
        if ok && not (is_unknown (code_of s))
        then (s, [])
        else unhandled fallback debugger_enabled r_err

    module _ (M : MetadataPackage) (lower : Char → Char) (domain : String)
        (F : FromError P domain) where
      unfoldable pub convert_grpc_error_to_http_error :
          Context M → ErrorWrapperConfig → GoError P → Converted
      unfolding language localize fallback_error finish other_status as_app write_app
      convert_grpc_error_to_http_error ctx cfg r_err =
          let lang = language M lower ctx in
          let fallback = grpc_status P domain (fallback_error cfg.localize_message lang) in
          elim (as_app r_err) [
            | none ↦
                let (stt, lines) =
                  other_status fallback cfg.debugger_enabled (F.from_error r_err) r_err in
                record { err = finish fallback stt; after = r_err; logged = lines }
            | some x_err ↦
                let localized = localize cfg.localize_message lang x_err in
                record {
                  err = finish fallback (grpc_status P domain localized);
                  after = write_app localized r_err;
                  logged = [];
                }
          ]

      -- ToHTTPError
      unfoldable pub to_http_error :
          Logger → Context M → Option LocalizeMessageFunc → GoError P → Converted
      unfolding convert_grpc_error_to_http_error or_noop logger_from_context
      to_http_error default_logger ctx localise_func r_err =
          convert_grpc_error_to_http_error ctx
            (record {
              localize_message = or_noop localise_func;
              ll = logger_from_context M default_logger ctx;
              debugger_enabled = false;
            })
            r_err

      -- ErrorWrapperUnaryServerInterceptor; a nil response is `none`
      unfoldable pub error_wrapper_interceptor {ℓ κ} :
          {Req : Type ℓ} {Resp : Type κ}
          → Logger
          → List ErrorWrapperOption
          → Context M
          → Req
          → Handler M P Req (Option Resp)
          → Result (GoError P) (Option Resp)
      unfolding convert_grpc_error_to_http_error apply_options
      error_wrapper_interceptor default_logger opts ctx req handler = elim (handler ctx req) [
        | success resp ↦ success resp
        | failure r_err ↦
            returned
              (convert_grpc_error_to_http_error ctx
                (apply_options (default_config default_logger) opts) r_err).err
      ]
