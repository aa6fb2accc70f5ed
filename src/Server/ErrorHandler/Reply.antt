-- ===== src/Server/ErrorHandler/Reply.antt =====
-- The response of the error handler, and an error's way from a handler to the client.
use Prim.Native.Char.{Char}
use mathlib.Core.Option
use grpcx.Common.{
  String, List, ◌≡◌, refl, ◌∙◌, ap, Option, none, some, lookup, true, false, string_equality,
  Option-cases, inl, inr,
}
use mathlib.Core.List.{append-nil}
use grpcx.Common.{[], ◌∷◌, ◌++◌, if◌then◌else◌}
use grpcx.Common.Integers.{ℤ, pos}
use grpcx.Common.Text.{◌+++◌}
use grpcx.Platform.{Code, Platform, is_ok, is_internal, error_info}
use grpcx.Errs.{Error, GoError, foreign, FromError, info_of, entries_of}
use grpcx.Errs.Metadata.{IsWellFormed, metadata_at}
use grpcx.Context.{MetadataPackage, Context}
use grpcx.Http.{ResponseWriter, is_valid_status}
use grpcx.Middleware.ErrorWrapper.{ErrorWrapperConfig, as_app, language}
use grpcx.Middleware.ErrorWrapper.Finish.{localized_message}
use grpcx.Middleware.ErrorWrapper.Localized.{convert, convert-as_app_lem}
use grpcx.Server.ErrorHandler.{
  GatewayError, plain, as_http_status, as_go_error, ErrorMessage, error_message, fallback_body,
  Marshaler, converted, http_status, reply_header, error_handler,
}
use grpcx.Server.ErrorHandler.Answer.{
  body_for, status_for, sent_for, final_status, sent_ahead, answer, answered_lem,
}
use grpcx.Server.ErrorHandler.Message.{error_message_lem}

module _ (P : Platform) (canonical : String → String) (domain : String) (F : FromError P domain)
    (mar : Marshaler P) where
  open P use {Any, sprint, of_string, Status, Err, code_of, message_of, details_of, Encodable}
  open mar use {content_type, marshal, http_status_from_code}

  abbrev run : ResponseWriter → GatewayError P → Option ResponseWriter
  run = error_handler P canonical domain F mar

  abbrev status_of : GatewayError P → Status
  status_of = converted P canonical domain F mar

  abbrev headed : ResponseWriter → GatewayError P → ResponseWriter
  headed w err = record w {
    response_header = reply_header P canonical domain F mar (status_of err) w.response_header;
  }

  -- the status that is written, and the body
  abbrev pub written_status : GatewayError P → ℤ
  written_status err =
      status_for (marshal (error_message P (status_of err)))
        (http_status P canonical domain F mar err)

  abbrev pub written_body : GatewayError P → String
  written_body err = body_for (marshal (error_message P (status_of err)))

  error_handler-eq :
      (w : ResponseWriter) (err : GatewayError P)
      → w.sent_status ≡ none
      → run w err ≡ (
          if is_valid_status (written_status err)
          then some (answer (headed w err) (written_status err) (written_body err))
          else none)
  unfolding error_handler
  error_handler-eq w err fresh = elim (Option-cases (marshal (error_message P (status_of err)))) [
    | inl failed ↦
        rw (failed, error_handler) (answered_lem (headed w err) (pos 500) fallback_body fresh)
    | inr (buf, made) ↦
        rw (made, error_handler)
          (answered_lem (headed w err) (http_status P canonical domain F mar err) buf fresh)
  ]

  error_handler-valid :
      (w : ResponseWriter) (err : GatewayError P)
      → w.sent_status ≡ none
      → is_valid_status (written_status err) ≡ true
      → run w err ≡ some (answer (headed w err) (written_status err) (written_body err))
  error_handler-valid w err fresh valid =
      error_handler-eq w err fresh
      ∙ ap
          (λ b.
            if b
            then some (answer (headed w err) (written_status err) (written_body err))
            else none)
          valid

  -- a status of HTTPStatusFromCode, or 500, is valid and final
  final_lem :
      (buf : Option String) (c : Code)
      → let st = status_for buf (pos (http_status_from_code c)) in
        (is_valid_status st ≡ true)
        × (final_status st ≡ sent_for buf (http_status_from_code c))
        × (sent_ahead st ≡ [])
  final_lem none c = (refl, refl, refl)
  final_lem (some buf) c =
      let f = mar.status-IsFinal c in
      (
        f.0,
        ap (λ b. if b then 200 else http_status_from_code c) (f.1),
        ap (λ b. if b then http_status_from_code c ∷ [] else []) (f.1),
      )

  module _ (err_text : Err → String) (stack : List String) (M : MetadataPackage)
      (lower : Char → Char) where
    -- An *errs.Error that an RPC handler returns, bare or wrapped, reaches the HTTP client through the
    -- error wrapper and the error handler: the response has the HTTP status of its code, and the
    -- message in the body has its i18n code, its text in the language of the request, and each value
    -- of its metadata as formatted text; where that message cannot be marshalled, the status is 500.
    -- That holds of an error whose code is neither OK nor Internal, whose details can be marshalled
    -- and whose metadata has distinct keys, on a response that has sent no status.
    pub error_handler-convert :
        (ctx : Context M) (cfg : ErrorWrapperConfig P) (r_err : GoError P) (e : Error P)
        (k : String) (w : ResponseWriter)
        → as_app P r_err ≡ some e
        → is_ok e.status_code ≡ false
        → is_internal e.status_code ≡ false
        → Encodable (error_info (info_of P domain e))
        → IsWellFormed P e
        → w.sent_status ≡ none
        → (x : Err) × (msg : ErrorMessage P) × (out : ResponseWriter) × ((convert P err_text stack M
              lower domain F ctx cfg r_err).err
            ≡ some x)
          × (msg.code ≡ e.code)
          × (msg.message ≡ localized_message P cfg.localize_message (language M lower ctx) e)
          × (lookup k (entries_of P msg.metadata)
              ≡ Option.map (λ v. of_string (sprint v)) (metadata_at P e k))
          × (run w (plain (foreign x)) ≡ some out)
          × (out.body ≡ (w.body +++ body_for (marshal msg)))
          × (out.informational ≡ w.informational)
          × (out.sent_status ≡ some (sent_for (marshal msg) (http_status_from_code e.status_code)))
    unfolding as_http_status as_go_error
    error_handler-convert ctx cfg r_err e k w found not_ok not_internal enc well fresh =
        let (x, s, made, from, code, text, details, left, logs) =
          convert-as_app_lem P err_text stack M lower domain F ctx cfg r_err e found not_ok
            not_internal enc in
        let (key, message, values) = error_message_lem P domain e s k well details in
        let same : status_of (plain (foreign x)) ≡ s = ap (λ p. p.0) from in
        let err = plain (foreign x) in
        let ends =
          final_lem (marshal (error_message P (status_of err))) (code_of (status_of err)) in
        (
          x,
          error_message P s,
          answer (headed w err) (written_status err) (written_body err),
          made,
          key,
          message ∙ text,
          values,
          error_handler-valid w err fresh ends.0,
          ap (λ t. w.body +++ body_for (marshal (error_message P t))) same,
          ap (λ t. w.informational ++ t) ends.2 ∙ append-nil w.informational,
          ap some ends.1
              ∙ ap
                  (λ t.
                    some
                      (sent_for (marshal (error_message P t)) (http_status_from_code (code_of t))))
                  same
              ∙ ap (λ c. some (sent_for (marshal (error_message P s)) (http_status_from_code c)))
                  code,
        )
