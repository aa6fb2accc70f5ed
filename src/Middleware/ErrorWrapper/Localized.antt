-- ===== src/Middleware/ErrorWrapper/Localized.antt =====
-- An *errs.Error in the reply, and what the conversion leaves in the error itself.
use Prim.Native.Char.{Char}
use grpcx.Common.{
  String, List, [], ◌∷◌, ◌≡◌, ◌≢◌, refl, ◌∙◌, ap, sym, some, true, false, string_equality, eq_iff,
  arith,
}
use grpcx.Platform.{Platform, is_ok, is_internal, error_info}
use grpcx.Errs.{Error, GoError, app, foreign, wrapped, grpc_status, info_of, FromError}
use grpcx.Errs.Convert.{grpc_status-attach, attach_detail}
use grpcx.Context.{MetadataPackage, Context}
use grpcx.Middleware.ErrorWrapper.{
  ErrorWrapperConfig, Converted, as_app, write_app, localize, finish, language,
  convert_grpc_error_to_http_error,
}
use grpcx.Middleware.ErrorWrapper.Finish.{
  localized_message, localized_code, localize_lem, finish-other, fallback,
}

module _ (P : Platform) where
  open P use {
    Any, Status, Err, new_status, code_of, message_of, details_of, err_of, err_some, Encodable,
  }

  as_app-write_app :
      (new_e e : Error P) (r_err : GoError P)
      → as_app P r_err ≡ some e
      → as_app P (write_app P new_e r_err) ≡ some new_e
  unfolding as_app write_app
  as_app-write_app new_e e (app x) h = refl
  as_app-write_app new_e e (foreign x) h = cc
  as_app-write_app new_e e (wrapped m r_err) h = as_app-write_app new_e e r_err h

  localized_details :
      (domain : String) (e new_e : Error P)
      → new_e ≡ record e { message = new_e.message }
      → is_ok e.status_code ≡ false
      → Encodable (error_info (info_of P domain e))
      → details_of (grpc_status P domain new_e) ≡ error_info (info_of P domain e) ∷ []
  localized_details domain e new_e same not_ok enc =
      rw (same, grpc_status-attach P domain (record e { message = new_e.message }))
        (attach_detail P e.status_code new_e.message (error_info (info_of P domain e)) not_ok enc)

  module _ (err_text : Err → String) (stack : List String) (M : MetadataPackage)
      (lower : Char → Char) (domain : String) (F : FromError P domain) where
    abbrev pub convert : Context M → ErrorWrapperConfig P → GoError P → Converted P
    convert = convert_grpc_error_to_http_error P err_text stack M lower domain F

    convert-as_app :
        (ctx : Context M) (cfg : ErrorWrapperConfig P) (r_err : GoError P) (e : Error P)
        → as_app P r_err ≡ some e
        → convert ctx cfg r_err ≡ (
            let localized = localize P cfg.localize_message (language M lower ctx) e in
            record {
              err =
                  finish P
                    (fallback P domain F cfg.localize_message (language M lower ctx))
                    (grpc_status P domain localized);
              after = write_app P localized r_err;
              logged = [];
            })
    unfolding convert_grpc_error_to_http_error
    convert-as_app ctx cfg r_err e found =
        rw (found, convert, convert_grpc_error_to_http_error) refl

    -- An *errs.Error in the chain of an error decides the reply, provided that its code is neither OK
    -- nor Internal: the status has the code of the error, the translation of its i18n key into the
    -- language of the request as the message, or its own message where there is no translation, and
    -- its ErrorInfo as the one detail, if that can be marshalled. The error itself is left with the
    -- message that was sent, and nothing is logged.
    pub convert-as_app_lem :
        (ctx : Context M) (cfg : ErrorWrapperConfig P) (r_err : GoError P) (e : Error P)
        → as_app P r_err ≡ some e
        → is_ok e.status_code ≡ false
        → is_internal e.status_code ≡ false
        → Encodable (error_info (info_of P domain e))
        → let message : String =
            localized_message P cfg.localize_message (language M lower ctx) e in
          (x : Err) × (s : Status) × ((convert ctx cfg r_err).err ≡ some x)
          × (F.from_error (foreign x) ≡ (s, true))
          × (code_of s ≡ e.status_code)
          × (message_of s ≡ message)
          × (details_of s ≡ error_info (info_of P domain e) ∷ [])
          × (as_app P (convert ctx cfg r_err).after ≡ some (record e { message = message }))
          × ((convert ctx cfg r_err).logged ≡ [])
    convert-as_app_lem ctx cfg r_err e found not_ok not_internal enc =
        let lang : String = language M lower ctx in
        let localized : Error P = localize P cfg.localize_message lang e in
        let s : Status = grpc_status P domain localized in
        let (code, message) = localized_code P domain cfg.localize_message lang e in
        let (x, made) = err_some s (ap is_ok code ∙ not_ok) in
        let fb : Status = fallback P domain F cfg.localize_message lang in
        let done = convert-as_app ctx cfg r_err e found in
        (
          x,
          s,
          ap Converted.err done
              ∙ finish-other P domain F fb s (ap is_internal code ∙ not_internal)
              ∙ made,
          F.from_err s x made,
          code,
          message,
          localized_details domain e localized
              (localize_lem P cfg.localize_message lang e
                ∙ ap (λ m. record e { message = m })
                    (sym (ap Error.message (localize_lem P cfg.localize_message lang e))))
              not_ok enc,
          ap (λ c. as_app P (Converted.after c)) done
              ∙ as_app-write_app localized e r_err found
              ∙ ap some (localize_lem P cfg.localize_message lang e),
          ap Converted.logged done,
        )

    localized_message_kept :
        (cfg : ErrorWrapperConfig P) (lang m : String) (e : Error P)
        → cfg.localize_message e.code e.metadata lang ≡ e.code
        → localized_message P cfg.localize_message lang (record e { message = m }) ≡ m
    localized_message_kept cfg lang m e same =
        ground (arith, eq_iff (cfg.localize_message e.code e.metadata lang) e.code)

    localized_message_new :
        (cfg : ErrorWrapperConfig P) (lang : String) (e : Error P)
        → cfg.localize_message e.code e.metadata lang ≢ e.code
        → localized_message P cfg.localize_message lang e
          ≡ cfg.localize_message e.code e.metadata lang
    localized_message_new cfg lang e other =
        ground (arith, eq_iff (cfg.localize_message e.code e.metadata lang) e.code)

    -- A translation sticks to the error: where a first request had it translated, a later request in a
    -- language that has no translation of it gets the text of the first request, not the error's own
    -- message. That holds of an error with a code other than OK and Internal and details that can be
    -- marshalled.
    pub convert-convert :
        (ctx later : Context M) (cfg : ErrorWrapperConfig P) (r_err : GoError P) (e : Error P)
        → as_app P r_err ≡ some e
        → is_ok e.status_code ≡ false
        → is_internal e.status_code ≡ false
        → Encodable (error_info (info_of P domain e))
        → cfg.localize_message e.code e.metadata (language M lower ctx) ≢ e.code
        → cfg.localize_message e.code e.metadata (language M lower later) ≡ e.code
        → (x : Err) × (s : Status) × ((convert later cfg (convert ctx cfg r_err).after).err
            ≡ some x)
          × (F.from_error (foreign x) ≡ (s, true))
          × (message_of s ≡ cfg.localize_message e.code e.metadata (language M lower ctx))
    convert-convert ctx later cfg r_err e found not_ok not_internal enc other same =
        let first = convert-as_app_lem ctx cfg r_err e found not_ok not_internal enc in
        let m : String = localized_message P cfg.localize_message (language M lower ctx) e in
        let (x, s, made, from, code, text, details, left, logs) =
          convert-as_app_lem later cfg (convert ctx cfg r_err).after (record e { message = m })
            first.7 not_ok not_internal enc in
        (
          x,
          s,
          made,
          from,
          text
              ∙ localized_message_kept cfg (language M lower later) m e same
              ∙ localized_message_new cfg (language M lower ctx) e other,
        )
