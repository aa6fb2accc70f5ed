-- ===== src/Middleware/ErrorWrapper/Finish.antt =====
-- The localized error, the fallback, and the last test of a conversion.
use grpcx.Common.{
  String, ◌≡◌, ◌≢◌, refl, ◌∙◌, ap, sym, none, some, true, false, if◌then◌else◌, str_eq, arith,
  Bool-cases, inl, inr,
}
use grpcx.Platform.{Platform, unknown, is_ok, is_internal, error_info}
use grpcx.Errs.{Error, foreign, grpc_status, info_of, FromError, new}
use grpcx.Errs.Convert.{grpc_status-attach, attach_code}
use grpcx.Middleware.ErrorWrapper.{
  internal_error_code, internal_error_message, LocalizeMessageFunc, localize, fallback_error,
  finish,
}

none_ne_some {ℓ} : {A : Type ℓ} {a : A} → none ≢ some a
none_ne_some h = cc

module _ (P : Platform) where
  open P use {Any, Status, Err, new_status, code_of, message_of, err_of, err_some, err_ok}

  -- grpc_status keeps the code and the message.
  pub grpc_status_code :
      (domain : String) (e : Error P)
      → (code_of (grpc_status P domain e) ≡ e.status_code)
        × (message_of (grpc_status P domain e) ≡ e.message)
  grpc_status_code domain e =
      rw (grpc_status-attach P domain e)
        (attach_code P e.status_code e.message (error_info (info_of P domain e)))

  -- The message that localization leaves in an error.
  abbrev pub localized_message : LocalizeMessageFunc P → String → Error P → String
  localized_message f lang e =
      if str_eq (f e.code e.metadata lang) e.code then e.message else f e.code e.metadata lang

  -- localize changes nothing but the message.
  pub localize_lem :
      (f : LocalizeMessageFunc P) (lang : String) (e : Error P)
      → (localize P f lang e ≡ record e { message = localized_message f lang e })
  unfolding localize
  localize_lem f lang e = elim (Bool-cases (str_eq (f e.code e.metadata lang) e.code)) [
    | inl h ↦ rw h refl
    | inr h ↦ rw h refl
  ]

  pub localized_code :
      (domain : String) (f : LocalizeMessageFunc P) (lang : String) (e : Error P)
      → (code_of (grpc_status P domain (localize P f lang e)) ≡ e.status_code)
        × (message_of (grpc_status P domain (localize P f lang e)) ≡ localized_message f lang e)
  localized_code domain f lang e =
      rw (localize_lem f lang e)
        (grpc_status_code domain (record e { message = localized_message f lang e }))

  -- The message of the fallback status.
  abbrev pub fallback_message : LocalizeMessageFunc P → String → String
  fallback_message f lang =
      if str_eq (f internal_error_code none lang) internal_error_code
      then internal_error_message
      else f internal_error_code none lang

  pub fallback_error_lem :
      (f : LocalizeMessageFunc P) (lang : String)
      → ((fallback_error P f lang).status_code ≡ unknown)
        × ((fallback_error P f lang).code ≡ internal_error_code)
        × ((fallback_error P f lang).message ≡ fallback_message f lang)
  unfolding fallback_error new
  fallback_error_lem f lang =
      rw (localize_lem f lang (new P unknown internal_error_code internal_error_message))
        (refl, refl, refl)

  module _ (domain : String) (F : FromError P domain) where
    abbrev pub fallback : LocalizeMessageFunc P → String → Status
    fallback f lang = grpc_status P domain (fallback_error P f lang)

    pub fallback_code :
        (f : LocalizeMessageFunc P) (lang : String)
        → (code_of (fallback f lang) ≡ unknown)
          × (message_of (fallback f lang) ≡ fallback_message f lang)
    fallback_code f lang =
        let (code, message) = grpc_status_code domain (fallback_error P f lang) in
        let (code', name, message') = fallback_error_lem f lang in
        (code ∙ code', message ∙ message')

    pub finish-internal :
        (fb stt : Status) → is_internal (code_of stt) ≡ true → finish P fb stt ≡ err_of fb
    unfolding finish
    finish-internal fb stt h = rw h refl

    pub finish-other :
        (fb stt : Status) → is_internal (code_of stt) ≡ false → finish P fb stt ≡ err_of stt
    unfolding finish
    finish-other fb stt h = rw h refl

    pub finish_self : (fb : Status) → finish P fb fb ≡ err_of fb
    unfolding finish
    finish_self fb = ground arith

    -- An error that Err made has a status that is not OK.
    from_err-not_ok :
        (s : Status) (x : Err)
        → err_of s ≡ some x
        → (F.from_error (foreign x) ≡ (s, true)) × (is_ok (code_of s) ≡ false)
    from_err-not_ok s x made = (
      F.from_err s x made,
      elim (Bool-cases (is_ok (code_of s))) [
        | inl h ↦ absurd (none_ne_some (sym (err_ok s h) ∙ made))
        | inr h ↦ h
      ],
    )

    -- What the last test of the conversion lets out is no Internal status.
    pub finish-not_internal :
        (f : LocalizeMessageFunc P) (lang : String) (stt : Status) (x : Err)
        → finish P (fallback f lang) stt ≡ some x
        → (s : Status) × (F.from_error (foreign x) ≡ (s, true))
          × (is_internal (code_of s) ≡ false)
          × (is_ok (code_of s) ≡ false)
    finish-not_internal f lang stt x made = elim (Bool-cases (is_internal (code_of stt))) [
      | inl h ↦
          let s : Status = fallback f lang in
          let (from, not_ok) = from_err-not_ok s x (sym (finish-internal s stt h) ∙ made) in
          (s, from, ap is_internal (fallback_code f lang).0, not_ok)
      | inr h ↦
          let (from, not_ok) =
            from_err-not_ok stt x (sym (finish-other (fallback f lang) stt h) ∙ made) in
          (stt, from, h, not_ok)
    ]
