-- ===== src/Server/ErrorHandler.antt =====
-- ErrorHandler of server/gateway.go: an error of an RPC becomes an HTTP response.
pub mod Message
pub mod Reply
pub mod Answer
pub mod ReplyHeader
use grpcx.Common.{
  ℕ, String, List, [], ◌∷◌, ◌≡◌, Option, none, some, Map, store, Bool, true, false, if◌then◌else◌,
  string_equality, length, ◌==◌,
}
use grpcx.Platform.{
  Platform, Code, is_unauthenticated, Detail, error_info, bad_request, FieldViolation,
}
use grpcx.Errs.{GoError, wrapped, FromError, put_any}
use grpcx.Common.Integers.{ℤ, pos}
use grpcx.Http.{
  ResponseWriter, HttpHeader, header_set, header_del, checked_write_header, write_body,
  is_valid_status, is_informational,
}

abbrev pub fallback_body : String
fallback_body =
    "{\"code\": \"INTERNAL_SERVER_ERROR\", \"message\": \"Something went wrong. Please try again later.\"}"

-- w.WriteHeader(st) and w.Write(text); `none` is a panic
abbrev pub answered : ResponseWriter → ℤ → String → Option ResponseWriter
answered w st text = elim (checked_write_header w st) [
  | none ↦ none
  | some w' ↦ some (write_body w' text)
]

module _ (P : Platform) where
  open P use {Any, of_string, string_order, Status, Err, code_of, message_of, details_of}

  -- The errors that the gateway hands over: an error of the program, a *runtime.HTTPStatusError, and
  -- an error that wraps one.
  pub data GatewayError : Type 0 where
    plain : GoError P → GatewayError
    http_status_error : ℤ → GoError P → GatewayError
    around : String → GatewayError → GatewayError

  -- errors.As(err, &customStatus): its HTTP status and its error
  unfoldable pub as_http_status : GatewayError → Option (ℤ × GoError P)
  as_http_status (plain e) = none
  as_http_status (http_status_error st e) = some (st, e)
  as_http_status (around m e) = as_http_status e

  pub record ErrorMessage : Type 0 where
    pub code : String
    pub message : String
    pub metadata : Option (Map String Any)

  -- the loop over the violations: a later one of a field replaces an earlier one
  unfoldable pub put_fields : Map String Any → List FieldViolation → Map String Any
  put_fields fields [] = fields
  put_fields fields (fv ∷ violations) =
      put_fields (store fv.field (of_string fv.description) fields) violations

  -- the metadata of an ErrorInfo, if it has any
  abbrev pub info_values : Map String String → Option (Map String Any) → Option (Map String Any)
  info_values info old =
      if length info == 0 then old else some (put_any P [] (string_order.visit info))

  -- the loop over the details
  unfoldable pub add_details : ErrorMessage → List Detail → ErrorMessage
  unfolding put_fields
  add_details msg [] = msg
  add_details msg (error_info info ∷ details) =
      add_details
        (record msg { code = info.reason; metadata = info_values info.info_metadata msg.metadata })
        details
  add_details msg (bad_request violations ∷ details) =
      add_details
        (record msg { code = "VALIDATION_ERROR"; metadata = some (put_fields [] violations) })
        details
  add_details msg (_ ∷ details) = add_details msg details

  unfoldable pub error_message : Status → ErrorMessage
  unfolding add_details
  error_message s =
      add_details (record { code = "UNKNOWN_ERROR"; message = message_of s; metadata = none })
        (details_of s)

  -- A marshaler of the gateway, and runtime.HTTPStatusFromCode, whose statuses end a response.
  pub record Marshaler : Type 0 where
    pub content_type : Status → String
    pub marshal : ErrorMessage → Option String
    pub http_status_from_code : Code → ℕ
    pub status-IsFinal :
        (c : Code)
        → (is_valid_status (pos (http_status_from_code c)) ≡ true)
          × (is_informational (http_status_from_code c) ≡ false)

  -- the error as the status package sees it where the chain has no HTTPStatusError
  unfoldable pub as_go_error : GatewayError → GoError P
  as_go_error (plain e) = e
  as_go_error (http_status_error st e) = e
  as_go_error (around m e) = wrapped m (as_go_error e)

  module _ (canonical : String → String) (domain : String) (F : FromError P domain)
      (mar : Marshaler) where
    open mar use {content_type, marshal, http_status_from_code}

    -- the status that status.Convert gives
    abbrev pub converted : GatewayError → Status
    converted err = elim (as_http_status err) [
      | some custom ↦ (F.from_error custom.1).0
      | none ↦ (F.from_error (as_go_error err)).0
    ]

    abbrev pub http_status : GatewayError → ℤ
    http_status err = elim (as_http_status err) [
      | some custom ↦ custom.0
      | none ↦ pos (http_status_from_code (code_of (converted err)))
    ]

    abbrev pub reply_header : Status → HttpHeader → HttpHeader
    reply_header s h =
        let typed =
          header_set canonical
            (header_del canonical (header_del canonical h "Trailer") "Transfer-Encoding")
            "Content-Type" (content_type s) in
        if is_unauthenticated (code_of s)
        then header_set canonical typed "WWW-Authenticate" "Unauthorized"
        else typed

    unfoldable pub error_handler : ResponseWriter → GatewayError → Option ResponseWriter
    unfolding as_http_status error_message as_go_error
    error_handler w err =
        let s = converted err in
        let with_header : ResponseWriter = record w {
          response_header = reply_header s w.response_header;
        } in
        elim (marshal (error_message s)) [
          | none ↦ answered with_header (pos 500) fallback_body
          | some buf ↦ answered with_header (http_status err) buf
        ]
