-- ===== src/Errs.antt =====
-- errs/errs.go: application errors with a status code, an i18n key and metadata, and their way into
-- and out of gRPC statuses. A nil metadata map is `none`. defaultDomain is a package variable: the
-- functions that read it take its value.
pub mod Metadata
pub mod Convert
mod Tests
use grpcx.Common.{
  ℕ, String, List, [], ◌∷◌, ◌++◌, ◌≡◌, Option, none, some, Map, store, Bool, true, false, length,
  ◌==◌, if◌then◌else◌, string_equality,
}
use grpcx.Platform.{
  Code, not_found, unauthenticated, permission_denied, already_exists, invalid_argument, internal,
  failed_precondition, unavailable, Platform, Detail, error_info, bad_request, ErrorInfo,
  FieldViolation,
}

-- the initial value of defaultDomain, and SetDomain
abbrev pub initial_domain : String
initial_domain = "grpcx"

unfoldable pub set_domain : String → String → String
set_domain domain default_domain = domain

module _ (P : Platform) where
  open P use {
    Any, sprint, sprintf, of_string, any_order, string_order, Status, Err, new_status, details_of,
    with_details, err_of,
  }

  pub record Error : Type 0 where
    pub status_code : Code
    pub code : String
    pub message : String
    pub metadata : Option (Map String Any)

  unfoldable pub new : Code → String → String → Error
  new status_code code message = record {
    status_code = status_code;
    code = code;
    message = message;
    metadata = none;
  }

  unfoldable pub errorf : Code → String → String → List Any → Error
  errorf status_code code format a = record {
    status_code = status_code;
    code = code;
    message = sprintf format a;
    metadata = none;
  }

  -- The errors of the program: an *errs.Error, an error of another package, and an error that wraps
  -- one behind a message (fmt.Errorf with %w).
  pub data GoError : Type 0 where
    app : Error → GoError
    foreign : Err → GoError
    wrapped : String → GoError → GoError

  -- Error.Error
  unfoldable pub error_text : Error → String
  error_text e = e.message

  -- a nil map reads like an empty one
  abbrev pub entries_of : Option (Map String Any) → Map String Any
  entries_of none = []
  entries_of (some m) = m

  unfoldable pub with_metadata : Error → String → Any → Error
  with_metadata e key value = record e { metadata = some (store key value (entries_of e.metadata)) }

  put_formatted : Map String String → Map String Any → Map String String
  put_formatted out [] = out
  put_formatted out ((k, v) ∷ m) = put_formatted (store k (sprint v) out) m

  -- toStringMap
  unfoldable pub to_string_map : Map String Any → Map String String
  unfolding put_formatted
  to_string_map m = if length m == 0 then [] else put_formatted [] (any_order.visit m)

  abbrev pub info_of : String → Error → ErrorInfo
  info_of default_domain e = record {
    reason = e.code;
    domain = default_domain;
    info_metadata = to_string_map (entries_of e.metadata);
  }

  -- Error.GRPCStatus
  unfoldable pub grpc_status : String → Error → Status
  grpc_status default_domain e =
      let stt = new_status e.status_code e.message in
      elim (with_details stt (error_info (info_of default_domain e))) [ none ↦ stt | some s ↦ s ]

  -- The shorthand constructors
  abbrev pub Constructor : Type 0
  Constructor = String → String → Error

  unfoldable pub not_found_error : Constructor
  not_found_error code msg = new not_found code msg

  unfoldable pub unauthenticated_error : Constructor
  unauthenticated_error code msg = new unauthenticated code msg

  unfoldable pub permission_denied_error : Constructor
  permission_denied_error code msg = new permission_denied code msg

  unfoldable pub already_exists_error : Constructor
  already_exists_error code msg = new already_exists code msg

  unfoldable pub invalid_argument_error : Constructor
  invalid_argument_error code msg = new invalid_argument code msg

  unfoldable pub internal_error : Constructor
  internal_error code msg = new internal code msg

  unfoldable pub failed_precondition_error : Constructor
  failed_precondition_error code msg = new failed_precondition code msg

  unfoldable pub unavailable_error : Constructor
  unavailable_error code msg = new unavailable code msg

  unfoldable pub internalf : String → String → List Any → GoError
  internalf code format a = app (errorf internal code format a)

  append_violations : List FieldViolation → Map String String → List FieldViolation
  append_violations br [] = br
  append_violations br ((field, desc) ∷ violations) =
      append_violations (br ++ record { field = field; description = desc } ∷ []) violations

  -- Validation: the error of the status, nil if the status package says so
  unfoldable pub validation : String → Map String String → Option Err
  unfolding append_violations
  validation msg violations =
      let stt = new_status invalid_argument msg in
      let br = append_violations [] (string_order.visit violations) in
      elim (with_details stt (bad_request br)) [ none ↦ err_of stt | some s ↦ err_of s ]

  unfoldable pub put_any : Map String Any → Map String String → Map String Any
  put_any m [] = m
  put_any m ((k, v) ∷ info) = put_any (store k (of_string v) m) info

  -- The loop of Parse over the details: the first ErrorInfo counts.
  parse_details : List Detail → String × Option (Map String Any)
  unfolding put_any
  parse_details [] = ("", none)
  parse_details (error_info info ∷ details) =
      (info.reason, some (put_any [] (string_order.visit info.info_metadata)))
  parse_details (_ ∷ details) = parse_details details

  -- Parse, over the results of status.FromError
  unfoldable pub parse_status : Status → Bool → String × Option (Map String Any)
  unfolding parse_details
  parse_status st known = if known then parse_details (details_of st) else ("", none)

  unfoldable pub parse : (GoError → Status × Bool) → GoError → String × Option (Map String Any)
  unfolding parse_status
  parse from_error err = let (st, known) = from_error err in parse_status st known

  -- status.FromError, with what its documentation says of the errors that the program hands it: it
  -- finds the status of an error that Err made, and it calls GRPCStatus on an *errs.Error.
  pub record FromError (default_domain : String) : Type 0 where
    pub from_error : GoError → Status × Bool
    pub from_err : (s : Status) (x : Err) → err_of s ≡ some x → from_error (foreign x) ≡ (s, true)
    pub from_app : (e : Error) → from_error (app e) ≡ (grpc_status default_domain e, true)
