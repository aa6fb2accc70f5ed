-- ===== src/Platform.antt =====
-- What errs, middleware and the gateway use of packages that are not in the repository: the status
-- codes and error details of google.golang.org/grpc, its status package, and fmt on values of any
-- type. The operations are parameters; the laws state what those packages document.
use grpcx.Common.{
  ℕ, String, List, [], ◌∷◌, ◌++◌, ◌≡◌, Option, none, some, Map, RangeOrder, Bool, true, false,
}

-- codes.Code: the named codes, and any other number
pub data Code : Type 0 where
  ok canceled unknown invalid_argument deadline_exceeded not_found already_exists : Code
  permission_denied resource_exhausted failed_precondition aborted out_of_range : Code
  unimplemented internal unavailable data_loss unauthenticated : Code
  other : ℕ → Code

abbrev pub is_ok : Code → Bool
is_ok ok = true
is_ok _ = false

abbrev pub is_unknown : Code → Bool
is_unknown unknown = true
is_unknown _ = false

abbrev pub is_internal : Code → Bool
is_internal internal = true
is_internal _ = false

abbrev pub is_unauthenticated : Code → Bool
is_unauthenticated unauthenticated = true
is_unauthenticated _ = false

-- The detail messages of google.rpc, with the fields that the program reads or writes. A nil map
-- is `[]`.
pub record ErrorInfo : Type 0 where
  pub reason : String
  pub domain : String
  pub info_metadata : Map String String

pub record FieldViolation : Type 0 where
  pub field : String
  pub description : String

pub data Detail : Type 0 where
  error_info : ErrorInfo → Detail
  bad_request : List FieldViolation → Detail
  debug_info : List String → String → Detail
  other_detail : String → Detail

pub record Platform : Type 1 where
  -- Go's `any`; fmt.Sprintf("%v", v), fmt.Sprintf, and the conversion of a string to `any`
  pub Any : Type 0
  pub sprint : Any → String
  pub sprintf : String → List Any → String
  pub of_string : String → Any
  -- the orders of range statements over the two kinds of metadata map
  pub any_order : RangeOrder (String × Any)
  pub string_order : RangeOrder (String × String)
  -- *status.Status and the errors that its Err returns
  pub Status : Type 0
  pub Err : Type 0
  pub new_status : Code → String → Status
  pub code_of : Status → Code
  pub message_of : Status → String
  pub details_of : Status → List Detail
  pub with_details : Status → Detail → Option Status
  pub err_of : Status → Option Err
  -- a detail that protobuf can marshal: its strings are valid UTF-8
  pub Encodable : Detail → Type 0
  pub code-new : (c : Code) (m : String) → code_of (new_status c m) ≡ c
  pub message-new : (c : Code) (m : String) → message_of (new_status c m) ≡ m
  pub details-new : (c : Code) (m : String) → details_of (new_status c m) ≡ []
  -- WithDetails is an error on an OK status; on another it appends a detail that can be marshalled.
  pub with_details_ok :
      (s : Status) (d : Detail) → is_ok (code_of s) ≡ true → with_details s d ≡ none
  pub with_details_some :
      (s : Status) (d : Detail)
      → is_ok (code_of s) ≡ false
      → Encodable d
      → (t : Status) × (with_details s d ≡ some t)
  pub with_details-eq-some :
      (s : Status) (d : Detail) (t : Status)
      → with_details s d ≡ some t
      → (code_of t ≡ code_of s)
        × (message_of t ≡ message_of s)
        × (details_of t ≡ details_of s ++ d ∷ [])
  -- Err is nil on an OK status only.
  pub err_ok : (s : Status) → is_ok (code_of s) ≡ true → err_of s ≡ none
  pub err_some : (s : Status) → is_ok (code_of s) ≡ false → (x : Err) × (err_of s ≡ some x)
