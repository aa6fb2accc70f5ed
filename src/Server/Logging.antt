-- ===== src/Server/Logging.antt =====
-- server/log.go, DefaultServerCodeToLevel of server/grpc.go, and the response writer and the request
-- log of server/middleware.go.
pub mod Redaction
use grpcx.Common.{
  ℕ, ◌≤◌, String, List, [], ◌∷◌, ◌++◌, ◌≡◌, Option, none, some, Map, Bool, true, false,
  if◌then◌else◌, str_eq, string_equality, leb, ◌||◌, not, contains, RangeOrder,
}
use grpcx.Common.Text.{◌+++◌, has_prefix, fields, join}
use grpcx.Platform.{
  Code, ok, canceled, unknown, invalid_argument, deadline_exceeded, not_found, already_exists,
  permission_denied, resource_exhausted, failed_precondition, aborted, out_of_range, unimplemented,
  internal, unavailable, data_loss, unauthenticated, other,
}
use grpcx.Http.{ResponseWriter, write_header}

-- the levels of the logging package and of slog
pub data Level : Type 0 where
  level_debug level_info level_warn level_error : Level
  other_level : ℕ → Level

pub data SlogLevel : Type 0 where
  debug info warn error : SlogLevel

unfoldable pub slog_level : Level → SlogLevel
slog_level level_debug = debug
slog_level level_info = info
slog_level level_warn = warn
slog_level level_error = error
slog_level (other_level n) = error

unfoldable pub default_server_code_to_level : Code → Level
default_server_code_to_level ok = level_debug
default_server_code_to_level not_found = level_debug
default_server_code_to_level canceled = level_debug
default_server_code_to_level already_exists = level_debug
default_server_code_to_level invalid_argument = level_debug
default_server_code_to_level unauthenticated = level_debug
default_server_code_to_level deadline_exceeded = level_warn
default_server_code_to_level permission_denied = level_warn
default_server_code_to_level resource_exhausted = level_warn
default_server_code_to_level failed_precondition = level_warn
default_server_code_to_level aborted = level_warn
default_server_code_to_level out_of_range = level_warn
default_server_code_to_level unavailable = level_warn
default_server_code_to_level unknown = level_error
default_server_code_to_level unimplemented = level_error
default_server_code_to_level internal = level_error
default_server_code_to_level data_loss = level_error
default_server_code_to_level (other n) = level_error

abbrev pub mask : String
mask = ":\"********\""

-- strings.HasPrefix(part, field+":") || strings.HasPrefix(part, field+"=")
abbrev pub names : String → String → Bool
names part field = has_prefix part (field +++ ":") || has_prefix part (field +++ "=")

-- the loop over the sensitive fields, in the order of the range statement
unfoldable pub redact_part : String → String → List String → String
redact_part part current [] = current
redact_part part current (field ∷ visits) =
    redact_part part (if names part field then field +++ mask else current) visits

unfoldable pub redact_parts : List String → List String → List String
unfolding redact_part
redact_parts visits [] = []
redact_parts visits (part ∷ parts) = redact_part part part visits ∷ redact_parts visits parts

module _ (range : RangeOrder String) where
  unfoldable pub redact_sensitive : String → List String → String
  unfolding redact_parts
  redact_sensitive data_text sensitive =
      join (redact_parts (range.visit sensitive) (fields data_text)) " "

  -- The fields of a log line as keys with formatted values; a key that is no string is `none`.
  -- InterceptorLogger goes over them in pairs.
  unfoldable pub redact_fields :
      List String → List (Option String × String) → List (Option String × String)
  unfolding redact_sensitive
  redact_fields sensitive [] = []
  redact_fields sensitive ((none, value) ∷ entries) =
      (none, value) ∷ redact_fields sensitive entries
  redact_fields sensitive ((some key, value) ∷ entries) =
      (
        some key,
        if str_eq key "grpc.request.content" || str_eq key "grpc.response.content"
            then redact_sensitive value sensitive
            else value,
      )
      ∷ redact_fields sensitive entries

-- The wrapper around a response writer that remembers the status.
pub record StatusWriter : Type 0 where
  pub inner : ResponseWriter
  pub status : ℕ
  pub wrote_header : Bool

unfoldable pub wrap_response_writer : ResponseWriter → StatusWriter
wrap_response_writer w = record { inner = w; status = 200; wrote_header = false }

-- responseWriter.WriteHeader
unfoldable pub status_write_header : StatusWriter → ℕ → StatusWriter
status_write_header sw code =
    if sw.wrote_header
    then sw
    else record { inner = write_header sw.inner code; status = code; wrote_header = true }

-- the level of the line of a request by its status
unfoldable pub request_level : ℕ → SlogLevel
request_level status = if leb 500 status then error else if leb 400 status then warn else debug

-- the paths that loggingMiddleware does not log
unfoldable pub is_quiet_path : String → Bool
is_quiet_path path = str_eq path "/metrics" || str_eq path "/health" || str_eq path "/ready"
