-- ===== src/Httpclient.antt =====
-- httpclient/*.go: a client of the package req, which is outside. A client is the list of the calls
-- that have set it up, and an Option is the calls that it makes; times are in milliseconds.
pub mod LastCall
pub mod Precedence
mod Tests
use grpcx.Common.{
  ℕ, zero, suc, String, List, [], ◌∷◌, ◌++◌, Option, none, some, Bool, true, false, if◌then◌else◌,
  str_eq, not, ◌&&◌, ◌==◌,
}
use grpcx.Common.Integers.{ℤ, pos, negsuc}
use grpcx.Server.Logging.{SlogLevel, debug, warn, error}

-- the methods of *req.Client that the options call
pub data ClientCall : Type 0 where
  set_base_url : String → ClientCall
  set_timeout : ℕ → ClientCall
  set_common_retry_count : ℤ → ClientCall
  set_common_retry_backoff_interval : ℕ → ℕ → ClientCall
  set_common_retry_fixed_interval : ℕ → ClientCall
  set_common_bearer_auth_token : String → ClientCall
  set_common_header : String → String → ClientCall
  set_common_basic_auth : String → String → ClientCall
  set_user_agent : String → ClientCall
  enable_insecure_skip_verify : ClientCall
  wrap_round_trip_otel : ClientCall
  set_slog_logger : ClientCall

abbrev pub Client : Type 0
Client = List ClientCall

abbrev pub ClientOption : Type 0
ClientOption = List ClientCall

unfoldable pub with_base_url : String → ClientOption
with_base_url url = set_base_url url ∷ []

unfoldable pub with_timeout : ℕ → ClientOption
with_timeout d = set_timeout d ∷ []

unfoldable pub with_retry : ℤ → List ℕ → ClientOption
with_retry count [] = set_common_retry_count count ∷ []
with_retry count (wait ∷ []) =
    set_common_retry_count count ∷ set_common_retry_fixed_interval wait ∷ []
with_retry count (low ∷ high ∷ more) =
    set_common_retry_count count ∷ set_common_retry_backoff_interval low high ∷ []

unfoldable pub with_bearer_token : String → ClientOption
with_bearer_token token = set_common_bearer_auth_token token ∷ []

unfoldable pub with_api_key : String → String → ClientOption
with_api_key key header =
    set_common_header (if str_eq header "" then "X-API-Key" else header) key ∷ []

unfoldable pub with_basic_auth : String → String → ClientOption
with_basic_auth username password = set_common_basic_auth username password ∷ []

unfoldable pub with_user_agent : String → ClientOption
with_user_agent ua = set_user_agent ua ∷ []

unfoldable pub with_header : String → String → ClientOption
with_header key value = set_common_header key value ∷ []

unfoldable pub with_tls_insecure : ClientOption
with_tls_insecure = enable_insecure_skip_verify ∷ []

unfoldable pub with_otel : ClientOption
with_otel = wrap_round_trip_otel ∷ []

unfoldable pub with_slog_logger : ClientOption
with_slog_logger = set_slog_logger ∷ []

-- `for _, o := range opts { o(c) }`
abbrev pub apply_options : List ClientOption → Client → Client
apply_options [] c = c
apply_options (o ∷ opts) c = apply_options opts (c ++ o)

unfoldable pub new : List ClientOption → Client
unfolding with_slog_logger with_timeout
new opts = apply_options opts ([] ++ with_slog_logger ++ with_timeout 30000)

pub record ClientConfig : Type 0 where
  pub base_url : String
  pub timeout : ℕ
  pub retry_count : ℤ
  pub retry_wait_time : ℕ
  pub retry_max_wait : ℕ
  pub bearer_token : String
  pub api_key : String
  pub api_key_header : String
  pub user_agent : String
  pub tls_insecure : Bool

abbrev pub is_positive : ℤ → Bool
is_positive (pos zero) = false
is_positive (pos (suc n)) = true
is_positive (negsuc n) = false

-- `if test { derived = append(derived, option) }`
abbrev pub option_if : Bool → ClientOption → List ClientOption
option_if test option = if test then option ∷ [] else []

-- the switch of the retries, for a positive count
unfoldable pub retry_option : ClientConfig → ClientOption
unfolding with_retry
retry_option cfg =
    if not (cfg.retry_wait_time == 0) && not (cfg.retry_max_wait == 0)
    then with_retry cfg.retry_count (cfg.retry_wait_time ∷ cfg.retry_max_wait ∷ [])
    else if not (cfg.retry_wait_time == 0)
    then with_retry cfg.retry_count (cfg.retry_wait_time ∷ [])
    else with_retry cfg.retry_count []

-- a sequence of such statements
abbrev pub options_of : List (Bool × ClientOption) → List ClientOption
options_of [] = []
options_of ((test, option) ∷ more) = option_if test option ++ options_of more

unfoldable pub derived : ClientConfig → List (Bool × ClientOption)
unfolding with_base_url with_timeout retry_option with_bearer_token with_api_key with_user_agent
    with_tls_insecure
derived cfg =
    (not (str_eq cfg.base_url ""), with_base_url cfg.base_url)
    ∷ (not (cfg.timeout == 0), with_timeout cfg.timeout)
    ∷ (is_positive cfg.retry_count, retry_option cfg)
    ∷ (not (str_eq cfg.bearer_token ""), with_bearer_token cfg.bearer_token)
    ∷ (not (str_eq cfg.api_key ""), with_api_key cfg.api_key cfg.api_key_header)
    ∷ (not (str_eq cfg.user_agent ""), with_user_agent cfg.user_agent)
    ∷ (cfg.tls_insecure, with_tls_insecure)
    ∷ []

unfoldable pub new_from_config : ClientConfig → List ClientOption → Client
unfolding derived new
new_from_config cfg opts = new (options_of (derived cfg) ++ opts)

-- slogLogger: the level at which each of its methods logs, and the text
pub data ReqLevel : Type 0 where
  errorf warnf debugf : ReqLevel

unfoldable pub slog_logger :
    {A : Type 0} → (String → List A → String) → ReqLevel → String → List A → SlogLevel × String
slog_logger sprintf errorf format v = (error, sprintf format v)
slog_logger sprintf warnf format v = (warn, sprintf format v)
slog_logger sprintf debugf format v = (debug, sprintf format v)
