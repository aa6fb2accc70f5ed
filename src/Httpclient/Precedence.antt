-- ===== src/Httpclient/Precedence.antt =====
-- What a client of httpclient/client.go is set up with in the end.
use grpcx.Common.{
  ℕ, String, List, ◌++◌, ◌≡◌, refl, ◌∙◌, ap, Option, none, some, Bool, true, false, if◌then◌else◌,
  str_eq, not, ◌&&◌, ◌==◌, arith,
}
use grpcx.Common.Integers.{ℤ}
use grpcx.Common.Text.{◌+++◌}
use grpcx.Httpclient.LastCall.{
  or_else, or_else-none, when, last_set, all_calls, set_if, last_of, last_set-from_config,
}
use grpcx.Httpclient.{
  ClientCall, set_base_url, set_timeout, set_common_retry_count, set_common_retry_backoff_interval,
  set_common_retry_fixed_interval, set_common_bearer_auth_token, set_common_header,
  set_common_basic_auth, set_user_agent, enable_insecure_skip_verify, ClientOption, ClientConfig,
  is_positive, derived, new_from_config, retry_option, with_retry, with_base_url, with_timeout,
  with_bearer_token, with_api_key, with_user_agent, with_tls_insecure, with_slog_logger,
}

abbrev pub base_url_of : ClientCall → Option String
base_url_of (set_base_url url) = some url
base_url_of _ = none

abbrev pub timeout_of : ClientCall → Option ℕ
timeout_of (set_timeout d) = some d
timeout_of _ = none

abbrev pub retry_count_of : ClientCall → Option ℤ
retry_count_of (set_common_retry_count n) = some n
retry_count_of _ = none

-- The wait between retries: a backoff between two bounds, or a fixed time. A later call of either kind
-- replaces an earlier one.
pub data Interval : Type 0 where
  backoff : ℕ → ℕ → Interval
  fixed : ℕ → Interval

abbrev pub interval_of : ClientCall → Option Interval
interval_of (set_common_retry_backoff_interval low high) = some (backoff low high)
interval_of (set_common_retry_fixed_interval wait) = some (fixed wait)
interval_of _ = none

abbrev pub insecure_of : ClientCall → Option Bool
insecure_of enable_insecure_skip_verify = some true
insecure_of _ = none

-- What a call sets the header `name` of requests to: a bearer token and basic auth set Authorization, and
-- SetUserAgent sets User-Agent. `basic` is the value for a user and a password.
abbrev pub header_at :
    (String → String) → (String → String → String) → String → ClientCall → Option String
header_at canonical basic name (set_common_header key value) =
    when (str_eq (canonical key) (canonical name)) value
header_at canonical basic name (set_common_bearer_auth_token token) =
    when (str_eq (canonical "Authorization") (canonical name)) ("Bearer " +++ token)
header_at canonical basic name (set_common_basic_auth user password) =
    when (str_eq (canonical "Authorization") (canonical name)) (basic user password)
header_at canonical basic name (set_user_agent ua) =
    when (str_eq (canonical "User-Agent") (canonical name)) ua
header_at canonical basic name _ = none

base_url-derived :
    (cfg : ClientConfig)
    → last_of base_url_of (derived cfg) ≡ when (not (str_eq cfg.base_url "")) cfg.base_url
unfolding derived with_base_url with_timeout retry_option with_retry with_bearer_token with_api_key
    with_user_agent with_tls_insecure
base_url-derived cfg = ground arith

timeout-derived :
    (cfg : ClientConfig)
    → last_of timeout_of (derived cfg) ≡ when (not (cfg.timeout == 0)) cfg.timeout
unfolding derived with_base_url with_timeout retry_option with_retry with_bearer_token with_api_key
    with_user_agent with_tls_insecure
timeout-derived cfg = ground arith

retry_count-derived :
    (cfg : ClientConfig)
    → last_of retry_count_of (derived cfg) ≡ when (is_positive cfg.retry_count) cfg.retry_count
unfolding derived with_base_url with_timeout retry_option with_retry with_bearer_token with_api_key
    with_user_agent with_tls_insecure
retry_count-derived cfg = ground arith

-- the interval of a configuration: a maximal wait on its own is ignored
abbrev pub configured_interval : ClientConfig → Option Interval
configured_interval cfg =
    if cfg.retry_wait_time == 0
    then none
    else some (
        if cfg.retry_max_wait == 0
        then fixed cfg.retry_wait_time
        else backoff cfg.retry_wait_time cfg.retry_max_wait)

interval-derived :
    (cfg : ClientConfig)
    → last_of interval_of (derived cfg)
      ≡ (if is_positive cfg.retry_count then configured_interval cfg else none)
unfolding derived with_base_url with_timeout retry_option with_retry with_bearer_token with_api_key
    with_user_agent with_tls_insecure
interval-derived cfg = ground arith

insecure-derived :
    (cfg : ClientConfig) → last_of insecure_of (derived cfg) ≡ when cfg.tls_insecure true
unfolding derived with_base_url with_timeout retry_option with_retry with_bearer_token with_api_key
    with_user_agent with_tls_insecure
insecure-derived cfg = ground arith

abbrev pub key_header : ClientConfig → String
key_header cfg = if str_eq cfg.api_key_header "" then "X-API-Key" else cfg.api_key_header

module _ (canonical : String → String) (basic : String → String → String) where
  -- a header of a configuration: the user agent before the API key, and that before the token
  abbrev pub configured_header : String → ClientConfig → Option String
  configured_header name cfg =
      let is_named = λ (k : String). str_eq (canonical k) (canonical name) in
      or_else (when (not (str_eq cfg.user_agent "") && is_named "User-Agent") cfg.user_agent) (
        or_else (when (not (str_eq cfg.api_key "") && is_named (key_header cfg)) cfg.api_key) (
          when (not (str_eq cfg.bearer_token "") && is_named "Authorization")
            ("Bearer " +++ cfg.bearer_token)))

  abbrev header_pick : String → ClientCall → Option String
  header_pick name = header_at canonical basic name

  set_if-when :
      (name : String) (test named : Bool) (v : String) (o : ClientOption)
      → last_set (header_pick name) o ≡ when named v
      → set_if (header_pick name) test o ≡ when (test && named) v
  set_if-when name true named v o h = h
  set_if-when name false named v o h = refl

  retry_option-header :
      (name : String) (cfg : ClientConfig)
      → set_if (header_pick name) (is_positive cfg.retry_count) (retry_option cfg) ≡ none
  unfolding retry_option with_retry
  retry_option-header name cfg = ground arith

  if-none : (test : Bool) → ◌≡◌ {A = Option String} (if test then none else none) none
  if-none true = refl
  if-none false = refl

  -- the seven options of a configuration, of which three set headers
  three_of_seven :
      (ua key token base timeout retry tls : Option String)
      → tls ≡ none
      → retry ≡ none
      → timeout ≡ none
      → base ≡ none
      → or_else
          (or_else
            (or_else (or_else (or_else (or_else (or_else none tls) ua) key) token) retry)
            timeout)
          base
        ≡ or_else ua (or_else key token)
  three_of_seven ua key token base timeout retry tls h1 h2 h3 h4 = ground (arith, h1, h2, h3, h4)

  or_else_ap :
      {a a' b b' c c' : Option String}
      → a ≡ a'
      → b ≡ b'
      → c ≡ c'
      → or_else a (or_else b c) ≡ or_else a' (or_else b' c')
  or_else_ap p q r = cc

  header-derived :
      (name : String) (cfg : ClientConfig)
      → last_of (header_at canonical basic name) (derived cfg) ≡ configured_header name cfg
  unfolding derived with_base_url with_timeout with_bearer_token with_api_key with_user_agent
      with_tls_insecure
  header-derived name cfg =
      let is_named = λ (k : String). str_eq (canonical k) (canonical name) in
      let ua =
        set_if-when name (not (str_eq cfg.user_agent "")) (is_named "User-Agent") cfg.user_agent
          (with_user_agent cfg.user_agent) refl in
      let key =
        set_if-when name (not (str_eq cfg.api_key "")) (is_named (key_header cfg)) cfg.api_key
          (with_api_key cfg.api_key cfg.api_key_header) refl in
      let token =
        set_if-when name (not (str_eq cfg.bearer_token "")) (is_named "Authorization")
          ("Bearer " +++ cfg.bearer_token) (with_bearer_token cfg.bearer_token) refl in
      three_of_seven _ _ _ _ _ _ _ (if-none cfg.tls_insecure) (retry_option-header name cfg)
        (if-none (not (cfg.timeout == 0))) (if-none (not (str_eq cfg.base_url "")))
      ∙ or_else_ap ua key token

-- What is set is the explicit options' last value of the kind or, without one, `own`.
abbrev pub Falls {ℓ} :
    {A : Type ℓ} → (ClientCall → Option A) → ClientConfig → List ClientOption → Option A → Type ℓ
Falls pick cfg opts own =
    last_set pick (new_from_config cfg opts) ≡ or_else (last_set pick (all_calls opts)) own

falls {ℓ} :
    {A : Type ℓ} (pick : ClientCall → Option A) (cfg : ClientConfig) (opts : List ClientOption)
    (own : Option A)
    → last_of pick (derived cfg) ≡ own
    → last_set pick (with_slog_logger ++ with_timeout 30000) ≡ none
    → Falls pick cfg opts own
falls pick cfg opts own h k =
    last_set-from_config pick cfg opts
    ∙ ap (λ t. or_else (last_set pick (all_calls opts)) t)
        (ap (or_else (last_of pick (derived cfg))) k
          ∙ or_else-none (last_of pick (derived cfg))
          ∙ h)

-- A client made from a configuration has, for each setting, the last value that an explicit option
-- gives it and otherwise that of the configuration, where an empty or zero value counts as not set:
-- the timeout is then 30 seconds, and the other settings are left alone. Retries are set for a
-- positive count, with a backoff if both waits are configured and a fixed interval if only the first
-- is; a maximal wait on its own is ignored. A header has the user agent, the API key or the bearer
-- token if its name is that of their header, in canonical form, in this order. Certificates are not
-- verified exactly if an option or the configuration says so.
pub new_from_config_lem :
    (canonical : String → String) (basic : String → String → String) (cfg : ClientConfig)
    (opts : List ClientOption) (name : String)
    → Falls base_url_of cfg opts (when (not (str_eq cfg.base_url "")) cfg.base_url)
      × Falls timeout_of cfg opts (some (if cfg.timeout == 0 then 30000 else cfg.timeout))
      × Falls retry_count_of cfg opts (when (is_positive cfg.retry_count) cfg.retry_count)
      × Falls interval_of cfg opts
          (if is_positive cfg.retry_count then configured_interval cfg else none)
      × Falls (header_at canonical basic name) cfg opts (configured_header canonical basic name cfg)
      × Falls insecure_of cfg opts (when cfg.tls_insecure true)
unfolding with_slog_logger with_timeout
new_from_config_lem canonical basic cfg opts name = (
  falls base_url_of cfg opts _ (base_url-derived cfg) refl,
  last_set-from_config timeout_of cfg opts
      ∙ ap (λ t. or_else (last_set timeout_of (all_calls opts)) t)
          (ground (arith, timeout-derived cfg)),
  falls retry_count_of cfg opts _ (retry_count-derived cfg) refl,
  falls interval_of cfg opts _ (interval-derived cfg) refl,
  falls (header_at canonical basic name) cfg opts _ (header-derived canonical basic name cfg) refl,
  falls insecure_of cfg opts _ (insecure-derived cfg) refl,
)
