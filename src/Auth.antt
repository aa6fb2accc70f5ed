-- ===== src/Auth.antt =====
-- auth: JWT and API key validation, claims in the context, the interceptor and the role checks.
pub mod Types
pub mod Validate
pub mod Interceptor
pub mod Roles
mod Tests
use grpcx.Common.{
  ℕ, ◌+◌, ◌≤◌, ◌<◌, String, List, [], ◌∷◌, ◌≡◌, Option, none, some, Map, lookup, Bool, true, false,
  if◌then◌else◌, str_eq, string_equality, contains, ◌||◌, not,
}
use grpcx.Common.Text.{trim_prefix}
use grpcx.Common.Integers.{ℤ}
use grpcx.Common.Result.{Result, success, failure, ◌>>=◌}
use grpcx.Platform.{Platform, Code, unauthenticated, permission_denied}
use grpcx.Errs.{Error, GoError, app, foreign, unauthenticated_error}
use grpcx.Context.{MetadataPackage, Context}
use grpcx.Rpcctx.{values}
use Types.{Claims, VendorIdentity, role_operator, role_admin}

-- auth/context.go

module _ (M : MetadataPackage) where
  unfoldable pub with_claims : Context M → Option Claims → Context M
  with_claims ctx claims = record ctx { claims_value = some claims }

  -- the value and `ok && c != nil`: `none` where ok is false
  unfoldable pub claims_from_context : Context M → Option Claims
  claims_from_context ctx = elim ctx.claims_value [ none ↦ none | some c ↦ c ]

  unfoldable pub with_vendor_identity : Context M → Option VendorIdentity → Context M
  with_vendor_identity ctx v = record ctx { vendor_value = some v }

  unfoldable pub vendor_identity_from_context : Context M → Option VendorIdentity
  vendor_identity_from_context ctx = elim ctx.vendor_value [ none ↦ none | some v ↦ v ]

  module _ (P : Platform) where
    open P use {Err, new_status, err_of}

    -- status.Errorf with a format that has no verbs; `none` is a nil error
    abbrev pub status_errorf : Code → String → Option Err
    status_errorf code format = err_of (new_status code format)

    unfoldable pub require_admin : Context M → Option Err
    require_admin ctx = elim (claims_from_context ctx) [
      | none ↦ status_errorf unauthenticated "unauthenticated"
      | some c ↦
          if contains c.roles role_operator || contains c.roles role_admin
          then none
          else status_errorf permission_denied "admin role required"
    ]

    unfoldable pub require_super_admin : Context M → Option Err
    require_super_admin ctx = elim (claims_from_context ctx) [
      | none ↦ status_errorf unauthenticated "unauthenticated"
      | some c ↦
          if contains c.roles role_admin
          then none
          else status_errorf permission_denied "super_admin role required"
    ]

-- The signing methods that the key function tells apart: HMAC, by the name of its variant, and others.
pub data SigningMethod : Type 0 where
  hmac : String → SigningMethod
  other_method : String → SigningMethod

pub record Token : Type 0 where
  pub valid : Bool
  -- token.Claims.(*jwtClaims), `none` where the assertion fails
  pub token_claims : Option Claims

-- github.com/golang-jwt/jwt. Times are seconds. The package hands the token's method to the key
-- function; a token is valid only if its signature checks under that key, and a token that it signed
-- itself parses to the claims that went in, until it expires.
pub record JwtPackage : Type 1 where
  pub parse_with_claims : ℕ → String → (SigningMethod → Option String) → Option Token
  pub signed_string : Claims → ℕ → ℕ → String → Option String
  pub IsSigned : String → SigningMethod → String → Type 0
  pub parse_signed :
      (now : ℕ) (s : String) (key_func : SigningMethod → Option String) (t : Token)
      → parse_with_claims now s key_func ≡ some t
      → t.valid ≡ true
      → (m : SigningMethod) × (key : String) × (key_func m ≡ some key) × IsSigned s m key
  pub parse-signed_string :
      (now issued expires : ℕ) (c : Claims) (secret s : String)
      (key_func : SigningMethod → Option String)
      → signed_string c issued expires secret ≡ some s
      → issued ≤ now
      → now < expires
      → key_func (hmac "HS256") ≡ some secret
      → parse_with_claims now s key_func ≡ some (record { valid = true; token_claims = some c })

-- auth/jwt.go

pub record JwtValidator : Type 0 where
  pub secret : String

abbrev pub new_jwt_validator : String → JwtValidator
new_jwt_validator secret = record { secret = secret }

-- The key function that Validate hands to the parser: `none` is its error.
hmac_key : String → SigningMethod → Option String
hmac_key secret (hmac name) = some secret
hmac_key secret (other_method name) = none

module _ (J : JwtPackage) (P : Platform) where
  open J use {parse_with_claims, signed_string}

  invalid_token : String → Error P
  invalid_token msg = unauthenticated_error P "INVALID_TOKEN" msg

  token_result : Option Token → Result (Error P) Claims
  unfolding invalid_token
  token_result none = failure (invalid_token "invalid or expired token")
  token_result (some token) =
      if not token.valid
      then failure (invalid_token "invalid or expired token")
      else elim token.token_claims [
        | none ↦ failure (invalid_token "malformed token claims")
        | some c ↦ success c
      ]

  -- JWTValidator.Validate at the time `now`
  unfoldable pub validate_jwt : ℕ → JwtValidator → String → Result (Error P) Claims
  unfolding token_result hmac_key
  validate_jwt now v token_str = token_result (parse_with_claims now token_str (hmac_key v.secret))

  unfoldable pub generate_token : ℕ → Claims → String → ℕ → Option String
  generate_token now claims secret ttl = signed_string claims now (now + ttl) secret

  unfoldable pub parse_token : ℕ → String → String → Result (Error P) Claims
  unfolding validate_jwt
  parse_token now token_string secret = validate_jwt now (new_jwt_validator secret) token_string

-- auth/apikey.go

pub record ApiKeyValidator : Type 0 where
  pub keys : Map String String

abbrev pub new_api_key_validator : Map String String → ApiKeyValidator
new_api_key_validator keys = record { keys = keys }

module _ (P : Platform) where
  unfoldable pub validate_api_key : ApiKeyValidator → String → Result (Error P) VendorIdentity
  validate_api_key v key =
      if str_eq key ""
      then failure (unauthenticated_error P "MISSING_API_KEY" "missing api key")
      else elim (lookup key v.keys) [
        | none ↦ failure (unauthenticated_error P "INVALID_API_KEY" "invalid api key")
        | some name ↦ success (record { vendor_id = key; name = name })
      ]

-- auth/interceptor.go

pub data AuthMode : Type 0 where
  public jwt api_key : AuthMode
  other_mode : ℤ → AuthMode

-- a handler, or the rest of the chain: what the call returns, of any response type
abbrev pub Handler {ℓ κ} : MetadataPackage → Platform → Type ℓ → Type κ → Type (ℓ ⊔ κ)
Handler M P Req Resp = Context M → Req → Result (GoError P) Resp

module _ (M : MetadataPackage) (J : JwtPackage) (P : Platform) where
  unfoldable pub extract_jwt : ℕ → Context M → JwtValidator → Result (Error P) Claims
  extract_jwt now ctx v = elim (values M ctx "authorization") [
    | none ↦ failure (unauthenticated_error P "MISSING_ACCESS_TOKEN" "missing access token")
    | some [] ↦ failure (unauthenticated_error P "MISSING_ACCESS_TOKEN" "missing access token")
    | some (val ∷ vals) ↦ validate_jwt J P now v (trim_prefix val "Bearer ")
  ]

  unfoldable pub extract_api_key : Context M → ApiKeyValidator → Result (Error P) VendorIdentity
  extract_api_key ctx v = elim (values M ctx "x-api-key") [
    | none ↦ failure (unauthenticated_error P "MISSING_API_KEY" "missing api key")
    | some [] ↦ failure (unauthenticated_error P "MISSING_API_KEY" "missing api key")
    | some (val ∷ vals) ↦
        if str_eq val ""
        then failure (unauthenticated_error P "MISSING_API_KEY" "missing api key")
        else validate_api_key P v val
  ]

  -- an *errs.Error returned as an error
  abbrev lift {ℓ} : {A : Type ℓ} → Result (Error P) A → Result (GoError P) A
  lift (success a) = success a
  lift (failure e) = failure (app e)

  -- the switch of the interceptor: the context that the handler gets, or the error
  authenticate :
      ℕ → JwtValidator → ApiKeyValidator → AuthMode → Context M → Result (GoError P) (Context M)
  authenticate now jwt_val api_key_val public ctx = success ctx
  authenticate now jwt_val api_key_val jwt ctx = do
    claims ← lift (extract_jwt now ctx jwt_val)
    success (with_claims M ctx (some claims))
  authenticate now jwt_val api_key_val (other_mode n) ctx = success ctx
  authenticate now jwt_val api_key_val api_key ctx = do
    vendor ← lift (extract_api_key ctx api_key_val)
    success (with_vendor_identity M ctx (some vendor))

  -- The interceptor that NewAuthInterceptor returns, at the time `now`.
  unfoldable pub auth_interceptor {ℓ κ} :
      {Req : Type ℓ} {Resp : Type κ}
      → ℕ
      → JwtValidator
      → ApiKeyValidator
      → (String → AuthMode)
      → Context M
      → Req
      → String
      → Handler M P Req Resp
      → Result (GoError P) Resp
  unfolding authenticate
  auth_interceptor now jwt_val api_key_val policy ctx req full_method handler = do
    ctx' ← authenticate now jwt_val api_key_val (policy full_method) ctx
    handler ctx' req
