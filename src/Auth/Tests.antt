-- ===== src/Auth/Tests.antt =====
-- Instances of the theorems on authentication, with a JWT package that knows one user.
use grpcx.Common.{
  contains, Map, arith, ℕ, ◌≤◌, ◌<◌, String, List, [], ◌∷◌, ◌≡◌, ◌↔◌, refl, Option, none, some,
  Bool, true, false, ◌&&◌, if◌then◌else◌, str_eq, string_equality, ltb, ◌==◌, eq_iff, ◌⊎◌,
}
use grpcx.Common.Result.{success, failure}
use grpcx.Auth.Types.{role_admin, Claims}
use grpcx.Auth.{
  SigningMethod, hmac, Token, JwtPackage, new_jwt_validator, new_api_key_validator, validate_jwt,
  parse_token, generate_token, jwt, claims_from_context, require_super_admin, with_claims, Handler,
  extract_jwt, token_result, vendor_identity_from_context,
}
use grpcx.Auth.Validate.{validate_jwt_signed, generate_token-validate}
use grpcx.Auth.Roles.{require_iff}
use grpcx.Errs.{Error, app}
use grpcx.Auth.Interceptor.{identities, result, auth_interceptor_lem}
use grpcx.Samples.{sample_metadata, sample_platform, background, request_with, Ctx}

abbrev ann : Claims
ann = record { identity_id = "ann"; scope = "shop"; roles = "admin" ∷ []; email = "a@x" }

only_admin : List String → Bool
only_admin [] = false
only_admin (r ∷ []) = str_eq r "admin"
only_admin (r ∷ q ∷ l) = false

-- The package of the runs signs the claims of one user, at time 0 and for ten seconds, and the token
-- is the secret itself.
is_ann : Claims → Bool
is_ann c =
    str_eq c.identity_id "ann"
    && str_eq c.scope "shop"
    && only_admin c.roles
    && str_eq c.email "a@x"

sign : Claims → ℕ → ℕ → String → Option String
sign c issued expires secret =
    if is_ann c && issued == 0 && expires == 10 then some secret else none

check_key : ℕ → String → Option String → Option Token
check_key now s none = none
check_key now s (some key) =
    if str_eq key s && ltb now 10
    then some (record { valid = true; token_claims = some ann })
    else none

run_parse : ℕ → String → (SigningMethod → Option String) → Option Token
unfolding check_key
run_parse now s key_func = check_key now s (key_func (hmac "HS256"))

abbrev Signed : String → SigningMethod → String → Type 0
Signed s m key = (m ≡ hmac "HS256") × (key ≡ s)

check_key-some :
    (now : ℕ) (s : String) (o : Option String) (t : Token)
    → check_key now s o ≡ some t
    → (key : String) × (o ≡ some key) × (key ≡ s)
unfolding check_key
check_key-some now s none t h = cc
check_key-some now s (some key) t h = (key, refl, ground (arith, eq_iff key s))

parse_lem :
    (now : ℕ) (s : String) (key_func : SigningMethod → Option String) (t : Token)
    → run_parse now s key_func ≡ some t
    → t.valid ≡ true
    → (m : SigningMethod) × (key : String) × (key_func m ≡ some key) × Signed s m key
unfolding run_parse
parse_lem now s key_func t h valid =
    let (key, found, same) = check_key-some now s (key_func (hmac "HS256")) t h in
    (hmac "HS256", key, found, (refl, same))

only_admin_lem : (l : List String) → only_admin l ≡ true → l ≡ "admin" ∷ []
unfolding only_admin
only_admin_lem [] h = cc
only_admin_lem (r ∷ []) h = ground (arith, eq_iff r "admin")
only_admin_lem (r ∷ q ∷ l) h = cc

is_ann_lem : (c : Claims) → is_ann c ≡ true → c ≡ ann
unfolding is_ann
is_ann_lem c h = ground (
  arith,
  eq_iff c.identity_id "ann",
  eq_iff c.scope "shop",
  eq_iff c.email "a@x",
  only_admin_lem c.roles,
)

parse-sign :
    (now issued expires : ℕ) (c : Claims) (secret s : String)
    (key_func : SigningMethod → Option String)
    → sign c issued expires secret ≡ some s
    → issued ≤ now
    → now < expires
    → key_func (hmac "HS256") ≡ some secret
    → run_parse now s key_func ≡ some (record { valid = true; token_claims = some c })
unfolding run_parse sign check_key
parse-sign now issued expires c secret s key_func made after before found =
    rw found (ground (arith, is_ann_lem c, eq_iff secret s))

abbrev sample_jwt : JwtPackage
sample_jwt = record {
  parse_with_claims = run_parse;
  signed_string = sign;
  IsSigned = Signed;
  parse_signed = parse_lem;
  parse-signed_string = parse-sign;
}

ann_passes : validate_jwt sample_jwt sample_platform 4 (new_jwt_validator "s3") "s3" ≡ success ann
unfolding validate_jwt token_result run_parse check_key
ann_passes = refl

made : generate_token sample_jwt sample_platform 0 ann "s3" 10 ≡ some "s3"
unfolding generate_token sign is_ann only_admin
made = refl

validate_jwt_signed_example : (name : String) × Signed "s3" (hmac name) "s3"
validate_jwt_signed_example =
    validate_jwt_signed sample_jwt sample_platform 4 (new_jwt_validator "s3") "s3" ann ann_passes

generate_token-validate_example :
    (validate_jwt sample_jwt sample_platform 4 (new_jwt_validator "s3") "s3" ≡ success ann)
    × (parse_token sample_jwt sample_platform 4 "s3" "s3" ≡ success ann)
generate_token-validate_example =
    generate_token-validate sample_jwt sample_platform 0 4 10 ann "s3" "s3" made (omega arith)
      (omega arith)

abbrev till_key : String
till_key = "k1"

abbrev tills : Map String String
tills = (till_key, "till") ∷ []

abbrev with_ann : Ctx
with_ann = with_claims sample_metadata background (some ann)

require_iff_example : (require_super_admin sample_metadata sample_platform with_ann ≡ none) ↔ (
    (c : Claims) × (claims_from_context sample_metadata with_ann ≡ some c)
    × (contains c.roles role_admin ≡ true))
require_iff_example = (require_iff sample_metadata sample_platform with_ann).1

abbrev request : Ctx
request = request_with "authorization" "Bearer s3"

abbrev echo : Handler sample_metadata sample_platform String String
echo ctx req = success req

auth_interceptor_lem_example :
    ((e : Error sample_platform) × (extract_jwt sample_metadata sample_jwt sample_platform 4 request
          (new_jwt_validator "s3")
        ≡ failure e)
      × (result sample_metadata sample_jwt sample_platform 4
            (new_jwt_validator "s3")
            (new_api_key_validator [])
            (λ m. jwt)
            request
            "hi"
            "/a/b"
            echo
          ≡ failure (app e)))
    ⊎ ((c : Claims) × (ctx' : Ctx) × (extract_jwt sample_metadata sample_jwt sample_platform 4
            request
            (new_jwt_validator "s3")
          ≡ success c)
        × (result sample_metadata sample_jwt sample_platform 4
              (new_jwt_validator "s3")
              (new_api_key_validator [])
              (λ m. jwt)
              request
              "hi"
              "/a/b"
              echo
            ≡ echo ctx' "hi")
        × (identities sample_metadata ctx' ≡ (some c, none))
        × (record ctx' { claims_value = none } ≡ request))
unfolding vendor_identity_from_context
auth_interceptor_lem_example =
    (auth_interceptor_lem sample_metadata sample_jwt sample_platform 4 (new_jwt_validator "s3")
        (new_api_key_validator []) (λ m. jwt) request "hi" "/a/b" echo).1
      refl
