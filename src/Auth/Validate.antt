-- ===== src/Auth/Validate.antt =====
-- What a validator accepts.
use grpcx.Common.{
  ℕ, ◌+◌, ◌≤◌, ◌<◌, String, ◌≡◌, ◌≢◌, ◌↔◌, refl, ap, Option, none, some, true, lookup,
  string_equality, eq_iff, arith,
}
use grpcx.Common.Result.{success}
use mathlib.Core.Path.{subst₂}
use grpcx.Platform.{Platform}
use grpcx.Auth.Types.{Claims, VendorIdentity}
use grpcx.Auth.{
  SigningMethod, hmac, other_method, Token, JwtPackage, JwtValidator, new_jwt_validator, hmac_key,
  token_result, validate_jwt, parse_token, generate_token, ApiKeyValidator, validate_api_key,
}

module _ (J : JwtPackage) (P : Platform) where
  open J use {parse_with_claims, IsSigned, parse_signed, parse-signed_string}

  token_result-success :
      (o : Option Token) (c : Claims)
      → token_result J P o ≡ success c
      → (t : Token) × (o ≡ some t) × (t.valid ≡ true) × (t.token_claims ≡ some c)
  unfolding token_result
  token_result-success none c h = cc
  token_result-success (some t) c h = (t, refl, ground arith, ground arith)

  hmac_key-some :
      (secret : String) (m : SigningMethod) (key : String)
      → hmac_key secret m ≡ some key
      → (key ≡ secret) × (name : String) × (m ≡ hmac name)
  unfolding hmac_key
  hmac_key-some secret (hmac name) key h = (cc, name, refl)
  hmac_key-some secret (other_method name) key h = absurd (cc)

  -- Claims that Validate accepts stand in a token that carries a signature by an HMAC method under
  -- the validator's own secret.
  pub validate_jwt_signed :
      (now : ℕ) (v : JwtValidator) (token : String) (c : Claims)
      → validate_jwt J P now v token ≡ success c
      → (name : String) × IsSigned token (hmac name) v.secret
  unfolding validate_jwt
  validate_jwt_signed now v token c h =
      let (t, parsed, valid, held) =
        token_result-success (parse_with_claims now token (hmac_key v.secret)) c h in
      let (m, key, accepted, signed) = parse_signed now token (hmac_key v.secret) t parsed valid in
      let (same, name, method) = hmac_key-some v.secret m key accepted in
      (name, subst₂ (λ n k. IsSigned token n k) method same signed)

  -- A token that GenerateToken made for some claims validates to those claims under the same secret,
  -- from the time of its making until its lifetime is over, and ParseToken agrees.
  pub generate_token-validate :
      (now later ttl : ℕ) (c : Claims) (secret s : String)
      → generate_token J P now c secret ttl ≡ some s
      → now ≤ later
      → later < now + ttl
      → (validate_jwt J P later (new_jwt_validator secret) s ≡ success c)
        × (parse_token J P later s secret ≡ success c)
  unfolding validate_jwt generate_token parse_token
  generate_token-validate now later ttl c secret s made after before =
      let parsed : token_result J P (parse_with_claims later s (hmac_key secret)) ≡ success c =
        ap (token_result J P) (
          parse-signed_string later now (now + ttl) c secret s (hmac_key secret) made after before
            refl) in
      (parsed, parsed)

module _ (P : Platform) where
  -- An API key is accepted exactly if it is not empty and the validator has an entry for it; the
  -- identity is the key with the name of the entry.
  pub validate_api_key_iff :
      (v : ApiKeyValidator) (key : String) (identity : VendorIdentity)
      → (validate_api_key P v key ≡ success identity)
        ↔ ((key ≢ "") × (lookup key v.keys ≡ some identity.name) × (identity.vendor_id ≡ key))
  unfolding validate_api_key
  validate_api_key_iff v key identity = ground (arith, eq_iff key "")
