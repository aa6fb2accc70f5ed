-- ===== src/Auth/Interceptor.antt =====
-- What the interceptor lets through to the handler.
use grpcx.Common.{arith, ℕ, String, ◌≡◌, refl, Option, some, inl, inr, ◌⊎◌}
use grpcx.Common.Integers.{ℤ}
use grpcx.Common.Result.{Result-cases, Result, success, failure, ◌>>=◌}
use grpcx.Platform.{Platform}
use grpcx.Errs.{Error, GoError, app}
use grpcx.Context.{MetadataPackage, Context}
use grpcx.Rpcctx.{get_token_from_context}
use grpcx.Auth.Types.{Claims, VendorIdentity}
use grpcx.Auth.{
  with_claims, claims_from_context, with_vendor_identity, vendor_identity_from_context, JwtPackage,
  JwtValidator, ApiKeyValidator, validate_jwt, AuthMode, other_mode, public, jwt, api_key, Handler,
  extract_jwt, extract_api_key, authenticate, auth_interceptor,
}

module _ (M : MetadataPackage) where
  -- The claims and the vendor identity that the context carries.
  abbrev pub identities : Context M → Option Claims × Option VendorIdentity
  identities ctx = (claims_from_context M ctx, vendor_identity_from_context M ctx)

module _ (M : MetadataPackage) (J : JwtPackage) (P : Platform) where
  -- extractJWT is GetTokenFromContext followed by the validator.
  extract_jwt-eq :
      (now : ℕ) (ctx : Context M) (v : JwtValidator)
      → extract_jwt M J P now ctx v
        ≡ (do token ← get_token_from_context M P ctx; validate_jwt J P now v token)
  unfolding extract_jwt get_token_from_context
  extract_jwt-eq now ctx v = ground arith

  module _ {ℓ κ} {Req : Type ℓ} {Resp : Type κ} (now : ℕ) (jwt_val : JwtValidator)
      (key_val : ApiKeyValidator) (policy : String → AuthMode) (ctx : Context M) (req : Req)
      (method : String) (handler : Handler M P Req Resp) where
    abbrev pub result : Result (GoError P) Resp
    result = auth_interceptor M J P now jwt_val key_val policy ctx req method handler

    -- A method that the policy calls public reaches the handler with the context it came with. A JWT
    -- method reaches it exactly if the token of the request is valid, and then with the claims of the
    -- token and the vendor identity as it was; an API key method exactly if the key is valid, with
    -- the vendor and the claims as they were. Otherwise the result is the validator's error, whatever
    -- the handler. A mode that is none of the three constants is treated like a public one.
    pub auth_interceptor_lem :
        (policy method ≡ public → result ≡ handler ctx req)
        × (policy method ≡ jwt
            → ((e : Error P) × (extract_jwt M J P now ctx jwt_val ≡ failure e)
                × (result ≡ failure (app e)))
              ⊎ ((c : Claims) × (ctx' : Context M) × (extract_jwt M J P now ctx jwt_val ≡ success c)
                  × (result ≡ handler ctx' req)
                  × (identities M ctx' ≡ (some c, vendor_identity_from_context M ctx))
                  × (record ctx' { claims_value = ctx.claims_value } ≡ ctx)))
        × (policy method ≡ api_key
            → ((e : Error P) × (extract_api_key M J P ctx key_val ≡ failure e)
                × (result ≡ failure (app e)))
              ⊎ ((v : VendorIdentity) × (ctx' : Context M) × (extract_api_key M J P ctx key_val
                    ≡ success v)
                  × (result ≡ handler ctx' req)
                  × (identities M ctx' ≡ (claims_from_context M ctx, some v))
                  × (record ctx' { vendor_value = ctx.vendor_value } ≡ ctx)))
        × ((n : ℤ) → policy method ≡ other_mode n → result ≡ handler ctx req)
    unfolding auth_interceptor authenticate with_claims with_vendor_identity claims_from_context
        vendor_identity_from_context
    auth_interceptor_lem = (
      λ e. rw e refl,
      λ e. elim (Result-cases (extract_jwt M J P now ctx jwt_val)) [
        | inl (x, bad) ↦ inl (x, bad, rw (e, bad) refl)
        | inr (c, good) ↦ inr (c, with_claims M ctx (some c), good, rw (e, good) refl, refl, refl)
      ],
      λ e. elim (Result-cases (extract_api_key M J P ctx key_val)) [
        | inl (x, bad) ↦ inl (x, bad, rw (e, bad) refl)
        | inr (v, good) ↦
            inr (v, with_vendor_identity M ctx (some v), good, rw (e, good) refl, refl, refl)
      ],
      λ n e. rw e refl,
    )
