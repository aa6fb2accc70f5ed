-- ===== src/Ratelimit/Limits.antt =====
-- Which requests the interceptor lets through, and what they count against.
use grpcx.Common.{
  String, ◌≡◌, ◌≢◌, refl, ◌∙◌, ap, sym, Option, some, true, false, str_eq, string_equality, eq_iff,
  arith, Bool-cases, inl, inr, ◌⊎◌,
}
use grpcx.Common.Result.{failure}
use grpcx.Platform.{Platform, resource_exhausted, is_ok}
use grpcx.Errs.{foreign, FromError}
use grpcx.Context.{MetadataPackage, Context}
use grpcx.Auth.{Handler, claims_from_context}
use grpcx.Auth.Types.{Claims}
use grpcx.Ratelimit.{KeyFunc, Limiter, rate_limit_interceptor, key_by_user_id, key_by_ip}

module _ (M : MetadataPackage) (P : Platform) (domain : String) (F : FromError P domain) where
  open P use {Status, Err, new_status, code_of, message_of, err_of, code-new, message-new, err_some}

  -- A request without a key reaches the handler and leaves the limiter alone. One with a key is put to
  -- the limiter, which keeps its new state; it reaches the handler where the limiter allows it, and
  -- otherwise the result is a ResourceExhausted error, whatever the handler.
  pub rate_limit_interceptor_lem {ℓ κ ι} :
      {S : Type ℓ} {Req : Type κ} {Resp : Type ι} (key_fn : KeyFunc M) (allow : Limiter M S) (s : S)
      (ctx : Context M) (req : Req) (method : String) (handler : Handler M P Req (Option Resp))
      → let (after, result) = rate_limit_interceptor M P key_fn allow s ctx req method handler in
        let key : String = key_fn ctx method in
        ((key ≡ "") × (after ≡ s) × (result ≡ handler ctx req))
        ⊎ ((key ≢ "")
            × (after ≡ (allow s key).0)
            × ((allow s key).1 ≡ true)
            × (result ≡ handler ctx req))
        ⊎ ((key ≢ "")
            × (after ≡ (allow s key).0)
            × ((allow s key).1 ≡ false)
            × (x : Err) × (st : Status) × (result ≡ failure (foreign x))
            × (F.from_error (foreign x) ≡ (st, true))
            × (code_of st ≡ resource_exhausted))
  unfolding rate_limit_interceptor
  rate_limit_interceptor_lem key_fn allow s ctx req method handler =
      elim (Bool-cases (str_eq (key_fn ctx method) "")) [
        | inl blank ↦ inl ((eq_iff (key_fn ctx method) "").0 blank, rw blank refl, rw blank refl)
        | inr keyed ↦ elim (Bool-cases (allow s (key_fn ctx method)).1) [
          | inl passes ↦
              inr (inl (apart keyed, rw (keyed, passes) refl, passes, rw (keyed, passes) refl))
          | inr stopped ↦
              let st : Status = new_status resource_exhausted "rate limit exceeded" in
              let (x, made) =
                err_some st (ap is_ok (code-new resource_exhausted "rate limit exceeded")) in
              inr (
                inr (
                  apart keyed,
                  rw (keyed, stopped) refl,
                  stopped,
                  x,
                  st,
                  rw (keyed, stopped, made) refl,
                  F.from_err st x made,
                  code-new resource_exhausted "rate limit exceeded",
                ))
        ]
      ]
    where
      apart : str_eq (key_fn ctx method) "" ≡ false → key_fn ctx method ≢ ""
      apart h e = let f : true ≡ false = sym ((eq_iff (key_fn ctx method) "").1 e) ∙ h in cc

module _ (M : MetadataPackage) where
  -- With KeyByUserID a user counts under one key at every address and for every method; who has no
  -- claims, or claims without an ID, counts under the address, as with KeyByIP.
  pub key_by_user_id_lem :
      (ctx ctx' : Context M) (method method' : String) (c c' : Claims)
      → claims_from_context M ctx ≡ some c
      → claims_from_context M ctx' ≡ some c'
      → c.identity_id ≡ c'.identity_id
      → ((c.identity_id ≢ "") × (key_by_user_id M ctx method ≡ key_by_user_id M ctx' method'))
        ⊎ ((c.identity_id ≡ "") × (key_by_user_id M ctx method ≡ key_by_ip M ctx method))
  unfolding key_by_user_id key_by_ip
  key_by_user_id_lem ctx ctx' method method' c c' h h' same =
      ground (arith, eq_iff c.identity_id "", eq_iff c'.identity_id "")
