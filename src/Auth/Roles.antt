-- ===== src/Auth/Roles.antt =====
-- The role checks.
use grpcx.Common.{
  String, ◌≡◌, ◌≢◌, ◌↔◌, refl, ◌∙◌, ap, none, some, true, false, contains, string_equality, arith,
  ◌||◌, Option-cases, inl, inr,
}
use grpcx.Platform.{Platform, Code, unauthenticated, permission_denied, is_ok}
use grpcx.Context.{MetadataPackage, Context}
use grpcx.Auth.Types.{Claims, role_operator, role_admin}
use grpcx.Auth.{claims_from_context, require_admin, require_super_admin, status_errorf}

module _ (M : MetadataPackage) (P : Platform) where
  open P use {Err, new_status, code_of, err_of, code-new, err_some}

  -- status.Errorf with a code other than OK is an error.
  status_errorf_ne_none : (c : Code) (m : String) → is_ok c ≡ false → status_errorf M P c m ≢ none
  status_errorf_ne_none c m h =
      let (x, made) = err_some (new_status c m) (ap is_ok (code-new c m) ∙ h) in λ e. cc (made, e)

  -- RequireAdmin lets a request pass exactly if its context has claims with the role "operator" or
  -- "admin", RequireSuperAdmin exactly if they have "admin"; so who passes the second passes the first.
  -- Without claims both return the Unauthenticated error.
  pub require_iff :
      (ctx : Context M)
      → ((require_admin M P ctx ≡ none) ↔ (
          (c : Claims) × (claims_from_context M ctx ≡ some c)
          × (contains c.roles role_operator || contains c.roles role_admin ≡ true)))
        × ((require_super_admin M P ctx ≡ none) ↔ (
            (c : Claims) × (claims_from_context M ctx ≡ some c)
            × (contains c.roles role_admin ≡ true)))
        × (require_super_admin M P ctx ≡ none → require_admin M P ctx ≡ none)
        × (claims_from_context M ctx ≡ none
            → (require_admin M P ctx ≡ status_errorf M P unauthenticated "unauthenticated")
              × (require_super_admin M P ctx ≡ status_errorf M P unauthenticated "unauthenticated"))
  unfolding require_admin require_super_admin
  require_iff ctx =
      let no_claims : status_errorf M P unauthenticated "unauthenticated" ≢ none =
        status_errorf_ne_none unauthenticated "unauthenticated" refl in
      let no_admin : status_errorf M P permission_denied "admin role required" ≢ none =
        status_errorf_ne_none permission_denied "admin role required" refl in
      let no_super : status_errorf M P permission_denied "super_admin role required" ≢ none =
        status_errorf_ne_none permission_denied "super_admin role required" refl in
      elim (Option-cases (claims_from_context M ctx)) [
        | inl e ↦ ground arith
        | inr (c, e) ↦ ground arith
      ]
