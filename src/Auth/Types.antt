-- ===== src/Auth/Types.antt =====
-- auth/claims.go: roles, JWT claims and the identity behind an API key.
use grpcx.Common.{String, List}

abbrev pub Role : Type 0
Role = String

abbrev pub role_user : Role
role_user = "user"

abbrev pub role_agent : Role
role_agent = "agent"

abbrev pub role_operator : Role
role_operator = "operator"

abbrev pub role_admin : Role
role_admin = "admin"

abbrev pub role_super_admin : Role
role_super_admin = "super_admin"

pub record Claims : Type 0 where
  pub identity_id : String
  pub scope : String
  pub roles : List String
  pub email : String

pub record VendorIdentity : Type 0 where
  pub vendor_id : String
  pub name : String
